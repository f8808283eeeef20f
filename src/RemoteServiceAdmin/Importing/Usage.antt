-- ===== src/RemoteServiceAdmin/Importing/Usage.antt =====
-- The use of the proxies of an imported service, and what is left of them when the import is removed.
use node_wiring_secure.Base.{
  ℕ, ◌+◌, ◌-◌, ◌%◌, ◌^◌, ◌≤◌, ◌<◌, false, CString, List, [], ◌∷◌, Option, none, some, ◌>>=◌, ◌==◌,
  ==_iff, if◌then◌else◌, ◌≡◌, ◌≢◌, refl, sym, ap, subst, ◌∙◌, arith, length, inl, inr, Option-cases,
  Bool-cases,
}
use mathlib.Core.Bool.{true≢false}
use node_wiring_secure.Celix.{success}
use node_wiring_secure.Celix.HashMap.{
  Map, lookup, insert, remove, Keyed, AllValues, lookup-insert, insert-AllValues,
}
use node_wiring_secure.Celix.HashMap.Removal.{
  lookup-remove, insert-Keyed, remove-Keyed, remove-AllValues,
}
use node_wiring_secure.RemoteServiceAdmin.Importing.{
  Proxy, Import, Making, create_proxy, new_proxy, get_service, get_new, unget_service, unget_found,
  keep_or_drop,
}

-- A bundle gets the service, with what the making of a proxy would meet, or gives back the one it got.
pub data Use : Type 0 where
  gets_it : Making → ℕ → Use
  gives_back : ℕ → Use

got_by : ℕ → Import → ℕ
got_by b i = elim (lookup (λ x y. x == y) b i.proxies) [ none ↦ 0 | some p ↦ p.service ]

unfoldable pub use_once : Use → Import → Option Import
unfolding got_by
use_once (gets_it a b) i = do (status, out, i') ← get_service a b i; some i'
use_once (gives_back b) i = do (status, i') ← unget_service b (got_by b i) i; some i'

unfoldable pub use_all : List Use → Import → Option Import
use_all [] i = some i
use_all (u ∷ us) i = do i' ← use_once u i; use_all us i'

-- How many more times each bundle has got the service than given it back.
unfoldable pub counted : Use → (ℕ → ℕ) → ℕ → ℕ
counted (gets_it a b) f c = if c == b then f c + 1 else f c
counted (gives_back b) f c = if c == b then f c - 1 else f c

unfoldable pub balance : List Use → (ℕ → ℕ) → ℕ → ℕ
balance [] f = f
balance (u ∷ us) f = balance us (counted u f)

-- A proxy can be made whenever one is needed.
abbrev pub CanMake : CString → Use → Type 0
CanMake class (gets_it a b) = (s : ℕ) × (create_proxy a class ≡ some (success, some s))
CanMake class (gives_back b) = Unit

abbrev pub AllCanMake : CString → List Use → Type 0
AllCanMake class [] = Unit
AllCanMake class (u ∷ us) = CanMake class u × AllCanMake class us

-- A bundle with a positive balance has a proxy with that count, and one without has none.
abbrev pub Counts : ℕ → Option Proxy → Type 0
Counts n none = n ≡ 0
Counts n (some p) = (p.count ≡ n) × (0 < n) × (p.is_freed ≡ false)

abbrev pub Live : Proxy → Type 0
Live p = p.is_freed ≡ false

abbrev pub found_for : ℕ → Import → Option Proxy
found_for b i = lookup (λ x y. x == y) b i.proxies

-- What holds after so many gets and returns.
pub record Holds (class : CString) (f : ℕ → ℕ) (i : Import) : Type 0 where
  pub same_class : i.class_object ≡ class
  pub keyed : Keyed (λ x y. x == y) i.proxies
  pub live : AllValues Live (λ x y. x == y) i.proxies
  pub counts : (b : ℕ) → Counts (f b) (found_for b i)

Counts-insert :
    (f g : ℕ → ℕ) (b : ℕ) (p : Proxy) (m : Map ℕ Proxy)
    → Counts (g b) (some p)
    → ((c : ℕ) → (c == b) ≡ false → g c ≡ f c)
    → ((c : ℕ) → Counts (f c) (lookup (λ x y. x == y) c m))
    → (c : ℕ) → Counts (g c) (lookup (λ x y. x == y) c (insert (λ x y. x == y) b p m))
Counts-insert f g b p m here others all c =
    rw (lookup-insert (λ x y. x == y) ==_iff b c p m) (elim (Bool-cases (c == b)) [
      | inl hit ↦ rw hit (subst (λ x. Counts (g x) (some p)) (sym ((==_iff c b).0 hit)) here)
      | inr miss ↦ rw (miss, others c miss) (all c)
    ])

Counts-remove :
    (f g : ℕ → ℕ) (b : ℕ) (m : Map ℕ Proxy)
    → Keyed (λ x y. x == y) m
    → g b ≡ 0
    → ((c : ℕ) → (c == b) ≡ false → g c ≡ f c)
    → ((c : ℕ) → Counts (f c) (lookup (λ x y. x == y) c m))
    → (c : ℕ) → Counts (g c) (lookup (λ x y. x == y) c (remove (λ x y. x == y) b m))
Counts-remove f g b m keyed here others all c =
    rw (lookup-remove (λ x y. x == y) ==_iff b c m keyed) (elim (Bool-cases (c == b)) [
      | inl hit ↦ rw hit (subst (λ x. g x ≡ 0) (sym ((==_iff c b).0 hit)) here)
      | inr miss ↦ rw (miss, others c miss) (all c)
    ])

counted_same : (a : Making) (b : ℕ) (f : ℕ → ℕ) → counted (gets_it a b) f b ≡ f b + 1
unfolding counted
counted_same a b f = ground arith

counted_back : (b : ℕ) (f : ℕ → ℕ) → counted (gives_back b) f b ≡ f b - 1
unfolding counted
counted_back b f = ground arith

counted_none : (b : ℕ) (f : ℕ → ℕ) → f b ≡ 0 → (c : ℕ) → f c ≡ counted (gives_back b) f c
unfolding counted
counted_none b f none_left c = elim (Bool-cases (c == b)) [
  | inl hit ↦ rw hit (omega (arith, none_left, ap f ((==_iff c b).0 hit)))
  | inr miss ↦ rw miss
]

got_by_lem : (b : ℕ) (i : Import) (p : Proxy) → found_for b i ≡ some p → got_by b i ≡ p.service
unfolding got_by
got_by_lem b i p there = rw (got_by, there)

module _ (class : CString) (f : ℕ → ℕ) (i : Import) (h : Holds class f i) where
  put-Holds :
      (g : ℕ → ℕ) (b : ℕ) (p : Proxy)
      → Counts (g b) (some p)
      → ((c : ℕ) → (c == b) ≡ false → g c ≡ f c)
      → Holds class g (record i { proxies = insert (λ x y. x == y) b p i.proxies })
  put-Holds g b p here others = record {
    same_class = h.same_class;
    keyed = insert-Keyed (λ x y. x == y) ==_iff b p i.proxies h.keyed;
    live = insert-AllValues Live (λ x y. x == y) b p i.proxies here.2 h.live;
    counts = Counts-insert f g b p i.proxies here others h.counts;
  }

  drop-Holds :
      (g : ℕ → ℕ) (b : ℕ)
      → g b ≡ 0
      → ((c : ℕ) → (c == b) ≡ false → g c ≡ f c)
      → Holds class g (record i { proxies = remove (λ x y. x == y) b i.proxies })
  drop-Holds g b here others = record {
    same_class = h.same_class;
    keyed = remove-Keyed (λ x y. x == y) ==_iff b i.proxies h.keyed;
    live = remove-AllValues Live (λ x y. x == y) b i.proxies h.live;
    counts = Counts-remove f g b i.proxies h.keyed here others h.counts;
  }

  at : (b : ℕ) {o : Option Proxy} → found_for b i ≡ o → Counts (f b) o
  at b e = subst (Counts (f b)) e (h.counts b)

  -- A bundle gets the service.
  gets_it-Holds :
      (a : Making) (b : ℕ)
      → CanMake class (gets_it a b)
      → f b + 1 < 2 ^ 64
      → (i' : Import) × (use_once (gets_it a b) i ≡ some i')
        × Holds class (counted (gets_it a b) f) i'
  unfolding use_once get_service get_new counted
  gets_it-Holds a b can bound = elim (Option-cases (found_for b i)) [
    | inl missing ↦
        let made : create_proxy a i.class_object ≡ some (success, some can.0) =
          ap (create_proxy a) h.same_class ∙ can.1 in
        (
          record i { proxies = insert (λ x y. x == y) b (new_proxy can.0) i.proxies },
          rw (get_service, missing, get_new, made),
          put-Holds _ b _
              (
                omega (arith, counted_same a b f, at b missing),
                omega (arith, counted_same a b f),
                refl,
              )
              (λ c miss. rw miss),
        )
    | inr (p, there) ↦
        let (same, positive, live) = at b there in
        (
          record i {
            proxies =
                insert (λ x y. x == y) b (record p { count = (p.count + 1) % 2 ^ 64 }) i.proxies;
          },
          rw (get_service, there, live),
          put-Holds _ b _
              (
                omega (arith, counted_same a b f, same, bound),
                omega (arith, counted_same a b f),
                live,
              )
              (λ c miss. rw miss),
        )
  ]

  -- A bundle gives the service back.
  gives_back-Holds :
      (b : ℕ)
      → f b + 1 < 2 ^ 64
      → (i' : Import) × (use_once (gives_back b) i ≡ some i')
        × Holds class (counted (gives_back b) f) i'
  unfolding use_once unget_service counted
  gives_back-Holds b bound = elim (Option-cases (found_for b i)) [
    | inl missing ↦ (
      i,
      rw (unget_service, missing),
      record {
        same_class = h.same_class;
        keyed = h.keyed;
        live = h.live;
        counts = λ c.
            subst (λ n. Counts n (found_for c i)) (counted_none b f (at b missing) c) (h.counts c);
      },
    )
    | inr (p, there) ↦
        let (same, positive, live) = at b there in
        let count = (p.count + (2 ^ 64 - 1)) % 2 ^ 64 in
        let itself = (==_iff (got_by b i) p.service).1 (got_by_lem b i p there) in
        elim (Bool-cases (count == 0)) [
          | inl last ↦ (
            record i { proxies = remove (λ x y. x == y) b i.proxies },
            rw (unget_service, there, unget_found, live, itself, keep_or_drop, last),
            drop-Holds _ b (omega (arith, counted_back b f, same, (==_iff count 0).0 last, bound))
                (λ c miss. rw miss),
          )
          | inr more ↦
              let more_than_one : count ≢ 0 = λ e. true≢false (sym ((==_iff count 0).1 e) ∙ more) in
              (
                record i {
                  proxies = insert (λ x y. x == y) b (record p { count = count }) i.proxies;
                },
                rw (unget_service, there, unget_found, live, itself, keep_or_drop, more),
                put-Holds _ b _
                    (
                      omega (arith, counted_back b f, same, positive, bound),
                      omega (arith, counted_back b f, same, positive, bound, more_than_one),
                      live,
                    )
                    (λ c miss. rw miss),
              )
        ]
  ]

-- One use, of either kind.
use_once-Holds :
    (u : Use) (class : CString) (f : ℕ → ℕ) (i : Import)
    → CanMake class u
    → ((b : ℕ) → f b + 1 < 2 ^ 64)
    → Holds class f i
    → (i' : Import) × (use_once u i ≡ some i') × Holds class (counted u f) i'
use_once-Holds (gets_it a b) class f i can bound h = gets_it-Holds class f i h a b can (bound b)
use_once-Holds (gives_back b) class f i can bound h = gives_back-Holds class f i h b (bound b)

counted-≤ : (u : Use) (f : ℕ → ℕ) (c : ℕ) → counted u f c ≤ f c + 1
unfolding counted
counted-≤ (gets_it a b) f c = ground arith
counted-≤ (gives_back b) f c = ground arith

pub use_all-Holds :
    (us : List Use) (class : CString) (f : ℕ → ℕ) (i : Import)
    → AllCanMake class us
    → ((b : ℕ) → f b + length us < 2 ^ 64)
    → Holds class f i
    → (i' : Import) × (use_all us i ≡ some i') × Holds class (balance us f) i'
unfolding use_all balance
use_all-Holds [] class f i can bound h = (i, refl, h)
use_all-Holds (u ∷ us) class f i can bound h =
    let (i1, ran, h1) = use_once-Holds u class f i can.0 (λ b. omega (arith, bound b)) h in
    let (i2, ran', h2) =
      use_all-Holds us class (counted u f) i1 can.1 (λ b. omega (arith, bound b, counted-≤ u f b))
        h1 in
    (i2, rw ran ran', h2)
