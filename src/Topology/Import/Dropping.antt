-- ===== src/Topology/Import/Dropping.antt =====
-- What the removal of a requested import leaves behind.
use mathlib.Core.Option.{none-ne-some}
use node_wiring_secure.Base.{
  ℕ, zero, suc, ◌+◌, ◌*◌, ◌≤◌, Bool, true, false, List, [], ◌∷◌, Option, none, some, Option-cases,
  inl, inr, if◌then◌else◌, ◌≡◌, ◌⊎◌, refl, ap, ◌∙◌, ◌&&◌, ◌||◌, any, length, get_elem?, erase_at,
  arith,
}
use node_wiring_secure.Celix.{Properties, Status, success}
use node_wiring_secure.Celix.HashMap.{Map}
use node_wiring_secure.Endpoint.{Endpoint}
use node_wiring_secure.Topology.World.{Admin, World, History, Outside, M, ◌>>=◌, pure, bind_at}
use node_wiring_secure.Topology.Matching.{properties_match}
use node_wiring_secure.Topology.Import.{
  drop_importers, drop_one, drop_matching, remove_imported_wiring_endpoint,
}

module _ {ℓ} {A : Type ℓ} where
  get_elem?_past : (l : List A) (i : ℕ) → length l ≤ i → get_elem? l i ≡ none
  get_elem?_past [] i h = refl
  get_elem?_past (x ∷ l) zero h = absurd (omega (arith, h))
  get_elem?_past (x ∷ l) (suc i) h = get_elem?_past l i (omega (arith, h))

  length-erase_at :
      (l : List A) (i : ℕ) (x : A) → get_elem? l i ≡ some x → length l ≡ suc (length (erase_at i l))
  unfolding erase_at
  length-erase_at [] i x h = absurd (none-ne-some x h)
  length-erase_at (y ∷ l) zero x h = refl
  length-erase_at (y ∷ l) (suc i) x h = ap suc (length-erase_at l i x h)

-- A step that faults is all there is.
bind_fault {ℓ κ} :
    {A : Type ℓ} {B : Type κ} (m : M A) (f : A → M B) (w : World) → m w ≡ none → (m >>= f) w ≡ none
bind_fault {A} m f w h =
    ap (λ (r : Option (A × World)). elim r [ none ↦ none | some (x, v) ↦ f x v ]) h

-- The index comes past the end of a list that becomes shorter at each round.
drop_importers-fault :
    (o : Outside) (e : Endpoint) (rounds i : ℕ) (admins : List Admin) (status : Status) (w : World)
    → length admins ≤ i + 2 * rounds
    → drop_importers o e (suc rounds) i admins status w ≡ none
unfolding drop_importers
drop_importers-fault o e zero i admins status w short =
    rw (get_elem?_past admins i (omega (arith, short)))
drop_importers-fault o e (suc rounds) i admins status w short =
    elim (Option-cases (get_elem? admins i)) [
      | inl gone ↦ rw gone
      | inr (a, there) ↦ rw there (
          drop_importers-fault o e rounds (suc i) (erase_at i admins) _ _
            (omega (arith, short, length-erase_at admins i a there)))
    ]

-- The list has at least two admins.
abbrev pub is_crowded : List Admin → Bool
is_crowded [] = false
is_crowded (a ∷ []) = false
is_crowded (a ∷ b ∷ admins) = true

-- The imported endpoint answers the request, and at least two admins have imported it.
unfoldable pub blocks : Outside → Properties → Endpoint × List Admin → Bool
blocks o p (e, admins) = properties_match o p e.properties && is_crowded admins

-- The endpoints that answer the request have no admin left.
unfoldable pub cleared :
    Outside → Properties → Map Endpoint (List Admin) → Map Endpoint (List Admin)
cleared o p [] = []
cleared o p ((e, admins) ∷ m) =
    (e, if properties_match o p e.properties then [] else admins) ∷ cleared o p m

-- A step faults if `b`, and otherwise gives `a` with some status and changes the history only.
abbrev Faults {ℓ} : {A : Type ℓ} → Bool → M (A × Status) → A → World → Type ℓ
Faults b m a w =
    ((b ≡ true) × (m w ≡ none))
    ⊎ ((b ≡ false)
        × ((status : Status) × (h : History) × (m w
              ≡ some ((a, status), record w { history = h }))))

Faults-bind {ℓ κ} :
    {A : Type ℓ} {C : Type κ} (b c : Bool) (m : M (A × Status)) (k : A × Status → M (C × Status))
    (a : A) (x : C) (w : World)
    → Faults b m a w
    → ((status : Status) (h : History) → Faults c (k (a, status)) x (record w { history = h }))
    → Faults (b || c) (m >>= k) x w
Faults-bind b c m k a x w (inl (bad, ran)) rest = inl (ground (arith, bad), bind_fault m k w ran)
Faults-bind b c m k a x w (inr (fine, (status, h, ran))) rest = elim (rest status h) [
  | inl (bad, ran') ↦ inl (ground (arith, bad), bind_at m k w ran ∙ ran')
  | inr (fine', (last, h', ran')) ↦
      inr (ground (arith, fine, fine'), (last, h', bind_at m k w ran ∙ ran'))
]

Faults-map {ℓ κ} :
    {A : Type ℓ} {C : Type κ} (b : Bool) (m : M (A × Status)) (f : A → C) (a : A) (w : World)
    → Faults b m a w
    → Faults b (m >>= λ r. pure (f r.0, r.1)) (f a) w
Faults-map b m f a w (inl (bad, ran)) = inl (bad, bind_fault m (λ r. pure (f r.0, r.1)) w ran)
Faults-map b m f a w (inr (fine, (status, h, ran))) =
    inr (fine, (status, h, bind_at m (λ r. pure (f r.0, r.1)) w ran))

drop_importers-Faults :
    (o : Outside) (e : Endpoint) (admins : List Admin) (status : Status) (w : World)
    → Faults (is_crowded admins) (drop_importers o e (length admins) 0 admins status) [] w
unfolding drop_importers erase_at
drop_importers-Faults o e [] status w = inr (refl, (status, w.history, refl))
drop_importers-Faults o e (a ∷ []) status w = inr (refl, (_, _, refl))
drop_importers-Faults o e (a ∷ b ∷ admins) status w =
    inl (
      refl,
      drop_importers-fault o e (suc (length admins)) 0 (a ∷ b ∷ admins) status w (omega arith),
    )

drop_one-Faults :
    (o : Outside) (p : Properties) (e : Endpoint) (admins : List Admin) (status : Status)
    (w : World)
    → Faults
        (blocks o p (e, admins))
        (drop_one o p e admins status)
        (if properties_match o p e.properties then [] else admins)
        w
unfolding blocks
drop_one-Faults o p e admins status w =
    elim (properties_match o p e.properties)
      as (λ b.
        Faults (b && is_crowded admins)
          (if b then drop_importers o e (length admins) 0 admins status else pure (admins, status))
          (if b then [] else admins) w) [
            | true ↦ drop_importers-Faults o e admins status w
            | false ↦ inr (refl, (status, w.history, refl))
          ]

-- What follows one endpoint in drop_matching.
abbrev drop_rest :
    Outside
    → Properties
    → Endpoint
    → Map Endpoint (List Admin)
    → List Admin × Status
    → M (Map Endpoint (List Admin) × Status)
drop_rest o p e m (left, now) = do
  (rest, last) ← drop_matching o p m now
  pure ((e, left) ∷ rest, last)

drop_matching-Faults :
    (o : Outside) (p : Properties) (m : Map Endpoint (List Admin)) (status : Status) (w : World)
    → Faults (any (blocks o p) m) (drop_matching o p m status) (cleared o p m) w
unfolding drop_matching any cleared
drop_matching-Faults o p [] status w = inr (refl, (status, w.history, refl))
drop_matching-Faults o p ((e, admins) ∷ m) status w =
    Faults-bind (blocks o p (e, admins)) (any (blocks o p) m) (drop_one o p e admins status)
      (drop_rest o p e m) _ _ w (drop_one-Faults o p e admins status w)
      (λ now h.
        Faults-map (any (blocks o p) m) (drop_matching o p m now)
          (λ rest. (e, if properties_match o p e.properties then [] else admins) ∷ rest)
          (cleared o p m) (record w { history = h })
          (drop_matching-Faults o p m now (record w { history = h })))

-- The removal of a requested import reads through a null pointer just if some endpoint that answers
-- the request has been imported by two admins or more. Otherwise it returns: the endpoints that
-- answer the request have no admin left, and nothing else of the manager changes.
pub remove_imported_wiring_endpoint-Faults :
    (o : Outside) (p : Properties) (w : World)
    → ((any (blocks o p) w.manager.imported ≡ true)
        × (remove_imported_wiring_endpoint o p w ≡ none))
      ⊎ ((any (blocks o p) w.manager.imported ≡ false)
          × ((status : Status) × (h : History) × (remove_imported_wiring_endpoint o p w
                ≡ some (
                  status,
                  record {
                    manager = record (w.manager) { imported = cleared o p w.manager.imported };
                    history = h;
                  },
                ))))
unfolding remove_imported_wiring_endpoint
remove_imported_wiring_endpoint-Faults o p w =
    let m = w.manager.imported in
    elim (drop_matching-Faults o p m success w) [
      | inl (bad, ran) ↦ inl (bad, bind_fault (drop_matching o p m success) _ w ran)
      | inr (fine, (status, h, ran)) ↦
          inr (fine, (status, h, bind_at (drop_matching o p m success) _ w ran))
    ]
