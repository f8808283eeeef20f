-- ===== src/WiringAdmin/Receiving.antt =====
-- Which service receives a request.
use mathlib.Core.Bool.{true≢false}
use mathlib.Core.Option.{none-ne-some, some-injective}
use node_wiring_secure.Base.{
  Bool, true, false, CString, codes, same_text, same_text_iff, same_text_refl, ◌⊎◌, List, [], ◌∷◌,
  ◌++◌, Option, none, some, if◌then◌else◌, ◌==◌, Bool-cases, Option-cases, inl, inr, ◌≡◌, refl, sym,
  subst, ap, ◌∙◌, All, All-append, All-erase_first, erase_first,
}
use node_wiring_secure.Celix.{Status}
use node_wiring_secure.Celix.HashMap.{lookup, insert, remove}
use node_wiring_secure.WiringAdmin.{
  Receiver, Services, receive_added, put_or_remove, removed_from, receive_removed, pick, reply,
  response, callback,
}

abbrev pub is_nil : List Receiver → Bool
is_nil [] = true
is_nil (r ∷ rs) = false

-- Each list has a service, and the services of its wire only.
abbrev pub Filed : Services → Type 0
Filed m = All (λ x. (is_nil x.1 ≡ false) × All (λ r. r.wire ≡ x.0) x.1) m

insert-Filed :
    (w : CString) (rs : List Receiver) (m : Services)
    → is_nil rs ≡ false
    → All (λ r. r.wire ≡ w) rs
    → Filed m
    → Filed (insert same_text w rs m)
unfolding insert
insert-Filed w rs [] full all h = ((full, all), tt)
insert-Filed w rs ((v, qs) ∷ m) full all h = elim (Bool-cases (same_text w v)) [
  | inl hit ↦
      rw hit ((full, subst (λ u. All (λ r. r.wire ≡ u) rs) ((same_text_iff w v).0 hit) all), h.1)
  | inr miss ↦ rw miss (h.0, insert-Filed w rs m full all h.1)
]

remove-Filed : (w : CString) (m : Services) → Filed m → Filed (remove same_text w m)
unfolding remove
remove-Filed w [] h = tt
remove-Filed w ((v, qs) ∷ m) h = elim (Bool-cases (same_text w v)) [
  | inl hit ↦ rw hit h.1
  | inr miss ↦ rw miss (h.0, remove-Filed w m h.1)
]

lookup-wires :
    (w : CString) (rs : List Receiver) (m : Services)
    → Filed m
    → lookup same_text w m ≡ some rs
    → All (λ r. r.wire ≡ w) rs
unfolding lookup
lookup-wires w rs [] h found = absurd (none-ne-some rs found)
lookup-wires w rs ((v, qs) ∷ m) h found = elim (Bool-cases (same_text w v)) [
  | inl hit ↦
      subst (All (λ r. r.wire ≡ w))
        (some-injective qs rs
          (ap (λ b. if b then some qs else lookup same_text w m) (sym hit) ∙ found))
        (subst (λ u. All (λ r. r.wire ≡ u) qs) (sym ((same_text_iff w v).0 hit)) h.0.1)
  | inr miss ↦
      lookup-wires w rs m h.1
        (ap (λ b. if b then some qs else lookup same_text w m) (sym miss) ∙ found)
]

append_full : (rs : List Receiver) (r : Receiver) → is_nil (rs ++ (r ∷ [])) ≡ false
append_full [] r = refl
append_full (q ∷ rs) r = refl

-- A service that comes is filed under its wire, and all lists stay as they should.
receive_added-Filed : (r : Receiver) (m : Services) → Filed m → Filed (receive_added r m)
unfolding receive_added
receive_added-Filed r m h = elim (Option-cases (lookup same_text r.wire m)) [
  | inl fresh ↦ rw fresh (insert-Filed r.wire (r ∷ []) m refl (refl, tt) h)
  | inr (rs, found) ↦ rw found (
      insert-Filed r.wire (rs ++ (r ∷ [])) m (append_full rs r)
        (All-append (λ q. q.wire ≡ r.wire) rs (r ∷ []) (lookup-wires r.wire rs m h found)
          (refl, tt))
        h)
]

put_or_remove-Filed :
    (w : CString) (rs : List Receiver) (m : Services)
    → All (λ r. r.wire ≡ w) rs
    → Filed m
    → Filed (put_or_remove w rs m)
unfolding put_or_remove
put_or_remove-Filed w [] m all h = remove-Filed w m h
put_or_remove-Filed w (r ∷ rs) m all h = insert-Filed w (r ∷ rs) m refl all h

receive_removed-Filed : (r : Receiver) (m : Services) → Filed m → Filed (receive_removed r m)
unfolding receive_removed removed_from
receive_removed-Filed r m h = elim (Option-cases (lookup same_text r.wire m)) [
  | inl fresh ↦ rw fresh h
  | inr (rs, found) ↦ rw found (
      put_or_remove-Filed r.wire (erase_first (λ q. q.address == r.address) rs) m
        (All-erase_first (λ q. q.wire ≡ r.wire) (λ q. q.address == r.address) rs
          (lookup-wires r.wire rs m h found))
        h)
]

-- Services come and go.
pub data Move : Type 0 where
  came went : Receiver → Move

unfoldable pub moves : List Move → Services → Services
moves [] m = m
moves (came r ∷ more) m = moves more (receive_added r m)
moves (went r ∷ more) m = moves more (receive_removed r m)

moves-Filed : (more : List Move) (m : Services) → Filed m → Filed (moves more m)
unfolding moves
moves-Filed [] m h = h
moves-Filed (came r ∷ more) m h = moves-Filed more (receive_added r m) (receive_added-Filed r m h)
moves-Filed (went r ∷ more) m h =
    moves-Filed more (receive_removed r m) (receive_removed-Filed r m h)

pick-Filed :
    (m : Services)
    → Filed m
    → ((m ≡ []) × (pick m ≡ none))
      ⊎ ((w : CString) × (r : Receiver) × (rs : List Receiver) × (rest : Services) × (m
            ≡ (w, r ∷ rs) ∷ rest)
          × (pick m ≡ some r)
          × (r.wire ≡ w))
unfolding pick
pick-Filed [] h = inl (refl, refl)
pick-Filed ((w, []) ∷ m) h = absurd (true≢false h.0.0)
pick-Filed ((w, r ∷ rs) ∷ m) h = inr (w, r, rs, m, refl, refl, h.0.1.0)

-- However receive services have come and gone, a POST is answered with no content exactly if none is
-- there; otherwise it goes to the first service of the first wire of the map, whatever the URI is, so
-- that a service of another wire is not asked while that wire has one.
pub callback-moves :
    (receive : Receiver → CString → Status × Option CString) (more : List Move)
    (uri request : CString)
    → ((moves more [] ≡ [])
        × (callback receive (moves more []) (some uri) (codes "POST") request
            ≡ some (1, reply none)))
      ⊎ ((w : CString) × (r : Receiver) × (rs : List Receiver) × (rest : Services) × (moves more []
            ≡ (w, r ∷ rs) ∷ rest)
          × (r.wire ≡ w)
          × (callback receive (moves more []) (some uri) (codes "POST") request
              ≡ some (1, reply (response (receive r request)))))
unfolding callback
callback-moves receive more uri request =
    elim (pick-Filed (moves more []) (moves-Filed more [] tt)) [
      | inl (empty, none_there) ↦ inl (empty, rw (none_there, same_text_refl (codes "POST")))
      | inr (w, r, rs, rest, there, first, wired) ↦
          inr (w, r, rs, rest, there, wired, rw (first, same_text_refl (codes "POST")))
    ]
