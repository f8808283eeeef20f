-- ===== src/Discovery/Notices.antt =====
-- How often one listener is told of endpoints: the callbacks among the events of each loop.
use node_wiring_secure.Base.{
  ℕ, ◌+◌, Bool, true, false, List, [], ◌∷◌, ◌++◌, none, if◌then◌else◌, ◌==◌, Bool-cases, inl, inr,
  ◌≡◌, refl, not, ◌&&◌, any, filter, count, arith, count-append, count-filter,
}
use node_wiring_secure.Endpoint.{Endpoint}
use node_wiring_secure.Discovery.Listening.{
  Event, added, removed, Framework, Listeners, notice, inform, accepts, rsa_key, is_none,
}
use node_wiring_secure.Discovery.Loops.{announce}
use node_wiring_secure.Discovery.Wires.{
  same_wire, fresh, merge_events, without_wires, withdraw_events,
}

-- A wiringEndpointAdded callback of listener `r`, for an endpoint in `p`.
unfoldable pub is_addition : ℕ → (Endpoint → Bool) → Event → Bool
is_addition r p (added q e s) = (r == q) && p e
is_addition r p _ = false

unfoldable pub is_removal : ℕ → (Endpoint → Bool) → Event → Bool
is_removal r p (removed q e s) = (r == q) && p e
is_removal r p _ = false

abbrev pub additions : ℕ → (Endpoint → Bool) → List Event → ℕ
additions r p ev = count (is_addition r p) ev

abbrev pub removals : ℕ → (Endpoint → Bool) → List Event → ℕ
removals r p ev = count (is_removal r p) ev

-- The endpoints in `p` that the listener's filter accepts.
abbrev pub heard : Framework → ℕ → (Endpoint → Bool) → Endpoint → Bool
heard f r p e = accepts f r e && p e

abbrev pub times : ℕ → Listeners → ℕ
times r rs = count (λ q. r == q) rs

abbrev one_if : Bool → ℕ
one_if b = if b then 1 else 0

abbrev flag : Bool → Bool → Bool
flag b c = if b then c else false

module _ (f : Framework) (r : ℕ) (p : Endpoint → Bool) where
  -- The callbacks that listener `r` gets when listener `q` is noticed.
  notice_counts :
      (q : ℕ) (e : Endpoint) (b : Bool)
      → (additions r p (notice f q e b)
          ≡ one_if ((r == q) && (b && (is_none (f.property q rsa_key) && heard f q p e))))
        × (removals r p (notice f q e b) ≡ one_if ((r == q) && (not b && heard f q p e)))
  unfolding notice count is_addition is_removal
  notice_counts q e true = ground arith
  notice_counts q e false = ground arith

  split :
      (q : ℕ) (rs : Listeners) (e : Endpoint) (b : Bool)
      → (additions r p (inform f (q ∷ rs) e b)
          ≡ additions r p (notice f q e b) + additions r p (inform f rs e b))
        × (removals r p (inform f (q ∷ rs) e b)
            ≡ removals r p (notice f q e b) + removals r p (inform f rs e b))
  unfolding inform
  split q rs e b = (
    count-append (is_addition r p) (notice f q e b) (inform f rs e b),
    count-append (is_removal r p) (notice f q e b) (inform f rs e b),
  )

  inform_absent :
      (rs : Listeners) (e : Endpoint) (b : Bool)
      → times r rs ≡ 0
      → (additions r p (inform f rs e b) ≡ 0) × (removals r p (inform f rs e b) ≡ 0)
  unfolding count
  inform_absent [] e b h = unfold inform in (refl, refl)
  inform_absent (q ∷ rs) e b h =
      ground (arith, inform_absent rs e b, split q rs e b, notice_counts q e b)

  -- A listener that is there once is called once if its filter accepts the endpoint; a remote
  -- service admin is not told of additions.
  inform_counts :
      (rs : Listeners) (e : Endpoint) (b : Bool)
      → times r rs ≡ 1
      → (additions r p (inform f rs e b)
          ≡ one_if (b && (is_none (f.property r rsa_key) && heard f r p e)))
        × (removals r p (inform f rs e b) ≡ one_if (not b && heard f r p e))
  unfolding count
  inform_counts [] e b h = absurd (omega arith)
  inform_counts (q ∷ rs) e b h = elim (Bool-cases (r == q)) [
    | inl hit ↦
        let same : r ≡ q = ground arith in
        let gone : times r rs ≡ 0 = ground arith in
        rw (← same) (ground (arith, inform_absent rs e b gone, split r rs e b, notice_counts r e b))
    | inr miss ↦
        ground (arith, inform_counts rs e b (ground arith), split q rs e b, notice_counts q e b)
  ]

  module _ (rs : Listeners) (present : times r rs ≡ 1) where
    pub announce_removed :
        (es : List Endpoint)
        → (additions r p (announce f rs es false) ≡ 0)
          × (removals r p (announce f rs es false) ≡ count (heard f r p) es)
    unfolding announce count
    announce_removed [] = (refl, refl)
    announce_removed (e ∷ es) =
        let rest = announce f rs es false in
        ground (
          arith,
          announce_removed es,
          inform_counts rs e false present,
          count-append (is_addition r p) (inform f rs e false) rest,
          count-append (is_removal r p) (inform f rs e false) rest,
        )

    pub withdraw_counts :
        (requested es : List Endpoint)
        → (additions r p (withdraw_events f rs requested es) ≡ 0)
          × (removals r p (withdraw_events f rs requested es)
                + count (heard f r p) (without_wires requested es)
              ≡ count (heard f r p) es)
    unfolding withdraw_events without_wires
    withdraw_counts [] es = unfold count in (refl, omega arith)
    withdraw_counts (e ∷ requested) es =
        let gone : List Endpoint = filter (same_wire e) es in
        let left : List Endpoint = filter (λ d. not (same_wire e d)) es in
        let later = withdraw_events f rs requested left in
        ground (
          arith,
          withdraw_counts requested left,
          announce_removed gone,
          count-append (is_addition r p) (announce f rs gone false) later,
          count-append (is_removal r p) (announce f rs gone false) later,
          count-filter (heard f r p) (same_wire e) es,
        )

    module _ (not_rsa : f.property r rsa_key ≡ none) where
      pub announce_added :
          (es : List Endpoint)
          → (additions r p (announce f rs es true) ≡ count (heard f r p) es)
            × (removals r p (announce f rs es true) ≡ 0)
      unfolding announce count
      announce_added [] = (refl, refl)
      announce_added (e ∷ es) =
          let rest = announce f rs es true in
          ground (
            arith,
            announce_added es,
            inform_counts rs e true present,
            count-append (is_addition r p) (inform f rs e true) rest,
            count-append (is_removal r p) (inform f rs e true) rest,
          )

      pub merge_counts :
          (es available : List Endpoint)
          → (additions r p (merge_events f rs es available)
              ≡ count (heard f r p) (fresh es available))
            × (removals r p (merge_events f rs es available) ≡ 0)
      unfolding merge_events fresh count is_addition is_removal
      merge_counts [] available = (refl, refl)
      merge_counts (e ∷ es) available = elim (Bool-cases (any (same_wire e) available)) [
        | inl old ↦ rw old (ground (arith, merge_counts es available))
        | inr new ↦
            let next : List Endpoint = available ++ (e ∷ []) in
            let rest = merge_events f rs es next in
            rw new (
              ground (
                arith,
                merge_counts es next,
                inform_counts rs e true present,
                count-append (is_addition r p) (inform f rs e true) rest,
                count-append (is_removal r p) (inform f rs e true) rest,
              ))
      ]
