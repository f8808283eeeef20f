-- ===== src/Activators/Hearing.antt =====
-- What one listener hears from node_discovery_informWiringEndpointListeners.
use node_wiring_secure.Base.{
  ℕ, Bool, true, false, CString, [], ◌∷◌, Option, none, if◌then◌else◌, ◌≡◌, refl, ap, sym, ◌∙◌,
  filter, filter-append, repeat_if, repeat_if_add, repeat_if_zero, repeat_if_one, count, ◌==◌,
  ==_iff, Bool-cases, inl, inr, arith,
}
use node_wiring_secure.Endpoint.{Endpoint}
use node_wiring_secure.Listener.{Framework, Listeners, scope, rsa_key, accepts}
use node_wiring_secure.Discovery.Listening.{Event, added, removed, notice, inform}
use node_wiring_secure.Topology.Notify.Wanting.{listed_times}

abbrev pub heard : Bool → ℕ → Endpoint → Option CString → Event
heard true r e s = added r e s
heard false r e s = removed r e s

-- The event tells listener `r` of an endpoint.
abbrev pub heard_by : ℕ → Event → Bool
heard_by r (added q e s) = q == r
heard_by r (removed q e s) = q == r
heard_by r _ = false

notice_at :
    (f : Framework) (r : ℕ) (e : Endpoint) (is_added b : Bool) (s : Option CString)
    → accepts f r e ≡ b
    → scope f r ≡ s
    → f.property r rsa_key ≡ none
    → notice f r e is_added ≡ (if b then heard is_added r e s ∷ [] else [])
unfolding notice
notice_at f r e is_added false s matched scoped plain = rw matched refl
notice_at f r e true true s matched scoped plain = rw (matched, scoped, plain) refl
notice_at f r e false true s matched scoped plain = rw (matched, scoped) refl

notice_other :
    (f : Framework) (q r : ℕ) (e : Endpoint) (is_added : Bool)
    → (q == r) ≡ false
    → filter (heard_by r) (notice f q e is_added) ≡ []
unfolding notice filter
notice_other f q r e true other = ground (arith, other)
notice_other f q r e false other = ground (arith, other)

filter-heard :
    (b is_added : Bool) (r : ℕ) (e : Endpoint) (s : Option CString)
    → filter (heard_by r) (if b then heard is_added r e s ∷ [] else [])
      ≡ (if b then heard is_added r e s ∷ [] else [])
unfolding filter
filter-heard true true r e s = rw ((==_iff r r).1 refl)
filter-heard true false r e s = rw ((==_iff r r).1 refl)
filter-heard false is_added r e s = refl

-- A listener without the property "RSA".
module _ (f : Framework) (r : ℕ) (e : Endpoint) (is_added b : Bool) (s : Option CString)
    (matched : accepts f r e ≡ b) (scoped : scope f r ≡ s)
    (plain : f.property r rsa_key ≡ none) where
  filter-notice :
      (q : ℕ)
      → filter (heard_by r) (notice f q e is_added)
        ≡ repeat_if b (if q == r then 1 else 0) (heard is_added r e s)
  filter-notice q = elim (Bool-cases (q == r)) [
    | inl hit ↦
        ap (λ x. filter (heard_by r) (notice f x e is_added)) ((==_iff q r).0 hit)
        ∙ ap (filter (heard_by r)) (notice_at f r e is_added b s matched scoped plain)
        ∙ filter-heard b is_added r e s
        ∙ sym (repeat_if_one b _)
        ∙ ap (λ c. repeat_if b (if c then 1 else 0) (heard is_added r e s)) (sym hit)
    | inr miss ↦
        notice_other f q r e is_added miss
        ∙ sym (repeat_if_zero b _)
        ∙ ap (λ c. repeat_if b (if c then 1 else 0) (heard is_added r e s)) (sym miss)
  ]

  pub filter-inform :
      (rs : Listeners)
      → filter (heard_by r) (inform f rs e is_added)
        ≡ repeat_if b (listed_times r rs) (heard is_added r e s)
  unfolding inform filter count
  filter-inform [] = sym (repeat_if_zero b _)
  filter-inform (q ∷ rs) =
      filter-append (heard_by r) (notice f q e is_added) (inform f rs e is_added)
      ∙ rw (filter-notice q, filter-inform rs)
          (repeat_if_add b (if q == r then 1 else 0) (listed_times r rs) _)
