-- ===== src/Topology/Notify/Wanting.antt =====
-- Which listeners want to be told of an endpoint, and what each of them sees of a notification.
use mathlib.Core.Bool.{true≢false}
use mathlib.Core.Option.{none-ne-some}
use node_wiring_secure.Base.{
  ℕ, Bool, true, false, CString, Option, filter, filter-append, repeat, repeat_if, repeat_if_add,
  repeat_if_zero, repeat_if_one, count, ◌==◌, ==_iff, Bool-cases, inl, inr, refl, ap, sym, codes,
  ◌⊎◌, ◌≢◌, ◌↔◌, none, some, ◌||◌, not, [], ◌∷◌, ◌++◌, if◌then◌else◌, ◌≡◌, ◌∙◌, append-nil, arith,
}
use node_wiring_secure.Celix.{success, is_success}
use node_wiring_secure.Endpoint.{Endpoint}
use node_wiring_secure.Listener.{Listeners, scope, accepts, is_none, scope_key, rsa_key}
use node_wiring_secure.Topology.World.{
  Outside, World, Call, History, gets_service, tells_added, tells_removed,
}
use node_wiring_secure.Topology.Notify.{concerns, notify}
use node_wiring_secure.Topology.Notify.Reach.{told_of, notices, notify_lem}

abbrev pub called : Bool → ℕ → Endpoint → Option CString → Call
called true r e s = tells_added r e s
called false r e s = tells_removed r e s

-- The call tells listener `r` of an endpoint.
abbrev pub tells_to : ℕ → Call → Bool
tells_to r (tells_added q e s) = q == r
tells_to r (tells_removed q e s) = q == r
tells_to r _ = false

told_other :
    (o : Outside) (is_added : Bool) (e : Endpoint) (q r : ℕ) (h : History)
    → (q == r) ≡ false
    → filter (tells_to r) (told_of o is_added e q h) ≡ []
unfolding told_of filter
told_other o true e q r h other = ground (arith, other)
told_other o false e q r h other = ground (arith, other)

told_same :
    (o : Outside) (is_added b : Bool) (e : Endpoint) (r : ℕ) (h : History)
    → is_success (o.get_service h r) ≡ true
    → concerns o r e ≡ b
    → filter (tells_to r) (told_of o is_added e r h)
      ≡ (if b then called is_added r e (scope o.framework r) ∷ [] else [])
unfolding told_of filter
told_same o is_added false e r h got wanted = rw (got, wanted)
told_same o true true e r h got wanted = rw (got, wanted, (==_iff r r).1 refl)
told_same o false true e r h got wanted = rw (got, wanted, (==_iff r r).1 refl)

-- How often the listener stands in the list.
abbrev pub listed_times : ℕ → Listeners → ℕ
listed_times r rs = count (λ q. q == r) rs

told_lem :
    (o : Outside) (is_added b : Bool) (e : Endpoint) (q r : ℕ) (h : History)
    → is_success (o.get_service h r) ≡ true
    → concerns o r e ≡ b
    → filter (tells_to r) (told_of o is_added e q h)
      ≡ repeat_if b (if q == r then 1 else 0) (called is_added r e (scope o.framework r))
told_lem o is_added b e q r h got wanted =
    let c = called is_added r e (scope o.framework r) in
    elim (Bool-cases (q == r)) [
      | inl hit ↦
          ap (λ x. filter (tells_to r) (told_of o is_added e x h)) ((==_iff q r).0 hit)
          ∙ told_same o is_added b e r h got wanted
          ∙ sym (repeat_if_one b c)
          ∙ ap (λ x. repeat_if b (if x then 1 else 0) c) (sym hit)
      | inr miss ↦
          told_other o is_added e q r h miss
          ∙ sym (repeat_if_zero b c)
          ∙ ap (λ x. repeat_if b (if x then 1 else 0) c) (sym miss)
    ]

filter-notices :
    (o : Outside) (is_added b : Bool) (e : Endpoint) (r : ℕ) (rs : Listeners) (h : History)
    → ((h' : History) → is_success (o.get_service h' r) ≡ true)
    → concerns o r e ≡ b
    → filter (tells_to r) (notices o is_added e rs h)
      ≡ repeat_if b (listed_times r rs) (called is_added r e (scope o.framework r))
unfolding notices filter count
filter-notices o is_added b e r [] h got wanted = sym (repeat_if_zero b _)
filter-notices o is_added b e r (q ∷ rs) h got wanted =
    let told = told_of o is_added e q h in
    filter-append (tells_to r) told (notices o is_added e rs (h ++ (gets_service q ∷ told)))
    ∙ rw
        (
          told_lem o is_added b e q r h (got h) wanted,
          filter-notices o is_added b e r rs (h ++ (gets_service q ∷ told)) got wanted,
        )
        (repeat_if_add b (if q == r then 1 else 0) (listed_times r rs) _)

-- The notification as listener `r`, whose service can be got, sees it.
pub notify-listener :
    (o : Outside) (is_added b : Bool) (e : Endpoint) (r : ℕ) (w : World)
    → ((h : History) → is_success (o.get_service h r) ≡ true)
    → concerns o r e ≡ b
    → (w' : World) × (notify o is_added e w ≡ some (success, w'))
      × (w'.manager ≡ w.manager)
      × (filter (tells_to r) w'.history
          ≡ filter (tells_to r) w.history
            ++ repeat_if b
                (listed_times r w.manager.listener_list)
                (called is_added r e (scope o.framework r)))
notify-listener o is_added b e r w got wanted =
    let new = notices o is_added e w.manager.listener_list w.history in
    (
      record w { history = w.history ++ new },
      notify_lem o is_added e w,
      refl,
      filter-append (tells_to r) w.history new
          ∙ ap (λ cs. filter (tells_to r) w.history ++ cs)
              (filter-notices o is_added b e r w.manager.listener_list w.history got wanted),
    )

-- The listener's filter matches the endpoint, or it is a remote service admin's.
abbrev pub Wants : Outside → ℕ → Endpoint → Type 0
Wants o r e =
    (o.framework.matches (o.framework.property r (codes "wiring.endpoint.listener.scope"))
        e.properties
      ≡ true)
    ⊎ (o.framework.property r (codes "RSA") ≢ none)

or_there :
    (b : Bool) (x : Option CString) → ((b || not (is_none x)) ≡ true) ↔ ((b ≡ true) ⊎ (x ≢ none))
or_there true x = ((λ h. inl refl), (λ h. refl))
or_there false none = (
  (λ h. absurd (true≢false (sym h))),
  (λ h. elim h [ inl b ↦ absurd (true≢false (sym b)) | inr there ↦ absurd (there refl) ]),
)
or_there false (some v) = ((λ h. inr (λ q. none-ne-some v (sym q))), (λ h. refl))

wants_lem : (o : Outside) (r : ℕ) (e : Endpoint) → (concerns o r e ≡ true) ↔ Wants o r e
unfolding scope_key rsa_key
wants_lem o r e = or_there (accepts o.framework r e) (o.framework.property r rsa_key)

-- Of a listener whose service can always be got: a notification is a success, leaves the manager as
-- it is, and tells this listener of the endpoint, with its scope, once for each time that it is listed
-- if its filter matches the endpoint or it has the property "RSA", and not at all if neither is so.
pub notify-Wants :
    (o : Outside) (is_added : Bool) (e : Endpoint) (r : ℕ) (w : World)
    → ((h : History) → is_success (o.get_service h r) ≡ true)
    → (w' : World) × (notify o is_added e w ≡ some (success, w'))
      × (w'.manager ≡ w.manager)
      × ((Wants o r e
            × (filter (tells_to r) w'.history
                ≡ filter (tells_to r) w.history
                  ++ repeat (listed_times r w.manager.listener_list) (
                      called is_added r e
                        (o.framework.property r (codes "wiring.endpoint.listener.scope")))))
          ⊎ ((¬ Wants o r e) × (filter (tells_to r) w'.history ≡ filter (tells_to r) w.history)))
unfolding scope_key
notify-Wants o is_added e r w got =
    let (w', ran, same, told) = notify-listener o is_added (concerns o r e) e r w got refl in
    elim (Bool-cases (concerns o r e)) [
      | inl wanted ↦ (
        w',
        ran,
        same,
        inl (
          (wants_lem o r e).0 wanted,
          told
              ∙ ap
                  (λ b.
                    filter (tells_to r) w.history
                    ++ repeat_if b (listed_times r w.manager.listener_list)
                        (called is_added r e (scope o.framework r)))
                  wanted,
        ),
      )
      | inr unwanted ↦ (
        w',
        ran,
        same,
        inr (
          (λ h. true≢false (sym ((wants_lem o r e).1 h) ∙ unwanted)),
          told
              ∙ ap
                  (λ b.
                    filter (tells_to r) w.history
                    ++ repeat_if b (listed_times r w.manager.listener_list)
                        (called is_added r e (scope o.framework r)))
                  unwanted
              ∙ append-nil _,
        ),
      )
    ]
