-- ===== src/Discovery/Sync.antt =====
-- A registered listener stays in step with the discovery.
use node_wiring_secure.Base.{
  ℕ, ◌+◌, Bool, false, List, [], ◌∷◌, ◌++◌, none, some, ◌≡◌, refl, count, arith, count-append, All,
}
use node_wiring_secure.Endpoint.{Endpoint}
use node_wiring_secure.Discovery.{Discovery, known, listener_added}
use node_wiring_secure.Discovery.Listening.{Event, Framework, rsa_key, join, offer, is_own}
use node_wiring_secure.Discovery.Wires.{AreWired}
use node_wiring_secure.Discovery.Knowledge.{NodesAreWired}
use node_wiring_secure.Discovery.Notices.{
  additions, removals, is_addition, is_removal, heard, times,
}
use node_wiring_secure.Discovery.Run.{
  Input, node_found, node_lost, exported, revoked, listener_came, listener_changed, listener_went,
  step, run, Balanced,
}
use node_wiring_secure.Discovery.Own.{times-join_self, offer_counts}
use node_wiring_secure.Discovery.Inputs.{
  Ready, Fits, found, lost, exported_own, revoked_own, came, changed, left,
}

pub step-Ready :
    (f : Framework) (r : ℕ) (s : Discovery) (i : Input)
    → Ready f r s
    → Fits r i
    → (x : Discovery × List Event) × (step f s i ≡ some x) × Ready f r x.0 × Balanced f r s x.1 x.0
unfolding step
step-Ready f r s (node_found d) h k = found f r s h d k
step-Ready f r s (node_lost d) h k = lost f r s h d k
step-Ready f r s (exported e) h k = exported_own f r s h e k
step-Ready f r s (revoked e) h k = revoked_own f r s h e k
step-Ready f r s (listener_came q) h k = came f r s h q k
step-Ready f r s (listener_changed q) h k = changed f r s h q k
step-Ready f r s (listener_went q) h k = left f r s h q k

Balanced-append :
    (f : Framework) (r : ℕ) (s t u : Discovery) (ev later : List Event)
    → Balanced f r s ev t
    → Balanced f r t later u
    → Balanced f r s (ev ++ later) u
Balanced-append f r s t u ev later b c p = omega (
  arith,
  b p,
  c p,
  count-append (is_addition r p) ev later,
  count-append (is_removal r p) ev later,
)

-- With listener `r` registered once, no remote service admin, and wire ids on all endpoints, no
-- sequence of inputs with wire ids that leaves the registration of `r` alone faults; and for every set
-- of endpoints, additions told to `r` plus accepted endpoints known before are removals told to `r`
-- plus accepted endpoints known after.
pub run-Ready :
    (f : Framework) (r : ℕ) (s : Discovery) (is : List Input)
    → Ready f r s
    → All (Fits r) is
    → (x : Discovery × List Event) × (run f s is ≡ some x) × Ready f r x.0 × Balanced f r s x.1 x.0
unfolding run
run-Ready f r s [] h k = ((s, []), refl, h, unfold count in (λ p. refl))
run-Ready f r s (i ∷ is) h k =
    let (x, p, ready, b) = step-Ready f r s i h k.0 in
    let (y, q, ready', c) = run-Ready f r x.0 is ready k.1 in
    ((y.0, x.1 ++ y.1), rw (p, q), ready', Balanced-append f r s x.0 y.0 x.1 y.1 b c)

-- Where all endpoints have wire ids, from the registration of a new listener `r` on, which is
-- neither the discovery's own nor a remote service admin's, whatever inputs with wire ids follow
-- that leave its registration alone: no input faults, and for every set of endpoints, the
-- additions that `r` was told are the removals that it was told plus the endpoints that are known
-- at the end and that its filter accepts.
pub run_from_registration :
    (f : Framework) (r : ℕ) (s : Discovery) (is : List Input)
    → NodesAreWired s
    → AreWired s.own_node.endpoints
    → times r s.listeners ≡ 0
    → is_own f r ≡ false
    → f.property r rsa_key ≡ none
    → All (Fits r) is
    → (x : Discovery × List Event) × (run f s (listener_came r ∷ is) ≡ some x)
      × ((p : Endpoint → Bool)
          → additions r p x.1 ≡ removals r p x.1 + count (heard f r p) (known x.0))
unfolding run step listener_added
run_from_registration f r s is h k absent other not_rsa fits =
    let s' : Discovery = record s { listeners = join r s.listeners } in
    let ready : Ready f r s' = record {
      nodes = h;
      own = k;
      hears = record { present = times-join_self r s.listeners absent; not_rsa = not_rsa };
    } in
    let (y, q, _, c) = run-Ready f r s' is ready fits in
    let ev = offer f r (known s) in
    (
      (y.0, ev ++ y.1),
      rw (other, q),
      λ p. ground (
        arith,
        c p,
        offer_counts f r r p (known s),
        count-append (is_addition r p) ev y.1,
        count-append (is_removal r p) ev y.1,
      ),
    )
