-- ===== src/Discovery/Inputs.antt =====
-- What each input of node_discovery.c does to a registered listener.
use node_wiring_secure.Base.{
  ℕ, Bool, List, [], ◌∷◌, ◌++◌, Option, some, Bool-cases, Option-cases, inl, inr, ◌≡◌, ◌≢◌, refl,
  sym, subst, ◌∙◌, any, count, erase_first, arith, All-erase_first,
}
use mathlib.Core.Option.{some-injective}
use node_wiring_secure.Endpoint.{Endpoint}
use node_wiring_secure.Discovery.{
  Discovery, NodeDescription, add_node, remove_node, node, put_own, known, listener_added,
  listener_removed, listener_modified,
}
use node_wiring_secure.Discovery.Listening.{
  Event, Framework, join, leave, offer, is_own, own_node_written,
}
use node_wiring_secure.Discovery.Wires.{IsWired, AreWired, same_wire, AreWired-snoc}
use node_wiring_secure.Discovery.Knowledge.{
  NodesAreWired, add_node_known, add_node_new, remove_node_known, remove_node_new, node-wired,
  add_node-knows, remove_node-knows,
}
use node_wiring_secure.Discovery.Notices.{additions, removals, is_addition, is_removal, times}
use node_wiring_secure.Discovery.Run.{
  Input, node_found, node_lost, exported, revoked, listener_came, listener_changed, listener_went,
  step, Balanced, Hears, add_node_new-Balanced, add_node_known-Balanced, remove_node_known-Balanced,
}
use node_wiring_secure.Discovery.Own.{
  wiring_endpoint_added_lem, wiring_endpoint_removed_lem, times-join, times-leave, offer_counts,
}

-- A state in which listener `r` is registered and every endpoint has a wire id.
pub record Ready (f : Framework) (r : ℕ) (s : Discovery) : Type 0 where
  pub nodes : NodesAreWired s
  pub own : AreWired s.own_node.endpoints
  pub hears : Hears f r s

-- An input that brings endpoints with wire ids, and does not register or deregister `r` itself.
abbrev pub Fits : ℕ → Input → Type 0
Fits r (node_found d) = AreWired d.endpoints
Fits r (node_lost d) = AreWired d.endpoints
Fits r (exported e) = IsWired e
Fits r (revoked e) = IsWired e
Fits r (listener_came q) = q ≢ r
Fits r (listener_changed q) = q ≢ r
Fits r (listener_went q) = q ≢ r

-- What a handler that is called with `r` registered leads to.
abbrev pub Step : Framework → ℕ → Discovery → Option (Discovery × List Event) → Type 0
Step f r s result =
    (x : Discovery × List Event) × (result ≡ some x) × Ready f r x.0 × Balanced f r s x.1 x.0

-- The handler changes neither the listeners nor the own node.
abbrev NodesOnly : Framework → ℕ → Discovery → Discovery × List Event → Type 0
NodesOnly f r s x =
    Balanced f r s x.1 x.0 × (x.0.listeners ≡ s.listeners) × (x.0.own_node ≡ s.own_node)

module _ (f : Framework) (r : ℕ) (s : Discovery) (h : Ready f r s) where
  nodes_only :
      (x y : Discovery × List Event) (o : Option (Discovery × List Event))
      → o ≡ some x
      → o ≡ some y
      → NodesOnly f r s y
      → NodesAreWired x.0
      → Step f r s o
  nodes_only x y o p q n w =
      let e : y ≡ x = some-injective y x (sym q ∙ p) in
      let m : NodesOnly f r s x = subst (NodesOnly f r s) e n in
      (
        x,
        p,
        record {
          nodes = w;
          own = subst (λ (d : NodeDescription). AreWired d.endpoints) (sym m.2) h.own;
          hears = record {
            present = subst (λ ls. times r ls ≡ 1) (sym m.1) h.hears.present;
            not_rsa = h.hears.not_rsa;
          };
        },
        m.0,
      )

  pub found : (d : NodeDescription) → AreWired d.endpoints → Step f r s (add_node f s d)
  found d k =
      let (x, p, w, _) = add_node-knows f s d h.nodes k in
      elim (Option-cases (node s d.node_id)) [
        | inl new ↦
            nodes_only x _ _ p (add_node_new f s d new)
              (add_node_new-Balanced f r s h.hears d new, refl, refl) w
        | inr (old, there) ↦
            nodes_only x _ _ p
              (add_node_known f s d old there k (node-wired s d.node_id old h.nodes there))
              (add_node_known-Balanced f r s h.hears d old there, refl, refl) w
      ]

  pub lost : (d : NodeDescription) → AreWired d.endpoints → Step f r s (remove_node f s d)
  lost d k =
      let (x, p, w, _) = remove_node-knows f s d h.nodes k in
      elim (Option-cases (node s d.node_id)) [
        | inl new ↦
            nodes_only x _ _ p (remove_node_new f s d new) (unfold count in (λ q. refl), refl, refl)
              w
        | inr (old, there) ↦
            nodes_only x _ _ p
              (remove_node_known f s d old there k (node-wired s d.node_id old h.nodes there))
              (remove_node_known-Balanced f r s h.hears d old there, refl, refl) w
      ]

  -- An own endpoint comes or goes: nothing is said to the listeners.
  own_changes :
      (es : List Endpoint) (ev : List Event)
      → AreWired es
      → ((p : Endpoint → Bool) → (additions r p ev ≡ 0) × (removals r p ev ≡ 0))
      → Ready f r (put_own s es) × Balanced f r s ev (put_own s es)
  own_changes es ev k quiet = (
    record {
      nodes = h.nodes;
      own = k;
      hears = record { present = h.hears.present; not_rsa = h.hears.not_rsa };
    },
    λ p. omega (arith, quiet p),
  )

  pub exported_own : (e : Endpoint) → IsWired e → Step f r s (step f s (exported e))
  unfolding step
  exported_own e k =
      let es : List Endpoint = s.own_node.endpoints in
      let ev : List Event = own_node_written (es ++ (e ∷ [])) ∷ [] in
      elim (Bool-cases (any (same_wire e) es)) [
        | inl old ↦ (
          (s, []),
          rw (wiring_endpoint_added_lem s e k h.own, old),
          h,
          unfold count in (λ p. refl),
        )
        | inr new ↦
            let (ready, balanced) =
              own_changes (es ++ (e ∷ [])) ev (AreWired-snoc es e h.own k)
                (unfold count is_addition is_removal in (λ p. (refl, refl))) in
            (
              (put_own s (es ++ (e ∷ [])), ev),
              rw (wiring_endpoint_added_lem s e k h.own, new),
              ready,
              balanced,
            )
      ]

  pub revoked_own : (e : Endpoint) → IsWired e → Step f r s (step f s (revoked e))
  unfolding step
  revoked_own e k =
      let es : List Endpoint = erase_first (same_wire e) s.own_node.endpoints in
      let (ready, balanced) =
        own_changes es [] (All-erase_first IsWired (same_wire e) s.own_node.endpoints h.own)
          (unfold count in (λ p. (refl, refl))) in
      ((put_own s es, []), rw (wiring_endpoint_removed_lem s e k h.own), ready, balanced)

  -- The listeners change, `r` stays: only the newcomer is told of anything.
  listeners_change :
      (rs : List ℕ) (ev : List Event)
      → times r rs ≡ times r s.listeners
      → ((p : Endpoint → Bool) → (additions r p ev ≡ 0) × (removals r p ev ≡ 0))
      → Ready f r (record s { listeners = rs }) × Balanced f r s ev (record s { listeners = rs })
  listeners_change rs ev k quiet = (
    record {
      nodes = h.nodes;
      own = h.own;
      hears = record { present = k ∙ h.hears.present; not_rsa = h.hears.not_rsa };
    },
    λ p. omega (arith, quiet p),
  )

  offer_quiet :
      (q : ℕ) (es : List Endpoint) (p : Endpoint → Bool)
      → q ≢ r
      → (additions r p (offer f q es) ≡ 0) × (removals r p (offer f q es) ≡ 0)
  offer_quiet q es p ne = ground (arith, offer_counts f r q p es)

  pub left : (q : ℕ) → q ≢ r → Step f r s (some (listener_removed s q))
  unfolding listener_removed
  left q ne =
      let (ready, balanced) =
        listeners_change (leave q s.listeners) [] (times-leave r q s.listeners ne)
          (unfold count in (λ p. (refl, refl))) in
      ((record s { listeners = leave q s.listeners }, []), refl, ready, balanced)

  pub came : (q : ℕ) → q ≢ r → Step f r s (some (listener_added f s q))
  unfolding listener_added
  came q ne = elim (Bool-cases (is_own f q)) [
    | inl own ↦ ((s, []), rw own, h, unfold count in (λ p. refl))
    | inr other ↦
        let (ready, balanced) =
          listeners_change (join q s.listeners) (offer f q (known s))
            (times-join r q s.listeners ne) (λ p. offer_quiet q (known s) p ne) in
        (
          (record s { listeners = join q s.listeners }, offer f q (known s)),
          rw other,
          ready,
          balanced,
        )
  ]

pub changed :
    (f : Framework) (r : ℕ) (s : Discovery)
    → Ready f r s
    → (q : ℕ) → q ≢ r
    → Step f r s (some (listener_modified f s q))
unfolding listener_modified listener_removed
changed f r s h q ne =
    let s' : Discovery = record s { listeners = leave q s.listeners } in
    let (ready, b) =
      listeners_change f r s h (leave q s.listeners) [] (times-leave r q s.listeners ne)
        (unfold count in (λ p. (refl, refl))) in
    let (x, p, ready', b') = came f r s' ready q ne in
    (x, p, ready', λ g. unfold count in omega (arith, b g, b' g))
