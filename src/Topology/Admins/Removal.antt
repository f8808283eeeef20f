-- ===== src/Topology/Admins/Removal.antt =====
-- What is left of a wiring admin that is removed.
use node_wiring_secure.Base.{
  Bool, true, false, List, [], ◌∷◌, ◌++◌, Option, none, some, if◌then◌else◌, ◌≡◌, refl, ap, ◌∙◌,
  ◌==◌, ==_iff, All, any, any-append, erase_first, map, arith,
}
use node_wiring_secure.Celix.{Properties, Status, success, is_success}
use node_wiring_secure.Celix.HashMap.{Map, lookup, remove, Keyed, lookup-remove_self}
use node_wiring_secure.Endpoint.{Endpoint}
use node_wiring_secure.Topology.World.{
  Admin, World, History, Outside, ◌>>=◌, pure, call, contains, bind_at, removes_export,
  removes_import,
}
use node_wiring_secure.Topology.Notify.{notify}
use node_wiring_secure.Topology.Notify.Reach.{notices, notify_lem}
use node_wiring_secure.Topology.Admins.{unexport, unexport_all, unimport, unimport_all, wa_removed}

-- The map that a service has when the admin is gone.
abbrev pub without :
    Admin → Map Properties (Map Admin Endpoint) → Map Properties (Map Admin Endpoint)
without a [] = []
without a ((p, m) ∷ exported) = (p, remove (λ x y. x == y) a m) ∷ without a exported

-- Every wiring admin answers a removal with a success.
abbrev pub RemovalsSucceed : Outside → Type 0
RemovalsSucceed o =
    (h : History) (a : Admin) (e : Endpoint)
    → (is_success (o.remove_export h a e) ≡ true) × (is_success (o.remove_import h a e) ≡ true)

-- A success stays one.
abbrev Keeps : Outside → Status → Status → Type 0
Keeps o status r = RemovalsSucceed o → is_success status ≡ true → is_success r ≡ true

keys-without :
    (a : Admin) (exported : Map Properties (Map Admin Endpoint))
    → map (λ x. x.0) (without a exported) ≡ map (λ x. x.0) exported
keys-without a [] = refl
keys-without a ((p, m) ∷ exported) = ap (λ l. p ∷ l) (keys-without a exported)

unexport-returns :
    (o : Outside) (a : Admin) (e : Option Endpoint) (status : Status) (w : World)
    → (r : Status) × (h : History) × (unexport o a e status w ≡ some (r, record w { history = h }))
      × Keeps o status r
unfolding unexport
unexport-returns o a none status w = (status, w.history, refl, λ _ good. good)
unexport-returns o a (some e) status w =
    let told = notices o false e w.manager.listener_list w.history in
    let h = w.history ++ told in
    (
      o.remove_export h a e,
      h ++ (removes_export a e ∷ []),
      bind_at (notify o false e) (λ _. call (removes_export a e) (λ h. o.remove_export h a e)) w
          (notify_lem o false e w),
      λ succeed _. (succeed h a e).0,
    )

unexport_all-without :
    (o : Outside) (a : Admin) (exported : Map Properties (Map Admin Endpoint)) (status : Status)
    (w : World)
    → (r : Status) × (h : History) × (unexport_all o a exported status w
        ≡ some ((without a exported, r), record w { history = h }))
      × Keeps o status r
unfolding unexport_all
unexport_all-without o a [] status w = (status, w.history, refl, λ _ good. good)
unexport_all-without o a ((p, m) ∷ exported) status w =
    let found = lookup (λ x y. x == y) a m in
    let (now, h, ran, keep) = unexport-returns o a found status w in
    let v : World = record w { history = h } in
    let (last, h', ran', keep') = unexport_all-without o a exported now v in
    (
      last,
      h',
      bind_at (unexport o a found status) _ w ran
          ∙ bind_at (unexport_all o a exported now) _ v ran',
      λ succeed good. keep' succeed (keep succeed good),
    )

unimport-returns :
    (o : Outside) (a : Admin) (e : Endpoint) (importers : List Admin) (status : Status) (w : World)
    → (r : Status × List Admin) × (h : History) × (unimport o a e importers status w
        ≡ some (r, record w { history = h }))
      × Keeps o status r.0
unfolding unimport
unimport-returns o a e importers status w = step (contains importers a)
  where
    step :
        (b : Bool)
        → (r : Status × List Admin) × (h : History) × ((if b
                then (do
                  now ← call (removes_import a e) (λ h. o.remove_import h a e)
                  pure (now, erase_first (λ x. x == a) importers))
                else pure (status, importers))
              w
            ≡ some (r, record w { history = h }))
          × Keeps o status r.0
    step true = (
      (o.remove_import w.history a e, erase_first (λ x. x == a) importers),
      w.history ++ (removes_import a e ∷ []),
      refl,
      λ succeed _. (succeed w.history a e).1,
    )
    step false = ((status, importers), w.history, refl, λ _ good. good)

contains_last : (l : List Admin) (a : Admin) → contains (l ++ (a ∷ [])) a ≡ true
unfolding any
contains_last l a = ground (arith, any-append (λ x. x == a) l (a ∷ []))

unimport_all-returns :
    (o : Outside) (a : Admin) (imported : Map Endpoint (List Admin)) (status : Status) (w : World)
    → (r : Map Endpoint (List Admin) × Status) × (h : History) × (unimport_all o a imported status w
        ≡ some (r, record w { history = h }))
      × (RemovalsSucceed o → is_success status ≡ true → All (λ x. contains x.1 a ≡ true) r.0)
unfolding unimport_all
unimport_all-returns o a [] status w = (([], status), w.history, refl, λ _ _. tt)
unimport_all-returns o a ((e, importers) ∷ imported) status w =
    let (now, h, ran, keep) = unimport-returns o a e importers status w in
    let v : World = record w { history = h } in
    let (last, h', ran', back) = unimport_all-returns o a imported now.0 v in
    (
      _,
      h',
      bind_at (unimport o a e importers status) _ w ran
          ∙ bind_at (unimport_all o a imported now.0) _ v ran',
      λ succeed good.
          (rw (keep succeed good) (contains_last now.1 a), back succeed (keep succeed good)),
    )

-- No entry of the services exports through the admin.
abbrev pub Unused : Admin → Map Properties (Map Admin Endpoint) → Type 0
Unused a exported = All (λ x. lookup (λ y z. y == z) a x.1 ≡ none) exported

without-Unused :
    (a : Admin) (exported : Map Properties (Map Admin Endpoint))
    → All (λ x. Keyed (λ y z. y == z) x.1) exported
    → Unused a (without a exported)
without-Unused a [] h = tt
without-Unused a ((p, m) ∷ exported) h =
    (lookup-remove_self (λ x y. x == y) ==_iff a m h.0, without-Unused a exported h.1)

-- The removal of a wiring admin returns, whatever the admin answers. The admin leaves the list of
-- admins, the services that are exported stay, and none of them is exported through the admin.
pub wa_removed-Unused :
    (o : Outside) (a : Admin) (w : World)
    → All (λ x. Keyed (λ y z. y == z) x.1) w.manager.exported
    → (status : Status) × (w' : World) × (wa_removed o a w ≡ some (status, w'))
      × (w'.manager.wa_list ≡ erase_first (λ x. x == a) w.manager.wa_list)
      × (map (λ x. x.0) w'.manager.exported ≡ map (λ x. x.0) w.manager.exported)
      × Unused a w'.manager.exported
unfolding wa_removed
wa_removed-Unused o a w keyed =
    let exported = w.manager.exported in
    let (s1, h1, ran1, _) = unexport_all-without o a exported success w in
    let w1 : World = record {
      manager = record (w.manager) { exported = without a exported };
      history = h1;
    } in
    let ((imported', s2), h2, ran2, _) = unimport_all-returns o a w.manager.imported s1 w1 in
    (
      s2,
      _,
      bind_at (unexport_all o a exported success) _ w ran1
          ∙ bind_at (unimport_all o a w.manager.imported s1) _ w1 ran2,
      refl,
      keys-without a exported,
      without-Unused a exported keyed,
    )

-- Where every admin answers with a success, the removal of a wiring admin returns, and the admin is
-- in the list of every imported endpoint afterwards, also of those that it had not imported.
pub wa_removed-contains :
    (o : Outside) (a : Admin) (w : World)
    → RemovalsSucceed o
    → (status : Status) × (w' : World) × (wa_removed o a w ≡ some (status, w'))
      × All (λ x. contains x.1 a ≡ true) w'.manager.imported
unfolding wa_removed is_success
wa_removed-contains o a w succeed =
    let exported = w.manager.exported in
    let (s1, h1, ran1, keep) = unexport_all-without o a exported success w in
    let w1 : World = record {
      manager = record (w.manager) { exported = without a exported };
      history = h1;
    } in
    let ((imported', s2), h2, ran2, back) = unimport_all-returns o a w.manager.imported s1 w1 in
    (
      s2,
      _,
      bind_at (unexport_all o a exported success) _ w ran1
          ∙ bind_at (unimport_all o a w.manager.imported s1) _ w1 ran2,
      back succeed (keep succeed refl),
    )
