-- ===== src/RemoteServiceAdmin/Removing/Faults.antt =====
-- When the removal of a wire faults.
use mathlib.Core.Bool.{true≢false}
use mathlib.Core.Option.{none-ne-some}
use node_wiring_secure.Base.{
  ℕ, Bool, true, false, CString, same_text, List, [], ◌∷◌, Option, none, some, ◌==◌, any,
  any-append, ◌≡◌, refl, ap, sym, subst, ◌∙◌, ◌↔◌, inl, inr, Option-cases, Bool-cases,
}
use node_wiring_secure.Celix.{success}
use node_wiring_secure.Celix.HashMap.{Map, lookup, remove, AllValues, lookup-AllValues}
use node_wiring_secure.Celix.HashMap.Removal.{remove-AllValues}
use node_wiring_secure.Endpoint.{Endpoint, get, wire_id, wire_id_key, strcmp_eq}
use node_wiring_secure.Listener.{is_none}
use node_wiring_secure.RemoteServiceAdmin.Description.{Description}
use node_wiring_secure.RemoteServiceAdmin.Exporting.{Export, all_exports}
use node_wiring_secure.RemoteServiceAdmin.Importing.{Import, import_stop}
use node_wiring_secure.RemoteServiceAdmin.Importing.Usage.{Live}
use node_wiring_secure.RemoteServiceAdmin.Importing.Leftovers.{clear_twice}
use node_wiring_secure.RemoteServiceAdmin.World.{
  World, Outside, M, ◌>>=◌, Returns, bind-Returns, bind_at, same_key,
}
use node_wiring_secure.RemoteServiceAdmin.Wires.{unregister_receive, unregister_found}
use node_wiring_secure.RemoteServiceAdmin.Removing.{
  on_wire, all_on_wire, close_export, close_exports, unregister_factory, close_import, close_found,
  is_on, drop_each, remove_wiring_endpoint,
}

-- The endpoint of the registration has no wire yet.
abbrev pub is_unwired : Export → Bool
is_unwired e = is_none (get e.endpoint.properties wire_id_key)

-- No proxy of the import has been freed.
abbrev pub LiveImport : Option Import → Type 0
LiveImport none = Unit
LiveImport (some i) = AllValues Live (λ x y. x == y) i.proxies

is_none-eq-true {ℓ} : {A : Type ℓ} (x : Option A) → is_none x ≡ true → x ≡ none
is_none-eq-true none h = refl
is_none-eq-true (some a) h = absurd (true≢false (sym h))

-- The step returns, and leaves the imported services as they are.
abbrev KeepsImports {ℓ} : {A : Type ℓ} → M A → Type ℓ
KeepsImports {A} m =
    (w : World)
    → (a : A) × (w' : World) × (m w ≡ some (a, w'))
      × (w'.admin.imported_services ≡ w.admin.imported_services)

bind-KeepsImports {ℓ κ} :
    {A : Type ℓ} {B : Type κ} (m : M A) (f : A → M B)
    → KeepsImports m
    → ((a : A) → KeepsImports (f a))
    → KeepsImports (m >>= f)
bind-KeepsImports m f first rest w =
    let (a, w1, ran, same) = first w in
    let (b, w2, ran', same') = rest a w1 in (b, w2, bind_at m f w ran ∙ ran', same' ∙ same)

module _ {Json : Type 0} (o : Outside Json) where
  is_none-on_wire :
      (w : CString) (es : List Export) → is_none (on_wire o (some w) es) ≡ any is_unwired es
  unfolding on_wire any strcmp_eq
  is_none-on_wire w [] = refl
  is_none-on_wire w (e ∷ es) = elim (Option-cases (get e.endpoint.properties wire_id_key)) [
    | inl missing ↦ rw (on_wire, missing)
    | inr (v, wired) ↦ elim (Option-cases (on_wire o (some w) es)) [
      | inl faults ↦ rw (on_wire, wired, faults) (ap is_none (sym faults) ∙ is_none-on_wire w es)
      | inr (found, ran) ↦ elim (Bool-cases (same_text w v)) [
        | inl same ↦ rw (on_wire, wired, ran, same) (ap is_none (sym ran) ∙ is_none-on_wire w es)
        | inr differ ↦
            rw (on_wire, wired, ran, differ) (ap is_none (sym ran) ∙ is_none-on_wire w es)
      ]
    ]
  ]

  is_none-all_on_wire :
      (w : CString) (m : Map ℕ (List Export))
      → is_none (all_on_wire o (some w) m) ≡ any is_unwired (all_exports m)
  unfolding all_on_wire any
  is_none-all_on_wire w [] = refl
  is_none-all_on_wire w ((r, es) ∷ m) = elim (Option-cases (on_wire o (some w) es)) [
    | inl faults ↦ rw (
      all_on_wire,
      faults,
      any-append is_unwired es (all_exports m),
      sym (is_none-on_wire w es) ∙ ap is_none faults,
    )
    | inr (here, ran) ↦ elim (Option-cases (all_on_wire o (some w) m)) [
      | inl faults ↦ rw (
        all_on_wire,
        ran,
        faults,
        any-append is_unwired es (all_exports m),
        sym (is_none-on_wire w es) ∙ ap is_none ran,
        sym (is_none-all_on_wire w m) ∙ ap is_none faults,
      )
      | inr (found, ran') ↦ rw (
        all_on_wire,
        ran,
        ran',
        any-append is_unwired es (all_exports m),
        sym (is_none-on_wire w es) ∙ ap is_none ran,
        sym (is_none-all_on_wire w m) ∙ ap is_none ran',
      )
    ]
  ]

  close_exports-KeepsImports : (es : List Export) → KeepsImports (close_exports o es)
  unfolding close_exports close_export
  close_exports-KeepsImports [] w = (tt, w, refl, refl)
  close_exports-KeepsImports (e ∷ es) w = close_exports-KeepsImports es _

  unregister_found-KeepsImports : (found : Option ℕ) → KeepsImports (unregister_found o found)
  unfolding unregister_found
  unregister_found-KeepsImports none w = (success, w, refl, refl)
  unregister_found-KeepsImports (some r) w = (o.unregister w.history r, _, refl, refl)

  unregister_factory-Returns : (found : Option ℕ) → Returns (unregister_factory o found)
  unfolding unregister_factory
  unregister_factory-Returns none w = (tt, w, refl)
  unregister_factory-Returns (some r) w = (tt, _, refl)

  unregister_receive-KeepsImports : (w : CString) → KeepsImports (unregister_receive o w)
  unfolding unregister_receive
  unregister_receive-KeepsImports wire w =
      unregister_found-KeepsImports (lookup same_text wire w.admin.receive_registrations) _

  close_import-Returns :
      (i : Import) → AllValues Live (λ x y. x == y) i.proxies → Returns (close_import o i)
  unfolding close_import import_stop
  close_import-Returns i live =
      let (m, cleared, again) = clear_twice i.proxies live in
      bind-Returns (unregister_factory o i.factory_reg) _ (unregister_factory-Returns i.factory_reg)
        (λ u w. rw cleared (_, w, refl))

  close_found-Returns :
      (found : Option (Option Import))
      → ((i : Import) → found ≡ some (some i) → AllValues Live (λ x y. x == y) i.proxies)
      → Returns (close_found o found)
  unfolding close_found
  close_found-Returns none live w = (tt, w, refl)
  close_found-Returns (some none) live w = (tt, w, refl)
  close_found-Returns (some (some i)) live w =
      bind-Returns (close_import o i) _ (close_import-Returns i (live i refl))
        (λ closed v. (tt, v, refl)) w

  is_on-some : (wire : CString) (d : Description) → (b : Bool) × (is_on o (some wire) d ≡ some b)
  unfolding is_on strcmp_eq
  is_on-some wire d = elim (Option-cases (get d.properties wire_id_key)) [
    | inl missing ↦ (false, rw (is_on, missing))
    | inr (v, there) ↦ (same_text wire v, rw (is_on, there))
  ]

  drop_each-Returns :
      (wire : CString) (m all : Map Description (Option Import))
      → AllValues LiveImport (same_key o.string_hash) all
      → Returns (drop_each o (some wire) m all)
  unfolding drop_each
  drop_each-Returns wire [] all live w = (all, w, refl)
  drop_each-Returns wire ((d, i) ∷ m) all live w =
      let same = same_key o.string_hash in
      let (gone, asked) = is_on-some wire d in
      rw asked (elim (Bool-cases gone) [
        | inl yes_gone ↦ rw yes_gone (
            bind-Returns (close_found o (lookup same d all)) _
              (close_found-Returns (lookup same d all)
                (λ i there. lookup-AllValues LiveImport same d all (some i) live there))
              (λ u.
                drop_each-Returns wire m (remove same d all)
                  (remove-AllValues LiveImport same d all live))
              w)
        | inr stays ↦ rw stays (drop_each-Returns wire m all live w)
      ])

  -- Where no proxy has been freed, the removal of a wire with an id faults exactly if some registered
  -- export, of whatever service, has no wire yet.
  pub remove_wiring_endpoint-fault :
      (e : Endpoint) (wire : CString) (w : World)
      → wire_id e ≡ some wire
      → AllValues LiveImport (same_key o.string_hash) w.admin.imported_services
      → (remove_wiring_endpoint o e w ≡ none)
        ↔ (any is_unwired (all_exports w.admin.exported_services) ≡ true)
  unfolding remove_wiring_endpoint
  remove_wiring_endpoint-fault e wire w wired live =
      let asked = is_none-all_on_wire wire w.admin.exported_services in
      elim (Option-cases (all_on_wire o (some wire) w.admin.exported_services)) [
        | inl faults ↦ rw (wired, faults) ((λ h. sym asked ∙ ap is_none faults), (λ h. refl))
        | inr (found, ran) ↦
            let (u, w1, ran1, same1) = close_exports-KeepsImports found w in
            let (status, w2, ran2, same2) = unregister_receive-KeepsImports wire w1 in
            let (left, w3, ran3) =
              drop_each-Returns wire w2.admin.imported_services w2.admin.imported_services
                (subst (AllValues LiveImport (same_key o.string_hash)) (sym (same2 ∙ same1)) live)
                w2 in
            rw (wired, ran)
              (
                (λ h. absurd (
                    none-ne-some _ (
                      sym h
                      ∙ (bind_at (close_exports o found) _ w ran1
                          ∙ bind_at (unregister_receive o wire) _ w1 ran2
                          ∙ bind_at (drop_each o (some wire) _ _) _ w2 ran3)))),
                (λ h. absurd (true≢false (sym h ∙ sym asked ∙ ap is_none ran))),
              )
      ]
