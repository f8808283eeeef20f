-- ===== src/RemoteServiceAdmin/Services/Served.antt =====
-- An import is served once its wire is there.
use node_wiring_secure.Base.{
  ℕ, true, false, CString, codes, same_text_refl, List, [], ◌∷◌, ◌++◌, Option, none, some, map, All,
  take, ◌≡◌, refl, ◌∙◌, append-nil, append_assoc,
}
use node_wiring_secure.Celix.{success, is_success}
use node_wiring_secure.Celix.HashMap.{Map, lookup, insert_absent}
use node_wiring_secure.Endpoint.{Endpoint, get, wire_id_key, strcmp_eq}
use node_wiring_secure.RemoteServiceAdmin.Description.{Description, description_hash}
use node_wiring_secure.RemoteServiceAdmin.Importing.{
  Import, import_create, import_start, set_send_fn,
}
use node_wiring_secure.RemoteServiceAdmin.World.{
  World, Outside, same_key, allocates, wtm_imports, registers_factory, bind_at,
}
use node_wiring_secure.RemoteServiceAdmin.Wires.{
  requested_key, start_import, start_each, add_import_wire, is_own_wire, add_wiring_endpoint,
}
use node_wiring_secure.RemoteServiceAdmin.Services.{
  ask_each, ask_import, wire_request, import_registration, import_over, import_service,
}

-- A new import registration, and the same once its factory is registered.
abbrev pub fresh_import : Description → CString → Import
fresh_import d class = record {
  endpoint = d;
  class_object = class;
  has_send = false;
  factory_reg = none;
  proxies = [];
}

abbrev pub served_import : Description → CString → ℕ → Import
served_import d class r = record (fresh_import d class) { has_send = true; factory_reg = some r }

-- The ids of these imports are there, and others than this one.
abbrev pub OthersDiffer : CString → Map Description (Option Import) → Type 0
OthersDiffer id m = All (λ x. strcmp_eq (some id) x.0.id ≡ some false) m

ask_each_lem :
    (p : List (CString × CString)) (ts : List ℕ) (w : World)
    → ask_each (ask_import p) ts w
      ≡ some (tt, record w { history = w.history ++ map (λ t. wtm_imports t p) ts })
unfolding ask_each
ask_each_lem p [] w = rw append-nil
ask_each_lem p (t ∷ ts) w = ask_each_lem p ts _ ∙ simp append_assoc

same_id : (id : CString) (d : Description) → d.id ≡ some id → strcmp_eq (some id) d.id ≡ some true
unfolding strcmp_eq
same_id id d named = rw (named, same_text_refl id)

description_hash-some :
    (h : CString → ℕ) (d : Description) (service id : CString)
    → d.service ≡ some service
    → d.id ≡ some id
    → description_hash h d ≡ some (h (take 511 (service ++ id)))
unfolding description_hash
description_hash-some h d service id served named = rw (served, named)

module _ {Json : Type 0} (o : Outside Json) where
  start_each-last :
      (id : CString) (d : Description) (i i' : Import) (m : Map Description (Option Import))
      (w w' : World)
      → d.id ≡ some id
      → OthersDiffer id m
      → start_import o (some i) success w ≡ some ((some i', success), w')
      → start_each o (some id) (m ++ ((d, some i) ∷ [])) success w
        ≡ some ((m ++ ((d, some i') ∷ []), success), w')
  unfolding start_each
  start_each-last id d i i' [] w w' named others started =
      rw (start_each, same_id id d named) (bind_at (start_import o (some i) success) _ w started)
  start_each-last id d i i' ((c, j) ∷ m) w w' named others started =
      rw (start_each, others.0)
        (bind_at (start_each o (some id) (m ++ ((d, some i) ∷ [])) success) _ w
          (start_each-last id d i i' m w w' named others.1 started))

  -- The world after the import.
  abbrev pub requested : Description → CString → CString → CString → World → World
  requested d wire id class w = record {
    admin = record (w.admin) {
      imported_services = w.admin.imported_services ++ ((d, some (fresh_import d class)) ∷ []);
    };
    history =
        w.history ++ (allocates ∷ map (λ t. wtm_imports t (wire_request wire id)) w.admin.wtm_list);
  }

  import_registration_lem :
      (d : Description) (class : CString) (before : Option Import)
      → get d.properties (codes "objectClass") ≡ some class
      → import_registration o false true d before ≡ (success, some (fresh_import d class))
  unfolding import_registration import_create
  import_registration_lem d class before classed = rw (import_registration, classed)

  import_service_lem :
      (d : Description) (wire id class service : CString) (before : Option Import) (w : World)
      → get d.properties wire_id_key ≡ some wire
      → get d.properties (codes "objectClass") ≡ some class
      → d.id ≡ some id
      → d.service ≡ some service
      → lookup (same_key o.string_hash) d w.admin.imported_services ≡ none
      → o.import_memory w.history ≡ true
      → import_service o d before w
        ≡ some ((success, some (fresh_import d class)), requested d wire id class w)
  unfolding import_service import_over is_success
  import_service_lem d wire id class service before w wired classed named served new memory =
      let hashed = description_hash-some o.string_hash d service id served named in
      rw
        (
          import_service,
          wired,
          import_over,
          hashed,
          new,
          memory,
          import_registration_lem d class before classed,
          insert_absent (same_key o.string_hash) d (some (fresh_import d class))
              w.admin.imported_services new,
          named,
        )
        (bind_at (ask_each (ask_import (wire_request wire id)) w.admin.wtm_list) _ _
            (ask_each_lem (wire_request wire id) w.admin.wtm_list _)
          ∙ simp append_assoc)

  start_import_lem :
      (d : Description) (class : CString) (r : ℕ) (w : World)
      → o.register w.history ≡ (success, r)
      → start_import o (some (fresh_import d class)) success w
        ≡ some (
          (some (served_import d class r), success),
          record w { history = w.history ++ (registers_factory class ∷ []) },
        )
  unfolding start_import import_start set_send_fn is_success
  start_import_lem d class r w registered = rw (start_import, registered)

  -- Where the description of a service has a wire, an object class, an id and a service, is not imported
  -- yet, and has an id that no other import has: its import succeeds, and asks every wiring topology
  -- manager for the wire. When an endpoint of another framework then comes with that id, and its
  -- factory can be registered, the import has its send function and its factory's registration.
  pub import_service-Served :
      (d : Description) (wire id class service : CString) (before : Option Import) (e : Endpoint)
      (r : ℕ) (w : World)
      → get d.properties wire_id_key ≡ some wire
      → get d.properties (codes "objectClass") ≡ some class
      → d.id ≡ some id
      → d.service ≡ some service
      → lookup (same_key o.string_hash) d w.admin.imported_services ≡ none
      → OthersDiffer id w.admin.imported_services
      → o.import_memory w.history ≡ true
      → is_success o.own_uuid.0 ≡ true
      → is_own_wire o e ≡ some false
      → get e.properties requested_key ≡ some id
      → o.register (requested d wire id class w).history ≡ (success, r)
      → (import_service o d before w
          ≡ some ((success, some (fresh_import d class)), requested d wire id class w))
        × ((w' : World) × (add_wiring_endpoint o e (requested d wire id class w)
              ≡ some (success, w'))
            × (w'.admin.imported_services
                ≡ w.admin.imported_services ++ ((d, some (served_import d class r)) ∷ [])))
  unfolding add_wiring_endpoint add_import_wire
  import_service-Served d wire id class service before e r w wired classed named served new others
        memory known foreign asked registered =
      let w1 = requested d wire id class w in
      let started =
        start_each-last id d (fresh_import d class) (served_import d class r)
          w.admin.imported_services w1 _ named others (start_import_lem d class r w1 registered) in
      (
        import_service_lem d wire id class service before w wired classed named served new memory,
        (
          record {
            admin = record (w1.admin) {
              imported_services =
                  w.admin.imported_services ++ ((d, some (served_import d class r)) ∷ []);
            };
            history = w1.history ++ (registers_factory class ∷ []);
          },
          rw (known, foreign, add_import_wire, asked)
              (bind_at (start_each o (some id) w1.admin.imported_services success) _ w1 started),
          refl,
        ),
      )
