-- ===== src/RemoteServiceAdmin/Description.antt =====
-- remote_service_admin/private/src/endpoint_description.c, and the key functions for its descriptions
-- in remote_service_admin_inaetics/rsa/private/src/remote_service_admin_impl.c.
use node_wiring_secure.Base.{
  ℕ, Bool, true, false, CString, ◌++◌, Option, none, some, ◌>>=◌, ◌==◌, not, ◌||◌, take,
  if◌then◌else◌,
}
use node_wiring_secure.Celix.{Properties, Status, success, bundle_exception}
use node_wiring_secure.Endpoint.{get, strcmp_eq}
use node_wiring_secure.Listener.{is_none}
use node_wiring_secure.Celix.Numbers.{atol}

-- struct endpoint_description. The texts are pointers into the properties.
pub record Description : Type 0 where
  pub framework_uuid : Option CString
  pub id : Option CString
  pub service : Option CString
  pub properties : Properties
  pub service_id : ℕ

-- The keys of remote_constants.h and constants.h, Celix' headers.
pub record Keys : Type 0 where
  pub endpoint_service_id : CString
  pub endpoint_framework_uuid : CString
  pub endpoint_id : CString
  pub object_class : CString
  pub service_id : CString
  pub exported_interfaces : CString
  pub imported : CString
  pub imported_configs : CString
  pub listener_scope : CString

-- endpointDescription_verifyLongProperty
unfoldable pub verify_long_property : Properties → CString → ℕ
verify_long_property p key = elim (get p key) [ none ↦ 0 | some value ↦ atol value ]

abbrev pub is_complete : Description → Bool
is_complete d = not (is_none d.framework_uuid || is_none d.id || is_none d.service)

abbrev pub description_from : Keys → Properties → Description
description_from k p = record {
  framework_uuid = get p k.endpoint_framework_uuid;
  id = get p k.endpoint_id;
  service = get p k.object_class;
  properties = p;
  service_id = verify_long_property p k.endpoint_service_id;
}

-- endpointDescription_create, which leaves an incomplete description in its result too.
unfoldable pub endpoint_description_create : Keys → Properties → Status × Description
endpoint_description_create k p =
    let d = description_from k p in (if is_complete d then success else bundle_exception, d)

-- remoteServiceAdmin_endpointDescription_hash: the two texts are printed into 512 bytes. To print NULL is
-- undefined in C, and a fault here: descriptions with such a text are keys of a map, whose comparison
-- reads it.
unfoldable pub description_hash : (CString → ℕ) → Description → Option ℕ
description_hash string_hash d = do
  service ← d.service
  id ← d.id
  some (string_hash (take 511 (service ++ id)))

-- remoteServiceAdmin_endpointDescription_equals, for two descriptions that are there: the services are
-- compared only where the service ids agree.
unfoldable pub description_equals : Description → Description → Option Bool
description_equals c d = elim (c.service_id == d.service_id) [
  | true ↦ strcmp_eq c.service d.service
  | false ↦ some false
]
