-- ===== src/TrustManager/CaResponse.antt =====
-- trust_manager/private/src/trust_manager_caresponse.c: the answers of the certificate authority. The
-- references that the code gives up while it does not own them are not counted.
use node_wiring_secure.Base.{
  ℕ, Bool, false, CString, codes, Option, none, some, ◌>>=◌, if◌then◌else◌,
}
use node_wiring_secure.Codec.{fit}

-- jansson on a kind of values: json_loads, json_is_object, json_object_get, json_boolean_value and
-- json_string_value.
pub record Jansson (Json : Type 0) : Type 0 where
  pub loads : CString → Option Json
  pub is_object : Json → Bool
  pub member : Json → CString → Option Json
  pub boolean : Json → Bool
  pub text : Json → Option CString

module _ {Json : Type 0} (j : Jansson Json) where
  abbrev pub boolean_of : Option Json → Bool
  boolean_of none = false
  boolean_of (some v) = j.boolean v

  abbrev pub text_of : Option Json → Option CString
  text_of none = none
  text_of (some v) = j.text v

  -- verify_response
  unfoldable pub verify_response : Json → Bool
  verify_response v = if j.is_object v then boolean_of (j.member v (codes "success")) else false

  -- The size of the member of certresponse: 4096 pointers.
  abbrev pub response_size : ℕ
  response_size = 32768

  -- parse_cert_from_json: a certificate that is no text, or does not fit, is a fault.
  unfoldable pub parse_cert_from_json : Json → Option (Option CString)
  parse_cert_from_json v = elim (j.member v (codes "result")) [
    | none ↦ some none
    | some found ↦ do
      text ← text_of (j.member found (codes "certificate"))
      copied ← fit response_size text
      some (some copied)
  ]

  -- parse_certificate_response
  unfoldable pub parse_certificate_response : CString → Option (Option CString)
  parse_certificate_response body = elim (j.loads body) [
    | none ↦ some none
    | some v ↦ if verify_response v then parse_cert_from_json v else some none
  ]
