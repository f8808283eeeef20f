-- ===== src/TrustManager/CertHandler.antt =====
-- trust_manager/private/src/trust_manager_certhandler.c: certificates are asked for, and tested.
use node_wiring_secure.Base.{
  ℕ, ◌+◌, Bool, true, false, CString, codes, digits_from, List, [], ◌∷◌, ◌++◌, Option, none, some,
  ◌>>=◌, if◌then◌else◌, ◌==◌, leb,
}
use node_wiring_secure.Codec.{fit}
use node_wiring_secure.TrustManager.CaResponse.{Jansson, parse_certificate_response}

-- writefunc, for each part of the answer
unfoldable pub write_parts : CString → List CString → CString
write_parts text [] = text
write_parts text (part ∷ parts) = write_parts (text ++ part) parts

-- What curl does for a url and a body: the parts of the answer, if it returns CURLE_OK.
abbrev pub Perform : Type 0
Perform = CString → CString → Option (List CString)

-- What a request leaves: whether it returns 0, and the certificate.
abbrev pub Requested : Type 0
Requested = Bool × CString

module _ {Json : Type 0} (j : Jansson Json) (perform : Perform) where
  -- cfssl_ca_certget_wrapper, for a curl handle that is there, by what the buffer holds before. Of the
  -- parsed certificate 4096 bytes are copied: a longer one has no end there, and one that is not there
  -- is a null pointer that is read.
  unfoldable pub ca_certget : CString → CString → CString → Option Requested
  ca_certget before body url = elim (perform url body) [
    | none ↦ some (false, before)
    | some parts ↦ do
      parsed ← parse_certificate_response j (write_parts [] parts)
      found ← parsed
      certificate ← fit 4096 found
      some (true, certificate)
  ]

  -- The url, printed into 512 bytes.
  unfoldable pub api_url : CString → ℕ → CString → Option CString
  api_url host port path =
      fit 512 (codes "http://" ++ (host ++ (codes ":" ++ (digits_from 10 port [] ++ path))))

  -- request_ca_certificate
  unfoldable pub request_ca_certificate : CString → CString → ℕ → Option Requested
  request_ca_certificate before host port = do
    url ← api_url host port (codes "/api/v1/cfssl/info")
    ca_certget before (codes "{}") url

  -- csr_get_certificate, by the request that generate_csr makes for the key
  unfoldable pub csr_get_certificate : CString → CString → CString → ℕ → Option Requested
  csr_get_certificate before csr host port = do
    url ← api_url host port (codes "/api/v1/cfssl/sign")
    ca_certget before csr url

-- REFRESH_EARLY_THRESHOLD_SECONDS
abbrev pub refresh_early_threshold_seconds : ℕ
refresh_early_threshold_seconds = 30

-- cert_date_still_valid, by the time and the time that mktime makes of the end of the validity: 0 for a
-- certificate that is valid long enough, despite the name.
unfoldable pub cert_date_still_valid : ℕ → ℕ → ℕ → ℕ
cert_date_still_valid now end threshold = if leb (now + threshold) end then 0 else 1

-- verify_certificate: whether the sum of the two codes is 0. mbedtls_x509_crt_verify returns 0 or a
-- negative code, of which this is the absolute value.
unfoldable pub verify_certificate : ℕ → ℕ → ℕ → Bool
verify_certificate code now end =
    code == cert_date_still_valid now end refresh_early_threshold_seconds
