-- ===== src/Ocsp.antt =====
-- scanner/ocsp.rs: the responder URL, the request, and the walk through the response. The parsed
-- certificates and the SHA-1 digest come from other crates and are arguments.
pub mod Status
pub mod Request
pub mod Urls
pub mod Check
pub mod Advisory
pub mod Soundness
pub mod Responder
pub mod Injection
use ru_ssl.Prelude.{
  ℕ, ◌+◌, Bool, true, false, ◌||◌, not, List, [], ◌∷◌, ◌++◌, Option, none, some, ◌==◌,
  if◌then◌else◌, find, take, drop, head?, get_elem?,
}
use ru_ssl.Text.{Str, Bytes, codes, str_eq, strip_prefix, rsplit_once, find_char, parse_u16}
use ru_ssl.Error.{ScanError, Result, ok, err, ◌>>=◌}
use ru_ssl.Http.{Scheme, ok_or}
use ru_ssl.X509.{
  GeneralName, uri, AccessDescription, Extension, authority_info_access, certificate_policies,
  other_extension, Certificate,
}
use ru_ssl.Der.{Tlv, algid_sha1, sequence, octet_string, integer, read_tlv, children}

pub data CertStatus : Type 0 where
  good revoked unknown responder_error : CertStatus

abbrev pub malformed : ScanError
malformed = ScanError.http (codes "malformed OCSP response")

-- The tag of `certStatus`.
unfoldable pub status_of_tag : ℕ → CertStatus
status_of_tag tag = if tag == 0x80 then good else if tag == 0xa1 then revoked else unknown

-- Below `responseStatus`: the path from `responseBytes` down to the single response.
unfoldable pub single_status : List Tlv → Result CertStatus
unfolding status_of_tag
single_status top = do
  response_bytes_ctx ← ok_or (get_elem? top 1) malformed
  response_bytes ← ok_or (read_tlv response_bytes_ctx.content) malformed
  basic_os ← ok_or (get_elem? (children response_bytes.content) 1) malformed
  basic ← ok_or (read_tlv basic_os.content) malformed
  response_data ← ok_or (head? (children basic.content)) malformed
  responses ← ok_or (find (λ (t : Tlv). t.tag == 0x30) (children response_data.content)) malformed
  single_response ← ok_or (head? (children responses.content)) malformed
  cert_status ← ok_or (get_elem? (children single_response.content) 1) malformed
  ok (status_of_tag cert_status.tag)

-- `content.first() != Some(&0)`.
abbrev pub first_is_zero : Bytes → Bool
first_is_zero [] = false
first_is_zero (b ∷ bs) = b == 0

unfoldable pub parse_status : Bytes → Result CertStatus
parse_status der_bytes = do
  ocsp ← ok_or (read_tlv der_bytes) malformed
  let top = children ocsp.content
  response_status ← ok_or (head? top) malformed
  if not (response_status.tag == 0x0a) || not (first_is_zero response_status.content)
      then ok responder_error
      else single_status top

-- Scheme, host, port and path.
abbrev pub Url : Type 0
Url = Scheme × Str × ℕ × Str

abbrev with_scheme : Option Str → Option Str → Option (Scheme × Str × ℕ)
with_scheme (some r) https = some (Scheme.http, r, 80)
with_scheme none (some r) = some (Scheme.https, r, 443)
with_scheme none none = none

abbrev pub port_or : Option ℕ → ℕ → ℕ
port_or none default = default
port_or (some p) default = p

abbrev pub host_port : Str → ℕ → Option (Str × Str) → Str × ℕ
host_port authority default_port none = (authority, default_port)
host_port authority default_port (some (h, p)) = (h, port_or (parse_u16 p) default_port)

-- `rest` in front of and behind its first slash; the path is `/` if there is none.
abbrev pub authority_path : Str → Option ℕ → Str × Str
authority_path rest none = (rest, b'/' ∷ [])
authority_path rest (some i) = (take i rest, drop i rest)

unfoldable pub parse_rest : Scheme × Str × ℕ → Url
parse_rest (scheme, rest, default_port) =
    let (authority, path) = authority_path rest (find_char rest b'/') in
    let (host, port) = host_port authority default_port (rsplit_once authority b':') in
    (scheme, host, port, path)

unfoldable pub parse_url : Str → Result Url
parse_url url = do
  parts ←
      ok_or (with_scheme (strip_prefix url (codes "http://")) (strip_prefix url (codes "https://")))
        (ScanError.http (codes "unsupported OCSP URL: " ++ url))
  ok (parse_rest parts)

abbrev pub oid_ad_ocsp : Str
oid_ad_ocsp = codes "1.3.6.1.5.5.7.48.1"

abbrev responder : GeneralName → Option Str
responder (uri u) = some u
responder _ = none

abbrev or_else : Option Str → Option Str → Option Str
or_else (some u) later = some u
or_else none later = later

-- The inner loop: the first description with the OCSP method and a URI.
unfoldable pub first_responder : List AccessDescription → Option Str
unfolding str_eq
first_responder [] = none
first_responder (desc ∷ descs) =
    or_else (if str_eq desc.access_method oid_ad_ocsp then responder desc.access_location else none)
      (first_responder descs)

unfoldable pub ocsp_url : List Extension → Option Str
unfolding first_responder
ocsp_url [] = none
ocsp_url (authority_info_access aia ∷ exts) = or_else (first_responder aia) (ocsp_url exts)
ocsp_url (certificate_policies oids ∷ exts) = ocsp_url exts
ocsp_url (other_extension ∷ exts) = ocsp_url exts

-- The content of `CertID`.
unfoldable pub cert_id : Bytes → Bytes → Bytes → Bytes
cert_id name_hash key_hash serial =
    algid_sha1 ++ (octet_string name_hash ++ (octet_string key_hash ++ integer serial))

-- `sha1` is the digest of the ring crate, over the issuer's name and its public key bits.
unfoldable pub build_request : (Bytes → Bytes) → Certificate → Certificate → Bytes
build_request sha1 leaf issuer =
    let id =
      sequence (cert_id (sha1 leaf.issuer_raw) (sha1 issuer.public_key_bits) leaf.raw_serial) in
    let request = sequence id in
    let request_list = sequence request in let tbs = sequence request_list in sequence tbs
