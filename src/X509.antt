-- ===== src/X509.antt =====
-- What the program reads of a certificate that x509-parser has parsed. That crate is not part of the
-- repository: a certificate is the record of the values that its accessors return.
use ru_ssl.Prelude.{ℕ, List, Option}
use ru_ssl.Prelude.Int.{ℤ}
use ru_ssl.Text.{Str, Bytes}

-- `GeneralName`; an IP address is its octets.
pub data GeneralName : Type 0 where
  uri : Str → GeneralName
  dns_name : Str → GeneralName
  ip_address : Bytes → GeneralName
  other_name : GeneralName

-- The method is the dotted text of its OID.
pub record AccessDescription : Type 0 where
  pub access_method : Str
  pub access_location : GeneralName

-- `ParsedExtension`; a policy is the dotted text of its OID.
pub data Extension : Type 0 where
  authority_info_access : List AccessDescription → Extension
  certificate_policies : List Str → Extension
  other_extension : Extension

-- `not_before` and `not_after` are Unix timestamps, with their `Display` texts beside them.
-- `subject_alternative_name` is what `.ok().flatten()` leaves; `key_size` what `.parsed().ok()` does.
pub record Certificate : Type 0 where
  pub subject : Str
  pub issuer : Str
  pub issuer_raw : Bytes
  pub raw_serial : Bytes
  pub not_before : ℤ
  pub not_after : ℤ
  pub not_before_text : Str
  pub not_after_text : Str
  pub subject_alternative_name : Option (List GeneralName)
  pub key_oid : Str
  pub key_size : Option ℕ
  pub public_key_bits : Bytes
  pub signature_oid : Str
  pub extensions : List Extension
  pub organizations : List Str

-- `parse_x509_certificate`: the certificate, or the message of the error.
pub data Parsed : Type 0 where
  parsed : Certificate → Parsed
  refused : Str → Parsed
