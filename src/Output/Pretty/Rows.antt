-- ===== src/Output/Pretty/Rows.antt =====
-- The rows of the tables, as `add_row` is given them.
use ru_ssl.Prelude.{
  ℕ, ◌+◌, Bool, true, false, not, List, [], ◌∷◌, ◌++◌, Option, none, some, map, if◌then◌else◌,
}
use ru_ssl.Prelude.Int.{ℤ, pos, negsuc}
use ru_ssl.Text.{Str, codes, to_string, join, str_eq}
use ru_ssl.Cert.{CertInfo}
use ru_ssl.Handshake.{ProtocolResult}
use ru_ssl.Ciphers.{CipherResult}
use ru_ssl.Vulns.{VulnResult}
use ru_ssl.Connection.ForwardSecrecy.{FsProtocol}
use ru_ssl.Connection.Probes.{OcspStapling, SessionResumption}
use ru_ssl.Connection.Hsts.{Hsts}
use ru_ssl.Connection.Inspect.{ConnectionProperties}

abbrev pub Row : Type 0
Row = List Str

-- The warning sign, with the selector of its coloured form.
abbrev pub warning_sign : Str
warning_sign = 0x26a0 ∷ 0xfe0f ∷ []

-- The `Display` of an `i64` and of a `bool`.
abbrev pub int_text : ℤ → Str
int_text (pos n) = to_string n
int_text (negsuc n) = b'-' ∷ to_string (n + 1)

abbrev pub bool_text : Bool → Str
bool_text true = codes "true"
bool_text false = codes "false"

unfoldable pub key_size_text : Option ℕ → Bool → Str
key_size_text none weak = codes "unknown"
key_size_text (some bits) weak =
    if weak then to_string bits ++ codes " bits (WEAK)" else to_string bits ++ codes " bits"

abbrev pub ocsp_rows : Option Str → List Row
ocsp_rows none = []
ocsp_rows (some status) = (codes "OCSP Status" ∷ status ∷ []) ∷ []

abbrev pub ct_rows : Option ℕ → List Row
ct_rows none = []
ct_rows (some count) = (codes "CT Log Entries" ∷ to_string count ∷ []) ∷ []

-- The rows that every certificate has.
abbrev pub fixed_rows : CertInfo → List Row
fixed_rows c =
    (codes "Subject" ∷ c.subject ∷ [])
    ∷ (codes "Issuer" ∷ c.issuer ∷ [])
    ∷ (codes "Not Before" ∷ c.not_before ∷ [])
    ∷ (codes "Not After" ∷ c.not_after ∷ [])
    ∷ (codes "Days Remaining" ∷ int_text c.days_left ∷ [])
    ∷ (codes "Expired" ∷ bool_text c.is_expired ∷ [])
    ∷ (codes "Key Algorithm" ∷ c.key_algorithm ∷ [])
    ∷ (codes "Key Size" ∷ key_size_text c.key_bits c.weak_key ∷ [])
    ∷ (codes "Validation" ∷ c.validation_level ∷ [])
    ∷ (codes "Sig Algorithm" ∷ c.signature_algorithm ∷ [])
    ∷ (codes "Chain Depth" ∷ to_string c.chain_depth ∷ [])
    ∷ (codes "SANs" ∷ join c.sans (codes ", ") ∷ [])
    ∷ []

unfoldable pub cert_rows : CertInfo → List Row
cert_rows c = fixed_rows c ++ (ocsp_rows c.ocsp_status ++ ct_rows c.ct_log_entries)

-- `.as_deref().unwrap_or("—")`.
abbrev pub or_dash : Option Str → Str
or_dash none = codes "—"
or_dash (some s) = s

unfoldable pub protocol_row : ProtocolResult → Row
protocol_row p =
    p.version
    ∷ (if p.supported then codes "✅ Yes" else codes "❌ No")
    ∷ or_dash p.negotiated_cipher
    ∷ or_dash p.negotiated_group
    ∷ []

unfoldable pub suite_row : CipherResult → Row
suite_row c = c.suite ∷ (if c.accepted then codes "✅" else codes "❌") ∷ c.strength ∷ []

unfoldable pub secrecy_text : Bool → Str
secrecy_text all_forward_secret =
    if all_forward_secret
    then codes "✅ All negotiated suites"
    else warning_sign ++ codes "  Non-ephemeral suite negotiated"

unfoldable pub fs_row : FsProtocol → Row
fs_row p =
    (codes "  " ++ p.version)
    ∷ ((if p.forward_secret then codes "FS" else codes "no FS")
        ++ (codes " — " ++ or_dash p.cipher))
    ∷ []

unfoldable pub staple_text : OcspStapling → Str
staple_text staple =
    if staple.stapled
    then codes "✅ Yes (" ++ (to_string staple.response_len ++ codes " bytes)")
    else codes "❌ No"

abbrev pub pushed_if : Bool → Str → List Str
pushed_if b part = if b then part ∷ [] else []

unfoldable pub session_text : SessionResumption → Str
session_text sr =
    if sr.supported
    then codes "✅ "
      ++ join
          (pushed_if sr.tls13_ticket (codes "TLS 1.3 ticket")
            ++ pushed_if sr.tls12_session (codes "TLS 1.2 session"))
          (codes ", ")
    else codes "❌ Not offered"

-- The two rows for subjects that differ.
abbrev pub subject_rows : Option Str → Option Str → List Row
subject_rows (some a) (some b) =
    if not (str_eq a b)
    then (codes "  with SNI" ∷ a ∷ []) ∷ (codes "  without SNI" ∷ b ∷ []) ∷ []
    else []
subject_rows (some a) none = []
subject_rows none b = []

abbrev pub age_text : Option ℕ → Str
age_text none = codes "?"
age_text (some m) = to_string m

abbrev pub pushed_text : Bool → Str → Str
pushed_text b text = if b then text else []

unfoldable pub hsts_text : Option Hsts → Str
hsts_text none = codes "— (probe failed)"
hsts_text (some h) =
    if h.present
    then codes "✅ max-age="
      ++ (age_text h.max_age
          ++ (pushed_text h.include_subdomains (codes "; includeSubDomains")
              ++ pushed_text h.preload (codes "; preload")))
    else codes "❌ Not present"

unfoldable pub connection_rows : ConnectionProperties → List Row
connection_rows conn =
    (codes "Forward Secrecy" ∷ secrecy_text conn.secrecy.all_forward_secret ∷ [])
    ∷ (map fs_row conn.secrecy.protocols
        ++ ((codes "OCSP Stapling" ∷ staple_text conn.ocsp_stapling ∷ [])
            ∷ (codes "Session Resumption" ∷ session_text conn.session_resumption ∷ [])
            ∷ (codes "SNI Behaviour" ∷ conn.sni.outcome ∷ [])
            ∷ (subject_rows conn.sni.with_sni_subject conn.sni.without_sni_subject
                ++ ((codes "HSTS" ∷ hsts_text conn.hsts ∷ []) ∷ []))))

unfoldable pub vuln_row : VulnResult → Row
vuln_row v =
    v.name
    ∷ (if v.vulnerable then codes "🔴 YES" else codes "🟢 No")
    ∷ v.severity
    ∷ v.description
    ∷ []
