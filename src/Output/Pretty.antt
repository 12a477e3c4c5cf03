-- ===== src/Output/Pretty.antt =====
-- output/pretty.rs: `print`, as the sections of the report and their tables.
pub mod Rows
pub mod Shape
pub mod Sections
pub mod Revocation
pub mod Listed
use ru_ssl.Prelude.{ℕ, Bool, List, [], ◌∷◌, ◌++◌, Option, none, some, map, is_empty, if◌then◌else◌}
use ru_ssl.Text.{Str, codes, to_string}
use ru_ssl.Cert.{CertInfo}
use ru_ssl.Handshake.{ProtocolResult}
use ru_ssl.Ciphers.{CipherResult}
use ru_ssl.Vulns.{VulnResult}
use ru_ssl.Connection.Inspect.{ConnectionProperties}
use ru_ssl.Scan.{ScanResult}
use ru_ssl.Output.Pretty.Rows.{
  Row, warning_sign, cert_rows, protocol_row, suite_row, connection_rows, vuln_row,
}

-- A `Table`: its header, empty if none is set, and its rows.
pub record Table : Type 0 where
  pub header : Row
  pub rows : List Row

-- A section: the line of its title, and its table.
pub record Section : Type 0 where
  pub title : Str
  pub table : Table

abbrev pub cert_section : CertInfo → Section
cert_section c = record {
  title = codes "📜 Certificate";
  table = record { header = []; rows = cert_rows c };
}

abbrev pub protocol_section : List ProtocolResult → Section
protocol_section ps = record {
  title = codes "🔒 Protocol Support";
  table = record {
    header = codes "Protocol" ∷ codes "Supported" ∷ codes "Negotiated Cipher" ∷ codes "Group" ∷ [];
    rows = map protocol_row ps;
  };
}

abbrev pub cipher_section : List CipherResult → Section
cipher_section cs = record {
  title = codes "🔐 Cipher Suites";
  table = record {
    header = codes "Suite" ∷ codes "Accepted" ∷ codes "Strength" ∷ [];
    rows = map suite_row cs;
  };
}

abbrev pub connection_section : ConnectionProperties → Section
connection_section conn = record {
  title = codes "🔗 Connection Properties";
  table = record { header = codes "Property" ∷ codes "Value" ∷ []; rows = connection_rows conn };
}

abbrev pub vuln_section : List VulnResult → Section
vuln_section vs = record {
  title = warning_sign ++ codes "  Vulnerability Checks";
  table = record {
    header = codes "Vulnerability" ∷ codes "Vulnerable" ∷ codes "Severity" ∷ codes "Notes" ∷ [];
    rows = map vuln_row vs;
  };
}

-- `if !items.is_empty()`.
abbrev pub unless_empty {ℓ} : {A : Type ℓ} → (List A → Section) → List A → List Section
unless_empty section items = if is_empty items then [] else section items ∷ []

-- `if let Some(conn)`.
abbrev pub if_some : Option ConnectionProperties → List Section
if_some none = []
if_some (some conn) = connection_section conn ∷ []

unfoldable pub report : ScanResult → List Section
report r =
    cert_section r.certificate
    ∷ protocol_section r.protocols
    ∷ (unless_empty cipher_section r.cipher_suites
        ++ (if_some r.connection ++ unless_empty vuln_section r.vulnerabilities))

abbrev pub println : Str → Str
println s = s ++ (b'\n' ∷ [])

-- Every table is followed by a blank line.
unfoldable pub print_sections : (Table → Str) → List Section → Str
print_sections layout [] = []
print_sections layout (s ∷ ss) =
    println s.title ++ (println (layout s.table ++ (b'\n' ∷ [])) ++ print_sections layout ss)

abbrev pub rule : Str
rule = codes "═══════════════════════════════════════════"

-- `layout` is the `Display` of a table.
unfoldable pub print : (Table → Str) → ScanResult → Str
print layout r =
    println rule
    ++ (println (codes "  TLS Inspection Report: " ++ (r.host ++ (b':' ∷ to_string r.port)))
        ++ (println (rule ++ (b'\n' ∷ [])) ++ print_sections layout (report r)))
