-- ===== src/Output/Pretty/Shape.antt =====
-- The shape of the report of output/pretty.rs: the width of its tables, and their numbers of rows.
use ru_ssl.Prelude.{
  ℕ, ◌≡◌, refl, List, [], ◌∷◌, ◌++◌, Option, none, some, map, length, All, All-append, Bool-cases,
  inl, inr,
}
use ru_ssl.Text.{Str, str_eq}
use ru_ssl.Cert.{CertInfo}
use ru_ssl.Scan.{ScanResult}
use ru_ssl.Handshake.{ProtocolResult}
use ru_ssl.Ciphers.{CipherResult}
use ru_ssl.Vulns.{VulnResult}
use ru_ssl.Connection.ForwardSecrecy.{FsProtocol}
use ru_ssl.Connection.Inspect.{ConnectionProperties}
use ru_ssl.Output.Pretty.{
  Table, Section, report, if_some, unless_empty, cipher_section, vuln_section,
}
use ru_ssl.Output.Pretty.Rows.{
  Row, cert_rows, ocsp_rows, ct_rows, protocol_row, suite_row, fs_row, subject_rows,
  connection_rows, vuln_row,
}

-- A table with no header has two columns.
abbrev pub width : Row → ℕ
width [] = 2
width (title ∷ titles) = length (title ∷ titles)

abbrev pub IsRectangular : Table → Type 0
IsRectangular t = All (λ row. length row ≡ width t.header) t.rows

abbrev HasWidth : ℕ → List Row → Type 0
HasWidth n = All (λ row. length row ≡ n)

map-HasWidth :
    {A : Type 0} (f : A → Row) (n : ℕ)
    → ((x : A) → length (f x) ≡ n)
    → (xs : List A) → HasWidth n (map f xs)
map-HasWidth f n h [] = tt
map-HasWidth f n h (x ∷ xs) = (h x, map-HasWidth f n h xs)

subject_rows-HasWidth : (a b : Option Str) → HasWidth 2 (subject_rows a b)
subject_rows-HasWidth none b = tt
subject_rows-HasWidth (some a) none = tt
subject_rows-HasWidth (some a) (some b) = elim (Bool-cases (str_eq a b)) [
  | inl same ↦ rw same tt
  | inr differ ↦ rw differ (refl, (refl, tt))
]

optional_rows-HasWidth :
    (status : Option Str) (count : Option ℕ) → HasWidth 2 (ocsp_rows status ++ ct_rows count)
optional_rows-HasWidth none none = tt
optional_rows-HasWidth none (some n) = (refl, tt)
optional_rows-HasWidth (some s) none = (refl, tt)
optional_rows-HasWidth (some s) (some n) = (refl, (refl, tt))

cert_rows-HasWidth : (c : CertInfo) → HasWidth 2 (cert_rows c)
unfolding cert_rows
cert_rows-HasWidth c =
    let rest = optional_rows-HasWidth c.ocsp_status c.ct_log_entries in
    (
      refl,
      (refl, (refl, (refl, (refl, (refl, (refl, (refl, (refl, (refl, (refl, (refl, rest))))))))))),
    )

fs_row-width : (p : FsProtocol) → length (fs_row p) ≡ 2
unfolding fs_row
fs_row-width p = refl

connection_rows-HasWidth : (conn : ConnectionProperties) → HasWidth 2 (connection_rows conn)
unfolding connection_rows
connection_rows-HasWidth conn =
    let subjects = subject_rows-HasWidth conn.sni.with_sni_subject conn.sni.without_sni_subject in
    let rest = All-append _ _ _ subjects (refl, tt) in
    (
      refl,
      All-append _ _ _ (map-HasWidth fs_row 2 fs_row-width conn.secrecy.protocols)
          (refl, (refl, (refl, rest))),
    )

protocol_row-width : (p : ProtocolResult) → length (protocol_row p) ≡ 4
unfolding protocol_row
protocol_row-width p = refl

suite_row-width : (c : CipherResult) → length (suite_row c) ≡ 3
unfolding suite_row
suite_row-width c = refl

vuln_row-width : (v : VulnResult) → length (vuln_row v) ≡ 4
unfolding vuln_row
vuln_row-width v = refl

abbrev pub AllRectangular : List Section → Type 0
AllRectangular = All (λ (s : Section). IsRectangular s.table)

cipher_section-IsRectangular :
    (cs : List CipherResult) → AllRectangular (unless_empty cipher_section cs)
cipher_section-IsRectangular [] = tt
cipher_section-IsRectangular (c ∷ cs) = (map-HasWidth suite_row 3 suite_row-width (c ∷ cs), tt)

vuln_section-IsRectangular : (vs : List VulnResult) → AllRectangular (unless_empty vuln_section vs)
vuln_section-IsRectangular [] = tt
vuln_section-IsRectangular (v ∷ vs) = (map-HasWidth vuln_row 4 vuln_row-width (v ∷ vs), tt)

if_some-IsRectangular : (conn : Option ConnectionProperties) → AllRectangular (if_some conn)
if_some-IsRectangular none = tt
if_some-IsRectangular (some conn) = (connection_rows-HasWidth conn, tt)

-- In every table of a report each row has as many cells as the header, or two if the table has no
-- header.
pub report-IsRectangular : (r : ScanResult) → AllRectangular (report r)
unfolding report
report-IsRectangular r = (
  cert_rows-HasWidth r.certificate,
  (
    map-HasWidth protocol_row 4 protocol_row-width r.protocols,
    All-append _ _ _ (cipher_section-IsRectangular r.cipher_suites) (
        All-append _ _ _ (if_some-IsRectangular r.connection)
          (vuln_section-IsRectangular r.vulnerabilities)),
  ),
)
