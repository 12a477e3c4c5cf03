-- ===== src/Lib.antt =====
-- Verification library of RuSSL, a TLS scanner in Rust.
--
-- The program takes a host and a port, and makes a report: the certificate that the server presents
-- with the checks on it (revocation by OCSP, entries in CT logs), the protocol versions it accepts,
-- its cipher suites, inferred vulnerabilities, and properties of the connection. `main.rs` reads
-- the command line, `scanner/mod.rs` runs the parts one after the other, and `output` prints the
-- result. The OCSP check builds a DER request with `der.rs`, sends it with the HTTP client of
-- `http.rs` and walks through the DER response; the CT lookup and the HSTS probe use the same client.
-- Each network step but the resolution of a name runs under a time limit.
--
-- The files and the code that they model:
--   Error         src/error.rs: `ScanError`, its messages, and results with `?` as a bind.
--   Der           src/scanner/der.rs: `encode_len`, `tlv`, `integer`, `read_tlv`, `children`.
--     Der/Length the length octets; Der/Bounds the range of a length; Der/Reader the reader;
--     Der/Integer INTEGER; Der/Children the walk; Der/Slices the reader with its slices checked.
--   Http          src/scanner/http.rs: `find_subsequence`, `decode_chunked`, `parse_response`, and the
--                 bytes of a request. Http/Request is `request` over a network, and Http/Answers is that to
--                 a server that answers.
--     Http/Search, Http/Chunked, Http/ChunkedCoding, Http/HeaderBlock, Http/StatusLine, Http/Response,
--     Http/Extent, Http/Truncation, Http/CutResponse, Http/RequestHead and Http/Injection: their
--     theorems. Http/Slices is the parser with its slices checked.
--   Async         src/scanner/mod.rs: `with_timeout`, over futures. Async/Within has the rules for the
--                 time that a `do` block takes.
--   Target        src/scanner/mod.rs: `Target` with `addr`, and `ScanOpts`.
--   Ocsp          src/scanner/ocsp.rs: `ocsp_url`, `build_request`, `parse_status`, `parse_url`.
--                 Ocsp/Check is `query` and `check` over a network.
--     Ocsp/Status, Ocsp/Request, Ocsp/Urls, Ocsp/Advisory, Ocsp/Soundness: their theorems;
--     Ocsp/Responder is the check against a responder that reads its requests, and Ocsp/Injection
--     the request for a URL with line ends in it.
--   Cert          src/scanner/cert.rs: `is_weak_key`, `classify_validation`, `oid_name`, the fields of
--                 `CertInfo`. Cert/Verifier is `CertCapture` with the calls of the verifier,
--                 and Cert/Inspect is `inspect`.
--     Cert/Validity, Cert/Keys, Cert/Policies, Cert/Capture, Cert/Total: their theorems.
--   Ct            src/scanner/ct.rs: `count_entries` and `entry_count`. Ct/Limit and Ct/Served: their
--                 theorems.
--   Handshake     src/scanner/handshake.rs: its data. Handshake/Probe is `attempt_handshake` and
--                 `probe_protocols`; Handshake/Outcome is what the probe reports.
--   Vulns         src/scanner/vulns.rs: `check_all`.
--   Ciphers       src/scanner/ciphers.rs: `classify` and the suites. Ciphers/Enumerate is `enumerate`;
--                 Ciphers/Listing is what it lists, and Ciphers/Permits the semaphore over time.
--                 Ciphers/Tasks is its tasks as a step relation, with Ciphers/Tasks/Order and
--                 Ciphers/Tasks/Completion on the states that they reach.
--   Connection    src/scanner/connection.rs: Connection/Hsts is `parse_hsts`, Connection/Sni is
--                 `classify_sni`, Connection/ForwardSecrecy is `forward_secrecy`, Connection/Store is
--                 `RecordingStore`, Connection/Probes the three network probes with `pump_tickets`,
--                 and Connection/Inspect is `inspect`. The modules below each hold its theorems;
--                 Connection/Hsts/Header is the header as a server writes it, and
--                 Connection/Hsts/Served the probe of a site that sends it.
--   Scan          src/scanner/mod.rs: `run_scan`. Scan/Outcome is which step can fail it, Scan/Contents
--                 what its result holds, Scan/Connected and Cert/Checked the parts of that in the
--                 connection and in the certificate; Scan/Parts takes a scan that succeeded apart.
--   Output        src/output: Output/Pretty is `print` of pretty.rs with the rows of its tables in
--                 Output/Pretty/Rows, Output/Json that of json.rs. Output/Pretty/Shape,
--                 Output/Pretty/Sections, Output/Pretty/Revocation and Output/Pretty/Listed: their
--                 theorems.
--   Main          src/main.rs: the command line as a `Target` and `ScanOpts`, `main` with its exit
--                 code and its output. Main/Exit is when the program reports success, and what.
--   Prelude, Text shared lists, tests and numbers, and the functions on `str` that the code calls.
--   X509, Net     the interfaces to other crates.
--   Tests         the theorems at concrete inputs.
--   UnitTests     the source's own unit tests, run on the definitions above. The one that asks crt.sh
--                 over the network, which is ignored by default, is left out.
--
-- Conventions. A byte is a natural number below 256 and a text is the list of its code points; the
-- functions of `str` are written for every code point that they treat apart. `usize` has 64 bits:
-- lengths that are read are bounded by that, and sums that the code checks are checked. An error is a
-- value of `Result`. A future completes after some milliseconds with a result, or never does; what
-- follows it starts when it has completed, and mutable locals are arguments of a loop. State behind
-- a lock is a record that each call maps to the next.
--
-- Loops. `push_bytes` has eight rounds, one for each byte of a `usize`. The loop of `children` has a
-- round for each byte of the input, and every TLV takes at least two. The loop of `decode_chunked`
-- has one more round than the input has bytes, and every size line takes at least two.
--
-- Other crates are arguments: the X.509 parser is a function to a `Certificate` (X509), the network
-- and rustls are a record of operations that return futures (Net), and SHA-1, the JSON parser, the
-- clock, the test for an IP address and the time at which the semaphore grants a permit are functions
-- or values. What is assumed of them stands with the theorems: that a semaphore makes a task wait only
-- while all its permits are held, or else that a permit is granted within some time, that a name is
-- resolved within some time, and that a responder reads its requests and has a list.
--
-- Names that would stand for two things differ from the source: the field `leaf` of `Primary` is
-- `first_leaf`, `forward_secrecy` of `ConnectionProperties` is `secrecy`, and `days_remaining` of
-- `CertInfo` is `days_left`.
--
-- Not modelled: the layout of a table, which is a crate's. Log lines on standard error are left out, and
-- so is the set-up of rustls configurations: a configuration is the version or the suite that it is
-- restricted to.
pub mod Prelude
pub mod Text
pub mod Error
pub mod Der
pub mod Http
pub mod Async
pub mod Ocsp
pub mod X509
pub mod Cert
pub mod Handshake
pub mod Vulns
pub mod Ciphers
pub mod Net
pub mod Target
pub mod Ct
pub mod Scan
pub mod Output
pub mod Main
pub mod Connection
mod Tests
mod UnitTests
