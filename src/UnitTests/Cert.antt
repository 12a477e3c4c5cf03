-- ===== src/UnitTests/Cert.antt =====
-- The unit tests of scanner/cert.rs, and the one of scanner/ciphers.rs.
use ru_ssl.Prelude.{refl, Bool, true, false, not, ◌&&◌, [], ◌∷◌, none, some, All}
use ru_ssl.Text.{codes, str_eq, contains, starts_with}
use ru_ssl.Cert.{is_weak_key, classify_validation}
use ru_ssl.Ciphers.{classify}
use ru_ssl.UnitTests.{Passes}

abbrev rsa_below_2048_is_weak : Bool
rsa_below_2048_is_weak =
    is_weak_key (codes "RSA") (some 1024)
    && is_weak_key (codes "RSA") (some 2047)
    && not (is_weak_key (codes "RSA") (some 2048))
    && not (is_weak_key (codes "RSA") (some 4096))

abbrev ec_below_256_is_weak : Bool
ec_below_256_is_weak =
    is_weak_key (codes "EC") (some 192)
    && not (is_weak_key (codes "EC") (some 256))
    && not (is_weak_key (codes "EC") (some 384))

abbrev unknown_size_is_not_flagged : Bool
unknown_size_is_not_flagged =
    not (is_weak_key (codes "RSA") none) && not (is_weak_key (codes "EC") none)

abbrev modern_eddsa_is_not_weak : Bool
modern_eddsa_is_not_weak = not (is_weak_key (codes "Ed25519") (some 256))

abbrev cab_policy_oids_classify_directly : Bool
cab_policy_oids_classify_directly =
    str_eq (classify_validation (codes "2.23.140.1.1" ∷ []) false) (codes "EV")
    && str_eq (classify_validation (codes "2.23.140.1.2.2" ∷ []) false) (codes "OV")
    && str_eq (classify_validation (codes "2.23.140.1.2.1" ∷ []) true) (codes "DV")

abbrev cab_oid_wins_over_unrelated_policy : Bool
cab_oid_wins_over_unrelated_policy =
    str_eq (classify_validation (codes "1.3.6.1.4.1.99" ∷ codes "2.23.140.1.1" ∷ []) false)
      (codes "EV")

abbrev falls_back_to_subject_heuristic : Bool
falls_back_to_subject_heuristic =
    str_eq (classify_validation [] true) (codes "OV (inferred)")
    && str_eq (classify_validation [] false) (codes "DV (inferred)")
    && str_eq (classify_validation (codes "1.3.6.1.4.1.99" ∷ []) true) (codes "OV (inferred)")

cert_tests : All Passes (
    rsa_below_2048_is_weak ∷ ec_below_256_is_weak ∷ unknown_size_is_not_flagged
    ∷ modern_eddsa_is_not_weak ∷ cab_policy_oids_classify_directly
    ∷ cab_oid_wins_over_unrelated_policy ∷ falls_back_to_subject_heuristic ∷ [])
unfolding str_eq is_weak_key classify_validation
cert_tests = (refl, (refl, (refl, (refl, (refl, (refl, (refl, tt)))))))

abbrev strength_buckets : Bool
strength_buckets =
    str_eq (classify (codes "TLS13_AES_256_GCM_SHA384")) (codes "Strong")
    && str_eq (classify (codes "TLS13_CHACHA20_POLY1305_SHA256")) (codes "Strong")
    && str_eq (classify (codes "TLS13_AES_128_GCM_SHA256")) (codes "Adequate")

cipher_tests : All Passes (strength_buckets ∷ [])
unfolding str_eq contains starts_with classify
cipher_tests = (refl, tt)
