-- ===== src/Connection/Sni/Outcome.antt =====
-- When the two probes are said to have seen the same certificate.
use ru_ssl.Prelude.{
  Bool, true, false, Option, none, some, ◌≡◌, ◌↔◌, inl, inr, refl, sym, ◌∙◌, arith, Bool-cases,
}
use ru_ssl.Text.{Str, Bytes, codes, str_eq, str_eq_iff, str_ne}
use mathlib.Core.Bool.{false≢true}
use ru_ssl.X509.{Parsed}
use ru_ssl.Connection.Sni.{
  NoSni, leaf, rejected, unavailable, same_leaf, compare_leaf, classify_sni,
}

-- Both probes returned this leaf.
abbrev pub SameLeaf : Option Bytes → NoSni → Type 0
SameLeaf with_leaf no_sni = (der : Bytes) × (with_leaf ≡ some der) × (no_sni ≡ leaf der)

same_leaf_iff :
    (with_leaf : Option Bytes) (der : Bytes)
    → (same_leaf with_leaf der ≡ true) ↔ (with_leaf ≡ some der)
same_leaf_iff none der = ((λ h. cc), λ h. cc)
same_leaf_iff (some d) der = ground (arith, str_eq_iff d der)

compare_leaf_same :
    (parse : Bytes → Parsed) (with_leaf : Option Bytes) (no_sni : NoSni)
    → ((compare_leaf parse with_leaf no_sni).outcome ≡ codes "same-certificate")
      ↔ SameLeaf with_leaf no_sni
unfolding str_eq
compare_leaf_same parse with_leaf rejected = (
  (λ e. absurd (str_ne (codes "rejected-without-sni") (codes "same-certificate") refl e)),
  λ s. cc (s.2),
)
compare_leaf_same parse with_leaf unavailable =
    ((λ e. absurd (str_ne (codes "unknown") (codes "same-certificate") refl e)), λ s. cc (s.2))
compare_leaf_same parse with_leaf (leaf der) = elim (Bool-cases (same_leaf with_leaf der)) [
  | inl same ↦ rw same ((λ e. (der, (same_leaf_iff with_leaf der).0 same, refl)), λ s. refl)
  | inr differ ↦ rw differ (
    (λ e. absurd (str_ne (codes "different-certificate") (codes "same-certificate") refl e)),
    λ s. absurd (false≢true (sym differ ∙ (same_leaf_iff with_leaf der).1 (s.1 ∙ cc (s.2)))),
  )
]

classify_sni_host :
    (parse : Bytes → Parsed) (is_ip : Str → Bool) (host : Str) (with_leaf : Option Bytes)
    (no_sni : NoSni)
    → is_ip host ≡ false
    → classify_sni parse is_ip host with_leaf no_sni ≡ compare_leaf parse with_leaf no_sni
unfolding classify_sni
classify_sni_host parse is_ip host with_leaf no_sni h = rw h

-- For a host that is no IP address, the outcome is `same-certificate` exactly if both probes
-- returned one and the same leaf.
pub classify_sni_same :
    (parse : Bytes → Parsed) (is_ip : Str → Bool) (host : Str) (with_leaf : Option Bytes)
    (no_sni : NoSni)
    → is_ip host ≡ false
    → ((classify_sni parse is_ip host with_leaf no_sni).outcome ≡ codes "same-certificate")
      ↔ SameLeaf with_leaf no_sni
classify_sni_same parse is_ip host with_leaf no_sni h =
    rw (classify_sni_host parse is_ip host with_leaf no_sni h)
      (compare_leaf_same parse with_leaf no_sni)
