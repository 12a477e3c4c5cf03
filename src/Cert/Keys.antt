-- ===== src/Cert/Keys.antt =====
-- When a key is flagged as weak.
use ru_ssl.Prelude.{
  ℕ, ◌≤◌, ◌<◌, ◌≡◌, ◌⊎◌, inl, inr, ◌↔◌, refl, sym, ◌∙◌, true, false, ◌∷◌, [], Option, none, some,
  arith, All, Bool-cases, ltb, drop, List,
}
use ru_ssl.Prelude.Int.{ℤ}
use mathlib.Core.Bool.{false≢true}
use ru_ssl.Text.{Str, codes, str_eq, str_eq_iff}
use ru_ssl.X509.{Certificate}
use ru_ssl.Cert.{below_minimum, is_weak_key, oid_arms, match_oid, oid_name, cert_info}

-- The dotted text of an OID: digits and dots.
abbrev pub IsDotted : Str → Type 0
IsDotted = All (λ c. (c ≡ b'.') ⊎ ((b'0' ≤ c) × (c ≤ b'9')))

abbrev pub rsa_oid : Str
rsa_oid = codes "1.2.840.113549.1.1.1"

abbrev pub ec_oid : Str
ec_oid = codes "1.2.840.10045.2.1"

-- A text that begins with a letter is no OID.
dotted-ne : (c : ℕ) (s oid : Str) → b'9' < c → IsDotted oid → str_eq oid (c ∷ s) ≡ false
unfolding str_eq
dotted-ne c s [] h d = refl
dotted-ne c s (x ∷ oid) h (dx, _) = ground arith

oid_name-rsa : oid_name rsa_oid ≡ codes "RSA"
unfolding oid_name match_oid str_eq
oid_name-rsa = refl

oid_name-ec : oid_name ec_oid ≡ codes "EC"
unfolding oid_name match_oid str_eq
oid_name-ec = refl

-- Names of algorithms with no minimum.
abbrev NoMinimum : Str → Type 0
NoMinimum name = (bits : ℕ) → below_minimum name bits ≡ false

NoMinimum-dotted : (oid : Str) → IsDotted oid → NoMinimum oid
NoMinimum-dotted oid d bits = rw (
  dotted-ne b'R' (codes "SA") oid (omega arith) d,
  dotted-ne b'D' (codes "SA") oid (omega arith) d,
  dotted-ne b'E' (codes "C") oid (omega arith) d,
)

NoMinimum-match_oid :
    (oid : Str) (arms : List (Str × Str))
    → NoMinimum oid
    → All (λ (arm : Str × Str). NoMinimum arm.1) arms
    → NoMinimum (match_oid oid arms)
unfolding match_oid
NoMinimum-match_oid oid [] h _ bits = h bits
NoMinimum-match_oid oid ((arm, name) ∷ arms) h (here, later) bits =
    elim (Bool-cases (str_eq oid arm)) [
      | inl e ↦ rw e (here bits)
      | inr e ↦ rw e (NoMinimum-match_oid oid arms h later bits)
    ]

other_arms-NoMinimum : All (λ (arm : Str × Str). NoMinimum arm.1) (drop 2 oid_arms)
unfolding str_eq
other_arms-NoMinimum =
    let none_of : ℕ → false ≡ false = λ bits. refl in
    (
      none_of,
      (none_of, (none_of, (none_of, (none_of, (none_of, (none_of, (none_of, (none_of, tt)))))))),
    )

-- The key of this OID has a size below the minimum of its algorithm.
abbrev pub BelowMinimum : Str → Option ℕ → Type 0
BelowMinimum oid none = ⊥
BelowMinimum oid (some bits) = ((oid ≡ rsa_oid) × (bits < 2048)) ⊎ ((oid ≡ ec_oid) × (bits < 256))

rsa_below : (bits : ℕ) → below_minimum (codes "RSA") bits ≡ ltb bits 2048
unfolding str_eq
rsa_below bits = refl

ec_below : (bits : ℕ) → below_minimum (codes "EC") bits ≡ ltb bits 256
unfolding str_eq
ec_below bits = refl

below_minimum-other :
    (oid : Str) (bits : ℕ)
    → IsDotted oid
    → str_eq oid rsa_oid ≡ false
    → str_eq oid ec_oid ≡ false
    → below_minimum (oid_name oid) bits ≡ false
unfolding oid_name
below_minimum-other oid bits d r e =
    let rest =
      NoMinimum-match_oid oid (drop 2 oid_arms) (NoMinimum-dotted oid d) other_arms-NoMinimum
        bits in
    unfold match_oid in rw (e, r) rest

rsa_oid-ne : ¬ (rsa_oid ≡ ec_oid)
unfolding str_eq
rsa_oid-ne e = let h : str_eq rsa_oid ec_oid ≡ true = (str_eq_iff rsa_oid ec_oid).1 e in cc

-- A size is below the minimum exactly for the two algorithms that have one.
below_minimum_iff :
    (oid : Str) (bits : ℕ)
    → IsDotted oid
    → (below_minimum (oid_name oid) bits ≡ true) ↔ BelowMinimum oid (some bits)
below_minimum_iff oid bits d = elim (Bool-cases (str_eq oid rsa_oid)) [
  | inl r ↦
      let e = (str_eq_iff oid rsa_oid).0 r in
      let size : below_minimum (oid_name oid) bits ≡ ltb bits 2048 =
        rw e (rw oid_name-rsa (rsa_below bits)) in
      rw size (
        (λ h. inl (e, ground arith)),
        λ h. elim h [ inl both ↦ ground arith | inr both ↦ absurd (rsa_oid-ne (sym e ∙ both.0)) ],
      )
  | inr r ↦ elim (Bool-cases (str_eq oid ec_oid)) [
    | inl e ↦
        let e' = (str_eq_iff oid ec_oid).0 e in
        let size : below_minimum (oid_name oid) bits ≡ ltb bits 256 =
          rw e' (rw oid_name-ec (ec_below bits)) in
        rw size (
          (λ h. inr (e', ground arith)),
          λ h. elim h [
            | inl both ↦ absurd (rsa_oid-ne (sym both.0 ∙ e'))
            | inr both ↦ ground arith
          ],
        )
    | inr e ↦ rw (below_minimum-other oid bits d r e) (
      (λ h. absurd (false≢true h)),
      λ h. elim h [
        | inl both ↦ absurd (false≢true (sym r ∙ (str_eq_iff oid rsa_oid).1 both.0))
        | inr both ↦ absurd (false≢true (sym e ∙ (str_eq_iff oid ec_oid).1 both.0))
      ],
    )
  ]
]

-- For a key whose OID is dotted text, the weakness flag is set exactly if it is an RSA key below
-- 2048 bits or an EC key below 256 bits, so no other algorithm, DSA included, is ever flagged.
pub weak_key_iff :
    (cert : Certificate) (now : ℤ) (chain_depth : ℕ)
    → IsDotted cert.key_oid
    → ((cert_info cert now chain_depth).weak_key ≡ true) ↔ BelowMinimum cert.key_oid cert.key_size
unfolding cert_info is_weak_key
weak_key_iff cert now chain_depth d = sized cert.key_size
  where
    sized :
        (size : Option ℕ)
        → (is_weak_key (oid_name cert.key_oid) size ≡ true) ↔ BelowMinimum cert.key_oid size
    sized none = ((λ h. false≢true h), λ h. absurd h)
    sized (some bits) = below_minimum_iff cert.key_oid bits d
