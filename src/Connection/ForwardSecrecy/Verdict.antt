-- ===== src/Connection/ForwardSecrecy/Verdict.antt =====
-- What the verdict on forward secrecy means.
use ru_ssl.Prelude.{
  Bool, true, false, not, ◌&&◌, List, [], ◌∷◌, ◌++◌, map, all, is_empty, ◌≡◌, ◌≢◌, ◌↔◌, inl, inr,
  refl, ◌∙◌, arith, append-nil, append_assoc, Bool-cases,
}
use ru_ssl.Handshake.{ProtocolResult}
use ru_ssl.Connection.ForwardSecrecy.{
  FsProtocol, is_forward_secret, detail, collect, forward_secrecy, supported_of,
}

abbrev pub secret : ProtocolResult → Bool
secret p = is_forward_secret p.version p.negotiated_cipher

and_assoc : (a b c : Bool) → ((a && b) && c) ≡ (a && (b && c))
and_assoc a b c = ground arith

collect_lem :
    (ps : List ProtocolResult) (details : List FsProtocol) (held : Bool)
    → collect ps details held
      ≡ (details ++ map detail (supported_of ps), held && all secret (supported_of ps))
unfolding collect
collect_lem [] details true = rw append-nil
collect_lem [] details false = rw append-nil
collect_lem (p ∷ ps) details held = elim (Bool-cases p.supported) [
  | inl e ↦ rw e (
      collect_lem ps (details ++ (detail p ∷ [])) (held && secret p)
      ∙ rw append_assoc (rw and_assoc))
  | inr e ↦ rw e (collect_lem ps details held)
]

-- The details are those of the supported protocols, in order, and the verdict is positive exactly
-- if there is a supported protocol and each of them is forward-secret.
pub forward_secrecy_lem :
    (ps : List ProtocolResult)
    → ((forward_secrecy ps).protocols ≡ map detail (supported_of ps))
      × (((forward_secrecy ps).all_forward_secret ≡ true)
          ↔ ((supported_of ps ≢ []) × (all secret (supported_of ps) ≡ true)))
unfolding forward_secrecy
forward_secrecy_lem ps = rw (collect_lem ps [] true) (refl, verdict (supported_of ps))
  where
    verdict :
        (qs : List ProtocolResult)
        → ((not (is_empty (map detail qs)) && all secret qs) ≡ true)
          ↔ ((qs ≢ []) × (all secret qs ≡ true))
    verdict [] = ((λ h. cc), λ h. absurd (h.0 refl))
    verdict (q ∷ qs) = ((λ h. ((λ e. cc), h)), λ h. h.1)
