-- ===== src/Ocsp/Status.antt =====
-- `parse_status` on a response as RFC 6960 lays it out, with any further elements at each level.
use ru_ssl.Prelude.{
  ℕ, zero, suc, ◌⊎◌, not, ◌||◌, ◌≡◌, ◌≢◌, refl, ap, ◌∙◌, Bool, List, [], ◌∷◌, ◌++◌, some, arith,
  ◌==◌, if◌then◌else◌, find, head?, get_elem?, All,
}
use ru_ssl.Text.{Bytes}
use ru_ssl.Error.{ok}
use ru_ssl.Der.RoundTrip.{view, FitsReader, read_tlv-alone, FitsReader-content}
use ru_ssl.Der.Children.{
  concat_tlvs, views, FitsReader-concat_tlvs, FitsReader-tail, children-fitting,
}
use ru_ssl.Der.{Tlv, tlv, children}
use ru_ssl.Ocsp.{responder_error, status_of_tag, first_is_zero, single_status, parse_status}

abbrev pub Element : Type 0
Element = ℕ × Bytes

-- What varies between responses; every list stands for elements that the walk passes over.
pub record Response : Type 0 where
  pub top_rest : List Element
  pub response_type : Element
  pub bytes_rest : List Element
  pub basic_rest : List Element
  pub before_responses : List Element
  pub after_responses : List Element
  pub more_singles : List Element
  pub certificate : Element
  pub cert_status : Element
  pub single_rest : List Element

unfoldable pub single_elements : Response → List Element
single_elements r = r.certificate ∷ r.cert_status ∷ r.single_rest

unfoldable pub responses_elements : Response → List Element
responses_elements r = (0x30, concat_tlvs (single_elements r)) ∷ r.more_singles

unfoldable pub data_elements : Response → List Element
data_elements r =
    r.before_responses ++ ((0x30, concat_tlvs (responses_elements r)) ∷ r.after_responses)

unfoldable pub basic_elements : Response → List Element
basic_elements r = (0x30, concat_tlvs (data_elements r)) ∷ r.basic_rest

unfoldable pub bytes_elements : Response → List Element
bytes_elements r =
    r.response_type ∷ (0x04, tlv 0x30 (concat_tlvs (basic_elements r))) ∷ r.bytes_rest

unfoldable pub top_elements : Response → List Element
top_elements r = (0x0a, 0 ∷ []) ∷ (0xa0, tlv 0x30 (concat_tlvs (bytes_elements r))) ∷ r.top_rest

unfoldable pub response_content : Response → Bytes
response_content r = concat_tlvs (top_elements r)

-- The DER of the whole response.
abbrev pub encode_response : Response → Bytes
encode_response r = tlv 0x30 (response_content r)

abbrev has_tag : ℕ → Tlv → Bool
has_tag tag t = t.tag == tag

-- The first SEQUENCE is the one behind elements with other tags.
find-views :
    (ts us : List Element) (c : Bytes)
    → All (λ (e : Element). e.0 ≢ 0x30) ts
    → find (has_tag 0x30) (views (ts ++ ((0x30, c) ∷ us))) ≡ some (view 0x30 c)
find-views [] us c h = refl
find-views ((tag, x) ∷ ts) us c (ht, hts) = ground (arith, find-views ts us c hts)

member_fits :
    (ts us : List Element) (e : Element)
    → FitsReader (concat_tlvs (ts ++ (e ∷ us)))
    → FitsReader e.1
member_fits [] us e h = (FitsReader-concat_tlvs (e ∷ us) h).0
member_fits ((tag, c) ∷ ts) us e h = member_fits ts us e (FitsReader-tail tag c (ts ++ (e ∷ us)) h)

-- A response whose first element says `successful` is walked further.
parse_status-encoded :
    (content : Bytes) (top : List Tlv)
    → FitsReader content
    → children content ≡ top
    → head? top ≡ some (view 0x0a (0 ∷ []))
    → parse_status (tlv 0x30 content) ≡ single_status top
unfolding parse_status
parse_status-encoded content top fits kids first =
    rw (read_tlv-alone 0x30 content fits, kids, first)

-- A response whose content is shorter than 2^32 bytes, and whose first element is no ENUMERATED
-- or does not begin with a zero byte, is reported as a responder error, whatever stands behind
-- it.
pub parse_status_refused :
    (tag : ℕ) (status : Bytes) (rest : List Element)
    → FitsReader (concat_tlvs ((tag, status) ∷ rest))
    → (tag ≢ 0x0a) ⊎ (head? status ≢ some 0)
    → parse_status (tlv 0x30 (concat_tlvs ((tag, status) ∷ rest))) ≡ ok responder_error
unfolding parse_status
parse_status_refused tag status rest fits h =
    rw
      (
        read_tlv-alone 0x30 (concat_tlvs ((tag, status) ∷ rest)) fits,
        children-fitting ((tag, status) ∷ rest) fits,
      )
      (refused tag status h)
  where
    refused :
        (tag : ℕ) (status : Bytes)
        → (tag ≢ 0x0a) ⊎ (head? status ≢ some 0)
        → (if not (tag == 0x0a) || not (first_is_zero status)
            then ok responder_error
            else single_status (views ((tag, status) ∷ rest)))
          ≡ ok responder_error
    refused tag [] h = ground arith
    refused tag (zero ∷ status) h = ground arith
    refused tag (suc b ∷ status) h = ground arith

module _ (r : Response) (fits : FitsReader (response_content r)) where
  bytes_fit : FitsReader (concat_tlvs (bytes_elements r))
  unfolding response_content top_elements
  bytes_fit = FitsReader-content 0x30 _ (FitsReader-concat_tlvs (top_elements r) fits).1.0

  basic_fit : FitsReader (concat_tlvs (basic_elements r))
  unfolding bytes_elements
  basic_fit = FitsReader-content 0x30 _ (FitsReader-concat_tlvs (bytes_elements r) bytes_fit).1.0

  data_fit : FitsReader (concat_tlvs (data_elements r))
  unfolding basic_elements
  data_fit = (FitsReader-concat_tlvs (basic_elements r) basic_fit).0

  responses_fit : FitsReader (concat_tlvs (responses_elements r))
  unfolding data_elements
  responses_fit = member_fits r.before_responses r.after_responses _ data_fit

  single_fit : FitsReader (concat_tlvs (single_elements r))
  unfolding responses_elements
  single_fit = (FitsReader-concat_tlvs (responses_elements r) responses_fit).0

  -- What each step of the walk reads.
  bytes_second :
      get_elem? (children (concat_tlvs (bytes_elements r))) 1
      ≡ some (view 0x04 (tlv 0x30 (concat_tlvs (basic_elements r))))
  unfolding bytes_elements
  bytes_second =
      ap (λ (l : List Tlv). get_elem? l 1) (children-fitting (bytes_elements r) bytes_fit)

  basic_first :
      head? (children (concat_tlvs (basic_elements r)))
      ≡ some (view 0x30 (concat_tlvs (data_elements r)))
  unfolding basic_elements
  basic_first = ap head? (children-fitting (basic_elements r) basic_fit)

  data_find :
      All (λ (e : Element). e.0 ≢ 0x30) r.before_responses
      → find (has_tag 0x30) (children (concat_tlvs (data_elements r)))
        ≡ some (view 0x30 (concat_tlvs (responses_elements r)))
  unfolding data_elements
  data_find plain =
      ap (find (has_tag 0x30)) (children-fitting (data_elements r) data_fit)
      ∙ find-views r.before_responses r.after_responses (concat_tlvs (responses_elements r)) plain

  responses_first :
      head? (children (concat_tlvs (responses_elements r)))
      ≡ some (view 0x30 (concat_tlvs (single_elements r)))
  unfolding responses_elements
  responses_first = ap head? (children-fitting (responses_elements r) responses_fit)

  single_second :
      get_elem? (children (concat_tlvs (single_elements r))) 1
      ≡ some (view r.cert_status.0 r.cert_status.1)
  unfolding single_elements
  single_second =
      ap (λ (l : List Tlv). get_elem? l 1) (children-fitting (single_elements r) single_fit)

  top_children : children (response_content r) ≡ views (top_elements r)
  unfolding response_content
  top_children = children-fitting (top_elements r) fits

  single_status-views :
      All (λ (e : Element). e.0 ≢ 0x30) r.before_responses
      → single_status (views (top_elements r)) ≡ ok (status_of_tag r.cert_status.0)
  unfolding single_status top_elements
  single_status-views plain = rw (
    read_tlv-alone 0x30 (concat_tlvs (bytes_elements r)) bytes_fit,
    bytes_second,
    read_tlv-alone 0x30 (concat_tlvs (basic_elements r)) basic_fit,
    basic_first,
    data_find plain,
    responses_first,
    single_second,
  )

  -- For a successful OCSP response laid out as in RFC 6960, its content shorter than 2^32 bytes,
  -- with any further elements at each level and no SEQUENCE in front of the list of single
  -- responses, `parse_status` returns the status that the first single response carries.
  pub parse_status-encode_response :
      All (λ (e : Element). e.0 ≢ 0x30) r.before_responses
      → parse_status (encode_response r) ≡ ok (status_of_tag r.cert_status.0)
  parse_status-encode_response plain =
      parse_status-encoded (response_content r) (views (top_elements r)) fits top_children
        (unfold top_elements in refl)
      ∙ single_status-views plain
