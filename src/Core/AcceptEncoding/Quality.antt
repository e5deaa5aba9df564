-- ===== src/Core/AcceptEncoding/Quality.antt =====
-- core/accept_encoding.hpp: the range of a quality, and which element decides it.
use boost_taar.Common.{
  ℕ, ◌+◌, ◌-◌, ◌*◌, ◌≤◌, ◌≡◌, refl, ◌∙◌, ap, Option, none, some, List, [], ◌∷◌, arith, length,
  is_empty, Bytes, codes, beq, trim, pieces, Option-cases, Bool-cases, inl, inr, iequals, cut,
  lt→ltb, ◌||◌, not, if◌then◌else◌,
}
use boost_taar.Core.AcceptEncoding.{
  thousandths_from, parse_qvalue, same_coding, read_param, read_params, read_element, Found,
  take_element, take_elements, accept_encoding_quality,
}

abbrev pub IsDigit : ℕ → Type 0
IsDigit c = (b'0' ≤ c) × (c ≤ b'9')

-- `0.ddd`, in thousandths.
pub parse_qvalue_decimals :
    (a b c : ℕ)
    → IsDigit a
    → IsDigit b
    → IsDigit c
    → parse_qvalue (b'0' ∷ b'.' ∷ a ∷ b ∷ c ∷ [])
      ≡ some ((a - b'0') * 100 + (b - b'0') * 10 + (c - b'0'))
unfolding parse_qvalue thousandths_from
parse_qvalue_decimals a b c ha hb hc = ground arith

abbrev pub AtMost : ℕ → Option ℕ → Type 0
AtMost n none = Unit
AtMost n (some q) = q ≤ n

parse_qvalue-le : (s : Bytes) → AtMost 1000 (parse_qvalue s)
unfolding parse_qvalue thousandths_from
parse_qvalue-le [] = tt
parse_qvalue-le (c ∷ []) = ground arith
parse_qvalue-le (c ∷ d ∷ []) = ground arith
parse_qvalue-le (c ∷ d ∷ e ∷ []) = ground arith
parse_qvalue-le (c ∷ d ∷ e ∷ f ∷ []) = ground arith
parse_qvalue-le (c ∷ d ∷ e ∷ f ∷ g ∷ []) = ground arith
parse_qvalue-le (c ∷ d ∷ e ∷ f ∷ g ∷ h ∷ s) =
    rw (lt→ltb 5 (length (c ∷ d ∷ e ∷ f ∷ g ∷ h ∷ s)) (omega arith)) tt

read_param-le : (q : Option ℕ) (text : Bytes) → AtMost 1000 q → AtMost 1000 (read_param q text)
unfolding read_param
read_param-le q text h = elim (Option-cases (cut b'=' (trim text)).1) [
  | inl e ↦ rw (e, read_param) h
  | inr (v, e) ↦ elim (Bool-cases (iequals (trim (cut b'=' (trim text)).0) (codes "q"))) [
    | inl k ↦ rw (e, read_param) (rw k (parse_qvalue-le (trim v)))
    | inr k ↦ rw (e, read_param) (rw k h)
  ]
]

read_params-le :
    (q : Option ℕ) (texts : List Bytes) → AtMost 1000 q → AtMost 1000 (read_params q texts)
unfolding read_params
read_params-le q [] h = h
read_params-le q (text ∷ rest) h = read_params-le (read_param q text) rest (read_param-le q text h)

read_element-le : (element : Bytes) → AtMost 1000 (read_element element).1
unfolding read_element
read_element-le element = read_params-le (some 1000) _ (omega arith)

-- The quality that an element gives the coding by name, and the one that it gives by `*`; none
-- where it is empty, names another coding, or has a malformed `q`.
abbrev pub named : Bytes → Bytes → Option ℕ
named coding text =
    let element = trim text in
    let (name, quality) = read_element element in
    if is_empty element || beq name (codes "*") || not (same_coding name coding)
    then none
    else quality

abbrev pub starred : Bytes → Option ℕ
starred text =
    let element = trim text in
    let (name, quality) = read_element element in
    if is_empty element || not (beq name (codes "*")) then none else quality

abbrev pub or_else : Option ℕ → Option ℕ → Option ℕ
or_else none b = b
or_else (some q) b = some q

-- What the last text that gives a quality gives.
abbrev pub last_given : (Bytes → Option ℕ) → List Bytes → Option ℕ
last_given f [] = none
last_given f (text ∷ rest) = or_else (last_given f rest) (f text)

or_else_assoc : (a b c : Option ℕ) → or_else (or_else a b) c ≡ or_else a (or_else b c)
or_else_assoc none b c = refl
or_else_assoc (some q) b c = refl

take_element_lem :
    (coding : Bytes) (found : Found) (text : Bytes)
    → take_element coding found text ≡ record {
      exact = or_else (named coding text) found.exact;
      star = or_else (starred text) found.star;
    }
unfolding take_element
take_element_lem coding found text = ground arith

take_elements_lem :
    (coding : Bytes) (found : Found) (texts : List Bytes)
    → take_elements coding found texts ≡ record {
      exact = or_else (last_given (named coding) texts) found.exact;
      star = or_else (last_given starred texts) found.star;
    }
unfolding take_elements
take_elements_lem coding found [] = refl
take_elements_lem coding found (text ∷ rest) =
    let found' : Found = record {
      exact = or_else (named coding text) found.exact;
      star = or_else (starred text) found.star;
    } in
    ap (λ f. take_elements coding f rest) (take_element_lem coding found text)
    ∙ take_elements_lem coding found' rest
    ∙ rw (
      or_else_assoc (last_given (named coding) rest) (named coding text) found.exact,
      or_else_assoc (last_given starred rest) (starred text) found.star,
    )

or_else_nil : (a : Option ℕ) → or_else a none ≡ a
or_else_nil none = refl
or_else_nil (some q) = refl

-- An element that names the coding decides, the last one if there are several; else the last `*`.
pub accept_encoding_quality_lem :
    (field coding : Bytes)
    → accept_encoding_quality field coding
      ≡ or_else
          (last_given (named coding) (pieces b',' field))
          (last_given starred (pieces b',' field))
unfolding accept_encoding_quality
accept_encoding_quality_lem field coding =
    rw
      (
        take_elements_lem coding _ (pieces b',' field),
        or_else_nil (last_given (named coding) (pieces b',' field)),
        or_else_nil (last_given starred (pieces b',' field)),
      )
      (ground arith)

named-le : (coding text : Bytes) → AtMost 1000 (named coding text)
named-le coding text = ground (arith, read_element-le (trim text))

starred-le : (text : Bytes) → AtMost 1000 (starred text)
starred-le text = ground (arith, read_element-le (trim text))

or_else-le : (a b : Option ℕ) → AtMost 1000 a → AtMost 1000 b → AtMost 1000 (or_else a b)
or_else-le none b h k = k
or_else-le (some q) b h k = h

last_given-le :
    (f : Bytes → Option ℕ) (texts : List Bytes)
    → ((text : Bytes) → AtMost 1000 (f text))
    → AtMost 1000 (last_given f texts)
last_given-le f [] h = tt
last_given-le f (text ∷ rest) h = or_else-le _ _ (last_given-le f rest h) (h text)

-- A quality is at most 1.
pub accept_encoding_quality-le :
    (field coding : Bytes) → AtMost 1000 (accept_encoding_quality field coding)
accept_encoding_quality-le field coding = rw (accept_encoding_quality_lem field coding) (
    or_else-le (last_given (named coding) (pieces b',' field))
      (last_given starred (pieces b',' field))
      (last_given-le (named coding) (pieces b',' field) (named-le coding))
      (last_given-le starred (pieces b',' field) starred-le))
