-- ===== src/Core/AcceptEncoding.antt =====
-- core/accept_encoding.hpp: `parse_qvalue` and `accept_encoding_quality`. A quality is counted in
-- thousandths: the doubles `n / 1000.0` for n up to 1000 are distinct and ordered as the n are.
pub mod Quality
use boost_taar.Common.{
  ℕ, ◌+◌, ◌-◌, ◌*◌, ◌/◌, Bool, true, false, not, ◌&&◌, ◌||◌, Option, none, some, List, [], ◌∷◌,
  ◌==◌, if◌then◌else◌, between, ltb, length, is_empty, Bytes, codes, beq, trim, iequals, pieces,
  cut,
}

-- The loop over the decimals; the flag is `s[0] == '1'`.
unfoldable pub thousandths_from : Bool → Bytes → ℕ → ℕ → Option ℕ
thousandths_from one [] sum scale = some sum
thousandths_from one (c ∷ s) sum scale =
    let rest = thousandths_from one s (sum + (c - b'0') * scale) (scale / 10) in
    if not (between b'0' b'9' c) then none else if one && not (c == b'0') then none else rest

abbrev full_or : Bool → Option ℕ → Option ℕ
full_or one none = none
full_or one (some t) = if one then some 1000 else some t

unfoldable pub parse_qvalue : Bytes → Option ℕ
parse_qvalue [] = none
parse_qvalue (c ∷ s) =
    let one = c == b'1' in
    if ltb 5 (length (c ∷ s)) then none else if not (c == b'0') && not one then none else elim s [
      | [] ↦ if one then some 1000 else some 0
      | d ∷ decimals ↦
          if not (d == b'.') then none else full_or one (thousandths_from one decimals 0 100)
    ]

-- The lambda `norm`, and the comparison of codings, `same`.
unfoldable pub norm : Bytes → Bytes
norm x = if iequals x (codes "x-gzip") then codes "gzip" else x

unfoldable pub same_coding : Bytes → Bytes → Bool
same_coding a b = iequals (norm a) (norm b)

-- One parameter of an element; only `q` counts.
unfoldable pub read_param : Option ℕ → Bytes → Option ℕ
read_param q text =
    let (key, value) = cut b'=' (trim text) in
    elim value [
      | none ↦ q
      | some v ↦ if iequals (trim key) (codes "q") then parse_qvalue (trim v) else q
    ]

unfoldable pub read_params : Option ℕ → List Bytes → Option ℕ
read_params q [] = q
read_params q (text ∷ rest) = read_params (read_param q text) rest

abbrev params_of : Option Bytes → List Bytes
params_of none = []
params_of (some params) = pieces b';' params

-- The name and the quality of an element; no quality where its `q` is malformed.
unfoldable pub read_element : Bytes → Bytes × Option ℕ
read_element element =
    let (name, params) = cut b';' element in (trim name, read_params (some 1000) (params_of params))

pub record Found : Type 0 where
  pub exact : Option ℕ
  pub star : Option ℕ

-- One round of the loop over the elements.
unfoldable pub take_element : Bytes → Found → Bytes → Found
take_element coding found text =
    let element = trim text in
    let (name, quality) = read_element element in
    if is_empty element then found else elim quality [
      | none ↦ found
      | some q ↦
          if beq name (codes "*")
          then record found { star = some q }
          else if same_coding name coding
          then record found { exact = some q }
          else found
    ]

unfoldable pub take_elements : Bytes → Found → List Bytes → Found
take_elements coding found [] = found
take_elements coding found (text ∷ rest) =
    take_elements coding (take_element coding found text) rest

abbrev pub exact_or_star : Found → Option ℕ
exact_or_star f = elim f.exact [ none ↦ f.star | some q ↦ some q ]

unfoldable pub accept_encoding_quality : Bytes → Bytes → Option ℕ
accept_encoding_quality field coding =
    exact_or_star (take_elements coding (record { exact = none; star = none }) (pieces b',' field))
