-- ===== src/Handler/Conditional.antt =====
-- handler/htdocs.hpp: `evaluate_preconditions`, `if_range_holds` and `select_variant`. The fields of
-- the request are arguments, and so is the reader of dates; a time counts seconds.
pub mod Revalidation
pub mod Variants
use boost_taar.Common.{
  ℕ, Bool, true, false, not, ◌&&◌, ◌||◌, Option, none, some, List, [], ◌∷◌, ◌==◌, if◌then◌else◌,
  leb, ltb, Bytes, codes, trim_start, strip_prefix,
}
use boost_taar.Core.EntityTag.{EntityTag, parse_entity_tag, strong_match, etag_list_matches}
use boost_taar.Core.AcceptEncoding.{accept_encoding_quality}

pub record Conditions : Type 0 where
  pub if_match : Option Bytes
  pub if_unmodified_since : Option Bytes
  pub if_none_match : Option Bytes
  pub if_modified_since : Option Bytes

pub data Precondition : Type 0 where
  proceed failed not_modified : Precondition

-- `parse_date` is `parse_http_date` of Core/HttpDate at the current year, with any origin of the times.
module _ (parse_date : Bytes → Option ℕ) where
  -- `date && last_modified > *date`
  unfoldable pub modified_after : ℕ → Bytes → Bool
  modified_after last_modified text = elim (parse_date text) [
    | none ↦ false
    | some date ↦ ltb date last_modified
  ]

  -- `date && last_modified <= *date`
  unfoldable pub modified_by : ℕ → Bytes → Bool
  modified_by last_modified text = elim (parse_date text) [
    | none ↦ false
    | some date ↦ leb last_modified date
  ]

  -- The first two tests: whether the precondition fails.
  unfoldable pub fails : Conditions → Bytes → ℕ → Bool
  fails r etag last_modified = elim r.if_match [
    | some field ↦ not (etag_list_matches field etag false)
    | none ↦ elim r.if_unmodified_since [
      | none ↦ false
      | some text ↦ modified_after last_modified text
    ]
  ]

  -- The other two: whether the client has the representation.
  unfoldable pub unchanged : Conditions → Bytes → ℕ → Bool
  unchanged r etag last_modified = elim r.if_none_match [
    | some field ↦ etag_list_matches field etag true
    | none ↦ elim r.if_modified_since [ none ↦ false | some text ↦ modified_by last_modified text ]
  ]

  unfoldable pub evaluate_preconditions : Conditions → Bytes → ℕ → Precondition
  evaluate_preconditions r etag last_modified =
      if fails r etag last_modified
      then failed
      else if unchanged r etag last_modified
      then not_modified
      else proceed

  abbrev starts_tag : Bytes → Bool
  starts_tag [] = false
  starts_tag (c ∷ []) = c == b'"'
  starts_tag (c ∷ d ∷ s) = c == b'"' || (c == b'W' && d == b'/')

  abbrev both_strong : Option (EntityTag × Bytes) → Option (EntityTag × Bytes) → Bool
  both_strong (some sent) (some ours) = strong_match sent.0 ours.0
  both_strong _ _ = false

  unfoldable pub if_range_holds : Option Bytes → Bytes → ℕ → Bool
  if_range_holds none etag last_modified = true
  if_range_holds (some field) etag last_modified =
      let value = trim_start field in
      let tags_match = both_strong (parse_entity_tag value) (parse_entity_tag etag) in
      let dates_match : Bool = elim (parse_date value) [
        | none ↦ false
        | some date ↦ date == last_modified
      ] in
      if starts_tag value then tags_match else dates_match

abbrev pub or_zero : Option ℕ → ℕ
or_zero none = 0
or_zero (some q) = q

unfoldable pub prefers_identity : Bytes → ℕ → Bool
prefers_identity field best_q = elim (accept_encoding_quality field (codes "identity")) [
  | none ↦ false
  | some q ↦ ltb best_q q
]

-- What stands behind the loop.
abbrev pub selected {ℓ} : {V : Type ℓ} → Bytes → V → Option V × ℕ → V
selected field identity (none, best_q) = identity
selected field identity (some v, best_q) = if prefers_identity field best_q then identity else v

module _ {ℓ} {V : Type ℓ} (encoding : V → Bytes) where
  -- The loop over the variants other than identity.
  unfoldable pub best_from : Bytes → Option V → ℕ → List V → Option V × ℕ
  best_from field best best_q [] = (best, best_q)
  best_from field best best_q (v ∷ vs) =
      let q = or_zero (accept_encoding_quality field (encoding v)) in
      let taken = best_from field (some v) q vs in
      let kept = best_from field best best_q vs in if ltb best_q q then taken else kept

  -- `identity` is the first variant, and the flag says that the request is a GET with a Range.
  unfoldable pub select_variant : Bool → Option Bytes → V → List V → V
  select_variant ranged none identity others = identity
  select_variant ranged (some field) identity others =
      if ranged then identity else selected field identity (best_from field none 0 others)
