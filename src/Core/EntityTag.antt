-- ===== src/Core/EntityTag.antt =====
-- core/entity_tag.hpp: `parse_entity_tag`, the two comparisons, and `etag_list_matches`. The list
-- loop runs on fuel; EntityTag/Listed shows that the fuel given is enough.
pub mod Listed
pub mod Printed
use boost_taar.Common.{
  ℕ, zero, suc, Bool, true, false, not, ◌&&◌, ◌||◌, Option, none, some, List, [], ◌∷◌, ◌==◌,
  if◌then◌else◌, leb, length, Bytes, codes, beq, strip_prefix, trim_start, trim,
}

pub record EntityTag : Type 0 where
  pub weak : Bool
  pub opaque_tag : Bytes

-- The loop's test: `c` may stand in an opaque tag.
abbrev pub is_etagc : ℕ → Bool
is_etagc c = c == 0x21 || (leb 0x23 c && not (c == 0x7f))

abbrev put_front : ℕ → Option (Bytes × Bytes) → Option (Bytes × Bytes)
put_front c none = none
put_front c (some (tag, rest)) = some (c ∷ tag, rest)

-- The text up to the closing quote, and what follows the quote.
unfoldable pub scan_opaque : Bytes → Option (Bytes × Bytes)
scan_opaque [] = none
scan_opaque (c ∷ s) =
    let rest = put_front c (scan_opaque s) in
    if c == b'"' then some ([], s) else if not (is_etagc c) then none else rest

abbrev tagged : Bool → Option (Bytes × Bytes) → Option (EntityTag × Bytes)
tagged weak none = none
tagged weak (some (tag, rest)) = some (record { weak = weak; opaque_tag = tag }, rest)

unfoldable pub parse_opaque : Bool → Bytes → Option (EntityTag × Bytes)
parse_opaque weak [] = none
parse_opaque weak (c ∷ s) = if not (c == b'"') then none else tagged weak (scan_opaque s)

-- The tag, and the text behind it, to which the source advances `text`.
unfoldable pub parse_entity_tag : Bytes → Option (EntityTag × Bytes)
parse_entity_tag text =
    let s = trim_start text in
    elim (strip_prefix (codes "W/") s) [
      | none ↦ parse_opaque false s
      | some t ↦ parse_opaque true t
    ]

abbrev pub strong_match : EntityTag → EntityTag → Bool
strong_match a b = not a.weak && not b.weak && beq a.opaque_tag b.opaque_tag

abbrev pub weak_match : EntityTag → EntityTag → Bool
weak_match a b = beq a.opaque_tag b.opaque_tag

abbrev pub matches : Bool → EntityTag → EntityTag → Bool
matches weak tag cur = if weak then weak_match tag cur else strong_match tag cur

-- `!field.empty() && field.front() != ','`
abbrev pub no_comma : Bytes → Bool
no_comma [] = false
no_comma (c ∷ s) = not (c == b',')

module _ (cur : EntityTag) (weak : Bool) where
  -- The loop; `none` means that the fuel ran out.
  unfoldable pub list_from : ℕ → Bytes → Bool → Option Bool
  list_from zero field matched = none
  list_from (suc fuel) field matched = elim (trim field) [
    | [] ↦ some matched
    | c ∷ s ↦
        let skipped = list_from fuel s matched in
        let listed : Option Bool = elim (parse_entity_tag (c ∷ s)) [
          | none ↦ some false
          | some parsed ↦
              let rest = trim parsed.1 in
              let later = list_from fuel rest (matched || matches weak parsed.0 cur) in
              if no_comma rest then some false else later
        ] in
        if c == b',' then skipped else listed
  ]

abbrev or_false : Option Bool → Bool
or_false none = false
or_false (some b) = b

unfoldable pub etag_list_matches : Bytes → Bytes → Bool → Bool
etag_list_matches field current weak = elim (parse_entity_tag current) [
  | none ↦ false
  | some cur ↦
      let f = trim field in
      if beq f (codes "*") then true else or_false (list_from cur.0 weak (suc (length f)) f false)
]
