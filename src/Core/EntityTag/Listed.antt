-- ===== src/Core/EntityTag/Listed.antt =====
-- core/entity_tag.hpp: the steps of the list loop, and that it ends.
use boost_taar.Common.{
  ℕ, zero, suc, ◌≤◌, ◌<◌, ◌≡◌, ◌≢◌, refl, ◌∙◌, Bool, true, false, ◌||◌, Option, none, some, [], ◌∷◌,
  arith, ◌==◌, length, Bytes, codes, trim_start, trim, length-trim, length-trim_start, Option-cases,
  Bool-cases, inl, inr, ==_iff, if◌then◌else◌, strip_prefix,
}
use boost_taar.Core.EntityTag.{
  no_comma, EntityTag, is_etagc, scan_opaque, parse_opaque, parse_entity_tag, matches, list_from,
  put_front,
}

-- A parsed tag leaves less text.
abbrev LeavesLess : ℕ → Option (Bytes × Bytes) → Type 0
LeavesLess n none = Unit
LeavesLess n (some (tag, rest)) = length rest < n

put_front-LeavesLess :
    (n c : ℕ) (r : Option (Bytes × Bytes)) → LeavesLess n r → LeavesLess (suc n) (put_front c r)
put_front-LeavesLess n c none h = tt
put_front-LeavesLess n c (some (tag, rest)) h = omega arith

scan_opaque-LeavesLess : (s : Bytes) → LeavesLess (length s) (scan_opaque s)
unfolding scan_opaque
scan_opaque-LeavesLess [] = tt
scan_opaque-LeavesLess (c ∷ s) = elim (Bool-cases (c == b'"')) [
  | inl e ↦ rw e (omega arith)
  | inr e ↦ elim (Bool-cases (is_etagc c)) [
    | inl k ↦ rw (e, k) (put_front-LeavesLess _ c _ (scan_opaque-LeavesLess s))
    | inr k ↦ rw (e, k) tt
  ]
]

parse_opaque-length :
    (weak : Bool) (s : Bytes) {parsed : EntityTag × Bytes}
    → parse_opaque weak s ≡ some parsed
    → length parsed.1 < length s
unfolding parse_opaque
parse_opaque-length weak [] e = cc
parse_opaque-length weak (c ∷ s) {parsed} e = elim (Option-cases (scan_opaque s)) [
  | inl failed ↦ ground arith
  | inr (found, scanned) ↦ ground (arith, rw scanned at (scan_opaque-LeavesLess s))
]

strip_prefix-length : (p s : Bytes) {t : Bytes} → strip_prefix p s ≡ some t → length t ≤ length s
strip_prefix-length [] s e = ground arith
strip_prefix-length (x ∷ p) [] e = cc
strip_prefix-length (x ∷ p) (y ∷ s) {t} e = ground (arith, strip_prefix-length p s {t = t})

parse_entity_tag-length :
    (text : Bytes) {parsed : EntityTag × Bytes}
    → parse_entity_tag text ≡ some parsed
    → length parsed.1 < length text
unfolding parse_entity_tag
parse_entity_tag-length text {parsed} e =
    elim (Option-cases (strip_prefix (codes "W/") (trim_start text))) [
      | inl plain ↦ omega (
        arith,
        parse_opaque-length false (trim_start text) (rw (plain, parse_entity_tag) at e),
        length-trim_start text,
      )
      | inr (t, weak) ↦ omega (
        arith,
        parse_opaque-length true t (rw (weak, parse_entity_tag) at e),
        strip_prefix-length (codes "W/") (trim_start text) weak,
        length-trim_start text,
      )
    ]

module _ (cur : EntityTag) (weak : Bool) (n : ℕ) (field : Bytes) (matched : Bool) where
  pub list_from-nil : trim field ≡ [] → list_from cur weak (suc n) field matched ≡ some matched
  unfolding list_from
  list_from-nil e = rw (e, list_from)

  module _ (c : ℕ) (s : Bytes) (e : trim field ≡ c ∷ s) where
    pub list_from-comma :
        c ≡ b',' → list_from cur weak (suc n) field matched ≡ list_from cur weak n s matched
    unfolding list_from
    list_from-comma h = rw (e, list_from) (rw h)

    list_from-malformed :
        c ≢ b','
        → parse_entity_tag (c ∷ s) ≡ none
        → list_from cur weak (suc n) field matched ≡ some false
    unfolding list_from
    list_from-malformed h k = rw (e, list_from) (ground arith)

    pub list_from-tag :
        c ≢ b','
        → (parsed : EntityTag × Bytes) → parse_entity_tag (c ∷ s) ≡ some parsed
        → list_from cur weak (suc n) field matched ≡ (
            if no_comma (trim parsed.1)
            then some false
            else list_from cur weak n (trim parsed.1) (matched || matches weak parsed.0 cur))
    unfolding list_from
    list_from-tag h parsed k = rw (e, list_from) (ground arith)

abbrev Ends : EntityTag → Bool → ℕ → Bytes → Bool → Type 0
Ends cur weak fuel field matched = (b : Bool) × (list_from cur weak fuel field matched ≡ some b)

module _ (cur : EntityTag) (weak : Bool) (n : ℕ)
    (ih : (f : Bytes) (m : Bool) → length f < n → Ends cur weak n f m) where
  tag-Ends :
      (field : Bytes) (matched : Bool) (c : ℕ) (s : Bytes)
      → trim field ≡ c ∷ s
      → length (c ∷ s) < suc n
      → c ≢ b','
      → Ends cur weak (suc n) field matched
  tag-Ends field matched c s e h ne = elim (Option-cases (parse_entity_tag (c ∷ s))) [
    | inl bad ↦ (false, list_from-malformed cur weak n field matched c s e ne bad)
    | inr (parsed, good) ↦ elim (Bool-cases (no_comma (trim parsed.1))) [
      | inl stop ↦ (false, list_from-tag cur weak n field matched c s e ne parsed good ∙ rw stop)
      | inr more ↦
          let (b, later) =
            ih (trim parsed.1) (matched || matches weak parsed.0 cur)
              (omega (arith, length-trim parsed.1, parse_entity_tag-length (c ∷ s) good)) in
          (b, list_from-tag cur weak n field matched c s e ne parsed good ∙ rw more later)
    ]
  ]

  trimmed-Ends :
      (field : Bytes) (matched : Bool) (t : Bytes)
      → trim field ≡ t
      → length t < suc n
      → Ends cur weak (suc n) field matched
  trimmed-Ends field matched [] e h = (matched, list_from-nil cur weak n field matched e)
  trimmed-Ends field matched (c ∷ s) e h = elim (Bool-cases (c == b',')) [
    | inl comma ↦
        let (b, later) = ih s matched (omega arith) in
        (b, list_from-comma cur weak n field matched c s e ((==_iff c b',').0 comma) ∙ later)
    | inr other ↦ tag-Ends field matched c s e h (ground arith)
  ]

-- The loop ends with a verdict: fuel above the length of the text is enough.
pub list_from_total :
    (cur : EntityTag) (weak : Bool) (fuel : ℕ) (field : Bytes) (matched : Bool)
    → length field < fuel
    → (b : Bool) × (list_from cur weak fuel field matched ≡ some b)
list_from_total cur weak zero field matched h = absurd (omega arith)
list_from_total cur weak (suc n) field matched h =
    trimmed-Ends cur weak n (list_from_total cur weak n) field matched (trim field) refl
      (omega (arith, length-trim field))
