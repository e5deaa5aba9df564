-- ===== src/Core/ByteRange/Coalesced.antt =====
-- core/byte_range.hpp: `coalesce_ranges` covers the same bytes by disjoint, ascending ranges.
use Prim.Native.Nat.{max}
use boost_taar.Common.{
  ℕ, ◌+◌, ◌≤◌, ◌<◌, ◌≡◌, refl, Bool, true, List, [], ◌∷◌, arith, All, any, between, ◌||◌,
  Bool-cases, leb, ◌==◌, ◌∙◌, inl, inr, ap,
}
use boost_taar.Core.ByteRange.Parsed.{Within}
use boost_taar.Core.ByteRange.{
  max_u64, ByteRange, insert_range, sort, merge, coalesce_sorted, coalesce_ranges,
}

-- A range of uint64 offsets that holds a byte.
abbrev pub IsRange : ByteRange → Type 0
IsRange r = (r.first ≤ r.last) × (r.last ≤ max_u64)

-- Whether the ranges cover the offset `x`.
abbrev pub covers : ℕ → List ByteRange → Bool
covers x rs = any (λ r. between r.first r.last x) rs

-- Every range starts at `low` or later, and they come by their first offset.
abbrev pub Ascends : ℕ → List ByteRange → Type 0
Ascends low [] = Unit
Ascends low (r ∷ rs) = (low ≤ r.first) × Ascends r.first rs

-- The ranges ascend, and between two of them an offset is left out.
abbrev pub Apart : List ByteRange → Type 0
Apart [] = Unit
Apart (r ∷ []) = Unit
Apart (r ∷ s ∷ rs) = (r.last + 1 < s.first) × Apart (s ∷ rs)

covers-insert_range :
    (x : ℕ) (r : ByteRange) (rs : List ByteRange) → covers x (insert_range r rs) ≡ covers x (r ∷ rs)
unfolding insert_range
covers-insert_range x r [] = refl
covers-insert_range x r (s ∷ rs) = ground (arith, covers-insert_range x r rs)

covers-sort : (x : ℕ) (rs : List ByteRange) → covers x (sort rs) ≡ covers x rs
unfolding sort
covers-sort x [] = refl
covers-sort x (r ∷ rs) = ground (arith, covers-insert_range x r (sort rs), covers-sort x rs)

module _ {ℓ} (P : ByteRange → Type ℓ) where
  All-insert_range :
      (r : ByteRange) (rs : List ByteRange) → P r → All P rs → All P (insert_range r rs)
  unfolding insert_range
  All-insert_range r [] h hs = (h, tt)
  All-insert_range r (s ∷ rs) h (k, ks) = elim (Bool-cases (leb r.first s.first)) [
    | inl e ↦ rw e (h, (k, ks))
    | inr e ↦ rw e (k, All-insert_range r rs h ks)
  ]

  All-sort : (rs : List ByteRange) → All P rs → All P (sort rs)
  unfolding sort
  All-sort [] h = tt
  All-sort (r ∷ rs) (h, hs) = All-insert_range r (sort rs) h (All-sort rs hs)

Ascends-insert_range :
    (low : ℕ) (r : ByteRange) (rs : List ByteRange)
    → low ≤ r.first
    → Ascends low rs
    → Ascends low (insert_range r rs)
unfolding insert_range
Ascends-insert_range low r [] h hs = (h, tt)
Ascends-insert_range low r (s ∷ rs) h (k, ks) = ground (arith, Ascends-insert_range s.first r rs)

Ascends-sort : (rs : List ByteRange) → Ascends 0 (sort rs)
unfolding sort
Ascends-sort [] = tt
Ascends-sort (r ∷ rs) = Ascends-insert_range 0 r (sort rs) (omega arith) (Ascends-sort rs)

Ascends-mono : {a b : ℕ} → a ≤ b → (rs : List ByteRange) → Ascends b rs → Ascends a rs
Ascends-mono le [] up = tt
Ascends-mono le (r ∷ rs) (h, up) = (omega arith, up)

-- One step of the loop keeps the covered offsets, where the next range starts no earlier.
covers-join :
    (x : ℕ) (back r : ByteRange) (rs : List ByteRange)
    → IsRange back
    → IsRange r
    → back.first ≤ r.first
    → (back.last == max_u64 || leb r.first (back.last + 1)) ≡ true
    → covers x (record back { last = max back.last r.last } ∷ rs) ≡ covers x (back ∷ r ∷ rs)
covers-join x back r rs hb hr le t = ground arith

covers-merge :
    (x : ℕ) (back : ByteRange) (rs : List ByteRange)
    → IsRange back
    → All IsRange rs
    → Ascends back.first rs
    → covers x (merge back rs) ≡ covers x (back ∷ rs)
unfolding merge
covers-merge x back [] hb hs up = refl
covers-merge x back (r ∷ rs) hb (hr, hs) (le, up) =
    elim (Bool-cases (back.last == max_u64 || leb r.first (back.last + 1))) [
      | inl t ↦ rw t (
          covers-merge x (record back { last = max back.last r.last }) rs (omega arith) hs
            (Ascends-mono le rs up)
          ∙ covers-join x back r rs hb hr le t)
      | inr f ↦ rw f (ap (λ b. between back.first back.last x || b) (covers-merge x r rs hr hs up))
    ]

-- The first range that the loop puts out starts where the given one does.
merge_head :
    (back : ByteRange) (rs : List ByteRange)
    → (h : ByteRange) × (t : List ByteRange) × (merge back rs ≡ h ∷ t) × (h.first ≡ back.first)
unfolding merge
merge_head back [] = (back, [], refl, refl)
merge_head back (r ∷ rs) = elim (Bool-cases (back.last == max_u64 || leb r.first (back.last + 1))) [
  | inl t ↦
      let (h, tail, e, same) = merge_head (record back { last = max back.last r.last }) rs in
      (h, tail, rw t e, same)
  | inr f ↦ (back, merge r rs, rw f, refl)
]

Apart-cons :
    (r h : ByteRange) (t rs : List ByteRange)
    → rs ≡ h ∷ t
    → r.last + 1 < h.first
    → Apart rs
    → Apart (r ∷ rs)
Apart-cons r h t rs e lt a = rw e (lt, rw e at a)

merge-Apart : (back : ByteRange) (rs : List ByteRange) → Apart (merge back rs)
unfolding merge
merge-Apart back [] = tt
merge-Apart back (r ∷ rs) =
    elim (Bool-cases (back.last == max_u64 || leb r.first (back.last + 1))) [
      | inl t ↦ rw t (merge-Apart (record back { last = max back.last r.last }) rs)
      | inr f ↦
          let (h, tail, e, same) = merge_head r rs in
          rw f (Apart-cons back h tail (merge r rs) e (ground arith) (merge-Apart r rs))
    ]

covers-coalesce_sorted :
    (x : ℕ) (rs : List ByteRange)
    → All IsRange rs
    → Ascends 0 rs
    → covers x (coalesce_sorted rs) ≡ covers x rs
unfolding coalesce_sorted
covers-coalesce_sorted x [] hs up = refl
covers-coalesce_sorted x (r ∷ rs) (h, hs) (_, up) = covers-merge x r rs h hs up

-- `coalesce_ranges` neither loses nor adds an offset.
pub covers-coalesce_ranges :
    (x : ℕ) (rs : List ByteRange) → All IsRange rs → covers x (coalesce_ranges rs) ≡ covers x rs
unfolding coalesce_ranges
covers-coalesce_ranges x rs h =
    covers-coalesce_sorted x (sort rs) (All-sort IsRange rs h) (Ascends-sort rs) ∙ covers-sort x rs

coalesce_sorted-Apart : (rs : List ByteRange) → Apart (coalesce_sorted rs)
unfolding coalesce_sorted
coalesce_sorted-Apart [] = tt
coalesce_sorted-Apart (r ∷ rs) = merge-Apart r rs

-- Its ranges ascend, and no two of them overlap or touch.
pub coalesce_ranges-Apart : (rs : List ByteRange) → Apart (coalesce_ranges rs)
unfolding coalesce_ranges
coalesce_ranges-Apart rs = coalesce_sorted-Apart (sort rs)

All-merge :
    (size : ℕ) (back : ByteRange) (rs : List ByteRange)
    → Within size back
    → All (Within size) rs
    → All (Within size) (merge back rs)
unfolding merge
All-merge size back [] h hs = (h, tt)
All-merge size back (r ∷ rs) h (k, ks) =
    elim (Bool-cases (back.last == max_u64 || leb r.first (back.last + 1))) [
      | inl t ↦
          rw t (All-merge size (record back { last = max back.last r.last }) rs (omega arith) ks)
      | inr f ↦ rw f (h, All-merge size r rs k ks)
    ]

-- What lies in the representation before the ranges are merged does so afterwards.
pub coalesce_ranges-Within :
    (size : ℕ) (rs : List ByteRange) → All (Within size) rs → All (Within size) (coalesce_ranges rs)
unfolding coalesce_ranges coalesce_sorted
coalesce_ranges-Within size rs h = sorted (sort rs) (All-sort (Within size) rs h)
  where
    sorted : (ss : List ByteRange) → All (Within size) ss → All (Within size) (coalesce_sorted ss)
    sorted [] hs = tt
    sorted (s ∷ ss) (k, ks) = All-merge size s ss k ks
