-- ===== src/Core/ByteRange.antt =====
-- core/byte_range.hpp: `parse_range` and `coalesce_ranges` over uint64 offsets. A text is its list
-- of bytes; the lambda `trim` and the loop that cuts at commas are those of Common/Text.
pub mod Parsed
pub mod Coalesced
use boost_taar.Common.{
  ℕ, ◌+◌, ◌-◌, ◌*◌, ◌/◌, ◌^◌, Bool, true, false, not, ◌&&◌, ◌||◌, Option, none, some, List, [], ◌∷◌,
  ◌++◌, ◌==◌, if◌then◌else◌, between, ltb, leb, take, drop, length, is_empty, Bytes, codes, beq,
  trim, to_lower, split, cut, ◌>>=◌, map,
}
use Prim.Native.Nat.{min, max}

abbrev pub max_u64 : ℕ
max_u64 = 2 ^ 64 - 1

pub record ByteRange : Type 0 where
  pub first : ℕ
  pub last : ℕ

-- `byte_range::length`
abbrev pub span : ByteRange → ℕ
span r = r.last - r.first + 1

pub data RangeStatus : Type 0 where
  ignored satisfiable unsatisfiable : RangeStatus

pub record RangeSet : Type 0 where
  pub status : RangeStatus
  pub ranges : List ByteRange

abbrev pub nothing : RangeSet
nothing = record { status = ignored; ranges = [] }

-- One round of the lambda `number`: the value saturates instead of overflowing.
abbrev pub shift_digit : ℕ → ℕ → ℕ
shift_digit v d = if ltb ((max_u64 - d) / 10) v then max_u64 else v * 10 + d

digits_from : ℕ → Bytes → Option ℕ
digits_from v [] = some v
digits_from v (c ∷ s) =
    let rest = digits_from (shift_digit v (c - b'0')) s in
    if not (between b'0' b'9' c) then none else rest

-- The lambda `number`.
unfoldable pub number : Bytes → Option ℕ
unfolding digits_from
number [] = none
number (c ∷ s) = digits_from 0 (c ∷ s)

-- The bounds that one spec asks for: `-n` a suffix, `a-` and `a-b` an interval.
pub data Spec : Type 0 where
  suffix : ℕ → Spec
  interval : (first last : ℕ) → Spec

bounds : Bytes → Bytes → Option Spec
bounds [] b = number b >>= λ last. some (suffix last)
bounds (c ∷ a) [] = number (c ∷ a) >>= λ first. some (interval first max_u64)
bounds (c ∷ a) (d ∷ b) = number (c ∷ a) >>= λ first.
    number (d ∷ b) >>= λ last. if ltb last first then none else some (interval first last)

-- The text of a spec, cut at the first dash.
unfoldable pub parse_spec : Bytes → Option Spec
unfolding bounds
parse_spec spec = let (a, rest) = cut b'-' spec in rest >>= λ b. bounds a b

-- What the spec adds to `ranges`, clipped to the representation.
unfoldable pub clip : ℕ → Spec → List ByteRange
clip size (suffix last) =
    if ltb 0 last && ltb 0 size
    then record { first = size - min last size; last = size - 1 } ∷ []
    else []
clip size (interval first last) =
    if ltb first size then record { first = first; last = min last (size - 1) } ∷ [] else []

-- The loop over the specs; the accumulator is `specs` and `ranges`.
unfoldable pub collect : ℕ → ℕ → ℕ → List ByteRange → List Bytes → RangeSet
collect size max_ranges specs ranges [] =
    if specs == 0
    then nothing
    else record { status = if is_empty ranges then unsatisfiable else satisfiable; ranges = ranges }
collect size max_ranges specs ranges (text ∷ rest) =
    let spec = trim text in
    let skipped = collect size max_ranges specs ranges rest in
    let kept = λ (s : Spec). collect size max_ranges (specs + 1) (ranges ++ clip size s) rest in
    if is_empty spec
    then skipped
    else if ltb max_ranges (specs + 1)
    then nothing
    else elim (parse_spec spec) [ none ↦ nothing | some s ↦ kept s ]

-- What stands behind `bytes` and `=`, if the header names that unit.
unfoldable pub range_specs : Bytes → Option Bytes
range_specs header =
    let field = trim header in
    if ltb (length field) 6 || not (beq (map to_lower (take 5 field)) (codes "bytes"))
    then none
    else elim (trim (drop 5 field)) [ [] ↦ none | c ∷ set ↦ if c == b'=' then some set else none ]

unfoldable pub parse_range : Bytes → ℕ → ℕ → RangeSet
parse_range header size max_ranges = elim (range_specs header) [
  | none ↦ nothing
  | some set ↦ collect size max_ranges 0 [] (split b',' set)
]

-- `std::ranges::sort` by `first`, as insertion: equal keys keep some order.
unfoldable pub insert_range : ByteRange → List ByteRange → List ByteRange
insert_range r [] = r ∷ []
insert_range r (s ∷ rs) = if leb r.first s.first then r ∷ s ∷ rs else s ∷ insert_range r rs

unfoldable pub sort : List ByteRange → List ByteRange
sort [] = []
sort (r ∷ rs) = insert_range r (sort rs)

-- The loop of `coalesce_ranges` from a first range on; `back` is `out.back()`, and what stands
-- before it is not touched again.
unfoldable pub merge : ByteRange → List ByteRange → List ByteRange
merge back [] = back ∷ []
merge back (r ∷ rs) =
    let joined = merge (record back { last = max back.last r.last }) rs in
    let apart = back ∷ merge r rs in
    if back.last == max_u64 || leb r.first (back.last + 1) then joined else apart

unfoldable pub coalesce_sorted : List ByteRange → List ByteRange
coalesce_sorted [] = []
coalesce_sorted (r ∷ rs) = merge r rs

unfoldable pub coalesce_ranges : List ByteRange → List ByteRange
coalesce_ranges ranges = coalesce_sorted (sort ranges)
