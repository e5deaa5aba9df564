-- ===== src/Core/ByteRange/Parsed.antt =====
-- core/byte_range.hpp: what `parse_range` returns.
use Prim.Native.Nat.{min}
use boost_taar.Common.{
  inl, inr, cut, if◌then◌else◌, ◌==◌, ℕ, ◌+◌, ◌-◌, ◌*◌, ◌≤◌, ◌<◌, ◌≡◌, ◌≢◌, ◌↔◌, refl, some, List,
  [], ◌∷◌, ◌++◌, arith, ltb, All, All-append, length, length-append, is_empty, Bytes, Option-cases,
  Bool-cases, trim, split,
}
use boost_taar.Core.ByteRange.{
  bounds, max_u64, ByteRange, satisfiable, unsatisfiable, RangeSet, nothing, shift_digit,
  digits_from, number, Spec, suffix, interval, parse_spec, clip, collect, range_specs, parse_range,
}

abbrev pub IsDigit : ℕ → Type 0
IsDigit c = (b'0' ≤ c) × (c ≤ b'9')

-- The number that decimal digits spell behind `n`, without a bound.
abbrev pub decimal : ℕ → Bytes → ℕ
decimal n [] = n
decimal n (c ∷ s) = decimal (n * 10 + (c - b'0')) s

shift_digit_lem : (n d : ℕ) → d ≤ 9 → shift_digit (min n max_u64) d ≡ min (n * 10 + d) max_u64
shift_digit_lem n d h = ground arith

digits_from-decimal :
    (s : Bytes) (n : ℕ)
    → All IsDigit s
    → digits_from (min n max_u64) s ≡ some (min (decimal n s) max_u64)
unfolding digits_from
digits_from-decimal [] n h = refl
digits_from-decimal (c ∷ s) n (hc, hs) =
    ground (arith, shift_digit_lem n (c - b'0'), digits_from-decimal s (n * 10 + (c - b'0')) hs)

digits_from-IsDigit : (s : Bytes) (n : ℕ) {v : ℕ} → digits_from n s ≡ some v → All IsDigit s
unfolding digits_from
digits_from-IsDigit [] n h = tt
digits_from-IsDigit (c ∷ s) n {v} h =
    ground (arith, digits_from-IsDigit s (shift_digit n (c - b'0')) {v = v})

-- The lambda `number` accepts exactly the non-empty texts of digits, and its value is the decimal
-- one, cut off at the largest uint64.
pub number_iff :
    (s : Bytes) (v : ℕ)
    → (number s ≡ some v) ↔ ((s ≢ []) × All IsDigit s × (v ≡ min (decimal 0 s) max_u64))
unfolding number
number_iff [] v = (λ h. cc, λ h. absurd (h.0 refl))
number_iff (c ∷ s) v = (
  λ h.
      let digits = digits_from-IsDigit (c ∷ s) 0 h in
      (cc, digits, ground (arith, digits_from-decimal (c ∷ s) 0 digits)),
  λ (_, digits, e). ground (arith, digits_from-decimal (c ∷ s) 0 digits),
)

number-le : (s : Bytes) {v : ℕ} → number s ≡ some v → v ≤ max_u64
number-le s {v} h = omega (arith, ((number_iff s v).0 h).2)

-- The range lies in a representation of `size` bytes, and holds a byte.
abbrev pub Within : ℕ → ByteRange → Type 0
Within size r = (r.first ≤ r.last) × (r.last < size)

abbrev IsOrdered : Spec → Type 0
IsOrdered (suffix last) = Unit
IsOrdered (interval first last) = first ≤ last

bounds-IsOrdered : (a b : Bytes) {spec : Spec} → bounds a b ≡ some spec → IsOrdered spec
unfolding bounds
bounds-IsOrdered [] b {spec} h = ground arith
bounds-IsOrdered (c ∷ a) [] {spec} h = elim (Option-cases (number (c ∷ a))) [
  | inl e ↦ cc
  | inr (first, e) ↦ ground (arith, number-le (c ∷ a) e)
]
bounds-IsOrdered (c ∷ a) (d ∷ b) {spec} h = ground arith

clip-Within : (size : ℕ) (spec : Spec) → IsOrdered spec → All (Within size) (clip size spec)
unfolding clip
clip-Within size (suffix last) h = ground arith
clip-Within size (interval first last) h = ground arith

length-clip : (size : ℕ) (spec : Spec) → length (clip size spec) ≤ 1
unfolding clip
length-clip size (suffix last) = ground arith
length-clip size (interval first last) = ground arith

parse_spec-IsOrdered : (text : Bytes) {spec : Spec} → parse_spec text ≡ some spec → IsOrdered spec
unfolding parse_spec
parse_spec-IsOrdered text {spec} h = elim (Option-cases (cut b'-' text).1) [
  | inl e ↦ cc (rw e at h)
  | inr (b, e) ↦ bounds-IsOrdered (cut b'-' text).0 b (rw e at h)
]

-- The ranges are not empty and lie in the representation, there are at most `max_ranges`, and there
-- is one exactly when the status is `satisfiable`.
pub record IsClipped (size max_ranges : ℕ) (out : RangeSet) : Type 0 where
  pub within : All (Within size) out.ranges
  pub few : length out.ranges ≤ max_ranges
  pub status_of_nil : out.ranges ≡ [] → out.status ≢ satisfiable
  pub status_of_cons : out.ranges ≢ [] → out.status ≡ satisfiable

nothing-IsClipped : (size max_ranges : ℕ) → IsClipped size max_ranges nothing
nothing-IsClipped size max_ranges = record {
  within = tt;
  few = omega arith;
  status_of_nil = λ _. cc;
  status_of_cons = λ h. absurd (h refl);
}

abbrev found : List ByteRange → RangeSet
found ranges = record {
  status = if is_empty ranges then unsatisfiable else satisfiable;
  ranges = ranges;
}

found-IsClipped :
    (size max_ranges : ℕ) (ranges : List ByteRange)
    → All (Within size) ranges
    → length ranges ≤ max_ranges
    → IsClipped size max_ranges (found ranges)
found-IsClipped size max_ranges [] w l = record {
  within = tt;
  few = omega arith;
  status_of_nil = λ _. cc;
  status_of_cons = λ h. absurd (h refl);
}
found-IsClipped size max_ranges (r ∷ rs) w l = record {
  within = w;
  few = l;
  status_of_nil = λ h. cc;
  status_of_cons = λ _. refl;
}

collect-IsClipped :
    (size max_ranges specs : ℕ) (ranges : List ByteRange) (texts : List Bytes)
    → All (Within size) ranges
    → length ranges ≤ specs
    → specs ≤ max_ranges
    → IsClipped size max_ranges (collect size max_ranges specs ranges texts)
unfolding collect
collect-IsClipped size max_ranges specs ranges [] w l m = elim (Bool-cases (specs == 0)) [
  | inl e ↦ rw e (nothing-IsClipped size max_ranges)
  | inr e ↦ rw e (found-IsClipped size max_ranges ranges w (omega arith))
]
collect-IsClipped size max_ranges specs ranges (text ∷ rest) w l m =
    elim (Bool-cases (is_empty (trim text))) [
      | inl e ↦ rw e (collect-IsClipped size max_ranges specs ranges rest w l m)
      | inr e ↦ elim (Bool-cases (ltb max_ranges (specs + 1))) [
        | inl many ↦ rw (e, many) (nothing-IsClipped size max_ranges)
        | inr few ↦ elim (Option-cases (parse_spec (trim text))) [
          | inl bad ↦ rw (e, few, bad) (nothing-IsClipped size max_ranges)
          | inr (spec, good) ↦
              rw (e, few, good)
                (collect-IsClipped size max_ranges (specs + 1) (ranges ++ clip size spec) rest
                  (All-append (Within size) ranges (clip size spec) w
                    (clip-Within size spec (parse_spec-IsOrdered _ good)))
                  (omega (arith, length-append ranges (clip size spec), length-clip size spec))
                  (ground arith))
        ]
      ]
    ]

-- Whatever the header says, `parse_range` returns ranges that hold a byte and lie in the
-- representation, at most `max_ranges` of them, and it says `satisfiable` exactly when it
-- returns one.
pub parse_range-IsClipped :
    (header : Bytes) (size max_ranges : ℕ)
    → IsClipped size max_ranges (parse_range header size max_ranges)
unfolding parse_range
parse_range-IsClipped header size max_ranges = elim (Option-cases (range_specs header)) [
  | inl e ↦ rw (e, parse_range) (nothing-IsClipped size max_ranges)
  | inr (set, e) ↦
      rw (e, parse_range)
        (collect-IsClipped size max_ranges 0 [] (split b',' set) tt (omega arith) (omega arith))
]
