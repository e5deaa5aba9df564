-- ===== src/Common/Text/Trim.antt =====
-- What `trim` leaves: never more text, and all of a text that begins and ends with no white space.
use Prim.Native.Nat.{ℕ, suc, ◌≤◌}
use mathlib.Core.Path.{◌≡◌, refl}
use mathlib.Core.Bool.{true, false}
use mathlib.Core.List.{[], ◌∷◌, ◌++◌}
use native.Mathlib.Omega.{arith}
use boost_taar.Common.Lists.{length}
use boost_taar.Common.Text.{Bytes, is_ws, trim_start, trimmed, trim_end, trim}

pub length-trim_start : (s : Bytes) → length (trim_start s) ≤ length s
unfolding trim_start
length-trim_start [] = omega arith
length-trim_start (c ∷ s) = ground (arith, length-trim_start s)

length-trimmed : (c : ℕ) (s : Bytes) → length (trimmed c s) ≤ suc (length s)
unfolding trimmed
length-trimmed c [] = ground arith
length-trimmed c (d ∷ s) = omega arith

length-trim_end : (s : Bytes) → length (trim_end s) ≤ length s
unfolding trim_end
length-trim_end [] = omega arith
length-trim_end (c ∷ s) = omega (arith, length-trimmed c (trim_end s), length-trim_end s)

pub length-trim : (s : Bytes) → length (trim s) ≤ length s
unfolding trim
length-trim s = omega (arith, length-trim_end (trim_start s), length-trim_start s)

-- The text does not begin with white space; nor does it end so.
abbrev pub StartsInk : Bytes → Type 0
StartsInk [] = Unit
StartsInk (c ∷ s) = is_ws c ≡ false

abbrev pub EndsInk : Bytes → Type 0
EndsInk [] = Unit
EndsInk (c ∷ []) = is_ws c ≡ false
EndsInk (c ∷ d ∷ s) = EndsInk (d ∷ s)

pub EndsInk-append : (xs : Bytes) (c : ℕ) (s : Bytes) → EndsInk (c ∷ s) → EndsInk (xs ++ c ∷ s)
EndsInk-append [] c s h = h
EndsInk-append (x ∷ []) c s h = h
EndsInk-append (x ∷ y ∷ xs) c s h = EndsInk-append (y ∷ xs) c s h

trim_end-ink : (s : Bytes) → EndsInk s → trim_end s ≡ s
unfolding trim_end trimmed
trim_end-ink [] h = refl
trim_end-ink (c ∷ []) h = ground arith
trim_end-ink (c ∷ d ∷ s) h = ground (arith, trim_end-ink (d ∷ s) h)

pub trim_start-ink : (s : Bytes) → StartsInk s → trim_start s ≡ s
unfolding trim_start
trim_start-ink [] h = refl
trim_start-ink (c ∷ s) h = ground arith

pub trim-ink : (s : Bytes) → StartsInk s → EndsInk s → trim s ≡ s
unfolding trim
trim-ink s h k = ground (arith, trim_start-ink s h, trim_end-ink s k)

pub trim_space : (c : ℕ) (s : Bytes) → is_ws c ≡ true → trim (c ∷ s) ≡ trim s
unfolding trim trim_start
trim_space c s h = ground arith
