-- ===== src/Common/Text.antt =====
-- Text as the list of its bytes, with the string operations that the sources share: `trim` and
-- `iequals`, and the loops that cut a text at each separator.
pub mod Trim
use Prim.Native.Nat.{ℕ, suc, ◌+◌, ◌-◌, ◌≤◌}
use Prim.Native.Char.{code}
use Prim.Native.String.{String}
use mathlib.Core.Path.{◌≡◌, refl, ap}
use mathlib.Core.Logic.{◌↔◌, ◌≢◌}
use mathlib.Core.Bool.{Bool, true, false, ◌&&◌, ◌||◌}
use mathlib.Core.Option.{Option, none, some}
use mathlib.Core.List.{List, [], ◌∷◌, ◌++◌}
use native.Mathlib.Omega.{arith}
use boost_taar.Common.Tests.{leb, ◌==◌, between, if◌then◌else◌}
use boost_taar.Common.Lists.{length, is_empty}

abbrev pub Bytes : Type 0
Bytes = List ℕ

-- The bytes of an ASCII literal.
abbrev pub codes : String → Bytes
codes String.[] = []
codes (String.◌∷◌ c s) = code c ∷ codes s

abbrev pub beq : Bytes → Bytes → Bool
beq [] [] = true
beq (x ∷ xs) (y ∷ ys) = x == y && beq xs ys
beq _ _ = false

pub beq_iff : (a b : Bytes) → (beq a b ≡ true) ↔ (a ≡ b)
beq_iff (x ∷ a) (y ∷ b) = ground (arith, beq_iff a b)
beq_iff _ _ = ground arith

-- `s.starts_with(p)`, with the text behind the prefix.
abbrev pub strip_prefix : Bytes → Bytes → Option Bytes
strip_prefix [] s = some s
strip_prefix (x ∷ p) [] = none
strip_prefix (x ∷ p) (y ∷ s) = if x == y then strip_prefix p s else none

-- `c == ' ' || c == '\t'`
abbrev pub is_ws : ℕ → Bool
is_ws c = c == b' ' || c == b'\t'

-- `while (!s.empty() && is_ws(s.front())) s.remove_prefix(1);`
unfoldable pub trim_start : Bytes → Bytes
trim_start [] = []
trim_start (c ∷ s) = if is_ws c then trim_start s else c ∷ s

trimmed : ℕ → Bytes → Bytes
trimmed c [] = if is_ws c then [] else c ∷ []
trimmed c (d ∷ s) = c ∷ d ∷ s

-- `while (!s.empty() && is_ws(s.back())) s.remove_suffix(1);`
unfoldable pub trim_end : Bytes → Bytes
unfolding trimmed
trim_end [] = []
trim_end (c ∷ s) = trimmed c (trim_end s)

unfoldable pub trim : Bytes → Bytes
unfolding trim_start trim_end
trim s = trim_end (trim_start s)

-- An ASCII letter in lower case.
abbrev pub to_lower : ℕ → ℕ
to_lower c = if between b'A' b'Z' c then c + 32 else c

-- The lambda `ieq` of core/mime.hpp: equality up to the case of ASCII letters. The sources that call
-- `boost::beast::iequals` rely on the same comparison, which its documentation describes.
unfoldable pub iequals : Bytes → Bytes → Bool
iequals [] [] = true
iequals (x ∷ xs) (y ∷ ys) = to_lower x == to_lower y && iequals xs ys
iequals _ _ = false

abbrev pub cons_head : ℕ → List Bytes → List Bytes
cons_head c [] = (c ∷ []) ∷ []
cons_head c (p ∷ ps) = (c ∷ p) ∷ ps

-- The texts that `while (true)` sees, which cuts at each separator: one more than separators.
unfoldable pub split : ℕ → Bytes → List Bytes
split sep [] = [] ∷ []
split sep (c ∷ s) = if c == sep then [] ∷ split sep s else cons_head c (split sep s)

-- The texts that `while (!s.empty())` sees: no empty one behind a last separator.
unfoldable pub pieces : ℕ → Bytes → List Bytes
pieces sep [] = []
pieces sep (c ∷ s) = if c == sep then [] ∷ pieces sep s else cons_head c (pieces sep s)

abbrev cut_cons : ℕ → Bytes × Option Bytes → Bytes × Option Bytes
cut_cons c (a, b) = (c ∷ a, b)

-- `s.substr(0, i)` and `s.substr(i + 1)` for `i = s.find(sep)`; `none` where `i` is `npos`.
unfoldable pub cut : ℕ → Bytes → Bytes × Option Bytes
cut sep [] = ([], none)
cut sep (c ∷ s) = if c == sep then ([], some s) else cut_cons c (cut sep s)
