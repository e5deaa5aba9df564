-- ===== src/Core/Base64.antt =====
-- core/base64.hpp: `base64_encode` and `base64_decode`. A byte is a number below 256; shifts and
-- masks of the 24-bit groups are `/`, `*` and `%` by powers of two.
pub mod RoundTrip
use boost_taar.Common.{
  ℕ, ◌+◌, ◌-◌, ◌*◌, ◌/◌, ◌%◌, ◌^◌, Bool, true, false, not, ◌&&◌, ◌||◌, Option, none, some, List, [],
  ◌∷◌, ◌++◌, ◌==◌, if◌then◌else◌, between, get_elem?, length, is_empty, Bytes, codes, ◌>>=◌,
}

abbrev pub table : Bytes
table = codes "ABCDEFGHIJKLMNOPQRSTUVWXYZabcdefghijklmnopqrstuvwxyz0123456789+/"

-- `table[v]`; every index of the source is masked with 63.
abbrev or_zero : Option ℕ → ℕ
or_zero none = 0
or_zero (some c) = c

unfoldable pub digit : ℕ → ℕ
digit v = or_zero (get_elem? table v)

abbrev pub pad : ℕ
pad = b'='

-- `table[(n >> k) & 63]`
abbrev sextet : ℕ → ℕ → ℕ
sextet n k = digit (n / 2 ^ k % 64)

unfoldable pub encode : Bytes → Bytes
encode [] = []
encode (a ∷ []) = let n = a * 65536 in sextet n 18 ∷ sextet n 12 ∷ pad ∷ pad ∷ []
encode (a ∷ b ∷ []) =
    let n = a * 65536 + b * 256 in sextet n 18 ∷ sextet n 12 ∷ sextet n 6 ∷ pad ∷ []
encode (a ∷ b ∷ c ∷ s) =
    let n = a * 65536 + b * 256 + c in
    sextet n 18 ∷ sextet n 12 ∷ sextet n 6 ∷ sextet n 0 ∷ encode s

-- The lambda `value`; `none` is -1.
unfoldable pub value : ℕ → Option ℕ
value c =
    if between b'A' b'Z' c
    then some (c - b'A')
    else if between b'a' b'z' c
    then some (c - b'a' + 26)
    else if between b'0' b'9' c
    then some (c - b'0' + 52)
    else if c == b'+'
    then some 62
    else if c == b'/'
    then some 63
    else none

abbrev value_or_pad : Bool → ℕ → Option ℕ
value_or_pad padded c = if padded then some 0 else value c

-- The bytes of one group of four; the flag is `i + 4 == text.size()`.
unfoldable pub decode_group : Bool → ℕ → ℕ → ℕ → ℕ → Option Bytes
decode_group last x y z w =
    let pad2 = z == pad in
    let pad3 = w == pad in
    value x >>= λ a. value y >>= λ b. value_or_pad pad2 z >>= λ c. value_or_pad pad3 w >>= λ d.
    let n = a * 2 ^ 18 + b * 2 ^ 12 + c * 2 ^ 6 + d in
    if (pad2 && not pad3) || ((pad2 || pad3) && not last)
    then none
    else some (
        (n / 2 ^ 16 % 256)
        ∷ ((if pad2 then [] else (n / 2 ^ 8 % 256) ∷ []) ++ (if pad3 then [] else (n % 256) ∷ [])))

-- The loop over the groups. A remainder of one to three characters is excluded by the size test.
unfoldable pub decode_groups : Bytes → Option Bytes
decode_groups [] = some []
decode_groups (x ∷ y ∷ z ∷ w ∷ s) =
    decode_group (is_empty s) x y z w >>= λ out. decode_groups s >>= λ rest. some (out ++ rest)
decode_groups _ = none

unfoldable pub decode : Bytes → Option Bytes
decode text = if length text % 4 == 0 then decode_groups text else none
