-- ===== src/Mcp/Paging.antt =====
-- mcp/endpoint.hpp: `paginate`, which cuts the answers of the list methods into pages, and the two
-- functions of the standard library that read and write its cursor.
pub mod Decimal
pub mod Complete
use boost_taar.Common.{
  ℕ, zero, suc, ◌+◌, ◌-◌, ◌*◌, ◌/◌, ◌%◌, ◌^◌, Bool, true, false, ◌&&◌, ◌||◌, Option, none, some,
  List, [], ◌∷◌, Bytes, codes, ◌==◌, ltb, leb, between, is_empty, length, take, drop, if◌then◌else◌,
}
use boost_taar.JsonRpc.Json.{Value, string, array, Fields, end, field, member, assign, items}
use boost_taar.JsonRpc.Envelope.{Envelope, if_object, if_string}

-- `std::to_string` of an unsigned number; the fuel is more than the number.
unfoldable pub put_digits : ℕ → ℕ → Bytes → Bytes
put_digits zero n rest = rest
put_digits (suc fuel) n rest =
    let more = put_digits fuel (n / 10) ((b'0' + n % 10) ∷ rest) in
    if ltb n 10 then (b'0' + n) ∷ rest else more

unfoldable pub to_string : ℕ → Bytes
unfolding put_digits
to_string n = put_digits (suc n) n []

-- `std::strtoull` in base 10 on the text up to its first zero byte: white space, a sign, digits.
-- The value and the text behind it; none where there is no digit.
unfoldable pub read_digits : ℕ → Bytes → ℕ × Bytes
read_digits v [] = (v, [])
read_digits v (c ∷ s) =
    let rest = read_digits (v * 10 + (c - b'0')) s in
    if between b'0' b'9' c then rest else (v, c ∷ s)

abbrev pub max_ull : ℕ
max_ull = 2 ^ 64 - 1

abbrev pub clamped : ℕ × Bytes → ℕ × Bytes
clamped (v, s) = (if ltb max_ull v then max_ull else v, s)

-- The value wraps where a minus sign stands, unless it is out of range.
abbrev pub negated : ℕ × Bytes → ℕ × Bytes
negated (v, s) = (if ltb max_ull v then max_ull else (2 ^ 64 - v) % 2 ^ 64, s)

abbrev pub starts_digit : Bytes → Bool
starts_digit [] = false
starts_digit (c ∷ s) = between b'0' b'9' c

abbrev pub unsigned : Bytes → Option (ℕ × Bytes)
unsigned s = if starts_digit s then some (read_digits 0 s) else none

abbrev pub clamp_some : Option (ℕ × Bytes) → Option (ℕ × Bytes)
clamp_some none = none
clamp_some (some r) = some (clamped r)

abbrev pub negate_some : Option (ℕ × Bytes) → Option (ℕ × Bytes)
negate_some none = none
negate_some (some r) = some (negated r)

abbrev pub signed : Bytes → Option (ℕ × Bytes)
signed [] = none
signed (c ∷ s) =
    if c == b'-'
    then negate_some (unsigned s)
    else if c == b'+'
    then clamp_some (unsigned s)
    else clamp_some (unsigned (c ∷ s))

abbrev pub is_c_space : ℕ → Bool
is_c_space c = c == 32 || between 9 13 c

unfoldable pub strtoull : Bytes → Option (ℕ × Bytes)
unfolding read_digits
strtoull [] = none
strtoull (c ∷ s) = let rest = strtoull s in if is_c_space c then rest else signed (c ∷ s)

-- `*end != '\0'` fails at the end of the text and at a zero byte.
abbrev pub at_nul : Bytes → Bool
at_nul [] = true
at_nul (c ∷ s) = c == 0

abbrev pub starts_nul : Bytes → Bool
starts_nul [] = false
starts_nul (c ∷ s) = c == 0

-- The start that a cursor names; without a digit, `end` is the text itself and the value is 0.
abbrev pub start_of : ℕ → Bytes → Option (ℕ × Bytes) → Option ℕ
start_of size text none = if starts_nul text then some 0 else none
start_of size text (some (v, rest)) = if at_nul rest && leb v size then some v else none

abbrev pub cursor_start : ℕ → Option Value → Option ℕ
cursor_start size none = some 0
cursor_start size (some c) = elim (if_string c) [
  | none ↦ none
  | some text ↦ start_of size text (strtoull text)
]

abbrev pub cursor_of : Envelope → Option Value
cursor_of env = elim env.params [
  | none ↦ none
  | some params ↦ elim (if_object params) [ none ↦ none | some obj ↦ member (codes "cursor") obj ]
]

unfoldable pub page_at : ℕ → List Value → Bytes → ℕ → Fields
page_at page_size all key start =
    if page_size == 0 || leb (length all - start) page_size
    then assign key (array (items (drop start all))) end
    else assign (codes "nextCursor") (string (to_string (start + page_size)))
        (assign key (array (items (take page_size (drop start all)))) end)

abbrev pub paged : ℕ → List Value → Bytes → Option ℕ → Option Fields
paged page_size all key none = none
paged page_size all key (some start) = some (page_at page_size all key start)

-- `none` stands for the exception, which is `invalid_params` in each case.
unfoldable pub paginate : ℕ → List Value → Bytes → Envelope → Option Fields
unfolding strtoull page_at
paginate page_size all key env = paged page_size all key (cursor_start (length all) (cursor_of env))
