-- ===== src/Core/Mime.antt =====
-- core/mime.hpp: the look-ups. `std::ranges::lower_bound` is the bisection of the standard library
-- over what is left of the table, on fuel: each round halves the number of entries left.
pub mod Table
pub mod LookUp
use boost_taar.Common.{
  ℕ, zero, suc, ◌+◌, ◌-◌, ◌/◌, Bool, true, false, not, ◌&&◌, ◌||◌, Option, none, some, List, [],
  ◌∷◌, ◌++◌, ◌==◌, if◌then◌else◌, ltb, length, drop, take, is_empty, any, map, Bytes, codes, beq,
  is_ws, trim_end, to_lower, iequals, cut,
}

-- The order of `std::string_view`, by bytes.
unfoldable pub less : Bytes → Bytes → Bool
less [] [] = false
less [] (y ∷ ys) = true
less (x ∷ xs) [] = false
less (x ∷ xs) (y ∷ ys) = ltb x y || (x == y && less xs ys)

abbrev pub Rows : Type 0
Rows = List (Bytes × Bytes)

-- `mime_table_sorted`.
unfoldable pub mime_table_sorted : Rows → Bool
mime_table_sorted [] = true
mime_table_sorted (a ∷ []) = true
mime_table_sorted (a ∷ b ∷ rows) = less a.0 b.0 && mime_table_sorted (b ∷ rows)

-- The rows from the first one on, of the `n` first, that is not less than the key.
unfoldable pub lower_bound : Bytes → ℕ → ℕ → Rows → Rows
lower_bound key zero n rows = rows
lower_bound key (suc fuel) n rows =
    let half = n / 2 in
    if n == 0 then rows else elim (drop half rows) [
      | [] ↦ rows
      | row ∷ rest ↦
          let right = lower_bound key fuel (n - half - 1) rest in
          let left = lower_bound key fuel half rows in if less row.0 key then right else left
    ]

abbrev has_separator : Bytes → Bool
has_separator s = any (λ c. c == b'/' || c == b'\\') s

-- What stands behind the last slash of either kind.
unfoldable pub base_name : Bytes → Bytes
base_name [] = []
base_name (c ∷ s) = let rest = base_name s in if has_separator (c ∷ s) then rest else c ∷ s

-- What stands behind the last dot, if there is one.
unfoldable pub after_dot : Bytes → Option Bytes
after_dot [] = none
after_dot (c ∷ s) = elim (after_dot s) [
  | some rest ↦ some rest
  | none ↦ if c == b'.' then some s else none
]

-- A dot in front starts no extension.
unfoldable pub file_extension : Bytes → Bytes
file_extension filename = elim (base_name filename) [
  | [] ↦ []
  | c ∷ s ↦ elim (after_dot s) [ none ↦ [] | some ext ↦ map to_lower ext ]
]

abbrev pub row_type : Bytes → Rows → Bytes
row_type ext [] = []
row_type ext ((e, type) ∷ rows) = if beq e ext then type else []

unfoldable pub mime_type_in : Rows → Bytes → Bytes
mime_type_in rows filename =
    let ext = file_extension filename in
    if is_empty ext
    then []
    else row_type ext (lower_bound ext (suc (length rows)) (length rows) rows)

unfoldable pub is_text_mime_type : Bytes → Bool
is_text_mime_type text =
    let type = trim_end (cut b';' text).0 in
    if ltb 5 (length type) && iequals (take 5 type) (codes "text/")
    then true
    else any (λ t. iequals type t)
        (codes "application/json"
          ∷ codes "application/javascript"
          ∷ codes "application/xml"
          ∷ codes "application/manifest+json"
          ∷ codes "application/ld+json"
          ∷ codes "application/xhtml+xml"
          ∷ codes "application/yaml"
          ∷ codes "application/toml"
          ∷ codes "image/svg+xml"
          ∷ [])

unfoldable pub with_utf8_charset : Bytes → Bytes
with_utf8_charset type =
    if not (any (λ c. c == b';') type) && is_text_mime_type type
    then type ++ codes "; charset=utf-8"
    else type
