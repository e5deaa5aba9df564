-- ===== src/Core/PartHeaders.antt =====
-- core/multipart.hpp: `multipart_boundary`, and the headers of a part, `parse_disposition` and
-- `parse_headers`. `iequals` is that of Boost.Beast, and `std::tolower` that of the C locale.
pub mod Disposition
use boost_taar.Common.{
  ℕ, zero, suc, Bool, true, false, not, ◌&&◌, Option, none, some, List, [], ◌∷◌, ◌++◌, ◌==◌,
  if◌then◌else◌, length, is_empty, map, Bytes, codes, beq, to_lower, trim, iequals, cons_head, cut,
  pieces,
}

pub record PartHeader : Type 0 where
  pub name : Bytes
  pub filename : Option Bytes
  pub content_type : Bytes
  pub headers : List (Bytes × Bytes)

abbrev pub no_header : PartHeader
no_header = record { name = []; filename = none; content_type = []; headers = [] }

unfoldable pub is_file : PartHeader → Bool
is_file h = elim h.filename [ none ↦ false | some f ↦ true ]

-- What `malformed` is called with: the message of the exception.
pub data Malformed : Type 0 where
  no_opening truncated_after_boundary unexpected_bytes headers_too_large headers_truncated :
      Malformed
  no_closing bad_header no_name : Malformed

abbrev pub or_empty : Option Bytes → Bytes
or_empty none = []
or_empty (some s) = s

-- `rest = next == npos ? {} : rest.substr(next + 1)` for the next semicolon.
unfoldable pub after_semicolon : Bytes → Bytes
after_semicolon s = or_empty (cut b';' s).1

abbrev put : ℕ → Bytes × Bytes → Bytes × Bytes
put c (a, b) = (c ∷ a, b)

-- The loop over a quoted parameter: its text without escapes, and what follows the closing quote.
unfoldable pub quoted : Bytes → Bytes × Bytes
quoted [] = ([], [])
quoted (c ∷ []) = if c == b'"' then ([], []) else (c ∷ [], [])
quoted (c ∷ d ∷ s) =
    let escaped = put d (quoted s) in
    let plain = put c (quoted (d ∷ s)) in
    if c == b'"' then ([], d ∷ s) else if c == b'\\' then escaped else plain

-- The value of a parameter, and the text behind its semicolon.
unfoldable pub read_value : Bytes → Bytes × Bytes
read_value [] = ([], [])
read_value (c ∷ s) =
    let (param, left) = quoted s in
    if c == b'"'
    then (param, after_semicolon left)
    else (trim (cut b';' (c ∷ s)).0, after_semicolon (c ∷ s))

unfoldable pub set_param : Bytes → Bytes → PartHeader → PartHeader
set_param key param h =
    if iequals key (codes "name")
    then record h { name = param }
    else if iequals key (codes "filename")
    then record h { filename = some param }
    else h

-- The loop of `parse_disposition`; `none` means that the fuel ran out.
unfoldable pub disposition_from : ℕ → Bytes → PartHeader → Option PartHeader
disposition_from zero rest h = none
disposition_from (suc fuel) rest h =
    if is_empty rest then some h else elim (cut b'=' (trim rest)).1 [
      | none ↦ some h
      | some after ↦
          disposition_from fuel (read_value after).1
            (set_param (trim (cut b'=' (trim rest)).0) (read_value after).0 h)
    ]

abbrev pub or_kept : PartHeader → Option PartHeader → PartHeader
or_kept h none = h
or_kept h (some h') = h'

unfoldable pub parse_disposition : Bytes → PartHeader → PartHeader
parse_disposition value h =
    let rest = after_semicolon value in or_kept h (disposition_from (suc (length rest)) rest h)

-- The lines of the block: it is cut at each CR LF, with no empty line behind a last one.
unfoldable pub header_lines : Bytes → List Bytes
header_lines [] = []
header_lines (c ∷ []) = (c ∷ []) ∷ []
header_lines (c ∷ d ∷ s) =
    let cut_here = [] ∷ header_lines s in
    let longer = cons_head c (header_lines (d ∷ s)) in
    if c == 13 && d == 10 then cut_here else longer

-- The loop's body; `none` where the line has no colon.
unfoldable pub add_line : Bytes → PartHeader → Option PartHeader
add_line line h = elim (cut b':' line).1 [
  | none ↦ none
  | some text ↦
      let key = trim (cut b':' line).0 in
      let value = trim text in
      let stored = record h { headers = h.headers ++ (key, value) ∷ [] } in
      some (
        if iequals key (codes "Content-Disposition")
        then parse_disposition value stored
        else if iequals key (codes "Content-Type")
        then record stored { content_type = value }
        else stored)
]

pub data HeaderResult : Type 0 where
  header : PartHeader → HeaderResult
  bad : Malformed → HeaderResult

unfoldable pub lines_from : List Bytes → PartHeader → HeaderResult
lines_from [] h = if is_empty h.name then bad no_name else header h
lines_from (line ∷ lines) h = elim (add_line line h) [
  | none ↦ bad bad_header
  | some h' ↦ lines_from lines h'
]

unfoldable pub parse_headers : Bytes → HeaderResult
parse_headers block = lines_from (header_lines block) no_header

-- The loops of `multipart_boundary` that trim spaces, no tabs.
unfoldable pub skip_spaces : Bytes → Bytes
skip_spaces [] = []
skip_spaces (c ∷ s) = if c == b' ' then skip_spaces s else c ∷ s

abbrev chopped : ℕ → Bytes → Bytes
chopped c [] = if c == b' ' then [] else c ∷ []
chopped c (d ∷ s) = c ∷ d ∷ s

unfoldable pub chop_spaces : Bytes → Bytes
chop_spaces [] = []
chop_spaces (c ∷ s) = chopped c (chop_spaces s)

-- `value.substr(1, value.size() - 2)` where the value starts and ends with a quote.
abbrev closing : Bytes → Option Bytes
closing [] = none
closing (c ∷ []) = if c == b'"' then some [] else none
closing (c ∷ d ∷ s) = elim (closing (d ∷ s)) [ none ↦ none | some t ↦ some (c ∷ t) ]

unfoldable pub unquote : Bytes → Bytes
unquote [] = []
unquote (c ∷ s) = if c == b'"' then elim (closing s) [ none ↦ c ∷ s | some t ↦ t ] else c ∷ s

abbrev non_empty : Bytes → Option Bytes
non_empty [] = none
non_empty (c ∷ s) = some (c ∷ s)

-- The loop over the parameters: the first named `boundary` decides.
unfoldable pub boundary_from : List Bytes → Option Bytes
boundary_from [] = none
boundary_from (param ∷ params) =
    let later = boundary_from params in
    elim (cut b'=' param).1 [
      | none ↦ later
      | some value ↦
          if beq (map to_lower (chop_spaces (skip_spaces (cut b'=' param).0))) (codes "boundary")
          then non_empty (unquote (chop_spaces (skip_spaces value)))
          else later
    ]

unfoldable pub multipart_boundary : Bytes → Option Bytes
multipart_boundary content_type =
    let (type, rest) = cut b';' content_type in
    if beq (map to_lower (chop_spaces type)) (codes "multipart/form-data")
    then boundary_from (pieces b';' (or_empty rest))
    else none
