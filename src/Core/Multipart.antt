-- ===== src/Core/Multipart.antt =====
-- core/multipart.hpp: the scanner, `parse_multipart` and `multipart_form`. The scanner's buffer from
-- `pos_` on is `rest`; what stands before it is never read again, and `compact` drops it.
pub mod Found
pub mod Rounds
pub mod Framed
pub mod Views
pub mod Sound
use boost_taar.Common.{
  ℕ, zero, suc, ◌+◌, ◌-◌, ◌*◌, Bool, true, false, Option, none, some, List, [], ◌∷◌, ◌++◌, ◌==◌,
  if◌then◌else◌, ltb, length, take, drop, Bytes, codes, beq, strip_prefix,
}
use boost_taar.Core.PartHeaders.{
  PartHeader, is_file, Malformed, no_opening, truncated_after_boundary, unexpected_bytes,
  headers_too_large, headers_truncated, no_closing, HeaderResult, header, bad, parse_headers,
}

abbrev before : ℕ → Option (Bytes × Bytes) → Option (Bytes × Bytes)
before c none = none
before c (some (a, b)) = some (c ∷ a, b)

-- `find`: the text before the first occurrence of the needle, and the text behind it.
unfoldable pub find_text : Bytes → Bytes → Option (Bytes × Bytes)
find_text needle [] = elim (strip_prefix needle []) [ none ↦ none | some rest ↦ some ([], rest) ]
find_text needle (c ∷ s) =
    let later = before c (find_text needle s) in
    elim (strip_prefix needle (c ∷ s)) [ none ↦ later | some rest ↦ some ([], rest) ]

pub data State : Type 0 where
  preamble after_delim in_headers in_data part_ending finished : State

pub record Scanner : Type 0 where
  pub first_delim : Bytes
  pub delim : Bytes
  pub max_header_size : ℕ
  pub rest : Bytes
  pub eof : Bool
  pub state : State

abbrev pub scanner : Bytes → ℕ → Scanner
scanner boundary max_header_size = record {
  first_delim = codes "--" ++ boundary;
  delim = 13 ∷ 10 ∷ (codes "--" ++ boundary);
  max_header_size = max_header_size;
  rest = [];
  eof = false;
  state = preamble;
}

unfoldable pub feed : Bytes → Scanner → Scanner
feed bytes s = record s { rest = s.rest ++ bytes }

unfoldable pub finish : Scanner → Scanner
finish s = record s { eof = true }

pub data Event : Type 0 where
  need_more part_end all_parts : Event
  part_begin : PartHeader → Event
  data_bytes : Bytes → Event

-- What `next` does: it throws, or returns an event and leaves a scanner.
pub data Next : Type 0 where
  malformed : Malformed → Next
  yields : Event → Scanner → Next

-- The case `part_ending`.
unfoldable pub next_part_ending : Scanner → Next
next_part_ending s = yields part_end (record s { state = after_delim })

-- The case `data`.
unfoldable pub next_data : Scanner → Next
next_data s = elim (find_text s.delim s.rest) [
  | some found ↦
      let ending = record s { rest = found.1; state = part_ending } in
      elim found.0 [
        | [] ↦ next_part_ending ending
        | c ∷ text ↦ yields (data_bytes (c ∷ text)) ending
      ]
  | none ↦
      let hold = length s.delim - 1 in
      let sent = length s.rest - hold in
      if s.eof
      then malformed no_closing
      else if ltb hold (length s.rest)
      then yields (data_bytes (take sent s.rest)) (record s { rest = drop sent s.rest })
      else yields need_more s
]

-- The case `headers`.
unfoldable pub next_headers : Scanner → Next
next_headers s = elim (find_text (13 ∷ 10 ∷ 13 ∷ 10 ∷ []) s.rest) [
  | some found ↦ elim (parse_headers found.0) [
    | header h ↦ yields (part_begin h) (record s { rest = found.1; state = in_data })
    | bad why ↦ malformed why
  ]
  | none ↦
      if ltb s.max_header_size (length s.rest)
      then malformed headers_too_large
      else if s.eof
      then malformed headers_truncated
      else yields need_more s
]

-- The case `after_delim`.
unfoldable pub next_after_delim : Scanner → Next
next_after_delim s =
    if ltb (length s.rest) 2
    then if s.eof then malformed truncated_after_boundary else yields need_more s
    else if beq (take 2 s.rest) (codes "--")
    then yields all_parts (record s { state = finished })
    else if beq (take 2 s.rest) (13 ∷ 10 ∷ [])
    then next_headers (record s { rest = drop 2 s.rest; state = in_headers })
    else malformed unexpected_bytes

-- The case `preamble`: it keeps the tail that could be the start of the delimiter.
unfoldable pub next_preamble : Scanner → Next
next_preamble s = elim (find_text s.first_delim s.rest) [
  | some found ↦ next_after_delim (record s { rest = found.1; state = after_delim })
  | none ↦
      if s.eof
      then malformed no_opening
      else yields need_more (record s { rest = drop (length s.rest - length s.first_delim) s.rest })
]

unfoldable pub next_in : State → Scanner → Next
next_in preamble s = next_preamble s
next_in after_delim s = next_after_delim s
next_in in_headers s = next_headers s
next_in in_data s = next_data s
next_in part_ending s = next_part_ending s
next_in finished s = yields all_parts s

unfoldable pub next : Scanner → Next
next s = next_in s.state s

pub record Part : Type 0 where
  pub part_header : PartHeader
  pub content : Bytes

-- `form.parts.back().data.append`: the scanner yields data only behind a `part_begin`.
unfoldable pub append_last : Bytes → List Part → List Part
append_last bytes [] = []
append_last bytes (p ∷ []) = (record p { content = p.content ++ bytes }) ∷ []
append_last bytes (p ∷ q ∷ ps) = p ∷ append_last bytes (q ∷ ps)

-- The result of `parse_multipart`; `need_more` throws too. The loop runs on fuel.
pub data Form : Type 0 where
  form : List Part → Form
  rejected : Malformed → Form
  unfinished out_of_fuel : Form

unfoldable pub parts_from : ℕ → Scanner → List Part → Form
parts_from zero s parts = out_of_fuel
parts_from (suc fuel) s parts = elim (next s) [
  | malformed why ↦ rejected why
  | yields event s' ↦ elim event [
    | part_begin h ↦ parts_from fuel s' (parts ++ (record { part_header = h; content = [] }) ∷ [])
    | data_bytes bytes ↦ parts_from fuel s' (append_last bytes parts)
    | part_end ↦ parts_from fuel s' parts
    | all_parts ↦ form parts
    | need_more ↦ unfinished
  ]
]

-- The fuel that parse_multipart has for a body.
abbrev pub fuel_for : Bytes → ℕ
fuel_for body = suc (2 * length body + 1)

unfoldable pub parse_multipart : Bytes → Bytes → Form
parse_multipart body boundary =
    parts_from (fuel_for body) (finish (feed body (scanner boundary (16 * 1024)))) []

-- `multipart_form::find`, `value` and `files`.
unfoldable pub find_part : Bytes → List Part → Option Part
find_part name [] = none
find_part name (p ∷ parts) = if beq p.part_header.name name then some p else find_part name parts

unfoldable pub part_value : Bytes → List Part → Option Bytes
part_value name parts = elim (find_part name parts) [ none ↦ none | some p ↦ some p.content ]

unfoldable pub files : List Part → List Part
files [] = []
files (p ∷ parts) = if is_file p.part_header then p ∷ files parts else files parts
