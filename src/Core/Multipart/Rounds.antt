-- ===== src/Core/Multipart/Rounds.antt =====
-- core/multipart.hpp: the framing of a body, and the rounds of the loop over it.
use boost_taar.Common.{
  ℕ, zero, suc, ◌*◌, ◌≡◌, refl, ◌∙◌, ap, sym, true, some, List, [], ◌∷◌, ◌++◌, arith, Bytes,
  append_assoc,
}
use boost_taar.Core.PartHeaders.{header, parse_headers, PartHeader}
use boost_taar.Core.Multipart.{
  find_text, Scanner, State, preamble, after_delim, in_data, part_ending, finished, part_end,
  all_parts, part_begin, data_bytes, yields, next_part_ending, next_data, next_headers,
  next_after_delim, next_preamble, next_in, next, Part, append_last, form, parts_from,
}
use boost_taar.Core.Multipart.Found.{find_text-append, find_text_here, strip_prefix_same}

-- The text of a part's headers, and its data.
pub record Block : Type 0 where
  pub head : Bytes
  pub body : Bytes

abbrev pub blank_line : Bytes
blank_line = 13 ∷ 10 ∷ 13 ∷ 10 ∷ []

abbrev pub opening : Bytes → Bytes
opening boundary = b'-' ∷ b'-' ∷ boundary

abbrev pub delimiter : Bytes → Bytes
delimiter boundary = 13 ∷ 10 ∷ opening boundary

-- What stands behind the first delimiter, up to the end of the body.
abbrev pub blocks_text : Bytes → List Block → Bytes → Bytes
blocks_text boundary [] epilogue = b'-' ∷ b'-' ∷ epilogue
blocks_text boundary (b ∷ bs) epilogue =
    13
    ∷ 10
    ∷ (b.head
        ++ (blank_line ++ (b.body ++ (delimiter boundary ++ blocks_text boundary bs epilogue))))

-- The block frames the part: no blank line stands in its head before the one that ends it, the
-- head parses to the header of the part, and no delimiter stands in the data.
pub record Frames (boundary : Bytes) (b : Block) (p : Part) : Type 0 where
  pub head_ends : find_text blank_line (b.head ++ blank_line) ≡ some (b.head, [])
  pub head_parses : parse_headers b.head ≡ header p.part_header
  pub body_ends : find_text (delimiter boundary) (b.body ++ delimiter boundary) ≡ some (b.body, [])
  pub same_body : b.body ≡ p.content

abbrev pub FramesAll : Bytes → List Block → List Part → Type 0
FramesAll boundary [] [] = Unit
FramesAll boundary (b ∷ bs) (p ∷ ps) = Frames boundary b p × FramesAll boundary bs ps
FramesAll boundary _ _ = ⊥

-- The scanner of a whole body, at its end of input.
abbrev pub at : Bytes → Bytes → State → Scanner
at boundary rest state = record {
  first_delim = opening boundary;
  delim = delimiter boundary;
  max_header_size = 16 * 1024;
  rest = rest;
  eof = true;
  state = state;
}

pub find_text_before :
    (n a more : Bytes)
    → find_text n (a ++ n) ≡ some (a, [])
    → find_text n (a ++ (n ++ more)) ≡ some (a, more)
find_text_before n a more e =
    ap (find_text n) (sym (append_assoc a n more)) ∙ find_text-append n (a ++ n) more a [] e

pub next_head :
    (boundary : Bytes) (b : Block) (p : Part) (more : Bytes)
    → Frames boundary b p
    → next (at boundary (13 ∷ 10 ∷ (b.head ++ (blank_line ++ more))) after_delim)
      ≡ yields (part_begin p.part_header) (at boundary more in_data)
unfolding next next_in next_after_delim next_headers
next_head boundary b p more f =
    ground (arith, find_text_before blank_line b.head more f.head_ends, f.head_parses)

pub next_empty :
    (boundary more : Bytes)
    → next (at boundary (delimiter boundary ++ more) in_data)
      ≡ yields part_end (at boundary more after_delim)
unfolding next next_in next_data next_part_ending
next_empty boundary more = ground (
  arith,
  find_text_here (delimiter boundary) (delimiter boundary ++ more) {rest = more}
      (strip_prefix_same (delimiter boundary) more),
)

pub next_body :
    (boundary : Bytes) (c : ℕ) (text more : Bytes)
    → find_text (delimiter boundary) ((c ∷ text) ++ delimiter boundary) ≡ some (c ∷ text, [])
    → next (at boundary ((c ∷ text) ++ (delimiter boundary ++ more)) in_data)
      ≡ yields (data_bytes (c ∷ text)) (at boundary more part_ending)
unfolding next next_in next_data
next_body boundary c text more e =
    ground (arith, find_text_before (delimiter boundary) (c ∷ text) more e)

pub next_end :
    (boundary more : Bytes)
    → next (at boundary more part_ending) ≡ yields part_end (at boundary more after_delim)
unfolding next next_in next_part_ending
next_end boundary more = refl

pub next_close :
    (boundary epilogue : Bytes)
    → next (at boundary (b'-' ∷ b'-' ∷ epilogue) after_delim)
      ≡ yields all_parts (at boundary (b'-' ∷ b'-' ∷ epilogue) finished)
unfolding next next_in next_after_delim
next_close boundary epilogue = ground arith

abbrev pub opened : PartHeader → Part
opened h = record { part_header = h; content = [] }

pub append_last_lem :
    (bytes : Bytes) (acc : List Part) (p : Part)
    → append_last bytes (acc ++ p ∷ []) ≡ acc ++ (record p { content = p.content ++ bytes }) ∷ []
unfolding append_last
append_last_lem bytes [] p = refl
append_last_lem bytes (q ∷ []) p = refl
append_last_lem bytes (q ∷ r ∷ acc) p = ap (◌∷◌ q) (append_last_lem bytes (r ∷ acc) p)

-- A round of the loop, by the event.
pub round_begin :
    (fuel : ℕ) (s s' : Scanner) (parts : List Part) (h : PartHeader)
    → next s ≡ yields (part_begin h) s'
    → parts_from (suc fuel) s parts ≡ parts_from fuel s' (parts ++ opened h ∷ [])
unfolding parts_from
round_begin fuel s s' parts h e = rw (e, parts_from) refl

pub round_data :
    (fuel : ℕ) (s s' : Scanner) (parts : List Part) (bytes : Bytes)
    → next s ≡ yields (data_bytes bytes) s'
    → parts_from (suc fuel) s parts ≡ parts_from fuel s' (append_last bytes parts)
unfolding parts_from
round_data fuel s s' parts bytes e = rw (e, parts_from) refl

pub round_end :
    (fuel : ℕ) (s s' : Scanner) (parts : List Part)
    → next s ≡ yields part_end s'
    → parts_from (suc fuel) s parts ≡ parts_from fuel s' parts
unfolding parts_from
round_end fuel s s' parts e = rw (e, parts_from) refl

pub round_last :
    (fuel : ℕ) (s s' : Scanner) (parts : List Part)
    → next s ≡ yields all_parts s'
    → parts_from (suc fuel) s parts ≡ form parts
unfolding parts_from
round_last fuel s s' parts e = rw (e, parts_from) refl

pub next-opening :
    (boundary preface more : Bytes)
    → find_text (opening boundary) (preface ++ opening boundary) ≡ some (preface, [])
    → next (at boundary (preface ++ (opening boundary ++ more)) preamble)
      ≡ next (at boundary more after_delim)
unfolding next next_in next_preamble
next-opening boundary preface more e =
    ground (arith, find_text_before (opening boundary) preface more e)

pub parts_from-next :
    (fuel : ℕ) (s t : Scanner) (parts : List Part)
    → next s ≡ next t
    → parts_from fuel s parts ≡ parts_from fuel t parts
unfolding parts_from
parts_from-next zero s t parts e = refl
parts_from-next (suc fuel) s t parts e = rw (e, parts_from) refl
