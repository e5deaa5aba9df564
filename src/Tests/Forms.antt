-- ===== src/Tests/Forms.antt =====
-- Runs of core/multipart.hpp, and instances of its theorems.
use boost_taar.Common.{
  ◌≡◌, refl, none, some, [], ◌∷◌, ◌++◌, codes, cut, trim, trim_start, trim_end, iequals, pieces,
}
use boost_taar.Core.PartHeaders.{
  no_header, multipart_boundary, boundary_from, skip_spaces, chop_spaces, unquote, parse_headers,
  header_lines, lines_from, add_line, parse_disposition, disposition_from, read_value, quoted,
  set_param, after_semicolon, no_closing,
}
use boost_taar.Core.PartHeaders.Disposition.{
  disposition_text, with_file, parse_disposition-disposition_text,
}
use boost_taar.Core.Multipart.{
  parse_multipart, Part, form, rejected, parts_from, next, next_in, next_preamble, next_after_delim,
  next_headers, next_data, next_part_ending, feed, finish, find_text, append_last,
}
use boost_taar.Core.Multipart.Rounds.{Block, FramesAll, opening, blocks_text}
use boost_taar.Core.Multipart.Framed.{parse_multipart-framed}
use boost_taar.Core.Multipart.Sound.{Verdict, parse_multipart_lem}

boundary_runs :
    (multipart_boundary (codes "Multipart/Form-Data ; boundary=\"a b\"") ≡ some (codes "a b"))
    × (multipart_boundary (codes "multipart/form-data; charset=x; Boundary = q ")
        ≡ some (codes "q"))
    × (multipart_boundary (codes "text/plain; boundary=q") ≡ none)
unfolding multipart_boundary boundary_from skip_spaces chop_spaces unquote cut pieces
boundary_runs = (refl, refl, refl)

abbrev field_block : Block
field_block = record {
  head = codes "Content-Disposition: form-data; name=\"a\"";
  body = codes "hi";
}

abbrev field_part : Part
field_part = record {
  part_header = record {
    name = codes "a";
    filename = none;
    content_type = [];
    headers = (codes "Content-Disposition", codes "form-data; name=\"a\"") ∷ [];
  };
  content = codes "hi";
}

field_frames : FramesAll (codes "B") (field_block ∷ field_block ∷ []) (field_part ∷ field_part ∷ [])
unfolding parse_headers header_lines lines_from add_line parse_disposition disposition_from
    read_value quoted set_param after_semicolon cut trim trim_start trim_end iequals find_text
field_frames = (
  record { head_ends = refl; head_parses = refl; body_ends = refl; same_body = refl },
  (record { head_ends = refl; head_parses = refl; body_ends = refl; same_body = refl }, tt),
)

preface_free :
    find_text (opening (codes "B")) (codes "x-" ++ opening (codes "B")) ≡ some (codes "x-", [])
unfolding find_text
preface_free = refl

parse_multipart-framed_example :
    parse_multipart
      (codes "x-"
        ++ (opening (codes "B")
            ++ blocks_text (codes "B") (field_block ∷ field_block ∷ []) (codes "!")))
      (codes "B")
    ≡ form (field_part ∷ field_part ∷ [])
parse_multipart-framed_example =
    parse_multipart-framed (codes "B") (codes "x-") (field_block ∷ field_block ∷ [])
      (field_part ∷ field_part ∷ []) (codes "!") preface_free field_frames

truncated_runs :
    parse_multipart
      (codes "--B\r\nContent-Disposition: form-data; name=\"a\"\r\n\r\nhi")
      (codes "B")
    ≡ rejected no_closing
unfolding parse_multipart parts_from next next_in next_preamble next_after_delim next_headers
    next_data next_part_ending feed finish append_last parse_headers header_lines lines_from
    add_line parse_disposition disposition_from read_value quoted set_param after_semicolon cut trim
    trim_start trim_end iequals find_text
truncated_runs = refl

parse_multipart_lem_example : Verdict (codes "--B\r\n\r\n\r\n--B--") (codes "B")
parse_multipart_lem_example = parse_multipart_lem (codes "--B\r\n\r\n\r\n--B--") (codes "B")

parse_disposition-disposition_text_example :
    parse_disposition (disposition_text (codes "a\"b") (some (codes "c\\d;e"))) no_header
    ≡ with_file (some (codes "c\\d;e")) (record no_header { name = codes "a\"b" })
parse_disposition-disposition_text_example =
    parse_disposition-disposition_text (codes "a\"b") (some (codes "c\\d;e")) no_header
