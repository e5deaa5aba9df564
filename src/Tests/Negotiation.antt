-- ===== src/Tests/Negotiation.antt =====
-- Runs of core/entity_tag.hpp and core/accept_encoding.hpp, and instances of their theorems.
use boost_taar.Common.{
  ◌≡◌, refl, true, false, none, some, [], ◌∷◌, ◌++◌, codes, any, pieces, trim, trim_start, trim_end,
  cut, split, iequals,
}
use boost_taar.Core.EntityTag.{
  EntityTag, parse_entity_tag, parse_opaque, scan_opaque, etag_list_matches, list_from, matches,
}
use boost_taar.Core.EntityTag.Printed.{
  tag_text, list_text, parse_entity_tag-tag_text, etag_list_matches-list_text,
}
use boost_taar.Core.AcceptEncoding.{
  parse_qvalue, thousandths_from, accept_encoding_quality, take_elements, take_element,
  read_element, read_params, read_param, same_coding, norm,
}
use boost_taar.Core.AcceptEncoding.Quality.{
  named, starred, or_else, last_given, accept_encoding_quality_lem,
}

abbrev weak_x : EntityTag
weak_x = record { weak = true; opaque_tag = codes "x" }

abbrev strong_y : EntityTag
strong_y = record { weak = false; opaque_tag = codes "y" }

etag_runs :
    (etag_list_matches (codes " W/\"x\" ,, \"y\"") (codes "\"x\"") true ≡ true)
    × (etag_list_matches (codes "W/\"x\", \"y\"") (codes "\"x\"") false ≡ false)
    × (etag_list_matches (codes "\"x\" \"y\"") (codes "\"x\"") false ≡ false)
unfolding etag_list_matches list_from parse_entity_tag parse_opaque scan_opaque trim trim_start
    trim_end
etag_runs = (refl, refl, refl)

parse_entity_tag-tag_text_example :
    parse_entity_tag (tag_text weak_x ++ codes ", rest") ≡ some (weak_x, codes ", rest")
parse_entity_tag-tag_text_example = parse_entity_tag-tag_text weak_x (codes ", rest") (refl, tt)

etag_list_matches-list_text_example :
    etag_list_matches (list_text (weak_x ∷ strong_y ∷ [])) (tag_text strong_y) false
    ≡ any (λ t. matches false t strong_y) (weak_x ∷ strong_y ∷ [])
etag_list_matches-list_text_example =
    etag_list_matches-list_text (weak_x ∷ strong_y ∷ []) strong_y false
      ((refl, tt), ((refl, tt), tt)) (refl, tt)

accept_runs :
    (accept_encoding_quality (codes "br;q=1.0, GZIP; q=0.5 ,*;q=0") (codes "gzip") ≡ some 500)
    × (accept_encoding_quality (codes "br;q=1.0, *;q=0") (codes "gzip") ≡ some 0)
    × (accept_encoding_quality (codes "gzip;q=2, br") (codes "gzip") ≡ none)
unfolding accept_encoding_quality take_elements take_element read_element read_params read_param
    same_coding norm parse_qvalue thousandths_from trim trim_start trim_end cut split pieces iequals
accept_runs = (refl, refl, refl)

accept_encoding_quality_lem_example :
    accept_encoding_quality (codes "br, *;q=0") (codes "gzip")
    ≡ or_else
        (last_given (named (codes "gzip")) (pieces b',' (codes "br, *;q=0")))
        (last_given starred (pieces b',' (codes "br, *;q=0")))
accept_encoding_quality_lem_example = accept_encoding_quality_lem (codes "br, *;q=0") (codes "gzip")
