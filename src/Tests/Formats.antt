-- ===== src/Tests/Formats.antt =====
-- Runs of core/base64.hpp, core/byte_range.hpp and core/cookies.hpp.
use boost_taar.Common.{
  ◌≡◌, ◌+◌, ◌*◌, ◌/◌, refl, none, some, List, [], ◌∷◌, arith, Bytes, codes, All, length, trim,
  split, cut,
}
use boost_taar.Core.Base64.{encode, decode, value, digit, decode_group, decode_groups}
use boost_taar.Core.Base64.RoundTrip.{decode-encode, length-encode}
use boost_taar.Core.ByteRange.{
  ByteRange, satisfiable, unsatisfiable, ignored, parse_range, coalesce_ranges, number, range_specs,
  collect, parse_spec, clip, sort, insert_range, merge, coalesce_sorted,
}
use boost_taar.Core.ByteRange.Parsed.{IsClipped, parse_range-IsClipped}
use boost_taar.Core.ByteRange.Coalesced.{covers, covers-coalesce_ranges}
use boost_taar.Core.Cookies.{
  Items, find, emplace, parse_into, run, step_in, finish, store, success, invalid_cookie_format,
  token_char, unquoted_char, quoted_char, store_empty,
}
use boost_taar.Core.Cookies.Kept.{parse_into-Holds}
use boost_taar.Core.Cookies.RoundTrip.{cookie_header, parse_into-cookie_header, IsPair, store_all}

base64_runs :
    (encode (codes "Many") ≡ codes "TWFueQ==")
    × (decode (codes "TWFueQ==") ≡ some (codes "Many"))
    × (decode (codes "TWFu=Q==") ≡ none)
unfolding encode decode decode_groups decode_group value digit
base64_runs = (refl, refl, refl)

decode-encode_example : decode (encode (255 ∷ 0 ∷ 7 ∷ 200 ∷ [])) ≡ some (255 ∷ 0 ∷ 7 ∷ 200 ∷ [])
decode-encode_example = decode-encode (255 ∷ 0 ∷ 7 ∷ 200 ∷ []) (omega arith)

length-encode_example : length (encode (codes "Many")) ≡ (length (codes "Many") + 2) / 3 * 4
length-encode_example = length-encode (codes "Many")

abbrev two_ranges : List ByteRange
two_ranges = record { first = 0; last = 4 } ∷ record { first = 90; last = 99 } ∷ []

parse_range_runs :
    (parse_range (codes "bytes=0-4, -10") 100 16
      ≡ record { status = satisfiable; ranges = two_ranges })
    × (parse_range (codes "Bytes=200-") 100 16 ≡ record { status = unsatisfiable; ranges = [] })
    × (parse_range (codes "bytes=5-4") 100 16 ≡ record { status = ignored; ranges = [] })
unfolding parse_range range_specs collect parse_spec clip number trim split cut
parse_range_runs = (refl, refl, refl)

parse_range-IsClipped_example : IsClipped 100 16 (parse_range (codes "bytes=0-4, -10") 100 16)
parse_range-IsClipped_example = parse_range-IsClipped (codes "bytes=0-4, -10") 100 16

abbrev touching : List ByteRange
touching =
    record { first = 5; last = 9 }
    ∷ record { first = 0; last = 4 }
    ∷ record { first = 20; last = 30 }
    ∷ []

coalesce_ranges_runs :
    coalesce_ranges touching
    ≡ record { first = 0; last = 9 } ∷ record { first = 20; last = 30 } ∷ []
unfolding coalesce_ranges coalesce_sorted sort insert_range merge
coalesce_ranges_runs = refl

covers-coalesce_ranges_example : covers 7 (coalesce_ranges touching) ≡ covers 7 touching
covers-coalesce_ranges_example = covers-coalesce_ranges 7 touching (omega arith)

abbrev jar : Items
jar = (codes "a", codes "1") ∷ []

cookies_run :
    parse_into some (codes "b=2; a=3; c=\"x y\"") jar
    ≡ ((codes "a", codes "1") ∷ (codes "b", codes "2") ∷ (codes "c", codes "x y") ∷ [], success)
unfolding parse_into run step_in finish store store_empty emplace token_char unquoted_char
    quoted_char
cookies_run = refl

cookies_refused :
    parse_into some (codes "b=2;;") [] ≡ ((codes "b", codes "2") ∷ [], invalid_cookie_format)
unfolding parse_into run step_in finish store store_empty emplace token_char unquoted_char
    quoted_char
cookies_refused = refl

jar-find : find (codes "a") jar ≡ some (codes "1")
unfolding find
jar-find = refl

parse_into-Holds_example :
    find (codes "a") (parse_into some (codes "b=2; a=3") jar).0 ≡ some (codes "1")
parse_into-Holds_example =
    parse_into-Holds (codes "a") (codes "1") some (codes "b=2; a=3") jar jar-find

abbrev sent : List (Bytes × Bytes)
sent = (codes "b", codes "2") ∷ (codes "a", []) ∷ (codes "c", codes "x") ∷ []

abbrev kept : Items
kept = (codes "a", codes "1") ∷ (codes "b", codes "2") ∷ (codes "c", codes "x") ∷ []

sent-IsPair : All IsPair sent
unfolding token_char unquoted_char
sent-IsPair =
    ((cc, (refl, tt), (refl, tt)), ((cc, (refl, tt), tt), ((cc, (refl, tt), (refl, tt)), tt)))

sent_stored : store_all some sent jar ≡ some kept
unfolding store emplace
sent_stored = refl

parse_into-cookie_header_example : parse_into some (cookie_header sent) jar ≡ (kept, success)
parse_into-cookie_header_example =
    parse_into-cookie_header some sent jar {out = kept} refl sent-IsPair sent_stored
