-- ===== src/Core/Multipart/Views.antt =====
-- core/multipart.hpp: the cases of the scanner at the end of its input.
use boost_taar.Common.{
  ◌*◌, ◌≡◌, refl, ap, sym, some, [], ◌∷◌, ◌++◌, arith, length, Bytes, codes, ltb, beq, beq_iff,
  Option-cases, Bool-cases, inl, inr, ◌⊎◌,
}
use mathlib.Core.Path.{subst}
use boost_taar.Core.PartHeaders.{
  HeaderResult, header, bad, parse_headers, PartHeader, Malformed, headers_too_large,
  headers_truncated, no_closing, truncated_after_boundary, unexpected_bytes,
}
use boost_taar.Core.Multipart.{
  find_text, after_delim, in_data, part_begin, malformed, yields, next_data, next_headers,
  next_after_delim, next_in, next,
}
use boost_taar.Core.Multipart.Found.{find_text_split, find_text_alone}
use boost_taar.Core.Multipart.Rounds.{blank_line, delimiter, at}

-- What the scanner does behind a delimiter, at the end of the input.
pub data AfterDelim (boundary rest : Bytes) : Type 0 where
  refuses :
      (why : Malformed)
      → next (at boundary rest after_delim) ≡ malformed why
      → AfterDelim boundary rest
  closes : (epilogue : Bytes) → rest ≡ b'-' ∷ b'-' ∷ epilogue → AfterDelim boundary rest
  opens :
      (head more : Bytes) (h : PartHeader)
      → rest ≡ 13 ∷ 10 ∷ (head ++ (blank_line ++ more))
      → find_text blank_line (head ++ blank_line) ≡ some (head, [])
      → parse_headers head ≡ header h
      → next (at boundary rest after_delim) ≡ yields (part_begin h) (at boundary more in_data)
      → AfterDelim boundary rest

header_cases :
    (block : Bytes)
    → ((h : PartHeader) × (parse_headers block ≡ header h))
      ⊎ ((why : Malformed) × (parse_headers block ≡ bad why))
header_cases block = split_result (parse_headers block) refl
  where
    split_result :
        (r : HeaderResult)
        → parse_headers block ≡ r
        → ((h : PartHeader) × (parse_headers block ≡ header h))
          ⊎ ((why : Malformed) × (parse_headers block ≡ bad why))
    split_result (header h) e = inl (h, e)
    split_result (bad why) e = inr (why, e)

behind_crlf : (boundary s : Bytes) → AfterDelim boundary (13 ∷ 10 ∷ s)
unfolding next next_in next_after_delim next_headers
behind_crlf boundary s = elim (Option-cases (find_text blank_line s)) [
  | inl k ↦ elim (Bool-cases (ltb (16 * 1024) (length s))) [
    | inl l ↦ refuses headers_too_large (ground (arith, k))
    | inr l ↦ refuses headers_truncated (ground (arith, k))
  ]
  | inr (p, k) ↦ elim (header_cases p.0) [
    | inr (why, m) ↦ refuses why (ground (arith, k, m))
    | inl (h, m) ↦
        opens p.0 p.1 h (ap (λ t. 13 ∷ 10 ∷ t) (find_text_split blank_line s p.0 p.1 k))
          (find_text_alone blank_line s p.0 p.1 k) m (ground (arith, k, m))
  ]
]

pub AfterDelim-cases : (boundary rest : Bytes) → AfterDelim boundary rest
unfolding next next_in next_after_delim
AfterDelim-cases boundary [] = refuses truncated_after_boundary (ground arith)
AfterDelim-cases boundary (c ∷ []) = refuses truncated_after_boundary (ground arith)
AfterDelim-cases boundary (c ∷ d ∷ s) = elim (Bool-cases (beq (c ∷ d ∷ []) (codes "--"))) [
  | inl k ↦ closes s (ap (λ t. t ++ s) ((beq_iff (c ∷ d ∷ []) (codes "--")).0 k))
  | inr k ↦ elim (Bool-cases (beq (c ∷ d ∷ []) (13 ∷ 10 ∷ []))) [
    | inl l ↦
        subst (AfterDelim boundary)
          (sym (ap (λ t. t ++ s) ((beq_iff (c ∷ d ∷ []) (13 ∷ 10 ∷ [])).0 l)))
          (behind_crlf boundary s)
    | inr l ↦ refuses unexpected_bytes (ground (arith, k, l))
  ]
]

-- What the scanner does with the data of a part.
pub data InData (boundary rest : Bytes) : Type 0 where
  unclosed : next (at boundary rest in_data) ≡ malformed no_closing → InData boundary rest
  delimited :
      (body more : Bytes)
      → rest ≡ body ++ (delimiter boundary ++ more)
      → find_text (delimiter boundary) (body ++ delimiter boundary) ≡ some (body, [])
      → InData boundary rest

pub InData-cases : (boundary rest : Bytes) → InData boundary rest
unfolding next next_in next_data
InData-cases boundary rest = elim (Option-cases (find_text (delimiter boundary) rest)) [
  | inl k ↦ unclosed (ground (arith, k))
  | inr (p, k) ↦
      delimited p.0 p.1 (find_text_split _ rest p.0 p.1 k) (find_text_alone _ rest p.0 p.1 k)
]
