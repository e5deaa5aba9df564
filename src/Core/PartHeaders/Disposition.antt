-- ===== src/Core/PartHeaders/Disposition.antt =====
-- core/multipart.hpp: `parse_disposition` ends, and reads back what a client prints.
use boost_taar.Common.{
  ℕ, zero, suc, ◌≤◌, ◌<◌, ◌≡◌, refl, ◌∙◌, ap, true, false, ◌||◌, Option, none, some, [], ◌∷◌, ◌++◌,
  arith, ◌==◌, length, is_empty, Bytes, codes, Option-cases, Bool-cases, inl, inr, cut, trim,
  length-trim, trim_space, trim-ink, trim_start, trim_end, EndsInk, EndsInk-append, if◌then◌else◌,
  iequals,
}
use boost_taar.Core.PartHeaders.{
  PartHeader, after_semicolon, quoted, read_value, set_param, disposition_from, or_kept,
  parse_disposition,
}

length-cut : (sep : ℕ) (s after : Bytes) → (cut sep s).1 ≡ some after → length after < length s
unfolding cut
length-cut sep [] after e = ground arith
length-cut sep (c ∷ s) after e = ground (arith, length-cut sep s after)

length-after_semicolon : (s : Bytes) → length (after_semicolon s) ≤ length s
unfolding after_semicolon
length-after_semicolon s = elim (Option-cases (cut b';' s).1) [
  | inl e ↦ rw (e, after_semicolon) (omega arith)
  | inr (t, e) ↦ rw (e, after_semicolon) (omega (arith, length-cut b';' s t e))
]

length-quoted : (s : Bytes) → length (quoted s).1 ≤ length s
unfolding quoted
length-quoted [] = omega arith
length-quoted (c ∷ []) = ground arith
length-quoted (c ∷ d ∷ s) = ground (arith, length-quoted s, length-quoted (d ∷ s))

length-read_value : (s : Bytes) → length (read_value s).1 ≤ length s
unfolding read_value
length-read_value [] = omega arith
length-read_value (c ∷ s) =
    ground
      (arith, length-quoted s, length-after_semicolon (quoted s).1, length-after_semicolon (c ∷ s))

-- The loop over the parameters of a Content-Disposition ends with a header: fuel above the length
-- of the text is enough.
pub disposition_from_total :
    (fuel : ℕ) (rest : Bytes) (h : PartHeader)
    → length rest < fuel
    → (h' : PartHeader) × (disposition_from fuel rest h ≡ some h')
unfolding disposition_from
disposition_from_total zero rest h lt = absurd (omega arith)
disposition_from_total (suc fuel) [] h lt = (h, refl)
disposition_from_total (suc fuel) (c ∷ s) h lt = elim (Option-cases (cut b'=' (trim (c ∷ s))).1) [
  | inl e ↦ (h, rw (e, disposition_from) refl)
  | inr (after, e) ↦
      rw (e, disposition_from)
        (disposition_from_total fuel _ _ (
          omega (
            arith,
            length-read_value after,
            length-cut b'=' (trim (c ∷ s)) after e,
            length-trim (c ∷ s),
          )))
]

-- A text between quotes, with a backslash before each quote and each backslash.
abbrev pub escape : Bytes → Bytes
escape [] = []
escape (c ∷ s) = if c == b'"' || c == b'\\' then b'\\' ∷ c ∷ escape s else c ∷ escape s

quoted_plain :
    (c : ℕ) (t rest : Bytes)
    → (c == b'"' || c == b'\\') ≡ false
    → quoted (c ∷ (t ++ (b'"' ∷ rest)))
      ≡ (c ∷ (quoted (t ++ (b'"' ∷ rest))).0, (quoted (t ++ (b'"' ∷ rest))).1)
unfolding quoted
quoted_plain c [] rest e = ground arith
quoted_plain c (d ∷ t) rest e = ground arith

quoted-escape : (s rest : Bytes) → quoted (escape s ++ (b'"' ∷ rest)) ≡ (s, rest)
unfolding quoted
quoted-escape [] [] = refl
quoted-escape [] (d ∷ rest) = refl
quoted-escape (c ∷ s) rest = elim (Bool-cases (c == b'"' || c == b'\\')) [
  | inl e ↦ rw e (escaped (quoted-escape s rest) e)
  | inr e ↦
      rw e (quoted_plain c (escape s) rest e ∙ ap (λ p. (c ∷ p.0, p.1)) (quoted-escape s rest))
]
  where
    escaped :
        quoted (escape s ++ (b'"' ∷ rest)) ≡ (s, rest)
        → (c == b'"' || c == b'\\') ≡ true
        → quoted (b'\\' ∷ c ∷ (escape s ++ (b'"' ∷ rest))) ≡ (c ∷ s, rest)
    escaped ih e = ap (λ p. (c ∷ p.0, p.1)) ih

-- A quoted text in front of another.
abbrev pub quoted_before : Bytes → Bytes → Bytes
quoted_before s more = b'"' ∷ (escape s ++ (b'"' ∷ more))

abbrev pub name_text : Bytes → Bytes → Bytes
name_text name more = codes " name=" ++ quoted_before name more

abbrev pub file_text : Bytes → Bytes
file_text f = codes " filename=" ++ quoted_before f []

-- A Content-Disposition as a client prints it.
abbrev pub disposition_text : Bytes → Option Bytes → Bytes
disposition_text name none = codes "form-data;" ++ name_text name []
disposition_text name (some f) = codes "form-data;" ++ name_text name (b';' ∷ file_text f)

abbrev pub with_file : Option Bytes → PartHeader → PartHeader
with_file none h = h
with_file (some f) h = record h { filename = some f }

read_value-quoted : (s more : Bytes) → read_value (quoted_before s more) ≡ (s, after_semicolon more)
unfolding read_value
read_value-quoted s more = ap (λ p. (p.0, after_semicolon p.1)) (quoted-escape s more)

round_read :
    (fuel : ℕ) (rest key value more : Bytes) (h : PartHeader)
    → is_empty rest ≡ false
    → cut b'=' (trim rest) ≡ (key, some (quoted_before value more))
    → disposition_from (suc fuel) rest h
      ≡ disposition_from fuel (after_semicolon more) (set_param (trim key) value h)
unfolding disposition_from
round_read fuel rest key value more h k e =
    rw (k, ap (λ p. p.1) e, disposition_from)
      (rw (ap (λ p. p.0) e) (rw (read_value-quoted value more) refl))

ends_quoted : (f : Bytes) → EndsInk (quoted_before f [])
ends_quoted f = EndsInk-append (b'"' ∷ escape f) b'"' [] refl

cut_file :
    (f : Bytes) → cut b'=' (trim (file_text f)) ≡ (codes "filename", some (quoted_before f []))
unfolding cut
cut_file f = ap (cut b'=') (
    trim_space b' ' (codes "filename=" ++ quoted_before f []) refl
    ∙ trim-ink (codes "filename=" ++ quoted_before f []) refl (ends_quoted f))

cut_name :
    (name more : Bytes)
    → EndsInk (quoted_before name more)
    → cut b'=' (trim (name_text name more)) ≡ (codes "name", some (quoted_before name more))
unfolding cut
cut_name name more k = ap (cut b'=') (
    trim_space b' ' (codes "name=" ++ quoted_before name more) refl
    ∙ trim-ink (codes "name=" ++ quoted_before name more) refl k)

read_file :
    (fuel : ℕ) (f : Bytes) (h : PartHeader)
    → disposition_from (suc (suc fuel)) (file_text f) h ≡ some (record h { filename = some f })
unfolding disposition_from set_param after_semicolon cut trim trim_start trim_end iequals
read_file fuel f h = round_read (suc fuel) (file_text f) (codes "filename") f [] h refl (cut_file f)

-- Whatever bytes a name and a file name have, the Content-Disposition that quotes them is read back
-- to exactly this name and file name.
pub parse_disposition-disposition_text :
    (name : Bytes) (file : Option Bytes) (h : PartHeader)
    → parse_disposition (disposition_text name file) h ≡ with_file file (record h { name = name })
unfolding parse_disposition disposition_from set_param after_semicolon cut trim trim_start trim_end
    iequals
parse_disposition-disposition_text name none h = ap (or_kept h) (
    round_read (length (name_text name [])) (name_text name []) (codes "name") name [] h refl
      (cut_name name [] (ends_quoted name)))
parse_disposition-disposition_text name (some f) h = ap (or_kept h) (
    round_read (length (name_text name (b';' ∷ file_text f))) (name_text name (b';' ∷ file_text f))
      (codes "name") name (b';' ∷ file_text f) h refl (cut_name name (b';' ∷ file_text f) ends)
    ∙ read_file (suc (suc (suc (suc (length (quoted_before name (b';' ∷ file_text f))))))) f
        (record h { name = name }))
  where
    ends : EndsInk (quoted_before name (b';' ∷ file_text f))
    ends = EndsInk-append (b'"' ∷ escape name) b'"' (b';' ∷ file_text f) (ends_quoted f)
