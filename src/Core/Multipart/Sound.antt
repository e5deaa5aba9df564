-- ===== src/Core/Multipart/Sound.antt =====
-- core/multipart.hpp: `parse_multipart` either names what is malformed or takes the body apart.
use boost_taar.Common.{
  ℕ, zero, suc, ◌+◌, ◌≤◌, ◌≡◌, refl, ◌∙◌, ap, sym, none, some, List, [], ◌∷◌, ◌++◌, arith, length,
  length-append, Bytes, append-nil, append_assoc, Option-cases, inl, inr, ◌⊎◌,
}
use mathlib.Core.Path.{subst}
use boost_taar.Core.PartHeaders.{
  header, parse_headers, PartHeader, Malformed, no_closing, no_opening,
}
use boost_taar.Core.Multipart.{
  find_text, Scanner, preamble, after_delim, in_data, feed, finish, malformed, next_preamble,
  next_in, next, Part, Form, form, rejected, parts_from, fuel_for, parse_multipart,
}
use boost_taar.Core.Multipart.Found.{find_text_split, find_text_alone}
use boost_taar.Core.Multipart.Framed.{filled, parts_from-body}
use boost_taar.Core.Multipart.Rounds.{
  Block, blank_line, opening, delimiter, blocks_text, FramesAll, at, next_close, opened,
  round_begin, round_last, next-opening, parts_from-next,
}
use boost_taar.Core.Multipart.Views.{
  refuses, closes, opens, AfterDelim-cases, unclosed, delimited, InData-cases,
}

-- What the loop returns for the text behind a delimiter, with the parts so far.
data Outcome (boundary rest : Bytes) (acc : List Part) (result : Form) : Type 0 where
  refused : (why : Malformed) → result ≡ rejected why → Outcome boundary rest acc result
  taken :
      (bs : List Block) (ps : List Part) (epilogue : Bytes)
      → rest ≡ blocks_text boundary bs epilogue
      → FramesAll boundary bs ps
      → result ≡ form (acc ++ ps)
      → Outcome boundary rest acc result

round_malformed :
    (fuel : ℕ) (s : Scanner) (parts : List Part) (why : Malformed)
    → next s ≡ malformed why
    → parts_from (suc fuel) s parts ≡ rejected why
unfolding parts_from
round_malformed fuel s parts why e = rw (e, parts_from) refl

-- A part in front of an outcome.
Outcome-cons :
    (boundary rest head body more : Bytes) (h : PartHeader) (acc : List Part) (result : Form)
    → rest ≡ 13 ∷ 10 ∷ (head ++ (blank_line ++ (body ++ (delimiter boundary ++ more))))
    → find_text blank_line (head ++ blank_line) ≡ some (head, [])
    → parse_headers head ≡ header h
    → find_text (delimiter boundary) (body ++ delimiter boundary) ≡ some (body, [])
    → Outcome boundary more (acc ++ filled h body ∷ []) result
    → Outcome boundary rest acc result
Outcome-cons boundary rest head body more h acc result e he hp be (refused why m) = refused why m
Outcome-cons boundary rest head body more h acc result e he hp be (taken bs ps epilogue m f l) =
    taken (record { head = head; body = body } ∷ bs) (filled h body ∷ ps) epilogue
      (e ∙ ap (λ t. 13 ∷ 10 ∷ (head ++ (blank_line ++ (body ++ (delimiter boundary ++ t))))) m)
      (record { head_ends = he; head_parses = hp; body_ends = be; same_body = refl }, f)
      (l ∙ ap form (append_assoc acc (filled h body ∷ []) ps))

-- The outcome at this fuel, whatever the text and the parts so far.
abbrev Decided : Bytes → ℕ → Type 0
Decided boundary fuel =
    (rest : Bytes) (acc : List Part)
    → length rest + 1 ≤ fuel
    → Outcome boundary rest acc (parts_from fuel (at boundary rest after_delim) acc)

-- The data of a part, then the rest by the outcomes at smaller fuel.
data-Outcome :
    (n : ℕ) (boundary rest head more : Bytes) (h : PartHeader) (acc : List Part)
    → Decided boundary n
    → Decided boundary (suc n)
    → rest ≡ 13 ∷ 10 ∷ (head ++ (blank_line ++ more))
    → find_text blank_line (head ++ blank_line) ≡ some (head, [])
    → parse_headers head ≡ header h
    → length more + 2 ≤ n
    → Outcome boundary rest acc
        (parts_from (suc (suc n)) (at boundary more in_data) (acc ++ opened h ∷ []))
data-Outcome n boundary rest head more h acc ih0 ih1 e he hp le =
    elim (InData-cases boundary more) [
      | unclosed k ↦ refused no_closing (round_malformed (suc n) _ _ no_closing k)
      | delimited body left k be ↦
          let (m, which, round) = parts_from-body n boundary body left acc h be in
          let decided = later body left k m which (acc ++ filled h body ∷ []) in
          Outcome-cons boundary rest head body left h acc _
            (e ∙ ap (λ t. 13 ∷ 10 ∷ (head ++ (blank_line ++ t))) k) he hp be
            (subst (Outcome boundary left (acc ++ filled h body ∷ []))
              (sym round ∙ sym (at_more body left k)) decided)
    ]
  where
    at_more :
        (body left : Bytes)
        → more ≡ body ++ (delimiter boundary ++ left)
        → parts_from (suc (suc n)) (at boundary more in_data) (acc ++ opened h ∷ [])
          ≡ parts_from
              (suc (suc n))
              (at boundary (body ++ (delimiter boundary ++ left)) in_data)
              (acc ++ opened h ∷ [])
    at_more body left k =
        ap (λ t. parts_from (suc (suc n)) (at boundary t in_data) (acc ++ opened h ∷ [])) k

    left_length :
        (body left : Bytes)
        → more ≡ body ++ (delimiter boundary ++ left)
        → length left ≤ length more
    left_length body left k =
        rw (k, length-append body (delimiter boundary ++ left), length-append boundary left)
          (omega arith)

    later :
        (body left : Bytes)
        → more ≡ body ++ (delimiter boundary ++ left)
        → (m : ℕ) → ((m ≡ n) ⊎ (m ≡ suc n))
        → (acc' : List Part)
        → Outcome boundary left acc' (parts_from m (at boundary left after_delim) acc')
    later body left k m (inl e) acc' = rw e (ih0 left acc' (omega (arith, left_length body left k)))
    later body left k m (inr e) acc' = rw e (ih1 left acc' (omega (arith, left_length body left k)))

-- The text behind a delimiter, by the outcome where it opens a part.
delim-Outcome :
    (fuel : ℕ) (boundary rest : Bytes) (acc : List Part)
    → ((head more : Bytes) (h : PartHeader)
        → rest ≡ 13 ∷ 10 ∷ (head ++ (blank_line ++ more))
        → find_text blank_line (head ++ blank_line) ≡ some (head, [])
        → parse_headers head ≡ header h
        → Outcome boundary rest acc
            (parts_from fuel (at boundary more in_data) (acc ++ opened h ∷ [])))
    → Outcome boundary rest acc (parts_from (suc fuel) (at boundary rest after_delim) acc)
delim-Outcome fuel boundary rest acc open_part = elim (AfterDelim-cases boundary rest) [
  | refuses why e ↦ refused why (round_malformed fuel _ _ why e)
  | closes epilogue e ↦ taken [] [] epilogue e tt (
      ap (λ r. parts_from (suc fuel) (at boundary r after_delim) acc) e
      ∙ round_last fuel _ _ acc (next_close boundary epilogue)
      ∙ ap form (sym (append-nil acc)))
  | opens head more h e he hp k ↦
      subst (Outcome boundary rest acc) (sym (round_begin fuel _ _ acc h k))
        (open_part head more h e he hp)
]

opened_length :
    (rest head more : Bytes)
    → rest ≡ 13 ∷ 10 ∷ (head ++ (blank_line ++ more))
    → length more + 6 ≤ length rest
opened_length rest head more e = rw (e, length-append head (blank_line ++ more)) (omega arith)

outcome : (fuel : ℕ) (boundary : Bytes) → Decided boundary fuel
outcome zero boundary rest acc le = absurd (omega arith)
outcome (suc zero) boundary rest acc le =
    delim-Outcome zero boundary rest acc
      (λ head more h e he hp. absurd (omega (arith, opened_length rest head more e)))
outcome (suc (suc zero)) boundary rest acc le =
    delim-Outcome 1 boundary rest acc
      (λ head more h e he hp. absurd (omega (arith, opened_length rest head more e)))
outcome (suc (suc (suc n))) boundary rest acc le =
    delim-Outcome (suc (suc n)) boundary rest acc (λ head more h e he hp.
      data-Outcome n boundary rest head more h acc (outcome n boundary) (outcome (suc n) boundary) e
        he hp (omega (arith, opened_length rest head more e)))

-- What `parse_multipart` does with a body: it throws, or the body is a preface with no boundary in
-- it, then blocks that frame the parts returned, then an epilogue.
pub data Verdict (body boundary : Bytes) : Type 0 where
  refuses_body :
      (why : Malformed) → parse_multipart body boundary ≡ rejected why → Verdict body boundary
  takes_apart :
      (preface : Bytes) (bs : List Block) (ps : List Part) (epilogue : Bytes)
      → body ≡ preface ++ (opening boundary ++ blocks_text boundary bs epilogue)
      → find_text (opening boundary) (preface ++ opening boundary) ≡ some (preface, [])
      → FramesAll boundary bs ps
      → parse_multipart body boundary ≡ form ps
      → Verdict body boundary

first_boundary :
    (boundary preface more : Bytes)
    → Outcome boundary more [] (
        parts_from
          (fuel_for (preface ++ (opening boundary ++ more)))
          (at boundary more after_delim)
          [])
first_boundary boundary preface more =
    outcome (fuel_for (preface ++ (opening boundary ++ more))) boundary more []
      (omega (arith, length-append preface (opening boundary ++ more), length-append boundary more))

next_unopened :
    (boundary body : Bytes)
    → find_text (opening boundary) body ≡ none
    → next (at boundary body preamble) ≡ malformed no_opening
unfolding next next_in next_preamble
next_unopened boundary body e = ground (arith, e)

-- Behind the first boundary, the verdict is the outcome.
opened-Verdict :
    (boundary preface more : Bytes)
    → find_text (opening boundary) (preface ++ opening boundary) ≡ some (preface, [])
    → Verdict (preface ++ (opening boundary ++ more)) boundary
unfolding parse_multipart feed finish
opened-Verdict boundary preface more e =
    let body = preface ++ (opening boundary ++ more) in
    let first = parts_from-next (fuel_for body) _ _ [] (next-opening boundary preface more e) in
    elim (first_boundary boundary preface more) [
      | refused why k ↦ refuses_body why (first ∙ k)
      | taken bs ps epilogue k f l ↦
          takes_apart preface bs ps epilogue (ap (λ t. preface ++ (opening boundary ++ t)) k) e f
            (first ∙ l)
    ]

-- For every body and boundary, `parse_multipart` comes to an end. It rejects the body with a
-- message, or the body is a preface without the boundary, then blocks separated by delimiters,
-- then an epilogue, and the parts returned are those that the blocks frame.
pub parse_multipart_lem : (body boundary : Bytes) → Verdict body boundary
unfolding parse_multipart feed finish
parse_multipart_lem body boundary = elim (Option-cases (find_text (opening boundary) body)) [
  | inl e ↦
      refuses_body no_opening (round_malformed _ _ _ no_opening (next_unopened boundary body e))
  | inr (p, e) ↦
      subst (λ b. Verdict b boundary) (sym (find_text_split (opening boundary) body p.0 p.1 e))
        (opened-Verdict boundary p.0 p.1 (find_text_alone (opening boundary) body p.0 p.1 e))
]
