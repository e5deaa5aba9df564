-- ===== src/Core/Multipart/Framed.antt =====
-- core/multipart.hpp: what `parse_multipart` returns for a body that is framed by its boundary.
use boost_taar.Common.{
  ℕ, zero, suc, ◌+◌, ◌*◌, ◌≤◌, ◌≡◌, refl, ◌∙◌, ap, sym, some, List, [], ◌∷◌, ◌++◌, arith, ◌⊎◌, inl,
  inr, length, length-append, Bytes, append-nil, append_assoc,
}
use boost_taar.Core.PartHeaders.{PartHeader}
use boost_taar.Core.Multipart.{
  find_text, after_delim, in_data, feed, finish, Part, form, parts_from, fuel_for, parse_multipart,
}
use boost_taar.Core.Multipart.Rounds.{
  Block, blank_line, opening, delimiter, blocks_text, FramesAll, at, next_head, next_empty,
  next_body, next_end, next_close, opened, append_last_lem, round_begin, round_data, round_end,
  round_last, next-opening, parts_from-next,
}

abbrev pub filled : PartHeader → Bytes → Part
filled h body = record { part_header = h; content = body }

-- The data of a part and the delimiter behind it: one round of the loop, or two.
pub parts_from-body :
    (fuel : ℕ) (boundary body more : Bytes) (acc : List Part) (h : PartHeader)
    → find_text (delimiter boundary) (body ++ delimiter boundary) ≡ some (body, [])
    → (n : ℕ) × ((n ≡ fuel) ⊎ (n ≡ suc fuel))
      × (parts_from
            (suc (suc fuel))
            (at boundary (body ++ (delimiter boundary ++ more)) in_data)
            (acc ++ opened h ∷ [])
          ≡ parts_from n (at boundary more after_delim) (acc ++ filled h body ∷ []))
parts_from-body fuel boundary [] more acc h e =
    (suc fuel, inr refl, round_end (suc fuel) _ _ _ (next_empty boundary more))
parts_from-body fuel boundary (c ∷ text) more acc h e = (
  fuel,
  inl refl,
  round_data (suc fuel) _ _ _ (c ∷ text) (next_body boundary c text more e)
      ∙ round_end fuel _ _ _ (next_end boundary more)
      ∙ ap (parts_from fuel (at boundary more after_delim))
          (append_last_lem (c ∷ text) acc (opened h)),
)

parts_from-blocks :
    (fuel : ℕ) (boundary : Bytes) (bs : List Block) (ps : List Part) (epilogue : Bytes)
    (acc : List Part)
    → FramesAll boundary bs ps
    → 3 * length bs + 1 ≤ fuel
    → parts_from fuel (at boundary (blocks_text boundary bs epilogue) after_delim) acc
      ≡ form (acc ++ ps)
parts_from-blocks zero boundary bs ps epilogue acc f le = absurd (omega arith)
parts_from-blocks (suc fuel) boundary [] (p ∷ ps) epilogue acc f le = absurd f
parts_from-blocks (suc fuel) boundary (b ∷ bs) [] epilogue acc f le = absurd f
parts_from-blocks (suc fuel) boundary [] [] epilogue acc f le =
    round_last fuel _ _ acc (next_close boundary epilogue) ∙ ap form (sym (append-nil acc))
parts_from-blocks (suc zero) boundary (b ∷ bs) (p ∷ ps) epilogue acc f le = absurd (omega arith)
parts_from-blocks (suc (suc zero)) boundary (b ∷ bs) (p ∷ ps) epilogue acc f le =
    absurd (omega arith)
parts_from-blocks (suc (suc (suc fuel))) boundary (b ∷ bs) (p ∷ ps) epilogue acc (f, fs) le =
    let more = blocks_text boundary bs epilogue in
    let (n, which, e) = parts_from-body fuel boundary b.body more acc p.part_header f.body_ends in
    let acc' = acc ++ filled p.part_header b.body ∷ [] in
    round_begin (suc (suc fuel)) _ _ acc p.part_header
      (next_head boundary b p (b.body ++ (delimiter boundary ++ more)) f)
    ∙ e
    ∙ later n which acc' (λ a. parts_from-blocks fuel boundary bs ps epilogue a fs (omega arith))
        (λ a. parts_from-blocks (suc fuel) boundary bs ps epilogue a fs (omega arith))
    ∙ ap form (
        append_assoc acc (filled p.part_header b.body ∷ []) ps
        ∙ ap (λ c. acc ++ (filled p.part_header c ∷ ps)) f.same_body)
  where
    Good : ℕ → List Part → Type 0
    Good n acc' =
        parts_from n (at boundary (blocks_text boundary bs epilogue) after_delim) acc'
        ≡ form (acc' ++ ps)

    later :
        (n : ℕ)
        → ((n ≡ fuel) ⊎ (n ≡ suc fuel))
        → (acc' : List Part) → ((a : List Part) → Good fuel a)
        → ((a : List Part) → Good (suc fuel) a)
        → Good n acc'
    later n (inl e) acc' ih ih' = rw e (ih acc')
    later n (inr e) acc' ih ih' = rw e (ih' acc')

blocks-fuel :
    (boundary : Bytes) (bs : List Block) (epilogue : Bytes)
    → 3 * length bs + 2 ≤ length (blocks_text boundary bs epilogue)
blocks-fuel boundary [] epilogue = omega arith
blocks-fuel boundary (b ∷ bs) epilogue =
    let more = blocks_text boundary bs epilogue in
    omega (
      arith,
      length-append b.head (blank_line ++ (b.body ++ (delimiter boundary ++ more))),
      length-append b.body (delimiter boundary ++ more),
      length-append boundary more,
      blocks-fuel boundary bs epilogue,
    )

-- If no boundary stands in the preface before the first one, and each block frames its part, then
-- the body that joins them, with any epilogue, is parsed to exactly these parts.
pub parse_multipart-framed :
    (boundary preface : Bytes) (bs : List Block) (ps : List Part) (epilogue : Bytes)
    → find_text (opening boundary) (preface ++ opening boundary) ≡ some (preface, [])
    → FramesAll boundary bs ps
    → parse_multipart (preface ++ (opening boundary ++ blocks_text boundary bs epilogue)) boundary
      ≡ form ps
unfolding parse_multipart feed finish
parse_multipart-framed boundary preface bs ps epilogue e f =
    let more = blocks_text boundary bs epilogue in
    let body = preface ++ (opening boundary ++ more) in
    parts_from-next (fuel_for body) _ _ [] (next-opening boundary preface more e)
    ∙ parts_from-blocks (fuel_for body) boundary bs ps epilogue [] f (
        omega (
          arith,
          length-append preface (opening boundary ++ more),
          length-append boundary more,
          blocks-fuel boundary bs epilogue,
        ))
