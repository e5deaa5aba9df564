-- ===== src/Core/SegmentedBody/Sent.antt =====
-- core/segmented_body.hpp: all buffers of a body together.
use mathlib.Core.Path.{subst}
use boost_taar.Common.{
  ℕ, zero, suc, ◌<◌, ◌≡◌, refl, ap, sym, ◌∙◌, Bool, true, false, Option, none, some, List, [], ◌∷◌,
  ◌++◌, Bytes, arith,
}
use boost_taar.Core.SegmentedBody.{
  Segment, text, buffer_window, file_window, Got, finished, failed, chunk, Writer, writer, get, u64,
}
use boost_taar.Core.SegmentedBody.Written.{
  sizes, InBuffers, pending_of, pending, Ready, Progress, get-Progress,
}
use boost_taar.Core.SegmentedBody.Built.{Append, segments_of, build, build_lem}
use boost_taar.Core.SegmentedBody.Delivered.{
  Drained, complete, broken, unfinished, received, put_chunk, drain, filed,
}
use boost_taar.Core.SegmentedBody.Complete.{
  all_bytes, concat, InFiles, IsFile, to_come, Good, Sends, get-Sends,
}

-- The buffers came to an end without an error, and they are these bytes.
abbrev pub Completes : Bytes → Drained → Type 0
Completes out (complete chunks) = concat chunks ≡ out
Completes out (broken e) = ⊥
Completes out unfinished = ⊥

put_chunk-Completes :
    (s out : Bytes) (d : Drained) → Completes out d → Completes (s ++ out) (put_chunk s d)
put_chunk-Completes s out (complete chunks) h = ap (λ t. s ++ t) h
put_chunk-Completes s out (broken e) h = h
put_chunk-Completes s out unfinished h = h

all_bytes-empty :
    (content : Bytes) (segments : List Segment)
    → sizes segments ≡ 0
    → all_bytes content segments ≡ []
all_bytes-empty content [] h = refl
all_bytes-empty content (text [] ∷ rest) h = all_bytes-empty content rest (omega arith)
all_bytes-empty content (text (c ∷ s) ∷ rest) h = absurd (omega arith)
all_bytes-empty content (buffer_window s offset n ∷ rest) h =
    let none_left : n ≡ 0 = omega arith in rw none_left (all_bytes-empty content rest (omega arith))
all_bytes-empty content (file_window offset n ∷ rest) h =
    let none_left : n ≡ 0 = omega arith in rw none_left (all_bytes-empty content rest (omega arith))

module _ {ℓ} {F : Type ℓ} (seek : ℕ → F → Option F) (read : ℕ → F → Option (Bytes × F))
    (content : Bytes) (position : F → ℕ) (is_file : IsFile F seek read content position) where
  to_come-empty :
      (w : Writer F)
      → Good seek read content position w.started w.remaining w.rest w.file
      → pending w ≡ 0
      → to_come seek read content position w.started w.remaining w.rest w.file ≡ []
  to_come-empty w h e = none_left w.started w.remaining w.rest w.file h e
    where
      none_left :
          (started : Bool) (remaining : ℕ) (segments : List Segment) (file : Option F)
          → Good seek read content position started remaining segments file
          → pending_of started remaining segments ≡ 0
          → to_come seek read content position started remaining segments file ≡ []
      none_left false remaining segments file h e = all_bytes-empty content segments e
      none_left true remaining (file_window offset n ∷ rest) (some f) h e =
          absurd (omega (arith, h.0))
      none_left true remaining (file_window offset n ∷ rest) none h e = elim h [ ]
      none_left true remaining (text s ∷ rest) file h e = elim h [ ]
      none_left true remaining (buffer_window s offset n ∷ rest) file h e = elim h [ ]
      none_left true remaining [] file h e = elim h [ ]

  received-Completes :
      (p : ℕ) (out : Bytes) (w : Writer F) (got : Got) (rest : Drained)
      → Progress p (w, got)
      → Sends seek read content position out (w, got)
      → (Ready w
          → pending w < p
          → Good seek read content position w.started w.remaining w.rest w.file
          → Completes (to_come seek read content position w.started w.remaining w.rest w.file) rest)
      → Completes out (received got rest)
  received-Completes p out w finished rest h s ih = sym s
  received-Completes p out w (failed e) rest h s ih = elim s [ ]
  received-Completes p out w (chunk b true) rest h s ih =
      subst (λ o. Completes o (put_chunk b rest)) (sym s.0)
        (put_chunk-Completes b _ rest (ih h.2 (omega (arith, h.0, h.1)) s.1))
  received-Completes p out w (chunk b false) rest h s ih =
      sym (s.0 ∙ ap (λ t. b ++ t) (to_come-empty w s.1 (ground (arith, h.3))))

  drain-Completes :
      (fuel : ℕ) (w : Writer F)
      → Ready w
      → Good seek read content position w.started w.remaining w.rest w.file
      → pending w < fuel
      → Completes
          (to_come seek read content position w.started w.remaining w.rest w.file)
          (drain seek read fuel w)
  unfolding drain
  drain-Completes zero w h g enough = elim enough [ ]
  drain-Completes (suc fuel) w h g enough =
      let r = get seek read w in
      received-Completes (pending w) _ r.0 r.1 (drain seek read fuel r.0)
        (get-Progress seek read is_file.bounded w h)
        (get-Sends seek read content position is_file w g)
        (λ ready less good. drain-Completes fuel r.0 ready good (omega arith))

  -- If the file reads as an open and unchanged file does, the windows lie in their buffers and in
  -- the file, and the segments hold fewer than 2 ^ 64 bytes in all, then the writer of a body that
  -- any sequence of appends built ends without an error within as many buffers as there are bytes
  -- and one more, and the buffers are the bytes of the segments in order.
  pub drain-build-Completes :
      (as' : List Append) (f : F)
      → InBuffers (segments_of as')
      → InFiles content (segments_of as')
      → sizes (segments_of as') < u64
      → Completes (all_bytes content (segments_of as')) (
          drain seek read
            (suc (build as' (filed (some f))).size)
            (writer (build as' (filed (some f)))))
  drain-build-Completes as' f buffers files small =
      let b = build as' (filed (some f)) in
      let (segments, size, kept) = build_lem as' (filed (some f)) in
      let promised : sizes b.segments ≡ b.size =
        omega (arith, ap sizes segments, size (omega arith)) in
      let good : Good seek read content position false 0 b.segments b.file =
        subst (Good seek read content position false 0 b.segments) (sym kept)
          (subst (InFiles content) (sym segments) files) in
      subst (λ out. Completes out (drain seek read (suc b.size) (writer b)))
        (ap (all_bytes content) segments)
        (drain-Completes (suc b.size) (writer b) (subst InBuffers (sym segments) buffers) good
          (omega (arith, promised)))
