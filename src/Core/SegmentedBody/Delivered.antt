-- ===== src/Core/SegmentedBody/Delivered.antt =====
-- core/segmented_body.hpp: the writer delivers as many bytes as the body promises, or fails.
use boost_taar.Common.{
  ℕ, zero, suc, ◌+◌, ◌≤◌, ◌<◌, ◌≡◌, ap, sym, true, false, Option, some, List, [], ◌∷◌, Bytes,
  length, arith,
}
use mathlib.Core.Path.{subst}
use boost_taar.Core.SegmentedBody.{
  Body, u64, WriteError, Got, finished, failed, chunk, Writer, writer, get,
}
use boost_taar.Core.SegmentedBody.Written.{sizes, InBuffers, pending, Ready, Progress, get-Progress}
use boost_taar.Core.SegmentedBody.Built.{Append, segments_of, build, build_lem}

-- What the serializer does with a writer: it takes buffers until one is the last.
pub data Drained : Type 0 where
  complete : List Bytes → Drained
  broken : WriteError → Drained
  unfinished : Drained

abbrev pub put_chunk : Bytes → Drained → Drained
put_chunk s (complete chunks) = complete (s ∷ chunks)
put_chunk s (broken e) = broken e
put_chunk s unfinished = unfinished

abbrev pub total : List Bytes → ℕ
total [] = 0
total (s ∷ chunks) = length s + total chunks

-- Everything that was promised is delivered, or an error is reported.
abbrev pub Delivers : ℕ → Drained → Type 0
Delivers n (complete chunks) = total chunks ≡ n
Delivers n (broken e) = Unit
Delivers n unfinished = ⊥

put_chunk-Delivers :
    (s : Bytes) (n : ℕ) (d : Drained) → Delivers n d → Delivers (length s + n) (put_chunk s d)
put_chunk-Delivers s n (complete chunks) h = omega arith
put_chunk-Delivers s n (broken e) h = tt
put_chunk-Delivers s n unfinished h = h

abbrev pub received : Got → Drained → Drained
received finished rest = complete []
received (failed e) rest = broken e
received (chunk s true) rest = put_chunk s rest
received (chunk s false) rest = complete (s ∷ [])

received-Delivers {ℓ} :
    {F : Type ℓ} (p : ℕ) (w : Writer F) (got : Got) (rest : Drained)
    → Progress p (w, got)
    → (Ready w → pending w < p → Delivers (pending w) rest)
    → Delivers p (received got rest)
received-Delivers p w finished rest h ih = sym h
received-Delivers p w (failed e) rest h ih = tt
received-Delivers p w (chunk s true) rest h ih =
    let delivered = put_chunk-Delivers s (pending w) rest (ih h.2 (omega (arith, h.0, h.1))) in
    subst (λ n. Delivers n (put_chunk s rest)) (sym h.1) delivered
received-Delivers p w (chunk s false) rest h ih = ground (arith, h.1, h.3)

-- A new body over a file, or none.
abbrev pub filed {ℓ} : {F : Type ℓ} → Option F → Body F
filed file = record { file = file; segments = []; size = 0 }

module _ {ℓ} {F : Type ℓ} (seek : ℕ → F → Option F) (read : ℕ → F → Option (Bytes × F)) where
  unfoldable pub drain : ℕ → Writer F → Drained
  drain zero w = unfinished
  drain (suc fuel) w = let r = get seek read w in let rest = drain fuel r.0 in received r.1 rest

  module _
      (reads_at_most : (n : ℕ) (f : F) (s : Bytes) (f' : F)
        → read n f ≡ some (s, f')
        → length s ≤ n) where
    drain-Delivers :
        (fuel : ℕ) (w : Writer F) → Ready w → pending w < fuel → Delivers (pending w) (drain fuel w)
    unfolding drain
    drain-Delivers zero w h enough = elim enough [ ]
    drain-Delivers (suc fuel) w h enough =
        let r = get seek read w in
        received-Delivers (pending w) r.0 r.1 (drain fuel r.0)
          (get-Progress seek read reads_at_most w h)
          (λ ready less. drain-Delivers fuel r.0 ready (omega arith))

    -- If a read returns no more than it is asked for, the windows lie in their buffers and the
    -- segments hold fewer than 2 ^ 64 bytes in all, then the writer of a body that any sequence of
    -- appends built, over any file, ends within as many buffers as there are bytes and one more: with
    -- an error, or with as many bytes as `size()` promises.
    pub drain-build :
        (as' : List Append) (file : Option F)
        → InBuffers (segments_of as')
        → sizes (segments_of as') < u64
        → Delivers
            (build as' (filed file)).size
            (drain (suc (build as' (filed file)).size) (writer (build as' (filed file))))
    drain-build as' file inside small =
        let b = build as' (filed file) in
        let (segments, size, kept) = build_lem as' (filed file) in
        let promised : sizes b.segments ≡ b.size =
          omega (arith, ap sizes segments, size (omega arith)) in
        subst (λ n. Delivers n (drain (suc b.size) (writer b))) promised
          (drain-Delivers (suc b.size) (writer b) (subst InBuffers (sym segments) inside)
            (omega (arith, promised)))
