-- ===== src/Core/SegmentedBody/Written.antt =====
-- core/segmented_body.hpp: the writer delivers as many bytes as the body promises, or fails.
use Prim.Native.Nat.{min}
use boost_taar.Common.{
  ℕ, ◌+◌, ◌-◌, ◌≤◌, ◌<◌, ◌≡◌, refl, ◌∙◌, inl, inr, Bool, true, false, Option, none, some, List, [],
  ◌∷◌, Bytes, ◌==◌, ltb, if◌then◌else◌, length, take, drop, length-take, length-drop, arith,
  Bool-cases, Option-cases, ==_iff,
}
use mathlib.Core.Path.{subst}
use boost_taar.Core.SegmentedBody.{
  Segment, text, buffer_window, file_window, Got, finished, failed, chunk, buffer_size, Writer,
  more, took, read_window, start_window, get_next, get_started, get,
}

abbrev pub size_of : Segment → ℕ
size_of (text s) = length s
size_of (buffer_window s offset n) = n
size_of (file_window offset n) = n

abbrev pub sizes : List Segment → ℕ
sizes [] = 0
sizes (segment ∷ rest) = size_of segment + sizes rest

-- A window of a buffer lies in the buffer.
abbrev pub InBuffer : Segment → Type 0
InBuffer (buffer_window s offset n) = offset + n ≤ length s
InBuffer _ = Unit

abbrev pub InBuffers : List Segment → Type 0
InBuffers [] = Unit
InBuffers (segment ∷ rest) = InBuffer segment × InBuffers rest

-- What the writer has still to deliver, and the shape of its state between calls.
abbrev pub pending_of : Bool → ℕ → List Segment → ℕ
pending_of false remaining segments = sizes segments
pending_of true remaining [] = remaining
pending_of true remaining (segment ∷ rest) = remaining + sizes rest

abbrev pub pending {ℓ} : {F : Type ℓ} → Writer F → ℕ
pending w = pending_of w.started w.remaining w.rest

abbrev pub ReadyOf {ℓ} : {F : Type ℓ} → Bool → ℕ → List Segment → Option F → Type 0
ReadyOf false remaining segments file = InBuffers segments
ReadyOf true remaining (file_window offset n ∷ rest) (some f) = (0 < remaining) × InBuffers rest
ReadyOf true remaining _ file = ⊥

abbrev pub Ready {ℓ} : {F : Type ℓ} → Writer F → Type 0
Ready w = ReadyOf w.started w.remaining w.rest w.file

-- A call delivers some of the pending bytes, and says that more follow exactly if some do.
abbrev pub Progress {ℓ} : {F : Type ℓ} → ℕ → Writer F × Got → Type 0
Progress p (w, finished) = p ≡ 0
Progress p (w, failed e) = Unit
Progress p (w, chunk s m) =
    (0 < length s) × (p ≡ length s + pending w) × Ready w × (m ≡ ltb 0 (pending w))

more_false : (segments : List Segment) → more false segments ≡ ltb 0 (sizes segments)
unfolding more
more_false [] = refl
more_false (text [] ∷ rest) = ground (arith, more_false rest)
more_false (text (c ∷ s) ∷ rest) = ground arith
more_false (buffer_window s offset n ∷ rest) = ground (arith, more_false rest)
more_false (file_window offset n ∷ rest) = ground (arith, more_false rest)

more_true : (segments : List Segment) → more true segments ≡ true
unfolding more
more_true segments = refl

length-window :
    (s : Bytes) (offset n : ℕ) → offset + n ≤ length s → length (take n (drop offset s)) ≡ n
length-window s offset n h = omega (arith, length-take n (drop offset s), length-drop offset s)

module _ {ℓ} {F : Type ℓ} (seek : ℕ → F → Option F) (read : ℕ → F → Option (Bytes × F))
    (reads_at_most : (n : ℕ) (f : F) (s : Bytes) (f' : F)
      → read n f ≡ some (s, f')
      → length s ≤ n) where
  took-Progress :
      (offset n : ℕ) (rest : List Segment) (remaining : ℕ) (s : Bytes) (f : F)
      → InBuffers rest
      → length s ≤ remaining
      → Progress (remaining + sizes rest) (took seek read (file_window offset n) rest remaining s f)
  took-Progress offset n rest remaining [] f b h = tt
  took-Progress offset n rest remaining (c ∷ s) f b h =
      elim (Bool-cases (remaining - length (c ∷ s) == 0)) [
        | inl e ↦ rw e (omega arith, ground arith, b, more_false rest)
        | inr e ↦ rw e (omega arith, ground arith, (ground arith, b), more_true _ ∙ ground arith)
      ]

  read_window-Progress :
      (offset n : ℕ) (rest : List Segment) (remaining : ℕ) (f : F)
      → InBuffers rest
      → Progress
          (remaining + sizes rest)
          (read_window seek read (file_window offset n) rest remaining f)
  unfolding read_window
  read_window-Progress offset n rest remaining f b =
      elim (Option-cases (read (min remaining buffer_size) f)) [
        | inl e ↦ rw (e, read_window) tt
        | inr (r, e) ↦
            rw (e, read_window)
              (took-Progress offset n rest remaining r.0 r.1 b
                (omega (arith, reads_at_most (min remaining buffer_size) f r.0 r.1 e)))
      ]

  start_window-Progress :
      (offset n : ℕ) (rest : List Segment) (file : Option F)
      → InBuffers rest
      → Progress (n + sizes rest) (start_window seek read offset n rest file)
  unfolding start_window
  start_window-Progress offset n rest none b = tt
  start_window-Progress offset n rest (some f) b = elim (Option-cases (seek offset f)) [
    | inl e ↦ rw (e, start_window) tt
    | inr (f', e) ↦ rw (e, start_window) (read_window-Progress offset n rest n f' b)
  ]

  skipped-Progress :
      (n : ℕ) (rest : List Segment) (file : Option F)
      → n ≡ 0
      → Progress (sizes rest) (get_next seek read rest file)
      → Progress (n + sizes rest) (get_next seek read rest file)
  skipped-Progress n rest file e h =
      let none_left : sizes rest ≡ n + sizes rest = omega arith in
      subst (λ p. Progress p (get_next seek read rest file)) none_left h

  get_next-Progress :
      (segments : List Segment) (file : Option F)
      → InBuffers segments
      → Progress (sizes segments) (get_next seek read segments file)
  unfolding get_next
  get_next-Progress [] file b = refl
  get_next-Progress (text [] ∷ rest) file b =
      skipped-Progress 0 rest file refl (get_next-Progress rest file b.1)
  get_next-Progress (text (c ∷ s) ∷ rest) file b = (omega arith, refl, b.1, more_false rest)
  get_next-Progress (buffer_window s offset n ∷ rest) file b = elim (Bool-cases (n == 0)) [
    | inl e ↦
        rw e (skipped-Progress n rest file ((==_iff n 0).0 e) (get_next-Progress rest file b.1))
    | inr e ↦
        let full = length-window s offset n b.0 in
        rw e (ground arith, omega arith, b.1, more_false rest)
  ]
  get_next-Progress (file_window offset n ∷ rest) file b = elim (Bool-cases (n == 0)) [
    | inl e ↦
        rw e (skipped-Progress n rest file ((==_iff n 0).0 e) (get_next-Progress rest file b.1))
    | inr e ↦ rw e (start_window-Progress offset n rest file b.1)
  ]

  pub get-Progress : (w : Writer F) → Ready w → Progress (pending w) (get seek read w)
  unfolding get
  get-Progress w h = got w.started w.remaining w.rest w.file h
    where
      got :
          (started : Bool) (remaining : ℕ) (segments : List Segment) (file : Option F)
          → ReadyOf started remaining segments file
          → Progress (pending_of started remaining segments) (
              if started
              then get_started seek read segments remaining file
              else get_next seek read segments file)
      got false remaining segments file h = get_next-Progress segments file h
      got true remaining (file_window offset n ∷ rest) (some f) h =
          read_window-Progress offset n rest remaining f h.1
      got true remaining (file_window offset n ∷ rest) none h = elim h [ ]
      got true remaining (text s ∷ rest) file h = elim h [ ]
      got true remaining (buffer_window s offset n ∷ rest) file h = elim h [ ]
      got true remaining [] file h = elim h [ ]
