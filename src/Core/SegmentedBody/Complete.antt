-- ===== src/Core/SegmentedBody/Complete.antt =====
-- core/segmented_body.hpp: over a file that reads as it should, the writer sends the segments.
use Prim.Native.Nat.{min}
use mathlib.Core.Path.{subst, ap₂}
use boost_taar.Common.{
  ℕ, zero, suc, ◌+◌, ◌-◌, ◌≤◌, ◌<◌, ◌≡◌, refl, ap, sym, ◌∙◌, inl, inr, Bool, true, false, Option,
  none, some, List, [], ◌∷◌, ◌++◌, append_assoc, append-nil, take-nil, drop-drop, take-nil,
  drop-drop, Bytes, ◌==◌, ==_iff, if◌then◌else◌, length, take, drop, arith, Bool-cases,
}
use boost_taar.Core.SegmentedBody.{
  Segment, text, buffer_window, file_window, Got, finished, failed, chunk, buffer_size, Writer,
  took, read_window, start_window, get_next, get_started, get,
}

-- The bytes that a body stands for, its file having the given content.
abbrev pub bytes_of : Bytes → Segment → Bytes
bytes_of content (text s) = s
bytes_of content (buffer_window s offset n) = take n (drop offset s)
bytes_of content (file_window offset n) = take n (drop offset content)

abbrev pub all_bytes : Bytes → List Segment → Bytes
all_bytes content [] = []
all_bytes content (segment ∷ rest) = bytes_of content segment ++ all_bytes content rest

abbrev pub concat : List Bytes → Bytes
concat [] = []
concat (s ∷ chunks) = s ++ concat chunks

-- The windows lie in their buffers and in the file.
abbrev pub InFile : Bytes → Segment → Type 0
InFile content (file_window offset n) = offset + n ≤ length content
InFile content _ = Unit

abbrev pub InFiles : Bytes → List Segment → Type 0
InFiles content [] = Unit
InFiles content (segment ∷ rest) = InFile content segment × InFiles content rest

take-take : (k n : ℕ) (s : Bytes) → k ≤ n → take n s ≡ take k s ++ take (n - k) (drop k s)
take-take zero n s h = ap (λ m. take m s) (omega arith)
take-take (suc k) zero s h = elim h [ ]
take-take (suc k) (suc n) [] h = sym (take-nil (suc n - suc k))
take-take (suc k) (suc n) (c ∷ s) h =
    let left : n - k ≡ suc n - suc k = omega arith in
    ap (λ t. c ∷ t) (take-take k n s (omega arith) ∙ ap (λ m. take k s ++ take m (drop k s)) left)

-- A piece of a window and the rest of the window behind it.
window-split :
    (content s : Bytes) (p n : ℕ)
    → s ≡ take (length s) (drop p content)
    → length s ≤ n
    → take n (drop p content) ≡ s ++ take (n - length s) (drop (p + length s) content)
window-split content s p n is fits =
    take-take (length s) n (drop p content) fits
    ∙ ap₂ (λ a b. a ++ take (n - length s) b) (sym is) (drop-drop (length s) p content)

-- What a file that is open and unchanged does: a seek goes to the offset; a read before the end
-- gives some of the next bytes, as many as are asked for at most, and moves behind them.
pub record IsFile {ℓ} (F : Type ℓ) (seek : ℕ → F → Option F) (read : ℕ → F → Option (Bytes × F))
    (content : Bytes) (position : F → ℕ) : Type ℓ where
  pub bounded : (n : ℕ) (f : F) (s : Bytes) (f' : F) → read n f ≡ some (s, f') → length s ≤ n
  pub seeks : (offset : ℕ) (f : F) → (f' : F) × (seek offset f ≡ some f') × (position f' ≡ offset)
  pub reads :
      (n : ℕ) (f : F)
      → 0 < n
      → position f < length content
      → (s : Bytes) × (f' : F) × (read n f ≡ some (s, f'))
        × (0 < length s)
        × (length s ≤ n)
        × (s ≡ take (length s) (drop (position f) content))
        × (position f' ≡ position f + length s)

module _ {ℓ} {F : Type ℓ} (seek : ℕ → F → Option F) (read : ℕ → F → Option (Bytes × F))
    (content : Bytes) (position : F → ℕ) where
  -- What is still to come, and the states in which it can come.
  abbrev pub to_come : Bool → ℕ → List Segment → Option F → Bytes
  to_come true remaining (segment ∷ rest) (some f) =
      take remaining (drop (position f) content) ++ all_bytes content rest
  to_come started remaining segments file = all_bytes content segments

  abbrev pub Good : Bool → ℕ → List Segment → Option F → Type 0
  Good false remaining segments (some f) = InFiles content segments
  Good true remaining (file_window offset n ∷ rest) (some f) =
      (0 < remaining) × (position f + remaining ≤ length content) × InFiles content rest
  Good started remaining segments file = ⊥

  abbrev pub Sends : Bytes → Writer F × Got → Type 0
  Sends out (w, finished) = out ≡ []
  Sends out (w, failed e) = ⊥
  Sends out (w, chunk s m) =
      (out ≡ s ++ to_come w.started w.remaining w.rest w.file)
      × Good w.started w.remaining w.rest w.file

  module _ (is_file : IsFile F seek read content position) where
    took-Sends :
        (offset n : ℕ) (rest : List Segment) (remaining p : ℕ) (s : Bytes) (f : F)
        → 0 < length s
        → length s ≤ remaining
        → s ≡ take (length s) (drop p content)
        → position f ≡ p + length s
        → p + remaining ≤ length content
        → InFiles content rest
        → Sends
            (take remaining (drop p content) ++ all_bytes content rest)
            (took seek read (file_window offset n) rest remaining s f)
    took-Sends offset n rest remaining p [] f some_read fits is at inside h = elim some_read [ ]
    took-Sends offset n rest remaining p (c ∷ s) f some_read fits is at inside h =
        let split =
          ap (λ t. t ++ all_bytes content rest)
            (window-split content (c ∷ s) p remaining is fits) in
        elim (Bool-cases (remaining - length (c ∷ s) == 0)) [
          | inl e ↦
              let none_left : remaining - length (c ∷ s) ≡ 0 =
                (==_iff (remaining - length (c ∷ s)) 0).0 e in
              let out =
                split
                ∙ ap
                    (λ m.
                      ((c ∷ s) ++ take m (drop (p + length (c ∷ s)) content))
                      ++ all_bytes content rest)
                    none_left
                ∙ ap (λ t. t ++ all_bytes content rest) (append-nil (c ∷ s)) in
              rw e (out, h)
          | inr e ↦
              let out =
                split
                ∙ append_assoc (c ∷ s)
                    (take (remaining - length (c ∷ s)) (drop (p + length (c ∷ s)) content))
                    (all_bytes content rest)
                ∙ ap
                    (λ q.
                      (c ∷ s)
                      ++ (take (remaining - length (c ∷ s)) (drop q content)
                          ++ all_bytes content rest))
                    (sym at) in
              rw e (out, (ground arith, omega arith, h))
        ]

    read_window-Sends :
        (offset n : ℕ) (rest : List Segment) (remaining : ℕ) (f : F)
        → 0 < remaining
        → position f + remaining ≤ length content
        → InFiles content rest
        → Sends
            (take remaining (drop (position f) content) ++ all_bytes content rest)
            (read_window seek read (file_window offset n) rest remaining f)
    unfolding read_window
    read_window-Sends offset n rest remaining f some_left inside h =
        let (s, f', e, some_read, fits, is, at) =
          is_file.reads (min remaining buffer_size) f (omega arith) (omega arith) in
        rw (e, read_window)
          (took-Sends offset n rest remaining (position f) s f' some_read (omega arith) is at inside
            h)

    start_window-Sends :
        (offset n : ℕ) (rest : List Segment) (f : F)
        → 0 < n
        → offset + n ≤ length content
        → InFiles content rest
        → Sends
            (take n (drop offset content) ++ all_bytes content rest)
            (start_window seek read offset n rest (some f))
    unfolding start_window
    start_window-Sends offset n rest f some_left inside h =
        let (f', e, at) = is_file.seeks offset f in
        rw (e, start_window)
          (subst
            (λ o.
              Sends (take n (drop o content) ++ all_bytes content rest)
                (read_window seek read (file_window offset n) rest n f'))
            at (read_window-Sends offset n rest n f' some_left (omega arith) h))

    get_next-Sends :
        (segments : List Segment) (f : F)
        → InFiles content segments
        → Sends (all_bytes content segments) (get_next seek read segments (some f))
    unfolding get_next
    get_next-Sends [] f h = refl
    get_next-Sends (text [] ∷ rest) f h = get_next-Sends rest f h.1
    get_next-Sends (text (c ∷ s) ∷ rest) f h = (refl, h.1)
    get_next-Sends (buffer_window s offset n ∷ rest) f h = elim (Bool-cases (n == 0)) [
      | inl e ↦ rw e (rw ((==_iff n 0).0 e) (get_next-Sends rest f h.1))
      | inr e ↦ rw e (refl, h.1)
    ]
    get_next-Sends (file_window offset n ∷ rest) f h = elim (Bool-cases (n == 0)) [
      | inl e ↦ rw e (rw ((==_iff n 0).0 e) (get_next-Sends rest f h.1))
      | inr e ↦ rw e (start_window-Sends offset n rest f (ground arith) h.0 h.1)
    ]

    pub get-Sends :
        (w : Writer F)
        → Good w.started w.remaining w.rest w.file
        → Sends (to_come w.started w.remaining w.rest w.file) (get seek read w)
    unfolding get
    get-Sends w h = got w.started w.remaining w.rest w.file h
      where
        got :
            (started : Bool) (remaining : ℕ) (segments : List Segment) (file : Option F)
            → Good started remaining segments file
            → Sends (to_come started remaining segments file) (
                if started
                then get_started seek read segments remaining file
                else get_next seek read segments file)
        got false remaining segments (some f) h = get_next-Sends segments f h
        got false remaining segments none h = elim h [ ]
        got true remaining (file_window offset n ∷ rest) (some f) h =
            read_window-Sends offset n rest remaining f h.0 h.1 h.2
        got true remaining (file_window offset n ∷ rest) none h = elim h [ ]
        got true remaining (text s ∷ rest) file h = elim h [ ]
        got true remaining (buffer_window s offset n ∷ rest) file h = elim h [ ]
        got true remaining [] file h = elim h [ ]
