-- ===== src/Core/SegmentedBody.antt =====
-- core/segmented_body.hpp: the body value and its writer. Sizes are 64-bit numbers. The file is a
-- parameter: its state, `seek` and `read`, which may fail and may return less than is asked.
pub mod Written
pub mod Built
pub mod Delivered
pub mod Complete
pub mod Sent
use Prim.Native.Nat.{min}
use boost_taar.Common.{
  ℕ, ◌+◌, ◌-◌, ◌*◌, ◌%◌, ◌^◌, Bool, true, false, not, ◌||◌, Option, none, some, List, [], ◌∷◌, ◌++◌,
  Bytes, ◌==◌, if◌then◌else◌, length, take, drop, is_empty, any,
}

pub data Segment : Type 0 where
  text : Bytes → Segment
  buffer_window : Bytes → ℕ → ℕ → Segment
  file_window : ℕ → ℕ → Segment

pub record Body {ℓ} (F : Type ℓ) : Type ℓ where
  pub file : Option F
  pub segments : List Segment
  pub size : ℕ

abbrev pub u64 : ℕ
u64 = 2 ^ 64

pub data WriteError : Type 0 where
  bad_file_descriptor file_error io_error : WriteError

-- What `get` hands out: nothing more, an error, or a buffer with whether more follow.
pub data Got : Type 0 where
  finished : Got
  failed : WriteError → Got
  chunk : Bytes → Bool → Got

abbrev pub buffer_size : ℕ
buffer_size = 32 * 1024

-- `!s.empty()`, `s.length != 0`
abbrev pub is_nonempty : Segment → Bool
is_nonempty (text s) = not (is_empty s)
is_nonempty (buffer_window s offset n) = not (n == 0)
is_nonempty (file_window offset n) = not (n == 0)

module _ {ℓ} {F : Type ℓ} where
  abbrev pub empty_body : Body F
  empty_body = record { file = none; segments = []; size = 0 }

  unfoldable pub attach_file : F → Body F → Body F
  attach_file f b = record b { file = some f }

  unfoldable pub append_text : Bytes → Body F → Body F
  append_text s b = record b {
    size = (b.size + length s) % u64;
    segments = b.segments ++ text s ∷ [];
  }

  unfoldable pub append_buffer : Bytes → ℕ → ℕ → Body F → Body F
  append_buffer s offset n b = record b {
    size = (b.size + n) % u64;
    segments = b.segments ++ buffer_window s offset n ∷ [];
  }

  unfoldable pub append_file_range : ℕ → ℕ → Body F → Body F
  append_file_range offset n b = record b {
    size = (b.size + n) % u64;
    segments = b.segments ++ file_window offset n ∷ [];
  }

-- `index_` is the list of the segments from it on.
pub record Writer {ℓ} (F : Type ℓ) : Type ℓ where
  pub rest : List Segment
  pub started : Bool
  pub remaining : ℕ
  pub file : Option F

abbrev pub writer {ℓ} : {F : Type ℓ} → Body F → Writer F
writer b = record { rest = b.segments; started = false; remaining = 0; file = b.file }

unfoldable pub more : Bool → List Segment → Bool
more started segments = started || any is_nonempty segments

module _ {ℓ} {F : Type ℓ} (seek : ℕ → F → Option F) (read : ℕ → F → Option (Bytes × F)) where
  abbrev pub took : Segment → List Segment → ℕ → Bytes → F → Writer F × Got
  took segment rest remaining [] f = (
    record { rest = segment ∷ rest; started = true; remaining = remaining; file = some f },
    failed io_error,
  )
  took segment rest remaining (c ∷ s) f =
      let left = remaining - length (c ∷ s) in
      if left == 0
      then (
        record { rest = rest; started = false; remaining = 0; file = some f },
        chunk (c ∷ s) (more false rest),
      )
      else (
        record { rest = segment ∷ rest; started = true; remaining = left; file = some f },
        chunk (c ∷ s) (more true (segment ∷ rest)),
      )

  -- A read of the started file window, which is the first segment left.
  unfoldable pub read_window : Segment → List Segment → ℕ → F → Writer F × Got
  read_window segment rest remaining f = elim (read (min remaining buffer_size) f) [
    | none ↦ (
      record { rest = segment ∷ rest; started = true; remaining = remaining; file = some f },
      failed file_error,
    )
    | some (s, f') ↦ took segment rest remaining s f'
  ]

  unfoldable pub start_window : ℕ → ℕ → List Segment → Option F → Writer F × Got
  start_window offset n rest none = (
    record { rest = file_window offset n ∷ rest; started = false; remaining = 0; file = none },
    failed bad_file_descriptor,
  )
  start_window offset n rest (some f) = elim (seek offset f) [
    | none ↦ (
      record { rest = file_window offset n ∷ rest; started = false; remaining = 0; file = some f },
      failed file_error,
    )
    | some f' ↦ read_window (file_window offset n) rest n f'
  ]

  -- The loop of `get` while no file window is started.
  unfoldable pub get_next : List Segment → Option F → Writer F × Got
  get_next [] file = (record { rest = []; started = false; remaining = 0; file = file }, finished)
  get_next (text s ∷ rest) file =
      let skipped = get_next rest file in
      if is_empty s then skipped else (
        record { rest = rest; started = false; remaining = 0; file = file },
        chunk s (more false rest),
      )
  get_next (buffer_window s offset n ∷ rest) file =
      let skipped = get_next rest file in
      if n == 0 then skipped else (
        record { rest = rest; started = false; remaining = 0; file = file },
        chunk (take n (drop offset s)) (more false rest),
      )
  get_next (file_window offset n ∷ rest) file =
      let skipped = get_next rest file in
      if n == 0 then skipped else start_window offset n rest file

  abbrev pub get_started : List Segment → ℕ → Option F → Writer F × Got
  get_started (segment ∷ rest) remaining (some f) = read_window segment rest remaining f
  get_started rest remaining file = get_next rest file

  unfoldable pub get : Writer F → Writer F × Got
  unfolding get_next read_window start_window more
  get w = if w.started then get_started w.rest w.remaining w.file else get_next w.rest w.file
