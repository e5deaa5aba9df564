-- ===== src/Core/SegmentedBody/Built.antt =====
-- core/segmented_body.hpp: the segments and the size of a body that is built by appending.
use boost_taar.Common.{
  ℕ, ◌+◌, ◌%◌, ◌<◌, ◌≡◌, refl, sym, ◌∙◌, List, [], ◌∷◌, ◌++◌, Bytes, arith, append-nil,
  append_assoc,
}
use boost_taar.Core.SegmentedBody.{
  Segment, text, buffer_window, file_window, Body, u64, append_text, append_buffer,
  append_file_range,
}
use boost_taar.Core.SegmentedBody.Written.{size_of, sizes}

-- The calls that build a body.
pub data Append : Type 0 where
  adds_text : Bytes → Append
  adds_buffer : Bytes → ℕ → ℕ → Append
  adds_range : ℕ → ℕ → Append

abbrev pub segment_of : Append → Segment
segment_of (adds_text s) = text s
segment_of (adds_buffer s offset n) = buffer_window s offset n
segment_of (adds_range offset n) = file_window offset n

abbrev pub segments_of : List Append → List Segment
segments_of [] = []
segments_of (a ∷ as') = segment_of a ∷ segments_of as'

module _ {ℓ} {F : Type ℓ} where
  unfoldable pub append : Append → Body F → Body F
  unfolding append_text append_buffer append_file_range
  append (adds_text s) b = append_text s b
  append (adds_buffer s offset n) b = append_buffer s offset n b
  append (adds_range offset n) b = append_file_range offset n b

  unfoldable pub build : List Append → Body F → Body F
  unfolding append
  build [] b = b
  build (a ∷ as') b = build as' (append a b)

  append_lem :
      (a : Append) (b : Body F)
      → ((append a b).segments ≡ b.segments ++ segment_of a ∷ [])
        × ((append a b).size ≡ (b.size + size_of (segment_of a)) % u64)
        × ((append a b).file ≡ b.file)
  unfolding append
  append_lem (adds_text s) b = (refl, refl, refl)
  append_lem (adds_buffer s offset n) b = (refl, refl, refl)
  append_lem (adds_range offset n) b = (refl, refl, refl)

  -- The segments stand in the order of the calls, and the size is that of all of them.
  pub build_lem :
      (as' : List Append) (b : Body F)
      → ((build as' b).segments ≡ b.segments ++ segments_of as')
        × (b.size + sizes (segments_of as') < u64
            → (build as' b).size ≡ b.size + sizes (segments_of as'))
        × ((build as' b).file ≡ b.file)
  unfolding build
  build_lem [] b = (sym (append-nil b.segments), λ h. omega arith, refl)
  build_lem (a ∷ as') b =
      let (segments, size, file) = append_lem a b in
      let (s, z, f) = build_lem as' (append a b) in
      (
        s ∙ (rw segments (append_assoc b.segments (segment_of a ∷ []) (segments_of as'))),
        λ h.
            let unwrapped : (append a b).size ≡ b.size + size_of (segment_of a) = omega arith in
            omega (arith, z (omega arith)),
        f ∙ file,
      )
