-- ===== src/Tests/Bodies.antt =====
-- Concrete runs of the segmented body.
use Prim.Native.Nat.{min}
use boost_taar.Common.{
  ℕ, zero, suc, ◌+◌, ◌≤◌, ◌≡◌, refl, ap, Option, some, List, [], ◌∷◌, Bytes, codes, length, take,
  drop, length-take, length-drop, arith,
}
use boost_taar.Core.SegmentedBody.{Body, writer, get}
use boost_taar.Core.SegmentedBody.Built.{
  Append, adds_text, adds_buffer, adds_range, segments_of, build,
}
use boost_taar.Core.SegmentedBody.Delivered.{Delivers, drain, filed, complete}
use boost_taar.Core.SegmentedBody.Delivered
use boost_taar.Core.SegmentedBody.Complete.{IsFile, all_bytes}
use boost_taar.Core.SegmentedBody.Sent.{Completes}
use boost_taar.Core.SegmentedBody.Sent

abbrev content : Bytes
content = codes "0123456789"

-- A file that gives at most three bytes at a time; its state is the position.
abbrev seek_to : ℕ → ℕ → Option ℕ
seek_to offset p = some offset

abbrev read_some : ℕ → ℕ → Option (Bytes × ℕ)
read_some n p = let s = take (min n 3) (drop p content) in some (s, p + length s)

take-length-take : (n : ℕ) (s : Bytes) → take n s ≡ take (length (take n s)) s
take-length-take zero s = refl
take-length-take (suc n) [] = refl
take-length-take (suc n) (c ∷ s) = ap (λ t. c ∷ t) (take-length-take n s)

read_some-bounded : (n p : ℕ) (s : Bytes) (p' : ℕ) → read_some n p ≡ some (s, p') → length s ≤ n
read_some-bounded n p s p' e =
    let same : take (min n 3) (drop p content) ≡ s = cc in
    omega (arith, ap length same, length-take (min n 3) (drop p content))

read_some-IsFile : IsFile ℕ seek_to read_some content (λ p. p)
read_some-IsFile = record {
  bounded = read_some-bounded;
  seeks = λ offset p. (offset, refl, refl);
  reads = λ n p some_asked inside.
      let s = take (min n 3) (drop p content) in
      (
        s,
        p + length s,
        refl,
        omega (arith, length-take (min n 3) (drop p content), length-drop p content),
        omega (arith, length-take (min n 3) (drop p content)),
        take-length-take (min n 3) (drop p content),
        refl,
      );
}

abbrev ranges : List Append
ranges =
    adds_text (codes "--x ")
    ∷ adds_range 2 5
    ∷ adds_text []
    ∷ adds_buffer (codes "abcdef") 1 2
    ∷ adds_range 9 0
    ∷ []

abbrev at_start : Body ℕ
at_start = build ranges (filed (some 0))

drain_ranges :
    drain seek_to read_some 12 (writer at_start)
    ≡ complete (codes "--x " ∷ codes "234" ∷ codes "56" ∷ codes "bc" ∷ [])
unfolding drain get build
drain_ranges = refl

drain-build_example :
    Delivers at_start.size (drain seek_to read_some (suc at_start.size) (writer at_start))
drain-build_example =
    Delivered.drain-build seek_to read_some read_some-bounded ranges (some 0) (omega arith)
      (omega arith)

drain-build-Completes_example :
    Completes
      (all_bytes content (segments_of ranges))
      (drain seek_to read_some (suc at_start.size) (writer at_start))
drain-build-Completes_example =
    Sent.drain-build-Completes seek_to read_some content (λ p. p) read_some-IsFile ranges 0
      (omega arith) (omega arith) (omega arith)
