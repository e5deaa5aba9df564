-- ===== src/Core/Multipart/Found.antt =====
-- core/multipart.hpp: what `find` finds is the text around the first occurrence.
use boost_taar.Common.{
  ℕ, ◌≤◌, ◌≡◌, refl, ◌∙◌, ap, sym, none, some, [], ◌∷◌, ◌++◌, arith, length, length-append, Bytes,
  strip_prefix, Option-cases, inl, inr, append-nil, append_assoc,
}
use boost_taar.Core.Multipart.{find_text, before}

pub strip_prefix-append :
    (n h more : Bytes) {rest : Bytes}
    → strip_prefix n h ≡ some rest
    → strip_prefix n (h ++ more) ≡ some (rest ++ more)
strip_prefix-append [] h more e = ground arith
strip_prefix-append (x ∷ n) [] more e = ground arith
strip_prefix-append (x ∷ n) (y ∷ h) more {rest} e =
    ground (arith, strip_prefix-append n h more {rest = rest})

pub strip_prefix_split : (n h : Bytes) {rest : Bytes} → strip_prefix n h ≡ some rest → h ≡ n ++ rest
strip_prefix_split [] h e = ground arith
strip_prefix_split (x ∷ n) [] e = ground arith
strip_prefix_split (x ∷ n) (y ∷ h) {rest} e = ground (arith, strip_prefix_split n h {rest = rest})

pub strip_prefix_same : (n rest : Bytes) → strip_prefix n (n ++ rest) ≡ some rest
strip_prefix_same [] rest = refl
strip_prefix_same (x ∷ n) rest = ground (arith, strip_prefix_same n rest)

strip_prefix-none :
    (n h more : Bytes)
    → length n ≤ length h
    → strip_prefix n h ≡ none
    → strip_prefix n (h ++ more) ≡ none
strip_prefix-none [] h more le e = ground arith
strip_prefix-none (x ∷ n) [] more le e = absurd (omega arith)
strip_prefix-none (x ∷ n) (y ∷ h) more le e = ground (arith, strip_prefix-none n h more)

strip_prefix-none_before :
    (n h more : Bytes) → strip_prefix n (h ++ more) ≡ none → strip_prefix n h ≡ none
strip_prefix-none_before [] h more e = ground arith
strip_prefix-none_before (x ∷ n) [] more e = refl
strip_prefix-none_before (x ∷ n) (y ∷ h) more e = ground (arith, strip_prefix-none_before n h more)

-- The two ways in which a text is found at a character.
data FoundAt (n : Bytes) (c : ℕ) (s a b : Bytes) : Type 0 where
  here : strip_prefix n (c ∷ s) ≡ some b → a ≡ [] → FoundAt n c s a b
  later :
      {a' : Bytes}
      → strip_prefix n (c ∷ s) ≡ none
      → find_text n s ≡ some (a', b)
      → a ≡ c ∷ a'
      → FoundAt n c s a b

pub find_text_here :
    (n h : Bytes) {rest : Bytes} → strip_prefix n h ≡ some rest → find_text n h ≡ some ([], rest)
unfolding find_text
find_text_here n [] e = rw (e, find_text) refl
find_text_here n (c ∷ s) e = rw (e, find_text) refl

pub find_text_later :
    (n : Bytes) (c : ℕ) (s : Bytes)
    → strip_prefix n (c ∷ s) ≡ none
    → find_text n (c ∷ s) ≡ before c (find_text n s)
unfolding find_text
find_text_later n c s e = rw (e, find_text) refl

found_at :
    (n : Bytes) (c : ℕ) (s a b : Bytes) → find_text n (c ∷ s) ≡ some (a, b) → FoundAt n c s a b
found_at n c s a b e = elim (Option-cases (strip_prefix n (c ∷ s))) [
  | inl k ↦ elim (Option-cases (find_text n s)) [
    | inl m ↦ cc (e, find_text_later n c s k, m)
    | inr (p, m) ↦
        let e' : some (c ∷ p.0, p.1) ≡ some (a, b) =
          ap (before c) (sym m) ∙ sym (find_text_later n c s k) ∙ e in
        later {a' = p.0} k (cc (m, e')) (cc e')
  ]
  | inr (rest, k) ↦
      let e' : some ([], rest) ≡ some (a, b) = sym (find_text_here n (c ∷ s) k) ∙ e in
      here (cc (k, e')) (cc e')
]

found_at_end :
    (n a b : Bytes) → find_text n [] ≡ some (a, b) → (strip_prefix n [] ≡ some b) × (a ≡ [])
unfolding find_text
found_at_end n a b e = ground arith

-- What is found splits the text.
pub find_text_split : (n h a b : Bytes) → find_text n h ≡ some (a, b) → h ≡ a ++ (n ++ b)
find_text_split n [] a b e = let (k, m) = found_at_end n a b e in rw m (strip_prefix_split n [] k)
find_text_split n (c ∷ s) a b e = elim (found_at n c s a b e) [
  | here k m ↦ rw m (strip_prefix_split n (c ∷ s) k)
  | later {a'} k m l ↦ rw l (ap (◌∷◌ c) (find_text_split n s a' b m))
]

needle_fits : (n h a b : Bytes) → find_text n h ≡ some (a, b) → length n ≤ length h
needle_fits n h a b e =
    rw (find_text_split n h a b e, length-append a (n ++ b), length-append n b) (omega arith)

-- More text behind what is found does not change it.
pub find_text-append :
    (n h more a b : Bytes)
    → find_text n h ≡ some (a, b)
    → find_text n (h ++ more) ≡ some (a, b ++ more)
find_text-append n [] more a b e =
    let (k, m) = found_at_end n a b e in
    rw m (find_text_here n more (strip_prefix-append n [] more k))
find_text-append n (c ∷ s) more a b e = elim (found_at n c s a b e) [
  | here k m ↦ rw m (find_text_here n (c ∷ s ++ more) (strip_prefix-append n (c ∷ s) more k))
  | later {a'} k m l ↦ rw l (
      find_text_later n c (s ++ more)
        (strip_prefix-none n (c ∷ s) more (omega (arith, needle_fits n s a' b m)) k)
      ∙ ap (before c) (find_text-append n s more a' b m))
]

find_text_same : (n : Bytes) → find_text n n ≡ some ([], [])
find_text_same n =
    find_text_here n n (ap (strip_prefix n) (sym (append-nil n)) ∙ strip_prefix_same n [])

-- What is found is found also where the text ends behind it.
pub find_text_alone :
    (n h a b : Bytes) → find_text n h ≡ some (a, b) → find_text n (a ++ n) ≡ some (a, [])
find_text_alone n [] a b e = let (k, m) = found_at_end n a b e in rw m (find_text_same n)
find_text_alone n (c ∷ s) a b e = elim (found_at n c s a b e) [
  | here k m ↦ rw m (find_text_same n)
  | later {a'} k m l ↦ rw l (
      find_text_later n c (a' ++ n) (
        strip_prefix-none_before n (c ∷ a' ++ n) b
          (rw (find_text_split n s a' b m ∙ sym (append_assoc a' n b)) at k))
      ∙ ap (before c) (find_text_alone n s a' b m))
]
