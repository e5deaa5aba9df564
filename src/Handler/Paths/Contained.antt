-- ===== src/Handler/Paths/Contained.antt =====
-- handler/htdocs.hpp: a request names nothing outside the document root by its path alone.
use boost_taar.Common.{
  ℕ, ◌≡◌, refl, ◌∙◌, ap, Bool, true, false, not, ◌&&◌, ◌||◌, some, List, [], ◌∷◌, ◌++◌, arith, ◌==◌,
  is_empty, any, Bytes, split, pieces, cons_head, All, Option-cases, Bool-cases, append-nil, inl,
  inr, ◌⊎◌,
}
use mathlib.Core.Path.{subst}
use boost_taar.Matcher.Target.{PathArgs, joined}
use boost_taar.Handler.Paths.{
  has, is_dots, plain_segments, starts_slash, is_plain_relative, capture, checked,
  requested_segments, is_hidden, relative, relative_target,
}

-- The segment is a name: not empty or dots, with no separator of either kind and no NUL.
pub record IsName (seg : Bytes) : Type 0 where
  pub inked : is_empty seg ≡ false
  pub no_dots : is_dots seg ≡ false
  pub no_backslash : has b'\\' seg ≡ false
  pub no_nul : has 0 seg ≡ false
  pub no_slash : has b'/' seg ≡ false

abbrev pub Unslashed : Bytes → Type 0
Unslashed seg = has b'/' seg ≡ false

some_list : {xs ys : List Bytes} → some xs ≡ some ys → xs ≡ ys
some_list e = cc e

checked-IsName :
    (segs : List Bytes) {out : List Bytes}
    → All Unslashed segs
    → checked segs ≡ some out
    → All IsName out
unfolding checked
checked-IsName [] {out} h e = subst (All IsName) (some_list e) tt
checked-IsName (seg ∷ segs) {out} (h, hs) e = elim (Bool-cases (is_empty seg)) [
  | inl k ↦ checked-IsName segs hs (rw k at e)
  | inr k ↦ elim (Bool-cases (is_dots seg || has b'\\' seg || has 0 seg)) [
    | inl d ↦ absurd (cc (rw (k, d) at e))
    | inr d ↦ elim (Option-cases (checked segs)) [
      | inl m ↦ absurd (cc (rw (k, d, m) at e))
      | inr (rest, m) ↦ subst (All IsName) (some_list (rw (k, d, m) at e)) (
        record {
          inked = k;
          no_dots = ground (arith, d);
          no_backslash = ground (arith, d);
          no_nul = ground (arith, d);
          no_slash = h;
        },
        checked-IsName segs hs m,
      )
    ]
  ]
]

cons_head-Unslashed :
    (c : ℕ) (ps : List Bytes)
    → (c == b'/') ≡ false
    → All Unslashed ps
    → All Unslashed (cons_head c ps)
cons_head-Unslashed c [] n h = (ground (arith, n), tt)
cons_head-Unslashed c (p ∷ ps) n (h, hs) = (ground (arith, n, h), hs)

split-Unslashed : (s : Bytes) → All Unslashed (split b'/' s)
unfolding split
split-Unslashed [] = (refl, tt)
split-Unslashed (c ∷ s) = elim (Bool-cases (c == b'/')) [
  | inl e ↦ rw e (refl, split-Unslashed s)
  | inr e ↦ rw e (cons_head-Unslashed c (split b'/' s) e (split-Unslashed s))
]

requested_segments-IsName :
    (path_arg : Bytes) (args : PathArgs) (url_segments : List Bytes) {out : List Bytes}
    → All Unslashed url_segments
    → requested_segments path_arg args url_segments ≡ some out
    → All IsName out
unfolding requested_segments
requested_segments-IsName path_arg args url_segments h e =
    elim (Option-cases (capture path_arg args)) [
      | inl m ↦ checked-IsName url_segments h (rw (m, requested_segments) at e)
      | inr (text, m) ↦
          checked-IsName (split b'/' text) (split-Unslashed text) (rw (m, requested_segments) at e)
    ]

-- The names are found again in the path that joins them.
pieces_name :
    (seg s : Bytes)
    → is_empty seg ≡ false
    → Unslashed seg
    → pieces b'/' (seg ++ (b'/' ∷ s)) ≡ seg ∷ pieces b'/' s
unfolding pieces
pieces_name [] s n h = absurd (cc n)
pieces_name (c ∷ []) s n h = ground (arith, h)
pieces_name (c ∷ d ∷ seg) s n h =
    rw (pieces_name (d ∷ seg) s refl (ground (arith, h)), pieces) (ground (arith, h))

pieces_last : (seg : Bytes) → is_empty seg ≡ false → Unslashed seg → pieces b'/' seg ≡ seg ∷ []
unfolding pieces
pieces_last [] n h = absurd (cc n)
pieces_last (c ∷ []) n h = ground (arith, h)
pieces_last (c ∷ d ∷ seg) n h =
    rw (pieces_last (d ∷ seg) refl (ground (arith, h)), pieces) (ground (arith, h))

pieces-joined : (segs : List Bytes) → All IsName segs → pieces b'/' (joined segs) ≡ segs
unfolding joined pieces
pieces-joined [] h = refl
pieces-joined (seg ∷ []) (h, hs) = pieces_last seg h.inked h.no_slash
pieces-joined (seg ∷ next ∷ segs) (h, hs) =
    pieces_name seg (joined (next ∷ segs)) h.inked h.no_slash
    ∙ ap (◌∷◌ seg) (pieces-joined (next ∷ segs) hs)

plain_segments-IsName : (segs : List Bytes) → All IsName segs → plain_segments segs ≡ true
unfolding plain_segments
plain_segments-IsName [] h = refl
plain_segments-IsName (seg ∷ segs) (h, hs) =
    ground (arith, h.inked, h.no_dots, plain_segments-IsName segs hs)

has-append : (c : ℕ) (s t : Bytes) → has c (s ++ t) ≡ (has c s || has c t)
has-append c [] t = refl
has-append c (d ∷ s) t = ground (arith, has-append c s t)

has-joined :
    (c : ℕ) (segs : List Bytes)
    → (b'/' == c) ≡ false
    → All (λ seg. has c seg ≡ false) segs
    → has c (joined segs) ≡ false
unfolding joined
has-joined c [] n h = refl
has-joined c (seg ∷ []) n (h, hs) = h
has-joined c (seg ∷ next ∷ segs) n (h, hs) =
    ground
      (arith, has-append c seg (b'/' ∷ joined (next ∷ segs)), has-joined c (next ∷ segs) n hs, h, n)

no_backslashes : (segs : List Bytes) → All IsName segs → All (λ seg. has b'\\' seg ≡ false) segs
no_backslashes [] h = tt
no_backslashes (seg ∷ segs) (h, hs) = (h.no_backslash, no_backslashes segs hs)

no_nuls : (segs : List Bytes) → All IsName segs → All (λ seg. has 0 seg ≡ false) segs
no_nuls [] h = tt
no_nuls (seg ∷ segs) (h, hs) = (h.no_nul, no_nuls segs hs)

name_first : (seg t : Bytes) → IsName seg → (is_empty (seg ++ t) || starts_slash (seg ++ t)) ≡ false
name_first [] t h = absurd (cc h.inked)
name_first (c ∷ s) t h = ground (arith, h.no_slash)

joined_first :
    (seg : Bytes) (segs : List Bytes)
    → IsName seg
    → (is_empty (joined (seg ∷ segs)) || starts_slash (joined (seg ∷ segs))) ≡ false
unfolding joined
joined_first seg [] h = rw (append-nil seg) at (name_first seg [] h)
joined_first seg (next ∷ segs) h = name_first seg (b'/' ∷ joined (next ∷ segs)) h

is_plain_relative-joined :
    (seg : Bytes) (segs : List Bytes)
    → All IsName (seg ∷ segs)
    → is_plain_relative (joined (seg ∷ segs)) ≡ true
unfolding is_plain_relative
is_plain_relative-joined seg segs h =
    rw (pieces-joined (seg ∷ segs) h, plain_segments-IsName (seg ∷ segs) h)
      (ground (
        arith,
        joined_first seg segs h.0,
        has-joined b'\\' (seg ∷ segs) refl (no_backslashes (seg ∷ segs) h),
        has-joined 0 (seg ∷ segs) refl (no_nuls (seg ∷ segs) h),
      ))

-- What a request that is not refused asks for below the root.
pub record Inside (serve_hidden : Bool) (path : Bytes) : Type 0 where
  pub plain : (path ≡ []) ⊎ (is_plain_relative path ≡ true)
  pub shown : serve_hidden ≡ false → any is_hidden (pieces b'/' path) ≡ false

names-Inside :
    (serve_hidden : Bool) (segs : List Bytes)
    → All IsName segs
    → (not serve_hidden && any is_hidden segs) ≡ false
    → Inside serve_hidden (joined segs)
unfolding joined
names-Inside serve_hidden [] h e = record { plain = inl refl; shown = λ k. unfold pieces in refl }
names-Inside serve_hidden (seg ∷ segs) h e = record {
  plain = inr (is_plain_relative-joined seg segs h);
  shown = λ k. rw (pieces-joined (seg ∷ segs) h) (ground (arith, e, k));
}

relative_eq : {a b : Bytes} → relative a ≡ relative b → a ≡ b
relative_eq e = cc e

-- If no decoded segment of the URL has a slash in it, then a request that is not refused asks for
-- the root itself or for a plain relative path: not absolute, with no empty segment, no `.` and no
-- `..`, no backslash and no NUL; and for no hidden name, unless these are served.
pub relative_target-Inside :
    (serve_hidden : Bool) (path_arg : Bytes) (args : PathArgs) (url_segments : List Bytes)
    (path : Bytes)
    → All Unslashed url_segments
    → relative_target serve_hidden path_arg args url_segments ≡ relative path
    → Inside serve_hidden path
unfolding relative_target
relative_target-Inside serve_hidden path_arg args url_segments path h e =
    elim (Option-cases (requested_segments path_arg args url_segments)) [
      | inl m ↦ absurd (cc (rw (m, relative_target) at e))
      | inr (segs, m) ↦ elim (Bool-cases (not serve_hidden && any is_hidden segs)) [
        | inl k ↦ absurd (cc (rw k at (rw (m, relative_target) at e)))
        | inr k ↦
            subst (Inside serve_hidden) (relative_eq (rw k at (rw (m, relative_target) at e))) (
              names-Inside serve_hidden segs
                (requested_segments-IsName path_arg args url_segments h m) k)
      ]
    ]
