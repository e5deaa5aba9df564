-- ===== src/Handler/Glob/Reference.antt =====
-- handler/htdocs.hpp: what a glob means, and that `glob_match` decides it.
use boost_taar.Common.{
  ℕ, suc, ◌≡◌, refl, ◌∙◌, ap, sym, Bool, true, false, ◌&&◌, ◌||◌, List, [], ◌∷◌, arith, ◌==◌,
  length, is_empty, Bytes,
}
use boost_taar.Handler.Glob.{
  Token, whole_segments, any_run, run, one, exact, tokens, shift, scan_run, scan_segments, no_slash,
  glob_step, glob_loop, all_false, reach_end, glob_subject, glob_match,
}

-- Some number of characters that pass, then the rest.
abbrev pub after_run : (ℕ → Bool) → (Bytes → Bool) → Bytes → Bool
after_run test rest [] = rest []
after_run test rest (d ∷ s) = rest (d ∷ s) || (test d && after_run test rest s)

-- The rest behind some slash.
abbrev pub behind_slash : (Bytes → Bool) → Bytes → Bool
behind_slash rest [] = false
behind_slash rest (d ∷ s) = (d == b'/' && rest s) || behind_slash rest s

abbrev pub one_char : (ℕ → Bool) → (Bytes → Bool) → Bytes → Bool
one_char test rest [] = false
one_char test rest (d ∷ s) = test d && rest s

-- Whether a text is one that the tokens describe: `*` is any run of characters but slashes, `**`
-- any run, `?` a character but a slash, and `**/` zero or more whole segments.
abbrev pub globs : List Token → Bytes → Bool
globs [] s = is_empty s
globs (whole_segments ∷ ts) s = globs ts s || behind_slash (globs ts) s
globs (any_run ∷ ts) s = after_run (λ d. true) (globs ts) s
globs (run ∷ ts) s = after_run no_slash (globs ts) s
globs (one ∷ ts) s = one_char no_slash (globs ts) s
globs (exact c ∷ ts) s = one_char (λ d. d == c) (globs ts) s

-- Some position that is reached, and what stands from there on is accepted.
abbrev somewhere : (Bytes → Bool) → List Bool → Bytes → Bool
somewhere f [] s = false
somewhere f (r ∷ rs) [] = r && f []
somewhere f (r ∷ rs) (d ∷ s) = (r && f (d ∷ s)) || somewhere f rs s

somewhere-shift :
    (test : ℕ → Bool) (g : Bytes → Bool) (b : Bool) (reach : List Bool) (s : Bytes)
    → somewhere g (b ∷ shift test reach s) s ≡ ((b && g s) || somewhere (one_char test g) reach s)
unfolding shift
somewhere-shift test g b [] [] = ground arith
somewhere-shift test g b [] (d ∷ s) = ground arith
somewhere-shift test g b (r ∷ rs) [] = ground arith
somewhere-shift test g b (r ∷ rs) (d ∷ s) =
    ground (arith, somewhere-shift test g (r && test d) rs s)

somewhere-scan_run :
    (test : ℕ → Bool) (g : Bytes → Bool) (prev : Bool) (reach : List Bool) (s : Bytes)
    → length reach ≡ suc (length s)
    → somewhere g (scan_run test prev reach s) s
      ≡ ((prev && after_run test g s) || somewhere (after_run test g) reach s)
unfolding scan_run
somewhere-scan_run test g prev [] s h = absurd (omega (arith, h))
somewhere-scan_run test g prev (r ∷ rs) [] h = ground arith
somewhere-scan_run test g prev (r ∷ rs) (d ∷ s) h =
    ground (arith, somewhere-scan_run test g ((r || prev) && test d) rs s (omega (arith, h)))

somewhere-scan_segments :
    (g : Bytes → Bool) (seen behind : Bool) (reach : List Bool) (s : Bytes)
    → length reach ≡ suc (length s)
    → somewhere g (scan_segments seen behind reach s) s ≡ (
        (seen && ((behind && g s) || behind_slash g s))
        || somewhere (λ t. g t || behind_slash g t) reach s)
unfolding scan_segments
somewhere-scan_segments g seen behind [] s h = absurd (omega (arith, h))
somewhere-scan_segments g seen behind (r ∷ rs) [] h = ground arith
somewhere-scan_segments g seen behind (r ∷ rs) (d ∷ s) h =
    ground (arith, somewhere-scan_segments g (seen || r) (d == b'/') rs s (omega (arith, h)))

length-scan_run :
    (test : ℕ → Bool) (prev : Bool) (reach : List Bool) (s : Bytes)
    → length reach ≡ suc (length s)
    → length (scan_run test prev reach s) ≡ suc (length s)
unfolding scan_run
length-scan_run test prev [] s h = absurd (omega (arith, h))
length-scan_run test prev (r ∷ rs) [] h = refl
length-scan_run test prev (r ∷ rs) (d ∷ s) h =
    ap suc (length-scan_run test _ rs s (omega (arith, h)))

length-scan_segments :
    (seen behind : Bool) (reach : List Bool) (s : Bytes)
    → length reach ≡ suc (length s)
    → length (scan_segments seen behind reach s) ≡ suc (length s)
unfolding scan_segments
length-scan_segments seen behind [] s h = absurd (omega (arith, h))
length-scan_segments seen behind (r ∷ rs) [] h = refl
length-scan_segments seen behind (r ∷ rs) (d ∷ s) h =
    ap suc (length-scan_segments (seen || r) (d == b'/') rs s (omega (arith, h)))

length-shift :
    (test : ℕ → Bool) (reach : List Bool) (s : Bytes)
    → length reach ≡ suc (length s)
    → length (shift test reach s) ≡ length s
unfolding shift
length-shift test [] s h = absurd (omega (arith, h))
length-shift test (r ∷ rs) [] h = refl
length-shift test (r ∷ rs) (d ∷ s) h = ap suc (length-shift test rs s (omega (arith, h)))

length-glob_step :
    (t : Token) (reach : List Bool) (s : Bytes)
    → length reach ≡ suc (length s)
    → length (glob_step t reach s) ≡ suc (length s)
unfolding glob_step
length-glob_step whole_segments reach s h = length-scan_segments false false reach s h
length-glob_step any_run reach s h = length-scan_run (λ d. true) false reach s h
length-glob_step run reach s h = length-scan_run no_slash false reach s h
length-glob_step one reach s h = ap suc (length-shift no_slash reach s h)
length-glob_step (exact c) reach s h = ap suc (length-shift (λ d. d == c) reach s h)

-- A round of the loop keeps what the tokens left accept from the positions reached.
somewhere-glob_step :
    (t : Token) (ts : List Token) (reach : List Bool) (s : Bytes)
    → length reach ≡ suc (length s)
    → somewhere (globs ts) (glob_step t reach s) s ≡ somewhere (globs (t ∷ ts)) reach s
unfolding glob_step
somewhere-glob_step whole_segments ts reach s h =
    somewhere-scan_segments (globs ts) false false reach s h
somewhere-glob_step any_run ts reach s h = somewhere-scan_run (λ d. true) (globs ts) false reach s h
somewhere-glob_step run ts reach s h = somewhere-scan_run no_slash (globs ts) false reach s h
somewhere-glob_step one ts reach s h = somewhere-shift no_slash (globs ts) false reach s
somewhere-glob_step (exact c) ts reach s h = somewhere-shift (λ d. d == c) (globs ts) false reach s

somewhere-glob_loop :
    (ts : List Token) (reach : List Bool) (s : Bytes)
    → length reach ≡ suc (length s)
    → somewhere is_empty (glob_loop ts reach s) s ≡ somewhere (globs ts) reach s
unfolding glob_loop
somewhere-glob_loop [] reach s h = refl
somewhere-glob_loop (t ∷ ts) reach s h =
    somewhere-glob_loop ts (glob_step t reach s) s (length-glob_step t reach s h)
    ∙ somewhere-glob_step t ts reach s h

somewhere-reach_end :
    (reach : List Bool) (s : Bytes) → somewhere is_empty reach s ≡ reach_end reach s
unfolding reach_end
somewhere-reach_end [] s = refl
somewhere-reach_end (r ∷ rs) [] = ground arith
somewhere-reach_end (r ∷ rs) (d ∷ s) = ground (arith, somewhere-reach_end rs s)

somewhere-all_false :
    (f : Bytes → Bool) (s : Bytes) (d : ℕ) → somewhere f (all_false (d ∷ s)) s ≡ false
unfolding all_false
somewhere-all_false f [] d = refl
somewhere-all_false f (e ∷ s) d = somewhere-all_false f s e

somewhere_first : (f : Bytes → Bool) (s : Bytes) → somewhere f (true ∷ all_false s) s ≡ f s
unfolding all_false
somewhere_first f [] = refl
somewhere_first f (d ∷ s) = ground (arith, somewhere-all_false f s d)

length-all_false : (s : Bytes) → length (all_false s) ≡ length s
unfolding all_false
length-all_false [] = refl
length-all_false (d ∷ s) = ap suc (length-all_false s)

-- `glob_match` decides whether the tokens of the pattern describe the path, or its last segment
-- where no slash stands in the pattern.
pub glob_match-globs :
    (pattern_text path : Bytes)
    → glob_match pattern_text path ≡ globs (tokens pattern_text) (glob_subject pattern_text path)
unfolding glob_match
glob_match-globs pattern_text path =
    let s = glob_subject pattern_text path in
    sym (somewhere-reach_end (glob_loop (tokens pattern_text) (true ∷ all_false s) s) s)
    ∙ somewhere-glob_loop (tokens pattern_text) (true ∷ all_false s) s (ap suc (length-all_false s))
    ∙ somewhere_first (globs (tokens pattern_text)) s
