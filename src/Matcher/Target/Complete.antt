-- ===== src/Matcher/Target/Complete.antt =====
-- matcher/target.hpp: which fits the loop finds.
use boost_taar.Common.{◌≡◌, ◌≢◌, refl, true, false, List, [], ◌∷◌, Bytes, beq_iff, append-nil}
use boost_taar.Matcher.Template.{Segment, literal, param, greedy_param}
use boost_taar.Matcher.Target.Spec.{Fits, done, same, one, many, emplace_all}
use boost_taar.Matcher.Target.{
  PathArgs, emplace, joined, finish_greedy, match_segments, match_target,
}

-- A greedy parameter stands at the end only.
abbrev pub IsTrailing : List Segment → Type 0
IsTrailing [] = Unit
IsTrailing (greedy_param g ∷ []) = g ≢ []
IsTrailing (greedy_param g ∷ s ∷ tpl) = ⊥
IsTrailing (param p ∷ tpl) = IsTrailing tpl
IsTrailing (literal v ∷ tpl) = IsTrailing tpl

finish_greedy-trailing :
    (g : Bytes) (us : List Bytes) (args : PathArgs)
    → g ≢ []
    → finish_greedy g us args ≡ emplace g (joined us) args
unfolding finish_greedy
finish_greedy-trailing [] us args h = absurd (h refl)
finish_greedy-trailing (c ∷ g) us args h = refl

no_greedy_args : (args : PathArgs) → finish_greedy [] [] args ≡ args
unfolding finish_greedy
no_greedy_args args = refl

segments_complete :
    {tpl : List Segment} {ts : List Bytes} {binds : PathArgs} (args : PathArgs)
    → Fits tpl ts binds
    → IsTrailing tpl
    → match_segments tpl ts [] [] args ≡ (true, emplace_all binds args)
unfolding match_segments
segments_complete args done t = rw (no_greedy_args args)
segments_complete args (same {v} f) t =
    rw ((beq_iff v v).1 refl, no_greedy_args args) (segments_complete args f t)
segments_complete args (one {p} {t = u} f) t =
    rw (no_greedy_args args) (segments_complete (emplace p u args) f t)
segments_complete args (many {g} us rest e done) t =
    rw (no_greedy_args args) (cc (finish_greedy-trailing g us args t, append-nil us))
segments_complete args (many {g} us rest e (same f)) t = absurd t
segments_complete args (many {g} us rest e (one f)) t = absurd t
segments_complete args (many {g} us rest e (many vs more e' f)) t = absurd t

-- Where a greedy parameter stands at the end only, every fit is found, with its arguments.
pub match_target_complete :
    {template : List Segment} {target : List Bytes} {binds : PathArgs} (args : PathArgs)
    → Fits template target binds
    → IsTrailing template
    → match_target template target args ≡ (true, emplace_all binds args)
unfolding match_target
match_target_complete args f t = segments_complete args f t

-- The segment is no greedy parameter.
abbrev pub TakesOne : Segment → Type 0
TakesOne (literal v) = Unit
TakesOne (param p) = Unit
TakesOne (greedy_param g) = ⊥

-- A greedy parameter with another segment behind it takes at least one segment: a target of one
-- segment is never matched, although the template may fit it with the greedy parameter empty.
pub match_target_inner_greedy :
    (g : Bytes) (s : Segment) (tpl : List Segment) (t : Bytes) (args : PathArgs)
    → TakesOne s
    → (match_target (greedy_param g ∷ s ∷ tpl) (t ∷ []) args).0 ≡ false
unfolding match_target match_segments
match_target_inner_greedy g (literal v) tpl t args h = refl
match_target_inner_greedy g (param p) tpl t args h = refl
match_target_inner_greedy g (greedy_param k) tpl t args h = absurd h
