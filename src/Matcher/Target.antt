-- ===== src/Matcher/Target.antt =====
-- matcher/target.hpp: the loop that matches the segments of a request target against a parsed
-- template, `target_t::operator==`. The iterators are the segments left; `held` are those from
-- `greedy_target_iter` to `target_iter`, and `name` is `greedy_param_name`.
pub mod Spec
pub mod Sound
pub mod Complete
use boost_taar.Common.{
  ℕ, Bool, true, false, not, List, [], ◌∷◌, ◌++◌, if◌then◌else◌, is_empty, Bytes, beq, Option, none,
  some,
}
use boost_taar.Matcher.Template.{Segment, literal, param, greedy_param}

-- `context::path_args`, an unordered map, in the order of insertion.
abbrev pub PathArgs : Type 0
PathArgs = List (Bytes × Bytes)

unfoldable pub find : Bytes → PathArgs → Option Bytes
find key [] = none
find key ((k, v) ∷ args) = if beq k key then some v else find key args

-- `emplace`: an argument that is there stays.
unfoldable pub emplace : Bytes → Bytes → PathArgs → PathArgs
emplace k v [] = (k, v) ∷ []
emplace k v ((j, w) ∷ args) = if beq j k then (j, w) ∷ args else (j, w) ∷ emplace k v args

-- The segments of a greedy parameter, joined by slashes.
unfoldable pub joined : List Bytes → Bytes
joined [] = []
joined (s ∷ []) = s
joined (s ∷ t ∷ ts) = s ++ (b'/' ∷ joined (t ∷ ts))

-- The lambda `finish_greedy_param_if_any`; its callers clear `greedy_param_name`.
unfoldable pub finish_greedy : Bytes → List Bytes → PathArgs → PathArgs
finish_greedy name held args = if is_empty name then args else emplace name (joined held) args

-- The loop and the tests behind it. The result is whether the target matches, and the arguments,
-- which are stored in the context also where it does not.
unfoldable pub match_segments :
    List Segment → List Bytes → Bytes → List Bytes → PathArgs → Bool × PathArgs
match_segments [] ts name held args = (is_empty ts, finish_greedy name held args)
match_segments (greedy_param g ∷ []) ts name held args =
    (true, finish_greedy g ts (finish_greedy name held args))
match_segments (greedy_param g ∷ s ∷ tpl) [] name held args =
    match_segments (s ∷ tpl) [] g [] (finish_greedy name held args)
match_segments (greedy_param g ∷ s ∷ tpl) (t ∷ ts) name held args =
    match_segments (s ∷ tpl) ts g (t ∷ []) (finish_greedy name held args)
match_segments (param p ∷ tpl) [] name held args = (false, finish_greedy name held args)
match_segments (param p ∷ tpl) (t ∷ ts) name held args =
    match_segments tpl ts [] [] (emplace p t (finish_greedy name held args))
match_segments (literal v ∷ tpl) [] name held args = (false, finish_greedy name held args)
match_segments (literal v ∷ tpl) (t ∷ ts) name held args =
    let found = match_segments tpl ts [] [] (finish_greedy name held args) in
    let skipped = match_segments (literal v ∷ tpl) ts name (held ++ t ∷ []) args in
    if beq v t then found else if not (is_empty name) then skipped else (false, args)

unfoldable pub match_target : List Segment → List Bytes → PathArgs → Bool × PathArgs
match_target template target args = match_segments template target [] [] args
