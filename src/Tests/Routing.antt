-- ===== src/Tests/Routing.antt =====
-- Runs of matcher/template_parser.hpp and matcher/target.hpp.
use boost_taar.Common.{◌≡◌, refl, true, false, List, [], ◌∷◌, Bytes, codes, All}
use boost_taar.Matcher.Template.{
  Segment, literal, param, greedy_param, segments, failure, no_absolute_template, invalid_template,
  parse_template, run, step_in, finish, validate_literal_char, validate_param_start,
  validate_param_char,
}
use boost_taar.Matcher.Template.Sound.{IsSegment, parse_template-IsSegment}
use boost_taar.Matcher.Template.RoundTrip.{template_text, parse_template-template_text}
use boost_taar.Matcher.Target.{
  PathArgs, emplace, joined, finish_greedy, match_segments, match_target,
}
use boost_taar.Matcher.Target.Spec.{Fits, done, same, one, many, emplace_all, IsNamed}
use boost_taar.Matcher.Target.Sound.{Explained, match_target_sound}
use boost_taar.Matcher.Target.Complete.{match_target_complete}

abbrev files : List Segment
files = literal (codes "users") ∷ param (codes "id") ∷ greedy_param (codes "path") ∷ []

parse_template_runs :
    (parse_template (codes "//users/{id}/{*path}") ≡ segments files)
    × (parse_template (codes "users") ≡ failure no_absolute_template)
    × (parse_template (codes "/{*}") ≡ failure invalid_template)
    × (parse_template (codes "/a/") ≡ segments (literal (codes "a") ∷ []))
unfolding parse_template run step_in finish validate_literal_char validate_param_start
    validate_param_char
parse_template_runs = (refl, refl, refl, refl)

files-IsSegment : All IsSegment files
files-IsSegment = parse_template-IsSegment (codes "//users/{id}/{*path}") parse_template_runs.0

parse_template-template_text_example : parse_template (template_text files) ≡ segments files
parse_template-template_text_example = parse_template-template_text files files-IsSegment

abbrev asked : List Bytes
asked = codes "users" ∷ codes "7" ∷ codes "a" ∷ codes "b" ∷ []

abbrev captured : PathArgs
captured = (codes "id", codes "7") ∷ (codes "path", codes "a/b") ∷ []

match_target_runs :
    (match_target files asked [] ≡ (true, captured))
    × (match_target files (codes "users" ∷ []) [] ≡ (false, []))
    × (match_target
          (greedy_param (codes "p") ∷ literal (codes "b") ∷ [])
          (codes "x" ∷ codes "y" ∷ codes "b" ∷ [])
          []
        ≡ (true, (codes "p", codes "x/y") ∷ []))
unfolding match_target match_segments finish_greedy emplace joined
match_target_runs = (refl, refl, refl)

match_target_sound_example : Explained files asked [] captured
match_target_sound_example = match_target_sound files asked [] files-IsNamed match_target_runs.0
  where
    files-IsNamed : IsNamed files
    files-IsNamed = (λ e. cc, tt)

files_fit :
    Fits files asked
      ((codes "id", codes "7") ∷ (codes "path", joined (codes "a" ∷ codes "b" ∷ [])) ∷ [])
files_fit = same (one (many (codes "a" ∷ codes "b" ∷ []) [] refl done))

match_target_complete_example : match_target files asked [] ≡ (
  true,
  emplace_all
      ((codes "id", codes "7") ∷ (codes "path", joined (codes "a" ∷ codes "b" ∷ [])) ∷ [])
      [],
)
match_target_complete_example = match_target_complete [] files_fit (λ e. cc)
