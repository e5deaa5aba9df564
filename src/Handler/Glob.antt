-- ===== src/Handler/Glob.antt =====
-- handler/htdocs.hpp: `cache_rules::glob_match`. `reach` is the vector of the source: a flag for each
-- position of the path, the one behind its end included. What the loop does at `p` depends on up
-- to three characters of the pattern, which are one token here.
pub mod Reference
use boost_taar.Common.{
  ℕ, Bool, true, false, not, ◌&&◌, ◌||◌, List, [], ◌∷◌, ◌==◌, if◌then◌else◌, any, Bytes,
}

pub data Token : Type 0 where
  whole_segments any_run run one : Token
  exact : ℕ → Token

abbrev char_token : ℕ → Token
char_token c = if c == b'?' then one else exact c

unfoldable pub tokens : Bytes → List Token
tokens [] = []
tokens (c ∷ []) = (if c == b'*' then run else char_token c) ∷ []
tokens (c ∷ d ∷ []) =
    let both = any_run ∷ [] in
    let single = tokens (d ∷ []) in
    if c == b'*' then if d == b'*' then both else run ∷ single else char_token c ∷ single
tokens (c ∷ d ∷ e ∷ s) =
    let three = whole_segments ∷ tokens s in
    let two = any_run ∷ tokens (e ∷ s) in
    let single = tokens (d ∷ e ∷ s) in
    if c == b'*'
    then if d == b'*' then if e == b'/' then three else two else run ∷ single
    else char_token c ∷ single

-- `next[j + 1] = reach[j] && …`, behind `next[0] = false`.
unfoldable pub shift : (ℕ → Bool) → List Bool → Bytes → List Bool
shift test (r ∷ rs) (d ∷ s) = (r && test d) ∷ shift test rs s
shift test _ _ = []

-- `next[j] = reach[j] || (j > 0 && next[j - 1] && …)`: `prev` is what the position before passes on.
unfoldable pub scan_run : (ℕ → Bool) → Bool → List Bool → Bytes → List Bool
scan_run test prev [] s = []
scan_run test prev (r ∷ rs) [] = (r || prev) ∷ []
scan_run test prev (r ∷ rs) (d ∷ s) = (r || prev) ∷ scan_run test ((r || prev) && test d) rs s

-- `next[j] = reach[j] || (seen && j > 0 && path[j - 1] == '/')`.
unfoldable pub scan_segments : Bool → Bool → List Bool → Bytes → List Bool
scan_segments seen behind [] s = []
scan_segments seen behind (r ∷ rs) [] = (r || (seen && behind)) ∷ []
scan_segments seen behind (r ∷ rs) (d ∷ s) =
    (r || (seen && behind)) ∷ scan_segments (seen || r) (d == b'/') rs s

abbrev pub no_slash : ℕ → Bool
no_slash d = not (d == b'/')

-- One round of the loop over the pattern.
unfoldable pub glob_step : Token → List Bool → Bytes → List Bool
glob_step whole_segments reach path = scan_segments false false reach path
glob_step any_run reach path = scan_run (λ d. true) false reach path
glob_step run reach path = scan_run no_slash false reach path
glob_step one reach path = false ∷ shift no_slash reach path
glob_step (exact c) reach path = false ∷ shift (λ d. d == c) reach path

unfoldable pub glob_loop : List Token → List Bool → Bytes → List Bool
glob_loop [] reach path = reach
glob_loop (t ∷ ts) reach path = glob_loop ts (glob_step t reach path) path

unfoldable pub all_false : Bytes → List Bool
all_false [] = []
all_false (d ∷ s) = false ∷ all_false s

-- `reach[path.size()]`
unfoldable pub reach_end : List Bool → Bytes → Bool
reach_end [] s = false
reach_end (r ∷ rs) [] = r
reach_end (r ∷ rs) (d ∷ s) = reach_end rs s

-- What stands behind the last slash, or all of the path.
unfoldable pub last_segment : Bytes → Bytes
last_segment [] = []
last_segment (d ∷ s) =
    let rest = last_segment s in if any (λ e. e == b'/') (d ∷ s) then rest else d ∷ s

-- The part of the path that is matched.
unfoldable pub glob_subject : Bytes → Bytes → Bytes
glob_subject pattern_text path =
    if any (λ c. c == b'/') pattern_text then path else last_segment path

unfoldable pub glob_match : Bytes → Bytes → Bool
glob_match pattern_text path =
    let subject = glob_subject pattern_text path in
    reach_end (glob_loop (tokens pattern_text) (true ∷ all_false subject) subject) subject
