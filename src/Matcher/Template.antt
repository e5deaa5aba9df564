-- ===== src/Matcher/Template.antt =====
-- matcher/template_parser.hpp: the character classes and the state machine of `parse_template`.
-- A segment's type and value are one constructor applied to the value, and `value_begin` with the
-- current position is the text read since then, `value`.
pub mod Sound
pub mod RoundTrip
use boost_taar.Common.{
  ℕ, Bool, true, false, ◌||◌, List, [], ◌∷◌, ◌++◌, ◌==◌, if◌then◌else◌, between, Bytes, codes, any,
}

unfoldable pub is_alpha : ℕ → Bool
is_alpha ch = between b'A' b'Z' ch || between b'a' b'z' ch

unfoldable pub is_digit : ℕ → Bool
is_digit ch = between b'0' b'9' ch

unfoldable pub is_alphanum : ℕ → Bool
unfolding is_alpha is_digit
is_alphanum ch = is_alpha ch || is_digit ch

unfoldable pub validate_literal_char : ℕ → Bool
unfolding is_alphanum
validate_literal_char ch = is_alphanum ch || any (λ c. ch == c) (codes "-._~!$&'()*+,;=:@")

unfoldable pub validate_param_start : ℕ → Bool
unfolding is_alpha
validate_param_start ch = is_alpha ch || ch == b'_'

unfoldable pub validate_param_char : ℕ → Bool
unfolding is_alphanum
validate_param_char ch = is_alphanum ch || ch == b'-' || ch == b'.' || ch == b'_' || ch == b'~'

pub data Segment : Type 0 where
  literal param greedy_param : Bytes → Segment

pub data Error : Type 0 where
  no_absolute_template invalid_template : Error

pub data State : Type 0 where
  start start_segment start_param start_greedy_param in_param end_param in_literal : State

pub record Parser : Type 0 where
  pub state : State
  pub is_greedy_param : Bool
  pub value : Bytes
  pub result : List Segment

pub data Step : Type 0 where
  goes_on : Parser → Step
  fails : Error → Step

pub data Parsed : Type 0 where
  segments : List Segment → Parsed
  failure : Error → Parsed

abbrev pub push : Parser → Segment → State → Parser
push p s next = record p { result = p.result ++ s ∷ []; state = next }

abbrev pub param_segment : Bool → Bytes → Segment
param_segment greedy value = if greedy then greedy_param value else param value

unfoldable pub step_in : State → Parser → ℕ → Step
step_in start p ch =
    if ch == b'/' then goes_on (record p { state = start_segment }) else fails no_absolute_template
step_in start_segment p ch =
    if ch == b'/'
    then goes_on p
    else if ch == b'{'
    then goes_on (record p { state = start_param })
    else if validate_literal_char ch
    then goes_on (record p { value = ch ∷ []; state = in_literal })
    else fails invalid_template
step_in start_param p ch =
    if ch == b'*'
    then goes_on (record p { state = start_greedy_param })
    else if validate_param_start ch
    then goes_on (record p { is_greedy_param = false; value = ch ∷ []; state = in_param })
    else fails invalid_template
step_in start_greedy_param p ch =
    if validate_param_start ch
    then goes_on (record p { is_greedy_param = true; value = ch ∷ []; state = in_param })
    else fails invalid_template
step_in in_param p ch =
    if ch == b'}'
    then goes_on (push p (param_segment p.is_greedy_param p.value) end_param)
    else if validate_param_char ch
    then goes_on (record p { value = p.value ++ ch ∷ [] })
    else fails invalid_template
step_in end_param p ch =
    if ch == b'/' then goes_on (record p { state = start_segment }) else fails invalid_template
step_in in_literal p ch =
    if ch == b'/'
    then goes_on (push p (literal p.value) start_segment)
    else if validate_literal_char ch
    then goes_on (record p { value = p.value ++ ch ∷ [] })
    else fails invalid_template

-- The tests behind the loop.
unfoldable pub finish : State → Parser → Parsed
finish start p = failure no_absolute_template
finish in_literal p = segments (p.result ++ literal p.value ∷ [])
finish start_segment p = segments p.result
finish end_param p = segments p.result
finish start_param p = failure invalid_template
finish start_greedy_param p = failure invalid_template
finish in_param p = failure invalid_template

unfoldable pub run : Parser → Bytes → Parsed
run p [] = finish p.state p
run p (ch ∷ path) = elim (step_in p.state p ch) [ goes_on q ↦ run q path | fails e ↦ failure e ]

unfoldable pub parse_template : Bytes → Parsed
parse_template path =
    run (record { state = start; is_greedy_param = false; value = []; result = [] }) path
