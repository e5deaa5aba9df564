-- ===== src/Matcher/Template/Sound.antt =====
-- matcher/template_parser.hpp: every parsed segment is well formed.
use boost_taar.Common.{
  ℕ, ◌≡◌, ◌≢◌, refl, true, false, List, [], ◌∷◌, ◌++◌, arith, Bytes, All, All-append,
}
use boost_taar.Matcher.Template.{
  validate_literal_char, validate_param_start, validate_param_char, Segment, literal, param,
  greedy_param, State, start, start_segment, start_param, start_greedy_param, in_param, end_param,
  in_literal, Parser, Step, goes_on, fails, Parsed, segments, failure, step_in, finish, run,
  parse_template,
}

abbrev pub IsLiteral : Bytes → Type 0
IsLiteral value = (value ≢ []) × All (λ c. validate_literal_char c ≡ true) value

-- A name starts with a letter or an underscore.
abbrev pub IsName : Bytes → Type 0
IsName [] = ⊥
IsName (c ∷ cs) = (validate_param_start c ≡ true) × All (λ d. validate_param_char d ≡ true) cs

abbrev pub IsSegment : Segment → Type 0
IsSegment (literal value) = IsLiteral value
IsSegment (param value) = IsName value
IsSegment (greedy_param value) = IsName value

-- What holds of the text read so far in each state.
abbrev Reading : State → Bytes → Type 0
Reading in_literal value = IsLiteral value
Reading in_param value = IsName value
Reading start value = Unit
Reading start_segment value = Unit
Reading start_param value = Unit
Reading start_greedy_param value = Unit
Reading end_param value = Unit

abbrev Inv : Parser → Type 0
Inv p = Reading p.state p.value × All IsSegment p.result

abbrev AfterStep : Step → Type 0
AfterStep (goes_on p) = Inv p
AfterStep (fails e) = Unit

IsName-push :
    (value : Bytes) (c : ℕ) → IsName value → validate_param_char c ≡ true → IsName (value ++ c ∷ [])
IsName-push [] c h k = absurd h
IsName-push (d ∷ value) c (h, hs) k = (h, All-append _ value (c ∷ []) hs (k, tt))

IsLiteral-push :
    (value : Bytes) (c : ℕ)
    → IsLiteral value
    → validate_literal_char c ≡ true
    → IsLiteral (value ++ c ∷ [])
IsLiteral-push [] c (h, hs) k = absurd (h refl)
IsLiteral-push (d ∷ value) c (h, hs) k = (λ e. cc, All-append _ (d ∷ value) (c ∷ []) hs (k, tt))

step_in-AfterStep :
    (s : State) (p : Parser) (ch : ℕ)
    → p.state ≡ s
    → Reading s p.value
    → All IsSegment p.result
    → AfterStep (step_in s p ch)
unfolding step_in
step_in-AfterStep start p ch e r h = ground arith
step_in-AfterStep in_param p ch e r h = ground (
  arith,
  IsName-push p.value ch r,
  All-append IsSegment p.result (param p.value ∷ []),
  All-append IsSegment p.result (greedy_param p.value ∷ []),
)
step_in-AfterStep in_literal p ch e r h =
    ground
      (arith, IsLiteral-push p.value ch r, All-append IsSegment p.result (literal p.value ∷ []))
step_in-AfterStep _ p ch e r h = ground arith

abbrev AllParsed : Parsed → Type 0
AllParsed (segments result) = All IsSegment result
AllParsed (failure e) = Unit

finish-AllParsed :
    (s : State) (p : Parser) → Reading s p.value → All IsSegment p.result → AllParsed (finish s p)
unfolding finish
finish-AllParsed in_literal p r h = All-append IsSegment p.result (literal p.value ∷ []) h (r, tt)
finish-AllParsed start p r h = tt
finish-AllParsed start_segment p r h = h
finish-AllParsed end_param p r h = h
finish-AllParsed _ p r h = tt

run-AllParsed :
    (p : Parser) (path : Bytes)
    → Reading p.state p.value
    → All IsSegment p.result
    → AllParsed (run p path)
unfolding run
run-AllParsed p [] r h = finish-AllParsed p.state p r h
run-AllParsed p (ch ∷ path) r h =
    after (step_in p.state p ch) (step_in-AfterStep p.state p ch refl r h)
      (λ q k ks. run-AllParsed q path k ks)
  where
    after :
        (s : Step)
        → AfterStep s
        → ((q : Parser) → Reading q.state q.value → All IsSegment q.result → AllParsed (run q path))
        → AllParsed (elim s as (λ _. Parsed) [ goes_on q ↦ run q path | fails e ↦ failure e ])
    after (goes_on q) k ih = ih q k.0 k.1
    after (fails e) k ih = tt

-- Every segment of a parsed template is well formed: a literal is not empty and made of literal
-- characters, and a name starts with a letter or an underscore.
pub parse_template-IsSegment :
    (path : Bytes) {result : List Segment}
    → parse_template path ≡ segments result
    → All IsSegment result
unfolding parse_template
parse_template-IsSegment path {result} e = rw e at (
    run-AllParsed (record { state = start; is_greedy_param = false; value = []; result = [] }) path
      tt tt)
