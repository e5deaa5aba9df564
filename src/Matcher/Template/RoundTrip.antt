-- ===== src/Matcher/Template/RoundTrip.antt =====
-- matcher/template_parser.hpp: a printed template is read back, and which texts are not absolute.
use boost_taar.Common.{
  ℕ, ◌≡◌, refl, ◌∙◌, ap, sym, Bool, true, false, List, [], ◌∷◌, ◌++◌, arith, Bytes, All, test-ne,
  ◌==◌, append-nil, append_assoc, if◌then◌else◌,
}
use boost_taar.Matcher.Template.Sound.{IsName, IsSegment}
use boost_taar.Matcher.Template.{
  validate_literal_char, validate_param_start, validate_param_char, Segment, literal, param,
  greedy_param, start, start_segment, start_param, start_greedy_param, in_param, end_param,
  in_literal, Parser, segments, step_in, finish, run, parse_template, param_segment,
}

abbrev pub segment_text : Segment → Bytes
segment_text (literal v) = v
segment_text (param v) = b'{' ∷ (v ++ (b'}' ∷ []))
segment_text (greedy_param v) = b'{' ∷ b'*' ∷ (v ++ (b'}' ∷ []))

-- `/a/{b}/{*c}`; the empty list is `/`.
abbrev pub template_text : List Segment → Bytes
template_text [] = b'/' ∷ []
template_text (s ∷ []) = b'/' ∷ segment_text s
template_text (s ∷ t ∷ ts) = b'/' ∷ (segment_text s ++ template_text (t ∷ ts))

literal-ne :
    (c : ℕ) → validate_literal_char c ≡ true → ((c == b'/') ≡ false) × ((c == b'{') ≡ false)
unfolding validate_literal_char
literal-ne c h =
    (test-ne validate_literal_char b'/' c refl h, test-ne validate_literal_char b'{' c refl h)

param-ne : (c : ℕ) → validate_param_char c ≡ true → (c == b'}') ≡ false
unfolding validate_param_char
param-ne c h = test-ne validate_param_char b'}' c refl h

start-ne : (c : ℕ) → validate_param_start c ≡ true → (c == b'*') ≡ false
unfolding validate_param_start
start-ne c h = test-ne validate_param_start b'*' c refl h

run-in_literal :
    (cs rest : Bytes) (p : Parser)
    → p.state ≡ in_literal
    → All (λ c. validate_literal_char c ≡ true) cs
    → run p (cs ++ rest) ≡ run (record p { value = p.value ++ cs }) rest
unfolding run step_in
run-in_literal [] rest p m h = rw append-nil
run-in_literal (c ∷ cs) rest p m (h, hs) = ground (
  arith,
  literal-ne c h,
  run-in_literal cs rest (record p { value = p.value ++ c ∷ [] }) m hs,
  append_assoc p.value (c ∷ []) cs,
)

-- The parser behind a parameter's closing brace.
abbrev closed : Bool → Bytes → Parser → Parser
closed greedy v p = record {
  state = end_param;
  is_greedy_param = greedy;
  value = v;
  result = p.result ++ param_segment greedy v ∷ [];
}

run-in_param :
    (cs rest : Bytes) (p : Parser)
    → p.state ≡ in_param
    → All (λ c. validate_param_char c ≡ true) cs
    → run p ((cs ++ (b'}' ∷ [])) ++ rest) ≡ run (closed p.is_greedy_param (p.value ++ cs) p) rest
unfolding run step_in
run-in_param [] rest p m h = rw append-nil (ground arith)
run-in_param (c ∷ cs) rest p m (h, hs) = ground (
  arith,
  param-ne c h,
  run-in_param cs rest (record p { value = p.value ++ c ∷ [] }) m hs,
  append_assoc p.value (c ∷ []) cs,
)

run-name :
    (greedy : Bool) (v rest : Bytes) (p : Parser)
    → p.state ≡ (if greedy then start_greedy_param else start_param)
    → IsName v
    → run p ((v ++ (b'}' ∷ [])) ++ rest) ≡ run (closed greedy v p) rest
unfolding run step_in
run-name greedy [] rest p m h = absurd h
run-name true (c ∷ cs) rest p m (h, hs) = ground (
  arith,
  run-in_param cs rest (record p { is_greedy_param = true; value = c ∷ []; state = in_param }) refl
      hs,
)
run-name false (c ∷ cs) rest p m (h, hs) = ground (
  arith,
  start-ne c h,
  run-in_param cs rest (record p { is_greedy_param = false; value = c ∷ []; state = in_param }) refl
      hs,
)

-- The parser behind a segment's text.
abbrev behind : Segment → Parser → Parser
behind (literal v) p = record p { state = in_literal; value = v }
behind (param v) p = closed false v p
behind (greedy_param v) p = closed true v p

run-segment_text :
    (s : Segment) (rest : Bytes) (p : Parser)
    → p.state ≡ start_segment
    → IsSegment s
    → run p (segment_text s ++ rest) ≡ run (behind s p) rest
unfolding run step_in
run-segment_text (literal []) rest p m (ne, h) = absurd (ne refl)
run-segment_text (literal (c ∷ cs)) rest p m (ne, (h, hs)) = ground (
  arith,
  literal-ne c h,
  run-in_literal cs rest (record p { state = in_literal; value = c ∷ [] }) refl hs,
)
run-segment_text (param v) rest p m h =
    ground (arith, run-name false v rest (record p { state = start_param }) refl h)
run-segment_text (greedy_param v) rest p m h =
    ground (arith, run-name true v rest (record p { state = start_greedy_param }) refl h)

-- A slash behind a segment ends it.
run_slash :
    (s : Segment) (rest : Bytes) (p : Parser)
    → (q : Parser) × (run (behind s p) (b'/' ∷ rest) ≡ run q rest)
      × (q.state ≡ start_segment)
      × (q.result ≡ p.result ++ s ∷ [])
unfolding run step_in
run_slash (literal v) rest p = (
  record p { state = start_segment; value = v; result = p.result ++ literal v ∷ [] },
  refl,
  refl,
  refl,
)
run_slash (param v) rest p = (record (closed false v p) { state = start_segment }, refl, refl, refl)
run_slash (greedy_param v) rest p =
    (record (closed true v p) { state = start_segment }, refl, refl, refl)

run_end : (s : Segment) (p : Parser) → run (behind s p) [] ≡ segments (p.result ++ s ∷ [])
unfolding run finish
run_end (literal v) p = refl
run_end (param v) p = refl
run_end (greedy_param v) p = refl

-- What follows the first slash of a template's text.
abbrev unslashed : List Segment → Bytes
unslashed [] = []
unslashed (s ∷ []) = segment_text s
unslashed (s ∷ t ∷ ts) = segment_text s ++ template_text (t ∷ ts)

template_text-unslashed : (ts : List Segment) → template_text ts ≡ b'/' ∷ unslashed ts
template_text-unslashed [] = refl
template_text-unslashed (s ∷ []) = refl
template_text-unslashed (s ∷ t ∷ ts) = refl

run-unslashed :
    (ts : List Segment) (p : Parser)
    → p.state ≡ start_segment
    → All IsSegment ts
    → run p (unslashed ts) ≡ segments (p.result ++ ts)
run-unslashed [] p m h = rw append-nil (unfold run finish in ground arith)
run-unslashed (s ∷ []) p m (h, _) =
    ap (run p) (sym (append-nil (segment_text s))) ∙ run-segment_text s [] p m h ∙ run_end s p
run-unslashed (s ∷ t ∷ ts) p m (h, hs) =
    let (q, slash, m', r) = run_slash s (unslashed (t ∷ ts)) p in
    ap (λ rest. run p (segment_text s ++ rest)) (template_text-unslashed (t ∷ ts))
    ∙ run-segment_text s _ p m h
    ∙ slash
    ∙ run-unslashed (t ∷ ts) q m' hs
    ∙ ap segments (ap (λ l. l ++ t ∷ ts) r ∙ append_assoc p.result (s ∷ []) (t ∷ ts))

run_first :
    (rest : Bytes) (p : Parser)
    → p.state ≡ start
    → run p (b'/' ∷ rest) ≡ run (record p { state = start_segment }) rest
unfolding run step_in
run_first rest p m = ground arith

-- The text of well-formed segments is parsed back to them.
pub parse_template-template_text :
    (ts : List Segment) → All IsSegment ts → parse_template (template_text ts) ≡ segments ts
unfolding parse_template
parse_template-template_text ts h =
    ap (run _) (template_text-unslashed ts) ∙ run_first _ _ refl ∙ run-unslashed ts _ refl h
