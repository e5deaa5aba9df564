-- ===== src/Matcher/Target/Sound.antt =====
-- matcher/target.hpp: a target that matches fits the template.
use boost_taar.Common.{
  ◌≡◌, ◌≢◌, refl, ◌∙◌, ap, sym, true, List, [], ◌∷◌, ◌++◌, Bytes, beq, beq_iff, Bool-cases, inl,
  inr, is_empty, append-nil, append_assoc,
}
use boost_taar.Matcher.Template.{Segment, literal, param, greedy_param}
use boost_taar.Matcher.Target.Spec.{Fits, done, same, one, many, emplace_all, IsNamed}
use boost_taar.Matcher.Target.{
  PathArgs, emplace, joined, finish_greedy, match_segments, match_target,
}

-- The template fits the segments, and the arguments are those stored, then the bindings.
pub record Explained (tpl : List Segment) (ts : List Bytes) (stored out : PathArgs) : Type 0 where
  pub binds : PathArgs
  pub fits : Fits tpl ts binds
  pub result : out ≡ emplace_all binds stored

-- A greedy parameter that is open takes some more segments first.
record Resumed (tpl : List Segment) (ts : List Bytes) (name : Bytes) (held : List Bytes)
    (args out : PathArgs) : Type 0 where
  more : List Bytes
  rest : List Bytes
  splits : ts ≡ more ++ rest
  none_open : name ≡ [] → more ≡ []
  explained : Explained tpl rest (finish_greedy name (held ++ more) args) out

finish_greedy-cons :
    (name : Bytes) (held : List Bytes) (args : PathArgs)
    → name ≢ []
    → finish_greedy name held args ≡ emplace name (joined held) args
unfolding finish_greedy
finish_greedy-cons [] held args h = absurd (h refl)
finish_greedy-cons (c ∷ name) held args h = refl

-- Nothing more is taken where the loop goes on with the next segment of the template.
at_once :
    (tpl : List Segment) (ts : List Bytes) (name : Bytes) (held : List Bytes) (args out : PathArgs)
    → Explained tpl ts (finish_greedy name held args) out
    → Resumed tpl ts name held args out
at_once tpl ts name held args out x = record {
  more = [];
  rest = ts;
  splits = refl;
  none_open = λ _. refl;
  explained = rw append-nil x;
}

-- With no greedy parameter open, the result is about the segments as they stand.
no_greedy :
    (tpl : List Segment) (ts : List Bytes) (args out : PathArgs)
    → Resumed tpl ts [] [] args out
    → Explained tpl ts args out
unfolding finish_greedy
no_greedy tpl ts args out r = rw (r.splits, r.none_open refl) r.explained

-- A greedy parameter that was opened with some segments held.
bind_greedy :
    (g : Bytes) (tpl : List Segment) (ts us : List Bytes) (args out : PathArgs)
    → g ≢ []
    → Resumed tpl ts g us args out
    → Explained (greedy_param g ∷ tpl) (us ++ ts) args out
bind_greedy g tpl ts us args out ne r = record {
  binds = (g, joined (us ++ r.more)) ∷ r.explained.binds;
  fits =
      many (us ++ r.more) r.rest (ap (◌++◌ us) r.splits ∙ sym (append_assoc us r.more r.rest))
        r.explained.fits;
  result = r.explained.result ∙ ap (emplace_all r.explained.binds) (finish_greedy-cons g _ args ne);
}

Resumed-sound :
    (tpl : List Segment) (ts : List Bytes) (name : Bytes) (held : List Bytes) (args out : PathArgs)
    → IsNamed tpl
    → match_segments tpl ts name held args ≡ (true, out)
    → Resumed tpl ts name held args out
unfolding match_segments
Resumed-sound [] [] name held args out n e =
    at_once [] [] name held args out (record { binds = []; fits = done; result = cc })
Resumed-sound [] (t ∷ ts) name held args out n e = cc
Resumed-sound (greedy_param g ∷ []) ts name held args out (ne, n) e =
    at_once _ ts name held args out (record {
      binds = (g, joined ts) ∷ [];
      fits = many ts [] (sym (append-nil ts)) done;
      result = cc (finish_greedy-cons g ts (finish_greedy name held args) ne);
    })
Resumed-sound (greedy_param g ∷ s ∷ tpl) [] name held args out (ne, n) e =
    at_once _ [] name held args out
      (bind_greedy g (s ∷ tpl) [] [] _ out ne (Resumed-sound (s ∷ tpl) [] g [] _ out n e))
Resumed-sound (greedy_param g ∷ s ∷ tpl) (t ∷ ts) name held args out (ne, n) e =
    at_once _ (t ∷ ts) name held args out (
      bind_greedy g (s ∷ tpl) ts (t ∷ []) _ out ne
        (Resumed-sound (s ∷ tpl) ts g (t ∷ []) _ out n e))
Resumed-sound (param p ∷ tpl) [] name held args out n e = cc
Resumed-sound (param p ∷ tpl) (t ∷ ts) name held args out n e =
    let x = no_greedy tpl ts _ out (Resumed-sound tpl ts [] [] _ out n e) in
    at_once _ (t ∷ ts) name held args out
      (record { binds = (p, t) ∷ x.binds; fits = one x.fits; result = x.result })
Resumed-sound (literal v ∷ tpl) [] name held args out n e = cc
Resumed-sound (literal v ∷ tpl) (t ∷ ts) name held args out n e = elim (Bool-cases (beq v t)) [
  | inl same_text ↦
      let x = no_greedy tpl ts _ out (Resumed-sound tpl ts [] [] _ out n (rw same_text at e)) in
      at_once _ (t ∷ ts) name held args out (record {
        binds = x.binds;
        fits = rw (← (beq_iff v t).0 same_text) (same x.fits);
        result = x.result;
      })
  | inr other ↦ elim (Bool-cases (is_empty name)) [
    | inl closed ↦ cc (rw (other, closed) at e)
    | inr open_ ↦
        let r =
          Resumed-sound (literal v ∷ tpl) ts name (held ++ t ∷ []) args out n
            (rw (other, open_) at e) in
        record {
          more = t ∷ r.more;
          rest = r.rest;
          splits = ap (◌∷◌ t) r.splits;
          none_open = λ h. cc (rw h at open_);
          explained = rw (append_assoc held (t ∷ []) r.more) at r.explained;
        }
  ]
]

-- A target that matches fits the template, and the arguments stored are those of the fit.
pub match_target_sound :
    (template : List Segment) (target : List Bytes) (args : PathArgs) {out : PathArgs}
    → IsNamed template
    → match_target template target args ≡ (true, out)
    → Explained template target args out
unfolding match_target
match_target_sound template target args {out} n e =
    no_greedy template target args out (Resumed-sound template target [] [] args out n e)
