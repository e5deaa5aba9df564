-- ===== src/Matcher/Target/Spec.antt =====
-- What a path template means: the targets that it fits, with the argument of each parameter.
use boost_taar.Common.{List, [], ◌∷◌, ◌++◌, Bytes, ◌≢◌, ◌≡◌}
use boost_taar.Matcher.Template.{Segment, literal, param, greedy_param}
use boost_taar.Matcher.Target.{PathArgs, emplace, joined}

-- A literal fits itself, a parameter one segment, and a greedy parameter zero or more.
pub data Fits : List Segment → List Bytes → PathArgs → Type 0 where
  done : Fits [] [] []
  same :
      {v : Bytes} {tpl : List Segment} {ts : List Bytes} {binds : PathArgs}
      → Fits tpl ts binds
      → Fits (literal v ∷ tpl) (v ∷ ts) binds
  one :
      {p t : Bytes} {tpl : List Segment} {ts : List Bytes} {binds : PathArgs}
      → Fits tpl ts binds
      → Fits (param p ∷ tpl) (t ∷ ts) ((p, t) ∷ binds)
  many :
      {g : Bytes} {tpl : List Segment} {ts : List Bytes} {binds : PathArgs} (us rest : List Bytes)
      → ts ≡ us ++ rest
      → Fits tpl rest binds
      → Fits (greedy_param g ∷ tpl) ts ((g, joined us) ∷ binds)

-- The arguments stored one after the other.
abbrev pub emplace_all : PathArgs → PathArgs → PathArgs
emplace_all [] args = args
emplace_all ((k, v) ∷ binds) args = emplace_all binds (emplace k v args)

-- The greedy parameters have a name, as every parsed template has it.
abbrev pub IsNamed : List Segment → Type 0
IsNamed [] = Unit
IsNamed (greedy_param g ∷ tpl) = (g ≢ []) × IsNamed tpl
IsNamed (param p ∷ tpl) = IsNamed tpl
IsNamed (literal v ∷ tpl) = IsNamed tpl
