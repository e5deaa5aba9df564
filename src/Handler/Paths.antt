-- ===== src/Handler/Paths.antt =====
-- handler/htdocs.hpp: `is_plain_relative`, `requested_segments`, and the part of `serve` that makes
-- the relative path, on a system other than Windows. The decoded segments of the URL are an argument.
pub mod Contained
use boost_taar.Common.{
  ℕ, Bool, true, false, not, ◌&&◌, ◌||◌, Option, none, some, List, [], ◌∷◌, ◌++◌, ◌==◌,
  if◌then◌else◌, is_empty, any, Bytes, codes, beq, split, pieces,
}
use boost_taar.Matcher.Target.{PathArgs, find, joined}

-- `p.find(c) != npos`
abbrev pub has : ℕ → Bytes → Bool
has c s = any (λ d. d == c) s

abbrev pub is_dots : Bytes → Bool
is_dots seg = beq seg (codes ".") || beq seg (codes "..")

-- The loop of `is_plain_relative`.
unfoldable pub plain_segments : List Bytes → Bool
plain_segments [] = true
plain_segments (seg ∷ segs) = if is_empty seg || is_dots seg then false else plain_segments segs

abbrev starts_slash : Bytes → Bool
starts_slash [] = false
starts_slash (c ∷ s) = c == b'/'

unfoldable pub is_plain_relative : Bytes → Bool
is_plain_relative p =
    if is_empty p || starts_slash p || has b'\\' p || has 0 p
    then false
    else plain_segments (pieces b'/' p)

abbrev only_one : PathArgs → Option Bytes
only_one ((k, v) ∷ []) = some v
only_one _ = none

-- The argument of the path that names the file.
unfoldable pub capture : Bytes → PathArgs → Option Bytes
capture path_arg args =
    if not (is_empty path_arg)
    then find path_arg args
    else elim (find (codes "*") args) [ some v ↦ some v | none ↦ only_one args ]

-- The loop that drops empty segments, and refuses those that could lead elsewhere.
unfoldable pub checked : List Bytes → Option (List Bytes)
checked [] = some []
checked (seg ∷ segs) =
    let rest = checked segs in
    let kept : Option (List Bytes) = elim rest [ none ↦ none | some out ↦ some (seg ∷ out) ] in
    if is_empty seg then rest else if is_dots seg || has b'\\' seg || has 0 seg then none else kept

unfoldable pub requested_segments : Bytes → PathArgs → List Bytes → Option (List Bytes)
requested_segments path_arg args url_segments = elim (capture path_arg args) [
  | none ↦ checked url_segments
  | some text ↦ checked (split b'/' text)
]

abbrev starts_dot : Bytes → Bool
starts_dot [] = false
starts_dot (c ∷ s) = c == b'.'

-- A name that is not served unless hidden names are.
abbrev pub is_hidden : Bytes → Bool
is_hidden seg = starts_dot seg && not (beq seg (codes ".well-known"))

pub data Target : Type 0 where
  bad_request not_found : Target
  relative : Bytes → Target

unfoldable pub relative_target : Bool → Bytes → PathArgs → List Bytes → Target
relative_target serve_hidden path_arg args url_segments =
    elim (requested_segments path_arg args url_segments) [
      | none ↦ bad_request
      | some segs ↦
          if not serve_hidden && any is_hidden segs then not_found else relative (joined segs)
    ]
