-- ===== src/Core/Cookies.antt =====
-- core/cookies.hpp: the state machine of `parse_cookies`, over bytes. A `char` is signed, as on
-- x86, so a byte of 128 or more compares as negative in `ch <= '\31'`. `'\31'` is octal: 25.
-- `boost::urls::decode_view` is no code of this repository: it is the parameter `decode`, and
-- `none` stands for the exception that it throws.
pub mod Kept
pub mod RoundTrip
use boost_taar.Common.{
  ℕ, Bool, true, false, not, ◌&&◌, ◌||◌, Option, none, some, List, [], ◌∷◌, ◌++◌, ◌==◌,
  if◌then◌else◌, leb, any, Bytes, codes, beq,
}

abbrev is_one_of : Bytes → ℕ → Bool
is_one_of set c = any (λ d. c == d) set

unfoldable pub ctl_char : ℕ → Bool
ctl_char c = leb c 25 || leb 128 c || c == 127

unfoldable pub separator_char : ℕ → Bool
separator_char c = is_one_of (codes "()<>@,;:\\\"/[]?={} \t") c

unfoldable pub token_char : ℕ → Bool
unfolding ctl_char separator_char
token_char c = not (ctl_char c) && not (separator_char c)

unfoldable pub quoted_char : ℕ → Bool
unfolding ctl_char
quoted_char c = not (ctl_char c)

unfoldable pub unquoted_char : ℕ → Bool
unfolding quoted_char
unquoted_char c = quoted_char c && not (is_one_of (codes " \",;\\") c)

-- `cookies::items_`, in the order of insertion.
abbrev pub Items : Type 0
Items = List (Bytes × Bytes)

unfoldable pub find : Bytes → Items → Option Bytes
find key [] = none
find key ((k, v) ∷ items) = if beq k key then some v else find key items

-- `unordered_map::emplace`: an item that is there stays.
unfoldable pub emplace : Bytes → Bytes → Items → Items
emplace k v [] = (k, v) ∷ []
emplace k v ((j, w) ∷ items) = if beq j k then (j, w) ∷ items else (j, w) ∷ emplace k v items

pub data State : Type 0 where
  name_start in_name value_start value_quoted value_quoted_end value_unquoted separator : State

pub record Parser : Type 0 where
  pub state : State
  pub name : Bytes
  pub value : Bytes
  pub items : Items

-- How the parse ends: `success`, `error::invalid_cookie_format`, or an exception of `decode_view`.
pub data Status : Type 0 where
  success invalid_cookie_format thrown : Status

-- A step goes on, or leaves the items stored so far with the reason.
pub data Step : Type 0 where
  goes_on : Parser → Step
  stops : Items → Status → Step

module _ (decode : Bytes → Option Bytes) where
  -- Decodes both texts and stores them.
  unfoldable pub store : Bytes → Bytes → Items → Option Items
  store name value items = elim (decode name) [
    | none ↦ none
    | some n ↦ elim (decode value) [ none ↦ none | some v ↦ some (emplace n v items) ]
  ]

  -- Stores the decoded name with an empty value.
  unfoldable pub store_empty : Bytes → Items → Option Items
  store_empty name items = elim (decode name) [ none ↦ none | some n ↦ some (emplace n [] items) ]

  abbrev pub stored : Parser → State → Option Items → Step
  stored p next none = stops p.items thrown
  stored p next (some items) = goes_on (record p { state = next; items = items })

  abbrev pub invalid : Parser → Step
  invalid p = stops p.items invalid_cookie_format

  unfoldable pub start_name : Parser → ℕ → Step
  start_name p ch =
      if not (token_char ch)
      then invalid p
      else goes_on (record p { name = ch ∷ []; state = in_name })

  unfoldable pub step_in : State → Parser → ℕ → Step
  unfolding start_name
  step_in separator p ch =
      if ch == b' ' then goes_on (record p { state = name_start }) else start_name p ch
  step_in name_start p ch = start_name p ch
  step_in in_name p ch =
      if ch == b'='
      then goes_on (record p { value = []; state = value_start })
      else if token_char ch
      then goes_on (record p { name = p.name ++ ch ∷ [] })
      else invalid p
  step_in value_start p ch =
      if ch == b';'
      then stored p separator (store_empty p.name p.items)
      else if ch == b'"'
      then goes_on (record p { state = value_quoted })
      else if unquoted_char ch
      then goes_on (record p { state = value_unquoted; value = p.value ++ ch ∷ [] })
      else invalid p
  step_in value_unquoted p ch =
      if ch == b';'
      then stored p separator (store p.name p.value p.items)
      else if unquoted_char ch
      then goes_on (record p { value = p.value ++ ch ∷ [] })
      else invalid p
  step_in value_quoted p ch =
      if ch == b'"'
      then stored p value_quoted_end (store p.name p.value p.items)
      else if quoted_char ch
      then goes_on (record p { value = p.value ++ ch ∷ [] })
      else invalid p
  step_in value_quoted_end p ch =
      if not (ch == b';') then invalid p else goes_on (record p { state = separator })

  abbrev last_stored : Items → Option Items → Items × Status
  last_stored items none = (items, thrown)
  last_stored items (some items') = (items', success)

  -- What stands behind the loop.
  unfoldable pub finish : State → Parser → Items × Status
  finish in_name p = (p.items, invalid_cookie_format)
  finish value_quoted p = (p.items, invalid_cookie_format)
  finish value_start p = last_stored p.items (store p.name p.value p.items)
  finish value_unquoted p = last_stored p.items (store p.name p.value p.items)
  finish value_quoted_end p = last_stored p.items (store p.name p.value p.items)
  finish name_start p = (p.items, success)
  finish separator p = (p.items, success)

  unfoldable pub run : Parser → Bytes → Items × Status
  run p [] = finish p.state p
  run p (ch ∷ text) = elim (step_in p.state p ch) [
    | goes_on q ↦ run q text
    | stops items status ↦ (items, status)
  ]

  -- The first overload of `parse_cookies`: appends to the items of `result`, also on an error.
  unfoldable pub parse_into : Bytes → Items → Items × Status
  parse_into text items =
      run (record { state = name_start; name = []; value = []; items = items }) text

-- The second overload: the items, or the error code; an exception passes through.
pub data Parsed : Type 0 where
  cookies : Items → Parsed
  failure : Status → Parsed

unfoldable pub parse_cookies : (Bytes → Option Bytes) → Bytes → Parsed
parse_cookies decode text =
    let (items, status) = parse_into decode text [] in
    elim status [ success ↦ cookies items | other ↦ failure other ]
