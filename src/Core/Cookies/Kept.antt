-- ===== src/Core/Cookies/Kept.antt =====
-- core/cookies.hpp: a stored cookie is never replaced.
use boost_taar.Common.{
  ℕ, ◌≡◌, Option, none, some, [], ◌∷◌, arith, Bytes, beq, beq_iff, if◌then◌else◌,
}
use boost_taar.Core.Cookies.{
  Items, find, emplace, State, name_start, Parser, Status, Step, goes_on, stops, store, store_empty,
  step_in, finish, run, parse_into,
}

abbrev or_else : Option Bytes → Bytes → Option Bytes
or_else none v = some v
or_else (some w) v = some w

pub find-emplace :
    (key k v : Bytes) (items : Items)
    → find key (emplace k v items)
      ≡ (if beq k key then or_else (find key items) v else find key items)
unfolding find emplace
find-emplace key k v [] = ground (arith, beq_iff k key)
find-emplace key k v ((j, w) ∷ items) =
    ground (arith, beq_iff j k, beq_iff k key, beq_iff j key, find-emplace key k v items)

module _ (key value : Bytes) where
  abbrev Holds : Items → Type 0
  Holds items = find key items ≡ some value

  Holds-emplace : (k v : Bytes) (items : Items) → Holds items → Holds (emplace k v items)
  Holds-emplace k v items h = ground (arith, find-emplace key k v items)

  abbrev HoldsAfter : Step → Type 0
  HoldsAfter (goes_on p) = Holds p.items
  HoldsAfter (stops items status) = Holds items

  step_in-Holds :
      (decode : Bytes → Option Bytes) (s : State) (p : Parser) (ch : ℕ)
      → Holds p.items
      → HoldsAfter (step_in decode s p ch)
  unfolding step_in store store_empty
  step_in-Holds decode name_start p ch h = ground arith
  step_in-Holds decode _ p ch h = grind (arith, Holds-emplace)

  finish-Holds :
      (decode : Bytes → Option Bytes) (s : State) (p : Parser)
      → Holds p.items
      → Holds (finish decode s p).0
  unfolding finish store
  finish-Holds decode name_start p h = h
  finish-Holds decode _ p h = grind (arith, Holds-emplace)

  run-Holds :
      (decode : Bytes → Option Bytes) (p : Parser) (text : Bytes)
      → Holds p.items
      → Holds (run decode p text).0
  unfolding run
  run-Holds decode p [] h = finish-Holds decode p.state p h
  run-Holds decode p (ch ∷ text) h =
      after (step_in decode p.state p ch) (step_in-Holds decode p.state p ch h)
        (λ q k. run-Holds decode q text k)
    where
      after :
          (s : Step)
          → HoldsAfter s
          → ((q : Parser) → Holds q.items → Holds (run decode q text).0)
          → Holds
              (elim s as (λ _. Items × Status) [
                | goes_on q ↦ run decode q text
                | stops items status ↦ (items, status)
              ]).0
      after (goes_on q) k ih = ih q k
      after (stops items status) k ih = k

  -- An item that is there before `parse_cookies` is there afterwards with the same value, whatever
  -- the header says and however the parse ends.
  pub parse_into-Holds :
      (decode : Bytes → Option Bytes) (text : Bytes) (items : Items)
      → find key items ≡ some value
      → find key (parse_into decode text items).0 ≡ some value
  unfolding parse_into
  parse_into-Holds decode text items h = run-Holds decode _ text h
