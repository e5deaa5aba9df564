-- ===== src/Mcp/Paging/Complete.antt =====
-- mcp/endpoint.hpp: a client that follows the cursors sees every item.
use boost_taar.Common.{
  ℕ, zero, suc, ◌+◌, ◌-◌, ◌<◌, ◌≤◌, ◌≡◌, refl, ap, sym, ◌∙◌, inl, inr, true, false, ◌||◌, Option,
  none, some, List, [], ◌∷◌, ◌++◌, Bytes, codes, beq, beq_iff, ◌==◌, leb, length, take, drop,
  Bool-cases, arith, take-append-drop, drop-drop,
}
use boost_taar.JsonRpc.Json.{
  Value, string, array, object, Fields, end, field, member, items, values,
}
use boost_taar.JsonRpc.Envelope.{Envelope, version}
use boost_taar.Mcp.Paging.{max_ull, to_string, cursor_start, cursor_of, page_at, paged, paginate}
use boost_taar.Mcp.Paging.Decimal.{start_of-to_string}

-- A list request, with a cursor or without.
abbrev pub request_params : Option Bytes → Option Value
request_params none = none
request_params (some c) = some (object (field (codes "cursor") (string c) end))

abbrev pub asks : Bytes → Option Bytes → Envelope
asks method cursor = record {
  jsonrpc = version;
  method = method;
  id = none;
  params = request_params cursor;
}

abbrev pub listed_values : Option Value → List Value
listed_values (some (array vs)) = values vs
listed_values v = []

abbrev pub next_cursor : Option Value → Option Bytes
next_cursor (some (string c)) = some c
next_cursor v = none

abbrev pub and_then : List Value → Option (List Value) → Option (List Value)
and_then vs none = none
and_then vs (some ws) = some (vs ++ ws)

-- What a client has when it has read a page, and then follows its cursor.
abbrev pub gathered :
    List Value → (Bytes → Option (List Value)) → Option Bytes → Option (List Value)
gathered vs rest none = some vs
gathered vs rest (some c) = and_then vs (rest c)

abbrev pub follow : Bytes → (Bytes → Option (List Value)) → Option Fields → Option (List Value)
follow key rest none = none
follow key rest (some page) =
    gathered (listed_values (member key page)) rest (next_cursor (member (codes "nextCursor") page))

module _ (page_size : ℕ) (all : List Value) (key method : Bytes) where
  -- What a client collects that asks again with each cursor it gets; none if a request fails or
  -- the rounds are used up.
  unfoldable pub collect_pages : ℕ → Option Bytes → Option (List Value)
  unfolding paginate
  collect_pages zero cursor = none
  collect_pages (suc fuel) cursor =
      follow key (λ c. collect_pages fuel (some c))
        (paginate page_size all key (asks method cursor))

values-items : (vs : List Value) → values (items vs) ≡ vs
values-items [] = refl
values-items (v ∷ vs) = ap (λ ws. v ∷ ws) (values-items vs)

module _ (page_size : ℕ) (all : List Value) (key method : Bytes)
    (other : beq key (codes "nextCursor") ≡ false) (small : length all ≤ max_ull) where
  page_follows :
      (rest : Bytes → Option (List Value)) (start : ℕ)
      → start ≤ length all
      → ((next : ℕ)
          → start < next
          → next ≤ length all
          → rest (to_string next) ≡ some (drop next all))
      → follow key rest (some (page_at page_size all key start)) ≡ some (drop start all)
  unfolding page_at
  page_follows rest start le continues =
      let self : beq key key ≡ true = (beq_iff key key).1 refl in
      elim (Bool-cases (page_size == 0 || leb (length all - start) page_size)) [
        | inl t ↦ rw (t, self, other, values-items (drop start all)) refl
        | inr t ↦
            let next = start + page_size in
            let after = continues next (ground (arith, t)) (ground (arith, t)) in
            rw (t, other, self, values-items (take page_size (drop start all)), other)
              (ap (and_then (take page_size (drop start all))) after
                ∙ ap some (
                    ap (λ vs. take page_size (drop start all) ++ vs)
                      (sym (drop-drop page_size start all))
                    ∙ take-append-drop page_size (drop start all)))
      ]

  pages_from :
      (fuel start : ℕ) (cursor : Option Bytes)
      → start ≤ length all
      → length all - start < fuel
      → cursor_start (length all) (cursor_of (asks method cursor)) ≡ some start
      → collect_pages page_size all key method fuel cursor ≡ some (drop start all)
  unfolding collect_pages paginate
  pages_from zero start cursor le h e = elim h [ ]
  pages_from (suc fuel) start cursor le h e =
      ap
        (λ o.
          follow key (λ c. collect_pages page_size all key method fuel (some c))
            (paged page_size all key o))
        e
      ∙ page_follows (λ c. collect_pages page_size all key method fuel (some c)) start le
          (λ next later inside.
            pages_from fuel next (some (to_string next)) inside (omega (arith, h, later))
              (start_of-to_string (length all) next small inside))

  -- If the key of the list is not nextCursor and the list has fewer than 2 ^ 64 items: a client that asks for the first page and then follows
  -- each cursor it gets collects the items of the list in order, each once, whatever the page size
  -- is, and none of its requests fails; one request more than there are items is enough.
  pub collect_pages_complete :
      (fuel : ℕ) → length all < fuel → collect_pages page_size all key method fuel none ≡ some all
  collect_pages_complete fuel h = pages_from fuel 0 none (omega arith) (omega (arith, h)) refl
