-- ===== src/JsonRpc/Requests.antt =====
-- jsonrpc/endpoint.hpp and request_scope.hpp: the requests in flight. A scope is an address, and
-- its flag `cancelled` stands in the heap. The weak pointers of the map never dangle: the
-- destructor of a scoped request takes its scope out of the map before the scope can go.
pub mod Open
pub mod Cancelled
pub mod Reached
use boost_taar.Common.{
  ℕ, suc, Bool, true, false, Option, none, some, List, [], ◌∷◌, ◌++◌, Bytes, beq, ◌==◌,
  if◌then◌else◌, length, is_empty, codes,
}
use boost_taar.JsonRpc.Json.{Value}
use boost_taar.JsonRpc.Envelope.{Envelope}

pub record Requests : Type 0 where
  pub in_flight : Bytes → Option (List ℕ)
  pub cancelled : ℕ → Bool
  pub next : ℕ

abbrev pub no_requests : Requests
no_requests = record { in_flight = λ _. none; cancelled = λ _. false; next = 0 }

abbrev pub found_scopes : Option (List ℕ) → List ℕ
found_scopes none = []
found_scopes (some scopes) = scopes

abbrev pub put_key {ℓ} : {A : Type ℓ} → Bytes → A → (Bytes → A) → Bytes → A
put_key key v m k = if beq key k then v else m k

abbrev pub put_flag : ℕ → Bool → (ℕ → Bool) → ℕ → Bool
put_flag a v m b = if b == a then v else m b

-- `std::erase_if` of one scope.
abbrev pub without : ℕ → List ℕ → List ℕ
without a [] = []
without a (b ∷ bs) = if b == a then without a bs else b ∷ without a bs

-- `for (auto const& t : targets) t->cancel();`
abbrev pub mark_all : List ℕ → (ℕ → Bool) → ℕ → Bool
mark_all [] flags = flags
mark_all (a ∷ as') flags = mark_all as' (put_flag a true flags)

-- A scope that is in flight: the key that its destructor uses, empty for a notification.
pub record Scoped : Type 0 where
  pub key : Bytes
  pub scope : ℕ

-- `boost::json::serialize` is not of this repository.
module _ (serialize : Value → Bytes) where
  unfoldable pub in_flight_key : Bytes → Value → Bytes
  in_flight_key scope_key id = scope_key ++ (codes "\n" ++ serialize id)

  unfoldable pub begin_request : Envelope → Bytes → Requests → Requests × Scoped
  begin_request env scope_key r =
      let made = record r { cancelled = put_flag r.next false r.cancelled; next = suc r.next } in
      elim env.id [
        | none ↦ (made, record { key = []; scope = r.next })
        | some id ↦
            let key = in_flight_key scope_key id in
            (
              record made {
                in_flight =
                    put_key key (some (found_scopes (r.in_flight key) ++ r.next ∷ [])) r.in_flight;
              },
              record { key = key; scope = r.next },
            )
      ]

  -- The flags of the targets are set, and their number is returned.
  unfoldable pub cancel : Value → Bytes → Requests → Requests × ℕ
  cancel id scope_key r =
      let targets = found_scopes (r.in_flight (in_flight_key scope_key id)) in
      (record r { cancelled = mark_all targets r.cancelled }, length targets)

unfoldable pub end_request : Bytes → ℕ → Requests → Requests
end_request key scope r = elim (r.in_flight key) [
  | none ↦ r
  | some scopes ↦
      let rest = without scope scopes in
      record r { in_flight = put_key key (if is_empty rest then none else some rest) r.in_flight }
]

-- `~scoped_request()`
unfoldable pub destroy : Scoped → Requests → Requests
unfolding end_request
destroy s r = if is_empty s.key then r else end_request s.key s.scope r
