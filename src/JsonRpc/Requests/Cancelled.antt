-- ===== src/JsonRpc/Requests/Cancelled.antt =====
-- jsonrpc/endpoint.hpp: what cancel reaches, over any history of requests.
use boost_taar.Common.{
  ℕ, ◌≡◌, ◌≢◌, refl, ap, ◌∙◌, ◌⊎◌, ◌↔◌, inl, inr, Bool, true, List, [], ◌∷◌, ◌++◌, All, Bytes, beq,
  beq_iff, ==_iff, ◌==◌, length, arith, Bool-cases,
}
use mathlib.Core.Path.{subst, ap₂}
use boost_taar.JsonRpc.Json.{Value}
use boost_taar.JsonRpc.Requests.{
  no_requests, found_scopes, put_flag, mark_all, in_flight_key, cancel,
}
use boost_taar.JsonRpc.Requests.Open.{
  Opened, RequestCall, scopes_of, request_run, open_run, found_scopes-listed, fresh-run-held,
}

abbrev pub NoNewline : Bytes → Type 0
NoNewline = All (λ c. c ≢ b'\n')

-- Somebody with this name waits for the request of this id, under this scope.
abbrev pub Waits : Bytes → Value → ℕ → List Opened → Type 0
Waits owner id a [] = ⊥
Waits owner id a (o ∷ os) = ((o.owner ≡ owner) × (o.id ≡ id) × (o.scope ≡ a)) ⊎ Waits owner id a os

abbrev pub In : ℕ → List ℕ → Type 0
In a [] = ⊥
In a (b ∷ bs) = (b ≡ a) ⊎ In a bs

pub mark_all_iff :
    (scopes : List ℕ) (flags : ℕ → Bool) (a : ℕ)
    → (mark_all scopes flags a ≡ true) ↔ ((flags a ≡ true) ⊎ In a scopes)
mark_all_iff [] flags a = ground arith
mark_all_iff (b ∷ bs) flags a = elim (Bool-cases (a == b)) [
  | inl e ↦ ground (arith, mark_all_iff bs (put_flag b true flags) a, ==_iff a b)
  | inr e ↦ ground (arith, mark_all_iff bs (put_flag b true flags) a, ==_iff a b)
]

newline_within : (s t : Bytes) → NoNewline (s ++ b'\n' ∷ t) → ⊥
newline_within [] t h = h.0 refl
newline_within (c ∷ s) t h = newline_within s t h.1

-- A text before the last newline and the text behind it.
last_newline :
    (a b s t : Bytes)
    → NoNewline s
    → NoNewline t
    → a ++ b'\n' ∷ s ≡ b ++ b'\n' ∷ t
    → (a ≡ b) × (s ≡ t)
last_newline [] [] s t hs ht e = ground arith
last_newline [] (c ∷ b) s t hs ht e =
    let p : s ≡ b ++ b'\n' ∷ t = cc in absurd (newline_within b t (subst NoNewline p hs))
last_newline (c ∷ a) [] s t hs ht e =
    let p : t ≡ a ++ b'\n' ∷ s = cc in absurd (newline_within a s (subst NoNewline p ht))
last_newline (c ∷ a) (d ∷ b) s t hs ht e =
    let p : a ++ b'\n' ∷ s ≡ b ++ b'\n' ∷ t = cc in
    let heads : c ≡ d = cc in
    let (q, r) = last_newline a b s t hs ht p in (ap₂ (λ x l. x ∷ l) heads q, r)

module _ (serialize : Value → Bytes) (id : Value)
    (distinct : (v : Value) → serialize v ≡ serialize id → v ≡ id)
    (one_line : (v : Value) → NoNewline (serialize v)) where
  -- Equal ids of different owners have different keys.
  key_iff :
      (a b : Bytes) (v : Value)
      → (beq (in_flight_key serialize a v) (in_flight_key serialize b id) ≡ true)
        ↔ ((a ≡ b) × (v ≡ id))
  unfolding in_flight_key
  key_iff a b v =
      let keys = beq_iff (in_flight_key serialize a v) (in_flight_key serialize b id) in
      (
        λ h.
            let (p, q) =
              last_newline a b (serialize v) (serialize id) (one_line v) (one_line id) (keys.0 h) in
            (p, distinct v q),
        λ h. keys.1 (ap₂ (in_flight_key serialize) h.0 h.1),
      )

  In-scopes_of :
      (owner : Bytes) (a : ℕ) (os : List Opened)
      → In a (scopes_of serialize (in_flight_key serialize owner id) os) ↔ Waits owner id a os
  In-scopes_of owner a [] = (λ h. h, λ h. h)
  In-scopes_of owner a (o ∷ os) =
      elim (Bool-cases
        (beq (in_flight_key serialize o.owner o.id) (in_flight_key serialize owner id))) [
          | inl e ↦ ground (arith, e, key_iff o.owner owner o.id, In-scopes_of owner a os)
          | inr e ↦ ground (arith, e, key_iff o.owner owner o.id, In-scopes_of owner a os)
        ]

  -- If no other JSON value is written as the id is, and what is written holds no newline: over any
  -- history of a new endpoint, cancelling the id under a scope key sets the flags of exactly those
  -- scopes that requests with that id and that scope key opened and have not closed, beside the
  -- flags that were set; and it returns how many there are.
  pub cancel-request_run :
      (cs : List RequestCall) (owner : Bytes)
      → ((a : ℕ)
          → ((cancel serialize id owner (request_run serialize cs no_requests)).0.cancelled a
              ≡ true)
            ↔ (((request_run serialize cs no_requests).cancelled a ≡ true)
                ⊎ Waits owner id a (open_run serialize cs ([], 0)).0))
        × ((cancel serialize id owner (request_run serialize cs no_requests)).1
            ≡ length (
                scopes_of serialize
                  (in_flight_key serialize owner id)
                  (open_run serialize cs ([], 0)).0))
  unfolding cancel
  cancel-request_run cs owner =
      let key = in_flight_key serialize owner id in
      let os = (open_run serialize cs ([], 0)).0 in
      let flags = (request_run serialize cs no_requests).cancelled in
      let targets : found_scopes ((request_run serialize cs no_requests).in_flight key)
          ≡ scopes_of serialize key os =
        ap found_scopes (fresh-run-held serialize cs key)
        ∙ found_scopes-listed serialize (scopes_of serialize key os) in
      (
        λ a. rw targets (
            ground
              (arith, mark_all_iff (scopes_of serialize key os) flags a, In-scopes_of owner a os)),
        ap length targets,
      )
