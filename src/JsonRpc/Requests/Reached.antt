-- ===== src/JsonRpc/Requests/Reached.antt =====
-- jsonrpc/endpoint.hpp: a cancel that meets a request in flight sets its flag, and the flag stays.
use boost_taar.Common.{
  ℕ, ◌<◌, ◌≡◌, ◌≢◌, refl, ap, sym, ◌∙◌, inl, inr, true, Option, none, some, List, [], ◌∷◌, ◌++◌,
  Bytes, beq, beq_iff, is_empty, arith, Bool-cases, Option-cases, if◌then◌else◌,
}
use mathlib.Core.Path.{subst}
use boost_taar.JsonRpc.Json.{Value}
use boost_taar.JsonRpc.Envelope.{Envelope}
use boost_taar.JsonRpc.Requests.{
  Requests, found_scopes, put_key, without, in_flight_key, begin_request, cancel, destroy,
  end_request,
}
use boost_taar.JsonRpc.Requests.Open.{
  Opened, RequestCall, begins, ends, cancels, key_of, request_step, request_run, end_request-rest,
}
use boost_taar.JsonRpc.Requests.Cancelled.{In, mark_all_iff}

-- No call closes the request of this scope.
abbrev pub Spares : ℕ → List RequestCall → Type 0
Spares a [] = Unit
Spares a (ends o ∷ cs) = (o.scope ≢ a) × Spares a cs
Spares a (begins env owner ∷ cs) = Spares a cs
Spares a (cancels id owner ∷ cs) = Spares a cs

In-append : (a b : ℕ) (xs : List ℕ) → In a xs → In a (xs ++ b ∷ [])
In-append a b [] h = elim h [ ]
In-append a b (x ∷ xs) (inl e) = inl e
In-append a b (x ∷ xs) (inr h) = inr (In-append a b xs h)

In-end : (a : ℕ) (xs : List ℕ) → In a (xs ++ a ∷ [])
In-end a [] = inl refl
In-end a (x ∷ xs) = inr (In-end a xs)

In-without : (a b : ℕ) (xs : List ℕ) → b ≢ a → In a xs → In a (without b xs)
In-without a b [] n h = elim h [ ]
In-without a b (x ∷ xs) n h = ground (arith, In-without a b xs n, h)

-- A scope that a request made, and its flag.
pub record Flagged (a : ℕ) (r : Requests) : Type 0 where
  pub made : a < r.next
  pub set : r.cancelled a ≡ true

pub record Flies (a : ℕ) (key : Bytes) (r : Requests) : Type 0 where
  pub made : a < r.next
  pub under : In a (found_scopes (r.in_flight key))

put_key-In :
    (a : ℕ) (key k : Bytes) (old new : Option (List ℕ)) (m : Bytes → Option (List ℕ))
    → m key ≡ old
    → (In a (found_scopes old) → In a (found_scopes new))
    → In a (found_scopes (m k))
    → In a (found_scopes (put_key key new m k))
put_key-In a key k old new m e keep h = elim (Bool-cases (beq key k)) [
  | inl same ↦
      rw same
        (keep (subst (λ o. In a (found_scopes o)) (ap m (sym ((beq_iff key k).0 same)) ∙ e) h))
  | inr other ↦ rw other h
]

In-listed :
    (a : ℕ) (rest : List ℕ)
    → In a rest
    → In a (found_scopes (if is_empty rest then none else some rest))
In-listed a [] h = h
In-listed a (b ∷ rest) h = h

module _ (serialize : Value → Bytes) where
  begins-Flies :
      (env : Envelope) (owner : Bytes) (a : ℕ) (key : Bytes) (r : Requests)
      → Flies a key r
      → Flies a key (request_step serialize (begins env owner) r)
  unfolding request_step begin_request
  begins-Flies env owner a key r h = elim (Option-cases env.id) [
    | inl e ↦ rw (e, begin_request) (record { made = omega arith; under = h.under })
    | inr (id, e) ↦
        rw (e, begin_request)
          (record {
            made = omega arith;
            under =
                put_key-In a (in_flight_key serialize owner id) key
                  (r.in_flight (in_flight_key serialize owner id)) _ r.in_flight refl
                  (In-append a r.next
                    (found_scopes (r.in_flight (in_flight_key serialize owner id))))
                  h.under;
          })
  ]

  ends-Flies :
      (o : Opened) (a : ℕ) (key : Bytes) (r : Requests)
      → o.scope ≢ a
      → Flies a key r
      → Flies a key (request_step serialize (ends o) r)
  unfolding request_step destroy end_request
  ends-Flies o a key r n h = elim (Bool-cases (is_empty (key_of serialize o))) [
    | inl e ↦ rw e h
    | inr e ↦ rw e (elim (Option-cases (r.in_flight (key_of serialize o))) [
      | inl m ↦ rw (m, end_request) h
      | inr (scopes, m) ↦
          rw (m, end_request)
            (record {
              made = h.made;
              under =
                  put_key-In a (key_of serialize o) key (some scopes) _ r.in_flight m
                    (λ i. In-listed a _ (In-without a o.scope scopes n i)) h.under;
            })
    ])
  ]

  begins-Flagged :
      (env : Envelope) (owner : Bytes) (a : ℕ) (r : Requests)
      → Flagged a r
      → Flagged a (request_step serialize (begins env owner) r)
  unfolding request_step begin_request
  begins-Flagged env owner a r h = elim (Option-cases env.id) [
    | inl e ↦
        rw (e, begin_request) (record { made = omega arith; set = ground (arith, h.set, h.made) })
    | inr (id, e) ↦
        rw (e, begin_request) (record { made = omega arith; set = ground (arith, h.set, h.made) })
  ]

  ends-Flagged :
      (o : Opened) (a : ℕ) (r : Requests)
      → Flagged a r
      → Flagged a (request_step serialize (ends o) r)
  unfolding request_step destroy
  ends-Flagged o a r h = elim (Bool-cases (is_empty (key_of serialize o))) [
    | inl e ↦ rw e h
    | inr e ↦
        let (nexts, flags) = end_request-rest serialize (key_of serialize o) o.scope r in
        rw e (record {
          made = subst (λ n. a < n) (sym nexts) h.made;
          set = ap (λ f. f a) flags ∙ h.set;
        })
  ]

  step-Flagged :
      (c : RequestCall) (a : ℕ) (r : Requests)
      → Flagged a r
      → Flagged a (request_step serialize c r)
  unfolding request_step cancel
  step-Flagged (begins env owner) a r h = begins-Flagged env owner a r h
  step-Flagged (ends o) a r h = ends-Flagged o a r h
  step-Flagged (cancels id owner) a r h = record {
    made = h.made;
    set =
        (mark_all_iff (found_scopes (r.in_flight (in_flight_key serialize owner id))) r.cancelled
            a).1
          (inl h.set);
  }

  run-Flagged :
      (cs : List RequestCall) (a : ℕ) (r : Requests)
      → Flagged a r
      → Flagged a (request_run serialize cs r)
  unfolding request_run
  run-Flagged [] a r h = h
  run-Flagged (c ∷ cs) a r h = run-Flagged cs a (request_step serialize c r) (step-Flagged c a r h)

  -- A request that begins flies under its key.
  pub begun-Flies :
      (env : Envelope) (owner : Bytes) (id : Value) (r : Requests)
      → env.id ≡ some id
      → Flies r.next (in_flight_key serialize owner id) (begin_request serialize env owner r).0
  unfolding begin_request
  begun-Flies env owner id r e =
      let key = in_flight_key serialize owner id in
      rw (e, begin_request)
        (record {
          made = omega arith;
          under = rw ((beq_iff key key).1 refl) (In-end r.next (found_scopes (r.in_flight key)));
        })

  -- A scope in flight under a key is flagged after any history that cancels the key before it
  -- closes the scope.
  pub run-cancelled :
      (before after : List RequestCall) (id : Value) (owner : Bytes) (a : ℕ) (r : Requests)
      → Flies a (in_flight_key serialize owner id) r
      → Spares a before
      → Flagged a (request_run serialize (before ++ cancels id owner ∷ after) r)
  unfolding request_run request_step cancel
  run-cancelled [] after id owner a r h n =
      run-Flagged after a (request_step serialize (cancels id owner) r) (record {
        made = h.made;
        set =
            (mark_all_iff (found_scopes (r.in_flight (in_flight_key serialize owner id)))
                r.cancelled a).1
              (inr h.under);
      })
  run-cancelled (begins env o ∷ before) after id owner a r h n =
      run-cancelled before after id owner a (request_step serialize (begins env o) r)
        (begins-Flies env o a _ r h) n
  run-cancelled (ends o ∷ before) after id owner a r h n =
      run-cancelled before after id owner a (request_step serialize (ends o) r)
        (ends-Flies o a _ r n.0 h) n.1
  run-cancelled (cancels i o ∷ before) after id owner a r h n =
      run-cancelled before after id owner a (request_step serialize (cancels i o) r)
        (record { made = h.made; under = h.under }) n
