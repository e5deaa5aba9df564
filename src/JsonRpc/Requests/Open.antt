-- ===== src/JsonRpc/Requests/Open.antt =====
-- jsonrpc/endpoint.hpp: the map of requests in flight against an abstract list of open requests.
use boost_taar.Common.{
  ℕ, suc, ◌≡◌, refl, ap, sym, ◌∙◌, ◌⊎◌, inl, inr, true, false, Option, none, some, List, [], ◌∷◌,
  ◌++◌, Bytes, beq, beq_iff, ◌==◌, if◌then◌else◌, is_empty, arith, ◌&&◌, Bool-cases, Option-cases,
  append-nil,
}
use boost_taar.JsonRpc.Json.{Value}
use boost_taar.JsonRpc.Envelope.{Envelope}
use boost_taar.JsonRpc.Requests.{
  Requests, no_requests, found_scopes, put_key, without, in_flight_key, begin_request, cancel,
  end_request, destroy,
}

-- A request that has begun and not ended: who sent it, its id and its scope.
pub record Opened : Type 0 where
  pub owner : Bytes
  pub id : Value
  pub scope : ℕ

-- What handlers do with the map: each call holds its mutex.
pub data RequestCall : Type 0 where
  begins : Envelope → Bytes → RequestCall
  ends : Opened → RequestCall
  cancels : Value → Bytes → RequestCall

key-not_empty :
    (serialize : Value → Bytes) (owner : Bytes) (id : Value)
    → is_empty (in_flight_key serialize owner id) ≡ false
unfolding in_flight_key
key-not_empty serialize [] id = refl
key-not_empty serialize (c ∷ owner) id = refl

-- The open requests of a key, in the order in which they began.
module _ (serialize : Value → Bytes) where
  abbrev pub key_of : Opened → Bytes
  key_of o = in_flight_key serialize o.owner o.id

  abbrev pub scopes_of : Bytes → List Opened → List ℕ
  scopes_of key [] = []
  scopes_of key (o ∷ os) =
      if beq (key_of o) key then o.scope ∷ scopes_of key os else scopes_of key os

  abbrev pub closed_by : Opened → List Opened → List Opened
  closed_by c [] = []
  closed_by c (o ∷ os) =
      if beq (key_of o) (key_of c) && o.scope == c.scope then closed_by c os else o ∷ closed_by c os

  unfoldable pub request_step : RequestCall → Requests → Requests
  request_step (begins env owner) r = (begin_request serialize env owner r).0
  request_step (ends o) r = destroy (record { key = key_of o; scope = o.scope }) r
  request_step (cancels id owner) r = (cancel serialize id owner r).0

  unfoldable pub request_run : List RequestCall → Requests → Requests
  request_run [] r = r
  request_run (c ∷ cs) r = request_run cs (request_step c r)

  -- The abstract endpoint: the open requests, and how many scopes were made.
  abbrev opened_by : Bytes → ℕ → Option Value → List Opened
  opened_by owner next none = []
  opened_by owner next (some id) = record { owner = owner; id = id; scope = next } ∷ []

  abbrev pub open_step : RequestCall → List Opened × ℕ → List Opened × ℕ
  open_step (begins env owner) (os, next) = (os ++ opened_by owner next env.id, suc next)
  open_step (ends o) (os, next) = (closed_by o os, next)
  open_step (cancels id owner) (os, next) = (os, next)

  abbrev pub open_run : List RequestCall → List Opened × ℕ → List Opened × ℕ
  open_run [] s = s
  open_run (c ∷ cs) s = open_run cs (open_step c s)

  -- A key stands in the map exactly while it has open requests.
  abbrev pub listed : List ℕ → Option (List ℕ)
  listed [] = none
  listed (a ∷ scopes) = some (a ∷ scopes)

  record Refines (r : Requests) (s : List Opened × ℕ) : Type 0 where
    held : (key : Bytes) → r.in_flight key ≡ listed (scopes_of key s.0)
    made : r.next ≡ s.1

  listed-append : (scopes : List ℕ) (a : ℕ) → some (scopes ++ a ∷ []) ≡ listed (scopes ++ a ∷ [])
  listed-append [] a = refl
  listed-append (b ∷ scopes) a = refl

  listed-if : (scopes : List ℕ) → (if is_empty scopes then none else some scopes) ≡ listed scopes
  listed-if [] = refl
  listed-if (a ∷ scopes) = refl

  pub found_scopes-listed : (scopes : List ℕ) → found_scopes (listed scopes) ≡ scopes
  found_scopes-listed [] = refl
  found_scopes-listed (a ∷ scopes) = refl

  scopes_of-append :
      (key : Bytes) (os : List Opened) (o : Opened)
      → scopes_of key (os ++ o ∷ [])
        ≡ (if beq (key_of o) key then scopes_of key os ++ o.scope ∷ [] else scopes_of key os)
  scopes_of-append key [] o = elim (Bool-cases (beq (key_of o) key)) [
    | inl e ↦ rw e refl
    | inr e ↦ rw e refl
  ]
  scopes_of-append key (p ∷ os) o = elim (Bool-cases (beq (key_of o) key)) [
    | inl e ↦ ground (arith, scopes_of-append key os o, e)
    | inr e ↦ ground (arith, scopes_of-append key os o, e)
  ]

  -- Closing a request takes its scope out of its own key.
  scopes_of-closed_by :
      (c : Opened) (os : List Opened)
      → scopes_of (key_of c) (closed_by c os) ≡ without c.scope (scopes_of (key_of c) os)
  scopes_of-closed_by c [] = refl
  scopes_of-closed_by c (o ∷ os) = elim (Bool-cases (beq (key_of o) (key_of c))) [
    | inl e ↦ ground (arith, scopes_of-closed_by c os, e)
    | inr e ↦ ground (arith, scopes_of-closed_by c os, e)
  ]

  -- Closing a request leaves the other keys.
  scopes_of-close_other :
      (key : Bytes) (c : Opened) (os : List Opened)
      → beq (key_of c) key ≡ false
      → scopes_of key (closed_by c os) ≡ scopes_of key os
  scopes_of-close_other key c [] other = refl
  scopes_of-close_other key c (o ∷ os) other = elim (Bool-cases (beq (key_of o) (key_of c))) [
    | inl e ↦
        let same = ap (λ k. beq k key) ((beq_iff (key_of o) (key_of c)).0 e) in
        ground (arith, scopes_of-close_other key c os other, e, same, other)
    | inr e ↦ ground (arith, scopes_of-close_other key c os other, e)
  ]

  begun-held :
      (id : Value) (owner : Bytes) (r : Requests) (os : List Opened) (key : Bytes)
      → ((k : Bytes) → r.in_flight k ≡ listed (scopes_of k os))
      → put_key
          (in_flight_key serialize owner id)
          (some (found_scopes (r.in_flight (in_flight_key serialize owner id)) ++ r.next ∷ []))
          r.in_flight
          key
        ≡ listed (scopes_of key (os ++ record { owner = owner; id = id; scope = r.next } ∷ []))
  begun-held id owner r os key held =
      let o : Opened = record { owner = owner; id = id; scope = r.next } in
      elim (Bool-cases (beq (key_of o) key)) [
        | inl e ↦ rw (scopes_of-append key os o) (
            rw e (
              ap (λ scopes. some (scopes ++ r.next ∷ []))
                (ap found_scopes (ap r.in_flight ((beq_iff (key_of o) key).0 e) ∙ held key)
                  ∙ found_scopes-listed (scopes_of key os))
              ∙ listed-append (scopes_of key os) r.next))
        | inr e ↦ rw (scopes_of-append key os o) (rw e (held key))
      ]

  begins-Refines :
      (env : Envelope) (owner : Bytes) (r : Requests) (s : List Opened × ℕ)
      → Refines r s
      → Refines (request_step (begins env owner) r) (open_step (begins env owner) s)
  unfolding request_step begin_request
  begins-Refines env owner r s h = elim (Option-cases env.id) [
    | inl e ↦ rw (e, begin_request) (rw append-nil (record { held = h.held; made = ap suc h.made }))
    | inr (id, e) ↦
        rw (e, begin_request)
          (record {
            held = λ key.
                begun-held id owner r s.0 key h.held
                ∙ ap
                    (λ n.
                      listed
                        (scopes_of key (s.0 ++ record { owner = owner; id = id; scope = n } ∷ [])))
                    h.made;
            made = ap suc h.made;
          })
  ]

  end-held :
      (key : Bytes) (scope : ℕ) (r : Requests) (scopes : List ℕ)
      → r.in_flight key ≡ listed scopes
      → (k : Bytes)
      → (end_request key scope r).in_flight k
        ≡ (if beq key k then listed (without scope scopes) else r.in_flight k)
  unfolding end_request
  end-held key scope r [] h k = elim (Bool-cases (beq key k)) [
    | inl e ↦ rw (h, end_request) (rw e (ap r.in_flight (sym ((beq_iff key k).0 e)) ∙ h))
    | inr e ↦ rw (h, end_request) (rw e refl)
  ]
  end-held key scope r (a ∷ scopes) h k =
      rw (h, end_request) (rw (listed-if (without scope (a ∷ scopes))) refl)

  pub end_request-rest :
      (key : Bytes) (scope : ℕ) (r : Requests)
      → ((end_request key scope r).next ≡ r.next)
        × ((end_request key scope r).cancelled ≡ r.cancelled)
  unfolding end_request
  end_request-rest key scope r = elim (Option-cases (r.in_flight key)) [
    | inl e ↦ rw (e, end_request) (refl, refl)
    | inr (scopes, e) ↦ rw (e, end_request) (refl, refl)
  ]

  ends-Refines :
      (o : Opened) (r : Requests) (s : List Opened × ℕ)
      → Refines r s
      → Refines (request_step (ends o) r) (open_step (ends o) s)
  unfolding request_step destroy
  ends-Refines o r s h = rw (key-not_empty serialize o.owner o.id) (record {
    held = λ k.
        end-held (key_of o) o.scope r (scopes_of (key_of o) s.0) (h.held (key_of o)) k
        ∙ closed k (Bool-cases (beq (key_of o) k));
    made = (end_request-rest (key_of o) o.scope r).0 ∙ h.made;
  })
    where
      closed :
          (k : Bytes)
          → (beq (key_of o) k ≡ true) ⊎ (beq (key_of o) k ≡ false)
          → (if beq (key_of o) k
              then listed (without o.scope (scopes_of (key_of o) s.0))
              else r.in_flight k)
            ≡ listed (scopes_of k (closed_by o s.0))
      closed k (inl e) = rw e (
          ap listed (
            sym (scopes_of-closed_by o s.0)
            ∙ ap (λ j. scopes_of j (closed_by o s.0)) ((beq_iff (key_of o) k).0 e)))
      closed k (inr e) = rw e (h.held k ∙ ap listed (sym (scopes_of-close_other k o s.0 e)))

  step-Refines :
      (c : RequestCall) (r : Requests) (s : List Opened × ℕ)
      → Refines r s
      → Refines (request_step c r) (open_step c s)
  unfolding request_step cancel
  step-Refines (begins env owner) r s h = begins-Refines env owner r s h
  step-Refines (ends o) r s h = ends-Refines o r s h
  step-Refines (cancels id owner) r s h = record { held = h.held; made = h.made }

  run-Refines :
      (cs : List RequestCall) (r : Requests) (s : List Opened × ℕ)
      → Refines r s
      → Refines (request_run cs r) (open_run cs s)
  unfolding request_run
  run-Refines [] r s h = h
  run-Refines (c ∷ cs) r s h =
      run-Refines cs (request_step c r) (open_step c s) (step-Refines c r s h)

  -- The map of a new endpoint after any history holds the scopes of the open requests under their
  -- key, in the order in which they began, and no key without an open request.
  pub fresh-run-held :
      (cs : List RequestCall) (key : Bytes)
      → (request_run cs no_requests).in_flight key ≡ listed (scopes_of key (open_run cs ([], 0)).0)
  fresh-run-held cs key =
      (run-Refines cs no_requests ([], 0) (record { held = λ k. refl; made = refl })).held key
