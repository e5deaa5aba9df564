-- ===== src/JsonRpc/Endpoint/Answers.antt =====
-- jsonrpc/endpoint.hpp: who is answered, by what, over a request body.
use boost_taar.Common.{
  ◌≡◌, refl, ◌⊎◌, inl, inr, Bool, true, false, Option, none, some, List, [], ◌∷◌, Bytes, codes,
  Option-cases,
}
use boost_taar.JsonRpc.Json.{
  ℤ, Value, null, string, array, object, Items, nil, cons, Fields, member,
}
use boost_taar.JsonRpc.Envelope.{
  Envelope, version, parse_envelope, make_response, make_error_response, recoverable_id,
}
use boost_taar.JsonRpc.Requests.{Requests}
use boost_taar.JsonRpc.Endpoint.{
  Failure, Registry, find_method, answer, respond, dispatch, handle_element, push_response,
  handle_batch, batch_reply, handle_json,
}

-- The id that the specification wants on the response to an element; none for a notification.
abbrev pub answer_id : Value → Option Value
answer_id element = elim (parse_envelope element) [
  | none ↦ some (recoverable_id element)
  | some env ↦ env.id
]

abbrev pub put_id : Option Value → List Value → List Value
put_id none ids = ids
put_id (some id) ids = id ∷ ids

abbrev pub answer_ids : Items → List Value
answer_ids nil = []
answer_ids (cons element rest) = put_id (answer_id element) (answer_ids rest)

-- A response object: the version, the id, and either a result or an error, never both.
abbrev pub IsAnswer : Value → Value → Type 0
IsAnswer id v =
    (fs : Fields) × (v ≡ object fs)
    × (member (codes "jsonrpc") fs ≡ some (string version))
    × (member (codes "id") fs ≡ some id)
    × (((x : Value) × (member (codes "result") fs ≡ some x) × (member (codes "error") fs ≡ none))
        ⊎ ((x : Value) × (member (codes "error") fs ≡ some x)
            × (member (codes "result") fs ≡ none)))

abbrev pub AreAnswers : List Value → List Value → Type 0
AreAnswers [] [] = Unit
AreAnswers (id ∷ ids) (v ∷ vs) = IsAnswer id v × AreAnswers ids vs
AreAnswers _ _ = ⊥

-- At most one answer, to at most one asker.
abbrev pub IsAnswered : Option Value → Option Value → Type 0
IsAnswered none none = Unit
IsAnswered (some id) (some v) = IsAnswer id v
IsAnswered _ _ = ⊥

-- What a body is answered with: an empty batch by one error, another batch by an array with a
-- response to each request in order and by nothing if there is none, and any other value alone.
abbrev pub IsReply : Value → Option Value → Type 0
IsReply (array nil) reply = IsAnswered (some null) reply
IsReply (array (cons element rest)) reply =
    (vs : List Value) × (reply ≡ batch_reply vs) × AreAnswers (answer_ids (cons element rest)) vs
IsReply body reply = IsAnswered (answer_id body) reply

make_response-IsAnswer : (id result : Value) → IsAnswer id (make_response id result)
unfolding make_response
make_response-IsAnswer id result = (_, refl, refl, refl, inl (result, refl, refl))

make_error_response-IsAnswer :
    (id : Value) (code : ℤ) (message : Bytes) (info : Option Value)
    → IsAnswer id (make_error_response id code message info)
unfolding make_error_response
make_error_response-IsAnswer id code message info = (_, refl, refl, refl, inr (_, refl, refl))

answer-IsAnswer :
    (reg : Registry) (id : Value) (cancelled : Bool) (outcome : Value ⊎ Failure)
    → IsAnswer id (answer reg id cancelled outcome)
unfolding answer
answer-IsAnswer reg id true outcome = make_error_response-IsAnswer id _ _ _
answer-IsAnswer reg id false (inl v) = make_response-IsAnswer id v
answer-IsAnswer reg id false (inr f) = make_error_response-IsAnswer id _ _ _

respond-IsAnswered :
    (reg : Registry) (env : Envelope) (cancelled : Bool) (outcome : Value ⊎ Failure)
    → IsAnswered env.id (respond reg env cancelled outcome)
unfolding respond
respond-IsAnswered reg env cancelled outcome = elim (Option-cases env.id) [
  | inl e ↦ rw (e, respond) tt
  | inr (id, e) ↦ rw (e, respond) (answer-IsAnswer reg id cancelled outcome)
]

AreAnswers-put :
    (id v : Option Value) (ids vs : List Value)
    → IsAnswered id v
    → AreAnswers ids vs
    → AreAnswers (put_id id ids) (push_response v vs)
AreAnswers-put none none ids vs a h = h
AreAnswers-put none (some v) ids vs a h = elim a [ ]
AreAnswers-put (some id) none ids vs a h = elim a [ ]
AreAnswers-put (some id) (some v) ids vs a h = (a, h)

module _ (serialize : Value → Bytes) (reg : Registry) where
  dispatch-IsAnswered :
      (env : Envelope) (scope_key : Bytes) (r : Requests)
      → IsAnswered env.id (dispatch serialize reg env scope_key r).1
  unfolding dispatch
  dispatch-IsAnswered env scope_key r = elim (Option-cases (find_method env.method reg.methods)) [
    | inl e ↦ elim (Option-cases env.id) [
      | inl n ↦ rw (e, dispatch) (rw n tt)
      | inr (id, n) ↦ rw (e, dispatch) (rw n (make_error_response-IsAnswer id _ _ _))
    ]
    | inr (m, e) ↦ rw (e, dispatch) (respond-IsAnswered reg env _ _)
  ]

  handle_element-IsAnswered :
      (element : Value) (r : Requests)
      → IsAnswered (answer_id element) (handle_element serialize reg element r).1
  unfolding handle_element
  handle_element-IsAnswered element r = elim (Option-cases (parse_envelope element)) [
    | inl e ↦ rw (e, handle_element, answer_id) (make_error_response-IsAnswer _ _ _ _)
    | inr (env, e) ↦ rw (e, handle_element, answer_id) (dispatch-IsAnswered env [] r)
  ]

  handle_batch-AreAnswers :
      (elements : Items) (r : Requests)
      → AreAnswers (answer_ids elements) (handle_batch serialize reg elements r).1
  unfolding handle_batch
  handle_batch-AreAnswers nil r = tt
  handle_batch-AreAnswers (cons element rest) r =
      AreAnswers-put (answer_id element) (handle_element serialize reg element r).1
        (answer_ids rest) _ (handle_element-IsAnswered element r)
        (handle_batch-AreAnswers rest (handle_element serialize reg element r).0)

  -- Whatever the methods return or throw and whatever else happens to the requests in flight
  -- meanwhile: a body is answered by exactly one response object per request in it, which carries
  -- the request's id and either a result or an error, in the order of the requests; an element that
  -- is no envelope counts as a request with its own id where that can be read and null otherwise; a
  -- notification is not answered, and a batch with nothing to answer gets no reply.
  pub handle_json-IsReply :
      (body : Value) (r : Requests) → IsReply body (handle_json serialize reg body r).1
  unfolding handle_json
  handle_json-IsReply (array nil) r = make_error_response-IsAnswer null _ _ _
  handle_json-IsReply (array (cons element rest)) r =
      (_, refl, handle_batch-AreAnswers (cons element rest) r)
  handle_json-IsReply body r = handle_element-IsAnswered body r
