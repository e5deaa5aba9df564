-- ===== src/JsonRpc/Endpoint/Interrupted.antt =====
-- jsonrpc/endpoint.hpp: a request that is cancelled while its method runs.
use boost_taar.Common.{
  ◌≡◌, refl, ap, ◌∙◌, inl, inr, true, Option-cases, none, some, List, ◌∷◌, ◌++◌, Bytes, codes,
}
use boost_taar.JsonRpc.Json.{Value}
use boost_taar.JsonRpc.Envelope.{Envelope, make_error_response}
use boost_taar.JsonRpc.Requests.{Requests, begin_request}
use boost_taar.JsonRpc.Requests.Open.{RequestCall, cancels, request_run}
use boost_taar.JsonRpc.Requests.Reached.{Spares, begun-Flies, run-cancelled}
use boost_taar.JsonRpc.Endpoint.{
  Method, Registry, find_method, answer, respond, dispatch, request_cancelled_code,
}

begun-scope :
    (serialize : Value → Bytes) (env : Envelope) (owner : Bytes) (r : Requests)
    → (begin_request serialize env owner r).1.scope ≡ r.next
unfolding begin_request
begun-scope serialize env owner r = elim (Option-cases env.id) [
  | inl e ↦ rw (e, begin_request) refl
  | inr (id, e) ↦ rw (e, begin_request) refl
]

-- If a request names a registered method, and while the method runs the requests in flight go
-- through a history that cancels the id of the request under its scope key before anything closes
-- its scope, then the response carries the id and the error -32800 "Request cancelled", whatever
-- the method returns or throws.
pub dispatch-cancels :
    (serialize : Value → Bytes) (reg : Registry) (env : Envelope) (owner : Bytes) (r : Requests)
    (m : Method) (id : Value) (before after : List RequestCall)
    → env.id ≡ some id
    → find_method env.method reg.methods ≡ some m
    → (m.invoke env r.next (begin_request serialize env owner r).0).0
      ≡ request_run serialize
          (before ++ cancels id owner ∷ after)
          (begin_request serialize env owner r).0
    → Spares r.next before
    → (dispatch serialize reg env owner r).1
      ≡ some (make_error_response id request_cancelled_code (codes "Request cancelled") none)
unfolding dispatch respond answer
dispatch-cancels serialize reg env owner r m id before after e found ran spared =
    let h =
      run-cancelled serialize before after id owner r.next _
        (begun-Flies serialize env owner id r e) spared in
    let flag : (m.invoke env r.next (begin_request serialize env owner r).0).0.cancelled r.next
        ≡ true =
      ap (λ q. q.cancelled r.next) ran ∙ h.set in
    rw (found, dispatch) (rw (begun-scope serialize env owner r) (rw flag (rw e refl)))
