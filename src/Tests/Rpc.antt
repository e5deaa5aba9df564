-- ===== src/Tests/Rpc.antt =====
-- Concrete runs of jsonrpc.
use boost_taar.Common.{
  ℕ, ◌≡◌, ◌⊎◌, ◌↔◌, refl, inl, true, Option, none, some, List, [], ◌∷◌, Bytes, codes, length, arith,
}
use boost_taar.JsonRpc.Json.{
  Value, null, boolean, number, string, array, object, items, end, field, pos,
}
use boost_taar.JsonRpc.Envelope.{
  Envelope, envelope_value, parse_envelope, make_error_response, version,
}
use boost_taar.JsonRpc.Envelope
use boost_taar.JsonRpc.Requests.{no_requests, cancel, in_flight_key}
use boost_taar.JsonRpc.Requests.Open.{
  Opened, RequestCall, begins, ends, cancels, scopes_of, request_run, open_run, listed,
}
use boost_taar.JsonRpc.Requests.Open
use boost_taar.JsonRpc.Requests.Cancelled.{Waits, NoNewline}
use boost_taar.JsonRpc.Requests.Cancelled
use boost_taar.JsonRpc.Endpoint.{
  Method, Registry, default_registry, handle_json, dispatch, request_cancelled_code,
}
use boost_taar.JsonRpc.Endpoint.Answers.{IsReply}
use boost_taar.JsonRpc.Endpoint.Answers
use boost_taar.JsonRpc.Endpoint.Interrupted

-- A writer that tells null from the other values.
abbrev short_text : Value → Bytes
short_text null = codes "null"
short_text v = codes "0"

short_text-distinct : (v : Value) → short_text v ≡ short_text null → v ≡ null
short_text-distinct null e = refl
short_text-distinct (boolean b) e = cc
short_text-distinct v e = cc

short_text-NoNewline : (v : Value) → NoNewline (short_text v)
short_text-NoNewline null = omega arith
short_text-NoNewline v = omega arith

abbrev request_of : Bytes → Option Value → Envelope
request_of name id = record { jsonrpc = version; method = name; id = id; params = none }

abbrev history : List RequestCall
history =
    begins (request_of (codes "add") (some null)) (codes "s1")
    ∷ begins (request_of (codes "add") none) (codes "s1")
    ∷ begins (request_of (codes "add") (some null)) (codes "s2")
    ∷ begins (request_of (codes "add") (some null)) (codes "s1")
    ∷ ends (record { owner = codes "s1"; id = null; scope = 0 })
    ∷ []

fresh-run-held_example :
    (request_run short_text history no_requests).in_flight (codes "s1\nnull")
    ≡ listed short_text
        (scopes_of short_text (codes "s1\nnull") (open_run short_text history ([], 0)).0)
fresh-run-held_example = Open.fresh-run-held short_text history (codes "s1\nnull")

history_open :
    scopes_of short_text (codes "s1\nnull") (open_run short_text history ([], 0)).0 ≡ 3 ∷ []
unfolding in_flight_key
history_open = refl

cancel-request_run_example :
    ((a : ℕ)
      → ((cancel short_text null
              (codes "s1")
              (request_run short_text history no_requests)).0.cancelled
            a
          ≡ true)
        ↔ (((request_run short_text history no_requests).cancelled a ≡ true)
            ⊎ Waits (codes "s1") null a (open_run short_text history ([], 0)).0))
    × ((cancel short_text null (codes "s1") (request_run short_text history no_requests)).1
        ≡ length (
            scopes_of short_text
              (in_flight_key short_text (codes "s1") null)
              (open_run short_text history ([], 0)).0))
cancel-request_run_example =
    Cancelled.cancel-request_run short_text null short_text-distinct short_text-NoNewline history
      (codes "s1")

-- A method that counts its calls by the scopes made, and is cancelled while it runs.
abbrev slow : Method
slow = record {
  name = codes "slow";
  description = [];
  invoke = λ env scope r. (
    request_run short_text (begins (request_of (codes "slow") none) [] ∷ cancels null [] ∷ []) r,
    inl (number (pos scope)),
  );
}

abbrev quick : Method
quick = record {
  name = codes "quick";
  description = [];
  invoke = λ env scope r. (r, inl (number (pos scope)));
}

abbrev registry : Registry
registry = record default_registry { methods = (codes "slow", slow) ∷ (codes "quick", quick) ∷ [] }

dispatch-cancels_example :
    (dispatch short_text registry (request_of (codes "slow") (some null)) [] no_requests).1
    ≡ some (make_error_response null request_cancelled_code (codes "Request cancelled") none)
dispatch-cancels_example =
    Interrupted.dispatch-cancels short_text registry (request_of (codes "slow") (some null)) []
      no_requests slow null (begins (request_of (codes "slow") none) [] ∷ []) [] refl refl refl tt

abbrev batch : Value
batch = array (
    items (
      envelope_value (request_of (codes "quick") (some (number (pos 7))))
      ∷ envelope_value (request_of (codes "quick") none)
      ∷ object (field (codes "id") (string (codes "x")) end)
      ∷ []))

handle_json-IsReply_example : IsReply batch (handle_json short_text registry batch no_requests).1
handle_json-IsReply_example = Answers.handle_json-IsReply short_text registry batch no_requests

parse_envelope-envelope_value_example :
    parse_envelope (envelope_value (request_of (codes "quick") (some (number (pos 7)))))
    ≡ some (request_of (codes "quick") (some (number (pos 7))))
parse_envelope-envelope_value_example =
    Envelope.parse_envelope-envelope_value (request_of (codes "quick") (some (number (pos 7))))
