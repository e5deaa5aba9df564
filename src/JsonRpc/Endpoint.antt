-- ===== src/JsonRpc/Endpoint.antt =====
-- jsonrpc/endpoint.hpp: the registry of methods, the error mapping and the dispatch of envelopes,
-- batches and HTTP bodies.
pub mod Answers
pub mod Interrupted
use boost_taar.Common.{
  ℕ, Bool, true, false, not, ◌&&◌, Option, none, some, List, [], ◌∷◌, ◌++◌, Bytes, beq, codes,
  if◌then◌else◌, is_empty, ◌⊎◌, inl, inr,
}
use boost_taar.JsonRpc.Json.{
  ℤ, negsuc, Value, null, string, array, object, Items, nil, cons, assign, items,
}
use boost_taar.JsonRpc.Envelope.{
  Envelope, is_notification, parse_envelope, Error, parse_error, invalid_request, method_not_found,
  invalid_params, internal_error, code_of, message_for, make_response, make_error_response,
  recoverable_id, id_or_null, if_object,
}
use boost_taar.JsonRpc.Requests.{Requests, begin_request, destroy}

pub record ErrorInfo : Type 0 where
  pub code : ℤ
  pub message : Bytes
  pub info : Option Value

-- The categories of error codes that the default mapping tells apart.
pub data Category : Type 0 where
  jsonrpc_category taar_category other_category : Category

-- What the mapping reads of a failure: the code with its category and its text, whether it is
-- `error::unknown_exception`, the message, the attached data and `text()`.
pub record Failure : Type 0 where
  pub category : Category
  pub value : ℤ
  pub code_message : Bytes
  pub is_unknown_exception : Bool
  pub message : Bytes
  pub attached : Value
  pub text : Bytes

abbrev pub message_or : Bytes → Bytes → Bytes
message_or message default_message = if is_empty message then default_message else message

abbrev pub merged : Value → Bytes → Value
merged attached text = elim (if_object attached) [
  | some obj ↦ object (assign (codes "message") (string text) obj)
  | none ↦ string text
]

abbrev pub internal_info : Failure → ErrorInfo
internal_info f = record {
  code = code_of internal_error;
  message = message_or f.message (message_for internal_error);
  info = none;
}

abbrev pub params_info : Failure → ErrorInfo
params_info f = record {
  code = code_of invalid_params;
  message = message_for invalid_params;
  info = some (merged f.attached f.text);
}

unfoldable pub default_error_mapper : Failure → ErrorInfo
default_error_mapper f = elim f.category [
  | jsonrpc_category ↦ record {
    code = f.value;
    message = message_or f.message f.code_message;
    info = none;
  }
  | taar_category ↦ if f.is_unknown_exception then internal_info f else params_info f
  | other_category ↦ internal_info f
]

-- A mapper that throws gives `none`.
abbrev pub ErrorMapper : Type 0
ErrorMapper = Failure → Option ErrorInfo

-- A method runs on an envelope and its scope. While it waits, other requests begin, end and are
-- cancelled: it returns the requests as they are when it resumes, with its value or what it threw.
abbrev pub Invoke : Type 0
Invoke = Envelope → ℕ → Requests → Requests × (Value ⊎ Failure)

pub record Method : Type 0 where
  pub name : Bytes
  pub description : Bytes
  pub invoke : Invoke

pub record Registry : Type 0 where
  pub methods : List (Bytes × Method)
  pub order : List Bytes
  pub mapper : ErrorMapper

abbrev pub find_method : Bytes → List (Bytes × Method) → Option Method
find_method name [] = none
find_method name ((n, m) ∷ ms) = if beq n name then some m else find_method name ms

abbrev pub default_registry : Registry
default_registry = record { methods = []; order = []; mapper = λ f. some (default_error_mapper f) }

-- `none` is the exception for a name that is registered already.
unfoldable pub method : Method → Registry → Option Registry
method m r = elim (find_method m.name r.methods) [
  | some old ↦ none
  | none ↦ some (record r { methods = (m.name, m) ∷ r.methods; order = r.order ++ m.name ∷ [] })
]

unfoldable pub set_error_mapper : ErrorMapper → Registry → Registry
set_error_mapper mapper r = record r { mapper = mapper }

unfoldable pub map_failure : Registry → Failure → ErrorInfo
map_failure r f = elim (r.mapper f) [ some info ↦ info | none ↦ default_error_mapper f ]

abbrev pub request_cancelled_code : ℤ
request_cancelled_code = negsuc 32799

abbrev pub protocol_error : Value → Error → Value
protocol_error id code = make_error_response id (code_of code) (message_for code) none

-- The response to a request whose method has returned or thrown.
unfoldable pub answer : Registry → Value → Bool → Value ⊎ Failure → Value
answer reg id cancelled outcome =
    if cancelled
    then make_error_response id request_cancelled_code (codes "Request cancelled") none
    else elim outcome [
      | inr f ↦
          let info = map_failure reg f in make_error_response id info.code info.message info.info
      | inl result ↦ make_response id result
    ]

unfoldable pub respond : Registry → Envelope → Bool → Value ⊎ Failure → Option Value
respond reg env cancelled outcome =
    if is_notification env then none else some (answer reg (id_or_null env.id) cancelled outcome)

abbrev pub push_response : Option Value → List Value → List Value
push_response none responses = responses
push_response (some v) responses = v ∷ responses

-- No array is sent where no element is answered.
abbrev pub batch_reply : List Value → Option Value
batch_reply [] = none
batch_reply (v ∷ vs) = some (array (items (v ∷ vs)))

module _ (serialize : Value → Bytes) (reg : Registry) where
  -- The scope is destroyed when the coroutine returns.
  unfoldable pub dispatch : Envelope → Bytes → Requests → Requests × Option Value
  dispatch env scope_key r = elim (find_method env.method reg.methods) [
    | none ↦ (
      r,
      if is_notification env
          then none
          else some (protocol_error (id_or_null env.id) method_not_found),
    )
    | some m ↦
        let (begun, scoped) = begin_request serialize env scope_key r in
        let (ran, outcome) = m.invoke env scoped.scope begun in
        (destroy scoped ran, respond reg env (ran.cancelled scoped.scope) outcome)
  ]

  -- A body that is not an envelope is answered itself.
  unfoldable pub handle_element : Value → Requests → Requests × Option Value
  handle_element element r = elim (parse_envelope element) [
    | none ↦ (r, some (protocol_error (recoverable_id element) invalid_request))
    | some env ↦ dispatch env [] r
  ]

  -- The loop over a batch, with the responses in order.
  unfoldable pub handle_batch : Items → Requests → Requests × List Value
  handle_batch nil r = (r, [])
  handle_batch (cons element rest) r =
      let (r', response) = handle_element element r in
      let (r'', responses) = handle_batch rest r' in (r'', push_response response responses)

  unfoldable pub handle_json : Value → Requests → Requests × Option Value
  handle_json (array nil) r = (r, some (protocol_error null invalid_request))
  handle_json (array (cons element rest)) r =
      let (r', responses) = handle_batch (cons element rest) r in (r', batch_reply responses)
  handle_json body r = handle_element body r

  -- `boost::json::parse` is not of this repository: `none` stands for its error.
  unfoldable pub handle : (Bytes → Option Value) → Bytes → Requests → Requests × Option Value
  handle parse text r = elim (parse text) [
    | none ↦ (r, some (protocol_error null parse_error))
    | some body ↦ handle_json body r
  ]

-- The status, the content type and the body of the HTTP response.
pub record HttpReply : Type 0 where
  pub status : ℕ
  pub content_type : Option Bytes
  pub body : Bytes

unfoldable pub to_http : (Value → Bytes) → Option Value → HttpReply
to_http serialize none = record { status = 202; content_type = none; body = [] }
to_http serialize (some v) = record {
  status = 200;
  content_type = some (codes "application/json");
  body = serialize v;
}
