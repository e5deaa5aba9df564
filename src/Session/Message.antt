-- ===== src/Session/Message.antt =====
-- session/http.hpp: the response, and what is done to it before it is written. A response that is
-- `opaque` stands for a message_generator of Boost.Beast, whose header nobody can change any more.
use boost_taar.Common.{
  ℕ, Bool, false, not, ◌&&◌, Option, none, some, List, [], ◌∷◌, ◌++◌, any, ◌==◌, if◌then◌else◌,
  Bytes, beq, codes, iequals,
}
use boost_taar.Session.Routes.{Header}
use boost_taar.Session.Failures.{Failure, protocol_error_status, http_status_for, text_of}

pub record Response : Type 0 where
  pub status : ℕ
  pub version : ℕ
  pub keep_alive : Bool
  pub opaque : Bool
  pub fields : List (Bytes × Bytes)
  pub body : Bytes

-- What Beast keeps in the header: `keep_alive` is what message::keep_alive() makes of the version and
-- of Connection, so a Connection that is set by name changes it; `fields` are the others.
pub record ResponseHeader : Type 0 where
  pub status : ℕ
  pub version : ℕ
  pub keep_alive : Bool
  pub fields : List (Bytes × Bytes)

abbrev pub header_of : Response → ResponseHeader
header_of r = record {
  status = r.status;
  version = r.version;
  keep_alive = r.keep_alive;
  fields = r.fields;
}

abbrev pub put_header : ResponseHeader → Response → Response
put_header h r = record r {
  status = h.status;
  version = h.version;
  keep_alive = h.keep_alive;
  fields = h.fields;
}

-- The response filter, and the date that `cached_http_date` gives, if dates are not switched off.
pub record Settings : Type 0 where
  pub filter : Option (Header → ResponseHeader → ResponseHeader)
  pub date : Option Bytes

unfoldable pub finish_response : ℕ → Bool → Bool → Response → Response
finish_response version keep_alive shutting_down r = if r.opaque then r else record r {
  version = version;
  keep_alive = keep_alive && r.keep_alive && not shutting_down;
}

abbrev pub has_field : Bytes → List (Bytes × Bytes) → Bool
has_field name fields = any (λ f. iequals f.0 name) fields

abbrev pub add_date : Option Bytes → List (Bytes × Bytes) → List (Bytes × Bytes)
add_date none fields = fields
add_date (some date) fields =
    if has_field (codes "Date") fields then fields else fields ++ (codes "Date", date) ∷ []

abbrev pub run_filter :
    Option (Header → ResponseHeader → ResponseHeader) → Header → ResponseHeader → ResponseHeader
run_filter none request h = h
run_filter (some filter) request h = filter request h

-- The filter may change all of the header, also whether the connection is kept.
unfoldable pub finish_header : Settings → Header → Response → Response
finish_header settings request r =
    if r.opaque
    then r
    else let filtered = run_filter settings.filter request (header_of r) in
      put_header (record filtered { fields = add_date settings.date filtered.fields }) r

-- What a connection does: a response is written, or only its header; a header is streamed with the
-- chunks behind it, and whether that is all of them; or the body of the request is read to its end.
pub data Event : Type 0 where
  wrote : Response → Bool → Event
  streamed : Response → List Bytes → Bool → Event
  consumed : Event

-- How a round of the loop ends: with the next request, with the end of the connection, or with an
-- exception that goes to the hard error handler.
pub data End : Type 0 where
  goes_on closes : End
  fails : Failure → End

abbrev pub keep : Bool → End
keep b = if b then goes_on else closes

-- `co_return ka && b`, where the exception of an escalated failure passes.
abbrev pub only_if : Bool → End → End
only_if b goes_on = keep b
only_if b closes = closes
only_if b (fails f) = fails f

abbrev pub write_response : Header → Response → Event
write_response request r = wrote r (beq request.method (codes "HEAD") && not r.opaque)

unfoldable pub write_protocol_error : Settings → Failure → Header → Event
write_protocol_error settings f request =
    let empty_response : Response = record {
      status = protocol_error_status f;
      version = if request.version == 10 then 10 else 11;
      keep_alive = false;
      opaque = false;
      fields = [];
      body = [];
    } in
    wrote (finish_header settings request empty_response) false

-- What a handler comes back with.
pub data Outcome : Type 0 where
  answers : Response → Outcome
  throws : Failure → Outcome

-- The handler of soft errors that a new session has. `text_response` is `response_from` of a text.
unfoldable pub default_soft_error : (Bytes → Response) → Failure → Outcome
default_soft_error text_response f =
    let status = http_status_for f in
    if status == 500
    then throws f
    else answers (record (text_response (text_of f)) { status = status })

-- What both wrappers of a soft error handler do with what it comes back with.
unfoldable pub soft_answer : Settings → Header → Outcome → List Event × End
unfolding finish_response finish_header
soft_answer settings request (throws g) = ([], fails g)
soft_answer settings request (answers r) =
    let done =
      finish_header settings request (finish_response request.version request.keep_alive false r) in
    (write_response request done ∷ [], keep done.keep_alive)

unfoldable pub soft_error : Settings → (Failure → Outcome) → Failure → Header → List Event × End
unfolding soft_answer
soft_error settings handler f request = soft_answer settings request (handler f)
