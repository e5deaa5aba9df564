-- ===== src/Session/Answer.antt =====
-- session/http.hpp: what a session answers to a request whose header it has read. What the network
-- does in a round is data, an `Arrival`; the handlers, the interceptors and the soft error handler
-- are functions in the record of the session.
use boost_taar.Common.{
  ℕ, Bool, false, not, ◌&&◌, Option, none, some, List, [], ◌∷◌, ◌++◌, ltb, is_empty, if◌then◌else◌,
  Bytes, codes,
}
use boost_taar.Session.Failures.{
  ErrorCode, body_limit, timeout, Failure, coded, is_transport_error, is_timeout,
  is_operation_aborted,
}
use boost_taar.Session.Routes.{Header, Context, Parsed, Route, RouteMethods, allowed_methods}
use boost_taar.Session.Message.{
  Response, Settings, finish_response, finish_header, Event, wrote, consumed, End, closes, fails,
  keep, only_if, write_response, write_protocol_error, Outcome, answers, throws, soft_error,
}
use boost_taar.Session.Stream.{
  Generator, ChunkedEnd, decides, breaks, escapes, write_chunked_response,
}

-- What a handler that streams comes back with.
pub data StreamOutcome : Type 0 where
  yields : Generator → StreamOutcome
  raises : Failure → StreamOutcome

-- The handlers by what they do with the body and the connection. A reader gets the live parser, and
-- also says whether the body has been read to its end. A raw handler takes the stream; it may throw.
pub data Handler : Type 0 where
  plain : (Header → Bytes → Context → Outcome) → Handler
  generator : (Header → Bytes → Context → StreamOutcome) → Handler
  reader : (Header → Context → Outcome × Bool) → Handler
  raw : (Header → Context → Option Failure) → Handler

-- A rejection is a response with a string body, never an opaque one.
pub data Interception : Type 0 where
  proceeds : Interception
  rejects : Response → Interception
  refuses : Failure → Interception

abbrev pub Interceptor : Type 0
Interceptor = Header → Context → Parsed → Interception × Context

pub record Session : Type 0 where
  pub routes : List (Route Handler)
  pub route_methods : List RouteMethods
  pub interceptors : List Interceptor
  pub soft_error_handler : Failure → Outcome
  pub settings : Settings
  pub request_body_limit : Option ℕ
  pub method_not_allowed_enabled : Bool
  pub head_from_get : Bool
  pub needs_parsed_target : Bool
  pub needs_parsed_cookies : Bool
  -- boost::urls::decode_view, by the text it decodes a cookie value to
  pub decode : Bytes → Option Bytes
  -- the failure made of the exception that it throws
  pub decode_failure : Failure

-- A read of the body: some bytes, or an error and whether the deadline has expired.
pub data BodyRead : Type 0 where
  piece : Bytes → BodyRead
  read_error : ErrorCode → Bool → BodyRead

pub record Arrival : Type 0 where
  pub cancelled : Bool
  pub open_before : Bool
  pub buffered : Bool
  pub idle_error : Option ErrorCode
  pub open_after_idle : Bool
  pub header_error : Option ErrorCode
  pub header_expired : Bool
  pub header : Header
  -- what is left of the header when the parser has been moved from
  pub moved_from : Header
  pub declares_body : Bool
  pub content_length : Option ℕ
  -- whether the parser is done behind the header, and the reads up to the end of the body otherwise
  pub body_done : Bool
  pub body_reads : List BodyRead
  -- whether a shutdown is requested while the interceptors run, and while the handler runs
  pub shutdown_early : Bool
  pub shutdown : Bool
  pub write_error : Option ErrorCode
  -- which write of a streamed response fails, if one does: the header's, or that of a chunk
  pub header_fails : Bool
  pub chunk_fails : Option ℕ

unfoldable pub read_body : List BodyRead → Bytes → Bytes × Option ErrorCode
read_body [] text = (text, none)
read_body (piece s ∷ reads) text = read_body reads (text ++ s)
read_body (read_error e expired ∷ reads) text = (text, some (if expired then timeout else e))

abbrev pub exceeds : Option ℕ → Option ℕ → Bool
exceeds none length = false
exceeds (some limit) none = false
exceeds (some limit) (some n) = ltb limit n

unfoldable pub declares_body_beyond : Option ℕ → Arrival → Bool
declares_body_beyond limit a = exceeds limit a.content_length

unfoldable pub buffered_body : Session → Arrival → Bytes × Option ErrorCode
buffered_body s a =
    let read = read_body a.body_reads [] in
    if declares_body_beyond s.request_body_limit a then ([], some body_limit) else read

abbrev pub Round : Type 0
Round = List Event × End

abbrev pub then_ends : Bool → Round → Round
then_ends b (events, end) = (events, only_if b end)

abbrev pub after_read : Round → Round
after_read (events, end) = (consumed ∷ events, end)

-- The answer to a body that cannot be read.
unfoldable pub refuse_body : Session → ErrorCode → Header → Round
refuse_body s e request = (
  if is_transport_error e then [] else write_protocol_error s.settings (coded e []) request ∷ [],
  if is_timeout e then closes else fails (coded e []),
)

abbrev pub answer_with : Session → Header → Bool → Bool → Response → Round
answer_with s request keep_alive shutting_down r =
    let done =
      finish_header s.settings request
        (finish_response request.version keep_alive shutting_down r) in
    (write_response request done ∷ [], keep (done.keep_alive && not shutting_down))

-- What escapes a handler that has not been given the stream.
unfoldable pub escaped : Session → Header → Bool → Failure → Round
escaped s request shutting_down f =
    if shutting_down && is_operation_aborted f
    then ([], closes)
    else then_ends (not shutting_down) (soft_error s.settings s.soft_error_handler f request)

unfoldable pub answer_plain : Session → Arrival → Header → Outcome → Round
answer_plain s a request (answers r) = answer_with s request request.keep_alive a.shutdown r
answer_plain s a request (throws f) = escaped s request a.shutdown f

abbrev pub after_events : List Event → Round → Round
after_events events (more, end) = (events ++ more, end)

-- An exception that leaves `write_chunked_response` goes to the soft error handler, also when the
-- header has been written.
abbrev pub after_chunked : Session → Header → Bool → List Event × ChunkedEnd → Round
after_chunked s request shutting_down (events, decides keep_alive) = (events, keep keep_alive)
after_chunked s request shutting_down (events, breaks f) =
    (events, if shutting_down && is_operation_aborted f then closes else fails f)
after_chunked s request shutting_down (events, escapes f) =
    after_events events (escaped s request shutting_down f)

unfoldable pub answer_stream : Session → Arrival → Header → StreamOutcome → Round
unfolding escaped
answer_stream s a request (yields g) =
    after_chunked s request a.shutdown
      (write_chunked_response s.settings request a.header_fails a.chunk_fails g)
answer_stream s a request (raises f) = escaped s request a.shutdown f

abbrev pub no_longer : Header → Header
no_longer request = record request { keep_alive = false }

abbrev pub if_read : Bool → Round → Round
if_read body_read r = if body_read then after_read r else r

unfoldable pub answer_reader : Session → Arrival → Header → Outcome × Bool → Round
answer_reader s a request (answers r, body_read) =
    if_read body_read (answer_with s request (request.keep_alive && body_read) a.shutdown r)
answer_reader s a request (throws f, body_read) = if_read body_read (
    then_ends (not a.shutdown && body_read) (
      soft_error s.settings s.soft_error_handler f
        (if body_read then request else no_longer request)))

abbrev pub with_body : Session → Header → Bytes × Option ErrorCode → (Bytes → Round) → Round
with_body s request (body, none) next = after_read (next body)
with_body s request (body, some e) next = refuse_body s e request

abbrev pub ended : Option Failure → End
ended none = closes
ended (some f) = fails f

unfoldable pub run_handler : Session → Arrival → Header → Context → Handler → Round
unfolding buffered_body read_body
run_handler s a request c (plain h) =
    with_body s request (buffered_body s a) (λ body. answer_plain s a request (h request body c))
run_handler s a request c (generator h) =
    with_body s request (buffered_body s a) (λ body. answer_stream s a request (h request body c))
run_handler s a request c (reader h) = answer_reader s a request (h request c)
run_handler s a request c (raw h) = ([], ended (h request c))

abbrev pub no_handler_response : Header → Bytes → Response
no_handler_response request allow = record {
  status = if is_empty allow then 404 else 405;
  version = request.version;
  keep_alive = request.keep_alive;
  opaque = false;
  fields = if is_empty allow then [] else (codes "Allow", allow) ∷ [];
  body = [];
}

abbrev pub written : Option ErrorCode → Bool → End
written none keep_alive = keep keep_alive
written (some e) keep_alive = if is_timeout e then closes else fails (coded e [])

-- The answer when no route takes the request; `seen` is the header that the response filter sees.
unfoldable pub not_found_answer : Session → Arrival → Header → Header → Bytes → Round
not_found_answer s a request seen allow = (
  wrote (finish_header s.settings seen (no_handler_response request allow)) false ∷ [],
  written a.write_error request.keep_alive,
)

unfoldable pub no_route : Session → Arrival → Header → Parsed → Round
unfolding allowed_methods
no_route s a request p =
    let allow =
      if s.method_not_allowed_enabled
      then allowed_methods s.head_from_get s.route_methods request p
      else [] in
    if a.declares_body
    then with_body s request (buffered_body s a)
        (λ body. not_found_answer s a request a.moved_from allow)
    else not_found_answer s a request request allow

abbrev pub dispatched : Session → Arrival → Header → Parsed → Option Handler × Context → Round
dispatched s a request p (some h, c) = run_handler s a request c h
dispatched s a request p (none, c) = no_route s a request p
