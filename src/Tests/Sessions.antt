-- ===== src/Tests/Sessions.antt =====
-- Concrete rounds of an HTTP session.
use boost_taar.Common.{
  ◌≡◌, refl, Bool, true, false, not, ◌&&◌, none, some, List, [], ◌∷◌, ◌++◌, Bytes, codes, beq,
  iequals,
}
use boost_taar.Session.Failures.{
  coded, other, of_taar, invalid_number_format, http_status_for, code_of,
}
use boost_taar.Session.Routes.{
  Header, Parsed, Matcher, Route, RouteMethods, no_context, find_route, choose, allowed_list,
  allowed_methods, add_methods, collect_methods, listed,
}
use boost_taar.Session.Message.{
  Response, ResponseHeader, wrote, streamed, consumed, goes_on, answers, finish_response,
  finish_header, default_soft_error, soft_error, soft_answer,
}
use boost_taar.Session.Stream.{
  Generator, converts, unconvertible, write_chunked_response, chunked_header, send_chunks,
}
use boost_taar.Session.Answer.{
  Handler, plain, reader, Session, Arrival, BodyRead, piece, read_body, declares_body_beyond,
  buffered_body, answer_plain, answer_reader, run_handler, no_route, not_found_answer, generator,
  yields, answer_stream, escaped,
}
use boost_taar.Session.Turn.{turn, routed, idle_end, read_cookies}
use boost_taar.Core.Cors.{join, join_from}
use boost_taar.Session.Continued.{Continues}
use boost_taar.Session.Continued.Turns
use boost_taar.Session.Routes.First.{chosen, first_choice, first_match}
use boost_taar.Session.Routes.First
use boost_taar.Session.Routes.Allowed.{permits, knows}
use boost_taar.Session.Routes.Allowed

-- A matcher of one path and method that stores the path as an argument, also if it fails.
abbrev path_and : Bytes → Bytes → Matcher
path_and path method header c p = (
  beq header.target path && beq header.method method,
  record c { path_args = (path, header.target) ∷ c.path_args },
)

abbrev path_only : Bytes → Matcher
path_only path header c p = (beq header.target path, c)

abbrev okay : Bool → Response
okay opaque = record {
  status = 200;
  version = 10;
  keep_alive = true;
  opaque = opaque;
  fields = [];
  body = codes "ok";
}

abbrev upload : Handler
upload = reader (λ header c. (answers (okay true), false))

abbrev get_a : Route Handler
get_a = record {
  matcher = path_and (codes "/a") (codes "GET");
  handler = plain (λ header body c. answers (okay false));
}

abbrev post_b : Route Handler
post_b = record { matcher = path_and (codes "/b") (codes "POST"); handler = upload }

abbrev known_a : RouteMethods
known_a = record { target_matches = path_only (codes "/a"); methods = codes "GET" ∷ [] }

abbrev known_b : RouteMethods
known_b = record { target_matches = path_only (codes "/b"); methods = codes "POST" ∷ [] }

abbrev two_chunks : Generator
two_chunks = record {
  content_type = codes "text/plain";
  metadata = λ h. h;
  chunks = converts (codes "a") ∷ converts (codes "b") ∷ [];
  kept_failure = none;
}

-- Its metadata sets Connection: close.
abbrev says_close : Generator
says_close = record two_chunks { metadata = λ h. record h { keep_alive = false } }

-- Its second value does not convert.
abbrev bad_chunk : Generator
bad_chunk = record two_chunks {
  chunks = converts (codes "a") ∷ unconvertible (coded (of_taar invalid_number_format) []) ∷ [];
}

abbrev streaming : Bytes → Generator → Route Handler
streaming path g = record {
  matcher = path_and path (codes "GET");
  handler = generator (λ header body c. yields g);
}

abbrev add_fields : Header → ResponseHeader → ResponseHeader
add_fields request h = record h { fields = request.fields ++ h.fields }

-- A filter that sets Connection: close.
abbrev set_close : Header → ResponseHeader → ResponseHeader
set_close request h = record h { keep_alive = false }

abbrev session : Session
session = record {
  routes = get_a ∷ post_b ∷ streaming (codes "/s") two_chunks ∷ [];
  route_methods = known_a ∷ known_b ∷ [];
  interceptors = [];
  soft_error_handler = default_soft_error (λ text. okay false);
  settings = record { filter = some add_fields; date = none };
  request_body_limit = some 1000;
  method_not_allowed_enabled = true;
  head_from_get = true;
  needs_parsed_target = true;
  needs_parsed_cookies = false;
  decode = some;
  decode_failure = coded (other 0) [];
}

abbrev if_body : Bool → List BodyRead
if_body true = piece (codes "xyz") ∷ []
if_body false = []

abbrev request : Bytes → Bytes → Header
request method target = record {
  method = method;
  target = target;
  version = 11;
  keep_alive = true;
  fields = (codes "Origin", codes "https://a") ∷ [];
}

abbrev arrival : Bytes → Bytes → Bool → Arrival
arrival method target has_body = record {
  cancelled = false;
  open_before = true;
  buffered = false;
  idle_error = none;
  open_after_idle = true;
  header_error = none;
  header_expired = false;
  header = request method target;
  moved_from = record { method = []; target = []; version = 11; keep_alive = true; fields = [] };
  declares_body = has_body;
  content_length = none;
  body_done = not has_body;
  body_reads = if_body has_body;
  shutdown_early = false;
  shutdown = false;
  write_error = none;
  header_fails = false;
  chunk_fails = none;
}

-- HEAD is served by the GET route, and the response takes the version of the request.
head_run : turn session (arrival (codes "HEAD") (codes "/a") false) ≡ (
  consumed
      ∷ wrote
          (record (okay false) { version = 11; fields = (codes "Origin", codes "https://a") ∷ [] })
          true
      ∷ [],
  goes_on,
)
unfolding turn idle_end read_cookies routed choose find_route run_handler buffered_body
    declares_body_beyond read_body answer_plain finish_response finish_header
head_run = refl

-- A 405 for a request with a body: the filter sees what is left of the header, no Origin.
moved_run : turn session (arrival (codes "PUT") (codes "/a") true) ≡ (
  consumed
      ∷ wrote
          (record {
            status = 405;
            version = 11;
            keep_alive = true;
            opaque = false;
            fields = (codes "Allow", codes "GET, HEAD") ∷ [];
            body = [];
          })
          false
      ∷ [],
  goes_on,
)
unfolding turn idle_end read_cookies routed choose find_route no_route not_found_answer
    buffered_body read_body allowed_methods allowed_list collect_methods add_methods join join_from
    finish_header declares_body_beyond
moved_run = refl

-- An opaque answer before an unread body: the next request is read from the bytes of the body.
unread_run :
    turn session (arrival (codes "POST") (codes "/b") true)
    ≡ (wrote (okay true) false ∷ [], goes_on)
unfolding turn idle_end read_cookies routed choose find_route run_handler answer_reader
    finish_response finish_header
unread_run = refl

-- The chunks, and the answer of one that goes on.
stream_run : turn session (arrival (codes "GET") (codes "/s") false) ≡ (
  consumed
      ∷ streamed
          (record {
            status = 200;
            version = 11;
            keep_alive = true;
            opaque = false;
            fields =
                (codes "Origin", codes "https://a")
                ∷ (codes "Content-Type", codes "text/plain")
                ∷ (codes "Transfer-Encoding", codes "chunked")
                ∷ [];
            body = [];
          })
          (codes "a" ∷ codes "b" ∷ [])
          true
      ∷ [],
  goes_on,
)
unfolding turn idle_end read_cookies routed choose find_route run_handler buffered_body
    declares_body_beyond read_body answer_stream write_chunked_response chunked_header send_chunks
    finish_header iequals
stream_run = refl

-- A filter closes the connection in a 404, and the session reads on.
abbrev filtered : Session
filtered = record session { settings = record { filter = some set_close; date = none } }

filter_closes_run : turn filtered (arrival (codes "GET") (codes "/x") false) ≡ (
  wrote
        (record {
          status = 404;
          version = 11;
          keep_alive = false;
          opaque = false;
          fields = [];
          body = [];
        })
        false
      ∷ [],
  goes_on,
)
unfolding turn idle_end read_cookies routed choose find_route no_route not_found_answer
    allowed_methods allowed_list collect_methods add_methods join join_from finish_header
filter_closes_run = refl

abbrev serves : Generator → Session
serves g = record session {
  routes = streaming (codes "/s") g ∷ [];
  settings = record { filter = none; date = none };
}

abbrev chunked : Bool → Response
chunked keep_alive = record {
  status = 200;
  version = 11;
  keep_alive = keep_alive;
  opaque = false;
  fields =
      (codes "Content-Type", codes "text/plain")
      ∷ (codes "Transfer-Encoding", codes "chunked")
      ∷ [];
  body = [];
}

-- The metadata closes the connection, and the session reads on.
metadata_closes_run :
    turn (serves says_close) (arrival (codes "GET") (codes "/s") false)
    ≡ (consumed ∷ streamed (chunked false) (codes "a" ∷ codes "b" ∷ []) true ∷ [], goes_on)
unfolding turn idle_end read_cookies routed choose find_route run_handler buffered_body
    declares_body_beyond read_body answer_stream write_chunked_response chunked_header send_chunks
    finish_header iequals
metadata_closes_run = refl

-- A value that does not convert: a second response follows the first chunk, and the session reads on.
answered_twice_run : turn (serves bad_chunk) (arrival (codes "GET") (codes "/s") false) ≡ (
  consumed
      ∷ streamed (chunked true) (codes "a" ∷ []) false
      ∷ wrote (record (okay false) { status = 400; version = 11 }) false
      ∷ [],
  goes_on,
)
unfolding turn idle_end read_cookies routed choose find_route run_handler buffered_body
    declares_body_beyond read_body answer_stream write_chunked_response chunked_header send_chunks
    finish_header escaped soft_error soft_answer finish_response default_soft_error http_status_for
    code_of iequals
answered_twice_run = refl

turn-Continues_example : Continues true (turn session (arrival (codes "GET") (codes "/s") false))
turn-Continues_example =
    Turns.turn-Continues session (arrival (codes "GET") (codes "/s") false) (λ request h. refl)
      (tt, (tt, (λ request body c. (λ h. refl, (tt, (tt, tt))), tt))) (λ e. refl)

abbrev parsed_b : Parsed
parsed_b = record { target = codes "/b"; cookies = [] }

choose-first_choice_example :
    chosen (choose true session.routes (request (codes "POST") (codes "/b")) no_context parsed_b)
    ≡ first_choice true session.routes (request (codes "POST") (codes "/b")) no_context parsed_b
choose-first_choice_example =
    First.choose-first_choice true session.routes (request (codes "POST") (codes "/b")) no_context
      parsed_b (λ header c p. refl, (λ header c p. refl, (λ header c p. refl, tt)))

allowed_list_lem_example :
    listed
      (codes "HEAD")
      (allowed_list true session.route_methods (request (codes "PUT") (codes "/a")) parsed_b)
    ≡ (permits true session.route_methods
          (request (codes "PUT") (codes "/a"))
          parsed_b
          (codes "HEAD")
        && not (
            permits true session.route_methods
              (request (codes "PUT") (codes "/a"))
              parsed_b
              (codes "PUT")))
allowed_list_lem_example =
    Allowed.allowed_list_lem true session.route_methods (request (codes "PUT") (codes "/a"))
      parsed_b (codes "HEAD") (λ header c p. refl, (λ header c p. refl, tt))
