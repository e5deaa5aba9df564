-- ===== src/Session/Continued/Answered.antt =====
-- session/http.hpp: the answers after which a session reads another request.
use boost_taar.Common.{
  ℕ, Bool, true, false, not, ◌&&◌, ◌≡◌, refl, sym, ◌∙◌, ◌⊎◌, inl, inr, Option, none, some, List, [],
  ◌∷◌, Bytes, if◌then◌else◌, Bool-cases, arith,
}
use boost_taar.Session.Failures.{ErrorCode, Failure, is_timeout, is_operation_aborted}
use boost_taar.Session.Routes.{Header, Context}
use boost_taar.Session.Message.{
  Response, finish_response, finish_header, Event, wrote, streamed, consumed, goes_on, closes,
  fails, write_response, Outcome, answers, throws, soft_error, soft_answer, Settings,
}
use boost_taar.Session.Stream.{ChunkedEnd, decides, breaks, escapes, write_chunked_response}
use boost_taar.Session.Answer.{
  Handler, plain, generator, reader, raw, StreamOutcome, yields, raises, Session, Arrival, Round,
  refuse_body, answer_with, escaped, answer_plain, after_chunked, answer_stream, answer_reader,
  if_read, no_longer, with_body, buffered_body, run_handler, ended,
}
use boost_taar.Session.Continued.{
  ReadFirst, Continues, keep-Continues, only_if-Continues, after_read-Continues, LeavesKeepAlive,
  SteadyOutcome, SteadyHandler,
}
use boost_taar.Session.Continued.Streamed.{
  keep_alive-finish_header, Decided, write_chunked_response-Decided,
}

pub soft_answer-Continues :
    (settings : Settings) (request : Header) (o : Outcome)
    → Continues true (soft_answer settings request o)
unfolding soft_answer
soft_answer-Continues settings request (throws g) = tt
soft_answer-Continues settings request (answers r) =
    let done =
      finish_header settings request (finish_response request.version request.keep_alive false r) in
    keep-Continues true done.keep_alive (write_response request done ∷ []) (λ e. (e, inl refl))

pub soft_error-Continues :
    (settings : Settings) (handler : Failure → Outcome) (f : Failure) (request : Header)
    → Continues true (soft_error settings handler f request)
unfolding soft_error
soft_error-Continues settings handler f request = soft_answer-Continues settings request (handler f)

-- A response that keeps the connection open had leave to, or is opaque.
pub finished :
    (settings : Settings) (request : Header) (version : ℕ) (keep_alive shutting_down : Bool)
    (r : Response)
    → LeavesKeepAlive settings
    → (finish_header settings request
        (finish_response version keep_alive shutting_down r)).keep_alive
      ≡ true
    → (keep_alive ≡ true)
      ⊎ ((finish_header settings request
            (finish_response version keep_alive shutting_down r)).opaque
          ≡ true)
unfolding finish_header finish_response
finished settings request version keep_alive shutting_down r leaves h = elim (Bool-cases r.opaque) [
  | inl e ↦ rw e (inr refl)
  | inr e ↦
      let kept =
        sym (
          keep_alive-finish_header settings request
            (finish_response version keep_alive shutting_down r) leaves)
        ∙ h in
      inl (ground (arith, kept, e))
]

pub answer_with-Continues :
    (s : Session) (request : Header) (done keep_alive shutting_down : Bool) (r : Response)
    → LeavesKeepAlive s.settings
    → (keep_alive ≡ true → done ≡ true)
    → Continues done (answer_with s request keep_alive shutting_down r)
answer_with-Continues s request done keep_alive shutting_down r leaves h =
    let made =
      finish_header s.settings request
        (finish_response request.version keep_alive shutting_down r) in
    keep-Continues done (made.keep_alive && not shutting_down) (write_response request made ∷ [])
      (λ e.
        let kept : made.keep_alive ≡ true = ground (arith, e) in
        (
          kept,
          elim (finished s.settings request request.version keep_alive shutting_down r leaves
              kept) [ inl k ↦ inl (h k) | inr o ↦ inr o ],
        ))

pub escaped-Continues :
    (s : Session) (request : Header) (shutting_down : Bool) (f : Failure)
    → Continues true (escaped s request shutting_down f)
unfolding escaped
escaped-Continues s request shutting_down f =
    elim (Bool-cases (shutting_down && is_operation_aborted f)) [
      | inl e ↦ rw e tt
      | inr e ↦ rw e (
          only_if-Continues true (not shutting_down)
            (soft_error s.settings s.soft_error_handler f request)
            (λ _. soft_error-Continues s.settings s.soft_error_handler f request))
    ]

pub answer_plain-Continues :
    (s : Session) (a : Arrival) (request : Header) (o : Outcome)
    → LeavesKeepAlive s.settings
    → Continues true (answer_plain s a request o)
unfolding answer_plain
answer_plain-Continues s a request (answers r) leaves =
    answer_with-Continues s request true request.keep_alive a.shutdown r leaves (λ _. refl)
answer_plain-Continues s a request (throws f) leaves = escaped-Continues s request a.shutdown f

after_chunked-Continues :
    (s : Session) (request : Header) (shutting_down : Bool) (r : List Event × ChunkedEnd)
    → Decided r
    → Continues true (after_chunked s request shutting_down r)
after_chunked-Continues s request shutting_down (events, decides keep_alive) h =
    keep-Continues true keep_alive events h
after_chunked-Continues s request shutting_down (events, breaks f) h =
    elim (Bool-cases (shutting_down && is_operation_aborted f)) [
      | inl e ↦ rw e tt
      | inr e ↦ rw e tt
    ]
after_chunked-Continues s request shutting_down ([], escapes f) h =
    escaped-Continues s request shutting_down f
after_chunked-Continues s request shutting_down (e ∷ events, escapes f) h = absurd h

pub answer_stream-Continues :
    (s : Session) (a : Arrival) (request : Header) (o : StreamOutcome)
    → LeavesKeepAlive s.settings
    → SteadyOutcome o
    → Continues true (answer_stream s a request o)
unfolding answer_stream
answer_stream-Continues s a request (yields g) leaves steady =
    after_chunked-Continues s request a.shutdown
      (write_chunked_response s.settings request a.header_fails a.chunk_fails g)
      (write_chunked_response-Decided s.settings request a.header_fails a.chunk_fails g leaves
        steady)
answer_stream-Continues s a request (raises f) leaves steady =
    escaped-Continues s request a.shutdown f

-- An answer that is fine although the body is unread is fine in any case.
pub unread : (done : Bool) (events : List Event) → ReadFirst false events → ReadFirst done events
unread done [] h = ground (arith, h)
unread done (consumed ∷ events) h = tt
unread done (wrote r header_only ∷ events) (inl h) = ground (arith, h)
unread done (wrote r header_only ∷ events) (inr h) = inr h
unread done (streamed r chunks complete ∷ events) h = ground (arith, h)

pub unread-Continues : (done : Bool) (r : Round) → Continues false r → Continues done r
unread-Continues done (events, goes_on) h = (h.0, unread done events h.1)
unread-Continues done (events, closes) h = tt
unread-Continues done (events, fails f) h = tt

pub if_read-Continues :
    (done body_read : Bool) (r : Round)
    → Continues body_read r
    → Continues done (if_read body_read r)
if_read-Continues done true r h = after_read-Continues done r h
if_read-Continues done false r h = unread-Continues done r h

pub answer_reader-Continues :
    (s : Session) (a : Arrival) (request : Header) (o : Outcome) (body_read : Bool)
    → LeavesKeepAlive s.settings
    → Continues a.body_done (answer_reader s a request (o, body_read))
unfolding answer_reader
answer_reader-Continues s a request (answers r) body_read leaves =
    if_read-Continues a.body_done body_read _ (
      answer_with-Continues s request body_read (request.keep_alive && body_read) a.shutdown r
        leaves (λ e. ground (arith, e)))
answer_reader-Continues s a request (throws f) body_read leaves =
    let told = if body_read then request else no_longer request in
    if_read-Continues a.body_done body_read _ (
      only_if-Continues body_read (not a.shutdown && body_read)
        (soft_error s.settings s.soft_error_handler f told)
        (λ e.
          let read : body_read ≡ true = ground (arith, e) in
          rw read (soft_error-Continues s.settings s.soft_error_handler f _)))

pub with_body-Continues :
    (s : Session) (done : Bool) (request : Header) (read : Bytes × Option ErrorCode)
    (next : Bytes → Round)
    → ((body : Bytes) → Continues true (next body))
    → Continues done (with_body s request read next)
unfolding refuse_body
with_body-Continues s done request (body, none) next h =
    after_read-Continues done (next body) (h body)
with_body-Continues s done request (body, some e) next h = elim (Bool-cases (is_timeout e)) [
  | inl t ↦ rw t tt
  | inr t ↦ rw t tt
]

pub ended-Continues : (done : Bool) (f : Option Failure) → Continues done ([], ended f)
ended-Continues done none = tt
ended-Continues done (some f) = tt

pub run_handler-Continues :
    (s : Session) (a : Arrival) (request : Header) (c : Context) (h : Handler)
    → LeavesKeepAlive s.settings
    → SteadyHandler h
    → Continues a.body_done (run_handler s a request c h)
unfolding run_handler
run_handler-Continues s a request c (plain h) leaves steady =
    with_body-Continues s a.body_done request (buffered_body s a) _
      (λ body. answer_plain-Continues s a request (h request body c) leaves)
run_handler-Continues s a request c (generator h) leaves steady =
    with_body-Continues s a.body_done request (buffered_body s a) _ (λ body.
      answer_stream-Continues s a request (h request body c) leaves (steady request body c))
run_handler-Continues s a request c (reader h) leaves steady =
    answer_reader-Continues s a request (h request c).0 (h request c).1 leaves
run_handler-Continues s a request c (raw h) leaves steady =
    ended-Continues a.body_done (h request c)
