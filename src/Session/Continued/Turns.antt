-- ===== src/Session/Continued/Turns.antt =====
-- session/http.hpp: a round after which the session reads another request.
use boost_taar.Common.{
  Bool, true, false, not, ◌&&◌, ◌||◌, ◌≡◌, refl, inl, inr, Option, none, some, List, [], ◌∷◌,
  is_empty, Bytes, if◌then◌else◌, All, Bool-cases, arith,
}
use boost_taar.Session.Failures.{ErrorCode, Failure, is_timeout, is_clean_close}
use boost_taar.Session.Routes.{Header, Context, Parsed, no_context, choose}
use boost_taar.Session.Message.{finish_response, finish_header, write_response, soft_error}
use boost_taar.Session.Answer.{
  Interception, proceeds, rejects, refuses, Session, Arrival, no_longer,
}
use boost_taar.Session.Turn.{
  intercepted, routed, parsed_round, idle_end, header_round, headed, turn, typed, waited,
}
use boost_taar.Session.Continued.{
  LeavesKeepAlive, SteadyRoute, Continues, keep-Continues, only_if-Continues,
}
use boost_taar.Session.Continued.Answered.{soft_error-Continues, finished, ended-Continues}
use boost_taar.Session.Continued.Chosen.{if-Continues, dispatched-Continues, choose-Steady}

told_read : (b : Bool) (r : Header) → (if b then r else no_longer r).keep_alive ≡ true → b ≡ true
told_read true r h = refl
told_read false r h = h

intercepted-Continues :
    (s : Session) (a : Arrival) (p : Parsed) (v : Interception × Context)
    → LeavesKeepAlive s.settings
    → All SteadyRoute s.routes
    → (a.declares_body ≡ false → a.body_done ≡ true)
    → Continues a.body_done (intercepted s a p v)
unfolding intercepted
intercepted-Continues s a p (proceeds, c) leaves steady no_body =
    let request = if a.shutdown_early then no_longer a.header else a.header in
    dispatched-Continues s a request p (choose s.head_from_get s.routes request c p) leaves
      (choose-Steady s.head_from_get s.routes request c p steady) no_body
intercepted-Continues s a p (rejects r, c) leaves steady no_body =
    let request = if a.body_done then a.header else no_longer a.header in
    let done =
      finish_header s.settings request
        (finish_response request.version request.keep_alive a.shutdown_early (typed r)) in
    keep-Continues a.body_done done.keep_alive (write_response request done ∷ []) (λ e. (
      e,
      elim (finished s.settings request request.version request.keep_alive a.shutdown_early
          (typed r) leaves e) [ inl k ↦ inl (told_read a.body_done a.header k) | inr o ↦ inr o ],
    ))
intercepted-Continues s a p (refuses f, c) leaves steady no_body =
    let request = if a.body_done then a.header else no_longer a.header in
    only_if-Continues a.body_done (not a.shutdown_early && a.body_done)
      (soft_error s.settings s.soft_error_handler f request)
      (λ e.
        let read : a.body_done ≡ true = ground (arith, e) in
        rw read (soft_error-Continues s.settings s.soft_error_handler f _))

routed-Continues :
    (s : Session) (a : Arrival) (p : Parsed)
    → LeavesKeepAlive s.settings
    → All SteadyRoute s.routes
    → (a.declares_body ≡ false → a.body_done ≡ true)
    → Continues a.body_done (routed s a p)
unfolding routed
routed-Continues s a p leaves steady no_body =
    if-Continues a.body_done (is_empty s.interceptors) _ _
      (λ e.
        dispatched-Continues s a a.header p _ leaves
          (choose-Steady s.head_from_get s.routes a.header no_context p steady) no_body)
      (λ e. intercepted-Continues s a p _ leaves steady no_body)

parsed_round-Continues :
    (s : Session) (a : Arrival) (cookies : Option (List (Bytes × Bytes)))
    → LeavesKeepAlive s.settings
    → All SteadyRoute s.routes
    → (a.declares_body ≡ false → a.body_done ≡ true)
    → Continues a.body_done (parsed_round s a cookies)
parsed_round-Continues s a none leaves steady no_body = tt
parsed_round-Continues s a (some cookies) leaves steady no_body =
    routed-Continues s a _ leaves steady no_body

header_round-Continues :
    (s : Session) (a : Arrival) (done : Bool) (e : ErrorCode) → Continues done (header_round s a e)
unfolding header_round
header_round-Continues s a done e = elim (Bool-cases (is_timeout e)) [
  | inl t ↦ rw t tt
  | inr t ↦ elim (Bool-cases (is_clean_close e)) [ inl c ↦ rw (t, c) tt | inr c ↦ rw (t, c) tt ]
]

headed-Continues :
    (s : Session) (a : Arrival) (error : Option ErrorCode)
    → LeavesKeepAlive s.settings
    → All SteadyRoute s.routes
    → (a.declares_body ≡ false → a.body_done ≡ true)
    → Continues a.body_done (headed s a error)
headed-Continues s a none leaves steady no_body = parsed_round-Continues s a _ leaves steady no_body
headed-Continues s a (some e) leaves steady no_body = header_round-Continues s a a.body_done _

waited-Continues :
    (s : Session) (a : Arrival) (idle : Option (Option Failure))
    → LeavesKeepAlive s.settings
    → All SteadyRoute s.routes
    → (a.declares_body ≡ false → a.body_done ≡ true)
    → Continues a.body_done (waited s a idle)
waited-Continues s a none leaves steady no_body =
    headed-Continues s a a.header_error leaves steady no_body
waited-Continues s a (some f) leaves steady no_body = ended-Continues a.body_done f

-- If neither the response filter nor the metadata of a streamed response changes whether the
-- connection is kept, if each value that a generator yields converts to a chunk, and if a request
-- that declares no body has none: after a round that goes on to another request this one has been
-- answered exactly once and, where the answer is streamed, with all its data; the answer says that
-- the connection stays open; and the body of the request has been read to its end before the
-- answer, unless the answer is opaque. An answer whose write fails counts where the code ignores
-- the error.
pub turn-Continues :
    (s : Session) (a : Arrival)
    → LeavesKeepAlive s.settings
    → All SteadyRoute s.routes
    → (a.declares_body ≡ false → a.body_done ≡ true)
    → Continues a.body_done (turn s a)
unfolding turn
turn-Continues s a leaves steady no_body =
    if-Continues a.body_done (a.cancelled || not a.open_before) _ _ (λ e. tt)
      (λ e. waited-Continues s a (idle_end a) leaves steady no_body)
