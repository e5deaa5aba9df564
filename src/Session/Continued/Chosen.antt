-- ===== src/Session/Continued/Chosen.antt =====
-- session/http.hpp: the answer of the route that is chosen, or of none.
use boost_taar.Common.{
  Bool, true, false, ◌&&◌, ◌≡◌, refl, ◌∙◌, inl, inr, Option, none, some, List, [], ◌∷◌, All, Bytes,
  beq, codes, if◌then◌else◌, Bool-cases,
}
use boost_taar.Session.Failures.{ErrorCode, is_timeout}
use boost_taar.Session.Routes.{
  Header, Context, Parsed, Route, clear_args, find_route, or_get, choose,
}
use boost_taar.Session.Message.{Response, finish_header, wrote}
use boost_taar.Session.Answer.{
  Handler, Session, Arrival, Round, buffered_body, no_handler_response, written, not_found_answer,
  no_route, dispatched,
}
use boost_taar.Session.Continued.{
  Continues, keep-Continues, LeavesKeepAlive, SteadyHandler, SteadyRoute,
}
use boost_taar.Session.Continued.Streamed.{keep_alive-finish_header}
use boost_taar.Session.Continued.Answered.{with_body-Continues, run_handler-Continues}

pub written-Continues :
    (done keep_alive header_only : Bool) (r : Response) (error : Option ErrorCode)
    → done ≡ true
    → (keep_alive ≡ true → r.keep_alive ≡ true)
    → Continues done (wrote r header_only ∷ [], written error keep_alive)
written-Continues done keep_alive header_only r none read kept =
    keep-Continues done keep_alive (wrote r header_only ∷ []) (λ e. (kept e, inl read))
written-Continues done keep_alive header_only r (some e) read kept =
    elim (Bool-cases (is_timeout e)) [ inl t ↦ rw t tt | inr t ↦ rw t tt ]

pub not_found_answer-Continues :
    (s : Session) (a : Arrival) (done : Bool) (request seen : Header) (allow : Bytes)
    → LeavesKeepAlive s.settings
    → done ≡ true
    → Continues done (not_found_answer s a request seen allow)
unfolding not_found_answer
not_found_answer-Continues s a done request seen allow leaves read =
    let answer = no_handler_response request allow in
    written-Continues done request.keep_alive false (finish_header s.settings seen answer)
      a.write_error read (λ e. keep_alive-finish_header s.settings seen answer leaves ∙ e)

pub if-Continues :
    (done b : Bool) (r r' : Round)
    → (b ≡ true → Continues done r)
    → (b ≡ false → Continues done r')
    → Continues done (if b then r else r')
if-Continues done true r r' h h' = h refl
if-Continues done false r r' h h' = h' refl

pub no_route-Continues :
    (s : Session) (a : Arrival) (request : Header) (p : Parsed)
    → LeavesKeepAlive s.settings
    → (a.declares_body ≡ false → a.body_done ≡ true)
    → Continues a.body_done (no_route s a request p)
unfolding no_route
no_route-Continues s a request p leaves no_body =
    if-Continues a.body_done a.declares_body _ _
      (λ e.
        with_body-Continues s a.body_done request (buffered_body s a) _
          (λ body. not_found_answer-Continues s a true request a.moved_from _ leaves refl))
      (λ e. not_found_answer-Continues s a a.body_done request request _ leaves (no_body e))

-- What is said of every route's handler holds for the one that is chosen.
abbrev pub SteadyChoice : Option Handler × Context → Type 0
SteadyChoice (none, c) = Unit
SteadyChoice (some h, c) = SteadyHandler h

pub dispatched-Continues :
    (s : Session) (a : Arrival) (request : Header) (p : Parsed) (o : Option Handler × Context)
    → LeavesKeepAlive s.settings
    → SteadyChoice o
    → (a.declares_body ≡ false → a.body_done ≡ true)
    → Continues a.body_done (dispatched s a request p o)
dispatched-Continues s a request p (some h, c) leaves steady no_body =
    run_handler-Continues s a request c h leaves steady
dispatched-Continues s a request p (none, c) leaves steady no_body =
    no_route-Continues s a request p leaves no_body

find_route-Steady :
    (routes : List (Route Handler)) (header : Header) (c : Context) (p : Parsed)
    → All SteadyRoute routes
    → SteadyChoice (find_route routes header c p)
unfolding find_route
find_route-Steady [] header c p h = tt
find_route-Steady (r ∷ rs) header c p h = elim (Bool-cases (r.matcher header (clear_args c) p).0) [
  | inl e ↦ rw e h.0
  | inr e ↦ rw e (find_route-Steady rs header (r.matcher header (clear_args c) p).1 p h.1)
]

or_get-Steady :
    (head_from_get : Bool) (routes : List (Route Handler)) (header : Header) (p : Parsed)
    (found : Option Handler × Context)
    → All SteadyRoute routes
    → SteadyChoice found
    → SteadyChoice (or_get head_from_get routes header p found)
or_get-Steady head_from_get routes header p (some h, c) all found = found
or_get-Steady head_from_get routes header p (none, c) all found =
    elim (Bool-cases (head_from_get && beq header.method (codes "HEAD"))) [
      | inl e ↦ rw e (find_route-Steady routes (record header { method = codes "GET" }) c p all)
      | inr e ↦ rw e tt
    ]

pub choose-Steady :
    (head_from_get : Bool) (routes : List (Route Handler)) (header : Header) (c : Context)
    (p : Parsed)
    → All SteadyRoute routes
    → SteadyChoice (choose head_from_get routes header c p)
unfolding choose
choose-Steady head_from_get routes header c p all =
    or_get-Steady head_from_get routes header p (find_route routes header c p) all
      (find_route-Steady routes header c p all)
