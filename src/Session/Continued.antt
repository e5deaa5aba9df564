-- ===== src/Session/Continued.antt =====
-- session/http.hpp: what it means that a session reads another request after a round.
pub mod Streamed
pub mod Answered
pub mod Chosen
pub mod Turns
use boost_taar.Common.{
  ℕ, Bool, true, false, not, ◌&&◌, ◌||◌, ◌≡◌, refl, ◌⊎◌, inl, inr, Option, none, some, List, [],
  ◌∷◌, All, Bytes, if◌then◌else◌, Bool-cases, Option-cases, arith,
}
use boost_taar.Session.Failures.{Failure}
use boost_taar.Session.Routes.{Header, Context, Route}
use boost_taar.Session.Message.{
  Response, ResponseHeader, run_filter, Event, wrote, streamed, consumed, End, goes_on, closes,
  fails, keep, only_if, Settings,
}
use boost_taar.Session.Stream.{Generator, Chunk, converts, unconvertible}
use boost_taar.Session.Answer.{
  Handler, plain, generator, reader, raw, StreamOutcome, yields, raises, Round, then_ends,
  after_read,
}

-- The request has been answered once, and the answer says that the connection stays open.
abbrev pub AnswersOnce : List Event → Type 0
AnswersOnce [] = ⊥
AnswersOnce (consumed ∷ events) = AnswersOnce events
AnswersOnce (wrote r header_only ∷ []) = r.keep_alive ≡ true
AnswersOnce (wrote r header_only ∷ e ∷ events) = ⊥
AnswersOnce (streamed r chunks complete ∷ []) = (r.keep_alive ≡ true) × (complete ≡ true)
AnswersOnce (streamed r chunks complete ∷ e ∷ events) = ⊥

-- The body has been read before the answer, or there was none left behind the header.
abbrev pub ReadFirst : Bool → List Event → Type 0
ReadFirst done [] = done ≡ true
ReadFirst done (consumed ∷ events) = Unit
ReadFirst done (wrote r header_only ∷ events) = (done ≡ true) ⊎ (r.opaque ≡ true)
ReadFirst done (streamed r chunks complete ∷ events) = done ≡ true

-- The response filter does not change whether the connection is kept.
abbrev pub LeavesKeepAlive : Settings → Type 0
LeavesKeepAlive settings =
    (request : Header) (h : ResponseHeader)
    → (run_filter settings.filter request h).keep_alive ≡ h.keep_alive

abbrev pub Converts : Chunk → Type 0
Converts (converts chunk) = Unit
Converts (unconvertible f) = ⊥

-- The metadata of a generator does not change that either, and each value becomes a chunk.
abbrev pub Steady : Generator → Type 0
Steady g = ((h : ResponseHeader) → (g.metadata h).keep_alive ≡ h.keep_alive) × All Converts g.chunks

abbrev pub SteadyOutcome : StreamOutcome → Type 0
SteadyOutcome (yields g) = Steady g
SteadyOutcome (raises f) = Unit

abbrev pub SteadyHandler : Handler → Type 0
SteadyHandler (plain h) = Unit
SteadyHandler (generator h) =
    (request : Header) (body : Bytes) (c : Context) → SteadyOutcome (h request body c)
SteadyHandler (reader h) = Unit
SteadyHandler (raw h) = Unit

abbrev pub SteadyRoute : Route Handler → Type 0
SteadyRoute r = SteadyHandler r.handler

abbrev pub Continues : Bool → Round → Type 0
Continues done (events, goes_on) = AnswersOnce events × ReadFirst done events
Continues done (events, closes) = Unit
Continues done (events, fails f) = Unit

pub keep-Continues :
    (done keep_alive : Bool) (events : List Event)
    → (keep_alive ≡ true → AnswersOnce events × ReadFirst done events)
    → Continues done (events, keep keep_alive)
keep-Continues done true events h = h refl
keep-Continues done false events h = tt

pub only_if-Continues :
    (done b : Bool) (r : Round) → (b ≡ true → Continues done r) → Continues done (then_ends b r)
only_if-Continues done true (events, goes_on) h = h refl
only_if-Continues done false (events, goes_on) h = tt
only_if-Continues done b (events, closes) h = tt
only_if-Continues done b (events, fails f) h = tt

pub after_read-Continues :
    (done : Bool) (r : Round) → Continues true r → Continues done (after_read r)
after_read-Continues done (events, goes_on) h = (h.0, tt)
after_read-Continues done (events, closes) h = tt
after_read-Continues done (events, fails f) h = tt
