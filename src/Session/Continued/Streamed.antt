-- ===== src/Session/Continued/Streamed.antt =====
-- session/http.hpp: the streamed answers after which a session reads another request.
use boost_taar.Common.{
  ℕ, zero, suc, Bool, true, false, ◌≡◌, refl, ◌∙◌, inl, inr, Option, none, some, List, [], ◌∷◌, All,
  Bytes, beq, codes, Bool-cases,
}
use boost_taar.Session.Failures.{Failure}
use boost_taar.Session.Routes.{Header}
use boost_taar.Session.Message.{Response, header_of, put_header, finish_header, Event, Settings}
use boost_taar.Session.Stream.{
  Generator, Chunk, converts, unconvertible, ChunkedEnd, decides, breaks, escapes, chunked_start,
  chunked_header, ChunksEnd, all_sent, cut_off, conversion_throws, and_chunk, send_chunks,
  after_chunks, written_to, unless_early, early_failure, write_chunked_response,
}
use boost_taar.Session.Continued.{AnswersOnce, ReadFirst, LeavesKeepAlive, Converts, Steady}

pub keep_alive-finish_header :
    (settings : Settings) (request : Header) (r : Response)
    → LeavesKeepAlive settings
    → (finish_header settings request r).keep_alive ≡ r.keep_alive
unfolding finish_header
keep_alive-finish_header settings request r leaves = elim (Bool-cases r.opaque) [
  | inl e ↦ rw e refl
  | inr e ↦ rw e (leaves request (header_of r))
]

keep_alive-chunked_header :
    (settings : Settings) (request : Header) (g : Generator)
    → LeavesKeepAlive settings
    → Steady g
    → (chunked_header settings request g).keep_alive ≡ request.keep_alive
unfolding chunked_header
keep_alive-chunked_header settings request g leaves steady =
    let start = chunked_start request g in
    keep_alive-finish_header settings request (put_header (g.metadata (header_of start)) start)
      leaves
    ∙ steady.0 (header_of start)

-- Keeping the connection needs a whole answer that says so, and an exception comes before any event.
abbrev pub Decided : List Event × ChunkedEnd → Type 0
Decided (events, decides keep_alive) =
    keep_alive ≡ true → AnswersOnce events × ReadFirst true events
Decided (events, breaks f) = Unit
Decided ([], escapes f) = Unit
Decided (e ∷ events, escapes f) = ⊥

abbrev Kept : List Bytes × ChunksEnd → Type 0
Kept (chunks, all_sent) = Unit
Kept (chunks, cut_off) = Unit
Kept (chunks, conversion_throws f) = ⊥

and_chunk-Kept : (chunk : Bytes) (r : List Bytes × ChunksEnd) → Kept r → Kept (and_chunk chunk r)
and_chunk-Kept chunk (chunks, all_sent) h = tt
and_chunk-Kept chunk (chunks, cut_off) h = tt
and_chunk-Kept chunk (chunks, conversion_throws f) h = h

send_chunks-Kept :
    (failing : Option ℕ) (cs : List Chunk) → All Converts cs → Kept (send_chunks failing cs)
unfolding send_chunks
send_chunks-Kept failing [] h = tt
send_chunks-Kept failing (unconvertible f ∷ cs) h = absurd h.0
send_chunks-Kept none (converts chunk ∷ cs) h =
    and_chunk-Kept chunk (send_chunks none cs) (send_chunks-Kept none cs h.1)
send_chunks-Kept (some zero) (converts chunk ∷ cs) h = tt
send_chunks-Kept (some (suc n)) (converts chunk ∷ cs) h =
    and_chunk-Kept chunk (send_chunks (some n) cs) (send_chunks-Kept (some n) cs h.1)

after_chunks-Decided :
    (r : Response) (keep_alive : Bool) (stored : Option Failure) (sent : List Bytes × ChunksEnd)
    → r.keep_alive ≡ keep_alive
    → Kept sent
    → Decided (after_chunks r keep_alive stored sent)
after_chunks-Decided r keep_alive stored (chunks, cut_off) same h = λ e. absurd (cc e)
after_chunks-Decided r keep_alive stored (chunks, conversion_throws f) same h = absurd h
after_chunks-Decided r keep_alive none (chunks, all_sent) same h = λ e. ((same ∙ e, refl), refl)
after_chunks-Decided r keep_alive (some f) (chunks, all_sent) same h = tt

written_to-Decided :
    (request : Header) (r : Response) (header_fails : Bool) (stored : Option Failure)
    (sent : List Bytes × ChunksEnd)
    → r.keep_alive ≡ request.keep_alive
    → Kept sent
    → Decided (written_to request r header_fails stored sent)
written_to-Decided request r true stored sent same h = λ k. absurd (cc k)
written_to-Decided request r false stored sent same h =
    elim (Bool-cases (beq request.method (codes "HEAD"))) [
      | inl m ↦ rw m (λ k. ((same ∙ k, refl), refl))
      | inr m ↦ rw m (after_chunks-Decided r request.keep_alive stored sent same h)
    ]

unless_early-Decided :
    (result : List Event × ChunkedEnd) (early : Option Failure)
    → Decided result
    → Decided (unless_early result early)
unless_early-Decided result none h = h
unless_early-Decided result (some f) h = tt

pub write_chunked_response-Decided :
    (settings : Settings) (request : Header) (header_fails : Bool) (failing : Option ℕ)
    (g : Generator)
    → LeavesKeepAlive settings
    → Steady g
    → Decided (write_chunked_response settings request header_fails failing g)
unfolding write_chunked_response
write_chunked_response-Decided settings request header_fails failing g leaves steady =
    let r = chunked_header settings request g in
    let sent = send_chunks failing g.chunks in
    unless_early-Decided (written_to request r header_fails g.kept_failure sent)
      (early_failure g.chunks g.kept_failure)
      (written_to-Decided request r header_fails g.kept_failure sent
        (keep_alive-chunked_header settings request g leaves steady)
        (send_chunks-Kept failing g.chunks steady.1))
