-- ===== src/Session/Stream.antt =====
-- session/http.hpp: `write_chunked_response`, which streams what a generator yields.
use boost_taar.Common.{
  ℕ, zero, suc, Bool, true, false, Option, none, some, List, [], ◌∷◌, ◌++◌, if◌then◌else◌, Bytes,
  beq, codes, iequals,
}
use boost_taar.Session.Failures.{Failure}
use boost_taar.Session.Routes.{Header}
use boost_taar.Session.Message.{
  Response, ResponseHeader, Settings, header_of, put_header, finish_header, Event, streamed,
}

-- A value that a generator yields, by what `chunk_body_from` makes of it: the bytes of the chunk,
-- or an exception, since it may be a user's function.
pub data Chunk : Type 0 where
  converts : Bytes → Chunk
  unconvertible : Failure → Chunk

-- `metadata` is what `apply_chunked_metadata` does to the header, nothing for an async_generator;
-- `kept_failure` is the exception that the generator keeps after its last value.
pub record Generator : Type 0 where
  pub content_type : Bytes
  pub metadata : ResponseHeader → ResponseHeader
  pub chunks : List Chunk
  pub kept_failure : Option Failure

-- How the function ends: it returns the decision, it returns false and stores the exception of the
-- generator, or an exception leaves it.
pub data ChunkedEnd : Type 0 where
  decides : Bool → ChunkedEnd
  breaks escapes : Failure → ChunkedEnd

-- `set` of a field: it takes the place of those with its name.
abbrev pub without_field : Bytes → List (Bytes × Bytes) → List (Bytes × Bytes)
without_field name [] = []
without_field name (f ∷ fields) =
    if iequals f.0 name then without_field name fields else f ∷ without_field name fields

abbrev pub set_field : Bytes → Bytes → List (Bytes × Bytes) → List (Bytes × Bytes)
set_field name value fields = without_field name fields ++ (name, value) ∷ []

abbrev pub chunked_start : Header → Generator → Response
chunked_start request g = record {
  status = 200;
  version = request.version;
  keep_alive = request.keep_alive;
  opaque = false;
  fields = (codes "Content-Type", g.content_type) ∷ [];
  body = [];
}

-- The metadata, the filter and the date, and the transfer encoding last.
unfoldable pub chunked_header : Settings → Header → Generator → Response
unfolding finish_header
chunked_header settings request g =
    let start = chunked_start request g in
    let done = finish_header settings request (put_header (g.metadata (header_of start)) start) in
    record done { fields = set_field (codes "Transfer-Encoding") (codes "chunked") done.fields }

pub data ChunksEnd : Type 0 where
  all_sent cut_off : ChunksEnd
  conversion_throws : Failure → ChunksEnd

abbrev pub and_chunk : Bytes → List Bytes × ChunksEnd → List Bytes × ChunksEnd
and_chunk chunk (chunks, end) = (chunk ∷ chunks, end)

-- The chunks sent, up to the write that fails, if one does.
unfoldable pub send_chunks : Option ℕ → List Chunk → List Bytes × ChunksEnd
send_chunks failing [] = ([], all_sent)
send_chunks failing (unconvertible f ∷ cs) = ([], conversion_throws f)
send_chunks none (converts chunk ∷ cs) = and_chunk chunk (send_chunks none cs)
send_chunks (some zero) (converts chunk ∷ cs) = ([], cut_off)
send_chunks (some (suc n)) (converts chunk ∷ cs) = and_chunk chunk (send_chunks (some n) cs)

abbrev pub after_chunks :
    Response → Bool → Option Failure → List Bytes × ChunksEnd → List Event × ChunkedEnd
after_chunks r keep_alive stored (chunks, cut_off) = (streamed r chunks false ∷ [], decides false)
after_chunks r keep_alive stored (chunks, conversion_throws f) =
    (streamed r chunks false ∷ [], escapes f)
after_chunks r keep_alive none (chunks, all_sent) =
    (streamed r chunks true ∷ [], decides keep_alive)
after_chunks r keep_alive (some f) (chunks, all_sent) = (streamed r chunks false ∷ [], breaks f)

-- The exception of a generator that yields nothing comes before the header.
abbrev pub early_failure : List Chunk → Option Failure → Option Failure
early_failure [] stored = stored
early_failure (c ∷ cs) stored = none

abbrev pub written_to :
    Header → Response → Bool → Option Failure → List Bytes × ChunksEnd → List Event × ChunkedEnd
written_to request r header_fails stored sent =
    if header_fails
    then (streamed r [] false ∷ [], decides false)
    else if beq request.method (codes "HEAD")
    then (streamed r [] true ∷ [], decides request.keep_alive)
    else after_chunks r request.keep_alive stored sent

abbrev pub unless_early : List Event × ChunkedEnd → Option Failure → List Event × ChunkedEnd
unless_early result none = result
unless_early result (some f) = ([], escapes f)

-- `header_fails` and `failing` say which write fails. A HEAD request gets the header only.
unfoldable pub write_chunked_response :
    Settings → Header → Bool → Option ℕ → Generator → List Event × ChunkedEnd
unfolding chunked_header send_chunks
write_chunked_response settings request header_fails failing g =
    unless_early
      (written_to request (chunked_header settings request g) header_fails g.kept_failure
        (send_chunks failing g.chunks))
      (early_failure g.chunks g.kept_failure)
