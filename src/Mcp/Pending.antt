-- ===== src/Mcp/Pending.antt =====
-- mcp/endpoint.hpp: the requests that a session_slot sends to its client, and their replies. A reply
-- channel is an address in a heap, since the map and the coroutine that waits share it; the
-- address of a channel is the number of its request.
pub mod Replies
pub mod Once
pub mod Reached
use boost_taar.Common.{
  ℕ, suc, Bool, true, false, Option, none, some, List, [], ◌∷◌, ◌++◌, Bytes, codes, beq, ◌==◌,
  if◌then◌else◌,
}
use boost_taar.JsonRpc.Json.{Value, number, pos, member}
use boost_taar.JsonRpc.Envelope.{if_object}
use boost_taar.Core.AsyncChannel.{
  Channel, Completion, resumed, immediate, fresh, push, async_receive, close,
}

-- `received` holds, for each request, what its receive has completed with.
pub record ClientRequests : Type 0 where
  pub pending : List (Bytes × ℕ)
  pub next_request_id : ℕ
  pub channels : ℕ → Channel Value
  pub received : ℕ → List (Option Value)

abbrev pub no_client_requests : ClientRequests
no_client_requests = record {
  pending = [];
  next_request_id = 1;
  channels = λ k. fresh;
  received = λ k. [];
}

abbrev pub put_entry {ℓ} : {A : Type ℓ} → ℕ → A → (ℕ → A) → ℕ → A
put_entry k a m j = if j == k then a else m j

-- `pending.erase(key)` and `pending.find(key)`
abbrev pub erase_pending : Bytes → List (Bytes × ℕ) → List (Bytes × ℕ)
erase_pending key [] = []
erase_pending key ((k, a) ∷ es) =
    if beq k key then erase_pending key es else (k, a) ∷ erase_pending key es

abbrev pub find_pending : Bytes → List (Bytes × ℕ) → Option ℕ
find_pending key [] = none
find_pending key ((k, a) ∷ es) = if beq k key then some a else find_pending key es

abbrev pub completed : List (Completion Value) → List (Option Value)
completed [] = []
completed (resumed w v ∷ out) = v ∷ completed out
completed (immediate v ∷ out) = v ∷ completed out

-- The effect of a call on the channel at an address.
abbrev pub effect : ℕ → Channel Value × List (Completion Value) → ClientRequests → ClientRequests
effect k (c, out) s = record s {
  channels = put_entry k c s.channels;
  received = put_entry k (s.received k ++ completed out) s.received;
}

abbrev pub without_result :
    Channel Value × List (Completion Value) × Bool → Channel Value × List (Completion Value)
without_result (c, out, queued) = (c, out)

abbrev pub close_all : List (Bytes × ℕ) → ClientRequests → ClientRequests
close_all [] s = s
close_all ((key, k) ∷ es) s = close_all es (effect k (close (s.channels k)) s)

abbrev pub request_id : ℕ → Value
request_id k = number (pos k)

-- The id of a response: `obj->if_contains("id")`.
unfoldable pub response_id : Value → Option Value
response_id response = elim (if_object response) [
  | none ↦ none
  | some obj ↦ member (codes "id") obj
]

-- `co_await channel->async_receive(…)` of the request
unfoldable pub await_reply : ℕ → ClientRequests → ClientRequests
await_reply k s = effect k (async_receive (s.channels k)) s

-- The timer of `request` closes its channel.
unfoldable pub expire_request : ℕ → ClientRequests → ClientRequests
expire_request k s = effect k (close (s.channels k)) s

-- `session_slot::end`, but for the mailbox
unfoldable pub end_slot : ClientRequests → ClientRequests
end_slot s = close_all s.pending (record s { pending = [] })

-- `boost::json::serialize` is not of this repository.
module _ (serialize : Value → Bytes) where
  unfoldable pub begin_client_request : ClientRequests → ClientRequests × ℕ
  begin_client_request s =
      let k = s.next_request_id in
      let key = serialize (request_id k) in
      (
        record s {
          pending = (key, k) ∷ erase_pending key s.pending;
          next_request_id = suc k;
          channels = put_entry k fresh s.channels;
        },
        k,
      )

  unfoldable pub end_client_request : ℕ → ClientRequests → ClientRequests
  end_client_request k s = record s { pending = erase_pending (serialize (request_id k)) s.pending }

  abbrev pub deliver_to : Value → Bytes → Option ℕ → ClientRequests → ClientRequests × Bool
  deliver_to response key none s = (s, false)
  deliver_to response key (some k) s =
      let (c, out, queued) = push response (s.channels k) in
      (effect k (c, out) (record s { pending = erase_pending key s.pending }), queued)

  abbrev pub deliver_id : Value → Option Value → ClientRequests → ClientRequests × Bool
  deliver_id response none s = (s, false)
  deliver_id response (some id) s =
      deliver_to response (serialize id) (find_pending (serialize id) s.pending) s

  unfoldable pub deliver_response : Value → ClientRequests → ClientRequests × Bool
  unfolding response_id
  deliver_response response s = deliver_id response (response_id response) s

pub data PendingStep : Type 0 where
  begins ends : PendingStep
  awaits expires finishes : ℕ → PendingStep
  delivers : Value → PendingStep

module _ (serialize : Value → Bytes) where
  unfoldable pub pending_step : PendingStep → ClientRequests → ClientRequests
  unfolding begin_client_request end_client_request deliver_response
  pending_step begins s = (begin_client_request serialize s).0
  pending_step ends s = end_slot s
  pending_step (awaits k) s = await_reply k s
  pending_step (expires k) s = expire_request k s
  pending_step (finishes k) s = end_client_request serialize k s
  pending_step (delivers v) s = (deliver_response serialize v s).0

  unfoldable pub pending_run : List PendingStep → ClientRequests → ClientRequests
  unfolding pending_step
  pending_run [] s = s
  pending_run (c ∷ cs) s = pending_run cs (pending_step c s)
