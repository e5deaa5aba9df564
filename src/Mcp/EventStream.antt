-- ===== src/Mcp/EventStream.antt =====
-- mcp/endpoint.hpp: the messages that a session_slot queues for its client, and what the streams
-- take of them. The mailbox is the async_channel of core/async_channel.hpp.
pub mod Kept
pub mod Preserved
pub mod Resumed
use boost_taar.Common.{
  ℕ, suc, ◌+◌, ◌%◌, ◌^◌, Bool, true, false, ◌&&◌, Option, none, some, List, [], ◌∷◌, ◌++◌, Bytes,
  ltb, leb, if◌then◌else◌,
}
use boost_taar.Core.AsyncChannel.{
  Channel, Completion, resumed, immediate, fresh, push, trim, trim_values, async_receive, cancel,
}

pub record SseEvent : Type 0 where
  pub id : ℕ
  pub json : Bytes

-- `handed` holds the events that the mailbox has completed a receive with and that the stream has
-- not marked yet: a completion is posted, and the coroutine runs later.
pub record SessionSlot : Type 0 where
  pub history : List SseEvent
  pub next_event_id : ℕ
  pub history_limit : ℕ
  pub mailbox : Channel SseEvent
  pub last_taken : ℕ
  pub handed : List SseEvent

abbrev pub new_slot : ℕ → SessionSlot
new_slot limit = record {
  history = [];
  next_event_id = 1;
  history_limit = limit;
  mailbox = fresh;
  last_taken = 0;
  handed = [];
}

abbrev pub events_of : List (Completion SseEvent) → List SseEvent
events_of [] = []
events_of (resumed w (some e) ∷ cs) = e ∷ events_of cs
events_of (immediate (some e) ∷ cs) = e ∷ events_of cs
events_of (resumed w none ∷ cs) = events_of cs
events_of (immediate none ∷ cs) = events_of cs

-- `while (history.size() > history_limit) history.pop_front();` keeps what trim_values keeps.
unfoldable pub push_event : Bytes → SessionSlot → SessionSlot × Bool
push_event json s =
    let event : SseEvent = record { id = s.next_event_id; json = json } in
    let (queued, out, result) = push event s.mailbox in
    let (trimmed, dropped) = trim s.history_limit queued in
    (
      record s {
        history = trim_values s.history_limit (s.history ++ event ∷ []);
        next_event_id = suc s.next_event_id;
        mailbox = trimmed;
        handed = s.handed ++ events_of out;
      },
      result,
    )

-- A stream starts a receive, or its keepalive timer cancels the one that waits.
unfoldable pub receive : SessionSlot → SessionSlot
receive s =
    let (mailbox', out) = async_receive s.mailbox in
    record s { mailbox = mailbox'; handed = s.handed ++ events_of out }

unfoldable pub cancel_receive : ℕ → SessionSlot → SessionSlot
cancel_receive waiter s =
    let (mailbox', out) = cancel waiter s.mailbox in
    record s { mailbox = mailbox'; handed = s.handed ++ events_of out }

-- `last_taken->store(got.event->id);` when the coroutine resumes.
unfoldable pub mark : SessionSlot → SessionSlot
mark s = elim s.handed [ [] ↦ s | e ∷ rest ↦ record s { last_taken = e.id; handed = rest } ]

abbrev pub missed : ℕ → ℕ → List SseEvent → List SseEvent
missed last taken [] = []
missed last taken (e ∷ es) =
    if ltb last e.id && leb e.id taken then e ∷ missed last taken es else missed last taken es

unfoldable pub replay_after : ℕ → SessionSlot → List SseEvent
replay_after last s = missed last s.last_taken s.history

pub data SlotStep : Type 0 where
  pushes : Bytes → SlotStep
  receives marks : SlotStep
  cancels : ℕ → SlotStep

unfoldable pub slot_step : SlotStep → SessionSlot → SessionSlot
slot_step (pushes json) s = (push_event json s).0
slot_step receives s = receive s
slot_step (cancels waiter) s = cancel_receive waiter s
slot_step marks s = mark s

unfoldable pub slot_run : List SlotStep → SessionSlot → SessionSlot
slot_run [] s = s
slot_run (c ∷ cs) s = slot_run cs (slot_step c s)
