-- ===== src/Tests/Mcp.antt =====
-- Concrete runs of the sessions of mcp.
use boost_taar.Common.{ℕ, ◌≡◌, refl, true, ap, some, Bytes, List, [], ◌∷◌, ◌++◌, codes, arith}
use boost_taar.Core.AsyncChannel.{push, trim, trim_values, async_receive}
use boost_taar.Core.AsyncChannel.{close}
use boost_taar.JsonRpc.Json.{Value, null, number, object, field, end, pos}
use boost_taar.Mcp.Pending.{
  PendingStep, begins, ends, awaits, finishes, expires, delivers, no_client_requests, pending_run,
  pending_step, begin_client_request, end_client_request, deliver_response, response_id,
  await_reply, end_slot, request_id,
}
use boost_taar.Mcp.Pending.Replies.{replies}
use boost_taar.Mcp.Pending.Once.{Once}
use boost_taar.Mcp.Pending.Once
use boost_taar.Mcp.Pending.Reached.{number_after, waiting}
use boost_taar.Mcp.Pending.Reached
use boost_taar.Mcp.EventStream.{
  new_slot, push_event, receive, mark, replay_after, SlotStep, pushes, receives, marks, slot_run,
  slot_step,
}
use boost_taar.Mcp.EventStream.Resumed.{numbered, pushed, newer}
use boost_taar.Mcp.EventStream.Resumed

-- A stream takes two of four messages, of which three are kept.
abbrev steps : List SlotStep
steps =
    receives
    ∷ pushes (codes "a")
    ∷ pushes (codes "b")
    ∷ marks
    ∷ receives
    ∷ marks
    ∷ pushes (codes "c")
    ∷ pushes (codes "d")
    ∷ []

replay_b : replay_after 1 (slot_run steps (new_slot 3)) ≡ record { id = 2; json = codes "b" } ∷ []
unfolding slot_run slot_step push_event receive mark replay_after push trim trim_values
    async_receive
replay_b = refl

replay_after-slot_run_example :
    replay_after 1 (slot_run steps (new_slot 3)) ++ (slot_run steps (new_slot 3)).mailbox.values
    ≡ newer 1 (trim_values 3 (numbered 1 (pushed steps)))
unfolding slot_run slot_step push_event receive mark push trim trim_values async_receive
replay_after-slot_run_example = Resumed.replay_after-slot_run 3 steps 1 refl (omega arith)

-- Two requests; the client answers the second, then twice the first.
abbrev replied : ℕ → Value
replied k = object (field (codes "id") (request_id k) (field (codes "result") null end))

abbrev exchange : List PendingStep
exchange =
    begins
    ∷ awaits 1
    ∷ begins
    ∷ delivers (replied 2)
    ∷ awaits 2
    ∷ delivers (replied 1)
    ∷ delivers (replied 1)
    ∷ finishes 1
    ∷ ends
    ∷ []

-- The texts of the ids used here.
abbrev written_id : Value → Bytes
written_id (number (pos k)) = k ∷ []
written_id v = []

received_run :
    ((pending_run written_id exchange no_client_requests).received 1 ≡ some (replied 1) ∷ [])
    × ((pending_run written_id exchange no_client_requests).received 2 ≡ some (replied 2) ∷ [])
unfolding pending_run pending_step begin_client_request end_client_request deliver_response
    response_id await_reply end_slot push async_receive close
received_run = (refl, refl)

pending_run-Once_example :
    Once written_id 1 (replies (pending_run written_id exchange no_client_requests) 1)
pending_run-Once_example = Once.pending_run-Once written_id exchange 1

abbrev first_of : Bytes → ℕ
first_of [] = 0
first_of (b ∷ bs) = b

second : number_after written_id (begins ∷ []) ≡ 2
unfolding pending_run pending_step begin_client_request
second = refl

replied-id : response_id (replied 2) ≡ some (request_id 2)
unfolding response_id
replied-id = refl

deliver_response-reaches_example :
    ((deliver_response written_id
        (replied 2)
        (waiting written_id (begins ∷ []) (awaits 1 ∷ expires 1 ∷ []))).1
      ≡ true)
    × ((deliver_response written_id
            (replied 2)
            (waiting written_id (begins ∷ []) (awaits 1 ∷ expires 1 ∷ []))).0.received
          (number_after written_id (begins ∷ []))
        ≡ (waiting written_id (begins ∷ []) (awaits 1 ∷ expires 1 ∷ [])).received
            (number_after written_id (begins ∷ []))
          ++ some (replied 2) ∷ [])
deliver_response-reaches_example =
    Reached.deliver_response-reaches written_id (λ j k e. ap first_of e) (begins ∷ [])
      (awaits 1 ∷ expires 1 ∷ []) (replied 2) (request_id 2) replied-id (rw second refl)
      (rw second (refl, (refl, tt)))
