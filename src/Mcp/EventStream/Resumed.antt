-- ===== src/Mcp/EventStream/Resumed.antt =====
-- mcp/endpoint.hpp: what a client receives that resumes its stream.
use boost_taar.Common.{
  ℕ, suc, ◌+◌, ◌-◌, ◌≤◌, ◌<◌, ◌≡◌, refl, ap, sym, ◌∙◌, List, [], ◌∷◌, ◌++◌, append-nil,
  append_assoc, drop-nil, drop-append, drop-drop, Bytes, All, drop, length, length-append,
  length-drop, arith, if◌then◌else◌, ltb,
}
use mathlib.Core.Path.{subst, ap₂}
use boost_taar.Core.AsyncChannel.{trim_values}
use boost_taar.Mcp.EventStream.{
  SseEvent, SessionSlot, new_slot, push_event, receive, cancel_receive, mark, missed, replay_after,
  SlotStep, pushes, receives, marks, cancels, slot_step, slot_run,
}
use boost_taar.Mcp.EventStream.Kept.{Runs, Kept, seen, last_id}
use boost_taar.Mcp.EventStream.Preserved.{slot_run-Kept, new_slot-Kept}

-- The events of the messages that are pushed: ids count from 1.
abbrev pub numbered : ℕ → List Bytes → List SseEvent
numbered n [] = []
numbered n (json ∷ js) = record { id = n; json = json } ∷ numbered (suc n) js

abbrev pub pushed : List SlotStep → List Bytes
pushed [] = []
pushed (pushes json ∷ cs) = json ∷ pushed cs
pushed (receives ∷ cs) = pushed cs
pushed (marks ∷ cs) = pushed cs
pushed (cancels w ∷ cs) = pushed cs

abbrev pub newer : ℕ → List SseEvent → List SseEvent
newer last [] = []
newer last (e ∷ es) = if ltb last e.id then e ∷ newer last es else newer last es

-- The history is the newest of all events.
record Newest (js : List Bytes) (limit : ℕ) (s : SessionSlot) : Type 0 where
  history : s.history ≡ trim_values limit (numbered 1 js)
  next : s.next_event_id ≡ suc (length js)
  limited : s.history_limit ≡ limit

numbered-append :
    (n : ℕ) (js : List Bytes) (json : Bytes)
    → numbered n (js ++ json ∷ [])
      ≡ numbered n js ++ record { id = n + length js; json = json } ∷ []
numbered-append n [] json =
    let same : n ≡ n + 0 = omega arith in ap (λ m. record { id = m; json = json } ∷ []) same
numbered-append n (j ∷ js) json =
    let same : suc n + length js ≡ n + suc (length js) = omega arith in
    ap (λ es. record { id = n; json = j } ∷ es)
      (numbered-append (suc n) js json
        ∙ ap (λ m. numbered (suc n) js ++ record { id = m; json = json } ∷ []) same)

trim_values-trim_values :
    (limit : ℕ) (es : List SseEvent) (e : SseEvent)
    → trim_values limit (trim_values limit es ++ e ∷ []) ≡ trim_values limit (es ++ e ∷ [])
unfolding trim_values
trim_values-trim_values limit es e =
    let n = length es in
    let b = n - limit in
    let a = length (drop b es ++ e ∷ []) - limit in
    let sum : length (drop b es ++ e ∷ []) ≡ suc (n - b) =
      omega (arith, length-append (drop b es) (e ∷ []), length-drop b es) in
    let whole : length (es ++ e ∷ []) ≡ suc n = omega (arith, length-append es (e ∷ [])) in
    let front : b + a ≡ length (es ++ e ∷ []) - limit = omega arith in
    let back : a - length (drop b es) ≡ length (es ++ e ∷ []) - limit - n =
      omega (arith, length-drop b es) in
    drop-append a (drop b es) (e ∷ [])
    ∙ ap₂ (λ xs k. xs ++ drop k (e ∷ [])) (drop-drop a b es ∙ ap (λ k. drop k es) front) back
    ∙ sym (drop-append (length (es ++ e ∷ []) - limit) es (e ∷ []))

push_event-Newest :
    (js : List Bytes) (limit : ℕ) (json : Bytes) (s : SessionSlot)
    → Newest js limit s
    → Newest (js ++ json ∷ []) limit (push_event json s).0
unfolding push_event
push_event-Newest js limit json s h =
    let one : 1 + length js ≡ suc (length js) = omega arith in
    record {
      history = rw h.limited (
          ap₂ (λ es n. trim_values limit (es ++ record { id = n; json = json } ∷ [])) h.history
            h.next
          ∙ trim_values-trim_values limit (numbered 1 js)
              (record { id = suc (length js); json = json })
          ∙ ap (trim_values limit) (
              sym (
                numbered-append 1 js json
                ∙ ap (λ n. numbered 1 js ++ record { id = n; json = json } ∷ []) one)));
      next = omega (arith, h.next, length-append js (json ∷ []));
      limited = h.limited;
    }

mark-Newest :
    (js : List Bytes) (limit : ℕ) (s : SessionSlot) → Newest js limit s → Newest js limit (mark s)
unfolding mark
mark-Newest js limit s h = go s.handed refl
  where
    go : (es : List SseEvent) → s.handed ≡ es → Newest js limit (mark s)
    go [] e = rw (e, mark) h
    go (v ∷ es) e =
        rw (e, mark) (record { history = h.history; next = h.next; limited = h.limited })

trimmed-nil : (limit : ℕ) → [] ≡ trim_values {A = SseEvent} limit []
unfolding trim_values
trimmed-nil limit = sym (drop-nil (0 - limit))

slot_run-Newest :
    (cs : List SlotStep) (js : List Bytes) (limit : ℕ) (s : SessionSlot)
    → Newest js limit s
    → Newest (js ++ pushed cs) limit (slot_run cs s)
unfolding slot_run slot_step receive cancel_receive
slot_run-Newest [] js limit s h = rw append-nil h
slot_run-Newest (pushes json ∷ cs) js limit s h =
    subst (λ l. Newest l limit (slot_run cs (push_event json s).0))
      (append_assoc js (json ∷ []) (pushed cs))
      (slot_run-Newest cs (js ++ json ∷ []) limit (push_event json s).0
        (push_event-Newest js limit json s h))
slot_run-Newest (receives ∷ cs) js limit s h =
    slot_run-Newest cs js limit (receive s)
      (record { history = h.history; next = h.next; limited = h.limited })
slot_run-Newest (cancels w ∷ cs) js limit s h =
    slot_run-Newest cs js limit (cancel_receive w s)
      (record { history = h.history; next = h.next; limited = h.limited })
slot_run-Newest (marks ∷ cs) js limit s h =
    slot_run-Newest cs js limit (mark s) (mark-Newest js limit s h)

-- The older events are sent again if they are new to the client, and those of the mailbox are new.
missed-older :
    (last taken : ℕ) (older values : List SseEvent)
    → All (λ e. e.id ≤ taken) older
    → missed last taken (older ++ values) ≡ newer last older ++ missed last taken values
missed-older last taken [] values h = refl
missed-older last taken (e ∷ es) values h =
    ground (arith, missed-older last taken es values, h.0, h.1)

missed-queued :
    (last taken first next : ℕ) (values : List SseEvent)
    → Runs first values next
    → taken < first
    → missed last taken values ≡ []
missed-queued last taken first next [] h lt = refl
missed-queued last taken first next (e ∷ es) h lt =
    ground (arith, missed-queued last taken (suc first) next es h.1, h.0, lt)

newer-append :
    (last : ℕ) (xs ys : List SseEvent) → newer last (xs ++ ys) ≡ newer last xs ++ newer last ys
newer-append last [] ys = refl
newer-append last (e ∷ xs) ys = ground (arith, newer-append last xs ys)

newer-queued :
    (last first next : ℕ) (values : List SseEvent)
    → Runs first values next
    → last < first
    → newer last values ≡ values
newer-queued last first next [] h lt = refl
newer-queued last first next (e ∷ es) h lt =
    ground (arith, newer-queued last (suc first) next es h.1, h.0, lt)

replay-Kept :
    (last : ℕ) (s : SessionSlot)
    → Kept s
    → s.handed ≡ []
    → last ≤ s.last_taken
    → replay_after last s ++ s.mailbox.values ≡ newer last s.history
unfolding replay_after
replay-Kept last s h done le =
    let none_handed : seen s ≡ s.last_taken = ap (last_id s.last_taken) done in
    ap (λ es. missed last s.last_taken es ++ s.mailbox.values) h.parts
    ∙ ap (λ es. es ++ s.mailbox.values)
        (missed-older last s.last_taken h.older s.mailbox.values
            (subst (λ n. All (λ e. e.id ≤ n) h.older) none_handed h.taken)
          ∙ ap (λ es. newer last h.older ++ es)
              (missed-queued last s.last_taken h.first s.next_event_id s.mailbox.values h.queued
                (omega (arith, h.unseen, none_handed)))
          ∙ append-nil (newer last h.older))
    ∙ ap (λ es. newer last h.older ++ es)
        (sym (
          newer-queued last h.first s.next_event_id s.mailbox.values h.queued
            (omega (arith, h.unseen, none_handed))))
    ∙ sym (newer-append last h.older s.mailbox.values)
    ∙ ap (newer last) (sym h.parts)

-- Over any history of a session that is not ended, in which messages are pushed, streams receive,
-- mark what they took, and cancel receives: once every event that was handed to a stream is marked,
-- a client that resumes behind an event that some stream took is sent, by the replay followed by
-- what is queued, exactly the newest `history_limit` of all messages ever pushed with the ids behind
-- the one it names, each once and in order.
pub replay_after-slot_run :
    (limit : ℕ) (cs : List SlotStep) (last : ℕ)
    → (slot_run cs (new_slot limit)).handed ≡ []
    → last ≤ (slot_run cs (new_slot limit)).last_taken
    → replay_after last (slot_run cs (new_slot limit))
        ++ (slot_run cs (new_slot limit)).mailbox.values
      ≡ newer last (trim_values limit (numbered 1 (pushed cs)))
replay_after-slot_run limit cs last done le =
    replay-Kept last (slot_run cs (new_slot limit))
      (slot_run-Kept cs (new_slot limit) (new_slot-Kept limit)) done le
    ∙ ap (newer last)
        (slot_run-Newest cs [] limit (new_slot limit)
          (record { history = trimmed-nil limit; next = refl; limited = refl })).history
