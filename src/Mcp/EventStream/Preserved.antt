-- ===== src/Mcp/EventStream/Preserved.antt =====
-- mcp/endpoint.hpp: every step of a slot keeps its events where they belong.
use boost_taar.Common.{
  ℕ, suc, ◌-◌, ◌≤◌, ◌<◌, ◌≡◌, refl, ap, sym, ◌∙◌, ◌⊎◌, inl, inr, true, false, some, List, [], ◌∷◌,
  ◌++◌, append-nil, append_assoc, drop-nil, Bytes, All, All-append, drop, length, arith,
}
use mathlib.Core.Path.{subst}
use boost_taar.Core.AsyncChannel.{
  Channel, resumed, immediate, push, trim, trim_values, async_receive, cancel,
}
use boost_taar.Core.AsyncChannel.Invariant.{
  Inv, push-Inv, trim-Inv, receive-Inv, cancel-Inv, fresh-Inv,
}
use boost_taar.Mcp.EventStream.{
  SseEvent, SessionSlot, new_slot, events_of, push_event, receive, cancel_receive, mark, SlotStep,
  pushes, receives, marks, cancels, slot_step, slot_run,
}
use boost_taar.Mcp.EventStream.Kept.{
  Runs, Kept, seen, last_id, Runs-append, Runs-drop, Runs-le, All-drop, last_id-append, All-weaken,
  trimmed-parts,
}

-- The mailbox, by cases.
push-queued :
    (v : SseEvent) (c : Channel SseEvent)
    → c.closed ≡ false
    → c.waiters ≡ []
    → push v c ≡ (record c { values = c.values ++ v ∷ [] }, [], true)
unfolding push
push-queued v c live e = ground (arith, live, e)

push-handed :
    (v : SseEvent) (c : Channel SseEvent) (w : ℕ) (ws : List ℕ)
    → c.closed ≡ false
    → c.waiters ≡ w ∷ ws
    → push v c ≡ (record c { waiters = ws }, resumed w (some v) ∷ [], true)
unfolding push
push-handed v c w ws live e = ground (arith, live, e)

receive-taken :
    (c : Channel SseEvent) (v : SseEvent) (vs : List SseEvent)
    → c.values ≡ v ∷ vs
    → async_receive c ≡ (record c { values = vs }, immediate (some v) ∷ [])
unfolding async_receive
receive-taken c v vs e = ground (arith, e)

receive-waits :
    (c : Channel SseEvent)
    → c.closed ≡ false
    → c.values ≡ []
    → async_receive c
      ≡ (record c { waiters = c.waiters ++ c.next_id ∷ []; next_id = suc c.next_id }, [])
unfolding async_receive
receive-waits c live e = ground (arith, live, e)

cancel-silent :
    (w : ℕ) (c : Channel SseEvent)
    → ((cancel w c).0.values ≡ c.values)
      × ((cancel w c).0.closed ≡ c.closed)
      × (events_of (cancel w c).1 ≡ [])
unfolding cancel
cancel-silent w c = ground arith

module _ (s : SessionSlot) (h : Kept s) where
  -- Nothing is handed out: `seen` stays.
  same_seen : s.handed ≡ s.handed ++ []
  same_seen = sym (append-nil s.handed)

  queued-Kept : (json : Bytes) → s.mailbox.waiters ≡ [] → Kept (push_event json s).0
  unfolding push_event trim trim_values
  queued-Kept json e =
      let event : SseEvent = record { id = s.next_event_id; json = json } in
      let more = s.mailbox.values ++ event ∷ [] in
      let all = push-queued event s.mailbox h.live e in
      let (k, parts) = trimmed-parts s.history_limit h.older more in
      let (first, le, rest) =
        Runs-drop (length more - s.history_limit) h.first (suc s.next_event_id) more
          (Runs-append h.first s.next_event_id s.mailbox.values json h.queued) in
      let kept =
        trim-Inv s.history_limit (push event s.mailbox).0 (push-Inv event s.mailbox h.channel) in
      rw all (record {
        older = drop k h.older;
        first = first;
        parts =
            ap (λ es. trim_values s.history_limit (es ++ event ∷ [])) h.parts
            ∙ ap (trim_values s.history_limit) (append_assoc h.older s.mailbox.values (event ∷ []))
            ∙ parts;
        taken =
            subst (λ es. All (λ e. e.id ≤ last_id s.last_taken es) (drop k h.older)) same_seen
              (All-drop (λ e. e.id ≤ seen s) k h.older h.taken);
        queued = rest;
        unseen = subst (λ es. last_id s.last_taken es < first) same_seen (omega (arith, h.unseen));
        channel = subst (λ r. Inv (trim s.history_limit r.0).0) all kept;
        live = h.live;
      })

  handed-Kept :
      (json : Bytes) (w : ℕ) (ws : List ℕ)
      → s.mailbox.waiters ≡ w ∷ ws
      → s.mailbox.values ≡ []
      → Kept (push_event json s).0
  unfolding push_event trim trim_values
  handed-Kept json w ws e empty =
      let event : SseEvent = record { id = s.next_event_id; json = json } in
      let all = push-handed event s.mailbox w ws h.live e in
      let now = h.older ++ event ∷ [] in
      let hist : s.history ≡ h.older =
        h.parts ∙ ap (λ vs. h.older ++ vs) empty ∙ append-nil h.older in
      let upto = Runs-le h.first s.next_event_id s.mailbox.values h.queued in
      let last = last_id-append s.last_taken s.handed event in
      let kept =
        trim-Inv s.history_limit (push event s.mailbox).0 (push-Inv event s.mailbox h.channel) in
      let none_left : drop (length s.mailbox.values - s.history_limit) s.mailbox.values ≡ [] =
        ap (λ vs. drop (length vs - s.history_limit) vs) empty ∙ drop-nil (0 - s.history_limit) in
      rw all (record {
        older = trim_values s.history_limit now;
        first = suc s.next_event_id;
        parts =
            ap (λ es. trim_values s.history_limit (es ++ event ∷ [])) hist
            ∙ sym (append-nil (trim_values s.history_limit now))
            ∙ ap (λ vs. trim_values s.history_limit now ++ vs) (sym none_left);
        taken =
            subst (λ n. All (λ e. e.id ≤ n) (trim_values s.history_limit now)) (sym last)
              (All-drop (λ e. e.id ≤ s.next_event_id) (length now - s.history_limit) now
                (All-append (λ e. e.id ≤ s.next_event_id) h.older (event ∷ [])
                  (All-weaken (seen s) s.next_event_id h.older (omega (arith, h.unseen, upto))
                    h.taken)
                  (omega arith, tt)));
        queued =
            subst (λ vs. Runs (suc s.next_event_id) vs (suc s.next_event_id)) (sym none_left) refl;
        unseen = rw last (omega arith);
        channel = subst (λ r. Inv (trim s.history_limit r.0).0) all kept;
        live = h.live;
      })

  taken-Kept : (v : SseEvent) (vs : List SseEvent) → s.mailbox.values ≡ v ∷ vs → Kept (receive s)
  unfolding receive
  taken-Kept v vs e =
      let all = receive-taken s.mailbox v vs e in
      let last = last_id-append s.last_taken s.handed v in
      let runs = subst (λ es. Runs h.first es s.next_event_id) e h.queued in
      rw all (record {
        older = h.older ++ v ∷ [];
        first = suc h.first;
        parts = h.parts ∙ ap (λ es. h.older ++ es) e ∙ sym (append_assoc h.older (v ∷ []) vs);
        taken =
            subst (λ n. All (λ e. e.id ≤ n) (h.older ++ v ∷ [])) (sym last)
              (All-append (λ e. e.id ≤ v.id) h.older (v ∷ [])
                (All-weaken (seen s) v.id h.older (omega (arith, h.unseen, runs.0)) h.taken)
                (omega arith, tt));
        queued = runs.1;
        unseen = rw last (omega (arith, runs.0));
        channel = subst (λ r. Inv r.0) all (receive-Inv s.mailbox h.channel);
        live = h.live;
      })

  waits-Kept : s.mailbox.values ≡ [] → Kept (receive s)
  unfolding receive
  waits-Kept e =
      let all = receive-waits s.mailbox h.live e in
      rw all (record {
        older = h.older;
        first = h.first;
        parts = h.parts;
        taken = subst (λ es. All (λ e. e.id ≤ last_id s.last_taken es) h.older) same_seen h.taken;
        queued = h.queued;
        unseen = subst (λ es. last_id s.last_taken es < h.first) same_seen h.unseen;
        channel = subst (λ r. Inv r.0) all (receive-Inv s.mailbox h.channel);
        live = h.live;
      })

  cancel_receive-Kept : (w : ℕ) → Kept (cancel_receive w s)
  unfolding cancel_receive
  cancel_receive-Kept w =
      let (values, closed, silent) = cancel-silent w s.mailbox in
      let still : s.handed ≡ s.handed ++ events_of (cancel w s.mailbox).1 =
        same_seen ∙ ap (λ es. s.handed ++ es) (sym silent) in
      record {
        older = h.older;
        first = h.first;
        parts = h.parts ∙ ap (λ es. h.older ++ es) (sym values);
        taken = subst (λ es. All (λ e. e.id ≤ last_id s.last_taken es) h.older) still h.taken;
        queued = subst (λ es. Runs h.first es s.next_event_id) (sym values) h.queued;
        unseen = subst (λ es. last_id s.last_taken es < h.first) still h.unseen;
        channel = cancel-Inv w s.mailbox h.channel;
        live = closed ∙ h.live;
      }

  mark-Kept : Kept (mark s)
  unfolding mark
  mark-Kept = go s.handed refl
    where
      go : (es : List SseEvent) → s.handed ≡ es → Kept (mark s)
      go [] e = rw (e, mark) h
      go (v ∷ es) e =
          rw (e, mark)
            (record {
              older = h.older;
              first = h.first;
              parts = h.parts;
              taken = subst (λ hs. All (λ e. e.id ≤ last_id s.last_taken hs) h.older) e h.taken;
              queued = h.queued;
              unseen = subst (λ hs. last_id s.last_taken hs < h.first) e h.unseen;
              channel = h.channel;
              live = h.live;
            })

push_event-Kept : (json : Bytes) (s : SessionSlot) → Kept s → Kept (push_event json s).0
push_event-Kept json s h = go s.mailbox.waiters refl h.channel.idle
  where
    go :
        (ws : List ℕ)
        → s.mailbox.waiters ≡ ws
        → (s.mailbox.values ≡ []) ⊎ (s.mailbox.waiters ≡ [])
        → Kept (push_event json s).0
    go [] e i = queued-Kept s h json e
    go (w ∷ ws) e (inl empty) = handed-Kept s h json w ws e empty
    go (w ∷ ws) e (inr idle) = cc

receive-Kept : (s : SessionSlot) → Kept s → Kept (receive s)
receive-Kept s h = go s.mailbox.values refl
  where
    go : (vs : List SseEvent) → s.mailbox.values ≡ vs → Kept (receive s)
    go [] e = waits-Kept s h e
    go (v ∷ vs) e = taken-Kept s h v vs e

pub slot_step-Kept : (c : SlotStep) (s : SessionSlot) → Kept s → Kept (slot_step c s)
unfolding slot_step
slot_step-Kept (pushes json) s h = push_event-Kept json s h
slot_step-Kept receives s h = receive-Kept s h
slot_step-Kept (cancels w) s h = cancel_receive-Kept s h w
slot_step-Kept marks s h = mark-Kept s h

pub slot_run-Kept : (cs : List SlotStep) (s : SessionSlot) → Kept s → Kept (slot_run cs s)
unfolding slot_run
slot_run-Kept [] s h = h
slot_run-Kept (c ∷ cs) s h = slot_run-Kept cs (slot_step c s) (slot_step-Kept c s h)

pub new_slot-Kept : (limit : ℕ) → Kept (new_slot limit)
new_slot-Kept limit = record {
  older = [];
  first = 1;
  parts = refl;
  taken = tt;
  queued = refl;
  unseen = omega arith;
  channel = fresh-Inv;
  live = refl;
}
