-- ===== src/Mcp/Pending/Reached.antt =====
-- mcp/endpoint.hpp: the reply of the client reaches the request that waits for it.
use boost_taar.Common.{
  ℕ, ◌<◌, ◌≡◌, refl, sym, ap, ◌∙◌, inl, inr, true, false, Option, none, some, List, [], ◌∷◌, ◌++◌,
  Bytes, beq, beq_iff, ==_iff, ==_refl, ◌==◌, if◌then◌else◌, Bool-cases, All, arith,
}
use mathlib.Core.Path.{subst}
use boost_taar.JsonRpc.Json.{Value}
use boost_taar.Core.AsyncChannel.{Channel, Completion, resumed, push, async_receive, close}
use boost_taar.Mcp.Pending.{
  ClientRequests, no_client_requests, erase_pending, find_pending, completed, effect,
  without_result, request_id, response_id, await_reply, expire_request, begin_client_request,
  end_client_request, deliver_to, deliver_id, deliver_response, PendingStep, begins, ends, awaits,
  expires, finishes, delivers, pending_step, pending_run,
}
use boost_taar.Mcp.Pending.Once.{
  Inv, pending_step-Inv, pending_run-Inv, found-Waits, apart, no_client_requests-Inv,
}

module _ (serialize : Value → Bytes) where
  abbrev pub key_of : ℕ → Bytes
  key_of k = serialize (request_id k)

  -- The request is in the map, and its receive waits on an open channel.
  pub record Ready (k : ℕ) (waiter : ℕ) (s : ClientRequests) : Type 0 where
    pub begun : k < s.next_request_id
    pub found : find_pending (key_of k) s.pending ≡ some k
    pub channel : Channel Value
    pub there : s.channels k ≡ channel
    pub open_channel : channel.closed ≡ false
    pub awaited : channel.waiters ≡ waiter ∷ []

  -- A step that neither ends the session nor concerns the request.
  abbrev pub Other : ℕ → PendingStep → Type 0
  Other k begins = Unit
  Other k ends = ⊥
  Other k (awaits j) = (j == k) ≡ false
  Other k (expires j) = (j == k) ≡ false
  Other k (finishes j) = (j == k) ≡ false
  Other k (delivers v) =
      (id : Value) → response_id v ≡ some id → beq (serialize id) (key_of k) ≡ false

  find-erase :
      (key other : Bytes) (es : List (Bytes × ℕ))
      → beq other key ≡ false
      → find_pending key (erase_pending other es) ≡ find_pending key es
  find-erase key other [] ne = refl
  find-erase key other ((l, a) ∷ es) ne = elim (Bool-cases (beq l other)) [
    | inl t ↦
        let other_key : beq l key ≡ false =
          subst (λ x. beq x key ≡ false) (sym ((beq_iff l other).0 t)) ne in
        rw (t, other_key) (find-erase key other es ne)
    | inr t ↦ rw t (ap (λ o. if beq l key then some a else o) (find-erase key other es ne))
  ]

  effect-Ready :
      (k waiter j : ℕ) (r : Channel Value × List (Completion Value)) (s : ClientRequests)
      → (j == k) ≡ false
      → Ready k waiter s
      → Ready k waiter (effect j r s)
  effect-Ready k waiter j (c, out) s ne h = record {
    begun = h.begun;
    found = h.found;
    channel = h.channel;
    there = let apart_k : (k == j) ≡ false = ground (arith, ne) in rw apart_k h.there;
    open_channel = h.open_channel;
    awaited = h.awaited;
  }

  erase-Ready :
      (k waiter : ℕ) (key : Bytes) (s : ClientRequests)
      → beq key (key_of k) ≡ false
      → Ready k waiter s
      → Ready k waiter (record s { pending = erase_pending key s.pending })
  erase-Ready k waiter key s ne h = record {
    begun = h.begun;
    found = find-erase (key_of k) key s.pending ne ∙ h.found;
    channel = h.channel;
    there = h.there;
    open_channel = h.open_channel;
    awaited = h.awaited;
  }

  -- The number of a request that begins after a history, and the state when it waits.
  abbrev pub number_after : List PendingStep → ℕ
  number_after before = (pending_run serialize before no_client_requests).next_request_id

  abbrev pub waiting : List PendingStep → List PendingStep → ClientRequests
  waiting before between =
      pending_run serialize (before ++ begins ∷ awaits (number_after before) ∷ between)
        no_client_requests

  module _ (injective : (j k : ℕ) → key_of j ≡ key_of k → j ≡ k) where
    other_key : (j k : ℕ) → (j == k) ≡ false → beq (key_of j) (key_of k) ≡ false
    other_key j k ne = elim (Bool-cases (beq (key_of j) (key_of k))) [
      | inl t ↦
          let same = (==_iff j k).1 (injective j k ((beq_iff (key_of j) (key_of k)).0 t)) in
          cc (same, ne)
      | inr t ↦ t
    ]

    begin-Ready :
        (k waiter : ℕ) (s : ClientRequests)
        → Ready k waiter s
        → Ready k waiter (begin_client_request serialize s).0
    unfolding begin_client_request
    begin-Ready k waiter s h =
        let j = s.next_request_id in
        let ne : (j == k) ≡ false = ground (arith, h.begun) in
        let apart_k : (k == j) ≡ false = ground (arith, h.begun) in
        record {
          begun = omega (arith, h.begun);
          found =
              rw (other_key j k ne)
                (find-erase (key_of k) (key_of j) s.pending (other_key j k ne) ∙ h.found);
          channel = h.channel;
          there = rw apart_k h.there;
          open_channel = h.open_channel;
          awaited = h.awaited;
        }

    delivered-Ready :
        (k waiter : ℕ) (v id : Value) (found : Option ℕ) (s : ClientRequests)
        → find_pending (serialize id) s.pending ≡ found
        → beq (serialize id) (key_of k) ≡ false
        → Inv serialize s
        → Ready k waiter s
        → Ready k waiter (deliver_to serialize v (serialize id) found s).0
    delivered-Ready k waiter v id none s f ne i h = h
    delivered-Ready k waiter v id (some j) s f ne i h =
        let w = found-Waits serialize s (serialize id) s.pending j i.open_requests f in
        let apart_j : (j == k) ≡ false =
          apart serialize (serialize id) (key_of k) j k w.0 refl ne in
        effect-Ready k waiter j (without_result (push v (s.channels j)))
          (record s { pending = erase_pending (serialize id) s.pending }) apart_j
          (erase-Ready k waiter (serialize id) s ne h)

    response-Ready :
        (k waiter : ℕ) (v : Value) (id : Option Value) (s : ClientRequests)
        → response_id v ≡ id
        → Other k (delivers v)
        → Inv serialize s
        → Ready k waiter s
        → Ready k waiter (deliver_id serialize v id s).0
    response-Ready k waiter v none s e other i h = h
    response-Ready k waiter v (some id) s e other i h =
        delivered-Ready k waiter v id _ s refl (other id e) i h

    step-Ready :
        (k waiter : ℕ) (c : PendingStep) (s : ClientRequests)
        → Other k c
        → Inv serialize s
        → Ready k waiter s
        → Ready k waiter (pending_step serialize c s)
    unfolding pending_step deliver_response await_reply expire_request end_client_request
    step-Ready k waiter begins s other i h = begin-Ready k waiter s h
    step-Ready k waiter ends s other i h = elim other [ ]
    step-Ready k waiter (awaits j) s other i h =
        effect-Ready k waiter j (async_receive (s.channels j)) s other h
    step-Ready k waiter (expires j) s other i h =
        effect-Ready k waiter j (close (s.channels j)) s other h
    step-Ready k waiter (finishes j) s other i h =
        erase-Ready k waiter (key_of j) s (other_key j k other) h
    step-Ready k waiter (delivers v) s other i h =
        response-Ready k waiter v (response_id v) s refl other i h

    run-Ready :
        (k waiter : ℕ) (cs : List PendingStep) (s : ClientRequests)
        → All (Other k) cs
        → Inv serialize s
        → Ready k waiter s
        → Ready k waiter (pending_run serialize cs s)
    unfolding pending_run
    run-Ready k waiter [] s other i h = h
    run-Ready k waiter (c ∷ cs) s other i h =
        run-Ready k waiter cs (pending_step serialize c s) other.1
          (pending_step-Inv serialize c s i) (step-Ready k waiter c s other.0 i h)

    -- A request that has just begun and waits.
    started-Ready :
        (s : ClientRequests)
        → Ready s.next_request_id 0
            (pending_step serialize (awaits s.next_request_id) (pending_step serialize begins s))
    unfolding pending_step begin_client_request await_reply async_receive
    started-Ready s = record {
      begun = omega arith;
      found = rw ((beq_iff (key_of s.next_request_id) (key_of s.next_request_id)).1 refl) refl;
      channel = record { values = []; waiters = 0 ∷ []; next_id = 1; closed = false };
      there = rw (==_refl s.next_request_id) refl;
      open_channel = refl;
      awaited = refl;
    }

    ready-push :
        (waiter : ℕ) (v : Value) (c : Channel Value)
        → c.closed ≡ false
        → c.waiters ≡ waiter ∷ []
        → ((push v c).2 ≡ true) × ((push v c).1 ≡ resumed waiter (some v) ∷ [])
    unfolding push
    ready-push waiter v c o w = rw (o, w) (refl, refl)

    received-deliver_response :
        (k waiter : ℕ) (v id : Value) (s : ClientRequests)
        → response_id v ≡ some id
        → serialize id ≡ key_of k
        → Ready k waiter s
        → ((deliver_response serialize v s).1 ≡ true)
          × ((deliver_response serialize v s).0.received k ≡ s.received k ++ some v ∷ [])
    unfolding deliver_response
    received-deliver_response k waiter v id s e same h =
        let closed : (s.channels k).closed ≡ false = ap (λ c. c.closed) h.there ∙ h.open_channel in
        let waits : (s.channels k).waiters ≡ waiter ∷ [] =
          ap (λ c. c.waiters) h.there ∙ h.awaited in
        let pushed = ready-push waiter v (s.channels k) closed waits in
        rw (e, same, h.found)
          (pushed.0, rw (==_refl k) (ap (λ o. s.received k ++ completed o) pushed.1))

    run-append :
        (cs ds : List PendingStep) (s : ClientRequests)
        → pending_run serialize (cs ++ ds) s ≡ pending_run serialize ds (pending_run serialize cs s)
    unfolding pending_run
    run-append [] ds s = refl
    run-append (c ∷ cs) ds s = run-append cs ds (pending_step serialize c s)

    waiting-Ready :
        (between : List PendingStep) (s : ClientRequests)
        → All (Other s.next_request_id) between
        → Inv serialize s
        → Ready s.next_request_id 0
            (pending_run serialize (begins ∷ awaits s.next_request_id ∷ between) s)
    unfolding pending_run
    waiting-Ready between s others i =
        let k = s.next_request_id in
        let s' = pending_step serialize begins s in
        run-Ready k 0 between (pending_step serialize (awaits k) s') others
          (pending_step-Inv serialize (awaits k) s' (pending_step-Inv serialize begins s i))
          (started-Ready s)

    -- If distinct numbers are written differently: in a session with any history, a request to the
    -- client that begins and waits gets the response with its id, and the delivery reports it,
    -- whatever happens in between that neither ends the session nor concerns this request: other
    -- requests begin, wait, expire, finish and are answered.
    pub deliver_response-reaches :
        (before between : List PendingStep) (v id : Value)
        → response_id v ≡ some id
        → serialize id ≡ key_of (number_after before)
        → All (Other (number_after before)) between
        → ((deliver_response serialize v (waiting before between)).1 ≡ true)
          × ((deliver_response serialize v (waiting before between)).0.received
                (number_after before)
              ≡ (waiting before between).received (number_after before) ++ some v ∷ [])
    deliver_response-reaches before between v id e same others =
        let s = pending_run serialize before no_client_requests in
        let k = number_after before in
        received-deliver_response k 0 v id (waiting before between) e same (
          subst (Ready k 0)
            (sym (run-append before (begins ∷ awaits k ∷ between) no_client_requests))
            (waiting-Ready between s others (
              pending_run-Inv serialize before no_client_requests
                (no_client_requests-Inv serialize))))
