-- ===== src/Mcp/Pending/Once.antt =====
-- mcp/endpoint.hpp: a request to the client is answered once at most, by a response with its id.
use boost_taar.Common.{
  ℕ, suc, ◌≤◌, ◌<◌, ◌≡◌, refl, sym, ap, ◌∙◌, inl, inr, true, false, Option, none, some, List, [],
  ◌∷◌, Bytes, beq, beq_iff, ==_iff, ◌==◌, if◌then◌else◌, Bool-cases, All, arith,
}
use mathlib.Core.Path.{subst}
use boost_taar.JsonRpc.Json.{Value}
use boost_taar.Core.AsyncChannel.{Channel, Completion, push, async_receive, close}
use boost_taar.Mcp.Pending.{
  ClientRequests, no_client_requests, erase_pending, find_pending, effect, without_result,
  close_all, request_id, response_id, await_reply, expire_request, end_slot, begin_client_request,
  end_client_request, deliver_to, deliver_id, deliver_response, PendingStep, begins, ends, awaits,
  expires, finishes, delivers, pending_step, pending_run,
}
use boost_taar.Mcp.Pending.Replies.{
  replies, left, left-close, left-receive, replies-effect, replies-effect_other, replies-fresh,
  replies-push, replies-close_all, next-close_all,
}

module _ (serialize : Value → Bytes) where
  -- At most one reply, whose id is written as that of the request.
  abbrev pub Once : ℕ → List Value → Type 0
  Once k [] = Unit
  Once k (v ∷ []) =
      (id : Value) × (response_id v ≡ some id) × (serialize id ≡ serialize (request_id k))
  Once k (v ∷ w ∷ vs) = ⊥

  abbrev pub Waits : ClientRequests → Bytes × ℕ → Type 0
  Waits s e = (e.0 ≡ serialize (request_id e.1)) × (e.1 < s.next_request_id) × (replies s e.1 ≡ [])

  pub record Inv (s : ClientRequests) : Type 0 where
    pub unused : (k : ℕ) → s.next_request_id ≤ k → replies s k ≡ []
    pub once : (k : ℕ) → Once k (replies s k)
    pub open_requests : All (Waits s) s.pending

  -- A step that leaves the replies alone, and at most drops pending requests.
  Waits-same :
      (s s' : ClientRequests) (es : List (Bytes × ℕ))
      → s.next_request_id ≤ s'.next_request_id
      → ((k : ℕ) → replies s' k ≡ replies s k)
      → All (Waits s) es
      → All (Waits s') es
  Waits-same s s' [] n r h = tt
  Waits-same s s' (e ∷ es) n r h =
      ((h.0.0, omega (arith, h.0.1, n), r e.1 ∙ h.0.2), Waits-same s s' es n r h.1)

  erase-Waits :
      (s : ClientRequests) (key : Bytes) (es : List (Bytes × ℕ))
      → All (Waits s) es
      → All (λ e. Waits s e × (beq e.0 key ≡ false)) (erase_pending key es)
  erase-Waits s key [] h = tt
  erase-Waits s key ((k, a) ∷ es) h = elim (Bool-cases (beq k key)) [
    | inl e ↦ rw e (erase-Waits s key es h.1)
    | inr e ↦ rw e ((h.0, e), erase-Waits s key es h.1)
  ]

  first_part :
      (s : ClientRequests) (key : Bytes) (es : List (Bytes × ℕ))
      → All (λ e. Waits s e × (beq e.0 key ≡ false)) es
      → All (Waits s) es
  first_part s key [] h = tt
  first_part s key (e ∷ es) h = (h.0.0, first_part s key es h.1)

  same-Inv :
      (s s' : ClientRequests)
      → s.next_request_id ≤ s'.next_request_id
      → ((k : ℕ) → replies s' k ≡ replies s k)
      → All (Waits s') s'.pending
      → Inv s
      → Inv s'
  same-Inv s s' n r w h = record {
    unused = λ k le. r k ∙ h.unused k (omega (arith, le, n));
    once = λ k. subst (Once k) (sym (r k)) (h.once k);
    open_requests = w;
  }

  erased : (s : ClientRequests) (key : Bytes) → Inv s → All (Waits s) (erase_pending key s.pending)
  erased s key h =
      first_part s key (erase_pending key s.pending) (erase-Waits s key s.pending h.open_requests)

  begins-Inv : (s : ClientRequests) → Inv s → Inv (begin_client_request serialize s).0
  unfolding begin_client_request
  begins-Inv s h =
      let s' = (begin_client_request serialize s).0 in
      let none_yet = h.unused s.next_request_id (omega arith) in
      let same : (k : ℕ) → replies s' k ≡ replies s k =
        λ k. replies-fresh s (suc s.next_request_id) s.next_request_id k s'.pending none_yet in
      same-Inv s s' (omega arith) same
        (
          (refl, omega arith, same s.next_request_id ∙ none_yet),
          Waits-same s s' _ (omega arith) same (erased s _ h),
        )
        h

  finishes-Inv : (k : ℕ) (s : ClientRequests) → Inv s → Inv (end_client_request serialize k s)
  unfolding end_client_request
  finishes-Inv k s h =
      let s' = end_client_request serialize k s in
      same-Inv s s' (omega arith) (λ j. refl)
        (Waits-same s s' s'.pending (omega arith) (λ j. refl)
          (erased s (serialize (request_id k)) h))
        h

  -- A call on a channel that takes nothing in.
  calls-Inv :
      (k : ℕ) (r : Channel Value × List (Completion Value)) (s : ClientRequests)
      → left r ≡ (s.channels k).values
      → Inv s
      → Inv (effect k r s)
  calls-Inv k (c, out) s e h =
      let same : (j : ℕ) → replies (effect k (c, out) s) j ≡ replies s j =
        λ j. replies-effect s k j (c, out) e in
      let s' = effect k (c, out) s in
      same-Inv s s' (omega arith) same
        (Waits-same s s' s.pending (omega arith) same h.open_requests) h

  ends-Inv : (s : ClientRequests) → Inv s → Inv (end_slot s)
  unfolding end_slot
  ends-Inv s h =
      let s0 = record s { pending = [] } in
      let (next, pending) = next-close_all s.pending s0 in
      same-Inv s (close_all s.pending s0) (omega (arith, next))
        (λ k. replies-close_all s.pending s0 k)
        (subst (All (Waits (close_all s.pending s0))) (sym pending) tt) h

  key_found :
      (key l : Bytes) (a k : ℕ) (rest : Option ℕ)
      → beq l key ≡ true
      → (if beq l key then some a else rest) ≡ some k
      → (l ≡ key) × (a ≡ k)
  key_found key l a k rest t e = ((beq_iff l key).0 t, ground (arith, t, e))

  pub found-Waits :
      (s : ClientRequests) (key : Bytes) (es : List (Bytes × ℕ)) (k : ℕ)
      → All (Waits s) es
      → find_pending key es ≡ some k
      → Waits s (key, k)
  found-Waits s key [] k h e = cc e
  found-Waits s key ((l, a) ∷ es) k h e = elim (Bool-cases (beq l key)) [
    | inl t ↦
        let (same_key, same) = key_found key l a k _ t e in
        subst (λ x. Waits s (x, k)) same_key (subst (λ n. Waits s (l, n)) same h.0)
    | inr t ↦ found-Waits s key es k h.1 (ground (arith, t, e))
  ]

  pub apart :
      (l key : Bytes) (a k : ℕ)
      → l ≡ serialize (request_id a)
      → key ≡ serialize (request_id k)
      → beq l key ≡ false
      → (a == k) ≡ false
  apart l key a k la lk ne = elim (Bool-cases (a == k)) [
    | inl t ↦
        let same = la ∙ ap (λ n. serialize (request_id n)) ((==_iff a k).0 t) ∙ sym lk in
        let yes = (beq_iff l key).1 same in cc (yes, ne)
    | inr t ↦ t
  ]

  kept-Waits :
      (s s' : ClientRequests) (k : ℕ) (key : Bytes) (es : List (Bytes × ℕ))
      → s.next_request_id ≤ s'.next_request_id
      → ((j : ℕ) → (j == k) ≡ false → replies s' j ≡ replies s j)
      → key ≡ serialize (request_id k)
      → All (λ e. Waits s e × (beq e.0 key ≡ false)) es
      → All (Waits s') es
  kept-Waits s s' k key [] n other lk h = tt
  kept-Waits s s' k key (e ∷ es) n other lk h =
      let w = h.0.0 in
      (
        (w.0, omega (arith, w.1, n), other e.1 (apart e.0 key e.1 k w.0 lk h.0.1) ∙ w.2),
        kept-Waits s s' k key es n other lk h.1,
      )

  delivers-Inv :
      (v : Value) (id : Value) (k : ℕ) (s : ClientRequests)
      → response_id v ≡ some id
      → Waits s (serialize id, k)
      → Inv s
      → Inv (deliver_to serialize v (serialize id) (some k) s).0
  delivers-Inv v id k s e w h =
      let pending = erase_pending (serialize id) s.pending in
      let s0 = record s { pending = pending } in
      let r = without_result (push v (s.channels k)) in
      let other : (j : ℕ) → (j == k) ≡ false → replies (effect k r s0) j ≡ replies s j =
        λ j ne. replies-effect_other s0 k j r ne in
      record {
        unused = λ j le. other j (ground (arith, le, w.1)) ∙ h.unused j le;
        once = λ j. elim (Bool-cases (j == k)) [
          | inl t ↦
              let at_k : Once k (replies (effect k r s0) k) =
                elim (replies-push s pending k v w.2) [
                  | inl n ↦ subst (Once k) (sym n) tt
                  | inr n ↦ subst (Once k) (sym n) (id, e, w.0)
                ] in
              subst (λ i. Once i (replies (effect k r s0) i)) (sym ((==_iff j k).0 t)) at_k
          | inr t ↦ subst (Once j) (sym (other j t)) (h.once j)
        ];
        open_requests =
            kept-Waits s (effect k r s0) k (serialize id) pending (omega arith) other w.0
              (erase-Waits s (serialize id) s.pending h.open_requests);
      }

  delivers_to-Inv :
      (v id : Value) (found : Option ℕ) (s : ClientRequests)
      → response_id v ≡ some id
      → find_pending (serialize id) s.pending ≡ found
      → Inv s
      → Inv (deliver_to serialize v (serialize id) found s).0
  delivers_to-Inv v id none s e f h = h
  delivers_to-Inv v id (some k) s e f h =
      delivers-Inv v id k s e (found-Waits s (serialize id) s.pending k h.open_requests f) h

  delivers_id-Inv :
      (v : Value) (id : Option Value) (s : ClientRequests)
      → response_id v ≡ id
      → Inv s
      → Inv (deliver_id serialize v id s).0
  delivers_id-Inv v none s e h = h
  delivers_id-Inv v (some id) s e h = delivers_to-Inv v id _ s e refl h

  pub pending_step-Inv :
      (c : PendingStep) (s : ClientRequests) → Inv s → Inv (pending_step serialize c s)
  unfolding pending_step deliver_response await_reply expire_request
  pending_step-Inv begins s h = begins-Inv s h
  pending_step-Inv ends s h = ends-Inv s h
  pending_step-Inv (awaits k) s h =
      calls-Inv k (async_receive (s.channels k)) s (left-receive (s.channels k)) h
  pending_step-Inv (expires k) s h =
      calls-Inv k (close (s.channels k)) s (left-close (s.channels k)) h
  pending_step-Inv (finishes k) s h = finishes-Inv k s h
  pending_step-Inv (delivers v) s h = delivers_id-Inv v (response_id v) s refl h

  pub pending_run-Inv :
      (cs : List PendingStep) (s : ClientRequests) → Inv s → Inv (pending_run serialize cs s)
  unfolding pending_run
  pending_run-Inv [] s h = h
  pending_run-Inv (c ∷ cs) s h =
      pending_run-Inv cs (pending_step serialize c s) (pending_step-Inv c s h)

  pub no_client_requests-Inv : Inv no_client_requests
  no_client_requests-Inv = record { unused = λ j le. refl; once = λ j. tt; open_requests = tt }

  -- Over any history of a new session, in which requests to the client begin, wait, expire and
  -- finish, the client sends responses and the session ends: what a request has received, and what
  -- is queued for it, is one response at most, and its id is written as that of the request.
  pub pending_run-Once :
      (cs : List PendingStep) (k : ℕ)
      → Once k (replies (pending_run serialize cs no_client_requests) k)
  pending_run-Once cs k = (pending_run-Inv cs no_client_requests no_client_requests-Inv).once k
