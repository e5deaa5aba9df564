-- ===== src/Mcp/Pending/Replies.antt =====
-- mcp/endpoint.hpp: the replies that a request to the client has got, by what is done to its channel.
use boost_taar.Common.{
  ℕ, ◌≡◌, refl, sym, ap, ◌∙◌, inl, inr, false, Option, none, some, List, [], ◌∷◌, ◌++◌, Bytes,
  ==_iff, ◌==◌, Bool-cases, append_assoc, ==_refl, ◌⊎◌, map,
}
use mathlib.Core.Path.{subst}
use boost_taar.JsonRpc.Json.{Value}
use boost_taar.Core.AsyncChannel.{Channel, Completion, resumed, fresh, push, async_receive, close}
use boost_taar.Mcp.Pending.{ClientRequests, put_entry, completed, effect, without_result, close_all}

abbrev pub present : List (Option Value) → List Value
present [] = []
present (none ∷ vs) = present vs
present (some v ∷ vs) = v ∷ present vs

-- The replies that a request has got: those its receive has completed with, and what is queued.
abbrev pub replies : ClientRequests → ℕ → List Value
replies s k = present (s.received k) ++ (s.channels k).values

pub present-append : (xs ys : List (Option Value)) → present (xs ++ ys) ≡ present xs ++ present ys
present-append [] ys = refl
present-append (none ∷ xs) ys = present-append xs ys
present-append (some v ∷ xs) ys = ap (λ vs. v ∷ vs) (present-append xs ys)

-- What a call makes of the replies that its channel holds.
abbrev pub left : Channel Value × List (Completion Value) → List Value
left (c, out) = present (completed out) ++ c.values

pub close_waiters : (ws : List ℕ) → present (completed (map (λ w. resumed w none) ws)) ≡ []
close_waiters [] = refl
close_waiters (w ∷ ws) = close_waiters ws

pub left-close : (c : Channel Value) → left (close c) ≡ c.values
unfolding close
left-close c = ap (λ vs. vs ++ c.values) (close_waiters c.waiters)

pub receive_by_values :
    (vs : List Value) (c : Channel Value) → c.values ≡ vs → left (async_receive c) ≡ vs
unfolding async_receive
receive_by_values [] c e = elim (Bool-cases c.closed) [
  | inl b ↦ rw (e, b) refl
  | inr b ↦ rw (e, b) refl
]
receive_by_values (v ∷ vs) c e = rw e refl

pub left-receive : (c : Channel Value) → left (async_receive c) ≡ c.values
left-receive c = receive_by_values c.values c refl

pub replies-effect_at :
    (s : ClientRequests) (k : ℕ) (r : Channel Value × List (Completion Value))
    → replies (effect k r s) k ≡ present (s.received k) ++ left r
replies-effect_at s k (c, out) = rw (==_refl k) (
    ap (λ vs. vs ++ c.values) (present-append (s.received k) (completed out))
    ∙ append_assoc (present (s.received k)) (present (completed out)) c.values)

pub replies-effect_other :
    (s : ClientRequests) (k j : ℕ) (r : Channel Value × List (Completion Value))
    → (j == k) ≡ false
    → replies (effect k r s) j ≡ replies s j
replies-effect_other s k j (c, out) e = rw e refl

pub replies-effect :
    (s : ClientRequests) (k j : ℕ) (r : Channel Value × List (Completion Value))
    → left r ≡ (s.channels k).values
    → replies (effect k r s) j ≡ replies s j
replies-effect s k j r h = elim (Bool-cases (j == k)) [
  | inl e ↦
      let same : j ≡ k = (==_iff j k).0 e in
      subst (λ i. replies (effect k r s) i ≡ replies s i) (sym same)
        (replies-effect_at s k r ∙ ap (λ vs. present (s.received k) ++ vs) h)
  | inr e ↦ replies-effect_other s k j r e
]

pub replies-close_all :
    (es : List (Bytes × ℕ)) (s : ClientRequests) (j : ℕ) → replies (close_all es s) j ≡ replies s j
replies-close_all [] s j = refl
replies-close_all ((key, k) ∷ es) s j =
    replies-close_all es (effect k (close (s.channels k)) s) j
    ∙ replies-effect s k j (close (s.channels k)) (left-close (s.channels k))

pub next-close_all :
    (es : List (Bytes × ℕ)) (s : ClientRequests)
    → ((close_all es s).next_request_id ≡ s.next_request_id)
      × ((close_all es s).pending ≡ s.pending)
next-close_all [] s = (refl, refl)
next-close_all ((key, k) ∷ es) s = next-close_all es (effect k (close (s.channels k)) s)

pub left_open :
    (v : Value) (ws : List ℕ) (c : Channel Value)
    → c.values ≡ []
    → c.closed ≡ false
    → c.waiters ≡ ws
    → left (without_result (push v c)) ≡ v ∷ []
unfolding push
left_open v [] c e b w = rw (b, w, e) refl
left_open v (k ∷ ws) c e b w = rw (b, w) (ap (λ vs. v ∷ vs) e)

-- A push on a channel that holds nothing.
pub left-push :
    (v : Value) (c : Channel Value)
    → c.values ≡ []
    → (left (without_result (push v c)) ≡ []) ⊎ (left (without_result (push v c)) ≡ v ∷ [])
unfolding push
left-push v c e = elim (Bool-cases c.closed) [
  | inl b ↦ inl (rw b e)
  | inr b ↦ inr (left_open v c.waiters c e b refl)
]

nil_left : (xs ys : List Value) → xs ++ ys ≡ [] → xs ++ [] ≡ []
nil_left [] ys h = refl
nil_left (x ∷ xs) ys h = cc h

-- A new channel at an address without replies.
pub replies-fresh :
    (s : ClientRequests) (next k j : ℕ) (pending : List (Bytes × ℕ))
    → replies s k ≡ []
    → replies
        (record s {
          pending = pending;
          next_request_id = next;
          channels = put_entry k fresh s.channels;
        })
        j
      ≡ replies s j
replies-fresh s next k j pending h = elim (Bool-cases (j == k)) [
  | inl e ↦
      let same : j ≡ k = (==_iff j k).0 e in
      let none_yet : replies s j ≡ [] = subst (λ i. replies s i ≡ []) (sym same) h in
      rw e (nil_left (present (s.received j)) (s.channels j).values none_yet ∙ sym none_yet)
  | inr e ↦ rw e refl
]

nil_right : (xs ys : List Value) → xs ++ ys ≡ [] → ys ≡ []
nil_right [] ys h = h
nil_right (x ∷ xs) ys h = cc h

both_nil : (xs ys zs : List Value) → xs ++ ys ≡ [] → xs ++ zs ≡ zs
both_nil [] ys zs h = refl
both_nil (x ∷ xs) ys zs h = cc h

-- A push to a request without replies: there is none still, or what was pushed is the only one.
pub replies-push :
    (s : ClientRequests) (pending : List (Bytes × ℕ)) (k : ℕ) (v : Value)
    → replies s k ≡ []
    → (replies
          (effect k (without_result (push v (s.channels k))) (record s { pending = pending }))
          k
        ≡ [])
      ⊎ (replies
            (effect k (without_result (push v (s.channels k))) (record s { pending = pending }))
            k
          ≡ v ∷ [])
replies-push s pending k v h =
    let r = without_result (push v (s.channels k)) in
    let there =
      replies-effect_at (record s { pending = pending }) k r
      ∙ both_nil (present (s.received k)) (s.channels k).values (left r) h in
    elim (left-push v (s.channels k) (nil_right (present (s.received k)) (s.channels k).values h)) [
      | inl e ↦ inl (there ∙ e)
      | inr e ↦ inr (there ∙ e)
    ]
