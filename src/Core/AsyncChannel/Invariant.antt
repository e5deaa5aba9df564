-- ===== src/Core/AsyncChannel/Invariant.antt =====
-- core/async_channel.hpp: what holds of the state between two calls.
use boost_taar.Common.{
  drop-nil, ℕ, suc, ◌<◌, ◌≡◌, refl, true, List, [], ◌∷◌, ◌++◌, arith, All, length, inl, ◌-◌, ◌⊎◌,
  All-append,
}
use boost_taar.Core.AsyncChannel.{
  Channel, fresh, push, trim_values, trim, close, async_receive, erase_waiter, cancel, Call, pushes,
  trims, closes, receives, cancels, step, run,
}

-- The ids ascend, and all are below `bound`.
abbrev pub Ascend : List ℕ → ℕ → Type 0
Ascend [] bound = Unit
Ascend (w ∷ ws) bound = All (λ v. w < v) ws × (w < bound) × Ascend ws bound

-- Nobody waits while a value is there or after the channel is closed, and the waiters have
-- distinct ids, in the order in which they came.
pub record Inv {ℓ} {A : Type ℓ} (s : Channel A) : Type ℓ where
  pub idle : (s.values ≡ []) ⊎ (s.waiters ≡ [])
  pub shut : s.closed ≡ true → s.waiters ≡ []
  pub ordered : Ascend s.waiters s.next_id

Ascend-weaken : (ws : List ℕ) (n : ℕ) → Ascend ws n → Ascend ws (suc n)
Ascend-weaken [] n h = tt
Ascend-weaken (w ∷ ws) n (h, lt, k) = (h, omega arith, Ascend-weaken ws n k)

Ascend-push : (ws : List ℕ) (n : ℕ) → Ascend ws n → Ascend (ws ++ n ∷ []) (suc n)
Ascend-push [] n h = (tt, omega arith, tt)
Ascend-push (w ∷ ws) n (h, lt, k) =
    (All-append (λ v. w < v) ws (n ∷ []) h (lt, tt), omega arith, Ascend-push ws n k)

All-erase_waiter :
    (lo id : ℕ) (ws : List ℕ) → All (λ v. lo < v) ws → All (λ v. lo < v) (erase_waiter id ws)
unfolding erase_waiter
All-erase_waiter lo id [] h = tt
All-erase_waiter lo id (w ∷ ws) (h, hs) = ground (arith, All-erase_waiter lo id ws hs)

Ascend-erase_waiter : (id : ℕ) (ws : List ℕ) (n : ℕ) → Ascend ws n → Ascend (erase_waiter id ws) n
unfolding erase_waiter
Ascend-erase_waiter id [] n h = tt
Ascend-erase_waiter id (w ∷ ws) n (h, lt, k) =
    ground (arith, Ascend-erase_waiter id ws n k, All-erase_waiter w id ws h)

erase_waiter-nil : (id : ℕ) → erase_waiter id [] ≡ []
unfolding erase_waiter
erase_waiter-nil id = refl

module _ {ℓ} {A : Type ℓ} where
  pub push-Inv : (v : A) (s : Channel A) → Inv s → Inv (push v s).0
  unfolding push
  push-Inv v s h = ground arith

  pub trim-Inv : (max : ℕ) (s : Channel A) → Inv s → Inv (trim max s).0
  unfolding trim trim_values
  trim-Inv max s h = ground (arith, drop-nil {A = A} (length s.values - max))

  close-Inv : (s : Channel A) → Inv s → Inv (close s).0
  unfolding close
  close-Inv s h = ground arith

  pub receive-Inv : (s : Channel A) → Inv s → Inv (async_receive s).0
  unfolding async_receive
  receive-Inv s h = ground (arith, Ascend-push s.waiters s.next_id)

  pub cancel-Inv : (id : ℕ) (s : Channel A) → Inv s → Inv (cancel id s).0
  unfolding cancel
  cancel-Inv id s h =
      ground (arith, Ascend-erase_waiter id s.waiters s.next_id, erase_waiter-nil id)

  pub step-Inv : (c : Call A) (s : Channel A) → Inv s → Inv (step c s).0
  unfolding step
  step-Inv (pushes v) s h = push-Inv v s h
  step-Inv (trims max) s h = trim-Inv max s h
  step-Inv closes s h = close-Inv s h
  step-Inv receives s h = receive-Inv s h
  step-Inv (cancels id) s h = cancel-Inv id s h

  pub run-Inv : (cs : List (Call A)) (s : Channel A) → Inv s → Inv (run cs s).0
  unfolding run
  run-Inv [] s h = h
  run-Inv (c ∷ cs) s h = run-Inv cs (step c s).0 (step-Inv c s h)

  pub fresh-Inv : Inv (fresh {A = A})
  fresh-Inv = record { idle = inl refl; shut = λ _. refl; ordered = tt }

  -- After any history of calls on a new channel, nobody waits while a value is queued or after
  -- `close`, and the waiters have distinct ids in the order in which they came.
  pub run-fresh-Inv : (cs : List (Call A)) → Inv (run cs fresh).0
  run-fresh-Inv cs = run-Inv cs fresh fresh-Inv
