-- ===== src/Core/AsyncChannel.antt =====
-- core/async_channel.hpp. Each member runs under the mutex up to the completions that it posts, so
-- a call is one step of the state; what it completes is its output, oldest first. A waiter is the
-- id of its receive; a receive that completes at once does not take an id.
pub mod Order
pub mod Invariant
use boost_taar.Common.{
  ℕ, suc, ◌+◌, ◌-◌, Bool, true, false, Option, none, some, List, [], ◌∷◌, ◌++◌, ◌==◌, if◌then◌else◌,
  map, length, drop, take,
}

pub record Channel {ℓ} (A : Type ℓ) : Type ℓ where
  pub values : List A
  pub waiters : List ℕ
  pub next_id : ℕ
  pub closed : Bool

-- A completion: the waiter with this id, or the receive that is being started, and its value.
pub data Completion {ℓ} (A : Type ℓ) : Type ℓ where
  resumed : ℕ → Option A → Completion A
  immediate : Option A → Completion A

unfoldable pub erase_waiter : ℕ → List ℕ → List ℕ
erase_waiter id [] = []
erase_waiter id (w ∷ ws) = if w == id then ws else w ∷ erase_waiter id ws

unfoldable pub waits : ℕ → List ℕ → Bool
waits id [] = false
waits id (w ∷ ws) = if w == id then true else waits id ws

module _ {ℓ} {A : Type ℓ} where
  abbrev pub fresh : Channel A
  fresh = record { values = []; waiters = []; next_id = 0; closed = false }

  -- The new state, what is completed, and the result of `push`.
  unfoldable pub push : A → Channel A → Channel A × List (Completion A) × Bool
  push value s = if s.closed then (s, [], false) else elim s.waiters [
    | [] ↦ (record s { values = s.values ++ value ∷ [] }, [], true)
    | w ∷ rest ↦ (record s { waiters = rest }, resumed w (some value) ∷ [], true)
  ]

  -- The loop drops from the front until `max` values are left.
  unfoldable pub trim_values : ℕ → List A → List A
  trim_values max values = drop (length values - max) values

  unfoldable pub trim : ℕ → Channel A → Channel A × ℕ
  trim max s = (record s { values = trim_values max s.values }, length s.values - max)

  unfoldable pub close : Channel A → Channel A × List (Completion A)
  close s = (record s { closed = true; waiters = [] }, map (λ w. resumed w none) s.waiters)

  unfoldable pub async_receive : Channel A → Channel A × List (Completion A)
  async_receive s = elim s.values [
    | v ∷ rest ↦ (record s { values = rest }, immediate (some v) ∷ [])
    | [] ↦
        if s.closed
        then (s, immediate none ∷ [])
        else (record s { waiters = s.waiters ++ s.next_id ∷ []; next_id = suc s.next_id }, [])
  ]

  -- The cancellation handler of the waiter `id`.
  unfoldable pub cancel : ℕ → Channel A → Channel A × List (Completion A)
  cancel id s =
      if waits id s.waiters
      then (record s { waiters = erase_waiter id s.waiters }, resumed id none ∷ [])
      else (s, [])

pub data Call {ℓ} (A : Type ℓ) : Type ℓ where
  pushes : A → Call A
  trims : ℕ → Call A
  closes receives : Call A
  cancels : ℕ → Call A

module _ {ℓ} {A : Type ℓ} where
  unfoldable pub step : Call A → Channel A → Channel A × List (Completion A)
  step (pushes v) s = let (s', out, _) = push v s in (s', out)
  step (trims max) s = let (s', _) = trim max s in (s', [])
  step closes s = close s
  step receives s = async_receive s
  step (cancels id) s = cancel id s

  -- A history of calls, with all that it completes.
  unfoldable pub run : List (Call A) → Channel A → Channel A × List (Completion A)
  run [] s = (s, [])
  run (c ∷ cs) s = let (s', out) = step c s in let (s'', outs) = run cs s' in (s'', out ++ outs)
