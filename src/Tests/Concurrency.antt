-- ===== src/Tests/Concurrency.antt =====
-- Runs of the channel and of the lock, and instances of their theorems.
use boost_taar.Common.{ℕ, ◌≡◌, refl, inl, true, none, some, List, [], ◌∷◌, ◌++◌}
use boost_taar.Core.AsyncChannel.{
  resumed, immediate, fresh, push, async_receive, cancel, waits, erase_waiter, close, Call, pushes,
  closes, receives, cancels, step, run,
}
use boost_taar.Core.AsyncChannel.Order.{delivered, accepted_all, run_fifo}
use boost_taar.Core.AsyncLock.{async_acquire, release}
use boost_taar.Core.AsyncLock.Exclusion.{
  World, Reach, start, acquires, releases, asks, gives_back, lets_go, grants, no_clients, Exclusive,
  async_lock-Exclusive,
}

-- Two receives wait, one is cancelled, and the values go to the other and to the queue.
abbrev busy : List (Call ℕ)
busy =
    receives
    ∷ receives
    ∷ cancels 0
    ∷ pushes 7
    ∷ pushes 8
    ∷ pushes 9
    ∷ receives
    ∷ closes
    ∷ pushes 5
    ∷ []

busy-run : run busy fresh ≡ (
  record { values = 9 ∷ []; waiters = []; next_id = 2; closed = true },
  resumed 0 none ∷ resumed 1 (some 7) ∷ immediate (some 8) ∷ [],
)
unfolding run step push async_receive cancel waits erase_waiter close
busy-run = refl

run_fifo_example :
    delivered (run busy fresh).1 ++ (run busy fresh).0.values ≡ accepted_all busy fresh
run_fifo_example = run_fifo busy tt

abbrev busy_world : World
busy_world = gives_back 3 (asks 5 (asks 4 (asks 3 no_clients)))

busy_world_runs : (busy_world.holders ≡ 4 ∷ []) × (busy_world.lock.waiters ≡ 5 ∷ [])
unfolding asks gives_back lets_go async_acquire release grants
busy_world_runs = (refl, refl)

three_asked : (asks 5 (asks 4 (asks 3 no_clients))).holders ≡ 3 ∷ []
unfolding asks async_acquire grants
three_asked = refl

busy_world-Reach : Reach busy_world
busy_world-Reach =
    releases 3 (acquires 5 (acquires 4 (acquires 3 (start refl) refl) refl) refl)
      (rw three_asked (inl refl)) refl

async_lock-Exclusive_example :
    Exclusive busy_world.lock busy_world.holders
    × (busy_world.granted ++ busy_world.lock.waiters ≡ busy_world.asked)
async_lock-Exclusive_example = async_lock-Exclusive busy_world busy_world-Reach
