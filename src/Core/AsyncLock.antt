-- ===== src/Core/AsyncLock.antt =====
-- core/context_store.hpp: `async_lock`, which `lock` and the guard's destructor of `context_store`
-- acquire and release. Each member is one step under the mutex; a client is a number, and the
-- output is the client that is resumed.
pub mod Exclusion
use boost_taar.Common.{ℕ, Bool, true, false, Option, none, some, List, [], ◌∷◌, ◌++◌, if◌then◌else◌}

pub record AsyncLock : Type 0 where
  pub locked : Bool
  pub waiters : List ℕ

abbrev pub unlocked : AsyncLock
unlocked = record { locked = false; waiters = [] }

unfoldable pub async_acquire : ℕ → AsyncLock → AsyncLock × Option ℕ
async_acquire client l =
    if l.locked
    then (record l { waiters = l.waiters ++ client ∷ [] }, none)
    else (record l { locked = true }, some client)

unfoldable pub release : AsyncLock → AsyncLock × Option ℕ
release l = elim l.waiters [
  | [] ↦ (record l { locked = false }, none)
  | next ∷ rest ↦ (record l { waiters = rest }, some next)
]
