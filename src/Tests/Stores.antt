-- ===== src/Tests/Stores.antt =====
-- Runs of core/context_store.hpp, and instances of its theorems.
use boost_taar.Common.{
  ℕ, ◌+◌, ◌≡◌, ◌≢◌, ◌≤◌, ◌↔◌, ◌⊎◌, refl, Bool, true, some, List, [], ◌∷◌, arith, ◌==◌, ==_refl,
  ==_iff, if◌then◌else◌,
}
use boost_taar.Core.AsyncLock.{unlocked, release}
use boost_taar.Core.ContextStore.{
  Entry, Store, put_at, lookup, erase_key, assign, keep_live, entry_expired, expired, touch,
  sweep_locked, maybe_sweep, find_in, find, insert_new, live_at, emplace_in, emplace, draw_key,
  create, sweep, leave, StoreCall, finds, emplaces, creates, sweeps, store_step, store_run, keys,
  live_keys,
}
use boost_taar.Core.ContextStore.Expiry.{find_iff}
use boost_taar.Core.ContextStore.InUse.{Inv, Held}
use boost_taar.Core.ContextStore.Held.{store_run-Held}

abbrev same_number : ℕ → ℕ → Bool
same_number a b = a == b

number_eq : (a b : ℕ) → same_number a b ≡ true → a ≡ b
number_eq a b = (==_iff a b).0

abbrev blank : Entry ℕ ℕ
blank = record { key = 0; context = 0; last_activity = 0; in_flight = 0; lock = unlocked }

abbrev worked_on : Entry ℕ ℕ
worked_on = record {
  key = 7;
  context = 70;
  last_activity = 5;
  in_flight = 1;
  lock = record { locked = true; waiters = [] };
}

-- One entry, locked, under the key 7, in a store with an idle timeout of 10.
abbrev locked_store : Store ℕ ℕ
locked_store = record {
  idle_timeout = 10;
  last_sweep = 0;
  entries = (7, 0) ∷ [];
  heap = λ i. if i == 0 then worked_on else blank;
  next_address = 1;
}

locked-Inv : Inv same_number locked_store
unfolding lookup
locked-Inv = record { distinct = (refl, tt); made = λ key a e. ground arith }

-- Long idle: a locked entry stays, and goes some time after it is released.
abbrev history : List (StoreCall ℕ ℕ)
history = sweeps 100 ∷ emplaces 8 80 101 ∷ finds 9 150 ∷ creates (7 ∷ 9 ∷ []) 90 151 ∷ []

store_runs :
    (keys 151 (store_run same_number history locked_store) ≡ 7 ∷ 9 ∷ [])
    × (keys 170 (store_run same_number history (leave 6 0 locked_store).0) ≡ [])
unfolding keys live_keys store_run store_step find find_in emplace emplace_in create draw_key
    live_at insert_new lookup assign erase_key keep_live expired entry_expired touch sweep
    sweep_locked maybe_sweep leave put_at release
store_runs = (refl, refl)

find_iff_example : ((find same_number 7 90 locked_store).1 ≡ some 0) ↔ (
    (lookup same_number 7 locked_store.entries ≡ some 0)
    × (((locked_store.heap 0).in_flight ≢ 0)
        ⊎ (90 ≤ locked_store.idle_timeout + (locked_store.heap 0).last_activity)))
find_iff_example = find_iff same_number ==_refl number_eq 7 90 0 locked_store locked-Inv.distinct

abbrev after_create : Store ℕ ℕ
after_create = (insert_new same_number 9 90 1 locked_store).0

creates_nine : create same_number (7 ∷ 9 ∷ []) 90 1 locked_store ≡ some (9, after_create, 1)
unfolding create draw_key live_at insert_new lookup assign expired entry_expired maybe_sweep
creates_nine = refl

locked-Held : Held same_number 7 0 locked_store
unfolding lookup
locked-Held = record { under = refl; in_use = λ e. omega arith }

store_run-Held_example :
    Inv same_number (store_run same_number history locked_store)
    × Held same_number 7 0 (store_run same_number history locked_store)
store_run-Held_example =
    store_run-Held same_number ==_refl number_eq history 7 0 locked_store (tt, (tt, (tt, (tt, tt))))
      locked-Inv locked-Held
