-- ===== src/Core/ContextStore.antt =====
-- core/context_store.hpp: `context_store`. Entries are shared, so they live on a heap and the map
-- holds their addresses: a caller keeps an entry that is erased. Each member runs under the mutex,
-- so a call is one step, with the time that `now_` gives as an argument. Times count ticks.
pub mod Lookup
pub mod Expiry
pub mod InUse
pub mod Held
use boost_taar.Common.{
  ℕ, zero, suc, ◌+◌, ◌-◌, ◌*◌, ◌/◌, Bool, true, false, not, ◌&&◌, Option, none, some, List, [], ◌∷◌,
  ◌++◌, ◌==◌, if◌then◌else◌, ltb, leb, length,
}
use boost_taar.Core.AsyncLock.{AsyncLock, unlocked, async_acquire, release}

-- `context_store::entry`.
pub record Entry {ℓ κ} (K : Type ℓ) (C : Type κ) : Type (ℓ ⊔ κ) where
  pub key : K
  pub context : C
  pub last_activity : ℕ
  pub in_flight : ℕ
  pub lock : AsyncLock

-- The store, with the heap of all entries that were made; `entries_` maps keys to addresses.
pub record Store {ℓ κ} (K : Type ℓ) (C : Type κ) : Type (ℓ ⊔ κ) where
  pub idle_timeout : ℕ
  pub last_sweep : ℕ
  pub entries : List (K × ℕ)
  pub heap : ℕ → Entry K C
  pub next_address : ℕ

-- The heap with another entry at an address.
unfoldable pub put_at {ℓ} : {A : Type ℓ} → ℕ → A → (ℕ → A) → ℕ → A
put_at address value heap i = if i == address then value else heap i

module _ {ℓ} {K : Type ℓ} where
  -- The loop of `sweep_locked` over the map.
  unfoldable pub keep_live : (ℕ → Bool) → List (K × ℕ) → List (K × ℕ)
  keep_live dead [] = []
  keep_live dead ((k, address) ∷ rest) =
      if dead address then keep_live dead rest else (k, address) ∷ keep_live dead rest

  unfoldable pub live_keys : (ℕ → Bool) → List (K × ℕ) → List K
  live_keys dead [] = []
  live_keys dead ((k, address) ∷ rest) =
      if dead address then live_keys dead rest else k ∷ live_keys dead rest

module _ {ℓ} {K : Type ℓ} (same : K → K → Bool) where
  unfoldable pub lookup : K → List (K × ℕ) → Option ℕ
  lookup key [] = none
  lookup key ((k, address) ∷ rest) = if same k key then some address else lookup key rest

  -- `unordered_map::erase`.
  unfoldable pub erase_key : K → List (K × ℕ) → List (K × ℕ)
  erase_key key [] = []
  erase_key key ((k, address) ∷ rest) =
      if same k key then erase_key key rest else (k, address) ∷ erase_key key rest

  -- `unordered_map::insert_or_assign`.
  unfoldable pub assign : K → ℕ → List (K × ℕ) → List (K × ℕ)
  assign key address [] = (key, address) ∷ []
  assign key address ((k, a) ∷ rest) =
      if same k key then (k, address) ∷ rest else (k, a) ∷ assign key address rest

module _ {ℓ κ} {K : Type ℓ} {C : Type κ} where
  -- `!e.in_flight() && now - e.last_activity() > idle_timeout_`
  unfoldable pub entry_expired : ℕ → ℕ → Entry K C → Bool
  entry_expired idle_timeout now e = e.in_flight == 0 && ltb (idle_timeout + e.last_activity) now

  unfoldable pub expired : Store K C → ℕ → ℕ → Bool
  expired s now address = entry_expired s.idle_timeout now (s.heap address)

  abbrev pub touched : ℕ → Entry K C → Entry K C
  touched now e = record e { last_activity = now }

  unfoldable pub touch : ℕ → ℕ → Store K C → Store K C
  touch now address s = record s { heap = put_at address (touched now (s.heap address)) s.heap }

  unfoldable pub sweep_locked : ℕ → Store K C → Store K C
  sweep_locked now s = record s { last_sweep = now; entries = keep_live (expired s now) s.entries }

  unfoldable pub maybe_sweep : ℕ → Store K C → Store K C
  maybe_sweep now s = if leb (s.last_sweep + s.idle_timeout / 4) now then sweep_locked now s else s

  unfoldable pub keys : ℕ → Store K C → List K
  keys now s = live_keys (expired s now) s.entries

  -- The number of entries removed.
  unfoldable pub sweep : ℕ → Store K C → Store K C × ℕ
  sweep now s = let swept = sweep_locked now s in (swept, length s.entries - length swept.entries)

  abbrev pub new_entry : K → C → ℕ → Entry K C
  new_entry key context now = record {
    key = key;
    context = context;
    last_activity = now;
    in_flight = 0;
    lock = unlocked;
  }

  -- `lock` up to its suspension: the client that is resumed, if it is.
  unfoldable pub start_lock : ℕ → ℕ → Store K C → Store K C × Option ℕ
  start_lock client address s =
      let e = s.heap address in
      let (lock, resumed) = async_acquire client e.lock in
      (record s { heap = put_at address (record e { lock = lock }) s.heap }, resumed)

  -- `lock` behind its suspension.
  unfoldable pub enter : ℕ → Store K C → Store K C
  enter address s =
      let e = s.heap address in
      record s { heap = put_at address (record e { in_flight = suc e.in_flight }) s.heap }

  -- `lock_guard::release`: the client that the lock is handed to.
  unfoldable pub leave : ℕ → ℕ → Store K C → Store K C × Option ℕ
  leave now address s =
      let e = s.heap address in
      let (lock, resumed) = release e.lock in
      (
        record s {
          heap =
              put_at address
                (record e { last_activity = now; in_flight = e.in_flight - 1; lock = lock }) s.heap;
        },
        resumed,
      )

module _ {ℓ κ} {K : Type ℓ} {C : Type κ} (same : K → K → Bool) where
  -- `find` behind `maybe_sweep`.
  unfoldable pub find_in : K → ℕ → Store K C → Store K C × Option ℕ
  find_in key now s = elim (lookup same key s.entries) [
    | none ↦ (s, none)
    | some address ↦
        if expired s now address
        then (record s { entries = erase_key same key s.entries }, none)
        else (touch now address s, some address)
  ]

  unfoldable pub find : K → ℕ → Store K C → Store K C × Option ℕ
  find key now s = find_in key now (maybe_sweep now s)

  -- `make_shared<entry>` and `insert_or_assign`.
  unfoldable pub insert_new : K → C → ℕ → Store K C → Store K C × ℕ
  insert_new key context now s = (
    record s {
      heap = put_at s.next_address (new_entry key context now) s.heap;
      entries = assign same key s.next_address s.entries;
      next_address = suc s.next_address;
    },
    s.next_address,
  )

  -- `it != end && !expired(*it->second, now)`
  unfoldable pub live_at : K → ℕ → Store K C → Option ℕ
  live_at key now s = elim (lookup same key s.entries) [
    | none ↦ none
    | some address ↦ if expired s now address then none else some address
  ]

  unfoldable pub emplace_in : K → C → ℕ → Store K C → Store K C × ℕ
  emplace_in key context now s = elim (live_at key now s) [
    | some address ↦ (touch now address s, address)
    | none ↦ insert_new key context now s
  ]

  unfoldable pub emplace : K → C → ℕ → Store K C → Store K C × ℕ
  emplace key context now s = emplace_in key context now (maybe_sweep now s)

  -- The loop of `create` over the keys that `generate_` draws; none where all of them are taken.
  unfoldable pub draw_key : ℕ → Store K C → List K → Option K
  draw_key now s [] = none
  draw_key now s (key ∷ keys) = elim (live_at key now s) [
    | some address ↦ draw_key now s keys
    | none ↦ some key
  ]

  unfoldable pub create : List K → C → ℕ → Store K C → Option (K × Store K C × ℕ)
  create drawn context now s =
      let swept = maybe_sweep now s in
      elim (draw_key now swept drawn) [
        | none ↦ none
        | some key ↦ let (s', address) = insert_new key context now swept in some (key, s', address)
      ]

  unfoldable pub peek : K → ℕ → Store K C → Option ℕ
  peek key now s = live_at key now s

  -- Whether an entry was removed.
  unfoldable pub erase : K → Store K C → Store K C × Bool
  erase key s = (
    record s { entries = erase_key same key s.entries },
    elim (lookup same key s.entries) [ none ↦ false | some address ↦ true ],
  )

-- The calls that change a store, with the times at which they happen.
pub data StoreCall {ℓ κ} (K : Type ℓ) (C : Type κ) : Type (ℓ ⊔ κ) where
  finds : K → ℕ → StoreCall K C
  emplaces : K → C → ℕ → StoreCall K C
  creates : List K → C → ℕ → StoreCall K C
  erases : K → StoreCall K C
  sweeps : ℕ → StoreCall K C
  starts_lock : ℕ → ℕ → StoreCall K C
  enters : ℕ → StoreCall K C
  leaves : ℕ → ℕ → StoreCall K C

module _ {ℓ κ} {K : Type ℓ} {C : Type κ} (same : K → K → Bool) where
  -- Where no key is drawn that is free, `create` has only swept.
  abbrev created : Store K C → Option (K × Store K C × ℕ) → Store K C
  created swept none = swept
  created swept (some (key, s', address)) = s'

  unfoldable pub store_step : StoreCall K C → Store K C → Store K C
  store_step (finds key now) s = (find same key now s).0
  store_step (emplaces key context now) s = (emplace same key context now s).0
  store_step (creates drawn context now) s =
      created (maybe_sweep now s) (create same drawn context now s)
  store_step (erases key) s = (erase same key s).0
  store_step (sweeps now) s = (sweep now s).0
  store_step (starts_lock client address) s = (start_lock client address s).0
  store_step (enters address) s = enter address s
  store_step (leaves now address) s = (leave now address s).0

  unfoldable pub store_run : List (StoreCall K C) → Store K C → Store K C
  store_run [] s = s
  store_run (c ∷ cs) s = store_run cs (store_step c s)
