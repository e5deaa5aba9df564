-- ===== src/Handler/ContentCache.antt =====
-- handler/htdocs.hpp: the map `lru`, and the memory cache that `open_content` keeps in two critical
-- sections. The map's list has the last used entry first; its index only finds places in the list.
-- What is read from the file between the two sections is an argument of the second.
pub mod Accounting
use boost_taar.Common.{
  ℕ, zero, suc, ◌+◌, ◌-◌, Bool, true, false, ◌&&◌, Option, none, some, List, [], ◌∷◌, ◌++◌, ◌==◌,
  if◌then◌else◌, leb, ltb, length, Bytes, beq,
}

-- `content_entry`.
pub record Entry : Type 0 where
  pub data_bytes : Bytes
  pub mtime : ℕ

abbrev pub Items : Type 0
Items = List (Bytes × Entry)

-- The entry with the key, and the list without it.
abbrev beside : Bytes × Entry → Option (Entry × Items) → Option (Entry × Items)
beside item none = none
beside item (some (e, rest)) = some (e, item ∷ rest)

unfoldable pub take_out : Bytes → Items → Option (Entry × Items)
take_out key [] = none
take_out key ((k, e) ∷ items) =
    let later = beside (k, e) (take_out key items) in if beq k key then some (e, items) else later

-- `lru::find`: the entry moves to the front.
unfoldable pub lru_find : Bytes → Items → Items × Option Entry
lru_find key items = elim (take_out key items) [
  | none ↦ (items, none)
  | some found ↦ ((key, found.0) ∷ found.1, some found.0)
]

-- `lru::put`.
unfoldable pub lru_put : Bytes → Entry → Items → Items
lru_put key value items = elim (take_out key items) [
  | none ↦ (key, value) ∷ items
  | some found ↦ (key, value) ∷ found.1
]

-- `lru::erase`.
unfoldable pub lru_erase : Bytes → Items → Items
lru_erase key items = elim (take_out key items) [ none ↦ items | some found ↦ found.1 ]

abbrev in_front : Bytes × Entry → Option (Items × Entry) → Option (Items × Entry)
in_front item none = none
in_front item (some (items, e)) = some (item ∷ items, e)

-- `lru::pop_oldest`; none where the map is empty, and the source's behaviour undefined.
unfoldable pub pop_oldest : Items → Option (Items × Entry)
pop_oldest [] = none
pop_oldest ((k, e) ∷ []) = some ([], e)
pop_oldest (item ∷ next ∷ items) = in_front item (pop_oldest (next ∷ items))

pub record Cache : Type 0 where
  pub content : Items
  pub content_bytes : ℕ
  pub memory_hits : ℕ
  pub memory_loads : ℕ

abbrev pub empty_cache : Cache
empty_cache = record { content = []; content_bytes = 0; memory_hits = 0; memory_loads = 0 }

-- What is asked for: `chosen.path`, `chosen.size` and `chosen.mtime`.
pub record Variant : Type 0 where
  pub path : Bytes
  pub size : ℕ
  pub mtime : ℕ

-- `options.memory_cache_max_file_size` and `options.memory_cache_max_total`.
pub record Limits : Type 0 where
  pub max_file_size : ℕ
  pub max_total : ℕ

unfoldable pub cacheable : Limits → Variant → Bool
cacheable limits chosen = leb chosen.size limits.max_file_size && leb chosen.size limits.max_total

-- The first critical section: a hit, or an entry that is stale goes.
unfoldable pub look_up : Limits → Variant → Cache → Cache × Option Bytes
look_up limits chosen c = elim (cacheable limits chosen) [
  | false ↦ (c, none)
  | true ↦ elim (take_out chosen.path c.content) [
    | none ↦ (c, none)
    | some found ↦
        if length found.0.data_bytes == chosen.size && found.0.mtime == chosen.mtime
        then (
          record c { content = (chosen.path, found.0) ∷ found.1; memory_hits = suc c.memory_hits },
          some found.0.data_bytes,
        )
        else (
          record c {
            content = found.1;
            content_bytes = c.content_bytes - length found.0.data_bytes;
          },
          none,
        )
  ]
]

-- `while (content_bytes > max_total)`, a round for each entry at most.
unfoldable pub shrink : ℕ → ℕ → Items → ℕ → Option (Items × ℕ)
shrink max_total zero items bytes = if ltb max_total bytes then none else some (items, bytes)
shrink max_total (suc fuel) items bytes =
    let popped : Option (Items × ℕ) = elim (pop_oldest items) [
      | none ↦ none
      | some left ↦ shrink max_total fuel left.0 (bytes - length left.1.data_bytes)
    ] in
    if ltb max_total bytes then popped else some (items, bytes)

abbrev old_size : Option Entry → ℕ
old_size none = 0
old_size (some e) = length e.data_bytes

abbrev settled : Cache → Option (Items × ℕ) → Option Cache
settled c none = none
settled c (some (items, bytes)) =
    some (record c { content = items; content_bytes = bytes; memory_loads = suc c.memory_loads })

-- The second critical section, with the data of a file that is cacheable; none where the loop pops
-- from an empty map.
unfoldable pub store_content : Limits → Variant → Bytes → Cache → Option Cache
store_content limits chosen loaded c =
    let (_, old) = lru_find chosen.path c.content in
    let items =
      lru_put chosen.path (record { data_bytes = loaded; mtime = chosen.mtime }) c.content in
    settled c (
      shrink limits.max_total (length items) items (c.content_bytes - old_size old + length loaded))

-- Two requests interleave by whole sections; a store is made with data of the size examined.
pub data CacheCall : Type 0 where
  looks_up : Variant → CacheCall
  stores : Variant → Bytes → CacheCall

unfoldable pub cache_step : Limits → CacheCall → Cache → Option Cache
cache_step limits (looks_up chosen) c = some (look_up limits chosen c).0
cache_step limits (stores chosen loaded) c = store_content limits chosen loaded c

-- Any interleaving of the sections of all requests; none where one of them pops from an empty map.
unfoldable pub cache_run : Limits → List CacheCall → Cache → Option Cache
cache_run limits [] c = some c
cache_run limits (call ∷ calls) c = elim (cache_step limits call c) [
  | none ↦ none
  | some c' ↦ cache_run limits calls c'
]
