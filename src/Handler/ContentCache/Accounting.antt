-- ===== src/Handler/ContentCache/Accounting.antt =====
-- handler/htdocs.hpp: the bytes that the memory cache counts are those that it holds.
use boost_taar.Common.{
  ℕ, zero, suc, ◌+◌, ◌-◌, ◌≤◌, ◌≡◌, refl, ◌∙◌, ap, sym, true, ◌&&◌, some, List, [], ◌∷◌, arith,
  ◌==◌, ltb, length, Bytes, Option-cases, Bool-cases, inl, inr,
}
use boost_taar.Handler.ContentCache.{
  Entry, Items, take_out, lru_find, pop_oldest, Cache, Variant, Limits, cacheable, look_up, shrink,
  lru_put, cache_step, cache_run, old_size, settled, store_content, CacheCall, looks_up, stores,
}

-- The bytes of all entries.
abbrev pub total_bytes : Items → ℕ
total_bytes [] = 0
total_bytes ((k, e) ∷ items) = length e.data_bytes + total_bytes items

take_out_bytes :
    (key : Bytes) (items : Items) {e : Entry} {rest : Items}
    → take_out key items ≡ some (e, rest)
    → total_bytes items ≡ length e.data_bytes + total_bytes rest
unfolding take_out
take_out_bytes key [] h = ground (arith, h)
take_out_bytes key ((k, d) ∷ items) {e} {rest} h = elim (Option-cases (take_out key items)) [
  | inl m ↦ ground (arith, h, m)
  | inr (found, m) ↦ ground (arith, h, m, take_out_bytes key items {e = found.0} {rest = found.1} m)
]

pop_oldest_bytes :
    (item : Bytes × Entry) (items : Items)
    → (left : Items) × (e : Entry) × (pop_oldest (item ∷ items) ≡ some (left, e))
      × (total_bytes (item ∷ items) ≡ total_bytes left + length e.data_bytes)
      × (length left ≡ length items)
unfolding pop_oldest
pop_oldest_bytes (k, e) [] = ([], e, refl, omega arith, refl)
pop_oldest_bytes (k, e) (next ∷ items) =
    let (left, d, m, b, l) = pop_oldest_bytes next items in
    ((k, e) ∷ left, d, (rw m refl), omega (arith, b), ap suc l)

-- Some cache that stays within the limit, and counts what it holds.
pub record Counts (max_total : ℕ) (c : Cache) : Type 0 where
  pub counted : c.content_bytes ≡ total_bytes c.content
  pub within : c.content_bytes ≤ max_total

-- The loop never pops from an empty map, and ends within the limit.
record Shrunk (max_total fuel : ℕ) (items : Items) : Type 0 where
  left : Items
  result : shrink max_total fuel items (total_bytes items) ≡ some (left, total_bytes left)
  within : total_bytes left ≤ max_total

shrink_round :
    (max_total fuel bytes : ℕ) (items left : Items) (d : Entry)
    → ltb max_total bytes ≡ true
    → pop_oldest items ≡ some (left, d)
    → shrink max_total (suc fuel) items bytes
      ≡ shrink max_total fuel left (bytes - length d.data_bytes)
unfolding shrink
shrink_round max_total fuel bytes items left d e m = rw (e, m, shrink) refl

shrink-Shrunk :
    (max_total fuel : ℕ) (items : Items) → length items ≤ fuel → Shrunk max_total fuel items
unfolding shrink
shrink-Shrunk max_total zero [] h = record {
  left = [];
  result = ground arith;
  within = omega arith;
}
shrink-Shrunk max_total zero (item ∷ items) h = absurd (omega (arith, h))
shrink-Shrunk max_total (suc fuel) [] h = record {
  left = [];
  result = ground arith;
  within = omega arith;
}
shrink-Shrunk max_total (suc fuel) (item ∷ items) h =
    elim (Bool-cases (ltb max_total (total_bytes (item ∷ items)))) [
      | inr e ↦ record { left = item ∷ items; result = rw e refl; within = ground (arith, e) }
      | inl e ↦
          let (left, d, m, b, l) = pop_oldest_bytes item items in
          let smaller = shrink-Shrunk max_total fuel left (omega (arith, h, l)) in
          record {
            left = smaller.left;
            result =
                shrink_round max_total fuel (total_bytes (item ∷ items)) (item ∷ items) left d e m
                ∙ ap (shrink max_total fuel left) (omega (arith, b))
                ∙ smaller.result;
            within = smaller.within;
          }
    ]

look_up-Counts :
    (limits : Limits) (chosen : Variant) (c : Cache)
    → Counts limits.max_total c
    → Counts limits.max_total (look_up limits chosen c).0
unfolding look_up
look_up-Counts limits chosen c h = elim (Bool-cases (cacheable limits chosen)) [
  | inr e ↦ rw (e, look_up) h
  | inl e ↦ elim (Option-cases (take_out chosen.path c.content)) [
    | inl m ↦ rw (e, look_up) (rw (m, look_up) h)
    | inr (found, m) ↦
        let bytes = take_out_bytes chosen.path c.content {e = found.0} {rest = found.1} m in
        elim (Bool-cases
          (length found.0.data_bytes == chosen.size && found.0.mtime == chosen.mtime)) [
            | inl k ↦
                rw (e, look_up)
                  (rw (m, look_up)
                    (rw k
                      (record { counted = omega (arith, bytes, h.counted); within = h.within })))
            | inr k ↦
                rw (e, look_up)
                  (rw (m, look_up)
                    (rw k (record {
                      counted = omega (arith, bytes, h.counted);
                      within = omega (arith, h.within);
                    })))
          ]
  ]
]

-- What is held after a put, by what was held under the key.
put_bytes :
    (key : Bytes) (value : Entry) (items : Items)
    → total_bytes (lru_put key value items)
      ≡ total_bytes items - old_size (lru_find key items).1 + length value.data_bytes
unfolding lru_put lru_find
put_bytes key value items = elim (Option-cases (take_out key items)) [
  | inl m ↦ rw (m, lru_put, lru_find) (omega arith)
  | inr (found, m) ↦
      rw (m, lru_put, lru_find)
        (omega (arith, take_out_bytes key items {e = found.0} {rest = found.1} m))
]

pub store-Counts :
    (limits : Limits) (chosen : Variant) (loaded : Bytes) (c : Cache)
    → Counts limits.max_total c
    → (c' : Cache) × (store_content limits chosen loaded c ≡ some c') × Counts limits.max_total c'
unfolding store_content
store-Counts limits chosen loaded c h =
    let entry : Entry = record { data_bytes = loaded; mtime = chosen.mtime } in
    let items = lru_put chosen.path entry c.content in
    let smaller = shrink-Shrunk limits.max_total (length items) items (omega arith) in
    let bytes : c.content_bytes - old_size (lru_find chosen.path c.content).1 + length loaded
        ≡ total_bytes items =
      ap (λ n. n - old_size (lru_find chosen.path c.content).1 + length loaded) h.counted
      ∙ sym (put_bytes chosen.path entry c.content) in
    (
      record c {
        content = smaller.left;
        content_bytes = total_bytes smaller.left;
        memory_loads = suc c.memory_loads;
      },
      ap (λ n. settled c (shrink limits.max_total (length items) items n)) bytes
          ∙ ap (settled c) smaller.result,
      record { counted = refl; within = smaller.within },
    )

step-Counts :
    (limits : Limits) (call : CacheCall) (c : Cache)
    → Counts limits.max_total c
    → (c' : Cache) × (cache_step limits call c ≡ some c') × Counts limits.max_total c'
unfolding cache_step
step-Counts limits (looks_up chosen) c h =
    ((look_up limits chosen c).0, refl, look_up-Counts limits chosen c h)
step-Counts limits (stores chosen loaded) c h = store-Counts limits chosen loaded c h

-- Whatever requests interleave on a cache that counts what it holds within the limit, no round of
-- the loop pops from an empty map, and the cache still counts what it holds within the limit.
pub cache_run-Counts :
    (limits : Limits) (calls : List CacheCall) (c : Cache)
    → Counts limits.max_total c
    → (c' : Cache) × (cache_run limits calls c ≡ some c') × Counts limits.max_total c'
unfolding cache_run
cache_run-Counts limits [] c h = (c, refl, h)
cache_run-Counts limits (call ∷ calls) c h =
    let (next, e, k) = step-Counts limits call c h in
    let (last, m, l) = cache_run-Counts limits calls next k in (last, rw (e, cache_run) m, l)
