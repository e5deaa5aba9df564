-- ===== src/Core/ContextStore/Held.antt =====
-- core/context_store.hpp: an entry that is in use stays under its key over a history of calls.
use boost_taar.Common.{
  ℕ, suc, ◌≡◌, ◌≢◌, refl, ◌∙◌, sym, Bool, true, false, none, List, [], ◌∷◌, arith, Option-cases,
  Bool-cases, inl, inr,
}
use mathlib.Core.Path.{subst}
use boost_taar.Core.AsyncLock.{async_acquire}
use boost_taar.Core.ContextStore.{
  Store, lookup, erase_key, expired, maybe_sweep, find_in, find, insert_new, live_at, emplace_in,
  emplace, draw_key, create, erase, sweep, start_lock, enter, leave, StoreCall, finds, emplaces,
  creates, erases, sweeps, starts_lock, enters, leaves, store_step, store_run,
}
use boost_taar.Core.ContextStore.Lookup.{
  lookup-erase_key_other, erase_key-Distinct, lookup-erase_key_same,
}
use boost_taar.Core.ContextStore.Expiry.{draw_key_unknown}
use boost_taar.Core.ContextStore.InUse.{
  Inv, Held, Spares, SparesAll, sweep_locked-Held, sweep_locked-Inv, maybe_sweep-Both, put-Both,
  touch-Both, insert_new-Both, other_key,
}

module _ {ℓ κ} {K : Type ℓ} {C : Type κ} (same : K → K → Bool)
    (same_refl : (k : K) → same k k ≡ true) (same_eq : (j k : K) → same j k ≡ true → j ≡ k) where
  erase-Both :
      (k key : K) (a : ℕ) (s : Store K C)
      → same k key ≡ false
      → Inv same s
      → Held same key a s
      → Inv same (record s { entries = erase_key same k s.entries })
        × Held same key a (record s { entries = erase_key same k s.entries })
  erase-Both k key a s n i h = (
    record {
      distinct = erase_key-Distinct same same_refl same_eq k s.entries i.distinct;
      made = λ j b e. elim (Bool-cases (same k j)) [
        | inl m ↦ absurd (
            cc (
              e,
              subst (λ x. lookup same x (erase_key same k s.entries) ≡ none) (same_eq k j m)
                  (lookup-erase_key_same same same_refl same_eq k s.entries),
            ))
        | inr m ↦
            i.made j b (sym (lookup-erase_key_other same same_refl same_eq k j s.entries m) ∙ e)
      ];
    },
    record {
      under = lookup-erase_key_other same same_refl same_eq k key s.entries n ∙ h.under;
      in_use = h.in_use;
    },
  )

  find_in-Both :
      (k key : K) (now a : ℕ) (s : Store K C)
      → Inv same s
      → Held same key a s
      → Inv same (find_in same k now s).0 × Held same key a (find_in same k now s).0
  unfolding find_in live_at
  find_in-Both k key now a s i h = elim (Option-cases (lookup same k s.entries)) [
    | inl e ↦ rw (e, find_in) (i, h)
    | inr (b, e) ↦ elim (Bool-cases (expired s now b)) [
      | inl m ↦
          rw (e, find_in)
            (rw m (
              erase-Both k key a s
                (other_key same same_refl same_eq k key now a s h (rw (e, live_at) (rw m refl))) i
                h))
      | inr m ↦ rw (e, find_in) (rw m (touch-Both same same_refl same_eq key now a b s i h))
    ]
  ]

  emplace_in-Both :
      (k key : K) (context : C) (now a : ℕ) (s : Store K C)
      → Inv same s
      → Held same key a s
      → Inv same (emplace_in same k context now s).0
        × Held same key a (emplace_in same k context now s).0
  unfolding emplace_in
  emplace_in-Both k key context now a s i h = elim (Option-cases (live_at same k now s)) [
    | inl e ↦
        rw (e, emplace_in)
          (insert_new-Both same same_refl same_eq k key context now a s
            (other_key same same_refl same_eq k key now a s h e) i h)
    | inr (b, e) ↦ rw (e, emplace_in) (touch-Both same same_refl same_eq key now a b s i h)
  ]

  create-Both :
      (drawn : List K) (key : K) (context : C) (now a : ℕ) (s : Store K C)
      → Inv same s
      → Held same key a s
      → Inv same (store_step same (creates drawn context now) s)
        × Held same key a (store_step same (creates drawn context now) s)
  unfolding store_step create insert_new
  create-Both drawn key context now a s i h =
      let swept = maybe_sweep now s in
      let (i', h') = maybe_sweep-Both same same_refl same_eq key now a s i h in
      elim (Option-cases (draw_key same now swept drawn)) [
        | inl e ↦ rw (e, create) (i', h')
        | inr (k, e) ↦
            rw (e, create)
              (insert_new-Both same same_refl same_eq k key context now a swept
                (other_key same same_refl same_eq k key now a swept h'
                  (draw_key_unknown same same_refl same_eq now swept drawn k e))
                i' h')
      ]

  step-Both :
      (c : StoreCall K C) (key : K) (a : ℕ) (s : Store K C)
      → Spares same key a c
      → Inv same s
      → Held same key a s
      → Inv same (store_step same c s) × Held same key a (store_step same c s)
  unfolding store_step find emplace erase sweep start_lock enter leave
  step-Both (finds k now) key a s n i h =
      let (i', h') = maybe_sweep-Both same same_refl same_eq key now a s i h in
      find_in-Both k key now a (maybe_sweep now s) i' h'
  step-Both (emplaces k context now) key a s n i h =
      let (i', h') = maybe_sweep-Both same same_refl same_eq key now a s i h in
      emplace_in-Both k key context now a (maybe_sweep now s) i' h'
  step-Both (creates drawn context now) key a s n i h = create-Both drawn key context now a s i h
  step-Both (erases k) key a s n i h = erase-Both k key a s n i h
  step-Both (sweeps now) key a s n i h = (
    sweep_locked-Inv same same_refl same_eq now s i,
    sweep_locked-Held same same_refl same_eq key now a s i h,
  )
  step-Both (starts_lock client b) key a s n i h =
      put-Both same same_refl same_eq key a b
        (record (s.heap b) { lock = (async_acquire client (s.heap b).lock).0 }) s
        (λ e. subst (λ x. (s.heap x).in_flight ≢ 0) e h.in_use) i h
  step-Both (enters b) key a s n i h =
      put-Both same same_refl same_eq key a b
        (record (s.heap b) { in_flight = suc (s.heap b).in_flight }) s (λ e. λ z. omega arith) i h
  step-Both (leaves now b) key a s n i h =
      put-Both same same_refl same_eq key a b _ s (λ e. absurd (n e)) i h

  -- Over any history of calls that neither erases the key nor releases the entry, an entry that is
  -- locked and in use stays under its key and in use, whatever expires, is swept or is created; the
  -- keys of the map stay distinct.
  pub store_run-Held :
      (cs : List (StoreCall K C)) (key : K) (a : ℕ) (s : Store K C)
      → SparesAll same key a cs
      → Inv same s
      → Held same key a s
      → Inv same (store_run same cs s) × Held same key a (store_run same cs s)
  unfolding store_run
  store_run-Held [] key a s n i h = (i, h)
  store_run-Held (c ∷ cs) key a s (n, ns) i h =
      let (i', h') = step-Both c key a s n i h in
      store_run-Held cs key a (store_step same c s) ns i' h'
