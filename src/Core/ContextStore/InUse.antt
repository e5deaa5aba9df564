-- ===== src/Core/ContextStore/InUse.antt =====
-- core/context_store.hpp: what keeps an entry in use under its key, change by change.
use boost_taar.Common.{
  ℕ, suc, ◌+◌, ◌/◌, ◌<◌, ◌≡◌, ◌≢◌, refl, ◌∙◌, ap, sym, Bool, true, false, Option, none, some, List,
  [], ◌∷◌, arith, ◌==◌, ==_iff, leb, Bool-cases, inl, inr,
}
use mathlib.Core.Path.{subst}
use boost_taar.Core.ContextStore.{
  Entry, Store, put_at, lookup, assign, entry_expired, expired, touch, sweep_locked, maybe_sweep,
  new_entry, insert_new, live_at, StoreCall, finds, emplaces, creates, erases, sweeps, starts_lock,
  enters, leaves, touched,
}
use boost_taar.Core.ContextStore.Lookup.{
  only_live, Distinct, lookup-keep_live, lookup-assign_same, lookup-assign_other,
  keep_live-Distinct, assign-Distinct,
}
use boost_taar.Core.ContextStore.Expiry.{live_at_lem}

module _ {ℓ κ} {K : Type ℓ} {C : Type κ} (same : K → K → Bool) where
  -- The keys of the map are distinct, and its addresses are those of entries that were made.
  pub record Inv (s : Store K C) : Type ℓ where
    pub distinct : Distinct same s.entries
    pub made : (key : K) (a : ℕ) → lookup same key s.entries ≡ some a → a < s.next_address

  -- The entry at the address is locked by somebody who works on it, and stands under the key.
  pub record Held (key : K) (a : ℕ) (s : Store K C) : Type 0 where
    pub under : lookup same key s.entries ≡ some a
    pub in_use : (s.heap a).in_flight ≢ 0

  -- The call neither erases the key nor releases the entry.
  abbrev pub Spares : K → ℕ → StoreCall K C → Type 0
  Spares key a (finds k now) = Unit
  Spares key a (emplaces k context now) = Unit
  Spares key a (creates drawn context now) = Unit
  Spares key a (erases k) = same k key ≡ false
  Spares key a (sweeps now) = Unit
  Spares key a (starts_lock client b) = Unit
  Spares key a (enters b) = Unit
  Spares key a (leaves now b) = a ≢ b

  abbrev pub SparesAll : K → ℕ → List (StoreCall K C) → Type 0
  SparesAll key a [] = Unit
  SparesAll key a (c ∷ cs) = Spares key a c × SparesAll key a cs

some_live :
    (dead : ℕ → Bool) (found : Option ℕ) (a : ℕ) → only_live dead found ≡ some a → found ≡ some a
some_live dead none a e = e
some_live dead (some b) a e = ground (arith, e)

put_at_other {ℓ} :
    {A : Type ℓ} (i j : ℕ) (v : A) (heap : ℕ → A) → j ≢ i → put_at i v heap j ≡ heap j
unfolding put_at
put_at_other i j v heap n = ground arith

module _ {ℓ κ} {K : Type ℓ} {C : Type κ} where
  -- A new value at an address that is in use at least as much.
  put_at_in_flight :
      (i j : ℕ) (v : Entry K C) (heap : ℕ → Entry K C)
      → (j ≡ i → v.in_flight ≢ 0)
      → (heap j).in_flight ≢ 0
      → (put_at i v heap j).in_flight ≢ 0
  unfolding put_at
  put_at_in_flight i j v heap f n = elim (Bool-cases (j == i)) [
    | inl e ↦ rw e (f ((==_iff j i).0 e))
    | inr e ↦ rw e n
  ]

  in_use_live : (s : Store K C) (now a : ℕ) → (s.heap a).in_flight ≢ 0 → expired s now a ≡ false
  unfolding expired entry_expired
  in_use_live s now a n = ground arith

module _ {ℓ κ} {K : Type ℓ} {C : Type κ} (same : K → K → Bool)
    (same_refl : (k : K) → same k k ≡ true) (same_eq : (j k : K) → same j k ≡ true → j ≡ k) where
  pub Held-live :
      (key : K) (now a : ℕ) (s : Store K C) → Held same key a s → live_at same key now s ≡ some a
  Held-live key now a s h =
      live_at_lem same same_refl same_eq key now s
      ∙ ap (only_live (expired s now)) h.under
      ∙ (rw (in_use_live s now a h.in_use) refl)

  pub sweep_locked-Held :
      (key : K) (now a : ℕ) (s : Store K C)
      → Inv same s
      → Held same key a s
      → Held same key a (sweep_locked now s)
  unfolding sweep_locked
  sweep_locked-Held key now a s i h = record {
    under =
        lookup-keep_live same same_refl same_eq (expired s now) key s.entries i.distinct
        ∙ ap (only_live (expired s now)) h.under
        ∙ (rw (in_use_live s now a h.in_use) refl);
    in_use = h.in_use;
  }

  pub sweep_locked-Inv : (now : ℕ) (s : Store K C) → Inv same s → Inv same (sweep_locked now s)
  unfolding sweep_locked
  sweep_locked-Inv now s i = record {
    distinct = keep_live-Distinct same same_refl same_eq (expired s now) s.entries i.distinct;
    made = λ key a e. i.made key a (
        some_live (expired s now) (lookup same key s.entries) a (
          sym (lookup-keep_live same same_refl same_eq (expired s now) key s.entries i.distinct)
          ∙ e));
  }

  pub maybe_sweep-Both :
      (key : K) (now a : ℕ) (s : Store K C)
      → Inv same s
      → Held same key a s
      → Inv same (maybe_sweep now s) × Held same key a (maybe_sweep now s)
  unfolding maybe_sweep
  maybe_sweep-Both key now a s i h =
      elim (Bool-cases (leb (s.last_sweep + s.idle_timeout / 4) now)) [
        | inl e ↦ rw e (sweep_locked-Inv now s i, sweep_locked-Held key now a s i h)
        | inr e ↦ rw e (i, h)
      ]

  -- Another value at an address, in use at least as much as the one before.
  pub put-Both :
      (key : K) (a b : ℕ) (v : Entry K C) (s : Store K C)
      → (a ≡ b → v.in_flight ≢ 0)
      → Inv same s
      → Held same key a s
      → Inv same (record s { heap = put_at b v s.heap })
        × Held same key a (record s { heap = put_at b v s.heap })
  put-Both key a b v s f i h = (
    record { distinct = i.distinct; made = i.made },
    record { under = h.under; in_use = put_at_in_flight b a v s.heap f h.in_use },
  )

  pub touch-Both :
      (key : K) (now a b : ℕ) (s : Store K C)
      → Inv same s
      → Held same key a s
      → Inv same (touch now b s) × Held same key a (touch now b s)
  unfolding touch
  touch-Both key now a b s i h =
      put-Both key a b (touched now (s.heap b)) s
        (λ e. subst (λ x. (s.heap x).in_flight ≢ 0) e h.in_use) i h

  assign_made :
      (k key : K) (b : ℕ) (s : Store K C)
      → Inv same s
      → lookup same key (assign same k s.next_address s.entries) ≡ some b
      → b < suc s.next_address
  assign_made k key b s i e = elim (Bool-cases (same k key)) [
    | inl m ↦
        let found = lookup-assign_same same same_refl same_eq k s.next_address s.entries in
        let found' =
          subst (λ x. lookup same x (assign same k s.next_address s.entries) ≡ some s.next_address)
            (same_eq k key m) found in
        let same_address : s.next_address ≡ b = cc (found', e) in omega (arith, same_address)
    | inr m ↦ omega (
      arith,
      i.made key b
          (sym (lookup-assign_other same same_refl same_eq k key s.next_address s.entries m) ∙ e),
    )
  ]

  pub insert_new-Both :
      (k key : K) (context : C) (now a : ℕ) (s : Store K C)
      → same k key ≡ false
      → Inv same s
      → Held same key a s
      → Inv same (insert_new same k context now s).0
        × Held same key a (insert_new same k context now s).0
  unfolding insert_new
  insert_new-Both k key context now a s n i h = (
    record {
      distinct = assign-Distinct same same_refl same_eq k s.next_address s.entries i.distinct;
      made = λ j b e. assign_made k j b s i e;
    },
    record {
      under = lookup-assign_other same same_refl same_eq k key s.next_address s.entries n ∙ h.under;
      in_use =
          rw
            (put_at_other s.next_address a (new_entry k context now) s.heap
              (λ e. absurd (omega (arith, e, i.made key a h.under))))
            h.in_use;
    },
  )

  -- A key that is not live is another key than the one held.
  pub other_key :
      (k key : K) (now a : ℕ) (s : Store K C)
      → Held same key a s
      → live_at same k now s ≡ none
      → same k key ≡ false
  other_key k key now a s h e = elim (Bool-cases (same k key)) [
    | inl m ↦
        absurd (
          cc
            (Held-live key now a s h, subst (λ x. live_at same x now s ≡ none) (same_eq k key m) e))
    | inr m ↦ m
  ]
