-- ===== src/Core/ContextStore/Expiry.antt =====
-- core/context_store.hpp: which keys are known, and for how long.
use boost_taar.Common.{
  ℕ, ◌+◌, ◌/◌, ◌≤◌, ◌≡◌, ◌≢◌, refl, ◌∙◌, ap, sym, Bool, true, Option, none, some, List, [], ◌∷◌,
  arith, ◌↔◌, ◌⊎◌, leb, Option-cases, Bool-cases, inl, inr, ==_refl,
}
use mathlib.Core.Path.{subst}
use boost_taar.Core.ContextStore.{
  Store, put_at, lookup, entry_expired, expired, touch, sweep_locked, maybe_sweep, find_in, find,
  insert_new, live_at, emplace_in, emplace, draw_key, create, peek,
}
use boost_taar.Core.ContextStore.Lookup.{
  only_live, Distinct, lookup-keep_live, lookup-assign_same, keep_live-Distinct, assign-Distinct,
}

put_at_same {ℓ} : {A : Type ℓ} (i : ℕ) (v : A) (heap : ℕ → A) → put_at i v heap i ≡ v
unfolding put_at
put_at_same i v heap = rw (==_refl i) refl

some_eq {ℓ} : {A : Type ℓ} {a b : A} → some a ≡ some b → a ≡ b
some_eq e = cc e

live_twice :
    (dead : ℕ → Bool) (found : Option ℕ)
    → only_live dead (only_live dead found) ≡ only_live dead found
live_twice dead none = refl
live_twice dead (some a) = ground arith

module _ {ℓ κ} {K : Type ℓ} {C : Type κ} (same : K → K → Bool)
    (same_refl : (k : K) → same k k ≡ true) (same_eq : (j k : K) → same j k ≡ true → j ≡ k) where
  pub live_at_lem :
      (key : K) (now : ℕ) (s : Store K C)
      → live_at same key now s ≡ only_live (expired s now) (lookup same key s.entries)
  unfolding live_at
  live_at_lem key now s = elim (Option-cases (lookup same key s.entries)) [
    | inl e ↦ rw (e, live_at) refl
    | inr (a, e) ↦ rw (e, live_at) refl
  ]

  -- A sweep does not change which entry a key has at that time.
  live_at-maybe_sweep :
      (key : K) (now : ℕ) (s : Store K C)
      → Distinct same s.entries
      → live_at same key now (maybe_sweep now s) ≡ live_at same key now s
  unfolding maybe_sweep sweep_locked expired
  live_at-maybe_sweep key now s d =
      elim (Bool-cases (leb (s.last_sweep + s.idle_timeout / 4) now)) [
        | inr e ↦ rw e refl
        | inl e ↦ rw e (
            live_at_lem key now (sweep_locked now s)
            ∙ ap (only_live (expired s now))
                (lookup-keep_live same same_refl same_eq (expired s now) key s.entries d)
            ∙ live_twice (expired s now) (lookup same key s.entries)
            ∙ sym (live_at_lem key now s))
      ]

  find_in_lem :
      (key : K) (now : ℕ) (s : Store K C) → (find_in same key now s).1 ≡ live_at same key now s
  unfolding find_in live_at
  find_in_lem key now s = ground arith

  -- `find` returns the entry that `peek` returns at the same time, although it sweeps first.
  pub find-peek :
      (key : K) (now : ℕ) (s : Store K C)
      → Distinct same s.entries
      → (find same key now s).1 ≡ peek same key now s
  unfolding find peek
  find-peek key now s d = find_in_lem key now (maybe_sweep now s) ∙ live_at-maybe_sweep key now s d

  maybe_sweep_timeout :
      (now : ℕ) (s : Store K C) → (maybe_sweep now s).idle_timeout ≡ s.idle_timeout
  unfolding maybe_sweep sweep_locked
  maybe_sweep_timeout now s = ground arith

  -- An entry that is touched is known for the idle timeout.
  live_at-touch :
      (key : K) (now later a : ℕ) (s : Store K C)
      → lookup same key s.entries ≡ some a
      → later ≤ s.idle_timeout + now
      → live_at same key later (touch now a s) ≡ some a
  unfolding live_at touch expired entry_expired put_at
  live_at-touch key now later a s e le = rw (e, live_at) (ground (arith, ==_refl a))

  -- So is an entry that is new.
  live_at-insert_new :
      (key : K) (context : C) (now later : ℕ) (s : Store K C)
      → later ≤ s.idle_timeout + now
      → live_at same key later (insert_new same key context now s).0 ≡ some s.next_address
  unfolding live_at insert_new expired entry_expired put_at
  live_at-insert_new key context now later s le =
      rw (lookup-assign_same same same_refl same_eq key s.next_address s.entries, live_at)
        (ground (arith, ==_refl s.next_address))

  live_found :
      (key : K) (now a : ℕ) (s : Store K C)
      → live_at same key now s ≡ some a
      → lookup same key s.entries ≡ some a
  unfolding live_at
  live_found key now a s e = ground (arith, e)

  -- A key that `find` or `emplace` has just returned stays known for the idle timeout.
  peek-emplace :
      (key : K) (context : C) (now later : ℕ) (s : Store K C)
      → later ≤ s.idle_timeout + now
      → peek same key later (emplace same key context now s).0
        ≡ some (emplace same key context now s).1
  unfolding peek emplace emplace_in insert_new
  peek-emplace key context now later s le =
      elim (Option-cases (live_at same key now (maybe_sweep now s))) [
        | inl e ↦
            rw (e, emplace_in)
              (live_at-insert_new key context now later (maybe_sweep now s)
                (rw (sym (maybe_sweep_timeout now s)) at le))
        | inr (a, e) ↦
            rw (e, emplace_in)
              (live_at-touch key now later a (maybe_sweep now s)
                (live_found key now a (maybe_sweep now s) e)
                (rw (sym (maybe_sweep_timeout now s)) at le))
      ]

  find_in-some :
      (key : K) (now a : ℕ) (s : Store K C)
      → live_at same key now s ≡ some a
      → find_in same key now s ≡ (touch now a s, some a)
  unfolding find_in live_at
  find_in-some key now a s e = ground (arith, e)

  peek-find :
      (key : K) (now later a : ℕ) (s : Store K C)
      → (find same key now s).1 ≡ some a
      → later ≤ s.idle_timeout + now
      → peek same key later (find same key now s).0 ≡ some a
  unfolding peek find
  peek-find key now later a s e le =
      let live = sym (find_in_lem key now (maybe_sweep now s)) ∙ e in
      rw (find_in-some key now a (maybe_sweep now s) live) (
        live_at-touch key now later a (maybe_sweep now s)
          (live_found key now a (maybe_sweep now s) live)
          (rw (sym (maybe_sweep_timeout now s)) at le))

  pub draw_key_unknown :
      (now : ℕ) (s : Store K C) (drawn : List K) (key : K)
      → draw_key same now s drawn ≡ some key
      → live_at same key now s ≡ none
  unfolding draw_key
  draw_key_unknown now s [] key e = ground arith
  draw_key_unknown now s (k ∷ drawn) key e = elim (Option-cases (live_at same k now s)) [
    | inl m ↦ subst (λ k. live_at same k now s ≡ none) (some_eq (rw (m, draw_key) at e)) m
    | inr (a, m) ↦ draw_key_unknown now s drawn key (rw (m, draw_key) at e)
  ]

  maybe_sweep-Distinct :
      (now : ℕ) (s : Store K C)
      → Distinct same s.entries
      → Distinct same (maybe_sweep now s).entries
  unfolding maybe_sweep sweep_locked
  maybe_sweep-Distinct now s d = elim (Bool-cases (leb (s.last_sweep + s.idle_timeout / 4) now)) [
    | inl e ↦ rw e (keep_live-Distinct same same_refl same_eq (expired s now) s.entries d)
    | inr e ↦ rw e d
  ]

  emplace-Distinct :
      (key : K) (context : C) (now : ℕ) (s : Store K C)
      → Distinct same s.entries
      → Distinct same (emplace same key context now s).0.entries
  unfolding emplace emplace_in insert_new touch
  emplace-Distinct key context now s d =
      elim (Option-cases (live_at same key now (maybe_sweep now s))) [
        | inl e ↦
            rw (e, emplace_in)
              (assign-Distinct same same_refl same_eq key (maybe_sweep now s).next_address _
                (maybe_sweep-Distinct now s d))
        | inr (a, e) ↦ rw (e, emplace_in) (maybe_sweep-Distinct now s d)
      ]

  -- If the keys of the map are distinct, `find` returns an entry exactly when the map has it under
  -- the key and it is locked, or was last used no longer ago than the idle timeout.
  pub find_iff :
      (key : K) (now a : ℕ) (s : Store K C)
      → Distinct same s.entries
      → ((find same key now s).1 ≡ some a) ↔ (
          (lookup same key s.entries ≡ some a)
          × (((s.heap a).in_flight ≢ 0) ⊎ (now ≤ s.idle_timeout + (s.heap a).last_activity)))
  unfolding expired entry_expired peek
  find_iff key now a s d =
      rw (find-peek key now s d, live_at_lem key now s, peek)
        (elim (Option-cases (lookup same key s.entries)) [
          | inl e ↦ rw e (ground arith)
          | inr (b, e) ↦ rw e (ground (arith, e))
        ])

  -- If the keys of the map are distinct, then whatever the time of `emplace`, a `find` of the key no
  -- later than the idle timeout after it returns the entry that `emplace` returned.
  pub find-emplace :
      (key : K) (context : C) (now later : ℕ) (s : Store K C)
      → Distinct same s.entries
      → later ≤ s.idle_timeout + now
      → (find same key later (emplace same key context now s).0).1
        ≡ some (emplace same key context now s).1
  find-emplace key context now later s d le =
      find-peek key later (emplace same key context now s).0 (emplace-Distinct key context now s d)
      ∙ peek-emplace key context now later s le

  -- If the keys of the map are distinct and one of the keys drawn is taken, `create` returns a key
  -- that was unknown at that time, and the new entry is known under it for the idle timeout.
  pub create_lem :
      (drawn : List K) (context : C) (now later : ℕ) (s s' : Store K C) (key : K) (a : ℕ)
      → Distinct same s.entries
      → create same drawn context now s ≡ some (key, s', a)
      → later ≤ s.idle_timeout + now
      → (peek same key now s ≡ none) × (peek same key later s' ≡ some a)
  unfolding create peek insert_new
  create_lem drawn context now later s s' key a d e le =
      elim (Option-cases (draw_key same now (maybe_sweep now s) drawn)) [
        | inl m ↦ absurd (cc (rw (m, create) at e))
        | inr (k, m) ↦
            let p : (
              k,
              (insert_new same k context now (maybe_sweep now s)).0,
              (maybe_sweep now s).next_address,
            )
                ≡ (key, s', a) =
              some_eq (rw (m, create) at e) in
            (
              subst (λ x. live_at same x now s ≡ none) (ap (λ t. t.0) p)
                  (sym (live_at-maybe_sweep k now s d)
                    ∙ draw_key_unknown now (maybe_sweep now s) drawn k m),
              rw (sym (ap (λ t. t.0) p), sym (ap (λ t. t.1) p), sym (ap (λ t. t.2) p))
                  (live_at-insert_new k context now later (maybe_sweep now s)
                    (rw (sym (maybe_sweep_timeout now s)) at le)),
            )
      ]
