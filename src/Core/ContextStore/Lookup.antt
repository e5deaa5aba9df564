-- ===== src/Core/ContextStore/Lookup.antt =====
-- core/context_store.hpp: what a look-up in the map finds after each change of the map.
use boost_taar.Common.{
  ℕ, ◌≡◌, refl, ◌∙◌, ap, sym, Bool, true, false, Option, none, some, List, [], ◌∷◌, arith,
  if◌then◌else◌, Bool-cases, inl, inr,
}
use mathlib.Core.Path.{subst}
use boost_taar.Core.ContextStore.{lookup, erase_key, assign, keep_live}

-- What is left of a look-up where the dead addresses are gone.
abbrev pub only_live : (ℕ → Bool) → Option ℕ → Option ℕ
only_live dead none = none
only_live dead (some a) = if dead a then none else some a

module _ {ℓ} {K : Type ℓ} (same : K → K → Bool) where
  -- No two entries of the map have the same key.
  abbrev pub Distinct : List (K × ℕ) → Type 0
  Distinct [] = Unit
  Distinct ((k, a) ∷ rest) = (lookup same k rest ≡ none) × Distinct rest

module _ {ℓ} {K : Type ℓ} (same : K → K → Bool) (same_refl : (k : K) → same k k ≡ true)
    (same_eq : (j k : K) → same j k ≡ true → j ≡ k) where
  differs : (k key other : K) → same key other ≡ false → same k key ≡ true → same k other ≡ false
  differs k key other e m = subst (λ x. same x other ≡ false) (sym (same_eq k key m)) e

  same_sym : (j k : K) → same j k ≡ false → same k j ≡ false
  same_sym j k e = elim (Bool-cases (same k j)) [
    | inl m ↦ absurd (cc (e, subst (λ x. same x k ≡ true) (same_eq k j m) (same_refl k)))
    | inr m ↦ m
  ]

  lookup_nil : (k : K) → lookup same k [] ≡ none
  unfolding lookup
  lookup_nil k = refl

  pub lookup-keep_live :
      (dead : ℕ → Bool) (key : K) (l : List (K × ℕ))
      → Distinct same l
      → lookup same key (keep_live dead l) ≡ only_live dead (lookup same key l)
  unfolding lookup keep_live
  lookup-keep_live dead key [] h = refl
  lookup-keep_live dead key ((k, a) ∷ rest) (h, hs) =
      ground (arith, lookup-keep_live dead key rest hs, absent)
    where
      absent : same k key ≡ true → lookup same key rest ≡ none
      absent e = subst (λ x. lookup same x rest ≡ none) (same_eq k key e) h

  pub lookup-assign_same :
      (key : K) (a : ℕ) (l : List (K × ℕ)) → lookup same key (assign same key a l) ≡ some a
  unfolding lookup assign
  lookup-assign_same key a [] = rw (same_refl key) refl
  lookup-assign_same key a ((k, b) ∷ rest) = ground (arith, lookup-assign_same key a rest)

  pub lookup-assign_other :
      (key other : K) (a : ℕ) (l : List (K × ℕ))
      → same key other ≡ false
      → lookup same other (assign same key a l) ≡ lookup same other l
  unfolding lookup assign
  lookup-assign_other key other a [] e = rw e refl
  lookup-assign_other key other a ((k, b) ∷ rest) e =
      ground (arith, e, differs k key other e, lookup-assign_other key other a rest e)

  pub lookup-erase_key_other :
      (key other : K) (l : List (K × ℕ))
      → same key other ≡ false
      → lookup same other (erase_key same key l) ≡ lookup same other l
  unfolding lookup erase_key
  lookup-erase_key_other key other [] e = refl
  lookup-erase_key_other key other ((k, b) ∷ rest) e =
      ground (arith, e, differs k key other e, lookup-erase_key_other key other rest e)

  pub keep_live-Distinct :
      (dead : ℕ → Bool) (l : List (K × ℕ)) → Distinct same l → Distinct same (keep_live dead l)
  unfolding keep_live
  keep_live-Distinct dead [] h = tt
  keep_live-Distinct dead ((k, a) ∷ rest) (h, hs) = elim (Bool-cases (dead a)) [
    | inl e ↦ rw e (keep_live-Distinct dead rest hs)
    | inr e ↦
        rw e
          (lookup-keep_live dead k rest hs ∙ ap (only_live dead) h, keep_live-Distinct dead rest hs)
  ]

  pub assign-Distinct :
      (key : K) (a : ℕ) (l : List (K × ℕ)) → Distinct same l → Distinct same (assign same key a l)
  unfolding assign
  assign-Distinct key a [] h = (lookup_nil key, tt)
  assign-Distinct key a ((k, b) ∷ rest) (h, hs) = elim (Bool-cases (same k key)) [
    | inl e ↦ rw e (h, hs)
    | inr e ↦
        rw e
          (lookup-assign_other key k a rest (same_sym k key e) ∙ h, assign-Distinct key a rest hs)
  ]

  pub erase_key-Distinct :
      (key : K) (l : List (K × ℕ)) → Distinct same l → Distinct same (erase_key same key l)
  unfolding erase_key
  erase_key-Distinct key [] h = tt
  erase_key-Distinct key ((k, b) ∷ rest) (h, hs) = elim (Bool-cases (same k key)) [
    | inl e ↦ rw e (erase_key-Distinct key rest hs)
    | inr e ↦
        rw e
          (lookup-erase_key_other key k rest (same_sym k key e) ∙ h, erase_key-Distinct key rest hs)
  ]

  pub lookup-erase_key_same :
      (key : K) (l : List (K × ℕ)) → lookup same key (erase_key same key l) ≡ none
  unfolding lookup erase_key
  lookup-erase_key_same key [] = refl
  lookup-erase_key_same key ((k, b) ∷ rest) = ground (arith, lookup-erase_key_same key rest)
