-- ===== src/Handler/Conditional/Variants.antt =====
-- handler/htdocs.hpp: the variant that `select_variant` takes is the one the client likes best.
use boost_taar.Common.{
  ℕ, ◌≤◌, ◌<◌, ◌≡◌, refl, Bool, true, false, Option, none, some, List, [], ◌∷◌, arith, ltb, Bytes,
  codes, ◌⊎◌, inl, inr, Bool-cases, Option-cases, All,
}
use boost_taar.Core.AcceptEncoding.{accept_encoding_quality}
use boost_taar.Handler.Conditional.{or_zero, best_from, prefers_identity, select_variant}

-- The value stands in the list.
pub data Among {ℓ} {V : Type ℓ} (v : V) : List V → Type ℓ where
  first : {w : V} {ws : List V} → w ≡ v → Among v (w ∷ ws)
  later : {w : V} {ws : List V} → Among v ws → Among v (w ∷ ws)

not_preferred :
    (field : Bytes) (q : ℕ)
    → prefers_identity field q ≡ false
    → or_zero (accept_encoding_quality field (codes "identity")) ≤ q
unfolding prefers_identity
not_preferred field q e = elim (Option-cases (accept_encoding_quality field (codes "identity"))) [
  | inl m ↦ rw m (omega arith)
  | inr (r, m) ↦ rw m (ground (arith, e, m))
]

module _ {ℓ} {V : Type ℓ} (encoding : V → Bytes) where
  -- The quality that the field gives the variant's coding, 0 where it does not mention it.
  abbrev pub quality : Bytes → V → ℕ
  quality field v = or_zero (accept_encoding_quality field (encoding v))

  -- The variant is one of the list, acceptable, and none of the list has a higher quality; nor has
  -- identity by a mention of its own.
  pub record Best (field : Bytes) (others : List V) (v : V) : Type ℓ where
    pub listed : Among v others
    pub acceptable : 0 < quality field v
    pub highest : All (λ w. quality field w ≤ quality field v) others
    pub above_identity :
        or_zero (accept_encoding_quality field (codes "identity")) ≤ quality field v

  -- What the loop leaves: the start, or a variant that beats it and all of the list.
  data Loop (field : Bytes) (best : Option V) (best_q : ℕ) (vs : List V) (out : Option V × ℕ)
      : Type ℓ where
    unbeaten :
        out ≡ (best, best_q)
        → All (λ w. quality field w ≤ best_q) vs
        → Loop field best best_q vs out
    beaten :
        (v : V)
        → out ≡ (some v, quality field v)
        → best_q < quality field v
        → Among v vs
        → All (λ w. quality field w ≤ quality field v) vs
        → Loop field best best_q vs out

  best_from-Loop :
      (field : Bytes) (best : Option V) (best_q : ℕ) (vs : List V)
      → Loop field best best_q vs (best_from encoding field best best_q vs)
  unfolding best_from
  best_from-Loop field best best_q [] = unbeaten refl tt
  best_from-Loop field best best_q (v ∷ vs) = elim (Bool-cases (ltb best_q (quality field v))) [
    | inl e ↦ rw e (elim (best_from-Loop field (some v) (quality field v) vs) [
      | unbeaten m h ↦ beaten v m (ground (arith, e)) (first refl) (omega arith, h)
      | beaten w m lt a h ↦ beaten w m (ground (arith, e, lt)) (later a) (omega (arith, lt), h)
    ])
    | inr e ↦ rw e (elim (best_from-Loop field best best_q vs) [
      | unbeaten m h ↦ unbeaten m (ground (arith, e), h)
      | beaten w m lt a h ↦ beaten w m lt (later a) (ground (arith, e, lt), h)
    ])
  ]

  -- What `select_variant` returns is identity, or the variant with the highest quality, which is not
  -- 0 and not below that of identity where the field mentions it; a request for ranges and one with
  -- no Accept-Encoding get identity.
  pub select_variant-Best :
      (ranged : Bool) (accept : Option Bytes) (identity : V) (others : List V)
      → (select_variant encoding ranged accept identity others ≡ identity)
        ⊎ ((field : Bytes) × (accept ≡ some field)
            × (ranged ≡ false)
            × Best field others (select_variant encoding ranged accept identity others))
  unfolding select_variant
  select_variant-Best ranged none identity others = inl refl
  select_variant-Best true (some field) identity others = inl refl
  select_variant-Best false (some field) identity others =
      elim (best_from-Loop field none 0 others) [
        | unbeaten m h ↦ inl (rw (m, select_variant) refl)
        | beaten v m lt a h ↦ elim (Bool-cases (prefers_identity field (quality field v))) [
          | inl e ↦ inl (rw m (rw e refl))
          | inr e ↦ inr (
            field,
            refl,
            refl,
            rw m (
                rw e (record {
                  listed = a;
                  acceptable = lt;
                  highest = h;
                  above_identity = not_preferred field (quality field v) e;
                })),
          )
        ]
      ]
