-- ===== src/Core/Base64/RoundTrip.antt =====
-- core/base64.hpp: decoding undoes encoding, and the sizes of both.
use boost_taar.Common.{
  if◌then◌else◌, ℕ, zero, suc, ◌+◌, ◌*◌, ◌/◌, ◌%◌, ◌^◌, ◌≤◌, ◌<◌, ◌≡◌, refl, Bool, true, false, not,
  ◌&&◌, Option, none, some, [], ◌∷◌, ◌++◌, arith, ◌==◌, All, All-append, length-append, length,
  is_empty, Bytes, Option-cases, inl, inr,
}
use boost_taar.Core.Base64.{digit, pad, encode, value, decode_group, decode_groups, decode}

abbrev pub IsByte : ℕ → Type 0
IsByte c = c < 256

-- The test passes at each sextet below the limit.
passes : (ℕ → Bool) → ℕ → Bool
passes test zero = true
passes test (suc limit) = if test limit then passes test limit else false

passes_at :
    (test : ℕ → Bool) (limit : ℕ) {v : ℕ} → v < limit → passes test limit ≡ true → test v ≡ true
unfolding passes
passes_at test zero lt h = absurd (omega arith)
passes_at test (suc limit) {v} lt h = ground (arith, passes_at test limit {v = v})

abbrev is_some_of : ℕ → Option ℕ → Bool
is_some_of v none = false
is_some_of v (some u) = u == v

digit_table : passes (λ v. is_some_of v (value (digit v)) && not (digit v == pad)) 64 ≡ true
unfolding passes digit value
digit_table = refl

digit_facts : (v : ℕ) → v < 64 → (is_some_of v (value (digit v)) && not (digit v == pad)) ≡ true
digit_facts v h = passes_at _ 64 h digit_table

value-digit : (v : ℕ) → v < 64 → value (digit v) ≡ some v
value-digit v h = ground (arith, digit_facts v h)

digit-ne-pad : (v : ℕ) → v < 64 → (digit v == pad) ≡ false
digit-ne-pad v h = ground (arith, digit_facts v h)

-- A group without padding, and the two that may end a text.
decode_group_full :
    (last : Bool) (a b c : ℕ)
    → IsByte a
    → IsByte b
    → IsByte c
    → (n : ℕ) → n ≡ a * 65536 + b * 256 + c
    → decode_group last
        (digit (n / 2 ^ 18 % 64))
        (digit (n / 2 ^ 12 % 64))
        (digit (n / 2 ^ 6 % 64))
        (digit (n / 2 ^ 0 % 64))
      ≡ some (a ∷ b ∷ c ∷ [])
unfolding decode_group
decode_group_full last a b c ha hb hc n e =
    rw
      (
        value-digit (n / 2 ^ 18 % 64) (omega arith),
        value-digit (n / 2 ^ 12 % 64) (omega arith),
        digit-ne-pad (n / 2 ^ 6 % 64) (omega arith),
        digit-ne-pad (n / 2 ^ 0 % 64) (omega arith),
        value-digit (n / 2 ^ 6 % 64) (omega arith),
        value-digit (n / 2 ^ 0 % 64) (omega arith),
      )
      (ground arith)

decode_group_two :
    (a b : ℕ)
    → IsByte a
    → IsByte b
    → (n : ℕ) → n ≡ a * 65536 + b * 256
    → decode_group true
        (digit (n / 2 ^ 18 % 64))
        (digit (n / 2 ^ 12 % 64))
        (digit (n / 2 ^ 6 % 64))
        pad
      ≡ some (a ∷ b ∷ [])
unfolding decode_group
decode_group_two a b ha hb n e =
    rw
      (
        value-digit (n / 2 ^ 18 % 64) (omega arith),
        value-digit (n / 2 ^ 12 % 64) (omega arith),
        digit-ne-pad (n / 2 ^ 6 % 64) (omega arith),
        value-digit (n / 2 ^ 6 % 64) (omega arith),
      )
      (ground arith)

decode_group_one :
    (a n : ℕ)
    → IsByte a
    → n ≡ a * 65536
    → decode_group true (digit (n / 2 ^ 18 % 64)) (digit (n / 2 ^ 12 % 64)) pad pad ≡ some (a ∷ [])
unfolding decode_group
decode_group_one a n ha e =
    rw (value-digit (n / 2 ^ 18 % 64) (omega arith), value-digit (n / 2 ^ 12 % 64) (omega arith))
      (ground arith)

-- The size of the encoded text: four characters for each group of three bytes begun.
pub length-encode : (s : Bytes) → length (encode s) ≡ (length s + 2) / 3 * 4
unfolding encode
length-encode [] = refl
length-encode (a ∷ []) = refl
length-encode (a ∷ b ∷ []) = refl
length-encode (a ∷ b ∷ c ∷ s) = omega (arith, length-encode s)

decode_groups-encode : (s : Bytes) → All IsByte s → decode_groups (encode s) ≡ some s
unfolding encode decode_groups
decode_groups-encode [] h = refl
decode_groups-encode (a ∷ []) h = rw (decode_group_one a _ h.0 refl)
decode_groups-encode (a ∷ b ∷ []) h = rw (decode_group_two a b h.0 h.1.0 _ refl)
decode_groups-encode (a ∷ b ∷ c ∷ s) h =
    rw (decode_group_full _ a b c h.0 h.1.0 h.1.1.0 _ refl, decode_groups-encode s h.1.1.1)

-- `base64_decode` undoes `base64_encode` on every sequence of bytes.
pub decode-encode : (s : Bytes) → All IsByte s → decode (encode s) ≡ some s
unfolding decode
decode-encode s h = ground (arith, length-encode s, decode_groups-encode s h)

decode_group-IsByte :
    (last : Bool) (x y z w : ℕ) {out : Bytes}
    → decode_group last x y z w ≡ some out
    → All IsByte out × (1 ≤ length out) × (length out ≤ 3) × ((last ≡ false) → length out ≡ 3)
unfolding decode_group
decode_group-IsByte last x y z w {out} h = ground arith

decode_group-append :
    (x y z w : ℕ) (s a b : Bytes)
    → decode_group (is_empty s) x y z w ≡ some a
    → All IsByte b
    → length s ≡ (length b + 2) / 3 * 4
    → All IsByte (a ++ b) × (length s + 4 ≡ (length (a ++ b) + 2) / 3 * 4)
decode_group-append x y z w [] a b g hb e =
    let (ha, lo, hi, _) = decode_group-IsByte true x y z w g in
    (All-append IsByte a b ha hb, omega (arith, length-append a b))
decode_group-append x y z w (c ∷ s) a b g hb e =
    let (ha, lo, hi, full) = decode_group-IsByte false x y z w g in
    (All-append IsByte a b ha hb, omega (arith, length-append a b, full refl))

decode_groups_sound :
    (t : Bytes) {out : Bytes}
    → decode_groups t ≡ some out
    → All IsByte out × (length t ≡ (length out + 2) / 3 * 4)
unfolding decode_groups
decode_groups_sound [] h = ground arith
decode_groups_sound (x ∷ []) h = cc
decode_groups_sound (x ∷ y ∷ []) h = cc
decode_groups_sound (x ∷ y ∷ z ∷ []) h = cc
decode_groups_sound (x ∷ y ∷ z ∷ w ∷ s) {out} h =
    elim (Option-cases (decode_group (is_empty s) x y z w)) [
      | inl e ↦ cc (rw e at h)
      | inr (a, e) ↦ elim (Option-cases (decode_groups s)) [
        | inl e' ↦ cc (rw (e, e') at h)
        | inr (b, e') ↦
            let (hb, size) = decode_groups_sound s e' in
            let same : a ++ b ≡ out = ground arith in
            rw (← same) (ground (arith, decode_group-append x y z w s a b))
      ]
    ]

-- What `base64_decode` accepts: its result is made of bytes, and the text has exactly the size
-- that the encoder gives a result of that length.
pub decode_sound :
    (t : Bytes) {out : Bytes}
    → decode t ≡ some out
    → All IsByte out × (length t ≡ (length out + 2) / 3 * 4)
unfolding decode
decode_sound t {out} h = ground (arith, decode_groups_sound t {out = out})
