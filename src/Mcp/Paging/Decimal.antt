-- ===== src/Mcp/Paging/Decimal.antt =====
-- mcp/endpoint.hpp: a number that is written as a cursor is read back.
use boost_taar.Common.{
  ℕ, zero, suc, ◌+◌, ◌-◌, ◌*◌, ◌/◌, ◌%◌, ◌<◌, ◌≤◌, ◌≡◌, refl, ap, ◌∙◌, inl, inr, true, false, some,
  [], ◌∷◌, Bytes, ltb, leb, between, ◌==◌, Bool-cases, arith,
}
use boost_taar.Mcp.Paging.{
  put_digits, to_string, read_digits, max_ull, starts_digit, strtoull, is_c_space, start_of,
  clamped, starts_nul,
}

digit_lem : (n : ℕ) → n < 10 → (between b'0' b'9' (b'0' + n) ≡ true) × (b'0' + n - b'0' ≡ n)
digit_lem n h = (ground (arith, h), omega arith)

read_digits-digit :
    (v n : ℕ) (rest : Bytes)
    → n < 10
    → read_digits v ((b'0' + n) ∷ rest) ≡ read_digits (v * 10 + n) rest
unfolding read_digits
read_digits-digit v n rest h = let (inside, value) = digit_lem n h in rw (inside, value) refl

read_digits-put_digits :
    (fuel n : ℕ) (rest : Bytes)
    → n < fuel
    → read_digits 0 (put_digits fuel n rest) ≡ read_digits n rest
unfolding put_digits
read_digits-put_digits zero n rest h = elim h [ ]
read_digits-put_digits (suc fuel) n rest h = elim (Bool-cases (ltb n 10)) [
  | inl e ↦
      rw e (
        read_digits-digit 0 n rest (ground (arith, e)) ∙ ap (λ v. read_digits v rest) (omega arith))
  | inr e ↦
      let large : 10 ≤ n = ground (arith, e) in
      rw e (
        read_digits-put_digits fuel (n / 10) ((b'0' + n % 10) ∷ rest) (omega (arith, h, large))
        ∙ read_digits-digit (n / 10) (n % 10) rest (omega arith)
        ∙ ap (λ v. read_digits v rest) (omega arith))
]

starts-put_digits :
    (fuel n : ℕ) (rest : Bytes) → n < fuel → starts_digit (put_digits fuel n rest) ≡ true
unfolding put_digits
starts-put_digits zero n rest h = elim h [ ]
starts-put_digits (suc fuel) n rest h = elim (Bool-cases (ltb n 10)) [
  | inl e ↦ rw e ((digit_lem n (ground (arith, e))).0)
  | inr e ↦
      let large : 10 ≤ n = ground (arith, e) in
      rw e (starts-put_digits fuel (n / 10) ((b'0' + n % 10) ∷ rest) (omega (arith, h, large)))
]

no_sign :
    (c : ℕ)
    → between b'0' b'9' c ≡ true
    → (is_c_space c ≡ false) × ((c == b'-') ≡ false) × ((c == b'+') ≡ false) × ((c == 0) ≡ false)
no_sign c h = (ground (arith, h), ground (arith, h), ground (arith, h), ground (arith, h))

strtoull_digits :
    (s : Bytes) → starts_digit s ≡ true → strtoull s ≡ some (clamped (read_digits 0 s))
unfolding strtoull
strtoull_digits [] h = cc h
strtoull_digits (c ∷ s) h =
    let (space, minus, plus, nul) = no_sign c h in rw (space, minus, plus, h) refl

no_nul : (s : Bytes) → starts_digit s ≡ true → starts_nul s ≡ false
no_nul [] h = refl
no_nul (c ∷ s) h = (no_sign c h).3

-- A start within the list, written and read.
pub start_of-to_string :
    (size start : ℕ)
    → size ≤ max_ull
    → start ≤ size
    → start_of size (to_string start) (strtoull (to_string start)) ≡ some start
unfolding to_string read_digits
start_of-to_string size start small le =
    let text = put_digits (suc start) start [] in
    let fits : ltb max_ull start ≡ false = ground (arith, small, le) in
    let inside : leb start size ≡ true = ground (arith, le) in
    let read : strtoull text ≡ some (start, []) =
      strtoull_digits text (starts-put_digits (suc start) start [] (omega arith))
      ∙ ap (λ r. some (clamped r)) (read_digits-put_digits (suc start) start [] (omega arith))
      ∙ rw fits refl in
    rw (read, inside) refl
