-- ===== src/Core/Mime/LookUp.antt =====
-- core/mime.hpp: bisection finds in a sorted table what a search from the front finds.
use boost_taar.Common.{
  ℕ, zero, suc, ◌+◌, ◌-◌, ◌/◌, ◌≤◌, ◌<◌, ◌≡◌, refl, ◌∙◌, ap, sym, true, false, [], ◌∷◌, arith, ◌==◌,
  if◌then◌else◌, length, drop, is_empty, Bytes, beq, beq_iff, ==_iff, All, Bool-cases, inl, inr,
}
use mathlib.Core.Path.{subst}
use boost_taar.Core.Mime.{
  less, Rows, mime_table_sorted, lower_bound, file_extension, row_type, mime_type_in,
}
use boost_taar.Core.Mime.Table.{mime_table, mime_type_for}

less_trans : (a b c : Bytes) → less a b ≡ true → less b c ≡ true → less a c ≡ true
unfolding less
less_trans [] [] c h k = absurd (cc h)
less_trans [] (y ∷ b) [] h k = absurd (cc k)
less_trans [] (y ∷ b) (z ∷ c) h k = refl
less_trans (x ∷ a) [] c h k = absurd (cc h)
less_trans (x ∷ a) (y ∷ b) [] h k = absurd (cc k)
less_trans (x ∷ a) (y ∷ b) (z ∷ c) h k = ground (arith, h, k, less_trans a b c)

less_irrefl : (a : Bytes) → less a a ≡ false
unfolding less
less_irrefl [] = refl
less_irrefl (x ∷ a) = ground (arith, less_irrefl a)

less_total : (a b : Bytes) → less a b ≡ false → beq a b ≡ false → less b a ≡ true
unfolding less
less_total [] [] h k = absurd (cc k)
less_total [] (y ∷ b) h k = absurd (cc h)
less_total (x ∷ a) [] h k = refl
less_total (x ∷ a) (y ∷ b) h k = ground (arith, h, k, less_total a b)

-- Each key is less than all that follow.
abbrev Ascends : Rows → Type 0
Ascends [] = Unit
Ascends (row ∷ rows) = All (λ r. less row.0 r.0 ≡ true) rows × Ascends rows

above-All :
    (k j : Bytes) (rows : Rows)
    → less k j ≡ true
    → All (λ r. less j r.0 ≡ true) rows
    → All (λ r. less k r.0 ≡ true) rows
above-All k j [] e h = tt
above-All k j (r ∷ rows) e (h, hs) = (less_trans k j r.0 e h, above-All k j rows e hs)

sorted-Ascends : (rows : Rows) → mime_table_sorted rows ≡ true → Ascends rows
unfolding mime_table_sorted
sorted-Ascends [] h = tt
sorted-Ascends (a ∷ []) h = (tt, tt)
sorted-Ascends (a ∷ b ∷ rows) h =
    let rest = sorted-Ascends (b ∷ rows) (ground (arith, h)) in
    let e : less a.0 b.0 ≡ true = ground (arith, h) in ((e, above-All a.0 b.0 rows e rest.0), rest)

-- The rows from the first one that is not less than the key.
abbrev drop_less : Bytes → Rows → Rows
drop_less key [] = []
drop_less key (row ∷ rows) = if less row.0 key then drop_less key rows else row ∷ rows

abbrev Stops : Bytes → Rows → Type 0
Stops key [] = Unit
Stops key (row ∷ rows) = less row.0 key ≡ false

drop_less-Stops : (key : Bytes) (rows : Rows) → Stops key rows → drop_less key rows ≡ rows
drop_less-Stops key [] h = refl
drop_less-Stops key (row ∷ rows) h = rw h refl

head_eq : {r row : Bytes × Bytes} {rows rest : Rows} → r ∷ rows ≡ row ∷ rest → r ≡ row
head_eq e = cc e

tail_eq : {r row : Bytes × Bytes} {rows rest : Rows} → r ∷ rows ≡ row ∷ rest → rows ≡ rest
tail_eq e = cc e

above_dropped :
    (k : Bytes) (n : ℕ) (rows rest : Rows) (row : Bytes × Bytes)
    → All (λ r. less k r.0 ≡ true) rows
    → drop n rows ≡ row ∷ rest
    → less k row.0 ≡ true
above_dropped k zero [] rest row h e = absurd (cc e)
above_dropped k zero (r ∷ rows) rest row (h, hs) e = subst (λ x. less k x.0 ≡ true) (head_eq e) h
above_dropped k (suc n) [] rest row h e = absurd (cc e)
above_dropped k (suc n) (r ∷ rows) rest row (h, hs) e = above_dropped k n rows rest row hs e

-- Where a row is less than the key, so are all before it.
drop_less_past :
    (key : Bytes) (n : ℕ) (rows rest : Rows) (row : Bytes × Bytes)
    → Ascends rows
    → drop n rows ≡ row ∷ rest
    → less row.0 key ≡ true
    → (drop_less key rows ≡ drop_less key rest) × Ascends rest
drop_less_past key zero [] rest row h e l = absurd (cc e)
drop_less_past key zero (r ∷ rows) rest row (h, hs) e l =
    let below : less r.0 key ≡ true = subst (λ x. less x.0 key ≡ true) (sym (head_eq e)) l in
    ((rw below (ap (drop_less key) (tail_eq e))), subst Ascends (tail_eq e) hs)
drop_less_past key (suc n) [] rest row h e l = absurd (cc e)
drop_less_past key (suc n) (r ∷ rows) rest row (h, hs) e l =
    let (same, asc) = drop_less_past key n rows rest row hs e l in
    ((rw (less_trans r.0 row.0 key (above_dropped r.0 n rows rest row h e) l) same), asc)

drop_cons :
    (n : ℕ) (rows : Rows)
    → n < length rows
    → (row : Bytes × Bytes) × (rest : Rows) × (drop n rows ≡ row ∷ rest)
      × (length rest + n + 1 ≡ length rows)
drop_cons n [] h = absurd (omega (arith, h))
drop_cons zero (r ∷ rows) h = (r, rows, refl, omega arith)
drop_cons (suc n) (r ∷ rows) h =
    let (row, rest, e, l) = drop_cons n rows (omega (arith, h)) in (row, rest, e, omega (arith, l))

drop_further :
    (n m k : ℕ) (rows rest : Rows) (row : Bytes × Bytes)
    → k ≡ n + m + 1
    → drop n rows ≡ row ∷ rest
    → drop m rest ≡ drop k rows
drop_further zero m k [] rest row s e = absurd (cc e)
drop_further zero m k (r ∷ rows) rest row s e =
    let one_more : suc m ≡ k = omega (arith, s) in
    ap (drop m) (sym (tail_eq e)) ∙ ap (λ j. drop j (r ∷ rows)) one_more
drop_further (suc n) m k [] rest row s e = absurd (cc e)
drop_further (suc n) m zero (r ∷ rows) rest row s e = absurd (omega (arith, s))
drop_further (suc n) m (suc k) (r ∷ rows) rest row s e =
    drop_further n m k rows rest row (omega (arith, s)) e

-- Bisection finds the first row that is not less than the key.
lower_bound-drop_less :
    (key : Bytes) (fuel n : ℕ) (rows : Rows)
    → Ascends rows
    → n < fuel
    → n ≤ length rows
    → Stops key (drop n rows)
    → lower_bound key fuel n rows ≡ drop_less key rows
unfolding lower_bound
lower_bound-drop_less key zero n rows a lt le stop = absurd (omega (arith, lt))
lower_bound-drop_less key (suc fuel) n rows a lt le stop = elim (Bool-cases (n == 0)) [
  | inl e ↦ rw e (
      sym (drop_less-Stops key rows (subst (λ m. Stops key (drop m rows)) ((==_iff n 0).0 e) stop)))
  | inr e ↦
      let (row, rest, d, l) = drop_cons (n / 2) rows (ground (arith, e, le)) in
      rw (e, d, lower_bound)
        (elim (Bool-cases (less row.0 key)) [
          | inl m ↦
              let (same, asc) = drop_less_past key (n / 2) rows rest row a d m in
              rw m (
                lower_bound-drop_less key fuel (n - n / 2 - 1) rest asc (ground (arith, e, lt))
                  (omega (arith, l, le))
                  (subst (Stops key)
                    (sym
                      (drop_further (n / 2) (n - n / 2 - 1) n rows rest row (ground (arith, e)) d))
                    stop)
                ∙ sym same)
          | inr m ↦ rw m (
              lower_bound-drop_less key fuel (n / 2) rows a (ground (arith, e, lt))
                (omega (arith, le)) (rw d m))
        ])
]

-- The type in the row whose extension it is.
abbrev pub type_of : Bytes → Rows → Bytes
type_of ext [] = []
type_of ext ((e, type) ∷ rows) = if beq e ext then type else type_of ext rows

type_of_none :
    (ext : Bytes) (rows : Rows) → All (λ r. less ext r.0 ≡ true) rows → type_of ext rows ≡ []
type_of_none ext [] h = refl
type_of_none ext ((e, type) ∷ rows) (h, hs) = elim (Bool-cases (beq e ext)) [
  | inl m ↦ absurd (cc (less_irrefl ext, subst (λ x. less ext x ≡ true) ((beq_iff e ext).0 m) h))
  | inr m ↦ rw m (type_of_none ext rows hs)
]

row_type-drop_less :
    (ext : Bytes) (rows : Rows)
    → Ascends rows
    → row_type ext (drop_less ext rows) ≡ type_of ext rows
row_type-drop_less ext [] h = refl
row_type-drop_less ext ((e, type) ∷ rows) (h, hs) = elim (Bool-cases (less e ext)) [
  | inl m ↦ elim (Bool-cases (beq e ext)) [
    | inl k ↦ absurd (cc (less_irrefl ext, subst (λ x. less x ext ≡ true) ((beq_iff e ext).0 k) m))
    | inr k ↦ rw (m, k) (row_type-drop_less ext rows hs)
  ]
  | inr m ↦ elim (Bool-cases (beq e ext)) [
    | inl k ↦ rw (m, k) refl
    | inr k ↦
        rw (m, k) (sym (type_of_none ext rows (above-All ext e rows (less_total e ext m k) h)))
  ]
]

table_sorted : mime_table_sorted mime_table ≡ true
unfolding mime_table_sorted less
table_sorted = refl

-- For every file name, `mime_type_for` finds by bisection the type that the table has for its
-- extension, and nothing where the extension is empty or the table has no row for it.
pub mime_type_for_lem :
    (filename : Bytes)
    → mime_type_for filename ≡ (
        if is_empty (file_extension filename)
        then []
        else type_of (file_extension filename) mime_table)
unfolding mime_type_for mime_type_in
mime_type_for_lem filename = elim (Bool-cases (is_empty (file_extension filename))) [
  | inl e ↦ rw e refl
  | inr e ↦ rw e (
      ap (row_type (file_extension filename)) (
        lower_bound-drop_less (file_extension filename) (suc (length mime_table))
          (length mime_table) mime_table (sorted-Ascends mime_table table_sorted) (omega arith)
          (omega arith) tt)
      ∙ row_type-drop_less (file_extension filename) mime_table
          (sorted-Ascends mime_table table_sorted))
]
