-- ===== src/Core/HttpDate/Calendar.antt =====
-- core/http_date.hpp: the conversions of std::chrono between a count of days and a civil date that
-- it uses, `year_month_day {days}`, `sys_days {ymd}` and `ymd.ok()`. Days count from 0000-01-01.
use boost_taar.Common.{
  ℕ, zero, suc, ◌+◌, ◌-◌, ◌%◌, ◌≤◌, ◌<◌, ◌≡◌, refl, ◌∙◌, inl, inr, Bool, true, not, ◌&&◌, ◌||◌,
  List, [], ◌∷◌, ◌==◌, if◌then◌else◌, ltb, between, length, arith, Bool-cases,
}

pub record CivilDate : Type 0 where
  pub year : ℕ
  pub month : ℕ
  pub day : ℕ

abbrev pub is_leap : ℕ → Bool
is_leap y = y % 4 == 0 && (not (y % 100 == 0) || y % 400 == 0)

abbrev pub february : ℕ → ℕ
february y = if is_leap y then 29 else 28

abbrev pub month_lengths : ℕ → List ℕ
month_lengths y = 31 ∷ february y ∷ 31 ∷ 30 ∷ 31 ∷ 30 ∷ 31 ∷ 31 ∷ 30 ∷ 31 ∷ 30 ∷ 31 ∷ []

unfoldable pub year_length : ℕ → ℕ
year_length y = if is_leap y then 366 else 365

-- The year in which a day falls, and the day in it.
unfoldable pub year_from : ℕ → ℕ → ℕ → ℕ × ℕ
year_from zero y d = (y, d)
year_from (suc fuel) y d =
    let rest = year_from fuel (suc y) (d - year_length y) in
    if ltb d (year_length y) then (y, d) else rest

unfoldable pub month_from : List ℕ → ℕ → ℕ → ℕ × ℕ
month_from [] mo d = (mo, d)
month_from (n ∷ ns) mo d =
    let rest = month_from ns (suc mo) (d - n) in if ltb d n then (mo, d) else rest

abbrev pub dated : ℕ → ℕ × ℕ → CivilDate
dated y (mo, rest) = record { year = y; month = mo; day = suc rest }

abbrev pub civil_in : ℕ × ℕ → CivilDate
civil_in (y, d) = dated y (month_from (month_lengths y) 1 d)

-- Every year has a day, so as many rounds as there are days, and one more, are enough.
unfoldable pub civil : ℕ → CivilDate
civil days = civil_in (year_from (suc days) 0 days)

unfoldable pub days_before : ℕ → ℕ
days_before zero = 0
days_before (suc y) = days_before y + year_length y

abbrev pub sum_first : ℕ → List ℕ → ℕ
sum_first zero ns = 0
sum_first (suc k) [] = 0
sum_first (suc k) (n ∷ ns) = n + sum_first k ns

abbrev pub nth : ℕ → List ℕ → ℕ
nth k [] = 0
nth zero (n ∷ ns) = n
nth (suc k) (n ∷ ns) = nth k ns

unfoldable pub days_of : CivilDate → ℕ
unfolding days_before
days_of c = days_before c.year + sum_first (c.month - 1) (month_lengths c.year) + (c.day - 1)

unfoldable pub date_ok : CivilDate → Bool
date_ok c = between 1 12 c.month && between 1 (nth (c.month - 1) (month_lengths c.year)) c.day

year_length_lem : (y : ℕ) → (year_length y ≡ sum_first 12 (month_lengths y)) × (0 < year_length y)
unfolding year_length
year_length_lem y = elim (Bool-cases (is_leap y)) [
  | inl e ↦ rw e (refl, omega arith)
  | inr e ↦ rw e (refl, omega arith)
]

year_from_lem :
    (fuel y d : ℕ)
    → d < fuel
    → (days_before (year_from fuel y d).0 + (year_from fuel y d).1 ≡ days_before y + d)
      × ((year_from fuel y d).1 < year_length (year_from fuel y d).0)
unfolding year_from days_before
year_from_lem zero y d h = elim h [ ]
year_from_lem (suc fuel) y d h = elim (Bool-cases (ltb d (year_length y))) [
  | inl e ↦ rw e (refl, ground arith)
  | inr e ↦
      let later : year_length y ≤ d = ground arith in
      let (sums, inside) =
        year_from_lem fuel (suc y) (d - year_length y) (omega (arith, (year_length_lem y).1)) in
      rw e (omega (arith, sums), inside)
]

month_from_lem :
    (ns : List ℕ) (mo d : ℕ)
    → d < sum_first (length ns) ns
    → (k : ℕ) × ((month_from ns mo d).0 ≡ mo + k)
      × (k < length ns)
      × (sum_first k ns + (month_from ns mo d).1 ≡ d)
      × ((month_from ns mo d).1 < nth k ns)
unfolding month_from
month_from_lem [] mo d h = elim h [ ]
month_from_lem (n ∷ ns) mo d h = elim (Bool-cases (ltb d n)) [
  | inl e ↦ rw e (0, omega arith, omega arith, omega arith, ground arith)
  | inr e ↦
      let (k, at, inside, sums, left) = month_from_lem ns (suc mo) (d - n) (ground arith) in
      rw e (suc k, omega arith, omega arith, ground arith, left)
]

in_ranges :
    (mo k rest n : ℕ)
    → mo ≡ 1 + k
    → k < 12
    → rest < n
    → (between 1 12 mo && between 1 n (suc rest)) ≡ true
in_ranges mo k rest n at few left = ground arith

civil_in_lem :
    (y d : ℕ)
    → d < year_length y
    → (days_of (civil_in (y, d)) ≡ days_before y + d) × (date_ok (civil_in (y, d)) ≡ true)
unfolding days_of date_ok
civil_in_lem y d h =
    let (k, at, few, sums, left) =
      month_from_lem (month_lengths y) 1 d (omega (arith, h, (year_length_lem y).0)) in
    let offset : (month_from (month_lengths y) 1 d).0 - 1 ≡ k = omega (arith, at) in
    (
      rw offset (omega (arith, sums)),
      rw offset (
          in_ranges (month_from (month_lengths y) 1 d).0 k (month_from (month_lengths y) 1 d).1
            (nth k (month_lengths y)) at few left),
    )

-- A count of days is a date that is ok, and the date is that count.
pub days_of-civil : (days : ℕ) → (days_of (civil days) ≡ days) × (date_ok (civil days) ≡ true)
unfolding civil days_before
days_of-civil days =
    let (sums, inside) = year_from_lem (suc days) 0 days (omega arith) in
    let r = year_from (suc days) 0 days in
    let (same, fine) = civil_in_lem r.0 r.1 inside in (same ∙ sums ∙ omega arith, fine)
