-- ===== src/Core/HttpDate/Obsolete.antt =====
-- core/http_date.hpp: dates in the RFC 850 form, with the century of a two-digit year.
use boost_taar.Common.{
  ℕ, zero, suc, ◌+◌, ◌/◌, ◌%◌, ◌≤◌, ◌<◌, ◌≡◌, refl, ◌⊎◌, inl, inr, Bool, true, false, ◌&&◌, some,
  ◌∷◌, ◌++◌, length, drop, any, get_elem?, Bytes, codes, beq, cut, arith,
}
use boost_taar.Core.HttpDate.Calendar.{CivilDate, days_of, date_ok}
use boost_taar.Core.HttpDate.{
  http_date_long_days, or_nothing, ClockTime, seconds_of, http_date_make, two, month_name,
  clock_text, parse_rfc850, full_year, char_is, before_comma, parse_http_date,
}
use boost_taar.Core.HttpDate.Printed.{digits-two, month-name, clock-text, IsClock, day_below}

abbrev pub long_day_name : ℕ → Bytes
long_day_name wd = or_nothing (get_elem? http_date_long_days wd)

-- "Sunday, 06-Nov-94 08:49:37 GMT", behind the name of the day and in whole.
abbrev pub rfc850_rest : CivilDate → ClockTime → Bytes
rfc850_rest c t =
    codes ", "
    ++ (two c.day
        ++ (codes "-"
            ++ (month_name c.month
                ++ (codes "-"
                    ++ (two (c.year % 100) ++ (codes " " ++ clock_text t (codes " GMT")))))))

abbrev pub rfc850_text : ℕ → CivilDate → ClockTime → Bytes
rfc850_text wd c t = long_day_name wd ++ rfc850_rest c t

-- What the parser looks at before it reads the fields.
long-day-name :
    (wd : ℕ) (rest : Bytes)
    → wd < 7
    → (char_is 3 b',' (long_day_name wd ++ b',' ∷ rest) ≡ false)
      × (before_comma (long_day_name wd ++ b',' ∷ rest) ≡ some (long_day_name wd))
      × (any (beq (long_day_name wd)) http_date_long_days ≡ true)
      × (drop (length (long_day_name wd)) (long_day_name wd ++ b',' ∷ rest) ≡ b',' ∷ rest)
unfolding cut
long-day-name zero rest h = (refl, refl, refl, refl)
long-day-name (suc zero) rest h = (refl, refl, refl, refl)
long-day-name (suc (suc zero)) rest h = (refl, refl, refl, refl)
long-day-name (suc (suc (suc zero))) rest h = (refl, refl, refl, refl)
long-day-name (suc (suc (suc (suc zero)))) rest h = (refl, refl, refl, refl)
long-day-name (suc (suc (suc (suc (suc zero))))) rest h = (refl, refl, refl, refl)
long-day-name (suc (suc (suc (suc (suc (suc zero)))))) rest h = (refl, refl, refl, refl)
long-day-name (suc (suc (suc (suc (suc (suc (suc wd))))))) rest h = absurd (omega arith)

-- The year is in the century of the reader and at most fifty years ahead, or in the century before
-- and would be more than fifty years ahead in that of the reader.
abbrev pub InWindow : ℕ → ℕ → Type 0
InWindow now_year y =
    ((y / 100 ≡ now_year / 100) × (y ≤ now_year + 50))
    ⊎ ((y / 100 + 1 ≡ now_year / 100) × (now_year + 50 < y + 100))

full_year_lem : (now_year y : ℕ) → InWindow now_year y → full_year now_year (y % 100) ≡ y
unfolding full_year
full_year_lem now_year y (inl h) = ground (arith, h.0, h.1)
full_year_lem now_year y (inr h) = ground (arith, h.0, h.1)

parse_rfc850-rfc850_rest :
    (now_year : ℕ) (c : CivilDate) (t : ClockTime)
    → date_ok c ≡ true
    → IsClock t
    → InWindow now_year c.year
    → parse_rfc850 now_year (rfc850_rest c t) ≡ some (seconds_of (days_of c) t)
unfolding parse_rfc850 http_date_make
parse_rfc850-rfc850_rest now_year c t fine h window =
    let (day, month) = day_below c fine in
    let behind_year = codes " " ++ clock_text t (codes " GMT") in
    let behind_month = codes "-" ++ (two (c.year % 100) ++ behind_year) in
    let (x, y, z, name, read) = month-name c.month behind_month month in
    rw (digits-two c.day (codes "-" ++ (month_name c.month ++ behind_month)) day) (
      rw name (
        rw read (
          rw (digits-two (c.year % 100) behind_year (omega arith)) (
            rw (clock-text t (codes " GMT") h)
              (rw (full_year_lem now_year c.year window) (rw fine refl))))))

and-false : (b : Bool) → (b && false) ≡ false
and-false true = refl
and-false false = refl

-- A valid date and time in the RFC 850 form, under any name of a day, is parsed to its instant if
-- its year is in the century of the reader and at most fifty years ahead, or in the century before
-- and its two digits would be more than fifty years ahead in that of the reader.
pub parse_http_date-rfc850_text :
    (now_year wd : ℕ) (c : CivilDate) (t : ClockTime)
    → wd < 7
    → date_ok c ≡ true
    → IsClock t
    → InWindow now_year c.year
    → parse_http_date now_year (rfc850_text wd c t) ≡ some (seconds_of (days_of c) t)
unfolding parse_http_date
parse_http_date-rfc850_text now_year wd c t day fine h window =
    let behind = drop 1 (rfc850_rest c t) in
    let (no_comma, found, known, left) = long-day-name wd behind day in
    rw no_comma (
      rw and-false
        (rw found (rw known (rw left (parse_rfc850-rfc850_rest now_year c t fine h window)))))
