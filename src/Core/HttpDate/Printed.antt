-- ===== src/Core/HttpDate/Printed.antt =====
-- core/http_date.hpp: a date that is printed is parsed back.
use boost_taar.Common.{
  ℕ, zero, suc, ◌-◌, ◌/◌, ◌%◌, ◌≤◌, ◌<◌, ◌≡◌, refl, ap, ◌∙◌, true, ◌&&◌, some, List, [], ◌∷◌, ◌++◌,
  ltb, leb, between, length, any, All, Bytes, codes, arith,
}
use boost_taar.Core.HttpDate.Calendar.{
  CivilDate, civil, days_of, date_ok, days_of-civil, nth, month_lengths, february,
}
use boost_taar.Core.HttpDate.{
  http_date_days, http_date_digits, http_date_month, ClockTime, clock_if, http_date_time,
  seconds_of, http_date_make, starts_with, two, weekday, day_name, month_name, clock_text, clock_of,
  format_http_date, parse_imf, parse_http_date,
}

pub digits-two :
    (v : ℕ) (rest : Bytes) → v < 100 → http_date_digits 2 0 (two v ++ rest) ≡ some (v, rest)
unfolding http_date_digits
digits-two v rest h = ground arith

digits-four :
    (y : ℕ) (rest : Bytes)
    → y < 10000
    → http_date_digits 4 0 (two (y / 100) ++ (two (y % 100) ++ rest)) ≡ some (y, rest)
unfolding http_date_digits
digits-four y rest h = ground arith

-- The names of the months, one by one.
pub month-name :
    (mo : ℕ) (rest : Bytes)
    → between 1 12 mo ≡ true
    → (a b c : ℕ) × (month_name mo ≡ a ∷ b ∷ c ∷ [])
      × (http_date_month (a ∷ b ∷ c ∷ rest) ≡ some (mo, rest))
unfolding http_date_month
month-name zero rest h = cc
month-name (suc zero) rest h = (_, _, _, refl, refl)
month-name (suc (suc zero)) rest h = (_, _, _, refl, refl)
month-name (suc (suc (suc zero))) rest h = (_, _, _, refl, refl)
month-name (suc (suc (suc (suc zero)))) rest h = (_, _, _, refl, refl)
month-name (suc (suc (suc (suc (suc zero))))) rest h = (_, _, _, refl, refl)
month-name (suc (suc (suc (suc (suc (suc zero)))))) rest h = (_, _, _, refl, refl)
month-name (suc (suc (suc (suc (suc (suc (suc zero))))))) rest h = (_, _, _, refl, refl)
month-name (suc (suc (suc (suc (suc (suc (suc (suc zero)))))))) rest h = (_, _, _, refl, refl)
month-name (suc (suc (suc (suc (suc (suc (suc (suc (suc zero))))))))) rest h = (_, _, _, refl, refl)
month-name (suc (suc (suc (suc (suc (suc (suc (suc (suc (suc zero)))))))))) rest h =
    (_, _, _, refl, refl)
month-name (suc (suc (suc (suc (suc (suc (suc (suc (suc (suc (suc zero))))))))))) rest h =
    (_, _, _, refl, refl)
month-name (suc (suc (suc (suc (suc (suc (suc (suc (suc (suc (suc (suc zero)))))))))))) rest h =
    (_, _, _, refl, refl)
month-name (suc (suc (suc (suc (suc (suc (suc (suc (suc (suc (suc (suc (suc mo))))))))))))) rest h =
    ground arith

day-name :
    (wd : ℕ) (rest : Bytes)
    → wd < 7
    → (a b c : ℕ) × (day_name wd ≡ a ∷ b ∷ c ∷ [])
      × (any (starts_with (a ∷ b ∷ c ∷ rest)) http_date_days ≡ true)
day-name zero rest h = (_, _, _, refl, refl)
day-name (suc zero) rest h = (_, _, _, refl, refl)
day-name (suc (suc zero)) rest h = (_, _, _, refl, refl)
day-name (suc (suc (suc zero))) rest h = (_, _, _, refl, refl)
day-name (suc (suc (suc (suc zero)))) rest h = (_, _, _, refl, refl)
day-name (suc (suc (suc (suc (suc zero))))) rest h = (_, _, _, refl, refl)
day-name (suc (suc (suc (suc (suc (suc zero)))))) rest h = (_, _, _, refl, refl)
day-name (suc (suc (suc (suc (suc (suc (suc wd))))))) rest h = absurd (omega arith)

-- A time of day, in the ranges that the parser accepts.
abbrev pub IsClock : ClockTime → Type 0
IsClock t = (t.h < 24) × (t.mi < 60) × (t.sec ≤ 60)

clock-in-range :
    (t : ClockTime) (rest : Bytes)
    → IsClock t
    → clock_if (ltb t.h 24 && ltb t.mi 60 && leb t.sec 60) t.h t.mi t.sec rest ≡ some (t, rest)
clock-in-range t rest h = ground (arith, h.0, h.1, h.2)

pub clock-text :
    (t : ClockTime) (rest : Bytes) → IsClock t → http_date_time (clock_text t rest) ≡ some (t, rest)
unfolding http_date_time
clock-text t rest h =
    rw
      (digits-two t.h (codes ":" ++ (two t.mi ++ (codes ":" ++ (two t.sec ++ rest)))) (omega arith))
      (rw (digits-two t.mi (codes ":" ++ (two t.sec ++ rest)) (omega arith))
        (rw (digits-two t.sec rest (omega arith)) (clock-in-range t rest h)))

-- The fields of an IMF-fixdate, behind the name of the day.
abbrev pub imf_text : CivilDate → ClockTime → Bytes
imf_text c t =
    codes ", "
    ++ (two c.day
        ++ (codes " "
            ++ (month_name c.month
                ++ (codes " "
                    ++ (two (c.year / 100)
                        ++ (two (c.year % 100) ++ (codes " " ++ clock_text t (codes " GMT"))))))))

nth-le : (k : ℕ) (ns : List ℕ) → All (λ n. n ≤ 31) ns → nth k ns ≤ 31
nth-le k [] h = omega arith
nth-le zero (n ∷ ns) h = h.0
nth-le (suc k) (n ∷ ns) h = nth-le k ns h.1

february-le : (y : ℕ) → february y ≤ 31
february-le y = ground arith

month_lengths-le : (y : ℕ) → All (λ n. n ≤ 31) (month_lengths y)
month_lengths-le y = ground (arith, february-le y)

pub day_below : (c : CivilDate) → date_ok c ≡ true → (c.day < 100) × (between 1 12 c.month ≡ true)
unfolding date_ok
day_below c h =
    let most = nth-le (c.month - 1) (month_lengths c.year) (month_lengths-le c.year) in
    ground (arith, h, most)

parse_imf-imf_text :
    (c : CivilDate) (t : ClockTime)
    → date_ok c ≡ true
    → c.year < 10000
    → IsClock t
    → parse_imf (imf_text c t) ≡ some (seconds_of (days_of c) t)
unfolding parse_imf http_date_make
parse_imf-imf_text c t fine short h =
    let (day, month) = day_below c fine in
    let behind_time = codes " GMT" in
    let behind_year = codes " " ++ clock_text t behind_time in
    let behind_month = codes " " ++ (two (c.year / 100) ++ (two (c.year % 100) ++ behind_year)) in
    let (x, y, z, name, read) = month-name c.month behind_month month in
    rw (digits-two c.day (codes " " ++ (month_name c.month ++ behind_month)) day) (
      rw name (
        rw read (
          rw (digits-four c.year behind_year short)
            (rw (clock-text t behind_time h) (rw fine refl)))))

format_http_date_lem :
    (tp : ℕ)
    → format_http_date tp
      ≡ day_name (weekday (tp / 86400)) ++ imf_text (civil (tp / 86400)) (clock_of tp)
unfolding format_http_date
format_http_date_lem tp = refl

length-imf_text : (c : CivilDate) (t : ClockTime) → date_ok c ≡ true → length (imf_text c t) ≡ 26
length-imf_text c t fine =
    let (x, y, z, name, read) = month-name c.month [] (day_below c fine).1 in rw name refl

seconds-split : (tp days : ℕ) → days ≡ tp / 86400 → seconds_of days (clock_of tp) ≡ tp
seconds-split tp days e = omega arith

clock_of-IsClock : (tp : ℕ) → IsClock (clock_of tp)
clock_of-IsClock tp = (omega arith, omega arith, omega arith)

-- An instant of a year with at most four digits is printed as a text that is parsed back to it,
-- in whatever year it is read.
pub parse_http_date-format_http_date :
    (now_year tp : ℕ)
    → (civil (tp / 86400)).year < 10000
    → parse_http_date now_year (format_http_date tp) ≡ some tp
unfolding parse_http_date
parse_http_date-format_http_date now_year tp short =
    let c = civil (tp / 86400) in
    let t = clock_of tp in
    let (same, fine) = days_of-civil (tp / 86400) in
    let (x, y, z, name, known) = day-name (weekday (tp / 86400)) (imf_text c t) (omega arith) in
    rw (format_http_date_lem tp) (
      rw name (
        rw (length-imf_text c t fine) (
          rw known (
            parse_imf-imf_text c t fine short (clock_of-IsClock tp)
            ∙ ap some (seconds-split tp (days_of c) same)))))
