-- ===== src/Core/HttpDate.antt =====
-- core/http_date.hpp: the printer and the parser of HTTP dates. An instant is the number of seconds
-- since the first of January of the year 0, which is what std::chrono counts plus a constant; the
-- years from 0 on are covered, and no HTTP-date names another. The years of std::chrono are
-- those of the proleptic Gregorian calendar.
pub mod Calendar
pub mod Printed
pub mod Obsolete
use boost_taar.Common.{
  ℕ, zero, suc, ◌+◌, ◌-◌, ◌*◌, ◌/◌, ◌%◌, Bool, true, false, not, ◌&&◌, ◌||◌, Option, none, some,
  List, [], ◌∷◌, ◌++◌, ◌==◌, if◌then◌else◌, ◌>>=◌, ltb, leb, between, length, take, drop, any,
  get_elem?, Bytes, codes, beq, strip_prefix, cut, is_empty,
}
use boost_taar.Core.HttpDate.Calendar.{CivilDate, civil, days_of, date_ok}

abbrev pub http_date_days : List Bytes
http_date_days =
    codes "Sun"
    ∷ codes "Mon"
    ∷ codes "Tue"
    ∷ codes "Wed"
    ∷ codes "Thu"
    ∷ codes "Fri"
    ∷ codes "Sat"
    ∷ []

abbrev pub http_date_long_days : List Bytes
http_date_long_days =
    codes "Sunday"
    ∷ codes "Monday"
    ∷ codes "Tuesday"
    ∷ codes "Wednesday"
    ∷ codes "Thursday"
    ∷ codes "Friday"
    ∷ codes "Saturday"
    ∷ []

abbrev pub http_date_months : List Bytes
http_date_months =
    codes "Jan"
    ∷ codes "Feb"
    ∷ codes "Mar"
    ∷ codes "Apr"
    ∷ codes "May"
    ∷ codes "Jun"
    ∷ codes "Jul"
    ∷ codes "Aug"
    ∷ codes "Sep"
    ∷ codes "Oct"
    ∷ codes "Nov"
    ∷ codes "Dec"
    ∷ []

abbrev pub or_nothing : Option Bytes → Bytes
or_nothing none = []
or_nothing (some s) = s

-- The readers return the text behind what they read, in place of an advanced `pos`.
unfoldable pub http_date_digits : ℕ → ℕ → Bytes → Option (ℕ × Bytes)
http_date_digits zero v s = some (v, s)
http_date_digits (suc n) v [] = none
http_date_digits (suc n) v (c ∷ s) =
    if between b'0' b'9' c then http_date_digits n (v * 10 + (c - b'0')) s else none

abbrev pub http_date_literal : Bytes → Bytes → Option Bytes
http_date_literal lit s = strip_prefix lit s

unfoldable pub month_among : List Bytes → ℕ → Bytes → Option (ℕ × Bytes)
month_among [] i s = none
month_among (name ∷ names) i s =
    if beq (take 3 s) name then some (i + 1, drop 3 s) else month_among names (i + 1) s

unfoldable pub http_date_month : Bytes → Option (ℕ × Bytes)
unfolding month_among
http_date_month s = month_among http_date_months 0 s

pub record ClockTime : Type 0 where
  pub h : ℕ
  pub mi : ℕ
  pub sec : ℕ

abbrev pub clock_if : Bool → ℕ → ℕ → ℕ → Bytes → Option (ClockTime × Bytes)
clock_if in_range h mi sec s =
    if in_range then some (record { h = h; mi = mi; sec = sec }, s) else none

unfoldable pub http_date_time : Bytes → Option (ClockTime × Bytes)
unfolding http_date_digits
http_date_time s = do
  (h, s) ← http_date_digits 2 0 s
  s ← http_date_literal (codes ":") s
  (mi, s) ← http_date_digits 2 0 s
  s ← http_date_literal (codes ":") s
  (sec, s) ← http_date_digits 2 0 s
  clock_if (ltb h 24 && ltb mi 60 && leb sec 60) h mi sec s

abbrev pub seconds_of : ℕ → ClockTime → ℕ
seconds_of days t = days * 86400 + t.h * 3600 + t.mi * 60 + t.sec

unfoldable pub http_date_make : ℕ → ℕ → ℕ → ClockTime → Option ℕ
http_date_make y mo d t =
    let date : CivilDate = record { year = y; month = mo; day = d } in
    if date_ok date then some (seconds_of (days_of date) t) else none

-- `text.starts_with(name)`
abbrev pub starts_with : Bytes → Bytes → Bool
starts_with s name = elim (strip_prefix name s) [ none ↦ false | some r ↦ true ]

abbrev pub at_end {ℓ} : {A : Type ℓ} → Bytes → Option A → Option A
at_end [] r = r
at_end (c ∷ s) r = none

abbrev pub two : ℕ → Bytes
two v = (b'0' + v / 10 % 10) ∷ (b'0' + v % 10) ∷ []

-- The weekday, from Sunday on: the first day of the year 0 is a Saturday.
abbrev pub weekday : ℕ → ℕ
weekday days = (days + 6) % 7

abbrev pub day_name : ℕ → Bytes
day_name wd = or_nothing (get_elem? http_date_days wd)

abbrev pub month_name : ℕ → Bytes
month_name mo = or_nothing (get_elem? http_date_months (mo - 1))

abbrev pub clock_text : ClockTime → Bytes → Bytes
clock_text t rest = two t.h ++ (codes ":" ++ (two t.mi ++ (codes ":" ++ (two t.sec ++ rest))))

abbrev pub clock_of : ℕ → ClockTime
clock_of tp =
    let secs = tp % 86400 in record { h = secs / 3600; mi = secs % 3600 / 60; sec = secs % 60 }

unfoldable pub format_http_date : ℕ → Bytes
format_http_date tp =
    let days = tp / 86400 in
    let ymd = civil days in
    day_name (weekday days)
    ++ (codes ", "
        ++ (two ymd.day
            ++ (codes " "
                ++ (month_name ymd.month
                    ++ (codes " "
                        ++ (two (ymd.year / 100)
                            ++ (two (ymd.year % 100)
                                ++ (codes " " ++ clock_text (clock_of tp) (codes " GMT")))))))))

-- "Sun, 06 Nov 1994 08:49:37 GMT", behind the name of the day.
unfoldable pub parse_imf : Bytes → Option ℕ
unfolding http_date_digits
parse_imf s = do
  s ← http_date_literal (codes ", ") s
  (d, s) ← http_date_digits 2 0 s
  s ← http_date_literal (codes " ") s
  (mo, s) ← http_date_month s
  s ← http_date_literal (codes " ") s
  (y, s) ← http_date_digits 4 0 s
  s ← http_date_literal (codes " ") s
  (t, s) ← http_date_time s
  s ← http_date_literal (codes " GMT") s
  at_end s (http_date_make y mo d t)

-- The century of a two-digit year, by the year in which it is read.
unfoldable pub full_year : ℕ → ℕ → ℕ
full_year now_year yy =
    let y = now_year / 100 * 100 + yy in if ltb (now_year + 50) y then y - 100 else y

-- "Sunday, 06-Nov-94 08:49:37 GMT", behind the name of the day.
unfoldable pub parse_rfc850 : ℕ → Bytes → Option ℕ
unfolding http_date_digits full_year
parse_rfc850 now_year s = do
  s ← http_date_literal (codes ", ") s
  (d, s) ← http_date_digits 2 0 s
  s ← http_date_literal (codes "-") s
  (mo, s) ← http_date_month s
  s ← http_date_literal (codes "-") s
  (yy, s) ← http_date_digits 2 0 s
  s ← http_date_literal (codes " ") s
  (t, s) ← http_date_time s
  s ← http_date_literal (codes " GMT") s
  at_end s (http_date_make (full_year now_year yy) mo d t)

-- A day of one digit has a space before it.
abbrev pub asctime_day : Bytes → Option (ℕ × Bytes)
asctime_day [] = none
asctime_day (c ∷ s) = if c == b' ' then http_date_digits 1 0 s else http_date_digits 2 0 (c ∷ s)

-- "Sun Nov  6 08:49:37 1994", behind the name of the day.
unfoldable pub parse_asctime : Bytes → Option ℕ
unfolding http_date_digits
parse_asctime s = do
  s ← http_date_literal (codes " ") s
  (mo, s) ← http_date_month s
  s ← http_date_literal (codes " ") s
  (d, s) ← asctime_day s
  s ← http_date_literal (codes " ") s
  (t, s) ← http_date_time s
  s ← http_date_literal (codes " ") s
  (y, s) ← http_date_digits 4 0 s
  at_end s (http_date_make y mo d t)

abbrev pub char_is : ℕ → ℕ → Bytes → Bool
char_is i c text = elim (get_elem? text i) [ none ↦ false | some x ↦ x == c ]

-- The position of the first comma, where it stands behind the third byte.
abbrev pub before : Bytes × Option Bytes → Option Bytes
before (day, none) = none
before (day, some rest) = if ltb 3 (length day) then some day else none

abbrev pub before_comma : Bytes → Option Bytes
before_comma text = before (cut b',' text)

-- The clock enters as the year of `system_clock::now()`.
unfoldable pub parse_http_date : ℕ → Bytes → Option ℕ
unfolding parse_imf parse_rfc850 parse_asctime
parse_http_date now_year text =
    let short_day = any (starts_with text) http_date_days in
    if length text == 29 && char_is 3 b',' text
    then if short_day then parse_imf (drop 3 text) else none
    else elim (before_comma text) [
      | some day ↦
          if any (beq day) http_date_long_days
          then parse_rfc850 now_year (drop (length day) text)
          else none
      | none ↦
          if length text == 24 && char_is 3 b' ' text
          then if short_day then parse_asctime (drop 3 text) else none
          else none
    ]

-- The cache of a thread: the second, none before the first call, and its text.
pub record DateCache : Type 0 where
  pub second : ℕ
  pub text : Bytes

unfoldable pub cached_http_date : ℕ → DateCache → DateCache
cached_http_date now c =
    if is_empty c.text || not (now == c.second)
    then record { second = now; text = format_http_date now }
    else c
