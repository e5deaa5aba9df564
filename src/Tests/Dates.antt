-- ===== src/Tests/Dates.antt =====
-- Concrete runs of the HTTP dates.
use boost_taar.Common.{ℕ, ◌+◌, ◌/◌, ◌≡◌, refl, true, some, codes, cut, arith, inr}
use boost_taar.Core.HttpDate.Calendar.{
  civil, year_from, month_from, year_length, days_of, date_ok, CivilDate,
}
use boost_taar.Core.HttpDate.{
  format_http_date, parse_http_date, http_date_make, http_date_month, http_date_time, seconds_of,
  ClockTime,
}
use boost_taar.Core.HttpDate.Obsolete.{rfc850_text}
use boost_taar.Core.HttpDate.Obsolete
use boost_taar.Core.HttpDate.Printed

-- The instant of RFC 9110, 784111777 seconds after 1970.
abbrev instant : ℕ
instant = 784111777 + 62167219200

format_run : format_http_date instant ≡ codes "Sun, 06 Nov 1994 08:49:37 GMT"
unfolding format_http_date civil year_from month_from year_length
format_run = refl

parse_asctime_run : parse_http_date 2025 (codes "Sun Nov  6 08:49:37 1994") ≡ some instant
unfolding parse_http_date http_date_make days_of http_date_month http_date_time date_ok cut
    year_length
parse_asctime_run = refl

civil-instant : civil (instant / 86400) ≡ record { year = 1994; month = 11; day = 6 }
unfolding civil year_from month_from year_length
civil-instant = refl

parse_http_date-format_http_date_example :
    parse_http_date 2025 (format_http_date instant) ≡ some instant
parse_http_date-format_http_date_example =
    Printed.parse_http_date-format_http_date 2025 instant (rw civil-instant (omega arith))

abbrev sixth : CivilDate
sixth = record { year = 1994; month = 11; day = 6 }

abbrev at_dawn : ClockTime
at_dawn = record { h = 8; mi = 49; sec = 37 }

sixth_ok : date_ok sixth ≡ true
unfolding date_ok
sixth_ok = refl

parse_http_date-rfc850_text_example :
    parse_http_date 2025 (rfc850_text 0 sixth at_dawn) ≡ some (seconds_of (days_of sixth) at_dawn)
parse_http_date-rfc850_text_example =
    Obsolete.parse_http_date-rfc850_text 2025 0 sixth at_dawn (omega arith) sixth_ok (omega arith)
      (inr (omega arith))
