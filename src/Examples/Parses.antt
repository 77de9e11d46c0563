-- ===== src/Examples/Parses.antt =====
-- Texts that numbers and dates are read from.
use pve_exporter.Base.{
  ℕ, ◌+◌, ◌%◌, ◌^◌, String, ◌≡◌, ◌↔◌, Option, none, some, ◌==◌, if◌then◌else◌, arith,
}
use pve_exporter.Base.Float.{Float64, float_one, of_uint, of_int64, format_int}
use pve_exporter.Base.Float.Integers.{format_int-of_uint}
use pve_exporter.Base.Text.{decimal}
use pve_exporter.Pve.Parse.{absent, days_in, unmarshal_flex_float, parse_date, parse_due_date}
use pve_exporter.Pve.Parse.Calendar.{IsDate, date, tomorrow}
use pve_exporter.Pve.Parse.Dates.{
  IsDueDate, print_date, parse_due_date-IsDueDate, parse_date-tomorrow,
}
use pve_exporter.Pve.Parse.Flex.{Gives, read, unmarshal_flex_float-GivesText}

format_int-of_uint_example : format_int (of_uint 100) ≡ decimal 100
format_int-of_uint_example = format_int-of_uint 100 (omega arith)

parse_due_date-IsDueDate_example :
    (parse_due_date " 2024-02-29" ≡ some (of_int64 1709164800))
    ↔ IsDueDate " 2024-02-29" (of_int64 1709164800)
parse_due_date-IsDueDate_example = parse_due_date-IsDueDate " 2024-02-29" (of_int64 1709164800)

leap_day-IsDate : IsDate (date 2024 2 29)
unfolding days_in
leap_day-IsDate = record {
  month_in = (omega arith, omega arith);
  day_in = (omega arith, omega arith);
}

parse_date-tomorrow_example :
    (parse_date "1970-01-01" ≡ some 0)
    × ((x : ℕ) × (parse_date "2024-02-29" ≡ some x)
        × (parse_date "2024-03-01" ≡ some ((x + 86400) % 2 ^ 64)))
unfolding print_date tomorrow days_in
parse_date-tomorrow_example = parse_date-tomorrow (date 2024 2 29) leap_day-IsDate (omega arith)

-- One quoted text, and one number.
abbrev unquote : String → Option String
unquote s = if s == "\"1\"" then some "1" else none

abbrev parse_float : String → Option Float64
parse_float s = if s == "1" then some float_one else none

unmarshal_flex_float-GivesText_example :
    (unmarshal_flex_float unquote parse_float absent "\"1\"" ≡ some (read float_one))
    ↔ Gives unquote parse_float "\"1\"" float_one
unmarshal_flex_float-GivesText_example =
    unmarshal_flex_float-GivesText unquote parse_float "\"1\"" float_one
