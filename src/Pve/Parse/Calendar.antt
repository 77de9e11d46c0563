-- ===== src/Pve/Parse/Calendar.antt =====
-- internal/pve/parse.go: the days of the calendar.
use pve_exporter.Base.{ℕ, ◌+◌, ◌≤◌, ◌≡◌, refl, arith, ltb, Bool-cases, inl, inr, if◌then◌else◌}
use pve_exporter.Pve.Parse.{is_leap, days_in, days_before_month, day_number}

-- A date of the proleptic Gregorian calendar.
pub record Date : Type 0 where
  pub year : ℕ
  pub month : ℕ
  pub day : ℕ

pub record IsDate (t : Date) : Type 0 where
  pub month_in : (1 ≤ t.month) × (t.month ≤ 12)
  pub day_in : (1 ≤ t.day) × (t.day ≤ days_in t.year t.month)

abbrev pub date : ℕ → ℕ → ℕ → Date
date y m d = record { year = y; month = m; day = d }

-- The day behind a date, by the rules of the calendar.
unfoldable pub tomorrow : Date → Date
tomorrow t =
    if ltb t.day (days_in t.year t.month)
    then record t { day = t.day + 1 }
    else if ltb t.month 12
    then date t.year (t.month + 1) 1
    else date (t.year + 1) 1 1

abbrev pub day_of : Date → ℕ
day_of t = day_number t.year t.month t.day

days_before_month-suc :
    (y m : ℕ) → 1 ≤ m → days_before_month y (m + 1) ≡ days_before_month y m + days_in y m
unfolding days_before_month
days_before_month-suc y m h = ground arith

december : (y : ℕ) → days_before_month y 12 ≡ (if is_leap y then 335 else 334)
unfolding days_before_month days_in
december y = ground arith

january : (y : ℕ) → days_before_month y 1 ≡ 0
unfolding days_before_month
january y = refl

pub tomorrow-IsDate : (t : Date) → IsDate t → IsDate (tomorrow t)
unfolding tomorrow days_in
tomorrow-IsDate t h = ground arith

pub days_in-bounds : (y m : ℕ) → (28 ≤ days_in y m) × (days_in y m ≤ 31)
unfolding days_in
days_in-bounds y m = ground arith

next_day : (y m d : ℕ) → 1 ≤ d → day_number y m (d + 1) ≡ day_number y m d + 1
unfolding day_number
next_day y m d h = omega arith

next_month : (y m : ℕ) → 1 ≤ m → day_number y (m + 1) 1 ≡ day_number y m (days_in y m) + 1
unfolding day_number
next_month y m h = let e = days_before_month-suc y m h in let b = days_in-bounds y m in omega arith

days_in_december : (y : ℕ) → days_in y 12 ≡ 31
unfolding days_in
days_in_december y = refl

next_year : (y : ℕ) → day_number (y + 1) 1 1 ≡ day_number y 12 31 + 1
unfolding day_number
next_year y = rw (december y, january (y + 1)) (ground arith)

-- The number of the day behind a date is the next number.
pub day_of-tomorrow : (t : Date) → IsDate t → day_of (tomorrow t) ≡ day_of t + 1
unfolding tomorrow
day_of-tomorrow t h = elim (Bool-cases (ltb t.day (days_in t.year t.month))) [
  | inl early ↦ rw early (next_day t.year t.month t.day h.day_in.0)
  | inr late ↦
      let last : t.day ≡ days_in t.year t.month = ground (arith, late, h.day_in.1) in
      elim (Bool-cases (ltb t.month 12)) [
        | inl early ↦ rw (late, early, last) (next_month t.year t.month h.month_in.0)
        | inr december ↦
            let twelve : t.month ≡ 12 = ground (arith, december, h.month_in.1) in
            rw (late, december, last, twelve, days_in_december t.year) (next_year t.year)
      ]
]
