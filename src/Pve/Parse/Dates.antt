-- ===== src/Pve/Parse/Dates.antt =====
-- internal/pve/parse.go: the dates that `parseDueDate` reads.
use pve_exporter.Base.{
  ℕ, ◌+◌, ◌-◌, ◌*◌, ◌/◌, ◌%◌, ◌^◌, ◌<◌, String, ◌≡◌, refl, sym, ap, ◌∙◌, ◌↔◌, Bool, true, false,
  ◌&&◌, Option, none, some, arith, leb, ◌==◌, eq_iff, if◌then◌else◌,
}
use pve_exporter.Base.Path.{ne_cons}
use pve_exporter.Base.Float.{Float64, of_int64}
use pve_exporter.Base.Text.{trim_space}
use pve_exporter.Pve.Parse.{parse_due_date, ◌>>=◌, two_digits, dash, days_in, parse_date}
use pve_exporter.Pve.Parse.Calendar.{
  days_in-bounds, Date, IsDate, date, day_of, tomorrow, tomorrow-IsDate, day_of-tomorrow,
}
use pve_exporter.Pve.Parse.Digits.{print_two, two_digits-print_two, two_digits-some, dash-some}

-- "2006-01-02"
unfoldable pub print_date : Date → String
unfolding print_two
print_date t = print_two (t.year / 100) (
    print_two (t.year % 100)
      (String.◌∷◌ "-" (print_two t.month (String.◌∷◌ "-" (print_two t.day "")))))

-- Where a chain of results has a value, its first step has one.
bind-elim {ℓ κ μ} :
    {A : Type ℓ} {B : Type κ} {R : Type μ} (o : Option A) (f : A → Option B) (b : B)
    → (o >>= f) ≡ some b
    → ((a : A) → o ≡ some a → f a ≡ some b → R)
    → R
bind-elim none f b e next = absurd (ground (arith, e))
bind-elim (some a) f b e next = next a refl e

-- The seconds from 1970-01-01 to the day, as an int64 pattern.
unfoldable pub unix_time : Date → ℕ
unix_time t = (day_of t * 86400 + 2 ^ 64 - 719528 * 86400) % 2 ^ 64

pub parse_date-print_date :
    (t : Date) → IsDate t → t.year < 10000 → parse_date (print_date t) ≡ some (unix_time t)
unfolding parse_date print_date unix_time dash
parse_date-print_date t h y =
    let b = days_in-bounds t.year t.month in
    let year : t.year / 100 * 100 + t.year % 100 ≡ t.year = omega arith in
    let checks : (leb 1 t.month
          && leb t.month 12
          && leb 1 t.day
          && leb t.day (days_in t.year t.month))
        ≡ true =
      ground (arith, h.month_in, h.day_in) in
    rw
      (
        two_digits-print_two (t.year / 100) (print_two (t.year % 100) month) (omega arith),
        two_digits-print_two (t.year % 100) month (omega arith),
        two_digits-print_two t.month day (omega arith),
        two_digits-print_two t.day "" (omega arith),
        year,
        checks,
      )
      refl
  where
    day : String
    day = String.◌∷◌ "-" (print_two t.day "")

    month : String
    month = String.◌∷◌ "-" (print_two t.month day)

-- What the last step of the parse has tested.
check_date-some :
    (y m d x : ℕ) (rest : String)
    → (if leb 1 m && leb m 12 && leb 1 d && leb d (days_in y m) && rest == ""
        then some (unix_time (date y m d))
        else none)
      ≡ some x
    → IsDate (date y m d) × (rest ≡ "") × (unix_time (date y m d) ≡ x)
check_date-some y m d x rest e =
    let c : (leb 1 m && leb m 12 && leb 1 d && leb d (days_in y m) && rest == "") ≡ true =
      ground (arith, e) in
    (
      record { month_in = ground (arith, c); day_in = ground (arith, c) },
      (eq_iff rest "").0 (ground (arith, c)),
      ground (arith, c, e),
    )

print_date-parts :
    (c y m d : ℕ)
    → y < 100
    → print_date (date (c * 100 + y) m d)
      ≡ print_two c (print_two y (String.◌∷◌ "-" (print_two m (String.◌∷◌ "-" (print_two d "")))))
unfolding print_date
print_date-parts c y m d h =
    let century : (c * 100 + y) / 100 ≡ c = omega arith in
    let year : (c * 100 + y) % 100 ≡ y = omega arith in rw (century, year) refl

parse_date-some :
    (s : String) (x : ℕ)
    → parse_date s ≡ some x
    → (t : Date) × IsDate t × (t.year < 10000) × (s ≡ print_date t) × (unix_time t ≡ x)
unfolding parse_date unix_time
parse_date-some s x e₀ = bind-elim (two_digits s) _ x e₀ (λ (century, s₁) h₁ e₁.
    bind-elim (two_digits s₁) _ x e₁ (λ (year, s₂) h₂ e₂. bind-elim (dash s₂) _ x e₂ (λ s₃ h₃ e₃.
      bind-elim (two_digits s₃) _ x e₃ (λ (month, s₄) h₄ e₄. bind-elim (dash s₄) _ x e₄ (λ s₅ h₅ e₅.
        bind-elim (two_digits s₅) _ x e₅ (λ (day, s₆) h₆ e₆.
          let c = two_digits-some s century s₁ h₁ in
          let y = two_digits-some s₁ year s₂ h₂ in
          let m = two_digits-some s₃ month s₄ h₄ in
          let d = two_digits-some s₅ day s₆ h₆ in
          let valid = check_date-some (century * 100 + year) month day x s₆ e₆ in
          (
            date (century * 100 + year) month day,
            valid.0,
            omega arith,
            c.1
                ∙ ap (print_two century) (
                    y.1
                    ∙ ap (print_two year) (
                        dash-some s₂ s₃ h₃
                        ∙ ap (String.◌∷◌ "-") (
                            m.1
                            ∙ ap (print_two month) (
                                dash-some s₄ s₅ h₅
                                ∙ ap (String.◌∷◌ "-") (d.1 ∙ ap (print_two day) valid.1)))))
                ∙ sym (print_date-parts century year month day y.0),
            valid.2,
          )))))))

-- A text that a due date is read from: the calendar's date, as it is printed.
pub record IsDueDate (text : String) (v : Float64) : Type 0 where
  pub date : Date
  pub valid : IsDate date
  pub four_digits : date.year < 10000
  pub printed : trim_space text ≡ print_date date
  pub time : of_int64 (unix_time date) ≡ v

IsDueDate-some :
    (text : String) (v : Float64) (empty : Bool) (parsed : Option ℕ)
    → (trim_space text == "") ≡ empty
    → parse_date (trim_space text) ≡ parsed
    → (if empty then none else elim parsed [ none ↦ none | some t ↦ some (of_int64 t) ]) ≡ some v
    → IsDueDate text v
IsDueDate-some text v true parsed h p e = absurd (ground (arith, e))
IsDueDate-some text v false none h p e = absurd (ground (arith, e))
IsDueDate-some text v false (some x) h p e =
    let (t, valid, year, printed, time) = parse_date-some (trim_space text) x p in
    record {
      date = t;
      valid = valid;
      four_digits = year;
      printed = printed;
      time = ap of_int64 time ∙ ground (arith, e);
    }

print_date_nonempty : (t : Date) → (print_date t == "") ≡ false
unfolding print_date print_two
print_date_nonempty t = ne_cons _ _

-- A due date is read from a text just where the text, trimmed, is a date of the calendar from year
-- 0 to 9999, printed with four, two and two digits, and it is read as the Unix time of that date.
pub parse_due_date-IsDueDate :
    (text : String) (v : Float64) → (parse_due_date text ≡ some v) ↔ IsDueDate text v
unfolding parse_due_date
parse_due_date-IsDueDate text v = (
  λ e. IsDueDate-some text v _ _ refl refl e,
  λ h.
      rw (h.printed, parse_date-print_date h.date h.valid h.four_digits, print_date_nonempty h.date)
        (ap some h.time),
)

epoch : parse_date "1970-01-01" ≡ some 0
unfolding parse_date
epoch = refl

unix_time-tomorrow : (t : Date) → IsDate t → unix_time (tomorrow t) ≡ (unix_time t + 86400) % 2 ^ 64
unfolding unix_time
unix_time-tomorrow t h = rw (day_of-tomorrow t h) (omega arith)

year-tomorrow : (t : Date) → (tomorrow t).year < 10000 → t.year < 10000
unfolding tomorrow
year-tomorrow t y = ground (arith, y)

-- 1970-01-01 is read as the time 0, and the text of the day behind a date as a time 86400 seconds
-- after that of the date, as int64 patterns. The day behind is before year 10000.
pub parse_date-tomorrow :
    (t : Date)
    → IsDate t
    → (tomorrow t).year < 10000
    → (parse_date "1970-01-01" ≡ some 0)
      × ((x : ℕ) × (parse_date (print_date t) ≡ some x)
          × (parse_date (print_date (tomorrow t)) ≡ some ((x + 86400) % 2 ^ 64)))
parse_date-tomorrow t h y = (
  epoch,
  (
    unix_time t,
    parse_date-print_date t h (year-tomorrow t y),
    parse_date-print_date (tomorrow t) (tomorrow-IsDate t h) y ∙ ap some (unix_time-tomorrow t h),
  ),
)
