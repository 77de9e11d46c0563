-- ===== src/Pve/Parse.antt =====
-- internal/pve/parse.go: tolerant decoding of PVE values.
-- `encoding/json` and `strconv.ParseFloat` are the parameters `unquote` and `parse_float`.
pub mod Calendar
pub mod Digits
pub mod Dates
pub mod Given
pub mod Flex
use Prim.Native.Char.{code}
use pve_exporter.Base.{
  ℕ, zero, suc, ◌+◌, ◌-◌, ◌*◌, ◌/◌, ◌%◌, ◌^◌, String, ◌≡◌, refl, Bool, true, false, not, ◌&&◌, ◌||◌,
  Option, none, some, leb, eqb, ◌==◌, if◌then◌else◌,
}
use pve_exporter.Base.Text.{trim_space, trim_quotes}
use pve_exporter.Base.Float.{Float64, float_zero, float_one, of_int64}

pub record FlexFloat : Type 0 where
  pub value : Float64
  pub valid : Bool

-- The zero value of the type, which a field that the JSON lacks keeps.
abbrev pub absent : FlexFloat
absent = record { value = float_zero; valid = false }

-- b[0] == '"'
abbrev pub is_quoted : String → Bool
is_quoted String.[] = false
is_quoted (String.◌∷◌ c s) = eqb (code c) 34

-- strings.EqualFold(s, "n/a"): the letters fold with their capitals only
abbrev pub is_sentinel : String → Bool
is_sentinel s = s == "" || s == "n/a" || s == "N/a" || s == "n/A" || s == "N/A"

module _ (unquote : String → Option String) (parse_float : String → Option Float64) where
  -- `f.Value, f.Valid = v, true` where the parse succeeds
  number : FlexFloat → String → FlexFloat
  number f s = elim (parse_float s) [ none ↦ f | some v ↦ record { value = v; valid = true } ]

  -- `(*FlexFloat).UnmarshalJSON`: the receiver and the bytes give the receiver after, or an error
  unfoldable pub unmarshal_flex_float : FlexFloat → String → Option FlexFloat
  unfolding number
  unmarshal_flex_float f bytes =
      let b = trim_space bytes in
      if b == "" || b == "null"
      then some f
      else if is_quoted b
      then elim (unquote b) [
        | none ↦ none
        | some text ↦ let s = trim_space text in if is_sentinel s then some f else some (number f s)
      ]
      else some (number f b)

  -- `(*FlexString).UnmarshalJSON`
  unfoldable pub unmarshal_flex_string : String → String → Option String
  unmarshal_flex_string receiver bytes =
      let b = trim_space bytes in
      if b == "" || b == "null"
      then some receiver
      else if is_quoted b
      then unquote b
      else some (trim_quotes b)

unfoldable pub two_digits : String → Option (ℕ × String)
two_digits (String.◌∷◌ c (String.◌∷◌ d rest)) =
    if leb 48 (code c) && leb (code c) 57 && leb 48 (code d) && leb (code d) 57
    then some ((code c - 48) * 10 + (code d - 48), rest)
    else none
two_digits _ = none

unfoldable pub dash : String → Option String
dash (String.◌∷◌ c rest) = if eqb (code c) 45 then some rest else none
dash _ = none

infixl 5 ◌>>=◌
abbrev pub ◌>>=◌ {ℓ κ} : {A : Type ℓ} {B : Type κ} → Option A → (A → Option B) → Option B
none >>= f = none
some a >>= f = f a

abbrev pub is_leap : ℕ → Bool
is_leap y = eqb (y % 4) 0 && (not (eqb (y % 100) 0) || eqb (y % 400) 0)

unfoldable pub days_in : ℕ → ℕ → ℕ
days_in y m =
    if eqb m 2
    then (if is_leap y then 29 else 28)
    else if eqb m 4 || eqb m 6 || eqb m 9 || eqb m 11
    then 30
    else 31

unfoldable pub days_before_month : ℕ → ℕ → ℕ
unfolding days_in
days_before_month y zero = 0
days_before_month y (suc m) = days_before_month y m + (if eqb m 0 then 0 else days_in y m)

-- Days from 0000-01-01; 1970-01-01 is day 719528.
unfoldable pub day_number : ℕ → ℕ → ℕ → ℕ
unfolding days_before_month
day_number y m d =
    365 * y + (y + 3) / 4 + (y + 399) / 400 - (y + 99) / 100 + days_before_month y m + (d - 1)

-- time.Parse("2006-01-02", s), and its Unix time as an int64 pattern
unfoldable pub parse_date : String → Option ℕ
unfolding two_digits dash day_number
parse_date s = do
  (century, s₁) ← two_digits s
  (year, s₂) ← two_digits s₁
  s₃ ← dash s₂
  (m, s₄) ← two_digits s₃
  s₅ ← dash s₄
  (d, s₆) ← two_digits s₅
  let y = century * 100 + year
  if leb 1 m && leb m 12 && leb 1 d && leb d (days_in y m) && s₆ == ""
      then some ((day_number y m d * 86400 + 2 ^ 64 - 719528 * 86400) % 2 ^ 64)
      else none

-- `parseDueDate`; the pair with `false` is `none`
unfoldable pub parse_due_date : String → Option Float64
parse_due_date text =
    let s = trim_space text in
    if s == "" then none else elim (parse_date s) [ none ↦ none | some t ↦ some (of_int64 t) ]

unfoldable pub bool_to_float : Bool → Float64
bool_to_float b = if b then float_one else float_zero

due_date_test :
    (parse_date "2024-04-17" ≡ some 1713312000)
    × (parse_date "1969-12-31" ≡ some (2 ^ 64 - 86400))
    × (parse_date "2023-02-29" ≡ none)
    × (parse_date "2024-02-29" ≡ some 1709164800)
    × (parse_date "2024-4-17" ≡ none)
unfolding parse_date
due_date_test = (refl, refl, refl, refl, refl)
