-- ===== src/Pve/Parse/Digits.antt =====
-- internal/pve/parse.go: the digits and dashes of a date.
use Prim.Native.Char.{Char, code}
use text.Mathlib.TextEquality.{Char-path}
use pve_exporter.Base.{
  ℕ, zero, suc, ◌+◌, ◌-◌, ◌*◌, ◌/◌, ◌%◌, ◌≤◌, ◌<◌, String, ◌≡◌, refl, ap, ◌∙◌, some, arith,
}
use pve_exporter.Pve.Parse.{two_digits, dash}

digit_char : ℕ → Char
digit_char zero = "0"
digit_char (suc zero) = "1"
digit_char (suc (suc zero)) = "2"
digit_char (suc (suc (suc zero))) = "3"
digit_char (suc (suc (suc (suc zero)))) = "4"
digit_char (suc (suc (suc (suc (suc zero))))) = "5"
digit_char (suc (suc (suc (suc (suc (suc zero)))))) = "6"
digit_char (suc (suc (suc (suc (suc (suc (suc zero))))))) = "7"
digit_char (suc (suc (suc (suc (suc (suc (suc (suc zero)))))))) = "8"
digit_char _ = "9"

code-digit_char : (n : ℕ) → n < 10 → code (digit_char n) ≡ n + 48
unfolding digit_char
code-digit_char zero h = refl
code-digit_char (suc zero) h = refl
code-digit_char (suc (suc zero)) h = refl
code-digit_char (suc (suc (suc zero))) h = refl
code-digit_char (suc (suc (suc (suc zero)))) h = refl
code-digit_char (suc (suc (suc (suc (suc zero))))) h = refl
code-digit_char (suc (suc (suc (suc (suc (suc zero)))))) h = refl
code-digit_char (suc (suc (suc (suc (suc (suc (suc zero))))))) h = refl
code-digit_char (suc (suc (suc (suc (suc (suc (suc (suc zero)))))))) h = refl
code-digit_char (suc (suc (suc (suc (suc (suc (suc (suc (suc zero))))))))) h = refl
code-digit_char (suc (suc (suc (suc (suc (suc (suc (suc (suc (suc n)))))))))) h =
    absurd (omega arith)

digit_char-code : (c : Char) → 48 ≤ code c → code c ≤ 57 → c ≡ digit_char (code c - 48)
digit_char-code c low high =
    Char-path c _ (let e = code-digit_char (code c - 48) (omega arith) in omega arith)

-- A number below 100 in two digits, before a text.
unfoldable pub print_two : ℕ → String → String
unfolding digit_char
print_two n rest = String.◌∷◌ (digit_char (n / 10)) (String.◌∷◌ (digit_char (n % 10)) rest)

pub two_digits-print_two :
    (n : ℕ) (rest : String) → n < 100 → two_digits (print_two n rest) ≡ some (n, rest)
unfolding two_digits print_two
two_digits-print_two n rest h =
    rw (code-digit_char (n / 10) (omega arith), code-digit_char (n % 10) (omega arith))
      (ground arith)

-- Of two characters that are digits, the number and the print.
two_digits-cons :
    (c d : Char) (s rest : String) (n : ℕ)
    → two_digits (String.◌∷◌ c (String.◌∷◌ d s)) ≡ some (n, rest)
    → (48 ≤ code c)
      × (code c ≤ 57)
      × (48 ≤ code d)
      × (code d ≤ 57)
      × ((code c - 48) * 10 + (code d - 48) ≡ n)
      × (s ≡ rest)
unfolding two_digits
two_digits-cons c d s rest n e = ground (arith, e)

pub two_digits-some :
    (s : String) (n : ℕ) (rest : String)
    → two_digits s ≡ some (n, rest)
    → (n < 100) × (s ≡ print_two n rest)
unfolding two_digits print_two
two_digits-some String.[] n rest e = ground (arith, e)
two_digits-some (String.◌∷◌ c String.[]) n rest e = ground (arith, e)
two_digits-some (String.◌∷◌ c (String.◌∷◌ d s)) n rest e =
    let h = two_digits-cons c d s rest n e in
    let tens : code c - 48 ≡ n / 10 = omega arith in
    let ones : code d - 48 ≡ n % 10 = omega arith in
    (
      omega arith,
      ap (λ x. String.◌∷◌ x (String.◌∷◌ d s)) (digit_char-code c h.0 h.1 ∙ ap digit_char tens)
          ∙ ap (λ x. String.◌∷◌ (digit_char (n / 10)) (String.◌∷◌ x s))
              (digit_char-code d h.2 h.3 ∙ ap digit_char ones)
          ∙ ap (λ x. print_two n x) h.5,
    )

pub dash-some : (s rest : String) → dash s ≡ some rest → s ≡ String.◌∷◌ "-" rest
unfolding dash
dash-some String.[] rest e = ground (arith, e)
dash-some (String.◌∷◌ c s) rest e =
    let h : (code c ≡ 45) × (s ≡ rest) = ground (arith, e) in
    ap (λ x. String.◌∷◌ x s) (Char-path c "-" h.0) ∙ ap (λ x. String.◌∷◌ "-" x) h.1
