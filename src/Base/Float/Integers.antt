-- ===== src/Base/Float/Integers.antt =====
-- internal/pve/parse.go: the texts of the floats that are integers.
use Prim.Native.Nat.{ℕ, zero, suc, ◌+◌, ◌-◌, ◌*◌, ◌/◌, ◌%◌, ◌^◌, ◌≤◌, ◌<◌}
use mathlib.Core.Path.{◌≡◌, refl, sym, ap, ◌∙◌}
use mathlib.Core.Logic.{inl, inr}
use mathlib.Core.Bool.{true, false}
use native.Mathlib.Omega.{arith}
use native.Mathlib.Nat.{
  add-zero, add-suc, pow-suc, mul_assoc, mul-div_cancel, mul-le-mul_right, mul-lt-mul_of_pos_right,
  pow-le-pow_right,
}
use pve_exporter.Base.Tests.{Bool-cases, ltb, leb, eqb}
use pve_exporter.Base.Text.{decimal}
use pve_exporter.Base.Float.{Float64, log2, assemble, of_uint, truncate, format_int}

log2_small : (fuel n : ℕ) → ltb n 2 ≡ true → log2 (suc fuel) n ≡ 0
unfolding log2
log2_small fuel n h = rw h refl

log2_large : (fuel n : ℕ) → ltb n 2 ≡ false → log2 (suc fuel) n ≡ suc (log2 fuel (n / 2))
unfolding log2
log2_large fuel n h = rw h refl

-- The binary digits after the first give the power of two at or below a number.
log2-bounds :
    (fuel n : ℕ) → 0 < n → n < 2 ^ fuel → (2 ^ log2 fuel n ≤ n) × (n < 2 ^ suc (log2 fuel n))
log2-bounds zero n pos h = absurd (omega arith)
log2-bounds (suc fuel) n pos h = elim (Bool-cases (ltb n 2)) [
  | inl one ↦ rw (log2_small fuel n one) (ground (arith, one))
  | inr more ↦
      let two : 2 ≤ n = ground (arith, more) in
      let half = log2-bounds fuel (n / 2) (omega arith) (omega arith) in
      rw (log2_large fuel n more) (omega (arith, half.0), omega (arith, half.1))
]

two_pow-add : (i j : ℕ) → 2 ^ (i + j) ≡ 2 ^ i * 2 ^ j
two_pow-add i zero = rw (add-zero i) (omega arith)
two_pow-add i (suc j) =
    rw (add-suc i j, pow-suc 2 (i + j), pow-suc 2 j, two_pow-add i j) (mul_assoc (2 ^ i) (2 ^ j) 2)

log2-le : (n : ℕ) → 0 < n → n < 2 ^ 53 → log2 64 n ≤ 52
log2-le n pos h =
    let b = log2-bounds 64 n pos (omega arith) in
    elim (Bool-cases (leb (log2 64 n) 52)) [
      | inl le ↦ ground (arith, le)
      | inr gt ↦
          let large : 53 ≤ log2 64 n = ground (arith, gt) in
          let p : 2 ^ 53 ≤ 2 ^ log2 64 n = pow-le-pow_right (omega arith) large in
          absurd (omega arith)
    ]

exponent_of :
    (e q : ℕ)
    → e ≤ 52
    → 2 ^ 52 ≤ q
    → q < 2 ^ 53
    → ((1022 + e) * 2 ^ 52 + q) / 2 ^ 52 % 2 ^ 11 ≡ 1023 + e
exponent_of e q h low high = omega arith

significand_of :
    (e q : ℕ) → 2 ^ 52 ≤ q → q < 2 ^ 53 → 2 ^ 52 + ((1022 + e) * 2 ^ 52 + q) % 2 ^ 52 ≡ q
significand_of e q low high = omega arith

rest : (e : ℕ) → e ≤ 52 → e + (52 - e) ≡ 52
rest e h = omega arith

rest_suc : (e : ℕ) → e ≤ 52 → suc e + (52 - e) ≡ 53
rest_suc e h = omega arith

-- The significand of an integer with `e` binary digits after the first.
significand-bounds :
    (e n : ℕ)
    → e ≤ 52
    → 2 ^ e ≤ n
    → n < 2 ^ suc e
    → (2 ^ 52 ≤ n * 2 ^ (52 - e)) × (n * 2 ^ (52 - e) < 2 ^ 53)
significand-bounds e n h low high =
    let whole = sym (two_pow-add e (52 - e)) ∙ ap (λ k. 2 ^ k) (rest e h) in
    let twice = sym (two_pow-add (suc e) (52 - e)) ∙ ap (λ k. 2 ^ k) (rest_suc e h) in
    let least = mul-le-mul_right (2 ^ (52 - e)) low in
    let most =
      mul-lt-mul_of_pos_right high (pow-le-pow_right {n = 2} (omega arith) {i = 0} (omega arith)) in
    (rw (← whole) least, rw (← twice) most)

assemble-bits :
    (n e : ℕ) → 0 < n → e ≤ 52 → (assemble n e).bits ≡ (1022 + e) * 2 ^ 52 + n * 2 ^ (52 - e)
unfolding assemble
assemble-bits n e pos h =
    let some : eqb n 0 ≡ false = ground arith in
    let small : leb e 52 ≡ true = ground arith in rw (some, small) refl

truncate_at :
    (x : Float64) (e n q : ℕ)
    → e ≤ 52
    → n * 2 ^ (52 - e) ≡ q
    → 2 ^ 52 ≤ q
    → q < 2 ^ 53
    → x.bits ≡ (1022 + e) * 2 ^ 52 + q
    → truncate x ≡ n
unfolding truncate
truncate_at x e n q h same low high b =
    let large : ltb (1023 + e) 1023 ≡ false = ground arith in
    rw (b, exponent_of e q h low high, significand_of e q low high, large)
      (elim (Bool-cases (leb 1075 (1023 + e))) [
        | inl last ↦
            let e_last : e ≡ 52 = ground (arith, last) in
            let none : 52 - e ≡ 0 = omega arith in
            let shift : 1023 + e - 1075 ≡ 0 = omega arith in
            let one : n * 2 ^ 0 ≡ q = ap (λ k. n * 2 ^ k) (sym none) ∙ same in
            rw (last, shift) (omega arith)
        | inr less ↦
            let shift : 1075 - (1023 + e) ≡ 52 - e = omega arith in
            rw (less, shift, sym same)
              (mul-div_cancel n (pow-le-pow_right {n = 2} (omega arith) {i = 0} (omega arith)))
      ])

-- What the float of an integer that 53 binary digits hold has in its bits.
record Holds (x : Float64) (n : ℕ) : Type 0 where
  cut : truncate x ≡ n
  positive : x.bits < 2 ^ 63

of_uint-Holds : (n : ℕ) → 0 < n → n < 2 ^ 53 → Holds (of_uint n) n
unfolding of_uint
of_uint-Holds n pos h =
    let e = log2 64 n in
    let le = log2-le n pos h in
    let b = log2-bounds 64 n pos (omega arith) in
    let q = significand-bounds e n le b.0 b.1 in
    let bits = assemble-bits n e pos le in
    record {
      cut = truncate_at (assemble n e) e n (n * 2 ^ (52 - e)) le refl q.0 q.1 bits;
      positive = rw bits (omega arith);
    }

zero_text : format_int (of_uint 0) ≡ decimal 0
unfolding format_int of_uint
zero_text = refl

-- The text of the float of an integer that 53 binary digits hold is that of the integer.
pub format_int-of_uint : (n : ℕ) → n < 2 ^ 53 → format_int (of_uint n) ≡ decimal n
unfolding format_int
format_int-of_uint n h = elim (Bool-cases (eqb n 0)) [
  | inl none ↦ let same : n ≡ 0 = ground (arith, none) in rw same zero_text
  | inr more ↦
      let k = of_uint-Holds n (ground (arith, more)) h in
      let fits : leb (2 ^ 63) n ≡ false = ground arith in
      let positive : leb (2 ^ 63) (of_uint n).bits ≡ false = ground (arith, k.positive) in
      rw (k.cut, fits, positive) refl
]
