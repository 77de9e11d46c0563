-- ===== src/Base/Float.antt =====
-- Go's float64 as its IEEE 754 bit pattern, with the conversions that the source makes.
pub mod Integers
use Prim.Native.Nat.{ℕ, zero, suc, ◌+◌, ◌-◌, ◌*◌, ◌/◌, ◌%◌, ◌^◌}
use Prim.Native.String.{String, ◌++◌ as ◌<>◌}
use mathlib.Core.Path.{◌≡◌, refl}
use mathlib.Core.Bool.{Bool, ◌&&◌, ◌||◌}
use pve_exporter.Base.Tests.{ltb, leb, eqb, if◌then◌else◌}
use pve_exporter.Base.Text.{decimal}

pub record Float64 : Type 0 where
  pub bits : ℕ

abbrev pub float_zero : Float64
float_zero = record { bits = 0 }

abbrev pub float_one : Float64
float_one = record { bits = 0x3ff0000000000000 }

-- x == 1: the value 1 has one bit pattern
abbrev pub is_one : Float64 → Bool
is_one x = eqb x.bits 0x3ff0000000000000

-- x == 0: both zeros are equal to 0
abbrev pub is_zero : Float64 → Bool
is_zero x = eqb x.bits 0 || eqb x.bits (2 ^ 63)

-- The number of binary digits of `n` after the first, for `n` below 2 ^ fuel.
log2 : ℕ → ℕ → ℕ
log2 zero n = 0
log2 (suc fuel) n = let more = suc (log2 fuel (n / 2)) in if ltb n 2 then 0 else more

-- `n / 2 ^ k`, rounded to the nearest integer, and to the even one of two.
round_shift : ℕ → ℕ → ℕ
round_shift n k =
    let q = n / 2 ^ k in
    let r = n % 2 ^ k * 2 in if ltb r (2 ^ k) || eqb r (2 ^ k) && eqb (q % 2) 0 then q else q + 1

-- The float of `n`, which has `e` binary digits after the first. A carry out of the significand
-- raises the exponent.
assemble : ℕ → ℕ → Float64
unfolding round_shift
assemble n e =
    if eqb n 0
    then record { bits = 0 }
    else if leb e 52
    then record { bits = (1022 + e) * 2 ^ 52 + n * 2 ^ (52 - e) }
    else record { bits = (1022 + e) * 2 ^ 52 + round_shift n (e - 52) }

-- float64(n) for 0 ≤ n < 2 ^ 64
unfoldable pub of_uint : ℕ → Float64
unfolding log2 assemble
of_uint n = assemble n (log2 64 n)

-- float64(x) for an int64 given by its two's complement pattern
unfoldable pub of_int64 : ℕ → Float64
unfolding of_uint
of_int64 x =
    if ltb x (2 ^ 63) then of_uint x else record { bits = 2 ^ 63 + (of_uint (2 ^ 64 - x)).bits }

exponent : Float64 → ℕ
exponent x = x.bits / 2 ^ 52 % 2 ^ 11

-- The magnitude, cut to an integer.
truncate : Float64 → ℕ
unfolding exponent
truncate x =
    let e = exponent x in
    let m = 2 ^ 52 + x.bits % 2 ^ 52 in
    if ltb e 1023 then 0 else if leb 1075 e then m * 2 ^ (e - 1075) else m / 2 ^ (1075 - e)

-- strconv.FormatInt(int64(x), 10). Go leaves int64(x) to the implementation where `x` is out of
-- range or no number: there this is the answer of amd64, the least int64.
unfoldable pub format_int : Float64 → String
unfolding truncate decimal
format_int x =
    let t = truncate x in
    if leb (2 ^ 63) t
    then "-9223372036854775808"
    else if leb (2 ^ 63) x.bits && ltb 0 t
    then "-" <> decimal t
    else decimal t

of_uint_tests : (of_uint 1 ≡ float_one) × ((of_uint 3).bits ≡ 0x4008000000000000)
unfolding of_uint
of_uint_tests = (refl, refl)

of_uint_rounds : (of_uint (2 ^ 53 + 1)).bits ≡ 0x4340000000000000
unfolding of_uint
of_uint_rounds = refl

format_int_tests :
    (format_int (of_uint 100) ≡ "100")
    × (format_int (of_int64 (2 ^ 64 - 7)) ≡ "-7")
    × (format_int (record { bits = 0x3fb999999999999a }) ≡ "0")
unfolding format_int of_int64
format_int_tests = (refl, refl, refl)
