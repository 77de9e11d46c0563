-- ===== src/Base/Text.antt =====
-- What the source uses of Go's `strings` and `strconv`, over texts as lists of code points.
use Prim.Native.Nat.{ℕ, zero, suc, ◌+◌, ◌/◌, ◌%◌}
use Prim.Native.Char.{Char, code}
use Prim.Native.String.{String, ◌++◌ as ◌<>◌}
use mathlib.Core.Path.{◌≡◌, refl}
use mathlib.Core.Bool.{Bool, true, false, ◌&&◌, ◌||◌}
use mathlib.Core.List.{List, [], ◌∷◌}
use text.Mathlib.Text.{◌==◌}
use pve_exporter.Base.Tests.{ltb, leb, eqb, if◌then◌else◌}

-- strings.Contains(s, c) for a text `c` of one ASCII character with this code
unfoldable pub contains_code : ℕ → String → Bool
contains_code c String.[] = false
contains_code c (String.◌∷◌ d s) = eqb (code d) c || contains_code c s

-- strings.HasSuffix
unfoldable pub has_suffix : String → String → Bool
has_suffix String.[] suffix = suffix == ""
has_suffix (String.◌∷◌ c s) suffix = String.◌∷◌ c s == suffix || has_suffix s suffix

-- unicode.IsSpace
abbrev pub is_space : Char → Bool
is_space d =
    let c = code d in
    leb 9 c && leb c 13
    || eqb c 32
    || eqb c 0x85
    || eqb c 0xa0
    || eqb c 0x1680
    || leb 0x2000 c && leb c 0x200a
    || eqb c 0x2028
    || eqb c 0x2029
    || eqb c 0x202f
    || eqb c 0x205f
    || eqb c 0x3000

trim_left : String → String
trim_left String.[] = ""
trim_left (String.◌∷◌ c s) = let rest = trim_left s in if is_space c then rest else String.◌∷◌ c s

-- A character before a text that is trimmed on the right.
keep : Char → String → String
keep c s = if is_space c && s == "" then "" else String.◌∷◌ c s

trim_right : String → String
trim_right String.[] = ""
trim_right (String.◌∷◌ c s) = keep c (trim_right s)

-- strings.TrimSpace
unfoldable pub trim_space : String → String
unfolding trim_left trim_right keep
trim_space s = trim_right (trim_left s)

drop_quotes : String → String
drop_quotes String.[] = ""
drop_quotes (String.◌∷◌ c s) =
    let rest = drop_quotes s in if eqb (code c) 34 then rest else String.◌∷◌ c s

keep_unquoted : Char → String → String
keep_unquoted c s = if eqb (code c) 34 && s == "" then "" else String.◌∷◌ c s

drop_end_quotes : String → String
drop_end_quotes String.[] = ""
drop_end_quotes (String.◌∷◌ c s) = keep_unquoted c (drop_end_quotes s)

-- strings.Trim with a cutset of one double quote
unfoldable pub trim_quotes : String → String
unfolding drop_quotes drop_end_quotes keep_unquoted
trim_quotes s = drop_end_quotes (drop_quotes s)

-- strings.Join
unfoldable pub join : String → List String → String
join separator [] = ""
join separator (x ∷ []) = x
join separator (x ∷ y ∷ rest) = x <> (separator <> join separator (y ∷ rest))

-- unicode.ToLower on a code point, as far as the result is ASCII: the capitals, the Kelvin sign and
-- the dotted capital I. Any other letter stays out of ASCII, so it is left as it is.
lower_code : ℕ → ℕ
lower_code c =
    if leb 65 c && leb c 90
    then c + 32
    else if eqb c 0x212a
    then 107
    else if eqb c 0x130
    then 105
    else c

-- strings.ToLower(s) == key, for an ASCII key
unfoldable pub lower_eq : String → String → Bool
unfolding lower_code
lower_eq String.[] String.[] = true
lower_eq String.[] (String.◌∷◌ d key) = false
lower_eq (String.◌∷◌ c s) String.[] = false
lower_eq (String.◌∷◌ c s) (String.◌∷◌ d key) = eqb (lower_code (code c)) (code d) && lower_eq s key

digit : ℕ → String
digit n =
    if eqb n 0
    then "0"
    else if eqb n 1
    then "1"
    else if eqb n 2
    then "2"
    else if eqb n 3
    then "3"
    else if eqb n 4
    then "4"
    else if eqb n 5
    then "5"
    else if eqb n 6
    then "6"
    else if eqb n 7
    then "7"
    else if eqb n 8
    then "8"
    else "9"

digits : ℕ → ℕ → String → String
digits zero n acc = acc
digits (suc fuel) n acc =
    let more = digits fuel (n / 10) (digit (n % 10) <> acc) in
    if ltb n 10 then digit n <> acc else more

-- The base-10 notation, as by fmt's %d and strconv.FormatInt. `n + 1` digits are enough.
unfoldable pub decimal : ℕ → String
unfolding digits digit
decimal n = digits (n + 1) n ""

decimal_test : decimal 1713382503 ≡ "1713382503"
unfolding decimal
decimal_test = refl

trim_test : trim_space " \t a b \n" ≡ "a b"
unfolding trim_space
trim_test = refl

suffix_test : has_suffix "pve_disk_read_bytes_total" "_total" ≡ true
unfolding has_suffix
suffix_test = refl
