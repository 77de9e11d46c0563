-- ===== src/Base/Path.antt =====
-- What the source uses of Go's `path/filepath`, on a system whose separator is the slash.
use Prim.Native.Char.{Char, char, code}
use pve_exporter.Base.{
  String, ◌<>◌, ◌≡◌, refl, ap, inl, inr, Bool-cases, Bool, true, false, ◌||◌, List, [], ◌∷◌, eqb,
  ◌==◌, if◌then◌else◌, arith, eq_iff,
}
use pve_exporter.Base.Text.{join}

abbrev pub is_slash : Char → Bool
is_slash c = eqb (code c) 47

abbrev before_first : Char → List String → List String
before_first c [] = String.◌∷◌ c "" ∷ []
before_first c (x ∷ xs) = String.◌∷◌ c x ∷ xs

-- The elements between the slashes.
unfoldable pub split : String → List String
split String.[] = "" ∷ []
split (String.◌∷◌ c s) = let rest = split s in if is_slash c then "" ∷ rest else before_first c rest

-- The elements so far, the last first, behind a `..`.
abbrev back : Bool → List String → List String
back true [] = []
back false [] = ".." ∷ []
back rooted (x ∷ out) = if x == ".." then ".." ∷ x ∷ out else out

-- The elements of a cleaned path, behind those so far, the last first.
clean_elements : Bool → List String → List String → List String
clean_elements rooted out [] = out
clean_elements rooted out (x ∷ xs) =
    let same = clean_elements rooted out xs in
    let less = clean_elements rooted (back rooted out) xs in
    let more = clean_elements rooted (x ∷ out) xs in
    if x == "" || x == "." then same else if x == ".." then less else more

reversed : List String → List String → List String
reversed acc [] = acc
reversed acc (x ∷ xs) = reversed (x ∷ acc) xs

abbrev is_rooted : String → Bool
is_rooted String.[] = false
is_rooted (String.◌∷◌ c s) = is_slash c

abbrev slash : Char
slash = char 47 tt

abbrev is_cons : String → Bool
is_cons String.[] = false
is_cons (String.◌∷◌ c s) = true

pub ne_cons : (c : Char) (s : String) → (String.◌∷◌ c s == "") ≡ false
ne_cons c s = elim (Bool-cases (String.◌∷◌ c s == "")) [
  | inl e ↦ ground (arith, ap is_cons ((eq_iff (String.◌∷◌ c s) "").0 e))
  | inr e ↦ e
]

abbrev finish : Bool → String → String
finish true elements = String.◌∷◌ slash elements
finish false elements = if elements == "" then "." else elements

-- filepath.Clean
unfoldable pub clean : String → String
unfolding split clean_elements reversed
clean path =
    finish (is_rooted path)
      (join "/" (reversed [] (clean_elements (is_rooted path) [] (split path))))

up_to_slash : String → String
up_to_slash String.[] = ""
up_to_slash (String.◌∷◌ c s) =
    let rest = up_to_slash s in
    if rest == "" then if is_slash c then "/" else "" else String.◌∷◌ c rest

-- filepath.Dir
unfoldable pub dir : String → String
unfolding up_to_slash clean
dir path = clean (up_to_slash path)

last_element : String → List String → String
last_element found [] = found
last_element found (x ∷ xs) = last_element (if x == "" then found else x) xs

-- filepath.Base
unfoldable pub base : String → String
unfolding split last_element
base path = if path == "" then "." else last_element "/" (split path)

-- filepath.Join on two elements
unfoldable pub join_path : String → String → String
unfolding clean
join_path a b = if a == "" then if b == "" then "" else clean b else clean (a <> ("/" <> b))

dir_test : dir "/etc//pve/../exporter/config.yaml" ≡ "/etc/exporter"
unfolding dir join
dir_test = refl

dir_test_plain : dir "config.yaml" ≡ "."
unfolding dir join
dir_test_plain = refl

base_test : base "/etc/pve/config.yaml//" ≡ "config.yaml"
unfolding base
base_test = refl

join_test : join_path "." ".env" ≡ ".env"
unfolding join_path join
join_test = refl

finish_nonempty : (rooted : Bool) (elements : String) → (finish rooted elements == "") ≡ false
finish_nonempty true elements = ne_cons slash elements
finish_nonempty false elements = elim (Bool-cases (elements == "")) [
  | inl e ↦ rw (e, finish) refl
  | inr e ↦ rw (e, finish) e
]

-- A cleaned path is never empty.
clean_nonempty : (path : String) → (clean path == "") ≡ false
unfolding clean
clean_nonempty path = finish_nonempty (is_rooted path) _

pub dir_nonempty : (path : String) → (dir path == "") ≡ false
unfolding dir
dir_nonempty path = clean_nonempty (up_to_slash path)
