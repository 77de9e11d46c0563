-- ===== src/Base/Distinct.antt =====
-- Lists of texts without repetition, in the program's own test for membership.
use Prim.Native.String.{String}
use mathlib.Core.Path.{◌≡◌, refl}
use mathlib.Core.Bool.{false, ◌||◌, or-false}
use mathlib.Core.List.{List, [], ◌∷◌, ◌++◌}
use native.Mathlib.Omega.{arith}
use text.Mathlib.Text.{◌==◌}
use text.Mathlib.TextEquality.{eq_iff}
use pve_exporter.Base.Dict.{contains}

abbrev pub IsDistinct : List String → Type 0
IsDistinct [] = Unit
IsDistinct (x ∷ xs) = (contains x xs ≡ false) × IsDistinct xs

pub contains-append :
    (n : String) (xs ys : List String) → contains n (xs ++ ys) ≡ (contains n xs || contains n ys)
unfolding contains
contains-append n [] ys = refl
contains-append n (x ∷ xs) ys = ground (arith, contains-append n xs ys)

pub contains-singleton : (n x : String) → contains n (x ∷ []) ≡ (x == n)
unfolding contains
contains-singleton n x = or-false (x == n)

pub IsDistinct-append :
    (xs : List String) (x : String)
    → IsDistinct xs
    → contains x xs ≡ false
    → IsDistinct (xs ++ x ∷ [])
unfolding contains
IsDistinct-append [] x d h = (refl, tt)
IsDistinct-append (y ∷ xs) x d h = (
  ground (arith, contains-append y xs (x ∷ []), eq_iff x y, eq_iff y x),
  IsDistinct-append xs x d.1 (ground arith),
)
