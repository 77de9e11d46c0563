-- ===== src/Pve/Parse/Given.antt =====
-- internal/pve/parse.go: the tests of a value against what it is.
use Prim.Native.Char.{Char, code}
use pve_exporter.Base.{
  String, ◌≡◌, refl, ap, ◌∙◌, ◌↔◌, Bool, true, false, ◌||◌, arith, ◌==◌, inl, inr, Bool-cases,
  eq_iff,
}
use pve_exporter.Pve.Parse.{is_quoted, is_sentinel}

abbrev pub is_null : String → Bool
is_null b = b == "" || b == "null"

-- The text begins with a quote, whose code is 34.
abbrev pub InQuotes : String → Type 0
InQuotes b = (c : Char) × (rest : String) × (code c ≡ 34) × (b ≡ String.◌∷◌ c rest)

-- The text stands for a number: it is not empty, and not "n/a" in letters of either case.
pub record IsMeant (s : String) : Type 0 where
  pub some_text : ¬ (s ≡ "")
  pub no_small : ¬ (s ≡ "n/a")
  pub no_mixed : ¬ (s ≡ "N/a")
  pub no_swapped : ¬ (s ≡ "n/A")
  pub no_capital : ¬ (s ≡ "N/A")

-- The text is a value of JSON other than null.
abbrev pub IsValue : String → Type 0
IsValue b = ¬ (b ≡ "") × ¬ (b ≡ "null")

apart_iff : (s t : String) → ((s == t) ≡ false) ↔ ¬ (s ≡ t)
apart_iff s t = (
  λ h e. absurd (ground (arith, h, (eq_iff s t).1 e)),
  λ h. elim (Bool-cases (s == t)) [ inl e ↦ absurd (h ((eq_iff s t).0 e)) | inr e ↦ e ],
)

pub is_null-IsValue : (b : String) → (is_null b ≡ false) ↔ IsValue b
is_null-IsValue b = (
  λ h. ((apart_iff b "").0 (ground (arith, h)), (apart_iff b "null").0 (ground (arith, h))),
  λ h. rw ((apart_iff b "").1 h.0, (apart_iff b "null").1 h.1) refl,
)

pub is_sentinel-IsMeant : (s : String) → (is_sentinel s ≡ false) ↔ IsMeant s
is_sentinel-IsMeant s = (
  λ h. record {
    some_text = (apart_iff s "").0 (ground (arith, h));
    no_small = (apart_iff s "n/a").0 (ground (arith, h));
    no_mixed = (apart_iff s "N/a").0 (ground (arith, h));
    no_swapped = (apart_iff s "n/A").0 (ground (arith, h));
    no_capital = (apart_iff s "N/A").0 (ground (arith, h));
  },
  λ h.
      rw
        (
          (apart_iff s "").1 h.some_text,
          (apart_iff s "n/a").1 h.no_small,
          (apart_iff s "N/a").1 h.no_mixed,
          (apart_iff s "n/A").1 h.no_swapped,
          (apart_iff s "N/A").1 h.no_capital,
        )
        refl,
)

pub is_quoted-InQuotes : (b : String) → (is_quoted b ≡ true) ↔ InQuotes b
is_quoted-InQuotes String.[] =
    (λ h. absurd (ground (arith, h)), λ h. let (c, rest, q, e) = h in ap is_quoted e ∙ rw q refl)
is_quoted-InQuotes (String.◌∷◌ c s) = (
  λ h. (c, s, ground (arith, h), refl),
  λ h. let (d, rest, q, e) = h in ap is_quoted e ∙ rw q refl,
)

pub unquoted_iff : (b : String) → (is_quoted b ≡ false) ↔ ¬ (InQuotes b)
unquoted_iff b = (
  λ h q. absurd (ground (arith, h, (is_quoted-InQuotes b).1 q)),
  λ h. elim (Bool-cases (is_quoted b)) [
    | inl e ↦ absurd (h ((is_quoted-InQuotes b).0 e))
    | inr e ↦ e
  ],
)
