-- ===== src/Utils/Env/Matching.antt =====
-- internal/utils/env.go: the scanner against the written form of its pieces.
use mathlib.Core.Path.{subst}
use Prim.Native.Char.{Char, code}
use text.Mathlib.TextEquality.{Char-path}
use text.Mathlib.TextLemmas.{append_assoc as text_assoc, nil-append, cons-append}
use pve_exporter.Base.{
  ℕ, zero, suc, String, ◌<>◌, ◌≡◌, refl, sym, ap, ◌∙◌, true, ◌&&◌, Option, none, some, List, [],
  ◌∷◌, eqb, arith, Bool-cases, inl, inr,
}
use pve_exporter.Utils.Env.{
  Reference, Matched, add_to_fallback, with_fallback, longer, at_dollar, is_name_part,
  is_name_start, match_fallback, match_end, match_name, match_reference, Piece, literal, reference,
  pieces,
}

abbrev single : Char → String
single c = String.◌∷◌ c String.[]

cons_lem : (c : Char) (s : String) → single c <> s ≡ String.◌∷◌ c s
cons_lem c s = simp (cons-append, nil-append) refl

brace_lem : (s : String) → "}" <> s ≡ String.◌∷◌ "}" s
brace_lem s = cons_lem "}" s

colon_dash : (s : String) → ":-" <> s ≡ String.◌∷◌ ":" (String.◌∷◌ "-" s)
colon_dash s = cons-append ":" "-" s ∙ ap (String.◌∷◌ ":") (cons_lem "-" s)

-- The text behind the first `n` characters.
drop : ℕ → String → String
drop zero s = s
drop (suc n) String.[] = String.[]
drop (suc n) (String.◌∷◌ c s) = drop n s

abbrev pub fallback_text : Option String → String
fallback_text none = "}"
fallback_text (some d) = ":-" <> (d <> "}")

abbrev tail_text : Reference → String
tail_text r = r.name <> fallback_text r.fallback

-- A piece as it is written.
abbrev pub piece_text : Piece → String
piece_text (literal c) = single c
piece_text (reference r) = "${" <> tail_text r

abbrev pub text_of : List Piece → String
text_of [] = ""
text_of (p ∷ ps) = piece_text p <> text_of ps

char_of_code : (c d : Char) → eqb (code c) (code d) ≡ true → c ≡ d
char_of_code c d h = Char-path c d (ground (arith, h))

-- What a match of the fallback says of the text.
abbrev FallbackFits : String → Option (String × ℕ) → Type 0
FallbackFits s none = Unit
FallbackFits s (some (d, n)) = d <> ("}" <> drop n s) ≡ s

add_to_fallback-FallbackFits :
    (c : Char) (s : String) (m : Option (String × ℕ))
    → FallbackFits s m
    → FallbackFits (String.◌∷◌ c s) (add_to_fallback c m)
unfolding drop
add_to_fallback-FallbackFits c s none h = tt
add_to_fallback-FallbackFits c s (some (d, n)) h = cons-append c d _ ∙ ap (String.◌∷◌ c) h

match_fallback-FallbackFits : (s : String) → FallbackFits s (match_fallback s)
unfolding match_fallback drop
match_fallback-FallbackFits String.[] = tt
match_fallback-FallbackFits (String.◌∷◌ c s) = elim (Bool-cases (eqb (code c) 125)) [
  | inl e ↦
      rw e (nil-append _ ∙ brace_lem s ∙ ap (λ b. String.◌∷◌ b s) (sym (char_of_code c "}" e)))
  | inr e ↦
      rw e (add_to_fallback-FallbackFits c s (match_fallback s) (match_fallback-FallbackFits s))
]

-- What a match says of the text that it starts in, `before` being the part of the name behind it.
abbrev Fits : String → String → Option Matched → Type 0
Fits before s none = Unit
Fits before s (some m) = tail_text m.reference <> drop m.length s ≡ before <> s

longer-Fits :
    (before : String) (c : Char) (s : String) (m : Option Matched)
    → Fits (before <> single c) s m
    → Fits before (String.◌∷◌ c s) (longer m)
unfolding drop
longer-Fits before c s none h = tt
longer-Fits before c s (some m) h =
    h ∙ text_assoc before (single c) s ∙ ap (λ t. before <> t) (cons_lem c s)

with_fallback-Fits :
    (name : String) (s : String) (m : Option (String × ℕ))
    → FallbackFits s m
    → Fits name (String.◌∷◌ ":" (String.◌∷◌ "-" s)) (with_fallback name m)
unfolding drop
with_fallback-Fits name s none h = tt
with_fallback-Fits name s (some (d, n)) h =
    text_assoc name (":-" <> (d <> "}")) (drop n s)
    ∙ ap (λ t. name <> t)
        (text_assoc ":-" (d <> "}") (drop n s)
          ∙ ap (λ t. ":-" <> t) (text_assoc d "}" (drop n s) ∙ h)
          ∙ colon_dash s)

closed :
    (name : String) (c : Char) (s : String)
    → eqb (code c) 125 ≡ true
    → (name <> "}") <> s ≡ name <> String.◌∷◌ c s
closed name c s e =
    text_assoc name "}" s
    ∙ ap (λ t. name <> t) (brace_lem s ∙ ap (λ b. String.◌∷◌ b s) (sym (char_of_code c "}" e)))

at_colon_dash :
    (c d : Char)
    → c ≡ ":"
    → d ≡ "-"
    → (s name : String)
    → Fits name (String.◌∷◌ ":" (String.◌∷◌ "-" s)) (with_fallback name (match_fallback s))
    → Fits name (String.◌∷◌ c (String.◌∷◌ d s)) (with_fallback name (match_fallback s))
at_colon_dash c d e f s name h =
    subst (λ x. Fits name (String.◌∷◌ x (String.◌∷◌ d s)) (with_fallback name (match_fallback s)))
      (sym e)
      (subst
        (λ x. Fits name (String.◌∷◌ ":" (String.◌∷◌ x s)) (with_fallback name (match_fallback s)))
        (sym f) h)

match_end-Fits : (name s : String) → Fits name s (match_end name s)
unfolding match_end drop
match_end-Fits name String.[] = tt
match_end-Fits name (String.◌∷◌ c String.[]) = elim (Bool-cases (eqb (code c) 125)) [
  | inl e ↦ rw e (closed name c String.[] e)
  | inr e ↦ rw e tt
]
match_end-Fits name (String.◌∷◌ c (String.◌∷◌ d s)) = elim (Bool-cases (eqb (code c) 125)) [
  | inl e ↦ rw e (closed name c (String.◌∷◌ d s) e)
  | inr e ↦ elim (Bool-cases (eqb (code c) 58 && eqb (code d) 45)) [
    | inr f ↦ rw (e, f) tt
    | inl f ↦
        rw (e, f)
          (at_colon_dash c d (char_of_code c ":" (ground (arith, f)))
            (char_of_code d "-" (ground (arith, f))) s name
            (with_fallback-Fits name s (match_fallback s) (match_fallback-FallbackFits s)))
  ]
]

match_name-Fits : (s name : String) → Fits name s (match_name name s)
unfolding match_name
match_name-Fits String.[] name = tt
match_name-Fits (String.◌∷◌ c s) name = elim (Bool-cases (is_name_part (code c))) [
  | inl e ↦ rw e (longer-Fits name c s _ (match_name-Fits s (name <> single c)))
  | inr e ↦ rw e (match_end-Fits name (String.◌∷◌ c s))
]

abbrev ReferenceFits : String → Option Matched → Type 0
ReferenceFits s none = Unit
ReferenceFits s (some m) = "{" <> (tail_text m.reference <> drop m.length s) ≡ s

in_braces :
    (b c : Char) (s : String) (m : Option Matched)
    → b ≡ "{"
    → Fits (single c) s m
    → ReferenceFits (String.◌∷◌ b (String.◌∷◌ c s)) (longer (longer m))
unfolding drop
in_braces b c s none e h = tt
in_braces b c s (some m) e h =
    ap (λ t. "{" <> t) (h ∙ cons_lem c s)
    ∙ cons_lem "{" (String.◌∷◌ c s)
    ∙ ap (λ x. String.◌∷◌ x (String.◌∷◌ c s)) (sym e)

match_reference-ReferenceFits : (s : String) → ReferenceFits s (match_reference s)
unfolding match_reference
match_reference-ReferenceFits String.[] = tt
match_reference-ReferenceFits (String.◌∷◌ b String.[]) = tt
match_reference-ReferenceFits (String.◌∷◌ b (String.◌∷◌ c s)) =
    elim (Bool-cases (eqb (code b) 123 && is_name_start (code c))) [
      | inl e ↦ rw e (
          in_braces b c s _ (char_of_code b "{" (ground (arith, e))) (match_name-Fits s (single c)))
      | inr e ↦ rw e tt
    ]

dollar_brace : (x : String) → "${" <> x ≡ String.◌∷◌ "$" ("{" <> x)
dollar_brace x = cons-append "$" "{" x

-- A `$` with a match behind it or none.
at_dollar-text :
    (c : Char) (s : String) (m : Option Matched)
    → c ≡ "$"
    → ((n : ℕ) → text_of (pieces n s) ≡ drop n s)
    → ReferenceFits s m
    → text_of (at_dollar c m (pieces zero s) (λ n. pieces n s)) ≡ String.◌∷◌ c s
unfolding drop
at_dollar-text c s none e behind h = ap (λ t. single c <> t) (behind zero) ∙ cons_lem c s
at_dollar-text c s (some m) e behind h =
    ap (λ t. ("${" <> tail_text m.reference) <> t) (behind m.length)
    ∙ text_assoc "${" (tail_text m.reference) (drop m.length s)
    ∙ dollar_brace _
    ∙ ap (String.◌∷◌ "$") h
    ∙ ap (λ x. String.◌∷◌ x s) (sym e)

text_of-pieces_from : (s : String) (n : ℕ) → text_of (pieces n s) ≡ drop n s
unfolding pieces drop
text_of-pieces_from String.[] zero = refl
text_of-pieces_from String.[] (suc n) = refl
text_of-pieces_from (String.◌∷◌ c s) (suc n) = text_of-pieces_from s n
text_of-pieces_from (String.◌∷◌ c s) zero = elim (Bool-cases (eqb (code c) 36)) [
  | inl e ↦ rw e (
      at_dollar-text c s (match_reference s) (char_of_code c "$" e) (text_of-pieces_from s)
        (match_reference-ReferenceFits s))
  | inr e ↦ rw e (ap (λ t. single c <> t) (text_of-pieces_from s zero) ∙ cons_lem c s)
]

-- The pieces of a text, written out one after the other, give the text back: the scanner drops
-- nothing, and each reference stands for exactly the text that it replaces.
pub text_of-pieces : (s : String) → text_of (pieces 0 s) ≡ s
text_of-pieces s = unfold drop in text_of-pieces_from s 0
