-- ===== src/Utils/Env/Written.antt =====
-- internal/utils/env.go: the scanner on a text that is written as literals and references.
use Prim.Native.Char.{Char, code}
use text.Mathlib.TextLemmas.{
  append_assoc as text_assoc, nil-append, cons-append, append-nil as text_nil,
}
use pve_exporter.Base.{
  ℕ, suc, ◌+◌, ◌≤◌, String, ◌<>◌, ◌≡◌, ◌⊎◌, refl, sym, ap, ◌∙◌, true, false, Option, none, some,
  List, [], ◌∷◌, All, eqb, arith,
}
use pve_exporter.Utils.Env.{
  Reference, Matched, longer, at_dollar, is_name_part, is_name_start, match_fallback, match_end,
  match_name, match_reference, Piece, literal, reference, pieces,
}
use pve_exporter.Utils.Env.Matching.{fallback_text, piece_text, text_of}

-- A letter of ASCII, or the underscore, whose code is 95.
abbrev pub IsLetter : ℕ → Type 0
IsLetter c = ((65 ≤ c) × (c ≤ 90)) ⊎ ((97 ≤ c) × (c ≤ 122)) ⊎ (c ≡ 95)

-- A letter or a digit.
abbrev pub IsPart : ℕ → Type 0
IsPart c = IsLetter c ⊎ ((48 ≤ c) × (c ≤ 57))

abbrev pub AreParts : String → Type 0
AreParts String.[] = Unit
AreParts (String.◌∷◌ c s) = IsPart (code c) × AreParts s

-- The name of a variable: a letter, and letters and digits behind it.
abbrev pub IsName : String → Type 0
IsName String.[] = ⊥
IsName (String.◌∷◌ c s) = IsLetter (code c) × AreParts s

-- No closing brace, whose code is 125.
abbrev pub IsOpen : String → Type 0
IsOpen String.[] = Unit
IsOpen (String.◌∷◌ c s) = ¬ (code c ≡ 125) × IsOpen s

abbrev pub IsFallback : Option String → Type 0
IsFallback none = Unit
IsFallback (some d) = IsOpen d

-- A literal is no dollar sign, whose code is 36.
abbrev pub IsWritten : Piece → Type 0
IsWritten (literal c) = ¬ (code c ≡ 36)
IsWritten (reference r) = IsName r.name × IsFallback r.fallback

abbrev size : String → ℕ
size String.[] = 0
size (String.◌∷◌ c s) = suc (size s)

-- The text behind the name of a reference, before the text `t`.
abbrev behind : Option String → String → String
behind none t = String.◌∷◌ "}" t
behind (some d) t = String.◌∷◌ ":" (String.◌∷◌ "-" (d <> String.◌∷◌ "}" t))

abbrev closing : Option String → ℕ
closing none = 1
closing (some d) = suc (suc (size d + 1))

cons_lem : (c : Char) (s : String) → String.◌∷◌ c String.[] <> s ≡ String.◌∷◌ c s
cons_lem c s = simp (cons-append, nil-append) refl

match_fallback-brace :
    (d t : String) → IsOpen d → match_fallback (d <> String.◌∷◌ "}" t) ≡ some (d, size d + 1)
unfolding match_fallback
match_fallback-brace String.[] t h = ap match_fallback (nil-append (String.◌∷◌ "}" t))
match_fallback-brace (String.◌∷◌ c d) t h =
    let other : eqb (code c) 125 ≡ false = ground (arith, h.0) in
    ap match_fallback (cons-append c d _)
    ∙ rw (other, match_fallback-brace d t h.1)
        (ap (λ (l : ℕ). some (String.◌∷◌ c d, l)) (omega arith))

match_end-behind :
    (name : String) (f : Option String) (t : String)
    → IsFallback f
    → match_end name (behind f t)
      ≡ some (record { reference = record { name = name; fallback = f }; length = closing f })
unfolding match_end
match_end-behind name none String.[] h = refl
match_end-behind name none (String.◌∷◌ c t) h = refl
match_end-behind name (some d) t h = rw (match_fallback-brace d t h) refl

match_name-behind :
    (name : String) (f : Option String) (t : String)
    → match_name name (behind f t) ≡ match_end name (behind f t)
unfolding match_name
match_name-behind name none t = refl
match_name-behind name (some d) t = refl

-- A match with the characters of a text before it.
abbrev longer_by : String → Option Matched → Option Matched
longer_by String.[] m = m
longer_by (String.◌∷◌ c s) m = longer (longer_by s m)

match_name-parts :
    (n name rest : String)
    → AreParts n
    → match_name name (n <> rest) ≡ longer_by n (match_name (name <> n) rest)
unfolding match_name
match_name-parts String.[] name rest h =
    ap (match_name name) (nil-append rest) ∙ ap (λ x. match_name x rest) (sym (text_nil name))
match_name-parts (String.◌∷◌ c n) name rest h =
    let part : is_name_part (code c) ≡ true = ground (arith, h.0) in
    ap (match_name name) (cons-append c n rest)
    ∙ rw part (
        ap longer (
          match_name-parts n (name <> String.◌∷◌ c String.[]) rest h.1
          ∙ ap (λ x. longer_by n (match_name x rest))
              (text_assoc name (String.◌∷◌ c String.[]) n ∙ ap (λ x. name <> x) (cons_lem c n))))

longer_by-some :
    (n : String) (r : Reference) (k : ℕ)
    → longer_by n (some (record { reference = r; length = k }))
      ≡ some (record { reference = r; length = size n + k })
longer_by-some String.[] r k = ap (λ l. some (record { reference = r; length = l })) (omega arith)
longer_by-some (String.◌∷◌ c n) r k =
    ap longer (longer_by-some n r k)
    ∙ ap (λ l. some (record { reference = r; length = l })) (omega arith)

-- Skipping a text.
pieces-skip : (w t : String) (k : ℕ) → pieces (size w + k) (w <> t) ≡ pieces k t
unfolding pieces
pieces-skip String.[] t k = let e : 0 + k ≡ k = omega arith in rw e (ap (pieces k) (nil-append t))
pieces-skip (String.◌∷◌ c w) t k =
    let e : suc (size w) + k ≡ suc (size w + k) = omega arith in
    rw e (ap (pieces (suc (size w + k))) (cons-append c w t) ∙ pieces-skip w t k)

pieces-behind : (f : Option String) (t : String) → pieces (closing f) (behind f t) ≡ pieces 0 t
unfolding pieces
pieces-behind none t = refl
pieces-behind (some d) t = pieces-skip d (String.◌∷◌ "}" t) 1

abbrev braced : String → Option String → String → String
braced name f t = String.◌∷◌ "{" (name <> behind f t)

match_reference-written :
    (c : Char) (n : String) (f : Option String) (t : String)
    → IsName (String.◌∷◌ c n)
    → IsFallback f
    → match_reference (braced (String.◌∷◌ c n) f t)
      ≡ some (record {
        reference = record { name = String.◌∷◌ c n; fallback = f };
        length = suc (suc (size n + closing f));
      })
unfolding match_reference
match_reference-written c n f t h k =
    let first : is_name_start (code c) ≡ true = ground (arith, h.0) in
    let inner : match_name (String.◌∷◌ c String.[]) (n <> behind f t)
        ≡ some (record {
          reference = record { name = String.◌∷◌ c n; fallback = f };
          length = size n + closing f;
        }) =
      match_name-parts n (String.◌∷◌ c String.[]) (behind f t) h.1
      ∙ ap (longer_by n) (
          ap (λ x. match_name x (behind f t)) (cons_lem c n)
          ∙ match_name-behind (String.◌∷◌ c n) f t
          ∙ match_end-behind (String.◌∷◌ c n) f t k)
      ∙ longer_by-some n _ _ in
    ap (λ x. match_reference (String.◌∷◌ "{" x)) (cons-append c n (behind f t))
    ∙ rw first (ap (λ m. longer (longer m)) inner)

pieces-braced :
    (c : Char) (n : String) (f : Option String) (t : String)
    → pieces (suc (suc (size n + closing f))) (braced (String.◌∷◌ c n) f t) ≡ pieces 0 t
unfolding pieces
pieces-braced c n f t =
    ap (λ x. pieces (suc (size n + closing f)) x) (cons-append c n (behind f t))
    ∙ pieces-skip n (behind f t) (closing f)
    ∙ pieces-behind f t

pieces-reference :
    (name : String) (f : Option String) (t : String)
    → IsName name
    → IsFallback f
    → pieces 0 (String.◌∷◌ "$" (braced name f t))
      ≡ reference (record { name = name; fallback = f }) ∷ pieces 0 t
unfolding pieces
pieces-reference String.[] f t h k = absurd h
pieces-reference (String.◌∷◌ c n) f t h k =
    let text = braced (String.◌∷◌ c n) f t in
    ap (λ m. at_dollar "$" m (pieces 0 text) (λ l. pieces l text))
      (match_reference-written c n f t h k)
    ∙ ap (λ ps. reference (record { name = String.◌∷◌ c n; fallback = f }) ∷ ps)
        (pieces-braced c n f t)

fallback_text-behind : (f : Option String) (t : String) → fallback_text f <> t ≡ behind f t
fallback_text-behind none t = cons_lem "}" t
fallback_text-behind (some d) t =
    text_assoc ":-" (d <> "}") t
    ∙ ap (λ x. ":-" <> x) (text_assoc d "}" t ∙ ap (λ x. d <> x) (cons_lem "}" t))
    ∙ cons-append ":" "-" _
    ∙ ap (String.◌∷◌ ":") (cons_lem "-" _)

piece_text-braced :
    (r : Reference) (t : String)
    → piece_text (reference r) <> t ≡ String.◌∷◌ "$" (braced r.name r.fallback t)
piece_text-braced r t =
    text_assoc "${" (r.name <> fallback_text r.fallback) t
    ∙ ap (λ x. "${" <> x)
        (text_assoc r.name (fallback_text r.fallback) t
          ∙ ap (λ x. r.name <> x) (fallback_text-behind r.fallback t))
    ∙ cons-append "$" "{" _
    ∙ ap (String.◌∷◌ "$") (cons_lem "{" _)

-- A text that is written as literals other than the dollar sign and references is scanned into
-- exactly these: each ${NAME} and each ${NAME:-fallback}, where the name is a letter of ASCII or an
-- underscore with letters, underscores and digits behind it, and the fallback any text without a
-- closing brace.
pub pieces-text_of : (ps : List Piece) → All IsWritten ps → pieces 0 (text_of ps) ≡ ps
unfolding pieces
pieces-text_of [] h = refl
pieces-text_of (literal c ∷ ps) h =
    let other : eqb (code c) 36 ≡ false = ground (arith, h.0) in
    ap (pieces 0) (cons_lem c (text_of ps))
    ∙ rw other (ap (λ l. literal c ∷ l) (pieces-text_of ps h.1))
pieces-text_of (reference r ∷ ps) h =
    ap (pieces 0) (piece_text-braced r (text_of ps))
    ∙ pieces-reference r.name r.fallback (text_of ps) h.0.0 h.0.1
    ∙ ap (λ l. reference r ∷ l) (pieces-text_of ps h.1)
