-- ===== src/Pve/Parse/Flex.antt =====
-- internal/pve/parse.go: the values that a tolerant number is read from.
use pve_exporter.Base.{
  String, ◌≡◌, refl, sym, ap, ◌∙◌, ◌↔◌, Bool, true, false, Option, none, some, arith, ◌==◌,
  if◌then◌else◌, inl, inr, Bool-cases, eq_iff,
}
use pve_exporter.Base.Float.{Float64}
use pve_exporter.Base.Text.{trim_space}
use pve_exporter.Pve.Parse.{FlexFloat, absent, is_quoted, is_sentinel, number, unmarshal_flex_float}
use pve_exporter.Pve.Parse.Given.{
  is_null, InQuotes, IsMeant, IsValue, is_null-IsValue, is_sentinel-IsMeant, is_quoted-InQuotes,
  unquoted_iff,
}

-- A field that holds a number.
abbrev pub read : Float64 → FlexFloat
read v = record { value = v; valid = true }

quoted_given : (b : String) → is_quoted b ≡ true → is_null b ≡ false
quoted_given b q = elim (Bool-cases (b == "")) [
  | inl e ↦ absurd (ground (arith, q, ap is_quoted ((eq_iff b "").0 e)))
  | inr e ↦ elim (Bool-cases (b == "null")) [
    | inl e ↦ absurd (ground (arith, q, ap is_quoted ((eq_iff b "null").0 e)))
    | inr e' ↦ rw (e, e') refl
  ]
]

abbrev valid_of : Option FlexFloat → Bool
valid_of none = false
valid_of (some x) = x.valid

abbrev value_of : FlexFloat → Option FlexFloat → FlexFloat
value_of f none = f
value_of f (some x) = x

module _ (unquote : String → Option String) (parse_float : String → Option Float64) where
  -- The bytes give this text for a number: as they are, or in quotes where the text is meant so.
  pub data GivesText (bytes text : String) : Type 0 where
    bare :
        IsValue (trim_space bytes)
        → ¬ (InQuotes (trim_space bytes))
        → trim_space bytes ≡ text
        → GivesText bytes text
    quoted :
        (inner : String)
        → InQuotes (trim_space bytes)
        → unquote (trim_space bytes) ≡ some inner
        → trim_space inner ≡ text
        → IsMeant text
        → GivesText bytes text

  -- The bytes give a text that parses as this number.
  abbrev pub Gives : String → Float64 → Type 0
  Gives bytes v = (text : String) × GivesText bytes text × (parse_float text ≡ some v)

  -- The decoding with its tests and its unquoted text as they turn out.
  abbrev decode : FlexFloat → String → Bool → Bool → Option String → Option FlexFloat
  decode f b null marked inner =
      if null
      then some f
      else if marked
      then elim inner [
        | none ↦ none
        | some text ↦
            let s = trim_space text in
            if is_sentinel s then some f else some (number unquote parse_float f s)
      ]
      else some (number unquote parse_float f b)

  number-none : (s : String) → parse_float s ≡ none → number unquote parse_float absent s ≡ absent
  unfolding number
  number-none s p = rw (p, number) refl

  number-some :
      (s : String) (v : Float64)
      → parse_float s ≡ some v
      → number unquote parse_float absent s ≡ read v
  unfolding number
  number-some s v p = rw (p, number) refl

  number-read :
      (s : String) (v : Float64) (o : Option Float64)
      → parse_float s ≡ o
      → number unquote parse_float absent s ≡ read v
      → parse_float s ≡ some v
  number-read s v none p e =
      absurd (ground (arith, ap (λ (x : FlexFloat). x.valid) (sym (number-none s p) ∙ e)))
  number-read s v (some w) p e =
      p ∙ ap (λ (x : FlexFloat). some x.value) (sym (number-some s w p) ∙ e)

  decode_sentinel :
      (b text : String)
      → is_sentinel (trim_space text) ≡ true
      → decode absent b false true (some text) ≡ some absent
  decode_sentinel b text k = rw k refl

  decode_text :
      (f : FlexFloat) (b text : String)
      → is_sentinel (trim_space text) ≡ false
      → decode f b false true (some text) ≡ some (number unquote parse_float f (trim_space text))
  decode_text f b text k = rw k refl

  decode-Gives :
      (bytes : String) (v : Float64) (null marked : Bool) (inner : Option String)
      → is_null (trim_space bytes) ≡ null
      → is_quoted (trim_space bytes) ≡ marked
      → unquote (trim_space bytes) ≡ inner
      → decode absent (trim_space bytes) null marked inner ≡ some (read v)
      → Gives bytes v
  decode-Gives bytes v true marked inner n q u e = absurd (ground (arith, ap valid_of e))
  decode-Gives bytes v false true none n q u e = absurd (ground (arith, ap valid_of e))
  decode-Gives bytes v false true (some text) n q u e =
      elim (Bool-cases (is_sentinel (trim_space text))) [
        | inl k ↦
            absurd
              (ground (arith, ap valid_of (sym (decode_sentinel (trim_space bytes) text k) ∙ e)))
        | inr k ↦ (
          trim_space text,
          quoted text ((is_quoted-InQuotes (trim_space bytes)).0 q) u refl
              ((is_sentinel-IsMeant (trim_space text)).0 k),
          number-read _ v _ refl
              (ap (value_of absent) (sym (decode_text absent (trim_space bytes) text k) ∙ e)),
        )
      ]
  decode-Gives bytes v false false inner n q u e = (
    trim_space bytes,
    bare ((is_null-IsValue (trim_space bytes)).0 n) ((unquoted_iff (trim_space bytes)).0 q) refl,
    number-read _ v _ refl (ap (value_of absent) e),
  )

  Gives-decode :
      (bytes : String) (v : Float64)
      → Gives bytes v
      → unmarshal_flex_float unquote parse_float absent bytes ≡ some (read v)
  unfolding unmarshal_flex_float
  Gives-decode bytes v (text, bare n q same, p) =
      rw
        (
          (is_null-IsValue (trim_space bytes)).1 n,
          (unquoted_iff (trim_space bytes)).1 q,
          same,
          number-some text v p,
        )
        refl
  Gives-decode bytes v (text, quoted inner q u same meant, p) =
      let marked = (is_quoted-InQuotes (trim_space bytes)).1 q in
      let sentinel = (is_sentinel-IsMeant text).1 meant in
      rw (quoted_given _ marked, marked, u, same, sentinel, number-some text v p) refl

  decode-none :
      (f : FlexFloat) (b : String) (null marked : Bool) (inner : Option String)
      → is_quoted b ≡ marked
      → unquote b ≡ inner
      → decode f b null marked inner ≡ none
      → (is_quoted b ≡ true) × (unquote b ≡ none)
  decode-none f b true marked inner q u e = ground (arith, e)
  decode-none f b false true none q u e = (q, u)
  decode-none f b false true (some text) q u e = ground (arith, e)
  decode-none f b false false inner q u e = ground (arith, e)

  -- A field that was absent holds a number after its decoding just where the bytes give a text that
  -- parses as this number: the trimmed bytes, if they are neither empty nor null and do not begin
  -- with a quote, or the trimmed text that they quote, if it is neither empty nor "n/a" in letters
  -- of either case.
  pub unmarshal_flex_float-GivesText :
      (bytes : String) (v : Float64)
      → (unmarshal_flex_float unquote parse_float absent bytes ≡ some (read v)) ↔ Gives bytes v
  unfolding unmarshal_flex_float
  unmarshal_flex_float-GivesText bytes v =
      (decode-Gives bytes v _ _ _ refl refl refl, Gives-decode bytes v)

  -- The decoding of a field fails just where its bytes begin with a quote and are no string of JSON.
  pub unmarshal_flex_float-fails :
      (f : FlexFloat) (bytes : String)
      → (unmarshal_flex_float unquote parse_float f bytes ≡ none)
        ↔ (is_quoted (trim_space bytes) ≡ true) × (unquote (trim_space bytes) ≡ none)
  unfolding unmarshal_flex_float
  unmarshal_flex_float-fails f bytes =
      (decode-none f (trim_space bytes) _ _ _ refl refl, λ (q, u). rw (quoted_given _ q, q, u) refl)
