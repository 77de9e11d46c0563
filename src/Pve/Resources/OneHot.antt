-- ===== src/Pve/Resources/OneHot.antt =====
-- internal/pve/resources.go: the series of a state.
use pve_exporter.Base.{
  String, ◌≡◌, refl, sym, ap, ◌∙◌, ◌⊎◌, inl, inr, Bool-cases, false, List, [], ◌∷◌, ◌++◌, map,
  append-nil, append_assoc, arith, ◌==◌, eq_iff,
}
use pve_exporter.Base.Dict.{contains}
use pve_exporter.Base.Distinct.{IsDistinct}
use pve_exporter.Base.Float.{Float64, float_zero, float_one}
use pve_exporter.Pve.Metrics.{Sample, SampleSet, label, add, id_label}
use pve_exporter.Pve.Parse.{bool_to_float}
use pve_exporter.Pve.Resources.{add_state_enum}

abbrev pub state_sample : String → String → String → String → Float64 → Sample
state_sample cluster name id state value = record {
  name = name;
  labels = label "cluster" cluster ∷ id_label id ∷ label "state" state ∷ [];
  value = value;
}

-- The series of the states in a list, with one value.
abbrev pub series : String → String → String → Float64 → List String → List Sample
series cluster name id value = map (λ st. state_sample cluster name id st value)

-- The series as the loop makes them.
compared : String → String → String → String → List String → List Sample
compared cluster name id active =
    map (λ st. state_sample cluster name id st (bool_to_float (st == active)))

out-add_state_enum :
    (name id active : String) (states : List String) (s : SampleSet)
    → (add_state_enum s name id active states).out
      ≡ s.out ++ compared s.cluster name id active states
unfolding add_state_enum compared add
out-add_state_enum name id active [] s = sym (append-nil s.out)
out-add_state_enum name id active (st ∷ states) s =
    out-add_state_enum name id active states
      (add s name (bool_to_float (st == active)) (id_label id ∷ label "state" st ∷ []))
    ∙ append_assoc s.out _ (compared s.cluster name id active states)

-- Either the state is not among the known ones and every series is zero, or it is one of them, its
-- series is one, and those before it and behind it are zero.
abbrev pub OneHot : String → String → String → String → List String → List Sample → Type 0
OneHot cluster name id active states samples =
    ((contains active states ≡ false) × (samples ≡ series cluster name id float_zero states))
    ⊎ ((before after : List String) × (states ≡ before ++ active ∷ after)
        × (samples
            ≡ series cluster name id float_zero before
              ++ state_sample cluster name id active float_one
                ∷ series cluster name id float_zero after))

module _ (cluster name id active : String) where
  zeros :
      (states : List String)
      → contains active states ≡ false
      → compared cluster name id active states ≡ series cluster name id float_zero states
  unfolding compared contains bool_to_float
  zeros [] h = refl
  zeros (st ∷ states) h =
      let e : (st == active) ≡ false = ground (arith, h) in
      rw e (
        ap (λ l. state_sample cluster name id st float_zero ∷ l) (zeros states (ground (arith, h))))

  compared-OneHot :
      (states : List String)
      → IsDistinct states
      → OneHot cluster name id active states (compared cluster name id active states)
  unfolding compared contains bool_to_float
  compared-OneHot [] d = inl (refl, refl)
  compared-OneHot (st ∷ states) d = elim (Bool-cases (st == active)) [
    | inl e ↦
        let same : st ≡ active = (eq_iff st active).0 e in
        inr (
          [],
          states,
          ap (λ x. x ∷ states) same,
          rw e (cc (same, zeros states (ap (λ x. contains x states) (sym same) ∙ d.0))),
        )
    | inr n ↦ elim (compared-OneHot states d.1) [
      | inl (h, z) ↦
          inl (rw (n, h) refl, rw n (ap (λ l. state_sample cluster name id st float_zero ∷ l) z))
      | inr (before, after, parts, z) ↦ inr (
        st ∷ before,
        after,
        ap (λ l. st ∷ l) parts,
        rw n (ap (λ l. state_sample cluster name id st float_zero ∷ l) z),
      )
    ]
  ]

-- Of the series of a state with a list of distinct known states, behind the samples there were:
-- either the state is not known and all series are zero, or its series is one and all others are
-- zero, each known state having exactly one series, in order.
pub add_state_enum-OneHot :
    (name id active : String) (states : List String) (s : SampleSet)
    → IsDistinct states
    → (more : List Sample) × ((add_state_enum s name id active states).out ≡ s.out ++ more)
      × OneHot s.cluster name id active states more
add_state_enum-OneHot name id active states s d = (
  compared s.cluster name id active states,
  out-add_state_enum name id active states s,
  compared-OneHot s.cluster name id active states d,
)
