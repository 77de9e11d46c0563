-- ===== src/Pve/Ha/Canonical.antt =====
-- internal/pve/ha.go: the values of `canonicalNodeHAState`.
use mathlib.Core.Path.{subst}
use pve_exporter.Base.{
  String, ◌≡◌, refl, sym, ◌∙◌, arith, true, false, List, [], ◌∷◌, All, ◌⊎◌, inl, inr, Bool-cases,
  eq_refl,
}
use pve_exporter.Base.Dict.{Dict, contains}
use pve_exporter.Base.Text.{trim_space, lower_eq}
use pve_exporter.Pve.Metrics.{ha_node_states}
use pve_exporter.Pve.Ha.{lookup_lower, canonical_node_ha_state}

abbrev diagonal : List String → Dict String
diagonal [] = []
diagonal (x ∷ xs) = (x, x) ∷ diagonal xs

abbrev pub NoneMatches : String → List String → Type 0
NoneMatches s = All (λ state. lower_eq s state ≡ false)

abbrev pub Matches : String → List String → String → Type 0
Matches s states v = (contains v states ≡ true) × (lower_eq s v ≡ true)

contains-cons :
    (v x : String) (xs : List String) → contains v xs ≡ true → contains v (x ∷ xs) ≡ true
unfolding contains
contains-cons v x xs h = ground arith

passes_on :
    (s x : String) (m : Dict String)
    → lower_eq s x ≡ false
    → lookup_lower s ((x, x) ∷ m) ≡ lookup_lower s m
unfolding lookup_lower
passes_on s x m h = rw h

lookup_lower_cases :
    (s : String) (states : List String)
    → ((lookup_lower s (diagonal states) ≡ "") × NoneMatches s states)
      ⊎ Matches s states (lookup_lower s (diagonal states))
unfolding lookup_lower contains
lookup_lower_cases s [] = inl (refl, tt)
lookup_lower_cases s (x ∷ xs) = elim (Bool-cases (lower_eq s x)) [
  | inl e ↦ inr (rw (e, lookup_lower) (rw eq_refl), rw (e, lookup_lower) e)
  | inr n ↦ elim (lookup_lower_cases s xs) [
    | inl (nothing, others) ↦ inl (passes_on s x _ n ∙ nothing, (n, others))
    | inr (known, same) ↦
        inr
          (subst (Matches s (x ∷ xs)) (sym (passes_on s x _ n)) (contains-cons _ x xs known, same))
  ]
]

-- Either no node state is the trimmed text in letters of either case, and the result is empty, or
-- the result is a node state that is.
pub canonical_node_ha_state_cases :
    (status : String)
    → ((canonical_node_ha_state status ≡ "") × NoneMatches (trim_space status) ha_node_states)
      ⊎ Matches (trim_space status) ha_node_states (canonical_node_ha_state status)
unfolding canonical_node_ha_state
canonical_node_ha_state_cases status = lookup_lower_cases (trim_space status) ha_node_states
