-- ===== src/Pve/Snapshot/Bags.antt =====
-- internal/pve/snapshot.go: what a snapshot holds, but for the order of the samples.
use mathlib.Core.Logic.{∥∥₁_elim}
use mathlib.Core.Path.{subst}
use mathlib.Core.List.{Perm, Permᴰ}
use mathlib.Core.List.Perm
use mathlib.Core.Quot
use mathlib.Core.Quot.{Quot}
use pve_exporter.Base.{
  String, ◌≡◌, refl, sym, ap, ◌∙◌, Bool, true, false, not, Option, List, [], ◌∷◌, ◌==◌, select,
}
use pve_exporter.Base.Dict.{contains}
use pve_exporter.Pve.Metrics.{Sample}
use pve_exporter.Pve.Snapshot.{TargetSnapshot, Snapshot, build_snapshot, samples_for, metric_names}
use pve_exporter.Pve.Snapshot.Index.{all_samples, samples_for-build_snapshot}
use pve_exporter.Pve.Snapshot.Names.{is_empty, metric_names-build_snapshot}

-- Samples without their order.
abbrev pub Bag : Type 0
Bag = Quot {α = List Sample} Perm

-- What a snapshot holds under a name.
unfoldable pub contents : Snapshot → String → Bag
contents s name = Quot.mk (samples_for s name)

select-cons-Perm :
    (p : Sample → Bool) (x : Sample) (b : Bool) {xs ys : List Sample}
    → Perm xs ys
    → Perm (elim b [ true ↦ x ∷ xs | false ↦ xs ]) (elim b [ true ↦ x ∷ ys | false ↦ ys ])
select-cons-Perm p x true h = Perm.cons x h
select-cons-Perm p x false h = h

select-swap-Perm :
    (x y : Sample) (a b : Bool) (xs : List Sample)
    → Perm
        (elim a [
          | true ↦ x ∷ elim b [ true ↦ y ∷ xs | false ↦ xs ]
          | false ↦ elim b [ true ↦ y ∷ xs | false ↦ xs ]
        ])
        (elim b [
          | true ↦ y ∷ elim a [ true ↦ x ∷ xs | false ↦ xs ]
          | false ↦ elim a [ true ↦ x ∷ xs | false ↦ xs ]
        ])
select-swap-Perm x y true true xs = Perm.swap y x xs
select-swap-Perm x y true false xs = Perm.refl _
select-swap-Perm x y false true xs = Perm.refl _
select-swap-Perm x y false false xs = Perm.refl _

select-Permᴰ :
    (p : Sample → Bool) {xs ys : List Sample} → Permᴰ xs ys → Perm (select p xs) (select p ys)
select-Permᴰ p Permᴰ.nil = Perm.refl []
select-Permᴰ p (Permᴰ.cons {a = a} {l₁ = l₁} {l₂} e h) =
    subst (λ (z : Sample). Perm (select p (a ∷ l₁)) (select p (z ∷ l₂))) e
      (select-cons-Perm p a (p a) (select-Permᴰ p h))
select-Permᴰ p (Permᴰ.swap {a = a} {b} {a'} {b'} {l = l} e e') =
    subst (λ (z : Sample). Perm (select p (a ∷ b ∷ l)) (select p (z ∷ b' ∷ l))) e'
      (subst (λ (z : Sample). Perm (select p (a ∷ b ∷ l)) (select p (b ∷ z ∷ l))) e
        (select-swap-Perm a b (p a) (p b) (select p l)))
select-Permᴰ p (Permᴰ.trans h k) = Perm.trans (select-Permᴰ p h) (select-Permᴰ p k)

select-Perm :
    (p : Sample → Bool) {xs ys : List Sample} → Perm xs ys → Perm (select p xs) (select p ys)
select-Perm p h = ∥∥₁_elim h (hlevel) (select-Permᴰ p)

pub contents-build_snapshot :
    (ts us : List (Option TargetSnapshot)) (name : String)
    → Perm (all_samples ts) (all_samples us)
    → contents (build_snapshot ts) name ≡ contents (build_snapshot us) name
unfolding contents
contents-build_snapshot ts us name h =
    ap Quot.mk (samples_for-build_snapshot ts name)
    ∙ Quot.sound (select-Perm (λ s. s.name == name) h)
    ∙ sym (ap Quot.mk (samples_for-build_snapshot us name))

is_empty-Permᴰ : {xs ys : List Sample} → Permᴰ xs ys → is_empty xs ≡ is_empty ys
is_empty-Permᴰ Permᴰ.nil = refl
is_empty-Permᴰ (Permᴰ.cons e h) = refl
is_empty-Permᴰ (Permᴰ.swap e e') = refl
is_empty-Permᴰ (Permᴰ.trans h k) = is_empty-Permᴰ h ∙ is_empty-Permᴰ k

pub names-build_snapshot :
    (ts us : List (Option TargetSnapshot)) (name : String)
    → Perm (all_samples ts) (all_samples us)
    → contains name (metric_names (build_snapshot ts))
      ≡ contains name (metric_names (build_snapshot us))
names-build_snapshot ts us name h =
    (metric_names-build_snapshot ts).1 name
    ∙ ap not (∥∥₁_elim (select-Perm (λ s. s.name == name) h) (hlevel) (λ d. is_empty-Permᴰ d))
    ∙ sym ((metric_names-build_snapshot us).1 name)
