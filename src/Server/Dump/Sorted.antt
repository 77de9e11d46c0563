-- ===== src/Server/Dump/Sorted.antt =====
-- main.go: the order of the lines of a dump.
use Prim.Native.Nat.compare as compare_ℕ
use Prim.Native.Nat.{compare as compare_ℕ, Ordering}
use Prim.Native.Char.{code}
use Prim.Native.String.compare
use Prim.Native.String.{compare, then as first_by}
use mathlib.Core.List.{Perm}
use pve_exporter.Base.{
  ℕ, zero, suc, String, ◌≡◌, refl, sym, ◌∙◌, Bool, true, false, Option, List, [], ◌∷◌, map, arith,
  Bool-cases, inl, inr,
}
use pve_exporter.Base.Float.{Float64}
use pve_exporter.Pve.Snapshot.{TargetSnapshot, build_snapshot, metric_names}
use pve_exporter.Pve.Snapshot.Index.{all_samples}
use pve_exporter.Server.Dump.{
  before, insert_line, sort, line, lines, dump_samples, dump_samples-perm,
}

numbers_flip : (m n : ℕ) → compare_ℕ m n ≡ Ordering.gt → compare_ℕ n m ≡ Ordering.lt
numbers_flip zero zero h = absurd (ground (arith, h))
numbers_flip zero (suc n) h = absurd (ground (arith, sym (compare_ℕ.zero-suc n) ∙ h))
numbers_flip (suc m) zero h = compare_ℕ.zero-suc m
numbers_flip (suc m) (suc n) h =
    compare_ℕ.suc-suc n m ∙ numbers_flip m n (sym (compare_ℕ.suc-suc m n) ∙ h)

numbers_eq : (m n : ℕ) → compare_ℕ m n ≡ Ordering.eq → compare_ℕ n m ≡ Ordering.eq
numbers_eq zero zero h = h
numbers_eq zero (suc n) h = absurd (ground (arith, sym (compare_ℕ.zero-suc n) ∙ h))
numbers_eq (suc m) zero h = absurd (ground (arith, sym (compare_ℕ.suc-zero m) ∙ h))
numbers_eq (suc m) (suc n) h =
    compare_ℕ.suc-suc n m ∙ numbers_eq m n (sym (compare_ℕ.suc-suc m n) ∙ h)

first_by_flip :
    (m n : ℕ) (o r r' : Ordering)
    → compare_ℕ m n ≡ o
    → (r ≡ Ordering.gt → r' ≡ Ordering.lt)
    → first_by o r ≡ Ordering.gt
    → first_by (compare_ℕ n m) r' ≡ Ordering.lt
first_by_flip m n Ordering.lt r r' e later h = absurd (ground (arith, h))
first_by_flip m n Ordering.eq r r' e later h = rw (numbers_eq m n e) (later h)
first_by_flip m n Ordering.gt r r' e later h = rw (numbers_flip m n e) refl

-- Of two texts in the wrong order, the other order is right.
texts_flip : (s t : String) → compare s t ≡ Ordering.gt → compare t s ≡ Ordering.lt
texts_flip String.[] String.[] h = absurd (ground (arith, h))
texts_flip String.[] (String.◌∷◌ d t) h = absurd (ground (arith, sym (compare.nil-cons d t) ∙ h))
texts_flip (String.◌∷◌ c s) String.[] h = compare.nil-cons c s
texts_flip (String.◌∷◌ c s) (String.◌∷◌ d t) h =
    compare.cons-cons d c t s
    ∙ first_by_flip (code c) (code d) _ (compare s t) (compare t s) refl (texts_flip s t)
        (sym (compare.cons-cons c d s t) ∙ h)

before_other : (a b : String) → before a b ≡ false → before b a ≡ true
before_other a b h = rw (texts_flip a b (wrong (compare a b) refl h), before) refl
  where
    wrong :
        (o : Ordering)
        → compare a b ≡ o
        → ◌≡◌ {A = Bool}
            (elim o [ Ordering.lt ↦ true | Ordering.eq ↦ true | Ordering.gt ↦ false ])
            false
        → compare a b ≡ Ordering.gt
    wrong Ordering.lt e f = absurd (ground (arith, f))
    wrong Ordering.eq e f = absurd (ground (arith, f))
    wrong Ordering.gt e f = e

-- Each line is at or before the next, in the order of the bytes.
abbrev pub IsSorted : List String → Type 0
IsSorted [] = Unit
IsSorted (l ∷ []) = Unit
IsSorted (l ∷ m ∷ ms) = (before l m ≡ true) × IsSorted (m ∷ ms)

insert_line-behind :
    (m l : String) (ms : List String)
    → IsSorted (m ∷ ms)
    → before m l ≡ true
    → IsSorted (m ∷ insert_line l ms)
unfolding insert_line
insert_line-behind m l [] h b = (b, tt)
insert_line-behind m l (k ∷ ks) h b = elim (Bool-cases (before l k)) [
  | inl e ↦ rw e (b, (e, h.1))
  | inr e ↦ rw e (h.0, insert_line-behind k l ks h.1 (before_other l k e))
]

insert_line-IsSorted : (l : String) (ls : List String) → IsSorted ls → IsSorted (insert_line l ls)
unfolding insert_line
insert_line-IsSorted l [] h = tt
insert_line-IsSorted l (m ∷ ms) h = elim (Bool-cases (before l m)) [
  | inl e ↦ rw e (e, h)
  | inr e ↦ rw e (insert_line-behind m l ms h (before_other l m e))
]

sort-IsSorted : (ls : List String) → IsSorted (sort ls)
unfolding sort
sort-IsSorted [] = tt
sort-IsSorted (l ∷ ls) = insert_line-IsSorted l (sort ls) (sort-IsSorted ls)

-- The dump of the snapshot of a cycle has one line for each sample of each target that was polled,
-- and no other line, and its lines are in the order of their bytes.
pub dump_samples-IsSorted :
    (quote : String → String) (format : Float64 → String) (ts : List (Option TargetSnapshot))
    → let dump = dump_samples quote format (build_snapshot ts) in
      Perm dump (map (line quote format) (all_samples ts)) × IsSorted dump
unfolding dump_samples
dump_samples-IsSorted quote format ts = (
  dump_samples-perm quote format ts,
  sort-IsSorted (lines quote format (build_snapshot ts) (metric_names (build_snapshot ts))),
)
