-- ===== src/Pve/Collector/Nodes.antt =====
-- internal/pve/collector.go: the nodes of a target, gathered in different orders.
use mathlib.Core.Logic.{∥∥₁_elim}
use mathlib.Core.List.{Perm, Permᴰ, perm_append_comm, Perm-prop}
use mathlib.Core.List.Perm
use native.Mathlib.Nat.{ℕ_set}
use pve_exporter.Base.{
  ℕ, ◌+◌, String, ◌≡◌, refl, sym, ap, ◌∙◌, arith, List, [], ◌∷◌, ◌++◌, append-nil, append_assoc,
}
use pve_exporter.Base.Int.{ℤ}
use pve_exporter.Models.Config.{CollectorToggles}
use pve_exporter.Pve.Metrics.{Sample, SampleSet}
use pve_exporter.Pve.Client.{Client, Remote, pure, ◌>>=◌}
use pve_exporter.Pve.Client.Independent.{
  count_errors, count_errors_add, Independent, independent_rules,
}
use pve_exporter.Pve.Node.Independent.{
  collect_replication-Independent, collect_subscription-Independent, collect_onboot-Independent,
}
use pve_exporter.Pve.Group.{Group, launch, Reach, IsDone}
use pve_exporter.Pve.Group.Schedule.{finished-perm}
use pve_exporter.Pve.Collector.{collect_node, merge_nodes}

swap_front : {A : Type 0} (xs ys zs : List A) → Perm (xs ++ (ys ++ zs)) (ys ++ (xs ++ zs))
swap_front xs ys zs =
    rw (sym (append_assoc xs ys zs), sym (append_assoc ys xs zs))
      (Perm.append_right zs (perm_append_comm xs ys))

module _ (remote : Remote) (toggles : CollectorToggles) (name : String) where
  pub collect_node-Independent :
      (node : String) → Independent remote (collect_node remote toggles name node)
  unfolding collect_node
  collect_node-Independent node =
      search
        (
          independent_rules, collect_replication-Independent, collect_subscription-Independent,
          collect_onboot-Independent,
        )
        depth 12

  gathered : List String → List Sample
  gathered [] = []
  gathered (node ∷ nodes) = (collect_node-Independent node).value.out ++ gathered nodes

  counted : List String → ℕ
  counted [] = 0
  counted (node ∷ nodes) = (collect_node-Independent node).errors + counted nodes

  merge_nodes-gathered :
      (nodes : List String) (s : SampleSet) (c : Client)
      → merge_nodes remote toggles name nodes s c
        ≡ (record s { out = s.out ++ gathered nodes }, count_errors (counted nodes) c)
  unfolding merge_nodes gathered counted ◌>>=◌ pure
  merge_nodes-gathered [] s c = rw (append-nil s.out) refl
  merge_nodes-gathered (node ∷ nodes) s c =
      let h = collect_node-Independent node in
      ap (λ x. merge_nodes remote toggles name nodes (record s { out = s.out ++ x.0.out }) x.1)
        (h.at c)
      ∙ merge_nodes-gathered nodes (record s { out = s.out ++ h.value.out })
          (count_errors h.errors c)
      ∙ rw
          (
            append_assoc s.out h.value.out (gathered nodes),
            count_errors_add h.errors (counted nodes) c,
          )
          refl

  counted-Permᴰ : {xs ys : List String} → Permᴰ xs ys → counted xs ≡ counted ys
  unfolding counted
  counted-Permᴰ Permᴰ.nil = refl
  counted-Permᴰ (Permᴰ.cons e p) = rw (e, counted-Permᴰ p) refl
  counted-Permᴰ (Permᴰ.swap e e') = rw (e, e') (omega arith)
  counted-Permᴰ (Permᴰ.trans p q) = counted-Permᴰ p ∙ counted-Permᴰ q

  gathered-Permᴰ : {xs ys : List String} → Permᴰ xs ys → Perm (gathered xs) (gathered ys)
  unfolding gathered
  gathered-Permᴰ Permᴰ.nil = Perm.refl []
  gathered-Permᴰ (Permᴰ.cons e p) = rw e (Perm.append_left _ (gathered-Permᴰ p))
  gathered-Permᴰ (Permᴰ.swap {a' = x} {b' = y} {l} e e') =
      rw (e, e')
        (swap_front (collect_node-Independent y).value.out (collect_node-Independent x).value.out
          (gathered l))
  gathered-Permᴰ (Permᴰ.trans p q) = Perm.trans (gathered-Permᴰ p) (gathered-Permᴰ q)

  -- Two orders of the nodes give the same samples in some order, and the same client.
  pub merge_nodes-order :
      (xs ys : List String) (s : SampleSet) (c : Client)
      → Perm xs ys
      → ((merge_nodes remote toggles name xs s c).0.cluster
          ≡ (merge_nodes remote toggles name ys s c).0.cluster)
        × Perm
            (merge_nodes remote toggles name xs s c).0.out
            (merge_nodes remote toggles name ys s c).0.out
        × ((merge_nodes remote toggles name xs s c).1 ≡ (merge_nodes remote toggles name ys s c).1)
  merge_nodes-order xs ys s c p =
      rw (merge_nodes-gathered xs s c, merge_nodes-gathered ys s c)
        (
          refl,
          ∥∥₁_elim p Perm-prop (λ d. Perm.append_left s.out (gathered-Permᴰ d)),
          ap (λ n. count_errors n c) (∥∥₁_elim p (hlevel (ℕ_set)) (λ d. counted-Permᴰ d)),
        )

  -- However the goroutines of a target's nodes are scheduled, when all are done the gathered
  -- samples are those of the nodes polled one after the other, in some order, and the client is
  -- the same.
  pub merge_nodes-perm :
      {limit : ℤ} (nodes : List String) (s : SampleSet) (c : Client) {g : Group String}
      → Reach limit (launch nodes) g
      → IsDone g
      → Perm
          (merge_nodes remote toggles name g.finished s c).0.out
          (merge_nodes remote toggles name nodes s c).0.out
        × ((merge_nodes remote toggles name g.finished s c).1
            ≡ (merge_nodes remote toggles name nodes s c).1)
  merge_nodes-perm nodes s c {g} r d =
      let (cluster, out, client) = merge_nodes-order g.finished nodes s c (finished-perm r d) in
      (out, client)
