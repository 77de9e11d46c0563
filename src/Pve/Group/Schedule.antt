-- ===== src/Pve/Group/Schedule.antt =====
-- What every schedule of the goroutines has in common.
use mathlib.Core.Path.{subst}
use mathlib.Core.List.{Perm, perm_middle}
use mathlib.Core.List.Perm
use pve_exporter.Base.{
  ℕ, ◌≡◌, refl, ap, zero, suc, ◌+◌, ◌*◌, ◌≤◌, ◌⊎◌, inl, inr, true, List, [], ◌∷◌, ◌++◌,
  append_assoc, append-nil, length, length-append, arith,
}
use pve_exporter.Base.Int.{ℤ, pos, negsuc, is_positive, to_ℕ}
use pve_exporter.Pve.Group.{Group, launch, has_room, Step, start, finish, Reach, here, next, IsDone}

room_at_start {ℓ} : (A : Type ℓ) (limit : ℤ) → has_room {A = A} limit [] ≡ true
room_at_start A (pos zero) = refl
room_at_start A (pos (suc n)) = ground arith
room_at_start A (negsuc n) = refl

module _ {ℓ} {A : Type ℓ} where
  abbrev tasks_of : Group A → List A
  tasks_of g = g.finished ++ (g.running ++ g.waiting)

  start-perm : (f r w : List A) (a : A) → Perm (f ++ (r ++ a ∷ w)) (f ++ (a ∷ r ++ w))
  start-perm f r w a = Perm.append_left f (perm_middle r w)

  finish-perm :
      (f b c w : List A) (a : A)
      → Perm (f ++ ((b ++ a ∷ c) ++ w)) ((f ++ a ∷ []) ++ ((b ++ c) ++ w))
  finish-perm f b c w a =
      rw (append_assoc f (a ∷ []) ((b ++ c) ++ w))
        (Perm.append_left f (Perm.append_right w (perm_middle b c)))

  Step-perm : {limit : ℤ} {g h : Group A} → Step limit g h → Perm (tasks_of g) (tasks_of h)
  Step-perm {g} (start a rest room e e') = rw (e', e) (start-perm g.finished g.running rest a)
  Step-perm {g} (finish before a after e e') =
      rw (e', e) (finish-perm g.finished before after g.waiting a)

  Reach-perm : {limit : ℤ} {g h : Group A} → Reach limit g h → Perm (tasks_of g) (tasks_of h)
  Reach-perm {g} here = Perm.refl (tasks_of g)
  Reach-perm (next r s) = Perm.trans (Reach-perm r) (Step-perm s)

  -- However the goroutines are scheduled, when `Wait` returns each task has finished, and as often
  -- as it was given: the finishing order is a permutation of the tasks.
  pub finished-perm :
      {limit : ℤ} {tasks : List A} {g : Group A}
      → Reach limit (launch tasks) g
      → IsDone g
      → Perm g.finished tasks
  finished-perm {tasks} {g} r d =
      subst (λ l. Perm l tasks) (rw (d.none_running, d.none_waiting) (append-nil g.finished))
        (Perm.symm (Reach-perm r))

  -- The limit is kept.
  abbrev Within : ℤ → Group A → Type 0
  Within limit g = is_positive limit ≡ true → length g.running ≤ to_ℕ limit

  Step-Within : {limit : ℤ} {g h : Group A} → Step limit g h → Within limit g → Within limit h
  Step-Within {limit} (start a rest room e e') w p = rw e' (ground (arith, w p))
  Step-Within {limit} {g} (finish before a after e e') w p = rw e' (
      omega (arith, w p, ap length e, length-append before (a ∷ after), length-append before after))

  -- Under a positive limit no schedule ever has more tasks running.
  pub running-le :
      {limit : ℤ} {tasks : List A} {g : Group A}
      → is_positive limit ≡ true
      → Reach limit (launch tasks) g
      → length g.running ≤ to_ℕ limit
  running-le p here = omega arith
  running-le p (next r s) = Step-Within s (λ _. running-le p r) p

  -- A group that is not done can move, and each step brings it nearer to the end.
  to_go : Group A → ℕ
  to_go g = 2 * length g.waiting + length g.running

  Step-to_go : {limit : ℤ} {g h : Group A} → Step limit g h → to_go g ≡ to_go h + 1
  unfolding to_go
  Step-to_go {g} (start a rest room e e') = rw (e', e) (omega arith)
  Step-to_go {g} (finish before a after e e') =
      rw (e', e) (omega (arith, length-append before (a ∷ after), length-append before after))

  can_move : (limit : ℤ) (g : Group A) → IsDone g ⊎ ((h : Group A) × Step limit g h)
  can_move limit g = go g.waiting g.running refl refl
    where
      go :
          (w r : List A)
          → g.waiting ≡ w
          → g.running ≡ r
          → IsDone g ⊎ ((h : Group A) × Step limit g h)
      go w (a ∷ rs) ew er = inr (_, finish [] a rs er refl)
      go [] [] ew er = inl (record { none_waiting = ew; none_running = er })
      go (a ∷ ws) [] ew er = inr (_, start a ws (rw er (room_at_start A limit)) ew refl)

  abbrev pub steps : {limit : ℤ} {g h : Group A} → Reach limit g h → ℕ
  steps here = 0
  steps (next r s) = steps r + 1

  steps-to_go : {limit : ℤ} {g h : Group A} (r : Reach limit g h) → steps r + to_go h ≡ to_go g
  steps-to_go here = omega arith
  steps-to_go (next r s) = omega (arith, steps-to_go r, Step-to_go s)

  -- Whatever the limit, no schedule gets stuck and none runs on: after any steps either all tasks
  -- have finished or there is a next step, and there are at most two steps for each task.
  pub schedule_ends :
      {limit : ℤ} {tasks : List A} {g : Group A} (r : Reach limit (launch tasks) g)
      → (steps r ≤ 2 * length tasks) × (IsDone g ⊎ ((h : Group A) × Step limit g h))
  unfolding to_go
  schedule_ends {limit} {g} r = (omega (arith, steps-to_go r), can_move limit g)
