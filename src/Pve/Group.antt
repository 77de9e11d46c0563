-- ===== src/Pve/Group.antt =====
-- The goroutines of collectAll and collectNodes (internal/pve/collector.go), as steps.
-- `Go` starts the tasks in order; with a positive limit it waits while that many run (what the code
-- relies on of errgroup's SetLimit). A task that runs may finish at any time; its effect, a write
-- of its own slot or an append under the lock, happens at once. `Wait` returns when all are done.
pub mod Schedule
use pve_exporter.Base.{ℕ, ◌≡◌, Bool, true, List, [], ◌∷◌, ◌++◌, length, ltb, if◌then◌else◌}
use pve_exporter.Base.Int.{ℤ, is_positive, to_ℕ}

pub record Group {ℓ} (A : Type ℓ) : Type ℓ where
  pub waiting : List A
  pub running : List A
  pub finished : List A

abbrev pub launch {ℓ} : {A : Type ℓ} → List A → Group A
launch tasks = record { waiting = tasks; running = []; finished = [] }

-- if c.maxConcurrent > 0 { g.SetLimit(c.maxConcurrent) }
abbrev pub has_room {ℓ} : {A : Type ℓ} → ℤ → List A → Bool
has_room limit running = if is_positive limit then ltb (length running) (to_ℕ limit) else true

pub data Step {ℓ} {A : Type ℓ} (limit : ℤ) (g h : Group A) : Type ℓ where
  start :
      (a : A) (rest : List A)
      → has_room limit g.running ≡ true
      → g.waiting ≡ a ∷ rest
      → h ≡ record { waiting = rest; running = a ∷ g.running; finished = g.finished }
      → Step limit g h
  finish :
      (before : List A) (a : A) (after : List A)
      → g.running ≡ before ++ a ∷ after
      → h
        ≡ record { waiting = g.waiting; running = before ++ after; finished = g.finished ++ a ∷ [] }
      → Step limit g h

pub data Reach {ℓ} {A : Type ℓ} (limit : ℤ) (g : Group A) : Group A → Type ℓ where
  here : Reach limit g g
  next : {h k : Group A} → Reach limit g h → Step limit h k → Reach limit g k

-- `Wait` has returned.
pub record IsDone {ℓ} {A : Type ℓ} (g : Group A) : Type ℓ where
  pub none_waiting : g.waiting ≡ []
  pub none_running : g.running ≡ []
