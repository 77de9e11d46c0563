-- ===== src/Watcher/Reloads.antt =====
-- internal/config/watcher.go: which of the messages reload.
use Prim.Native.Nat.{bit_and, bit_or}
use mathlib.Core.Path.{subst}
use pve_exporter.Base.{
  sym, ℕ, String, ◌≡◌, refl, ap, Bool, true, false, List, [], ◌∷◌, inl, inr, Bool-cases, Option,
  ◌==◌, eqb,
}
use pve_exporter.Base.Path.{base}
use pve_exporter.Watcher.{
  FileEvent, Message, file_event, watch_error, events_closed, errors_closed, Watcher, watching,
  returned, attempt, is_config_change, receive, deliver, deliver_all,
}

module _ {E S W : Type 0} (reload : W → S → S × Option E) (create write : ℕ)
    (config_path : String) where
  -- The worlds of the changes of the configuration file before a channel is closed.
  abbrev pub changes : List (Message W) → List W
  changes [] = []
  changes (file_event ev world ∷ ms) = elim (is_config_change reload create write config_path ev) [
    | true ↦ world ∷ changes ms
    | false ↦ changes ms
  ]
  changes (watch_error ∷ ms) = changes ms
  changes (events_closed ∷ ms) = []
  changes (errors_closed ∷ ms) = []

  abbrev pub reload_each : List W → Watcher E S → Watcher E S
  reload_each [] w = w
  reload_each (world ∷ worlds) w = reload_each worlds (attempt reload world w)

  -- A goroutine that has returned receives nothing.
  deliver_all-stopped :
      (ms : List (Message W)) (s : S) (errors : List E)
      → deliver_all reload create write config_path ms (returned s errors) ≡ returned s errors
  unfolding deliver_all deliver
  deliver_all-stopped [] s errors = refl
  deliver_all-stopped (m ∷ ms) s errors = deliver_all-stopped ms s errors

  abbrev pub Agree : Watcher E S → Watcher E S → Type 0
  Agree v w = (v.state ≡ w.state) × (v.errors ≡ w.errors)

  Agree-stopped :
      (ms : List (Message W)) (s : S) (errors : List E)
      → Agree
          (deliver_all reload create write config_path ms (returned s errors))
          (watching s errors)
  Agree-stopped ms s errors =
      let e = deliver_all-stopped ms s errors in (ap (λ v. v.state) e, ap (λ v. v.errors) e)

  module _ (ev : FileEvent) (world : W) (ms : List (Message W)) (s : S) (errors : List E) where
    abbrev w : Watcher E S
    w = watching s errors

    -- The two guards are one test.
    receive-is_config_change :
        receive reload create write config_path (file_event ev world) w
        ≡ elim (is_config_change reload create write config_path ev) [
          | true ↦ attempt reload world w
          | false ↦ w
        ]
    unfolding receive
    receive-is_config_change = elim (Bool-cases (base ev.name == base config_path)) [
      | inl a ↦ elim (Bool-cases (eqb (bit_and ev.op (bit_or write create)) 0)) [
        | inl b ↦ rw (a, b) refl
        | inr b ↦ rw (a, b) refl
      ]
      | inr a ↦ rw a refl
    ]

    Agree-event :
        (change : Bool)
        → Agree
            (deliver_all reload create write config_path ms (attempt reload world w))
            (reload_each (changes ms) (attempt reload world w))
        → Agree (deliver_all reload create write config_path ms w) (reload_each (changes ms) w)
        → Agree
            (deliver_all reload create write config_path ms
              (elim change [ true ↦ attempt reload world w | false ↦ w ]))
            (reload_each (elim change [ true ↦ world ∷ changes ms | false ↦ changes ms ]) w)
    Agree-event true h k = h
    Agree-event false h k = k

  -- The file watch reloads exactly once for each event that is about a file of the configuration's
  -- name and has the bit of a write or of a creation, in the order of the events, up to the first
  -- channel that is closed; a reload that fails is logged and the watch goes on.
  pub deliver_all-reload_each :
      (ms : List (Message W)) (s : S) (errors : List E)
      → Agree
          (deliver_all reload create write config_path ms (watching s errors))
          (reload_each (changes ms) (watching s errors))
  unfolding deliver_all deliver receive
  deliver_all-reload_each [] s errors = (refl, refl)
  deliver_all-reload_each (file_event ev world ∷ ms) s errors =
      subst
        (λ v.
          Agree (deliver_all reload create write config_path ms v)
            (reload_each (changes (file_event ev world ∷ ms)) (w ev world ms s errors)))
        (sym (receive-is_config_change ev world ms s errors))
        (Agree-event ev world ms s errors _ (deliver_all-reload_each ms (reload world s).0 _)
          (deliver_all-reload_each ms s errors))
  deliver_all-reload_each (watch_error ∷ ms) s errors = deliver_all-reload_each ms s errors
  deliver_all-reload_each (events_closed ∷ ms) s errors = Agree-stopped ms s errors
  deliver_all-reload_each (errors_closed ∷ ms) s errors = Agree-stopped ms s errors
