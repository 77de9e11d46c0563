-- ===== src/Watcher/Schedule.antt =====
-- internal/config/watcher.go and main.go: the file watch, the signals and the ticks on one server,
-- in the order `schedule`; `files` gives the file system at each step. A reload takes three steps
-- (Server/Overlap), between which the other goroutine and the loop may run. A cycle is one step.
use Prim.Native.Nat.{bit_and, bit_or}
use pve_exporter.Base.{
  ℕ, zero, suc, String, ◌≡◌, Bool, true, false, not, Option, none, some, List, arith, ◌==◌, eqb,
  if◌then◌else◌,
}
use pve_exporter.Base.Path.{base}
use pve_exporter.Base.Int.{ℤ}
use pve_exporter.Base.Fallible.{Fallible, value, failure}
use pve_exporter.Models.Config.{Configuration}
use pve_exporter.Models.SafeConfig.{LoadError, reload_config}
use pve_exporter.Pve.Collector.Cycle.{Visit, collect_once}
use pve_exporter.Server.Overlap.{
  Phase, idle, changed, built, Goroutine, file_watch, Shared, phase, step,
}
use pve_exporter.Server.Overlap
use pve_exporter.Watcher.{
  FileEvent, Message, file_event, watch_error, events_closed, errors_closed, Watcher, attempt,
  hang_up, is_config_change, receive, deliver,
}

-- The loop ticks, a goroutine receives a message or a signal, or it takes the next step of the
-- reload that it is in.
pub data Step : Type 0 where
  tick : (ℕ → Visit) → List ℕ → Step
  message : Message (Unit {0}) → Step
  signal : Step
  proceed : Goroutine → Step

abbrev pub is_idle : Phase → Bool
is_idle idle = true
is_idle changed = false
is_idle (built targets) = false

abbrev error_of : {E A : Type 0} → Fallible E A → Option E
error_of (failure e) = some e
error_of (value a) = none

module _ (decode : String → Option Configuration) (parse_duration : String → Option ℤ)
    (create write : ℕ) (path : String) where
  -- The first step of a reload, which is the one that may fail.
  abbrev pub load_with :
      {E : Type 0}
      → (String → Option String)
      → Goroutine
      → Unit {0}
      → Shared E
      → Shared E × Option (LoadError E)
  load_with read_file g world s = (
    step decode parse_duration path g read_file s,
    error_of (reload_config read_file decode parse_duration path s.safe_cfg).1,
  )

  -- A goroutine receives only between reloads: a step that it cannot take changes nothing.
  unfoldable pub turn :
      {E : Type 0}
      → (String → Option String)
      → Step
      → Watcher (LoadError E) (Shared E)
      → Watcher (LoadError E) (Shared E)
  turn read_file (tick visits finished) w = record w {
    state = record w.state { collector = (collect_once visits finished w.state.collector).1 };
  }
  turn read_file (message m) w =
      if is_idle w.state.watch_phase
      then deliver (load_with read_file file_watch) create write path m w
      else w
  turn read_file signal w =
      if is_idle w.state.hang_up_phase
      then hang_up (load_with read_file Overlap.hang_up) tt w
      else w
  turn read_file (proceed g) w =
      if is_idle (phase g w.state)
      then w
      else record w { state = step decode parse_duration path g read_file w.state }

  -- A property of the server that each step of a goroutine and each cycle keep.
  module _ {E : Type 0} (P : Shared E → Type 0) (read_file : String → Option String)
      (keeps_step : (g : Goroutine) (s : Shared E)
        → P s
        → P (step decode parse_duration path g read_file s))
      (keeps_tick : (visits : ℕ → Visit) (finished : List ℕ) (s : Shared E)
        → P s
        → P (record s { collector = (collect_once visits finished s.collector).1 })) where
    -- Either way of a branch keeps it.
    branch-keeps :
        (b : Bool) (v w : Watcher (LoadError E) (Shared E))
        → P v.state
        → P w.state
        → P (if b then v else w).state
    branch-keeps true v w h k = h
    branch-keeps false v w h k = k

    receive-keeps :
        (m : Message (Unit {0})) (w : Watcher (LoadError E) (Shared E))
        → P w.state
        → P (receive (load_with read_file file_watch) create write path m w).state
    unfolding receive
    receive-keeps (file_event ev world) w h = branch-keeps (not (base ev.name == base path)) w _ h (
        branch-keeps (eqb (bit_and ev.op (bit_or write create)) 0) w _ h
          (keeps_step file_watch w.state h))
    receive-keeps watch_error w h = h
    receive-keeps events_closed w h = h
    receive-keeps errors_closed w h = h

    pub turn-keeps :
        (next : Step) (w : Watcher (LoadError E) (Shared E))
        → P w.state
        → P (turn read_file next w).state
    unfolding turn deliver
    turn-keeps (tick visits finished) w h = keeps_tick visits finished w.state h
    turn-keeps (message m) w h =
        branch-keeps (is_idle w.state.watch_phase) _ w
          (branch-keeps w.running _ w (receive-keeps m w h) h) h
    turn-keeps signal w h =
        branch-keeps (is_idle w.state.hang_up_phase) _ w (keeps_step Overlap.hang_up w.state h) h
    turn-keeps (proceed g) w h =
        branch-keeps (is_idle (phase g w.state)) w _ h (keeps_step g w.state h)

  -- An event that passes both guards begins a reload.
  pub deliver-attempt :
      {E : Type 0} (read_file : String → Option String) (ev : FileEvent)
      (w : Watcher (LoadError E) (Shared E))
      → w.running ≡ true
      → is_config_change (load_with {E = E} read_file file_watch) create write path ev ≡ true
      → deliver (load_with read_file file_watch) create write path (file_event ev tt) w
        ≡ attempt (load_with read_file file_watch) tt w
  unfolding deliver receive
  deliver-attempt read_file ev w h k =
      let a : (base ev.name == base path) ≡ true = ground (arith, k) in
      let b : eqb (bit_and ev.op (bit_or write create)) 0 ≡ false = ground (arith, k) in
      simp (h, a, b)

  -- The server and its goroutines at each step of a schedule.
  module _ {E : Type 0} (schedule : ℕ → Step) (files : ℕ → String → Option String)
      (start : Watcher (LoadError E) (Shared E)) where
    unfoldable pub states : ℕ → Watcher (LoadError E) (Shared E)
    unfolding turn
    states zero = start
    states (suc n) = turn (files n) (schedule n) (states n)
