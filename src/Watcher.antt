-- ===== src/Watcher.antt =====
-- internal/config/watcher.go: what reloads the configuration, and when.
-- fsnotify is a parameter: the masks of its operations, and whether a watcher can be made and can
-- watch a directory. The reload is a parameter too, and each input carries the world `W` that the
-- reload it causes finds, such as the files at that time.
pub mod Reloads
pub mod Schedule
pub mod InForce
pub mod Progress
pub mod Live
use Prim.Native.Nat.{bit_and, bit_or}
use pve_exporter.Base.{
  ℕ, String, Bool, true, false, not, ◌&&◌, Option, none, some, List, [], ◌∷◌, eqb, ◌==◌,
  if◌then◌else◌,
}
use pve_exporter.Base.Fallible.{Fallible, value, failure}
use pve_exporter.Base.Path.{base, dir}

-- What a watch is set up with.
pub record Watch : Type 0 where
  pub directory : String
  pub name : String

-- `WatchConfigFile` up to its goroutine: the watch or the error, and whether a watcher was closed
unfoldable pub watch_config_file :
    {E : Type 0} → Option E → (String → Option E) → String → Fallible E Watch × Bool
unfolding base dir
watch_config_file (some e) add config_path = (failure e, false)
watch_config_file none add config_path = elim (add (dir config_path)) [
  | some e ↦ (failure e, true)
  | none ↦ (value (record { directory = dir config_path; name = base config_path }), false)
]

-- fsnotify.Event: the path, and the bits of the operations
pub record FileEvent : Type 0 where
  pub name : String
  pub op : ℕ

-- What the goroutine receives on its two channels.
pub data Message (W : Type 0) : Type 0 where
  file_event : FileEvent → W → Message W
  watch_error events_closed errors_closed : Message W

-- Whether the goroutine still runs, what the reloads act on, and the errors that were logged.
pub record Watcher (E S : Type 0) : Type 0 where
  pub running : Bool
  pub state : S
  pub errors : List E

-- The goroutine before and after its end.
abbrev pub watching : {E S : Type 0} → S → List E → Watcher E S
watching state errors = record { running = true; state = state; errors = errors }

abbrev pub returned : {E S : Type 0} → S → List E → Watcher E S
returned state errors = record { running = false; state = state; errors = errors }

module _ {E S W : Type 0} (reload : W → S → S × Option E) where
  abbrev log_failure : Option E → List E → List E
  log_failure none errors = errors
  log_failure (some e) errors = e ∷ errors

  -- The reload and its log, as in both goroutines: an error changes nothing else.
  abbrev pub attempt : W → Watcher E S → Watcher E S
  attempt world w =
      let (state, failed) = reload world w.state in
      record w { state = state; errors = log_failure failed w.errors }

  -- `SetupSIGHUPHandler`, for one signal
  abbrev pub hang_up : W → Watcher E S → Watcher E S
  hang_up = attempt

  module _ (create write : ℕ) (config_path : String) where
    -- The two guards of the loop.
    abbrev pub is_config_change : FileEvent → Bool
    is_config_change ev =
        base ev.name == base config_path && not (eqb (bit_and ev.op (bit_or write create)) 0)

    receive : Message W → Watcher E S → Watcher E S
    receive (file_event ev world) w =
        if not (base ev.name == base config_path)
        then w
        else if eqb (bit_and ev.op (bit_or write create)) 0
        then w
        else attempt world w
    receive events_closed w = record w { running = false }
    receive watch_error w = w
    receive errors_closed w = record w { running = false }

    -- One turn of the loop of `WatchConfigFile`; behind its end nothing is received.
    unfoldable pub deliver : Message W → Watcher E S → Watcher E S
    unfolding receive
    deliver m w = if w.running then receive m w else w

    unfoldable pub deliver_all : List (Message W) → Watcher E S → Watcher E S
    unfolding deliver
    deliver_all [] w = w
    deliver_all (m ∷ ms) w = deliver_all ms (deliver m w)
