-- ===== src/Examples/Reloads.antt =====
-- Runs of the reload: an edit of the configuration file.
use pve_exporter.Base.{
  ℕ, zero, suc, ◌+◌, String, Option, none, some, List, [], ◌∷◌, if◌then◌else◌, eqb, true, false,
  ◌%◌,
}
use pve_exporter.Models.SafeConfig.{LoadError}
use pve_exporter.Utils.Env.{EnvError}
use pve_exporter.Server.Overlap.{file_watch, Shared}
use pve_exporter.Examples.Overlaps.{shared}
use pve_exporter.Watcher.{
  FileEvent, Message, file_event, watch_error, events_closed, Watcher, watching, deliver_all,
}
use pve_exporter.Watcher.Reloads.{Agree, changes, reload_each, deliver_all-reload_each}
use pve_exporter.Watcher.Schedule.{Step, tick, message, proceed}
use pve_exporter.Examples.{visits}
use pve_exporter.Examples.Loads.{any_file}

-- A reload that counts, and fails at the file system of the number 7.
abbrev count : ℕ → ℕ → ℕ × Option String
count world n = if eqb world 7 then (n, some "refused") else (n + 1, none)

abbrev edit : ℕ → FileEvent
edit op = record { name = "/etc/pve/config.yaml"; op = op }

abbrev messages : List (Message ℕ)
messages =
    file_event (edit 2) 1
    ∷ file_event (edit 4) 2
    ∷ watch_error
    ∷ file_event (edit 3) 7
    ∷ events_closed
    ∷ file_event (edit 1) 3
    ∷ []

deliver_all-reload_each_example :
    Agree count 1 2 "config.yaml" (deliver_all count 1 2 "config.yaml" messages (watching 0 [])) (
      reload_each count 1 2 "config.yaml"
        (changes count 1 2 "config.yaml" messages)
        (watching 0 []))
deliver_all-reload_each_example = deliver_all-reload_each count 1 2 "config.yaml" messages 0 []

-- The file is written at the first step; then the file watch and the loop take turns.
abbrev schedule : ℕ → Step
schedule zero = message (file_event (edit 2) tt)
schedule (suc n) = elim (eqb (n % 2) 0) [ true ↦ proceed file_watch | false ↦ tick visits (0 ∷ []) ]

abbrev files : ℕ → String → Option String
files n = any_file

abbrev begun : Watcher (LoadError EnvError) (Shared EnvError)
begun = watching shared []
