-- ===== src/Logging.antt =====
-- internal/logging/logging.go: where the log goes.
-- The file system is a parameter: whether `os.MkdirAll` makes a directory, and whether
-- `os.OpenFile` opens a file for appending.
use pve_exporter.Base.{
  String, ◌≡◌, Bool, true, not, Option, none, List, [], ◌∷◌, ◌==◌, ◌&&◌, ◌||◌, ◌+◌, length, arith,
  if◌then◌else◌,
}
use pve_exporter.Base.Path.{dir, dir_nonempty}

-- The writers of the logger's output: io.MultiWriter has more than one.
pub data Writer : Type 0 where
  stdout : Writer
  log_file : String → Writer

-- The logger that the package configures, and what it warned about.
pub data Warning : Type 0 where
  no_directory no_file : Warning

pub record Logger : Type 0 where
  pub json : Bool
  pub output : List Writer
  pub warnings : List Warning

abbrev set_output : List Writer → Logger → Logger
set_output writers l = record l { output = writers }

abbrev warn : Warning → Logger → Logger
warn w l = record l { warnings = w ∷ l.warnings }

module _ (mkdir_all open_file : String → Bool) where
  -- The part behind the directory.
  open_log : String → Logger → Logger
  open_log log_name l =
      if open_file log_name
      then set_output (stdout ∷ log_file log_name ∷ []) l
      else set_output (stdout ∷ []) (warn no_file l)

  -- The part behind the test for an empty name.
  in_directory : String → Logger → Logger
  unfolding open_log dir
  in_directory log_name l =
      if not (dir log_name == "")
      then if mkdir_all (dir log_name)
        then open_log log_name l
        else set_output (stdout ∷ []) (warn no_directory l)
      else open_log log_name l

  -- `PrepareLogs`: the logger after, and the error
  unfoldable pub prepare_logs : {E : Type 0} → String → Logger → Logger × Option E
  unfolding in_directory
  prepare_logs log_name l =
      let formatted = record l { json = true } in
      if log_name == ""
      then (set_output (stdout ∷ []) formatted, none)
      else (in_directory log_name formatted, none)

  -- Whether a file of this name can be written, its directory included.
  abbrev pub is_writable : String → Bool
  is_writable log_name = not (log_name == "") && mkdir_all (dir log_name) && open_file log_name

  -- Whatever the file system refuses, the set-up of the log never fails: the format is JSON, and
  -- the output is standard output alone, with the file behind it exactly if a file is named and
  -- both its directory and the file can be made. A named file that is not written leaves one
  -- warning, and nothing else does.
  pub prepare_logs_total :
      {E : Type 0} (log_name : String) (l : Logger)
      → ((prepare_logs {E = E} log_name l).1 ≡ none)
        × ((prepare_logs {E = E} log_name l).0.json ≡ true)
        × ((prepare_logs {E = E} log_name l).0.output
            ≡ stdout ∷ (if is_writable log_name then log_file log_name ∷ [] else []))
        × (length (prepare_logs {E = E} log_name l).0.warnings
            ≡ length l.warnings + (if log_name == "" || is_writable log_name then 0 else 1))
  unfolding prepare_logs in_directory open_log
  prepare_logs_total log_name l = ground (arith, dir_nonempty log_name)
