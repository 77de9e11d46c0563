-- ===== src/Server/Lifecycle/FirstPush.antt =====
-- main.go: what a push reads behind the first cycle.
use mathlib.Core.Path.{subst}
use pve_exporter.Base.{
  String, ◌≡◌, refl, sym, ap, ◌∙◌, true, false, Option, none, some, List, [], ◌∷◌, ◌++◌, map, arith,
  inl, inr, Bool-cases, if◌then◌else◌, Bool,
}
use pve_exporter.Base.Dict.{contains}
use pve_exporter.Base.Fallible.{Fallible, value, failure, value-injective}
use pve_exporter.Models.Config.{Configuration, is_otel_metrics_enabled}
use pve_exporter.Pve.Snapshot.{
  SnapshotStore, TargetSnapshot, build_snapshot, load, store, samples_for,
}
use pve_exporter.Pve.Snapshot.Index.{samples_for-build_snapshot}
use pve_exporter.Pve.Otlp.{
  OtlpExporter, new_otlp_exporter, observe, observations, ensure_names, ensure_instruments,
}
use pve_exporter.Pve.Otlp.Instruments.{
  IsConsistent, ensure_instruments-IsConsistent, observations-all,
}
use pve_exporter.Pve.Otlp.Setup.{unless_error, with_reader, create_exporter}
use pve_exporter.Pve.Collector.Cycle.{
  Collector, collect_targets, no_results, result_of, collect_all, collect_once,
}
use pve_exporter.Server.{start_collector}
use pve_exporter.Server.Lifecycle.{
  World, setup_otlp, registered, collect_first_cycle, ensure_registered, sync_instruments,
}
use pve_exporter.Server.Lifecycle.Run.{run_once, run_server}

-- A push on the store observes every sample that the store has under each name.
abbrev pub ObservesAll : SnapshotStore → Option OtlpExporter → Type 0
ObservesAll st none = Unit
ObservesAll st (some e) = (n : String) → observations e st n ≡ map observe (samples_for (load st) n)

new_otlp_exporter-IsConsistent : IsConsistent new_otlp_exporter
unfolding new_otlp_exporter contains
new_otlp_exporter-IsConsistent = record { distinct = tt; same = λ n. refl }

module _ {E : Type 0} (gauge : String → Option E) (total : (n : String) → gauge n ≡ none) where
  ensure_names_total :
      (names : List String) (e : OtlpExporter) → (ensure_names gauge names e).1 ≡ none
  unfolding ensure_names
  ensure_names_total [] e = refl
  ensure_names_total (n ∷ names) e = elim (Bool-cases (contains n e.registered)) [
    | inl t ↦ rw t (ensure_names_total names e)
    | inr f ↦ rw (f, total n) (ensure_names_total names _)
  ]

  -- Without errors of the meter, a registration leaves nothing unobserved.
  ensure_instruments-ObservesAll :
      (ts : List (Option TargetSnapshot)) (st : SnapshotStore) (e : OtlpExporter)
      → IsConsistent e
      → load st ≡ build_snapshot ts
      → ObservesAll st (some (ensure_instruments gauge st e).0)
  ensure_instruments-ObservesAll ts st e h at n =
      observations-all gauge ts st e n h at (unfold ensure_instruments in ensure_names_total _ e)
      ∙ ap (map observe) (sym (ap (λ s. samples_for s n) at ∙ samples_for-build_snapshot ts n))

-- An exporter that was set up is consistent.
abbrev AllConsistent : {E R : Type 0} → Fallible E (OtlpExporter × R) → Type 0
AllConsistent {R = R} l = (p : OtlpExporter × R) → l ≡ value p → IsConsistent p.0

value-AllConsistent :
    {E R : Type 0} (e : OtlpExporter) (reader : R)
    → IsConsistent e
    → AllConsistent {E = E} (value (e, reader))
value-AllConsistent e reader h p q = subst (λ x. IsConsistent x.0) (value-injective q) h

unless_error-AllConsistent :
    {E R : Type 0} (failed : Option E) (l : Fallible E (OtlpExporter × R))
    → AllConsistent l
    → AllConsistent (unless_error failed l)
unless_error-AllConsistent (some e) l h p q = ground (arith, q)
unless_error-AllConsistent none l h p q = h p q

-- Where there is an exporter, it is a consistent one behind a registration.
abbrev IsRegistered :
    {E : Type 0} → (String → Option E) → SnapshotStore → Option OtlpExporter → Type 0
IsRegistered gauge st none = Unit
IsRegistered gauge st (some e) =
    (new : OtlpExporter) × IsConsistent new × (e ≡ (ensure_instruments gauge st new).0)

module _ {E : Type 0} (world : World E) (version : String) where
  create_exporter-AllConsistent :
      (cfg : Configuration)
      → AllConsistent (
          create_exporter world.new_metric_exporter world.new_resource world.parse_duration
            cfg.open_telemetry.metrics version)
  unfolding create_exporter with_reader
  create_exporter-AllConsistent cfg =
      unless_error-AllConsistent _ _
        (unless_error-AllConsistent _ _ (value-AllConsistent _ _ new_otlp_exporter-IsConsistent))

  IsRegistered-if :
      (st : SnapshotStore) (enabled : Bool) (otlp : Option OtlpExporter)
      → IsRegistered world.float64_observable_gauge st otlp
      → IsRegistered world.float64_observable_gauge st (if enabled then otlp else none)
  IsRegistered-if st true otlp h = h
  IsRegistered-if st false otlp h = tt

  registered-IsRegistered :
      {R : Type 0} (st : SnapshotStore) (l : Fallible E (OtlpExporter × R))
      → AllConsistent l
      → IsRegistered world.float64_observable_gauge st (registered world version st l)
  registered-IsRegistered st (failure e) h = tt
  registered-IsRegistered st (value (e, reader)) h = (e, h (e, reader) refl, refl)

  setup_otlp-IsRegistered :
      (cfg : Configuration) (st : SnapshotStore)
      → IsRegistered world.float64_observable_gauge st (setup_otlp world version cfg st)
  unfolding setup_otlp
  setup_otlp-IsRegistered cfg st =
      IsRegistered-if st (is_otel_metrics_enabled cfg) _
        (registered-IsRegistered st _ (create_exporter-AllConsistent cfg))

  module _ (total : (n : String) → world.float64_observable_gauge n ≡ none)
      (ts : List (Option TargetSnapshot)) (st : SnapshotStore)
      (at : load st ≡ build_snapshot ts) where
    IsRegistered-ObservesAll :
        (otlp : Option OtlpExporter)
        → IsRegistered world.float64_observable_gauge st otlp
        → ObservesAll st otlp
    IsRegistered-ObservesAll none h = tt
    IsRegistered-ObservesAll (some e) (new, consistent, q) =
        subst (λ x. ObservesAll st (some x)) (sym q)
          (ensure_instruments-ObservesAll world.float64_observable_gauge total ts st new consistent
            at)

  sync_instruments-append :
      (ticks : List SnapshotStore) (now : SnapshotStore) (otlp : Option OtlpExporter)
      → sync_instruments world version (ticks ++ now ∷ []) otlp
        ≡ ensure_registered world version now (sync_instruments world version ticks otlp)
  sync_instruments-append [] now otlp = refl
  sync_instruments-append (st ∷ ticks) now otlp = sync_instruments-append ticks now _

  -- The results of the first cycle.
  first_results : Collector → List (Option TargetSnapshot)
  first_results c =
      map result_of
        (collect_targets world.visits c.toggles c.targets world.finished (no_results c.targets))

  collect_first_cycle-load :
      (c : Collector)
      → load (collect_first_cycle world version c).1.store ≡ build_snapshot (first_results c)
  unfolding collect_once collect_all load store first_results
  collect_first_cycle-load c = refl

  -- Where there is an exporter, it is consistent.
  abbrev SomeConsistent : Option OtlpExporter → Type 0
  SomeConsistent none = Unit
  SomeConsistent (some e) = IsConsistent e

  ensure_registered-SomeConsistent :
      (st : SnapshotStore) (otlp : Option OtlpExporter)
      → SomeConsistent otlp
      → SomeConsistent (ensure_registered world version st otlp)
  ensure_registered-SomeConsistent st none h = tt
  ensure_registered-SomeConsistent st (some e) h =
      ensure_instruments-IsConsistent world.float64_observable_gauge st e h

  sync_instruments-SomeConsistent :
      (stores : List SnapshotStore) (otlp : Option OtlpExporter)
      → SomeConsistent otlp
      → SomeConsistent (sync_instruments world version stores otlp)
  sync_instruments-SomeConsistent [] otlp h = h
  sync_instruments-SomeConsistent (st ∷ stores) otlp h =
      sync_instruments-SomeConsistent stores _ (ensure_registered-SomeConsistent st otlp h)

  IsRegistered-SomeConsistent :
      (st : SnapshotStore) (otlp : Option OtlpExporter)
      → IsRegistered world.float64_observable_gauge st otlp
      → SomeConsistent otlp
  IsRegistered-SomeConsistent st none h = tt
  IsRegistered-SomeConsistent st (some e) (new, consistent, q) =
      subst IsConsistent (sym q)
        (ensure_instruments-IsConsistent world.float64_observable_gauge st new consistent)

  module _ (total : (n : String) → world.float64_observable_gauge n ≡ none)
      (ts : List (Option TargetSnapshot)) (st : SnapshotStore)
      (at : load st ≡ build_snapshot ts) where
    ensure_registered-ObservesAll :
        (otlp : Option OtlpExporter)
        → SomeConsistent otlp
        → ObservesAll st (ensure_registered world version st otlp)
    ensure_registered-ObservesAll none h = tt
    ensure_registered-ObservesAll (some e) h =
        ensure_instruments-ObservesAll world.float64_observable_gauge total ts st e h at

  -- If the meter takes every instrument, then an exporter that could be set up observes every
  -- sample of the first snapshot at the end of the start, in a single cycle as well as with the
  -- server, which sets up the exporter before the cycle; and beside the server, after any ticks of
  -- the loop that keeps the instruments, a tick on the snapshot of any results has it observe every
  -- sample of that snapshot.
  pub run-ObservesAll :
      (cfg : Configuration) (config_file : String) (debug : Bool) (ticks : List SnapshotStore)
      (now : SnapshotStore) (ts : List (Option TargetSnapshot))
      → ((n : String) → world.float64_observable_gauge n ≡ none)
      → load now ≡ build_snapshot ts
      → let r = run_once world version debug cfg in
        let s = run_server world version config_file cfg in
        let later = sync_instruments world version (ticks ++ now ∷ []) s.otlp in
        ObservesAll r.collector.store r.otlp
        × ObservesAll s.collector.store s.otlp
        × ObservesAll now later
  unfolding run_once run_server
  run-ObservesAll cfg config_file debug ticks now ts total current =
      let c = start_collector world.parse_duration cfg in
      let at = collect_first_cycle-load c in
      let earlier = IsRegistered-SomeConsistent c.store _ (setup_otlp-IsRegistered cfg c.store) in
      (
        IsRegistered-ObservesAll total (first_results c) _ at _ (setup_otlp-IsRegistered cfg _),
        ensure_registered-ObservesAll total (first_results c) _ at _ earlier,
        subst (ObservesAll now) (sym (sync_instruments-append ticks now _)) (
            ensure_registered-ObservesAll total ts now current _ (
              sync_instruments-SomeConsistent ticks _
                (ensure_registered-SomeConsistent _ _ earlier))),
      )
