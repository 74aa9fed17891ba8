-- ===== src/Migration/Batch.antt =====
-- The workers and events of `NodeMigration` (clusterman/batch/node_migration.py). What a worker does is not
-- modelled: a worker is its process, which is alive or has exited with a code.
pub mod Laws
pub mod Monitor
use Prim.Native.String.{◌++◌ as append}
use text.Mathlib.Text.{starts_with}
use clusterman.Base.{
  ℕ, suc, ◌*◌, String, Bool, true, false, not, ◌||◌, ◌&&◌, List, [], ◌∷◌, ◌++◌, Option, none, some,
  ℤ, pos, ltb_ℤ, eq_ℤ, leb, Dict, get, put, delete, has, any, str_eq, if◌then◌else◌,
}

pub data MigrationStatus : Type 0 where
  pending inprogress completed skipped : MigrationStatus

-- `label_selectors` and `condition` are read by the worker only.
pub record MigrationEvent : Type 0 where
  pub resource_name : String
  pub cluster : String
  pub pool : String

pub record Process : Type 0 where
  pub is_alive : Bool
  pub exitcode : ℤ

pub data Action : Type 0 where
  mark_event : MigrationEvent → MigrationStatus → Action
  start restart : (label : String) → Action

-- `can_set_up` says for which pools `_get_worker_setup` gives a setup; the slots are a float in the
-- source, and count thousandths here.
pub record Config : Type 0 where
  pub cluster : String
  pub can_set_up : String → Bool
  pub pools_accepting_events : List String
  pub available_worker_slots : ℕ

-- The fields that change, and what was done, oldest first.
pub record Batch : Type 0 where
  pub migration_workers : Dict Process
  pub events_in_progress : Dict MigrationEvent
  pub actions : List Action

unfoldable pub build_event_label : MigrationEvent → String
build_event_label e = append "event" (append ":" (append e.cluster (append ":" e.pool)))

unfoldable pub build_uptime_label : (cluster pool : String) → String
build_uptime_label cluster pool = append "uptime" (append ":" (append cluster (append ":" pool)))

unfoldable pub is_event_worker_label : String → Bool
is_event_worker_label label = starts_with label "event"

unfoldable pub running_workers : Dict Process → ℕ
running_workers [] = 0
running_workers ((_, p) ∷ ps) = if p.is_alive then suc (running_workers ps) else running_workers ps

-- `label in self.migration_workers and self.migration_workers[label].is_alive()`
unfoldable pub is_running : String → Dict Process → Bool
is_running label ps = elim (get label ps) [ none ↦ false | some p ↦ p.is_alive ]

abbrev pub started : Process
started = record { is_alive = true; exitcode = pos 0 }

-- Event workers wait for a slot; uptime workers do not.
unfoldable pub is_full : Config → String → Dict Process → Bool
unfolding running_workers is_event_worker_label
is_full c label ps =
    is_event_worker_label label && leb c.available_worker_slots (running_workers ps * 1000)

-- `_spawn_worker`: whether the worker was started.
unfoldable pub spawn_worker : Config → String → Batch → Bool × Batch
unfolding is_running is_full
spawn_worker c label b =
    if is_running label b.migration_workers || is_full c label b.migration_workers
    then (false, b)
    else (
      true,
      record b {
        migration_workers = put label started b.migration_workers;
        actions = b.actions ++ (start label ∷ []);
      },
    )

unfoldable pub mark : MigrationEvent → MigrationStatus → Batch → Batch
mark e status b = record b { actions = b.actions ++ (mark_event e status ∷ []) }

-- The end of `spawn_event_worker`
unfoldable pub record_event : MigrationEvent → Bool × Batch → Batch
unfolding mark build_event_label
record_event e (false, b) = b
record_event e (true, b) =
    mark e inprogress
      (record b { events_in_progress = put (build_event_label e) e b.events_in_progress })

unfoldable pub is_processable : Config → MigrationEvent → Bool
is_processable c e =
    any (λ p. str_eq p e.pool) c.pools_accepting_events
    && c.can_set_up e.pool
    && str_eq e.cluster c.cluster

unfoldable pub spawn_event_worker : Config → MigrationEvent → Batch → Batch
unfolding is_processable spawn_worker record_event mark
spawn_event_worker c e b =
    if is_processable c e
    then record_event e (spawn_worker c (build_event_label e) b)
    else mark e skipped b

abbrev min_uptime_churning_seconds : ℤ
min_uptime_churning_seconds = pos 86400

-- `uptime_seconds` is the uptime after `load_timespan_target`.
unfoldable pub spawn_uptime_worker : Config → (pool : String) → (uptime_seconds : ℤ) → Batch → Batch
unfolding spawn_worker build_uptime_label
spawn_uptime_worker c pool uptime_seconds b =
    if ltb_ℤ uptime_seconds min_uptime_churning_seconds || not (c.can_set_up pool)
    then b
    else (spawn_worker c (build_uptime_label c.cluster pool) b).1

-- The labels of `completed` and of `torestart`
unfoldable pub exited : (clean : Bool) → Dict Process → List String
exited clean [] = []
exited clean ((label, p) ∷ ps) =
    let rest = exited clean ps in
    if p.is_alive
    then rest
    else if eq_ℤ p.exitcode (pos 0)
    then (if clean then label ∷ rest else rest)
    else (if clean then rest else label ∷ rest)

-- `none` is the `KeyError` of `events_in_progress.pop(label)`.
unfoldable pub complete_one : String → Batch → Option Batch
unfolding mark is_event_worker_label
complete_one label b =
    if is_event_worker_label label
    then elim (get label b.events_in_progress) [
      | none ↦ none
      | some e ↦ some (
          mark e completed (record b {
            events_in_progress = delete label b.events_in_progress;
            migration_workers = delete label b.migration_workers;
          }))
    ]
    else some (record b { migration_workers = delete label b.migration_workers })

unfoldable pub complete : List String → Batch → Option Batch
unfolding complete_one
complete [] b = some b
complete (label ∷ labels) b = elim (complete_one label b) [
  | none ↦ none
  | some after ↦ complete labels after
]

unfoldable pub restart_all : List String → Batch → Batch
restart_all [] b = b
restart_all (label ∷ labels) b = restart_all labels (record b {
  migration_workers = put label started b.migration_workers;
  actions = b.actions ++ (restart label ∷ []);
})

unfoldable pub monitor_workers : Batch → Option Batch
unfolding exited complete restart_all
monitor_workers b = elim (complete (exited true b.migration_workers) b) [
  | none ↦ none
  | some after ↦ some (restart_all (exited false b.migration_workers) after)
]
