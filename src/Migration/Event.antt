-- ===== src/Migration/Event.antt =====
-- `event_migration_worker` of clusterman/migration/worker.py. What the pool, the lock and the clock answer is
-- the argument `Environment`; the alarm of `limit_function_runtime` cuts the draining off after some nodes.
pub mod Worker
use clusterman.Base.{
  ℕ, zero, suc, ◌+◌, ◌*◌, ◌==◌, String, str_eq, Bool, true, false, not, ◌&&◌, List, [], ◌∷◌, ◌++◌,
  map, Option, none, some, ℤ, pos, pos_part, ◌+ℤ◌, any, keep, length, if◌then◌else◌,
}
use clusterman.Base.Fraction.{Fraction}
use clusterman.Interfaces.{AgentMetadata, ClusterNodeMetadata}
use clusterman.PoolManager.Defs.{PoolManager, Result, ok, err}
use clusterman.PoolManager.Capacity.{target_capacity}
use clusterman.PoolManager.Nodes.{get_node_metadatas}
use clusterman.Migration.Condition.{Values, EventResource, matches}
use clusterman.Migration.Settings.{WorkerSetup, portion_of, is_some_portion, round_f}
use clusterman.Migration.Worker.{
  Reading, Health, observe, is_healthy, unseen, monitor_pool_health, Drained, drain_node_selection,
}

pub data Call : Type 0 where
  set_label_selectors : List String → Call
  reload_state : (load_pods_info : Bool) → Call
  acquire_lock : (timeout : ℕ) → Call
  disable_autoscaling : (until : ℕ) → Call
  modify_target_capacity : (capacity : ℕ) → Call
  submit_for_draining : ClusterNodeMetadata → Call
  release_lock : Call
  enable_autoscaling : Call

-- Whether a call comes back, whatever it answers; `now` is the clock in seconds. The release of a lock that is
-- free is a `ValueError`, so `releases` can be false. `pool` is the state that the first reload loads.
pub record Environment : Type 0 where
  pub pool : PoolManager
  pub agent_of : Option String → AgentMetadata
  pub now : ℕ
  pub reloads : Bool
  pub acquires : Bool
  pub disables : Bool
  pub modifies : Bool
  pub releases : Bool
  pub enables : Bool
  pub first_readings : List Reading
  pub readings : ℕ → List Reading
  pub time_is_up_after : Option ℕ

-- The calls so far, and whether the next statement is reached
pub record Progress : Type 0 where
  pub calls : List Call
  pub goes_on : Bool

-- A statement, after the calls of which the block goes on if `comes_back`
abbrev pub also : (comes_back : Bool) → List Call → Progress → Progress
also comes_back calls p =
    if p.goes_on then record { calls = p.calls ++ calls; goes_on = comes_back } else p

unfoldable pub total_weight : List ClusterNodeMetadata → ℕ
total_weight [] = 0
total_weight (n ∷ ns) = pos_part n.instance.weight + total_weight ns

abbrev pub is_true : Result Bool → Bool
is_true (ok b) = b
is_true (err e) = false

abbrev pub holds : Option Bool → Bool
holds none = false
holds (some b) = b

abbrev pub fails : Option Bool → Bool
fails none = true
fails (some b) = false

abbrev pub front : {A : Type 0} → ℕ → List A → List A
front zero xs = []
front (suc n) [] = []
front (suc n) (x ∷ xs) = x ∷ front n xs

-- The reading that showed the pool healthy: its state is the one that the manager is left with.
unfoldable pub healthy_reading : Health → List Reading → Option Reading
healthy_reading h [] = none
healthy_reading h (r ∷ rs) = elim (observe [] true r h) [
  | err e ↦ none
  | ok after ↦ elim (is_healthy after) [ true ↦ some r | false ↦ healthy_reading after rs ]
]

abbrev pub nodes_of : Option Reading → List ClusterNodeMetadata
nodes_of none = []
nodes_of (some r) = get_node_metadatas r.agent_of r.manager.resource_groups

module _ {V : Type 0} (values : Values V) (event : EventResource V) (setup : WorkerSetup)
    (env : Environment) where
  -- The nodes before the pool is monitored
  abbrev pub nodes : List ClusterNodeMetadata
  nodes = get_node_metadatas env.agent_of env.pool.resource_groups

  -- The nodes after it, of which the draining selects some
  unfoldable pub reloaded_nodes : List ClusterNodeMetadata
  unfolding healthy_reading
  reloaded_nodes = nodes_of (healthy_reading unseen env.first_readings)

  abbrev pub has_agent : ClusterNodeMetadata → Bool
  has_agent n = not (str_eq n.agent.agent_id "")

  -- `node_selector`, where the condition can be read
  unfoldable pub node_selector : ClusterNodeMetadata → Bool
  node_selector n = has_agent n && not (holds (matches values event.condition n))

  -- The condition of some node raises an exception.
  unfoldable pub selector_fails : Bool
  unfolding reloaded_nodes
  selector_fails = any (λ n. has_agent n && fails (matches values event.condition n)) reloaded_nodes

  -- The capacity with prescaling: `round(target_capacity + offset * mean(weights))`, in whole units; weights and
  -- targets count thousandths, and are not negative.
  unfoldable pub prescaled_capacity : ℤ → ℕ
  unfolding total_weight round_f portion_of
  prescaled_capacity target = round_f (record {
    num =
        pos_part target * length nodes
        + portion_of setup.prescaling (length nodes) * total_weight nodes;
    den = 1000 * length nodes;
  })

  -- The mean of no weights is an exception.
  abbrev pub prescale_to : List ClusterNodeMetadata → Result ℤ → Progress → Progress
  prescale_to [] target p = also false [] p
  prescale_to (n ∷ ns) (err e) p = also false [] p
  prescale_to (n ∷ ns) (ok target) p =
      also env.modifies (modify_target_capacity (prescaled_capacity target) ∷ []) p

  -- `if worker_setup.prescaling`
  unfoldable pub prescale : Progress → Progress
  unfolding is_some_portion prescaled_capacity
  prescale p =
      if is_some_portion setup.prescaling
      then prescale_to nodes (target_capacity env.pool.resource_groups) p
      else p

  unfoldable pub migration_routine : Drained
  unfolding reloaded_nodes
  migration_routine =
      drain_node_selection node_selector setup.precedence
        (portion_of setup.rate (length reloaded_nodes)) setup.ignore_pod_health env.readings
        reloaded_nodes

  -- `limit_function_runtime(migration_routine, ...)`, and the error if it does not succeed
  unfoldable pub migrate : Progress → Progress
  unfolding selector_fails migration_routine
  migrate p = if selector_fails then also false [] p else elim env.time_is_up_after [
    | some k ↦ also false (map submit_for_draining (front k migration_routine.submitted)) p
    | none ↦
        also (is_true migration_routine.ended) (map submit_for_draining migration_routine.submitted)
          p
  ]

  -- The block under `try` up to the check of the pool, from the acquired lock on
  unfoldable pub checked_pool : Progress
  unfolding prescale
  checked_pool =
      let start : Progress = record {
        calls = acquire_lock setup.expected_duration ∷ [];
        goes_on = true;
      } in
      let paused =
        if setup.disable_autoscaling
        then also env.disables (disable_autoscaling (env.now + setup.expected_duration) ∷ []) start
        else start in
      also (is_true (monitor_pool_health [] true env.first_readings)) [] (prescale paused)

  unfoldable pub try_block : Progress
  unfolding checked_pool migrate
  try_block = migrate checked_pool

  abbrev pub enable_calls : List Call
  enable_calls = if setup.disable_autoscaling then enable_autoscaling ∷ [] else []

  -- The block under `finally`: a release that raises ends it.
  unfoldable pub finally_calls : (acquired : Bool) → List Call
  finally_calls acquired =
      if acquired then release_lock ∷ (if env.releases then enable_calls else []) else enable_calls

  -- Whether that block, after an acquired lock, raises nothing
  unfoldable pub finally_goes_on : Bool
  finally_goes_on = env.releases && (if setup.disable_autoscaling then env.enables else true)

  -- The calls, and whether the worker returns: an exception is raised again.
  unfoldable pub event_migration_worker : Progress
  unfolding try_block finally_calls finally_goes_on
  event_migration_worker =
      let before =
        set_label_selectors event.label_selectors
        ∷ reload_state (not setup.ignore_pod_health)
        ∷ [] in
      if not env.reloads
      then record { calls = before; goes_on = false }
      else if not env.acquires
      then record {
        calls = before ++ acquire_lock setup.expected_duration ∷ finally_calls false;
        goes_on = false;
      }
      else record {
        calls = before ++ try_block.calls ++ finally_calls true;
        goes_on = try_block.goes_on && finally_goes_on;
      }
