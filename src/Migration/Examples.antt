-- ===== src/Migration/Examples.antt =====
-- A batch with one worker, on which the theorems about clusterman/batch/node_migration.py are run.
use clusterman.Base.{◌++◌, none, ◌≡◌, refl, true, false, [], ◌∷◌, some, pos, arith, has}
use clusterman.Base.{String, str_eq, List, Bool, In, any, inl, ◌⊎◌, ◌+ℤ◌, sorted}
use clusterman.Resources.{no_resources}
use clusterman.Interfaces.{AgentMetadata, ClusterNodeMetadata, running}
use clusterman.PoolManager.Defs.{PoolManager, infinite, ok, group_target_capacity}
use clusterman.PoolManager.Capacity.{target_capacity, sum_by}
use clusterman.PoolManager.Nodes.{is_capacity_satisfied}
use clusterman.Migration.Condition.{
  instance_type, is_in, many, EventResource, Values, to_dict, to_crd_body, from_crd,
}
use clusterman.Migration.Condition.Laws.{IsApplicable, from_crd-to_crd_body, from_dict-IsApplicable}
use clusterman.Migration.Worker.{
  Reading, is_still_there, monitor_pool_health, highest_uptime, Drained, drain_node_selection,
}
use clusterman.PoolManager.Nodes.{get_node_metadatas}
use clusterman.Migration.Settings.{
  percentage, percent, absolute, WorkerConfig, WorkerSetup, portion_of, from_config,
}
use clusterman.Migration.Event.{
  Call, submit_for_draining, release_lock, enable_autoscaling, Environment, reloaded_nodes,
  event_migration_worker,
}
use clusterman.Migration.Event.Worker.{
  releases, event_migration_worker-complete, event_migration_worker-restores,
}
use clusterman.Migration.Worker.Monitoring.{Shown, monitor_pool_health-seen}
use clusterman.Migration.Batch.{
  MigrationEvent, Config, Batch, monitor_workers, spawn_event_worker, running_workers,
}
use clusterman.Migration.Batch.Laws.{IsTracked, IsWithinSlots, spawn_event_worker-IsTracked}
use clusterman.Migration.Batch.Monitor.{monitor_workers-IsTracked}

abbrev event : MigrationEvent
event = record { resource_name = "event-1"; cluster = "west"; pool = "default" }

abbrev config : Config
config = record {
  cluster = "west";
  can_set_up = λ _. true;
  pools_accepting_events = "default" ∷ [];
  available_worker_slots = 2000;
}

-- The worker of the event has completed.
abbrev batch : Batch
batch = record {
  migration_workers = ("event:west:default", record { is_alive = false; exitcode = pos 0 }) ∷ [];
  events_in_progress = ("event:west:default", event) ∷ [];
  actions = [];
}

batch-IsTracked : IsTracked batch
unfolding has
batch-IsTracked = record { unique = (refl, tt); tracked = λ label e h. ground (arith, h) }

batch-IsWithinSlots : IsWithinSlots config batch
unfolding IsWithinSlots running_workers
batch-IsWithinSlots = omega arith

spawn_event_worker-IsTracked_example : IsTracked (spawn_event_worker config event batch)
spawn_event_worker-IsTracked_example =
    spawn_event_worker-IsTracked config event batch batch-IsTracked

monitor_workers-IsTracked_example :
    (after : Batch) × (monitor_workers batch ≡ some after) × IsTracked after
monitor_workers-IsTracked_example = monitor_workers-IsTracked batch batch-IsTracked

abbrev agent_named : String → AgentMetadata
agent_named agent_id = record {
  agent_id = agent_id;
  allocated_resources = no_resources;
  batch_task_count = 0;
  is_safe_to_kill = true;
  is_draining = false;
  state = running;
  task_count = 1;
  total_resources = no_resources;
  kernel = "";
  lsbrelease = "";
}

abbrev node : ClusterNodeMetadata
node = record {
  agent = agent_named "node-1";
  instance = record {
    market = record { instance_type = "m5.large"; az = some "us-west-2a" };
    weight = pos 1000;
    group_id = "a";
    hostname = some "node-1";
    instance_id = "i-1";
    is_cordoned = false;
    ip_address = some "10.0.0.1";
    is_stale = false;
    state = "running";
    uptime = pos 7200;
  };
}

abbrev pool : PoolManager
pool = record {
  limits = record {
    min_capacity = pos 0;
    max_capacity = pos 9000;
    max_tasks_to_kill = infinite;
    max_weight_to_add = pos 2000;
    max_weight_to_remove = pos 2000;
    min_node_scalein_uptime = pos 0;
  };
  resource_groups =
      record {
        id = "a";
        own_target_capacity = pos 1000;
        fulfilled_capacity = pos 1000;
        is_stale = false;
        stale_instance_ids = [];
        min_capacity = pos 0;
        max_capacity = infinite;
        instances = node.instance ∷ [];
      }
      ∷ [];
  non_orphan_fulfilled_capacity = pos 1000;
  draining_enabled = true;
}

-- The node was replaced.
abbrev readings : List Reading
readings =
    record {
      manager = pool;
      agent_of = λ _. agent_named "node-2";
      has_enough_capacity_for_pods = true;
    }
    ∷ []

healthy : monitor_pool_health (node ∷ []) false readings ≡ ok true
unfolding monitor_pool_health is_capacity_satisfied target_capacity sum_by group_target_capacity
    ◌+ℤ◌
healthy = refl

monitor_pool_health-seen_example :
    Shown (λ r. any (is_still_there r) (node ∷ []) ≡ false) readings
    × Shown (λ r. is_capacity_satisfied r.manager ≡ ok true) readings
    × ((false ≡ true) ⊎ Shown (λ r. r.has_enough_capacity_for_pods ≡ true) readings)
monitor_pool_health-seen_example = monitor_pool_health-seen (node ∷ []) false readings healthy

abbrev everything : ClusterNodeMetadata → Bool
everything n = true

abbrev recycled : Drained
recycled = drain_node_selection everything highest_uptime 1 false (λ _. readings) (node ∷ [])

sent : In node recycled.submitted
unfolding drain_node_selection monitor_pool_health is_capacity_satisfied target_capacity sum_by
    group_target_capacity ◌+ℤ◌ sorted
sent = inl refl

ended : recycled.ended ≡ ok true
unfolding drain_node_selection monitor_pool_health is_capacity_satisfied target_capacity sum_by
    group_target_capacity ◌+ℤ◌ sorted
ended = refl

-- Values are texts; a list of them is written and read with one element.
abbrev texts : Values String
texts = record {
  load = λ trait s. some s;
  get_from = λ trait node. some node.instance.market.instance_type;
  show = λ v. v;
  compare = λ op a b. str_eq a b;
  split_commas = λ s. s ∷ [];
  join = λ ss. elim ss [ [] ↦ "" | s ∷ rest ↦ s ];
}

abbrev resource : EventResource String
resource = record {
  event = record { resource_name = "recycle"; cluster = "c"; pool = "p" };
  label_selectors = "role=web" ∷ [];
  condition = record { trait = instance_type; operator = is_in; target = many ("m5.large" ∷ []) };
}

from_crd-to_crd_body_example :
    from_crd texts (to_crd_body texts resource (some (("team", "infra") ∷ []))) ≡ some resource
unfolding clusterman.Migration.Condition.supports clusterman.Migration.Condition.expects_collection
from_crd-to_crd_body_example =
    from_crd-to_crd_body texts resource (some (("team", "infra") ∷ [])) refl (refl, (refl, tt))

from_dict-IsApplicable_example : IsApplicable texts resource.condition
unfolding clusterman.Migration.Condition.from_dict to_dict
from_dict-IsApplicable_example =
    from_dict-IsApplicable texts (to_dict texts resource.condition) resource.condition refl

-- The nodes are to be of another type.
abbrev renewal : EventResource String
renewal = record resource {
  condition = record { trait = instance_type; operator = is_in; target = many ("c5.large" ∷ []) };
}

abbrev worker_config : WorkerConfig
worker_config = record {
  strategy = record {
    rate = percentage (pos 2500);
    prescaling = none;
    precedence = none;
    bootstrap_wait = none;
    bootstrap_timeout = none;
  };
  disable_autoscaling = some true;
  expected_duration = none;
  health_check_interval = none;
  ignore_pod_health = none;
}

abbrev setup : WorkerSetup
setup = record {
  rate = percent 2500;
  prescaling = absolute 0;
  precedence = highest_uptime;
  bootstrap_wait = 60;
  bootstrap_timeout = 60;
  disable_autoscaling = true;
  expected_duration = 60;
  health_check_interval = 60;
  ignore_pod_health = false;
}

-- Every time reads as a minute, and 2.5% of the pool are one node.
loaded : from_config (λ s. some 60) worker_config ≡ some setup
unfolding from_config
loaded = refl

abbrev environment : Environment
environment = record {
  pool = pool;
  agent_of = λ address. agent_named "node-1";
  now = 1000;
  reloads = true;
  acquires = true;
  disables = true;
  modifies = true;
  releases = true;
  enables = true;
  first_readings =
      record {
        manager = pool;
        agent_of = λ address. agent_named "node-1";
        has_enough_capacity_for_pods = false;
      }
      ∷ [];
  readings = λ round. readings;
  time_is_up_after = none;
}

returned : (event_migration_worker texts renewal setup environment).goes_on ≡ true
unfolding event_migration_worker get_node_metadatas clusterman.Migration.Condition.matches
    monitor_pool_health is_capacity_satisfied target_capacity sum_by ◌+ℤ◌ group_target_capacity
    drain_node_selection sorted clusterman.Migration.Event.node_selector reloaded_nodes
returned = refl

event_migration_worker-complete_example :
    In (submit_for_draining node) (event_migration_worker texts renewal setup environment).calls
unfolding get_node_metadatas portion_of clusterman.Migration.Condition.matches reloaded_nodes
    monitor_pool_health is_capacity_satisfied target_capacity sum_by ◌+ℤ◌ group_target_capacity
event_migration_worker-complete_example =
    event_migration_worker-complete texts renewal setup environment (λ s. some 60) worker_config
      node loaded returned (inl refl) (refl, refl)

event_migration_worker-restores_example :
    (releases (event_migration_worker texts renewal setup environment).calls ≡ 1)
    × (setup.disable_autoscaling ≡ true
        → (environment.acquires ≡ false) ⊎ (environment.releases ≡ true)
        → (earlier : List Call) × ((event_migration_worker texts renewal setup environment).calls
            ≡ earlier ++ enable_autoscaling ∷ []))
    × (environment.acquires ≡ true
        → environment.releases ≡ false
        → ((earlier : List Call) × ((event_migration_worker texts renewal setup environment).calls
              ≡ earlier ++ release_lock ∷ []))
          × ((event_migration_worker texts renewal setup environment).goes_on ≡ false))
event_migration_worker-restores_example =
    event_migration_worker-restores texts renewal setup environment refl
