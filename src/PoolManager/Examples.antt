-- ===== src/PoolManager/Examples.antt =====
-- A pool of two groups, on which the theorems about clusterman/autoscaler/pool_manager.py are run.
use clusterman.Base.{
  String, ◌≡◌, ◌≢◌, refl, inl, inr, ◌⊎◌, true, false, List, [], ◌∷◌, Option, none, some, ℤ, pos,
  min_ℤ, max_ℤ, eq_ℤ, ◌≤ℤ◌, ◌<ℤ◌, ◌+ℤ◌, ◌-ℤ◌, arith, In, Dict, get, put, if◌then◌else◌, str_eq,
  sorted, keep, neg_ℤ,
}
use mathlib.Core.List.{Perm}
use clusterman.Resources.{no_resources}
use clusterman.Interfaces.{
  AgentState, orphaned, running, unknown, AgentMetadata, InstanceMetadata, ClusterNodeMetadata,
}
use clusterman.PoolManager.Defs.{
  finite, infinite, ResourceGroup, group_target_capacity, Limits, PoolManager, ok,
}
use clusterman.PoolManager.Capacity.{
  constrain_target_capacity, sum_by, target_capacity, non_stale, constrain, fulfilled_capacity,
}
use clusterman.PoolManager.Nodes.{
  is_node_killable, get_node_metadatas, get_prioritized_killable_nodes,
}
use clusterman.PoolManager.Nodes.Laws.{
  MayBeKilled, IsKillOrder, IsNodeOf, prioritized_killable_nodes,
}
use clusterman.PoolManager.Modify.{
  prune_excess_fulfilled_capacity, modify_group, modify_groups, modify_target_capacity,
}
use clusterman.PoolManager.Modify.Orphans.{
  IsExpiredOrphan, terminate_expired_orphan_instances,
  terminate_expired_orphan_instances-IsExpiredOrphan,
}
use clusterman.PoolManager.Prune.{
  fulfilled_capacities, append_to, mark, within_weight, within_group, within_tasks,
  within_non_orphan, choose_nodes_to_prune, targets_or_own,
}
use clusterman.PoolManager.Prune.Whole.{choose_nodes_to_prune_total}
use clusterman.PoolManager.Prune.Outcome.{IsWithinLimits, choose_nodes_to_prune-IsWithinLimits}
use clusterman.PoolManager.Targets.{
  own_targets, step, ceil, unit, compute_new_resource_group_targets, upwards, key, target_of,
  is_constrained, sum_values,
}
use clusterman.PoolManager.Targets.Initial.{IsDistinct}
use clusterman.PoolManager.Targets.Balance.{IsInside}
use clusterman.PoolManager.Targets.Whole.{compute_reaches_goal, compute_moves, compute_balances}
use clusterman.PoolManager.Capacity.Laws.{IsSound, constrain_within_limits}

abbrev limits : Limits
limits = record {
  min_capacity = pos 1000;
  max_capacity = pos 9000;
  max_tasks_to_kill = finite 5;
  max_weight_to_add = pos 2000;
  max_weight_to_remove = pos 3000;
  min_node_scalein_uptime = pos 0;
}

limits-IsSound : IsSound limits
limits-IsSound = record { ordered = omega arith; adds = omega arith; removes = omega arith }

constrain_within_limits_example :
    (pos 1000 ≤ℤ constrain limits (pos 8000) (pos 20000) false false)
    × (constrain limits (pos 8000) (pos 20000) false false ≤ℤ pos 9000)
constrain_within_limits_example =
    constrain_within_limits limits (pos 8000) (pos 20000) false limits-IsSound (omega arith)
      (omega arith)

abbrev instance_of : (instance_id group_id : String) → (weight : ℤ) → InstanceMetadata
instance_of instance_id group_id weight = record {
  market = record { instance_type = "m5.large"; az = some "us-west-2a" };
  weight = weight;
  group_id = group_id;
  hostname = some instance_id;
  instance_id = instance_id;
  is_cordoned = false;
  ip_address = some instance_id;
  is_stale = false;
  state = "running";
  uptime = pos 7200;
}

abbrev agent_with : (state : AgentState) → AgentMetadata
agent_with state = record {
  agent_id = "agent";
  allocated_resources = no_resources;
  batch_task_count = 0;
  is_safe_to_kill = true;
  is_draining = false;
  state = state;
  task_count = 1;
  total_resources = no_resources;
  kernel = "";
  lsbrelease = "";
}

-- Every address has a running agent but "i-orphan".
abbrev agent_of : Option String → AgentMetadata
agent_of none = agent_with unknown
agent_of (some ip) = if str_eq ip "i-orphan" then agent_with orphaned else agent_with running

abbrev group_a : ResourceGroup
group_a = record {
  id = "a";
  own_target_capacity = pos 2000;
  fulfilled_capacity = pos 4000;
  is_stale = false;
  stale_instance_ids = [];
  min_capacity = pos 0;
  max_capacity = finite (pos 5000);
  instances = instance_of "i-1" "a" (pos 2000) ∷ instance_of "i-orphan" "a" (pos 2000) ∷ [];
}

abbrev group_b : ResourceGroup
group_b = record {
  id = "b";
  own_target_capacity = pos 1000;
  fulfilled_capacity = pos 1000;
  is_stale = false;
  stale_instance_ids = [];
  min_capacity = pos 0;
  max_capacity = infinite;
  instances = instance_of "i-2" "b" (pos 1000) ∷ [];
}

abbrev groups : List ResourceGroup
groups = group_a ∷ group_b ∷ []

abbrev pool : PoolManager
pool = record {
  limits = limits;
  resource_groups = groups;
  non_orphan_fulfilled_capacity = pos 3000;
  draining_enabled = true;
}

groups-IsDistinct : IsDistinct groups
groups-IsDistinct =
    (λ h i. elim i [ inl e ↦ rw (e) refl | inr e ↦ absurd e ], (λ h i. absurd i, tt))

target : target_capacity groups ≡ ok (pos 3000)
unfolding target_capacity group_target_capacity sum_by ◌+ℤ◌
target = refl

computed :
    compute_new_resource_group_targets groups (pos 4500)
    ≡ ok (("a", pos 3000) ∷ ("b", pos 2000) ∷ [])
unfolding compute_new_resource_group_targets target_capacity group_target_capacity ◌-ℤ◌ sum_by ◌+ℤ◌
    put get
computed = refl

compute_reaches_goal_example :
    (result : Dict ℤ) × (compute_new_resource_group_targets groups (pos 4500) ≡ ok result)
    × ((key (upwards (pos 3000) (pos 4500)) (ceil (pos 4500))
          ≤ℤ key (upwards (pos 3000) (pos 4500)) (sum_values result))
        ⊎ ((g : ResourceGroup)
            → In g (non_stale groups)
            → is_constrained (upwards (pos 3000) (pos 4500)) result g ≡ true))
    × (key (upwards (pos 3000) (pos 4500)) (sum_values result)
        <ℤ key (upwards (pos 3000) (pos 4500)) (ceil (pos 4500)) +ℤ unit)
compute_reaches_goal_example =
    compute_reaches_goal groups (pos 4500) (pos 3000) groups-IsDistinct target

abbrev new_targets : Dict ℤ
new_targets = ("a", pos 3000) ∷ ("b", pos 2000) ∷ []

compute_moves_example :
    (target_of new_targets group_b ≡ group_target_capacity group_b)
    ⊎ (key (upwards (pos 3000) (pos 4500)) (group_target_capacity group_b)
        <ℤ key (upwards (pos 3000) (pos 4500)) (target_of new_targets group_b))
      × IsInside (upwards (pos 3000) (pos 4500)) group_b (target_of new_targets group_b)
compute_moves_example =
    compute_moves groups (pos 4500) (pos 3000) groups-IsDistinct target computed group_b
      (inr (inl refl))

group_b-moved : target_of new_targets group_b ≢ group_target_capacity group_b
unfolding target_of group_target_capacity get
group_b-moved e = ground arith

group_a-free : is_constrained (upwards (pos 3000) (pos 4500)) new_targets group_a ≡ false
unfolding is_constrained target_of get upwards step ◌+ℤ◌
group_a-free = refl

compute_balances_example :
    key (upwards (pos 3000) (pos 4500)) (target_of new_targets group_b)
    ≤ℤ key (upwards (pos 3000) (pos 4500)) (target_of new_targets group_a) +ℤ unit
compute_balances_example =
    compute_balances groups (pos 4500) (pos 3000) groups-IsDistinct target computed group_b group_a
      (inr (inl refl)) (inl refl) group_b-moved group_a-free

abbrev node_1 : ClusterNodeMetadata
node_1 = record { agent = agent_with running; instance = instance_of "i-1" "a" (pos 2000) }

prioritized_killable_nodes_example :
    Perm
      (get_prioritized_killable_nodes agent_of limits groups)
      (keep (is_node_killable limits) (get_node_metadatas agent_of groups))
    × IsKillOrder limits (get_prioritized_killable_nodes agent_of limits groups)
    × ((n : ClusterNodeMetadata)
        → In n (get_prioritized_killable_nodes agent_of limits groups)
        → MayBeKilled limits n × IsNodeOf agent_of groups n)
    × ((n : ClusterNodeMetadata)
        → In n (get_node_metadatas agent_of groups)
        → MayBeKilled limits n
        → In n (get_prioritized_killable_nodes agent_of limits groups))
prioritized_killable_nodes_example = prioritized_killable_nodes agent_of limits groups

choose_nodes_to_prune_total_example :
    (marked : Dict (List ClusterNodeMetadata)) × (choose_nodes_to_prune agent_of pool (pos 2000) []
      ≡ ok marked)
choose_nodes_to_prune_total_example =
    choose_nodes_to_prune_total agent_of pool (pos 2000) [] (inl refl)

abbrev marked_nodes : Dict (List ClusterNodeMetadata)
marked_nodes =
    (
      "a",
      record { agent = agent_with orphaned; instance = instance_of "i-orphan" "a" (pos 2000) } ∷ [],
    )
    ∷ []

chosen : choose_nodes_to_prune agent_of pool (pos 2000) [] ≡ ok marked_nodes
unfolding choose_nodes_to_prune fulfilled_capacity sum_by ◌+ℤ◌ ◌-ℤ◌ get put
    get_prioritized_killable_nodes sorted fulfilled_capacities own_targets append_to mark
    within_weight within_group within_tasks within_non_orphan group_target_capacity
chosen = refl

choose_nodes_to_prune-IsWithinLimits_example :
    IsWithinLimits agent_of pool (pos 2000) (targets_or_own groups []) marked_nodes
choose_nodes_to_prune-IsWithinLimits_example =
    choose_nodes_to_prune-IsWithinLimits agent_of pool (pos 2000) [] limits-IsSound chosen

modified :
    modify_groups groups false new_targets
    ≡ ok (modify_group "a" (pos 3000) false ∷ modify_group "b" (pos 2000) false ∷ [])
unfolding modify_groups group_target_capacity ◌-ℤ◌ eq_ℤ
modified = refl

previewed :
    modify_target_capacity agent_of pool (pos 2000) true false true false
    ≡ ok (pos 2000, modify_group "a" (pos 1000) true ∷ [])
unfolding modify_target_capacity constrain_target_capacity target_capacity
    compute_new_resource_group_targets ◌-ℤ◌ sum_by ◌+ℤ◌ group_target_capacity min_ℤ put get
    prune_excess_fulfilled_capacity choose_nodes_to_prune fulfilled_capacity
    get_prioritized_killable_nodes sorted fulfilled_capacities within_weight within_group
    within_tasks within_non_orphan eq_ℤ modify_groups own_targets targets_or_own max_ℤ neg_ℤ mark
previewed = refl

terminate_expired_orphan_instances-IsExpiredOrphan_example :
    (false ≡ false) × IsExpiredOrphan (pos 3600) (get_node_metadatas agent_of groups) "a" "i-orphan"
unfolding terminate_expired_orphan_instances get_node_metadatas get put
terminate_expired_orphan_instances-IsExpiredOrphan_example =
    terminate_expired_orphan_instances-IsExpiredOrphan agent_of groups (pos 3600) false "a"
      "i-orphan" (inl refl)
