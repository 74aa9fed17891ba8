-- ===== src/PoolManager/Prune.antt =====
-- `PoolManager._choose_nodes_to_prune`: which nodes to remove, within the limits of one run.
pub mod Accounts
pub mod Bounds
pub mod Whole
pub mod Outcome
use clusterman.Base.{
  ℕ, ◌+◌, String, Bool, true, false, not, ◌&&◌, List, [], ◌∷◌, ◌++◌, Option, none, some, ℤ, pos,
  ◌+ℤ◌, ◌-ℤ◌, ltb_ℤ, leb_ℤ, str_eq, if◌then◌else◌, Dict, get, put, or_else,
}
use clusterman.Interfaces.{AgentMetadata, ClusterNodeMetadata}
use clusterman.PoolManager.Defs.{
  exceeds, ResourceGroup, Limits, PoolManager, Result, ok, or_key_error, ◌>>=◌,
}
use clusterman.PoolManager.Capacity.{fulfilled_capacity}
use clusterman.PoolManager.Targets.{own_targets}
use clusterman.PoolManager.Nodes.{is_orphaned, get_prioritized_killable_nodes}

-- The variables of the loop.
pub record PruneState : Type 0 where
  pub marked_nodes : Dict (List ClusterNodeMetadata)
  pub rem_group_capacities : Dict ℤ
  pub curr_capacity : ℤ
  pub remaining_non_orphan_capacity : ℤ
  pub removed_weight : ℤ
  pub killed_task_count : ℕ

-- `marked_nodes[group_id].append(node)`, where a missing entry is an empty list
unfoldable pub append_to :
    String → ClusterNodeMetadata → Dict (List ClusterNodeMetadata) → Dict (List ClusterNodeMetadata)
append_to k n [] = (k, n ∷ []) ∷ []
append_to k n ((j, ns) ∷ d) =
    if str_eq j k then (j, ns ++ n ∷ []) ∷ d else (j, ns) ∷ append_to k n d

-- `{group_id: rg.fulfilled_capacity for ...}`, put into a dictionary that is there
unfoldable pub fulfilled_capacities : List ResourceGroup → Dict ℤ → Dict ℤ
fulfilled_capacities [] d = d
fulfilled_capacities (g ∷ gs) d = fulfilled_capacities gs (put g.id g.fulfilled_capacity d)

module _ (l : Limits) (new_target_capacity : ℤ) (group_targets : Dict ℤ) where
  -- The four cases in which a node is passed over.
  unfoldable pub within_weight : PruneState → ClusterNodeMetadata → Bool
  within_weight s n = not (ltb_ℤ l.max_weight_to_remove (n.instance.weight +ℤ s.removed_weight))

  unfoldable pub within_group : (rem target : ℤ) → ClusterNodeMetadata → Bool
  within_group rem target n = not (ltb_ℤ (rem -ℤ n.instance.weight) target)

  unfoldable pub within_tasks : PruneState → ClusterNodeMetadata → Bool
  within_tasks s n = not (exceeds (s.killed_task_count + n.agent.task_count) l.max_tasks_to_kill)

  unfoldable pub within_non_orphan : PruneState → ClusterNodeMetadata → Bool
  within_non_orphan s n =
      if is_orphaned n.agent.state
      then true
      else not (ltb_ℤ (s.remaining_non_orphan_capacity -ℤ n.instance.weight) new_target_capacity)

  unfoldable pub mark : PruneState → ClusterNodeMetadata → (rem : ℤ) → PruneState
  mark s n rem = record {
    marked_nodes = append_to n.instance.group_id n s.marked_nodes;
    rem_group_capacities =
        put n.instance.group_id (rem -ℤ n.instance.weight) s.rem_group_capacities;
    curr_capacity = s.curr_capacity -ℤ n.instance.weight;
    remaining_non_orphan_capacity =
        if is_orphaned n.agent.state
        then s.remaining_non_orphan_capacity
        else s.remaining_non_orphan_capacity -ℤ n.instance.weight;
    removed_weight = s.removed_weight +ℤ n.instance.weight;
    killed_task_count = s.killed_task_count + n.agent.task_count;
  }

  -- The body of the `for` loop: the new state, or none where the node is passed over.
  pub visit : PruneState → ClusterNodeMetadata → Result (Option PruneState)
  visit s n = do
    rem ← or_key_error (get n.instance.group_id s.rem_group_capacities)
    if not (within_weight s n) then ok none else do
      target ← or_key_error (get n.instance.group_id group_targets)
      ok (
          if within_group rem target n && within_tasks s n && within_non_orphan s n
          then some (mark s n rem)
          else none)

  -- The `for` loop; `break` once the capacity is down to the target.
  pub prune_loop : PruneState → List ClusterNodeMetadata → Result PruneState
  unfolding visit
  prune_loop s [] = ok s
  prune_loop s (n ∷ ns) = do
    marked ← visit s n
    elim marked [
      | none ↦ prune_loop s ns
      | some s' ↦ if leb_ℤ s'.curr_capacity new_target_capacity then ok s' else prune_loop s' ns
    ]

abbrev pub initial_state : PoolManager → PruneState
initial_state m = record {
  marked_nodes = [];
  rem_group_capacities = fulfilled_capacities m.resource_groups [];
  curr_capacity = fulfilled_capacity m.resource_groups;
  remaining_non_orphan_capacity = m.non_orphan_fulfilled_capacity;
  removed_weight = pos 0;
  killed_task_count = 0;
}

-- `if not group_targets`: an empty dictionary counts as none.
unfoldable pub targets_or_own : List ResourceGroup → Dict ℤ → Dict ℤ
targets_or_own groups [] = own_targets groups []
targets_or_own groups (t ∷ ts) = t ∷ ts

prune_nodes :
    PoolManager → ℤ → Dict ℤ → List ClusterNodeMetadata → Result (Dict (List ClusterNodeMetadata))
unfolding prune_loop
prune_nodes m new_target_capacity group_targets [] = ok []
prune_nodes m new_target_capacity group_targets (n ∷ ns) = do
  s ← prune_loop m.limits new_target_capacity group_targets (initial_state m) (n ∷ ns)
  ok s.marked_nodes

-- An empty `group_targets` stands for `None`.
unfoldable pub choose_nodes_to_prune :
    (Option String → AgentMetadata)
    → PoolManager
    → (new_target_capacity : ℤ) → (group_targets : Dict ℤ)
    → Result (Dict (List ClusterNodeMetadata))
unfolding prune_nodes targets_or_own
choose_nodes_to_prune agent_of m new_target_capacity group_targets =
    if leb_ℤ (fulfilled_capacity m.resource_groups) new_target_capacity
    then ok []
    else prune_nodes m new_target_capacity (targets_or_own m.resource_groups group_targets)
        (get_prioritized_killable_nodes agent_of m.limits m.resource_groups)
