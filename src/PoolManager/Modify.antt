-- ===== src/PoolManager/Modify.antt =====
-- `PoolManager.modify_target_capacity`, `prune_excess_fulfilled_capacity` and the termination of
-- expired orphans. What they do to AWS and to the drain queue is the list of the calls they make;
-- a `ResourceGroupError` of a call is caught and logged, so it does not change the later calls.
pub mod Goal
pub mod Laws
pub mod Orphans
use clusterman.Base.{
  String, Bool, true, false, not, List, [], ◌∷◌, ◌++◌, map, Option, none, some, ℤ, leb_ℤ, str_eq,
  if◌then◌else◌, Dict, eq_ℤ,
}
use clusterman.Interfaces.{AgentMetadata, ClusterNodeMetadata}
use clusterman.PoolManager.Defs.{
  ResourceGroup, group_target_capacity, PoolManager, Result, ok, err, or_key_error,
  no_resource_groups_available, ◌>>=◌,
}
use clusterman.PoolManager.Capacity.{constrain_target_capacity}
use clusterman.PoolManager.Targets.{compute_new_resource_group_targets}
use clusterman.PoolManager.Prune.{choose_nodes_to_prune}

-- A call that leaves the pool manager.
pub data Call : Type 0 where
  modify_group : (group_id : String) (target : ℤ) (dry_run : Bool) → Call
  submit_for_draining : ClusterNodeMetadata → Call
  terminate_instances_by_id : (group_id : String) (instance_ids : List String) → Call

-- `self.resource_groups[group_id]`
pub group_by_id : String → List ResourceGroup → Option ResourceGroup
group_by_id k [] = none
group_by_id k (g ∷ gs) = if str_eq g.id k then some g else group_by_id k gs

-- The `for` loop over the new targets: a group that has its target is left alone.
unfoldable pub modify_groups : List ResourceGroup → (dry_run : Bool) → Dict ℤ → Result (List Call)
unfolding group_by_id
modify_groups groups dry_run [] = ok []
modify_groups groups dry_run ((k, target) ∷ targets) = do
  g ← or_key_error (group_by_id k groups)
  rest ← modify_groups groups dry_run targets
  ok (if eq_ℤ (group_target_capacity g) target then rest else modify_group k target dry_run ∷ rest)

pub drain_calls : Dict (List ClusterNodeMetadata) → List Call
drain_calls [] = []
drain_calls ((k, nodes) ∷ marked) = map submit_for_draining nodes ++ drain_calls marked

pub terminate_calls : Dict (List ClusterNodeMetadata) → List Call
terminate_calls [] = []
terminate_calls ((k, nodes) ∷ marked) =
    terminate_instances_by_id k (map (λ n. n.instance.instance_id) nodes) ∷ terminate_calls marked

module _ (agent_of : Option String → AgentMetadata) (m : PoolManager) where
  -- An empty `group_targets` stands for `None`.
  unfoldable pub prune_excess_fulfilled_capacity :
      ℤ → Dict ℤ → (dry_run : Bool) → Result (List Call)
  unfolding drain_calls terminate_calls
  prune_excess_fulfilled_capacity new_target_capacity group_targets dry_run = do
    marked ← choose_nodes_to_prune agent_of m new_target_capacity group_targets
    ok (
        if dry_run
        then []
        else if m.draining_enabled
        then drain_calls marked
        else terminate_calls marked)

  abbrev pub prune_if : Bool → ℤ → Dict ℤ → (dry_run : Bool) → Result (List Call)
  prune_if true new_target_capacity targets dry_run =
      prune_excess_fulfilled_capacity new_target_capacity targets dry_run
  prune_if false new_target_capacity targets dry_run = ok []

  -- The body of `modify_target_capacity` after the check that there are groups.
  modify_with_groups : ℤ → (dry_run force prune no_scale_down : Bool) → Result (ℤ × List Call)
  unfolding modify_groups
  modify_with_groups requested dry_run force prune no_scale_down = do
    new ← constrain_target_capacity m.limits m.resource_groups requested force no_scale_down
    targets ← compute_new_resource_group_targets m.resource_groups new
    modified ← modify_groups m.resource_groups dry_run targets
    pruned ← prune_if prune new targets dry_run
    ok (new, modified ++ pruned)

  unfoldable pub modify_target_capacity :
      ℤ → (dry_run force prune no_scale_down : Bool) → Result (ℤ × List Call)
  unfolding modify_with_groups
  modify_target_capacity requested dry_run force prune no_scale_down = elim m.resource_groups [
    | [] ↦ err no_resource_groups_available
    | g ∷ gs ↦ modify_with_groups requested dry_run force prune no_scale_down
  ]
