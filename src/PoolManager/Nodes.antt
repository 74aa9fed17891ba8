-- ===== src/PoolManager/Nodes.antt =====
-- The nodes of a pool: `get_node_metadatas`, `_is_node_killable`, `_prioritize_killable_nodes` and
-- the sums over them. The agent behind an address comes from the cluster connector, a parameter.
pub mod Laws
use clusterman.Base.{
  ℕ, String, Bool, true, false, not, List, [], ◌∷◌, ◌++◌, map, Option, ℤ, pos, ltb, ltb_ℤ, leb_ℤ,
  ◌==◌, str_eq, keep, any, if◌then◌else◌, sorted,
}
use clusterman.Interfaces.{
  AgentState, idle, orphaned, running, unknown, AgentMetadata, InstanceMetadata,
  ClusterNodeMetadata,
}
use clusterman.PoolManager.Defs.{
  Bound, finite, infinite, ResourceGroup, Limits, PoolManager, Result, ok, ◌>>=◌,
}
use clusterman.PoolManager.Capacity.{sum_by, target_capacity}

abbrev pub is_orphaned : AgentState → Bool
is_orphaned orphaned = true
is_orphaned _ = false

abbrev pub is_idle : AgentState → Bool
is_idle idle = true
is_idle _ = false

abbrev pub is_unknown : AgentState → Bool
is_unknown unknown = true
is_unknown _ = false

-- `state in AWS_RUNNING_STATES`
is_running : InstanceMetadata → Bool
is_running i = str_eq i.state "running"

-- `AWSResourceGroup.get_instance_metadatas(AWS_RUNNING_STATES)`: the group writes its own id into
-- each instance, and whether the instance is one of its stale ones.
seen_by : ResourceGroup → InstanceMetadata → InstanceMetadata
seen_by g i = record i {
  group_id = g.id;
  is_stale = any (λ s. str_eq s i.instance_id) g.stale_instance_ids;
}

running_instances : ResourceGroup → List InstanceMetadata
unfolding is_running seen_by
running_instances g = map (seen_by g) (keep is_running g.instances)

module _ (agent_of : Option String → AgentMetadata) where
  node_of : InstanceMetadata → ClusterNodeMetadata
  node_of i = record { agent = agent_of i.ip_address; instance = i }

  -- `get_node_metadatas(AWS_RUNNING_STATES)`
  unfoldable pub get_node_metadatas : List ResourceGroup → List ClusterNodeMetadata
  unfolding running_instances node_of
  get_node_metadatas [] = []
  get_node_metadatas (g ∷ gs) = map node_of (running_instances g) ++ get_node_metadatas gs

-- `max_tasks_to_kill > task_count`
abbrev below : ℕ → Bound ℕ → Bool
below n (finite b) = ltb n b
below n infinite = true

unfoldable pub is_node_killable : Limits → ClusterNodeMetadata → Bool
is_node_killable l n =
    if is_unknown n.agent.state
    then false
    else if not n.agent.is_safe_to_kill
    then false
    else if n.instance.is_cordoned
    then false
    else if below n.agent.task_count l.max_tasks_to_kill
    then true
    else n.agent.task_count == 0

-- `0 if b else 1`
abbrev zero_if : Bool → ℤ
zero_if true = pos 0
zero_if false = pos 1

unfoldable pub sort_key : Limits → ClusterNodeMetadata → List ℤ
sort_key l n =
    zero_if n.agent.is_draining
    ∷ zero_if (is_orphaned n.agent.state)
    ∷ zero_if n.instance.is_stale
    ∷ zero_if (ltb_ℤ l.min_node_scalein_uptime n.instance.uptime)
    ∷ zero_if (is_idle n.agent.state)
    ∷ pos n.agent.batch_task_count
    ∷ pos n.agent.task_count
    ∷ []

unfoldable pub prioritize_killable_nodes :
    Limits → List ClusterNodeMetadata → List ClusterNodeMetadata
unfolding sort_key
prioritize_killable_nodes l nodes = sorted (sort_key l) nodes

unfoldable pub get_prioritized_killable_nodes :
    (Option String → AgentMetadata) → Limits → List ResourceGroup → List ClusterNodeMetadata
unfolding get_node_metadatas is_node_killable prioritize_killable_nodes
get_prioritized_killable_nodes agent_of l groups =
    prioritize_killable_nodes l (keep (is_node_killable l) (get_node_metadatas agent_of groups))

-- `state not in (AgentState.ORPHANED, AgentState.UNKNOWN)`
abbrev is_joined : AgentState → Bool
is_joined orphaned = false
is_joined unknown = false
is_joined _ = true

unfoldable pub calculate_non_orphan_fulfilled_capacity :
    (Option String → AgentMetadata) → List ResourceGroup → ℤ
calculate_non_orphan_fulfilled_capacity agent_of groups =
    sum_by (λ n. n.instance.weight)
      (keep (λ n. is_joined n.agent.state) (get_node_metadatas agent_of groups))

unfoldable pub is_capacity_satisfied : PoolManager → Result Bool
is_capacity_satisfied m = do
  target ← target_capacity m.resource_groups
  ok (leb_ℤ target m.non_orphan_fulfilled_capacity)

-- `PoolManager.reload_state`, after the connector and the groups were read anew.
unfoldable pub reload_state :
    (Option String → AgentMetadata) → List ResourceGroup → PoolManager → PoolManager
unfolding calculate_non_orphan_fulfilled_capacity
reload_state agent_of groups m = record m {
  resource_groups = groups;
  non_orphan_fulfilled_capacity = calculate_non_orphan_fulfilled_capacity agent_of groups;
}
