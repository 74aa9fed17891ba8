-- ===== src/Kubernetes/Connector.antt =====
-- The state of clusterman/kubernetes/kubernetes_cluster_connector.py, and what it tells of agents, of
-- resources and of the pods that wait. An exception of `strtobool` is `none`.
pub mod Waiting
pub mod Agents
use clusterman.Base.{
  ℕ, zero, suc, ◌+◌, ◌-◌, String, Bool, true, false, ◌&&◌, not, List, [], ◌∷◌, ◌++◌, Option, none,
  some, map, ℤ, Dict, any, length, get, put, or_else, str_eq, if◌then◌else◌,
}
use clusterman.Resources.{ClustermanResources, no_resources, sub, le}
use clusterman.Interfaces.{AgentState, idle, orphaned, running, unknown, AgentMetadata}
use clusterman.Kubernetes.Defs.{
  Pod, Node, Taint, PodsByIp, PoolConfig, Connector, PodUnschedulableReason, insufficient_resources,
  unknown_reason,
}
use clusterman.Kubernetes.Util.{
  Parsing, add_resources, total_pod_resources, total_node_resources, allocated_node_resources,
  get_node_ip, get_node_lsbrelease, strtobool,
}
use clusterman.Kubernetes.Pods.{PodsInfo, pods_at, get_pods_info, get_pods_info_with_label, same_ip}
use clusterman.Kubernetes.Drain.{is_node_draining}

-- `{get_node_ip(node): node for node in nodes}`; a node without an address makes the method raise.
unfoldable pub nodes_by_ip : List Node → Dict Node → Option (Dict Node)
unfolding get_node_ip
nodes_by_ip [] d = some d
nodes_by_ip (node ∷ nodes) d = elim (get_node_ip node) [
  | none ↦ none
  | some ip ↦ nodes_by_ip nodes (put ip node d)
]

-- `dict.fromkeys(nodes, [])`
unfoldable pub no_pods : Dict Node → PodsByIp
no_pods [] = []
no_pods ((ip, node) ∷ nodes) = (some ip, []) ∷ no_pods nodes

-- `reload_state`, with the nodes that the API lists for the label selectors, and its pods: all of them
-- or, with labels, those of the pool
unfoldable pub reload_state :
    PoolConfig → (load_pods_info : Bool) → List Node → List Pod → Connector → Option Connector
unfolding nodes_by_ip no_pods get_pods_info get_pods_info_with_label
reload_state c load_pods_info nodes pods k = elim (nodes_by_ip nodes []) [
  | none ↦ none
  | some current ↦
      let start : PodsInfo = record {
        pods_by_ip = [];
        unschedulable_pods = [];
        excluded_pods_by_ip = [];
      } in
      let info : PodsInfo =
        if load_pods_info
        then (if c.use_labels_for_pods
            then get_pods_info_with_label c pods start
            else get_pods_info c current pods start)
        else (record {
          pods_by_ip = no_pods current;
          unschedulable_pods = [];
          excluded_pods_by_ip = [];
        }) in
      some (record {
        nodes_by_ip = current;
        prev_nodes_by_ip = k.nodes_by_ip;
        pods_by_ip = info.pods_by_ip;
        unschedulable_pods = info.unschedulable_pods;
        excluded_pods_by_ip = info.excluded_pods_by_ip;
      })
]

-- A difference of two natural numbers stops at 0, as `max(0, ...)` does.
unfoldable pub get_num_removed_nodes_before_last_reload : Connector → ℕ
get_num_removed_nodes_before_last_reload k = length k.prev_nodes_by_ip - length k.nodes_by_ip

module _ (t : Parsing) where
  -- What is free of a node: its resources without the excluded pods and without the others
  unfoldable pub available :
      Connector → (ip : Option String) → Node → List Pod → ClustermanResources
  unfolding total_node_resources
  available k ip node pods =
      sub (total_node_resources t node (pods_at ip k.excluded_pods_by_ip))
        (allocated_node_resources t pods)

  -- `self._nodes_by_ip.get(node_ip)`
  unfoldable pub node_at : Connector → Option String → Option Node
  node_at k none = none
  node_at k (some ip) = get ip k.nodes_by_ip

  unfoldable pub fits_at : Connector → Pod → Option String × List Pod → Bool
  unfolding available node_at total_pod_resources
  fits_at k pod (ip, pods) = elim (node_at k ip) [
    | none ↦ false
    | some node ↦ le (total_pod_resources t pod) (available k ip node pods)
  ]

  -- `_get_pod_unschedulable_reason`, over entries of `_pods_by_ip`
  unfoldable pub reason_over : Connector → Pod → PodsByIp → PodUnschedulableReason
  unfolding fits_at
  reason_over k pod [] = insufficient_resources
  reason_over k pod (entry ∷ d) =
      let rest = reason_over k pod d in if fits_at k pod entry then unknown_reason else rest

  unfoldable pub get_pod_unschedulable_reason : Connector → Pod → PodUnschedulableReason
  unfolding reason_over
  get_pod_unschedulable_reason k pod = reason_over k pod k.pods_by_ip

  unfoldable pub get_unschedulable_pods : Connector → List (Pod × PodUnschedulableReason)
  unfolding get_pod_unschedulable_reason
  get_unschedulable_pods k =
      map (λ pod. (pod, get_pod_unschedulable_reason k pod)) k.unschedulable_pods

  abbrev is_insufficient : PodUnschedulableReason → Bool
  is_insufficient insufficient_resources = true
  is_insufficient unknown_reason = false

  unfoldable pub has_enough_capacity_for_pods : Connector → Bool
  unfolding get_unschedulable_pods
  has_enough_capacity_for_pods k =
      not (any (λ entry. is_insufficient entry.1) (get_unschedulable_pods k))

  -- `get_resource_pending`, `get_resource_allocation`, `get_resource_excluded` and `get_resource_total`, for
  -- all resources at once
  unfoldable pub get_resource_pending : Connector → ClustermanResources
  unfolding get_unschedulable_pods
  get_resource_pending k =
      allocated_node_resources t (map (λ entry. entry.0) (get_unschedulable_pods k))

  unfoldable pub get_resource_allocation : PodsByIp → ClustermanResources
  get_resource_allocation [] = no_resources
  get_resource_allocation ((ip, pods) ∷ d) =
      add_resources (allocated_node_resources t pods) (get_resource_allocation d)

  unfoldable pub get_resource_excluded : Connector → Dict Node → ClustermanResources
  get_resource_excluded k [] = no_resources
  get_resource_excluded k ((ip, node) ∷ nodes) =
      add_resources (allocated_node_resources t (pods_at (some ip) k.excluded_pods_by_ip))
        (get_resource_excluded k nodes)

  unfoldable pub get_resource_total : Connector → Dict Node → ClustermanResources
  unfolding total_node_resources
  get_resource_total k [] = no_resources
  get_resource_total k ((ip, node) ∷ nodes) =
      add_resources (total_node_resources t node (pods_at (some ip) k.excluded_pods_by_ip))
        (get_resource_total k nodes)

  -- `annotations.get(key, "true")`
  abbrev annotation_or : String → String → Pod → String
  annotation_or key default pod = elim pod.annotations [
    | none ↦ default
    | some d ↦ or_else (get key d) default
  ]

  -- The loop returns at the first pod that is not safe, and raises at a text that is no truth value.
  abbrev pub and_safe : Option Bool → Option Bool → Option Bool
  and_safe none rest = none
  and_safe (some true) rest = rest
  and_safe (some false) rest = some false

  unfoldable pub is_pod_safe : PoolConfig → Pod → Option Bool
  unfolding strtobool
  is_pod_safe c pod = strtobool t.lower (annotation_or c.safe_to_evict_key "true" pod)

  unfoldable pub is_node_safe_to_kill : PoolConfig → List Pod → Option Bool
  unfolding is_pod_safe
  is_node_safe_to_kill c [] = some true
  is_node_safe_to_kill c (pod ∷ pods) = and_safe (is_pod_safe c pod) (is_node_safe_to_kill c pods)

  -- What a pod adds to the count of `_count_batch_tasks`
  unfoldable pub batch_task : PoolConfig → Pod → Option ℕ
  unfolding strtobool
  batch_task c pod = elim pod.annotations [
    | none ↦ some 0
    | some d ↦ elim (get c.safe_to_evict_annotation d) [
      | none ↦ some 0
      | some value ↦ elim (strtobool t.lower value) [
        | none ↦ none
        | some safe ↦ some (if safe then 0 else 1)
      ]
    ]
  ]

  abbrev pub add_counts : Option ℕ → Option ℕ → Option ℕ
  add_counts none m = none
  add_counts (some n) none = none
  add_counts (some n) (some m) = some (n + m)

  unfoldable pub count_batch_tasks : PoolConfig → List Pod → Option ℕ
  unfolding batch_task
  count_batch_tasks c [] = some 0
  count_batch_tasks c (pod ∷ pods) = add_counts (batch_task c pod) (count_batch_tasks c pods)

  -- A `defaultdict` that is read at a key has the key from then on.
  unfoldable pub touched : String → PodsByIp → PodsByIp
  touched ip [] = (some ip, []) ∷ []
  touched ip ((j, pods) ∷ d) =
      let rest = touched ip d in if same_ip j (some ip) then (j, pods) ∷ d else (j, pods) ∷ rest

  abbrev pub is_empty : List Pod → Bool
  is_empty [] = true
  is_empty (pod ∷ pods) = false

  unfoldable pub agent_of_node : PoolConfig → Connector → String → Node → Option AgentMetadata
  unfolding allocated_node_resources total_node_resources is_node_safe_to_kill count_batch_tasks
      is_node_draining get_node_lsbrelease
  agent_of_node c k ip node =
      let pods = pods_at (some ip) k.pods_by_ip in
      elim (is_node_safe_to_kill c pods) [
        | none ↦ none
        | some safe ↦ elim (count_batch_tasks c pods) [
          | none ↦ none
          | some tasks ↦ some (record {
            agent_id = node.name;
            allocated_resources = allocated_node_resources t pods;
            batch_task_count = tasks;
            is_safe_to_kill = safe;
            is_draining = is_node_draining node;
            state = if is_empty pods then idle else running;
            task_count = length pods;
            total_resources = total_node_resources t node (pods_at (some ip) k.excluded_pods_by_ip);
            kernel = node.kernel_version;
            lsbrelease = get_node_lsbrelease t node;
          })
        ]
      ]

  -- An agent of which only the state is known
  abbrev pub bare_agent : AgentState → AgentMetadata
  bare_agent state = record {
    agent_id = "";
    allocated_resources = no_resources;
    batch_task_count = 0;
    is_safe_to_kill = true;
    is_draining = false;
    state = state;
    task_count = 0;
    total_resources = no_resources;
    kernel = "";
    lsbrelease = "";
  }

  -- `get_agent_metadata` with `_get_agent_metadata`, and the connector after it
  unfoldable pub get_agent_metadata :
      PoolConfig → Connector → (ip_address : Option String) → Option AgentMetadata × Connector
  unfolding agent_of_node touched
  get_agent_metadata c k none = (some (bare_agent unknown), k)
  get_agent_metadata c k (some ip) =
      if str_eq ip "" then (some (bare_agent unknown), k) else elim (get ip k.nodes_by_ip) [
        | none ↦ (some (bare_agent orphaned), k)
        | some node ↦ (agent_of_node c k ip node, record k { pods_by_ip = touched ip k.pods_by_ip })
      ]
