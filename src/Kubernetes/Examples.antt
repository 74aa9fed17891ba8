-- ===== src/Kubernetes/Examples.antt =====
-- The Kubernetes connector on a cluster of one node with two pods, one of them of a daemonset.
use clusterman.Base.{
  ◌≡◌, refl, sym, ap, ◌∙◌, String, Bool, true, false, not, ◌&&◌, List, [], ◌∷◌, Option, none, some,
  ℤ, pos, Dict, keep, arith, get, put, In, inl, str_eq, or_else,
}
use clusterman.Interfaces.{AgentMetadata, unknown}
use clusterman.Kubernetes.Defs.{Pod, Node, PoolConfig, Connector}
use clusterman.Kubernetes.Util.{Parsing}
use clusterman.Kubernetes.Pods.{
  PodsInfo, pods_at, pod_belongs_to_pool, pod_belongs_to_daemonset, get_pods_info,
  get_pods_info_with_label, same_ip,
}
use clusterman.Kubernetes.Pods.Listing.{no_info, get_pods_info-selects}
use clusterman.Kubernetes.Drain.{
  Answer, ok, api_exception, CoreApi, is_node_draining, other_taints, termination_taint,
  cordon_node, uncordon_node, evict_or_delete_pods, drain_node,
}
use clusterman.Kubernetes.Drain.Taints.{IsDocumented}
use clusterman.Kubernetes.Drain.Evictions.{drain_node-is_drained}
use clusterman.Kubernetes.Connector.{bare_agent, agent_of_node, has_enough_capacity_for_pods}
use clusterman.Kubernetes.Connector.Waiting.{FittingNode, has_enough_capacity_for_pods-room}

-- Every number is read as 1.
abbrev parsing : Parsing
parsing = record {
  float_thousandths = λ s. pos 1;
  float_whole = λ s. pos 1;
  megabytes = λ s. pos 1;
  int_thousandths = λ s. pos 1;
  before_m = λ s. none;
  lower = λ s. s;
  release = λ s. "";
}

abbrev config : PoolConfig
config = record {
  pool = "default";
  pool_label_key = "clusterman.com/pool";
  exclude_daemonset_pods = true;
  use_labels_for_pods = false;
  safe_to_evict_key = "clusterman.com/safe_to_evict";
  safe_to_evict_annotation = "cluster-autoscaler.kubernetes.io/safe-to-evict";
}

abbrev pod_with : (name : String) → (owner phase : String) → Option String → Pod
pod_with name owner phase host_ip = record {
  name = name;
  namespace = "paasta";
  owner_references = some (owner ∷ []);
  annotations = some (("clusterman.com/safe_to_evict", "true") ∷ []);
  node_selector = some (("clusterman.com/pool", "default") ∷ []);
  node_affinity = none;
  containers = none ∷ [];
  phase = phase;
  host_ip = host_ip;
  conditions =
      some (record { type = "PodScheduled"; status = "False"; reason = "Unschedulable" } ∷ []);
}

abbrev service : Pod
service = pod_with "service" "ReplicaSet" "Running" (some "10.0.0.1")

abbrev daemon : Pod
daemon = pod_with "daemon" "DaemonSet" "Running" (some "10.0.0.1")

abbrev pending : Pod
pending = pod_with "pending" "ReplicaSet" "Pending" none

abbrev node : Node
node = record {
  name = "node";
  addresses = ("InternalIP", "10.0.0.1") ∷ [];
  taints = some (record { key = "gpu"; effect = "NoSchedule"; value = "" } ∷ []);
  allocatable = none;
  kernel_version = "5.4";
  os_image = "Ubuntu 20.04";
}

abbrev nodes : Dict Node
nodes = ("10.0.0.1", node) ∷ []

abbrev connector : Connector
connector = record {
  nodes_by_ip = nodes;
  prev_nodes_by_ip = [];
  pods_by_ip = (some "10.0.0.1", service ∷ []) ∷ [];
  unschedulable_pods = [];
  excluded_pods_by_ip = [];
}

-- The cluster is its node; there is no pod "service" any more.
abbrev api : CoreApi Node
api = record {
  read_node = λ name w. (ok (some w), w);
  patch_taints = λ name ts w. (ok tt, record w { taints = some ts });
  list_pods_on = λ name w. (ok (service ∷ daemon ∷ []), w);
  evict = λ pod w. (api_exception 404, w);
  remove = λ pod w. (ok tt, w);
}

ok_injective : (a b : Node) → ok (some a) ≡ ok (some b) → a ≡ b
ok_injective a b h = ground arith

api-IsDocumented : IsDocumented api
api-IsDocumented = record {
  reads_only = λ name w. refl;
  patches = λ name ts w w' n e h.
      ap (λ v. ok (some v))
        (sym (ap (λ a. a.1) h)
          ∙ ap (λ (v : Node). record v { taints = some ts }) (ok_injective w n e));
}

get_pods_info-selects_example :
    (pods_at
        (some "10.0.0.1")
        (get_pods_info config nodes (service ∷ daemon ∷ pending ∷ []) no_info).pods_by_ip
      ≡ service ∷ [])
    × (pods_at
          (some "10.0.0.1")
          (get_pods_info config nodes (service ∷ daemon ∷ pending ∷ []) no_info).excluded_pods_by_ip
        ≡ daemon ∷ [])
    × ((get_pods_info config nodes (service ∷ daemon ∷ pending ∷ []) no_info).unschedulable_pods
        ≡ pending ∷ [])
unfolding pod_belongs_to_pool clusterman.Base.has pod_belongs_to_daemonset get
    clusterman.Kubernetes.Pods.is_recently_scheduled clusterman.Kubernetes.Pods.is_unschedulable
get_pods_info-selects_example =
    get_pods_info-selects config nodes (service ∷ daemon ∷ pending ∷ []) (some "10.0.0.1")

drain_node-is_drained_example : (drain_node api "0" "node" false node).0 ≡ true
unfolding pod_belongs_to_daemonset clusterman.Kubernetes.Drain.evict_or_delete_pod
drain_node-is_drained_example = drain_node-is_drained api false "0" "node" node

abbrev agent : AgentMetadata
agent =
    or_else (agent_of_node parsing config connector "10.0.0.1" node) (bare_agent parsing unknown)

abbrev waiting : Connector
waiting = record connector { unschedulable_pods = pending ∷ [] }

has_enough_capacity_for_pods-room_example :
    ((has_enough_capacity_for_pods parsing waiting ≡ true)
      → (pod : Pod) → In pod (pending ∷ [])
      → FittingNode parsing waiting pod waiting.pods_by_ip)
    × (((pod : Pod) → In pod (pending ∷ []) → FittingNode parsing waiting pod waiting.pods_by_ip)
        → has_enough_capacity_for_pods parsing waiting ≡ true)
has_enough_capacity_for_pods-room_example = has_enough_capacity_for_pods-room parsing waiting
