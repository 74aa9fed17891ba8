-- ===== src/Kubernetes/Defs.antt =====
-- The objects of the Kubernetes API that clusterman/kubernetes reads, and the state of the connector.
use clusterman.Base.{Bool, String, List, Option, Dict}

-- `requests` of a container, or `allocatable` of a node: texts by the name of a resource
abbrev pub Quantities : Type 0
Quantities = Option (Dict String)

pub record Requirement : Type 0 where
  pub key : String
  pub operator : String
  pub values : List String

-- A selector term is its `match_expressions`.
abbrev pub Terms : Type 0
Terms = List (Option (List Requirement))

pub record NodeAffinity : Type 0 where
  pub required : Option Terms
  pub preferred : Option Terms

pub record Condition : Type 0 where
  pub type : String
  pub status : String
  pub reason : String

-- `owner_references` has the kinds of the owners, `containers` the resource requests.
pub record Pod : Type 0 where
  pub name : String
  pub namespace : String
  pub owner_references : Option (List String)
  pub annotations : Option (Dict String)
  pub node_selector : Option (Dict String)
  pub node_affinity : Option NodeAffinity
  pub containers : List Quantities
  pub phase : String
  pub host_ip : Option String
  pub conditions : Option (List Condition)

pub record Taint : Type 0 where
  pub key : String
  pub effect : String
  pub value : String

-- `addresses` are pairs of a type and an address, `taints` those of `node.spec` where there is one.
pub record Node : Type 0 where
  pub name : String
  pub addresses : List (String × String)
  pub taints : Option (List Taint)
  pub allocatable : Quantities
  pub kernel_version : String
  pub os_image : String

-- A dictionary of lists of pods by the address of their host, which a pod may not have yet
abbrev pub PodsByIp : Type 0
PodsByIp = List (Option String × List Pod)

pub data PodUnschedulableReason : Type 0 where
  insufficient_resources unknown_reason : PodUnschedulableReason

-- The parts of `KubernetesClusterConnector` that a reload sets
pub record Connector : Type 0 where
  pub nodes_by_ip : Dict Node
  pub prev_nodes_by_ip : Dict Node
  pub pods_by_ip : PodsByIp
  pub unschedulable_pods : List Pod
  pub excluded_pods_by_ip : PodsByIp

-- The configuration of the pool, with the defaults filled in
pub record PoolConfig : Type 0 where
  pub pool : String
  pub pool_label_key : String
  pub exclude_daemonset_pods : Bool
  pub use_labels_for_pods : Bool
  pub safe_to_evict_key : String
  pub safe_to_evict_annotation : String
