-- ===== src/Kubernetes/Pods.antt =====
-- The pods of clusterman/kubernetes/kubernetes_cluster_connector.py: to which pool they belong and
-- what state they are in.
pub mod Listing
use clusterman.Base.{
  String, Bool, true, false, ◌&&◌, ◌||◌, not, List, [], ◌∷◌, ◌++◌, Option, none, some, Dict, any,
  get, has, or_else, str_eq, if◌then◌else◌,
}
use clusterman.Kubernetes.Defs.{
  Requirement, Terms, NodeAffinity, Condition, Pod, Node, PodsByIp, PoolConfig,
}
use clusterman.Kubernetes.Util.{selector_term_matches_requirement}

unfoldable pub pod_belongs_to_daemonset : Pod → Bool
pod_belongs_to_daemonset pod = elim pod.owner_references [
  | none ↦ false
  | some kinds ↦ any (λ kind. str_eq kind "DaemonSet") kinds
]

-- A condition "PodScheduled" with a property
abbrev has_condition : (Condition → Bool) → Option (List Condition) → Bool
has_condition p none = false
has_condition p (some conditions) = any (λ c. str_eq c.type "PodScheduled" && p c) conditions

unfoldable pub is_recently_scheduled : Pod → Bool
is_recently_scheduled pod =
    if not (str_eq pod.phase "Pending")
    then false
    else has_condition (λ c. str_eq c.status "True") pod.conditions

unfoldable pub is_unschedulable : Pod → Bool
is_unschedulable pod =
    if not (str_eq pod.phase "Pending")
    then false
    else has_condition (λ c. str_eq c.reason "Unschedulable") pod.conditions

-- `host_ip in self._nodes_by_ip`
unfoldable pub is_on_node : Dict Node → Option String → Bool
is_on_node nodes none = false
is_on_node nodes (some ip) = has ip nodes

unfoldable pub affinity_terms : Option NodeAffinity → Terms
affinity_terms none = []
affinity_terms (some a) = or_else a.required [] ++ or_else a.preferred []

unfoldable pub matches_affinity : PoolConfig → Pod → Bool
unfolding affinity_terms
matches_affinity c pod =
    selector_term_matches_requirement (affinity_terms pod.node_affinity)
      (record { key = c.pool_label_key; operator = "In"; values = c.pool ∷ [] })

-- The value that the node selector has for the label of the pool
unfoldable pub selected_pool : PoolConfig → Pod → Option String
selected_pool c pod = elim pod.node_selector [ none ↦ none | some s ↦ get c.pool_label_key s ]

unfoldable pub pod_belongs_to_pool : PoolConfig → Dict Node → Pod → Bool
unfolding is_on_node selected_pool matches_affinity
pod_belongs_to_pool c nodes pod =
    if (str_eq pod.phase "Pending" || str_eq pod.phase "Running") && is_on_node nodes pod.host_ip
    then true
    else elim (selected_pool c pod) [
      | some value ↦ str_eq value c.pool
      | none ↦ matches_affinity c pod
    ]

abbrev pub same_ip : Option String → Option String → Bool
same_ip none none = true
same_ip none (some t) = false
same_ip (some s) none = false
same_ip (some s) (some t) = str_eq s t

-- `d[ip].append(pod)` of a `defaultdict(list)`
unfoldable pub append_at : Option String → Pod → PodsByIp → PodsByIp
append_at ip pod [] = (ip, pod ∷ []) ∷ []
append_at ip pod ((j, pods) ∷ d) =
    let rest = append_at ip pod d in
    if same_ip j ip then (j, pods ++ (pod ∷ [])) ∷ d else (j, pods) ∷ rest

-- `d.get(ip, [])`
unfoldable pub pods_at : Option String → PodsByIp → List Pod
pods_at ip [] = []
pods_at ip ((j, pods) ∷ d) = let rest = pods_at ip d in if same_ip j ip then pods else rest

pub record PodsInfo : Type 0 where
  pub pods_by_ip : PodsByIp
  pub unschedulable_pods : List Pod
  pub excluded_pods_by_ip : PodsByIp

unfoldable pub classify : PoolConfig → Pod → PodsInfo → PodsInfo
unfolding pod_belongs_to_daemonset is_recently_scheduled is_unschedulable append_at
classify c pod s =
    if c.exclude_daemonset_pods && pod_belongs_to_daemonset pod
    then record s { excluded_pods_by_ip = append_at pod.host_ip pod s.excluded_pods_by_ip }
    else if str_eq pod.phase "Running" || is_recently_scheduled pod
    then record s { pods_by_ip = append_at pod.host_ip pod s.pods_by_ip }
    else if is_unschedulable pod
    then record s { unschedulable_pods = s.unschedulable_pods ++ (pod ∷ []) }
    else s

unfoldable pub get_pods_info_with_label : PoolConfig → List Pod → PodsInfo → PodsInfo
unfolding classify
get_pods_info_with_label c [] s = s
get_pods_info_with_label c (pod ∷ pods) s = get_pods_info_with_label c pods (classify c pod s)

unfoldable pub get_pods_info : PoolConfig → Dict Node → List Pod → PodsInfo → PodsInfo
unfolding classify pod_belongs_to_pool
get_pods_info c nodes [] s = s
get_pods_info c nodes (pod ∷ pods) s =
    get_pods_info c nodes pods (if pod_belongs_to_pool c nodes pod then classify c pod s else s)
