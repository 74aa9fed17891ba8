-- ===== src/Kubernetes/Drain.antt =====
-- The cordon, the eviction of pods and the drain of a node in
-- clusterman/kubernetes/kubernetes_cluster_connector.py, over the API of the cluster, which is an argument.
pub mod Taints
pub mod Evictions
use clusterman.Base.{
  ℕ, String, Bool, true, false, ◌&&◌, not, List, [], ◌∷◌, ◌++◌, Option, none, some, keep, any,
  str_eq, ◌==◌, if◌then◌else◌,
}
use clusterman.Kubernetes.Defs.{Pod, Taint, Node}
use clusterman.Kubernetes.Pods.{pod_belongs_to_daemonset}

-- What a call answers: a value, an `ApiException` with its status, or another exception
pub data Answer (A : Type 0) : Type 0 where
  ok : A → Answer A
  api_exception : (status : ℕ) → Answer A
  other_exception : Answer A

abbrev pub termination_taint_key : String
termination_taint_key = "clusterman.yelp.com/terminating"

abbrev pub not_found_status : ℕ
not_found_status = 404

-- The calls of `CoreV1Api` on a cluster `W`; `patch_taints` is `patch_node` with a body for the taints.
pub record CoreApi (W : Type 0) : Type 0 where
  pub read_node : String → W → Answer (Option Node) × W
  pub patch_taints : String → List Taint → W → Answer Unit × W
  pub list_pods_on : String → W → Answer (List Pod) × W
  pub evict : Pod → W → Answer Unit × W
  pub remove : Pod → W → Answer Unit × W

abbrev pub is_termination_taint : Taint → Bool
is_termination_taint t = str_eq t.key termination_taint_key

-- `_is_node_draining`
unfoldable pub is_node_draining : Node → Bool
is_node_draining node = elim node.taints [ none ↦ false | some ts ↦ any is_termination_taint ts ]

-- `list(filter(..., taints)) if taints else []`
abbrev pub without_termination : Option (List Taint) → List Taint
without_termination none = []
without_termination (some ts) = keep (λ t. not (is_termination_taint t)) ts

-- The taints of the node but those that clusterman sets
unfoldable pub other_taints : Node → List Taint
other_taints node = without_termination node.taints

unfoldable pub termination_taint : (now : String) → Taint
termination_taint now = record { key = termination_taint_key; effect = "NoSchedule"; value = now }

-- The result of a method: what it returns, or an exception that it lets through
abbrev pub Result : Type 0
Result = Option Bool

module _ {W : Type 0} (api : CoreApi W) where
  open api use {read_node, patch_taints, list_pods_on, evict, remove}

  -- The end of `cordon_node` and of `uncordon_node`
  unfoldable pub patched : Answer Unit × W → Result × W
  patched (ok u, w) = (some true, w)
  patched (api_exception status, w) = (some false, w)
  patched (other_exception, w) = (none, w)

  -- Both methods: the taints are those that `change` makes of the node.
  unfoldable pub change_taints :
      (change : Node → List Taint) → String → Answer (Option Node) × W → Result × W
  unfolding patched
  change_taints change name (ok none, w) = (some false, w)
  change_taints change name (ok (some node), w) = patched (patch_taints name (change node) w)
  change_taints change name (api_exception status, w) = (some false, w)
  change_taints change name (other_exception, w) = (none, w)

  unfoldable pub cordon_node : (now : String) → String → W → Result × W
  unfolding change_taints other_taints termination_taint
  cordon_node now name w =
      change_taints (λ node. other_taints node ++ (termination_taint now ∷ [])) name
        (read_node name w)

  unfoldable pub uncordon_node : String → W → Result × W
  unfolding change_taints other_taints
  uncordon_node name w = change_taints other_taints name (read_node name w)

  -- `_delete_pod` or `_evict_pod`
  unfoldable pub evict_or_delete_pod : (disable_eviction : Bool) → Pod → W → Answer Unit × W
  evict_or_delete_pod disable_eviction pod w =
      if disable_eviction then remove pod w else evict pod w

  -- `_evict_or_delete_pods`, from a value of `all_done`
  unfoldable pub evict_or_delete_pods :
      (disable_eviction : Bool) → List Pod → (all_done : Bool) → W → Result × W
  unfolding evict_or_delete_pod
  evict_or_delete_pods disable_eviction [] all_done w = (some all_done, w)
  evict_or_delete_pods disable_eviction (pod ∷ pods) all_done w =
      let (answer, w1) = evict_or_delete_pod disable_eviction pod w in
      elim answer [
        | ok u ↦ evict_or_delete_pods disable_eviction pods all_done w1
        | api_exception status ↦
            evict_or_delete_pods disable_eviction pods
              (if status == not_found_status then all_done else false) w1
        | other_exception ↦ (none, w1)
      ]

  -- An exception of the evictions is caught by the drain.
  abbrev pub concluded : Result × W → Bool × W
  concluded (some all_done, w) = (all_done, w)
  concluded (none, w) = (false, w)

  unfoldable pub drain_pods : (disable_eviction : Bool) → Answer (List Pod) × W → Bool × W
  unfolding evict_or_delete_pods pod_belongs_to_daemonset
  drain_pods disable_eviction (ok pods, w) = concluded (
      evict_or_delete_pods disable_eviction (keep (λ pod. not (pod_belongs_to_daemonset pod)) pods)
        true w)
  drain_pods disable_eviction (api_exception status, w) = (false, w)
  drain_pods disable_eviction (other_exception, w) = (false, w)

  -- `drain_node`: it goes on whatever the cordon does.
  unfoldable pub drain_node : (now : String) → String → (disable_eviction : Bool) → W → Bool × W
  unfolding drain_pods cordon_node
  drain_node now name disable_eviction w =
      let (cordoned, w1) = cordon_node now name w in
      drain_pods disable_eviction (list_pods_on name w1)
