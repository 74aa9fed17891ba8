-- ===== src/Migration/Worker.antt =====
-- `_monitor_pool_health` and `_drain_node_selection` of clusterman/migration/worker.py, and
-- `MigrationPrecendence` of clusterman/migration/settings.py. What a reload of the pool shows is an
-- argument: the readings of a call are those that the time allows, and after the last the time is up.
pub mod Laws
pub mod Monitoring
use clusterman.Base.{
  ℕ, zero, suc, String, Bool, true, false, not, ◌||◌, ◌&&◌, List, [], ◌∷◌, ◌++◌, Option, ℤ, pos,
  neg_ℤ, any, keep, length, str_eq, if◌then◌else◌, sorted,
}
use clusterman.Interfaces.{AgentMetadata, ClusterNodeMetadata}
use clusterman.PoolManager.Defs.{PoolManager, Result, ok, err, ◌>>=◌}
use clusterman.PoolManager.Nodes.{is_capacity_satisfied}

pub record Reading : Type 0 where
  pub manager : PoolManager
  pub agent_of : Option String → AgentMetadata
  pub has_enough_capacity_for_pods : Bool

-- `draining_happened`, `capacity_satisfied` and `pods_healthy`
pub record Health : Type 0 where
  pub draining_happened : Bool
  pub capacity_satisfied : Bool
  pub pods_healthy : Bool

-- The agent of the node is still behind its address.
abbrev pub is_still_there : Reading → ClusterNodeMetadata → Bool
is_still_there r n = str_eq n.agent.agent_id (r.agent_of n.instance.ip_address).agent_id

unfoldable pub check_capacity : Reading → (satisfied draining_happened : Bool) → Result Bool
check_capacity r true draining_happened = ok true
check_capacity r false true = is_capacity_satisfied r.manager
check_capacity r false false = ok false

-- The flags after a reading
unfoldable pub observe :
    (drained : List ClusterNodeMetadata) (ignore_pod_health : Bool)
    → Reading
    → Health
    → Result Health
unfolding check_capacity
observe drained ignore_pod_health r h = do
  let draining_happened = h.draining_happened || not (any (is_still_there r) drained)
  capacity_satisfied ← check_capacity r h.capacity_satisfied draining_happened
  ok (record {
    draining_happened = draining_happened;
    capacity_satisfied = capacity_satisfied;
    pods_healthy =
        h.pods_healthy
        || (draining_happened && (ignore_pod_health || r.has_enough_capacity_for_pods));
  })

unfoldable pub is_healthy : Health → Bool
is_healthy h = h.draining_happened && h.capacity_satisfied && h.pods_healthy

unfoldable pub monitor_from :
    (drained : List ClusterNodeMetadata) (ignore_pod_health : Bool)
    → Health
    → List Reading
    → Result Bool
unfolding observe is_healthy
monitor_from drained ignore_pod_health h [] = ok false
monitor_from drained ignore_pod_health h (r ∷ rs) = do
  after ← observe drained ignore_pod_health r h
  elim (is_healthy after) [
    | true ↦ ok true
    | false ↦ monitor_from drained ignore_pod_health after rs
  ]

abbrev pub unseen : Health
unseen = record { draining_happened = false; capacity_satisfied = false; pods_healthy = false }

-- `_monitor_pool_health`
unfoldable pub monitor_pool_health :
    (drained : List ClusterNodeMetadata) (ignore_pod_health : Bool) → List Reading → Result Bool
unfolding monitor_from
monitor_pool_health drained ignore_pod_health readings =
    monitor_from drained ignore_pod_health unseen readings

-- `MigrationPrecendence`
pub data Precedence : Type 0 where
  highest_uptime lowest_task_count : Precedence

unfoldable pub precedence_key : Precedence → ClusterNodeMetadata → ℤ
precedence_key highest_uptime n = neg_ℤ n.instance.uptime
precedence_key lowest_task_count n = pos n.agent.task_count

-- `selected[i : i + chunk]` and what follows it
unfoldable pub split : {A : Type 0} → ℕ → List A → List A × List A
split zero xs = ([], xs)
split (suc n) [] = ([], [])
split (suc n) (x ∷ xs) = let (front, back) = split n xs in (x ∷ front, back)

-- The nodes that were submitted for draining, and the value returned or the exception.
pub record Drained : Type 0 where
  pub submitted : List ClusterNodeMetadata
  pub ended : Result Bool

-- The loop over the chunks, on fuel: `readings` gives those of each round.
unfoldable pub drain_chunks :
    (fuel chunk : ℕ) (ignore_pod_health : Bool)
    → (readings : ℕ → List Reading) → List ClusterNodeMetadata
    → Drained
unfolding split
drain_chunks zero chunk ignore readings selected = record { submitted = []; ended = ok true }
drain_chunks (suc fuel) chunk ignore readings [] = record { submitted = []; ended = ok true }
drain_chunks (suc fuel) chunk ignore readings (n ∷ ns) =
    let (front, back) = split chunk (n ∷ ns) in
    let rest = drain_chunks fuel chunk ignore readings back in
    elim (monitor_pool_health front ignore (readings fuel)) [
      | err e ↦ record { submitted = front; ended = err e }
      | ok false ↦ record { submitted = front; ended = ok false }
      | ok true ↦ record { submitted = front ++ rest.submitted; ended = rest.ended }
    ]

-- `_drain_node_selection`, with `chunk` for `worker_setup.rate.of(len(nodes))`: as many rounds as there
-- are nodes are enough, since `chunk` is positive.
unfoldable pub drain_node_selection :
    (selector : ClusterNodeMetadata → Bool)
    → Precedence
    → (chunk : ℕ) (ignore_pod_health : Bool) → (readings : ℕ → List Reading)
    → (nodes : List ClusterNodeMetadata) → Drained
unfolding drain_chunks precedence_key
drain_node_selection selector precedence chunk ignore readings nodes =
    let selected = sorted (λ n. precedence_key precedence n ∷ []) (keep selector nodes) in
    drain_chunks (length selected) chunk ignore readings selected
