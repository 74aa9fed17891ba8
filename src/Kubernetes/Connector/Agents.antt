-- ===== src/Kubernetes/Connector/Agents.antt =====
-- The agents that clusterman/kubernetes/kubernetes_cluster_connector.py reports.
use clusterman.Base.{
  ℕ, suc, ◌≤◌, ◌<◌, String, ◌≡◌, refl, sym, ◌∙◌, ap, inl, inr, Bool, true, false, List, [], ◌∷◌,
  Option, none, some, length, In, arith, if◌then◌else◌, str_eq, get,
}
use clusterman.Interfaces.{idle, running, AgentMetadata}
use clusterman.Kubernetes.Defs.{Pod, Node, PoolConfig, Connector}
use clusterman.Kubernetes.Util.{Parsing}
use clusterman.Kubernetes.Pods.{pods_at}
use clusterman.Kubernetes.Connector.{
  is_pod_safe, and_safe, add_counts, is_node_safe_to_kill, batch_task, count_batch_tasks, is_empty,
  agent_of_node, get_agent_metadata,
}

module _ (t : Parsing) (c : PoolConfig) where
  batch_task-le : (pod : Pod) (n : ℕ) → batch_task t c pod ≡ some n → n ≤ 1
  unfolding batch_task
  batch_task-le pod n h = ground arith

  add_counts-le :
      (a b : Option ℕ) (bound n : ℕ)
      → ((m : ℕ) → a ≡ some m → m ≤ 1)
      → ((m : ℕ) → b ≡ some m → m ≤ bound)
      → add_counts t a b ≡ some n
      → n ≤ suc bound
  add_counts-le none b bound n ha hb h = ground arith
  add_counts-le (some x) none bound n ha hb h = ground arith
  add_counts-le (some x) (some y) bound n ha hb h = ground (arith, ha x refl, hb y refl)

  count_batch_tasks-le :
      (pods : List Pod) (n : ℕ) → count_batch_tasks t c pods ≡ some n → n ≤ length pods
  unfolding count_batch_tasks
  count_batch_tasks-le [] n h = ground arith
  count_batch_tasks-le (pod ∷ pods) n h =
      add_counts-le (batch_task t c pod) (count_batch_tasks t c pods) (length pods) n
        (batch_task-le pod) (count_batch_tasks-le pods) h

  and_safe-both :
      (a b : Option Bool) → and_safe t a b ≡ some true → (a ≡ some true) × (b ≡ some true)
  and_safe-both none b h = ground arith
  and_safe-both (some true) b h = (refl, h)
  and_safe-both (some false) b h = ground arith

  safe-all :
      (pods : List Pod)
      → is_node_safe_to_kill t c pods ≡ some true
      → (pod : Pod) → In pod pods
      → is_pod_safe t c pod ≡ some true
  unfolding is_node_safe_to_kill
  safe-all [] h pod i = absurd i
  safe-all (p ∷ pods) h pod (inl e) =
      let (first, rest) = and_safe-both (is_pod_safe t c p) (is_node_safe_to_kill t c pods) h in
      ap (is_pod_safe t c) e ∙ first
  safe-all (p ∷ pods) h pod (inr i) =
      let (first, rest) = and_safe-both (is_pod_safe t c p) (is_node_safe_to_kill t c pods) h in
      safe-all pods rest pod i

  -- The agent of a node has no more batch tasks than tasks, is safe to kill only if each pod may be
  -- evicted, and is running exactly when it has tasks.
  abbrev pub IsConsistent : List Pod → AgentMetadata → Type 0
  IsConsistent pods a =
      (a.batch_task_count ≤ a.task_count)
      × (a.is_safe_to_kill ≡ true → (pod : Pod) → In pod pods → is_pod_safe t c pod ≡ some true)
      × (a.state ≡ running → 0 < a.task_count)
      × (0 < a.task_count → a.state ≡ running)

  is_empty-states :
      (pods : List Pod)
      → ((if is_empty t pods then idle else running) ≡ running → 0 < length pods)
        × (0 < length pods → (if is_empty t pods then idle else running) ≡ running)
  is_empty-states [] = (λ h. ground arith, λ h. ground arith)
  is_empty-states (p ∷ pods) = (λ h. ground arith, λ h. refl)

  agent_of_node-parts :
      (k : Connector) (ip : String) (node : Node) (a : AgentMetadata)
      → agent_of_node t c k ip node ≡ some a
      → (is_node_safe_to_kill t c (pods_at (some ip) k.pods_by_ip) ≡ some a.is_safe_to_kill)
        × (count_batch_tasks t c (pods_at (some ip) k.pods_by_ip) ≡ some a.batch_task_count)
        × (a.task_count ≡ length (pods_at (some ip) k.pods_by_ip))
        × (a.state ≡ (if is_empty t (pods_at (some ip) k.pods_by_ip) then idle else running))
  unfolding agent_of_node
  agent_of_node-parts k ip node a h = ground arith

  agent_of_node-IsConsistent :
      (k : Connector) (ip : String) (node : Node) (a : AgentMetadata)
      → agent_of_node t c k ip node ≡ some a
      → IsConsistent (pods_at (some ip) k.pods_by_ip) a
  agent_of_node-IsConsistent k ip node a h =
      let (safe, count, tasks, state) = agent_of_node-parts k ip node a h in
      let pods = pods_at (some ip) k.pods_by_ip in
      let (from, to) = is_empty-states pods in
      (
        rw tasks (count_batch_tasks-le pods a.batch_task_count count),
        λ e pod i. safe-all pods (safe ∙ ap some e) pod i,
        λ e. rw tasks (from (sym state ∙ e)),
        λ l. state ∙ to (rw tasks at l),
      )

  known :
      (k : Connector) (ip : String) (node : Node)
      → str_eq ip "" ≡ false
      → get ip k.nodes_by_ip ≡ some node
      → (get_agent_metadata t c k (some ip)).0 ≡ agent_of_node t c k ip node
  unfolding get_agent_metadata
  known k ip node e g = rw (e, g)

  -- What the connector reports of a node that it knows: no more batch tasks than tasks, safe to kill
  -- only if no pod forbids it, and running exactly when it has tasks.
  pub get_agent_metadata-IsConsistent :
      (k : Connector) (ip : String) (node : Node) (a : AgentMetadata)
      → str_eq ip "" ≡ false
      → get ip k.nodes_by_ip ≡ some node
      → (get_agent_metadata t c k (some ip)).0 ≡ some a
      → IsConsistent (pods_at (some ip) k.pods_by_ip) a
  get_agent_metadata-IsConsistent k ip node a e g h =
      agent_of_node-IsConsistent k ip node a (sym (known k ip node e g) ∙ h)
