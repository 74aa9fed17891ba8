-- ===== src/Kubernetes/Connector/Waiting.antt =====
-- The pods that wait for resources, in clusterman/kubernetes/kubernetes_cluster_connector.py.
use clusterman.Base.{
  String, ◌≡◌, refl, sym, ◌∙◌, ap, inl, inr, Bool, true, false, List, [], ◌∷◌, Option, none, some,
  Option-cases, ℤ, ◌-ℤ◌, ◌≤ℤ◌, get, map, Bool-cases, any, In, arith,
}
use clusterman.Resources.{ClustermanResources, sub, le}
use clusterman.Kubernetes.Defs.{Pod, Node, PodsByIp, Connector, PodUnschedulableReason}
use clusterman.Kubernetes.Pods.{pods_at}
use clusterman.Kubernetes.Util.{
  Parsing, parse, total_pod_resources, allocated_node_resources, total_node_resources,
}
use clusterman.Kubernetes.Connector.{
  available, node_at, fits_at, reason_over, get_pod_unschedulable_reason, get_unschedulable_pods,
  is_insufficient, has_enough_capacity_for_pods,
}

any-map :
    {A B : Type 0} (p : B → Bool) (f : A → B) (xs : List A)
    → any p (map f xs) ≡ any (λ x. p (f x)) xs
any-map p f [] = refl
any-map p f (x ∷ xs) = ground (arith, any-map p f xs)

module _ {A : Type 0} (p : A → Bool) where
  any-none : (xs : List A) → any p xs ≡ false → (a : A) → In a xs → p a ≡ false
  any-none [] h a i = absurd i
  any-none (x ∷ xs) h a (inl e) = ap p e ∙ ground arith
  any-none (x ∷ xs) h a (inr i) = any-none xs (ground arith) a i

  none-any : (xs : List A) → ((a : A) → In a xs → p a ≡ false) → any p xs ≡ false
  none-any [] h = refl
  none-any (x ∷ xs) h = rw (any, h x (inl refl)) (none-any xs (λ a i. h a (inr i)))

not_true : false ≡ true → ⊥
not_true h = cc

le-parts :
    (a b : ClustermanResources)
    → le a b ≡ true
    → (a.cpus ≤ℤ b.cpus) × (a.mem ≤ℤ b.mem) × (a.disk ≤ℤ b.disk) × (a.gpus ≤ℤ b.gpus)
unfolding le
le-parts a b h = ground arith

parts-le :
    (a b : ClustermanResources)
    → a.cpus ≤ℤ b.cpus
    → a.mem ≤ℤ b.mem
    → a.disk ≤ℤ b.disk
    → a.gpus ≤ℤ b.gpus
    → le a b ≡ true
unfolding le
parts-le a b c m s g = ground arith

module _ (t : Parsing) (k : Connector) where
  -- The pod and the others on the node, the excluded ones too, ask for no more of a resource than there is.
  abbrev pub IsFree : (ClustermanResources → ℤ) → Pod → (excluded pods : List Pod) → Node → Type 0
  IsFree of pod excluded pods node =
      of (total_pod_resources t pod)
      ≤ℤ (of (parse t node.allocatable) -ℤ of (allocated_node_resources t excluded))
        -ℤ of (allocated_node_resources t pods)

  -- A node with room for the pod: its address, the pods that run there, and each resource.
  pub record FittingNode (pod : Pod) (d : PodsByIp) : Type 0 where
    pub address : String
    pub pods : List Pod
    pub node : Node
    pub running : In (some address, pods) d
    pub known : get address k.nodes_by_ip ≡ some node
    pub cpus : IsFree (λ r. r.cpus) pod (pods_at (some address) k.excluded_pods_by_ip) pods node
    pub mem : IsFree (λ r. r.mem) pod (pods_at (some address) k.excluded_pods_by_ip) pods node
    pub disk : IsFree (λ r. r.disk) pod (pods_at (some address) k.excluded_pods_by_ip) pods node
    pub gpus : IsFree (λ r. r.gpus) pod (pods_at (some address) k.excluded_pods_by_ip) pods node

  -- There is an entry at which the pod fits.
  abbrev HasRoom : Pod → PodsByIp → Type 0
  HasRoom pod d = (entry : Option String × List Pod) × In entry d × (fits_at t k pod entry ≡ true)

  reason_over-room :
      (pod : Pod) (d : PodsByIp) → is_insufficient t (reason_over t k pod d) ≡ false → HasRoom pod d
  unfolding reason_over
  reason_over-room pod [] h = ground arith
  reason_over-room pod (entry ∷ d) h = elim (Bool-cases (fits_at t k pod entry)) [
    | inl e ↦ (entry, inl refl, e)
    | inr e ↦
        let (found, is_in, fits) = reason_over-room pod d (rw (reason_over, e) at h) in
        (found, inr is_in, fits)
  ]

  room-reason_over :
      (pod : Pod) (d : PodsByIp) → HasRoom pod d → is_insufficient t (reason_over t k pod d) ≡ false
  unfolding reason_over
  room-reason_over pod [] (entry, is_in, fits) = absurd is_in
  room-reason_over pod (e0 ∷ d) (entry, inl e, fits) = rw (sym (ap (fits_at t k pod) e) ∙ fits)
  room-reason_over pod (e0 ∷ d) (entry, inr is_in, fits) =
      ground (arith, room-reason_over pod d (entry, is_in, fits))

  abbrev waits : Pod → Bool
  waits pod = is_insufficient t (get_pod_unschedulable_reason t k pod)

  any-waits :
      (pods : List Pod)
      → any {A = Pod × PodUnschedulableReason}
          (λ entry. is_insufficient t entry.1)
          (map (λ pod. (pod, get_pod_unschedulable_reason t k pod)) pods)
        ≡ any waits pods
  any-waits pods =
      any-map (λ (entry : Pod × PodUnschedulableReason). is_insufficient t entry.1)
        (λ pod. (pod, get_pod_unschedulable_reason t k pod)) pods

  HasRoom-FittingNode : (pod : Pod) (d : PodsByIp) → HasRoom pod d → FittingNode pod d
  unfolding fits_at node_at available total_node_resources ◌-ℤ◌ sub
  HasRoom-FittingNode pod d ((none, pods), i, f) = absurd (not_true f)
  HasRoom-FittingNode pod d ((some address, pods), i, f) =
      elim (Option-cases (get address k.nodes_by_ip)) [
        | inl e ↦ absurd (not_true (rw (fits_at, node_at, e) at f))
        | inr (node, e) ↦
            let (c, m, s, g) =
              le-parts (total_pod_resources t pod) (available t k (some address) node pods)
                (rw (fits_at, node_at, e) at f) in
            record {
              address = address;
              pods = pods;
              node = node;
              running = i;
              known = e;
              cpus = c;
              mem = m;
              disk = s;
              gpus = g;
            }
      ]

  FittingNode-HasRoom : (pod : Pod) (d : PodsByIp) → FittingNode pod d → HasRoom pod d
  unfolding fits_at node_at available total_node_resources ◌-ℤ◌ sub
  FittingNode-HasRoom pod d r = (
    (some r.address, r.pods),
    r.running,
    rw (fits_at, node_at, r.known)
        (parts-le (total_pod_resources t pod) (available t k (some r.address) r.node r.pods) r.cpus
          r.mem r.disk r.gpus),
  )

  -- There is enough capacity exactly when for each pod that waits there is a node with room for it, where the
  -- connector has an entry of pods: of every resource the pod asks for no more than the node has left beside the
  -- pods of the entry and those that are excluded.
  pub has_enough_capacity_for_pods-room :
      ((has_enough_capacity_for_pods t k ≡ true)
        → (pod : Pod) → In pod k.unschedulable_pods
        → FittingNode pod k.pods_by_ip)
      × (((pod : Pod) → In pod k.unschedulable_pods → FittingNode pod k.pods_by_ip)
          → has_enough_capacity_for_pods t k ≡ true)
  unfolding has_enough_capacity_for_pods get_unschedulable_pods get_pod_unschedulable_reason
  has_enough_capacity_for_pods-room = (
    λ h pod i. HasRoom-FittingNode pod k.pods_by_ip (
        reason_over-room pod k.pods_by_ip (
          any-none waits k.unschedulable_pods (sym (any-waits k.unschedulable_pods) ∙ ground arith)
            pod i)),
    λ h. rw (
        any-waits k.unschedulable_pods
        ∙ none-any waits k.unschedulable_pods (λ pod i.
          room-reason_over pod k.pods_by_ip (FittingNode-HasRoom pod k.pods_by_ip (h pod i)))),
  )
