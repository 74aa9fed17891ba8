-- ===== src/PoolManager/Modify/Orphans.antt =====
-- `terminate_expired_orphan_instances`: instances that run and never joined the cluster.
use clusterman.Base.{
  String, ◌≡◌, refl, sym, subst, ◌⊎◌, inl, inr, Bool, true, false, ◌&&◌, List, [], ◌∷◌, ◌++◌,
  Option, Bool-cases, ℤ, ◌<ℤ◌, ltb_ℤ, arith, In, In-append, Dict, get, put, or_else, get-put,
  str_eq, str_eq_iff, if◌then◌else◌,
}
use clusterman.Interfaces.{AgentMetadata, ClusterNodeMetadata, orphaned}
use clusterman.PoolManager.Defs.{ResourceGroup}
use clusterman.PoolManager.Nodes.{is_orphaned, get_node_metadatas}

-- A call of `terminate_instances_by_id` for each group.
abbrev pub Orphans : Type 0
Orphans = Dict (List String)

is_expired_orphan_instance : (threshold_seconds : ℤ) → ClusterNodeMetadata → Bool
is_expired_orphan_instance threshold_seconds n =
    is_orphaned n.agent.state && ltb_ℤ threshold_seconds n.instance.uptime

is_known : List ResourceGroup → String → Bool
is_known [] k = false
is_known (g ∷ gs) k = if str_eq g.id k then true else is_known gs k

-- `group_id_to_instance_ids[group_id].append(instance_id)`, after a missing entry is made empty
add_instance : String → String → Orphans → Orphans
add_instance group_id instance_id d =
    put group_id (or_else (get group_id d) [] ++ instance_id ∷ []) d

-- The loop over the nodes, with the dictionary so far.
collect : List ResourceGroup → ℤ → List ClusterNodeMetadata → Orphans → Orphans
unfolding is_expired_orphan_instance is_known add_instance
collect groups threshold [] d = d
collect groups threshold (n ∷ ns) d = collect groups threshold ns (
    if is_known groups n.instance.group_id && is_expired_orphan_instance threshold n
    then (if n.instance.is_cordoned
        then d
        else add_instance n.instance.group_id n.instance.instance_id d)
    else d)

unfoldable pub get_expired_orphan_instances :
    (Option String → AgentMetadata) → List ResourceGroup → (threshold_seconds : ℤ) → Orphans
unfolding collect
get_expired_orphan_instances agent_of groups threshold_seconds =
    collect groups threshold_seconds (get_node_metadatas agent_of groups) []

-- The calls of `terminate_instances_by_id` that are made.
unfoldable pub terminate_expired_orphan_instances :
    (Option String → AgentMetadata)
    → List ResourceGroup
    → (threshold_seconds : ℤ) → (dry_run : Bool) → Orphans
unfolding get_expired_orphan_instances
terminate_expired_orphan_instances agent_of groups threshold_seconds dry_run =
    if dry_run then [] else get_expired_orphan_instances agent_of groups threshold_seconds

-- An instance that may be terminated as an orphan of a group.
pub record IsExpiredOrphan (threshold : ℤ) (ns : List ClusterNodeMetadata) (k i : String)
    : Type 0 where
  pub node : ClusterNodeMetadata
  pub node_in : In node ns
  pub named : node.instance.instance_id ≡ i
  pub grouped : node.instance.group_id ≡ k
  pub orphan : node.agent.state ≡ orphaned
  pub expired : threshold <ℤ node.instance.uptime
  pub not_cordoned : node.instance.is_cordoned ≡ false

abbrev pub ids : String → Orphans → List String
ids k d = or_else (get k d) []

ids-add_instance :
    (k i j a : String) (d : Orphans)
    → In a (ids j (add_instance k i d))
    → In a (ids j d) ⊎ (j ≡ k) × (a ≡ i)
unfolding add_instance
ids-add_instance k i j a d h = elim (Bool-cases (str_eq k j)) [
  | inr e ↦ inl (rw (get-put k j (ids k d ++ i ∷ []) d, e) at h)
  | inl e ↦
      let same : k ≡ j = (str_eq_iff k j).0 e in
      elim (In-append a (ids k d) (i ∷ []) (rw (get-put k j (ids k d ++ i ∷ []) d, e) at h)) [
        | inl old ↦ inl (subst (λ x. In a (ids x d)) same old)
        | inr (inl new) ↦ inr (sym same, new)
        | inr (inr no_more) ↦ absurd no_more
      ]
]

wider :
    {threshold : ℤ} {ns : List ClusterNodeMetadata} {k i : String} (n : ClusterNodeMetadata)
    → IsExpiredOrphan threshold ns k i
    → IsExpiredOrphan threshold (n ∷ ns) k i
wider n o = record {
  node = o.node;
  node_in = inr o.node_in;
  named = o.named;
  grouped = o.grouped;
  orphan = o.orphan;
  expired = o.expired;
  not_cordoned = o.not_cordoned;
}

collect-IsExpiredOrphan :
    (groups : List ResourceGroup) (threshold : ℤ) (ns : List ClusterNodeMetadata) (d : Orphans)
    (k a : String)
    → In a (ids k (collect groups threshold ns d))
    → In a (ids k d) ⊎ IsExpiredOrphan threshold ns k a
unfolding collect
collect-IsExpiredOrphan groups threshold [] d k a h = inl h
collect-IsExpiredOrphan groups threshold (n ∷ ns) d k a h =
    elim (collect-IsExpiredOrphan groups threshold ns _ k a h) [
      | inr o ↦ inr (wider n o)
      | inl now ↦
          elim (Bool-cases
            (is_known groups n.instance.group_id && is_expired_orphan_instance threshold n)) [
              | inr skipped ↦ inl (rw skipped at now)
              | inl taken ↦ elim (Bool-cases n.instance.is_cordoned) [
                | inl cordoned ↦ inl (rw (taken, cordoned) at now)
                | inr free ↦
                    elim (ids-add_instance n.instance.group_id n.instance.instance_id k a d
                      (rw (taken, free) at now)) [
                        | inl old ↦ inl old
                        | inr (same, new) ↦ inr (record {
                          node = n;
                          node_in = inl refl;
                          named = sym new;
                          grouped = sym same;
                          orphan = ground (arith, taken);
                          expired = ground (arith, taken);
                          not_cordoned = free;
                        })
                      ]
              ]
            ]
    ]

-- Only running nodes of the pool are terminated as orphans, each under its own group, and each is
-- orphaned, up for longer than the threshold and not cordoned; in a dry run there are none.
pub terminate_expired_orphan_instances-IsExpiredOrphan :
    (agent_of : Option String → AgentMetadata) (groups : List ResourceGroup) (threshold : ℤ)
    (dry_run : Bool) (k i : String)
    → In i (ids k (terminate_expired_orphan_instances agent_of groups threshold dry_run))
    → (dry_run ≡ false) × IsExpiredOrphan threshold (get_node_metadatas agent_of groups) k i
unfolding terminate_expired_orphan_instances get
terminate_expired_orphan_instances-IsExpiredOrphan agent_of groups threshold true k i h = absurd h
terminate_expired_orphan_instances-IsExpiredOrphan agent_of groups threshold false k i h =
    elim (collect-IsExpiredOrphan groups threshold (get_node_metadatas agent_of groups) [] k i h) [
      | inl at_start ↦ absurd at_start
      | inr o ↦ (refl, o)
    ]
