-- ===== src/PoolManager/Prune/Whole.antt =====
-- What `_choose_nodes_to_prune` promises as a whole.
use clusterman.Base.{
  String, ◌≡◌, refl, subst, ◌⊎◌, inl, inr, true, ◌&&◌, List, [], ◌∷◌, Option, none, some,
  Bool-cases, ℤ, leb_ℤ, arith, In, Dict, put, has, has→get, has-put, str_eq_refl,
}
use clusterman.Interfaces.{AgentMetadata, ClusterNodeMetadata}
use clusterman.PoolManager.Defs.{Limits, PoolManager, ResourceGroup, ok, ◌>>=◌}
use clusterman.PoolManager.Capacity.{fulfilled_capacity}
use clusterman.PoolManager.Targets.Initial.{own_targets-In}
use clusterman.PoolManager.Nodes.{get_prioritized_killable_nodes}
use clusterman.PoolManager.Nodes.Laws.{killable_nodes}
use clusterman.PoolManager.Prune.{
  PruneState, mark, visit, prune_loop, within_weight, within_group, within_tasks, within_non_orphan,
  initial_state, targets_or_own, fulfilled_capacities, prune_nodes, choose_nodes_to_prune,
}

module _ (l : Limits) (new : ℤ) (targets : Dict ℤ) where
  HasKeys : Dict ℤ → List ClusterNodeMetadata → Type 0
  HasKeys d ns = (n : ClusterNodeMetadata) → In n ns → has n.instance.group_id d ≡ true

  put-HasKeys :
      (k : String) (v : ℤ) (d : Dict ℤ) (ns : List ClusterNodeMetadata)
      → HasKeys d ns
      → HasKeys (put k v d) ns
  unfolding HasKeys
  put-HasKeys k v d ns h n m = ground (arith, has-put k n.instance.group_id v d, h n m)

  -- A node whose group is known is passed over or marked.
  visit_total :
      (s : PruneState) (n : ClusterNodeMetadata)
      → has n.instance.group_id s.rem_group_capacities ≡ true
      → has n.instance.group_id targets ≡ true
      → (visit l new targets s n ≡ ok none)
        ⊎ ((rem : ℤ) × (visit l new targets s n ≡ ok (some (mark l new targets s n rem))))
  unfolding visit
  visit_total s n hr ht =
      let (rem, er) = has→get n.instance.group_id s.rem_group_capacities hr in
      let (t, et) = has→get n.instance.group_id targets ht in
      elim (Bool-cases (within_weight l new targets s n)) [
        | inr heavy ↦ inl (ground (arith, er, heavy))
        | inl light ↦
            elim (Bool-cases (
              within_group l new targets rem t n
              && within_tasks l new targets s n
              && within_non_orphan l new targets s n)) [
                | inl fits ↦ inr (rem, rw (er, ◌>>=◌, light, et, fits))
                | inr unfit ↦ inl (rw (er, ◌>>=◌, light, et, unfit))
              ]
      ]

  prune_loop_total :
      (s : PruneState) (ns : List ClusterNodeMetadata)
      → HasKeys s.rem_group_capacities ns
      → HasKeys targets ns
      → (r : PruneState) × (prune_loop l new targets s ns ≡ ok r)
  unfolding prune_loop HasKeys
  prune_loop_total s [] hr ht = (s, refl)
  prune_loop_total s (n ∷ ns) hr ht = elim (visit_total s n (hr n (inl refl)) (ht n (inl refl))) [
    | inl e ↦ rw (e, prune_loop) (prune_loop_total s ns (λ a m. hr a (inr m)) (λ a m. ht a (inr m)))
    | inr (rem, e) ↦
        let s' = mark l new targets s n rem in
        let keys : HasKeys s'.rem_group_capacities ns =
          unfold mark in put-HasKeys _ _ s.rem_group_capacities ns (λ a m. hr a (inr m)) in
        elim (Bool-cases (leb_ℤ s'.curr_capacity new)) [
          | inl done ↦ (s', ground (arith, e, done))
          | inr more ↦
              let (r, e') = prune_loop_total s' ns keys (λ a m. ht a (inr m)) in
              (r, ground (arith, e, more, e'))
        ]
  ]

has-fulfilled_capacities :
    (k : String) (gs : List ResourceGroup) (d : Dict ℤ)
    → has k d ≡ true
    → has k (fulfilled_capacities gs d) ≡ true
unfolding fulfilled_capacities
has-fulfilled_capacities k [] d h = h
has-fulfilled_capacities k (g ∷ gs) d h =
    has-fulfilled_capacities k gs _ (ground (arith, has-put g.id k g.fulfilled_capacity d))

fulfilled_capacities-In :
    (g : ResourceGroup) (gs : List ResourceGroup) (d : Dict ℤ)
    → In g gs
    → has g.id (fulfilled_capacities gs d) ≡ true
unfolding fulfilled_capacities
fulfilled_capacities-In g [] d h = absurd h
fulfilled_capacities-In g (x ∷ gs) d (inl e) =
    has-fulfilled_capacities g.id gs _
      (rw (e, has-put x.id x.id x.fulfilled_capacity d, str_eq_refl x.id))
fulfilled_capacities-In g (x ∷ gs) d (inr h) = fulfilled_capacities-In g gs _ h

-- Every group has a target.
abbrev pub CoversGroups : List ResourceGroup → Dict ℤ → Type 0
CoversGroups groups targets = (g : ResourceGroup) → In g groups → has g.id targets ≡ true

targets_or_own-CoversGroups :
    (groups : List ResourceGroup) (targets : Dict ℤ)
    → (targets ≡ []) ⊎ CoversGroups groups targets
    → CoversGroups groups (targets_or_own groups targets)
unfolding targets_or_own
targets_or_own-CoversGroups groups [] c g h = own_targets-In g groups [] h
targets_or_own-CoversGroups groups (t ∷ ts) (inl e) g h = cc
targets_or_own-CoversGroups groups (t ∷ ts) (inr c) g h = c g h

module _ (agent_of : Option String → AgentMetadata) (m : PoolManager) (new : ℤ) where
  abbrev order : List ClusterNodeMetadata
  order = get_prioritized_killable_nodes agent_of m.limits m.resource_groups

  node_known :
      (d : Dict ℤ)
      → CoversGroups m.resource_groups d
      → (n : ClusterNodeMetadata) → In n order
      → has n.instance.group_id d ≡ true
  node_known d c n h =
      let from = ((killable_nodes agent_of m.limits m.resource_groups).2 n h).1 in
      rw from.named (c from.group from.group_in)

  prune_nodes_total :
      (targets : Dict ℤ)
      → CoversGroups m.resource_groups targets
      → (ns : List ClusterNodeMetadata) → ns ≡ order
      → (marked : Dict (List ClusterNodeMetadata)) × (prune_nodes m new targets ns ≡ ok marked)
  unfolding prune_nodes HasKeys
  prune_nodes_total targets c [] e = ([], refl)
  prune_nodes_total targets c (n ∷ ns) e =
      let known =
        λ (d : Dict ℤ) (cd : CoversGroups m.resource_groups d) (a : ClusterNodeMetadata)
            (h : In a (n ∷ ns)).
          node_known d cd a (subst (In a) e h) in
      let (r, e') =
        prune_loop_total m.limits new targets (initial_state m) (n ∷ ns)
          (known _ (λ g h. fulfilled_capacities-In g m.resource_groups [] h)) (known targets c) in
      (r.marked_nodes, rw e')

  -- With a target for every group, or with none given, nodes are chosen: no key is missing.
  pub choose_nodes_to_prune_total :
      (group_targets : Dict ℤ)
      → (group_targets ≡ []) ⊎ CoversGroups m.resource_groups group_targets
      → (marked : Dict (List ClusterNodeMetadata)) × (choose_nodes_to_prune agent_of m new
            group_targets
          ≡ ok marked)
  unfolding choose_nodes_to_prune
  choose_nodes_to_prune_total group_targets c =
      elim (Bool-cases (leb_ℤ (fulfilled_capacity m.resource_groups) new)) [
        | inl low ↦ ([], ground (arith, low))
        | inr high ↦
            let (marked, e) =
              prune_nodes_total (targets_or_own m.resource_groups group_targets)
                (targets_or_own-CoversGroups m.resource_groups group_targets c) order refl in
            (marked, ground (arith, high, e))
      ]
