-- ===== src/PoolManager/Prune/Outcome.antt =====
-- What `_choose_nodes_to_prune` promises of the nodes that it marks.
use clusterman.Base.{
  ℕ, String, ◌≡◌, refl, ◌⊎◌, inl, inr, true, false, List, [], ◌∷◌, Option, some, Bool-cases, ℤ, pos,
  ◌+ℤ◌, ◌-ℤ◌, ◌≤ℤ◌, leb_ℤ, arith, subst, +ℤ-zero, +ℤ_parts, -ℤ_parts, In, Dict, get, has, has→get,
  has-get, has-put,
}
use clusterman.Interfaces.{AgentMetadata, ClusterNodeMetadata}
use clusterman.PoolManager.Defs.{
  Bound, finite, infinite, PoolManager, Result, ok, err, exceeds, ◌>>=◌,
}
use clusterman.PoolManager.Capacity.{fulfilled_capacity, sum_by}
use clusterman.PoolManager.Capacity.Laws.{IsSound}
use clusterman.PoolManager.Nodes.{is_node_killable, get_prioritized_killable_nodes}
use clusterman.PoolManager.Nodes.Laws.{IsNodeOf, killable_nodes}
use clusterman.PoolManager.Prune.{
  PruneState, mark, prune_loop, initial_state, targets_or_own, fulfilled_capacities, prune_nodes,
  choose_nodes_to_prune,
}
use clusterman.PoolManager.Prune.Accounts.{prune_ind, total, marked_in}
use clusterman.PoolManager.Prune.Bounds.{
  weight, tasks, joined_weight, nodes_of, Weighs, Weighs-mark, Kills, Kills-mark, Covers,
  Covers-mark, Leaves, Leaves-mark, Holds, Holds-mark,
}

-- The promises of one run about the nodes that it marks.
pub record IsWithinLimits (agent_of : Option String → AgentMetadata) (m : PoolManager) (new : ℤ)
    (targets : Dict ℤ) (marked : Dict (List ClusterNodeMetadata)) : Type 0 where
  pub light : total weight marked ≤ℤ m.limits.max_weight_to_remove
  pub killed : ℕ
  pub killed_is : pos killed ≡ total tasks marked
  pub few : exceeds killed m.limits.max_tasks_to_kill ≡ false
  pub covered :
      (total joined_weight marked ≡ pos 0)
      ⊎ (new +ℤ total joined_weight marked ≤ℤ m.non_orphan_fulfilled_capacity)
  pub leaves :
      (k : String) (f t : ℤ)
      → has k marked ≡ true
      → get k (fulfilled_capacities m.resource_groups []) ≡ some f
      → get k targets ≡ some t
      → t ≤ℤ f -ℤ marked_in k marked
  pub killable :
      (k : String) (n : ClusterNodeMetadata)
      → In n (nodes_of k marked)
      → (n.instance.group_id ≡ k)
        × (is_node_killable m.limits n ≡ true)
        × IsNodeOf agent_of m.resource_groups n

module _ (agent_of : Option String → AgentMetadata) (m : PoolManager) (new : ℤ) (targets : Dict ℤ)
    (sound : IsSound m.limits) where
  no_tasks : (b : Bound ℕ) → exceeds 0 b ≡ false
  no_tasks (finite b) = ground arith
  no_tasks infinite = refl

  nothing-IsWithinLimits : IsWithinLimits agent_of m new targets []
  unfolding total nodes_of get has
  nothing-IsWithinLimits = record {
    light = sound.removes;
    killed = 0;
    killed_is = refl;
    few = no_tasks m.limits.max_tasks_to_kill;
    covered = inl refl;
    leaves = λ k f t h _ _. cc;
    killable = λ k n h. absurd h;
  }

  -- The loop over nodes that are killable and belong to the pool.
  module _ (ns : List ClusterNodeMetadata) {r : PruneState}
      (from : (n : ClusterNodeMetadata)
        → In n ns
        → (is_node_killable m.limits n ≡ true) × IsNodeOf agent_of m.resource_groups n)
      (e : prune_loop m.limits new targets (initial_state m) ns ≡ ok r) where
    weighs : Weighs m.limits new targets ns (initial_state m) r
    weighs =
        prune_ind m.limits new targets (Weighs m.limits new targets ns (initial_state m)) ns
          (λ s n s' _. Weighs-mark m.limits new targets ns (initial_state m) s n s')
          (initial_state m) e (unfold total in (refl, sound.removes))

    kills : Kills m.limits new targets ns (initial_state m) r
    kills =
        prune_ind m.limits new targets (Kills m.limits new targets ns (initial_state m)) ns
          (λ s n s' _. Kills-mark m.limits new targets ns (initial_state m) s n s')
          (initial_state m) e (unfold total in (refl, no_tasks m.limits.max_tasks_to_kill))

    covers : Covers m.limits new targets ns (initial_state m) r
    covers =
        prune_ind m.limits new targets (Covers m.limits new targets ns (initial_state m)) ns
          (λ s n s' _. Covers-mark m.limits new targets ns (initial_state m) s n s')
          (initial_state m) e (unfold total in (+ℤ-zero m.non_orphan_fulfilled_capacity, inl refl))

    leaves : Leaves m.limits new targets ns (initial_state m) r
    leaves =
        prune_ind m.limits new targets (Leaves m.limits new targets ns (initial_state m)) ns
          (λ s n s' _. Leaves-mark m.limits new targets ns (initial_state m) s n s')
          (initial_state m) e
          (λ k f h. unfold marked_in get has sum_by in (rw (+ℤ-zero f) h, λ absent. cc))

    holds : Holds m.limits new targets ns (initial_state m) r
    holds =
        prune_ind m.limits new targets (Holds m.limits new targets ns (initial_state m)) ns
          (Holds-mark m.limits new targets ns (initial_state m)) (initial_state m) e
          (λ k a h. unfold nodes_of get in absurd h)

    kept :
        (k : String)
        → has k (fulfilled_capacities m.resource_groups []) ≡ true
        → has k r.rem_group_capacities ≡ true
    kept k =
        prune_ind m.limits new targets (λ s. has k s.rem_group_capacities ≡ true) ns
          (λ s n s' _ mk h.
            unfold mark in
            rw mk.after (
              ground (
                arith,
                h,
                has-put n.instance.group_id k (mk.rem -ℤ n.instance.weight) s.rem_group_capacities,
              )))
          (initial_state m) e

    loop-leaves :
        (k : String) (f t : ℤ)
        → has k r.marked_nodes ≡ true
        → get k (fulfilled_capacities m.resource_groups []) ≡ some f
        → get k targets ≡ some t
        → t ≤ℤ f -ℤ marked_in k r.marked_nodes
    loop-leaves k f t h hf ht =
        let (rem, er) = has→get k r.rem_group_capacities (kept k (has-get k _ f hf)) in
        let (start, above) = leaves k rem er in
        ground (
          arith,
          start,
          hf,
          above h t ht,
          +ℤ_parts rem (marked_in k r.marked_nodes),
          -ℤ_parts f (marked_in k r.marked_nodes),
        )

    loop-IsWithinLimits : IsWithinLimits agent_of m new targets r.marked_nodes
    loop-IsWithinLimits = record {
      light = rw (← weighs.0) weighs.1;
      killed = r.killed_task_count;
      killed_is = kills.0;
      few = kills.1;
      covered = ground (
        arith,
        covers,
        +ℤ_parts r.remaining_non_orphan_capacity (total joined_weight r.marked_nodes),
        +ℤ_parts new (total joined_weight r.marked_nodes),
      );
      leaves = loop-leaves;
      killable = λ k n h.
          let (member, same) = holds k n h in let (fit, node) = from n member in (same, fit, node);
    }

  prune_nodes-IsWithinLimits :
      (ns : List ClusterNodeMetadata) {marked : Dict (List ClusterNodeMetadata)}
      → ((n : ClusterNodeMetadata)
          → In n ns
          → (is_node_killable m.limits n ≡ true) × IsNodeOf agent_of m.resource_groups n)
      → prune_nodes m new targets ns ≡ ok marked
      → IsWithinLimits agent_of m new targets marked
  unfolding prune_nodes
  prune_nodes-IsWithinLimits [] from e =
      let same : [] ≡ _ = cc in
      subst (IsWithinLimits agent_of m new targets) same nothing-IsWithinLimits
  prune_nodes-IsWithinLimits (n ∷ ns) {marked} from e =
      go (prune_loop m.limits new targets (initial_state m) (n ∷ ns)) refl e
    where
      go :
          (x : Result PruneState)
          → prune_loop m.limits new targets (initial_state m) (n ∷ ns) ≡ x
          → (x >>= λ s. ok s.marked_nodes) ≡ ok marked
          → IsWithinLimits agent_of m new targets marked
      go (ok s) el em =
          let same : s.marked_nodes ≡ marked = cc in
          subst (IsWithinLimits agent_of m new targets) same (loop-IsWithinLimits (n ∷ ns) from el)
      go (err x) el em = cc

-- Whatever nodes are chosen with sound limits: their weight is at most `max_weight_to_remove`, their
-- tasks are at most `max_tasks_to_kill`, the capacity that is up stays at the new target unless
-- only orphans are chosen, each group that loses nodes keeps its target, and each chosen node is a
-- killable running node of the group under which it is listed.
pub choose_nodes_to_prune-IsWithinLimits :
    (agent_of : Option String → AgentMetadata) (m : PoolManager) (new : ℤ) (group_targets : Dict ℤ)
    {marked : Dict (List ClusterNodeMetadata)}
    → IsSound m.limits
    → choose_nodes_to_prune agent_of m new group_targets ≡ ok marked
    → IsWithinLimits agent_of m new (targets_or_own m.resource_groups group_targets) marked
unfolding choose_nodes_to_prune
choose_nodes_to_prune-IsWithinLimits agent_of m new group_targets sound e =
    let targets = targets_or_own m.resource_groups group_targets in
    elim (Bool-cases (leb_ℤ (fulfilled_capacity m.resource_groups) new)) [
      | inl low ↦
          let same : [] ≡ _ = ground (arith, low, e) in
          subst (IsWithinLimits agent_of m new targets) same
            (nothing-IsWithinLimits agent_of m new targets sound)
      | inr high ↦
          prune_nodes-IsWithinLimits agent_of m new targets sound
            (get_prioritized_killable_nodes agent_of m.limits m.resource_groups)
            (killable_nodes agent_of m.limits m.resource_groups).2 (ground (arith, high, e))
    ]
