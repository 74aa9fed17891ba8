-- ===== src/PoolManager/Prune/Bounds.antt =====
-- What holds of the marked nodes at the end of the loop of `_choose_nodes_to_prune`.
use clusterman.Base.{
  ◌+◌, String, ◌≡◌, refl, sym, ◌⊎◌, inl, inr, true, false, List, [], ◌∷◌, ◌++◌, some, Bool-cases, ℤ,
  pos, ◌+ℤ◌, ◌-ℤ◌, ◌≤ℤ◌, arith, int_laws, +ℤ_parts, -ℤ_parts, eq_of_parts, In, In-append, Dict, get,
  put, has, or_else, get-put, str_eq, str_eq_iff, +ℤ-zero, if◌then◌else◌,
}
use clusterman.Interfaces.{ClusterNodeMetadata}
use clusterman.PoolManager.Defs.{Limits, exceeds}
use clusterman.PoolManager.Nodes.{is_orphaned}
use clusterman.PoolManager.Prune.{
  PruneState, append_to, within_weight, within_group, within_tasks, within_non_orphan, mark,
}
use clusterman.PoolManager.Prune.Accounts.{
  Marks, total, total-append_to, marked_in, marked_in-append_to,
}

abbrev pub weight : ClusterNodeMetadata → ℤ
weight n = n.instance.weight

abbrev pub tasks : ClusterNodeMetadata → ℤ
tasks n = pos n.agent.task_count

-- The weight that a node contributes to the capacity that is up.
abbrev pub joined_weight : ClusterNodeMetadata → ℤ
joined_weight n = if is_orphaned n.agent.state then pos 0 else n.instance.weight

pub has-append_to :
    (k : String) (n : ClusterNodeMetadata) (j : String) (d : Dict (List ClusterNodeMetadata))
    → has j (append_to k n d) ≡ (if str_eq k j then true else has j d)
unfolding append_to has
has-append_to k n j [] = refl
has-append_to k n j ((i, ns) ∷ d) =
    ground (arith, str_eq_iff k j, str_eq_iff i k, str_eq_iff i j, has-append_to k n j d)

unfoldable pub nodes_of : String → Dict (List ClusterNodeMetadata) → List ClusterNodeMetadata
nodes_of k d = or_else (get k d) []

nodes_of-append_to :
    (k : String) (n : ClusterNodeMetadata) (j : String) (d : Dict (List ClusterNodeMetadata))
    → nodes_of j (append_to k n d) ≡ (if str_eq k j then nodes_of j d ++ n ∷ [] else nodes_of j d)
unfolding nodes_of append_to get
nodes_of-append_to k n j [] = ground arith
nodes_of-append_to k n j ((i, ns) ∷ d) =
    ground (arith, str_eq_iff k j, str_eq_iff i k, str_eq_iff i j, nodes_of-append_to k n j d)

In-append_to :
    (k : String) (n : ClusterNodeMetadata) (j : String) (d : Dict (List ClusterNodeMetadata))
    (a : ClusterNodeMetadata)
    → In a (nodes_of j (append_to k n d))
    → In a (nodes_of j d) ⊎ (a ≡ n) × (j ≡ k)
In-append_to k n j d a h = elim (Bool-cases (str_eq k j)) [
  | inl e ↦ elim (In-append a (nodes_of j d) (n ∷ []) (rw (nodes_of-append_to k n j d, e) at h)) [
    | inl old ↦ inl old
    | inr (inl same) ↦ inr (same, sym ((str_eq_iff k j).0 e))
    | inr (inr none_left) ↦ absurd none_left
  ]
  | inr e ↦ inl (rw (nodes_of-append_to k n j d, e) at h)
]

regroup : (a b c : ℤ) → a -ℤ b +ℤ (c +ℤ b) ≡ a +ℤ c
regroup a b c = omega int_laws

module _ (l : Limits) (new : ℤ) (targets : Dict ℤ) (ns : List ClusterNodeMetadata)
    (start : PruneState) where
  -- The weight of one run.
  abbrev pub Weighs : PruneState → Type 0
  Weighs s =
      (s.removed_weight ≡ total weight s.marked_nodes)
      × (s.removed_weight ≤ℤ l.max_weight_to_remove)

  pub Weighs-mark :
      (s : PruneState) (n : ClusterNodeMetadata) (s' : PruneState)
      → Marks l new targets s n s'
      → Weighs s
      → Weighs s'
  unfolding mark within_weight
  Weighs-mark s n s' m w = ground (
    arith,
    m.light,
    m.after,
    total-append_to weight n.instance.group_id n s.marked_nodes,
    +ℤ_parts s.removed_weight n.instance.weight,
    +ℤ_parts n.instance.weight s.removed_weight,
  )

  -- The tasks of one run.
  abbrev pub Kills : PruneState → Type 0
  Kills s =
      (pos s.killed_task_count ≡ total tasks s.marked_nodes)
      × (exceeds s.killed_task_count l.max_tasks_to_kill ≡ false)

  pub Kills-mark :
      (s : PruneState) (n : ClusterNodeMetadata) (s' : PruneState)
      → Marks l new targets s n s'
      → Kills s
      → Kills s'
  unfolding mark within_tasks
  Kills-mark s n s' m w = ground (
    arith,
    m.few,
    m.after,
    total-append_to tasks n.instance.group_id n s.marked_nodes,
    +ℤ_parts (pos s.killed_task_count) (pos n.agent.task_count),
    eq_of_parts (pos s.killed_task_count +ℤ pos n.agent.task_count)
        (pos (s.killed_task_count + n.agent.task_count)),
  )

  -- The capacity that is up and that stays.
  abbrev pub Covers : PruneState → Type 0
  Covers s =
      (s.remaining_non_orphan_capacity +ℤ total joined_weight s.marked_nodes
        ≡ start.remaining_non_orphan_capacity)
      × ((total joined_weight s.marked_nodes ≡ pos 0) ⊎ (new ≤ℤ s.remaining_non_orphan_capacity))

  pub Covers-mark :
      (s : PruneState) (n : ClusterNodeMetadata) (s' : PruneState)
      → Marks l new targets s n s'
      → Covers s
      → Covers s'
  unfolding mark within_non_orphan
  Covers-mark s n s' m w = ground (
    arith,
    m.covered,
    m.after,
    total-append_to joined_weight n.instance.group_id n s.marked_nodes,
    -ℤ_parts s.remaining_non_orphan_capacity n.instance.weight,
    +ℤ_parts s.remaining_non_orphan_capacity (total joined_weight s.marked_nodes),
    +ℤ_parts (total joined_weight s.marked_nodes) (joined_weight n),
    +ℤ_parts (s.remaining_non_orphan_capacity -ℤ n.instance.weight)
        (total joined_weight s.marked_nodes +ℤ n.instance.weight),
    +ℤ-zero (total joined_weight s.marked_nodes),
    eq_of_parts
        (s.remaining_non_orphan_capacity
          -ℤ n.instance.weight
          +ℤ (total joined_weight s.marked_nodes +ℤ n.instance.weight))
        start.remaining_non_orphan_capacity,
  )

  -- What is left of each group.
  abbrev pub Leaves : PruneState → Type 0
  Leaves s =
      (k : String) (r : ℤ)
      → get k s.rem_group_capacities ≡ some r
      → (get k start.rem_group_capacities ≡ some (r +ℤ marked_in k s.marked_nodes))
        × (has k s.marked_nodes ≡ true → (t : ℤ) → get k targets ≡ some t → t ≤ℤ r)

  pub Leaves-mark :
      (s : PruneState) (n : ClusterNodeMetadata) (s' : PruneState)
      → Marks l new targets s n s'
      → Leaves s
      → Leaves s'
  unfolding mark within_group
  Leaves-mark s n s' m w k r e =
      let g = n.instance.group_id in
      let left = m.rem -ℤ n.instance.weight in
      let e' : get k (put g left s.rem_group_capacities) ≡ some r = rw m.after at e in
      let put_at = get-put g k left s.rem_group_capacities in
      let sum_at = marked_in-append_to g n k s.marked_nodes in
      rw m.after (elim (Bool-cases (str_eq g k)) [
        | inl same ↦ (
          ground (
            arith,
            e',
            put_at,
            sum_at,
            same,
            m.has_rem,
            (str_eq_iff g k).0 same,
            (w g m.rem m.has_rem).0,
            regroup m.rem n.instance.weight (marked_in k s.marked_nodes),
          ),
          λ _ t ht.
              ground (arith, e', put_at, same, ht, m.has_target, m.spare, (str_eq_iff g k).0 same),
        )
        | inr other ↦
            let old : get k s.rem_group_capacities ≡ some r = ground (arith, e', put_at, other) in
            (
              ground (arith, sum_at, other, (w k r old).0),
              λ had t ht.
                  (w k r old).1 (ground (arith, had, other, has-append_to g n k s.marked_nodes)) t
                    ht,
            )
      ])

  -- Which nodes are marked, and where.
  abbrev pub Holds : PruneState → Type 0
  Holds s =
      (k : String) (a : ClusterNodeMetadata)
      → In a (nodes_of k s.marked_nodes)
      → In a ns × (a.instance.group_id ≡ k)

  pub Holds-mark :
      (s : PruneState) (n : ClusterNodeMetadata) (s' : PruneState)
      → In n ns
      → Marks l new targets s n s'
      → Holds s
      → Holds s'
  unfolding mark
  Holds-mark s n s' h m w k a e =
      elim (In-append_to n.instance.group_id n k s.marked_nodes a (rw m.after at e)) [
        | inl old ↦ w k a old
        | inr (same, key) ↦ rw (same, key) (h, refl)
      ]
