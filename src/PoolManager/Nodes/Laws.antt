-- ===== src/PoolManager/Nodes/Laws.antt =====
-- Which nodes may be removed, and in which order they are considered.
use mathlib.Core.List.{Perm}
use clusterman.Base.{
  ℕ, ◌<◌, ◌≤◌, String, Bool, ℤ, pos, ltb_ℤ, ◌<ℤ◌, pos_part, ap, lex_lt, lex_lt-later, ◌≡◌, ◌≢◌,
  refl, ◌↔◌, ◌⊎◌, inl, inr, true, false, List, [], ◌∷◌, map, Option, arith, keep, In, In-keep,
  keep-In, sorted-In, In-append, IsSorted, In-sorted, sorted-perm, sorted-IsSorted, SameLength,
  str_eq,
}
use clusterman.Interfaces.{AgentMetadata, ClusterNodeMetadata, unknown}
use clusterman.PoolManager.Defs.{Bound, finite, infinite, ResourceGroup, Limits}
use clusterman.PoolManager.Nodes.{
  is_orphaned, is_idle, zero_if, is_running, seen_by, running_instances, node_of,
  get_node_metadatas, is_node_killable, sort_key, prioritize_killable_nodes,
  get_prioritized_killable_nodes,
}

-- `n` is below the limit.
abbrev pub IsBelow : ℕ → Bound ℕ → Type 0
IsBelow n (finite b) = n < b
IsBelow n infinite = Unit

-- A node is killable exactly when its agent is known and safe to kill, its instance is not
-- cordoned, and its tasks are fewer than the limit or none.
pub is_node_killable_iff :
    (l : Limits) (n : ClusterNodeMetadata)
    → (is_node_killable l n ≡ true) ↔ (
        (n.agent.state ≢ unknown)
        × (n.agent.is_safe_to_kill ≡ true)
        × (n.instance.is_cordoned ≡ false)
        × (IsBelow n.agent.task_count l.max_tasks_to_kill ⊎ (n.agent.task_count ≡ 0)))
unfolding is_node_killable
is_node_killable_iff l n = (ground arith, ground arith)

pub sort_key-uniform :
    (l : Limits) (a b : ClusterNodeMetadata) → SameLength (sort_key l a) (sort_key l b)
unfolding sort_key
sort_key-uniform l a b = tt

In-map :
    {A B : Type 0} (f : A → B) (b : B) (xs : List A)
    → In b (map f xs)
    → (a : A) × In a xs × (b ≡ f a)
In-map f b [] h = absurd h
In-map f b (x ∷ xs) (inl e) = (x, inl refl, e)
In-map f b (x ∷ xs) (inr h) = let (a, m, e) = In-map f b xs h in (a, inr m, e)

-- Where a node comes from: an instance of a group of the pool that AWS reports as running.
pub record IsNodeOf (agent_of : Option String → AgentMetadata) (groups : List ResourceGroup)
    (n : ClusterNodeMetadata) : Type 0 where
  pub group : ResourceGroup
  pub group_in : In group groups
  pub named : n.instance.group_id ≡ group.id
  pub is_up : str_eq n.instance.state "running" ≡ true
  pub agent_is : n.agent ≡ agent_of n.instance.ip_address

-- `p` decides, and `rest` where it decides nothing.
abbrev pub First : (p q : Bool) (rest : Type 0) → Type 0
First p q rest = (p ≡ true) × (q ≡ false) ⊎ ((p ≡ q) × rest)

-- The order of the kills, where `a` may come before `b`: nodes that are being drained first, then orphans, stale
-- instances, those past the least uptime and idle ones, and then by the batch tasks and by all tasks.
abbrev pub ComesFirst : Limits → (a b : ClusterNodeMetadata) → Type 0
ComesFirst l a b = First a.agent.is_draining b.agent.is_draining (
    First (is_orphaned a.agent.state) (is_orphaned b.agent.state) (
      First a.instance.is_stale b.instance.is_stale (
        First (ltb_ℤ l.min_node_scalein_uptime a.instance.uptime)
          (ltb_ℤ l.min_node_scalein_uptime b.instance.uptime)
          (First (is_idle a.agent.state) (is_idle b.agent.state) (
            (a.agent.batch_task_count < b.agent.batch_task_count)
            ⊎ ((a.agent.batch_task_count ≡ b.agent.batch_task_count)
                × (a.agent.task_count ≤ b.agent.task_count)))))))

-- No node comes behind one that it may not follow.
abbrev pub IsKillOrder : Limits → List ClusterNodeMetadata → Type 0
IsKillOrder l [] = Unit
IsKillOrder l (a ∷ nodes) =
    ((b : ClusterNodeMetadata) → In b nodes → ComesFirst l a b) × IsKillOrder l nodes

flag_won : (p q : Bool) → zero_if p <ℤ zero_if q → (p ≡ true) × (q ≡ false)
flag_won true true h = absurd (omega arith)
flag_won true false h = (refl, refl)
flag_won false true h = absurd (omega arith)
flag_won false false h = absurd (omega arith)

pos_same : (m n : ℕ) → pos m ≡ pos n → m ≡ n
pos_same m n h = ap pos_part h

flag_same : (p q : Bool) → zero_if p ≡ zero_if q → p ≡ q
flag_same true true h = refl
flag_same true false h = absurd (omega (arith, pos_same 0 1 h))
flag_same false true h = absurd (omega (arith, pos_same 1 0 h))
flag_same false false h = refl

flag_first :
    (p q : Bool) (xs ys : List ℤ)
    → lex_lt (zero_if q ∷ ys) (zero_if p ∷ xs) ≡ false
    → (p ≡ true) × (q ≡ false) ⊎ ((p ≡ q) × (lex_lt ys xs ≡ false))
flag_first p q xs ys h = elim (lex_lt-later (zero_if p) (zero_if q) xs ys h) [
  | inl won ↦ inl (flag_won p q won)
  | inr (same, rest) ↦ inr (flag_same p q same, rest)
]

counts_first :
    (m n i j : ℕ)
    → lex_lt (pos n ∷ pos j ∷ []) (pos m ∷ pos i ∷ []) ≡ false
    → (m < n) ⊎ ((m ≡ n) × (i ≤ j))
counts_first m n i j h = elim (lex_lt-later (pos m) (pos n) (pos i ∷ []) (pos j ∷ []) h) [
  | inl won ↦ inl (omega arith)
  | inr (same, rest) ↦ elim (lex_lt-later (pos i) (pos j) [] [] rest) [
    | inl won ↦ inr (pos_same m n same, omega arith)
    | inr (tie, _) ↦ inr (pos_same m n same, omega (arith, pos_same i j tie))
  ]
]

then_first :
    (p q : Bool) (xs ys : List ℤ) {rest : Type 0}
    → (lex_lt ys xs ≡ false → rest)
    → lex_lt (zero_if q ∷ ys) (zero_if p ∷ xs) ≡ false
    → First p q rest
then_first p q xs ys k h = elim (flag_first p q xs ys h) [
  | inl won ↦ inl won
  | inr (same, h') ↦ inr (same, k h')
]

sort_key-ComesFirst :
    (l : Limits) (a b : ClusterNodeMetadata)
    → lex_lt (sort_key l b) (sort_key l a) ≡ false
    → ComesFirst l a b
unfolding sort_key
sort_key-ComesFirst l a b = then_first a.agent.is_draining b.agent.is_draining _ _ (
    then_first (is_orphaned a.agent.state) (is_orphaned b.agent.state) _ _ (
      then_first a.instance.is_stale b.instance.is_stale _ _ (
        then_first (ltb_ℤ l.min_node_scalein_uptime a.instance.uptime)
          (ltb_ℤ l.min_node_scalein_uptime b.instance.uptime) _ _
          (then_first (is_idle a.agent.state) (is_idle b.agent.state) _ _ (
            counts_first a.agent.batch_task_count b.agent.batch_task_count a.agent.task_count
              b.agent.task_count)))))

IsSorted-IsKillOrder :
    (l : Limits) (nodes : List ClusterNodeMetadata)
    → IsSorted (sort_key l) nodes
    → IsKillOrder l nodes
IsSorted-IsKillOrder l [] s = tt
IsSorted-IsKillOrder l (a ∷ nodes) s =
    (λ b i. sort_key-ComesFirst l a b (s.0 b i), IsSorted-IsKillOrder l nodes s.1)

-- What `is_node_killable` is about, written out
abbrev pub MayBeKilled : Limits → ClusterNodeMetadata → Type 0
MayBeKilled l n =
    (n.agent.state ≢ unknown)
    × (n.agent.is_safe_to_kill ≡ true)
    × (n.instance.is_cordoned ≡ false)
    × (IsBelow n.agent.task_count l.max_tasks_to_kill ⊎ (n.agent.task_count ≡ 0))

module _ (agent_of : Option String → AgentMetadata) where
  node_of-IsNodeOf :
      (g : ResourceGroup) (groups : List ResourceGroup) (n : ClusterNodeMetadata)
      → In g groups
      → In n (map (node_of agent_of) (running_instances g))
      → IsNodeOf agent_of groups n
  unfolding node_of running_instances
  node_of-IsNodeOf g groups n m h =
      let (i, hi, e) = In-map (node_of agent_of) n (running_instances g) h in
      let (raw, hr, e') = In-map (seen_by g) i (keep is_running g.instances) hi in
      let (_, up) = In-keep is_running raw g.instances hr in
      rw (e, e') (record { group = g; group_in = m; named = refl; is_up = up; agent_is = refl })

  pub get_node_metadatas-IsNodeOf :
      (groups : List ResourceGroup) (n : ClusterNodeMetadata)
      → In n (get_node_metadatas agent_of groups)
      → IsNodeOf agent_of groups n
  unfolding get_node_metadatas
  get_node_metadatas-IsNodeOf [] n h = absurd h
  get_node_metadatas-IsNodeOf (g ∷ gs) n h =
      elim (In-append n (map (node_of agent_of) (running_instances g))
        (get_node_metadatas agent_of gs) h) [
          | inl here ↦ node_of-IsNodeOf g (g ∷ gs) n (inl refl) here
          | inr later ↦
              let r = get_node_metadatas-IsNodeOf gs n later in
              record {
                group = r.group;
                group_in = inr r.group_in;
                named = r.named;
                is_up = r.is_up;
                agent_is = r.agent_is;
              }
        ]

  pub killable_nodes :
      (l : Limits) (groups : List ResourceGroup)
      → Perm
          (get_prioritized_killable_nodes agent_of l groups)
          (keep (is_node_killable l) (get_node_metadatas agent_of groups))
        × IsSorted (sort_key l) (get_prioritized_killable_nodes agent_of l groups)
        × ((n : ClusterNodeMetadata)
            → In n (get_prioritized_killable_nodes agent_of l groups)
            → (is_node_killable l n ≡ true) × IsNodeOf agent_of groups n)
  unfolding get_prioritized_killable_nodes prioritize_killable_nodes
  killable_nodes l groups =
      let killable = keep (is_node_killable l) (get_node_metadatas agent_of groups) in
      (
        sorted-perm (sort_key l) killable,
        sorted-IsSorted (sort_key l) (sort_key-uniform l) killable,
        λ n h.
            let (m, k) =
              In-keep (is_node_killable l) n (get_node_metadatas agent_of groups)
                (In-sorted (sort_key l) n killable h) in
            (k, get_node_metadatas-IsNodeOf groups n m),
      )

  -- The nodes that may be killed are exactly those running nodes of the pool, each as often as it is there, whose
  -- agent is known and safe to kill, whose instance is not cordoned, and whose tasks are fewer than the limit or
  -- none; each belongs to a group. Those that are being drained come first, then orphans, stale instances, those
  -- past the least uptime and idle ones, and among equals those with fewer batch tasks and then with fewer tasks.
  pub prioritized_killable_nodes :
      (l : Limits) (groups : List ResourceGroup)
      → Perm
          (get_prioritized_killable_nodes agent_of l groups)
          (keep (is_node_killable l) (get_node_metadatas agent_of groups))
        × IsKillOrder l (get_prioritized_killable_nodes agent_of l groups)
        × ((n : ClusterNodeMetadata)
            → In n (get_prioritized_killable_nodes agent_of l groups)
            → MayBeKilled l n × IsNodeOf agent_of groups n)
        × ((n : ClusterNodeMetadata)
            → In n (get_node_metadatas agent_of groups)
            → MayBeKilled l n
            → In n (get_prioritized_killable_nodes agent_of l groups))
  unfolding get_prioritized_killable_nodes prioritize_killable_nodes
  prioritized_killable_nodes l groups =
      let (same, ordered, from) = killable_nodes l groups in
      let killable = keep (is_node_killable l) (get_node_metadatas agent_of groups) in
      (
        same,
        IsSorted-IsKillOrder l (get_prioritized_killable_nodes agent_of l groups) ordered,
        λ n h. ((is_node_killable_iff l n).0 (from n h).0, (from n h).1),
        λ n h k. sorted-In (sort_key l) n killable (
            keep-In (is_node_killable l) n (get_node_metadatas agent_of groups) h
              ((is_node_killable_iff l n).1 k)),
      )
