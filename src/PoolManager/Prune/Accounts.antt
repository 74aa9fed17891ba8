-- ===== src/PoolManager/Prune/Accounts.antt =====
-- The loop of `_choose_nodes_to_prune`: its rule, and the sums over what it has marked.
use clusterman.Base.{
  ◌⊎◌, subst, String, ◌≡◌, refl, sym, ◌∙◌, inl, inr, true, List, [], ◌∷◌, ◌++◌, Option, none, some,
  Bool-cases, Option-cases, ℤ, pos, ◌+ℤ◌, leb_ℤ, arith, int_laws, In, Dict, get, or_else, str_eq,
  str_eq_iff, +ℤ-zero, +ℤ_assoc, +ℤ_comm, if◌then◌else◌,
}
use clusterman.Interfaces.{ClusterNodeMetadata}
use clusterman.PoolManager.Defs.{Limits, PoolManagerError, Result, ok, err}
use clusterman.PoolManager.Capacity.{sum_by}
use clusterman.PoolManager.Prune.{
  PruneState, append_to, within_weight, within_group, within_tasks, within_non_orphan, mark, visit,
  prune_loop,
}

module _ (l : Limits) (new : ℤ) (targets : Dict ℤ) where
  -- What it takes for a node to be marked.
  pub record Marks (s : PruneState) (n : ClusterNodeMetadata) (s' : PruneState) : Type 0 where
    pub rem : ℤ
    pub target : ℤ
    pub has_rem : get n.instance.group_id s.rem_group_capacities ≡ some rem
    pub has_target : get n.instance.group_id targets ≡ some target
    pub light : within_weight l new targets s n ≡ true
    pub spare : within_group l new targets rem target n ≡ true
    pub few : within_tasks l new targets s n ≡ true
    pub covered : within_non_orphan l new targets s n ≡ true
    pub after : s' ≡ mark l new targets s n rem

  visit-Marks :
      (s : PruneState) (n : ClusterNodeMetadata) (s' : PruneState)
      → visit l new targets s n ≡ ok (some s')
      → Marks s n s'
  unfolding visit
  visit-Marks s n s' e = elim (Option-cases (get n.instance.group_id s.rem_group_capacities)) [
    | inl missing ↦ absurd (ground (arith, missing))
    | inr (rem, hr) ↦ elim (Option-cases (get n.instance.group_id targets)) [
      | inl missing ↦ absurd (ground (arith, hr, missing))
      | inr (target, ht) ↦ record {
        rem = rem;
        target = target;
        has_rem = hr;
        has_target = ht;
        light = ground (arith, hr, ht);
        spare = ground (arith, hr, ht);
        few = ground (arith, hr, ht);
        covered = ground (arith, hr, ht);
        after = ground (arith, hr, ht);
      }
    ]
  ]

  Visit-cases :
      (r : Result (Option PruneState))
      → (r ≡ ok none)
        ⊎ (((s : PruneState) × (r ≡ ok (some s))) ⊎ ((x : PoolManagerError) × (r ≡ err x)))
  Visit-cases (ok none) = inl refl
  Visit-cases (ok (some s)) = inr (inl (s, refl))
  Visit-cases (err x) = inr (inr (x, refl))

  -- What each marking keeps, the loop keeps.
  pub prune_ind {ℓ} :
      (P : PruneState → Type ℓ) (ns : List ClusterNodeMetadata)
      → ((s : PruneState) (n : ClusterNodeMetadata) (s' : PruneState)
          → In n ns
          → Marks s n s'
          → P s
          → P s')
      → (s : PruneState) {r : PruneState} → prune_loop l new targets s ns ≡ ok r
      → P s
      → P r
  unfolding prune_loop
  prune_ind P [] step s e p = let same : s ≡ _ = cc in subst P same p
  prune_ind P (n ∷ ns) step s e p = elim (Visit-cases (visit l new targets s n)) [
    | inl v ↦ prune_ind P ns (λ t m t' h. step t m t' (inr h)) s (rw (v, prune_loop) at e) p
    | inr (inl (s', v)) ↦
        let p' = step s n s' (inl refl) (visit-Marks s n s' v) p in
        elim (Bool-cases (leb_ℤ s'.curr_capacity new)) [
          | inl done ↦ let same : s' ≡ _ = ground (arith, e, v, done) in subst P same p'
          | inr more ↦
              prune_ind P ns (λ t m t' h. step t m t' (inr h)) s' (ground (arith, e, v, more)) p'
        ]
    | inr (inr (x, v)) ↦ absurd (ground (arith, e, v))
  ]

-- A sum over all marked nodes.
unfoldable pub total : (ClusterNodeMetadata → ℤ) → Dict (List ClusterNodeMetadata) → ℤ
total f [] = pos 0
total f ((k, ns) ∷ d) = sum_by f ns +ℤ total f d

sum_by-append :
    (f : ClusterNodeMetadata → ℤ) (xs ys : List ClusterNodeMetadata)
    → sum_by f (xs ++ ys) ≡ sum_by f xs +ℤ sum_by f ys
unfolding sum_by
sum_by-append f [] ys = omega int_laws
sum_by-append f (x ∷ xs) ys =
    rw (sum_by-append f xs ys) (sym (+ℤ_assoc (f x) (sum_by f xs) (sum_by f ys)))

sum_by-snoc :
    (f : ClusterNodeMetadata → ℤ) (xs : List ClusterNodeMetadata) (n : ClusterNodeMetadata)
    → sum_by f (xs ++ n ∷ []) ≡ sum_by f xs +ℤ f n
sum_by-snoc f xs n = sum_by-append f xs (n ∷ []) ∙ unfold sum_by in rw (+ℤ-zero (f n))

pub total-append_to :
    (f : ClusterNodeMetadata → ℤ) (k : String) (n : ClusterNodeMetadata)
    (d : Dict (List ClusterNodeMetadata))
    → total f (append_to k n d) ≡ total f d +ℤ f n
unfolding total append_to
total-append_to f k n [] = unfold sum_by in omega int_laws
total-append_to f k n ((j, ns) ∷ d) = elim (Bool-cases (str_eq j k)) [
  | inl e ↦ rw (e, sum_by-snoc f ns n) (omega int_laws)
  | inr e ↦ rw (e, total-append_to f k n d) (omega int_laws)
]

-- The weight marked in one group.
unfoldable pub marked_in : String → Dict (List ClusterNodeMetadata) → ℤ
marked_in k d = sum_by (λ n. n.instance.weight) (or_else (get k d) [])

pub marked_in-append_to :
    (k : String) (n : ClusterNodeMetadata) (j : String) (d : Dict (List ClusterNodeMetadata))
    → marked_in j (append_to k n d)
      ≡ (if str_eq k j then marked_in j d +ℤ n.instance.weight else marked_in j d)
unfolding marked_in append_to get
marked_in-append_to k n j [] = unfold sum_by in ground (arith, +ℤ_comm (pos 0) n.instance.weight)
marked_in-append_to k n j ((i, ns) ∷ d) = ground (
  arith,
  str_eq_iff k j,
  str_eq_iff i k,
  str_eq_iff i j,
  marked_in-append_to k n j d,
  sum_by-snoc (λ x. x.instance.weight) ns n,
)
