-- ===== src/PoolManager/Targets/Whole.antt =====
-- What `_compute_new_resource_group_targets` promises as a whole.
use clusterman.Base.{
  not, ◌≢◌, ◌≡◌, ◌⊎◌, inl, inr, Bool, true, false, List, ℤ, pos, negsuc, ◌<◌, ◌+ℤ◌, neg_ℤ, ◌≤ℤ◌,
  ◌<ℤ◌, arith, +ℤ_parts, neg_ℤ_parts, In, Dict, int_laws,
}
use clusterman.PoolManager.Defs.{ResourceGroup, group_target_capacity, ok}
use clusterman.PoolManager.Capacity.{target_capacity, non_stale}
use clusterman.PoolManager.Capacity.Laws.{target_capacity-sum}
use clusterman.PoolManager.Targets.{
  unit, key, ceil, upwards, target_of, is_constrained, sum_values, unmet, distribute,
  initial_targets, enough_fuel, compute_new_resource_group_targets,
}
use clusterman.PoolManager.Targets.Step.{choose-none}
use clusterman.PoolManager.Targets.Loop.{gap, distribute-IsSettled, distribute_no_overshoot}
use clusterman.PoolManager.Targets.Balance.{
  IsUnique, IsInside, distribute-Moved, distribute-IsBalanced,
}
use clusterman.PoolManager.Targets.Initial.{
  IsDistinct, IsDistinct-IsUnique, keep-IsDistinct, initial_targets-total, initial_targets-sum,
  initial_targets-own,
}

-- The least whole number of units that is not below.
pub ceil_bounds : (x : ℤ) → (x ≤ℤ ceil x) × (ceil x <ℤ x +ℤ unit)
unfolding ceil
ceil_bounds (pos n) = omega int_laws
ceil_bounds (negsuc n) = omega int_laws

module _ (groups : List ResourceGroup) (new_target_capacity target : ℤ) where
  abbrev pub up : Bool
  up = upwards target new_target_capacity

  abbrev pub targets : Dict ℤ
  targets =
      distribute (enough_fuel up (ceil new_target_capacity) (initial_targets groups)) up
        (ceil new_target_capacity) (non_stale groups) (initial_targets groups)

  compute-targets :
      target_capacity groups ≡ ok target
      → compute_new_resource_group_targets groups new_target_capacity ≡ ok targets
  unfolding compute_new_resource_group_targets
  compute-targets e = rw e

  settled :
      (unmet up (ceil new_target_capacity) targets ≡ false)
      ⊎ ((g : ResourceGroup) → In g (non_stale groups) → is_constrained up targets g ≡ true)
  settled =
      elim (distribute-IsSettled up (ceil new_target_capacity) (non_stale groups)
        (enough_fuel up (ceil new_target_capacity) (initial_targets groups))
        (initial_targets groups) enough (initial_targets-total groups)) [
          | inl met ↦ inl met
          | inr e ↦ inr (choose-none up targets (non_stale groups) e)
        ]
    where
      enough :
          gap up (ceil new_target_capacity) (non_stale groups) (initial_targets groups)
          < enough_fuel up (ceil new_target_capacity) (initial_targets groups)
      enough = unfold gap enough_fuel in omega arith

  starts_short :
      IsDistinct groups
      → target_capacity groups ≡ ok target
      → key up (sum_values (initial_targets groups)) <ℤ key up (ceil new_target_capacity) +ℤ unit
  unfolding key upwards
  starts_short d e = ground (
    arith,
    initial_targets-sum groups d,
    target_capacity-sum groups target e,
    ceil_bounds new_target_capacity,
    neg_ℤ_parts target,
    neg_ℤ_parts (ceil new_target_capacity),
    +ℤ_parts new_target_capacity unit,
    +ℤ_parts (ceil new_target_capacity) unit,
    +ℤ_parts (neg_ℤ (ceil new_target_capacity)) unit,
  )

-- With distinct ids and a target capacity the computation gives targets whose sum reaches the
-- request, rounded up, and is less than a unit past it, or it gives targets at which every group
-- that is not stale is at its limit; and in both cases the sum is less than a unit past it.
pub compute_reaches_goal :
    (groups : List ResourceGroup) (new target : ℤ)
    → IsDistinct groups
    → target_capacity groups ≡ ok target
    → (result : Dict ℤ) × (compute_new_resource_group_targets groups new ≡ ok result)
      × ((key (upwards target new) (ceil new) ≤ℤ key (upwards target new) (sum_values result))
          ⊎ ((g : ResourceGroup)
              → In g (non_stale groups)
              → is_constrained (upwards target new) result g ≡ true))
      × (key (upwards target new) (sum_values result)
          <ℤ key (upwards target new) (ceil new) +ℤ unit)
compute_reaches_goal groups new target d e =
    let t = targets groups new target in
    (
      t,
      compute-targets groups new target e,
      elim (settled groups new target) [
        | inl met ↦ inl (unfold unmet in ground (arith, met))
        | inr full ↦ inr full
      ],
      distribute_no_overshoot (upwards target new) (ceil new) (non_stale groups) _
          (initial_targets groups) (initial_targets-total groups)
          (starts_short groups new target d e),
    )

module _ (groups : List ResourceGroup) (new target : ℤ) {result : Dict ℤ} (d : IsDistinct groups)
    (known : target_capacity groups ≡ ok target)
    (computed : compute_new_resource_group_targets groups new ≡ ok result) where
  the_targets : result ≡ targets groups new target
  the_targets = cc (compute-targets groups new target known)

  unique : IsUnique (non_stale groups)
  unique = IsDistinct-IsUnique (non_stale groups) (keep-IsDistinct (λ g. not g.is_stale) groups d)

  -- Each group that is not stale keeps its target, or gets one in the direction of the request
  -- that its own limit on that side allows.
  pub compute_moves :
      (g : ResourceGroup)
      → In g (non_stale groups)
      → (target_of result g ≡ group_target_capacity g)
        ⊎ (key (upwards target new) (group_target_capacity g)
            <ℤ key (upwards target new) (target_of result g))
          × IsInside (upwards target new) g (target_of result g)
  compute_moves g h =
      rw (the_targets, ← initial_targets-own groups d g h)
        (distribute-Moved (upwards target new) (ceil new) (non_stale groups) unique
          (initial_targets groups) _ g h)

  -- A group whose target was moved ends at most one unit ahead of any group that still has room.
  pub compute_balances :
      (g h : ResourceGroup)
      → In g (non_stale groups)
      → In h (non_stale groups)
      → target_of result g ≢ group_target_capacity g
      → is_constrained (upwards target new) result h ≡ false
      → key (upwards target new) (target_of result g)
        ≤ℤ key (upwards target new) (target_of result h) +ℤ unit
  compute_balances g h hg hh moved free = elim (compute_moves g hg) [
    | inl same ↦ absurd (moved same)
    | inr (far, _) ↦ rw the_targets (
        distribute-IsBalanced (upwards target new) (ceil new) (non_stale groups) unique
          (initial_targets groups) _ g h hg hh
          (rw (the_targets, ← initial_targets-own groups d g hg) at far) (rw the_targets at free))
  ]
