-- ===== src/PoolManager/Capacity/Laws.antt =====
-- What `_constrain_target_capacity` promises.
use clusterman.Base.{
  ◌≡◌, ap, ◌⊎◌, Bool, true, false, ℤ, pos, pos_part, neg_part, ◌+ℤ◌, ◌-ℤ◌, neg_ℤ, min_ℤ, max_ℤ,
  ◌≤ℤ◌, ◌<ℤ◌, arith, +ℤ_parts, -ℤ_parts, neg_ℤ_parts, eq_of_parts, List, [], ◌∷◌, eq_ℤ,
}
use clusterman.PoolManager.Defs.{Limits, ResourceGroup, group_target_capacity, ok}
use clusterman.PoolManager.Capacity.{
  constrain, limit_delta, limit_weight, limit_scale_down, target_capacity, sum_or_stale, non_stale,
  sum_by,
}

pub record IsSound (l : Limits) : Type 0 where
  pub ordered : l.min_capacity ≤ℤ l.max_capacity
  pub adds : pos 0 ≤ℤ l.max_weight_to_add
  pub removes : pos 0 ≤ℤ l.max_weight_to_remove

module _ (l : Limits) (target requested : ℤ) where
  -- A forced request is taken as it is.
  pub constrain-force :
      (no_scale_down : Bool) → constrain l target requested true no_scale_down ≡ requested
  unfolding constrain eq_ℤ
  constrain-force no_scale_down = ground (
    arith,
    +ℤ_parts target (requested -ℤ target),
    -ℤ_parts requested target,
    eq_of_parts (target +ℤ (requested -ℤ target)) requested,
    eq_of_parts (requested -ℤ target) (
        limit_scale_down no_scale_down
          (limit_weight l (limit_delta l target (requested -ℤ target)))),
  )

  limit_delta_bounds :
      (d : ℤ)
      → l.min_capacity ≤ℤ target
      → target ≤ℤ l.max_capacity
      → (l.min_capacity -ℤ target ≤ℤ limit_delta l target d)
        × (limit_delta l target d ≤ℤ l.max_capacity -ℤ target)
  unfolding limit_delta min_ℤ max_ℤ
  limit_delta_bounds d lo hi =
      ground (arith, -ℤ_parts l.min_capacity target, -ℤ_parts l.max_capacity target)

  limit_weight_bounds :
      (d : ℤ)
      → pos 0 ≤ℤ l.max_weight_to_add
      → pos 0 ≤ℤ l.max_weight_to_remove
      → (neg_ℤ l.max_weight_to_remove ≤ℤ limit_weight l d)
        × (limit_weight l d ≤ℤ l.max_weight_to_add)
        × ((pos 0 ≤ℤ d) × (pos 0 ≤ℤ limit_weight l d) × (limit_weight l d ≤ℤ d)
            ⊎ (d ≤ℤ pos 0) × (limit_weight l d ≤ℤ pos 0) × (d ≤ℤ limit_weight l d))
  unfolding limit_weight min_ℤ max_ℤ
  limit_weight_bounds d a r = ground (arith, neg_ℤ_parts l.max_weight_to_remove)

  -- The change that is made when the request is not forced.
  delta_of : Bool → ℤ
  delta_of no_scale_down =
      limit_scale_down no_scale_down (limit_weight l (limit_delta l target (requested -ℤ target)))

  constrain-unforced :
      (no_scale_down : Bool)
      → constrain l target requested false no_scale_down ≡ target +ℤ delta_of no_scale_down
  unfolding constrain delta_of eq_ℤ
  constrain-unforced no_scale_down = ground arith

  -- Without force a sound pool that is inside its limits stays inside its limits.
  pub constrain_within_limits :
      (no_scale_down : Bool)
      → IsSound l
      → l.min_capacity ≤ℤ target
      → target ≤ℤ l.max_capacity
      → (l.min_capacity ≤ℤ constrain l target requested false no_scale_down)
        × (constrain l target requested false no_scale_down ≤ℤ l.max_capacity)
  unfolding delta_of limit_scale_down max_ℤ
  constrain_within_limits no_scale_down s lo hi =
      let d = limit_delta l target (requested -ℤ target) in
      ground (
        arith,
        constrain-unforced no_scale_down,
        +ℤ_parts target (delta_of no_scale_down),
        limit_delta_bounds (requested -ℤ target) lo hi,
        limit_weight_bounds d s.adds s.removes,
        -ℤ_parts l.min_capacity target,
        -ℤ_parts l.max_capacity target,
      )

  -- Without force one run moves the target by the two weights at most, from any target, and never
  -- down while scaling down is prohibited.
  pub constrain_step :
      (no_scale_down : Bool)
      → IsSound l
      → (target -ℤ l.max_weight_to_remove ≤ℤ constrain l target requested false no_scale_down)
        × (constrain l target requested false no_scale_down ≤ℤ target +ℤ l.max_weight_to_add)
        × ((no_scale_down ≡ false) ⊎ (target ≤ℤ constrain l target requested false no_scale_down))
  unfolding delta_of limit_scale_down max_ℤ
  constrain_step no_scale_down s =
      let d = limit_delta l target (requested -ℤ target) in
      ground (
        arith,
        constrain-unforced no_scale_down,
        +ℤ_parts target (delta_of no_scale_down),
        +ℤ_parts target l.max_weight_to_add,
        -ℤ_parts target l.max_weight_to_remove,
        neg_ℤ_parts l.max_weight_to_remove,
        limit_weight_bounds d s.adds s.removes,
      )

  -- A pool above its maximum that asks for still more goes down, and not below the maximum.
  pub constrain_above_maximum :
      IsSound l
      → l.max_capacity <ℤ target
      → target <ℤ requested
      → pos 0 <ℤ l.max_weight_to_remove
      → (l.max_capacity ≤ℤ constrain l target requested false false)
        × (constrain l target requested false false <ℤ target)
  unfolding delta_of limit_scale_down limit_delta limit_weight min_ℤ max_ℤ
  constrain_above_maximum s above more removable = ground (
    arith,
    constrain-unforced false,
    +ℤ_parts target (delta_of false),
    -ℤ_parts requested target,
    -ℤ_parts l.max_capacity target,
    neg_ℤ_parts l.max_weight_to_remove,
  )

  delta_of-granted :
      (no_scale_down : Bool)
      → l.min_capacity ≤ℤ requested
      → requested ≤ℤ l.max_capacity
      → requested ≤ℤ target +ℤ l.max_weight_to_add
      → target -ℤ l.max_weight_to_remove ≤ℤ requested
      → (no_scale_down ≡ true → target ≤ℤ requested)
      → delta_of no_scale_down ≡ requested -ℤ target
  unfolding delta_of
  delta_of-granted no_scale_down lo hi adds removes down = rw (within, light) allowed
    where
      d : ℤ
      d = requested -ℤ target

      within : limit_delta l target d ≡ d
      within =
          unfold limit_delta min_ℤ max_ℤ in
          ground (
            arith,
            -ℤ_parts requested target,
            -ℤ_parts l.min_capacity target,
            -ℤ_parts l.max_capacity target,
            eq_of_parts d (pos 0),
            eq_of_parts d (l.min_capacity -ℤ target),
            eq_of_parts d (l.max_capacity -ℤ target),
          )

      light : limit_weight l d ≡ d
      light =
          unfold limit_weight min_ℤ max_ℤ in
          ground (
            arith,
            -ℤ_parts requested target,
            +ℤ_parts target l.max_weight_to_add,
            -ℤ_parts target l.max_weight_to_remove,
            neg_ℤ_parts l.max_weight_to_remove,
            eq_of_parts d (neg_ℤ l.max_weight_to_remove),
            eq_of_parts d l.max_weight_to_add,
          )

      allowed : limit_scale_down no_scale_down d ≡ d
      allowed = unfold limit_scale_down max_ℤ in ground (arith, -ℤ_parts requested target)

  -- A request that breaks no limit is granted unchanged.
  pub constrain-granted :
      (force no_scale_down : Bool)
      → l.min_capacity ≤ℤ requested
      → requested ≤ℤ l.max_capacity
      → requested ≤ℤ target +ℤ l.max_weight_to_add
      → target -ℤ l.max_weight_to_remove ≤ℤ requested
      → (no_scale_down ≡ true → target ≤ℤ requested)
      → constrain l target requested force no_scale_down ≡ requested
  constrain-granted true no_scale_down lo hi adds removes down = constrain-force no_scale_down
  constrain-granted false no_scale_down lo hi adds removes down = omega (
    arith,
    eq_of_parts,
    ap pos_part (whole),
    ap neg_part (whole),
    +ℤ_parts target (requested -ℤ target),
    -ℤ_parts requested target,
  )
    where
      whole : constrain l target requested false no_scale_down ≡ target +ℤ (requested -ℤ target)
      whole =
          rw (constrain-unforced no_scale_down)
            (ap (◌+ℤ◌ target) (delta_of-granted no_scale_down lo hi adds removes down))

sum_or_stale-sum :
    (groups : List ResourceGroup) (t : ℤ)
    → sum_or_stale groups ≡ ok t
    → sum_by group_target_capacity groups ≡ t
unfolding sum_or_stale
sum_or_stale-sum [] t e = cc
sum_or_stale-sum (g ∷ gs) t e = cc

pub target_capacity-sum :
    (groups : List ResourceGroup) (t : ℤ)
    → target_capacity groups ≡ ok t
    → sum_by group_target_capacity (non_stale groups) ≡ t
unfolding target_capacity
target_capacity-sum [] t e = cc
target_capacity-sum (g ∷ gs) t e = sum_or_stale-sum (non_stale (g ∷ gs)) t e
