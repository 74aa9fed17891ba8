-- ===== src/PoolManager/Capacity.antt =====
-- `PoolManager.target_capacity`, `fulfilled_capacity` and `_constrain_target_capacity`.
pub mod Laws
use clusterman.Base.{
  ℕ, Bool, true, false, not, List, [], ◌∷◌, ℤ, pos, ◌+ℤ◌, ◌-ℤ◌, neg_ℤ, min_ℤ, max_ℤ, ltb_ℤ, leb_ℤ,
  keep, if◌then◌else◌, eq_ℤ,
}
use clusterman.PoolManager.Defs.{
  ResourceGroup, group_target_capacity, Limits, Result, ok, err, no_resource_groups_found,
  all_resource_groups_are_stale, ◌>>=◌,
}

unfoldable pub sum_by {ℓ} : {A : Type ℓ} → (A → ℤ) → List A → ℤ
sum_by f [] = pos 0
sum_by f (x ∷ xs) = f x +ℤ sum_by f xs

abbrev pub non_stale : List ResourceGroup → List ResourceGroup
non_stale groups = keep (λ g. not g.is_stale) groups

-- `if not non_stale_groups: raise`, else the sum.
sum_or_stale : List ResourceGroup → Result ℤ
sum_or_stale [] = err all_resource_groups_are_stale
sum_or_stale (g ∷ gs) = ok (sum_by group_target_capacity (g ∷ gs))

unfoldable pub target_capacity : List ResourceGroup → Result ℤ
unfolding sum_or_stale
target_capacity [] = err no_resource_groups_found
target_capacity (g ∷ gs) = sum_or_stale (non_stale (g ∷ gs))

unfoldable pub fulfilled_capacity : List ResourceGroup → ℤ
fulfilled_capacity groups = sum_by (λ g. g.fulfilled_capacity) groups

-- The first step of `_constrain_target_capacity`: the limits of the pool.
limit_delta : Limits → (target requested_delta : ℤ) → ℤ
limit_delta l target requested_delta =
    if ltb_ℤ (pos 0) requested_delta
    then min_ℤ (l.max_capacity -ℤ target) requested_delta
    else if ltb_ℤ requested_delta (pos 0)
    then max_ℤ (l.min_capacity -ℤ target) requested_delta
    else pos 0

-- The second step: the weight that may change in one run.
limit_weight : Limits → ℤ → ℤ
limit_weight l delta =
    if ltb_ℤ (pos 0) delta
    then min_ℤ l.max_weight_to_add delta
    else if ltb_ℤ delta (pos 0)
    then max_ℤ (neg_ℤ l.max_weight_to_remove) delta
    else delta

-- The third step: no scaling down while that is prohibited.
limit_scale_down : Bool → ℤ → ℤ
limit_scale_down no_scale_down delta = if no_scale_down then max_ℤ delta (pos 0) else delta

pub constrain : Limits → (target requested : ℤ) → (force no_scale_down : Bool) → ℤ
unfolding limit_delta limit_weight limit_scale_down eq_ℤ
constrain l target requested force no_scale_down =
    let requested_delta = requested -ℤ target in
    let delta =
      limit_scale_down no_scale_down (limit_weight l (limit_delta l target requested_delta)) in
    if eq_ℤ requested_delta delta
    then target +ℤ delta
    else if force
    then target +ℤ requested_delta
    else target +ℤ delta

-- `PoolManager._constrain_target_capacity`
unfoldable pub constrain_target_capacity :
    Limits → List ResourceGroup → (requested : ℤ) → (force no_scale_down : Bool) → Result ℤ
unfolding constrain
constrain_target_capacity l groups requested force no_scale_down = do
  target ← target_capacity groups
  ok (constrain l target requested force no_scale_down)
