-- ===== src/PoolManager/Targets.antt =====
-- `PoolManager._compute_new_resource_group_targets`: the target of each resource group.
-- `coeff` is 1 or -1 in the source; here `up` is its sign, and one step is `unit`, a whole capacity.
pub mod Step
pub mod Loop
pub mod Balance
pub mod Initial
pub mod Whole
use Prim.Native.String.{compare as compare_text}
use Prim.Native.Nat.{Ordering}
use clusterman.Base.{
  ℕ, zero, suc, ◌+◌, ◌-◌, ◌*◌, ◌/◌, String, Bool, true, false, not, List, [], ◌∷◌, Option, none,
  some, ℤ, pos, negsuc, pos_part, neg_part, ◌+ℤ◌, ◌-ℤ◌, neg_ℤ, ltb_ℤ, keep, if◌then◌else◌, Dict,
  get, put, or_else,
}
use clusterman.PoolManager.Defs.{
  ResourceGroup, group_target_capacity, Bound, exceeds_ℤ, Result, ok, ◌>>=◌,
}
use clusterman.PoolManager.Capacity.{target_capacity, non_stale, sum_by}

-- One capacity unit, in thousandths.
abbrev pub unit : ℤ
unit = pos 1000

-- `math.ceil(x)`
pub ceil : ℤ → ℤ
ceil (pos n) = pos ((n + 999) / 1000 * 1000)
ceil (negsuc n) = neg_ℤ (pos (suc n / 1000 * 1000))

-- `coeff * t`, of which only the order matters
pub key : Bool → ℤ → ℤ
key up t = if up then t else neg_ℤ t

-- `t + coeff`
unfoldable pub step : Bool → ℤ → ℤ
step up t = if up then t +ℤ unit else t -ℤ unit

-- `targets[g.id]`: the keys of `targets` are the ids of the groups, so the default is never taken
unfoldable pub target_of : Dict ℤ → ResourceGroup → ℤ
target_of targets g = or_else (get g.id targets) (pos 0)

unfoldable pub is_constrained : Bool → Dict ℤ → ResourceGroup → Bool
is_constrained up targets g =
    if up
    then exceeds_ℤ (step up (target_of targets g)) g.max_capacity
    else ltb_ℤ (step up (target_of targets g)) g.min_capacity

text_lt : String → String → Bool
text_lt s t = elim (compare_text s t) [ Ordering.lt ↦ true | _ ↦ false ]

-- `(coeff * targets[g.id], g.id) < (coeff * targets[h.id], h.id)`
precedes : Bool → Dict ℤ → ResourceGroup → ResourceGroup → Bool
precedes up targets g h =
    let a = key up (target_of targets g) in
    let b = key up (target_of targets h) in
    if ltb_ℤ a b then true else if ltb_ℤ b a then false else text_lt g.id h.id

-- `sorted(groups, key=...)[0]`: the first of the least
least : Bool → Dict ℤ → ResourceGroup → List ResourceGroup → ResourceGroup
least up targets best [] = best
least up targets best (g ∷ gs) =
    least up targets (if precedes up targets g best then g else best) gs

first : Bool → Dict ℤ → List ResourceGroup → Option ResourceGroup
first up targets [] = none
first up targets (g ∷ gs) = some (least up targets g gs)

pub choose : Bool → Dict ℤ → List ResourceGroup → Option ResourceGroup
unfolding first
choose up targets groups = first up targets (keep (λ g. not (is_constrained up targets g)) groups)

-- `sum(targets.values())`
pub sum_values : Dict ℤ → ℤ
sum_values [] = pos 0
sum_values ((k, v) ∷ d) = v +ℤ sum_values d

-- `sum(targets.values()) * coeff < math.ceil(new_target_capacity) * coeff`
pub unmet : Bool → ℤ → Dict ℤ → Bool
unmet up goal targets = ltb_ℤ (key up (sum_values targets)) (key up goal)

-- The `while` loop, on fuel.
pub distribute : ℕ → Bool → ℤ → List ResourceGroup → Dict ℤ → Dict ℤ
distribute zero up goal groups targets = targets
distribute (suc fuel) up goal groups targets = elim (unmet up goal targets) [
  | false ↦ targets
  | true ↦ elim (choose up targets groups) [
    | none ↦ targets
    | some g ↦ distribute fuel up goal groups (put g.id (step up (target_of targets g)) targets)
  ]
]

-- `{g.id: g.target_capacity for g in groups}`, put into a dictionary that is there
unfoldable pub own_targets : List ResourceGroup → Dict ℤ → Dict ℤ
own_targets [] targets = targets
own_targets (g ∷ gs) targets = own_targets gs (put g.id (group_target_capacity g) targets)

-- `for stale_group in stale_groups: targets[stale_group.id] = 0`
pub zero_targets : List ResourceGroup → Dict ℤ → Dict ℤ
zero_targets [] targets = targets
zero_targets (g ∷ gs) targets = zero_targets gs (put g.id (pos 0) targets)

pub initial_targets : List ResourceGroup → Dict ℤ
initial_targets groups =
    zero_targets (keep (λ g. g.is_stale) groups) (own_targets (non_stale groups) [])

-- `coeff > 0`
unfoldable pub upwards : (target new_target_capacity : ℤ) → Bool
upwards target new_target_capacity = not (ltb_ℤ new_target_capacity target)

-- Each round moves the sum by a unit, so the distance to the goal is more rounds than enough.
pub enough_fuel : Bool → ℤ → Dict ℤ → ℕ
enough_fuel up goal targets = pos_part (key up goal -ℤ key up (sum_values targets)) + 1

unfoldable pub compute_new_resource_group_targets : List ResourceGroup → ℤ → Result (Dict ℤ)
unfolding distribute choose least precedes text_lt is_constrained target_of step key sum_values
    unmet initial_targets own_targets zero_targets enough_fuel ceil upwards
compute_new_resource_group_targets groups new_target_capacity = do
  target ← target_capacity groups
  let up = upwards target new_target_capacity
  let targets = initial_targets groups
  let goal = ceil new_target_capacity
  ok (distribute (enough_fuel up goal targets) up goal (non_stale groups) targets)
