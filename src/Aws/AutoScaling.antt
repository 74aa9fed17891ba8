-- ===== src/Aws/AutoScaling.antt =====
-- clusterman/aws/auto_scaling_resource_group.py: capacities, weights and staleness of an auto scaling
-- group. Sizes are whole numbers, and a target capacity counts thousandths.
use clusterman.Base.{
  ℕ, ◌+◌, ◌*◌, ◌/◌, ◌≤◌, ◌<◌, String, ◌≡◌, refl, Bool, true, false, not, List, [], ◌∷◌, map, Option,
  none, some, ℤ, pos, sub_ℕ, any, keep, length, ltb, or_else, str_eq, arith, if◌then◌else◌,
}

-- An entry of `Instances`; the weight is what `int` reads of it.
pub record GroupInstance : Type 0 where
  pub instance_id : String
  pub instance_type : String
  pub weighted_capacity : Option ℕ

-- `_group_config` and `_stale_instance_ids`
pub record AutoScalingGroup : Type 0 where
  pub group_id : String
  pub availability_zones : List String
  pub instances : List GroupInstance
  pub min_size : ℕ
  pub max_size : ℕ
  pub desired_capacity : ℕ
  pub stale_instance_ids : List String

-- `int(instance.get("WeightedCapacity", "1"))`
abbrev pub weight_of : GroupInstance → ℕ
weight_of i = or_else i.weighted_capacity 1

abbrev pub sum_weights : List GroupInstance → ℕ
sum_weights [] = 0
sum_weights (i ∷ is) = weight_of i + sum_weights is

abbrev pub has_id : String → List String → Bool
has_id k ids = any (λ i. str_eq i k) ids

unfoldable pub instance_ids : AutoScalingGroup → List String
instance_ids g = map (λ i. i.instance_id) g.instances

-- `_get_stale_instance_ids`, of the resources that are tagged as stale
unfoldable pub get_stale_instance_ids : AutoScalingGroup → (tagged : List String) → List String
unfolding instance_ids
get_stale_instance_ids g tagged = keep (λ k. has_id k (instance_ids g)) tagged

unfoldable pub is_stale_instance : AutoScalingGroup → GroupInstance → Bool
is_stale_instance g i = has_id i.instance_id g.stale_instance_ids

unfoldable pub fulfilled_capacity : AutoScalingGroup → ℕ
fulfilled_capacity g = sum_weights g.instances

unfoldable pub stale_capacity : AutoScalingGroup → ℕ
unfolding is_stale_instance
stale_capacity g = sum_weights (keep (is_stale_instance g) g.instances)

-- `_target_capacity`; the group is never stale, so it is its `target_capacity`.
unfoldable pub target_capacity : AutoScalingGroup → ℤ
unfolding stale_capacity
target_capacity g = sub_ℕ g.desired_capacity (stale_capacity g)

unfoldable pub status : AutoScalingGroup → String
status g = if ltb 0 (length g.stale_instance_ids) then "rolling" else "active"

-- The weight of the first instance of the type
unfoldable pub weight_of_type : String → List GroupInstance → ℕ
weight_of_type type [] = 1
weight_of_type type (i ∷ is) =
    let rest = weight_of_type type is in if str_eq type i.instance_type then weight_of i else rest

unfoldable pub market_weight : AutoScalingGroup → (instance_type : String) (az : Option String) → ℕ
unfolding weight_of_type
market_weight g instance_type none = 0
market_weight g instance_type (some az) =
    if has_id az g.availability_zones then weight_of_type instance_type g.instances else 0

-- The size that `modify_target_capacity` asks AWS for
unfoldable pub new_desired_capacity : AutoScalingGroup → (target : ℕ) → ℕ
unfolding stale_capacity
new_desired_capacity g target =
    let with_stale = target + stale_capacity g * 1000 in
    if ltb (g.max_size * 1000) with_stale
    then g.max_size
    else if ltb with_stale (g.min_size * 1000)
    then g.min_size
    else with_stale / 1000

-- The group after `modify_target_capacity`, as AWS has it after `set_desired_capacity`
unfoldable pub modify_target_capacity :
    AutoScalingGroup → (target : ℕ) → (dry_run : Bool) → AutoScalingGroup
unfolding new_desired_capacity
modify_target_capacity g target dry_run =
    if dry_run then g else record g { desired_capacity = new_desired_capacity g target }

abbrev desired : (low high target stale : ℕ) → ℕ
desired low high target stale =
    if ltb (high * 1000) (target + stale * 1000)
    then high
    else if ltb (target + stale * 1000) (low * 1000)
    then low
    else (target + stale * 1000) / 1000

desired-limits :
    (low high target stale : ℕ)
    → low ≤ high
    → (low ≤ desired low high target stale) × (desired low high target stale ≤ high)
desired-limits low high target stale h = (ground arith, ground arith)

desired-reports :
    (low high target stale : ℕ)
    → low * 1000 ≤ target + stale * 1000
    → target + stale * 1000 ≤ high * 1000
    → sub_ℕ (desired low high target stale) stale ≡ pos (target / 1000)
desired-reports low high target stale l h = ground arith

-- A dry run changes nothing; otherwise the size asked for is within the limits of the group, and where
-- they leave room for the target and the stale instances, the target capacity that the group reports
-- afterwards is the one that was set, cut to a whole number.
pub modify_target_capacity-reports :
    (g : AutoScalingGroup) (target : ℕ)
    → g.min_size ≤ g.max_size
    → (modify_target_capacity g target true ≡ g)
      × (g.min_size ≤ (modify_target_capacity g target false).desired_capacity)
      × ((modify_target_capacity g target false).desired_capacity ≤ g.max_size)
      × (g.min_size * 1000 ≤ target + stale_capacity g * 1000
          → target + stale_capacity g * 1000 ≤ g.max_size * 1000
          → target_capacity (modify_target_capacity g target false) ≡ pos (target / 1000))
unfolding modify_target_capacity new_desired_capacity target_capacity
modify_target_capacity-reports g target h = (
  refl,
  (desired-limits g.min_size g.max_size target (stale_capacity g) h).0,
  (desired-limits g.min_size g.max_size target (stale_capacity g) h).1,
  λ low high. desired-reports g.min_size g.max_size target (stale_capacity g) low high,
)

sum_weights-split :
    (p : GroupInstance → Bool) (is : List GroupInstance)
    → sum_weights (keep p is) + sum_weights (keep (λ i. not (p i)) is) ≡ sum_weights is
sum_weights-split p [] = refl
sum_weights-split p (i ∷ is) = ground (arith, sum_weights-split p is)

rolling :
    (ids : List String) (is : List GroupInstance)
    → 0 < sum_weights (keep (λ i. has_id i.instance_id ids) is)
    → ltb 0 (length ids) ≡ true
rolling [] is h = absurd (none_kept is h)
  where
    none_kept :
        (js : List GroupInstance) → 0 < sum_weights (keep (λ i. has_id i.instance_id []) js) → ⊥
    none_kept [] l = ground arith
    none_kept (j ∷ js) l = none_kept js l
rolling (k ∷ ids) is h = ground arith

-- The fulfilled capacity is that of the stale instances and of the others, and a group with stale
-- capacity is rolling.
pub fulfilled_capacity-split :
    (g : AutoScalingGroup)
    → (stale_capacity g + sum_weights (keep (λ i. not (is_stale_instance g i)) g.instances)
        ≡ fulfilled_capacity g)
      × (0 < stale_capacity g → status g ≡ "rolling")
unfolding stale_capacity fulfilled_capacity status
fulfilled_capacity-split g = (
  sum_weights-split (is_stale_instance g) g.instances,
  λ l. rw (rolling g.stale_instance_ids g.instances l),
)
