-- ===== src/PoolManager/Defs.antt =====
-- The state of `PoolManager` (clusterman/autoscaler/pool_manager.py) and of the resource groups that
-- it reads (clusterman/interfaces/resource_group.py, clusterman/aws/aws_resource_group.py).
-- A capacity or a weight is a float in the source and an integer count of thousandths here.
use clusterman.Base.{ℕ, String, Bool, List, Option, ℤ, pos, ltb_ℤ, ltb, if◌then◌else◌, false}
use clusterman.Interfaces.{InstanceMetadata}

-- A number or `float("inf")`.
pub data Bound (A : Type 0) : Type 0 where
  finite : A → Bound A
  infinite : Bound A

-- `a > bound`
abbrev pub exceeds : ℕ → Bound ℕ → Bool
exceeds a (finite b) = ltb b a
exceeds a infinite = false

-- `a > bound`, for capacities
abbrev pub exceeds_ℤ : ℤ → Bound ℤ → Bool
exceeds_ℤ a (finite b) = ltb_ℤ b a
exceeds_ℤ a infinite = false

pub record ResourceGroup : Type 0 where
  pub id : String
  pub own_target_capacity : ℤ
  pub fulfilled_capacity : ℤ
  pub is_stale : Bool
  pub stale_instance_ids : List String
  pub min_capacity : ℤ
  pub max_capacity : Bound ℤ
  pub instances : List InstanceMetadata

-- `AWSResourceGroup.target_capacity`
unfoldable pub group_target_capacity : ResourceGroup → ℤ
group_target_capacity g = if g.is_stale then pos 0 else g.own_target_capacity

-- What `PoolManager.__init__` reads from the pool's configuration.
pub record Limits : Type 0 where
  pub min_capacity : ℤ
  pub max_capacity : ℤ
  pub max_tasks_to_kill : Bound ℕ
  pub max_weight_to_add : ℤ
  pub max_weight_to_remove : ℤ
  pub min_node_scalein_uptime : ℤ

-- The fields of `PoolManager`; `resource_groups` is the dictionary of groups by their ids.
pub record PoolManager : Type 0 where
  pub limits : Limits
  pub resource_groups : List ResourceGroup
  pub non_orphan_fulfilled_capacity : ℤ
  pub draining_enabled : Bool

pub data PoolManagerError : Type 0 where
  no_resource_groups_found all_resource_groups_are_stale no_resource_groups_available key_error :
      PoolManagerError

-- What a method returns, or the exception that leaves it.
pub data Result {ℓ} (Value : Type ℓ) : Type ℓ where
  err : (raised : PoolManagerError) → Result Value
  ok : (returned : Value) → Result Value

-- An exception skips what follows.
infixl 5 ◌>>=◌
abbrev pub ◌>>=◌ {ℓ₁ ℓ₂} :
    {Value : Type ℓ₁} {Next : Type ℓ₂} (result : Result Value) (next : Value → Result Next)
    → Result Next
result >>= next = elim result [ err raised ↦ err raised | ok value ↦ next value ]

-- `d[k]` where the key may be missing.
abbrev pub or_key_error {ℓ} : {A : Type ℓ} → Option A → Result A
or_key_error Option.none = err key_error
or_key_error (Option.some a) = ok a
