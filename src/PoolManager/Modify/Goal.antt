-- ===== src/PoolManager/Modify/Goal.antt =====
-- What a change of the target capacity of a pool comes to: the new capacity, the targets of the groups, and the
-- calls that set them.
use clusterman.Base.{String, ◌≡◌, ◌≢◌, Bool, true, false, Option, some, ℤ, In, Dict}
use clusterman.Interfaces.{AgentMetadata}
use clusterman.PoolManager.Defs.{ResourceGroup, group_target_capacity, PoolManager}
use clusterman.PoolManager.Modify.{Call, modify_group, group_by_id}

-- The call sets the target of a group.
abbrev is_setting : Call → Bool
is_setting (modify_group group_id target dry_run) = true
is_setting _ = false

module _ (agent_of : Option String → AgentMetadata) (m : PoolManager) where
  -- The target of the group with the id is set, since it is another than the one the group has.
  abbrev pub IsWanted : (targets : Dict ℤ) (k : String) (target : ℤ) → Type 0
  IsWanted targets k target =
      In (k, target) targets
      × ((g : ResourceGroup) × (group_by_id k m.resource_groups ≡ some g)
          × (group_target_capacity g ≢ target))
