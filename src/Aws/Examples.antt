-- ===== src/Aws/Examples.antt =====
-- An auto scaling group of three instances, one of them stale.
use clusterman.Base.{
  ◌+◌, ◌*◌, ◌/◌, ◌≤◌, String, ◌≡◌, ◌≢◌, Bool, true, false, Option, none, str_eq, if◌then◌else◌,
  List, [], ◌∷◌, some, pos, In, length, arith,
}
use clusterman.Aws.AutoScaling.{
  GroupInstance, AutoScalingGroup, stale_capacity, target_capacity, modify_target_capacity,
  modify_target_capacity-reports,
}
use clusterman.Aws.Termination.{
  Terminated, terminate_instances_by_id, all_of, terminate_instances_by_id-owned,
}

abbrev instance_with : String → GroupInstance
instance_with k = record { instance_id = k; instance_type = "m5.large"; weighted_capacity = some 2 }

abbrev group : AutoScalingGroup
group = record {
  group_id = "asg";
  availability_zones = "us-west-2a" ∷ [];
  instances = instance_with "i-1" ∷ instance_with "i-2" ∷ instance_with "i-3" ∷ [];
  min_size = 1;
  max_size = 20;
  desired_capacity = 6;
  stale_instance_ids = "i-2" ∷ [];
}

modify_target_capacity-reports_example :
    (modify_target_capacity group 7500 true ≡ group)
    × (1 ≤ (modify_target_capacity group 7500 false).desired_capacity)
    × ((modify_target_capacity group 7500 false).desired_capacity ≤ 20)
    × (1000 ≤ 7500 + stale_capacity group * 1000
        → 7500 + stale_capacity group * 1000 ≤ 20000
        → target_capacity (modify_target_capacity group 7500 false) ≡ pos (7500 / 1000))
modify_target_capacity-reports_example = modify_target_capacity-reports group 7500 (ground arith)

-- EC2 does not describe the last instance.
abbrev describe_two : String → Option Bool
describe_two k = if str_eq k "i-3" then none else some true

abbrev terminate_three : Terminated
terminate_three =
    terminate_instances_by_id ("i-1" ∷ "i-2" ∷ "i-3" ∷ []) describe_two (λ ks. ks)
      ("i-1" ∷ "i-x" ∷ "i-2" ∷ "i-3" ∷ []) 2

terminate_instances_by_id-owned_example :
    ((k : String)
      → In k ("i-1" ∷ "i-2" ∷ "i-3" ∷ [])
      → In k ("i-1" ∷ "i-x" ∷ "i-2" ∷ "i-3" ∷ [])
      → describe_two k ≢ some false
      → In k (all_of terminate_three.calls))
    × ((k : String)
        → In k (all_of terminate_three.calls)
        → In k ("i-1" ∷ "i-2" ∷ "i-3" ∷ [])
          × In k ("i-1" ∷ "i-x" ∷ "i-2" ∷ "i-3" ∷ [])
          × (describe_two k ≢ some false)
          × (describe_two k ≡ none → terminate_three.terminated_instance_ids ≡ none))
    × ((b : List String) → In b terminate_three.calls → length b ≤ 2)
terminate_instances_by_id-owned_example =
    terminate_instances_by_id-owned ("i-1" ∷ "i-2" ∷ "i-3" ∷ []) describe_two (λ ks. ks)
      ("i-1" ∷ "i-x" ∷ "i-2" ∷ "i-3" ∷ []) 1
