-- ===== src/Interfaces.antt =====
-- clusterman/interfaces/types.py: what is known of an agent, an instance and a node.
use clusterman.Base.{ℕ, String, Bool, Option, ℤ}
use clusterman.Resources.{ClustermanResources}

pub data AgentState : Type 0 where
  idle orphaned running unknown : AgentState

pub record AgentMetadata : Type 0 where
  pub agent_id : String
  pub allocated_resources : ClustermanResources
  pub batch_task_count : ℕ
  pub is_safe_to_kill : Bool
  pub is_draining : Bool
  pub state : AgentState
  pub task_count : ℕ
  pub total_resources : ClustermanResources
  pub kernel : String
  pub lsbrelease : String

-- clusterman/aws/markets.py
pub record InstanceMarket : Type 0 where
  pub instance_type : String
  pub az : Option String

-- `weight` counts thousandths of a capacity unit, `uptime` is `uptime.total_seconds()`.
pub record InstanceMetadata : Type 0 where
  pub market : InstanceMarket
  pub weight : ℤ
  pub group_id : String
  pub hostname : Option String
  pub instance_id : String
  pub is_cordoned : Bool
  pub ip_address : Option String
  pub is_stale : Bool
  pub state : String
  pub uptime : ℤ

pub record ClusterNodeMetadata : Type 0 where
  pub agent : AgentMetadata
  pub instance : InstanceMetadata
