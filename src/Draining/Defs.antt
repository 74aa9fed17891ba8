-- ===== src/Draining/Defs.antt =====
-- The data of clusterman/draining/queue.py: hosts, the messages that carry them, and the effects of
-- a client. The bodies of messages are JSON in the source and records here; times are seconds.
use clusterman.Base.{
  ℕ, String, ◌≡◌, refl, Bool, List, Option, none, some, ℤ, Dict, ltb_ℤ, keep, not, or_else,
}

abbrev pub scaling_down : String
scaling_down = "scaling down"

abbrev pub spot_interruption : String
spot_interruption = "spot interruption"

abbrev pub node_migration : String
node_migration = "node migration"

-- `draining_start_time` is the time that its ISO text stands for.
pub record Host : Type 0 where
  pub instance_id : String
  pub hostname : String
  pub group_id : String
  pub ip : String
  pub sender : String
  pub receipt_handle : String
  pub agent_id : String
  pub pool : String
  pub attempt : ℕ
  pub termination_reason : String
  pub draining_start_time : ℤ
  pub scheduler : String

-- A message: its `Sender` attribute and the keys of its body. A body of the termination queue has no
-- key `attempt`.
pub record Message : Type 0 where
  pub sender : String
  pub agent_id : String
  pub attempt : Option ℕ
  pub draining_start_time : ℤ
  pub group_id : String
  pub hostname : String
  pub instance_id : String
  pub ip : String
  pub pool : String
  pub scheduler : String
  pub termination_reason : String

-- `submit_host_for_draining`: what is sent for a host and an attempt.
unfoldable pub drain_message : Host → ℕ → Message
drain_message h attempt = record {
  sender = h.sender;
  agent_id = h.agent_id;
  attempt = some attempt;
  draining_start_time = h.draining_start_time;
  group_id = h.group_id;
  hostname = h.hostname;
  instance_id = h.instance_id;
  ip = h.ip;
  pool = h.pool;
  scheduler = h.scheduler;
  termination_reason = h.termination_reason;
}

-- `submit_host_for_termination`: what is sent for a host.
unfoldable pub termination_message : Host → Message
termination_message h = record {
  sender = h.sender;
  agent_id = h.agent_id;
  attempt = none;
  draining_start_time = h.draining_start_time;
  group_id = h.group_id;
  hostname = h.hostname;
  instance_id = h.instance_id;
  ip = h.ip;
  pool = h.pool;
  scheduler = h.scheduler;
  termination_reason = h.termination_reason;
}

-- `get_host_to_drain` and `get_host_to_terminate`: `Host(sender=…, receipt_handle=…, **body)`, where a
-- missing `attempt` takes its default 1.
unfoldable pub host_of_message : (receipt_handle : String) → Message → Host
host_of_message receipt_handle m = record {
  instance_id = m.instance_id;
  hostname = m.hostname;
  group_id = m.group_id;
  ip = m.ip;
  sender = m.sender;
  receipt_handle = receipt_handle;
  agent_id = m.agent_id;
  pool = m.pool;
  attempt = or_else m.attempt 1;
  termination_reason = m.termination_reason;
  draining_start_time = m.draining_start_time;
  scheduler = m.scheduler;
}

-- What a client does outside: messages sent and deleted, and calls to the schedulers and AWS.
pub data Effect : Type 0 where
  send_drain : Message → (delay_seconds : ℕ) → Effect
  send_termination : Message → (delay_seconds : ℕ) → Effect
  delete_drain delete_termination delete_warning : (receipt_handle : String) → Effect
  mesos_drain mesos_down mesos_up : (hostname ip : String) → Effect
  k8s_drain : (agent_id : String) → (disable_eviction : Bool) → Effect
  k8s_uncordon : (agent_id : String) → Effect
  terminate : (sender group_id instance_id : String) → Effect

-- A call returns whether there was a message, or an exception leaves it.
pub data Ended : Type 0 where
  returned : (message_exist : Bool) → Ended
  raised : Ended

-- `draining_host_ttl_cache` after the call, the effects in their order, and how the call ended.
pub record Outcome : Type 0 where
  pub cache : Dict ℤ
  pub effects : List Effect
  pub ended : Ended

-- `clean_processing_hosts_cache` at time `now`
unfoldable pub clean_processing_hosts_cache : (now : ℤ) → Dict ℤ → Dict ℤ
clean_processing_hosts_cache now cache = keep (λ entry. not (ltb_ℤ entry.1 now)) cache

-- What is sent for a host comes back as the host, under the receipt of the delivery and with the
-- attempt that was sent; by way of the termination queue the attempt is 1 again.
pub host_of_message-round_trip :
    (h : Host) (attempt : ℕ) (receipt : String)
    → (host_of_message receipt (drain_message h attempt)
        ≡ record h { receipt_handle = receipt; attempt = attempt })
      × (host_of_message receipt (termination_message h)
          ≡ record h { receipt_handle = receipt; attempt = 1 })
unfolding host_of_message drain_message termination_message
host_of_message-round_trip h attempt receipt = (refl, refl)
