-- ===== src/Draining/Examples.antt =====
-- Deliveries on which the theorems about clusterman/draining/queue.py are run.
use clusterman.Base.{
  String, ◌≡◌, refl, inl, inr, ◌↔◌, true, false, [], ◌∷◌, Option, none, some, pos, arith, In, has,
  ◌-ℤ◌,
}
use clusterman.Draining.Defs.{
  Host, Message, send_drain, send_termination, delete_drain, delete_termination, raised,
  drain_message, termination_message, host_of_message,
}
use clusterman.Draining.Lookup.{Described, instances, found, Request, host_from_instance_id}
use clusterman.Draining.Drain.{Environment, process_drain_queue, is_skipped}
use clusterman.Draining.Drain.Laws.{
  IsSettled, IsKubernetesDrain, IsTerminationDue, process_drain_queue-IsSettled,
}
use clusterman.Draining.Drain.Deliveries.{
  IsRedrain, process_drain_queue-terminates, process_drain_queue-redrains,
  process_drain_queue_after_exception,
}
use clusterman.Draining.Warning.{
  WarningEnvironment, warned_host, process_warning_queue, IsWarned, process_warning_queue-IsWarned,
}
use clusterman.Draining.Termination.{
  Terminates, process_termination_queue, IsTerminated, process_termination_queue-deletes,
}

abbrev host : Host
host = record {
  instance_id = "i-1";
  hostname = "node-1";
  group_id = "asg-1";
  ip = "10.0.0.1";
  sender = "asg";
  receipt_handle = "r1";
  agent_id = "ip-10-0-0-1";
  pool = "default";
  attempt = 1;
  termination_reason = "scaling down";
  draining_start_time = pos 1000;
  scheduler = "kubernetes";
}

abbrev message : Message
message = record {
  sender = "asg";
  agent_id = "ip-10-0-0-1";
  attempt = some 1;
  draining_start_time = pos 1000;
  group_id = "asg-1";
  hostname = "node-1";
  instance_id = "i-1";
  ip = "10.0.0.1";
  pool = "default";
  scheduler = "kubernetes";
  termination_reason = "scaling down";
}

abbrev described : (private_dns_name : Option String) → Described
described private_dns_name = instances (
    record {
      tags = some (
          record { key = "KubernetesCluster"; value = "west" }
          ∷ record { key = "aws:autoscaling:groupName"; value = "asg-1" }
          ∷ []);
      private_ip_address = some "10.0.0.1";
      private_dns_name = private_dns_name;
    }
    ∷ [])

abbrev gethostbyaddr : String → Option String
gethostbyaddr ip = some "node-1"

-- The connector cannot drain the node yet.
abbrev environment : (private_dns_name : Option String) → Environment
environment private_dns_name = record {
  now = pos 1600;
  checked_at = pos 1600;
  described_at = pos 1600;
  described = described private_dns_name;
  gethostbyaddr = gethostbyaddr;
  force_terminate = true;
  draining_time_threshold_seconds = pos 1800;
  redraining_delay_seconds = 15;
  drain_termination_timeout_seconds = λ _. 90;
  connected = true;
  drain_node = λ _ _. false;
}

process_drain_queue-IsSettled_example :
    IsSettled "r1" (process_drain_queue (environment none) [] (some ("r1", message)))
process_drain_queue-IsSettled_example =
    process_drain_queue-IsSettled (environment none) [] "r1" message

message-IsKubernetesDrain : IsKubernetesDrain [] (host_of_message "r1" message)
unfolding IsKubernetesDrain is_skipped host_of_message has
message-IsKubernetesDrain = (refl, refl, refl)

process_drain_queue-terminates_example :
    In
      (send_termination (termination_message (host_of_message "r1" message)) 0)
      (process_drain_queue (environment none) [] (some ("r1", message))).effects
    ↔ IsTerminationDue (environment none) (host_of_message "r1" message)
process_drain_queue-terminates_example =
    process_drain_queue-terminates (environment none) [] "r1" message message-IsKubernetesDrain

redrained :
    In
      (send_drain (record message { attempt = some 2 }) 15)
      (process_drain_queue (environment none) [] (some ("r1", message))).effects
unfolding process_drain_queue has host_of_message ◌-ℤ◌ drain_message
redrained = inr (inl refl)

process_drain_queue-redrains_example :
    IsRedrain
      (environment none)
      (host_of_message "r1" message)
      (record message { attempt = some 2 })
    × (is_skipped
          (("i-1", pos 3400) ∷ [])
          (host_of_message "r2" (record message { attempt = some 2 }))
        ≡ false)
process_drain_queue-redrains_example =
    process_drain_queue-redrains (environment none) [] "r1" message
      (record message { attempt = some 2 }) 15 (("i-1", pos 3400) ∷ []) "r2" (omega arith) redrained

-- Sent for an instance that has not joined the cluster
abbrev orphan_message : Message
orphan_message = record message { agent_id = "" }

failed : (process_drain_queue (environment none) [] (some ("r1", orphan_message))).ended ≡ raised
unfolding process_drain_queue has host_of_message host_from_instance_id
failed = refl

process_drain_queue_after_exception_example :
    (process_drain_queue
      (environment (some "ip-10-0-0-1"))
      (process_drain_queue (environment none) [] (some ("r1", orphan_message))).cache
      (some ("r2", orphan_message))).effects
    ≡ delete_drain "r2" ∷ []
process_drain_queue_after_exception_example =
    process_drain_queue_after_exception (environment none) (environment (some "ip-10-0-0-1")) []
      "r1" "r2" orphan_message (omega arith) failed

abbrev request : Request
request = record {
  receipt_handle = "w1";
  instance_id = "i-1";
  pool = none;
  termination_reason = none;
}

abbrev found_host : Host
found_host = record host {
  receipt_handle = "w1";
  pool = "";
  termination_reason = "spot interruption";
  draining_start_time = pos 1600;
}

looked_up :
    host_from_instance_id gethostbyaddr (pos 1600) request (described (some "ip-10-0-0-1"))
    ≡ found found_host
unfolding host_from_instance_id
looked_up = refl

abbrev warning : WarningEnvironment
warning = record {
  has_warning_queue = true;
  received = some ("w1", "i-1");
  now = pos 1600;
  described = described (some "ip-10-0-0-1");
  gethostbyaddr = gethostbyaddr;
  spot_fleet_resource_groups = "sfr-1" ∷ [];
  auto_scaling_resource_groups = "asg-1" ∷ [];
}

warned : warned_host warning "w1" "i-1" ≡ found found_host
unfolding warned_host
warned = looked_up

drained : In (send_drain (drain_message found_host 1) 0) (process_warning_queue warning).0
unfolding process_warning_queue host_from_instance_id
drained = inl refl

process_warning_queue-IsWarned_example : IsWarned warning "w1" "i-1" (drain_message found_host 1) 0
process_warning_queue-IsWarned_example =
    process_warning_queue-IsWarned warning "w1" "i-1" (drain_message found_host 1) 0 refl drained

-- Every termination fails.
abbrev no_termination : Terminates
no_termination sender group_id instance_id = false

process_termination_queue-deletes_example :
    In (delete_termination "r1") (process_termination_queue no_termination (some ("r1", message))).0
    ↔ IsTerminated no_termination message
process_termination_queue-deletes_example =
    process_termination_queue-deletes no_termination "r1" message
