-- ===== src/Draining/Lookup.antt =====
-- `host_from_instance_id` of clusterman/draining/queue.py. What EC2 and DNS answer are arguments.
use clusterman.Base.{
  String, ◌≡◌, ◌≢◌, refl, Bool, true, false, ◌||◌, List, [], ◌∷◌, map, Option, none, some,
  Option-cases, ℤ, arith, str_eq, keep, any, if◌then◌else◌, or_else,
}
use clusterman.Draining.Defs.{Host, spot_interruption}
pub mod Laws
pub mod Outcomes

pub record Tag : Type 0 where
  pub key : String
  pub value : String

-- An instance as EC2 describes it; a key may be missing.
pub record Instance : Type 0 where
  pub tags : Option (List Tag)
  pub private_ip_address : Option String
  pub private_dns_name : Option String

-- What `ec2_describe_instances` does: a `ClientError`, or the instances.
pub data Described : Type 0 where
  client_error : Described
  instances : List Instance → Described

-- A host, `None`, or the `UnboundLocalError` of a use of `agent_id` that was never assigned.
pub data Found : Type 0 where
  found : Host → Found
  missing : Found
  unbound_local_error : Found

abbrev pub is_group_tag : Tag → Bool
is_group_tag t =
    str_eq t.key "aws:ec2spot:fleet-request-id" || str_eq t.key "aws:autoscaling:groupName"

unfoldable pub group_ids : List Tag → List String
group_ids tags = map (λ t. t.value) (keep is_group_tag tags)

unfoldable pub scheduler_of : List Tag → String
scheduler_of tags =
    if any (λ t. str_eq t.key "KubernetesCluster") tags then "kubernetes" else "mesos"

unfoldable pub sender_of : List Tag → String
sender_of tags = if any (λ t. str_eq t.key "aws:autoscaling:groupName") tags then "asg" else "sfr"

-- What the caller gives.
pub record Request : Type 0 where
  pub receipt_handle : String
  pub instance_id : String
  pub pool : Option String
  pub termination_reason : Option String

-- `x if x else default`: an empty text counts as none.
unfoldable pub text_or : Option String → String → String
text_or none default = default
text_or (some s) default = if str_eq s "" then default else s

module _ (gethostbyaddr : String → Option String) (now : ℤ) (r : Request) where
  -- The end of the function, once there is a group id.
  unfoldable pub host_with_group : List Tag → (group_id : String) → Instance → Found
  unfolding scheduler_of sender_of text_or
  host_with_group tags group_id i = elim i.private_ip_address [
    | none ↦ missing
    | some ip ↦ elim (gethostbyaddr ip) [
      | none ↦ missing
      | some hostname ↦ elim i.private_dns_name [
        | none ↦ unbound_local_error
        | some agent_id ↦ found (record {
          instance_id = r.instance_id;
          hostname = hostname;
          group_id = group_id;
          ip = ip;
          sender = sender_of tags;
          receipt_handle = r.receipt_handle;
          agent_id = agent_id;
          pool = text_or r.pool "";
          attempt = 1;
          termination_reason = text_or r.termination_reason spot_interruption;
          draining_start_time = now;
          scheduler = scheduler_of tags;
        })
      ]
    ]
  ]

  unfoldable pub with_group_ids : List Tag → List String → Instance → Found
  unfolding host_with_group
  with_group_ids tags [] i = missing
  with_group_ids tags (group_id ∷ _) i = host_with_group tags group_id i

  -- The missing key `Tags` is caught, and leaves no group ids.
  unfoldable pub host_of_instance : Instance → Found
  unfolding with_group_ids group_ids
  host_of_instance i = elim i.tags [
    | none ↦ missing
    | some tags ↦ with_group_ids tags (group_ids tags) i
  ]

  unfoldable pub host_from_instance_id : Described → Found
  unfolding host_of_instance
  host_from_instance_id client_error = missing
  host_from_instance_id (instances []) = missing
  host_from_instance_id (instances (i ∷ _)) = host_of_instance i
