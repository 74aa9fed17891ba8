-- ===== src/Draining/Lookup/Outcomes.antt =====
-- When `host_from_instance_id` of clusterman/draining/queue.py finds a host, finds none, or raises.
use clusterman.Base.{String, ◌≡◌, ◌⊎◌, List, ◌∷◌, Option, some, In}
use clusterman.Draining.Lookup.{Tag, Instance, Described, instances}

-- The tag names a spot fleet or an auto scaling group.
abbrev pub NamesGroup : Tag → Type 0
NamesGroup t = (t.key ≡ "aws:ec2spot:fleet-request-id") ⊎ (t.key ≡ "aws:autoscaling:groupName")

-- EC2 describes an instance first that has a tag for its group, an address that DNS knows, and this DNS name.
pub record IsLocated (gethostbyaddr : String → Option String) (d : Described) (dns : Option String)
    : Type 0 where
  pub instance : Instance
  pub rest : List Instance
  pub tags : List Tag
  pub tag : Tag
  pub ip : String
  pub hostname : String
  pub described : d ≡ instances (instance ∷ rest)
  pub has_tags : instance.tags ≡ some tags
  pub tagged : In tag tags
  pub names : NamesGroup tag
  pub has_ip : instance.private_ip_address ≡ some ip
  pub resolves : gethostbyaddr ip ≡ some hostname
  pub has_dns : instance.private_dns_name ≡ dns
