-- ===== src/Draining/Lookup/Laws.antt =====
-- What a host that `host_from_instance_id` (clusterman/draining/queue.py) finds says of the instance.
use clusterman.Base.{
  String, ◌≡◌, refl, inl, inr, true, List, [], ◌∷◌, map, Option, some, Option-cases, ℤ, In, keep,
  arith, In-keep, sym, subst, ◌∙◌,
}
use clusterman.Draining.Defs.{Host}
use clusterman.Draining.Lookup.{
  Tag, Instance, Described, client_error, instances, found, missing, Request, is_group_tag,
  group_ids, scheduler_of, sender_of, host_with_group, with_group_ids, host_of_instance,
  host_from_instance_id, text_or,
}

-- The host is the one asked for, of the group `h.group_id`, seen at `now`.
unfoldable pub IsHostOf :
    (gethostbyaddr : String → Option String) (now : ℤ) (r : Request) (tags : List Tag)
    (i : Instance)
    → Host
    → Type 0
IsHostOf gethostbyaddr now r tags i h =
    (h.instance_id ≡ r.instance_id)
    × (h.receipt_handle ≡ r.receipt_handle)
    × (h.attempt ≡ 1)
    × (h.draining_start_time ≡ now)
    × (h.pool ≡ text_or r.pool "")
    × (h.scheduler ≡ scheduler_of tags)
    × (h.sender ≡ sender_of tags)
    × (i.private_ip_address ≡ some h.ip)
    × (i.private_dns_name ≡ some h.agent_id)
    × (gethostbyaddr h.ip ≡ some h.hostname)

host_with_group-found :
    (gethostbyaddr : String → Option String) (now : ℤ) (r : Request) (tags : List Tag) (g : String)
    (i : Instance) (h : Host)
    → host_with_group gethostbyaddr now r tags g i ≡ found h
    → IsHostOf gethostbyaddr now r tags i h × (h.group_id ≡ g)
unfolding host_with_group IsHostOf
host_with_group-found gethostbyaddr now r tags g i h e = ground arith

unfoldable pub IsGroupOf : List Tag → String → Type 0
IsGroupOf tags g = (t : Tag) × In t tags × (is_group_tag t ≡ true) × (g ≡ t.value)

pub group_ids-IsGroupOf :
    (tags : List Tag) (g : String) (gs : List String) → group_ids tags ≡ g ∷ gs → IsGroupOf tags g
unfolding group_ids IsGroupOf
group_ids-IsGroupOf tags g gs e = first_kept tags (keep is_group_tag tags) refl e
  where
    first_kept :
        (tags kept : List Tag)
        → kept ≡ keep is_group_tag tags
        → map (λ t. t.value) kept ≡ g ∷ gs
        → (t : Tag) × In t tags × (is_group_tag t ≡ true) × (g ≡ t.value)
    first_kept tags [] k e = ground arith
    first_kept tags (t ∷ ts) k e =
        let (i, p) = In-keep is_group_tag t tags (subst (In t) k (inl refl)) in
        (t, i, p, ground arith)

-- What the answer of EC2 holds of a host that is found
unfoldable pub IsDescribed :
    (gethostbyaddr : String → Option String) (now : ℤ) (r : Request) → Described → Host → Type 0
IsDescribed gethostbyaddr now r d h =
    (i : Instance) × (rest : List Instance) × (tags : List Tag) × (d ≡ instances (i ∷ rest))
    × (i.tags ≡ some tags)
    × IsHostOf gethostbyaddr now r tags i h
    × IsGroupOf tags h.group_id

with_group_ids-found :
    (gethostbyaddr : String → Option String) (now : ℤ) (r : Request) (tags : List Tag)
    (gs : List String) (i : Instance) (h : Host)
    → group_ids tags ≡ gs
    → with_group_ids gethostbyaddr now r tags gs i ≡ found h
    → IsHostOf gethostbyaddr now r tags i h × IsGroupOf tags h.group_id
unfolding with_group_ids
with_group_ids-found gethostbyaddr now r tags [] i h k e = ground arith
with_group_ids-found gethostbyaddr now r tags (g ∷ gs) i h k e =
    let (p, q) = host_with_group-found gethostbyaddr now r tags g i h e in
    (p, subst (IsGroupOf tags) (sym q) (group_ids-IsGroupOf tags g gs k))

pub host_of_instance-tags :
    (gethostbyaddr : String → Option String) (now : ℤ) (r : Request) (i : Instance)
    (tags : List Tag)
    → i.tags ≡ some tags
    → host_of_instance gethostbyaddr now r i
      ≡ with_group_ids gethostbyaddr now r tags (group_ids tags) i
unfolding host_of_instance
host_of_instance-tags gethostbyaddr now r i tags t = cc

-- A host that is found is the first instance that EC2 describes: it has the instance id, the receipt and
-- the pool asked for, the attempt 1 and the time of the lookup, the address, the DNS name as agent
-- and the host name of the instance, the scheduler and the sender that the tags tell, and a group id
-- that is the value of one of the tags that name a group.
pub host_from_instance_id-IsDescribed :
    (gethostbyaddr : String → Option String) (now : ℤ) (r : Request) (d : Described) (h : Host)
    → host_from_instance_id gethostbyaddr now r d ≡ found h
    → IsDescribed gethostbyaddr now r d h
unfolding host_from_instance_id host_of_instance IsDescribed
host_from_instance_id-IsDescribed gethostbyaddr now r client_error h e = ground arith
host_from_instance_id-IsDescribed gethostbyaddr now r (instances []) h e = ground arith
host_from_instance_id-IsDescribed gethostbyaddr now r (instances (i ∷ rest)) h e =
    elim (Option-cases i.tags) [
      | inl n ↦ absurd (clash (rw (n) at e))
      | inr (tags, t) ↦
          let (p, q) =
            with_group_ids-found gethostbyaddr now r tags (group_ids tags) i h refl
              (sym (host_of_instance-tags gethostbyaddr now r i tags t) ∙ e) in
          (i, rest, tags, refl, t, p, q)
    ]
  where
    clash : missing ≡ found h → ⊥
    clash e = ground arith
