-- ===== src/Draining/Warning.antt =====
-- `get_warned_host` and `process_warning_queue` of clusterman/draining/queue.py. The groups of the
-- cluster's pools are arguments; sending and deleting do not fail.
use clusterman.Base.{
  ℕ, String, ◌≡◌, refl, inl, inr, Bool, true, false, ◌||◌, List, [], ◌∷◌, Option, none, some, ℤ, In,
  any, str_eq, str_eq_iff, arith, if◌then◌else◌, Bool-cases, ◌↔◌, ◌⊎◌,
}
use clusterman.Draining.Defs.{
  Host, Message, Effect, send_drain, delete_warning, Ended, returned, raised, drain_message,
}
use clusterman.Draining.Lookup.Laws.{IsDescribed, IsHostOf, host_from_instance_id-IsDescribed}
use clusterman.Draining.Lookup.{
  Request, Described, Found, found, missing, unbound_local_error, host_from_instance_id,
}

-- `received` is a receipt and the instance id of the event; no `warning_queue_url` gives none.
pub record WarningEnvironment : Type 0 where
  pub has_warning_queue : Bool
  pub received : Option (String × String)
  pub now : ℤ
  pub described : Described
  pub gethostbyaddr : String → Option String
  pub spot_fleet_resource_groups : List String
  pub auto_scaling_resource_groups : List String

abbrev is_member : String → List String → Bool
is_member s = any (λ t. str_eq t s)

unfoldable pub is_ours : WarningEnvironment → (group_id : String) → Bool
is_ours e group_id =
    is_member group_id e.spot_fleet_resource_groups
    || is_member group_id e.auto_scaling_resource_groups

abbrev pub warning_request : (receipt instance_id : String) → Request
warning_request receipt instance_id = record {
  receipt_handle = receipt;
  instance_id = instance_id;
  pool = none;
  termination_reason = none;
}

-- What `host_from_instance_id` finds for the event
unfoldable pub warned_host : WarningEnvironment → (receipt instance_id : String) → Found
warned_host e receipt instance_id =
    host_from_instance_id e.gethostbyaddr e.now (warning_request receipt instance_id) e.described

-- The part of `process_warning_queue` that follows a lookup. A host that was not found is
-- deleted by `get_warned_host`, under the same receipt.
process_warned : WarningEnvironment → (receipt : String) → Found → List Effect × Ended
unfolding is_ours
process_warned e receipt missing = (delete_warning receipt ∷ [], returned false)
process_warned e receipt unbound_local_error = ([], raised)
process_warned e receipt (found h) =
    if is_ours e h.group_id
    then (send_drain (drain_message h 1) 0 ∷ delete_warning h.receipt_handle ∷ [], returned true)
    else (delete_warning h.receipt_handle ∷ [], returned true)

process_received : WarningEnvironment → Option (String × String) → List Effect × Ended
unfolding process_warned warned_host
process_received e none = ([], returned false)
process_received e (some (receipt, instance_id)) =
    process_warned e receipt (warned_host e receipt instance_id)

unfoldable pub process_warning_queue : WarningEnvironment → List Effect × Ended
unfolding process_received
process_warning_queue e =
    if e.has_warning_queue then process_received e e.received else ([], returned false)

is_ours_iff :
    (e : WarningEnvironment) (g : String)
    → (is_ours e g ≡ true)
      ↔ (In g e.spot_fleet_resource_groups ⊎ In g e.auto_scaling_resource_groups)
unfolding is_ours
is_ours_iff e g = ground (
  arith,
  is_member→In g e.spot_fleet_resource_groups,
  is_member→In g e.auto_scaling_resource_groups,
  In→is_member g e.spot_fleet_resource_groups,
  In→is_member g e.auto_scaling_resource_groups,
)
  where
    is_member→In : (g : String) (gs : List String) → is_member g gs ≡ true → In g gs
    is_member→In g [] e = ground arith
    is_member→In g (x ∷ gs) e = ground (arith, str_eq_iff x g, is_member→In g gs)

    In→is_member : (g : String) (gs : List String) → In g gs → is_member g gs ≡ true
    In→is_member g [] e = ground arith
    In→is_member g (x ∷ gs) e = ground (arith, str_eq_iff x g, In→is_member g gs)

-- The host that the message `t` is for is the instance of the warning, and its group is ours.
pub IsWarned : WarningEnvironment → (receipt instance_id : String) → Message → ℕ → Type 0
IsWarned e receipt instance_id t delay =
    (h : Host) × IsDescribed e.gethostbyaddr e.now (warning_request receipt instance_id) e.described
      h
    × (In h.group_id e.spot_fleet_resource_groups ⊎ In h.group_id e.auto_scaling_resource_groups)
    × (t ≡ drain_message h 1)
    × (delay ≡ 0)

process_warned-drains :
    (e : WarningEnvironment) (receipt : String) (f : Found) (t : Message) (delay : ℕ)
    → In (send_drain t delay) (process_warned e receipt f).0
    → (h : Host) × (f ≡ found h)
      × (is_ours e h.group_id ≡ true)
      × (t ≡ drain_message h 1)
      × (delay ≡ 0)
unfolding process_warned
process_warned-drains e receipt missing t delay i = ground arith
process_warned-drains e receipt unbound_local_error t delay i = ground arith
process_warned-drains e receipt (found h) t delay i = elim (Bool-cases (is_ours e h.group_id)) [
  | inl o ↦ let (p, q) = sent (rw (o) at i) in (h, refl, o, p, q)
  | inr o ↦ absurd (not_sent (rw (o) at i))
]
  where
    sent :
        In
          (send_drain t delay)
          (send_drain (drain_message h 1) 0 ∷ delete_warning h.receipt_handle ∷ [])
        → (t ≡ drain_message h 1) × (delay ≡ 0)
    sent j = ground arith

    not_sent : In (send_drain t delay) (delete_warning h.receipt_handle ∷ []) → ⊥
    not_sent j = ground arith

process_received-IsWarned :
    (e : WarningEnvironment) (receipt instance_id : String) (t : Message) (delay : ℕ)
    → In (send_drain t delay) (process_warned e receipt (warned_host e receipt instance_id)).0
    → IsWarned e receipt instance_id t delay
unfolding IsWarned warned_host
process_received-IsWarned e receipt instance_id t delay i =
    let (h, f, o, m, z) =
      process_warned-drains e receipt (warned_host e receipt instance_id) t delay i in
    (h, host_from_instance_id-IsDescribed _ _ _ _ h f, (is_ours_iff e h.group_id).0 o, m, z)

-- Only a host that EC2 describes under the instance id of the warning that was received, and whose
-- group is among the cluster's spot fleets or auto scaling groups, is sent to be drained: on the first
-- attempt and without delay.
pub process_warning_queue-IsWarned :
    (e : WarningEnvironment) (receipt instance_id : String) (t : Message) (delay : ℕ)
    → e.received ≡ some (receipt, instance_id)
    → In (send_drain t delay) (process_warning_queue e).0
    → IsWarned e receipt instance_id t delay
unfolding process_warning_queue process_received
process_warning_queue-IsWarned e receipt instance_id t delay r i =
    elim (Bool-cases e.has_warning_queue) [
      | inl q ↦ process_received-IsWarned e receipt instance_id t delay (rw (q, r) at i)
      | inr q ↦ ground arith
    ]

found-receipt_handle :
    (e : WarningEnvironment) (receipt instance_id : String) (h : Host)
    → warned_host e receipt instance_id ≡ found h
    → h.receipt_handle ≡ receipt
unfolding warned_host IsDescribed IsHostOf
found-receipt_handle e receipt instance_id h f =
    let (i, rest, tags, p, q, s, g) = host_from_instance_id-IsDescribed _ _ _ _ h f in s.1

-- A host that is found for the warning that was received, and whose group is among the cluster's, is
-- sent to be drained before the warning is deleted, and nothing else is done.
pub process_warning_queue_of_our_group :
    (e : WarningEnvironment) (receipt instance_id : String) (h : Host)
    → e.has_warning_queue ≡ true
    → e.received ≡ some (receipt, instance_id)
    → warned_host e receipt instance_id ≡ found h
    → In h.group_id e.spot_fleet_resource_groups ⊎ In h.group_id e.auto_scaling_resource_groups
    → process_warning_queue e
      ≡ (send_drain (drain_message h 1) 0 ∷ delete_warning receipt ∷ [], returned true)
unfolding process_warning_queue process_received process_warned
process_warning_queue_of_our_group e receipt instance_id h q r f o =
    rw (q, r, f, (is_ours_iff e h.group_id).1 o, found-receipt_handle e receipt instance_id h f)
      refl
