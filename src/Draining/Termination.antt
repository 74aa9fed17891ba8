-- ===== src/Draining/Termination.antt =====
-- `process_termination_queue` and `terminate_host` of clusterman/draining/queue.py. Whether
-- `terminate_instances_by_id` raises is an argument; sending and deleting do not fail.
use clusterman.Base.{
  ◌≡◌, ◌≢◌, String, inl, inr, Bool, true, false, ◌||◌, List, [], ◌∷◌, ◌++◌, Option, none, some, In,
  str_eq, str_eq_iff, arith, if◌then◌else◌, Bool-cases, ◌↔◌,
}
use clusterman.Draining.Defs.{
  Host, Message, Effect, delete_termination, mesos_down, mesos_up, terminate, Ended, returned,
  raised, host_of_message,
}

-- Whether terminating this instance of this group goes through without an exception
abbrev pub Terminates : Type 0
Terminates = (sender group_id instance_id : String) → Bool

-- `RESOURCE_GROUPS[host.sender]` is there
is_resource_group : (sender : String) → Bool
is_resource_group sender = str_eq sender "asg" || str_eq sender "sfr"

-- `terminate_host`: whether it returned, and the call it made. An unknown sender is a `KeyError`.
unfoldable pub terminate_host : Terminates → Host → Bool × List Effect
unfolding is_resource_group
terminate_host terminates h =
    if is_resource_group h.sender
    then (
      terminates h.sender h.group_id h.instance_id,
      terminate h.sender h.group_id h.instance_id ∷ [],
    )
    else (false, [])

-- The Mesos branch: exceptions of `down` and `up` are caught.
terminate_mesos : Bool × List Effect → Host → List Effect × Ended
terminate_mesos (true, calls) h = (
  mesos_down h.hostname h.ip ∷ calls
      ++ (mesos_up h.hostname h.ip ∷ delete_termination h.receipt_handle ∷ []),
  returned true,
)
terminate_mesos (false, calls) h = (mesos_down h.hostname h.ip ∷ calls, raised)

-- The Kubernetes branch: the exception is caught, and the message stays.
terminate_kubernetes : Bool × List Effect → Host → List Effect × Ended
terminate_kubernetes (true, calls) h =
    (calls ++ (delete_termination h.receipt_handle ∷ []), returned true)
terminate_kubernetes (false, calls) h = (calls, returned true)

terminate_other : Bool × List Effect → Host → List Effect × Ended
terminate_other (true, calls) h =
    (calls ++ (delete_termination h.receipt_handle ∷ []), returned true)
terminate_other (false, calls) h = (calls, raised)

terminate_by_scheduler : Terminates → Host → List Effect × Ended
unfolding terminate_mesos terminate_kubernetes terminate_other
terminate_by_scheduler terminates h =
    if str_eq h.scheduler "mesos"
    then terminate_mesos (terminate_host terminates h) h
    else if str_eq h.scheduler "kubernetes"
    then terminate_kubernetes (terminate_host terminates h) h
    else terminate_other (terminate_host terminates h) h

-- `process_termination_queue`
unfoldable pub process_termination_queue :
    Terminates → Option (String × Message) → List Effect × Ended
unfolding terminate_by_scheduler
process_termination_queue terminates none = ([], returned false)
process_termination_queue terminates (some (receipt, m)) =
    terminate_by_scheduler terminates (host_of_message receipt m)

-- The sender is known, and the instance is terminated without an exception.
pub IsTerminated : Terminates → Message → Type 0
IsTerminated terminates m =
    (is_resource_group m.sender ≡ true) × (terminates m.sender m.group_id m.instance_id ≡ true)

-- Under every scheduler, the message received is deleted exactly when its sender is known and the
-- instance is terminated without an exception.
pub process_termination_queue-deletes :
    (terminates : Terminates) (receipt : String) (m : Message)
    → In (delete_termination receipt) (process_termination_queue terminates (some (receipt, m))).0
      ↔ IsTerminated terminates m
unfolding process_termination_queue terminate_by_scheduler terminate_host terminate_mesos
    terminate_kubernetes terminate_other is_resource_group IsTerminated host_of_message
process_termination_queue-deletes terminates receipt m =
    ground (arith, str_eq_iff m.scheduler "mesos", str_eq_iff m.scheduler "kubernetes")

-- The call raises exactly when the instance is not terminated and its scheduler is not Kubernetes;
-- else it returns that there was a message.
pub process_termination_queue-raises :
    (terminates : Terminates) (receipt : String) (m : Message)
    → ((process_termination_queue terminates (some (receipt, m))).1 ≡ raised)
      ↔ ((m.scheduler ≢ "kubernetes") × ¬ IsTerminated terminates m)
unfolding process_termination_queue terminate_by_scheduler terminate_host terminate_mesos
    terminate_kubernetes terminate_other is_resource_group IsTerminated host_of_message
process_termination_queue-raises terminates receipt m =
    elim (Bool-cases (str_eq m.scheduler "kubernetes")) [
      | inl k ↦ rw ((str_eq_iff m.scheduler "kubernetes").0 k) (ground (arith))
      | inr k ↦ elim (Bool-cases (is_resource_group m.sender)) [
        | inl s ↦ elim (Bool-cases (terminates m.sender m.group_id m.instance_id)) [
          | inl t ↦
              rw (k, s, t)
                (ground
                  (arith, str_eq_iff m.scheduler "mesos", str_eq_iff m.scheduler "kubernetes"))
          | inr t ↦
              rw (k, s, t)
                (ground
                  (arith, str_eq_iff m.scheduler "mesos", str_eq_iff m.scheduler "kubernetes"))
        ]
        | inr s ↦
            rw (k, s)
              (ground (arith, str_eq_iff m.scheduler "mesos", str_eq_iff m.scheduler "kubernetes"))
      ]
    ]

-- A Mesos host is taken down in every call, and comes up again exactly when it was terminated: where the
-- termination fails, it stays down and its message stays in the queue.
pub process_termination_queue_mesos :
    (terminates : Terminates) (receipt : String) (m : Message)
    → m.scheduler ≡ "mesos"
    → In (mesos_down m.hostname m.ip) (process_termination_queue terminates (some (receipt, m))).0
      × (In (mesos_up m.hostname m.ip) (process_termination_queue terminates (some (receipt, m))).0
          ↔ IsTerminated terminates m)
unfolding process_termination_queue terminate_by_scheduler terminate_host terminate_mesos
    terminate_kubernetes terminate_other is_resource_group IsTerminated host_of_message
process_termination_queue_mesos terminates receipt m s =
    ground (arith, str_eq_iff m.scheduler "mesos")
