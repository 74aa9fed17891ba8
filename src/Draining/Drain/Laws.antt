-- ===== src/Draining/Drain/Laws.antt =====
-- What one call of `process_drain_queue` (clusterman/draining/queue.py) does with the message it received.
use clusterman.Base.{
  ℕ, suc, ◌+◌, ◌≤◌, String, ◌≡◌, refl, inl, inr, Bool, true, false, List, [], ◌∷◌, ◌++◌, Option,
  none, some, ℤ, Dict, In, str_eq, Bool-cases, arith, put, ◌&&◌, if◌then◌else◌, ◌⊎◌, ◌+ℤ◌,
}
use clusterman.Draining.Defs.{
  Host, Message, Effect, send_drain, send_termination, delete_drain, delete_termination,
  delete_warning, Outcome, returned, raised, drain_message, termination_message, host_of_message,
  spot_interruption,
}
use clusterman.Draining.Lookup.{Found, found, missing, unbound_local_error}
use clusterman.Draining.Drain.{
  Environment, drain_cache_seconds, drain, uncordon, drain_k8s_host, fresh_host, drain_orphan,
  is_draining_expired, drain_or_retry, keep_cache, process_kubernetes_host, process_host, conclude,
  is_skipped, process_received, process_drain_queue,
}

-- How many messages are sent
pub sent : List Effect → ℕ
sent [] = 0
sent (send_drain _ _ ∷ es) = suc (sent es)
sent (send_termination _ _ ∷ es) = suc (sent es)
sent (_ ∷ es) = sent es

-- How many messages are deleted
pub deleted : List Effect → ℕ
deleted [] = 0
deleted (delete_drain _ ∷ es) = suc (deleted es)
deleted (delete_termination _ ∷ es) = suc (deleted es)
deleted (delete_warning _ ∷ es) = suc (deleted es)
deleted (_ ∷ es) = deleted es

-- The calls before the deletion
pub IsDisposal : List Effect → Type 0
IsDisposal calls = (sent calls ≤ 1) × (deleted calls ≡ 0)

IsDisposalIfAny : Option (Dict ℤ × List Effect) → Type 0
IsDisposalIfAny none = Unit
IsDisposalIfAny (some (_, calls)) = IsDisposal calls

drain_orphan-IsDisposal :
    (h : Host) (f : Found) (cache : Dict ℤ) → IsDisposalIfAny (keep_cache cache (drain_orphan h f))
unfolding drain_orphan keep_cache IsDisposalIfAny IsDisposal sent deleted
drain_orphan-IsDisposal h missing cache = ground arith
drain_orphan-IsDisposal h unbound_local_error cache = tt
drain_orphan-IsDisposal h (found fresh) cache = ground arith

drain_or_retry-IsDisposal : (e : Environment) (h : Host) → IsDisposal (drain_or_retry e h)
unfolding drain_or_retry drain_k8s_host drain IsDisposal sent deleted
drain_or_retry-IsDisposal e h = ground arith

process_kubernetes_host-IsDisposal :
    (e : Environment) (h : Host) (cache : Dict ℤ)
    → IsDisposalIfAny (process_kubernetes_host e h cache)
unfolding process_kubernetes_host IsDisposalIfAny IsDisposal sent deleted uncordon
process_kubernetes_host-IsDisposal e h cache =
    ground (arith, drain_orphan-IsDisposal h (fresh_host e h) cache, drain_or_retry-IsDisposal e h)

process_host-IsDisposal :
    (e : Environment) (h : Host) (cache : Dict ℤ) → IsDisposalIfAny (process_host e h cache)
unfolding process_host IsDisposalIfAny IsDisposal sent deleted
process_host-IsDisposal e h cache = ground (arith, process_kubernetes_host-IsDisposal e h cache)

pub IsSettled : (receipt_handle : String) → Outcome → Type 0
IsSettled receipt o =
    ((o.ended ≡ raised) × (o.effects ≡ []))
    ⊎ ((o.ended ≡ returned true)
        × ((calls : List Effect) × (o.effects ≡ calls ++ (delete_drain receipt ∷ []))
            × IsDisposal calls))

conclude-IsSettled :
    (cache : Dict ℤ) (h : Host) (o : Option (Dict ℤ × List Effect))
    → IsDisposalIfAny o
    → IsSettled h.receipt_handle (conclude cache h o)
unfolding conclude IsSettled IsDisposalIfAny
conclude-IsSettled cache h none d = inl (refl, refl)
conclude-IsSettled cache h (some (after, calls)) d = inr (refl, (calls, refl, d))

-- What is left when the cache names the host.
skipped-IsSettled :
    (receipt : String) (cache : Dict ℤ)
    → IsSettled receipt
        (record { cache = cache; effects = delete_drain receipt ∷ []; ended = returned true })
unfolding IsSettled IsDisposal sent deleted
skipped-IsSettled receipt cache = inr (refl, ([], refl, (omega arith, refl)))

received-IsSettled :
    (e : Environment) (cache : Dict ℤ) (h : Host)
    → IsSettled h.receipt_handle (
        conclude
          (put h.instance_id (e.now +ℤ drain_cache_seconds) cache)
          h
          (process_host e h (put h.instance_id (e.now +ℤ drain_cache_seconds) cache)))
received-IsSettled e cache h =
    let cached = put h.instance_id (e.now +ℤ drain_cache_seconds) cache in
    conclude-IsSettled cached h (process_host e h cached) (process_host-IsDisposal e h cached)

-- Whatever is received and whatever the environment answers: a call that raises has sent and deleted
-- nothing, and any other call deletes the message it received as its last effect, having sent at
-- most one message and deleted none before.
pub process_drain_queue-IsSettled :
    (e : Environment) (cache : Dict ℤ) (receipt : String) (m : Message)
    → IsSettled receipt (process_drain_queue e cache (some (receipt, m)))
unfolding process_drain_queue process_received host_of_message
process_drain_queue-IsSettled e cache receipt m =
    elim (Bool-cases (is_skipped cache (host_of_message receipt m))) [
      | inl s ↦ rw (s) (skipped-IsSettled receipt cache)
      | inr s ↦ rw (s) (received-IsSettled e cache (host_of_message receipt m))
    ]

-- A Kubernetes host with an agent that is not left to another call
unfoldable pub IsKubernetesDrain : Dict ℤ → Host → Type 0
IsKubernetesDrain cache h =
    (h.scheduler ≡ "kubernetes") × (str_eq h.agent_id "" ≡ false) × (is_skipped cache h ≡ false)

-- The answer that counts as drained
unfoldable pub is_drained : Environment → Host → Bool
is_drained e h =
    e.connected && e.drain_node h.agent_id (str_eq h.termination_reason spot_interruption)

-- The calls for such a host, before the deletion
unfoldable pub kubernetes_calls : Environment → Host → List Effect
kubernetes_calls e h =
    if is_draining_expired e h
    then (if e.force_terminate
        then send_termination (termination_message h) 0 ∷ []
        else uncordon e h.agent_id)
    else drain_or_retry e h

pub received-kubernetes_calls :
    (e : Environment) (cache : Dict ℤ) (h : Host)
    → IsKubernetesDrain cache h
    → (process_received e cache h).effects
      ≡ kubernetes_calls e h ++ (delete_drain h.receipt_handle ∷ [])
unfolding process_received IsKubernetesDrain process_host process_kubernetes_host kubernetes_calls
    conclude
received-kubernetes_calls e cache h (k, a, s) =
    rw (s, k, a)
      (elim (Bool-cases (is_draining_expired e h)) [
        | inl x ↦ elim (Bool-cases e.force_terminate) [ inl f ↦ rw (x, f) | inr f ↦ rw (x, f) ]
        | inr x ↦ rw (x)
      ])

-- Past the threshold with forced termination, or before it and drained
pub IsTerminationDue : Environment → Host → Type 0
IsTerminationDue e h =
    ((is_draining_expired e h ≡ true) × (e.force_terminate ≡ true))
    ⊎ ((is_draining_expired e h ≡ false) × (is_drained e h ≡ true))

pub kubernetes_calls-terminates :
    (e : Environment) (h : Host) (m : Message) (d : ℕ)
    → In (send_termination m d) (kubernetes_calls e h ++ (delete_drain h.receipt_handle ∷ []))
    → (m ≡ termination_message h) × (d ≡ 0) × IsTerminationDue e h
unfolding kubernetes_calls IsTerminationDue is_drained drain_or_retry drain_k8s_host drain uncordon
kubernetes_calls-terminates e h m d i = ground arith

pub kubernetes_calls-due :
    (e : Environment) (h : Host)
    → IsTerminationDue e h
    → In
        (send_termination (termination_message h) 0)
        (kubernetes_calls e h ++ (delete_drain h.receipt_handle ∷ []))
unfolding kubernetes_calls IsTerminationDue is_drained drain_or_retry drain_k8s_host drain uncordon
kubernetes_calls-due e h i = ground arith

pub kubernetes_calls-redrains :
    (e : Environment) (h : Host) (m : Message) (d : ℕ)
    → In (send_drain m d) (kubernetes_calls e h ++ (delete_drain h.receipt_handle ∷ []))
    → (m ≡ drain_message h (1 + h.attempt))
      × (d ≡ e.redraining_delay_seconds)
      × (is_draining_expired e h ≡ false)
unfolding kubernetes_calls is_drained drain_or_retry drain_k8s_host drain uncordon
kubernetes_calls-redrains e h m d i = ground arith
