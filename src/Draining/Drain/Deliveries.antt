-- ===== src/Draining/Drain/Deliveries.antt =====
-- What `process_drain_queue` (clusterman/draining/queue.py) decides for a host, and what the deliveries
-- that follow do.
use clusterman.Base.{
  ℕ, ◌+◌, ◌≤◌, String, ◌≡◌, ◌≢◌, refl, inl, inr, true, false, List, [], ◌∷◌, Option, none, some,
  subst, sym, ℤ, Dict, has, In, In-append, ◌⊎◌, str_eq, str_eq_iff, Bool-cases, arith, put, has-put,
  str_eq_refl, ◌+ℤ◌, ◌↔◌, or_else,
}
use clusterman.Draining.Defs.{
  Host, Message, Effect, send_drain, send_termination, delete_drain, returned, raised,
  drain_message, termination_message, host_of_message,
}
use clusterman.Draining.Lookup.{Found, found, missing, unbound_local_error}
use clusterman.Draining.Lookup.Laws.{host_from_instance_id-IsDescribed, IsDescribed, IsHostOf}
use clusterman.Draining.Drain.{
  Environment, drain_cache_seconds, fresh_host, drain_orphan, drain_or_retry, drain_k8s_host, drain,
  uncordon, is_draining_expired, keep_cache, process_kubernetes_host, process_host, conclude,
  is_skipped, process_received, process_drain_queue,
}
use clusterman.Draining.Drain.Laws.{
  IsKubernetesDrain, IsTerminationDue, received-kubernetes_calls, kubernetes_calls-terminates,
  kubernetes_calls-due,
}

-- A Kubernetes host that has an agent, and that the cache does not leave to another call, is submitted
-- for termination exactly when its time is past the threshold and termination is forced, or its time
-- is not past and the connector drained the node.
pub process_drain_queue-terminates :
    (e : Environment) (cache : Dict ℤ) (receipt : String) (m : Message)
    → IsKubernetesDrain cache (host_of_message receipt m)
    → In
        (send_termination (termination_message (host_of_message receipt m)) 0)
        (process_drain_queue e cache (some (receipt, m))).effects
      ↔ IsTerminationDue e (host_of_message receipt m)
unfolding process_drain_queue
process_drain_queue-terminates e cache receipt m k =
    let h = host_of_message receipt m in
    let calls = received-kubernetes_calls e cache h k in
    (
      λ i. (kubernetes_calls-terminates e h _ 0 (subst (In _) calls i)).2,
      λ d. subst (In _) (sym calls) (kubernetes_calls-due e h d),
    )

-- The host that was found for an orphan
IsFreshDrain : Environment → Host → Message → ℕ → Type 0
IsFreshDrain e h t d =
    (h.agent_id ≡ "")
    × ((fresh : Host) × (fresh_host e h ≡ found fresh)
        × (fresh.agent_id ≢ "")
        × (t ≡ drain_message fresh (1 + h.attempt))
        × (d ≡ 0))

-- The host itself, later
IsRetry : Environment → Host → Message → ℕ → Type 0
IsRetry e h t d =
    (h.agent_id ≢ "")
    × (t ≡ drain_message h (1 + h.attempt))
    × (d ≡ e.redraining_delay_seconds)
    × (is_draining_expired e h ≡ false)

-- The calls before the deletion
calls_of : Option (Dict ℤ × List Effect) → List Effect
calls_of none = []
calls_of (some (_, calls)) = calls

conclude-calls_of :
    (c : Dict ℤ) (h : Host) (o : Option (Dict ℤ × List Effect)) (t : Message) (d : ℕ)
    → In (send_drain t d) (conclude c h o).effects
    → In (send_drain t d) (calls_of o)
unfolding conclude calls_of
conclude-calls_of c h none t d i = absurd i
conclude-calls_of c h (some (after, calls)) t d i = elim (In-append _ calls _ i) [
  | inl j ↦ j
  | inr j ↦ ground arith
]

drain_orphan-redrains :
    (h : Host) (f : Found) (cache : Dict ℤ) (t : Message) (d : ℕ)
    → In (send_drain t d) (calls_of (keep_cache cache (drain_orphan h f)))
    → (fresh : Host) × (f ≡ found fresh)
      × (fresh.agent_id ≢ "")
      × (t ≡ drain_message fresh (1 + h.attempt))
      × (d ≡ 0)
unfolding drain_orphan keep_cache calls_of
drain_orphan-redrains h missing cache t d i = absurd i
drain_orphan-redrains h unbound_local_error cache t d i = absurd i
drain_orphan-redrains h (found fresh) cache t d i = elim (Bool-cases (str_eq fresh.agent_id "")) [
  | inl a ↦ absurd (no_drain (rw (a) at i))
  | inr a ↦
      let (p, q) = drained (rw (a) at i) in
      (fresh, refl, ground (arith, str_eq_iff fresh.agent_id ""), p, q)
]
  where
    no_drain : In (send_drain t d) (send_termination (termination_message h) 0 ∷ []) → ⊥
    no_drain j = ground arith

    drained :
        In (send_drain t d) (send_drain (drain_message fresh (1 + h.attempt)) 0 ∷ [])
        → (t ≡ drain_message fresh (1 + h.attempt)) × (d ≡ 0)
    drained j = ground arith

retry-redrains :
    (e : Environment) (cache : Dict ℤ) (h : Host) (t : Message) (d : ℕ)
    → In (send_drain t d) (drain_or_retry e h)
    → (t ≡ drain_message h (1 + h.attempt)) × (d ≡ e.redraining_delay_seconds)
unfolding drain_or_retry drain_k8s_host drain
retry-redrains e cache h t d i = ground arith

process_kubernetes_host-redrains :
    (e : Environment) (cache : Dict ℤ) (h : Host) (t : Message) (d : ℕ)
    → In (send_drain t d) (calls_of (process_kubernetes_host e h cache))
    → IsFreshDrain e h t d ⊎ IsRetry e h t d
unfolding process_kubernetes_host calls_of IsFreshDrain IsRetry uncordon
process_kubernetes_host-redrains e cache h t d i = elim (Bool-cases (str_eq h.agent_id "")) [
  | inl a ↦ inl (
    ground (arith, str_eq_iff h.agent_id ""),
    drain_orphan-redrains h (fresh_host e h) cache t d (rw (a) at i),
  )
  | inr a ↦ elim (Bool-cases (is_draining_expired e h)) [
    | inl x ↦ ground arith
    | inr x ↦
        let (p, q) = retry-redrains e cache h t d (rw (a, x) at i) in
        inr (ground (arith, str_eq_iff h.agent_id ""), p, q, x)
  ]
]

process_host-redrains :
    (e : Environment) (cache : Dict ℤ) (h : Host) (t : Message) (d : ℕ)
    → In (send_drain t d) (calls_of (process_host e h cache))
    → IsFreshDrain e h t d ⊎ IsRetry e h t d
unfolding process_host calls_of
process_host-redrains e cache h t d i = elim (Bool-cases (str_eq h.scheduler "mesos")) [
  | inl a ↦ ground arith
  | inr a ↦ elim (Bool-cases (str_eq h.scheduler "kubernetes")) [
    | inl b ↦ process_kubernetes_host-redrains e cache h t d (rw (a, b) at i)
    | inr b ↦ ground arith
  ]
]

process_received-redrains :
    (e : Environment) (cache : Dict ℤ) (h : Host) (t : Message) (d : ℕ)
    → In (send_drain t d) (process_received e cache h).effects
    → IsFreshDrain e h t d ⊎ IsRetry e h t d
unfolding process_received
process_received-redrains e cache h t d i = elim (Bool-cases (is_skipped cache h)) [
  | inl s ↦ ground arith
  | inr s ↦
      let cached = put h.instance_id (e.now +ℤ drain_cache_seconds) cache in
      process_host-redrains e cached h t d
        (conclude-calls_of cached h (process_host e h cached) t d (rw (s) at i))
]

-- Sent again for the instance, one attempt later. The draining time starts anew only for an orphan, whose
-- host was looked up again; else the host is one that still had time.
pub IsRedrain : Environment → Host → Message → Type 0
IsRedrain e h t =
    (t.instance_id ≡ h.instance_id)
    × (t.attempt ≡ some (1 + h.attempt))
    × (t.agent_id ≢ "")
    × (((h.agent_id ≡ "") × (t.draining_start_time ≡ e.described_at))
        ⊎ ((t.draining_start_time ≡ h.draining_start_time) × (is_draining_expired e h ≡ false)))

fresh-IsRedrain :
    (e : Environment) (h : Host) (t : Message) (d : ℕ) → IsFreshDrain e h t d → IsRedrain e h t
unfolding IsFreshDrain IsRedrain fresh_host IsDescribed IsHostOf drain_message
fresh-IsRedrain e h t d (a, (fresh, f, n, m, z)) =
    let (i, rest, tags, p, q, s, g) = host_from_instance_id-IsDescribed _ _ _ _ fresh f in
    ground arith

retry-IsRedrain :
    (e : Environment) (h : Host) (t : Message) (d : ℕ) → IsRetry e h t d → IsRedrain e h t
unfolding IsRetry IsRedrain drain_message
retry-IsRedrain e h t d r = ground arith

redrain_not_skipped :
    (cache : Dict ℤ) (receipt : String) (t : Message) (n : ℕ)
    → 1 ≤ n
    → t.attempt ≡ some (1 + n)
    → is_skipped cache (host_of_message receipt t) ≡ false
unfolding is_skipped host_of_message
redrain_not_skipped cache receipt t n p a = ground arith

received-IsRedrain :
    (e : Environment) (h : Host) (t : Message) (d : ℕ)
    → IsFreshDrain e h t d ⊎ IsRetry e h t d
    → IsRedrain e h t
received-IsRedrain e h t d (inl f) = fresh-IsRedrain e h t d f
received-IsRedrain e h t d (inr f) = retry-IsRedrain e h t d f

IsRedrain-attempt :
    (e : Environment) (h : Host) (t : Message) → IsRedrain e h t → t.attempt ≡ some (1 + h.attempt)
unfolding IsRedrain
IsRedrain-attempt e h t (i, a, n, s) = a

-- A message that a call sends back to the drain queue is for the same instance, with the attempt one
-- greater and an agent; unless the host came without an agent, it keeps its start time and was still
-- within the threshold. Whatever the cache holds when it is delivered, under whatever receipt, it is
-- not left to another call, provided that attempts are counted from 1.
pub process_drain_queue-redrains :
    (e : Environment) (cache : Dict ℤ) (receipt : String) (m : Message) (t : Message) (d : ℕ)
    (later : Dict ℤ) (receipt_later : String)
    → 1 ≤ or_else m.attempt 1
    → In (send_drain t d) (process_drain_queue e cache (some (receipt, m))).effects
    → IsRedrain e (host_of_message receipt m) t
      × (is_skipped later (host_of_message receipt_later t) ≡ false)
unfolding process_drain_queue host_of_message
process_drain_queue-redrains e cache receipt m t d later receipt_later p i =
    let h = host_of_message receipt m in
    let r = received-IsRedrain e h t d (process_received-redrains e cache h t d i) in
    (
      r,
      redrain_not_skipped later receipt_later t (or_else m.attempt 1) p (IsRedrain-attempt e h t r),
    )

conclude-raised :
    (c : Dict ℤ) (h : Host) (o : Option (Dict ℤ × List Effect))
    → (conclude c h o).ended ≡ raised
    → (conclude c h o).cache ≡ c
unfolding conclude
conclude-raised c h none r = refl
conclude-raised c h (some (after, calls)) r = ground arith

-- The host of a message whose lookup failed halfway
raised-cached :
    (e : Environment) (cache : Dict ℤ) (h : Host)
    → (process_received e cache h).ended ≡ raised
    → has h.instance_id (process_received e cache h).cache ≡ true
unfolding process_received
raised-cached e cache h r = elim (Bool-cases (is_skipped cache h)) [
  | inl s ↦ absurd (returns (rw (s) at r))
  | inr s ↦
      let cached = put h.instance_id (e.now +ℤ drain_cache_seconds) cache in
      rw
        (
          s,
          conclude-raised cached h (process_host e h cached) (rw (s) at r),
          has-put h.instance_id h.instance_id,
          str_eq_refl,
        )
        refl
]
  where
    returns : returned true ≡ raised → ⊥
    returns x = ground arith

cached-skipped :
    (cache : Dict ℤ) (h : Host)
    → has h.instance_id cache ≡ true
    → h.attempt ≤ 1
    → is_skipped cache h ≡ true
unfolding is_skipped
cached-skipped cache h c a = ground arith

-- When a call has raised an exception on the first attempt of a message, the cache keeps the host, so
-- that the next delivery of the message does nothing but delete it.
pub process_drain_queue_after_exception :
    (e later : Environment) (cache : Dict ℤ) (receipt receipt_later : String) (m : Message)
    → or_else m.attempt 1 ≤ 1
    → (process_drain_queue e cache (some (receipt, m))).ended ≡ raised
    → (process_drain_queue later
        (process_drain_queue e cache (some (receipt, m))).cache
        (some (receipt_later, m))).effects
      ≡ delete_drain receipt_later ∷ []
unfolding process_drain_queue process_received host_of_message
process_drain_queue_after_exception e later cache receipt receipt_later m a r =
    let h = host_of_message receipt m in
    rw
      (cached-skipped (process_received e cache h).cache (host_of_message receipt_later m)
        (raised-cached e cache h r) a)
      refl
