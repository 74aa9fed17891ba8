-- ===== src/Draining/Drain.antt =====
-- `process_drain_queue`, `_drain_k8s_host` of clusterman/draining/queue.py, and `drain` and `uncordon` of
-- clusterman/draining/kubernetes.py. What the clock, the configuration, EC2, DNS and the Kubernetes
-- connector answer during a call is the argument `Environment`. Sending and deleting do not fail.
use clusterman.Base.{
  ℕ, ◌+◌, String, Bool, true, false, ◌&&◌, ◌||◌, not, List, [], ◌∷◌, ◌++◌, Option, none, some, ℤ,
  pos, ◌+ℤ◌, ◌-ℤ◌, ltb_ℤ, ltb, Dict, put, delete, has, str_eq, if◌then◌else◌,
}
use clusterman.Draining.Defs.{
  Host, Message, Effect, send_drain, send_termination, delete_drain, mesos_drain, k8s_drain,
  k8s_uncordon, Outcome, returned, raised, drain_message, termination_message, host_of_message,
  spot_interruption,
}
use clusterman.Draining.Lookup.{
  Described, Found, found, missing, unbound_local_error, host_from_instance_id,
}
pub mod Laws
pub mod Deliveries

abbrev pub drain_cache_seconds : ℤ
drain_cache_seconds = pos 1800

-- `now` is read for the cache, `checked_at` for the time spent and `described_at` for a fresh host;
-- `drain_termination_timeout_seconds` is by sender; `connected` says that there is a connector, and
-- `drain_node` what it answers.
pub record Environment : Type 0 where
  pub now : ℤ
  pub checked_at : ℤ
  pub described_at : ℤ
  pub described : Described
  pub gethostbyaddr : String → Option String
  pub force_terminate : Bool
  pub draining_time_threshold_seconds : ℤ
  pub redraining_delay_seconds : ℕ
  pub drain_termination_timeout_seconds : String → ℕ
  pub connected : Bool
  pub drain_node : (node_name : String) → (disable_eviction : Bool) → Bool

-- `drain` of draining/kubernetes.py
unfoldable pub drain :
    Environment → (node_name : String) → (disable_eviction : Bool) → Bool × List Effect
drain e node_name disable_eviction =
    if e.connected
    then (e.drain_node node_name disable_eviction, k8s_drain node_name disable_eviction ∷ [])
    else (false, [])

-- `uncordon` of draining/kubernetes.py; the answer is not used.
unfoldable pub uncordon : Environment → (node_name : String) → List Effect
uncordon e node_name = if e.connected then k8s_uncordon node_name ∷ [] else []

-- `_drain_k8s_host`
unfoldable pub drain_k8s_host : Environment → Host → (disable_eviction : Bool) → Bool × List Effect
unfolding drain
drain_k8s_host e h disable_eviction =
    let (drained, calls) = drain e h.agent_id disable_eviction in
    if drained
    then (true, calls ++ (send_termination (termination_message h) 0 ∷ []))
    else (false, calls)

-- What is known now of a host that came without an agent.
unfoldable pub fresh_host : Environment → Host → Found
fresh_host e h =
    host_from_instance_id e.gethostbyaddr e.described_at
      (record {
        receipt_handle = h.receipt_handle;
        instance_id = h.instance_id;
        pool = some h.pool;
        termination_reason = some h.termination_reason;
      })
      e.described

-- Case 0 of `process_drain_queue`; `none` is an exception.
unfoldable pub drain_orphan : Host → Found → Option (List Effect)
drain_orphan h missing = some []
drain_orphan h unbound_local_error = none
drain_orphan h (found fresh) =
    if str_eq fresh.agent_id ""
    then some (send_termination (termination_message h) 0 ∷ [])
    else some (send_drain (drain_message fresh (1 + h.attempt)) 0 ∷ [])

-- `spent_time.total_seconds() > draining_time_threshold_seconds`
unfoldable pub is_draining_expired : Environment → Host → Bool
is_draining_expired e h =
    ltb_ℤ e.draining_time_threshold_seconds (e.checked_at -ℤ h.draining_start_time)

-- Case 3
unfoldable pub drain_or_retry : Environment → Host → List Effect
unfolding drain_k8s_host
drain_or_retry e h =
    let (drained, calls) = drain_k8s_host e h (str_eq h.termination_reason spot_interruption) in
    if drained
    then calls
    else calls ++ (send_drain (drain_message h (1 + h.attempt)) e.redraining_delay_seconds ∷ [])

unfoldable pub keep_cache : Dict ℤ → Option (List Effect) → Option (Dict ℤ × List Effect)
keep_cache cache none = none
keep_cache cache (some calls) = some (cache, calls)

-- The Kubernetes branch: the cache and the calls, or an exception.
unfoldable pub process_kubernetes_host : Environment → Host → Dict ℤ → Option (Dict ℤ × List Effect)
unfolding keep_cache drain_orphan fresh_host is_draining_expired drain_or_retry uncordon
process_kubernetes_host e h cache =
    if str_eq h.agent_id ""
    then keep_cache cache (drain_orphan h (fresh_host e h))
    else if is_draining_expired e h
    then (if e.force_terminate
        then some (cache, send_termination (termination_message h) 0 ∷ [])
        else some (delete h.instance_id cache, uncordon e h.agent_id))
    else some (cache, drain_or_retry e h)

-- The branches on the scheduler. A failing `mesos_drain` is caught.
unfoldable pub process_host : Environment → Host → Dict ℤ → Option (Dict ℤ × List Effect)
unfolding process_kubernetes_host
process_host e h cache =
    if str_eq h.scheduler "mesos"
    then some (
      cache,
      mesos_drain h.hostname h.ip
          ∷ send_termination (termination_message h) (e.drain_termination_timeout_seconds h.sender)
          ∷ [],
    )
    else if str_eq h.scheduler "kubernetes"
    then process_kubernetes_host e h cache
    else some (cache, send_termination (termination_message h) 0 ∷ [])

-- `delete_drain_messages` at the end, which an exception does not reach.
unfoldable pub conclude : (cache : Dict ℤ) → Host → Option (Dict ℤ × List Effect) → Outcome
conclude cache h none = record { cache = cache; effects = []; ended = raised }
conclude cache h (some (cache_after, calls)) = record {
  cache = cache_after;
  effects = calls ++ (delete_drain h.receipt_handle ∷ []);
  ended = returned true;
}

-- Whether a host is left to the call that is already processing it.
unfoldable pub is_skipped : Dict ℤ → Host → Bool
is_skipped cache h = has h.instance_id cache && not (ltb 1 h.attempt)

unfoldable pub process_received : Environment → Dict ℤ → Host → Outcome
unfolding is_skipped process_host conclude
process_received e cache h =
    if is_skipped cache h
    then record {
      cache = cache;
      effects = delete_drain h.receipt_handle ∷ [];
      ended = returned true;
    }
    else let cached = put h.instance_id (e.now +ℤ drain_cache_seconds) cache in
      conclude cached h (process_host e h cached)

-- `process_drain_queue`: what was received is a receipt and a message.
unfoldable pub process_drain_queue : Environment → Dict ℤ → Option (String × Message) → Outcome
unfolding process_received
process_drain_queue e cache none = record { cache = cache; effects = []; ended = returned false }
process_drain_queue e cache (some (receipt, m)) =
    process_received e cache (host_of_message receipt m)
