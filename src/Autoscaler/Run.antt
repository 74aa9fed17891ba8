-- ===== src/Autoscaler/Run.antt =====
-- A run of clusterman/autoscaler/autoscaler.py. What the signals, the pool manager and the clock answer
-- is the argument `Environment`; the gauges and the log are left out.
use clusterman.Base.{
  ℕ, ◌≡◌, refl, sym, ◌∙◌, ap, ◌⊎◌, inl, inr, Bool, true, false, ◌&&◌, List, [], ◌∷◌, ◌++◌, Option,
  none, some, ltb, Bool-cases, arith, if◌then◌else◌,
}
use clusterman.Base.Fraction.{Fraction}
use clusterman.Autoscaler.{
  AutoscalingConfig, Failure, unbound_local_error, signal_error, Result, ok, err, Row,
  compute_target_capacity,
}

-- What a signal evaluates to: a request, as rows for the resources of the cluster, or a list of requests
pub data Evaluated : Type 0 where
  request : List Row → Evaluated
  requests : List (List Row) → Evaluated

-- A failure of a signal is `none`. `target_capacity` and the capacity fulfilled by nodes that are no orphans
-- are those after the reload, and an error of the pool manager is one of `target_capacity` or of
-- `modify_target_capacity`.
pub record Environment : Type 0 where
  pub config : AutoscalingConfig
  pub is_paused : Bool
  pub signal : Option Evaluated
  pub default_signal : Option Evaluated
  pub num_removed_nodes : ℕ
  pub target_capacity : Result ℕ
  pub non_orphan_fulfilled_capacity : ℕ
  pub history : List Fraction
  pub modify_answer : Option Failure

pub data Call : Type 0 where
  reload_state : Call
  terminate_orphans : (threshold_seconds : ℕ) (dry_run : Bool) → Call
  modify_capacity : (new_target_capacity : Fraction) (dry_run no_scale_down : Bool) → Call

pub data End : Type 0 where
  returned : End
  raised : Failure → End

-- `autoscaling_is_paused`, on the item of the state table: no item, or its expiration time if it has one
unfoldable pub autoscaling_is_paused : (item : Option (Option ℕ)) → (timestamp : ℕ) → Bool
autoscaling_is_paused none timestamp = false
autoscaling_is_paused (some none) timestamp = true
autoscaling_is_paused (some (some expiration_timestamp)) timestamp =
    if ltb expiration_timestamp timestamp then false else true

module _ (e : Environment) (dry_run : Bool) where
  -- What was requested, and whether the client's signal failed
  unfoldable pub evaluated : Option (Evaluated × Bool)
  evaluated = elim e.signal [
    | some r ↦ some (r, false)
    | none ↦ elim e.default_signal [ some r ↦ some (r, true) | none ↦ none ]
  ]

  unfoldable pub no_scale_down : Bool
  no_scale_down =
      e.config.prevent_scale_down_after_capacity_loss
      && ltb e.config.instance_loss_threshold e.num_removed_nodes

  -- Errors of this call are caught and logged.
  unfoldable pub orphan_calls : List Call
  orphan_calls =
      if e.config.recycle_orphan_instances
      then terminate_orphans e.config.orphan_instance_uptime_threshold_seconds dry_run ∷ []
      else []

  unfoldable pub new_capacity : List Row → Result Fraction
  unfolding compute_target_capacity
  new_capacity rows = elim e.target_capacity [
    | err f ↦ err f
    | ok current ↦
        compute_target_capacity e.config current e.non_orphan_fulfilled_capacity e.history rows
  ]

  -- The end of a run after `modify_target_capacity`
  unfoldable pub run_end : (has_failed : Bool) → End
  run_end has_failed = elim e.modify_answer [
    | some f ↦ raised f
    | none ↦ if has_failed then raised signal_error else returned
  ]

  unfoldable pub scale : (has_failed : Bool) → Result Fraction → List Call × End
  unfolding orphan_calls run_end no_scale_down
  scale has_failed (err f) = (reload_state ∷ [], raised f)
  scale has_failed (ok new_target_capacity) = (
    reload_state
        ∷ (orphan_calls ++ (modify_capacity new_target_capacity dry_run no_scale_down ∷ [])),
    run_end has_failed,
  )

  -- Without a single request `new_target_capacity` is not assigned.
  unfoldable pub run_request : Option (Evaluated × Bool) → List Call × End
  unfolding scale new_capacity
  run_request none = (reload_state ∷ [], raised signal_error)
  run_request (some (requests rs, has_failed)) =
      (reload_state ∷ orphan_calls, raised unbound_local_error)
  run_request (some (request rows, has_failed)) = scale has_failed (new_capacity rows)

  unfoldable pub run : List Call × End
  unfolding run_request evaluated
  run = if e.is_paused then ([], returned) else run_request evaluated

  run_end-returned : (has_failed : Bool) → run_end has_failed ≡ returned → has_failed ≡ false
  unfolding run_end
  run_end-returned has_failed h = ground arith

  modified_only : (has_failed : Bool) → run_end has_failed ≡ returned → e.modify_answer ≡ none
  unfolding run_end
  modified_only has_failed h = ground arith

  scale-returned :
      (has_failed : Bool) (r : Result Fraction)
      → (scale has_failed r).1 ≡ returned
      → (new : Fraction) × (r ≡ ok new)
        × (has_failed ≡ false)
        × ((scale has_failed r).0
            ≡ reload_state ∷ (orphan_calls ++ (modify_capacity new dry_run no_scale_down ∷ [])))
        × (e.modify_answer ≡ none)
  unfolding scale
  scale-returned has_failed (err f) h = ground arith
  scale-returned has_failed (ok new) h =
      (new, refl, run_end-returned has_failed h, refl, modified_only has_failed h)

  run_request-returned :
      (o : Option (Evaluated × Bool))
      → (run_request o).1 ≡ returned
      → (rows : List Row) × (new : Fraction) × (o ≡ some (request rows, false))
        × (new_capacity rows ≡ ok new)
        × ((run_request o).0
            ≡ reload_state ∷ (orphan_calls ++ (modify_capacity new dry_run no_scale_down ∷ [])))
        × (e.modify_answer ≡ none)
  unfolding run_request
  run_request-returned none h = ground arith
  run_request-returned (some (requests rs, has_failed)) h = ground arith
  run_request-returned (some (request rows, has_failed)) h =
      let (new, e1, e2, e3, e4) = scale-returned has_failed (new_capacity rows) h in
      (rows, new, ap (λ b. some (request rows, b)) e2, e1, e3, e4)

  evaluated-signal : (r : Evaluated) → evaluated ≡ some (r, false) → e.signal ≡ some r
  unfolding evaluated
  evaluated-signal r h = ground arith

  not_paused : e.is_paused ≡ false → run ≡ run_request evaluated
  unfolding run
  not_paused p = rw p

  new_capacity-computed :
      (rows : List Row) (new : Fraction)
      → new_capacity rows ≡ ok new
      → (current : ℕ) × (e.target_capacity ≡ ok current)
        × (compute_target_capacity e.config current e.non_orphan_fulfilled_capacity e.history rows
            ≡ ok new)
  unfolding new_capacity
  new_capacity-computed rows new h = computed e.target_capacity h
    where
      computed :
          (r : Result ℕ)
          → (elim r as (λ x. Result Fraction) [
            | err f ↦ err f
            | ok current ↦
                compute_target_capacity e.config current e.non_orphan_fulfilled_capacity e.history
                  rows
          ])
            ≡ ok new
          → (current : ℕ) × (r ≡ ok current)
            × (compute_target_capacity e.config current e.non_orphan_fulfilled_capacity e.history
                  rows
                ≡ ok new)
      computed (err f) k = cc
      computed (ok current) k = (current, refl, k)

  -- A run that returns was paused and has done nothing. Or it was not paused, and has set, after a reload and, if
  -- orphans are to be recycled, their termination, the capacity computed for what the client's signal asks for,
  -- which the pool manager accepted. It lets the pool shrink unless that is to be prevented and too many nodes
  -- were lost.
  pub run-returned :
      run.1 ≡ returned
      → (e.is_paused ≡ true) × (run.0 ≡ [])
        ⊎ ((rows : List Row) × (current : ℕ) × (new : Fraction) × (e.is_paused ≡ false)
            × (e.signal ≡ some (request rows))
            × (e.target_capacity ≡ ok current)
            × (compute_target_capacity e.config current e.non_orphan_fulfilled_capacity e.history
                  rows
                ≡ ok new)
            × (e.modify_answer ≡ none)
            × (run.0
                ≡ reload_state
                  ∷ ((if e.config.recycle_orphan_instances
                        then terminate_orphans e.config.orphan_instance_uptime_threshold_seconds
                            dry_run
                          ∷ []
                        else [])
                      ++ (modify_capacity new dry_run (
                            e.config.prevent_scale_down_after_capacity_loss
                            && ltb e.config.instance_loss_threshold e.num_removed_nodes)
                          ∷ []))))
  unfolding run orphan_calls no_scale_down
  run-returned h = elim (Bool-cases e.is_paused) [
    | inl p ↦ inl (p, rw p)
    | inr p ↦
        let reduced = not_paused p in
        let (rows, new, e1, e2, e3, e4) =
          run_request-returned evaluated (sym (ap (λ r. r.1) reduced) ∙ h) in
        let (current, k1, k2) = new_capacity-computed rows new e2 in
        inr (
          rows,
          current,
          new,
          p,
          evaluated-signal (request rows) e1,
          k1,
          k2,
          e4,
          ap (λ r. r.0) reduced ∙ e3,
        )
  ]
