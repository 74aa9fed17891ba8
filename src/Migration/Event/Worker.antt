-- ===== src/Migration/Event/Worker.antt =====
-- What a worker for a migration event has done when it ends.
use mathlib.Core.List.{append_assoc}
use clusterman.Base.{
  String, ℕ, suc, ◌+◌, ◌≤◌, ◌≡◌, refl, sym, ap, ◌⊎◌, inl, inr, ◌&&◌, Bool, true, false, not, List,
  [], ◌∷◌, ◌++◌, map, Option, some, In, Bool-cases, Option-cases, length, ℤ, arith, if◌then◌else◌,
}
use clusterman.Interfaces.{ClusterNodeMetadata}
use clusterman.PoolManager.Defs.{Result, ok, err}
use clusterman.Migration.Condition.{Values, EventResource, matches}
use clusterman.Migration.Settings.{
  WorkerConfig, WorkerSetup, portion_of, is_some_portion, from_config, from_config-rate,
}
use clusterman.PoolManager.Capacity.{target_capacity}
use clusterman.Migration.Worker.{monitor_pool_health}
use clusterman.Migration.Worker.Laws.{drain_node_selection-complete}
use clusterman.Migration.Event.{
  Call, acquire_lock, disable_autoscaling, submit_for_draining, release_lock, enable_autoscaling,
  Environment, Progress, also, is_true, front, nodes, reloaded_nodes, has_agent, node_selector,
  selector_fails, prescale, prescale_to, prescaled_capacity, modify_target_capacity,
  set_label_selectors, reload_state, migration_routine, migrate, checked_pool, try_block,
  finally_calls, finally_goes_on, event_migration_worker,
}

not_both : (b : Bool) → b ≡ false → b ≡ true → ⊥
not_both b h k = ground arith

first_holds : (a b : Bool) → (a && b) ≡ true → a ≡ true
first_holds a b h = ground arith

second_fails : (a b : Bool) → b ≡ false → (a && b) ≡ false
second_fails a b h = ground arith

also-goes_on :
    (b : Bool) (calls : List Call) (p : Progress)
    → (also b calls p).goes_on ≡ true
    → (b ≡ true) × ((also b calls p).calls ≡ p.calls ++ calls)
also-goes_on b calls p h = elim (Bool-cases p.goes_on) [
  | inl e ↦ rw e (rw e at h, refl)
  | inr e ↦ absurd (not_both false refl (rw e at h))
]

In-append_right : {A : Type 0} (a : A) (xs ys : List A) → In a ys → In a (xs ++ ys)
In-append_right a [] ys h = h
In-append_right a (x ∷ xs) ys h = inr (In-append_right a xs ys h)

In-append_left : {A : Type 0} (a : A) (xs ys : List A) → In a xs → In a (xs ++ ys)
In-append_left a [] ys h = absurd h
In-append_left a (x ∷ xs) ys (inl e) = inl e
In-append_left a (x ∷ xs) ys (inr h) = inr (In-append_left a xs ys h)

In-map : {A B : Type 0} (f : A → B) (a : A) (xs : List A) → In a xs → In (f a) (map f xs)
In-map f a [] h = h
In-map f a (x ∷ xs) (inl e) = inl (ap f e)
In-map f a (x ∷ xs) (inr h) = inr (In-map f a xs h)

ended_true : (r : Result Bool) → is_true r ≡ true → r ≡ ok true
ended_true (ok b) h = ap (λ c. ok c) h
ended_true (err e) h = ground arith

stopped : (calls : List Call) (p : Progress) → (also false calls p).goes_on ≡ true → ⊥
stopped calls p h = not_both false refl (also-goes_on false calls p h).0

module _ {V : Type 0} (values : Values V) (event : EventResource V) (setup : WorkerSetup)
    (env : Environment) where
  -- What the draining sends is everything that is selected.
  submitted :
      (n : ClusterNodeMetadata)
      → 1 ≤ portion_of setup.rate (length (reloaded_nodes values event setup env))
      → (migration_routine values event setup env).ended ≡ ok true
      → In n (reloaded_nodes values event setup env)
      → node_selector values event setup env n ≡ true
      → In n (migration_routine values event setup env).submitted
  unfolding migration_routine
  submitted n l e i s =
      drain_node_selection-complete (node_selector values event setup env) setup.precedence
        (portion_of setup.rate (length (reloaded_nodes values event setup env)))
        setup.ignore_pod_health env.readings (reloaded_nodes values event setup env) n l e i s

  migrate-goes_on :
      (p : Progress) (n : ClusterNodeMetadata)
      → 1 ≤ portion_of setup.rate (length (reloaded_nodes values event setup env))
      → (migrate values event setup env p).goes_on ≡ true
      → In n (reloaded_nodes values event setup env)
      → node_selector values event setup env n ≡ true
      → In (submit_for_draining n) (migrate values event setup env p).calls
  unfolding migrate
  migrate-goes_on p n l h i s = elim (Bool-cases (selector_fails values event setup env)) [
    | inl f ↦ absurd (stopped [] p (rw (migrate, f) at h))
    | inr f ↦ elim (Option-cases env.time_is_up_after) [
      | inr (k, t) ↦ absurd (
          stopped
            (map submit_for_draining (front k (migration_routine values event setup env).submitted))
            p (rw (migrate, f, t) at h))
      | inl t ↦
          let d = migration_routine values event setup env in
          let calls = map submit_for_draining d.submitted in
          let (e, c) = also-goes_on (is_true d.ended) calls p (rw (migrate, f, t) at h) in
          rw (migrate, f, t, c)
            (In-append_right (submit_for_draining n) p.calls calls
              (In-map submit_for_draining n d.submitted (submitted n l (ended_true d.ended e) i s)))
    ]
  ]

  -- The node has an agent, and the condition of the event says that it is not met.
  abbrev pub IsOutdated : ClusterNodeMetadata → Type 0
  IsOutdated n =
      (has_agent values event setup env n ≡ true) × (matches values event.condition n ≡ some false)

  outdated-selected :
      (n : ClusterNodeMetadata) → IsOutdated n → node_selector values event setup env n ≡ true
  unfolding node_selector
  outdated-selected n (a, m) = rw (a, m) refl

  -- A worker for an event that returns has sent to the drain queue each node that has an agent and does not meet
  -- the condition of the event, of those running when the pool was last found healthy before the draining. The setup
  -- is one that can be loaded.
  pub event_migration_worker-complete :
      (parse : String → Option ℕ) (c : WorkerConfig) (n : ClusterNodeMetadata)
      → from_config parse c ≡ some setup
      → (event_migration_worker values event setup env).goes_on ≡ true
      → In n (reloaded_nodes values event setup env)
      → IsOutdated n
      → In (submit_for_draining n) (event_migration_worker values event setup env).calls
  unfolding event_migration_worker try_block
  event_migration_worker-complete parse c n l h i o = elim (Bool-cases env.reloads) [
    | inr e ↦ absurd (not_both false refl (rw (event_migration_worker, e) at h))
    | inl e ↦ elim (Bool-cases env.acquires) [
      | inr f ↦ absurd (not_both false refl (rw (event_migration_worker, e, f) at h))
      | inl f ↦
          let p = checked_pool values event setup env in
          let m =
            migrate-goes_on p n
              (from_config-rate parse c setup (length (reloaded_nodes values event setup env)) l)
              (first_holds (migrate values event setup env p).goes_on
                (finally_goes_on values event setup env) (rw (event_migration_worker, e, f) at h))
              i (outdated-selected n o) in
          rw (event_migration_worker, e, f)
            (inr (
              inr (
                In-append_left (submit_for_draining n) (migrate values event setup env p).calls
                  (finally_calls values event setup env true) m)))
    ]
  ]

abbrev pub is_release : Call → Bool
is_release release_lock = true
is_release _ = false

-- How often the lock is released
abbrev pub releases : List Call → ℕ
releases [] = 0
releases (c ∷ calls) = let rest = releases calls in if is_release c then suc rest else rest

releases-append : (xs ys : List Call) → releases (xs ++ ys) ≡ releases xs + releases ys
releases-append [] ys = omega arith
releases-append (x ∷ xs) ys = ground (arith, releases-append xs ys)

releases-map : (ns : List ClusterNodeMetadata) → releases (map submit_for_draining ns) ≡ 0
releases-map [] = refl
releases-map (n ∷ ns) = releases-map ns

releases-also :
    (b : Bool) (calls : List Call) (p : Progress)
    → releases calls ≡ 0
    → releases p.calls ≡ 0
    → releases (also b calls p).calls ≡ 0
releases-also b calls p h k = elim (Bool-cases p.goes_on) [
  | inl e ↦ rw e (omega (arith, releases-append p.calls calls))
  | inr e ↦ rw e k
]

module _ {V : Type 0} (values : Values V) (event : EventResource V) (setup : WorkerSetup)
    (env : Environment) where
  releases-prescale_to :
      (ns : List ClusterNodeMetadata) (target : Result ℤ) (p : Progress)
      → releases p.calls ≡ 0
      → releases (prescale_to values event setup env ns target p).calls ≡ 0
  releases-prescale_to [] target p h = releases-also false [] p refl h
  releases-prescale_to (n ∷ ns) (err e) p h = releases-also false [] p refl h
  releases-prescale_to (n ∷ ns) (ok target) p h =
      releases-also env.modifies
        (modify_target_capacity (prescaled_capacity values event setup env target) ∷ []) p refl h

  releases-prescale :
      (p : Progress) → releases p.calls ≡ 0 → releases (prescale values event setup env p).calls ≡ 0
  unfolding prescale
  releases-prescale p h = elim (Bool-cases (is_some_portion setup.prescaling)) [
    | inl e ↦
        rw (prescale, e)
          (releases-prescale_to (nodes values event setup env)
            (target_capacity env.pool.resource_groups) p h)
    | inr e ↦ rw (prescale, e) h
  ]

  releases-migrate :
      (p : Progress) → releases p.calls ≡ 0 → releases (migrate values event setup env p).calls ≡ 0
  unfolding migrate
  releases-migrate p h = elim (Bool-cases (selector_fails values event setup env)) [
    | inl f ↦ rw (migrate, f) (releases-also false [] p refl h)
    | inr f ↦ elim (Option-cases env.time_is_up_after) [
      | inr (k, t) ↦
          rw (migrate, f, t)
            (releases-also false
              (map submit_for_draining
                (front k (migration_routine values event setup env).submitted))
              p (releases-map (front k (migration_routine values event setup env).submitted)) h)
      | inl t ↦
          rw (migrate, f, t)
            (releases-also (is_true (migration_routine values event setup env).ended)
              (map submit_for_draining (migration_routine values event setup env).submitted) p
              (releases-map (migration_routine values event setup env).submitted) h)
    ]
  ]

  releases-checked_pool : releases (checked_pool values event setup env).calls ≡ 0
  unfolding checked_pool
  releases-checked_pool =
      let start : Progress = record {
        calls = acquire_lock setup.expected_duration ∷ [];
        goes_on = true;
      } in
      elim (Bool-cases setup.disable_autoscaling) [
        | inl e ↦ rw e (
            releases-also (is_true (monitor_pool_health [] true env.first_readings)) []
              (prescale values event setup env (
                also env.disables (disable_autoscaling (env.now + setup.expected_duration) ∷ [])
                  start))
              refl
              (releases-prescale
                (also env.disables (disable_autoscaling (env.now + setup.expected_duration) ∷ [])
                  start)
                refl))
        | inr e ↦ rw e (
            releases-also (is_true (monitor_pool_health [] true env.first_readings)) []
              (prescale values event setup env start) refl (releases-prescale start refl))
      ]

  releases-finally :
      (b : Bool) → releases (finally_calls values event setup env b) ≡ (if b then 1 else 0)
  unfolding finally_calls
  releases-finally b = ground arith

  finally_last :
      (b : Bool) (calls : List Call)
      → setup.disable_autoscaling ≡ true
      → (b ≡ false) ⊎ (env.releases ≡ true)
      → (earlier : List Call) × (calls ++ finally_calls values event setup env b
          ≡ earlier ++ enable_autoscaling ∷ [])
  unfolding finally_calls
  finally_last false calls h o = (calls, rw h refl)
  finally_last true calls h (inl e) = absurd (not_both true e refl)
  finally_last true calls h (inr e) = (
    calls ++ release_lock ∷ [],
    rw (h, e) (sym (append_assoc calls (release_lock ∷ []) (enable_autoscaling ∷ []))),
  )

  -- However the worker ends once the pool is loaded, it releases the lock once if the call that acquires it came
  -- back, and not at all otherwise. Where autoscaling is to be paused, its last call enables it again, unless that
  -- release raises: then the release is the last call, and the worker does not return.
  pub event_migration_worker-restores :
      env.reloads ≡ true
      → (releases (event_migration_worker values event setup env).calls
          ≡ (if env.acquires then 1 else 0))
        × (setup.disable_autoscaling ≡ true
            → (env.acquires ≡ false) ⊎ (env.releases ≡ true)
            → (earlier : List Call) × ((event_migration_worker values event setup env).calls
                ≡ earlier ++ enable_autoscaling ∷ []))
        × (env.acquires ≡ true
            → env.releases ≡ false
            → ((earlier : List Call) × ((event_migration_worker values event setup env).calls
                  ≡ earlier ++ release_lock ∷ []))
              × ((event_migration_worker values event setup env).goes_on ≡ false))
  unfolding event_migration_worker try_block finally_calls finally_goes_on
  event_migration_worker-restores h = elim (Bool-cases env.acquires) [
    | inl f ↦
        let p = migrate values event setup env (checked_pool values event setup env) in
        let before =
          set_label_selectors event.label_selectors
          ∷ reload_state (not setup.ignore_pod_health)
          ∷ p.calls in
        rw (event_migration_worker, h, f)
          (
            omega (
              arith,
              releases-append p.calls (finally_calls values event setup env true),
              releases-migrate (checked_pool values event setup env) releases-checked_pool,
              releases-finally true,
            ),
            λ d o. finally_last true before d o,
            λ a k. (
              (before, rw k refl),
              second_fails p.goes_on (finally_goes_on values event setup env) (rw k refl),
            ),
          )
    | inr f ↦
        rw (event_migration_worker, h, f)
          (
            releases-finally false,
            λ d o.
                finally_last false
                  (set_label_selectors event.label_selectors
                    ∷ reload_state (not setup.ignore_pod_health)
                    ∷ acquire_lock setup.expected_duration
                    ∷ [])
                  d o,
            λ a k. absurd (not_both false refl a),
          )
  ]
