-- ===== src/Migration/Batch/Laws.antt =====
-- What holds between the workers and the events of `NodeMigration` (clusterman/batch/node_migration.py).
use Prim.Native.String.{◌++◌ as append, slice}
use text.Mathlib.TextLemmas.{append_assoc}
use text.Mathlib.TextPositions.{slice-append_left, starts_with-append}
use clusterman.Base.{
  ap, ◌∙◌, suc, ◌+◌, ◌*◌, ◌≤◌, ◌<◌, String, ◌≡◌, refl, inl, inr, true, false, not, ◌||◌, [], ◌∷◌, ℤ,
  Dict, put, delete, has, has-put, str_eq, str_eq_iff, Bool-cases, arith, if◌then◌else◌, ltb_ℤ,
}
use clusterman.Migration.Batch.{
  MigrationEvent, Process, Config, Batch, build_event_label, build_uptime_label,
  is_event_worker_label, spawn_worker, spawn_event_worker, spawn_uptime_worker, mark, record_event,
  started, is_processable, is_running, is_full, running_workers, min_uptime_churning_seconds,
}

module _ {V : Type 0} where
  pub has-delete :
      (k j : String) (d : Dict V) → has j (delete k d) ≡ (if str_eq k j then false else has j d)
  unfolding has delete
  has-delete k j [] = ground arith
  has-delete k j ((i, w) ∷ d) =
      ground (arith, str_eq_iff k j, str_eq_iff i k, str_eq_iff i j, has-delete k j d)

  -- No key stands twice.
  abbrev pub HasUniqueKeys : Dict V → Type 0
  HasUniqueKeys [] = Unit
  HasUniqueKeys ((k, v) ∷ d) = (has k d ≡ false) × HasUniqueKeys d

  pub put-HasUniqueKeys :
      (k : String) (v : V) (d : Dict V) → HasUniqueKeys d → HasUniqueKeys (put k v d)
  unfolding put has
  put-HasUniqueKeys k v [] u = (refl, tt)
  put-HasUniqueKeys k v ((j, w) ∷ d) u =
      ground (arith, str_eq_iff j k, str_eq_iff k j, has-put k j v d, put-HasUniqueKeys k v d)

  pub delete-HasUniqueKeys :
      (k : String) (d : Dict V) → HasUniqueKeys d → HasUniqueKeys (delete k d)
  unfolding delete
  delete-HasUniqueKeys k [] u = tt
  delete-HasUniqueKeys k ((j, w) ∷ d) u =
      ground (arith, str_eq_iff j k, str_eq_iff k j, has-delete k j d, delete-HasUniqueKeys k d)

-- The worker of an event has its event in progress, and no label has two workers.
pub record IsTracked (b : Batch) : Type 0 where
  pub unique : HasUniqueKeys b.migration_workers
  pub tracked :
      (label : String)
      → is_event_worker_label label ≡ true
      → has label b.migration_workers ≡ true
      → has label b.events_in_progress ≡ true

-- The first five letters of the label of an uptime worker
slice-uptime : (rest : String) → slice (append "uptime" rest) 0 5 ≡ "uptim"
slice-uptime rest =
    ap (λ s. slice s 0 5) (append_assoc "uptim" "e" rest)
    ∙ slice-append_left "uptim" (append "e" rest)

is_event-uptime :
    (cluster pool : String) → is_event_worker_label (build_uptime_label cluster pool) ≡ false
unfolding is_event_worker_label build_uptime_label
is_event-uptime cluster pool =
    rw (slice-uptime (append ":" (append cluster (append ":" pool)))) refl

pub has-put_other :
    {V : Type 0} (k j : String) (v : V) (d : Dict V) → has j d ≡ true → has j (put k v d) ≡ true
has-put_other k j v d h = ground (arith, has-put k j v d)

-- A worker that is started for no event
spawn_worker-IsTracked :
    (c : Config) (label : String) (b : Batch)
    → is_event_worker_label label ≡ false
    → IsTracked b
    → IsTracked (spawn_worker c label b).1
unfolding spawn_worker
spawn_worker-IsTracked c label b n t =
    elim (Bool-cases
      (is_running label b.migration_workers || is_full c label b.migration_workers)) [
        | inl e ↦ rw (e) t
        | inr e ↦ rw (e) (record {
          unique = put-HasUniqueKeys label started b.migration_workers t.unique;
          tracked = λ j i h. ground (
            arith,
            n,
            i,
            h,
            t.tracked j i,
            has-put label j started b.migration_workers,
            str_eq_iff label j,
          );
        })
      ]

-- Starting an uptime worker keeps the events tracked.
pub spawn_uptime_worker-IsTracked :
    (c : Config) (pool : String) (uptime_seconds : ℤ) (b : Batch)
    → IsTracked b
    → IsTracked (spawn_uptime_worker c pool uptime_seconds b)
unfolding spawn_uptime_worker
spawn_uptime_worker-IsTracked c pool uptime_seconds b t =
    elim (Bool-cases
      (ltb_ℤ uptime_seconds min_uptime_churning_seconds || not (c.can_set_up pool))) [
        | inl e ↦ rw (e) t
        | inr e ↦ rw (e) (
            spawn_worker-IsTracked c (build_uptime_label c.cluster pool) b
              (is_event-uptime c.cluster pool) t)
      ]

-- Handling an event keeps the events tracked.
pub spawn_event_worker-IsTracked :
    (c : Config) (e : MigrationEvent) (b : Batch)
    → IsTracked b
    → IsTracked (spawn_event_worker c e b)
unfolding spawn_event_worker record_event mark spawn_worker
spawn_event_worker-IsTracked c e b t = elim (Bool-cases (is_processable c e)) [
  | inr p ↦ rw (p) (record { unique = t.unique; tracked = t.tracked })
  | inl p ↦
      let label = build_event_label e in
      elim (Bool-cases
        (is_running label b.migration_workers || is_full c label b.migration_workers)) [
          | inl f ↦ rw (p, f) t
          | inr f ↦
              rw (p, f)
                (record {
                  unique = put-HasUniqueKeys label started b.migration_workers t.unique;
                  tracked = λ j i h. ground (
                    arith,
                    i,
                    h,
                    t.tracked j i,
                    has-put label j started b.migration_workers,
                    has-put label j e b.events_in_progress,
                    str_eq_iff label j,
                  );
                })
        ]
]

is_event-event : (e : MigrationEvent) → is_event_worker_label (build_event_label e) ≡ true
unfolding is_event_worker_label build_event_label
is_event-event e = starts_with-append "event" (append ":" (append e.cluster (append ":" e.pool)))

running_workers-put :
    (label : String) (ps : Dict Process)
    → running_workers (put label started ps) ≤ suc (running_workers ps)
unfolding running_workers put
running_workers-put label [] = omega arith
running_workers-put label ((j, p) ∷ ps) = ground (arith, running_workers-put label ps)

-- Fewer than one slot more than there are is in use.
unfoldable pub IsWithinSlots : Config → Batch → Type 0
IsWithinSlots c b = running_workers b.migration_workers * 1000 < c.available_worker_slots + 1000

-- Handling an event never starts a worker beyond the slots: the workers that run, a thousand each, stay
-- below the slots and one slot more.
pub spawn_event_worker-IsWithinSlots :
    (c : Config) (e : MigrationEvent) (b : Batch)
    → IsWithinSlots c b
    → IsWithinSlots c (spawn_event_worker c e b)
unfolding spawn_event_worker record_event mark spawn_worker IsWithinSlots is_full
spawn_event_worker-IsWithinSlots c e b w = elim (Bool-cases (is_processable c e)) [
  | inr p ↦ rw (p) w
  | inl p ↦
      let label = build_event_label e in
      elim (Bool-cases
        (is_running label b.migration_workers || is_full c label b.migration_workers)) [
          | inl f ↦ rw (p, f) w
          | inr f ↦
              rw (p, f)
                (ground (arith, f, is_event-event e, running_workers-put label b.migration_workers))
        ]
]
