-- ===== src/Migration/Batch/Monitor.antt =====
-- `monitor_workers` of clusterman/batch/node_migration.py: no event is missing when its worker completes.
use clusterman.Base.{
  String, ◌≡◌, refl, sym, subst, inl, inr, Bool, true, false, List, [], ◌∷◌, Option, none, some,
  pos, eq_ℤ, In, Dict, put, delete, has, has-put, has→get, str_eq, str_eq_iff, Bool-cases, arith,
}
use clusterman.Migration.Batch.{
  Process, Batch, is_event_worker_label, complete_one, complete, restart_all, monitor_workers,
  exited, mark, completed, started,
}
use clusterman.Migration.Batch.Laws.{
  IsTracked, HasUniqueKeys, has-put_other, has-delete, put-HasUniqueKeys, delete-HasUniqueKeys,
}

abbrev IsDistinctLabels : List String → Type 0
IsDistinctLabels [] = Unit
IsDistinctLabels (l ∷ ls) = ((j : String) → In j ls → str_eq l j ≡ false) × IsDistinctLabels ls

-- The labels that are left are those of workers.
abbrev AreWorkers : Batch → List String → Type 0
AreWorkers b ls = (j : String) → In j ls → has j b.migration_workers ≡ true

exited-has :
    (clean : Bool) (ps : Dict Process) (j : String) → In j (exited clean ps) → has j ps ≡ true
unfolding exited has
exited-has clean [] j i = absurd i
exited-has clean ((label, p) ∷ ps) j i = ground (arith, str_eq_iff label j, exited-has clean ps j)

exited-IsDistinctLabels :
    (clean : Bool) (ps : Dict Process) → HasUniqueKeys ps → IsDistinctLabels (exited clean ps)
unfolding exited
exited-IsDistinctLabels clean [] u = tt
exited-IsDistinctLabels clean ((label, p) ∷ ps) u =
    let rest = exited-IsDistinctLabels clean ps u.1 in
    let apart : (j : String) → In j (exited clean ps) → str_eq label j ≡ false =
      λ j i. ground (arith, str_eq_iff label j, exited-has clean ps j i, u) in
    elim (Bool-cases p.is_alive) [
      | inl a ↦ rw (a) rest
      | inr a ↦ elim (Bool-cases (eq_ℤ p.exitcode (pos 0))) [
        | inl z ↦ elim (Bool-cases clean) [
          | inl c ↦ rw (a, z, c) (apart, rest)
          | inr c ↦ rw (a, z, c) rest
        ]
        | inr z ↦ elim (Bool-cases clean) [
          | inl c ↦ rw (a, z, c) rest
          | inr c ↦ rw (a, z, c) (apart, rest)
        ]
      ]
    ]

complete_one-IsTracked :
    (label : String) (b : Batch)
    → has label b.migration_workers ≡ true
    → IsTracked b
    → (after : Batch) × (complete_one label b ≡ some after)
      × IsTracked after
      × (after.migration_workers ≡ delete label b.migration_workers)
unfolding complete_one mark
complete_one-IsTracked label b h t = elim (Bool-cases (is_event_worker_label label)) [
  | inl e ↦
      let (event, found) = has→get label b.events_in_progress (t.tracked label e h) in
      (
        mark event completed (record b {
          events_in_progress = delete label b.events_in_progress;
          migration_workers = delete label b.migration_workers;
        }),
        rw (e, found) refl,
        record {
          unique = delete-HasUniqueKeys label b.migration_workers t.unique;
          tracked = λ j i k. ground (
            arith,
            i,
            k,
            t.tracked j i,
            has-delete label j b.migration_workers,
            has-delete label j b.events_in_progress,
          );
        },
        refl,
      )
  | inr e ↦ (
    record b { migration_workers = delete label b.migration_workers },
    rw (e) refl,
    record {
      unique = delete-HasUniqueKeys label b.migration_workers t.unique;
      tracked =
          λ j i k. ground (arith, i, k, t.tracked j i, has-delete label j b.migration_workers);
    },
    refl,
  )
]

complete-step :
    (label : String) (labels : List String) (b : Batch) {next after : Batch}
    → complete_one label b ≡ some next
    → complete labels next ≡ some after
    → complete (label ∷ labels) b ≡ some after
unfolding complete
complete-step label labels b {after = after} e f =
    subst
      (λ o.
        (elim o as (λ x. Option Batch) [ none ↦ none | some a ↦ complete labels a ]) ≡ some after)
      (sym e) f

-- Workers of other labels stay.
abbrev KeepsOthers : List String → Batch → Batch → Type 0
KeepsOthers labels b after =
    (j : String)
    → ((i : String) → In i labels → str_eq i j ≡ false)
    → has j b.migration_workers ≡ true
    → has j after.migration_workers ≡ true

still_worker :
    (label j : String) (b next : Batch)
    → next.migration_workers ≡ delete label b.migration_workers
    → str_eq label j ≡ false
    → has j b.migration_workers ≡ true
    → has j next.migration_workers ≡ true
still_worker label j b next m n w =
    subst (λ ps. has j ps ≡ true) (sym m)
      (ground (arith, has-delete label j b.migration_workers, n, w))

complete-IsTracked :
    (labels : List String) (b : Batch)
    → IsDistinctLabels labels
    → AreWorkers b labels
    → IsTracked b
    → (after : Batch) × (complete labels b ≡ some after)
      × IsTracked after
      × KeepsOthers labels b after
unfolding complete
complete-IsTracked [] b d w t = (b, refl, t, λ j n h. h)
complete-IsTracked (label ∷ labels) b d w t =
    let (next, e, u, m) = complete_one-IsTracked label b (w label (inl refl)) t in
    let (after, f, v, o) =
      complete-IsTracked labels next d.1
        (λ j i. still_worker label j b next m (d.0 j i) (w j (inr i))) u in
    (
      after,
      complete-step label labels b e f,
      v,
      λ j n h. o j (λ i k. n i (inr k)) (still_worker label j b next m (n label (inl refl)) h),
    )

exited_apart :
    (ps : Dict Process) (i j : String)
    → HasUniqueKeys ps
    → In i (exited true ps)
    → In j (exited false ps)
    → str_eq i j ≡ false
unfolding exited
exited_apart [] i j u h k = absurd h
exited_apart ((label, p) ∷ ps) i j u h k =
    ground (
      arith,
      str_eq_iff i j,
      u,
      exited_apart ps i j u.1,
      exited-has true ps i,
      exited-has false ps j,
    )

restarted :
    (label j : String) (b : Batch)
    → has label b.migration_workers ≡ true
    → has j (put label started b.migration_workers) ≡ true
    → has j b.migration_workers ≡ true
restarted label j b w h =
    ground (arith, has-put label j started b.migration_workers, str_eq_iff label j)

restart_all-IsTracked :
    (labels : List String) (b : Batch)
    → AreWorkers b labels
    → IsTracked b
    → IsTracked (restart_all labels b)
unfolding restart_all
restart_all-IsTracked [] b w t = t
restart_all-IsTracked (label ∷ labels) b w t =
    restart_all-IsTracked labels _
      (λ j i. has-put_other label j started b.migration_workers (w j (inr i)))
      (record {
        unique = put-HasUniqueKeys label started b.migration_workers t.unique;
        tracked = λ j i h. t.tracked j i (restarted label j b (w label (inl refl)) h);
      })

-- While every event worker has its event in progress and no label has two workers, a check of the
-- workers finds the event of each worker that has completed, so it raises no `KeyError`, and leaves
-- the events tracked.
pub monitor_workers-IsTracked :
    (b : Batch) → IsTracked b → (after : Batch) × (monitor_workers b ≡ some after) × IsTracked after
unfolding monitor_workers
monitor_workers-IsTracked b t =
    let (middle, e, u, o) =
      complete-IsTracked (exited true b.migration_workers) b
        (exited-IsDistinctLabels true b.migration_workers t.unique)
        (exited-has true b.migration_workers) t in
    let torestart = exited false b.migration_workers in
    (
      restart_all torestart middle,
      restarts (complete (exited true b.migration_workers) b) torestart e,
      restart_all-IsTracked torestart middle
          (λ j k.
            o j (λ i h. exited_apart b.migration_workers i j t.unique h k)
              (exited-has false b.migration_workers j k))
          u,
    )
  where
    restarts :
        (o : Option Batch) (labels : List String) {middle : Batch}
        → o ≡ some middle
        → (elim o as (λ x. Option Batch) [ none ↦ none | some a ↦ some (restart_all labels a) ])
          ≡ some (restart_all labels middle)
    restarts o labels e = rw (e) refl
