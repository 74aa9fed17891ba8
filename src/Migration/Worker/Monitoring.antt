-- ===== src/Migration/Worker/Monitoring.antt =====
-- What `_monitor_pool_health` (clusterman/migration/worker.py) has seen when its value is true.
use clusterman.Base.{
  ◌≡◌, refl, subst, inl, inr, ◌⊎◌, Bool, true, false, not, ◌||◌, List, [], ◌∷◌, In, any, arith,
  Bool-cases,
}
use clusterman.Interfaces.{ClusterNodeMetadata}
use clusterman.PoolManager.Defs.{Result, ok}
use clusterman.PoolManager.Nodes.{is_capacity_satisfied}
use clusterman.PoolManager.Modify.Laws.{>>=-ok}
use clusterman.Migration.Worker.{
  Reading, Health, is_still_there, check_capacity, observe, is_healthy, monitor_from,
  monitor_pool_health, unseen,
}

-- A reading of the list has the property.
abbrev pub Shown : (Reading → Type 0) → List Reading → Type 0
Shown P rs = (r : Reading) × In r rs × P r

IsExplained : (drained : List ClusterNodeMetadata) (ignore : Bool) → Health → List Reading → Type 0
IsExplained drained ignore h rs =
    ((h.draining_happened ≡ true) ⊎ Shown (λ r. any (is_still_there r) drained ≡ false) rs)
    × ((h.capacity_satisfied ≡ true) ⊎ Shown (λ r. is_capacity_satisfied r.manager ≡ ok true) rs)
    × ((h.pods_healthy ≡ true)
        ⊎ (ignore ≡ true)
        ⊎ Shown (λ r. r.has_enough_capacity_for_pods ≡ true) rs)

check_capacity-ok :
    (r : Reading) (satisfied draining_happened : Bool)
    → check_capacity r satisfied draining_happened ≡ ok true
    → (satisfied ≡ true) ⊎ (is_capacity_satisfied r.manager ≡ ok true)
unfolding check_capacity
check_capacity-ok r true d e = inl refl
check_capacity-ok r false true e = inr e
check_capacity-ok r false false e = ground (arith, e)

-- The flags after one reading come from the flags before it or from the reading.
IsObserved :
    (drained : List ClusterNodeMetadata) (ignore : Bool)
    → Reading
    → (before after : Health) → Type 0
IsObserved drained ignore r h a =
    (a.draining_happened ≡ true
      → (h.draining_happened ≡ true) ⊎ (any (is_still_there r) drained ≡ false))
    × (a.capacity_satisfied ≡ true
        → (h.capacity_satisfied ≡ true) ⊎ (is_capacity_satisfied r.manager ≡ ok true))
    × (a.pods_healthy ≡ true
        → (h.pods_healthy ≡ true) ⊎ (ignore ≡ true) ⊎ (r.has_enough_capacity_for_pods ≡ true))

observe-IsObserved :
    (drained : List ClusterNodeMetadata) (ignore : Bool) (r : Reading) (h after : Health)
    → observe drained ignore r h ≡ ok after
    → IsObserved drained ignore r h after
unfolding observe IsObserved
observe-IsObserved drained ignore r h after e =
    let draining = h.draining_happened || not (any (is_still_there r) drained) in
    let (c, k, f) = >>=-ok (check_capacity r h.capacity_satisfied draining) _ e in
    (
      λ d. ground (arith, d, f),
      λ x. check_capacity-ok r h.capacity_satisfied draining (
          subst (λ b. check_capacity r h.capacity_satisfied draining ≡ ok b) (ground (arith, x, f))
            k),
      λ x. ground (arith, x, f),
    )

-- A flag that the rest of the readings explains, explained from one reading earlier
earlier :
    (P : Reading → Type 0) (before after : Bool) (r : Reading) (rs : List Reading)
    → (after ≡ true → (before ≡ true) ⊎ P r)
    → (after ≡ true) ⊎ Shown P rs
    → (before ≡ true) ⊎ Shown P (r ∷ rs)
earlier P before after r rs f (inl a) = elim (f a) [ inl b ↦ inl b | inr p ↦ inr (r, inl refl, p) ]
earlier P before after r rs f (inr (q, i, p)) = inr (q, inr i, p)

earlier_pods :
    (Q : Type 0) (P : Reading → Type 0) (before after : Bool) (r : Reading) (rs : List Reading)
    → (after ≡ true → (before ≡ true) ⊎ Q ⊎ P r)
    → (after ≡ true) ⊎ Q ⊎ Shown P rs
    → (before ≡ true) ⊎ Q ⊎ Shown P (r ∷ rs)
earlier_pods Q P before after r rs f (inl a) = elim (f a) [
  | inl b ↦ inl b
  | inr (inl q) ↦ inr (inl q)
  | inr (inr p) ↦ inr (inr (r, inl refl, p))
]
earlier_pods Q P before after r rs f (inr (inl q)) = inr (inl q)
earlier_pods Q P before after r rs f (inr (inr (q, i, p))) = inr (inr (q, inr i, p))

observed-IsExplained :
    (drained : List ClusterNodeMetadata) (ignore : Bool) (r : Reading) (rs : List Reading)
    (h after : Health)
    → IsObserved drained ignore r h after
    → IsExplained drained ignore after rs
    → IsExplained drained ignore h (r ∷ rs)
unfolding IsObserved IsExplained
observed-IsExplained drained ignore r rs h after (f, g, k) (x, y, z) = (
  earlier (λ r. any (is_still_there r) drained ≡ false) h.draining_happened after.draining_happened
      r rs f x,
  earlier (λ r. is_capacity_satisfied r.manager ≡ ok true) h.capacity_satisfied
      after.capacity_satisfied r rs g y,
  earlier_pods (ignore ≡ true) (λ r. r.has_enough_capacity_for_pods ≡ true) h.pods_healthy
      after.pods_healthy r rs k z,
)

healthy-IsExplained :
    (drained : List ClusterNodeMetadata) (ignore : Bool) (h : Health) (rs : List Reading)
    → is_healthy h ≡ true
    → IsExplained drained ignore h rs
unfolding is_healthy IsExplained
healthy-IsExplained drained ignore h rs e =
    (inl (ground (arith, e)), inl (ground (arith, e)), inl (ground (arith, e)))

monitor_from-IsExplained :
    (drained : List ClusterNodeMetadata) (ignore : Bool) (h : Health) (rs : List Reading)
    → monitor_from drained ignore h rs ≡ ok true
    → IsExplained drained ignore h rs
unfolding monitor_from
monitor_from-IsExplained drained ignore h [] e = absurd (ground (arith, e))
monitor_from-IsExplained drained ignore h (r ∷ rs) e =
    let (after, k, f) = >>=-ok (observe drained ignore r h) _ e in
    observed-IsExplained drained ignore r rs h after (observe-IsObserved drained ignore r h after k)
      (settle after (λ g. monitor_from-IsExplained drained ignore after rs g) f)
  where
    settle :
        (after : Health)
        → (monitor_from drained ignore after rs ≡ ok true → IsExplained drained ignore after rs)
        → (elim (is_healthy after) as (λ x. Result Bool) [
          | true ↦ ok true
          | false ↦ monitor_from drained ignore after rs
        ])
          ≡ ok true
        → IsExplained drained ignore after rs
    settle after later f = elim (Bool-cases (is_healthy after)) [
      | inl y ↦ healthy-IsExplained drained ignore after rs y
      | inr n ↦ later (rw (n) at f)
    ]

-- A pool is called healthy only if one of the readings showed none of the drained nodes' agents behind
-- its node's address, one showed the capacity satisfied, and, unless pods are ignored, one showed
-- enough capacity for the pods.
pub monitor_pool_health-seen :
    (drained : List ClusterNodeMetadata) (ignore : Bool) (readings : List Reading)
    → monitor_pool_health drained ignore readings ≡ ok true
    → Shown (λ r. any (is_still_there r) drained ≡ false) readings
      × Shown (λ r. is_capacity_satisfied r.manager ≡ ok true) readings
      × ((ignore ≡ true) ⊎ Shown (λ r. r.has_enough_capacity_for_pods ≡ true) readings)
unfolding monitor_pool_health IsExplained
monitor_pool_health-seen drained ignore readings e =
    let (x, y, z) = monitor_from-IsExplained drained ignore unseen readings e in
    (not_before _ x, not_before _ y, not_before _ z)
  where
    not_before : (A : Type 0) → (false ≡ true) ⊎ A → A
    not_before A (inl e) = absurd (ground (arith, e))
    not_before A (inr a) = a
