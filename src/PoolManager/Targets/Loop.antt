-- ===== src/PoolManager/Targets/Loop.antt =====
-- The loop of `_compute_new_resource_group_targets`: its rule, its sum, and that it ends.
use clusterman.Base.{
  ℕ, zero, suc, ◌<◌, ◌≡◌, ◌⊎◌, inl, inr, Bool, true, false, List, none, some, Bool-cases,
  Option-cases, ℤ, pos_part, ◌+ℤ◌, ◌-ℤ◌, ◌<ℤ◌, arith, +ℤ_parts, -ℤ_parts, neg_ℤ_parts, eq_of_parts,
  In, Dict, put, has, has→get, has-put,
}
use clusterman.PoolManager.Defs.{ResourceGroup}
use clusterman.PoolManager.Targets.{
  unit, key, step, target_of, choose, sum_values, unmet, distribute,
}
use clusterman.PoolManager.Targets.Step.{choose-some, sum_values-put}

module _ (up : Bool) (goal : ℤ) (groups : List ResourceGroup) where
  abbrev pub next : Dict ℤ → ResourceGroup → Dict ℤ
  next targets c = put c.id (step up (target_of targets c)) targets

  -- What a round keeps, the loop keeps.
  pub distribute_ind {ℓ} :
      (P : Dict ℤ → Type ℓ)
      → ((targets : Dict ℤ) (c : ResourceGroup)
          → unmet up goal targets ≡ true
          → choose up targets groups ≡ some c
          → P targets
          → P (next targets c))
      → (fuel : ℕ) (targets : Dict ℤ) → P targets
      → P (distribute fuel up goal groups targets)
  unfolding distribute
  distribute_ind P round zero targets p = p
  distribute_ind P round (suc fuel) targets p = elim (Bool-cases (unmet up goal targets)) [
    | inr met ↦ rw (met, distribute) p
    | inl more ↦ elim (Option-cases (choose up targets groups)) [
      | inl e ↦ rw (more, e, distribute) p
      | inr (c, e) ↦
          rw (more, e, distribute)
            (distribute_ind P round fuel (next targets c) (round targets c more e p))
    ]
  ]

  -- Every group has an entry.
  abbrev pub IsTotal : Dict ℤ → Type 0
  IsTotal targets = (g : ResourceGroup) → In g groups → has g.id targets ≡ true

  pub next-IsTotal :
      (targets : Dict ℤ) (c : ResourceGroup) → IsTotal targets → IsTotal (next targets c)
  next-IsTotal targets c total g h =
      ground (arith, has-put c.id g.id (step up (target_of targets c)) targets, total g h)

  -- A round moves the sum by one step.
  pub next-sum :
      (targets : Dict ℤ) (c : ResourceGroup)
      → has c.id targets ≡ true
      → key up (sum_values (next targets c)) ≡ key up (sum_values targets) +ℤ unit
  unfolding key step target_of
  next-sum targets c h =
      let (w, e) = has→get c.id targets h in
      ground (
        arith,
        e,
        sum_values-put c.id (step up w) w targets e,
        +ℤ_parts (sum_values (put c.id (step up w) targets)) w,
        +ℤ_parts (sum_values targets) (step up w),
        +ℤ_parts w unit,
        -ℤ_parts w unit,
        +ℤ_parts (key up (sum_values targets)) unit,
        neg_ℤ_parts (sum_values targets),
        neg_ℤ_parts (sum_values (put c.id (step up w) targets)),
        eq_of_parts (key up (sum_values (put c.id (step up w) targets)))
            (key up (sum_values targets) +ℤ unit),
      )

  -- The loop is over: the goal is met, or no group has room.
  abbrev pub IsSettled : Dict ℤ → Type 0
  IsSettled targets = (unmet up goal targets ≡ false) ⊎ (choose up targets groups ≡ none)

  unfoldable pub gap : Dict ℤ → ℕ
  gap targets = pos_part (key up goal -ℤ key up (sum_values targets))

  next-gap :
      (targets : Dict ℤ) (c : ResourceGroup)
      → has c.id targets ≡ true
      → unmet up goal targets ≡ true
      → gap (next targets c) < gap targets
  unfolding gap unmet
  next-gap targets c h more = ground (
    arith,
    next-sum targets c h,
    +ℤ_parts (key up (sum_values targets)) unit,
    -ℤ_parts (key up goal) (key up (sum_values targets)),
    -ℤ_parts (key up goal) (key up (sum_values (next targets c))),
  )

  -- With fuel beyond the gap the loop ends by itself.
  pub distribute-IsSettled :
      (fuel : ℕ) (targets : Dict ℤ)
      → gap targets < fuel
      → IsTotal targets
      → IsSettled (distribute fuel up goal groups targets)
  unfolding distribute
  distribute-IsSettled zero targets h total = absurd (omega arith)
  distribute-IsSettled (suc fuel) targets h total = elim (Bool-cases (unmet up goal targets)) [
    | inr met ↦ rw (met, distribute) (inl met)
    | inl more ↦ elim (Option-cases (choose up targets groups)) [
      | inl e ↦ rw (more, e, distribute) (inr e)
      | inr (c, e) ↦
          let known = total c (choose-some up targets groups c e).0 in
          rw (more, e, distribute)
            (distribute-IsSettled fuel (next targets c)
              (omega (arith, next-gap targets c known more)) (next-IsTotal targets c total))
    ]
  ]

  -- The loop never goes a whole step past the goal.
  pub distribute_no_overshoot :
      (fuel : ℕ) (targets : Dict ℤ)
      → IsTotal targets
      → key up (sum_values targets) <ℤ key up goal +ℤ unit
      → key up (sum_values (distribute fuel up goal groups targets)) <ℤ key up goal +ℤ unit
  distribute_no_overshoot fuel targets total h =
      (distribute_ind (λ t. IsTotal t × (key up (sum_values t) <ℤ key up goal +ℤ unit)) round fuel
        targets (total, h)).1
    where
      round :
          (t : Dict ℤ) (c : ResourceGroup)
          → unmet up goal t ≡ true
          → choose up t groups ≡ some c
          → IsTotal t × (key up (sum_values t) <ℤ key up goal +ℤ unit)
          → IsTotal (next t c) × (key up (sum_values (next t c)) <ℤ key up goal +ℤ unit)
      round t c more e (total, h) =
          unfold unmet in
          (
            next-IsTotal t c total,
            ground (
              arith,
              more,
              next-sum t c (total c (choose-some up t groups c e).0),
              +ℤ_parts (key up (sum_values t)) unit,
              +ℤ_parts (key up goal) unit,
            ),
          )
