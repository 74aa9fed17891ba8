-- ===== src/PoolManager/Targets/Balance.antt =====
-- How the loop of `_compute_new_resource_group_targets` spreads the capacity over the groups.
use clusterman.Base.{
  ℕ, ◌≡◌, refl, sym, ◌∙◌, ◌⊎◌, inl, inr, Bool, true, false, List, some, Bool-cases, ℤ, ◌+ℤ◌, ◌≤ℤ◌,
  ◌<ℤ◌, ltb_ℤ, arith, +ℤ_parts, In, Dict, str_eq, if◌then◌else◌,
}
use clusterman.PoolManager.Defs.{ResourceGroup, exceeds_ℤ}
use clusterman.PoolManager.Targets.{unit, key, step, target_of, is_constrained, choose, distribute}
use clusterman.PoolManager.Targets.Step.{key-step, choose-some, target_of-put}
use clusterman.PoolManager.Targets.Loop.{next, distribute_ind}

-- `resource_groups` is a dictionary, so an id belongs to one group.
abbrev pub IsUnique : List ResourceGroup → Type 0
IsUnique groups =
    (g h : ResourceGroup) → In g groups → In h groups → str_eq g.id h.id ≡ true → g ≡ h

-- On the side to which the loop moves, `t` is inside the limits of the group.
abbrev pub IsInside : Bool → ResourceGroup → ℤ → Type 0
IsInside up g t = (if up then exceeds_ℤ t g.max_capacity else ltb_ℤ t g.min_capacity) ≡ false

module _ (up : Bool) (goal : ℤ) (groups : List ResourceGroup) (unique : IsUnique groups) where
  -- Of two members of the groups the first is the one that the round changes, or not.
  next-target_of :
      (targets : Dict ℤ) (c g : ResourceGroup)
      → In c groups
      → In g groups
      → (g ≡ c) × (target_of (next up goal groups targets c) g ≡ step up (target_of targets c))
        ⊎ (target_of (next up goal groups targets c) g ≡ target_of targets g)
  next-target_of targets c g hc hg = elim (Bool-cases (str_eq c.id g.id)) [
    | inl e ↦ inl (
      sym (unique c g hc hg e),
      rw (target_of-put up targets c g (step up (target_of targets c)), e),
    )
    | inr e ↦ inr (rw (target_of-put up targets c g (step up (target_of targets c)), e))
  ]

  is_constrained-same :
      (s t : Dict ℤ) (g : ResourceGroup)
      → target_of s g ≡ target_of t g
      → is_constrained up s g ≡ is_constrained up t g
  unfolding is_constrained
  is_constrained-same s t g e = rw e

  is_constrained-IsInside :
      (t : Dict ℤ) (g : ResourceGroup)
      → is_constrained up t g ≡ false
      → IsInside up g (step up (target_of t g))
  unfolding is_constrained
  is_constrained-IsInside t g e = e

  module _ (start : Dict ℤ) where
    abbrev Moved : Dict ℤ → ResourceGroup → Type 0
    Moved t g =
        (target_of t g ≡ target_of start g)
        ⊎ (key up (target_of start g) <ℤ key up (target_of t g)) × IsInside up g (target_of t g)

    Moved-next :
        (t : Dict ℤ) (c : ResourceGroup)
        → choose up t groups ≡ some c
        → ((g : ResourceGroup) → In g groups → Moved t g)
        → (g : ResourceGroup) → In g groups
        → Moved (next up goal groups t c) g
    Moved-next t c e h g hg =
        let (hc, free, least) = choose-some up t groups c e in
        elim (next-target_of t c g hc hg) [
          | inr same ↦ rw same (h g hg)
          | inl (is, moved) ↦
              rw (moved, is)
                (inr (
                  ground (
                    arith,
                    h c hc,
                    key-step up (target_of t c),
                    +ℤ_parts (key up (target_of t c)) unit,
                  ),
                  is_constrained-IsInside t c free,
                ))
        ]

    -- A group's target is untouched, or it moved to the side of the goal and stays inside its limit.
    pub distribute-Moved :
        (fuel : ℕ) (g : ResourceGroup)
        → In g groups
        → Moved (distribute fuel up goal groups start) g
    distribute-Moved fuel =
        distribute_ind up goal groups (λ t. (g : ResourceGroup) → In g groups → Moved t g)
          (λ t c _ e h. Moved-next t c e h) fuel start (λ g _. inl refl)

    -- A group that moved is at most a step ahead of a group that still has room.
    abbrev IsBalanced : Dict ℤ → Type 0
    IsBalanced t =
        (g h : ResourceGroup)
        → In g groups
        → In h groups
        → key up (target_of start g) <ℤ key up (target_of t g)
        → is_constrained up t h ≡ false
        → key up (target_of t g) ≤ℤ key up (target_of t h) +ℤ unit

    IsBalanced-next :
        (t : Dict ℤ) (c : ResourceGroup)
        → choose up t groups ≡ some c
        → IsBalanced t
        → IsBalanced (next up goal groups t c)
    IsBalanced-next t c e b g h hg hh moved free =
        let (hc, room, least) = choose-some up t groups c e in
        let now = next up goal groups t c in
        let moved' = λ (same : target_of now g ≡ target_of t g).
          let m : key up (target_of start g) <ℤ key up (target_of t g) = rw (← same) moved in m in
        elim (next-target_of t c g hc hg) [
          | inl (_, mg) ↦ elim (next-target_of t c h hc hh) [
            | inl (_, mh) ↦ ground (arith, mg, mh, +ℤ_parts (key up (step up (target_of t c))) unit)
            | inr sh ↦ ground (
              arith,
              mg,
              sh,
              least h hh (sym (is_constrained-same now t h sh) ∙ free),
              key-step up (target_of t c),
              +ℤ_parts (key up (target_of t c)) unit,
              +ℤ_parts (key up (target_of t h)) unit,
            )
          ]
          | inr sg ↦ elim (next-target_of t c h hc hh) [
            | inl (_, mh) ↦ ground (
              arith,
              sg,
              mh,
              b g c hg hc (moved' sg) room,
              key-step up (target_of t c),
              +ℤ_parts (key up (target_of t c)) unit,
              +ℤ_parts (key up (step up (target_of t c))) unit,
            )
            | inr sh ↦
                rw (sg, sh) (b g h hg hh (moved' sg) (sym (is_constrained-same now t h sh) ∙ free))
          ]
        ]

    pub distribute-IsBalanced : (fuel : ℕ) → IsBalanced (distribute fuel up goal groups start)
    distribute-IsBalanced fuel =
        distribute_ind up goal groups IsBalanced (λ t c _ e b. IsBalanced-next t c e b) fuel start
          (λ g h _ _ moved _. absurd (omega arith))
