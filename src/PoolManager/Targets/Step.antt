-- ===== src/PoolManager/Targets/Step.antt =====
-- One round of the loop: which group is chosen, and what the round changes.
use clusterman.Base.{
  ◌↔◌, subst, inl, inr, String, Bool-cases, ◌≡◌, refl, Bool, true, false, not, List, [], ◌∷◌, none,
  some, ℤ, ◌+ℤ◌, ◌≤ℤ◌, arith, +ℤ_parts, eq_of_parts, keep, In, In-keep, keep-In, Dict, get, put,
  get-put, str_eq, str_eq_iff, if◌then◌else◌, int_laws,
}
use clusterman.PoolManager.Defs.{ResourceGroup}
use clusterman.PoolManager.Targets.{
  unit, key, step, target_of, is_constrained, precedes, least, first, choose, sum_values,
}

pub key-step : (up : Bool) (t : ℤ) → key up (step up t) ≡ key up t +ℤ unit
unfolding key step
key-step true t = refl
key-step false t = omega int_laws

-- What holds of the members of a list, by recursion.
module _ (up : Bool) (targets : Dict ℤ) where
  precedes-le :
      (g h : ResourceGroup)
      → (precedes up targets g h ≡ true
          → key up (target_of targets g) ≤ℤ key up (target_of targets h))
        × (precedes up targets g h ≡ false
            → key up (target_of targets h) ≤ℤ key up (target_of targets g))
  unfolding precedes
  precedes-le g h = ground arith

  least-le_best :
      (best : ResourceGroup) (gs : List ResourceGroup)
      → key up (target_of targets (least up targets best gs)) ≤ℤ key up (target_of targets best)
  unfolding least
  least-le_best best [] = omega arith
  least-le_best best (g ∷ gs) =
      ground (arith, precedes-le g best, least-le_best g gs, least-le_best best gs)

  least-le :
      (best : ResourceGroup) (gs : List ResourceGroup) (g : ResourceGroup)
      → In g gs
      → key up (target_of targets (least up targets best gs)) ≤ℤ key up (target_of targets g)
  unfolding least
  least-le best [] g h = absurd h
  least-le best (x ∷ gs) g (inl e) =
      ground (arith, precedes-le x best, least-le_best x gs, least-le_best best gs)
  least-le best (x ∷ gs) g (inr h) = ground (arith, least-le x gs g h, least-le best gs g h)

  least-In :
      (best : ResourceGroup) (gs : List ResourceGroup) → In (least up targets best gs) (best ∷ gs)
  unfolding least
  least-In best [] = inl refl
  least-In best (x ∷ gs) = ground (arith, least-In x gs, least-In best gs)

  first-some :
      (free : List ResourceGroup) (c : ResourceGroup)
      → first up targets free ≡ some c
      → In c free
        × ((g : ResourceGroup)
            → In g free
            → key up (target_of targets c) ≤ℤ key up (target_of targets g))
  unfolding first
  first-some [] c e = cc
  first-some (x ∷ xs) c e =
      let l : least up targets x xs ≡ c = cc in
      (
        subst (λ z. In z (x ∷ xs)) l (least-In x xs),
        λ g h. elim h [
          | inl same ↦ rw (same, ← l) (least-le_best x xs)
          | inr more ↦ rw (← l) (least-le x xs g more)
        ],
      )

  room : ResourceGroup → Bool
  room g = not (is_constrained up targets g)

  room_iff : (g : ResourceGroup) → (room g ≡ true) ↔ (is_constrained up targets g ≡ false)
  unfolding room
  room_iff g = ground arith

  -- The chosen group is one of the groups, has room, and no other group with room comes before it.
  pub choose-some :
      (groups : List ResourceGroup) (c : ResourceGroup)
      → choose up targets groups ≡ some c
      → In c groups
        × (is_constrained up targets c ≡ false)
        × ((g : ResourceGroup)
            → In g groups
            → is_constrained up targets g ≡ false
            → key up (target_of targets c) ≤ℤ key up (target_of targets g))
  unfolding choose room
  choose-some groups c e =
      let (mem, min) = first-some (keep room groups) c e in
      let (mem', free) = In-keep room c groups mem in
      (mem', (room_iff c).0 free, λ g h f. min g (keep-In room g groups h ((room_iff g).1 f)))

  first-none : (free : List ResourceGroup) → first up targets free ≡ none → free ≡ []
  unfolding first
  first-none [] e = refl
  first-none (x ∷ xs) e = cc

  -- Where none is chosen every group is constrained.
  pub choose-none :
      (groups : List ResourceGroup)
      → choose up targets groups ≡ none
      → (g : ResourceGroup) → In g groups
      → is_constrained up targets g ≡ true
  unfolding choose room
  choose-none groups e g h = elim (Bool-cases (is_constrained up targets g)) [
    | inl t ↦ t
    | inr f ↦
        absurd
          (rw (first-none (keep room groups) e) at (keep-In room g groups h ((room_iff g).1 f)))
  ]

  -- A round changes the target of one id.
  pub target_of-put :
      (c g : ResourceGroup) (v : ℤ)
      → target_of (put c.id v targets) g ≡ (if str_eq c.id g.id then v else target_of targets g)
  unfolding target_of
  target_of-put c g v = ground (arith, get-put c.id g.id v targets)

pub sum_values-put :
    (k : String) (v w : ℤ) (targets : Dict ℤ)
    → get k targets ≡ some w
    → sum_values (put k v targets) +ℤ w ≡ sum_values targets +ℤ v
unfolding sum_values put get
sum_values-put k v w [] h = cc
sum_values-put k v w ((j, u) ∷ d) h = ground (
  arith,
  str_eq_iff j k,
  sum_values-put k v w d,
  +ℤ_parts v (sum_values d),
  +ℤ_parts u (sum_values d),
  +ℤ_parts u (sum_values (put k v d)),
  +ℤ_parts (v +ℤ sum_values d) w,
  +ℤ_parts (u +ℤ sum_values d) v,
  +ℤ_parts (u +ℤ sum_values (put k v d)) w,
  +ℤ_parts (sum_values (put k v d)) w,
  +ℤ_parts (sum_values d) v,
  eq_of_parts (v +ℤ sum_values d +ℤ w) (u +ℤ sum_values d +ℤ v),
  eq_of_parts (u +ℤ sum_values (put k v d) +ℤ w) (u +ℤ sum_values d +ℤ v),
)
