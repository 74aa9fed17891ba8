-- ===== src/PoolManager/Targets/Initial.antt =====
-- The dictionary that the loop of `_compute_new_resource_group_targets` starts from.
use clusterman.Base.{
  ◌≡◌, refl, sym, ◌∙◌, ◌⊎◌, inl, inr, Bool, true, false, not, List, [], ◌∷◌, Bool-cases, some,
  String, ℤ, pos, ◌+ℤ◌, arith, keep, In, In-keep, Dict, get, put, has, has-put, get-put,
  get-put_self, str_eq, str_eq_iff, str_eq_refl, int_laws, +ℤ-zero, +ℤ_assoc,
}
use clusterman.PoolManager.Defs.{ResourceGroup, group_target_capacity}
use clusterman.PoolManager.Capacity.{non_stale, sum_by}
use clusterman.PoolManager.Targets.{
  target_of, sum_values, own_targets, zero_targets, initial_targets,
}
use clusterman.PoolManager.Targets.Balance.{IsUnique}

-- The ids of the groups are distinct, as the keys of a dictionary are.
abbrev pub IsDistinct : List ResourceGroup → Type 0
IsDistinct [] = Unit
IsDistinct (g ∷ gs) = ((h : ResourceGroup) → In h gs → str_eq g.id h.id ≡ false) × IsDistinct gs

str_eq_comm : (s t : String) → str_eq s t ≡ str_eq t s
str_eq_comm s t = ground (arith, str_eq_iff s t, str_eq_iff t s)

pub IsDistinct-IsUnique : (groups : List ResourceGroup) → IsDistinct groups → IsUnique groups
IsDistinct-IsUnique [] d g h hg hh e = absurd hg
IsDistinct-IsUnique (x ∷ xs) d g h (inl a) (inl b) e = a ∙ sym b
IsDistinct-IsUnique (x ∷ xs) d g h (inl a) (inr hh) e =
    let f : str_eq g.id h.id ≡ false = rw a (d.0 h hh) in cc
IsDistinct-IsUnique (x ∷ xs) d g h (inr hg) (inl b) e =
    let f : str_eq h.id g.id ≡ false = rw b (d.0 g hg) in cc (str_eq_comm g.id h.id)
IsDistinct-IsUnique (x ∷ xs) d g h (inr hg) (inr hh) e = IsDistinct-IsUnique xs d.1 g h hg hh e

pub keep-IsDistinct :
    (p : ResourceGroup → Bool) (groups : List ResourceGroup)
    → IsDistinct groups
    → IsDistinct (keep p groups)
keep-IsDistinct p [] d = tt
keep-IsDistinct p (g ∷ gs) d = elim (Bool-cases (p g)) [
  | inl e ↦ rw (e, IsDistinct) ((λ h m. d.0 h (In-keep p h gs m).0), keep-IsDistinct p gs d.1)
  | inr e ↦ rw (e, IsDistinct) (keep-IsDistinct p gs d.1)
]

pub sum_values-fresh :
    (k : String) (v : ℤ) (d : Dict ℤ) → has k d ≡ false → sum_values (put k v d) ≡ sum_values d +ℤ v
unfolding sum_values put has
sum_values-fresh k v [] h = omega int_laws
sum_values-fresh k v ((j, w) ∷ d) h =
    ground (arith, sum_values-fresh k v d, +ℤ_assoc w (sum_values d) v)

own_targets-sum :
    (gs : List ResourceGroup) (d : Dict ℤ)
    → IsDistinct gs
    → ((g : ResourceGroup) → In g gs → has g.id d ≡ false)
    → sum_values (own_targets gs d) ≡ sum_values d +ℤ sum_by group_target_capacity gs
unfolding own_targets sum_by
own_targets-sum [] d u f = sym (+ℤ-zero (sum_values d))
own_targets-sum (g ∷ gs) d u f =
    let v = group_target_capacity g in
    own_targets-sum gs (put g.id v d) u.1 (λ h m. rw (has-put g.id h.id v d, u.0 h m) (f h (inr m)))
    ∙ rw (sum_values-fresh g.id v d (f g (inl refl)))
        (+ℤ_assoc (sum_values d) v (sum_by group_target_capacity gs))

zero_targets-sum :
    (gs : List ResourceGroup) (d : Dict ℤ)
    → IsDistinct gs
    → ((g : ResourceGroup) → In g gs → has g.id d ≡ false)
    → sum_values (zero_targets gs d) ≡ sum_values d
unfolding zero_targets
zero_targets-sum [] d u f = refl
zero_targets-sum (g ∷ gs) d u f =
    zero_targets-sum gs (put g.id (pos 0) d) u.1
      (λ h m. rw (has-put g.id h.id (pos 0) d, u.0 h m) (f h (inr m)))
    ∙ sum_values-fresh g.id (pos 0) d (f g (inl refl))
    ∙ +ℤ-zero (sum_values d)

own_targets-has :
    (k : String) (gs : List ResourceGroup) (d : Dict ℤ)
    → has k (own_targets gs d) ≡ true
    → (has k d ≡ true) ⊎ ((g : ResourceGroup) × In g gs × (str_eq g.id k ≡ true))
unfolding own_targets
own_targets-has k [] d h = inl h
own_targets-has k (g ∷ gs) d h =
    elim (own_targets-has k gs (put g.id (group_target_capacity g) d) h) [
      | inl p ↦ elim (Bool-cases (str_eq g.id k)) [
        | inl e ↦ inr (g, inl refl, e)
        | inr e ↦ inl (ground (arith, has-put g.id k (group_target_capacity g) d))
      ]
      | inr (x, m, e) ↦ inr (x, inr m, e)
    ]

has-own_targets :
    (k : String) (gs : List ResourceGroup) (d : Dict ℤ)
    → has k d ≡ true
    → has k (own_targets gs d) ≡ true
unfolding own_targets
has-own_targets k [] d h = h
has-own_targets k (g ∷ gs) d h =
    has-own_targets k gs _ (ground (arith, has-put g.id k (group_target_capacity g) d))

pub own_targets-In :
    (g : ResourceGroup) (gs : List ResourceGroup) (d : Dict ℤ)
    → In g gs
    → has g.id (own_targets gs d) ≡ true
unfolding own_targets
own_targets-In g [] d h = absurd h
own_targets-In g (x ∷ gs) d (inl e) =
    has-own_targets g.id gs _
      (rw (e, has-put x.id x.id (group_target_capacity x) d, str_eq_refl x.id))
own_targets-In g (x ∷ gs) d (inr h) = own_targets-In g gs _ h

has-zero_targets :
    (k : String) (gs : List ResourceGroup) (d : Dict ℤ)
    → has k d ≡ true
    → has k (zero_targets gs d) ≡ true
unfolding zero_targets
has-zero_targets k [] d h = h
has-zero_targets k (g ∷ gs) d h = has-zero_targets k gs _ (ground (arith, has-put g.id k (pos 0) d))

get-own_targets :
    (k : String) (gs : List ResourceGroup) (d : Dict ℤ)
    → ((h : ResourceGroup) → In h gs → str_eq h.id k ≡ false)
    → get k (own_targets gs d) ≡ get k d
unfolding own_targets
get-own_targets k [] d f = refl
get-own_targets k (g ∷ gs) d f =
    get-own_targets k gs _ (λ h m. f h (inr m))
    ∙ rw (get-put g.id k (group_target_capacity g) d, f g (inl refl))

get-zero_targets :
    (k : String) (gs : List ResourceGroup) (d : Dict ℤ)
    → ((h : ResourceGroup) → In h gs → str_eq h.id k ≡ false)
    → get k (zero_targets gs d) ≡ get k d
unfolding zero_targets
get-zero_targets k [] d f = refl
get-zero_targets k (g ∷ gs) d f =
    get-zero_targets k gs _ (λ h m. f h (inr m)) ∙ rw (get-put g.id k (pos 0) d, f g (inl refl))

own_targets-get :
    (g : ResourceGroup) (gs : List ResourceGroup) (d : Dict ℤ)
    → IsDistinct gs
    → In g gs
    → get g.id (own_targets gs d) ≡ some (group_target_capacity g)
unfolding own_targets
own_targets-get g [] d u h = absurd h
own_targets-get g (x ∷ gs) d u (inl e) = rw e (
    get-own_targets x.id gs _ (λ h m. str_eq_comm h.id x.id ∙ u.0 h m)
    ∙ get-put_self x.id (group_target_capacity x) d)
own_targets-get g (x ∷ gs) d u (inr h) = own_targets-get g gs _ u.1 h

module _ (groups : List ResourceGroup) where
  pub initial_targets-total :
      (g : ResourceGroup) → In g (non_stale groups) → has g.id (initial_targets groups) ≡ true
  unfolding initial_targets
  initial_targets-total g h =
      has-zero_targets g.id (keep (λ x. x.is_stale) groups) (own_targets (non_stale groups) [])
        (own_targets-In g (non_stale groups) [] h)

  -- The targets add up to the target capacity of the pool.
  pub initial_targets-sum :
      IsDistinct groups
      → sum_values (initial_targets groups) ≡ sum_by group_target_capacity (non_stale groups)
  unfolding initial_targets sum_values has
  initial_targets-sum d =
      zero_targets-sum (keep (λ g. g.is_stale) groups) (own_targets (non_stale groups) [])
        (keep-IsDistinct (λ g. g.is_stale) groups d) fresh
      ∙ own_targets-sum (non_stale groups) [] (keep-IsDistinct (λ g. not g.is_stale) groups d)
          (λ g _. refl)
      ∙ zero_add (sum_by group_target_capacity (non_stale groups))
    where
      zero_add : (a : ℤ) → pos 0 +ℤ a ≡ a
      zero_add a = omega int_laws

      fresh :
          (g : ResourceGroup)
          → In g (keep (λ x. x.is_stale) groups)
          → has g.id (own_targets (non_stale groups) []) ≡ false
      fresh g h = elim (Bool-cases (has g.id (own_targets (non_stale groups) []))) [
        | inr e ↦ e
        | inl e ↦ elim (own_targets-has g.id (non_stale groups) [] e) [
          | inl f ↦ cc
          | inr (x, m, same) ↦
              let (mg, stale) = In-keep (λ y. y.is_stale) g groups h in
              let (mx, live) = In-keep (λ y. not y.is_stale) x groups m in
              let eq = IsDistinct-IsUnique groups d x g mx mg same in
              absurd (ground (arith, eq, stale, live))
        ]
      ]

  -- A group that is not stale starts from its own target.
  pub initial_targets-own :
      IsDistinct groups
      → (g : ResourceGroup) → In g (non_stale groups)
      → target_of (initial_targets groups) g ≡ group_target_capacity g
  unfolding initial_targets target_of
  initial_targets-own d g h = rw (
    get-zero_targets g.id (keep (λ x. x.is_stale) groups) (own_targets (non_stale groups) []) other,
    own_targets-get g (non_stale groups) [] (keep-IsDistinct (λ x. not x.is_stale) groups d) h,
  )
    where
      other : (x : ResourceGroup) → In x (keep (λ y. y.is_stale) groups) → str_eq x.id g.id ≡ false
      other x m = elim (Bool-cases (str_eq x.id g.id)) [
        | inr e ↦ e
        | inl same ↦
            let (mx, stale) = In-keep (λ y. y.is_stale) x groups m in
            let (mg, live) = In-keep (λ y. not y.is_stale) g groups h in
            let eq = IsDistinct-IsUnique groups d x g mx mg same in
            absurd (ground (arith, eq, stale, live))
      ]
