-- ===== src/Math/Piecewise/Delta.antt =====
-- `add_delta` of clusterman/math/piecewise.py.
use clusterman.Base.{
  ◌≡◌, ◌≢◌, subst, ◌⊎◌, refl, sym, ap, ◌∙◌, inl, inr, Bool, true, false, not, ◌&&◌, List, [], ◌∷◌,
  none, some, Bool-cases, Option-cases, ℤ, pos, ◌+ℤ◌, ltb_ℤ, leb_ℤ, eq_ℤ, ltb_ℤ→lt, eq_ℤ→eq,
  +ℤ-zero, ◌<ℤ◌, ◌≤ℤ◌, arith, or_else, if◌then◌else◌,
}
use clusterman.Math.SortedDict.{
  Items, SortedDict, IsDocumented, insert, keys_from, find, Above, IsAscending,
}
use clusterman.Math.Piecewise.{
  PiecewiseConstantFunction, call, shift_all, with_breakpoint, add_delta,
}
use clusterman.Math.Piecewise.Eval.{
  eval, has_between, Above-up, eq_ℤ_of_not_lt, eval-insert, eval-same, call-eval,
  insert-IsAscending,
}

-- The items with `delta` added to the values from `x` on
abbrev shifted : (x delta : ℤ) → Items → Items
shifted x delta [] = []
shifted x delta ((j, w) ∷ d) =
    let rest = shifted x delta d in if ltb_ℤ j x then (j, w) ∷ rest else (j, w +ℤ delta) ∷ rest

Above-shifted : (k x delta : ℤ) (d : Items) → Above k d → Above k (shifted x delta d)
Above-shifted k x delta [] a = tt
Above-shifted k x delta ((j, w) ∷ d) (p, q) = ground (arith, Above-shifted k x delta d q)

shifted-IsAscending : (x delta : ℤ) (d : Items) → IsAscending d → IsAscending (shifted x delta d)
shifted-IsAscending x delta [] a = tt
shifted-IsAscending x delta ((j, w) ∷ d) (p, q) =
    ground (arith, Above-shifted j x delta d p, shifted-IsAscending x delta d q)

-- Every one of the keys is above `k`.
abbrev AllAbove : ℤ → List ℤ → Type 0
AllAbove k [] = Unit
AllAbove k (x ∷ xs) = (k <ℤ x) × AllAbove k xs

AllAbove-keys_from : (j x : ℤ) (d : Items) → Above j d → AllAbove j (keys_from x d)
unfolding keys_from
AllAbove-keys_from j x [] a = tt
AllAbove-keys_from j x ((k, v) ∷ d) (p, q) = elim (Bool-cases (ltb_ℤ k x)) [
  | inl t ↦ rw (keys_from, t) (AllAbove-keys_from j x d q)
  | inr t ↦ rw (keys_from, t) (p, AllAbove-keys_from j x d q)
]

find-later : (j w x : ℤ) (d : Items) → j <ℤ x → find x ((j, w) ∷ d) ≡ find x d
unfolding find eq_ℤ
find-later j w x d h = ground arith

find-here : (j w : ℤ) (d : Items) → find j ((j, w) ∷ d) ≡ some w
unfolding find eq_ℤ
find-here j w d = ground arith

insert-here : (j w v : ℤ) (d : Items) → insert j v ((j, w) ∷ d) ≡ (j, v) ∷ d
unfolding insert
insert-here j w v d = ground arith

insert-later : (j w x v : ℤ) (d : Items) → j <ℤ x → insert x v ((j, w) ∷ d) ≡ (j, w) ∷ insert x v d
unfolding insert
insert-later j w x v d h = ground arith

eval-shifted-before :
    (i x delta z : ℤ) (d : Items) → z <ℤ x → eval i (shifted x delta d) z ≡ eval i d z
eval-shifted-before i x delta z [] h = refl
eval-shifted-before i x delta z ((j, w) ∷ d) h = ground (arith, eval-shifted-before w x delta z d)

eval-shifted-Above :
    (i x delta z : ℤ) (d : Items)
    → Above x d
    → eval (i +ℤ delta) (shifted x delta d) z ≡ eval i d z +ℤ delta
eval-shifted-Above i x delta z [] a = refl
eval-shifted-Above i x delta z ((j, w) ∷ d) (p, q) =
    ground (arith, eval-shifted-Above w x delta z d)

find-absent : (x : ℤ) (d : Items) → Above x d → find x d ≡ none
unfolding find eq_ℤ
find-absent x [] a = refl
find-absent x ((j, w) ∷ d) (p, q) = ground (arith, find-absent x d)

find-insert : (x v : ℤ) (d : Items) → find x (insert x v d) ≡ some v
unfolding find insert eq_ℤ
find-insert x v [] = ground arith
find-insert x v ((j, w) ∷ d) = ground (arith, find-insert x v d)

some-none : (y : ℤ) → some y ≢ none
some-none y e = ground arith

shifted-here :
    (i j delta z w : ℤ) (d : Items)
    → Above j d
    → j ≤ℤ z
    → eval i (shifted j delta ((j, w) ∷ d)) z ≡ eval i ((j, w) ∷ d) z +ℤ delta
shifted-here i j delta z w d a h = ground (arith, eval-shifted-Above w j delta z d)

eval-shifted-here :
    (i x delta z j w : ℤ) (d : Items)
    → j ≡ x
    → Above j d
    → x ≤ℤ z
    → eval i (shifted x delta ((j, w) ∷ d)) z ≡ eval i ((j, w) ∷ d) z +ℤ delta
eval-shifted-here i x delta z j w d e a h =
    subst (λ k. eval i (shifted k delta ((j, w) ∷ d)) z ≡ eval i ((j, w) ∷ d) z +ℤ delta) e
      (shifted-here i j delta z w d a (subst (λ v. v ≤ℤ z) (sym e) h))

-- The place of a key among the first of the items and the others
key-cases :
    (x y j w : ℤ) (d : Items)
    → Above j d
    → find x ((j, w) ∷ d) ≡ some y
    → (j <ℤ x) × (find x d ≡ some y) ⊎ (j ≡ x)
key-cases x y j w d a f = elim (Bool-cases (ltb_ℤ j x)) [
  | inl t ↦ inl (ltb_ℤ→lt j x t, sym (find-later j w x d (ltb_ℤ→lt j x t)) ∙ f)
  | inr t ↦ elim (Bool-cases (ltb_ℤ x j)) [
    | inl u ↦ absurd (
        some-none y (
          sym f
          ∙ find-absent x ((j, w) ∷ d)
              (ltb_ℤ→lt x j u, Above-up x j d (omega (arith, ltb_ℤ→lt x j u)) a)))
    | inr u ↦ inr (eq_ℤ_of_not_lt j x t u)
  ]
]

-- From `x` on, when `x` is a key
eval-shifted :
    (i x delta y z : ℤ) (d : Items)
    → IsAscending d
    → find x d ≡ some y
    → x ≤ℤ z
    → eval i (shifted x delta d) z ≡ eval i d z +ℤ delta
unfolding find
eval-shifted i x delta y z [] a n h = absurd (some-none y (sym n))
eval-shifted i x delta y z ((j, w) ∷ d) (p, q) n h = elim (key-cases x y j w d p n) [
  | inl (l, f) ↦ ground (arith, eval-shifted w x delta y z d)
  | inr e ↦ eval-shifted-here i x delta z j w d e p h
]

eval-again :
    (i x z : ℤ) (d : Items)
    → IsAscending d
    → (if leb_ℤ x z && not (has_between x z d) then eval i d x else eval i d z) ≡ eval i d z
eval-again i x z d a = ground (arith, eval-same i x z d)

eval-moved :
    (i x delta y z : ℤ) (d : Items)
    → IsAscending d
    → find x d ≡ some y
    → eval i (shifted x delta d) z ≡ (if ltb_ℤ z x then eval i d z else eval i d z +ℤ delta)
eval-moved i x delta y z d a k = elim (Bool-cases (ltb_ℤ z x)) [
  | inl t ↦ rw t (eval-shifted-before i x delta z d (ltb_ℤ→lt z x t))
  | inr t ↦ rw t (eval-shifted i x delta y z d a k (ground arith))
]

plus-zero : (b : Bool) (v delta : ℤ) → delta ≡ pos 0 → v ≡ (if b then v else v +ℤ delta)
plus-zero true v delta e = refl
plus-zero false v delta e = rw (e, +ℤ-zero v)

keys_from-later :
    (x j w : ℤ) (d : Items) → ltb_ℤ j x ≡ true → keys_from x ((j, w) ∷ d) ≡ keys_from x d
unfolding keys_from
keys_from-later x j w d t = rw t

keys_from-here :
    (x j w : ℤ) (d : Items) → ltb_ℤ j x ≡ false → keys_from x ((j, w) ∷ d) ≡ j ∷ keys_from x d
unfolding keys_from
keys_from-here x j w d t = rw t

module _ (o : SortedDict) (documented : IsDocumented o) where
  open documented use {set_item_is, irange_is}

  shift_all-later :
      (delta j w : ℤ) (xs : List ℤ) (d : Items)
      → AllAbove j xs
      → shift_all o delta xs ((j, w) ∷ d) ≡ (j, w) ∷ shift_all o delta xs d
  unfolding shift_all
  shift_all-later delta j w [] d a = refl
  shift_all-later delta j w (x ∷ xs) d (p, q) =
      rw
        (
          set_item_is,
          set_item_is,
          find-later j w x d p,
          insert-later j w x (or_else (find x d) (pos 0) +ℤ delta) d p,
        )
        (shift_all-later delta j w xs (insert x (or_else (find x d) (pos 0) +ℤ delta) d) q)

  shift_all-here :
      (delta j w : ℤ) (xs : List ℤ) (d : Items)
      → shift_all o delta (j ∷ xs) ((j, w) ∷ d) ≡ shift_all o delta xs ((j, w +ℤ delta) ∷ d)
  unfolding shift_all
  shift_all-here delta j w xs d = rw (set_item_is, find-here j w d, insert-here j w (w +ℤ delta) d)

  shift_all-shifted :
      (delta x : ℤ) (d : Items)
      → IsAscending d
      → shift_all o delta (keys_from x d) d ≡ shifted x delta d
  unfolding shift_all keys_from
  shift_all-shifted delta x [] a = refl
  shift_all-shifted delta x ((j, w) ∷ d) (p, q) = elim (Bool-cases (ltb_ℤ j x)) [
    | inl t ↦
        rw (keys_from-later x j w d t, t)
          (shift_all-later delta j w (keys_from x d) d (AllAbove-keys_from j x d p)
            ∙ ap (λ rest. (j, w) ∷ rest) (shift_all-shifted delta x d q))
    | inr t ↦
        rw (keys_from-here x j w d t, t, shift_all-here delta j w (keys_from x d) d)
          (shift_all-later delta j (w +ℤ delta) (keys_from x d) d (AllAbove-keys_from j x d p)
            ∙ ap (λ rest. (j, w +ℤ delta) ∷ rest) (shift_all-shifted delta x d q))
  ]

  with_breakpoint-there :
      (f : PiecewiseConstantFunction) (x y : ℤ)
      → find x f.breakpoints ≡ some y
      → with_breakpoint o f x ≡ f.breakpoints
  unfolding with_breakpoint
  with_breakpoint-there f x y e = rw (with_breakpoint, e)

  with_breakpoint-missing :
      (f : PiecewiseConstantFunction) (x : ℤ)
      → find x f.breakpoints ≡ none
      → with_breakpoint o f x ≡ insert x (eval f.initial_value f.breakpoints x) f.breakpoints
  unfolding with_breakpoint
  with_breakpoint-missing f x e =
      rw (with_breakpoint, e, set_item_is)
        (ap (λ v. insert x v f.breakpoints) (call-eval o documented f x))

  -- The breakpoint that is there, or is put there, does not change the function.
  with_breakpoint-same :
      (f : PiecewiseConstantFunction) (x : ℤ)
      → IsAscending f.breakpoints
      → IsAscending (with_breakpoint o f x)
        × ((y : ℤ) × (find x (with_breakpoint o f x) ≡ some y))
        × ((z : ℤ)
            → eval f.initial_value (with_breakpoint o f x) z ≡ eval f.initial_value f.breakpoints z)
  with_breakpoint-same f x a = elim (Option-cases (find x f.breakpoints)) [
    | inl e ↦ rw (with_breakpoint-missing f x e) (
      insert-IsAscending x (eval f.initial_value f.breakpoints x) f.breakpoints a,
      (
        eval f.initial_value f.breakpoints x,
        find-insert x (eval f.initial_value f.breakpoints x) f.breakpoints,
      ),
      λ z.
          eval-insert f.initial_value x (eval f.initial_value f.breakpoints x) z f.breakpoints a
          ∙ eval-again f.initial_value x z f.breakpoints a,
    )
    | inr (y, e) ↦ rw (with_breakpoint-there f x y e) (a, (y, e), λ z. refl)
  ]

  add_delta-items :
      (f : PiecewiseConstantFunction) (x delta : ℤ)
      → IsAscending f.breakpoints
      → eq_ℤ delta (pos 0) ≡ false
      → add_delta o f x delta ≡ record f { breakpoints = shifted x delta (with_breakpoint o f x) }
  unfolding add_delta
  add_delta-items f x delta a e =
      let (b, c, d) = with_breakpoint-same f x a in
      rw (e, irange_is, shift_all-shifted delta x (with_breakpoint o f x) b)

  add_delta-zero :
      (f : PiecewiseConstantFunction) (x delta : ℤ)
      → eq_ℤ delta (pos 0) ≡ true
      → add_delta o f x delta ≡ f
  unfolding add_delta
  add_delta-zero f x delta e = rw e

  -- The function is moved by `delta` from `x` on, and is what it was before `x`.
  pub call-add_delta :
      (f : PiecewiseConstantFunction) (x delta z : ℤ)
      → IsAscending f.breakpoints
      → call o (add_delta o f x delta) z ≡ (if ltb_ℤ z x then call o f z else call o f z +ℤ delta)
  call-add_delta f x delta z a = elim (Bool-cases (eq_ℤ delta (pos 0))) [
    | inl e ↦
        rw (add_delta-zero f x delta e)
          (plus-zero (ltb_ℤ z x) (call o f z) delta (eq_ℤ→eq delta (pos 0) e))
    | inr e ↦
        let (b, (y, k), same) = with_breakpoint-same f x a in
        rw (add_delta-items f x delta a e) (
          call-eval o documented
            (record f { breakpoints = shifted x delta (with_breakpoint o f x) }) z
          ∙ eval-moved f.initial_value x delta y z (with_breakpoint o f x) b k
          ∙ ap (λ v. if ltb_ℤ z x then v else v +ℤ delta)
              (same z ∙ sym (call-eval o documented f z)))
  ]

  pub add_delta-IsAscending :
      (f : PiecewiseConstantFunction) (x delta : ℤ)
      → IsAscending f.breakpoints
      → IsAscending (add_delta o f x delta).breakpoints
  add_delta-IsAscending f x delta a = elim (Bool-cases (eq_ℤ delta (pos 0))) [
    | inl e ↦ rw (add_delta-zero f x delta e) a
    | inr e ↦
        let (b, c, d) = with_breakpoint-same f x a in
        rw (add_delta-items f x delta a e) (shifted-IsAscending x delta (with_breakpoint o f x) b)
  ]
