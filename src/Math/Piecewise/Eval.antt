-- ===== src/Math/Piecewise/Eval.antt =====
-- The value of a piecewise constant function at a point: `call` and `add_breakpoint` of
-- clusterman/math/piecewise.py.
use clusterman.Base.{
  ◌≡◌, refl, inl, inr, Bool, true, false, not, ◌||◌, ◌&&◌, [], ◌∷◌, some, Bool-cases, ℤ, ltb_ℤ,
  leb_ℤ, eq_ℤ, ◌<ℤ◌, ◌≤ℤ◌, eq_of_parts, ltb_ℤ→lt, eq_ℤ→eq, arith, if◌then◌else◌,
}
use clusterman.Math.SortedDict.{
  Items, SortedDict, IsDocumented, insert, count_up_to, value_at, Above, IsAscending,
}
use clusterman.Math.Piecewise.{PiecewiseConstantFunction, call_items, call, add_breakpoint}

-- The value at `z` of the function that starts with `i` and changes at the items: what the
-- value of the last item up to `z` is.
abbrev pub eval : ℤ → Items → ℤ → ℤ
eval i [] z = i
eval i ((j, w) ∷ d) z = let rest = eval w d z in if ltb_ℤ z j then i else rest

value_at-count_up_to :
    (j w x : ℤ) (d : Items) → value_at (count_up_to x d) ((j, w) ∷ d) ≡ some (eval w d x)
unfolding value_at count_up_to
value_at-count_up_to j w x [] = refl
value_at-count_up_to j w x ((k, v) ∷ d) = ground (arith, value_at-count_up_to k v x d)

-- Some key is above `x` and at most `z`.
abbrev pub has_between : (x z : ℤ) → Items → Bool
has_between x z [] = false
has_between x z ((j, w) ∷ d) = let rest = has_between x z d in ltb_ℤ x j && leb_ℤ j z || rest

has_between-Above : (x z j : ℤ) (d : Items) → Above j d → z <ℤ j → has_between x z d ≡ false
has_between-Above x z j [] a h = refl
has_between-Above x z j ((k, v) ∷ d) a h = ground (arith, has_between-Above x z j d)

pub Above-up : (i j : ℤ) (d : Items) → i ≤ℤ j → Above j d → Above i d
Above-up i j [] h a = tt
Above-up i j ((k, v) ∷ d) h (p, q) = (omega arith, Above-up i j d h q)

pub eval-same :
    (i x z : ℤ) (d : Items)
    → IsAscending d
    → x ≤ℤ z
    → has_between x z d ≡ false
    → eval i d z ≡ eval i d x
eval-same i x z [] a h e = refl
eval-same i x z ((j, w) ∷ d) (p, q) h e =
    ground (arith, eval-same w x z d, has_between-Above x z j d)

eval-from :
    (y w x z : ℤ) (d : Items)
    → Above x d
    → IsAscending d
    → eval y d z ≡ (if has_between x z d then eval w d z else y)
eval-from y w x z [] a b = refl
eval-from y w x z ((j, v) ∷ d) (p, q) (r, s) = ground (arith, has_between-Above x z j d)

eval-insert-first :
    (i x y z j w : ℤ) (d : Items)
    → Above j d
    → x <ℤ j
    → eval i ((x, y) ∷ (j, w) ∷ d) z
      ≡ (if leb_ℤ x z && not (has_between x z ((j, w) ∷ d)) then y else eval i ((j, w) ∷ d) z)
eval-insert-first i x y z j w d a h = ground (arith, has_between-Above x z j d)

eval-insert-same :
    (i x y z w : ℤ) (d : Items)
    → Above x d
    → IsAscending d
    → eval i ((x, y) ∷ d) z
      ≡ (if leb_ℤ x z && not (has_between x z ((x, w) ∷ d)) then y else eval i ((x, w) ∷ d) z)
eval-insert-same i x y z w d a b = ground (arith, eval-from y w x z d)

eval-insert-later :
    (i x y z j w v : ℤ) (b : Bool)
    → j <ℤ x
    → (if ltb_ℤ z j then i else if leb_ℤ x z && not b then y else v)
      ≡ (if leb_ℤ x z && not (ltb_ℤ x j && leb_ℤ j z || b) then y else if ltb_ℤ z j then i else v)
eval-insert-later i x y z j w v b h = ground arith

pub eq_ℤ_of_not_lt : (x y : ℤ) → ltb_ℤ x y ≡ false → ltb_ℤ y x ≡ false → x ≡ y
eq_ℤ_of_not_lt x y h k = ground (arith, eq_of_parts x y)

eval-insert-equal :
    (i x y z j w : ℤ) (d : Items)
    → x ≡ j
    → Above j d
    → IsAscending d
    → eval i ((x, y) ∷ d) z
      ≡ (if leb_ℤ x z && not (has_between x z ((j, w) ∷ d)) then y else eval i ((j, w) ∷ d) z)
eval-insert-equal i x y z j w d e = rw (← e) (eval-insert-same i x y z w d)

insert-first :
    (x y j w : ℤ) (d : Items) → ltb_ℤ x j ≡ true → insert x y ((j, w) ∷ d) ≡ (x, y) ∷ (j, w) ∷ d
unfolding insert
insert-first x y j w d e = rw e

insert-later :
    (x y j w : ℤ) (d : Items)
    → ltb_ℤ x j ≡ false
    → ltb_ℤ j x ≡ true
    → insert x y ((j, w) ∷ d) ≡ (j, w) ∷ insert x y d
unfolding insert
insert-later x y j w d e f = rw (e, f)

insert-same :
    (x y j w : ℤ) (d : Items)
    → ltb_ℤ x j ≡ false
    → ltb_ℤ j x ≡ false
    → insert x y ((j, w) ∷ d) ≡ (x, y) ∷ d
unfolding insert
insert-same x y j w d e f = rw (e, f)

pub eval-insert :
    (i x y z : ℤ) (d : Items)
    → IsAscending d
    → eval i (insert x y d) z ≡ (if leb_ℤ x z && not (has_between x z d) then y else eval i d z)
unfolding insert
eval-insert i x y z [] a = ground arith
eval-insert i x y z ((j, w) ∷ d) (p, q) = elim (Bool-cases (ltb_ℤ x j)) [
  | inl e ↦ rw (insert-first x y j w d e) (eval-insert-first i x y z j w d p (ltb_ℤ→lt x j e))
  | inr e ↦ elim (Bool-cases (ltb_ℤ j x)) [
    | inl f ↦
        rw (insert-later x y j w d e f, eval-insert w x y z d q)
          (eval-insert-later i x y z j w (eval w d z) (has_between x z d) (ltb_ℤ→lt j x f))
    | inr f ↦
        rw (insert-same x y j w d e f)
          (eval-insert-equal i x y z j w d (eq_ℤ_of_not_lt x j e f) p q)
  ]
]

pub Above-insert : (j x y : ℤ) (d : Items) → j <ℤ x → Above j d → Above j (insert x y d)
unfolding insert
Above-insert j x y [] h a = (h, tt)
Above-insert j x y ((k, v) ∷ d) h (p, q) = ground (arith, Above-insert j x y d)

pub insert-IsAscending : (x y : ℤ) (d : Items) → IsAscending d → IsAscending (insert x y d)
unfolding insert
insert-IsAscending x y [] a = (tt, tt)
insert-IsAscending x y ((j, w) ∷ d) (p, q) =
    ground (arith, insert-IsAscending x y d, Above-insert j x y d, Above-up x j d)

module _ (o : SortedDict) (documented : IsDocumented o) where
  open documented use {set_item_is, bisect_is}

  call_items-eval : (i : ℤ) (d : Items) (x : ℤ) → call_items o i d x ≡ eval i d x
  unfolding call_items count_up_to
  call_items-eval i [] x = refl
  call_items-eval i ((j, w) ∷ d) x = rw bisect_is (ground (arith, value_at-count_up_to j w x d))

  pub call-eval :
      (f : PiecewiseConstantFunction) (x : ℤ) → call o f x ≡ eval f.initial_value f.breakpoints x
  unfolding call
  call-eval f x = call_items-eval f.initial_value f.breakpoints x

  second : (squash : Bool) (u v : ℤ) → squash && eq_ℤ u v ≡ true → u ≡ v
  second true u v e = eq_ℤ→eq u v e
  second false u v e = ground arith

  unchanged :
      (f : PiecewiseConstantFunction) (x y z : ℤ)
      → call o f x ≡ y
      → IsAscending f.breakpoints
      → call o f z ≡ (if leb_ℤ x z && not (has_between x z f.breakpoints) then y else call o f z)
  unchanged f x y z e a =
      rw (← e, call-eval, call-eval) (ground (arith, eval-same f.initial_value x z f.breakpoints))

  left_out :
      (f : PiecewiseConstantFunction) (x y : ℤ) (squash : Bool)
      → squash && eq_ℤ (call o f x) y ≡ true
      → add_breakpoint o f x y squash ≡ f
  unfolding add_breakpoint
  left_out f x y squash e = rw e

  changed :
      (f : PiecewiseConstantFunction) (x y : ℤ) (squash : Bool)
      → squash && eq_ℤ (call o f x) y ≡ false
      → add_breakpoint o f x y squash ≡ record f { breakpoints = insert x y f.breakpoints }
  unfolding add_breakpoint
  changed f x y squash e = rw (e, set_item_is)

  -- A breakpoint changes the function from it to the next breakpoint, and nowhere else, also when
  -- the method leaves the breakpoint out because the function has the value already.
  pub call-add_breakpoint :
      (f : PiecewiseConstantFunction) (x y z : ℤ) (squash : Bool)
      → IsAscending f.breakpoints
      → call o (add_breakpoint o f x y squash) z
        ≡ (if leb_ℤ x z && not (has_between x z f.breakpoints) then y else call o f z)
  call-add_breakpoint f x y z squash a = elim (Bool-cases (squash && eq_ℤ (call o f x) y)) [
    | inl e ↦ rw (left_out f x y squash e) (unchanged f x y z (second squash (call o f x) y e) a)
    | inr e ↦
        rw (changed f x y squash e)
          (rw (call-eval, call-eval) (eval-insert f.initial_value x y z f.breakpoints a))
  ]

  pub add_breakpoint-IsAscending :
      (f : PiecewiseConstantFunction) (x y : ℤ) (squash : Bool)
      → IsAscending f.breakpoints
      → IsAscending (add_breakpoint o f x y squash).breakpoints
  unfolding add_breakpoint
  add_breakpoint-IsAscending f x y squash a = elim (Bool-cases (squash && eq_ℤ (call o f x) y)) [
    | inl e ↦ rw e a
    | inr e ↦ rw (e, set_item_is) (insert-IsAscending x y f.breakpoints a)
  ]

-- Every key is at most `k`.
abbrev pub Below : ℤ → Items → Type 0
Below k [] = Unit
Below k ((j, w) ∷ d) = (j ≤ℤ k) × Below k d

Below-insert : (x y : ℤ) (d : Items) → Below x d → Below x (insert x y d)
unfolding insert
Below-insert x y [] b = (omega arith, tt)
Below-insert x y ((j, w) ∷ d) (p, q) = ground (arith, Below-insert x y d)

pub add_breakpoint-Below :
    (o : SortedDict) (documented : IsDocumented o) (f : PiecewiseConstantFunction) (x y : ℤ)
    (squash : Bool)
    → Below x f.breakpoints
    → Below x (add_breakpoint o f x y squash).breakpoints
unfolding add_breakpoint
add_breakpoint-Below o documented f x y squash b =
    elim (Bool-cases (squash && eq_ℤ (call o f x) y)) [
      | inl e ↦ rw e b
      | inr e ↦ rw (e, documented.set_item_is) (Below-insert x y f.breakpoints b)
    ]
