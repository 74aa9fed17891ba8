-- ===== src/Math/Piecewise/Sequence/Values.antt =====
-- `values` of clusterman/math/piecewise.py against the calls of the function one by one.
use native.Mathlib.Nat.{div-eq_of_lt, div-eq_of_lt-le, add-div_right}
use mathlib.Core.List.{append_assoc, append-nil}
use clusterman.Base.{
  ℕ, zero, suc, ◌+◌, ◌-◌, ◌/◌, ◌≤◌, ◌<◌, ◌==◌, leb, leb→le, ◌≡◌, refl, sym, ap, ◌∙◌, inl, inr, Bool,
  true, false, ◌&&◌, [], ◌∷◌, ◌++◌, some, Bool-cases, ℤ, pos, ◌+ℤ◌, ◌≤ℤ◌, ◌<ℤ◌, ltb_ℤ, leb_ℤ, min_ℤ,
  int_laws, +ℤ_parts, eq_of_parts, ltb_ℤ→lt, arith,
}
use clusterman.Math.SortedDict.{
  Items, SortedDict, IsDocumented, insert, count_up_to, items_from, Above, IsAscending,
}
use clusterman.Math.Piecewise.{PiecewiseConstantFunction, call}
use clusterman.Math.Piecewise.Eval.{eval, call-eval, Above-up}
use clusterman.Math.Piecewise.Sequence.{
  step_or, ceil_div, even, advance, values_loop, compute_values,
}

-- `[(x, g(x)) for x in range(start, ..., step)]` with `n` points
unfoldable pub sampled : (g : ℤ → ℤ) → (start : ℤ) → (step n : ℕ) → Items
sampled g start step zero = []
sampled g start step (suc n) = (start, g start) ∷ sampled g (start +ℤ pos step) step n

-- Every key counts as true.
abbrev pub AllTruthy : (ℤ → Bool) → Items → Type 0
AllTruthy t [] = Unit
AllTruthy t ((j, w) ∷ d) = (t j ≡ true) × AllTruthy t d

-- Every key is below `x`.
abbrev pub AllBelow : ℤ → Items → Type 0
AllBelow x [] = Unit
AllBelow x ((j, w) ∷ d) = (j <ℤ x) × AllBelow x d

pub insert_last : (x y : ℤ) (d : Items) → AllBelow x d → insert x y d ≡ d ++ (x, y) ∷ []
unfolding insert
insert_last x y [] b = refl
insert_last x y ((j, w) ∷ d) (p, q) = ground (arith, insert_last x y d)

pub AllBelow-append :
    (x z y : ℤ) (d : Items) → AllBelow x d → x <ℤ z → AllBelow z (d ++ (x, y) ∷ [])
AllBelow-append x z y [] b h = (h, tt)
AllBelow-append x z y ((j, w) ∷ d) (p, q) h = (omega arith, AllBelow-append x z y d q h)

pub ceil_div-zero : (s : ℕ) → 0 < s → ceil_div 0 s ≡ 0
ceil_div-zero s h = div-eq_of_lt (omega arith)

pub ceil_div-last : (n s : ℕ) → 0 < n → n ≤ s → ceil_div n s ≡ 1
ceil_div-last n s h k = div-eq_of_lt-le {k = 1} s (omega arith) (omega arith)

pub ceil_div-step : (n s : ℕ) → 0 < s → s ≤ n → ceil_div n s ≡ suc (ceil_div (n - s) s)
ceil_div-step n s h k =
    let e : n + (s - 1) ≡ (n - s + (s - 1)) + s = omega arith in
    ap (λ m. m / s) e ∙ add-div_right (n - s + (s - 1)) h ∙ omega arith

-- From `curr` on, the value and the items that are left give the function `g`.
pub record IsRest (g : ℤ → ℤ) (t : ℤ → Bool) (curr value : ℤ) (d : Items) : Type 0 where
  pub ascending : IsAscending d
  pub above : Above curr d
  pub truthy : AllTruthy t d
  pub agrees : (z : ℤ) → curr ≤ℤ z → eval value d z ≡ g z

pub IsRest-now :
    (g : ℤ → ℤ) (t : ℤ → Bool) (curr value : ℤ) (d : Items)
    → IsRest g t curr value d
    → value ≡ g curr
IsRest-now g t curr value [] r = r.agrees curr (omega arith)
IsRest-now g t curr value ((j, w) ∷ d) r = ground (arith, r.agrees curr, r.above)

pub IsRest-next :
    (g : ℤ → ℤ) (t : ℤ → Bool) (curr value j w : ℤ) (d : Items)
    → IsRest g t curr value ((j, w) ∷ d)
    → IsRest g t j w d
IsRest-next g t curr value j w d r = record {
  ascending = r.ascending.1;
  above = r.ascending.0;
  truthy = r.truthy.1;
  agrees = λ z h. ground (arith, r.agrees z, r.above);
}

pub IsRest-stay :
    (g : ℤ → ℤ) (t : ℤ → Bool) (curr next value : ℤ) (d : Items)
    → IsRest g t curr value d
    → curr ≤ℤ next
    → Above next d
    → IsRest g t next value d
IsRest-stay g t curr next value d r h a = record {
  ascending = r.ascending;
  above = a;
  truthy = r.truthy;
  agrees = λ z k. r.agrees z (omega arith);
}

module _ (o : SortedDict) (g : ℤ → ℤ) (t : ℤ → Bool) where
  advance-IsRest :
      (next curr value : ℤ) (d : Items)
      → IsRest g t curr value d
      → curr ≤ℤ next
      → IsRest g t next (advance o t next value d).0 (advance o t next value d).1
  unfolding advance
  advance-IsRest next curr value [] r h = IsRest-stay g t curr next value [] r h tt
  advance-IsRest next curr value ((j, w) ∷ d) r h = elim (Bool-cases (t j && leb_ℤ j next)) [
    | inl e ↦
        rw (e, advance)
          (advance-IsRest next j w d (IsRest-next g t curr value j w d r) (ground arith))
    | inr e ↦
        rw (e, advance)
          (IsRest-stay g t curr next value ((j, w) ∷ d) r h
            (ground (arith, r.truthy, Above-up next j d, r.ascending)))
  ]

  module _ (documented : IsDocumented o) where
    open documented use {set_item_is}

    loop_more :
        (fuel step : ℕ) (stop curr value : ℤ) (d sequence : Items)
        → ltb_ℤ curr stop ≡ true
        → values_loop o t (suc fuel) step stop curr value d sequence ≡ (
            let next = min_ℤ stop (curr +ℤ pos step) in
            let (value', d') = advance o t next value d in
            values_loop o t fuel step stop next value' d' (insert curr value sequence))
    unfolding values_loop
    loop_more fuel step stop curr value d sequence e =
        rw (e, values_loop, ← set_item_is curr value sequence)

    loop_done :
        (fuel step : ℕ) (stop curr value : ℤ) (d sequence : Items)
        → ltb_ℤ curr stop ≡ false
        → values_loop o t fuel step stop curr value d sequence ≡ sequence
    unfolding values_loop
    loop_done zero step stop curr value d sequence e = refl
    loop_done (suc fuel) step stop curr value d sequence e = rw (e, values_loop)

    loop_end :
        (fuel step : ℕ) (curr value : ℤ) (d sequence : Items)
        → values_loop o t fuel step (curr +ℤ pos 0) curr value d sequence
          ≡ sequence ++ sampled g curr step 0
    unfolding sampled
    loop_end fuel step curr value d sequence = rw (append-nil sequence) (
        loop_done fuel step (curr +ℤ pos 0) curr value d sequence
          (ground (arith, +ℤ_parts curr (pos 0))))

    placed :
        (curr value : ℤ) (d sequence rest : Items)
        → IsRest g t curr value d
        → AllBelow curr sequence
        → insert curr value sequence ++ rest ≡ sequence ++ (curr, g curr) ∷ rest
    placed curr value d sequence rest r s =
        rw (insert_last curr value sequence s, IsRest-now g t curr value d r)
          (append_assoc sequence ((curr, g curr) ∷ []) rest)

    placed-AllBelow :
        (curr value next : ℤ) (sequence : Items)
        → AllBelow curr sequence
        → curr <ℤ next
        → AllBelow next (insert curr value sequence)
    placed-AllBelow curr value next sequence s h =
        rw (insert_last curr value sequence s) (AllBelow-append curr next value sequence s h)

    next_step :
        (curr : ℤ) (left step : ℕ)
        → step ≤ left
        → (min_ℤ (curr +ℤ pos left) (curr +ℤ pos step) ≡ curr +ℤ pos step)
          × (curr +ℤ pos left ≡ (curr +ℤ pos step) +ℤ pos (left - step))
    unfolding min_ℤ
    next_step curr left step h = (
      ground (
        arith,
        +ℤ_parts curr (pos left),
        +ℤ_parts curr (pos step),
        eq_of_parts (curr +ℤ pos left) (curr +ℤ pos step),
      ),
      omega int_laws,
    )

    last_step :
        (curr : ℤ) (left step : ℕ)
        → left ≤ step
        → min_ℤ (curr +ℤ pos left) (curr +ℤ pos step) ≡ curr +ℤ pos left
    unfolding min_ℤ
    last_step curr left step h = ground (
      arith,
      +ℤ_parts curr (pos left),
      +ℤ_parts curr (pos step),
      eq_of_parts (curr +ℤ pos left) (curr +ℤ pos step),
    )

    -- One round, and then those that the induction speaks of
    round :
        (fuel step left' n : ℕ) (stop curr next value : ℤ) (d sequence : Items)
        → ltb_ℤ curr stop ≡ true
        → min_ℤ stop (curr +ℤ pos step) ≡ next
        → stop ≡ next +ℤ pos left'
        → IsRest g t curr value d
        → AllBelow curr sequence
        → (values_loop o t fuel step
              (next +ℤ pos left')
              next
              (advance o t next value d).0
              (advance o t next value d).1
              (insert curr value sequence)
            ≡ insert curr value sequence ++ sampled g next step n)
        → values_loop o t (suc fuel) step stop curr value d sequence
          ≡ sequence ++ (curr, g curr) ∷ sampled g next step n
    round fuel step left' n stop curr next value d sequence e m f r s ih =
        loop_more fuel step stop curr value d sequence e
        ∙ rw (m, f) ih
        ∙ placed curr value d sequence (sampled g next step n) r s

    values_loop-samples :
        (fuel left step : ℕ) (curr value : ℤ) (d sequence : Items)
        → left ≤ fuel
        → 0 < step
        → IsRest g t curr value d
        → AllBelow curr sequence
        → values_loop o t fuel step (curr +ℤ pos left) curr value d sequence
          ≡ sequence ++ sampled g curr step (ceil_div left step)
    unfolding sampled
    values_loop-samples fuel zero step curr value d sequence a b r s =
        rw (ceil_div-zero step b) (loop_end fuel step curr value d sequence)
    values_loop-samples zero (suc left) step curr value d sequence a b r s = absurd (omega arith)
    values_loop-samples (suc fuel) (suc left) step curr value d sequence a b r s =
        elim (Bool-cases (leb step (suc left))) [
          | inl e ↦
              let next = curr +ℤ pos step in
              let (m, f) = next_step curr (suc left) step (leb→le step (suc left) e) in
              let ih =
                values_loop-samples fuel (suc left - step) step next (advance o t next value d).0
                  (advance o t next value d).1 (insert curr value sequence) (omega arith) b
                  (advance-IsRest next curr value d r (omega int_laws))
                  (placed-AllBelow curr value next sequence s (omega int_laws)) in
              rw (ceil_div-step (suc left) step b (leb→le step (suc left) e)) (
                round fuel step (suc left - step) (ceil_div (suc left - step) step)
                  (curr +ℤ pos (suc left)) curr next value d sequence
                  (ground (arith, +ℤ_parts curr (pos (suc left)))) m f r s ih)
          | inr e ↦
              let m = last_step curr (suc left) step (ground arith) in
              let next = curr +ℤ pos (suc left) in
              rw (ceil_div-last (suc left) step (omega arith) (ground arith)) (
                round fuel step 0 0 next curr next value d sequence
                  (ground (arith, +ℤ_parts curr (pos (suc left)))) m (omega int_laws) r s
                  (loop_end fuel step next (advance o t next value d).0 (advance o t next value d).1
                    (insert curr value sequence)))
        ]

-- The items after `x`
from_start :
    (g : ℤ → ℤ) (t : ℤ → Bool) (i x : ℤ) (d : Items)
    → IsAscending d
    → AllTruthy t d
    → ((z : ℤ) → x ≤ℤ z → eval i d z ≡ g z)
    → IsRest g t x (eval i d x) (items_from (count_up_to x d) d)
unfolding count_up_to items_from
from_start g t i x [] a b c = record { ascending = tt; above = tt; truthy = tt; agrees = c }
from_start g t i x ((j, w) ∷ d) a b c = elim (Bool-cases (ltb_ℤ x j)) [
  | inl e ↦
      rw (e, count_up_to, items_from)
        (record {
          ascending = a;
          above = (ltb_ℤ→lt x j e, Above-up x j d (ground arith) a.0);
          truthy = b;
          agrees = c;
        })
  | inr e ↦
      rw (e, count_up_to, items_from) (from_start g t w x d a.1 b.1 (λ z h. ground (arith, c z)))
]

even-sampled :
    (g : ℤ → ℤ) (start y : ℤ) (step n : ℕ)
    → ((z : ℤ) → g z ≡ y)
    → even start step y n ≡ sampled g start step n
unfolding even sampled
even-sampled g start y step zero h = refl
even-sampled g start y step (suc n) h = rw (h start, even-sampled g (start +ℤ pos step) y step n h)

module _ (o : SortedDict) (documented : IsDocumented o) (t : ℤ → Bool) where
  constant-sampled :
      (f : PiecewiseConstantFunction) (start : ℤ) (step n : ℕ)
      → f.breakpoints ≡ []
      → even start step f.initial_value n ≡ sampled (call o f) start step n
  constant-sampled f start step n e =
      even-sampled (call o f) start f.initial_value step n (λ z. rw (call-eval o documented f z, e))

  compute_values-items :
      (i : ℤ) (d : Items) (start : ℤ) (width step : ℕ)
      → (let f : PiecewiseConstantFunction = record { initial_value = i; breakpoints = d } in
          IsAscending d
          → AllTruthy t d
          → 0 < step_or width step
          → compute_values o t f start width step
            ≡ some (
                sampled
                  (call o f)
                  start
                  (step_or width step)
                  (ceil_div width (step_or width step))))
  unfolding compute_values
  compute_values-items i [] start width step a b c =
      let f : PiecewiseConstantFunction = record { initial_value = i; breakpoints = [] } in
      let s = step_or width step in
      let e : s == 0 ≡ false = ground arith in
      rw e (ap some (constant-sampled f start s (ceil_div width s) refl))
  compute_values-items i (x ∷ d) start width step a b c =
      let f : PiecewiseConstantFunction = record { initial_value = i; breakpoints = x ∷ d } in
      let s = step_or width step in
      let r =
        from_start (call o f) t i start (x ∷ d) a b (λ z h. sym (call-eval o documented f z)) in
      ap some (
        rw (documented.bisect_is start (x ∷ d), call-eval o documented f start)
          (values_loop-samples o (call o f) t documented width width s start (eval i (x ∷ d) start)
            (items_from (count_up_to start (x ∷ d)) (x ∷ d)) [] (omega arith) c r tt))

  -- The values computed for a function are those that calls give, one by one at `range(start, stop, step)`, provided
  -- that the step is not 0, or else the range is not empty, and that no breakpoint counts as false.
  pub compute_values-sampled :
      (f : PiecewiseConstantFunction) (start : ℤ) (width step : ℕ)
      → IsAscending f.breakpoints
      → AllTruthy t f.breakpoints
      → 0 < step_or width step
      → compute_values o t f start width step
        ≡ some (sampled (call o f) start (step_or width step) (ceil_div width (step_or width step)))
  unfolding compute_values
  compute_values-sampled f start width step a b c =
      compute_values-items f.initial_value f.breakpoints start width step a b c
