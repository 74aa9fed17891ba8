-- ===== src/Math/Piecewise/Sequence.antt =====
-- `values` and `integrals` of clusterman/math/piecewise.py, without the answers of their caches; the cache
-- of `values` is in Sequence/Cache. The range starts at `start` and is `width`
-- wide, so it does not run backwards; a step that is None is 0, as for `step or (stop - start)`. An
-- exception is `none`: with no width and no step, the code divides by 0.
pub mod Cache
pub mod Values
use clusterman.Base.{
  ℕ, zero, suc, ◌+◌, ◌-◌, ◌*◌, ◌/◌, ◌%◌, ◌==◌, Bool, true, false, ◌&&◌, List, [], ◌∷◌, ◌++◌, Option,
  none, some, ℤ, pos, pos_part, ◌+ℤ◌, ◌-ℤ◌, ◌*ℤ◌, ltb_ℤ, leb_ℤ, min_ℤ, if◌then◌else◌,
}
use clusterman.Math.SortedDict.{Items, SortedDict, items_from}
use clusterman.Math.Piecewise.{PiecewiseConstantFunction, call}

-- `step or (stop - start)`
abbrev pub step_or : (width step : ℕ) → ℕ
step_or width step = if step == 0 then width else step

-- `int(math.ceil(n / d))`
abbrev pub ceil_div : ℕ → ℕ → ℕ
ceil_div n d = (n + (d - 1)) / d

-- `[(start + step * i, y) for i in range(n)]`
unfoldable pub even : (start : ℤ) → (step : ℕ) → (y : ℤ) → ℕ → Items
even start step y zero = []
even start step y (suc n) = (start, y) ∷ even (start +ℤ pos step) step y n

-- The truth of a breakpoint as a condition: every time is true, the number 0 is not.
module _ (o : SortedDict) (is_truthy : ℤ → Bool) where
  open o use {set_item, bisect}

  -- The inner loop of `values`: the value, and the breakpoints from the next on
  unfoldable pub advance : (next : ℤ) → (value : ℤ) → Items → ℤ × Items
  advance next value [] = (value, [])
  advance next value ((j, w) ∷ d) = elim (is_truthy j && leb_ℤ j next) [
    | true ↦ advance next w d
    | false ↦ (value, (j, w) ∷ d)
  ]

  -- `while curr_xval < stop` of `values`
  unfoldable pub values_loop :
      (fuel : ℕ) → (step : ℕ) → (stop curr value : ℤ) → Items → (sequence : Items) → Items
  unfolding advance
  values_loop zero step stop curr value d sequence = sequence
  values_loop (suc fuel) step stop curr value d sequence = elim (ltb_ℤ curr stop) [
    | false ↦ sequence
    | true ↦
        let next = min_ℤ stop (curr +ℤ pos step) in
        let (value', d') = advance next value d in
        values_loop fuel step stop next value' d' (set_item curr value sequence)
  ]

  -- What `values` computes where its cache has no answer
  unfoldable pub compute_values :
      PiecewiseConstantFunction → (start : ℤ) → (width step : ℕ) → Option Items
  unfolding even values_loop
  compute_values f start width step =
      let s = step_or width step in
      elim f.breakpoints [
        | [] ↦ if s == 0 then none else some (even start s f.initial_value (ceil_div width s))
        | (x ∷ d) ↦ some (
            values_loop width s (start +ℤ pos width) start (call o f start)
              (items_from (bisect start (x ∷ d)) (x ∷ d)) [])
      ]

  module _ (transform : ℕ → ℕ) where
    -- `transform(b - a) * value`
    abbrev pub area : (a b value : ℤ) → ℤ
    area a b value = pos (transform (pos_part (b -ℤ a))) *ℤ value

    -- The inner loop of `integrals`: the integral so far, the place, the value and the breakpoints
    -- from the next on
    unfoldable pub accumulate : (next : ℤ) → (integral curr value : ℤ) → Items → ℤ × ℤ × ℤ × Items
    accumulate next integral curr value [] = (integral, curr, value, [])
    accumulate next integral curr value ((j, w) ∷ d) = elim (is_truthy j && leb_ℤ j next) [
      | true ↦ accumulate next (integral +ℤ area curr j value) j w d
      | false ↦ (integral, curr, value, (j, w) ∷ d)
    ]

    unfoldable pub integrals_loop :
        (fuel : ℕ) → (step : ℕ) → (stop curr value : ℤ) → Items → (sequence : Items) → Items
    unfolding accumulate
    integrals_loop zero step stop curr value d sequence = sequence
    integrals_loop (suc fuel) step stop curr value d sequence = elim (ltb_ℤ curr stop) [
      | false ↦ sequence
      | true ↦
          let next = min_ℤ stop (curr +ℤ pos step) in
          let (integral, last, value', d') = accumulate next (pos 0) curr value d in
          integrals_loop fuel step stop next value' d'
            (set_item curr (integral +ℤ area last next value') sequence)
    ]

    -- A function without breakpoints: chunks of one width, and the rest of the range
    unfoldable pub integrals_constant : (start : ℤ) → (width step : ℕ) → (y : ℤ) → Option Items
    unfolding even
    integrals_constant start width step y =
        let step_width = transform step in
        let range_width = transform width in
        if step_width == 0
        then none
        else let chunks = range_width / step_width in
          let sequence = even start step (pos step_width *ℤ y) chunks in
          some (
            if range_width % step_width == 0
            then sequence
            else set_item (start +ℤ pos (step * chunks)) (pos (range_width % step_width) *ℤ y)
                sequence)

    unfoldable pub integrals :
        PiecewiseConstantFunction → (start : ℤ) → (width step : ℕ) → Option Items
    unfolding integrals_constant integrals_loop
    integrals f start width step =
        let s = step_or width step in
        elim f.breakpoints [
          | [] ↦ integrals_constant start width s f.initial_value
          | (x ∷ d) ↦ some (
              integrals_loop width s (start +ℤ pos width) start (call o f start)
                (items_from (bisect start (x ∷ d)) (x ∷ d)) [])
        ]

    -- `self.integrals(...).values()[0]`, with an `IndexError` for an empty range
    unfoldable pub integral : PiecewiseConstantFunction → (start : ℤ) → (width : ℕ) → Option ℤ
    unfolding integrals
    integral f start width = elim (integrals f start width width) [
      | none ↦ none
      | some [] ↦ none
      | some ((x, y) ∷ d) ↦ some y
    ]
