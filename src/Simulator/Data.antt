-- ===== src/Simulator/Data.antt =====
-- `get_data`, `total_cost` and the comparison of simulators of clusterman/simulator/simulator.py. A quotient of
-- floats is an argument. Caches have no answers here: the functions are new, or have not been asked before.
use mathlib.Core.Path.{fun_ext}
use clusterman.Base.{
  ℕ, ◌≡◌, refl, ◌∙◌, ap, String, str_eq, true, [], ◌∷◌, Option, none, some, ℤ, pos, pos_part, ◌-ℤ◌,
  ◌<◌, eq_ℤ, max_ℤ, or_else, if◌then◌else◌,
}
use clusterman.Math.SortedDict.{SortedDict, Items, IsDocumented, IsAscending}
use clusterman.Math.Piecewise.{PiecewiseConstantFunction, call, combine, sub, mul, piecewise_max}
use clusterman.Math.Piecewise.Merged.{call-combine, combine-IsAscending}
use clusterman.Math.Piecewise.Sequence.{step_or, ceil_div, compute_values, integrals}
use clusterman.Math.Piecewise.Sequence.Values.{sampled, AllTruthy, compute_values-sampled}
use clusterman.Simulator.Instances.{Simulator, no_function}

-- The range of the data: the start, the width and the step, which is 0 for None
pub record Range : Type 0 where
  pub start : ℤ
  pub width : ℕ
  pub step : ℕ

-- `start_time or self.start_time`, `end_time or self.end_time`: times count as true
unfoldable pub whole_range : Simulator → (start_time end_time : Option ℤ) → (step : ℕ) → Range
whole_range s start_time end_time step =
    let start = or_else start_time s.start_time in
    record { start = start; width = pos_part (or_else end_time s.end_time -ℤ start); step = step }

all_true : (d : Items) → AllTruthy (λ x. true) d
all_true [] = tt
all_true ((j, w) ∷ d) = (refl, all_true d)

module _ (o : SortedDict) (quotient : ℤ → ℤ → ℤ) where
  -- `y0 / y1`, and 0 in place of a ZeroDivisionError
  abbrev pub quotient_or_zero : ℤ → ℤ → ℤ
  quotient_or_zero y0 y1 = if eq_ℤ y1 (pos 0) then pos 0 else quotient y0 y1

  -- `__truediv__`
  unfoldable pub truediv :
      PiecewiseConstantFunction → PiecewiseConstantFunction → PiecewiseConstantFunction
  unfolding combine
  truediv f g = combine o quotient_or_zero f g

  module _ (hour_transform : ℕ → ℕ) where
    abbrev pub values_of : PiecewiseConstantFunction → Range → Option Items
    values_of f r = compute_values o (λ x. true) f r.start r.width r.step

    abbrev pub integrals_of : PiecewiseConstantFunction → Range → Option Items
    integrals_of f r = integrals o (λ x. true) hour_transform f r.start r.width r.step

    -- `none` also for the `ValueError` of a key that is not known
    unfoldable pub get_data : Simulator → (key : String) → Range → Option Items
    unfolding truediv
    get_data s key r =
        if str_eq key "cpus"
        then values_of s.mesos_cpus r
        else if str_eq key "cpus_allocated"
        then values_of s.mesos_cpus_allocated r
        else if str_eq key "unused_cpus"
        then values_of (sub o s.aws_cpus s.mesos_cpus_allocated) r
        else if str_eq key "cost"
        then integrals_of s.cost_per_hour r
        else if str_eq key "unused_cpus_cost"
        then integrals_of
            (mul o (truediv (sub o s.aws_cpus s.mesos_cpus_allocated) s.aws_cpus) s.cost_per_hour) r
        else if str_eq key "cost_per_cpu"
        then values_of (truediv s.cost_per_hour s.aws_cpus) r
        else if str_eq key "oversubscribed"
        then values_of (piecewise_max o (sub o s.mesos_cpus_allocated s.aws_cpus) no_function) r
        else none

    -- `self.get_data("cost").values()[0]`
    unfoldable pub total_cost : Simulator → Option ℤ
    unfolding get_data whole_range
    total_cost s = elim (get_data s "cost" (whole_range s none none 0)) [
      | none ↦ none
      | some [] ↦ none
      | some ((x, y) ∷ d) ↦ some y
    ]

  module _ (hour_transform : ℕ → ℕ) (documented : IsDocumented o) where
    -- The cpus that are allocated beyond those that there are
    abbrev pub oversubscribed : Simulator → ℤ → ℤ
    oversubscribed s z = max_ℤ (call o s.mesos_cpus_allocated z -ℤ call o s.aws_cpus z) (pos 0)

    call-oversubscribed :
        (s : Simulator) (z : ℤ)
        → IsAscending s.mesos_cpus_allocated.breakpoints
        → IsAscending s.aws_cpus.breakpoints
        → call o (piecewise_max o (sub o s.mesos_cpus_allocated s.aws_cpus) no_function) z
          ≡ oversubscribed s z
    unfolding piecewise_max sub call
    call-oversubscribed s z a b =
        call-combine o documented max_ℤ (sub o s.mesos_cpus_allocated s.aws_cpus) no_function z
          (combine-IsAscending o documented ◌-ℤ◌ s.mesos_cpus_allocated s.aws_cpus) tt
        ∙ ap (λ v. max_ℤ v (pos 0))
            (call-combine o documented ◌-ℤ◌ s.mesos_cpus_allocated s.aws_cpus z a b)

    -- The data of oversubscription are the cpus that are allocated beyond those there are, and 0 where there
    -- are enough, at each point of the range.
    pub get_data-oversubscribed :
        (s : Simulator) (r : Range)
        → IsAscending s.mesos_cpus_allocated.breakpoints
        → IsAscending s.aws_cpus.breakpoints
        → 0 < step_or r.width r.step
        → get_data hour_transform s "oversubscribed" r
          ≡ some (
              sampled
                (oversubscribed s)
                r.start
                (step_or r.width r.step)
                (ceil_div r.width (step_or r.width r.step)))
    unfolding get_data piecewise_max
    get_data-oversubscribed s r a b c =
        let f = piecewise_max o (sub o s.mesos_cpus_allocated s.aws_cpus) no_function in
        let d =
          combine-IsAscending o documented max_ℤ (sub o s.mesos_cpus_allocated s.aws_cpus)
            no_function in
        compute_values-sampled o documented (λ x. true) f r.start r.width r.step d
          (all_true f.breakpoints) c
        ∙ ap
            (λ g. some (
              sampled g r.start (step_or r.width r.step)
                (ceil_div r.width (step_or r.width r.step))))
            (fun_ext (λ z. call-oversubscribed s z a b))
