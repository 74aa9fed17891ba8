-- ===== src/Math/Examples.antt =====
-- The functions of clusterman/math/piecewise.py on concrete breakpoints.
use clusterman.Base.{◌≡◌, refl, List, [], ◌∷◌, pos, negsuc, ◌+ℤ◌, true, some, arith}
use clusterman.Math.SortedDict.{
  IsAscending, count_up_to, value_at, find, insert, keys_from, sorted_dict,
  sorted_dict-IsDocumented,
}
use clusterman.Math.Piecewise.{PiecewiseConstantFunction, call, add_delta, with_breakpoint, combine}
use clusterman.Math.Piecewise.Delta.{call-add_delta}
use clusterman.Math.Piecewise.Merged.{call-combine}
use clusterman.Math.Piecewise.Sequence.Values.{sampled}
use clusterman.Math.Piecewise.Sequence.Cache.{
  Cached, Use, get_values, shift, values, use_function, use_all, values-sampled,
}

-- 1 before 10, 4 from there and 2 from 30 on
abbrev steps : PiecewiseConstantFunction
steps = record { initial_value = pos 1; breakpoints = (pos 10, pos 4) ∷ (pos 30, pos 2) ∷ [] }

abbrev other_steps : PiecewiseConstantFunction
other_steps = record { initial_value = pos 0; breakpoints = (pos 10, pos 1) ∷ (pos 20, pos 7) ∷ [] }

steps-IsAscending : IsAscending steps.breakpoints
steps-IsAscending = ground arith

other_steps-IsAscending : IsAscending other_steps.breakpoints
other_steps-IsAscending = ground arith

call-add_delta_example :
    call sorted_dict (add_delta sorted_dict steps (pos 20) (negsuc 2)) (pos 30) ≡ negsuc 0
unfolding ◌+ℤ◌ call value_at count_up_to
call-add_delta_example =
    call-add_delta sorted_dict sorted_dict-IsDocumented steps (pos 20) (negsuc 2) (pos 30)
      steps-IsAscending

call-combine_example :
    call sorted_dict (combine sorted_dict ◌+ℤ◌ steps other_steps) (pos 20) ≡ pos 11
unfolding ◌+ℤ◌ call value_at count_up_to
call-combine_example =
    call-combine sorted_dict sorted_dict-IsDocumented ◌+ℤ◌ steps other_steps (pos 20)
      steps-IsAscending other_steps-IsAscending

-- A call, a shift from 30 on, and the same call again
abbrev uses : List Use
uses = get_values (pos 5) 30 10 ∷ shift (pos 30) (pos 1) ∷ get_values (pos 5) 30 10 ∷ []

abbrev used : Cached
used = use_all sorted_dict (λ x. true) uses (record { function = steps; results = [] })

used_function :
    used.function
    ≡ record { initial_value = pos 1; breakpoints = (pos 10, pos 4) ∷ (pos 30, pos 3) ∷ [] }
unfolding use_all use_function add_delta ◌+ℤ◌ with_breakpoint find insert keys_from
    clusterman.Base.eq_ℤ
used_function = refl

values-sampled_example :
    (values sorted_dict (λ x. true) used (pos 5) 30 10).0
    ≡ some (sampled (call sorted_dict used.function) (pos 5) 10 3)
values-sampled_example =
    values-sampled sorted_dict (λ x. true) sorted_dict-IsDocumented steps uses (pos 5) 30 10 tt
      (rw used_function (ground arith)) (rw used_function (refl, (refl, tt))) (omega arith)
