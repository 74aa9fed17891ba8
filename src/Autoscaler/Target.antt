-- ===== src/Autoscaler/Target.antt =====
-- What the target capacity of clusterman/autoscaler/autoscaler.py is worth.
mod Percents
use clusterman.Base.{
  ℕ, zero, suc, ◌+◌, ◌*◌, ◌≤◌, ◌<◌, String, ◌≡◌, ◌≢◌, refl, sym, ◌∙◌, ap, subst, ◌⊎◌, inl, inr,
  Bool, true, false, ◌&&◌, List, [], ◌∷◌, Option, none, some, Bool-cases, In, any, ltb, ◌==◌,
  leb→le, str_eq, arith, if◌then◌else◌,
}
use native.Mathlib.Nat.{
  one-mul, mul_comm, mul_assoc, mul_left_comm, mul_right_comm, mul-le-mul_right,
}
use clusterman.Base.Fraction.{
  Fraction, frac, lt_f, le_f, mul_f, div_f, distance_f, ◌≤f◌, ≤f_trans, ≤f_total, lt_f→≤f,
}
use clusterman.Autoscaler.{
  AutoscalingConfig, Failure, resource_request_error, value_error, zero_division_error, Result, ok,
  err, and_then, Row, is_missing, is_nothing, all_rows, is_excluded_resource, add_percent,
  usage_pct, add_usage, usage_pcts, max_pct, max_of, get_most_constrained_resource_for_request,
  over_setpoint, within_margin, scaled_capacity, compute_target_capacity,
}
use clusterman.Autoscaler.Target.Percents.{
  some-none, and_then-ok, ok_injective, max_pct-AreAtMost, rearrange, something-present,
  positive-not_zero, not_ok, usage_pcts-AreCovered, AreFractions, AreAtMost, IsCovered, AreCovered,
}

module _ (c : AutoscalingConfig) where
  -- With the capacity `new` in place of `fulfilled`, every requested resource that is not excluded takes
  -- at most the part of the cluster that the setpoint says, when the resources grow with the capacity.
  abbrev pub IsEnough : (fulfilled : ℕ) → List Row → Fraction → Type 0
  IsEnough fulfilled rows new =
      (row : Row) (v : ℕ)
      → In row rows
      → row.requested ≡ some v
      → is_excluded_resource c row.resource ≡ false
      → v * fulfilled * new.den * c.setpoint.den ≤ new.num * c.setpoint.num * row.total

  AreCovered-row :
      (y : Fraction) (rows : List Row)
      → AreCovered c y rows
      → (row : Row) → In row rows
      → IsCovered c y row
  AreCovered-row y [] a row i = absurd i
  AreCovered-row y (r ∷ rows) (a, as0) row (inl e) = subst (IsCovered c y) (sym e) a
  AreCovered-row y (r ∷ rows) (a, as0) row (inr i) = AreCovered-row y rows as0 row i

  max_of-AreCovered :
      (rows : List Row) (most : String × Fraction)
      → get_most_constrained_resource_for_request c rows ≡ ok most
      → AreCovered c most.1 rows
  unfolding get_most_constrained_resource_for_request
  max_of-AreCovered rows most h =
      let (xs, r, m) = and_then-ok (usage_pcts c rows) max_of most h in
      let (f, covers) = usage_pcts-AreCovered c rows xs r in covers most.1 (at_most xs most f m)
    where
      at_most :
          (xs : List (String × Fraction)) (m : String × Fraction)
          → AreFractions xs
          → max_of xs ≡ ok m
          → AreAtMost m.1 xs
      at_most [] m f e = tt
      at_most (x ∷ xs) m (f, fs) e =
          subst (λ (n : String × Fraction). AreAtMost n.1 (x ∷ xs))
            (ok_injective (max_pct x xs) m e) (max_pct-AreAtMost x xs f fs)

  scaled_from : (current fulfilled : ℕ) → String × Fraction → Result Fraction
  scaled_from current fulfilled most =
      and_then (over_setpoint c most.1)
        (λ scale_factor. ok (within_margin c current (mul_f (frac fulfilled) scale_factor)))

  compute-scaled :
      (current fulfilled : ℕ) (history : List Fraction) (rows : List Row)
      → all_rows is_nothing rows ≡ false
      → 0 < current
      → 0 < fulfilled
      → compute_target_capacity c current fulfilled history rows
        ≡ and_then
            (get_most_constrained_resource_for_request c rows)
            (scaled_from current fulfilled)
  unfolding compute_target_capacity scaled_capacity scaled_from
  compute-scaled current fulfilled history rows n h k =
      rw (something-present rows n, n, positive-not_zero current h, positive-not_zero fulfilled k)

  over_setpoint-is : (x y : Fraction) → over_setpoint c x ≡ ok y → y ≡ div_f x c.setpoint
  unfolding over_setpoint
  over_setpoint-is x y h = elim (Bool-cases (c.setpoint.num == 0)) [
    | inl e ↦ absurd (not_ok zero_division_error y (rw (over_setpoint, e) at h))
    | inr e ↦ sym (ok_injective (div_f x c.setpoint) y (rw (over_setpoint, e) at h))
  ]

  enough :
      (rows : List Row) (usage factor : Fraction) (fulfilled : ℕ)
      → AreCovered c usage rows
      → factor ≡ div_f usage c.setpoint
      → IsEnough fulfilled rows (mul_f (frac fulfilled) factor)
  enough rows usage factor fulfilled a e =
      subst (λ x. IsEnough fulfilled rows (mul_f (frac fulfilled) x)) (sym e)
        (λ row v i r x.
          rearrange v fulfilled usage.den c.setpoint.num c.setpoint.den usage.num row.total
            (AreCovered-row usage rows a row i v r x))

  margin-cases :
      (current : ℕ) (scaled new : Fraction)
      → within_margin c current scaled ≡ new
      → (new ≡ scaled)
        ⊎ (new ≡ frac current)
          × (le_f c.target_capacity_margin (div_f (distance_f scaled (frac current)) (frac current))
              ≡ false)
  unfolding within_margin
  margin-cases current scaled new h =
      elim (Bool-cases
        (le_f c.target_capacity_margin (div_f (distance_f scaled (frac current)) (frac current)))) [
          | inl e ↦ inl (sym (rw (within_margin, e) at h))
          | inr e ↦ inr (sym (rw (within_margin, e) at h), e)
        ]

  -- The target that is computed when everything is non-zero is large enough for the request, or it is the
  -- current one, and what would be enough differs from it by less than the margin.
  pub compute_target_capacity-IsEnough :
      (current fulfilled : ℕ) (history : List Fraction) (rows : List Row) (new : Fraction)
      → all_rows is_nothing rows ≡ false
      → 0 < current
      → 0 < fulfilled
      → compute_target_capacity c current fulfilled history rows ≡ ok new
      → (scaled : Fraction) × IsEnough fulfilled rows scaled
        × ((new ≡ scaled)
            ⊎ (new ≡ frac current)
              × (le_f c.target_capacity_margin
                    (div_f (distance_f scaled (frac current)) (frac current))
                  ≡ false))
  unfolding over_setpoint scaled_from
  compute_target_capacity-IsEnough current fulfilled history rows new n h k e =
      let (most, r, e1) =
        and_then-ok (get_most_constrained_resource_for_request c rows)
          (scaled_from current fulfilled) new
          (sym (compute-scaled current fulfilled history rows n h k) ∙ e) in
      let (factor, d, e2) =
        and_then-ok (over_setpoint c most.1)
          (λ scale_factor. ok (within_margin c current (mul_f (frac fulfilled) scale_factor))) new
          e1 in
      let new_is = ok_injective (within_margin c current (mul_f (frac fulfilled) factor)) new e2 in
      (
        mul_f (frac fulfilled) factor,
        enough rows most.1 factor fulfilled (max_of-AreCovered rows most r)
            (over_setpoint-is most.1 factor d),
        margin-cases current (mul_f (frac fulfilled) factor) new new_is,
      )

  -- Every requested resource is excluded.
  abbrev pub AreExcluded : List Row → Type 0
  AreExcluded [] = Unit
  AreExcluded (row ∷ rows) =
      (row.requested ≢ none → is_excluded_resource c row.resource ≡ true) × AreExcluded rows

  add_usage-excluded :
      (row : Row) (o : Option ℕ) (rest : Result (List (String × Fraction)))
      → (o ≢ none → is_excluded_resource c row.resource ≡ true)
      → add_usage c row o rest ≡ rest
  unfolding add_usage
  add_usage-excluded row none rest h = refl
  add_usage-excluded row (some v) rest h = rw (h (some-none v))

  usage_pcts-excluded : (rows : List Row) → AreExcluded rows → usage_pcts c rows ≡ ok []
  unfolding usage_pcts
  usage_pcts-excluded [] a = refl
  usage_pcts-excluded (row ∷ rows) (a, as0) =
      add_usage-excluded row row.requested (usage_pcts c rows) a ∙ usage_pcts-excluded rows as0

  -- A request only for resources that are excluded from scaling decisions fails, when everything is non-zero:
  -- the maximum of no percentages is taken.
  pub compute_target_capacity-excluded :
      (current fulfilled : ℕ) (history : List Fraction) (rows : List Row)
      → all_rows is_nothing rows ≡ false
      → 0 < current
      → 0 < fulfilled
      → AreExcluded rows
      → compute_target_capacity c current fulfilled history rows ≡ err value_error
  unfolding get_most_constrained_resource_for_request
  compute_target_capacity-excluded current fulfilled history rows n h k a =
      compute-scaled current fulfilled history rows n h k
      ∙ ap (λ r. and_then (and_then r max_of) (scaled_from current fulfilled))
          (usage_pcts-excluded rows a)
