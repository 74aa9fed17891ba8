-- ===== src/Autoscaler/History.antt =====
-- The historical metrics that clusterman/autoscaler/autoscaler.py weighs resources by. The values of a
-- metric come from the metrics client, which is an argument; times are seconds.
use clusterman.Base.{
  ℕ, zero, suc, ◌+◌, ◌-◌, ◌<◌, String, ◌≡◌, refl, inl, inr, Bool, true, List, [], ◌∷◌, Option, none,
  some, In, In-keep, keep, length, ltb, arith,
}
use clusterman.Base.Fraction.{Fraction, frac, div_f}

abbrev pub smoothing : ℕ
smoothing = 5

abbrev pub week : ℕ
week = 604800

-- `xs[n:]` and `xs[-n:]`
abbrev drop : {A : Type 0} → ℕ → List A → List A
drop zero xs = xs
drop (suc n) [] = []
drop (suc n) (x ∷ xs) = drop n xs

unfoldable pub latest : {A : Type 0} → ℕ → List A → List A
latest n xs = drop (length xs - n) xs

abbrev pub sum_values : List (ℕ × ℕ) → ℕ
sum_values [] = 0
sum_values ((ts, val) ∷ xs) = val + sum_values xs

abbrev pub last_time : ℕ → List (ℕ × ℕ) → ℕ
last_time t [] = t
last_time t ((ts, val) ∷ xs) = last_time ts xs

pub record Smoothed : Type 0 where
  pub time_start : ℕ
  pub time_end : ℕ
  pub value : Fraction

-- The end of `_get_smoothed_non_zero_metadata`
unfoldable pub smoothed_values : List (ℕ × ℕ) → Option Smoothed
smoothed_values [] = none
smoothed_values ((ts, val) ∷ xs) = some (record {
  time_start = ts;
  time_end = last_time ts xs;
  value = record { num = val + sum_values xs; den = suc (length xs) };
})

abbrev pub is_positive : ℕ × ℕ → Bool
is_positive metric = ltb 0 metric.1

module _ (get_metric_values : String → (time_start time_end : ℕ) → List (ℕ × ℕ)) where
  unfoldable pub get_smoothed_non_zero_metadata :
      String → (time_start time_end : ℕ) → Option Smoothed
  unfolding smoothed_values latest
  get_smoothed_non_zero_metadata metric_name time_start time_end =
      smoothed_values
        (latest smoothing (keep is_positive (get_metric_values metric_name time_start time_end)))

  -- The weight of a resource, 0 without a history
  unfoldable pub weighted_resource : Smoothed → (metric_name : String) → Fraction
  unfolding get_smoothed_non_zero_metadata
  weighted_resource capacity metric_name =
      elim (get_smoothed_non_zero_metadata metric_name capacity.time_start capacity.time_end) [
        | none ↦ frac 0
        | some history ↦ div_f history.value capacity.value
      ]

  -- The values for cpus, mem, disk and gpus
  unfoldable pub get_historical_weighted_resource_value : (now : ℕ) → List Fraction
  unfolding weighted_resource
  get_historical_weighted_resource_value now =
      elim (get_smoothed_non_zero_metadata "non_orphan_fulfilled_capacity" (now - week) now) [
        | none ↦ frac 0 ∷ frac 0 ∷ frac 0 ∷ frac 0 ∷ []
        | some capacity ↦
            weighted_resource capacity "cpus_total"
            ∷ weighted_resource capacity "mem_total"
            ∷ weighted_resource capacity "disk_total"
            ∷ weighted_resource capacity "gpus_total"
            ∷ []
      ]

  -- A smoothed value is a fraction above zero.
  abbrev pub IsPositive : Fraction → Type 0
  IsPositive x = (0 < x.num) × (0 < x.den)

  In-drop : (n : ℕ) (xs : List (ℕ × ℕ)) (x : ℕ × ℕ) → In x (drop n xs) → In x xs
  In-drop zero xs x i = i
  In-drop (suc n) [] x i = i
  In-drop (suc n) (y ∷ xs) x i = inr (In-drop n xs x i)

  smoothed_values-IsPositive :
      (xs : List (ℕ × ℕ)) (s : Smoothed)
      → ((x : ℕ × ℕ) → In x xs → is_positive x ≡ true)
      → smoothed_values xs ≡ some s
      → IsPositive s.value
  unfolding smoothed_values
  smoothed_values-IsPositive [] s p h = ground arith
  smoothed_values-IsPositive ((ts, val) ∷ xs) s p h = ground (arith, p (ts, val) (inl refl))

  -- A metric has no smoothed value, or one that can be divided by.
  pub get_smoothed_non_zero_metadata-IsPositive :
      (metric_name : String) (time_start time_end : ℕ) (s : Smoothed)
      → get_smoothed_non_zero_metadata metric_name time_start time_end ≡ some s
      → IsPositive s.value
  unfolding get_smoothed_non_zero_metadata latest
  get_smoothed_non_zero_metadata-IsPositive metric_name time_start time_end s h =
      let values = get_metric_values metric_name time_start time_end in
      let positive = keep is_positive values in
      smoothed_values-IsPositive (latest smoothing positive) s
        (λ x i.
          (In-keep is_positive x values (In-drop (length positive - smoothing) positive x i)).1)
        h
