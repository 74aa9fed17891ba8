-- ===== src/Autoscaler.antt =====
-- clusterman/autoscaler/autoscaler.py: the target capacity that a resource request asks for, and a run.
-- Resources and capacities are counted in thousandths and are not negative; what is computed of them
-- are exact fractions.
pub mod History
pub mod Run
pub mod Target
mod Examples
use clusterman.Base.{
  ℕ, ◌*◌, String, Bool, true, false, ◌&&◌, List, [], ◌∷◌, Option, none, some, any, ltb, ◌==◌,
  str_eq, or_else, if◌then◌else◌,
}
use clusterman.Base.Fraction.{Fraction, frac, lt_f, le_f, mul_f, div_f, distance_f}

pub record AutoscalingConfig : Type 0 where
  pub excluded_resources : List String
  pub setpoint : Fraction
  pub target_capacity_margin : Fraction
  pub prevent_scale_down_after_capacity_loss : Bool
  pub instance_loss_threshold : ℕ
  pub recycle_orphan_instances : Bool
  pub orphan_instance_uptime_threshold_seconds : ℕ

-- What is raised
pub data Failure : Type 0 where
  resource_request_error value_error zero_division_error unbound_local_error pool_manager_error
        signal_error :
      Failure

pub data Result (A : Type 0) : Type 0 where
  ok : A → Result A
  err : Failure → Result A

abbrev pub and_then : {A B : Type 0} → Result A → (A → Result B) → Result B
and_then (ok a) f = f a
and_then (err e) f = err e

-- A resource: its name, what the request has for it, and what the cluster has of it
pub record Row : Type 0 where
  pub resource : String
  pub requested : Option ℕ
  pub total : ℕ

abbrev pub is_missing : Option ℕ → Bool
is_missing none = true
is_missing (some n) = false

-- `requested_quantity in {0, None}`
abbrev pub is_nothing : Option ℕ → Bool
is_nothing none = true
is_nothing (some n) = n == 0

abbrev pub all_rows : (Option ℕ → Bool) → List Row → Bool
all_rows p [] = true
all_rows p (row ∷ rows) = p row.requested && all_rows p rows

-- `max(items, key=lambda x: x[1])`: the first of the greatest
unfoldable pub max_pct : String × Fraction → List (String × Fraction) → String × Fraction
max_pct best [] = best
max_pct best (x ∷ xs) = max_pct (if lt_f best.1 x.1 then x else best) xs

abbrev pub max_of : List (String × Fraction) → Result (String × Fraction)
max_of [] = err value_error
max_of (x ∷ xs) = ok (max_pct x xs)

module _ (c : AutoscalingConfig) where
  abbrev pub is_excluded_resource : String → Bool
  is_excluded_resource resource = any (λ r. str_eq r resource) c.excluded_resources

  abbrev pub add_percent :
      Row → Fraction → Result (List (String × Fraction)) → Result (List (String × Fraction))
  add_percent row percent rest = and_then rest (λ percents. ok ((row.resource, percent) ∷ percents))

  -- What a row that is requested and not excluded adds to `requested_resource_usage_pcts`
  unfoldable pub usage_pct :
      Row → ℕ → Result (List (String × Fraction)) → Result (List (String × Fraction))
  usage_pct row value rest =
      if row.total == 0
      then (if ltb 0 value then err resource_request_error else add_percent row (frac 0) rest)
      else add_percent row (record { num = value; den = row.total }) rest

  unfoldable pub add_usage :
      Row → Option ℕ → Result (List (String × Fraction)) → Result (List (String × Fraction))
  unfolding usage_pct
  add_usage row none rest = rest
  add_usage row (some value) rest =
      if is_excluded_resource row.resource then rest else usage_pct row value rest

  unfoldable pub usage_pcts : List Row → Result (List (String × Fraction))
  unfolding add_usage
  usage_pcts [] = ok []
  usage_pcts (row ∷ rows) = add_usage row row.requested (usage_pcts rows)

  unfoldable pub get_most_constrained_resource_for_request : List Row → Result (String × Fraction)
  unfolding usage_pcts max_pct
  get_most_constrained_resource_for_request rows = and_then (usage_pcts rows) max_of

  -- A quotient by the setpoint
  unfoldable pub over_setpoint : Fraction → Result Fraction
  over_setpoint x = if c.setpoint.num == 0 then err zero_division_error else ok (div_f x c.setpoint)

  unfoldable pub within_margin : (current : ℕ) (new : Fraction) → Fraction
  unfolding distance_f
  within_margin current new =
      if le_f c.target_capacity_margin (div_f (distance_f new (frac current)) (frac current))
      then new
      else frac current

  -- "If we get here, everything is non-zero"
  unfoldable pub scaled_capacity : (current fulfilled : ℕ) → List Row → Result Fraction
  unfolding get_most_constrained_resource_for_request over_setpoint within_margin
  scaled_capacity current fulfilled rows =
      and_then (get_most_constrained_resource_for_request rows) (λ most.
        and_then (over_setpoint most.1)
          (λ scale_factor. ok (within_margin current (mul_f (frac fulfilled) scale_factor))))

  -- `(request or 0) / history`, where the history is not 0
  unfoldable pub weighted_requests : List Row → List Fraction → List Fraction
  weighted_requests [] history = []
  weighted_requests (row ∷ rows) [] = []
  weighted_requests (row ∷ rows) (h ∷ history) =
      let rest = weighted_requests rows history in
      if h.num == 0 then rest else div_f (frac (or_else row.requested 0)) h ∷ rest

  unfoldable pub max_fraction : Fraction → List Fraction → Fraction
  max_fraction best [] = best
  max_fraction best (x ∷ xs) = max_fraction (if lt_f best x then x else best) xs

  -- From no capacity at all; one unit is a thousand thousandths.
  unfoldable pub capacity_from_history : List Fraction → Result Fraction
  unfolding max_fraction over_setpoint
  capacity_from_history [] = ok (frac 1000)
  capacity_from_history (x ∷ xs) = over_setpoint (max_fraction x xs)

  -- `_compute_target_capacity`
  unfoldable pub compute_target_capacity :
      (current fulfilled : ℕ) → (history : List Fraction) → List Row → Result Fraction
  unfolding scaled_capacity weighted_requests capacity_from_history
  compute_target_capacity current fulfilled history rows =
      if all_rows is_missing rows
      then ok (frac current)
      else if all_rows is_nothing rows
      then ok (frac 0)
      else if current == 0
      then capacity_from_history (weighted_requests rows history)
      else if fulfilled == 0
      then ok (frac current)
      else scaled_capacity current fulfilled rows
