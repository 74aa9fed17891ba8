-- ===== src/Migration/Settings.antt =====
-- clusterman/migration/settings.py: portions of a pool, and the setup of a migration worker. The reading of
-- time intervals by a package is an argument.
use clusterman.Base.{
  ℕ, ◌+◌, ◌*◌, ◌/◌, ◌%◌, ◌<◌, ◌==◌, ltb, String, str_eq, ◌≡◌, refl, subst, Bool, false, Option,
  none, some, ℤ, pos, pos_part, ltb_ℤ, or_else, arith, if◌then◌else◌,
}
use clusterman.Base.Fraction.{Fraction}
use clusterman.Migration.Worker.{Precedence, highest_uptime, lowest_task_count}

-- `round` of a float that is not negative: to the nearest, and to the even one of two
unfoldable pub round_f : Fraction → ℕ
round_f f =
    let q = f.num / f.den in
    let r = f.num % f.den in
    if ltb (2 * r) f.den
    then q
    else if ltb f.den (2 * r)
    then q + 1
    else if q % 2 == 0
    then q
    else q + 1

-- What a portion is given by: a number, or a percentage in thousandths
pub data PortionValue : Type 0 where
  number : ℤ → PortionValue
  percentage : ℤ → PortionValue

-- `PoolPortion`, whose value is not negative
pub data PoolPortion : Type 0 where
  absolute : ℕ → PoolPortion
  percent : (thousandths : ℕ) → PoolPortion

-- `PoolPortion.__init__`, with `none` for the `ValueError`
unfoldable pub pool_portion : PortionValue → Option PoolPortion
pool_portion (number n) = if ltb_ℤ n (pos 0) then none else some (absolute (pos_part n))
pool_portion (percentage p) = if ltb_ℤ p (pos 0) then none else some (percent (pos_part p))

-- `min_portion`
abbrev pub min_portion : (thousandths : ℕ) → ℕ
min_portion p = if p == 0 then 0 else 1

abbrev pub max_ℕ : ℕ → ℕ → ℕ
max_ℕ a b = if ltb a b then b else a

-- `of`
unfoldable pub portion_of : PoolPortion → (pool_size : ℕ) → ℕ
unfolding round_f
portion_of (absolute n) pool_size = n
portion_of (percent p) pool_size =
    max_ℕ (min_portion p) (round_f (record { num = p * pool_size; den = 100000 }))

-- `__bool__`
unfoldable pub is_some_portion : PoolPortion → Bool
is_some_portion (absolute n) = ltb 0 n
is_some_portion (percent p) = ltb 0 p

-- The configuration, where a key may be missing
pub record Strategy : Type 0 where
  pub rate : PortionValue
  pub prescaling : Option PortionValue
  pub precedence : Option String
  pub bootstrap_wait : Option String
  pub bootstrap_timeout : Option String

pub record WorkerConfig : Type 0 where
  pub strategy : Strategy
  pub disable_autoscaling : Option Bool
  pub expected_duration : Option String
  pub health_check_interval : Option String
  pub ignore_pod_health : Option Bool

pub record WorkerSetup : Type 0 where
  pub rate : PoolPortion
  pub prescaling : PoolPortion
  pub precedence : Precedence
  pub bootstrap_wait : ℕ
  pub bootstrap_timeout : ℕ
  pub disable_autoscaling : Bool
  pub expected_duration : ℕ
  pub health_check_interval : ℕ
  pub ignore_pod_health : Bool

-- `MigrationPrecendence(...)`
unfoldable pub precedence_of : String → Option Precedence
precedence_of value =
    if str_eq value "highest_uptime"
    then some highest_uptime
    else if str_eq value "lowest_task_count"
    then some lowest_task_count
    else none

infixl 5 ◌>>=◌
abbrev pub ◌>>=◌ : {A B : Type 0} → Option A → (A → Option B) → Option B
none >>= f = none
some a >>= f = f a

abbrev pub usable : PoolPortion → Option PoolPortion
usable p = if is_some_portion p then some p else none

module _ (parse_time_interval_seconds : String → Option ℕ) where
  -- The setup for a rate; the default of `bootstrap_timeout` is that of `bootstrap_wait`.
  unfoldable pub setup_with : WorkerConfig → PoolPortion → Option WorkerSetup
  unfolding pool_portion precedence_of
  setup_with c rate = do
    prescaling ← pool_portion (or_else c.strategy.prescaling (number (pos 0)))
    precedence ← precedence_of (or_else c.strategy.precedence "highest_uptime")
    wait ← parse_time_interval_seconds (or_else c.strategy.bootstrap_wait "3m")
    timeout ← parse_time_interval_seconds (or_else c.strategy.bootstrap_timeout "3m")
    duration ← parse_time_interval_seconds (or_else c.expected_duration "2h")
    interval ← parse_time_interval_seconds (or_else c.health_check_interval "2m")
    some (record {
      rate = rate;
      prescaling = prescaling;
      precedence = precedence;
      bootstrap_wait = wait;
      bootstrap_timeout = timeout;
      disable_autoscaling = or_else c.disable_autoscaling false;
      expected_duration = duration;
      health_check_interval = interval;
      ignore_pod_health = or_else c.ignore_pod_health false;
    })

  -- `WorkerSetup.from_config`
  unfoldable pub from_config : WorkerConfig → Option WorkerSetup
  unfolding pool_portion is_some_portion setup_with
  from_config c = do given ← pool_portion c.strategy.rate; rate ← usable given; setup_with c rate

bind-some :
    {A B : Type 0} (o : Option A) (f : A → Option B) (b : B)
    → (o >>= f) ≡ some b
    → (a : A) × (o ≡ some a) × (f a ≡ some b)
bind-some none f b h = ground arith
bind-some (some a) f b h = (a, refl, h)

usable-pos : (p q : PoolPortion) (n : ℕ) → usable p ≡ some q → 0 < portion_of q n
unfolding portion_of is_some_portion
usable-pos (absolute k) (absolute m) n h = ground arith
usable-pos (absolute k) (percent m) n h = ground arith
usable-pos (percent k) (absolute m) n h = ground arith
usable-pos (percent k) (percent m) n h = ground arith

module _ (parse : String → Option ℕ) where
  setup_with-rate :
      (c : WorkerConfig) (rate : PoolPortion) (s : WorkerSetup)
      → setup_with parse c rate ≡ some s
      → rate ≡ s.rate
  unfolding setup_with
  setup_with-rate c rate s h =
      let (prescaling, e1, h1) =
        bind-some (pool_portion (or_else c.strategy.prescaling (number (pos 0)))) _ s h in
      let (precedence, e2, h2) =
        bind-some (precedence_of (or_else c.strategy.precedence "highest_uptime")) _ s h1 in
      let (w, e3, h3) = bind-some (parse (or_else c.strategy.bootstrap_wait "3m")) _ s h2 in
      let (t, e4, h4) = bind-some (parse (or_else c.strategy.bootstrap_timeout "3m")) _ s h3 in
      let (d, e5, h5) = bind-some (parse (or_else c.expected_duration "2h")) _ s h4 in
      let (i, e6, h6) = bind-some (parse (or_else c.health_check_interval "2m")) _ s h5 in
      ground arith

  -- A setup that can be loaded recycles at least one node at a time, whatever the size of the pool.
  pub from_config-rate :
      (c : WorkerConfig) (s : WorkerSetup) (pool_size : ℕ)
      → from_config parse c ≡ some s
      → 0 < portion_of s.rate pool_size
  unfolding from_config
  from_config-rate c s pool_size h =
      let (given, e1, h1) = bind-some (pool_portion c.strategy.rate) _ s h in
      let (rate, e2, h2) = bind-some (usable given) _ s h1 in
      subst (λ r. 0 < portion_of r pool_size) (setup_with-rate c rate s h2)
        (usable-pos given rate pool_size e2)
