-- ===== src/Simulator/Instances.antt =====
-- The instances of a simulation and what they cost: `Instance` of clusterman/simulator/simulated_aws_cluster.py
-- and `Simulator` of clusterman/simulator/simulator.py.
use clusterman.Base.{
  ℕ, ◌*◌, ◌/◌, ◌-◌, ◌%◌, ◌==◌, Bool, not, ◌||◌, List, [], ◌∷◌, ◌++◌, Option, none, some, ℤ, pos,
  pos_part, ◌+ℤ◌, ◌-ℤ◌, neg_ℤ, ltb_ℤ, leb_ℤ, max_ℤ, keep, or_else, if◌then◌else◌,
}
use clusterman.Interfaces.{InstanceMarket}
use clusterman.Resources.{ClustermanResources}
use clusterman.Math.SortedDict.{SortedDict, Items, find}
use clusterman.Math.Piecewise.{PiecewiseConstantFunction, call, add_delta, is_some}
use clusterman.Simulator.Markets.{MarketDict, get_market}

pub record Instance : Type 0 where
  pub id : ℕ
  pub ip_address : ℕ
  pub market : InstanceMarket
  pub start_time : ℤ
  pub join_time : Option ℤ
  pub end_time : Option ℤ
  pub resources : ClustermanResources
  pub bid_price : Option ℤ

unfoldable pub spot : Instance → Bool
spot i = is_some i.bid_price

-- What the events read and change of a `Simulator`, except its clusters and its queue
pub record Simulator : Type 0 where
  pub start_time : ℤ
  pub end_time : ℤ
  pub current_time : ℤ
  pub instance_prices : MarketDict PiecewiseConstantFunction
  pub cost_per_hour : PiecewiseConstantFunction
  pub aws_cpus : PiecewiseConstantFunction
  pub mesos_cpus : PiecewiseConstantFunction
  pub mesos_cpus_allocated : PiecewiseConstantFunction
  pub billing_frequency : ℕ
  pub refund_outbid : Bool

-- `PiecewiseConstantFunction()`
abbrev pub no_function : PiecewiseConstantFunction
no_function = record { initial_value = pos 0; breakpoints = [] }

-- `self.instance_prices[market]` of a defaultdict
unfoldable pub prices_of : Simulator → InstanceMarket → PiecewiseConstantFunction
prices_of s market = or_else (get_market market s.instance_prices) no_function

-- The variables of the loop of `_compute_instance_cost`
pub record Bill : Type 0 where
  pub cost : PiecewiseConstantFunction
  pub curr_timestamp : ℤ
  pub delta : ℤ
  pub last_billed_price : ℤ

-- `jumps` of `divmod(bp_timestamp - curr_timestamp, self.billing_frequency)`, less 1 with no remainder
unfoldable pub jumps : (frequency width : ℕ) → ℕ
jumps frequency width = if width % frequency == 0 then width / frequency - 1 else width / frequency

-- `if bp_timestamp in prices.breakpoints`
unfoldable pub note_price : Items → (bp_timestamp : ℤ) → Bill → Bill
note_price prices bp_timestamp b = elim (find bp_timestamp prices) [
  | none ↦ b
  | some price ↦ record b { delta = price -ℤ b.last_billed_price }
]

module _ (o : SortedDict) where
  -- `piecewise_breakpoint_generator`
  unfoldable pub piecewise_breakpoint_generator : Items → (start_time end_time : ℤ) → List ℤ
  piecewise_breakpoint_generator d start_time end_time =
      keep (λ x. leb_ℤ x end_time) (o.irange start_time d) ++ end_time ∷ []

  unfoldable pub charge : (frequency : ℕ) → (bp_timestamp : ℤ) → Bill → Bill
  unfolding jumps
  charge frequency bp_timestamp b =
      if leb_ℤ (b.curr_timestamp +ℤ pos frequency) bp_timestamp
      then record b {
        cost = add_delta o b.cost (b.curr_timestamp +ℤ pos frequency) b.delta;
        curr_timestamp =
            b.curr_timestamp
            +ℤ pos (jumps frequency (pos_part (bp_timestamp -ℤ b.curr_timestamp)) * frequency);
        last_billed_price = b.last_billed_price +ℤ b.delta;
      }
      else b

  unfoldable pub bill_all : (frequency : ℕ) → Items → List ℤ → Bill → Bill
  unfolding charge note_price
  bill_all frequency prices [] b = b
  bill_all frequency prices (x ∷ xs) b =
      bill_all frequency prices xs (note_price prices x (charge frequency x b))

  -- `instance.bid_price > prices.call(instance.end_time)`, for an instance with a bid
  unfoldable pub is_charged_to_end :
      Simulator → Instance → PiecewiseConstantFunction → (end_time : ℤ) → Bool
  unfolding spot
  is_charged_to_end s i prices end_time =
      not (spot i)
      || not s.refund_outbid
      || ltb_ℤ (call o prices end_time) (or_else i.bid_price (pos 0))

  unfoldable pub first_bill : Simulator → Instance → PiecewiseConstantFunction → Bill
  first_bill s i prices =
      let price = call o prices i.start_time in
      record {
        cost = add_delta o s.cost_per_hour i.start_time price;
        curr_timestamp = i.start_time;
        delta = pos 0;
        last_billed_price = price;
      }

  -- `_compute_instance_cost`, for an instance that ends at `end_time`
  unfoldable pub compute_instance_cost : Simulator → Instance → (end_time : ℤ) → Simulator
  unfolding prices_of first_bill bill_all piecewise_breakpoint_generator is_charged_to_end
  compute_instance_cost s i end_time =
      let prices = prices_of s i.market in
      let b =
        bill_all s.billing_frequency prices.breakpoints
          (piecewise_breakpoint_generator prices.breakpoints i.start_time end_time)
          (first_bill s i prices) in
      let last =
        if is_charged_to_end s i prices end_time
        then b.curr_timestamp +ℤ pos s.billing_frequency
        else b.curr_timestamp in
      record s { cost_per_hour = add_delta o b.cost last (neg_ℤ b.last_billed_price) }

  -- `delay` is what `random.gauss` answers.
  unfoldable pub add_instance : Simulator → Instance → (delay : ℤ) → Simulator × Instance
  add_instance s i delay =
      let join_time = i.start_time +ℤ delay in
      (
        record s {
          aws_cpus = add_delta o s.aws_cpus s.current_time i.resources.cpus;
          mesos_cpus = add_delta o s.mesos_cpus join_time i.resources.cpus;
        },
        record i { join_time = some join_time },
      )

  -- The functions of cpus after `remove_instance`
  unfoldable pub without_cpus : Simulator → Instance → (join_time : ℤ) → Simulator
  without_cpus s i join_time = record s {
    aws_cpus = add_delta o s.aws_cpus s.current_time (neg_ℤ i.resources.cpus);
    mesos_cpus = add_delta o s.mesos_cpus (max_ℤ join_time s.current_time) (neg_ℤ i.resources.cpus);
  }

  unfoldable pub remove_joined : Simulator → Instance → (join_time : ℤ) → Simulator × Instance
  unfolding without_cpus compute_instance_cost
  remove_joined s i join_time =
      let ended = record i {
        join_time = if ltb_ℤ s.current_time join_time then none else some join_time;
        end_time = some s.current_time;
      } in
      (compute_instance_cost (without_cpus s i join_time) ended s.current_time, ended)

  -- An instance that has no time of joining cannot be compared with one: `none`.
  unfoldable pub remove_instance : Simulator → Instance → Option (Simulator × Instance)
  unfolding remove_joined
  remove_instance s i = elim i.join_time [
    | none ↦ none
    | some join_time ↦ some (remove_joined s i join_time)
  ]
