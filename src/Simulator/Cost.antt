-- ===== src/Simulator/Cost.antt =====
-- What an instance costs: `_compute_instance_cost` of clusterman/simulator/simulator.py.
pub mod Periods
use native.Mathlib.Nat.{div-mul-le_self, mul-le-mul_right, le_trans}
use clusterman.Base.{
  ℕ, ◌+◌, ◌*◌, ◌/◌, ◌-◌, ◌%◌, ◌≤◌, ◌==◌, ◌≡◌, refl, ◌∙◌, ◌⊎◌, inl, inr, Bool, true, false, ◌&&◌,
  not, List, [], ◌∷◌, ◌++◌, Option, none, some, Bool-cases, Option-cases, In, keep, In-keep,
  In-append, ℤ, pos, pos_part, neg_part, ◌+ℤ◌, ◌-ℤ◌, ◌≤ℤ◌, ◌<ℤ◌, neg_ℤ, ltb_ℤ, leb_ℤ, int_laws,
  ltb_ℤ→lt, leb_ℤ→le, arith, if◌then◌else◌,
}
use clusterman.Math.SortedDict.{SortedDict, Items, IsDocumented, IsAscending, find}
use clusterman.Math.Piecewise.{PiecewiseConstantFunction, call, add_delta}
use clusterman.Math.Piecewise.Delta.{call-add_delta, add_delta-IsAscending}
use clusterman.Simulator.Instances.{
  Instance, Simulator, Bill, prices_of, piecewise_breakpoint_generator, jumps, charge, note_price,
  bill_all, first_bill, is_charged_to_end, compute_instance_cost,
}

sub-le : (n : ℕ) → n - 1 ≤ n
sub-le n = omega arith

pub neg_part-sub : (a b : ℤ) → a ≤ℤ b → neg_part (b -ℤ a) ≡ 0
unfolding ◌-ℤ◌
neg_part-sub a b h = ground arith

jumps-le : (frequency width : ℕ) → jumps frequency width * frequency ≤ width
unfolding jumps
jumps-le frequency width =
    let a = div-mul-le_self width frequency in
    let below = le_trans (mul-le-mul_right frequency (sub-le (width / frequency))) a in
    elim (Bool-cases (width % frequency == 0)) [ inl e ↦ rw e (below) | inr e ↦ rw e a ]

-- Before `start` the cost is what it was, and from `stop` on it is higher by the price that is billed.
record IsBilled (o : SortedDict) (cost : PiecewiseConstantFunction) (start stop : ℤ) (b : Bill)
    : Type 0 where
  ordered : IsAscending b.cost.breakpoints
  started : start ≤ℤ b.curr_timestamp
  not_over : b.curr_timestamp ≤ℤ stop
  early : (z : ℤ) → z <ℤ start → call o b.cost z ≡ call o cost z
  late : (z : ℤ) → stop ≤ℤ z → call o b.cost z ≡ call o cost z +ℤ b.last_billed_price

module _ (o : SortedDict) (documented : IsDocumented o) where
  -- A shift at `x` is not seen before `x`, and is seen from `x` on.
  pub before_shift :
      (f : PiecewiseConstantFunction) (x delta z : ℤ)
      → IsAscending f.breakpoints
      → z <ℤ x
      → call o (add_delta o f x delta) z ≡ call o f z
  before_shift f x delta z a h = ground (arith, call-add_delta o documented f x delta z a)

  pub after_shift :
      (f : PiecewiseConstantFunction) (x delta z : ℤ)
      → IsAscending f.breakpoints
      → x ≤ℤ z
      → call o (add_delta o f x delta) z ≡ call o f z +ℤ delta
  after_shift f x delta z a h = ground (arith, call-add_delta o documented f x delta z a)

  first_bill-IsBilled :
      (s : Simulator) (i : Instance) (prices : PiecewiseConstantFunction) (stop : ℤ)
      → IsAscending s.cost_per_hour.breakpoints
      → i.start_time ≤ℤ stop
      → IsBilled o s.cost_per_hour i.start_time stop (first_bill o s i prices)
  unfolding first_bill
  first_bill-IsBilled s i prices stop a h =
      let price = call o prices i.start_time in
      record {
        ordered = add_delta-IsAscending o documented s.cost_per_hour i.start_time price a;
        started = omega arith;
        not_over = h;
        early = λ z k. before_shift s.cost_per_hour i.start_time price z a k;
        late = λ z k. after_shift s.cost_per_hour i.start_time price z a (omega arith);
      }

  charged :
      (cost : PiecewiseConstantFunction) (start stop : ℤ) (frequency n : ℕ) (x : ℤ) (b : Bill)
      → IsBilled o cost start stop b
      → b.curr_timestamp +ℤ pos frequency ≤ℤ x
      → x ≤ℤ stop
      → n ≤ pos_part (x -ℤ b.curr_timestamp)
      → IsBilled o cost start stop (record b {
        cost = add_delta o b.cost (b.curr_timestamp +ℤ pos frequency) b.delta;
        curr_timestamp = b.curr_timestamp +ℤ pos n;
        last_billed_price = b.last_billed_price +ℤ b.delta;
      })
  charged cost start stop frequency n x b r h k m =
      let place = b.curr_timestamp +ℤ pos frequency in
      record {
        ordered = add_delta-IsAscending o documented b.cost place b.delta r.ordered;
        started = omega (int_laws, r.started);
        not_over = omega (int_laws, neg_part-sub b.curr_timestamp x (omega int_laws));
        early = λ z l.
            before_shift b.cost place b.delta z r.ordered (omega (int_laws, r.started))
            ∙ r.early z l;
        late = λ z l.
            after_shift b.cost place b.delta z r.ordered (omega int_laws)
            ∙ rw (r.late z l) (omega int_laws);
      }

  charge-IsBilled :
      (cost : PiecewiseConstantFunction) (start stop : ℤ) (frequency : ℕ) (x : ℤ) (b : Bill)
      → IsBilled o cost start stop b
      → x ≤ℤ stop
      → IsBilled o cost start stop (charge o frequency x b)
  unfolding charge
  charge-IsBilled cost start stop frequency x b r k =
      elim (Bool-cases (leb_ℤ (b.curr_timestamp +ℤ pos frequency) x)) [
        | inl e ↦ rw e (
            charged cost start stop frequency
              (jumps frequency (pos_part (x -ℤ b.curr_timestamp)) * frequency) x b r
              (leb_ℤ→le (b.curr_timestamp +ℤ pos frequency) x e) k
              (jumps-le frequency (pos_part (x -ℤ b.curr_timestamp))))
        | inr e ↦ rw e r
      ]

  note_price-IsBilled :
      (cost : PiecewiseConstantFunction) (start stop : ℤ) (prices : Items) (x : ℤ) (b : Bill)
      → IsBilled o cost start stop b
      → IsBilled o cost start stop (note_price prices x b)
  unfolding note_price
  note_price-IsBilled cost start stop prices x b r = elim (Option-cases (find x prices)) [
    | inl e ↦ rw (e, note_price) r
    | inr (price, e) ↦
        rw (e, note_price)
          (record {
            ordered = r.ordered;
            started = r.started;
            not_over = r.not_over;
            early = r.early;
            late = r.late;
          })
  ]

  bill_all-IsBilled :
      (cost : PiecewiseConstantFunction) (start stop : ℤ) (frequency : ℕ) (prices : Items)
      (xs : List ℤ) (b : Bill)
      → ((x : ℤ) → In x xs → x ≤ℤ stop)
      → IsBilled o cost start stop b
      → IsBilled o cost start stop (bill_all o frequency prices xs b)
  unfolding bill_all
  bill_all-IsBilled cost start stop frequency prices [] b h r = r
  bill_all-IsBilled cost start stop frequency prices (x ∷ xs) b h r =
      bill_all-IsBilled cost start stop frequency prices xs
        (note_price prices x (charge o frequency x b)) (λ y m. h y (inr m))
        (note_price-IsBilled cost start stop prices x (charge o frequency x b)
          (charge-IsBilled cost start stop frequency x b r (h x (inl refl))))

  generated-le :
      (d : Items) (start stop x : ℤ)
      → In x (piecewise_breakpoint_generator o d start stop)
      → x ≤ℤ stop
  unfolding piecewise_breakpoint_generator
  generated-le d start stop x m =
      elim (In-append x (keep (λ y. leb_ℤ y stop) (o.irange start d)) (stop ∷ []) m) [
        | inl k ↦ leb_ℤ→le x stop (In-keep (λ y. leb_ℤ y stop) x (o.irange start d) k).1
        | inr (inl e) ↦ rw e (omega arith)
        | inr (inr k) ↦ absurd k
      ]

  -- What is billed is taken back at the end of the last period.
  settled :
      (cost : PiecewiseConstantFunction) (start stop last : ℤ) (b : Bill) (z : ℤ) (past : ℤ)
      → IsBilled o cost start stop b
      → start ≤ℤ last
      → last ≤ℤ past
      → stop ≤ℤ past
      → (z <ℤ start) ⊎ (past ≤ℤ z)
      → call o (add_delta o b.cost last (neg_ℤ b.last_billed_price)) z ≡ call o cost z
  settled cost start stop last b z past r l m n (inl h) =
      before_shift b.cost last (neg_ℤ b.last_billed_price) z r.ordered (omega arith) ∙ r.early z h
  settled cost start stop last b z past r l m n (inr h) =
      after_shift b.cost last (neg_ℤ b.last_billed_price) z r.ordered (omega arith)
      ∙ rw (r.late z (omega arith)) (omega int_laws)

  -- The place at which the price is taken back
  last_place :
      (start stop curr : ℤ) (frequency : ℕ) (is_full : Bool)
      → start ≤ℤ curr
      → curr ≤ℤ stop
      → (let last = if is_full then curr +ℤ pos frequency else curr in
          (start ≤ℤ last) × (last ≤ℤ stop +ℤ pos frequency))
  last_place start stop curr frequency true h k = (omega int_laws, omega int_laws)
  last_place start stop curr frequency false h k = (h, omega int_laws)

  -- An instance changes the cost per hour only from its start until one billing period after its end:
  -- whatever was charged on the way, for whatever prices, has been taken back by then.
  pub compute_instance_cost-settles :
      (s : Simulator) (i : Instance) (end_time z : ℤ)
      → IsAscending s.cost_per_hour.breakpoints
      → i.start_time ≤ℤ end_time
      → (z <ℤ i.start_time) ⊎ (end_time +ℤ pos s.billing_frequency ≤ℤ z)
      → call o (compute_instance_cost o s i end_time).cost_per_hour z ≡ call o s.cost_per_hour z
  unfolding compute_instance_cost
  compute_instance_cost-settles s i end_time z a h c =
      let prices = prices_of s i.market in
      let b =
        bill_all o s.billing_frequency prices.breakpoints
          (piecewise_breakpoint_generator o prices.breakpoints i.start_time end_time)
          (first_bill o s i prices) in
      let r =
        bill_all-IsBilled s.cost_per_hour i.start_time end_time s.billing_frequency
          prices.breakpoints
          (piecewise_breakpoint_generator o prices.breakpoints i.start_time end_time)
          (first_bill o s i prices) (generated-le prices.breakpoints i.start_time end_time)
          (first_bill-IsBilled s i prices end_time a h) in
      let full = is_charged_to_end o s i prices end_time in
      let (l, m) =
        last_place i.start_time end_time b.curr_timestamp s.billing_frequency full r.started
          r.not_over in
      settled s.cost_per_hour i.start_time end_time
        (if full then b.curr_timestamp +ℤ pos s.billing_frequency else b.curr_timestamp) b z
        (end_time +ℤ pos s.billing_frequency) r l m (omega int_laws) c
