-- ===== src/Simulator/Cost/Periods.antt =====
-- Billing periods: `_compute_instance_cost` of clusterman/simulator/simulator.py, for a market of which the
-- price does not change.
use native.Mathlib.Nat.{div-eq_of_lt, div-eq_of_lt-le, div-add-mod, mod-lt, mul_comm, zero-mul}
use clusterman.Base.{
  ℕ, zero, suc, ◌+◌, ◌*◌, ◌/◌, ◌-◌, ◌%◌, ◌≤◌, ◌<◌, ◌==◌, ◌≡◌, refl, sym, ap, ◌∙◌, inl, inr, Bool,
  true, false, not, ◌||◌, [], ◌∷◌, none, or_else, eq_ℤ, ◌<ℤ◌, Bool-cases, ℤ, pos, pos_part, ◌+ℤ◌,
  ◌-ℤ◌, ◌≤ℤ◌, neg_ℤ, ltb_ℤ, leb_ℤ, int_laws, +ℤ_parts, +ℤ-zero, leb_ℤ→le, arith, if◌then◌else◌,
}
use clusterman.Math.SortedDict.{SortedDict, Items, IsDocumented, IsAscending, find, keys_from}
use clusterman.Math.Piecewise.{PiecewiseConstantFunction, call, add_delta, is_some}
use clusterman.Math.Piecewise.Delta.{call-add_delta, add_delta-IsAscending}
use clusterman.Simulator.Cpus.{window, raised_and_lowered}
use clusterman.Simulator.Instances.{
  Instance, spot, Simulator, Bill, prices_of, piecewise_breakpoint_generator, jumps, charge,
  note_price, bill_all, first_bill, is_charged_to_end, compute_instance_cost,
}

-- The start of the last billing period, counted from the start of the instance: the last multiple of the
-- frequency before the end
unfoldable pub whole_periods : (frequency width : ℕ) → ℕ
whole_periods frequency width = (width - 1) / frequency * frequency

quotient_below : (q r n : ℕ) → 0 < r → r < n → (q * n + r - 1) / n ≡ q
quotient_below q r n h k = div-eq_of_lt-le {k = q} n (omega arith) (grind arith)

quotient_multiple : (q n : ℕ) → 0 < q → 0 < n → (q * n - 1) / n ≡ q - 1
quotient_multiple zero n h k = absurd (omega arith)
quotient_multiple (suc q) n h k =
    div-eq_of_lt-le {k = q} n (grind arith) (grind arith) ∙ omega arith

split_width : (n w : ℕ) → w ≡ w / n * n + w % n
split_width n w = sym (div-add-mod w n) ∙ ap (λ (k : ℕ). k + w % n) (mul_comm n (w / n))

quotient_pos : (q r n w : ℕ) → w ≡ q * n + r → r < n → n ≤ w → 0 < q
quotient_pos zero r n w e h k = absurd (omega arith)
quotient_pos (suc q) r n w e h k = omega arith

jumps-whole : (n w : ℕ) → 0 < n → n ≤ w → jumps n w ≡ (w - 1) / n
unfolding jumps
jumps-whole n w h k =
    let e = split_width n w in
    let p = quotient_pos (w / n) (w % n) n w e (mod-lt w h) k in
    elim (Bool-cases (w % n == 0)) [
      | inl m ↦
          let f : w ≡ w / n * n = ground arith in
          rw m (sym (ap (λ (v : ℕ). (v - 1) / n) f ∙ quotient_multiple (w / n) n p h))
      | inr m ↦ rw m (
          sym (
            ap (λ (v : ℕ). (v - 1) / n) e
            ∙ quotient_below (w / n) (w % n) n (ground arith) (mod-lt w h)))
    ]

whole_periods-short : (n w : ℕ) → w < n → whole_periods n w ≡ 0
unfolding whole_periods
whole_periods-short n w h = rw (div-eq_of_lt {n = w - 1} {m = n} (omega arith)) (zero-mul n)

short : (n : ℕ) (x c : ℤ) → c ≤ℤ x → leb_ℤ (c +ℤ pos n) x ≡ false → pos_part (x -ℤ c) < n
unfolding ◌-ℤ◌
short n x c h e = ground (arith, +ℤ_parts c (pos n))

zero_shift : (b : Bool) (v d : ℤ) → d ≡ pos 0 → (if b then v else v +ℤ d) ≡ v +ℤ pos 0
zero_shift true v d e = omega int_laws
zero_shift false v d e = rw e refl

plus_zero : (v d : ℤ) → d ≡ pos 0 → v +ℤ d ≡ v
plus_zero v d e = rw e (omega int_laws)

-- Each change of the price is before `x`.
abbrev pub AllBefore : ℤ → Items → Type 0
AllBefore x [] = Unit
AllBefore x ((j, w) ∷ d) = (j <ℤ x) × AllBefore x d

none_from : (x : ℤ) (d : Items) → AllBefore x d → keys_from x d ≡ []
unfolding keys_from
none_from x [] h = refl
none_from x ((j, w) ∷ d) h =
    let below : ltb_ℤ j x ≡ true = ground (arith, h.0) in rw below (none_from x d h.1)

none_at : (x y : ℤ) (d : Items) → AllBefore x d → x ≤ℤ y → find y d ≡ none
unfolding find eq_ℤ
none_at x y [] h l = refl
none_at x y ((j, w) ∷ d) h l =
    let other : eq_ℤ j y ≡ false = ground (arith, h.0) in rw (other, find) (none_at x y d h.1 l)

place :
    (n k : ℕ) (start curr : ℤ) (full : Bool)
    → curr ≡ start +ℤ pos k
    → (if full then curr +ℤ pos n else curr) ≡ start +ℤ pos (if full then k + n else k)
place n k start curr true e = rw e (omega int_laws)
place n k start curr false e = e

module _ (o : SortedDict) (documented : IsDocumented o) where
  -- One bill up to `x`, when no change of the price is pending
  charge_once :
      (n : ℕ) (x z : ℤ) (b : Bill)
      → 0 < n
      → b.curr_timestamp ≤ℤ x
      → b.delta ≡ pos 0
      → IsAscending b.cost.breakpoints
      → IsAscending (charge o n x b).cost.breakpoints
        × (call o (charge o n x b).cost z ≡ call o b.cost z +ℤ pos 0)
        × ((charge o n x b).curr_timestamp
            ≡ b.curr_timestamp +ℤ pos (whole_periods n (pos_part (x -ℤ b.curr_timestamp))))
        × ((charge o n x b).last_billed_price ≡ b.last_billed_price)
  unfolding charge whole_periods
  charge_once n x z b h k d a = elim (Bool-cases (leb_ℤ (b.curr_timestamp +ℤ pos n) x)) [
    | inl e ↦
        let place = b.curr_timestamp +ℤ pos n in
        let l : place ≤ℤ x = leb_ℤ→le place x e in
        let w = pos_part (x -ℤ b.curr_timestamp) in
        rw (e, charge)
          (
            add_delta-IsAscending o documented b.cost place b.delta a,
            call-add_delta o documented b.cost place b.delta z a
                ∙ zero_shift (ltb_ℤ z place) (call o b.cost z) b.delta d,
            ap (λ (k : ℕ). b.curr_timestamp +ℤ pos (k * n)) (jumps-whole n w h (omega int_laws)),
            plus_zero b.last_billed_price b.delta d,
          )
    | inr e ↦
        rw (e, charge)
          (
            a,
            omega int_laws,
            rw
                (whole_periods-short n (pos_part (x -ℤ b.curr_timestamp))
                  (short n x b.curr_timestamp k e))
                (omega int_laws),
            refl,
          )
  ]

  single_bill :
      (n : ℕ) (d : Items) (start stop : ℤ) (b : Bill)
      → AllBefore start d
      → start ≤ℤ stop
      → bill_all o n d (piecewise_breakpoint_generator o d start stop) b ≡ charge o n stop b
  unfolding bill_all note_price piecewise_breakpoint_generator
  single_bill n d start stop b h l =
      rw
        (
          documented.irange_is start d,
          none_from start d h,
          bill_all,
          note_price,
          none_at start stop d h l,
        )
        refl

  -- The costs after the last charge, at its place
  repaid :
      (cost : PiecewiseConstantFunction) (n : ℕ) (start z price : ℤ) (k : ℕ) (full : Bool)
      (b : Bill)
      → IsAscending cost.breakpoints
      → IsAscending b.cost.breakpoints
      → call o b.cost z ≡ call o (add_delta o cost start price) z +ℤ pos 0
      → b.curr_timestamp ≡ start +ℤ pos k
      → b.last_billed_price ≡ price
      → call o
          (add_delta o b.cost
            (if full then b.curr_timestamp +ℤ pos n else b.curr_timestamp)
            (neg_ℤ b.last_billed_price))
          z
        ≡ call o cost z +ℤ window price start (start +ℤ pos (if full then k + n else k)) z
  repaid cost n start z price k full b a a' c t l =
      let last = start +ℤ pos (if full then k + n else k) in
      let e : (if full then b.curr_timestamp +ℤ pos n else b.curr_timestamp) ≡ last =
        place n k start b.curr_timestamp full t in
      rw (e, l)
        (raised_and_lowered o documented cost b.cost (λ v. pos 0) price start last z a a' c
            (omega int_laws)
          ∙ ap (λ v. v +ℤ window price start last z) (+ℤ-zero (call o cost z)))

  -- When the price of its market was last changed before its start, an instance costs that price from its start on, in
  -- whole billing periods: up to the last multiple of the period before its end, and one period more if it has no
  -- bid, if nothing is refunded, or if its bid is above the price. At other times it costs nothing.
  pub compute_instance_cost-constant :
      (s : Simulator) (i : Instance) (end_time z : ℤ)
      → IsAscending s.cost_per_hour.breakpoints
      → i.start_time ≤ℤ end_time
      → 0 < s.billing_frequency
      → AllBefore i.start_time (prices_of s i.market).breakpoints
      → (let prices = prices_of s i.market in
          let n = s.billing_frequency in
          let k = whole_periods n (pos_part (end_time -ℤ i.start_time)) in
          call o (compute_instance_cost o s i end_time).cost_per_hour z
          ≡ call o s.cost_per_hour z
            +ℤ window
                (call o prices i.start_time)
                i.start_time
                (i.start_time
                  +ℤ pos (
                      if not (is_some i.bid_price)
                        || not s.refund_outbid
                        || ltb_ℤ (call o prices end_time) (or_else i.bid_price (pos 0))
                      then k + n
                      else k))
                z)
  unfolding compute_instance_cost first_bill is_charged_to_end spot
  compute_instance_cost-constant s i end_time z a h p e =
      let prices = prices_of s i.market in
      let n = s.billing_frequency in
      let full = is_charged_to_end o s i prices end_time in
      let b = first_bill o s i prices in
      let a' =
        add_delta-IsAscending o documented s.cost_per_hour i.start_time (call o prices i.start_time)
          a in
      let (r, c, t, l) = charge_once n end_time z b p h refl a' in
      ap
        (λ (v : Bill).
          call o
            (add_delta o v.cost (if full then v.curr_timestamp +ℤ pos n else v.curr_timestamp)
              (neg_ℤ v.last_billed_price))
            z)
        (single_bill n prices.breakpoints i.start_time end_time b e h)
      ∙ repaid s.cost_per_hour n i.start_time z (call o prices i.start_time)
          (whole_periods n (pos_part (end_time -ℤ i.start_time))) full (charge o n end_time b) a r c
          t l
