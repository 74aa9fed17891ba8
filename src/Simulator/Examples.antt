-- ===== src/Simulator/Examples.antt =====
-- A small simulation, on which the theorems are applied.
use mathlib.Core.List.{Perm, Mem, mem-cons, not-mem-nil}
use mathlib.Core.List.Perm
use mathlib.Core.Logic.Or
use mathlib.Core.Bool.{Bool-set}
use clusterman.Base.{
  ◌≤◌, ℕ, ◌≡◌, refl, sym, subst, inl, inr, true, false, List, [], ◌∷◌, Option, none, some,
  Option-cases, Bool-cases, In, pos, ◌+ℤ◌, ◌-ℤ◌, ◌*ℤ◌, max_ℤ, +ℤ-zero, or_else, arith,
  if◌then◌else◌,
}
use clusterman.Simulator.Events.{
  Event, nothing, modify_cluster_size, instance_price_change, event_lt, Heap, Made, made_empty,
  made_push, IsDocumented, World, Environment, finish, run,
}
use clusterman.Interfaces.{InstanceMarket}
use clusterman.Resources.{ClustermanResources}
use clusterman.Math.SortedDict.{sorted_dict, sorted_dict-IsDocumented, value_at, count_up_to}
use clusterman.Math.Piecewise.{call}
use clusterman.Math.Piecewise.Sequence.Values.{sampled}
use clusterman.Simulator.Instances.{
  Instance, Simulator, no_function, prices_of, add_instance, remove_joined, compute_instance_cost,
}
use clusterman.Simulator.Markets.{market_eq, market_eq→eq, get_market}
use clusterman.Math.Piecewise.Delta.{add_delta-IsAscending}
use clusterman.Simulator.Cpus.{IsOrdered, remove_instance-add_instance}
use clusterman.Simulator.Cost.Periods.{whole_periods, compute_instance_cost-constant}
use clusterman.Simulator.Cost.{compute_instance_cost-settles}
use clusterman.Simulator.Cluster.{
  Cluster, Change, market_size, ids_of, get_instance, is_given, emptied, modify_size,
}
use clusterman.Simulator.Cluster.Sizes.{Nodup, IsConsistent}
use clusterman.Simulator.Cluster.Resize.{modify_size-sizes}
use clusterman.Simulator.Data.{get_data, get_data-oversubscribed}
use clusterman.Simulator.Events.Order.{handle_all, run-IsOrdered, IsOrdered as IsOrderedEvents}

-- A heap that looks for the least event
select : List Event → Option (Event × List Event)
select [] = none
select (x ∷ q) = elim (select q) [
  | none ↦ some (x, [])
  | some (e, q') ↦ some (if event_lt e x then (e, x ∷ q') else (x, e ∷ q'))
]

event_lt_trans :
    (a b c : Event) → event_lt a b ≡ false → event_lt b c ≡ false → event_lt a c ≡ false
unfolding event_lt
event_lt_trans a b c h k = ground arith

event_lt_asym : (a b : Event) → event_lt a b ≡ true → event_lt b a ≡ false
unfolding event_lt
event_lt_asym a b h = ground arith

event_lt_self : (a : Event) → event_lt a a ≡ false
unfolding event_lt
event_lt_self a = ground arith

not_none : (p : Event × List Event) → some p ≡ none → ⊥
not_none p h = cc

select_empty : (q : List Event) → select q ≡ none → q ≡ []
unfolding select
select_empty [] h = refl
select_empty (x ∷ q) h = elim (Option-cases (select q)) [
  | inl e ↦ absurd (not_none (x, []) (rw (select, e) at h))
  | inr ((y, q'), e) ↦
      absurd (not_none (if event_lt y x then (y, x ∷ q') else (x, y ∷ q')) (rw (select, e) at h))
]

same_event : (f x e : Event) → f ≡ x → event_lt x e ≡ false → event_lt f e ≡ false
same_event f x e k h = subst (λ v. event_lt v e ≡ false) (sym k) h

-- What is selected, and its place
abbrev IsSelected : Event → List Event → List Event → Type 0
IsSelected e q q' = Perm q (e ∷ q') × ((f : Event) → Mem f q → event_lt f e ≡ false)

select_one : (x : Event) → IsSelected x (x ∷ []) []
select_one x = (
  Perm.rfl,
  λ f m.
      Or.elim (Bool-set _ _) (mem-cons.0 m) (λ e. same_event f x x e (event_lt_self x))
        (λ n. absurd (not-mem-nil n)),
)

select_new :
    (x e : Event) (q q' : List Event)
    → IsSelected e q q'
    → event_lt e x ≡ false
    → IsSelected x (x ∷ q) (e ∷ q')
select_new x e q q' (p, l) h = (
  Perm.cons x p,
  λ f m.
      Or.elim (Bool-set _ _) (mem-cons.0 m) (λ k. same_event f x x k (event_lt_self x))
        (λ n. event_lt_trans f e x (l f n) h),
)

select_old :
    (x e : Event) (q q' : List Event)
    → IsSelected e q q'
    → event_lt e x ≡ true
    → IsSelected e (x ∷ q) (x ∷ q')
select_old x e q q' (p, l) h = (
  Perm.trans (Perm.cons x p) (Perm.swap e x q'),
  λ f m.
      Or.elim (Bool-set _ _) (mem-cons.0 m) (λ k. same_event f x e k (event_lt_asym e x h))
        (λ n. l f n),
)

pair_eq :
    (x y : Event) (q r : List Event)
    → ◌≡◌ {A = Option (Event × List Event)} (some (x, q)) (some (y, r))
    → (x ≡ y) × (q ≡ r)
pair_eq x y q r h = (ground arith, ground arith)

select-IsSelected :
    (q : List Event) (e : Event) (q' : List Event) → select q ≡ some (e, q') → IsSelected e q q'
unfolding select
select-IsSelected [] e q' h = ground arith
select-IsSelected (x ∷ q) e q' h = elim (Option-cases (select q)) [
  | inl n ↦
      let k = pair_eq x e [] q' (rw (select, n) at h) in
      subst (λ y. IsSelected y (x ∷ q) q') k.0
        (subst (λ r. IsSelected x (x ∷ q) r) k.1
          (subst (λ r. IsSelected x (x ∷ r) []) (sym (select_empty q n)) (select_one x)))
  | inr ((y, r), n) ↦ elim (Bool-cases (event_lt y x)) [
    | inl b ↦
        let k = pair_eq y e (x ∷ r) q' (rw (select, n, b) at h) in
        subst (λ v. IsSelected v (x ∷ q) q') k.0
          (subst (λ v. IsSelected y (x ∷ q) v) k.1
            (select_old x y q r (select-IsSelected q y r n) b))
    | inr b ↦
        let k = pair_eq x e (y ∷ r) q' (rw (select, n, b) at h) in
        subst (λ v. IsSelected v (x ∷ q) q') k.0
          (subst (λ v. IsSelected x (x ∷ q) v) k.1
            (select_new x y q r (select-IsSelected q y r n) b))
  ]
]

abbrev heap : Heap
heap = record { push = λ e q. e ∷ q; pop = select }

heap-IsDocumented : IsDocumented heap
heap-IsDocumented = record {
  push_perm = λ e q. Perm.rfl;
  pop_empty = select_empty;
  pop_perm = λ e q q' h. (select-IsSelected q e q' h).0;
  pop_least = λ e q q' m h. (select-IsSelected q e q' h).1;
}

abbrev market : InstanceMarket
market = record { instance_type = "m5.large"; az = some "us-west-2a" }

abbrev other_market : InstanceMarket
other_market = record { instance_type = "c5.large"; az = some "us-west-2a" }

abbrev resources : ClustermanResources
resources = record { cpus = pos 4; mem = pos 8; disk = pos 0; gpus = pos 0 }

-- 3 an hour, and nothing up yet
abbrev simulation : Simulator
simulation = record {
  start_time = pos 0;
  end_time = pos 1000;
  current_time = pos 100;
  instance_prices = (market, record { initial_value = pos 3; breakpoints = [] }) ∷ [];
  cost_per_hour = no_function;
  aws_cpus = no_function;
  mesos_cpus = no_function;
  mesos_cpus_allocated = record { initial_value = pos 0; breakpoints = (pos 10, pos 6) ∷ [] };
  billing_frequency = 60;
  refund_outbid = true;
}

simulation-IsOrdered : IsOrdered simulation
simulation-IsOrdered = record { cost = tt; aws = tt; mesos = tt }

abbrev instance_7 : Instance
instance_7 = record {
  id = 7;
  ip_address = 7;
  market = market;
  start_time = pos 100;
  join_time = none;
  end_time = none;
  resources = resources;
  bid_price = none;
}

abbrev later : Simulator
later = record (add_instance sorted_dict simulation instance_7 (pos 20)).0 {
  current_time = pos 160;
}

later-IsOrdered : IsOrdered later
unfolding add_instance
later-IsOrdered = record {
  cost = tt;
  aws = add_delta-IsAscending sorted_dict sorted_dict-IsDocumented no_function (pos 100) (pos 4) tt;
  mesos =
      add_delta-IsAscending sorted_dict sorted_dict-IsDocumented no_function (pos 100 +ℤ pos 20)
        (pos 4) tt;
}

-- At 130 the instance counts, until it is removed at 160.
remove_instance-add_instance_example :
    call sorted_dict
      (remove_joined sorted_dict later
        (add_instance sorted_dict simulation instance_7 (pos 20)).1
        (pos 100 +ℤ pos 20)).0.aws_cpus
      (pos 130)
    ≡ pos 4
unfolding call ◌+ℤ◌
remove_instance-add_instance_example =
    (remove_instance-add_instance sorted_dict sorted_dict-IsDocumented simulation later instance_7
        (pos 20) (λ z. pos 0) (λ z. pos 0) simulation-IsOrdered later-IsOrdered
        (λ z. sym (+ℤ-zero _)) (λ z. sym (+ℤ-zero _)) (omega arith)).1
      (pos 130)

compute_instance_cost-settles_example :
    call sorted_dict
      (compute_instance_cost sorted_dict simulation instance_7 (pos 160)).cost_per_hour
      (pos 230)
    ≡ pos 0
unfolding call ◌+ℤ◌
compute_instance_cost-settles_example =
    compute_instance_cost-settles sorted_dict sorted_dict-IsDocumented simulation instance_7
      (pos 160) (pos 230) tt (omega arith) (inr (omega arith))

abbrev cluster : Cluster
cluster = record {
  instances = (7, instance_7) ∷ [];
  instance_ids_by_market = (market, 7 ∷ []) ∷ [];
  ebs_storage = pos 0;
}

abbrev queue : List Event
queue =
    record { time = pos 300; action = instance_price_change ((market, pos 5) ∷ []) }
    ∷ record { time = pos 300; action = modify_cluster_size ((market, 2) ∷ []) true }
    ∷ record { time = pos 200; action = nothing }
    ∷ []

queue-Made : Made heap queue
queue-Made = made_push _ (made_push _ (made_push _ made_empty))

abbrev environment : Environment
environment = record {
  run_autoscaler = λ w. some w;
  join_delay = λ id. pos 20;
  get_market_resources = λ m. resources;
}

-- The change of the size comes before the change of prices at the same time.
run-IsOrdered_example :
    (events : List Event) × Perm events queue
    × IsOrderedEvents events
    × ((w : World)
        → run sorted_dict environment heap queue w
          ≡ finish sorted_dict (handle_all sorted_dict environment events w))
run-IsOrdered_example =
    run-IsOrdered sorted_dict environment heap heap-IsDocumented queue queue-Made

empty-IsConsistent :
    (m : InstanceMarket) → ids_of m cluster.instance_ids_by_market ≡ [] → IsConsistent m cluster
empty-IsConsistent m e = record {
  distinct = subst Nodup (sym e) tt;
  known = λ id h. absurd (subst (In id) e h);
}

known_instance :
    (id : ℕ)
    → In id (7 ∷ [])
    → (i : Instance) × (get_instance id cluster.instances ≡ some i) × (i.market ≡ market)
unfolding get_instance
known_instance id (inl e) = (instance_7, ground arith, refl)
known_instance id (inr h) = absurd h

market-IsConsistent : IsConsistent market cluster
unfolding ids_of get_market market_eq
market-IsConsistent = record { distinct = (λ h. h, tt); known = known_instance }

cluster-IsConsistent : (m : InstanceMarket) → IsConsistent m cluster
unfolding ids_of get_market
cluster-IsConsistent m = elim (Bool-cases (market_eq market m)) [
  | inl e ↦ subst (λ x. IsConsistent x cluster) (market_eq→eq market m e) market-IsConsistent
  | inr e ↦ empty-IsConsistent m (rw e refl)
]

cluster-fresh : (j : ℕ) → 8 ≤ j → get_instance j cluster.instances ≡ none
unfolding get_instance
cluster-fresh j h = ground arith

-- One more instance of the first market, and one of another
modify_size-sizes_example :
    (r : Change) × (modify_size
        (λ m. resources)
        (pos 300)
        cluster
        8
        ((market, 2) ∷ (other_market, 1) ∷ [])
      ≡ some r)
    × ((m : InstanceMarket)
        → (market_size m r.cluster
            ≡ or_else (get_market m ((market, 2) ∷ (other_market, 1) ∷ [])) 0)
          × IsConsistent m r.cluster)
unfolding market_eq emptied is_given get_market
modify_size-sizes_example =
    modify_size-sizes (λ m. resources) (pos 300) cluster 8 ((market, 2) ∷ (other_market, 1) ∷ [])
      cluster-IsConsistent cluster-fresh (refl, (refl, tt))

get_data-oversubscribed_example :
    get_data sorted_dict ◌*ℤ◌
      (λ n. n)
      simulation
      "oversubscribed"
      (record { start = pos 0; width = 20; step = 10 })
    ≡ some ((pos 0, pos 0) ∷ (pos 10, pos 6) ∷ [])
unfolding sampled call ◌-ℤ◌ max_ℤ ◌+ℤ◌ value_at count_up_to
get_data-oversubscribed_example =
    get_data-oversubscribed sorted_dict ◌*ℤ◌ (λ n. n) sorted_dict-IsDocumented simulation
      (record { start = pos 0; width = 20; step = 10 }) (tt, tt) tt (omega arith)

-- The price was set to 3 at 50, and the instance has a bid of 5.
abbrev priced : Simulator
priced = record simulation {
  instance_prices =
      (market, record { initial_value = pos 0; breakpoints = (pos 50, pos 3) ∷ [] }) ∷ [];
}

abbrev bidding : Instance
bidding = record instance_7 { bid_price = some (pos 5) }

-- The second period, from 160, begins before the end at 170, so that the price is paid at 200.
compute_instance_cost-constant_example :
    call sorted_dict
      (compute_instance_cost sorted_dict priced bidding (pos 170)).cost_per_hour
      (pos 200)
    ≡ pos 3
unfolding call prices_of whole_periods ◌+ℤ◌ get_market market_eq ◌-ℤ◌ count_up_to value_at
compute_instance_cost-constant_example =
    compute_instance_cost-constant sorted_dict sorted_dict-IsDocumented priced bidding (pos 170)
      (pos 200) tt (omega arith) (omega arith) (omega arith, tt)
