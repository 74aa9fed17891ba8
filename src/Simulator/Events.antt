-- ===== src/Simulator/Events.antt =====
-- The events of a simulation and their order: clusterman/simulator/event.py, and the queue and the loop of
-- clusterman/simulator/simulator.py. The module heapq is an argument.
pub mod Order
use mathlib.Core.List.{Perm, Mem}
use clusterman.Base.{
  ℕ, zero, suc, ltb, length, ◌≡◌, ◌≢◌, Bool, true, false, List, [], ◌∷◌, ◌++◌, Option, none, some,
  ℤ, pos, ltb_ℤ, leb_ℤ, or_else, if◌then◌else◌,
}
use clusterman.Interfaces.{InstanceMarket}
use clusterman.Resources.{ClustermanResources}
use clusterman.Math.SortedDict.{SortedDict}
use clusterman.Math.Piecewise.{PiecewiseConstantFunction, add_breakpoint}
use clusterman.Simulator.Markets.{MarketDict, put_market}
use clusterman.Simulator.Instances.{
  Instance, Simulator, prices_of, add_instance, remove_instance, compute_instance_cost,
}
use clusterman.Simulator.Cluster.{Cluster, Change, put_instance, modify_size}

-- `Event` and its subclasses
pub data Action : Type 0 where
  nothing : Action
  autoscaling : Action
  modify_cluster_size : (instance_types : MarketDict ℕ) → (use_join_delay : Bool) → Action
  instance_price_change : (prices : MarketDict ℤ) → Action

pub record Event : Type 0 where
  pub time : ℤ
  pub action : Action

-- `EVENT_PRIORITIES`
unfoldable pub priority : Action → ℕ
priority nothing = 0
priority autoscaling = 1
priority (modify_cluster_size instance_types use_join_delay) = 1
priority (instance_price_change prices) = 2

-- `Event.__lt__`
unfoldable pub event_lt : Event → Event → Bool
unfolding priority
event_lt a b =
    if ltb_ℤ a.time b.time
    then true
    else if ltb_ℤ b.time a.time
    then false
    else ltb (priority a.action) (priority b.action)

-- `heappush` and `heappop`, which answers `none` for an empty heap
pub record Heap : Type 0 where
  pub push : Event → List Event → List Event
  pub pop : List Event → Option (Event × List Event)

-- A list that was made by the two functions
pub data Made (h : Heap) : List Event → Type 0 where
  made_empty : Made h []
  made_push : (e : Event) {q : List Event} → Made h q → Made h (h.push e q)
  made_pop : {e : Event} {q q' : List Event} → Made h q → h.pop q ≡ some (e, q') → Made h q'

-- What the documentation of heapq promises
pub record IsDocumented (h : Heap) : Type 0 where
  pub push_perm : (e : Event) (q : List Event) → Perm (h.push e q) (e ∷ q)
  pub pop_empty : (q : List Event) → h.pop q ≡ none → q ≡ []
  pub pop_perm : (e : Event) (q q' : List Event) → h.pop q ≡ some (e, q') → Perm q (e ∷ q')
  pub pop_least :
      (e : Event) (q q' : List Event)
      → Made h q
      → h.pop q ≡ some (e, q')
      → (f : Event) → Mem f q
      → event_lt f e ≡ false

-- The state that events change: the simulator, its clusters and the number of instances so far
pub record World : Type 0 where
  pub simulator : Simulator
  pub aws_clusters : List Cluster
  pub next_id : ℕ

abbrev pub at_time : ℤ → World → World
at_time t w = record w { simulator = record w.simulator { current_time = t } }

-- What is answered from outside: the autoscaler's run, the delay before an instance joins, and the resources
-- of a market; `none` is an exception.
pub record Environment : Type 0 where
  pub run_autoscaler : World → Option World
  pub join_delay : ℕ → ℤ
  pub get_market_resources : InstanceMarket → ClustermanResources

-- An instance that has joined is the same object in its cluster.
unfoldable pub replace_instances : List Instance → Cluster → Cluster
unfolding put_instance
replace_instances [] c = c
replace_instances (i ∷ is) c =
    replace_instances is (record c { instances = put_instance i.id i c.instances })

module _ (o : SortedDict) where
  -- The charge of the instances that have not been terminated
  unfoldable pub charge_instances : List (ℕ × Instance) → Simulator → Simulator
  charge_instances [] s = s
  charge_instances ((id, i) ∷ d) s = charge_instances d (compute_instance_cost o s i s.current_time)

  unfoldable pub charge_clusters : List Cluster → Simulator → Simulator
  unfolding charge_instances
  charge_clusters [] s = s
  charge_clusters (c ∷ cs) s = charge_clusters cs (charge_instances c.instances s)

  unfoldable pub remove_instances : List Instance → Simulator → Option Simulator
  remove_instances [] s = some s
  remove_instances (i ∷ is) s = elim (remove_instance o s i) [
    | none ↦ none
    | some (s', ended) ↦ remove_instances is s'
  ]

  unfoldable pub change_prices : (time : ℤ) → MarketDict ℤ → Simulator → Simulator
  unfolding prices_of
  change_prices time [] s = s
  change_prices time ((market, price) ∷ d) s = change_prices time d (record s {
    instance_prices =
        put_market market (add_breakpoint o (prices_of s market) time price true) s.instance_prices;
  })

module _ (o : SortedDict) where
  abbrev pub finish : Option World → Option World
  finish none = none
  finish (some w) = some (record w { simulator = charge_clusters o w.aws_clusters w.simulator })

module _ (o : SortedDict) (env : Environment) where
  -- The loop over `added_instances`: the simulator, and the instances with their times of joining
  unfoldable pub add_instances :
      (use_join_delay : Bool) → List Instance → Simulator → Simulator × List Instance
  add_instances use_join_delay [] s = (s, [])
  add_instances use_join_delay (i ∷ is) s =
      let (s', joined) =
        add_instance o s i (if use_join_delay then env.join_delay i.id else pos 0) in
      let (s'', others) = add_instances use_join_delay is s' in (s'', joined ∷ others)

  abbrev pub with_change :
      (use_join_delay : Bool) → World → List Cluster → Option Change → Option World
  with_change use_join_delay w others none = none
  with_change use_join_delay w others (some r) =
      let (s, joined) = add_instances use_join_delay r.added w.simulator in
      elim (remove_instances o r.removed s) [
        | none ↦ none
        | some s' ↦ some (record {
          simulator = s';
          aws_clusters = replace_instances joined r.cluster ∷ others;
          next_id = r.next_id;
        })
      ]

  -- `ModifyClusterSizeEvent.handle`; without a cluster, an `IndexError`
  unfoldable pub modify_cluster :
      MarketDict ℕ → (use_join_delay : Bool) → World → List Cluster → Option World
  unfolding modify_size add_instances remove_instances replace_instances
  modify_cluster instance_types use_join_delay w [] = none
  modify_cluster instance_types use_join_delay w (c ∷ others) =
      with_change use_join_delay w others
        (modify_size env.get_market_resources w.simulator.current_time c w.next_id instance_types)

  -- `handle`
  unfoldable pub handle : Event → World → Option World
  unfolding modify_cluster change_prices
  handle e w = elim e.action [
    | nothing ↦ some w
    | autoscaling ↦ env.run_autoscaler w
    | modify_cluster_size instance_types use_join_delay ↦
        modify_cluster instance_types use_join_delay w w.aws_clusters
    | instance_price_change prices ↦
        some (record w { simulator = change_prices o e.time prices w.simulator })
  ]

  -- Each event in turn, at its time
  unfoldable pub handle_at : Event → World → Option World
  unfolding handle
  handle_at e w = handle e (at_time e.time w)

  module _ (h : Heap) where
    -- `add_event`
    unfoldable pub add_event : Event → World → List Event → List Event
    add_event e w queue =
        if leb_ℤ w.simulator.end_time e.time
        then queue
        else if ltb_ℤ e.time w.simulator.current_time
        then queue
        else h.push e queue

    -- The queue of a new simulator
    unfoldable pub first_queue : World → List Event
    first_queue w =
        h.push (record { time = w.simulator.end_time; action = nothing })
          (h.push (record { time = w.simulator.start_time; action = nothing }) [])

    -- `while self.event_queue`
    unfoldable pub handle_queue : (fuel : ℕ) → List Event → World → Option World
    unfolding handle_at
    handle_queue zero queue w = some w
    handle_queue (suc fuel) queue w = elim (h.pop queue) [
      | none ↦ some w
      | some (e, queue') ↦ elim (handle_at e w) [
        | none ↦ none
        | some w' ↦ handle_queue fuel queue' w'
      ]
    ]

    -- `run`: handling an event adds none to the queue, so its length is fuel enough.
    unfoldable pub run : List Event → World → Option World
    unfolding handle_queue charge_clusters
    run queue w = finish o (handle_queue (length queue) queue w)
