-- ===== src/Simulator/Cluster.antt =====
-- `SimulatedAWSCluster` of clusterman/simulator/simulated_aws_cluster.py. The counters of `Instance` are one
-- number: the n-th instance has the n-th id and the n-th address. The markets that are set to 0 since they
-- are not given come in the order of the dictionary, where the code goes through a set.
pub mod Ready
pub mod Resize
pub mod Sizes
use clusterman.Base.{
  ℕ, zero, suc, ◌+◌, ◌-◌, ◌==◌, ltb, length, Bool, true, false, List, [], ◌∷◌, ◌++◌, map, Option,
  none, some, ℤ, pos, ◌+ℤ◌, or_else, if◌then◌else◌,
}
use clusterman.Interfaces.{InstanceMarket}
use clusterman.Resources.{ClustermanResources}
use clusterman.Math.Piecewise.{is_some}
use clusterman.Simulator.Markets.{MarketDict, market_eq, get_market, put_market, delete_market}
use clusterman.Simulator.Instances.{Instance}

pub record Cluster : Type 0 where
  pub instances : List (ℕ × Instance)
  pub instance_ids_by_market : MarketDict (List ℕ)
  pub ebs_storage : ℤ

-- `self.instances[id]` and `del self.instances[id]`
unfoldable pub get_instance : ℕ → List (ℕ × Instance) → Option Instance
get_instance id [] = none
get_instance id ((j, i) ∷ d) = if j == id then some i else get_instance id d

-- An instance in the place of the one of its id
unfoldable pub put_instance : ℕ → Instance → List (ℕ × Instance) → List (ℕ × Instance)
put_instance id i [] = []
put_instance id i ((j, v) ∷ d) = if j == id then (j, i) ∷ d else (j, v) ∷ put_instance id i d

unfoldable pub delete_instance : ℕ → List (ℕ × Instance) → List (ℕ × Instance)
delete_instance id [] = []
delete_instance id ((j, i) ∷ d) =
    if j == id then delete_instance id d else (j, i) ∷ delete_instance id d

-- `self.instance_ids_by_market[market]` of a defaultdict, which has a list for the market from then on
unfoldable pub ids_of : InstanceMarket → MarketDict (List ℕ) → List ℕ
ids_of market d = or_else (get_market market d) []

unfoldable pub market_size : InstanceMarket → Cluster → ℕ
unfolding ids_of
market_size market c = length (ids_of market c.instance_ids_by_market)

abbrev pub take : ℕ → List ℕ → List ℕ
take zero xs = []
take (suc n) [] = []
take (suc n) (x ∷ xs) = x ∷ take n xs

abbrev pub drop : ℕ → List ℕ → List ℕ
drop zero xs = xs
drop (suc n) [] = []
drop (suc n) (x ∷ xs) = drop n xs

-- What `modify_size` works on
pub record Change : Type 0 where
  pub cluster : Cluster
  pub next_id : ℕ
  pub added : List Instance
  pub removed : List Instance

module _ (get_market_resources : InstanceMarket → ClustermanResources) (current_time : ℤ) where
  -- `[Instance(market, current_time) for i in range(n)]`
  unfoldable pub new_instances : InstanceMarket → (next_id n : ℕ) → List Instance
  new_instances market next_id zero = []
  new_instances market next_id (suc n) =
      record {
        id = next_id;
        ip_address = next_id;
        market = market;
        start_time = current_time;
        join_time = none;
        end_time = none;
        resources = get_market_resources market;
        bid_price = none;
      }
      ∷ new_instances market (next_id + 1) n

  unfoldable pub add_to_market : InstanceMarket → (n : ℕ) → Change → Change
  unfolding ids_of new_instances
  add_to_market market n r =
      let instances = new_instances market r.next_id n in
      record r {
        cluster = record r.cluster {
          instance_ids_by_market =
              put_market market
                (ids_of market r.cluster.instance_ids_by_market ++ map (λ i. i.id) instances)
                r.cluster.instance_ids_by_market;
        };
        next_id = r.next_id + n;
        added = r.added ++ instances;
      }

-- The loop that removes the first instances of a market; an id without an instance is a `KeyError`.
unfoldable pub remove_ids :
    (current_time : ℤ)
    → List ℕ
    → (instances : List (ℕ × Instance)) → (removed : List Instance)
    → Option (List (ℕ × Instance) × List Instance)
unfolding get_instance delete_instance
remove_ids current_time [] instances removed = some (instances, removed)
remove_ids current_time (id ∷ ids) instances removed = elim (get_instance id instances) [
  | none ↦ none
  | some i ↦
      remove_ids current_time ids (delete_instance id instances)
        (removed ++ record i { end_time = some current_time } ∷ [])
]

-- `del ids[:n]`, and the whole entry when nothing is left
unfoldable pub drop_ids : InstanceMarket → (n : ℕ) → MarketDict (List ℕ) → MarketDict (List ℕ)
unfolding ids_of
drop_ids market n d = elim (drop n (ids_of market d)) [
  | [] ↦ delete_market market d
  | (id ∷ ids) ↦ put_market market (id ∷ ids) d
]

abbrev pub with_removed :
    InstanceMarket → (n : ℕ) → Change → Option (List (ℕ × Instance) × List Instance) → Option Change
with_removed market n r none = none
with_removed market n r (some (instances, removed)) = some (record r {
  cluster = record r.cluster {
    instances = instances;
    instance_ids_by_market = drop_ids market n r.cluster.instance_ids_by_market;
  };
  removed = removed;
})

unfoldable pub remove_from_market :
    (current_time : ℤ) → InstanceMarket → (n : ℕ) → Change → Option Change
unfolding remove_ids drop_ids ids_of
remove_from_market current_time market n r = with_removed market n r (
    remove_ids current_time (take n (ids_of market r.cluster.instance_ids_by_market))
      r.cluster.instances r.removed)

-- A look at the size of a market leaves an entry for it.
unfoldable pub touched : InstanceMarket → Change → Change
unfolding ids_of
touched market r = record r {
  cluster = record r.cluster {
    instance_ids_by_market =
        put_market market (ids_of market r.cluster.instance_ids_by_market)
          r.cluster.instance_ids_by_market;
  };
}

unfoldable pub is_given : MarketDict ℕ → InstanceMarket → Bool
is_given given market = elim (get_market market given) [ none ↦ false | some n ↦ true ]

-- The markets with an entry that are not given
unfoldable pub emptied : MarketDict ℕ → MarketDict (List ℕ) → MarketDict ℕ
unfolding is_given
emptied given [] = []
emptied given ((market, ids) ∷ d) =
    let rest = emptied given d in if is_given given market then rest else (market, 0) ∷ rest

-- `self.instances.update(...)`
unfoldable pub with_added : Change → Change
with_added r = record r {
  cluster = record r.cluster { instances = r.cluster.instances ++ map (λ i. (i.id, i)) r.added };
}

module _ (get_market_resources : InstanceMarket → ClustermanResources) (current_time : ℤ) where
  -- One round of the loop
  unfoldable pub modify_market : InstanceMarket → (num : ℕ) → Change → Option Change
  unfolding market_size touched add_to_market remove_from_market
  modify_market market num r =
      let size = market_size market r.cluster in
      let t = touched market r in
      if ltb size num
      then some (add_to_market get_market_resources current_time market (num - size) t)
      else if ltb num size
      then remove_from_market current_time market (size - num) t
      else some t

  unfoldable pub modify_markets : MarketDict ℕ → Change → Option Change
  unfolding modify_market
  modify_markets [] r = some r
  modify_markets ((market, num) ∷ d) r = elim (modify_market market num r) [
    | none ↦ none
    | some r' ↦ modify_markets d r'
  ]

  unfoldable pub modify_size :
      Cluster → (next_id : ℕ) → (instances_by_market : MarketDict ℕ) → Option Change
  unfolding modify_markets emptied with_added
  modify_size c next_id given =
      elim (modify_markets (given ++ emptied given c.instance_ids_by_market)
        (record { cluster = c; next_id = next_id; added = []; removed = [] })) [
          | none ↦ none
          | some r ↦ some (with_added r)
        ]

-- `list.remove`, with a `ValueError` for what is not there
unfoldable pub remove_id : ℕ → List ℕ → Option (List ℕ)
remove_id id [] = none
remove_id id (j ∷ ids) = elim (j == id) [
  | true ↦ some ids
  | false ↦ elim (remove_id id ids) [ none ↦ none | some js ↦ some (j ∷ js) ]
]

abbrev pub without_id : Cluster → ℕ → Instance → Option (List ℕ) → Option Cluster
without_id c id i none = none
without_id c id i (some ids) = some (record c {
  instances = delete_instance id c.instances;
  instance_ids_by_market = put_market i.market ids c.instance_ids_by_market;
})

unfoldable pub terminate_instances_by_id : List ℕ → Cluster → Option Cluster
unfolding get_instance delete_instance ids_of remove_id
terminate_instances_by_id [] c = some c
terminate_instances_by_id (id ∷ ids) c = elim (get_instance id c.instances) [
  | none ↦ none
  | some i ↦ elim (without_id c id i (remove_id id (ids_of i.market c.instance_ids_by_market))) [
    | none ↦ none
    | some c' ↦ terminate_instances_by_id ids c'
  ]
]

-- `cpus`, `mem` and `disk`, whose resource is an argument
unfoldable pub total_of : (ClustermanResources → ℤ) → List (ℕ × Instance) → ℤ
total_of resource [] = pos 0
total_of resource ((id, i) ∷ d) = resource i.resources +ℤ total_of resource d

unfoldable pub cpus : Cluster → ℤ
unfolding total_of
cpus c = total_of (λ r. r.cpus) c.instances

unfoldable pub mem : Cluster → ℤ
unfolding total_of
mem c = total_of (λ r. r.mem) c.instances

-- An instance type without storage has the disk 0.
unfoldable pub disk : Cluster → ℤ
unfolding total_of
disk c = c.ebs_storage +ℤ total_of (λ r. r.disk) c.instances
