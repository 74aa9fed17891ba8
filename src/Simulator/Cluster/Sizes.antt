-- ===== src/Simulator/Cluster/Sizes.antt =====
-- The sizes of the markets after `modify_size` of clusterman/simulator/simulated_aws_cluster.py.
use clusterman.Base.{
  ℕ, zero, suc, ◌+◌, ◌-◌, ◌<◌, ◌==◌, ltb, ltb→lt, length, ◌≡◌, ◌≢◌, refl, sym, subst, ap, ◌∙◌, ◌⊎◌,
  inl, inr, Bool, true, false, List, [], ◌∷◌, ◌++◌, map, Option, none, some, In, Bool-cases, ℤ,
  or_else, arith, if◌then◌else◌,
}
use clusterman.Interfaces.{InstanceMarket}
use clusterman.Resources.{ClustermanResources}
use clusterman.Simulator.Markets.{
  MarketDict, market_eq, get_market, put_market, delete_market, get_market-put, get_market-delete,
  market_eq→eq, market_eq_refl,
}
use clusterman.Simulator.Instances.{Instance}
use clusterman.Simulator.Cluster.{
  Cluster, get_instance, delete_instance, ids_of, market_size, take, drop, Change, new_instances,
  add_to_market, remove_ids, drop_ids, with_removed, remove_from_market, touched, modify_market,
}

abbrev pub Nodup : List ℕ → Type 0
Nodup [] = Unit
Nodup (x ∷ xs) = ¬ In x xs × Nodup xs

pub In-take : (a n : ℕ) (xs : List ℕ) → In a (take n xs) → In a xs
In-take a zero xs h = absurd h
In-take a (suc n) [] h = absurd h
In-take a (suc n) (x ∷ xs) (inl e) = inl e
In-take a (suc n) (x ∷ xs) (inr h) = inr (In-take a n xs h)

pub Nodup-take : (n : ℕ) (xs : List ℕ) → Nodup xs → Nodup (take n xs)
Nodup-take zero xs h = tt
Nodup-take (suc n) [] h = tt
Nodup-take (suc n) (x ∷ xs) (p, q) = (λ m. p (In-take x n xs m), Nodup-take n xs q)

length-drop : (n : ℕ) (xs : List ℕ) → length (drop n xs) ≡ length xs - n
length-drop zero xs = omega arith
length-drop (suc n) [] = omega arith
length-drop (suc n) (x ∷ xs) = omega (arith, length-drop n xs)

length-append : (xs ys : List ℕ) → length (xs ++ ys) ≡ length xs + length ys
length-append [] ys = omega arith
length-append (x ∷ xs) ys = omega (arith, length-append xs ys)

length-new_instances :
    (res : InstanceMarket → ClustermanResources) (now : ℤ) (m : InstanceMarket) (next n : ℕ)
    → length (map (λ (i : Instance). i.id) (new_instances res now m next n)) ≡ n
unfolding new_instances
length-new_instances res now m next zero = refl
length-new_instances res now m next (suc n) =
    omega (arith, length-new_instances res now m (next + 1) n)

pub get_instance-delete :
    (k j : ℕ) (d : List (ℕ × Instance))
    → get_instance j (delete_instance k d) ≡ (if k == j then none else get_instance j d)
unfolding get_instance delete_instance
get_instance-delete k j [] = ground arith
get_instance-delete k j ((i, v) ∷ d) = ground (arith, get_instance-delete k j d)

apart : (i j : ℕ) → i ≢ j → i == j ≡ false
apart i j h = ground arith

other : (i j : ℕ) (ids : List ℕ) → ¬ In i ids → In j ids → i == j ≡ false
other i j ids h m = apart i j (λ e. h (subst (λ k. In k ids) (sym e) m))

-- All the ids have instances, and the others keep theirs when these are removed.
pub remove_ids_lem :
    (now : ℤ) (ids : List ℕ) (d : List (ℕ × Instance)) (removed : List Instance)
    → Nodup ids
    → ((id : ℕ) → In id ids → (i : Instance) × (get_instance id d ≡ some i))
    → (d' : List (ℕ × Instance)) × (removed' : List Instance) × (remove_ids now ids d removed
        ≡ some (d', removed'))
      × ((j : ℕ) → ¬ In j ids → get_instance j d' ≡ get_instance j d)
unfolding remove_ids
remove_ids_lem now [] d removed n h = (d, removed, refl, λ j k. refl)
remove_ids_lem now (id ∷ ids) d removed (p, q) h =
    let (i, e) = h id (inl refl) in
    let (d', removed', f, g) =
      remove_ids_lem now ids (delete_instance id d)
        (removed ++ record i { end_time = some now } ∷ []) q
        (λ j m.
          let (v, w) = h j (inr m) in
          (v, get_instance-delete id j d ∙ rw (other id j ids p m) w)) in
    (
      d',
      removed',
      rw (e, remove_ids) f,
      λ j k.
          g j (λ m. k (inr m))
          ∙ get_instance-delete id j d
          ∙ rw (apart id j (λ e. k (inl (sym e)))) refl,
    )

-- The ids of a market are those of different instances, which are of the market.
pub record IsConsistent (m : InstanceMarket) (c : Cluster) : Type 0 where
  pub distinct : Nodup (ids_of m c.instance_ids_by_market)
  pub known :
      (id : ℕ)
      → In id (ids_of m c.instance_ids_by_market)
      → (i : Instance) × (get_instance id c.instances ≡ some i) × (i.market ≡ m)

or_else_if :
    (b : Bool) (v : List ℕ) (o : Option (List ℕ))
    → or_else (if b then some v else o) [] ≡ (if b then v else or_else o [])
or_else_if true v o = refl
or_else_if false v o = refl

or_else-none :
    (b : Bool) (o : Option (List ℕ))
    → or_else (if b then none else o) [] ≡ (if b then [] else or_else o [])
or_else-none true o = refl
or_else-none false o = refl

pub ids_of-put :
    (k j : InstanceMarket) (v : List ℕ) (d : MarketDict (List ℕ))
    → ids_of j (put_market k v d) ≡ (if market_eq k j then v else ids_of j d)
unfolding ids_of
ids_of-put k j v d = rw (get_market-put k j v d) (or_else_if (market_eq k j) v (get_market j d))

ids_of-delete :
    (k j : InstanceMarket) (d : MarketDict (List ℕ))
    → ids_of j (delete_market k d) ≡ (if market_eq k j then [] else ids_of j d)
unfolding ids_of
ids_of-delete k j d = rw (get_market-delete k j d) (or_else-none (market_eq k j) (get_market j d))

same_market :
    (k j : InstanceMarket) (d : MarketDict (List ℕ))
    → (if market_eq k j then ids_of k d else ids_of j d) ≡ ids_of j d
same_market k j d = elim (Bool-cases (market_eq k j)) [
  | inl e ↦ rw e (ap (λ m. ids_of m d) (market_eq→eq k j e))
  | inr e ↦ rw e refl
]

pub ids_of-touched :
    (k j : InstanceMarket) (r : Change)
    → ids_of j (touched k r).cluster.instance_ids_by_market
      ≡ ids_of j r.cluster.instance_ids_by_market
unfolding touched
ids_of-touched k j r =
    ids_of-put k j (ids_of k r.cluster.instance_ids_by_market) r.cluster.instance_ids_by_market
    ∙ same_market k j r.cluster.instance_ids_by_market

List-cases : (xs : List ℕ) → (xs ≡ []) ⊎ ((x : ℕ) × (ys : List ℕ) × (xs ≡ x ∷ ys))
List-cases [] = inl refl
List-cases (x ∷ xs) = inr (x, xs, refl)

pub ids_of-drop_ids :
    (k j : InstanceMarket) (n : ℕ) (d : MarketDict (List ℕ))
    → ids_of j (drop_ids k n d) ≡ (if market_eq k j then drop n (ids_of k d) else ids_of j d)
unfolding drop_ids
ids_of-drop_ids k j n d = elim (List-cases (drop n (ids_of k d))) [
  | inl e ↦ rw (drop_ids, e) (ids_of-delete k j d)
  | inr (x, xs, e) ↦ rw (drop_ids, e) (ids_of-put k j (x ∷ xs) d)
]

pub kept_by :
    (m : InstanceMarket) (c c' : Cluster)
    → ids_of m c'.instance_ids_by_market ≡ ids_of m c.instance_ids_by_market
    → ((id : ℕ)
        → In id (ids_of m c.instance_ids_by_market)
        → get_instance id c'.instances ≡ get_instance id c.instances)
    → IsConsistent m c
    → IsConsistent m c'
kept_by m c c' e f h = record {
  distinct = subst Nodup (sym e) h.distinct;
  known =
      λ id k. let k' = subst (In id) e k in let (i, p, q) = h.known id k' in (i, f id k' ∙ p, q);
}

-- One market has its new size, and the others have not changed.
pub record IsMoved (k : InstanceMarket) (num : ℕ) (c c' : Cluster) : Type 0 where
  pub sizes :
      (m : InstanceMarket) → market_size m c' ≡ (if market_eq k m then num else market_size m c)
  pub kept : (m : InstanceMarket) → market_eq k m ≡ false → IsConsistent m c → IsConsistent m c'

length-if :
    (b : Bool) (v w : List ℕ) (n size : ℕ)
    → length v ≡ n
    → length w ≡ size
    → length (if b then v else w) ≡ (if b then n else size)
length-if true v w n size e f = e
length-if false v w n size e f = f

same :
    (k : InstanceMarket) (r : Change) (id : ℕ) (xs : List ℕ)
    → In id xs
    → get_instance id (touched k r).cluster.instances ≡ get_instance id r.cluster.instances
unfolding touched
same k r id xs m = refl

pub touched-IsConsistent :
    (k m : InstanceMarket) (r : Change)
    → IsConsistent m r.cluster
    → IsConsistent m (touched k r).cluster
touched-IsConsistent k m r =
    kept_by m r.cluster (touched k r).cluster (ids_of-touched k m r)
      (λ id. same k r id (ids_of m r.cluster.instance_ids_by_market))

size-touched :
    (k m : InstanceMarket) (r : Change)
    → length (ids_of m (touched k r).cluster.instance_ids_by_market) ≡ market_size m r.cluster
unfolding market_size
size-touched k m r = ap (λ xs. length xs) (ids_of-touched k m r)

module _ (res : InstanceMarket → ClustermanResources) (now : ℤ) where
  added-IsMoved :
      (k : InstanceMarket) (num : ℕ) (r : Change)
      → market_size k r.cluster < num
      → IsMoved k num r.cluster
          (add_to_market res now k (num - market_size k r.cluster) (touched k r)).cluster
  unfolding add_to_market market_size
  added-IsMoved k num r h =
      let t = touched k r in
      let n = num - market_size k r.cluster in
      let old = ids_of k t.cluster.instance_ids_by_market in
      let new = map (λ (i : Instance). i.id) (new_instances res now k t.next_id n) in
      record {
        sizes = λ m.
            ap (λ xs. length xs) (ids_of-put k m (old ++ new) t.cluster.instance_ids_by_market)
            ∙ length-if (market_eq k m) (old ++ new) (ids_of m t.cluster.instance_ids_by_market) num
                (market_size m r.cluster)
                (omega (
                  arith,
                  length-append old new,
                  length-new_instances res now k t.next_id n,
                  size-touched k k r,
                ))
                (size-touched k m r);
        kept = λ m e c.
            kept_by m t.cluster (add_to_market res now k n t).cluster
              (ids_of-put k m (old ++ new) t.cluster.instance_ids_by_market ∙ rw e refl)
              (λ id i. refl) (touched-IsConsistent k m r c);
      }

size-touched' :
    (k m : InstanceMarket) (r : Change)
    → market_size m (touched k r).cluster ≡ market_size m r.cluster
unfolding market_size
size-touched' k m r = ap (λ xs. length xs) (ids_of-touched k m r)

same_size :
    (k m : InstanceMarket) (num : ℕ) (c : Cluster)
    → market_size k c ≡ num
    → market_size m c ≡ (if market_eq k m then num else market_size m c)
same_size k m num c e = elim (Bool-cases (market_eq k m)) [
  | inl f ↦ rw f (ap (λ x. market_size x c) (sym (market_eq→eq k m f)) ∙ e)
  | inr f ↦ rw f refl
]

some_inj : (v w : Instance) → some v ≡ some w → v ≡ w
some_inj v w h = cc

absurd_bool : true ≡ false → ⊥
absurd_bool h = cc

-- An id is of one market only.
pub elsewhere :
    (k m : InstanceMarket) (c : Cluster) (id : ℕ)
    → market_eq k m ≡ false
    → IsConsistent k c
    → IsConsistent m c
    → In id (ids_of k c.instance_ids_by_market)
    → In id (ids_of m c.instance_ids_by_market)
    → ⊥
elsewhere k m c id e ck cm i j =
    let (v, p, q) = ck.known id i in
    let (w, p', q') = cm.known id j in
    let same : v ≡ w = some_inj v w (sym p ∙ p') in
    let eq : k ≡ m = sym q ∙ ap (λ (x : Instance). x.market) same ∙ q' in
    let holds : market_eq k m ≡ true = subst (λ x. market_eq k x ≡ true) eq (market_eq_refl k) in
    absurd_bool (sym holds ∙ e)

touched-IsMoved :
    (k : InstanceMarket) (num : ℕ) (r : Change)
    → ltb (market_size k r.cluster) num ≡ false
    → ltb num (market_size k r.cluster) ≡ false
    → IsMoved k num r.cluster (touched k r).cluster
touched-IsMoved k num r e f = record {
  sizes = λ m. size-touched' k m r ∙ same_size k m num r.cluster (ground arith);
  kept = λ m g c. touched-IsConsistent k m r c;
}

-- The same, for the removal of the first instances of a market
removed-IsMoved :
    (now : ℤ) (k : InstanceMarket) (num : ℕ) (r : Change)
    → num < market_size k r.cluster
    → IsConsistent k r.cluster
    → (r' : Change) × (remove_from_market now k (market_size k r.cluster - num) (touched k r)
        ≡ some r')
      × IsMoved k num r.cluster r'.cluster
unfolding remove_from_market market_size
removed-IsMoved now k num r h c =
    let t = touched k r in
    let n = market_size k r.cluster - num in
    let ct = touched-IsConsistent k k r c in
    let ids = ids_of k t.cluster.instance_ids_by_market in
    let (d', removed', e, f) =
      remove_ids_lem now (take n ids) t.cluster.instances t.removed (Nodup-take n ids ct.distinct)
        (λ id m. let (i, p, q) = ct.known id (In-take id n ids m) in (i, p)) in
    (
      record t {
        cluster = record t.cluster {
          instances = d';
          instance_ids_by_market = drop_ids k n t.cluster.instance_ids_by_market;
        };
        removed = removed';
      },
      ap (with_removed k n t) e,
      record {
        sizes = λ m.
            ap (λ xs. length xs) (ids_of-drop_ids k m n t.cluster.instance_ids_by_market)
            ∙ length-if (market_eq k m) (drop n ids) (ids_of m t.cluster.instance_ids_by_market) num
                (market_size m r.cluster) (omega (arith, length-drop n ids, size-touched k k r))
                (size-touched k m r);
        kept = λ m g cm.
            let cm' = touched-IsConsistent k m r cm in
            kept_by m t.cluster
              (record t.cluster {
                instances = d';
                instance_ids_by_market = drop_ids k n t.cluster.instance_ids_by_market;
              })
              (ids_of-drop_ids k m n t.cluster.instance_ids_by_market ∙ rw g refl)
              (λ id i. f id (λ i'. elsewhere k m t.cluster id g ct cm' (In-take id n ids i') i))
              cm';
      },
    )

pub modify_market-IsMoved :
    (res : InstanceMarket → ClustermanResources) (now : ℤ) (k : InstanceMarket) (num : ℕ)
    (r : Change)
    → IsConsistent k r.cluster
    → (r' : Change) × (modify_market res now k num r ≡ some r') × IsMoved k num r.cluster r'.cluster
unfolding modify_market
modify_market-IsMoved res now k num r c = elim (Bool-cases (ltb (market_size k r.cluster) num)) [
  | inl e ↦ (
    add_to_market res now k (num - market_size k r.cluster) (touched k r),
    rw e refl,
    added-IsMoved res now k num r (ltb→lt (market_size k r.cluster) num e),
  )
  | inr e ↦ elim (Bool-cases (ltb num (market_size k r.cluster))) [
    | inl f ↦
        let (r', p, q) = removed-IsMoved now k num r (ltb→lt num (market_size k r.cluster) f) c in
        (r', rw (e, f) p, q)
    | inr f ↦ (touched k r, rw (e, f) refl, touched-IsMoved k num r e f)
  ]
]
