-- ===== src/Simulator/Cluster/Ready.antt =====
-- The instances of the markets during `modify_size` of clusterman/simulator/simulated_aws_cluster.py: those of the
-- cluster and those that were added, which `modify_size` puts into the cluster at its end.
use mathlib.Core.List.{append_assoc}
use clusterman.Base.{
  ℕ, zero, suc, ◌+◌, ◌-◌, ◌≤◌, ◌<◌, ◌==◌, ltb, ◌≡◌, refl, sym, subst, ap, ◌∙◌, ◌⊎◌, inl, inr, Bool,
  true, false, List, [], ◌∷◌, ◌++◌, map, Option, none, some, In, In-append, Bool-cases,
  Option-cases, ℤ, arith, if◌then◌else◌,
}
use clusterman.Interfaces.{InstanceMarket}
use clusterman.Resources.{ClustermanResources}
use clusterman.Simulator.Markets.{market_eq, market_eq→eq, market_eq_refl}
use clusterman.Simulator.Instances.{Instance}
use clusterman.Simulator.Cluster.{
  get_instance, delete_instance, ids_of, market_size, take, drop, Change, new_instances,
  add_to_market, remove_ids, drop_ids, with_removed, remove_from_market, touched, modify_market,
  with_added,
}
use clusterman.Simulator.Cluster.Sizes.{
  Nodup, In-take, Nodup-take, IsConsistent, remove_ids_lem, get_instance-delete, ids_of-put,
  ids_of-touched, ids_of-drop_ids, kept_by, elsewhere, touched-IsConsistent,
}

abbrev by_id : List Instance → List (ℕ × Instance)
by_id is = map (λ i. (i.id, i)) is

map-append : (xs ys : List Instance) → by_id (xs ++ ys) ≡ by_id xs ++ by_id ys
map-append [] ys = refl
map-append (x ∷ xs) ys = ap (λ r. (x.id, x) ∷ r) (map-append xs ys)

-- The instance of the first list, or else that of the second
abbrev either : Option Instance → Option Instance → Option Instance
either none o = o
either (some i) o = some i

get_instance-append :
    (j : ℕ) (d e : List (ℕ × Instance))
    → get_instance j (d ++ e) ≡ either (get_instance j d) (get_instance j e)
unfolding get_instance
get_instance-append j [] e = refl
get_instance-append j ((k, i) ∷ d) e = elim (Bool-cases (k == j)) [
  | inl h ↦ rw h refl
  | inr h ↦ rw h (get_instance-append j d e)
]

append_same :
    (j : ℕ) (d d' e : List (ℕ × Instance))
    → get_instance j d' ≡ get_instance j d
    → get_instance j (d' ++ e) ≡ get_instance j (d ++ e)
append_same j d d' e h =
    get_instance-append j d' e
    ∙ ap (λ o. either o (get_instance j e)) h
    ∙ sym (get_instance-append j d e)

append_found :
    (j : ℕ) (d e : List (ℕ × Instance)) (i : Instance)
    → get_instance j d ≡ some i
    → get_instance j (d ++ e) ≡ some i
append_found j d e i h = get_instance-append j d e ∙ ap (λ o. either o (get_instance j e)) h

append_new :
    (j : ℕ) (d e : List (ℕ × Instance))
    → get_instance j d ≡ none
    → get_instance j (d ++ e) ≡ get_instance j e
append_new j d e h = get_instance-append j d e ∙ ap (λ o. either o (get_instance j e)) h

either-none : (o p : Option Instance) → either o p ≡ none → (o ≡ none) × (p ≡ none)
either-none none p h = (refl, h)
either-none (some i) p h = cc

-- When some are gone, what was absent stays absent.
still_absent :
    (j : ℕ) (d d' e : List (ℕ × Instance))
    → (get_instance j d ≡ none → get_instance j d' ≡ none)
    → get_instance j (d ++ e) ≡ none
    → get_instance j (d' ++ e) ≡ none
still_absent j d d' e f h =
    let (a, b) =
      either-none (get_instance j d) (get_instance j e) (sym (get_instance-append j d e) ∙ h) in
    append_new j d' e (f a) ∙ b

remove_ids-absent :
    (now : ℤ) (j : ℕ) (ids : List ℕ) (d d' : List (ℕ × Instance)) (removed removed' : List Instance)
    → remove_ids now ids d removed ≡ some (d', removed')
    → get_instance j d ≡ none
    → get_instance j d' ≡ none
unfolding remove_ids
remove_ids-absent now j [] d d' removed removed' e h =
    let same : d ≡ d' = cc in subst (λ x. get_instance j x ≡ none) same h
remove_ids-absent now j (id ∷ ids) d d' removed removed' e h =
    elim (Option-cases (get_instance id d)) [
      | inl f ↦ absurd (nothing (rw (remove_ids, f) at e))
      | inr (i, f) ↦
          remove_ids-absent now j ids (delete_instance id d) d'
            (removed ++ record i { end_time = some now } ∷ []) removed' (rw (remove_ids, f) at e)
            (get_instance-delete id j d ∙ gone (id == j) (get_instance j d) h)
    ]
  where
    nothing : {A : Type 0} {a : A} → ◌≡◌ {A = Option A} none (some a) → ⊥
    nothing h = cc

    gone : (b : Bool) (o : Option Instance) → o ≡ none → (if b then none else o) ≡ none
    gone true o h = refl
    gone false o h = h

Nodup-append :
    (xs ys : List ℕ) → Nodup xs → Nodup ys → ((x : ℕ) → In x xs → In x ys → ⊥) → Nodup (xs ++ ys)
Nodup-append [] ys p q f = q
Nodup-append (x ∷ xs) ys (n, p) q f = (
  λ h. elim (In-append x xs ys h) [ inl a ↦ n a | inr b ↦ f x (inl refl) b ],
  Nodup-append xs ys p q (λ y a. f y (inr a)),
)

In-drop : (a n : ℕ) (xs : List ℕ) → In a (drop n xs) → In a xs
In-drop a zero xs h = h
In-drop a (suc n) [] h = absurd h
In-drop a (suc n) (x ∷ xs) h = inr (In-drop a n xs h)

Nodup-drop : (n : ℕ) (xs : List ℕ) → Nodup xs → Nodup (drop n xs)
Nodup-drop zero xs h = h
Nodup-drop (suc n) [] h = tt
Nodup-drop (suc n) (x ∷ xs) h = Nodup-drop n xs h.1

drop_apart : (a n : ℕ) (xs : List ℕ) → Nodup xs → In a (drop n xs) → In a (take n xs) → ⊥
drop_apart a zero xs p h k = k
drop_apart a (suc n) [] p h k = k
drop_apart a (suc n) (x ∷ xs) (q, p) h (inl e) = q (subst (λ y. In y xs) e (In-drop a n xs h))
drop_apart a (suc n) (x ∷ xs) (q, p) h (inr k) = drop_apart a n xs p h k

module _ (res : InstanceMarket → ClustermanResources) (now : ℤ) (m : InstanceMarket) where
  new_ids : (next n : ℕ) → List ℕ
  new_ids next n = map (λ (i : Instance). i.id) (new_instances res now m next n)

  new_ids-range : (next n j : ℕ) → In j (new_ids next n) → (next ≤ j) × (j < next + n)
  unfolding new_ids new_instances
  new_ids-range next zero j h = absurd h
  new_ids-range next (suc n) j (inl e) = (omega (arith, e), omega (arith, e))
  new_ids-range next (suc n) j (inr h) =
      let (a, b) = new_ids-range (next + 1) n j h in (omega arith, omega arith)

  Nodup-new_ids : (next n : ℕ) → Nodup (new_ids next n)
  unfolding new_ids new_instances
  Nodup-new_ids next zero = tt
  Nodup-new_ids next (suc n) = (
    λ h. let (a, b) = new_ids-range (next + 1) n next h in omega arith,
    Nodup-new_ids (next + 1) n,
  )

  new_known :
      (next n j : ℕ)
      → In j (new_ids next n)
      → (i : Instance) × (get_instance j (by_id (new_instances res now m next n)) ≡ some i)
        × (i.market ≡ m)
  unfolding new_ids new_instances get_instance
  new_known next zero j h = absurd h
  new_known next (suc n) j h = elim (Bool-cases (next == j)) [
    | inl e ↦ (
      record {
        id = next;
        ip_address = next;
        market = m;
        start_time = now;
        join_time = none;
        end_time = none;
        resources = res m;
        bid_price = none;
      },
      rw e refl,
      refl,
    )
    | inr e ↦
        let later : In j (new_ids (next + 1) n) = not_first e h in
        let (i, p, q) = new_known (next + 1) n j later in (i, rw e p, q)
  ]
    where
      not_first :
          next == j ≡ false → (j ≡ next) ⊎ In j (new_ids (next + 1) n) → In j (new_ids (next + 1) n)
      not_first e (inl s) = absurd (omega (arith, s, differ e))
        where
          differ : next == j ≡ false → next ≡ j → ⊥
          differ e s = ground arith
      not_first e (inr h) = h

  new_absent :
      (next n j : ℕ) → next + n ≤ j → get_instance j (by_id (new_instances res now m next n)) ≡ none
  unfolding new_instances get_instance
  new_absent next zero j h = refl
  new_absent next (suc n) j h =
      let other : next == j ≡ false = ground arith in
      rw other (new_absent (next + 1) n j (omega arith))

-- With the added instances in it, the cluster has for each market the instances of its ids, and none with an id
-- that is still to be given.
pub record IsReady (r : Change) : Type 0 where
  pub consistent : (m : InstanceMarket) → IsConsistent m (with_added r).cluster
  pub fresh : (j : ℕ) → r.next_id ≤ j → get_instance j (with_added r).cluster.instances ≡ none

touched-IsReady : (k : InstanceMarket) (r : Change) → IsReady r → IsReady (touched k r)
unfolding touched with_added
touched-IsReady k r h = record {
  consistent = λ m.
      kept_by m (with_added r).cluster (with_added (touched k r)).cluster (ids_of-touched k m r)
        (λ id i. refl) (h.consistent m);
  fresh = h.fresh;
}

some_change : (r s : Change) → some r ≡ some s → r ≡ s
some_change r s h = cc

module _ (res : InstanceMarket → ClustermanResources) (now : ℤ) (k : InstanceMarket) (n : ℕ)
    (t : Change) (h : IsReady t) where
  grown : Change
  grown = add_to_market res now k n t

  old_instances : List (ℕ × Instance)
  old_instances = (with_added t).cluster.instances

  new_by_id : List (ℕ × Instance)
  new_by_id = by_id (new_instances res now k t.next_id n)

  grown-instances : (with_added grown).cluster.instances ≡ old_instances ++ new_by_id
  unfolding grown old_instances new_by_id add_to_market with_added
  grown-instances =
      ap (λ xs. t.cluster.instances ++ xs)
        (map-append t.added (new_instances res now k t.next_id n))
      ∙ sym (
          append_assoc t.cluster.instances (by_id t.added)
            (by_id (new_instances res now k t.next_id n)))

  grown-ids :
      (m : InstanceMarket)
      → ids_of m (with_added grown).cluster.instance_ids_by_market ≡ (
          if market_eq k m
          then ids_of k t.cluster.instance_ids_by_market ++ new_ids res now k t.next_id n
          else ids_of m t.cluster.instance_ids_by_market)
  unfolding grown add_to_market with_added new_ids
  grown-ids m =
      ids_of-put k m
        (ids_of k t.cluster.instance_ids_by_market
          ++ map (λ (i : Instance). i.id) (new_instances res now k t.next_id n))
        t.cluster.instance_ids_by_market

  -- What was there is there.
  grown-found :
      (j : ℕ) (i : Instance)
      → get_instance j old_instances ≡ some i
      → get_instance j (with_added grown).cluster.instances ≡ some i
  grown-found j i f =
      ap (λ d. get_instance j d) grown-instances ∙ append_found j old_instances new_by_id i f

  grown-IsConsistent : (m : InstanceMarket) → IsConsistent m (with_added grown).cluster
  unfolding old_instances new_by_id
  grown-IsConsistent m = elim (Bool-cases (market_eq k m)) [
    | inr e ↦
        let same = grown-ids m ∙ rw e refl in
        let c = h.consistent m in
        record {
          distinct = subst Nodup (sym same) (shut m c).0;
          known = λ id i.
              let (v, p, q) = (shut m c).1 id (subst (In id) same i) in (v, grown-found id v p, q);
        }
    | inl e ↦ subst (λ x. IsConsistent x (with_added grown).cluster) (market_eq→eq k m e) here
  ]
    where
      shut :
          (m : InstanceMarket)
          → IsConsistent m (with_added t).cluster
          → Nodup (ids_of m t.cluster.instance_ids_by_market)
            × ((id : ℕ)
                → In id (ids_of m t.cluster.instance_ids_by_market)
                → (i : Instance) × (get_instance id old_instances ≡ some i) × (i.market ≡ m))
      shut m c = unfold with_added in (c.distinct, c.known)

      old : List ℕ
      old = ids_of k t.cluster.instance_ids_by_market

      is_new :
          (id : ℕ) → In id (new_ids res now k t.next_id n) → get_instance id old_instances ≡ none
      is_new id i = h.fresh id (new_ids-range res now k t.next_id n id i).0

      nothing : {A : Type 0} {a : A} {o : Option A} → o ≡ none → o ≡ some a → ⊥
      nothing p q = cc

      here : IsConsistent k (with_added grown).cluster
      here =
          let same : ids_of k (with_added grown).cluster.instance_ids_by_market
              ≡ old ++ new_ids res now k t.next_id n =
            grown-ids k ∙ rw (market_eq_refl k) refl in
          let (d, f) = shut k (h.consistent k) in
          record {
            distinct = subst Nodup (sym same) (
                Nodup-append old (new_ids res now k t.next_id n) d
                  (Nodup-new_ids res now k t.next_id n)
                  (λ x a b. let (v, p, q) = f x a in nothing (is_new x b) p));
            known = λ id i.
                elim (In-append id old (new_ids res now k t.next_id n) (subst (In id) same i)) [
                  | inl a ↦ let (v, p, q) = f id a in (v, grown-found id v p, q)
                  | inr b ↦
                      let (v, p, q) = new_known res now k t.next_id n id b in
                      (
                        v,
                        ap (λ x. get_instance id x) grown-instances
                            ∙ append_new id old_instances new_by_id (is_new id b)
                            ∙ p,
                        q,
                      )
                ];
          }

  grown-IsReady : IsReady grown
  unfolding old_instances new_by_id
  grown-IsReady = record {
    consistent = grown-IsConsistent;
    fresh = λ j l.
        let l' : t.next_id + n ≤ j = later j l in
        ap (λ x. get_instance j x) grown-instances
        ∙ append_new j old_instances new_by_id (h.fresh j (omega arith))
        ∙ new_absent res now k t.next_id n j l';
  }
    where
      later : (j : ℕ) → grown.next_id ≤ j → t.next_id + n ≤ j
      later j l = unfold grown in unfold add_to_market in l

-- The removal of the first ids of a market
module _ (now : ℤ) (k : InstanceMarket) (n : ℕ) (t r : Change) (h : IsReady t)
    (c : IsConsistent k t.cluster) (e : remove_from_market now k n t ≡ some r) where
  removed-IsReady : IsReady r
  unfolding remove_from_market with_added
  removed-IsReady =
      let ids = ids_of k t.cluster.instance_ids_by_market in
      let (d', removed', f, g) =
        remove_ids_lem now (take n ids) t.cluster.instances t.removed (Nodup-take n ids c.distinct)
          (λ id m. let (i, p, q) = c.known id (In-take id n ids m) in (i, p)) in
      let r' : Change = record t {
        cluster = record t.cluster {
          instances = d';
          instance_ids_by_market = drop_ids k n t.cluster.instance_ids_by_market;
        };
        removed = removed';
      } in
      let same : r' ≡ r = some_change r' r (sym (ap (with_removed k n t) f) ∙ e) in
      subst IsReady same (shrunk d' removed' f g)
    where
      kept_ids : (m : InstanceMarket) → List ℕ
      kept_ids m = ids_of m (drop_ids k n t.cluster.instance_ids_by_market)

      shrunk :
          (d' : List (ℕ × Instance)) (removed' : List Instance)
          → remove_ids now
              (take n (ids_of k t.cluster.instance_ids_by_market))
              t.cluster.instances
              t.removed
            ≡ some (d', removed')
          → ((j : ℕ)
              → ¬ In j (take n (ids_of k t.cluster.instance_ids_by_market))
              → get_instance j d' ≡ get_instance j t.cluster.instances)
          → IsReady (record t {
            cluster = record t.cluster {
              instances = d';
              instance_ids_by_market = drop_ids k n t.cluster.instance_ids_by_market;
            };
            removed = removed';
          })
      shrunk d' removed' f g = record {
        consistent = λ m. elim (Bool-cases (market_eq k m)) [
          | inr e ↦
              kept_by m (with_added t).cluster
                (with_added (record t {
                  cluster = record t.cluster {
                    instances = d';
                    instance_ids_by_market = drop_ids k n t.cluster.instance_ids_by_market;
                  };
                  removed = removed';
                })).cluster
                (ids_of-drop_ids k m n t.cluster.instance_ids_by_market ∙ rw e refl)
                (λ id i. append_same id t.cluster.instances d' (by_id t.added) (
                  g id (λ i'.
                    elsewhere k m (with_added t).cluster id e (h.consistent k) (h.consistent m)
                      (In-take id n (ids_of k t.cluster.instance_ids_by_market) i') i)))
                (h.consistent m)
          | inl e ↦
              subst
                (λ x.
                  IsConsistent x
                    (with_added (record t {
                      cluster = record t.cluster {
                        instances = d';
                        instance_ids_by_market = drop_ids k n t.cluster.instance_ids_by_market;
                      };
                      removed = removed';
                    })).cluster)
                (market_eq→eq k m e)
                (record {
                  distinct = subst Nodup (sym own_ids) (
                      Nodup-drop n (ids_of k t.cluster.instance_ids_by_market)
                        (h.consistent k).distinct);
                  known = λ id i.
                      let i' = subst (In id) own_ids i in
                      let ids = ids_of k t.cluster.instance_ids_by_market in
                      let (v, p, q) = (h.consistent k).known id (In-drop id n ids i') in
                      (
                        v,
                        append_same id t.cluster.instances d' (by_id t.added)
                              (g id (drop_apart id n ids (h.consistent k).distinct i'))
                            ∙ p,
                        q,
                      );
                })
        ];
        fresh = λ j l.
            still_absent j t.cluster.instances d' (by_id t.added)
              (remove_ids-absent now j (take n (ids_of k t.cluster.instance_ids_by_market))
                t.cluster.instances d' t.removed removed' f)
              (h.fresh j l);
      }
        where
          own_ids : kept_ids k ≡ drop n (ids_of k t.cluster.instance_ids_by_market)
          own_ids =
              ids_of-drop_ids k k n t.cluster.instance_ids_by_market ∙ rw (market_eq_refl k) refl

-- A round of the loop keeps the cluster ready.
pub modify_market-IsReady :
    (res : InstanceMarket → ClustermanResources) (now : ℤ) (k : InstanceMarket) (num : ℕ)
    (r r' : Change)
    → IsConsistent k r.cluster
    → modify_market res now k num r ≡ some r'
    → IsReady r
    → IsReady r'
unfolding modify_market
modify_market-IsReady res now k num r r' c e h =
    let size = market_size k r.cluster in
    let t = touched k r in
    let ht = touched-IsReady k r h in
    elim (Bool-cases (ltb size num)) [
      | inl f ↦
          subst IsReady
            (some_change (add_to_market res now k (num - size) t) r' (rw (modify_market, f) at e))
            (unfold grown in grown-IsReady res now k (num - size) t ht)
      | inr f ↦ elim (Bool-cases (ltb num size)) [
        | inl g ↦
            removed-IsReady now k (size - num) t r' ht (touched-IsConsistent k k r c)
              (rw (modify_market, f, g) at e)
        | inr g ↦ subst IsReady (some_change t r' (rw (modify_market, f, g) at e)) ht
      ]
    ]
