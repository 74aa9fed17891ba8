-- ===== src/Simulator/Cluster/Resize.antt =====
-- The whole of `modify_size` of clusterman/simulator/simulated_aws_cluster.py.
use clusterman.Base.{
  ℕ, ◌≤◌, length, ◌≡◌, ◌≢◌, refl, sym, subst, ap, ◌∙◌, inl, inr, Bool, true, false, List, [], ◌∷◌,
  ◌++◌, Option, none, some, Bool-cases, Option-cases, ℤ, or_else, arith, if◌then◌else◌,
}
use clusterman.Interfaces.{InstanceMarket}
use clusterman.Resources.{ClustermanResources}
use clusterman.Simulator.Markets.{MarketDict, market_eq, get_market, market_eq→eq, market_eq_refl}
use clusterman.Simulator.Instances.{Instance}
use clusterman.Simulator.Cluster.{
  Cluster, get_instance, ids_of, market_size, Change, is_given, emptied, modify_markets, with_added,
  modify_size,
}
use clusterman.Simulator.Cluster.Sizes.{IsConsistent, modify_market-IsMoved}
use clusterman.Simulator.Cluster.Ready.{IsReady, modify_market-IsReady}

-- No market is there twice.
abbrev pub HasDistinct : MarketDict ℕ → Type 0
HasDistinct [] = Unit
HasDistinct ((m, n) ∷ d) = (get_market m d ≡ none) × HasDistinct d

moved_size :
    (b : Bool) (num size : ℕ) (o : Option ℕ)
    → (b ≡ true → o ≡ none)
    → or_else o (if b then num else size) ≡ or_else (if b then some num else o) size
moved_size true num size o h = rw (h refl) refl
moved_size false num size o h = refl

first : (k : InstanceMarket) (num : ℕ) (d : MarketDict ℕ) → get_market k ((k, num) ∷ d) ≢ none
unfolding get_market
first k num d h = ground (arith, market_eq_refl k)

later :
    (k m : InstanceMarket) (num : ℕ) (d : MarketDict ℕ)
    → get_market m d ≢ none
    → get_market m ((k, num) ∷ d) ≢ none
unfolding get_market
later k m num d h e = elim (Bool-cases (market_eq k m)) [
  | inl b ↦ ground arith
  | inr b ↦ h (rw (b, get_market) at e)
]

not_first :
    (k m : InstanceMarket) (d : MarketDict ℕ)
    → get_market k d ≡ none
    → get_market m d ≢ none
    → market_eq k m ≡ false
not_first k m d p h = elim (Bool-cases (market_eq k m)) [
  | inl b ↦ absurd (h (subst (λ x. get_market x d ≡ none) (market_eq→eq k m b) p))
  | inr b ↦ b
]

modify_markets-sizes :
    (res : InstanceMarket → ClustermanResources) (now : ℤ) (items : MarketDict ℕ) (r : Change)
    → HasDistinct items
    → ((m : InstanceMarket) → get_market m items ≢ none → IsConsistent m r.cluster)
    → IsReady r
    → (r' : Change) × (modify_markets res now items r ≡ some r')
      × ((m : InstanceMarket)
          → market_size m r'.cluster ≡ or_else (get_market m items) (market_size m r.cluster))
      × IsReady r'
unfolding modify_markets get_market
modify_markets-sizes res now [] r d c h = (r, refl, λ m. refl, h)
modify_markets-sizes res now ((k, num) ∷ items) r (p, q) c ready =
    let (r', e, v) = modify_market-IsMoved res now k num r (c k (first k num items)) in
    let (r'', f, g, ready') =
      modify_markets-sizes res now items r' q
        (λ m h. v.kept m (not_first k m items p h) (c m (later k m num items h)))
        (modify_market-IsReady res now k num r r' (c k (first k num items)) e ready) in
    (
      r'',
      rw (e, modify_markets) f,
      λ m.
          g m
          ∙ ap (λ (n : ℕ). or_else (get_market m items) n) (v.sizes m)
          ∙ moved_size (market_eq k m) num (market_size m r.cluster) (get_market m items)
              (λ b. subst (λ x. get_market x items ≡ none) (market_eq→eq k m b) p),
      ready',
    )

get_market-append :
    (m : InstanceMarket) (xs ys : MarketDict ℕ)
    → get_market m (xs ++ ys)
      ≡ elim (get_market m xs) as (λ _. Option ℕ) [ none ↦ get_market m ys | some n ↦ some n ]
unfolding get_market
get_market-append m [] ys = refl
get_market-append m ((j, n) ∷ xs) ys = elim (Bool-cases (market_eq j m)) [
  | inl e ↦ rw e refl
  | inr e ↦ rw e (get_market-append m xs ys)
]

absent :
    (j m : InstanceMarket) (given : MarketDict ℕ)
    → market_eq j m ≡ true
    → get_market m given ≡ none
    → is_given given j ≡ false
unfolding is_given
absent j m given b h = rw (market_eq→eq j m b, is_given, h) refl

emptied-size :
    (m : InstanceMarket) (given : MarketDict ℕ) (d : MarketDict (List ℕ))
    → get_market m given ≡ none
    → or_else (get_market m (emptied given d)) (length (ids_of m d)) ≡ 0
unfolding get_market emptied is_given ids_of
emptied-size m given [] h = refl
emptied-size m given ((j, ids) ∷ d) h = elim (Bool-cases (market_eq j m)) [
  | inl b ↦ rw (absent j m given b h, get_market, b) refl
  | inr b ↦ elim (Bool-cases (is_given given j)) [
    | inl c ↦ rw (c, b) (emptied-size m given d h)
    | inr c ↦ rw (c, get_market, b) (emptied-size m given d h)
  ]
]

total_lookup :
    (m : InstanceMarket) (given : MarketDict ℕ) (d : MarketDict (List ℕ))
    → or_else (get_market m (given ++ emptied given d)) (length (ids_of m d))
      ≡ or_else (get_market m given) 0
total_lookup m given d = elim (Option-cases (get_market m given)) [
  | inl e ↦ rw (get_market-append m given (emptied given d), e) (emptied-size m given d e)
  | inr (n, e) ↦ rw (get_market-append m given (emptied given d), e) refl
]

sizes_total :
    (m : InstanceMarket) (given : MarketDict ℕ) (c : Cluster)
    → or_else (get_market m (given ++ emptied given c.instance_ids_by_market)) (market_size m c)
      ≡ or_else (get_market m given) 0
unfolding market_size
sizes_total m given c = total_lookup m given c.instance_ids_by_market

size-with_added :
    (m : InstanceMarket) (r : Change)
    → market_size m (with_added r).cluster ≡ market_size m r.cluster
unfolding with_added market_size
size-with_added m r = refl

nothing_added : (d : List (ℕ × Instance)) → d ++ [] ≡ d
nothing_added [] = refl
nothing_added (x ∷ d) = ap (λ e. x ∷ e) (nothing_added d)

start-IsReady :
    (c : Cluster) (next_id : ℕ)
    → ((m : InstanceMarket) → IsConsistent m c)
    → ((j : ℕ) → next_id ≤ j → get_instance j c.instances ≡ none)
    → IsReady (record { cluster = c; next_id = next_id; added = []; removed = [] })
unfolding with_added
start-IsReady c next_id h fresh = record {
  consistent = λ m.
      subst (λ d. IsConsistent m (record c { instances = d })) (sym (nothing_added c.instances))
        (h m);
  fresh = λ j l. ap (λ d. get_instance j d) (nothing_added c.instances) ∙ fresh j l;
}

-- A change of size misses no key. After it each market has as many ids as are asked for, and none where nothing is
-- asked for, and its ids are those of different instances of the market that are in the cluster. This was so of the
-- ids before, no market is given twice, and the ids to be given to new instances are not taken.
pub modify_size-sizes :
    (res : InstanceMarket → ClustermanResources) (now : ℤ) (c : Cluster) (next_id : ℕ)
    (given : MarketDict ℕ)
    → ((m : InstanceMarket) → IsConsistent m c)
    → ((j : ℕ) → next_id ≤ j → get_instance j c.instances ≡ none)
    → HasDistinct (given ++ emptied given c.instance_ids_by_market)
    → (r : Change) × (modify_size res now c next_id given ≡ some r)
      × ((m : InstanceMarket)
          → (market_size m r.cluster ≡ or_else (get_market m given) 0) × IsConsistent m r.cluster)
unfolding modify_size
modify_size-sizes res now c next_id given h fresh d =
    let r : Change = record { cluster = c; next_id = next_id; added = []; removed = [] } in
    let (r', e, f, ready) =
      modify_markets-sizes res now (given ++ emptied given c.instance_ids_by_market) r d
        (λ m k. h m) (start-IsReady c next_id h fresh) in
    (
      with_added r',
      rw (modify_size, e) refl,
      λ m. (size-with_added m r' ∙ f m ∙ sizes_total m given c, ready.consistent m),
    )
