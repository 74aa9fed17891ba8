-- ===== src/Simulator/Events/Order.antt =====
-- The order in which `run` of clusterman/simulator/simulator.py handles the events.
use mathlib.Core.Nat as Unary
use mathlib.Core.List.{Perm, Mem}
use mathlib.Core.List as Lists
use mathlib.Core.List.Perm
use clusterman.Base.{
  ℕ, zero, suc, ◌≤◌, length, ◌≡◌, refl, sym, subst, ap, ◌∙◌, inl, inr, false, ltb, ◌≤ℤ◌, List, [],
  ◌∷◌, Option, none, some, Option-cases, arith,
}
use clusterman.Math.SortedDict.{SortedDict}
use clusterman.Simulator.Events.{
  Action, nothing, autoscaling, modify_cluster_size, instance_price_change, priority, Event,
  event_lt, Heap, Made, made_pop, IsDocumented, World, Environment, handle_at, handle_queue, finish,
  run,
}

native_of : Unary.ℕ → ℕ
native_of Unary.zero = 0
native_of (Unary.suc n) = suc (native_of n)

length-native : (xs : List Event) → length xs ≡ native_of (Lists.length xs)
unfolding native_of Lists.length
length-native [] = refl
length-native (x ∷ xs) = ap (λ (n : ℕ). suc n) (length-native xs)

length-perm : (xs ys : List Event) → Perm xs ys → length xs ≡ length ys
length-perm xs ys p = length-native xs ∙ ap native_of (Perm.length-eq p) ∙ sym (length-native ys)

-- The rank of what happens at one time: new nodes and the autoscaler come before changes of prices, and the marks
-- of the start and the end before both.
abbrev pub IsNotAfter : Action → Action → Type 0
IsNotAfter nothing b = Unit
IsNotAfter a nothing = ⊥
IsNotAfter (instance_price_change p) (instance_price_change q) = Unit
IsNotAfter (instance_price_change p) b = ⊥
IsNotAfter a b = Unit

-- No later event is earlier in time, and of those at one time none has a lower rank.
abbrev pub IsOrdered : List Event → Type 0
IsOrdered [] = Unit
IsOrdered (e ∷ es) =
    ((f : Event) → Mem f es → (e.time ≤ℤ f.time) × (e.time ≡ f.time → IsNotAfter e.action f.action))
    × IsOrdered es

rank-IsNotAfter : (a b : Action) → ltb (priority b) (priority a) ≡ false → IsNotAfter a b
unfolding priority
rank-IsNotAfter nothing b h = tt
rank-IsNotAfter autoscaling nothing h = ground arith
rank-IsNotAfter autoscaling autoscaling h = tt
rank-IsNotAfter autoscaling (modify_cluster_size t u) h = tt
rank-IsNotAfter autoscaling (instance_price_change p) h = tt
rank-IsNotAfter (modify_cluster_size t u) nothing h = ground arith
rank-IsNotAfter (modify_cluster_size t u) autoscaling h = tt
rank-IsNotAfter (modify_cluster_size t u) (modify_cluster_size v w) h = tt
rank-IsNotAfter (modify_cluster_size t u) (instance_price_change p) h = tt
rank-IsNotAfter (instance_price_change p) nothing h = ground arith
rank-IsNotAfter (instance_price_change p) autoscaling h = ground arith
rank-IsNotAfter (instance_price_change p) (modify_cluster_size t u) h = ground arith
rank-IsNotAfter (instance_price_change p) (instance_price_change q) h = tt

event_lt-ordered :
    (e f : Event)
    → event_lt f e ≡ false
    → (e.time ≤ℤ f.time) × (e.time ≡ f.time → IsNotAfter e.action f.action)
unfolding event_lt
event_lt-ordered e f h = (ground arith, λ s. rank-IsNotAfter e.action f.action (ground (arith, h)))

module _ (o : SortedDict) (env : Environment) where
  -- The events of a list in turn, until one fails
  pub handle_all : List Event → World → Option World
  handle_all [] w = some w
  handle_all (e ∷ es) w = elim (handle_at o env e w) [ none ↦ none | some w' ↦ handle_all es w' ]

  module _ (h : Heap) (documented : IsDocumented h) where
    open documented use {pop_empty, pop_perm, pop_least}

    no_events : (q : List Event) → length q ≤ 0 → Perm [] q
    no_events [] l = Perm.rfl
    no_events (x ∷ q) l = absurd (omega arith)

    queue_is_empty :
        (fuel : ℕ) (q : List Event) (w : World)
        → h.pop q ≡ none
        → handle_queue o env h fuel q w ≡ some w
    unfolding handle_queue
    queue_is_empty zero q w e = refl
    queue_is_empty (suc fuel) q w e = rw (e, handle_queue) refl

    handle_next :
        (fuel : ℕ) (e : Event) (q q' events : List Event) (w : World)
        → h.pop q ≡ some (e, q')
        → ((w' : World) → handle_queue o env h fuel q' w' ≡ handle_all events w')
        → handle_queue o env h (suc fuel) q w ≡ handle_all (e ∷ events) w
    unfolding handle_queue handle_all
    handle_next fuel e q q' events w p k = elim (Option-cases (handle_at o env e w)) [
      | inl f ↦ rw (p, handle_queue, handle_all, f) refl
      | inr (w', f) ↦ rw (p, handle_queue, handle_all, f) (k w')
    ]

    handle_queue-IsOrdered :
        (fuel : ℕ) (q : List Event)
        → Made h q
        → length q ≤ fuel
        → (events : List Event) × Perm events q
          × IsOrdered events
          × ((w : World) → handle_queue o env h fuel q w ≡ handle_all events w)
    unfolding handle_all handle_queue
    handle_queue-IsOrdered zero q m l = ([], no_events q l, tt, λ w. refl)
    handle_queue-IsOrdered (suc fuel) q m l = elim (Option-cases (h.pop q)) [
      | inl p ↦ (
        [],
        subst (λ x. Perm [] x) (sym (pop_empty q p)) Perm.rfl,
        tt,
        λ w. queue_is_empty (suc fuel) q w p,
      )
      | inr ((e, q'), p) ↦
          let r = pop_perm e q q' p in
          let (events, a, b, c) =
            handle_queue-IsOrdered fuel q' (made_pop m p)
              (omega (arith, length-perm q (e ∷ q') r)) in
          (
            e ∷ events,
            Perm.trans (Perm.cons e a) (Perm.symm r),
            (
              λ f k. event_lt-ordered e f (
                  pop_least e q q' m p f (
                    (Perm.mem_iff (Perm.trans (Perm.cons e a) (Perm.symm r))).0
                      (Lists.mem-cons_of_mem e k))),
              b,
            ),
            λ w. handle_next fuel e q q' events w p c,
          )
    ]

    -- A run handles the events of its queue each once and in order, until one fails; then it charges the instances
    -- that are left. The order is by time; at one time, marks come first, and changes of prices last.
    pub run-IsOrdered :
        (q : List Event)
        → Made h q
        → (events : List Event) × Perm events q
          × IsOrdered events
          × ((w : World) → run o env h q w ≡ finish o (handle_all events w))
    unfolding run
    run-IsOrdered q m =
        let (events, a, b, c) = handle_queue-IsOrdered (length q) q m (omega arith) in
        (events, a, b, λ w. ap (finish o) (c w))
