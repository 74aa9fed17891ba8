-- ===== src/Migration/Worker/Laws.antt =====
-- What `_drain_node_selection` (clusterman/migration/worker.py) has drained when it ends.
use clusterman.Base.{
  ℕ, zero, suc, ◌≤◌, ◌≡◌, refl, sym, subst, ap, ◌∙◌, inl, inr, Bool, true, false, List, [], ◌∷◌,
  ◌++◌, keep, length, In, In-keep, keep-In, In-sorted, sorted-In, sorted, arith,
}
use clusterman.Interfaces.{ClusterNodeMetadata}
use clusterman.PoolManager.Defs.{Result, ok, err}
use clusterman.Migration.Worker.{
  Reading, Precedence, precedence_key, split, Drained, drain_chunks, drain_node_selection,
  monitor_pool_health,
}

append_assoc : {A : Type 0} (xs ys zs : List A) → (xs ++ ys) ++ zs ≡ xs ++ (ys ++ zs)
append_assoc [] ys zs = refl
append_assoc (x ∷ xs) ys zs = ap (◌∷◌ x) (append_assoc xs ys zs)

append-nil : {A : Type 0} (xs : List A) → xs ++ [] ≡ xs
append-nil [] = refl
append-nil (x ∷ xs) = ap (◌∷◌ x) (append-nil xs)

split-append : {A : Type 0} (n : ℕ) (xs : List A) → (split n xs).0 ++ (split n xs).1 ≡ xs
unfolding split
split-append zero xs = refl
split-append (suc n) [] = refl
split-append (suc n) (x ∷ xs) = ap (◌∷◌ x) (split-append n xs)

length-split : {A : Type 0} (n : ℕ) (xs : List A) → length (split n xs).1 ≤ length xs
unfolding split
length-split zero xs = omega arith
length-split (suc n) [] = omega arith
length-split (suc n) (x ∷ xs) = omega (arith, length-split n xs)

In-append_left : {A : Type 0} (a : A) (xs ys : List A) → In a xs → In a (xs ++ ys)
In-append_left a [] ys i = absurd i
In-append_left a (x ∷ xs) ys (inl e) = inl e
In-append_left a (x ∷ xs) ys (inr i) = inr (In-append_left a xs ys i)

-- The nodes are a first part of the selection, and all of it where the value is true.
IsFirstPart : List ClusterNodeMetadata → Drained → Type 0
IsFirstPart selected d =
    (rest : List ClusterNodeMetadata) × (d.submitted ++ rest ≡ selected)
    × (d.ended ≡ ok true → rest ≡ [])

-- One round, whatever the monitoring gives
round-IsFirstPart :
    (front back selected : List ClusterNodeMetadata) (rest : Drained) (o : Result Bool)
    → front ++ back ≡ selected
    → IsFirstPart back rest
    → IsFirstPart selected (elim o as (λ x. Drained) [
      | err e ↦ record { submitted = front; ended = err e }
      | ok false ↦ record { submitted = front; ended = ok false }
      | ok true ↦ record { submitted = front ++ rest.submitted; ended = rest.ended }
    ])
unfolding IsFirstPart
round-IsFirstPart front back selected rest (err e) s r = (back, s, λ x. ground (arith, x))
round-IsFirstPart front back selected rest (ok false) s r = (back, s, λ x. ground (arith, x))
round-IsFirstPart front back selected rest (ok true) s (left, e, f) =
    (left, append_assoc front rest.submitted left ∙ ap (λ b. front ++ b) e ∙ s, f)

drain_chunks-IsFirstPart :
    (fuel chunk : ℕ) (ignore : Bool) (readings : ℕ → List Reading)
    (selected : List ClusterNodeMetadata)
    → 1 ≤ chunk
    → length selected ≤ fuel
    → IsFirstPart selected (drain_chunks fuel chunk ignore readings selected)
unfolding drain_chunks IsFirstPart
drain_chunks-IsFirstPart zero chunk ignore readings [] p q = ([], refl, λ x. refl)
drain_chunks-IsFirstPart zero chunk ignore readings (n ∷ ns) p q = absurd (omega (arith, q))
drain_chunks-IsFirstPart (suc fuel) chunk ignore readings [] p q = ([], refl, λ x. refl)
drain_chunks-IsFirstPart (suc fuel) zero ignore readings (n ∷ ns) p q = absurd (omega (arith, p))
drain_chunks-IsFirstPart (suc fuel) (suc c) ignore readings (n ∷ ns) p q =
    let parts = split (suc c) (n ∷ ns) in
    round-IsFirstPart parts.0 parts.1 (n ∷ ns) (drain_chunks fuel (suc c) ignore readings parts.1)
      (monitor_pool_health parts.0 ignore (readings fuel)) (split-append (suc c) (n ∷ ns))
      (drain_chunks-IsFirstPart fuel (suc c) ignore readings parts.1 p (shorter c n ns q))
  where
    shorter :
        (c : ℕ) (n : ClusterNodeMetadata) (ns : List ClusterNodeMetadata)
        → length (n ∷ ns) ≤ suc fuel
        → length (split (suc c) (n ∷ ns)).1 ≤ fuel
    shorter c n ns q = omega (arith, q, length-split c ns)

module _ (selector : ClusterNodeMetadata → Bool) (precedence : Precedence) (chunk : ℕ)
    (ignore : Bool) (readings : ℕ → List Reading) (nodes : List ClusterNodeMetadata) where
  selection : List ClusterNodeMetadata
  selection = sorted (λ n. precedence_key precedence n ∷ []) (keep selector nodes)

  drained : Drained
  drained = drain_node_selection selector precedence chunk ignore readings nodes

  drained-IsFirstPart : 1 ≤ chunk → IsFirstPart selection drained
  unfolding drained drain_node_selection selection
  drained-IsFirstPart p =
      let selected = sorted (λ n. precedence_key precedence n ∷ []) (keep selector nodes) in
      drain_chunks-IsFirstPart (length selected) chunk ignore readings selected p (omega arith)

  -- Only nodes of the pool that the selector accepts are sent to be drained, whenever the chunks are
  -- not empty.
  pub drain_node_selection-selected :
      (n : ClusterNodeMetadata)
      → 1 ≤ chunk
      → In n (drain_node_selection selector precedence chunk ignore readings nodes).submitted
      → In n nodes × (selector n ≡ true)
  unfolding IsFirstPart drained selection
  drain_node_selection-selected n p i =
      let (rest, e, f) = drained-IsFirstPart p in
      In-keep selector n nodes (
        In-sorted (λ n. precedence_key precedence n ∷ []) n (keep selector nodes)
          (subst (In n) e (In-append_left n drained.submitted rest i)))

  -- Where the value is true and the chunks are not empty, every node of the pool that the selector
  -- accepts was sent to be drained.
  pub drain_node_selection-complete :
      (n : ClusterNodeMetadata)
      → 1 ≤ chunk
      → (drain_node_selection selector precedence chunk ignore readings nodes).ended ≡ ok true
      → In n nodes
      → selector n ≡ true
      → In n (drain_node_selection selector precedence chunk ignore readings nodes).submitted
  unfolding IsFirstPart drained selection
  drain_node_selection-complete n p t i s =
      let (rest, e, f) = drained-IsFirstPart p in
      let all_sent : selection ≡ drained.submitted =
        sym e ∙ ap (λ r. drained.submitted ++ r) (f t) ∙ append-nil drained.submitted in
      subst (In n) all_sent (
        sorted-In (λ n. precedence_key precedence n ∷ []) n (keep selector nodes)
          (keep-In selector n nodes i s))
