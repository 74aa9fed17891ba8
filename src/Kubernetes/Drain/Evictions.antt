-- ===== src/Kubernetes/Drain/Evictions.antt =====
-- The evictions of a drain in clusterman/kubernetes/kubernetes_cluster_connector.py.
use clusterman.Base.{
  String, ◌≡◌, refl, inl, inr, Bool, true, false, ◌&&◌, not, List, [], ◌∷◌, none, some, Bool-cases,
  any, keep, arith, ◌==◌, if◌then◌else◌,
}
use clusterman.Kubernetes.Defs.{Pod}
use clusterman.Kubernetes.Pods.{pod_belongs_to_daemonset}
use clusterman.Kubernetes.Drain.{
  Answer, ok, api_exception, other_exception, CoreApi, Result, not_found_status, cordon_node,
  evict_or_delete_pod, evict_or_delete_pods, concluded, drain_pods, drain_node,
}

-- The pod is on its way out, or is not there.
abbrev pub is_gone : Answer Unit → Bool
is_gone (ok u) = true
is_gone (api_exception status) = status == not_found_status
is_gone other_exception = false

abbrev pub is_other : Answer Unit → Bool
is_other (ok u) = false
is_other (api_exception status) = false
is_other other_exception = true

abbrev pub all_gone : List (Answer Unit) → Bool
all_gone [] = true
all_gone (a ∷ answers) = is_gone a && all_gone answers

-- What a loop returns that starts with `all_done` and gets the answers
abbrev pub summary : {W : Type 0} → (all_done : Bool) → List (Answer Unit) × W → Result × W
summary all_done (answers, w) =
    (if any is_other answers then none else some (all_done && all_gone answers), w)

-- The answers of the other pods after one answer, unless it is the last
abbrev pub followed_by :
    {W : Type 0} → Answer Unit → W → List (Answer Unit) × W → List (Answer Unit) × W
followed_by (ok u) w rest = (ok u ∷ rest.0, rest.1)
followed_by (api_exception status) w rest = (api_exception status ∷ rest.0, rest.1)
followed_by other_exception w rest = (other_exception ∷ [], w)

module _ {W : Type 0} (api : CoreApi W) (disable_eviction : Bool) where
  -- The answers for the pods in turn, up to an exception that is not of the API, and the cluster after
  abbrev pub answers : List Pod → W → List (Answer Unit) × W
  answers [] w = ([], w)
  answers (pod ∷ pods) w =
      let a = evict_or_delete_pod api disable_eviction pod w in
      followed_by a.0 a.1 (answers pods a.1)

  step-summary :
      (a : Answer Unit) (w : W) (all_done : Bool) (rest : List (Answer Unit) × W)
      (run : Bool → Result × W)
      → ((b : Bool) → run b ≡ summary b rest)
      → elim a [
        | ok u ↦ run all_done
        | api_exception status ↦ run (if status == not_found_status then all_done else false)
        | other_exception ↦ (none, w)
      ]
        ≡ summary all_done (followed_by a w rest)
  step-summary (ok u) w all_done rest run h = rw h
  step-summary (api_exception status) w all_done rest run h =
      elim (Bool-cases (status == not_found_status)) [
        | inl e ↦ rw (e, h)
        | inr e ↦ rw (e, h) (ground arith)
      ]
  step-summary other_exception w all_done rest run h = refl

  -- One pod after the other, whatever the API answers: none is left out because of another, the result
  -- is true when the API accepts each or does not find it, and only another exception ends the loop.
  pub evict_or_delete_pods-answers :
      (pods : List Pod) (all_done : Bool) (w : W)
      → evict_or_delete_pods api disable_eviction pods all_done w
        ≡ summary all_done (answers pods w)
  unfolding evict_or_delete_pods
  evict_or_delete_pods-answers [] all_done w = ground arith
  evict_or_delete_pods-answers (pod ∷ pods) all_done w =
      let a = evict_or_delete_pod api disable_eviction pod w in
      step-summary a.0 a.1 all_done (answers pods a.1)
        (λ b. evict_or_delete_pods api disable_eviction pods b a.1)
        (λ b. evict_or_delete_pods-answers pods b a.1)

  -- Whether the answer to the listing and the answers for its pods but those of daemonsets are all good
  abbrev pub is_drained : Answer (List Pod) × W → Bool
  is_drained (ok pods, w) =
      all_gone (answers (keep (λ pod. not (pod_belongs_to_daemonset pod)) pods) w).0
  is_drained (api_exception status, w) = false
  is_drained (other_exception, w) = false

  all_gone-others : (xs : List (Answer Unit)) → any is_other xs ≡ true → all_gone xs ≡ false
  all_gone-others [] h = ground arith
  all_gone-others (ok u ∷ xs) h = ground (arith, all_gone-others xs)
  all_gone-others (api_exception status ∷ xs) h = ground (arith, all_gone-others xs)
  all_gone-others (other_exception ∷ xs) h = refl

  summary-gone :
      (xs : List (Answer Unit)) (w : W) → (concluded api (summary true (xs, w))).0 ≡ all_gone xs
  summary-gone xs w = elim (Bool-cases (any is_other xs)) [
    | inl e ↦ rw (e, all_gone-others xs e)
    | inr e ↦ rw e
  ]

  drain_pods-is_drained :
      (a : Answer (List Pod) × W) → (drain_pods api disable_eviction a).0 ≡ is_drained a
  unfolding drain_pods
  drain_pods-is_drained (ok pods, w) =
      let others = keep (λ pod. not (pod_belongs_to_daemonset pod)) pods in
      rw (drain_pods, evict_or_delete_pods-answers others true w)
        (summary-gone (answers others w).0 (answers others w).1)
  drain_pods-is_drained (api_exception status, w) = refl
  drain_pods-is_drained (other_exception, w) = refl

  -- A drain is reported as done exactly when the pods of the node can be listed after the cordon, and
  -- each that is not of a daemonset is accepted for eviction or deletion or is not there; it does not
  -- matter whether the cordon has worked.
  pub drain_node-is_drained :
      (now name : String) (w : W)
      → (drain_node api now name disable_eviction w).0
        ≡ is_drained (api.list_pods_on name (cordon_node api now name w).1)
  unfolding drain_node
  drain_node-is_drained now name w =
      drain_pods-is_drained (api.list_pods_on name (cordon_node api now name w).1)
