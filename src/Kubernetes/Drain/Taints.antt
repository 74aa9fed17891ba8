-- ===== src/Kubernetes/Drain/Taints.antt =====
-- The cordon and the uncordon of clusterman/kubernetes/kubernetes_cluster_connector.py.
use clusterman.Base.{
  String, ◌≡◌, refl, sym, ◌∙◌, ap, Bool, true, false, not, List, [], ◌∷◌, ◌++◌, Option, none, some,
  any, keep, arith, str_eq_refl,
}
use clusterman.Kubernetes.Defs.{Taint, Node}
use clusterman.Kubernetes.Drain.{
  Answer, ok, api_exception, other_exception, CoreApi, termination_taint_key, is_termination_taint,
  is_node_draining, other_taints, termination_taint, without_termination, patched, change_taints,
  cordon_node, uncordon_node,
}

-- What the API documents of nodes: a request to read changes nothing, and after a patch that is accepted
-- the node has the taints of the patch and is otherwise the same.
pub record IsDocumented {W : Type 0} (api : CoreApi W) : Type 0 where
  pub reads_only : (name : String) (w : W) → (api.read_node name w).1 ≡ w
  pub patches :
      (name : String) (ts : List Taint) (w w' : W) (node : Node)
      → (api.read_node name w).0 ≡ ok (some node)
      → api.patch_taints name ts w ≡ (ok tt, w')
      → (api.read_node name w').0 ≡ ok (some (record node { taints = some ts }))

module _ {A : Type 0} (p : A → Bool) where
  any-last : (xs : List A) (a : A) → p a ≡ true → any p (xs ++ (a ∷ [])) ≡ true
  any-last [] a h = ground arith
  any-last (x ∷ xs) a h = ground (arith, any-last xs a)

  keep-not_last :
      (xs : List A) (a : A)
      → p a ≡ true
      → keep (λ x. not (p x)) (keep (λ x. not (p x)) xs ++ (a ∷ [])) ≡ keep (λ x. not (p x)) xs
  keep-not_last [] a h = ground arith
  keep-not_last (x ∷ xs) a h = ground (arith, keep-not_last xs a)

  keep-not_again :
      (xs : List A) → keep (λ x. not (p x)) (keep (λ x. not (p x)) xs) ≡ keep (λ x. not (p x)) xs
  keep-not_again [] = refl
  keep-not_again (x ∷ xs) = ground (arith, keep-not_again xs)

  any-keep-not : (xs : List A) → any p (keep (λ x. not (p x)) xs) ≡ false
  any-keep-not [] = refl
  any-keep-not (x ∷ xs) = ground (arith, any-keep-not xs)

-- The taints after a cordon and after an uncordon
cordoned : (now : String) → Node → Node
cordoned now node = record node {
  taints = some (other_taints node ++ (termination_taint now ∷ []));
}

uncordoned : Node → Node
uncordoned node = record node { taints = some (other_taints node) }

cordoned-draining : (now : String) (node : Node) → is_node_draining (cordoned now node) ≡ true
unfolding cordoned is_node_draining termination_taint
cordoned-draining now node =
    any-last is_termination_taint (other_taints node) (termination_taint now)
      (str_eq_refl termination_taint_key)

without-last :
    (ts : Option (List Taint)) (t : Taint)
    → is_termination_taint t ≡ true
    → keep (λ x. not (is_termination_taint x)) (without_termination ts ++ (t ∷ []))
      ≡ without_termination ts
without-last none t h = keep-not_last is_termination_taint [] t h
without-last (some ts) t h = keep-not_last is_termination_taint ts t h

without-again :
    (ts : Option (List Taint))
    → keep (λ x. not (is_termination_taint x)) (without_termination ts) ≡ without_termination ts
without-again none = refl
without-again (some ts) = keep-not_again is_termination_taint ts

any-without : (ts : Option (List Taint)) → any is_termination_taint (without_termination ts) ≡ false
any-without none = refl
any-without (some ts) = any-keep-not is_termination_taint ts

cordoned-others :
    (now : String) (node : Node) → other_taints (cordoned now node) ≡ other_taints node
unfolding cordoned other_taints termination_taint
cordoned-others now node =
    without-last node.taints (termination_taint now) (str_eq_refl termination_taint_key)

uncordoned-draining : (node : Node) → is_node_draining (uncordoned node) ≡ false
unfolding uncordoned is_node_draining other_taints
uncordoned-draining node = any-without node.taints

uncordoned-others : (node : Node) → other_taints (uncordoned node) ≡ other_taints node
unfolding uncordoned other_taints
uncordoned-others node = without-again node.taints

module _ {W : Type 0} (api : CoreApi W) (documented : IsDocumented api) where
  patched-ok : (a : Answer Unit × W) (w' : W) → patched api a ≡ (some true, w') → a ≡ (ok tt, w')
  unfolding patched
  patched-ok (ok tt, w) w' h = ground arith
  patched-ok (api_exception status, w) w' h = ground arith
  patched-ok (other_exception, w) w' h = ground arith

  change_taints-changed :
      (change : Node → List Taint) (name : String) (w w' : W) (a : Answer (Option Node) × W)
      → api.read_node name w ≡ a
      → change_taints api change name a ≡ (some true, w')
      → (node : Node) × ((api.read_node name w).0 ≡ ok (some node))
        × ((api.read_node name w').0 ≡ ok (some (record node { taints = some (change node) })))
  unfolding change_taints
  change_taints-changed change name w w' (ok none, v) e h = ground arith
  change_taints-changed change name w w' (ok (some node), v) e h =
      let same = sym (ap (λ a. a.1) e) ∙ documented.reads_only name w in
      (
        node,
        ap (λ a. a.0) e,
        documented.patches name (change node) w w' node (ap (λ a. a.0) e) (
            ap (λ u. api.patch_taints name (change node) u) (sym same)
            ∙ patched-ok (api.patch_taints name (change node) v) w' h),
      )
  change_taints-changed change name w w' (api_exception status, v) e h = ground arith
  change_taints-changed change name w w' (other_exception, v) e h = ground arith

  -- What a cordon that returns true has done: the node is draining, and its other taints are those
  -- it had.
  pub cordon_node-draining :
      (now name : String) (w w' : W)
      → cordon_node api now name w ≡ (some true, w')
      → (node node' : Node) × ((api.read_node name w).0 ≡ ok (some node))
        × ((api.read_node name w').0 ≡ ok (some node'))
        × (is_node_draining node' ≡ true)
        × (other_taints node' ≡ other_taints node)
  unfolding cordon_node cordoned
  cordon_node-draining now name w w' h =
      let (node, before, after) =
        change_taints-changed (λ n. other_taints n ++ (termination_taint now ∷ [])) name w w'
          (api.read_node name w) refl h in
      (node, cordoned now node, before, after, cordoned-draining now node, cordoned-others now node)

  -- What an uncordon that returns true has done: the node is not draining, and its other taints are
  -- those it had.
  pub uncordon_node-undrained :
      (name : String) (w w' : W)
      → uncordon_node api name w ≡ (some true, w')
      → (node node' : Node) × ((api.read_node name w).0 ≡ ok (some node))
        × ((api.read_node name w').0 ≡ ok (some node'))
        × (is_node_draining node' ≡ false)
        × (other_taints node' ≡ other_taints node)
  unfolding uncordon_node uncordoned
  uncordon_node-undrained name w w' h =
      let (node, before, after) =
        change_taints-changed other_taints name w w' (api.read_node name w) refl h in
      (node, uncordoned node, before, after, uncordoned-draining node, uncordoned-others node)
