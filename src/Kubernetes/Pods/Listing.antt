-- ===== src/Kubernetes/Pods/Listing.antt =====
-- What the lists of pods hold that clusterman/kubernetes/kubernetes_cluster_connector.py makes of a
-- listing of the API.
use clusterman.Base.{
  String, ◌≡◌, refl, sym, ◌∙◌, ap, inl, inr, Bool, true, false, ◌&&◌, ◌||◌, not, List, [], ◌∷◌,
  ◌++◌, Option, none, some, Bool-cases, Dict, keep, arith, str_eq, str_eq_iff, if◌then◌else◌,
}
use clusterman.Kubernetes.Defs.{Pod, Node, PodsByIp, PoolConfig}
use clusterman.Kubernetes.Pods.{
  pod_belongs_to_daemonset, pod_belongs_to_pool, is_recently_scheduled, is_unschedulable, same_ip,
  append_at, pods_at, PodsInfo, classify, get_pods_info, get_pods_info_with_label,
}

abbrev pub is_excluded : PoolConfig → Pod → Bool
is_excluded c p = c.exclude_daemonset_pods && pod_belongs_to_daemonset p

-- Running, or given a node
abbrev pub is_placed : PoolConfig → Pod → Bool
is_placed c p = not (is_excluded c p) && (str_eq p.phase "Running" || is_recently_scheduled p)

abbrev pub is_waiting : PoolConfig → Pod → Bool
is_waiting c p =
    not (is_excluded c p)
    && not (str_eq p.phase "Running" || is_recently_scheduled p)
    && is_unschedulable p

abbrev pub no_info : PodsInfo
no_info = record { pods_by_ip = []; unschedulable_pods = []; excluded_pods_by_ip = [] }

same_ip_eq : (a b : Option String) → same_ip a b ≡ true → a ≡ b
same_ip_eq none none h = refl
same_ip_eq none (some t) h = ground arith
same_ip_eq (some s) none h = ground arith
same_ip_eq (some s) (some t) h = ground (arith, str_eq_iff s t)

same_ip_refl : (a : Option String) → same_ip a a ≡ true
same_ip_refl none = refl
same_ip_refl (some s) = ground (arith, str_eq_iff s s)

pods_at-append_at_same :
    (ip : Option String) (pod : Pod) (d : PodsByIp)
    → pods_at ip (append_at ip pod d) ≡ pods_at ip d ++ (pod ∷ [])
unfolding pods_at append_at
pods_at-append_at_same ip pod [] = rw (same_ip_refl ip)
pods_at-append_at_same ip pod ((j, pods) ∷ d) = elim (Bool-cases (same_ip j ip)) [
  | inl e ↦ rw (e, e)
  | inr e ↦ rw (e, e) (pods_at-append_at_same ip pod d)
]

pods_at-append_at_other :
    (j ip : Option String) (pod : Pod) (d : PodsByIp)
    → same_ip j ip ≡ false
    → pods_at ip (append_at j pod d) ≡ pods_at ip d
unfolding pods_at append_at
pods_at-append_at_other j ip pod [] h = rw h
pods_at-append_at_other j ip pod ((i, pods) ∷ d) h = elim (Bool-cases (same_ip i j)) [
  | inl e ↦ rw (e, same_ip_eq i j e, h)
  | inr e ↦ elim (Bool-cases (same_ip i ip)) [
    | inl f ↦ rw (e, f)
    | inr f ↦ rw (e, f) (pods_at-append_at_other j ip pod d h)
  ]
]

pods_at-append_at :
    (j ip : Option String) (pod : Pod) (d : PodsByIp)
    → pods_at ip (append_at j pod d)
      ≡ (if same_ip j ip then pods_at ip d ++ (pod ∷ []) else pods_at ip d)
pods_at-append_at j ip pod d = elim (Bool-cases (same_ip j ip)) [
  | inl e ↦ rw (e, same_ip_eq j ip e) (pods_at-append_at_same ip pod d)
  | inr e ↦ rw e (pods_at-append_at_other j ip pod d e)
]

append_assoc : {A : Type 0} (xs ys zs : List A) → (xs ++ ys) ++ zs ≡ xs ++ (ys ++ zs)
append_assoc [] ys zs = refl
append_assoc (x ∷ xs) ys zs = ap (λ r. x ∷ r) (append_assoc xs ys zs)

-- Adding an element at the end of what is kept, or not
append-keep :
    {A : Type 0} (p : A → Bool) (a : A) (xs rest : List A)
    → (if p a then xs ++ (a ∷ []) else xs) ++ keep p rest ≡ xs ++ keep p (a ∷ rest)
append-keep p a xs rest = elim (Bool-cases (p a)) [
  | inl e ↦ rw (e, keep) (append_assoc xs (a ∷ []) (keep p rest))
  | inr e ↦ rw (e, keep)
]

append-nil : {A : Type 0} (xs : List A) → xs ++ [] ≡ xs
append-nil [] = refl
append-nil (x ∷ xs) = ap (λ r. x ∷ r) (append-nil xs)

-- What the loops do, with the test of the pool as an argument
sort_pods : PoolConfig → (Pod → Bool) → List Pod → PodsInfo → PodsInfo
sort_pods c belongs [] s = s
sort_pods c belongs (pod ∷ pods) s =
    sort_pods c belongs pods (if belongs pod then classify c pod s else s)

get_pods_info-sort_pods :
    (c : PoolConfig) (nodes : Dict Node) (pods : List Pod) (s : PodsInfo)
    → get_pods_info c nodes pods s ≡ sort_pods c (pod_belongs_to_pool c nodes) pods s
unfolding get_pods_info sort_pods
get_pods_info-sort_pods c nodes [] s = refl
get_pods_info-sort_pods c nodes (pod ∷ pods) s =
    get_pods_info-sort_pods c nodes pods
      (if pod_belongs_to_pool c nodes pod then classify c pod s else s)

get_pods_info_with_label-sort_pods :
    (c : PoolConfig) (pods : List Pod) (s : PodsInfo)
    → get_pods_info_with_label c pods s ≡ sort_pods c (λ p. true) pods s
unfolding get_pods_info_with_label sort_pods
get_pods_info_with_label-sort_pods c [] s = refl
get_pods_info_with_label-sort_pods c (pod ∷ pods) s =
    get_pods_info_with_label-sort_pods c pods (classify c pod s)

module _ (c : PoolConfig) (belongs : Pod → Bool) where
  next : Pod → PodsInfo → PodsInfo
  next p s = if belongs p then classify c p s else s

  next-pods :
      (ip : Option String) (p : Pod) (s : PodsInfo)
      → pods_at ip (next p s).pods_by_ip ≡ (
          if belongs p && is_placed c p && same_ip p.host_ip ip
          then pods_at ip s.pods_by_ip ++ (p ∷ [])
          else pods_at ip s.pods_by_ip)
  unfolding next classify
  next-pods ip p s = ground (arith, pods_at-append_at p.host_ip ip p s.pods_by_ip)

  next-excluded :
      (ip : Option String) (p : Pod) (s : PodsInfo)
      → pods_at ip (next p s).excluded_pods_by_ip ≡ (
          if belongs p && is_excluded c p && same_ip p.host_ip ip
          then pods_at ip s.excluded_pods_by_ip ++ (p ∷ [])
          else pods_at ip s.excluded_pods_by_ip)
  unfolding next classify
  next-excluded ip p s = ground (arith, pods_at-append_at p.host_ip ip p s.excluded_pods_by_ip)

  next-unschedulable :
      (p : Pod) (s : PodsInfo)
      → (next p s).unschedulable_pods ≡ (
          if belongs p && is_waiting c p
          then s.unschedulable_pods ++ (p ∷ [])
          else s.unschedulable_pods)
  unfolding next classify
  next-unschedulable p s = ground arith

  sort_pods-pods :
      (ip : Option String) (pods : List Pod) (s : PodsInfo)
      → pods_at ip (sort_pods c belongs pods s).pods_by_ip
        ≡ pods_at ip s.pods_by_ip
          ++ keep (λ p. belongs p && is_placed c p && same_ip p.host_ip ip) pods
  unfolding sort_pods next
  sort_pods-pods ip [] s = sym (append-nil (pods_at ip s.pods_by_ip))
  sort_pods-pods ip (p ∷ pods) s =
      sort_pods-pods ip pods (next p s)
      ∙ ap (λ r. r ++ keep (λ q. belongs q && is_placed c q && same_ip q.host_ip ip) pods)
          (next-pods ip p s)
      ∙ append-keep (λ q. belongs q && is_placed c q && same_ip q.host_ip ip) p
          (pods_at ip s.pods_by_ip) pods

  sort_pods-excluded :
      (ip : Option String) (pods : List Pod) (s : PodsInfo)
      → pods_at ip (sort_pods c belongs pods s).excluded_pods_by_ip
        ≡ pods_at ip s.excluded_pods_by_ip
          ++ keep (λ p. belongs p && is_excluded c p && same_ip p.host_ip ip) pods
  unfolding sort_pods next
  sort_pods-excluded ip [] s = sym (append-nil (pods_at ip s.excluded_pods_by_ip))
  sort_pods-excluded ip (p ∷ pods) s =
      sort_pods-excluded ip pods (next p s)
      ∙ ap (λ r. r ++ keep (λ q. belongs q && is_excluded c q && same_ip q.host_ip ip) pods)
          (next-excluded ip p s)
      ∙ append-keep (λ q. belongs q && is_excluded c q && same_ip q.host_ip ip) p
          (pods_at ip s.excluded_pods_by_ip) pods

  sort_pods-unschedulable :
      (pods : List Pod) (s : PodsInfo)
      → (sort_pods c belongs pods s).unschedulable_pods
        ≡ s.unschedulable_pods ++ keep (λ p. belongs p && is_waiting c p) pods
  unfolding sort_pods next
  sort_pods-unschedulable [] s = sym (append-nil s.unschedulable_pods)
  sort_pods-unschedulable (p ∷ pods) s =
      sort_pods-unschedulable pods (next p s)
      ∙ ap (λ r. r ++ keep (λ q. belongs q && is_waiting c q) pods) (next-unschedulable p s)
      ∙ append-keep (λ q. belongs q && is_waiting c q) p s.unschedulable_pods pods

-- The loop is three selections from the listing, each in its order: at an address the pods of the
-- pool with that host that are placed, and those that are left out, and the pods that wait for a node.
pub get_pods_info-selects :
    (c : PoolConfig) (nodes : Dict Node) (pods : List Pod) (ip : Option String)
    → (pods_at ip (get_pods_info c nodes pods no_info).pods_by_ip
        ≡ keep (λ p. pod_belongs_to_pool c nodes p && is_placed c p && same_ip p.host_ip ip) pods)
      × (pods_at ip (get_pods_info c nodes pods no_info).excluded_pods_by_ip
          ≡ keep
              (λ p. pod_belongs_to_pool c nodes p && is_excluded c p && same_ip p.host_ip ip)
              pods)
      × ((get_pods_info c nodes pods no_info).unschedulable_pods
          ≡ keep (λ p. pod_belongs_to_pool c nodes p && is_waiting c p) pods)
unfolding pods_at
get_pods_info-selects c nodes pods ip =
    let e = get_pods_info-sort_pods c nodes pods no_info in
    let b = pod_belongs_to_pool c nodes in
    (
      ap (λ s. pods_at ip s.pods_by_ip) e ∙ sort_pods-pods c b ip pods no_info,
      ap (λ s. pods_at ip s.excluded_pods_by_ip) e ∙ sort_pods-excluded c b ip pods no_info,
      ap (λ s. s.unschedulable_pods) e ∙ sort_pods-unschedulable c b pods no_info,
    )

-- With the label of the pool in the request, the same selections are made of every pod of the listing.
pub get_pods_info_with_label-selects :
    (c : PoolConfig) (pods : List Pod) (ip : Option String)
    → (pods_at ip (get_pods_info_with_label c pods no_info).pods_by_ip
        ≡ keep (λ p. is_placed c p && same_ip p.host_ip ip) pods)
      × (pods_at ip (get_pods_info_with_label c pods no_info).excluded_pods_by_ip
          ≡ keep (λ p. is_excluded c p && same_ip p.host_ip ip) pods)
      × ((get_pods_info_with_label c pods no_info).unschedulable_pods ≡ keep (is_waiting c) pods)
unfolding pods_at
get_pods_info_with_label-selects c pods ip =
    let e = get_pods_info_with_label-sort_pods c pods no_info in
    (
      ap (λ s. pods_at ip s.pods_by_ip) e ∙ sort_pods-pods c (λ p. true) ip pods no_info,
      ap (λ s. pods_at ip s.excluded_pods_by_ip) e
          ∙ sort_pods-excluded c (λ p. true) ip pods no_info,
      ap (λ s. s.unschedulable_pods) e ∙ sort_pods-unschedulable c (λ p. true) pods no_info,
    )
