-- ===== src/Kubernetes/Util.antt =====
-- clusterman/kubernetes/util.py: the resources of pods and nodes, and what is read of a node. A float
-- is an integer count of thousandths.
use clusterman.Base.{
  String, Bool, true, false, ◌&&◌, List, [], ◌∷◌, Option, none, some, ℤ, pos, ◌+ℤ◌, any, get,
  or_else, str_eq, if◌then◌else◌,
}
use clusterman.Resources.{ClustermanResources, no_resources, sub}
use clusterman.Kubernetes.Defs.{Quantities, Requirement, Terms, Pod, Node}

-- How Python and the package humanfriendly read numbers: `float(s)` in thousandths and as a whole number,
-- `parse_size(s) / 1000000` in thousandths, `int(s)` in thousandths, and the text before a final "m".
-- `release` is the release that the pattern finds, "" without one.
pub record Parsing : Type 0 where
  pub float_thousandths : String → ℤ
  pub float_whole : String → ℤ
  pub megabytes : String → ℤ
  pub int_thousandths : String → ℤ
  pub before_m : String → Option String
  pub lower : String → String
  pub release : String → String

abbrev pub add_resources : ClustermanResources → ClustermanResources → ClustermanResources
add_resources a b = record {
  cpus = a.cpus +ℤ b.cpus;
  mem = a.mem +ℤ b.mem;
  disk = a.disk +ℤ b.disk;
  gpus = a.gpus +ℤ b.gpus;
}

-- `(resources or {}).get(name, default)`
unfoldable pub quantity : (name default : String) → Quantities → String
quantity name default none = default
quantity name default (some d) = or_else (get name d) default

same_texts : List String → List String → Bool
same_texts [] [] = true
same_texts [] (t ∷ ts) = false
same_texts (s ∷ ss) [] = false
same_texts (s ∷ ss) (t ∷ ts) = str_eq s t && same_texts ss ts

-- `match_expression == selector_requirement`
unfoldable pub same_requirement : Requirement → Requirement → Bool
unfolding same_texts
same_requirement a b =
    str_eq a.key b.key && str_eq a.operator b.operator && same_texts a.values b.values

unfoldable pub selector_term_matches_requirement : Terms → Requirement → Bool
unfolding same_requirement
selector_term_matches_requirement [] r = false
selector_term_matches_requirement (none ∷ terms) r = selector_term_matches_requirement terms r
selector_term_matches_requirement (some expressions ∷ terms) r =
    let rest = selector_term_matches_requirement terms r in
    if any (λ e. same_requirement e r) expressions then true else rest

-- The first address of type "InternalIP"; without one the function raises.
unfoldable pub get_node_ip : Node → Option String
get_node_ip node = first_internal node.addresses
  where
    first_internal : List (String × String) → Option String
    first_internal [] = none
    first_internal ((type, address) ∷ rest) =
        if str_eq type "InternalIP" then some address else first_internal rest

module _ (t : Parsing) where
  open t use {float_thousandths, float_whole, megabytes, int_thousandths, before_m, release}

  -- The methods of `ResourceParser`
  unfoldable pub cpus : Quantities → ℤ
  unfolding quantity
  cpus resources =
      let cpu_str = quantity "cpu" "100m" resources in
      elim (before_m cpu_str) [ some s ↦ float_whole s | none ↦ float_thousandths cpu_str ]

  unfoldable pub mem : Quantities → ℤ
  unfolding quantity
  mem resources = megabytes (quantity "memory" "200MB" resources)

  unfoldable pub disk : Quantities → ℤ
  unfolding quantity
  disk resources = megabytes (quantity "ephemeral-storage" "0" resources)

  unfoldable pub gpus : Quantities → ℤ
  gpus none = pos 0
  gpus (some d) = elim (get "nvidia.com/gpu" d) [ some s ↦ int_thousandths s | none ↦ pos 0 ]

  unfoldable pub parse : Quantities → ClustermanResources
  unfolding cpus mem disk gpus
  parse q = record { cpus = cpus q; mem = mem q; disk = disk q; gpus = gpus q }

  unfoldable pub sum_requests : List Quantities → ClustermanResources
  unfolding parse
  sum_requests [] = no_resources
  sum_requests (q ∷ qs) = add_resources (parse q) (sum_requests qs)

  unfoldable pub total_pod_resources : Pod → ClustermanResources
  unfolding sum_requests
  total_pod_resources pod = sum_requests pod.containers

  unfoldable pub allocated_node_resources : List Pod → ClustermanResources
  unfolding total_pod_resources
  allocated_node_resources [] = no_resources
  allocated_node_resources (pod ∷ pods) =
      add_resources (total_pod_resources pod) (allocated_node_resources pods)

  unfoldable pub total_node_resources : Node → (excluded_pods : List Pod) → ClustermanResources
  unfolding parse allocated_node_resources
  total_node_resources node excluded_pods =
      sub (parse node.allocatable) (allocated_node_resources excluded_pods)

  unfoldable pub get_node_lsbrelease : Node → String
  get_node_lsbrelease node = release node.os_image

-- clusterman/util.py: the truth value of a text; `none` is the `ValueError`.
unfoldable pub strtobool : (lower : String → String) → String → Option Bool
strtobool lower val =
    let v = lower val in
    if is_one_of v ("y" ∷ "yes" ∷ "t" ∷ "true" ∷ "on" ∷ "1" ∷ [])
    then some true
    else if is_one_of v ("n" ∷ "no" ∷ "f" ∷ "false" ∷ "off" ∷ "0" ∷ [])
    then some false
    else none
  where
    is_one_of : String → List String → Bool
    is_one_of v texts = any (λ s. str_eq v s) texts
