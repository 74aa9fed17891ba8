-- ===== src/Migration/Condition.antt =====
-- The conditions of migration events: clusterman/migration/event.py and event_enums.py. The values that
-- traits are compared by, versions of two packages, times and names, are an argument with their reading
-- and printing.
pub mod Laws
use clusterman.Base.{
  String, Bool, true, false, not, List, [], ◌∷◌, map, Option, none, some, any, or_else, str_eq,
  if◌then◌else◌,
}
use clusterman.Interfaces.{ClusterNodeMetadata}
use clusterman.Migration.Batch.{MigrationEvent}

pub data ConditionTrait : Type 0 where
  kernel lsbrelease instance_type uptime : ConditionTrait

pub data ConditionOperator : Type 0 where
  gt ge eq ne lt le is_in not_in : ConditionOperator

-- `ConditionTrait.value` and `ConditionTrait(value)`
unfoldable pub trait_value : ConditionTrait → String
trait_value kernel = "kernel"
trait_value lsbrelease = "lsbrelease"
trait_value instance_type = "instance_type"
trait_value uptime = "uptime"

abbrev pub look_up : {A : Type 0} → String → List (String × A) → Option A
look_up k [] = none
look_up k ((j, a) ∷ entries) = let rest = look_up k entries in if str_eq j k then some a else rest

unfoldable pub trait_of : String → Option ConditionTrait
trait_of value = look_up value (
    ("kernel", kernel)
    ∷ ("lsbrelease", lsbrelease)
    ∷ ("instance_type", instance_type)
    ∷ ("uptime", uptime)
    ∷ [])

-- `ConditionOperator.value` and `ConditionOperator(value)`
unfoldable pub operator_value : ConditionOperator → String
operator_value gt = "gt"
operator_value ge = "ge"
operator_value eq = "eq"
operator_value ne = "ne"
operator_value lt = "lt"
operator_value le = "le"
operator_value is_in = "in"
operator_value not_in = "notin"

unfoldable pub operator_of : String → Option ConditionOperator
operator_of value = look_up value (
    ("gt", gt)
    ∷ ("ge", ge)
    ∷ ("eq", eq)
    ∷ ("ne", ne)
    ∷ ("lt", lt)
    ∷ ("le", le)
    ∷ ("in", is_in)
    ∷ ("notin", not_in)
    ∷ [])

unfoldable pub expects_collection : ConditionOperator → Bool
expects_collection is_in = true
expects_collection not_in = true
expects_collection _ = false

abbrev pub is_equality : ConditionOperator → Bool
is_equality eq = true
is_equality ne = true
is_equality op = expects_collection op

abbrev pub is_order : ConditionOperator → Bool
is_order gt = true
is_order ge = true
is_order lt = true
is_order le = true
is_order _ = false

-- `CONDITION_OPERATOR_SUPPORT_MATRIX`
unfoldable pub supports : ConditionTrait → ConditionOperator → Bool
supports kernel op = true
supports lsbrelease op = true
supports instance_type op = is_equality op
supports uptime op = is_order op

pub data Target (V : Type 0) : Type 0 where
  one : V → Target V
  many : List V → Target V

pub record MigrationCondition (V : Type 0) : Type 0 where
  pub trait : ConditionTrait
  pub operator : ConditionOperator
  pub target : Target V

-- The dictionary of a condition
pub record ConditionData : Type 0 where
  pub trait : String
  pub operator : String
  pub target : String

-- `MigrationEvent`: what the batch reads of it, and the rest
pub record EventResource (V : Type 0) : Type 0 where
  pub event : MigrationEvent
  pub label_selectors : List String
  pub condition : MigrationCondition V

-- The custom resource of an event: its name, its labels where it has some, and the keys of its
-- specification
pub record Crd : Type 0 where
  pub name : String
  pub labels : Option (List (String × String))
  pub cluster : String
  pub pool : String
  pub label_selectors : Option (List String)
  pub condition : ConditionData

-- `CONDITION_TARGET_LOADERS`, `CONDITION_TRAIT_GETTERS`, `str`, Python's comparisons, and `split(",")` and
-- `",".join`; a failure is `none`.
pub record Values (V : Type 0) : Type 0 where
  pub load : ConditionTrait → String → Option V
  pub get_from : ConditionTrait → ClusterNodeMetadata → Option V
  pub show : V → String
  pub compare : ConditionOperator → V → V → Bool
  pub split_commas : String → List String
  pub join : List String → String

module _ {V : Type 0} (values : Values V) where
  open values use {load, get_from, show, compare, split_commas, join}

  unfoldable pub load_all : ConditionTrait → List String → Option (List V)
  load_all trait [] = some []
  load_all trait (s ∷ ss) = elim (load trait s) [
    | none ↦ none
    | some v ↦ elim (load_all trait ss) [ none ↦ none | some vs ↦ some (v ∷ vs) ]
  ]

  abbrev pub as_many : Option (List V) → Option (Target V)
  as_many none = none
  as_many (some vs) = some (many vs)

  abbrev pub as_one : Option V → Option (Target V)
  as_one none = none
  as_one (some v) = some (one v)

  -- The target of `from_dict`
  unfoldable pub load_target : ConditionTrait → (is_collection : Bool) → String → Option (Target V)
  unfolding load_all
  load_target trait true target = as_many (load_all trait (split_commas target))
  load_target trait false target = as_one (load trait target)

  abbrev pub with_target :
      ConditionTrait → ConditionOperator → Option (Target V) → Option (MigrationCondition V)
  with_target trait op none = none
  with_target trait op (some target) =
      some (record { trait = trait; operator = op; target = target })

  abbrev pub checked :
      Option ConditionTrait → Option ConditionOperator → String → Option (MigrationCondition V)
  checked none op target = none
  checked (some trait) none target = none
  checked (some trait) (some op) target =
      if supports trait op
      then with_target trait op (load_target trait (expects_collection op) target)
      else none

  unfoldable pub from_dict : ConditionData → Option (MigrationCondition V)
  unfolding trait_of operator_of supports expects_collection load_target
  from_dict d = checked (trait_of d.trait) (operator_of d.operator) d.target

  unfoldable pub stringify_target : Target V → String
  stringify_target (one v) = show v
  stringify_target (many vs) = join (map show vs)

  unfoldable pub to_dict : MigrationCondition V → ConditionData
  unfolding trait_value operator_value stringify_target
  to_dict c = record {
    trait = trait_value c.trait;
    operator = operator_value c.operator;
    target = stringify_target c.target;
  }

  -- `ConditionOperator.apply`. A value where a collection is needed, or the other way round, is `none`: what
  -- Python would make of it depends on the types of the packages.
  unfoldable pub apply : ConditionOperator → V → Target V → Option Bool
  apply is_in left (many vs) = some (any (compare eq left) vs)
  apply not_in left (many vs) = some (not (any (compare eq left) vs))
  apply op left (many vs) = none
  apply op left (one v) = if expects_collection op then none else some (compare op left v)

  unfoldable pub matches : MigrationCondition V → ClusterNodeMetadata → Option Bool
  unfolding apply
  matches c node = elim (get_from c.trait node) [
    | none ↦ none
    | some left ↦ apply c.operator left c.target
  ]

  -- `if labels`: an empty dictionary is left out like a missing one.
  abbrev pub labels_of : Option (List (String × String)) → Option (List (String × String))
  labels_of none = none
  labels_of (some []) = none
  labels_of (some (l ∷ ls)) = some (l ∷ ls)

  -- `to_crd_body` and `from_crd`
  unfoldable pub to_crd_body : EventResource V → Option (List (String × String)) → Crd
  unfolding to_dict
  to_crd_body e labels = record {
    name = e.event.resource_name;
    labels = labels_of labels;
    cluster = e.event.cluster;
    pool = e.event.pool;
    label_selectors = some e.label_selectors;
    condition = to_dict e.condition;
  }

  abbrev pub with_condition : Crd → Option (MigrationCondition V) → Option (EventResource V)
  with_condition crd none = none
  with_condition crd (some condition) = some (record {
    event = record { resource_name = crd.name; cluster = crd.cluster; pool = crd.pool };
    label_selectors = or_else crd.label_selectors [];
    condition = condition;
  })

  unfoldable pub from_crd : Crd → Option (EventResource V)
  unfolding from_dict
  from_crd crd = with_condition crd (from_dict crd.condition)
