-- ===== src/Migration/Condition/Laws.antt =====
-- Conditions that are loaded, and events that are written to a custom resource and read back.
use clusterman.Base.{
  String, ◌≡◌, ◌≢◌, refl, sym, subst, any, ◌∙◌, ap, inl, inr, Bool, true, false, not, List, [], ◌∷◌,
  map, Option, none, some, Bool-cases, arith,
}
use clusterman.Migration.Condition.{
  ConditionTrait, kernel, lsbrelease, instance_type, uptime, ConditionOperator, gt, ge, eq, ne, lt,
  le, is_in, not_in, trait_value, trait_of, operator_value, operator_of, expects_collection,
  supports, Target, one, many, MigrationCondition, ConditionData, EventResource, Values, load_all,
  as_one, as_many, with_condition, load_target, with_target, checked, from_dict, stringify_target,
  to_dict, apply, to_crd_body, from_crd,
}

trait_of-trait_value : (t : ConditionTrait) → trait_of (trait_value t) ≡ some t
unfolding trait_of trait_value
trait_of-trait_value kernel = refl
trait_of-trait_value lsbrelease = refl
trait_of-trait_value instance_type = refl
trait_of-trait_value uptime = refl

operator_of-operator_value : (o : ConditionOperator) → operator_of (operator_value o) ≡ some o
unfolding operator_of operator_value
operator_of-operator_value gt = refl
operator_of-operator_value ge = refl
operator_of-operator_value eq = refl
operator_of-operator_value ne = refl
operator_of-operator_value lt = refl
operator_of-operator_value le = refl
operator_of-operator_value is_in = refl
operator_of-operator_value not_in = refl

not_some : {A : Type 0} (a : A) → none ≢ some a
not_some a h = ground arith

module _ {V : Type 0} (values : Values V) where
  open values use {load, show, split_commas, join}

  -- Each value is what is read of its text.
  abbrev pub AreReadBack : ConditionTrait → List V → Type 0
  AreReadBack trait [] = Unit
  AreReadBack trait (v ∷ vs) = (load trait (show v) ≡ some v) × AreReadBack trait vs

  -- The target has the form that the operator wants, and is what is read of its text.
  abbrev pub IsReadBack : ConditionTrait → (is_collection : Bool) → Target V → Type 0
  IsReadBack trait false (one v) = load trait (show v) ≡ some v
  IsReadBack trait true (many vs) =
      (split_commas (join (map show vs)) ≡ map show vs) × AreReadBack trait vs
  IsReadBack trait _ _ = ⊥

  load_all-show :
      (trait : ConditionTrait) (vs : List V)
      → AreReadBack trait vs
      → load_all values trait (map show vs) ≡ some vs
  unfolding load_all
  load_all-show trait [] a = refl
  load_all-show trait (v ∷ vs) (e, a) = rw (e, load_all-show trait vs a)

  load_target-stringify :
      (trait : ConditionTrait) (b : Bool) (target : Target V)
      → IsReadBack trait b target
      → load_target values trait b (stringify_target values target) ≡ some target
  unfolding load_target stringify_target
  load_target-stringify trait false (one v) h = ap (as_one values) h
  load_target-stringify trait true (many vs) (s, a) =
      ap (as_many values) (ap (load_all values trait) s ∙ load_all-show trait vs a)
  load_target-stringify trait true (one v) h = absurd h
  load_target-stringify trait false (many vs) h = absurd h

  from_dict-to_dict :
      (c : MigrationCondition V)
      → supports c.trait c.operator ≡ true
      → IsReadBack c.trait (expects_collection c.operator) c.target
      → from_dict values (to_dict values c) ≡ some c
  unfolding from_dict to_dict
  from_dict-to_dict c s r = rw (
    trait_of-trait_value c.trait,
    operator_of-operator_value c.operator,
    s,
    load_target-stringify c.trait (expects_collection c.operator) c.target r,
  )

  -- An event that is written to a custom resource, with any labels or none, is read back whole, when its operator is one that the trait
  -- supports and its target is of the right form and is what is read of its text.
  pub from_crd-to_crd_body :
      (e : EventResource V) (labels : Option (List (String × String)))
      → supports e.condition.trait e.condition.operator ≡ true
      → IsReadBack e.condition.trait (expects_collection e.condition.operator) e.condition.target
      → from_crd values (to_crd_body values e labels) ≡ some e
  unfolding from_crd to_crd_body
  from_crd-to_crd_body e labels s r =
      ap (with_condition values (to_crd_body values e labels)) (from_dict-to_dict e.condition s r)

  -- A condition whose operator applies to its target
  abbrev pub IsApplicable : MigrationCondition V → Type 0
  IsApplicable c =
      (supports c.trait c.operator ≡ true)
      × ((left : V) → (b : Bool) × (apply values c.operator left c.target ≡ some b))

  -- A collection, or a value
  abbrev IsShaped : (is_collection : Bool) → Target V → Type 0
  IsShaped true (many vs) = Unit
  IsShaped true (one v) = ⊥
  IsShaped false (many vs) = ⊥
  IsShaped false (one v) = Unit

  as_many-IsShaped :
      (o : Option (List V)) (target : Target V)
      → as_many values o ≡ some target
      → IsShaped true target
  as_many-IsShaped none target h = ground arith
  as_many-IsShaped (some vs) (many ws) h = tt
  as_many-IsShaped (some vs) (one v) h = ground arith

  as_one-IsShaped :
      (o : Option V) (target : Target V) → as_one values o ≡ some target → IsShaped false target
  as_one-IsShaped none target h = ground arith
  as_one-IsShaped (some v) (many vs) h = ground arith
  as_one-IsShaped (some v) (one w) h = tt

  load_target-IsShaped :
      (trait : ConditionTrait) (b : Bool) (text : String) (target : Target V)
      → load_target values trait b text ≡ some target
      → IsShaped b target
  unfolding load_target
  load_target-IsShaped trait true text target h =
      as_many-IsShaped (load_all values trait (split_commas text)) target h
  load_target-IsShaped trait false text target h = as_one-IsShaped (load trait text) target h

  shaped-applies :
      (op : ConditionOperator) (left : V) (target : Target V)
      → IsShaped (expects_collection op) target
      → (b : Bool) × (apply values op left target ≡ some b)
  unfolding apply expects_collection
  shaped-applies gt left (one v) h = (values.compare gt left v, refl)
  shaped-applies gt left (many vs) h = absurd h
  shaped-applies ge left (one v) h = (values.compare ge left v, refl)
  shaped-applies ge left (many vs) h = absurd h
  shaped-applies eq left (one v) h = (values.compare eq left v, refl)
  shaped-applies eq left (many vs) h = absurd h
  shaped-applies ne left (one v) h = (values.compare ne left v, refl)
  shaped-applies ne left (many vs) h = absurd h
  shaped-applies lt left (one v) h = (values.compare lt left v, refl)
  shaped-applies lt left (many vs) h = absurd h
  shaped-applies le left (one v) h = (values.compare le left v, refl)
  shaped-applies le left (many vs) h = absurd h
  shaped-applies is_in left (one v) h = absurd h
  shaped-applies is_in left (many vs) h = (any (values.compare eq left) vs, refl)
  shaped-applies not_in left (one v) h = absurd h
  shaped-applies not_in left (many vs) h = (not (any (values.compare eq left) vs), refl)

  with_target-ok :
      (trait : ConditionTrait) (op : ConditionOperator) (o : Option (Target V))
      (c : MigrationCondition V)
      → with_target values trait op o ≡ some c
      → (o ≡ some c.target) × (trait ≡ c.trait) × (op ≡ c.operator)
  with_target-ok trait op none c h = ground arith
  with_target-ok trait op (some target) c h = (ground arith, ground arith, ground arith)

  checked-IsApplicable :
      (t : Option ConditionTrait) (o : Option ConditionOperator) (text : String)
      (c : MigrationCondition V)
      → checked values t o text ≡ some c
      → IsApplicable c
  checked-IsApplicable none o text c h = ground arith
  checked-IsApplicable (some trait) none text c h = ground arith
  checked-IsApplicable (some trait) (some op) text c h = elim (Bool-cases (supports trait op)) [
    | inl s ↦
        let (t, e1, e2) =
          with_target-ok trait op (load_target values trait (expects_collection op) text) c
            (rw s at h) in
        (
          sym (ap (λ x. supports x op) e1 ∙ ap (supports c.trait) e2) ∙ s,
          λ left. shaped-applies c.operator left c.target (
              subst (λ x. IsShaped (expects_collection x) c.target) e2
                (load_target-IsShaped trait (expects_collection op) text c.target t)),
        )
    | inr s ↦ absurd (not_some c (rw s at h))
  ]

  -- A condition that can be loaded has an operator that its trait supports, and the operator applies to the target
  -- whatever the value of the node is: no comparison of a value with a collection is left for later.
  pub from_dict-IsApplicable :
      (d : ConditionData) (c : MigrationCondition V) → from_dict values d ≡ some c → IsApplicable c
  unfolding from_dict
  from_dict-IsApplicable d c h =
      checked-IsApplicable (trait_of d.trait) (operator_of d.operator) d.target c h
