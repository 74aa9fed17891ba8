-- ===== src/PoolManager/Modify/Laws.antt =====
-- What `modify_target_capacity` returns and which calls it makes.
use clusterman.Base.{
  String, ◌≡◌, inl, inr, ◌∷◌, none, some, subst, Bool-cases, eq_ℤ, refl, Bool, true, false, List,
  [], ◌++◌, Option, ℤ, arith, In, In-append, Dict,
}
use clusterman.Interfaces.{AgentMetadata}
use clusterman.PoolManager.Defs.{
  ResourceGroup, PoolManager, Result, ok, err, no_resource_groups_available, ◌>>=◌, or_key_error,
  group_target_capacity,
}
use clusterman.PoolManager.Capacity.{target_capacity, constrain, constrain_target_capacity}
use clusterman.PoolManager.Targets.{compute_new_resource_group_targets}
use clusterman.PoolManager.Prune.{choose_nodes_to_prune}
use clusterman.PoolManager.Modify.{
  Call, modify_group, modify_groups, group_by_id, prune_excess_fulfilled_capacity, prune_if,
  modify_with_groups, modify_target_capacity,
}

-- A call that changes nothing outside.
abbrev pub IsHarmless : Call → Type 0
IsHarmless (modify_group k t dry_run) = dry_run ≡ true
IsHarmless _ = ⊥

-- What a successful chain of two steps is made of.
pub >>=-ok :
    {Value Next : Type 0} (result : Result Value) (next : Value → Result Next) {last : Next}
    → (result >>= next) ≡ ok last
    → (value : Value) × (result ≡ ok value) × (next value ≡ ok last)
>>=-ok (err raised) next chain = cc
>>=-ok (ok value) next chain = (value, refl, chain)

modify_groups-IsHarmless :
    (groups : List ResourceGroup) (targets : Dict ℤ) {calls : List Call}
    → modify_groups groups true targets ≡ ok calls
    → (c : Call) → In c calls
    → IsHarmless c
unfolding modify_groups
modify_groups-IsHarmless groups [] {calls} e c h =
    let none_made : calls ≡ [] = cc in absurd (subst (In c) none_made h)
modify_groups-IsHarmless groups ((k, t) ∷ targets) {calls} e c h =
    let (g, eg, e') = >>=-ok (or_key_error (group_by_id k groups)) _ e in
    let (rest, er, e'') = >>=-ok (modify_groups groups true targets) _ e' in
    elim (Bool-cases (eq_ℤ (group_target_capacity g) t)) [
      | inl same ↦
          let made : calls ≡ rest = ground (arith, e'', same) in
          modify_groups-IsHarmless groups targets er c (subst (In c) made h)
      | inr other ↦
          let made : calls ≡ modify_group k t true ∷ rest = ground (arith, e'', other) in
          elim (subst (In c) made h) [
            | inl this ↦ rw this refl
            | inr later ↦ modify_groups-IsHarmless groups targets er c later
          ]
    ]

-- The call sets the group's new target, which differs from the one it has.
pub record IsDue (groups : List ResourceGroup) (dry_run : Bool) (targets : Dict ℤ) (c : Call)
    : Type 0 where
  pub key : String
  pub target : ℤ
  pub group : ResourceGroup
  pub is : c ≡ modify_group key target dry_run
  pub wanted : In (key, target) targets
  pub found : group_by_id key groups ≡ some group
  pub differs : eq_ℤ (group_target_capacity group) target ≡ false

-- Every call that sets a target sets one of the targets computed, for a group of the pool whose
-- target differs from it.
pub modify_groups-IsDue :
    (groups : List ResourceGroup) (dry_run : Bool) (targets : Dict ℤ) {calls : List Call}
    → modify_groups groups dry_run targets ≡ ok calls
    → (c : Call) → In c calls
    → IsDue groups dry_run targets c
unfolding modify_groups
modify_groups-IsDue groups dry_run [] {calls} e c h =
    let none_made : calls ≡ [] = cc in absurd (subst (In c) none_made h)
modify_groups-IsDue groups dry_run ((k, t) ∷ targets) {calls} e c h =
    let (g, eg, e') = >>=-ok (or_key_error (group_by_id k groups)) _ e in
    let (rest, er, e'') = >>=-ok (modify_groups groups dry_run targets) _ e' in
    let later : In c rest → IsDue groups dry_run ((k, t) ∷ targets) c =
      λ m. wider (modify_groups-IsDue groups dry_run targets er c m) in
    elim (Bool-cases (eq_ℤ (group_target_capacity g) t)) [
      | inl same ↦
          let made : calls ≡ rest = ground (arith, e'', same) in later (subst (In c) made h)
      | inr other ↦
          let made : calls ≡ modify_group k t dry_run ∷ rest = ground (arith, e'', other) in
          elim (subst (In c) made h) [
            | inl this ↦ record {
              key = k;
              target = t;
              group = g;
              is = this;
              wanted = inl refl;
              found = found_at (group_by_id k groups) eg;
              differs = other;
            }
            | inr m ↦ later m
          ]
    ]
  where
    found_at : (o : Option ResourceGroup) {g : ResourceGroup} → or_key_error o ≡ ok g → o ≡ some g
    found_at none e = cc
    found_at (some a) e = cc

    wider : {c : Call} → IsDue groups dry_run targets c → IsDue groups dry_run ((k, t) ∷ targets) c
    wider d = record {
      key = d.key;
      target = d.target;
      group = d.group;
      is = d.is;
      wanted = inr d.wanted;
      found = d.found;
      differs = d.differs;
    }

module _ (agent_of : Option String → AgentMetadata) (m : PoolManager) where
  -- The parts of a successful change: the constrained capacity, the targets that were computed for
  -- it, the calls that set them and the calls that prune.
  pub record IsModified (requested : ℤ) (dry_run force prune no_scale_down : Bool) (new : ℤ)
      (calls : List Call) : Type 0 where
    pub target : ℤ
    pub known : target_capacity m.resource_groups ≡ ok target
    pub constrained : new ≡ constrain m.limits target requested force no_scale_down
    pub targets : Dict ℤ
    pub computed : compute_new_resource_group_targets m.resource_groups new ≡ ok targets
    pub modified : List Call
    pub modifies : modify_groups m.resource_groups dry_run targets ≡ ok modified
    pub pruned : List Call
    pub prunes : prune_if agent_of m prune new targets dry_run ≡ ok pruned
    pub all_calls : calls ≡ modified ++ pruned

  constrained_by :
      (requested : ℤ) (force no_scale_down : Bool) {new : ℤ}
      → constrain_target_capacity m.limits m.resource_groups requested force no_scale_down ≡ ok new
      → (t : ℤ) × (target_capacity m.resource_groups ≡ ok t)
        × (ok (constrain m.limits t requested force no_scale_down) ≡ ok new)
  unfolding constrain_target_capacity
  constrained_by requested force no_scale_down e = >>=-ok (target_capacity m.resource_groups) _ e

  modify_with_groups-IsModified :
      (requested : ℤ) (dry_run force prune no_scale_down : Bool) {new : ℤ} {calls : List Call}
      → modify_with_groups agent_of m requested dry_run force prune no_scale_down ≡ ok (new, calls)
      → IsModified requested dry_run force prune no_scale_down new calls
  unfolding modify_with_groups
  modify_with_groups-IsModified requested dry_run force prune no_scale_down {new} {calls} e =
      let (n, en, e1) =
        >>=-ok (constrain_target_capacity m.limits m.resource_groups requested force no_scale_down)
          _ e in
      let (targets, et, e2) =
        >>=-ok (compute_new_resource_group_targets m.resource_groups n) _ e1 in
      let (modified, em, e3) = >>=-ok (modify_groups m.resource_groups dry_run targets) _ e2 in
      let (pruned, ep, e4) = >>=-ok (prune_if agent_of m prune n targets dry_run) _ e3 in
      let (t, kt, ec) = constrained_by requested force no_scale_down en in
      assemble t n targets modified pruned kt ec et em ep e4
    where
      assemble :
          (t n : ℤ) (targets : Dict ℤ) (modified pruned : List Call)
          → target_capacity m.resource_groups ≡ ok t
          → ok (constrain m.limits t requested force no_scale_down) ≡ ok n
          → compute_new_resource_group_targets m.resource_groups n ≡ ok targets
          → modify_groups m.resource_groups dry_run targets ≡ ok modified
          → prune_if agent_of m prune n targets dry_run ≡ ok pruned
          → ◌≡◌ {A = Result (ℤ × List Call)} (ok (n, modified ++ pruned)) (ok (new, calls))
          → IsModified requested dry_run force prune no_scale_down new calls
      assemble t n targets modified pruned kt ec et em ep e =
          let same : n ≡ new = ground (arith, e) in
          record {
            target = t;
            known = kt;
            constrained = ground (arith, ec, same);
            targets = targets;
            computed =
                subst (λ x. compute_new_resource_group_targets m.resource_groups x ≡ ok targets)
                  same et;
            modified = modified;
            modifies = em;
            pruned = pruned;
            prunes = subst (λ x. prune_if agent_of m prune x targets dry_run ≡ ok pruned) same ep;
            all_calls = ground (arith, e);
          }

  nothing_pruned :
      (prune : Bool) (new : ℤ) (targets : Dict ℤ) {pruned : List Call}
      → prune_if agent_of m prune new targets true ≡ ok pruned
      → pruned ≡ []
  unfolding prune_excess_fulfilled_capacity
  nothing_pruned false new targets e = cc
  nothing_pruned true new targets e =
      let (marked, em, e') = >>=-ok (choose_nodes_to_prune agent_of m new targets) _ e in cc

  -- With no groups the change fails; otherwise a change that succeeds has the parts of `IsModified`.
  pub modify_target_capacity-IsModified :
      (requested : ℤ) (dry_run force prune no_scale_down : Bool) {new : ℤ} {calls : List Call}
      → modify_target_capacity agent_of m requested dry_run force prune no_scale_down
        ≡ ok (new, calls)
      → IsModified requested dry_run force prune no_scale_down new calls
  unfolding modify_target_capacity
  modify_target_capacity-IsModified requested dry_run force prune no_scale_down {new} {calls} e =
      modify_with_groups-IsModified requested dry_run force prune no_scale_down
        (go m.resource_groups e)
    where
      go :
          (gs : List ResourceGroup) {x : Result (ℤ × List Call)}
          → (elim gs [ [] ↦ err no_resource_groups_available | g ∷ gs ↦ x ]) ≡ ok (new, calls)
          → x ≡ ok (new, calls)
      go [] h = cc
      go (g ∷ gs) h = h

  -- A dry run makes no call that changes anything.
  pub modify_target_capacity_dry_run :
      (requested : ℤ) (force prune no_scale_down : Bool) {new : ℤ} {calls : List Call}
      → modify_target_capacity agent_of m requested true force prune no_scale_down ≡ ok (new, calls)
      → (c : Call) → In c calls
      → IsHarmless c
  modify_target_capacity_dry_run requested force prune no_scale_down {new} e c h =
      let parts = modify_target_capacity-IsModified requested true force prune no_scale_down e in
      elim (In-append c parts.modified parts.pruned (subst (In c) parts.all_calls h)) [
        | inl first ↦
            modify_groups-IsHarmless m.resource_groups parts.targets parts.modifies c first
        | inr second ↦
            absurd (subst (In c) (nothing_pruned prune new parts.targets parts.prunes) second)
      ]
