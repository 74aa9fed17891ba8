-- ===== src/Aws/Termination.antt =====
-- `terminate_instances_by_id` of clusterman/aws/aws_resource_group.py, with the decorator that protects the
-- instances of other groups, and `mark_stale` of clusterman/aws/auto_scaling_resource_group.py. What EC2
-- answers is an argument.
use clusterman.Base.{
  ℕ, zero, suc, ◌≤◌, String, ◌≡◌, ◌≢◌, refl, sym, ◌∙◌, ap, subst, inl, inr, ◌⊎◌, Bool, true, false,
  not, List, [], ◌∷◌, ◌++◌, In, In-keep, keep-In, keep, any, Option, none, some, length, str_eq_iff,
  arith, if◌then◌else◌,
}
use clusterman.Aws.AutoScaling.{has_id}

-- `list(set(instance_ids) & set(self.instance_ids))`: the order of a set is left open in the source, here it
-- is that of the argument.
unfoldable pub owned_instances : (own instance_ids : List String) → List String
owned_instances own [] = []
owned_instances own (k ∷ ks) =
    let rest = owned_instances own ks in
    if has_id k own then (if has_id k rest then rest else k ∷ rest) else rest

-- `xs[:n]` and `xs[n:]`
abbrev pub take : ℕ → List String → List String
take zero xs = []
take (suc n) [] = []
take (suc n) (x ∷ xs) = x ∷ take n xs

abbrev pub drop : ℕ → List String → List String
drop zero xs = xs
drop (suc n) [] = []
drop (suc n) (x ∷ xs) = drop n xs

-- `for batch in range(0, len(ids), size)`, for a size that is not 0; the length is fuel enough.
unfoldable pub batches_of : (fuel size : ℕ) → List String → List (List String)
batches_of zero size xs = []
batches_of (suc fuel) size [] = []
batches_of (suc fuel) size (x ∷ xs) = take size (x ∷ xs) ∷ batches_of fuel size (drop size (x ∷ xs))

abbrev pub batches : (size : ℕ) → List String → List (List String)
batches size xs = batches_of (length xs) size xs

abbrev pub all_of : List (List String) → List String
all_of [] = []
all_of (b ∷ bs) = b ++ all_of bs

-- The calls of EC2, and the ids that it reports as terminated; `none` is a `KeyError` after the calls.
pub record Terminated : Type 0 where
  pub calls : List (List String)
  pub terminated_instance_ids : Option (List String)

unfoldable pub answers : (terminate : List String → List String) → List (List String) → List String
answers terminate [] = []
answers terminate (b ∷ bs) = terminate b ++ answers terminate bs

-- EC2 describes the instance without an availability zone.
abbrev pub lacks_az : Option Bool → Bool
lacks_az none = false
lacks_az (some has_az) = not has_az

-- `instance_weights` has no entry for the instance.
abbrev pub is_undescribed : Option Bool → Bool
is_undescribed none = true
is_undescribed (some has_az) = false

-- `describe` says whether EC2 gives a zone for an instance, where it describes the instance at all.
unfoldable pub terminate_instances_by_id :
    (own : List String) (describe : String → Option Bool) (terminate : List String → List String)
    → (instance_ids : List String) (batch_size : ℕ) → Terminated
unfolding owned_instances batches_of answers
terminate_instances_by_id own describe terminate instance_ids batch_size =
    let ids = keep (λ k. not (lacks_az (describe k))) (owned_instances own instance_ids) in
    let calls = batches batch_size ids in
    record {
      calls = calls;
      terminated_instance_ids =
          if any (λ k. is_undescribed (describe k)) ids
          then none
          else some (answers terminate calls);
    }

-- The resources that `mark_stale` tags, batch by batch
unfoldable pub mark_stale : (own : List String) → (dry_run : Bool) → List (List String)
unfolding batches_of
mark_stale own dry_run = if dry_run then [] else batches 200 own

take-drop : (n : ℕ) (xs : List String) → take n xs ++ drop n xs ≡ xs
take-drop zero xs = refl
take-drop (suc n) [] = refl
take-drop (suc n) (x ∷ xs) = ap (λ r. x ∷ r) (take-drop n xs)

length-drop : (n : ℕ) (x : String) (xs : List String) → length (drop (suc n) (x ∷ xs)) ≤ length xs
length-drop zero x xs = ground arith
length-drop (suc n) x [] = ground arith
length-drop (suc n) x (y ∷ xs) = ground (arith, length-drop n y xs)

-- With enough fuel the batches are the whole list, in its order.
all_of-batches_of :
    (fuel size : ℕ) (xs : List String)
    → length xs ≤ fuel
    → all_of (batches_of fuel (suc size) xs) ≡ xs
unfolding batches_of
all_of-batches_of zero size [] h = refl
all_of-batches_of zero size (x ∷ xs) h = ground arith
all_of-batches_of (suc fuel) size [] h = refl
all_of-batches_of (suc fuel) size (x ∷ xs) h =
    ap (λ r. take (suc size) (x ∷ xs) ++ r)
      (all_of-batches_of fuel size (drop (suc size) (x ∷ xs))
        (omega (arith, length-drop size x xs)))
    ∙ take-drop (suc size) (x ∷ xs)

length-take : (n : ℕ) (xs : List String) → length (take n xs) ≤ n
length-take zero xs = ground arith
length-take (suc n) [] = ground arith
length-take (suc n) (x ∷ xs) = ground (arith, length-take n xs)

batches_of-small :
    (fuel size : ℕ) (xs : List String) (b : List String)
    → In b (batches_of fuel size xs)
    → length b ≤ size
unfolding batches_of
batches_of-small zero size xs b i = absurd i
batches_of-small (suc fuel) size [] b i = absurd i
batches_of-small (suc fuel) size (x ∷ xs) b (inl e) = rw e (length-take size (x ∷ xs))
batches_of-small (suc fuel) size (x ∷ xs) b (inr i) =
    batches_of-small fuel size (drop size (x ∷ xs)) b i

has_id-In : (k : String) (ids : List String) → has_id k ids ≡ true → In k ids
has_id-In k [] h = ground arith
has_id-In k (j ∷ ids) h = ground (arith, str_eq_iff j k, has_id-In k ids)

added-cases :
    (h r : Bool) (j k : String) (rest : List String)
    → In k (if h then (if r then rest else j ∷ rest) else rest)
    → (k ≡ j) × (h ≡ true) ⊎ In k rest
added-cases true true j k rest i = inr i
added-cases true false j k rest (inl e) = inl (e, refl)
added-cases true false j k rest (inr i) = inr i
added-cases false r j k rest i = inr i

owned_instances-In :
    (own ids : List String) (k : String) → In k (owned_instances own ids) → In k own × In k ids
unfolding owned_instances
owned_instances-In own [] k i = absurd i
owned_instances-In own (j ∷ ids) k i =
    elim (added-cases (has_id j own) (has_id j (owned_instances own ids)) j k
      (owned_instances own ids) i) [
        | inl (e, h) ↦ (subst (λ l. In l own) (sym e) (has_id-In j own h), inl e)
        | inr later ↦ let (o, m) = owned_instances-In own ids k later in (o, inr m)
      ]

In-has_id : (k : String) (ids : List String) → In k ids → has_id k ids ≡ true
In-has_id k [] i = absurd i
In-has_id k (j ∷ ids) (inl e) = ground (arith, str_eq_iff j k)
In-has_id k (j ∷ ids) (inr i) = ground (arith, In-has_id k ids i)

In-added_or_there :
    (h r : Bool) (j k : String) (rest : List String)
    → In k rest
    → In k (if h then (if r then rest else j ∷ rest) else rest)
In-added_or_there true true j k rest i = i
In-added_or_there true false j k rest i = inr i
In-added_or_there false r j k rest i = i

added-In :
    (r : Bool) (k : String) (rest : List String)
    → (r ≡ true → In k rest)
    → In k (if r then rest else k ∷ rest)
added-In true k rest f = f refl
added-In false k rest f = inl refl

In-owned_instances :
    (own ids : List String) (k : String) → In k own → In k ids → In k (owned_instances own ids)
unfolding owned_instances
In-owned_instances own [] k o i = absurd i
In-owned_instances own (j ∷ ids) k o (inr i) =
    In-added_or_there (has_id j own) (has_id j (owned_instances own ids)) j k
      (owned_instances own ids) (In-owned_instances own ids k o i)
In-owned_instances own (j ∷ ids) k o (inl e) =
    subst
      (λ x. In k (
        if has_id x own
        then (if has_id x (owned_instances own ids)
            then owned_instances own ids
            else x ∷ owned_instances own ids)
        else owned_instances own ids))
      e
      (rw (In-has_id k own o) (
        added-In (has_id k (owned_instances own ids)) k (owned_instances own ids)
          (has_id-In k (owned_instances own ids))))

any_of :
    (p : String → Bool) (k : String) (ks : List String) → In k ks → p k ≡ true → any p ks ≡ true
any_of p k [] i h = absurd i
any_of p k (j ∷ ks) (inl e) h = ground (arith, ap p e)
any_of p k (j ∷ ks) (inr i) h = ground (arith, any_of p k ks i h)

not-lacks : (az : Option Bool) → not (lacks_az az) ≡ true → az ≢ some false
not-lacks none h e = ground arith
not-lacks (some b) h e = ground arith

lacks-not : (az : Option Bool) → az ≢ some false → not (lacks_az az) ≡ true
lacks-not none h = refl
lacks-not (some true) h = refl
lacks-not (some false) h = absurd (h refl)

module _ (own : List String) (describe : String → Option Bool)
    (terminate : List String → List String) (instance_ids : List String) (size : ℕ) where
  asked : List String
  asked = keep (λ k. not (lacks_az (describe k))) (owned_instances own instance_ids)

  -- EC2 is asked, in batches that are not too large, to terminate exactly those instances that were given, belong
  -- to the group and are not described as having no zone. When one of them is not described at all, the call ends
  -- with a `KeyError` all the same.
  pub terminate_instances_by_id-owned :
      ((k : String)
        → In k own
        → In k instance_ids
        → describe k ≢ some false
        → In k (
            all_of
              (terminate_instances_by_id own describe terminate instance_ids (suc size)).calls))
      × ((k : String)
          → In k (
              all_of
                (terminate_instances_by_id own describe terminate instance_ids (suc size)).calls)
          → In k own
            × In k instance_ids
            × (describe k ≢ some false)
            × (describe k ≡ none
                → (terminate_instances_by_id own describe terminate instance_ids
                    (suc size)).terminated_instance_ids
                  ≡ none))
      × ((b : List String)
          → In b (terminate_instances_by_id own describe terminate instance_ids (suc size)).calls
          → length b ≤ suc size)
  unfolding terminate_instances_by_id asked
  terminate_instances_by_id-owned =
      let whole = all_of-batches_of (length asked) size asked (ground arith) in
      (
        λ k o i d.
            subst (λ xs. In k xs) (sym whole)
              (keep-In (λ j. not (lacks_az (describe j))) k (owned_instances own instance_ids)
                (In-owned_instances own instance_ids k o i) (lacks-not (describe k) d)),
        λ k i.
            let there : In k asked = subst (λ xs. In k xs) whole i in
            let (m, z) =
              In-keep (λ j. not (lacks_az (describe j))) k (owned_instances own instance_ids)
                there in
            let (o, g) = owned_instances-In own instance_ids k m in
            (
              o,
              g,
              not-lacks (describe k) z,
              λ e. rw (any_of (λ j. is_undescribed (describe j)) k asked there (rw e refl)) refl,
            ),
        λ b i. batches_of-small (length asked) (suc size) asked b i,
      )
