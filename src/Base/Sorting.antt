-- ===== src/Base/Sorting.antt =====
-- Python's `sorted(xs, key=...)`, which is stable, and tuples of keys compared from the left.
use mathlib.Core.Path.{◌≡◌, refl}
use mathlib.Core.Logic.{◌⊎◌, inl, inr}
use mathlib.Core.Bool.{Bool, true, false}
use mathlib.Core.List.{List, [], ◌∷◌, Perm}
use mathlib.Core.List.Perm
use native.Mathlib.Omega.{arith}
use clusterman.Base.Tests.{Bool-cases, if◌then◌else◌}
use clusterman.Base.Lists.{In}
use clusterman.Base.Int.{ℤ, ltb_ℤ, ◌<ℤ◌, eq_of_parts}

-- `a < b` for tuples of one length
pub lex_lt : List ℤ → List ℤ → Bool
lex_lt [] ys = false
lex_lt (x ∷ xs) [] = false
lex_lt (x ∷ xs) (y ∷ ys) = if ltb_ℤ x y then true else if ltb_ℤ y x then false else lex_lt xs ys

abbrev pub SameLength : List ℤ → List ℤ → Type 0
SameLength [] [] = Unit
SameLength [] (y ∷ ys) = ⊥
SameLength (x ∷ xs) [] = ⊥
SameLength (x ∷ xs) (y ∷ ys) = SameLength xs ys

pub lex_lt_trans :
    (xs ys zs : List ℤ)
    → SameLength xs ys
    → SameLength ys zs
    → lex_lt ys xs ≡ false
    → lex_lt zs ys ≡ false
    → lex_lt zs xs ≡ false
unfolding lex_lt
lex_lt_trans [] ys [] p q a b = refl
lex_lt_trans [] [] (z ∷ zs) p q a b = absurd q
lex_lt_trans [] (y ∷ ys) (z ∷ zs) p q a b = absurd p
lex_lt_trans (x ∷ xs) ys [] p q a b = refl
lex_lt_trans (x ∷ xs) [] (z ∷ zs) p q a b = absurd p
lex_lt_trans (x ∷ xs) (y ∷ ys) (z ∷ zs) p q a b = ground (arith, lex_lt_trans xs ys zs p q)

pub lex_lt-later :
    (x y : ℤ) (xs ys : List ℤ)
    → lex_lt (y ∷ ys) (x ∷ xs) ≡ false
    → (x <ℤ y) ⊎ ((x ≡ y) × (lex_lt ys xs ≡ false))
unfolding lex_lt
lex_lt-later x y xs ys h = ground (arith, eq_of_parts x y)

lex_lt_asym : (xs ys : List ℤ) → lex_lt xs ys ≡ true → lex_lt ys xs ≡ false
unfolding lex_lt
lex_lt_asym [] ys h = cc
lex_lt_asym (x ∷ xs) [] h = cc
lex_lt_asym (x ∷ xs) (y ∷ ys) h = ground (arith, lex_lt_asym xs ys)

module _ {A : Type 0} (key : A → List ℤ) where
  insert : A → List A → List A
  insert x [] = x ∷ []
  insert x (y ∷ ys) = if lex_lt (key y) (key x) then y ∷ insert x ys else x ∷ y ∷ ys

  unfoldable pub sorted : List A → List A
  unfolding insert lex_lt
  sorted [] = []
  sorted (x ∷ xs) = insert x (sorted xs)

  -- No later item comes before an earlier one.
  abbrev pub IsSorted : List A → Type 0
  IsSorted [] = Unit
  IsSorted (x ∷ xs) = ((y : A) → In y xs → lex_lt (key y) (key x) ≡ false) × IsSorted xs

  In-insert : (a x : A) (xs : List A) → In a (insert x xs) → (a ≡ x) ⊎ In a xs
  unfolding insert
  In-insert a x [] (inl e) = inl e
  In-insert a x [] (inr h) = absurd h
  In-insert a x (y ∷ ys) h = elim (Bool-cases (lex_lt (key y) (key x))) [
    | inr e ↦ rw (e, insert, In) at h
    | inl e ↦
        let h' : (a ≡ y) ⊎ In a (insert x ys) = rw (e, insert, In) at h in
        elim h' [
          | inl same ↦ inr (inl same)
          | inr m ↦ elim (In-insert a x ys m) [ inl s ↦ inl s | inr n ↦ inr (inr n) ]
        ]
  ]

  pub In-sorted : (a : A) (xs : List A) → In a (sorted xs) → In a xs
  unfolding sorted
  In-sorted a [] h = h
  In-sorted a (x ∷ xs) h = elim (In-insert a x (sorted xs) h) [
    | inl e ↦ inl e
    | inr m ↦ inr (In-sorted a xs m)
  ]

  insert-In : (a x : A) (xs : List A) → (a ≡ x) ⊎ In a xs → In a (insert x xs)
  unfolding insert
  insert-In a x [] i = i
  insert-In a x (y ∷ ys) i = ground (arith, insert-In a x ys)

  pub sorted-In : (a : A) (xs : List A) → In a xs → In a (sorted xs)
  unfolding sorted
  sorted-In a [] i = i
  sorted-In a (x ∷ xs) (inl e) = insert-In a x (sorted xs) (inl e)
  sorted-In a (x ∷ xs) (inr i) = insert-In a x (sorted xs) (inr (sorted-In a xs i))

  insert-perm : (x : A) (xs : List A) → Perm (insert x xs) (x ∷ xs)
  unfolding insert
  insert-perm x [] = Perm.rfl
  insert-perm x (y ∷ ys) = elim (Bool-cases (lex_lt (key y) (key x))) [
    | inl e ↦ rw e (Perm.trans (Perm.cons y (insert-perm x ys)) (Perm.swap x y ys))
    | inr e ↦ rw e Perm.rfl
  ]

  -- The items are the given ones, each as often.
  pub sorted-perm : (xs : List A) → Perm (sorted xs) xs
  unfolding sorted
  sorted-perm [] = Perm.rfl
  sorted-perm (x ∷ xs) = Perm.trans (insert-perm x (sorted xs)) (Perm.cons x (sorted-perm xs))

  module _ (uniform : (a b : A) → SameLength (key a) (key b)) where
    insert-IsSorted : (x : A) (xs : List A) → IsSorted xs → IsSorted (insert x xs)
    unfolding insert
    insert-IsSorted x [] s = (λ y h. absurd h, tt)
    insert-IsSorted x (y ∷ ys) s = elim (Bool-cases (lex_lt (key y) (key x))) [
      | inr e ↦
          rw (e, IsSorted)
            (
              (λ z h. elim h [
                | inl same ↦ rw same e
                | inr m ↦
                    lex_lt_trans (key x) (key y) (key z) (uniform x y) (uniform y z) e (s.0 z m)
              ]),
              s,
            )
      | inl e ↦
          rw (e, IsSorted)
            (
              (λ z h. elim (In-insert z x ys h) [
                | inl same ↦ rw same (lex_lt_asym (key y) (key x) e)
                | inr m ↦ s.0 z m
              ]),
              insert-IsSorted x ys s.1,
            )
    ]

    pub sorted-IsSorted : (xs : List A) → IsSorted (sorted xs)
    unfolding sorted
    sorted-IsSorted [] = tt
    sorted-IsSorted (x ∷ xs) = insert-IsSorted x (sorted xs) (sorted-IsSorted xs)
