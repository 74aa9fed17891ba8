-- ===== src/Base/Dictionary.antt =====
-- Python dictionaries with text keys, as association lists in insertion order.
use Prim.Native.String.{String}
use mathlib.Core.Path.{◌≡◌, refl}
use mathlib.Core.Logic.{◌≢◌, inl, inr}
use mathlib.Core.Bool.{Bool, true, false}
use mathlib.Core.List.{List, [], ◌∷◌}
use mathlib.Core.Option.{Option, none, some}
use native.Mathlib.Omega.{arith}
use text.Mathlib.Text.{◌==◌ as str_eq}
use text.Mathlib.TextEquality.{eq_iff}
use text.Mathlib.TextPositions.{eq_refl}
use clusterman.Base.Tests.{Bool-cases, if◌then◌else◌}

abbrev pub Dict {ℓ} : Type ℓ → Type ℓ
Dict V = List (String × V)

module _ {ℓ} {V : Type ℓ} where
  -- `d.get(k)`
  unfoldable pub get : String → Dict V → Option V
  get k [] = none
  get k ((j, v) ∷ d) = if str_eq j k then some v else get k d

  -- `d[k] = v`: an old key keeps its place
  unfoldable pub put : String → V → Dict V → Dict V
  put k v [] = (k, v) ∷ []
  put k v ((j, w) ∷ d) = if str_eq j k then (j, v) ∷ d else (j, w) ∷ put k v d

  -- `d.pop(k, None)`
  unfoldable pub delete : String → Dict V → Dict V
  delete k [] = []
  delete k ((j, v) ∷ d) = if str_eq j k then delete k d else (j, v) ∷ delete k d

  -- `k in d`
  unfoldable pub has : String → Dict V → Bool
  has k [] = false
  has k ((j, v) ∷ d) = if str_eq j k then true else has k d

  abbrev pub or_else : Option V → V → V
  or_else none v = v
  or_else (some w) v = w

  pub get-put :
      (k j : String) (v : V) (d : Dict V)
      → get j (put k v d) ≡ (if str_eq k j then some v else get j d)
  unfolding get put
  get-put k j v [] = refl
  get-put k j v ((i, w) ∷ d) = ground (arith, eq_iff k j, eq_iff i k, eq_iff i j, get-put k j v d)

  pub get-put_self : (k : String) (v : V) (d : Dict V) → get k (put k v d) ≡ some v
  get-put_self k v d = simp (get-put, eq_refl)

  pub get-delete :
      (k j : String) (d : Dict V) → get j (delete k d) ≡ (if str_eq k j then none else get j d)
  unfolding get delete
  get-delete k j [] = ground arith
  get-delete k j ((i, w) ∷ d) = ground (arith, eq_iff k j, eq_iff i k, eq_iff i j, get-delete k j d)

  pub has-get : (k : String) (d : Dict V) (v : V) → get k d ≡ some v → has k d ≡ true
  unfolding get has
  has-get k [] v h = ground arith
  has-get k ((j, w) ∷ d) v h = ground (arith, has-get k d v)

  pub get-has : (k : String) (d : Dict V) → has k d ≡ false → get k d ≡ none
  unfolding get has
  get-has k [] h = refl
  get-has k ((j, w) ∷ d) h = ground (arith, get-has k d)

  pub has→get : (k : String) (d : Dict V) → has k d ≡ true → (v : V) × (get k d ≡ some v)
  unfolding get has
  has→get k [] h = cc
  has→get k ((j, w) ∷ d) h = elim (Bool-cases (str_eq j k)) [
    | inl e ↦ (w, rw e)
    | inr e ↦ rw (e, get) (has→get k d (rw (e, has) at h))
  ]

  pub has-put :
      (k j : String) (v : V) (d : Dict V)
      → has j (put k v d) ≡ (if str_eq k j then true else has j d)
  unfolding has put
  has-put k j v [] = refl
  has-put k j v ((i, w) ∷ d) = ground (arith, eq_iff k j, eq_iff i k, eq_iff i j, has-put k j v d)

pub str_eq_refl : (s : String) → str_eq s s ≡ true
str_eq_refl s = eq_refl s

pub str_eq_ne : (s t : String) → s ≢ t → str_eq s t ≡ false
str_eq_ne s t h = ground (arith, eq_iff s t)
