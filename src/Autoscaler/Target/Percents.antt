-- ===== src/Autoscaler/Target/Percents.antt =====
-- The percentages that clusterman/autoscaler/autoscaler.py compares, and the greatest of them.
use clusterman.Base.{
  ℕ, zero, suc, ◌*◌, ◌≤◌, ◌<◌, String, ◌≡◌, ◌≢◌, refl, sym, ◌∙◌, ap, subst, inl, inr, true, false,
  List, [], ◌∷◌, Option, none, some, Bool-cases, ltb, ◌==◌, arith, if◌then◌else◌,
}
use native.Mathlib.Nat.{
  one-mul, mul_comm, mul_assoc, mul_left_comm, mul_right_comm, mul-le-mul_right,
}
use clusterman.Base.Fraction.{Fraction, frac, lt_f, ◌≤f◌, ≤f_trans, ≤f_total, lt_f→≤f}
use clusterman.Autoscaler.{
  AutoscalingConfig, Failure, resource_request_error, Result, ok, err, and_then, Row, is_missing,
  is_nothing, all_rows, is_excluded_resource, usage_pct, add_usage, usage_pcts, max_pct,
}

pub and_then-ok :
    {A B : Type 0} (r : Result A) (f : A → Result B) (b : B)
    → and_then r f ≡ ok b
    → (a : A) × (r ≡ ok a) × (f a ≡ ok b)
and_then-ok (ok a) f b h = (a, refl, h)
and_then-ok (err e) f b h = ground arith

pub ok_injective : {A : Type 0} (a b : A) → ok a ≡ ok b → a ≡ b
ok_injective {A = A} a b h = ap (λ r. value_or a r) h
  where
    value_or : A → Result A → A
    value_or d (ok v) = v
    value_or d (err f) = d

-- Every percentage of the list is a fraction, with a denominator that is not 0.
abbrev pub AreFractions : List (String × Fraction) → Type 0
AreFractions [] = Unit
AreFractions ((r, x) ∷ xs) = (0 < x.den) × AreFractions xs

-- Every percentage of the list is at most `y`.
abbrev pub AreAtMost : Fraction → List (String × Fraction) → Type 0
AreAtMost y [] = Unit
AreAtMost y ((r, x) ∷ xs) = (x ≤f y) × AreAtMost y xs

pub max_pct-replaced :
    (best x : String × Fraction) (xs : List (String × Fraction))
    → lt_f best.1 x.1 ≡ true
    → max_pct best (x ∷ xs) ≡ max_pct x xs
unfolding max_pct
max_pct-replaced best x xs e = rw e

pub max_pct-kept :
    (best x : String × Fraction) (xs : List (String × Fraction))
    → lt_f best.1 x.1 ≡ false
    → max_pct best (x ∷ xs) ≡ max_pct best xs
unfolding max_pct
max_pct-kept best x xs e = rw e

abbrev pub AreBothAtMost :
    (best x : String × Fraction) → List (String × Fraction) → String × Fraction → Type 0
AreBothAtMost best x xs most = (best.1 ≤f most.1) × AreAtMost most.1 (x ∷ xs)

pub max_pct-AreAtMost :
    (best : String × Fraction) (xs : List (String × Fraction))
    → 0 < best.1.den
    → AreFractions xs
    → (best.1 ≤f (max_pct best xs).1) × AreAtMost (max_pct best xs).1 xs
unfolding max_pct
max_pct-AreAtMost best [] h fs = (ground arith, tt)
max_pct-AreAtMost best (x ∷ xs) h (f, fs) = elim (Bool-cases (lt_f best.1 x.1)) [
  | inl e ↦
      let (b, rest) = max_pct-AreAtMost x xs f fs in
      subst (AreBothAtMost best x xs) (sym (max_pct-replaced best x xs e))
        (≤f_trans best.1 x.1 (max_pct x xs).1 f (lt_f→≤f best.1 x.1 e) b, (b, rest))
  | inr e ↦
      let (b, rest) = max_pct-AreAtMost best xs h fs in
      subst (AreBothAtMost best x xs) (sym (max_pct-kept best x xs e))
        (b, (≤f_trans x.1 best.1 (max_pct best xs).1 h (≤f_total best.1 x.1 e) b, rest))
]

pub rearrange_left : (v f yd sn sd : ℕ) → v * f * (1 * (yd * sn)) * sd ≡ v * yd * (f * (sn * sd))
rearrange_left v f yd sn sd = rw (
  one-mul (yd * sn),
  ← mul_assoc (v * f) yd sn,
  mul_right_comm v f yd,
  mul_assoc (v * yd) f sn,
  mul_assoc (v * yd) (f * sn) sd,
  mul_assoc f sn sd,
)

pub rearrange_right : (f yn sd sn t : ℕ) → f * (yn * sd) * sn * t ≡ yn * t * (f * (sn * sd))
rearrange_right f yn sd sn t = rw (
  mul_left_comm f yn sd,
  mul_assoc yn (f * sd) sn,
  mul_right_comm yn (f * sd * sn) t,
  mul_assoc f sd sn,
  mul_comm sd sn,
)

pub rearrange :
    (v f yd sn sd yn t : ℕ)
    → v * yd ≤ yn * t
    → v * f * (1 * (yd * sn)) * sd ≤ f * (yn * sd) * sn * t
rearrange v f yd sn sd yn t h =
    rw (rearrange_left v f yd sn sd, rearrange_right f yn sd sn t)
      (mul-le-mul_right (f * (sn * sd)) h)

pub missing-nothing : (o : Option ℕ) → is_nothing o ≡ false → is_missing o ≡ false
missing-nothing none h = h
missing-nothing (some n) h = refl

pub something-present :
    (rows : List Row) → all_rows is_nothing rows ≡ false → all_rows is_missing rows ≡ false
something-present [] h = h
something-present (row ∷ rows) h =
    ground (arith, missing-nothing row.requested, something-present rows)

pub positive-not_zero : (n : ℕ) → 0 < n → n == 0 ≡ false
positive-not_zero n h = ground arith

pub some-none : (v : ℕ) → some v ≢ none
some-none v e = ground arith

pub not_ok : {A : Type 0} (f : Failure) (a : A) → err f ≢ ok a
not_ok f a h = ground arith

module _ (c : AutoscalingConfig) where
  -- What a row asks for is at most the part `y` of what there is, unless it does not count.
  abbrev pub IsCovered : Fraction → Row → Type 0
  IsCovered y row =
      (v : ℕ)
      → row.requested ≡ some v
      → is_excluded_resource c row.resource ≡ false
      → v * y.den ≤ y.num * row.total

  abbrev pub AreCovered : Fraction → List Row → Type 0
  AreCovered y [] = Unit
  AreCovered y (row ∷ rows) = IsCovered y row × AreCovered y rows

  pub usage_pct-zero :
      (row : Row) (v : ℕ) (ys xs : List (String × Fraction))
      → row.total == 0 ≡ true
      → (if ltb 0 v then err resource_request_error else ok ((row.resource, frac 0) ∷ ys)) ≡ ok xs
      → (x : Fraction) × (zs : List (String × Fraction)) × (ok ys ≡ ok zs)
        × (xs ≡ (row.resource, x) ∷ zs)
        × (0 < x.den)
        × ((y : Fraction) → x ≤f y → v * y.den ≤ y.num * row.total)
  usage_pct-zero row zero ys xs e h = (
    frac 0,
    ys,
    refl,
    ok_injective xs ((row.resource, frac 0) ∷ ys) (sym h),
    ground arith,
    λ y l. ground arith,
  )
  usage_pct-zero row (suc v) ys xs e h = ground arith

  pub usage_pct-ok :
      (row : Row) (v : ℕ) (rest : Result (List (String × Fraction))) (xs : List (String × Fraction))
      → usage_pct c row v rest ≡ ok xs
      → (x : Fraction) × (ys : List (String × Fraction)) × (rest ≡ ok ys)
        × (xs ≡ (row.resource, x) ∷ ys)
        × (0 < x.den)
        × ((y : Fraction) → x ≤f y → v * y.den ≤ y.num * row.total)
  unfolding usage_pct
  usage_pct-ok row v (err e) xs h = ground arith
  usage_pct-ok row v (ok ys) xs h = elim (Bool-cases (row.total == 0)) [
    | inl e ↦ usage_pct-zero row v ys xs e (rw (usage_pct, e) at h)
    | inr e ↦ (
      record { num = v; den = row.total },
      ys,
      refl,
      ok_injective xs ((row.resource, record { num = v; den = row.total }) ∷ ys)
          (sym h ∙ rw (usage_pct, e)),
      ground arith,
      λ y l. l,
    )
  ]

  pub add_usage-AreCovered :
      (row : Row) (o : Option ℕ) (rest : Result (List (String × Fraction)))
      (xs : List (String × Fraction)) (Q : Fraction → Type 0)
      → ((ys : List (String × Fraction))
          → rest ≡ ok ys
          → AreFractions ys × ((y : Fraction) → AreAtMost y ys → Q y))
      → add_usage c row o rest ≡ ok xs
      → AreFractions xs
        × ((y : Fraction)
            → AreAtMost y xs
            → ((v : ℕ)
                → o ≡ some v
                → is_excluded_resource c row.resource ≡ false
                → v * y.den ≤ y.num * row.total)
              × Q y)
  unfolding add_usage
  add_usage-AreCovered row none rest xs Q ih h =
      let (f, q) = ih xs h in (f, λ y a. (λ v e x. ground arith, q y a))
  add_usage-AreCovered row (some value) rest xs Q ih h =
      elim (Bool-cases (is_excluded_resource c row.resource)) [
        | inl t ↦
            let (f, q) = ih xs (rw (add_usage, t) at h) in
            (f, λ y a. (λ v e x. ground arith, q y a))
        | inr t ↦
            let (x, ys, r, e, d, covers) =
              usage_pct-ok row value rest xs (rw (add_usage, t) at h) in
            let (f, q) = ih ys r in
            rw e ((d, f), λ y a. (λ v o' t'. ground (arith, covers y a.0), q y a.1))
      ]

  pub usage_pcts-AreCovered :
      (rows : List Row) (xs : List (String × Fraction))
      → usage_pcts c rows ≡ ok xs
      → AreFractions xs × ((y : Fraction) → AreAtMost y xs → AreCovered y rows)
  unfolding usage_pcts
  usage_pcts-AreCovered [] [] h = (tt, λ y a. tt)
  usage_pcts-AreCovered [] (x ∷ xs) h = ground arith
  usage_pcts-AreCovered (row ∷ rows) xs h =
      add_usage-AreCovered row row.requested (usage_pcts c rows) xs (λ y. AreCovered y rows)
        (usage_pcts-AreCovered rows) h
