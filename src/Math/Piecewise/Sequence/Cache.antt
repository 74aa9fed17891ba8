-- ===== src/Math/Piecewise/Sequence/Cache.antt =====
-- The cache of `PiecewiseConstantFunction.values` in clusterman/math/piecewise.py. It keeps some of the results
-- for each function: `functools.lru_cache` drops results when it likes, `add_delta` drops all of them, and
-- `add_breakpoint` drops none.
use clusterman.Base.{
  ℕ, ◌<◌, ◌==◌, ◌≡◌, refl, sym, inl, inr, ◌∙◌, Bool, true, ◌&&◌, List, [], ◌∷◌, Option, none, some,
  ℤ, eq_ℤ, eq_ℤ→eq, pos, keep, Bool-cases, Option-cases, arith, if◌then◌else◌,
}
use clusterman.Math.SortedDict.{Items, SortedDict, IsDocumented, IsAscending}
use clusterman.Math.Piecewise.{PiecewiseConstantFunction, call, add_delta, add_breakpoint}
use clusterman.Math.Piecewise.Sequence.{step_or, ceil_div, compute_values}
use clusterman.Math.Piecewise.Sequence.Values.{sampled, AllTruthy, compute_values-sampled}

pub record Kept : Type 0 where
  pub start : ℤ
  pub width : ℕ
  pub step : ℕ
  pub result : Items

-- A function and the results that are kept for it
pub record Cached : Type 0 where
  pub function : PiecewiseConstantFunction
  pub results : List Kept

-- What happens to a function: `drop_kept` is the cache making room.
pub data Use : Type 0 where
  get_values : (start : ℤ) (width step : ℕ) → Use
  shift : (xval delta : ℤ) → Use
  put_breakpoint : (xval yval : ℤ) (squash : Bool) → Use
  drop_kept : (is_kept : Kept → Bool) → Use

unfoldable pub find_kept : (start : ℤ) (width step : ℕ) → List Kept → Option Items
find_kept start width step [] = none
find_kept start width step (e ∷ es) =
    if eq_ℤ e.start start && e.width == width && e.step == step
    then some e.result
    else find_kept start width step es

module _ (o : SortedDict) (is_truthy : ℤ → Bool) where
  -- The results after a computation: an exception is not kept.
  abbrev pub with_result : ℤ → (width step : ℕ) → Option Items → List Kept → List Kept
  with_result start width step none es = es
  with_result start width step (some r) es =
      record { start = start; width = width; step = step; result = r } ∷ es

  -- `values`: its answer, and the results kept after it
  unfoldable pub values : Cached → (start : ℤ) → (width step : ℕ) → Option Items × List Kept
  unfolding find_kept compute_values
  values c start width step = elim (find_kept start width step c.results) [
    | some r ↦ (some r, c.results)
    | none ↦
        let r = compute_values o is_truthy c.function start width step in
        (r, with_result start width step r c.results)
  ]

  unfoldable pub use_function : Use → Cached → Cached
  unfolding values
  use_function (get_values start width step) c = record c {
    results = (values c start width step).1;
  }
  use_function (shift xval delta) c = record {
    function = add_delta o c.function xval delta;
    results = if eq_ℤ delta (pos 0) then c.results else [];
  }
  use_function (put_breakpoint xval yval squash) c = record c {
    function = add_breakpoint o c.function xval yval squash;
  }
  use_function (drop_kept is_kept) c = record c { results = keep is_kept c.results }

  unfoldable pub use_all : List Use → Cached → Cached
  unfolding use_function
  use_all [] c = c
  use_all (u ∷ us) c = use_all us (use_function u c)

-- No breakpoint is put after the first of these uses.
abbrev pub KeepsBreakpoints : List Use → Type 0
KeepsBreakpoints [] = Unit
KeepsBreakpoints (put_breakpoint xval yval squash ∷ us) = ⊥
KeepsBreakpoints (get_values start width step ∷ us) = KeepsBreakpoints us
KeepsBreakpoints (shift xval delta ∷ us) = KeepsBreakpoints us
KeepsBreakpoints (drop_kept is_kept ∷ us) = KeepsBreakpoints us

same_range :
    (e : Kept) (start : ℤ) (width step : ℕ)
    → (eq_ℤ e.start start && e.width == width && e.step == step) ≡ true
    → (e.start ≡ start) × (e.width ≡ width) × (e.step ≡ step)
same_range e start width step h = ground (arith, eq_ℤ→eq e.start start)

module _ (o : SortedDict) (t : ℤ → Bool) where
  -- Each result is the one that would be computed now.
  abbrev AreFresh : PiecewiseConstantFunction → List Kept → Type 0
  AreFresh f [] = Unit
  AreFresh f (e ∷ es) =
      (compute_values o t f e.start e.width e.step ≡ some e.result) × AreFresh f es

  find_kept-AreFresh :
      (f : PiecewiseConstantFunction) (start : ℤ) (width step : ℕ) (es : List Kept) {r : Items}
      → AreFresh f es
      → find_kept start width step es ≡ some r
      → compute_values o t f start width step ≡ some r
  unfolding find_kept
  find_kept-AreFresh f start width step [] a h = ground arith
  find_kept-AreFresh f start width step (e ∷ es) {r} a h =
      let test = eq_ℤ e.start start && e.width == width && e.step == step in
      elim (Bool-cases test) [
        | inl y ↦
            let (x, w, u) = same_range e start width step y in
            let found : some e.result ≡ some r = rw (find_kept, y) at h in
            rw⁻¹ (x, w, u) (a.0 ∙ found)
        | inr n ↦ find_kept-AreFresh f start width step es a.1 (rw (find_kept, n) at h)
      ]

  keep-AreFresh :
      (f : PiecewiseConstantFunction) (p : Kept → Bool) (es : List Kept)
      → AreFresh f es
      → AreFresh f (keep p es)
  keep-AreFresh f p [] a = tt
  keep-AreFresh f p (e ∷ es) a = elim (Bool-cases (p e)) [
    | inl h ↦ rw (h, keep, AreFresh) (a.0, keep-AreFresh f p es a.1)
    | inr h ↦ rw (h, keep) (keep-AreFresh f p es a.1)
  ]

  with_result-AreFresh :
      (f : PiecewiseConstantFunction) (start : ℤ) (width step : ℕ) (es : List Kept)
      (r : Option Items)
      → compute_values o t f start width step ≡ r
      → AreFresh f es
      → AreFresh f (with_result o t start width step r es)
  with_result-AreFresh f start width step es none e a = a
  with_result-AreFresh f start width step es (some r) e a = (e, a)

  values-AreFresh :
      (c : Cached) (start : ℤ) (width step : ℕ)
      → AreFresh c.function c.results
      → ((values o t c start width step).0 ≡ compute_values o t c.function start width step)
        × AreFresh c.function (values o t c start width step).1
  unfolding values
  values-AreFresh c start width step a =
      elim (Option-cases (find_kept start width step c.results)) [
        | inl e ↦
            rw (values, e)
              (
                refl,
                with_result-AreFresh c.function start width step c.results
                    (compute_values o t c.function start width step) refl a,
              )
        | inr (r, e) ↦
            rw (values, e) (sym (find_kept-AreFresh c.function start width step c.results a e), a)
      ]

  shifted :
      (c : Cached) (xval delta : ℤ)
      → AreFresh c.function c.results
      → AreFresh (add_delta o c.function xval delta) (if eq_ℤ delta (pos 0) then c.results else [])
  unfolding add_delta
  shifted c xval delta a = elim (Bool-cases (eq_ℤ delta (pos 0))) [
    | inl e ↦ rw (e, add_delta) a
    | inr e ↦ rw (e, add_delta) tt
  ]

  use_all-AreFresh :
      (us : List Use) (c : Cached)
      → KeepsBreakpoints us
      → AreFresh c.function c.results
      → AreFresh (use_all o t us c).function (use_all o t us c).results
  unfolding use_all
  use_all-AreFresh [] c k a = a
  use_all-AreFresh (get_values start width step ∷ us) c k a =
      use_all-AreFresh us (use_function o t (get_values start width step) c) k
        (values-AreFresh c start width step a).1
  use_all-AreFresh (shift xval delta ∷ us) c k a =
      use_all-AreFresh us (use_function o t (shift xval delta) c) k (shifted c xval delta a)
  use_all-AreFresh (put_breakpoint xval yval squash ∷ us) c k a = absurd k
  use_all-AreFresh (drop_kept is_kept ∷ us) c k a =
      use_all-AreFresh us (use_function o t (drop_kept is_kept) c) k
        (keep-AreFresh c.function is_kept c.results a)

  -- After any uses of a new function that put no breakpoint, the answer of `values`, from its cache or not, is what
  -- calls give one by one at `range(start, stop, step)`, provided that the step is not 0, or else the range is not
  -- empty, that the breakpoints are in order, and that none counts as false.
  pub values-sampled :
      (documented : IsDocumented o) (f : PiecewiseConstantFunction) (us : List Use) (start : ℤ)
      (width step : ℕ)
      → KeepsBreakpoints us
      → IsAscending (use_all o t us (record { function = f; results = [] })).function.breakpoints
      → AllTruthy t (use_all o t us (record { function = f; results = [] })).function.breakpoints
      → 0 < step_or width step
      → (values o t (use_all o t us (record { function = f; results = [] })) start width step).0
        ≡ some (
            sampled
              (call o (use_all o t us (record { function = f; results = [] })).function)
              start
              (step_or width step)
              (ceil_div width (step_or width step)))
  values-sampled documented f us start width step k a b c =
      let new : Cached = record { function = f; results = [] } in
      let now = use_all o t us new in
      (values-AreFresh now start width step (use_all-AreFresh us new k tt)).0
      ∙ compute_values-sampled o documented t now.function start width step a b c
