-- ===== src/Math/Piecewise.antt =====
-- `PiecewiseConstantFunction` of clusterman/math/piecewise.py, with integers for its x- and y-values.
pub mod Eval
pub mod Delta
pub mod Merged
pub mod Sequence
use clusterman.Base.{
  ℕ, zero, suc, Bool, true, false, not, ◌||◌, ◌&&◌, List, [], ◌∷◌, Option, none, some, ℤ, pos, ◌+ℤ◌,
  ◌-ℤ◌, ◌*ℤ◌, ltb_ℤ, leb_ℤ, eq_ℤ, min_ℤ, max_ℤ, or_else, if◌then◌else◌,
}
use clusterman.Math.SortedDict.{Items, SortedDict, find, value_at, items_from}

pub record PiecewiseConstantFunction : Type 0 where
  pub initial_value : ℤ
  pub breakpoints : Items

-- An item of one of the two functions, with the number of the function
pub record Entry : Type 0 where
  pub x : ℤ
  pub y : ℤ
  pub is_second : Bool

-- `a <= b` of the tuples `((x, y), fnnum)`
unfoldable pub entry_le : Entry → Entry → Bool
entry_le a b =
    if ltb_ℤ a.x b.x
    then true
    else if ltb_ℤ b.x a.x
    then false
    else if ltb_ℤ a.y b.y
    then true
    else if ltb_ℤ b.y a.y
    then false
    else not a.is_second || b.is_second

-- `zip_longest(items, [], fillvalue=fnnum)`
unfoldable pub entries : (is_second : Bool) → Items → List Entry
entries is_second [] = []
entries is_second ((x, y) ∷ d) =
    record { x = x; y = y; is_second = is_second } ∷ entries is_second d

-- `heapq.merge` of two
unfoldable pub merge : List Entry → List Entry → List Entry
unfolding entry_le
merge [] es = es
merge (e ∷ es) [] = e ∷ es
merge (e ∷ es) (f ∷ fs) = elim (entry_le e f) [
  | true ↦ e ∷ merge es (f ∷ fs)
  | false ↦ f ∷ merge (e ∷ es) fs
]

abbrev pub is_some : Option ℤ → Bool
is_some (some y) = true
is_some none = false

abbrev pub pred : ℕ → ℕ
pred zero = zero
pred (suc n) = n

module _ (o : SortedDict) where
  open o use {set_item, bisect, irange}

  -- The index is that of a breakpoint, so the default is never taken.
  unfoldable pub call_items : (initial : ℤ) → Items → ℤ → ℤ
  call_items initial [] x = initial
  call_items initial ((j, w) ∷ d) x =
      if ltb_ℤ x j
      then initial
      else or_else (value_at (pred (bisect x ((j, w) ∷ d))) ((j, w) ∷ d)) initial

  unfoldable pub call : PiecewiseConstantFunction → ℤ → ℤ
  unfolding call_items
  call f x = call_items f.initial_value f.breakpoints x

  unfoldable pub add_breakpoint :
      PiecewiseConstantFunction → (xval yval : ℤ) → (squash : Bool) → PiecewiseConstantFunction
  unfolding call
  add_breakpoint f xval yval squash =
      if squash && eq_ℤ (call f xval) yval
      then f
      else record f { breakpoints = set_item xval yval f.breakpoints }

  -- `for x in ...: self.breakpoints[x] += delta`
  unfoldable pub shift_all : (delta : ℤ) → List ℤ → Items → Items
  shift_all delta [] d = d
  shift_all delta (x ∷ xs) d =
      shift_all delta xs (set_item x (or_else (find x d) (pos 0) +ℤ delta) d)

  -- `if xval not in self.breakpoints: self.breakpoints[xval] = self.call(xval)`
  unfoldable pub with_breakpoint : PiecewiseConstantFunction → (xval : ℤ) → Items
  unfolding call
  with_breakpoint f xval =
      if is_some (find xval f.breakpoints)
      then f.breakpoints
      else set_item xval (call f xval) f.breakpoints

  unfoldable pub add_delta :
      PiecewiseConstantFunction → (xval delta : ℤ) → PiecewiseConstantFunction
  unfolding with_breakpoint shift_all
  add_delta f xval delta =
      if eq_ℤ delta (pos 0)
      then f
      else let d = with_breakpoint f xval in
        record f { breakpoints = shift_all delta (irange xval d) d }

  -- The loop of an operation over `_merged_breakpoints`
  unfoldable pub add_merged :
      (op : ℤ → ℤ → ℤ)
      → PiecewiseConstantFunction
      → (yprev0 yprev1 : ℤ) → List Entry
      → PiecewiseConstantFunction
  unfolding add_breakpoint
  add_merged op h yprev0 yprev1 [] = h
  add_merged op h yprev0 yprev1 (e ∷ es) =
      let y0 = if e.is_second then yprev0 else e.y in
      let y1 = if e.is_second then e.y else yprev1 in
      add_merged op (add_breakpoint h e.x (op y0 y1) true) y0 y1 es

  unfoldable pub combine :
      (op : ℤ → ℤ → ℤ)
      → PiecewiseConstantFunction
      → PiecewiseConstantFunction
      → PiecewiseConstantFunction
  unfolding add_merged merge entries
  combine op f g =
      add_merged op
        (record { initial_value = op f.initial_value g.initial_value; breakpoints = [] })
        f.initial_value g.initial_value
        (merge (entries false f.breakpoints) (entries true g.breakpoints))

  -- `__add__`, `__sub__`, `__mul__` and `piecewise_max`
  unfoldable pub add :
      PiecewiseConstantFunction → PiecewiseConstantFunction → PiecewiseConstantFunction
  unfolding combine
  add f g = combine ◌+ℤ◌ f g

  unfoldable pub sub :
      PiecewiseConstantFunction → PiecewiseConstantFunction → PiecewiseConstantFunction
  unfolding combine
  sub f g = combine ◌-ℤ◌ f g

  unfoldable pub mul :
      PiecewiseConstantFunction → PiecewiseConstantFunction → PiecewiseConstantFunction
  unfolding combine
  mul f g = combine ◌*ℤ◌ f g

  unfoldable pub piecewise_max :
      PiecewiseConstantFunction → PiecewiseConstantFunction → PiecewiseConstantFunction
  unfolding combine
  piecewise_max f g = combine max_ℤ f g
