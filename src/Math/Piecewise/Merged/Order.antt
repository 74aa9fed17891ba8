-- ===== src/Math/Piecewise/Merged/Order.antt =====
-- The order of the breakpoints that `_merged_breakpoints` of clusterman/math/piecewise.py goes through.
use clusterman.Base.{
  ◌≡◌, refl, inl, inr, Bool, true, false, List, [], ◌∷◌, Bool-cases, min_ℤ, min_ℤ-le, pos, ℤ, ◌≤ℤ◌,
  arith,
}
use clusterman.Math.SortedDict.{Items, Above, IsAscending}
use clusterman.Math.Piecewise.{Entry, entry_le, entries, merge}

-- The x-values do not descend, from `k` on.
abbrev pub From : ℤ → List Entry → Type 0
From k [] = Unit
From k (e ∷ es) = (k ≤ℤ e.x) × From e.x es

pub entry_le-x : (e f : Entry) → entry_le e f ≡ true → e.x ≤ℤ f.x
unfolding entry_le
entry_le-x e f t = ground arith

pub entry_gt-x : (e f : Entry) → entry_le e f ≡ false → f.x ≤ℤ e.x
unfolding entry_le
entry_gt-x e f t = ground arith

pub merge-first :
    (e f : Entry) (es fs : List Entry)
    → entry_le e f ≡ true
    → merge (e ∷ es) (f ∷ fs) ≡ e ∷ merge es (f ∷ fs)
unfolding merge
merge-first e f es fs t = rw (merge, t)

pub merge-second :
    (e f : Entry) (es fs : List Entry)
    → entry_le e f ≡ false
    → merge (e ∷ es) (f ∷ fs) ≡ f ∷ merge (e ∷ es) fs
unfolding merge
merge-second e f es fs t = rw (merge, t)

pub merge-nil : (es : List Entry) → merge es [] ≡ es
unfolding merge
merge-nil [] = refl
merge-nil (e ∷ es) = refl

pub From-merge : (k : ℤ) (es fs : List Entry) → From k es → From k fs → From k (merge es fs)
unfolding merge
From-merge k [] fs p q = q
From-merge k (e ∷ es) [] p q = p
From-merge k (e ∷ es) (f ∷ fs) (p, ps) (q, qs) = elim (Bool-cases (entry_le e f)) [
  | inl t ↦ rw (merge-first e f es fs t) (p, From-merge e.x es (f ∷ fs) ps (entry_le-x e f t, qs))
  | inr t ↦ rw (merge-second e f es fs t) (q, From-merge f.x (e ∷ es) fs (entry_gt-x e f t, ps) qs)
]

pub From-entries : (k : ℤ) (b : Bool) (d : Items) → Above k d → IsAscending d → From k (entries b d)
unfolding entries
From-entries k b [] p q = tt
From-entries k b ((j, w) ∷ d) (p, ps) (q, qs) = (omega arith, From-entries j b d q qs)

pub lowest : Items → Items → ℤ
lowest [] [] = pos 0
lowest [] ((k, v) ∷ d1) = k
lowest ((j, w) ∷ d0) [] = j
lowest ((j, w) ∷ d0) ((k, v) ∷ d1) = min_ℤ j k

pub From-lowest :
    (d0 d1 : Items)
    → IsAscending d0
    → IsAscending d1
    → From (lowest d0 d1) (merge (entries false d0) (entries true d1))
unfolding lowest entries merge
From-lowest [] [] a b = tt
From-lowest [] ((k, v) ∷ d1) a (b, bs) = (omega arith, From-entries k true d1 b bs)
From-lowest ((j, w) ∷ d0) [] (a, as0) b = (omega arith, From-entries j false d0 a as0)
From-lowest ((j, w) ∷ d0) ((k, v) ∷ d1) (a, as0) (b, bs) =
    let (p, q) = min_ℤ-le j k in
    From-merge (min_ℤ j k) (entries false ((j, w) ∷ d0)) (entries true ((k, v) ∷ d1))
      (p, From-entries j false d0 a as0) (q, From-entries k true d1 b bs)
