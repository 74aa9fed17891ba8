-- ===== src/Math/Piecewise/Merged.antt =====
-- The operations of clusterman/math/piecewise.py over the breakpoints of two functions.
mod Order
use clusterman.Base.{
  ◌≡◌, refl, sym, ap, ◌∙◌, inl, inr, Bool, true, false, not, ◌||◌, ◌&&◌, List, [], ◌∷◌, Bool-cases,
  min_ℤ, min_ℤ-le, pos, ltb_ℤ→lt, ℤ, ltb_ℤ, leb_ℤ, ◌<ℤ◌, ◌≤ℤ◌, arith, if◌then◌else◌,
}
use clusterman.Math.SortedDict.{Items, SortedDict, IsDocumented, insert, Above, IsAscending}
use clusterman.Math.Piecewise.{
  PiecewiseConstantFunction, Entry, entry_le, entries, merge, call, add_breakpoint, add_merged,
  combine,
}
use clusterman.Math.Piecewise.Eval.{
  eval, has_between, call-eval, call-add_breakpoint, add_breakpoint-IsAscending,
  add_breakpoint-Below, Below,
}
use clusterman.Math.Piecewise.Merged.Order.{
  From, entry_le-x, entry_gt-x, merge-first, merge-second, merge-nil, From-merge, From-entries,
  lowest, From-lowest,
}

-- The value at `z` that the entries leave, when each sets the value from its x-value on
abbrev over : (op : ℤ → ℤ → ℤ) → (v p0 p1 : ℤ) → List Entry → (z : ℤ) → ℤ
over op v p0 p1 [] z = v
over op v p0 p1 (e ∷ es) z =
    let y0 = if e.is_second then p0 else e.y in
    let y1 = if e.is_second then e.y else p1 in
    over op (if leb_ℤ e.x z then op y0 y1 else v) y0 y1 es z

has_between-Below : (x z : ℤ) (d : Items) → Below x d → has_between x z d ≡ false
has_between-Below x z [] b = refl
has_between-Below x z ((j, w) ∷ d) (p, q) = rw (has_between-Below x z d q) (ground arith)

eval-before : (p x k v : ℤ) (d : Items) (z : ℤ) → x ≤ℤ k → z <ℤ x → eval p ((k, v) ∷ d) z ≡ p
eval-before p x k v d z h l = ground arith

Below-up : (j k : ℤ) (d : Items) → j ≤ℤ k → Below j d → Below k d
Below-up j k [] h b = tt
Below-up j k ((i, w) ∷ d) h (p, q) = (omega arith, Below-up j k d h q)

last-breakpoint :
    (x z : ℤ) (d : Items) (y v : ℤ)
    → Below x d
    → (if leb_ℤ x z && not (has_between x z d) then y else v) ≡ (if leb_ℤ x z then y else v)
last-breakpoint x z d y v b = rw (has_between-Below x z d b) (ground arith)

not_leb_ℤ : (k x z : ℤ) → k ≤ℤ x → z <ℤ k → leb_ℤ x z ≡ false
not_leb_ℤ k x z p h = ground arith

leb_ℤ_of_not_ltb : (z x : ℤ) → ltb_ℤ z x ≡ false → leb_ℤ x z ≡ true
leb_ℤ_of_not_ltb z x t = ground arith

module _ (o : SortedDict) (documented : IsDocumented o) (op : ℤ → ℤ → ℤ) where
  add_merged-over :
      (h : PiecewiseConstantFunction) (k p0 p1 : ℤ) (es : List Entry) (z : ℤ)
      → From k es
      → Below k h.breakpoints
      → IsAscending h.breakpoints
      → call o (add_merged o op h p0 p1 es) z ≡ over op (call o h z) p0 p1 es z
  unfolding add_merged
  add_merged-over h k p0 p1 [] z f b a = refl
  add_merged-over h k p0 p1 (e ∷ es) z (p, q) b a =
      let y0 = if e.is_second then p0 else e.y in
      let y1 = if e.is_second then e.y else p1 in
      let b' = Below-up k e.x h.breakpoints p b in
      add_merged-over (add_breakpoint o h e.x (op y0 y1) true) e.x y0 y1 es z q
        (add_breakpoint-Below o documented h e.x (op y0 y1) true b')
        (add_breakpoint-IsAscending o documented h e.x (op y0 y1) true a)
      ∙ ap (λ v. over op v y0 y1 es z)
          (call-add_breakpoint o documented h e.x (op y0 y1) z true a
            ∙ last-breakpoint e.x z h.breakpoints (op y0 y1) (call o h z) b')

module _ (op : ℤ → ℤ → ℤ) where
  over-before :
      (v k p0 p1 : ℤ) (es : List Entry) (z : ℤ) → From k es → z <ℤ k → over op v p0 p1 es z ≡ v
  over-before v k p0 p1 [] z f h = refl
  over-before v k p0 p1 (e ∷ es) z (p, q) h = rw (not_leb_ℤ k e.x z p h) (
      over-before v e.x (if e.is_second then p0 else e.y) (if e.is_second then e.y else p1) es z q
        (omega arith))

  -- An entry of the first function: before its x-value nothing changes, from it on the value is its.
  over-first :
      (p0 p1 : ℤ) (e : Entry) (es : List Entry) (z : ℤ)
      → e.is_second ≡ false
      → From e.x es
      → over op (op p0 p1) p0 p1 (e ∷ es) z
        ≡ (if ltb_ℤ z e.x then op p0 p1 else over op (op e.y p1) e.y p1 es z)
  over-first p0 p1 e es z b f = elim (Bool-cases (ltb_ℤ z e.x)) [
    | inl t ↦
        rw (b, t, not_leb_ℤ e.x e.x z (omega arith) (ltb_ℤ→lt z e.x t))
          (over-before (op p0 p1) e.x e.y p1 es z f (ltb_ℤ→lt z e.x t))
    | inr t ↦ rw (b, t, leb_ℤ_of_not_ltb z e.x t)
  ]

  over-second :
      (p0 p1 : ℤ) (e : Entry) (es : List Entry) (z : ℤ)
      → e.is_second ≡ true
      → From e.x es
      → over op (op p0 p1) p0 p1 (e ∷ es) z
        ≡ (if ltb_ℤ z e.x then op p0 p1 else over op (op p0 e.y) p0 e.y es z)
  over-second p0 p1 e es z b f = elim (Bool-cases (ltb_ℤ z e.x)) [
    | inl t ↦
        rw (b, t, not_leb_ℤ e.x e.x z (omega arith) (ltb_ℤ→lt z e.x t))
          (over-before (op p0 p1) e.x p0 e.y es z f (ltb_ℤ→lt z e.x t))
    | inr t ↦ rw (b, t, leb_ℤ_of_not_ltb z e.x t)
  ]

  over-merge-first :
      (p0 p1 x y : ℤ) (d0 d1 : Items) (z : ℤ) (es : List Entry)
      → From x es
      → (z <ℤ x → eval p1 d1 z ≡ p1)
      → over op (op y p1) y p1 es z ≡ op (eval y d0 z) (eval p1 d1 z)
      → over op (op p0 p1) p0 p1 (record { x = x; y = y; is_second = false } ∷ es) z
        ≡ op (eval p0 ((x, y) ∷ d0) z) (eval p1 d1 z)
  over-merge-first p0 p1 x y d0 d1 z es f before ih =
      over-first p0 p1 (record { x = x; y = y; is_second = false }) es z refl f
      ∙ elim (Bool-cases (ltb_ℤ z x)) [ inl t ↦ rw (t, before (ltb_ℤ→lt z x t)) | inr t ↦ rw t ih ]

  over-merge-second :
      (p0 p1 x y : ℤ) (d0 d1 : Items) (z : ℤ) (es : List Entry)
      → From x es
      → (z <ℤ x → eval p0 d0 z ≡ p0)
      → over op (op p0 y) p0 y es z ≡ op (eval p0 d0 z) (eval y d1 z)
      → over op (op p0 p1) p0 p1 (record { x = x; y = y; is_second = true } ∷ es) z
        ≡ op (eval p0 d0 z) (eval p1 ((x, y) ∷ d1) z)
  over-merge-second p0 p1 x y d0 d1 z es f before ih =
      over-second p0 p1 (record { x = x; y = y; is_second = true }) es z refl f
      ∙ elim (Bool-cases (ltb_ℤ z x)) [ inl t ↦ rw (t, before (ltb_ℤ→lt z x t)) | inr t ↦ rw t ih ]

  -- The entries of both functions, merged, give the operation on the two values.
  over-merge :
      (p0 p1 : ℤ) (d0 d1 : Items) (z : ℤ)
      → IsAscending d0
      → IsAscending d1
      → over op (op p0 p1) p0 p1 (merge (entries false d0) (entries true d1)) z
        ≡ op (eval p0 d0 z) (eval p1 d1 z)
  unfolding entries merge
  over-merge p0 p1 [] [] z a b = refl
  over-merge p0 p1 [] ((k, v) ∷ d1) z a (b, bs) =
      over-merge-second p0 p1 k v [] d1 z (entries true d1) (From-entries k true d1 b bs)
        (λ h. refl) (over-merge p0 v [] d1 z tt bs)
  over-merge p0 p1 ((j, w) ∷ d0) [] z (a, as0) b =
      over-merge-first p0 p1 j w d0 [] z (entries false d0) (From-entries j false d0 a as0)
        (λ h. refl) (rw (← merge-nil (entries false d0)) (over-merge w p1 d0 [] z as0 tt))
  over-merge p0 p1 ((j, w) ∷ d0) ((k, v) ∷ d1) z (a, as0) (b, bs) =
      let e : Entry = record { x = j; y = w; is_second = false } in
      let f : Entry = record { x = k; y = v; is_second = true } in
      elim (Bool-cases (entry_le e f)) [
        | inl t ↦ rw (merge-first e f (entries false d0) (entries true d1) t) (
            over-merge-first p0 p1 j w d0 ((k, v) ∷ d1) z
              (merge (entries false d0) (entries true ((k, v) ∷ d1)))
              (From-merge j (entries false d0) (f ∷ entries true d1) (From-entries j false d0 a as0)
                (entry_le-x e f t, From-entries k true d1 b bs))
              (eval-before p1 j k v d1 z (entry_le-x e f t))
              (over-merge w p1 d0 ((k, v) ∷ d1) z as0 (b, bs)))
        | inr t ↦ rw (merge-second e f (entries false d0) (entries true d1) t) (
            over-merge-second p0 p1 k v ((j, w) ∷ d0) d1 z
              (merge (entries false ((j, w) ∷ d0)) (entries true d1))
              (From-merge k (e ∷ entries false d0) (entries true d1)
                (entry_gt-x e f t, From-entries j false d0 a as0) (From-entries k true d1 b bs))
              (eval-before p0 k j w d0 z (entry_gt-x e f t))
              (over-merge p0 v ((j, w) ∷ d0) d1 z (a, as0) bs))
      ]

module _ (o : SortedDict) (documented : IsDocumented o) where
  -- The combination of two functions by an operation is the pointwise one: this is what the sum,
  -- the difference, the product and the maximum of two functions are.
  pub call-combine :
      (op : ℤ → ℤ → ℤ) (f g : PiecewiseConstantFunction) (z : ℤ)
      → IsAscending f.breakpoints
      → IsAscending g.breakpoints
      → call o (combine o op f g) z ≡ op (call o f z) (call o g z)
  unfolding combine
  call-combine op f g z a b =
      add_merged-over o documented op
        (record { initial_value = op f.initial_value g.initial_value; breakpoints = [] })
        (lowest f.breakpoints g.breakpoints) f.initial_value g.initial_value
        (merge (entries false f.breakpoints) (entries true g.breakpoints)) z
        (From-lowest f.breakpoints g.breakpoints a b) tt tt
      ∙ over-merge op f.initial_value g.initial_value f.breakpoints g.breakpoints z a b
      ∙ rw (call-eval o documented, call-eval o documented)

  add_merged-IsAscending :
      (op : ℤ → ℤ → ℤ) (h : PiecewiseConstantFunction) (y0 y1 : ℤ) (es : List Entry)
      → IsAscending h.breakpoints
      → IsAscending (add_merged o op h y0 y1 es).breakpoints
  unfolding add_merged
  add_merged-IsAscending op h y0 y1 [] a = a
  add_merged-IsAscending op h y0 y1 (e ∷ es) a =
      let z0 = if e.is_second then y0 else e.y in
      let z1 = if e.is_second then e.y else y1 in
      add_merged-IsAscending op (add_breakpoint o h e.x (op z0 z1) true) z0 z1 es
        (add_breakpoint-IsAscending o documented h e.x (op z0 z1) true a)

  pub combine-IsAscending :
      (op : ℤ → ℤ → ℤ) (f g : PiecewiseConstantFunction)
      → IsAscending (combine o op f g).breakpoints
  unfolding combine
  combine-IsAscending op f g =
      add_merged-IsAscending op
        (record { initial_value = op f.initial_value g.initial_value; breakpoints = [] })
        f.initial_value g.initial_value
        (merge (entries false f.breakpoints) (entries true g.breakpoints)) tt
