-- ===== src/Simulator/Cpus.antt =====
-- The cpus of a cluster over time: `add_instance` and `remove_instance` of clusterman/simulator/simulator.py.
use clusterman.Base.{
  ◌≡◌, refl, inl, inr, false, ◌&&◌, not, some, Bool-cases, ℤ, pos, ◌+ℤ◌, ◌≤ℤ◌, neg_ℤ, ltb_ℤ, leb_ℤ,
  max_ℤ, le-max_ℤ, int_laws, arith, if◌then◌else◌,
}
use clusterman.Math.SortedDict.{SortedDict, IsDocumented, IsAscending}
use clusterman.Math.Piecewise.{PiecewiseConstantFunction, call, add_delta}
use clusterman.Math.Piecewise.Delta.{call-add_delta}
use clusterman.Simulator.Instances.{
  Instance, Simulator, add_instance, remove_joined, remove_instance,
}

-- The breakpoints of the functions are in order.
pub record IsOrdered (s : Simulator) : Type 0 where
  pub cost : IsAscending s.cost_per_hour.breakpoints
  pub aws : IsAscending s.aws_cpus.breakpoints
  pub mesos : IsAscending s.mesos_cpus.breakpoints

-- `n` from `a` on and before `b`
abbrev pub window : (n a b z : ℤ) → ℤ
window n a b z = if leb_ℤ a z && ltb_ℤ z b then n else pos 0

leb-not_ltb : (a z : ℤ) → leb_ℤ a z ≡ not (ltb_ℤ z a)
leb-not_ltb a z = ground arith

not_before : (z a b : ℤ) → ltb_ℤ z b ≡ false → a ≤ℤ b → ltb_ℤ z a ≡ false
not_before z a b h k = ground arith

-- What is added at `a` and taken away at `b` is there in between.
window_lem :
    (v n g z a b : ℤ)
    → a ≤ℤ b
    → (if ltb_ℤ z b
        then (if ltb_ℤ z a then v else v +ℤ n) +ℤ g
        else (if ltb_ℤ z a then v else v +ℤ n) +ℤ g +ℤ neg_ℤ n)
      ≡ v +ℤ g +ℤ window n a b z
window_lem v n g z a b h = elim (Bool-cases (ltb_ℤ z b)) [
  | inl e ↦ elim (Bool-cases (ltb_ℤ z a)) [
    | inl f ↦ rw (leb-not_ltb a z, e, f) (omega int_laws)
    | inr f ↦ rw (leb-not_ltb a z, e, f) (omega int_laws)
  ]
  | inr e ↦ rw (leb-not_ltb a z, e, not_before z a b e h) (omega int_laws)
]

module _ (o : SortedDict) (documented : IsDocumented o) where
  -- A function that was raised by `n` at `a`, and by `g` by others since, and is lowered by `n` at `b`
  pub raised_and_lowered :
      (f f' : PiecewiseConstantFunction) (g : ℤ → ℤ) (n a b z : ℤ)
      → IsAscending f.breakpoints
      → IsAscending f'.breakpoints
      → call o f' z ≡ call o (add_delta o f a n) z +ℤ g z
      → a ≤ℤ b
      → call o (add_delta o f' b (neg_ℤ n)) z ≡ call o f z +ℤ g z +ℤ window n a b z
  raised_and_lowered f f' g n a b z p q e h =
      rw (call-add_delta o documented f' b (neg_ℤ n) z q, e, call-add_delta o documented f a n z p)
        (window_lem (call o f z) n (g z) z a b h)

  -- When an instance that was added to `s` is removed from `s'`, the cpus of AWS are higher by its own exactly
  -- from the one moment to the other, and those of Mesos from the time of its joining to its end, or never
  -- if it ends before it joins, whatever others have added to the functions in the meantime.
  pub remove_instance-add_instance :
      (s s' : Simulator) (i : Instance) (delay : ℤ) (g h : ℤ → ℤ)
      → IsOrdered s
      → IsOrdered s'
      → ((z : ℤ) → call o s'.aws_cpus z ≡ call o (add_instance o s i delay).0.aws_cpus z +ℤ g z)
      → ((z : ℤ) → call o s'.mesos_cpus z ≡ call o (add_instance o s i delay).0.mesos_cpus z +ℤ h z)
      → s.current_time ≤ℤ s'.current_time
      → (let join = i.start_time +ℤ delay in
          let left = (remove_joined o s' (add_instance o s i delay).1 join).0 in
          (remove_instance o s' (add_instance o s i delay).1
            ≡ some (remove_joined o s' (add_instance o s i delay).1 join))
          × ((z : ℤ)
              → call o left.aws_cpus z
                ≡ call o s.aws_cpus z
                  +ℤ g z
                  +ℤ window i.resources.cpus s.current_time s'.current_time z)
          × ((z : ℤ)
              → call o left.mesos_cpus z
                ≡ call o s.mesos_cpus z
                  +ℤ h z
                  +ℤ window i.resources.cpus join (max_ℤ join s'.current_time) z))
  unfolding remove_instance add_instance
  remove_instance-add_instance s s' i delay g h p q e f t =
      let join = i.start_time +ℤ delay in
      (
        refl,
        λ z.
            raised_and_lowered s.aws_cpus s'.aws_cpus g i.resources.cpus s.current_time
              s'.current_time z p.aws q.aws (e z) t,
        λ z.
            raised_and_lowered s.mesos_cpus s'.mesos_cpus h i.resources.cpus join
              (max_ℤ join s'.current_time) z p.mesos q.mesos (f z)
              (le-max_ℤ join s'.current_time).0,
      )
