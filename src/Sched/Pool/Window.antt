-- ===== src/Sched/Pool/Window.antt =====
-- Strides wrap around at 2 ^ 32. While they lie in a window no wider than BIG_STRIDE, the signed
-- difference orders them as their distances from the window's start, and each pick keeps the window.
use os_lab.Base.Int.{is_minus_one}
use native.Mathlib.Decide.{ℕ_discrete}
use os_lab.Base.{
  ◌/◌, ap, ◌≢◌, false, ltb, true, ◌≡◌, arith, ◌≤◌, has, ◌<◌, List, Ptr, ℕ, ◌%◌, ◌^◌, ◌-◌, ◌+◌,
}
use os_lab.Libs.SkewHeap.Tree.{before}
use os_lab.Libs.SkewHeap.Order.{IsOrder}
use os_lab.Sched.State.{Proc}
use os_lab.Sched.Pool.Stride.{stride_diff, sign, proc_stride_comp_f, big_stride, advance}
use os_lab.Sched.Pool.Policy.{IsKeyed}

-- How far `s` lies behind `base`, going up and round.
abbrev pub offset : (base s : ℕ) → ℕ
offset base s = (s + 2 ^ 32 - base) % 2 ^ 32

pub record Window (procs : Ptr → Proc) (xs : List Ptr) (base : ℕ) : Type 0 where
  pub base_lt : base < 2 ^ 32
  pub stride_lt : (q : Ptr) → has q xs ≡ true → (procs q).lab6_stride < 2 ^ 32
  pub within : (q : Ptr) → has q xs ≡ true → offset base (procs q).lab6_stride ≤ big_stride

diff_before :
    (base s t : ℕ)
    → base < 2 ^ 32
    → s < 2 ^ 32
    → t < 2 ^ 32
    → offset base s ≤ big_stride
    → offset base t ≤ big_stride
    → is_minus_one (sign (stride_diff s t)) ≡ ltb (offset base s) (offset base t)
diff_before base s t hb hs ht os ot = ground arith

pub stride_before :
    (procs : Ptr → Proc) (xs : List Ptr) (base : ℕ) (a b : Ptr)
    → Window procs xs base
    → has a xs ≡ true
    → has b xs ≡ true
    → before (proc_stride_comp_f procs) a b
      ≡ ltb (offset base (procs a).lab6_stride) (offset base (procs b).lab6_stride)
unfolding proc_stride_comp_f
stride_before procs xs base a b w i j =
    diff_before base (procs a).lab6_stride (procs b).lab6_stride w.base_lt (w.stride_lt a i)
      (w.stride_lt b j) (w.within a i) (w.within b j)

-- On processes whose strides lie in a window no wider than BIG_STRIDE the signed difference of
-- strides is a strict weak order, wherever the window wraps around.
pub stride_IsOrder :
    (procs : Ptr → Proc) (xs : List Ptr) (base : ℕ)
    → Window procs xs base
    → IsOrder (proc_stride_comp_f procs) xs
stride_IsOrder procs xs base w = record {
  asym = λ a b i j h.
      ground (arith, stride_before procs xs base a b w i j, stride_before procs xs base b a w j i);
  trans = λ a b c i j k h h'. ground (
    arith,
    stride_before procs xs base b a w j i,
    stride_before procs xs base c b w k j,
    stride_before procs xs base c a w k i,
  );
}

pub stride_IsKeyed : IsKeyed proc_stride_comp_f
unfolding proc_stride_comp_f
stride_IsKeyed = record { keyed = λ f g a b p s w p' s' w'. rw (s, s') }

offset_shift :
    (base s t : ℕ)
    → base < 2 ^ 32
    → s < 2 ^ 32
    → t < 2 ^ 32
    → offset base s ≤ offset base t
    → offset base t ≤ big_stride
    → offset s t ≤ big_stride
offset_shift base s t hb hs ht le ot = ground arith

offset_advance : (s n : ℕ) → s < 2 ^ 32 → n ≤ big_stride → offset s ((s + n) % 2 ^ 32) ≤ big_stride
offset_advance s n hs hn = ground arith

-- Picking the least stride of a window and moving it forward by BIG_STRIDE / priority, modulo 2 ^
-- 32, leaves a window no wider than BIG_STRIDE, which starts at the old least stride.
pub advance-Window :
    (f g : Ptr → Proc) (xs : List Ptr) (base : ℕ) (x : Ptr)
    → Window f xs base
    → has x xs ≡ true
    → ((q : Ptr) → has q xs ≡ true → before (proc_stride_comp_f f) q x ≡ false)
    → (g x).lab6_stride ≡ (advance (f x)).lab6_stride
    → ((q : Ptr) → q ≢ x → (g q).lab6_stride ≡ (f q).lab6_stride)
    → Window g xs (f x).lab6_stride
unfolding advance
advance-Window f g xs base x w i least moved same = record {
  base_lt = w.stride_lt x i;
  stride_lt = λ q j. elim (ℕ_discrete q x) [
    | yes e ↦ rw (ap (λ z. (g z).lab6_stride) e, moved) (omega arith)
    | no ne ↦ rw (same q ne) (w.stride_lt q j)
  ];
  within = λ q j. elim (ℕ_discrete q x) [
    | yes e ↦
        rw (ap (λ z. (g z).lab6_stride) e, moved)
          (offset_advance (f x).lab6_stride (big_stride / (f x).lab6_priority) (w.stride_lt x i)
            (omega arith))
    | no ne ↦ rw (same q ne) (
        offset_shift base (f x).lab6_stride (f q).lab6_stride w.base_lt (w.stride_lt x i)
          (w.stride_lt q j) (ground (arith, stride_before f xs base q x w j i, least q j))
          (w.within q j))
  ];
}

pub Window-same :
    (f g : Ptr → Proc) (xs ys : List Ptr) (base : ℕ)
    → ((q : Ptr) → (g q).lab6_stride ≡ (f q).lab6_stride)
    → ((q : Ptr) → has q ys ≡ true → has q xs ≡ true)
    → Window f xs base
    → Window g ys base
Window-same f g xs ys base e i w = record {
  base_lt = w.base_lt;
  stride_lt = λ q j. rw (e q) (w.stride_lt q (i q j));
  within = λ q j. rw (e q) (w.within q (i q j));
}
