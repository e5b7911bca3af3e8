-- ===== src/Common/Order.antt =====
-- The order of numbers: maxima, minima and clamped values.
use mathlib.Core.Path.{◌≡◌}
use mathlib.Core.Logic.{inl, inr}
use mathlib.Core.Bool.{true, false}
use native.Mathlib.Omega.{arith}
use micro_trace.Common.Tests.{Bool-cases}
use micro_trace.Common.Arith.{Arith, IsOrdered, max_num, min_num}

-- The sign of a difference tells the order (it does for finite floating point numbers).
abbrev pub HasSigns : Arith → Type 0
HasSigns A = (a b : A.Num) → A.lt (A.sub a b) (A.num 0) ≡ A.lt a b

-- `a <= b`
abbrev pub AtMost : (A : Arith) → A.Num → A.Num → Type 0
AtMost A a b = A.lt b a ≡ false

module _ (A : Arith) (o : IsOrdered A) where
  open A use {Num, lt}

  pub lt_asymm : (a b : Num) → lt a b ≡ true → lt b a ≡ false
  lt_asymm a b h = elim (Bool-cases (lt b a)) [
    | inl k ↦ absurd (ground (arith, o.lt_trans a b a h k, o.lt_irrefl a))
    | inr k ↦ k
  ]

  pub AtMost-trans : (a b c : Num) → AtMost A a b → AtMost A b c → AtMost A a c
  AtMost-trans a b c h k = o.ge_trans c b a k h

  pub min_num-le_left : (a b : Num) → AtMost A (min_num A a b) a
  unfolding min_num
  min_num-le_left a b = ground (arith, lt_asymm b a, o.lt_irrefl a)

  pub min_num-le_right : (a b : Num) → AtMost A (min_num A a b) b
  unfolding min_num
  min_num-le_right a b = ground (arith, o.lt_irrefl b)

  -- A minimum is at least what both numbers are at least, and a maximum dually.
  pub le-min_num : (c a b : Num) → AtMost A c a → AtMost A c b → AtMost A c (min_num A a b)
  unfolding min_num
  le-min_num c a b h k = ground arith

  pub max_num-le : (c a b : Num) → AtMost A a c → AtMost A b c → AtMost A (max_num A a b) c
  unfolding max_num
  max_num-le c a b h k = ground arith

  pub max_num-ge_left : (a b : Num) → AtMost A a (max_num A a b)
  unfolding max_num
  max_num-ge_left a b = ground (arith, lt_asymm a b, o.lt_irrefl a)
