-- ===== src/Common/Arith.antt =====
-- `number` of JavaScript as far as the source uses it: a carrier with its arithmetic and its order. The
-- development is generic in it; no theorem rests on a law that floating point lacks. `IsOrdered` is
-- what the language documents of `<` on numbers other than NaN (JSON has no NaN).
use Prim.Native.Nat.{ℕ, ◌+◌, ◌-◌, ◌*◌, ◌/◌, ◌≤◌}
use Prim.Native.String.{String}
use mathlib.Core.Path.{◌≡◌, refl}
use mathlib.Core.Bool.{Bool, true, false, not}
use native.Mathlib.Omega.{arith}
use micro_trace.Common.Tests.{ltb, if◌then◌else◌}

pub record Arith : Type 1 where
  pub Num : Type 0
  -- an integer literal
  pub num : ℕ → Num
  pub lt : Num → Num → Bool
  pub add : Num → Num → Num
  pub sub : Num → Num → Num
  pub mul : Num → Num → Num
  pub div : Num → Num → Num
  -- `Math.floor`, at a number that is not negative
  pub floor : Num → ℕ
  -- `x.toFixed(d)`
  pub to_fixed : Num → ℕ → String
  -- `${x}`, and `${Math.round(x)}`
  pub show : Num → String
  pub show_rounded : Num → String

-- The order of numbers: a strict weak order, in which the integer literals stand as they should
-- (2 ^ 53 is the last integer up to which every integer is a number of its own).
pub record IsOrdered (A : Arith) : Type 0 where
  pub lt_irrefl : (a : A.Num) → A.lt a a ≡ false
  pub lt_trans : (a b c : A.Num) → A.lt a b ≡ true → A.lt b c ≡ true → A.lt a c ≡ true
  pub ge_trans : (a b c : A.Num) → A.lt a b ≡ false → A.lt b c ≡ false → A.lt a c ≡ false
  pub lt-num :
      (m n : ℕ) → m ≤ 9007199254740992 → n ≤ 9007199254740992 → A.lt (A.num m) (A.num n) ≡ ltb m n

module _ (A : Arith) where
  open A use {Num, lt}

  -- `a > b`, `a >= b`
  abbrev pub gt : Num → Num → Bool
  gt a b = lt b a

  abbrev pub ge : Num → Num → Bool
  ge a b = not (lt a b)

  -- `Math.max(a, b)`, `Math.min(a, b)`
  unfoldable pub max_num : Num → Num → Num
  max_num a b = if lt a b then b else a

  unfoldable pub min_num : Num → Num → Num
  min_num a b = if lt b a then b else a

-- The natural numbers as an instance, on which the tests run.
abbrev pub nat_arith : Arith
nat_arith = record {
  Num = ℕ;
  num = λ n. n;
  lt = ltb;
  add = λ a b. a + b;
  sub = λ a b. a - b;
  mul = λ a b. a * b;
  div = λ a b. a / b;
  floor = λ a. a;
  to_fixed = λ a d. "";
  show = λ a. "";
  show_rounded = λ a. "";
}

pub nat_arith-IsOrdered : IsOrdered nat_arith
nat_arith-IsOrdered = record {
  lt_irrefl = λ a. ground arith;
  lt_trans = λ a b c p q. ground arith;
  ge_trans = λ a b c p q. ground arith;
  lt-num = λ m n p q. refl;
}
