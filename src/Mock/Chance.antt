-- ===== src/Mock/Chance.antt =====
-- Calls of `Math.random` and `Date.now` in useMockData.ts, in their order, and the figures of one tick.
use micro_trace.Common.{
  ℕ, zero, suc, ◌+◌, ◌-◌, ◌*◌, ◌/◌, Bool, true, false, List, [], ◌∷◌, length, get_or, if◌then◌else◌,
}
use micro_trace.Common.Arith.{Arith, max_num}
use micro_trace.Common.Sort.{sort}

-- What the environment answers to the n-th call.
pub record World (A : Arith) : Type 0 where
  pub random : ℕ → A.Num
  pub clock : ℕ → A.Num

module _ (A : Arith) (w : World A) where
  open A use {Num, num, lt, add, sub, mul, div}

  abbrev pub Chance : Type 0 → Type 0
  Chance X = ℕ → X × ℕ

  abbrev pub pure : {X : Type 0} → X → Chance X
  pure x n = (x, n)

  infixl 5 ◌>>=◌
  abbrev pub ◌>>=◌ : {X Y : Type 0} → Chance X → (X → Chance Y) → Chance Y
  ◌>>=◌ m f n = f (m n).0 (m n).1

  abbrev pub draw : Chance Num
  draw n = (w.random n, n + 1)

  abbrev pub now : Chance Num
  now n = (w.clock n, n + 1)

  -- `lo + Math.random() * span`
  abbrev pub around : Num → Num → Chance Num
  around lo span n = (add lo (mul (w.random n) span), n + 1)

  -- `rnd(lo, hi)`
  abbrev pub rnd : Num → Num → Chance Num
  rnd lo hi = around lo (sub hi lo)

  abbrev pub samples : ℕ
  samples = 30

  -- A decimal literal with three places.
  abbrev pub mils : ℕ → Num
  mils n = div (num n) (num 1000)

  -- `Array.from({ length: SAMPLES }, …)`
  unfoldable pub gather : ℕ → Chance Num → Chance (List Num)
  gather zero one = pure []
  gather (suc k) one = do x ← one; xs ← gather k one; pure (x ∷ xs)

  -- The comparison `(a, b) => a - b` is negative.
  abbrev pub earlier : Num → Num → Bool
  earlier a b = lt (sub a b) (num 0)

  -- `p(pct)`: the index is `Math.floor(pct / 100 * (n - 1))`
  unfoldable pub percentile : ℕ → List Num → Num
  percentile pct arr = get_or arr (pct * (length arr - 1) / 100) (num 0)

  unfoldable pub total : Num → List Num → Num
  total acc [] = acc
  total acc (x ∷ xs) = total (add acc x) xs

  pub record Percs : Type 0 where
    pub avg_us : Num
    pub p50_us : Num
    pub p95_us : Num
    pub p99_us : Num
    pub jitter_us : Num

  unfoldable pub percs_of : List Num → Percs
  unfolding percentile total
  percs_of arr = record {
    avg_us = mul (div (total (num 0) arr) (num (length arr))) (num 1000);
    p50_us = mul (percentile 50 arr) (num 1000);
    p95_us = mul (percentile 95 arr) (num 1000);
    p99_us = mul (percentile 99 arr) (num 1000);
    jitter_us = mul (sub (percentile 75 arr) (percentile 25 arr)) (num 1000);
  }

  -- `state.isSpike ? state.baseMs * rnd(8, 25) : state.baseMs`
  abbrev pub base_of : Bool → Num → Chance Num
  base_of true base_ms = do f ← rnd (num 8) (num 25); pure (mul base_ms f)
  base_of false base_ms = pure base_ms

  unfoldable pub gen_percs : Bool → Num → Num → Chance Percs
  unfolding gather percs_of
  gen_percs is_spike base_ms noise_ms = do
    base ← base_of is_spike base_ms
    let noise = if is_spike then mul base_ms (num 5) else noise_ms
    arr ← gather samples (do
      r ← rnd (mul (sub (num 0) noise) (div (num 4) (num 5))) (mul noise (div (num 6) (num 5)))
      pure (max_num A (div (num 1) (num 10)) (add base r)))
    pure (percs_of (sort earlier arr))
