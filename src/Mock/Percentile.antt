-- ===== src/Mock/Percentile.antt =====
-- The percentiles of `genPercs` (useMockData.ts): a higher percentage gives no lower figure.
use native.Mathlib.Nat.{mul-le-mul_right}
use micro_trace.Common.{ℕ, zero, suc, ◌-◌, ◌*◌, ◌/◌, ◌≤◌, ◌<◌, List, [], ◌∷◌, length, get_or, arith}
use micro_trace.Common.Arith.{Arith, IsOrdered}
use micro_trace.Common.Order.{HasSigns, AtMost, lt_asymm}
use micro_trace.Common.Sort.{sort, sort-IsSorted, Above, IsSorted, IsConsistent}
use micro_trace.Mock.Chance.{World, earlier, percentile}

module _ (A : Arith) (w : World A) (o : IsOrdered A) (signs : HasSigns A) where
  open A use {Num, num}

  earlier-IsConsistent : IsConsistent (earlier A w)
  earlier-IsConsistent = record {
    asymm = λ a b p. rw (signs b a) (lt_asymm A o a b (rw (signs a b) at p));
    ge_trans =
        λ a b c p q. rw (signs a c) (o.ge_trans a b c (rw (signs a b) at p) (rw (signs b c) at q));
  }

  -- Of sorted numbers, none is less than the first.
  get_or-Above :
      (x d : Num) (xs : List Num) (j : ℕ)
      → j < length xs
      → Above (earlier A w) x xs
      → AtMost A x (get_or xs j d)
  get_or-Above x d [] j h a = absurd (omega arith)
  get_or-Above x d (y ∷ ys) zero h (p, a) = rw (signs y x) at p
  get_or-Above x d (y ∷ ys) (suc j) h (p, a) = get_or-Above x d ys j (omega arith) a

  get_or-IsSorted :
      (xs : List Num) (d : Num) (i j : ℕ)
      → i ≤ j
      → j < length xs
      → IsSorted (earlier A w) xs
      → AtMost A (get_or xs i d) (get_or xs j d)
  get_or-IsSorted [] d i j h k s = absurd (omega arith)
  get_or-IsSorted (x ∷ xs) d zero zero h k s = o.lt_irrefl x
  get_or-IsSorted (x ∷ xs) d zero (suc j) h k (a, s) = get_or-Above x d xs j (omega arith) a
  get_or-IsSorted (x ∷ xs) d (suc i) zero h k s = absurd (omega arith)
  get_or-IsSorted (x ∷ xs) d (suc i) (suc j) h k (a, s) =
      get_or-IsSorted xs d i j (omega arith) (omega arith) s

  percentile-IsSorted :
      (ys : List Num) (p q : ℕ)
      → p ≤ q
      → q ≤ 100
      → IsSorted (earlier A w) ys
      → AtMost A (percentile A w p ys) (percentile A w q ys)
  unfolding percentile
  percentile-IsSorted [] p q h k s = o.lt_irrefl (num 0)
  percentile-IsSorted (y ∷ ys) p q h k s =
      get_or-IsSorted (y ∷ ys) (num 0) (p * (suc (length ys) - 1) / 100)
        (q * (suc (length ys) - 1) / 100) (omega (arith, mul-le-mul_right (suc (length ys) - 1) h))
        (omega (arith, mul-le-mul_right (suc (length ys) - 1) k)) s

  -- Of the same numbers, sorted as the simulation sorts them, a percentile is no greater than that for a
  -- higher percentage, up to 100. Numbers are ordered and their differences have signs (`IsOrdered`,
  -- `HasSigns`).
  pub percentile-sort :
      (xs : List Num) (p q : ℕ)
      → p ≤ q
      → q ≤ 100
      → AtMost A
          (percentile A w p (sort (earlier A w) xs))
          (percentile A w q (sort (earlier A w) xs))
  percentile-sort xs p q h k =
      percentile-IsSorted (sort (earlier A w) xs) p q h k
        (sort-IsSorted (earlier A w) earlier-IsConsistent xs)
