-- ===== src/Proto/Chart/Limits.antt =====
-- The scale of values of mt-chart.jsx.
use micro_trace.Common.{String, List, [], ◌∷◌, arith}
use micro_trace.Common.Arith.{Arith, IsOrdered, max_num, min_num}
use micro_trace.Common.Order.{
  AtMost, AtMost-trans, min_num-le_left, min_num-le_right, le-min_num, max_num-le, max_num-ge_left,
}
use micro_trace.Mock.Chance.{World}
use micro_trace.Proto.Views.{least, greatest}
use micro_trace.Proto.Chart.{y_limits}

-- A number that is not negative does not shrink by a factor of 1.15, nor grow by one of 0.85; adding 500 makes no number less, and taking 200
-- away makes none greater.
pub record IsRoomy (A : Arith) : Type 0 where
  pub grows :
      (a : A.Num) → AtMost A (A.num 0) a → AtMost A a (A.mul a (A.div (A.num 115) (A.num 100)))
  pub shrinks :
      (a : A.Num) → AtMost A (A.num 0) a → AtMost A (A.mul a (A.div (A.num 85) (A.num 100))) a
  pub above : (a : A.Num) → AtMost A a (A.add a (A.num 500))
  pub below : (a : A.Num) → AtMost A (A.sub a (A.num 200)) a

module _ (A : Arith) (w : World A) (o : IsOrdered A) (r : IsRoomy A)
    (fmt_time : A.Num → String) where
  open A use {Num, num, lt, add, sub, mul, div}

  -- Every one of the numbers lies between the two.
  abbrev pub Between : Num → Num → List Num → Type 0
  Between a b [] = Unit
  Between a b (x ∷ xs) = (AtMost A a x × AtMost A x b) × Between a b xs

  max_num-ge_right : (a b : Num) → AtMost A b (max_num A a b)
  unfolding max_num
  max_num-ge_right a b = ground (arith, o.lt_irrefl b)

  least-le : (acc : Num) (vs : List Num) → AtMost A (least A w acc vs) acc
  unfolding least
  least-le acc [] = o.lt_irrefl acc
  least-le acc (v ∷ vs) =
      AtMost-trans A o (least A w (min_num A acc v) vs) (min_num A acc v) acc
        (least-le (min_num A acc v) vs) (min_num-le_left A o acc v)

  greatest-ge : (acc : Num) (vs : List Num) → AtMost A acc (greatest A w acc vs)
  unfolding greatest
  greatest-ge acc [] = o.lt_irrefl acc
  greatest-ge acc (v ∷ vs) =
      AtMost-trans A o acc (max_num A acc v) (greatest A w (max_num A acc v) vs)
        (max_num-ge_left A o acc v) (greatest-ge (max_num A acc v) vs)

  Between-extremes :
      (acc acc' : Num) (vs : List Num) → Between (least A w acc vs) (greatest A w acc' vs) vs
  unfolding least greatest
  Between-extremes acc acc' [] = tt
  Between-extremes acc acc' (v ∷ vs) = (
    (
      AtMost-trans A o (least A w (min_num A acc v) vs) (min_num A acc v) v
          (least-le (min_num A acc v) vs) (min_num-le_right A o acc v),
      AtMost-trans A o v (max_num A acc' v) (greatest A w (max_num A acc' v) vs)
          (max_num-ge_right acc' v) (greatest-ge (max_num A acc' v) vs),
    ),
    Between-extremes (min_num A acc v) (max_num A acc' v) vs,
  )

  Between-wider :
      (a b a' b' : Num) (vs : List Num)
      → AtMost A a' a
      → AtMost A b b'
      → Between a b vs
      → Between a' b' vs
  Between-wider a b a' b' [] h k p = tt
  Between-wider a b a' b' (v ∷ vs) h k ((p, q), rest) = (
    (AtMost-trans A o a' a v h p, AtMost-trans A o v b b' q k),
    Between-wider a b a' b' vs h k rest,
  )

  -- None of the numbers is negative.
  abbrev pub AllAtLeast : Num → List Num → Type 0
  AllAtLeast a [] = Unit
  AllAtLeast a (v ∷ vs) = AtMost A a v × AllAtLeast a vs

  le-least :
      (a acc : Num) (vs : List Num)
      → AtMost A a acc
      → AllAtLeast a vs
      → AtMost A a (least A w acc vs)
  unfolding least
  le-least a acc [] h all = h
  le-least a acc (v ∷ vs) h (k, all) =
      le-least a (min_num A acc v) vs (le-min_num A o a acc v h k) all

  -- The two limits before room is made.
  wide :
      (lo hi : Num)
      → AtMost A (num 0) lo
      → AtMost A (num 0) hi
      → AtMost A (max_num A (num 0) (mul lo (div (num 85) (num 100)))) lo
        × AtMost A hi (mul hi (div (num 115) (num 100)))
  wide lo hi p q =
      (max_num-le A o lo (num 0) (mul lo (div (num 85) (num 100))) p (r.shrinks lo p), r.grows hi q)

  wider :
      (y_min y_max lo hi : Num)
      → AtMost A (num 0) lo
      → AtMost A y_min lo
      → AtMost A hi y_max
      → AtMost A (max_num A (num 0) (sub y_min (num 200))) lo × AtMost A hi (add y_max (num 500))
  wider y_min y_max lo hi p h k = (
    max_num-le A o lo (num 0) (sub y_min (num 200)) p
        (AtMost-trans A o (sub y_min (num 200)) y_min lo (r.below y_min) h),
    AtMost-trans A o hi y_max (add y_max (num 500)) k (r.above y_max),
  )

  y_limits-wide :
      (v : Num) (vs : List Num)
      → AtMost A (num 0) v
      → AllAtLeast (num 0) vs
      → AtMost A (y_limits A w fmt_time v vs).0 (least A w v vs)
        × AtMost A (greatest A w v vs) (y_limits A w fmt_time v vs).1
  unfolding y_limits
  y_limits-wide v vs h all =
      let lo = least A w v vs in
      let hi = greatest A w v vs in
      let p : AtMost A (num 0) lo = le-least (num 0) v vs h all in
      let q : AtMost A (num 0) hi = AtMost-trans A o (num 0) v hi h (greatest-ge v vs) in
      let (a, b) = wide lo hi p q in
      let (c, d) = wider _ _ lo hi p a b in ground (arith, a, b, c, d)

  -- Of values of which none is negative, each lies between the limits of the chart of latencies, however many there are and however little
  -- they differ. Numbers are ordered (`IsOrdered`), and factors and sums are as `IsRoomy` states.
  pub y_limits-Between :
      (v : Num) (vs : List Num)
      → AtMost A (num 0) v
      → AllAtLeast (num 0) vs
      → Between (y_limits A w fmt_time v vs).0 (y_limits A w fmt_time v vs).1 vs
  y_limits-Between v vs h all =
      let (a, b) = y_limits-wide v vs h all in
      Between-wider (least A w v vs) (greatest A w v vs) (y_limits A w fmt_time v vs).0
        (y_limits A w fmt_time v vs).1 vs a b (Between-extremes v v vs)
