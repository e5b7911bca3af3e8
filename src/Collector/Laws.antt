-- ===== src/Collector/Laws.antt =====
-- What collector/stats/stats.go works out: the percentiles of a connection, and that they do not panic.
use micro_trace.Common.{
  ℕ, zero, suc, ◌*◌, ◌<◌, ◌≤◌, ltb, some, List, [], ◌∷◌, length, get_elem?, get_or, ◌≡◌, refl, ◌∙◌,
  arith, Bool-cases, inl, inr,
}
use micro_trace.Common.Sort.{sort, length-sort, Above, IsSorted, IsConsistent, sort-IsSorted}
use micro_trace.Collector.Ring.{Ring, add, samples, IsRing, length-samples}
use micro_trace.Collector.Stats.{
  wide, percentile_idx, Percentiles, percentiles, percentiles_of, at, Flow, abs_diff, update_flow,
  ConnStats, keep_or_set, update_stable_p99, on_rtt,
}

percentile_idx-lt : (n p : ℕ) → 0 < n → percentile_idx n p < n
unfolding percentile_idx
percentile_idx-lt n p h = ground arith

percentile_idx-le : (n p q : ℕ) → 0 < n → n * p ≤ n * q → percentile_idx n p ≤ percentile_idx n q
unfolding percentile_idx
percentile_idx-le n p q h k = ground arith

get_elem?-get_or : (xs : List ℕ) (i : ℕ) → i < length xs → get_elem? xs i ≡ some (get_or xs i 0)
get_elem?-get_or [] i h = absurd (omega arith)
get_elem?-get_or (x ∷ xs) zero h = refl
get_elem?-get_or (x ∷ xs) (suc i) h = get_elem?-get_or xs i (omega arith)

ltb-IsConsistent : IsConsistent ltb
ltb-IsConsistent = record {
  asymm = λ a b h. ground (arith, h);
  ge_trans = λ a b c h k. ground (arith, h, k);
}

get_or-Above : (x : ℕ) (xs : List ℕ) (j : ℕ) → j < length xs → Above ltb x xs → x ≤ get_or xs j 0
get_or-Above x [] j h a = absurd (omega arith)
get_or-Above x (y ∷ ys) zero h (p, a) = ground (arith, p)
get_or-Above x (y ∷ ys) (suc j) h (p, a) = get_or-Above x ys j (omega arith) a

get_or-IsSorted :
    (xs : List ℕ) (i j : ℕ)
    → i ≤ j
    → j < length xs
    → IsSorted ltb xs
    → get_or xs i 0 ≤ get_or xs j 0
get_or-IsSorted [] i j h k s = absurd (omega arith)
get_or-IsSorted (x ∷ xs) zero zero h k s = omega arith
get_or-IsSorted (x ∷ xs) zero (suc j) h k (a, s) = get_or-Above x xs j (omega arith) a
get_or-IsSorted (x ∷ xs) (suc i) zero h k s = absurd (omega arith)
get_or-IsSorted (x ∷ xs) (suc i) (suc j) h k (a, s) =
    get_or-IsSorted xs i j (omega arith) (omega arith) s

abbrev IsOrderedBy : Percentiles → Type 0
IsOrderedBy p = (p.p50 ≤ p.p95) × (p.p95 ≤ p.p99)

read-sorted :
    (avg n : ℕ) (xs : List ℕ)
    → 0 < n
    → length xs ≡ n
    → IsSorted ltb xs
    → (p : Percentiles) × (percentiles_of avg (at n xs 50) (at n xs 95) (at n xs 99) ≡ some p)
      × IsOrderedBy p
read-sorted avg n xs h e s =
    let found : (p : ℕ) → at n xs p ≡ some (get_or xs (percentile_idx n p) 0) =
      λ p. get_elem?-get_or xs (percentile_idx n p) (omega (arith, e, percentile_idx-lt n p h)) in
    let le : (p q : ℕ)
        → n * p ≤ n * q
        → get_or xs (percentile_idx n p) 0 ≤ get_or xs (percentile_idx n q) 0 =
      λ p q k.
        get_or-IsSorted xs (percentile_idx n p) (percentile_idx n q) (percentile_idx-le n p q h k)
          (omega (arith, e, percentile_idx-lt n q h)) s in
    (
      record {
        avg = avg;
        p50 = get_or xs (percentile_idx n 50) 0;
        p95 = get_or xs (percentile_idx n 95) 0;
        p99 = get_or xs (percentile_idx n 99) 0;
      },
      rw (found 50, found 95, found 99) refl,
      (le 50 95 (omega arith), le 95 99 (omega arith)),
    )

-- The indices of the percentiles are in range, whatever a ring buffer holds: there are percentiles, and a higher one is no smaller.
pub percentiles_total :
    (r : Ring) → IsRing r → (p : Percentiles) × (percentiles r ≡ some p) × IsOrderedBy p
unfolding percentiles
percentiles_total r h = elim (Bool-cases (ltb 0 r.count)) [
  | inl e ↦ rw e (
      read-sorted _ r.count (sort ltb (samples r)) (ground (arith, e))
        (length-sort ltb (samples r) ∙ length-samples r)
        (sort-IsSorted ltb ltb-IsConsistent (samples r)))
  | inr e ↦ rw e (record { avg = 0; p50 = 0; p95 = 0; p99 = 0 }, refl, (omega arith, omega arith))
]

-- A flow whose estimates are `b` at most.
abbrev pub IsWithin : ℕ → Flow → Type 0
IsWithin b f = (f.srtt ≤ b) × (f.mdev ≤ b)

diff_le : (b x y : ℕ) → x ≤ b → y ≤ b → abs_diff x y ≤ b
diff_le b x y h k = ground arith

pub update_flow-IsWithin :
    (b us : ℕ) (f : Flow) → 8 * b < wide → us ≤ b → IsWithin b f → IsWithin b (update_flow us f)
unfolding update_flow
update_flow-IsWithin b us f w h (s, m) = elim (Bool-cases f.initialized) [
  | inl e ↦ rw e (omega arith, omega (arith, diff_le b us f.srtt h s))
  | inr e ↦ rw e (h, omega arith)
]

pub keep_or_set-rtt : (j : ℕ) (p : Percentiles) (s : ConnStats) → (keep_or_set j p s).rtt ≡ s.rtt
keep_or_set-rtt j p s = ground arith

update_eq :
    (j : ℕ) (s : ConnStats) (p : Percentiles)
    → percentiles s.rtt ≡ some p
    → update_stable_p99 j s ≡ some (keep_or_set j p s)
unfolding update_stable_p99
update_eq j s p e = rw (e, update_stable_p99) refl

pub on_rtt_eq :
    (us : ℕ) (f : Flow) (s : ConnStats) (p : Percentiles)
    → percentiles (add us s.rtt) ≡ some p
    → on_rtt us f s
      ≡ some (
        update_flow us f,
        keep_or_set
            (update_flow us f).mdev
            p
            (record s { rtt = add us s.rtt; jitter = add (update_flow us f).mdev s.jitter }),
      )
unfolding on_rtt
on_rtt_eq us f s p e =
    let s' = record s { rtt = add us s.rtt; jitter = add (update_flow us f).mdev s.jitter } in
    rw (update_eq (update_flow us f).mdev s' p e, on_rtt) refl
