-- ===== src/Collector/Stats.antt =====
-- collector/stats/stats.go: what the collector works out for one connection and for one flow. `uint64` wraps around at `wide`.
use micro_trace.Common.{
  ℕ, ◌+◌, ◌-◌, ◌*◌, ◌/◌, ◌%◌, ltb, leb, ◌==◌, Bool, true, false, ◌||◌, Option, none, some, List, [],
  ◌∷◌, get_elem?, if◌then◌else◌,
}
use micro_trace.Common.Sort.{sort}
use micro_trace.Collector.Ring.{Ring, add, samples, empty}

-- 2 ^ 64
abbrev pub wide : ℕ
wide = 18446744073709551616

-- `idx` of `percentileIdx`
unfoldable pub percentile_idx : ℕ → ℕ → ℕ
percentile_idx n p = let idx = n * p / 100 in if ltb idx n then idx else n - 1

unfoldable pub sum_from : ℕ → List ℕ → ℕ
sum_from acc [] = acc
sum_from acc (x ∷ xs) = sum_from ((acc + x) % wide) xs

pub record Percentiles : Type 0 where
  pub avg : ℕ
  pub p50 : ℕ
  pub p95 : ℕ
  pub p99 : ℕ

-- An index out of range is a panic.
abbrev pub percentiles_of : ℕ → Option ℕ → Option ℕ → Option ℕ → Option Percentiles
percentiles_of avg (some a) (some b) (some c) =
    some (record { avg = avg; p50 = a; p95 = b; p99 = c })
percentiles_of avg _ _ _ = none

abbrev pub at : ℕ → List ℕ → ℕ → Option ℕ
at n sorted p = get_elem? sorted (percentile_idx n p)

unfoldable pub percentiles : Ring → Option Percentiles
unfolding percentile_idx sum_from
percentiles r =
    if ltb 0 r.count
    then (let sorted = sort ltb (samples r) in
        percentiles_of (sum_from 0 (samples r) / r.count) (at r.count sorted 50)
          (at r.count sorted 95) (at r.count sorted 99))
    else some (record { avg = 0; p50 = 0; p95 = 0; p99 = 0 })

-- What is kept of a flow: `srttUs`, `mdevUs` and `initialized`.
pub record Flow : Type 0 where
  pub srtt : ℕ
  pub mdev : ℕ
  pub initialized : Bool

abbrev pub new_flow : Flow
new_flow = record { srtt = 0; mdev = 0; initialized = false }

abbrev pub abs_diff : ℕ → ℕ → ℕ
abs_diff a b = if ltb b a then a - b else b - a

-- `updateFlowMdev`; what it returns is the `mdev` that it leaves.
unfoldable pub update_flow : ℕ → Flow → Flow
update_flow rtt f =
    if f.initialized
    then record f {
      mdev = ((3 * f.mdev) % wide + abs_diff rtt f.srtt) % wide / 4;
      srtt = ((7 * f.srtt) % wide + rtt) % wide / 8;
    }
    else record { srtt = rtt; mdev = 0; initialized = true }

-- What is kept of a connection, without its times, types and history.
pub record ConnStats : Type 0 where
  pub rtt : Ring
  pub jitter : Ring
  pub stable_p99 : ℕ
  pub retransmit : ℕ

abbrev pub new_conn_stats : ConnStats
new_conn_stats = record { rtt = empty; jitter = empty; stable_p99 = 0; retransmit = 0 }

abbrev pub keep_or_set : ℕ → Percentiles → ConnStats → ConnStats
keep_or_set jitter p s =
    if p.p99 == 0
    then s
    else if s.stable_p99 == 0 || leb jitter (p.p50 / 2)
    then record s { stable_p99 = p.p99 }
    else s

unfoldable pub update_stable_p99 : ℕ → ConnStats → Option ConnStats
unfolding percentiles
update_stable_p99 jitter s = elim (percentiles s.rtt) [
  | none ↦ none
  | some p ↦ some (keep_or_set jitter p s)
]

-- The case of a `connect` or `rtt` event in `handleEvent` whose time is not 0: the flow and the connection after it.
unfoldable pub on_rtt : ℕ → Flow → ConnStats → Option (Flow × ConnStats)
unfolding update_flow update_stable_p99
on_rtt us f s =
    let f' = update_flow us f in
    let s' = record s { rtt = add us s.rtt; jitter = add f'.mdev s.jitter } in
    elim (update_stable_p99 f'.mdev s') [ none ↦ none | some t ↦ some (f', t) ]

unfoldable pub on_retransmit : ConnStats → ConnStats
on_retransmit s = record s { retransmit = (s.retransmit + 1) % 4294967296 }

-- `isSpike`: whether the latest time is over the threshold, and the threshold.
abbrev pub against : ℕ → ℕ → Bool × ℕ
against us baseline =
    if baseline == 0 then (false, 0) else (ltb (baseline * 3 % wide) us, baseline * 3 % wide)

unfoldable pub is_spike : ℕ → ConnStats → Option (Bool × ℕ)
unfolding percentiles
is_spike us s =
    if s.stable_p99 == 0
    then elim (percentiles s.rtt) [ none ↦ none | some p ↦ some (against us p.p99) ]
    else some (against us s.stable_p99)
