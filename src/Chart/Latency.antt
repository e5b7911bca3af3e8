-- ===== src/Chart/Latency.antt =====
-- frontend/src/components/LatencyChart.tsx and ResourceChart.tsx: the rows that the charts draw, the bands that
-- mark spikes, and the index under the mouse.
use micro_trace.Common.{
  ℕ, ◌+◌, ◌-◌, ◌*◌, ◌/◌, ltb, Bool, true, false, ◌&&◌, Option, none, some, List, [], ◌∷◌, ◌++◌, map,
  length, get_elem?, or_else, if◌then◌else◌,
}
use micro_trace.Common.Arith.{Arith}
use micro_trace.Types.{HistoryPoint, ResourcePoint}
use micro_trace.Chart.{Data}

-- `Math.max(0, n - Math.ceil(n * 0.18))`
unfoldable pub cut_index : ℕ → ℕ
cut_index n = n - (n * 18 + 99) / 100

module _ (A : Arith) where
  open A use {Num, num, div}

  abbrev pub seconds : Num → Num
  seconds t = div t (num 1000)

  unfoldable pub latency_rows : List (HistoryPoint A) → Data A
  latency_rows pts =
      map (λ p. seconds p.time) pts
      ∷ map (λ p. p.avg_us) pts
      ∷ map (λ p. p.p50_us) pts
      ∷ map (λ p. p.p95_us) pts
      ∷ map (λ p. p.p99_us) pts
      ∷ []

  unfoldable pub resource_rows : List (ResourcePoint A) → Data A
  resource_rows pts =
      map (λ p. seconds p.time) pts
      ∷ map (λ p. p.cpu_pct) pts
      ∷ map (λ p. p.io_wait_pct) pts
      ∷ map (λ p. p.mem_pressure_pct) pts
      ∷ []

  pub record Band : Type 0 where
    pub from : Num
    pub to : Num

  -- A point with its `is_spike`, which is `false` where the point lacks it, as all that the program makes do.
  abbrev pub Flagged : Type 0
  Flagged = HistoryPoint A × Bool

  abbrev is_last : List Flagged → Bool
  is_last [] = true
  is_last (p ∷ ps) = false

  -- The loop of `calcSpikeBands`: `start`, the time of `pts[i - 1]`, and the points from `i` on.
  -- A clean point closes the band that is open; the last point closes it too.
  unfoldable pub bands_from : Option Num → Num → List Flagged → List Band
  bands_from start before [] = []
  bands_from start before ((p, true) ∷ ps) =
      let from = or_else start (seconds p.time) in
      if is_last ps
      then record { from = from; to = seconds p.time } ∷ bands_from (some from) p.time ps
      else bands_from (some from) p.time ps
  bands_from none before ((p, false) ∷ ps) = bands_from none p.time ps
  bands_from (some from) before ((p, false) ∷ ps) =
      record { from = from; to = seconds before } ∷ bands_from none p.time ps

  abbrev pub time_at : ℕ → List Flagged → Num
  time_at i pts = elim (get_elem? pts i) [ none ↦ num 0 | some p ↦ seconds (p.0).time ]

  unfoldable pub calc_spike_bands : List Flagged → Bool → List Band
  unfolding cut_index bands_from
  calc_spike_bands pts is_spike =
      let bands = bands_from none (num 0) pts in
      if is_spike && ltb (length bands) 1 && ltb 1 (length pts)
      then bands
        ++ record { from = time_at (cut_index (length pts)) pts; to = time_at (length pts - 1) pts }
          ∷ []
      else bands

  -- The points that the program makes: none of them has `is_spike`.
  abbrev pub as_made : List (HistoryPoint A) → List Flagged
  as_made pts = map (λ p. (p, false)) pts

  abbrev pub last_point : HistoryPoint A → List (HistoryPoint A) → HistoryPoint A
  last_point p [] = p
  last_point p (q ∷ qs) = last_point q qs
