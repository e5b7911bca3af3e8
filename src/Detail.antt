-- ===== src/Detail.antt =====
-- frontend/src/components/DetailPanel.tsx: the time range of the chart with its requests to the collector's
-- history API, and what the panel of a connection shows.
pub mod Laws
pub mod InOrder
pub mod View
mod Tests
use micro_trace.Common.{
  ℕ, zero, suc, ◌+◌, ltb, String, Bool, true, false, ◌&&◌, Option, none, some, List, [], ◌∷◌, ◌++◌,
  map, or_else, is_some, if◌then◌else◌, str_eq,
}
use micro_trace.Common.Arith.{Arith, gt}
use micro_trace.Types.{StatSnapshot, HistoryPoint, CauseKind, CloseStates}

pub data RangeKey : Type 0 where
  hour_1 hour_6 hour_24 day_7 all : RangeKey

pub record Request : Type 0 where
  pub src : String
  pub dst : String
  pub range : RangeKey

-- A row of the API's answer.
pub record ApiRow (A : Arith) : Type 0 where
  pub ts : A.Num
  pub p50_us : A.Num
  pub p95_us : A.Num
  pub p99_us : A.Num
  pub avg_us : A.Num
  pub jitter_us : A.Num

module _ (A : Arith) where
  unfoldable pub to_point : ApiRow A → HistoryPoint A
  to_point row = record {
    time = row.ts;
    latest_srtt_us = row.p99_us;
    avg_us = row.avg_us;
    p50_us = row.p50_us;
    p95_us = row.p95_us;
    p99_us = row.p99_us;
    jitter_us = row.jitter_us;
  }

  -- `conn` is `snap?.src_service` and `snap?.dst_service`; `range` is `null` for the live chart. `pending` are the requests that
  -- the browser has sent and that are not answered yet, oldest first.
  pub record RangeState : Type 0 where
    pub conn : Option (String × String)
    pub range : Option RangeKey
    pub db_history : Option (List (HistoryPoint A))
    pub pending : List Request

  abbrev pub initial : RangeState
  initial = record { conn = none; range = none; db_history = none; pending = [] }

  abbrev pub same_conn : Option (String × String) → Option (String × String) → Bool
  same_conn none none = true
  same_conn (some (a, b)) (some (c, d)) = str_eq a c && str_eq b d
  same_conn _ _ = false

  -- The effect that runs when the connection shown is another than before.
  unfoldable pub show_conn : Option (String × String) → RangeState → RangeState
  show_conn conn s =
      if same_conn s.conn conn then s else record s { conn = conn; range = none; db_history = none }

  unfoldable pub handle_range : RangeKey → RangeState → RangeState
  handle_range r s = elim s.conn [
    | none ↦ s
    | some c ↦ record s {
      range = some r;
      pending = s.pending ++ record { src = c.0; dst = c.1; range = r } ∷ [];
    }
  ]

  unfoldable pub handle_live : RangeState → RangeState
  handle_live s = record s { range = none; db_history = none }

  -- The rest of `fetchHistory`, once the answer is there; `none` is a request that failed, which is only logged.
  unfoldable pub finish_fetch : Option (List (ApiRow A)) → RangeState → RangeState
  finish_fetch none s = s
  finish_fetch (some rows) s = record s { db_history = some (map to_point rows) }

  abbrev pub drop_at : ℕ → List Request → List Request
  drop_at i [] = []
  drop_at zero (r ∷ rs) = rs
  drop_at (suc i) (r ∷ rs) = r ∷ drop_at i rs

  abbrev pub request_at : ℕ → List Request → Option Request
  request_at i [] = none
  request_at zero (r ∷ rs) = some r
  request_at (suc i) (r ∷ rs) = request_at i rs

  -- The i-th request is answered; the collector's answers are `serve`. Requests may be answered in any order.
  unfoldable pub answer : (Request → Option (List (ApiRow A))) → ℕ → RangeState → RangeState
  unfolding finish_fetch
  answer serve i s = elim (request_at i s.pending) [
    | none ↦ s
    | some q ↦ finish_fetch (serve q) (record s { pending = drop_at i s.pending })
  ]

  -- `displayHistory`, from the live points
  unfoldable pub display_history : List (HistoryPoint A) → RangeState → List (HistoryPoint A)
  display_history live s =
      if is_some s.range && is_some s.db_history then or_else s.db_history [] else live

  open A use {Num, num, lt, div}

  -- The evidence chips of the banner: those whose figure is over its threshold.
  pub data Chip : Type 0 where
    cpu io_wait mem : Num → Chip
    retrans : ℕ → Chip

  abbrev pub chip_over : (Num → Chip) → ℕ → Option Num → List Chip
  chip_over chip limit none = []
  chip_over chip limit (some pct) = if gt A pct (num limit) then chip pct ∷ [] else []

  unfoldable pub evidence : StatSnapshot A → List Chip
  evidence snap =
      chip_over cpu 50 snap.dst_cpu_pct
      ++ (chip_over io_wait 20 snap.dst_io_wait_pct
          ++ (chip_over mem 50 snap.dst_mem_pressure_pct
              ++ (if ltb 0 snap.retransmit_count then retrans snap.retransmit_count ∷ [] else [])))

  -- The banner is there in a spike with a known cause.
  unfoldable pub banner : StatSnapshot A → Option (CauseKind × List Chip)
  unfolding evidence
  banner snap = elim snap.cause_kind [
    | none ↦ none
    | some kind ↦ if snap.is_spike then some (kind, evidence snap) else none
  ]

  unfoldable pub close_total : Option CloseStates → ℕ
  close_total none = 0
  close_total (some c) = c.fin + c.rst + c.timeout
