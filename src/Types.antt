-- ===== src/Types.antt =====
-- frontend/src/types.ts: the messages of the collector and the records that the dashboard keeps.
-- A `number` that the program measures or compares is a `Num` of the arithmetic; a count is a natural number.
use micro_trace.Common.{ℕ, String, Bool, Option, List}
use micro_trace.Common.Arith.{Arith}

pub data CauseKind : Type 0 where
  network cpu io memory external : CauseKind

-- `null` is `none`
pub data Stress : Type 0 where
  cpu io memory : Stress

abbrev pub StressKind : Type 0
StressKind = Option Stress

pub data Side : Type 0 where
  internal external : Side

pub data Severity : Type 0 where
  warning critical : Severity

pub data MsgType : Type 0 where
  stats event remove history resource : MsgType

pub record CloseStates : Type 0 where
  pub fin : ℕ
  pub rst : ℕ
  pub timeout : ℕ

module _ (A : Arith) where
  open A use {Num}

  pub record StatSnapshot : Type 0 where
    pub src_service : String
    pub dst_service : String
    pub src_type : Side
    pub dst_type : Side
    pub latest_srtt_us : Num
    pub avg_us : Num
    pub p50_us : Num
    pub p95_us : Num
    pub p99_us : Num
    pub jitter_us : Num
    pub retransmit_count : ℕ
    pub sample_count : ℕ
    pub is_spike : Bool
    pub spike_threshold_us : Num
    pub cause_kind : Option CauseKind
    pub close_states : Option CloseStates
    pub dst_cpu_pct : Option Num
    pub dst_io_wait_pct : Option Num
    pub dst_mem_pressure_pct : Option Num
    pub baseline_us : Option Num

  pub record ResourcePoint : Type 0 where
    pub time : Num
    pub cpu_pct : Num
    pub io_wait_pct : Num
    pub mem_pressure_pct : Num
    pub cpu_throttle_pct : Num

  pub record ServiceSnapshot : Type 0 where
    pub name : String
    pub cpu_pct : Num
    pub io_wait_pct : Num
    pub mem_pressure_pct : Num
    pub cpu_throttle_pct : Num
    pub stress_kind : StressKind
    pub history : List ResourcePoint

  pub record SpikeEvent : Type 0 where
    pub id : String
    pub timestamp : Num
    pub key : String
    pub src : String
    pub dst : String
    pub p99_us : Num
    pub baseline_us : Num
    pub severity : Severity
    pub cause_kind : CauseKind
    pub dst_cpu_pct : Num
    pub dst_io_wait_pct : Num
    pub dst_mem_pressure_pct : Num

  pub record HistoryPoint : Type 0 where
    pub time : Num
    pub latest_srtt_us : Num
    pub avg_us : Num
    pub p50_us : Num
    pub p95_us : Num
    pub p99_us : Num
    pub jitter_us : Num

  pub record ConnHistory : Type 0 where
    pub key : String
    pub points : List HistoryPoint

  pub record ResourceMsg : Type 0 where
    pub service_name : String
    pub timestamp_ms : Num
    pub cpu_pct : Num
    pub cpu_throttle_pct : Num
    pub mem_current_bytes : Num
    pub mem_limit_bytes : Num
    pub mem_pressure_pct : Num
    pub io_read_bytes_per_s : Num
    pub io_write_bytes_per_s : Num
    pub io_wait_pct : Num
    pub oom_kill_count : Num

  -- The optional parts are `undefined` where the message lacks them.
  pub record OutboundMsg : Type 0 where
    pub msg_type : MsgType
    pub stats : Option StatSnapshot
    pub remove_key : Option String
    pub history : Option (List ConnHistory)
    pub resource : Option ResourceMsg
