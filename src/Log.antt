-- ===== src/Log.antt =====
-- frontend/src/components/SpikeLog.tsx with constants/causes.ts: the rows of the event log.
-- `fmt_time` is the clock time of `fmtTime`, which is the browser's local time.
pub mod Laws
mod Tests
use Prim.Native.String.{◌++◌ as concat}
use micro_trace.Common.{String, Bool, List, [], ◌∷◌, map, if◌then◌else◌}
use micro_trace.Common.Arith.{Arith, gt}
use micro_trace.Types.{SpikeEvent, CauseKind, Severity}
use micro_trace.Format.{fmt_us, time_ago}

-- An entry of `CAUSE_META`.
pub record CauseMeta : Type 0 where
  pub label : String
  pub color : String
  pub icon : String
  pub desc : String

abbrev pub cause_meta : CauseKind → CauseMeta
cause_meta CauseKind.network = record {
  label = "Network";
  color = "#2563eb";
  icon = "🌐";
  desc = "TCP/네트워크 지연 또는 재전송";
}
cause_meta CauseKind.cpu = record {
  label = "CPU";
  color = "#dc2626";
  icon = "🔥";
  desc = "CPU throttling 또는 포화";
}
cause_meta CauseKind.io = record {
  label = "Disk I/O";
  color = "#7c3aed";
  icon = "💾";
  desc = "I/O wait 대기 시간 증가";
}
cause_meta CauseKind.memory = record {
  label = "Memory";
  color = "#ea580c";
  icon = "🧠";
  desc = "Memory pressure 발생";
}
cause_meta CauseKind.external = record {
  label = "External API";
  color = "#d97706";
  icon = "🔌";
  desc = "외부 의존성 지연";
}

-- `isCrit ? '#dc2626' : '#d97706'`, the colour of the dot and of the figures
abbrev pub severity_color : Severity → String
severity_color Severity.critical = "#dc2626"
severity_color Severity.warning = "#d97706"

abbrev pub severity_bg : Severity → String
severity_bg Severity.critical = "#fef2f2"
severity_bg Severity.warning = "#fef3c7"

module _ (A : Arith) (fmt_time : A.Num → String) where
  open A use {Num, num, div, to_fixed}

  pub record LogRow : Type 0 where
    -- what a click on the row selects
    pub key : String
    pub dot : String
    pub time : String
    pub src : String
    pub dst : String
    pub cause : CauseMeta
    pub p99 : String
    pub p99_color : String
    pub times : String
    pub times_bg : String
    pub ago : String

  -- How many times the baseline, or a dash where there is none.
  unfoldable pub times_of : Num → Num → String
  times_of p99_us baseline_us =
      if gt A baseline_us (num 0) then concat (to_fixed (div p99_us baseline_us) 1) "×" else "—"

  unfoldable pub log_row : Num → SpikeEvent A → LogRow
  unfolding times_of
  log_row now ev = record {
    key = ev.key;
    dot = severity_color ev.severity;
    time = fmt_time ev.timestamp;
    src = ev.src;
    dst = ev.dst;
    cause = cause_meta ev.cause_kind;
    p99 = concat "P99 " (fmt_us A ev.p99_us);
    p99_color = severity_color ev.severity;
    times = times_of ev.p99_us ev.baseline_us;
    times_bg = severity_bg ev.severity;
    ago = time_ago A now ev.timestamp;
  }

  -- The page's log: a line that all is well, or the rows.
  pub data LogView : Type 0 where
    all_normal : LogView
    listed : List LogRow → LogView

  unfoldable pub log_view : Num → List (SpikeEvent A) → LogView
  unfolding log_row
  log_view now [] = all_normal
  log_view now (ev ∷ evs) = listed (map (log_row now) (ev ∷ evs))
