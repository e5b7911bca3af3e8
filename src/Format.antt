-- ===== src/Format.antt =====
-- frontend/src/utils/format.ts: how latencies are printed and graded.
pub mod Laws
mod Tests
use micro_trace.Common.{String, ltb, ◌/◌, if◌then◌else◌}
use micro_trace.Common.Arith.{Arith, ge}
use Prim.Native.String.{◌++◌}

pub data Status : Type 0 where
  ok warning high critical : Status

abbrev pub status_color : Status → String
status_color ok = "#16a34a"
status_color warning = "#d97706"
status_color high = "#ea580c"
status_color critical = "#dc2626"

abbrev pub status_bg : Status → String
status_bg ok = "#dcfce7"
status_bg warning = "#fef3c7"
status_bg high = "#fed7aa"
status_bg critical = "#fee2e2"

module _ (A : Arith) where
  open A use {Num, num, lt, sub, div, floor, to_fixed, show, show_rounded}

  unfoldable pub latency_status : Num → Status
  latency_status p99_us =
      if lt p99_us (num 5000)
      then ok
      else if lt p99_us (num 20000)
      then warning
      else if lt p99_us (num 100000)
      then high
      else critical

  unfoldable pub fmt_us : Num → String
  fmt_us us =
      if ge A us (num 1000000)
      then to_fixed (div us (num 1000000)) 1 ++ "s"
      else if ge A us (num 1000)
      then to_fixed (div us (num 1000)) (if ge A us (num 10000) then 1 else 2) ++ "ms"
      else show_rounded us ++ "µs"

  unfoldable pub fmt_y_label : Num → String
  fmt_y_label us =
      if ge A us (num 1000000)
      then to_fixed (div us (num 1000000)) 1 ++ "s"
      else if ge A us (num 1000)
      then to_fixed (div us (num 1000)) (if ge A us (num 10000) then 0 else 1) ++ "ms"
      else show_rounded us ++ "µs"

  -- `now` is `Date.now()`; the events of the log are not younger than it.
  unfoldable pub time_ago : Num → Num → String
  time_ago now ts =
      let s = floor (div (sub now ts) (num 1000)) in
      if ltb s 60
      then show (num s) ++ "s ago"
      else if ltb s 3600
      then show (num (s / 60)) ++ "m ago"
      else show (num (s / 3600)) ++ "h ago"
