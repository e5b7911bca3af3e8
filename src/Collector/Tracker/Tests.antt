-- ===== src/Collector/Tracker/Tests.antt =====
-- The theorems about the collector's figures on a few events.
use micro_trace.Common.{
  ℕ, String, Bool, true, Option, none, some, is_some, or_else, List, [], ◌∷◌, str_eq, if◌then◌else◌,
  ◌≡◌, refl, arith,
}
use mathlib.Core.Option
use micro_trace.Common.Arith.{nat_arith}
use micro_trace.Common.Sort.{sort, place}
use micro_trace.Types.{CauseKind, Side, StatSnapshot, ResourceMsg}
use micro_trace.Collector.Ring.{write, add, samples, latest}
use micro_trace.Collector.Stats.{
  percentile_idx, sum_from, percentiles, update_flow, update_stable_p99, on_rtt, is_spike,
  ConnStats, new_conn_stats,
}
use micro_trace.Collector.Tracker.{
  EventKind, Event, Resolver, FlowKey, Tracked, Tracker, new_tracker, Step, event, measured,
  handle_event, keep_resource, step, run, detect_cause, report,
}
use micro_trace.Collector.Tracker.Known.{known, known_flow, Tells}
use micro_trace.Collector.Tracker.Total.{run_total}
use micro_trace.Collector.Tracker.Bounds.{HasEstimates, run-HasEstimates}
use micro_trace.Collector.Tracker.Cause.{Explains, latest_resource, report_explained}

abbrev docker : Resolver
docker = record {
  resolve = λ ip. if str_eq ip "10.0.0.1" then "web" else "db";
  is_internal = λ ip. true;
}

abbrev rtt_of : ℕ → Event
rtt_of us = record {
  kind = EventKind.rtt;
  pid = 7;
  saddr = "10.0.0.1";
  daddr = "10.0.0.2";
  dport = 5432;
  latency_us = us;
}

abbrev throttled : ResourceMsg nat_arith
throttled = record {
  service_name = "db";
  timestamp_ms = 1;
  cpu_pct = 90;
  cpu_throttle_pct = 30;
  mem_current_bytes = 1;
  mem_limit_bytes = 2;
  mem_pressure_pct = 0;
  io_read_bytes_per_s = 0;
  io_write_bytes_per_s = 0;
  io_wait_pct = 0;
  oom_kill_count = 0;
}

abbrev scene : List (Step nat_arith)
scene =
    measured throttled
    ∷ event docker (rtt_of 9000) 3
    ∷ event docker (rtt_of 0) 2
    ∷ event docker (rtt_of 100) 2
    ∷ event docker (rtt_of 100) 1
    ∷ event docker (rtt_of 100) 0
    ∷ []

run_total_example :
    (t : Tracker nat_arith) × (run nat_arith scene ≡ some t)
    × ((src dst : String) → Tells (t.conns src dst) (known src dst scene))
    × ((k : FlowKey) → t.flows k ≡ known_flow k scene)
run_total_example = run_total nat_arith scene

abbrev after : Tracker nat_arith
unfolding run step handle_event keep_resource
after = or_else (run nat_arith scene) (new_tracker nat_arith)

scene_runs : run nat_arith scene ≡ some after
unfolding run step handle_event keep_resource on_rtt update_flow update_stable_p99 percentiles add
    write samples percentile_idx sum_from sort place
scene_runs = refl

abbrev web_db : FlowKey
web_db = record { sock_id = 7; saddr = "10.0.0.1"; daddr = "10.0.0.2"; dport = 5432 }

run-HasEstimates_example : HasEstimates 9000 (after.flows web_db)
run-HasEstimates_example =
    run-HasEstimates nat_arith 9000 web_db scene after (omega arith)
      (
        λ h. omega arith,
        (λ h. omega arith, (λ h. omega arith, (λ h. omega arith, (λ h. omega arith, tt)))),
      )
      scene_runs

abbrev ap_stats : Option Tracked → Option ConnStats
ap_stats none = none
ap_stats (some c) = some c.stats

abbrev known_conn : Tracked
unfolding run step handle_event keep_resource
known_conn = record {
  stats = or_else (ap_stats (after.conns "web" "db")) new_conn_stats;
  last_seen = 3;
  src_type = Side.internal;
  dst_type = Side.internal;
}

web_db_tracked : after.conns "web" "db" ≡ some known_conn
unfolding run step handle_event keep_resource on_rtt update_flow update_stable_p99 percentiles add
    write samples percentile_idx sum_from sort place
web_db_tracked = refl

-- The last time is a spike, and its cause the throttling of the target.
report_has_cause :
    Option.map {B = Bool × Option CauseKind × ℕ}
      (λ (s : StatSnapshot nat_arith). (s.is_spike, s.cause_kind, s.spike_threshold_us))
      (report nat_arith "web" "db" known_conn after)
    ≡ some (true, some CauseKind.cpu, 300)
unfolding run step handle_event keep_resource on_rtt update_flow update_stable_p99 percentiles add
    write samples percentile_idx sum_from sort place report is_spike latest detect_cause
report_has_cause = refl

report_explained_example :
    (snap : StatSnapshot nat_arith) × (report nat_arith "web" "db" known_conn after ≡ some snap)
    × (is_some snap.cause_kind ≡ snap.is_spike)
    × Explains nat_arith snap.cause_kind snap.dst_type (latest_resource nat_arith "db" scene)
report_explained_example =
    report_explained nat_arith scene after "web" "db" known_conn scene_runs web_db_tracked
