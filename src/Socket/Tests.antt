-- ===== src/Socket/Tests.antt =====
-- The theorems about useWebSocket.ts at concrete messages, over the natural numbers.
use Prim.Native.Char.{code}
use micro_trace.Common.{
  ap, ◌⊎◌, ℕ, String, Bool, true, false, none, some, List, [], ◌∷◌, map, take, take_last, length,
  or_else, ◌≡◌, refl, arith, ◌+◌,
}
use micro_trace.Common.Arith.{nat_arith}
use micro_trace.Common.Dict.{lookup, insert, erase}
use micro_trace.Common.Key.{edge_key, NoArrow, edge_key_inj}
use micro_trace.Types.{StatSnapshot, ResourceMsg, OutboundMsg, MsgType, Side}
use micro_trace.Socket.{
  on_message, dispatch, handle_stats, handle_remove, handle_resource, on_stats, on_remove,
  on_resource, update_service, was_calm, max_events, max_history, snap_key, make_point, make_event,
}
use micro_trace.Socket.Trace.{Frame, run, latest, spikes, lookup-run, events-run}
use micro_trace.Socket.Series.{series, history-run}
use micro_trace.Socket.Invariant.{
  IsWellFormed, run-IsWellFormed, HasBoundedHistory, run-HasBoundedHistory,
}
use micro_trace.Socket.Connection.{
  Link, idle, connect, Reach, start, next, opened, closed, fired, unmounted, handle, can, Reach-one,
  Reach-reconnect, reconnect, unmount_leak,
}

abbrev report : Bool → ℕ → StatSnapshot nat_arith
report spike p99 = record {
  src_service = "order-svc";
  dst_service = "redis";
  src_type = Side.internal;
  dst_type = Side.external;
  latest_srtt_us = 900;
  avg_us = 950;
  p50_us = 900;
  p95_us = 2000;
  p99_us = p99;
  jitter_us = 40;
  retransmit_count = 2;
  sample_count = 30;
  is_spike = spike;
  spike_threshold_us = 9000;
  cause_kind = none;
  close_states = none;
  dst_cpu_pct = none;
  dst_io_wait_pct = some 45;
  dst_mem_pressure_pct = none;
  baseline_us = none;
}

abbrev sample : ResourceMsg nat_arith
sample = record {
  service_name = "redis";
  timestamp_ms = 5000;
  cpu_pct = 12;
  cpu_throttle_pct = 0;
  mem_current_bytes = 1000;
  mem_limit_bytes = 0;
  mem_pressure_pct = 3;
  io_read_bytes_per_s = 0;
  io_write_bytes_per_s = 0;
  io_wait_pct = 45;
  oom_kill_count = 0;
}

abbrev blank : MsgType → OutboundMsg nat_arith
blank t = record { msg_type = t; stats = none; remove_key = none; history = none; resource = none }

abbrev stats_at : ℕ → Bool → ℕ → Frame nat_arith
stats_at t spike p99 = record {
  now = record { id_at = t; event_at = t; point_at = t };
  msg = record (blank MsgType.stats) { stats = some (report spike p99) };
}

abbrev resource_at : ℕ → Frame nat_arith
resource_at t = record {
  now = record { id_at = t; event_at = t; point_at = t };
  msg = record (blank MsgType.resource) { resource = some sample };
}

abbrev remove_at : ℕ → String → Frame nat_arith
remove_at t key = record {
  now = record { id_at = t; event_at = t; point_at = t };
  msg = record (blank MsgType.remove) { remove_key = some key };
}

-- Newest first: calm, spike, spike, calm, spike, then removed and reported again in a spike.
abbrev trace : List (Frame nat_arith)
trace =
    stats_at 8 true 90000
    ∷ remove_at 7 "order-svc→redis"
    ∷ resource_at 6
    ∷ stats_at 5 true 90000
    ∷ stats_at 4 false 2000
    ∷ stats_at 3 true 30000
    ∷ stats_at 2 true 30000
    ∷ stats_at 1 false 2000
    ∷ []

two_events : map (λ e. e.timestamp) (run nat_arith trace).events ≡ 5 ∷ 2 ∷ []
unfolding run on_message dispatch handle_stats handle_remove handle_resource on_stats on_remove
    on_resource update_service was_calm snap_key edge_key make_event make_point lookup insert erase
two_events = refl

one_point :
    map (λ p. p.time) (or_else (lookup "order-svc→redis" (run nat_arith trace).history) []) ≡ 8 ∷ []
unfolding run on_message dispatch handle_stats handle_remove handle_resource on_stats on_remove
    on_resource update_service was_calm snap_key edge_key make_event make_point lookup insert erase
one_point = refl

lookup-run_example :
    lookup "order-svc→redis" (run nat_arith trace).snapshots
    ≡ latest nat_arith "order-svc→redis" trace
lookup-run_example = lookup-run nat_arith "order-svc→redis" trace

events-run_example : (run nat_arith trace).events ≡ take max_events (spikes nat_arith trace)
events-run_example = events-run nat_arith trace

history-run_example :
    take_last max_history (or_else (lookup "order-svc→redis" (run nat_arith trace).history) [])
    ≡ take_last max_history (series nat_arith "order-svc→redis" trace)
history-run_example = history-run nat_arith "order-svc→redis" trace

run-IsWellFormed_example : IsWellFormed nat_arith (run nat_arith trace)
run-IsWellFormed_example = run-IsWellFormed nat_arith trace

run-HasBoundedHistory_example : HasBoundedHistory nat_arith (run nat_arith trace)
run-HasBoundedHistory_example = run-HasBoundedHistory nat_arith trace (omega arith)

-- The socket opened, then closed: a reconnection is pending.
abbrev dropped : Link
dropped = handle (closed 0) (handle (opened 0) (connect idle))

dropped-Reach : Reach dropped
unfolding handle connect
dropped-Reach = next (next start (opened 0) refl) (closed 0) refl

Reach-one_example :
    (length dropped.live + dropped.timers ≡ 1)
    × ((dropped.connected ≡ false) ⊎ (length dropped.live ≡ 1))
unfolding handle connect
Reach-one_example = Reach-one dropped-Reach refl

Reach-reconnect_example :
    (can dropped fired ≡ true)
    × (can (handle fired dropped) (opened 1) ≡ true)
    × ((reconnect dropped).connected ≡ true)
    × ((reconnect dropped).live ≡ 1 ∷ [])
    × ((reconnect dropped).timers ≡ 0)
unfolding handle connect
Reach-reconnect_example = Reach-reconnect dropped-Reach refl refl

unmount_leak_example :
    (can (handle unmounted dropped) fired ≡ true)
    × (length (handle fired (handle unmounted dropped)).live ≡ 1)
    × ((handle fired (handle unmounted dropped)).mounted ≡ false)
unfolding handle connect
unmount_leak_example = unmount_leak dropped-Reach refl (omega arith)

abbrev db : String
db = "db"

abbrev redis : String
redis = "redis"

db-NoArrow : NoArrow db
db-NoArrow = (λ e. omega (arith, ap code e), (λ e. omega (arith, ap code e), tt))

edge_key_inj_example : (db ≡ db) × (redis ≡ redis)
edge_key_inj_example = edge_key_inj db redis db redis db-NoArrow db-NoArrow refl
