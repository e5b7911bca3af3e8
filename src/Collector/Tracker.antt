-- ===== src/Collector/Tracker.antt =====
-- `Processor` of collector/stats/stats.go with the figures that it works out: every connection and every flow, the latest resources
-- of the services, and the report on a connection with the cause of a spike. A map of Go is a function of
-- the key. What is broadcast, and the histories, are in `Feed`.
pub mod Known
pub mod Reacts
pub mod Total
pub mod Bounds
pub mod Cause
mod Tests
use micro_trace.Common.{
  ℕ, ◌-◌, ltb, ◌==◌, String, Bool, true, false, not, ◌&&◌, ◌||◌, Option, none, some, or_else, List,
  [], ◌∷◌, str_eq, if◌then◌else◌,
}
use micro_trace.Common.Arith.{Arith, gt}
use micro_trace.Types.{CauseKind, Side, StatSnapshot, ResourceMsg}
use micro_trace.Collector.Ring.{latest}
use micro_trace.Collector.Feed.{conn_ttl}
use micro_trace.Collector.Stats.{
  Flow, new_flow, ConnStats, new_conn_stats, Percentiles, percentiles, on_rtt, on_retransmit,
  is_spike,
}

-- `Type` of an event
pub data EventKind : Type 0 where
  connect rtt retransmit other : EventKind

pub record Event : Type 0 where
  pub kind : EventKind
  pub pid : ℕ
  pub saddr : String
  pub daddr : String
  pub dport : ℕ
  pub latency_us : ℕ

-- `ServiceResolver`, as it answers at one time
pub record Resolver : Type 0 where
  pub resolve : String → String
  pub is_internal : String → Bool

pub record FlowKey : Type 0 where
  pub sock_id : ℕ
  pub saddr : String
  pub daddr : String
  pub dport : ℕ

abbrev pub same_flow : FlowKey → FlowKey → Bool
same_flow a b =
    (a.sock_id == b.sock_id)
    && str_eq a.saddr b.saddr
    && str_eq a.daddr b.daddr
    && (a.dport == b.dport)

pub record FlowState : Type 0 where
  pub flow : Flow
  pub last_seen : ℕ

-- `connStats`
pub record Tracked : Type 0 where
  pub stats : ConnStats
  pub last_seen : ℕ
  pub src_type : Side
  pub dst_type : Side

abbrev pub node_type : String → Resolver → Side
node_type ip r = if r.is_internal ip then Side.internal else Side.external

abbrev pub flow_key : Event → FlowKey
flow_key e = record { sock_id = e.pid; saddr = e.saddr; daddr = e.daddr; dport = e.dport }

-- `getOrCreateConn` and `getOrCreateFlow`, as far as the figures go
abbrev pub stats_or_new : Option Tracked → ConnStats
stats_or_new none = new_conn_stats
stats_or_new (some c) = c.stats

abbrev pub flow_or_new : Option FlowState → Flow
flow_or_new none = new_flow
flow_or_new (some f) = f.flow

abbrev pub put_flow :
    FlowKey → FlowState → (FlowKey → Option FlowState) → FlowKey → Option FlowState
put_flow k f flows j = if same_flow k j then some f else flows j

abbrev pub same_conn : String → String → String → String → Bool
same_conn src dst a b = str_eq src a && str_eq dst b

-- What the sweep leaves of an entry.
abbrev pub keep_fresh : {T : Type 0} → ℕ → (T → ℕ) → Option T → Option T
keep_fresh now seen none = none
keep_fresh now seen (some t) = if ltb conn_ttl (now - seen t) then none else some t

abbrev pub rtt_event :
    Event
    → ℕ
    → ConnStats
    → (FlowKey → Option FlowState)
    → Option (ConnStats × (FlowKey → Option FlowState))
rtt_event e now s flows =
    if ltb 0 e.latency_us
    then elim (on_rtt e.latency_us (flow_or_new (flows (flow_key e))) s) [
      | none ↦ none
      | some r ↦ some (r.1, put_flow (flow_key e) (record { flow = r.0; last_seen = now }) flows)
    ]
    else some (s, flows)

-- The `switch` of `handleEvent`.
abbrev pub react :
    EventKind
    → Event
    → ℕ
    → ConnStats
    → (FlowKey → Option FlowState)
    → Option (ConnStats × (FlowKey → Option FlowState))
react EventKind.connect e now s flows = rtt_event e now s flows
react EventKind.rtt e now s flows = rtt_event e now s flows
react EventKind.retransmit e now s flows = some (on_retransmit s, flows)
react EventKind.other e now s flows = some (s, flows)

-- `detectCause`
unfoldable pub detect_cause : (A : Arith) → Side → Option (ResourceMsg A) → CauseKind × String
detect_cause A Side.external res = (CauseKind.external, "external_dst")
detect_cause A Side.internal none = (CauseKind.network, "none")
detect_cause A Side.internal (some r) =
    if gt A r.oom_kill_count (A.num 0)
    then (CauseKind.memory, "oom_kill")
    else if gt A r.cpu_throttle_pct (A.num 25)
    then (CauseKind.cpu, "cpu_throttle_high")
    else if gt A r.cpu_throttle_pct (A.num 1) && gt A r.cpu_pct (A.num 60)
    then (CauseKind.cpu, "cpu_throttle_burst")
    else if gt A r.mem_pressure_pct (A.num 20)
    then (CauseKind.memory, "mem_pressure")
    else (CauseKind.network, "none")

module _ (A : Arith) where
  open A use {Num, num, lt}

  pub record Tracker : Type 0 where
    pub conns : String → String → Option Tracked
    pub flows : FlowKey → Option FlowState
    pub resources : String → Option (ResourceMsg A)

  abbrev pub new_tracker : Tracker
  new_tracker = record { conns = λ src dst. none; flows = λ k. none; resources = λ name. none }

  abbrev pub put_conn :
      String
      → String
      → Tracked
      → (String → String → Option Tracked)
      → String
      → String
      → Option Tracked
  put_conn src dst c conns a b = if same_conn src dst a b then some c else conns a b

  unfoldable pub handle_event : Resolver → Event → ℕ → Tracker → Option Tracker
  handle_event r e now t =
      let src = r.resolve e.saddr in
      let dst = r.resolve e.daddr in
      elim (react e.kind e now (stats_or_new (t.conns src dst)) t.flows) [
        | none ↦ none
        | some x ↦ some (record t {
          conns =
              put_conn src dst
                (record {
                  stats = x.0;
                  last_seen = now;
                  src_type = node_type e.saddr r;
                  dst_type = node_type e.daddr r;
                })
                t.conns;
          flows = x.1;
        })
      ]

  unfoldable pub sweep_expired : ℕ → Tracker → Tracker
  sweep_expired now t = record t {
    conns = λ src dst. keep_fresh now (λ c. c.last_seen) (t.conns src dst);
    flows = λ k. keep_fresh now (λ f. f.last_seen) (t.flows k);
  }

  -- What `ForwardResource` keeps.
  unfoldable pub keep_resource : ResourceMsg A → Tracker → Tracker
  keep_resource m t = record t {
    resources = λ name. if str_eq m.service_name name then some m else t.resources name;
  }

  pub data Step : Type 0 where
    event : Resolver → Event → ℕ → Step
    sweep : ℕ → Step
    measured : ResourceMsg A → Step

  unfoldable pub step : Step → Tracker → Option Tracker
  step (event r e now) t = handle_event r e now t
  step (sweep now) t = some (sweep_expired now t)
  step (measured m) t = some (keep_resource m t)

  -- The newest step first; `none` is a panic.
  unfoldable pub run : List Step → Option Tracker
  run [] = some new_tracker
  run (s ∷ older) = elim (run older) [ none ↦ none | some t ↦ step s t ]

  -- `omitempty`: a number that is 0 is left out.
  abbrev pub present : Num → Option Num
  present x = if lt (num 0) x || lt x (num 0) then some x else none

  abbrev evidence : (ResourceMsg A → Num) → Option (ResourceMsg A) → Option Num
  evidence f none = none
  evidence f (some m) = present (f m)

  -- What a report on a spike has besides, of what the page takes in: it has no field for the signal.
  abbrev with_cause : Bool → Side → Option (ResourceMsg A) → StatSnapshot A → StatSnapshot A
  with_cause false side res snap = snap
  with_cause true side res snap = record snap {
    cause_kind = some (detect_cause A side res).0;
    dst_cpu_pct = evidence (λ m. m.cpu_pct) res;
    dst_mem_pressure_pct = evidence (λ m. m.mem_pressure_pct) res;
    dst_io_wait_pct = evidence (λ m. m.io_wait_pct) res;
  }

  abbrev figures : String → String → Tracked → Percentiles → Bool × ℕ → StatSnapshot A
  figures src dst c p (spike, threshold) = record {
    src_service = src;
    dst_service = dst;
    src_type = c.src_type;
    dst_type = c.dst_type;
    latest_srtt_us = num (latest c.stats.rtt);
    avg_us = num p.avg;
    p50_us = num p.p50;
    p95_us = num p.p95;
    p99_us = num p.p99;
    jitter_us = num (latest c.stats.jitter);
    retransmit_count = c.stats.retransmit;
    sample_count = (c.stats.rtt).count;
    is_spike = spike;
    spike_threshold_us = num threshold;
    cause_kind = none;
    close_states = none;
    dst_cpu_pct = none;
    dst_io_wait_pct = none;
    dst_mem_pressure_pct = none;
    baseline_us = none;
  }

  -- The report of `publishSnapshots` on a connection.
  unfoldable pub report : String → String → Tracked → Tracker → Option (StatSnapshot A)
  report src dst c t = elim (percentiles c.stats.rtt) [
    | none ↦ none
    | some p ↦ elim (is_spike (latest c.stats.rtt) c.stats) [
      | none ↦ none
      | some v ↦ some (with_cause v.0 c.dst_type (t.resources dst) (figures src dst c p v))
    ]
  ]
