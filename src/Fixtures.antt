-- ===== src/Fixtures.antt =====
-- Test data that the components' tests share, over any arithmetic.
use micro_trace.Common.{true, false, ◌∷◌, List, ℕ, String, Bool, Option, none, some, []}
use micro_trace.Common.Arith.{Arith}
use micro_trace.Types.{StatSnapshot, ServiceSnapshot, Side, StressKind, MsgType}
use micro_trace.Socket.Trace.{Frame}

module _ (A : Arith) where
  open A use {Num, num}

  abbrev pub snap_of : String → String → Bool → ℕ → Option Num → StatSnapshot A
  snap_of src dst spike p99 io = record {
    src_service = src;
    dst_service = dst;
    src_type = Side.internal;
    dst_type = Side.external;
    latest_srtt_us = num 900;
    avg_us = num 950;
    p50_us = num 900;
    p95_us = num 2000;
    p99_us = num p99;
    jitter_us = num 40;
    retransmit_count = 2;
    sample_count = 30;
    is_spike = spike;
    spike_threshold_us = num 9000;
    cause_kind = none;
    close_states = none;
    dst_cpu_pct = none;
    dst_io_wait_pct = io;
    dst_mem_pressure_pct = none;
    baseline_us = none;
  }

  abbrev pub service_of : String → StressKind → ServiceSnapshot A
  service_of name stress = record {
    name = name;
    cpu_pct = num 20;
    io_wait_pct = num 3;
    mem_pressure_pct = num 9;
    cpu_throttle_pct = num 0;
    stress_kind = stress;
    history = [];
  }

  -- A service that reports 99 per cent of CPU.
  abbrev pub resource_frame : String → Frame A
  resource_frame name = record {
    now = record { id_at = num 1; event_at = num 1; point_at = num 1 };
    msg = record {
      msg_type = MsgType.resource;
      stats = none;
      remove_key = none;
      history = none;
      resource = some (record {
        service_name = name;
        timestamp_ms = num 5000;
        cpu_pct = num 99;
        cpu_throttle_pct = num 60;
        mem_current_bytes = num 1000;
        mem_limit_bytes = num 0;
        mem_pressure_pct = num 3;
        io_read_bytes_per_s = num 0;
        io_write_bytes_per_s = num 0;
        io_wait_pct = num 45;
        oom_kill_count = num 0;
      });
    };
  }

  abbrev pub stats_frame : StatSnapshot A → Frame A
  stats_frame snap = record {
    now = record { id_at = num 1; event_at = num 1; point_at = num 1 };
    msg = record {
      msg_type = MsgType.stats;
      stats = some snap;
      remove_key = none;
      history = none;
      resource = none;
    };
  }

  -- A connection in a spike, and the CPU of a service.
  abbrev pub live_trace : List (Frame A)
  live_trace =
      stats_frame (snap_of "order" "redis" true 90000 none)
      ∷ resource_frame "redis"
      ∷ stats_frame (snap_of "order" "kafka" false 2000 none)
      ∷ []
