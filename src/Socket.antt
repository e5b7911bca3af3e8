-- ===== src/Socket.antt =====
-- frontend/src/hooks/useWebSocket.ts: the state that the hook keeps, and what its message handler does to it.
-- `Connection` is the life of the socket, `Trace` the abstract view of a run, the other children prove.
pub mod Connection
pub mod Trace
pub mod Series
pub mod Invariant
mod Tests
use Prim.Native.String.{◌++◌ as concat}
use micro_trace.Common.{
  ℕ, String, Bool, true, false, not, ◌&&◌, Option, none, some, List, [], ◌∷◌, ◌++◌, map, take,
  take_last, or_else, str_eq, if◌then◌else◌,
}
use micro_trace.Common.Arith.{Arith, gt}
use micro_trace.Common.Dict.{Dict, lookup, insert, erase}
use micro_trace.Common.Key.{edge_key}
use micro_trace.Types.{
  StatSnapshot, ServiceSnapshot, SpikeEvent, HistoryPoint, ResourcePoint, ConnHistory, ResourceMsg,
  OutboundMsg, MsgType, CauseKind, Severity,
}

abbrev pub max_history : ℕ
max_history = 3600

abbrev pub max_events : ℕ
max_events = 100

-- five minutes, at a message a second
abbrev pub max_resource_points : ℕ
max_resource_points = 300

module _ (A : Arith) where
  open A use {Num, num, div, show}

  -- What `Date.now()` answers to the calls that one message makes.
  pub record Readings : Type 0 where
    pub id_at : Num
    pub event_at : Num
    pub point_at : Num

  pub record Dashboard : Type 0 where
    pub snapshots : Dict (StatSnapshot A)
    pub services : Dict (ServiceSnapshot A)
    pub history : Dict (List (HistoryPoint A))
    pub events : List (SpikeEvent A)
    pub connected : Bool

  abbrev pub initial : Dashboard
  initial = record { snapshots = []; services = []; history = []; events = []; connected = false }

  unfoldable pub snap_key : StatSnapshot A → String
  snap_key snap = edge_key snap.src_service snap.dst_service

  unfoldable pub make_event : Readings → String → StatSnapshot A → SpikeEvent A
  make_event now key snap = record {
    id = concat key (concat "-" (show now.id_at));
    timestamp = now.event_at;
    key = key;
    src = snap.src_service;
    dst = snap.dst_service;
    p99_us = snap.p99_us;
    baseline_us = or_else snap.baseline_us (div snap.spike_threshold_us (num 3));
    severity = if gt A snap.p99_us (num 80000) then Severity.critical else Severity.warning;
    cause_kind = or_else snap.cause_kind CauseKind.network;
    dst_cpu_pct = or_else snap.dst_cpu_pct (num 0);
    dst_io_wait_pct = or_else snap.dst_io_wait_pct (num 0);
    dst_mem_pressure_pct = or_else snap.dst_mem_pressure_pct (num 0);
  }

  -- `prevSnap && !prevSnap.is_spike`
  unfoldable pub was_calm : Option (StatSnapshot A) → Bool
  was_calm none = false
  was_calm (some prev) = not prev.is_spike

  unfoldable pub make_point : Readings → StatSnapshot A → HistoryPoint A
  make_point now snap = record {
    time = now.point_at;
    latest_srtt_us = snap.latest_srtt_us;
    avg_us = snap.avg_us;
    p50_us = snap.p50_us;
    p95_us = snap.p95_us;
    p99_us = snap.p99_us;
    jitter_us = snap.jitter_us;
  }

  unfoldable pub on_stats : Readings → StatSnapshot A → Dashboard → Dashboard
  on_stats now snap s =
      let key = snap_key snap in
      record s {
        snapshots = insert key snap s.snapshots;
        events =
            if snap.is_spike && was_calm (lookup key s.snapshots)
            then take max_events (make_event now key snap ∷ s.events)
            else s.events;
        history =
            insert key
              (take_last max_history
                (or_else (lookup key s.history) [] ++ make_point now snap ∷ []))
              s.history;
      }

  unfoldable pub copy_point : HistoryPoint A → HistoryPoint A
  copy_point p = record {
    time = p.time;
    latest_srtt_us = p.latest_srtt_us;
    avg_us = p.avg_us;
    p50_us = p.p50_us;
    p95_us = p.p95_us;
    p99_us = p.p99_us;
    jitter_us = p.jitter_us;
  }

  -- the loop of `msg.history.forEach`
  unfoldable pub load_history :
      List (ConnHistory A) → Dict (List (HistoryPoint A)) → Dict (List (HistoryPoint A))
  load_history [] next = next
  load_history (conn ∷ conns) next =
      load_history conns (insert conn.key (map copy_point conn.points) next)

  unfoldable pub on_history : List (ConnHistory A) → Dashboard → Dashboard
  on_history conns s = record s { history = load_history conns [] }

  unfoldable pub resource_point : ResourceMsg A → ResourcePoint A
  resource_point r = record {
    time = r.timestamp_ms;
    cpu_pct = r.cpu_pct;
    io_wait_pct = r.io_wait_pct;
    mem_pressure_pct = r.mem_pressure_pct;
    cpu_throttle_pct = r.cpu_throttle_pct;
  }

  -- `existing?.history ?? []` and `existing?.stress_kind ?? null` of an entry that may be missing
  unfoldable pub update_service : ResourceMsg A → Option (ServiceSnapshot A) → ServiceSnapshot A
  unfolding resource_point
  update_service r existing = record {
    name = r.service_name;
    cpu_pct = r.cpu_pct;
    io_wait_pct = r.io_wait_pct;
    mem_pressure_pct = r.mem_pressure_pct;
    cpu_throttle_pct = r.cpu_throttle_pct;
    stress_kind = elim existing [ none ↦ none | some e ↦ e.stress_kind ];
    history =
        take_last max_resource_points
          (elim existing [ none ↦ [] | some e ↦ e.history ] ++ resource_point r ∷ []);
  }

  unfoldable pub on_resource : ResourceMsg A → Dashboard → Dashboard
  on_resource r s = record s {
    services =
        insert r.service_name (update_service r (lookup r.service_name s.services)) s.services;
  }

  unfoldable pub on_remove : String → Dashboard → Dashboard
  on_remove key s = record s { snapshots = erase key s.snapshots; history = erase key s.history }

  -- `else if (msg.msg_type === 'remove' && msg.remove_key)`: the empty text is no key
  unfoldable pub handle_remove : Option String → Dashboard → Dashboard
  handle_remove none s = s
  handle_remove (some key) s = if str_eq key "" then s else on_remove key s

  unfoldable pub handle_stats : Readings → Option (StatSnapshot A) → Dashboard → Dashboard
  handle_stats now none s = s
  handle_stats now (some snap) s = on_stats now snap s

  unfoldable pub handle_history : Option (List (ConnHistory A)) → Dashboard → Dashboard
  handle_history none s = s
  handle_history (some conns) s = on_history conns s

  unfoldable pub handle_resource : Option (ResourceMsg A) → Dashboard → Dashboard
  handle_resource none s = s
  handle_resource (some r) s = on_resource r s

  -- The chain of `if`s on the message's type; a message that lacks its part changes nothing.
  unfoldable pub dispatch : MsgType → Readings → OutboundMsg A → Dashboard → Dashboard
  dispatch MsgType.stats now msg s = handle_stats now msg.stats s
  dispatch MsgType.history now msg s = handle_history msg.history s
  dispatch MsgType.resource now msg s = handle_resource msg.resource s
  dispatch MsgType.remove now msg s = handle_remove msg.remove_key s
  dispatch MsgType.event now msg s = s

  -- `ws.onmessage`
  unfoldable pub on_message : Readings → OutboundMsg A → Dashboard → Dashboard
  on_message now msg s = dispatch msg.msg_type now msg s

  -- `ws.onopen` and the first line of `ws.onclose`
  unfoldable pub set_connected : Bool → Dashboard → Dashboard
  set_connected b s = record s { connected = b }
