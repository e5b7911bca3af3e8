-- ===== src/Proto/Data.antt =====
-- design_handoff_microtrace/mt-data.js. A read of a field of a service that is not there throws: `none`.
-- Its `tickService` and `genPercs` are those of useMockData.ts, character for character but for types and semicolons, and so are
-- its tables.
use Prim.Native.String.{◌++◌ as concat}
use micro_trace.Common.{
  ℕ, zero, suc, ◌+◌, ◌-◌, ◌==◌, String, Bool, true, false, not, ◌&&◌, Option, none, some, List, [],
  ◌∷◌, ◌++◌, take, take_last, is_some, if◌then◌else◌,
}
use micro_trace.Common.Arith.{Arith, gt}
use micro_trace.Common.Dict.{Dict, lookup, insert}
use micro_trace.Common.Key.{edge_key}
use micro_trace.Types.{ServiceSnapshot, CauseKind, CloseStates, Severity, Side, Stress, StressKind}
use micro_trace.Mock.Chance.{World, Chance, rnd, mils, samples, Percs, gen_percs}
use micro_trace.Mock.Service.{ServiceState}
use micro_trace.Mock.Conn.{internal_services, external_services, includes}
use micro_trace.Mock.Tick.{ConnDef, conn_defs, tick_services, init_services, publish}

module _ (A : Arith) (w : World A) where
  open A use {Num, num, lt, add, sub, mul, div, floor, show}

  abbrev pub Fallible : Type 0 → Type 0
  Fallible X = ℕ → Option (X × ℕ)

  -- A point of a connection's history: `{ time, ...perc }`.
  pub record ProtoPoint : Type 0 where
    pub time : Num
    pub percs : Percs A w

  pub record ProtoConn : Type 0 where
    pub src : String
    pub dst : String
    pub key : String
    pub base_ms : Num
    pub noise_ms : Num
    pub is_spike : Bool
    pub spike_timer : ℕ
    pub retransmit_count : ℕ
    pub sample_count : ℕ
    pub close_states : CloseStates
    pub history : List ProtoPoint
    pub cause_kind : Option CauseKind

  pub record ProtoSnap : Type 0 where
    pub key : String
    pub src_service : String
    pub dst_service : String
    pub src_type : Side
    pub dst_type : Side
    pub percs : Percs A w
    pub retransmit_count : ℕ
    pub sample_count : ℕ
    pub is_spike : Bool
    pub spike_threshold_us : Num
    pub history : List ProtoPoint
    pub cause_kind : Option CauseKind
    pub close_states : CloseStates
    pub dst_cpu_pct : Num
    pub dst_io_wait_pct : Num
    pub dst_mem_pressure_pct : Num

  pub record ProtoEvent : Type 0 where
    pub id : String
    pub timestamp : Num
    pub key : String
    pub src : String
    pub dst : String
    pub p99_us : Num
    pub baseline_us : Num
    pub severity : Severity
    pub cause_kind : Option CauseKind
    pub dst_cpu_pct : Num
    pub dst_io_wait_pct : Num
    pub dst_mem_pressure_pct : Num

  -- `genPercs` and `tickService`, of which useMockData.ts has the same text.
  abbrev proto_percs : ProtoConn → Chance A w (Percs A w)
  proto_percs s = gen_percs A w s.is_spike s.base_ms s.noise_ms

  abbrev proto_services : Dict (ServiceState A w) → Chance A w (Dict (ServiceState A w))
  proto_services d = tick_services A w d

  abbrev proto_publish : Dict (ServiceState A w) → Dict (ServiceSnapshot A)
  proto_publish d = publish A w d []

  abbrev proto_services_init : Chance A w (Dict (ServiceState A w))
  proto_services_init = init_services A w (internal_services ++ external_services) []

  abbrev cause_of : StressKind → CauseKind
  cause_of (some Stress.cpu) = CauseKind.cpu
  cause_of (some Stress.io) = CauseKind.io
  cause_of (some Stress.memory) = CauseKind.memory
  cause_of none = CauseKind.network

  abbrev cause_at : Option (ServiceState A w) → String → Num → CauseKind
  cause_at none dst base_ms = CauseKind.network
  cause_at (some d) dst base_ms =
      if includes external_services dst && gt A base_ms (num 30)
      then CauseKind.external
      else cause_of d.stress_kind

  unfoldable pub proto_cause : Dict (ServiceState A w) → ProtoConn → String → CauseKind
  proto_cause svcs s dst = cause_at (lookup dst svcs) dst s.base_ms

  -- A spike begins: its timer, its retransmissions, and how the connection was closed.
  abbrev proto_close : CloseStates → Chance A w CloseStates
  proto_close c i =
      if lt (w.random i) (mils A w 150)
      then (
        if lt (w.random (i + 1)) (mils A w 330)
            then record c { rst = c.rst + 1 }
            else if lt (w.random (i + 1)) (mils A w 660)
            then record c { timeout = c.timeout + 1 }
            else record c { fin = c.fin + 1 },
        i + 1 + 1,
      )
      else (record c { fin = c.fin + 1 }, i + 1)

  abbrev proto_start : ProtoConn → Chance A w ProtoConn
  proto_start s i =
      let closes = proto_close s.close_states (i + 1 + 1) in
      (
        record s {
          is_spike = true;
          spike_timer = floor (rnd A w (num 3) (num 8) i).0;
          retransmit_count = s.retransmit_count + floor (rnd A w (num 1) (num 5) (i + 1)).0;
          close_states = closes.0;
        },
        closes.1,
      )

  -- The spike state machine; at a timer of 0 or 1 the spike is over.
  unfoldable pub proto_age : Bool → ProtoConn → Chance A w ProtoConn
  proto_age dst_stressed s i =
      if s.is_spike
      then (
        record s { spike_timer = s.spike_timer - 1; is_spike = not (s.spike_timer - 1 == 0) },
        i,
      )
      else if lt (w.random i) (if dst_stressed then mils A w 180 else mils A w 8)
      then proto_start s (i + 1)
      else (s, i + 1)

  -- What is left of a connection after its part of a tick.
  unfoldable pub proto_settle : Dict (ServiceState A w) → Percs A w → Num → ProtoConn → ProtoConn
  unfolding proto_cause
  proto_settle svcs p time s = record s {
    sample_count = s.sample_count + samples A w;
    cause_kind = if s.is_spike then some (proto_cause svcs s s.dst) else none;
    history = take_last 300 s.history ++ record { time = time; percs = p } ∷ [];
  }

  abbrev side_of : String → Side
  side_of name = if includes internal_services name then Side.internal else Side.external

  unfoldable pub proto_snap : ServiceState A w → Percs A w → ProtoConn → ProtoSnap
  proto_snap d p s = record {
    key = s.key;
    src_service = s.src;
    dst_service = s.dst;
    src_type = side_of s.src;
    dst_type = side_of s.dst;
    percs = p;
    retransmit_count = s.retransmit_count;
    sample_count = s.sample_count;
    is_spike = s.is_spike;
    spike_threshold_us = mul (mul s.base_ms (num 5)) (num 1000);
    history = s.history;
    cause_kind = s.cause_kind;
    close_states = s.close_states;
    dst_cpu_pct = d.cpu_pct;
    dst_io_wait_pct = d.io_wait_pct;
    dst_mem_pressure_pct = d.mem_pressure_pct;
  }

  -- `counter` is the counter after `++`.
  unfoldable pub proto_event : ServiceState A w → Percs A w → Num → Num → ℕ → ProtoConn → ProtoEvent
  proto_event d p id_at event_at counter s = record {
    id = concat s.key (concat "-" (concat (show id_at) (concat "-" (show (num counter)))));
    timestamp = event_at;
    key = s.key;
    src = s.src;
    dst = s.dst;
    p99_us = p.p99_us;
    baseline_us = mul s.base_ms (num 1000);
    severity = if gt A p.p99_us (num 80000) then Severity.critical else Severity.warning;
    cause_kind = s.cause_kind;
    dst_cpu_pct = d.cpu_pct;
    dst_io_wait_pct = d.io_wait_pct;
    dst_mem_pressure_pct = d.mem_pressure_pct;
  }

  -- What the loop over the connections builds and changes.
  pub record ProtoPass : Type 0 where
    pub conns : Dict ProtoConn
    pub snapshots : Dict ProtoSnap
    pub new_events : List ProtoEvent
    pub all_events : List ProtoEvent
    pub counter : ℕ

  abbrev proto_push : ServiceState A w → Percs A w → ProtoConn → ProtoPass → Chance A w ProtoPass
  proto_push d p s q i =
      let ev = proto_event d p (w.clock i) (w.clock (i + 1)) (q.counter + 1) s in
      (
        record q {
          new_events = q.new_events ++ ev ∷ [];
          all_events = take 100 (ev ∷ q.all_events);
          counter = q.counter + 1;
        },
        i + 1 + 1,
      )

  unfoldable pub proto_log :
      Bool → ServiceState A w → Percs A w → ProtoConn → ProtoPass → Chance A w ProtoPass
  unfolding proto_event
  proto_log was_spike d p s q i =
      if s.is_spike && not was_spike then proto_push d p s q i else (q, i)

  -- The body of the loop, once the target is found.
  unfoldable pub proto_conn :
      Dict (ServiceState A w)
      → ServiceState A w
      → String
      → ProtoConn
      → ProtoPass
      → Chance A w ProtoPass
  unfolding proto_age proto_settle proto_snap proto_log
  proto_conn svcs d k s q i =
      let aged = proto_age (is_some d.stress_kind) s i in
      let p = proto_percs aged.0 aged.1 in
      let s' = proto_settle svcs p.0 (w.clock p.1) aged.0 in
      proto_log s.is_spike d p.0 s'
        (record q {
          conns = q.conns ++ (k, s') ∷ [];
          snapshots = insert s.key (proto_snap d p.0 s') q.snapshots;
        })
        (p.1 + 1)

  unfoldable pub proto_conns :
      Dict (ServiceState A w) → Dict ProtoConn → ProtoPass → Fallible ProtoPass
  unfolding proto_conn
  proto_conns svcs [] q i = some (q, i)
  proto_conns svcs ((k, s) ∷ d) q i = elim (lookup s.dst svcs) [
    | none ↦ none
    | some t ↦ let r = proto_conn svcs t k s q i in proto_conns svcs d r.0 r.1
  ]

  -- The variables of the script.
  pub record Proto : Type 0 where
    pub service_states : Dict (ServiceState A w)
    pub conn_states : Dict ProtoConn
    pub all_events : List ProtoEvent
    pub counter : ℕ

  -- What `tick` returns.
  pub record ProtoResult : Type 0 where
    pub snapshots : Dict ProtoSnap
    pub services : Dict (ServiceSnapshot A)
    pub new_events : List ProtoEvent
    pub all_events : List ProtoEvent

  abbrev finish : Dict (ServiceState A w) → ProtoPass × ℕ → (Proto × ProtoResult) × ℕ
  finish svcs (q, i) = (
    (
      record {
        service_states = svcs;
        conn_states = q.conns;
        all_events = q.all_events;
        counter = q.counter;
      },
      record {
        snapshots = q.snapshots;
        services = proto_publish svcs;
        new_events = q.new_events;
        all_events = q.all_events;
      },
    ),
    i,
  )

  unfoldable pub proto_tick : Proto → Fallible (Proto × ProtoResult)
  unfolding proto_conns
  proto_tick m i =
      let svcs = proto_services m.service_states i in
      elim (proto_conns svcs.0 m.conn_states
        (record {
          conns = [];
          snapshots = [];
          new_events = [];
          all_events = m.all_events;
          counter = m.counter;
        })
        svcs.1) [ none ↦ none | some q ↦ some (finish svcs.0 q) ]

  abbrev proto_new : ConnDef → ProtoConn
  proto_new c = record {
    src = c.src;
    dst = c.dst;
    key = edge_key c.src c.dst;
    base_ms = div (num c.base) (num 10);
    noise_ms = div (num c.noise) (num 10);
    is_spike = false;
    spike_timer = 0;
    retransmit_count = 0;
    sample_count = 0;
    close_states = record { fin = 0; rst = 0; timeout = 0 };
    history = [];
    cause_kind = none;
  }

  unfoldable pub proto_conns_init : List ConnDef → Dict ProtoConn → Dict ProtoConn
  proto_conns_init [] d = d
  proto_conns_init (c ∷ cs) d = proto_conns_init cs (insert (edge_key c.src c.dst) (proto_new c) d)

  -- The script's own run, before the first tick.
  unfoldable pub proto_init : Chance A w Proto
  unfolding proto_conns_init
  proto_init i =
      let svcs = proto_services_init i in
      (
        record {
          service_states = svcs.0;
          conn_states = proto_conns_init conn_defs [];
          all_events = [];
          counter = 0;
        },
        svcs.1,
      )

  -- n ticks; `none` where one throws.
  unfoldable pub proto_run : ℕ → Fallible Proto
  unfolding proto_init proto_tick
  proto_run zero i = some (proto_init i)
  proto_run (suc n) i = elim (proto_run n i) [
    | none ↦ none
    | some r ↦ elim (proto_tick r.0 r.1) [ none ↦ none | some t ↦ some ((t.0).0, t.1) ]
  ]
