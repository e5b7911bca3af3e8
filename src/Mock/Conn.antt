-- ===== src/Mock/Conn.antt =====
-- The connections of useMockData.ts: the spike state machine of a tick, and what it reports.
use Prim.Native.String.{◌++◌ as concat}
use micro_trace.Common.{
  ℕ, ◌+◌, ◌-◌, ◌==◌, String, Bool, true, false, not, ◌&&◌, ◌||◌, Option, none, some, List, [], ◌∷◌,
  ◌++◌, take_last, or_else, is_some, if◌then◌else◌, str_eq,
}
use micro_trace.Common.Arith.{Arith, gt}
use micro_trace.Common.Key.{edge_key}
use micro_trace.Types.{
  StatSnapshot, SpikeEvent, HistoryPoint, CauseKind, CloseStates, Severity, Side, Stress,
  StressKind,
}
use micro_trace.Mock.Chance.{
  World, Chance, pure, ◌>>=◌ as bind, draw, now, rnd, mils, samples, Percs, gen_percs,
}
use micro_trace.Mock.Service.{ServiceState}

abbrev pub internal_services : List String
internal_services =
    "api-gateway" ∷ "auth-svc" ∷ "order-svc" ∷ "payment-svc" ∷ "inventory-svc" ∷ "notif-svc" ∷ []

abbrev pub external_services : List String
external_services = "postgres" ∷ "redis" ∷ "kafka" ∷ "stripe-api" ∷ []

-- `names.includes(name)`
abbrev pub includes : List String → String → Bool
includes [] name = false
includes (x ∷ xs) name = str_eq x name || includes xs name

module _ (A : Arith) (w : World A) where
  open A use {Num, num, lt, add, sub, mul, div, floor, show}

  infixl 5 ◌>>=◌
  abbrev ◌>>=◌ : {X Y : Type 0} → Chance A w X → (X → Chance A w Y) → Chance A w Y
  m >>= f = bind A w m f

  pub record ConnState : Type 0 where
    pub src : String
    pub dst : String
    pub key : String
    pub base_ms : Num
    pub noise_ms : Num
    pub is_spike : Bool
    pub spike_timer : ℕ
    pub retransmit_count : ℕ
    pub sample_count : ℕ
    pub close_states : CloseStates
    pub history : List (HistoryPoint A)
    pub cause_kind : Option CauseKind

  abbrev cause_of_stress : StressKind → CauseKind
  cause_of_stress (some Stress.cpu) = CauseKind.cpu
  cause_of_stress (some Stress.io) = CauseKind.io
  cause_of_stress (some Stress.memory) = CauseKind.memory
  cause_of_stress none = CauseKind.network

  unfoldable pub classify_cause : ConnState → StressKind → CauseKind
  classify_cause s dst_stress =
      if includes external_services s.dst && gt A s.base_ms (num 30)
      then CauseKind.external
      else cause_of_stress dst_stress

  abbrev closed_by_error : CloseStates → Num → CloseStates
  closed_by_error c rr =
      if lt rr (mils A w 330)
      then record c { rst = c.rst + 1 }
      else if lt rr (mils A w 660)
      then record c { timeout = c.timeout + 1 }
      else record c { fin = c.fin + 1 }

  abbrev close_error : CloseStates → Chance A w CloseStates
  close_error c = do rr ← draw A w; pure A w (closed_by_error c rr)

  abbrev close_one : CloseStates → Chance A w CloseStates
  close_one c = do
    r ← draw A w
    if lt r (mils A w 150) then close_error c else pure A w (record c { fin = c.fin + 1 })

  abbrev start_spike : ConnState → Chance A w ConnState
  start_spike s = do
    timer ← rnd A w (num 3) (num 8)
    more ← rnd A w (num 1) (num 5)
    closes ← close_one s.close_states
    pure A w (record s {
      is_spike = true;
      spike_timer = floor timer;
      retransmit_count = s.retransmit_count + floor more;
      close_states = closes;
    })

  abbrev maybe_spike : Bool → ConnState → Chance A w ConnState
  maybe_spike dst_stressed s = do
    r ← draw A w
    if lt r (if dst_stressed then mils A w 180 else mils A w 8) then start_spike s else pure A w s

  -- The spike state machine of a tick. `--state.spikeTimer <= 0`: at a timer of 0 or 1 the spike is over.
  unfoldable pub age_spike : Bool → ConnState → Chance A w ConnState
  age_spike dst_stressed s =
      if s.is_spike
      then pure A w
          (record s { spike_timer = s.spike_timer - 1; is_spike = not (s.spike_timer - 1 == 0) })
      else maybe_spike dst_stressed s

  -- Every target is a service, so the first clause is never reached.
  abbrev stress_of : Option (ServiceState A w) → StressKind
  stress_of none = none
  stress_of (some d) = d.stress_kind

  -- `dstState?.stressKind !== null`
  abbrev pub dst_stressed : Option (ServiceState A w) → Bool
  dst_stressed none = true
  dst_stressed (some d) = is_some d.stress_kind

  abbrev figure : (ServiceState A w → Num) → Option (ServiceState A w) → Option Num
  figure f none = none
  figure f (some d) = some (f d)

  -- What is left of a connection after its part of a tick.
  unfoldable pub settle : Option (ServiceState A w) → Percs A w → Num → ConnState → ConnState
  unfolding classify_cause
  settle dst p time s = record s {
    sample_count = s.sample_count + samples A w;
    cause_kind = if s.is_spike then some (classify_cause s (stress_of dst)) else none;
    history =
        take_last 300 s.history
        ++ record {
          time = time;
          latest_srtt_us = p.avg_us;
          avg_us = p.avg_us;
          p50_us = p.p50_us;
          p95_us = p.p95_us;
          p99_us = p.p99_us;
          jitter_us = p.jitter_us;
        }
          ∷ [];
  }

  unfoldable pub tick_conn :
      Option (ServiceState A w) → ConnState → Chance A w (ConnState × Percs A w)
  unfolding age_spike settle
  tick_conn dst s = do
    aged ← age_spike (dst_stressed dst) s
    p ← gen_percs A w aged.is_spike aged.base_ms aged.noise_ms
    time ← now A w
    pure A w (settle dst p time aged, p)

  abbrev side_of : String → Side
  side_of name = if includes internal_services name then Side.internal else Side.external

  unfoldable pub to_snap : Option (ServiceState A w) → Percs A w → ConnState → StatSnapshot A
  to_snap dst p s = record {
    src_service = s.src;
    dst_service = s.dst;
    src_type = side_of s.src;
    dst_type = side_of s.dst;
    latest_srtt_us = p.avg_us;
    avg_us = p.avg_us;
    p50_us = p.p50_us;
    p95_us = p.p95_us;
    p99_us = p.p99_us;
    jitter_us = p.jitter_us;
    retransmit_count = s.retransmit_count;
    sample_count = s.sample_count;
    is_spike = s.is_spike;
    spike_threshold_us = mul (mul s.base_ms (num 5)) (num 1000);
    cause_kind = s.cause_kind;
    close_states = some s.close_states;
    dst_cpu_pct = figure (λ d. d.cpu_pct) dst;
    dst_io_wait_pct = figure (λ d. d.io_wait_pct) dst;
    dst_mem_pressure_pct = figure (λ d. d.mem_pressure_pct) dst;
    baseline_us = some (mul s.base_ms (num 1000));
  }

  -- The event of a connection that has just gone into a spike; `counter` is the counter after `++`.
  unfoldable pub to_event :
      Option (ServiceState A w) → Percs A w → Num → Num → ℕ → ConnState → SpikeEvent A
  to_event dst p id_at event_at counter s = record {
    id = concat s.key (concat "-" (concat (show id_at) (concat "-" (show (num counter)))));
    timestamp = event_at;
    key = s.key;
    src = s.src;
    dst = s.dst;
    p99_us = p.p99_us;
    baseline_us = mul s.base_ms (num 1000);
    severity = if gt A p.p99_us (num 80000) then Severity.critical else Severity.warning;
    cause_kind = or_else s.cause_kind CauseKind.network;
    dst_cpu_pct = or_else (figure (λ d. d.cpu_pct) dst) (num 0);
    dst_io_wait_pct = or_else (figure (λ d. d.io_wait_pct) dst) (num 0);
    dst_mem_pressure_pct = or_else (figure (λ d. d.mem_pressure_pct) dst) (num 0);
  }

  -- A point of the history that the page gets.
  unfoldable pub to_history_point : HistoryPoint A → HistoryPoint A
  to_history_point h = record h { latest_srtt_us = h.avg_us }

  unfoldable pub new_conn : String → String → Num → Num → ConnState
  new_conn src dst base_ms noise_ms = record {
    src = src;
    dst = dst;
    key = edge_key src dst;
    base_ms = base_ms;
    noise_ms = noise_ms;
    is_spike = false;
    spike_timer = 0;
    retransmit_count = 0;
    sample_count = 0;
    close_states = record { fin = 0; rst = 0; timeout = 0 };
    history = [];
    cause_kind = none;
  }
