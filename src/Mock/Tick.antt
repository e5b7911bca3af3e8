-- ===== src/Mock/Tick.antt =====
-- The whole tick of useMockData.ts, over the services and then over the connections, and the page's state after it.
use micro_trace.Common.{
  ℕ, zero, suc, ◌+◌, ltb, String, Bool, not, ◌&&◌, Option, List, [], ◌∷◌, ◌++◌, map, take,
  if◌then◌else◌,
}
use micro_trace.Common.Arith.{Arith}
use micro_trace.Common.Dict.{Dict, lookup, insert}
use micro_trace.Common.Key.{edge_key}
use micro_trace.Types.{StatSnapshot, ServiceSnapshot, SpikeEvent, HistoryPoint}
use micro_trace.Mock.Chance.{World, Chance, pure, ◌>>=◌ as bind, now, Percs}
use micro_trace.Mock.Service.{ServiceState, tick_service, to_snapshot, new_service}
use micro_trace.Mock.Conn.{
  ConnState, tick_conn, to_snap, to_event, to_history_point, new_conn, internal_services,
  external_services,
}

-- `CONN_DEFS`, with milliseconds in tenths.
pub record ConnDef : Type 0 where
  pub src : String
  pub dst : String
  pub base : ℕ
  pub noise : ℕ

abbrev def : String → String → ℕ → ℕ → ConnDef
def src dst base noise = record { src = src; dst = dst; base = base; noise = noise }

abbrev pub conn_defs : List ConnDef
conn_defs =
    def "api-gateway" "auth-svc" 30 15
    ∷ def "api-gateway" "order-svc" 50 20
    ∷ def "auth-svc" "redis" 15 5
    ∷ def "order-svc" "payment-svc" 80 30
    ∷ def "order-svc" "inventory-svc" 40 20
    ∷ def "order-svc" "notif-svc" 60 20
    ∷ def "order-svc" "postgres" 90 40
    ∷ def "payment-svc" "postgres" 120 50
    ∷ def "payment-svc" "stripe-api" 450 150
    ∷ def "notif-svc" "kafka" 30 10
    ∷ []

module _ (A : Arith) (w : World A) where
  open A use {Num, num, div}

  infixl 5 ◌>>=◌
  abbrev ◌>>=◌ : {X Y : Type 0} → Chance A w X → (X → Chance A w Y) → Chance A w Y
  m >>= f = bind A w m f

  -- What the refs hold, and what the page last got.
  pub record Mock : Type 0 where
    pub service_states : Dict (ServiceState A w)
    pub conn_states : Dict (ConnState A w)
    pub all_events : List (SpikeEvent A)
    pub counter : ℕ
    pub snapshots : Dict (StatSnapshot A)
    pub services : Dict (ServiceSnapshot A)
    pub history : Dict (List (HistoryPoint A))
    pub events : List (SpikeEvent A)

  unfoldable pub tick_services : Dict (ServiceState A w) → Chance A w (Dict (ServiceState A w))
  tick_services [] = pure A w []
  tick_services ((k, s) ∷ d) = do
    s' ← tick_service A w s
    d' ← tick_services d
    pure A w ((k, s') ∷ d')

  -- The log while the connections are gone through: all events, the counter, and the number of new events.
  pub record Log : Type 0 where
    pub all_events : List (SpikeEvent A)
    pub counter : ℕ
    pub fresh : ℕ

  -- What the loop over the connections hands on.
  pub record Pass : Type 0 where
    pub conns : Dict (ConnState A w)
    pub snapshots : Dict (StatSnapshot A)
    pub history : Dict (List (HistoryPoint A))
    pub log : Log

  abbrev push_event : Option (ServiceState A w) → Percs A w → ConnState A w → Log → Chance A w Log
  push_event dst p s log = do
    id_at ← now A w
    event_at ← now A w
    pure A w (record {
      all_events =
          take 100 (to_event A w dst p id_at event_at (log.counter + 1) s ∷ log.all_events);
      counter = log.counter + 1;
      fresh = log.fresh + 1;
    })

  -- An event where the connection is in a spike and was in none before the tick.
  unfoldable pub log_spike :
      Bool → Option (ServiceState A w) → Percs A w → ConnState A w → Log → Chance A w Log
  log_spike was_spike dst p s log =
      if s.is_spike && not was_spike then push_event dst p s log else pure A w log

  unfoldable pub tick_conns :
      Dict (ServiceState A w) → Dict (ConnState A w) → Pass → Chance A w Pass
  unfolding log_spike
  tick_conns svcs [] pass = pure A w pass
  tick_conns svcs ((k, s) ∷ d) pass = do
    r ← tick_conn A w (lookup s.dst svcs) s
    log ← log_spike s.is_spike (lookup s.dst svcs) r.1 r.0 pass.log
    tick_conns svcs d (record {
      conns = pass.conns ++ (k, r.0) ∷ [];
      snapshots = insert s.key (to_snap A w (lookup s.dst svcs) r.1 r.0) pass.snapshots;
      history = insert s.key (map (to_history_point A w) (r.0).history) pass.history;
      log = log;
    })

  unfoldable pub publish :
      Dict (ServiceState A w) → Dict (ServiceSnapshot A) → Dict (ServiceSnapshot A)
  publish [] found = found
  publish ((k, s) ∷ d) found = publish d (insert s.name (to_snapshot A w s) found)

  unfoldable pub tick : Mock → Chance A w Mock
  unfolding tick_services tick_conns publish
  tick m = do
    svcs ← tick_services m.service_states
    pass ← tick_conns svcs m.conn_states (record {
      conns = [];
      snapshots = [];
      history = [];
      log = record { all_events = m.all_events; counter = m.counter; fresh = 0 };
    })
    pure A w (record {
      service_states = svcs;
      conn_states = pass.conns;
      all_events = (pass.log).all_events;
      counter = (pass.log).counter;
      snapshots = pass.snapshots;
      services = publish svcs [];
      history = pass.history;
      events = if ltb 0 (pass.log).fresh then (pass.log).all_events else m.events;
    })

  unfoldable pub init_services :
      List String → Dict (ServiceState A w) → Chance A w (Dict (ServiceState A w))
  init_services [] d = pure A w d
  init_services (name ∷ names) d = do
    s ← new_service A w name
    init_services names (insert name s d)

  unfoldable pub init_conns : List ConnDef → Dict (ConnState A w) → Dict (ConnState A w)
  init_conns [] d = d
  init_conns (c ∷ cs) d = init_conns cs (
      insert (edge_key c.src c.dst)
        (new_conn A w c.src c.dst (div (num c.base) (num 10)) (div (num c.noise) (num 10))) d)

  -- The state before the first tick.
  unfoldable pub init : Chance A w Mock
  unfolding init_services init_conns
  init = do
    svcs ← init_services (internal_services ++ external_services) []
    pure A w (record {
      service_states = svcs;
      conn_states = init_conns conn_defs [];
      all_events = [];
      counter = 0;
      snapshots = [];
      services = [];
      history = [];
      events = [];
    })

  -- After n ticks.
  unfoldable pub run : ℕ → Chance A w Mock
  unfolding init tick
  run zero = init
  run (suc n) = do m ← run n; tick m
