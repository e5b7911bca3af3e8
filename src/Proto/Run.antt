-- ===== src/Proto/Run.antt =====
-- The ticks of mt-data.js and of useMockData.ts side by side.
use micro_trace.Common.{
  ℕ, zero, suc, String, true, Option, none, some, List, [], ◌∷◌, map, is_some, ◌≡◌, refl, sym, ap,
  ◌∙◌, subst, arith,
}
use micro_trace.Common.Arith.{Arith}
use micro_trace.Common.Dict.{Dict, lookup, insert, AllEntries}
use micro_trace.Mock.Chance.{World}
use micro_trace.Mock.Service.{ServiceState}
use micro_trace.Mock.Conn.{ConnState, settle, tick_conn}
use micro_trace.Mock.Tick.{Pass, tick_conns, tick_services}
use micro_trace.Proto.Data.{ProtoConn, ProtoPass, proto_conns}
use micro_trace.Proto.Agree.{
  map_values, map_values-insert, forget, age-dst, strip, bare, forget_event,
}
use micro_trace.Proto.Pass.{
  Agrees, forget_points, conn_pass, conn_proto, proto_conn-eq, conn-Agrees,
}
use micro_trace.Mock.Tick.{
  Mock, ConnDef, conn_defs, publish, tick, init_services, init_conns, init, run,
}
use micro_trace.Proto.Data.{Proto, ProtoResult, proto_tick, proto_conns_init, proto_init, proto_run}
use micro_trace.Common.Dict.{AllEntries-snoc}
use micro_trace.Mock.Service.{tick_service}
use micro_trace.Mock.Conn.{dst_stressed, new_conn}
use micro_trace.Common.Key.{edge_key}

module _ (A : Arith) (w : World A) where
  -- The prototype's variables, from the hook's.
  abbrev pub view : Mock A w → Proto A w
  view m = record {
    service_states = m.service_states;
    conn_states = map_values (forget A w) m.conn_states;
    all_events = map (forget_event A w) m.all_events;
    counter = m.counter;
  }

  -- What the prototype's tick returns, against what the page gets of the hook's.
  pub record Shows (out : ProtoResult A w) (m : Mock A w) : Type 0 where
    pub services : out.services ≡ m.services
    pub snapshots : map_values (strip A w) out.snapshots ≡ map_values (bare A w) m.snapshots
    pub history :
        map_values (λ s. s.history) out.snapshots ≡ map_values (forget_points A w) m.history
    pub all_events : out.all_events ≡ map (forget_event A w) m.all_events

  -- The target of a connection is one of the services.
  abbrev IsServed : Dict (ServiceState A w) → ConnState A w → Type 0
  IsServed svcs s = is_some (lookup s.dst svcs) ≡ true

  found : {V : Type 0} (o : Option V) → is_some o ≡ true → (v : V) × (o ≡ some v)
  found none e = cc
  found (some v) e = (v, refl)

  tick_conns-cons :
      (svcs : Dict (ServiceState A w)) (t : ServiceState A w) (k : String) (s : ConnState A w)
      (d : Dict (ConnState A w)) (pass : Pass A w) (i : ℕ)
      → lookup s.dst svcs ≡ some t
      → tick_conns A w svcs ((k, s) ∷ d) pass i
        ≡ tick_conns A w svcs d (conn_pass A w t k s pass i).0 (conn_pass A w t k s pass i).1
  unfolding tick_conns
  tick_conns-cons svcs t k s d pass i f = rw f refl

  proto_conns-cons :
      (svcs : Dict (ServiceState A w)) (t : ServiceState A w) (k : String) (s : ConnState A w)
      (d : Dict (ProtoConn A w)) (q : ProtoPass A w) (i : ℕ)
      → lookup s.dst svcs ≡ some t
      → proto_conns A w svcs ((k, forget A w s) ∷ d) q i
        ≡ proto_conns A w svcs d (conn_proto A w t k s q i).0 (conn_proto A w t k s q i).1
  unfolding proto_conns
  proto_conns-cons svcs t k s d q i f =
      rw (f, proto_conns)
        (ap (λ r. proto_conns A w svcs d r.0 r.1) (proto_conn-eq A w svcs t k s q i f))

  abbrev ConnsAgree :
      Dict (ServiceState A w) → Dict (ConnState A w) → ProtoPass A w → ℕ → Pass A w → ℕ → Type 0
  ConnsAgree svcs d q i pass j =
      (q' : ProtoPass A w) × (proto_conns A w svcs (map_values (forget A w) d) q i
        ≡ some (q', (tick_conns A w svcs d pass j).1))
      × Agrees A w q' (tick_conns A w svcs d pass j).0

  cons-agree :
      (svcs : Dict (ServiceState A w)) (t : ServiceState A w) (k : String) (s : ConnState A w)
      (d : Dict (ConnState A w)) (q : ProtoPass A w) (pass : Pass A w) (i : ℕ)
      → lookup s.dst svcs ≡ some t
      → ConnsAgree svcs d
          (conn_proto A w t k s q i).0
          (conn_proto A w t k s q i).1
          (conn_pass A w t k s pass i).0
          (conn_pass A w t k s pass i).1
      → ConnsAgree svcs ((k, s) ∷ d) q i pass i
  cons-agree svcs t k s d q pass i f (q', runs, agree) = (
    q',
    proto_conns-cons svcs t k s _ q i f
        ∙ runs
        ∙ ap (λ r. some (q', r.1)) (sym (tick_conns-cons svcs t k s d pass i f)),
    subst (λ r. Agrees A w q' r.0) (sym (tick_conns-cons svcs t k s d pass i f)) agree,
  )

  conns-Agrees :
      (svcs : Dict (ServiceState A w)) (d : Dict (ConnState A w)) (q : ProtoPass A w)
      (pass : Pass A w) (i : ℕ)
      → AllEntries (λ k s. IsServed svcs s) d
      → Agrees A w q pass
      → ConnsAgree svcs d q i pass i
  unfolding proto_conns tick_conns
  conns-Agrees svcs [] q pass i h g = (q, refl, g)
  conns-Agrees svcs ((k, s) ∷ d) q pass i (e, h) g =
      let (t, f) = found (lookup s.dst svcs) e in
      let (g', j) = conn-Agrees A w t k s q pass i g in
      cons-agree svcs t k s d q pass i f (
        subst
          (λ x.
            ConnsAgree svcs d (conn_proto A w t k s q i).0 x (conn_pass A w t k s pass i).0
              (conn_pass A w t k s pass i).1)
          (sym j) (conns-Agrees svcs d _ _ _ h g'))

  AllServed : Mock A w → Type 0
  AllServed m = AllEntries (λ k s. IsServed m.service_states s) m.conn_states

  -- One tick of both.
  abbrev pub TickAgrees : Mock A w → ℕ → Type 0
  TickAgrees m i =
      (out : ProtoResult A w) × (proto_tick A w (view m) i
        ≡ some ((view (tick A w m i).0, out), (tick A w m i).1))
      × Shows out (tick A w m i).0

  tick_services-keys :
      (k : String) (d : Dict (ServiceState A w)) (i : ℕ)
      → is_some (lookup k (tick_services A w d i).0) ≡ is_some (lookup k d)
  unfolding tick_services lookup
  tick_services-keys k [] i = refl
  tick_services-keys k ((j, s) ∷ d) i =
      ground (arith, tick_services-keys k d (tick_service A w s i).1)

  AllEntries-imp :
      {V : Type 0} (P Q : String → V → Type 0) (d : Dict V)
      → ((k : String) (v : V) → P k v → Q k v)
      → AllEntries P d
      → AllEntries Q d
  AllEntries-imp P Q [] f h = tt
  AllEntries-imp P Q ((k, v) ∷ d) f (p, h) = (f k v p, AllEntries-imp P Q d f h)

  IsServed-tick :
      (d : Dict (ServiceState A w)) (i : ℕ) (cs : Dict (ConnState A w))
      → AllEntries (λ k s. IsServed d s) cs
      → AllEntries (λ k s. IsServed (tick_services A w d i).0 s) cs
  IsServed-tick d i cs h = AllEntries-imp _ _ cs (λ k s e. tick_services-keys s.dst d i ∙ e) h

  tick_conn-dst :
      (dst : Option (ServiceState A w)) (s : ConnState A w) (i : ℕ)
      → ((tick_conn A w dst s i).0).0.dst ≡ s.dst
  unfolding tick_conn settle
  tick_conn-dst dst s i = age-dst A w (dst_stressed A w dst) s i

  tick_conns-IsServed :
      (svcs : Dict (ServiceState A w)) (d : Dict (ConnState A w)) (pass : Pass A w) (i : ℕ)
      → AllEntries (λ k s. IsServed svcs s) d
      → AllEntries (λ k s. IsServed svcs s) pass.conns
      → AllEntries (λ k s. IsServed svcs s) (tick_conns A w svcs d pass i).0.conns
  unfolding tick_conns
  tick_conns-IsServed svcs [] pass i h p = p
  tick_conns-IsServed svcs ((k, s) ∷ d) pass i (e, h) p = tick_conns-IsServed svcs d _ _ h (
      AllEntries-snoc (λ k s. IsServed svcs s) pass.conns k
        ((tick_conn A w (lookup s.dst svcs) s i).0).0 p
        (rw (tick_conn-dst (lookup s.dst svcs) s i) e))

  tick-AllServed : (m : Mock A w) (i : ℕ) → AllServed m → AllServed (tick A w m i).0
  unfolding tick AllServed
  tick-AllServed m i h =
      tick_conns-IsServed _ m.conn_states _ _ (IsServed-tick m.service_states i m.conn_states h) tt

  init-AllServed : (i : ℕ) → AllServed (init A w i).0
  unfolding AllServed init init_services init_conns insert lookup edge_key new_conn
  init-AllServed i =
      (refl, (refl, (refl, (refl, (refl, (refl, (refl, (refl, (refl, (refl, tt))))))))))

  run-AllServed : (n i : ℕ) → AllServed (run A w n i).0
  unfolding run
  run-AllServed zero i = init-AllServed i
  run-AllServed (suc n) i = tick-AllServed (run A w n i).0 (run A w n i).1 (run-AllServed n i)

  -- The loop's state when it starts.
  abbrev proto_start_pass : Mock A w → ProtoPass A w
  proto_start_pass m = record {
    conns = [];
    snapshots = [];
    new_events = [];
    all_events = map (forget_event A w) m.all_events;
    counter = m.counter;
  }

  abbrev start_pass : Mock A w → Pass A w
  start_pass m = record {
    conns = [];
    snapshots = [];
    history = [];
    log = record { all_events = m.all_events; counter = m.counter; fresh = 0 };
  }

  tick_of_conns :
      (m : Mock A w) (i : ℕ)
      → let svcs = tick_services A w m.service_states i in
        ConnsAgree svcs.0 m.conn_states (proto_start_pass m) svcs.1 (start_pass m) svcs.1
        → TickAgrees m i
  unfolding tick proto_tick
  tick_of_conns m i (q, runs, agree) = (
    record {
      snapshots = q.snapshots;
      services = publish A w (tick_services A w m.service_states i).0 [];
      new_events = q.new_events;
      all_events = q.all_events;
    },
    rw (runs, proto_tick, agree.conns, agree.all_events, agree.counter) refl,
    record {
      services = refl;
      snapshots = agree.snapshots;
      history = agree.history;
      all_events = agree.all_events;
    },
  )

  tick-agrees : (m : Mock A w) (i : ℕ) → AllServed m → TickAgrees m i
  unfolding AllServed
  tick-agrees m i h =
      let svcs = tick_services A w m.service_states i in
      tick_of_conns m i (
        conns-Agrees svcs.0 m.conn_states (proto_start_pass m) (start_pass m) svcs.1
          (IsServed-tick m.service_states i m.conn_states h)
          (record {
            conns = refl;
            snapshots = refl;
            history = refl;
            all_events = refl;
            counter = refl;
            fresh = refl;
          }))

  conns-init :
      (defs : List ConnDef) (d : Dict (ConnState A w))
      → proto_conns_init A w defs (map_values (forget A w) d)
        ≡ map_values (forget A w) (init_conns A w defs d)
  unfolding proto_conns_init init_conns new_conn
  conns-init [] d = refl
  conns-init (c ∷ cs) d =
      ap (proto_conns_init A w cs) (sym (map_values-insert (forget A w) (edge_key c.src c.dst) _ d))
      ∙ conns-init cs _

  -- The whole run.
  pub run-view : (n i : ℕ) → proto_run A w n i ≡ some (view (run A w n i).0, (run A w n i).1)
  unfolding proto_run proto_init run init
  run-view zero i = rw (conns-init conn_defs []) refl
  run-view (suc n) i =
      let (out, ticks, shows) = tick-agrees (run A w n i).0 (run A w n i).1 (run-AllServed n i) in
      rw (run-view n i, ticks) refl

  -- The prototype simulates what the hook simulates, in the same world of random numbers and times. After any number of ticks no tick has
  -- thrown, the prototype's variables are the hook's (`view`), and as many random numbers and times have been asked for. The
  -- next tick does not throw either: it leaves the hook's variables, and what it returns shows what the page gets from the hook (`Shows`).
  pub run-agrees :
      (n i : ℕ)
      → (proto_run A w n i ≡ some (view (run A w n i).0, (run A w n i).1))
        × TickAgrees (run A w n i).0 (run A w n i).1
  run-agrees n i = (run-view n i, tick-agrees (run A w n i).0 (run A w n i).1 (run-AllServed n i))
