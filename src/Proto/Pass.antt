-- ===== src/Proto/Pass.antt =====
-- A connection's whole part of a tick, and what is reported of it: mt-data.js and useMockData.ts side by side.
use micro_trace.Common.{
  ℕ, ◌+◌, String, Bool, true, not, ◌&&◌, some, List, [], ◌∷◌, ◌++◌, map, take, length, or_else,
  is_some, ◌≡◌, refl, sym, ap, ◌∙◌, arith, Bool-cases, inl, inr, length-append,
}
use micro_trace.Common.Arith.{Arith}
use micro_trace.Common.Dict.{Dict, lookup, insert}
use micro_trace.Types.{HistoryPoint, CauseKind}
use micro_trace.Mock.Chance.{World, Percs, gen_percs}
use micro_trace.Mock.Service.{ServiceState}
use micro_trace.Mock.Conn.{ConnState, age_spike, tick_conn, to_snap, to_event, to_history_point}
use micro_trace.Mock.Tick.{Pass, log_spike}
use micro_trace.Proto.Data.{
  ProtoPoint, ProtoConn, ProtoPass, proto_settle, proto_snap, proto_event, proto_log, proto_conn,
}
use micro_trace.Proto.Agree.{
  map_values, map_values-append, map_values-insert, map-take, forget_point, forget, age-forget,
  age-dst, settle-forget, settle-explained, strip, bare, forget_event, snap-strip, event-forget,
}

module _ (A : Arith) (w : World A) where
  open A use {Num, num, mul}

  -- A history as the prototype has it.
  abbrev pub forget_points : List (HistoryPoint A) → List (ProtoPoint A w)
  forget_points hs = map (forget_point A w) hs

  -- The loop over the connections, in the prototype and in the hook.
  pub record Agrees (q : ProtoPass A w) (p : Pass A w) : Type 0 where
    pub conns : q.conns ≡ map_values (forget A w) p.conns
    pub snapshots : map_values (strip A w) q.snapshots ≡ map_values (bare A w) p.snapshots
    pub history : map_values (λ s. s.history) q.snapshots ≡ map_values forget_points p.history
    pub all_events : q.all_events ≡ map (forget_event A w) (p.log).all_events
    pub counter : q.counter ≡ (p.log).counter
    pub fresh : length q.new_events ≡ (p.log).fresh

  points-shown :
      (hs : List (HistoryPoint A))
      → forget_points (map (to_history_point A w) hs) ≡ forget_points hs
  unfolding to_history_point
  points-shown [] = refl
  points-shown (h ∷ hs) = ap (λ ps. forget_point A w h ∷ ps) (points-shown hs)

  -- What the hook does with a connection whose target is `t`.
  abbrev pub conn_pass : ServiceState A w → String → ConnState A w → Pass A w → ℕ → Pass A w × ℕ
  conn_pass t k s pass i =
      let r = tick_conn A w (some t) s i in
      let log = log_spike A w s.is_spike (some t) (r.0).1 (r.0).0 pass.log r.1 in
      (
        record {
          conns = pass.conns ++ (k, (r.0).0) ∷ [];
          snapshots = insert s.key (to_snap A w (some t) (r.0).1 (r.0).0) pass.snapshots;
          history = insert s.key (map (to_history_point A w) ((r.0).0).history) pass.history;
          log = log.0;
        },
        log.1,
      )

  -- What the prototype does with it, by the hook's figures.
  abbrev pub conn_proto :
      ServiceState A w → String → ConnState A w → ProtoPass A w → ℕ → ProtoPass A w × ℕ
  conn_proto t k s q i =
      let r = tick_conn A w (some t) s i in
      proto_log A w s.is_spike t (r.0).1 (forget A w (r.0).0)
        (record q {
          conns = q.conns ++ (k, forget A w (r.0).0) ∷ [];
          snapshots = insert s.key (proto_snap A w t (r.0).1 (forget A w (r.0).0)) q.snapshots;
        })
        r.1

  abbrev logged :
      ServiceState A w
      → String
      → ConnState A w
      → ProtoPass A w
      → Percs A w × ℕ
      → ProtoConn A w
      → ProtoPass A w × ℕ
  logged t k s q p s' =
      proto_log A w s.is_spike t p.0 s'
        (record q {
          conns = q.conns ++ (k, s') ∷ [];
          snapshots = insert s.key (proto_snap A w t p.0 s') q.snapshots;
        })
        (p.1 + 1)

  abbrev after_age :
      Dict (ServiceState A w)
      → ServiceState A w
      → String
      → ConnState A w
      → ProtoPass A w
      → ProtoConn A w × ℕ
      → ProtoPass A w × ℕ
  after_age svcs t k s q aged =
      let p = gen_percs A w (aged.0).is_spike (aged.0).base_ms (aged.0).noise_ms aged.1 in
      logged t k s q p (proto_settle A w svcs p.0 (w.clock p.1) aged.0)

  pub proto_conn-eq :
      (svcs : Dict (ServiceState A w)) (t : ServiceState A w) (k : String) (s : ConnState A w)
      (q : ProtoPass A w) (i : ℕ)
      → lookup s.dst svcs ≡ some t
      → proto_conn A w svcs t k (forget A w s) q i ≡ conn_proto t k s q i
  unfolding proto_conn tick_conn
  proto_conn-eq svcs t k s q i e =
      let b = is_some t.stress_kind in
      let a = age_spike A w b s i in
      let p = gen_percs A w (a.0).is_spike (a.0).base_ms (a.0).noise_ms a.1 in
      ap (after_age svcs t k s q) (age-forget A w b s i)
      ∙ ap (logged t k s q p)
          (settle-forget A w svcs t p.0 (w.clock p.1) a.0 (rw (age-dst A w b s i) e))

  log-Agrees :
      (was : Bool) (t : ServiceState A w) (p : Percs A w) (s : ConnState A w) (q : ProtoPass A w)
      (pass : Pass A w) (i : ℕ)
      → (s.is_spike ≡ true → some (or_else s.cause_kind CauseKind.network) ≡ s.cause_kind)
      → Agrees q pass
      → Agrees
          (proto_log A w was t p (forget A w s) q i).0
          (record pass { log = (log_spike A w was (some t) p s pass.log i).0 })
        × ((proto_log A w was t p (forget A w s) q i).1
            ≡ (log_spike A w was (some t) p s pass.log i).1)
  unfolding proto_log log_spike
  log-Agrees was t p s q pass i c h = elim (Bool-cases (s.is_spike && not was)) [
    | inl e ↦ rw e (
      record {
        conns = h.conns;
        snapshots = h.snapshots;
        history = h.history;
        all_events =
            ap (λ ev. ev ∷ take 99 q.all_events)
              (rw h.counter (event-forget A w t p _ _ _ s (c (ground (arith, e)))))
            ∙ ap
                (λ es.
                  forget_event A w (
                    to_event A w (some t) p (w.clock i) (w.clock (i + 1)) ((pass.log).counter + 1)
                      s)
                  ∷ es)
                (rw h.all_events (sym (map-take (forget_event A w) 99 _)));
        counter = omega (arith, h.counter);
        fresh = omega (
          arith,
          h.fresh,
          length-append q.new_events (
              proto_event A w t p (w.clock i) (w.clock (i + 1)) (q.counter + 1) (forget A w s)
              ∷ []),
        );
      },
      refl,
    )
    | inr e ↦ rw e (
      record {
        conns = h.conns;
        snapshots = h.snapshots;
        history = h.history;
        all_events = h.all_events;
        counter = h.counter;
        fresh = h.fresh;
      },
      refl,
    )
  ]

  snap-history :
      (t : ServiceState A w) (p : Percs A w) (s : ConnState A w)
      → (proto_snap A w t p (forget A w s)).history ≡ forget_points s.history
  unfolding proto_snap
  snap-history t p s = refl

  tick_conn-explained :
      (t : ServiceState A w) (s : ConnState A w) (i : ℕ)
      → let s' = ((tick_conn A w (some t) s i).0).0 in
        s'.is_spike ≡ true → some (or_else s'.cause_kind CauseKind.network) ≡ s'.cause_kind
  unfolding tick_conn
  tick_conn-explained t s i =
      let a = age_spike A w (is_some t.stress_kind) s i in
      let p = gen_percs A w (a.0).is_spike (a.0).base_ms (a.0).noise_ms a.1 in
      settle-explained A w t p.0 (w.clock p.1) a.0

  pub conn-Agrees :
      (t : ServiceState A w) (k : String) (s : ConnState A w) (q : ProtoPass A w) (pass : Pass A w)
      (i : ℕ)
      → Agrees q pass
      → Agrees (conn_proto t k s q i).0 (conn_pass t k s pass i).0
        × ((conn_proto t k s q i).1 ≡ (conn_pass t k s pass i).1)
  conn-Agrees t k s q pass i h =
      let r = tick_conn A w (some t) s i in
      let s' = (r.0).0 in
      let snap = proto_snap A w t (r.0).1 (forget A w s') in
      log-Agrees s.is_spike t (r.0).1 s'
        (record q {
          conns = q.conns ++ (k, forget A w s') ∷ [];
          snapshots = insert s.key (proto_snap A w t (r.0).1 (forget A w s')) q.snapshots;
        })
        (record pass {
          conns = pass.conns ++ (k, s') ∷ [];
          snapshots = insert s.key (to_snap A w (some t) (r.0).1 s') pass.snapshots;
          history = insert s.key (map (to_history_point A w) s'.history) pass.history;
        })
        r.1 (tick_conn-explained t s i)
        (record {
          conns = rw h.conns (sym (map_values-append (forget A w) pass.conns ((k, s') ∷ [])));
          snapshots =
              map_values-insert (strip A w) s.key snap q.snapshots
              ∙ rw (h.snapshots, snap-strip A w t (r.0).1 s')
                  (sym (map_values-insert (bare A w) s.key _ pass.snapshots));
          history =
              map_values-insert (λ p. p.history) s.key snap q.snapshots
              ∙ ap (λ d. insert s.key snap.history d) h.history
              ∙ ap (λ ps. insert s.key ps (map_values forget_points pass.history))
                  (snap-history t (r.0).1 s' ∙ sym (points-shown s'.history))
              ∙ sym (map_values-insert forget_points s.key _ pass.history);
          all_events = h.all_events;
          counter = h.counter;
          fresh = h.fresh;
        })
