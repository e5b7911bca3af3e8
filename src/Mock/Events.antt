-- ===== src/Mock/Events.antt =====
-- The event log of useMockData.ts.
use Prim.Native.Nat.{min}
use micro_trace.Common.{
  ℕ, zero, suc, ◌+◌, Bool, not, ◌&&◌, Option, List, [], ◌∷◌, length, if◌then◌else◌, ltb, ◌≡◌, refl,
  sym, ◌∙◌, arith, length-take, Bool-cases, inl, inr,
}
use micro_trace.Common.Arith.{Arith}
use micro_trace.Common.Dict.{Dict, lookup}
use micro_trace.Types.{SpikeEvent}
use micro_trace.Mock.Chance.{World, Percs}
use micro_trace.Mock.Service.{ServiceState}
use micro_trace.Mock.Conn.{ConnState, tick_conn, to_event}
use micro_trace.Mock.Tick.{Mock, Pass, Log, tick_services, log_spike, tick_conns, tick, init, run}

module _ (A : Arith) (w : World A) where
  -- The log against the events before the tick: it holds as many as were ever logged, up to 100, and is what it was unless there are new ones.
  record LogFits (before : List (SpikeEvent A)) (log : Log A w) : Type 0 where
    counted : length log.all_events ≡ min log.counter 100
    kept : log.fresh ≡ 0 → log.all_events ≡ before

  log_spike-LogFits :
      (before : List (SpikeEvent A)) (was : Bool) (dst : Option (ServiceState A w)) (p : Percs A w)
      (s : ConnState A w) (log : Log A w) (i : ℕ)
      → LogFits before log
      → LogFits before (log_spike A w was dst p s log i).0
  unfolding log_spike
  log_spike-LogFits before was dst p s log i h = elim (Bool-cases (s.is_spike && not was)) [
    | inl e ↦ rw e (record {
      counted = omega (
        arith,
        h.counted,
        length-take 100
            (to_event A w dst p (w.clock i) (w.clock (i + 1)) (log.counter + 1) s ∷ log.all_events),
      );
      kept = λ z. absurd (omega (arith, z));
    })
    | inr e ↦ rw e h
  ]

  tick_conns-LogFits :
      (before : List (SpikeEvent A)) (svcs : Dict (ServiceState A w)) (d : Dict (ConnState A w))
      (pass : Pass A w) (i : ℕ)
      → LogFits before pass.log
      → LogFits before (tick_conns A w svcs d pass i).0.log
  unfolding tick_conns
  tick_conns-LogFits before svcs [] pass i h = h
  tick_conns-LogFits before svcs ((k, s) ∷ d) pass i h = tick_conns-LogFits before svcs d _ _ (
      log_spike-LogFits before s.is_spike (lookup s.dst svcs)
        (tick_conn A w (lookup s.dst svcs) s i).0.1 (tick_conn A w (lookup s.dst svcs) s i).0.0
        pass.log _ h)

  -- The log holds as many events as were ever counted, up to 100, and it is what the page shows.
  abbrev pub IsLogged : Mock A w → Type 0
  IsLogged m = (length m.all_events ≡ min m.counter 100) × (m.events ≡ m.all_events)

  tick-IsLogged : (m : Mock A w) (i : ℕ) → IsLogged m → IsLogged (tick A w m i).0
  unfolding tick
  tick-IsLogged m i (c, e) =
      let p =
        (tick_conns A w (tick_services A w m.service_states i).0 m.conn_states
          (record {
            conns = [];
            snapshots = [];
            history = [];
            log = record { all_events = m.all_events; counter = m.counter; fresh = 0 };
          })
          (tick_services A w m.service_states i).1).0 in
      let h =
        tick_conns-LogFits m.all_events (tick_services A w m.service_states i).0 m.conn_states
          (record {
            conns = [];
            snapshots = [];
            history = [];
            log = record { all_events = m.all_events; counter = m.counter; fresh = 0 };
          })
          (tick_services A w m.service_states i).1 (record { counted = c; kept = λ z. refl }) in
      (h.counted, published p.log m.events m.all_events e h)
    where
      published :
          (log : Log A w) (old before : List (SpikeEvent A))
          → old ≡ before
          → LogFits before log
          → (if ltb 0 log.fresh then log.all_events else old) ≡ log.all_events
      published log old before e h = elim (Bool-cases (ltb 0 log.fresh)) [
        | inl t ↦ rw t refl
        | inr t ↦ rw t (e ∙ sym (h.kept (ground (arith, t))))
      ]

  -- After any number of ticks the log of the simulation holds as many events as its counter says, or 100 if
  -- that is less, and the page's events are the log.
  run-IsLogged : (n i : ℕ) → IsLogged (run A w n i).0
  unfolding run init
  run-IsLogged zero i = (refl, refl)
  run-IsLogged (suc n) i = tick-IsLogged (run A w n i).0 (run A w n i).1 (run-IsLogged n i)
