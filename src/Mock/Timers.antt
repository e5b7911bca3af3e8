-- ===== src/Mock/Timers.antt =====
-- The spike and stress timers of useMockData.ts.
use micro_trace.Common.{
  ℕ, zero, suc, ◌+◌, ◌≤◌, ◌<◌, Bool, Option, List, [], ◌∷◌, ltb, ◌≡◌, refl, arith,
}
use micro_trace.Common.Arith.{Arith}
use micro_trace.Common.Dict.{Dict, lookup, AllEntries, AllEntries-insert, AllEntries-snoc}
use micro_trace.Mock.Chance.{World, rnd}
use micro_trace.Mock.Service.{ServiceState}
use micro_trace.Mock.Conn.{ConnState, age_spike, dst_stressed, settle, tick_conn, new_conn}
use micro_trace.Mock.Tick.{Mock, Pass, tick_conns, tick, ConnDef, conn_defs, init_conns, init, run}

-- `Math.random` is at least 0 and less than 1: `Math.floor(rnd(lo, hi))` is a whole number from lo up to but not including hi.
abbrev pub IsRandom : (A : Arith) → World A → Type 0
IsRandom A w =
    (lo hi i : ℕ)
    → lo < hi
    → hi ≤ 100
    → (lo ≤ A.floor (rnd A w (A.num lo) (A.num hi) i).0)
      × (A.floor (rnd A w (A.num lo) (A.num hi) i).0 < hi)

-- A connection is in a spike just when its timer runs, and the timer stands at 7 at most.
abbrev pub IsTimed : (A : Arith) (w : World A) → ConnState A w → Type 0
IsTimed A w s = (s.is_spike ≡ ltb 0 s.spike_timer) × (s.spike_timer ≤ 7)

module _ (A : Arith) (w : World A) (random : IsRandom A w) where
  age_spike-IsTimed :
      (b : Bool) (s : ConnState A w) (i : ℕ) → IsTimed A w s → IsTimed A w (age_spike A w b s i).0
  unfolding age_spike
  age_spike-IsTimed b s i (e, k) = ground (arith, random 3 8 (i + 1) (omega arith) (omega arith))

  AllTimed : Dict (ConnState A w) → Type 0
  AllTimed d = AllEntries (λ k s. IsTimed A w s) d

  tick_conn-IsTimed :
      (dst : Option (ServiceState A w)) (s : ConnState A w) (i : ℕ)
      → IsTimed A w s
      → IsTimed A w ((tick_conn A w dst s i).0).0
  unfolding tick_conn settle
  tick_conn-IsTimed dst s i h = age_spike-IsTimed (dst_stressed A w dst) s i h

  tick_conns-AllTimed :
      (svcs : Dict (ServiceState A w)) (d : Dict (ConnState A w)) (pass : Pass A w) (i : ℕ)
      → AllTimed d
      → AllTimed pass.conns
      → AllTimed (tick_conns A w svcs d pass i).0.conns
  unfolding tick_conns AllTimed
  tick_conns-AllTimed svcs [] pass i h p = p
  tick_conns-AllTimed svcs ((k, s) ∷ d) pass i (e, h) p = tick_conns-AllTimed svcs d _ _ h (
      AllEntries-snoc (λ k s. IsTimed A w s) pass.conns k
        ((tick_conn A w (lookup s.dst svcs) s i).0).0 p
        (tick_conn-IsTimed (lookup s.dst svcs) s i e))

  tick-AllTimed :
      (m : Mock A w) (i : ℕ) → AllTimed m.conn_states → AllTimed (tick A w m i).0.conn_states
  unfolding tick AllTimed
  tick-AllTimed m i h = tick_conns-AllTimed _ m.conn_states _ _ h tt

  init_conns-AllTimed :
      (defs : List ConnDef) (d : Dict (ConnState A w))
      → AllTimed d
      → AllTimed (init_conns A w defs d)
  unfolding init_conns new_conn AllTimed
  init_conns-AllTimed [] d h = h
  init_conns-AllTimed (c ∷ cs) d h =
      let s =
        new_conn A w c.src c.dst (A.div (A.num c.base) (A.num 10))
          (A.div (A.num c.noise) (A.num 10)) in
      let fresh : IsTimed A w s = (refl, omega arith) in
      init_conns-AllTimed cs _ (AllEntries-insert (λ k s. IsTimed A w s) _ s d fresh h)

  -- After any number of ticks every connection is in a spike just when its timer runs, and no timer stands above 7, where the random
  -- numbers are those that `IsRandom` states.
  pub run-AllTimed : (n i : ℕ) → AllEntries (λ k s. IsTimed A w s) (run A w n i).0.conn_states
  unfolding run init AllTimed
  run-AllTimed zero i = init_conns-AllTimed conn_defs [] tt
  run-AllTimed (suc n) i = tick-AllTimed (run A w n i).0 (run A w n i).1 (run-AllTimed n i)
