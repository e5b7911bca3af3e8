-- ===== src/Mock/Ends.antt =====
-- That the spikes of useMockData.ts end.
use micro_trace.Common.{
  append_nil, append_snoc, ℕ, zero, suc, ◌+◌, ◌-◌, ◌==◌, ◌≤◌, String, true, false, not, Option,
  some, [], ◌∷◌, ◌++◌, ◌≡◌, refl, sym, ap, if◌then◌else◌, or_else, Bool-cases, str_eq, inl, inr,
  ◌∙◌, subst, arith,
}
use micro_trace.Common.Arith.{Arith}
use micro_trace.Common.Dict.{Dict, lookup, AllEntries-lookup}
use micro_trace.Mock.Chance.{World}
use micro_trace.Mock.Service.{ServiceState}
use micro_trace.Mock.Conn.{ConnState, age_spike, settle, tick_conn}
use micro_trace.Mock.Tick.{Mock, Pass, tick_services, tick_conns, tick, run}
use micro_trace.Mock.Timers.{IsRandom, IsTimed, run-AllTimed}

module _ (A : Arith) (w : World A) where
  -- One tick of a spike: its timer has run down by one, and at 0 it is over.
  abbrev Ages : ConnState A w → ConnState A w → Type 0
  Ages s s' =
      s.is_spike ≡ true
      → (s'.spike_timer ≡ s.spike_timer - 1) × (s'.is_spike ≡ not (s.spike_timer - 1 == 0))

  tick_conn-Ages :
      (dst : Option (ServiceState A w)) (s : ConnState A w) (i : ℕ)
      → Ages s ((tick_conn A w dst s i).0).0
  unfolding tick_conn settle age_spike
  tick_conn-Ages dst s i e = rw e (refl, refl)

  -- The same connections in the same order, each a tick older.
  abbrev AllAge : Dict (ConnState A w) → Dict (ConnState A w) → Type 0
  AllAge [] [] = Unit
  AllAge ((k, s) ∷ d) ((k', s') ∷ d') = (k ≡ k') × Ages s s' × AllAge d d'
  AllAge _ _ = ⊥

  tick_conns-AllAge :
      (svcs : Dict (ServiceState A w)) (d : Dict (ConnState A w)) (pass : Pass A w) (i : ℕ)
      → (d' : Dict (ConnState A w)) × ((tick_conns A w svcs d pass i).0.conns ≡ pass.conns ++ d')
        × AllAge d d'
  unfolding tick_conns
  tick_conns-AllAge svcs [] pass i = ([], sym (append_nil pass.conns), tt)
  tick_conns-AllAge svcs ((k, s) ∷ d) pass i =
      let r = tick_conn A w (lookup s.dst svcs) s i in
      let (d', e, h) = tick_conns-AllAge svcs d _ _ in
      (
        (k, (r.0).0) ∷ d',
        e ∙ append_snoc pass.conns (k, (r.0).0) d',
        (refl, tick_conn-Ages (lookup s.dst svcs) s i, h),
      )

  lookup-AllAge :
      (k : String) (d d' : Dict (ConnState A w)) (s : ConnState A w)
      → AllAge d d'
      → lookup k d ≡ some s
      → (s' : ConnState A w) × (lookup k d' ≡ some s') × Ages s s'
  unfolding lookup
  lookup-AllAge k [] d' s h e = cc
  lookup-AllAge k ((j, t) ∷ d) [] s h e = absurd h
  lookup-AllAge k ((j, t) ∷ d) ((j', t') ∷ d') s (p, a, h) e = elim (Bool-cases (str_eq j k)) [
    | inl q ↦ (
      t',
      rw (sym p, q) refl,
      subst (λ x. Ages x t')
          (ap (λ o. or_else o t) (subst (λ b. (if b then some t else lookup k d) ≡ some s) q e)) a,
    )
    | inr q ↦
        rw (sym p, q)
          (lookup-AllAge k d d' s h (subst (λ b. (if b then some t else lookup k d) ≡ some s) q e))
  ]

  tick-Ages :
      (m : Mock A w) (i : ℕ) (k : String) (s : ConnState A w)
      → lookup k m.conn_states ≡ some s
      → (s' : ConnState A w) × (lookup k (tick A w m i).0.conn_states ≡ some s') × Ages s s'
  unfolding tick
  tick-Ages m i k s e =
      let svcs = tick_services A w m.service_states i in
      let (d', q, h) =
        tick_conns-AllAge svcs.0 m.conn_states
          (record {
            conns = [];
            snapshots = [];
            history = [];
            log = record { all_events = m.all_events; counter = m.counter; fresh = 0 };
          })
          svcs.1 in
      let (s', f, a) = lookup-AllAge k m.conn_states d' s h e in (s', ap (lookup k) q ∙ f, a)

  at_tick :
      (k : String) (m n i : ℕ) (s : ConnState A w)
      → m ≡ n
      → lookup k (run A w m i).0.conn_states ≡ some s
      → lookup k (run A w n i).0.conn_states ≡ some s
  at_tick k m n i s e h = subst (λ j. lookup k (run A w j i).0.conn_states ≡ some s) e h

  -- A spike whose timer stands at `suc t` is over that many ticks later.
  spike_over :
      (k : String) (t n i : ℕ) (s : ConnState A w)
      → lookup k (run A w n i).0.conn_states ≡ some s
      → s.is_spike ≡ true
      → s.spike_timer ≡ suc t
      → (s' : ConnState A w) × (lookup k (run A w (n + suc t) i).0.conn_states ≡ some s')
        × (s'.is_spike ≡ false)
  unfolding run
  spike_over k zero n i s e z q =
      let (s', f, a) = tick-Ages (run A w n i).0 (run A w n i).1 k s e in
      (s', at_tick k (suc n) (n + 1) i s' (omega arith) f, (a z).1 ∙ rw q refl)
  spike_over k (suc t) n i s e z q =
      let (s', f, a) = tick-Ages (run A w n i).0 (run A w n i).1 k s e in
      let (s'', g, o) =
        spike_over k t (suc n) i s' f ((a z).1 ∙ rw q (ground arith))
          ((a z).0 ∙ rw q (omega arith)) in
      (s'', at_tick k (suc n + suc t) (n + suc (suc t)) i s'' (omega arith) g, o)

  -- A spike ends: a connection that is in a spike after some ticks is in none once its timer has run out, which takes 7 ticks at most.
  -- The random numbers are those that `IsRandom` states.
  pub spike-ends :
      (random : IsRandom A w) (k : String) (n i : ℕ) (s : ConnState A w)
      → lookup k (run A w n i).0.conn_states ≡ some s
      → s.is_spike ≡ true
      → (s.spike_timer ≤ 7)
        × (s' : ConnState A w) × (lookup k (run A w (n + s.spike_timer) i).0.conn_states ≡ some s')
        × (s'.is_spike ≡ false)
  spike-ends random k n i s e z =
      let timed =
        AllEntries-lookup (λ k s. IsTimed A w s) k (run A w n i).0.conn_states s
          (run-AllTimed A w random n i) e in
      let t : s.spike_timer ≡ suc (s.spike_timer - 1) = ground (arith, timed.0, z) in
      let (s', f, o) = spike_over k (s.spike_timer - 1) n i s e z t in
      (
        timed.1,
        s',
        at_tick k (n + suc (s.spike_timer - 1)) (n + s.spike_timer) i s' (omega (arith, t)) f,
        o,
      )
