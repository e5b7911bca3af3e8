-- ===== src/Collector/Tracker/Cause.antt =====
-- The reports of the collector: each has a cause just where it is a spike, and the cause fits the resources last measured.
use micro_trace.Common.{
  ℕ, ◌==◌, String, Bool, true, false, ◌&&◌, ◌||◌, Option, none, some, is_some, List, [], ◌∷◌, subst,
  str_eq, if◌then◌else◌, ◌≡◌, refl, sym, ap, ◌∙◌, arith, Bool-cases, inl, inr,
}
use mathlib.Core.Option.{some-injective}
use micro_trace.Common.Arith.{Arith, gt}
use micro_trace.Types.{CauseKind, Side, StatSnapshot, ResourceMsg}
use micro_trace.Collector.Ring.{IsRing, latest}
use micro_trace.Collector.Stats.{ConnStats, Percentiles, against, is_spike}
use micro_trace.Collector.Laws.{percentiles_total}
use micro_trace.Collector.Tracker.{
  Resolver, Event, FlowKey, FlowState, react, stats_or_new, put_conn, node_type, Tracked, Tracker,
  new_tracker, Step, event, sweep, measured, step, run, detect_cause, with_cause, figures, report,
  handle_event, keep_resource, sweep_expired,
}
use micro_trace.Collector.Tracker.Known.{Known, known, Tells}
use micro_trace.Collector.Tracker.Total.{run_total}

is_spike_total : (us : ℕ) (s : ConnStats) → IsRing s.rtt → (v : Bool × ℕ) × (is_spike us s ≡ some v)
unfolding is_spike
is_spike_total us s h = elim (Bool-cases (s.stable_p99 == 0)) [
  | inl e ↦ let (p, q, o) = percentiles_total s.rtt h in (against us p.p99, rw (e, q) refl)
  | inr e ↦ (against us s.stable_p99, rw e refl)
]

module _ (A : Arith) where
  abbrev is_throttled : ResourceMsg A → Bool
  is_throttled r =
      gt A r.cpu_throttle_pct (A.num 25)
      || (gt A r.cpu_throttle_pct (A.num 1) && gt A r.cpu_pct (A.num 60))

  abbrev is_short : ResourceMsg A → Bool
  is_short r = gt A r.oom_kill_count (A.num 0) || gt A r.mem_pressure_pct (A.num 20)

  abbrev holds : (ResourceMsg A → Bool) → Option (ResourceMsg A) → Bool
  holds f none = false
  holds f (some r) = f r

  -- What a cause says of the target and of its resources.
  abbrev pub Explains : Option CauseKind → Side → Option (ResourceMsg A) → Type 0
  Explains none side res = Unit
  Explains (some CauseKind.external) side res = side ≡ Side.external
  Explains (some CauseKind.cpu) side res = (side ≡ Side.internal) × (holds is_throttled res ≡ true)
  Explains (some CauseKind.memory) side res = (side ≡ Side.internal) × (holds is_short res ≡ true)
  Explains (some CauseKind.network) side res =
      (side ≡ Side.internal) × (holds is_throttled res ≡ false) × (holds is_short res ≡ false)
  Explains (some CauseKind.io) side res = ⊥

  detect_cause-Explains :
      (side : Side) (res : Option (ResourceMsg A))
      → Explains (some (detect_cause A side res).0) side res
  unfolding detect_cause
  detect_cause-Explains Side.external res = refl
  detect_cause-Explains Side.internal none = (refl, refl, refl)
  detect_cause-Explains Side.internal (some r) = ground arith

  -- The resources that were last measured of a service.
  abbrev pub latest_resource : String → List (Step A) → Option (ResourceMsg A)
  latest_resource name [] = none
  latest_resource name (measured m ∷ older) =
      if str_eq m.service_name name then some m else latest_resource name older
  latest_resource name (_ ∷ older) = latest_resource name older

  handle_event-resources :
      (r : Resolver) (e : Event) (now : ℕ) (t t' : Tracker A) (name : String)
      → handle_event A r e now t ≡ some t'
      → t'.resources name ≡ t.resources name
  unfolding handle_event
  handle_event-resources r e now t t' name =
      after (
        react e.kind e now (stats_or_new (t.conns (r.resolve e.saddr) (r.resolve e.daddr))) t.flows)
    where
      after :
          (x : Option (ConnStats × (FlowKey → Option FlowState)))
          → (elim x [
            | none ↦ none
            | some y ↦ some (record t {
              conns =
                  put_conn A
                    (r.resolve e.saddr)
                    (r.resolve e.daddr)
                    (record {
                      stats = y.0;
                      last_seen = now;
                      src_type = node_type e.saddr r;
                      dst_type = node_type e.daddr r;
                    })
                    t.conns;
              flows = y.1;
            })
          ])
            ≡ some t'
          → t'.resources name ≡ t.resources name
      after none q = cc
      after (some y) q = ap (λ u. u.resources name) (sym (some-injective _ _ q))

  step-resources :
      (s : Step A) (older : List (Step A)) (t t' : Tracker A) (name : String)
      → t.resources name ≡ latest_resource name older
      → step A s t ≡ some t'
      → t'.resources name ≡ latest_resource name (s ∷ older)
  unfolding step sweep_expired keep_resource
  step-resources (event r e now) older t t' name h q =
      handle_event-resources r e now t t' name q ∙ h
  step-resources (sweep now) older t t' name h q =
      ap (λ u. u.resources name) (sym (some-injective _ _ q)) ∙ h
  step-resources (measured m) older t t' name h q =
      ap (λ u. u.resources name) (sym (some-injective _ _ q))
      ∙ ap (λ o. if str_eq m.service_name name then some m else o) h

  run_cons :
      (s : Step A) (older : List (Step A)) (u : Tracker A)
      → run A older ≡ some u
      → run A (s ∷ older) ≡ step A s u
  unfolding run
  run_cons s older u e = rw (e, run) refl

  run-resources :
      (ss : List (Step A)) (t : Tracker A) (name : String)
      → run A ss ≡ some t
      → t.resources name ≡ latest_resource name ss
  unfolding run
  run-resources [] t name q = ap (λ u. u.resources name) (sym (some-injective (new_tracker A) t q))
  run-resources (s ∷ older) t name q =
      let (u, e, h, _) = run_total A older in
      step-resources s older u t name (run-resources older u name e)
        (sym (run_cons s older u e) ∙ q)

  -- A report has a cause just where it is a spike, and then it fits.
  with_cause_fits :
      (src dst : String) (c : Tracked) (p : Percentiles) (v : Bool × ℕ)
      (res : Option (ResourceMsg A))
      → let snap = with_cause A v.0 c.dst_type res (figures A src dst c p v) in
        (is_some snap.cause_kind ≡ snap.is_spike) × Explains snap.cause_kind snap.dst_type res
  with_cause_fits src dst c p (true, threshold) res = (refl, detect_cause-Explains c.dst_type res)
  with_cause_fits src dst c p (false, threshold) res = (refl, tt)

  report_fits :
      (src dst : String) (c : Tracked) (t : Tracker A)
      → IsRing c.stats.rtt
      → (snap : StatSnapshot A) × (report A src dst c t ≡ some snap)
        × (is_some snap.cause_kind ≡ snap.is_spike)
        × Explains snap.cause_kind snap.dst_type (t.resources dst)
  unfolding report
  report_fits src dst c t h =
      let (p, e, o) = percentiles_total c.stats.rtt h in
      let (v, q) = is_spike_total (latest c.stats.rtt) c.stats h in
      let (same, fits) = with_cause_fits src dst c p v (t.resources dst) in
      (
        with_cause A v.0 c.dst_type (t.resources dst) (figures A src dst c p v),
        rw (e, q, report) refl,
        same,
        fits,
      )

  Tells-IsRing : (c : Tracked) (k : Option Known) → Tells (some c) k → IsRing c.stats.rtt
  Tells-IsRing c none h = absurd h
  Tells-IsRing c (some k) (_, (w, _)) = w.0

  -- Whatever happened before, the report on a connection that is tracked does not panic. It names a cause just where it is a
  -- spike: `external` for an external target; for an internal one, by the resources last measured of it: `cpu` only where
  -- it was throttled, `memory` only where it was killed for lack of memory or under pressure, and `network` only where
  -- none of these was so or nothing was measured. It never names `io`.
  pub report_explained :
      (ss : List (Step A)) (t : Tracker A) (src dst : String) (c : Tracked)
      → run A ss ≡ some t
      → t.conns src dst ≡ some c
      → (snap : StatSnapshot A) × (report A src dst c t ≡ some snap)
        × (is_some snap.cause_kind ≡ snap.is_spike)
        × Explains snap.cause_kind snap.dst_type (latest_resource dst ss)
  report_explained ss t src dst c q found =
      let (u, e, h, _) = run_total A ss in
      let same : u ≡ t = some-injective u t (sym e ∙ q) in
      let told : Tells (some c) (known src dst ss) =
        subst (λ o. Tells o (known src dst ss)) (ap (λ x. x.conns src dst) same ∙ found)
          (h src dst) in
      let (snap, r, i, f) = report_fits src dst c t (Tells-IsRing c (known src dst ss) told) in
      (snap, r, i, subst (Explains snap.cause_kind snap.dst_type) (run-resources ss t dst q) f)
