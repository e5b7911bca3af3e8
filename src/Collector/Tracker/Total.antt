-- ===== src/Collector/Tracker/Total.antt =====
-- The whole state of the collector against what is known of each connection and of each flow.
use micro_trace.Common.{
  ℕ, ◌-◌, ltb, String, true, Option, none, some, List, [], ◌∷◌, eq_iff, if◌then◌else◌, ◌≡◌, refl,
  ap, ◌∙◌, subst, arith, Bool-cases, inl, inr,
}
use micro_trace.Common.Arith.{Arith}
use micro_trace.Collector.Ring.{empty-IsWindow}
use micro_trace.Collector.Feed.{conn_ttl}
use micro_trace.Collector.Stats.{ConnStats}
use micro_trace.Collector.Tracker.{
  Event, Resolver, FlowKey, FlowState, Tracked, stats_or_new, flow_key, same_conn, same_flow,
  keep_fresh, react, Tracker, new_tracker, node_type, put_conn, handle_event, sweep_expired,
  keep_resource, Step, event, sweep, measured, step, run,
}
use micro_trace.Collector.Tracker.Known.{
  Known, times_of, resent_of, after_event, known, flow_after, known_flow, Holds, Tells,
}
use micro_trace.Collector.Tracker.Reacts.{react-Holds}

Tells-Holds :
    (c : Option Tracked) (k : Option Known)
    → Tells c k
    → Holds (times_of k) (resent_of k) (stats_or_new c)
Tells-Holds none none h = (empty-IsWindow, refl)
Tells-Holds none (some k) h = absurd h
Tells-Holds (some c) none h = absurd h
Tells-Holds (some c) (some k) (_, h) = h

Tells-keep_fresh :
    (now : ℕ) (c : Option Tracked) (k : Option Known)
    → Tells c k
    → Tells (keep_fresh now (λ c. c.last_seen) c) (keep_fresh now (λ k. k.seen) k)
Tells-keep_fresh now none none h = tt
Tells-keep_fresh now none (some k) h = absurd h
Tells-keep_fresh now (some c) none h = absurd h
Tells-keep_fresh now (some c) (some k) (e, h) =
    let same : ltb conn_ttl (now - c.last_seen) ≡ ltb conn_ttl (now - k.seen) =
      ap (λ t. ltb conn_ttl (now - t)) e in
    elim (Bool-cases (ltb conn_ttl (now - k.seen))) [
      | inl old ↦ rw (same ∙ old, old) tt
      | inr fresh ↦ rw (same ∙ fresh, fresh) (e, h)
    ]

module _ (A : Arith) where
  abbrev AllTell : Tracker A → List (Step A) → Type 0
  AllTell t ss = (src dst : String) → Tells (t.conns src dst) (known src dst ss)

  same_conn_eq : (src dst a b : String) → same_conn src dst a b ≡ true → (src ≡ a) × (dst ≡ b)
  same_conn_eq src dst a b h = ground (arith, eq_iff src a, eq_iff dst b, h)

  put_conn-Tells :
      (src dst : String) (c : Tracked) (conns : String → String → Option Tracked)
      (before : String → String → Option Known) (k : Option Known → Known)
      → ((a b : String) → Tells (conns a b) (before a b))
      → Tells (some c) (some (k (before src dst)))
      → (a b : String)
      → Tells
          (put_conn A src dst c conns a b)
          (if same_conn src dst a b then some (k (before a b)) else before a b)
  put_conn-Tells src dst c conns before k h new a b = elim (Bool-cases (same_conn src dst a b)) [
    | inl here ↦
        let (p, q) = same_conn_eq src dst a b here in
        rw here (
          subst (λ y. Tells (some c) (some (k (before a y)))) q
            (subst (λ x. Tells (some c) (some (k (before x dst)))) p new))
    | inr there ↦ rw there (h a b)
  ]

  handle_event_eq :
      (r : Resolver) (e : Event) (now : ℕ) (t : Tracker A) (x : ConnStats)
      (flows : FlowKey → Option FlowState)
      → react e.kind e now (stats_or_new (t.conns (r.resolve e.saddr) (r.resolve e.daddr))) t.flows
        ≡ some (x, flows)
      → handle_event A r e now t
        ≡ some (record t {
          conns =
              put_conn A
                (r.resolve e.saddr)
                (r.resolve e.daddr)
                (record {
                  stats = x;
                  last_seen = now;
                  src_type = node_type e.saddr r;
                  dst_type = node_type e.daddr r;
                })
                t.conns;
          flows = flows;
        })
  unfolding handle_event
  handle_event_eq r e now t x flows q = rw (q, handle_event) refl

  abbrev AllFlow : Tracker A → List (Step A) → Type 0
  AllFlow t ss = (k : FlowKey) → t.flows k ≡ known_flow k ss

  step-AllTell :
      (s : Step A) (older : List (Step A)) (t : Tracker A)
      → AllTell t older
      → AllFlow t older
      → (t' : Tracker A) × (step A s t ≡ some t') × AllTell t' (s ∷ older) × AllFlow t' (s ∷ older)
  unfolding step handle_event sweep_expired keep_resource
  step-AllTell (event r e now) older t h g =
      let src = r.resolve e.saddr in
      let dst = r.resolve e.daddr in
      let (x, flows, q, k, after) =
        react-Holds e.kind e now (stats_or_new (t.conns src dst)) t.flows
          (times_of (known src dst older)) (resent_of (known src dst older))
          (Tells-Holds (t.conns src dst) (known src dst older) (h src dst)) in
      let c : Tracked = record {
        stats = x;
        last_seen = now;
        src_type = node_type e.saddr r;
        dst_type = node_type e.daddr r;
      } in
      (
        record t { conns = put_conn A src dst c t.conns; flows = flows },
        handle_event_eq r e now t x flows q,
        put_conn-Tells src dst c t.conns (λ a b. known a b older) (after_event e now) h (refl, k),
        λ j.
            after j
            ∙ ap (λ f. if same_flow (flow_key e) j then flow_after e.kind e now f else f) (g j),
      )
  step-AllTell (sweep now) older t h g = (
    sweep_expired A now t,
    refl,
    λ src dst. Tells-keep_fresh now (t.conns src dst) (known src dst older) (h src dst),
    λ k. ap (keep_fresh now (λ f. f.last_seen)) (g k),
  )
  step-AllTell (measured m) older t h g = (keep_resource A m t, refl, h, g)

  -- Whatever events come, whatever the resolver answers and whenever it is swept, the collector does not panic. It then keeps exactly the
  -- connections that had an event since they were last swept; and of each the time of its last event, the last thousand of its round
  -- trip times that were not 0, from the oldest to the newest, and the number of its retransmissions modulo 2 ^ 32, as though
  -- there were no other connection. Likewise it keeps of each flow what its own events make of it (`known_flow`).
  pub run_total :
      (ss : List (Step A))
      → (t : Tracker A) × (run A ss ≡ some t)
        × ((src dst : String) → Tells (t.conns src dst) (known src dst ss))
        × ((k : FlowKey) → t.flows k ≡ known_flow k ss)
  unfolding run
  run_total [] = (new_tracker A, refl, λ src dst. tt, λ k. refl)
  run_total (s ∷ older) =
      let (t, e, h, g) = run_total older in
      let (t', e', h', g') = step-AllTell s older t h g in (t', rw e e', h', g')
