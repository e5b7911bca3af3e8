-- ===== src/Collector/Tracker/Reacts.antt =====
-- What one event makes of the statistics of its connection, and of the flows.
use micro_trace.Common.{
  append_nil, ℕ, ltb, Bool, true, Option, some, List, [], ◌∷◌, ◌++◌, eq_iff, if◌then◌else◌, ◌≡◌,
  refl, sym, ap, ◌∙◌, subst, arith, Bool-cases, inl, inr,
}
use micro_trace.Collector.Ring.{add, IsWindow, add-IsWindow}
use micro_trace.Collector.Stats.{
  Flow, update_flow, ConnStats, Percentiles, keep_or_set, on_rtt, on_retransmit,
}
use micro_trace.Collector.Laws.{percentiles_total, on_rtt_eq, keep_or_set-rtt}
use micro_trace.Collector.Tracker.{
  EventKind, Event, FlowKey, FlowState, flow_or_new, flow_key, put_flow, same_flow, rtt_event,
  react,
}
use micro_trace.Collector.Tracker.Known.{timed, resent_after, timed_flow, flow_after, Holds}

same_flow_eq : (a b : FlowKey) → same_flow a b ≡ true → a ≡ b
same_flow_eq a b h =
    let p : a.sock_id ≡ b.sock_id = ground arith in
    let q : a.saddr ≡ b.saddr = ground (arith, eq_iff a.saddr b.saddr) in
    let r : a.daddr ≡ b.daddr = ground (arith, eq_iff a.daddr b.daddr) in
    let s : a.dport ≡ b.dport = ground arith in
    λ i. record { sock_id = p i; saddr = q i; daddr = r i; dport = s i }

-- What an event does to the flows.
abbrev FlowsAfter :
    EventKind → Event → ℕ → (FlowKey → Option FlowState) → (FlowKey → Option FlowState) → Type 0
FlowsAfter kind e now flows flows' =
    (k : FlowKey)
    → flows' k ≡ (if same_flow (flow_key e) k then flow_after kind e now (flows k) else flows k)

put_flow-after :
    (e : Event) (now : ℕ) (flows : FlowKey → Option FlowState) (k : FlowKey)
    → put_flow
        (flow_key e)
        (record {
          flow = update_flow e.latency_us (flow_or_new (flows (flow_key e)));
          last_seen = now;
        })
        flows
        k
      ≡ (if same_flow (flow_key e) k
          then some
              (record { flow = update_flow e.latency_us (flow_or_new (flows k)); last_seen = now })
          else flows k)
put_flow-after e now flows k = elim (Bool-cases (same_flow (flow_key e) k)) [
  | inl here ↦ rw here (
      ap
        (λ j.
          some
            (record { flow = update_flow e.latency_us (flow_or_new (flows j)); last_seen = now }))
        (same_flow_eq (flow_key e) k here))
  | inr there ↦ rw there refl
]

keep_or_set-retransmit :
    (j : ℕ) (p : Percentiles) (s : ConnStats) → (keep_or_set j p s).retransmit ≡ s.retransmit
keep_or_set-retransmit j p s = ground arith

-- A round trip time does not panic, and joins the others.
on_rtt-Holds :
    (us : ℕ) (f : Flow) (s : ConnStats) (times : List ℕ) (resent : ℕ)
    → Holds times resent s
    → (t : ConnStats) × (on_rtt us f s ≡ some (update_flow us f, t))
      × Holds (times ++ us ∷ []) resent t
on_rtt-Holds us f s times resent (w, n) =
    let window = add-IsWindow times us s.rtt w in
    let (p, e, o) = percentiles_total (add us s.rtt) window.0 in
    let m = (update_flow us f).mdev in
    let s' = record s { rtt = add us s.rtt; jitter = add m s.jitter } in
    (
      keep_or_set m p s',
      on_rtt_eq us f s p e,
      (
        subst (IsWindow (times ++ us ∷ [])) (sym (keep_or_set-rtt m p s')) window,
        keep_or_set-retransmit m p s' ∙ n,
      ),
    )

if_same : {T : Type 0} (b : Bool) (x : T) → x ≡ (if b then x else x)
if_same b x = ground arith

rtt_event-Holds :
    (e : Event) (now : ℕ) (s : ConnStats) (flows : FlowKey → Option FlowState) (times : List ℕ)
    (resent : ℕ)
    → Holds times resent s
    → (t : ConnStats) × (flows' : FlowKey → Option FlowState) × (rtt_event e now s flows
        ≡ some (t, flows'))
      × Holds (times ++ (if ltb 0 e.latency_us then e.latency_us ∷ [] else [])) resent t
      × ((k : FlowKey)
          → flows' k ≡ (if same_flow (flow_key e) k then timed_flow e now (flows k) else flows k))
rtt_event-Holds e now s flows times resent h = elim (Bool-cases (ltb 0 e.latency_us)) [
  | inl pos ↦
      let f = flow_or_new (flows (flow_key e)) in
      let (t, q, k) = on_rtt-Holds e.latency_us f s times resent h in
      (
        t,
        put_flow (flow_key e) (record { flow = update_flow e.latency_us f; last_seen = now }) flows,
        rw (pos, q) refl,
        rw pos k,
        λ j. rw pos (put_flow-after e now flows j),
      )
  | inr zero ↦ (
    s,
    flows,
    rw zero refl,
    rw (zero, append_nil times) h,
    λ j. rw zero (if_same (same_flow (flow_key e) j) (flows j)),
  )
]

pub react-Holds :
    (kind : EventKind) (e : Event) (now : ℕ) (s : ConnStats) (flows : FlowKey → Option FlowState)
    (times : List ℕ) (resent : ℕ)
    → Holds times resent s
    → (t : ConnStats) × (flows' : FlowKey → Option FlowState) × (react kind e now s flows
        ≡ some (t, flows'))
      × Holds (times ++ timed kind e.latency_us) (resent_after kind resent) t
      × FlowsAfter kind e now flows flows'
unfolding on_retransmit
react-Holds EventKind.connect e now s flows times resent h =
    rtt_event-Holds e now s flows times resent h
react-Holds EventKind.rtt e now s flows times resent h =
    rtt_event-Holds e now s flows times resent h
react-Holds EventKind.retransmit e now s flows times resent (w, n) = (
  on_retransmit s,
  flows,
  refl,
  (rw (append_nil times) w, omega (arith, n)),
  λ k. if_same _ (flows k),
)
react-Holds EventKind.other e now s flows times resent h =
    (s, flows, refl, rw (append_nil times) h, λ k. if_same _ (flows k))
