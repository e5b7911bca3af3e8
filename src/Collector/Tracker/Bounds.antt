-- ===== src/Collector/Tracker/Bounds.antt =====
-- The estimates of a flow stay within its own round trip times: 64 bits are enough for them.
use micro_trace.Common.{
  ℕ, ◌-◌, ◌*◌, ◌<◌, ◌≤◌, ltb, true, Option, none, some, List, [], ◌∷◌, ◌≡◌, sym, ◌∙◌, ap, subst,
  arith, Bool-cases, inl, inr,
}
use mathlib.Core.Option.{some-injective}
use micro_trace.Common.Arith.{Arith}
use micro_trace.Collector.Stats.{wide}
use micro_trace.Collector.Laws.{IsWithin, update_flow-IsWithin}
use micro_trace.Collector.Feed.{conn_ttl}
use micro_trace.Collector.Tracker.{
  EventKind, Event, FlowKey, FlowState, same_flow, flow_key, flow_or_new, keep_fresh, Tracker, Step,
  event, sweep, measured, run,
}
use micro_trace.Collector.Tracker.Known.{timed_flow, flow_after, known_flow}
use micro_trace.Collector.Tracker.Total.{run_total}

-- A flow that is kept has estimates of at most `b`.
abbrev pub HasEstimates : ℕ → Option FlowState → Type 0
HasEstimates b none = Unit
HasEstimates b (some f) = IsWithin b f.flow

-- The round trip times of the flow's own events are at most `b`.
abbrev pub AllAtMost : {A : Arith} → ℕ → FlowKey → List (Step A) → Type 0
AllAtMost b k [] = Unit
AllAtMost b k (event r e now ∷ older) =
    (same_flow (flow_key e) k ≡ true → e.latency_us ≤ b) × AllAtMost b k older
AllAtMost b k (_ ∷ older) = AllAtMost b k older

flow_or_new-IsWithin :
    (b : ℕ) (f : Option FlowState) → HasEstimates b f → IsWithin b (flow_or_new f)
flow_or_new-IsWithin b none h = (omega arith, omega arith)
flow_or_new-IsWithin b (some f) h = h

timed_flow-HasEstimates :
    (b : ℕ) (e : Event) (now : ℕ) (f : Option FlowState)
    → 8 * b < wide
    → e.latency_us ≤ b
    → HasEstimates b f
    → HasEstimates b (timed_flow e now f)
timed_flow-HasEstimates b e now f w l h = elim (Bool-cases (ltb 0 e.latency_us)) [
  | inl pos ↦
      rw pos (update_flow-IsWithin b e.latency_us (flow_or_new f) w l (flow_or_new-IsWithin b f h))
  | inr zero ↦ rw zero h
]

flow_after-HasEstimates :
    (b : ℕ) (kind : EventKind) (e : Event) (now : ℕ) (f : Option FlowState)
    → 8 * b < wide
    → e.latency_us ≤ b
    → HasEstimates b f
    → HasEstimates b (flow_after kind e now f)
flow_after-HasEstimates b EventKind.connect e now f w l h = timed_flow-HasEstimates b e now f w l h
flow_after-HasEstimates b EventKind.rtt e now f w l h = timed_flow-HasEstimates b e now f w l h
flow_after-HasEstimates b _ e now f w l h = h

keep_fresh-HasEstimates :
    (b now : ℕ) (f : Option FlowState)
    → HasEstimates b f
    → HasEstimates b (keep_fresh now (λ f. f.last_seen) f)
keep_fresh-HasEstimates b now none h = tt
keep_fresh-HasEstimates b now (some f) h = elim (Bool-cases (ltb conn_ttl (now - f.last_seen))) [
  | inl old ↦ rw old tt
  | inr fresh ↦ rw fresh h
]

module _ (A : Arith) where
  known_flow-HasEstimates :
      (b : ℕ) (k : FlowKey) (ss : List (Step A))
      → 8 * b < wide
      → AllAtMost b k ss
      → HasEstimates b (known_flow k ss)
  known_flow-HasEstimates b k [] w h = tt
  known_flow-HasEstimates b k (event r e now ∷ older) w (l, h) =
      let rest = known_flow-HasEstimates b k older w h in
      elim (Bool-cases (same_flow (flow_key e) k)) [
        | inl here ↦
            rw here (flow_after-HasEstimates b e.kind e now (known_flow k older) w (l here) rest)
        | inr there ↦ rw there rest
      ]
  known_flow-HasEstimates b k (sweep now ∷ older) w h =
      keep_fresh-HasEstimates b now (known_flow k older) (known_flow-HasEstimates b k older w h)
  known_flow-HasEstimates b k (measured m ∷ older) w h = known_flow-HasEstimates b k older w h

  -- Where the round trip times of a flow are at most `b`, with 8 * b below 2 ^ 64: after any events its smoothed time and its
  -- deviation are at most `b`, whatever other flows there are.
  pub run-HasEstimates :
      (b : ℕ) (k : FlowKey) (ss : List (Step A)) (t : Tracker A)
      → 8 * b < wide
      → AllAtMost b k ss
      → run A ss ≡ some t
      → HasEstimates b (t.flows k)
  run-HasEstimates b k ss t w h q =
      let (u, e, _, g) = run_total A ss in
      let same : u ≡ t = some-injective u t (sym e ∙ q) in
      subst (HasEstimates b) (sym (g k) ∙ ap (λ x. x.flows k) same)
        (known_flow-HasEstimates b k ss w h)
