-- ===== src/Collector/Tracker/Known.antt =====
-- What the collector keeps of each connection, told from the events of that connection alone.
use micro_trace.Common.{
  ℕ, ◌+◌, ◌%◌, ltb, String, Option, none, some, List, [], ◌∷◌, ◌++◌, if◌then◌else◌, ◌≡◌,
}
use micro_trace.Common.Arith.{Arith}
use micro_trace.Collector.Ring.{IsWindow}
use micro_trace.Collector.Stats.{update_flow, ConnStats}
use micro_trace.Collector.Tracker.{
  EventKind, Event, FlowKey, FlowState, Tracked, flow_or_new, flow_key, same_conn, same_flow,
  keep_fresh, Step, event, sweep, measured,
}

-- A connection: when its last event came, its round trip times, and how many retransmissions it had.
pub record Known : Type 0 where
  pub seen : ℕ
  pub times : List ℕ
  pub resent : ℕ

abbrev pub times_of : Option Known → List ℕ
times_of none = []
times_of (some k) = k.times

abbrev pub resent_of : Option Known → ℕ
resent_of none = 0
resent_of (some k) = k.resent

-- The round trip time that an event brings, if any.
abbrev pub timed : EventKind → ℕ → List ℕ
timed EventKind.connect us = if ltb 0 us then us ∷ [] else []
timed EventKind.rtt us = if ltb 0 us then us ∷ [] else []
timed _ us = []

abbrev pub resent_after : EventKind → ℕ → ℕ
resent_after EventKind.retransmit n = n + 1
resent_after _ n = n

abbrev pub after_event : Event → ℕ → Option Known → Known
after_event e now k = record {
  seen = now;
  times = times_of k ++ timed e.kind e.latency_us;
  resent = resent_after e.kind (resent_of k);
}

-- What is known of a connection after some steps, the newest first: nothing where no event came since it was swept.
abbrev pub known : {A : Arith} → String → String → List (Step A) → Option Known
known src dst [] = none
known src dst (event r e now ∷ older) =
    if same_conn (r.resolve e.saddr) (r.resolve e.daddr) src dst
    then some (after_event e now (known src dst older))
    else known src dst older
known src dst (sweep now ∷ older) = keep_fresh now (λ k. k.seen) (known src dst older)
known src dst (measured m ∷ older) = known src dst older

-- A flow after an event of its own.
abbrev pub timed_flow : Event → ℕ → Option FlowState → Option FlowState
timed_flow e now f =
    if ltb 0 e.latency_us
    then some (record { flow = update_flow e.latency_us (flow_or_new f); last_seen = now })
    else f

abbrev pub flow_after : EventKind → Event → ℕ → Option FlowState → Option FlowState
flow_after EventKind.connect e now f = timed_flow e now f
flow_after EventKind.rtt e now f = timed_flow e now f
flow_after _ e now f = f

-- What is known of a flow, told from its own events.
abbrev pub known_flow : {A : Arith} → FlowKey → List (Step A) → Option FlowState
known_flow k [] = none
known_flow k (event r e now ∷ older) =
    if same_flow (flow_key e) k
    then flow_after e.kind e now (known_flow k older)
    else known_flow k older
known_flow k (sweep now ∷ older) = keep_fresh now (λ f. f.last_seen) (known_flow k older)
known_flow k (measured m ∷ older) = known_flow k older

-- The statistics of a connection with these times and so many retransmissions.
abbrev pub Holds : List ℕ → ℕ → ConnStats → Type 0
Holds times resent s = IsWindow times s.rtt × (s.retransmit ≡ resent % 4294967296)

abbrev pub Tells : Option Tracked → Option Known → Type 0
Tells none none = Unit
Tells (some c) (some k) = (c.last_seen ≡ k.seen) × Holds k.times k.resent c.stats
Tells _ _ = ⊥
