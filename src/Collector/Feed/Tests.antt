-- ===== src/Collector/Feed/Tests.antt =====
-- The theorems about the collector and the page at concrete times.
use Prim.Native.Char.{code}
use micro_trace.Common.{
  arith, ℕ, ◌/◌, map, or_else, true, false, ap, none, is_some, List, [], ◌∷◌, ◌≡◌, refl, ◌∙◌,
}
use micro_trace.Common.Arith.{nat_arith}
use micro_trace.Common.Dict.{lookup}
use micro_trace.Common.Key.{edge_key, NoArrow}
use micro_trace.Fixtures.{snap_of}
use micro_trace.Types.{HistoryPoint, StatSnapshot, OutboundMsg}
use micro_trace.Socket.{Readings, snap_key}
use micro_trace.Socket.Trace.{run, latest, lookup-run}
use micro_trace.Collector.Feed.{
  Conn, key_of, touch, broadcast_all, Step, event, tick, sweep, steps, handle_event,
  publish_snapshots, sweep_expired, grow, point_of, serve, steps_from,
}
use micro_trace.Collector.Feed.Keys.{history_of}
use micro_trace.Collector.Feed.Charts.{untimed}
use micro_trace.Collector.Feed.History.{page-history}
use micro_trace.Collector.Feed.Page.{has_key, heard, is_recent, page-tick, page-sweep}

abbrev figures : ℕ → Conn nat_arith → StatSnapshot nat_arith
figures now c = snap_of nat_arith "" "" false 900 none

abbrev arrival : OutboundMsg nat_arith → Readings nat_arith
arrival msg = record { id_at = 5; event_at = 5; point_at = 5 }

abbrev milli : ℕ → ℕ
milli now = now / 1000000

-- The newest first: one connection is quiet for more than thirty seconds.
abbrev morning : List (Step nat_arith figures arrival milli)
morning = tick 21000000000 ∷ event "order" "redis" 20000000000 ∷ event "web" "order" 500000000 ∷ []

quiet_is_gone :
    map key_of (steps nat_arith figures arrival milli (sweep 40000000000 ∷ morning)).conns
    ≡ "order→redis" ∷ []
unfolding steps handle_event publish_snapshots sweep_expired touch grow key_of edge_key
quiet_is_gone = refl

history_has_one :
    map
      (λ (p : HistoryPoint nat_arith). p.time)
      (history_of "order→redis"
        (steps nat_arith figures arrival milli (sweep 40000000000 ∷ morning)).conns)
    ≡ 21000 ∷ []
unfolding steps handle_event publish_snapshots sweep_expired touch grow point_of key_of edge_key
history_has_one = refl

page-tick_example :
    let p =
      steps nat_arith figures arrival milli (tick 41000000000 ∷ sweep 40000000000 ∷ morning) in
    is_some (lookup "web→order" (run nat_arith p.sent).snapshots) ≡ has_key "web→order" p.conns
page-tick_example =
    page-tick nat_arith figures arrival milli "web→order" 41000000000 (sweep 40000000000 ∷ morning)

abbrev swept : List (Step nat_arith figures arrival milli)
swept = sweep 40000000000 ∷ morning

redis_shown :
    is_some (latest nat_arith "order→redis" (steps nat_arith figures arrival milli swept).sent)
    ≡ true
unfolding steps handle_event publish_snapshots sweep_expired touch grow broadcast_all key_of latest
    snap_key edge_key
redis_shown = refl

page-sweep_example :
    heard nat_arith figures arrival milli "order→redis" (is_recent 40000000000) morning ≡ true
page-sweep_example = page-sweep nat_arith figures arrival milli "order→redis" 40000000000 morning (
    ap is_some
      (lookup-run nat_arith "order→redis" (steps nat_arith figures arrival milli swept).sent)
    ∙ redis_shown)

web_has_none : NoArrow "web"
web_has_none = (
  λ e. omega (arith, ap code e),
  (λ e. omega (arith, ap code e), (λ e. omega (arith, ap code e), tt)),
)

order_has_none : NoArrow "order"
order_has_none = (
  λ e. omega (arith, ap code e),
  (
    λ e. omega (arith, ap code e),
    (
      λ e. omega (arith, ap code e),
      (λ e. omega (arith, ap code e), (λ e. omega (arith, ap code e), tt)),
    ),
  ),
)

page-history_example :
    let connected =
      serve nat_arith figures arrival milli (steps nat_arith figures arrival milli morning) in
    let p = steps_from nat_arith figures arrival milli connected (tick 41000000000 ∷ []) in
    map untimed (or_else (lookup "order→redis" (run nat_arith p.sent).history) [])
    ≡ map untimed (history_of "order→redis" p.conns)
page-history_example =
    page-history nat_arith figures arrival milli "order→redis" morning (tick 41000000000 ∷ [])
      (tt, (order_has_none, (web_has_none, tt))) (tt, tt)
