-- ===== src/Collector/Feed/History.antt =====
-- The charts of a page that connects late, against the histories that the collector keeps.
use micro_trace.Common.{ℕ, String, List, [], ◌∷◌, map, or_else, ◌≡◌, refl, sym, ap, ◌∙◌}
use micro_trace.Common.Arith.{Arith}
use micro_trace.Common.Dict.{lookup}
use micro_trace.Common.Key.{NoArrow}
use micro_trace.Types.{StatSnapshot, ConnHistory, OutboundMsg}
use micro_trace.Socket.{Readings, load_history, on_history, on_resource}
use micro_trace.Socket.Trace.{run}
use micro_trace.Collector.Feed.{
  Conn, is_expired, event_msg, get_history, Processor, Step, event, tick, sweep, measured,
  handle_event, publish_snapshots, sweep_expired, forward_resource, step, history_msg, serve,
  steps_from, steps,
}
use micro_trace.Collector.Feed.Keys.{
  history_of, AreKeyed, history_of-touch, touch-AreKeyed, select-AreKeyed,
}
use micro_trace.Collector.Feed.Load.{load-history_of}
use micro_trace.Collector.Feed.Charts.{
  untimed, charted, charted-told, Charts, reports-Charts, sweep-Charts, grow-AreKeyed,
}

module _ (A : Arith) (figures : ℕ → Conn A → StatSnapshot A) (arrival : OutboundMsg A → Readings A)
    (unix_milli : ℕ → A.Num) where
  kept-history_msg :
      (k : String) (hs : List (ConnHistory A))
      → charted A figures arrival unix_milli k (history_msg A figures arrival unix_milli hs)
        ≡ or_else (lookup k (load_history A hs [])) []
  unfolding run on_history lookup load_history
  kept-history_msg k [] = refl
  kept-history_msg k (h ∷ hs) = charted-told A figures arrival unix_milli k _ []

  serve-Charts :
      (k : String) (p : Processor A figures arrival unix_milli)
      → AreKeyed p.conns
      → Charts A figures arrival unix_milli k (serve A figures arrival unix_milli p).sent p.conns
  unfolding serve lookup
  serve-Charts k p h =
      ap (map untimed)
        (kept-history_msg k (get_history p.conns) ∙ load-history_of k p.conns [] h refl)

  -- No source's name in an event holds an arrow.
  abbrev pub IsNamed : Step A figures arrival unix_milli → Type 0
  IsNamed (event src dst now) = NoArrow src
  IsNamed _ = Unit

  abbrev pub AllNamed : List (Step A figures arrival unix_milli) → Type 0
  AllNamed [] = Unit
  AllNamed (s ∷ older) = IsNamed s × AllNamed older

  step-AreKeyed :
      (s : Step A figures arrival unix_milli) (p : Processor A figures arrival unix_milli)
      → IsNamed s
      → AreKeyed p.conns
      → AreKeyed (step A figures arrival unix_milli s p).conns
  unfolding handle_event publish_snapshots sweep_expired forward_resource
  step-AreKeyed (event src dst now) p n h = touch-AreKeyed src dst now p.conns n h
  step-AreKeyed (tick now) p n h = grow-AreKeyed A figures arrival unix_milli now p.conns h
  step-AreKeyed (sweep now) p n h = select-AreKeyed _ p.conns h
  step-AreKeyed (measured r) p n h = h

  step-Charts :
      (k : String) (s : Step A figures arrival unix_milli)
      (p : Processor A figures arrival unix_milli)
      → AreKeyed p.conns
      → Charts A figures arrival unix_milli k p.sent p.conns
      → Charts A figures arrival unix_milli k
          (step A figures arrival unix_milli s p).sent
          (step A figures arrival unix_milli s p).conns
  unfolding handle_event publish_snapshots sweep_expired forward_resource on_resource
  step-Charts k (event src dst now) p h e =
      ap (map untimed) (
        charted-told A figures arrival unix_milli k (event_msg A figures arrival unix_milli) p.sent)
      ∙ e
      ∙ ap (map untimed) (sym (history_of-touch k src dst now p.conns))
  step-Charts k (tick now) p h e =
      reports-Charts A figures arrival unix_milli k now p.conns p.sent h e
  step-Charts k (sweep now) p h e =
      sweep-Charts A figures arrival unix_milli k (is_expired now) p.conns p.sent h e
  step-Charts k (measured r) p h e =
      ap (map untimed) (charted-told A figures arrival unix_milli k _ p.sent) ∙ e

  steps-AreKeyed :
      (ss : List (Step A figures arrival unix_milli))
      → AllNamed ss
      → AreKeyed (steps A figures arrival unix_milli ss).conns
  unfolding steps
  steps-AreKeyed [] n = tt
  steps-AreKeyed (s ∷ older) (n, ns) =
      step-AreKeyed s (steps A figures arrival unix_milli older) n (steps-AreKeyed older ns)

  -- Both hold along the steps that follow.
  steps_from-Charts :
      (k : String) (p : Processor A figures arrival unix_milli)
      (ss : List (Step A figures arrival unix_milli))
      → AllNamed ss
      → AreKeyed p.conns
      → Charts A figures arrival unix_milli k p.sent p.conns
      → let q = steps_from A figures arrival unix_milli p ss in
        AreKeyed q.conns × Charts A figures arrival unix_milli k q.sent q.conns
  unfolding steps_from
  steps_from-Charts k p [] n h e = (h, e)
  steps_from-Charts k p (s ∷ older) (n, ns) h e =
      let q = steps_from A figures arrival unix_milli p older in
      let (h', e') = steps_from-Charts k p older ns h e in
      (step-AreKeyed s q n h', step-Charts k s q h' e')

  -- Where no source's name holds an arrow: on a page that connects after some steps of the collector, while
  -- no broadcast waits, and that gets every message of the steps that follow, the chart of every key has
  -- the points of the collector's history for the key, all but their times.
  pub page-history :
      (k : String) (older newer : List (Step A figures arrival unix_milli))
      → AllNamed older
      → AllNamed newer
      → let connected =
          serve A figures arrival unix_milli (steps A figures arrival unix_milli older) in
        let p = steps_from A figures arrival unix_milli connected newer in
        map untimed (or_else (lookup k (run A p.sent).history) [])
        ≡ map untimed (history_of k p.conns)
  unfolding serve
  page-history k older newer n m =
      let p = steps A figures arrival unix_milli older in
      let h = steps-AreKeyed older n in
      (steps_from-Charts k (serve A figures arrival unix_milli p) newer m h (serve-Charts k p h)).1
