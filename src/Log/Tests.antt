-- ===== src/Log/Tests.antt =====
-- The theorem about SpikeLog.tsx at a trace with two spikes, over the natural numbers.
use micro_trace.Common.{ℕ, String, true, false, none, List, [], ◌∷◌, map, ◌≡◌, refl}
use micro_trace.Common.Arith.{nat_arith}
use micro_trace.Common.Dict.{lookup, insert}
use micro_trace.Common.Key.{edge_key}
use micro_trace.Fixtures.{snap_of, stats_frame}
use micro_trace.Socket.{
  on_message, dispatch, handle_stats, on_stats, was_calm, snap_key, make_event,
}
use micro_trace.Socket.Trace.{Frame, run}
use micro_trace.App.{initial}
use micro_trace.Log.{log_row}
use micro_trace.Log.Laws.{AllOf, IsTrue, run-AllTrue}

abbrev spiking : List (Frame nat_arith)
spiking =
    stats_frame nat_arith (snap_of nat_arith "order" "redis" true 90000 none)
    ∷ stats_frame nat_arith (snap_of nat_arith "order" "redis" false 2000 none)
    ∷ stats_frame nat_arith (snap_of nat_arith "auth" "redis" true 30000 none)
    ∷ stats_frame nat_arith (snap_of nat_arith "auth" "redis" false 2000 none)
    ∷ []

abbrev no_clock : ℕ → String
no_clock t = ""

two_rows :
    map (λ e. (log_row nat_arith no_clock 9 e).dot) (run nat_arith spiking).events
    ≡ "#dc2626" ∷ "#d97706" ∷ []
unfolding log_row run on_message dispatch handle_stats on_stats was_calm snap_key edge_key
    make_event lookup insert
two_rows = refl

run-AllTrue_example :
    AllOf (IsTrue nat_arith no_clock 9 initial spiking) (run nat_arith spiking).events
run-AllTrue_example = run-AllTrue nat_arith no_clock 9 initial spiking refl
