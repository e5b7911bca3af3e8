-- ===== src/Proto/PageTests.antt =====
-- The theorems about the prototype's page at concrete inputs, over natural numbers counted in thousandths.
use micro_trace.Common.{
  ℕ, ◌+◌, String, true, false, none, some, List, [], ◌∷◌, map, str_eq, ◌≡◌, refl, arith,
}
use micro_trace.Common.Arith.{IsOrdered}
use micro_trace.Common.Dict.{values}
use micro_trace.Types.{Side}
use micro_trace.App.{list}
use micro_trace.ListView.{ListState, stressed, p95, asc}
use micro_trace.Mock.Conn.{includes}
use micro_trace.Mock.Tick.{run}
use micro_trace.Proto.Data.{ProtoSnap}
use micro_trace.Proto.Tests.{mil_arith, busy}
use micro_trace.Proto.Agree.{strip, bare}
use micro_trace.Proto.Page.{
  Input, fired, unmounted, message, changed, switch_view, tick_interval, external, Browser, warm,
  browse,
}
use micro_trace.Proto.Page.Tweaked.{externals}
use micro_trace.Proto.Page.View.{app_view}
use micro_trace.Proto.Page.Mount.{Runs, fires}
use micro_trace.Proto.Page.Loop.{browse-Runs}
use micro_trace.Proto.Views.{list_rows}
use micro_trace.Proto.Views.Order.{reference, handed, list_rows-shown}
use micro_trace.Proto.Topology.{Dims, initial_dims, nodes}
use micro_trace.Proto.Topology.Marks.{AreDistinct, touched, drawn, look, pictured, nodes-marked}
use micro_trace.Proto.Chart.{y_limits}
use micro_trace.Proto.Chart.Limits.{IsRoomy, Between, y_limits-Between}

-- The newest first: the timer fires once more after the page has gone.
abbrev visit : List Input
visit =
    fired
    ∷ unmounted
    ∷ fired
    ∷ changed (tick_interval 200)
    ∷ changed (external false)
    ∷ message true
    ∷ fired
    ∷ switch_view list
    ∷ []

two_fires : fires visit ≡ 2
unfolding fires
two_fires = refl

browse-Runs_example : Runs mil_arith busy visit 0
browse-Runs_example = browse-Runs mil_arith busy visit 0

abbrev by_p95 : ListState
by_p95 = record { filter = stressed; sort_col = p95; sort_dir = asc }

list_rows-shown_example :
    let r = run mil_arith busy (warm + fires visit) 0 in
    (b : Browser mil_arith busy) × (browse mil_arith busy visit 0 ≡ some (b, r.1))
    × (map
          (strip mil_arith busy)
          (list_rows mil_arith busy by_p95 (values (app_view mil_arith busy b.page).view_snapshots))
        ≡ map (bare mil_arith busy) (
            reference mil_arith busy
              (λ a b. false)
              by_p95
              (handed mil_arith busy (λ a b. false) (externals visit) (values (r.0).snapshots))))
list_rows-shown_example = list_rows-shown mil_arith busy (λ a b. false) visit 0 by_p95

abbrev snap_between : String → String → ProtoSnap mil_arith busy
snap_between src dst = record {
  key = src;
  src_service = src;
  dst_service = dst;
  src_type = Side.internal;
  dst_type = Side.internal;
  percs = record { avg_us = 9; p50_us = 9; p95_us = 9; p99_us = 9; jitter_us = 1 };
  retransmit_count = 0;
  sample_count = 0;
  is_spike = str_eq src "redis";
  spike_threshold_us = 90;
  history = [];
  cause_kind = none;
  close_states = record { fin = 0; rst = 0; timeout = 0 };
  dst_cpu_pct = 0;
  dst_io_wait_pct = 0;
  dst_mem_pressure_pct = 0;
}

abbrev dims : Dims mil_arith busy
dims = initial_dims mil_arith busy

abbrev edges : List (String × ProtoSnap mil_arith busy)
edges = ("redis", snap_between "redis" "kafka") ∷ ("kafka", snap_between "kafka" "postgres") ∷ []

nodes-marked_example :
    AreDistinct (drawn mil_arith busy dims edges [] (some "kafka"))
    × (includes (drawn mil_arith busy dims edges [] (some "kafka")) "kafka"
        ≡ touched mil_arith busy (λ s. true) "kafka" (values edges))
    × (map (look mil_arith busy) (nodes mil_arith busy dims edges [] (some "kafka"))
        ≡ map
            (pictured mil_arith busy (values edges) [] (some "kafka"))
            (drawn mil_arith busy dims edges [] (some "kafka")))
nodes-marked_example = nodes-marked mil_arith busy dims edges [] (some "kafka") "kafka"

mil_arith-IsOrdered : IsOrdered mil_arith
mil_arith-IsOrdered = record {
  lt_irrefl = λ a. ground arith;
  lt_trans = λ a b c p q. ground arith;
  ge_trans = λ a b c p q. ground arith;
  lt-num = λ m n p q. ground arith;
}

mil_arith-IsRoomy : IsRoomy mil_arith
mil_arith-IsRoomy = record {
  grows = λ a h. ground arith;
  shrinks = λ a h. ground arith;
  above = λ a. ground arith;
  below = λ a. ground arith;
}

abbrev vals : List ℕ
vals = 900000 ∷ 2000000 ∷ 1100000 ∷ []

y_limits-Between_example :
    Between mil_arith busy mil_arith-IsOrdered mil_arith-IsRoomy
      (λ t. "")
      (y_limits mil_arith busy (λ t. "") 900000 vals).0
      (y_limits mil_arith busy (λ t. "") 900000 vals).1
      vals
y_limits-Between_example =
    y_limits-Between mil_arith busy mil_arith-IsOrdered mil_arith-IsRoomy (λ t. "") 900000 vals refl
      (refl, (refl, (refl, tt)))
