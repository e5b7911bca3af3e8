-- ===== src/Matrix/Tests.antt =====
-- The theorems about the matrix on a concrete run, over the natural numbers.
use Prim.Native.String.{len}
use micro_trace.Common.{ltb, String, Bool, none}
use micro_trace.Common.Arith.{nat_arith}
use micro_trace.Common.Key.{edge_key}
use micro_trace.Fixtures.{live_trace}
use micro_trace.Socket.Trace.{run, latest}
use micro_trace.Matrix.{cell}
use micro_trace.Matrix.Laws.{Draws, cell-run}

abbrev shorter : String → String → Bool
shorter a b = ltb (len a) (len b)

cell-run_example :
    Draws nat_arith shorter none
      (edge_key "order" "redis")
      (latest nat_arith (edge_key "order" "redis") (live_trace nat_arith))
      (cell nat_arith shorter none (run nat_arith (live_trace nat_arith)).snapshots "order" "redis")
cell-run_example = cell-run nat_arith shorter none "order" "redis" (live_trace nat_arith)
