-- ===== src/Mock/History.antt =====
-- How many points the charts of useMockData.ts hold.
use micro_trace.Common.{ℕ, String, List, length, ◌≡◌}
use micro_trace.Common.Arith.{Arith}
use micro_trace.Common.Dict.{Dict, AllEntries}
use micro_trace.Types.{HistoryPoint}
use micro_trace.Mock.Chance.{World}
use micro_trace.Mock.Conn.{ConnState}
use micro_trace.Mock.Tick.{Mock, Pass}

module _ (A : Arith) (w : World A) where
  abbrev pub HasPoints : ℕ → String → ConnState A w → Type 0
  HasPoints n k s = length s.history ≡ n

  abbrev pub ShowsPoints : ℕ → String → List (HistoryPoint A) → Type 0
  ShowsPoints n k ps = length ps ≡ n

  -- Of the loop over the connections: those gone through, and what the page gets of them.
  record PassPoints (n : ℕ) (p : Pass A w) : Type 0 where
    held : AllEntries (HasPoints n) p.conns
    shown : AllEntries (ShowsPoints n) p.history
