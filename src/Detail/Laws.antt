-- ===== src/Detail/Laws.antt =====
-- Which history the chart of DetailPanel.tsx shows.
use micro_trace.Common.{String, false, ◌&&◌, Option, some, List, [], map, str_eq, ◌≡◌, arith}
use micro_trace.Common.Arith.{Arith}
use micro_trace.Types.{HistoryPoint}
use micro_trace.Detail.{
  Request, RangeKey, RangeState, ApiRow, to_point, show_conn, handle_range, answer, display_history,
}

module _ (A : Arith) (serve : Request → Option (List (ApiRow A))) where
  -- On a connection shown and with no request under way, two ranges chosen one after the other and answered
  -- with rows in the other order: the button of the second is lit, and the chart shows the rows of the
  -- first.
  pub answer-swapped :
      (s : RangeState A) (src dst : String) (r q : RangeKey) (rows later : List (ApiRow A))
      → (live : List (HistoryPoint A)) → s.conn ≡ some (src, dst)
      → s.pending ≡ []
      → serve (record { src = src; dst = dst; range = r }) ≡ some rows
      → serve (record { src = src; dst = dst; range = q }) ≡ some later
      → let v = answer A serve 0 (answer A serve 1 (handle_range A q (handle_range A r s))) in
        (v.range ≡ some q) × (display_history A live v ≡ map (to_point A) rows)
  unfolding display_history answer handle_range
  answer-swapped s src dst r q rows later live c p e f = (ground arith, ground arith)

  -- Of the one request under way, an answer with rows that comes after the user has turned to another
  -- connection is kept for it: the next range chosen there shows the rows of the connection left, until its
  -- own answer comes.
  answer-stale :
      (s : RangeState A) (src dst src' dst' : String) (r q : RangeKey) (rows : List (ApiRow A))
      → (live : List (HistoryPoint A)) → s.conn ≡ some (src, dst)
      → s.pending ≡ []
      → (str_eq src src' && str_eq dst dst') ≡ false
      → serve (record { src = src; dst = dst; range = r }) ≡ some rows
      → let v =
          handle_range A q
            (answer A serve 0 (show_conn A (some (src', dst')) (handle_range A r s))) in
        (v.conn ≡ some (src', dst')) × (display_history A live v ≡ map (to_point A) rows)
  unfolding display_history answer handle_range show_conn
  answer-stale s src dst src' dst' r q rows live c p n e = (ground arith, ground arith)
