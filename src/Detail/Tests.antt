-- ===== src/Detail/Tests.antt =====
-- The theorems about the time range at concrete requests, over the natural numbers.
use micro_trace.Common.{ℕ, Option, none, some, List, [], ◌∷◌, map, ◌≡◌, refl}
use micro_trace.Common.Arith.{nat_arith}
use micro_trace.Detail.{
  Request, RangeKey, RangeState, ApiRow, to_point, handle_range, answer, display_history, initial,
}
use micro_trace.Detail.InOrder.{choose_all, answer_all, choose_all-answer_all}
use micro_trace.Detail.Laws.{answer-swapped}

abbrev row_at : ℕ → ApiRow nat_arith
row_at t = record { ts = t; p50_us = 1; p95_us = 2; p99_us = 3; avg_us = 1; jitter_us = 0 }

-- The rows tell the ranges apart.
abbrev serve : Request → Option (List (ApiRow nat_arith))
serve q = elim q.range [
  | RangeKey.hour_1 ↦ some (row_at 1 ∷ [])
  | RangeKey.hour_6 ↦ some (row_at 6 ∷ [])
  | _ ↦ none
]

abbrev opened : RangeState nat_arith
opened = record (initial nat_arith) { conn = some ("order", "redis") }

abbrev rows_of : Request → List (ApiRow nat_arith)
rows_of q = elim q.range [ RangeKey.hour_1 ↦ row_at 1 ∷ [] | _ ↦ row_at 6 ∷ [] ]

choose_all-answer_all_example :
    let v = answer_all nat_arith rows_of 2 (
      handle_range nat_arith RangeKey.hour_1
        (choose_all nat_arith rows_of (RangeKey.hour_6 ∷ []) opened)) in
    (v.range ≡ some RangeKey.hour_1)
    × (display_history nat_arith [] v ≡ map (to_point nat_arith) (row_at 1 ∷ []))
choose_all-answer_all_example =
    choose_all-answer_all nat_arith rows_of "order" "redis" (RangeKey.hour_6 ∷ []) RangeKey.hour_1
      opened [] refl refl

answer-swapped_example :
    let v = answer nat_arith serve 0 (
      answer nat_arith serve 1
        (handle_range nat_arith RangeKey.hour_6 (handle_range nat_arith RangeKey.hour_1 opened))) in
    (v.range ≡ some RangeKey.hour_6)
    × (display_history nat_arith [] v ≡ map (to_point nat_arith) (row_at 1 ∷ []))
answer-swapped_example =
    answer-swapped nat_arith serve opened "order" "redis" RangeKey.hour_1 RangeKey.hour_6
      (row_at 1 ∷ []) (row_at 6 ∷ []) [] refl refl refl refl
