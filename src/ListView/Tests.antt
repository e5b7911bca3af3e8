-- ===== src/ListView/Tests.antt =====
-- The theorems about the connection list at concrete snapshots, over the integers.
use Prim.Native.String.{len}
use mathlib.Core.List.{Perm}
use micro_trace.Common.{
  select, ltb, String, Bool, true, false, none, some, List, [], ◌∷◌, map, ◌≡◌, refl, arith,
}
use micro_trace.Common.Int.{pos, int_arith, int_arith-IsOrdered, int_arith-signs}
use micro_trace.Common.Sort.{sort, IsSorted, IsConsistent}
use micro_trace.Types.{StatSnapshot}
use micro_trace.Fixtures.{snap_of}
use micro_trace.ListView.{initial, apply_filter, before, shown, is_stressed, stressed_count}
use micro_trace.ListView.Laws.{passes, goes_first, shown-IsSorted}

abbrev shorter : String → String → Bool
shorter a b = ltb (len a) (len b)

shorter-IsConsistent : IsConsistent shorter
shorter-IsConsistent = record {
  asymm = λ a b p. ground arith;
  ge_trans = λ a b c p q. ground arith;
}

abbrev snaps : List (StatSnapshot int_arith)
snaps =
    snap_of int_arith "api" "auth" false 2000 (some (pos 45))
    ∷ snap_of int_arith "order" "redis" true 90000 none
    ∷ snap_of int_arith "order" "kafka" false 5000 (some (pos 3))
    ∷ []

downwards_by_p99 :
    map (λ s. s.dst_service) (shown int_arith shorter initial snaps)
    ≡ "redis" ∷ "kafka" ∷ "auth" ∷ []
unfolding shown sort apply_filter before
downwards_by_p99 = refl

-- One connection passes the filter, and the chip says zero.
hidden_from_count : stressed_count int_arith shorter snaps ≡ 0
unfolding stressed_count is_stressed
hidden_from_count = refl

shown-IsSorted_example :
    Perm
      (shown int_arith shorter initial snaps)
      (select (passes int_arith shorter initial.filter) snaps)
    × IsSorted
        (goes_first int_arith shorter initial.sort_col initial.sort_dir)
        (shown int_arith shorter initial snaps)
shown-IsSorted_example =
    shown-IsSorted int_arith shorter int_arith-IsOrdered int_arith-signs shorter-IsConsistent
      initial snaps
