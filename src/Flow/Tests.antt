-- ===== src/Flow/Tests.antt =====
-- The theorems about TopologyGraph.tsx on the messages of `Fixtures`.
use micro_trace.Common.{
  ◌||◌, ℕ, String, Bool, true, false, none, some, List, [], ◌∷◌, map, ◌≡◌, refl,
}
use micro_trace.Common.Arith.{nat_arith}
use micro_trace.Flow.{has, FlowNode, names_key, all_services, update_nodes}
use micro_trace.Flow.Laws.{is_end, all_placed, update_nodes_lem}
use micro_trace.Common.Dict.{Dict}
use micro_trace.Types.{StatSnapshot, Side}
use micro_trace.Fixtures.{snap_of}

abbrev same : ℕ → ℕ
same n = n

abbrev snaps : Dict (StatSnapshot nat_arith)
snaps =
    ("api→db", snap_of nat_arith "api" "db" false 3000 none)
    ∷ ("auth→db", snap_of nat_arith "auth" "db" true 30000 none)
    ∷ []

-- A node that the user has dragged.
abbrev dragged : List (FlowNode nat_arith)
dragged = record { id = "db"; position = some (record { x = 7; y = 9 }); internal = false } ∷ []

-- The order in which no name goes before another.
abbrev unordered : String → String → Bool
unordered a b = false

update_nodes_lem_example :
    (names_key unordered
        (map (λ n. n.id) (update_nodes nat_arith same same 3 unordered snaps dragged))
      ≡ names_key unordered (all_services nat_arith snaps))
    × ((k : String)
        → has (all_services nat_arith snaps) k
          ≡ is_end nat_arith Side.internal k snaps || is_end nat_arith Side.external k snaps)
    × (all_placed nat_arith (update_nodes nat_arith same same 3 unordered snaps dragged) ≡ true)
update_nodes_lem_example = update_nodes_lem nat_arith same same 3 unordered snaps dragged refl
