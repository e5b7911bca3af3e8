-- ===== src/App/Tests.antt =====
-- The selection after concrete actions.
use micro_trace.Common.{some, List, [], ◌∷◌, ◌≡◌, refl}
use micro_trace.App.{Action, select_edge, select_node, select_event, switch_view, matrix, act}
use micro_trace.App.Laws.{act_all}

-- The newest action first.
abbrev clicks : List Action
clicks =
    select_event "a→b" ∷ switch_view matrix ∷ select_node (some "a") ∷ select_edge (some "a→b") ∷ []

both_selected :
    act_all clicks
    ≡ record { selected_key = some "a→b"; selected_node = some "a"; view_mode = matrix }
unfolding act_all act
both_selected = refl
