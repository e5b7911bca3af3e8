-- ===== src/App/Laws.antt =====
-- What the selection of App.tsx guarantees.
use micro_trace.Common.{
  String, none, some, List, [], ◌∷◌, or_else, ◌≡◌, ◌≢◌, ◌⊎◌, inl, inr, refl, arith, eq_iff,
}
use micro_trace.Common.Arith.{Arith}
use micro_trace.Common.Dict.{lookup}
use micro_trace.Socket.{Dashboard}
use micro_trace.Socket.Trace.{Frame, run, latest, lookup-run}
use micro_trace.App.{
  Selection, Action, select_edge, select_node, click_canvas, close_panel, select_event, switch_view,
  initial, act, node, edge, hint, panel,
}

abbrev IsEvent : Action → Type 0
IsEvent (select_event key) = Unit {0}
IsEvent _ = ⊥

abbrev pub NoEvents : List Action → Type 0
NoEvents [] = Unit
NoEvents (a ∷ as') = (¬ IsEvent a) × NoEvents as'

-- The newest action first.
unfoldable pub act_all : List Action → Selection
act_all [] = initial
act_all (a ∷ older) = act a (act_all older)

abbrev pub IsExclusive : Selection → Type 0
IsExclusive s = (s.selected_key ≡ none) ⊎ (s.selected_node ≡ none)

act-IsExclusive : (a : Action) (s : Selection) → ¬ IsEvent a → IsExclusive s → IsExclusive (act a s)
unfolding act
act-IsExclusive (select_event key) s h e = absurd (h tt)
act-IsExclusive (switch_view mode) s h e = e
act-IsExclusive (select_edge key) s h e = inr refl
act-IsExclusive (select_node name) s h e = inl refl
act-IsExclusive click_canvas s h e = inl refl
act-IsExclusive close_panel s h e = inl refl

-- Without clicks on the log, a connection and a service are never selected at once.
act_all-IsExclusive : (as' : List Action) → NoEvents as' → IsExclusive (act_all as')
unfolding act_all
act_all-IsExclusive [] h = inl refl
act_all-IsExclusive (a ∷ older) (n, h) =
    act-IsExclusive a (act_all older) n (act_all-IsExclusive older h)

module _ (A : Arith) where
  -- A click on an event of the log shows nothing while a service (whose name is not empty) is selected: the
  -- panel goes on showing the service.
  panel-select_event :
      (d : Dashboard A) (s : Selection) (name key : String)
      → s.selected_node ≡ some name
      → name ≢ ""
      → panel A d (act (select_event key) s) ≡ node name (lookup name d.services)
  unfolding panel act
  panel-select_event d s name key e h = rw e (ground (arith, eq_iff name ""))

  -- After a click on a connection (whose key is not empty), on live data: the panel shows the latest report
  -- on it with its points, or the hint where there is none or it was removed, whatever was selected before.
  pub panel-select_edge :
      (t : List (Frame A)) (s : Selection) (key : String)
      → key ≢ ""
      → panel A (run A t) (act (select_edge (some key)) s) ≡ elim (latest A key t) [
        | none ↦ hint
        | some snap ↦ edge snap (or_else (lookup key (run A t).history) [])
      ]
  unfolding panel act
  panel-select_edge t s key h = rw (← lookup-run A key t) (ground (arith, eq_iff key ""))
