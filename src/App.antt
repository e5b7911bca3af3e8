-- ===== src/App.antt =====
-- frontend/src/App.tsx: what is selected, and what the detail panel shows of it.
pub mod Laws
mod Tests
use micro_trace.Common.{
  ℕ, ltb, String, Bool, true, false, Option, none, some, List, [], ◌∷◌, length, or_else,
  if◌then◌else◌, str_eq,
}
use micro_trace.Common.Arith.{Arith}
use micro_trace.Common.Dict.{Dict, lookup}
use micro_trace.Types.{StatSnapshot, ServiceSnapshot, HistoryPoint}
use micro_trace.Socket.{Dashboard}

pub data ViewMode : Type 0 where
  graph list matrix : ViewMode

pub record Selection : Type 0 where
  pub selected_key : Option String
  pub selected_node : Option String
  pub view_mode : ViewMode

abbrev pub initial : Selection
initial = record { selected_key = none; selected_node = none; view_mode = graph }

-- What the user can do, through the views, the panel and the log.
pub data Action : Type 0 where
  -- a view calls `onSelect`, or `onSelectNode`
  select_edge select_node : Option String → Action
  -- a click on an empty place of the graph
  click_canvas : Action
  close_panel : Action
  -- a click on an event of the log
  select_event : String → Action
  switch_view : ViewMode → Action

unfoldable pub handle_select_edge : Option String → Selection → Selection
handle_select_edge key s = record s { selected_key = key; selected_node = none }

unfoldable pub handle_select_node : Option String → Selection → Selection
handle_select_node name s = record s { selected_node = name; selected_key = none }

-- The log gets `setSelected` itself as its `onSelect`.
unfoldable pub act : Action → Selection → Selection
unfolding handle_select_edge handle_select_node
act (select_edge key) s = handle_select_edge key s
act (select_node name) s = handle_select_node name s
act click_canvas s = handle_select_node none (handle_select_edge none s)
act close_panel s = record s { selected_key = none; selected_node = none }
act (select_event key) s = record s { selected_key = some key }
act (switch_view mode) s = record s { view_mode = mode }

-- An empty text counts as no selection.
abbrev pub chosen : Option String → Option String
chosen none = none
chosen (some k) = if str_eq k "" then none else some k

module _ (A : Arith) where
  unfoldable pub selected_snap : Dashboard A → Selection → Option (StatSnapshot A)
  selected_snap d s = elim (chosen s.selected_key) [ none ↦ none | some k ↦ lookup k d.snapshots ]

  unfoldable pub selected_hist : Dashboard A → Selection → List (HistoryPoint A)
  selected_hist d s = elim (chosen s.selected_key) [
    | none ↦ []
    | some k ↦ or_else (lookup k d.history) []
  ]

  -- What the detail panel shows: a service, the hint to select something, or a connection.
  pub data Panel : Type 0 where
    node : String → Option (ServiceSnapshot A) → Panel
    hint : Panel
    edge : StatSnapshot A → List (HistoryPoint A) → Panel

  -- `if (selectedNode) …`, then `if (!snap) …`
  unfoldable pub panel_of :
      Option String → Option (StatSnapshot A) → Dashboard A → List (HistoryPoint A) → Panel
  panel_of (some name) snap d hist = node name (lookup name d.services)
  panel_of none none d hist = hint
  panel_of none (some snap) d hist = edge snap hist

  unfoldable pub panel : Dashboard A → Selection → Panel
  unfolding panel_of selected_snap selected_hist
  panel d s = panel_of (chosen s.selected_node) (selected_snap d s) d (selected_hist d s)

  -- The label of the log's header: the number of its events, if there are any.
  unfoldable pub log_count : Dashboard A → Option ℕ
  log_count d = if ltb 0 (length d.events) then some (length d.events) else none

  unfoldable pub edge_count : Dashboard A → ℕ
  edge_count d = length d.snapshots
