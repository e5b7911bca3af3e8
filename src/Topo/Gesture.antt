-- ===== src/Topo/Gesture.antt =====
-- Clicks and drags in TopoGraph.tsx: when a press of the mouse counts as a click.
use micro_trace.Common.{
  Bool, false, ◌||◌, none, some, List, [], ◌∷◌, if◌then◌else◌, ◌≡◌, refl, ◌∙◌, arith,
}
use micro_trace.Common.Arith.{Arith}
use micro_trace.App.{Action, select_edge, select_node, click_canvas}
use micro_trace.Topo.{
  Graph, NodeStart, PanStart, Target, on_node, on_edge, on_canvas, is_far, on_mouse_down,
  on_mouse_move, on_mouse_up, on_click,
}

module _ (A : Arith) where
  open A use {Num, sub}

  -- The moves between press and release, in their order.
  unfoldable pub moves : List (Num × Num) → Graph A → Graph A
  moves [] g = g
  moves ((cx, cy) ∷ ms) g = moves ms (on_mouse_move A cx cy g)

  -- Some move went more than two pixels from the place of the press, along either axis.
  unfoldable pub any_far : Num → Num → List (Num × Num) → Bool
  any_far sx sy [] = false
  any_far sx sy ((cx, cy) ∷ ms) = is_far A (sub cx sx) (sub cy sy) || any_far sx sy ms

  abbrev pub action_of : Target → Action
  action_of (on_edge key) = select_edge (some key)
  action_of (on_node name) = select_node (some name)
  action_of on_canvas = click_canvas

  -- A press at (sx, sy) is under way.
  data IsPressed (sx sy : Num) (g : Graph A) : Type 0 where
    of_node :
        (d : NodeStart A)
        → g.node_drag ≡ some d
        → d.start_x ≡ sx
        → d.start_y ≡ sy
        → IsPressed sx sy g
    of_canvas :
        (p : PanStart A)
        → g.node_drag ≡ none
        → g.pan ≡ some p
        → p.start_x ≡ sx
        → p.start_y ≡ sy
        → IsPressed sx sy g

  move-IsPressed :
      (sx sy cx cy : Num) (g : Graph A)
      → IsPressed sx sy g
      → IsPressed sx sy (on_mouse_move A cx cy g)
        × ((on_mouse_move A cx cy g).did_drag ≡ (is_far A (sub cx sx) (sub cy sy) || g.did_drag))
  unfolding on_mouse_move
  move-IsPressed sx sy cx cy g (of_node d n x y) = (of_node d (ground arith) x y, ground arith)
  move-IsPressed sx sy cx cy g (of_canvas p n q x y) =
      (of_canvas p (ground arith) (ground arith) x y, ground arith)

  moves-did_drag :
      (sx sy : Num) (ms : List (Num × Num)) (g : Graph A)
      → IsPressed sx sy g
      → (moves ms g).did_drag ≡ (any_far sx sy ms || g.did_drag)
  unfolding moves any_far
  moves-did_drag sx sy [] g p = refl
  moves-did_drag sx sy ((cx, cy) ∷ ms) g p =
      let (q, e) = move-IsPressed sx sy cx cy g p in
      let ih = moves-did_drag sx sy ms (on_mouse_move A cx cy g) q in rw (ih, e) (ground arith)

  press-IsPressed :
      (t : Target) (sx sy : Num) (g : Graph A)
      → g.node_drag ≡ none
      → IsPressed sx sy (on_mouse_down A t sx sy g) × ((on_mouse_down A t sx sy g).did_drag ≡ false)
  unfolding on_mouse_down
  press-IsPressed (on_node name) sx sy g h = (of_node _ refl refl refl, refl)
  press-IsPressed (on_edge key) sx sy g h = (of_canvas _ h refl refl refl, refl)
  press-IsPressed on_canvas sx sy g h = (of_canvas _ h refl refl refl, refl)

  release-click :
      (t : Target) (g : Graph A)
      → on_click A t (on_mouse_up A g) ≡ (if g.did_drag then none else some (action_of t))
  unfolding on_click on_mouse_up
  release-click (on_node name) g = refl
  release-click (on_edge key) g = refl
  release-click on_canvas g = refl

  -- A press while no service is being dragged, any moves, the release and the click on what is then under
  -- the mouse: the click has its effect exactly if no move went more than two pixels from the press,
  -- wherever the mouse ended.
  pub gesture-click :
      (pressed clicked : Target) (sx sy : Num) (ms : List (Num × Num)) (g : Graph A)
      → g.node_drag ≡ none
      → on_click A clicked (on_mouse_up A (moves ms (on_mouse_down A pressed sx sy g)))
        ≡ (if any_far sx sy ms then none else some (action_of clicked))
  gesture-click pressed clicked sx sy ms g h =
      let (p, e) = press-IsPressed pressed sx sy g h in
      let m = moves-did_drag sx sy ms (on_mouse_down A pressed sx sy g) p in
      release-click clicked (moves ms (on_mouse_down A pressed sx sy g)) ∙ rw (m, e) (ground arith)
