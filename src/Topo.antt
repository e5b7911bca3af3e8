-- ===== src/Topo.antt =====
-- frontend/src/components/TopoGraph.tsx with constants/topology.ts: where the services stand, and what the mouse does to
-- the picture. `sin`, `cos`, `sqrt` and `pi` are those of `Math`.
pub mod View
pub mod Layout
pub mod Limits
pub mod Gesture
pub mod Marks
mod Tests
use micro_trace.Common.{
  ℕ, ◌+◌, String, Bool, true, false, not, ◌&&◌, ◌||◌, Option, none, some, List, [], ◌∷◌, length,
  or_else, is_some, if◌then◌else◌,
}
use micro_trace.Common.Arith.{Arith, gt, max_num, min_num}
use micro_trace.Common.Dict.{Dict, lookup, insert}
use micro_trace.App.{Action, select_edge, select_node, click_canvas}

pub record Pos (A : Arith) : Type 0 where
  pub x : A.Num
  pub y : A.Num

pub record Transform (A : Arith) : Type 0 where
  pub x : A.Num
  pub y : A.Num
  pub scale : A.Num

-- `panRef`, and `nodeDragRef`
pub record PanStart (A : Arith) : Type 0 where
  pub start_x : A.Num
  pub start_y : A.Num
  pub tx : A.Num
  pub ty : A.Num

pub record NodeStart (A : Arith) : Type 0 where
  pub name : String
  pub start_x : A.Num
  pub start_y : A.Num
  pub ox : A.Num
  pub oy : A.Num

pub record Graph (A : Arith) : Type 0 where
  pub transform : Transform A
  pub positions : Dict (Pos A)
  pub pan : Option (PanStart A)
  pub node_drag : Option (NodeStart A)
  pub did_drag : Bool

-- What stands under the mouse: the name of a node, or the key of an edge, or nothing.
pub data Target : Type 0 where
  on_node on_edge : String → Target
  on_canvas : Target

module _ (A : Arith) where
  open A use {Num, num, lt, add, sub, mul, div}

  -- a decimal literal with two places
  abbrev pub cents : ℕ → Num
  cents n = div (num n) (num 100)

  abbrev pub at : ℕ → ℕ → Pos A
  at x y = record { x = cents x; y = cents y }

  unfoldable pub node_pos : Dict (Pos A)
  node_pos =
      ("api-gateway", at 50 8)
      ∷ ("auth-svc", at 18 35)
      ∷ ("order-svc", at 78 35)
      ∷ ("redis", at 5 66)
      ∷ ("payment-svc", at 50 64)
      ∷ ("inventory-svc", at 95 66)
      ∷ ("notif-svc", at 78 93)
      ∷ ("postgres", at 28 93)
      ∷ ("kafka", at 96 96)
      ∷ ("stripe-api", at 52 93)
      ∷ []

  abbrev pub home : Transform A
  home = record { x = num 0; y = num 0; scale = num 1 }

  unfoldable pub initial : Graph A
  initial = record {
    transform = home;
    positions = node_pos;
    pan = none;
    node_drag = none;
    did_drag = false;
  }

  -- `positions[name] ?? NODE_POS[name] ?? { x: 0.5, y: 0.5 }`
  unfoldable pub pos_of : String → Dict (Pos A) → Pos A
  pos_of name positions =
      or_else (lookup name positions) (or_else (lookup name node_pos) (at 50 50))

  module _ (sin cos : Num → Num) (pi : Num) where
    -- The place of the idx-th service on the spiral, kept within the frame.
    unfoldable pub spiral : ℕ → Pos A
    spiral idx =
        let angle = div (mul (mul (num idx) (div (num 275) (num 2))) pi) (num 180) in
        let place = λ (t : Num).
          min_num A (cents 90) (max_num A (cents 10) (add (cents 50) (mul (cents 32) t))) in
        record { x = place (cos angle); y = place (sin angle) }

    -- The loop over the services that have no place yet.
    unfoldable pub place_all : ℕ → List String → Dict (Pos A) → Dict (Pos A)
    unfolding spiral
    place_all idx [] next = next
    place_all idx (name ∷ names) next =
        let seen = is_some (lookup name next) in
        place_all (if seen then idx else idx + 1) names
          (if seen then next else insert name (spiral idx) next)

    unfoldable pub place_new : List String → Graph A → Graph A
    unfolding place_all
    place_new names g = record g { positions = place_all (length g.positions) names g.positions }

  -- The mouse at (mx, my) within the container; `upwards` is `deltaY < 0`.
  unfoldable pub on_wheel : Num → Num → Bool → Graph A → Graph A
  on_wheel mx my upwards g =
      let prev = g.transform in
      let factor = if upwards then div (num 11) (num 10) else div (num 9) (num 10) in
      let new_scale = min_num A (num 3) (max_num A (div (num 1) (num 5)) (mul prev.scale factor)) in
      let ratio = div new_scale prev.scale in
      record g {
        transform = record {
          x = sub mx (mul (sub mx prev.x) ratio);
          y = sub my (mul (sub my prev.y) ratio);
          scale = new_scale;
        };
      }

  unfoldable pub on_mouse_down : Target → Num → Num → Graph A → Graph A
  on_mouse_down (on_node name) cx cy g =
      let cur = pos_of name g.positions in
      record g {
        did_drag = false;
        node_drag =
            some (record { name = name; start_x = cx; start_y = cy; ox = cur.x; oy = cur.y });
      }
  on_mouse_down _ cx cy g = record g {
    did_drag = false;
    pan = some (record { start_x = cx; start_y = cy; tx = g.transform.x; ty = g.transform.y });
  }

  abbrev pub abs : Num → Num
  abs a = if lt a (num 0) then sub (num 0) a else a

  -- `Math.abs(dx) > 2 || Math.abs(dy) > 2`
  unfoldable pub is_far : Num → Num → Bool
  is_far dx dy = gt A (abs dx) (num 2) || gt A (abs dy) (num 2)

  -- `Math.max(0, Math.min(1, v))`
  unfoldable pub in_frame : Num → Num
  in_frame v = max_num A (num 0) (min_num A (num 1) v)

  unfoldable pub drag_node : NodeStart A → Num → Num → Graph A → Graph A
  drag_node d cx cy g =
      let dx = sub cx d.start_x in
      let dy = sub cy d.start_y in
      record g {
        did_drag = if is_far dx dy then true else g.did_drag;
        positions =
            insert d.name
              (record {
                x = in_frame (add d.ox (div dx (mul g.transform.scale (num 1000))));
                y = in_frame (add d.oy (div dy (mul g.transform.scale (num 700))));
              })
              g.positions;
      }

  unfoldable pub drag_canvas : PanStart A → Num → Num → Graph A → Graph A
  drag_canvas p cx cy g =
      let dx = sub cx p.start_x in
      let dy = sub cy p.start_y in
      record g {
        did_drag = if is_far dx dy then true else g.did_drag;
        transform = record g.transform { x = add p.tx dx; y = add p.ty dy };
      }

  abbrev pub move_with : Option (NodeStart A) → Option (PanStart A) → Num → Num → Graph A → Graph A
  move_with (some d) p cx cy g = drag_node d cx cy g
  move_with none (some p) cx cy g = drag_canvas p cx cy g
  move_with none none cx cy g = g

  unfoldable pub on_mouse_move : Num → Num → Graph A → Graph A
  unfolding drag_node drag_canvas
  on_mouse_move cx cy g = move_with g.node_drag g.pan cx cy g

  unfoldable pub on_mouse_up : Graph A → Graph A
  on_mouse_up g = record g { node_drag = none; pan = none }

  -- What a click tells the page; nothing, if the mouse was dragged.
  unfoldable pub on_click : Target → Graph A → Option Action
  on_click (on_edge key) g = if g.did_drag then none else some (select_edge (some key))
  on_click (on_node name) g = if g.did_drag then none else some (select_node (some name))
  on_click on_canvas g = if g.did_drag then none else some click_canvas

  -- The double click, and the three buttons.
  unfoldable pub fit : Graph A → Graph A
  fit g = record g { transform = home }

  unfoldable pub zoom_in : Graph A → Graph A
  zoom_in g = record g {
    transform = record g.transform {
      scale = min_num A (num 3) (mul g.transform.scale (div (num 6) (num 5)));
    };
  }

  unfoldable pub zoom_out : Graph A → Graph A
  zoom_out g = record g {
    transform = record g.transform {
      scale = max_num A (div (num 1) (num 5)) (div g.transform.scale (div (num 6) (num 5)));
    };
  }
