-- ===== src/Topo/Limits/Proofs.antt =====
-- That every event keeps the picture within its limits.
use micro_trace.Common.{
  ℕ, ◌+◌, ◌≤◌, String, Bool, true, false, Option, none, some, List, [], ◌∷◌, is_some, if◌then◌else◌,
  arith,
}
use micro_trace.Common.Arith.{Arith, IsOrdered, max_num, min_num}
use micro_trace.Common.Order.{
  AtMost, AtMost-trans, min_num-le_left, le-min_num, max_num-le, max_num-ge_left,
}
use micro_trace.Common.Dict.{Dict, lookup, insert, AllEntries, AllEntries-insert}
use micro_trace.Topo.{
  Graph, Pos, NodeStart, PanStart, on_node, on_edge, on_canvas, cents, at, node_pos, initial,
  spiral, place_all, place_new, on_wheel, on_mouse_down, in_frame, drag_node, drag_canvas,
  move_with, on_mouse_move, on_mouse_up, fit, zoom_in, zoom_out,
}
use micro_trace.Topo.Limits.{
  IsScaled, Event, wheel, down, move, up, double_click, press_in, press_out, services, step, run,
  lowest, InFrame, IsWithin,
}

module _ (A : Arith) (o : IsOrdered A) (c : IsScaled A) where
  open A use {Num, num, lt, add, sub, mul, div}

  at-InFrame : (x y : ℕ) → x ≤ 100 → y ≤ 100 → InFrame A "" (at A x y)
  at-InFrame x y h j = (
    c.fraction_ge x 100 h (omega arith),
    c.fraction_le x 100 h (omega arith),
    c.fraction_ge y 100 j (omega arith),
    c.fraction_le y 100 j (omega arith),
  )

  node_pos-framed : AllEntries (InFrame A) (node_pos A)
  unfolding node_pos
  node_pos-framed = (
    at-InFrame 50 8 (omega arith) (omega arith),
    (
      at-InFrame 18 35 (omega arith) (omega arith),
      (
        at-InFrame 78 35 (omega arith) (omega arith),
        (
          at-InFrame 5 66 (omega arith) (omega arith),
          (
            at-InFrame 50 64 (omega arith) (omega arith),
            (
              at-InFrame 95 66 (omega arith) (omega arith),
              (
                at-InFrame 78 93 (omega arith) (omega arith),
                (
                  at-InFrame 28 93 (omega arith) (omega arith),
                  (
                    at-InFrame 96 96 (omega arith) (omega arith),
                    (at-InFrame 52 93 (omega arith) (omega arith), tt),
                  ),
                ),
              ),
            ),
          ),
        ),
      ),
    ),
  )

  zero_le_one : AtMost A (num 0) (num 1)
  zero_le_one = o.lt-num 1 0 (omega arith) (omega arith)

  one_le_three : AtMost A (num 1) (num 3)
  one_le_three = o.lt-num 3 1 (omega arith) (omega arith)

  lowest_le_one : AtMost A (lowest A) (num 1)
  lowest_le_one = c.fraction_le 1 5 (omega arith) (omega arith)

  lowest_le_three : AtMost A (lowest A) (num 3)
  lowest_le_three = AtMost-trans A o (lowest A) (num 1) (num 3) lowest_le_one one_le_three

  zero_le_scale : (s : Num) → AtMost A (lowest A) s → AtMost A (num 0) s
  zero_le_scale s h =
      AtMost-trans A o (num 0) (lowest A) s (c.fraction_ge 1 5 (omega arith) (omega arith)) h

  initial-IsWithin : IsWithin A (initial A)
  unfolding initial
  initial-IsWithin = record {
    scale_ge = lowest_le_one;
    scale_le = one_le_three;
    framed = node_pos-framed;
  }

  in_frame_ge : (v : Num) → AtMost A (num 0) (in_frame A v)
  unfolding in_frame
  in_frame_ge v = max_num-ge_left A o (num 0) (min_num A (num 1) v)

  in_frame_le : (v : Num) → AtMost A (in_frame A v) (num 1)
  unfolding in_frame
  in_frame_le v =
      max_num-le A o (num 1) (num 0) (min_num A (num 1) v) zero_le_one
        (min_num-le_left A o (num 1) v)

  frame_place :
      (t : Num)
      → AtMost A (num 0) (min_num A (cents A 90) (max_num A (cents A 10) t))
        × AtMost A (min_num A (cents A 90) (max_num A (cents A 10) t)) (num 1)
  frame_place t =
      let top = max_num A (cents A 10) t in
      (
        le-min_num A o (num 0) (cents A 90) top (c.fraction_ge 90 100 (omega arith) (omega arith)) (
            AtMost-trans A o (num 0) (cents A 10) top
              (c.fraction_ge 10 100 (omega arith) (omega arith))
              (max_num-ge_left A o (cents A 10) t)),
        AtMost-trans A o (min_num A (cents A 90) top) (cents A 90) (num 1)
            (min_num-le_left A o (cents A 90) top)
            (c.fraction_le 90 100 (omega arith) (omega arith)),
      )

  module _ (sin cos : Num → Num) (pi : Num) where
    spiral-InFrame : (k : String) (idx : ℕ) → InFrame A k (spiral A sin cos pi idx)
    unfolding spiral
    spiral-InFrame k idx =
        ((frame_place _).0, (frame_place _).1, (frame_place _).0, (frame_place _).1)

    place_all-framed :
        (idx : ℕ) (names : List String) (d : Dict (Pos A))
        → AllEntries (InFrame A) d
        → AllEntries (InFrame A) (place_all A sin cos pi idx names d)
    unfolding place_all
    place_all-framed idx [] d h = h
    place_all-framed idx (name ∷ names) d h =
        place_all-framed (if is_some (lookup name d) then idx else idx + 1) names _
          (go (is_some (lookup name d)))
      where
        go :
            (b : Bool)
            → AllEntries (InFrame A) (if b then d else insert name (spiral A sin cos pi idx) d)
        go true = h
        go false =
            AllEntries-insert (InFrame A) name (spiral A sin cos pi idx) d (spiral-InFrame name idx)
              h

    move_with-IsWithin :
        (n : Option (NodeStart A)) (p : Option (PanStart A)) (cx cy : Num) (g : Graph A)
        → IsWithin A g
        → IsWithin A (move_with A n p cx cy g)
    unfolding drag_node drag_canvas
    move_with-IsWithin (some d) p cx cy g w = record {
      scale_ge = w.scale_ge;
      scale_le = w.scale_le;
      framed =
          AllEntries-insert (InFrame A) d.name _ g.positions
            (in_frame_ge _, in_frame_le _, in_frame_ge _, in_frame_le _) w.framed;
    }
    move_with-IsWithin none (some p) cx cy g w = record {
      scale_ge = w.scale_ge;
      scale_le = w.scale_le;
      framed = w.framed;
    }
    move_with-IsWithin none none cx cy g w = w

    step-IsWithin : (e : Event A) (g : Graph A) → IsWithin A g → IsWithin A (step A sin cos pi e g)
    unfolding step on_wheel on_mouse_down on_mouse_move on_mouse_up fit zoom_in zoom_out place_new
    step-IsWithin (wheel mx my upwards) g w = record {
      scale_ge =
          le-min_num A o (lowest A) (num 3) _ lowest_le_three (max_num-ge_left A o (lowest A) _);
      scale_le = min_num-le_left A o (num 3) _;
      framed = w.framed;
    }
    step-IsWithin (down (on_node name) cx cy) g w = record {
      scale_ge = w.scale_ge;
      scale_le = w.scale_le;
      framed = w.framed;
    }
    step-IsWithin (down (on_edge key) cx cy) g w = record {
      scale_ge = w.scale_ge;
      scale_le = w.scale_le;
      framed = w.framed;
    }
    step-IsWithin (down on_canvas cx cy) g w = record {
      scale_ge = w.scale_ge;
      scale_le = w.scale_le;
      framed = w.framed;
    }
    step-IsWithin (move cx cy) g w = move_with-IsWithin g.node_drag g.pan cx cy g w
    step-IsWithin up g w = record {
      scale_ge = w.scale_ge;
      scale_le = w.scale_le;
      framed = w.framed;
    }
    step-IsWithin double_click g w = record {
      scale_ge = lowest_le_one;
      scale_le = one_le_three;
      framed = w.framed;
    }
    step-IsWithin press_in g w = record {
      scale_ge = le-min_num A o (lowest A) (num 3) _ lowest_le_three (
          AtMost-trans A o (lowest A) g.transform.scale _ w.scale_ge
            (c.grows g.transform.scale (zero_le_scale g.transform.scale w.scale_ge)));
      scale_le = min_num-le_left A o (num 3) _;
      framed = w.framed;
    }
    step-IsWithin press_out g w = record {
      scale_ge = max_num-ge_left A o (lowest A) _;
      scale_le = max_num-le A o (num 3) (lowest A) _ lowest_le_three (
          AtMost-trans A o _ g.transform.scale (num 3)
            (c.shrinks g.transform.scale (zero_le_scale g.transform.scale w.scale_ge)) w.scale_le);
      framed = w.framed;
    }
    step-IsWithin (services names) g w = record {
      scale_ge = w.scale_ge;
      scale_le = w.scale_le;
      framed = place_all-framed _ names g.positions w.framed;
    }

    -- Whatever the user does and whichever services appear: the scale stays between 0.2 and 3, and every
    -- service has both coordinates between 0 and 1, where numbers are ordered (`IsOrdered`) and scale as
    -- `IsScaled` states.
    pub run-IsWithin : (es : List (Event A)) → IsWithin A (run A sin cos pi es)
    unfolding run
    run-IsWithin [] = initial-IsWithin
    run-IsWithin (e ∷ older) = step-IsWithin e (run A sin cos pi older) (run-IsWithin older)
