-- ===== src/Chart/PanZoom.antt =====
-- What zooming and panning in chartShared.ts do to the visible range.
use micro_trace.Common.{
  Bool, true, List, [], ◌∷◌, ◌≡◌, refl, sym, ap, ◌∙◌, arith, Bool-cases, inl, inr, if◌then◌else◌,
}
use micro_trace.Common.Arith.{Arith, IsOrdered, min_num}
use micro_trace.Common.Order.{
  AtMost, max_num-ge_left, max_num-le, min_num-le_left, min_num-le_right,
}
use micro_trace.Chart.{
  Data, Uplot, IsUplot, Bounds, data_bounds, Drag, Pointer, min_zoom_sec, clamp, zoom_range, zoom,
  pan, bounds_of, first_row, on_wheel, on_mouse_move,
}

module _ (A : Arith) (o : IsOrdered A) where
  open A use {Num, num, lt, add, sub, mul, div}

  clamp-ge : (v lo hi : Num) → AtMost A lo (clamp A v lo hi)
  unfolding clamp
  clamp-ge v lo hi = max_num-ge_left A o lo (min_num A hi v)

  clamp-le : (v lo hi : Num) → AtMost A lo hi → AtMost A (clamp A v lo hi) hi
  unfolding clamp
  clamp-le v lo hi h = max_num-le A o hi lo (min_num A hi v) h (min_num-le_left A o hi v)

  abbrev zoom_factor : Bool → Num
  zoom_factor outwards = if outwards then div (num 5) (num 4) else div (num 4) (num 5)

  module _ (U : Uplot A) (laws : IsUplot A U) where
    open U use {Plot, data_of, x_min, x_max, set_scale, set_data}

    -- The width that one turn of the wheel at `u` asks for.
    abbrev pub wheel_width : Num → Plot → Num
    wheel_width delta_y u =
        zoom_range A (bounds_of A U u) (sub (x_max u) (x_min u)) (lt (num 0) delta_y)

    abbrev wheel_target : Pointer A → Num → Plot → Bounds A
    wheel_target m delta_y u =
        zoom A (bounds_of A U u) (x_min u) (x_max u) (div (sub m.client_x m.left) m.width)
          (lt (num 0) delta_y)

    -- After a turn of the wheel: the plot shows the width asked for, which is at most that of the data and
    -- at least ten seconds (or that of the data, if it is shorter); it does not begin before the data; and
    -- the data are unchanged. Numbers are ordered (`IsOrdered`) and the plot is as documented (`IsUplot`).
    pub on_wheel_bounds :
        (m : Pointer A) (delta_y : Num) (u : Plot)
        → let v = on_wheel A U m delta_y u in
          let b = bounds_of A U u in
          let w = wheel_width delta_y u in
          (x_max v ≡ add (x_min v) w)
          × AtMost A (min_num A (min_zoom_sec A) (sub b.max b.min)) w
          × AtMost A w (sub b.max b.min)
          × AtMost A b.min (x_min v)
          × (data_of v ≡ data_of u)
    unfolding on_wheel zoom zoom_range
    on_wheel_bounds m delta_y u =
        let b = bounds_of A U u in
        let full = sub b.max b.min in
        let r = wheel_target m delta_y u in
        let left = laws.x_min-set_scale r.min r.max u in
        (
          laws.x_max-set_scale r.min r.max u ∙ ap (λ k. add k (wheel_width delta_y u)) (sym left),
          clamp-ge (mul (sub (x_max u) (x_min u)) (zoom_factor (lt (num 0) delta_y)))
              (min_num A (min_zoom_sec A) full) full,
          clamp-le (mul (sub (x_max u) (x_min u)) (zoom_factor (lt (num 0) delta_y)))
              (min_num A (min_zoom_sec A) full) full (min_num-le_right A o (min_zoom_sec A) full),
          rw left (clamp-ge _ b.min (sub b.max (wheel_width delta_y u))),
          laws.data_of-set_scale r.min r.max u,
        )

    -- Where the data leave room for the width asked for, the plot does not begin after the last place from
    -- which that width fits. Numbers are ordered (`IsOrdered`) and the plot is as documented (`IsUplot`).
    pub on_wheel_inside :
        (m : Pointer A) (delta_y : Num) (u : Plot)
        → AtMost A (bounds_of A U u).min (sub (bounds_of A U u).max (wheel_width delta_y u))
        → AtMost A
            (x_min (on_wheel A U m delta_y u))
            (sub (bounds_of A U u).max (wheel_width delta_y u))
    unfolding on_wheel zoom
    on_wheel_inside m delta_y u room =
        let b = bounds_of A U u in
        let r = wheel_target m delta_y u in
        rw (laws.x_min-set_scale r.min r.max u)
          (clamp-le _ b.min (sub b.max (wheel_width delta_y u)) room)

    -- The mouse moves of one drag.
    pub moves : Drag A → List (Pointer A) → Plot → Plot
    moves d [] u = u
    moves d (m ∷ ms) u = moves d ms (on_mouse_move A U d m u)

    move-data :
        (d : Drag A) (m : Pointer A) (u : Plot) → data_of (on_mouse_move A U d m u) ≡ data_of u
    unfolding on_mouse_move
    move-data d m u = elim (Bool-cases d.dragging) [
      | inl e ↦ rw e (laws.data_of-set_scale _ _ u)
      | inr e ↦ rw e refl
    ]

    moves-data :
        (d : Drag A) (ms : List (Pointer A)) (u : Plot) → data_of (moves d ms u) ≡ data_of u
    unfolding moves
    moves-data d [] u = refl
    moves-data d (m ∷ ms) u = moves-data d ms (on_mouse_move A U d m u) ∙ move-data d m u

    abbrev move_target : Drag A → Pointer A → Data A → Bounds A
    move_target d m rows = pan A (data_bounds A (first_row A rows)) d m

    move_eq :
        (d : Drag A) (m : Pointer A) (u : Plot)
        → d.dragging ≡ true
        → on_mouse_move A U d m u
          ≡ set_scale (move_target d m (data_of u)).min (move_target d m (data_of u)).max u
    unfolding on_mouse_move
    move_eq d m u e = ground arith

    move_min :
        (d : Drag A) (m : Pointer A) (u : Plot)
        → d.dragging ≡ true
        → x_min (on_mouse_move A U d m u) ≡ (move_target d m (data_of u)).min
    move_min d m u e = ap x_min (move_eq d m u e) ∙ laws.x_min-set_scale _ _ u

    move_max :
        (d : Drag A) (m : Pointer A) (u : Plot)
        → d.dragging ≡ true
        → x_max (on_mouse_move A U d m u) ≡ (move_target d m (data_of u)).max
    move_max d m u e = ap x_max (move_eq d m u e) ∙ laws.x_max-set_scale _ _ u

    pan_width :
        (d : Drag A) (m : Pointer A) (u : Plot)
        → (move_target d m (data_of u)).max
          ≡ add (move_target d m (data_of u)).min (sub d.start_max d.start_min)
    unfolding pan
    pan_width d m u = refl

    pan_left :
        (d : Drag A) (m : Pointer A) (u : Plot)
        → AtMost A (bounds_of A U u).min (move_target d m (data_of u)).min
    unfolding pan
    pan_left d m u = clamp-ge _ _ _

    -- A drag does not drift: after any moves, the next move of the same drag shows the range that it would
    -- have shown as the first. The width shown is that of the drag's start, the plot does not begin before
    -- the data, and the data are unchanged. Numbers are ordered (`IsOrdered`) and the plot is as documented
    -- (`IsUplot`).
    pub on_mouse_move_drag :
        (d : Drag A) (ms : List (Pointer A)) (m : Pointer A) (u : Plot)
        → d.dragging ≡ true
        → let v = on_mouse_move A U d m (moves d ms u) in
          (x_min v ≡ x_min (on_mouse_move A U d m u))
          × (x_max v ≡ x_max (on_mouse_move A U d m u))
          × (x_max v ≡ add (x_min v) (sub d.start_max d.start_min))
          × AtMost A (bounds_of A U u).min (x_min v)
          × (data_of v ≡ data_of u)
    on_mouse_move_drag d ms m u e =
        let w = moves d ms u in
        let same = moves-data d ms u in
        let left = move_min d m w e in
        (
          left ∙ ap (λ xs. (move_target d m xs).min) same ∙ sym (move_min d m u e),
          move_max d m w e ∙ ap (λ xs. (move_target d m xs).max) same ∙ sym (move_max d m u e),
          move_max d m w e
              ∙ pan_width d m w
              ∙ ap (λ k. add k (sub d.start_max d.start_min)) (sym left),
          rw (left, same) (pan_left d m u),
          move-data d m w ∙ same,
        )
