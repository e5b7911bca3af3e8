-- ===== src/Chart.antt =====
-- frontend/src/components/chartShared.ts: zooming, panning and feeding of the two charts.
-- The chart itself is uPlot, a package: here it is the parameter `Uplot`, with what its documentation says
-- of the calls that the code makes.
pub mod PanZoom
pub mod Latency
pub mod Canvas
pub mod Live
pub mod Renders
pub mod Options
mod Tests
use Prim.Native.String.{◌++◌ as concat}
use micro_trace.Common.{
  ℕ, ◌*◌, ltb, String, Bool, true, false, not, ◌&&◌, Option, none, some, List, [], ◌∷◌, map, length,
  get_or, if◌then◌else◌, str_eq, ◌==◌, ◌≡◌,
}
use micro_trace.Common.Arith.{Arith, gt, ge, max_num, min_num}

abbrev pub Data : Arith → Type 0
Data A = List (List A.Num)

-- A plot as the code sees it: its data, the ends of its x scale, and the calls that change them.
pub record Uplot (A : Arith) : Type 1 where
  pub Plot : Type 0
  pub data_of : Plot → Data A
  pub x_min : Plot → A.Num
  pub x_max : Plot → A.Num
  pub set_scale : A.Num → A.Num → Plot → Plot
  pub set_data : Data A → Bool → Plot → Plot

-- `setScale('x', { min, max })` shows just that range and leaves the data; `setData(data, false)` takes the
-- data and leaves the scale.
pub record IsUplot (A : Arith) (U : Uplot A) : Type 0 where
  pub x_min-set_scale : (a b : A.Num) (u : U.Plot) → U.x_min (U.set_scale a b u) ≡ a
  pub x_max-set_scale : (a b : A.Num) (u : U.Plot) → U.x_max (U.set_scale a b u) ≡ b
  pub data_of-set_scale : (a b : A.Num) (u : U.Plot) → U.data_of (U.set_scale a b u) ≡ U.data_of u
  pub data_of-set_data : (d : Data A) (r : Bool) (u : U.Plot) → U.data_of (U.set_data d r u) ≡ d

pub record Bounds (A : Arith) : Type 0 where
  pub min : A.Num
  pub max : A.Num

module _ (A : Arith) where
  open A use {Num, num, lt, add, sub, mul, div}

  abbrev pub min_zoom_sec : Num
  min_zoom_sec = num 10

  unfoldable pub clamp : Num → Num → Num → Num
  clamp val lo hi = max_num A lo (min_num A hi val)

  -- the x values, `u.data[0]`
  abbrev pub first_row : Data A → List Num
  first_row [] = []
  first_row (xs ∷ rows) = xs

  abbrev pub last_of : Num → List Num → Num
  last_of x [] = x
  last_of x (y ∷ ys) = last_of y ys

  unfoldable pub data_bounds : List Num → Bounds A
  data_bounds [] = record { min = num 0; max = num 1 }
  data_bounds (x ∷ xs) =
      let max = last_of x xs in
      if gt A max x then record { min = x; max = max } else record { min = x; max = add x (num 1) }

  -- Where the mouse is, relative to the plot: `clientX`, and `left` and `width` of its rectangle.
  pub record Pointer : Type 0 where
    pub client_x : Num
    pub left : Num
    pub width : Num

  unfoldable pub zoom_range : Bounds A → Num → Bool → Num
  zoom_range b cur_range outwards =
      let full_range = sub b.max b.min in
      let factor = if outwards then div (num 5) (num 4) else div (num 4) (num 5) in
      clamp (mul cur_range factor) (min_num A min_zoom_sec full_range) full_range

  -- The range that the wheel handler passes to `setScale`.
  unfoldable pub zoom : Bounds A → Num → Num → Num → Bool → Bounds A
  zoom b cur_min cur_max ratio outwards =
      let cur_range = sub cur_max cur_min in
      let new_range = zoom_range b cur_range outwards in
      let anchor = add cur_min (mul ratio cur_range) in
      let new_min = clamp (sub anchor (mul ratio new_range)) b.min (sub b.max new_range) in
      record { min = new_min; max = add new_min new_range }

  -- The drag's variables, which the mouse handlers share.
  pub record Drag : Type 0 where
    pub dragging : Bool
    pub start_x : Num
    pub start_min : Num
    pub start_max : Num

  abbrev pub no_drag : Drag
  no_drag = record { dragging = false; start_x = num 0; start_min = num 0; start_max = num 0 }

  -- The range that the mouse-move handler passes to `setScale`. `-(dx / width)` is `0 - dx / width`.
  unfoldable pub pan : Bounds A → Drag → Pointer → Bounds A
  pan b d m =
      let dx = sub m.client_x d.start_x in
      let range = sub d.start_max d.start_min in
      let shift = mul (sub (num 0) (div dx m.width)) range in
      let new_min = clamp (add d.start_min shift) b.min (sub b.max range) in
      record { min = new_min; max = add new_min range }

  module _ (U : Uplot A) where
    open U use {Plot, data_of, x_min, x_max, set_scale, set_data}

    abbrev pub bounds_of : Plot → Bounds A
    bounds_of u = data_bounds (first_row (data_of u))

    unfoldable pub is_full_range : Plot → Bool
    is_full_range u =
        let b = bounds_of u in
        let full = sub b.max b.min in
        ge A (sub (x_max u) (x_min u)) (sub full (mul full (div (num 1) (num 1000))))

    unfoldable pub on_wheel : Pointer → Num → Plot → Plot
    on_wheel m delta_y u =
        let r =
          zoom (bounds_of u) (x_min u) (x_max u) (div (sub m.client_x m.left) m.width)
            (gt A delta_y (num 0)) in
        set_scale r.min r.max u

    unfoldable pub on_mouse_down : ℕ → Num → Plot → Drag → Drag
    on_mouse_down button client_x u d =
        if button == 0
        then record {
          dragging = true;
          start_x = client_x;
          start_min = x_min u;
          start_max = x_max u;
        }
        else d

    unfoldable pub on_mouse_move : Drag → Pointer → Plot → Plot
    on_mouse_move d m u =
        if d.dragging then (let r = pan (bounds_of u) d m in set_scale r.min r.max u) else u

    unfoldable pub on_mouse_up : Drag → Drag
    on_mouse_up d = if d.dragging then record d { dragging = false } else d

    -- The hook that uPlot runs after `setScale`: the new value of `state.userZoomed`.
    unfoldable pub on_set_scale : String → Plot → Bool → Bool
    on_set_scale key u user_zoomed = if str_eq key "x" then not (is_full_range u) else user_zoomed

    unfoldable pub apply_data : Data A → Bool → Plot → Plot
    apply_data rows user_zoomed u =
        if user_zoomed
        then set_scale (x_min u) (x_max u) (set_data rows false u)
        else set_data rows true u

  -- The labels of the time axis. `hhmm` and `md` print the hour and the day of a time in seconds.
  module _ (hhmm md : Num → String) where
    unfoldable pub axis_label : Bool → Option Num → String
    axis_label wide none = ""
    axis_label wide (some s) =
        if wide
        then concat (md s) (concat "\n" (if str_eq (hhmm s) "00:00" then "" else hhmm s))
        else concat (hhmm s) (concat "\n" (md s))

    unfoldable pub time_axis_values : Num → Num → List (Option Num) → List String
    unfolding axis_label
    time_axis_values scale_min scale_max splits =
        map (axis_label (ge A (sub scale_max scale_min) (num (2 * 86400)))) splits
