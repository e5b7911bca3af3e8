-- ===== src/Chart/Canvas.antt =====
-- LatencyCanvas of LatencyChart.tsx and ResourceCanvas of ResourceChart.tsx, whose life is the same: a plot that is built when the
-- chart is mounted or a spike begins or ends, fed with new data, zoomed, dragged and resized, and its tooltip.
-- What uPlot does is the parameter `Engine`: when a plot runs its `setScale` hooks is left open.
use micro_trace.Common.{
  ℕ, ◌+◌, ltb, ◌==◌, Bool, false, not, ◌&&◌, Option, none, some, List, [], ◌∷◌, length, get_elem?,
  if◌then◌else◌,
}
use micro_trace.Common.Arith.{Arith}
use micro_trace.Chart.{
  Data, Uplot, Pointer, Drag, no_drag, on_wheel, on_mouse_down, on_mouse_move, on_mouse_up,
  on_set_scale, apply_data,
}
use micro_trace.Chart.Latency.{Band}

-- `new uPlot(opts, data, el)`, `setSize`, and whether a change of a plot, and the making of one, runs the `setScale` hooks for x.
pub record Engine (A : Arith) (U : Uplot A) : Type 0 where
  pub new_plot : ℕ → ℕ → Data A → U.Plot
  pub set_size : ℕ → ℕ → U.Plot → U.Plot
  pub announces_new : U.Plot → Bool
  pub announces : U.Plot → U.Plot → Bool

-- What the two charts do not share: their points, the rows drawn of them, and the bands behind these.
pub record ChartKind (A : Arith) : Type 1 where
  pub Point : Type 0
  pub rows : List Point → Data A
  pub bands : List Point → Bool → List (Band A)

module _ (A : Arith) (U : Uplot A) (E : Engine A U) (K : ChartKind A) where
  open U use {Plot}
  open E use {new_plot, set_size, announces_new, announces}
  open K use {Point, rows, bands}

  -- The props, the refs, the variables of the plug-in, and the tooltip's index. `listening` counts the pairs of listeners that the
  -- plug-in has put on the window.
  pub record Canvas : Type 0 where
    pub history : List Point
    pub is_spike : Bool
    pub plot : Option Plot
    pub user_zoomed : Bool
    pub drag : Drag A
    pub drawn_bands : List (Band A)
    pub tip : Option ℕ
    pub listening : ℕ

  -- Before the chart is mounted.
  abbrev pub blank : Canvas
  blank = record {
    history = [];
    is_spike = false;
    plot = none;
    user_zoomed = false;
    drag = no_drag A;
    drawn_bands = [];
    tip = none;
    listening = 0;
  }

  abbrev size_or : ℕ → ℕ → ℕ
  size_or n d = if n == 0 then d else n

  -- `rebuild(wrap.clientWidth || 400, wrap.clientHeight || 140)`; the new plot's `ready` hook adds its listeners.
  unfoldable pub rebuild : ℕ → ℕ → Canvas → Canvas
  rebuild w h c =
      let u = new_plot (size_or w 400) (size_or h 140) (rows c.history) in
      record c {
        plot = some u;
        user_zoomed = if announces_new u then on_set_scale A U "x" u false else false;
        drag = no_drag A;
        drawn_bands = bands c.history c.is_spike;
        listening = c.listening + 1;
      }

  -- The plot `u` has become `v`.
  unfoldable pub changed : Plot → Plot → Canvas → Canvas
  changed u v c = record c {
    plot = some v;
    user_zoomed = if announces u v then on_set_scale A U "x" v c.user_zoomed else c.user_zoomed;
  }

  -- The effect on `[history]`.
  unfoldable pub feed : Canvas → Canvas
  unfolding changed
  feed c = elim c.plot [
    | none ↦ c
    | some u ↦ changed u (apply_data A U (rows c.history) c.user_zoomed u) c
  ]

  unfoldable pub mount : ℕ → ℕ → List Point → Bool → Canvas → Canvas
  unfolding rebuild feed
  mount w h pts is_spike c = feed (rebuild w h (record c { history = pts; is_spike = is_spike }))

  abbrev same_bool : Bool → Bool → Bool
  same_bool a b = if a then b else not b

  -- A render with other props, and the effects whose dependencies have changed: `fresh` says that `history` is another array.
  unfoldable pub render : ℕ → ℕ → Bool → List Point → Bool → Canvas → Canvas
  unfolding rebuild feed
  render w h fresh pts is_spike c =
      let next = record c { history = if fresh then pts else c.history; is_spike = is_spike } in
      let built = if same_bool c.is_spike is_spike then next else rebuild w h next in
      if fresh then feed built else built

  -- What is done to the plot where there is one.
  unfoldable pub on_plot : (Plot → Plot) → Canvas → Canvas
  unfolding changed
  on_plot f c = elim c.plot [ none ↦ c | some u ↦ changed u (f u) c ]

  -- The ResizeObserver.
  unfoldable pub on_resize : ℕ → ℕ → Canvas → Canvas
  unfolding on_plot
  on_resize w h c = if ltb 0 w && ltb 0 h then on_plot (set_size w h) c else c

  -- The tooltip's `onMove`, by `u.cursor.idx`, and the point that it shows.
  unfoldable pub on_hover : Option ℕ → Canvas → Canvas
  on_hover none c = record c { tip = none }
  on_hover (some i) c = record c { tip = if ltb i (length c.history) then some i else none }

  unfoldable pub tip_point : Canvas → Option Point
  tip_point c = elim c.tip [ none ↦ none | some i ↦ get_elem? c.history i ]

  pub data Event : Type 0 where
    rendered : ℕ → ℕ → Bool → List Point → Bool → Event
    resized : ℕ → ℕ → Event
    wheeled : Pointer A → A.Num → Event
    pressed : ℕ → A.Num → Event
    moved : Pointer A → Event
    released : Event
    hovered : Option ℕ → Event
    left : Event

  -- What the mounted chart does.
  unfoldable pub handle : Event → Canvas → Canvas
  unfolding render on_plot on_resize on_hover
  handle (rendered w h fresh pts is_spike) c = render w h fresh pts is_spike c
  handle (resized w h) c = on_resize w h c
  handle (wheeled m delta_y) c = on_plot (on_wheel A U m delta_y) c
  handle (pressed button x) c = elim c.plot [
    | none ↦ c
    | some u ↦ record c { drag = on_mouse_down A U button x u c.drag }
  ]
  handle (moved m) c = if c.drag.dragging then on_plot (on_mouse_move A U c.drag m) c else c
  handle released c = record c { drag = on_mouse_up A U c.drag }
  handle (hovered i) c = on_hover i c
  handle left c = record c { tip = none }

  unfoldable pub handle_all : List Event → Canvas → Canvas
  unfolding handle
  handle_all [] c = c
  handle_all (e ∷ es) c = handle_all es (handle e c)

  -- The clean-up of the effect that built the plot.
  unfoldable pub unmount : Canvas → Canvas
  unmount c = record c { plot = none }
