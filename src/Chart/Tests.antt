-- ===== src/Chart/Tests.antt =====
-- The theorems about the charts at concrete plots, over the natural numbers.
use micro_trace.Common.{
  some, if◌then◌else◌, ◌+◌, ℕ, true, false, List, [], ◌∷◌, map, ◌≡◌, refl, arith,
}
use micro_trace.Common.Arith.{nat_arith, nat_arith-IsOrdered, max_num, min_num}
use micro_trace.Common.Order.{AtMost}
use micro_trace.Types.{HistoryPoint, ResourcePoint}
use micro_trace.Chart.{
  Data, Uplot, IsUplot, Pointer, Drag, clamp, zoom, zoom_range, data_bounds, on_wheel,
  on_mouse_move, is_full_range,
}
use micro_trace.Chart.PanZoom.{wheel_width, on_wheel_bounds, moves, on_mouse_move_drag}
use micro_trace.Chart.Latency.{Flagged, calc_spike_bands}
use micro_trace.Chart.{first_row}
use micro_trace.Chart.Canvas.{
  Engine, Canvas, blank, mount, rebuild, feed, render, Event, rendered, resized, wheeled, pressed,
  moved, released, hovered, left,
}
use micro_trace.Chart.Live.{IsEngine}
use micro_trace.Chart.Renders.{render-keeps}
use micro_trace.Chart.Options.{latency_kind}
use micro_trace.Chart.Latency.{latency_rows}

-- A plot that keeps what it is told.
record Screen : Type 0 where
  rows : Data nat_arith
  left : ℕ
  right : ℕ

abbrev screen : Uplot nat_arith
screen = record {
  Plot = Screen;
  data_of = λ u. u.rows;
  x_min = λ u. u.left;
  x_max = λ u. u.right;
  set_scale = λ a b u. record u { left = a; right = b };
  set_data = λ d r u. record u { rows = d };
}

screen-IsUplot : IsUplot nat_arith screen
screen-IsUplot = record {
  x_min-set_scale = λ a b u. refl;
  x_max-set_scale = λ a b u. refl;
  data_of-set_scale = λ a b u. refl;
  data_of-set_data = λ d r u. refl;
}

abbrev plot : Screen
plot = record { rows = (100 ∷ 160 ∷ 220 ∷ []) ∷ []; left = 110; right = 170 }

abbrev middle : Pointer nat_arith
middle = record { client_x = 400; left = 0; width = 400 }

abbrev drag : Drag nat_arith
drag = record { dragging = true; start_x = 0; start_min = 110; start_max = 170 }

zoomed_in : (on_wheel nat_arith screen middle 0 plot).right ≡ 170
unfolding on_wheel zoom zoom_range data_bounds clamp max_num min_num
zoomed_in = refl

abbrev shown : Screen
shown = on_wheel nat_arith screen middle 0 plot

abbrev width : ℕ
width = wheel_width nat_arith nat_arith-IsOrdered screen screen-IsUplot 0 plot

on_wheel_bounds_example :
    (shown.right ≡ shown.left + width)
    × AtMost nat_arith (min_num nat_arith 10 120) width
    × AtMost nat_arith width 120
    × AtMost nat_arith 100 shown.left
    × (shown.rows ≡ plot.rows)
unfolding data_bounds
on_wheel_bounds_example =
    on_wheel_bounds nat_arith nat_arith-IsOrdered screen screen-IsUplot middle 0 plot

abbrev dragged : Screen
dragged =
    on_mouse_move nat_arith screen drag middle
      (moves nat_arith nat_arith-IsOrdered screen screen-IsUplot drag (middle ∷ []) plot)

on_mouse_move_drag_example :
    (dragged.left ≡ (on_mouse_move nat_arith screen drag middle plot).left)
    × (dragged.right ≡ (on_mouse_move nat_arith screen drag middle plot).right)
    × (dragged.right ≡ dragged.left + 60)
    × AtMost nat_arith 100 dragged.left
    × (dragged.rows ≡ plot.rows)
unfolding data_bounds
on_mouse_move_drag_example =
    on_mouse_move_drag nat_arith nat_arith-IsOrdered screen screen-IsUplot drag (middle ∷ []) middle
      plot refl

abbrev point_at : ℕ → HistoryPoint nat_arith
point_at t = record {
  time = t;
  latest_srtt_us = 900;
  avg_us = 950;
  p50_us = 900;
  p95_us = 2000;
  p99_us = 9000;
  jitter_us = 40;
}

abbrev flagged_points : List (Flagged nat_arith)
flagged_points =
    (point_at 1000, false)
    ∷ (point_at 2000, true)
    ∷ (point_at 3000, true)
    ∷ (point_at 4000, false)
    ∷ (point_at 5000, true)
    ∷ []

abbrev clean_points : List (Flagged nat_arith)
clean_points = (point_at 1000, false) ∷ (point_at 2000, false) ∷ (point_at 3000, false) ∷ []

two_bands :
    calc_spike_bands nat_arith flagged_points true
    ≡ record { from = 2; to = 3 } ∷ record { from = 5; to = 5 } ∷ []
unfolding calc_spike_bands
two_bands = refl

abbrev three_points : List (HistoryPoint nat_arith)
three_points = point_at 1000 ∷ point_at 2000 ∷ point_at 3000 ∷ []

-- Plots that show all of their data when they are new or take data with a reset.
abbrev whole : Data nat_arith → Screen
whole d = record {
  rows = d;
  left = (data_bounds nat_arith (first_row nat_arith d)).min;
  right = (data_bounds nat_arith (first_row nat_arith d)).max;
}

abbrev live : Uplot nat_arith
live = record screen { set_data = λ d r u. if r then whole d else record u { rows = d } }

live-IsUplot : IsUplot nat_arith live
live-IsUplot = record {
  x_min-set_scale = λ a b u. refl;
  x_max-set_scale = λ a b u. refl;
  data_of-set_scale = λ a b u. refl;
  data_of-set_data = λ d r u. ground arith;
}

abbrev engine : Engine nat_arith live
engine = record {
  new_plot = λ w h d. whole d;
  set_size = λ w h u. u;
  announces_new = λ u. true;
  announces = λ u v. true;
}

whole-full : (d : Data nat_arith) → is_full_range nat_arith live (whole d) ≡ true
unfolding is_full_range
whole-full d = ground arith

engine-IsEngine : IsEngine nat_arith live engine
engine-IsEngine = record {
  data-new_plot = λ w h d. refl;
  full-new_plot = λ w h d p. whole-full d;
  full-set_data = λ d u p. whole-full d;
  data-set_size = λ w h u. refl;
  still_min = λ u v e. cc;
  still_max = λ u v e. cc;
}

abbrev reading : ResourcePoint nat_arith
reading = record {
  time = 1000;
  cpu_pct = 20;
  io_wait_pct = 3;
  mem_pressure_pct = 10;
  cpu_throttle_pct = 0;
}

abbrev LiveCanvas : Type 0
LiveCanvas = Canvas nat_arith live engine (latency_kind nat_arith)

abbrev mounted : LiveCanvas
mounted =
    mount nat_arith live engine (latency_kind nat_arith) 0 0 flagged_points true
      (blank nat_arith live engine (latency_kind nat_arith))

abbrev uses : List (Event nat_arith live engine (latency_kind nat_arith))
uses =
    wheeled middle 0
    ∷ pressed 0 100
    ∷ moved middle
    ∷ released
    ∷ resized 800 300
    ∷ hovered (some 1)
    ∷ rendered 800 300 true clean_points true
    ∷ left
    ∷ []

abbrev zoomed : LiveCanvas
zoomed = record mounted { plot = some plot; user_zoomed = true }

render-keeps_example :
    (v : Screen) × ((render nat_arith live engine
        (latency_kind nat_arith)
        800
        300
        true
        clean_points
        true
        zoomed).plot
      ≡ some v)
    × (v.left ≡ 110)
    × (v.right ≡ 170)
    × (v.rows ≡ latency_rows nat_arith (map (λ p. p.0) clean_points))
unfolding mount rebuild feed
render-keeps_example =
    render-keeps nat_arith live engine (latency_kind nat_arith) live-IsUplot engine-IsEngine 800 300
      clean_points zoomed plot refl refl
