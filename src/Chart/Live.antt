-- ===== src/Chart/Live.antt =====
-- What the charts of LatencyChart.tsx and ResourceChart.tsx show after any use: which data, and which part of them.
use micro_trace.Common.{ltb, length, ℕ, Bool, true, false, Option, none, some, ◌≡◌}
use micro_trace.Common.Arith.{Arith}
use micro_trace.Chart.{Data, first_row, Uplot, is_full_range}
use micro_trace.Chart.Canvas.{Engine, ChartKind, Canvas}

-- The data have a point.
abbrev pub has_points : (A : Arith) → Data A → Bool
has_points A d = ltb 0 (length (first_row A d))

-- A new plot, and one that takes data with a reset of its scales, shows them all, where there are any; `setSize` keeps the data; and a plot
-- whose x scale moves runs its `setScale` hooks.
pub record IsEngine (A : Arith) (U : Uplot A) (E : Engine A U) : Type 0 where
  pub data-new_plot : (w h : ℕ) (d : Data A) → U.data_of (E.new_plot w h d) ≡ d
  pub full-new_plot :
      (w h : ℕ) (d : Data A) → has_points A d ≡ true → is_full_range A U (E.new_plot w h d) ≡ true
  pub full-set_data :
      (d : Data A) (u : U.Plot)
      → has_points A d ≡ true
      → is_full_range A U (U.set_data d true u) ≡ true
  pub data-set_size : (w h : ℕ) (u : U.Plot) → U.data_of (E.set_size w h u) ≡ U.data_of u
  pub still_min : (u v : U.Plot) → E.announces u v ≡ false → U.x_min v ≡ U.x_min u
  pub still_max : (u v : U.Plot) → E.announces u v ≡ false → U.x_max v ≡ U.x_max u

module _ (A : Arith) (U : Uplot A) (E : Engine A U) (K : ChartKind A) where
  open U use {Plot, data_of, x_min, x_max, set_scale, set_data}
  open E use {announces}
  open K use {Point, rows, bands}

  abbrev pub Tracks : Option Plot → Bool → Data A → Type 0
  Tracks none zoomed d = ⊥
  Tracks (some u) zoomed d =
      (data_of u ≡ d) × (zoomed ≡ false → has_points A d ≡ true → is_full_range A U u ≡ true)

  -- There is a plot. It has the chart's data, and it shows them all, if there are any, unless the user is held to have zoomed.
  abbrev pub IsTracking : Canvas A U E K → Type 0
  IsTracking c = Tracks c.plot c.user_zoomed (rows c.history)
