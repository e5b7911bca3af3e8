-- ===== src/Chart/Options.antt =====
-- What LatencyChart.tsx and ResourceChart.tsx each have of their own: points, series, axes, what is drawn behind the lines, the
-- tooltip's rows, and the window in which the chart is shown large.
use Prim.Native.String.{◌++◌ as concat}
use micro_trace.Common.{
  ℕ, String, Bool, true, false, Option, none, some, List, [], ◌∷◌, map, length, length-map, ◌≡◌,
  refl,
}
use micro_trace.Common.Arith.{Arith, max_num}
use micro_trace.Types.{HistoryPoint, ResourcePoint}
use micro_trace.Format.{fmt_us}
use micro_trace.Chart.{Uplot, Bounds}
use micro_trace.Chart.Latency.{Band, Flagged, latency_rows, resource_rows, calc_spike_bands}
use micro_trace.Chart.Canvas.{
  Engine, ChartKind, Canvas, blank, mount, render, on_resize, on_hover, tip_point,
}

-- A line of a chart: its width in tenths of a pixel, and whether it is dashed.
pub record Series : Type 0 where
  pub label : String
  pub stroke : String
  pub width : ℕ
  pub dashed : Bool

abbrev line : String → String → ℕ → Bool → Series
line label stroke width dashed = record {
  label = label;
  stroke = stroke;
  width = width;
  dashed = dashed;
}

unfoldable pub latency_series : List Series
latency_series =
    line "AVG" "#2563eb" 12 true
    ∷ line "P50" "#16a34a" 18 false
    ∷ line "P95" "#d97706" 18 false
    ∷ line "P99" "#ea580c" 24 false
    ∷ []

unfoldable pub resource_series : List Series
resource_series =
    line "CPU" "#dc2626" 20 false
    ∷ line "IO wait" "#7c3aed" 20 false
    ∷ line "Mem pressure" "#ea580c" 20 false
    ∷ []

-- A row of a tooltip.
pub record TipRow : Type 0 where
  pub label : String
  pub color : String
  pub value : String

abbrev tip_row : String → String → String → TipRow
tip_row label color value = record { label = label; color = color; value = value }

abbrev pub tip_key : TipRow → String × String
tip_key t = (t.label, t.color)

abbrev pub series_key : Series → String × String
series_key s = (s.label, s.stroke)

-- A rectangle over the whole height of the plot.
pub record Stripe (A : Arith) : Type 0 where
  pub left : A.Num
  pub width : A.Num

module _ (A : Arith) where
  open A use {Num, num, sub, mul, div, to_fixed, show}

  abbrev pub latency_kind : ChartKind A
  latency_kind = record {
    Point = Flagged A;
    rows = λ ps. latency_rows A (map (λ p. p.0) ps);
    bands = λ ps is_spike. calc_spike_bands A ps is_spike;
  }

  abbrev pub resource_kind : ChartKind A
  resource_kind = record {
    Point = ResourcePoint A;
    rows = λ ps. resource_rows A ps;
    bands = λ ps is_spike. [];
  }

  -- `y: { range: … }`
  unfoldable pub latency_y_range : Num → Num → Bounds A
  latency_y_range min max = record {
    min = max_num A (num 0) (mul min (div (num 85) (num 100)));
    max = mul max (div (num 115) (num 100));
  }

  abbrev y_label : Option Num → String
  y_label none = ""
  y_label (some v) = fmt_us A v

  unfoldable pub latency_y_labels : List (Option Num) → List String
  latency_y_labels vals = map y_label vals

  -- `drawAxes`; `x_px` is `Math.round(u.valToPos(…, 'x', true))`.
  unfoldable pub draw_bands : (Num → Num) → List (Band A) → List (Stripe A)
  draw_bands x_px bands =
      map
        (λ b. record {
          left = x_px b.from;
          width = max_num A (num 2) (sub (x_px b.to) (x_px b.from));
        })
        bands

  unfoldable pub latency_tip : Option (Flagged A) → List TipRow
  latency_tip none = []
  latency_tip (some (p, flag)) =
      tip_row "AVG" "#2563eb" (fmt_us A p.avg_us)
      ∷ tip_row "P50" "#16a34a" (fmt_us A p.p50_us)
      ∷ tip_row "P95" "#d97706" (fmt_us A p.p95_us)
      ∷ tip_row "P99" "#ea580c" (fmt_us A p.p99_us)
      ∷ []

  abbrev danger_pct : Num
  danger_pct = num 70

  unfoldable pub resource_y_range : Bounds A
  resource_y_range = record { min = num 0; max = num 100 }

  unfoldable pub resource_splits : List Num
  resource_splits = num 0 ∷ num 50 ∷ num 100 ∷ []

  abbrev percent_label : Option Num → String
  percent_label none = ""
  percent_label (some v) = concat (show v) "%"

  unfoldable pub resource_y_labels : List (Option Num) → List String
  resource_y_labels vals = map percent_label vals

  -- The height of the guide line; `y_px` is `Math.round(u.valToPos(…, 'y', true))`.
  unfoldable pub guide_line : (Num → Num) → Num
  guide_line y_px = y_px danger_pct

  abbrev percent_tip : Num → String
  percent_tip v = concat (to_fixed v 1) "%"

  unfoldable pub resource_tip : Option (ResourcePoint A) → List TipRow
  resource_tip none = []
  resource_tip (some p) =
      tip_row "CPU" "#dc2626" (percent_tip p.cpu_pct)
      ∷ tip_row "IO wait" "#7c3aed" (percent_tip p.io_wait_pct)
      ∷ tip_row "Mem pressure" "#ea580c" (percent_tip p.mem_pressure_pct)
      ∷ []

  -- What uPlot asks of its data holds in both charts: a row of times and then one row for each series, and every row as long as the
  -- history. The tooltips have a row for each series, in order, with its label and its colour.
  pub rows-series :
      (pts : List (HistoryPoint A)) (rpts : List (ResourcePoint A)) (p : Flagged A)
      (r : ResourcePoint A)
      → (map length (latency_rows A pts) ≡ length pts ∷ map (λ s. length pts) latency_series)
        × (map length (resource_rows A rpts) ≡ length rpts ∷ map (λ s. length rpts) resource_series)
        × (map tip_key (latency_tip (some p)) ≡ map series_key latency_series)
        × (map tip_key (resource_tip (some r)) ≡ map series_key resource_series)
  unfolding latency_rows resource_rows latency_series resource_series latency_tip resource_tip
  rows-series pts rpts p r = (simp length-map, simp length-map, refl, refl)

  module _ (U : Uplot A) (E : Engine A U) where
    -- The whole component: the chart in the page, and another one while the window is open.
    pub record ChartView (K : ChartKind A) : Type 1 where
      pub inline : Canvas A U E K
      pub modal : Option (Canvas A U E K)

    module _ (K : ChartKind A) where
      unfoldable pub open_modal : ℕ → ℕ → ChartView K → ChartView K
      open_modal w h v = record v {
        modal = some (mount A U E K w h (v.inline).history (v.inline).is_spike (blank A U E K));
      }

      unfoldable pub close_modal : ChartView K → ChartView K
      close_modal v = record v { modal = none }

    -- ResourceCanvas: its effect has no dependency, so that it builds its plot when it is mounted and never again.
    abbrev ResourceCanvas : Type 0
    ResourceCanvas = Canvas A U E resource_kind

    unfoldable pub resource_mount : ℕ → ℕ → List (ResourcePoint A) → ResourceCanvas
    resource_mount w h pts = mount A U E resource_kind w h pts false (blank A U E resource_kind)

    unfoldable pub resource_render :
        ℕ → ℕ → Bool → List (ResourcePoint A) → ResourceCanvas → ResourceCanvas
    resource_render w h fresh pts c = render A U E resource_kind w h fresh pts false c

    unfoldable pub resource_resize : ℕ → ℕ → ResourceCanvas → ResourceCanvas
    resource_resize w h c = on_resize A U E resource_kind w h c

    unfoldable pub resource_hover : Option ℕ → ResourceCanvas → List TipRow
    unfolding resource_tip
    resource_hover i c =
        resource_tip (tip_point A U E resource_kind (on_hover A U E resource_kind i c))

    -- LatencyCanvas, and its tooltip.
    abbrev LatencyCanvas : Type 0
    LatencyCanvas = Canvas A U E latency_kind

    unfoldable pub latency_mount : ℕ → ℕ → List (Flagged A) → Bool → LatencyCanvas
    latency_mount w h pts is_spike =
        mount A U E latency_kind w h pts is_spike (blank A U E latency_kind)

    unfoldable pub latency_hover : Option ℕ → LatencyCanvas → List TipRow
    unfolding latency_tip
    latency_hover i c = latency_tip (tip_point A U E latency_kind (on_hover A U E latency_kind i c))
