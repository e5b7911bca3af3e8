-- ===== src/Chart/Renders.antt =====
-- What new props do to the charts of LatencyChart.tsx and ResourceChart.tsx.
use micro_trace.Common.{ℕ, Bool, true, false, not, some, List, if◌then◌else◌, ◌≡◌, refl, ◌∙◌}
use micro_trace.Common.Arith.{Arith}
use micro_trace.Chart.{Uplot, IsUplot, apply_data}
use micro_trace.Chart.Canvas.{Engine, ChartKind, Canvas, changed, feed, render}
use micro_trace.Chart.Live.{IsEngine}

module _ (A : Arith) (U : Uplot A) (E : Engine A U) (K : ChartKind A) where
  open U use {Plot, data_of, x_min, x_max, set_scale, set_data}
  open K use {Point, rows, bands}

  module _ (laws : IsUplot A U) (engine : IsEngine A U E) where
    same : (b : Bool) → (if b then b else not b) ≡ true
    same true = refl
    same false = refl

    -- New data, while no spike begins or ends, leave a chart that the user has zoomed with the range that it shows, and its plot has the
    -- new data. The plot is as documented (`IsUplot`, `IsEngine`).
    pub render-keeps :
        (w h : ℕ) (pts : List Point) (c : Canvas A U E K) (u : Plot)
        → c.plot ≡ some u
        → c.user_zoomed ≡ true
        → (v : Plot) × ((render A U E K w h true pts c.is_spike c).plot ≡ some v)
          × (x_min v ≡ x_min u)
          × (x_max v ≡ x_max u)
          × (data_of v ≡ rows pts)
    unfolding render feed changed apply_data
    render-keeps w h pts c u p z = (
      set_scale (x_min u) (x_max u) (set_data (rows pts) false u),
      rw (same c.is_spike, p, z) refl,
      laws.x_min-set_scale _ _ _,
      laws.x_max-set_scale _ _ _,
      laws.data_of-set_scale _ _ _ ∙ laws.data_of-set_data _ _ _,
    )
