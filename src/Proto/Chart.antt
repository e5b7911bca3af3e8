-- ===== src/Proto/Chart.antt =====
-- design_handoff_microtrace/mt-chart.jsx: what the two charts and the little one draw on their canvases, as a list of strokes.
pub mod Limits
use Prim.Native.String.{◌++◌ as concat}
use micro_trace.Common.{
  ℕ, ◌+◌, ◌-◌, ltb, String, Bool, true, false, ◌&&◌, Option, none, some, List, [], ◌∷◌, ◌++◌, map,
  length, take_last, if◌then◌else◌,
}
use micro_trace.Common.Arith.{Arith, gt, ge, min_num, max_num}
use micro_trace.Types.{ResourcePoint}
use micro_trace.Format.{fmt_y_label}
use micro_trace.Mock.Chance.{World}
use micro_trace.Proto.Data.{ProtoPoint}
use micro_trace.Proto.Views.{least, greatest, or_one}

-- `fmt_time` is the clock time of a point, in the browser's zone.
module _ (A : Arith) (w : World A) (fmt_time : A.Num → String) where
  open A use {Num, num, lt, add, sub, mul, div, show}

  -- What is drawn: a filled rectangle, a path of corners (`closed` and filled, or stroked), a text, a frame.
  pub data Mark : Type 0 where
    fill_rect : (color : String) (x y width height : Num) → Mark
    polygon : (color : String) (corners : List (Num × Num)) → Mark
    line : (color : String) (dashed : Bool) (corners : List (Num × Num)) → Mark
    label : (text : String) (x y : Num) → Mark
    frame : (color : String) (x y width height : Num) → Mark

  -- The inner box and the two ranges: `cw`, `ch`, `tMin`, `tRange`, `yMin`, `yRange`.
  pub record Scale : Type 0 where
    pub cw : Num
    pub ch : Num
    pub t_min : Num
    pub t_range : Num
    pub y_min : Num
    pub y_range : Num

  abbrev left : Num
  left = num 56

  abbrev top : Num
  top = num 10

  unfoldable pub to_x : Scale → Num → Num
  to_x s t = add left (mul (div (sub t s.t_min) s.t_range) s.cw)

  unfoldable pub to_y : Scale → Num → Num
  to_y s v = add top (mul (sub (num 1) (div (sub v s.y_min) s.y_range)) s.ch)

  abbrev cents : ℕ → Num
  cents n = div (num n) (num 100)

  -- `pts.flatMap(p => [p.avg_us, p.p50_us, p.p95_us, p.p99_us])`
  unfoldable pub all_vals : List (ProtoPoint A w) → List Num
  all_vals [] = []
  all_vals (p ∷ ps) =
      (p.percs).avg_us ∷ (p.percs).p50_us ∷ (p.percs).p95_us ∷ (p.percs).p99_us ∷ all_vals ps

  abbrev last_time : Num → List Num → Num
  last_time t [] = t
  last_time t (u ∷ us) = last_time u us

  abbrev inner_width : Num → Num
  inner_width width = sub (sub width left) (num 14)

  abbrev inner_height : Num → Num
  inner_height height = sub (sub height top) (num 22)

  -- The range of the values: 15 percent of room, and no less than 500 in all.
  unfoldable pub y_limits : Num → List Num → Num × Num
  unfolding least greatest
  y_limits v vs =
      let y_max = mul (greatest A w v vs) (cents 115) in
      let y_min = max_num A (num 0) (mul (least A w v vs) (cents 85)) in
      if lt (sub y_max y_min) (num 500)
      then (max_num A (num 0) (sub y_min (num 200)), add y_max (num 500))
      else (y_min, y_max)

  unfoldable pub latency_scale : Num → Num → ProtoPoint A w → List (ProtoPoint A w) → Scale
  unfolding y_limits all_vals
  latency_scale width height p ps =
      let y = y_limits (p.percs).avg_us (all_vals (p ∷ ps)) in
      record {
        cw = inner_width width;
        ch = inner_height height;
        t_min = p.time;
        t_range = max_num A (sub (last_time p.time (map (λ q. q.time) ps)) p.time) (num 1);
        y_min = y.0;
        y_range = or_one A w (sub y.1 y.0);
      }

  abbrev corner : Scale → (ProtoPoint A w → Num) → ProtoPoint A w → Num × Num
  corner s f p = (to_x s p.time, to_y s (f p))

  unfoldable pub upper : ProtoPoint A w → Num
  upper p = add (p.percs).p50_us (mul (p.percs).jitter_us (cents 50))

  unfoldable pub lower : Scale → ProtoPoint A w → Num
  lower s p = max_num A s.y_min (sub (p.percs).p50_us (mul (p.percs).jitter_us (cents 50)))

  abbrev reversed : {X : Type 0} → List X → List X → List X
  reversed acc [] = acc
  reversed acc (x ∷ xs) = reversed (x ∷ acc) xs

  -- The band of the jitter: along the upper edge, and back along the lower.
  unfoldable pub jitter_band : Scale → List (ProtoPoint A w) → Mark
  unfolding to_x to_y upper lower
  jitter_band s pts =
      polygon "rgba(37,99,235,0.08)"
        (map (corner s upper) pts ++ map (corner s (lower s)) (reversed [] pts))

  abbrev grid_line : Scale → Num → String → List Mark → List Mark
  grid_line s v text rest =
      line "#f1f5f9" false ((left, to_y s v) ∷ (add left s.cw, to_y s v) ∷ [])
      ∷ label text (sub left (num 6)) (add (to_y s v) (num 3))
      ∷ rest

  -- The lines at v and above, of which n are left.
  unfoldable pub y_grid : Scale → ℕ → ℕ → List Mark → List Mark
  unfolding to_y
  y_grid s i ℕ.zero rest = rest
  y_grid s i (ℕ.suc n) rest =
      let v = add s.y_min (mul (div s.y_range (num 4)) (num i)) in
      grid_line s v (fmt_y_label A v) (y_grid s (i + 1) n rest)

  unfoldable pub time_label : Scale → Num → Num → Mark
  unfolding to_x
  time_label s height f =
      let t = add s.t_min (mul f s.t_range) in label (fmt_time t) (to_x s t) (sub height (num 6))

  abbrev time_labels : Scale → Num → List Mark
  unfolding time_label
  time_labels s height =
      time_label s height (num 0)
      ∷ time_label s height (cents 50)
      ∷ time_label s height (num 1)
      ∷ []

  abbrev spike_band : Bool → Scale → List Mark
  spike_band false s = []
  spike_band true s =
      fill_rect "rgba(220,38,38,0.04)" (add left (mul s.cw (cents 82))) top (mul s.cw (cents 18))
        s.ch
      ∷ []

  unfoldable pub latency_lines : Bool → Scale → List (ProtoPoint A w) → List Mark
  unfolding to_x to_y
  latency_lines is_spike s pts =
      line "#2563eb" true (map (corner s (λ p. (p.percs).avg_us)) pts)
      ∷ line "#16a34a" false (map (corner s (λ p. (p.percs).p50_us)) pts)
      ∷ line "#d97706" false (map (corner s (λ p. (p.percs).p95_us)) pts)
      ∷ line (if is_spike then "#dc2626" else "#ea580c") false
          (map (corner s (λ p. (p.percs).p99_us)) pts)
      ∷ []

  unfoldable pub latency_marks :
      Num → Num → Bool → ProtoPoint A w → List (ProtoPoint A w) → List Mark
  unfolding latency_scale y_grid jitter_band latency_lines time_labels
  latency_marks width height is_spike p ps =
      let s = latency_scale width height p ps in
      fill_rect "#ffffff" (num 0) (num 0) width height
      ∷ y_grid s 0 5 (
          spike_band is_spike s
          ++ jitter_band s (p ∷ ps)
            ∷ (latency_lines is_spike s (p ∷ ps)
                ++ (time_labels s height ++ frame "#e2e8f0" left top s.cw s.ch ∷ [])))

  -- `setupCanvas` gives nothing where the canvas has no area.
  abbrev pub has_area : Num → Num → Bool
  has_area width height = gt A width (num 0) && gt A height (num 0)

  abbrev drawn : {X : Type 0} → (X → List X → List Mark) → List X → Option (List Mark)
  drawn f [] = none
  drawn f (p ∷ ps) = some (f p ps)

  -- Fewer than two points, or no area: the canvas is left as it is. The latest 180 points are drawn.
  unfoldable pub draw_latency : Num → Num → Bool → List (ProtoPoint A w) → Option (List Mark)
  unfolding latency_marks
  draw_latency width height is_spike history =
      if ltb 1 (length history) && has_area width height
      then drawn (latency_marks width height is_spike) (take_last 180 history)
      else none

  unfoldable pub resource_scale : Num → Num → ResourcePoint A → List (ResourcePoint A) → Scale
  resource_scale width height p ps = record {
    cw = inner_width width;
    ch = inner_height height;
    t_min = p.time;
    t_range = max_num A (sub (last_time p.time (map (λ q. q.time) ps)) p.time) (num 1);
    y_min = num 0;
    y_range = sub (num 100) (num 0);
  }

  abbrev percent_line : Scale → ℕ → List Mark → List Mark
  unfolding to_y
  percent_line s v rest = grid_line s (num v) (concat (show (num v)) "%") rest

  abbrev series : Scale → String → (ResourcePoint A → Num) → List (ResourcePoint A) → Mark
  unfolding to_x to_y
  series s color f pts = line color false (map (λ p. (to_x s p.time, to_y s (f p))) pts)

  abbrev caption : Option String → List Mark
  caption none = []
  caption (some text) = label text (add left (num 4)) (add top (num 12)) ∷ []

  -- The guide at 70 percent, the grid, the three lines, the times and the label.
  unfoldable pub resource_marks :
      Num → Num → Option String → ResourcePoint A → List (ResourcePoint A) → List Mark
  unfolding resource_scale to_y percent_line series time_labels
  resource_marks width height text p ps =
      let s = resource_scale width height p ps in
      fill_rect "#ffffff" (num 0) (num 0) width height
      ∷ line "rgba(220,38,38,0.25)" true
          ((left, to_y s (num 70)) ∷ (add left s.cw, to_y s (num 70)) ∷ [])
      ∷ percent_line s 0 (
          percent_line s 50 (
            percent_line s 100 (
              series s "#dc2626" (λ q. q.cpu_pct) (p ∷ ps)
              ∷ series s "#7c3aed" (λ q. q.io_wait_pct) (p ∷ ps)
              ∷ series s "#ea580c" (λ q. q.mem_pressure_pct) (p ∷ ps)
              ∷ (time_labels s height
                  ++ (caption text ++ frame "#e2e8f0" left top s.cw s.ch ∷ [])))))

  unfoldable pub draw_resources :
      Num → Num → Option String → List (ResourcePoint A) → Option (List Mark)
  unfolding resource_marks
  draw_resources width height text history =
      if ltb 1 (length history) && has_area width height
      then drawn (resource_marks width height text) (take_last 180 history)
      else none

  -- `Sparkline`: the corners from the i-th on, of n.
  unfoldable pub spark_corners : ℕ → Num → Num → Num → Num → ℕ → List Num → List (Num × Num)
  spark_corners n width height low range i [] = []
  spark_corners n width height low range i (v ∷ vs) =
      (
        mul (div (num i) (sub (num n) (num 1))) width,
        sub (sub height (mul (div (sub v low) range) (sub height (num 4)))) (num 2),
      )
      ∷ spark_corners n width height low range (i + 1) vs

  unfoldable pub sparkline : String → Num → Num → List Num → Option (List Mark)
  unfolding least greatest spark_corners
  sparkline color width height [] = none
  sparkline color width height (v ∷ vs) =
      let low = least A w v vs in
      if ltb 1 (length (v ∷ vs)) && has_area width height
      then some (
          line color false (
            spark_corners (length (v ∷ vs)) width height low
              (or_one A w (sub (greatest A w v vs) low)) 0 (v ∷ vs))
          ∷ [])
      else none
