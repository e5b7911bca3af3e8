-- ===== src/Detail/View.antt =====
-- What DetailPanel.tsx draws: the cards of a connection, its close states, the range buttons, and the panel of a service.
use Prim.Native.String.{◌++◌ as concat}
use micro_trace.Common.{
  ℕ, ltb, String, Bool, ◌||◌, true, false, Option, none, some, List, [], ◌∷◌, map, select,
  if◌then◌else◌, ◌≡◌, refl,
}
use micro_trace.Common.Arith.{Arith, gt, min_num}
use micro_trace.Types.{
  StatSnapshot, ServiceSnapshot, CloseStates, HistoryPoint, ResourcePoint, CauseKind,
}
use micro_trace.Format.{latency_status, status_color, fmt_us}
use micro_trace.Detail.{
  RangeKey, hour_1, hour_6, hour_24, day_7, all, Chip, RangeState, banner, close_total,
  display_history,
}

-- A card: its label, its text and its colour.
pub record Card : Type 0 where
  pub label : String
  pub value : String
  pub color : String

pub record RangeButton : Type 0 where
  pub label : String
  pub active : Bool
  -- `null` is the live chart
  pub range : Option RangeKey

abbrev same_range : Option RangeKey → Option RangeKey → Bool
same_range none none = true
same_range (some hour_1) (some hour_1) = true
same_range (some hour_6) (some hour_6) = true
same_range (some hour_24) (some hour_24) = true
same_range (some day_7) (some day_7) = true
same_range (some all) (some all) = true
same_range _ _ = false

abbrev range_button : Option RangeKey → String → Option RangeKey → RangeButton
range_button now label r = record { label = label; active = same_range now r; range = r }

unfoldable pub range_buttons : Option RangeKey → List RangeButton
range_buttons now =
    range_button now "Live" none
    ∷ range_button now "1h" (some hour_1)
    ∷ range_button now "6h" (some hour_6)
    ∷ range_button now "24h" (some hour_24)
    ∷ range_button now "7d" (some day_7)
    ∷ range_button now "All" (some all)
    ∷ []

module _ (A : Arith) where
  open A use {Num, num, lt, mul, div, to_fixed, show}

  unfoldable pub percentile_cards : StatSnapshot A → List Card
  percentile_cards snap =
      record { label = "AVG"; value = fmt_us A snap.avg_us; color = "#2563eb" }
      ∷ record { label = "P50"; value = fmt_us A snap.p50_us; color = "#16a34a" }
      ∷ record { label = "P95"; value = fmt_us A snap.p95_us; color = "#d97706" }
      ∷ record {
        label = "P99";
        value = fmt_us A snap.p99_us;
        color = status_color (latency_status A snap.p99_us);
      }
      ∷ []

  abbrev muted : String
  muted = "var(--text-muted)"

  unfoldable pub secondary_cards : StatSnapshot A → List Card
  secondary_cards snap =
      record { label = "Jitter"; value = fmt_us A snap.jitter_us; color = muted }
      ∷ record {
        label = "Retransmits";
        value = show (num snap.retransmit_count);
        color = if ltb 0 snap.retransmit_count then "#ea580c" else muted;
      }
      ∷ record { label = "Samples"; value = show (num snap.sample_count); color = muted }
      ∷ record { label = "Threshold"; value = fmt_us A snap.spike_threshold_us; color = muted }
      ∷ []

  -- A part of the bar of close states: its share in percent, and its count.
  pub record CloseShare : Type 0 where
    pub label : String
    pub color : String
    pub percent : Num
    pub count : ℕ

  abbrev close_share : ℕ → String → String → ℕ → CloseShare
  close_share total label color n = record {
    label = label;
    color = color;
    percent = mul (div (num n) (num total)) (num 100);
    count = n;
  }

  -- The bar is there only where a connection was closed.
  unfoldable pub close_bar : Option CloseStates → List CloseShare
  unfolding close_total
  close_bar none = []
  close_bar (some c) =
      let total = close_total A (some c) in
      if ltb 0 total
      then close_share total "FIN" "#16a34a" c.fin
        ∷ close_share total "RST" "#dc2626" c.rst
        ∷ close_share total "TIMEOUT" "#ea580c" c.timeout
        ∷ []
      else []

  -- A figure of a service: its text, the width of its bar in percent, and whether it is over 70.
  pub record Gauge : Type 0 where
    pub label : String
    pub value : String
    pub width : Num
    pub color : String
    pub hot : Bool

  unfoldable pub gauge : String → String → Num → Gauge
  gauge label color value = record {
    label = label;
    value = concat (to_fixed value 2) "%";
    width = min_num A (num 100) value;
    color = color;
    hot = gt A value (num 70);
  }

  -- The panel of a service: its name, and its figures with its chart where resource data have come.
  pub record NodePanel : Type 0 where
    pub name : String
    pub gauges : List Gauge
    pub chart : Option (List (ResourcePoint A))

  unfoldable pub node_panel : String → Option (ServiceSnapshot A) → NodePanel
  unfolding gauge
  node_panel name none = record { name = name; gauges = []; chart = none }
  node_panel name (some svc) = record {
    name = name;
    gauges =
        gauge "CPU" "#dc2626" svc.cpu_pct
        ∷ gauge "IO Wait" "#7c3aed" svc.io_wait_pct
        ∷ gauge "Mem Pressure" "#ea580c" svc.mem_pressure_pct
        ∷ gauge "CPU Throttle" "#f59e0b" svc.cpu_throttle_pct
        ∷ [];
    chart = some svc.history;
  }

  -- `{snap.baseline_us && …}`: where the figure is 0 (or not a number), React prints the figure itself.
  unfoldable pub over_baseline : StatSnapshot A → Option String
  unfolding banner
  over_baseline snap = elim (banner A snap) [
    | none ↦ none
    | some b ↦ elim snap.baseline_us [
      | none ↦ none
      | some base ↦
          if lt base (num 0) || lt (num 0) base
          then some (concat (to_fixed (div snap.p99_us base) 1) "× baseline")
          else some (show base)
    ]
  ]

  -- The panel of a connection, with the points of its chart.
  pub record EdgePanel : Type 0 where
    pub src : String
    pub dst : String
    pub banner : Option (CauseKind × List (Chip A))
    pub multiple : Option String
    pub cards : List Card
    pub more : List Card
    pub closes : List CloseShare
    pub buttons : List RangeButton
    pub points : List (HistoryPoint A)
    pub spiking : Bool

  unfoldable pub edge_panel : StatSnapshot A → List (HistoryPoint A) → RangeState A → EdgePanel
  unfolding over_baseline percentile_cards secondary_cards close_bar range_buttons
  edge_panel snap live s = record {
    src = snap.src_service;
    dst = snap.dst_service;
    banner = banner A snap;
    multiple = over_baseline snap;
    cards = percentile_cards snap;
    more = secondary_cards snap;
    closes = close_bar snap.close_states;
    buttons = range_buttons s.range;
    points = display_history A live s;
    spiking = snap.is_spike;
  }

  -- In every state one range button is lit: that of the state's range, and `Live` where it has none.
  pub edge_panel-lit :
      (snap : StatSnapshot A) (live : List (HistoryPoint A)) (s : RangeState A)
      → map (λ b. b.range) (select (λ b. b.active) (edge_panel snap live s).buttons) ≡ s.range ∷ []
  unfolding edge_panel range_buttons
  edge_panel-lit snap live s = lit s.range
    where
      lit :
          (r : Option RangeKey)
          → map (λ b. b.range) (select (λ b. b.active) (range_buttons r)) ≡ r ∷ []
      lit none = refl
      lit (some hour_1) = refl
      lit (some hour_6) = refl
      lit (some hour_24) = refl
      lit (some day_7) = refl
      lit (some all) = refl
