-- ===== src/Proto/Page/View.antt =====
-- What `App`, `TopBar` and `TweaksPanel` of mt-app.jsx draw, and what `App` hands to its views.
use Prim.Native.String.{◌++◌ as concat}
use micro_trace.Common.{
  ℕ, ltb, String, Bool, true, false, ◌&&◌, Option, none, some, List, [], ◌∷◌, length, select,
  is_some, if◌then◌else◌,
}
use micro_trace.Common.Arith.{Arith}
use micro_trace.Common.Dict.{Dict, lookup, values}
use micro_trace.Types.{ServiceSnapshot}
use micro_trace.App.{ViewMode, chosen}
use micro_trace.Mock.Chance.{World}
use micro_trace.Mock.Conn.{internal_services, includes}
use micro_trace.Proto.Data.{ProtoSnap, ProtoEvent}
use micro_trace.Proto.Page.{Tweaks, Page}

-- A pill of the bar: its text, and the three colours of `badgePill`.
pub record Pill : Type 0 where
  pub text : String
  pub bg : String
  pub border : String
  pub color : String

-- A control of the panel: its label, its value and, for a slider, its least and its greatest value and its step.
pub data Control : Type 0 where
  slider : (label : String) (value least greatest by : ℕ) (unit : String) → Control
  checkbox : (label : String) (checked : Bool) (text color : String) → Control

unfoldable pub tweaks_panel : Tweaks → List Control
tweaks_panel t =
    slider "Tick interval" t.tick_interval_ms 200 3000 100 "ms"
    ∷ checkbox "Show external" t.show_external (if t.show_external then "on" else "off")
        (if t.show_external then "#16a34a" else "#94a3b8")
    ∷ slider "Log height" t.log_panel_height 120 320 20 "px"
    ∷ []

module _ (A : Arith) (w : World A) where
  open A use {Num, num, show}

  abbrev count_text : ℕ → String
  count_text n = show (num n)

  pub record TopBar : Type 0 where
    pub status : String
    pub status_color : String
    pub pills : List Pill

  abbrev stressed_pill : ℕ → List Pill → List Pill
  stressed_pill n rest =
      if ltb 0 n
      then (record {
        text = concat "⚡ " (concat (count_text n) " stressed");
        bg = "#fff7ed";
        border = "#fed7aa";
        color = "#ea580c";
      })
        ∷ rest
      else rest

  abbrev spike_pill : ℕ → List Pill
  spike_pill n =
      if ltb 0 n
      then (record {
        text = concat "🔴 " (concat (count_text n) (concat " spike" (if ltb 1 n then "s" else "")));
        bg = "#fef2f2";
        border = "#fecaca";
        color = "#dc2626";
      })
        ∷ []
      else []

  unfoldable pub top_bar : Bool → ℕ → ℕ → ℕ → TopBar
  top_bar connected spike_count service_count stressed_count = record {
    status = if connected then "collector connected" else "reconnecting…";
    status_color = if connected then "#16a34a" else "#dc2626";
    pills =
        (record {
          text = concat (count_text service_count) " services";
          bg = "#f1f5f9";
          border = "#cbd5e1";
          color = "#475569";
        })
        ∷ stressed_pill stressed_count (spike_pill spike_count);
  }

  -- `selectedKey ? snapshots[selectedKey] : null`
  unfoldable pub selected_snap : Page A w → Option (ProtoSnap A w)
  selected_snap p = elim (chosen p.selected_key) [ none ↦ none | some k ↦ lookup k p.snapshots ]

  unfoldable pub dst_svc : Page A w → Option (ServiceSnapshot A)
  unfolding selected_snap
  dst_svc p = elim (selected_snap p) [ none ↦ none | some s ↦ lookup s.dst_service p.services ]

  unfoldable pub spike_count : Dict (ProtoSnap A w) → ℕ
  spike_count d = length (select (λ s. s.is_spike) (values d))

  unfoldable pub stressed_count : Dict (ServiceSnapshot A) → ℕ
  stressed_count d = length (select (λ s. is_some s.stress_kind) (values d))

  -- both ends are services of the cluster
  abbrev pub is_inside : ProtoSnap A w → Bool
  is_inside s = includes internal_services s.src_service && includes internal_services s.dst_service

  unfoldable pub visible_snapshots : Page A w → Dict (ProtoSnap A w)
  visible_snapshots p =
      if (p.tweaks).show_external then p.snapshots else select (λ e. is_inside e.1) p.snapshots

  -- The page: its bar, the figures' dictionaries, the view with the connections that it gets, the panel with the target's service, the log
  -- with its height, and the tweaks where they are shown.
  pub record AppView : Type 0 where
    pub bar : TopBar
    pub edges : String
    pub view_mode : ViewMode
    pub view_snapshots : Dict (ProtoSnap A w)
    pub spike_detected : Bool
    pub snap : Option (ProtoSnap A w)
    pub dst_service : Option (ServiceSnapshot A)
    pub log_height : ℕ
    pub log_count : ℕ
    pub latest : Option Num
    pub log : List (ProtoEvent A w)
    pub tweaks : Option (List Control)

  abbrev spiking : Option (ProtoSnap A w) → Bool
  spiking none = false
  spiking (some s) = s.is_spike

  abbrev latest_of : List (ProtoEvent A w) → Option Num
  latest_of [] = none
  latest_of (e ∷ es) = some e.timestamp

  unfoldable pub app_view : Page A w → AppView
  unfolding top_bar selected_snap dst_svc spike_count stressed_count visible_snapshots tweaks_panel
  app_view p = record {
    bar = top_bar true (spike_count p.snapshots) (length p.services) (stressed_count p.services);
    edges = concat (count_text (length (visible_snapshots p))) " edges";
    view_mode = p.view_mode;
    view_snapshots = visible_snapshots p;
    spike_detected = spiking (selected_snap p);
    snap = selected_snap p;
    dst_service = dst_svc p;
    log_height = (p.tweaks).log_panel_height;
    log_count = length p.events;
    latest = latest_of p.events;
    log = p.events;
    tweaks = if p.tweaks_visible then some (tweaks_panel p.tweaks) else none;
  }
