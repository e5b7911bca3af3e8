-- ===== src/Proto/Detail.antt =====
-- `DetailPanel` and `SpikeLog` of mt-panels.jsx.
-- `clock_text` is the clock time that `toTimeString` prints.
use Prim.Native.String.{◌++◌ as concat}
use micro_trace.Common.{ℕ, ltb, String, Bool, Option, none, some, List, [], ◌∷◌, map, if◌then◌else◌}
use micro_trace.Common.Arith.{Arith, gt}
use micro_trace.Types.{ServiceSnapshot, ResourcePoint, CauseKind, CloseStates, Severity}
use micro_trace.Detail.View.{Card}
use micro_trace.Log.{CauseMeta, cause_meta, severity_color}
use micro_trace.Mock.Chance.{World}
use micro_trace.Proto.Data.{ProtoPoint, ProtoSnap, ProtoEvent}
use micro_trace.Proto.Panels.{
  fmt_us, time_ago, p99_color, Candidate, cause_candidate, close_total, error_rate,
}

module _ (A : Arith) (w : World A) where
  open A use {Num, num, mul, div, to_fixed, show}

  -- Red above the one limit, amber above the other.
  abbrev graded : Num → ℕ → ℕ → String
  graded x high low =
      if gt A x (num high) then "#dc2626" else if gt A x (num low) then "#d97706" else "#475569"

  unfoldable pub percentile_cards : ProtoSnap A w → List Card
  unfolding p99_color
  percentile_cards snap =
      let p = snap.percs in
      record { label = "AVG"; value = fmt_us A w p.avg_us; color = "#2563eb" }
      ∷ record { label = "P50"; value = fmt_us A w p.p50_us; color = "#16a34a" }
      ∷ record { label = "P95"; value = fmt_us A w p.p95_us; color = "#d97706" }
      ∷ record { label = "P99"; value = fmt_us A w p.p99_us; color = p99_color A w p.p99_us }
      ∷ []

  unfoldable pub secondary_cards : ProtoSnap A w → List Card
  unfolding error_rate
  secondary_cards snap =
      let rate = error_rate A w snap.close_states in
      record {
        label = "Jitter";
        value = fmt_us A w (snap.percs).jitter_us;
        color = graded (snap.percs).jitter_us 5000 1000;
      }
      ∷ record {
        label = "Retransmits";
        value = show (num snap.retransmit_count);
        color = if ltb 10 snap.retransmit_count then "#ea580c" else "#475569";
      }
      ∷ record {
        label = "Error Rate";
        value = concat (to_fixed rate 1) "%";
        color = graded rate 5 1;
      }
      ∷ record {
        label = "Samples";
        value =
            if ltb 999 snap.sample_count
            then concat (to_fixed (div (num snap.sample_count) (num 1000)) 1) "k"
            else show (num snap.sample_count);
        color = "#475569";
      }
      ∷ []

  -- A part of the bar: its colour, its count and its width in percent.
  pub record ClosePart : Type 0 where
    pub color : String
    pub count : ℕ
    pub width : Num

  -- A state that never came has no part.
  abbrev close_part : ℕ → String → ℕ → List ClosePart → List ClosePart
  close_part total color n rest =
      if ltb 0 n
      then (record { color = color; count = n; width = mul (div (num n) (num total)) (num 100) })
        ∷ rest
      else rest

  unfoldable pub close_parts : CloseStates → List ClosePart
  close_parts c =
      let total = close_total A w c in
      close_part total "#16a34a" c.fin
        (close_part total "#dc2626" c.rst (close_part total "#ea580c" c.timeout []))

  -- The breakdown, where a connection was closed: the total, the parts, and the three counts under them.
  pub record CloseView : Type 0 where
    pub total : ℕ
    pub parts : List ClosePart
    pub counts : List (String × ℕ)

  unfoldable pub close_view : CloseStates → Option CloseView
  unfolding close_parts
  close_view c =
      if ltb 0 (close_total A w c)
      then some (record {
        total = close_total A w c;
        parts = close_parts c;
        counts = ("FIN", c.fin) ∷ ("RST", c.rst) ∷ ("TIMEOUT", c.timeout) ∷ [];
      })
      else none

  pub record DetailView : Type 0 where
    pub src : String
    pub dst : String
    pub candidate : Option (Candidate A w)
    pub cards : List Card
    pub more : List Card
    pub closes : Option CloseView
    pub points : List (ProtoPoint A w)
    pub is_spike : Bool
    pub resources : List (ResourcePoint A)

  abbrev points_of : Option (ServiceSnapshot A) → List (ResourcePoint A)
  points_of none = []
  points_of (some svc) = svc.history

  -- `none` is the hint to choose a connection.
  unfoldable pub detail_panel :
      Option (ProtoSnap A w) → Option (ServiceSnapshot A) → Option DetailView
  unfolding cause_candidate percentile_cards secondary_cards close_view
  detail_panel none dst_service = none
  detail_panel (some snap) dst_service = some (record {
    src = snap.src_service;
    dst = snap.dst_service;
    candidate = cause_candidate A w snap;
    cards = percentile_cards snap;
    more = secondary_cards snap;
    closes = close_view snap.close_states;
    points = snap.history;
    is_spike = snap.is_spike;
    resources = points_of dst_service;
  })

  pub record ProtoLogRow : Type 0 where
    pub color : String
    pub time : String
    pub src : String
    pub dst : String
    pub cause : Option CauseMeta
    pub p99 : String
    pub mult : String
    pub mult_bg : String
    pub ago : String

  abbrev meta_of : Option CauseKind → Option CauseMeta
  meta_of none = none
  meta_of (some kind) = some (cause_meta kind)

  abbrev mult_bg_of : Severity → String
  mult_bg_of Severity.critical = "#fee2e2"
  mult_bg_of Severity.warning = "#fef3c7"

  unfoldable pub proto_log_row : (Num → String) → Num → ProtoEvent A w → ProtoLogRow
  unfolding time_ago
  proto_log_row clock_text now ev = record {
    color = severity_color ev.severity;
    time = clock_text ev.timestamp;
    src = ev.src;
    dst = ev.dst;
    cause = meta_of ev.cause_kind;
    p99 = concat "P99 " (fmt_us A w ev.p99_us);
    mult = concat (to_fixed (div ev.p99_us ev.baseline_us) 0) "×";
    mult_bg = mult_bg_of ev.severity;
    ago = time_ago A w now ev.timestamp;
  }

  -- `none` is the line that all is well.
  unfoldable pub spike_log :
      (Num → String) → Num → List (ProtoEvent A w) → Option (List ProtoLogRow)
  unfolding proto_log_row
  spike_log clock_text now [] = none
  spike_log clock_text now (ev ∷ evs) = some (map (proto_log_row clock_text now) (ev ∷ evs))
