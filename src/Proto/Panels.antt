-- ===== src/Proto/Panels.antt =====
-- design_handoff_microtrace/mt-panels.jsx: the figures, the cause of a spike, the panel of a connection and the log.
use Prim.Native.String.{◌++◌ as concat}
use micro_trace.Common.{
  ℕ, ◌+◌, ◌/◌, ltb, String, Bool, false, Option, none, some, List, [], ◌∷◌, length, select, or_else,
  is_some, if◌then◌else◌,
}
use micro_trace.Common.Arith.{Arith, gt}
use micro_trace.Common.Dict.{Dict, values}
use micro_trace.Types.{ServiceSnapshot, CauseKind, CloseStates}
use micro_trace.Detail.View.{Card}
use micro_trace.Log.{CauseMeta, cause_meta}
use micro_trace.Mock.Chance.{World}
use micro_trace.Mock.Conn.{internal_services}
use micro_trace.Proto.Data.{ProtoSnap}
use micro_trace.Proto.Views.{v_fmt_us}

module _ (A : Arith) (w : World A) where
  open A use {Num, num, lt, add, sub, mul, div, floor, to_fixed, show}

  -- `fmtUs` has the text of `vFmtUs`.
  abbrev pub fmt_us : Num → String
  fmt_us us = v_fmt_us A w us

  unfoldable pub time_ago : Num → Num → String
  time_ago now ts =
      let s = floor (div (sub now ts) (num 1000)) in
      if ltb s 60
      then concat (show (num s)) "s ago"
      else if ltb s 3600
      then concat (show (num (s / 60))) "m ago"
      else concat (show (num (s / 3600))) "h ago"

  -- A card of the row of figures.
  pub record StatCard : Type 0 where
    pub label : String
    pub value : String
    pub sub : Option String
    pub color : String
    pub highlight : Bool

  -- `snaps.reduce((s, x) => s + fn(x), 0)`
  unfoldable pub sum_up : (ProtoSnap A w → Num) → Num → List (ProtoSnap A w) → Num
  sum_up f acc [] = acc
  sum_up f acc (s ∷ snaps) = sum_up f (add acc (f s)) snaps

  unfoldable pub sum_retrans : ℕ → List (ProtoSnap A w) → ℕ
  sum_retrans acc [] = acc
  sum_retrans acc (s ∷ snaps) = sum_retrans (acc + s.retransmit_count) snaps

  abbrev pub count_if : {X : Type 0} → (X → Bool) → List X → ℕ
  count_if p xs = length (select p xs)

  unfoldable pub p99_color : Num → String
  p99_color p99 =
      if gt A p99 (num 100000)
      then "#dc2626"
      else if gt A p99 (num 20000)
      then "#ea580c"
      else if gt A p99 (num 5000)
      then "#d97706"
      else "#16a34a"

  abbrev text : ℕ → String
  text n = show (num n)

  -- `CPU:… IO:… MEM:…`
  unfoldable pub hot_text : List (ServiceSnapshot A) → String
  hot_text svcs = concat "CPU:" (
      concat (text (count_if (λ s. gt A s.cpu_pct (num 70)) svcs)) (
        concat " IO:" (
          concat (text (count_if (λ s. gt A s.io_wait_pct (num 30)) svcs))
            (concat " MEM:" (text (count_if (λ s. gt A s.mem_pressure_pct (num 70)) svcs))))))

  abbrev stat_card : String → String → Option String → String → Bool → StatCard
  stat_card label value sub color highlight = record {
    label = label;
    value = value;
    sub = sub;
    color = color;
    highlight = highlight;
  }

  abbrev metric_cards : List (ProtoSnap A w) → List (ServiceSnapshot A) → List StatCard
  unfolding sum_up sum_retrans p99_color hot_text
  metric_cards snaps svcs =
      let n = num (length snaps) in
      let gp95 = div (sum_up (λ s. (s.percs).p95_us) (num 0) snaps) n in
      let gp99 = div (sum_up (λ s. (s.percs).p99_us) (num 0) snaps) n in
      let spikes = count_if (λ s. s.is_spike) snaps in
      let stressed = count_if (λ s. is_some s.stress_kind) svcs in
      let retrans = sum_retrans 0 snaps in
      stat_card "Global P95" (fmt_us gp95) none "#d97706" false
      ∷ stat_card "Global P99" (fmt_us gp99) none (p99_color gp99) (gt A gp99 (num 20000))
      ∷ stat_card "Active Spikes" (text spikes)
          (some (if ltb 0 spikes then "analyzing causes…" else "all normal"))
          (if ltb 0 spikes then "#dc2626" else "#94a3b8") (ltb 0 spikes)
      ∷ stat_card "Stressed Svcs" (text stressed) (some (hot_text svcs))
          (if ltb 0 stressed then "#ea580c" else "#94a3b8") (ltb 0 stressed)
      ∷ stat_card "Retransmits" (text retrans) (some "cumulative")
          (if ltb 20 retrans then "#ea580c" else "#475569") false
      ∷ stat_card "Connections" (text (length snaps))
          (some (concat (text (length internal_services)) " svcs")) "#2563eb" false
      ∷ []

  -- `GlobalMetrics`: nothing while there is no connection.
  unfoldable pub global_metrics :
      Dict (ProtoSnap A w) → Dict (ServiceSnapshot A) → Option (List StatCard)
  unfolding metric_cards
  global_metrics snapshots services = elim (values snapshots) [
    | [] ↦ none
    | s ∷ snaps ↦ some (metric_cards (s ∷ snaps) (values services))
  ]

  -- A chip of the evidence: its label, its value and its colour.
  abbrev chip_if : Bool → Card → List Card → List Card
  chip_if test c rest = if test then c ∷ rest else rest

  unfoldable pub evidence : ProtoSnap A w → List Card
  evidence snap =
      chip_if (gt A snap.dst_cpu_pct (num 70))
        (record {
          label = "CPU";
          value = concat (to_fixed snap.dst_cpu_pct 0) "%";
          color = "#dc2626";
        })
        (chip_if (gt A snap.dst_io_wait_pct (num 30))
          (record {
            label = "IO wait";
            value = concat (to_fixed snap.dst_io_wait_pct 0) "%";
            color = "#7c3aed";
          })
          (chip_if (gt A snap.dst_mem_pressure_pct (num 70))
            (record {
              label = "Mem";
              value = concat (to_fixed snap.dst_mem_pressure_pct 0) "%";
              color = "#ea580c";
            })
            (chip_if (ltb 0 snap.retransmit_count)
              (record { label = "Retrans"; value = text snap.retransmit_count; color = "#2563eb" })
              [])))

  -- `CauseCandidate`: the cause, the multiple of the base line, and the evidence.
  pub record Candidate : Type 0 where
    pub meta : CauseMeta
    pub mult : String
    pub evidence : List Card

  unfoldable pub cause_candidate : ProtoSnap A w → Option Candidate
  unfolding evidence
  cause_candidate snap =
      if snap.is_spike
      then some (record {
        meta = cause_meta (or_else snap.cause_kind CauseKind.network);
        mult =
            concat (to_fixed (div (snap.percs).p99_us (div snap.spike_threshold_us (num 5))) 1)
              "× baseline";
        evidence = evidence snap;
      })
      else none

  abbrev pub close_total : CloseStates → ℕ
  close_total c = c.fin + c.rst + c.timeout

  unfoldable pub error_rate : CloseStates → Num
  error_rate c =
      if ltb 0 (close_total c)
      then mul (div (num (c.rst + c.timeout)) (num (close_total c))) (num 100)
      else num 0
