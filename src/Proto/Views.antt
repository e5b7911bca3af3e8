-- ===== src/Proto/Views.antt =====
-- design_handoff_microtrace/mt-views.jsx: the list of connections, the matrix and the little charts of the prototype.
pub mod Order
use Prim.Native.String.{◌++◌ as concat}
use micro_trace.Common.{
  ℕ, suc, ◌+◌, ◌-◌, ltb, String, Bool, true, false, not, ◌&&◌, ◌||◌, Option, none, some, List, [],
  ◌∷◌, ◌++◌, map, length, select, take_last, is_some, if◌then◌else◌, str_eq,
}
use micro_trace.Common.Arith.{Arith, gt, ge, min_num, max_num}
use micro_trace.Common.Dict.{Dict, lookup, insert, values}
use micro_trace.Common.Sort.{sort}
use micro_trace.Types.{ServiceSnapshot, CauseKind, Side}
use micro_trace.Format.{Status, latency_status, status_color, status_bg}
use micro_trace.Metrics.{add_name}
use micro_trace.ListView.{
  FilterMode, all, spiking, stressed, SortCol, connection, p50, p95, p99, retrans, same_col,
  ListState, SortDir, asc, desc, flip,
}
use micro_trace.Log.{CauseMeta}
use micro_trace.Mock.Chance.{World}
use micro_trace.Proto.Data.{ProtoSnap}

-- `sortKey` is one of the columns of ConnectionListView.tsx, by the name of its field.
unfoldable pub set_sort : SortCol → ListState → ListState
set_sort key s =
    if same_col key s.sort_col
    then record s { sort_dir = flip s.sort_dir }
    else record s { sort_col = key; sort_dir = desc }

-- `V_CAUSE_META`, whose label of a disk is shorter than in the panels
abbrev pub v_cause_meta : CauseKind → String × String × String
v_cause_meta CauseKind.network = ("Network", "#2563eb", "🌐")
v_cause_meta CauseKind.cpu = ("CPU", "#dc2626", "🔥")
v_cause_meta CauseKind.io = ("I/O", "#7c3aed", "💾")
v_cause_meta CauseKind.memory = ("Memory", "#ea580c", "🧠")
v_cause_meta CauseKind.external = ("External", "#d97706", "🔌")

abbrev pub status_name : Status → String
status_name Status.ok = "ok"
status_name Status.warning = "warning"
status_name Status.high = "high"
status_name Status.critical = "critical"

-- `selectedKey === key`
abbrev pub is_selected : Option String → String → Bool
is_selected none key = false
is_selected (some k) key = str_eq k key

abbrev is_external : Side → Bool
is_external Side.external = true
is_external Side.internal = false

module _ (A : Arith) (w : World A) where
  open A use {Num, num, lt, add, sub, mul, div, to_fixed, show, show_rounded}

  unfoldable pub v_fmt_us : Num → String
  v_fmt_us us =
      if ge A us (num 1000)
      then concat (to_fixed (div us (num 1000)) (if ge A us (num 10000) then 1 else 2)) "ms"
      else concat (show_rounded us) "µs"

  unfoldable pub v_latency_status : Num → Status
  v_latency_status p99_us =
      if lt p99_us (num 5000)
      then Status.ok
      else if lt p99_us (num 20000)
      then Status.warning
      else if lt p99_us (num 100000)
      then Status.high
      else Status.critical

  -- `Math.min(...values)` and `Math.max(...values)` of a list that is not empty
  unfoldable pub least : Num → List Num → Num
  least acc [] = acc
  least acc (v ∷ vs) = least (min_num A acc v) vs

  unfoldable pub greatest : Num → List Num → Num
  greatest acc [] = acc
  greatest acc (v ∷ vs) = greatest (max_num A acc v) vs

  -- `x || 1`
  abbrev pub or_one : Num → Num
  or_one x = if lt x (num 0) || lt (num 0) x then x else num 1

  -- The points of the polyline, from the i-th on.
  unfoldable pub spark_points : ℕ → Num → Num → Num → Num → ℕ → List Num → List (Num × Num)
  spark_points n width height min range i [] = []
  spark_points n width height min range i (v ∷ vs) =
      (
        mul (div (num i) (sub (num n) (num 1))) width,
        sub (sub height (mul (div (sub v min) range) (sub height (num 4)))) (num 2),
      )
      ∷ spark_points n width height min range (i + 1) vs

  -- `MiniSpark`: nothing is drawn of fewer than two values.
  unfoldable pub mini_spark : Num → Num → List Num → List (Num × Num)
  unfolding least greatest spark_points
  mini_spark width height [] = []
  mini_spark width height (v ∷ vs) =
      let min = least v vs in
      let range = or_one (sub (greatest v vs) min) in
      if ltb 1 (length (v ∷ vs))
      then spark_points (length (v ∷ vs)) width height min range 0 (v ∷ vs)
      else []

  -- the test of the filter `stressed`
  unfoldable pub is_hot : ProtoSnap A w → Bool
  is_hot s =
      gt A s.dst_cpu_pct (num 70)
      || gt A s.dst_io_wait_pct (num 30)
      || gt A s.dst_mem_pressure_pct (num 70)

  unfoldable pub narrow : FilterMode → List (ProtoSnap A w) → List (ProtoSnap A w)
  narrow all arr = arr
  narrow spiking arr = select (λ s. s.is_spike) arr
  narrow stressed arr = select is_hot arr

  abbrev pub field_of : SortCol → ProtoSnap A w → Num
  field_of p50 s = (s.percs).p50_us
  field_of p95 s = (s.percs).p95_us
  field_of p99 s = (s.percs).p99_us
  field_of retrans s = num s.retransmit_count
  field_of connection s = num 0

  -- The comparison function of the sort is negative. The difference of two texts is not a number, which counts as 0.
  unfoldable pub precedes : SortCol → SortDir → ProtoSnap A w → ProtoSnap A w → Bool
  precedes connection dir a b = false
  precedes key asc a b = lt (sub (field_of key a) (field_of key b)) (num 0)
  precedes key desc a b = lt (sub (field_of key b) (field_of key a)) (num 0)

  unfoldable pub list_rows : ListState → List (ProtoSnap A w) → List (ProtoSnap A w)
  unfolding narrow precedes
  list_rows s snaps = sort (precedes s.sort_col s.sort_dir) (narrow s.filter snaps)

  -- A chip of the filter: its text, and whether it is chosen.
  abbrev same_filter : FilterMode → FilterMode → Bool
  same_filter all all = true
  same_filter spiking spiking = true
  same_filter stressed stressed = true
  same_filter _ _ = false

  abbrev filter_chip :
      FilterMode → List (ProtoSnap A w) → FilterMode → String → FilterMode × String × Bool
  unfolding narrow
  filter_chip now snaps mode label =
      (mode, concat label (show (num (length (narrow mode snaps)))), same_filter now mode)

  unfoldable pub filter_chips :
      FilterMode → List (ProtoSnap A w) → List (FilterMode × String × Bool)
  unfolding narrow
  filter_chips now snaps =
      filter_chip now snaps all "All · "
      ∷ filter_chip now snaps spiking "🔴 Spiking · "
      ∷ filter_chip now snaps stressed "⚡ Stressed · "
      ∷ []

  -- A bar of the target's figures: its label, its title, its width in percent, and whether it is lit.
  pub record RowBar : Type 0 where
    pub label : String
    pub title : String
    pub width : Num
    pub hot : Bool

  abbrev row_bar : String → Bool → Num → RowBar
  row_bar label is_io val = record {
    label = label;
    title = concat label (concat " " (concat (to_fixed val 0) "%"));
    width = min_num A (num 100) val;
    hot = gt A val (num 70) || (is_io && gt A val (num 30));
  }

  -- The last column: the cause of a spike, or the status.
  pub data ProtoBadge : Type 0 where
    cause : (icon label color : String) → ProtoBadge
    grade : (text bg color : String) → ProtoBadge

  abbrev proto_badge : Bool → Option CauseKind → Status → ProtoBadge
  proto_badge true (some kind) status = let meta = v_cause_meta kind in cause meta.2 meta.0 meta.1
  proto_badge _ _ status = grade (status_name status) (status_bg status) (status_color status)

  pub record ProtoRow : Type 0 where
    pub key : String
    pub selected : Bool
    pub dot : Bool
    pub src : String
    pub dst : String
    pub ext : Bool
    pub p50 : String
    pub p95 : String
    pub p99 : String
    pub color : String
    pub spark : List (Num × Num)
    pub retrans : ℕ
    pub retrans_alert : Bool
    pub bars : List RowBar
    pub badge : ProtoBadge

  unfoldable pub proto_row : Option String → ProtoSnap A w → ProtoRow
  unfolding v_fmt_us v_latency_status mini_spark
  proto_row selected_key snap =
      let status = v_latency_status (snap.percs).p99_us in
      record {
        key = snap.key;
        selected = is_selected selected_key snap.key;
        dot = snap.is_spike;
        src = snap.src_service;
        dst = snap.dst_service;
        ext = is_external snap.dst_type;
        p50 = v_fmt_us (snap.percs).p50_us;
        p95 = v_fmt_us (snap.percs).p95_us;
        p99 = v_fmt_us (snap.percs).p99_us;
        color = status_color status;
        spark =
            mini_spark (num 70) (num 20) (map (λ p. (p.percs).p99_us) (take_last 30 snap.history));
        retrans = snap.retransmit_count;
        retrans_alert = ltb 10 snap.retransmit_count;
        bars =
            row_bar "CPU" false snap.dst_cpu_pct
            ∷ row_bar "IO" true snap.dst_io_wait_pct
            ∷ row_bar "MEM" false snap.dst_mem_pressure_pct
            ∷ [];
        badge = proto_badge snap.is_spike snap.cause_kind status;
      }

  unfoldable pub list_view : ListState → Option String → Dict (ProtoSnap A w) → List ProtoRow
  unfolding list_rows proto_row
  list_view s selected_key snapshots = map (proto_row selected_key) (list_rows s (values snapshots))
