-- ===== src/ListView.antt =====
-- frontend/src/components/ConnectionListView.tsx: the filter and sort state, the rows in the order shown, and what
-- each row shows.
pub mod Laws
mod Tests
use micro_trace.Common.{
  ℕ, ltb, String, Bool, true, false, not, ◌&&◌, ◌||◌, Option, none, some, List, [], ◌∷◌, map,
  length, select, or_else, is_some, if◌then◌else◌, str_eq,
}
use micro_trace.Common.Arith.{Arith, gt}
use micro_trace.Common.Dict.{Dict, values}
use micro_trace.Common.Key.{edge_key}
use micro_trace.Common.Sort.{sort}
use micro_trace.Types.{StatSnapshot, CauseKind, Side}
use micro_trace.Format.{Status, latency_status, fmt_us}

pub data FilterMode : Type 0 where
  all spiking stressed : FilterMode

pub data SortCol : Type 0 where
  connection p50 p95 p99 retrans : SortCol

pub data SortDir : Type 0 where
  asc desc : SortDir

abbrev pub same_col : SortCol → SortCol → Bool
same_col connection connection = true
same_col p50 p50 = true
same_col p95 p95 = true
same_col p99 p99 = true
same_col retrans retrans = true
same_col _ _ = false

pub record ListState : Type 0 where
  pub filter : FilterMode
  pub sort_col : SortCol
  pub sort_dir : SortDir

abbrev pub initial : ListState
initial = record { filter = all; sort_col = p99; sort_dir = desc }

abbrev pub flip : SortDir → SortDir
flip asc = desc
flip desc = asc

unfoldable pub handle_sort : SortCol → ListState → ListState
handle_sort col s =
    if same_col col s.sort_col
    then record s { sort_dir = flip s.sort_dir }
    else record s { sort_col = col; sort_dir = desc }

abbrev pub set_filter : FilterMode → ListState → ListState
set_filter mode s = record s { filter = mode }

unfoldable pub sort_icon : SortCol → ListState → String
sort_icon col s =
    if same_col s.sort_col col then elim s.sort_dir [ asc ↦ " ▲" | desc ↦ " ▼" ] else ""

-- `less a b` says that `a.localeCompare(b)` is negative.
module _ (A : Arith) (less : String → String → Bool) where
  open A use {Num, num, lt, sub}

  -- the test of the filter `stressed`
  unfoldable pub is_stressed : StatSnapshot A → Bool
  is_stressed s =
      gt A (or_else s.dst_cpu_pct (num 0)) (num 70)
      || gt A (or_else s.dst_io_wait_pct (num 0)) (num 30)
      || gt A (or_else s.dst_mem_pressure_pct (num 0)) (num 70)

  unfoldable pub spiking_count : List (StatSnapshot A) → ℕ
  spiking_count snaps = length (select (λ s. s.is_spike) snaps)

  unfoldable pub stressed_count : List (StatSnapshot A) → ℕ
  stressed_count snaps = length (select (λ s. is_some s.dst_cpu_pct && is_stressed s) snaps)

  -- The two `if`s that narrow `list`.
  unfoldable pub apply_filter : FilterMode → List (StatSnapshot A) → List (StatSnapshot A)
  apply_filter all list = list
  apply_filter spiking list = select (λ s. s.is_spike) list
  apply_filter stressed list = select is_stressed list

  abbrev pub snap_key : StatSnapshot A → String
  snap_key s = edge_key s.src_service s.dst_service

  -- `av` and `bv`
  abbrev pub column : SortCol → StatSnapshot A → Num
  column p50 s = s.p50_us
  column p95 s = s.p95_us
  column p99 s = s.p99_us
  column retrans s = num s.retransmit_count
  column connection s = num 0

  -- The comparison function of the sort is negative.
  unfoldable pub before : SortCol → SortDir → StatSnapshot A → StatSnapshot A → Bool
  before connection asc a b = less (snap_key a) (snap_key b)
  before connection desc a b = less (snap_key b) (snap_key a)
  before col asc a b = lt (sub (column col a) (column col b)) (num 0)
  before col desc a b = lt (sub (column col b) (column col a)) (num 0)

  unfoldable pub shown : ListState → List (StatSnapshot A) → List (StatSnapshot A)
  shown s snaps = sort (before s.sort_col s.sort_dir) (apply_filter s.filter snaps)

  -- What stands in the last column of a row.
  pub data Badge : Type 0 where
    cause : CauseKind → Badge
    grade : Status → Badge

  pub record Row : Type 0 where
    pub key : String
    pub selected : Bool
    pub dot : Bool
    pub src : String
    pub dst : String
    pub ext : Bool
    pub p50 : String
    pub p95 : String
    pub p99 : String
    pub p99_status : Status
    pub retrans : ℕ
    pub retrans_alert : Bool
    pub badge : Badge

  abbrev pub badge_of : Bool → Option CauseKind → Status → Badge
  badge_of true (some kind) status = cause kind
  badge_of _ _ status = grade status

  abbrev pub is_external : Side → Bool
  is_external Side.external = true
  is_external Side.internal = false

  -- `key === selectedKey`
  abbrev pub is_selected : Option String → String → Bool
  is_selected none key = false
  is_selected (some k) key = str_eq key k

  unfoldable pub make_row : Option String → StatSnapshot A → Row
  make_row selected_key snap = record {
    key = snap_key snap;
    selected = is_selected selected_key (snap_key snap);
    dot = snap.is_spike;
    src = snap.src_service;
    dst = snap.dst_service;
    ext = is_external snap.dst_type;
    p50 = fmt_us A snap.p50_us;
    p95 = fmt_us A snap.p95_us;
    p99 = fmt_us A snap.p99_us;
    p99_status = latency_status A snap.p99_us;
    retrans = snap.retransmit_count;
    retrans_alert = ltb 0 snap.retransmit_count;
    badge = badge_of snap.is_spike snap.cause_kind (latency_status A snap.p99_us);
  }

  unfoldable pub rows : ListState → Option String → Dict (StatSnapshot A) → List Row
  unfolding shown make_row
  rows s selected_key snapshots = map (make_row selected_key) (shown s (values snapshots))
