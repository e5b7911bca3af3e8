-- ===== src/Matrix.antt =====
-- frontend/src/components/HeatmapMatrixView.tsx: the services along the two sides and the cells.
pub mod Laws
mod Tests
use micro_trace.Common.{
  String, Bool, true, false, Option, none, some, List, [], ◌∷◌, map, is_some, if◌then◌else◌, str_eq,
}
use micro_trace.Common.Arith.{Arith}
use micro_trace.Common.Dict.{Dict, lookup, insert, values}
use micro_trace.Common.Key.{edge_key}
use micro_trace.Common.Sort.{sort}
use micro_trace.Types.{StatSnapshot, ServiceSnapshot}
use micro_trace.Format.{Status, latency_status, status_color, fmt_us}
use micro_trace.Metrics.{add_name}

-- `less` is the order of texts that `sort()` uses without a comparison function, by UTF-16 code units.
module _ (A : Arith) (less : String → String → Bool) where
  unfoldable pub sources : List String → List (StatSnapshot A) → List String
  unfolding add_name
  sources names [] = names
  sources names (s ∷ snaps) = sources (add_name s.src_service names) snaps

  unfoldable pub targets : List String → List (StatSnapshot A) → List String
  unfolding add_name
  targets names [] = names
  targets names (s ∷ snaps) = targets (add_name s.dst_service names) snaps

  -- the loop that fills `snapMap`
  unfoldable pub snap_map : Dict (StatSnapshot A) → List (StatSnapshot A) → Dict (StatSnapshot A)
  snap_map found [] = found
  snap_map found (s ∷ snaps) =
      snap_map (insert (edge_key s.src_service s.dst_service) s found) snaps

  -- `svc?.stress_kind !== null`: of a service that is missing, `undefined !== null`
  unfoldable pub is_stressed : Option (ServiceSnapshot A) → Bool
  is_stressed none = true
  is_stressed (some svc) = is_some svc.stress_kind

  pub data Border : Type 0 where
    chosen spike plain : Border

  pub data Cell : Type 0 where
    empty : Cell
    filled :
        (key : String) (p99 : String) (spike : Bool) (status : Status) (selected : Bool)
        (border : Border)
        → Cell

  abbrev pub border_of : Bool → Bool → Border
  border_of true spiking = chosen
  border_of false true = spike
  border_of false false = plain

  abbrev pub is_selected : Option String → String → Bool
  is_selected none key = false
  is_selected (some k) key = str_eq k key

  unfoldable pub cell_of : Option String → String → Option (StatSnapshot A) → Cell
  cell_of selected_key key none = empty
  cell_of selected_key key (some snap) =
      filled key (fmt_us A snap.p99_us) snap.is_spike (latency_status A snap.p99_us)
        (is_selected selected_key key) (border_of (is_selected selected_key key) snap.is_spike)

  unfoldable pub cell : Option String → Dict (StatSnapshot A) → String → String → Cell
  unfolding cell_of snap_map
  cell selected_key snapshots src dst =
      cell_of selected_key (edge_key src dst)
        (lookup (edge_key src dst) (snap_map [] (values snapshots)))

  pub record Line : Type 0 where
    pub src : String
    pub alert : Bool
    pub cells : List Cell

  pub record Matrix : Type 0 where
    pub header : List (String × Bool)
    pub lines : List Line

  unfoldable pub matrix : Option String → Dict (StatSnapshot A) → Dict (ServiceSnapshot A) → Matrix
  unfolding sources targets is_stressed cell
  matrix selected_key snapshots services =
      let srcs = sort less (sources [] (values snapshots)) in
      let dsts = sort less (targets [] (values snapshots)) in
      record {
        header = map (λ dst. (dst, is_stressed (lookup dst services))) dsts;
        lines =
            map
              (λ src. record {
                src = src;
                alert = is_stressed (lookup src services);
                cells = map (cell selected_key snapshots src) dsts;
              })
              srcs;
      }
