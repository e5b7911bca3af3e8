-- ===== src/Proto/Matrix.antt =====
-- `HeatmapMatrixView` of mt-views.jsx.
use Prim.Native.String.{◌++◌ as concat}
use micro_trace.Common.{
  String, Bool, true, false, Option, none, some, List, [], ◌∷◌, ◌++◌, map, is_some, if◌then◌else◌,
}
use micro_trace.Common.Arith.{Arith}
use micro_trace.Common.Dict.{Dict, lookup, insert, values}
use micro_trace.Common.Sort.{sort}
use micro_trace.Types.{ServiceSnapshot, Side}
use micro_trace.Format.{status_color}
use micro_trace.Metrics.{add_name}
use micro_trace.Mock.Chance.{World}
use micro_trace.Proto.Data.{ProtoSnap}
use micro_trace.Proto.Views.{is_selected, v_fmt_us, v_latency_status, status_name}

-- The two sets, `internal` and `external`.
pub record Ends : Type 0 where
  pub internal : List String
  pub external : List String

abbrev add_end : Side → String → Ends → Ends
add_end Side.internal name e = record e { internal = add_name name e.internal }
add_end Side.external name e = record e { external = add_name name e.external }

-- `less` is the order of texts that `sort()` uses without a comparison function, by UTF-16 code units.
module _ (A : Arith) (w : World A) (less : String → String → Bool) where
  unfoldable pub ends_of : Ends → List (ProtoSnap A w) → Ends
  unfolding add_name
  ends_of e [] = e
  ends_of e (s ∷ snaps) =
      ends_of (add_end s.dst_type s.dst_service (add_end s.src_type s.src_service e)) snaps

  -- `sources`, and `targets`, which is the same
  unfoldable pub axis : List (ProtoSnap A w) → List String
  unfolding ends_of
  axis snaps =
      let e = ends_of (record { internal = []; external = [] }) snaps in
      sort less (e.internal ++ e.external)

  abbrev pair_key : String → String → String
  pair_key src dst = concat src (concat "|" dst)

  unfoldable pub conn_by_pair : Dict (ProtoSnap A w) → List (ProtoSnap A w) → Dict (ProtoSnap A w)
  conn_by_pair found [] = found
  conn_by_pair found (s ∷ snaps) =
      conn_by_pair (insert (pair_key s.src_service s.dst_service) s found) snaps

  -- `services?.[name]?.stress_kind`
  abbrev pub is_marked : Option (ServiceSnapshot A) → Bool
  is_marked none = false
  is_marked (some svc) = is_some svc.stress_kind

  pub data ProtoCell : Type 0 where
    empty : ProtoCell
    filled : (key title color border : String) (pulsing selected : Bool) → ProtoCell

  abbrev cell_border : Bool → Bool → String
  cell_border true spike = "2px solid #0f172a"
  cell_border false true = "2px solid #dc2626"
  cell_border false false = "1px solid transparent"

  -- The title has an arrow and a line break between its parts.
  unfoldable pub proto_cell_of :
      Option String → String → String → Option (ProtoSnap A w) → ProtoCell
  unfolding v_fmt_us v_latency_status
  proto_cell_of selected_key src dst none = empty
  proto_cell_of selected_key src dst (some snap) =
      let status = v_latency_status A w (snap.percs).p99_us in
      filled snap.key
        (concat src (
          concat " → " (
            concat dst (
              concat "\nP99 " (
                concat (v_fmt_us A w (snap.percs).p99_us)
                  (concat " · " (if snap.is_spike then "SPIKE" else status_name status)))))))
        (status_color status) (cell_border (is_selected selected_key snap.key) snap.is_spike)
        snap.is_spike (is_selected selected_key snap.key)

  unfoldable pub proto_cell : Option String → List (ProtoSnap A w) → String → String → ProtoCell
  unfolding proto_cell_of conn_by_pair
  proto_cell selected_key snaps src dst =
      proto_cell_of selected_key src dst (lookup (pair_key src dst) (conn_by_pair [] snaps))

  pub record ProtoLine : Type 0 where
    pub src : String
    pub marked : Bool
    pub cells : List ProtoCell

  -- The labels of the columns with their marks, and the lines.
  unfoldable pub proto_matrix :
      Option String
      → Dict (ProtoSnap A w)
      → Dict (ServiceSnapshot A)
      → List (String × Bool) × List ProtoLine
  unfolding axis proto_cell
  proto_matrix selected_key snapshots services =
      let snaps = values snapshots in
      (
        map (λ dst. (dst, is_marked (lookup dst services))) (axis snaps),
        map
            (λ src. record {
              src = src;
              marked = is_marked (lookup src services);
              cells = map (proto_cell selected_key snaps src) (axis snaps);
            })
            (axis snaps),
      )
