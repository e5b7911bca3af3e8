-- ===== src/Proto/Topology.antt =====
-- design_handoff_microtrace/mt-topology.jsx: the graph of the prototype, in a fixed layout.
pub mod Marks
use Prim.Native.String.{◌++◌ as concat}
use micro_trace.Common.{
  ℕ, ◌+◌, ◌*◌, String, Bool, true, false, not, ◌&&◌, ◌||◌, Option, none, some, List, [], ◌∷◌, map,
  or_else, is_some, if◌then◌else◌, str_eq,
}
use micro_trace.Common.Arith.{Arith, gt, ge, min_num, max_num}
use micro_trace.Common.Dict.{Dict, lookup, insert, values}
use micro_trace.Types.{ServiceSnapshot}
use micro_trace.Format.{Status, latency_status, status_color}
use micro_trace.Metrics.{add_name}
use micro_trace.Topo.{Pos}
use micro_trace.Topo.View.{stress_color}
use micro_trace.Mock.Chance.{World}
use micro_trace.Mock.Conn.{internal_services, includes}
use micro_trace.Proto.Data.{ProtoSnap}
use micro_trace.Proto.Views.{is_selected}

-- An entry of `NODE_POS` in mt-data.js, in hundredths.
pub record NodePos : Type 0 where
  pub name : String
  pub x : ℕ
  pub y : ℕ

abbrev node : String → ℕ → ℕ → NodePos
node name x y = record { name = name; x = x; y = y }

abbrev pub node_pos : List NodePos
node_pos =
    node "api-gateway" 50 8
    ∷ node "auth-svc" 18 35
    ∷ node "order-svc" 78 35
    ∷ node "redis" 5 66
    ∷ node "payment-svc" 50 64
    ∷ node "inventory-svc" 95 66
    ∷ node "notif-svc" 78 93
    ∷ node "postgres" 28 93
    ∷ node "kafka" 96 96
    ∷ node "stripe-api" 52 93
    ∷ []

-- `NODE_POS[svc] || { x: 0.5, y: 0.5 }`
unfoldable pub pos_of : List NodePos → String → NodePos
pos_of [] svc = node svc 50 50
pos_of (p ∷ ps) svc = if str_eq p.name svc then p else pos_of ps svc

module _ (A : Arith) (w : World A) where
  open A use {Num, num, lt, add, sub, mul, div, to_fixed, show_rounded}

  pub record Dims : Type 0 where
    pub width : Num
    pub height : Num

  -- What the observer of the box does.
  unfoldable pub on_resize : Num → Num → Dims → Dims
  on_resize width height d =
      if gt A width (num 0) && gt A height (num 0)
      then record { width = width; height = height }
      else d

  abbrev pub initial_dims : Dims
  initial_dims = record { width = num 700; height = num 500 }

  abbrev hundredths : ℕ → Num
  hundredths n = div (num n) (num 100)

  unfoldable pub pad_x : Dims → Num
  pad_x d = max_num A (num 58) (min_num A (num 92) (mul d.width (hundredths 8)))

  unfoldable pub pad_y : Dims → Num
  pad_y d = max_num A (num 36) (min_num A (num 48) (mul d.height (hundredths 8)))

  unfoldable pub xy : Dims → String → Pos A
  unfolding pad_x pad_y pos_of
  xy d svc =
      let p = pos_of node_pos svc in
      record {
        x = add (pad_x d) (mul (hundredths p.x) (sub d.width (mul (pad_x d) (num 2))));
        y = add (pad_y d) (mul (hundredths p.y) (sub d.height (mul (pad_y d) (num 2))));
      }

  -- `nodeSet`
  unfoldable pub node_set : List String → List (ProtoSnap A w) → List String
  unfolding add_name
  node_set names [] = names
  node_set names (s ∷ snaps) =
      node_set (add_name s.dst_service (add_name s.src_service names)) snaps

  -- The two ends of the connections that pass the test: `nodeSpike`, and `nodeSelected`.
  unfoldable pub flag_ends : (ProtoSnap A w → Bool) → Dict Bool → List (ProtoSnap A w) → Dict Bool
  flag_ends test found [] = found
  flag_ends test found (s ∷ snaps) =
      flag_ends test
        (if test s then insert s.dst_service true (insert s.src_service true found) else found)
        snaps

  -- `!!found[svc]`
  abbrev pub is_flagged : Dict Bool → String → Bool
  is_flagged found svc = or_else (lookup svc found) false

  unfoldable pub fmt_us : Num → String
  fmt_us us =
      if ge A us (num 1000)
      then concat (to_fixed (div us (num 1000)) 1) "ms"
      else concat (show_rounded us) "µs"

  unfoldable pub proto_status : Num → Status
  proto_status p99_us =
      if lt p99_us (num 5000)
      then Status.ok
      else if lt p99_us (num 20000)
      then Status.warning
      else if lt p99_us (num 100000)
      then Status.high
      else Status.critical

  module _ (sqrt : Num → Num) where
    -- The control point of the curve, 26 to the side of the middle; `Math.sqrt(…) || 1`
    unfoldable pub control : Pos A → Pos A → Pos A
    control src dst =
        let mx = div (add src.x dst.x) (num 2) in
        let my = div (add src.y dst.y) (num 2) in
        let dx = sub dst.x src.x in
        let dy = sub dst.y src.y in
        let root = sqrt (add (mul dx dx) (mul dy dy)) in
        let len = if lt root (num 0) || lt (num 0) root then root else num 1 in
        record { x = sub mx (mul (div dy len) (num 26)); y = add my (mul (div dx len) (num 26)) }

    abbrev quarter : Num
    quarter = div (num 1) (num 4)

    unfoldable pub label_at : Pos A → Pos A → Pos A → Pos A
    label_at src c dst =
        let mix = λ (s : Num) (m : Num) (e : Num).
          add (add (mul quarter s) (mul (div (num 1) (num 2)) m)) (mul quarter e) in
        record { x = mix src.x c.x dst.x; y = mix src.y c.y dst.y }

    -- A curve with the points that its path names, and its label.
    pub record ProtoEdge : Type 0 where
      pub key : String
      pub start : Pos A
      pub bend : Pos A
      pub end : Pos A
      pub label_pos : Pos A
      pub label : String
      pub color : String
      pub selected : Bool
      pub animated : Bool

    unfoldable pub proto_edge : Dims → Option String → ProtoSnap A w → ProtoEdge
    unfolding xy control label_at fmt_us proto_status
    proto_edge d selected_key snap =
        let src = xy d snap.src_service in
        let dst = xy d snap.dst_service in
        let c = control src dst in
        record {
          key = snap.key;
          start = src;
          bend = c;
          end = dst;
          label_pos = label_at src c dst;
          label = fmt_us (snap.percs).p50_us;
          color = status_color (proto_status (snap.percs).p99_us);
          selected = is_selected selected_key snap.key;
          animated = snap.is_spike;
        }

  -- A bar of a service: its label, where it begins, how much of it is filled, and its colour.
  pub record NodeBar : Type 0 where
    pub label : String
    pub left : Num
    pub top : Num
    pub filled : Num
    pub color : String

  abbrev node_bar : Num → Num → ℕ → String → String → Num → NodeBar
  node_bar x y i label color val = record {
    label = label;
    left = add (add (add (sub x (div (num 156) (num 2))) (num 10)) (mul (num i) (num 46))) (num 18);
    top = sub (add y (num 4)) (num 4);
    filled = mul (max_num A (num 0) (min_num A (num 1) (div val (num 100)))) (num 36);
    color = if gt A val (num 70) then color else "#94a3b8";
  }

  unfoldable pub node_bars : Num → Num → Bool → Option (ServiceSnapshot A) → List NodeBar
  node_bars x y true (some svc) =
      node_bar x y 0 "CPU" "#dc2626" svc.cpu_pct
      ∷ node_bar x y 1 "IO" "#7c3aed" svc.io_wait_pct
      ∷ node_bar x y 2 "MEM" "#ea580c" svc.mem_pressure_pct
      ∷ []
  node_bars x y _ _ = []

  abbrev pub stress_hue : Option (ServiceSnapshot A) → Option String
  stress_hue none = none
  stress_hue (some svc) = stress_color A svc.stress_kind

  -- `ServiceNode`: its box, its border, its halo and its bars.
  pub record ServiceNode : Type 0 where
    pub name : String
    pub corner : Pos A
    pub width : Num
    pub height : Num
    pub border : String
    pub dashed : Bool
    pub halo : Option String
    pub bars : List NodeBar

  abbrev pub border_of : Bool → Option String → Bool → String
  border_of true hue spike = "#2563eb"
  border_of false (some c) spike = c
  border_of false none spike = if spike then "#dc2626" else "#cbd5e1"

  -- The halo of a stressed service, or else of one with a spike.
  abbrev pub halo_of : Option String → Bool → Option String
  halo_of (some c) spike = some c
  halo_of none spike = if spike then some "#dc2626" else none

  unfoldable pub service_node :
      Pos A → String → Option (ServiceSnapshot A) → Bool → Bool → Bool → ServiceNode
  unfolding node_bars
  service_node at name svc internal spike selected =
      let nw = if internal then num 156 else num 112 in
      let nh = if internal then num 56 else num 36 in
      record {
        name = name;
        corner = record { x = sub at.x (div nw (num 2)); y = sub at.y (div nh (num 2)) };
        width = nw;
        height = nh;
        border = border_of selected (stress_hue svc) spike;
        dashed = not internal;
        halo = halo_of (stress_hue svc) spike;
        bars = node_bars at.x at.y internal svc;
      }

  unfoldable pub nodes :
      Dims → Dict (ProtoSnap A w) → Dict (ServiceSnapshot A) → Option String → List ServiceNode
  unfolding xy node_set flag_ends service_node
  nodes d snapshots services selected_key =
      let edges = values snapshots in
      let spikes = flag_ends (λ s. s.is_spike) [] edges in
      let chosen = flag_ends (λ s. is_selected selected_key s.key) [] edges in
      map
        (λ svc.
          service_node (xy d svc) svc (lookup svc services) (includes internal_services svc)
            (is_flagged spikes svc) (is_flagged chosen svc))
        (node_set [] edges)
