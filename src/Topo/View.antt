-- ===== src/Topo/View.antt =====
-- What TopoGraph.tsx draws: the curves and colours of the connections, the boxes of the services.
use Prim.Native.String.{◌++◌ as concat, len, slice}
use micro_trace.Common.{
  ℕ, ◌-◌, String, Bool, true, false, not, ◌||◌, Option, none, some, List, [], ◌∷◌, or_else,
  if◌then◌else◌, str_eq,
}
use text.Mathlib.Text.{starts_with}
use micro_trace.Common.Arith.{Arith, gt, min_num}
use micro_trace.Common.Dict.{Dict, lookup, insert}
use micro_trace.Common.Key.{edge_key}
use micro_trace.Types.{StatSnapshot, ServiceSnapshot, Side, Stress, StressKind}
use micro_trace.Format.{latency_status, status_color, fmt_us}
use micro_trace.Metrics.{add_name}
use micro_trace.Topo.{Pos, pos_of}

module _ (A : Arith) where
  open A use {Num, num, add, sub, mul, div}

  -- The loop over the snapshots: the services in the order in which they appear.
  unfoldable pub all_services : List String → List (StatSnapshot A) → List String
  unfolding add_name
  all_services names [] = names
  all_services names (s ∷ snaps) =
      all_services (add_name s.dst_service (add_name s.src_service names)) snaps

  unfoldable pub type_map : Dict Side → List (StatSnapshot A) → Dict Side
  type_map found [] = found
  type_map found (s ∷ snaps) =
      type_map (insert s.dst_service s.dst_type (insert s.src_service s.src_type found)) snaps

  -- `serviceTypeMap[name] !== 'external'`
  abbrev pub is_internal : Option Side → Bool
  is_internal (some Side.external) = false
  is_internal _ = true

  unfoldable pub node_left : String → Dict (Pos A) → Num
  node_left name positions = mul (pos_of A name positions).x (num 1000)

  unfoldable pub node_top : String → Dict (Pos A) → Num
  node_top name positions = mul (pos_of A name positions).y (num 700)

  abbrev pub node_width : Bool → Num
  node_width internal = if internal then num 156 else num 112

  abbrev pub node_height : Bool → Num
  node_height internal = if internal then num 56 else num 36

  unfoldable pub node_cx : String → Bool → Dict (Pos A) → Num
  unfolding node_left
  node_cx name internal positions =
      add (node_left name positions) (div (node_width internal) (num 2))

  unfoldable pub node_cy : String → Bool → Dict (Pos A) → Num
  unfolding node_top
  node_cy name internal positions =
      add (node_top name positions) (div (node_height internal) (num 2))

  -- `Math.sqrt(…) || 1`: a length of zero counts as one.
  module _ (sqrt : Num → Num) (is_zero : Num → Bool) where
    unfoldable pub bezier_ctrl : Num → Num → Num → Num → Pos A
    bezier_ctrl sx sy ex ey =
        let mx = div (add sx ex) (num 2) in
        let my = div (add sy ey) (num 2) in
        let dx = sub ex sx in
        let dy = sub ey sy in
        let root = sqrt (add (mul dx dx) (mul dy dy)) in
        let length = if is_zero root then num 1 else root in
        record {
          x = add mx (mul (div (sub (num 0) dy) length) (num 26));
          y = add my (mul (div dx length) (num 26));
        }

    -- The middle of the curve, at t = 1/2: `(1 - t) ** 2` is a quarter, `2 * (1 - t) * t` a half.
    unfoldable pub bezier_mid : Num → Num → Num → Num → Num → Num → Pos A
    bezier_mid sx sy cx cy ex ey =
        let half = div (num 1) (num 2) in
        let mix = λ (s : Num) (c : Num) (e : Num).
          add (add (mul (mul half half) s) (mul (mul (mul (num 2) half) half) c))
            (mul (mul half half) e) in
        record { x = mix sx cx ex; y = mix sy cy ey }

    pub record EdgeView : Type 0 where
      pub key : String
      pub start : Pos A
      pub control : Pos A
      pub end : Pos A
      pub label_at : Pos A
      pub label : String
      pub color : String
      pub selected : Bool
      pub animated : Bool

    abbrev is_key : Option String → String → Bool
    is_key none key = false
    is_key (some k) key = str_eq key k

    unfoldable pub edge_view : Dict Side → Dict (Pos A) → Option String → StatSnapshot A → EdgeView
    unfolding node_cx node_cy bezier_ctrl bezier_mid
    edge_view types positions selected_key snap =
        let key = edge_key snap.src_service snap.dst_service in
        let int_src = is_internal (lookup snap.src_service types) in
        let int_dst = is_internal (lookup snap.dst_service types) in
        let sx = node_cx snap.src_service int_src positions in
        let sy = node_cy snap.src_service int_src positions in
        let ex = node_cx snap.dst_service int_dst positions in
        let ey = node_cy snap.dst_service int_dst positions in
        let q = bezier_ctrl sx sy ex ey in
        record {
          key = key;
          start = record { x = sx; y = sy };
          control = q;
          end = record { x = ex; y = ey };
          label_at = bezier_mid sx sy q.x q.y ex ey;
          label = fmt_us A snap.p50_us;
          color = if snap.is_spike then "#dc2626" else status_color (latency_status A snap.p99_us);
          selected = is_key selected_key key;
          animated = snap.is_spike;
        }

  -- `text.endsWith(suffix)`
  abbrev pub ends_with : String → String → Bool
  ends_with text suffix = str_eq (slice text (len text - len suffix) (len text)) suffix

  abbrev pub stress_color : StressKind → Option String
  stress_color none = none
  stress_color (some Stress.cpu) = some "#dc2626"
  stress_color (some Stress.io) = some "#7c3aed"
  stress_color (some Stress.memory) = some "#ea580c"

  abbrev touches : Option String → String → Bool
  touches none name = false
  touches (some key) name =
      if str_eq key ""
      then false
      else starts_with key (concat name "→") || ends_with key (concat "→" name)

  abbrev is_name : Option String → String → Bool
  is_name none name = false
  is_name (some n) name = str_eq n name

  unfoldable pub is_selected_node : Option String → Option String → String → Bool
  is_selected_node selected_node selected_key name =
      is_name selected_node name || touches selected_key name

  -- One of the three bars of a service: how wide it is drawn, and whether it is over its limit.
  unfoldable pub bar : Option Num → ℕ → Num × Bool
  bar pct limit =
      let p = or_else pct (num 0) in
      (min_num A (num 36) (mul (div p (num 100)) (num 36)), gt A p (num limit))

  abbrev field : (ServiceSnapshot A → Num) → Option (ServiceSnapshot A) → Option Num
  field f none = none
  field f (some svc) = some (f svc)

  unfoldable pub micro_bars : Option (ServiceSnapshot A) → List (Num × Bool)
  unfolding bar
  micro_bars svc =
      bar (field (λ s. s.cpu_pct) svc) 70
      ∷ bar (field (λ s. s.io_wait_pct) svc) 30
      ∷ bar (field (λ s. s.mem_pressure_pct) svc) 70
      ∷ []

  abbrev stress_of : Option (ServiceSnapshot A) → StressKind
  stress_of none = none
  stress_of (some svc) = svc.stress_kind

  pub record NodeView : Type 0 where
    pub name : String
    pub corner : Pos A
    pub width : Num
    pub height : Num
    pub glow : Option String
    pub selected : Bool
    pub stroke : String
    pub dashed : Bool
    -- only a service of the cluster has bars
    pub bars : List (Num × Bool)

  unfoldable pub node_view :
      Dict Side
      → Dict (Pos A)
      → Dict (ServiceSnapshot A)
      → Option String
      → Option String
      → String
      → NodeView
  unfolding node_left node_top is_selected_node micro_bars
  node_view types positions services selected_node selected_key name =
      let internal = is_internal (lookup name types) in
      let svc = lookup name services in
      let selected = is_selected_node selected_node selected_key name in
      record {
        name = name;
        corner = record { x = node_left name positions; y = node_top name positions };
        width = node_width internal;
        height = node_height internal;
        glow = stress_color (stress_of svc);
        selected = selected;
        stroke = if selected then "#2563eb" else or_else (stress_color (stress_of svc)) "#cbd5e1";
        dashed = not internal;
        bars = if internal then micro_bars svc else [];
      }
