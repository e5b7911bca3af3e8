-- ===== src/Flow.antt =====
-- frontend/src/components/TopologyGraph.tsx: the graph that is drawn by React Flow. `cos`, `sin` and `pi` are those of `Math`, `before` is the order
-- of code units by which `sort` goes.
pub mod Laws
mod Tests
use Prim.Native.String.{◌++◌ as concat}
use micro_trace.Common.{
  ℕ, suc, ◌+◌, ◌*◌, String, Bool, true, false, not, ◌&&◌, ◌||◌, Option, none, some, List, [], ◌∷◌,
  ◌++◌, map, length, ltb, is_some, or_else, if◌then◌else◌, str_eq,
}
use micro_trace.Common.Arith.{Arith, gt, ge, max_num}
use micro_trace.Common.Dict.{Dict, lookup, insert, values}
use micro_trace.Common.Sort.{sort}
use micro_trace.Types.{StatSnapshot, Side}

-- `names.includes(name)`, and for a set of names `has`
abbrev pub has : List String → String → Bool
has [] name = false
has (x ∷ xs) name = str_eq x name || has xs name

-- `set.add(name)`
unfoldable pub add_to : List String → String → List String
add_to set name = if has set name then set else set ++ name ∷ []

-- `internalSet` and `externalSet`
pub record Sides : Type 0 where
  pub internal : List String
  pub external : List String

unfoldable pub add_side : Side → String → Sides → Sides
unfolding add_to
add_side Side.internal name s = record s { internal = add_to s.internal name }
add_side Side.external name s = record s { external = add_to s.external name }

abbrev pub no_sides : Sides
no_sides = record { internal = []; external = [] }

abbrev pub join : List String → String
join [] = ""
join (x ∷ []) = x
join (x ∷ y ∷ ys) = concat x (concat "," (join (y ∷ ys)))

-- `names.slice().sort().join(',')`
unfoldable pub names_key : (String → String → Bool) → List String → String
names_key before names = join (sort before names)

module _ (A : Arith) where
  open A use {Num, num, lt, add, sub, mul, div, to_fixed, show}

  unfoldable pub format_latency : Num → String
  format_latency us =
      if ge A us (num 1000)
      then concat (to_fixed (div us (num 1000)) 1) "ms"
      else concat (show us) "µs"

  unfoldable pub edge_color : StatSnapshot A → String
  edge_color snap =
      if snap.is_spike
      then "#ef4444"
      else if gt A snap.p99_us (num 10000)
      then "#f97316"
      else if gt A snap.p99_us (num 1000)
      then "#eab308"
      else "#22c55e"

  pub record FlowEdge : Type 0 where
    pub id : String
    pub source : String
    pub target : String
    pub animated : Bool
    pub label : String
    pub color : String
    pub width : ℕ

  abbrev flow_edge : String × StatSnapshot A → FlowEdge
  flow_edge e = record {
    id = e.0;
    source = (e.1).src_service;
    target = (e.1).dst_service;
    animated = (e.1).is_spike;
    label = format_latency (e.1).p50_us;
    color = edge_color e.1;
    width = if (e.1).is_spike then 3 else 2;
  }

  unfoldable pub flow_edges : Dict (StatSnapshot A) → List FlowEdge
  flow_edges snaps = map flow_edge snaps

  unfoldable pub sides_of : Dict (StatSnapshot A) → Sides → Sides
  unfolding add_side
  sides_of [] s = s
  sides_of ((k, snap) ∷ rest) s =
      sides_of rest
        (add_side snap.dst_type snap.dst_service (add_side snap.src_type snap.src_service s))

  abbrev pub all_services : Dict (StatSnapshot A) → List String
  all_services snaps = let s = sides_of snaps no_sides in s.internal ++ s.external

  pub record Place : Type 0 where
    pub x : Num
    pub y : Num

  -- `forEach((svc, i) => { positions[svc] = … })`
  unfoldable pub place_each : (ℕ → Place) → ℕ → List String → Dict Place → Dict Place
  place_each f i [] d = d
  place_each f i (name ∷ names) d = place_each f (i + 1) names (insert name (f i) d)

  pub record FlowNode : Type 0 where
    pub id : String
    pub position : Option Place
    pub internal : Bool

  -- `prev.forEach(n => { existingPositions[n.id] = n.position })`
  unfoldable pub positions : List FlowNode → Dict (Option Place) → Dict (Option Place)
  positions [] d = d
  positions (n ∷ ns) d = positions ns (insert n.id n.position d)

  -- `a ?? b`
  abbrev pub first_of : Option (Option Place) → Option Place → Option Place
  first_of (some (some p)) q = some p
  first_of _ q = q

  module _ (cos sin : Num → Num) (pi : Num) (before : String → String → Bool) where
    abbrev radius : List String → Num
    radius internal = max_num A (num 130) (num (length internal * 55))

    abbrev on_circle : List String → ℕ → Place
    on_circle internal i =
        let angle =
          sub (div (mul (mul (num 2) pi) (num i)) (num (length internal))) (div pi (num 2)) in
        record {
          x = add (num 400) (mul (radius internal) (cos angle));
          y = add (num 220) (mul (radius internal) (sin angle));
        }

    abbrev in_row : List String → List String → ℕ → Place
    in_row internal external i =
        let start =
          sub (num 400) (div (mul (sub (num (length external)) (num 1)) (num 200)) (num 2)) in
        record {
          x = add start (mul (num i) (num 200));
          y = add (add (num 220) (radius internal)) (num 180);
        }

    unfoldable pub layout_nodes : List String → List String → Dict Place
    unfolding place_each
    layout_nodes internal external =
        place_each (in_row internal external) 0 external
          (place_each (on_circle internal) 0 internal [])

    unfoldable pub next_node : Dict (StatSnapshot A) → List FlowNode → String → FlowNode
    unfolding positions layout_nodes
    next_node snaps prev name =
        let s = sides_of snaps no_sides in
        record {
          id = name;
          position =
              first_of (lookup name (positions prev []))
                (lookup name (layout_nodes s.internal s.external));
          internal = has s.internal name;
        }

    -- The update function of `setNodes`.
    unfoldable pub update_nodes : Dict (StatSnapshot A) → List FlowNode → List FlowNode
    unfolding names_key next_node
    update_nodes snaps prev =
        if str_eq (names_key before (map (λ n. n.id) prev)) (names_key before (all_services snaps))
        then prev
        else map (next_node snaps prev) (all_services snaps)

    -- What the component holds: its nodes and edges, the keys that the second effect last ran for, and `initialFitDone`.
    pub record Graph : Type 0 where
      pub nodes : List FlowNode
      pub edges : List FlowEdge
      pub keys : Option String
      pub fit_done : Bool

    abbrev keys_of : Dict (StatSnapshot A) → List String
    keys_of snaps = map (λ e. e.0) snaps

    -- `Object.keys(snapshots).sort().join(',')` is another than at the last run.
    abbrev other_keys : Option String → String → Bool
    other_keys none key = true
    other_keys (some k) key = not (str_eq k key)

    -- The two effects after a render with other snapshots.
    unfoldable pub on_snapshots : Dict (StatSnapshot A) → Graph → Graph
    unfolding flow_edges update_nodes
    on_snapshots snaps g =
        let key = names_key before (keys_of snaps) in
        let nodes = if other_keys g.keys key then update_nodes snaps g.nodes else g.nodes in
        let same =
          str_eq (names_key before (map (λ n. n.id) g.nodes))
            (names_key before (all_services snaps)) in
        record {
          nodes = nodes;
          edges = flow_edges snaps;
          keys = some key;
          fit_done =
              g.fit_done
              || (other_keys g.keys key && not same && ltb 0 (length (all_services snaps)));
        }

  -- The dividing line is drawn.
  unfoldable pub has_external : List (StatSnapshot A) → Bool
  has_external [] = false
  has_external (s ∷ ss) = is_external s.src_type || is_external s.dst_type || has_external ss
    where
      is_external : Side → Bool
      is_external Side.internal = false
      is_external Side.external = true
