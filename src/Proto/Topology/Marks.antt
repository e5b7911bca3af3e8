-- ===== src/Proto/Topology/Marks.antt =====
-- The services that mt-topology.jsx draws, and how they are marked.
use micro_trace.Common.{
  not, none, some, or_else, String, Bool, true, false, ◌&&◌, ◌||◌, Option, List, [], ◌∷◌, map,
  if◌then◌else◌, str_eq, eq_iff, ◌≡◌, refl, ap, ◌∙◌, arith,
}
use micro_trace.Common.Arith.{Arith}
use micro_trace.Common.Dict.{Dict, lookup, insert, values, lookup-insert}
use micro_trace.Types.{ServiceSnapshot, Stress, StressKind}
use micro_trace.Topo.View.{stress_color}
use micro_trace.Metrics.{add_name}
use micro_trace.Mock.Chance.{World}
use micro_trace.Mock.Conn.{internal_services, includes}
use micro_trace.Proto.Data.{ProtoSnap}
use micro_trace.Proto.Views.{is_selected}
use micro_trace.Proto.Topology.{
  Dims, xy, node_set, flag_ends, is_flagged, ServiceNode, service_node, nodes, stress_hue,
  border_of, halo_of,
}

includes-add_name :
    (x y : String) (ys : List String) → includes (add_name x ys) y ≡ (str_eq x y || includes ys y)
unfolding add_name
includes-add_name x y [] = refl
includes-add_name x y (z ∷ zs) =
    ground (arith, eq_iff z x, eq_iff z y, eq_iff x y, includes-add_name x y zs)

-- No name stands twice.
abbrev pub AreDistinct : List String → Type 0
AreDistinct [] = Unit
AreDistinct (x ∷ xs) = (includes xs x ≡ false) × AreDistinct xs

add_name-AreDistinct :
    (x : String) (ys : List String) → AreDistinct ys → AreDistinct (add_name x ys)
unfolding add_name
add_name-AreDistinct x [] h = (refl, tt)
add_name-AreDistinct x (y ∷ ys) (n, h) =
    ground (arith, eq_iff y x, eq_iff x y, includes-add_name x y ys, add_name-AreDistinct x ys h)

module _ (A : Arith) (w : World A) where
  -- A connection that passes the test has the service at one of its ends.
  abbrev pub touched : (ProtoSnap A w → Bool) → String → List (ProtoSnap A w) → Bool
  touched test svc [] = false
  touched test svc (s ∷ snaps) =
      (test s && (str_eq s.src_service svc || str_eq s.dst_service svc)) || touched test svc snaps

  flag_ends-touched :
      (test : ProtoSnap A w → Bool) (svc : String) (found : Dict Bool)
      (snaps : List (ProtoSnap A w))
      → is_flagged A w (flag_ends A w test found snaps) svc
        ≡ (is_flagged A w found svc || touched test svc snaps)
  unfolding flag_ends
  flag_ends-touched test svc found [] = ground arith
  flag_ends-touched test svc found (s ∷ snaps) =
      let after = insert s.dst_service true (insert s.src_service true found) in
      ground (
        arith,
        flag_ends-touched test svc (if test s then after else found) snaps,
        lookup-insert s.dst_service svc true (insert s.src_service true found),
        lookup-insert s.src_service svc true found,
      )

  node_set-touched :
      (svc : String) (names : List String) (snaps : List (ProtoSnap A w))
      → includes (node_set A w names snaps) svc
        ≡ (includes names svc || touched (λ s. true) svc snaps)
  unfolding node_set
  node_set-touched svc names [] = ground arith
  node_set-touched svc names (s ∷ snaps) =
      let first = add_name s.src_service names in
      ground (
        arith,
        node_set-touched svc (add_name s.dst_service first) snaps,
        includes-add_name s.dst_service svc first,
        includes-add_name s.src_service svc names,
      )

  node_set-AreDistinct :
      (names : List String) (snaps : List (ProtoSnap A w))
      → AreDistinct names
      → AreDistinct (node_set A w names snaps)
  unfolding node_set
  node_set-AreDistinct names [] h = h
  node_set-AreDistinct names (s ∷ snaps) h =
      node_set-AreDistinct (add_name s.dst_service (add_name s.src_service names)) snaps
        (add_name-AreDistinct s.dst_service _ (add_name-AreDistinct s.src_service names h))

  map_same :
      {X Y : Type 0} (f g : X → Y) → ((x : X) → f x ≡ g x) → (xs : List X) → map f xs ≡ map g xs
  map_same f g h [] = refl
  map_same f g h (x ∷ xs) = ap (λ y. y ∷ map f xs) (h x) ∙ ap (λ ys. g x ∷ ys) (map_same f g h xs)

  -- The services drawn, by their names, and one of them with the marks that the connections give it.
  abbrev pub drawn :
      Dims A w → Dict (ProtoSnap A w) → Dict (ServiceSnapshot A) → Option String → List String
  drawn d snapshots services key = map (λ n. n.name) (nodes A w d snapshots services key)

  abbrev pub marked :
      Dims A w
      → List (ProtoSnap A w)
      → Dict (ServiceSnapshot A)
      → Option String
      → String
      → ServiceNode A w
  marked d snaps services key svc =
      service_node A w (xy A w d svc) svc (lookup svc services) (includes internal_services svc)
        (touched (λ s. s.is_spike) svc snaps) (touched (λ s. is_selected key s.key) svc snaps)

  nodes-node_set :
      (d : Dims A w) (snapshots : Dict (ProtoSnap A w)) (services : Dict (ServiceSnapshot A))
      (key : Option String)
      → nodes A w d snapshots services key
        ≡ map (marked d (values snapshots) services key) (node_set A w [] (values snapshots))
  unfolding nodes lookup
  nodes-node_set d snapshots services key =
      let snaps = values snapshots in
      let spikes = flag_ends A w (λ s. s.is_spike) [] snaps in
      let chosen = flag_ends A w (λ s. is_selected key s.key) [] snaps in
      let node = λ (svc : String) (spike selected : Bool).
        service_node A w (xy A w d svc) svc (lookup svc services) (includes internal_services svc)
          spike selected in
      map_same (λ svc. node svc (is_flagged A w spikes svc) (is_flagged A w chosen svc))
        (marked d snaps services key)
        (λ svc.
          ap (λ f. node svc f (is_flagged A w chosen svc))
            (flag_ends-touched (λ s. s.is_spike) svc [] snaps)
          ∙ ap (node svc (touched (λ s. s.is_spike) svc snaps))
              (flag_ends-touched (λ s. is_selected key s.key) svc [] snaps))
        (node_set A w [] snaps)

  map_names :
      (d : Dims A w) (snaps : List (ProtoSnap A w)) (services : Dict (ServiceSnapshot A))
      (key : Option String) (names : List String)
      → map (λ n. n.name) (map (marked d snaps services key) names) ≡ names
  unfolding service_node
  map_names d snaps services key [] = refl
  map_names d snaps services key (x ∷ xs) = ap (λ ys. x ∷ ys) (map_names d snaps services key xs)

  -- What marks a service in the drawing.
  pub record Look : Type 0 where
    pub name : String
    pub border : String
    pub halo : Option String
    pub dashed : Bool

  abbrev pub look : ServiceNode A w → Look
  look n = record { name = n.name; border = n.border; halo = n.halo; dashed = n.dashed }

  abbrev kind_hue : StressKind → Option String
  kind_hue none = none
  kind_hue (some Stress.cpu) = some "#dc2626"
  kind_hue (some Stress.io) = some "#7c3aed"
  kind_hue (some Stress.memory) = some "#ea580c"

  abbrev hue : Option (ServiceSnapshot A) → Option String
  hue none = none
  hue (some svc) = kind_hue svc.stress_kind

  abbrev or_red : Option String → Bool → Option String
  or_red (some c) spiking = some c
  or_red none true = some "#dc2626"
  or_red none false = none

  -- The border of the selected is blue, of the others in the halo's colour, or grey; the halo has the colour of the stress, or is red of a
  -- spike; and the border of a service that is not an internal one is dashed.
  abbrev pub pictured :
      List (ProtoSnap A w) → Dict (ServiceSnapshot A) → Option String → String → Look
  pictured snaps services key svc =
      let halo = or_red (hue (lookup svc services)) (touched (λ s. s.is_spike) svc snaps) in
      record {
        name = svc;
        border =
            if touched (λ s. is_selected key s.key) svc snaps
            then "#2563eb"
            else or_else halo "#cbd5e1";
        halo = halo;
        dashed = not (includes internal_services svc);
      }

  stress_hue-hue : (o : Option (ServiceSnapshot A)) → stress_hue A w o ≡ hue o
  stress_hue-hue none = refl
  stress_hue-hue (some svc) = kind svc.stress_kind
    where
      kind : (k : StressKind) → stress_color A k ≡ kind_hue k
      kind none = refl
      kind (some Stress.cpu) = refl
      kind (some Stress.io) = refl
      kind (some Stress.memory) = refl

  border_lem :
      (selected : Bool) (o : Option String) (spiking : Bool)
      → border_of A w selected o spiking
        ≡ (if selected then "#2563eb" else or_else (or_red o spiking) "#cbd5e1")
  border_lem true o spiking = refl
  border_lem false (some c) spiking = refl
  border_lem false none true = refl
  border_lem false none false = refl

  halo_lem : (o : Option String) (spiking : Bool) → halo_of A w o spiking ≡ or_red o spiking
  halo_lem (some c) spiking = refl
  halo_lem none true = refl
  halo_lem none false = refl

  marked-pictured :
      (d : Dims A w) (snaps : List (ProtoSnap A w)) (services : Dict (ServiceSnapshot A))
      (key : Option String) (svc : String)
      → look (marked d snaps services key svc) ≡ pictured snaps services key svc
  unfolding service_node
  marked-pictured d snaps services key svc =
      rw
        (
          stress_hue-hue (lookup svc services),
          border_lem (touched (λ s. is_selected key s.key) svc snaps) (hue (lookup svc services))
              (touched (λ s. s.is_spike) svc snaps),
          halo_lem (hue (lookup svc services)) (touched (λ s. s.is_spike) svc snaps),
        )
        refl

  looks :
      (d : Dims A w) (snaps : List (ProtoSnap A w)) (services : Dict (ServiceSnapshot A))
      (key : Option String) (names : List String)
      → map look (map (marked d snaps services key) names) ≡ map (pictured snaps services key) names
  looks d snaps services key [] = refl
  looks d snaps services key (x ∷ xs) =
      ap (λ l. l ∷ map look (map (marked d snaps services key) xs))
        (marked-pictured d snaps services key x)
      ∙ ap (λ ls. pictured snaps services key x ∷ ls) (looks d snaps services key xs)

  -- The graph of the prototype draws each service once, and exactly the ends of the connections. Each is marked by what its connections and its
  -- resources say (`pictured`): blue where one of its connections is selected; else in the colour of its stress; else red
  -- where one of its connections has a spike; and with a halo in the colour of its stress, or red of a spike.
  pub nodes-marked :
      (d : Dims A w) (snapshots : Dict (ProtoSnap A w)) (services : Dict (ServiceSnapshot A))
      (key : Option String) (svc : String)
      → AreDistinct (drawn d snapshots services key)
        × (includes (drawn d snapshots services key) svc
            ≡ touched (λ s. true) svc (values snapshots))
        × (map look (nodes A w d snapshots services key)
            ≡ map (pictured (values snapshots) services key) (drawn d snapshots services key))
  nodes-marked d snapshots services key svc =
      let snaps = values snapshots in
      let all = nodes-node_set d snapshots services key in
      let names : drawn d snapshots services key ≡ node_set A w [] snaps =
        ap (map (λ n. n.name)) all ∙ map_names d snaps services key (node_set A w [] snaps) in
      rw names (
        node_set-AreDistinct [] snaps tt,
        node_set-touched svc [] snaps,
        ap (map look) all ∙ looks d snaps services key (node_set A w [] snaps),
      )
