-- ===== src/Flow/Laws.antt =====
-- The nodes of TopologyGraph.tsx: which there are, and where they stand.
use micro_trace.Common.{
  false, eq_refl, ℕ, ◌+◌, String, Bool, true, ◌&&◌, ◌||◌, Option, none, some, List, [], ◌∷◌, ◌++◌,
  map, is_some, if◌then◌else◌, str_eq, eq_iff, ◌≡◌, refl, ap, ◌∙◌, arith, Bool-cases, inl, inr,
}
use micro_trace.Common.Arith.{Arith}
use micro_trace.Common.Dict.{Dict, lookup, insert, lookup-insert}
use micro_trace.Types.{StatSnapshot, Side}
use micro_trace.Flow.{
  add_to, Sides, add_side, has, sides_of, Place, place_each, FlowNode, positions, first_of,
  no_sides, layout_nodes, names_key, all_services, next_node, update_nodes,
}

module _ (A : Arith) where
  written :
      {V : Type 0} (f : String → V) (b : Bool) (x k : String) (d : Dict V)
      → (if b then some (f k) else lookup k (insert x (f x) d))
        ≡ (if str_eq x k || b then some (f k) else lookup k d)
  written f b x k d = elim (Bool-cases (str_eq x k)) [
    | inl e ↦ rw (lookup-insert x k (f x) d, e, (eq_iff x k).0 e) (ground arith)
    | inr e ↦ rw (lookup-insert x k (f x) d, e) refl
  ]

  -- Every name of the list is placed, and none is lost.
  place_each-lookup :
      (f : ℕ → Place A) (i : ℕ) (names : List String) (d : Dict (Place A)) (k : String)
      → is_some (lookup k (place_each A f i names d)) ≡ has names k || is_some (lookup k d)
  unfolding place_each
  place_each-lookup f i [] d k = refl
  place_each-lookup f i (name ∷ names) d k =
      place_each-lookup f (i + 1) names (insert name (f i) d) k
      ∙ ground (arith, lookup-insert name k (f i) d)

  has-append : (xs ys : List String) (k : String) → has (xs ++ ys) k ≡ has xs k || has ys k
  has-append [] ys k = refl
  has-append (x ∷ xs) ys k = ground (arith, has-append xs ys k)

  abbrev pub all_placed : List (FlowNode A) → Bool
  all_placed [] = true
  all_placed (n ∷ ns) = is_some n.position && all_placed ns

  -- A connection has a service of this side with this name at one of its ends.
  abbrev is_side : Side → Side → Bool
  is_side Side.internal Side.internal = true
  is_side Side.external Side.external = true
  is_side _ _ = false

  abbrev pub is_end : Side → String → Dict (StatSnapshot A) → Bool
  is_end side k [] = false
  is_end side k ((key, snap) ∷ rest) =
      (is_side side snap.src_type && str_eq snap.src_service k)
      || (is_side side snap.dst_type && str_eq snap.dst_service k)
      || is_end side k rest

  abbrev names_of : Side → Sides → List String
  names_of Side.internal s = s.internal
  names_of Side.external s = s.external

  has-snoc : (xs : List String) (x k : String) → has (xs ++ x ∷ []) k ≡ str_eq x k || has xs k
  has-snoc xs x k = has-append xs (x ∷ []) k ∙ ground arith

  has-add_to : (xs : List String) (x k : String) → has (add_to xs x) k ≡ str_eq x k || has xs k
  unfolding add_to
  has-add_to xs x k = elim (Bool-cases (has xs x)) [
    | inl e ↦ rw e (ground (arith, eq_iff x k, ap (has xs)))
    | inr e ↦ rw e (has-snoc xs x k)
  ]

  has-add_side :
      (side other : Side) (x k : String) (s : Sides)
      → has (names_of side (add_side other x s)) k
        ≡ (is_side side other && str_eq x k) || has (names_of side s) k
  unfolding add_side
  has-add_side Side.internal Side.internal x k s = has-add_to s.internal x k
  has-add_side Side.internal Side.external x k s = refl
  has-add_side Side.external Side.internal x k s = refl
  has-add_side Side.external Side.external x k s = has-add_to s.external x k

  sides_of-is_end :
      (side : Side) (k : String) (snaps : Dict (StatSnapshot A)) (s : Sides)
      → has (names_of side (sides_of A snaps s)) k ≡ is_end side k snaps || has (names_of side s) k
  unfolding sides_of
  sides_of-is_end side k [] s = refl
  sides_of-is_end side k ((key, snap) ∷ rest) s =
      let once = add_side snap.src_type snap.src_service s in
      ground (
        arith,
        sides_of-is_end side k rest (add_side snap.dst_type snap.dst_service once),
        has-add_side side snap.dst_type snap.dst_service k once,
        has-add_side side snap.src_type snap.src_service k s,
      )

  all_services-is_end :
      (k : String) (snaps : Dict (StatSnapshot A))
      → has (all_services A snaps) k ≡ is_end Side.internal k snaps || is_end Side.external k snaps
  all_services-is_end k snaps =
      let s = sides_of A snaps no_sides in
      ground (
        arith,
        has-append s.internal s.external k,
        sides_of-is_end Side.internal k snaps no_sides,
        sides_of-is_end Side.external k snaps no_sides,
      )

  module _ (cos sin : A.Num → A.Num) (pi : A.Num) (before : String → String → Bool) where
    layout-lookup :
        (internal external : List String) (k : String)
        → is_some (lookup k (layout_nodes A cos sin pi before internal external))
          ≡ has external k || has internal k
    unfolding layout_nodes lookup
    layout-lookup internal external k =
        place_each-lookup _ 0 external _ k ∙ rw (place_each-lookup _ 0 internal [] k) (ground arith)

    first_of-some :
        (a : Option (Option (Place A))) (b : Option (Place A))
        → is_some b ≡ true
        → is_some (first_of A a b) ≡ true
    first_of-some none b h = h
    first_of-some (some none) b h = h
    first_of-some (some (some p)) b h = refl

    ids_of_nodes :
        (snaps : Dict (StatSnapshot A)) (prev : List (FlowNode A)) (names : List String)
        → map (λ n. n.id) (map (next_node A cos sin pi before snaps prev) names) ≡ names
    unfolding next_node
    ids_of_nodes snaps prev [] = refl
    ids_of_nodes snaps prev (x ∷ names) = ap (λ r. x ∷ r) (ids_of_nodes snaps prev names)

    node_placed :
        (snaps : Dict (StatSnapshot A)) (prev : List (FlowNode A)) (k : String)
        → has (all_services A snaps) k ≡ true
        → is_some (next_node A cos sin pi before snaps prev k).position ≡ true
    unfolding next_node
    node_placed snaps prev k h =
        let s = sides_of A snaps no_sides in
        first_of-some _ _ (
          layout-lookup s.internal s.external k
          ∙ ground (arith, h, has-append s.internal s.external k))

    nodes_placed :
        (snaps : Dict (StatSnapshot A)) (prev : List (FlowNode A)) (names : List String)
        → ((k : String) → has names k ≡ true → has (all_services A snaps) k ≡ true)
        → all_placed (map (next_node A cos sin pi before snaps prev) names) ≡ true
    nodes_placed snaps prev [] h = refl
    nodes_placed snaps prev (x ∷ names) h =
        rw
          (
            node_placed snaps prev x (h x (ground (arith, eq_refl x))),
            nodes_placed snaps prev names (λ k q. h k (ground (arith, q))),
          )
          refl

    -- After an update the names of the nodes, sorted and joined, are those of `all_services`, in which stand exactly the names at the ends of
    -- the connections reported, be they internal or external there; and every node has a position, where every node had one before.
    pub update_nodes_lem :
        (snaps : Dict (StatSnapshot A)) (prev : List (FlowNode A))
        → all_placed prev ≡ true
        → let next = update_nodes A cos sin pi before snaps prev in
          (names_key before (map (λ n. n.id) next) ≡ names_key before (all_services A snaps))
          × ((k : String)
              → has (all_services A snaps) k
                ≡ is_end Side.internal k snaps || is_end Side.external k snaps)
          × (all_placed next ≡ true)
    unfolding update_nodes
    update_nodes_lem snaps prev h =
        elim (Bool-cases (
          str_eq (names_key before (map (λ n. n.id) prev))
            (names_key before (all_services A snaps)))) [
              | inl e ↦ rw e ((eq_iff _ _).0 e, λ k. all_services-is_end k snaps, h)
              | inr e ↦ rw e (
                ap (names_key before) (ids_of_nodes snaps prev _),
                λ k. all_services-is_end k snaps,
                nodes_placed snaps prev _ (λ k q. q),
              )
            ]

    positions-lookup :
        (snaps : Dict (StatSnapshot A)) (prev : List (FlowNode A)) (names : List String)
        (d : Dict (Option (Place A))) (k : String)
        → lookup k (positions A (map (next_node A cos sin pi before snaps prev) names) d) ≡ (
            if has names k
            then some (next_node A cos sin pi before snaps prev k).position
            else lookup k d)
    unfolding positions next_node
    positions-lookup snaps prev [] d k = refl
    positions-lookup snaps prev (x ∷ names) d k =
        positions-lookup snaps prev names _ k
        ∙ written (λ j. (next_node A cos sin pi before snaps prev j).position) (has names k) x k d

    -- A service that has a node keeps its position, wherever it was dragged, as long as the messages name it.
    pub update_nodes-keeps :
        (snaps : Dict (StatSnapshot A)) (prev : List (FlowNode A)) (k : String) (p : Place A)
        → lookup k (positions A prev []) ≡ some (some p)
        → has (all_services A snaps) k ≡ true
        → lookup k (positions A (update_nodes A cos sin pi before snaps prev) []) ≡ some (some p)
    unfolding update_nodes next_node
    update_nodes-keeps snaps prev k p e h =
        elim (Bool-cases (
          str_eq (names_key before (map (λ n. n.id) prev))
            (names_key before (all_services A snaps)))) [
              | inl q ↦ rw q e
              | inr q ↦
                  rw q (positions-lookup snaps prev (all_services A snaps) [] k ∙ rw (h, e) refl)
            ]
