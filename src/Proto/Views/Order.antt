-- ===== src/Proto/Views/Order.antt =====
-- The rows of the prototype's list against those of ConnectionListView.tsx.
use micro_trace.Common.{
  ◌&&◌, ℕ, ◌+◌, String, Bool, true, false, List, [], ◌∷◌, map, select, if◌then◌else◌, some, ◌≡◌,
  refl, sym, ap, ◌∙◌, arith, Bool-cases, inl, inr,
}
use micro_trace.Common.Arith.{Arith}
use micro_trace.Common.Dict.{Dict, values}
use micro_trace.Common.Sort.{place, sort}
use micro_trace.Types.{StatSnapshot}
use micro_trace.ListView
use micro_trace.ListView.{
  FilterMode, all, spiking, stressed, SortCol, connection, p50, p95, p99, retrans, SortDir, asc,
  desc, same_col, ListState,
}
use micro_trace.Mock.Chance.{World}
use micro_trace.Mock.Tick.{run}
use micro_trace.Proto.Data.{ProtoSnap}
use micro_trace.Proto.Agree.{map_values, strip, bare}
use micro_trace.Mock.Conn.{internal_services, includes}
use micro_trace.Proto.Page.{Input, Page, Browser, browse, warm}
use micro_trace.Proto.Page.Tweaked.{externals, browse-externals}
use micro_trace.Proto.Page.View.{is_inside, visible_snapshots, app_view}
use micro_trace.Proto.Page.Mount.{fires}
use micro_trace.Proto.Page.Loop.{browse-Runs}
use micro_trace.Proto.Views.{is_hot, narrow, precedes, list_rows}

module _ {X Y : Type 0} (f : X → Y) where
  map-place :
      (b : X → X → Bool) (b' : Y → Y → Bool)
      → ((x y : X) → b x y ≡ b' (f x) (f y))
      → (x : X) (ys : List X) → map f (place b x ys) ≡ place b' (f x) (map f ys)
  unfolding place
  map-place b b' h x [] = refl
  map-place b b' h x (y ∷ ys) = ground (arith, h y x, map-place b b' h x ys)

  -- A sort commutes with a map that keeps the order.
  map-sort :
      (b : X → X → Bool) (b' : Y → Y → Bool)
      → ((x y : X) → b x y ≡ b' (f x) (f y))
      → (xs : List X) → map f (sort b xs) ≡ sort b' (map f xs)
  unfolding sort
  map-sort b b' h [] = refl
  map-sort b b' h (x ∷ xs) =
      map-place b b' h x (sort b xs) ∙ ap (place b' (f x)) (map-sort b b' h xs)

  map-select :
      (p : X → Bool) (p' : Y → Bool)
      → ((x : X) → p x ≡ p' (f x))
      → (xs : List X) → map f (select p xs) ≡ select p' (map f xs)
  map-select p p' h [] = refl
  map-select p p' h (x ∷ xs) = ground (arith, h x, map-select p p' h xs)

  values-map_values : (d : Dict X) → values (map_values f d) ≡ map f (values d)
  unfolding values
  values-map_values [] = refl
  values-map_values ((k, v) ∷ d) = ap (λ vs. f v ∷ vs) (values-map_values d)

values-select :
    {X : Type 0} (p : X → Bool) (d : Dict X) → values (select (λ e. p e.1) d) ≡ select p (values d)
unfolding values
values-select p [] = refl
values-select p ((k, v) ∷ d) = elim (Bool-cases (p v)) [
  | inl e ↦ rw e (ap (λ vs. v ∷ vs) (values-select p d))
  | inr e ↦ rw e (values-select p d)
]

-- A comparison that never puts one of two first leaves the list as it is.
sort_none :
    {X : Type 0} (b : X → X → Bool) → ((x y : X) → b x y ≡ false) → (xs : List X) → sort b xs ≡ xs
unfolding sort
sort_none b h [] = refl
sort_none b h (x ∷ xs) = ap (place b x) (sort_none b h xs) ∙ place_first xs
  where
    place_first : (ys : List _) → place b x ys ≡ x ∷ ys
    place_first [] = refl
    place_first (y ∷ ys) = rw (h y x) refl

module _ (A : Arith) (w : World A) (less : String → String → Bool) where
  hot-strip : (p : ProtoSnap A w) → is_hot A w p ≡ ListView.is_stressed A less (strip A w p)
  unfolding is_hot ListView.is_stressed
  hot-strip p = refl

  narrow-strip :
      (mode : FilterMode) (ps : List (ProtoSnap A w))
      → map (strip A w) (narrow A w mode ps)
        ≡ ListView.apply_filter A less mode (map (strip A w) ps)
  unfolding narrow ListView.apply_filter
  narrow-strip all ps = refl
  narrow-strip spiking ps = map-select (strip A w) _ _ (λ p. refl) ps
  narrow-strip stressed ps = map-select (strip A w) _ _ hot-strip ps

  precedes-strip :
      (col : SortCol) (dir : SortDir) (p q : ProtoSnap A w)
      → same_col col connection ≡ false
      → precedes A w col dir p q ≡ ListView.before A less col dir (strip A w p) (strip A w q)
  unfolding precedes ListView.before
  precedes-strip connection dir p q h = cc
  precedes-strip p50 asc p q h = refl
  precedes-strip p50 desc p q h = refl
  precedes-strip p95 asc p q h = refl
  precedes-strip p95 desc p q h = refl
  precedes-strip p99 asc p q h = refl
  precedes-strip p99 desc p q h = refl
  precedes-strip retrans asc p q h = refl
  precedes-strip retrans desc p q h = refl

  list_rows-strip :
      (s : ListState) (ps : List (ProtoSnap A w))
      → same_col s.sort_col connection ≡ false
      → map (strip A w) (list_rows A w s ps) ≡ ListView.shown A less s (map (strip A w) ps)
  unfolding list_rows ListView.shown
  list_rows-strip s ps h =
      map-sort (strip A w) (precedes A w s.sort_col s.sort_dir) _
        (λ p q. precedes-strip s.sort_col s.sort_dir p q h) (narrow A w s.filter ps)
      ∙ ap (sort (ListView.before A less s.sort_col s.sort_dir)) (narrow-strip s.filter ps)

  filter-bare :
      (mode : FilterMode) (ss : List (StatSnapshot A))
      → map (bare A w) (ListView.apply_filter A less mode ss)
        ≡ ListView.apply_filter A less mode (map (bare A w) ss)
  unfolding ListView.apply_filter ListView.is_stressed
  filter-bare all ss = refl
  filter-bare spiking ss = map-select (bare A w) _ _ (λ s. refl) ss
  filter-bare stressed ss = map-select (bare A w) _ _ (λ s. refl) ss

  before-bare :
      (col : SortCol) (dir : SortDir) (s t : StatSnapshot A)
      → ListView.before A less col dir s t
        ≡ ListView.before A less col dir (bare A w s) (bare A w t)
  unfolding ListView.before
  before-bare connection asc s t = refl
  before-bare connection desc s t = refl
  before-bare p50 asc s t = refl
  before-bare p50 desc s t = refl
  before-bare p95 asc s t = refl
  before-bare p95 desc s t = refl
  before-bare p99 asc s t = refl
  before-bare p99 desc s t = refl
  before-bare retrans asc s t = refl
  before-bare retrans desc s t = refl

  shown-bare :
      (s : ListState) (ss : List (StatSnapshot A))
      → map (bare A w) (ListView.shown A less s ss) ≡ ListView.shown A less s (map (bare A w) ss)
  unfolding ListView.shown
  shown-bare s ss =
      map-sort (bare A w) (ListView.before A less s.sort_col s.sort_dir) _
        (before-bare s.sort_col s.sort_dir) (ListView.apply_filter A less s.filter ss)
      ∙ ap (sort (ListView.before A less s.sort_col s.sort_dir)) (filter-bare s.filter ss)

  same_connection : (col : SortCol) → same_col col connection ≡ true → col ≡ connection
  same_connection connection h = refl
  same_connection p50 h = cc
  same_connection p95 h = cc
  same_connection p99 h = cc
  same_connection retrans h = cc

  -- Sorted by the names, the list has its rows in the order of the dictionary, in either direction.
  list_rows_connection :
      (s : ListState) (ps : List (ProtoSnap A w))
      → s.sort_col ≡ connection
      → list_rows A w s ps ≡ narrow A w s.filter ps
  unfolding list_rows precedes
  list_rows_connection s ps h =
      rw h (sort_none (precedes A w connection s.sort_dir) (λ p q. refl) (narrow A w s.filter ps))

  -- The rows of the dashboard's list, or those that pass its filter in the order of the dictionary.
  abbrev pub reference : ListState → List (StatSnapshot A) → List (StatSnapshot A)
  reference s ss =
      if same_col s.sort_col connection
      then ListView.apply_filter A less s.filter ss
      else ListView.shown A less s ss

  list_rows-reference :
      (s : ListState) (ps : List (ProtoSnap A w))
      → map (strip A w) (list_rows A w s ps) ≡ reference s (map (strip A w) ps)
  list_rows-reference s ps = elim (Bool-cases (same_col s.sort_col connection)) [
    | inl e ↦ rw e (
        ap (map (strip A w)) (list_rows_connection s ps (same_connection s.sort_col e))
        ∙ narrow-strip s.filter ps)
    | inr e ↦ rw e (list_rows-strip s ps e)
  ]

  reference-bare :
      (s : ListState) (ss : List (StatSnapshot A))
      → map (bare A w) (reference s ss) ≡ reference s (map (bare A w) ss)
  reference-bare s ss = elim (Bool-cases (same_col s.sort_col connection)) [
    | inl e ↦ rw e (filter-bare s.filter ss)
    | inr e ↦ rw e (shown-bare s ss)
  ]

  -- The connections that the page hands to its list: all of them, or those between two services of the cluster.
  abbrev pub within : StatSnapshot A → Bool
  within s = includes internal_services s.src_service && includes internal_services s.dst_service

  abbrev pub handed : Bool → List (StatSnapshot A) → List (StatSnapshot A)
  handed true ss = ss
  handed false ss = select within ss

  visible-handed :
      (p : Page A w)
      → map (strip A w) (values (visible_snapshots A w p))
        ≡ handed (p.tweaks).show_external (map (strip A w) (values p.snapshots))
  unfolding visible_snapshots
  visible-handed p = elim (Bool-cases (p.tweaks).show_external) [
    | inl whole ↦ rw whole refl
    | inr part ↦ rw part (
        ap (map (strip A w)) (values-select (is_inside A w) p.snapshots)
        ∙ map-select (strip A w) (is_inside A w) within (λ q. refl) (values p.snapshots))
  ]

  handed-bare :
      (b : Bool) (ss : List (StatSnapshot A))
      → handed b (map (bare A w) ss) ≡ map (bare A w) (handed b ss)
  handed-bare true ss = refl
  handed-bare false ss = sym (map-select (bare A w) within within (λ s. refl) ss)

  -- After any inputs, the list that the prototype's page draws has the rows that the dashboard's list would have of the same connections after as
  -- many ticks of the hook, in the same order (`strip` and `bare` leave out what the prototype's snapshots lack): of all connections, or
  -- of those within the cluster where the box of the tweaks was last set to hide the others (`externals`, `handed`). Except that, sorted by the names of the
  -- connections, it has the rows that pass the filter in the order of the dictionary, in either direction.
  pub list_rows-shown :
      (es : List Input) (i : ℕ) (s : ListState)
      → let r = run A w (warm + fires es) i in
        (b : Browser A w) × (browse A w es i ≡ some (b, r.1))
        × (map (strip A w) (list_rows A w s (values (app_view A w b.page).view_snapshots))
            ≡ map (bare A w) (reference s (handed (externals es) (values (r.0).snapshots))))
  unfolding app_view
  list_rows-shown es i s =
      let (b, runs, r) = browse-Runs A w es i in
      let m = (run A w (warm + fires es) i).0 in
      let shown = externals es in
      let chosen = browse-externals A w es i _ b runs in
      (
        b,
        runs,
        list_rows-reference s (values (visible_snapshots A w b.page))
            ∙ ap (reference s) (
                visible-handed b.page
                ∙ ap (λ v. handed v (map (strip A w) (values (b.page).snapshots))) chosen
                ∙ ap (handed shown) (
                    sym (values-map_values (strip A w) (b.page).snapshots)
                    ∙ ap values (r.shown).snapshots
                    ∙ values-map_values (bare A w) m.snapshots)
                ∙ handed-bare shown (values m.snapshots))
            ∙ sym (reference-bare s (handed shown (values m.snapshots))),
      )
