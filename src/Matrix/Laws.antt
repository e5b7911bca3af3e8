-- ===== src/Matrix/Laws.antt =====
-- What the cells and the marks of HeatmapMatrixView.tsx say, on live data.
use micro_trace.Common.{
  String, Bool, Option, none, some, List, [], ◌∷◌, if◌then◌else◌, str_eq, ◌≡◌, refl, subst, true,
  false, ◌∙◌, arith, eq_iff,
}
use micro_trace.Common.Arith.{Arith}
use micro_trace.Common.Dict.{
  Dict, lookup, insert, values, AllEntries, HasUniqueKeys, IsFresh, lookup_of_IsFresh,
  lookup-insert,
}
use micro_trace.Common.Key.{edge_key}
use micro_trace.Types.{StatSnapshot}
use micro_trace.Socket.{snap_key}
use micro_trace.Socket.Trace.{Frame, run, latest, lookup-run}
use micro_trace.Socket.Invariant.{run-IsWellFormed}
use micro_trace.Format.{Status, latency_status, fmt_us}
use micro_trace.Matrix.{
  snap_map, cell, cell_of, Border, chosen, spike, plain, Cell, empty, filled, border_of,
  is_selected,
}

module _ (A : Arith) (less : String → String → Bool) where
  abbrev first_of : Option (StatSnapshot A) → Option (StatSnapshot A) → Option (StatSnapshot A)
  first_of none later = later
  first_of (some s) later = some s

  first_of-insert :
      (k j : String) (v : StatSnapshot A) (found d : Dict (StatSnapshot A))
      → IsFresh j d
      → first_of (lookup k d) (lookup k (insert j v found))
        ≡ first_of (if str_eq j k then some v else lookup k d) (lookup k found)
  first_of-insert k j v found d f =
      rw (lookup-insert j k v found) (ground (arith, eq_iff j k, lookup_of_IsFresh j d f))

  first_of-none : (k : String) (o : Option (StatSnapshot A)) → first_of o (lookup k []) ≡ o
  unfolding lookup
  first_of-none k none = refl
  first_of-none k (some v) = refl

  -- The map that the view builds from the values agrees with the dictionary that they come from.
  lookup-snap_map :
      (k : String) (found d : Dict (StatSnapshot A))
      → AllEntries (λ j v. snap_key A v ≡ j) d
      → HasUniqueKeys d
      → lookup k (snap_map A less found (values d)) ≡ first_of (lookup k d) (lookup k found)
  unfolding snap_map values lookup snap_key
  lookup-snap_map k found [] h u = refl
  lookup-snap_map k found ((j, v) ∷ d) (e, h) (f, u) =
      lookup-snap_map k (insert (edge_key v.src_service v.dst_service) v found) d h u
      ∙ rw e (first_of-insert k j v found d f)

  -- The words of a p99: up to 5 ms, up to 20 ms, up to 100 ms, and above.
  abbrev pub GradeOf : A.Num → Status → Type 0
  GradeOf us Status.ok = A.lt us (A.num 5000) ≡ true
  GradeOf us Status.warning = (A.lt us (A.num 5000) ≡ false) × (A.lt us (A.num 20000) ≡ true)
  GradeOf us Status.high = (A.lt us (A.num 20000) ≡ false) × (A.lt us (A.num 100000) ≡ true)
  GradeOf us Status.critical = A.lt us (A.num 100000) ≡ false

  -- The border of a cell: of the selected one, else of one with a spike, else of the others.
  abbrev pub BorderOf : Bool → Bool → Border A less → Type 0
  BorderOf selected spiking chosen = selected ≡ true
  BorderOf selected spiking spike = (selected ≡ false) × (spiking ≡ true)
  BorderOf selected spiking plain = (selected ≡ false) × (spiking ≡ false)

  -- Whether the key is selected.
  abbrev pub picks : Option String → String → Bool
  picks none k = false
  picks (some j) k = str_eq j k

  -- What a cell draws of a report: nothing of none; and of one its p99, in words too, its spike, and whether it is selected.
  abbrev pub Draws : Option String → String → Option (StatSnapshot A) → Cell A less → Type 0
  Draws selected_key k none empty = Unit
  Draws selected_key k none (filled _ _ _ _ _ _) = ⊥
  Draws selected_key k (some snap) empty = ⊥
  Draws selected_key k (some snap) (filled key p99 spiking status selected border) =
      (key ≡ k)
      × (p99 ≡ fmt_us A snap.p99_us)
      × (spiking ≡ snap.is_spike)
      × GradeOf snap.p99_us status
      × (selected ≡ picks selected_key k)
      × BorderOf selected spiking border

  latency_status-GradeOf : (us : A.Num) → GradeOf us (latency_status A us)
  unfolding latency_status
  latency_status-GradeOf us = ground arith

  border_of-BorderOf : (s p : Bool) → BorderOf s p (border_of A less s p)
  border_of-BorderOf true p = refl
  border_of-BorderOf false true = (refl, refl)
  border_of-BorderOf false false = (refl, refl)

  is_selected-picks :
      (selected_key : Option String) (k : String)
      → is_selected A less selected_key k ≡ picks selected_key k
  is_selected-picks none k = refl
  is_selected-picks (some j) k = refl

  cell_of-Draws :
      (selected_key : Option String) (k : String) (o : Option (StatSnapshot A))
      → Draws selected_key k o (cell_of A less selected_key k o)
  unfolding cell_of
  cell_of-Draws selected_key k none = tt
  cell_of-Draws selected_key k (some snap) = (
    refl,
    refl,
    refl,
    latency_status-GradeOf snap.p99_us,
    is_selected-picks selected_key k,
    border_of-BorderOf (is_selected A less selected_key k) snap.is_spike,
  )

  -- On live data the cell of two services draws the latest report on the connection between them: its p99 with its grade, its spike, and
  -- a border that tells whether it is selected or has a spike; and it is empty where there is no report, or where the
  -- connection was removed since (`Draws`).
  pub cell-run :
      (selected_key : Option String) (src dst : String) (t : List (Frame A))
      → Draws selected_key
          (edge_key src dst)
          (latest A (edge_key src dst) t)
          (cell A less selected_key (run A t).snapshots src dst)
  unfolding cell
  cell-run selected_key src dst t =
      let w = run-IsWellFormed A t in
      let k = edge_key src dst in
      let found =
        lookup-snap_map k [] (run A t).snapshots w.keyed w.unique
        ∙ first_of-none k (lookup k (run A t).snapshots)
        ∙ lookup-run A k t in
      subst (λ o. Draws selected_key k o (cell A less selected_key (run A t).snapshots src dst))
        found
        (cell_of-Draws selected_key k (lookup k (snap_map A less [] (values (run A t).snapshots))))
