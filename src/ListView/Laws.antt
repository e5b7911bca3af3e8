-- ===== src/ListView/Laws.antt =====
-- The order of the rows of ConnectionListView.tsx, and its counts.
use mathlib.Core.List.{Perm}
use micro_trace.Common.{
  ℕ, true, false, ◌||◌, Option, none, some, or_else, ◌≤◌, ap, sym, ◌∙◌, subst, refl, ◌+◌, String,
  Bool, not, ◌&&◌, List, [], ◌∷◌, length, select, is_some, if◌then◌else◌, ◌≡◌, arith,
}
use micro_trace.Common.Arith.{Arith, IsOrdered, gt}
use micro_trace.Common.Key.{edge_key}
use micro_trace.Common.Order.{HasSigns, lt_asymm}
use micro_trace.Common.Sort.{sort-perm, sort-IsSorted, Above, IsSorted, IsConsistent}
use micro_trace.Types.{StatSnapshot}
use micro_trace.ListView.{
  ListState, SortCol, SortDir, FilterMode, same_col, connection, p50, p95, p99, retrans, asc, desc,
  handle_sort, is_stressed, stressed_count, apply_filter, before, shown,
}

module _ (A : Arith) (less : String → String → Bool) where
  -- The chip of the filter `stressed` and the rows under it differ by the stressed connections whose CPU
  -- figure is missing: those are shown, and not counted.
  stressed_count_lem :
      (snaps : List (StatSnapshot A))
      → length (apply_filter A less FilterMode.stressed snaps)
        ≡ stressed_count A less snaps
          + length (select (λ s. not (is_some s.dst_cpu_pct) && is_stressed A less s) snaps)
  unfolding apply_filter stressed_count
  stressed_count_lem [] = omega arith
  stressed_count_lem (s ∷ snaps) = ground (arith, stressed_count_lem snaps)

  -- A figure is above a limit; one that is missing is not.
  abbrev pub exceeds : Option A.Num → ℕ → Bool
  exceeds none n = false
  exceeds (some x) n = A.lt (A.num n) x

  -- The connections that a filter is for.
  abbrev pub passes : FilterMode → StatSnapshot A → Bool
  passes FilterMode.all s = true
  passes FilterMode.spiking s = s.is_spike
  passes FilterMode.stressed s =
      exceeds s.dst_cpu_pct 70 || exceeds s.dst_io_wait_pct 30 || exceeds s.dst_mem_pressure_pct 70

  -- The first is to stand above the second: by the names, or by a figure, the smaller or the greater first.
  abbrev pub goes_first : SortCol → SortDir → StatSnapshot A → StatSnapshot A → Bool
  goes_first connection asc a b =
      less (edge_key a.src_service a.dst_service) (edge_key b.src_service b.dst_service)
  goes_first connection desc a b =
      less (edge_key b.src_service b.dst_service) (edge_key a.src_service a.dst_service)
  goes_first p50 asc a b = A.lt a.p50_us b.p50_us
  goes_first p50 desc a b = A.lt b.p50_us a.p50_us
  goes_first p95 asc a b = A.lt a.p95_us b.p95_us
  goes_first p95 desc a b = A.lt b.p95_us a.p95_us
  goes_first p99 asc a b = A.lt a.p99_us b.p99_us
  goes_first p99 desc a b = A.lt b.p99_us a.p99_us
  goes_first retrans asc a b = A.lt (A.num a.retransmit_count) (A.num b.retransmit_count)
  goes_first retrans desc a b = A.lt (A.num b.retransmit_count) (A.num a.retransmit_count)

  module _ (o : IsOrdered A) (signs : HasSigns A) (collation : IsConsistent less) where
    upwards :
        (f : StatSnapshot A → A.Num) → IsConsistent (λ a b. A.lt (A.sub (f a) (f b)) (A.num 0))
    upwards f = record {
      asymm =
          λ a b p. rw (signs (f b) (f a)) (lt_asymm A o (f a) (f b) (rw (signs (f a) (f b)) at p));
      ge_trans = λ a b c p q. rw (signs (f a) (f c)) (
          o.ge_trans (f a) (f b) (f c) (rw (signs (f a) (f b)) at p) (rw (signs (f b) (f c)) at q));
    }

    downwards :
        (f : StatSnapshot A → A.Num) → IsConsistent (λ a b. A.lt (A.sub (f b) (f a)) (A.num 0))
    downwards f = record {
      asymm =
          λ a b p. rw (signs (f a) (f b)) (lt_asymm A o (f b) (f a) (rw (signs (f b) (f a)) at p));
      ge_trans = λ a b c p q. rw (signs (f c) (f a)) (
          o.ge_trans (f c) (f b) (f a) (rw (signs (f c) (f b)) at q) (rw (signs (f b) (f a)) at p));
    }

    before-IsConsistent : (col : SortCol) (dir : SortDir) → IsConsistent (before A less col dir)
    unfolding before
    before-IsConsistent connection asc = record {
      asymm = λ a b. collation.asymm _ _;
      ge_trans = λ a b c. collation.ge_trans _ _ _;
    }
    before-IsConsistent connection desc = record {
      asymm = λ a b. collation.asymm _ _;
      ge_trans = λ a b c p q. collation.ge_trans _ _ _ q p;
    }
    before-IsConsistent p50 asc = upwards (λ s. s.p50_us)
    before-IsConsistent p95 asc = upwards (λ s. s.p95_us)
    before-IsConsistent p99 asc = upwards (λ s. s.p99_us)
    before-IsConsistent retrans asc = upwards (λ s. A.num s.retransmit_count)
    before-IsConsistent p50 desc = downwards (λ s. s.p50_us)
    before-IsConsistent p95 desc = downwards (λ s. s.p95_us)
    before-IsConsistent p99 desc = downwards (λ s. s.p99_us)
    before-IsConsistent retrans desc = downwards (λ s. A.num s.retransmit_count)

    before-goes_first :
        (col : SortCol) (dir : SortDir) (a b : StatSnapshot A)
        → before A less col dir a b ≡ goes_first col dir a b
    unfolding before
    before-goes_first connection asc a b = refl
    before-goes_first connection desc a b = refl
    before-goes_first p50 asc a b = signs a.p50_us b.p50_us
    before-goes_first p50 desc a b = signs b.p50_us a.p50_us
    before-goes_first p95 asc a b = signs a.p95_us b.p95_us
    before-goes_first p95 desc a b = signs b.p95_us a.p95_us
    before-goes_first p99 asc a b = signs a.p99_us b.p99_us
    before-goes_first p99 desc a b = signs b.p99_us a.p99_us
    before-goes_first retrans asc a b = signs (A.num a.retransmit_count) (A.num b.retransmit_count)
    before-goes_first retrans desc a b = signs (A.num b.retransmit_count) (A.num a.retransmit_count)

    exceeds_or :
        (x : Option A.Num) (n : ℕ) → n ≤ 100 → gt A (or_else x (A.num 0)) (A.num n) ≡ exceeds x n
    exceeds_or none n h = o.lt-num n 0 (omega (arith, h)) (omega arith) ∙ ground arith
    exceeds_or (some x) n h = refl

    is_stressed-passes : (s : StatSnapshot A) → is_stressed A less s ≡ passes FilterMode.stressed s
    unfolding is_stressed
    is_stressed-passes s =
        rw
          (
            exceeds_or s.dst_cpu_pct 70 (omega arith),
            exceeds_or s.dst_io_wait_pct 30 (omega arith),
            exceeds_or s.dst_mem_pressure_pct 70 (omega arith),
          )
          refl

    select_all : (snaps : List (StatSnapshot A)) → snaps ≡ select (passes FilterMode.all) snaps
    select_all [] = refl
    select_all (s ∷ snaps) = ap (λ xs. s ∷ xs) (select_all snaps)

    select_same :
        (p q : StatSnapshot A → Bool)
        → ((s : StatSnapshot A) → p s ≡ q s)
        → (snaps : List (StatSnapshot A)) → select p snaps ≡ select q snaps
    select_same p q h [] = refl
    select_same p q h (s ∷ snaps) = ground (arith, h s, select_same p q h snaps)

    apply_filter-passes :
        (mode : FilterMode) (snaps : List (StatSnapshot A))
        → apply_filter A less mode snaps ≡ select (passes mode) snaps
    unfolding apply_filter
    apply_filter-passes FilterMode.all snaps = select_all snaps
    apply_filter-passes FilterMode.spiking snaps = refl
    apply_filter-passes FilterMode.stressed snaps =
        select_same (is_stressed A less) (passes FilterMode.stressed) is_stressed-passes snaps

    IsSorted-same :
        (p q : StatSnapshot A → StatSnapshot A → Bool)
        → ((a b : StatSnapshot A) → p a b ≡ q a b)
        → (xs : List (StatSnapshot A)) → IsSorted p xs
        → IsSorted q xs
    IsSorted-same p q h [] s = tt
    IsSorted-same p q h (x ∷ xs) (a, s) = (Above-same xs a, IsSorted-same p q h xs s)
      where
        Above-same : (ys : List (StatSnapshot A)) → Above p x ys → Above q x ys
        Above-same [] k = tt
        Above-same (y ∷ ys) (e, k) = (sym (h y x) ∙ e, Above-same ys k)

    -- The rows are the connections that the filter is for (`passes`: those with a spike, or those whose target has a CPU above 70, an I/O wait
    -- above 30 or a memory pressure above 70), each as often as among the snapshots, and they stand in the order of the column and direction
    -- chosen: no row is to go above one that stands above it (`goes_first`). Numbers are ordered and their differences have
    -- signs (`IsOrdered`, `HasSigns`), and `localeCompare` is consistent.
    pub shown-IsSorted :
        (s : ListState) (snaps : List (StatSnapshot A))
        → Perm (shown A less s snaps) (select (passes s.filter) snaps)
          × IsSorted (goes_first s.sort_col s.sort_dir) (shown A less s snaps)
    unfolding shown
    shown-IsSorted s snaps =
        let first = before A less s.sort_col s.sort_dir in
        (
          subst (Perm (shown A less s snaps)) (apply_filter-passes s.filter snaps)
              (sort-perm first (apply_filter A less s.filter snaps)),
          IsSorted-same first (goes_first s.sort_col s.sort_dir)
              (before-goes_first s.sort_col s.sort_dir) (shown A less s snaps)
              (sort-IsSorted first (before-IsConsistent s.sort_col s.sort_dir)
                (apply_filter A less s.filter snaps)),
        )

-- Two clicks on a column's header: on the column in use they change nothing, on another they sort by it upwards.
pub handle_sort_twice :
    (col : SortCol) (s : ListState)
    → handle_sort col (handle_sort col s)
      ≡ (if same_col col s.sort_col then s else record s { sort_col = col; sort_dir = asc })
unfolding handle_sort
handle_sort_twice connection s = ground arith
handle_sort_twice _ s = ground arith
