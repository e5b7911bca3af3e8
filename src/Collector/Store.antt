-- ===== src/Collector/Store.antt =====
-- The buffer of connection rows of collector/store/store.go, with the arrays that its slices share. `WriteConn` and the first lines of `flush` run under the
-- lock; the loop of `flush` reads its rows without it, so that writes come between.
use micro_trace.Common.{
  Bool, ◌&&◌, true, map, ℕ, zero, suc, ◌+◌, ◌≤◌, ltb, ◌==◌, List, [], ◌∷◌, ◌++◌, length, take, drop,
  if◌then◌else◌, ◌≡◌, refl, sym, ap, ◌∙◌, arith, Option, some, get_elem?, Bool-cases, inl, inr,
  length-append, length-take, length-drop, append_nil, append_snoc,
}
use micro_trace.Collector.Rows.{
  put, take-put, length-put, take_grown, drop-put, take-drop, read_on, take_over,
}

-- A slice: the array that it lies in, from its first cell on, and its length. Its capacity is the array's length.
pub record Slice : Type 0 where
  pub base : ℕ
  pub len : ℕ

-- How the calls of the database go in one flush: `Begin`, the two `Prepare`s, `Commit`, and the `Exec` of the i-th row.
pub record Db : Type 0 where
  pub begins : Bool
  pub prepares_conns : Bool
  pub inserts : ℕ → Bool
  pub prepares_resources : Bool
  pub commits : Bool

abbrev pub all_well : Db
all_well = record {
  begins = true;
  prepares_conns = true;
  inserts = λ i. true;
  prepares_resources = true;
  commits = true;
}

-- The transaction of a flush is committed.
abbrev pub succeeds : Db → Bool
succeeds db = db.begins && db.prepares_conns && db.prepares_resources && db.commits

-- The rows whose `Exec` succeeds.
unfoldable pub inserted : {X : Type 0} → (ℕ → Bool) → List X → List X
inserted ok [] = []
inserted ok (x ∷ xs) = let rest = inserted (λ i. ok (suc i)) xs in if ok 0 then x ∷ rest else rest

-- `spare n` are the cells behind the new row where an array of n rows has to grow.
module _ {R : Type 0} (spare : ℕ → List R) where
  -- The memory, the number of arrays made, and `connBuf`.
  pub record Store : Type 0 where
    pub heap : ℕ → List R
    pub next : ℕ
    pub buf : Slice

  abbrev set_array : ℕ → List R → (ℕ → List R) → ℕ → List R
  set_array b xs heap c = if c == b then xs else heap c

  -- `s.connBuf = append(s.connBuf, row)`
  unfoldable pub write_conn : R → Store → Store
  unfolding put
  write_conn r s =
      let b = (s.buf).base in
      let n = (s.buf).len in
      if ltb n (length (s.heap b))
      then record s {
        heap = set_array b (put n r (s.heap b)) s.heap;
        buf = record { base = b; len = suc n };
      }
      else record {
        heap = set_array s.next (take n (s.heap b) ++ r ∷ spare n) s.heap;
        next = s.next + 1;
        buf = record { base = s.next; len = suc n };
      }

  unfoldable pub write_all : List R → Store → Store
  unfolding write_conn
  write_all [] s = s
  write_all (r ∷ rs) s = write_all rs (write_conn r s)

  -- `conns := s.connBuf; s.connBuf = s.connBuf[:0]`
  unfoldable pub take_buffer : Store → Slice × Store
  take_buffer s = (s.buf, record s { buf = record { base = (s.buf).base; len = 0 } })

  -- The loop over `conns`, from row i on with n rows to go: the rows of each list are written before one more row is read.
  unfoldable pub drain : Slice → ℕ → ℕ → List (List R) → Store → List (Option R) × Store
  unfolding write_all
  drain t i zero ws s = ([], s)
  drain t i (suc n) [] s =
      let rest = drain t (suc i) n [] s in (get_elem? (s.heap t.base) i ∷ rest.0, rest.1)
  drain t i (suc n) (w ∷ ws) s =
      let s' = write_all w s in
      let rest = drain t (suc i) n ws s' in (get_elem? (s'.heap t.base) i ∷ rest.0, rest.1)

  -- From the `Prepare` for the rows on; without `Commit` the deferred `Rollback` undoes them.
  abbrev insert_all : Db → List (List R) → Slice × Store → List (Option R) × Store
  unfolding drain inserted
  insert_all db ws t =
      let r = drain t.0 0 (t.0).len ws t.1 in
      (if db.prepares_resources && db.commits then inserted db.inserts r.0 else [], r.1)

  -- `flush`: the rows that are in the database afterwards, and the store. Where `Begin` or the first `Prepare` fails it returns, and the
  -- buffer has been cut by then. With nothing in the buffers it calls nothing, which leaves the same.
  unfoldable pub flush : Db → List (List R) → Store → List (Option R) × Store
  unfolding take_buffer insert_all
  flush db ws s =
      let t = take_buffer s in
      if db.begins && db.prepares_conns then insert_all db ws t else ([], t.1)

  -- The rows of a slice.
  abbrev pub rows : Slice → Store → List R
  rows t s = take t.len (s.heap t.base)

  -- A slice lies inside its array, and the arrays still to be made are not in use.
  abbrev pub IsStore : Store → Type 0
  IsStore s = ((s.buf).len ≤ length (s.heap (s.buf).base)) × (suc (s.buf).base ≤ s.next)

  set_self : (b : ℕ) (xs : List R) (heap : ℕ → List R) → set_array b xs heap b ≡ xs
  set_self b xs heap = ground arith

  -- What one more row makes of a store.
  abbrev IsWritten : R → Store → Store → Type 0
  IsWritten r s s' = IsStore s' × (rows s'.buf s' ≡ rows s.buf s ++ r ∷ [])

  write-IsWritten : (r : R) (s : Store) → IsStore s → IsWritten r s (write_conn r s)
  unfolding write_conn
  write-IsWritten r s (h, f) =
      let b = (s.buf).base in
      let n = (s.buf).len in
      elim (Bool-cases (ltb n (length (s.heap b)))) [
        | inl e ↦
            let self = set_self b (put n r (s.heap b)) s.heap in
            let fits : suc n ≤ length (s.heap b) = ground (arith, e) in
            let inside : suc n ≤ length (put n r (s.heap b)) =
              omega (arith, length-put n r (s.heap b), fits) in
            rw (e, self) ((inside, f), take-put n r (s.heap b) fits)
        | inr e ↦
            let self = set_self s.next (take n (s.heap b) ++ r ∷ spare n) s.heap in
            let inside : suc n ≤ length (take n (s.heap b) ++ r ∷ spare n) = omega (
              arith,
              length-append (take n (s.heap b)) (r ∷ spare n),
              length-take n (s.heap b),
              h,
            ) in
            rw (e, self) ((inside, omega arith), take_grown n (s.heap b) (spare n) r h)
      ]

  write_all-rows :
      (rs : List R) (s : Store)
      → IsStore s
      → IsStore (write_all rs s) × (rows (write_all rs s).buf (write_all rs s) ≡ rows s.buf s ++ rs)
  unfolding write_all
  write_all-rows [] s h = (h, sym (append_nil (rows s.buf s)))
  write_all-rows (r ∷ rs) s h =
      let (h', e) = write-IsWritten r s h in
      let (h'', e') = write_all-rows rs (write_conn r s) h' in
      (h'', e' ∙ ap (λ xs. xs ++ rs) e ∙ append_snoc (rows s.buf s) r rs)

  -- Reading on, with nothing written in between.
  drain_quiet :
      (t : Slice) (i n : ℕ) (s : Store)
      → i + n ≤ length (s.heap t.base)
      → drain t i n [] s ≡ (map some (take n (drop i (s.heap t.base))), s)
  unfolding drain
  drain_quiet t i zero s h = refl
  drain_quiet t i (suc n) s h =
      ap (λ r. (get_elem? (s.heap t.base) i ∷ r.0, r.1)) (drain_quiet t (suc i) n s (omega arith))
      ∙ ap (λ rs. (rs, s)) (read_on i n (s.heap t.base) h)

  inserted-map :
      (ok : ℕ → Bool) (rs : List R)
      → inserted {X = Option R} ok (map some rs) ≡ map some (inserted ok rs)
  unfolding inserted
  inserted-map ok [] = refl
  inserted-map ok (r ∷ rs) = elim (Bool-cases (ok 0)) [
    | inl e ↦ rw e (ap (λ xs. some r ∷ xs) (inserted-map (λ i. ok (suc i)) rs))
    | inr e ↦ rw e (inserted-map (λ i. ok (suc i)) rs)
  ]

  inserted_all : (rs : List (Option R)) → inserted (λ i. true) rs ≡ rs
  unfolding inserted
  inserted_all [] = refl
  inserted_all (r ∷ rs) = ap (λ xs. r ∷ xs) (inserted_all rs)

  -- A flush by what its loop reads and leaves.
  flush_drained :
      (db : Db) (s s' : Store) (read : List R)
      → drain s.buf 0 (s.buf).len [] (take_buffer s).1 ≡ (map some read, s')
      → (take_buffer s).1 ≡ s'
      → flush db [] s ≡ (if succeeds db then map some (inserted db.inserts read) else [], s')
  unfolding flush insert_all take_buffer
  flush_drained db s s' read e k = elim (Bool-cases (db.begins && db.prepares_conns)) [
    | inl begun ↦
        rw (begun, e, inserted-map db.inserts read)
          (ap (λ b. (if b then map some (inserted db.inserts read) else [], s'))
            (ground (arith, begun)))
    | inr failed ↦ rw failed (ap (λ x. ([], x)) k)
  ]

  -- Rows are written one after the other without a flush, and nothing is written while the next flush reads. Where `Begin`, the `Prepare`s and
  -- `Commit` succeed, the rows whose `Exec` succeeds are then in the database, each of them once and in their order; where one of
  -- those fails, none is. Either way the buffer is empty, so that rows not inserted are lost.
  pub flush-quiet :
      (db : Db) (rs : List R) (s : Store)
      → IsStore s
      → (s.buf).len ≡ 0
      → let r = flush db [] (write_all rs s) in
        (r.0 ≡ (if succeeds db then map some (inserted db.inserts rs) else []))
        × (rows (r.1).buf r.1 ≡ [])
  unfolding take_buffer
  flush-quiet db rs s h z =
      let (h', e) = write_all-rows rs s h in
      let s' = write_all rs s in
      let all = drain_quiet s'.buf 0 (s'.buf).len (take_buffer s').1 (omega (arith, h'.0)) in
      let r = flush_drained db s' (take_buffer s').1 (rows s'.buf s') all refl in
      (
        ap (λ x. x.0) r
            ∙ ap (λ xs. if succeeds db then map some (inserted db.inserts xs) else [])
                (e ∙ rw z refl),
        ap (λ x. rows (x.1).buf x.1) r,
      )

  -- The row is put where the array has room for it.
  abbrev fitted : R → Store → Store
  fitted r s = record s {
    heap = set_array (s.buf).base (put (s.buf).len r (s.heap (s.buf).base)) s.heap;
    buf = record { base = (s.buf).base; len = suc (s.buf).len };
  }

  write_fits :
      (r : R) (s : Store)
      → suc (s.buf).len ≤ length (s.heap (s.buf).base)
      → write_conn r s ≡ fitted r s
  unfolding write_conn
  write_fits r s h =
      let e : ltb (s.buf).len (length (s.heap (s.buf).base)) ≡ true = ground (arith, h) in rw e refl

  -- Rows that fit overwrite the array from the end of the slice on.
  write_all-over :
      (rs : List R) (s : Store)
      → (s.buf).len + length rs ≤ length (s.heap (s.buf).base)
      → (write_all rs s).heap (s.buf).base
        ≡ take (s.buf).len (s.heap (s.buf).base)
          ++ (rs ++ drop ((s.buf).len + length rs) (s.heap (s.buf).base))
  unfolding write_all
  write_all-over [] s h =
      let j = (s.buf).len in
      let zero_more : j ≡ j + 0 = omega arith in
      sym (take-drop j (s.heap (s.buf).base))
      ∙ ap (λ m. take j (s.heap (s.buf).base) ++ drop m (s.heap (s.buf).base)) zero_more
  write_all-over (r ∷ rs) s h =
      let b = (s.buf).base in
      let j = (s.buf).len in
      let arr = s.heap b in
      let self = set_self b (put j r arr) s.heap in
      let more : suc j + length rs ≡ j + suc (length rs) = omega arith in
      ap (λ s'. (write_all rs s').heap b) (write_fits r s (omega arith))
      ∙ write_all-over rs (fitted r s) (rw self (omega (arith, length-put j r arr, h)))
      ∙ rw
          (self, take-put j r arr (omega arith), drop-put j (suc j + length rs) r arr (omega arith))
          (append_snoc (take j arr) r (rs ++ drop (suc j + length rs) arr)
            ∙ ap (λ m. take j arr ++ (r ∷ rs ++ drop m arr)) more)

  -- Where the database fails nothing: rows written after `flush` has taken the buffer and before it reads the first row, no more of them than it took, go into the cells
  -- that it is about to read: it inserts them in the place of as many older rows, which are lost, and they also stay in the buffer, so that
  -- the next flush inserts them again.
  pub flush_race :
      (news : List R) (n : ℕ) (s : Store)
      → IsStore s
      → (s.buf).len ≡ suc n
      → length news ≤ suc n
      → let r = flush all_well (news ∷ []) s in
        (r.0 ≡ map some (news ++ drop (length news) (rows s.buf s))) × (rows (r.1).buf r.1 ≡ news)
  unfolding flush take_buffer drain insert_all
  flush_race news n s (h, f) e k =
      let s0 = (take_buffer s).1 in
      let s' = write_all news s0 in
      let arr = s.heap (s.buf).base in
      let room : 0 + length news ≤ length arr = omega (arith, h, e, k) in
      let none_before : 0 + length news ≡ length news = omega arith in
      let over : s'.heap (s.buf).base ≡ news ++ drop (length news) (s.heap (s.buf).base) =
        write_all-over news s0 room ∙ ap (λ m. news ++ drop m (s.heap (s.buf).base)) none_before in
      let holds : suc n ≤ length (s'.heap (s.buf).base) = omega (
        arith,
        ap length over,
        length-append news (drop (length news) arr),
        length-drop (length news) arr,
        h,
        e,
        k,
      ) in
      let all = drain_quiet s.buf 1 n s' (omega (arith, holds)) in
      rw e (
        inserted_all _
            ∙ ap (λ r. get_elem? (s'.heap (s.buf).base) 0 ∷ r.0) all
            ∙ read_on 0 n (s'.heap (s.buf).base) (omega (arith, holds))
            ∙ ap (map some)
                (ap (take (suc n)) over ∙ take_over news arr (suc n) k (omega (arith, h, e))),
        ap (λ r. rows (r.1).buf r.1) all ∙ (write_all-rows news s0 (omega arith, f)).1,
      )
