-- ===== src/Detail/InOrder.antt =====
-- Ranges chosen in DetailPanel.tsx whose requests are answered in their order.
use mathlib.Core.List.{append-nil, append_assoc}
use micro_trace.Common.{
  ℕ, zero, suc, ◌+◌, String, Option, some, List, [], ◌∷◌, ◌++◌, map, length, ◌≡◌, refl, ap, sym,
  ◌∙◌, arith, length-append, length-map,
}
use micro_trace.Common.Arith.{Arith}
use micro_trace.Types.{HistoryPoint}
use micro_trace.Detail.{
  RangeKey, Request, ApiRow, to_point, RangeState, handle_range, finish_fetch, answer,
  display_history,
}

module _ (A : Arith) (rows : Request → List (ApiRow A)) where
  abbrev request : String → String → RangeKey → Request
  request src dst r = record { src = src; dst = dst; range = r }

  -- The ranges clicked one after the other.
  unfoldable pub choose_all : List RangeKey → RangeState A → RangeState A
  choose_all [] s = s
  choose_all (r ∷ rs) s = choose_all rs (handle_range A r s)

  -- n answers, each to the oldest request.
  unfoldable pub answer_all : ℕ → RangeState A → RangeState A
  answer_all zero s = s
  answer_all (suc n) s = answer_all n (answer A (λ q. some (rows q)) 0 s)

  abbrev last_answer :
      List Request → Option (List (HistoryPoint A)) → Option (List (HistoryPoint A))
  last_answer [] db = db
  last_answer (q ∷ qs) db = last_answer qs (some (map (to_point A) (rows q)))

  last_answer-snoc :
      (qs : List Request) (q : Request) (db : Option (List (HistoryPoint A)))
      → last_answer (qs ++ q ∷ []) db ≡ some (map (to_point A) (rows q))
  last_answer-snoc [] q db = refl
  last_answer-snoc (p ∷ qs) q db = last_answer-snoc qs q _

  record Chosen (src dst : String) (rs : List RangeKey) (s v : RangeState A) : Type 0 where
    conn : v.conn ≡ some (src, dst)
    pending : v.pending ≡ s.pending ++ map (request src dst) rs

  handle_range-answers :
      (src dst : String) (r : RangeKey) (s : RangeState A)
      → s.conn ≡ some (src, dst)
      → handle_range A r s
        ≡ record s { range = some r; pending = s.pending ++ request src dst r ∷ [] }
  unfolding handle_range
  handle_range-answers src dst r s c = rw c refl

  answer-first :
      (s : RangeState A) (q : Request) (qs : List Request)
      → s.pending ≡ q ∷ qs
      → answer A (λ q. some (rows q)) 0 s
        ≡ record s { pending = qs; db_history = some (map (to_point A) (rows q)) }
  unfolding answer finish_fetch
  answer-first s q qs e = rw e refl

  answer_all-lem :
      (qs : List Request) (s : RangeState A)
      → s.pending ≡ qs
      → answer_all (length qs) s
        ≡ record s { pending = []; db_history = last_answer qs s.db_history }
  unfolding answer_all
  answer_all-lem [] s e = rw (← e) refl
  answer_all-lem (q ∷ qs) s e =
      ap (answer_all (length qs)) (answer-first s q qs e)
      ∙ answer_all-lem qs (record s { pending = qs; db_history = some (map (to_point A) (rows q)) })
          refl

  -- The requests that clicks on a connection leave, and the connection itself.
  choose_all-Chosen :
      (src dst : String) (rs : List RangeKey) (s : RangeState A)
      → s.conn ≡ some (src, dst)
      → Chosen src dst rs s (choose_all rs s)
  unfolding choose_all
  choose_all-Chosen src dst [] s c = record { conn = c; pending = sym (append-nil s.pending) }
  choose_all-Chosen src dst (r ∷ rs) s c =
      let t = record s { range = some r; pending = s.pending ++ request src dst r ∷ [] } in
      let h = choose_all-Chosen src dst rs t c in
      rw (handle_range-answers src dst r s c) (record {
        conn = h.conn;
        pending =
            h.pending ∙ append_assoc s.pending (request src dst r ∷ []) (map (request src dst) rs);
      })

  -- However many ranges are chosen one after the other on a connection, once their requests are all answered in their order, the
  -- chart shows the rows of the last, whose button is lit. No request was under way before, and every answer has rows.
  pub choose_all-answer_all :
      (src dst : String) (rs : List RangeKey) (r : RangeKey) (s : RangeState A)
      (live : List (HistoryPoint A))
      → s.conn ≡ some (src, dst)
      → s.pending ≡ []
      → let v = answer_all (length rs + 1) (handle_range A r (choose_all rs s)) in
        (v.range ≡ some r)
        × (display_history A live v ≡ map (to_point A) (rows (request src dst r)))
  unfolding display_history
  choose_all-answer_all src dst rs r s live c p =
      let t = choose_all rs s in
      let h = choose_all-Chosen src dst rs s c in
      let qs = map (request src dst) rs in
      let q = request src dst r in
      let u = record t { range = some r; pending = t.pending ++ q ∷ [] } in
      let waiting : u.pending ≡ qs ++ q ∷ [] =
        ap (λ ps. ps ++ q ∷ []) (h.pending ∙ ap (λ ps. ps ++ qs) p) in
      let count : length rs + 1 ≡ length (qs ++ q ∷ []) =
        omega (arith, length-append qs (q ∷ []), length-map (request src dst) rs) in
      rw
        (
          handle_range-answers src dst r t h.conn,
          count,
          answer_all-lem (qs ++ q ∷ []) u waiting,
          last_answer-snoc qs q t.db_history,
        )
        (refl, refl)
