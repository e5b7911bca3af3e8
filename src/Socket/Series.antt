-- ===== src/Socket/Series.antt =====
-- The charts of useWebSocket.ts against the whole series of a connection's points.
use micro_trace.Common.{
  ℕ, String, Bool, true, false, Option, none, some, List, [], ◌∷◌, ◌++◌, map, take_last, or_else,
  str_eq, if◌then◌else◌, ◌≡◌, refl, sym, ap, ◌∙◌, arith, eq_iff, take_last-append,
  take_last-take_last, Bool-cases, inl, inr,
}
use micro_trace.Common.Arith.{Arith}
use micro_trace.Common.Dict.{Dict, lookup, insert, lookup-insert, lookup-erase}
use micro_trace.Types.{StatSnapshot, HistoryPoint, ConnHistory}
use micro_trace.Socket.{
  Readings, Dashboard, snap_key, make_point, copy_point, on_stats, load_history, on_history,
  on_resource, on_remove, max_history,
}
use micro_trace.Socket.Trace.{
  Frame, run, Meaning, reports, removes, loads, measures, says_nothing, meaning, act,
  on_message-act,
}

slide :
    {T : Type 0} (n : ℕ) (xs ys zs : List T)
    → take_last n xs ≡ take_last n ys
    → take_last n (take_last n (xs ++ zs)) ≡ take_last n (ys ++ zs)
slide n xs ys zs e =
    take_last-take_last n (xs ++ zs)
    ∙ sym (take_last-append n xs zs)
    ∙ ap (λ ws. take_last n (ws ++ zs)) e
    ∙ take_last-append n ys zs

module _ (A : Arith) where
  -- The points that a history message sends for a key: those of its last entry for it.
  abbrev sent :
      String
      → List (ConnHistory A)
      → Option (List (HistoryPoint A))
      → Option (List (HistoryPoint A))
  sent key [] before = before
  sent key (c ∷ cs) before = sent key cs (if str_eq c.key key then some c.points else before)

  pub map-copy_point : (ps : List (HistoryPoint A)) → map (copy_point A) ps ≡ ps
  unfolding copy_point
  map-copy_point [] = refl
  map-copy_point (p ∷ ps) = ap (λ qs. p ∷ qs) (map-copy_point ps)

  lookup-load_history :
      (key : String) (conns : List (ConnHistory A)) (next : Dict (List (HistoryPoint A)))
      → lookup key (load_history A conns next) ≡ sent key conns (lookup key next)
  unfolding load_history
  lookup-load_history key [] next = refl
  lookup-load_history key (c ∷ cs) next =
      lookup-load_history key cs (insert c.key (map (copy_point A) c.points) next)
      ∙ ap (sent key cs) (rw (map-copy_point c.points) (lookup-insert c.key key c.points next))

  lookup-load_history_nil :
      (key : String) (conns : List (ConnHistory A))
      → lookup key (load_history A conns []) ≡ sent key conns none
  unfolding lookup
  lookup-load_history_nil key conns = lookup-load_history key conns []

  -- The points of a connection since it was last removed or its history last loaded.
  abbrev series_step :
      String → Readings A → Meaning A → List (HistoryPoint A) → List (HistoryPoint A)
  series_step key now (reports snap) before =
      if str_eq (snap_key A snap) key then before ++ make_point A now snap ∷ [] else before
  series_step key now (removes k) before = if str_eq k key then [] else before
  series_step key now (loads conns) before = or_else (sent key conns none) []
  series_step key now _ before = before

  pub series : String → List (Frame A) → List (HistoryPoint A)
  series key [] = []
  series key (f ∷ older) = series_step key f.now (meaning A f.msg) (series key older)

  abbrev pub kept : String → Dashboard A → List (HistoryPoint A)
  kept key s = or_else (lookup key s.history) []

  pub report-kept :
      (now : Readings A) (snap : StatSnapshot A) (s : Dashboard A) (key : String)
      → (b : Bool) → str_eq (snap_key A snap) key ≡ b
      → kept key (on_stats A now snap s) ≡ (
          if b
          then take_last max_history (kept key s ++ make_point A now snap ∷ [])
          else kept key s)
  unfolding on_stats
  report-kept now snap s key b e =
      rw
        (lookup-insert (snap_key A snap) key
          (take_last max_history (kept (snap_key A snap) s ++ make_point A now snap ∷ []))
          s.history)
        (ground (arith, eq_iff (snap_key A snap) key))

  act-kept :
      (now : Readings A) (m : Meaning A) (s : Dashboard A) (key : String)
      (before : List (HistoryPoint A))
      → take_last max_history (kept key s) ≡ take_last max_history before
      → take_last max_history (kept key (act A now m s))
        ≡ take_last max_history (series_step key now m before)
  unfolding on_remove on_history on_resource
  act-kept now (reports snap) s key before e = elim (Bool-cases (str_eq (snap_key A snap) key)) [
    | inl here ↦
        rw (report-kept now snap s key true here, here)
          (slide max_history (kept key s) before (make_point A now snap ∷ []) e)
    | inr there ↦ rw (report-kept now snap s key false there, there) e
  ]
  act-kept now (removes k) s key before e = rw (lookup-erase k key s.history) (ground arith)
  act-kept now (loads conns) s key before e = rw (lookup-load_history_nil key conns) refl
  act-kept now (measures r) s key before e = e
  act-kept now says_nothing s key before e = e

  -- What the chart of a connection shows is the end of its series: no point is lost or reordered
  -- within the last 3600.
  pub history-run :
      (key : String) (t : List (Frame A))
      → take_last max_history (or_else (lookup key (run A t).history) [])
        ≡ take_last max_history (series key t)
  unfolding run series lookup
  history-run key [] = refl
  history-run key (f ∷ older) = rw (on_message-act A f (run A older)) (
      act-kept f.now (meaning A f.msg) (run A older) key (series key older) (history-run key older))
