-- ===== src/Collector/Feed/Load.antt =====
-- What a page gets when it connects: the histories of the collector, by key.
use micro_trace.Common.{
  String, true, false, none, List, [], ◌∷◌, or_else, str_eq, ◌≡◌, refl, sym, ap, ◌∙◌, arith,
  Bool-cases, inl, inr,
}
use micro_trace.Common.Arith.{Arith}
use micro_trace.Common.Dict.{Dict, lookup, insert, lookup-insert}
use micro_trace.Types.{HistoryPoint, ConnHistory}
use micro_trace.Socket.{load_history}
use micro_trace.Socket.Series.{map-copy_point}
use micro_trace.Collector.Feed.{Conn, key_of, with_points, get_history}
use micro_trace.Collector.Feed.Page.{has_key}
use micro_trace.Collector.Feed.Keys.{
  history_of, history_of_first, history_of_rest, AreKeyed, absent,
}

module _ {A : Arith} where
  abbrev put :
      Conn A → List (HistoryPoint A) → Dict (List (HistoryPoint A)) → Dict (List (HistoryPoint A))
  put c [] next = next
  put c (p ∷ ps) next = insert (key_of c) (p ∷ ps) next

  load-with_points :
      (c : Conn A) (ps : List (HistoryPoint A)) (rest : List (ConnHistory A))
      (next : Dict (List (HistoryPoint A)))
      → load_history A (with_points c ps rest) next ≡ load_history A rest (put c ps next)
  unfolding load_history with_points
  load-with_points c [] rest next = refl
  load-with_points c (p ∷ ps) rest next =
      ap (λ qs. load_history A rest (insert (key_of c) qs next)) (map-copy_point A (p ∷ ps))

  lookup-put_other :
      (k : String) (c : Conn A) (ps : List (HistoryPoint A)) (next : Dict (List (HistoryPoint A)))
      → str_eq (key_of c) k ≡ false
      → lookup k (put c ps next) ≡ lookup k next
  lookup-put_other k c [] next h = refl
  lookup-put_other k c (p ∷ ps) next h = ground (arith, lookup-insert (key_of c) k (p ∷ ps) next)

  lookup-put_own :
      (k : String) (c : Conn A) (ps : List (HistoryPoint A)) (next : Dict (List (HistoryPoint A)))
      → str_eq (key_of c) k ≡ true
      → lookup k next ≡ none
      → or_else (lookup k (put c ps next)) [] ≡ ps
  lookup-put_own k c [] next h e = rw e refl
  lookup-put_own k c (p ∷ ps) next h e = ground (arith, lookup-insert (key_of c) k (p ∷ ps) next)

  -- The points that the message for a new page has under a key.
  load_absent :
      (k : String) (cs : List (Conn A)) (next : Dict (List (HistoryPoint A)))
      → has_key k cs ≡ false
      → lookup k (load_history A (get_history cs) next) ≡ lookup k next
  unfolding load_history get_history
  load_absent k [] next h = refl
  load_absent k (c ∷ cs) next h =
      let other : str_eq (key_of c) k ≡ false = ground arith in
      ap (lookup k) (load-with_points c c.history (get_history cs) next)
      ∙ load_absent k cs (put c c.history next) (ground arith)
      ∙ lookup-put_other k c c.history next other

  pub load-history_of :
      (k : String) (cs : List (Conn A)) (next : Dict (List (HistoryPoint A)))
      → AreKeyed cs
      → lookup k next ≡ none
      → or_else (lookup k (load_history A (get_history cs) next)) [] ≡ history_of k cs
  unfolding load_history get_history
  load-history_of k [] next h e = rw e refl
  load-history_of k (c ∷ cs) next h e =
      let next' = put c c.history next in
      let first =
        ap (λ d. or_else (lookup k d) []) (load-with_points c c.history (get_history cs) next) in
      elim (Bool-cases (str_eq (key_of c) k)) [
        | inl here ↦
            first
            ∙ ap (λ o. or_else o []) (load_absent k cs next' (absent k c cs h here))
            ∙ lookup-put_own k c c.history next here e
            ∙ sym (history_of_first k c cs here)
        | inr there ↦
            first
            ∙ load-history_of k cs next' h.2 (lookup-put_other k c c.history next there ∙ e)
            ∙ sym (history_of_rest k c cs there)
      ]
