-- ===== src/Collector/Feed/Charts.antt =====
-- The charts of a page against the histories of the collector, from message to message.
use micro_trace.Common.{
  ℕ, String, Bool, true, false, not, List, [], ◌∷◌, ◌++◌, map, select, take_last, str_eq, eq_iff,
  if◌then◌else◌, ◌≡◌, refl, sym, ap, ◌∙◌, arith, Bool-cases, inl, inr,
}
use micro_trace.Common.Arith.{Arith}
use micro_trace.Common.Dict.{lookup-erase}
use micro_trace.Common.Key.{edge_key, edge_key_ne_empty}
use micro_trace.Types.{StatSnapshot, HistoryPoint, OutboundMsg}
use micro_trace.Socket.{Readings, snap_key, make_point, on_remove, max_history}
use micro_trace.Socket.Trace.{Frame, run, meaning, on_message-act, act}
use micro_trace.Socket.Series.{kept, report-kept}
use micro_trace.Collector.Feed.{
  Conn, key_of, broadcast, report, removal, broadcast_all, grow, point_of,
}
use micro_trace.Collector.Feed.Page.{has_key, has_key-grow}
use micro_trace.Collector.Feed.Keys.{
  history_of, history_of_first, history_of_rest, AreKeyed, history_of-select, absent,
}
use micro_trace.Collector.Feed.Window.{map-slide}

-- A point but for its time: the page takes the time at which a report comes, the collector that at which it is made.
abbrev pub untimed : {A : Arith} → HistoryPoint A → HistoryPoint A
untimed {A} p = record p { time = A.num 0 }

module _ (A : Arith) (figures : ℕ → Conn A → StatSnapshot A) (arrival : OutboundMsg A → Readings A)
    (unix_milli : ℕ → A.Num) where
  point_untimed :
      (now : ℕ) (c : Conn A) (r : Readings A)
      → untimed
          (make_point A r (record (figures now c) { src_service = c.src; dst_service = c.dst }))
        ≡ untimed (point_of A figures arrival unix_milli now c)
  unfolding make_point point_of
  point_untimed now c r = refl

  -- What the page has for a key.
  abbrev pub charted : String → List (Frame A) → List (HistoryPoint A)
  charted k sent = kept A k (run A sent)

  abbrev named : ℕ → Conn A → StatSnapshot A
  named now c = record (figures now c) { src_service = c.src; dst_service = c.dst }

  abbrev told : OutboundMsg A → List (Frame A) → List (Frame A)
  told msg sent = broadcast A figures arrival unix_milli msg sent

  abbrev report_of : ℕ → Conn A → OutboundMsg A
  report_of now c = report A figures arrival unix_milli now c

  pub charted-told :
      (k : String) (msg : OutboundMsg A) (sent : List (Frame A))
      → charted k (told msg sent) ≡ kept A k (act A (arrival msg) (meaning A msg) (run A sent))
  unfolding run
  charted-told k msg sent =
      ap (kept A k) (on_message-act A (record { now = arrival msg; msg = msg }) (run A sent))

  charted-report :
      (k : String) (now : ℕ) (c : Conn A) (sent : List (Frame A)) (b : Bool)
      → str_eq (key_of c) k ≡ b
      → charted k (told (report_of now c) sent) ≡ (
          if b
          then take_last max_history
              (charted k sent ++ make_point A (arrival (report_of now c)) (named now c) ∷ [])
          else charted k sent)
  unfolding key_of snap_key
  charted-report k now c sent b e =
      charted-told k (report_of now c) sent
      ∙ report-kept A (arrival (report_of now c)) (named now c) (run A sent) k b e

  charted-removal :
      (k : String) (c : Conn A) (sent : List (Frame A))
      → charted k (told (removal A figures arrival unix_milli c) sent)
        ≡ (if str_eq (key_of c) k then [] else charted k sent)
  unfolding key_of on_remove
  charted-removal k c sent =
      charted-told k (removal A figures arrival unix_milli c) sent
      ∙ ground (
        arith,
        edge_key_ne_empty c.src c.dst,
        eq_iff (edge_key c.src c.dst) "",
        lookup-erase (edge_key c.src c.dst) k (run A sent).history,
      )

  abbrev reports : ℕ → List (Conn A) → List (Frame A) → List (Frame A)
  reports now cs sent = broadcast_all A figures arrival unix_milli (report_of now) cs sent

  reports_absent :
      (k : String) (now : ℕ) (cs : List (Conn A)) (sent : List (Frame A))
      → has_key k cs ≡ false
      → charted k (reports now cs sent) ≡ charted k sent
  unfolding broadcast_all
  reports_absent k now [] sent h = refl
  reports_absent k now (c ∷ cs) sent h =
      let other : str_eq (key_of c) k ≡ false = ground arith in
      reports_absent k now cs (told (report_of now c) sent) (ground arith)
      ∙ charted-report k now c sent false other

  pub grow-AreKeyed :
      (now : ℕ) (cs : List (Conn A))
      → AreKeyed cs
      → AreKeyed (map (grow A figures arrival unix_milli now) cs)
  unfolding grow key_of
  grow-AreKeyed now [] h = tt
  grow-AreKeyed now (c ∷ cs) (fresh, q, h) = (
    has_key-grow A figures arrival unix_milli (key_of c) now cs ∙ fresh,
    q,
    grow-AreKeyed now cs h,
  )

  -- The page and the collector have the same points of a key.
  abbrev pub Charts : String → List (Frame A) → List (Conn A) → Type 0
  Charts k sent cs = map untimed (charted k sent) ≡ map untimed (history_of k cs)

  pub reports-Charts :
      (k : String) (now : ℕ) (cs : List (Conn A)) (sent : List (Frame A))
      → AreKeyed cs
      → Charts k sent cs
      → Charts k (reports now cs sent) (map (grow A figures arrival unix_milli now) cs)
  unfolding broadcast_all grow key_of
  reports-Charts k now [] sent h e = e
  reports-Charts k now (c ∷ cs) sent h e = elim (Bool-cases (str_eq (key_of c) k)) [
    | inl here ↦
        let old : map untimed (charted k sent) ≡ map untimed c.history =
          e ∙ ap (map untimed) (history_of_first k c cs here) in
        ap (map untimed) (
          reports_absent k now cs (told (report_of now c) sent) (absent k c cs h here)
          ∙ charted-report k now c sent true here)
        ∙ map-slide untimed max_history (charted k sent) c.history _ _ old
            (point_untimed now c (arrival (report_of now c)))
        ∙ ap (map untimed)
            (sym (history_of_first k (grow A figures arrival unix_milli now c) _ here))
    | inr there ↦
        let old : Charts k (told (report_of now c) sent) cs =
          ap (map untimed) (charted-report k now c sent false there)
          ∙ e
          ∙ ap (map untimed) (history_of_rest k c cs there) in
        reports-Charts k now cs (told (report_of now c) sent) h.2 old
        ∙ ap (map untimed)
            (sym (history_of_rest k (grow A figures arrival unix_milli now c) _ there))
  ]

  removals-charted :
      (k : String) (cs : List (Conn A)) (sent : List (Frame A))
      → charted k (
          broadcast_all A figures arrival unix_milli (removal A figures arrival unix_milli) cs sent)
        ≡ (if has_key k cs then [] else charted k sent)
  unfolding broadcast_all
  removals-charted k [] sent = refl
  removals-charted k (c ∷ cs) sent =
      let after = told (removal A figures arrival unix_milli c) sent in
      ground (arith, removals-charted k cs after, charted-removal k c sent)

  pub sweep-Charts :
      (k : String) (p : Conn A → Bool) (cs : List (Conn A)) (sent : List (Frame A))
      → AreKeyed cs
      → Charts k sent cs
      → Charts k
          (broadcast_all A figures arrival unix_milli
            (removal A figures arrival unix_milli)
            (select p cs)
            sent)
          (select (λ c. not (p c)) cs)
  sweep-Charts k p cs sent h e =
      ap (map untimed) (removals-charted k (select p cs) sent)
      ∙ either (has_key k (select p cs)) e
      ∙ ap (map untimed) (sym (history_of-select k p cs h))
    where
      either :
          (b : Bool)
          → map untimed (charted k sent) ≡ map untimed (history_of k cs)
          → map untimed (if b then [] else charted k sent)
            ≡ map untimed (if b then [] else history_of k cs)
      either true e = refl
      either false e = e
