-- ===== src/Log/Laws.antt =====
-- What the rows of the log of SpikeLog.tsx say on live data.
use micro_trace.Common.{
  ℕ, zero, suc, String, ◌&&◌, none, some, List, [], ◌∷◌, take, or_else, eq_iff, if◌then◌else◌, ◌≡◌,
  refl, arith, Bool-cases, inl, inr,
}
use micro_trace.Common.Arith.{Arith, gt}
use micro_trace.Common.Dict.{lookup}
use micro_trace.Common.Key.{edge_key, edge_key_ne_empty}
use micro_trace.App.{Selection, select_event, panel, act as act_on, hint, edge}
use micro_trace.Types.{StatSnapshot, SpikeEvent, Severity}
use micro_trace.Socket.{
  Readings, Dashboard, snap_key, make_event, was_calm, on_stats, on_history, on_resource, on_remove,
  max_events,
}
use micro_trace.Socket.Trace.{Frame, run, latest, lookup-run, Meaning, meaning, act, on_message-act}
use micro_trace.Socket.Trace.Meaning.{reports}
use micro_trace.Log.{log_row}

abbrev pub AllOf : {T : Type 0} → (T → Type 0) → List T → Type 0
AllOf P [] = Unit
AllOf P (x ∷ xs) = P x × AllOf P xs

AllOf-take : {T : Type 0} (P : T → Type 0) (n : ℕ) (xs : List T) → AllOf P xs → AllOf P (take n xs)
AllOf-take P zero xs h = tt
AllOf-take P (suc n) [] h = tt
AllOf-take P (suc n) (x ∷ xs) (p, h) = (p, AllOf-take P n xs h)

module _ (A : Arith) where
  -- An event stands for the connection between the services that it names, and is critical just above 80 ms.
  abbrev pub IsMarked : SpikeEvent A → Type 0
  IsMarked e =
      (e.key ≡ edge_key e.src e.dst)
      × (e.severity ≡ (if gt A e.p99_us (A.num 80000) then Severity.critical else Severity.warning))

  make_event-IsMarked :
      (now : Readings A) (snap : StatSnapshot A)
      → IsMarked (make_event A now (snap_key A snap) snap)
  unfolding make_event snap_key
  make_event-IsMarked now snap = (refl, refl)

  act-AllMarked :
      (now : Readings A) (m : Meaning A) (s : Dashboard A)
      → AllOf IsMarked s.events
      → AllOf IsMarked (act A now m s).events
  unfolding on_stats on_remove on_history on_resource
  act-AllMarked now (reports snap) s h =
      let key = snap_key A snap in
      elim (Bool-cases (snap.is_spike && was_calm A (lookup key s.snapshots))) [
        | inl up ↦ rw up (
            AllOf-take IsMarked max_events (make_event A now key snap ∷ s.events)
              (make_event-IsMarked now snap, h))
        | inr flat ↦ rw flat h
      ]
  act-AllMarked now _ s h = h

  run-AllMarked : (t : List (Frame A)) → AllOf IsMarked (run A t).events
  unfolding run
  run-AllMarked [] = tt
  run-AllMarked (f ∷ older) =
      rw (on_message-act A f (run A older))
        (act-AllMarked f.now (meaning A f.msg) (run A older) (run-AllMarked older))

  module _ (fmt_time : A.Num → String) where
    -- What a row of the log does on a click, without a service selected, and the colour of its dot.
    abbrev pub IsTrue : A.Num → Selection → List (Frame A) → SpikeEvent A → Type 0
    IsTrue now s t e =
        let r = log_row A fmt_time now e in
        let key = edge_key r.src r.dst in
        (r.dot ≡ (if gt A e.p99_us (A.num 80000) then "#dc2626" else "#d97706"))
        × (panel A (run A t) (act_on (select_event r.key) s) ≡ elim (latest A key t) [
          | none ↦ hint
          | some snap ↦ edge snap (or_else (lookup key (run A t).history) [])
        ])

    marked-IsTrue :
        (now : A.Num) (s : Selection) (t : List (Frame A)) (e : SpikeEvent A)
        → s.selected_node ≡ none
        → IsMarked e
        → IsTrue now s t e
    unfolding log_row panel act_on
    marked-IsTrue now s t e h (k, c) = (
      rw c (ground arith),
      rw (k, h, ← lookup-run A (edge_key e.src e.dst) t)
          (ground (arith, eq_iff (edge_key e.src e.dst) "", edge_key_ne_empty e.src e.dst)),
    )

    AllOf-IsTrue :
        (now : A.Num) (s : Selection) (t : List (Frame A)) (es : List (SpikeEvent A))
        → s.selected_node ≡ none
        → AllOf IsMarked es
        → AllOf (IsTrue now s t) es
    AllOf-IsTrue now s t [] h m = tt
    AllOf-IsTrue now s t (e ∷ es) h (m, ms) =
        (marked-IsTrue now s t e h m, AllOf-IsTrue now s t es h ms)

    -- On live data, for every row of the log: its dot is red just where the p99 of the event is above 80 ms; and where no service is
    -- selected, a click on it shows the latest report on the connection that it names, or the hint where that was removed.
    pub run-AllTrue :
        (now : A.Num) (s : Selection) (t : List (Frame A))
        → s.selected_node ≡ none
        → AllOf (IsTrue now s t) (run A t).events
    run-AllTrue now s t h = AllOf-IsTrue now s t (run A t).events h (run-AllMarked t)
