-- ===== src/Socket/Invariant.antt =====
-- What holds of the state of useWebSocket.ts after any sequence of messages.
use Prim.Native.Nat.{◌≤◌}
use micro_trace.Common.{
  ℕ, suc, ◌-◌, String, Bool, true, false, ◌&&◌, Option, none, some, List, [], ◌∷◌, ◌++◌, map, take,
  drop, take_last, length, or_else, if◌then◌else◌, ◌≡◌, refl, sym, ap, ◌∙◌, arith, length-take,
  length-take_last, length-append, length-map, drop-append,
}
use micro_trace.Common.Arith.{Arith}
use micro_trace.Common.Dict.{
  Dict, lookup, insert, AllEntries, AllEntries-insert, AllEntries-erase, AllEntries-lookup,
  HasUniqueKeys, HasUniqueKeys-insert, HasUniqueKeys-erase,
}
use micro_trace.Types.{ServiceSnapshot, HistoryPoint, ResourcePoint, ConnHistory, ResourceMsg}
use micro_trace.Socket.{
  Readings, Dashboard, snap_key, make_event, was_calm, make_point, copy_point, on_stats,
  load_history, on_history, resource_point, update_service, on_resource, on_remove, max_events,
  max_history, max_resource_points,
}
use micro_trace.Socket.Trace.{Frame, run, Meaning, meaning, act, on_message-act}
use micro_trace.Socket.Trace.Meaning.{reports, removes, loads, measures, says_nothing}

push_bounded :
    {T : Type 0} (n : ℕ) (b : Bool) (x : T) (xs : List T)
    → length xs ≤ n
    → length (if b then take n (x ∷ xs) else xs) ≤ n
push_bounded n true x xs h = omega (arith, length-take n (x ∷ xs))
push_bounded n false x xs h = h

module _ (A : Arith) where
  -- A service's figures are those of the last point of its chart, which has at most 300 points.
  -- Nothing has ever set its `stress_kind`.
  pub record IsCurrent (k : String) (v : ServiceSnapshot A) : Type 0 where
    pub named : v.name ≡ k
    pub bounded : length v.history ≤ max_resource_points
    pub at : A.Num
    pub older : List (ResourcePoint A)
    pub newest :
        v.history
        ≡ older
          ++ record {
            time = at;
            cpu_pct = v.cpu_pct;
            io_wait_pct = v.io_wait_pct;
            mem_pressure_pct = v.mem_pressure_pct;
            cpu_throttle_pct = v.cpu_throttle_pct;
          }
            ∷ []
    pub unstressed : v.stress_kind ≡ none

  pub record IsWellFormed (s : Dashboard A) : Type 0 where
    pub log_bounded : length s.events ≤ max_events
    pub keyed : AllEntries (λ k v. snap_key A v ≡ k) s.snapshots
    pub unique : HasUniqueKeys s.snapshots
    pub current : AllEntries IsCurrent s.services

  take_last-snoc :
      {T : Type 0} (n : ℕ) (xs : List T) (x : T)
      → take_last (suc n) (xs ++ x ∷ []) ≡ take_last n xs ++ x ∷ []
  take_last-snoc n xs x =
      ap (λ k. drop k (xs ++ x ∷ [])) (omega (arith, length-append xs (x ∷ [])))
      ∙ sym (drop-append (length xs - n) xs (x ∷ []) (omega arith))

  update_service-IsCurrent :
      (r : ResourceMsg A) (o : Option (ServiceSnapshot A))
      → ((v : ServiceSnapshot A) → o ≡ some v → v.stress_kind ≡ none)
      → IsCurrent r.service_name (update_service A r o)
  unfolding update_service
  update_service-IsCurrent r none h = record {
    named = refl;
    bounded = omega arith;
    at = r.timestamp_ms;
    older = [];
    newest = refl;
    unstressed = refl;
  }
  update_service-IsCurrent r (some v) h = record {
    named = refl;
    bounded =
        omega (arith, length-take_last max_resource_points (v.history ++ resource_point A r ∷ []));
    at = r.timestamp_ms;
    older = take_last 299 v.history;
    newest = take_last-snoc 299 v.history (resource_point A r);
    unstressed = h v refl;
  }

  act-IsWellFormed :
      (now : Readings A) (m : Meaning A) (s : Dashboard A)
      → IsWellFormed s
      → IsWellFormed (act A now m s)
  unfolding on_stats on_remove on_history on_resource
  act-IsWellFormed now (reports snap) s w = record {
    log_bounded =
        push_bounded max_events (snap.is_spike && was_calm A (lookup (snap_key A snap) s.snapshots))
          (make_event A now (snap_key A snap) snap) s.events w.log_bounded;
    keyed =
        AllEntries-insert (λ k v. snap_key A v ≡ k) (snap_key A snap) snap s.snapshots refl w.keyed;
    unique = HasUniqueKeys-insert (snap_key A snap) snap s.snapshots w.unique;
    current = w.current;
  }
  act-IsWellFormed now (removes key) s w = record {
    log_bounded = w.log_bounded;
    keyed = AllEntries-erase (λ k v. snap_key A v ≡ k) key s.snapshots w.keyed;
    unique = HasUniqueKeys-erase key s.snapshots w.unique;
    current = w.current;
  }
  act-IsWellFormed now (loads conns) s w = record {
    log_bounded = w.log_bounded;
    keyed = w.keyed;
    unique = w.unique;
    current = w.current;
  }
  act-IsWellFormed now (measures r) s w = record {
    log_bounded = w.log_bounded;
    keyed = w.keyed;
    unique = w.unique;
    current =
        AllEntries-insert IsCurrent r.service_name
          (update_service A r (lookup r.service_name s.services)) s.services
          (update_service-IsCurrent r (lookup r.service_name s.services) (λ v e.
            (AllEntries-lookup IsCurrent r.service_name s.services v w.current e).unstressed))
          w.current;
  }
  act-IsWellFormed now says_nothing s w = w

  -- After any messages: the log has at most a hundred events; every snapshot stands under the key of its
  -- own connection, and no key stands twice; every service stands under its name, with a chart of at most 300 points that ends
  -- in its present figures, and with no `stress_kind`.
  pub run-IsWellFormed : (t : List (Frame A)) → IsWellFormed (run A t)
  unfolding run
  run-IsWellFormed [] = record { log_bounded = omega arith; keyed = tt; unique = tt; current = tt }
  run-IsWellFormed (f ∷ older) =
      rw (on_message-act A f (run A older))
        (act-IsWellFormed f.now (meaning A f.msg) (run A older) (run-IsWellFormed older))

  -- A history message that sends at most 3600 points for each connection.
  abbrev pub FitsAll : List (ConnHistory A) → Type 0
  FitsAll [] = Unit
  FitsAll (c ∷ cs) = (length c.points ≤ max_history) × FitsAll cs

  abbrev pub Fits : Meaning A → Type 0
  Fits (loads conns) = FitsAll conns
  Fits _ = Unit

  abbrev pub AllFit : List (Frame A) → Type 0
  AllFit [] = Unit
  AllFit (f ∷ fs) = Fits (meaning A f.msg) × AllFit fs

  abbrev pub HasBoundedHistory : Dashboard A → Type 0
  HasBoundedHistory s = AllEntries (λ k ps. length ps ≤ max_history) s.history

  load_history-bounded :
      (conns : List (ConnHistory A)) (next : Dict (List (HistoryPoint A)))
      → FitsAll conns
      → AllEntries (λ k ps. length ps ≤ max_history) next
      → AllEntries (λ k ps. length ps ≤ max_history) (load_history A conns next)
  unfolding load_history
  load_history-bounded [] next f h = h
  load_history-bounded (c ∷ cs) next (f, fs) h =
      load_history-bounded cs (insert c.key (map (copy_point A) c.points) next) fs (
        AllEntries-insert (λ k ps. length ps ≤ max_history) c.key (map (copy_point A) c.points) next
          (omega (arith, length-map (copy_point A) c.points)) h)

  act-bounded :
      (now : Readings A) (m : Meaning A) (s : Dashboard A)
      → Fits m
      → HasBoundedHistory s
      → HasBoundedHistory (act A now m s)
  unfolding on_stats on_remove on_history on_resource
  act-bounded now (reports snap) s f h =
      let ps = or_else (lookup (snap_key A snap) s.history) [] ++ make_point A now snap ∷ [] in
      AllEntries-insert (λ k ps. length ps ≤ max_history) (snap_key A snap)
        (take_last max_history ps) s.history (omega (arith, length-take_last max_history ps)) h
  act-bounded now (removes key) s f h =
      AllEntries-erase (λ k ps. length ps ≤ max_history) key s.history h
  act-bounded now (loads conns) s f h = load_history-bounded conns [] f tt
  act-bounded now (measures r) s f h = h
  act-bounded now says_nothing s f h = h

  -- If no history message exceeds 3600 points for a connection, then no connection ever keeps more.
  pub run-HasBoundedHistory : (t : List (Frame A)) → AllFit t → HasBoundedHistory (run A t)
  unfolding run
  run-HasBoundedHistory [] f = tt
  run-HasBoundedHistory (m ∷ older) (f, fs) =
      rw (on_message-act A m (run A older))
        (act-bounded m.now (meaning A m.msg) (run A older) f (run-HasBoundedHistory older fs))
