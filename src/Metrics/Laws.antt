-- ===== src/Metrics/Laws.antt =====
-- What the figures of GlobalMetrics.tsx and TopBar.tsx amount to.
use micro_trace.Common.{◌+◌, ◌≤◌, String, none, List, [], ◌∷◌, length, ◌≡◌, refl, arith}
use micro_trace.Common.Arith.{Arith}
use micro_trace.Common.Dict.{Dict, values, AllEntries}
use micro_trace.Types.{ServiceSnapshot, Stress}
use micro_trace.Socket.Trace.{Frame, run}
use micro_trace.Socket.Invariant.{IsCurrent, run-IsWellFormed}
use micro_trace.Metrics.{add_name, stressed_count, kind_count, top_bar}

length-add_name : (x : String) (ys : List String) → length (add_name x ys) ≤ length ys + 1
unfolding add_name
length-add_name x [] = omega arith
length-add_name x (y ∷ ys) = ground (arith, length-add_name x ys)

module _ (A : Arith) where
  -- The stressed services are those stressed by CPU, by I/O and by memory, each counted once.
  pub stressed_count-kind_count :
      (svcs : List (ServiceSnapshot A))
      → stressed_count A svcs
        ≡ kind_count A Stress.cpu svcs
          + kind_count A Stress.io svcs
          + kind_count A Stress.memory svcs
  unfolding stressed_count kind_count
  stressed_count-kind_count [] = omega arith
  stressed_count-kind_count (s ∷ svcs) = ground (arith, stressed_count-kind_count svcs)

  unstressed-count :
      (d : Dict (ServiceSnapshot A)) → AllEntries (IsCurrent A) d → stressed_count A (values d) ≡ 0
  unfolding stressed_count values
  unstressed-count [] h = refl
  unstressed-count ((k, v) ∷ d) (c, h) = rw c.unstressed (unstressed-count d h)

  -- On live data no service is ever counted as stressed, whatever the collector reports: neither the card nor the
  -- badge can show one.
  stressed_count-run :
      (t : List (Frame A))
      → (stressed_count A (values (run A t).services) ≡ 0)
        × ((top_bar A (run A t).connected (run A t).snapshots (run A t).services).stressed ≡ none)
  unfolding top_bar
  stressed_count-run t =
      let e = unstressed-count (run A t).services (run-IsWellFormed A t).current in (e, rw e refl)
