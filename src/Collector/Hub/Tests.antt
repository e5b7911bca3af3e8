-- ===== src/Collector/Hub/Tests.antt =====
-- The hub at a few steps.
use micro_trace.Common.{
  ℕ, ◌≤◌, Bool, true, false, Option, none, some, List, [], ◌∷◌, ◌++◌, length, ◌≡◌, refl,
}
use micro_trace.Collector.Hub.{
  max_waiting, Client, new_hub, broadcast, deliver, receive, first_data, list_of, serve_ws,
  on_read_error, Step, broadcasts, delivers, receives, serves, read_fails, run_from,
}
use micro_trace.Collector.Hub.Delivery.{taken, pending, page-delivered}

abbrev marshal : ℕ → Option ℕ
marshal n = some n

abbrev marshal_history : List ℕ → Option ℕ
marshal_history ns = some (length ns)

abbrev never : ℕ → Bool
never id = false

abbrev earlier : List (Step marshal marshal_history)
earlier = broadcasts 11 ∷ broadcasts 10 ∷ []

abbrev later : List (Step marshal marshal_history)
later = delivers never ∷ receives ∷ broadcasts 12 ∷ []

-- The page gets a message that was broadcast before it connected.
page_1 :
    (run_from marshal marshal_history
        (serve_ws marshal marshal_history 1
          (some (7 ∷ 8 ∷ []))
          (run_from marshal marshal_history new_hub earlier))
        later).clients
      1
    ≡ some (record { got = 2 ∷ 10 ∷ []; registered = true; once = false; closes = 0 })
unfolding run_from serve_ws broadcast receive deliver
page_1 = refl

page-delivered_example :
    let before = run_from marshal marshal_history new_hub earlier in
    let connected = serve_ws marshal marshal_history 1 (some (7 ∷ 8 ∷ [])) before in
    let after = run_from marshal marshal_history connected later in
    (length after.waiting ≤ max_waiting)
    × ((c : Client ℕ)
        → after.clients 1 ≡ some c
        → c.registered ≡ true
        → c.got ++ pending after
          ≡ (list_of (first_data marshal marshal_history (some (7 ∷ 8 ∷ []))) ++ pending before)
            ++ taken marshal marshal_history connected later)
page-delivered_example =
    page-delivered marshal marshal_history 1 (some (7 ∷ 8 ∷ [])) earlier later tt

-- A write that fails, and then the reader, each call `Close`.
closed_twice :
    (run_from marshal marshal_history new_hub (
        read_fails 1
        ∷ delivers (λ id. true)
        ∷ receives
        ∷ broadcasts 5
        ∷ serves 1 none
        ∷ [])).clients
      1
    ≡ some (record { got = []; registered = false; once = true; closes = 2 })
unfolding run_from serve_ws broadcast receive deliver on_read_error
closed_twice = refl
