-- ===== src/Collector/Tests.antt =====
-- The theorems about the collector at concrete times and rows.
use micro_trace.Common.{
  ℕ, true, some, List, [], ◌∷◌, map, take_last, not, ◌==◌, if◌then◌else◌, ◌≡◌, refl, arith,
}
use micro_trace.Collector.Ring.{ring_size, empty, samples, add_all, samples-add_all}
use micro_trace.Collector.Stats.{new_flow, update_flow}
use micro_trace.Collector.Store.{
  Db, all_well, inserted, succeeds, Store, write_all, flush, rows, flush-quiet, flush_race,
}

abbrev times : List ℕ
times = 900 ∷ 1100 ∷ 4000 ∷ []

samples-add_all_example : samples (add_all times empty) ≡ take_last ring_size times
samples-add_all_example = samples-add_all times

-- (7 * 900 + 1700) / 8 and (3 * 0 + 800) / 4
second_time :
    update_flow 1700 (update_flow 900 new_flow)
    ≡ record { srtt = 1000; mdev = 200; initialized = true }
unfolding update_flow
second_time = refl

abbrev one_spare : ℕ → List ℕ
one_spare n = 0 ∷ []

-- An array of four cells, none of them in use.
abbrev fresh : Store one_spare
fresh = record { heap = λ b. 0 ∷ 0 ∷ 0 ∷ 0 ∷ []; next = 1; buf = record { base = 0; len = 0 } }

abbrev held : Store one_spare
held = record fresh { heap = λ b. 1 ∷ 2 ∷ 3 ∷ 0 ∷ []; buf = record { base = 0; len = 3 } }

-- The second row cannot be inserted.
abbrev one_fails : Db
one_fails = record all_well { inserts = λ i. not (i == 1) }

lost_row : inserted {X = ℕ} one_fails.inserts (1 ∷ 2 ∷ 3 ∷ []) ≡ 1 ∷ 3 ∷ []
unfolding inserted
lost_row = refl

flush-quiet_example :
    let r = flush one_spare one_fails [] (write_all one_spare (1 ∷ 2 ∷ 3 ∷ 4 ∷ 5 ∷ []) fresh) in
    (r.0 ≡ (
      if succeeds one_fails
      then map some (inserted one_fails.inserts (1 ∷ 2 ∷ 3 ∷ 4 ∷ 5 ∷ []))
      else []))
    × (rows one_spare (r.1).buf r.1 ≡ [])
flush-quiet_example =
    flush-quiet one_spare one_fails (1 ∷ 2 ∷ 3 ∷ 4 ∷ 5 ∷ []) fresh (omega arith, omega arith) refl

flush_race_example :
    let r = flush one_spare all_well ((8 ∷ 9 ∷ []) ∷ []) held in
    (r.0 ≡ map some (8 ∷ 9 ∷ 3 ∷ [])) × (rows one_spare (r.1).buf r.1 ≡ 8 ∷ 9 ∷ [])
flush_race_example =
    flush_race one_spare (8 ∷ 9 ∷ []) 2 held (omega arith, omega arith) refl (omega arith)
