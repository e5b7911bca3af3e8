-- ===== src/Mock/Stress.antt =====
-- The stress of the services in useMockData.ts.
use micro_trace.Common.{
  ℕ, zero, suc, ◌+◌, ◌≤◌, ◌<◌, String, true, List, [], ◌∷◌, ◌++◌, is_some, ltb, ◌≡◌, refl, arith,
}
use micro_trace.Common.Arith.{Arith}
use micro_trace.Common.Dict.{Dict, AllEntries, AllEntries-insert}
use micro_trace.Types.{StressKind}
use micro_trace.Mock.Chance.{World}
use micro_trace.Mock.Service.{
  ServiceState, StressState, kind_at, age_stress, tick_service, new_service,
}
use micro_trace.Mock.Conn.{internal_services, external_services}
use micro_trace.Mock.Tick.{tick_services, tick, init_services, init, run}
use micro_trace.Mock.Timers.{IsRandom}

-- `Math.floor(Math.random() * 3)` is an index of an array of three.
abbrev pub IsIndexed : (A : Arith) → World A → Type 0
IsIndexed A w = (i : ℕ) → A.floor (A.mul (w.random i) (A.num 3)) < 3

-- A service is stressed just when its timer runs, and the timer stands at 13 at most.
abbrev pub IsStressed : StressKind → ℕ → Type 0
IsStressed kind timer = (is_some kind ≡ ltb 0 timer) × (timer ≤ 13)

kind_at-is_some : (A : Arith) (w : World A) (i : ℕ) → i < 3 → is_some (kind_at A w i) ≡ true
kind_at-is_some A w zero h = refl
kind_at-is_some A w (suc zero) h = refl
kind_at-is_some A w (suc (suc zero)) h = refl
kind_at-is_some A w (suc (suc (suc i))) h = absurd (omega arith)

module _ (A : Arith) (w : World A) (random : IsRandom A w) (indexed : IsIndexed A w) where
  age_stress-IsStressed :
      (s : StressState A w) (i : ℕ)
      → IsStressed s.kind s.timer
      → IsStressed (age_stress A w s i).0.kind (age_stress A w s i).0.timer
  unfolding age_stress
  age_stress-IsStressed s i (e, k) = ground (
    arith,
    random 5 14 (i + 1 + 1) (omega arith) (omega arith),
    kind_at-is_some A w (A.floor (A.mul (w.random (i + 1)) (A.num 3))) (indexed (i + 1)),
  )

  tick_service-IsStressed :
      (s : ServiceState A w) (i : ℕ)
      → IsStressed s.stress_kind s.stress_timer
      → IsStressed (tick_service A w s i).0.stress_kind (tick_service A w s i).0.stress_timer
  unfolding tick_service
  tick_service-IsStressed s i h =
      age_stress-IsStressed (record { kind = s.stress_kind; timer = s.stress_timer }) i h

  abbrev AllStressed : Dict (ServiceState A w) → Type 0
  AllStressed d = AllEntries (λ k s. IsStressed s.stress_kind s.stress_timer) d

  tick_services-AllStressed :
      (d : Dict (ServiceState A w)) (i : ℕ) → AllStressed d → AllStressed (tick_services A w d i).0
  unfolding tick_services
  tick_services-AllStressed [] i h = tt
  tick_services-AllStressed ((k, s) ∷ d) i (e, h) =
      (tick_service-IsStressed s i e, tick_services-AllStressed d (tick_service A w s i).1 h)

  init_services-AllStressed :
      (names : List String) (d : Dict (ServiceState A w)) (i : ℕ)
      → AllStressed d
      → AllStressed (init_services A w names d i).0
  unfolding init_services new_service
  init_services-AllStressed [] d i h = h
  init_services-AllStressed (name ∷ names) d i h =
      let s = (new_service A w name i).0 in
      let calm : IsStressed s.stress_kind s.stress_timer = (refl, omega arith) in
      init_services-AllStressed names _ _
        (AllEntries-insert (λ k s. IsStressed s.stress_kind s.stress_timer) name s d calm h)

  -- After any number of ticks every service is stressed just when its timer runs, and no timer stands above 13, where the random
  -- numbers are those that `IsRandom` and `IsIndexed` state.
  run-AllStressed :
      (n i : ℕ)
      → AllEntries (λ k s. IsStressed s.stress_kind s.stress_timer) (run A w n i).0.service_states
  unfolding run init tick
  run-AllStressed zero i =
      init_services-AllStressed (internal_services ++ external_services) [] i tt
  run-AllStressed (suc n) i =
      tick_services-AllStressed (run A w n i).0.service_states (run A w n i).1 (run-AllStressed n i)
