-- ===== src/Mock/Service.antt =====
-- `tickService` of useMockData.ts: stress that comes and goes, and figures that follow it.
use micro_trace.Common.{
  ℕ, zero, suc, ◌-◌, ltb, ◌==◌, String, none, some, List, [], ◌∷◌, ◌++◌, take_last, if◌then◌else◌,
}
use micro_trace.Common.Arith.{Arith}
use micro_trace.Types.{ResourcePoint, ServiceSnapshot, Stress, StressKind}
use micro_trace.Mock.Chance.{World, Chance, pure, ◌>>=◌ as bind, draw, now, around, rnd, mils}

module _ (A : Arith) (w : World A) where
  open A use {Num, num, lt, add, sub, mul, div, floor}

  infixl 5 ◌>>=◌
  abbrev ◌>>=◌ : {X Y : Type 0} → Chance A w X → (X → Chance A w Y) → Chance A w Y
  m >>= f = bind A w m f

  pub record ServiceState : Type 0 where
    pub name : String
    pub cpu_pct : Num
    pub io_wait_pct : Num
    pub mem_pressure_pct : Num
    pub cpu_throttle_pct : Num
    pub stress_kind : StressKind
    pub stress_timer : ℕ
    pub history : List (ResourcePoint A)

  -- `kinds[i]`; `Math.floor(Math.random() * 3)` is at most 2, so the last clause is never reached
  abbrev pub kind_at : ℕ → StressKind
  kind_at zero = some Stress.cpu
  kind_at (suc zero) = some Stress.io
  kind_at (suc (suc zero)) = some Stress.memory
  kind_at _ = none

  pub record StressState : Type 0 where
    pub kind : StressKind
    pub timer : ℕ

  abbrev pub new_stress : Chance A w StressState
  new_stress = do
    k ← draw A w
    t ← rnd A w (num 5) (num 14)
    pure A w (record { kind = kind_at (floor (mul k (num 3))); timer = floor t })

  abbrev pub maybe_stress : StressState → Chance A w StressState
  maybe_stress s = do r ← draw A w; if lt r (mils A w 8) then new_stress else pure A w s

  -- The first `if` of `tickService`.
  unfoldable pub age_stress : StressState → Chance A w StressState
  age_stress s =
      if ltb 0 s.timer
      then pure A w
          (record { kind = if s.timer - 1 == 0 then none else s.kind; timer = s.timer - 1 })
      else maybe_stress s

  pub record Targets : Type 0 where
    pub cpu : Num
    pub io : Num
    pub mem : Num
    pub throttle : Num

  abbrev pub stressed_targets : StressKind → Targets → Chance A w Targets
  stressed_targets none t = pure A w t
  stressed_targets (some Stress.cpu) t = do
    cpu ← around A w (num 85) (num 14)
    throttle ← around A w (num 20) (num 60)
    pure A w (record t { cpu = cpu; throttle = throttle })
  stressed_targets (some Stress.io) t = do
    io ← around A w (num 35) (num 40)
    pure A w (record t { io = io })
  stressed_targets (some Stress.memory) t = do
    mem ← around A w (num 75) (num 22)
    cpu ← around A w (num 50) (num 30)
    pure A w (record t { mem = mem; cpu = cpu })

  unfoldable pub targets : StressKind → Chance A w Targets
  targets kind = do
    cpu ← around A w (num 15) (num 25)
    io ← around A w (num 2) (num 6)
    mem ← around A w (num 5) (num 15)
    stressed_targets kind (record { cpu = cpu; io = io; mem = mem; throttle = num 0 })

  -- `v += (target - v) * rate`, for a rate in tenths
  abbrev pub approach : Num → Num → ℕ → Num
  approach v target rate = add v (mul (sub target v) (div (num rate) (num 10)))

  unfoldable pub tick_service : ServiceState → Chance A w ServiceState
  unfolding age_stress targets
  tick_service s = do
    stress ← age_stress (record { kind = s.stress_kind; timer = s.stress_timer })
    t ← targets stress.kind
    time ← now A w
    let cpu = approach s.cpu_pct t.cpu 4
    let io = approach s.io_wait_pct t.io 5
    let mem = approach s.mem_pressure_pct t.mem 3
    let throttle = approach s.cpu_throttle_pct t.throttle 5
    pure A w (record {
      name = s.name;
      cpu_pct = cpu;
      io_wait_pct = io;
      mem_pressure_pct = mem;
      cpu_throttle_pct = throttle;
      stress_kind = stress.kind;
      stress_timer = stress.timer;
      history =
          take_last 300 s.history
          ++ record {
            time = time;
            cpu_pct = cpu;
            io_wait_pct = io;
            mem_pressure_pct = mem;
            cpu_throttle_pct = throttle;
          }
            ∷ [];
    })

  -- A service of the map that the page gets.
  unfoldable pub to_snapshot : ServiceState → ServiceSnapshot A
  to_snapshot s = record {
    name = s.name;
    cpu_pct = s.cpu_pct;
    io_wait_pct = s.io_wait_pct;
    mem_pressure_pct = s.mem_pressure_pct;
    cpu_throttle_pct = s.cpu_throttle_pct;
    stress_kind = s.stress_kind;
    history = s.history;
  }

  unfoldable pub new_service : String → Chance A w ServiceState
  new_service name = do
    cpu ← around A w (num 15) (num 25)
    io ← around A w (num 2) (num 6)
    mem ← around A w (num 5) (num 15)
    pure A w (record {
      name = name;
      cpu_pct = cpu;
      io_wait_pct = io;
      mem_pressure_pct = mem;
      cpu_throttle_pct = num 0;
      stress_kind = none;
      stress_timer = 0;
      history = [];
    })
