-- ===== src/Mock/Tests.antt =====
-- The theorems about useMockData.ts in a world in which everything that can happen by chance happens.

use micro_trace.Common.{
  some, true, or_else, String, ◌+◌, ◌≤◌, false, ◌*◌, ◌/◌, List, [], ◌∷◌, ◌≡◌, refl, arith,
}
use micro_trace.Common.Arith.{Arith, nat_arith}
use micro_trace.Common.Dict.{lookup, insert}
use micro_trace.Common.Key.{edge_key}
use micro_trace.Mock.Ends.{spike-ends}
use micro_trace.Mock.Service.{tick_service, age_stress, targets, new_service}
use micro_trace.Common.Sort.{sort, place}
use micro_trace.Common.Int.{ℤ, pos, int_arith}
use micro_trace.Mock.Chance.{World, earlier, percentile}
use micro_trace.Mock.Conn.{ConnState, age_spike, settle, tick_conn, new_conn}
use micro_trace.Mock.Tick.{run, init, init_services, init_conns, tick, tick_services, tick_conns}
use micro_trace.Mock.Timers.{IsRandom}
use micro_trace.Mock.Stress.{IsIndexed}

-- Numbers counted in thousandths.
abbrev mil_arith : Arith
mil_arith = record nat_arith {
  num = λ n. n * 1000;
  mul = λ a b. a * b / 1000;
  div = λ a b. a * 1000 / b;
  floor = λ a. a / 1000;
}

-- `Math.random()` is 0.005 at each call.
abbrev busy : World mil_arith
busy = record { random = λ n. 5; clock = λ n. n * 1000 }

busy-IsRandom : IsRandom mil_arith busy
busy-IsRandom lo hi i h k = (omega arith, omega arith)

spike_starts :
    (age_spike mil_arith busy false
      (new_conn mil_arith busy "order-svc" "redis" 1500 500)
      0).0.spike_timer
    ≡ 3
unfolding age_spike new_conn
spike_starts = refl

abbrev quiet : World int_arith
quiet = record { random = λ n. pos 0; clock = λ n. pos n }

abbrev latencies : List ℤ
latencies = pos 30 ∷ pos 10 ∷ pos 40 ∷ pos 20 ∷ pos 50 ∷ []

percentile_75 : percentile int_arith quiet 75 (sort (earlier int_arith quiet) latencies) ≡ pos 40
unfolding percentile sort place
percentile_75 = refl

busy-IsIndexed : IsIndexed mil_arith busy
busy-IsIndexed i = omega arith

abbrev link : String
link = edge_key "api-gateway" "auth-svc"

-- The connection after one tick, in which its spike has begun.
abbrev spiking : ConnState mil_arith busy
spiking =
    or_else (lookup link (run mil_arith busy 1 0).0.conn_states) (new_conn mil_arith busy "" "" 0 0)

spiking-lookup : lookup link (run mil_arith busy 1 0).0.conn_states ≡ some spiking
unfolding run init init_services init_conns tick tick_services tick_conns lookup insert edge_key
    new_conn
spiking-lookup = refl

spiking-is_spike : spiking.is_spike ≡ true
unfolding run init init_services init_conns tick tick_services tick_conns lookup insert edge_key
    new_conn tick_conn settle age_spike tick_service age_stress targets new_service
spiking-is_spike = refl

spike-ends_example :
    (spiking.spike_timer ≤ 7)
    × (s' : ConnState mil_arith busy) × (lookup link
          (run mil_arith busy (1 + spiking.spike_timer) 0).0.conn_states
        ≡ some s')
    × (s'.is_spike ≡ false)
spike-ends_example =
    spike-ends mil_arith busy busy-IsRandom link 1 0 spiking spiking-lookup spiking-is_spike
