-- ===== src/Proto/Tests.antt =====
-- The two simulations over natural numbers counted in thousandths, where every chance comes true.
use micro_trace.Common.{◌*◌, ◌/◌, some, ◌≡◌}
use micro_trace.Common.Arith.{Arith, nat_arith}
use micro_trace.Mock.Chance.{World}
use micro_trace.Mock.Tick.{run}
use micro_trace.Proto.Data.{proto_run}
use micro_trace.Proto.Run.{view, TickAgrees, run-agrees}

abbrev pub mil_arith : Arith
mil_arith = record nat_arith {
  num = λ n. n * 1000;
  mul = λ a b. a * b / 1000;
  div = λ a b. a * 1000 / b;
  floor = λ a. a / 1000;
}

-- `Math.random()` is 0.005 at each call.
abbrev pub busy : World mil_arith
busy = record { random = λ n. 5; clock = λ n. n * 1000 }

run-agrees_example :
    (proto_run mil_arith busy 3 0
      ≡ some (view mil_arith busy (run mil_arith busy 3 0).0, (run mil_arith busy 3 0).1))
    × TickAgrees mil_arith busy (run mil_arith busy 3 0).0 (run mil_arith busy 3 0).1
run-agrees_example = run-agrees mil_arith busy 3 0
