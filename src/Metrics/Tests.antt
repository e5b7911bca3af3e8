-- ===== src/Metrics/Tests.antt =====
-- The theorems about the figures at concrete services, over the natural numbers.
use micro_trace.Common.{none, some, List, [], ◌∷◌, ◌≡◌, refl}
use micro_trace.Common.Arith.{nat_arith}
use micro_trace.Types.{ServiceSnapshot, Stress}
use micro_trace.Fixtures.{service_of}
use micro_trace.Metrics.{stressed_count}

abbrev svcs : List (ServiceSnapshot nat_arith)
svcs =
    service_of nat_arith "redis" (some Stress.io)
    ∷ service_of nat_arith "auth" none
    ∷ service_of nat_arith "api" (some Stress.cpu)
    ∷ []

two_stressed : stressed_count nat_arith svcs ≡ 2
unfolding stressed_count
two_stressed = refl
