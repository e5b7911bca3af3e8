-- ===== src/Format/Tests.antt =====
-- The theorem about utils/format.ts at two latencies, over the natural numbers.
use micro_trace.Common.{◌≡◌, refl}
use micro_trace.Common.Arith.{nat_arith}
use micro_trace.Format.{latency_status, critical}

slow : latency_status nat_arith 100000 ≡ critical
unfolding latency_status
slow = refl
