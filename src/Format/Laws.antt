-- ===== src/Format/Laws.antt =====
-- The grades of utils/format.ts.
use micro_trace.Common.{ℕ, ◌≤◌, true, ◌≡◌, arith, Bool-cases, inl, inr}
use micro_trace.Common.Arith.{Arith, IsOrdered}
use micro_trace.Common.Order.{AtMost}
use micro_trace.Format.{Status, ok, warning, high, critical, latency_status}

abbrev pub grade : Status → ℕ
grade ok = 0
grade warning = 1
grade high = 2
grade critical = 3

module _ (A : Arith) (o : IsOrdered A) where
  open A use {Num, num, lt}

  below : (a b c : Num) → AtMost A a b → lt b c ≡ true → lt a c ≡ true
  below a b c h k = elim (Bool-cases (lt a c)) [
    | inl e ↦ e
    | inr e ↦ absurd (ground (arith, o.ge_trans b a c h e, k))
  ]

  -- A higher latency is never graded better: for ordered numbers (`IsOrdered`), if a is at most b, then so are their grades.
  pub latency_status_mono :
      (a b : Num) → AtMost A a b → grade (latency_status A a) ≤ grade (latency_status A b)
  unfolding latency_status
  latency_status_mono a b h =
      ground (arith, below a b (num 5000) h, below a b (num 20000) h, below a b (num 100000) h)
