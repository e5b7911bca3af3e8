-- ===== src/Metrics.antt =====
-- The figures of frontend/src/components/GlobalMetrics.tsx and TopBar.tsx.
pub mod Laws
mod Tests
use micro_trace.Common.{
  ℕ, ◌+◌, ltb, String, Bool, true, false, not, Option, none, some, List, [], ◌∷◌, length, select,
  is_some, if◌then◌else◌, str_eq,
}
use micro_trace.Common.Arith.{Arith, gt}
use micro_trace.Common.Dict.{Dict, values}
use micro_trace.Types.{StatSnapshot, ServiceSnapshot, Stress, StressKind}
use micro_trace.Format.{Status, latency_status, fmt_us, status_color}

-- `set.add(x)`, for a set that is enumerated in insertion order
unfoldable pub add_name : String → List String → List String
add_name x [] = x ∷ []
add_name x (y ∷ ys) = if str_eq y x then y ∷ ys else y ∷ add_name x ys

abbrev pub is_kind : Stress → StressKind → Bool
is_kind Stress.cpu (some Stress.cpu) = true
is_kind Stress.io (some Stress.io) = true
is_kind Stress.memory (some Stress.memory) = true
is_kind _ _ = false

module _ (A : Arith) where
  open A use {Num, num, add, div}

  unfoldable pub sum_of : (StatSnapshot A → Num) → Num → List (StatSnapshot A) → Num
  sum_of f acc [] = acc
  sum_of f acc (s ∷ snaps) = sum_of f (add acc (f s)) snaps

  unfoldable pub mean_of : (StatSnapshot A → Num) → List (StatSnapshot A) → Num
  unfolding sum_of
  mean_of f [] = num 0
  mean_of f (s ∷ snaps) = div (sum_of f (num 0) (s ∷ snaps)) (num (length (s ∷ snaps)))

  unfoldable pub retransmits : ℕ → List (StatSnapshot A) → ℕ
  retransmits acc [] = acc
  retransmits acc (s ∷ snaps) = retransmits (acc + s.retransmit_count) snaps

  unfoldable pub spike_count : List (StatSnapshot A) → ℕ
  spike_count snaps = length (select (λ s. s.is_spike) snaps)

  unfoldable pub stressed_count : List (ServiceSnapshot A) → ℕ
  stressed_count svcs = length (select (λ s. is_some s.stress_kind) svcs)

  unfoldable pub kind_count : Stress → List (ServiceSnapshot A) → ℕ
  kind_count kind svcs = length (select (λ s. is_kind kind s.stress_kind) svcs)

  unfoldable pub service_names : List String → List (StatSnapshot A) → List String
  unfolding add_name
  service_names names [] = names
  service_names names (s ∷ snaps) =
      service_names (add_name s.dst_service (add_name s.src_service names)) snaps

  -- The cards of GlobalMetrics: what each shows and whether it is highlighted.
  pub record Cards : Type 0 where
    pub p95 : String
    pub p99 : String
    pub p99_status : Status
    pub p99_high : Bool
    pub spikes : ℕ
    pub spikes_high : Bool
    -- the card of stressed services is there only once a service is known: its count and the three kinds
    pub stressed : Option (ℕ × ℕ × ℕ × ℕ)
    pub retransmits : ℕ
    pub retransmits_high : Bool
    pub connections : ℕ
    pub services : ℕ

  unfoldable pub stressed_card : List (ServiceSnapshot A) → Option (ℕ × ℕ × ℕ × ℕ)
  unfolding stressed_count kind_count
  stressed_card [] = none
  stressed_card (s ∷ svcs) = some (
    stressed_count (s ∷ svcs),
    kind_count Stress.cpu (s ∷ svcs),
    kind_count Stress.io (s ∷ svcs),
    kind_count Stress.memory (s ∷ svcs),
  )

  unfoldable pub global_metrics : Dict (StatSnapshot A) → Dict (ServiceSnapshot A) → Cards
  unfolding mean_of retransmits spike_count service_names stressed_card
  global_metrics snapshots services =
      let snaps = values snapshots in
      let gp95 = mean_of (λ s. s.p95_us) snaps in
      let gp99 = mean_of (λ s. s.p99_us) snaps in
      record {
        p95 = fmt_us A gp95;
        p99 = fmt_us A gp99;
        p99_status = latency_status A gp99;
        p99_high = gt A gp99 (num 20000);
        spikes = spike_count snaps;
        spikes_high = ltb 0 (spike_count snaps);
        stressed = stressed_card (values services);
        retransmits = retransmits 0 snaps;
        retransmits_high = ltb 20 (retransmits 0 snaps);
        connections = length snaps;
        services = length (service_names [] snaps);
      }

  -- The state line and the badges of TopBar; a badge with a count of zero is not there.
  pub record Badges : Type 0 where
    pub online : Bool
    pub services : ℕ
    pub stressed : Option ℕ
    pub spikes : Option ℕ

  abbrev pub badge : ℕ → Option ℕ
  badge n = if ltb 0 n then some n else none

  unfoldable pub top_bar : Bool → Dict (StatSnapshot A) → Dict (ServiceSnapshot A) → Badges
  unfolding spike_count service_names stressed_count
  top_bar connected snapshots services = record {
    online = connected;
    services = length (service_names [] (values snapshots));
    stressed = badge (stressed_count (values services));
    spikes = badge (spike_count (values snapshots));
  }
