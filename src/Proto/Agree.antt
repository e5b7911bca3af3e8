-- ===== src/Proto/Agree.antt =====
-- One connection's part of a tick: mt-data.js and useMockData.ts side by side.
use micro_trace.Common.{
  ℕ, zero, suc, ◌-◌, String, Bool, true, none, some, List, [], ◌∷◌, ◌++◌, map, take, take_last,
  drop, length, or_else, ◌≡◌, refl, sym, ap, ◌∙◌, arith, length-map,
}
use micro_trace.Common.Arith.{Arith}
use micro_trace.Common.Dict.{Dict, lookup, insert}
use micro_trace.Types.{StatSnapshot, SpikeEvent, HistoryPoint, CauseKind}
use micro_trace.Mock.Chance.{World, Percs}
use micro_trace.Mock.Service.{ServiceState}
use micro_trace.Mock.Conn.{ConnState, age_spike, settle, classify_cause, to_snap, to_event}
use micro_trace.Proto.Data.{
  ProtoPoint, ProtoConn, ProtoSnap, ProtoEvent, proto_age, proto_settle, proto_cause, proto_snap,
  proto_event,
}

module _ {V W : Type 0} (f : V → W) where
  abbrev pub map_values : Dict V → Dict W
  map_values [] = []
  map_values ((k, v) ∷ d) = (k, f v) ∷ map_values d

  pub map_values-append : (d e : Dict V) → map_values (d ++ e) ≡ map_values d ++ map_values e
  map_values-append [] e = refl
  map_values-append ((k, v) ∷ d) e = ap (λ r. (k, f v) ∷ r) (map_values-append d e)

  pub map_values-insert :
      (k : String) (v : V) (d : Dict V) → map_values (insert k v d) ≡ insert k (f v) (map_values d)
  unfolding insert
  map_values-insert k v [] = refl
  map_values-insert k v ((j, u) ∷ d) = ground (arith, map_values-insert k v d)

module _ {X Y : Type 0} (f : X → Y) where
  map-drop : (n : ℕ) (xs : List X) → map f (drop n xs) ≡ drop n (map f xs)
  map-drop zero xs = refl
  map-drop (suc n) [] = refl
  map-drop (suc n) (x ∷ xs) = map-drop n xs

  pub map-take : (n : ℕ) (xs : List X) → map f (take n xs) ≡ take n (map f xs)
  map-take zero xs = refl
  map-take (suc n) [] = refl
  map-take (suc n) (x ∷ xs) = ap (λ ys. f x ∷ ys) (map-take n xs)

  pub map-append : (xs ys : List X) → map f (xs ++ ys) ≡ map f xs ++ map f ys
  map-append [] ys = refl
  map-append (x ∷ xs) ys = ap (λ zs. f x ∷ zs) (map-append xs ys)

  map-take_last : (n : ℕ) (xs : List X) → map f (take_last n xs) ≡ take_last n (map f xs)
  map-take_last n xs = map-drop (length xs - n) xs ∙ rw (length-map f xs) refl

module _ (A : Arith) (w : World A) where
  open A use {Num, num, mul}

  abbrev pub percs_at : HistoryPoint A → Percs A w
  percs_at h = record {
    avg_us = h.avg_us;
    p50_us = h.p50_us;
    p95_us = h.p95_us;
    p99_us = h.p99_us;
    jitter_us = h.jitter_us;
  }

  abbrev pub forget_point : HistoryPoint A → ProtoPoint A w
  forget_point h = record { time = h.time; percs = percs_at h }

  -- The prototype's state of a connection, from the hook's.
  abbrev pub forget : ConnState A w → ProtoConn A w
  forget s = record {
    src = s.src;
    dst = s.dst;
    key = s.key;
    base_ms = s.base_ms;
    noise_ms = s.noise_ms;
    is_spike = s.is_spike;
    spike_timer = s.spike_timer;
    retransmit_count = s.retransmit_count;
    sample_count = s.sample_count;
    close_states = s.close_states;
    history = map forget_point s.history;
    cause_kind = s.cause_kind;
  }

  pub age-forget :
      (b : Bool) (s : ConnState A w) (i : ℕ)
      → proto_age A w b (forget s) i ≡ (forget (age_spike A w b s i).0, (age_spike A w b s i).1)
  unfolding proto_age age_spike
  age-forget b s i = ground arith

  cause-forget :
      (svcs : Dict (ServiceState A w)) (t : ServiceState A w) (s : ConnState A w)
      → lookup s.dst svcs ≡ some t
      → proto_cause A w svcs (forget s) s.dst ≡ classify_cause A w s t.stress_kind
  unfolding proto_cause classify_cause
  cause-forget svcs t s e = ground arith

  window-forget :
      (h : HistoryPoint A) (hs : List (HistoryPoint A))
      → take_last 300 (map forget_point hs) ++ forget_point h ∷ []
        ≡ map forget_point (take_last 300 hs ++ h ∷ [])
  window-forget h hs =
      ap (λ ps. ps ++ forget_point h ∷ []) (sym (map-take_last forget_point 300 hs))
      ∙ sym (map-append forget_point (take_last 300 hs) (h ∷ []))

  pub settle-forget :
      (svcs : Dict (ServiceState A w)) (t : ServiceState A w) (p : Percs A w) (time : Num)
      (s : ConnState A w)
      → lookup s.dst svcs ≡ some t
      → proto_settle A w svcs p time (forget s) ≡ forget (settle A w (some t) p time s)
  unfolding proto_settle settle
  settle-forget svcs t p time s e = rw (cause-forget svcs t s e) (
      ap (λ ps. record (forget (settle A w (some t) p time s)) { history = ps })
        (window-forget _ s.history))

  pub age-dst : (b : Bool) (s : ConnState A w) (i : ℕ) → (age_spike A w b s i).0.dst ≡ s.dst
  unfolding age_spike
  age-dst b s i = ground arith

  pub settle-explained :
      (t : ServiceState A w) (p : Percs A w) (time : Num) (s : ConnState A w)
      → let s' = settle A w (some t) p time s in
        s'.is_spike ≡ true → some (or_else s'.cause_kind CauseKind.network) ≡ s'.cause_kind
  unfolding settle
  settle-explained t p time s e = ground (arith, e)

  abbrev pub strip : ProtoSnap A w → StatSnapshot A
  strip p = record {
    src_service = p.src_service;
    dst_service = p.dst_service;
    src_type = p.src_type;
    dst_type = p.dst_type;
    latest_srtt_us = (p.percs).avg_us;
    avg_us = (p.percs).avg_us;
    p50_us = (p.percs).p50_us;
    p95_us = (p.percs).p95_us;
    p99_us = (p.percs).p99_us;
    jitter_us = (p.percs).jitter_us;
    retransmit_count = p.retransmit_count;
    sample_count = p.sample_count;
    is_spike = p.is_spike;
    spike_threshold_us = p.spike_threshold_us;
    cause_kind = p.cause_kind;
    close_states = some p.close_states;
    dst_cpu_pct = some p.dst_cpu_pct;
    dst_io_wait_pct = some p.dst_io_wait_pct;
    dst_mem_pressure_pct = some p.dst_mem_pressure_pct;
    baseline_us = none;
  }

  abbrev pub bare : StatSnapshot A → StatSnapshot A
  bare s = record s { baseline_us = none }

  abbrev pub forget_event : SpikeEvent A → ProtoEvent A w
  forget_event e = record {
    id = e.id;
    timestamp = e.timestamp;
    key = e.key;
    src = e.src;
    dst = e.dst;
    p99_us = e.p99_us;
    baseline_us = e.baseline_us;
    severity = e.severity;
    cause_kind = some e.cause_kind;
    dst_cpu_pct = e.dst_cpu_pct;
    dst_io_wait_pct = e.dst_io_wait_pct;
    dst_mem_pressure_pct = e.dst_mem_pressure_pct;
  }

  pub snap-strip :
      (t : ServiceState A w) (p : Percs A w) (s : ConnState A w)
      → strip (proto_snap A w t p (forget s)) ≡ bare (to_snap A w (some t) p s)
  unfolding proto_snap to_snap
  snap-strip t p s = refl

  pub event-forget :
      (t : ServiceState A w) (p : Percs A w) (a b : Num) (n : ℕ) (s : ConnState A w)
      → some (or_else s.cause_kind CauseKind.network) ≡ s.cause_kind
      → proto_event A w t p a b n (forget s) ≡ forget_event (to_event A w (some t) p a b n s)
  unfolding proto_event to_event
  event-forget t p a b n s e =
      ap (λ c. record (forget_event (to_event A w (some t) p a b n s)) { cause_kind = c }) (sym e)
