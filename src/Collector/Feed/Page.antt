-- ===== src/Collector/Feed/Page.antt =====
-- What the page shows of the connections that the collector tracks.
use micro_trace.Common.{
  map, ℕ, String, Bool, true, false, not, ◌&&◌, ◌||◌, ltb, ◌-◌, List, [], ◌∷◌, select, str_eq,
  eq_iff, is_some, if◌then◌else◌, ◌≡◌, refl, sym, ap, ◌∙◌, arith,
}
use micro_trace.Common.Arith.{Arith}
use micro_trace.Common.Dict.{lookup}
use micro_trace.Common.Key.{edge_key, edge_key_ne_empty}
use micro_trace.Types.{StatSnapshot, OutboundMsg}
use micro_trace.Socket.{Readings, snap_key}
use micro_trace.Socket.Trace.{Frame, run, latest, lookup-run}
use micro_trace.Collector.Feed.{
  Conn, conn_ttl, key_of, touch, is_expired, grow, Processor, broadcast, report, removal,
  broadcast_all, Step, event, tick, sweep, handle_event, publish_snapshots, sweep_expired,
  forward_resource, measured, step, steps,
}

-- Whether one of the connections has the key.
abbrev pub has_key : {A : Arith} → String → List (Conn A) → Bool
has_key k [] = false
has_key k (c ∷ cs) = str_eq (key_of c) k || has_key k cs

has_key-touch :
    {A : Arith} (k src dst : String) (now : ℕ) (cs : List (Conn A))
    → has_key k cs ≡ true
    → has_key k (touch src dst now cs) ≡ true
unfolding touch key_of
has_key-touch k src dst now [] h = cc
has_key-touch k src dst now (c ∷ cs) h = ground (arith, has_key-touch k src dst now cs)

-- A key belongs to a connection that is kept, or to one that is not.
has_key-select :
    {A : Arith} (k : String) (p : Conn A → Bool) (cs : List (Conn A))
    → has_key k cs ≡ true
    → has_key k (select p cs) ≡ false
    → has_key k (select (λ c. not (p c)) cs) ≡ true
has_key-select k p [] h e = cc
has_key-select k p (c ∷ cs) h e = ground (arith, has_key-select k p cs)

-- Whether one of the connections has the key, and was last seen at such a time.
abbrev pub has_seen : {A : Arith} → String → (ℕ → Bool) → List (Conn A) → Bool
has_seen k P [] = false
has_seen k P (c ∷ cs) = (str_eq (key_of c) k && P c.last_seen) || has_seen k P cs

has_seen-touch :
    {A : Arith} (k : String) (P : ℕ → Bool) (src dst : String) (now : ℕ) (cs : List (Conn A))
    → has_seen k P (touch src dst now cs) ≡ true
    → ((str_eq (edge_key src dst) k && P now) || has_seen k P cs) ≡ true
unfolding touch key_of
has_seen-touch k P src dst now [] h = h
has_seen-touch k P src dst now (c ∷ cs) h =
    ground (arith, eq_iff c.src src, eq_iff c.dst dst, has_seen-touch k P src dst now cs, h)

has_seen-select :
    {A : Arith} (k : String) (P : ℕ → Bool) (q : Conn A → Bool) (cs : List (Conn A))
    → has_seen k P (select q cs) ≡ true
    → has_seen k P cs ≡ true
has_seen-select k P q [] h = h
has_seen-select k P q (c ∷ cs) h = ground (arith, has_seen-select k P q cs, h)

-- Within the time to live.
abbrev pub is_recent : ℕ → ℕ → Bool
is_recent now t = not (ltb conn_ttl (now - t))

has_key-recent :
    {A : Arith} (k : String) (now : ℕ) (cs : List (Conn A))
    → has_key k (select (λ c. not (is_expired now c)) cs) ≡ true
    → has_seen k (is_recent now) cs ≡ true
has_key-recent k now [] h = h
has_key-recent k now (c ∷ cs) h = ground (arith, has_key-recent k now cs, h)

module _ (A : Arith) (figures : ℕ → Conn A → StatSnapshot A) (arrival : OutboundMsg A → Readings A)
    (unix_milli : ℕ → A.Num) where
  pub has_key-grow :
      (k : String) (now : ℕ) (cs : List (Conn A))
      → has_key k (map (grow A figures arrival unix_milli now) cs) ≡ has_key k cs
  unfolding grow key_of
  has_key-grow k now [] = refl
  has_key-grow k now (c ∷ cs) =
      ap (λ b. str_eq (edge_key c.src c.dst) k || b) (has_key-grow k now cs)

  has_seen-grow :
      (k : String) (P : ℕ → Bool) (now : ℕ) (cs : List (Conn A))
      → has_seen k P (map (grow A figures arrival unix_milli now) cs) ≡ has_seen k P cs
  unfolding grow key_of
  has_seen-grow k P now [] = refl
  has_seen-grow k P now (c ∷ cs) =
      ap (λ b. (str_eq (edge_key c.src c.dst) k && P c.last_seen) || b) (has_seen-grow k P now cs)

  -- Whether the page has a report on the key after these messages.
  abbrev shown : String → List (Frame A) → Bool
  shown k sent = is_some (latest A k sent)

  shown-report :
      (k : String) (now : ℕ) (c : Conn A) (sent : List (Frame A))
      → shown k
          (broadcast A figures arrival unix_milli (report A figures arrival unix_milli now c) sent)
        ≡ (str_eq (key_of c) k || shown k sent)
  unfolding latest snap_key key_of
  shown-report k now c sent = ground arith

  shown-removal :
      (k : String) (c : Conn A) (sent : List (Frame A))
      → shown k
          (broadcast A figures arrival unix_milli (removal A figures arrival unix_milli c) sent)
        ≡ (if str_eq (key_of c) k then false else shown k sent)
  unfolding latest key_of
  shown-removal k c sent =
      ground (arith, edge_key_ne_empty c.src c.dst, eq_iff (edge_key c.src c.dst) "")

  shown-reports :
      (k : String) (now : ℕ) (cs : List (Conn A)) (sent : List (Frame A))
      → shown k (
          broadcast_all A figures arrival unix_milli
            (report A figures arrival unix_milli now)
            cs
            sent)
        ≡ (has_key k cs || shown k sent)
  unfolding broadcast_all
  shown-reports k now [] sent = refl
  shown-reports k now (c ∷ cs) sent =
      let after =
        broadcast A figures arrival unix_milli (report A figures arrival unix_milli now c) sent in
      ground (arith, shown-reports k now cs after, shown-report k now c sent)

  shown-removals :
      (k : String) (cs : List (Conn A)) (sent : List (Frame A))
      → shown k (
          broadcast_all A figures arrival unix_milli (removal A figures arrival unix_milli) cs sent)
        ≡ (if has_key k cs then false else shown k sent)
  unfolding broadcast_all
  shown-removals k [] sent = refl
  shown-removals k (c ∷ cs) sent =
      let after =
        broadcast A figures arrival unix_milli (removal A figures arrival unix_milli c) sent in
      ground (arith, shown-removals k cs after, shown-removal k c sent)

  -- The page has no report on a key that no connection has.
  abbrev IsTracked : String → Processor A figures arrival unix_milli → Type 0
  IsTracked k p = shown k p.sent ≡ true → has_key k p.conns ≡ true

  step-IsTracked :
      (k : String) (s : Step A figures arrival unix_milli)
      (p : Processor A figures arrival unix_milli)
      → IsTracked k p
      → IsTracked k (step A figures arrival unix_milli s p)
  unfolding handle_event publish_snapshots sweep_expired forward_resource latest
  step-IsTracked k (event src dst now) p h e = has_key-touch k src dst now p.conns (h e)
  step-IsTracked k (tick now) p h e =
      ground (arith, shown-reports k now p.conns p.sent, has_key-grow k now p.conns, e, h)
  step-IsTracked k (sweep now) p h e =
      let gone = shown-removals k (select (is_expired now) p.conns) p.sent in
      ground (arith, gone, e, h, has_key-select k (is_expired now) p.conns)
  step-IsTracked k (measured r) p h e = h e

  steps-IsTracked :
      (k : String) (ss : List (Step A figures arrival unix_milli))
      → IsTracked k (steps A figures arrival unix_milli ss)
  unfolding steps latest
  steps-IsTracked k [] e = cc
  steps-IsTracked k (s ∷ older) e =
      step-IsTracked k s (steps A figures arrival unix_milli older) (steps-IsTracked k older) e

  -- Whether the collector saw an event with the key at such a time.
  abbrev pub heard : String → (ℕ → Bool) → List (Step A figures arrival unix_milli) → Bool
  heard k P [] = false
  heard k P (event src dst t ∷ older) = (str_eq (edge_key src dst) k && P t) || heard k P older
  heard k P (_ ∷ older) = heard k P older

  steps-heard :
      (k : String) (P : ℕ → Bool) (ss : List (Step A figures arrival unix_milli))
      → has_seen k P (steps A figures arrival unix_milli ss).conns ≡ true
      → heard k P ss ≡ true
  unfolding steps handle_event publish_snapshots sweep_expired forward_resource
  steps-heard k P [] h = h
  steps-heard k P (event src dst t ∷ older) h =
      let conns = (steps A figures arrival unix_milli older).conns in
      ground (arith, has_seen-touch k P src dst t conns h, steps-heard k P older)
  steps-heard k P (tick now ∷ older) h =
      steps-heard k P older
        (sym (has_seen-grow k P now (steps A figures arrival unix_milli older).conns) ∙ h)
  steps-heard k P (sweep now ∷ older) h =
      let conns = (steps A figures arrival unix_milli older).conns in
      steps-heard k P older (has_seen-select k P (λ c. not (is_expired now c)) conns h)
  steps-heard k P (measured r ∷ older) h = steps-heard k P older h

  -- On a page that got every message since the collector began, after every tick that publishes: it has a
  -- report on exactly the keys of the connections that the collector tracks.
  pub page-tick :
      (k : String) (now : ℕ) (older : List (Step A figures arrival unix_milli))
      → let p = steps A figures arrival unix_milli (tick now ∷ older) in
        is_some (lookup k (run A p.sent).snapshots) ≡ has_key k p.conns
  unfolding steps publish_snapshots
  page-tick k now older =
      let p = steps A figures arrival unix_milli older in
      let sent = (publish_snapshots A figures arrival unix_milli now p).sent in
      ground (
        arith,
        lookup-run A k sent,
        shown-reports k now p.conns p.sent,
        has_key-grow k now p.conns,
        steps-IsTracked k older,
      )

  -- On a page that got every message since the collector began, after every sweep: each key with a report
  -- had an event that is at most thirty seconds older than the sweep.
  pub page-sweep :
      (k : String) (now : ℕ) (older : List (Step A figures arrival unix_milli))
      → is_some
          (lookup k (run A (steps A figures arrival unix_milli (sweep now ∷ older)).sent).snapshots)
        ≡ true
      → heard k (is_recent now) older ≡ true
  unfolding steps sweep_expired
  page-sweep k now older h =
      let p = steps A figures arrival unix_milli older in
      let sent = (steps A figures arrival unix_milli (sweep now ∷ older)).sent in
      let tracked =
        steps-IsTracked k (sweep now ∷ older) (ap is_some (sym (lookup-run A k sent)) ∙ h) in
      steps-heard k (is_recent now) older (has_key-recent k now p.conns tracked)
