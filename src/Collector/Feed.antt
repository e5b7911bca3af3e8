-- ===== src/Collector/Feed.antt =====
-- `Processor` of collector/stats/stats.go as the source of the page's messages: the connections that it tracks and what it broadcasts. The
-- figures of a report, whose computation `Stats` models, are a parameter, and the flows, which only the figures depend on,
-- are left out. The broadcasts reach the page in their order; the
-- channel of hub.go drops one where 512 are waiting, which is left out. A map in Go has no order, so that the list of
-- connections stands for any of its enumerations.
pub mod Page
pub mod Keys
pub mod Window
pub mod Load
pub mod Charts
pub mod History
mod Tests
use micro_trace.Common.{
  ℕ, ◌*◌, ◌-◌, ltb, leb, String, Bool, true, false, not, ◌&&◌, none, some, List, [], ◌∷◌, ◌++◌, map,
  take_last, select, str_eq, if◌then◌else◌,
}
use micro_trace.Common.Arith.{Arith}
use micro_trace.Common.Key.{edge_key}
use micro_trace.Types.{StatSnapshot, HistoryPoint, ConnHistory, ResourceMsg, OutboundMsg, MsgType}
use micro_trace.Socket.{Readings}
use micro_trace.Socket.Trace.{Frame}

-- An entry of `conns`: its `ConnKey`, and of its figures `lastSeen`, in nanoseconds, and `history`.
pub record Conn (A : Arith) : Type 0 where
  pub src : String
  pub dst : String
  pub last_seen : ℕ
  pub history : List (HistoryPoint A)

-- `maxHistory`, an hour
abbrev pub max_points : ℕ
max_points = 3600

-- thirty seconds
abbrev pub conn_ttl : ℕ
conn_ttl = 30 * 1000000000

unfoldable pub key_of : {A : Arith} → Conn A → String
key_of c = edge_key c.src c.dst

-- `getOrCreateConn` and `cs.lastSeen = now`
unfoldable pub touch : {A : Arith} → String → String → ℕ → List (Conn A) → List (Conn A)
touch src dst now [] = record { src = src; dst = dst; last_seen = now; history = [] } ∷ []
touch src dst now (c ∷ cs) =
    if str_eq c.src src && str_eq c.dst dst
    then record c { last_seen = now } ∷ cs
    else c ∷ touch src dst now cs

-- `now.Sub(cs.lastSeen) > connTTL`
abbrev pub is_expired : {A : Arith} → ℕ → Conn A → Bool
is_expired now c = ltb conn_ttl (now - c.last_seen)

-- A connection with no points yet is left out.
abbrev pub with_points :
    {A : Arith} → Conn A → List (HistoryPoint A) → List (ConnHistory A) → List (ConnHistory A)
unfolding key_of
with_points c [] rest = rest
with_points c (p ∷ ps) rest = record { key = key_of c; points = p ∷ ps } ∷ rest

-- `GetHistory`
unfoldable pub get_history : {A : Arith} → List (Conn A) → List (ConnHistory A)
unfolding with_points
get_history [] = []
get_history (c ∷ cs) = with_points c c.history (get_history cs)

-- `figures` are the fields of a report but for its names, `arrival` is what the page's clock says when it handles a message.
module _ (A : Arith) (figures : ℕ → Conn A → StatSnapshot A) (arrival : OutboundMsg A → Readings A)
    (unix_milli : ℕ → A.Num) where
  -- The connections, and what was broadcast, the newest message first.
  pub record Processor : Type 0 where
    pub conns : List (Conn A)
    pub sent : List (Frame A)

  abbrev pub event_msg : OutboundMsg A
  event_msg = record {
    msg_type = MsgType.event;
    stats = none;
    remove_key = none;
    history = none;
    resource = none;
  }

  abbrev pub report : ℕ → Conn A → OutboundMsg A
  report now c = record event_msg {
    msg_type = MsgType.stats;
    stats = some (record (figures now c) { src_service = c.src; dst_service = c.dst });
  }

  abbrev pub removal : Conn A → OutboundMsg A
  removal c = record event_msg { msg_type = MsgType.remove; remove_key = some (key_of c) }

  abbrev pub broadcast : OutboundMsg A → List (Frame A) → List (Frame A)
  broadcast msg sent = record { now = arrival msg; msg = msg } ∷ sent

  -- The messages of one loop, in the order of the list.
  unfoldable pub broadcast_all :
      (Conn A → OutboundMsg A) → List (Conn A) → List (Frame A) → List (Frame A)
  broadcast_all f [] sent = sent
  broadcast_all f (c ∷ cs) sent = broadcast_all f cs (broadcast (f c) sent)

  -- A case of the select in `Run`: an event between two services at a time, or a tick of one of the tickers; or figures of a
  -- service that `ForwardResource` passes on. (Where the events end, `Run` makes a last tick.)
  pub data Step : Type 0 where
    event : String → String → ℕ → Step
    tick : ℕ → Step
    sweep : ℕ → Step
    measured : ResourceMsg A → Step

  unfoldable pub handle_event : String → String → ℕ → Processor → Processor
  unfolding touch
  handle_event src dst now p = record {
    conns = touch src dst now p.conns;
    sent = broadcast event_msg p.sent;
  }

  -- The point of a report, and the history with it, cut to its latest 3600.
  unfoldable pub point_of : ℕ → Conn A → HistoryPoint A
  point_of now c = record {
    time = unix_milli now;
    latest_srtt_us = (figures now c).latest_srtt_us;
    avg_us = (figures now c).avg_us;
    p50_us = (figures now c).p50_us;
    p95_us = (figures now c).p95_us;
    p99_us = (figures now c).p99_us;
    jitter_us = (figures now c).jitter_us;
  }

  unfoldable pub grow : ℕ → Conn A → Conn A
  unfolding point_of
  grow now c = record c { history = take_last max_points (c.history ++ point_of now c ∷ []) }

  unfoldable pub publish_snapshots : ℕ → Processor → Processor
  unfolding broadcast_all grow
  publish_snapshots now p = record {
    conns = map (grow now) p.conns;
    sent = broadcast_all (report now) p.conns p.sent;
  }

  unfoldable pub sweep_expired : ℕ → Processor → Processor
  unfolding broadcast_all key_of
  sweep_expired now p = record {
    conns = select (λ c. not (is_expired now c)) p.conns;
    sent = broadcast_all removal (select (is_expired now) p.conns) p.sent;
  }

  unfoldable pub forward_resource : ResourceMsg A → Processor → Processor
  forward_resource r p = record p {
    sent = broadcast (record event_msg { msg_type = MsgType.resource; resource = some r }) p.sent;
  }

  abbrev pub step : Step → Processor → Processor
  step (event src dst now) p = handle_event src dst now p
  step (tick now) p = publish_snapshots now p
  step (sweep now) p = sweep_expired now p
  step (measured r) p = forward_resource r p

  -- The newest step first.
  unfoldable pub steps : List Step → Processor
  steps [] = record { conns = []; sent = [] }
  steps (s ∷ older) = step s (steps older)

  abbrev history_msg : List (ConnHistory A) → List (Frame A)
  history_msg [] = []
  history_msg (h ∷ hs) =
      broadcast (record event_msg { msg_type = MsgType.history; history = some (h ∷ hs) }) []

  -- `ServeWs`: what is sent to a page that connects, while no broadcast waits to be sent.
  unfoldable pub serve : Processor → Processor
  unfolding get_history
  serve p = record p { sent = history_msg (get_history p.conns) }

  unfoldable pub steps_from : Processor → List Step → Processor
  steps_from p [] = p
  steps_from p (s ∷ older) = step s (steps_from p older)
