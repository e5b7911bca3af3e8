-- ===== src/Socket/Trace.antt =====
-- The run of the message handler of useWebSocket.ts against an abstract view of the messages: what a
-- reader of the whole trace would say of a connection, with no dictionary and no cut-off log.
-- A trace has its newest message first.
use micro_trace.Common.{
  String, Bool, false, not, ◌&&◌, Option, none, some, List, [], ◌∷◌, take, str_eq, if◌then◌else◌,
  ◌≡◌, refl, ap, ◌∙◌, arith, take-cons-take, Bool-cases, inl, inr,
}
use micro_trace.Common.Arith.{Arith}
use micro_trace.Common.Dict.{lookup, lookup-insert, lookup-erase}
use micro_trace.Types.{ResourceMsg, StatSnapshot, SpikeEvent, ConnHistory, OutboundMsg, MsgType}
use micro_trace.Socket.{
  Readings, Dashboard, initial, snap_key, make_event, was_calm, on_stats, on_history, on_resource,
  on_remove, handle_remove, handle_stats, handle_history, handle_resource, dispatch, on_message,
  max_events,
}

module _ (A : Arith) where
  pub record Frame : Type 0 where
    pub now : Readings A
    pub msg : OutboundMsg A

  unfoldable pub run : List Frame → Dashboard A
  run [] = initial A
  run (f ∷ older) = on_message A f.now f.msg (run older)

  -- What a message says, if anything.
  pub data Meaning : Type 0 where
    reports : StatSnapshot A → Meaning
    removes : String → Meaning
    loads : List (ConnHistory A) → Meaning
    measures : ResourceMsg A → Meaning
    says_nothing : Meaning

  abbrev removal : Option String → Meaning
  removal none = says_nothing
  removal (some key) = if str_eq key "" then says_nothing else removes key

  abbrev told : {T : Type 0} → (T → Meaning) → Option T → Meaning
  told f none = says_nothing
  told f (some t) = f t

  abbrev pub meaning_of : MsgType → OutboundMsg A → Meaning
  meaning_of MsgType.stats msg = told reports msg.stats
  meaning_of MsgType.remove msg = removal msg.remove_key
  meaning_of MsgType.history msg = told loads msg.history
  meaning_of MsgType.resource msg = told measures msg.resource
  meaning_of MsgType.event msg = says_nothing

  abbrev pub meaning : OutboundMsg A → Meaning
  meaning msg = meaning_of msg.msg_type msg

  abbrev pub act : Readings A → Meaning → Dashboard A → Dashboard A
  act now (reports snap) s = on_stats A now snap s
  act now (removes key) s = on_remove A key s
  act now (loads conns) s = on_history A conns s
  act now (measures r) s = on_resource A r s
  act now says_nothing s = s

  dispatch-act :
      (t : MsgType) (now : Readings A) (msg : OutboundMsg A) (s : Dashboard A)
      → dispatch A t now msg s ≡ act now (meaning_of t msg) s
  unfolding dispatch handle_stats handle_remove handle_history handle_resource
  dispatch-act MsgType.stats now msg s = ground arith
  dispatch-act _ now msg s = ground arith

  -- A message has the effect of its meaning.
  pub on_message-act :
      (f : Frame) (s : Dashboard A) → on_message A f.now f.msg s ≡ act f.now (meaning f.msg) s
  unfolding on_message
  on_message-act f s = dispatch-act f.msg.msg_type f.now f.msg s

  -- The latest report on a connection that no later message removed.
  abbrev latest_step : String → Meaning → Option (StatSnapshot A) → Option (StatSnapshot A)
  latest_step key (reports snap) before = if str_eq (snap_key A snap) key then some snap else before
  latest_step key (removes k) before = if str_eq k key then none else before
  latest_step key _ before = before

  unfoldable pub latest : String → List Frame → Option (StatSnapshot A)
  latest key [] = none
  latest key (f ∷ older) = latest_step key (meaning f.msg) (latest key older)

  act-snapshots :
      (now : Readings A) (m : Meaning) (s : Dashboard A) (key : String)
      → lookup key (act now m s).snapshots ≡ latest_step key m (lookup key s.snapshots)
  unfolding on_stats on_remove on_history on_resource
  act-snapshots now (reports snap) s key = lookup-insert (snap_key A snap) key snap s.snapshots
  act-snapshots now (removes k) s key = lookup-erase k key s.snapshots
  act-snapshots now _ s key = refl

  -- The dictionary of snapshots holds, for every key, the latest report that was not removed since.
  pub lookup-run : (key : String) (t : List Frame) → lookup key (run t).snapshots ≡ latest key t
  unfolding run latest lookup
  lookup-run key [] = refl
  lookup-run key (f ∷ older) = rw (on_message-act f (run older)) (
      act-snapshots f.now (meaning f.msg) (run older) key
      ∙ ap (latest_step key (meaning f.msg)) (lookup-run key older))

  -- A report of a spike, after one that was calm.
  abbrev pub is_rising : StatSnapshot A → Option (StatSnapshot A) → Bool
  is_rising snap none = false
  is_rising snap (some earlier) = not earlier.is_spike && snap.is_spike

  was_calm-is_rising :
      (snap : StatSnapshot A) (before : Option (StatSnapshot A))
      → (snap.is_spike && was_calm A before) ≡ is_rising snap before
  unfolding was_calm
  was_calm-is_rising snap none = ground arith
  was_calm-is_rising snap (some earlier) = ground arith

  -- The unbounded log: an event for each report of a spike whose connection was last reported calm.
  abbrev log_step :
      Readings A
      → Meaning
      → (String → Option (StatSnapshot A))
      → List (SpikeEvent A)
      → List (SpikeEvent A)
  log_step now (reports snap) before log =
      if is_rising snap (before (snap_key A snap))
      then make_event A now (snap_key A snap) snap ∷ log
      else log
  log_step now _ before log = log

  pub spikes : List Frame → List (SpikeEvent A)
  spikes [] = []
  spikes (f ∷ older) = log_step f.now (meaning f.msg) (λ k. latest k older) (spikes older)

  act-events :
      (now : Readings A) (m : Meaning) (s : Dashboard A)
      → (before : String → Option (StatSnapshot A)) (log : List (SpikeEvent A))
      → ((k : String) → lookup k s.snapshots ≡ before k)
      → s.events ≡ take max_events log
      → (act now m s).events ≡ take max_events (log_step now m before log)
  unfolding on_stats on_remove on_history on_resource
  act-events now (reports snap) s before log h e =
      elim (Bool-cases (is_rising snap (before (snap_key A snap)))) [
        | inl up ↦
            rw (h (snap_key A snap), was_calm-is_rising snap (before (snap_key A snap)), up, e)
              (take-cons-take max_events (make_event A now (snap_key A snap) snap) log)
        | inr flat ↦
            rw (h (snap_key A snap), was_calm-is_rising snap (before (snap_key A snap)), flat) e
      ]
  act-events now _ s before log h e = e

  -- The event log holds the newest hundred of the rising edges, newest first: the reports of a spike on a connection whose last
  -- report, not removed since, was calm.
  pub events-run : (t : List Frame) → (run t).events ≡ take max_events (spikes t)
  unfolding run spikes
  events-run [] = refl
  events-run (f ∷ older) = rw (on_message-act f (run older)) (
      act-events f.now (meaning f.msg) (run older) (λ k. latest k older) (spikes older)
        (λ k. lookup-run k older) (events-run older))
