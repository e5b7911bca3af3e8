-- ===== src/Collector/Hub.antt =====
-- `Hub` of collector/hub/hub.go: the pages that are connected, and the channel in which broadcasts wait for them. A step stands for
-- what runs under the lock, or for one operation on the channel; the goroutines interleave as the steps do.
pub mod Written
pub mod Delivery
mod Tests
use micro_trace.Common.{
  ℕ, ◌+◌, ltb, ◌==◌, Bool, true, false, Option, none, some, or_else, List, [], ◌∷◌, ◌++◌, length,
  if◌then◌else◌,
}

-- The length of the channel
abbrev pub max_waiting : ℕ
max_waiting = 512

-- A web socket by its number: what was written to it, whether `clients` has it, whether its `Once` has run, and how
-- often `Close` was called.
pub record Client (Data : Type 0) : Type 0 where
  pub got : List Data
  pub registered : Bool
  pub once : Bool
  pub closes : ℕ

-- A map from the sockets is a function of their numbers.
pub record Hub (Data : Type 0) : Type 0 where
  pub clients : ℕ → Option (Client Data)
  -- a message that `Run` took from the channel and has not sent yet
  pub in_hand : Option Data
  -- the channel, the oldest first
  pub waiting : List Data

abbrev pub new_hub : {Data : Type 0} → Hub Data
new_hub = record { clients = λ id. none; in_hand = none; waiting = [] }

abbrev pub enqueue : {Data : Type 0} → Option Data → Hub Data → Hub Data
enqueue none h = h
enqueue (some text) h =
    if ltb (length h.waiting) max_waiting then record h { waiting = h.waiting ++ text ∷ [] } else h

-- A client in the loop of `Run`, whether the write to it fails.
abbrev pub write_to : {Data : Type 0} → Bool → Data → Client Data → Client Data
write_to fails text c =
    if c.registered
    then if fails
      then record c { registered = false; closes = c.closes + 1 }
      else record c { got = c.got ++ text ∷ [] }
    else c

abbrev pub on_client : {X : Type 0} → (X → X) → Option X → Option X
on_client f none = none
on_client f (some c) = some (f c)

abbrev pub list_of : {Data : Type 0} → Option Data → List Data
list_of none = []
list_of (some text) = text ∷ []

abbrev pub receive_of :
    {Data : Type 0} → Option Data → List Data → (ℕ → Option (Client Data)) → Hub Data
receive_of none (text ∷ rest) clients = record {
  clients = clients;
  in_hand = some text;
  waiting = rest;
}
receive_of in_hand waiting clients = record {
  clients = clients;
  in_hand = in_hand;
  waiting = waiting;
}

-- The head of the loop of `Run`: it takes the oldest from the channel, and waits where there is none.
unfoldable pub receive : {Data : Type 0} → Hub Data → Hub Data
receive h = receive_of h.in_hand h.waiting h.clients

abbrev pub deliver_of :
    {Data : Type 0} → (ℕ → Bool) → Option Data → List Data → (ℕ → Option (Client Data)) → Hub Data
deliver_of fails none waiting clients = record {
  clients = clients;
  in_hand = none;
  waiting = waiting;
}
deliver_of fails (some text) waiting clients = record {
  clients = λ id. on_client (write_to (fails id) text) (clients id);
  in_hand = none;
  waiting = waiting;
}

-- The body of the loop: the message goes to every client.
unfoldable pub deliver : {Data : Type 0} → (ℕ → Bool) → Hub Data → Hub Data
deliver fails h = deliver_of fails h.in_hand h.waiting h.clients

-- `close`, which the reader of the socket calls when it ends
abbrev pub close : {Data : Type 0} → Client Data → Client Data
close c = if c.once then c else record c { registered = false; once = true; closes = c.closes + 1 }

unfoldable pub on_read_error : {Data : Type 0} → ℕ → Hub Data → Hub Data
on_read_error id h = record h {
  clients = λ j. if id == j then on_client close (h.clients j) else h.clients j;
}

-- `marshal` is `json.Marshal` of a message, and `marshal_history` of the
-- message with the histories.
module _ {Msg History Data : Type 0} (marshal : Msg → Option Data)
    (marshal_history : List History → Option Data) where
  -- `Broadcast`
  unfoldable pub broadcast : Msg → Hub Data → Hub Data
  broadcast msg h = enqueue (marshal msg) h

  -- What `ServeWs` sends first, of the histories that `historyFn` gives, if it is set.
  abbrev pub first_data : Option (List History) → Option Data
  first_data none = none
  first_data (some []) = none
  first_data (some (x ∷ xs)) = marshal_history (x ∷ xs)

  -- `ServeWs`, up to where it lets go of the lock, where its write does not fail
  unfoldable pub serve_ws : ℕ → Option (List History) → Hub Data → Hub Data
  serve_ws id history h = record h {
    clients = λ j.
        if id == j
        then some (record {
          got = list_of (first_data history);
          registered = true;
          once = false;
          closes = 0;
        })
        else h.clients j;
  }

  pub data Step : Type 0 where
    broadcasts : Msg → Step
    receives : Step
    delivers : (ℕ → Bool) → Step
    serves : ℕ → Option (List History) → Step
    read_fails : ℕ → Step

  abbrev pub step : Step → Hub Data → Hub Data
  step (broadcasts msg) h = broadcast msg h
  step receives h = receive h
  step (delivers fails) h = deliver fails h
  step (serves id history) h = serve_ws id history h
  step (read_fails id) h = on_read_error id h

  -- The newest step first.
  unfoldable pub run_from : Hub Data → List Step → Hub Data
  run_from h [] = h
  run_from h (s ∷ older) = step s (run_from h older)
