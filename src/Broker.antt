-- ===== src/Broker.antt =====
-- apps/lias/internal/api/broker.go: the event streams of the dashboard's clients, with the last
-- hundred events in a ring; and `Event` of shared/models/event.go. The buffered channel of a client
-- is the list of the events that wait in it. Timestamps are nanoseconds since the Unix epoch, and a
-- `lastEventID` that is not positive is 0. The ticker of the ping loop and its stop channel are
-- left out: `ping` is one tick.
pub mod History
pub mod Replay
mod Examples
use lias_dis.Prelude.{
  ℕ, zero, suc, ◌+◌, ◌%◌, String, Bool, true, false, Option, none, some, List, [], ◌∷◌, ◌++◌,
  str_eq, ltb, length, if◌then◌else◌,
}
use lias_dis.Prelude.Dict.{Dict, lookup, insert, erase}

abbrev pub history_buffer_capacity : ℕ
history_buffer_capacity = 100

-- make(chan models.Event, 128)
abbrev pub client_buffer : ℕ
client_buffer = 128

pub record Event : Type 0 where
  pub type : String
  pub device_id : String
  pub pdid : String
  pub payload : String
  pub timestamp : ℕ

-- `NewEvent`, of a payload that is marshalled
pub new_event : ℕ → String → String → String → Event
new_event now type pdid payload = record {
  type = type;
  device_id = pdid;
  pdid = pdid;
  payload = payload;
  timestamp = now;
}

pub target_pdid : Event → String
target_pdid e = if str_eq e.pdid "" then e.device_id else e.pdid

pub record Client : Type 0 where
  pub id : String
  pub events : List Event

pub record Broker : Type 0 where
  pub clients : Dict Client
  pub history : List Event
  pub hist_head : ℕ
  -- The signal that waits in the channel that resets the backoff.
  pub reset_backoff : Bool

pub new_broker : Broker
new_broker = record { clients = []; history = []; hist_head = 0; reset_backoff = false }

-- select { case client.Events <- event: default: }
unfoldable pub send : Event → Client → Client
send e c =
    if ltb (length c.events) client_buffer then record c { events = c.events ++ e ∷ [] } else c

pub send_all : Event → Dict Client → Dict Client
send_all e [] = []
send_all e ((k, c) ∷ cs) = (k, send e c) ∷ send_all e cs

pub ping : ℕ → Broker → Broker
ping now b = record b {
  clients =
      send_all (record { type = "ping"; device_id = ""; pdid = ""; payload = ""; timestamp = now })
        b.clients;
}

-- b.history[i] = event
unfoldable pub set_at : ℕ → Event → List Event → List Event
set_at i e [] = []
set_at zero e (x ∷ xs) = e ∷ xs
set_at (suc i) e (x ∷ xs) = x ∷ set_at i e xs

-- The ring after an event, and its head.
unfoldable pub remember : Event → List Event → ℕ → List Event × ℕ
remember e hs head =
    if ltb (length hs) history_buffer_capacity
    then (hs ++ e ∷ [], head)
    else (set_at head e hs, (head + 1) % history_buffer_capacity)

pub broadcast : Event → Broker → Broker
broadcast e b =
    let (hs, head) = remember e b.history b.hist_head in
    record b { clients = send_all e b.clients; history = hs; hist_head = head }

-- The loop of `replayEventsLocked`, which stops when the client's buffer is full.
unfoldable pub replay_events : ℕ → List Event → Client → Client
replay_events last_event_id [] c = c
replay_events last_event_id (e ∷ es) c =
    let skipped = replay_events last_event_id es c in
    let sent = replay_events last_event_id es (send e c) in
    if ltb last_event_id e.timestamp
    then (if ltb (length c.events) client_buffer then sent else c)
    else skipped

abbrev pub new_client : String → Client
new_client id = record { id = id; events = [] }

-- The client that is subscribed, and the broker with it.
pub subscribe : String → ℕ → Broker → Client × Broker
subscribe client_id last_event_id b =
    let c =
      if ltb 0 last_event_id
      then replay_events last_event_id b.history (new_client client_id)
      else new_client client_id in
    (c, record b { clients = insert client_id c b.clients })

pub unsubscribe : String → Broker → Broker
unsubscribe client_id b = elim (lookup client_id b.clients) [
  | none ↦ b
  | some c ↦ record b { clients = erase client_id b.clients }
]

pub signal_sse_connected : Broker → Broker
signal_sse_connected b = record b { reset_backoff = true }

-- The payload of the event is marshalled from the target, by a function that is a parameter.
pub broadcast_effective_status_changed :
    (String → String → String) → ℕ → String → String → Option Broker → Option Broker
broadcast_effective_status_changed marshal now target_type target_id none = none
broadcast_effective_status_changed marshal now target_type target_id (some b) = some (
    broadcast (new_event now "effective.status_changed" target_id (marshal target_type target_id))
      b)
