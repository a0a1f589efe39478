-- ===== src/EventStream.antt =====
-- apps/discovery-service/internal/api/sse.go: the event streams of the discovery service. It has
-- the ring and the clients of the other broker, and in a replay leaves out the online events of
-- devices that are online. The inventory that it asks is a function from PDIDs.
pub mod Live
mod Examples
use lias_dis.Prelude.{
  ℕ, ◌+◌, ◌%◌, String, Bool, true, false, ◌&&◌, Option, none, some, List, [], ◌∷◌, ◌++◌, str_eq,
  ltb, length, if◌then◌else◌,
}
use lias_dis.Prelude.Dict.{Dict, lookup, insert, erase}
use lias_dis.Broker.{Event, Client, client_buffer, send, send_all, remember, new_client}

pub record Stream : Type 0 where
  pub clients : Dict Client
  pub history : List Event
  pub hist_head : ℕ
  -- `stopPing` is closed; `stopOnce` closes it at most once.
  pub stopped : Bool

pub new_stream : Stream
new_stream = record { clients = []; history = []; hist_head = 0; stopped = false }

pub stop : Stream → Stream
stop s = record s { stopped = true }

-- One tick of the ping loop, which has returned once the stream is stopped.
pub ping : ℕ → Stream → Stream
ping now s = if s.stopped then s else record s {
  clients =
      send_all (record { type = "ping"; device_id = ""; pdid = ""; payload = ""; timestamp = now })
        s.clients;
}

pub broadcast : Event → Stream → Stream
broadcast e s =
    let (hs, head) = remember e s.history s.hist_head in
    record s { clients = send_all e s.clients; history = hs; hist_head = head }

-- An event that a replay leaves out.
unfoldable pub is_stale_online : (String → Bool) → Event → Bool
is_stale_online online e = str_eq e.type "device.online" && online e.device_id

unfoldable pub replay_events : (String → Bool) → ℕ → List Event → Client → Client
replay_events online last_event_id [] c = c
replay_events online last_event_id (e ∷ es) c =
    let skipped = replay_events online last_event_id es c in
    let sent = replay_events online last_event_id es (send e c) in
    if ltb last_event_id e.timestamp
    then (if is_stale_online online e
        then skipped
        else if ltb (length c.events) client_buffer
        then sent
        else c)
    else skipped

pub subscribe : (String → Bool) → String → ℕ → Stream → Client × Stream
subscribe online client_id last_event_id s =
    let c =
      if ltb 0 last_event_id
      then replay_events online last_event_id s.history (new_client client_id)
      else new_client client_id in
    (c, record s { clients = insert client_id c s.clients })

pub unsubscribe : String → Stream → Stream
unsubscribe client_id s = elim (lookup client_id s.clients) [
  | none ↦ s
  | some c ↦ record s { clients = erase client_id s.clients }
]
