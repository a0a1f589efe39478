-- ===== src/EventStream/Examples.antt =====
-- A run of the event stream, and its theorem at a concrete input.
use lias_dis.Prelude.{ℕ, String, Bool, ◌≡◌, refl, List, [], ◌∷◌, arith, select, str_eq}
use lias_dis.Broker.{Event, remember, send}
use lias_dis.EventStream.{new_stream, subscribe, broadcast, replay_events, is_stale_online}
use lias_dis.EventStream.Live.{broadcasts, is_due, subscribe-is_due}

abbrev online : String → Bool
online pdid = str_eq pdid "p1"

abbrev event : String → ℕ → Event
event pdid n = record {
  type = "device.online";
  device_id = pdid;
  pdid = pdid;
  payload = "";
  timestamp = n;
}

abbrev two : List Event
two = event "p1" 7 ∷ event "p2" 9 ∷ []

subscribe-test : (subscribe online "c" 5 (broadcasts two new_stream)).0.events ≡ event "p2" 9 ∷ []
unfolding subscribe broadcasts broadcast remember new_stream replay_events send is_stale_online
subscribe-test = refl

subscribe-is_due_example :
    (subscribe online "c" 5 (broadcasts two new_stream)).0.events
    ≡ select (is_due online 5) (broadcasts two new_stream).history
subscribe-is_due_example = subscribe-is_due online two "c" 5 (omega arith)
