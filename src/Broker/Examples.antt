-- ===== src/Broker/Examples.antt =====
-- Runs of the broker, and its theorems at concrete inputs.
use lias_dis.Prelude.{ℕ, zero, suc, ◌≤◌, ◌-◌, ◌≡◌, refl, List, [], ◌∷◌, arith, length, select}
use lias_dis.Broker.{Event, new_broker, subscribe, broadcast, remember, send, replay_events}
use lias_dis.Broker.History.{broadcasts, in_order, broadcasts-new_broker, drop}
use lias_dis.Broker.Replay.{is_after, subscribe-broadcasts}

abbrev event : ℕ → Event
event n = record {
  type = "device.online";
  device_id = "p1";
  pdid = "p1";
  payload = "";
  timestamp = n;
}

abbrev three : List Event
three = event 5 ∷ event 7 ∷ event 9 ∷ []

subscribe-test : (subscribe "c" 5 (broadcasts three new_broker)).0.events ≡ event 7 ∷ event 9 ∷ []
unfolding subscribe broadcasts broadcast remember new_broker replay_events send
subscribe-test = refl

abbrev many : ℕ → List Event
many zero = []
many (suc n) = event (suc n) ∷ many n

broadcasts-new_broker_example :
    in_order (broadcasts (many 103) new_broker).history (broadcasts (many 103) new_broker).hist_head
    ≡ drop (length (many 103) - 100) (many 103)
broadcasts-new_broker_example = broadcasts-new_broker (many 103)

subscribe-broadcasts_example :
    ((subscribe "c" 5 (broadcasts three new_broker)).0.events
      ≡ select (is_after 5) (broadcasts three new_broker).history)
    × (length three ≤ 100
        → (subscribe "c" 5 (broadcasts three new_broker)).0.events ≡ select (is_after 5) three)
subscribe-broadcasts_example = subscribe-broadcasts three "c" 5 (omega arith)
