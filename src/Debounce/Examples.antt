-- ===== src/Debounce/Examples.antt =====
-- Runs of the debouncer, and its theorems at concrete inputs.
use lias_dis.Prelude.{String, ◌≡◌, ◌↔◌, refl, false, not, none, some, List, [], ◌∷◌, In}
use lias_dis.Prelude.Dict.{lookup, insert, filter_option}
use lias_dis.Prelude.Text.{concat}
use lias_dis.Debounce.{
  Debouncer, DeviceEventPayload, Event, PendingChange, new_debouncer, device_online, event_of,
  flush, fresh, is_ready, load_pending, submit, suppress, confirm, add_group, add_key, required,
  split_sources, add_keys,
}
use lias_dis.Debounce.Flushed.{AnnouncedAt, flush-exact}
use lias_dis.Debounce.Counted.{Call, Confirmed, run, submitted, run-new_debouncer-Confirmed}

abbrev payload : DeviceEventPayload
payload = record {
  pdid = "p1";
  mac = "";
  ip = "";
  hostname = "";
  canonical_hostname = "";
  old_mac = "";
  old_ip = "";
  old_host = "";
  old_canonical_hostname = "";
  confirmed_by = [];
  timestamp = 0;
}

abbrev waiting : Debouncer
waiting = record {
  has_store = false;
  pending = ("p1:device.online", fresh 5 "p1" device_online payload) ∷ [];
  recent_values = [];
  recent_val_time = [];
}

-- A change that a restart has loaded has no groups, and the next source of a group panics.
submit-load_pending-test :
    submit 9 "p1" device_online "netlink" "L2_netlink" payload (
      load_pending
        (record {
          pdid = "p1";
          event_type = device_online;
          payload = some payload;
          first_seen = 1;
          last_seen = 1;
          confirmations = 1;
          sources = "dhcp" ∷ [];
        }
          ∷ [])
        new_debouncer)
    ≡ none
unfolding submit load_pending suppress confirm add_group new_debouncer lookup required split_sources
    add_keys add_key concat insert
submit-load_pending-test = refl

flush-exact_example :
    ((key : String)
      → lookup key (flush 7 waiting).debouncer.pending
        ≡ filter_option (λ p. not (is_ready 7 p)) (lookup key waiting.pending))
    × ((e : Event) → In e (flush 7 waiting).events ↔ AnnouncedAt 7 waiting.pending e)
    × ((flush 7 (flush 7 waiting).debouncer).events ≡ [])
flush-exact_example = flush-exact 7 waiting (tt, tt)

abbrev calls : List Call
calls =
    submitted 1 "p1" device_online "netlink" "L2_netlink" payload
    ∷ submitted 2 "p1" device_online "dhcp" "L3_dhcp" payload
    ∷ []

run-new_debouncer-Confirmed_example :
    (d : Debouncer) × (run calls new_debouncer ≡ some d)
    × ((e : Event)
        → In e (flush 3 d).events
        → (key : String) × (p : PendingChange) × In (key, p) d.pending
          × (event_of p ≡ e)
          × Confirmed calls 3 p)
run-new_debouncer-Confirmed_example = run-new_debouncer-Confirmed calls 3
