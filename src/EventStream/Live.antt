-- ===== src/EventStream/Live.antt =====
-- What a client of the discovery service that reconnects is sent.
use lias_dis.Prelude.{
  ℕ, ◌+◌, ◌≤◌, ◌<◌, String, ◌≡◌, sym, ap, ◌∙◌, inl, inr, Bool, true, not, ◌&&◌, List, [], ◌∷◌, ◌++◌,
  append-nil, append_assoc, arith, ltb, lt→ltb, length, length-append, Bool-cases, select,
}
use lias_dis.Broker.{Event, Client, send, new_client}
use lias_dis.Broker.Replay.{send-room, remember-length}
use lias_dis.EventStream.{Stream, new_stream, broadcast, is_stale_online, replay_events, subscribe}

-- The events after a time, but for the online events of devices that are online.
unfoldable pub is_due : (String → Bool) → ℕ → Event → Bool
is_due online t e = ltb t e.timestamp && not (is_stale_online online e)

replay_events-select :
    (online : String → Bool) (t : ℕ) (es : List Event) (c : Client)
    → length c.events + length es ≤ 128
    → (replay_events online t es c).events ≡ c.events ++ select (is_due online t) es
unfolding replay_events select is_due
replay_events-select online t [] c h = sym (append-nil c.events)
replay_events-select online t (e ∷ es) c h =
    let skipped = replay_events-select online t es c (omega (arith, h)) in
    elim (Bool-cases (ltb t e.timestamp)) [
      | inr n ↦ rw n skipped
      | inl y ↦ elim (Bool-cases (is_stale_online online e)) [
        | inl z ↦ rw (y, z) skipped
        | inr z ↦
            let room : ltb (length c.events) 128 ≡ true =
              lt→ltb (length c.events) 128 (omega (arith, h)) in
            let sent = send-room e c room in
            rw (y, z, room)
              (replay_events-select online t es (send e c)
                  (omega (arith, ap length sent, length-append c.events (e ∷ []), h))
                ∙ ap (λ xs. xs ++ select (is_due online t) es) sent
                ∙ append_assoc c.events (e ∷ []) (select (is_due online t) es))
      ]
    ]

unfoldable pub broadcasts : List Event → Stream → Stream
broadcasts [] s = s
broadcasts (e ∷ es) s = broadcasts es (broadcast e s)

broadcasts-length :
    (es : List Event) (s : Stream) → length s.history ≤ 100 → length (broadcasts es s).history ≤ 100
unfolding broadcasts broadcast
broadcasts-length [] s h = h
broadcasts-length (e ∷ es) s h =
    broadcasts-length es (broadcast e s) (remember-length e s.history s.hist_head h)

-- A client that subscribes after any events is sent the events of the ring that are later than the
-- last it has seen, but for the online events of devices that are online, and none is dropped for
-- want of room.
pub subscribe-is_due :
    (online : String → Bool) (es : List Event) (client_id : String) (last_event_id : ℕ)
    → 0 < last_event_id
    → (subscribe online client_id last_event_id (broadcasts es new_stream)).0.events
      ≡ select (is_due online last_event_id) (broadcasts es new_stream).history
unfolding subscribe new_stream
subscribe-is_due online es client_id t h = rw (lt→ltb 0 t h) (
    replay_events-select online t (broadcasts es new_stream).history (new_client client_id)
      (omega (arith, broadcasts-length es new_stream (omega arith))))
