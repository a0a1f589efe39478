-- ===== src/Broker/Replay.antt =====
-- What a client that reconnects is sent.
use lias_dis.Prelude.{
  ℕ, ◌+◌, ◌≤◌, ◌<◌, String, ◌≡◌, refl, sym, ap, ◌∙◌, inl, inr, Bool, true, List, [], ◌∷◌, ◌++◌,
  arith, ltb, ltb→lt, lt→ltb, length, length-append, append-nil, append_assoc, Bool-cases, select,
}
use lias_dis.Broker.{
  Event, Client, Broker, new_broker, send, replay_events, new_client, subscribe, remember,
  broadcast,
}
use lias_dis.Broker.History.{broadcasts, length-set_at}

-- The events after a time.
abbrev pub is_after : ℕ → Event → Bool
is_after t e = ltb t e.timestamp

pub send-room :
    (e : Event) (c : Client)
    → ltb (length c.events) 128 ≡ true
    → (send e c).events ≡ c.events ++ e ∷ []
unfolding send
send-room e c r = rw r refl

broadcast-room :
    (e : Event) (b : Broker)
    → ltb (length b.history) 100 ≡ true
    → (broadcast e b).history ≡ b.history ++ e ∷ []
unfolding broadcast remember
broadcast-room e b r = rw r refl

-- A replay that fits the buffer sends every event after the time, in the order of the ring.
replay_events-select :
    (t : ℕ) (es : List Event) (c : Client)
    → length c.events + length es ≤ 128
    → (replay_events t es c).events ≡ c.events ++ select (is_after t) es
unfolding replay_events select
replay_events-select t [] c h = sym (append-nil c.events)
replay_events-select t (e ∷ es) c h = elim (Bool-cases (ltb t e.timestamp)) [
  | inr n ↦ rw n (replay_events-select t es c (omega (arith, h)))
  | inl y ↦
      let room : ltb (length c.events) 128 ≡ true =
        lt→ltb (length c.events) 128 (omega (arith, h)) in
      rw (y, room)
        (replay_events-select t es (send e c) (sent-room room)
          ∙ ap (λ xs. xs ++ select (is_after t) es) (sent room)
          ∙ append_assoc c.events (e ∷ []) (select (is_after t) es))
]
  where
    sent : ltb (length c.events) 128 ≡ true → (send e c).events ≡ c.events ++ e ∷ []
    sent r = send-room e c r

    sent-room : ltb (length c.events) 128 ≡ true → length (send e c).events + length es ≤ 128
    sent-room r = omega (arith, ap length (sent r), length-append c.events (e ∷ []), h)

-- The ring never holds more than a hundred events.
pub remember-length :
    (e : Event) (hs : List Event) (head : ℕ) → length hs ≤ 100 → length (remember e hs head).0 ≤ 100
unfolding remember
remember-length e hs head h = elim (Bool-cases (ltb (length hs) 100)) [
  | inl y ↦ rw y (omega (arith, length-append hs (e ∷ []), ltb→lt (length hs) 100 y))
  | inr n ↦ rw n (omega (arith, length-set_at head e hs, h))
]

broadcasts-length :
    (es : List Event) (b : Broker) → length b.history ≤ 100 → length (broadcasts es b).history ≤ 100
unfolding broadcasts broadcast
broadcasts-length [] b h = h
broadcasts-length (e ∷ es) b h =
    broadcasts-length es (broadcast e b) (remember-length e b.history b.hist_head h)

broadcasts-short :
    (es : List Event) (b : Broker)
    → length b.history + length es ≤ 100
    → (broadcasts es b).history ≡ b.history ++ es
unfolding broadcasts broadcast remember
broadcasts-short [] b h = sym (append-nil b.history)
broadcasts-short (e ∷ es) b h =
    let room : ltb (length b.history) 100 ≡ true =
      lt→ltb (length b.history) 100 (omega (arith, h)) in
    let step : (broadcast e b).history ≡ b.history ++ e ∷ [] = broadcast-room e b room in
    broadcasts-short es (broadcast e b)
      (omega (arith, ap length step, length-append b.history (e ∷ []), h))
    ∙ ap (λ xs. xs ++ es) step
    ∙ append_assoc b.history (e ∷ []) es

-- A client that subscribes after any events is sent every event of the ring that is later than the
-- last it has seen, none of them dropped for want of room. When no more than a hundred events have
-- been broadcast, that is every later event, in the order they came.
pub subscribe-broadcasts :
    (es : List Event) (client_id : String) (last_event_id : ℕ)
    → 0 < last_event_id
    → ((subscribe client_id last_event_id (broadcasts es new_broker)).0.events
        ≡ select (is_after last_event_id) (broadcasts es new_broker).history)
      × (length es ≤ 100
          → (subscribe client_id last_event_id (broadcasts es new_broker)).0.events
            ≡ select (is_after last_event_id) es)
unfolding subscribe new_broker
subscribe-broadcasts es client_id t h =
    let fits = broadcasts-length es new_broker (omega arith) in
    let sent =
      replay_events-select t (broadcasts es new_broker).history (new_client client_id)
        (omega (arith, fits)) in
    rw (lt→ltb 0 t h) (
      sent,
      λ l. sent ∙ ap (select (is_after t)) (broadcasts-short es new_broker (omega (arith, l))),
    )
