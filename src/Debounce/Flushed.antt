-- ===== src/Debounce/Flushed.antt =====
-- What a flush announces and what it leaves.
use lias_dis.Prelude.{
  ℕ, String, ◌≡◌, refl, ap, ◌∙◌, inl, inr, ◌↔◌, true, not, [], ◌∷◌, Bool-cases, In,
}
use lias_dis.Prelude.Dict.{Dict, lookup, Distinct, keep, filter_option, lookup-keep}
use lias_dis.Debounce.{Debouncer, PendingChange, Event, event_of, is_ready, sift, events_of, flush}

sift-keep : (now : ℕ) (m : Dict PendingChange) → (sift now m).0 ≡ keep (λ p. not (is_ready now p)) m
unfolding sift keep
sift-keep now [] = refl
sift-keep now ((key, p) ∷ m) = elim (Bool-cases (is_ready now p)) [
  | inl y ↦ rw y (sift-keep now m)
  | inr n ↦ rw n (ap (◌∷◌ (key, p)) (sift-keep now m))
]

-- Some pending change that is ready by now has the event.
unfoldable pub AnnouncedAt : ℕ → Dict PendingChange → Event → Type 0
AnnouncedAt now m e =
    (key : String) × (p : PendingChange) × In (key, p) m
    × (is_ready now p ≡ true)
    × (event_of p ≡ e)

pub sift-AnnouncedAt :
    (now : ℕ) (m : Dict PendingChange) (e : Event)
    → In e (events_of (sift now m).1)
    → AnnouncedAt now m e
unfolding sift events_of AnnouncedAt
sift-AnnouncedAt now [] e i = absurd i
sift-AnnouncedAt now ((key, p) ∷ m) e i = elim (Bool-cases (is_ready now p)) [
  | inr n ↦
      let (k, q, j, r, x) = sift-AnnouncedAt now m e (rw (sift, n) at i) in (k, q, inr j, r, x)
  | inl y ↦ elim (let i' : In e (event_of p ∷ events_of (sift now m).1) = rw (sift, y) at i in i') [
    | inl x ↦ (key, p, inl refl, y, x)
    | inr h ↦ let (k, q, j, r, x) = sift-AnnouncedAt now m e h in (k, q, inr j, r, x)
  ]
]

AnnouncedAt-sift :
    (now : ℕ) (m : Dict PendingChange) (e : Event)
    → AnnouncedAt now m e
    → In e (events_of (sift now m).1)
unfolding sift events_of AnnouncedAt
AnnouncedAt-sift now [] e (k, q, j, r, x) = absurd j
AnnouncedAt-sift now ((key, p) ∷ m) e (k, q, inl j, r, x) =
    rw (ap (λ (t : String × PendingChange). is_ready now t.1) j ∙ r)
      (inl (ap (λ (t : String × PendingChange). event_of t.1) j ∙ x))
AnnouncedAt-sift now ((key, p) ∷ m) e (k, q, inr j, r, x) =
    let later = AnnouncedAt-sift now m e (k, q, j, r, x) in
    elim (Bool-cases (is_ready now p)) [ inl y ↦ rw y (inr later) | inr n ↦ rw n later ]

sift-again : (now : ℕ) (m : Dict PendingChange) → (sift now (sift now m).0).1 ≡ []
unfolding sift
sift-again now [] = refl
sift-again now ((key, p) ∷ m) = elim (Bool-cases (is_ready now p)) [
  | inl y ↦ rw y (sift-again now m)
  | inr n ↦ rw (n, sift, n) (sift-again now m)
]

-- A flush takes away just the pending changes that are ready by then, that is, that have the
-- confirmations required or are older than ten seconds. It announces the events of just those, and
-- a second flush at the same time announces nothing. The keys of the pending changes differ.
pub flush-exact :
    (now : ℕ) (d : Debouncer)
    → Distinct d.pending
    → ((key : String)
        → lookup key (flush now d).debouncer.pending
          ≡ filter_option (λ p. not (is_ready now p)) (lookup key d.pending))
      × ((e : Event) → In e (flush now d).events ↔ AnnouncedAt now d.pending e)
      × ((flush now (flush now d).debouncer).events ≡ [])
unfolding flush events_of
flush-exact now d v = (
  λ key. rw (sift-keep now d.pending) (lookup-keep _ key d.pending v),
  λ e. (sift-AnnouncedAt now d.pending e, AnnouncedAt-sift now d.pending e),
  ap events_of (sift-again now d.pending),
)
