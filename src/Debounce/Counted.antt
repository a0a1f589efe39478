-- ===== src/Debounce/Counted.antt =====
-- What the events of a flush are confirmed by, after any calls.
use lias_dis.Prelude.{
  ℕ, ◌≤◌, ◌-◌, ◌*◌, ◌<◌, String, ◌≡◌, refl, subst, ◌⊎◌, inl, inr, true, Option, none, some, List,
  [], ◌∷◌, length, leb, leb→le, ltb→lt, Bool-cases, In,
}
use lias_dis.Debounce.{
  Debouncer, DeviceEventPayload, PendingChange, Event, new_debouncer, event_of, is_ready, required,
  count, submit, migrate_pdid, flush, second,
}
use lias_dis.Debounce.Flushed.{AnnouncedAt, sift-AnnouncedAt}
use lias_dis.Debounce.Sources.{
  NoTwice, IsCounted, AllCounted, AllCounted-In, AllCounted-sift, AllCounted-migrate,
  submit-AllCounted,
}

-- The calls of the correlation engine on a debouncer, at the times they come.
pub data Call : Type 0 where
  submitted : ℕ → String → String → String → String → DeviceEventPayload → Call
  migrated : String → String → Call
  flushed : ℕ → Call

unfoldable pub step : Call → Debouncer → Option Debouncer
step (submitted now pdid event_type source group payload) d =
    submit now pdid event_type source group payload d
step (migrated old new) d = some (migrate_pdid old new d)
step (flushed now) d = some (flush now d).debouncer

abbrev then_run : (Debouncer → Option Debouncer) → Option Debouncer → Option Debouncer
then_run f none = none
then_run f (some d) = f d

unfoldable pub run : List Call → Debouncer → Option Debouncer
run [] d = some d
run (c ∷ cs) d = then_run (run cs) (step c d)

-- The call submits a change that the source, or a source of the group, has seen.
pub NamesSource : Call → String → Type 0
NamesSource (submitted now pdid event_type source group payload) k = source ≡ k
NamesSource c k = ⊥

pub NamesGroup : Call → String → Type 0
NamesGroup (submitted now pdid event_type source group payload) k = group ≡ k
NamesGroup c k = ⊥

module _ (S G : String → Type 0) where
  step-AllCounted :
      (c : Call) (d : Debouncer)
      → ((k : String) → NamesSource c k → S k)
      → ((k : String) → NamesGroup c k → G k)
      → AllCounted S G d.pending
      → (d' : Debouncer) × (step c d ≡ some d') × AllCounted S G d'.pending
  unfolding step migrate_pdid flush NamesSource NamesGroup
  step-AllCounted (submitted now pdid event_type source group payload) d s g a =
      submit-AllCounted S G now pdid event_type source group payload d (s source refl)
        (g group refl) a
  step-AllCounted (migrated old new) d s g a =
      (migrate_pdid old new d, refl, AllCounted-migrate S G old new d.pending d.pending a a)
  step-AllCounted (flushed now) d s g a =
      ((flush now d).debouncer, refl, AllCounted-sift S G now d.pending a)

  run-AllCounted :
      (cs : List Call) (d : Debouncer)
      → ((c : Call) (k : String) → In c cs → NamesSource c k → S k)
      → ((c : Call) (k : String) → In c cs → NamesGroup c k → G k)
      → AllCounted S G d.pending
      → (d' : Debouncer) × (run cs d ≡ some d') × AllCounted S G d'.pending
  unfolding run
  run-AllCounted [] d s g a = (d, refl, a)
  run-AllCounted (c ∷ cs) d s g a =
      let (e, x, b) = step-AllCounted c d (λ k. s c k (inl refl)) (λ k. g c k (inl refl)) a in
      let (d', y, v) = run-AllCounted cs e (λ x k i. s x k (inr i)) (λ x k i. g x k (inr i)) b in
      (d', rw (x, run) y, v)

-- Why an event is announced: of the groups of sources that calls have named for it, or of the
-- sources where none has a group, all different, there are as many as its type requires, or the
-- change is older than ten seconds.
pub Confirmed : List Call → ℕ → PendingChange → Type 0
Confirmed cs now p =
    ((ks : List String) × NoTwice ks
      × (required p.event_type ≤ length ks)
      × (((p.source_groups ≡ some ks)
            × ((k : String) → In k ks → (c : Call) × In c cs × NamesGroup c k))
          ⊎ ((p.source_groups ≡ some [])
              × (p.sources ≡ ks)
              × ((k : String) → In k ks → (c : Call) × In c cs × NamesSource c k))))
    ⊎ (10 * second < now - p.first_seen)

-- Some call names the source, or the group.
abbrev Source : List Call → String → Type 0
Source cs k = (c : Call) × In c cs × NamesSource c k

abbrev Group : List Call → String → Type 0
Group cs k = (c : Call) × In c cs × NamesGroup c k

is_ready-Confirmed :
    (cs : List Call) (now : ℕ) (p : PendingChange)
    → IsCounted (Source cs) (Group cs) p
    → is_ready now p ≡ true
    → Confirmed cs now p
unfolding is_ready Confirmed
is_ready-Confirmed cs now p v h = elim (Bool-cases (leb p.required_confirmations p.confirmations)) [
  | inr n ↦ inr (ltb→lt (10 * second) (now - p.first_seen) (rw (n, is_ready) at h))
  | inl y ↦
      let enough : required p.event_type ≤ count (some v.groups) p.sources =
        subst (λ k. k ≤ count (some v.groups) p.sources) v.right_required
          (subst (λ k. p.required_confirmations ≤ k) v.right_count
            (leb→le p.required_confirmations p.confirmations y)) in
      inl (counted_by v.groups v.has_groups v.different.0 v.seen_in enough)
]
  where
    counted_by :
        (gs : List String)
        → p.source_groups ≡ some gs
        → NoTwice gs
        → ((k : String) → In k gs → Group cs k)
        → required p.event_type ≤ count (some gs) p.sources
        → (ks : List String) × NoTwice ks
          × (required p.event_type ≤ length ks)
          × (((p.source_groups ≡ some ks) × ((k : String) → In k ks → Group cs k))
              ⊎ ((p.source_groups ≡ some [])
                  × (p.sources ≡ ks)
                  × ((k : String) → In k ks → Source cs k)))
    counted_by [] e n w x = (p.sources, v.different.1, x, inr (e, refl, v.seen_by))
    counted_by (g ∷ gs) e n w x = (g ∷ gs, n, x, inl (e, w))

-- From a new debouncer no calls that submit, migrate and flush panic. Each event that a flush
-- announces after them is that of a change which was pending and has as many different sources,
-- or groups of sources where it has any group, as its type requires, or which is older than ten
-- seconds. Each of these sources, or groups, was named by one of the calls that submit.
pub run-new_debouncer-Confirmed :
    (cs : List Call) (now : ℕ)
    → (d : Debouncer) × (run cs new_debouncer ≡ some d)
      × ((e : Event)
          → In e (flush now d).events
          → (key : String) × (p : PendingChange) × In (key, p) d.pending
            × (event_of p ≡ e)
            × Confirmed cs now p)
unfolding flush AnnouncedAt new_debouncer
run-new_debouncer-Confirmed cs now =
    let (d, x, a) =
      run-AllCounted (Source cs) (Group cs) cs new_debouncer (λ c k i n. (c, i, n))
        (λ c k i n. (c, i, n)) tt in
    (
      d,
      x,
      λ e i.
          let (key, p, j, r, y) = sift-AnnouncedAt now d.pending e i in
          (
            key,
            p,
            j,
            y,
            is_ready-Confirmed cs now p (AllCounted-In (Source cs) (Group cs) key p d.pending a j)
                r,
          ),
    )
