-- ===== src/Correlation/Examples.antt =====
-- A device that waits two seconds, and the theorem on it.
use lias_dis.Prelude.{
  arith, ◌+◌, ◌*◌, ◌≤◌, ◌≡◌, refl, inl, inr, some, List, [], ◌∷◌, str_eq, eq_iff, Bool-cases, sym,
  ap, ◌∙◌,
}
use lias_dis.Prelude.Dict.{lookup}
use lias_dis.Models.{Device}
use lias_dis.Samples.{blank}
use lias_dis.Correlation.{Engine, Marshal, new_engine, second, schedule_deferred_online}
use lias_dis.Correlation.Announced.{IsKeyed}
use lias_dis.Correlation.Deferred.{
  Call, flushed, marked, LateFlush, Served, schedule_deferred_online-Served,
}

abbrev plain : Marshal
plain d = ""

abbrev device : Device
device = record (blank "d") { pending_online_obs = "netlink" ∷ [] }

abbrev start : Engine
start = record new_engine { devices = ("d", device) ∷ [] }

abbrev calls : List Call
calls = flushed (6 * second) ∷ marked "d" ∷ flushed (8 * second) ∷ []

start-IsKeyed : IsKeyed start.devices
unfolding lookup
start-IsKeyed k d e = elim (Bool-cases (str_eq "d" k)) [
  | inl y ↦ ap (λ (z : Device). z.pdid) (sym (some-eq (rw (lookup, y) at e))) ∙ (eq_iff "d" k).0 y
  | inr n ↦ absurd (let q = rw (lookup, n) at e in cc)
]
  where
    some-eq : {a b : Device} → some a ≡ some b → a ≡ b
    some-eq q = cc

schedule_deferred_online-Served_example :
    Served plain "d" calls (schedule_deferred_online (5 * second) (2 * second) "d" start)
unfolding LateFlush
schedule_deferred_online-Served_example =
    schedule_deferred_online-Served plain (5 * second) (2 * second) "d" calls start refl
      start-IsKeyed (inr (inl in_time))
  where
    in_time : 5 * second + 2 * second ≤ 8 * second
    in_time = omega arith
