-- ===== src/Handlers/Examples.antt =====
-- Runs of the handlers, and their theorems at concrete inputs: a network with one device, one user,
-- one schedule and the policies of a new engine.
use lias_dis.Prelude.{String, ◌≡◌, refl, ◌⊎◌, inl, inr, true, false, none, some, List, [], ◌∷◌, In}
use lias_dis.Prelude.Dict.{lookup, erase}
use lias_dis.Prelude.Int.{pos}
use lias_dis.Models.{Action, Policy, PolicyType, Schedule, ScheduleMode}
use lias_dis.LocalDevice.{LocalDevice}
use lias_dis.Samples.{tagged, rule}
use lias_dis.Policy
use lias_dis.Policy.{upsert_policy, evaluate_action, get_policy}
use lias_dis.SyncCache.{Cache}
use lias_dis.Sessions.{Request, new_manager}
use lias_dis.Sessions.Grants.{Call, configured, posted, run}
use lias_dis.Prelude.{sym, subst, exists}
use lias_dis.Prelude.Text.{concat}
use lias_dis.Models.{has_tag}
use lias_dis.Zone.{utc}
use lias_dis.Schedule.{Locations}
use lias_dis.Policy.{is_candidate, infrastructure}
use lias_dis.SyncCache.{get}
use lias_dis.Sessions.{Sha256}
use lias_dis.Handlers.{
  State, Marshal, created, bad_request, conflict, extend, extend_device_access, extend_tag_access,
  pause_device_internet, unpause_device_internet, device_extension, device_extension_id,
  tag_extension, tag_extension_id, extension_policy, pause_policy, pause_id,
}
use lias_dis.Handlers.Access.{
  extend_device_access-evaluate_action, pause_device_internet-evaluate_action,
}
use lias_dis.Handlers.Undo.{Same, unpause-pause}
use lias_dis.Handlers.Users.{done}
use lias_dis.Handlers.Users.Assigned
use lias_dis.Handlers.Rules.{is_immutable_target, admit_policy}
use lias_dis.Handlers.Rules.Admitted
use lias_dis.Handlers.Auth.{Authorization, served, auth_middleware_with_sessions}
use lias_dis.Handlers.Auth.Guarded.{Bearer, InSession, auth_middleware-served}
use lias_dis.Handlers.Effective.{
  compute_device_effective_status, compute_tag_effective_status, last_match, is_active,
}
use lias_dis.Handlers.Effective.Agreement.{
  IsFair, OffersNothing, BlocksGlobally, compute_device_effective_status-IsFair,
  compute_device_effective_status-evaluate_action,
}
use lias_dis.Handlers.Effective.Extended.{extend_tag_access-Blocks}

abbrev marshal : Marshal
marshal kind target = target

abbrev device : LocalDevice
device = tagged "d" ("kids" ∷ [])

abbrev cache : Cache
cache = record {
  devices = ("d", device) ∷ [];
  sticky_tags = [];
  sticky_macs = [];
  overrides = [];
  user_assignments = [];
  revision = 1;
}

abbrev start : State
start = record {
  policies = record { policies = ("global_default", Policy.global_default) ∷ [] };
  schedules = record { schedules = []; merged_cache = []; reverse_idx = [] };
  cache = cache;
  tags = record {
    tags =
        record { id = "kids"; name = "Kids"; color = ""; precedence = pos 0; builtin = false } ∷ [];
  };
  users = ("u", record { id = "u"; name = "Ann" }) ∷ [];
  broker = none;
  triggered = false;
}

abbrev blocks : List String → Action
blocks ids = Action.block

-- The global policy is no policy of a device.
global_unlike : (q : Policy) → Policy.global_default ≡ q → is_candidate "d" q ≡ true → ⊥
global_unlike q e c = let f : false ≡ true = subst (λ x. is_candidate "d" x ≡ true) (sym e) c in cc

extend_device_access-evaluate_action_example :
    evaluate_action
      (extend_device_access marshal 7 true "d" (some (pos 30)) start).1.policies
      (some device)
      (some blocks)
    ≡ Action.allow
unfolding erase extend_device_access get lookup concat get_policy extend device_extension
    device_extension_id extension_policy exists infrastructure
extend_device_access-evaluate_action_example =
    extend_device_access-evaluate_action marshal 7 true (pos 30) device (some blocks) start refl
      (tt, tt) (λ q i c. elim i [ inl e ↦ absurd (global_unlike q e c) | inr n ↦ absurd n ]) refl

pause_device_internet-evaluate_action_example :
    evaluate_action
      (pause_device_internet marshal 7 "aa" "d" start).1.policies
      (some device)
      (some blocks)
    ≡ Action.block
unfolding erase pause_device_internet get lookup concat get_policy pause_policy pause_id exists
    infrastructure has_tag
pause_device_internet-evaluate_action_example =
    pause_device_internet-evaluate_action marshal 7 "aa" device blocks start refl (tt, tt)
      (λ q i c. elim i [ inl e ↦ absurd (global_unlike q e c) | inr n ↦ absurd n ]) refl refl refl

unpause-pause_example :
    Same
      (unpause_device_internet marshal 9 "d"
        (pause_device_internet marshal 7 "aa" "d" start).1).1.policies.policies
      start.policies.policies
    × Same
        (unpause_device_internet marshal 9 "d"
          (pause_device_internet marshal 7 "aa" "d" start).1).1.schedules.schedules
        start.schedules.schedules
unfolding get lookup concat get_policy pause_id exists infrastructure
unpause-pause_example = unpause-pause marshal 7 9 "aa" device "d" start refl refl refl refl

run-IsSound_example :
    Assigned.IsSound
      (Assigned.run (Assigned.assigned done "d" (some "u") ∷ Assigned.deleted done "u" ∷ []) start)
unfolding Assigned.is_known
run-IsSound_example =
    Assigned.run-IsSound (Assigned.assigned done "d" (some "u") ∷ Assigned.deleted done "u" ∷ [])
      start (refl, tt)

abbrev evening : Schedule
evening = record {
  id = "s";
  name = "Evening";
  mode = ScheduleMode.downtime;
  timezone = "UTC";
  rules =
      record {
        days = "mon" ∷ [];
        start_time = "20:00";
        end_time = "06:00";
        action = Action.block;
        start_date = "";
        end_date = "";
      }
      ∷ [];
}

abbrev zones : Locations
zones name = some utc

run-AllAdmitted_example :
    Admitted.AllAdmitted zones
      (Admitted.run zones (Admitted.created true "x" (some evening) ∷ []) start).schedules.schedules
unfolding lookup
run-AllAdmitted_example =
    Admitted.run-AllAdmitted zones (Admitted.created true "x" (some evening) ∷ []) start
      (λ id t e. let q : none ≡ some t = e in cc)

abbrev homework : Policy
homework = rule "p" PolicyType.tag "kids" Action.schedule

admit_policy-IsAttachable_example :
    ((is_immutable_target homework ≡ false)
      × Admitted.IsAttachable start.schedules homework
      × (get_policy (admit_policy true created homework start).1.policies "p" ≡ some homework)
      × ((admit_policy true created homework start).0 ≡ created))
    ⊎ (((admit_policy true created homework start).1 ≡ start)
        × (((admit_policy true created homework start).0 ≡ bad_request)
            ⊎ ((admit_policy true created homework start).0 ≡ conflict)))
admit_policy-IsAttachable_example = Admitted.admit_policy-IsAttachable true created homework start

abbrev secret : String
secret = "secret"

abbrev plain : Sha256
plain text = text

abbrev login : List Call
login = configured "secret" true ∷ posted 5 (some "id") (some "c") (some "secret") true ∷ []

abbrev request : Request
request = record { session_cookie = some "id"; csrf_cookie = some "c"; csrf_header = "c" }

abbrev no_header : Authorization
no_header = record { header = ""; parts = none }

auth_middleware-served_example :
    ((auth_middleware_with_sessions plain 9 secret no_header "POST" request
          (some (run plain login new_manager))).0
        ≡ served
      → (secret ≡ "") ⊎ (Bearer plain secret no_header ⊎ InSession plain login 9 "POST" request))
    × ((auth_middleware_with_sessions plain 9 secret no_header "POST" request none).0 ≡ served
        → (secret ≡ "") ⊎ Bearer plain secret no_header)
auth_middleware-served_example =
    auth_middleware-served plain login 9 secret no_header "POST" request

compute_device_effective_status-IsFair_example :
    IsFair (compute_device_effective_status 7 blocks start.policies (some device))
    × (In infrastructure device.device.tags
        → OffersNothing (compute_device_effective_status 7 blocks start.policies (some device)))
    × (BlocksGlobally start.policies
        → OffersNothing (compute_device_effective_status 7 blocks start.policies (some device)))
compute_device_effective_status-IsFair_example =
    compute_device_effective_status-IsFair 7 blocks start.policies device

compute_device_effective_status-evaluate_action_example :
    (compute_device_effective_status 7 blocks start.policies (some device)).action
    ≡ evaluate_action start.policies (some device) (some blocks)
unfolding lookup last_match is_active
compute_device_effective_status-evaluate_action_example =
    compute_device_effective_status-evaluate_action 7 blocks start.policies start.policies device
      (record { same_lookup = λ k. refl; forth = λ p i. i; back = λ p i. i }) (λ xs ys a b. refl)
      (λ p q i j c d e. elim i [ inl x ↦ absurd (global_unlike p x c) | inr n ↦ absurd n ]) refl
      refl refl refl

abbrev grounded : State
grounded = record start {
  policies = record {
    policies =
        ("global_default", Policy.global_default)
        ∷ ("b", rule "b" PolicyType.tag "kids" Action.block)
        ∷ [];
  };
}

extend_tag_access-Blocks_example :
    ((compute_tag_effective_status 8 blocks
        (extend_tag_access marshal 7 true "kids" (some (pos 30)) grounded).1.policies
        "kids").action
      ≡ Action.allow)
    × (evaluate_action
          (extend_tag_access marshal 7 true "kids" (some (pos 30)) grounded).1.policies
          (some device)
          (some blocks)
        ≡ Action.block)
unfolding erase extend_tag_access lookup concat get_policy extend tag_extension tag_extension_id
    extension_policy exists infrastructure has_tag
extend_tag_access-Blocks_example =
    extend_tag_access-Blocks marshal 7 8 true "kids" (pos 30) blocks device grounded refl
      ((refl, tt), (tt, tt)) refl refl
      (λ q i. elim i [
        | inl e ↦ subst (λ x. is_candidate "d" x ≡ false) e refl
        | inr (inl e) ↦ subst (λ x. is_candidate "d" x ≡ false) e refl
        | inr (inr n) ↦ absurd n
      ])
      ("kids", rule "b" PolicyType.tag "kids" Action.block, inl refl, inr (inl refl), refl)
