-- ===== src/Lib.antt =====
-- LIAS and DIS are two services of a home network. The discovery service (DIS,
-- apps/discovery-service) merges what its providers see into an inventory of devices and announces
-- changes. The internet access service (LIAS, apps/lias) mirrors the inventory, lays tags, names
-- and policies over it, and decides per device whether it may reach the internet, by policies and
-- by schedules. This library models the parts that decide, as functions on explicit state: a method
-- that changes its receiver takes the state and returns the new one, and a mutex makes each method
-- one step.
--
-- The files, the code that they model, and how the two correspond:
--   Models, LocalDevice: shared/models/{policy,schedule,device}.go and `LocalDevice` of
--     apps/lias/internal/sync/cache.go. Structs are records, string enums are data types with a
--     case for the other strings.
--   Policy: apps/lias/internal/policy/engine.go. `EvaluateAction` is `evaluate_action`,
--     `GetEffectivePolicy` is `get_effective_policy`, and so on, with helpers for their loops.
--   Clock, Zone: what the code uses of Go's package time. The time zone database is a parameter.
--   Schedule: apps/lias/internal/schedule/parser.go, `Evaluate` and `NextStateChange`.
--   Schedule/Engine: apps/lias/internal/schedule/engine.go, the schedules with the cache of merged
--     bundles. It calls ScheduleConflict to merge and Schedule to evaluate; Policy calls it through
--     a function, its evaluator.
--   ScheduleConflict: apps/lias/internal/scheduleconflict/conflict.go, the projection of schedules
--     on the minutes of the week, the search for conflicts and the merge.
--   SyncCache: apps/lias/internal/sync/cache.go, the mirror of the inventory.
--   TagManager: apps/lias/internal/tags/manager.go.
--   DnsFilter: apps/lias/internal/dnsfilter/hooks.go.
--   Hostname: apps/discovery-service/internal/inventory/hostname.go.
--   Inventory: the indices of the same package's cache.go over a heap of devices, with `NormalizeMAC`
--     of pdid.go and `AddMAC` and `AddIP` of shared/models/device.go.
--   Aliases: apps/discovery-service/internal/storage/identity.go, the table of identity aliases.
--   HostnameOwners: the ownership of hostnames in
--     apps/discovery-service/internal/inventory/cache.go.
--   Broker: apps/lias/internal/api/broker.go, the events for the dashboard, and `Event` of
--     shared/models/event.go. EventStream: apps/discovery-service/internal/api/sse.go, its
--     counterpart in DIS.
--   Sessions: apps/lias/internal/api/session.go, the sessions of the dashboard in a browser.
--   Handlers: apps/lias/internal/api/handlers.go, the handlers that change policies, schedules, tags,
--     users and devices, over the state of all the engines above. Handlers/Users and Handlers/Rules
--     hold those of users and those of policies, schedules and tags; Handlers/Effective the status
--     that is shown, and Handlers/Auth the check of a request, by a token or by Sessions.
--   Firewall: apps/lias/internal/nftables/{builder,controller}.go, the sets that follow from the
--     decisions of Policy, their diff and commit, and the rules as a function on packets.
--   IdentityMigration: apps/lias/internal/storage/identity_migration.go and
--     apps/lias/internal/identitymigration/coordinator.go, over Policy and SyncCache.
--   Correlation: apps/discovery-service/internal/correlation/engine.go without the processing of an
--     observation. It announces devices by EventStream.
--   Evidence: apps/discovery-service/internal/identity/scorer.go, with the tiers of
--     apps/discovery-service/internal/inventory/pdid.go and the claim of an address of
--     apps/discovery-service/internal/correlation/ipclaim.go.
--   Debounce: apps/discovery-service/internal/correlation/debounce.go, the changes that wait for
--     confirmation. It compares names by Hostname.
--   Prelude: lists, texts, Boolean tests and maps. A Go map is a list of entries, and a call that
--     walks it walks the list. Go chooses an order anew for each walk: where the orders of two calls
--     matter, they are two lists for one map (Policy/Orders).
--   Samples and the modules called Examples: data, runs and the theorems at concrete inputs.
--
-- Instants and durations are natural numbers of nanoseconds. Go's `int` priorities are integers
-- without bounds, since they are only compared; the revision of the sync cache wraps at 2 ^ 64.
-- Text is taken as ASCII where the code changes case, trims blanks or counts bytes. The loop over the
-- suffixes of a hostname is recursion on fuel, with the length of the name for fuel, which is enough
-- since each round makes the name shorter; all other loops are structural.
--
-- Not modelled: the transport of HTTP and of server-sent events, SQL but for the migration of an
-- identity and the table of its aliases, the netlink library, the network providers and enrichers,
-- the embedded web page, configuration and metrics; merges and splits of devices, which also write
-- aliases; in the parts that are modelled, log lines, tickers and timers; the
-- processing of an observation, how aliases are made and hashed, and the rest of the store of
-- identities.
pub mod Prelude
pub mod Models
pub mod LocalDevice
mod Samples
pub mod Policy
pub mod Clock
pub mod ScheduleConflict
pub mod Zone
pub mod Schedule
pub mod SyncCache
pub mod Broker
pub mod EventStream
pub mod Sessions
pub mod Handlers
pub mod Firewall
pub mod Correlation
pub mod Evidence
pub mod Inventory
pub mod Aliases
pub mod IdentityMigration
pub mod Debounce
pub mod HostnameOwners
pub mod Hostname
pub mod TagManager
pub mod DnsFilter
