-- ===== src/Lib.antt =====
-- ZVPN: the core of the VPN panel's backend (backend/src), which meters the traffic of VPN accounts
-- over two protocols, blocks accounts at their limits, and ends sessions above the device limit.
--
-- The worker reads the SAs of strongSwan and the counters of Xray on every tick. Both are recorded
-- into one balance per account and into the daily and hourly rows (Metering); then the limits are
-- enforced on the accounts and their sessions divided (Accounts); then the sessions that may stay
-- go to the reconciler, which ends those above the device limit after a grace period (Reconcile).
--
-- Base: numbers, lists, texts and dictionaries. A text is its list of code points, a Map its
--   entries in insertion order.
-- Reconcile, from backend/src/services/sessionReconciler.js: Sessions has the two orders and the
--   selection, Reconcile itself the pass `reconcile` (the grouping, the loop over the known users,
--   the loop over the users of the snapshot). The awaited callbacks are emitted as calls, in order;
--   what `terminate` and `loadState` answer are arguments. The order of `localeCompare` is a
--   parameter, on which nothing is assumed. Select, Due, Groups and Users hold the lemmas on one
--   part of the pass each, Passes puts them together, and Once and Grace speak of runs of passes.
-- Metering, from ikeCounters.js, ikeUsage.js, sharedUsage.js, usageReset.js, dailyActivity.js
--   (backend/src/services), counterDelta of xrayConfig.js, tx of backend/src/db.js and the trigger
--   of ops/migrations/009_activity_and_account_lifecycle.sql: Tables has the rows and upserts, Ike
--   and Xray the recording of the two protocols. A query is a change of the tables, a transaction
--   whose body throws leaves them. Ledger has the balance; IkeLedger and XrayLedger show that it is
--   kept; IkeCharges, IkeRuns, XrayCases and XrayCharges say what is charged. Collect is
--   collectXrayUsage of xray.js, a transaction per counter until one throws; what the commands that
--   it runs answer is an argument.
-- Accounts, from utils/accountLifecycle.js, utils/format.js, worker.js (enforceQuotas), vpn.js (the
--   selection of syncSecrets) and xrayConfig.js (eligibleUser) under backend/src: Lifecycle and
--   Quota have the definitions, Settled and Enforcement the lemmas on the loop over the accounts,
--   Limits and Statuses what holds of a pass and of what the panel shows. Operations has updateUser,
--   extendUser, addTraffic, deleteUser, resetActivation and bulkUsers of services/users.js, with the
--   synchronisations and disconnections that they start as effects; Renewal says what they do to an
--   account. Recording has recordSession of worker.js, Balances shows that each operation keeps the
--   ledger, and Steps takes the operations and the recorders as the steps of a relation on databases.
--   Portal has the numbers of services/subscription.js and the status of services/userPortal.js.
-- Sync, from backend/src/services/syncQueue.js: the queue through which the other parts have the
--   accounts written to strongSwan and Xray, as a relation between states, a step for each place at
--   which the event loop can go on. Progress has its invariant and what is to come after a failure.
-- Endpoint, from backend/src/services/vpnEndpointManager.js: certMatchesEndpoint, the decisions of
--   validateEndpointChange, and applyEndpointChange, whose helper commands are emitted as calls and
--   answered by an argument; Rollback says what a change leaves, in success and in failure.
-- Auth, from backend/src/auth.js and the handlers of backend/src/server.js for login, logout and the
--   change of password (Handlers): the administrators' sessions as rows, the gate that every
--   request passes, and revocation. JSON web tokens, hashes, bcrypt and the database's `lower` are a
--   parameter, as are the random draws. Sessions and Revoked say what a revocation does to the
--   gate, Opened what a login opens, and Steps, Reached and Final take the operations as a
--   relation.
-- Tokens, from users.js (provisionUser, regenerateToken, revokeToken, resetUserPassword) and
--   `tokenUser` of server.js: the download links; Found says whose account a link opens, and
--   Links has the addresses of the links (getBaseUrl and links of users.js).
-- Worker, from backend/src/worker.js: the order of a tick over the parts above, as events, and the
--   sessions that a disconnection ends; Ticks says what a tick has done.
-- Settings, from settings.js, warpDefaults.js, netlifyConfig.js, ikeRelay.js and the policies of
--   ikeRelayConfig.js and xrayRelayConfig.js (backend/src/services): Defaults has the values, Settings
--   itself reading and updating, Merged what is read after an update, and Relay the application of
--   the IKE relay's policy by the helper. The schemas of zod are a parameter; whether the statement
--   of an update succeeds is an argument.
-- Relay, from ikeRelayConfig.js and xrayRelayConfig.js: the merge of a relay's fragment into the
--   Xray template of another panel. Rules, Routes and Merge have the lemmas on its parts, Again and
--   Outcome what it comes to; Fragments makes the fragments from the settings. A template is
--   represented by the fields that are read or written.
-- Core, from xrayConfig.js, xray.js (syncXray) and warp.js (prepareWarpPolicy): the configuration of
--   the core with its clients, its counters read back (Stats), and the replacement of the
--   configuration (Apply), whose outcome is in Applied and Settled. A failing call is an argument,
--   and what is done is logged in order.
-- Backup, from backend/src/services/backup.js: Backup itself is the export, Import the checks, the
--   sections and the administrators, Accounts the accounts, their usage and the import as a whole. A
--   row is the association list of its columns. The cipher, the digest, the schemas and the
--   constraints of the tables are a parameter, and whether the two synchronisations that an import
--   ends with succeed is an argument: they set the status of the accounts' provisioning. Cases,
--   Columns, Restored, Complete and Synced lead to RoundTrip and Exported.
-- Firefox, from ops/firefox/core.mjs: the locations of the catalogue, the quota and the check of a
--   login's callback; Tunnels is TunnelPool, its callbacks as steps. Catalog, Offered and Listed
--   are about the catalogue, Pooled, Drained and Reuse about the pool. The time that a timer runs is not represented: it may fire at
--   any step.
-- Tests: the theorems at concrete inputs.
--
-- Byte counts, instants (milliseconds) and ages are natural numbers, the non-negative integers
-- below 2^53 or the bigint values of the program; differences of instants that may be negative are
-- compared by adding on the other side. All recursion is on lists, so no fuel is needed. A bigint
-- column is read as a text, so a limit is truthy whenever it is set.
--
-- Not modelled: the other HTTP routes and the validation of their bodies by zod, the parsing of the
-- output of swanctl, the links and profiles, the schedule of the
-- backups and their upload, the service around the Firefox tunnels, the event log, the edge relay,
-- the frontend and the installation scripts.
pub mod Accounts
pub mod Backup
pub mod Base
pub mod Core
pub mod Endpoint
pub mod Firefox
pub mod Metering
pub mod Reconcile
pub mod Auth
pub mod Relay
pub mod Settings
pub mod Tokens
pub mod Worker
pub mod Sync
mod Tests
