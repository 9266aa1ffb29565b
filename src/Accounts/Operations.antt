-- ===== src/Accounts/Operations.antt =====
-- The operations on accounts of backend/src/services/users.js, and `activateOnFirstConnect` of
-- backend/src/worker.js. The columns for the secret, the tokens and the note are not represented.
-- What else an operation sets going is emitted as effects, in order.
use zvpn.Base.{
  ℕ, ◌+◌, ◌*◌, Bool, true, false, not, Option, none, some, List, [], ◌∷◌, ◌++◌, Text, ◌===◌, get,
  put, delete, ltb, keep, if◌then◌else◌,
}
use zvpn.Accounts.{Account, not_activated, activated}
use zvpn.Metering.Tables.{Database, track_traffic_exhaustion, reset_usage, without}
use zvpn.Metering.Xray.{day_ms}
use zvpn.Metering.Collect.{Probe, Collected, collect_xray_usage}

pub data Effect : Type 0 where
  queues_sync : Effect
  disconnects_user : Text → Effect

-- What a call comes to: a change and its effects, an id that no account has, or a throw. The
-- database is the one that it leaves.
pub data Answer : Type 0 where
  changes : Database → List Effect → Answer
  no_account : Database → Answer
  throws : Database → Answer

abbrev pub left_by : Answer → Database
left_by (changes db effects) = db
left_by (no_account db) = db
left_by (throws db) = db

-- The fields of the request: `none` where a key is absent, and `some none` where it is null.
pub record Patch : Type 0 where
  pub enabled : Option Bool
  pub expires_at : Option (Option ℕ)
  pub duration_days : Option (Option ℕ)
  pub daily_limit_bytes : Option (Option ℕ)
  pub total_limit_bytes : Option (Option ℕ)
  pub unlimited_traffic : Option Bool
  pub max_devices : Option ℕ
  pub resets_usage : Bool

-- `CASE WHEN present THEN value ELSE column END`
abbrev pub or_column {ℓ} : {A : Type ℓ} → Option A → A → A
or_column none column = column
or_column (some value) column = value

-- The UPDATE of `updateUser`; it sets limits, so the trigger runs.
unfoldable pub patch_account : ℕ → Patch → Account → Account
unfolding track_traffic_exhaustion
patch_account now p a = track_traffic_exhaustion now a (record a {
  enabled = or_column p.enabled a.enabled;
  expires_at = or_column p.expires_at a.expires_at;
  duration_days = or_column p.duration_days a.duration_days;
  daily_limit_bytes = or_column p.daily_limit_bytes a.daily_limit_bytes;
  total_limit_bytes = or_column p.total_limit_bytes a.total_limit_bytes;
  unlimited_traffic = or_column p.unlimited_traffic a.unlimited_traffic;
  max_devices = elim p.max_devices [ none ↦ a.max_devices | some n ↦ some n ];
  quota_blocked = if p.resets_usage then false else a.quota_blocked;
  quota_reason = if p.resets_usage then none else a.quota_reason;
})

abbrev pub set_account : Text → Account → Database → Database
set_account id a db = record db { accounts = put id a db.accounts }

abbrev pub disconnects_if : Option Bool → Text → List Effect
disconnects_if (some false) username = disconnects_user username ∷ []
disconnects_if _ username = []

-- ON DELETE CASCADE removes the rows of the account; its days of activity are kept.
unfoldable pub remove_account : Text → Database → Database
remove_account id db = record db {
  accounts = delete id db.accounts;
  sa_snapshots = keep (λ e. not (e.1.user_id === id)) db.sa_snapshots;
  xray_usage_snapshots = delete id db.xray_usage_snapshots;
  netlify_usage_snapshots = delete id db.netlify_usage_snapshots;
  xray_iran_usage_snapshots = delete id db.xray_iran_usage_snapshots;
  usage_daily = without id db.usage_daily;
  usage_hourly = without id db.usage_hourly;
}

-- `updateUser` from its SELECT on.
unfoldable pub update_found : ℕ → Text → Patch → Database → Answer
unfolding patch_account reset_usage
update_found now id p db = elim (get id db.accounts) [
  | none ↦ no_account db
  | some a ↦
      let patched = set_account id (patch_account now p a) db in
      changes (if p.resets_usage then reset_usage id patched else patched)
        (queues_sync ∷ disconnects_if p.enabled a.username)
]

-- `deleteUser` from its SELECT on.
unfoldable pub delete_found : Text → Database → Answer
unfolding remove_account
delete_found id db = elim (get id db.accounts) [
  | none ↦ no_account db
  | some a ↦ changes (remove_account id db) (disconnects_user a.username ∷ queues_sync ∷ [])
]

-- `await collectXrayUsage()`, and the rest if it does not throw.
abbrev pub collected : Collected → (Database → Answer) → Answer
collected c rest = if c.succeeds then rest c.database else throws c.database

module _ (today hour : Text) (probe : Probe) where
  unfoldable pub update_user : ℕ → Text → Patch → Database → Answer
  unfolding update_found collect_xray_usage
  update_user now id p db =
      if p.resets_usage
      then collected (collect_xray_usage now today hour probe db) (update_found now id p)
      else update_found now id p db

  unfoldable pub delete_user : ℕ → Text → Database → Answer
  unfolding delete_found collect_xray_usage
  delete_user now id db = collected (collect_xray_usage now today hour probe db) (delete_found id)

unfoldable pub extend_account : ℕ → ℕ → Account → Account
extend_account now days a =
    let base : ℕ = elim a.expires_at [ none ↦ now | some e ↦ if ltb now e then e else now ] in
    record a {
      expires_at = some (base + days * day_ms);
      activation_status = activated;
      quota_blocked = false;
      quota_reason = none;
    }

abbrev pub with_sync : Text → Account → Database → Answer
with_sync id a db = changes (set_account id a db) (queues_sync ∷ [])

unfoldable pub extend_user : ℕ → Text → ℕ → Database → Answer
unfolding extend_account
extend_user now id days db = elim (get id db.accounts) [
  | none ↦ no_account db
  | some a ↦ with_sync id (extend_account now days a) db
]

-- `(Number(u.total_limit_bytes) || 0) + addBytes`; the trigger runs.
unfoldable pub add_account_traffic : ℕ → ℕ → Account → Account
unfolding track_traffic_exhaustion
add_account_traffic now add_bytes a = track_traffic_exhaustion now a (record a {
  total_limit_bytes = some ((elim a.total_limit_bytes [ none ↦ 0 | some l ↦ l ]) + add_bytes);
  quota_blocked = false;
  quota_reason = none;
})

unfoldable pub add_traffic : ℕ → Text → ℕ → Database → Answer
unfolding add_account_traffic
add_traffic now id add_bytes db = elim (get id db.accounts) [
  | none ↦ no_account db
  | some a ↦ with_sync id (add_account_traffic now add_bytes a) db
]

-- The row is changed only if it has a duration.
unfoldable pub reset_activation : Text → Database → Answer
reset_activation id db = elim (get id db.accounts) [
  | none ↦ no_account db
  | some a ↦ elim a.duration_days [
    | none ↦ no_account db
    | some d ↦
        with_sync id
          (record a {
            first_connected_at = none;
            activation_status = not_activated;
            expires_at = none;
          })
          db
  ]
]

-- `recordSession` calls it for an account that is not activated.
unfoldable pub activate_on_first_connect : ℕ → Account → Account
activate_on_first_connect now a = elim a.first_connected_at [
  | some t ↦ a
  | none ↦ record a {
    first_connected_at = some now;
    activation_status = activated;
    expires_at = elim a.expires_at [
      | some e ↦ some e
      | none ↦ elim a.duration_days [ none ↦ none | some d ↦ some (now + d * day_ms) ]
    ];
  }
]

pub data BulkAction : Type 0 where
  enables : BulkAction
  disables : BulkAction
  deletes_users : BulkAction

abbrev pub only_enabled : Bool → Patch
only_enabled b = record {
  enabled = some b;
  expires_at = none;
  duration_days = none;
  daily_limit_bytes = none;
  total_limit_bytes = none;
  unlimited_traffic = none;
  max_devices = none;
  resets_usage = false;
}

pub record Bulk : Type 0 where
  pub count : ℕ
  pub database : Database
  pub effects : List Effect
  pub succeeds : Bool

module _ (today hour : Text) (probe : Probe) (now : ℕ) (action : BulkAction) where
  unfoldable pub bulk_user : Text → Database → Answer
  unfolding update_user delete_user
  bulk_user id db = elim action [
    | enables ↦ update_user today hour probe now id (only_enabled true) db
    | disables ↦ update_user today hour probe now id (only_enabled false) db
    | deletes_users ↦ delete_user today hour probe now id db
  ]

  -- The loop, from the count and the effects so far; a throw ends it.
  unfoldable pub bulk_users : Bulk → List Text → Bulk
  unfolding bulk_user
  bulk_users b [] = b
  bulk_users b (id ∷ ids) = elim (bulk_user id b.database) [
    | throws db ↦ record b { database = db; succeeds = false }
    | no_account db ↦ bulk_users (record b { database = db }) ids
    | changes db effects ↦
        bulk_users (record b { count = b.count + 1; database = db; effects = b.effects ++ effects })
          ids
  ]
