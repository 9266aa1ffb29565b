-- ===== src/Backup/Accounts.antt =====
-- The accounts and their usage in `importPanelBackup` of backend/src/services/backup.js, and the
-- import as a whole.
use zvpn.Base.{
  ℕ, ◌+◌, ◌-◌, Bool, true, false, not, ◌&&◌, ◌||◌, Option, none, some, List, [], ◌∷◌, ◌++◌, Text,
  codes, get, put, ◌===◌, map, if◌then◌else◌, is_empty,
}
use zvpn.Backup.{
  map, Value, null, bool, number, text, Row, at, or_if_null, or_if_falsy, is_truthy, show_value,
  number_of, is_uuid, Setting, Payload, Backup, Database, Outer,
}
use zvpn.Backup.Import.{
  ImportError, set_columns, check_backup, certificate_files, import_sections, import_admins,
}

-- The columns that both the UPDATE and the INSERT of an account write.
unfoldable pub account_columns : Row → Value → Row
account_columns u secret =
    (codes "secret_enc", secret)
    ∷ (codes "enabled", or_if_null (at (codes "enabled") u) (bool true))
    ∷ (codes "quota_blocked", or_if_null (at (codes "quota_blocked") u) (bool false))
    ∷ (codes "quota_reason", at (codes "quota_reason") u)
    ∷ (codes "expires_at", at (codes "expires_at") u)
    ∷ (codes "duration_days", at (codes "duration_days") u)
    ∷ (codes "first_connected_at", at (codes "first_connected_at") u)
    ∷ (
      codes "activation_status",
      or_if_falsy (at (codes "activation_status") u) (text (codes "activated")),
    )
    ∷ (
      codes "provisioning_status",
      or_if_falsy (at (codes "provisioning_status") u) (text (codes "active")),
    )
    ∷ (codes "daily_limit_bytes", at (codes "daily_limit_bytes") u)
    ∷ (codes "total_limit_bytes", at (codes "total_limit_bytes") u)
    ∷ (codes "unlimited_traffic", or_if_null (at (codes "unlimited_traffic") u) (bool false))
    ∷ (codes "max_devices", or_if_null (at (codes "max_devices") u) (number 1))
    ∷ (codes "usage_total", or_if_null (at (codes "usage_total") u) (number 0))
    ∷ (codes "upload_bytes", or_if_null (at (codes "upload_bytes") u) (number 0))
    ∷ (codes "download_bytes", or_if_null (at (codes "download_bytes") u) (number 0))
    ∷ (codes "last_seen_at", at (codes "last_seen_at") u)
    ∷ (codes "last_public_ip", at (codes "last_public_ip") u)
    ∷ (codes "last_virtual_ip", at (codes "last_virtual_ip") u)
    ∷ (codes "download_token", at (codes "download_token") u)
    ∷ (codes "download_token_expires_at", at (codes "download_token_expires_at") u)
    ∷ (
      codes "download_token_revoked",
      or_if_null (at (codes "download_token_revoked") u) (bool false),
    )
    ∷ (codes "note", at (codes "note") u)
    ∷ []

-- The INSERT. An id or a `created_at` that is null is the database's to make.
unfoldable pub new_columns : Row → Value → Row
unfolding account_columns
new_columns u secret =
    (codes "id", at (codes "id") u)
    ∷ (codes "username", at (codes "username") u)
    ∷ (codes "created_at", at (codes "created_at") u)
    ∷ account_columns u secret

-- `xray_legacy_usage_bytes`, computed where the backup has none; `none` where this is NaN.
unfoldable pub legacy_usage : Row → Option Value
unfolding number_of
legacy_usage u = elim (at (codes "xray_legacy_usage_bytes") u) [
  | bool b ↦ some (bool b)
  | number n ↦ some (number n)
  | text t ↦ some (text t)
  | null ↦ elim (number_of (or_if_falsy (at (codes "xray_usage_bytes") u) (number 0))) [
    | none ↦ none
    | some xray ↦ elim (number_of (or_if_falsy (at (codes "netlify_usage_bytes") u) (number 0))) [
      | none ↦ none
      | some netlify ↦
          elim (number_of (or_if_falsy (at (codes "xray_iran_usage_bytes") u) (number 0))) [
            | none ↦ none
            | some iran ↦ some (number (xray - netlify - iran))
          ]
    ]
  ]
]

abbrev pub invalid_uuid : Value → Bool
invalid_uuid (text t) = not (is_empty t) && not (is_uuid t)
invalid_uuid v = is_truthy v

-- The second UPDATE, of the columns for Xray; `none` where it throws.
unfoldable pub set_xray : Row → Row → Option Row
unfolding legacy_usage set_columns
set_xray u row = if invalid_uuid (at (codes "xray_uuid") u) then none else elim (legacy_usage u) [
  | none ↦ none
  | some legacy ↦ some (
      set_columns
        ((
          codes "xray_uuid",
          or_if_null (or_if_falsy (at (codes "xray_uuid") u) null) (at (codes "xray_uuid") row),
        )
          ∷ (codes "xray_usage_bytes", or_if_falsy (at (codes "xray_usage_bytes") u) (number 0))
          ∷ (
            codes "netlify_usage_bytes",
            or_if_falsy (at (codes "netlify_usage_bytes") u) (number 0),
          )
          ∷ (codes "xray_legacy_usage_bytes", legacy)
          ∷ (
            codes "ike_relay_usage_bytes",
            or_if_falsy (at (codes "ike_relay_usage_bytes") u) (number 0),
          )
          ∷ (
            codes "xray_iran_usage_bytes",
            or_if_falsy (at (codes "xray_iran_usage_bytes") u) (number 0),
          )
          ∷ [])
        row)
]

-- `encryptSecret` takes texts only.
abbrev pub encrypted : Outer → Value → Option Value
encrypted o (text t) = some (text (o.encrypt t))
encrypted o v = none

-- The secret that is stored: from the plain one, or the password, or as it is; `none` is a throw.
unfoldable pub secret_of : Outer → Row → Option Value
secret_of o u =
    if is_truthy (at (codes "secret_plain") u)
    then encrypted o (at (codes "secret_plain") u)
    else if is_truthy (at (codes "password") u)
    then encrypted o (at (codes "password") u)
    else some (at (codes "secret_enc") u)

pub data Mode : Type 0 where
  merge : Mode
  users_only : Mode
  full : Mode

abbrev pub is_users_only : Mode → Bool
is_users_only merge = false
is_users_only users_only = true
is_users_only full = false

-- The accounts, and how many were imported and skipped.
pub record Progress : Type 0 where
  pub users : List (Text × Row)
  pub imported : ℕ
  pub skipped : ℕ

-- The row that an account's statements leave, if the table takes it.
unfoldable pub store_user : Outer → Text → Row → Row → ℕ → Progress → Option Progress
unfolding set_xray
store_user o name u row added p = elim (set_xray u row) [
  | none ↦ none
  | some stored ↦
      if o.takes_user p.users stored
      then some (record p { users = put name stored p.users; imported = added + p.imported })
      else none
]

-- One account of the backup.
unfoldable pub import_user : Outer → Mode → Row → Progress → Option Progress
unfolding secret_of new_columns account_columns store_user
import_user o mode u p = elim (secret_of o u) [
  | none ↦ none
  | some secret ↦
      let name = show_value (at (codes "username") u) in
      if is_empty name || not (is_truthy secret)
      then some (record p { skipped = 1 + p.skipped })
      else elim (get name p.users) [
        | none ↦ store_user o name u (new_columns u secret) 1 p
        | some row ↦
            if is_users_only mode
            then some (record p { skipped = 1 + p.skipped })
            else store_user o name u (set_columns (account_columns u secret) row) 0 p
      ]
]

unfoldable pub import_users : Outer → Mode → List Row → Progress → Option Progress
unfolding import_user
import_users o mode [] p = some p
import_users o mode (u ∷ users) p = elim (import_user o mode u p) [
  | none ↦ none
  | some p' ↦ import_users o mode users p'
]

-- The key of a row of usage: its account and its day or hour.
abbrev pub usage_key : Text → Row → Text
usage_key period row =
    show_value (at (codes "user_id") row) ++ codes " " ++ show_value (at period row)

-- The INSERT ... ON CONFLICT of the usage, in order; `none` where the table refuses a row.
unfoldable pub import_usage :
    Outer → Text → List Row → List (Text × Row) → Option (List (Text × Row))
import_usage o period [] table = some table
import_usage o period (row ∷ rows) table =
    let stored : Row =
      (codes "user_id", at (codes "user_id") row)
      ∷ (period, at period row)
      ∷ (codes "bytes", or_if_null (at (codes "bytes") row) (number 0))
      ∷ (codes "ike_relay_bytes", or_if_null (at (codes "ike_relay_bytes") row) (number 0))
      ∷ (codes "xray_iran_bytes", or_if_null (at (codes "xray_iran_bytes") row) (number 0))
      ∷ [] in
    let next = import_usage o period rows (put (usage_key period row) stored table) in
    if o.takes_usage table stored then next else none

pub record Result : Type 0 where
  pub users : ℕ
  pub admins : ℕ
  pub has_settings : Bool
  pub skipped : ℕ

abbrev pub usage_rows : Option (List Row) → List Row
usage_rows none = []
usage_rows (some rows) = rows

-- The sections, where there are any and the mode is another than `users-only`.
abbrev pub sections_after : Mode → Payload → Database → List (Text × Setting) × Bool
sections_after mode b db = elim b.sections [
  | none ↦ (db.sections, false)
  | some sections ↦
      if is_users_only mode
      then (db.sections, false)
      else (import_sections sections db.sections, true)
]

-- The administrators, in the full mode only.
abbrev pub admins_after : Outer → Mode → Payload → Database → Option (List (Text × Row) × ℕ)
admins_after o full b db = elim b.admins [
  | none ↦ some (db.admins, 0)
  | some admins ↦ import_admins o admins db.admins 0
]
admins_after o merge b db = some (db.admins, 0)
admins_after o users_only b db = some (db.admins, 0)

-- The transaction: what it comes to, `none` where it is rolled back.
unfoldable pub import_tables :
    Outer → Mode → Payload → List Row → Database → Option (Result × Database)
unfolding import_users import_usage
import_tables o mode b users db = elim (admins_after o mode b db) [
  | none ↦ none
  | some (admins, admin_count) ↦
      elim (import_users o mode users (record { users = db.users; imported = 0; skipped = 0 })) [
        | none ↦ none
        | some p ↦
            elim (import_usage o (codes "usage_date") (usage_rows b.usage_daily) db.usage_daily) [
              | none ↦ none
              | some daily ↦
                  elim (import_usage o (codes "hour_ts") (usage_rows b.usage_hourly)
                    db.usage_hourly) [
                      | none ↦ none
                      | some hourly ↦
                          let (sections, has_settings) = sections_after mode b db in
                          some (
                            record {
                              users = p.imported;
                              admins = admin_count;
                              has_settings = has_settings;
                              skipped = p.skipped;
                            },
                            record {
                              sections = sections;
                              admins = admins;
                              users = p.users;
                              usage_daily = daily;
                              usage_hourly = hourly;
                            },
                          )
                    ]
            ]
      ]
]

-- A backup that is refused, one whose transaction fails after its files were written, or success.
pub data Imported : Type 0 where
  refused : ImportError → Imported
  rolled_back : List (Text × Text) → Imported
  imported : Result → List (Text × Text) → Database → Imported

-- The accounts whose provisioning a synchronisation ends.
abbrev pub awaits_sync : Value → Bool
awaits_sync v = elim v [ text t ↦ t === codes "provisioning" || t === codes "failed" | _ ↦ false ]

-- The row after the statement of `enqueueSync`, where it is run.
unfoldable pub sync_row : Bool → Row → Row
unfolding at
sync_row synced row =
    if synced && awaits_sync (at (codes "provisioning_status") row)
    then put (codes "provisioning_status") (text (codes "active"))
        (put (codes "provisioning_error") null row)
    else row

abbrev pub sync_users : Bool → List (Text × Row) → List (Text × Row)
sync_users synced = map λ e. (e.0, sync_row synced e.1)

-- `importPanelBackup`, when it returns. It queues a synchronisation and waits for a second one:
-- `queued` and `waited` are whether they succeed. Its failure is ignored.
unfoldable pub import_panel_backup : Outer → Mode → Bool → Bool → Backup → Database → Imported
unfolding check_backup certificate_files import_tables sync_row
import_panel_backup o mode queued waited b db = elim (check_backup o b) [
  | some e ↦ refused e
  | none ↦
      let files = certificate_files b.payload.certificates in
      elim (import_tables o mode b.payload (usage_rows b.payload.users) db) [
        | none ↦ rolled_back files
        | some (result, db') ↦
            imported result files
              (record db' { users = sync_users waited (sync_users queued db'.users) })
      ]
]
