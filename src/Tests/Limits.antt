-- ===== src/Tests/Limits.antt =====
-- The limits of accounts (backend/src/worker.js and backend/src/utils) at concrete inputs.
use zvpn.Base.{
  ℕ, ◌≡◌, refl, true, false, not, ◌&&◌, Option, none, some, List, [], ◌∷◌, Text, codes, get,
  Distinct, ◌===◌, arith, ◌⊎◌, ◌↔◌,
}
use zvpn.Accounts.{Account, total_quota, activated, active}
use zvpn.Accounts.Lifecycle.{user_status, is_expired}
use zvpn.Accounts.Quota.{block_reason, eligible_user, is_block, today_bytes, ids_of, enforce_quotas}
use zvpn.Accounts.Settled.{sessions_where}
use zvpn.Accounts.Limits.{IsOut, enforce_quotas-accounts, enforce_quotas-sessions}
use zvpn.Accounts.Statuses.{names_limit, NonZero, user_status-block_reason, block_reason_zero}
use zvpn.Metering.Tables.{Database}
use zvpn.Reconcile.{Outcome, ended}
use zvpn.Reconcile.Sessions.{Session, nat}

-- An account without a date, and with a total limit or none, that used 30 bytes.
abbrev pub account : Text → Option ℕ → Option ℕ → Account
account username expires_at total_limit_bytes = record {
  username = username;
  enabled = true;
  quota_blocked = false;
  quota_reason = none;
  expires_at = expires_at;
  duration_days = none;
  first_connected_at = some 10;
  activation_status = activated;
  provisioning_status = active;
  daily_limit_bytes = none;
  total_limit_bytes = total_limit_bytes;
  unlimited_traffic = false;
  max_devices = some 1;
  usage_total = 30;
  upload_bytes = 12;
  download_bytes = 18;
  ike_relay_usage_bytes = 5;
  xray_usage_bytes = 10;
  xray_iran_usage_bytes = 4;
  netlify_usage_bytes = 1;
  xray_legacy_usage_bytes = 0;
  traffic_exhausted_at = none;
  last_seen_at = none;
  last_public_ip = none;
  last_virtual_ip = none;
}

abbrev pub bob : Account
bob = account (codes "bob") none (some 30)

abbrev eve : Account
eve = account (codes "eve") none none

abbrev pub db : Database
db = record {
  accounts = (codes "1", bob) ∷ (codes "2", eve) ∷ [];
  sa_snapshots = [];
  xray_usage_snapshots = [];
  netlify_usage_snapshots = [];
  xray_iran_usage_snapshots = [];
  usage_daily = [];
  usage_hourly = [];
  user_activity_daily = [];
}

abbrev session : Text → Text → Session
session id username = record { ike_id = some id; remote_id = some username; established = nat 5 }

abbrev sessions : List Session
sessions = session (codes "7") (codes "bob") ∷ session (codes "8") (codes "eve") ∷ []

abbrev all_end : Text → Outcome
all_end id = ended

two_ids : Distinct db.accounts
unfolding get ◌===◌
two_ids = (refl, (refl, tt))

pub bob_found : get (codes "1") db.accounts ≡ some bob
unfolding get ◌===◌
bob_found = refl

enforce_quotas-accounts_example :
    let used = today_bytes (codes "1") (codes "d") db.usage_daily in
    let r = enforce_quotas 100 all_end sessions (codes "d") db in
    (v : Account) × (get (codes "1") r.accounts ≡ some v)
    × ((v.quota_blocked ≡ true) ↔ IsOut 100 used bob)
    × ((v.quota_blocked ≡ false) ⊎ (v.quota_reason ≡ block_reason 100 used bob))
    × (eligible_user 100 v ≡ (bob.enabled && not v.quota_blocked))
enforce_quotas-accounts_example =
    enforce_quotas-accounts 100 all_end sessions (codes "d") db (codes "1") bob two_ids bob_found

enforce_quotas-sessions_example :
    let r = enforce_quotas 100 all_end sessions (codes "d") db in
    (r.eligible_sessions ≡ sessions_where (eligible_user 100) sessions r.accounts)
    × (r.disconnects ≡ ids_of (sessions_where (λ u. not (eligible_user 100 u)) sessions r.accounts))
enforce_quotas-sessions_example =
    enforce_quotas-sessions 100 all_end sessions (codes "d") db two_ids

nonzero : NonZero bob.total_limit_bytes
nonzero l e = ground arith

no_limit : NonZero bob.daily_limit_bytes
no_limit l e = ground arith

user_status_example : names_limit (user_status 100 0 bob) ≡ is_block (block_reason 100 0 bob)
user_status_example = user_status-block_reason 100 0 bob refl no_limit nonzero

abbrev zero : Account
zero = account (codes "zoe") none (some 0)

block_reason_zero_example :
    (block_reason 100 0 zero ≡ some total_quota) × (names_limit (user_status 100 0 zero) ≡ false)
unfolding is_expired
block_reason_zero_example = block_reason_zero 100 0 zero refl refl refl refl refl
