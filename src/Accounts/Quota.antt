-- ===== src/Accounts/Quota.antt =====
-- The enforcement of limits: `enforceQuotas` of backend/src/worker.js up to the reconciler's pass,
-- `eligibleUser` of backend/src/services/xrayConfig.js and the selection of backend/src/vpn.js.
use zvpn.Base.{
  ℕ, ◌+◌, Bool, true, false, not, ◌&&◌, ◌||◌, Option, none, some, List, [], ◌∷◌, ◌++◌, Text, ◌===◌,
  put, ltb, leb, keep, if◌then◌else◌,
}
use zvpn.Accounts.{
  Account, QuotaReason, expired, daily_quota, total_quota, provisioning, active, failed,
}
use zvpn.Accounts.Lifecycle.{is_expired}
use zvpn.Metering.Tables.{Usage, Database}
use zvpn.Reconcile.{Outcome, ended}
use zvpn.Reconcile.Sessions.{Session, id_of}

-- A limit is truthy if it is set: the driver reads a bigint as a text, and '0' is a truthy text.
abbrev pub reaches : Option ℕ → ℕ → Bool
reaches none used = false
reaches (some limit) used = leb limit used

unfoldable pub block_reason : ℕ → ℕ → Account → Option QuotaReason
unfolding is_expired
block_reason now today_bytes a =
    if is_expired now a
    then some expired
    else if not a.unlimited_traffic && reaches a.daily_limit_bytes today_bytes
    then some daily_quota
    else if not a.unlimited_traffic && reaches a.total_limit_bytes a.usage_total
    then some total_quota
    else none

abbrev pub same_reason : QuotaReason → Option QuotaReason → Bool
same_reason expired (some expired) = true
same_reason daily_quota (some daily_quota) = true
same_reason total_quota (some total_quota) = true
same_reason _ _ = false

-- `shouldBlock !== u.quota_blocked || (reason && reason !== u.quota_reason)`
unfoldable pub needs_update : Option QuotaReason → Account → Bool
needs_update none a = a.quota_blocked
needs_update (some r) a = not a.quota_blocked || not (same_reason r a.quota_reason)

abbrev pub is_block : Option QuotaReason → Bool
is_block none = false
is_block (some r) = true

unfoldable pub set_quota : Option QuotaReason → Account → Account
set_quota reason a = record a { quota_blocked = is_block reason; quota_reason = reason }

unfoldable pub eligible_user : ℕ → Account → Bool
unfolding is_expired
eligible_user now a = a.enabled && not a.quota_blocked && not (is_expired now a)

-- The WHERE clause of `syncSecrets`; the three provisioning states are all that there are.
unfoldable pub has_secret : ℕ → Account → Bool
has_secret now a =
    a.enabled
    && (elim a.provisioning_status [ active ↦ true | provisioning ↦ true | failed ↦ true ])
    && (elim a.expires_at [ none ↦ true | some e ↦ ltb now e ])
    && not a.quota_blocked

-- `COALESCE(d.bytes,0)` of the day's row.
unfoldable pub today_bytes : Text → Text → List Usage → ℕ
today_bytes id today [] = 0
today_bytes id today (u ∷ rows) =
    if u.user_id === id && u.bucket === today then u.bytes else today_bytes id today rows

pub data Event : Type 0 where
  -- user id and reason
  quota_blocked : Text → QuotaReason → Event
  -- user id, ike id and reason; `none` is 'disabled'
  session_terminated : Text → Text → Option QuotaReason → Event

pub record Enforced : Type 0 where
  pub accounts : List (Text × Account)
  pub changed : Bool
  pub eligible_sessions : List Session
  pub device_limits : List (Text × ℕ)
  pub disconnects : List Text
  pub events : List Event

-- `sessions.filter((s) => s.remoteId === u.username)`
unfoldable pub sessions_of : Text → List Session → List Session
sessions_of username = keep λ s. elim s.remote_id [ none ↦ false | some r ↦ r === username ]

unfoldable pub disconnect_events :
    Text → (Text → Outcome) → Option QuotaReason → List Session → List Event
disconnect_events id terminate reason [] = []
disconnect_events id terminate reason (s ∷ mine) =
    let rest = disconnect_events id terminate reason mine in
    elim (terminate (id_of s)) [ ended ↦ session_terminated id (id_of s) reason ∷ rest | _ ↦ rest ]

abbrev pub ids_of : List Session → List Text
ids_of [] = []
ids_of (s ∷ sessions) = id_of s ∷ ids_of sessions

abbrev pub blocked_event : Text → Option QuotaReason → List Event
blocked_event id none = []
blocked_event id (some r) = quota_blocked id r ∷ []

module _ (now : ℕ) (terminate : Text → Outcome) (sessions : List Session) where
  -- The flags of the row, and the event of a new block.
  unfoldable pub update_quota : Enforced → Text → Account → Option QuotaReason → Enforced
  unfolding needs_update set_quota
  update_quota e id u reason =
      if needs_update reason u
      then record e {
        accounts = put id (set_quota reason u) e.accounts;
        changed = true;
        events = e.events ++ blocked_event id reason;
      }
      else e

  -- The sessions of the user: cut, or handed to the reconciler.
  unfoldable pub sort_sessions : Enforced → Text → Account → Option QuotaReason → Enforced
  unfolding sessions_of disconnect_events
  sort_sessions e id u reason =
      let mine = sessions_of u.username sessions in
      if not u.enabled || is_block reason
      then record e {
        disconnects = e.disconnects ++ ids_of mine;
        events = e.events ++ disconnect_events id terminate reason mine;
      }
      else record e {
        eligible_sessions = e.eligible_sessions ++ mine;
        device_limits =
            put u.username (elim u.max_devices [ none ↦ 1 | some n ↦ if ltb 0 n then n else 1 ])
              e.device_limits;
      }

  -- The body of the loop over the users.
  unfoldable pub enforce_user : Enforced → Text → ℕ → Account → Enforced
  unfolding block_reason update_quota sort_sessions
  enforce_user e id used_today u =
      let reason = block_reason now used_today u in
      sort_sessions (update_quota e id u reason) id u reason

  unfoldable pub enforce_users : Text → List Usage → Enforced → List (Text × Account) → Enforced
  unfolding enforce_user today_bytes
  enforce_users today usage e [] = e
  enforce_users today usage e ((id, u) ∷ users) =
      enforce_users today usage (enforce_user e id (today_bytes id today usage) u) users

  -- `enforceQuotas`; `now` is one instant, for the several that the code reads in a pass.
  unfoldable pub enforce_quotas : Text → Database → Enforced
  unfolding enforce_users
  enforce_quotas today db =
      enforce_users today db.usage_daily
        (record {
          accounts = db.accounts;
          changed = false;
          eligible_sessions = [];
          device_limits = [];
          disconnects = [];
          events = [];
        })
        db.accounts

-- `DELETE FROM sa_snapshots WHERE last_seen_at < now() - interval '10 minutes'`
unfoldable pub drop_old_snapshots : ℕ → Database → Database
drop_old_snapshots now db = record db {
  sa_snapshots = keep (λ e. leb now (e.1.last_seen_at + 600000)) db.sa_snapshots;
}
