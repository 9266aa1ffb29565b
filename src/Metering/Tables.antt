-- ===== src/Metering/Tables.antt =====
-- The tables that metering reads and writes, their upserts, the trigger on `vpn_users`, transactions
-- (`tx` of backend/src/db.js) and backend/src/services/dailyActivity.js and usageReset.js. A query is
-- a change of the tables.
use zvpn.Base.{
  ℕ, ◌+◌, Bool, false, not, ◌&&◌, Option, none, some, List, [], ◌∷◌, ◌++◌, Text, ◌===◌, get, put,
  ltb, leb, if◌then◌else◌, keep, any,
}
use zvpn.Accounts.{Account}

pub record Pair : Type 0 where
  pub bytes_in : ℕ
  pub bytes_out : ℕ

-- A row of `sa_snapshots`.
pub record Snapshot : Type 0 where
  pub user_id : Text
  pub session_identity : Option Text
  pub last_bytes : ℕ
  pub last_bytes_in : ℕ
  pub last_bytes_out : ℕ
  pub child_counters : Option (List (Text × Pair))
  pub last_seen_at : ℕ

-- A row of `usage_daily` or `usage_hourly`; `bucket` is the day or the hour.
pub record Usage : Type 0 where
  pub user_id : Text
  pub bucket : Text
  pub bytes : ℕ
  pub ike_relay_bytes : ℕ
  pub xray_iran_bytes : ℕ

-- A row of one of the three `*_usage_snapshots` tables of Xray.
pub record Cursor : Type 0 where
  pub epoch : Text
  pub uplink : ℕ
  pub downlink : ℕ

pub record Database : Type 0 where
  pub accounts : List (Text × Account)
  pub sa_snapshots : List (Text × Snapshot)
  pub xray_usage_snapshots : List (Text × Cursor)
  pub netlify_usage_snapshots : List (Text × Cursor)
  pub xray_iran_usage_snapshots : List (Text × Cursor)
  pub usage_daily : List Usage
  pub usage_hourly : List Usage
  pub user_activity_daily : List (Text × Text)

abbrev pub merge_usage : Usage → Usage → Usage
merge_usage v u = record v {
  bytes = v.bytes + u.bytes;
  ike_relay_bytes = v.ike_relay_bytes + u.ike_relay_bytes;
  xray_iran_bytes = v.xray_iran_bytes + u.xray_iran_bytes;
}

-- INSERT … ON CONFLICT(user_id, bucket) DO UPDATE, adding up.
unfoldable pub add_usage : Usage → List Usage → List Usage
add_usage u [] = u ∷ []
add_usage u (v ∷ rows) =
    if v.user_id === u.user_id && v.bucket === u.bucket
    then merge_usage v u ∷ rows
    else v ∷ add_usage u rows

-- INSERT … ON CONFLICT DO NOTHING
unfoldable pub record_daily_activity : Text → Text → List (Text × Text) → List (Text × Text)
record_daily_activity user_id date rows =
    if any (λ e. e.0 === date && e.1 === user_id) rows then rows else rows ++ (date, user_id) ∷ []

-- The trigger `vpn_users_traffic_exhaustion` (ops/migrations): the instant at which the traffic of
-- an account ran out is kept for as long as it is out.
unfoldable pub is_exhausted : Account → Bool
is_exhausted a =
    not a.unlimited_traffic
    && (elim a.total_limit_bytes [ none ↦ false | some t ↦ ltb 0 t && leb t a.usage_total ])

unfoldable pub track_traffic_exhaustion : ℕ → Account → Account → Account
unfolding is_exhausted
track_traffic_exhaustion now old new = record new {
  traffic_exhausted_at =
      if is_exhausted new
      then (if is_exhausted old then old.traffic_exhausted_at else some now)
      else none;
}

pub data Error : Type 0 where
  invalid_transport : Error
  xray_counter_regressed : Error

pub data Result {ℓ} (A : Type ℓ) : Type ℓ where
  ok : A → Result A
  err : Error → Result A

infixl 5 ◌>>=◌
abbrev pub ◌>>=◌ {ℓ κ} : {A : Type ℓ} {B : Type κ} → Result A → (A → Result B) → Result B
ok a >>= f = f a
err e >>= f = err e

-- A transaction: a body that throws is rolled back.
abbrev pub committed : Result Database → Database → Database
committed (ok db') db = db'
committed (err e) db = db

abbrev pub tx : (Database → Result Database) → Database → Database
tx body db = committed (body db) db

-- `usage_total` is 0, so the trigger clears `traffic_exhausted_at`.
unfoldable pub reset_account : Account → Account
unfolding track_traffic_exhaustion
reset_account a = track_traffic_exhaustion 0 a (record a {
  usage_total = 0;
  ike_relay_usage_bytes = 0;
  xray_usage_bytes = 0;
  xray_iran_usage_bytes = 0;
  netlify_usage_bytes = 0;
  xray_legacy_usage_bytes = 0;
  upload_bytes = 0;
  download_bytes = 0;
})

abbrev pub without : Text → List Usage → List Usage
without id = keep λ u. not (u.user_id === id)

unfoldable pub reset_usage : Text → Database → Database
unfolding reset_account
reset_usage id db = record db {
  accounts = elim (get id db.accounts) [
    | none ↦ db.accounts
    | some a ↦ put id (reset_account a) db.accounts
  ];
  usage_daily = without id db.usage_daily;
  usage_hourly = without id db.usage_hourly;
}
