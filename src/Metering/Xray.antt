-- ===== src/Metering/Xray.antt =====
-- The metering of Xray: backend/src/services/sharedUsage.js and `counterDelta` of xrayConfig.js.
use zvpn.Base.{
  ℕ, ◌+◌, ◌*◌, ◌-◌, Bool, true, false, Option, none, some, List, Text, ◌===◌, get, put, ltb,
  if◌then◌else◌,
}
use zvpn.Accounts.{Account, activated}
use zvpn.Metering.Tables.{
  Cursor, Usage, Database, invalid_transport, xray_counter_regressed, Result, ok, err, ◌>>=◌,
  add_usage, record_daily_activity, track_traffic_exhaustion,
}

-- `counterDelta`; the previous count is used in the same epoch only.
unfoldable pub counter_delta : ℕ → Option ℕ → Bool → Result ℕ
counter_delta current previous same_epoch =
    let last = if same_epoch then (elim previous [ none ↦ 0 | some p ↦ p ]) else 0 in
    if ltb current last then err xray_counter_regressed else ok (current - last)

pub data Transport : Type 0 where
  direct : Transport
  netlify : Transport
  iran : Transport
  other : Transport

pub record Counter : Type 0 where
  pub transport : Transport
  pub uplink : ℕ
  pub downlink : ℕ

unfoldable pub snapshots_of : Transport → Database → List (Text × Cursor)
snapshots_of iran db = db.xray_iran_usage_snapshots
snapshots_of netlify db = db.netlify_usage_snapshots
snapshots_of direct db = db.xray_usage_snapshots
snapshots_of other db = db.xray_usage_snapshots

unfoldable pub set_snapshots : Transport → List (Text × Cursor) → Database → Database
set_snapshots iran rows db = record db { xray_iran_usage_snapshots = rows }
set_snapshots netlify rows db = record db { netlify_usage_snapshots = rows }
set_snapshots direct rows db = record db { xray_usage_snapshots = rows }
set_snapshots other rows db = record db { xray_usage_snapshots = rows }

abbrev pub is_iran : Transport → Bool
is_iran iran = true
is_iran _ = false

abbrev pub is_netlify : Transport → Bool
is_netlify netlify = true
is_netlify _ = false

abbrev pub is_other : Transport → Bool
is_other other = true
is_other _ = false

abbrev pub day_ms : ℕ
day_ms = 86400000

-- The expiry that a first connection sets: only where none is set and the account has a duration.
unfoldable pub first_expiry : ℕ → Account → Option ℕ
first_expiry now a = elim a.first_connected_at [
  | some t ↦ a.expires_at
  | none ↦ elim a.duration_days [
    | none ↦ a.expires_at
    | some days ↦ elim a.expires_at [ none ↦ some (now + days * day_ms) | some e ↦ some e ]
  ]
]

unfoldable pub charge_xray : ℕ → Transport → ℕ → ℕ → Account → Account
unfolding first_expiry track_traffic_exhaustion
charge_xray now transport upload download a = track_traffic_exhaustion now a (record a {
  usage_total = a.usage_total + (upload + download);
  xray_usage_bytes = a.xray_usage_bytes + (upload + download);
  netlify_usage_bytes =
      a.netlify_usage_bytes + (if is_netlify transport then upload + download else 0);
  xray_iran_usage_bytes =
      a.xray_iran_usage_bytes + (if is_iran transport then upload + download else 0);
  upload_bytes = a.upload_bytes + upload;
  download_bytes = a.download_bytes + download;
  last_seen_at = some now;
  first_connected_at = elim a.first_connected_at [ none ↦ some now | some t ↦ some t ];
  activation_status = activated;
  expires_at = first_expiry now a;
})

abbrev pub usage_xray : Text → Text → Transport → ℕ → Usage
usage_xray id bucket transport total = record {
  user_id = id;
  bucket = bucket;
  bytes = total;
  ike_relay_bytes = 0;
  xray_iran_bytes = if is_iran transport then total else 0;
}

-- The updates under `total > 0n`.
unfoldable pub charge_counters :
    ℕ → Text → Account → Transport → ℕ → ℕ → Text → Text → Database → Database
unfolding charge_xray add_usage record_daily_activity
charge_counters now id user transport upload download today hour db =
    if ltb 0 (upload + download)
    then record db {
      accounts = put id (charge_xray now transport upload download user) db.accounts;
      usage_daily = add_usage (usage_xray id today transport (upload + download)) db.usage_daily;
      usage_hourly = add_usage (usage_xray id hour transport (upload + download)) db.usage_hourly;
      user_activity_daily = record_daily_activity id today db.user_activity_daily;
    }
    else db

abbrev pub same_epoch : Text → Option Cursor → Bool
same_epoch epoch none = false
same_epoch epoch (some c) = c.epoch === epoch

abbrev pub uplink_of : Option Cursor → Option ℕ
uplink_of none = none
uplink_of (some c) = some c.uplink

abbrev pub downlink_of : Option Cursor → Option ℕ
downlink_of none = none
downlink_of (some c) = some c.downlink

unfoldable pub record_xray_counters :
    ℕ → Text → Counter → Text → Text → Text → Database → Result Database
unfolding counter_delta charge_counters snapshots_of set_snapshots
record_xray_counters now id counter epoch today hour db =
    if is_other counter.transport then err invalid_transport else elim (get id db.accounts) [
      | none ↦ ok db
      | some user ↦ do
        let previous = get id (snapshots_of counter.transport db)
        let same = same_epoch epoch previous
        upload ← counter_delta counter.uplink (uplink_of previous) same
        download ← counter_delta counter.downlink (downlink_of previous) same
        let charged = charge_counters now id user counter.transport upload download today hour db
        let cursor : Cursor = record {
          epoch = epoch;
          uplink = counter.uplink;
          downlink = counter.downlink;
        }
        ok (
            set_snapshots counter.transport (put id cursor (snapshots_of counter.transport charged))
              charged)
    ]
