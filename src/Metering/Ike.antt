-- ===== src/Metering/Ike.antt =====
-- The metering of IKE sessions: backend/src/services/ikeCounters.js and ikeUsage.js.
use zvpn.Base.{
  ℕ, ◌+◌, ◌*◌, ◌-◌, ◌/◌, Bool, true, false, ◌&&◌, ◌||◌, Option, none, some, List, [], ◌∷◌, Text,
  ◌===◌, is_empty, get, put, ltb, leb, if◌then◌else◌,
}
use zvpn.Accounts.{Account}
use zvpn.Metering.Tables.{
  Pair, Snapshot, Usage, Database, add_usage, record_daily_activity, track_traffic_exhaustion,
}

pub record Child : Type 0 where
  pub key : Text
  pub bytes_in : ℕ
  pub bytes_out : ℕ

-- A session of `parseSas`, as far as it is metered.
pub record IkeSession : Type 0 where
  pub ike_id : Text
  pub identity : Option Text
  pub established : ℕ
  pub bytes_in : ℕ
  pub bytes_out : ℕ
  pub children : List Child
  pub is_relay : Bool
  pub remote_host : Option Text
  pub virtual_ip : Option Text

pub record Delta : Type 0 where
  pub incoming : ℕ
  pub outgoing : ℕ
  pub total : ℕ
  pub children : Option (List (Text × Pair))

abbrev pub falsy : Option Text → Bool
falsy none = true
falsy (some t) = is_empty t

abbrev pub same_text : Option Text → Option Text → Bool
same_text none none = true
same_text (some s) (some t) = s === t
same_text none (some t) = false
same_text (some s) none = false

-- `same ? snapshot : null`
unfoldable pub previous_of : IkeSession → Option Snapshot → Text → Option Snapshot
previous_of session none user_id = none
previous_of session (some snapshot) user_id =
    if snapshot.user_id === user_id
      && (falsy snapshot.session_identity
          || falsy session.identity
          || same_text snapshot.session_identity session.identity)
    then some snapshot
    else none

unfoldable pub delta : ℕ → ℕ → ℕ
delta value last = if leb last value then value - last else value

-- A session that was there long before the first poll that sees it is not charged for its past.
unfoldable pub is_baseline : IkeSession → Option Snapshot → ℕ → Bool
is_baseline session none poll_ms = ltb ((poll_ms + 999) / 1000 * 2) session.established
is_baseline session (some snapshot) poll_ms = false

abbrev pub last_in : Option Snapshot → ℕ
last_in none = 0
last_in (some s) = s.last_bytes_in

abbrev pub last_out : Option Snapshot → ℕ
last_out none = 0
last_out (some s) = s.last_bytes_out

abbrev pub cursors : Option Snapshot → Option (List (Text × Pair))
cursors none = none
cursors (some s) = s.child_counters

abbrev pub pair_of : Option Pair → Pair
pair_of none = record { bytes_in = 0; bytes_out = 0 }
pair_of (some p) = p

unfoldable pub children_in : List (Text × Pair) → List Child → ℕ
unfolding delta
children_in counters [] = 0
children_in counters (c ∷ children) =
    delta c.bytes_in (pair_of (get c.key counters)).bytes_in + children_in counters children

unfoldable pub children_out : List (Text × Pair) → List Child → ℕ
unfolding delta
children_out counters [] = 0
children_out counters (c ∷ children) =
    delta c.bytes_out (pair_of (get c.key counters)).bytes_out + children_out counters children

unfoldable pub update_cursors : List (Text × Pair) → List Child → List (Text × Pair)
update_cursors counters [] = counters
update_cursors counters (c ∷ children) =
    update_cursors (put c.key (record { bytes_in = c.bytes_in; bytes_out = c.bytes_out }) counters)
      children

abbrev pub delta_of : ℕ → ℕ → Option (List (Text × Pair)) → Delta
delta_of incoming outgoing children = record {
  incoming = incoming;
  outgoing = outgoing;
  total = incoming + outgoing;
  children = children;
}

-- What the children of a session, the cursors kept for them and the counters of the SA give.
unfoldable pub sum_children : List Child → Option (List (Text × Pair)) → ℕ → ℕ → Delta
unfolding children_in children_out update_cursors
sum_children [] counters incoming outgoing = delta_of incoming outgoing none
sum_children (c ∷ children) none incoming outgoing =
    delta_of incoming outgoing (some (update_cursors [] (c ∷ children)))
sum_children (c ∷ children) (some counters) incoming outgoing =
    delta_of (children_in counters (c ∷ children)) (children_out counters (c ∷ children))
      (some (update_cursors counters (c ∷ children)))

unfoldable pub ike_counter_delta : IkeSession → Option Snapshot → Text → ℕ → Delta
unfolding previous_of is_baseline delta sum_children
ike_counter_delta session snapshot user_id poll_ms =
    let previous = previous_of session snapshot user_id in
    let baseline = is_baseline session snapshot poll_ms in
    sum_children session.children (cursors previous)
      (if baseline then 0 else delta session.bytes_in (last_in previous))
      (if baseline then 0 else delta session.bytes_out (last_out previous))

-- The update of `vpn_users` under `deltaTotal > 0`.
unfoldable pub charge_ike : ℕ → Delta → Bool → Account → Account
unfolding track_traffic_exhaustion
charge_ike now d is_relay a =
    if ltb 0 d.total
    then track_traffic_exhaustion now a (record a {
      usage_total = a.usage_total + d.total;
      download_bytes = a.download_bytes + d.outgoing;
      upload_bytes = a.upload_bytes + d.incoming;
      ike_relay_usage_bytes = a.ike_relay_usage_bytes + (if is_relay then d.total else 0);
    })
    else a

unfoldable pub usage_ike : Text → Text → Delta → Bool → List Usage → List Usage
unfolding add_usage
usage_ike user_id bucket d is_relay rows =
    if ltb 0 d.total
    then add_usage
        (record {
          user_id = user_id;
          bucket = bucket;
          bytes = d.total;
          ike_relay_bytes = if is_relay then d.total else 0;
          xray_iran_bytes = 0;
        })
        rows
    else rows

-- The last update of `recordIkeSession`.
unfoldable pub see_ike : ℕ → IkeSession → Account → Account
see_ike now session a = record a {
  last_seen_at = some now;
  last_public_ip = if falsy session.remote_host then none else session.remote_host;
  last_virtual_ip = if falsy session.virtual_ip then a.last_virtual_ip else session.virtual_ip;
}

unfoldable pub record_ike_session : ℕ → Text → IkeSession → Text → Text → ℕ → Database → Database
unfolding record_daily_activity ike_counter_delta charge_ike usage_ike see_ike
record_ike_session now id session today hour poll_ms db = elim (get id db.accounts) [
  | none ↦ db
  | some account ↦
      let d = ike_counter_delta session (get session.ike_id db.sa_snapshots) id poll_ms in
      record db {
        accounts =
            put id (see_ike now session (charge_ike now d session.is_relay account)) db.accounts;
        sa_snapshots =
            put session.ike_id
              (record {
                user_id = id;
                session_identity = if falsy session.identity then none else session.identity;
                last_bytes = session.bytes_in + session.bytes_out;
                last_bytes_in = session.bytes_in;
                last_bytes_out = session.bytes_out;
                child_counters = d.children;
                last_seen_at = now;
              })
              db.sa_snapshots;
        usage_daily = usage_ike id today d session.is_relay db.usage_daily;
        usage_hourly = usage_ike id hour d session.is_relay db.usage_hourly;
        user_activity_daily = record_daily_activity id today db.user_activity_daily;
      }
]
