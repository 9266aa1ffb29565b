-- ===== src/Tests/Usage.antt =====
-- The ledger of usage (backend/src/services) at concrete inputs.
use zvpn.Base.{
  ◌≢◌, subst, ℕ, ◌+◌, ◌≡◌, refl, true, false, none, some, List, [], ◌∷◌, Text, codes, get, put,
  ◌===◌, arith, inl, inr, Bool-cases, ===_iff,
}
use zvpn.Accounts.{Account, activated, active}
use zvpn.Metering.Tables.{Database, Usage, Pair}
use zvpn.Metering.Ike.{see_ike, record_ike_session, update_cursors, IkeSession, Child}
use zvpn.Metering.Xray.{snapshots_of, direct}
use zvpn.Metering.Ledger.{IsConsistent, IsEntered, summed}
use zvpn.Metering.XrayCharges.{Meter, Reading, record_all, last_up, last_down, record_all-total}
use zvpn.Metering.IkeCharges.{record_ike_session_again}
use zvpn.Metering.IkeRuns.{
  IkeMeter, IkePoll, Follows, Continues, record_sessions, final_cursors, weight,
  record_sessions-total,
}

-- An account that used 30 bytes, 10 of them over Xray.
abbrev account : Account
account = record {
  username = codes "bob";
  enabled = true;
  quota_blocked = false;
  quota_reason = none;
  expires_at = some 5000;
  duration_days = none;
  first_connected_at = some 10;
  activation_status = activated;
  provisioning_status = active;
  daily_limit_bytes = none;
  total_limit_bytes = some 1000;
  unlimited_traffic = false;
  max_devices = some 1;
  usage_total = 30;
  upload_bytes = 12;
  download_bytes = 18;
  ike_relay_usage_bytes = 5;
  xray_usage_bytes = 10;
  xray_iran_usage_bytes = 4;
  netlify_usage_bytes = 1;
  xray_legacy_usage_bytes = 0;
  traffic_exhausted_at = none;
  last_seen_at = none;
  last_public_ip = none;
  last_virtual_ip = none;
}

abbrev one : Text
one = codes "1"

abbrev today : Text
today = codes "d"

abbrev hour : Text
hour = codes "h"

abbrev usage : Text → Usage
usage bucket = record {
  user_id = one;
  bucket = bucket;
  bytes = 30;
  ike_relay_bytes = 5;
  xray_iran_bytes = 4;
}

abbrev cursors_of : Text → List (Text × Pair)
cursors_of key = (key, record { bytes_in = 3; bytes_out = 4 }) ∷ []

abbrev pub db : Database
db = record {
  accounts = (one, account) ∷ [];
  sa_snapshots =
      (
        codes "7",
        record {
          user_id = one;
          session_identity = some (codes "7:100");
          last_bytes = 7;
          last_bytes_in = 3;
          last_bytes_out = 4;
          child_counters = some (cursors_of (codes "a"));
          last_seen_at = 50;
        },
      )
      ∷ [];
  xray_usage_snapshots = (one, record { epoch = codes "e"; uplink = 2; downlink = 3 }) ∷ [];
  netlify_usage_snapshots = [];
  xray_iran_usage_snapshots = [];
  usage_daily = usage today ∷ [];
  usage_hourly = usage hour ∷ [];
  user_activity_daily = [];
}

abbrev child : Text → ℕ → Child
child key bytes = record { key = key; bytes_in = bytes; bytes_out = 10 }

abbrev sa : List Child → IkeSession
sa children = record {
  ike_id = codes "7";
  identity = some (codes "7:100");
  established = 100;
  bytes_in = 20;
  bytes_out = 20;
  children = children;
  is_relay = true;
  remote_host = none;
  virtual_ip = none;
}

abbrev two_children : IkeSession
two_children = sa (child (codes "a") 9 ∷ child (codes "b") 2 ∷ [])

db-IsEntered : IsEntered one account db.usage_daily db.usage_hourly
unfolding summed ◌===◌
db-IsEntered = record {
  balanced = record { split = refl; transports = ground arith; routes = ground arith };
  daily = record { all = refl; relay = refl; iran = refl };
  hourly = record { all = refl; relay = refl; iran = refl };
}

pub db-IsConsistent : IsConsistent db
unfolding get
db-IsConsistent id a found = elim (Bool-cases (one === id)) [
  | inl same ↦
      let i : one ≡ id = (===_iff one id).0 same in
      let e : account ≡ a = ground arith in
      subst (λ j. IsEntered j a db.usage_daily db.usage_hourly) i
        (subst (λ b. IsEntered one b db.usage_daily db.usage_hourly) e db-IsEntered)
  | inr other ↦ absurd (ground arith)
]

meter : Meter one direct (codes "e") 30 2 3 db
unfolding get ◌===◌ snapshots_of
meter = record { account = account; found = refl; balance = refl; at = refl }

abbrev readings : List Reading
readings =
    record { now = 60; today = today; hour = hour; uplink = 5; downlink = 3 }
    ∷ record { now = 70; today = today; hour = hour; uplink = 9; downlink = 30 }
    ∷ []

record_all_example :
    (final : ℕ) × Meter one direct
      (codes "e")
      final
      (last_up one direct (codes "e") 2 readings)
      (last_down one direct (codes "e") 3 readings)
      (record_all one direct (codes "e") readings db)
    × (final + 2 + 3
        ≡ 30
          + last_up one direct (codes "e") 2 readings
          + last_down one direct (codes "e") 3 readings)
record_all_example =
    record_all-total one direct (codes "e") readings db 30 2 3 refl meter
      (ground arith, ground arith, (ground arith, ground arith, tt))

apart : (codes "a" ≢ codes "b")
apart e = ground arith

bob_found : get one db.accounts ≡ some account
unfolding get ◌===◌
bob_found = refl

-- The first recording.
abbrev once : Database
once = record_ike_session 60 one two_children today hour 1000 db

-- The second, an hour later, on the next day.
abbrev twice : Database
twice = record_ike_session 3600060 one two_children (codes "d2") (codes "h2") 1000 once

record_ike_session_again_example :
    (b : Account) × (get one once.accounts ≡ some b)
    × (get one twice.accounts ≡ some (see_ike 3600060 two_children b))
    × (twice.usage_daily ≡ once.usage_daily)
    × (twice.usage_hourly ≡ once.usage_hourly)
record_ike_session_again_example =
    record_ike_session_again 60 3600060 one today hour (codes "d2") (codes "h2") two_children 1000
      db account ((apart, tt), (tt, tt)) bob_found

ike_meter : IkeMeter one (codes "7") (some (codes "7:100")) 30 (cursors_of (codes "a")) db
unfolding get ◌===◌
ike_meter = record {
  account = account;
  found = refl;
  balance = refl;
  snapshot = record {
    user_id = one;
    session_identity = some (codes "7:100");
    last_bytes = 7;
    last_bytes_in = 3;
    last_bytes_out = 4;
    child_counters = some (cursors_of (codes "a"));
    last_seen_at = 50;
  };
  at = refl;
  owner = refl;
  peer = refl;
  cursors_lem = refl;
}

abbrev after_two : List (Text × Pair)
after_two =
    (codes "a", record { bytes_in = 9; bytes_out = 10 })
    ∷ (codes "b", record { bytes_in = 2; bytes_out = 10 })
    ∷ []

cursors_after : update_cursors (cursors_of (codes "a")) two_children.children ≡ after_two
unfolding update_cursors put ◌===◌
cursors_after = refl

-- The child "b" is gone in the second poll.
abbrev polls : List IkePoll
polls =
    record { now = 60; today = today; hour = hour; session = two_children }
    ∷ record { now = 90; today = today; hour = hour; session = sa (child (codes "a") 12 ∷ []) }
    ∷ []

first-Follows : Follows (codes "7") (some (codes "7:100")) (cursors_of (codes "a")) two_children
unfolding get ◌===◌
first-Follows = record {
  same_id = refl;
  same_peer = refl;
  has_children = λ e. cc;
  apart = ((apart, tt), (tt, tt));
  grown = (ground arith, ground arith, (ground arith, ground arith, tt));
}

second-Follows :
    Follows (codes "7") (some (codes "7:100")) after_two (sa (child (codes "a") 12 ∷ []))
unfolding get ◌===◌
second-Follows = record {
  same_id = refl;
  same_peer = refl;
  has_children = λ e. cc;
  apart = (tt, tt);
  grown = (ground arith, ground arith, tt);
}

continues : Continues one (codes "7") (some (codes "7:100")) 1000 (cursors_of (codes "a")) polls
continues = (first-Follows, (rw cursors_after second-Follows, tt))

record_sessions_example :
    let final_counters =
      final_cursors one (codes "7") (some (codes "7:100")) 1000 (cursors_of (codes "a")) polls in
    (final : ℕ) × IkeMeter one
      (codes "7")
      (some (codes "7:100"))
      final
      final_counters
      (record_sessions one (codes "7") (some (codes "7:100")) 1000 polls db)
    × (final + weight (cursors_of (codes "a")) ≡ 30 + weight final_counters)
record_sessions_example =
    record_sessions-total one (codes "7") (some (codes "7:100")) 1000 polls db 30
      (cursors_of (codes "a")) ike_meter continues
