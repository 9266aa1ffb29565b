-- ===== src/Metering/Collect.antt =====
-- `collectXrayUsage` of backend/src/services/xray.js. What the helper and the statistics command
-- answer is an argument; the counters come in the order of their ids.
use zvpn.Base.{ℕ, Bool, true, false, List, [], ◌∷◌, Text}
use zvpn.Metering.Tables.{Database, Result, ok, err, committed}
use zvpn.Metering.Xray.{Counter, record_xray_counters}
use zvpn.Metering.Ledger.{IsConsistent}
use zvpn.Metering.XrayLedger.{record_xray_counters-IsConsistent}

pub data Probe : Type 0 where
  not_installed : Probe
  stopped : Probe
  -- a command failed, its answer was not readable, or Xray restarted in between
  unreadable : Probe
  -- epoch and counters
  counted : Text → List (Text × Counter) → Probe

pub record Collected : Type 0 where
  pub database : Database
  -- `false` where the call throws
  pub succeeds : Bool

goes_on-IsConsistent :
    (r : Result Database) (db : Database) (rest : Database → Collected)
    → IsConsistent (committed r db)
    → IsConsistent db
    → ((m : Database) → IsConsistent m → IsConsistent (rest m).database)
    → IsConsistent
        (elim r as (λ x. Collected) [
          | ok m ↦ rest m
          | err e ↦ record { database = db; succeeds = false }
        ]).database
goes_on-IsConsistent (ok m) db rest w v keeps = keeps m w
goes_on-IsConsistent (err e) db rest w v keeps = v

module _ (now : ℕ) (epoch today hour : Text) where
  -- The loop: a transaction for each counter, until one throws.
  unfoldable pub collect_counters : List (Text × Counter) → Database → Collected
  collect_counters [] db = record { database = db; succeeds = true }
  collect_counters ((id, k) ∷ counters) db =
      elim (record_xray_counters now id k epoch today hour db) [
        | ok db' ↦ collect_counters counters db'
        | err e ↦ record { database = db; succeeds = false }
      ]

  collect_counters-IsConsistent :
      (counters : List (Text × Counter)) (db : Database)
      → IsConsistent db
      → IsConsistent (collect_counters counters db).database
  unfolding collect_counters
  collect_counters-IsConsistent [] db v = v
  collect_counters-IsConsistent ((id, k) ∷ counters) db v =
      goes_on-IsConsistent (record_xray_counters now id k epoch today hour db) db
        (collect_counters counters)
        (record_xray_counters-IsConsistent now id k epoch today hour db v) v
        (collect_counters-IsConsistent counters)

unfoldable pub collect_xray_usage : ℕ → Text → Text → Probe → Database → Collected
unfolding collect_counters
collect_xray_usage now today hour not_installed db = record { database = db; succeeds = true }
collect_xray_usage now today hour stopped db = record { database = db; succeeds = true }
collect_xray_usage now today hour unreadable db = record { database = db; succeeds = false }
collect_xray_usage now today hour (counted epoch counters) db =
    collect_counters now epoch today hour counters db

pub collect_xray_usage-IsConsistent :
    (now : ℕ) (today hour : Text) (probe : Probe) (db : Database)
    → IsConsistent db
    → IsConsistent (collect_xray_usage now today hour probe db).database
unfolding collect_xray_usage
collect_xray_usage-IsConsistent now today hour not_installed db v = v
collect_xray_usage-IsConsistent now today hour stopped db v = v
collect_xray_usage-IsConsistent now today hour unreadable db v = v
collect_xray_usage-IsConsistent now today hour (counted epoch counters) db v =
    collect_counters-IsConsistent now epoch today hour counters db v
