-- ===== src/Accounts/Steps.antt =====
-- All that changes the balances, as steps of the database: the two recorders of
-- backend/src/services, and the operations of users.js. Every step keeps the ledger consistent.
use zvpn.Accounts.Balances.{
  update_user-IsConsistent, delete_found-IsConsistent, extend_user-IsConsistent,
  add_traffic-IsConsistent, reset_activation-IsConsistent, record_session-IsConsistent,
  collected-IsConsistent,
}
use zvpn.Base.{ℕ, Text}
use zvpn.Accounts.Operations.{
  left_by, delete_found, Patch, update_user, delete_user, extend_user, add_traffic,
  reset_activation,
}
use zvpn.Accounts.Recording.{record_session}
use zvpn.Metering.Tables.{Database}
use zvpn.Metering.Ike.{IkeSession, record_ike_session}
use zvpn.Metering.Collect.{Probe, collect_xray_usage, collect_xray_usage-IsConsistent}
use zvpn.Metering.Ledger.{IsConsistent}
use zvpn.Metering.IkeLedger.{record_ike_session-IsConsistent}

-- One change of the database, by a recorder or a call; a call that finds no account or throws is one
-- too.
pub data Step (db : Database) : Database → Type 0 where
  records_session :
      (now : ℕ) (today hour : Text) (poll_ms : ℕ) (username : Text) (s : IkeSession)
      → Step db (record_session now today hour poll_ms username s db)
  records_ike :
      (now : ℕ) (id : Text) (s : IkeSession) (today hour : Text) (poll_ms : ℕ)
      → Step db (record_ike_session now id s today hour poll_ms db)
  collects :
      (now : ℕ) (today hour : Text) (probe : Probe)
      → Step db (collect_xray_usage now today hour probe db).database
  updates :
      (today hour : Text) (probe : Probe) (now : ℕ) (id : Text) (p : Patch)
      → Step db (left_by (update_user today hour probe now id p db))
  removes :
      (today hour : Text) (probe : Probe) (now : ℕ) (id : Text)
      → Step db (left_by (delete_user today hour probe now id db))
  extends : (now : ℕ) (id : Text) (days : ℕ) → Step db (left_by (extend_user now id days db))
  adds : (now : ℕ) (id : Text) (bytes : ℕ) → Step db (left_by (add_traffic now id bytes db))
  resets : (id : Text) → Step db (left_by (reset_activation id db))

Step-IsConsistent : (db after : Database) → Step db after → IsConsistent db → IsConsistent after
unfolding delete_user
Step-IsConsistent db _ (records_session now today hour poll_ms username s) v =
    record_session-IsConsistent now today hour poll_ms username s db v
Step-IsConsistent db _ (records_ike now id s today hour poll_ms) v =
    record_ike_session-IsConsistent now id s today hour poll_ms db v
Step-IsConsistent db _ (collects now today hour probe) v =
    collect_xray_usage-IsConsistent now today hour probe db v
Step-IsConsistent db _ (updates today hour probe now id p) v =
    update_user-IsConsistent today hour probe now id p db v
Step-IsConsistent db _ (removes today hour probe now id) v =
    collected-IsConsistent (collect_xray_usage now today hour probe db) (delete_found id)
      (collect_xray_usage-IsConsistent now today hour probe db v) (delete_found-IsConsistent id)
Step-IsConsistent db _ (extends now id days) v = extend_user-IsConsistent now id days db v
Step-IsConsistent db _ (adds now id bytes) v = add_traffic-IsConsistent now id bytes db v
Step-IsConsistent db _ (resets id) v = reset_activation-IsConsistent id db v

-- Any number of changes, one after the other.
pub data Reaches (db : Database) : Database → Type 0 where
  here : Reaches db db
  one_more : (m after : Database) → Reaches db m → Step m after → Reaches db after

-- From a consistent database, however the recorders, the collection of Xray usage and the
-- operations on accounts follow each other, and whether or not they find an account or throw, the
-- database that is left is consistent.
pub Reaches-IsConsistent :
    (db after : Database) → Reaches db after → IsConsistent db → IsConsistent after
Reaches-IsConsistent db _ here v = v
Reaches-IsConsistent db _ (one_more m after r s) v =
    Step-IsConsistent m after s (Reaches-IsConsistent db m r v)
