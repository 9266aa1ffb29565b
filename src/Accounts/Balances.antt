-- ===== src/Accounts/Balances.antt =====
-- Each operation on accounts (backend/src/services/users.js), and `recordSession` of
-- backend/src/worker.js, against the ledger.
use zvpn.Base.{
  ℕ, ◌≡◌, ◌≢◌, Bool, true, false, some, List, Text, ◌===◌, ===_iff, get, get-delete, put_cases,
  arith, Bool-cases, Option-cases, inl, inr, if◌then◌else◌,
}
use zvpn.Accounts.{Account}
use zvpn.Accounts.Operations.{
  activate_on_first_connect, Answer, left_by, collected, update_found, delete_found, Patch,
  set_account, patch_account, remove_account, update_user, extend_account, extend_user,
  add_account_traffic, add_traffic, reset_activation,
}
use zvpn.Accounts.Recording.{find_account, activate_row, needs_activation, record_session}
use zvpn.Metering.Tables.{Database, Usage, track_traffic_exhaustion}
use zvpn.Metering.Ike.{IkeSession}
use zvpn.Metering.Collect.{Probe, Collected, collect_xray_usage, collect_xray_usage-IsConsistent}
use zvpn.Metering.Ledger.{IsEntered, IsConsistent}
use zvpn.Metering.IkeLedger.{record_ike_session-IsConsistent}
use zvpn.Metering.XrayLedger.{reset_usage-IsConsistent, without-AddsUp}

-- The numbers of the ledger are the same.
record SameUsage (a b : Account) : Type 0 where
  total : b.usage_total ≡ a.usage_total
  upload : b.upload_bytes ≡ a.upload_bytes
  download : b.download_bytes ≡ a.download_bytes
  relay : b.ike_relay_usage_bytes ≡ a.ike_relay_usage_bytes
  xray : b.xray_usage_bytes ≡ a.xray_usage_bytes
  iran : b.xray_iran_usage_bytes ≡ a.xray_iran_usage_bytes
  netlify : b.netlify_usage_bytes ≡ a.netlify_usage_bytes
  legacy : b.xray_legacy_usage_bytes ≡ a.xray_legacy_usage_bytes

SameUsage-IsEntered :
    (id : Text) (a b : Account) (daily hourly : List Usage)
    → SameUsage a b
    → IsEntered id a daily hourly
    → IsEntered id b daily hourly
SameUsage-IsEntered id a b daily hourly s v = ground arith

set_account-IsConsistent :
    (id : Text) (a b : Account) (db : Database)
    → get id db.accounts ≡ some a
    → SameUsage a b
    → IsConsistent db
    → IsConsistent (set_account id b db)
set_account-IsConsistent id a b db found s c j w e = elim (put_cases id j b w db.accounts e) [
  | inl (same, new) ↦
      rw (← new, ← same)
        (SameUsage-IsEntered id a b db.usage_daily db.usage_hourly s (c id a found))
  | inr (ne, old) ↦ c j w old
]

remove_account-IsConsistent :
    (id : Text) (db : Database) → IsConsistent db → IsConsistent (remove_account id db)
unfolding remove_account
remove_account-IsConsistent id db c j w e = elim (Bool-cases (id === j)) [
  | inl same ↦ absurd (ground (arith, get-delete id j db.accounts))
  | inr other ↦
      let ne : id ≢ j = λ s. ground (arith, ===_iff id j) in
      let v = c j w (ground (arith, get-delete id j db.accounts)) in
      record {
        balanced = v.balanced;
        daily = without-AddsUp id j w db.usage_daily ne v.daily;
        hourly = without-AddsUp id j w db.usage_hourly ne v.hourly;
      }
]

patch_account-SameUsage : (now : ℕ) (p : Patch) (a : Account) → SameUsage a (patch_account now p a)
unfolding patch_account track_traffic_exhaustion
patch_account-SameUsage now p a = omega arith

extend_account-SameUsage : (now days : ℕ) (a : Account) → SameUsage a (extend_account now days a)
unfolding extend_account
extend_account-SameUsage now days a = omega arith

activate_on_first_connect-SameUsage :
    (now : ℕ) (a : Account) → SameUsage a (activate_on_first_connect now a)
unfolding activate_on_first_connect
activate_on_first_connect-SameUsage now a = ground arith

add_account_traffic-SameUsage :
    (now bytes : ℕ) (a : Account) → SameUsage a (add_account_traffic now bytes a)
unfolding add_account_traffic track_traffic_exhaustion
add_account_traffic-SameUsage now bytes a = omega arith

pub extend_user-IsConsistent :
    (now : ℕ) (id : Text) (days : ℕ) (db : Database)
    → IsConsistent db
    → IsConsistent (left_by (extend_user now id days db))
unfolding extend_user
extend_user-IsConsistent now id days db v = elim (Option-cases (get id db.accounts)) [
  | inl gone ↦ rw (gone, extend_user) v
  | inr (a, found) ↦
      rw (found, extend_user)
        (set_account-IsConsistent id a _ db found (extend_account-SameUsage now days a) v)
]

pub add_traffic-IsConsistent :
    (now : ℕ) (id : Text) (bytes : ℕ) (db : Database)
    → IsConsistent db
    → IsConsistent (left_by (add_traffic now id bytes db))
unfolding add_traffic
add_traffic-IsConsistent now id bytes db v = elim (Option-cases (get id db.accounts)) [
  | inl gone ↦ rw (gone, add_traffic) v
  | inr (a, found) ↦
      rw (found, add_traffic)
        (set_account-IsConsistent id a _ db found (add_account_traffic-SameUsage now bytes a) v)
]

pub reset_activation-IsConsistent :
    (id : Text) (db : Database) → IsConsistent db → IsConsistent (left_by (reset_activation id db))
unfolding reset_activation
reset_activation-IsConsistent id db v = elim (Option-cases (get id db.accounts)) [
  | inl gone ↦ rw (gone, reset_activation) v
  | inr (a, found) ↦ elim (Option-cases a.duration_days) [
    | inl endless ↦ rw (found, endless, reset_activation) v
    | inr (d, lasts) ↦
        rw (found, lasts, reset_activation)
          (set_account-IsConsistent id a _ db found (omega arith) v)
  ]
]

if-IsConsistent :
    (b : Bool) (x y : Database)
    → IsConsistent x
    → IsConsistent y
    → IsConsistent (if b then x else y)
if-IsConsistent true x y v w = v
if-IsConsistent false x y v w = w

if-left_by :
    (b : Bool) (x y : Answer)
    → IsConsistent (left_by x)
    → IsConsistent (left_by y)
    → IsConsistent (left_by (if b then x else y))
if-left_by true x y v w = v
if-left_by false x y v w = w

pub delete_found-IsConsistent :
    (id : Text) (db : Database) → IsConsistent db → IsConsistent (left_by (delete_found id db))
unfolding delete_found
delete_found-IsConsistent id db v = elim (Option-cases (get id db.accounts)) [
  | inl gone ↦ rw (gone, delete_found) v
  | inr (a, found) ↦ rw (found, delete_found) (remove_account-IsConsistent id db v)
]

update_found-IsConsistent :
    (now : ℕ) (id : Text) (p : Patch) (db : Database)
    → IsConsistent db
    → IsConsistent (left_by (update_found now id p db))
unfolding update_found
update_found-IsConsistent now id p db v = elim (Option-cases (get id db.accounts)) [
  | inl gone ↦ rw (gone, update_found) v
  | inr (a, found) ↦
      let w =
        set_account-IsConsistent id a (patch_account now p a) db found
          (patch_account-SameUsage now p a) v in
      rw (found, update_found)
        (if-IsConsistent p.resets_usage _ _
          (reset_usage-IsConsistent id (set_account id (patch_account now p a) db) w) w)
]

activate_row-IsConsistent :
    (now : ℕ) (id : Text) (db : Database) → IsConsistent db → IsConsistent (activate_row now id db)
unfolding activate_row
activate_row-IsConsistent now id db v = elim (Option-cases (get id db.accounts)) [
  | inl gone ↦ rw (gone, activate_row) v
  | inr (a, found) ↦
      rw (found, activate_row)
        (set_account-IsConsistent id a _ db found (activate_on_first_connect-SameUsage now a) v)
]

pub record_session-IsConsistent :
    (now : ℕ) (today hour : Text) (poll_ms : ℕ) (username : Text) (s : IkeSession) (db : Database)
    → IsConsistent db
    → IsConsistent (record_session now today hour poll_ms username s db)
unfolding record_session
record_session-IsConsistent now today hour poll_ms username s db v =
    elim (Option-cases (find_account username db.accounts)) [
      | inl gone ↦ rw (gone, record_session) v
      | inr ((id, a), found) ↦
          rw (found, record_session)
            (record_ike_session-IsConsistent now id s today hour poll_ms _ (
              if-IsConsistent (needs_activation a) (activate_row now id db) db
                (activate_row-IsConsistent now id db v) v))
    ]

-- A call that collects first: it goes on from a consistent database, or throws in one.
pub collected-IsConsistent :
    (c : Collected) (rest : Database → Answer)
    → IsConsistent c.database
    → ((db : Database) → IsConsistent db → IsConsistent (left_by (rest db)))
    → IsConsistent (left_by (collected c rest))
collected-IsConsistent c rest v keeps = elim (Bool-cases c.succeeds) [
  | inl done ↦ rw done (keeps c.database v)
  | inr thrown ↦ rw thrown v
]

pub update_user-IsConsistent :
    (today hour : Text) (probe : Probe) (now : ℕ) (id : Text) (p : Patch) (db : Database)
    → IsConsistent db
    → IsConsistent (left_by (update_user today hour probe now id p db))
unfolding update_user
update_user-IsConsistent today hour probe now id p db v =
    if-left_by p.resets_usage _ _
      (collected-IsConsistent (collect_xray_usage now today hour probe db) (update_found now id p)
        (collect_xray_usage-IsConsistent now today hour probe db v)
        (update_found-IsConsistent now id p))
      (update_found-IsConsistent now id p db v)
