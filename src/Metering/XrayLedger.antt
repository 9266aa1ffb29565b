-- ===== src/Metering/XrayLedger.antt =====
-- Recording Xray counters and resetting usage keep every account entered.
use zvpn.Base.{
  ℕ, ◌+◌, ◌≡◌, ◌≢◌, refl, some, List, Text, ===_iff, ===_refl, get, put_cases, ltb, arith,
  Bool-cases, inl, inr, Option-cases,
}
use zvpn.Accounts.{Account}
use zvpn.Metering.Tables.{
  Usage, Database, Cursor, add_usage, track_traffic_exhaustion, without, reset_account, reset_usage,
  tx,
}
use zvpn.Metering.Xray.{
  Counter, Transport, direct, netlify, iran, other, charge_xray, usage_xray, charge_counters,
  set_snapshots, record_xray_counters,
}
use zvpn.Metering.XrayCases.{record_cases}
use zvpn.Metering.Ledger.{
  summed-add_usage, summed-without_self, summed-without_ne, IsBalanced, AddsUp, IsEntered,
  IsConsistent,
}

charge_xray-IsBalanced :
    (now : ℕ) (t : Transport) (up down : ℕ) (a : Account)
    → IsBalanced a
    → IsBalanced (charge_xray now t up down a)
unfolding charge_xray track_traffic_exhaustion
charge_xray-IsBalanced now iran up down a v = ground arith
charge_xray-IsBalanced now _ up down a v = ground arith

usage_xray-AddsUp :
    (now : ℕ) (id bucket : Text) (t : Transport) (up down : ℕ) (a : Account) (rows : List Usage)
    → AddsUp id a rows
    → AddsUp id (charge_xray now t up down a) (add_usage (usage_xray id bucket t (up + down)) rows)
unfolding charge_xray track_traffic_exhaustion
usage_xray-AddsUp now id bucket t up down a rows v =
    let row = usage_xray id bucket t (up + down) in
    ground (
      arith,
      ===_refl id,
      summed-add_usage (λ u. u.bytes) id row rows (λ w. refl),
      summed-add_usage (λ u. u.ike_relay_bytes) id row rows (λ w. refl),
      summed-add_usage (λ u. u.xray_iran_bytes) id row rows (λ w. refl),
    )

usage_xray-AddsUp_ne :
    (id j bucket : Text) (t : Transport) (total : ℕ) (a : Account) (rows : List Usage)
    → id ≢ j
    → AddsUp j a rows
    → AddsUp j a (add_usage (usage_xray id bucket t total) rows)
usage_xray-AddsUp_ne id j bucket t total a rows ne v =
    let row = usage_xray id bucket t total in
    ground (
      arith,
      ===_iff id j,
      summed-add_usage (λ u. u.bytes) j row rows (λ w. refl),
      summed-add_usage (λ u. u.ike_relay_bytes) j row rows (λ w. refl),
      summed-add_usage (λ u. u.xray_iran_bytes) j row rows (λ w. refl),
    )

charge_counters-IsConsistent :
    (now : ℕ) (id : Text) (user : Account) (t : Transport) (up down : ℕ) (today hour : Text)
    (db : Database)
    → get id db.accounts ≡ some user
    → IsConsistent db
    → IsConsistent (charge_counters now id user t up down today hour db)
unfolding charge_counters
charge_counters-IsConsistent now id user t up down today hour db found c =
    elim (Bool-cases (ltb 0 (up + down))) [
      | inr idle ↦ rw (idle, charge_counters) c
      | inl busy ↦
          rw (busy, charge_counters)
            (λ j a e. elim (put_cases id j _ a db.accounts e) [
              | inl (same, new) ↦ rw (← new, ← same) (charged (c id user found))
              | inr (ne, old) ↦ others j a ne (c j a old)
            ])
    ]
  where
    charged :
        IsEntered id user db.usage_daily db.usage_hourly
        → IsEntered id
            (charge_xray now t up down user)
            (add_usage (usage_xray id today t (up + down)) db.usage_daily)
            (add_usage (usage_xray id hour t (up + down)) db.usage_hourly)
    charged v = record {
      balanced = charge_xray-IsBalanced now t up down user v.balanced;
      daily = usage_xray-AddsUp now id today t up down user db.usage_daily v.daily;
      hourly = usage_xray-AddsUp now id hour t up down user db.usage_hourly v.hourly;
    }

    others :
        (j : Text) (a : Account)
        → id ≢ j
        → IsEntered j a db.usage_daily db.usage_hourly
        → IsEntered j a
            (add_usage (usage_xray id today t (up + down)) db.usage_daily)
            (add_usage (usage_xray id hour t (up + down)) db.usage_hourly)
    others j a ne v = record {
      balanced = v.balanced;
      daily = usage_xray-AddsUp_ne id j today t (up + down) a db.usage_daily ne v.daily;
      hourly = usage_xray-AddsUp_ne id j hour t (up + down) a db.usage_hourly ne v.hourly;
    }

set_snapshots-IsConsistent :
    (t : Transport) (rows : List (Text × Cursor)) (db : Database)
    → IsConsistent db
    → IsConsistent (set_snapshots t rows db)
unfolding set_snapshots
set_snapshots-IsConsistent iran rows db c = c
set_snapshots-IsConsistent netlify rows db c = c
set_snapshots-IsConsistent direct rows db c = c
set_snapshots-IsConsistent other rows db c = c

-- A transaction that records Xray counters in a consistent database leaves a consistent one,
-- rolled back or not.
pub record_xray_counters-IsConsistent :
    (now : ℕ) (id : Text) (k : Counter) (epoch today hour : Text) (db : Database)
    → IsConsistent db
    → IsConsistent (tx (record_xray_counters now id k epoch today hour) db)
record_xray_counters-IsConsistent now id k epoch today hour db c =
    elim (record_cases now id k epoch today hour db) [
      | inl (e, thrown) ↦ rw thrown c
      | inr (inl (_, same)) ↦ rw same c
      | inr (inr r) ↦ rw r.result_lem (
          set_snapshots-IsConsistent k.transport _ _ (
            charge_counters-IsConsistent now id r.user k.transport r.up r.down today hour db r.found
              c))
    ]

reset_account-IsBalanced : (a : Account) → IsBalanced (reset_account a)
unfolding reset_account track_traffic_exhaustion
reset_account-IsBalanced a = omega arith

cleared_rows :
    (id : Text) (a : Account) (rows : List Usage) → AddsUp id (reset_account a) (without id rows)
unfolding reset_account track_traffic_exhaustion
cleared_rows id a rows = omega (
  arith,
  summed-without_self (λ u. u.bytes) id rows,
  summed-without_self (λ u. u.ike_relay_bytes) id rows,
  summed-without_self (λ u. u.xray_iran_bytes) id rows,
)

pub without-AddsUp :
    (id j : Text) (a : Account) (rows : List Usage)
    → id ≢ j
    → AddsUp j a rows
    → AddsUp j a (without id rows)
without-AddsUp id j a rows ne v = omega (
  arith,
  summed-without_ne (λ u. u.bytes) id j rows ne,
  summed-without_ne (λ u. u.ike_relay_bytes) id j rows ne,
  summed-without_ne (λ u. u.xray_iran_bytes) id j rows ne,
)

-- Resetting the usage of an account in a consistent database leaves a consistent one.
pub reset_usage-IsConsistent :
    (id : Text) (db : Database) → IsConsistent db → IsConsistent (reset_usage id db)
unfolding reset_usage
reset_usage-IsConsistent id db c = elim (Option-cases (get id db.accounts)) [
  | inl gone ↦ rw (gone, reset_usage) (λ j a e. others j a (λ s. ground arith) (c j a e))
  | inr (account, found) ↦
      rw (found, reset_usage)
        (λ j a e. elim (put_cases id j _ a db.accounts e) [
          | inl (same, new) ↦ rw (← new, ← same) (cleared account)
          | inr (ne, old) ↦ others j a ne (c j a old)
        ])
]
  where
    cleared :
        (a : Account)
        → IsEntered id (reset_account a) (without id db.usage_daily) (without id db.usage_hourly)
    cleared a = record {
      balanced = reset_account-IsBalanced a;
      daily = cleared_rows id a db.usage_daily;
      hourly = cleared_rows id a db.usage_hourly;
    }

    others :
        (j : Text) (a : Account)
        → id ≢ j
        → IsEntered j a db.usage_daily db.usage_hourly
        → IsEntered j a (without id db.usage_daily) (without id db.usage_hourly)
    others j a ne v = record {
      balanced = v.balanced;
      daily = without-AddsUp id j a db.usage_daily ne v.daily;
      hourly = without-AddsUp id j a db.usage_hourly ne v.hourly;
    }
