-- ===== src/Metering/XrayCharges.antt =====
-- What the recording of Xray counters adds to the balance.
use zvpn.Base.{
  ===_refl, ◌⊎◌, ℕ, ◌+◌, ◌-◌, ◌≤◌, ◌<◌, ◌≡◌, refl, true, false, some, List, [], ◌∷◌, Text, get,
  get-put_self, ltb, arith, Bool-cases, inl, inr, ◌∙◌, ap,
}
use zvpn.Accounts.{Account}
use zvpn.Metering.Tables.{
  Database, Cursor, xray_counter_regressed, ok, err, tx, track_traffic_exhaustion, reset_usage,
  reset_account,
}
use zvpn.Metering.Xray.{
  Counter, Transport, direct, netlify, iran, other, charge_xray, charge_counters, snapshots_of,
  set_snapshots, counter_delta, record_xray_counters, is_other,
}
use zvpn.Metering.XrayCases.{recorded}

snapshots_of-set_snapshots :
    (t : Transport) (rows : List (Text × Cursor)) (db : Database)
    → snapshots_of t (set_snapshots t rows db) ≡ rows
unfolding snapshots_of set_snapshots
snapshots_of-set_snapshots iran rows db = refl
snapshots_of-set_snapshots netlify rows db = refl
snapshots_of-set_snapshots direct rows db = refl
snapshots_of-set_snapshots other rows db = refl

accounts-set_snapshots :
    (t : Transport) (rows : List (Text × Cursor)) (db : Database)
    → (set_snapshots t rows db).accounts ≡ db.accounts
unfolding set_snapshots
accounts-set_snapshots iran rows db = refl
accounts-set_snapshots netlify rows db = refl
accounts-set_snapshots direct rows db = refl
accounts-set_snapshots other rows db = refl

counter_delta_same :
    (current last : ℕ)
    → last ≤ current
    → counter_delta current (some last) true ≡ ok (current - last)
unfolding counter_delta
counter_delta_same current last h = ground arith

snapshots_of-reset_usage :
    (t : Transport) (id : Text) (db : Database)
    → snapshots_of t (reset_usage id db) ≡ snapshots_of t db
unfolding snapshots_of reset_usage
snapshots_of-reset_usage iran id db = refl
snapshots_of-reset_usage netlify id db = refl
snapshots_of-reset_usage direct id db = refl
snapshots_of-reset_usage other id db = refl

-- The balance of an account, and the cursor that it has for a transport.
pub record Meter (id : Text) (t : Transport) (epoch : Text) (total up down : ℕ) (db : Database)
    : Type 0 where
  pub account : Account
  pub found : get id db.accounts ≡ some account
  pub balance : account.usage_total ≡ total
  pub at :
      get id (snapshots_of t db) ≡ some (record { epoch = epoch; uplink = up; downlink = down })

charge_counters-found :
    (now : ℕ) (id : Text) (user : Account) (t : Transport) (up down : ℕ) (today hour : Text)
    (db : Database)
    → get id db.accounts ≡ some user
    → (a : Account) × (get id (charge_counters now id user t up down today hour db).accounts
        ≡ some a)
      × (a.usage_total ≡ user.usage_total + (up + down))
unfolding charge_counters charge_xray track_traffic_exhaustion
charge_counters-found now id user t up down today hour db found =
    elim (Bool-cases (ltb 0 (up + down))) [
      | inl busy ↦ (
        charge_xray now t up down user,
        rw (busy) (get-put_self id (charge_xray now t up down user) db.accounts),
        refl,
      )
      | inr idle ↦ (user, rw (idle) found, ground arith)
    ]

module _ (now : ℕ) (id : Text) (k : Counter) (epoch today hour : Text) (db : Database) where
  module _ (total up down : ℕ) (m : Meter id k.transport epoch total up down db)
      (known : is_other k.transport ≡ false) where
    record_grown :
        up ≤ k.uplink
        → down ≤ k.downlink
        → record_xray_counters now id k epoch today hour db
          ≡ ok (recorded now id k epoch today hour db m.account (k.uplink - up) (k.downlink - down))
    unfolding record_xray_counters
    record_grown grown grown' = rw (
      known,
      m.found,
      m.at,
      ===_refl epoch,
      counter_delta_same k.uplink up grown,
      counter_delta_same k.downlink down grown',
    )

    record_fell :
        (k.uplink < up) ⊎ (k.downlink < down)
        → record_xray_counters now id k epoch today hour db ≡ err xray_counter_regressed
    unfolding record_xray_counters counter_delta
    record_fell fell = rw (known, m.found, m.at, ===_refl epoch) (ground arith)

  recorded-Meter :
      (user : Account) (up down : ℕ)
      → get id db.accounts ≡ some user
      → Meter id k.transport epoch
          (user.usage_total + (up + down))
          k.uplink
          k.downlink
          (recorded now id k epoch today hour db user up down)
  recorded-Meter user up down found =
      let (a, at, total) =
        charge_counters-found now id user k.transport up down today hour db found in
      record {
        account = a;
        found = ap (get id) (accounts-set_snapshots k.transport _ _) ∙ at;
        balance = total;
        at = ap (get id) (snapshots_of-set_snapshots k.transport _ _) ∙ get-put_self id _ _;
      }

  -- Where an account has a cursor of the epoch for a known transport, and neither counter is
  -- below it, the balance grows by exactly what the two counters grew, and the cursor moves to
  -- them.
  pub record_xray_charges :
      (total up down : ℕ)
      → Meter id k.transport epoch total up down db
      → is_other k.transport ≡ false
      → up ≤ k.uplink
      → down ≤ k.downlink
      → Meter id k.transport epoch
          (total + (k.uplink - up) + (k.downlink - down))
          k.uplink
          k.downlink
          (tx (record_xray_counters now id k epoch today hour) db)
  record_xray_charges total up down m known grown grown' =
      let after = recorded-Meter m.account (k.uplink - up) (k.downlink - down) m.found in
      rw (record_grown total up down m known grown grown') (record {
        account = after.account;
        found = after.found;
        balance = omega (arith, after.balance, m.balance);
        at = after.at;
      })

  -- Where an account has a cursor of the epoch for a known transport, a counter below it is
  -- refused, and the transaction leaves the database as it was.
  pub record_xray_regressed :
      (total up down : ℕ)
      → Meter id k.transport epoch total up down db
      → is_other k.transport ≡ false
      → (k.uplink < up) ⊎ (k.downlink < down)
      → (record_xray_counters now id k epoch today hour db ≡ err xray_counter_regressed)
        × (tx (record_xray_counters now id k epoch today hour) db ≡ db)
  record_xray_regressed total up down m known fell =
      let thrown = record_fell total up down m known fell in (thrown, rw thrown)

-- One reading of the counters: when it was made, the day and the hour, and what it showed.
pub record Reading : Type 0 where
  pub now : ℕ
  pub today : Text
  pub hour : Text
  pub uplink : ℕ
  pub downlink : ℕ

module _ (id : Text) (t : Transport) (epoch : Text) where
  -- The transactions for a run of readings of one account and transport in one epoch.
  unfoldable pub record_all : List Reading → Database → Database
  unfolding record_xray_counters
  record_all [] db = db
  record_all (x ∷ readings) db = record_all readings (
      tx
        (record_xray_counters x.now id
          (record { transport = t; uplink = x.uplink; downlink = x.downlink }) epoch x.today x.hour)
        db)

  -- The counters do not fall from one reading to the next.
  abbrev pub Rising : ℕ → ℕ → List Reading → Type 0
  Rising up down [] = Unit
  Rising up down (x ∷ readings) =
      (up ≤ x.uplink) × (down ≤ x.downlink) × Rising x.uplink x.downlink readings

  abbrev pub last_up : ℕ → List Reading → ℕ
  last_up up [] = up
  last_up up (x ∷ readings) = last_up x.uplink readings

  abbrev pub last_down : ℕ → List Reading → ℕ
  last_down down [] = down
  last_down down (x ∷ readings) = last_down x.downlink readings

  -- For a known transport and an account with a cursor of the epoch, a run of readings of that
  -- epoch of which none is below the one before leaves a cursor at the last reading, and the
  -- balance grows by what the counters grew from the first cursor to the last reading: nothing is
  -- charged twice and nothing is lost.
  pub record_all-total :
      (readings : List Reading) (db : Database) (total up down : ℕ)
      → is_other t ≡ false
      → Meter id t epoch total up down db
      → Rising up down readings
      → (final : ℕ) × Meter id t epoch final
          (last_up up readings)
          (last_down down readings)
          (record_all readings db)
        × (final + up + down ≡ total + last_up up readings + last_down down readings)
  unfolding record_all
  record_all-total [] db total up down known m rise = (total, m, refl)
  record_all-total (x ∷ readings) db total up down known m rise =
      let k : Counter = record { transport = t; uplink = x.uplink; downlink = x.downlink } in
      let m' =
        record_xray_charges x.now id k epoch x.today x.hour db total up down m known rise.0
          rise.1 in
      let (final, last, sum) = record_all-total readings _ _ x.uplink x.downlink known m' rise.2 in
      (final, last, omega arith)

  -- Resetting the usage of an account that has a cursor sets its balance to 0 and keeps the
  -- cursor.
  pub reset_usage-Meter :
      (db : Database) (total up down : ℕ)
      → Meter id t epoch total up down db
      → Meter id t epoch 0 up down (reset_usage id db)
  unfolding reset_usage reset_account track_traffic_exhaustion
  reset_usage-Meter db total up down m = record {
    account = reset_account m.account;
    found = rw (m.found, reset_usage) (get-put_self id (reset_account m.account) db.accounts);
    balance = refl;
    at = rw (snapshots_of-reset_usage t id db) m.at;
  }
