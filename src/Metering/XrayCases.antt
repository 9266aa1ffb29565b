-- ===== src/Metering/XrayCases.antt =====
-- The ways in which `record_xray_counters` ends.
use zvpn.Base.{
  ℕ, ◌≡◌, refl, false, Option, none, some, Text, get, put, Bool-cases, inl, inr, Option-cases, ◌⊎◌,
}
use zvpn.Accounts.{Account}
use zvpn.Metering.Tables.{Database, Cursor, Error, invalid_transport, Result, ok, err}
use zvpn.Metering.Xray.{
  Counter, charge_counters, snapshots_of, set_snapshots, counter_delta, record_xray_counters,
  is_other, same_epoch, uplink_of, downlink_of,
}

pub Result-cases {ℓ} :
    {A : Type ℓ} (x : Result A) → ((e : Error) × (x ≡ err e)) ⊎ ((a : A) × (x ≡ ok a))
Result-cases (ok a) = inr (a, refl)
Result-cases (err e) = inl (e, refl)

module _ (now : ℕ) (id : Text) (k : Counter) (epoch today hour : Text) (db : Database) where
  -- The cursor that the account has for the transport.
  abbrev pub previous : Option Cursor
  previous = get id (snapshots_of k.transport db)

  abbrev pub up_delta : Result ℕ
  up_delta = counter_delta k.uplink (uplink_of previous) (same_epoch epoch previous)

  abbrev pub down_delta : Result ℕ
  down_delta = counter_delta k.downlink (downlink_of previous) (same_epoch epoch previous)

  abbrev pub cursor : Cursor
  cursor = record { epoch = epoch; uplink = k.uplink; downlink = k.downlink }

  abbrev pub charged : Account → ℕ → ℕ → Database
  charged user up down = charge_counters now id user k.transport up down today hour db

  -- The tables when the body ends without an error.
  abbrev pub recorded : Account → ℕ → ℕ → Database
  recorded user up down =
      set_snapshots k.transport (put id cursor (snapshots_of k.transport (charged user up down)))
        (charged user up down)

  -- It recorded the two differences.
  pub record Recorded (result : Result Database) : Type 0 where
    pub user : Account
    pub up : ℕ
    pub down : ℕ
    pub known : is_other k.transport ≡ false
    pub found : get id db.accounts ≡ some user
    pub up_lem : up_delta ≡ ok up
    pub down_lem : down_delta ≡ ok down
    pub result_lem : result ≡ ok (recorded user up down)

  abbrev body : Result Database
  body = record_xray_counters now id k epoch today hour db

  record_known :
      is_other k.transport ≡ false
      → ((e : Error) × (body ≡ err e))
        ⊎ ((get id db.accounts ≡ none) × (body ≡ ok db))
        ⊎ Recorded body
  unfolding record_xray_counters
  record_known known = elim (Option-cases (get id db.accounts)) [
    | inl gone ↦ inr (inl (gone, rw (known, gone)))
    | inr (user, found) ↦ elim (Result-cases up_delta) [
      | inl (e, u) ↦ inl (e, rw (known, found, u))
      | inr (up, u) ↦ elim (Result-cases down_delta) [
        | inl (e, d) ↦ inl (e, rw (known, found, u, d))
        | inr (down, d) ↦ inr (
            inr (record {
              user = user;
              up = up;
              down = down;
              known = known;
              found = found;
              up_lem = u;
              down_lem = d;
              result_lem = rw (known, found, u, d);
            }))
      ]
    ]
  ]

  -- The body throws, finds no account and does nothing, or records.
  pub record_cases :
      ((e : Error) × (body ≡ err e))
      ⊎ ((get id db.accounts ≡ none) × (body ≡ ok db))
      ⊎ Recorded body
  unfolding record_xray_counters
  record_cases = elim (Bool-cases (is_other k.transport)) [
    | inl unknown ↦ inl (invalid_transport, rw unknown)
    | inr known ↦ record_known known
  ]
