-- ===== src/Metering/IkeLedger.antt =====
-- Recording an IKE session keeps every account entered.
use zvpn.Base.{
  put_cases, Option-cases, ℕ, ◌+◌, ◌≡◌, ◌≢◌, refl, Bool, Option, none, some, List, [], ◌∷◌, Text,
  ===_iff, ===_refl, get, arith, if◌then◌else◌, inl, inr,
}
use zvpn.Accounts.{Account}
use zvpn.Metering.Tables.{Pair, Snapshot, Usage, Database, track_traffic_exhaustion}
use zvpn.Metering.Ike.{
  sum_children, Child, IkeSession, Delta, ike_counter_delta, charge_ike, usage_ike, see_ike,
  record_ike_session,
}
use zvpn.Metering.Ledger.{summed-add_usage, IsBalanced, AddsUp, IsEntered, IsConsistent}

sum_total :
    (children : List Child) (o : Option (List (Text × Pair))) (i j : ℕ)
    → let d = sum_children children o i j in d.total ≡ d.incoming + d.outgoing
unfolding sum_children
sum_total [] o i j = refl
sum_total (c ∷ children) none i j = refl
sum_total (c ∷ children) (some counters) i j = refl

ike_total :
    (s : IkeSession) (o : Option Snapshot) (id : Text) (poll_ms : ℕ)
    → let d = ike_counter_delta s o id poll_ms in d.total ≡ d.incoming + d.outgoing
unfolding ike_counter_delta
ike_total s o id poll_ms = sum_total s.children _ _ _

charge_ike-IsBalanced :
    (now : ℕ) (d : Delta) (b : Bool) (a : Account)
    → d.total ≡ d.incoming + d.outgoing
    → IsBalanced a
    → IsBalanced (charge_ike now d b a)
unfolding charge_ike track_traffic_exhaustion
charge_ike-IsBalanced now d b a e v = ground arith

usage_ike-AddsUp :
    (now : ℕ) (id bucket : Text) (d : Delta) (b : Bool) (a : Account) (rows : List Usage)
    → AddsUp id a rows
    → AddsUp id (charge_ike now d b a) (usage_ike id bucket d b rows)
unfolding charge_ike track_traffic_exhaustion usage_ike
usage_ike-AddsUp now id bucket d b a rows v =
    let row : Usage = record {
      user_id = id;
      bucket = bucket;
      bytes = d.total;
      ike_relay_bytes = if b then d.total else 0;
      xray_iran_bytes = 0;
    } in
    ground (
      arith,
      ===_refl id,
      summed-add_usage (λ u. u.bytes) id row rows (λ w. refl),
      summed-add_usage (λ u. u.ike_relay_bytes) id row rows (λ w. refl),
      summed-add_usage (λ u. u.xray_iran_bytes) id row rows (λ w. refl),
    )

usage_ike-AddsUp_ne :
    (id j bucket : Text) (d : Delta) (b : Bool) (a : Account) (rows : List Usage)
    → id ≢ j
    → AddsUp j a rows
    → AddsUp j a (usage_ike id bucket d b rows)
unfolding usage_ike
usage_ike-AddsUp_ne id j bucket d b a rows ne v =
    let row : Usage = record {
      user_id = id;
      bucket = bucket;
      bytes = d.total;
      ike_relay_bytes = if b then d.total else 0;
      xray_iran_bytes = 0;
    } in
    ground (
      arith,
      ===_iff id j,
      summed-add_usage (λ u. u.bytes) j row rows (λ w. refl),
      summed-add_usage (λ u. u.ike_relay_bytes) j row rows (λ w. refl),
      summed-add_usage (λ u. u.xray_iran_bytes) j row rows (λ w. refl),
    )

see_ike-IsEntered :
    (now : ℕ) (s : IkeSession) (id : Text) (a : Account) (daily hourly : List Usage)
    → IsEntered id a daily hourly
    → IsEntered id (see_ike now s a) daily hourly
unfolding see_ike
see_ike-IsEntered now s id a daily hourly e = ground arith

-- Recording an IKE session in a consistent database leaves a consistent one.
pub record_ike_session-IsConsistent :
    (now : ℕ) (id : Text) (s : IkeSession) (today hour : Text) (poll_ms : ℕ) (db : Database)
    → IsConsistent db
    → IsConsistent (record_ike_session now id s today hour poll_ms db)
unfolding record_ike_session
record_ike_session-IsConsistent now id s today hour poll_ms db c =
    elim (Option-cases (get id db.accounts)) [
      | inl gone ↦ rw (gone, record_ike_session) c
      | inr (account, found) ↦
          rw (found, record_ike_session)
            (λ j a e. elim (put_cases id j _ a db.accounts e) [
              | inl (same, new) ↦
                  rw (← new, ← same)
                    (see_ike-IsEntered now s id (charge_ike now d s.is_relay account) _ _
                      (charged account (c id account found)))
              | inr (ne, old) ↦ others j a ne (c j a old)
            ])
    ]
  where
    d : Delta
    d = ike_counter_delta s (get s.ike_id db.sa_snapshots) id poll_ms

    charged :
        (a : Account)
        → IsEntered id a db.usage_daily db.usage_hourly
        → IsEntered id
            (charge_ike now d s.is_relay a)
            (usage_ike id today d s.is_relay db.usage_daily)
            (usage_ike id hour d s.is_relay db.usage_hourly)
    charged a v = record {
      balanced =
          charge_ike-IsBalanced now d s.is_relay a
            (ike_total s (get s.ike_id db.sa_snapshots) id poll_ms) v.balanced;
      daily = usage_ike-AddsUp now id today d s.is_relay a db.usage_daily v.daily;
      hourly = usage_ike-AddsUp now id hour d s.is_relay a db.usage_hourly v.hourly;
    }

    others :
        (j : Text) (a : Account)
        → id ≢ j
        → IsEntered j a db.usage_daily db.usage_hourly
        → IsEntered j a
            (usage_ike id today d s.is_relay db.usage_daily)
            (usage_ike id hour d s.is_relay db.usage_hourly)
    others j a ne v = record {
      balanced = v.balanced;
      daily = usage_ike-AddsUp_ne id j today d s.is_relay a db.usage_daily ne v.daily;
      hourly = usage_ike-AddsUp_ne id j hour d s.is_relay a db.usage_hourly ne v.hourly;
    }
