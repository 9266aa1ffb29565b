-- ===== src/Metering/IkeCharges.antt =====
-- What the recording of IKE sessions adds to the balance.
use zvpn.Base.{
  ap, Bool, sym, ℕ, ◌+◌, ◌≡◌, ◌≢◌, refl, true, ◌||◌, Option, none, some, List, [], ◌∷◌, Text,
  ===_refl, get, put, get-put_self, get-put_ne, arith, if◌then◌else◌, Bool-cases, inl, inr, ◌∙◌,
  is_empty,
}
use zvpn.Accounts.{Account}
use zvpn.Metering.Tables.{Usage, Database, Pair, Snapshot}
use zvpn.Metering.Ike.{
  sum_children, same_text, falsy, IkeSession, Child, Delta, delta, previous_of, is_baseline,
  children_in, children_out, update_cursors, ike_counter_delta, record_ike_session, see_ike,
  charge_ike, usage_ike,
}

-- No key of the children is the text.
abbrev pub Absent : Text → List Child → Type 0
Absent k [] = Unit
Absent k (c ∷ children) = (k ≢ c.key) × Absent k children

-- Each child has a key of its own.
abbrev pub Apart : List Child → Type 0
Apart [] = Unit
Apart (c ∷ children) = Absent c.key children × Apart children

-- A child that is absent from a session keeps its cursor.
pub get-update_cursors :
    (k : Text) (counters : List (Text × Pair)) (children : List Child)
    → Absent k children
    → get k (update_cursors counters children) ≡ get k counters
unfolding update_cursors
get-update_cursors k counters [] a = refl
get-update_cursors k counters (c ∷ children) a =
    get-update_cursors k
      (put c.key (record { bytes_in = c.bytes_in; bytes_out = c.bytes_out }) counters) children a.1
    ∙ get-put_ne c.key k _ counters (λ e. a.0 (sym e))

delta_self : (n : ℕ) → delta n n ≡ 0
unfolding delta
delta_self n = ground arith

-- The cursor that a child has after it was recorded before children with other keys.
get-update_head :
    (counters : List (Text × Pair)) (c : Child) (children : List Child)
    → Absent c.key children
    → get c.key (update_cursors counters (c ∷ children))
      ≡ some (record { bytes_in = c.bytes_in; bytes_out = c.bytes_out })
unfolding update_cursors
get-update_head counters c children a =
    get-update_cursors c.key _ children a ∙ get-put_self c.key _ counters

-- Children that were just recorded have grown by nothing.
children_again :
    (counters : List (Text × Pair)) (children : List Child)
    → Apart children
    → (children_in (update_cursors counters children) children ≡ 0)
      × (children_out (update_cursors counters children) children ≡ 0)
unfolding children_in children_out update_cursors
children_again counters [] a = (refl, refl)
children_again counters (c ∷ children) a =
    let head = get-update_head counters c children a.0 in
    let rest =
      children_again
        (put c.key (record { bytes_in = c.bytes_in; bytes_out = c.bytes_out }) counters) children
        a.1 in
    (
      rw head (omega (arith, delta_self c.bytes_in, rest.0)),
      rw head (omega (arith, delta_self c.bytes_out, rest.1)),
    )

pub same_identity :
    (o : Option Text)
    → (falsy (if falsy o then none else o) || falsy o || same_text (if falsy o then none else o) o)
      ≡ true
same_identity none = refl
same_identity (some t) = elim (Bool-cases (is_empty t)) [
  | inl e ↦ rw e
  | inr e ↦ rw (e, e, ===_refl t)
]

-- The snapshot that recording a session writes.
abbrev pub snapshot_after : ℕ → Text → IkeSession → Delta → Snapshot
snapshot_after now id s d = record {
  user_id = id;
  session_identity = if falsy s.identity then none else s.identity;
  last_bytes = s.bytes_in + s.bytes_out;
  last_bytes_in = s.bytes_in;
  last_bytes_out = s.bytes_out;
  child_counters = d.children;
  last_seen_at = now;
}

previous_again :
    (s : IkeSession) (d : Delta) (id : Text) (now : ℕ)
    → previous_of s (some (snapshot_after now id s d)) id ≡ some (snapshot_after now id s d)
unfolding previous_of
previous_again s d id now = rw (===_refl id, same_identity s.identity)

sum_again :
    (children : List Child) (o : Option (List (Text × Pair))) (i j : ℕ)
    → Apart children
    → (sum_children children (sum_children children o i j).children 0 0).total ≡ 0
unfolding sum_children
sum_again [] o i j a = refl
sum_again (c ∷ children) none i j a = omega (arith, children_again [] (c ∷ children) a)
sum_again (c ∷ children) (some counters) i j a =
    omega (arith, children_again counters (c ∷ children) a)

-- The growth of counters over the snapshot of the same counters.
pub ike_counter_delta_again :
    (s : IkeSession) (before : Option Snapshot) (id : Text) (now poll_ms : ℕ)
    → Apart s.children
    → (ike_counter_delta s
        (some (snapshot_after now id s (ike_counter_delta s before id poll_ms)))
        id
        poll_ms).total
      ≡ 0
unfolding ike_counter_delta is_baseline
ike_counter_delta_again s before id now poll_ms a =
    rw
      (
        previous_again s (ike_counter_delta s before id poll_ms) id now,
        ike_counter_delta,
        delta_self s.bytes_in,
        delta_self s.bytes_out,
      )
      (sum_again s.children _ _ _ a)

-- What a second recording of the same counters reads and charges.
module _ (id today hour : Text) (s : IkeSession) (poll_ms : ℕ) (db : Database) (a : Account) where
  recorded_snapshot :
      (now : ℕ)
      → get id db.accounts ≡ some a
      → get s.ike_id (record_ike_session now id s today hour poll_ms db).sa_snapshots
        ≡ some (
            snapshot_after now id s (ike_counter_delta s (get s.ike_id db.sa_snapshots) id poll_ms))
  unfolding record_ike_session
  recorded_snapshot now h = rw (record_ike_session, h) (get-put_self s.ike_id _ db.sa_snapshots)

charge_none :
    (now : ℕ) (d : Delta) (is_relay : Bool) (a : Account)
    → d.total ≡ 0
    → charge_ike now d is_relay a ≡ a
unfolding charge_ike
charge_none now d is_relay a h = rw h refl

usage_none :
    (id bucket : Text) (d : Delta) (is_relay : Bool) (rows : List Usage)
    → d.total ≡ 0
    → usage_ike id bucket d is_relay rows ≡ rows
unfolding usage_ike
usage_none id bucket d is_relay rows h = rw h refl

-- What is recorded for an account that is there.
recorded_account :
    (now : ℕ) (id today hour : Text) (s : IkeSession) (poll_ms : ℕ) (db : Database) (a : Account)
    → get id db.accounts ≡ some a
    → (let d = ike_counter_delta s (get s.ike_id db.sa_snapshots) id poll_ms in
        let after = record_ike_session now id s today hour poll_ms db in
        (get id after.accounts ≡ some (see_ike now s (charge_ike now d s.is_relay a)))
        × (after.usage_daily ≡ usage_ike id today d s.is_relay db.usage_daily)
        × (after.usage_hourly ≡ usage_ike id hour d s.is_relay db.usage_hourly))
unfolding record_ike_session
recorded_account now id today hour s poll_ms db a h =
    rw (record_ike_session, h) (get-put_self id _ db.accounts, refl, refl)

-- A session whose children have keys of their own, recorded again with the same counters at any
-- later time, charges nothing: the second recording leaves the account as the first one left it, but
-- for when and where it was seen, and leaves the rows of the daily and the hourly usage.
pub record_ike_session_again :
    (now later : ℕ) (id today hour today' hour' : Text) (s : IkeSession) (poll_ms : ℕ)
    (db : Database) (a : Account)
    → Apart s.children
    → get id db.accounts ≡ some a
    → (let once = record_ike_session now id s today hour poll_ms db in
        let twice = record_ike_session later id s today' hour' poll_ms once in
        (b : Account) × (get id once.accounts ≡ some b)
        × (get id twice.accounts ≡ some (see_ike later s b))
        × (twice.usage_daily ≡ once.usage_daily)
        × (twice.usage_hourly ≡ once.usage_hourly))
record_ike_session_again now later id today hour today' hour' s poll_ms db a apart h =
    let once = record_ike_session now id s today hour poll_ms db in
    let d = ike_counter_delta s (get s.ike_id db.sa_snapshots) id poll_ms in
    let b = see_ike now s (charge_ike now d s.is_relay a) in
    let (there, _, _) = recorded_account now id today hour s poll_ms db a h in
    let (again, daily, hourly) = recorded_account later id today' hour' s poll_ms once b there in
    let d' = ike_counter_delta s (get s.ike_id once.sa_snapshots) id poll_ms in
    let nothing : d'.total ≡ 0 =
      ap (λ x. (ike_counter_delta s x id poll_ms).total)
        (recorded_snapshot id today hour s poll_ms db a now h)
      ∙ ike_counter_delta_again s (get s.ike_id db.sa_snapshots) id now poll_ms apart in
    (
      b,
      there,
      again ∙ ap (λ x. some (see_ike later s x)) (charge_none later d' s.is_relay b nothing),
      daily ∙ usage_none id today' d' s.is_relay once.usage_daily nothing,
      hourly ∙ usage_none id hour' d' s.is_relay once.usage_hourly nothing,
    )
