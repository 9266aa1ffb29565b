-- ===== src/Metering/IkeRuns.antt =====
-- The charge of an IKE SA over a run of polls, by the cursors of its children.
use zvpn.Base.{
  ℕ, ◌+◌, ◌-◌, ◌≤◌, ◌≡◌, ◌≢◌, refl, Option, none, some, List, [], ◌∷◌, Text, ===_refl, get, put,
  get-put_self, get-put_ne, arith, if◌then◌else◌, ◌∙◌, ap,
}
use zvpn.Accounts.{Account}
use zvpn.Metering.Tables.{Database, Pair, Snapshot, track_traffic_exhaustion}
use zvpn.Metering.Ike.{
  IkeSession, Child, Delta, delta_of, delta, previous_of, pair_of, children_in, children_out, falsy,
  update_cursors, sum_children, ike_counter_delta, charge_ike, see_ike, record_ike_session,
}
use zvpn.Metering.IkeCharges.{Absent, Apart, same_identity, snapshot_after}

-- All that the cursors have counted.
unfoldable pub weight : List (Text × Pair) → ℕ
weight [] = 0
weight ((k, p) ∷ counters) = p.bytes_in + p.bytes_out + weight counters

-- No child has fallen below its cursor.
abbrev pub Grown : List (Text × Pair) → List Child → Type 0
Grown counters [] = Unit
Grown counters (c ∷ children) =
    ((pair_of (get c.key counters)).bytes_in ≤ c.bytes_in)
    × ((pair_of (get c.key counters)).bytes_out ≤ c.bytes_out)
    × Grown counters children

weight-put :
    (k : Text) (p : Pair) (counters : List (Text × Pair))
    → weight (put k p counters)
        + ((pair_of (get k counters)).bytes_in + (pair_of (get k counters)).bytes_out)
      ≡ weight counters + (p.bytes_in + p.bytes_out)
unfolding weight put get
weight-put k p [] = omega arith
weight-put k p ((j, q) ∷ counters) = ground (arith, weight-put k p counters)

-- A cursor that is written does not matter to children with other keys.
put-Absent :
    (k : Text) (p : Pair) (counters : List (Text × Pair)) (children : List Child)
    → Absent k children
    → (children_in (put k p counters) children ≡ children_in counters children)
      × (children_out (put k p counters) children ≡ children_out counters children)
      × (Grown counters children → Grown (put k p counters) children)
unfolding children_in children_out
put-Absent k p counters [] a = (refl, refl, λ g. g)
put-Absent k p counters (c ∷ children) a =
    let rest = put-Absent k p counters children a.1 in
    let same = get-put_ne k c.key p counters a.0 in
    (rw (same, rest.0), rw (same, rest.1), rw same (λ g. (g.0, g.1, rest.2 g.2)))

delta_grown : (value last : ℕ) → last ≤ value → delta value last ≡ value - last
unfolding delta
delta_grown value last h = ground arith

weight-update_cursors :
    (counters : List (Text × Pair)) (children : List Child)
    → Apart children
    → Grown counters children
    → weight (update_cursors counters children)
      ≡ weight counters + children_in counters children + children_out counters children
unfolding update_cursors children_in children_out
weight-update_cursors counters [] a g = omega arith
weight-update_cursors counters (c ∷ children) a g =
    let p : Pair = record { bytes_in = c.bytes_in; bytes_out = c.bytes_out } in
    let others = put-Absent c.key p counters children a.0 in
    omega (
      arith,
      weight-put c.key p counters,
      weight-update_cursors (put c.key p counters) children a.1 (others.2 g.2),
      others.0,
      others.1,
      delta_grown c.bytes_in (pair_of (get c.key counters)).bytes_in g.0,
      delta_grown c.bytes_out (pair_of (get c.key counters)).bytes_out g.1,
    )

-- The balance of an account and the cursors of the SA that it has.
pub record IkeMeter (id ike_id : Text) (identity : Option Text) (total : ℕ)
    (counters : List (Text × Pair)) (db : Database) : Type 0 where
  pub account : Account
  pub found : get id db.accounts ≡ some account
  pub balance : account.usage_total ≡ total
  pub snapshot : Snapshot
  pub at : get ike_id db.sa_snapshots ≡ some snapshot
  pub owner : snapshot.user_id ≡ id
  pub peer : snapshot.session_identity ≡ (if falsy identity then none else identity)
  pub cursors_lem : snapshot.child_counters ≡ some counters

-- What a poll must show for the meter to go on: the same SA, with children, none of them fallen.
pub record Follows (ike_id : Text) (identity : Option Text) (counters : List (Text × Pair))
    (s : IkeSession) : Type 0 where
  pub same_id : s.ike_id ≡ ike_id
  pub same_peer : s.identity ≡ identity
  pub has_children : s.children ≢ []
  pub apart : Apart s.children
  pub grown : Grown counters s.children

sum_some :
    (children : List Child) (counters : List (Text × Pair)) (i j : ℕ)
    → children ≢ []
    → sum_children children (some counters) i j
      ≡ delta_of
          (children_in counters children)
          (children_out counters children)
          (some (update_cursors counters children))
unfolding sum_children
sum_some [] counters i j ne = absurd (ne refl)
sum_some (c ∷ children) counters i j ne = refl

charge-total :
    (now : ℕ) (d : Delta) (s : IkeSession) (a : Account)
    → (see_ike now s (charge_ike now d s.is_relay a)).usage_total ≡ a.usage_total + d.total
unfolding see_ike charge_ike track_traffic_exhaustion
charge-total now d s a = ground arith

module _ (now : ℕ) (id : Text) (s : IkeSession) (today hour : Text) (poll_ms : ℕ) (db : Database)
    (ike_id : Text) (identity : Option Text) (total : ℕ) (counters : List (Text × Pair))
    (m : IkeMeter id ike_id identity total counters db)
    (f : Follows ike_id identity counters s) where
  abbrev growth : ℕ
  growth = children_in counters s.children + children_out counters s.children

  previous_same : previous_of s (some m.snapshot) id ≡ some m.snapshot
  unfolding previous_of
  previous_same = rw (m.owner, m.peer, f.same_peer, ===_refl id, same_identity identity)

  found_delta :
      ike_counter_delta s (get s.ike_id db.sa_snapshots) id poll_ms
      ≡ delta_of
          (children_in counters s.children)
          (children_out counters s.children)
          (some (update_cursors counters s.children))
  unfolding ike_counter_delta
  found_delta =
      rw (f.same_id, m.at, previous_same, m.cursors_lem)
        (sum_some s.children counters _ _ f.has_children)

  -- One poll charges the growth of the children, and moves their cursors.
  record_ike-IkeMeter :
      IkeMeter id ike_id identity
        (total + growth)
        (update_cursors counters s.children)
        (record_ike_session now id s today hour poll_ms db)
  unfolding record_ike_session
  record_ike-IkeMeter =
      rw (m.found, record_ike_session)
        (record {
          account = see_ike now s (charge_ike now d s.is_relay m.account);
          found = get-put_self id _ db.accounts;
          balance =
              charge-total now d s m.account
              ∙ omega (arith, m.balance, ap (λ (e : Delta). e.total) found_delta);
          snapshot = snapshot_after now id s d;
          at = rw f.same_id (get-put_self ike_id _ db.sa_snapshots);
          owner = refl;
          peer = rw f.same_peer;
          cursors_lem = ap (λ (e : Delta). e.children) found_delta;
        })
    where
      d : Delta
      d = ike_counter_delta s (get s.ike_id db.sa_snapshots) id poll_ms

-- One poll of the SA.
pub record IkePoll : Type 0 where
  pub now : ℕ
  pub today : Text
  pub hour : Text
  pub session : IkeSession

module _ (id ike_id : Text) (identity : Option Text) (poll_ms : ℕ) where
  unfoldable pub record_sessions : List IkePoll → Database → Database
  record_sessions [] db = db
  record_sessions (x ∷ polls) db =
      record_sessions polls (record_ike_session x.now id x.session x.today x.hour poll_ms db)

  -- Each poll follows on the cursors that the polls before it left.
  abbrev pub Continues : List (Text × Pair) → List IkePoll → Type 0
  Continues counters [] = Unit
  Continues counters (x ∷ polls) =
      Follows ike_id identity counters x.session
      × Continues (update_cursors counters x.session.children) polls

  abbrev pub final_cursors : List (Text × Pair) → List IkePoll → List (Text × Pair)
  final_cursors counters [] = counters
  final_cursors counters (x ∷ polls) =
      final_cursors (update_cursors counters x.session.children) polls

  -- Over a run of polls of one SA that is metered for an account, each with at least one child,
  -- whose children have keys of their own, may come, go and return, and never fall below their
  -- cursors, the balance grows by exactly what all cursors together grew.
  pub record_sessions-total :
      (polls : List IkePoll) (db : Database) (total : ℕ) (counters : List (Text × Pair))
      → IkeMeter id ike_id identity total counters db
      → Continues counters polls
      → (final : ℕ) × IkeMeter id ike_id identity final
          (final_cursors counters polls)
          (record_sessions polls db)
        × (final + weight counters ≡ total + weight (final_cursors counters polls))
  unfolding record_sessions
  record_sessions-total [] db total counters m c = (total, m, refl)
  record_sessions-total (x ∷ polls) db total counters m c =
      let m' =
        record_ike-IkeMeter x.now id x.session x.today x.hour poll_ms db ike_id identity total
          counters m c.0 in
      let (final, last, sum) =
        record_sessions-total polls _ _ (update_cursors counters x.session.children) m' c.1 in
      (
        final,
        last,
        omega (arith, weight-update_cursors counters x.session.children c.0.apart c.0.grown, sum),
      )
