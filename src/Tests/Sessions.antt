-- ===== src/Tests/Sessions.antt =====
-- Passes of the session reconciler (backend/src/services/sessionReconciler.js) at concrete inputs.
use Prim.Native.Nat.{compare, Ordering}
use zvpn.Base.{
  map, every, any, ℕ, ◌+◌, ◌≤◌, ◌<◌, ◌≡◌, ◌≢◌, sym, ◌∙◌, refl, true, false, some, List, [], ◌∷◌,
  ◌++◌, Text, codes, get, ◌===◌, if◌then◌else◌, arith, length, min, All, Perm,
}
use zvpn.Reconcile.Sessions.{
  Session, nat, or_else, disconnect_oldest, reject_newest, id_of, age_of, limit_of,
  select_excess_sessions,
}
use zvpn.Reconcile.{
  trim, username_of, Hooks, init, ended, failed, number, Limits, by_map, reconcile, resolve_limit,
  state_of,
}
use zvpn.Worker.{Host, Worker, tick, before_sessions, reads_sessions, records, enforces}
use zvpn.Worker.Ticks.{tick-enforces, is_enforcement}
use zvpn.Reconcile.Select.{select_excess_sessions_lem, Outranks}
use zvpn.Reconcile.Due.{terminated}
use zvpn.Reconcile.Groups.{snapshot_of, carry}
use zvpn.Reconcile.Users.{wanted, Settled}
use zvpn.Reconcile.Passes.{reconcile_lem, terminated_after_grace}
use zvpn.Reconcile.Once.{Poll, poll, run, contains, StillOver, terminated_once}

-- The order of code points.
abbrev by_code : Text → Text → Ordering
by_code [] [] = Ordering.eq
by_code [] (b ∷ t) = Ordering.lt
by_code (a ∷ s) [] = Ordering.gt
by_code (a ∷ s) (b ∷ t) = or_else (compare a b) (by_code s t)

abbrev bob : Text
bob = codes "bob"

abbrev session : Text → ℕ → Session
session id age = record { ike_id = some id; remote_id = some bob; established = nat age }

abbrev three : List Session
three = session (codes "1") 300 ∷ session (codes "2") 200 ∷ session (codes "3") 100 ∷ []

-- A row says that bob was over its limit at 10; the SA "2" cannot be terminated.
abbrev hooks : Hooks
hooks = record {
  grace_ms = 50;
  retry_ms = 2000;
  terminate = λ id. if id === codes "2" then failed (codes "busy") else ended;
  load_state = some (λ u. some (number (some 10)));
  save_state = true;
  delete_state = true;
}

abbrev limits : Limits
limits = by_map ((bob, 1) ∷ [])

abbrev at : ℕ → Poll
at now = record {
  options = hooks;
  now = now;
  limits = limits;
  policy = disconnect_oldest;
  sessions = three;
}

select_excess_sessions_example :
    let picked = select_excess_sessions by_code three (some 1) reject_newest in
    (kept : List Session) × Perm (picked ++ kept) three
    × (length kept ≡ min (length three) (limit_of (some 1)))
    × All (λ s. All (Outranks reject_newest s) kept) picked
select_excess_sessions_example = select_excess_sessions_lem by_code three (some 1) reject_newest

cons_nil : {x : Text} {xs : List Text} → ((x ∷ xs) ≡ []) → ⊥
cons_nil h = cc

three_mine : snapshot_of bob three ≡ three
unfolding username_of trim id_of ◌===◌
three_mine = refl

over : resolve_limit limits bob < length (snapshot_of bob three)
unfolding resolve_limit ◌===◌ get
over = rw three_mine (ground arith)

retries : 0 < hooks.retry_ms
retries = ground arith

calls_both :
    terminated bob (reconcile by_code hooks 100 limits disconnect_oldest [] three).calls
    ≡ codes "1" ∷ codes "2" ∷ []
unfolding terminated reconcile username_of trim id_of ◌===◌ select_excess_sessions age_of
calls_both = refl

terminates_both :
    terminated bob (reconcile by_code hooks 100 limits disconnect_oldest [] three).calls ≢ []
terminates_both e = absurd (cons_nil (sym calls_both ∙ e))

terminated_after_grace_example :
    (resolve_limit limits bob < length (snapshot_of bob three))
    × ((state_of hooks 100 bob (carry (snapshot_of bob three) (get bob []))).over_limit_since + 50
        ≤ 100)
terminated_after_grace_example =
    terminated_after_grace by_code hooks 100 retries limits disconnect_oldest [] three bob
      terminates_both

reconcile_example :
    let mine = snapshot_of bob three in
    let r = reconcile by_code hooks 100 limits disconnect_oldest [] three in
    (terminated bob r.calls
      ≡ wanted by_code hooks 100 retries limits disconnect_oldest bob
          (carry mine (get bob []))
          mine)
    × Settled by_code hooks 100 retries limits disconnect_oldest bob
        (carry mine (get bob []))
        mine
        (get bob r.users)
reconcile_example = reconcile_lem by_code hooks 100 retries limits disconnect_oldest [] three bob

ends_first : contains (codes "1") (terminated bob (poll by_code [] (at 100)).calls) ≡ true
unfolding terminated poll reconcile username_of trim id_of ◌===◌ init select_excess_sessions age_of
ends_first = refl

not_failed : (e : Text) → hooks.terminate (codes "1") ≢ failed e
unfolding ◌===◌
not_failed e h = cc

over_still : StillOver by_code bob (codes "1") (at 200)
unfolding username_of trim id_of ◌===◌
over_still = (refl, over)

terminated_once_example :
    contains (codes "1") (
      terminated bob
        (poll by_code (run by_code (poll by_code [] (at 100)).users (at 200 ∷ [])) (at 300)).calls)
    ≡ false
terminated_once_example =
    terminated_once by_code [] (at 100) (at 200 ∷ []) (at 300) bob (codes "1") ends_first not_failed
      (over_still, tt)

-- A host on which every session is recorded.
abbrev host : Host
host = record { collects = true; reads = some three; takes = λ s. true }

abbrev idle : Worker
idle = record { running = false; last_relay_check = 5; last_sessions = [] }

tick-enforces_example :
    (any is_enforcement (tick host 10 idle).1 ≡ every host.takes three)
    × (every host.takes three ≡ true
        → (tick host 10 idle).1
          ≡ (before_sessions host 10 idle ++ reads_sessions ∷ [])
            ++ (map records three ++ enforces three ∷ []))
tick-enforces_example = tick-enforces host 10 idle three refl refl
