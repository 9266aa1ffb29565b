-- ===== src/Reconcile.antt =====
-- backend/src/services/sessionReconciler.js: `reconcile`, one pass over a snapshot. The state is
-- the `users` map; the awaited callbacks are the calls that the pass emits, in order, and their
-- answers are arguments. Times are milliseconds.
pub mod Sessions
pub mod Select
pub mod Due
pub mod Groups
pub mod Users
pub mod Passes
pub mod Once
pub mod Grace
use zvpn.Base.{
  ℕ, ◌+◌, ◌-◌, ◌*◌, ◌≡◌, Bool, true, false, ◌&&◌, ◌||◌, not, Option, none, some, List, [], ◌∷◌,
  ◌++◌, map, reverse, Text, codes, ◌===◌, is_empty, get, put, delete, ltb, leb, ◌==◌, if◌then◌else◌,
  length, keep, any, max,
}
use Prim.Native.Nat.{Ordering}
use Sessions.{Session, Policy, id_of, limit_of, select_excess_sessions}

pub record Attempt : Type 0 where
  pub ok : Bool
  pub at : ℕ

pub record UserState : Type 0 where
  pub over_limit_since : ℕ
  pub terminations : List (Text × Attempt)

-- What the awaited `terminate` did: it ended the SA, found none, or threw.
pub data Outcome : Type 0 where
  ended : Outcome
  already_gone : Outcome
  failed : Text → Outcome

-- `overLimitSince` of a stored row: a date or a text (`none` is an invalid one), or a number.
pub data Persisted : Type 0 where
  date : Option ℕ → Persisted
  text : Option ℕ → Persisted
  number : Option ℕ → Persisted

pub record Hooks : Type 0 where
  pub grace_ms : ℕ
  pub retry_ms : ℕ
  -- the answer for an id during this pass
  pub terminate : Text → Outcome
  -- `none` where the callback was not given; a rejected load answers `none`
  pub load_state : Option (Text → Option Persisted)
  pub save_state : Bool
  pub delete_state : Bool

-- What the constructor makes of its numbers.
unfoldable pub init : Hooks → Hooks
init o = record o { retry_ms = max 1000 o.retry_ms }

pub data Limits : Type 0 where
  by_function : (Text → Option ℕ) → Limits
  by_map : List (Text × ℕ) → Limits
  by_object : List (Text × ℕ) → Limits

unfoldable pub lookup_limit : Limits → Text → Option ℕ
lookup_limit (by_function f) username = f username
lookup_limit (by_map m) username = get username m
lookup_limit (by_object m) username = get username m

unfoldable pub resolve_limit : Limits → Text → ℕ
unfolding lookup_limit limit_of
resolve_limit limits username = limit_of (lookup_limit limits username)

pub data Action : Type 0 where
  -- username, count, max, remainingMs
  grace : Text → ℕ → ℕ → ℕ → Action
  -- username, ikeId, policy
  terminate : Text → Text → Policy → Action
  already_gone : Text → Text → Policy → Action
  -- username, ikeId, error
  terminate_error : Text → Text → Text → Action

pub data Call : Type 0 where
  terminates : Text → Text → Call
  saves : Text → ℕ → ℕ → Call
  deletes : Text → Call

is_space : ℕ → Bool
is_space c =
    leb 9 c && leb c 13
    || c == 32
    || c == 160
    || c == 5760
    || leb 8192 c && leb c 8202
    || c == 8232
    || c == 8233
    || c == 8239
    || c == 8287
    || c == 12288
    || c == 65279

trim_start : Text → Text
trim_start [] = []
trim_start (c ∷ t) = if is_space c then trim_start t else c ∷ t

unfoldable pub trim : Text → Text
unfolding is_space trim_start
trim t = reverse (trim_start (reverse (trim_start t)))

-- `String(session?.remoteId || '').trim()`
unfoldable pub username_of : Session → Text
username_of s = elim s.remote_id [ none ↦ [] | some t ↦ trim t ]

abbrev pub mine_of : Option (List Session) → List Session
mine_of none = []
mine_of (some l) = l

-- One turn of the loop that fills `byUser`.
unfoldable pub add_session : List (Text × List Session) → Session → List (Text × List Session)
unfolding get put
add_session by_user s =
    if is_empty (username_of s) || is_empty (id_of s)
    then by_user
    else put (username_of s) (mine_of (get (username_of s) by_user) ++ s ∷ []) by_user

unfoldable pub group : List (Text × List Session) → List Session → List (Text × List Session)
unfolding add_session
group by_user [] = by_user
group by_user (s ∷ sessions) = group (add_session by_user s) sessions

-- The SAs that are gone from the snapshot are forgotten.
unfoldable pub forget : List Session → List (Text × Attempt) → List (Text × Attempt)
forget mine = keep λ e. any (λ s. id_of s === e.0) mine

abbrev pub deletion : Hooks → Text → List Call
deletion h username = if h.delete_state then deletes username ∷ [] else []

-- The first loop, over the users that have state.
unfoldable pub drop_gone :
    List (Text × List Session) → List (Text × UserState) → List (Text × UserState)
unfolding forget
drop_gone by_user [] = []
drop_gone by_user ((username, state) ∷ users) = elim (get username by_user) [
  | none ↦ drop_gone by_user users
  | some mine ↦
      (username, record state { terminations = forget mine state.terminations })
      ∷ drop_gone by_user users
]

unfoldable pub drop_calls : Hooks → List (Text × List Session) → List (Text × UserState) → List Call
drop_calls h by_user [] = []
drop_calls h by_user ((username, state) ∷ users) = elim (get username by_user) [
  | none ↦ deletion h username ++ drop_calls h by_user users
  | some mine ↦ drop_calls h by_user users
]

-- The instant that a stored row gives, `now` where it gives none.
unfoldable pub since_of : ℕ → Option Persisted → ℕ
since_of now none = now
since_of now (some (date none)) = now
since_of now (some (date (some t))) = t
since_of now (some (text none)) = now
since_of now (some (text (some t))) = t
since_of now (some (number none)) = now
since_of now (some (number (some t))) = if t == 0 then now else t

unfoldable pub load : Hooks → Text → Option Persisted
load h username = elim h.load_state [ none ↦ none | some f ↦ f username ]

-- The state of a user that has one in `users`, and of one that has none.
unfoldable pub state_of : Hooks → ℕ → Text → Option UserState → UserState
unfolding since_of load
state_of h now username (some state) = state
state_of h now username none = record {
  over_limit_since = since_of now (load h username);
  terminations = [];
}

-- `previous?.ok`, or a failure younger than `retryMs`: this SA is left alone.
unfoldable pub waits : Hooks → ℕ → Option Attempt → Bool
waits h now previous = elim previous [ none ↦ false | some p ↦ p.ok || ltb now (p.at + h.retry_ms) ]

unfoldable pub attempt_of : ℕ → Outcome → Attempt
attempt_of now (failed e) = record { ok = false; at = now }
attempt_of now ended = record { ok = true; at = now }
attempt_of now already_gone = record { ok = true; at = now }

unfoldable pub action_of : Text → Text → Policy → Outcome → Action
action_of username ike_id policy ended = Action.terminate username ike_id policy
action_of username ike_id policy already_gone = Action.already_gone username ike_id policy
action_of username ike_id policy (failed e) = terminate_error username ike_id e

pub record Pass : Type 0 where
  pub users : List (Text × UserState)
  pub actions : List Action
  pub calls : List Call

pub record Progress : Type 0 where
  pub terminations : List (Text × Attempt)
  pub actions : List Action
  pub calls : List Call

module _ (h : Hooks) (now : ℕ) (username : Text) (policy : Policy) where
  -- The body of the loop over the excess sessions.
  unfoldable pub terminate_one : Progress → Session → Progress
  unfolding waits attempt_of action_of
  terminate_one p s =
      let ike_id = id_of s in
      let outcome = h.terminate ike_id in
      if waits h now (get ike_id p.terminations) then p else record {
        terminations = put ike_id (attempt_of now outcome) p.terminations;
        actions = p.actions ++ action_of username ike_id policy outcome ∷ [];
        calls = p.calls ++ terminates username ike_id ∷ [];
      }

  unfoldable pub terminate_all : Progress → List Session → Progress
  unfolding terminate_one
  terminate_all p [] = p
  terminate_all p (s ∷ extras) = terminate_all (terminate_one p s) extras

abbrev pub saving : Hooks → ℕ → Text → ℕ → List Call
saving h now username since = if h.save_state then saves username since now ∷ [] else []

module _ (locale_compare : Text → Text → Ordering) (h : Hooks) (now : ℕ) where
  module _ (limits : Limits) (policy : Policy) where
    -- The rest of the body of the second loop, once the grace period is over.
    unfoldable pub enforce : Pass → Text → List Session → UserState → Pass
    unfolding terminate_all resolve_limit
    enforce p username mine state =
        let extras =
          select_excess_sessions locale_compare mine (some (resolve_limit limits username))
            policy in
        let done =
          terminate_all h now username policy
            (record { terminations = state.terminations; actions = p.actions; calls = p.calls })
            extras in
        record {
          users = put username (record state { terminations = done.terminations }) p.users;
          actions = done.actions;
          calls = done.calls ++ saving h now username state.over_limit_since;
        }

    -- The body of the second loop.
    unfoldable pub reconcile_user : Pass → Text × List Session → Pass
    unfolding enforce state_of resolve_limit
    reconcile_user p (username, mine) =
        let limit = resolve_limit limits username in
        let state = state_of h now username (get username p.users) in
        if leb (length mine) limit
        then record p { users = delete username p.users; calls = p.calls ++ deletion h username }
        else if ltb now (state.over_limit_since + h.grace_ms)
        then record p {
          users = put username state p.users;
          actions =
              p.actions
              ++ grace username (length mine) limit (h.grace_ms + state.over_limit_since - now)
                ∷ [];
        }
        else enforce p username mine state

    unfoldable pub reconcile_users : Pass → List (Text × List Session) → Pass
    unfolding reconcile_user
    reconcile_users p [] = p
    reconcile_users p (entry ∷ by_user) = reconcile_users (reconcile_user p entry) by_user

    unfoldable pub reconcile : List (Text × UserState) → List Session → Pass
    unfolding group drop_gone drop_calls reconcile_users
    reconcile users sessions =
        let by_user = group [] sessions in
        reconcile_users
          (record {
            users = drop_gone by_user users;
            actions = [];
            calls = drop_calls h by_user users;
          })
          by_user

-- `clear()`
unfoldable pub clear : List (Text × UserState) → List (Text × UserState)
clear users = []
