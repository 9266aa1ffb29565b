-- ===== src/Reconcile/Once.antt =====
-- An SA that was ended is not terminated again for as long as it is still reported.
use Prim.Native.Nat.{Ordering}
use zvpn.Base.{
  ℕ, ◌<◌, ◌≡◌, ◌≢◌, ◌⊎◌, refl, Bool, true, false, not, ◌||◌, Option, none, some, List, [], ◌∷◌, map,
  Text, ◌===◌, ===_iff, get, arith, if◌then◌else◌, length, keep, any, All, Bool-cases, inl, inr, ap,
  ◌∙◌,
}
use zvpn.Reconcile.Sessions.{Session, Policy, id_of, select_excess_sessions}
use zvpn.Reconcile.{
  Hooks, init, Attempt, UserState, Outcome, ended, already_gone, failed, Limits, Pass, state_of,
  resolve_limit, waits, attempt_of, forget, reconcile,
}
use zvpn.Reconcile.Select.{any-select}
use zvpn.Reconcile.Due.{terminated, due, first_uses}
use zvpn.Reconcile.Groups.{snapshot_of, carry}
use zvpn.Reconcile.Users.{wanted, Settled}
use zvpn.Reconcile.Passes.{reconcile_lem}

abbrev pub contains : Text → List Text → Bool
contains id = any λ x. x === id

abbrev pub reports : Text → List Session → Bool
reports id = any λ s. id_of s === id

get-forget :
    (mine : List Session) (terms : List (Text × Attempt)) (id : Text)
    → get id (forget mine terms) ≡ (if reports id mine then get id terms else none)
unfolding forget get
get-forget mine [] id = ground arith
get-forget mine ((j, a) ∷ terms) id = elim (Bool-cases (j === id)) [
  | inl same ↦ rw ((===_iff j id).0 same) (ground (arith, get-forget mine terms id))
  | inr other ↦ ground (arith, get-forget mine terms id)
]

contains-keep :
    (p : Text → Bool) (id : Text) (xs : List Text)
    → (p id ≡ false) ⊎ (contains id xs ≡ false)
    → contains id (keep p xs) ≡ false
contains-keep p id [] h = refl
contains-keep p id (x ∷ xs) (inl h) = elim (Bool-cases (x === id)) [
  | inl same ↦ rw ((===_iff x id).0 same, h) (contains-keep p id xs (inl h))
  | inr other ↦ ground (arith, contains-keep p id xs (inl h))
]
contains-keep p id (x ∷ xs) (inr h) =
    ground (arith, λ (e : contains id xs ≡ false). contains-keep p id xs (inr e))

contains-first_uses :
    (id : Text) (xs : List Text) → contains id xs ≡ false → contains id (first_uses xs) ≡ false
contains-first_uses id [] h = refl
contains-first_uses id (x ∷ xs) h = ground (
  arith,
  contains-first_uses id xs,
  λ (e : contains id (first_uses xs) ≡ false).
      contains-keep (λ y. not (x === y)) id (first_uses xs) (inr e),
)

contains-map :
    (id : Text) (sessions : List Session) → contains id (map id_of sessions) ≡ reports id sessions
contains-map id [] = refl
contains-map id (s ∷ sessions) = ap (λ b. id_of s === id || b) (contains-map id sessions)

-- The user's state says that the SA was ended.
abbrev pub Ended : Text → Text → Option UserState → Type 0
Ended u id o =
    (state : UserState) × (a : Attempt) × (o ≡ some state)
    × (get id state.terminations ≡ some a)
    × (a.ok ≡ true)

module _ (locale_compare : Text → Text → Ordering) (h : Hooks) (now : ℕ) (r : 0 < h.retry_ms)
    (limits : Limits) (policy : Policy) where
  abbrev needed : Text → Option UserState → List Session → List Text
  needed = wanted locale_compare h now r limits policy

  due_ended :
      (id : Text) (terms : List (Text × Attempt)) (ids : List Text) (a : Attempt)
      → get id terms ≡ some a
      → a.ok ≡ true
      → contains id (due h now terms ids) ≡ false
  unfolding waits
  due_ended id terms ids a e k =
      contains-keep (λ x. not (waits h now (get x terms))) id (first_uses ids)
        (inl (rw e (ground arith)))

  due_absent :
      (id : Text) (terms : List (Text × Attempt)) (ids : List Text)
      → contains id ids ≡ false
      → contains id (due h now terms ids) ≡ false
  due_absent id terms ids e =
      contains-keep (λ x. not (waits h now (get x terms))) id (first_uses ids)
        (inr (contains-first_uses id ids e))

  -- An SA that was ended is not wanted.
  Ended-needed :
      (u id : Text) (o : Option UserState) (mine : List Session)
      → Ended u id o
      → contains id (needed u (carry mine o) mine) ≡ false
  unfolding state_of
  Ended-needed u id o mine (state, a, e, g, k) = rw e (ground (arith, not_due))
    where
      excess : List Session
      excess = select_excess_sessions locale_compare mine (some (resolve_limit limits u)) policy

      not_due : contains id (due h now (forget mine state.terminations) (map id_of excess)) ≡ false
      not_due = elim (Bool-cases (reports id mine)) [
        | inl here ↦
            due_ended id (forget mine state.terminations) (map id_of excess) a
              (get-forget mine state.terminations id ∙ rw here g) k
        | inr away ↦ due_absent id (forget mine state.terminations) (map id_of excess) (
            contains-map id excess
            ∙ any-select locale_compare (λ s. id_of s === id) mine _ policy away)
      ]

  abbrev pass : List (Text × UserState) → List Session → Pass
  pass = reconcile locale_compare h now limits policy

  -- An SA that was ended is not among those that a pass terminates.
  pub Ended-terminated :
      (users : List (Text × UserState)) (sessions : List Session) (u id : Text)
      → Ended u id (get u users)
      → contains id (terminated u (pass users sessions).calls) ≡ false
  Ended-terminated users sessions u id e =
      rw (reconcile_lem locale_compare h now r limits policy users sessions u).0
        (Ended-needed u id (get u users) (snapshot_of u sessions) e)

  attempt_ok : (o : Outcome) → ((e : Text) → o ≢ failed e) → (attempt_of now o).ok ≡ true
  unfolding attempt_of
  attempt_ok ended ne = refl
  attempt_ok already_gone ne = refl
  attempt_ok (failed e) ne = absurd (ne e refl)

  Settled-Ended :
      (u id : Text) (o after : Option UserState) (mine : List Session)
      → Settled locale_compare h now r limits policy u o mine after
      → contains id (needed u o mine) ≡ true
      → ((e : Text) → h.terminate id ≢ failed e)
      → Ended u id after
  Settled-Ended u id o after mine (inl (within, _)) c ne = absurd (ground arith)
  Settled-Ended u id o after mine (inr (over, (state, e, _, terms))) c ne =
      (state, attempt_of now (h.terminate id), e, terms id ∙ (rw c), attempt_ok (h.terminate id) ne)

  -- A call of `terminate` that did not throw leaves the SA marked as ended.
  pub terminated-Ended :
      (users : List (Text × UserState)) (sessions : List Session) (u id : Text)
      → contains id (terminated u (pass users sessions).calls) ≡ true
      → ((e : Text) → h.terminate id ≢ failed e)
      → Ended u id (get u (pass users sessions).users)
  terminated-Ended users sessions u id c ne =
      let (calls, settled) = reconcile_lem locale_compare h now r limits policy users sessions u in
      Settled-Ended u id _ _ _ settled (rw calls at c) ne

  Settled-stays :
      (u id : Text) (o after : Option UserState) (mine : List Session)
      → Settled locale_compare h now r limits policy u (carry mine o) mine after
      → reports id mine ≡ true
      → resolve_limit limits u < length mine
      → Ended u id o
      → Ended u id after
  unfolding state_of
  Settled-stays u id o after mine (inl (within, _)) here over e = absurd (omega arith)
  Settled-stays u id o after mine (inr (_, (state, e, _, terms))) here over (s, a, eo, g, k) =
      let spared = Ended-needed u id o mine (s, a, eo, g, k) in
      let kept : get id (state_of h now u (carry mine o)).terminations ≡ some a =
        rw eo (get-forget mine s.terminations id ∙ rw here g) in
      (state, a, e, terms id ∙ (rw spared kept), k)

  -- The mark stays while the SA is reported and the user is over its limit.
  pub pass-Ended :
      (users : List (Text × UserState)) (sessions : List Session) (u id : Text)
      → reports id (snapshot_of u sessions) ≡ true
      → resolve_limit limits u < length (snapshot_of u sessions)
      → Ended u id (get u users)
      → Ended u id (get u (pass users sessions).users)
  pass-Ended users sessions u id here over e =
      Settled-stays u id (get u users) _ (snapshot_of u sessions)
        (reconcile_lem locale_compare h now r limits policy users sessions u).1 here over e

-- What one pass is given: the reconciler's options, with the answers of this pass, and a snapshot.
pub record Poll : Type 0 where
  pub options : Hooks
  pub now : ℕ
  pub limits : Limits
  pub policy : Policy
  pub sessions : List Session

pub init_retry : (o : Hooks) → 0 < (init o).retry_ms
unfolding init
init_retry o = omega arith

module _ (locale_compare : Text → Text → Ordering) where
  unfoldable pub poll : List (Text × UserState) → Poll → Pass
  poll users q = reconcile locale_compare (init q.options) q.now q.limits q.policy users q.sessions

  unfoldable pub run : List (Text × UserState) → List Poll → List (Text × UserState)
  unfolding poll
  run users [] = users
  run users (q ∷ polls) = run (poll users q).users polls

  -- The SA is still reported, and the user is over its limit.
  abbrev pub StillOver : Text → Text → Poll → Type 0
  StillOver u id q =
      (reports id (snapshot_of u q.sessions) ≡ true)
      × (resolve_limit q.limits u < length (snapshot_of u q.sessions))

  run-Ended :
      (users : List (Text × UserState)) (polls : List Poll) (u id : Text)
      → All (StillOver u id) polls
      → Ended u id (get u users)
      → Ended u id (get u (run users polls))
  unfolding run poll
  run-Ended users [] u id still e = e
  run-Ended users (q ∷ polls) u id still e = run-Ended (poll users q).users polls u id still.1 (
      pass-Ended locale_compare (init q.options) q.now (init_retry q.options) q.limits q.policy
        users q.sessions u id still.0.0 still.0.1 e)

  -- Once a pass has called `terminate` for an SA of a user and the call has not thrown, no later
  -- pass calls it for that user and SA, as long as every pass in between still reported the SA
  -- among the user's sessions and had the user over its limit.
  pub terminated_once :
      (users : List (Text × UserState)) (first : Poll) (between : List Poll) (last : Poll)
      → (u id : Text) → contains id (terminated u (poll users first).calls) ≡ true
      → ((e : Text) → first.options.terminate id ≢ failed e)
      → All (StillOver u id) between
      → contains id (terminated u (poll (run (poll users first).users between) last).calls) ≡ false
  unfolding poll init
  terminated_once users first between last u id c ne still =
      Ended-terminated locale_compare (init last.options) last.now (init_retry last.options)
        last.limits last.policy _ last.sessions u id
        (run-Ended (poll users first).users between u id still (
          terminated-Ended locale_compare (init first.options) first.now (init_retry first.options)
            first.limits first.policy users first.sessions u id c ne))
