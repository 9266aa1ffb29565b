-- ===== src/Reconcile/Passes.antt =====
-- One pass of `reconcile` and runs of passes: whom it terminates, when, and how often.
use Prim.Native.Nat.{Ordering}
use zvpn.Base.{
  ℕ, suc, ◌+◌, ◌-◌, ◌≤◌, ◌<◌, ◌≡◌, ◌≢◌, refl, not, Option, none, some, List, [], ◌∷◌, ◌++◌, map,
  Text, ◌===◌, get, arith, length, Option-cases, inl, inr, ap, ◌∙◌, sym, length-keep-le,
}
use zvpn.Reconcile.Sessions.{Session, Policy, id_of, limit_of, select_excess_sessions}
use zvpn.Reconcile.{
  Hooks, Attempt, UserState, Limits, Pass, state_of, resolve_limit, waits, mine_of, group,
  drop_gone, drop_calls, reconcile,
}
use zvpn.Reconcile.Select.{length-select}
use zvpn.Reconcile.Due.{terminated, due, first_uses}
use zvpn.Reconcile.Groups.{
  snapshot_of, group-mine, group-Distinct, carry, get-drop_gone, terminated-drop_calls,
}
use zvpn.Reconcile.Users.{wanted, Settled, loop-none, loop-some}

length-first_uses : (xs : List Text) → length (first_uses xs) ≤ length xs
length-first_uses [] = omega arith
length-first_uses (x ∷ xs) =
    omega (arith, length-first_uses xs, length-keep-le {0} (λ y. not (x === y)) (first_uses xs))

length-map {ℓ κ} :
    {A : Type ℓ} {B : Type κ} (f : A → B) (xs : List A) → length (map f xs) ≡ length xs
length-map f [] = refl
length-map f (x ∷ xs) = ap suc (length-map f xs)

limit_of-resolve_limit :
    (limits : Limits) (u : Text) → limit_of (some (resolve_limit limits u)) ≡ resolve_limit limits u
unfolding resolve_limit limit_of
limit_of-resolve_limit limits u = ground arith

module _ (locale_compare : Text → Text → Ordering) (h : Hooks) (now : ℕ) (r : 0 < h.retry_ms)
    (limits : Limits) (policy : Policy) where
  abbrev pass : List (Text × UserState) → List Session → Pass
  pass = reconcile locale_compare h now limits policy

  abbrev needed : Text → Option UserState → List Session → List Text
  needed = wanted locale_compare h now r limits policy

  abbrev Leaves : Text → Option UserState → List Session → Option UserState → Type 0
  Leaves = Settled locale_compare h now r limits policy

  needed_nil : (u : Text) (o : Option UserState) → needed u o [] ≡ []
  needed_nil u o = ground arith

  -- Where the retry time is positive, one pass treats each user by itself: it terminates the ids
  -- that `wanted` computes from the user's own sessions and what is left of its state, in order,
  -- and leaves the state that `Settled` describes.
  pub reconcile_lem :
      (users : List (Text × UserState)) (sessions : List Session) (u : Text)
      → let mine = snapshot_of u sessions in
        let before = carry mine (get u users) in
        (terminated u (pass users sessions).calls ≡ needed u before mine)
        × Leaves u before mine (get u (pass users sessions).users)
  unfolding reconcile get
  reconcile_lem users sessions u = elim (Option-cases (get u by_user)) [
    | inl gone ↦
        let (calls, kept) = loop-none locale_compare h now r limits policy u start by_user gone in
        rw (mine_none gone) (
          calls
              ∙ terminated-drop_calls h u by_user users
              ∙ sym (needed_nil u (carry [] (get u users))),
          inl (omega arith, kept ∙ get-drop_gone u by_user users ∙ rw gone),
        )
    | inr (l, found) ↦ rw (← mine_some l found) (turn l found)
  ]
    where
      by_user : List (Text × List Session)
      by_user = group [] sessions

      start : Pass
      start = record {
        users = drop_gone by_user users;
        actions = [];
        calls = drop_calls h by_user users;
      }

      mine_none : get u by_user ≡ none → snapshot_of u sessions ≡ []
      mine_none e = sym (group-mine u [] sessions) ∙ ap mine_of e

      mine_some : (l : List Session) → get u by_user ≡ some l → l ≡ snapshot_of u sessions
      mine_some l e = sym (ap mine_of e) ∙ group-mine u [] sessions

      turn :
          (l : List Session)
          → get u by_user ≡ some l
          → (terminated u (pass users sessions).calls ≡ needed u (carry l (get u users)) l)
            × Leaves u (carry l (get u users)) l (get u (pass users sessions).users)
      turn l found =
          let (calls, settled) =
            loop-some locale_compare h now r limits policy u start by_user l
              (group-Distinct [] sessions tt) found in
          let came : get u start.users ≡ carry l (get u users) =
            get-drop_gone u by_user users ∙ (rw found) in
          (
            calls
                ∙ ap (λ c. c ++ needed u (get u start.users) l)
                    (terminated-drop_calls h u by_user users)
                ∙ ap (λ o. needed u o l) came,
            rw came at settled,
          )

  due-le_excess :
      (u : Text) (terms : List (Text × Attempt)) (mine : List Session)
      → length (
          due h now terms (
            map id_of
              (select_excess_sessions locale_compare mine (some (resolve_limit limits u)) policy)))
        ≤ length mine - resolve_limit limits u
  due-le_excess u terms mine =
      let excess =
        select_excess_sessions locale_compare mine (some (resolve_limit limits u)) policy in
      omega (
        arith,
        length-keep-le {0} (λ id. not (waits h now (get id terms))) (first_uses (map id_of excess)),
        length-first_uses (map id_of excess),
        length-map {0, 0} id_of excess,
        length-select locale_compare mine (some (resolve_limit limits u)) policy,
        limit_of-resolve_limit limits u,
      )

  needed-le_excess :
      (u : Text) (o : Option UserState) (mine : List Session)
      → length (needed u o mine) ≤ length mine - resolve_limit limits u
  needed-le_excess u o mine = ground (arith, due-le_excess u (state_of h now u o).terminations mine)

  needed_cause :
      (u : Text) (o : Option UserState) (mine : List Session)
      → needed u o mine ≢ []
      → (resolve_limit limits u < length mine)
        × ((state_of h now u o).over_limit_since + h.grace_ms ≤ now)
  needed_cause u o mine ne = ground arith

  module _ (users : List (Text × UserState)) (sessions : List Session) (u : Text) where
    -- Where the retry time is positive, `terminate` is called for a user in a pass at most as
    -- often as the user has sessions above its limit.
    pub terminated-le_excess :
        length (terminated u (pass users sessions).calls)
        ≤ length (snapshot_of u sessions) - resolve_limit limits u
    terminated-le_excess =
        rw (reconcile_lem users sessions u).0 (
          needed-le_excess u (carry (snapshot_of u sessions) (get u users))
            (snapshot_of u sessions))

    -- Where the retry time is positive, a termination for a user means that the user has more
    -- sessions than its limit, and that the grace period has passed since the instant that its
    -- state gives as the start of the excess.
    pub terminated_after_grace :
        terminated u (pass users sessions).calls ≢ []
        → let mine = snapshot_of u sessions in
          (resolve_limit limits u < length mine)
          × ((state_of h now u (carry mine (get u users))).over_limit_since + h.grace_ms ≤ now)
    terminated_after_grace ne =
        needed_cause u (carry (snapshot_of u sessions) (get u users)) (snapshot_of u sessions)
          (λ e. ne ((reconcile_lem users sessions u).0 ∙ e))
