-- ===== src/Reconcile/Grace.antt =====
-- The grace period over several passes: it is counted from the first pass that saw the user over
-- its limit.
use Prim.Native.Nat.{Ordering}
use zvpn.Base.{
  ◌∙◌, ◌⊎◌, ℕ, ◌+◌, ◌<◌, ◌≡◌, ◌≢◌, refl, Option, none, some, List, [], ◌∷◌, Text, get, arith,
  length, All, inl, inr,
}
use zvpn.Reconcile.{Hooks, init, UserState, Limits, state_of, since_of, load, resolve_limit}
use zvpn.Reconcile.Sessions.{Session, Policy}
use zvpn.Reconcile.Due.{terminated}
use zvpn.Reconcile.Groups.{snapshot_of, carry}
use zvpn.Reconcile.Users.{Settled}
use zvpn.Reconcile.Passes.{reconcile_lem, terminated_after_grace}
use zvpn.Reconcile.Once.{Poll, poll, run, init_retry}

nil-cases {ℓ} : {A : Type ℓ} (xs : List A) → (xs ≡ []) ⊎ (xs ≢ [])
nil-cases [] = inl refl
nil-cases (x ∷ xs) = inr (λ e. cc)

-- The user has state, and its excess began at the instant.
abbrev pub Since : Text → ℕ → List (Text × UserState) → Type 0
Since u t users = (state : UserState) × (get u users ≡ some state) × (state.over_limit_since ≡ t)

abbrev pub IsOver : Text → Poll → Type 0
IsOver u q = resolve_limit q.limits u < length (snapshot_of u q.sessions)

module _ (h : Hooks) (now : ℕ) where
  state_of-carry :
      (u : Text) (o : Option UserState) (mine : List Session) (t : ℕ)
      → (s : UserState) × (o ≡ some s) × (s.over_limit_since ≡ t)
      → (state_of h now u (carry mine o)).over_limit_since ≡ t
  unfolding state_of
  state_of-carry u o mine t (s, e, k) = rw e k

  Settled-since :
      (lc : Text → Text → Ordering) (r : 0 < h.retry_ms) (limits : Limits) (policy : Policy)
      → (u : Text) (o after : Option UserState) (mine : List Session)
      → Settled lc h now r limits policy u o mine after
      → resolve_limit limits u < length mine
      → (s : UserState) × (after ≡ some s)
        × (s.over_limit_since ≡ (state_of h now u o).over_limit_since)
  Settled-since lc r limits policy u o after mine (inl (within, _)) over = absurd (omega arith)
  Settled-since lc r limits policy u o after mine (inr (_, (s, e, k, _))) over = (s, e, k)

module _ (locale_compare : Text → Text → Ordering) where
  -- A pass over the limit leaves the instant that it used.
  poll_leaves :
      (users : List (Text × UserState)) (q : Poll) (u : Text) (t : ℕ)
      → IsOver u q
      → (state_of
          (init q.options)
          q.now
          u
          (carry (snapshot_of u q.sessions) (get u users))).over_limit_since
        ≡ t
      → Since u t (poll locale_compare users q).users
  unfolding poll
  poll_leaves users q u t over e =
      let (s, at, k) =
        Settled-since (init q.options) q.now locale_compare (init_retry q.options) q.limits q.policy
          u _ _ (snapshot_of u q.sessions)
          (reconcile_lem locale_compare (init q.options) q.now (init_retry q.options) q.limits
            q.policy users q.sessions u).1
          over in
      (s, at, k ∙ e)

  run-Since :
      (users : List (Text × UserState)) (polls : List Poll) (u : Text) (t : ℕ)
      → All (IsOver u) polls
      → Since u t users
      → Since u t (run locale_compare users polls)
  unfolding run
  run-Since users [] u t over s = s
  run-Since users (q ∷ polls) u t over s =
      run-Since (poll locale_compare users q).users polls u t over.1 (
        poll_leaves users q u t over.0
          (state_of-carry (init q.options) q.now u (get u users) (snapshot_of u q.sessions) t s))

  -- A user that had no state when a pass found it over its limit, and no stored one either, is
  -- not terminated by a later pass within the grace period from then, if it was over its limit in
  -- every pass in between.
  pub grace_from_first_seen :
      (users : List (Text × UserState)) (first : Poll) (between : List Poll) (last : Poll)
      (u : Text)
      → get u users ≡ none
      → load (init first.options) u ≡ none
      → IsOver u first
      → All (IsOver u) between
      → last.now < first.now + (init last.options).grace_ms
      → terminated u
          (poll locale_compare
            (run locale_compare (poll locale_compare users first).users between)
            last).calls
        ≡ []
  unfolding poll state_of since_of
  grace_from_first_seen users first between last u fresh unstored over still early =
      elim (nil-cases (terminated u (poll locale_compare now_users last).calls)) [
        | inl e ↦ e
        | inr ne ↦
            let (_, passed) =
              terminated_after_grace locale_compare (init last.options) last.now
                (init_retry last.options) last.limits last.policy now_users last.sessions u ne in
            absurd (
              omega (
                arith,
                state_of-carry (init last.options) last.now u (get u now_users)
                    (snapshot_of u last.sessions) first.now
                    (run-Since (poll locale_compare users first).users between u first.now still
                      (poll_leaves users first u first.now over (rw (fresh, unstored) refl))),
              ))
      ]
    where
      now_users : List (Text × UserState)
      now_users = run locale_compare (poll locale_compare users first).users between
