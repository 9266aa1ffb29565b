-- ===== src/Reconcile/Users.antt =====
-- The second loop of `reconcile`, seen from one user: each user's entry is treated on its own.
use Prim.Native.Nat.{Ordering}
use mathlib.Core.List.{append-nil}
use zvpn.Base.{
  ℕ, ◌+◌, ◌≤◌, ◌<◌, ◌≡◌, ◌≢◌, refl, Bool, true, false, Option, none, some, List, [], ◌∷◌, ◌++◌, map,
  Text, ◌===◌, ===_iff, get, get-put_self, get-put_ne, get-delete_self, get-delete_ne, Distinct,
  arith, ltb, leb, if◌then◌else◌, length, any, Bool-cases, inl, inr, ◌∙◌, sym, ◌⊎◌, leb→le,
}
use zvpn.Reconcile.Sessions.{Session, Policy, id_of, select_excess_sessions}
use zvpn.Reconcile.{
  Hooks, UserState, Limits, Call, saves, deletes, Pass, Progress, saving, deletion, state_of,
  resolve_limit, attempt_of, terminate_all, enforce, reconcile_user, reconcile_users,
}
use zvpn.Reconcile.Due.{
  terminated, terminated-append, due, terminate_all-calls, terminate_all-calls_ne,
  terminate_all-terminations,
}

get-nil : (u : Text) (mine : List Session) → get {V = List Session} u [] ≡ some mine → ⊥
unfolding get
get-nil u mine e = cc

not_head :
    (u v : Text) (mine : List Session) (by_user : List (Text × List Session))
    → get u ((v, mine) ∷ by_user) ≡ none
    → (v ≢ u) × (get u by_user ≡ none)
unfolding get
not_head u v mine by_user e = elim (Bool-cases (v === u)) [
  | inl same ↦ absurd (ground arith)
  | inr other ↦ (λ s. ground (arith, ===_iff v u), ground arith)
]

head_cases :
    (u v : Text) (l mine : List Session) (by_user : List (Text × List Session))
    → get u ((v, l) ∷ by_user) ≡ some mine
    → ((v ≡ u) × (l ≡ mine)) ⊎ ((v ≢ u) × (get u by_user ≡ some mine))
unfolding get
head_cases u v l mine by_user e = elim (Bool-cases (v === u)) [
  | inl same ↦ inl ((===_iff v u).0 same, ground arith)
  | inr other ↦ inr (λ s. ground (arith, ===_iff v u), ground arith)
]

module _ (locale_compare : Text → Text → Ordering) (h : Hooks) (now : ℕ) (r : 0 < h.retry_ms)
    (limits : Limits) (policy : Policy) where
  -- The ids that are to be terminated for a user, from its state and its sessions: none within the
  -- limit or the grace period, else the excess sessions that are not waiting.
  abbrev pub wanted : Text → Option UserState → List Session → List Text
  wanted u o mine =
      let limit = resolve_limit limits u in
      let state = state_of h now u o in
      if leb (length mine) limit
      then []
      else if ltb now (state.over_limit_since + h.grace_ms)
      then []
      else due h now state.terminations
          (map id_of (select_excess_sessions locale_compare mine (some limit) policy))

  -- The state of a user after the pass: none within the limit; over it, the old start of the
  -- excess, and the attempts of this pass beside the old ones.
  abbrev pub Settled : Text → Option UserState → List Session → Option UserState → Type 0
  Settled u o mine after =
      ((length mine ≤ resolve_limit limits u) × (after ≡ none))
      ⊎ ((resolve_limit limits u < length mine)
          × ((state : UserState) × (after ≡ some state)
              × (state.over_limit_since ≡ (state_of h now u o).over_limit_since)
              × ((id : Text)
                  → get id state.terminations ≡ (
                      if any (λ x. x === id) (wanted u o mine)
                      then some (attempt_of now (h.terminate id))
                      else get id (state_of h now u o).terminations))))

  terminated-deletion :
      (u v : Text) (calls : List Call) → terminated v (calls ++ deletion h u) ≡ terminated v calls
  unfolding terminated
  terminated-deletion u v calls =
      terminated-append v calls (deletion h u) ∙ none_asked h.delete_state
    where
      none_asked :
          (b : Bool)
          → terminated v calls ++ terminated v (if b then deletes u ∷ [] else [])
            ≡ terminated v calls
      none_asked true = append-nil (terminated v calls)
      none_asked false = append-nil (terminated v calls)

  terminated-saving :
      (u v : Text) (since : ℕ) (calls : List Call)
      → terminated v (calls ++ saving h now u since) ≡ terminated v calls
  unfolding terminated
  terminated-saving u v since calls =
      terminated-append v calls (saving h now u since) ∙ none_asked h.save_state
    where
      none_asked :
          (b : Bool)
          → terminated v calls ++ terminated v (if b then saves u since now ∷ [] else [])
            ≡ terminated v calls
      none_asked true = append-nil (terminated v calls)
      none_asked false = append-nil (terminated v calls)

  module _ (u : Text) (p : Pass) (mine : List Session) where
    abbrev step : Pass
    step = reconcile_user locale_compare h now limits policy p (u, mine)

    abbrev state : UserState
    state = state_of h now u (get u p.users)

    abbrev extras : List Session
    extras = select_excess_sessions locale_compare mine (some (resolve_limit limits u)) policy

    abbrev done : Progress
    done =
        terminate_all h now u policy
          (record { terminations = state.terminations; actions = p.actions; calls = p.calls })
          extras

    abbrev enforced : UserState
    enforced = record state { terminations = done.terminations }

    -- The calls of one user's turn.
    step-calls : terminated u step.calls ≡ terminated u p.calls ++ wanted u (get u p.users) mine
    unfolding reconcile_user enforce
    step-calls = elim (Bool-cases (leb (length mine) (resolve_limit limits u))) [
      | inl within ↦
          rw within (terminated-deletion u u p.calls ∙ sym (append-nil (terminated u p.calls)))
      | inr over ↦ elim (Bool-cases (ltb now (state.over_limit_since + h.grace_ms))) [
        | inl early ↦ rw (over, early) (sym (append-nil (terminated u p.calls)))
        | inr late ↦
            rw (over, late)
              (terminated-saving u u _ _ ∙ terminate_all-calls h now r u policy _ extras)
      ]
    ]

    -- The state that one user's turn leaves.
    step-Settled : Settled u (get u p.users) mine (get u step.users)
    unfolding reconcile_user enforce
    step-Settled = elim (Bool-cases (leb (length mine) (resolve_limit limits u))) [
      | inl within ↦ inl (leb→le _ _ within, rw within (get-delete_self u p.users))
      | inr over ↦ elim (Bool-cases (ltb now (state.over_limit_since + h.grace_ms))) [
        | inl early ↦ inr (
          ground arith,
          (state, rw (over, early) (get-put_self u state p.users), refl, λ id. rw (over, early)),
        )
        | inr late ↦ inr (
          ground arith,
          (
            enforced,
            rw (over, late) (get-put_self u enforced p.users),
            refl,
            λ id. rw (over, late) (terminate_all-terminations h now r u policy _ extras id),
          ),
        )
      ]
    ]

    module _ (v : Text) (ne : u ≢ v) where
      -- Nothing of it concerns another user.
      step-calls_ne : terminated v step.calls ≡ terminated v p.calls
      unfolding reconcile_user enforce
      step-calls_ne = elim (Bool-cases (leb (length mine) (resolve_limit limits u))) [
        | inl within ↦ rw within (terminated-deletion u v p.calls)
        | inr over ↦ elim (Bool-cases (ltb now (state.over_limit_since + h.grace_ms))) [
          | inl early ↦ rw (over, early)
          | inr late ↦
              rw (over, late)
                (terminated-saving u v _ _ ∙ terminate_all-calls_ne h now r u policy v _ extras ne)
        ]
      ]

      step-users_ne : get v step.users ≡ get v p.users
      unfolding reconcile_user enforce
      step-users_ne = elim (Bool-cases (leb (length mine) (resolve_limit limits u))) [
        | inl within ↦ rw within (get-delete_ne u v p.users ne)
        | inr over ↦ elim (Bool-cases (ltb now (state.over_limit_since + h.grace_ms))) [
          | inl early ↦ rw (over, early) (get-put_ne u v state p.users ne)
          | inr late ↦ rw (over, late) (get-put_ne u v enforced p.users ne)
        ]
      ]

  abbrev pub loop : Pass → List (Text × List Session) → Pass
  loop = reconcile_users locale_compare h now limits policy

  -- The whole loop leaves alone a user that is not among its entries.
  pub loop-none :
      (u : Text) (p : Pass) (by_user : List (Text × List Session))
      → get u by_user ≡ none
      → (terminated u (loop p by_user).calls ≡ terminated u p.calls)
        × (get u (loop p by_user).users ≡ get u p.users)
  unfolding reconcile_users
  loop-none u p [] e = (refl, refl)
  loop-none u p ((v, mine) ∷ by_user) e =
      let (ne, rest) = not_head u v mine by_user e in
      let (calls, users) = loop-none u (step v p mine) by_user rest in
      (calls ∙ step-calls_ne v p mine u ne, users ∙ step-users_ne v p mine u ne)

  -- A user that is among the entries once has its turn from the state that it came with.
  pub loop-some :
      (u : Text) (p : Pass) (by_user : List (Text × List Session)) (mine : List Session)
      → Distinct by_user
      → get u by_user ≡ some mine
      → (terminated u (loop p by_user).calls
          ≡ terminated u p.calls ++ wanted u (get u p.users) mine)
        × Settled u (get u p.users) mine (get u (loop p by_user).users)
  unfolding reconcile_users
  loop-some u p [] mine d e = absurd (get-nil u mine e)
  loop-some u p ((v, l) ∷ by_user) mine d e = elim (head_cases u v l mine by_user e) [
    | inl (same, e') ↦
        let (calls, users) = loop-none v (step v p l) by_user d.0 in
        rw (← same, ← e') (calls ∙ step-calls v p l, rw users (step-Settled v p l))
    | inr (ne, rest) ↦
        let (calls, settled) = loop-some u (step v p l) by_user mine d.1 rest in
        (
          rw (step-calls_ne v p l u ne, step-users_ne v p l u ne) at calls,
          rw (step-users_ne v p l u ne) at settled,
        )
  ]
