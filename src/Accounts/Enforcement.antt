-- ===== src/Accounts/Enforcement.antt =====
-- What a pass of `enforceQuotas` (backend/src/worker.js) leaves in the accounts, and how it divides
-- the sessions.
use mathlib.Core.List.{append_assoc, append-nil}
use zvpn.Base.{
  ℕ, ◌≡◌, refl, ap, sym, ◌∙◌, false, not, ◌||◌, Option, none, some, List, [], ◌∷◌, ◌++◌, Text,
  ◌===◌, ===_iff, ===_refl, get, put, Distinct, if◌then◌else◌, arith, Bool-cases, inl, inr,
}
use zvpn.Accounts.{Account, QuotaReason}
use zvpn.Accounts.Settled.{settled, settle_all, sessions_where, settled-username, settled-eligible}
use zvpn.Accounts.Quota.{
  block_reason, needs_update, set_quota, eligible_user, is_block, today_bytes, Enforced,
  sessions_of, ids_of, update_quota, sort_sessions, enforce_user, enforce_users,
}
use zvpn.Metering.Tables.{Usage}
use zvpn.Reconcile.{Outcome}
use zvpn.Reconcile.Sessions.{Session, id_of}

put-middle :
    (id : Text) (u v : Account) (done users : List (Text × Account))
    → get id done ≡ none
    → put id v (done ++ (id, u) ∷ users) ≡ done ++ (id, v) ∷ users
unfolding get put
put-middle id u v [] users h = rw (===_refl id)
put-middle id u v ((j, w) ∷ done) users h = elim (Bool-cases (j === id)) [
  | inl e ↦ ground arith
  | inr e ↦ rw e (ap (◌∷◌ (j, w)) (put-middle id u v done users (ground arith)))
]

ids_of-append : (xs ys : List Session) → ids_of (xs ++ ys) ≡ ids_of xs ++ ids_of ys
ids_of-append [] ys = refl
ids_of-append (x ∷ xs) ys = ap (◌∷◌ (id_of x)) (ids_of-append xs ys)

get-snoc :
    (j id : Text) (v : Account) (done : List (Text × Account))
    → get j done ≡ none
    → (id === j) ≡ false
    → get j (done ++ (id, v) ∷ []) ≡ none
unfolding get
get-snoc j id v [] h k = rw k
get-snoc j id v ((i, w) ∷ done) h k = ground (arith, get-snoc j id v done)

-- The accounts still to come are not among those that are done.
abbrev FreeOf : List (Text × Account) → List (Text × Account) → Type 0
FreeOf done users = (j : Text) (w : Account) → get j users ≡ some w → get j done ≡ none

FreeOf-head :
    (id : Text) (u : Account) (done users : List (Text × Account))
    → FreeOf done ((id, u) ∷ users)
    → get id done ≡ none
unfolding get
FreeOf-head id u done users f = f id u (rw (===_refl id))

FreeOf-tail :
    (id : Text) (u v : Account) (done users : List (Text × Account))
    → get id users ≡ none
    → FreeOf done ((id, u) ∷ users)
    → FreeOf (done ++ (id, v) ∷ []) users
unfolding get
FreeOf-tail id u v done users a f j w e = elim (Bool-cases (id === j)) [
  | inl s ↦ cc (ap (λ i. get i users) ((===_iff id j).0 s), a, e)
  | inr s ↦ get-snoc j id v done (f j w (rw s e)) s
]

module _ (now : ℕ) (terminate : Text → Outcome) (sessions : List Session) where
  sort_sessions-accounts :
      (e : Enforced) (id : Text) (u : Account) (r : Option QuotaReason)
      → (sort_sessions now terminate sessions e id u r).accounts ≡ e.accounts
  unfolding sort_sessions
  sort_sessions-accounts e id u r = elim (Bool-cases (not u.enabled || is_block r)) [
    | inl c ↦ rw c
    | inr c ↦ rw c
  ]

  update_quota-accounts :
      (e : Enforced) (id : Text) (u : Account) (r : Option QuotaReason)
      (done users : List (Text × Account))
      → get id done ≡ none
      → e.accounts ≡ done ++ (id, u) ∷ users
      → (update_quota now terminate sessions e id u r).accounts ≡ done ++ (id, settled r u) ∷ users
  unfolding update_quota settled
  update_quota-accounts e id u r done users h k = elim (Bool-cases (needs_update r u)) [
    | inl c ↦ rw (c, k) (put-middle id u (set_quota r u) done users h)
    | inr c ↦ rw c k
  ]

  update_quota-sessions :
      (e : Enforced) (id : Text) (u : Account) (r : Option QuotaReason)
      → ((update_quota now terminate sessions e id u r).eligible_sessions ≡ e.eligible_sessions)
        × ((update_quota now terminate sessions e id u r).disconnects ≡ e.disconnects)
  unfolding update_quota
  update_quota-sessions e id u r = elim (Bool-cases (needs_update r u)) [
    | inl c ↦ rw c (refl, refl)
    | inr c ↦ rw c (refl, refl)
  ]

  enforce_user-accounts :
      (e : Enforced) (id : Text) (used : ℕ) (u : Account) (done users : List (Text × Account))
      → get id done ≡ none
      → e.accounts ≡ done ++ (id, u) ∷ users
      → (enforce_user now terminate sessions e id used u).accounts
        ≡ done ++ (id, settled (block_reason now used u) u) ∷ users
  unfolding enforce_user
  enforce_user-accounts e id used u done users h k =
      let r = block_reason now used u in
      sort_sessions-accounts (update_quota now terminate sessions e id u r) id u r
      ∙ update_quota-accounts e id u r done users h k

  -- What an account adds to the two lists.
  abbrev Adds : List (Text × Account) → Enforced → Enforced → Type 0
  Adds users e r =
      (r.eligible_sessions
        ≡ e.eligible_sessions ++ sessions_where (eligible_user now) sessions users)
      × (r.disconnects
          ≡ e.disconnects
            ++ ids_of (sessions_where (λ u. not (eligible_user now u)) sessions users))

  sort_sessions-Adds :
      (e : Enforced) (id : Text) (u v : Account) (r : Option QuotaReason)
      → v.username ≡ u.username
      → eligible_user now v ≡ not (not u.enabled || is_block r)
      → Adds ((id, v) ∷ []) e (sort_sessions now terminate sessions e id u r)
  unfolding sort_sessions
  sort_sessions-Adds e id u v r name served =
      let mine : sessions_of u.username sessions ≡ sessions_of v.username sessions ++ [] =
        ap (λ n. sessions_of n sessions) (sym name)
        ∙ sym (append-nil (sessions_of v.username sessions)) in
      rw served (elim (Bool-cases (not u.enabled || is_block r)) [
        | inl c ↦
            rw c (sym (append-nil e.eligible_sessions), ap (λ l. e.disconnects ++ ids_of l) mine)
        | inr c ↦ rw c (ap (λ l. e.eligible_sessions ++ l) mine, sym (append-nil e.disconnects))
      ])

  enforce_user-Adds :
      (e : Enforced) (id : Text) (used : ℕ) (u : Account)
      → Adds
          ((id, settled (block_reason now used u) u) ∷ [])
          e
          (enforce_user now terminate sessions e id used u)
  unfolding enforce_user
  enforce_user-Adds e id used u =
      let r = block_reason now used u in
      let v : List (Text × Account) = (id, settled r u) ∷ [] in
      let served = sessions_where (eligible_user now) sessions v in
      let cut = ids_of (sessions_where (λ w. not (eligible_user now w)) sessions v) in
      let kept = update_quota-sessions e id u r in
      let added =
        sort_sessions-Adds (update_quota now terminate sessions e id u r) id u (settled r u) r
          (settled-username r u) (settled-eligible now used u) in
      (
        added.0 ∙ ap (λ (l : List Session). l ++ served) kept.0,
        added.1 ∙ ap (λ (l : List Text). l ++ cut) kept.1,
      )

  Adds-trans :
      (id : Text) (v : Account) (users : List (Text × Account)) (e m r : Enforced)
      → Adds ((id, v) ∷ []) e m
      → Adds users m r
      → Adds ((id, v) ∷ users) e r
  Adds-trans id v users e m r a b =
      let served = if eligible_user now v then sessions_of v.username sessions else [] in
      let cut = if not (eligible_user now v) then sessions_of v.username sessions else [] in
      let later = sessions_where (eligible_user now) sessions users in
      let later_cut = sessions_where (λ u. not (eligible_user now u)) sessions users in
      (
        b.0
            ∙ ap (λ l. l ++ later) (a.0 ∙ ap (λ l. e.eligible_sessions ++ l) (append-nil served))
            ∙ append_assoc e.eligible_sessions served later,
        b.1
            ∙ ap (λ l. l ++ ids_of later_cut)
                (a.1 ∙ ap (λ l. e.disconnects ++ ids_of l) (append-nil cut))
            ∙ append_assoc e.disconnects (ids_of cut) (ids_of later_cut)
            ∙ ap (λ l. e.disconnects ++ l) (sym (ids_of-append cut later_cut)),
      )

  pub enforce_users_lem :
      (today : Text) (usage : List Usage) (e : Enforced) (done users : List (Text × Account))
      → Distinct users
      → FreeOf done users
      → e.accounts ≡ done ++ users
      → let r = enforce_users now terminate sessions today usage e users in
        (r.accounts ≡ done ++ settle_all now today usage users)
        × Adds (settle_all now today usage users) e r
  unfolding enforce_users
  enforce_users_lem today usage e done [] d f k =
      (k, (sym (append-nil e.eligible_sessions), sym (append-nil e.disconnects)))
  enforce_users_lem today usage e done ((id, u) ∷ users) d f k =
      let used = today_bytes id today usage in
      let v = settled (block_reason now used u) u in
      let m = enforce_user now terminate sessions e id used u in
      let h = enforce_user-accounts e id used u done users (FreeOf-head id u done users f) k in
      let rest =
        enforce_users_lem today usage m (done ++ (id, v) ∷ []) users d.1
          (FreeOf-tail id u v done users d.0 f)
          (h ∙ sym (append_assoc done ((id, v) ∷ []) users)) in
      (
        rest.0 ∙ append_assoc done ((id, v) ∷ []) (settle_all now today usage users),
        Adds-trans id v (settle_all now today usage users) e m
            (enforce_users now terminate sessions today usage m users)
            (enforce_user-Adds e id used u) rest.1,
      )
