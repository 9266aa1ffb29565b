-- ===== src/Accounts/Limits.antt =====
-- `enforceQuotas` (backend/src/worker.js) against a description of the limits.
use zvpn.Base.{
  ℕ, ◌≤◌, ◌≡◌, refl, ap, sym, ◌∙◌, true, false, not, ◌&&◌, Option, none, some, List, [], ◌∷◌, Text,
  ◌===◌, ===_iff, get, Distinct, arith, Bool-cases, inl, inr, ◌⊎◌, ◌↔◌,
}
use zvpn.Accounts.{Account, QuotaReason}
use zvpn.Accounts.Lifecycle.{is_expired}
use zvpn.Accounts.Quota.{
  block_reason, eligible_user, has_secret, is_block, today_bytes, ids_of, enforce_quotas,
}
use zvpn.Accounts.Settled.{
  settled, settle_all, sessions_where, settled-quota_blocked, settled-quota_reason,
  settled-eligible,
}
use zvpn.Accounts.Enforcement.{enforce_users_lem}
use zvpn.Metering.Tables.{Usage, Database}
use zvpn.Reconcile.{Outcome}
use zvpn.Reconcile.Sessions.{Session}

-- A limit that is set and used up.
abbrev pub UsedUp : Option ℕ → ℕ → Type 0
UsedUp limit used = (l : ℕ) × (limit ≡ some l) × (l ≤ used)

-- The account is past its date, or, if its traffic is limited, has used up a limit.
abbrev pub IsOut : ℕ → ℕ → Account → Type 0
IsOut now used u =
    UsedUp u.expires_at now
    ⊎ ((u.unlimited_traffic ≡ false)
        × (UsedUp u.daily_limit_bytes used ⊎ UsedUp u.total_limit_bytes u.usage_total))

block_reason-IsOut :
    (now used : ℕ) (u : Account) → (is_block (block_reason now used u) ≡ true) ↔ IsOut now used u
unfolding block_reason is_expired
block_reason-IsOut now used u = ground arith

get-settle_all :
    (now : ℕ) (today : Text) (usage : List Usage) (id : Text) (users : List (Text × Account))
    (u : Account)
    → get id users ≡ some u
    → get id (settle_all now today usage users)
      ≡ some (settled (block_reason now (today_bytes id today usage) u) u)
unfolding get
get-settle_all now today usage id [] u h = cc
get-settle_all now today usage id ((j, w) ∷ users) u h = elim (Bool-cases (j === id)) [
  | inl e ↦ ground (arith, ===_iff j id)
  | inr e ↦ rw e (get-settle_all now today usage id users u (ground arith))
]

settled-reason :
    (r : Option QuotaReason) (u : Account) → (is_block r ≡ false) ⊎ ((settled r u).quota_reason ≡ r)
settled-reason none u = inl refl
settled-reason (some q) u = inr (settled-quota_reason q u)

module _ (now : ℕ) (terminate : Text → Outcome) (sessions : List Session) (today : Text)
    (db : Database) where
  enforce_quotas_settles :
      Distinct db.accounts
      → let r = enforce_quotas now terminate sessions today db in
        (r.accounts ≡ settle_all now today db.usage_daily db.accounts)
        × (r.eligible_sessions
            ≡ sessions_where
                (eligible_user now)
                sessions
                (settle_all now today db.usage_daily db.accounts))
        × (r.disconnects
            ≡ ids_of (
                sessions_where
                  (λ u. not (eligible_user now u))
                  sessions
                  (settle_all now today db.usage_daily db.accounts)))
  unfolding enforce_quotas get
  enforce_quotas_settles d =
      let h =
        enforce_users_lem now terminate sessions today db.usage_daily
          (record {
            accounts = db.accounts;
            changed = false;
            eligible_sessions = [];
            device_limits = [];
            disconnects = [];
            events = [];
          })
          [] db.accounts d (λ j w h. refl) refl in
      (h.0, h.1.0, h.1.1)

  -- In a database whose accounts have distinct ids, a pass leaves every account blocked just if it
  -- is past its date or, its traffic being limited, at or over a limit that is set; a blocked
  -- account has the reason that the tests found, and an account is served just if it is enabled and
  -- not blocked.
  pub enforce_quotas-accounts :
      (id : Text) (u : Account)
      → Distinct db.accounts
      → get id db.accounts ≡ some u
      → let used = today_bytes id today db.usage_daily in
        let r = enforce_quotas now terminate sessions today db in
        (v : Account) × (get id r.accounts ≡ some v)
        × ((v.quota_blocked ≡ true) ↔ IsOut now used u)
        × ((v.quota_blocked ≡ false) ⊎ (v.quota_reason ≡ block_reason now used u))
        × (eligible_user now v ≡ (u.enabled && not v.quota_blocked))
  enforce_quotas-accounts id u d h =
      let used = today_bytes id today db.usage_daily in
      let r = block_reason now used u in
      let blocked = settled-quota_blocked r u in
      let found : get id (enforce_quotas now terminate sessions today db).accounts
          ≡ some (settled r u) =
        ap (get id) (enforce_quotas_settles d).0
        ∙ get-settle_all now today db.usage_daily id db.accounts u h in
      let out = block_reason-IsOut now used u in
      (
        settled r u,
        found,
        ((λ b. out.0 (sym blocked ∙ b)), (λ o. blocked ∙ out.1 o)),
        rw blocked (settled-reason r u),
        settled-eligible now used u ∙ rw blocked (ground arith),
      )

  -- In a database whose accounts have distinct ids, the sessions that a pass hands to the
  -- reconciler are those of the accounts that `eligible_user` allows after the pass, and the ones
  -- that it disconnects are those of all others, in the order of the accounts.
  pub enforce_quotas-sessions :
      Distinct db.accounts
      → let r = enforce_quotas now terminate sessions today db in
        (r.eligible_sessions ≡ sessions_where (eligible_user now) sessions r.accounts)
        × (r.disconnects
            ≡ ids_of (sessions_where (λ u. not (eligible_user now u)) sessions r.accounts))
  enforce_quotas-sessions d = let h = enforce_quotas_settles d in rw h.0 (h.1, h.2)

-- The accounts of which strongSwan gets a secret are those that `eligibleUser` selects for Xray.
pub has_secret-eligible_user : (now : ℕ) (u : Account) → has_secret now u ≡ eligible_user now u
unfolding has_secret eligible_user is_expired
has_secret-eligible_user now u = ground arith
