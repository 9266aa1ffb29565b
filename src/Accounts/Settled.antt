-- ===== src/Accounts/Settled.antt =====
-- The account that `enforceQuotas` (backend/src/worker.js) leaves, and whom it then serves.
use zvpn.Base.{
  ℕ, ◌≡◌, refl, Bool, true, false, not, ◌||◌, Option, none, some, List, [], ◌∷◌, ◌++◌, Text,
  if◌then◌else◌, arith, Bool-cases, inl, inr,
}
use zvpn.Accounts.{Account, QuotaReason, expired, daily_quota, total_quota}
use zvpn.Accounts.Lifecycle.{is_expired}
use zvpn.Accounts.Quota.{
  block_reason, needs_update, set_quota, eligible_user, is_block, same_reason, today_bytes,
  sessions_of,
}
use zvpn.Metering.Tables.{Usage}
use zvpn.Reconcile.Sessions.{Session}

-- The account after the pass.
unfoldable pub settled : Option QuotaReason → Account → Account
settled reason u = if needs_update reason u then set_quota reason u else u

abbrev pub settle_all : ℕ → Text → List Usage → List (Text × Account) → List (Text × Account)
settle_all now today usage [] = []
settle_all now today usage ((id, u) ∷ users) =
    (id, settled (block_reason now (today_bytes id today usage) u) u)
    ∷ settle_all now today usage users

-- The sessions of the accounts that pass a test.
abbrev pub sessions_where : (Account → Bool) → List Session → List (Text × Account) → List Session
sessions_where p sessions [] = []
sessions_where p sessions ((id, u) ∷ users) =
    (if p u then sessions_of u.username sessions else []) ++ sessions_where p sessions users

-- The flags after the pass are those of the reason.
pub settled-quota_blocked :
    (r : Option QuotaReason) (u : Account) → (settled r u).quota_blocked ≡ is_block r
unfolding settled needs_update set_quota
settled-quota_blocked none u = ground arith
settled-quota_blocked (some r) u = ground arith

same_reason_sound : (r : QuotaReason) (o : Option QuotaReason) → same_reason r o ≡ true → o ≡ some r
same_reason_sound expired (some expired) h = refl
same_reason_sound daily_quota (some daily_quota) h = refl
same_reason_sound total_quota (some total_quota) h = refl
same_reason_sound expired none h = cc
same_reason_sound expired (some daily_quota) h = cc
same_reason_sound expired (some total_quota) h = cc
same_reason_sound daily_quota none h = cc
same_reason_sound daily_quota (some expired) h = cc
same_reason_sound daily_quota (some total_quota) h = cc
same_reason_sound total_quota none h = cc
same_reason_sound total_quota (some expired) h = cc
same_reason_sound total_quota (some daily_quota) h = cc

pub settled-quota_reason :
    (r : QuotaReason) (u : Account) → (settled (some r) u).quota_reason ≡ some r
unfolding settled needs_update set_quota
settled-quota_reason r u = elim (Bool-cases u.quota_blocked) [
  | inl b ↦ elim (Bool-cases (same_reason r u.quota_reason)) [
    | inl s ↦ rw (b, s) (same_reason_sound r u.quota_reason s)
    | inr s ↦ rw (b, s)
  ]
  | inr b ↦ rw b
]

pub settled-username : (r : Option QuotaReason) (u : Account) → (settled r u).username ≡ u.username
unfolding settled set_quota
settled-username r u = ground arith

settled-enabled : (r : Option QuotaReason) (u : Account) → (settled r u).enabled ≡ u.enabled
unfolding settled set_quota
settled-enabled r u = ground arith

settled-expires_at :
    (r : Option QuotaReason) (u : Account) → (settled r u).expires_at ≡ u.expires_at
unfolding settled set_quota
settled-expires_at r u = ground arith

unexpired :
    (now used : ℕ) (u : Account)
    → is_block (block_reason now used u) ≡ false
    → is_expired now u ≡ false
unfolding block_reason
unexpired now used u h = ground arith

pub settled-eligible :
    (now used : ℕ) (u : Account)
    → let r = block_reason now used u in
      eligible_user now (settled r u) ≡ not (not u.enabled || is_block r)
unfolding eligible_user is_expired
settled-eligible now used u =
    rw
      (
        settled-quota_blocked (block_reason now used u) u,
        settled-enabled (block_reason now used u) u,
        settled-expires_at (block_reason now used u) u,
      )
      (ground (arith, unexpired now used u))
