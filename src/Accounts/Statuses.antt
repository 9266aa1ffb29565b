-- ===== src/Accounts/Statuses.antt =====
-- The statuses, figures and lifecycle of backend/src/utils (format.js, accountLifecycle.js) against
-- the limits that the worker enforces.
use zvpn.Base.{
  leb, ◌/◌, ℕ, ◌+◌, ◌*◌, ◌-◌, ◌≤◌, ◌<◌, ◌≡◌, refl, ◌∙◌, Bool, true, false, not, ◌&&◌, ◌||◌, Option,
  none, some, arith, Option-cases, inl, inr, ◌⊎◌, ◌↔◌,
}
use zvpn.Accounts.{Account, total_quota}
use zvpn.Accounts.Lifecycle.{
  reason_of, earliest, traffic_date, expiry_date, by_date, by_traffic, by_date_and_traffic,
  is_expired, account_lifecycle, figures, user_status, running_status, Status, expired, quota_total,
  quota_daily, daily_exhausted,
}
use zvpn.Accounts.Quota.{reaches, block_reason, is_block}
use zvpn.Metering.Tables.{is_exhausted}
use zvpn.Metering.Xray.{day_ms}
use zvpn.Metering.Ledger.{IsBalanced}

-- The test of the statuses that speak of a date or of traffic.
abbrev pub names_limit : Status → Bool
names_limit expired = true
names_limit quota_total = true
names_limit quota_daily = true
names_limit _ = false

-- No limit is set to 0.
abbrev pub NonZero : Option ℕ → Type 0
NonZero limit = (l : ℕ) → limit ≡ some l → 0 < l

is_exhausted-reaches :
    (a : Account)
    → NonZero a.total_limit_bytes
    → is_exhausted a ≡ (not a.unlimited_traffic && reaches a.total_limit_bytes a.usage_total)
unfolding is_exhausted
is_exhausted-reaches a h = elim (Option-cases a.total_limit_bytes) [
  | inl e ↦ rw e refl
  | inr (l, e) ↦ rw e (ground (arith, h l e))
]

daily_exhausted-reaches :
    (used : ℕ) (a : Account)
    → NonZero a.daily_limit_bytes
    → daily_exhausted used a ≡ (not a.unlimited_traffic && reaches a.daily_limit_bytes used)
unfolding daily_exhausted
daily_exhausted-reaches used a h = elim (Option-cases a.daily_limit_bytes) [
  | inl e ↦ rw e refl
  | inr (l, e) ↦ rw e (ground (arith, h l e))
]

running_status-names_limit :
    (now used : ℕ) (a : Account)
    → a.enabled ≡ true
    → names_limit (running_status now used a) ≡ daily_exhausted used a
unfolding running_status
running_status-names_limit now used a on = rw on (ground arith)

reason_of-names_limit :
    (date traffic : Bool) (running : Status)
    → names_limit (elim (reason_of date traffic) [
      | none ↦ running
      | some r ↦ elim r [
        | by_traffic ↦ quota_total
        | by_date ↦ expired
        | by_date_and_traffic ↦ expired
      ]
    ])
      ≡ (date || traffic || names_limit running)
reason_of-names_limit true true running = refl
reason_of-names_limit true false running = refl
reason_of-names_limit false true running = refl
reason_of-names_limit false false running = refl

user_status-names_limit :
    (now used : ℕ) (a : Account)
    → a.enabled ≡ true
    → names_limit (user_status now used a)
      ≡ (is_expired now a || is_exhausted a || daily_exhausted used a)
unfolding user_status account_lifecycle
user_status-names_limit now used a on =
    reason_of-names_limit (is_expired now a) (is_exhausted a) (running_status now used a)
    ∙ rw (running_status-names_limit now used a on) refl

-- Where neither limit is set to 0, the panel shows an enabled account as expired or out of
-- traffic just if the worker finds a reason to block it.
pub user_status-block_reason :
    (now used : ℕ) (u : Account)
    → u.enabled ≡ true
    → NonZero u.daily_limit_bytes
    → NonZero u.total_limit_bytes
    → names_limit (user_status now used u) ≡ is_block (block_reason now used u)
unfolding block_reason
user_status-block_reason now used u on daily total =
    rw
      (
        user_status-names_limit now used u on,
        is_exhausted-reaches u total,
        daily_exhausted-reaches used u daily,
      )
      (ground arith)

-- For an enabled account that is not expired, whose traffic is limited, that has no daily limit
-- and a total limit of 0, the worker finds the reason `total_quota` whatever it used, while its
-- status names no limit.
pub block_reason_zero :
    (now used : ℕ) (u : Account)
    → u.enabled ≡ true
    → is_expired now u ≡ false
    → u.unlimited_traffic ≡ false
    → u.daily_limit_bytes ≡ none
    → u.total_limit_bytes ≡ some 0
    → (block_reason now used u ≡ some total_quota) × (names_limit (user_status now used u) ≡ false)
unfolding block_reason is_exhausted daily_exhausted
block_reason_zero now used u on fresh limited daily zero = (
  rw (fresh, limited, daily, zero) (ground arith),
  user_status-names_limit now used u on ∙ rw (fresh, limited, daily, zero) (ground arith),
)

-- The figures that the panel shows of an account whose balance is in order add up: IKE, the relay
-- and Xray to the total, and the direct, Netlify, legacy and Iran routes to Xray.
pub figures-IsBalanced :
    (now : ℕ) (a : Account)
    → IsBalanced a
    → ((figures now a).ike_usage_bytes + a.ike_relay_usage_bytes + a.xray_usage_bytes
        ≡ a.usage_total)
      × ((figures now a).xray_direct_usage_bytes
            + a.netlify_usage_bytes
            + a.xray_legacy_usage_bytes
            + a.xray_iran_usage_bytes
          ≡ a.xray_usage_bytes)
unfolding figures
figures-IsBalanced now a b = (ground (arith, b.transports), ground (arith, b.routes))

days-since :
    (now : ℕ) (o : Option ℕ)
    → let days : Option ℕ = elim o [ none ↦ none | some t ↦ some ((now - t) / day_ms) ] in
      ((elim days [ none ↦ false | some d ↦ leb 7 d ]) ≡ true)
      ↔ ((t : ℕ) × (o ≡ some t) × (t + 7 * 86400000 ≤ now))
days-since now none = ground arith
days-since now (some s) = ((λ h. (s, refl, ground arith)), λ k. ground (arith, k.1, k.2))

expiry_date-le :
    (now : ℕ) (a : Account) (t : ℕ)
    → expiry_date now a ≡ some t
    → (is_expired now a ≡ true) × (t ≤ now)
unfolding expiry_date is_expired
expiry_date-le now a t h = ground arith

traffic_date-le :
    (now : ℕ) (a : Account) (t : ℕ)
    → traffic_date now a ≡ some t
    → (is_exhausted a ≡ true) × (t ≤ now)
unfolding traffic_date
traffic_date-le now a t h = ground arith

earliest-or : (s t : Option ℕ) (m : ℕ) → earliest s t ≡ some m → (s ≡ some m) ⊎ (t ≡ some m)
earliest-or none none m h = cc
earliest-or (some s) none m h = inl h
earliest-or none (some t) m h = inr h
earliest-or (some s) (some t) m h = ground arith

-- An account is stale just if it has ended on a known instant at least seven days ago.
pub account_lifecycle-stale :
    (now : ℕ) (a : Account)
    → let l = account_lifecycle now a in
      (l.stale ≡ true) ↔ ((t : ℕ) × (l.ended_at ≡ some t) × (t + 7 * 86400000 ≤ now))
unfolding account_lifecycle
account_lifecycle-stale now a = days-since now (earliest (expiry_date now a) (traffic_date now a))

-- An account that has an instant of its end has ended, and the instant is not in the future.
pub account_lifecycle-ended_at :
    (now : ℕ) (a : Account) (t : ℕ)
    → (account_lifecycle now a).ended_at ≡ some t
    → ((account_lifecycle now a).ended ≡ true) × (t ≤ now)
unfolding account_lifecycle
account_lifecycle-ended_at now a t e =
    elim (earliest-or (expiry_date now a) (traffic_date now a) t e) [
      | inl s ↦ ground (arith, expiry_date-le now a t s)
      | inr s ↦ ground (arith, traffic_date-le now a t s)
    ]
