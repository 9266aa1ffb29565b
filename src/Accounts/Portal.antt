-- ===== src/Accounts/Portal.antt =====
-- The numbers of `subscriptionInfo` of backend/src/services/subscription.js, and the status that
-- the page of backend/src/services/userPortal.js shows. Texts and markup are left out.
use zvpn.Base.{
  ℕ, ◌+◌, ◌*◌, ◌-◌, ◌/◌, ◌≡◌, Bool, true, false, not, ◌||◌, Option, none, some, ltb, ◌==◌,
  if◌then◌else◌, arith,
}
use zvpn.Accounts.{Account}
use zvpn.Accounts.Lifecycle.{account_lifecycle, awaits}
use zvpn.Accounts.Quota.{eligible_user}
use zvpn.Metering.Xray.{day_ms}
use zvpn.Metering.Ledger.{IsBalanced}

-- The time of the label: days left, over, days from the first connection, or without an end.
pub data TimeLeft : Type 0 where
  days_left : ℕ → TimeLeft
  is_over : TimeLeft
  days_from_first : ℕ → TimeLeft
  endless : TimeLeft

pub record Info : Type 0 where
  -- `none` is an unlimited volume
  pub volume : Option ℕ
  pub time : TimeLeft
  pub upload : ℕ
  pub download : ℕ
  pub total : ℕ
  pub expire : ℕ

abbrev pub limit_or_zero : Bool → Option ℕ → ℕ
limit_or_zero true limit = 0
limit_or_zero false none = 0
limit_or_zero false (some l) = l

abbrev pub seconds_of : Option ℕ → ℕ
seconds_of none = 0
seconds_of (some e) = e / 1000

-- `Math.max(0, Math.ceil(… / 86400000))`
abbrev pub days_until : ℕ → ℕ → ℕ
days_until now instant = (instant - now + (day_ms - 1)) / day_ms

abbrev pub time_left : ℕ → ℕ → Option ℕ → TimeLeft
time_left now expiry duration =
    if expiry == 0
    then (elim duration [ none ↦ endless | some d ↦ if d == 0 then endless else days_from_first d ])
    else if days_until now (expiry * 1000) == 0
    then is_over
    else days_left (days_until now (expiry * 1000))

unfoldable pub subscription_info : ℕ → Account → Info
subscription_info now a =
    let used = a.usage_total in
    let total = limit_or_zero a.unlimited_traffic a.total_limit_bytes in
    let upload = if ltb used a.upload_bytes then used else a.upload_bytes in
    record {
      volume = if a.unlimited_traffic || total == 0 then none else some (total - used);
      time = time_left now (seconds_of a.expires_at) a.duration_days;
      upload = upload;
      download = used - upload;
      total = total;
      expire = seconds_of a.expires_at;
    }

pub data PortalStatus : Type 0 where
  needs_renewal : PortalStatus
  is_disabled : PortalStatus
  access_limited : PortalStatus
  ready_for_first : PortalStatus
  in_use : PortalStatus

unfoldable pub portal_status : ℕ → Account → PortalStatus
unfolding account_lifecycle
portal_status now a =
    let life = account_lifecycle now a in
    if life.ended
    then needs_renewal
    else if not a.enabled
    then is_disabled
    else if a.quota_blocked
    then access_limited
    else if awaits a.activation_status
    then ready_for_first
    else in_use

-- The account is served, by its status.
abbrev pub is_served : PortalStatus → Bool
is_served ready_for_first = true
is_served in_use = true
is_served _ = false

-- An account that the portal shows as ready or in use is one that `eligibleUser` allows.
pub portal_status-eligible_user :
    (now : ℕ) (a : Account) → is_served (portal_status now a) ≡ true → eligible_user now a ≡ true
unfolding portal_status account_lifecycle eligible_user
portal_status-eligible_user now a h = ground arith

-- The uploaded and downloaded bytes of the subscription are those of an account whose balance is in
-- order.
pub subscription_info-IsBalanced :
    (now : ℕ) (a : Account)
    → IsBalanced a
    → ((subscription_info now a).upload ≡ a.upload_bytes)
      × ((subscription_info now a).download ≡ a.download_bytes)
unfolding subscription_info
subscription_info-IsBalanced now a b = (ground (arith, b.split), ground (arith, b.split))
