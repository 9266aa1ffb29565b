-- ===== src/Accounts/Lifecycle.antt =====
-- backend/src/utils/accountLifecycle.js, and `userStatus` and the numbers of `sanitizeUser` of
-- backend/src/utils/format.js. `now` is `Date.now()`; differences of instants that may be negative
-- are compared by adding on the other side.
use zvpn.Base.{
  ℕ, ◌+◌, ◌*◌, ◌-◌, ◌/◌, Bool, true, false, not, ◌&&◌, ◌||◌, Option, none, some, ltb, leb,
  if◌then◌else◌, min,
}
use zvpn.Accounts.{
  Account, ActivationStatus, not_activated, activated, ProvisioningStatus, provisioning, failed,
}
use zvpn.Metering.Tables.{is_exhausted}
use zvpn.Metering.Xray.{day_ms}

pub data EndedReason : Type 0 where
  by_date : EndedReason
  by_traffic : EndedReason
  by_date_and_traffic : EndedReason

pub record Lifecycle : Type 0 where
  pub ended : Bool
  pub ended_reason : Option EndedReason
  pub ended_at : Option ℕ
  pub ended_days : Option ℕ
  pub stale : Bool

unfoldable pub is_expired : ℕ → Account → Bool
is_expired now a = elim a.expires_at [ none ↦ false | some e ↦ leb e now ]

-- The two dates, where they are known and not in the future.
unfoldable pub expiry_date : ℕ → Account → Option ℕ
unfolding is_expired
expiry_date now a = if is_expired now a then a.expires_at else none

unfoldable pub traffic_date : ℕ → Account → Option ℕ
unfolding is_exhausted
traffic_date now a =
    if is_exhausted a
    then (elim a.traffic_exhausted_at [ none ↦ none | some t ↦ if leb t now then some t else none ])
    else none

abbrev pub earliest : Option ℕ → Option ℕ → Option ℕ
earliest none none = none
earliest (some s) none = some s
earliest none (some t) = some t
earliest (some s) (some t) = some (min s t)

abbrev pub reason_of : Bool → Bool → Option EndedReason
reason_of true true = some by_date_and_traffic
reason_of true false = some by_date
reason_of false true = some by_traffic
reason_of false false = none

unfoldable pub account_lifecycle : ℕ → Account → Lifecycle
unfolding expiry_date traffic_date is_expired is_exhausted
account_lifecycle now a =
    let ended_at = earliest (expiry_date now a) (traffic_date now a) in
    let ended_days : Option ℕ = elim ended_at [
      | none ↦ none
      | some t ↦ some ((now - t) / day_ms)
    ] in
    record {
      ended = is_expired now a || is_exhausted a;
      ended_reason = reason_of (is_expired now a) (is_exhausted a);
      ended_at = ended_at;
      ended_days = ended_days;
      stale = elim ended_days [ none ↦ false | some d ↦ leb 7 d ];
    }

pub data Status : Type 0 where
  expired : Status
  quota_total : Status
  disabled : Status
  quota_daily : Status
  being_provisioned : Status
  provisioning_failed : Status
  awaits_activation : Status
  expiring_soon : Status
  is_active : Status

-- `!u.unlimited_traffic && Number(u.daily_limit_bytes)>0 && Number(u.today_bytes)>=…`
unfoldable pub daily_exhausted : ℕ → Account → Bool
daily_exhausted today_bytes a =
    not a.unlimited_traffic
    && (elim a.daily_limit_bytes [ none ↦ false | some t ↦ ltb 0 t && leb t today_bytes ])

abbrev pub is_provisioning : ProvisioningStatus → Bool
is_provisioning provisioning = true
is_provisioning _ = false

abbrev pub has_failed : ProvisioningStatus → Bool
has_failed failed = true
has_failed _ = false

abbrev pub awaits : ActivationStatus → Bool
awaits not_activated = true
awaits activated = false

abbrev pub has_time : Option ℕ → Bool
has_time none = false
has_time (some t) = true

-- The rest of `userStatus`, after the tests on the lifecycle.
unfoldable pub running_status : ℕ → ℕ → Account → Status
unfolding daily_exhausted
running_status now today_bytes a =
    if not a.enabled
    then disabled
    else if daily_exhausted today_bytes a
    then quota_daily
    else if is_provisioning a.provisioning_status
    then being_provisioned
    else if has_failed a.provisioning_status && not (has_time a.first_connected_at)
    then provisioning_failed
    else if awaits a.activation_status
    then awaits_activation
    else if (elim a.expires_at [ none ↦ false | some e ↦ leb e (now + 7 * day_ms) ])
    then expiring_soon
    else is_active

unfoldable pub user_status : ℕ → ℕ → Account → Status
unfolding account_lifecycle running_status
user_status now today_bytes a = elim (account_lifecycle now a).ended_reason [
  | none ↦ running_status now today_bytes a
  | some r ↦ elim r [ by_traffic ↦ quota_total | by_date ↦ expired | by_date_and_traffic ↦ expired ]
]

-- The numbers of `sanitizeUser`. A total limit that is set is a truthy text, also '0'; `Math.max(0, …)` is the subtraction of ℕ.
pub record Figures : Type 0 where
  pub xray_direct_usage_bytes : ℕ
  pub ike_usage_bytes : ℕ
  pub remaining_traffic : Option ℕ
  pub remaining_days : Option ℕ

unfoldable pub figures : ℕ → Account → Figures
figures now a = record {
  xray_direct_usage_bytes =
      a.xray_usage_bytes - a.netlify_usage_bytes - a.xray_legacy_usage_bytes
      - a.xray_iran_usage_bytes;
  ike_usage_bytes = a.usage_total - a.xray_usage_bytes - a.ike_relay_usage_bytes;
  remaining_traffic =
      if a.unlimited_traffic
      then none
      else (elim a.total_limit_bytes [ none ↦ none | some t ↦ some (t - a.usage_total) ]);
  remaining_days = elim a.expires_at [
    | none ↦ none
    | some e ↦ some ((e - now + (day_ms - 1)) / day_ms)
  ];
}
