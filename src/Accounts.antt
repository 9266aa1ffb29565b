-- ===== src/Accounts.antt =====
-- The rows of `vpn_users` that the backend reads and writes (backend/src/services, backend/src/utils
-- and backend/src/worker.js). Instants are milliseconds, sizes are bytes.
pub mod Lifecycle
pub mod Quota
pub mod Settled
pub mod Enforcement
pub mod Limits
pub mod Portal
pub mod Operations
pub mod Recording
pub mod Renewal
pub mod Balances
pub mod Steps
pub mod Statuses
use zvpn.Base.{ℕ, Bool, Option, Text}

pub data ActivationStatus : Type 0 where
  not_activated : ActivationStatus
  activated : ActivationStatus

pub data ProvisioningStatus : Type 0 where
  provisioning : ProvisioningStatus
  active : ProvisioningStatus
  failed : ProvisioningStatus

pub data QuotaReason : Type 0 where
  expired : QuotaReason
  daily_quota : QuotaReason
  total_quota : QuotaReason

pub record Account : Type 0 where
  pub username : Text
  pub enabled : Bool
  pub quota_blocked : Bool
  pub quota_reason : Option QuotaReason
  pub expires_at : Option ℕ
  pub duration_days : Option ℕ
  pub first_connected_at : Option ℕ
  pub activation_status : ActivationStatus
  pub provisioning_status : ProvisioningStatus
  pub daily_limit_bytes : Option ℕ
  pub total_limit_bytes : Option ℕ
  pub unlimited_traffic : Bool
  pub max_devices : Option ℕ
  pub usage_total : ℕ
  pub upload_bytes : ℕ
  pub download_bytes : ℕ
  pub ike_relay_usage_bytes : ℕ
  pub xray_usage_bytes : ℕ
  pub xray_iran_usage_bytes : ℕ
  pub netlify_usage_bytes : ℕ
  pub xray_legacy_usage_bytes : ℕ
  pub traffic_exhausted_at : Option ℕ
  pub last_seen_at : Option ℕ
  pub last_public_ip : Option Text
  pub last_virtual_ip : Option Text
