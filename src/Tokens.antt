-- ===== src/Tokens.antt =====
-- The accounts' download links: `provisionUser`, `regenerateToken`, `revokeToken` and
-- `resetUserPassword` of backend/src/services/users.js, and `tokenUser` of backend/src/server.js,
-- which every route below /d/ asks.
pub mod Found
pub mod Links
use zvpn.Base.{
  ℕ, ◌+◌, ◌*◌, Bool, true, false, not, ◌&&◌, Option, none, some, List, [], ◌∷◌, ◌++◌, Text, codes,
  ◌===◌, any, map, is_empty, if◌then◌else◌,
}
use zvpn.Accounts.{ActivationStatus, not_activated, activated, ProvisioningStatus, active, failed}
use zvpn.Auth.{first}

-- The columns of an account that these operations write. Ids, names and tokens are unique.
pub record Holder : Type 0 where
  pub id : Text
  pub username : Text
  pub secret : Text
  pub download_token : Text
  pub expires_at : ℕ
  pub revoked : Bool
  pub activation_status : ActivationStatus
  pub provisioning_status : ProvisioningStatus

abbrev pub has_token : Text → Holder → Bool
has_token token h = h.download_token === token

-- `tokenUser`
unfoldable pub token_user : Text → List Holder → Option Holder
token_user token = first λ h. has_token token h && not h.revoked

abbrev pub is_holder : Text → Holder → Bool
is_holder id h = h.id === id

unfoldable pub change : Text → (Holder → Holder) → List Holder → List Holder
change id f = map λ h. if is_holder id h then f h else h

-- `tokenExpiry`
abbrev pub token_expiry : ℕ → ℕ → ℕ
token_expiry now days = now + days * 86400000

abbrev pub new_link : Text → ℕ → Holder → Holder
new_link token expires_at h = record h {
  download_token = token;
  expires_at = expires_at;
  revoked = false;
}

-- `regenerateToken`: whether there is an account, and the accounts after it. The new token and its
-- expiry are given.
unfoldable pub regenerate_token : Text → Text → ℕ → List Holder → Bool × List Holder
unfolding change
regenerate_token id token expires_at holders =
    (any (is_holder id) holders, change id (new_link token expires_at) holders)

-- `revokeToken`
unfoldable pub revoke_token : Text → List Holder → Bool × List Holder
unfolding change
revoke_token id holders =
    (any (is_holder id) holders, change id (λ h. record h { revoked = true }) holders)

-- What a reset of a password does beside the rows.
pub data TokenEffect : Type 0 where
  queues_sync : TokenEffect
  disconnects_user : Text → TokenEffect

pub data Reset : Type 0 where
  no_account : Reset
  resets : List Holder → Bool → List TokenEffect → Reset

-- `resetUserPassword`; `syncs` is whether `syncSecretsNow` returns.
unfoldable pub reset_user_password : Text → Text → Text → ℕ → Bool → List Holder → Reset
unfolding change
reset_user_password id secret token expires_at syncs holders = elim (first (is_holder id) holders) [
  | none ↦ no_account
  | some h ↦
      resets (change id (λ r. record (new_link token expires_at r) { secret = secret }) holders)
        syncs (if syncs then disconnects_user h.username ∷ [] else queues_sync ∷ [])
]

-- The request of `provisionUser`, as far as its row is represented; `none` is a missing value or 0.
pub record NewUser : Type 0 where
  pub username : Text
  pub duration_days : Option ℕ
  pub expires_at : Option ℕ

abbrev pub activation_of : NewUser → ActivationStatus
activation_of user = elim user.duration_days [
  | none ↦ activated
  | some days ↦ elim user.expires_at [ none ↦ not_activated | some e ↦ activated ]
]

-- The row, with the id that the database makes, and what the synchronisation makes of it.
unfoldable pub provision_user :
    Text → Text → Text → ℕ → Bool → NewUser → List Holder → Option (List Holder × Bool)
provision_user id secret token expires_at syncs user holders =
    if any (λ h. h.id === id) holders
    then none
    else if any (has_token token) holders
    then none
    else if any (λ h. h.username === user.username) holders
    then none
    else some (
      holders
          ++ record {
            id = id;
            username = user.username;
            secret = secret;
            download_token = token;
            expires_at = expires_at;
            revoked = false;
            activation_status = activation_of user;
            provisioning_status = if syncs then active else failed;
          }
            ∷ [],
      syncs,
    )
