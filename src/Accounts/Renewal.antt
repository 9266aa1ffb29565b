-- ===== src/Accounts/Renewal.antt =====
-- What the operations of backend/src/services/users.js do to an account, seen by the limits of
-- backend/src/worker.js and by `eligibleUser` of backend/src/services/xrayConfig.js.
use zvpn.Base.{
  ap, sym, ◌∙◌, ℕ, ◌+◌, ◌*◌, ◌<◌, ◌≡◌, refl, false, Option, none, some, [], ◌∷◌, Text, get,
  get-put_self, arith, Option-cases, inl, inr, max,
}
use zvpn.Accounts.{Account}
use zvpn.Accounts.Lifecycle.{is_expired}
use zvpn.Accounts.Quota.{block_reason, eligible_user, reaches}
use zvpn.Accounts.Operations.{
  set_account, changes, left_by, queues_sync, disconnects_user, only_enabled, patch_account,
  update_found, update_user, extend_account, extend_user, add_account_traffic, add_traffic,
  activate_on_first_connect,
}
use zvpn.Metering.Tables.{Database, track_traffic_exhaustion, is_exhausted}
use zvpn.Metering.Collect.{Probe}

-- The later one of the present and the old date.
abbrev pub renewal_base : ℕ → Option ℕ → ℕ
renewal_base now none = now
renewal_base now (some old) = max now old

extend_account-expires_at :
    (now days : ℕ) (a : Account)
    → (extend_account now days a).expires_at
      ≡ some (renewal_base now a.expires_at + days * 86400000)
unfolding extend_account
extend_account-expires_at now days a = elim (Option-cases a.expires_at) [
  | inl never ↦ rw never refl
  | inr (old, dated) ↦ rw dated (ground arith)
]

extend_account-eligible :
    (now days : ℕ) (a : Account)
    → 0 < days
    → eligible_user now (extend_account now days a) ≡ a.enabled
unfolding extend_account eligible_user is_expired
extend_account-eligible now days a pos = elim (Option-cases a.expires_at) [
  | inl never ↦ rw never (ground arith)
  | inr (old, dated) ↦ rw dated (ground arith)
]

-- Extending an account by at least one day gives it a date that many days after the later one of
-- now and its old date, and leaves it served at once if it is enabled.
pub extend_user-eligible :
    (now : ℕ) (id : Text) (days : ℕ) (db : Database) (a : Account)
    → get id db.accounts ≡ some a
    → 0 < days
    → (b : Account) × (e : ℕ) × (get id (left_by (extend_user now id days db)).accounts ≡ some b)
      × (b.expires_at ≡ some e)
      × (e ≡ renewal_base now a.expires_at + days * 86400000)
      × (eligible_user now b ≡ a.enabled)
unfolding extend_user
extend_user-eligible now id days db a found pos = (
  extend_account now days a,
  renewal_base now a.expires_at + days * 86400000,
  rw (found, extend_user) (get-put_self id (extend_account now days a) db.accounts),
  extend_account-expires_at now days a,
  refl,
  extend_account-eligible now days a pos,
)

-- An update that only disables an account changes it, queues a synchronisation and disconnects
-- its user, in that order, and leaves it not served.
pub update_user_disables :
    (today hour : Text) (probe : Probe) (now : ℕ) (id : Text) (db : Database) (a : Account)
    → get id db.accounts ≡ some a
    → (after : Database) × (b : Account) × (update_user today hour probe now id
          (only_enabled false)
          db
        ≡ changes after (queues_sync ∷ disconnects_user a.username ∷ []))
      × (get id after.accounts ≡ some b)
      × (eligible_user now b ≡ false)
unfolding update_user update_found patch_account eligible_user track_traffic_exhaustion
update_user_disables today hour probe now id db a found = (
  set_account id (patch_account now (only_enabled false) a) db,
  patch_account now (only_enabled false) a,
  rw (found, update_found) refl,
  get-put_self id (patch_account now (only_enabled false) a) db.accounts,
  refl,
)

add_account_traffic-lifts :
    (now bytes used limit : ℕ) (a : Account)
    → a.total_limit_bytes ≡ some limit
    → a.usage_total < limit + bytes
    → is_expired now a ≡ false
    → reaches a.daily_limit_bytes used ≡ false
    → (block_reason now used (add_account_traffic now bytes a) ≡ none)
      × ((add_account_traffic now bytes a).quota_blocked ≡ false)
      × ((add_account_traffic now bytes a).traffic_exhausted_at ≡ none)
unfolding add_account_traffic block_reason track_traffic_exhaustion is_exhausted is_expired
add_account_traffic-lifts now bytes used limit a total room fresh daily =
    (rw (fresh, daily, total) (ground arith), refl, rw total (ground arith))

-- Traffic that is added to an account with a total limit leaves it without a block, a reason for
-- one and an instant of exhaustion, if the new limit is above what the account used, its date has
-- not come and its daily limit is not reached.
pub add_traffic_lifts :
    (now : ℕ) (id : Text) (bytes used limit : ℕ) (db : Database) (a : Account)
    → get id db.accounts ≡ some a
    → a.total_limit_bytes ≡ some limit
    → a.usage_total < limit + bytes
    → is_expired now a ≡ false
    → reaches a.daily_limit_bytes used ≡ false
    → (b : Account) × (get id (left_by (add_traffic now id bytes db)).accounts ≡ some b)
      × (block_reason now used b ≡ none)
      × (b.quota_blocked ≡ false)
      × (b.traffic_exhausted_at ≡ none)
unfolding add_traffic
add_traffic_lifts now id bytes used limit db a found total room fresh daily =
    let lifted = add_account_traffic-lifts now bytes used limit a total room fresh daily in
    (
      add_account_traffic now bytes a,
      rw (found, add_traffic) (get-put_self id (add_account_traffic now bytes a) db.accounts),
      lifted.0,
      lifted.1,
      lifted.2,
    )

activated_stays :
    (now t : ℕ) (a : Account) → a.first_connected_at ≡ some t → activate_on_first_connect now a ≡ a
unfolding activate_on_first_connect
activated_stays now t a before = rw before refl

-- Activating an account on its first connection twice is the same as once, at the first instant.
pub activate_on_first_connect_again :
    (now later : ℕ) (a : Account)
    → activate_on_first_connect later (activate_on_first_connect now a)
      ≡ activate_on_first_connect now a
unfolding activate_on_first_connect
activate_on_first_connect_again now later a = elim (Option-cases a.first_connected_at) [
  | inl never ↦ rw never refl
  | inr (t, before) ↦
      ap (activate_on_first_connect later) (activated_stays now t a before)
      ∙ activated_stays later t a before
      ∙ sym (activated_stays now t a before)
]
