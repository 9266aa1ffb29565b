-- ===== src/Core/Apply.antt =====
-- How the core is brought up to date: `syncXray` of backend/src/services/xray.js, and
-- `prepareWarpPolicy` of backend/src/services/warp.js, which it calls first.
use zvpn.Base.{
  ℕ, Bool, true, false, not, ◌&&◌, ◌||◌, Option, none, some, List, [], ◌∷◌, ◌++◌, Text, codes,
  ◌===◌, if◌then◌else◌, keep, ◌⊎◌, inl, inr, every, map,
}
use zvpn.Reconcile.{trim}
use zvpn.Settings.Defaults.{Fields}
use zvpn.Core.{User, Inbound, build_xray_config}

pub data SyncError : Type 0 where
  firefox_reauth_required : SyncError
  psiphon_not_installed : SyncError
  warp_not_installed : SyncError
  xray_not_installed : SyncError
  invalid_xray_identity : SyncError
  failed : Text → SyncError

pub record WarpSettings : Type 0 where
  pub enabled : Bool
  pub provider : Text
  pub scope : Text
  pub user_ids : List Text
  pub others : Fields

pub record Policy : Type 0 where
  pub enabled : Bool
  pub provider : Text
  pub scope : Text
  pub others : Fields
  pub users : List (Text × Text)

-- What is done, in its order, whether it succeeds or not.
pub data Action : Type 0 where
  write_policy : Text → Action
  sync_warp : Action
  remove_policy : Action
  collect : Action
  stop_xray : Action
  write_config : Text → Action
  sync_config : Action
  remove_config : Action

-- The two runtime files and what has been done. A file that cannot be read counts as one that is not
-- there.
pub record World : Type 0 where
  pub policy : Option Text
  pub config : Option Text
  pub log : List Action

-- The answers of the calls out of these two functions: `none` for success where an error is the
-- other answer. `JSON.stringify` is the texts of a policy and of a configuration. The removal of a
-- file succeeds.
pub record Outside : Type 0 where
  pub policy_text : Policy → Text
  pub config_text : List Inbound → Text
  pub firefox_linked : Text ⊎ Bool
  pub has_psiphon : Bool
  pub has_router : Bool
  pub writes_policy : Option Text
  pub syncs_warp : Option Text
  pub has_xray : Bool
  pub epoch : Text ⊎ Text
  pub collects : Option Text
  pub stops : Option Text
  pub writes_config : Option Text
  pub syncs_config : Option Text

unfoldable pub did : Action → World → World
did a w = record w { log = w.log ++ a ∷ [] }

abbrev pub or_empty : Option Text → Text
or_empty none = []
or_empty (some t) = t

-- `policy`: the users of everyone's scope, or those that are selected, and no `userIds`.
unfoldable pub policy_of : WarpSettings → List User → Policy
policy_of s users = record {
  enabled = s.enabled;
  provider = s.provider;
  scope = s.scope;
  others = s.others;
  users =
      map (λ u. (u.id, u.username))
        (keep (λ u. (s.scope === codes "all") || not (every (λ id. not (id === u.id)) s.user_ids))
          users);
}

-- What stops `prepareWarpPolicy` before it looks for the router.
unfoldable pub provider_error : Outside → WarpSettings → Option SyncError
provider_error o s =
    if s.enabled && (s.provider === codes "firefox")
    then elim o.firefox_linked [
      | inl e ↦ some (failed e)
      | inr linked ↦ if linked then none else some firefox_reauth_required
    ]
    else if s.enabled && (s.provider === codes "psiphon") && not o.has_psiphon
    then some psiphon_not_installed
    else none

-- The part of `prepareWarpPolicy` that replaces the policy.
unfoldable pub apply_policy : Outside → Text → World → World × (SyncError ⊎ Bool)
unfolding did
apply_policy o json w =
    if or_empty w.policy === json then (w, inr false) else elim o.writes_policy [
      | some e ↦ (w, inl (failed e))
      | none ↦
          let written = record (did (write_policy json) w) { policy = some json } in
          elim o.syncs_warp [
            | none ↦ (did sync_warp written, inr true)
            | some e ↦ (
              record (did remove_policy (did sync_warp written)) { policy = none },
              inl (failed e),
            )
          ]
    ]

unfoldable pub prepare_warp_policy :
    Outside → WarpSettings → List User → World → World × (SyncError ⊎ Bool)
unfolding provider_error policy_of apply_policy
prepare_warp_policy o s users w = elim (provider_error o s) [
  | some e ↦ (w, inl e)
  | none ↦
      if not o.has_router
      then (w, if s.enabled then inl warp_not_installed else inr false)
      else apply_policy o (o.policy_text (policy_of s users)) w
]

-- The error of `prepareWarpPolicy`, which is kept for the end, and whether it changed the policy.
abbrev pub warp_error : SyncError ⊎ Bool → Option SyncError
warp_error (inl e) = some e
warp_error (inr changed) = none

abbrev pub warp_changed : SyncError ⊎ Bool → Bool
warp_changed (inl e) = false
warp_changed (inr changed) = changed

-- The part of `syncXray` that replaces the configuration.
unfoldable pub replace_config : Outside → Text → Option SyncError → World → World × Option SyncError
unfolding did
replace_config o json late w =
    let collected = did collect w in
    elim o.collects [
      | some e ↦ (did stop_xray collected, some (failed (elim o.stops [ none ↦ e | some f ↦ f ])))
      | none ↦ elim o.writes_config [
        | some e ↦ (collected, some (failed e))
        | none ↦
            let synced =
              did sync_config (record (did (write_config json) collected) { config = some json }) in
            elim o.syncs_config [
              | none ↦ (synced, late)
              | some e ↦ (
                record (did remove_config (did stop_xray synced)) { config = none },
                some (failed e),
              )
            ]
      ]
    ]

-- The test whether the configuration stands, and what follows.
unfoldable pub compare_config : Outside → Text → SyncError ⊎ Bool → World → World × Option SyncError
unfolding replace_config
compare_config o json warp w =
    if not (warp_changed warp) && (or_empty w.config === json)
    then elim o.epoch [
      | inl e ↦ (w, some (failed e))
      | inr epoch ↦
          if trim epoch === codes "stopped"
          then replace_config o json (warp_error warp) w
          else (w, warp_error warp)
    ]
    else replace_config o json (warp_error warp) w

unfoldable pub sync_xray :
    Outside → ℕ → Bool → Bool → WarpSettings → List User → World → World × Option SyncError
unfolding prepare_warp_policy compare_config
sync_xray o now enabled relay_enabled s users w =
    if not o.has_xray
    then (w, if enabled then some xray_not_installed else none)
    else let prepared = prepare_warp_policy o s users w in
      elim (build_xray_config now users enabled relay_enabled) [
        | none ↦ (prepared.0, some invalid_xray_identity)
        | some inbounds ↦ compare_config o (o.config_text inbounds) prepared.1 prepared.0
      ]
