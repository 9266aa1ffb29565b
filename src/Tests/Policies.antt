-- ===== src/Tests/Policies.antt =====
-- Settings (backend/src/services/settings.js, ikeRelay.js), and the core's configuration
-- (xray.js, xrayConfig.js) at concrete inputs.
use zvpn.Base.{
  ◌≡◌, ◌⊎◌, Bool, inr, refl, true, false, none, some, Option, List, [], ◌∷◌, Text, codes, ◌===◌,
  get, put, put_all, split_on,
}
use zvpn.Settings.Defaults.{bool, text, Fields, xray_relay_defaults, defaults}
use zvpn.Settings.{
  Outside, Table, get_setting, get_settings, update_settings, updated, throws, SettingsError,
}
use zvpn.Settings.Merged.{update_settings-get_setting, get_settings-get_setting}
use zvpn.Settings.Relay.{
  Provisioned, applies, apply_after, Applied, apply_failed, update_failed, done,
}
use zvpn.Settings.Relay.{apply_after-outcome}
use zvpn.Accounts.Quota.{eligible_user}
use zvpn.Reconcile.{trim}
use zvpn.Backup.{is_uuid}
use zvpn.Tests.Limits.{account}
use zvpn.Metering.Xray.{netlify}
use zvpn.Core.{
  User, Client, uplink, Inbound, xray_identity, build_xray_config, prefix_of, match_name,
}
use zvpn.Core.Stats.{match_name-stat_name, stat_name}
use zvpn.Core.Apply
use zvpn.Core.Apply.{
  WarpSettings, World, Policy, prepare_warp_policy, sync_xray, provider_error, policy_of,
  apply_policy,
}
use zvpn.Core.Applied.{sync_xray-Applies, Applies}
use zvpn.Core.Settled.{sync_xray_again}

-- Schemas that take every value.
abbrev outside : Outside
outside = record {
  config = record {
    panel_name = codes "ZVPN";
    timezone = codes "UTC";
    vpn_server = codes "a.io";
    vpn_remote_id = [];
    public_host = codes "a.io";
  };
  parse = λ section value. some value;
}

abbrev general : Text
general = codes "general"

abbrev named : Text → Fields
named name = (codes "panelName", text name) ∷ []

abbrev table : Table
table = (general, named (codes "old")) ∷ []

abbrev changed : Table
changed = put general (named (codes "new")) table

abbrev shown : Fields
shown = get_setting outside general changed

updates :
    update_settings outside true general (named (codes "new")) table ≡ updated shown changed false
unfolding update_settings ◌===◌ get put put_all get_setting
updates = refl

update_settings-get_setting_example : get_setting outside general changed ≡ shown
update_settings-get_setting_example =
    (update_settings-get_setting outside true general (named (codes "new")) table changed shown
      false updates).0

has_defaults : get (codes "xrayRelay") (defaults outside.config) ≡ some xray_relay_defaults
unfolding get ◌===◌ defaults
has_defaults = refl

get_settings-get_setting_example :
    get (codes "xrayRelay") (get_settings outside table)
    ≡ some (get_setting outside (codes "xrayRelay") table)
unfolding get
get_settings-get_setting_example =
    get_settings-get_setting outside table (refl, tt) (codes "xrayRelay") xray_relay_defaults
      has_defaults

abbrev policy_before : Fields
policy_before = (codes "enabled", bool false) ∷ []

abbrev policy_after : Fields
policy_after = (codes "enabled", bool true) ∷ []

abbrev provisioned : Provisioned
provisioned = record { file = some policy_before; applied = some policy_before; applied_at = 1 }

-- The helper has the new policy, the statement fails, and the old policy is given to the helper again.
abbrev relay_run : Applied × (Table × Provisioned)
relay_run = apply_after outside 9 applies false applies policy_before policy_after table provisioned

abbrev RelayOutcome : Applied × (Table × Provisioned) → Type 0
RelayOutcome r =
    ((shown : Fields) × (drops : Bool) × (r.0 ≡ done shown)
      × (update_settings outside false (codes "ikeRelay") policy_after table
          ≡ updated shown r.1.0 drops)
      × (r.1.1.file ≡ some policy_after)
      × (r.1.1.applied ≡ some policy_after))
    ⊎ (((e : SettingsError) × (r.0 ≡ update_failed e)
          × (update_settings outside false (codes "ikeRelay") policy_after table ≡ throws e)
          × (r.1.0 ≡ table)
          × (r.1.1.file ≡ some policy_before)
          × (r.1.1.applied ≡ some policy_before))
        ⊎ ((r.0 ≡ apply_failed)
            × (r.1.0 ≡ table)
            × (r.1.1.file ≡ some policy_after)
            × (r.1.1.applied ≡ provisioned.applied)))

apply_after-outcome_example : RelayOutcome relay_run
apply_after-outcome_example =
    apply_after-outcome outside 9 applies false applies policy_before policy_after table provisioned

abbrev user : User
user = record {
  id = codes "0a1b2c3d-0000-4000-8000-00000000000f";
  username = codes "eve";
  xray_uuid = codes "ffffffff-0000-4000-8000-00000000000e";
  account = account (codes "eve") none none;
}

abbrev client : Client
client = record {
  id = codes "ffffffff-0000-4000-8000-00000000000e";
  email = codes "zvpn-netlify-0a1b2c3d-0000-4000-8000-00000000000f";
  level = 0;
}

identified : xray_identity (prefix_of netlify) user ≡ some client
unfolding xray_identity is_uuid split_on
identified = refl

match_name-stat_name_example :
    match_name (stat_name client.email uplink)
    ≡ some (record { transport = netlify; user_id = user.id; link = uplink })
match_name-stat_name_example = match_name-stat_name netlify user client uplink refl identified refl

abbrev warp_settings : WarpSettings
warp_settings = record {
  enabled = true;
  provider = codes "warp";
  scope = codes "all";
  user_ids = [];
  others = [];
}

-- A system in which everything succeeds.
abbrev system : Apply.Outside
system = record {
  policy_text = λ p. codes "policy";
  config_text = λ inbounds. codes "config";
  firefox_linked = inr true;
  has_psiphon = true;
  has_router = true;
  writes_policy = none;
  syncs_warp = none;
  has_xray = true;
  epoch = inr (codes "12");
  collects = none;
  stops = none;
  writes_config = none;
  syncs_config = none;
}

abbrev fresh : World
fresh = record { policy = none; config = none; log = [] }

abbrev inbounds_of : Option (List Inbound) → List Inbound
inbounds_of none = []
inbounds_of (some inbounds) = inbounds

abbrev inbounds : List Inbound
inbounds = inbounds_of (build_xray_config 5 (user ∷ []) true true)

builds : build_xray_config 5 (user ∷ []) true true ≡ some inbounds
unfolding build_xray_config is_uuid split_on eligible_user
builds = refl

sync_xray-Applies_example :
    Applies system
      (codes "config")
      (prepare_warp_policy system warp_settings (user ∷ []) fresh)
      (sync_xray system 5 true true warp_settings (user ∷ []) fresh)
sync_xray-Applies_example =
    sync_xray-Applies system 5 true true warp_settings (user ∷ []) fresh inbounds refl builds

sync_succeeds : (sync_xray system 5 true true warp_settings (user ∷ []) fresh).1 ≡ none
unfolding sync_xray build_xray_config eligible_user is_uuid split_on ◌===◌ trim
sync_succeeds = refl

runs : (trim (codes "12") === codes "stopped") ≡ false
unfolding trim ◌===◌
runs = refl

sync_xray_again_example :
    sync_xray system 5 true true warp_settings
      (user ∷ [])
      (sync_xray system 5 true true warp_settings (user ∷ []) fresh).0
    ≡ ((sync_xray system 5 true true warp_settings (user ∷ []) fresh).0, none)
sync_xray_again_example =
    sync_xray_again system 5 true true warp_settings (user ∷ []) fresh (codes "12") refl runs
      sync_succeeds
