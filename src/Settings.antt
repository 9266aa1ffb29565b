-- ===== src/Settings.antt =====
-- The panel's settings: backend/src/services/settings.js. The table has, under the name of a section,
-- the fields that were set. The schemas of zod are a parameter.
pub mod Defaults
pub mod Merged
pub mod Relay
use zvpn.Base.{
  ℕ, Bool, true, false, not, ◌&&◌, ◌||◌, Option, none, some, List, [], ◌∷◌, Text, codes, ◌===◌, get,
  put, put_all, if◌then◌else◌, is_empty,
}
use zvpn.Settings.Defaults.{
  Json, bool, text, Fields, is_truthy, Config, defaults, xray_relay_defaults,
}

pub record Outside : Type 0 where
  pub config : Config
  pub parse : Text → Fields → Option Fields

abbrev pub Table : Type 0
Table = List (Text × Fields)

-- `{ ...base, ...fields }`, and `base || fields` of the database.
unfoldable pub spread : Fields → Fields → Fields
unfolding put_all
spread base fields = put_all fields base

abbrev pub field : Text → Fields → Json
field name fields = elim (get name fields) [ none ↦ Json.null | some v ↦ v ]

abbrev pub default_of : Outside → Text → Fields
default_of o section = elim (get section (defaults o.config)) [ none ↦ [] | some fields ↦ fields ]

abbrev pub text_or : Text → Text → Text
text_or t other = if is_empty t then other else t

-- The names of the server, where the settings have none.
unfoldable pub vpn_fallback : Config → Fields → Fields
vpn_fallback c vpn =
    let addressed =
      if is_truthy (field (codes "serverAddress") vpn)
      then vpn
      else put (codes "serverAddress") (text c.vpn_server) vpn in
    if is_truthy (field (codes "remoteId") addressed)
    then addressed
    else put (codes "remoteId")
        (if is_empty c.vpn_remote_id
          then field (codes "serverAddress") addressed
          else text c.vpn_remote_id)
        addressed

abbrev pub finish : Outside → Text → Fields → Fields
finish o section merged = if section === codes "vpn" then vpn_fallback o.config merged else merged

-- `getSetting`
unfoldable pub get_setting : Outside → Text → Table → Fields
unfolding spread vpn_fallback
get_setting o section t = finish o section (elim (get section t) [
  | none ↦ default_of o section
  | some fields ↦ spread (default_of o section) fields
])

-- The loop of `getSettings` over the rows, and its last lines.
unfoldable pub merge_rows : Table → List (Text × Fields) → List (Text × Fields)
unfolding spread
merge_rows [] out = out
merge_rows ((key, fields) ∷ rows) out = elim (get key out) [
  | none ↦ merge_rows rows out
  | some base ↦ merge_rows rows (put key (spread base fields) out)
]

unfoldable pub get_settings : Outside → Table → List (Text × Fields)
unfolding merge_rows vpn_fallback
get_settings o t =
    let out = merge_rows t (defaults o.config) in
    elim (get (codes "vpn") out) [
      | none ↦ out
      | some vpn ↦ put (codes "vpn") (vpn_fallback o.config vpn) out
    ]

abbrev pub has_fields : Fields → Bool
has_fields [] = false
has_fields (f ∷ fields) = true

-- `validateSettingsPatch`
unfoldable pub validate_settings_patch : Outside → Text → Fields → Option Fields
validate_settings_patch o section value = elim (o.parse section value) [
  | none ↦ none
  | some patch ↦ if has_fields patch then some patch else none
]

pub data SettingsError : Type 0 where
  invalid_settings : SettingsError
  schema_error : SettingsError
  relay_hostname_required : SettingsError
  relay_origin_must_differ : SettingsError
  database_error : SettingsError

-- `xrayRelayPolicy`: a policy, or the error.
pub data Policy : Type 0 where
  policy : Fields → Policy
  no_policy : SettingsError → Policy

unfoldable pub xray_relay_policy : Outside → Fields → Policy
unfolding spread
xray_relay_policy o value = elim (o.parse (codes "xrayRelay") value) [
  | none ↦ no_policy schema_error
  | some parsed ↦
      let all = spread xray_relay_defaults parsed in
      if is_truthy (field (codes "enabled") all) && not (is_truthy (field (codes "hostname") all))
      then no_policy relay_hostname_required
      else policy all
]

abbrev pub is_same_text : Json → Text → Bool
is_same_text (text t) s = t === s
is_same_text _ s = false

-- The check of a relay's patch before it is stored.
unfoldable pub check_relay : Outside → Text → Fields → Table → Option SettingsError
unfolding xray_relay_policy get_setting
check_relay o section patch t =
    if not (section === codes "xrayRelay")
    then none
    else elim (xray_relay_policy o (spread (get_setting o section t) patch)) [
      | no_policy e ↦ some e
      | policy all ↦
          if is_same_text (field (codes "hostname") all) o.config.public_host
          then some relay_origin_must_differ
          else none
    ]

-- What `updateSettings` returns and leaves, and whether it drops the cached configuration; or the
-- error that it throws. The names in a patch are trimmed by their schema. `saves` is whether the
-- statement that stores the patch succeeds: one that fails stores nothing.
pub data Updated : Type 0 where
  throws : SettingsError → Updated
  updated : Fields → Table → Bool → Updated

abbrev pub stored : Text → Fields → Table → Fields
stored section patch t = elim (get section t) [ none ↦ patch | some fields ↦ spread fields patch ]

unfoldable pub update_settings : Outside → Bool → Text → Fields → Table → Updated
unfolding validate_settings_patch check_relay spread vpn_fallback
update_settings o saves section value t = elim (validate_settings_patch o section value) [
  | none ↦ throws invalid_settings
  | some patch ↦ elim (check_relay o section patch t) [
    | some e ↦ throws e
    | none ↦
        if saves
        then updated (finish o section (spread (default_of o section) (stored section patch t)))
            (put section (stored section patch t) t) (section === codes "vpn")
        else throws database_error
  ]
]

unfoldable pub get_max_devices_policy : Outside → Table → Json
unfolding get_setting
get_max_devices_policy o t =
    let policy = field (codes "maxDevicesPolicy") (get_setting o (codes "vpn") t) in
    if is_truthy policy then policy else text (codes "disconnect_oldest")
