-- ===== src/Settings/Defaults.antt =====
-- The values of settings, and the defaults of backend/src/services/settings.js, warpDefaults.js,
-- netlifyConfig.js, ikeRelayConfig.js and xrayRelayConfig.js.
use zvpn.Base.{ℕ, Bool, true, false, not, List, [], ◌∷◌, ◌++◌, Text, codes, ◌==◌, is_empty}

-- A value of a setting; a number that is a fraction is kept as its text.
pub data Json : Type 0 where
  null : Json
  bool : Bool → Json
  number : ℕ → Json
  fraction : Text → Json
  text : Text → Json
  texts : List Text → Json

abbrev pub Fields : Type 0
Fields = List (Text × Json)

abbrev pub is_truthy : Json → Bool
is_truthy null = false
is_truthy (bool b) = b
is_truthy (number n) = not (n == 0)
is_truthy (fraction t) = true
is_truthy (text t) = not (is_empty t)
is_truthy (texts ts) = true

pub record Config : Type 0 where
  pub panel_name : Text
  pub timezone : Text
  pub vpn_server : Text
  pub vpn_remote_id : Text
  pub public_host : Text

abbrev pub google_companion_domains : List Text
google_companion_domains =
    codes "clients4.google.com"
    ∷ codes "clients6.google.com"
    ∷ codes "play.google.com"
    ∷ codes "safebrowsing.google.com"
    ∷ []

abbrev pub gemini_domains : List Text
gemini_domains =
    (codes "gemini.google.com"
      ∷ codes "gemini.google"
      ∷ codes "bard.google.com"
      ∷ codes "aistudio.google.com"
      ∷ codes "makersuite.google.com"
      ∷ codes "ai.google.dev"
      ∷ codes "alkalicore-pa.clients6.google.com"
      ∷ codes "alkalimakersuite-pa.clients6.google.com"
      ∷ codes "webchannel-alkalimakersuite-pa.clients6.google.com"
      ∷ codes "geminiweb-pa.clients.google.com"
      ∷ codes "geminiweb-pa.clients6.google.com"
      ∷ codes "accounts.google.com"
      ∷ codes "apis.google.com"
      ∷ codes "ogs.google.com"
      ∷ codes "googleapis.com"
      ∷ codes "googleusercontent.com"
      ∷ codes "gstatic.com"
      ∷ codes "www.google.com"
      ∷ codes "recaptcha.net"
      ∷ [])
    ++ google_companion_domains

abbrev pub warp_defaults : Fields
warp_defaults =
    (codes "enabled", bool false)
    ∷ (codes "provider", text (codes "warp"))
    ∷ (codes "antigravityViaWarp", bool false)
    ∷ (codes "scope", text (codes "all"))
    ∷ (codes "userIds", texts [])
    ∷ (codes "domains", texts gemini_domains)
    ∷ (codes "excludedDomains", texts [])
    ∷ (codes "failureMode", text (codes "block"))
    ∷ (codes "disableQuic", bool true)
    ∷ []

abbrev pub relay_defaults : ℕ → Fields
relay_defaults port =
    (codes "enabled", bool false)
    ∷ (codes "hostname", text [])
    ∷ (codes "port", number port)
    ∷ (codes "outboundTag", text (codes "direct"))
    ∷ []

abbrev pub ike_relay_defaults : Fields
ike_relay_defaults = relay_defaults 14450

abbrev pub xray_relay_defaults : Fields
xray_relay_defaults = relay_defaults 14452

abbrev pub netlify_defaults : Fields
netlify_defaults = (codes "enabled", bool false) ∷ (codes "hostname", text []) ∷ []

-- `DEFAULTS`, in the source's order.
unfoldable pub defaults : Config → List (Text × Fields)
defaults c =
    (
      codes "general",
      (codes "panelName", text c.panel_name)
          ∷ (codes "timezone", text c.timezone)
          ∷ (codes "domain", text [])
          ∷ [],
    )
    ∷ (
      codes "vpn",
      (codes "maxDevicesPolicy", text (codes "disconnect_oldest"))
          ∷ (codes "serverAddress", text [])
          ∷ (codes "remoteId", text [])
          ∷ (codes "dns", text [])
          ∷ [],
    )
    ∷ (
      codes "appearance",
      (codes "theme", text (codes "dark"))
          ∷ (codes "animations", bool true)
          ∷ (codes "threeJs", bool true)
          ∷ (codes "glassIntensity", fraction (codes "0.12"))
          ∷ [],
    )
    ∷ (
      codes "download",
      (codes "tokenDays", number 30)
          ∷ (codes "pageTitle", text [])
          ∷ (codes "supportText", text [])
          ∷ [],
    )
    ∷ (codes "xray", (codes "enabled", bool true) ∷ [])
    ∷ (codes "netlify", netlify_defaults)
    ∷ (codes "ikeRelay", ike_relay_defaults)
    ∷ (codes "xrayRelay", xray_relay_defaults)
    ∷ (codes "warp", warp_defaults)
    ∷ (
      codes "telegram",
      (codes "enabled", bool false)
          ∷ (codes "botToken", text [])
          ∷ (codes "chatId", text [])
          ∷ (codes "intervalHours", number 1)
          ∷ (codes "includeAdmins", bool true)
          ∷ (codes "passphrase", text [])
          ∷ (codes "lastBackupAt", null)
          ∷ (codes "lastStatus", null)
          ∷ (codes "lastError", null)
          ∷ [],
    )
    ∷ (
      codes "github",
      (codes "enabled", bool false)
          ∷ (codes "token", text [])
          ∷ (codes "repo", text [])
          ∷ (codes "passphrase", text [])
          ∷ (codes "intervalHours", number 24)
          ∷ (codes "lastBackupAt", null)
          ∷ (codes "lastStatus", null)
          ∷ (codes "lastError", null)
          ∷ [],
    )
    ∷ []
