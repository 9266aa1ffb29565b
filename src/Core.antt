-- ===== src/Core.antt =====
-- The core that serves Xray: backend/src/services/xrayConfig.js, whose configuration `syncXray` of
-- xray.js applies and whose counters `parseXrayStats` reads.
pub mod Stats
pub mod Apply
pub mod Applied
pub mod Settled
use zvpn.Base.{
  ℕ, ◌+◌, Bool, true, false, not, ◌&&◌, ◌||◌, Option, none, some, List, [], ◌∷◌, ◌++◌, Text, codes,
  ◌===◌, ◌==◌, get, put, if◌then◌else◌, take, drop, length, every, is_digit, between, keep,
  is_empty,
}
use zvpn.Accounts.{Account}
use zvpn.Accounts.Quota.{eligible_user}
use zvpn.Backup.{is_uuid}
use zvpn.Metering.Xray.{Transport, direct, netlify, iran, other}

pub record User : Type 0 where
  pub id : Text
  pub username : Text
  pub xray_uuid : Text
  pub account : Account

pub record Client : Type 0 where
  pub id : Text
  pub email : Text
  pub level : ℕ

-- `xrayIdentity`, with the prefix that an inbound's e-mails have; `none` is INVALID_XRAY_IDENTITY.
unfoldable pub xray_identity : Text → User → Option Client
xray_identity prefix u =
    if not (is_uuid u.id) || not (is_uuid u.xray_uuid)
    then none
    else some (record { id = u.xray_uuid; email = prefix ++ u.id; level = 0 })

unfoldable pub identities : Text → List User → Option (List Client)
unfolding xray_identity
identities prefix [] = some []
identities prefix (u ∷ users) = elim (xray_identity prefix u) [
  | none ↦ none
  | some c ↦ elim (identities prefix users) [ none ↦ none | some clients ↦ some (c ∷ clients) ]
]

-- The clients of an inbound that is served, which are the eligible users, or of one that is not.
unfoldable pub clients_of : ℕ → Bool → Text → List User → Option (List Client)
unfolding identities
clients_of now served prefix users =
    if served then identities prefix (keep (λ u. eligible_user now u.account) users) else some []

pub record Inbound : Type 0 where
  pub tag : Text
  pub port : ℕ
  pub protocol : Text
  pub path : Option Text
  pub clients : List Client

abbrev pub prefix_of : Transport → Text
prefix_of netlify = codes "zvpn-netlify-"
prefix_of iran = codes "zvpn-iran-"
prefix_of direct = codes "zvpn-"
prefix_of other = codes "zvpn-"

abbrev pub vless : Text → ℕ → Text → List Client → Inbound
vless tag port path clients = record {
  tag = tag;
  port = port;
  protocol = codes "vless";
  path = some path;
  clients = clients;
}

abbrev pub api_inbound : Inbound
api_inbound = record {
  tag = codes "api-in";
  port = 10086;
  protocol = codes "dokodemo-door";
  path = none;
  clients = [];
}

-- `buildXrayConfig`: its inbounds. All else in the configuration is the same for all arguments.
unfoldable pub build_xray_config : ℕ → List User → Bool → Bool → Option (List Inbound)
unfolding clients_of
build_xray_config now users enabled iran_enabled =
    elim (clients_of now enabled (prefix_of direct) users) [
      | none ↦ none
      | some direct_clients ↦ elim (clients_of now enabled (prefix_of netlify) users) [
        | none ↦ none
        | some netlify_clients ↦
            elim (clients_of now (enabled && iran_enabled) (prefix_of iran) users) [
              | none ↦ none
              | some iran_clients ↦ some (
                  api_inbound
                  ∷ vless (codes "zvpn-vless") 10085 (codes "/zvpn-xhttp/") direct_clients
                  ∷ vless (codes "zvpn-netlify") 10090 (codes "/zvpn-netlify/") netlify_clients
                  ∷ vless (codes "zvpn-iran") 10091 (codes "/zvpn-iran/") iran_clients
                  ∷ [])
            ]
      ]
    ]

-- `stat.value`: missing, a number that is safe, a number that is not, a text that `BigInt` reads, or
-- one that it does not or whose number is negative.
pub data StatValue : Type 0 where
  missing : StatValue
  safe : ℕ → StatValue
  unreadable : StatValue

pub record Stat : Type 0 where
  pub name : Text
  pub value : StatValue

-- The text after a prefix, where it has the prefix.
unfoldable pub after_prefix : Text → Text → Option Text
after_prefix [] t = some t
after_prefix (c ∷ prefix) [] = none
after_prefix (c ∷ prefix) (d ∷ t) = if c == d then after_prefix prefix t else none

abbrev pub is_id_char : ℕ → Bool
is_id_char c = is_digit c || between b'a' b'f' c || c == b'-'

pub data Link : Type 0 where
  uplink : Link
  downlink : Link

pub record Match : Type 0 where
  pub transport : Transport
  pub user_id : Text
  pub link : Link

-- An optional prefix of a transport.
unfoldable pub transport_in : Text → Transport × Text
unfolding after_prefix
transport_in t = elim (after_prefix (codes "netlify-") t) [
  | some rest ↦ (netlify, rest)
  | none ↦ elim (after_prefix (codes "iran-") t) [ some rest ↦ (iran, rest) | none ↦ (direct, t) ]
]

abbrev pub link_in : Text → Option Link
link_in t =
    if t === codes ">>>traffic>>>uplink"
    then some uplink
    else if t === codes ">>>traffic>>>downlink"
    then some downlink
    else none

-- What stands after the transport: `([0-9a-f-]{36})>>>traffic>>>(uplink|downlink)$`, and the test that
-- the first group is a UUID.
unfoldable pub match_in : Transport × Text → Option Match
match_in (transport, t) =
    let id = take 36 t in
    if not (length id == 36) || not (every is_id_char id) || not (is_uuid id)
    then none
    else elim (link_in (drop 36 t)) [
      | none ↦ none
      | some link ↦ some (record { transport = transport; user_id = id; link = link })
    ]

-- `/^user>>>zvpn-(netlify-|iran-)?([0-9a-f-]{36})>>>traffic>>>(uplink|downlink)$/`, and the test that
-- the second group is a UUID. The groups cannot match in another way: no transport starts with a
-- character of an id.
unfoldable pub match_name : Text → Option Match
unfolding after_prefix transport_in match_in
match_name t = elim (after_prefix (codes "user>>>zvpn-") t) [
  | none ↦ none
  | some rest ↦ match_in (transport_in rest)
]

pub record Item : Type 0 where
  pub transport : Transport
  pub user_id : Text
  pub uplink : ℕ
  pub downlink : ℕ

abbrev pub suffix_of : Transport → Text
suffix_of netlify = codes ":netlify"
suffix_of iran = codes ":iran"
suffix_of direct = []
suffix_of other = []

abbrev pub set_link : Link → ℕ → Item → Item
set_link uplink n item = record item { uplink = n }
set_link downlink n item = record item { downlink = n }

abbrev pub count_of : StatValue → Option ℕ
count_of missing = some 0
count_of (safe n) = some n
count_of unreadable = none

abbrev pub new_item : Match → Item
new_item m = record { transport = m.transport; user_id = m.user_id; uplink = 0; downlink = 0 }

-- `parseXrayStats`, from the entries that are there; `none` where it throws.
unfoldable pub parse_xray_stats : List Stat → List (Text × Item) → Option (List (Text × Item))
unfolding match_name
parse_xray_stats [] result = some result
parse_xray_stats (s ∷ stats) result = elim (match_name s.name) [
  | none ↦ parse_xray_stats stats result
  | some m ↦ elim (count_of s.value) [
    | none ↦ none
    | some n ↦
        let key = m.user_id ++ suffix_of m.transport in
        let item : Item = elim (get key result) [ none ↦ new_item m | some item ↦ item ] in
        parse_xray_stats stats (put key (set_link m.link n item) result)
  ]
]
