-- ===== src/Relay/Fragments.antt =====
-- The fragments that the panel makes for another panel: `relayTemplate` and `relayTransport` of
-- backend/src/services/ikeRelayConfig.js, and `xrayRelayTemplate` of xrayRelayConfig.js.
use zvpn.Base.{
  [], ℕ, ◌≡◌, refl, sym, ap, ◌∙◌, Bool, false, not, ◌&&◌, ◌||◌, Option, none, some, Text, codes,
  ◌===◌, is_empty, if◌then◌else◌, subst, Bool-cases, ◌⊎◌, inl, inr,
}
use zvpn.Settings.Defaults.{number, text, Fields}
use zvpn.Settings.{Outside, field, Policy, policy, no_policy, SettingsError, xray_relay_policy}
use zvpn.Settings.Relay.{relay_policy}
use zvpn.Relay.{Fragment, Template, merge_xray_relay_template, merged, test_tag}
use zvpn.Relay.Outcome.{merge_xray_again}

-- `isIP(origin) === 4`, and whether `relayHostname` takes a name.
pub record Names : Type 0 where
  pub is_ipv4 : Text → Bool
  pub is_hostname : Text → Bool

pub data FragmentError : Type 0 where
  bad_policy : SettingsError → FragmentError
  bad_hostname : FragmentError
  hostname_required : FragmentError
  invalid_relay_origin : FragmentError

pub data Made : Type 0 where
  made : Fragment → Made
  not_made : FragmentError → Made

-- The fields of a policy, which the schema has checked.
abbrev pub port_field : Fields → ℕ
port_field p = elim (field (codes "port") p) [ number n ↦ n | _ ↦ 0 ]

abbrev pub text_field : Text → Fields → Text
text_field name p = elim (field name p) [ text t ↦ t | _ ↦ [] ]

abbrev pub relay_connection : Text
relay_connection = codes "zvpn-ike-relay"

-- `relayTransport`: whether a connection came over the relay.
abbrev pub is_relay_transport : Text → Bool
is_relay_transport name = relay_connection === name || codes "ikev2-ir-test" === name

unfoldable pub relay_template : Outside → Names → Fields → Text → Made
relay_template o names value origin = elim (relay_policy o value) [
  | no_policy e ↦ not_made (bad_policy e)
  | policy p ↦
      if not (names.is_ipv4 origin) && not (names.is_hostname origin)
      then not_made bad_hostname
      else made (record {
        tag = relay_connection;
        port = port_field p;
        allowed_network = codes "udp";
        rewrite_address = origin;
        rewrite_port = 4500;
        outbound_tag = text_field (codes "outboundTag") p;
      })
]

-- A parsed URL; a port that is its scheme's is none.
pub record BaseUrl : Type 0 where
  pub protocol : Text
  pub hostname : Text
  pub port : Option ℕ

abbrev pub xray_tag : Text
xray_tag = codes "zvpn-xray-iran"

unfoldable pub xray_relay_template : Outside → Names → Fields → BaseUrl → Made
xray_relay_template o names value url = elim (xray_relay_policy o value) [
  | no_policy e ↦ not_made (bad_policy e)
  | policy p ↦
      if not (names.is_hostname url.hostname)
      then not_made bad_hostname
      else if is_empty (text_field (codes "hostname") p)
      then not_made hostname_required
      else if not (url.protocol === codes "https:")
          || is_empty url.hostname
          || url.hostname === text_field (codes "hostname") p
      then not_made invalid_relay_origin
      else made (record {
        tag = xray_tag;
        port = port_field p;
        allowed_network = codes "tcp";
        rewrite_address = url.hostname;
        rewrite_port = elim url.port [ none ↦ 443 | some n ↦ n ];
        outbound_tag = text_field (codes "outboundTag") p;
      })
]

made_tag : Made → Text
made_tag (made f) = f.tag
made_tag (not_made e) = xray_tag

Policy-cases :
    (p : Policy) → ((f : Fields) × (p ≡ policy f)) ⊎ ((e : SettingsError) × (p ≡ no_policy e))
Policy-cases (policy f) = inl (f, refl)
Policy-cases (no_policy e) = inr (e, refl)

tag_of_made :
    (o : Outside) (names : Names) (value : Fields) (url : BaseUrl)
    → made_tag (xray_relay_template o names value url) ≡ xray_tag
unfolding made_tag xray_relay_template
tag_of_made o names value url = elim (Policy-cases (xray_relay_policy o value)) [
  | inr k ↦ rw (xray_relay_template, k.1) refl
  | inl k ↦ elim (Bool-cases (names.is_hostname url.hostname)) [
    | inr e ↦ rw (xray_relay_template, k.1, e) refl
    | inl e ↦ elim (Bool-cases (is_empty (text_field (codes "hostname") k.0))) [
      | inl g ↦ rw (xray_relay_template, k.1, e, g) refl
      | inr g ↦
          elim (Bool-cases (
            not (url.protocol === codes "https:")
            || is_empty url.hostname
            || url.hostname === text_field (codes "hostname") k.0)) [
              | inl i ↦ rw (xray_relay_template, k.1, e, g, i) refl
              | inr i ↦ rw (xray_relay_template, k.1, e, g, i) refl
            ]
    ]
  ]
]

-- Merging a fragment that the panel made for Xray again changes nothing: what succeeds once succeeds
-- on its own result, which it returns as it is.
pub merge_made_again :
    (o : Outside) (names : Names) (value : Fields) (url : BaseUrl) (f : Fragment) (t t' : Template)
    → xray_relay_template o names value url ≡ made f
    → merge_xray_relay_template f t ≡ merged t'
    → merge_xray_relay_template f t' ≡ merged t'
unfolding made_tag ◌===◌
merge_made_again o names value url f t t' e h =
    let tag : xray_tag ≡ f.tag = sym (tag_of_made o names value url) ∙ ap made_tag e in
    merge_xray_again f (subst (λ x. (x === test_tag) ≡ false) tag refl) t t' h
