-- ===== src/Tests/Relays.antt =====
-- Relay templates (backend/src/services/ikeRelayConfig.js and xrayRelayConfig.js) at concrete inputs.
use zvpn.Base.{
  ◌≡◌, refl, none, some, List, [], ◌∷◌, ◌++◌, Text, codes, ◌===◌, show_number, keep, not, All, true,
  false,
}
use zvpn.Relay.{
  Fragment, Template, Rule, number, merge_relay_template, merged, owns, fragment_inbound,
  fragment_rule, owns_option, has_text,
}
use zvpn.Relay.Routes.{routes, general}
use zvpn.Relay.Outcome.{rules_of, inbounds_of}
use zvpn.Relay.Again.{merge_again}
use zvpn.Relay.Outcome.{merge_relay_template-routes, merge_relay_template-inbounds}

abbrev fragment : Fragment
fragment = record {
  tag = codes "zvpn-ike";
  port = 4500;
  allowed_network = codes "udp";
  rewrite_address = codes "10.0.0.1";
  rewrite_port = 4500;
  outbound_tag = codes "out";
}

abbrev rule : List Text → Text → Rule
rule tags outbound = record {
  inbound_tag = some tags;
  outbound_tag = some outbound;
  rest = codes "field";
}

-- Traffic of every inbound to private addresses is blocked.
abbrev block : Rule
block = record { inbound_tag = none; outbound_tag = some (codes "block"); rest = codes "private" }

-- A panel whose traffic of an inbound `web` and of an older relay goes out elsewhere.
abbrev template : Template
template = record {
  inbounds = some (
      record {
        tag = some (codes "web");
        port = number 443;
        protocol = none;
        allowed_network = none;
        rewrite_port = none;
        rest = [];
      }
      ∷ fragment_inbound fragment
      ∷ []);
  outbounds = some (record { tag = some (codes "out"); rest = [] } ∷ []);
  rules = some (
      rule (codes "api-in" ∷ []) (codes "api")
      ∷ block
      ∷ rule (codes "web" ∷ codes "zvpn-ike" ∷ []) (codes "direct")
      ∷ []);
  rest = [];
}

abbrev result : Template
result = record {
  inbounds = some (
      record {
        tag = some (codes "web");
        port = number 443;
        protocol = none;
        allowed_network = none;
        rewrite_port = none;
        rest = [];
      }
      ∷ fragment_inbound fragment
      ∷ []);
  outbounds = some (record { tag = some (codes "out"); rest = [] } ∷ []);
  rules = some (
      rule (codes "api-in" ∷ []) (codes "api")
      ∷ fragment_rule fragment
      ∷ block
      ∷ rule (codes "web" ∷ []) (codes "direct")
      ∷ []);
  rest = [];
}

merges : merge_relay_template fragment template ≡ merged result
unfolding merge_relay_template ◌===◌ show_number
merges = refl

merge_again_example : merge_relay_template fragment result ≡ merged result
merge_again_example = merge_again fragment template result merges

merge_relay_template-routes_example :
    ((tag : Text)
      → owns fragment (inbounds_of template) tag ≡ false
      → routes tag (rules_of result) ≡ routes tag (rules_of template))
    × ((before : List Rule) × (after : List Rule) × (rules_of result
          ≡ before ++ fragment_rule fragment ∷ after)
        × All (λ r. has_text r.outbound_tag (codes "api") ≡ true) before
        × (routes fragment.tag (before ++ after) ≡ general (rules_of template)))
merge_relay_template-routes_example = merge_relay_template-routes fragment template result merges

merge_relay_template-inbounds_example :
    inbounds_of result
    ≡ keep
        (λ v. not (owns_option (owns fragment (inbounds_of template)) v.tag))
        (inbounds_of template)
      ++ fragment_inbound fragment ∷ []
merge_relay_template-inbounds_example =
    (merge_relay_template-inbounds fragment template result merges).0
