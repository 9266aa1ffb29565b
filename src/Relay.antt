-- ===== src/Relay.antt =====
-- backend/src/services/ikeRelayConfig.js and xrayRelayConfig.js: the merge of a relay's fragment
-- into the Xray template of another panel. Of the values of the template those fields are
-- represented that the code reads or writes; `rest` is all else, which is carried along. The entries
-- of its arrays are objects, and an `inboundTag` that is present is an array.
pub mod Rules
pub mod Routes
pub mod Merge
pub mod Again
pub mod Outcome
pub mod Fragments
use zvpn.Base.{
  ℕ, ◌≡◌, Bool, true, false, not, ◌&&◌, ◌||◌, Option, none, some, List, [], ◌∷◌, ◌++◌, Text, codes,
  ◌===◌, ◌==◌, keep, any, map, if◌then◌else◌, show_number,
}

-- A port is a number, a text, or neither.
pub data Port : Type 0 where
  number : ℕ → Port
  text : Text → Port
  absent : Port

pub record Inbound : Type 0 where
  pub tag : Option Text
  pub port : Port
  pub protocol : Option Text
  pub allowed_network : Option Text
  pub rewrite_port : Option ℕ
  pub rest : Text

pub record Outbound : Type 0 where
  pub tag : Option Text
  pub rest : Text

pub record Rule : Type 0 where
  pub inbound_tag : Option (List Text)
  pub outbound_tag : Option Text
  pub rest : Text

-- `none` is a part that is missing or no array.
pub record Template : Type 0 where
  pub inbounds : Option (List Inbound)
  pub outbounds : Option (List Outbound)
  pub rules : Option (List Rule)
  pub rest : Text

-- A fragment is one inbound and one rule, of the shape that `relayTemplate` and
-- `xrayRelayTemplate` give them.
pub record Fragment : Type 0 where
  pub tag : Text
  pub port : ℕ
  pub allowed_network : Text
  pub rewrite_address : Text
  pub rewrite_port : ℕ
  pub outbound_tag : Text

unfoldable pub fragment_inbound : Fragment → Inbound
fragment_inbound f = record {
  tag = some f.tag;
  port = number f.port;
  protocol = some (codes "tunnel");
  allowed_network = some f.allowed_network;
  rewrite_port = some f.rewrite_port;
  rest = f.rewrite_address;
}

unfoldable pub fragment_rule : Fragment → Rule
fragment_rule f = record {
  inbound_tag = some (f.tag ∷ []);
  outbound_tag = some f.outbound_tag;
  rest = codes "field";
}

pub data MergeError : Type 0 where
  invalid_xray_template : MergeError
  relay_outbound_not_found : MergeError
  relay_port_in_use : MergeError

pub data Merged : Type 0 where
  merged : Template → Merged
  refused : MergeError → Merged

abbrev pub has_text : Option Text → Text → Bool
has_text none t = false
has_text (some s) t = s === t

abbrev pub has_number : Option ℕ → ℕ → Bool
has_number none n = false
has_number (some m) n = m == n

abbrev pub includes : Text → List Text → Bool
includes t = any λ s. s === t

-- `String(v.port)`
unfoldable pub show_port : Port → Text
show_port (number n) = show_number n
show_port (text t) = t
show_port absent = codes "undefined"

-- `ir-ike-test-${inbound.port}`
unfoldable pub legacy_tag : ℕ → Text
legacy_tag port = codes "ir-ike-test-" ++ show_number port

unfoldable pub is_legacy : ℕ → Inbound → Bool
unfolding legacy_tag
is_legacy port v =
    has_text v.tag (legacy_tag port)
    && has_text v.protocol (codes "tunnel")
    && has_text v.allowed_network (codes "udp")
    && has_number v.rewrite_port 4500

-- `owned.has(tag)`: the fragment's own tag, and that of the legacy inbound if there is one.
unfoldable pub owns : Fragment → List Inbound → Text → Bool
unfolding is_legacy legacy_tag
owns f inbounds tag = f.tag === tag || any (is_legacy f.port) inbounds && legacy_tag f.port === tag

abbrev pub owns_option : (Text → Bool) → Option Text → Bool
owns_option owned none = false
owns_option owned (some tag) = owned tag

-- A rule without the owned tags: none if it has no other.
unfoldable pub disown : (Text → Bool) → Rule → List Rule
disown owned r = elim r.inbound_tag [
  | none ↦ r ∷ []
  | some tags ↦ if not (any owned tags) then r ∷ [] else elim (keep (λ t. not (owned t)) tags) [
    | [] ↦ []
    | t ∷ rest ↦ record r { inbound_tag = some (t ∷ rest) } ∷ []
  ]
]

unfoldable pub disown_all : (Text → Bool) → List Rule → List Rule
unfolding disown
disown_all owned [] = []
disown_all owned (r ∷ rules) = disown owned r ++ disown_all owned rules

-- `splice` at the first rule that does not go to the control API, or at the end.
unfoldable pub insert_rule : Rule → List Rule → List Rule
insert_rule r [] = r ∷ []
insert_rule r (s ∷ rules) =
    if has_text s.outbound_tag (codes "api") then s ∷ insert_rule r rules else r ∷ s ∷ rules

-- A port of another inbound.
unfoldable pub uses_port : Fragment → (Text → Bool) → Inbound → Bool
unfolding show_port
uses_port f owned v = not (owns_option owned v.tag) && show_port v.port === show_number f.port

unfoldable pub merge_parts : Fragment → Template → List Inbound → List Outbound → List Rule → Merged
unfolding owns uses_port disown_all insert_rule fragment_inbound fragment_rule
merge_parts f t inbounds outbounds rules =
    let owned = owns f inbounds in
    if not (any (λ v. has_text v.tag f.outbound_tag) outbounds)
    then refused relay_outbound_not_found
    else if any (uses_port f owned) inbounds
    then refused relay_port_in_use
    else merged (record t {
      inbounds =
          some (keep (λ v. not (owns_option owned v.tag)) inbounds ++ fragment_inbound f ∷ []);
      rules = some (insert_rule (fragment_rule f) (disown_all owned rules));
    })

unfoldable pub merge_relay_template : Fragment → Template → Merged
unfolding merge_parts
merge_relay_template f t = elim t.inbounds [
  | none ↦ refused invalid_xray_template
  | some inbounds ↦ elim t.outbounds [
    | none ↦ refused invalid_xray_template
    | some outbounds ↦ elim t.rules [
      | none ↦ refused invalid_xray_template
      | some rules ↦ merge_parts f t inbounds outbounds rules
    ]
  ]
]

abbrev pub test_tag : Text
test_tag = codes "zvpn-xray-relay-test"

abbrev pub is_port : ℕ → Port → Bool
is_port n (number m) = m == n
is_port n (text t) = false
is_port n absent = false

unfoldable pub is_xray_legacy : ℕ → Inbound → Bool
is_xray_legacy port v =
    has_text v.tag test_tag
    && is_port port v.port
    && has_text v.protocol (codes "tunnel")
    && has_text v.allowed_network (codes "tcp")

-- The tag of the first legacy inbound is changed.
unfoldable pub rename_first : ℕ → List Inbound → List Inbound
unfolding is_xray_legacy
rename_first port [] = []
rename_first port (v ∷ inbounds) =
    if is_xray_legacy port v
    then record v { tag = some (codes "zvpn-xray-iran") } ∷ inbounds
    else v ∷ rename_first port inbounds

abbrev pub rename_tag : Text → Text
rename_tag t = if t === test_tag then codes "zvpn-xray-iran" else t

unfoldable pub rename_rule : Rule → Rule
rename_rule r = record r {
  inbound_tag = elim r.inbound_tag [ none ↦ none | some tags ↦ some (map rename_tag tags) ];
}

-- The renaming of `mergeXrayRelayTemplate`, where there is a legacy inbound.
unfoldable pub adopt_legacy : ℕ → Template → Template
unfolding is_xray_legacy rename_first rename_rule
adopt_legacy port t = elim t.inbounds [
  | none ↦ t
  | some inbounds ↦
      if any (is_xray_legacy port) inbounds
      then record t {
        inbounds = some (rename_first port inbounds);
        rules = elim t.rules [ none ↦ none | some rules ↦ some (map rename_rule rules) ];
      }
      else t
]

unfoldable pub merge_xray_relay_template : Fragment → Template → Merged
unfolding adopt_legacy merge_relay_template
merge_xray_relay_template f t = merge_relay_template f (adopt_legacy f.port t)
