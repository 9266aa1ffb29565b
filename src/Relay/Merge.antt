-- ===== src/Relay/Merge.antt =====
-- `mergeRelayTemplate`: what the merged template has, and merging again.
use zvpn.Base.{
  ◌≡◌, refl, ◌∙◌, Bool, true, false, not, some, List, [], ◌∷◌, ◌++◌, Text, keep, any, Bool-cases,
  Option-cases, inl, inr, if◌then◌else◌, sym,
}
use zvpn.Relay.{
  Inbound, Outbound, Rule, Template, Fragment, fragment_rule, fragment_inbound, has_text,
  disown_all, insert_rule, owns, owns_option, uses_port, merge_parts, merge_relay_template, merged,
  refused, relay_outbound_not_found, relay_port_in_use,
}

-- The inbounds that stay.
unfoldable pub stay : Fragment → List Inbound → List Inbound
stay f inbounds = keep (λ v. not (owns_option (owns f inbounds) v.tag)) inbounds

-- The template that a merge leaves, part by part.
unfoldable pub merged_inbounds : Fragment → List Inbound → List Inbound
merged_inbounds f inbounds = stay f inbounds ++ fragment_inbound f ∷ []

unfoldable pub merged_rules : Fragment → List Inbound → List Rule → List Rule
merged_rules f inbounds rules = insert_rule (fragment_rule f) (disown_all (owns f inbounds) rules)

unfoldable pub has_outbound : Fragment → List Outbound → Bool
has_outbound f outbounds = any (λ v. has_text v.tag f.outbound_tag) outbounds

unfoldable pub port_taken : Fragment → List Inbound → Bool
port_taken f inbounds = any (uses_port f (owns f inbounds)) inbounds

parts_lem :
    (f : Fragment) (t : Template) (inbounds : List Inbound) (outbounds : List Outbound)
    (rules : List Rule)
    → merge_parts f t inbounds outbounds rules ≡ (
        if not (has_outbound f outbounds)
        then refused relay_outbound_not_found
        else if port_taken f inbounds
        then refused relay_port_in_use
        else merged (record t {
          inbounds = some (merged_inbounds f inbounds);
          rules = some (merged_rules f inbounds rules);
        }))
unfolding merge_parts stay merged_inbounds merged_rules has_outbound port_taken
parts_lem f t inbounds outbounds rules = refl

parts_cases :
    (f : Fragment) (t t' : Template) (inbounds : List Inbound) (outbounds : List Outbound)
    → (rules : List Rule) → merge_parts f t inbounds outbounds rules ≡ merged t'
    → (has_outbound f outbounds ≡ true)
      × (port_taken f inbounds ≡ false)
      × (t' ≡ record t {
        inbounds = some (merged_inbounds f inbounds);
        rules = some (merged_rules f inbounds rules);
      })
parts_cases f t t' inbounds outbounds rules h =
    let e = sym (parts_lem f t inbounds outbounds rules) ∙ h in
    elim (Bool-cases (has_outbound f outbounds)) [
      | inr k ↦ absurd (let k' = (rw k at e) in cc)
      | inl k ↦
          let e' = (rw k at e) in
          elim (Bool-cases (port_taken f inbounds)) [
            | inl l ↦ absurd (let l' = (rw l at e') in cc)
            | inr l ↦ (k, l, (let l' = (rw l at e') in cc))
          ]
    ]

-- A merge that succeeds had all three arrays, the outbound and a free port, and gives the parts.
pub merged_lem :
    (f : Fragment) (t t' : Template)
    → merge_relay_template f t ≡ merged t'
    → (inbounds : List Inbound) × (outbounds : List Outbound) × (rules : List Rule) × (t ≡ record {
      inbounds = some inbounds;
      outbounds = some outbounds;
      rules = some rules;
      rest = t.rest;
    })
      × (has_outbound f outbounds ≡ true)
      × (port_taken f inbounds ≡ false)
      × (t' ≡ record {
        inbounds = some (merged_inbounds f inbounds);
        outbounds = some outbounds;
        rules = some (merged_rules f inbounds rules);
        rest = t.rest;
      })
unfolding merge_relay_template
merged_lem f t t' h = elim (Option-cases t.inbounds) [
  | inl e ↦ absurd (let k = (rw e at h) in cc)
  | inr (inbounds, e) ↦ elim (Option-cases t.outbounds) [
    | inl e' ↦ absurd (let k = (rw (e, e') at h) in cc)
    | inr (outbounds, e') ↦ elim (Option-cases t.rules) [
      | inl e'' ↦ absurd (let k = (rw (e, e', e'') at h) in cc)
      | inr (rules, e'') ↦
          let k = (rw (e, e', e'') at h) in
          let (found, free, parts) = parts_cases f t t' inbounds outbounds rules k in
          (inbounds, outbounds, rules, rw (e, e', e'') refl, found, free, parts ∙ rw e' refl)
    ]
  ]
]

pub merge_lem :
    (f : Fragment) (rest : Text) (inbounds : List Inbound) (outbounds : List Outbound)
    (rules : List Rule)
    → has_outbound f outbounds ≡ true
    → port_taken f inbounds ≡ false
    → merge_relay_template f (record {
      inbounds = some inbounds;
      outbounds = some outbounds;
      rules = some rules;
      rest = rest;
    })
      ≡ merged (record {
        inbounds = some (merged_inbounds f inbounds);
        outbounds = some outbounds;
        rules = some (merged_rules f inbounds rules);
        rest = rest;
      })
unfolding merge_relay_template merge_parts stay merged_inbounds merged_rules has_outbound port_taken
merge_lem f rest inbounds outbounds rules h k = rw (h, k) refl
