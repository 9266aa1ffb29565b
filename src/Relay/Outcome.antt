-- ===== src/Relay/Outcome.antt =====
-- What a merged template does with traffic, whose ports it has, and the Xray variant's merge again:
-- `mergeRelayTemplate` and `mergeXrayRelayTemplate`.
use zvpn.Base.{
  sym, ◌≡◌, refl, ap, ◌∙◌, Bool, true, false, not, Option, none, some, List, [], ◌∷◌, ◌++◌, Text,
  codes, keep, any, arith, Bool-cases, Option-cases, inl, inr, ===_iff, ==_iff, show_number, ◌===◌,
  ===_refl, subst, ℕ, All, any-append, All-map,
}
use zvpn.Relay.{
  Port, text, absent, Inbound, Rule, Template, Fragment, fragment_rule, fragment_inbound, has_text,
  disown_all, owns, owns_option, uses_port, merge_relay_template, merged, show_port, number,
  is_xray_legacy, is_port, test_tag, adopt_legacy, merge_xray_relay_template,
}
use zvpn.Relay.Routes.{
  routes, routes-disown_all, routes-disown_all_owned, routes-insert_other, general, names-fragment,
  insert_rule-place,
}
use zvpn.Relay.Merge.{merged_lem, merged_inbounds, merged_rules, port_taken, stay}
use zvpn.Relay.Again.{owns-own, merge_again}

abbrev pub rules_of : Template → List Rule
rules_of t = elim t.rules [ none ↦ [] | some rules ↦ rules ]

abbrev pub inbounds_of : Template → List Inbound
inbounds_of t = elim t.inbounds [ none ↦ [] | some inbounds ↦ inbounds ]

not_own :
    (f : Fragment) (inbounds : List Inbound) (t : Text)
    → owns f inbounds t ≡ false
    → (f.tag === t) ≡ false
not_own f inbounds t h = let own = owns-own f inbounds t in ground arith

routes-merged_rules_other :
    (f : Fragment) (inbounds : List Inbound) (rules : List Rule) (t : Text)
    → owns f inbounds t ≡ false
    → routes t (merged_rules f inbounds rules) ≡ routes t rules
unfolding merged_rules
routes-merged_rules_other f inbounds rules t h =
    routes-insert_other t (fragment_rule f) _ (names-fragment t f ∙ not_own f inbounds t h)
    ∙ routes-disown_all (owns f inbounds) t rules h

rules_place :
    (f : Fragment) (inbounds : List Inbound) (rules : List Rule)
    → (before : List Rule) × (after : List Rule) × (merged_rules f inbounds rules
        ≡ before ++ fragment_rule f ∷ after)
      × (disown_all (owns f inbounds) rules ≡ before ++ after)
      × All (λ s. has_text s.outbound_tag (codes "api") ≡ true) before
unfolding merged_rules
rules_place f inbounds rules =
    insert_rule-place (fragment_rule f) (disown_all (owns f inbounds) rules)

-- In a merged template the fragment's rule stands behind rules to the control API only, and but for
-- it the relay's traffic has just the routes of the template's rules that name no inbound; the
-- traffic of every inbound whose tag the merge does not take over has the routes that it had, those
-- of the rules that name no inbound among them, in their order and with their conditions.
pub merge_relay_template-routes :
    (f : Fragment) (t t' : Template)
    → merge_relay_template f t ≡ merged t'
    → ((tag : Text)
        → owns f (inbounds_of t) tag ≡ false
        → routes tag (rules_of t') ≡ routes tag (rules_of t))
      × ((before : List Rule) × (after : List Rule) × (rules_of t'
            ≡ before ++ fragment_rule f ∷ after)
          × All (λ r. has_text r.outbound_tag (codes "api") ≡ true) before
          × (routes f.tag (before ++ after) ≡ general (rules_of t)))
merge_relay_template-routes f t t' h =
    let (inbounds, outbounds, rules, t_eq, found, free, t'_eq) = merged_lem f t t' h in
    let was_inbounds : inbounds_of t ≡ inbounds = ap inbounds_of t_eq in
    let was_rules : rules_of t ≡ rules = ap rules_of t_eq in
    let rules_eq : rules_of t' ≡ merged_rules f inbounds rules = ap rules_of t'_eq in
    let (before, after, put_eq, all_eq, api) = rules_place f inbounds rules in
    (
      (λ tag other.
          rw (rules_eq, was_rules)
            (routes-merged_rules_other f inbounds rules tag
              (subst (λ xs. owns f xs tag ≡ false) was_inbounds other))),
      (
        before,
        after,
        rules_eq ∙ put_eq,
        api,
        ap (routes f.tag) (sym all_eq)
            ∙ routes-disown_all_owned (owns f inbounds) f.tag rules
                (owns-own f inbounds f.tag (===_refl f.tag))
            ∙ ap general (sym was_rules),
      ),
    )

parts :
    (f : Fragment) (inbounds : List Inbound)
    → merged_inbounds f inbounds
      ≡ keep (λ v. not (owns_option (owns f inbounds) v.tag)) inbounds ++ fragment_inbound f ∷ []
unfolding merged_inbounds stay
parts f inbounds = refl

other_tag :
    (f : Fragment) (inbounds : List Inbound) (o : Option Text)
    → owns_option (owns f inbounds) o ≡ false
    → has_text o f.tag ≡ false
other_tag f inbounds none h = refl
other_tag f inbounds (some tag) h = elim (Bool-cases (tag === f.tag)) [
  | inr e ↦ e
  | inl e ↦
      let own = owns-own f inbounds tag (rw ((===_iff tag f.tag).0 e) (===_refl f.tag)) in
      absurd (ground arith)
]

other_ports :
    (f : Fragment) (owned : Text → Bool)
    → ((o : Option Text) → owns_option owned o ≡ false → has_text o f.tag ≡ false)
    → (inbounds : List Inbound) → any (uses_port f owned) inbounds ≡ false
    → All
        (λ v. (has_text v.tag f.tag ≡ false) × ((show_port v.port === show_number f.port) ≡ false))
        (keep (λ v. not (owns_option owned v.tag)) inbounds)
unfolding uses_port
other_ports f owned h [] free = tt
other_ports f owned h (v ∷ inbounds) free =
    let rest = other_ports f owned h inbounds in let here = h v.tag in ground arith

stay-All :
    (f : Fragment) (inbounds : List Inbound)
    → port_taken f inbounds ≡ false
    → All
        (λ v. (has_text v.tag f.tag ≡ false) × ((show_port v.port === show_number f.port) ≡ false))
        (keep (λ v. not (owns_option (owns f inbounds) v.tag)) inbounds)
unfolding port_taken
stay-All f inbounds free =
    other_ports f (owns f inbounds) (λ o h. other_tag f inbounds o h) inbounds free

-- The inbounds of a merged template are the ones of the template whose tags the merge does not take
-- over, followed by the fragment's; none of them has the fragment's tag or its port.
pub merge_relay_template-inbounds :
    (f : Fragment) (t t' : Template)
    → merge_relay_template f t ≡ merged t'
    → (inbounds_of t'
        ≡ keep (λ v. not (owns_option (owns f (inbounds_of t)) v.tag)) (inbounds_of t)
          ++ fragment_inbound f ∷ [])
      × All
          (λ v.
            (has_text v.tag f.tag ≡ false) × ((show_port v.port === show_number f.port) ≡ false))
          (keep (λ v. not (owns_option (owns f (inbounds_of t)) v.tag)) (inbounds_of t))
merge_relay_template-inbounds f t t' h =
    let (inbounds, outbounds, rules, t_eq, found, free, t'_eq) = merged_lem f t t' h in
    let was : inbounds_of t ≡ inbounds = ap inbounds_of t_eq in
    let now : inbounds_of t' ≡ merged_inbounds f inbounds = ap inbounds_of t'_eq in
    rw was (now ∙ parts f inbounds, stay-All f inbounds free)

is_port-show : (n : ℕ) (p : Port) → is_port n p ≡ true → (show_port p === show_number n) ≡ true
unfolding show_port
is_port-show n (number m) h = rw ((==_iff m n).0 h) (===_refl (show_number n))
is_port-show n (text t) h = cc
is_port-show n absent h = cc

xray_legacy_port :
    (port : ℕ) (v : Inbound)
    → is_xray_legacy port v ≡ true
    → (show_port v.port === show_number port) ≡ true
unfolding is_xray_legacy
xray_legacy_port port v h = is_port-show port v.port (ground arith)

no_xray_legacy :
    (port : ℕ) (inbounds : List Inbound)
    → All (λ v. (show_port v.port === show_number port) ≡ false) inbounds
    → any (is_xray_legacy port) inbounds ≡ false
no_xray_legacy port [] h = refl
no_xray_legacy port (v ∷ inbounds) h =
    let rest = no_xray_legacy port inbounds h.1 in
    let here = xray_legacy_port port v in ground arith

adopt_none :
    (port : ℕ) (t : Template)
    → any (is_xray_legacy port) (inbounds_of t) ≡ false
    → adopt_legacy port t ≡ t
unfolding adopt_legacy
adopt_none port t h = elim (Option-cases t.inbounds) [
  | inl e ↦ rw e refl
  | inr (inbounds, e) ↦ let k = (rw e at h) in rw (e, k) refl
]

fragment_no_legacy :
    (f : Fragment)
    → (f.tag === test_tag) ≡ false
    → is_xray_legacy f.port (fragment_inbound f) ≡ false
unfolding is_xray_legacy fragment_inbound
fragment_no_legacy f h = rw h refl

merged_no_legacy :
    (f : Fragment)
    → (f.tag === test_tag) ≡ false
    → (t t' : Template) → merge_relay_template f t ≡ merged t'
    → any (is_xray_legacy f.port) (inbounds_of t') ≡ false
merged_no_legacy f other t t' h =
    let (now, free) = merge_relay_template-inbounds f t t' h in
    let kept = keep (λ v. not (owns_option (owns f (inbounds_of t)) v.tag)) (inbounds_of t) in
    ap (any (is_xray_legacy f.port)) now
    ∙ any-append (is_xray_legacy f.port) kept (fragment_inbound f ∷ [])
    ∙ rw (no_xray_legacy f.port kept (All-map (λ v h. h.1) kept free), fragment_no_legacy f other)
        refl

-- Where the fragment has another tag than the test relay's, merging it again by the Xray variant
-- changes nothing: what succeeds once succeeds on its own result, which it returns as it is.
pub merge_xray_again :
    (f : Fragment)
    → (f.tag === test_tag) ≡ false
    → (t t' : Template) → merge_xray_relay_template f t ≡ merged t'
    → merge_xray_relay_template f t' ≡ merged t'
unfolding merge_xray_relay_template
merge_xray_again f other t t' h =
    ap (merge_relay_template f)
      (adopt_none f.port t' (merged_no_legacy f other (adopt_legacy f.port t) t' h))
    ∙ merge_again f (adopt_legacy f.port t) t' h
