-- ===== src/Relay/Again.antt =====
-- `mergeRelayTemplate` on the template that it returned.
use mathlib.Core.List.{append-nil}
use zvpn.Base.{
  ◌≡◌, refl, ap, ◌∙◌, Bool, true, false, not, some, List, [], ◌∷◌, ◌++◌, Text, keep, any, arith,
  Bool-cases, Option-cases, inl, inr, keep-append, ===_iff, ◌===◌, ===_refl, ℕ, sym, ◌||◌,
  any-append, keep-All, All-map, All-of_keep,
}
use zvpn.Relay.{
  Inbound, Rule, Template, Fragment, fragment_rule, fragment_inbound, disown_all, insert_rule, owns,
  owns_option, uses_port, merge_relay_template, merged, is_legacy, legacy_tag,
}
use zvpn.Relay.Rules.{disown_all_idem, disown_all-insert, disown-own}
use zvpn.Relay.Merge.{stay, merged_inbounds, merged_rules, port_taken, merged_lem, merge_lem}

legacy_has_tag : (port : ℕ) (v : Inbound) → is_legacy port v ≡ true → v.tag ≡ some (legacy_tag port)
unfolding is_legacy
legacy_has_tag port v h = elim (Option-cases v.tag) [
  | inl e ↦ absurd (let k = (rw e at h) in cc)
  | inr (tag, e) ↦
      let k = (rw e at h) in
      let same : (tag === legacy_tag port) ≡ true = ground arith in
      e ∙ ap some ((===_iff tag (legacy_tag port)).0 same)
]

legacy-owned :
    (f : Fragment) (inbounds : List Inbound) (v : Inbound)
    → any (is_legacy f.port) inbounds ≡ true
    → is_legacy f.port v ≡ true
    → owns_option (owns f inbounds) v.tag ≡ true
unfolding owns
legacy-owned f inbounds v h k =
    rw (legacy_has_tag f.port v k, h, ===_refl (legacy_tag f.port)) (ground arith)

any-keep :
    (p q : Inbound → Bool) (inbounds : List Inbound)
    → any p inbounds ≡ false
    → any p (keep q inbounds) ≡ false
any-keep p q [] h = refl
any-keep p q (v ∷ inbounds) h = let rest = any-keep p q inbounds in ground arith

no_legacy_stays :
    (f : Fragment) (owned : Text → Bool)
    → ((v : Inbound) → is_legacy f.port v ≡ true → owns_option owned v.tag ≡ true)
    → (inbounds : List Inbound)
    → any (is_legacy f.port) (keep (λ v. not (owns_option owned v.tag)) inbounds) ≡ false
no_legacy_stays f owned h [] = refl
no_legacy_stays f owned h (v ∷ inbounds) =
    let rest = no_legacy_stays f owned h inbounds in let here = h v in ground arith

stay-no_legacy :
    (f : Fragment) (inbounds : List Inbound) → any (is_legacy f.port) (stay f inbounds) ≡ false
unfolding stay
stay-no_legacy f inbounds = elim (Bool-cases (any (is_legacy f.port) inbounds)) [
  | inl e ↦ no_legacy_stays f (owns f inbounds) (λ v. legacy-owned f inbounds v e) inbounds
  | inr e ↦ any-keep (is_legacy f.port) _ inbounds e
]

owns_fragment :
    (f : Fragment) (inbounds : List Inbound) (t : Text)
    → any (is_legacy f.port) inbounds ≡ is_legacy f.port (fragment_inbound f)
    → owns f inbounds t ≡ (f.tag === t)
unfolding owns fragment_inbound
owns_fragment f inbounds t h = elim (Bool-cases (is_legacy f.port (fragment_inbound f))) [
  | inr e ↦ rw (h ∙ e) (ground arith)
  | inl e ↦
      let tag : f.tag ≡ legacy_tag f.port =
        (let k = legacy_has_tag f.port (fragment_inbound f) e in cc) in
      rw (h ∙ e, tag) (ground arith)
]

-- What the second merge owns is the fragment's own tag.
owns_again :
    (f : Fragment) (inbounds : List Inbound) (t : Text)
    → owns f (merged_inbounds f inbounds) t ≡ (f.tag === t)
unfolding merged_inbounds
owns_again f inbounds t =
    let all : any (is_legacy f.port) (stay f inbounds ++ fragment_inbound f ∷ []) ≡ (
        any (is_legacy f.port) (stay f inbounds)
        || any (is_legacy f.port) (fragment_inbound f ∷ [])) =
      any-append (is_legacy f.port) (stay f inbounds) (fragment_inbound f ∷ []) in
    let kept = stay-no_legacy f inbounds in
    owns_fragment f (merged_inbounds f inbounds) t (rw (all, kept) (ground arith))

keep_idem :
    (p q : Inbound → Bool)
    → ((v : Inbound) → p v ≡ true → q v ≡ true)
    → (inbounds : List Inbound) → keep q (keep p inbounds) ≡ keep p inbounds
keep_idem p q le inbounds =
    keep-All q (keep p inbounds)
      (All-map (λ v h. le v h) (keep p inbounds) (All-of_keep p inbounds))

pub owns-own :
    (f : Fragment) (inbounds : List Inbound) (t : Text)
    → (f.tag === t) ≡ true
    → owns f inbounds t ≡ true
unfolding owns
owns-own f inbounds t h = rw h refl

stays_again :
    (f : Fragment) (inbounds : List Inbound) (v : Inbound)
    → not (owns_option (owns f inbounds) v.tag) ≡ true
    → owns_option (owns f (merged_inbounds f inbounds)) v.tag ≡ false
stays_again f inbounds v h = elim (Option-cases v.tag) [
  | inl e ↦ rw e refl
  | inr (tag, e) ↦
      let k = (rw e at h) in
      let own = owns-own f inbounds tag in rw (e, owns_again f inbounds tag) (ground arith)
]

fragment_goes :
    (f : Fragment) (inbounds : List Inbound)
    → owns_option (owns f (merged_inbounds f inbounds)) (fragment_inbound f).tag ≡ true
unfolding fragment_inbound
fragment_goes f inbounds = rw (owns_again f inbounds f.tag) (===_refl f.tag)

abbrev again : Fragment → List Inbound → Inbound → Bool
again f inbounds v = not (owns_option (owns f (merged_inbounds f inbounds)) v.tag)

inbounds_again :
    (f : Fragment) (inbounds : List Inbound)
    → merged_inbounds f (merged_inbounds f inbounds) ≡ merged_inbounds f inbounds
unfolding merged_inbounds stay
inbounds_again f inbounds =
    ap (λ xs. xs ++ fragment_inbound f ∷ [])
      (keep-append (again f inbounds) (stay f inbounds) (fragment_inbound f ∷ [])
        ∙ rw (fragment_goes f inbounds) (append-nil _)
        ∙ keep_idem (λ v. not (owns_option (owns f inbounds) v.tag)) (again f inbounds)
            (λ v h. ap not (stays_again f inbounds v h)) inbounds)

rules_again :
    (f : Fragment) (inbounds : List Inbound) (rules : List Rule)
    → merged_rules f (merged_inbounds f inbounds) (merged_rules f inbounds rules)
      ≡ merged_rules f inbounds rules
unfolding merged_rules
rules_again f inbounds rules =
    let owned = owns f inbounds in
    let owned' = owns f (merged_inbounds f inbounds) in
    let own : owned' f.tag ≡ true = owns_again f inbounds f.tag ∙ ===_refl f.tag in
    ap (insert_rule (fragment_rule f)) (
      disown_all-insert owned' (fragment_rule f) (disown_all owned rules) (disown-own owned' f own)
      ∙ disown_all_idem owned owned'
          (λ t k. owns-own f inbounds t (sym (owns_again f inbounds t) ∙ k)) rules)

own_port_free :
    (f : Fragment) (inbounds : List Inbound)
    → uses_port f (owns f (merged_inbounds f inbounds)) (fragment_inbound f) ≡ false
unfolding uses_port
own_port_free f inbounds = rw (fragment_goes f inbounds) refl

ports_free :
    (f : Fragment) (owned owned' : Text → Bool) (inbounds : List Inbound)
    → any (uses_port f owned) inbounds ≡ false
    → any (uses_port f owned') (keep (λ v. not (owns_option owned v.tag)) inbounds) ≡ false
unfolding uses_port
ports_free f owned owned' [] h = refl
ports_free f owned owned' (v ∷ inbounds) h =
    let rest = ports_free f owned owned' inbounds in ground arith

kept_ports_free :
    (f : Fragment) (inbounds : List Inbound)
    → port_taken f inbounds ≡ false
    → any (uses_port f (owns f (merged_inbounds f inbounds))) (stay f inbounds) ≡ false
unfolding port_taken stay
kept_ports_free f inbounds h = ports_free f (owns f inbounds) _ inbounds h

port_free_again :
    (f : Fragment) (inbounds : List Inbound)
    → port_taken f inbounds ≡ false
    → port_taken f (merged_inbounds f inbounds) ≡ false
unfolding port_taken merged_inbounds
port_free_again f inbounds h =
    let owned' = owns f (merged_inbounds f inbounds) in
    any-append (uses_port f owned') (stay f inbounds) (fragment_inbound f ∷ [])
    ∙ rw (own_port_free f inbounds, kept_ports_free f inbounds h) refl

-- Merging the same fragment again changes nothing: a merge that succeeds succeeds on its own
-- result, which it returns as it is.
pub merge_again :
    (f : Fragment) (t t' : Template)
    → merge_relay_template f t ≡ merged t'
    → merge_relay_template f t' ≡ merged t'
merge_again f t t' h =
    let (inbounds, outbounds, rules, t_eq, found, free, t'_eq) = merged_lem f t t' h in
    rw
      (
        t'_eq,
        merge_lem f t.rest (merged_inbounds f inbounds) outbounds (merged_rules f inbounds rules)
            found (port_free_again f inbounds free),
        inbounds_again f inbounds,
        rules_again f inbounds rules,
      )
      refl
