-- ===== src/Relay/Routes.antt =====
-- The routes of the traffic of an inbound, through the rules that `mergeRelayTemplate` leaves.
use zvpn.Base.{
  ◌⊎◌, ◌||◌, sym, ap₂, ◌∙◌, ◌≡◌, refl, ap, Bool, true, false, not, Option, none, some, List, [],
  ◌∷◌, ◌++◌, Text, codes, keep, any, arith, Bool-cases, inl, inr, if◌then◌else◌, ===_iff, ◌===◌,
  ===_refl, All,
}
use zvpn.Relay.{Rule, Fragment, fragment_rule, has_text, includes, disown, disown_all, insert_rule}
use zvpn.Relay.Rules.{list-cases}

-- Where a text is in a list, a test that holds at it holds at some entry.
any-includes :
    (p : Text → Bool) (t : Text) (tags : List Text)
    → includes t tags ≡ true
    → p t ≡ true
    → any p tags ≡ true
any-includes p t [] h k = cc
any-includes p t (s ∷ tags) h k = elim (Bool-cases (s === t)) [
  | inl e ↦ rw ((===_iff s t).0 e, k) refl
  | inr e ↦ let rest = any-includes p t tags (ground arith) k in ground arith
]

includes-keep :
    (p : Text → Bool) (t : Text) (tags : List Text)
    → p t ≡ true
    → includes t (keep p tags) ≡ includes t tags
includes-keep p t [] k = refl
includes-keep p t (s ∷ tags) k = elim (Bool-cases (s === t)) [
  | inl e ↦ rw ((===_iff s t).0 e, k, ===_refl t) refl
  | inr e ↦ let rest = includes-keep p t tags k in ground arith
]

-- The rule is for the traffic of every inbound: its list of inbounds is missing or empty.
abbrev pub is_general : Option (List Text) → Bool
is_general none = true
is_general (some []) = true
is_general (some (t ∷ tags)) = false

-- The rule is for traffic of the inbound: it names the inbound, or it names none and is for all.
unfoldable pub names : Text → Rule → Bool
names t r =
    is_general r.inbound_tag || (elim r.inbound_tag [ none ↦ false | some tags ↦ includes t tags ])

-- Where a rule sends traffic, and its other conditions.
abbrev pub route_of : Rule → Option Text × Text
route_of r = (r.outbound_tag, r.rest)

-- The routes of the rules that are for the inbound, in their order.
unfoldable pub routes : Text → List Rule → List (Option Text × Text)
unfolding names
routes t [] = []
routes t (r ∷ rules) = if names t r then route_of r ∷ routes t rules else routes t rules

-- The routes of the rules that are for every inbound.
unfoldable pub general : List Rule → List (Option Text × Text)
general [] = []
general (r ∷ rules) = if is_general r.inbound_tag then route_of r ∷ general rules else general rules

routes-append : (t : Text) (xs ys : List Rule) → routes t (xs ++ ys) ≡ routes t xs ++ routes t ys
unfolding routes
routes-append t [] ys = refl
routes-append t (r ∷ xs) ys = ground (arith, routes-append t xs ys)

includes-keep_out :
    (p : Text → Bool) (t : Text) (tags : List Text) → p t ≡ false → includes t (keep p tags) ≡ false
includes-keep_out p t [] k = refl
includes-keep_out p t (s ∷ tags) k = elim (Bool-cases (s === t)) [
  | inl e ↦ let rest = includes-keep_out p t tags k in rw ((===_iff s t).0 e, k) rest
  | inr e ↦ let rest = includes-keep_out p t tags k in ground arith
]

routes_one : (t : Text) (r : Rule) → routes t (r ∷ []) ≡ (if names t r then route_of r ∷ [] else [])
unfolding routes
routes_one t r = refl

-- What a rule with the tags, of which it has some, becomes, by whether an owned tag is among them.
routes-disown_tags :
    (owned : Text → Bool) (t : Text) (rest : Text) (out : Option Text) (tag : Text)
    (tags : List Text)
    → (let r : Rule = record { inbound_tag = some (tag ∷ tags); outbound_tag = out; rest = rest } in
        routes t (disown owned r) ≡ (
          if any owned (tag ∷ tags)
          then (if includes t (keep (λ s. not (owned s)) (tag ∷ tags))
              then (out, rest) ∷ []
              else [])
          else (if includes t (tag ∷ tags) then (out, rest) ∷ [] else [])))
unfolding routes names disown
routes-disown_tags owned t rest out tag tags = elim (Bool-cases (any owned (tag ∷ tags))) [
  | inl e ↦ rw e (elim (list-cases (keep (λ s. not (owned s)) (tag ∷ tags))) [
    | inl k ↦ rw k refl
    | inr (s, rest, k) ↦ rw k refl
  ])
  | inr e ↦ rw e refl
]

-- The list of a rule's inbounds is missing, empty, or has a first one.
tag-cases :
    (o : Option (List Text))
    → ((o ≡ none) ⊎ (o ≡ some [])) ⊎ ((tag : Text) × (tags : List Text) × (o ≡ some (tag ∷ tags)))
tag-cases none = inl (inl refl)
tag-cases (some []) = inl (inr refl)
tag-cases (some (t ∷ tags)) = inr (t, tags, refl)

routes-disown :
    (owned : Text → Bool) (t : Text) (r : Rule)
    → owned t ≡ false
    → routes t (disown owned r) ≡ routes t (r ∷ [])
unfolding routes names disown
routes-disown owned t r h = elim (tag-cases r.inbound_tag) [
  | inl (inl none_eq) ↦ rw none_eq refl
  | inl (inr empty_eq) ↦ rw empty_eq refl
  | inr (tag, tags, some_eq) ↦
      rw
        (
          some_eq,
          routes-disown_tags owned t r.rest r.outbound_tag tag tags,
          includes-keep (λ s. not (owned s)) t (tag ∷ tags) (rw h refl),
        )
        (ground arith)
]

-- What is left for an owned inbound of a rule is the rule, if it is for every inbound.
routes-disown_owned :
    (owned : Text → Bool) (t : Text) (r : Rule)
    → owned t ≡ true
    → routes t (disown owned r) ≡ general (r ∷ [])
unfolding routes names disown general
routes-disown_owned owned t r h = elim (tag-cases r.inbound_tag) [
  | inl (inl none_eq) ↦ rw none_eq refl
  | inl (inr empty_eq) ↦ rw empty_eq refl
  | inr (tag, tags, some_eq) ↦
      rw
        (
          some_eq,
          routes-disown_tags owned t r.rest r.outbound_tag tag tags,
          includes-keep_out (λ s. not (owned s)) t (tag ∷ tags) (rw h refl),
        )
        (let has = any-includes owned t (tag ∷ tags) in ground arith)
]

general-cons :
    (r : Rule) (rules : List Rule) → general (r ∷ rules) ≡ general (r ∷ []) ++ general rules
unfolding general
general-cons r rules = elim (tag-cases r.inbound_tag) [
  | inl (inl e) ↦ rw e refl
  | inl (inr e) ↦ rw e refl
  | inr (tag, tags, e) ↦ rw e refl
]

pub routes-disown_all :
    (owned : Text → Bool) (t : Text) (rules : List Rule)
    → owned t ≡ false
    → routes t (disown_all owned rules) ≡ routes t rules
unfolding disown_all
routes-disown_all owned t [] h = refl
routes-disown_all owned t (r ∷ rules) h =
    rw
      (
        routes-append t (disown owned r) (disown_all owned rules),
        routes-disown owned t r h,
        routes-disown_all owned t rules h,
        ← routes-append t (r ∷ []) rules,
      )
      refl

pub routes-disown_all_owned :
    (owned : Text → Bool) (t : Text) (rules : List Rule)
    → owned t ≡ true
    → routes t (disown_all owned rules) ≡ general rules
unfolding disown_all routes general
routes-disown_all_owned owned t [] h = refl
routes-disown_all_owned owned t (r ∷ rules) h =
    routes-append t (disown owned r) (disown_all owned rules)
    ∙ ap₂ (λ x y. x ++ y) (routes-disown_owned owned t r h)
        (routes-disown_all_owned owned t rules h)
    ∙ sym (general-cons r rules)

pub routes-insert_other :
    (t : Text) (r : Rule) (rules : List Rule)
    → names t r ≡ false
    → routes t (insert_rule r rules) ≡ routes t rules
unfolding insert_rule routes
routes-insert_other t r [] h = ground arith
routes-insert_other t r (s ∷ rules) h = let rest = routes-insert_other t r rules h in ground arith

pub names-fragment : (t : Text) (f : Fragment) → names t (fragment_rule f) ≡ (f.tag === t)
unfolding names fragment_rule
names-fragment t f = ground arith

-- Every rule before the one inserted goes to the control API.
pub insert_rule-place :
    (r : Rule) (rules : List Rule)
    → (before : List Rule) × (after : List Rule) × (insert_rule r rules ≡ before ++ r ∷ after)
      × (rules ≡ before ++ after)
      × All (λ s. has_text s.outbound_tag (codes "api") ≡ true) before
unfolding insert_rule
insert_rule-place r [] = ([], [], refl, refl, tt)
insert_rule-place r (s ∷ rules) = elim (Bool-cases (has_text s.outbound_tag (codes "api"))) [
  | inl e ↦
      let (before, after, put_eq, all_eq, api) = insert_rule-place r rules in
      (s ∷ before, after, rw (e, put_eq) refl, ap (◌∷◌ s) all_eq, (e, api))
  | inr e ↦ ([], s ∷ rules, rw e refl, refl, tt)
]
