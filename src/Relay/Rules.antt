-- ===== src/Relay/Rules.antt =====
-- The rules that `mergeRelayTemplate` leaves, and leaves again.
use mathlib.Core.List.{append_assoc}
use zvpn.Base.{
  ◌≡◌, refl, Bool, true, false, not, Option, some, List, [], ◌∷◌, ◌++◌, Text, codes, keep, any,
  arith, Bool-cases, Option-cases, inl, inr, ◌⊎◌, subst, sym,
}
use zvpn.Relay.{Rule, Fragment, fragment_rule, has_text, disown, disown_all, insert_rule}

pub list-cases {ℓ} :
    {A : Type ℓ} (xs : List A) → (xs ≡ []) ⊎ ((x : A) × (rest : List A) × (xs ≡ x ∷ rest))
list-cases [] = inl refl
list-cases (x ∷ xs) = inr (x, xs, refl)

-- Owned tags that were owned before are not in what the first pass left.
any-keep-not :
    (owned owned' : Text → Bool)
    → ((t : Text) → owned' t ≡ true → owned t ≡ true)
    → (tags : List Text) → any owned' (keep (λ s. not (owned s)) tags) ≡ false
any-keep-not owned owned' le [] = refl
any-keep-not owned owned' le (s ∷ tags) =
    let rest = any-keep-not owned owned' le tags in let here = le s in ground arith

any-sub :
    (owned owned' : Text → Bool)
    → ((t : Text) → owned' t ≡ true → owned t ≡ true)
    → (tags : List Text) → any owned tags ≡ false
    → any owned' tags ≡ false
any-sub owned owned' le [] h = refl
any-sub owned owned' le (s ∷ tags) h =
    let rest = any-sub owned owned' le tags in let here = le s in ground arith

disown-idem_tags :
    (owned owned' : Text → Bool)
    → ((t : Text) → owned' t ≡ true → owned t ≡ true)
    → (rest : Text) (out : Option Text) (tags : List Text)
    → (let r : Rule = record { inbound_tag = some tags; outbound_tag = out; rest = rest } in
        disown_all owned' (disown owned r) ≡ disown owned r)
unfolding disown_all disown
disown-idem_tags owned owned' le rest out tags = elim (Bool-cases (any owned tags)) [
  | inl e ↦ rw e (elim (list-cases (keep (λ s. not (owned s)) tags)) [
    | inl k ↦ rw k refl
    | inr (s, more, k) ↦
        let free : any owned' (s ∷ more) ≡ false =
          subst (λ x. any owned' x ≡ false) k (any-keep-not owned owned' le tags) in
        rw (k, free) refl
  ])
  | inr e ↦ rw (e, any-sub owned owned' le tags e) refl
]

disown_idem :
    (owned owned' : Text → Bool)
    → ((t : Text) → owned' t ≡ true → owned t ≡ true)
    → (r : Rule) → disown_all owned' (disown owned r) ≡ disown owned r
unfolding disown_all disown
disown_idem owned owned' le r = elim (Option-cases r.inbound_tag) [
  | inl none_eq ↦ rw none_eq refl
  | inr (tags, some_eq) ↦ rw some_eq (disown-idem_tags owned owned' le r.rest r.outbound_tag tags)
]

disown_all-append :
    (owned : Text → Bool) (xs ys : List Rule)
    → disown_all owned (xs ++ ys) ≡ disown_all owned xs ++ disown_all owned ys
unfolding disown_all
disown_all-append owned [] ys = refl
disown_all-append owned (r ∷ xs) ys =
    rw (disown_all-append owned xs ys) (sym (append_assoc (disown owned r) _ _))

pub disown_all_idem :
    (owned owned' : Text → Bool)
    → ((t : Text) → owned' t ≡ true → owned t ≡ true)
    → (rules : List Rule) → disown_all owned' (disown_all owned rules) ≡ disown_all owned rules
unfolding disown_all
disown_all_idem owned owned' le [] = refl
disown_all_idem owned owned' le (r ∷ rules) =
    rw
      (
        disown_all-append owned' (disown owned r) (disown_all owned rules),
        disown_idem owned owned' le r,
        disown_all_idem owned owned' le rules,
      )
      refl

pub disown_all-insert :
    (owned : Text → Bool) (r : Rule) (rules : List Rule)
    → disown owned r ≡ []
    → disown_all owned (insert_rule r rules) ≡ disown_all owned rules
unfolding disown_all insert_rule
disown_all-insert owned r [] h = rw h refl
disown_all-insert owned r (s ∷ rules) h =
    elim (Bool-cases (has_text s.outbound_tag (codes "api"))) [
      | inl e ↦ rw (e, disown_all-insert owned r rules h) refl
      | inr e ↦ rw (e, h) refl
    ]

pub disown-own :
    (owned : Text → Bool) (f : Fragment) → owned f.tag ≡ true → disown owned (fragment_rule f) ≡ []
unfolding disown fragment_rule
disown-own owned f h = rw h refl
