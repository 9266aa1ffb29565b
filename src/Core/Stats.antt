-- ===== src/Core/Stats.antt =====
-- The names of the counters that the core keeps for a client of `buildXrayConfig`, read back by
-- `parseXrayStats`: backend/src/services/xrayConfig.js.
use zvpn.Base.{
  some_injective, ℕ, suc, ◌+◌, ◌≡◌, ◌≢◌, inl, inr, refl, sym, ap, ◌∙◌, Bool, true, false, none,
  some, List, [], ◌∷◌, ◌++◌, Text, codes, ◌===◌, ◌==◌, length, every, split_on, onto_head,
  Bool-cases, arith, take-append, drop-append,
}
use zvpn.Backup.{is_uuid, have_lengths}
use zvpn.Metering.Xray.{Transport, direct, netlify, iran, other}
use zvpn.Core.{
  match_in, User, Client, xray_identity, prefix_of, after_prefix, is_id_char, transport_in, Link,
  uplink, downlink, link_in, match_name,
}

-- The length of a text by the lengths of its parts.
abbrev total : List Text → ℕ
total [] = 0
total (part ∷ parts) = suc (length part) + total parts

total-onto_head :
    (c : ℕ) (parts : List Text) → parts ≢ [] → total (onto_head c parts) ≡ suc (total parts)
total-onto_head c [] h = absurd (h refl)
total-onto_head c (part ∷ parts) h = omega arith

onto_head_ne : (c : ℕ) (parts : List Text) → onto_head c parts ≢ []
onto_head_ne c [] e = cc
onto_head_ne c (part ∷ parts) e = cc

split_on_ne : (sep : ℕ) (t : Text) → split_on sep t ≢ []
unfolding split_on
split_on_ne sep [] = λ e. cc
split_on_ne sep (c ∷ t) = elim (Bool-cases (c == sep)) [
  | inl e ↦ rw e (λ k. cc)
  | inr e ↦ rw e (onto_head_ne c (split_on sep t))
]

total-split_on : (sep : ℕ) (t : Text) → total (split_on sep t) ≡ suc (length t)
unfolding split_on
total-split_on sep [] = refl
total-split_on sep (c ∷ t) = elim (Bool-cases (c == sep)) [
  | inl e ↦ rw e (let rest = total-split_on sep t in omega arith)
  | inr e ↦ rw e (
      let rest = total-split_on sep t in
      let head = total-onto_head c (split_on sep t) (split_on_ne sep t) in omega arith)
]

abbrev sum_of : List ℕ → ℕ
sum_of [] = 0
sum_of (n ∷ ns) = suc n + sum_of ns

total-have_lengths :
    (ns : List ℕ) (parts : List Text) → have_lengths ns parts ≡ true → total parts ≡ sum_of ns
total-have_lengths [] [] h = refl
total-have_lengths [] (part ∷ parts) h = absurd (ground arith)
total-have_lengths (n ∷ ns) [] h = absurd (ground arith)
total-have_lengths (n ∷ ns) (part ∷ parts) h =
    let rest = total-have_lengths ns parts in ground arith

length-is_uuid : (t : Text) → is_uuid t ≡ true → length t ≡ 36
unfolding is_uuid
length-is_uuid t h =
    let parts = total-have_lengths (8 ∷ 4 ∷ 4 ∷ 4 ∷ 12 ∷ []) (split_on b'-' t) h in
    let all = total-split_on b'-' t in omega arith

after_prefix-append : (p t : Text) → after_prefix p (p ++ t) ≡ some t
unfolding after_prefix
after_prefix-append [] t = refl
after_prefix-append (c ∷ p) t = let rest = after_prefix-append p t in ground arith

-- The name of a counter, as the core makes it of a client's e-mail.
abbrev pub stat_name : Text → Link → Text
stat_name email uplink = codes "user>>>" ++ email ++ codes ">>>traffic>>>uplink"
stat_name email downlink = codes "user>>>" ++ email ++ codes ">>>traffic>>>downlink"

after_prefix_apart :
    (d : ℕ) (p : Text) (c : ℕ) (t : Text) → (d == c) ≡ false → after_prefix (d ∷ p) (c ∷ t) ≡ none
unfolding after_prefix
after_prefix_apart d p c t h = rw h refl

no_prefixes :
    (t : Text)
    → after_prefix (codes "netlify-") t ≡ none
    → after_prefix (codes "iran-") t ≡ none
    → transport_in t ≡ (direct, t)
unfolding transport_in
no_prefixes t h k = rw (transport_in, h, k) refl

no_transport :
    (id rest : Text)
    → every is_id_char id ≡ true
    → length id ≡ 36
    → transport_in (id ++ rest) ≡ (direct, id ++ rest)
no_transport [] rest h l = absurd (omega arith)
no_transport (c ∷ id) rest h l =
    no_prefixes (c ∷ id ++ rest)
      (after_prefix_apart b'n' (codes "etlify-") c (id ++ rest) (ground arith))
      (after_prefix_apart b'i' (codes "ran-") c (id ++ rest) (ground arith))

netlify_transport : (t : Text) → transport_in (codes "netlify-" ++ t) ≡ (netlify, t)
unfolding transport_in after_prefix
netlify_transport t = refl

iran_transport : (t : Text) → transport_in (codes "iran-" ++ t) ≡ (iran, t)
unfolding transport_in after_prefix
iran_transport t = refl

abbrev link_text : Link → Text
link_text uplink = codes ">>>traffic>>>uplink"
link_text downlink = codes ">>>traffic>>>downlink"

link_back : (l : Link) → link_in (link_text l) ≡ some l
unfolding ◌===◌
link_back uplink = refl
link_back downlink = refl

match_in-link_text :
    (id : Text) (way : Transport) (l : Link)
    → is_uuid id ≡ true
    → every is_id_char id ≡ true
    → match_in (way, id ++ link_text l) ≡ some (record { transport = way; user_id = id; link = l })
unfolding match_in
match_in-link_text id way l u e =
    let n = length-is_uuid id u in
    let all : (length id == 36) ≡ true = ground arith in
    rw
      (
        match_in,
        take-append 36 id (link_text l) n,
        drop-append 36 id (link_text l) n,
        all,
        e,
        u,
        link_back l,
      )
      (rw (take-append 36 id (link_text l) n) refl)

abbrev way_text : Transport → Text
way_text netlify = codes "netlify-"
way_text iran = codes "iran-"
way_text direct = []
way_text other = []

-- A transport of the core's inbounds.
abbrev pub is_served : Transport → Bool
is_served other = false
is_served direct = true
is_served netlify = true
is_served iran = true

transport_in-way_text :
    (way : Transport) (id rest : Text)
    → is_served way ≡ true
    → is_uuid id ≡ true
    → every is_id_char id ≡ true
    → transport_in (way_text way ++ id ++ rest) ≡ (way, id ++ rest)
transport_in-way_text netlify id rest h u e = netlify_transport (id ++ rest)
transport_in-way_text iran id rest h u e = iran_transport (id ++ rest)
transport_in-way_text direct id rest h u e = no_transport id rest e (length-is_uuid id u)
transport_in-way_text other id rest h u e = absurd (cc)

match_name_parts :
    (way : Transport) (id : Text) (l : Link)
    → is_served way ≡ true
    → is_uuid id ≡ true
    → every is_id_char id ≡ true
    → match_name (codes "user>>>zvpn-" ++ way_text way ++ id ++ link_text l)
      ≡ some (record { transport = way; user_id = id; link = l })
unfolding match_name after_prefix
match_name_parts way id l h u e =
    ap match_in (transport_in-way_text way id (link_text l) h u e) ∙ match_in-link_text id way l u e

stat_name_parts :
    (way : Transport) (id : Text) (l : Link)
    → is_served way ≡ true
    → stat_name (prefix_of way ++ id) l ≡ codes "user>>>zvpn-" ++ way_text way ++ id ++ link_text l
stat_name_parts netlify id uplink h = refl
stat_name_parts netlify id downlink h = refl
stat_name_parts iran id uplink h = refl
stat_name_parts iran id downlink h = refl
stat_name_parts direct id uplink h = refl
stat_name_parts direct id downlink h = refl
stat_name_parts other id l h = absurd (cc)

identity_parts :
    (prefix : Text) (u : User) (c : Client)
    → xray_identity prefix u ≡ some c
    → (is_uuid u.id ≡ true) × (c.email ≡ prefix ++ u.id)
unfolding xray_identity
identity_parts prefix u c h = elim (Bool-cases (is_uuid u.id)) [
  | inr e ↦ absurd (let k = (rw e at h) in cc)
  | inl e ↦ elim (Bool-cases (is_uuid u.xray_uuid)) [
    | inr g ↦ absurd (let k = (rw (e, g) at h) in cc)
    | inl g ↦ let k = (rw (e, g) at h) in (e, sym (let p = some_injective k in ap (λ x. x.email) p))
  ]
]

-- The counter that the core keeps for a client of one of its inbounds is read back as that client's:
-- for an inbound of transport `way`, and a user with an identity there whose id is in lower case, the
-- name of the uplink or downlink counter of the client's e-mail matches with that transport, that
-- user's id and that link.
pub match_name-stat_name :
    (way : Transport) (u : User) (c : Client) (l : Link)
    → is_served way ≡ true
    → xray_identity (prefix_of way) u ≡ some c
    → every is_id_char u.id ≡ true
    → match_name (stat_name c.email l) ≡ some (record { transport = way; user_id = u.id; link = l })
match_name-stat_name way u c l h k e =
    let parts = identity_parts (prefix_of way) u c k in
    ap (λ t. match_name (stat_name t l)) parts.1
    ∙ ap match_name (stat_name_parts way u.id l h)
    ∙ match_name_parts way u.id l h parts.0 e
