-- ===== src/Backup/Restored.antt =====
-- What an import of a backup restores, whole: `importPanelBackup` of
-- backend/src/services/backup.js.
use zvpn.Base.{
  some_injective, ◌≡◌, inl, inr, refl, sym, ap, ◌∙◌, subst, true, false, some, List, [], ◌∷◌, ◌++◌,
  Text, codes, get, ◌===◌, is_empty, arith, All, any, Option-cases, ===_flip,
}
use zvpn.Backup.{Value, text, Row, at, is_username, Outer}
use zvpn.Backup.Import.{are_valid_users, is_valid_user, is_same}
use zvpn.Backup.Accounts.{Mode, users_only, Progress, import_user, import_users}
use zvpn.Backup.Cases.{name_of, import_user-other, import_user-existing}

import_users_cases :
    (o : Outer) (mode : Mode) (u : Row) (users : List Row) (p p' : Progress)
    → import_users o mode (u ∷ users) p ≡ some p'
    → (q : Progress) × (import_user o mode u p ≡ some q) × (import_users o mode users q ≡ some p')
unfolding import_users
import_users_cases o mode u users p p' h = elim (Option-cases (import_user o mode u p)) [
  | inl e ↦ absurd (let k = (rw (import_users, e) at h) in cc)
  | inr (q, e) ↦ (q, e, (rw (import_users, e) at h))
]

import_users-other :
    (o : Outer) (mode : Mode) (name : Text) (users : List Row) (p p' : Progress)
    → All (λ v. (name_of v === name) ≡ false) users
    → import_users o mode users p ≡ some p'
    → get name p'.users ≡ get name p.users
unfolding import_users
import_users-other o mode name [] p p' a h = ap (λ x. get name x.users) (some_injective (sym h))
import_users-other o mode name (u ∷ users) p p' a h =
    let (q, e, k) = import_users_cases o mode u users p p' h in
    import_users-other o mode name users q p' a.1 k ∙ import_user-other o mode u p q name e a.0

pub import_users-existing :
    (o : Outer) (name : Text) (row : Row) (users : List Row) (p p' : Progress)
    → import_users o users_only users p ≡ some p'
    → get name p.users ≡ some row
    → get name p'.users ≡ some row
unfolding import_users
import_users-existing o name row [] p p' h there =
    ap (λ x. get name x.users) (some_injective (sym h)) ∙ there
import_users-existing o name row (u ∷ users) p p' h there =
    let (q, e, k) = import_users_cases o users_only u users p p' h in
    import_users-existing o name row users q p' k (import_user-existing o u p q name row e there)

-- One account among the others, which have other names.
pub import_users-one :
    (o : Outer) (mode : Mode) (u : Row) (before after : List Row) (p p' : Progress)
    → All (λ v. (name_of v === name_of u) ≡ false) before
    → All (λ v. (name_of v === name_of u) ≡ false) after
    → import_users o mode (before ++ u ∷ after) p ≡ some p'
    → (q q' : Progress) × (get (name_of u) q.users ≡ get (name_of u) p.users)
      × (import_user o mode u q ≡ some q')
      × (get (name_of u) p'.users ≡ get (name_of u) q'.users)
import_users-one o mode u [] after p p' a b h =
    let (q, e, k) = import_users_cases o mode u after p p' h in
    (p, q, refl, e, import_users-other o mode (name_of u) after q p' b k)
import_users-one o mode u (v ∷ before) after p p' a b h =
    let (q, e, k) = import_users_cases o mode v (before ++ u ∷ after) p p' h in
    let (r, r', was, one, now) = import_users-one o mode u before after q p' a.1 b k in
    (r, r', was ∙ import_user-other o mode v p q (name_of u) e a.0, one, now)

-- A name in a set of values that were seen: what is the same as no value of the set is not it.
abbrev Covers : List Value → Text → Type 0
Covers seen name = (x : Text) → any (is_same (text x)) seen ≡ false → (x === name) ≡ false

valid_cons :
    (seen : List Value) (u : Row) (users : List Row)
    → are_valid_users seen (u ∷ users) ≡ true
    → ((is_username (name_of u) ≡ true) × (any (is_same (at (codes "username") u)) seen ≡ false))
      × (are_valid_users (at (codes "username") u ∷ seen) users ≡ true)
unfolding are_valid_users is_valid_user
valid_cons seen u users h = ground arith

Covers-head :
    (u : Row) (seen : List Value)
    → at (codes "username") u ≡ text (name_of u)
    → Covers (at (codes "username") u ∷ seen) (name_of u)
unfolding is_same
Covers-head u seen t x h =
    let k = subst (λ w. any (is_same (text x)) (w ∷ seen) ≡ false) t h in ground arith

username_filled : (t : Text) → is_username t ≡ true → is_empty t ≡ false
unfolding is_username
username_filled [] h = absurd (ground arith)
username_filled (c ∷ t) h = refl

All-middle {ℓ κ} :
    {A : Type ℓ} (P : A → Type κ) (before : List A) (x : A) (after : List A)
    → All P (before ++ x ∷ after)
    → P x
All-middle P [] x after h = h.0
All-middle P (y ∷ before) x after h = All-middle P before x after h.1

valid_names :
    (users : List Row) (seen : List Value) (name : Text)
    → Covers seen name
    → are_valid_users seen users ≡ true
    → All (λ v. at (codes "username") v ≡ text (name_of v)) users
    → All (λ v. (name_of v === name) ≡ false) users
valid_names [] seen name c h t = tt
valid_names (u ∷ users) seen name c h t =
    let (here, rest) = valid_cons seen u users h in
    (
      c (name_of u) (subst (λ x. any (is_same x) seen ≡ false) t.0 here.1),
      valid_names users (at (codes "username") u ∷ seen) name (λ x k. c x (ground arith)) rest t.1,
    )

pub valid_split :
    (before after : List Row) (u : Row) (seen : List Value)
    → are_valid_users seen (before ++ u ∷ after) ≡ true
    → All (λ v. at (codes "username") v ≡ text (name_of v)) (before ++ u ∷ after)
    → All (λ v. (name_of v === name_of u) ≡ false) before
      × All (λ v. (name_of v === name_of u) ≡ false) after
      × (is_empty (name_of u) ≡ false)
valid_split [] after u seen h t =
    let (here, rest) = valid_cons seen u after h in
    (
      tt,
      valid_names after (at (codes "username") u ∷ seen) (name_of u) (Covers-head u seen t.0) rest
          t.1,
      username_filled (name_of u) here.0,
    )
valid_split (v ∷ before) after u seen h t =
    let (here, rest) = valid_cons seen v (before ++ u ∷ after) h in
    let (a, b, filled) = valid_split before after u (at (codes "username") v ∷ seen) rest t.1 in
    let others =
      valid_names (before ++ u ∷ after) (at (codes "username") v ∷ seen) (name_of v)
        (Covers-head v seen t.0) rest t.1 in
    ((===_flip (name_of u) (name_of v) (All-middle _ before u after others), a), b, filled)
