-- ===== src/Tokens/Found.antt =====
-- Whose account a download link opens: `tokenUser` of backend/src/server.js after the operations of
-- backend/src/services/users.js.
use zvpn.Base.{
  ===_flip, ℕ, ◌≡◌, inl, inr, refl, sym, ap, ◌∙◌, Bool, true, false, not, ◌&&◌, some, List, [], ◌∷◌,
  Text, ◌===◌, any, if◌then◌else◌, Bool-cases, Option-cases, arith, ===_refl, ===_iff,
  some_injective, subst,
}
use zvpn.Auth.{first}
use zvpn.Tokens.{
  Holder, has_token, token_user, is_holder, change, new_link, revoke_token, TokenEffect,
  queues_sync, disconnects_user, resets, reset_user_password, regenerate_token, NewUser,
  provision_user,
}

-- An operation on the rows of one account by which no old token opens it.
abbrev Cuts : Text → (Holder → Holder) → Type 0
Cuts token f = (h : Holder) → (has_token token (f h) && not (f h).revoked) ≡ false

-- A token that the change cuts from the account opens another account or none.
change-cut :
    (id token : Text) (f : Holder → Holder)
    → Cuts token f
    → (holders : List Holder) (h : Holder) → token_user token (change id f holders) ≡ some h
    → is_holder id h ≡ false
unfolding token_user change
change-cut id token f cuts [] h e = cc
change-cut id token f cuts (r ∷ holders) h e = elim (Bool-cases (is_holder id r)) [
  | inl k ↦ let l = (rw (k, cuts r) at e) in change-cut id token f cuts holders h l
  | inr k ↦ elim (Bool-cases (has_token token r && not r.revoked)) [
    | inr m ↦ let l = (rw (k, m) at e) in change-cut id token f cuts holders h l
    | inl m ↦ let l = (rw (k, m) at e) in ap (is_holder id) (sym (some_injective l)) ∙ k
  ]
]

-- The account that the change gives a new token to is the one that it opens.
change-new :
    (id token : Text) (f : Holder → Holder)
    → ((h : Holder) → (has_token token (f h) && not (f h).revoked) ≡ true)
    → (holders : List Holder) (h : Holder) → any (has_token token) holders ≡ false
    → first (is_holder id) holders ≡ some h
    → token_user token (change id f holders) ≡ some (f h)
unfolding token_user change
change-new id token f gives [] h fresh e = absurd (let k = e in cc)
change-new id token f gives (r ∷ holders) h fresh e = elim (Bool-cases (is_holder id r)) [
  | inl k ↦
      let l = (rw k at e) in rw (k, gives r) (let m = some_injective l in ap (λ x. some (f x)) m)
  | inr k ↦
      let l = (rw k at e) in
      let apart : has_token token r ≡ false = ground arith in
      rw (k, apart) (change-new id token f gives holders h (ground arith) l)
]

first_holder :
    (id : Text) (holders : List Holder) (h : Holder)
    → first (is_holder id) holders ≡ some h
    → h.id ≡ id
first_holder id [] h e = absurd (let k = e in cc)
first_holder id (r ∷ holders) h e = elim (Bool-cases (is_holder id r)) [
  | inl k ↦
      let l = (rw k at e) in
      let m = some_injective l in subst (λ x. x.id ≡ id) m ((===_iff r.id id).0 k)
  | inr k ↦ let l = (rw k at e) in first_holder id holders h l
]

abbrev reset_row : Text → Text → ℕ → Holder → Holder
reset_row secret token expires_at r = record (new_link token expires_at r) { secret = secret }

reset-Cuts :
    (secret token : Text) (expires_at : ℕ) (t : Text)
    → (t === token) ≡ false
    → Cuts t (reset_row secret token expires_at)
reset-Cuts secret token expires_at t h r = let k = ===_flip t token h in ground arith

-- After a reset of a password with a token that no account had: the new link opens the account, with
-- the new secret, and no other link does, so that the ones from before are dead; where the secrets
-- were synchronised the account's user is disconnected, and else a synchronisation is queued.
pub reset_user_password-token_user :
    (id secret token : Text) (expires_at : ℕ) (syncs ok : Bool) (holders after : List Holder)
    (effects : List TokenEffect)
    → reset_user_password id secret token expires_at syncs holders ≡ resets after ok effects
    → any (has_token token) holders ≡ false
    → ((h : Holder) × (token_user token after ≡ some h)
        × (h.id ≡ id)
        × (h.secret ≡ secret)
        × (effects ≡ (if ok then disconnects_user h.username ∷ [] else queues_sync ∷ [])))
      × ((t : Text) (h : Holder)
          → (t === token) ≡ false
          → token_user t after ≡ some h
          → is_holder id h ≡ false)
unfolding reset_user_password
reset_user_password-token_user id secret token expires_at syncs ok holders after effects e fresh =
    elim (Option-cases (first (is_holder id) holders)) [
      | inl k ↦ absurd (let l = (rw (reset_user_password, k) at e) in cc)
      | inr (h, k) ↦
          let l = (rw (reset_user_password, k) at e) in
          let rows : change id (reset_row secret token expires_at) holders ≡ after = cc in
          let does : syncs ≡ ok = cc in
          let done : (if syncs then disconnects_user h.username ∷ [] else queues_sync ∷ [])
              ≡ effects =
            cc in
          (
            (
              reset_row secret token expires_at h,
              ap (token_user token) (sym rows)
                  ∙ change-new id token (reset_row secret token expires_at)
                      (λ r. rw (===_refl token) refl) holders h fresh k,
              first_holder id holders h k,
              refl,
              sym done
                  ∙ ap (λ b. if b then disconnects_user h.username ∷ [] else queues_sync ∷ []) does,
            ),
            (λ t r apart found.
                change-cut id t (reset_row secret token expires_at)
                  (reset-Cuts secret token expires_at t apart) holders r
                  (ap (token_user t) rows ∙ found)),
          )
    ]

-- Once an account's link is revoked, no link opens the account.
pub revoke_token-token_user :
    (id t : Text) (holders : List Holder) (h : Holder)
    → token_user t (revoke_token id holders).1 ≡ some h
    → is_holder id h ≡ false
unfolding revoke_token
revoke_token-token_user id t holders h e =
    change-cut id t (λ r. record r { revoked = true }) (λ r. ground arith) holders h e

-- What can be done to the other accounts than that of the id, without a new token that is `t`: the
-- accounts that it leads to.
pub data Elsewhere (id t : Text) (holders : List Holder) : List Holder → Type 0 where
  starts : Elsewhere id t holders holders
  regenerates :
      {now : List Holder}
      → Elsewhere id t holders now
      → (other token : Text) (expires_at : ℕ) → (other === id) ≡ false
      → (t === token) ≡ false
      → Elsewhere id t holders (regenerate_token other token expires_at now).1
  revokes :
      {now : List Holder}
      → Elsewhere id t holders now
      → (other : Text) → (other === id) ≡ false
      → Elsewhere id t holders (revoke_token other now).1
  resets_other :
      {now after : List Holder}
      → Elsewhere id t holders now
      → (other secret token : Text) (expires_at : ℕ) (syncs ok : Bool) (effects : List TokenEffect)
      → (other === id) ≡ false
      → (t === token) ≡ false
      → reset_user_password other secret token expires_at syncs now ≡ resets after ok effects
      → Elsewhere id t holders after
  provisions :
      {now after : List Holder}
      → Elsewhere id t holders now
      → (new secret token : Text) (expires_at : ℕ) (syncs ok : Bool) (user : NewUser)
      → provision_user new secret token expires_at syncs user now ≡ some (after, ok)
      → Elsewhere id t holders after
