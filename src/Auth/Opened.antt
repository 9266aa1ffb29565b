-- ===== src/Auth/Opened.antt =====
-- A session that `signAdmin` opens, until it expires: backend/src/auth.js, and the login of
-- backend/src/server.js.
use zvpn.Base.{
  some_injective, ℕ, ◌+◌, ◌*◌, ◌/◌, ◌<◌, ◌≡◌, refl, ap, ap₂, ◌∙◌, sym, subst, Bool, true, false,
  not, Option, none, some, List, [], ◌∷◌, ◌++◌, Text, ◌===◌, ===_refl, any, if◌then◌else◌, is_empty,
  ltb, Bool-cases, Option-cases, inl, inr, arith, keep-append,
}
use zvpn.Auth.{
  Admin, AdminSession, Tables, Libraries, passes, Identity, first, is_live, opens, read_row,
  open_session, without_old, require_admin, hour_ms, week_ms, verify_admin, sign_admin, new_session,
  token_for, claims_for, Draw, VerifiesSigned,
}
use zvpn.Auth.Handlers.{Credentials, logged_in, login, Audited}
use zvpn.Auth.Revoked.{has_hash, none-opens, any-keep_le}
use zvpn.Auth.Sessions.{gate_of, identity_of}

abbrev pub signed_sessions :
    Libraries
    → ℕ
    → ℕ
    → Draw
    → Text
    → Option Text
    → Option Text
    → List AdminSession
    → List AdminSession
signed_sessions lib now hours draw id ip agent sessions =
    let all = sessions ++ new_session lib now hours draw id ip agent ∷ [] in
    if draw.cleans then without_old now all else all

-- What a call of `signAdmin` that returns had and made.
pub sign_lem :
    (lib : Libraries) (now hours : ℕ) (draw : Draw) (admin : Admin) (ip agent : Option Text)
    (t : Tables)
    → (token : Text) (t' : Tables)
    → sign_admin lib now hours draw admin ip agent t ≡ some (token, t')
    → (any (has_hash (lib.session_hash draw.jti)) t.sessions ≡ false)
      × (any (λ a. a.id === admin.id) t.admins ≡ true)
      × (token ≡ token_for lib now hours draw admin)
      × (t'
          ≡ record t { sessions = signed_sessions lib now hours draw admin.id ip agent t.sessions })
unfolding sign_admin new_session
sign_lem lib now hours draw admin ip agent t token t' h =
    let after : Tables = record t {
      sessions = signed_sessions lib now hours draw admin.id ip agent t.sessions;
    } in
    elim (Bool-cases (any (has_hash (lib.session_hash draw.jti)) t.sessions)) [
      | inl e ↦ absurd (let k = (rw e at h) in cc)
      | inr e ↦ elim (Bool-cases (any (λ a. a.id === admin.id) t.admins)) [
        | inr k ↦ absurd (let l = (rw (e, k) at h) in cc)
        | inl k ↦
            let l = (rw (e, k) at h) in
            let made : some (token_for lib now hours draw admin, after) ≡ some (token, t') = l in
            let pair = some_injective made in
            (e, k, sym (ap (λ p. p.0) pair), sym (ap (λ p. p.1) pair))
      ]
    ]

first-append {ℓ} :
    {A : Type ℓ} (p : A → Bool) (xs ys : List A)
    → first p xs ≡ none
    → first p (xs ++ ys) ≡ first p ys
first-append p [] ys h = refl
first-append p (x ∷ xs) ys h = elim (Bool-cases (p x)) [
  | inl e ↦ absurd (let k = (rw e at h) in cc)
  | inr e ↦ let k = (rw e at h) in rw e (first-append p xs ys k)
]

first-any {ℓ} :
    {A : Type ℓ} (p : A → Bool) (xs : List A) → any p xs ≡ true → (x : A) × (first p xs ≡ some x)
first-any p [] h = absurd (ground arith)
first-any p (x ∷ xs) h = elim (Bool-cases (p x)) [
  | inl e ↦ (x, rw e refl)
  | inr e ↦ let (y, k) = first-any p xs (rw e at h) in (y, rw e k)
]

-- The new session opens at every instant before it expires, and is the one that the gate reads.
new_session-opens :
    (lib : Libraries) (now later hours : ℕ) (draw : Draw) (id : Text) (ip agent : Option Text)
    → later < now + hours * hour_ms
    → opens later (lib.session_hash draw.jti) id (new_session lib now hours draw id ip agent) ≡ true
unfolding opens is_live new_session
new_session-opens lib now later hours draw id ip agent h =
    rw (===_refl (lib.session_hash draw.jti), ===_refl id) (ground arith)

not_late : (now hours : ℕ) → ltb (now + hours * hour_ms + week_ms) now ≡ false
not_late now hours = ground arith

new_session-stays :
    (lib : Libraries) (now hours : ℕ) (draw : Draw) (id : Text) (ip agent : Option Text)
    → (sessions : List AdminSession)
    → without_old now (sessions ++ new_session lib now hours draw id ip agent ∷ [])
      ≡ without_old now sessions ++ new_session lib now hours draw id ip agent ∷ []
unfolding without_old new_session
new_session-stays lib now hours draw id ip agent sessions =
    keep-append (λ s. not (ltb (s.expires_at + week_ms) now)) sessions _
    ∙ ap
        (λ b.
          without_old now sessions
          ++ (if not b then new_session lib now hours draw id ip agent ∷ [] else []))
        (not_late now hours)

any_hash-without_old :
    (lib : Libraries) (now : ℕ) (draw : Draw) (sessions : List AdminSession)
    → any (has_hash (lib.session_hash draw.jti)) sessions ≡ false
    → any (has_hash (lib.session_hash draw.jti)) (without_old now sessions) ≡ false
unfolding without_old
any_hash-without_old lib now draw sessions h =
    any-keep_le (has_hash (lib.session_hash draw.jti)) _ sessions h

signed_opens :
    (lib : Libraries) (now later hours : ℕ) (draw : Draw) (id : Text) (ip agent : Option Text)
    → (sessions : List AdminSession) → later < now + hours * hour_ms
    → any (has_hash (lib.session_hash draw.jti)) sessions ≡ false
    → first
        (opens later (lib.session_hash draw.jti) id)
        (signed_sessions lib now hours draw id ip agent sessions)
      ≡ some (new_session lib now hours draw id ip agent)
unfolding new_session
signed_opens lib now later hours draw id ip agent sessions h fresh =
    let new = new_session lib now hours draw id ip agent in
    let p = opens later (lib.session_hash draw.jti) id in
    let opened : first p (new ∷ []) ≡ some new =
      rw (new_session-opens lib now later hours draw id ip agent h) refl in
    elim (Bool-cases draw.cleans) [
      | inr e ↦
          rw e (first-append p sessions (new ∷ []) (none-opens later _ id sessions fresh) ∙ opened)
      | inl e ↦ rw e (
          ap (first p) (new_session-stays lib now hours draw id ip agent sessions)
          ∙ first-append p (without_old now sessions) (new ∷ []) (
              none-opens later _ id (without_old now sessions)
                (any_hash-without_old lib now draw sessions fresh))
          ∙ opened)
    ]

-- The gate on a token that `signAdmin` made, over tables whose sessions and administrators are known.
gate_signed :
    (lib : Libraries)
    → VerifiesSigned lib
    → (now later hours : ℕ) (draw : Draw) (admin : Admin) (t : Tables)
    → later / 1000 < now / 1000 + hours * 3600
    → is_empty (token_for lib now hours draw admin) ≡ false
    → is_empty admin.id ≡ false
    → is_empty draw.jti ≡ false
    → require_admin lib later (some (token_for lib now hours draw admin)) t
      ≡ gate_of (open_session later (lib.session_hash draw.jti) admin.id t)
unfolding require_admin token_for
gate_signed lib verifies now later hours draw admin t h token id jti =
    let verified = verifies now later hours (claims_for draw admin) h in
    elim (Option-cases (open_session later (lib.session_hash draw.jti) admin.id t)) [
      | inl e ↦ rw (token, verified, id, jti, e) refl
      | inr (found, e) ↦ rw (token, verified, id, jti, e) refl
    ]

-- The row of `admins` that has the id.
abbrev pub row_of : Text → Tables → Option Admin
row_of id t = first (λ a. a.id === id) t.admins

read_new :
    (lib : Libraries) (now hours : ℕ) (draw : Draw) (id : Text) (ip agent : Option Text)
    → (admins : List Admin) (a : Admin) → first (λ a. a.id === id) admins ≡ some a
    → read_row admins (some (new_session lib now hours draw id ip agent))
      ≡ some (identity_of id a, draw.session_id)
unfolding read_row new_session
read_new lib now hours draw id ip agent admins a h = rw (read_row, h) refl

-- A token that `signAdmin` returns passes the gate until its time in whole seconds is up, as the
-- administrator that it was made for and with the session that was opened, where the
-- administrator's id, the token and its identifier are no empty texts and a token that was signed
-- is verified.
pub sign-require :
    (lib : Libraries)
    → VerifiesSigned lib
    → (now later hours : ℕ) (draw : Draw) (admin : Admin) (ip agent : Option Text) (t : Tables)
    → (token : Text) (t' : Tables)
    → sign_admin lib now hours draw admin ip agent t ≡ some (token, t')
    → later / 1000 < now / 1000 + hours * 3600
    → is_empty token ≡ false
    → is_empty admin.id ≡ false
    → is_empty draw.jti ≡ false
    → (a : Admin) × (row_of admin.id t ≡ some a)
      × (require_admin lib later (some token) t' ≡ passes (identity_of admin.id a) draw.session_id)
unfolding open_session read_row
sign-require lib verifies now later hours draw admin ip agent t token t' h in_time token_filled
      id_filled jti_filled =
    let (fresh, known, token_eq, t'_eq) = sign_lem lib now hours draw admin ip agent t token t' h in
    let (a, row) = first-any (λ a. a.id === admin.id) t.admins known in
    (
      a,
      row,
      rw (token_eq, t'_eq)
          (gate_signed lib verifies now later hours draw admin _ in_time
              (rw (← token_eq) token_filled) id_filled jti_filled
            ∙ ap gate_of (
                ap (read_row t.admins) (
                  signed_opens lib now later hours draw admin.id ip agent t.sessions (ground arith)
                    fresh)
                ∙ read_new lib now hours draw admin.id ip agent t.admins a row)),
    )

login_lem :
    (lib : Libraries) (now hours : ℕ) (draw : Draw) (body : Credentials) (ip agent : Option Text)
    (t : Tables)
    → (token : Text) (i : Identity) (audits : List Audited) (t' : Tables)
    → login lib now hours draw (some body) ip agent t ≡ logged_in token i audits t'
    → (admin : Admin) × (verify_admin lib body.username body.password t ≡ some admin)
      × (sign_admin lib now hours draw admin ip agent t ≡ some (token, t'))
      × (i ≡ identity_of admin.id admin)
unfolding login
login_lem lib now hours draw body ip agent t token i audits t' h =
    elim (Option-cases (verify_admin lib body.username body.password t)) [
      | inl e ↦ absurd (let k = (rw (login, e) at h) in cc)
      | inr (admin, e) ↦ elim (Option-cases (sign_admin lib now hours draw admin ip agent t)) [
        | inl k ↦ absurd (let l = (rw (login, e, k) at h) in cc)
        | inr ((token₁, t₁), k) ↦
            let l = (rw (login, e, k) at h) in
            let t_eq : token₁ ≡ token = cc in
            let s_eq : t₁ ≡ t' = cc in
            let i_eq : identity_of admin.id admin ≡ i = cc in
            (admin, e, k ∙ ap₂ (λ x y. some (x, y)) t_eq s_eq, sym i_eq)
      ]
    ]

-- A login that is answered with a token had the password of an administrator with the name, and its
-- token passes the gate as this administrator, with the row's name and role, until its time in whole
-- seconds is up, under the conditions on empty texts and on verifying.
pub login-require :
    (lib : Libraries)
    → VerifiesSigned lib
    → (now later hours : ℕ) (draw : Draw) (body : Credentials) (ip agent : Option Text) (t : Tables)
    → (token : Text) (i : Identity) (audits : List Audited) (t' : Tables)
    → login lib now hours draw (some body) ip agent t ≡ logged_in token i audits t'
    → later / 1000 < now / 1000 + hours * 3600
    → is_empty token ≡ false
    → is_empty i.id ≡ false
    → is_empty draw.jti ≡ false
    → (admin : Admin) × (verify_admin lib body.username body.password t ≡ some admin)
      × (i ≡ identity_of admin.id admin)
      × ((a : Admin) × (row_of admin.id t ≡ some a)
          × (require_admin lib later (some token) t'
              ≡ passes (identity_of admin.id a) draw.session_id))
login-require lib verifies now later hours draw body ip agent t token i audits t' h in_time
      token_filled id_filled jti_filled =
    let (admin, found, signed, id) =
      login_lem lib now hours draw body ip agent t token i audits t' h in
    (
      admin,
      found,
      id,
      sign-require lib verifies now later hours draw admin ip agent t token t' signed in_time
          token_filled (subst (λ x. is_empty x ≡ false) (ap (λ x. x.id) id) id_filled) jti_filled,
    )
