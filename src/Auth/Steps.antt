-- ===== src/Auth/Steps.antt =====
-- The tables of administrators through any sequence of operations of backend/src/auth.js and of the
-- handlers: the hashes stay distinct, and a revoked hash stays shut.
use zvpn.Base.{
  ℕ, ◌+◌, ◌≡◌, refl, subst, Bool, true, false, ◌&&◌, Option, none, some, List, [], ◌∷◌, ◌++◌, Text,
  ◌===◌, any, keep, map, if◌then◌else◌, is_empty, ltb, Bool-cases, Option-cases, inl, inr, arith,
}
use zvpn.Auth.{
  Admin, AdminSession, Tables, Libraries, Draw, Gate, unauthorized, passes, Identity, first, touch,
  revoke, revoke_if, is_unrevoked, without_old, revoke_admin_session, revoke_all_admin_sessions,
  after_gate, sign_admin, new_session, five_minutes_ms,
}
use zvpn.Auth.Handlers.{change_password, changed, NewPassword, Audited, set_password_hash}
use zvpn.Auth.Revoked.{has_hash, KeepsHash, revoke-KeepsHash}
use zvpn.Auth.Opened.{sign_lem, signed_sessions}

-- One operation; a session may be opened by a hash that is not to be avoided.
pub data Step (lib : Libraries) (avoid : Text → Bool) : Tables → Tables → Type 0 where
  signs :
      (now hours : ℕ) (draw : Draw) (admin : Admin) (ip agent : Option Text) (token : Text)
      → (t t' : Tables) → avoid (lib.session_hash draw.jti) ≡ false
      → sign_admin lib now hours draw admin ip agent t ≡ some (token, t')
      → Step lib avoid t t'
  touches :
      (now : ℕ) (updates : Bool) (g : Gate) (t : Tables)
      → Step lib avoid t (after_gate now updates g t)
  revokes :
      (now : ℕ) (id : Option Text) (t : Tables) → Step lib avoid t (revoke_admin_session now id t).1
  revokes_all :
      (now : ℕ) (id : Text) (t : Tables) → Step lib avoid t (revoke_all_admin_sessions now id t).1
  changes_password :
      (now : ℕ) (admin : Identity) (hashed : Text) (body : Option NewPassword)
      (audits : List Audited)
      → (t t' : Tables) → change_password lib now admin hashed body t ≡ changed t' audits
      → Step lib avoid t t'

pub data Reaches (lib : Libraries) (avoid : Text → Bool) (t : Tables) : Tables → Type 0 where
  here : Reaches lib avoid t t
  then_step : (u v : Tables) → Reaches lib avoid t u → Step lib avoid u v → Reaches lib avoid t v

-- What each operation makes of the sessions: a change of each that keeps the hashes and never
-- revives one, or a new one after the others, some of which may go.
abbrev pub KeepsRevoked : (AdminSession → AdminSession) → Type 0
KeepsRevoked f = (s : AdminSession) → is_unrevoked s ≡ false → is_unrevoked (f s) ≡ false

touched : ℕ → Text → AdminSession → AdminSession
touched now id s =
    if s.id === id && ltb (s.last_seen_at + five_minutes_ms) now
    then record s { last_seen_at = now }
    else s

touch-change : (now : ℕ) (id : Text) → KeepsHash (touched now id) × KeepsRevoked (touched now id)
unfolding touched
touch-change now id = (λ s. ground arith, λ s h. ground arith)

pub revoke-KeepsRevoked : (now : ℕ) (p : AdminSession → Bool) → KeepsRevoked (revoke now p)
unfolding revoke
revoke-KeepsRevoked now p s h = elim (Bool-cases (p s)) [
  | inr e ↦ rw e h
  | inl e ↦ elim (Option-cases s.revoked_at) [
    | inl k ↦ rw (e, k) refl
    | inr (at, k) ↦ rw (e, k) refl
  ]
]

-- The sessions after a step.
pub data Change (avoid : Text → Bool) (before : List AdminSession)
    : List AdminSession → Type 0 where
  each :
      (f : AdminSession → AdminSession)
      → KeepsHash f
      → KeepsRevoked f
      → Change avoid before (map f before)
  same : Change avoid before before
  opened :
      (q : AdminSession → Bool) (s : AdminSession)
      → any (has_hash s.token_hash) before ≡ false
      → avoid s.token_hash ≡ false
      → Change avoid before (keep q (before ++ s ∷ []))
  added :
      (s : AdminSession)
      → any (has_hash s.token_hash) before ≡ false
      → avoid s.token_hash ≡ false
      → Change avoid before (before ++ s ∷ [])

revoke_if-Change :
    (avoid : Text → Bool) (now : ℕ) (p : AdminSession → Bool) (sessions : List AdminSession)
    → Change avoid sessions (revoke_if now p sessions)
unfolding revoke_if
revoke_if-Change avoid now p sessions =
    each (revoke now p) (revoke-KeepsHash now p) (revoke-KeepsRevoked now p)

revoke_all-Change :
    (avoid : Text → Bool) (now : ℕ) (id : Text) (t : Tables)
    → Change avoid t.sessions (revoke_all_admin_sessions now id t).1.sessions
unfolding revoke_all_admin_sessions
revoke_all-Change avoid now id t = revoke_if-Change avoid now _ t.sessions

revoke_one-Change :
    (avoid : Text → Bool) (now : ℕ) (id : Option Text) (t : Tables)
    → Change avoid t.sessions (revoke_admin_session now id t).1.sessions
unfolding revoke_admin_session
revoke_one-Change avoid now none t = same
revoke_one-Change avoid now (some id) t = elim (Bool-cases (is_empty id)) [
  | inl e ↦ rw e same
  | inr e ↦ rw e (revoke_if-Change avoid now _ t.sessions)
]

after_gate-Change :
    (avoid : Text → Bool) (now : ℕ) (updates : Bool) (g : Gate) (t : Tables)
    → Change avoid t.sessions (after_gate now updates g t).sessions
unfolding after_gate touch touched
after_gate-Change avoid now updates unauthorized t = same
after_gate-Change avoid now false (passes identity id) t = same
after_gate-Change avoid now true (passes identity id) t =
    each (touched now id) (touch-change now id).0 (touch-change now id).1

password-Change :
    (lib : Libraries) (avoid : Text → Bool) (now : ℕ) (admin : Identity) (hashed : Text)
    → (body : Option NewPassword) (audits : List Audited) (t t' : Tables)
    → change_password lib now admin hashed body t ≡ changed t' audits
    → Change avoid t.sessions t'.sessions
unfolding change_password
password-Change lib avoid now admin hashed none audits t t' h = absurd (ground arith)
password-Change lib avoid now admin hashed (some body) audits t t' h =
    elim (Bool-cases (body.current === body.next)) [
      | inl e ↦ absurd (let k = (rw e at h) in cc)
      | inr e ↦ elim (Option-cases (first (λ a. a.id === admin.id) t.admins)) [
        | inl k ↦ absurd (let l = (rw (e, k) at h) in cc)
        | inr (a, k) ↦ elim (Bool-cases (lib.compare body.current a.password_hash)) [
          | inr l ↦ absurd (let m = (rw (e, k, l) at h) in cc)
          | inl l ↦
              let m = (rw (e, k, l) at h) in
              let t₁ : Tables = record t { admins = set_password_hash a.id hashed t.admins } in
              let made : (revoke_all_admin_sessions now a.id t₁).1 ≡ t' = cc in
              subst (λ x. Change avoid t.sessions x.sessions) made
                (revoke_all-Change avoid now a.id t₁)
        ]
      ]
    ]

signed-Change :
    (lib : Libraries) (avoid : Text → Bool) (now hours : ℕ) (draw : Draw) (id : Text)
    → (ip agent : Option Text) (sessions : List AdminSession)
    → any (has_hash (lib.session_hash draw.jti)) sessions ≡ false
    → avoid (lib.session_hash draw.jti) ≡ false
    → Change avoid sessions (signed_sessions lib now hours draw id ip agent sessions)
unfolding new_session without_old
signed-Change lib avoid now hours draw id ip agent sessions fresh apart =
    elim (Bool-cases draw.cleans) [
      | inl e ↦ rw e (opened _ (new_session lib now hours draw id ip agent) fresh apart)
      | inr e ↦ rw e (added (new_session lib now hours draw id ip agent) fresh apart)
    ]

pub Step-Change :
    (lib : Libraries) (avoid : Text → Bool) (t t' : Tables)
    → Step lib avoid t t'
    → Change avoid t.sessions t'.sessions
Step-Change lib avoid t t' (signs now hours draw admin ip agent token _ _ apart h) =
    let (fresh, _, _, made) = sign_lem lib now hours draw admin ip agent t token t' h in
    rw made (signed-Change lib avoid now hours draw admin.id ip agent t.sessions fresh apart)
Step-Change lib avoid t _ (touches now updates g _) = after_gate-Change avoid now updates g t
Step-Change lib avoid t _ (revokes now id _) = revoke_one-Change avoid now id t
Step-Change lib avoid t _ (revokes_all now id _) = revoke_all-Change avoid now id t
Step-Change lib avoid t t' (changes_password now admin hashed body audits _ _ h) =
    password-Change lib avoid now admin hashed body audits t t' h
