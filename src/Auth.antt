-- ===== src/Auth.antt =====
-- backend/src/auth.js: the administrators' sessions, in the tables `admins` and `admin_sessions`.
-- The libraries for hashes and tokens are parameters; the clock is in milliseconds.
pub mod Handlers
pub mod Sessions
pub mod Revoked
pub mod Opened
pub mod Steps
pub mod Reached
pub mod Final
use zvpn.Base.{
  ℕ, ◌+◌, ◌*◌, ◌/◌, ◌<◌, ◌≡◌, Bool, true, false, not, ◌&&◌, ◌||◌, Option, none, some, List, [], ◌∷◌,
  ◌++◌, Text, codes, ◌===◌, ltb, leb, keep, any, map, take, length, if◌then◌else◌, is_empty,
}

pub record Admin : Type 0 where
  pub id : Text
  pub username : Text
  pub password_hash : Text
  pub role : Text

pub record AdminSession : Type 0 where
  pub id : Text
  pub admin_id : Text
  pub token_hash : Text
  pub ip : Option Text
  pub user_agent : Option Text
  pub last_seen_at : ℕ
  pub expires_at : ℕ
  pub revoked_at : Option ℕ

pub record Tables : Type 0 where
  pub admins : List Admin
  pub sessions : List AdminSession

pub record Claims : Type 0 where
  pub sub : Text
  pub username : Text
  pub role : Text
  pub jti : Text

-- What `jwt.verify` returns: an object, of which `sub` and `jti` are read, or a text.
pub data Payload : Type 0 where
  object : Option Text → Option Text → Payload
  string : Text → Payload

-- Node's crypto, jsonwebtoken and bcryptjs, and the database's `lower`. `sign` and `verify` take the
-- instant of the call, and `sign` the hours to live; `verify` is `none` where it throws.
pub record Libraries : Type 0 where
  pub session_hash : Text → Text
  pub sign : ℕ → ℕ → Claims → Text
  pub verify : ℕ → Text → Option Payload
  pub compare : Text → Text → Bool
  pub lower : Text → Text

-- A token that was signed is verified, with its claims, until its time in whole seconds is up.
abbrev pub VerifiesSigned : Libraries → Type 0
VerifiesSigned lib =
    (signed now hours : ℕ) (c : Claims)
    → now / 1000 < signed / 1000 + hours * 3600
    → lib.verify now (lib.sign signed hours c) ≡ some (object (some c.sub) (some c.jti))

-- `ROLE_RANK`
abbrev pub role_rank : Text → Option ℕ
role_rank role =
    if role === codes "viewer"
    then some 0
    else if role === codes "operator"
    then some 1
    else if role === codes "admin"
    then some 2
    else if role === codes "owner"
    then some 3
    else none

abbrev pub has_rank : Text → Bool
has_rank role = elim (role_rank role) [ none ↦ false | some n ↦ true ]

unfoldable pub has_minimum_role : Text → Text → Bool
has_minimum_role role minimum = elim (role_rank role) [
  | none ↦ false
  | some r ↦ elim (role_rank minimum) [ none ↦ false | some m ↦ leb m r ]
]

abbrev pub hour_ms : ℕ
hour_ms = 3600000

abbrev pub week_ms : ℕ
week_ms = 604800000

-- The random and the outer parts of `signAdmin`: the identifiers, and whether it cleans up.
pub record Draw : Type 0 where
  pub jti : Text
  pub session_id : Text
  pub cleans : Bool

-- `text ? text.slice(0, 500) : null`
abbrev pub first_500 : Option Text → Option Text
first_500 none = none
first_500 (some t) = if is_empty t then none else some (take 500 t)

unfoldable pub new_session :
    Libraries → ℕ → ℕ → Draw → Text → Option Text → Option Text → AdminSession
new_session lib now hours draw admin_id ip user_agent = record {
  id = draw.session_id;
  admin_id = admin_id;
  token_hash = lib.session_hash draw.jti;
  ip = ip;
  user_agent = first_500 user_agent;
  last_seen_at = now;
  expires_at = now + hours * hour_ms;
  revoked_at = none;
}

-- The clean-up of the sessions that expired a week ago.
unfoldable pub without_old : ℕ → List AdminSession → List AdminSession
without_old now sessions = keep (λ s. not (ltb (s.expires_at + week_ms) now)) sessions

abbrev pub claims_for : Draw → Admin → Claims
claims_for draw admin = record {
  sub = admin.id;
  username = admin.username;
  role = if has_rank admin.role then admin.role else codes "admin";
  jti = draw.jti;
}

unfoldable pub token_for : Libraries → ℕ → ℕ → Draw → Admin → Text
token_for lib now hours draw admin = lib.sign now hours (claims_for draw admin)

-- The token and the tables after `signAdmin`. It throws, `none`, where the row is refused: the
-- hash is unique, and the administrator exists.
unfoldable pub sign_admin :
    Libraries → ℕ → ℕ → Draw → Admin → Option Text → Option Text → Tables → Option (Text × Tables)
unfolding new_session without_old token_for
sign_admin lib now hours draw admin ip user_agent t =
    let s = new_session lib now hours draw admin.id ip user_agent in
    if any (λ r. r.token_hash === s.token_hash) t.sessions
    then none
    else if not (any (λ a. a.id === admin.id) t.admins)
    then none
    else let sessions = t.sessions ++ s ∷ [] in
      some (
        token_for lib now hours draw admin,
        record t { sessions = if draw.cleans then without_old now sessions else sessions },
      )

-- The first row, of those that a test selects.
abbrev pub first {ℓ} : {A : Type ℓ} → (A → Bool) → List A → Option A
first p [] = none
first p (x ∷ xs) = if p x then some x else first p xs

unfoldable pub is_live : ℕ → AdminSession → Bool
is_live now s = elim s.revoked_at [ none ↦ ltb now s.expires_at | some at ↦ false ]

-- The WHERE of `requireAdmin`, without the join.
unfoldable pub opens : ℕ → Text → Text → AdminSession → Bool
unfolding is_live
opens now token_hash admin_id s =
    s.token_hash === token_hash && s.admin_id === admin_id && is_live now s

pub record Identity : Type 0 where
  pub id : Text
  pub username : Text
  pub role : Text

-- The join of a session with its administrator: the identity and the session's id.
unfoldable pub read_row : List Admin → Option AdminSession → Option (Identity × Text)
read_row admins none = none
read_row admins (some s) = elim (first (λ a. a.id === s.admin_id) admins) [
  | none ↦ none
  | some a ↦ some (
    record {
      id = s.admin_id;
      username = a.username;
      role = if is_empty a.role then codes "admin" else a.role;
    },
    s.id,
  )
]

unfoldable pub open_session : ℕ → Text → Text → Tables → Option (Identity × Text)
unfolding opens read_row
open_session now token_hash admin_id t =
    read_row t.admins (first (opens now token_hash admin_id) t.sessions)

abbrev pub five_minutes_ms : ℕ
five_minutes_ms = 300000

unfoldable pub touch : ℕ → Text → List AdminSession → List AdminSession
touch now id = map λ s.
    if s.id === id && ltb (s.last_seen_at + five_minutes_ms) now
    then record s { last_seen_at = now }
    else s

pub data Gate : Type 0 where
  unauthorized : Gate
  passes : Identity → Text → Gate

-- `requireAdmin`: the gate's answer to a cookie.
unfoldable pub require_admin : Libraries → ℕ → Option Text → Tables → Gate
unfolding open_session
require_admin lib now none t = unauthorized
require_admin lib now (some token) t =
    if is_empty token then unauthorized else elim (lib.verify now token) [
      | none ↦ unauthorized
      | some payload ↦ elim payload [
        | string text ↦ unauthorized
        | object sub jti ↦ elim sub [
          | none ↦ unauthorized
          | some sub ↦ elim jti [
            | none ↦ unauthorized
            | some jti ↦
                if is_empty sub || is_empty jti
                then unauthorized
                else elim (open_session now (lib.session_hash jti) sub t) [
                  | none ↦ unauthorized
                  | some (identity, id) ↦ passes identity id
                ]
          ]
        ]
      ]
    ]

-- What `requireAdmin` leaves: where it passes, and its update succeeds, the session is touched.
unfoldable pub after_gate : ℕ → Bool → Gate → Tables → Tables
unfolding touch
after_gate now updates unauthorized t = t
after_gate now updates (passes identity id) t =
    if updates then record t { sessions = touch now id t.sessions } else t

-- `requireRole(minimum)` behind the gate: 403, or on to the handler.
unfoldable pub require_role : Text → Option Identity → Bool
unfolding has_minimum_role
require_role minimum none = false
require_role minimum (some admin) = has_minimum_role admin.role minimum

abbrev pub revoked_by : ℕ → Option ℕ → Option ℕ
revoked_by now none = some now
revoked_by now (some at) = some at

unfoldable pub revoke : ℕ → (AdminSession → Bool) → AdminSession → AdminSession
revoke now p s = if p s then record s { revoked_at = revoked_by now s.revoked_at } else s

-- The UPDATE of the sessions that a test selects.
unfoldable pub revoke_if : ℕ → (AdminSession → Bool) → List AdminSession → List AdminSession
unfolding revoke
revoke_if now p = map (revoke now p)

-- `revokeAdminSession`: whether it found the session, and the tables.
unfoldable pub revoke_admin_session : ℕ → Option Text → Tables → Bool × Tables
unfolding revoke_if
revoke_admin_session now none t = (false, t)
revoke_admin_session now (some id) t = if is_empty id then (false, t) else (
  any (λ s. s.id === id) t.sessions,
  record t { sessions = revoke_if now (λ s. s.id === id) t.sessions },
)

abbrev pub is_unrevoked : AdminSession → Bool
is_unrevoked s = elim s.revoked_at [ none ↦ true | some at ↦ false ]

-- `revokeAllAdminSessions`: how many it revoked, and the tables.
unfoldable pub revoke_all_admin_sessions : ℕ → Text → Tables → ℕ × Tables
unfolding revoke_if
revoke_all_admin_sessions now admin_id t =
    let p : AdminSession → Bool = (λ s. s.admin_id === admin_id && is_unrevoked s) in
    (length (keep p t.sessions), record t { sessions = revoke_if now p t.sessions })

abbrev pub dummy_password_hash : Text
dummy_password_hash = codes "$2a$12$LQv3c1yqBWVHxkd0LHAkCOYz6TtxH7/3MZfM0pM5Qn1f4rYqv2E6u"

unfoldable pub verify_admin : Libraries → Text → Text → Tables → Option Admin
verify_admin lib username password t =
    elim (first (λ a. lib.lower a.username === lib.lower username) t.admins) [
      | none ↦ none
      | some admin ↦
          let hash =
            if is_empty admin.password_hash then dummy_password_hash else admin.password_hash in
          if lib.compare password hash then some admin else none
    ]
