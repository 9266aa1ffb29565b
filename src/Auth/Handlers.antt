-- ===== src/Auth/Handlers.antt =====
-- The handlers of backend/src/server.js that sign an administrator in and out and change the
-- password. The schemas of the bodies are parameters' results; each audited action is emitted.
use zvpn.Base.{
  ℕ, not, Option, none, some, List, [], ◌∷◌, Text, codes, ◌===◌, map, is_empty, if◌then◌else◌,
}
use zvpn.Auth.{
  Admin, Tables, Libraries, Draw, Identity, sign_admin, revoke_admin_session,
  revoke_all_admin_sessions, verify_admin, first,
}

pub record Credentials : Type 0 where
  pub username : Text
  pub password : Text

-- The administrator and the action of an entry of the audit log.
abbrev pub Audited : Type 0
Audited = Option Text × Text

pub data LoginAnswer : Type 0 where
  invalid_input : LoginAnswer
  invalid_credentials : List Audited → LoginAnswer
  logged_in : Text → Identity → List Audited → Tables → LoginAnswer
  login_throws : LoginAnswer

-- `POST /api/auth/login`; the body is `none` where its schema refuses it.
unfoldable pub login :
    Libraries → ℕ → ℕ → Draw → Option Credentials → Option Text → Option Text → Tables → LoginAnswer
login lib now hours draw none ip user_agent t = invalid_input
login lib now hours draw (some body) ip user_agent t =
    elim (verify_admin lib body.username body.password t) [
      | none ↦ invalid_credentials ((none, codes "admin.login_failed") ∷ [])
      | some admin ↦ elim (sign_admin lib now hours draw admin ip user_agent t) [
        | none ↦ login_throws
        | some (token, t') ↦
            logged_in token
              (record {
                id = admin.id;
                username = admin.username;
                role = if is_empty admin.role then codes "admin" else admin.role;
              })
              ((some admin.id, codes "admin.login") ∷ []) t'
      ]
    ]

-- `POST /api/auth/logout`, behind the gate: the tables and the audit.
unfoldable pub logout : ℕ → Identity → Text → Tables → Tables × List Audited
logout now admin session_id t =
    ((revoke_admin_session now (some session_id) t).1, (some admin.id, codes "admin.logout") ∷ [])

pub record NewPassword : Type 0 where
  pub current : Text
  pub next : Text

pub data PasswordAnswer : Type 0 where
  bad_request : PasswordAnswer
  not_known : PasswordAnswer
  bad_password : PasswordAnswer
  changed : Tables → List Audited → PasswordAnswer

unfoldable pub set_password_hash : Text → Text → List Admin → List Admin
set_password_hash id hash = map λ a. if a.id === id then record a { password_hash = hash } else a

-- `POST /api/admin/password`, behind the gate, with the new hash that bcrypt makes. The schema
-- refuses equal passwords, which the body's second check is.
unfoldable pub change_password :
    Libraries → ℕ → Identity → Text → Option NewPassword → Tables → PasswordAnswer
unfolding set_password_hash
change_password lib now admin hashed none t = bad_request
change_password lib now admin hashed (some body) t =
    if body.current === body.next
    then bad_request
    else elim (first (λ a. a.id === admin.id) t.admins) [
      | none ↦ not_known
      | some a ↦
          if not (lib.compare body.current a.password_hash)
          then bad_password
          else let t' : Tables = record t { admins = set_password_hash a.id hashed t.admins } in
            changed (revoke_all_admin_sessions now a.id t').1
              ((some a.id, codes "admin.password_change") ∷ [])
    ]
