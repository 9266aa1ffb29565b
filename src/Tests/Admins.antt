-- ===== src/Tests/Admins.antt =====
-- Administrators' sessions (backend/src/auth.js, backend/src/server.js) at concrete inputs.
use zvpn.Base.{
  ℕ, ◌≡◌, ◌+◌, ◌*◌, ◌/◌, inr, refl, false, none, some, Option, [], ◌∷◌, Text, codes, ◌===◌,
  if◌then◌else◌, arith, ltb, take, drop, length, take-append, drop-append, ◌++◌, lt→ltb,
}
use zvpn.Auth.{
  Admin, AdminSession, Tables, Libraries, Payload, object, Draw, Identity, passes, unauthorized,
  sign_admin, require_admin, revoke_all_admin_sessions, VerifiesSigned, verify_admin,
}
use zvpn.Auth.Handlers.{Credentials, logged_in, login, logout}
use zvpn.Auth.Sessions.{refuse, revoke_all-refuses, identity_of}
use zvpn.Auth.Steps.{here}
use zvpn.Auth.Opened.{row_of, login-require}
use zvpn.Auth.Final.{logout-final}

-- A signature that is the identifier of the session, and verifies for whoever has it.
abbrev lib : Libraries
lib = record {
  session_hash = λ jti. jti;
  sign = λ now hours c. codes "token";
  verify = λ now token. some (object (some (codes "1")) (some (codes "j")));
  compare = λ password hash. password === hash;
  lower = λ t. t;
}

abbrev ann : Admin
ann = record {
  id = codes "1";
  username = codes "ann";
  password_hash = codes "pw";
  role = codes "owner";
}

abbrev draw : Draw
draw = record { jti = codes "j"; session_id = codes "s"; cleans = false }

abbrev tables : Tables
tables = record { admins = ann ∷ []; sessions = [] }

abbrev session : AdminSession
session = record {
  id = codes "s";
  admin_id = codes "1";
  token_hash = codes "j";
  ip = none;
  user_agent = none;
  last_seen_at = 5000;
  expires_at = 5000 + 8 * 3600000;
  revoked_at = none;
}

abbrev opened : Tables
opened = record { admins = ann ∷ []; sessions = session ∷ [] }

abbrev ann_identity : Identity
ann_identity = record { id = codes "1"; username = codes "ann"; role = codes "owner" }

passes_ann : require_admin lib 6000 (some (codes "token")) opened ≡ passes ann_identity (codes "s")
unfolding require_admin ◌===◌
passes_ann = refl

revoke_all-refuses_example :
    require_admin lib 6000
      (some (codes "token"))
      (revoke_all_admin_sessions 5500 (codes "1") opened).1
    ≡ refuse (λ i id. i.id === codes "1") (require_admin lib 6000 (some (codes "token")) opened)
revoke_all-refuses_example =
    revoke_all-refuses lib 5500 6000 (codes "1") (some (codes "token")) opened (refl, tt)

logout-final_example :
    require_admin lib 7000 (some (codes "token")) (logout 6000 ann_identity (codes "s") opened).0
    ≡ unauthorized
logout-final_example =
    logout-final lib 6000 7000 (codes "token") (codes "1") (codes "j") refl (inr refl) opened
      (logout 6000 ann_identity (codes "s") opened).0 ann_identity (codes "s") (refl, tt) refl
      passes_ann here

-- A library whose tokens say until when and for whom they are.
abbrev said : ℕ → Text → Option Payload
said now (expiry ∷ n ∷ t) =
    if ltb (now / 1000) expiry then some (object (some (take n t)) (some (drop n t))) else none
said now t = none

abbrev plain_lib : Libraries
plain_lib = record {
  session_hash = λ jti. jti;
  sign = λ now hours c. (now / 1000 + hours * 3600) ∷ (length c.sub ∷ (c.sub ++ c.jti));
  verify = said;
  compare = λ password hash. password === hash;
  lower = λ t. t;
}

plain_verifies : VerifiesSigned plain_lib
plain_verifies signed now hours c h =
    rw
      (
        lt→ltb (now / 1000) (signed / 1000 + hours * 3600) h,
        take-append (length c.sub) c.sub c.jti refl,
        drop-append (length c.sub) c.sub c.jti refl,
      )
      refl

abbrev token : Text
token =
    plain_lib.sign 5000 8
      (record { sub = codes "1"; username = codes "ann"; role = codes "owner"; jti = codes "j" })

abbrev credentials : Credentials
credentials = record { username = codes "ann"; password = codes "pw" }

logs_in :
    login plain_lib 5000 8 draw (some credentials) none none tables
    ≡ logged_in token ann_identity ((some (codes "1"), codes "admin.login") ∷ []) opened
unfolding login ◌===◌ verify_admin sign_admin
logs_in = refl

login-require_example :
    (admin : Admin) × (verify_admin plain_lib (codes "ann") (codes "pw") tables ≡ some admin)
    × (ann_identity ≡ identity_of admin.id admin)
    × ((a : Admin) × (row_of admin.id opened ≡ some a)
        × (require_admin plain_lib 6000 (some token) opened
            ≡ passes (identity_of admin.id a) (codes "s")))
login-require_example =
    login-require plain_lib plain_verifies 5000 6000 8 draw credentials none none tables token
      ann_identity ((some (codes "1"), codes "admin.login") ∷ []) opened logs_in (omega arith) refl
      refl refl
