-- ===== src/Backup/Import.antt =====
-- `importPanelBackup` of backend/src/services/backup.js: the checks, the files, and the transaction.
use zvpn.Base.{
  ℕ, ◌+◌, Bool, true, false, not, ◌&&◌, ◌||◌, Option, none, some, List, [], ◌∷◌, ◌++◌, Text, codes,
  get, put, put_all, ◌===◌, ◌==◌, ltb, leb, any, every, length, if◌then◌else◌, is_empty,
}
use zvpn.Backup.{
  Value, null, bool, number, text, Row, at, or_if_null, or_if_falsy, is_text, show_value, number_of,
  is_username, is_password_hash, Setting, settings, no_object, Certificates, Backup, Outer,
}

pub data ImportError : Type 0 where
  invalid_backup_format : ImportError
  invalid_backup_users : ImportError
  invalid_backup_integrity : ImportError
  invalid_backup_settings : ImportError

abbrev pub settings_sections : List Text
settings_sections =
    codes "ikeRelay"
    ∷ codes "xrayRelay"
    ∷ codes "netlify"
    ∷ codes "warp"
    ∷ codes "xray"
    ∷ codes "general"
    ∷ codes "vpn"
    ∷ codes "appearance"
    ∷ codes "download"
    ∷ codes "telegram"
    ∷ codes "github"
    ∷ []

abbrev pub is_section : Text → Bool
is_section key = any (λ s. s === key) settings_sections

-- `===` on the values that a `Set` finds.
unfoldable pub is_same : Value → Value → Bool
is_same null w = elim w [ null ↦ true | _ ↦ false ]
is_same (bool b) w = elim w [ bool c ↦ if b then c else not c | _ ↦ false ]
is_same (number n) w = elim w [ number m ↦ n == m | _ ↦ false ]
is_same (text s) w = elim w [ text t ↦ s === t | _ ↦ false ]

-- A number of devices from 1 to 10.
unfoldable pub has_devices : Value → Bool
unfolding number_of
has_devices v = elim (number_of (or_if_null v (number 1))) [
  | none ↦ false
  | some n ↦ leb 1 n && leb n 10
]

unfoldable pub is_valid_user : List Value → Row → Bool
unfolding is_same has_devices
is_valid_user seen u =
    is_username (show_value (at (codes "username") u))
    && not (any (is_same (at (codes "username") u)) seen)
    && (is_text (at (codes "secret_enc") u)
        || is_text (at (codes "secret_plain") u)
        || is_text (at (codes "password") u))
    && has_devices (at (codes "max_devices") u)

unfoldable pub are_valid_users : List Value → List Row → Bool
unfolding is_valid_user
are_valid_users seen [] = true
are_valid_users seen (u ∷ users) =
    is_valid_user seen u && are_valid_users (at (codes "username") u ∷ seen) users

unfoldable pub are_valid_sections : Outer → Option (List (Text × Setting)) → Bool
are_valid_sections o none = true
are_valid_sections o (some sections) =
    every (λ s. not (is_section s.0) || o.is_valid_patch s.0 s.1) sections

abbrev pub is_version : Option ℕ → Bool
is_version none = true
is_version (some n) = n == 1 || n == 2 || n == 3

abbrev pub has_integrity : Outer → Backup → Bool
has_integrity o b = elim b.integrity [ none ↦ true | some d ↦ d === o.digest b.payload ]

-- The checks before anything is written: the users, or the error.
unfoldable pub check_backup : Outer → Backup → Option ImportError
unfolding are_valid_users are_valid_sections
check_backup o b =
    if not (b.payload.format === codes "zvpn-panel-backup")
      || not (is_version b.payload.format_version)
    then some invalid_backup_format
    else elim b.payload.users [
      | none ↦ some invalid_backup_users
      | some users ↦
          if ltb 100000 (length users)
          then some invalid_backup_users
          else if not (has_integrity o b)
          then some invalid_backup_integrity
          else if not (are_valid_users [] users)
          then some invalid_backup_users
          else if not (are_valid_sections o b.payload.sections)
          then some invalid_backup_settings
          else none
    ]

abbrev pub file_of : Text → Option Text → List (Text × Text)
file_of path none = []
file_of path (some content) = if is_empty content then [] else (path, content) ∷ []

-- The certificates that are written; a write that fails is ignored.
unfoldable pub certificate_files : Option Certificates → List (Text × Text)
certificate_files none = []
certificate_files (some c) =
    file_of (codes "/etc/ipsec.d/cacerts/ikev2-ca-cert.pem") c.ca_cert
    ++ file_of (codes "/etc/ipsec.d/private/ikev2-ca-key.pem") c.ca_key
    ++ file_of (codes "/etc/ipsec.d/certs/ikev2-server-cert.pem") c.server_cert
    ++ file_of (codes "/etc/ipsec.d/private/ikev2-server-key.pem") c.server_key

unfoldable pub import_sections :
    List (Text × Setting) → List (Text × Setting) → List (Text × Setting)
import_sections [] table = table
import_sections ((key, no_object) ∷ sections) table = import_sections sections table
import_sections ((key, settings value) ∷ sections) table =
    let next = import_sections sections (put key (settings value) table) in
    if is_section key then next else import_sections sections table

-- A row with its columns set, in order.
unfoldable pub set_columns : Row → Row → Row
unfolding put_all
set_columns columns row = put_all columns row

abbrev pub roles : List Text
roles = codes "viewer" ∷ codes "operator" ∷ codes "admin" ∷ codes "owner" ∷ []

abbrev pub role_of : Value → Value
role_of (text t) = if any (λ r. r === t) roles then text t else text (codes "admin")
role_of _ = text (codes "admin")

-- The row of an administrator under its name, and how many were imported; `none` where the table
-- refuses one. Where an id or an instant is missing the database makes one, which is null here.
unfoldable pub import_admins :
    Outer → List Row → List (Text × Row) → ℕ → Option (List (Text × Row) × ℕ)
unfolding set_columns
import_admins o [] table count = some (table, count)
import_admins o (a ∷ admins) table count =
    let name = show_value (at (codes "username") a) in
    let hash = at (codes "password_hash") a in
    let secrets =
      (codes "password_hash", hash) ∷ (codes "role", role_of (at (codes "role") a)) ∷ [] in
    let row : Row = elim (get name table) [
      | some row ↦ set_columns secrets row
      | none ↦
          (codes "id", or_if_falsy (at (codes "id") a) null)
          ∷ (codes "username", text name)
          ∷ (codes "created_at", or_if_falsy (at (codes "created_at") a) null)
          ∷ secrets
    ] in
    let skipped = import_admins o admins table count in
    let added = import_admins o admins (put name row table) (1 + count) in
    if not (is_username name) || not (is_password_hash (show_value (or_if_falsy hash (text []))))
    then skipped
    else if not (o.takes_admin table row)
    then none
    else added
