-- ===== src/Backup.antt =====
-- The backup of the panel (backend/src/services/backup.js): its values, and the file that
-- `exportPanelBackup` makes. A row is the association list of its columns; a number is no fraction
-- and not negative, and the driver gives a `bigint` as a text.
pub mod Import
pub mod Accounts
pub mod Cases
pub mod Columns
pub mod Restored
pub mod RoundTrip
pub mod Complete
pub mod Exported
pub mod Synced
use zvpn.Base.{
  ℕ, ◌+◌, ◌-◌, ◌≡◌, Bool, true, false, not, ◌&&◌, ◌||◌, Option, none, some, List, [], ◌∷◌, ◌++◌,
  Text, codes, get, put, ◌===◌, ◌==◌, ltb, leb, keep, any, every, map, length, if◌then◌else◌,
  is_empty, is_digit, is_lower, is_upper, between, show_number, decimal_from, split_on,
}

pub data Value : Type 0 where
  null : Value
  bool : Bool → Value
  number : ℕ → Value
  text : Text → Value

abbrev pub Row : Type 0
Row = List (Text × Value)

-- `row.column`; a missing field is `undefined`, which the code never tells from null.
unfoldable pub at : Text → Row → Value
at column row = elim (get column row) [ none ↦ null | some v ↦ v ]

-- `value ?? other`
abbrev pub or_if_null : Value → Value → Value
or_if_null null other = other
or_if_null (bool b) other = bool b
or_if_null (number n) other = number n
or_if_null (text t) other = text t

abbrev pub is_truthy : Value → Bool
is_truthy null = false
is_truthy (bool b) = b
is_truthy (number n) = not (n == 0)
is_truthy (text t) = not (is_empty t)

-- `value || other`
abbrev pub or_if_falsy : Value → Value → Value
or_if_falsy v other = if is_truthy v then v else other

abbrev pub is_text : Value → Bool
is_text (text t) = true
is_text _ = false

-- `String(value || '')`
unfoldable pub show_value : Value → Text
show_value null = []
show_value (bool b) = if b then codes "true" else []
show_value (number n) = if n == 0 then [] else show_number n
show_value (text t) = t

-- `Number(value)`, `none` where it is NaN. Other numerals than decimal digits are not represented.
unfoldable pub number_of : Value → Option ℕ
number_of null = some 0
number_of (bool b) = some (if b then 1 else 0)
number_of (number n) = some n
number_of (text t) = if every is_digit t then some (decimal_from 0 t) else none

-- `/^[A-Za-z0-9_.@-]{3,64}$/`
unfoldable pub is_username : Text → Bool
is_username t =
    every
      (λ c.
        is_lower c || is_upper c || is_digit c || c == b'_' || c == b'.' || c == b'@' || c == b'-')
      t
    && leb 3 (length t)
    && leb (length t) 64

abbrev pub is_hex : ℕ → Bool
is_hex c = is_digit c || between b'a' b'f' c || between b'A' b'F' c

abbrev pub have_lengths : List ℕ → List Text → Bool
have_lengths [] [] = true
have_lengths [] (part ∷ parts) = false
have_lengths (n ∷ ns) [] = false
have_lengths (n ∷ ns) (part ∷ parts) =
    length part == n && every is_hex part && have_lengths ns parts

-- `/^[0-9a-f]{8}-[0-9a-f]{4}-[0-9a-f]{4}-[0-9a-f]{4}-[0-9a-f]{12}$/i`
unfoldable pub is_uuid : Text → Bool
is_uuid t = have_lengths (8 ∷ 4 ∷ 4 ∷ 4 ∷ 12 ∷ []) (split_on b'-' t)

-- `/^\$2[aby]\$\d{2}\$[./A-Za-z0-9]{53}$/`
unfoldable pub is_password_hash : Text → Bool
is_password_hash (d ∷ two ∷ variant ∷ e ∷ i ∷ j ∷ f ∷ rest) =
    d == b'$'
    && two == b'2'
    && (variant == b'a' || variant == b'b' || variant == b'y')
    && e == b'$'
    && is_digit i
    && is_digit j
    && f == b'$'
    && length rest == 53
    && every (λ c. c == b'.' || c == b'/' || is_upper c || is_lower c || is_digit c) rest
is_password_hash _ = false

-- A section of the settings: an object, or a value that is none.
pub data Setting : Type 0 where
  settings : Text → Setting
  no_object : Setting

pub record Certificates : Type 0 where
  pub ca_cert : Option Text
  pub ca_key : Option Text
  pub server_cert : Option Text
  pub server_key : Option Text

-- A backup without its digest. `none` is a field that is missing, or no array or object.
pub record Payload : Type 0 where
  pub format : Text
  pub format_version : Option ℕ
  pub sections : Option (List (Text × Setting))
  pub admins : Option (List Row)
  pub users : Option (List Row)
  pub certificates : Option Certificates
  pub usage_daily : Option (List Row)
  pub usage_hourly : Option (List Row)

-- `integrity` is the digest, where its algorithm is sha256.
pub record Backup : Type 0 where
  pub payload : Payload
  pub integrity : Option Text

pub record Database : Type 0 where
  pub sections : List (Text × Setting)
  pub admins : List (Text × Row)
  pub users : List (Text × Row)
  pub usage_daily : List (Text × Row)
  pub usage_hourly : List (Text × Row)

-- Node's crypto (`decrypt` is `none` where it throws), the schemas of the settings, the new rows'
-- random UUID, and the tables' constraints on a row beside the rows there are.
pub record Outer : Type 0 where
  pub digest : Payload → Text
  pub encrypt : Text → Text
  pub decrypt : Text → Option Text
  pub is_valid_patch : Text → Setting → Bool
  pub takes_user : List (Text × Row) → Row → Bool
  pub takes_admin : List (Text × Row) → Row → Bool
  pub takes_usage : List (Text × Row) → Row → Bool

-- The decrypted secret of a row, null where there is none or it cannot be decrypted.
unfoldable pub plain_secret : Outer → Row → Value
plain_secret o row = elim (at (codes "secret_enc") row) [
  | text t ↦
      if is_empty t then null else elim (o.decrypt t) [ none ↦ null | some plain ↦ text plain ]
  | null ↦ null
  | bool b ↦ null
  | number n ↦ null
]

unfoldable pub export_user : Outer → Row → Row
unfolding plain_secret
export_user o row = put (codes "secret_plain") (plain_secret o row) row

abbrev pub values {ℓ} : {A : Type ℓ} → List (Text × A) → List A
values = map λ entry. entry.1

abbrev pub admin_columns : List Text
admin_columns =
    codes "id" ∷ codes "username" ∷ codes "password_hash" ∷ codes "role" ∷ codes "created_at" ∷ []

abbrev pub select : List Text → Row → Row
select columns row = map (λ c. (c, at c row)) columns

-- The certificates that are read, where one of the two certificates is there.
abbrev pub kept_certificates : Bool → Certificates → Option Certificates
kept_certificates include c =
    if include
    then elim c.ca_cert [
      | some t ↦ some c
      | none ↦ elim c.server_cert [ some t ↦ some c | none ↦ none ]
    ]
    else none

-- `exportPanelBackup`, with the settings and the files that it reads. The fields that no code reads
-- back (the version of the panel, the time, hints and counts) are not represented.
unfoldable pub export_panel_backup :
    Outer → Bool → Bool → List (Text × Setting) → Certificates → Database → Backup
unfolding export_user
export_panel_backup o include_admins include_certs sections files db =
    let payload : Payload = record {
      format = codes "zvpn-panel-backup";
      format_version = some 3;
      sections = some sections;
      admins = some (if include_admins then map (select admin_columns) (values db.admins) else []);
      users = some (map (export_user o) (values db.users));
      certificates = kept_certificates include_certs files;
      usage_daily = some (values db.usage_daily);
      usage_hourly = some (values db.usage_hourly);
    } in
    record { payload = payload; integrity = some (o.digest payload) }
