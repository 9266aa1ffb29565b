-- ===== src/Tests/Backups.antt =====
-- Backups (backend/src/services/backup.js) at concrete inputs.
use zvpn.Base.{◌≡◌, refl, true, false, none, some, [], ◌∷◌, Text, codes}
use zvpn.Backup.{
  bool, number, text, Row, settings, Certificates, Backup, Database, Outer, export_panel_backup,
  export_user,
}
use zvpn.Backup.Accounts.{
  Mode, Result, Imported, refused, rolled_back, imported, import_panel_backup,
}

-- A cipher that marks what it encrypts, and tables that take every row.
abbrev outer : Outer
outer = record {
  digest = λ p. codes "digest";
  encrypt = λ t. b'$' ∷ t;
  decrypt = λ t. elim t [ [] ↦ none | c ∷ plain ↦ some plain ];
  is_valid_patch = λ section value. true;
  takes_user = λ users row. true;
  takes_admin = λ admins row. true;
  takes_usage = λ usage row. true;
}

abbrev row_with : Text → Row
row_with note =
    (codes "id", text (codes "7"))
    ∷ (codes "username", text (codes "ann"))
    ∷ (codes "secret_enc", text (codes "$pw"))
    ∷ (codes "enabled", bool false)
    ∷ (codes "quota_blocked", bool true)
    ∷ (codes "activation_status", text (codes "activated"))
    ∷ (codes "provisioning_status", text (codes "failed"))
    ∷ (codes "unlimited_traffic", bool false)
    ∷ (codes "max_devices", number 2)
    ∷ (codes "usage_total", number 900)
    ∷ (codes "upload_bytes", number 300)
    ∷ (codes "download_bytes", number 600)
    ∷ (codes "download_token_revoked", bool false)
    ∷ (codes "note", text note)
    ∷ []

abbrev row : Row
row = row_with (codes "old")

-- The database of an export, and one into which it is imported, with a later row of the account.
abbrev database : Text → Database
database note = record {
  sections = [];
  admins = [];
  users = (codes "ann", row_with note) ∷ [];
  usage_daily = [];
  usage_hourly = [];
}

abbrev no_files : Certificates
no_files = record { ca_cert = none; ca_key = none; server_cert = none; server_key = none }

abbrev backup : Backup
backup =
    export_panel_backup outer false false ((codes "xray", settings (codes "{}")) ∷ []) no_files
      (database (codes "old"))

abbrev tables_of : Imported → Database
tables_of (imported result files db) = db
tables_of (refused e) = database []
tables_of (rolled_back files) = database []

abbrev result_of : Imported → Result
result_of (imported result files db) = result
result_of (refused e) = record { users = 0; admins = 0; has_settings = false; skipped = 0 }
result_of (rolled_back files) = record { users = 0; admins = 0; has_settings = false; skipped = 0 }

abbrev run : Mode → Imported
run mode = import_panel_backup outer mode true false backup (database (codes "new"))

abbrev exported : Row
exported = export_user outer row

users_of : backup.payload.users ≡ some (exported ∷ [])
unfolding export_panel_backup
users_of = refl
