-- ===== src/Backup/Exported.antt =====
-- The backup that `exportPanelBackup` makes, imported: backend/src/services/backup.js.
use zvpn.Base.{◌≡◌, false, some, Text, is_empty}
use zvpn.Backup.{Outer}

-- What was encrypted is no empty text, and is decrypted to what it was.
abbrev pub Decrypts : Outer → Type 0
Decrypts o = (t : Text) → (is_empty (o.encrypt t) ≡ false) × (o.decrypt (o.encrypt t) ≡ some t)
