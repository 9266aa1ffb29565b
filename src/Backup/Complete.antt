-- ===== src/Backup/Complete.antt =====
-- The columns of an account that an export and its import keep: backend/src/services/backup.js.
use zvpn.Base.{
  ◌≡◌, refl, ap, ◌∙◌, Bool, true, false, not, ◌&&◌, none, some, List, [], ◌∷◌, Text, codes, get,
  ◌===◌, arith, All, any, get-put, every-All, All-zip,
}
use zvpn.Backup.{
  Value, null, bool, number, Row, at, or_if_null, or_if_falsy, is_truthy, Outer, export_user,
  plain_secret,
}
use zvpn.Backup.Accounts.{account_columns}
use zvpn.Backup.Columns.{xray_columns, no_column}

-- The columns of an account that a backup restores as they were, beside its secret and the status of
-- its provisioning.
abbrev pub kept_columns : List Text
kept_columns =
    codes "enabled"
    ∷ codes "quota_blocked"
    ∷ codes "quota_reason"
    ∷ codes "expires_at"
    ∷ codes "duration_days"
    ∷ codes "first_connected_at"
    ∷ codes "activation_status"
    ∷ codes "daily_limit_bytes"
    ∷ codes "total_limit_bytes"
    ∷ codes "unlimited_traffic"
    ∷ codes "max_devices"
    ∷ codes "usage_total"
    ∷ codes "upload_bytes"
    ∷ codes "download_bytes"
    ∷ codes "last_seen_at"
    ∷ codes "last_public_ip"
    ∷ codes "last_virtual_ip"
    ∷ codes "download_token"
    ∷ codes "download_token_expires_at"
    ∷ codes "download_token_revoked"
    ∷ codes "note"
    ∷ []

-- The columns that the schema declares NOT NULL, or texts that are never empty.
abbrev pub not_null_columns : List Text
not_null_columns =
    codes "enabled"
    ∷ codes "quota_blocked"
    ∷ codes "unlimited_traffic"
    ∷ codes "max_devices"
    ∷ codes "usage_total"
    ∷ codes "upload_bytes"
    ∷ codes "download_bytes"
    ∷ codes "download_token_revoked"
    ∷ []

abbrev pub IsFilled : Row → Text → Type 0
IsFilled r c = (v : Value) → or_if_null (at c r) v ≡ at c r

abbrev pub IsComplete : Row → Type 0
IsComplete r =
    All (IsFilled r) not_null_columns
    × (is_truthy (at (codes "activation_status") r) ≡ true)
    × (is_truthy (at (codes "provisioning_status") r) ≡ true)

pub at-export :
    (o : Outer) (r : Row) (c : Text)
    → (codes "secret_plain" === c) ≡ false
    → at c (export_user o r) ≡ at c r
unfolding at export_user
at-export o r c h =
    let e : get c (export_user o r) ≡ get c r =
      get-put (codes "secret_plain") c (plain_secret o r) r ∙ rw h refl in
    ap (λ x. elim x [ none ↦ null | some v ↦ v ]) e

pub truthy_stays : (v w : Value) → is_truthy v ≡ true → some (or_if_falsy v w) ≡ some v
truthy_stays v w h = rw h refl

pub complete_columns :
    (u : Row) (secret : Value)
    → IsComplete u
    → All (λ c. get c (account_columns u secret) ≡ some (at c u)) kept_columns
unfolding account_columns get ◌===◌
complete_columns u secret (c, active, provisioned) = (
  ap some (c.0 (bool true)),
  (
    ap some (c.1.0 (bool false)),
    (
      refl,
      (
        refl,
        (
          refl,
          (
            refl,
            (
              truthy_stays _ _ active,
              (
                refl,
                (
                  refl,
                  (
                    ap some (c.1.1.0 (bool false)),
                    (
                      ap some (c.1.1.1.0 (number 1)),
                      (
                        ap some (c.1.1.1.1.0 (number 0)),
                        (
                          ap some (c.1.1.1.1.1.0 (number 0)),
                          (
                            ap some (c.1.1.1.1.1.1.0 (number 0)),
                            (
                              refl,
                              (
                                refl,
                                (
                                  refl,
                                  (
                                    refl,
                                    (refl, (ap some (c.1.1.1.1.1.1.1.0 (bool false)), (refl, tt))),
                                  ),
                                ),
                              ),
                            ),
                          ),
                        ),
                      ),
                    ),
                  ),
                ),
              ),
            ),
          ),
        ),
      ),
    ),
  ),
)

pub status_column :
    (u : Row) (secret : Value)
    → IsComplete u
    → get (codes "provisioning_status") (account_columns u secret)
      ≡ some (at (codes "provisioning_status") u)
unfolding account_columns get ◌===◌
status_column u secret (c, active, provisioned) = truthy_stays _ _ provisioned

-- Apart from the columns that the export adds and the second statement sets.
abbrev is_apart : Text → Bool
is_apart c =
    not (codes "secret_plain" === c) && not (any (λ e. e.0 === c) (xray_columns [] [] null))

kept_apart : All (λ c. is_apart c ≡ true) kept_columns
unfolding ◌===◌
kept_apart = every-All is_apart kept_columns refl

apart_xray :
    (u r : Row) (l : Value) (c : Text) → is_apart c ≡ true → get c (xray_columns u r l) ≡ none
apart_xray u r l c h = no_column c (xray_columns u r l) (ground arith)

pub export-restores :
    (o : Outer) (r : Row)
    → IsComplete (export_user o r)
    → (secret : Value) (stored : Row)
    → ((c : Text) (v : Value)
        → get c (account_columns (export_user o r) secret) ≡ some v
        → ((s : Row) (l : Value) → get c (xray_columns (export_user o r) s l) ≡ none)
        → at c stored ≡ v)
    → All (λ c. at c stored ≡ at c r) kept_columns
export-restores o r complete secret stored restored =
    All-zip
      (λ c e apart.
        restored c (at c (export_user o r)) e (λ s l. apart_xray (export_user o r) s l c apart)
        ∙ at-export o r c (ground arith))
      kept_columns (complete_columns (export_user o r) secret complete) kept_apart

pub export_status :
    (o : Outer) (r : Row)
    → IsComplete (export_user o r)
    → (secret : Value) (stored : Row)
    → ((c : Text) (v : Value)
        → get c (account_columns (export_user o r) secret) ≡ some v
        → ((s : Row) (l : Value) → get c (xray_columns (export_user o r) s l) ≡ none)
        → at c stored ≡ v)
    → at (codes "provisioning_status") stored ≡ at (codes "provisioning_status") r
unfolding ◌===◌
export_status o r complete secret stored restored =
    restored (codes "provisioning_status") _ (status_column (export_user o r) secret complete)
      (λ s l. apart_xray (export_user o r) s l (codes "provisioning_status") refl)
    ∙ at-export o r (codes "provisioning_status") refl

pub not-false : (b : Bool) → not b ≡ true → b ≡ false
not-false b h = ground arith

IsFilled-export :
    (o : Outer) (r : Row) (c : Text)
    → IsFilled r c
    → not (codes "secret_plain" === c) ≡ true
    → IsFilled (export_user o r) c
IsFilled-export o r c filled apart v = rw (at-export o r c (not-false _ apart)) (filled v)

pub IsComplete-export : (o : Outer) (r : Row) → IsComplete r → IsComplete (export_user o r)
unfolding ◌===◌
IsComplete-export o r (c, active, provisioned) = (
  All-zip {P = IsFilled r} {Q = λ c. not (codes "secret_plain" === c) ≡ true}
      {R = IsFilled (export_user o r)} (IsFilled-export o r) not_null_columns c
      (every-All (λ c. not (codes "secret_plain" === c)) not_null_columns refl),
  ap is_truthy (at-export o r (codes "activation_status") refl) ∙ active,
  ap is_truthy (at-export o r (codes "provisioning_status") refl) ∙ provisioned,
)
