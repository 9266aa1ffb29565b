-- ===== src/Backup/Columns.antt =====
-- The columns of a row after the statements of `importPanelBackup`: backend/src/services/backup.js.
use zvpn.Base.{
  some_injective, ◌≡◌, inl, inr, refl, sym, ap, ◌∙◌, subst, Bool, true, false, not, ◌&&◌, Option,
  none, some, [], ◌∷◌, Text, codes, get, ◌===◌, arith, any, Bool-cases, Option-cases, ===_iff,
}
use zvpn.Backup.{Value, null, number, Row, at, or_if_null, or_if_falsy}
use zvpn.Backup.Import.{set_columns}
use zvpn.Backup.Accounts.{account_columns, new_columns, legacy_usage, set_xray, invalid_uuid}
use zvpn.Base.{Distinct, or_else, get-put_all}
use zvpn.Backup.Cases.{Stored}

-- A column that is set has its value, and every other is as it was.
pub get-set_columns :
    (columns : Row)
    → Distinct columns
    → (c : Text) (row : Row) → get c (set_columns columns row) ≡ or_else (get c columns) (get c row)
unfolding set_columns
get-set_columns columns d c row = get-put_all columns d c row

-- No name stands twice, as a test.
abbrev are_apart : Row → Bool
are_apart [] = true
are_apart ((k, v) ∷ columns) = not (any (λ c. c.0 === k) columns) && are_apart columns

pub no_column :
    (k : Text) (columns : Row) → any (λ c. c.0 === k) columns ≡ false → get k columns ≡ none
unfolding get
no_column k [] h = refl
no_column k ((j, v) ∷ columns) h = let rest = no_column k columns in ground arith

apart-Distinct : (columns : Row) → are_apart columns ≡ true → Distinct columns
apart-Distinct [] h = tt
apart-Distinct ((k, v) ∷ columns) h =
    (no_column k columns (ground arith), apart-Distinct columns (ground arith))

pub account_columns-Distinct : (u : Row) (secret : Value) → Distinct (account_columns u secret)
unfolding account_columns get ◌===◌
account_columns-Distinct u secret = apart-Distinct (account_columns u secret) refl

-- The columns for Xray, where there is one.
abbrev pub xray_columns : Row → Row → Value → Row
xray_columns u row legacy =
    (
      codes "xray_uuid",
      or_if_null (or_if_falsy (at (codes "xray_uuid") u) null) (at (codes "xray_uuid") row),
    )
    ∷ (codes "xray_usage_bytes", or_if_falsy (at (codes "xray_usage_bytes") u) (number 0))
    ∷ (codes "netlify_usage_bytes", or_if_falsy (at (codes "netlify_usage_bytes") u) (number 0))
    ∷ (codes "xray_legacy_usage_bytes", legacy)
    ∷ (codes "ike_relay_usage_bytes", or_if_falsy (at (codes "ike_relay_usage_bytes") u) (number 0))
    ∷ (codes "xray_iran_usage_bytes", or_if_falsy (at (codes "xray_iran_usage_bytes") u) (number 0))
    ∷ []

xray_columns-Distinct : (u row : Row) (legacy : Value) → Distinct (xray_columns u row legacy)
unfolding get ◌===◌
xray_columns-Distinct u row legacy = apart-Distinct (xray_columns u row legacy) refl

pub set_xray_lem :
    (u row stored : Row)
    → set_xray u row ≡ some stored
    → (legacy : Value) × (legacy_usage u ≡ some legacy)
      × (invalid_uuid (at (codes "xray_uuid") u) ≡ false)
      × ((c : Text) → get c stored ≡ or_else (get c (xray_columns u row legacy)) (get c row))
unfolding set_xray
set_xray_lem u row stored h = elim (Bool-cases (invalid_uuid (at (codes "xray_uuid") u))) [
  | inl e ↦ absurd (let k = (rw (set_xray, e) at h) in cc)
  | inr e ↦ elim (Option-cases (legacy_usage u)) [
    | inl k ↦ absurd (let l = (rw (set_xray, e, k) at h) in cc)
    | inr (legacy, k) ↦
        let l = some_injective (rw (set_xray, e, k) at h) in
        (
          legacy,
          k,
          e,
          λ c.
              ap (get c) (sym l)
              ∙ get-set_columns (xray_columns u row legacy) (xray_columns-Distinct u row legacy) c
                  row,
        )
  ]
]

not_key :
    (c k : Text) (v : Value) (columns : Row)
    → get k columns ≡ none
    → get c columns ≡ some v
    → (k === c) ≡ false
not_key c k v columns gone e = elim (Bool-cases (k === c)) [
  | inr l ↦ l
  | inl l ↦ absurd (
      let m = subst (λ x. get x columns ≡ none) ((===_iff k c).0 l) gone in let n = sym m ∙ e in cc)
]

no_key :
    (u : Row) (secret : Value)
    → (get (codes "id") (account_columns u secret) ≡ none)
      × (get (codes "username") (account_columns u secret) ≡ none)
      × (get (codes "created_at") (account_columns u secret) ≡ none)
unfolding account_columns get ◌===◌
no_key u secret = (refl, refl, refl)

new_column :
    (u : Row) (secret : Value) (c : Text) (v : Value)
    → get c (account_columns u secret) ≡ some v
    → get c (new_columns u secret) ≡ some v
unfolding new_columns get
new_column u secret c v e =
    let columns = account_columns u secret in
    rw
      (
        not_key c (codes "id") v columns (no_key u secret).0 e,
        not_key c (codes "username") v columns (no_key u secret).1 e,
        not_key c (codes "created_at") v columns (no_key u secret).2 e,
      )
      e

row_column :
    (u : Row) (secret : Value) (old : Option Row) (row : Row)
    → Stored u secret old row
    → (c : Text) (v : Value) → get c (account_columns u secret) ≡ some v
    → get c row ≡ some v
row_column u secret old row (inl (_, made)) c v e = ap (get c) made ∙ new_column u secret c v e
row_column u secret old row (inr (was, _, made)) c v e =
    ap (get c) made
    ∙ get-set_columns (account_columns u secret) (account_columns-Distinct u secret) c was
    ∙ rw e refl

-- An account's row, stored: every column that both statements write has the backup's value.
pub Stored-column :
    (u : Row) (secret : Value) (old : Option Row) (row stored : Row)
    → Stored u secret old row
    → set_xray u row ≡ some stored
    → (c : Text) (v : Value) → get c (account_columns u secret) ≡ some v
    → ((r : Row) (l : Value) → get c (xray_columns u r l) ≡ none)
    → get c stored ≡ some v
Stored-column u secret old row stored s x c v e apart =
    let (legacy, _, _, all) = set_xray_lem u row stored x in
    all c ∙ rw (apart row legacy) (row_column u secret old row s c v e)
