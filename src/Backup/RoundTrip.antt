-- ===== src/Backup/RoundTrip.antt =====
-- Importing a backup, and the one that `exportPanelBackup` makes: backend/src/services/backup.js.
use zvpn.Base.{
  some_injective, ℕ, ◌≡◌, inl, inr, sym, ap, ◌∙◌, subst, Bool, true, false, none, some, List, [],
  ◌∷◌, ◌++◌, Text, codes, get, is_empty, arith, All, Bool-cases, Option-cases, get-put_self,
}
use zvpn.Backup.{Value, null, text, Row, at, is_truthy, Payload, Backup, Database, Outer}
use zvpn.Backup.Import.{check_backup, are_valid_users}
use zvpn.Backup.Accounts.{
  account_columns, secret_of, Mode, is_users_only, Progress, import_usage, usage_rows,
  sections_after, admins_after, import_user, import_users, import_tables, imported,
  import_panel_backup, Result, sync_users,
}
use zvpn.Backup.Synced.{synced_row, get-synced_users}
use zvpn.Backup.Cases.{name_of, user_cases}
use zvpn.Backup.Columns.{Stored-column, xray_columns}
use zvpn.Backup.Restored.{import_users-one, valid_split}

-- An import that succeeds passed the checks and imported the accounts.
imported_lem :
    (o : Outer) (mode : Mode) (queued waited : Bool) (b : Backup) (db db' : Database)
    (result : Result) (files : List (Text × Text))
    → import_panel_backup o mode queued waited b db ≡ imported result files db'
    → (check_backup o b ≡ none)
      × ((tables : Database) × (import_tables o mode b.payload (usage_rows b.payload.users) db
            ≡ some (result, tables))
          × (db' ≡ record tables { users = sync_users waited (sync_users queued tables.users) }))
unfolding import_panel_backup
imported_lem o mode queued waited b db db' result files h = elim (Option-cases (check_backup o b)) [
  | inr (e, k) ↦ absurd (let l = (rw (import_panel_backup, k) at h) in cc)
  | inl k ↦ elim (Option-cases (import_tables o mode b.payload (usage_rows b.payload.users) db)) [
    | inl l ↦ absurd (let m = (rw (import_panel_backup, k, l) at h) in cc)
    | inr ((result₁, db₁), l) ↦
        let m = (rw (import_panel_backup, k, l) at h) in
        let same : result₁ ≡ result = cc in
        let same' : record db₁ { users = sync_users waited (sync_users queued db₁.users) } ≡ db' =
          cc in
        (k, (db₁, l ∙ ap (λ x. some (x, db₁)) same, sym same'))
  ]
]

tables_lem :
    (o : Outer) (mode : Mode) (b : Payload) (users : List Row) (db db' : Database) (result : Result)
    → import_tables o mode b users db ≡ some (result, db')
    → (p : Progress) × (import_users o mode users
          (record { users = db.users; imported = 0; skipped = 0 })
        ≡ some p)
      × (db'.users ≡ p.users)
      × (db'.sections ≡ (sections_after mode b db).0)
      × ((count : ℕ) × (admins_after o mode b db ≡ some (db'.admins, count)))
unfolding import_tables
tables_lem o mode b users db db' result h = elim (Option-cases (admins_after o mode b db)) [
  | inl e ↦ absurd (let l = (rw (import_tables, e) at h) in cc)
  | inr ((admins, count), e) ↦
      elim (Option-cases
        (import_users o mode users (record { users = db.users; imported = 0; skipped = 0 }))) [
          | inl k ↦ absurd (let l = (rw (import_tables, e, k) at h) in cc)
          | inr (p, k) ↦
              elim (Option-cases
                (import_usage o (codes "usage_date") (usage_rows b.usage_daily) db.usage_daily)) [
                  | inl l ↦ absurd (let m = (rw (import_tables, e, k, l) at h) in cc)
                  | inr (daily, l) ↦
                      elim (Option-cases (
                        import_usage o (codes "hour_ts") (usage_rows b.usage_hourly)
                          db.usage_hourly)) [
                            | inl m ↦ absurd (let n = (rw (import_tables, e, k, l, m) at h) in cc)
                            | inr (hourly, m) ↦
                                let n =
                                  ap (λ x. x.1)
                                    (some_injective (rw (import_tables, e, k, l, m) at h)) in
                                (
                                  p,
                                  k,
                                  sym (ap (λ x. x.users) n),
                                  sym (ap (λ x. x.sections) n),
                                  (count, e ∙ ap (λ x. some (x, count)) (ap (λ x. x.admins) n)),
                                )
                          ]
                ]
        ]
]

at_of : (c : Text) (v : Value) (row : Row) → get c row ≡ some v → at c row ≡ v
unfolding at
at_of c v row e = ap (λ x. elim x [ none ↦ null | some v ↦ v ]) e

user_restored :
    (o : Outer) (mode : Mode) (u : Row) (p p' : Progress)
    → import_user o mode u p ≡ some p'
    → is_users_only mode ≡ false
    → is_empty (name_of u) ≡ false
    → (secret : Value) → secret_of o u ≡ some secret
    → is_truthy secret ≡ true
    → (stored : Row) × (get (name_of u) p'.users ≡ some stored)
      × ((c : Text) (v : Value)
          → get c (account_columns u secret) ≡ some v
          → ((r : Row) (l : Value) → get c (xray_columns u r l) ≡ none)
          → get c stored ≡ some v)
user_restored o mode u p p' h m filled secret s truthy = elim (user_cases o mode u p p' h) [
  | inl (_, inl e) ↦ absurd (let k = sym e ∙ filled in cc)
  | inl (_, inr (inl (secret', e, k))) ↦ absurd (
      let same : secret' ≡ secret = some_injective (sym e ∙ s) in
      let l = ap is_truthy same in let n = sym k ∙ l ∙ truthy in cc)
  | inl (_, inr (inr e)) ↦ absurd (let k = sym e ∙ m in cc)
  | inr (secret', row, stored, added, e, _, made, _, x, done) ↦
      let same : secret' ≡ secret = some_injective (sym e ∙ s) in
      (
        stored,
        ap (λ q. get (name_of u) q.users) done ∙ get-put_self (name_of u) stored p.users,
        λ c v k apart.
            Stored-column u secret' (get (name_of u) p.users) row stored made x c v
              (subst (λ y. get c (account_columns u y) ≡ some v) (sym same) k) apart,
      )
]

check_lem :
    (o : Outer) (b : Backup) (users : List Row)
    → check_backup o b ≡ none
    → b.payload.users ≡ some users
    → are_valid_users [] users ≡ true
unfolding check_backup
check_lem o b users h e = elim (Bool-cases (are_valid_users [] users)) [
  | inl l ↦ l
  | inr l ↦ absurd (let k = (rw (check_backup, e, l) at h) in ground arith)
]

-- A user of the backup is restored by an import that succeeds, where the backup's user names are
-- texts, the user has a secret, and the mode is not `users-only`: the row under its name is one that
-- has, in every column that the statements for accounts write, the value that they take from the
-- backup, after the synchronisations at the end.
pub import_panel_backup-restores :
    (o : Outer) (mode : Mode) (queued waited : Bool) (b : Backup) (db db' : Database)
    (result : Result) (files : List (Text × Text))
    → import_panel_backup o mode queued waited b db ≡ imported result files db'
    → is_users_only mode ≡ false
    → (before after : List Row) (u : Row) → b.payload.users ≡ some (before ++ u ∷ after)
    → All (λ v. at (codes "username") v ≡ text (name_of v)) (before ++ u ∷ after)
    → (secret : Value) → secret_of o u ≡ some secret
    → is_truthy secret ≡ true
    → (stored : Row) × (get (name_of u) db'.users ≡ some (synced_row queued waited stored))
      × ((c : Text) (v : Value)
          → get c (account_columns u secret) ≡ some v
          → ((r : Row) (l : Value) → get c (xray_columns u r l) ≡ none)
          → at c stored ≡ v)
import_panel_backup-restores o mode queued waited b db db' result files h m before after u e t
      secret s truthy =
    let (checked, (made_tables, tables, synced)) =
      imported_lem o mode queued waited b db db' result files h in
    let (p, users, users_eq, _, _) =
      tables_lem o mode b.payload (usage_rows b.payload.users) db made_tables result tables in
    let (apart, apart', filled) = valid_split before after u [] (check_lem o b _ checked e) t in
    let (q, q', was, one, now) = import_users-one o mode u before after _ p apart apart' (
      subst
        (λ x.
          import_users o mode x (record { users = db.users; imported = 0; skipped = 0 }) ≡ some p)
        (ap usage_rows e) users) in
    let (stored, made, columns) = user_restored o mode u q q' one m filled secret s truthy in
    (
      stored,
      ap (λ x. get (name_of u) x.users) synced
          ∙ get-synced_users queued waited (name_of u) made_tables.users stored
              (ap (get (name_of u)) users_eq ∙ now ∙ made),
      λ c v k x. at_of c v stored (columns c v k x),
    )
