-- ===== src/Backup/Cases.antt =====
-- One account of a backup, case by case: `importPanelBackup` of backend/src/services/backup.js.
use zvpn.Base.{
  some_injective, ℕ, ◌+◌, ◌≡◌, ◌⊎◌, inl, inr, refl, sym, ap, ◌∙◌, true, false, not, ◌||◌, Option,
  none, some, Text, codes, get, put, ◌===◌, is_empty, arith, Bool-cases, Option-cases, get-put,
  ===_iff,
}
use zvpn.Backup.{Value, Row, at, is_truthy, show_value, Outer}
use zvpn.Backup.Import.{set_columns}
use zvpn.Backup.Accounts.{
  account_columns, new_columns, set_xray, secret_of, Mode, users_only, is_users_only, Progress,
  store_user, import_user,
}

abbrev pub name_of : Row → Text
name_of u = show_value (at (codes "username") u)

-- What one account of the backup comes to: it is skipped, or its row is stored under its name.
abbrev pub Skips : Outer → Mode → Row → Progress → Progress → Type 0
Skips o mode u p p' =
    (p' ≡ record p { skipped = 1 + p.skipped })
    × ((is_empty (name_of u) ≡ true)
        ⊎ (((s : Value) × (secret_of o u ≡ some s) × (is_truthy s ≡ false))
            ⊎ (is_users_only mode ≡ true)))

-- The row that is stored had the account's columns set: a new row, or the one that was there.
abbrev pub Stored : Row → Value → Option Row → Row → Type 0
Stored u secret old row =
    (old ≡ none) × (row ≡ new_columns u secret)
    ⊎ ((was : Row) × (old ≡ some was) × (row ≡ set_columns (account_columns u secret) was))

abbrev pub Stores : Outer → Mode → Row → Progress → Progress → Type 0
Stores o mode u p p' =
    (secret : Value) × (row : Row) × (stored : Row) × (added : ℕ) × (secret_of o u ≡ some secret)
    × (is_truthy secret ≡ true)
    × Stored u secret (get (name_of u) p.users) row
    × ((get (name_of u) p.users ≡ none) ⊎ (is_users_only mode ≡ false))
    × (set_xray u row ≡ some stored)
    × (p' ≡ record p { users = put (name_of u) stored p.users; imported = added + p.imported })

store_cases :
    (o : Outer) (name : Text) (u row : Row) (added : ℕ) (p p' : Progress)
    → store_user o name u row added p ≡ some p'
    → (stored : Row) × (set_xray u row ≡ some stored)
      × (p' ≡ record p { users = put name stored p.users; imported = added + p.imported })
unfolding store_user
store_cases o name u row added p p' h = elim (Option-cases (set_xray u row)) [
  | inl e ↦ absurd (let k = (rw (store_user, e) at h) in cc)
  | inr (stored, e) ↦ elim (Bool-cases (o.takes_user p.users stored)) [
    | inr k ↦ absurd (let l = (rw (store_user, e, k) at h) in cc)
    | inl k ↦ let l = (rw (store_user, e, k) at h) in (stored, e, some_injective (sym l))
  ]
]

pub user_cases :
    (o : Outer) (mode : Mode) (u : Row) (p p' : Progress)
    → import_user o mode u p ≡ some p'
    → Skips o mode u p p' ⊎ Stores o mode u p p'
unfolding import_user
user_cases o mode u p p' h = elim (Option-cases (secret_of o u)) [
  | inl e ↦ absurd (let k = (rw (import_user, e) at h) in cc)
  | inr (secret, e) ↦ elim (Bool-cases (is_empty (name_of u) || not (is_truthy secret))) [
    | inl k ↦ inl (
      some_injective (sym (rw (import_user, e, k) at h)),
      elim (Bool-cases (is_empty (name_of u))) [
        | inl l ↦ inl l
        | inr l ↦ inr (inl (secret, e, ground arith))
      ],
    )
    | inr k ↦ elim (Option-cases (get (name_of u) p.users)) [
      | inl l ↦
          let (stored, x, made) =
            store_cases o (name_of u) u (new_columns u secret) 1 p p'
              (rw (import_user, e, k, l) at h) in
          inr (
            secret,
            new_columns u secret,
            stored,
            1,
            e,
            ground arith,
            inl (l, refl),
            inl l,
            x,
            made,
          )
      | inr (was, l) ↦ elim (Bool-cases (is_users_only mode)) [
        | inl m ↦ inl (some_injective (sym (rw (import_user, e, k, l, m) at h)), inr (inr m))
        | inr m ↦
            let (stored, x, made) =
              store_cases o (name_of u) u (set_columns (account_columns u secret) was) 0 p p'
                (rw (import_user, e, k, l, m) at h) in
            inr (
              secret,
              set_columns (account_columns u secret) was,
              stored,
              0,
              e,
              ground arith,
              inr (was, l, refl),
              inr m,
              x,
              made,
            )
      ]
    ]
  ]
]

-- An account of the backup leaves every other account as it was.
pub import_user-other :
    (o : Outer) (mode : Mode) (u : Row) (p p' : Progress) (name : Text)
    → import_user o mode u p ≡ some p'
    → (name_of u === name) ≡ false
    → get name p'.users ≡ get name p.users
import_user-other o mode u p p' name h other = elim (user_cases o mode u p p' h) [
  | inl (e, _) ↦ ap (λ x. get name x.users) e
  | inr (_, _, stored, _, _, _, _, _, _, e) ↦
      ap (λ x. get name x.users) e ∙ get-put (name_of u) name stored p.users ∙ rw other refl
]

-- With `users-only`, an account that is there stays as it is.
pub import_user-existing :
    (o : Outer) (u : Row) (p p' : Progress) (name : Text) (row : Row)
    → import_user o users_only u p ≡ some p'
    → get name p.users ≡ some row
    → get name p'.users ≡ some row
import_user-existing o u p p' name row h there = elim (Bool-cases (name_of u === name)) [
  | inr e ↦ import_user-other o users_only u p p' name h e ∙ there
  | inl e ↦ elim (user_cases o users_only u p p' h) [
    | inl (k, _) ↦ ap (λ x. get name x.users) k ∙ there
    | inr (_, _, _, _, _, _, _, inl k, _, _) ↦ absurd (
        let l = ap (λ n. get n p.users) ((===_iff (name_of u) name).0 e) in
        let m = sym k ∙ l ∙ there in cc)
    | inr (_, _, _, _, _, _, _, inr k, _, _) ↦ absurd (ground arith)
  ]
]
