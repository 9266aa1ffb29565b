-- ===== src/Backup/Synced.antt =====
-- The rows of the accounts after the synchronisations at the end of `importPanelBackup`
-- (backend/src/services/backup.js), which run the statement of `enqueueSync`
-- (backend/src/services/syncQueue.js).
use zvpn.Base.{
  ◌≡◌, inl, inr, arith, refl, ap, ◌∙◌, Bool, true, false, not, ◌&&◌, ◌||◌, none, some, List, [],
  ◌∷◌, Text, codes, get, put, ◌===◌, if◌then◌else◌, Bool-cases, get-put, get-put_self,
}
use zvpn.Backup.{Value, null, text, Row, at}
use zvpn.Backup.Accounts.{awaits_sync, sync_row, sync_users}

-- The value of the column `provisioning_status` after the statement, where it is run.
abbrev pub status_after : Bool → Value → Value
status_after synced v = if synced && awaits_sync v then text (codes "active") else v

-- The row after both synchronisations.
abbrev pub synced_row : Bool → Bool → Row → Row
synced_row queued waited row = sync_row waited (sync_row queued row)

get-sync_users :
    (b : Bool) (name : Text) (users : List (Text × Row)) (row : Row)
    → get name users ≡ some row
    → get name (sync_users b users) ≡ some (sync_row b row)
unfolding get
get-sync_users b name [] row h = absurd (let k = h in cc)
get-sync_users b name ((key, r) ∷ users) row h = elim (Bool-cases (key === name)) [
  | inl e ↦ rw e (let k = (rw e at h) in ap some (ap (sync_row b) (let m = k in cc)))
  | inr e ↦ rw e (get-sync_users b name users row (rw e at h))
]

pub get-synced_users :
    (queued waited : Bool) (name : Text) (users : List (Text × Row)) (row : Row)
    → get name users ≡ some row
    → get name (sync_users waited (sync_users queued users)) ≡ some (synced_row queued waited row)
get-synced_users queued waited name users row h =
    get-sync_users waited name (sync_users queued users) (sync_row queued row)
      (get-sync_users queued name users row h)

-- The columns that the statement does not write.
abbrev pub is_steady : Text → Bool
is_steady c = not (codes "provisioning_status" === c) && not (codes "provisioning_error" === c)

at_same : (c : Text) (r s : Row) → get c r ≡ get c s → at c r ≡ at c s
unfolding at
at_same c r s h = ap (λ x. elim x [ none ↦ null | some v ↦ v ]) h

at-sync_row :
    (b : Bool) (c : Text) (row : Row) → is_steady c ≡ true → at c (sync_row b row) ≡ at c row
unfolding sync_row
at-sync_row b c row h =
    elim (Bool-cases (b && awaits_sync (at (codes "provisioning_status") row))) [
      | inr e ↦ rw (sync_row, e) refl
      | inl e ↦
          let error : (codes "provisioning_error" === c) ≡ false = ground arith in
          let status : (codes "provisioning_status" === c) ≡ false = ground arith in
          rw (sync_row, e)
            (at_same c _ row (
              get-put (codes "provisioning_status") c (text (codes "active"))
                (put (codes "provisioning_error") null row)
              ∙ rw status (get-put (codes "provisioning_error") c null row ∙ rw error refl)))
    ]

pub at-synced_row :
    (queued waited : Bool) (c : Text) (row : Row)
    → is_steady c ≡ true
    → at c (synced_row queued waited row) ≡ at c row
at-synced_row queued waited c row h =
    at-sync_row waited c (sync_row queued row) h ∙ at-sync_row queued c row h

at_put : (c : Text) (v : Value) (row : Row) → at c (put c v row) ≡ v
unfolding at
at_put c v row = ap (λ x. elim x [ none ↦ null | some v ↦ v ]) (get-put_self c v row)

status-sync_row :
    (b : Bool) (row : Row)
    → at (codes "provisioning_status") (sync_row b row)
      ≡ status_after b (at (codes "provisioning_status") row)
unfolding sync_row
status-sync_row b row =
    elim (Bool-cases (b && awaits_sync (at (codes "provisioning_status") row))) [
      | inr e ↦ rw (sync_row, e) refl
      | inl e ↦
          rw (sync_row, e)
            (at_put (codes "provisioning_status") (text (codes "active"))
              (put (codes "provisioning_error") null row))
    ]

active_stays : (b : Bool) → status_after b (text (codes "active")) ≡ text (codes "active")
unfolding ◌===◌
active_stays true = refl
active_stays false = refl

status_twice :
    (queued waited : Bool) (v : Value)
    → status_after waited (status_after queued v) ≡ status_after (queued || waited) v
status_twice false waited v = refl
status_twice true true v = elim (Bool-cases (awaits_sync v)) [
  | inl e ↦ rw e (active_stays true)
  | inr e ↦ rw (e, e) refl
]
status_twice true false v = refl

pub status-synced_row :
    (queued waited : Bool) (row : Row)
    → at (codes "provisioning_status") (synced_row queued waited row)
      ≡ status_after (queued || waited) (at (codes "provisioning_status") row)
status-synced_row queued waited row =
    status-sync_row waited (sync_row queued row)
    ∙ ap (status_after waited) (status-sync_row queued row)
    ∙ status_twice queued waited (at (codes "provisioning_status") row)
