-- ===== src/Reconcile/Select.antt =====
-- What `select_excess_sessions` picks: how many sessions, which ones, and from where.
use Prim.Native.Nat.{Ordering}
use mathlib.Core.List.Perm
use zvpn.Base.{
  false, Bool, any, ◌||◌, ◌∙◌, ap, ℕ, zero, suc, ◌-◌, ◌≤◌, ◌≡◌, ◌≢◌, refl, Option, List, [], ◌∷◌,
  ◌++◌, Perm, arith, leb, length, take, drop, All, All-map, min, take-append-drop, length-take,
  length-drop, ◌⊎◌, inl, inr, Bool-cases, leb→le, Text,
}
use native.Mathlib.Nat.{le_trans}
use zvpn.Reconcile.Sessions.{
  Session, Policy, disconnect_oldest, reject_newest, age_of, insert, sort, newer, older,
  newest_first, oldest_first, limit_of, select_excess_sessions,
}

Ordering-cases : (o : Ordering) → (o ≡ Ordering.lt) ⊎ (o ≡ Ordering.eq) ⊎ (o ≡ Ordering.gt)
Ordering-cases Ordering.lt = inl refl
Ordering-cases Ordering.eq = inr (inl refl)
Ordering-cases Ordering.gt = inr (inr refl)

module _ {ℓ} {A : Type ℓ} (cmp : A → A → Ordering) where
  -- Where the new element goes: before the head, or behind it.
  insert_cases :
      (x y : A) (ys : List A)
      → (insert cmp x (y ∷ ys) ≡ x ∷ y ∷ ys) × (cmp x y ≢ Ordering.gt)
        ⊎ (insert cmp x (y ∷ ys) ≡ y ∷ insert cmp x ys) × (cmp x y ≡ Ordering.gt)
  unfolding insert
  insert_cases x y ys = elim (Ordering-cases (cmp x y)) [
    | inl e ↦ inl (ground arith, ground arith)
    | inr (inl e) ↦ inl (ground arith, ground arith)
    | inr (inr e) ↦ inr (ground arith, e)
  ]

  insert-perm : (x : A) (xs : List A) → Perm (insert cmp x xs) (x ∷ xs)
  unfolding insert
  insert-perm x [] = Perm.rfl
  insert-perm x (y ∷ ys) = elim (insert_cases x y ys) [
    | inl (e, _) ↦ rw e Perm.rfl
    | inr (e, _) ↦ rw e (Perm.trans (Perm.cons y (insert-perm x ys)) (Perm.swap x y ys))
  ]

  pub sort-perm : (xs : List A) → Perm (sort cmp xs) xs
  unfolding sort
  sort-perm [] = Perm.rfl
  sort-perm (x ∷ xs) = Perm.trans (insert-perm x (sort cmp xs)) (Perm.cons x (sort-perm xs))

  length-insert : (x : A) (xs : List A) → length (insert cmp x xs) ≡ suc (length xs)
  unfolding insert
  length-insert x [] = refl
  length-insert x (y ∷ ys) = ground (arith, length-insert x ys)

  pub length-sort : (xs : List A) → length (sort cmp xs) ≡ length xs
  unfolding sort
  length-sort [] = refl
  length-sort (x ∷ xs) = omega (arith, length-insert x (sort cmp xs), length-sort xs)

  any-insert : (q : A → Bool) (x : A) (xs : List A) → any q (insert cmp x xs) ≡ (q x || any q xs)
  unfolding insert
  any-insert q x [] = refl
  any-insert q x (y ∷ ys) = ground (arith, any-insert q x ys)

  pub any-sort : (q : A → Bool) (xs : List A) → any q (sort cmp xs) ≡ any q xs
  unfolding sort
  any-sort q [] = refl
  any-sort q (x ∷ xs) = any-insert q x (sort cmp xs) ∙ ap (λ b. q x || b) (any-sort q xs)

any-take {ℓ} :
    {A : Type ℓ} (q : A → Bool) (n : ℕ) (xs : List A) → any q xs ≡ false → any q (take n xs) ≡ false
any-take q zero xs h = refl
any-take q (suc n) [] h = refl
any-take q (suc n) (x ∷ xs) h = ground (arith, any-take q n xs)

-- Every element stands in the relation to all that follow it.
abbrev pub IsOrdered {ℓ} : {A : Type ℓ} → (A → A → Type 0) → List A → Type 0
IsOrdered R [] = Unit
IsOrdered R (x ∷ xs) = All (R x) xs × IsOrdered R xs

-- A comparator that never contradicts a relation.
abbrev pub Respects {ℓ} : {A : Type ℓ} → (A → A → Type 0) → (A → A → Ordering) → Type ℓ
Respects {A} R cmp = (x y : A) → (cmp x y ≢ Ordering.gt → R x y) × (cmp x y ≡ Ordering.gt → R y x)

module _ {ℓ} {A : Type ℓ} (R : A → A → Type 0) (trans : (x y z : A) → R x y → R y z → R x z)
    (cmp : A → A → Ordering) (f : Respects R cmp) where
  insert_above : (z x : A) (xs : List A) → R z x → All (R z) xs → All (R z) (insert cmp x xs)
  unfolding insert
  insert_above z x [] h a = (h, tt)
  insert_above z x (y ∷ ys) h a = elim (insert_cases cmp x y ys) [
    | inl (e, _) ↦ rw e (h, a)
    | inr (e, _) ↦ rw e (a.0, insert_above z x ys h a.1)
  ]

  insert-IsOrdered : (x : A) (xs : List A) → IsOrdered R xs → IsOrdered R (insert cmp x xs)
  unfolding insert
  insert-IsOrdered x [] a = (tt, tt)
  insert-IsOrdered x (y ∷ ys) a = elim (insert_cases cmp x y ys) [
    | inl (e, c) ↦
        let first = (f x y).0 c in rw e ((first, All-map (λ z h. trans x y z first h) ys a.0), a)
    | inr (e, c) ↦ rw e (insert_above y x ys ((f x y).1 c) a.0, insert-IsOrdered x ys a.1)
  ]

  pub sort-IsOrdered : (xs : List A) → IsOrdered R (sort cmp xs)
  unfolding sort
  sort-IsOrdered [] = tt
  sort-IsOrdered (x ∷ xs) = insert-IsOrdered x (sort cmp xs) (sort-IsOrdered xs)

module _ {ℓ} {A : Type ℓ} where
  All-drop : (P : A → Type 0) (n : ℕ) (xs : List A) → All P xs → All P (drop n xs)
  All-drop P zero xs a = a
  All-drop P (suc n) [] a = a
  All-drop P (suc n) (x ∷ xs) a = All-drop P n xs a.1

  -- In an ordered list each element of a prefix stands in the relation to all of the rest.
  take_before_drop :
      (R : A → A → Type 0) (n : ℕ) (xs : List A)
      → IsOrdered R xs
      → All (λ x. All (R x) (drop n xs)) (take n xs)
  take_before_drop R zero xs a = tt
  take_before_drop R (suc n) [] a = tt
  take_before_drop R (suc n) (x ∷ xs) a = (All-drop (R x) n xs a.0, take_before_drop R n xs a.1)

-- `s` is to go before `k` under the policy.
abbrev pub Outranks : Policy → Session → Session → Type 0
Outranks disconnect_oldest s k = age_of k ≤ age_of s
Outranks reject_newest s k = age_of s ≤ age_of k

Outranks-trans : (p : Policy) (x y z : Session) → Outranks p x y → Outranks p y z → Outranks p x z
Outranks-trans disconnect_oldest x y z h k = le_trans k h
Outranks-trans reject_newest x y z h k = le_trans h k

module _ (locale_compare : Text → Text → Ordering) where
  newer-Respects : Respects (Outranks reject_newest) (newer locale_compare)
  unfolding newer
  newer-Respects x y = ground arith

  older-Respects : Respects (Outranks disconnect_oldest) (older locale_compare)
  unfolding older
  older-Respects x y = ground arith

  -- The list that the policy takes its prefix of.
  abbrev ranked : Policy → List Session → List Session
  ranked disconnect_oldest = oldest_first locale_compare
  ranked reject_newest = newest_first locale_compare

  ranked-perm : (p : Policy) (sessions : List Session) → Perm (ranked p sessions) sessions
  unfolding oldest_first newest_first
  ranked-perm disconnect_oldest sessions = sort-perm (older locale_compare) sessions
  ranked-perm reject_newest sessions = sort-perm (newer locale_compare) sessions

  length-ranked :
      (p : Policy) (sessions : List Session) → length (ranked p sessions) ≡ length sessions
  unfolding oldest_first newest_first
  length-ranked disconnect_oldest sessions = length-sort (older locale_compare) sessions
  length-ranked reject_newest sessions = length-sort (newer locale_compare) sessions

  ranked-IsOrdered :
      (p : Policy) (sessions : List Session) → IsOrdered (Outranks p) (ranked p sessions)
  unfolding oldest_first newest_first
  ranked-IsOrdered disconnect_oldest sessions =
      sort-IsOrdered (Outranks disconnect_oldest) (Outranks-trans disconnect_oldest)
        (older locale_compare) older-Respects sessions
  ranked-IsOrdered reject_newest sessions =
      sort-IsOrdered (Outranks reject_newest) (Outranks-trans reject_newest) (newer locale_compare)
        newer-Respects sessions

  -- Both branches in one: a prefix of the ranked list, empty within the limit.
  select-take :
      (sessions : List Session) (max_devices : Option ℕ) (p : Policy)
      → select_excess_sessions locale_compare sessions max_devices p
        ≡ take (length sessions - limit_of max_devices) (ranked p sessions)
  unfolding select_excess_sessions
  select-take sessions max_devices p = elim (Bool-cases (leb (length sessions) limit)) [
    | inl within ↦ rw (within, no_excess (leb→le _ _ within))
    | inr over ↦ rw over (by_policy p)
  ]
    where
      limit : ℕ
      limit = limit_of max_devices

      no_excess : length sessions ≤ limit → length sessions - limit ≡ 0
      no_excess h = omega arith

      by_policy :
          (q : Policy)
          → (elim q [
            | reject_newest ↦ take (length sessions - limit) (newest_first locale_compare sessions)
            | disconnect_oldest ↦
                take (length sessions - limit) (oldest_first locale_compare sessions)
          ])
            ≡ take (length sessions - limit) (ranked q sessions)
      by_policy disconnect_oldest = refl
      by_policy reject_newest = refl

  -- The number of sessions picked is what exceeds the limit.
  pub length-select :
      (sessions : List Session) (max_devices : Option ℕ) (p : Policy)
      → length (select_excess_sessions locale_compare sessions max_devices p)
        ≡ length sessions - limit_of max_devices
  length-select sessions max_devices p = rw select-take (
      omega (
        arith,
        length-take (length sessions - limit_of max_devices) (ranked p sessions),
        length-ranked p sessions,
      ))

  -- The picked sessions and some kept ones together are the sessions given, as many are kept as
  -- the limit allows, and every picked one is at least as old as every kept one under
  -- `disconnect_oldest`, at least as new under `reject_newest`.
  pub select_excess_sessions_lem :
      (sessions : List Session) (max_devices : Option ℕ) (p : Policy)
      → let picked = select_excess_sessions locale_compare sessions max_devices p in
        (kept : List Session) × Perm (picked ++ kept) sessions
        × (length kept ≡ min (length sessions) (limit_of max_devices))
        × All (λ s. All (Outranks p s) kept) picked
  select_excess_sessions_lem sessions max_devices p =
      let excess = length sessions - limit_of max_devices in
      let list = ranked p sessions in
      (
        drop excess list,
        rw (select-take, take-append-drop) (ranked-perm p sessions),
        omega (arith, length-drop excess list, length-ranked p sessions),
        rw select-take (take_before_drop (Outranks p) excess list (ranked-IsOrdered p sessions)),
      )

  any-ranked :
      (q : Session → Bool) (p : Policy) (sessions : List Session)
      → any q (ranked p sessions) ≡ any q sessions
  unfolding oldest_first newest_first
  any-ranked q disconnect_oldest sessions = any-sort (older locale_compare) q sessions
  any-ranked q reject_newest sessions = any-sort (newer locale_compare) q sessions

  -- What no session has, no picked session has.
  pub any-select :
      (q : Session → Bool) (sessions : List Session) (max_devices : Option ℕ) (p : Policy)
      → any q sessions ≡ false
      → any q (select_excess_sessions locale_compare sessions max_devices p) ≡ false
  any-select q sessions max_devices p h = rw select-take (
      any-take q (length sessions - limit_of max_devices) (ranked p sessions)
        (any-ranked q p sessions ∙ h))
