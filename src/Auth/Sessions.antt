-- ===== src/Auth/Sessions.antt =====
-- What the gate of backend/src/auth.js answers after sessions are opened and revoked.
use zvpn.Base.{
  ℕ, ◌≡◌, ◌⊎◌, refl, ap, ◌∙◌, sym, subst, Bool, true, false, ◌&&◌, ◌||◌, Option, none, some, List,
  [], ◌∷◌, Text, ◌===◌, if◌then◌else◌, is_empty, Bool-cases, Option-cases, inl, inr, arith, codes,
}
use zvpn.Auth.{
  Admin, AdminSession, Tables, Libraries, Gate, unauthorized, passes, Identity, first, is_live,
  opens, read_row, open_session, revoke_if, is_unrevoked, require_admin, revoke_admin_session,
  revoke_all_admin_sessions, object, string,
}
use zvpn.Auth.Revoked.{IsWellFormed, unless, first-revoke_if}

abbrev pub gate_of : Option (Identity × Text) → Gate
gate_of none = unauthorized
gate_of (some (identity, id)) = passes identity id

-- The gate reads the tables in one way only: by the hash and the administrator of a token.
pub gate_cases :
    (lib : Libraries) (now : ℕ) (cookie : Option Text)
    → ((t : Tables) → require_admin lib now cookie t ≡ unauthorized)
      ⊎ ((h : Text) × (sub : Text) × ((t : Tables)
            → require_admin lib now cookie t ≡ gate_of (open_session now h sub t)))
unfolding require_admin
gate_cases lib now none = inl (λ t. refl)
gate_cases lib now (some token) = elim (Bool-cases (is_empty token)) [
  | inl e ↦ inl (λ t. rw e refl)
  | inr e ↦ elim (Option-cases (lib.verify now token)) [
    | inl k ↦ inl (λ t. rw (e, k) refl)
    | inr (string text, k) ↦ inl (λ t. rw (e, k) refl)
    | inr (object none jti, k) ↦ inl (λ t. rw (e, k) refl)
    | inr (object (some sub) none, k) ↦ inl (λ t. rw (e, k) refl)
    | inr (object (some sub) (some jti), k) ↦ elim (Bool-cases (is_empty sub || is_empty jti)) [
      | inl l ↦ inl (λ t. rw (e, k, l) refl)
      | inr l ↦ inr (
        lib.session_hash jti,
        sub,
        λ t. elim (Option-cases (open_session now (lib.session_hash jti) sub t)) [
          | inl m ↦ rw (e, k, l, m) refl
          | inr (found, m) ↦ rw (e, k, l, m) refl
        ],
      )
    ]
  ]
]

-- The gate that refuses what a test selects.
unfoldable pub refuse : (Identity → Text → Bool) → Gate → Gate
refuse p unauthorized = unauthorized
refuse p (passes identity id) = if p identity id then unauthorized else passes identity id

pub first_holds {ℓ} :
    {A : Type ℓ} (p : A → Bool) (xs : List A) (x : A) → first p xs ≡ some x → p x ≡ true
first_holds p [] x h = cc
first_holds p (y ∷ xs) x h = elim (Bool-cases (p y)) [
  | inl e ↦ let k = (rw e at h) in let same : y ≡ x = cc in subst (λ z. p z ≡ true) same e
  | inr e ↦ let k = (rw e at h) in first_holds p xs x k
]

abbrev pub identity_of : Text → Admin → Identity
identity_of id a = record {
  id = id;
  username = a.username;
  role = if is_empty a.role then codes "admin" else a.role;
}

pub read_row_lem :
    (admins : List Admin) (s : AdminSession)
    → (read_row admins (some s) ≡ none)
      ⊎ ((i : Identity) × (i.id ≡ s.admin_id) × (read_row admins (some s) ≡ some (i, s.id)))
unfolding read_row
read_row_lem admins s = elim (Option-cases (first (λ a. a.id === s.admin_id) admins)) [
  | inl e ↦ inl (rw (read_row, e) refl)
  | inr (a, e) ↦ inr (identity_of s.admin_id a, refl, rw (read_row, e) refl)
]

pub read_row-none : (admins : List Admin) → read_row admins none ≡ none
unfolding read_row
read_row-none admins = refl

read_row-unless :
    (p : AdminSession → Bool) (q : Identity → Text → Bool) (admins : List Admin)
    → (o : Option AdminSession)
    → ((s : AdminSession) (i : Identity) → o ≡ some s → i.id ≡ s.admin_id → p s ≡ q i s.id)
    → gate_of (read_row admins (unless p o)) ≡ refuse q (gate_of (read_row admins o))
unfolding refuse
read_row-unless p q admins none agree = rw (read_row-none admins) refl
read_row-unless p q admins (some s) agree = elim (read_row_lem admins s) [
  | inl e ↦ elim (Bool-cases (p s)) [
    | inl k ↦ rw (k, e, read_row-none admins) refl
    | inr k ↦ rw (k, e) refl
  ]
  | inr (i, id, e) ↦
      let same : p s ≡ q i s.id = agree s i refl id in
      elim (Bool-cases (p s)) [
        | inl k ↦ rw (k, e, read_row-none admins, sym same ∙ k) refl
        | inr k ↦ rw (k, e, sym same ∙ k) refl
      ]
]

-- After the sessions that `p` selects are revoked, the gate refuses these, and nothing else changes.
revoked_gate :
    (now later : ℕ) (p : AdminSession → Bool) (q : Identity → Text → Bool) (h sub : Text)
    → ((s : AdminSession) (i : Identity)
        → opens later h sub s ≡ true
        → i.id ≡ s.admin_id
        → p s ≡ q i s.id)
    → (t : Tables) → IsWellFormed t
    → gate_of (open_session later h sub (record t { sessions = revoke_if now p t.sessions }))
      ≡ refuse q (gate_of (open_session later h sub t))
unfolding open_session
revoked_gate now later p q h sub agree t u =
    ap (λ o. gate_of (read_row t.admins o)) (first-revoke_if now later p h sub t.sessions u)
    ∙ read_row-unless p q t.admins (first (opens later h sub) t.sessions)
        (λ s i e k. agree s i (first_holds (opens later h sub) t.sessions s e) k)

pub opens-unrevoked :
    (now : ℕ) (h sub : Text) (s : AdminSession) → opens now h sub s ≡ true → is_unrevoked s ≡ true
unfolding opens is_live
opens-unrevoked now h sub s e = elim (Option-cases s.revoked_at) [
  | inl k ↦ rw k refl
  | inr (at, k) ↦ absurd (let l = (rw k at e) in ground arith)
]

-- In tables where no two sessions have one hash: once all sessions of an administrator are revoked,
-- the gate refuses, at every later or earlier instant and for every cookie, what passed for this
-- administrator, and answers as before to all else.
pub revoke_all-refuses :
    (lib : Libraries) (now later : ℕ) (admin_id : Text) (cookie : Option Text)
    → (t : Tables) → IsWellFormed t
    → require_admin lib later cookie (revoke_all_admin_sessions now admin_id t).1
      ≡ refuse (λ i id. i.id === admin_id) (require_admin lib later cookie t)
unfolding revoke_all_admin_sessions refuse
revoke_all-refuses lib now later admin_id cookie t u = elim (gate_cases lib later cookie) [
  | inl e ↦ rw (e (revoke_all_admin_sessions now admin_id t).1, e t) refl
  | inr (h, sub, e) ↦
      e (revoke_all_admin_sessions now admin_id t).1
      ∙ revoked_gate now later (λ s. s.admin_id === admin_id && is_unrevoked s)
          (λ i id. i.id === admin_id) h sub
          (λ s i k l. rw (opens-unrevoked later h sub s k, l) (ground arith)) t u
      ∙ ap (refuse (λ i id. i.id === admin_id)) (sym (e t))
]

-- In tables where no two sessions have one hash: once a session is revoked, the gate refuses what
-- passed by it, at every instant and for every cookie, and answers as before to all else.
pub revoke_one-refuses :
    (lib : Libraries) (now later : ℕ) (session_id : Text) (cookie : Option Text)
    → is_empty session_id ≡ false
    → (t : Tables) → IsWellFormed t
    → require_admin lib later cookie (revoke_admin_session now (some session_id) t).1
      ≡ refuse (λ i id. id === session_id) (require_admin lib later cookie t)
unfolding revoke_admin_session refuse
revoke_one-refuses lib now later session_id cookie filled t u =
    rw filled (elim (gate_cases lib later cookie) [
      | inl e ↦
          rw (e (record t { sessions = revoke_if now (λ s. s.id === session_id) t.sessions }), e t)
            refl
      | inr (h, sub, e) ↦
          e (record t { sessions = revoke_if now (λ s. s.id === session_id) t.sessions })
          ∙ revoked_gate now later (λ s. s.id === session_id) (λ i id. id === session_id) h sub
              (λ s i k l. refl) t u
          ∙ ap (refuse (λ i id. id === session_id)) (sym (e t))
    ])
