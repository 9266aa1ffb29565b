-- ===== src/Auth/Final.antt =====
-- What every sequence of operations on the tables of administrators keeps: distinct hashes, and the
-- end of a session by logout.
use zvpn.Base.{
  ℕ, ◌≡◌, ◌⊎◌, refl, ap, ◌∙◌, sym, subst, Bool, true, false, ◌||◌, Option, none, some, List, [],
  ◌∷◌, Text, ◌===◌, ===_iff, ===_refl, any, is_empty, Bool-cases, Option-cases, inl, inr, arith,
}
use zvpn.Auth.{
  AdminSession, Tables, Libraries, unauthorized, passes, Identity, first, opens, open_session,
  read_row, revoke, revoke_if, is_unrevoked, require_admin, revoke_admin_session, object,
}
use zvpn.Auth.Handlers.{logout}
use zvpn.Auth.Revoked.{IsUnique, IsWellFormed, has_hash, revoke-KeepsHash, opens-hash}
use zvpn.Auth.Steps.{Reaches, revoke-KeepsRevoked}
use zvpn.Auth.Sessions.{gate_of, read_row_lem, read_row-none, opens-unrevoked}
use zvpn.Auth.Reached.{IsDead, Reaches-IsDead, map-IsDead}

gate_of_lem :
    (o : Option (Identity × Text))
    → (elim o [ none ↦ unauthorized | some (identity, id) ↦ passes identity id ]) ≡ gate_of o
gate_of_lem none = refl
gate_of_lem (some (identity, id)) = refl

gate_verified :
    (lib : Libraries) (now : ℕ) (token : Text) (sub jti : Text)
    → lib.verify now token ≡ some (object (some sub) (some jti))
    → (t : Tables)
    → (require_admin lib now (some token) t ≡ unauthorized)
      ⊎ (require_admin lib now (some token) t
          ≡ gate_of (read_row t.admins (first (opens now (lib.session_hash jti) sub) t.sessions)))
unfolding require_admin open_session
gate_verified lib now token sub jti verified t = elim (Bool-cases (is_empty token)) [
  | inl e ↦ inl (rw e refl)
  | inr e ↦ elim (Bool-cases (is_empty sub || is_empty jti)) [
    | inl k ↦ inl (rw (e, verified, k) refl)
    | inr k ↦
        inr (rw (e, verified, k) (gate_of_lem (open_session now (lib.session_hash jti) sub t)))
  ]
]

-- What a gate that passes read: the session of its token's hash.
passes_lem :
    (lib : Libraries) (now : ℕ) (token : Text) (sub jti : Text)
    → lib.verify now token ≡ some (object (some sub) (some jti))
    → (t : Tables) (i : Identity) (id : Text) → require_admin lib now (some token) t ≡ passes i id
    → (s : AdminSession) × (first (opens now (lib.session_hash jti) sub) t.sessions ≡ some s)
      × (s.id ≡ id)
passes_lem lib now token sub jti verified t i id h =
    elim (gate_verified lib now token sub jti verified t) [
      | inl e ↦ absurd (let k = sym e ∙ h in cc)
      | inr e ↦ elim (Option-cases (first (opens now (lib.session_hash jti) sub) t.sessions)) [
        | inl k ↦ absurd (
            let l =
              sym (
                e ∙ ap (λ o. gate_of (read_row t.admins o)) k ∙ ap gate_of (read_row-none t.admins))
              ∙ h in
            cc)
        | inr (s, k) ↦ (
          s,
          k,
          elim (read_row_lem t.admins s) [
            | inl m ↦ absurd (
                let l = sym (e ∙ ap (λ o. gate_of (read_row t.admins o)) k ∙ ap gate_of m) ∙ h in
                cc)
            | inr (i', _, m) ↦
                let l = sym (e ∙ ap (λ o. gate_of (read_row t.admins o)) k ∙ ap gate_of m) ∙ h in cc
          ],
        )
      ]
    ]

first-has_hash :
    (now : ℕ) (h sub : Text) (sessions : List AdminSession) (s : AdminSession)
    → first (opens now h sub) sessions ≡ some s
    → any (has_hash h) sessions ≡ true
first-has_hash now h sub [] s e = absurd (let k = e in cc)
first-has_hash now h sub (r ∷ sessions) s e = elim (Bool-cases (opens now h sub r)) [
  | inl k ↦ rw (opens-hash now h sub r k) refl
  | inr k ↦ let rest = first-has_hash now h sub sessions s (rw k at e) in ground arith
]

no_hash-IsDead :
    (h : Text) (sessions : List AdminSession)
    → any (has_hash h) sessions ≡ false
    → IsDead h sessions
no_hash-IsDead h [] e = refl
no_hash-IsDead h (r ∷ sessions) e = let rest = no_hash-IsDead h sessions in ground arith

revoked_is_shut :
    (now : ℕ) (p : AdminSession → Bool) (s : AdminSession)
    → p s ≡ true
    → is_unrevoked (revoke now p s) ≡ false
unfolding revoke
revoked_is_shut now p s e = elim (Option-cases s.revoked_at) [
  | inl k ↦ rw (e, k) refl
  | inr (at, k) ↦ rw (e, k) refl
]

-- Once the session that opened is revoked, its hash is dead.
revoke-IsDead :
    (now : ℕ) (h sub : Text) (id : Text) (sessions : List AdminSession)
    → IsUnique sessions
    → (s : AdminSession) → first (opens now h sub) sessions ≡ some s
    → s.id ≡ id
    → IsDead h (revoke_if now (λ r. r.id === id) sessions)
unfolding revoke_if
revoke-IsDead now h sub id [] u s e k = refl
revoke-IsDead now h sub id (r ∷ sessions) u s e k = elim (Bool-cases (opens now h sub r)) [
  | inl l ↦
      let same : r ≡ s = (let m = (rw l at e) in cc) in
      let has = (===_iff r.token_hash h).0 (opens-hash now h sub r l) in
      let shut =
        revoked_is_shut now (λ r. r.id === id) r (rw (ap (λ r. r.id) same ∙ k) (===_refl id)) in
      let rest =
        map-IsDead h (revoke now (λ r. r.id === id)) (revoke-KeepsHash now (λ r. r.id === id))
          (revoke-KeepsRevoked now (λ r. r.id === id)) sessions
          (no_hash-IsDead h sessions (subst (λ x. any (has_hash x) sessions ≡ false) has u.0)) in
      ground arith
  | inr l ↦
      let e' = (rw l at e) in
      let rest = revoke-IsDead now h sub id sessions u.1 s e' k in
      let later = first-has_hash now h sub sessions s e' in
      let other : (r.token_hash === h) ≡ false = elim (Bool-cases (r.token_hash === h)) [
        | inr m ↦ m
        | inl m ↦ absurd (
            let n =
              subst (λ x. any (has_hash x) sessions ≡ false) ((===_iff r.token_hash h).0 m) u.0 in
            ground arith)
      ] in
      rw (revoke-KeepsHash now (λ r. r.id === id) r, other) rest
]

-- A hash that is dead opens nothing.
dead_opens :
    (later : ℕ) (h sub : Text) (sessions : List AdminSession)
    → IsDead h sessions
    → first (opens later h sub) sessions ≡ none
dead_opens later h sub [] d = refl
dead_opens later h sub (s ∷ sessions) d =
    let rest = dead_opens later h sub sessions in
    let has = opens-hash later h sub s in let alive = opens-unrevoked later h sub s in ground arith

dead_gate :
    (lib : Libraries) (later : ℕ) (token sub jti : Text)
    → lib.verify later token ≡ some (object (some sub) (some jti))
    → (t : Tables) → IsDead (lib.session_hash jti) t.sessions
    → require_admin lib later (some token) t ≡ unauthorized
dead_gate lib later token sub jti verified t d =
    elim (gate_verified lib later token sub jti verified t) [
      | inl e ↦ e
      | inr e ↦
          e
          ∙ ap (λ o. gate_of (read_row t.admins o))
              (dead_opens later (lib.session_hash jti) sub t.sessions d)
          ∙ ap gate_of (read_row-none t.admins)
    ]

unverified_gate :
    (lib : Libraries) (later : ℕ) (token : Text) (t : Tables)
    → lib.verify later token ≡ none
    → require_admin lib later (some token) t ≡ unauthorized
unfolding require_admin
unverified_gate lib later token t e = elim (Bool-cases (is_empty token)) [
  | inl k ↦ rw k refl
  | inr k ↦ rw (k, e) refl
]

logout-IsDead :
    (now : ℕ) (h sub : Text) (i : Identity) (id : Text) (t : Tables)
    → IsWellFormed t
    → is_empty id ≡ false
    → (s : AdminSession) → first (opens now h sub) t.sessions ≡ some s
    → s.id ≡ id
    → IsDead h (logout now i id t).0.sessions
unfolding logout revoke_admin_session
logout-IsDead now h sub i id t u filled s e k =
    rw filled (revoke-IsDead now h sub id t.sessions u s e k)

-- In tables where no two sessions have one hash: a token with which an administrator logged out
-- never passes the gate again, at any instant and after any sequence of operations that opens no
-- session by the same hash, as long as the token is verified as it was or no longer.
pub logout-final :
    (lib : Libraries) (now later : ℕ) (token sub jti : Text)
    → lib.verify now token ≡ some (object (some sub) (some jti))
    → (lib.verify later token ≡ none) ⊎ (lib.verify later token ≡ lib.verify now token)
    → (t t' : Tables) (i : Identity) (id : Text) → IsWellFormed t
    → is_empty id ≡ false
    → require_admin lib now (some token) t ≡ passes i id
    → Reaches lib (λ h. h === lib.session_hash jti) (logout now i id t).0 t'
    → require_admin lib later (some token) t' ≡ unauthorized
logout-final lib now later token sub jti verified as_was t t' i id u filled h r =
    let (s, e, k) = passes_lem lib now token sub jti verified t i id h in
    let dead = logout-IsDead now (lib.session_hash jti) sub i id t u filled s e k in
    elim as_was [
      | inl l ↦ unverified_gate lib later token t' l
      | inr l ↦
          dead_gate lib later token sub jti (l ∙ verified) t'
            (Reaches-IsDead lib (lib.session_hash jti) (logout now i id t).0 t' dead r)
    ]
