-- ===== src/Auth/Revoked.antt =====
-- Sessions by their token's hash: the hashes stay distinct, and what revoking does to the gate.
use zvpn.Base.{
  ℕ, ◌≡◌, refl, ◌∙◌, sym, subst, ap₂, Bool, true, false, not, ◌&&◌, ◌||◌, Option, none, some, List,
  [], ◌∷◌, ◌++◌, Text, ◌===◌, ===_iff, ===_flip, any, keep, map, if◌then◌else◌, Bool-cases,
  Option-cases, inl, inr, arith, any-append,
}
use zvpn.Auth.{AdminSession, Tables, first, is_live, opens, revoke, revoke_if}

abbrev pub has_hash : Text → AdminSession → Bool
has_hash h s = s.token_hash === h

-- No two sessions have the same hash.
abbrev pub IsUnique : List AdminSession → Type 0
IsUnique [] = Unit
IsUnique (s ∷ sessions) = (any (has_hash s.token_hash) sessions ≡ false) × IsUnique sessions

abbrev pub IsWellFormed : Tables → Type 0
IsWellFormed t = IsUnique t.sessions

-- A change of sessions that keeps their hashes.
abbrev pub KeepsHash : (AdminSession → AdminSession) → Type 0
KeepsHash f = (s : AdminSession) → (f s).token_hash ≡ s.token_hash

any_hash-map :
    (f : AdminSession → AdminSession)
    → KeepsHash f
    → (h : Text) (sessions : List AdminSession)
    → any (has_hash h) (map f sessions) ≡ any (has_hash h) sessions
any_hash-map f k h [] = refl
any_hash-map f k h (s ∷ sessions) = ap₂ (λ t b. t === h || b) (k s) (any_hash-map f k h sessions)

pub map-IsUnique :
    (f : AdminSession → AdminSession)
    → KeepsHash f
    → (sessions : List AdminSession) → IsUnique sessions
    → IsUnique (map f sessions)
map-IsUnique f k [] u = tt
map-IsUnique f k (s ∷ sessions) u = (
  subst (λ h. any (has_hash h) (map f sessions) ≡ false) (sym (k s))
      (any_hash-map f k s.token_hash sessions ∙ u.0),
  map-IsUnique f k sessions u.1,
)

pub any-keep_le :
    (p q : AdminSession → Bool) (sessions : List AdminSession)
    → any p sessions ≡ false
    → any p (keep q sessions) ≡ false
any-keep_le p q [] h = refl
any-keep_le p q (s ∷ sessions) h = let rest = any-keep_le p q sessions in ground arith

pub keep-IsUnique :
    (q : AdminSession → Bool) (sessions : List AdminSession)
    → IsUnique sessions
    → IsUnique (keep q sessions)
keep-IsUnique q [] u = tt
keep-IsUnique q (s ∷ sessions) u =
    let rest = keep-IsUnique q sessions u.1 in
    let here = any-keep_le (has_hash s.token_hash) q sessions u.0 in
    elim (Bool-cases (q s)) [ inl e ↦ rw e (here, rest) | inr e ↦ rw e rest ]

pub add-IsUnique :
    (sessions : List AdminSession) (s : AdminSession)
    → IsUnique sessions
    → any (has_hash s.token_hash) sessions ≡ false
    → IsUnique (sessions ++ s ∷ [])
add-IsUnique [] s u h = (refl, tt)
add-IsUnique (r ∷ sessions) s u h =
    let other : (r.token_hash === s.token_hash) ≡ false = ground arith in
    let flip = ===_flip r.token_hash s.token_hash other in
    (
      any-append (has_hash r.token_hash) sessions (s ∷ []) ∙ rw (u.0, flip) refl,
      add-IsUnique sessions s u.1 (ground arith),
    )

-- The session whose row the gate reads, where one that a test selects was revoked.
abbrev pub unless {ℓ} : {A : Type ℓ} → (A → Bool) → Option A → Option A
unless p none = none
unless p (some a) = if p a then none else some a

pub opens-hash :
    (now : ℕ) (h id : Text) (s : AdminSession)
    → opens now h id s ≡ true
    → (s.token_hash === h) ≡ true
unfolding opens
opens-hash now h id s e = ground arith

pub none-opens :
    (now : ℕ) (h id : Text) (sessions : List AdminSession)
    → any (has_hash h) sessions ≡ false
    → first (opens now h id) sessions ≡ none
none-opens now h id [] e = refl
none-opens now h id (s ∷ sessions) e =
    let rest = none-opens now h id sessions in let here = opens-hash now h id s in ground arith

opens-revoke :
    (now later : ℕ) (p : AdminSession → Bool) (h id : Text) (s : AdminSession)
    → opens later h id (revoke now p s) ≡ (opens later h id s && not (p s))
unfolding opens is_live revoke
opens-revoke now later p h id s = elim (Bool-cases (p s)) [
  | inr e ↦ rw e (ground arith)
  | inl e ↦ elim (Option-cases s.revoked_at) [
    | inl k ↦ rw (e, k) (ground arith)
    | inr (at, k) ↦ rw (e, k) (ground arith)
  ]
]

pub revoke-KeepsHash : (now : ℕ) (p : AdminSession → Bool) → KeepsHash (revoke now p)
unfolding revoke
revoke-KeepsHash now p s = elim (Bool-cases (p s)) [ inl e ↦ rw e refl | inr e ↦ rw e refl ]

pub first-revoke_if :
    (now later : ℕ) (p : AdminSession → Bool) (h id : Text)
    → (sessions : List AdminSession) → IsUnique sessions
    → first (opens later h id) (revoke_if now p sessions)
      ≡ unless p (first (opens later h id) sessions)
unfolding revoke_if
first-revoke_if now later p h id [] u = refl
first-revoke_if now later p h id (s ∷ sessions) u =
    let rest = first-revoke_if now later p h id sessions u.1 in
    let here = opens-revoke now later p h id s in
    elim (Bool-cases (opens later h id s)) [
      | inr e ↦ rw (here, e) rest
      | inl e ↦ elim (Bool-cases (p s)) [
        | inr k ↦ rw (here, e, k) refl
        | inl k ↦
            let same = (===_iff s.token_hash h).0 (opens-hash later h id s e) in
            let none_left =
              none-opens later h id sessions
                (subst (λ x. any (has_hash x) sessions ≡ false) same u.0) in
            rw (here, e, k) (rest ∙ rw none_left refl)
      ]
    ]
