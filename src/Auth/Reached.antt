-- ===== src/Auth/Reached.antt =====
-- What every sequence of operations on the tables of administrators keeps: distinct hashes, and the
-- end of a session.
use zvpn.Base.{
  ◌≡◌, refl, ◌∙◌, Bool, false, ◌&&◌, List, [], ◌∷◌, ◌++◌, Text, ◌===◌, any, keep, map, arith,
  any-append,
}
use zvpn.Auth.{AdminSession, Tables, Libraries, is_unrevoked}
use zvpn.Auth.Revoked.{
  IsUnique, IsWellFormed, KeepsHash, map-IsUnique, keep-IsUnique, add-IsUnique, any-keep_le,
}
use zvpn.Auth.Steps.{
  Reaches, here, then_step, Change, each, same, opened, added, KeepsRevoked, Step-Change,
}

Change-IsUnique :
    (avoid : Text → Bool) (before after : List AdminSession)
    → Change avoid before after
    → IsUnique before
    → IsUnique after
Change-IsUnique avoid before _ (each f k r) u = map-IsUnique f k before u
Change-IsUnique avoid before _ same u = u
Change-IsUnique avoid before _ (opened q s fresh apart) u =
    keep-IsUnique q (before ++ s ∷ []) (add-IsUnique before s u fresh)
Change-IsUnique avoid before _ (added s fresh apart) u = add-IsUnique before s u fresh

-- Starting with tables in which no two sessions have one hash, every sequence of operations (login,
-- a request through the gate, logout, revoking all, a change of password) leaves such tables.
pub Reaches-IsWellFormed :
    (lib : Libraries) (avoid : Text → Bool) (t t' : Tables)
    → IsWellFormed t
    → Reaches lib avoid t t'
    → IsWellFormed t'
Reaches-IsWellFormed lib avoid t _ u here = u
Reaches-IsWellFormed lib avoid t _ u (then_step v w r s) =
    Change-IsUnique avoid v.sessions w.sessions (Step-Change lib avoid v w s)
      (Reaches-IsWellFormed lib avoid t v u r)

-- Every session with the hash is revoked.
abbrev pub IsDead : Text → List AdminSession → Type 0
IsDead h sessions = any (λ s. s.token_hash === h && is_unrevoked s) sessions ≡ false

pub map-IsDead :
    (h : Text) (f : AdminSession → AdminSession)
    → KeepsHash f
    → KeepsRevoked f
    → (sessions : List AdminSession) → IsDead h sessions
    → IsDead h (map f sessions)
map-IsDead h f k r [] d = refl
map-IsDead h f k r (s ∷ sessions) d =
    let rest = map-IsDead h f k r sessions (ground arith) in
    let alive = r s in rw (k s) (ground arith)

keep-IsDead :
    (h : Text) (q : AdminSession → Bool) (sessions : List AdminSession)
    → IsDead h sessions
    → IsDead h (keep q sessions)
keep-IsDead h q sessions d = any-keep_le (λ s. s.token_hash === h && is_unrevoked s) q sessions d

add-IsDead :
    (h : Text) (s : AdminSession) (sessions : List AdminSession)
    → IsDead h sessions
    → (s.token_hash === h) ≡ false
    → IsDead h (sessions ++ s ∷ [])
add-IsDead h s sessions d e =
    any-append (λ s. s.token_hash === h && is_unrevoked s) sessions (s ∷ []) ∙ rw (d, e) refl

Change-IsDead :
    (h : Text) (before after : List AdminSession)
    → Change (λ x. x === h) before after
    → IsDead h before
    → IsDead h after
Change-IsDead h before _ (each f k r) d = map-IsDead h f k r before d
Change-IsDead h before _ same d = d
Change-IsDead h before _ (opened q s fresh apart) d =
    keep-IsDead h q (before ++ s ∷ []) (add-IsDead h s before d apart)
Change-IsDead h before _ (added s fresh apart) d = add-IsDead h s before d apart

pub Reaches-IsDead :
    (lib : Libraries) (h : Text) (t t' : Tables)
    → IsDead h t.sessions
    → Reaches lib (λ x. x === h) t t'
    → IsDead h t'.sessions
Reaches-IsDead lib h t _ d here = d
Reaches-IsDead lib h t _ d (then_step v w r s) =
    Change-IsDead h v.sessions w.sessions (Step-Change lib (λ x. x === h) v w s)
      (Reaches-IsDead lib h t v d r)
