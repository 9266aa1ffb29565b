-- ===== src/Reconcile/Groups.antt =====
-- The grouping of a snapshot by user, and the first loop of `reconcile`.
use mathlib.Core.List.{append_assoc, append-nil}
use zvpn.Base.{
  ◌≡◌, refl, Bool, true, false, not, ◌&&◌, ◌||◌, Option, none, some, List, [], ◌∷◌, ◌++◌, Text,
  ◌===◌, ===_iff, is_empty, get, get-put, Distinct, put-Distinct, arith, if◌then◌else◌, keep,
  Bool-cases, inl, inr, ◌∙◌, sym, ap, keep-append, ◌⊎◌,
}
use zvpn.Reconcile.Sessions.{Session, id_of}
use zvpn.Reconcile.{
  Hooks, UserState, username_of, mine_of, add_session, group, forget, drop_gone, drop_calls,
}
use zvpn.Reconcile.Due.{terminated}

-- A session of the user with an id. One with no user name or no id belongs to nobody.
abbrev pub belongs : Text → Session → Bool
belongs u s = not (is_empty (username_of s) || is_empty (id_of s)) && username_of s === u

-- The sessions of a user, in the order of the snapshot.
abbrev pub snapshot_of : Text → List Session → List Session
snapshot_of u = keep (belongs u)

add_session-mine :
    (u : Text) (m : List (Text × List Session)) (s : Session)
    → mine_of (get u (add_session m s)) ≡ mine_of (get u m) ++ keep (belongs u) (s ∷ [])
unfolding add_session
add_session-mine u m s = elim (Bool-cases (is_empty (username_of s) || is_empty (id_of s))) [
  | inl e ↦ rw e (sym (append-nil (mine_of (get u m))))
  | inr e ↦ rw (e, get-put) (by_name (Bool-cases (username_of s === u)))
]
  where
    by_name :
        (username_of s === u ≡ true) ⊎ (username_of s === u ≡ false)
        → mine_of (
            if username_of s === u
            then some (mine_of (get (username_of s) m) ++ s ∷ [])
            else get u m)
          ≡ mine_of (get u m) ++ (if username_of s === u then s ∷ [] else [])
    by_name (inl e) = rw (e, (===_iff (username_of s) u).0 e)
    by_name (inr e) = rw e (sym (append-nil (mine_of (get u m))))

-- Grouping collects exactly the user's sessions.
pub group-mine :
    (u : Text) (m : List (Text × List Session)) (sessions : List Session)
    → mine_of (get u (group m sessions)) ≡ mine_of (get u m) ++ snapshot_of u sessions
unfolding group
group-mine u m [] = sym (append-nil (mine_of (get u m)))
group-mine u m (s ∷ sessions) =
    group-mine u (add_session m s) sessions
    ∙ ap (λ l. l ++ snapshot_of u sessions) (add_session-mine u m s)
    ∙ append_assoc (mine_of (get u m)) (keep (belongs u) (s ∷ [])) (snapshot_of u sessions)
    ∙ ap (◌++◌ (mine_of (get u m))) (sym (keep-append (belongs u) (s ∷ []) sessions))

add_session-Distinct :
    (m : List (Text × List Session)) (s : Session) → Distinct m → Distinct (add_session m s)
unfolding add_session
add_session-Distinct m s d = elim (Bool-cases (is_empty (username_of s) || is_empty (id_of s))) [
  | inl e ↦ rw e d
  | inr e ↦ rw e (put-Distinct (username_of s) (mine_of (get (username_of s) m) ++ s ∷ []) m d)
]

pub group-Distinct :
    (m : List (Text × List Session)) (sessions : List Session)
    → Distinct m
    → Distinct (group m sessions)
unfolding group
group-Distinct m [] d = d
group-Distinct m (s ∷ sessions) d =
    group-Distinct (add_session m s) sessions (add_session-Distinct m s d)

-- The state that a user takes into the second loop.
abbrev pub carry : List Session → Option UserState → Option UserState
carry mine none = none
carry mine (some state) = some (record state { terminations = forget mine state.terminations })

abbrev carried : Option (List Session) → Option UserState → Option UserState
carried none o = none
carried (some mine) o = carry mine o

pub get-drop_gone :
    (u : Text) (by_user : List (Text × List Session)) (users : List (Text × UserState))
    → get u (drop_gone by_user users) ≡ carried (get u by_user) (get u users)
unfolding drop_gone get
get-drop_gone u by_user [] = ground arith
get-drop_gone u by_user ((v, state) ∷ users) =
    ground (arith, ===_iff v u, get-drop_gone u by_user users)

pub terminated-drop_calls :
    (h : Hooks) (u : Text) (by_user : List (Text × List Session)) (users : List (Text × UserState))
    → terminated u (drop_calls h by_user users) ≡ []
unfolding drop_calls terminated
terminated-drop_calls h u by_user [] = refl
terminated-drop_calls h u by_user ((v, state) ∷ users) =
    ground (arith, terminated-drop_calls h u by_user users)
