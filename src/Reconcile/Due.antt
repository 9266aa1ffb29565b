-- ===== src/Reconcile/Due.antt =====
-- The loop over the excess sessions against a description: which ids `terminate` is asked for, and
-- what is remembered of each.
use zvpn.Base.{
  ℕ, ◌<◌, ◌≡◌, ◌≢◌, refl, Bool, true, false, not, ◌||◌, some, List, [], ◌∷◌, ◌++◌, map, Text, ◌===◌,
  ===_iff, ===_refl, get, put, get-put, arith, if◌then◌else◌, keep, any, Bool-cases, inl, inr, ap,
  ◌∙◌, sym,
}
use mathlib.Core.List.{append_assoc, append-nil}
use zvpn.Reconcile.Sessions.{Session, Policy, id_of}
use zvpn.Reconcile.{
  Hooks, Attempt, Outcome, ended, already_gone, failed, Call, terminates, saves, deletes, Progress,
  waits, attempt_of, action_of, terminate_one, terminate_all,
}

-- The ids that `terminate` was called with for a user, in order.
unfoldable pub terminated : Text → List Call → List Text
terminated u [] = []
terminated u (terminates v id ∷ calls) =
    if v === u then id ∷ terminated u calls else terminated u calls
terminated u (saves v since now ∷ calls) = terminated u calls
terminated u (deletes v ∷ calls) = terminated u calls

pub terminated-append :
    (u : Text) (xs ys : List Call) → terminated u (xs ++ ys) ≡ terminated u xs ++ terminated u ys
unfolding terminated
terminated-append u [] ys = refl
terminated-append u (terminates v id ∷ xs) ys = ground (arith, terminated-append u xs ys)
terminated-append u (saves v s n ∷ xs) ys = terminated-append u xs ys
terminated-append u (deletes v ∷ xs) ys = terminated-append u xs ys

abbrev pub other_than : Text → List Text → List Text
other_than x = keep λ y. not (x === y)

-- Each text at its first place only.
abbrev pub first_uses : List Text → List Text
first_uses [] = []
first_uses (x ∷ xs) = x ∷ other_than x (first_uses xs)

-- The ids that are not waiting, each once.
abbrev pub due : Hooks → ℕ → List (Text × Attempt) → List Text → List Text
due h now terms ids = keep (λ id. not (waits h now (get id terms))) (first_uses ids)

keep-other_than :
    (p : Text → Bool) (x : Text) (xs : List Text)
    → p x ≡ false
    → keep p (other_than x xs) ≡ keep p xs
keep-other_than p x [] h = refl
keep-other_than p x (y ∷ ys) h = elim (Bool-cases (x === y)) [
  | inl e ↦
      let same : p y ≡ false = rw (← (===_iff x y).0 e) h in rw (e, same) (keep-other_than p x ys h)
  | inr e ↦ rw e (ground (arith, keep-other_than p x ys h))
]

keep_instead :
    (p q : Text → Bool) (x : Text) (xs : List Text)
    → ((y : Text) → q y ≡ (if x === y then false else p y))
    → keep q xs ≡ keep p (other_than x xs)
keep_instead p q x [] h = refl
keep_instead p q x (y ∷ ys) h = elim (Bool-cases (x === y)) [
  | inl e ↦ let gone : q y ≡ false = h y ∙ (rw e) in rw (e, gone) (keep_instead p q x ys h)
  | inr e ↦
      let same : q y ≡ p y = h y ∙ (rw e) in rw (e, same) (ground (arith, keep_instead p q x ys h))
]

-- An attempt of this very pass is waiting, whatever it did.
fresh_waits :
    (h : Hooks) (now : ℕ) (o : Outcome)
    → 0 < h.retry_ms
    → waits h now (some (attempt_of now o)) ≡ true
unfolding waits attempt_of
fresh_waits h now ended r = refl
fresh_waits h now already_gone r = refl
fresh_waits h now (failed e) r = ground arith

module _ (h : Hooks) (now : ℕ) (r : 0 < h.retry_ms) where
  -- After an attempt on `x` the others wait as before.
  not-waits-put :
      (o : Outcome) (x : Text) (terms : List (Text × Attempt)) (y : Text)
      → not (waits h now (get y (put x (attempt_of now o) terms)))
        ≡ (if x === y then false else not (waits h now (get y terms)))
  not-waits-put o x terms y = rw get-put (ground (arith, fresh_waits h now o r))

  due-waiting :
      (x : Text) (terms : List (Text × Attempt)) (ids : List Text)
      → waits h now (get x terms) ≡ true
      → due h now terms (x ∷ ids) ≡ due h now terms ids
  due-waiting x terms ids w =
      let e : not (waits h now (get x terms)) ≡ false = ap not w in
      rw e (keep-other_than (λ id. not (waits h now (get id terms))) x (first_uses ids) e)

  due-asked :
      (o : Outcome) (x : Text) (terms : List (Text × Attempt)) (ids : List Text)
      → waits h now (get x terms) ≡ false
      → due h now terms (x ∷ ids) ≡ x ∷ due h now (put x (attempt_of now o) terms) ids
  due-asked o x terms ids w =
      let e : not (waits h now (get x terms)) ≡ true = ap not w in
      rw e (
        ap (◌∷◌ x) (
          sym (
            keep_instead (λ id. not (waits h now (get id terms)))
              (λ id. not (waits h now (get id (put x (attempt_of now o) terms)))) x (first_uses ids)
              (not-waits-put o x terms))))

  module _ (u : Text) (policy : Policy) where
    terminate_one-waits :
        (p : Progress) (s : Session)
        → waits h now (get (id_of s) p.terminations) ≡ true
        → terminate_one h now u policy p s ≡ p
    unfolding terminate_one
    terminate_one-waits p s w = rw w

    -- The progress after a call of `terminate`.
    abbrev asked : Progress → Session → Progress
    asked p s = record {
      terminations = put (id_of s) (attempt_of now (h.terminate (id_of s))) p.terminations;
      actions = p.actions ++ action_of u (id_of s) policy (h.terminate (id_of s)) ∷ [];
      calls = p.calls ++ terminates u (id_of s) ∷ [];
    }

    terminate_one_asks :
        (p : Progress) (s : Session)
        → waits h now (get (id_of s) p.terminations) ≡ false
        → terminate_one h now u policy p s ≡ asked p s
    unfolding terminate_one
    terminate_one_asks p s w = rw w

    terminate_all-waits :
        (p : Progress) (s : Session) (extras : List Session)
        → waits h now (get (id_of s) p.terminations) ≡ true
        → terminate_all h now u policy p (s ∷ extras) ≡ terminate_all h now u policy p extras
    unfolding terminate_all
    terminate_all-waits p s extras w =
        ap (λ q. terminate_all h now u policy q extras) (terminate_one-waits p s w)

    terminate_all_asks :
        (p : Progress) (s : Session) (extras : List Session)
        → waits h now (get (id_of s) p.terminations) ≡ false
        → terminate_all h now u policy p (s ∷ extras)
          ≡ terminate_all h now u policy (asked p s) extras
    unfolding terminate_all
    terminate_all_asks p s extras w =
        ap (λ q. terminate_all h now u policy q extras) (terminate_one_asks p s w)

    terminated-snoc :
        (calls : List Call) (id : Text)
        → terminated u (calls ++ terminates u id ∷ []) ≡ terminated u calls ++ id ∷ []
    unfolding terminated
    terminated-snoc calls id = rw terminated-append (ground (arith, ===_refl u))

    -- `terminate` is asked for exactly the ids that are due, in the order of the sessions.
    pub terminate_all-calls :
        (p : Progress) (extras : List Session)
        → terminated u (terminate_all h now u policy p extras).calls
          ≡ terminated u p.calls ++ due h now p.terminations (map id_of extras)
    unfolding terminate_all
    terminate_all-calls p [] = sym (append-nil (terminated u p.calls))
    terminate_all-calls p (s ∷ extras) =
        elim (Bool-cases (waits h now (get (id_of s) p.terminations))) [
          | inl w ↦
              rw
                (
                  terminate_all-waits p s extras w,
                  due-waiting (id_of s) p.terminations (map id_of extras) w,
                )
                (terminate_all-calls p extras)
          | inr w ↦
              rw
                (
                  terminate_all_asks p s extras w,
                  due-asked (h.terminate (id_of s)) (id_of s) p.terminations (map id_of extras) w,
                )
                (terminate_all-calls (asked p s) extras
                  ∙ rw (terminated-snoc p.calls (id_of s), append_assoc))
        ]

    terminated_none : (v id : Text) → u ≢ v → terminated v (terminates u id ∷ []) ≡ []
    unfolding terminated
    terminated_none v id ne = ground (arith, ===_iff u v)

    -- For another user nothing is asked.
    pub terminate_all-calls_ne :
        (v : Text) (p : Progress) (extras : List Session)
        → u ≢ v
        → terminated v (terminate_all h now u policy p extras).calls ≡ terminated v p.calls
    unfolding terminate_all
    terminate_all-calls_ne v p [] ne = refl
    terminate_all-calls_ne v p (s ∷ extras) ne =
        elim (Bool-cases (waits h now (get (id_of s) p.terminations))) [
          | inl w ↦ rw (terminate_all-waits p s extras w) (terminate_all-calls_ne v p extras ne)
          | inr w ↦ rw (terminate_all_asks p s extras w) (
              terminate_all-calls_ne v (asked p s) extras ne
              ∙ terminated-append v p.calls (terminates u (id_of s) ∷ [])
              ∙ no_more (id_of s) (terminated v p.calls))
        ]
      where
        no_more : (id : Text) (xs : List Text) → xs ++ terminated v (terminates u id ∷ []) ≡ xs
        no_more id xs = rw (terminated_none v id ne) (append-nil xs)

    -- What is remembered of an id: the attempt of this pass if it was due, else what was before.
    pub terminate_all-terminations :
        (p : Progress) (extras : List Session) (id : Text)
        → get id (terminate_all h now u policy p extras).terminations ≡ (
            if any (λ x. x === id) (due h now p.terminations (map id_of extras))
            then some (attempt_of now (h.terminate id))
            else get id p.terminations)
    unfolding terminate_all
    terminate_all-terminations p [] id = refl
    terminate_all-terminations p (s ∷ extras) id =
        elim (Bool-cases (waits h now (get (id_of s) p.terminations))) [
          | inl w ↦
              rw
                (
                  terminate_all-waits p s extras w,
                  due-waiting (id_of s) p.terminations (map id_of extras) w,
                )
                (terminate_all-terminations p extras id)
          | inr w ↦
              rw
                (
                  terminate_all_asks p s extras w,
                  due-asked (h.terminate (id_of s)) (id_of s) p.terminations (map id_of extras) w,
                )
                (terminate_all-terminations (asked p s) extras id
                  ∙ at_id s p.terminations (due h now (asked p s).terminations (map id_of extras)))
        ]
      where
        at_id :
            (s : Session) (terms : List (Text × Attempt)) (ids : List Text)
            → (if any (λ x. x === id) ids
                then some (attempt_of now (h.terminate id))
                else get id (put (id_of s) (attempt_of now (h.terminate (id_of s))) terms))
              ≡ (if id_of s === id || any (λ x. x === id) ids
                  then some (attempt_of now (h.terminate id))
                  else get id terms)
        at_id s terms ids = rw get-put (ground (arith, ===_iff (id_of s) id))
