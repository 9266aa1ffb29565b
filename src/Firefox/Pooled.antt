-- ===== src/Firefox/Pooled.antt =====
-- What holds of `TunnelPool` of ops/firefox/core.mjs after any sequence of its steps.
use zvpn.Base.{
  ℕ, ◌≡◌, ◌≤◌, ◌⊎◌, inl, inr, refl, sym, ◌∙◌, subst, Bool, true, false, not, ◌&&◌, Option, none,
  some, Text, get, ◌==◌, length, if◌then◌else◌, arith, Bool-cases, Option-cases, put_cases, ==_iff,
}
use zvpn.Firefox.Tunnels.{
  Transport, Pool, empty_pool, modify, new_transport, connect, pick, session_error, session_close,
  session_goaway, session_connect, session_settings, session_timeout, streams_on, request,
  stream_close, close_pool,
}

pub data PoolStep : Pool → Pool → Type 0 where
  picks : (key : Text) (p : Pool) → PoolStep p (pick key p).1
  errors : (i : ℕ) (p : Pool) → PoolStep p (session_error i p)
  closes : (i : ℕ) (p : Pool) → PoolStep p (session_close i p)
  goes_away : (i : ℕ) (p : Pool) → PoolStep p (session_goaway i p)
  connects : (i : ℕ) (p : Pool) → PoolStep p (session_connect i p)
  sets : (i : ℕ) (limit : Option ℕ) (p : Pool) → PoolStep p (session_settings i limit p)
  times_out : (i : ℕ) (p : Pool) → PoolStep p (session_timeout i p)
  requests :
      (i stream : ℕ) (succeeds : Bool) (p p' : Pool)
      → request i stream succeeds p ≡ streams_on p'
      → PoolStep p p'
  stream_closes : (i stream : ℕ) (p : Pool) → PoolStep p (stream_close i stream p)
  shuts : (p : Pool) → PoolStep p (close_pool p)

pub data PoolReached : Pool → Type 0 where
  at_start : PoolReached empty_pool
  after_step : (p p' : Pool) → PoolReached p → PoolStep p p' → PoolReached p'

-- No transport has more than 64 streams, the map's transports are there under their own endpoints,
-- and the next name is free.
abbrev pub IsBounded : Pool → Type 0
IsBounded p = (i : ℕ) (t : Transport) → p.store i ≡ some t → length t.streams ≤ 64

abbrev pub IsIndexed : Pool → Type 0
IsIndexed p =
    (key : Text) (i : ℕ)
    → get key p.entries ≡ some i
    → (t : Transport) × (p.store i ≡ some t) × (t.key ≡ key)

abbrev pub IsFresh : Pool → Type 0
IsFresh p = (j : ℕ) → p.next ≤ j → p.store j ≡ none

abbrev pub IsPool : Pool → Type 0
IsPool p = IsBounded p × IsIndexed p × IsFresh p

-- A change of one transport that keeps its endpoint and adds no stream beyond 64.
abbrev pub Keeps : ℕ → Pool → (Transport → Transport) → Type 0
Keeps i p f =
    (t : Transport)
    → p.store i ≡ some t
    → length t.streams ≤ 64
    → (length (f t).streams ≤ 64) × ((f t).key ≡ t.key)

modify_cases :
    (i : ℕ) (f : Transport → Transport) (p : Pool) (j : ℕ) (t : Transport)
    → (modify i f p).store j ≡ some t
    → (p.store j ≡ some t) ⊎ ((was : Transport) × (p.store i ≡ some was) × (t ≡ f was))
unfolding modify
modify_cases i f p j t h = elim (Bool-cases (j == i)) [
  | inr e ↦ inl (rw e at h)
  | inl e ↦ elim (Option-cases (p.store j)) [
    | inl k ↦ absurd (let l = (rw (e, k) at h) in cc)
    | inr (was, k) ↦
        let l = (rw (e, k) at h) in
        inr (was, subst (λ x. p.store x ≡ some was) ((==_iff j i).0 e) k, (let m = sym l in cc))
  ]
]

pub modify_there :
    (i : ℕ) (f : Transport → Transport) (p : Pool) (j : ℕ) (t : Transport)
    → p.store j ≡ some t
    → (modify i f p).store j ≡ some (if j == i then f t else t)
unfolding modify
modify_there i f p j t h = elim (Bool-cases (j == i)) [
  | inl e ↦ rw (e, h) refl
  | inr e ↦ rw (e, h) refl
]

modify_gone :
    (i : ℕ) (f : Transport → Transport) (p : Pool) (j : ℕ)
    → p.store j ≡ none
    → (modify i f p).store j ≡ none
unfolding modify
modify_gone i f p j h = elim (Bool-cases (j == i)) [
  | inl e ↦ rw (e, h) refl
  | inr e ↦ rw (e, h) refl
]

modify-IsBounded :
    (i : ℕ) (f : Transport → Transport) (p : Pool)
    → Keeps i p f
    → IsBounded p
    → IsBounded (modify i f p)
modify-IsBounded i f p keeps bounded j t h = elim (modify_cases i f p j t h) [
  | inl e ↦ bounded j t e
  | inr (was, e, made) ↦ rw made (keeps was e (bounded i was e)).0
]

modify-IsIndexed :
    (i : ℕ) (f : Transport → Transport) (p : Pool)
    → Keeps i p f
    → IsPool p
    → IsIndexed (modify i f p)
unfolding modify
modify-IsIndexed i f p keeps (bounded, indexed, fresh) key j h =
    let (t, there, at) = indexed key j h in
    let now = modify_there i f p j t there in
    elim (Bool-cases (j == i)) [
      | inl e ↦ (
        f t,
        now ∙ rw e refl,
        (keeps t (subst (λ x. p.store x ≡ some t) ((==_iff j i).0 e) there) (bounded j t there)).1
            ∙ at,
      )
      | inr e ↦ (t, now ∙ rw e refl, at)
    ]

modify-IsFresh : (i : ℕ) (f : Transport → Transport) (p : Pool) → IsFresh p → IsFresh (modify i f p)
unfolding modify
modify-IsFresh i f p fresh j h = modify_gone i f p j (fresh j h)

pub modify-IsPool :
    (i : ℕ) (f : Transport → Transport) (p : Pool) → Keeps i p f → IsPool p → IsPool (modify i f p)
modify-IsPool i f p keeps q =
    (modify-IsBounded i f p keeps q.0, modify-IsIndexed i f p keeps q, modify-IsFresh i f p q.2)

same_number : (n : ℕ) → (n == n) ≡ true
same_number n = ground arith

pub connect_new :
    (key : Text) (p : Pool) → (connect key p).1.store p.next ≡ some (new_transport key)
unfolding connect
connect_new key p = rw (same_number p.next) refl

connect_old :
    (key : Text) (p : Pool) (j : ℕ) (t : Transport)
    → IsFresh p
    → p.store j ≡ some t
    → (connect key p).1.store j ≡ some t
unfolding connect
connect_old key p j t fresh h = elim (Bool-cases (j == p.next)) [
  | inr e ↦ rw e h
  | inl e ↦ absurd (let k = fresh j (ground arith) in let l = sym k ∙ h in cc)
]

connect_cases :
    (key : Text) (p : Pool) (j : ℕ) (t : Transport)
    → (connect key p).1.store j ≡ some t
    → (t ≡ new_transport key) ⊎ (p.store j ≡ some t)
unfolding connect
connect_cases key p j t h = elim (Bool-cases (j == p.next)) [
  | inl e ↦ let k = (rw e at h) in inl (let l = sym k in cc)
  | inr e ↦ inr (rw e at h)
]

connect-IsFresh : (key : Text) (p : Pool) → IsFresh p → IsFresh (connect key p).1
unfolding connect
connect-IsFresh key p fresh j h =
    let other : (j == p.next) ≡ false = ground arith in rw other (fresh j (ground arith))

connect_entry :
    (key : Text) (p : Pool) (k : Text) (i : ℕ)
    → get k (connect key p).1.entries ≡ some i
    → ((key ≡ k) × (p.next ≡ i)) ⊎ (get k p.entries ≡ some i)
unfolding connect
connect_entry key p k i h = elim (put_cases key k p.next i p.entries h) [
  | inl e ↦ inl e
  | inr (_, e) ↦ inr e
]

connect-IsIndexed : (key : Text) (p : Pool) → IsPool p → IsIndexed (connect key p).1
connect-IsIndexed key p (bounded, indexed, fresh) k i h = elim (connect_entry key p k i h) [
  | inl (same, at) ↦ (
    new_transport key,
    subst (λ x. (connect key p).1.store x ≡ some (new_transport key)) at (connect_new key p),
    same,
  )
  | inr there ↦
      let (t, stored, own) = indexed k i there in (t, connect_old key p i t fresh stored, own)
]

pub connect-IsPool : (key : Text) (p : Pool) → IsPool p → IsPool (connect key p).1
connect-IsPool key p q = (
  (λ j t h. elim (connect_cases key p j t h) [ inl e ↦ rw e (ground arith) | inr e ↦ q.0 j t e ]),
  connect-IsIndexed key p q,
  connect-IsFresh key p q.2,
)

pub pick_cases :
    (key : Text) (p : Pool)
    → (pick key p ≡ connect key p)
      ⊎ ((i : ℕ) × (t : Transport) × (pick key p ≡ (i, p))
          × (get key p.entries ≡ some i)
          × (p.store i ≡ some t)
          × (t.usable ≡ true)
          × (t.is_gone ≡ false))
unfolding pick
pick_cases key p = elim (Option-cases (get key p.entries)) [
  | inl e ↦ inl (rw (pick, e) refl)
  | inr (i, e) ↦ elim (Option-cases (p.store i)) [
    | inl k ↦ inl (rw (pick, e, k) refl)
    | inr (t, k) ↦ elim (Bool-cases (t.usable && not t.is_gone)) [
      | inr l ↦ inl (rw (pick, e, k, l) refl)
      | inl l ↦ inr (i, t, rw (pick, e, k, l) refl, e, k, ground arith, ground arith)
    ]
  ]
]

pub pick-IsPool : (key : Text) (p : Pool) → IsPool p → IsPool (pick key p).1
pick-IsPool key p q = elim (pick_cases key p) [
  | inl e ↦ rw e (connect-IsPool key p q)
  | inr (i, t, e, _, _, _, _) ↦ rw e q
]
