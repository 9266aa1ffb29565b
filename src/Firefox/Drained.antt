-- ===== src/Firefox/Drained.antt =====
-- The invariant of `TunnelPool` of ops/firefox/core.mjs, the reuse of transports, and their end.
use zvpn.Base.{
  ℕ, ◌≡◌, ◌≤◌, ◌<◌, ◌⊎◌, inl, inr, refl, sym, ◌∙◌, subst, Bool, true, false, not, ◌||◌, none, some,
  List, [], ◌∷◌, Text, get, ◌==◌, leb, keep, length, arith, Bool-cases, Option-cases, get-delete,
  length-keep-le,
}
use zvpn.Firefox.Tunnels.{
  Transport, Pool, Ready, pending, connected, failed, modify, session_error, session_close,
  session_goaway, session_connect, session_settings, session_timeout, stream_limit, streams_on,
  request, without_stream, stream_close, close_pool, is_in, forget_entry, tunnel_connect_timeout,
  TunnelError,
}
use zvpn.Firefox.Pooled.{
  PoolStep, PoolReached, at_start, after_step, IsPool, IsBounded, Keeps, modify-IsPool, pick-IsPool,
  picks, errors, closes, goes_away, connects, sets, times_out, requests, stream_closes, shuts,
}

no_entry : (k : Text) (i : ℕ) → get k [] ≡ some i → ⊥
unfolding get
no_entry k i h = cc

forget_entry_lem :
    (key : Text) (i : ℕ) (entries : List (Text × ℕ)) (k : Text) (j : ℕ)
    → get k (forget_entry key i entries) ≡ some j
    → get k entries ≡ some j
forget_entry_lem key i entries k j h = elim (Option-cases (get key entries)) [
  | inl e ↦ (rw (forget_entry, e) at h)
  | inr (n, e) ↦ elim (Bool-cases (i == n)) [
    | inr l ↦ (rw (forget_entry, e, l) at h)
    | inl l ↦
        let m = (rw (forget_entry, e, l) at h) in
        let n = sym (get-delete key k entries) ∙ m in ground arith
  ]
]

session_timeout-Keeps :
    (i : ℕ) (p : Pool)
    → Keeps i p (λ t. elim t.ready [
      | pending ↦ record t { is_gone = true; ready = failed tunnel_connect_timeout }
      | connected ↦ t
      | failed e ↦ t
    ])
session_timeout-Keeps i p t k h = ground arith

without_stream-Keeps : (i : ℕ) (p : Pool) (stream : ℕ) → Keeps i p (without_stream stream)
unfolding without_stream
without_stream-Keeps i p stream t k h =
    let fewer = length-keep-le (λ s. not (s == stream)) t.streams in (omega arith, refl)

forgotten-IsPool :
    (p : Pool) (entries : List (Text × ℕ)) (all : List ℕ)
    → ((k : Text) (j : ℕ) → get k entries ≡ some j → get k p.entries ≡ some j)
    → IsPool p
    → IsPool (record p { entries = entries; all = all })
forgotten-IsPool p entries all sub (bounded, indexed, fresh) =
    (bounded, (λ k j h. indexed k j (sub k j h)), fresh)

session_close-IsPool : (i : ℕ) (p : Pool) → IsPool p → IsPool (session_close i p)
unfolding session_close
session_close-IsPool i p q = elim (Option-cases (p.store i)) [
  | inl e ↦ rw (session_close, e) q
  | inr (t, e) ↦
      rw (session_close, e)
        (modify-IsPool i _
          (record p {
            all = keep (λ j. not (j == i)) p.all;
            entries = forget_entry t.key i p.entries;
          })
          (λ u k h. (h, refl))
          (forgotten-IsPool p (forget_entry t.key i p.entries) (keep (λ j. not (j == i)) p.all)
            (λ k j h. forget_entry_lem t.key i p.entries k j h) q))
]

ready_cases : (r : Ready) → ((r ≡ pending) ⊎ ((e : TunnelError) × (r ≡ failed e))) ⊎ (r ≡ connected)
ready_cases pending = inl (inl refl)
ready_cases connected = inr refl
ready_cases (failed e) = inl (inr (e, refl))

request_lem :
    (i stream : ℕ) (succeeds : Bool) (p p' : Pool)
    → request i stream succeeds p ≡ streams_on p'
    → (t : Transport) × (p.store i ≡ some t)
      × (t.ready ≡ connected)
      × (t.usable ≡ true)
      × (t.is_gone ≡ false)
      × (length t.streams < stream_limit t)
      × (p' ≡ modify i (λ t. record t { streams = stream ∷ t.streams }) p)
unfolding request
request_lem i stream succeeds p p' h = elim (Option-cases (p.store i)) [
  | inl e ↦ absurd (let k = (rw (request, e) at h) in cc)
  | inr (t, e) ↦ elim (ready_cases t.ready) [
    | inl (inl k) ↦ absurd (let l = (rw (request, e, k) at h) in cc)
    | inl (inr (x, k)) ↦ absurd (let l = (rw (request, e, k) at h) in cc)
    | inr k ↦ elim (Bool-cases (not t.usable || t.is_gone)) [
      | inl l ↦ absurd (let m = (rw (request, e, k, l) at h) in cc)
      | inr l ↦ elim (Bool-cases (leb (stream_limit t) (length t.streams))) [
        | inl m ↦ absurd (let n = (rw (request, e, k, l, m) at h) in cc)
        | inr m ↦ elim (Bool-cases succeeds) [
          | inr n ↦ absurd (let o = (rw (request, e, k, l, m, n) at h) in cc)
          | inl n ↦
              let o = (rw (request, e, k, l, m, n) at h) in
              (t, e, k, ground arith, ground arith, ground arith, (let made = sym o in cc))
        ]
      ]
    ]
  ]
]

closed_bounded :
    (p : Pool)
    → IsBounded p
    → (j : ℕ) (t : Transport) → (close_pool p).store j ≡ some t
    → length t.streams ≤ 64
unfolding close_pool
closed_bounded p bounded j t h = elim (Bool-cases (is_in j p.all)) [
  | inr e ↦ bounded j t (rw e at h)
  | inl e ↦ elim (Option-cases (p.store j)) [
    | inl k ↦ absurd (let l = (rw (e, k) at h) in cc)
    | inr (was, k) ↦
        let l = (rw (e, k) at h) in
        let same : was.streams ≡ t.streams = cc in subst (λ x. length x ≤ 64) same (bounded j was k)
  ]
]

closed_gone : (p : Pool) (j : ℕ) → p.store j ≡ none → (close_pool p).store j ≡ none
unfolding close_pool
closed_gone p j h = elim (Bool-cases (is_in j p.all)) [
  | inl e ↦ rw (e, h) refl
  | inr e ↦ rw (e, h) refl
]

close_pool-IsPool : (p : Pool) → IsPool p → IsPool (close_pool p)
unfolding close_pool
close_pool-IsPool p (bounded, indexed, fresh) = (
  (λ j t h. closed_bounded p bounded j t h),
  (λ k i h. absurd (no_entry k i h)),
  (λ j h. closed_gone p j (fresh j h)),
)

request-Keeps :
    (i stream : ℕ) (p : Pool) (t : Transport)
    → p.store i ≡ some t
    → length t.streams < stream_limit t
    → Keeps i p (λ t. record t { streams = stream ∷ t.streams })
unfolding stream_limit
request-Keeps i stream p t e h u k l =
    let same : t ≡ u = (let m = sym e ∙ k in cc) in
    let fewer = subst (λ x. length x.streams < stream_limit x) same h in (ground arith, refl)

PoolStep-IsPool : (p p' : Pool) → PoolStep p p' → IsPool p → IsPool p'
unfolding session_error session_goaway session_connect session_settings session_timeout stream_close
PoolStep-IsPool p _ (picks key _) q = pick-IsPool key p q
PoolStep-IsPool p _ (errors i _) q = modify-IsPool i _ p (λ t k h. (h, refl)) q
PoolStep-IsPool p _ (closes i _) q = session_close-IsPool i p q
PoolStep-IsPool p _ (goes_away i _) q = modify-IsPool i _ p (λ t k h. (h, refl)) q
PoolStep-IsPool p _ (connects i _) q = modify-IsPool i _ p (λ t k h. (h, refl)) q
PoolStep-IsPool p _ (sets i limit _) q = modify-IsPool i _ p (λ t k h. (h, refl)) q
PoolStep-IsPool p _ (times_out i _) q = modify-IsPool i _ p (session_timeout-Keeps i p) q
PoolStep-IsPool p _ (requests i stream succeeds _ p' h) q =
    let (t, e, _, _, _, fewer, made) = request_lem i stream succeeds p p' h in
    rw made (modify-IsPool i _ p (request-Keeps i stream p t e fewer) q)
PoolStep-IsPool p _ (stream_closes i stream _) q =
    modify-IsPool i _ p (without_stream-Keeps i p stream) q
PoolStep-IsPool p _ (shuts _) q = close_pool-IsPool p q

-- After any sequence of opened tunnels and callbacks of transports and streams, no transport has
-- more than 64 streams, and every transport that the map has for an endpoint is one of this
-- endpoint.
pub PoolReached-IsPool : (p : Pool) → PoolReached p → IsPool p
PoolReached-IsPool _ at_start =
    ((λ i t h. absurd (ground arith)), (λ k i h. absurd (no_entry k i h)), (λ j h. refl))
PoolReached-IsPool p (after_step q _ r s) = PoolStep-IsPool q p s (PoolReached-IsPool q r)
