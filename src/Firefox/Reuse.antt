-- ===== src/Firefox/Reuse.antt =====
-- The reuse of a transport of `TunnelPool` of ops/firefox/core.mjs, its end after GOAWAY, and the
-- promise of a stream.
use zvpn.Base.{
  ℕ, ◌≡◌, ◌≢◌, inl, inr, refl, sym, ap, ◌∙◌, subst, Bool, true, false, not, ◌&&◌, ◌||◌, some, List,
  [], ◌∷◌, ◌++◌, Text, get, ◌==◌, keep, arith, Bool-cases, get-put_self,
}
use zvpn.Firefox.Tunnels.{
  Transport, Pool, new_transport, connect, pick, session_goaway, without_stream, stream_close,
  is_in, has_none, tunnel_closed, TunnelError, Stream, StreamEvent, on_stream, Settled, waiting,
  resolved, rejected, settle, stream_responds, stream_ends, stream_errors, stream_times_out,
  service, connect_timeout, stream_error,
}
use zvpn.Firefox.Pooled.{PoolReached, pick_cases, connect_new, modify_there}
use zvpn.Firefox.Drained.{PoolReached-IsPool}
use zvpn.Firefox.{service_error}

pick_usable :
    (key : Text) (p : Pool) (i : ℕ) (t : Transport)
    → get key p.entries ≡ some i
    → p.store i ≡ some t
    → t.usable ≡ true
    → t.is_gone ≡ false
    → pick key p ≡ (i, p)
unfolding pick
pick_usable key p i t e k u g = rw (pick, e, k, u, g) refl

pick_new : (key : Text) (p : Pool) → pick key (connect key p).1 ≡ connect key p
unfolding connect
pick_new key p =
    pick_usable key (connect key p).1 p.next (new_transport key) (get-put_self key p.next p.entries)
      (connect_new key p) refl refl

-- The transport that the pool picks for an endpoint, in any pool that is reached, is one of this
-- endpoint, usable and open, and picking again finds the same one and changes nothing.
pub pick-reuses :
    (key : Text) (p : Pool)
    → PoolReached p
    → (t : Transport) × ((pick key p).1.store (pick key p).0 ≡ some t)
      × (t.key ≡ key)
      × (t.usable ≡ true)
      × (t.is_gone ≡ false)
      × (pick key (pick key p).1 ≡ pick key p)
unfolding connect
pick-reuses key p r = elim (pick_cases key p) [
  | inr (i, t, e, entry, there, usable, open_) ↦
      let (t₁, there₁, own) = (PoolReached-IsPool p r).1 key i entry in
      let same : t₁ ≡ t = (let k = sym there₁ ∙ there in cc) in
      (t, rw e there, (subst (λ x. x.key ≡ key) same own), usable, open_, rw e e)
  | inl e ↦ (new_transport key, rw e (connect_new key p), refl, refl, refl, rw e (pick_new key p))
]

-- The streams of a transport end one after another, in some order.
abbrev pub all_end : List ℕ → Transport → Transport
all_end [] t = t
all_end (s ∷ streams) t = all_end streams (without_stream s t)

abbrev pub end_streams : ℕ → List ℕ → Pool → Pool
end_streams i [] p = p
end_streams i (s ∷ streams) p = end_streams i streams (stream_close i s p)

-- An unusable transport is closed where it has no stream.
abbrev Drains : Transport → Type 0
Drains t = (t.usable ≡ false) × ((has_none t.streams || t.is_gone) ≡ t.is_gone)

without_stream-Drains : (s : ℕ) (t : Transport) → Drains t → Drains (without_stream s t)
unfolding without_stream
without_stream-Drains s t (u, d) = ground arith

keep-keep : (p q : ℕ → Bool) (xs : List ℕ) → keep p (keep q xs) ≡ keep (λ x. q x && p x) xs
keep-keep p q [] = refl
keep-keep p q (x ∷ xs) = let rest = keep-keep p q xs in ground arith

keep_everything : (xs : List ℕ) → keep (λ s. true) xs ≡ xs
keep_everything [] = refl
keep_everything (x ∷ xs) = ap (◌∷◌ x) (keep_everything xs)

keep_same : (p q : ℕ → Bool) → ((x : ℕ) → p x ≡ q x) → (xs : List ℕ) → keep p xs ≡ keep q xs
keep_same p q h [] = refl
keep_same p q h (x ∷ xs) = rw (h x, keep_same p q h xs) refl

left_streams :
    (s : ℕ) (streams : List ℕ) (t : Transport)
    → keep (λ x. not (is_in x streams)) (without_stream s t).streams
      ≡ keep (λ x. not (is_in x (s ∷ streams))) t.streams
unfolding without_stream
left_streams s streams t =
    keep-keep (λ x. not (is_in x streams)) (λ x. not (x == s)) t.streams
    ∙ keep_same _ _ (λ x. ground arith) t.streams

all_end-Drains :
    (streams : List ℕ) (t : Transport)
    → Drains t
    → Drains (all_end streams t)
      × ((all_end streams t).streams ≡ keep (λ s. not (is_in s streams)) t.streams)
all_end-Drains [] t d = (d, sym (keep_everything t.streams))
all_end-Drains (s ∷ streams) t d =
    let (drains, left) =
      all_end-Drains streams (without_stream s t) (without_stream-Drains s t d) in
    (drains, left ∙ left_streams s streams t)

same_number : (n : ℕ) → (n == n) ≡ true
same_number n = ground arith

end_streams_at :
    (i : ℕ) (streams : List ℕ) (p : Pool) (t : Transport)
    → p.store i ≡ some t
    → (end_streams i streams p).store i ≡ some (all_end streams t)
unfolding stream_close
end_streams_at i [] p t h = h
end_streams_at i (s ∷ streams) p t h =
    end_streams_at i streams (stream_close i s p) (without_stream s t)
      (modify_there i (without_stream s) p i t h ∙ rw (same_number i) refl)

goaway_at :
    (i : ℕ) (p : Pool) (t : Transport)
    → p.store i ≡ some t
    → (session_goaway i p).store i
      ≡ some (record t { usable = false; is_gone = t.is_gone || has_none t.streams })
unfolding session_goaway
goaway_at i p t h = modify_there i _ p i t h ∙ rw (same_number i) refl

-- After GOAWAY, once all streams of a transport have ended, in any order and among others, the
-- transport is unusable and closed, and has no stream.
pub goaway-drains :
    (i : ℕ) (p : Pool) (t : Transport)
    → p.store i ≡ some t
    → (streams : List ℕ) → keep (λ s. not (is_in s streams)) t.streams ≡ []
    → (t' : Transport) × ((end_streams i streams (session_goaway i p)).store i ≡ some t')
      × (t'.usable ≡ false)
      × (t'.is_gone ≡ true)
      × (t'.streams ≡ [])
goaway-drains i p t h streams all =
    let u : Transport = record t { usable = false; is_gone = t.is_gone || has_none t.streams } in
    let (drains, left) = all_end-Drains streams u (refl, ground arith) in
    let gone = left ∙ all in
    (
      all_end streams u,
      end_streams_at i streams (session_goaway i p) u (goaway_at i p t h),
      drains.0,
      sym (ap (λ x. has_none x || (all_end streams u).is_gone) (sym gone) ∙ drains.1),
      gone,
    )

abbrev pub new_stream : Stream
new_stream = record { ready = false; settled = waiting }

abbrev pub run_stream : List StreamEvent → Stream → Stream
run_stream [] s = s
run_stream (e ∷ events) s = run_stream events (on_stream e s)

-- A stream that is ready has its promise settled.
abbrev IsTold : Stream → Type 0
IsTold s = s.ready ≡ true → s.settled ≢ waiting

settle_ne : (a b : Settled) → b ≢ waiting → settle a b ≢ waiting
settle_ne waiting b h = h
settle_ne resolved b h = λ e. cc
settle_ne (rejected x) b h = λ e. cc

rejected_ne : (e : TunnelError) → rejected e ≢ waiting
rejected_ne e k = cc

resolved_ne : resolved ≢ waiting
resolved_ne k = cc

on_stream-IsTold : (e : StreamEvent) (s : Stream) → IsTold s → IsTold (on_stream e s)
unfolding on_stream
on_stream-IsTold stream_errors s h = elim (Bool-cases s.ready) [
  | inl e ↦ rw e (λ r. h e)
  | inr e ↦ rw e (λ r. settle_ne s.settled _ (rejected_ne stream_error))
]
on_stream-IsTold (stream_responds status) s h = elim (Bool-cases (status == 200)) [
  | inl e ↦ rw e (λ r. settle_ne s.settled _ resolved_ne)
  | inr e ↦ rw e (λ r. settle_ne s.settled _ (rejected_ne (service (service_error status false))))
]
on_stream-IsTold stream_times_out s h = λ r. settle_ne s.settled _ (rejected_ne connect_timeout)
on_stream-IsTold stream_ends s h = elim (Bool-cases s.ready) [
  | inl e ↦ rw e (λ r. h e)
  | inr e ↦ rw e (λ r. settle_ne s.settled _ (rejected_ne tunnel_closed))
]

settle_stays : (a b : Settled) → a ≢ waiting → settle a b ≡ a
settle_stays waiting b h = absurd (h refl)
settle_stays resolved b h = refl
settle_stays (rejected e) b h = refl

stays_settled :
    (e : StreamEvent) (s : Stream) → s.settled ≢ waiting → (on_stream e s).settled ≡ s.settled
unfolding on_stream
stays_settled stream_errors s h = elim (Bool-cases s.ready) [
  | inl e ↦ rw e refl
  | inr e ↦ rw e (settle_stays s.settled _ h)
]
stays_settled (stream_responds status) s h = elim (Bool-cases (status == 200)) [
  | inl e ↦ rw e (settle_stays s.settled _ h)
  | inr e ↦ rw e (settle_stays s.settled _ h)
]
stays_settled stream_times_out s h = settle_stays s.settled _ h
stays_settled stream_ends s h = elim (Bool-cases s.ready) [
  | inl e ↦ rw e refl
  | inr e ↦ rw e (settle_stays s.settled _ h)
]

ends_settled : (s : Stream) → IsTold s → (on_stream stream_ends s).settled ≢ waiting
unfolding on_stream
ends_settled s h = elim (Bool-cases s.ready) [
  | inl e ↦ rw e (h e)
  | inr e ↦ rw e (settle_ne s.settled _ (rejected_ne tunnel_closed))
]

run_stream-IsTold :
    (events : List StreamEvent) (s : Stream) → IsTold s → IsTold (run_stream events s)
run_stream-IsTold [] s h = h
run_stream-IsTold (e ∷ events) s h =
    run_stream-IsTold events (on_stream e s) (on_stream-IsTold e s h)

run_settled :
    (events : List StreamEvent) (s : Stream)
    → s.settled ≢ waiting
    → (run_stream events s).settled ≡ s.settled
run_settled [] s h = refl
run_settled (e ∷ events) s h =
    let same = stays_settled e s h in
    run_settled events (on_stream e s) (λ w. h (sym same ∙ w)) ∙ same

run-append :
    (xs ys : List StreamEvent) (s : Stream)
    → run_stream (xs ++ ys) s ≡ run_stream ys (run_stream xs s)
run-append [] ys s = refl
run-append (x ∷ xs) ys s = run-append xs ys (on_stream x s)

-- Whatever happens to a stream before and after, its promise is settled when it ends, and what it is
-- settled with does not change afterwards: nobody waits for a stream that is gone.
pub stream_ends-settled :
    (before after : List StreamEvent)
    → (let ended = run_stream (before ++ stream_ends ∷ []) new_stream in
        (ended.settled ≢ waiting) × ((run_stream after ended).settled ≡ ended.settled))
stream_ends-settled before after =
    let told = run_stream-IsTold before new_stream (λ e. absurd (ground arith)) in
    let done =
      subst (λ s. s.settled ≢ waiting) (sym (run-append before (stream_ends ∷ []) new_stream))
        (ends_settled (run_stream before new_stream) told) in
    (done, run_settled after _ done)
