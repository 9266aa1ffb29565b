-- ===== src/Worker/Ticks.antt =====
-- What a tick of backend/src/worker.js has done when it ends.
use zvpn.Base.{
  inr, inl, ℕ, ◌≡◌, refl, ap, ◌∙◌, Bool, true, false, none, some, List, [], ◌∷◌, ◌++◌, any, every,
  map, Bool-cases, arith, any-append,
}
use zvpn.Reconcile.Sessions.{Session}
use zvpn.Worker.{
  TickEvent, reads_sessions, records, enforces, Worker, Host, before_sessions, record_then_enforce,
  tick, is_relay_due,
}

abbrev pub is_enforcement : TickEvent → Bool
is_enforcement (enforces sessions) = true
is_enforcement _ = false

abbrev pub all_taken : Host → Bool
all_taken h = elim h.reads [ none ↦ false | some sessions ↦ every h.takes sessions ]

none_before :
    (h : Host) (now : ℕ) (w : Worker) → any is_enforcement (before_sessions h now w) ≡ false
unfolding before_sessions
none_before h now w = elim (Bool-cases (is_relay_due now w)) [
  | inl e ↦ elim (Bool-cases h.collects) [
    | inl k ↦ rw (before_sessions, e, k) refl
    | inr k ↦ rw (before_sessions, e, k) refl
  ]
  | inr e ↦ elim (Bool-cases h.collects) [
    | inl k ↦ rw (before_sessions, e, k) refl
    | inr k ↦ rw (before_sessions, e, k) refl
  ]
]

any_loop :
    (h : Host) (all sessions : List Session)
    → any is_enforcement (record_then_enforce h all sessions) ≡ every h.takes sessions
unfolding record_then_enforce
any_loop h all [] = refl
any_loop h all (s ∷ sessions) = elim (Bool-cases (h.takes s)) [
  | inl e ↦ rw e (any_loop h all sessions)
  | inr e ↦ rw e refl
]

loop_all :
    (h : Host) (all sessions : List Session)
    → every h.takes sessions ≡ true
    → record_then_enforce h all sessions ≡ map records sessions ++ enforces all ∷ []
unfolding record_then_enforce
loop_all h all [] e = refl
loop_all h all (s ∷ sessions) e =
    let taken : h.takes s ≡ true = ground arith in
    rw taken (ap (◌∷◌ (records s)) (loop_all h all sessions (ground arith)))

-- A tick that is not already running, when it reads the sessions: the limits are enforced exactly if
-- every session was recorded, and then each session is recorded once, in order, after the relay and
-- Xray and before the limits, which are enforced on the very sessions that were read.
pub tick-enforces :
    (h : Host) (now : ℕ) (w : Worker) (sessions : List Session)
    → w.running ≡ false
    → h.reads ≡ some sessions
    → (any is_enforcement (tick h now w).1 ≡ every h.takes sessions)
      × (every h.takes sessions ≡ true
          → (tick h now w).1
            ≡ (before_sessions h now w ++ reads_sessions ∷ [])
              ++ (map records sessions ++ enforces sessions ∷ []))
unfolding tick
tick-enforces h now w sessions e k =
    let start = before_sessions h now w ++ reads_sessions ∷ [] in
    let events : (tick h now w).1 ≡ start ++ record_then_enforce h sessions sessions =
      rw (tick, e, k) refl in
    let quiet : any is_enforcement start ≡ false =
      any-append is_enforcement (before_sessions h now w) (reads_sessions ∷ [])
      ∙ rw (none_before h now w) refl in
    (
      ap (any is_enforcement) events
          ∙ any-append is_enforcement start (record_then_enforce h sessions sessions)
          ∙ rw quiet (any_loop h sessions sessions),
      (λ all. events ∙ ap (λ x. start ++ x) (loop_all h sessions sessions all)),
    )
