-- ===== src/Worker.antt =====
-- A tick of the worker: `tick` and `disconnectUser` of backend/src/worker.js. What it starts is
-- emitted as events, in order; how the awaited calls end is an argument.
pub mod Ticks
use zvpn.Base.{
  ℕ, ◌+◌, Bool, true, false, Option, none, some, List, [], ◌∷◌, ◌++◌, Text, ◌===◌, ltb, keep, map,
  if◌then◌else◌,
}
use zvpn.Reconcile.Sessions.{Session}

pub data TickEvent : Type 0 where
  syncs_relay : TickEvent
  collects_xray : TickEvent
  stops_xray : TickEvent
  queues_sync : TickEvent
  reads_sessions : TickEvent
  records : Session → TickEvent
  enforces : List Session → TickEvent

pub record Worker : Type 0 where
  pub running : Bool
  pub last_relay_check : ℕ
  pub last_sessions : List Session

-- Whether a call succeeds; the sessions that are read, if they are.
pub record Host : Type 0 where
  pub collects : Bool
  pub reads : Option (List Session)
  pub takes : Session → Bool

abbrev pub hour_ms : ℕ
hour_ms = 3600000

abbrev pub is_relay_due : ℕ → Worker → Bool
is_relay_due now w = ltb (w.last_relay_check + hour_ms) now

-- The relay and Xray, whose errors are caught.
unfoldable pub before_sessions : Host → ℕ → Worker → List TickEvent
before_sessions h now w =
    (if is_relay_due now w then syncs_relay ∷ [] else [])
    ++ (if h.collects then collects_xray ∷ [] else collects_xray ∷ stops_xray ∷ queues_sync ∷ [])

-- The loop over the sessions, which the first error ends, and the limits behind it.
unfoldable pub record_then_enforce : Host → List Session → List Session → List TickEvent
record_then_enforce h all [] = enforces all ∷ []
record_then_enforce h all (s ∷ sessions) =
    let rest = record_then_enforce h all sessions in records s ∷ (if h.takes s then rest else [])

-- `tick`, from its start to its end; one that starts meanwhile finds `running` and does nothing.
unfoldable pub tick : Host → ℕ → Worker → Worker × List TickEvent
unfolding before_sessions record_then_enforce
tick h now w =
    if w.running
    then (w, [])
    else let checked = if is_relay_due now w then record w { last_relay_check = now } else w in
      let start = before_sessions h now w ++ reads_sessions ∷ [] in
      elim h.reads [
        | none ↦ (checked, start)
        | some sessions ↦ (
          record checked { last_sessions = sessions },
          start ++ record_then_enforce h sessions sessions,
        )
      ]

-- `disconnectUser`: the sessions that it ends; `name_of` is `remoteId`.
unfoldable pub disconnect_user : (Session → Text) → Text → Worker → List Session
disconnect_user name_of username w = keep (λ s. name_of s === username) w.last_sessions
