-- ===== src/Firefox/Tunnels.antt =====
-- `TunnelPool` of ops/firefox/core.mjs: its transports and streams as a state, and each callback as
-- a step. A transport is named by the number of transports before it.
use zvpn.Base.{
  ℕ, suc, Bool, true, false, not, ◌&&◌, ◌||◌, Option, none, some, List, [], ◌∷◌, ◌++◌, Text, get,
  put, delete, ◌==◌, leb, keep, length, min, if◌then◌else◌,
}
use zvpn.Firefox.{ServiceError, service_error}

pub data TunnelError : Type 0 where
  connect_timeout : TunnelError
  tunnel_connect_timeout : TunnelError
  network_error : TunnelError
  tunnel_closed : TunnelError
  tunnel_busy : TunnelError
  stream_error : TunnelError
  service : ServiceError → TunnelError

-- The promise `ready` of a transport.
pub data Ready : Type 0 where
  pending : Ready
  connected : Ready
  failed : TunnelError → Ready

-- `is_gone` is a session that is closed or destroyed.
pub record Transport : Type 0 where
  pub key : Text
  pub usable : Bool
  pub is_gone : Bool
  pub streams : List ℕ
  pub ready : Ready
  pub max_streams : Option ℕ

pub record Pool : Type 0 where
  pub entries : List (Text × ℕ)
  pub all : List ℕ
  pub store : ℕ → Option Transport
  pub next : ℕ

abbrev pub empty_pool : Pool
empty_pool = record { entries = []; all = []; store = λ i. none; next = 0 }

abbrev pub on_some {ℓ} : {A : Type ℓ} → (A → A) → Option A → Option A
on_some f none = none
on_some f (some a) = some (f a)

unfoldable pub modify : ℕ → (Transport → Transport) → Pool → Pool
modify i f p = record p { store = λ j. if j == i then on_some f (p.store j) else p.store j }

abbrev pub new_transport : Text → Transport
new_transport key = record {
  key = key;
  usable = true;
  is_gone = false;
  streams = [];
  ready = pending;
  max_streams = none;
}

unfoldable pub connect : Text → Pool → ℕ × Pool
connect key p = (
  p.next,
  record {
    entries = put key p.next p.entries;
    all = p.all ++ p.next ∷ [];
    store = λ j. if j == p.next then some (new_transport key) else p.store j;
    next = suc p.next;
  },
)

-- The first part of `open`: the transport of the endpoint, or a new one.
unfoldable pub pick : Text → Pool → ℕ × Pool
unfolding connect
pick key p = elim (get key p.entries) [
  | none ↦ connect key p
  | some i ↦ elim (p.store i) [
    | none ↦ connect key p
    | some t ↦ if t.usable && not t.is_gone then (i, p) else connect key p
  ]
]

abbrev pub reject : TunnelError → Ready → Ready
reject e pending = failed e
reject e connected = connected
reject e (failed e') = failed e'

abbrev pub resolve : Ready → Ready
resolve pending = connected
resolve connected = connected
resolve (failed e) = failed e

-- `session.on('error')`, with the rejection of `ready`.
unfoldable pub session_error : ℕ → Pool → Pool
unfolding modify
session_error i = modify i λ t. record t { usable = false; ready = reject network_error t.ready }

abbrev pub forget_entry : Text → ℕ → List (Text × ℕ) → List (Text × ℕ)
forget_entry key i entries = elim (get key entries) [
  | none ↦ entries
  | some j ↦ if i == j then delete key entries else entries
]

-- `session.on('close')`.
unfoldable pub session_close : ℕ → Pool → Pool
unfolding modify
session_close i p = elim (p.store i) [
  | none ↦ p
  | some t ↦
      modify i
        (λ t. record t { usable = false; is_gone = true; ready = reject tunnel_closed t.ready })
        (record p {
          all = keep (λ j. not (j == i)) p.all;
          entries = forget_entry t.key i p.entries;
        })
]

abbrev pub has_none {ℓ} : {A : Type ℓ} → List A → Bool
has_none [] = true
has_none (x ∷ xs) = false

-- `session.on('goaway')`.
unfoldable pub session_goaway : ℕ → Pool → Pool
unfolding modify
session_goaway i =
    modify i λ t. record t { usable = false; is_gone = t.is_gone || has_none t.streams }

-- `session.once('connect')`, and the settings that the other side sends.
unfoldable pub session_connect : ℕ → Pool → Pool
unfolding modify
session_connect i = modify i λ t. record t { ready = resolve t.ready }

unfoldable pub session_settings : ℕ → Option ℕ → Pool → Pool
unfolding modify
session_settings i limit = modify i λ t. record t { max_streams = limit }

-- The timer of the connection, while it is pending.
unfoldable pub session_timeout : ℕ → Pool → Pool
unfolding modify
session_timeout i = modify i λ t. elim t.ready [
  | pending ↦ record t { is_gone = true; ready = failed tunnel_connect_timeout }
  | connected ↦ t
  | failed e ↦ t
]

unfoldable pub stream_limit : Transport → ℕ
stream_limit t = min 64 (elim t.max_streams [ none ↦ 64 | some n ↦ n ])

-- The second part of `open`, once `ready` is settled, up to the request, whose success is given: the
-- error that it throws, or the pool with the stream.
pub data Requested : Type 0 where
  waits : Requested
  throws : TunnelError → Requested
  streams_on : Pool → Requested

unfoldable pub request : ℕ → ℕ → Bool → Pool → Requested
unfolding stream_limit modify
request i stream succeeds p = elim (p.store i) [
  | none ↦ waits
  | some t ↦ elim t.ready [
    | pending ↦ waits
    | failed e ↦ throws e
    | connected ↦
        if not t.usable || t.is_gone
        then throws tunnel_closed
        else if leb (stream_limit t) (length t.streams)
        then throws tunnel_busy
        else if not succeeds
        then throws stream_error
        else streams_on (modify i (λ t. record t { streams = stream ∷ t.streams }) p)
  ]
]

-- The `close` of a stream: an unusable transport without streams is closed.
unfoldable pub without_stream : ℕ → Transport → Transport
without_stream stream t =
    let left = keep (λ s. not (s == stream)) t.streams in
    record t { streams = left; is_gone = t.is_gone || not t.usable && has_none left }

unfoldable pub stream_close : ℕ → ℕ → Pool → Pool
unfolding modify without_stream
stream_close i stream = modify i (without_stream stream)

abbrev pub is_in : ℕ → List ℕ → Bool
is_in i [] = false
is_in i (j ∷ js) = i == j || is_in i js

-- `close()`: every transport that is left is destroyed.
unfoldable pub close_pool : Pool → Pool
close_pool p = record p {
  entries = [];
  all = [];
  store = λ j.
      if is_in j p.all
      then on_some (λ t. record t { usable = false; is_gone = true }) (p.store j)
      else p.store j;
}

-- The promise of a stream: `ready`, and what it was settled with, if it was.
pub data Settled : Type 0 where
  waiting : Settled
  resolved : Settled
  rejected : TunnelError → Settled

pub record Stream : Type 0 where
  pub ready : Bool
  pub settled : Settled

pub data StreamEvent : Type 0 where
  stream_errors : StreamEvent
  stream_responds : ℕ → StreamEvent
  stream_times_out : StreamEvent
  stream_ends : StreamEvent

abbrev pub settle : Settled → Settled → Settled
settle waiting outcome = outcome
settle resolved outcome = resolved
settle (rejected e) outcome = rejected e

-- The callbacks of a stream.
unfoldable pub on_stream : StreamEvent → Stream → Stream
on_stream stream_errors s =
    if s.ready then s else record s { settled = settle s.settled (rejected stream_error) }
on_stream (stream_responds status) s =
    if not (status == 200)
    then record s { settled = settle s.settled (rejected (service (service_error status false))) }
    else record { ready = true; settled = settle s.settled resolved }
on_stream stream_times_out s = record s { settled = settle s.settled (rejected connect_timeout) }
on_stream stream_ends s =
    if s.ready then s else record s { settled = settle s.settled (rejected tunnel_closed) }
