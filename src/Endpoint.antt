-- ===== src/Endpoint.antt =====
-- backend/src/services/vpnEndpointManager.js: the validation of a change of the VPN endpoint, and
-- its application with rollback. What the helper commands, the name resolution and the settings
-- store answer is an argument; the calls that change something are emitted in order. The endpoint
-- comes normalised.
pub mod Rollback
use zvpn.Base.{
  ℕ, ◌+◌, ◌-◌, ◌≡◌, Bool, true, false, not, ◌&&◌, ◌||◌, Option, none, some, List, [], ◌∷◌, ◌++◌,
  ◌⊎◌, inl, inr, Text, codes, ◌===◌, is_empty, leb, ◌==◌, any, if◌then◌else◌,
}
use zvpn.Reconcile.{trim}

-- What `normalizeEndpoint` returns.
pub record Parsed : Type 0 where
  pub endpoint : Text
  pub is_ip : Bool
  pub remote_id : Text
  pub server_address : Text

pub record Certificate : Type 0 where
  pub cn : Option Text
  pub san : List Text
  pub leftid : Option Text

pub record Current : Type 0 where
  pub server_address : Text
  pub remote_id : Text

-- `toLowerCase` as far as its value is ASCII: the capital letters and the Kelvin sign.
abbrev pub lower_code : ℕ → ℕ
lower_code c = if leb 65 c && leb c 90 then c + 32 else if c == 8490 then 107 else c

unfoldable pub lower : Text → Text
lower [] = []
lower (c ∷ t) = lower_code c ∷ lower t

-- The /i flag on letters of ASCII.
abbrev pub same_letter : ℕ → ℕ → Bool
same_letter a b =
    a == b || leb 65 a && leb a 90 && a + 32 == b || leb 65 b && leb b 90 && b + 32 == a

-- The text behind a prefix, if it has it.
unfoldable pub behind : Text → Text → Option Text
behind [] t = some t
behind (a ∷ p) [] = none
behind (a ∷ p) (b ∷ t) = if same_letter a b then behind p t else none

-- `replace(/^…/i, '')`
unfoldable pub strip : Text → Text → Text
unfolding behind
strip prefix t = elim (behind prefix t) [ none ↦ t | some rest ↦ rest ]

unfoldable pub value_matches : Parsed → Text → Bool
unfolding strip lower
value_matches p v =
    if p.is_ip
    then trim (strip (codes "IP:") (strip (codes "IP Address:") v)) === p.endpoint
    else lower (trim (strip (codes "DNS:") v)) === lower p.endpoint

-- Empty values are left out; without a CN nothing matches.
unfoldable pub cert_matches_endpoint : Certificate → Parsed → Bool
unfolding value_matches
cert_matches_endpoint cert p = elim cert.cn [
  | none ↦ false
  | some cn ↦ not (is_empty cn) && any (λ v. not (is_empty v) && value_matches p v) (cn ∷ cert.san)
]

pub record Validation : Type 0 where
  pub dns_ok : Bool
  pub unchanged : Bool
  pub needs_new_cert : Bool
  pub needs_leftid_update : Bool
  pub certificate : Certificate
  pub current : Current

abbrev pub is_text : Option Text → Text → Bool
is_text none t = false
is_text (some s) t = s === t

unfoldable pub validate_endpoint_change : Parsed → Certificate → Current → Bool → Validation
unfolding cert_matches_endpoint
validate_endpoint_change p cert current resolves =
    let needs_leftid = not (is_text cert.leftid p.remote_id) in
    let needs_settings =
      not (current.server_address === p.server_address)
      || not (current.remote_id === p.remote_id) in
    record {
      dns_ok = p.is_ip || resolves;
      unchanged = not needs_settings && not needs_leftid;
      needs_new_cert = not (cert_matches_endpoint cert p);
      needs_leftid_update = needs_leftid;
      certificate = cert;
      current = current;
    }

pub data EndpointError : Type 0 where
  unchanged : EndpointError
  cert_confirm_required : EndpointError
  dns_failed : EndpointError
  health_failed : EndpointError
  -- a helper command, the relay or the settings store failed
  call_failed : Text → EndpointError

pub data Call : Type 0 where
  endpoint_backup : Call
  issue_server_cert : Text → Call
  set_leftid : Text → Call
  normalize_conn : Call
  sync_ike_relay : Call
  restart_strongswan : Call
  update_settings : Text → Text → Call
  endpoint_rollback : Text → Call

-- `none` is success; a backup answers its path.
pub record Answers : Type 0 where
  pub backup : Text ⊎ Text
  pub issues_cert : Option Text
  pub sets_leftid : Option Text
  pub normalizes : Option Text
  pub syncs_relay : Option Text
  pub restarts : Option Text
  pub updates : Option Text
  pub reads_cert : Option Text
  pub ports_open : Bool
  pub strongswan_up : Bool
  pub rolls_back : Option Text
  pub records_applied : Option Text
  pub records_failed : Option Text

pub record Applied : Type 0 where
  pub calls : List Call
  pub settings : Current
  -- the rows written to `vpn_endpoint_history`: applied or failed
  pub history : List Bool
  -- `none` is success
  pub error : Option EndpointError

-- A run up to a throw: the calls so far, the settings, and the error if one was thrown.
pub record Progress : Type 0 where
  pub calls : List Call
  pub settings : Current
  pub error : Option EndpointError

-- An awaited call, unless the run has thrown.
unfoldable pub and_then : Call → Option Text → Progress → Progress
and_then call answer r = elim r.error [
  | some e ↦ r
  | none ↦ record r {
    calls = r.calls ++ call ∷ [];
    error = elim answer [ none ↦ none | some message ↦ some (call_failed message) ];
  }
]

abbrev pub stored : Parsed → Progress → Progress
stored p r = elim r.error [
  | some e ↦ r
  | none ↦ record r {
    settings = record { server_address = p.server_address; remote_id = p.remote_id };
  }
]

abbrev pub only_if : Bool → (Progress → Progress) → Progress → Progress
only_if true f r = f r
only_if false f r = r

-- Reading the certificate, and the health check.
unfoldable pub checked : Answers → Progress → Progress
checked a r = elim r.error [
  | some e ↦ r
  | none ↦ record r {
    error = elim a.reads_cert [
      | some message ↦ some (call_failed message)
      | none ↦ if a.ports_open && a.strongswan_up then none else some health_failed
    ];
  }
]

-- The `try` block behind the backup.
unfoldable pub change_host : Parsed → Validation → Answers → Current → Progress
unfolding and_then checked
change_host p v a settings =
    let start : Progress = record {
      calls = endpoint_backup ∷ [];
      settings = settings;
      error = none;
    } in
    let certified =
      only_if v.needs_new_cert (and_then (issue_server_cert p.remote_id) a.issues_cert) start in
    let configured =
      and_then normalize_conn a.normalizes
        (and_then (set_leftid p.remote_id) a.sets_leftid certified) in
    let restarted =
      and_then restart_strongswan a.restarts (and_then sync_ike_relay a.syncs_relay configured) in
    checked a
      (stored p (and_then (update_settings p.server_address p.remote_id) a.updates restarted))

-- The rollback of the `catch` block, then the relay if that succeeded; a failure of either is
-- logged. An empty path is falsy.
unfoldable pub rollback_calls : Text → Option Text → List Call
rollback_calls path answer = if is_empty path then [] else elim answer [
  | none ↦ endpoint_rollback path ∷ sync_ike_relay ∷ []
  | some message ↦ endpoint_rollback path ∷ []
]

abbrev pub refused : Current → EndpointError → Applied
refused settings e = record { calls = []; settings = settings; history = []; error = some e }

-- The `catch` block; a row of the history that cannot be written throws in place of the error.
unfoldable pub caught : List Call → Answers → Progress → EndpointError → Applied
caught rollback a r e = record {
  calls = r.calls ++ rollback;
  settings = r.settings;
  history = elim a.records_failed [ none ↦ false ∷ [] | some m ↦ [] ];
  error = elim a.records_failed [ none ↦ some e | some m ↦ some (call_failed m) ];
}

-- From the end of the `try` block on: the row of a success is written in it.
unfoldable pub record_outcome : Text → Answers → Progress → Applied
unfolding caught rollback_calls
record_outcome path a r = elim r.error [
  | some e ↦ caught (rollback_calls path a.rolls_back) a r e
  | none ↦ elim a.records_applied [
    | none ↦ record { calls = r.calls; settings = r.settings; history = true ∷ []; error = none }
    | some m ↦ caught (rollback_calls path a.rolls_back) a r (call_failed m)
  ]
]

unfoldable pub apply_endpoint_change : Parsed → Validation → Bool → Answers → Current → Applied
unfolding change_host record_outcome caught
apply_endpoint_change p v confirm_new_cert a settings =
    if v.unchanged
    then refused settings unchanged
    else if v.needs_new_cert && not confirm_new_cert
    then refused settings cert_confirm_required
    else if not p.is_ip && not v.dns_ok
    then refused settings dns_failed
    else elim a.backup [
      | inl message ↦
          caught [] a (record { calls = endpoint_backup ∷ []; settings = settings; error = none })
            (call_failed message)
      | inr path ↦ record_outcome path a (change_host p v a settings)
    ]
