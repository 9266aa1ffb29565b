-- ===== src/Endpoint/Rollback.antt =====
-- What a change of the endpoint leaves (backend/src/services/vpnEndpointManager.js).
use zvpn.Base.{
  ap, sym, ◌∙◌, ◌≡◌, ◌≢◌, refl, Bool, true, false, not, ◌&&◌, Option, none, some, List, [], ◌∷◌,
  ◌++◌, ◌⊎◌, inl, inr, Text, ===_iff, arith, if◌then◌else◌, ◌↔◌,
}
use zvpn.Endpoint.{
  Parsed, Certificate, Current, Validation, health_failed, Call, endpoint_backup, issue_server_cert,
  set_leftid, normalize_conn, sync_ike_relay, restart_strongswan, update_settings, Answers,
  Progress, and_then, checked, change_host, rollback_calls, caught, record_outcome,
  apply_endpoint_change, validate_endpoint_change, is_text,
}

-- The settings that a change stores.
abbrev pub new_settings : Parsed → Current
new_settings p = record { server_address = p.server_address; remote_id = p.remote_id }

-- All that the host is asked for, if nothing fails.
abbrev pub all_calls : Parsed → Validation → List Call
all_calls p v =
    endpoint_backup ∷ (if v.needs_new_cert then issue_server_cert p.remote_id ∷ [] else [])
    ++ (set_leftid p.remote_id
        ∷ normalize_conn
        ∷ sync_ike_relay
        ∷ restart_strongswan
        ∷ update_settings p.server_address p.remote_id
        ∷ [])

-- A change that succeeds has made every call in order, has stored the new settings and one row of
-- a success, found the ports open and strongSwan running, and had a needed certificate confirmed.
pub apply_endpoint_change-success :
    (p : Parsed) (v : Validation) (confirm_new_cert : Bool) (a : Answers) (settings : Current)
    → (apply_endpoint_change p v confirm_new_cert a settings).error ≡ none
    → let r = apply_endpoint_change p v confirm_new_cert a settings in
      (r.calls ≡ all_calls p v)
      × (r.settings ≡ new_settings p)
      × (r.history ≡ true ∷ [])
      × ((a.ports_open && a.strongswan_up) ≡ true)
      × ((v.needs_new_cert && not confirm_new_cert) ≡ false)
unfolding apply_endpoint_change change_host record_outcome caught and_then checked
apply_endpoint_change-success p v confirm_new_cert a settings e = ground arith

backup-cases : (x : Text ⊎ Text) → ((m : Text) × (x ≡ inl m)) ⊎ ((path : Text) × (x ≡ inr path))
backup-cases (inl m) = inl (m, refl)
backup-cases (inr path) = inr (path, refl)

change_host-settings :
    (p : Parsed) (v : Validation) (a : Answers) (settings : Current)
    → let r = change_host p v a settings in
      (r.settings ≡ settings) ⊎ ((r.settings ≡ new_settings p) × (r.calls ≡ all_calls p v))
unfolding change_host and_then checked
change_host-settings p v a settings = ground arith

-- A change that is refused by one of the three tests, or whose backup fails, throws, asks the
-- host for nothing but the backup and leaves the settings.
pub apply_endpoint_change_untouched :
    (p : Parsed) (v : Validation) (confirm_new_cert : Bool) (a : Answers) (settings : Current)
    → (v.unchanged ≡ true)
      ⊎ (((v.needs_new_cert && not confirm_new_cert) ≡ true)
          ⊎ (((not p.is_ip && not v.dns_ok) ≡ true)
              ⊎ ((message : Text) × (a.backup ≡ inl message))))
    → let r = apply_endpoint_change p v confirm_new_cert a settings in
      ((r.calls ≡ []) ⊎ (r.calls ≡ endpoint_backup ∷ []))
      × (r.settings ≡ settings)
      × (r.error ≢ none)
unfolding apply_endpoint_change caught
apply_endpoint_change_untouched p v confirm_new_cert a settings h = ground arith

-- A change that passes the three tests, has its backup and fails after it ends with the calls of
-- `rollback_calls`: the rollback to the backup, if its path is not empty, and the synchronisation
-- of the relay if that succeeds. The settings are the old ones, or the new ones if every call had
-- been made.
pub apply_endpoint_change-rollback :
    (p : Parsed) (v : Validation) (confirm_new_cert : Bool) (a : Answers) (settings : Current)
    (path : Text)
    → a.backup ≡ inr path
    → v.unchanged ≡ false
    → (v.needs_new_cert && not confirm_new_cert) ≡ false
    → (not p.is_ip && not v.dns_ok) ≡ false
    → (apply_endpoint_change p v confirm_new_cert a settings).error ≢ none
    → let r = apply_endpoint_change p v confirm_new_cert a settings in
      (made : List Call) × (r.calls ≡ made ++ rollback_calls path a.rolls_back)
      × ((r.settings ≡ settings) ⊎ ((r.settings ≡ new_settings p) × (made ≡ all_calls p v)))
unfolding apply_endpoint_change record_outcome caught
apply_endpoint_change-rollback p v confirm_new_cert a settings path b c n d e = (
  (change_host p v a settings).calls,
  ground arith,
  ground (arith, change_host-settings p v a settings),
)

change_host-health_failed :
    (p : Parsed) (v : Validation) (a : Answers) (settings : Current)
    → (change_host p v a settings).error ≡ some health_failed
    → ((change_host p v a settings).settings ≡ new_settings p)
      × ((change_host p v a settings).calls ≡ all_calls p v)
unfolding change_host and_then checked
change_host-health_failed p v a settings e = ground arith

record_outcome-health_failed :
    (path : Text) (a : Answers) (r : Progress)
    → (record_outcome path a r).error ≡ some health_failed
    → (r.error ≡ some health_failed)
      × ((record_outcome path a r).calls ≡ r.calls ++ rollback_calls path a.rolls_back)
      × ((record_outcome path a r).settings ≡ r.settings)
unfolding record_outcome caught
record_outcome-health_failed path a r e = ground arith

apply_endpoint_change_from :
    (p : Parsed) (v : Validation) (confirm_new_cert : Bool) (a : Answers) (settings : Current)
    → (apply_endpoint_change p v confirm_new_cert a settings).error ≡ some health_failed
    → (path : Text) × (a.backup ≡ inr path)
      × (apply_endpoint_change p v confirm_new_cert a settings
          ≡ record_outcome path a (change_host p v a settings))
unfolding apply_endpoint_change caught
apply_endpoint_change_from p v confirm_new_cert a settings e = elim (backup-cases a.backup) [
  | inl (message, b) ↦ absurd (ground arith)
  | inr (path, b) ↦ (path, b, ground arith)
]

-- A change that throws the failure of its health check has made every call and stored the new
-- settings; the calls of the rollback follow, and the settings stay the new ones.
pub apply_endpoint_change-health_failed :
    (p : Parsed) (v : Validation) (confirm_new_cert : Bool) (a : Answers) (settings : Current)
    → (apply_endpoint_change p v confirm_new_cert a settings).error ≡ some health_failed
    → let r = apply_endpoint_change p v confirm_new_cert a settings in
      (path : Text) × (a.backup ≡ inr path)
      × (r.calls ≡ all_calls p v ++ rollback_calls path a.rolls_back)
      × (r.settings ≡ new_settings p)
apply_endpoint_change-health_failed p v confirm_new_cert a settings e =
    let (path, b, same) = apply_endpoint_change_from p v confirm_new_cert a settings e in
    let o =
      record_outcome-health_failed path a (change_host p v a settings)
        (sym (ap (λ r. r.error) same) ∙ e) in
    let h = change_host-health_failed p v a settings o.0 in
    (
      path,
      b,
      ap (λ r. r.calls) same ∙ o.1 ∙ ap (λ made. made ++ rollback_calls path a.rolls_back) h.1,
      ap (λ r. r.settings) same ∙ o.2 ∙ h.0,
    )

is_text_iff : (o : Option Text) (t : Text) → (is_text o t ≡ true) ↔ (o ≡ some t)
is_text_iff none t = ground arith
is_text_iff (some s) t = ground (arith, ===_iff s t)

-- The validation finds nothing to change just if the settings are those of the endpoint and the
-- host's identity is its remote id.
pub validate_endpoint_change-unchanged :
    (p : Parsed) (cert : Certificate) (current : Current) (resolves : Bool)
    → ((validate_endpoint_change p cert current resolves).unchanged ≡ true)
      ↔ ((current ≡ new_settings p) × (cert.leftid ≡ some p.remote_id))
unfolding validate_endpoint_change
validate_endpoint_change-unchanged p cert current resolves = ground (
  arith,
  ===_iff current.server_address p.server_address,
  ===_iff current.remote_id p.remote_id,
  is_text_iff cert.leftid p.remote_id,
)
