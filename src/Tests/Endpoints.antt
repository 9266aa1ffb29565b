-- ===== src/Tests/Endpoints.antt =====
-- Changes of the endpoint (backend/src/services/vpnEndpointManager.js) at concrete inputs.
use zvpn.Base.{
  ◌≡◌, ◌≢◌, refl, Bool, true, false, not, ◌&&◌, none, some, List, [], ◌∷◌, ◌++◌, ◌⊎◌, inr, Text,
  codes, sym, ◌∙◌,
}
use zvpn.Endpoint.{
  Parsed, Certificate, Current, Validation, Answers, Call, health_failed, apply_endpoint_change,
  rollback_calls, change_host, record_outcome, and_then, checked, caught,
}
use zvpn.Endpoint.Rollback.{
  new_settings, all_calls, apply_endpoint_change-success, apply_endpoint_change-rollback,
  apply_endpoint_change-health_failed,
}

abbrev parsed : Parsed
parsed = record {
  endpoint = codes "b.io";
  is_ip = false;
  remote_id = codes "b.io";
  server_address = codes "b.io";
}

abbrev cert : Certificate
cert = record { cn = some (codes "a.io"); san = []; leftid = some (codes "a.io") }

abbrev old : Current
old = record { server_address = codes "a.io"; remote_id = codes "a.io" }

abbrev validation : Validation
validation = record {
  dns_ok = true;
  unchanged = false;
  needs_new_cert = true;
  needs_leftid_update = true;
  certificate = cert;
  current = old;
}

abbrev answers : Bool → Answers
answers up = record {
  backup = inr (codes "/b");
  issues_cert = none;
  sets_leftid = none;
  normalizes = none;
  syncs_relay = none;
  restarts = none;
  updates = none;
  reads_cert = none;
  ports_open = true;
  strongswan_up = up;
  rolls_back = none;
  records_applied = none;
  records_failed = none;
}

succeeds : (apply_endpoint_change parsed validation true (answers true) old).error ≡ none
unfolding apply_endpoint_change record_outcome change_host checked and_then
succeeds = refl

fails_health :
    (apply_endpoint_change parsed validation true (answers false) old).error ≡ some health_failed
unfolding apply_endpoint_change record_outcome change_host checked and_then caught
fails_health = refl

fails : (apply_endpoint_change parsed validation true (answers false) old).error ≢ none
fails e = absurd (some_none (sym fails_health ∙ e))
  where
    some_none : some health_failed ≡ none → ⊥
    some_none h = cc

success_example :
    let r = apply_endpoint_change parsed validation true (answers true) old in
    (r.calls ≡ all_calls parsed validation)
    × (r.settings ≡ new_settings parsed)
    × (r.history ≡ true ∷ [])
    × (((answers true).ports_open && (answers true).strongswan_up) ≡ true)
    × ((validation.needs_new_cert && not true) ≡ false)
success_example = apply_endpoint_change-success parsed validation true (answers true) old succeeds

rollback_example :
    let r = apply_endpoint_change parsed validation true (answers false) old in
    (made : List Call) × (r.calls ≡ made ++ rollback_calls (codes "/b") none)
    × ((r.settings ≡ old)
        ⊎ ((r.settings ≡ new_settings parsed) × (made ≡ all_calls parsed validation)))
rollback_example =
    apply_endpoint_change-rollback parsed validation true (answers false) old (codes "/b") refl refl
      refl refl fails

health_failed_example :
    let r = apply_endpoint_change parsed validation true (answers false) old in
    (path : Text) × ((answers false).backup ≡ inr path)
    × (r.calls ≡ all_calls parsed validation ++ rollback_calls path none)
    × (r.settings ≡ new_settings parsed)
health_failed_example =
    apply_endpoint_change-health_failed parsed validation true (answers false) old fails_health
