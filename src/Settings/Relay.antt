-- ===== src/Settings/Relay.antt =====
-- The IKE relay's policy and its provisioning: backend/src/services/ikeRelay.js, and `relayPolicy` of
-- ikeRelayConfig.js. What the file system and the helper do in a call is an argument of it. The calls
-- run one after another, as the code's queue of promises has it.
use zvpn.Base.{
  ℕ, ◌-◌, ◌≡◌, ◌⊎◌, inl, inr, refl, Bool, true, false, not, ◌&&◌, ◌||◌, Option, none, some, List,
  [], ◌∷◌, Text, codes, ◌===◌, ◌==◌, if◌then◌else◌, ltb,
}
use zvpn.Settings.Defaults.{
  Json, null, bool, number, fraction, text, texts, Fields, is_truthy, ike_relay_defaults,
}
use zvpn.Settings.{
  Outside, Table, spread, field, get_setting, Updated, updated, throws, update_settings,
  SettingsError, Policy, policy, no_policy, schema_error, relay_hostname_required,
}

abbrev pub same_texts : List Text → List Text → Bool
same_texts [] [] = true
same_texts [] (t ∷ ts) = false
same_texts (s ∷ ss) [] = false
same_texts (s ∷ ss) (t ∷ ts) = s === t && same_texts ss ts

abbrev pub same_json : Json → Json → Bool
same_json null w = elim w [ null ↦ true | _ ↦ false ]
same_json (bool b) w = elim w [ bool c ↦ if b then c else not c | _ ↦ false ]
same_json (number n) w = elim w [ number m ↦ n == m | _ ↦ false ]
same_json (fraction s) w = elim w [ fraction t ↦ s === t | _ ↦ false ]
same_json (text s) w = elim w [ text t ↦ s === t | _ ↦ false ]
same_json (texts s) w = elim w [ texts t ↦ same_texts s t | _ ↦ false ]

-- Equality of what `JSON.stringify` makes of two policies.
unfoldable pub same_fields : Fields → Fields → Bool
same_fields [] [] = true
same_fields [] (f ∷ fs) = false
same_fields (f ∷ fs) [] = false
same_fields (f ∷ fs) (g ∷ gs) = f.0 === g.0 && same_json f.1 g.1 && same_fields fs gs

-- `relayPolicy`
unfoldable pub relay_policy : Outside → Fields → Policy
unfolding spread
relay_policy o value = elim (o.parse (codes "ikeRelay") value) [
  | none ↦ no_policy schema_error
  | some parsed ↦
      let all = spread ike_relay_defaults parsed in
      if is_truthy (field (codes "enabled") all) && not (is_truthy (field (codes "hostname") all))
      then no_policy relay_hostname_required
      else policy all
]

-- The policy in the helper's file, and the one that was applied last, with its instant.
pub record Provisioned : Type 0 where
  pub file : Option Fields
  pub applied : Option Fields
  pub applied_at : ℕ

-- What comes of writing the file and running the helper.
pub data Attempted : Type 0 where
  not_written : Attempted
  helper_fails : Attempted
  applies : Attempted

-- Whether `provision` returns, and what it leaves.
unfoldable pub provision : ℕ → Attempted → Fields → Provisioned → Bool × Provisioned
provision now not_written all p = (false, p)
provision now helper_fails all p = (false, record p { file = some all })
provision now applies all p =
    (true, record { file = some all; applied = some all; applied_at = now })

abbrev pub six_hours_ms : ℕ
six_hours_ms = 21600000

-- `force || JSON.stringify(policy) !== applied || Date.now() - appliedAt > 6 * 3600000`
unfoldable pub is_stale : ℕ → Bool → Fields → Provisioned → Bool
unfolding same_fields
is_stale now force all p =
    force
    || not (elim p.applied [ none ↦ false | some applied ↦ same_fields all applied ])
    || ltb six_hours_ms (now - p.applied_at)

pub data Applied : Type 0 where
  refused_policy : SettingsError → Applied
  origin_must_differ : Applied
  lookup_failed : Applied
  apply_failed : Applied
  update_failed : SettingsError → Applied
  done : Fields → Applied

-- `syncIkeRelay`: whether it returns.
unfoldable pub sync_ike_relay :
    Outside → ℕ → Bool → Attempted → Table → Provisioned → Bool × Provisioned
unfolding relay_policy provision is_stale get_setting
sync_ike_relay o now force attempt t p =
    elim (relay_policy o (get_setting o (codes "ikeRelay") t)) [
      | no_policy e ↦ (false, p)
      | policy all ↦ if is_stale now force all p then provision now attempt all p else (true, p)
    ]

abbrev pub server_address : Outside → Table → Json
server_address o t = field (codes "serverAddress") (get_setting o (codes "vpn") t)

-- The conditions on a policy that is enabled; the name is looked up last.
unfoldable pub check_origin : Outside → Bool → Fields → Table → Option Applied
unfolding get_setting
check_origin o resolves after t =
    if not (is_truthy (field (codes "enabled") after))
    then none
    else if same_json (field (codes "hostname") after) (server_address o t)
    then some origin_must_differ
    else if not resolves
    then some lookup_failed
    else none

-- The last part of `applyIkeRelay`: the helper first, then the settings, and back where they throw.
-- `saves` is whether the statement of `updateSettings` succeeds.
unfoldable pub apply_after :
    Outside
    → ℕ
    → Attempted
    → Bool
    → Attempted
    → Fields
    → Fields
    → Table
    → Provisioned
    → Applied × (Table × Provisioned)
unfolding provision update_settings
apply_after o now attempt saves undo before after t p =
    let (runs, p') = provision now attempt after p in
    if not runs
    then (apply_failed, (t, p'))
    else elim (update_settings o saves (codes "ikeRelay") after t) [
      | updated shown t' drops ↦ (done shown, (t', p'))
      | throws e ↦ (update_failed e, (t, (provision now undo before p').1))
    ]

-- `applyIkeRelay`.
unfoldable pub apply_ike_relay :
    Outside
    → ℕ
    → Bool
    → Attempted
    → Bool
    → Attempted
    → Fields
    → Table
    → Provisioned
    → Applied × (Table × Provisioned)
unfolding relay_policy check_origin apply_after spread get_setting
apply_ike_relay o now resolves attempt saves undo patch t p =
    elim (relay_policy o (get_setting o (codes "ikeRelay") t)) [
      | no_policy e ↦ (refused_policy e, (t, p))
      | policy before ↦ elim (relay_policy o (spread before patch)) [
        | no_policy e ↦ (refused_policy e, (t, p))
        | policy after ↦ elim (check_origin o resolves after t) [
          | some refusal ↦ (refusal, (t, p))
          | none ↦ apply_after o now attempt saves undo before after t p
        ]
      ]
    ]

-- What the helper wrote of its last run: `none` is a file that cannot be read.
pub record RelayStatus : Type 0 where
  pub enabled : Bool
  pub ready : Bool
  pub hostname : Json
  pub port : Json

-- The `ready` of `getIkeRelayStatus`.
unfoldable pub relay_ready : Fields → Option RelayStatus → Bool
relay_ready all none = false
relay_ready all (some s) =
    is_truthy (field (codes "enabled") all)
    && s.enabled
    && s.ready
    && same_json s.hostname (field (codes "hostname") all)
    && same_json s.port (field (codes "port") all)

updated_cases :
    (u : Updated)
    → ((e : SettingsError) × (u ≡ throws e))
      ⊎ ((shown : Fields) × (t : Table) × (drops : Bool) × (u ≡ updated shown t drops))
updated_cases (throws e) = inl (e, refl)
updated_cases (updated shown t drops) = inr (shown, t, drops, refl)

-- The helper's file, and the policy that was applied last, after an attempt with a new policy.
abbrev pub file_after : Attempted → Fields → Option Fields → Option Fields
file_after not_written new old = old
file_after helper_fails new old = some new
file_after applies new old = some new

abbrev pub applied_after : Attempted → Fields → Option Fields → Option Fields
applied_after not_written new old = old
applied_after helper_fails new old = old
applied_after applies new old = some new

provision_lem :
    (now : ℕ) (attempt : Attempted) (new : Fields) (p : Provisioned)
    → ((provision now attempt new p).1.file ≡ file_after attempt new p.file)
      × ((provision now attempt new p).1.applied ≡ applied_after attempt new p.applied)
unfolding provision
provision_lem now not_written new p = (refl, refl)
provision_lem now helper_fails new p = (refl, refl)
provision_lem now applies new p = (refl, refl)

-- What the application of a policy leaves, by its answer. Where it is done, the helper has applied
-- the new policy, and the settings are those that the update leaves. Where the update throws, its
-- statement's failure included, the settings are as they were, and the helper's file and the applied
-- policy are the new ones, but the old ones again as far as the attempt to undo them went. Where the
-- helper fails, the settings and the applied policy are as they were. There is no other answer.
pub apply_after-outcome :
    (o : Outside) (now : ℕ) (attempt : Attempted) (saves : Bool) (undo : Attempted)
    (before after : Fields) (t : Table) (p : Provisioned)
    → (let (answer, (t', p')) = apply_after o now attempt saves undo before after t p in
        ((shown : Fields) × (drops : Bool) × (answer ≡ done shown)
          × (update_settings o saves (codes "ikeRelay") after t ≡ updated shown t' drops)
          × (p'.file ≡ some after)
          × (p'.applied ≡ some after))
        ⊎ (((e : SettingsError) × (answer ≡ update_failed e)
              × (update_settings o saves (codes "ikeRelay") after t ≡ throws e)
              × (t' ≡ t)
              × (p'.file ≡ file_after undo before (some after))
              × (p'.applied ≡ applied_after undo before (some after)))
            ⊎ ((answer ≡ apply_failed)
                × (t' ≡ t)
                × (p'.file ≡ file_after attempt after p.file)
                × (p'.applied ≡ p.applied))))
unfolding apply_after provision
apply_after-outcome o now not_written saves undo before after t p =
    inr (inr (refl, refl, refl, refl))
apply_after-outcome o now helper_fails saves undo before after t p =
    inr (inr (refl, refl, refl, refl))
apply_after-outcome o now applies saves undo before after t p =
    elim (updated_cases (update_settings o saves (codes "ikeRelay") after t)) [
      | inl (e, k) ↦
          rw (apply_after, k)
            (let undone =
                provision_lem now undo before
                  (record { file = some after; applied = some after; applied_at = now }) in
              inr (inl (e, refl, refl, refl, undone.0, undone.1)))
      | inr (shown, t', drops, k) ↦ rw (apply_after, k) (inl (shown, drops, refl, refl, refl, refl))
    ]
