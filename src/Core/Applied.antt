-- ===== src/Core/Applied.antt =====
-- What `syncXray` leaves behind: backend/src/services/xray.js.
use zvpn.Base.{
  ℕ, ◌≡◌, ◌⊎◌, inl, inr, refl, Bool, true, false, Option, none, some, List, [], ◌∷◌, ◌++◌, Text,
  codes, ◌===◌, Bool-cases, Option-cases, arith,
}
use mathlib.Core.List.{append_assoc}
use zvpn.Reconcile.{trim}
use zvpn.Core.{Inbound, User, build_xray_config}
use zvpn.Core.Apply.{
  Action, collect, stop_xray, write_config, sync_config, remove_config, World, Outside,
  WarpSettings, did, or_empty, prepare_warp_policy, warp_error, warp_changed, replace_config,
  compare_config, sync_xray, SyncError, failed,
}

-- What `syncXray` leaves when it replaces a configuration, of the world before and after, by the call
-- that fails: collecting, writing, applying, or none.
abbrev pub Replaced : Outside → Text → Option SyncError → World → World × Option SyncError → Type 0
Replaced o json late w r =
    ((e : Text) × (o.collects ≡ some e)
      × (r.0.config ≡ w.config)
      × (r.0.log ≡ w.log ++ collect ∷ stop_xray ∷ [])
      × (r.1 ≡ some (failed (elim o.stops [ none ↦ e | some f ↦ f ]))))
    ⊎ ((e : Text) × (o.collects ≡ none)
        × (o.writes_config ≡ some e)
        × (r.0.config ≡ w.config)
        × (r.0.log ≡ w.log ++ collect ∷ [])
        × (r.1 ≡ some (failed e)))
    ⊎ ((e : Text) × (o.collects ≡ none)
        × (o.writes_config ≡ none)
        × (o.syncs_config ≡ some e)
        × (r.0.config ≡ none)
        × (r.0.log
            ≡ w.log ++ collect ∷ write_config json ∷ sync_config ∷ stop_xray ∷ remove_config ∷ [])
        × (r.1 ≡ some (failed e)))
    ⊎ ((o.collects ≡ none)
        × (o.writes_config ≡ none)
        × (o.syncs_config ≡ none)
        × (r.0.config ≡ some json)
        × (r.0.log ≡ w.log ++ collect ∷ write_config json ∷ sync_config ∷ [])
        × (r.1 ≡ late))

log_two : (log : List Action) (a b : Action) → log ++ a ∷ [] ++ b ∷ [] ≡ log ++ a ∷ b ∷ []
log_two log a b = append_assoc log (a ∷ []) (b ∷ [])

log_three :
    (log : List Action) (a b c : Action) → log ++ a ∷ [] ++ b ∷ [] ++ c ∷ [] ≡ log ++ a ∷ b ∷ c ∷ []
log_three log a b c = rw (log_two log a b) (append_assoc log (a ∷ b ∷ []) (c ∷ []))

log_five :
    (log : List Action) (a b c d e : Action)
    → log ++ a ∷ [] ++ b ∷ [] ++ c ∷ [] ++ d ∷ [] ++ e ∷ [] ≡ log ++ a ∷ b ∷ c ∷ d ∷ e ∷ []
log_five log a b c d e =
    rw (log_three log a b c, log_two (log ++ a ∷ b ∷ c ∷ []) d e)
      (append_assoc log (a ∷ b ∷ c ∷ []) (d ∷ e ∷ []))

pub replaced :
    (o : Outside) (json : Text) (late : Option SyncError) (w : World)
    → Replaced o json late w (replace_config o json late w)
unfolding replace_config did
replaced o json late w = elim (Option-cases o.collects) [
  | inr e ↦ rw (replace_config, e.1) (inl (e.0, refl, refl, log_two w.log collect stop_xray, refl))
  | inl e ↦ elim (Option-cases o.writes_config) [
    | inr g ↦ rw (replace_config, e, g.1) (inr (inl (g.0, refl, refl, refl, refl, refl)))
    | inl g ↦ elim (Option-cases o.syncs_config) [
      | inr h ↦
          rw (replace_config, e, g, h.1)
            (inr (
              inr (
                inl (
                  h.0,
                  refl,
                  refl,
                  refl,
                  refl,
                  log_five w.log collect (write_config json) sync_config stop_xray remove_config,
                  refl,
                ))))
      | inl h ↦
          rw (replace_config, e, g, h)
            (inr (
              inr (
                inr (
                  refl,
                  refl,
                  refl,
                  refl,
                  log_three w.log collect (write_config json) sync_config,
                  refl,
                ))))
    ]
  ]
]

pub replace_config-policy :
    (o : Outside) (json : Text) (late : Option SyncError) (w : World)
    → (replace_config o json late w).0.policy ≡ w.policy
unfolding replace_config did
replace_config-policy o json late w = ground arith

-- The configuration has to be replaced: the policy changed, or the file is another one, or the core
-- is stopped, which is asked last.
abbrev pub MustReplace : Outside → Text → World × (SyncError ⊎ Bool) → Type 0
MustReplace o json p =
    (warp_changed p.1 ≡ true)
    ⊎ ((or_empty p.0.config === json) ≡ false)
    ⊎ ((epoch : Text) × (o.epoch ≡ inr epoch) × ((trim epoch === codes "stopped") ≡ true))

-- What `syncXray` does to the core after the policy, and why: it lets the configuration stand, or
-- replaces it.
abbrev pub Applies : Outside → Text → World × (SyncError ⊎ Bool) → World × Option SyncError → Type 0
Applies o json p r =
    ((warp_changed p.1 ≡ false)
      × ((or_empty p.0.config === json) ≡ true)
      × (r.0 ≡ p.0)
      × (((epoch : Text) × (o.epoch ≡ inr epoch)
            × ((trim epoch === codes "stopped") ≡ false)
            × (r.1 ≡ warp_error p.1))
          ⊎ ((e : Text) × (o.epoch ≡ inl e) × (r.1 ≡ some (failed e)))))
    ⊎ (MustReplace o json p × Replaced o json (warp_error p.1) p.0 r)

pub Sum-cases : {A B : Type 0} (s : A ⊎ B) → ((a : A) × (s ≡ inl a)) ⊎ ((b : B) × (s ≡ inr b))
Sum-cases (inl a) = inl (a, refl)
Sum-cases (inr b) = inr (b, refl)

compared :
    (o : Outside) (json : Text) (p : World × (SyncError ⊎ Bool))
    → Applies o json p (compare_config o json p.1 p.0)
unfolding compare_config
compared o json p =
    let done = replaced o json (warp_error p.1) p.0 in
    elim (Bool-cases (warp_changed p.1)) [
      | inl e ↦ rw (compare_config, e) (inr (inl refl, done))
      | inr e ↦ elim (Bool-cases (or_empty p.0.config === json)) [
        | inr g ↦ rw (compare_config, e, g) (inr (inr (inl refl), done))
        | inl g ↦ elim (Sum-cases o.epoch) [
          | inl h ↦ rw (compare_config, e, g, h.1) (inl (refl, refl, refl, inr (h.0, refl, refl)))
          | inr h ↦ elim (Bool-cases (trim h.0 === codes "stopped")) [
            | inl k ↦ rw (compare_config, e, g, h.1, k) (inr (inr (inr (h.0, refl, k)), done))
            | inr k ↦
                rw (compare_config, e, g, h.1, k) (inl (refl, refl, refl, inl (h.0, refl, k, refl)))
          ]
        ]
      ]
    ]

-- What `syncXray` does to the core, and when: where Xray is installed and every eligible user has an
-- identity, let the policy be prepared. If it is unchanged, the wanted configuration is there, and the
-- core's epoch is known and not stopped, nothing more is done and the result is that of the policy;
-- if the epoch cannot be asked, nothing more is done and this is the error. Else (the policy changed,
-- the configuration is another, or the core is stopped) the counters of the old one are collected
-- first: if that fails, Xray is stopped with the configuration as it was, and there is an error; else
-- if the write fails, the configuration is as it was; else if the core refuses the new one, Xray is
-- stopped and the file removed; and if no call fails the new configuration is there and the result is
-- that of the policy.
pub sync_xray-Applies :
    (o : Outside) (now : ℕ) (enabled relay : Bool) (s : WarpSettings) (users : List User)
    (w : World) (inbounds : List Inbound)
    → o.has_xray ≡ true
    → build_xray_config now users enabled relay ≡ some inbounds
    → Applies o
        (o.config_text inbounds)
        (prepare_warp_policy o s users w)
        (sync_xray o now enabled relay s users w)
unfolding sync_xray
sync_xray-Applies o now enabled relay s users w inbounds h k =
    rw (sync_xray, h, k) (compared o (o.config_text inbounds) (prepare_warp_policy o s users w))
