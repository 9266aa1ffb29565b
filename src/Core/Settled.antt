-- ===== src/Core/Settled.antt =====
-- A second run of `syncXray`: backend/src/services/xray.js, with backend/src/services/warp.js.
use zvpn.Base.{
  subst, ℕ, ◌≡◌, ◌⊎◌, inl, inr, refl, sym, ap, ◌∙◌, Bool, true, false, Option, none, some, List,
  Text, codes, ◌===◌, Bool-cases, Option-cases, ===_refl,
}
use zvpn.Reconcile.{trim}
use zvpn.Core.{User, Inbound, build_xray_config}
use zvpn.Core.Apply.{
  World, Outside, WarpSettings, did, or_empty, provider_error, policy_of, apply_policy,
  prepare_warp_policy, warp_error, warp_changed, replace_config, compare_config, sync_xray,
  SyncError,
}
use zvpn.Core.Applied.{replace_config-policy, replaced, Sum-cases}

apply_policy-settled :
    (o : Outside) (json : Text) (w v : World)
    → warp_error (apply_policy o json w).1 ≡ none
    → v.policy ≡ (apply_policy o json w).0.policy
    → apply_policy o json v ≡ (v, inr false)
unfolding apply_policy did
apply_policy-settled o json w v h k = elim (Bool-cases (or_empty w.policy === json)) [
  | inl e ↦ let p = (rw (apply_policy, e) at k) in rw (apply_policy, p, e) refl
  | inr e ↦ elim (Option-cases o.writes_policy) [
    | inr g ↦ absurd (let p = (rw (apply_policy, e, g.1) at h) in cc)
    | inl g ↦ elim (Option-cases o.syncs_warp) [
      | inr i ↦ absurd (let p = (rw (apply_policy, e, g, i.1) at h) in cc)
      | inl i ↦
          let p = (rw (apply_policy, e, g, i) at k) in rw (apply_policy, p, ===_refl json) refl
    ]
  ]
]

prepare-settled :
    (o : Outside) (s : WarpSettings) (users : List User) (w v : World)
    → warp_error (prepare_warp_policy o s users w).1 ≡ none
    → v.policy ≡ (prepare_warp_policy o s users w).0.policy
    → prepare_warp_policy o s users v ≡ (v, inr false)
unfolding prepare_warp_policy
prepare-settled o s users w v h k = elim (Option-cases (provider_error o s)) [
  | inr e ↦ absurd (let p = (rw (prepare_warp_policy, e.1) at h) in cc)
  | inl e ↦ elim (Bool-cases o.has_router) [
    | inr g ↦ elim (Bool-cases s.enabled) [
      | inl i ↦ absurd (let p = (rw (prepare_warp_policy, e, g, i) at h) in cc)
      | inr i ↦ rw (prepare_warp_policy, e, g, i) refl
    ]
    | inl g ↦
        let h2 = (rw (prepare_warp_policy, e, g) at h) in
        let k2 = (rw (prepare_warp_policy, e, g) at k) in
        rw (prepare_warp_policy, e, g)
          (apply_policy-settled o (o.policy_text (policy_of s users)) w v h2 k2)
  ]
]

replace_config-settled :
    (o : Outside) (json : Text) (late : Option SyncError) (w : World)
    → (replace_config o json late w).1 ≡ none
    → ((or_empty (replace_config o json late w).0.config === json) ≡ true) × (late ≡ none)
replace_config-settled o json late w h = elim (replaced o json late w) [
  | inl r ↦ absurd (let k = sym r.4 ∙ h in cc)
  | inr (inl r) ↦ absurd (let k = sym r.5 ∙ h in cc)
  | inr (inr (inl r)) ↦ absurd (let k = sym r.6 ∙ h in cc)
  | inr (inr (inr r)) ↦ (ap (λ t. or_empty t === json) r.3 ∙ ===_refl json, sym r.5 ∙ h)
]

-- What a run without an error leaves, from the policy's part on.
abbrev IsSettled : Text → World × (SyncError ⊎ Bool) → World → Type 0
IsSettled json p v =
    (v.policy ≡ p.0.policy) × (warp_error p.1 ≡ none) × ((or_empty v.config === json) ≡ true)

replaced-IsSettled :
    (o : Outside) (json : Text) (p : World × (SyncError ⊎ Bool))
    → (replace_config o json (warp_error p.1) p.0).1 ≡ none
    → IsSettled json p (replace_config o json (warp_error p.1) p.0).0
replaced-IsSettled o json p h =
    let settled = replace_config-settled o json (warp_error p.1) p.0 h in
    (replace_config-policy o json (warp_error p.1) p.0, settled.1, settled.0)

compare_config-IsSettled :
    (o : Outside) (json : Text) (p : World × (SyncError ⊎ Bool))
    → (compare_config o json p.1 p.0).1 ≡ none
    → IsSettled json p (compare_config o json p.1 p.0).0
unfolding compare_config
compare_config-IsSettled o json p h = elim (Bool-cases (warp_changed p.1)) [
  | inl e ↦
      let k = (rw (compare_config, e) at h) in
      rw (compare_config, e) (replaced-IsSettled o json p k)
  | inr e ↦ elim (Bool-cases (or_empty p.0.config === json)) [
    | inr g ↦
        let k = (rw (compare_config, e, g) at h) in
        rw (compare_config, e, g) (replaced-IsSettled o json p k)
    | inl g ↦ elim (Sum-cases o.epoch) [
      | inl i ↦ absurd (let k = (rw (compare_config, e, g, i.1) at h) in cc)
      | inr i ↦ elim (Bool-cases (trim i.0 === codes "stopped")) [
        | inl j ↦
            let k = (rw (compare_config, e, g, i.1, j) at h) in
            rw (compare_config, e, g, i.1, j) (replaced-IsSettled o json p k)
        | inr j ↦
            let k = (rw (compare_config, e, g, i.1, j) at h) in
            rw (compare_config, e, g, i.1, j) (refl, k, g)
      ]
    ]
  ]
]

compare_config-stands :
    (o : Outside) (json : Text) (v : World) (epoch : Text)
    → o.epoch ≡ inr epoch
    → (trim epoch === codes "stopped") ≡ false
    → (or_empty v.config === json) ≡ true
    → compare_config o json (inr false) v ≡ (v, none)
unfolding compare_config
compare_config-stands o json v epoch h k e = rw (compare_config, e, h, k) refl

sync_runs :
    (o : Outside) (now : ℕ) (enabled relay : Bool) (s : WarpSettings) (users : List User)
    (w : World) (inbounds : List Inbound)
    → o.has_xray ≡ true
    → build_xray_config now users enabled relay ≡ some inbounds
    → sync_xray o now enabled relay s users w
      ≡ compare_config o
          (o.config_text inbounds)
          (prepare_warp_policy o s users w).1
          (prepare_warp_policy o s users w).0
unfolding sync_xray
sync_runs o now enabled relay s users w inbounds h k = rw (sync_xray, h, k) refl

-- A second run of `syncXray` does nothing: after a run without an error, while the core is not stopped
-- and the users, the settings and the answers of the system are the same, another run leaves the
-- files and what has been done as they are, and has no error.
pub sync_xray_again :
    (o : Outside) (now : ℕ) (enabled relay : Bool) (s : WarpSettings) (users : List User)
    (w : World) (epoch : Text)
    → o.epoch ≡ inr epoch
    → (trim epoch === codes "stopped") ≡ false
    → (sync_xray o now enabled relay s users w).1 ≡ none
    → sync_xray o now enabled relay s users (sync_xray o now enabled relay s users w).0
      ≡ ((sync_xray o now enabled relay s users w).0, none)
unfolding sync_xray
sync_xray_again o now enabled relay s users w epoch h k r = elim (Bool-cases o.has_xray) [
  | inr e ↦ elim (Bool-cases enabled) [
    | inl g ↦ absurd (let j = (rw (sync_xray, e, g) at r) in cc)
    | inr g ↦ rw (sync_xray, e, g) refl
  ]
  | inl e ↦ elim (Option-cases (build_xray_config now users enabled relay)) [
    | inl g ↦ absurd (let j = (rw (sync_xray, e, g) at r) in cc)
    | inr g ↦
        let json = o.config_text g.0 in
        let p = prepare_warp_policy o s users w in
        let v = (compare_config o json p.1 p.0).0 in
        let first = sync_runs o now enabled relay s users w g.0 e g.1 in
        let settled = compare_config-IsSettled o json p (rw first at r) in
        subst (λ x. sync_xray o now enabled relay s users x.0 ≡ (x.0, none)) (sym first)
          (sync_runs o now enabled relay s users v g.0 e g.1
            ∙ ap (λ q. compare_config o json q.1 q.0)
                (prepare-settled o s users w v settled.1 settled.0)
            ∙ compare_config-stands o json v epoch h k settled.2)
  ]
]
