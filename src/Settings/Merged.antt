-- ===== src/Settings/Merged.antt =====
-- What is read of the settings after they are updated: backend/src/services/settings.js.
use zvpn.Base.{
  true, not, ◌&&◌, ◌||◌, put_all, put-Distinct, arith, ◌≡◌, ◌⊎◌, inl, inr, refl, sym, ap, ◌∙◌,
  subst, Bool, false, Option, none, some, List, [], ◌∷◌, Text, codes, ◌===◌, get, put,
  if◌then◌else◌, Bool-cases, Option-cases, get-put, get-put_self, get-put_all, or_else, Distinct,
  ===_iff, ===_refl, ===_flip,
}
use zvpn.Settings.Defaults.{Json, Fields, Config, defaults}
use zvpn.Settings.{
  Outside, Table, spread, default_of, finish, get_setting, merge_rows, get_settings,
  validate_settings_patch, check_relay, updated, stored, update_settings, vpn_fallback,
}

-- An update that does not throw had a patch that is valid and passed the check, and made the table.
update_lem :
    (o : Outside) (saves : Bool) (section : Text) (value : Fields) (t t' : Table) (shown : Fields)
    (drops : Bool)
    → update_settings o saves section value t ≡ updated shown t' drops
    → (patch : Fields) × (validate_settings_patch o section value ≡ some patch)
      × (t' ≡ put section (stored section patch t) t)
      × (shown ≡ finish o section (spread (default_of o section) (stored section patch t)))
unfolding update_settings
update_lem o false section value t t' shown drops h =
    elim (Option-cases (validate_settings_patch o section value)) [
      | inl e ↦ absurd (let k = (rw (update_settings, e) at h) in cc)
      | inr (patch, e) ↦ elim (Option-cases (check_relay o section patch t)) [
        | inr (x, k) ↦ absurd (let l = (rw (update_settings, e, k) at h) in cc)
        | inl k ↦ absurd (let l = (rw (update_settings, e, k) at h) in cc)
      ]
    ]
update_lem o true section value t t' shown drops h =
    elim (Option-cases (validate_settings_patch o section value)) [
      | inl e ↦ absurd (let k = (rw (update_settings, e) at h) in cc)
      | inr (patch, e) ↦ elim (Option-cases (check_relay o section patch t)) [
        | inr (x, k) ↦ absurd (let l = (rw (update_settings, e, k) at h) in cc)
        | inl k ↦
            let l = (rw (update_settings, e, k) at h) in
            (patch, e, (let m = sym l in cc), (let m = sym l in cc))
      ]
    ]

get_setting-some :
    (o : Outside) (section : Text) (t : Table) (fields : Fields)
    → get section t ≡ some fields
    → get_setting o section t ≡ finish o section (spread (default_of o section) fields)
unfolding get_setting
get_setting-some o section t fields h = rw (get_setting, h) refl

get_setting-none :
    (o : Outside) (section : Text) (t : Table)
    → get section t ≡ none
    → get_setting o section t ≡ finish o section (default_of o section)
unfolding get_setting
get_setting-none o section t h = rw (get_setting, h) refl

get_setting_same :
    (o : Outside) (section : Text) (t t' : Table)
    → get section t ≡ get section t'
    → get_setting o section t ≡ get_setting o section t'
get_setting_same o section t t' h = elim (Option-cases (get section t')) [
  | inl e ↦ get_setting-none o section t (h ∙ e) ∙ sym (get_setting-none o section t' e)
  | inr (fields, e) ↦
      get_setting-some o section t fields (h ∙ e) ∙ sym (get_setting-some o section t' fields e)
]

stored-some :
    (section : Text) (patch : Fields) (t : Table) (was : Fields)
    → get section t ≡ some was
    → stored section patch t ≡ spread was patch
stored-some section patch t was h = rw (stored, h) refl

get-spread :
    (base fields : Fields)
    → Distinct fields
    → (name : Text) → get name (spread base fields) ≡ or_else (get name fields) (get name base)
unfolding spread
get-spread base fields d name = get-put_all fields d name base

put_all-Distinct : (fields base : Fields) → Distinct base → Distinct (put_all fields base)
unfolding put_all
put_all-Distinct [] base d = d
put_all-Distinct ((k, v) ∷ fields) base d =
    put_all-Distinct fields (put k v base) (put-Distinct k v base d)

-- A field that the names of the server are no fallback for.
abbrev pub is_plain : Text → Text → Bool
is_plain section name =
    not (section === codes "vpn")
    || (not (codes "serverAddress" === name) && not (codes "remoteId" === name))

get-unset :
    (b : Bool) (key name : Text) (v : Json) (fields : Fields)
    → (key === name) ≡ false
    → get name (if b then fields else put key v fields) ≡ get name fields
get-unset true key name v fields h = refl
get-unset false key name v fields h = get-put key name v fields ∙ rw h refl

get-vpn_fallback :
    (c : Config) (vpn : Fields) (name : Text)
    → (codes "serverAddress" === name) ≡ false
    → (codes "remoteId" === name) ≡ false
    → get name (vpn_fallback c vpn) ≡ get name vpn
unfolding vpn_fallback
get-vpn_fallback c vpn name a b =
    get-unset _ (codes "remoteId") name _ _ b ∙ get-unset _ (codes "serverAddress") name _ vpn a

get-finish :
    (o : Outside) (section name : Text) (merged : Fields)
    → is_plain section name ≡ true
    → get name (finish o section merged) ≡ get name merged
get-finish o section name merged h = elim (Bool-cases (section === codes "vpn")) [
  | inl e ↦ rw e (get-vpn_fallback o.config merged name (ground arith) (ground arith))
  | inr e ↦ rw e refl
]

abbrev or_none {ℓ} : {A : Type ℓ} → Option (List A) → List A
or_none none = []
or_none (some xs) = xs

-- No field of the section's row is named twice.
abbrev pub HasDistinct : Text → Table → Type 0
HasDistinct section t = Distinct (or_none (get section t))

or_else-none {ℓ} : {A : Type ℓ} (x : Option A) → or_else x none ≡ x
or_else-none none = refl
or_else-none (some a) = refl

or_else_assoc {ℓ} :
    {A : Type ℓ} (x y z : Option A) → or_else (or_else x y) z ≡ or_else x (or_else y z)
or_else_assoc none y z = refl
or_else_assoc (some a) y z = refl

get-get_setting :
    (o : Outside) (section name : Text) (t : Table)
    → HasDistinct section t
    → is_plain section name ≡ true
    → get name (get_setting o section t)
      ≡ or_else (get name (or_none (get section t))) (get name (default_of o section))
unfolding get
get-get_setting o section name t d h = elim (Option-cases (get section t)) [
  | inl e ↦ rw e (
      ap (get name) (get_setting-none o section t e)
      ∙ get-finish o section name (default_of o section) h)
  | inr (fields, e) ↦
      let single : Distinct fields = subst (λ x. Distinct (or_none x)) e d in
      rw e (
        ap (get name) (get_setting-some o section t fields e)
        ∙ get-finish o section name _ h
        ∙ get-spread (default_of o section) fields single name)
]

get-stored :
    (section name : Text) (patch : Fields) (t : Table)
    → HasDistinct section t
    → Distinct patch
    → (get name (stored section patch t)
        ≡ or_else (get name patch) (get name (or_none (get section t))))
      × Distinct (stored section patch t)
unfolding get spread put_all
get-stored section name patch t d p = elim (Option-cases (get section t)) [
  | inl e ↦
      let made : stored section patch t ≡ patch = rw (stored, e) refl in
      (rw e (ap (get name) made ∙ sym (or_else-none (get name patch))), subst Distinct (sym made) p)
  | inr (fields, e) ↦
      let single : Distinct fields = subst (λ x. Distinct (or_none x)) e d in
      let made = stored-some section patch t fields e in
      (
        rw e (ap (get name) made ∙ get-spread fields patch p name),
        subst Distinct (sym made) (put_all-Distinct patch fields single),
      )
]

-- What an update returns is what is read of its section afterwards, and every other section reads as
-- it did. A field of the section, when the section is read, has the value of the validated patch,
-- where that has it, and else the one that was read before the update; whether the section was stored
-- before or not. No field stands twice in the patch or the stored row, and the server's two names of
-- the section `vpn`, which fall back to the configuration, are left out.
pub update_settings-get_setting :
    (o : Outside) (saves : Bool) (section : Text) (value : Fields) (t t' : Table) (shown : Fields)
    (drops : Bool)
    → update_settings o saves section value t ≡ updated shown t' drops
    → (get_setting o section t' ≡ shown)
      × ((other : Text)
          → (section === other) ≡ false
          → get_setting o other t' ≡ get_setting o other t)
      × ((patch : Fields) × (validate_settings_patch o section value ≡ some patch)
          × (Distinct patch
              → HasDistinct section t
              → (name : Text) → is_plain section name ≡ true
              → get name (get_setting o section t')
                ≡ or_else (get name patch) (get name (get_setting o section t))))
update_settings-get_setting o saves section value t t' shown drops h =
    let (patch, valid, made, shown_eq) = update_lem o saves section value t t' shown drops h in
    let at_section : get section t' ≡ some (stored section patch t) =
      ap (get section) made ∙ get-put_self section (stored section patch t) t in
    (
      get_setting-some o section t' (stored section patch t) at_section ∙ sym shown_eq,
      (λ other apart.
          get_setting_same o other t' t (
            ap (get other) made
            ∙ get-put section other (stored section patch t) t
            ∙ rw apart refl)),
      (
        patch,
        valid,
        λ p d name plain.
            let (field, single) = get-stored section name patch t d p in
            ap (get name) (get_setting-some o section t' (stored section patch t) at_section)
            ∙ get-finish o section name _ plain
            ∙ get-spread (default_of o section) (stored section patch t) single name
            ∙ ap (λ x. or_else x (get name (default_of o section))) field
            ∙ or_else_assoc (get name patch) (get name (or_none (get section t))) _
            ∙ ap (or_else (get name patch)) (sym (get-get_setting o section name t d plain)),
      ),
    )

merge_rows-other :
    (rows : Table) (out : List (Text × Fields)) (s : Text)
    → get s rows ≡ none
    → get s (merge_rows rows out) ≡ get s out
unfolding merge_rows get
merge_rows-other [] out s h = refl
merge_rows-other ((key, fields) ∷ rows) out s h = elim (Bool-cases (key === s)) [
  | inl e ↦ absurd (let k = (rw e at h) in cc)
  | inr e ↦
      let rest = merge_rows-other rows in
      let k = (rw e at h) in
      elim (Option-cases (get key out)) [
        | inl l ↦ rw (merge_rows, l) (rest out s k)
        | inr (base, l) ↦
            rw (merge_rows, l)
              (rest (put key (spread base fields) out) s k
                ∙ get-put key s (spread base fields) out
                ∙ rw e refl)
      ]
]

merge_rows-get :
    (rows : Table)
    → Distinct rows
    → (out : List (Text × Fields)) (s : Text) (base : Fields) → get s out ≡ some base
    → get s (merge_rows rows out)
      ≡ some (elim (get s rows) [ none ↦ base | some fields ↦ spread base fields ])
unfolding merge_rows get
merge_rows-get [] d out s base h = h
merge_rows-get ((key, fields) ∷ rows) d out s base h = elim (Bool-cases (key === s)) [
  | inl e ↦
      let same = (===_iff key s).0 e in
      let here : get key out ≡ some base = ap (λ x. get x out) same ∙ h in
      let gone : get s rows ≡ none = subst (λ x. get x rows ≡ none) same d.0 in
      rw (merge_rows, here, e)
        (merge_rows-other rows (put key (spread base fields) out) s gone
          ∙ get-put key s (spread base fields) out
          ∙ rw e refl)
  | inr e ↦ elim (Option-cases (get key out)) [
    | inl l ↦ rw (merge_rows, l, e) (merge_rows-get rows d.1 out s base h)
    | inr (b, l) ↦
        rw (merge_rows, l, e)
          (merge_rows-get rows d.1 (put key (spread b fields) out) s base
            (get-put key s (spread b fields) out ∙ rw e h))
  ]
]

-- What is merged for a section: the defaults and what is stored.
abbrev merged_of : Outside → Text → Table → Fields
merged_of o s t = elim (get s t) [
  | none ↦ default_of o s
  | some fields ↦ spread (default_of o s) fields
]

get_setting_lem :
    (o : Outside) (s : Text) (t : Table) → get_setting o s t ≡ finish o s (merged_of o s t)
unfolding get_setting
get_setting_lem o s t = refl

default_lem :
    (o : Outside) (s : Text) (base : Fields)
    → get s (defaults o.config) ≡ some base
    → default_of o s ≡ base
default_lem o s base h = rw (default_of, h) refl

listed_lem :
    (o : Outside) (t : Table)
    → Distinct t
    → (s : Text) (base : Fields) → get s (defaults o.config) ≡ some base
    → get s (merge_rows t (defaults o.config)) ≡ some (merged_of o s t)
listed_lem o t d s base h =
    subst
      (λ b.
        get s (merge_rows t (defaults o.config))
        ≡ some (elim (get s t) [ none ↦ b | some fields ↦ spread b fields ]))
      (sym (default_lem o s base h)) (merge_rows-get t d (defaults o.config) s base h)

get_settings_lem :
    (o : Outside) (t : Table) (s : Text) (vpn : Fields)
    → get (codes "vpn") (merge_rows t (defaults o.config)) ≡ some vpn
    → get s (get_settings o t) ≡ (
        if codes "vpn" === s
        then some (vpn_fallback o.config vpn)
        else get s (merge_rows t (defaults o.config)))
unfolding get_settings
get_settings_lem o t s vpn h =
    rw (get_settings, h)
      (get-put (codes "vpn") s (vpn_fallback o.config vpn) (merge_rows t (defaults o.config)))

has_vpn : (c : Config) → (base : Fields) × (get (codes "vpn") (defaults c) ≡ some base)
unfolding defaults get ◌===◌
has_vpn c = (_, refl)

finish_vpn :
    (o : Outside) (fields : Fields) → finish o (codes "vpn") fields ≡ vpn_fallback o.config fields
finish_vpn o fields = rw (===_refl (codes "vpn")) refl

finish_other :
    (o : Outside) (section : Text) (fields : Fields)
    → (section === codes "vpn") ≡ false
    → finish o section fields ≡ fields
finish_other o section fields e = rw e refl

-- `getSettings` agrees with `getSetting`: in a table that has no section twice, each section that has
-- defaults is listed with what is read of it alone.
pub get_settings-get_setting :
    (o : Outside) (t : Table)
    → Distinct t
    → (section : Text) (base : Fields) → get section (defaults o.config) ≡ some base
    → get section (get_settings o t) ≡ some (get_setting o section t)
get_settings-get_setting o t d section base h =
    let (vpn_base, vpn_h) = has_vpn o.config in
    let vpn = listed_lem o t d (codes "vpn") vpn_base vpn_h in
    let mine = listed_lem o t d section base h in
    elim (Bool-cases (codes "vpn" === section)) [
      | inl e ↦
          subst (λ s. get s (get_settings o t) ≡ some (get_setting o s t))
            ((===_iff (codes "vpn") section).0 e)
            (get_settings_lem o t (codes "vpn") _ vpn
              ∙ rw (===_refl (codes "vpn"))
                  (ap some (sym (get_setting_lem o (codes "vpn") t ∙ finish_vpn o _))))
      | inr e ↦
          get_settings_lem o t section _ vpn
          ∙ rw e (
              mine
              ∙ ap some (
                  sym (
                    get_setting_lem o section t
                    ∙ finish_other o section _ (===_flip (codes "vpn") section e))))
    ]

twice :
    (section : Text) (t : Table) (was a b : Fields)
    → get section t ≡ some was
    → Distinct a
    → Distinct b
    → (name : Text)
    → get name (stored section b (put section (stored section a t) t))
      ≡ or_else (get name b) (or_else (get name a) (get name was))
twice section t was a b h da db name =
    ap (get name) (
      stored-some section b (put section (stored section a t) t) (stored section a t)
        (get-put_self section (stored section a t) t))
    ∙ get-spread (stored section a t) b db name
    ∙ ap (or_else (get name b))
        (ap (get name) (stored-some section a t was h) ∙ get-spread was a da name)

swap : {A : Type 0} (x y : Option A) → or_else none (or_else x y) ≡ or_else x (or_else none y)
swap none y = refl
swap (some a) y = refl

-- Two updates of the same stored section that name no field in common give, in either order, the
-- same value of every field: partial updates at the same time do not overwrite each other.
pub stored_commutes :
    (section : Text) (t : Table) (was a b : Fields)
    → get section t ≡ some was
    → Distinct a
    → Distinct b
    → ((name : Text) → (get name a ≡ none) ⊎ (get name b ≡ none))
    → (name : Text)
    → get name (stored section b (put section (stored section a t) t))
      ≡ get name (stored section a (put section (stored section b t) t))
stored_commutes section t was a b h da db apart name =
    twice section t was a b h da db name
    ∙ (elim (apart name) [ inl e ↦ rw e refl | inr e ↦ rw e (swap (get name a) (get name was)) ])
    ∙ sym (twice section t was b a h db da name)
