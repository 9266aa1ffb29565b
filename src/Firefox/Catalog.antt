-- ===== src/Firefox/Catalog.antt =====
-- The catalogue that `locations` of ops/firefox/core.mjs makes.
use zvpn.Base.{
  some_injective, ℕ, ◌≡◌, ◌≤◌, ◌⊎◌, inl, inr, refl, sym, ap, ◌∙◌, subst, Bool, true, false, not,
  ◌||◌, none, some, List, [], ◌∷◌, ◌++◌, Text, get, put, ◌===◌, ltb, any, map, length, All,
  All-append, any-append, Distinct, put-Distinct, Bool-cases, Option-cases, arith, ===_flip,
  ===_iff,
}
use zvpn.Firefox.{
  Field, missing, has, other, Server, ServerEntry, Country, Location, is_masque_host, port_of,
  server_of, servers_of, city_servers, read_countries, is_server, add_servers, merge_countries,
  locations, may_https, is_released, is_country_code, may_lock,
}

-- A server with a name of the service and a port in range.
abbrev pub IsUsable : Server → Type 0
IsUsable s = (is_masque_host s.hostname ≡ true) × (1 ≤ s.port) × (s.port ≤ 65535)

abbrev pub HasNoTwin : List Server → Type 0
HasNoTwin [] = Unit
HasNoTwin (s ∷ servers) = (any (λ t. is_server t s) servers ≡ false) × HasNoTwin servers

abbrev pub IsSound : Location → Type 0
IsSound l = All IsUsable l.servers × HasNoTwin l.servers

masque_host : (a b : Bool) → (not a || not b) ≡ false → b ≡ true
masque_host a b h = ground arith

port_of-bounds : (f : Field ℕ) (n : ℕ) → port_of f ≡ some n → (1 ≤ n) × (n ≤ 65535)
port_of-bounds missing n h = ground arith
port_of-bounds (has m) n h = ground arith
port_of-bounds other n h = absurd (ground arith)

server_of-IsUsable : (e : ServerEntry) (s : Server) → server_of e ≡ some s → IsUsable s
unfolding server_of
server_of-IsUsable e s h =
    elim (Bool-cases (not (is_released e.quarantined) || not (is_masque_host e.hostname))) [
      | inl k ↦ absurd (let l = (rw (server_of, k) at h) in cc)
      | inr k ↦ elim (Option-cases (port_of e.port)) [
        | inl l ↦ absurd (let m = (rw (server_of, k, l) at h) in cc)
        | inr (port, l) ↦ elim (Bool-cases (may_https e.protocols)) [
          | inr m ↦ absurd (let n = (rw (server_of, k, l, m) at h) in cc)
          | inl m ↦
              let made = some_injective (rw (server_of, k, l, m) at h) in
              let host : is_masque_host e.hostname ≡ true = masque_host _ _ k in
              let range = port_of-bounds e.port port l in
              subst IsUsable made (host, range.0, range.1)
        ]
      ]
    ]

is_server_flip : (s t : Server) → is_server s t ≡ false → is_server t s ≡ false
is_server_flip s t h = let host = ===_flip s.hostname t.hostname in ground arith

add-HasNoTwin :
    (there : List Server) (s : Server)
    → HasNoTwin there
    → any (λ t. is_server t s) there ≡ false
    → HasNoTwin (there ++ s ∷ [])
add-HasNoTwin [] s n h = (refl, tt)
add-HasNoTwin (t ∷ there) s n h = (
  any-append (λ x. is_server x t) there (s ∷ []) ∙ rw (n.0, is_server_flip t s (ground arith)) refl,
  add-HasNoTwin there s n.1 (ground arith),
)

add_servers-IsSound :
    (servers there : List Server)
    → All IsUsable servers
    → All IsUsable there
    → HasNoTwin there
    → All IsUsable (add_servers servers there) × HasNoTwin (add_servers servers there)
unfolding add_servers
add_servers-IsSound [] there a b n = (b, n)
add_servers-IsSound (s ∷ servers) there a b n = elim (Bool-cases (any (λ t. is_server t s) there)) [
  | inl e ↦ rw e (add_servers-IsSound servers there a.1 b n)
  | inr e ↦ rw e (
      add_servers-IsSound servers (there ++ s ∷ []) a.1
        (All-append IsUsable there (s ∷ []) b (a.0, tt)) (add-HasNoTwin there s n e))
]

servers_of-IsUsable : (entries : List ServerEntry) → All IsUsable (servers_of entries)
unfolding servers_of
servers_of-IsUsable [] = tt
servers_of-IsUsable (e ∷ entries) = elim (Option-cases (server_of e)) [
  | inl k ↦ rw (servers_of, k) (servers_of-IsUsable entries)
  | inr (s, k) ↦ rw (servers_of, k) (server_of-IsUsable e s k, servers_of-IsUsable entries)
]

city_servers-IsUsable : (cities : List (List ServerEntry)) → All IsUsable (city_servers cities)
unfolding city_servers
city_servers-IsUsable [] = tt
city_servers-IsUsable (c ∷ cities) =
    All-append IsUsable (servers_of c) (city_servers cities) (servers_of-IsUsable c)
      (city_servers-IsUsable cities)

pub field_cases {ℓ} :
    {A : Type ℓ} (f : Field A) → ((f ≡ missing) ⊎ (f ≡ other)) ⊎ ((a : A) × (f ≡ has a))
field_cases missing = inl (inl refl)
field_cases other = inl (inr refl)
field_cases (has a) = inr (a, refl)

-- The countries that were read have servers with such names and ports, maybe twice.
pub read_countries-IsUsable :
    (countries : List Country) → All (λ l. All IsUsable l.servers) (read_countries countries)
unfolding read_countries
read_countries-IsUsable [] = tt
read_countries-IsUsable (c ∷ countries) =
    let rest = read_countries-IsUsable countries in
    elim (Bool-cases (not (is_country_code c.code) || not (may_lock c.locked))) [
      | inl e ↦ rw (read_countries, e) rest
      | inr e ↦ elim (field_cases c.cities) [
        | inl (inl k) ↦ rw (read_countries, e, k) rest
        | inl (inr k) ↦ rw (read_countries, e, k) rest
        | inr (cities, k) ↦ rw (read_countries, e, k) (city_servers-IsUsable cities, rest)
      ]
    ]

-- An entry of the map: its key is its country's code, and its servers are sound.
abbrev pub IsEntry : Text × Location → Type 0
IsEntry e = (e.0 ≡ e.1.code) × IsSound e.1

All-put :
    (k : Text) (v : Location) (m : List (Text × Location))
    → IsEntry (k, v)
    → All IsEntry m
    → All IsEntry (put k v m)
unfolding put
All-put k v [] h a = (h, tt)
All-put k v ((j, w) ∷ m) h a = elim (Bool-cases (j === k)) [
  | inl e ↦ rw e (h, a.1)
  | inr e ↦ rw e (a.0, All-put k v m h a.1)
]

All-get :
    (k : Text) (v : Location) (m : List (Text × Location))
    → All IsEntry m
    → get k m ≡ some v
    → IsEntry (k, v)
unfolding get
All-get k v [] a h = absurd (ground arith)
All-get k v ((j, w) ∷ m) a h = elim (Bool-cases (j === k)) [
  | inl e ↦
      let same = some_injective (rw e at h) in
      (sym ((===_iff j k).0 e) ∙ a.0.0 ∙ ap (λ l. l.code) same, subst IsSound same a.0.1)
  | inr e ↦ All-get k v m a.1 (rw e at h)
]

abbrev pub IsCatalog : List (Text × Location) → Type 0
IsCatalog m = Distinct m × All IsEntry m

pub merge_countries-IsCatalog :
    (countries : List Location) (m : List (Text × Location))
    → All (λ l. All IsUsable l.servers) countries
    → IsCatalog m
    → IsCatalog (merge_countries countries m)
unfolding merge_countries
merge_countries-IsCatalog [] m a c = c
merge_countries-IsCatalog (l ∷ countries) m a (d, e) = elim (Option-cases (get l.code m)) [
  | inl k ↦
      let sound = add_servers-IsSound l.servers [] a.0 tt tt in
      rw k (
        merge_countries-IsCatalog countries _ a.1
          (put-Distinct l.code _ m d, All-put l.code _ m (refl, sound) e))
  | inr (dest, k) ↦
      let (code, (usable, alone)) = All-get l.code dest m e k in
      let sound = add_servers-IsSound l.servers dest.servers a.0 usable alone in
      rw k (
        merge_countries-IsCatalog countries _ a.1
          (put-Distinct l.code _ m d, All-put l.code _ m (code, sound) e))
]

-- No two locations have the same code.
abbrev pub HasOneEach : List (Location × Bool) → Type 0
HasOneEach [] = Unit
HasOneEach (l ∷ locations) =
    (any (λ m. m.0.code === l.0.code) locations ≡ false) × HasOneEach locations

abbrev pub listed : Text × Location → Location × Bool
listed c = (c.1, ltb 0 (length c.1.servers))

no_code :
    (k : Text) (m : List (Text × Location))
    → All IsEntry m
    → get k m ≡ none
    → any (λ l. l.0.code === k) (map listed m) ≡ false
unfolding get
no_code k [] a h = refl
no_code k ((j, l) ∷ m) a h = elim (Bool-cases (j === k)) [
  | inl e ↦ absurd (let n = (rw e at h) in cc)
  | inr e ↦ rw (← a.0.0, e) (no_code k m a.1 (rw e at h))
]

entries-HasOneEach :
    (m : List (Text × Location))
    → IsCatalog m
    → HasOneEach (map listed m)
      × All (λ l. IsSound l.0 × (l.1 ≡ ltb 0 (length l.0.servers))) (map listed m)
entries-HasOneEach [] c = (tt, tt)
entries-HasOneEach ((k, l) ∷ m) (d, a) =
    let (one, sound) = entries-HasOneEach m (d.1, a.1) in
    (
      (
        subst (λ x. any (λ m. m.0.code === x) (map listed m) ≡ false) a.0.0 (no_code k m a.1 d.0),
        one,
      ),
      ((a.0.1, refl), sound),
    )

-- The locations of a catalogue that is taken: no two have one code, the servers of each have a name of
-- the service and a port in range and are listed once, and a location is available exactly where it
-- has a server.
pub locations-IsSound :
    (records : Field (List Country)) (found : List (Location × Bool))
    → locations records ≡ some found
    → HasOneEach found × All (λ l. IsSound l.0 × (l.1 ≡ ltb 0 (length l.0.servers))) found
unfolding locations
locations-IsSound missing found h = absurd (ground arith)
locations-IsSound other found h = absurd (ground arith)
locations-IsSound (has records) found h = elim (Bool-cases (ltb 1000 (length records))) [
  | inl e ↦ absurd (let k = (rw (locations, e) at h) in cc)
  | inr e ↦
      let made = some_injective (rw (locations, e) at h) in
      subst (λ x. HasOneEach x × All (λ l. IsSound l.0 × (l.1 ≡ ltb 0 (length l.0.servers))) x) made
        (entries-HasOneEach _ (
          merge_countries-IsCatalog (read_countries records) [] (read_countries-IsUsable records)
            (tt, tt)))
]
