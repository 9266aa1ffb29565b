-- ===== src/Firefox/Offered.antt =====
-- What the catalogue that `locations` of ops/firefox/core.mjs makes has of the records.
use zvpn.Base.{
  ℕ, ◌≡◌, inl, inr, refl, sym, ap₂, ◌∙◌, Bool, true, false, not, ◌&&◌, ◌||◌, none, some, List, [],
  ◌∷◌, ◌++◌, Text, ◌===◌, ◌==◌, leb, any, any-append, Bool-cases, Option-cases, arith, ===_iff,
  ===_flip, ==_iff, every,
}
use zvpn.Firefox.{
  Field, missing, has, other, Server, ServerEntry, Country, Location, is_masque_host, port_of,
  server_of, servers_of, city_servers, read_countries, is_server, add_servers, may_https,
  is_released, is_country_code, may_lock, is_https,
}
use zvpn.Firefox.Catalog.{field_cases}

abbrev pub has_port : ℕ → Field ℕ → Bool
has_port n missing = n == 443
has_port n (has m) = leb 1 m && leb m 65535 && n == m
has_port n other = false

-- A record offers the server: it is not quarantined, its name is one of the service, its port is in
-- range or missing, and it lists no protocol but https.
abbrev pub offers : Server → ServerEntry → Bool
offers s e =
    (elim e.quarantined [ missing ↦ true | has b ↦ not b | other ↦ false ])
    && is_masque_host e.hostname
    && has_port s.port e.port
    && (elim e.protocols [ missing ↦ true | has ps ↦ every is_https ps | other ↦ false ])
    && s.hostname === e.hostname

-- A country of the code that is well formed.
abbrev pub is_country : Text → Country → Bool
is_country code c =
    is_country_code c.code
    && (elim c.locked [ missing ↦ true | has b ↦ true | other ↦ false ])
    && (elim c.cities [ missing ↦ false | has cities ↦ true | other ↦ false ])
    && c.code === code

abbrev pub city_offers : Server → Field (List (List ServerEntry)) → Bool
city_offers s missing = false
city_offers s other = false
city_offers s (has cities) = any (any (offers s)) cities

-- A location of the code that has the server.
abbrev gives : Text → Server → Location → Bool
gives code s l = l.code === code && any (λ t. is_server t s) l.servers

no_port : (f : Field ℕ) (n : ℕ) → port_of f ≡ none → has_port n f ≡ false
no_port missing n h = absurd (ground arith)
no_port (has m) n h = ground arith
no_port other n h = refl

some_port : (f : Field ℕ) (n port : ℕ) → port_of f ≡ some port → has_port n f ≡ (n == port)
some_port missing n port h = ground arith
some_port (has m) n port h = ground arith
some_port other n port h = absurd (ground arith)

===_swap : (s t : Text) → (s === t) ≡ (t === s)
===_swap s t = elim (Bool-cases (s === t)) [
  | inl e ↦ rw ((===_iff s t).0 e) refl
  | inr e ↦ e ∙ sym (===_flip s t e)
]

==_swap : (m n : ℕ) → (m == n) ≡ (n == m)
==_swap m n = ground arith

flip_server :
    (e : ServerEntry) (s : Server) (port : ℕ)
    → is_server (record { hostname = e.hostname; port = port }) s
      ≡ (s.port == port && s.hostname === e.hostname)
flip_server e s port =
    let host = ===_swap s.hostname e.hostname in let same = ==_swap s.port port in ground arith

refused : (a b c d f : Bool) → (not a || not b) ≡ true → false ≡ (a && b && c && d && f)
refused a b c d f h = ground arith

refused_port : (a b c d f : Bool) → c ≡ false → false ≡ (a && b && c && d && f)
refused_port a b c d f h = ground arith

refused_protocols : (a b c d f : Bool) → d ≡ false → false ≡ (a && b && c && d && f)
refused_protocols a b c d f h = ground arith

taken :
    (a b c d f p x : Bool)
    → (not a || not b) ≡ false
    → c ≡ p
    → d ≡ true
    → x ≡ (p && f)
    → x ≡ (a && b && c && d && f)
taken a b c d f p x h k l m = ground arith

server_of-offers :
    (s : Server) (e : ServerEntry)
    → (elim (server_of e) [ none ↦ false | some t ↦ is_server t s ]) ≡ offers s e
unfolding server_of
server_of-offers s e =
    elim (Bool-cases (not (is_released e.quarantined) || not (is_masque_host e.hostname))) [
      | inl k ↦
          rw (server_of, k)
            (refused (is_released e.quarantined) (is_masque_host e.hostname)
              (has_port s.port e.port) (may_https e.protocols) (s.hostname === e.hostname) k)
      | inr k ↦ elim (Option-cases (port_of e.port)) [
        | inl l ↦
            rw (server_of, k, l)
              (refused_port (is_released e.quarantined) (is_masque_host e.hostname)
                (has_port s.port e.port) (may_https e.protocols) (s.hostname === e.hostname)
                (no_port e.port s.port l))
        | inr (port, l) ↦ elim (Bool-cases (may_https e.protocols)) [
          | inr m ↦
              rw (server_of, k, l, m)
                (refused_protocols (is_released e.quarantined) (is_masque_host e.hostname)
                  (has_port s.port e.port) false (s.hostname === e.hostname) refl)
          | inl m ↦
              rw (server_of, k, l, m)
                (taken (is_released e.quarantined) (is_masque_host e.hostname)
                  (has_port s.port e.port) true (s.hostname === e.hostname) (s.port == port) _ k
                  (some_port e.port s.port port l) refl (flip_server e s port))
        ]
      ]
    ]

any-servers_of :
    (s : Server) (entries : List ServerEntry)
    → any (λ t. is_server t s) (servers_of entries) ≡ any (offers s) entries
unfolding servers_of
any-servers_of s [] = refl
any-servers_of s (e ∷ entries) = elim (Option-cases (server_of e)) [
  | inl k ↦
      let one = (rw k at (server_of-offers s e)) in
      rw (servers_of, k) (any-servers_of s entries ∙ rw (← one) refl)
  | inr (t, k) ↦
      let one = (rw k at (server_of-offers s e)) in
      rw (servers_of, k) (ap₂ (λ x y. x || y) one (any-servers_of s entries))
]

any-city_servers :
    (s : Server) (cities : List (List ServerEntry))
    → any (λ t. is_server t s) (city_servers cities) ≡ any (any (offers s)) cities
unfolding city_servers
any-city_servers s [] = refl
any-city_servers s (c ∷ cities) =
    any-append (λ t. is_server t s) (servers_of c) (city_servers cities)
    ∙ ap₂ (λ x y. x || y) (any-servers_of s c) (any-city_servers s cities)

no_code_of : (a b c d rest : Bool) → (not a || not b) ≡ true → rest ≡ ((a && b && c && d) || rest)
no_code_of a b c d rest h = ground arith

code_of : (a b d : Bool) → (not a || not b) ≡ false → d ≡ (a && b && true && d)
code_of a b d h = ground arith

no_country :
    (a b c d x rest : Bool) → (not a || not b) ≡ true → rest ≡ (((a && b && c && d) && x) || rest)
no_country a b c d x rest h = ground arith

no_cities : (a b c d x rest : Bool) → c ≡ false → rest ≡ (((a && b && c && d) && x) || rest)
no_cities a b c d x rest h = ground arith

a_country :
    (a b c d x y : Bool)
    → (not a || not b) ≡ false
    → c ≡ true
    → x ≡ y
    → (d && x) ≡ ((a && b && c && d) && y)
a_country a b c d x y h k l = ground arith

pub any-codes :
    (code : Text) (countries : List Country)
    → any (λ l. l.code === code) (read_countries countries) ≡ any (is_country code) countries
unfolding read_countries
any-codes code [] = refl
any-codes code (c ∷ countries) =
    let rest = any-codes code countries in
    elim (Bool-cases (not (is_country_code c.code) || not (may_lock c.locked))) [
      | inl e ↦
          rw (read_countries, e)
            (rest ∙ no_code_of (is_country_code c.code) (may_lock c.locked) _ (c.code === code) _ e)
      | inr e ↦ elim (field_cases c.cities) [
        | inl (inl k) ↦ rw (read_countries, e, k) (rest ∙ ground arith)
        | inl (inr k) ↦ rw (read_countries, e, k) (rest ∙ ground arith)
        | inr (cities, k) ↦
            rw (read_countries, e, k)
              (ap₂ (λ x y. x || y)
                (code_of (is_country_code c.code) (may_lock c.locked) (c.code === code) e) rest)
      ]
    ]

pub any-read_countries :
    (code : Text) (s : Server) (countries : List Country)
    → any (gives code s) (read_countries countries)
      ≡ any (λ c. is_country code c && city_offers s c.cities) countries
unfolding read_countries
any-read_countries code s [] = refl
any-read_countries code s (c ∷ countries) =
    let rest = any-read_countries code s countries in
    elim (Bool-cases (not (is_country_code c.code) || not (may_lock c.locked))) [
      | inl e ↦
          rw (read_countries, e)
            (rest
              ∙ no_country (is_country_code c.code) (may_lock c.locked) _ (c.code === code) _ _ e)
      | inr e ↦ elim (field_cases c.cities) [
        | inl (inl k) ↦
            rw (read_countries, e, k)
              (rest
                ∙ no_cities (is_country_code c.code) (may_lock c.locked) false (c.code === code) _ _
                    refl)
        | inl (inr k) ↦
            rw (read_countries, e, k)
              (rest
                ∙ no_cities (is_country_code c.code) (may_lock c.locked) false (c.code === code) _ _
                    refl)
        | inr (cities, k) ↦
            rw (read_countries, e, k)
              (ap₂ (λ x y. x || y)
                (a_country (is_country_code c.code) (may_lock c.locked) true (c.code === code) _ _ e
                  refl (any-city_servers s cities))
                rest)
      ]
    ]

same_server : (t x s : Server) → is_server t x ≡ true → is_server t s ≡ is_server x s
same_server t x s h =
    let host : t.hostname ≡ x.hostname = (===_iff t.hostname x.hostname).0 (ground arith) in
    let port : t.port ≡ x.port = (==_iff t.port x.port).0 (ground arith) in
    ap₂ (λ a b. a === s.hostname && b == s.port) host port

any_twin :
    (x s : Server) (there : List Server)
    → any (λ t. is_server t x) there ≡ true
    → is_server x s ≡ true
    → any (λ t. is_server t s) there ≡ true
any_twin x s [] h k = cc
any_twin x s (t ∷ there) h k = elim (Bool-cases (is_server t x)) [
  | inl e ↦ rw (same_server t x s e, k) refl
  | inr e ↦ let rest = any_twin x s there (rw e at h) k in ground arith
]

pub any-add_servers :
    (s : Server) (servers there : List Server)
    → any (λ t. is_server t s) (add_servers servers there)
      ≡ (any (λ t. is_server t s) servers || any (λ t. is_server t s) there)
unfolding add_servers
any-add_servers s [] there = refl
any-add_servers s (x ∷ servers) there = elim (Bool-cases (any (λ t. is_server t x) there)) [
  | inl e ↦
      rw e (any-add_servers s servers there ∙ (let twin = any_twin x s there e in ground arith))
  | inr e ↦ rw e (
      any-add_servers s servers (there ++ x ∷ [])
      ∙ (let split = any-append (λ t. is_server t s) there (x ∷ []) in ground arith))
]
