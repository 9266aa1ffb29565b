-- ===== src/Firefox.antt =====
-- ops/firefox/core.mjs: the catalogue of the provider's locations, its quota and errors, the
-- callback of its login, and the authority of a tunnel.
pub mod Catalog
pub mod Offered
pub mod Listed
pub mod Tunnels
pub mod Pooled
pub mod Drained
pub mod Reuse
use zvpn.Base.{
  ℕ, ◌+◌, ◌≡◌, Bool, true, false, not, ◌&&◌, ◌||◌, Option, none, some, List, [], ◌∷◌, ◌++◌, Text,
  codes, get, put, ◌===◌, ◌==◌, ltb, leb, keep, any, every, map, take, length, if◌then◌else◌,
  is_empty, is_digit, is_lower, is_upper, show_number, split_on,
}

-- A field that may be missing, or hold a value of another type.
pub data Field {ℓ} (A : Type ℓ) : Type ℓ where
  missing : Field A
  has : A → Field A
  other : Field A

pub record Server : Type 0 where
  pub hostname : Text
  pub port : ℕ

pub record ServerEntry : Type 0 where
  pub quarantined : Field Bool
  pub hostname : Text
  pub port : Field ℕ
  pub protocols : Field (List (Option Text))

pub record Country : Type 0 where
  pub code : Text
  pub name : Text
  pub locked : Field Bool
  pub cities : Field (List (List ServerEntry))

pub record Location : Type 0 where
  pub code : Text
  pub name : Text
  pub servers : List Server

-- `/^[A-Z]{2}$/`
unfoldable pub is_country_code : Text → Bool
is_country_code t = length t == 2 && every is_upper t

-- `/^[a-z0-9-]+\.m[0-9]+\.fastly-masque\.net$/`
unfoldable pub is_masque_host : Text → Bool
is_masque_host t = elim (split_on b'.' t) [
  | host ∷ (m ∷ number) ∷ fastly ∷ net ∷ [] ↦
      not (is_empty host)
      && every (λ c. is_lower c || is_digit c || c == b'-') host
      && m == b'm'
      && not (is_empty number)
      && every is_digit number
      && fastly === codes "fastly-masque"
      && net === codes "net"
  | _ ↦ false
]

abbrev pub port_of : Field ℕ → Option ℕ
port_of missing = some 443
port_of (has n) = if leb 1 n && leb n 65535 then some n else none
port_of other = none

abbrev pub is_https : Option Text → Bool
is_https none = false
is_https (some t) = t === codes "https"

abbrev pub may_https : Field (List (Option Text)) → Bool
may_https missing = true
may_https (has protocols) = every is_https protocols
may_https other = false

abbrev pub is_released : Field Bool → Bool
is_released missing = true
is_released (has b) = not b
is_released other = false

-- A server of the catalogue, where it can be used.
unfoldable pub server_of : ServerEntry → Option Server
unfolding is_masque_host
server_of s =
    if not (is_released s.quarantined) || not (is_masque_host s.hostname)
    then none
    else elim (port_of s.port) [
      | none ↦ none
      | some port ↦
          if may_https s.protocols
          then some (record { hostname = s.hostname; port = port })
          else none
    ]

unfoldable pub servers_of : List ServerEntry → List Server
unfolding server_of
servers_of [] = []
servers_of (s ∷ entries) = elim (server_of s) [
  | none ↦ servers_of entries
  | some server ↦ server ∷ servers_of entries
]

unfoldable pub city_servers : List (List ServerEntry) → List Server
unfolding servers_of
city_servers [] = []
city_servers (c ∷ cities) = servers_of c ++ city_servers cities

abbrev pub may_lock : Field Bool → Bool
may_lock missing = true
may_lock (has b) = true
may_lock other = false

-- The first loop of `locations`: the countries that are well formed, with their servers.
unfoldable pub read_countries : List Country → List Location
unfolding is_country_code city_servers
read_countries [] = []
read_countries (c ∷ countries) =
    let rest = read_countries countries in
    if not (is_country_code c.code) || not (may_lock c.locked) then rest else elim c.cities [
      | missing ↦ rest
      | other ↦ rest
      | has cities ↦
          (record {
            code = c.code;
            name = take 100 (if is_empty c.name then c.code else c.name);
            servers = city_servers cities;
          })
          ∷ rest
    ]

abbrev pub is_server : Server → Server → Bool
is_server s t = s.hostname === t.hostname && s.port == t.port

-- The servers that are not there yet, at the end.
unfoldable pub add_servers : List Server → List Server → List Server
add_servers [] there = there
add_servers (s ∷ servers) there =
    let next =
      add_servers servers (if any (λ t. is_server t s) there then there else there ++ s ∷ []) in
    next

-- The second loop: the countries by their codes.
unfoldable pub merge_countries : List Location → List (Text × Location) → List (Text × Location)
unfolding add_servers
merge_countries [] merged = merged
merge_countries (c ∷ countries) merged =
    let dest : Location = elim (get c.code merged) [
      | none ↦ record c { servers = [] }
      | some d ↦ d
    ] in
    merge_countries countries
      (put c.code (record dest { servers = add_servers c.servers dest.servers }) merged)

-- `locations`, with `available`; `none` is CATALOG_INVALID.
unfoldable pub locations : Field (List Country) → Option (List (Location × Bool))
unfolding read_countries merge_countries
locations missing = none
locations other = none
locations (has records) =
    if ltb 1000 (length records)
    then none
    else some
        (map (λ c. (c.1, ltb 0 (length c.1.servers))) (merge_countries (read_countries records) []))

pub data ServiceError : Type 0 where
  reauth_required : ServiceError
  quota_exhausted : ServiceError
  region_unavailable : ServiceError
  account_not_eligible : ServiceError
  provider_http : ℕ → ServiceError

-- `serviceError`; the flag is whether the source is the guardian.
unfoldable pub service_error : ℕ → Bool → ServiceError
service_error status is_guardian =
    if status == 401
    then reauth_required
    else if status == 429 && is_guardian
    then quota_exhausted
    else if status == 451
    then region_unavailable
    else if status == 403
    then account_not_eligible
    else provider_http status

pub record Quota : Type 0 where
  pub limit : Option Text
  pub remaining : Option Text
  pub reset : Option Text
  pub unlimited : Option Bool

abbrev pub integer_header : Option Text → Option Text
integer_header none = none
integer_header (some t) = if not (is_empty t) && every is_digit t then some t else none

-- `quota`, of the four headers; the parser of dates is a parameter.
unfoldable pub quota : (Text → Bool) → Option Text → Option Text → Option Text → Option Text → Quota
quota is_date limit remaining reset unlimited = record {
  limit = integer_header limit;
  remaining = integer_header remaining;
  reset = elim reset [ none ↦ none | some t ↦ if is_date t then some t else none ];
  unlimited = elim unlimited [
    | none ↦ none
    | some t ↦
        if t === codes "true" then some true else if t === codes "false" then some false else none
  ];
}

pub record Attempt : Type 0 where
  pub owner : Text
  pub state : Text
  pub expires : ℕ

-- What is read of a URL: origin and path, and its parameters in order.
pub record Url : Type 0 where
  pub origin : Text
  pub pathname : Text
  pub parameters : List (Text × Text)

pub data Callback : Type 0 where
  login_expired : Callback
  invalid_callback : Callback
  code : Text → Callback

abbrev pub get_all : Text → Url → List Text
get_all name url = map (λ p. p.1) (keep (λ p. p.0 === name) url.parameters)

abbrev pub is_empty_list : List Text → Bool
is_empty_list [] = true
is_empty_list (t ∷ ts) = false

-- `callbackCode`, of the attempt, where there is one, and the parsed URL and redirect.
unfoldable pub callback_code : ℕ → Url → Option Attempt → Text → Option Url → Callback
callback_code now redirect none owner url = login_expired
callback_code now redirect (some attempt) owner url =
    if not (attempt.owner === owner) || ltb attempt.expires now then login_expired else elim url [
      | none ↦ invalid_callback
      | some url ↦
          if not (url.origin === redirect.origin) || not (url.pathname === redirect.pathname)
          then invalid_callback
          else elim (get_all (codes "state") url) [
            | state ∷ [] ↦ elim (get_all (codes "code") url) [
              | c ∷ [] ↦
                  if not (state === attempt.state)
                    || is_empty c
                    || not (is_empty_list (get_all (codes "error") url))
                  then invalid_callback
                  else code c
              | _ ↦ invalid_callback
            ]
            | _ ↦ invalid_callback
          ]
    ]
