-- ===== src/Firefox/Listed.antt =====
-- Which locations and servers the catalogue of `locations` (ops/firefox/core.mjs) lists.
use zvpn.Base.{
  ◌≡◌, inl, inr, refl, sym, ap, ◌∙◌, subst, Bool, true, false, ◌&&◌, ◌||◌, Option, none, some, List,
  [], ◌∷◌, Text, get, put, get-put, ◌===◌, ltb, any, map, length, All, Bool-cases, Option-cases,
  arith, ===_iff, some_injective,
}
use zvpn.Firefox.{
  has, Server, Country, Location, is_server, read_countries, add_servers, merge_countries,
  locations,
}
use zvpn.Firefox.Catalog.{
  HasOneEach, IsSound, IsCatalog, listed, locations-IsSound, merge_countries-IsCatalog,
  read_countries-IsUsable,
}
use zvpn.Firefox.Offered.{is_country, city_offers, any-add_servers, any-read_countries, any-codes}

-- A location of the code that is listed passes the test.
abbrev pub any_listed : (Location → Bool) → Text → List (Location × Bool) → Bool
any_listed f code found = any (λ l. l.0.code === code && f l.0) found

abbrev pub has_server : Server → Location → Bool
has_server s l = any (λ t. is_server t s) l.servers

-- The location of the code in the map passes the test.
abbrev passes : (Location → Bool) → Option Location → Bool
passes f none = false
passes f (some l) = f l

-- A test that a merged location passes exactly if one of its countries does.
record Merges (f : Location → Bool) : Type 0 where
  alone : (c : Location) → f (record c { servers = add_servers c.servers [] }) ≡ f c
  both :
      (c d : Location) → f (record d { servers = add_servers c.servers d.servers }) ≡ (f c || f d)

passes-put :
    (f : Location → Bool) (code : Text) (c l : Location) (m : List (Text × Location))
    → f l ≡ (f c || passes f (get c.code m))
    → passes f (get code (put c.code l m)) ≡ ((c.code === code && f c) || passes f (get code m))
passes-put f code c l m h = elim (Bool-cases (c.code === code)) [
  | inl e ↦
      ap (passes f) (rw e at (get-put c.code code l m))
      ∙ h
      ∙ ap (λ x. f c || passes f (get x m)) ((===_iff c.code code).0 e)
      ∙ rw e refl
  | inr e ↦ ap (passes f) (rw e at (get-put c.code code l m)) ∙ rw e refl
]

merge_passes :
    (f : Location → Bool)
    → Merges f
    → (code : Text) (countries : List Location) (m : List (Text × Location))
    → passes f (get code (merge_countries countries m))
      ≡ (any (λ c. c.code === code && f c) countries || passes f (get code m))
unfolding merge_countries
merge_passes f law code [] m = refl
merge_passes f law code (c ∷ countries) m = elim (Option-cases (get c.code m)) [
  | inl k ↦
      let l : Location = record c { servers = add_servers c.servers [] } in
      let next = merge_passes f law code countries (put c.code l m) in
      let step =
        passes-put f code c l m (law.alone c ∙ (let nothing = ap (passes f) k in ground arith)) in
      rw k (next ∙ (ground arith))
  | inr (d, k) ↦
      let l : Location = record d { servers = add_servers c.servers d.servers } in
      let next = merge_passes f law code countries (put c.code l m) in
      let step =
        passes-put f code c l m (law.both c d ∙ ap (λ x. f c || x) (sym (ap (passes f) k))) in
      rw k (next ∙ (ground arith))
]

any_listed-passes :
    (f : Location → Bool) (code : Text) (m : List (Text × Location))
    → IsCatalog m
    → any_listed f code (map listed m) ≡ passes f (get code m)
unfolding get
any_listed-passes f code [] c = refl
any_listed-passes f code ((k, l) ∷ m) (d, a) =
    let rest = any_listed-passes f code m (d.1, a.1) in
    elim (Bool-cases (k === code)) [
      | inl e ↦
          let gone : get code m ≡ none = subst (λ x. get x m ≡ none) ((===_iff k code).0 e) d.0 in
          let none_left : any_listed f code (map listed m) ≡ false = rest ∙ ap (passes f) gone in
          let here : (l.code === code) ≡ true = ap (λ x. x === code) (sym a.0.0) ∙ e in
          rw (e, here, none_left) (ground arith)
      | inr e ↦
          let away : (l.code === code) ≡ false = ap (λ x. x === code) (sym a.0.0) ∙ e in
          rw (e, away) rest
    ]

server-Merges : (s : Server) → Merges (has_server s)
server-Merges s = record {
  alone = λ c. any-add_servers s c.servers [] ∙ ground arith;
  both = λ c d. any-add_servers s c.servers d.servers;
}

always-Merges : Merges (λ l. true)
always-Merges = record { alone = λ c. refl; both = λ c d. refl }

found-listed :
    (records : List Country) (found : List (Location × Bool))
    → locations (has records) ≡ some found
    → found ≡ map listed (merge_countries (read_countries records) [])
unfolding locations
found-listed records found h = elim (Bool-cases (ltb 1000 (length records))) [
  | inl e ↦ absurd (let k = (rw (locations, e) at h) in cc)
  | inr e ↦ sym (some_injective (rw (locations, e) at h))
]

passes_all :
    (f : Location → Bool)
    → Merges f
    → (code : Text) (records : List Country)
    → any_listed f code (map listed (merge_countries (read_countries records) []))
      ≡ any (λ c. c.code === code && f c) (read_countries records)
unfolding get
passes_all f law code records =
    let merged = merge_passes f law code (read_countries records) [] in
    any_listed-passes f code (merge_countries (read_countries records) []) (
      merge_countries-IsCatalog (read_countries records) [] (read_countries-IsUsable records)
        (tt, tt))
    ∙ merged
    ∙ ground arith

any-codes_true :
    (code : Text) (countries : List Location)
    → any (λ c. c.code === code && true) countries ≡ any (λ c. c.code === code) countries
any-codes_true code [] = refl
any-codes_true code (c ∷ countries) = let rest = any-codes_true code countries in ground arith

-- The locations of a catalogue that is taken are those of its well-formed countries, one for each
-- code, and the location of a code lists a server exactly if a record of a city of a well-formed
-- country of that code offers it: a record that is not quarantined, has that name, one of the
-- service, has that port, in range, or none for 443, and lists no protocol but https. Each server is
-- listed once, and a location is available exactly where it has a server.
pub locations-any_listed :
    (records : List Country) (found : List (Location × Bool))
    → locations (has records) ≡ some found
    → HasOneEach found
      × All (λ l. IsSound l.0 × (l.1 ≡ ltb 0 (length l.0.servers))) found
      × ((code : Text) → any_listed (λ l. true) code found ≡ any (is_country code) records)
      × ((code : Text) (s : Server)
          → any_listed (has_server s) code found
            ≡ any (λ c. is_country code c && city_offers s c.cities) records)
locations-any_listed records found h =
    let (one, sound) = locations-IsSound (has records) found h in
    let made = found-listed records found h in
    (
      one,
      sound,
      (λ code.
          ap (any_listed (λ l. true) code) made
          ∙ passes_all (λ l. true) always-Merges code records
          ∙ any-codes_true code (read_countries records)
          ∙ any-codes code records),
      (λ code s.
          ap (any_listed (has_server s) code) made
          ∙ passes_all (has_server s) (server-Merges s) code records
          ∙ any-read_countries code s records),
    )
