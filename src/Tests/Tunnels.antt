-- ===== src/Tests/Tunnels.antt =====
-- The locations and the tunnel pool (ops/firefox/core.mjs) at concrete inputs.
use zvpn.Base.{
  ◌≡◌, ◌≢◌, refl, Bool, true, false, some, List, [], ◌∷◌, Text, codes, ◌===◌, get, put, length, ltb,
  any, ◌&&◌, All, split_on,
}
use zvpn.Firefox.{missing, has, Server, ServerEntry, Country, Location, locations, is_masque_host}
use zvpn.Firefox.Tunnels.{
  Transport, Pool, empty_pool, new_transport, pick, session_connect, session_goaway, stream_errors,
  stream_responds, stream_ends, waiting, connected,
}
use zvpn.Firefox.Catalog.{HasOneEach, IsSound}
use zvpn.Firefox.Offered.{is_country, city_offers}
use zvpn.Firefox.Listed.{any_listed, has_server, locations-any_listed}
use zvpn.Firefox.Pooled.{PoolReached, at_start, after_step, picks, connects, IsPool}
use zvpn.Firefox.Drained.{PoolReached-IsPool}
use zvpn.Firefox.Reuse.{goaway-drains, end_streams, stream_ends-settled, run_stream, new_stream}

abbrev entry : Text → ServerEntry
entry hostname = record {
  quarantined = missing;
  hostname = hostname;
  port = missing;
  protocols = missing;
}

-- One server is offered, one is quarantined, one speaks another protocol, one is another host.
abbrev records : List Country
records =
    record {
      code = codes "DE";
      name = codes "Germany";
      locked = missing;
      cities = has (
          (entry (codes "a.m1.fastly-masque.net")
            ∷ record (entry (codes "b.m1.fastly-masque.net")) { quarantined = has true }
            ∷ record (entry (codes "c.m1.fastly-masque.net")) {
              protocols = has (some (codes "connect") ∷ []);
            }
            ∷ entry (codes "example.com")
            ∷ [])
          ∷ []);
    }
    ∷ record { code = codes "x"; name = []; locked = missing; cities = missing }
    ∷ []

abbrev found : List (Location × Bool)
found =
    (
      record {
        code = codes "DE";
        name = codes "Germany";
        servers = record { hostname = codes "a.m1.fastly-masque.net"; port = 443 } ∷ [];
      },
      true,
    )
    ∷ []

finds : locations (has records) ≡ some found
unfolding locations is_masque_host split_on ◌===◌ put get
finds = refl

locations-any_listed_example :
    HasOneEach found
    × All (λ l. IsSound l.0 × (l.1 ≡ ltb 0 (length l.0.servers))) found
    × ((code : Text) → any_listed (λ l. true) code found ≡ any (is_country code) records)
    × ((code : Text) (s : Server)
        → any_listed (has_server s) code found
          ≡ any (λ c. is_country code c && city_offers s c.cities) records)
locations-any_listed_example = locations-any_listed records found finds

abbrev key : Text
key = codes "a.m1.fastly-masque.net:443"

abbrev picked : Pool
picked = (pick key empty_pool).1

reached : PoolReached (session_connect 0 picked)
reached =
    after_step picked (session_connect 0 picked)
      (after_step empty_pool picked at_start (picks key empty_pool)) (connects 0 picked)

PoolReached-IsPool_example : IsPool (session_connect 0 picked)
PoolReached-IsPool_example = PoolReached-IsPool (session_connect 0 picked) reached

-- A connected transport with two streams.
abbrev busy : Transport
busy = record (new_transport key) { ready = connected; streams = 5 ∷ 6 ∷ [] }

abbrev busy_pool : Pool
busy_pool = record empty_pool { store = λ i. some busy }

goaway-drains_example :
    (t : Transport) × ((end_streams 0 (6 ∷ 5 ∷ []) (session_goaway 0 busy_pool)).store 0 ≡ some t)
    × (t.usable ≡ false)
    × (t.is_gone ≡ true)
    × (t.streams ≡ [])
goaway-drains_example = goaway-drains 0 busy_pool busy refl (6 ∷ 5 ∷ []) refl

stream_ends-settled_example :
    ((run_stream (stream_errors ∷ stream_ends ∷ []) new_stream).settled ≢ waiting)
    × ((run_stream
          (stream_responds 200 ∷ [])
          (run_stream (stream_errors ∷ stream_ends ∷ []) new_stream)).settled
        ≡ (run_stream (stream_errors ∷ stream_ends ∷ []) new_stream).settled)
stream_ends-settled_example = stream_ends-settled (stream_errors ∷ []) (stream_responds 200 ∷ [])
