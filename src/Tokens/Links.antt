-- ===== src/Tokens/Links.antt =====
-- The addresses of the download links: `getBaseUrl` and `links` of backend/src/services/users.js.
use zvpn.Base.{
  ◌≡◌, refl, Bool, true, false, not, ◌&&◌, ◌||◌, Option, none, some, [], ◌∷◌, ◌++◌, Text, codes,
  ◌===◌, ◌==◌, is_empty, if◌then◌else◌,
}

-- A header that is missing is the empty text.
pub record Request : Type 0 where
  pub forwarded_proto : Text
  pub protocol : Text
  pub forwarded_host : Text
  pub host : Text

pub record Addresses : Type 0 where
  pub public_base_url : Text
  pub vpn_server : Text

unfoldable pub starts_with : Text → Text → Bool
starts_with [] t = true
starts_with (c ∷ prefix) [] = false
starts_with (c ∷ prefix) (d ∷ t) = c == d && starts_with prefix t

-- `text.includes(part)`
unfoldable pub contains : Text → Text → Bool
unfolding starts_with
contains part [] = is_empty part
contains part (c ∷ t) = starts_with part (c ∷ t) || contains part t

abbrev pub or_text : Text → Text → Text
or_text s t = if is_empty s then t else s

-- A text that is there and names no loopback.
unfoldable pub is_public : Text → Bool
unfolding contains
is_public t =
    not (is_empty t) && not (contains (codes "127.0.0.1") t) && not (contains (codes "localhost") t)

abbrev pub host_of : Request → Text
host_of r = or_text r.forwarded_host r.host

abbrev pub request_url : Request → Text
request_url r =
    or_text (or_text r.forwarded_proto r.protocol) (codes "http") ++ codes "://" ++ host_of r

-- The last part, without the request.
unfoldable pub configured_url : Addresses → Text
unfolding is_public
configured_url c =
    if is_public c.public_base_url
    then c.public_base_url
    else if not (is_empty c.vpn_server)
        && not (c.vpn_server === codes "127.0.0.1")
        && not (c.vpn_server === codes "localhost")
    then codes "http://" ++ c.vpn_server
    else c.public_base_url

unfoldable pub get_base_url : Addresses → Option Request → Text
unfolding configured_url
get_base_url c none = configured_url c
get_base_url c (some r) = if is_public (host_of r) then request_url r else configured_url c

pub record DownloadLinks : Type 0 where
  pub landing : Text
  pub android : Text
  pub ios : Text
  pub windows : Text
  pub windows_launcher : Text

unfoldable pub links : Addresses → Text → Option Request → DownloadLinks
unfolding get_base_url
links c token r =
    let base = get_base_url c r ++ codes "/d/" ++ token in
    record {
      landing = base;
      android = base ++ codes "/android.sswan";
      ios = base ++ codes "/ios.mobileconfig";
      windows = base ++ codes "/windows";
      windows_launcher = base ++ codes "/windows-launcher";
    }

-- A request to a host that is missing or names a loopback gives the links that no request gives.
pub links-loopback :
    (c : Addresses) (token : Text) (r : Request)
    → is_public (host_of r) ≡ false
    → links c token (some r) ≡ links c token none
unfolding links
links-loopback c token r e = rw (links, e) refl
