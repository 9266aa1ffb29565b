-- ===== src/Tests/Tokens.antt =====
-- Download links (backend/src/services/users.js, backend/src/server.js) at concrete inputs.
use zvpn.Base.{◌≡◌, refl, true, false, some, List, [], ◌∷◌, Text, codes, ◌===◌}
use zvpn.Accounts.{activated, active}
use zvpn.Tokens.{Holder, token_user, reset_user_password, resets, disconnects_user}
use zvpn.Tokens.Found.{reset_user_password-token_user}

abbrev holder : Text → Text → Holder
holder id token = record {
  id = id;
  username = id;
  secret = codes "old";
  download_token = token;
  expires_at = 10;
  revoked = false;
  activation_status = activated;
  provisioning_status = active;
}

abbrev holders : List Holder
holders = holder (codes "1") (codes "a") ∷ holder (codes "2") (codes "b") ∷ []

abbrev after : List Holder
after =
    record (holder (codes "1") (codes "c")) { secret = codes "new"; expires_at = 99 }
    ∷ holder (codes "2") (codes "b")
    ∷ []

resets_one :
    reset_user_password (codes "1") (codes "new") (codes "c") 99 true holders
    ≡ resets after true (disconnects_user (codes "1") ∷ [])
unfolding reset_user_password ◌===◌
resets_one = refl

reset_user_password-token_user_example :
    (h : Holder) × (token_user (codes "c") after ≡ some h)
    × (h.id ≡ codes "1")
    × (h.secret ≡ codes "new")
    × (disconnects_user (codes "1") ∷ [] ≡ disconnects_user h.username ∷ [])
unfolding ◌===◌
reset_user_password-token_user_example =
    (reset_user_password-token_user (codes "1") (codes "new") (codes "c") 99 true true holders after
      (disconnects_user (codes "1") ∷ []) resets_one refl).0
