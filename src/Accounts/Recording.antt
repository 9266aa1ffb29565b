-- ===== src/Accounts/Recording.antt =====
-- `recordSession` of backend/src/worker.js, for one session of the snapshot.
use zvpn.Base.{
  ℕ, ◌&&◌, Bool, true, false, Option, none, some, List, [], ◌∷◌, Text, ◌===◌, get, if◌then◌else◌,
}
use zvpn.Accounts.{Account}
use zvpn.Accounts.Lifecycle.{awaits, has_time}
use zvpn.Accounts.Operations.{set_account, activate_on_first_connect}
use zvpn.Metering.Tables.{Database}
use zvpn.Metering.Ike.{IkeSession, record_ike_session}

-- `SELECT * FROM vpn_users WHERE username=$1`
unfoldable pub find_account : Text → List (Text × Account) → Option (Text × Account)
find_account username [] = none
find_account username ((id, a) ∷ accounts) =
    if a.username === username then some (id, a) else find_account username accounts

-- The UPDATE, WHERE id=$1.
unfoldable pub activate_row : ℕ → Text → Database → Database
unfolding activate_on_first_connect
activate_row now id db = elim (get id db.accounts) [
  | none ↦ db
  | some a ↦ set_account id (activate_on_first_connect now a) db
]

abbrev pub needs_activation : Account → Bool
needs_activation a =
    (if has_time a.first_connected_at then false else true) && awaits a.activation_status

-- A session whose name no account has is left out.
unfoldable pub record_session : ℕ → Text → Text → ℕ → Text → IkeSession → Database → Database
unfolding find_account activate_row
record_session now today hour poll_ms username s db = elim (find_account username db.accounts) [
  | none ↦ db
  | some found ↦
      record_ike_session now found.0 s today hour poll_ms
        (if needs_activation found.1 then activate_row now found.0 db else db)
]
