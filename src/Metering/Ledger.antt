-- ===== src/Metering/Ledger.antt =====
-- The balance of an account against its parts and its usage rows, kept by every metering operation.
use zvpn.Base.{
  ℕ, ◌+◌, ◌≤◌, ◌≡◌, ◌≢◌, refl, some, List, [], ◌∷◌, Text, ◌===◌, ===_iff, get, arith, if◌then◌else◌,
}
use zvpn.Accounts.{Account}
use zvpn.Metering.Tables.{Usage, Database, merge_usage, add_usage, without}

-- What the rows of a user add up to.
unfoldable pub summed : (Usage → ℕ) → Text → List Usage → ℕ
summed f id [] = 0
summed f id (u ∷ rows) = (if u.user_id === id then f u else 0) + summed f id rows

pub summed-add_usage :
    (f : Usage → ℕ) (id : Text) (u : Usage) (rows : List Usage)
    → ((v : Usage) → f (merge_usage v u) ≡ f v + f u)
    → summed f id (add_usage u rows) ≡ summed f id rows + (if u.user_id === id then f u else 0)
unfolding summed add_usage
summed-add_usage f id u [] m = omega arith
summed-add_usage f id u (v ∷ rows) m =
    ground (arith, m v, summed-add_usage f id u rows m, ===_iff v.user_id u.user_id)

pub summed-without_self :
    (f : Usage → ℕ) (id : Text) (rows : List Usage) → summed f id (without id rows) ≡ 0
unfolding summed
summed-without_self f id [] = refl
summed-without_self f id (u ∷ rows) = ground (arith, summed-without_self f id rows)

pub summed-without_ne :
    (f : Usage → ℕ) (id j : Text) (rows : List Usage)
    → id ≢ j
    → summed f j (without id rows) ≡ summed f j rows
unfolding summed
summed-without_ne f id j [] ne = refl
summed-without_ne f id j (u ∷ rows) ne =
    ground (arith, summed-without_ne f id j rows ne, ===_iff u.user_id id, ===_iff u.user_id j)

-- The balance is what was uploaded and downloaded; no transport has more than its share.
pub record IsBalanced (a : Account) : Type 0 where
  pub split : a.upload_bytes + a.download_bytes ≡ a.usage_total
  pub transports : a.ike_relay_usage_bytes + a.xray_usage_bytes ≤ a.usage_total
  pub routes :
      a.netlify_usage_bytes + a.xray_legacy_usage_bytes + a.xray_iran_usage_bytes
      ≤ a.xray_usage_bytes

-- The rows of an account add up to its balance, and those of the two relays to their parts.
pub record AddsUp (id : Text) (a : Account) (rows : List Usage) : Type 0 where
  pub all : summed (λ u. u.bytes) id rows ≡ a.usage_total
  pub relay : summed (λ u. u.ike_relay_bytes) id rows ≡ a.ike_relay_usage_bytes
  pub iran : summed (λ u. u.xray_iran_bytes) id rows ≡ a.xray_iran_usage_bytes

pub record IsEntered (id : Text) (a : Account) (daily_rows hourly_rows : List Usage) : Type 0 where
  pub balanced : IsBalanced a
  pub daily : AddsUp id a daily_rows
  pub hourly : AddsUp id a hourly_rows

-- Every account of the database is entered.
abbrev pub IsConsistent : Database → Type 0
IsConsistent db =
    (id : Text) (a : Account)
    → get id db.accounts ≡ some a
    → IsEntered id a db.usage_daily db.usage_hourly
