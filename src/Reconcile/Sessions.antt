-- ===== src/Reconcile/Sessions.antt =====
-- backend/src/services/sessionReconciler.js: the sessions of a snapshot, their two orders and
-- `selectExcessSessions`. A comparator is read by `sort` through its sign only, so it returns an
-- `Ordering`. Numbers are integers, or not finite, or not a number.
use Prim.Native.Nat.{compare, Ordering}
use zvpn.Base.{
  ℕ, ◌+◌, ◌*◌, ◌-◌, Bool, ◌&&◌, Option, none, some, List, [], ◌∷◌, Text, leb, if◌then◌else◌, length,
  take, every, max,
}

pub data Number : Type 0 where
  nan : Number
  not_finite : Number
  -- `minus n` is -(n + 1).
  minus : ℕ → Number
  nat : ℕ → Number

pub record Session : Type 0 where
  pub ike_id : Option Text
  pub remote_id : Option Text
  pub established : Number

-- `Number.MAX_SAFE_INTEGER`
abbrev pub max_safe_integer : ℕ
max_safe_integer = 9007199254740991

unfoldable pub age_of : Session → ℕ
age_of s = elim s.established [ nat n ↦ n | _ ↦ max_safe_integer ]

unfoldable pub id_of : Session → Text
id_of s = elim s.ike_id [ none ↦ [] | some id ↦ id ]

is_digit : ℕ → Bool
is_digit c = leb b'0' c && leb c b'9'

decimal : ℕ → Text → ℕ
decimal acc [] = acc
decimal acc (c ∷ t) = decimal (acc * 10 + (c - b'0')) t

-- `Number(text)` on the texts that an id can be: the decimal digits that `parseSas` lets through,
-- or the empty text, which is 0.
unfoldable pub to_number : Text → Number
unfolding is_digit decimal
to_number t = if every is_digit t then nat (decimal 0 t) else nan

-- `a || b` on the results of two comparators.
abbrev pub or_else : Ordering → Ordering → Ordering
or_else Ordering.eq o = o
or_else Ordering.lt o = Ordering.lt
or_else Ordering.gt o = Ordering.gt

-- Array.prototype.sort: stable, by a comparator.
module _ {ℓ} {A : Type ℓ} (cmp : A → A → Ordering) where
  unfoldable pub insert : A → List A → List A
  insert x [] = x ∷ []
  insert x (y ∷ ys) = elim (cmp x y) [ Ordering.gt ↦ y ∷ insert x ys | _ ↦ x ∷ y ∷ ys ]

  unfoldable pub sort : List A → List A
  sort [] = []
  sort (x ∷ xs) = insert x (sort xs)

pub data Policy : Type 0 where
  disconnect_oldest : Policy
  reject_newest : Policy

-- `Math.max(1, Number(maxDevices) || 1)` of an integer that may be missing.
unfoldable pub limit_of : Option ℕ → ℕ
limit_of o = elim o [ none ↦ 1 | some n ↦ max 1 n ]

-- `localeCompare` follows the collation data of the host.
module _ (locale_compare : Text → Text → Ordering) where
  unfoldable pub numeric_or_str_compare : Text → Text → Ordering
  unfolding to_number
  numeric_or_str_compare a b = elim (to_number a) [
    | nat m ↦ elim (to_number b) [ nat n ↦ compare m n | _ ↦ locale_compare a b ]
    | _ ↦ locale_compare a b
  ]

  unfoldable pub newer : Session → Session → Ordering
  newer a b = or_else (compare (age_of a) (age_of b)) (numeric_or_str_compare (id_of b) (id_of a))

  unfoldable pub older : Session → Session → Ordering
  older a b = or_else (compare (age_of b) (age_of a)) (numeric_or_str_compare (id_of a) (id_of b))

  unfoldable pub newest_first : List Session → List Session
  unfolding newer sort insert
  newest_first = sort newer

  unfoldable pub oldest_first : List Session → List Session
  unfolding older sort insert
  oldest_first = sort older

  unfoldable pub select_excess_sessions : List Session → Option ℕ → Policy → List Session
  unfolding newest_first oldest_first limit_of
  select_excess_sessions sessions max_devices policy =
      let limit = limit_of max_devices in
      let excess = length sessions - limit in
      if leb (length sessions) limit then [] else elim policy [
        | reject_newest ↦ take excess (newest_first sessions)
        | disconnect_oldest ↦ take excess (oldest_first sessions)
      ]
