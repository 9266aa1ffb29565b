-- ===== src/Base/Splits.antt =====
-- Texts cut at a character and joined again, decimal digits, and letters.
use Prim.Native.Nat.{ℕ, zero, suc, ◌+◌, ◌*◌, ◌-◌, ◌/◌, ◌%◌}
use mathlib.Core.Bool.{Bool, ◌&&◌}
use mathlib.Core.List.{List, [], ◌∷◌}
use zvpn.Base.Tests.{ltb, leb, ◌==◌, if◌then◌else◌}
use zvpn.Base.Texts.{Text}

abbrev pub onto_head : ℕ → List Text → List Text
onto_head c [] = (c ∷ []) ∷ []
onto_head c (p ∷ parts) = (c ∷ p) ∷ parts

-- `split` at a character: never an empty list.
unfoldable pub split_on : ℕ → Text → List Text
split_on sep [] = [] ∷ []
split_on sep (c ∷ t) = if c == sep then [] ∷ split_on sep t else onto_head c (split_on sep t)

abbrev pub between : ℕ → ℕ → ℕ → Bool
between lo hi c = leb lo c && leb c hi

abbrev pub is_digit : ℕ → Bool
is_digit = between b'0' b'9'

abbrev pub is_lower : ℕ → Bool
is_lower = between b'a' b'z'

abbrev pub is_upper : ℕ → Bool
is_upper = between b'A' b'Z'

unfoldable pub decimal_from : ℕ → Text → ℕ
decimal_from acc [] = acc
decimal_from acc (c ∷ t) = decimal_from (acc * 10 + (c - b'0')) t

-- The digits of a number before the ones collected; the fuel is the number itself.
unfoldable pub digits_onto : ℕ → ℕ → Text → Text
digits_onto zero n out = out
digits_onto (suc f) n out =
    let rest = digits_onto f (n / 10) ((b'0' + n % 10) ∷ out) in
    if ltb n 10 then (b'0' + n) ∷ out else rest

-- `String(n)`
unfoldable pub show_number : ℕ → Text
unfolding digits_onto
show_number n = digits_onto (suc n) n []
