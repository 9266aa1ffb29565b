-- ===== src/Base/Texts.antt =====
-- Texts as lists of code points, with the decidable equality that the program's `===` is on them.
use Prim.Native.Nat.{ℕ}
use Prim.Native.Char.{code}
use Prim.Native.String.{String}
use mathlib.Core.Path.{◌≡◌, refl}
use mathlib.Core.Logic.{◌↔◌}
use mathlib.Core.Bool.{Bool, true, false, ◌&&◌}
use mathlib.Core.List.{List, [], ◌∷◌}
use native.Mathlib.Omega.{arith}
use zvpn.Base.Tests.{◌==◌}

abbrev pub Text : Type 0
Text = List ℕ

abbrev pub codes : String → Text
codes String.[] = []
codes (String.◌∷◌ c s) = code c ∷ codes s

infix 50 ◌===◌
unfoldable pub ◌===◌ : Text → Text → Bool
[] === [] = true
[] === (b ∷ t) = false
(a ∷ s) === [] = false
(a ∷ s) === (b ∷ t) = a == b && s === t

===_sound : (s t : Text) → (s === t) ≡ true → s ≡ t
unfolding ◌===◌
===_sound [] [] h = refl
===_sound [] (b ∷ t) h = cc
===_sound (a ∷ s) [] h = cc
===_sound (a ∷ s) (b ∷ t) h = ground (arith, ===_sound s t)

pub ===_refl : (s : Text) → (s === s) ≡ true
unfolding ◌===◌
===_refl [] = refl
===_refl (a ∷ s) = ground (arith, ===_refl s)

===_complete : (s t : Text) → s ≡ t → (s === t) ≡ true
===_complete s t e = rw (← e) (===_refl s)

pub ===_iff : (s t : Text) → ((s === t) ≡ true) ↔ (s ≡ t)
===_iff s t = (===_sound s t, ===_complete s t)

pub ===_flip : (s t : Text) → (s === t) ≡ false → (t === s) ≡ false
unfolding ◌===◌
===_flip [] [] h = h
===_flip [] (b ∷ t) h = refl
===_flip (a ∷ s) [] h = refl
===_flip (a ∷ s) (b ∷ t) h = let rest = ===_flip s t in ground arith

-- An empty text is falsy.
abbrev pub is_empty : Text → Bool
is_empty [] = true
is_empty (c ∷ s) = false
