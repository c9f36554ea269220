-- ===== src/Common/Texts.antt =====
-- Texts as lists of bytes, and their comparison.
use Prim.Native.Nat.{ℕ}
use Prim.Native.Char.{code}
use Prim.Native.String.{String}
use mathlib.Core.Path.{◌≡◌, refl}
use mathlib.Core.Bool.{Bool, true, false}
use mathlib.Core.List.{List, [], ◌∷◌}
use native.Mathlib.Decide.{ℕ_discrete}
use native.Mathlib.Omega.{arith}

abbrev pub Text : Type 0
Text = List ℕ

-- The bytes of an ASCII literal.
abbrev pub codes : String → Text
codes String.[] = []
codes (String.◌∷◌ c s) = code c ∷ codes s

unfoldable pub Text-discrete : Discrete Text
unfolding ℕ_discrete
Text-discrete = hlevel ℕ_discrete

abbrev pub text_eq : Text → Text → Bool
text_eq a b = elim (Text-discrete a b) [ yes _ ↦ true | no _ ↦ false ]

pub text_eq_refl : (a : Text) → text_eq a a ≡ true
text_eq_refl a = ground arith

same_text : text_eq (codes "ab") (codes "ab") ≡ true
unfolding Text-discrete
same_text = refl

other_text : text_eq (codes "ab") (codes "ac") ≡ false
unfolding Text-discrete
other_text = refl

pub text_eq→≡ : (a b : Text) → text_eq a b ≡ true → a ≡ b
text_eq→≡ a b h = ground arith
