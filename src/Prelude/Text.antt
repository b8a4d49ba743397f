-- ===== src/Prelude/Text.antt =====
-- Texts as their code units, with equality.
use Prim.Native.Nat.{ℕ}
use Prim.Native.Char.{code}
use Prim.Native.String.{String}
use mathlib.Core.Path.{◌≡◌, refl}
use mathlib.Core.Logic.{◌↔◌}
use mathlib.Core.Bool.{Bool, true, false, ◌&&◌}
use mathlib.Core.List.{List, [], ◌∷◌}
use native.Mathlib.Omega.{arith}
use pureq.Prelude.Tests.{Key, ◌==◌, number_key, nat_beq_iff}

abbrev pub Text : Type 0
Text = List ℕ

-- the code units of a literal in ASCII
abbrev pub codes : String → Text
codes String.[] = []
codes (String.◌∷◌ c s) = code c ∷ codes s

abbrev pub same_codes : Text → Text → Bool
same_codes [] [] = true
same_codes (x ∷ xs) (y ∷ ys) = (x == y) && same_codes xs ys
same_codes _ _ = false

pub same_codes_iff : (a b : Text) → (same_codes a b ≡ true) ↔ (a ≡ b)
same_codes_iff [] [] = (λ e. refl, λ e. refl)
same_codes_iff [] (y ∷ b) = (λ e. absurd cc, λ e. absurd cc)
same_codes_iff (x ∷ a) [] = (λ e. absurd cc, λ e. absurd cc)
same_codes_iff (x ∷ a) (y ∷ b) = grind (arith, nat_beq_iff x y, same_codes_iff a b)

instance abbrev pub codes_key : Key Text
codes_key = record { same = same_codes; same_iff = same_codes_iff }
