-- ===== src/Base/Text.antt =====
-- A `std::string` as the list of its bytes, and what the code does with it.
use Prim.Native.Nat.{ℕ}
use Prim.Native.Char.{code}
use Prim.Native.String.{String}
use mathlib.Core.Bool.{Bool, true, false, ◌&&◌}
use mathlib.Core.List.{List, [], ◌∷◌}
use mathlib.Core.Path.{◌≡◌, refl}
use mathlib.Core.Logic.{inl, inr}
use native.Mathlib.Omega.{arith}
use fsm_framework.Base.Tests.{◌==◌, Bool-cases}

abbrev pub codes : String → List ℕ
codes String.[] = []
codes (String.◌∷◌ c s) = code c ∷ codes s

abbrev pub same_text : List ℕ → List ℕ → Bool
same_text [] [] = true
same_text (x ∷ xs) (y ∷ ys) = (x == y) && same_text xs ys
same_text _ _ = false

pub same_text_lem : (xs ys : List ℕ) → same_text xs ys ≡ true → xs ≡ ys
same_text_lem [] [] h = refl
same_text_lem [] (y ∷ ys) h = cc
same_text_lem (x ∷ xs) [] h = cc
same_text_lem (x ∷ xs) (y ∷ ys) h = elim (Bool-cases (x == y)) [
  | inr other ↦ absurd (let h' = rw other at h in cc)
  | inl same ↦ let e : x ≡ y = ground arith in let rest = same_text_lem xs ys (rw same at h) in cc
]
