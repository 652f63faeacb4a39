-- ===== src/Logger/Decimal.antt =====
-- Printed numbers of reg_fsm/src/Logger.cpp.
use fsm_framework.Base.{
  ℕ, zero, suc, ◌+◌, ◌-◌, ◌*◌, ◌/◌, ◌%◌, ◌≤◌, ◌<◌, ◌≡◌, refl, ◌∙◌, inl, inr, ltb, true, List, [],
  ◌∷◌, ◌++◌, length, length-append, arith, All, All-append, Bool-cases,
}
use fsm_framework.Logger.Record.{print_loop, print, zeros, fill}

-- The number that digits stand for.
abbrev pub value_from : ℕ → List ℕ → ℕ
value_from n [] = n
value_from n (d ∷ ds) = value_from (n * 10 + (d - b'0')) ds

abbrev pub value : List ℕ → ℕ
value ds = value_from 0 ds

abbrev pub IsDigit : ℕ → Type 0
IsDigit d = (b'0' ≤ d) × (d ≤ b'9')

value_from-append :
    (n : ℕ) (ds es : List ℕ) → value_from n (ds ++ es) ≡ value_from (value_from n ds) es
value_from-append n [] es = refl
value_from-append n (d ∷ ds) es = value_from-append (n * 10 + (d - b'0')) ds es

pub print_loop-value : (k n : ℕ) → n < k → value (print_loop k n) ≡ n
unfolding print_loop
print_loop-value zero n h = absurd (omega arith)
print_loop-value (suc k) n h = elim (Bool-cases (ltb n 10)) [
  | inl small ↦ rw small (omega arith)
  | inr large ↦
      let big : 10 ≤ n = ground arith in
      rw
        (
          large,
          value_from-append 0 (print_loop k (n / 10)) ((b'0' + n % 10) ∷ []),
          print_loop-value k (n / 10) (omega arith),
        )
        (omega arith)
]

pub print_loop-IsDigit : (k n : ℕ) → All IsDigit (print_loop k n)
unfolding print_loop
print_loop-IsDigit zero n = tt
print_loop-IsDigit (suc k) n = elim (Bool-cases (ltb n 10)) [
  | inl small ↦ let few : n < 10 = ground arith in rw small ((omega arith, omega arith), tt)
  | inr large ↦ rw large (
      All-append IsDigit (print_loop k (n / 10)) _ (print_loop-IsDigit k (n / 10))
        ((omega arith, omega arith), tt))
]

abbrev pow10 : ℕ → ℕ
pow10 zero = 1
pow10 (suc w) = 10 * pow10 w

-- A number below a power of ten has no more digits than that.
print_loop-short : (k w n : ℕ) → n < 10 * pow10 w → length (print_loop k n) ≤ suc w
unfolding print_loop
print_loop-short zero w n h = omega arith
print_loop-short (suc k) zero n h = let few : ltb n 10 ≡ true = ground arith in rw few (omega arith)
print_loop-short (suc k) (suc w) n h = elim (Bool-cases (ltb n 10)) [
  | inl small ↦ rw small (omega arith)
  | inr large ↦
      let fewer = print_loop-short k w (n / 10) (omega arith) in
      rw large
        (omega (arith, fewer, length-append {0} (print_loop k (n / 10)) ((b'0' + n % 10) ∷ [])))
]

value-zeros : (w : ℕ) (t : List ℕ) → value (zeros w ++ t) ≡ value t
value-zeros zero t = refl
value-zeros (suc w) t = value-zeros w t

length-zeros : (w : ℕ) → length (zeros w) ≡ w
length-zeros zero = refl
length-zeros (suc w) = omega (arith, length-zeros w)

zeros-IsDigit : (w : ℕ) → All IsDigit (zeros w)
zeros-IsDigit zero = tt
zeros-IsDigit (suc w) = ((omega arith, omega arith), zeros-IsDigit w)

pub fill-IsDigit : (w n : ℕ) → All IsDigit (fill w (print n))
fill-IsDigit w n =
    All-append IsDigit (zeros (w - length (print n))) (print n)
      (zeros-IsDigit (w - length (print n))) (print_loop-IsDigit (suc n) n)

-- Three digits that stand for the number.
pub fill-value :
    (n : ℕ) → n < 1000 → (length (fill 3 (print n)) ≡ 3) × (value (fill 3 (print n)) ≡ n)
fill-value n h = (
  omega (
    arith,
    length-append {0} (zeros (3 - length (print n))) (print n),
    length-zeros (3 - length (print n)),
    print_loop-short (suc n) 2 n h,
  ),
  value-zeros (3 - length (print n)) (print n) ∙ print_loop-value (suc n) n (omega arith),
)
