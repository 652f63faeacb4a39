-- ===== src/Logger/FileName.antt =====
-- `BaseFileName` of reg_fsm/src/Logger.cpp.
use fsm_framework.Base.{
  ℕ, ◌≡◌, refl, ap, ◌⊎◌, inl, inr, true, false, List, [], ◌∷◌, ◌++◌, All, Bool-cases,
}
use fsm_framework.Logger.{is_separator, base_name_from, base_file_name}

-- A directory part: nothing, or a text that ends with a separator.
abbrev pub IsDirectory : List ℕ → Type 0
IsDirectory d =
    (d ≡ []) ⊎ ((before : List ℕ) × (c : ℕ) × (d ≡ before ++ c ∷ []) × (is_separator c ≡ true))

-- The text is a directory part and the rest.
abbrev pub Splits : List ℕ → List ℕ → Type 0
Splits file base = (d : List ℕ) × (file ≡ d ++ base) × IsDirectory d

abbrev pub Plain : List ℕ → Type 0
Plain t = All (λ c. is_separator c ≡ false) t

-- The loop over the rest of the name, where the part before the base stays as it is.
base_name_from_lem :
    (base cursor : List ℕ)
    → ((base_name_from base cursor ≡ base) × Plain cursor)
      ⊎ ((d : List ℕ) × (b : List ℕ) × (cursor ≡ d ++ b)
          × ((before : List ℕ) × (c : ℕ) × (d ≡ before ++ c ∷ []) × (is_separator c ≡ true))
          × Plain b
          × (base_name_from base cursor ≡ b))
unfolding base_name_from
base_name_from_lem base [] = inl (refl, tt)
base_name_from_lem base (c ∷ cursor) = elim (Bool-cases (is_separator c)) [
  | inl hit ↦ elim (base_name_from_lem cursor cursor) [
    | inl (e, plain) ↦ inr (c ∷ [], cursor, refl, ([], c, refl, hit), plain, rw hit e)
    | inr (d, b, cut, (before, x, last, sep), plain, e) ↦
        inr (c ∷ d, b, ap (◌∷◌ c) cut, (c ∷ before, x, ap (◌∷◌ c) last, sep), plain, rw hit e)
  ]
  | inr miss ↦ elim (base_name_from_lem base cursor) [
    | inl (e, plain) ↦ inl (rw miss e, (miss, plain))
    | inr (d, b, cut, (before, x, last, sep), plain, e) ↦
        inr (c ∷ d, b, ap (◌∷◌ c) cut, (c ∷ before, x, ap (◌∷◌ c) last, sep), plain, rw miss e)
  ]
]

-- A file name is a directory part, which is empty or ends with a separator, and the base name,
-- which has no separator.
pub base_file_name-Splits :
    (file : List ℕ) → Splits file (base_file_name file) × Plain (base_file_name file)
unfolding base_file_name
base_file_name-Splits file = elim (base_name_from_lem file file) [
  | inl (e, plain) ↦ rw e (([], refl, inl refl), plain)
  | inr (d, b, cut, last, plain, e) ↦ rw e ((d, cut, inr last), plain)
]
