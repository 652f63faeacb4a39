-- ===== src/Manager/Registry.antt =====
-- The factory registry: `RegisterFactory` and `FindFactory` of Cfactory_mgr.cpp, and the routing of
-- `DispatchMsg` by it.
use fsm_framework.Base.{
  ℕ, zero, suc, ◌<◌, ◌≡◌, refl, sym, ◌≢◌, ◌⊎◌, inl, inr, ◌==◌, List, [], ◌∷◌, ◌++◌, none, some,
  arith, leb, length, get_elem?, set, All, All-append, All-set, All-get_elem?, Bool-cases,
  Option-cases,
}
use fsm_framework.Data.{fac_num_in_mgr_max, success, error}
use fsm_framework.Factory.{Cfactory, set_fac_mgr}
use fsm_framework.Manager.{Manager, find_factory, register_factory}

-- No factory of the list has the id.
abbrev pub IsFree : ℕ → List Cfactory → Type 0
IsFree id cs = All (λ (c : Cfactory). c.fac_id ≢ id) cs

-- No two factories of the list have the same id.
abbrev pub DistinctIds : List Cfactory → Type 0
DistinctIds [] = Unit
DistinctIds (c ∷ cs) = IsFree c.fac_id cs × DistinctIds cs

pub find_factory_free : (id : ℕ) (cs : List Cfactory) → IsFree id cs → find_factory id cs ≡ none
unfolding find_factory
find_factory_free id [] a = refl
find_factory_free id (c ∷ cs) a = ground (arith, find_factory_free id cs a.1)

pub find_factory-none-IsFree :
    (id : ℕ) (cs : List Cfactory) → find_factory id cs ≡ none → IsFree id cs
unfolding find_factory
find_factory-none-IsFree id [] e = tt
find_factory-none-IsFree id (c ∷ cs) e =
    (ground arith, find_factory-none-IsFree id cs (ground arith))

-- What the search finds has the id.
pub find_factory_found :
    (id i : ℕ) (cs : List Cfactory)
    → find_factory id cs ≡ some i
    → (c : Cfactory) × (get_elem? cs i ≡ some c) × (c.fac_id ≡ id)
unfolding find_factory
find_factory_found id i [] e = cc
find_factory_found id i (c ∷ cs) e = elim (Bool-cases (c.fac_id == id)) [
  | inl self ↦ (c, ground arith, ground arith)
  | inr other ↦ elim (Option-cases (find_factory id cs)) [
    | inl none_there ↦ absurd (ground arith)
    | inr (j, there) ↦
        let (d, at, same) = find_factory_found id j cs there in
        let next : i ≡ suc j = ground arith in (d, rw (next, get_elem?) at, same)
  ]
]

-- The search finds each factory of a registry by its id.
pub find_factory_distinct :
    (i : ℕ) (cs : List Cfactory) (fac : Cfactory)
    → DistinctIds cs
    → get_elem? cs i ≡ some fac
    → find_factory fac.fac_id cs ≡ some i
unfolding find_factory
find_factory_distinct i [] fac d e = cc
find_factory_distinct zero (c ∷ cs) fac d e = ground arith
find_factory_distinct (suc i) (c ∷ cs) fac d e =
    let differs : fac.fac_id ≢ c.fac_id =
      All-get_elem? (λ (x : Cfactory). x.fac_id ≢ c.fac_id) cs i fac d.0 e in
    ground (arith, find_factory_distinct i cs fac d.1 e)

-- There is room for the factory, and its id is free.
abbrev pub Fits : Manager → Cfactory → Type 0
Fits g fac = (length g.fac_list < fac_num_in_mgr_max) × IsFree fac.fac_id g.fac_list

-- A factory is registered exactly when there is room for it and its id is free: then it stands at
-- the end of the list with its manager set, and the result is `SUCCESS`. Otherwise nothing changes
-- and the result is `ERROR`.
pub register_factory_outcome :
    (g : Manager) (fac : Cfactory)
    → (Fits g fac
        × (register_factory g (some fac)
            ≡ (record g { fac_list = g.fac_list ++ set_fac_mgr fac ∷ [] }, success)))
      ⊎ (¬ Fits g fac × (register_factory g (some fac) ≡ (g, error)))
unfolding register_factory
register_factory_outcome g fac = elim (Bool-cases (leb fac_num_in_mgr_max (length g.fac_list))) [
  | inl full ↦ inr ((λ fits. ground (arith, fits.0)), ground arith)
  | inr room ↦ elim (Option-cases (find_factory fac.fac_id g.fac_list)) [
    | inl e ↦ inl ((ground arith, find_factory-none-IsFree fac.fac_id g.fac_list e), ground arith)
    | inr (i, e) ↦
        inr ((λ fits. ground (arith, find_factory_free fac.fac_id g.fac_list fits.1)), ground arith)
  ]
]

pub DistinctIds-append :
    (cs : List Cfactory) (c : Cfactory)
    → DistinctIds cs
    → IsFree c.fac_id cs
    → DistinctIds (cs ++ c ∷ [])
DistinctIds-append [] c d a = (tt, tt)
DistinctIds-append (x ∷ cs) c d a = (
  All-append (λ (y : Cfactory). y.fac_id ≢ x.fac_id) cs (c ∷ []) d.0 ((λ e. a.0 (sym e)), tt),
  DistinctIds-append cs c d.1 a.1,
)

-- A write through a pointer that keeps the id.
pub DistinctIds-set :
    (cs : List Cfactory) (i : ℕ) (c c' : Cfactory)
    → DistinctIds cs
    → get_elem? cs i ≡ some c
    → c'.fac_id ≡ c.fac_id
    → DistinctIds (set cs i c')
DistinctIds-set [] i c c' d e s = d
DistinctIds-set (x ∷ cs) zero c c' d e s =
    let same : c'.fac_id ≡ x.fac_id = ground arith in (rw same d.0, d.1)
DistinctIds-set (x ∷ cs) (suc i) c c' d e s =
    let differs : c.fac_id ≢ x.fac_id =
      All-get_elem? (λ (y : Cfactory). y.fac_id ≢ x.fac_id) cs i c d.0 e in
    (
      All-set (λ (y : Cfactory). y.fac_id ≢ x.fac_id) cs i c' d.0 (rw s differs),
      DistinctIds-set cs i c c' d.1 e s,
    )
