-- ===== src/Factory/Pointers.antt =====
-- Lists of FSMs with ascending ids, as `Cfactory::AddFsm` and `Cfactory::KillFsm` leave them, and
-- the pointers into them.
use fsm_framework.Base.{
  ℕ, zero, suc, ◌≤◌, ◌<◌, ◌≡◌, refl, ◌≢◌, true, List, [], ◌∷◌, ◌++◌, some, arith, length, get_elem?,
  set,
}
use fsm_framework.Data.{kill_fsm}
use fsm_framework.Fsm.{Cfsm}
use fsm_framework.Factory.{find_fsm, erase_fsm}

-- An FSM that waits for its next message.
abbrev pub IsLive : Cfsm → Type 0
IsLive f = (f.state ≢ kill_fsm) × (f.has_factory ≡ true)

-- The FSMs are live, and their ids rise from `lo` on and stay below `hi`.
abbrev pub Ascending : ℕ → ℕ → List Cfsm → Type 0
Ascending lo hi [] = lo ≤ hi
Ascending lo hi (f ∷ fs) = (lo ≤ f.fsm_id) × IsLive f × Ascending (suc f.fsm_id) hi fs

pub Ascending-le : (lo hi : ℕ) (fs : List Cfsm) → Ascending lo hi fs → lo ≤ hi
Ascending-le lo hi [] a = a
Ascending-le lo hi (f ∷ fs) a = omega (arith, Ascending-le (suc f.fsm_id) hi fs a.2)

pub Ascending-mono :
    (lo lo' hi : ℕ) (fs : List Cfsm) → lo ≤ lo' → Ascending lo' hi fs → Ascending lo hi fs
Ascending-mono lo lo' hi [] h a = omega arith
Ascending-mono lo lo' hi (f ∷ fs) h a = (omega arith, a.1, a.2)

pub Ascending-get_elem? :
    (lo hi i : ℕ) (fs : List Cfsm) (f : Cfsm)
    → Ascending lo hi fs
    → get_elem? fs i ≡ some f
    → (lo ≤ f.fsm_id) × (f.fsm_id < hi) × IsLive f
Ascending-get_elem? lo hi i [] f a e = cc
Ascending-get_elem? lo hi zero (g ∷ fs) f a e =
    ground (arith, Ascending-le (suc g.fsm_id) hi fs a.2)
Ascending-get_elem? lo hi (suc i) (g ∷ fs) f a e =
    let r = Ascending-get_elem? (suc g.fsm_id) hi i fs f a.2 e in (omega arith, r.1, r.2)

pub Ascending-append :
    (lo hi : ℕ) (fs : List Cfsm) (f : Cfsm)
    → Ascending lo hi fs
    → f.fsm_id ≡ hi
    → IsLive f
    → Ascending lo (suc hi) (fs ++ f ∷ [])
Ascending-append lo hi [] f a e l = (omega arith, l, omega arith)
Ascending-append lo hi (g ∷ fs) f a e l =
    (a.0, a.1, Ascending-append (suc g.fsm_id) hi fs f a.2 e l)

-- A write through a pointer, to an FSM with the same id that is live.
pub Ascending-set :
    (lo hi i : ℕ) (fs : List Cfsm) (f f' : Cfsm)
    → Ascending lo hi fs
    → get_elem? fs i ≡ some f
    → f'.fsm_id ≡ f.fsm_id
    → IsLive f'
    → Ascending lo hi (set fs i f')
Ascending-set lo hi i [] f f' a e d l = a
Ascending-set lo hi zero (g ∷ fs) f f' a e d l =
    let same : f'.fsm_id ≡ g.fsm_id = ground arith in
    (omega arith, l, Ascending-mono (suc f'.fsm_id) (suc g.fsm_id) hi fs (omega arith) a.2)
Ascending-set lo hi (suc i) (g ∷ fs) f f' a e d l =
    (a.0, a.1, Ascending-set (suc g.fsm_id) hi i fs f f' a.2 e d l)

-- An FSM that ended behind a pointer is found there by its id, and erasing its id leaves the
-- others.
pub find_fsm-set :
    (lo hi i : ℕ) (fs : List Cfsm) (f f' : Cfsm)
    → Ascending lo hi fs
    → get_elem? fs i ≡ some f
    → f'.fsm_id ≡ f.fsm_id
    → find_fsm f'.fsm_id (set fs i f') ≡ some i
unfolding find_fsm
find_fsm-set lo hi i [] f f' a e d = cc
find_fsm-set lo hi zero (g ∷ fs) f f' a e d = ground arith
find_fsm-set lo hi (suc i) (g ∷ fs) f f' a e d = ground (
  arith,
  find_fsm-set (suc g.fsm_id) hi i fs f f' a.2 e d,
  Ascending-get_elem? (suc g.fsm_id) hi i fs f a.2 e,
)

pub Ascending-erase_fsm :
    (lo hi i : ℕ) (fs : List Cfsm) (f f' : Cfsm)
    → Ascending lo hi fs
    → get_elem? fs i ≡ some f
    → f'.fsm_id ≡ f.fsm_id
    → Ascending lo hi (erase_fsm f'.fsm_id (set fs i f'))
unfolding erase_fsm
Ascending-erase_fsm lo hi i [] f f' a e d = a
Ascending-erase_fsm lo hi zero (g ∷ fs) f f' a e d =
    ground (arith, Ascending-mono lo (suc g.fsm_id) hi fs)
Ascending-erase_fsm lo hi (suc i) (g ∷ fs) f f' a e d = ground (
  arith,
  Ascending-erase_fsm (suc g.fsm_id) hi i fs f f' a.2 e d,
  Ascending-get_elem? (suc g.fsm_id) hi i fs f a.2 e,
)

pub length-erase_fsm : (id : ℕ) (fs : List Cfsm) → length (erase_fsm id fs) ≤ length fs
unfolding erase_fsm
length-erase_fsm id [] = omega arith
length-erase_fsm id (f ∷ fs) = ground (arith, length-erase_fsm id fs)

-- A pointer that the search returns leads to an FSM with the id.
pub find_fsm-get_elem? :
    (id i : ℕ) (fs : List Cfsm)
    → find_fsm id fs ≡ some i
    → (f : Cfsm) × (get_elem? fs i ≡ some f) × (f.fsm_id ≡ id)
unfolding find_fsm
find_fsm-get_elem? id i [] e = cc
find_fsm-get_elem? id zero (f ∷ fs) e = (f, refl, ground arith)
find_fsm-get_elem? id (suc i) (f ∷ fs) e = find_fsm-get_elem? id i fs (ground arith)
