-- ===== src/Factory/Drop.antt =====
-- The destructor of reg_fsm/src/Cfactory.cpp, with what it writes to the logger of reg_fsm/src/Logger.cpp. `at k` is where and when
-- the `k`-th record is made.
use fsm_framework.Base.{
  ℕ, suc, ◌+◌, ◌≡◌, refl, ◌∙◌, inl, inr, ◌==◌, List, [], ◌∷◌, ◌++◌, arith, if◌then◌else◌, length,
}
use fsm_framework.Logger.{debug, is_enabled}
use fsm_framework.Logger.Record.{Logger}
use fsm_framework.Logger.Lines.{IsLine}
use fsm_framework.Fsm.{Cfsm}
use fsm_framework.Fsm.Records.{At, IsPlain, OneLine, destroy_fsm, destroy_fsm-OneLine}
use fsm_framework.Factory.{Cfactory}

module _ (put_time : ℕ → List ℕ) (at : ℕ → At) where
  -- The loop that destroys the FSMs, from the `k`-th record on.
  unfoldable pub destroy_all : ℕ → List Cfsm → Logger → Logger
  unfolding destroy_fsm
  destroy_all k [] lg = lg
  destroy_all k (f ∷ fs) lg = destroy_all (suc k) fs (destroy_fsm put_time (at k) f lg).0

  unfoldable pub drop_factory : Cfactory → Logger → Cfactory × Logger
  unfolding destroy_all
  drop_factory fac lg = (record fac { fsm_list = [] }, destroy_all 0 fac.fsm_list lg)

-- How many lines a text ends.
abbrev pub line_count : List ℕ → ℕ
line_count [] = 0
line_count (c ∷ t) = (if c == b'\n' then 1 else 0) + line_count t

line_count-append : (t u : List ℕ) → line_count (t ++ u) ≡ line_count t + line_count u
line_count-append [] u = omega arith
line_count-append (c ∷ t) u = omega (arith, line_count-append t u)

line_count-IsLine : (t : List ℕ) → IsLine t → line_count t ≡ 0
line_count-IsLine [] a = refl
line_count-IsLine (c ∷ t) a = ground (arith, a.0, line_count-IsLine t a.1)

-- How many lines `n` records of the level DEBUG make.
abbrev pub debug_lines : Logger → ℕ → ℕ
debug_lines lg n = if is_enabled lg.level debug then n else 0

-- The level is the same, and so many lines were added.
abbrev pub Adds : ℕ → Logger → Logger → Type 0
Adds n lg lg' =
    (lg'.level ≡ lg.level) × (line_count lg'.output ≡ line_count lg.output + debug_lines lg n)

OneLine-Adds : (lg lg' : Logger) → OneLine debug lg lg' → Adds 1 lg lg'
OneLine-Adds lg lg' (inl (no_record, e)) = rw e (refl, rw no_record (omega arith))
OneLine-Adds lg lg' (inr (enabled, t, a, e)) = rw e (
  refl,
  rw enabled (
      omega (
        arith,
        line_count-append lg.output (t ++ b'\n' ∷ []),
        line_count-append t (b'\n' ∷ []),
        line_count-IsLine t a,
      )),
)

module _ (put_time : ℕ → List ℕ) (at : ℕ → At) (plain : (k : ℕ) → IsPlain put_time (at k)) where
  destroy_all-Adds :
      (k : ℕ) (fs : List Cfsm) (lg : Logger) → Adds (length fs) lg (destroy_all put_time at k fs lg)
  unfolding destroy_all
  destroy_all-Adds k [] lg = (refl, ground arith)
  destroy_all-Adds k (f ∷ fs) lg =
      let lg₁ = (destroy_fsm put_time (at k) f lg).0 in
      let first = OneLine-Adds lg lg₁ (destroy_fsm-OneLine put_time (at k) (plain k) f lg) in
      let rest = destroy_all-Adds (suc k) fs lg₁ in
      (rest.0 ∙ first.0, rest.1 ∙ rw (first.0, first.1) (ground arith))

  -- Where no text that a record takes from where it is made has the end of a line: the destructor of a factory leaves it
  -- without FSMs, and writes one line for each FSM that it held, if the logger takes records of the level DEBUG, and
  -- else nothing; the level stays.
  pub drop_factory-Adds :
      (fac : Cfactory) (lg : Logger)
      → ((drop_factory put_time at fac lg).0.fsm_list ≡ [])
        × Adds (length fac.fsm_list) lg (drop_factory put_time at fac lg).1
  unfolding drop_factory
  drop_factory-Adds fac lg = (refl, destroy_all-Adds 0 fac.fsm_list lg)
