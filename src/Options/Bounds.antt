-- ===== src/Options/Bounds.antt =====
-- The options that reg_fsm/main.cpp hands on are in range.
use fsm_framework.Base.{
  ℕ, ◌≤◌, ◌<◌, inl, inr, ◌==◌, ltb, leb, Bool, not, ◌||◌, List, [], ◌∷◌, Option, none, some, arith,
  codes, same_text, Bool-cases, Option-cases,
}
use fsm_framework.Data.{u32_mod}
use fsm_framework.Options.{
  ServiceOptions, starts_with, substr, parse_log_level, parse_unsigned_int, set_port, set_timeout,
  set_log_level, parse_arg, parse_args,
}

-- A port that can be listened on, and a time limit that is an unsigned int and not 0.
abbrev pub InRange : ServiceOptions → Type 0
InRange o =
    (0 < o.http.port)
    × (o.http.port ≤ 65535)
    × (0 < o.http.sync_timeout_ms)
    × (o.http.sync_timeout_ms < u32_mod)

abbrev pub AllInRange : Option ServiceOptions → Type 0
AllInRange none = Unit
AllInRange (some o) = InRange o

module _ (strtoul : List ℕ → ℕ × Bool) where
  abbrev Small : Option ℕ → Type 0
  Small none = Unit
  Small (some n) = n < u32_mod

  parse_unsigned_int-Small : (t : List ℕ) → Small (parse_unsigned_int strtoul t)
  unfolding parse_unsigned_int
  parse_unsigned_int-Small [] = tt
  parse_unsigned_int-Small (c ∷ cs) =
      elim (Bool-cases (not (strtoul (c ∷ cs)).1 || leb u32_mod (strtoul (c ∷ cs)).0)) [
        | inl bad ↦ rw bad tt
        | inr good ↦ rw good (ground arith)
      ]

  set_port-InRange :
      (o : ServiceOptions) (n : Option ℕ) → InRange o → AllInRange (set_port strtoul o n)
  set_port-InRange o none r = tt
  set_port-InRange o (some n) r = elim (Bool-cases ((n == 0) || ltb 65535 n)) [
    | inl bad ↦ rw bad tt
    | inr good ↦ rw good (ground arith, ground arith, r.2, r.3)
  ]

  set_timeout-InRange :
      (o : ServiceOptions) (n : Option ℕ)
      → Small n
      → InRange o
      → AllInRange (set_timeout strtoul o n)
  set_timeout-InRange o none s r = tt
  set_timeout-InRange o (some n) s r = elim (Bool-cases (n == 0)) [
    | inl bad ↦ rw bad tt
    | inr good ↦ rw good (r.0, r.1, ground arith, s)
  ]

  set_level-InRange :
      (o : ServiceOptions) (l : Option _) → InRange o → AllInRange (set_log_level strtoul o l)
  set_level-InRange o none r = tt
  set_level-InRange o (some l) r = r

  parse_arg-InRange :
      (o : ServiceOptions) (arg : List ℕ) → InRange o → AllInRange (parse_arg strtoul o arg)
  unfolding parse_arg
  parse_arg-InRange o arg r =
      elim (Bool-cases (same_text (codes "--help") arg || same_text (codes "-h") arg)) [
        | inl t₀ ↦ rw t₀ tt
        | inr f₀ ↦ elim (Bool-cases (starts_with arg (codes "--host="))) [
          | inl t₁ ↦ rw (f₀, t₁) r
          | inr f₁ ↦ elim (Bool-cases (starts_with arg (codes "--port="))) [
            | inl t₂ ↦
                rw (f₀, f₁, t₂) (set_port-InRange o (parse_unsigned_int strtoul (substr arg 7)) r)
            | inr f₂ ↦ elim (Bool-cases (starts_with arg (codes "--log-level="))) [
              | inl t₃ ↦
                  rw (f₀, f₁, f₂, t₃) (set_level-InRange o (parse_log_level (substr arg 12)) r)
              | inr f₃ ↦ elim (Bool-cases (starts_with arg (codes "--sync-timeout-ms="))) [
                | inl t₄ ↦
                    let n = parse_unsigned_int strtoul (substr arg 18) in
                    rw (f₀, f₁, f₂, f₃, t₄)
                      (set_timeout-InRange o n (parse_unsigned_int-Small (substr arg 18)) r)
                | inr f₄ ↦ rw (f₀, f₁, f₂, f₃, f₄) tt
              ]
            ]
          ]
        ]
      ]

  -- Whatever the arguments and whatever `strtoul` returns, options that are in range stay in
  -- range: if the arguments are accepted, the port is between 1 and 65535 and the time limit is an
  -- unsigned int and not 0.
  pub parse_args-InRange :
      (args : List (List ℕ)) (o : ServiceOptions)
      → InRange o
      → AllInRange (parse_args strtoul args o)
  unfolding parse_args
  parse_args-InRange [] o r = r
  parse_args-InRange (arg ∷ args) o r = elim (Option-cases (parse_arg strtoul o arg)) [
    | inl e ↦ rw (e, parse_args) tt
    | inr (o', e) ↦
        let r' : InRange o' = rw e at (parse_arg-InRange o arg r) in
        rw (e, parse_args) (parse_args-InRange args o' r')
  ]
