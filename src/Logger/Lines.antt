-- ===== src/Logger/Lines.antt =====
-- The lines that `Log` of reg_fsm/src/Logger.cpp writes.
use fsm_framework.Base.{
  ℕ, suc, ◌/◌, ◌%◌, ◌≡◌, ◌≢◌, ◌⊎◌, refl, inl, inr, ◌==◌, Bool, true, false, not, ◌&&◌, List, [],
  ◌∷◌, ◌++◌, length, arith, codes, All, All-append, All-map, Bool-cases,
}
use fsm_framework.Logger.{
  LogLevel, debug, info, warn, err, off, level_int, is_enabled, log_level_to_string, is_separator,
  base_name_from, base_file_name,
}
use fsm_framework.Logger.Record.{
  Logger, print, fill, chain, build_timestamp, where_from, record_text, log,
}
use fsm_framework.Logger.Decimal.{value, IsDigit, print_loop-IsDigit, fill-IsDigit, fill-value}

-- A text with no end of a line.
abbrev pub IsLine : List ℕ → Type 0
IsLine t = All (λ (c : ℕ). c ≢ b'\n') t

pub digits-IsLine : (t : List ℕ) → All IsDigit t → IsLine t
digits-IsLine t a = All-map (λ c d e. omega (arith, d, e)) t a

abbrev pub is_line : List ℕ → Bool
is_line [] = true
is_line (c ∷ t) = not (c == b'\n') && is_line t

pub is_line_lem : (t : List ℕ) → is_line t ≡ true → IsLine t
is_line_lem [] e = tt
is_line_lem (c ∷ t) e = (ground arith, is_line_lem t (ground arith))

level-IsLine : (l : LogLevel) → IsLine (codes (log_level_to_string l))
level-IsLine debug = is_line_lem (codes "DEBUG") refl
level-IsLine info = is_line_lem (codes "INFO") refl
level-IsLine warn = is_line_lem (codes "WARN") refl
level-IsLine err = is_line_lem (codes "ERROR") refl
level-IsLine off = is_line_lem (codes "OFF") refl

base_name_from-IsLine :
    (base cursor : List ℕ) → IsLine base → IsLine cursor → IsLine (base_name_from base cursor)
unfolding base_name_from
base_name_from-IsLine base [] a b = a
base_name_from-IsLine base (c ∷ cursor) a b = elim (Bool-cases (is_separator c)) [
  | inl hit ↦ rw hit (base_name_from-IsLine cursor cursor b.1 b.1)
  | inr miss ↦ rw miss (base_name_from-IsLine base cursor a b.1)
]

base_file_name-IsLine : (file : List ℕ) → IsLine file → IsLine (base_file_name file)
unfolding base_file_name
base_file_name-IsLine file a = base_name_from-IsLine file file a a

pub chain-IsLine : (ts : List (List ℕ)) → All IsLine ts → IsLine (chain ts)
chain-IsLine [] a = tt
chain-IsLine (t ∷ ts) a = All-append (λ (c : ℕ). c ≢ b'\n') t (chain ts) a.0 (chain-IsLine ts a.1)

module _ (put_time : ℕ → List ℕ) where
  timestamp-IsLine :
      (now : ℕ) → IsLine (put_time (now / 1000)) → IsLine (build_timestamp put_time now)
  timestamp-IsLine now a =
      chain-IsLine (put_time (now / 1000) ∷ codes "." ∷ fill 3 (print (now % 1000)) ∷ []) (
        a,
        (
          is_line_lem (codes ".") refl,
          (digits-IsLine (fill 3 (print (now % 1000))) (fill-IsDigit 3 (now % 1000)), tt),
        ),
      )

  where_from-IsLine :
      (l : LogLevel) (file : List ℕ) (line : ℕ) (thread : List ℕ)
      → IsLine file
      → IsLine thread
      → IsLine (where_from put_time l file line thread)
  where_from-IsLine l file line thread f h = elim (Bool-cases (level_int info == level_int l)) [
    | inl plain ↦ rw plain tt
    | inr other ↦ rw other (
        chain-IsLine
          (codes " at="
            ∷ base_file_name file
            ∷ codes ":"
            ∷ print line
            ∷ codes " thread="
            ∷ thread
            ∷ [])
          (
            is_line_lem (codes " at=") refl,
            (
              base_file_name-IsLine file f,
              (
                is_line_lem (codes ":") refl,
                (
                  digits-IsLine (print line) (print_loop-IsDigit (suc line) line),
                  (is_line_lem (codes " thread=") refl, (h, tt)),
                ),
              ),
            ),
          ))
  ]

  record_text-IsLine :
      (now : ℕ) (thread : List ℕ) (l : LogLevel) (name file : List ℕ) (line : ℕ) (message : List ℕ)
      → IsLine (put_time (now / 1000))
      → IsLine thread
      → IsLine name
      → IsLine file
      → IsLine message
      → IsLine (record_text put_time now thread l name file line message)
  record_text-IsLine now thread l name file line message a h n f m =
      let opens = is_line_lem (codes "[") refl in
      let closes = is_line_lem (codes "]") refl in
      chain-IsLine
        (codes "["
          ∷ build_timestamp put_time now
          ∷ codes "]"
          ∷ codes "["
          ∷ codes (log_level_to_string l)
          ∷ codes "]"
          ∷ codes "["
          ∷ name
          ∷ codes "] "
          ∷ message
          ∷ where_from put_time l file line thread
          ∷ [])
        (
          opens,
          (
            timestamp-IsLine now a,
            (
              closes,
              (
                opens,
                (
                  level-IsLine l,
                  (
                    closes,
                    (
                      opens,
                      (
                        n,
                        (
                          is_line_lem (codes "] ") refl,
                          (m, (where_from-IsLine l file line thread f h, tt)),
                        ),
                      ),
                    ),
                  ),
                ),
              ),
            ),
          ),
        )

  -- Where no text that a record is made of has the end of a line: `Log` changes nothing if the level is not enabled,
  -- and else writes exactly one line.
  pub log-IsLine :
      (lg : Logger) (now : ℕ) (thread : List ℕ) (l : LogLevel) (name file : List ℕ) (line : ℕ)
      (message : List ℕ)
      → IsLine (put_time (now / 1000))
      → IsLine thread
      → IsLine name
      → IsLine file
      → IsLine message
      → ((is_enabled lg.level l ≡ false)
          × (log put_time lg now thread l name file line message ≡ lg))
        ⊎ ((is_enabled lg.level l ≡ true)
            × (t : List ℕ) × IsLine t
            × (log put_time lg now thread l name file line message
                ≡ record lg { output = lg.output ++ (t ++ b'\n' ∷ []) }))
  unfolding log
  log-IsLine lg now thread l name file line message a h n f m =
      elim (Bool-cases (is_enabled lg.level l)) [
        | inr no_record ↦ inl (no_record, rw no_record refl)
        | inl enabled ↦ inr (
          enabled,
          record_text put_time now thread l name file line message,
          record_text-IsLine now thread l name file line message a h n f m,
          rw enabled refl,
        )
      ]

  -- The time stamp is the time of the seconds, a point and three digits, which stand for the milliseconds.
  pub build_timestamp-value :
      (now : ℕ)
      → (ds : List ℕ) × (build_timestamp put_time now
          ≡ chain (put_time (now / 1000) ∷ codes "." ∷ ds ∷ []))
        × (length ds ≡ 3)
        × All IsDigit ds
        × (value ds ≡ now % 1000)
  build_timestamp-value now =
      let v = fill-value (now % 1000) (omega arith) in
      (fill 3 (print (now % 1000)), refl, v.0, fill-IsDigit 3 (now % 1000), v.1)
