-- ===== src/Http/Session.antt =====
-- The session ids of reg_fsm/src/HttpServer.cpp: `ReadSessionId` and `GenerateSessionId`. Boost's
-- JSON is the parameter `Json`.
use fsm_framework.Base.{
  ℕ, zero, suc, ◌+◌, ◌<◌, ◌≡◌, refl, inl, inr, ◌==◌, leb, ◌||◌, List, Option, none, some, arith,
  if◌then◌else◌, codes, Bool-cases, Option-cases,
}
use native.Mathlib.Nat.{mod-eq_of_lt}
use fsm_framework.Data.{u32, u32_mod}

-- A signed number: `negsuc n` is - n - 1.
pub data ℤ : Type 0 where
  pos : ℕ → ℤ
  negsuc : ℕ → ℤ

-- What the server calls of boost::json. A test of a kind and the access that it guards are one
-- function: `as_object` is `none` where `is_object` is false, and so on.
pub record Json : Type 1 where
  pub Value : Type 0
  pub Object : Type 0
  pub parse : List ℕ → Option Value
  pub empty_object : Value
  pub as_object : Value → Option Object
  pub find : List ℕ → Object → Option Value
  pub as_uint64 : Value → Option ℕ
  pub as_int64 : Value → Option ℤ
  pub serialize : Value → List ℕ

-- `true` with the session id, or `false` with the error.
pub data SessionResult : Type 0 where
  accepted : ℕ → SessionResult
  rejected : List ℕ → SessionResult

-- The branches on the kind of the value; `none` goes to the error.
abbrev pub positive_int64 : Option ℤ → Option ℕ
positive_int64 (some (pos (suc n))) = some (suc n)
positive_int64 _ = none

abbrev pub raw_session_id : Option ℕ → Option ℤ → Option ℕ
raw_session_id (some n) i = some n
raw_session_id none i = positive_int64 i

-- The check of the range, and the cast.
abbrev pub check_range : Option ℕ → SessionResult
check_range none = rejected (codes "sessionId must be a positive integer")
check_range (some raw) =
    if (raw == 0) || leb u32_mod raw
    then rejected (codes "sessionId is out of range")
    else accepted (u32 raw)

unfoldable pub read_session_id : (j : Json) → j.Object → ℕ → SessionResult
read_session_id j body session = elim (j.find (codes "sessionId") body) [
  | none ↦ accepted session
  | some v ↦ check_range (raw_session_id (j.as_uint64 v) (j.as_int64 v))
]

-- The loop of `fetch_add`, on fuel: the counter after it, and the id.
unfoldable pub generate_loop : ℕ → ℕ → Option (ℕ × ℕ)
generate_loop zero next = none
generate_loop (suc n) next =
    let again = generate_loop n (u32 (next + 1)) in
    if next == 0 then again else some (u32 (next + 1), next)

-- Two rounds are enough, since two fetches in a row do not both give 0.
unfoldable pub generate_session_id : ℕ → Option (ℕ × ℕ)
unfolding generate_loop
generate_session_id next = generate_loop 2 next

-- An id that a session may have.
abbrev pub IsSessionId : ℕ → Type 0
IsSessionId n = (0 < n) × (n < u32_mod)

-- The generated id is never 0, and the counter stays an unsigned int.
pub generate_session_id_lem :
    (next : ℕ)
    → next < u32_mod
    → (after : ℕ) × (id : ℕ) × (generate_session_id next ≡ some (after, id))
      × IsSessionId id
      × (after < u32_mod)
unfolding generate_session_id
generate_session_id_lem next h = elim (Bool-cases (next == 0)) [
  | inl wrapped ↦
      let is_0 : next ≡ 0 = ground arith in
      (2, 1, rw is_0 refl, (omega arith, omega arith), omega arith)
  | inr other ↦ (u32 (next + 1), next, ground arith, (ground arith, h), omega arith)
]

check_range-IsSessionId : (o : Option ℕ) (id : ℕ) → check_range o ≡ accepted id → IsSessionId id
check_range-IsSessionId none id e = absurd (ground arith)
check_range-IsSessionId (some raw) id e = elim (Bool-cases ((raw == 0) || leb u32_mod raw)) [
  | inl out ↦ absurd (ground arith)
  | inr inside ↦
      let small : raw < u32_mod = ground arith in
      let kept : u32 raw ≡ raw = mod-eq_of_lt small in ground (arith, kept)
]

-- A session id that is read is one that a session may have, if the generated one is.
pub read_session_id-IsSessionId :
    (j : Json) (body : j.Object) (session id : ℕ)
    → IsSessionId session
    → read_session_id j body session ≡ accepted id
    → IsSessionId id
unfolding read_session_id
read_session_id-IsSessionId j body session id h e =
    elim (Option-cases (j.find (codes "sessionId") body)) [
      | inl missing ↦ ground (arith, h)
      | inr (v, there) ↦
          check_range-IsSessionId (raw_session_id (j.as_uint64 v) (j.as_int64 v)) id
            (rw (there, read_session_id) at e)
    ]
