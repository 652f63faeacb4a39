-- ===== src/Http/Target.antt =====
-- The request target in reg_fsm/src/HttpServer.cpp: `ExtractPath`, `ExtractQuery`,
-- `QueryHasWaitTrue` and `ResolveRoute`. A position in a string is the rest of the string from
-- there on.
use fsm_framework.Base.{
  ℕ, zero, suc, ◌<◌, ◌≡◌, refl, ap, sym, ◌∙◌, ◌≢◌, ◌⊎◌, inl, inr, Bool, true, false, ◌||◌, List, [],
  ◌∷◌, ◌++◌, Option, none, some, arith, ◌==◌, if◌then◌else◌, length, codes, same_text,
  same_text_lem, All, Bool-cases, Option-cases,
}
use fsm_framework.Data.{fac_reg_fac_id, fac_auth_fac_id}

-- `find` of a byte and the two `substr` at it: what stands before the first one, and what comes
-- after it, `none` where there is none.
unfoldable pub cut_at : ℕ → List ℕ → List ℕ × Option (List ℕ)
cut_at c [] = ([], none)
cut_at c (x ∷ xs) = let rest = cut_at c xs in if x == c then ([], some xs) else (x ∷ rest.0, rest.1)

unfoldable pub extract_path : List ℕ → List ℕ
unfolding cut_at
extract_path target = (cut_at b'?' target).0

unfoldable pub extract_query : List ℕ → List ℕ
unfolding cut_at
extract_query target = elim (cut_at b'?' target).1 [ none ↦ [] | some query ↦ query ]

-- The test of one item of the query.
abbrev pub asks_wait : List ℕ → Bool
asks_wait item = same_text (codes "wait=true") item || same_text (codes "wait=1") item

-- The loop from a position on, on fuel; out of fuel is `none`.
unfoldable pub wait_loop : ℕ → List ℕ → Option Bool
unfolding cut_at
wait_loop zero query = none
wait_loop (suc n) query =
    if asks_wait (cut_at b'&' query).0
    then some true
    else elim (cut_at b'&' query).1 [ none ↦ some false | some rest ↦ wait_loop n rest ]

-- One round for each byte and one more are enough.
unfoldable pub query_has_wait_true : List ℕ → Option Bool
unfolding wait_loop
query_has_wait_true query = wait_loop (suc (length query)) query

-- The service and its name.
unfoldable pub resolve_route : List ℕ → Option (ℕ × List ℕ)
resolve_route path =
    if same_text (codes "/api/v1/register") path
    then some (fac_reg_fac_id, codes "register")
    else if same_text (codes "/api/v1/auth") path
    then some (fac_auth_fac_id, codes "auth")
    else none

-- What a cut leaves: no such byte before it, and both parts with the byte between them are the
-- text.
abbrev pub Cut : ℕ → List ℕ → List ℕ × Option (List ℕ) → Type 0
Cut c text (before, none) = (text ≡ before) × All (λ (x : ℕ). x ≢ c) before
Cut c text (before, some after) = (text ≡ before ++ c ∷ after) × All (λ (x : ℕ). x ≢ c) before

Cut-extend :
    (c x : ℕ) (text : List ℕ) (r : List ℕ × Option (List ℕ))
    → x ≢ c
    → Cut c text r
    → Cut c (x ∷ text) (x ∷ r.0, r.1)
Cut-extend c x text (before, none) h (e, all) = (ap (◌∷◌ x) e, (h, all))
Cut-extend c x text (before, some after) h (e, all) = (ap (◌∷◌ x) e, (h, all))

pub cut_at-Cut : (c : ℕ) (text : List ℕ) → Cut c text (cut_at c text)
unfolding cut_at
cut_at-Cut c [] = (refl, tt)
cut_at-Cut c (x ∷ xs) = elim (Bool-cases (x == c)) [
  | inl hit ↦ let same : x ≡ c = ground arith in rw hit (ap (λ (y : ℕ). y ∷ xs) same, tt)
  | inr miss ↦
      let other : x ≢ c = ground arith in
      rw miss (Cut-extend c x xs (cut_at c xs) other (cut_at-Cut c xs))
]

-- The path has no question mark, and a target is its path alone (then the query is empty), or its
-- path, a question mark and its query.
pub extract_target :
    (target : List ℕ)
    → All (λ (x : ℕ). x ≢ b'?') (extract_path target)
      × (((target ≡ extract_path target) × (extract_query target ≡ []))
          ⊎ (target ≡ extract_path target ++ b'?' ∷ extract_query target))
unfolding extract_path extract_query
extract_target target = go (cut_at b'?' target) (cut_at-Cut b'?' target)
  where
    go :
        (r : List ℕ × Option (List ℕ))
        → Cut b'?' target r
        → All (λ (x : ℕ). x ≢ b'?') r.0
          × (((target ≡ r.0) × ((elim r.1 [ none ↦ [] | some query ↦ query ]) ≡ []))
              ⊎ (target ≡ r.0 ++ b'?' ∷ (elim r.1 [ none ↦ [] | some query ↦ query ])))
    go (before, none) (e, all) = (all, inl (e, refl))
    go (before, some after) (e, all) = (all, inr e)

-- The items of a query: the texts between the ampersands.
abbrev pub prepend : ℕ → List (List ℕ) → List (List ℕ)
prepend x [] = (x ∷ []) ∷ []
prepend x (i ∷ is) = (x ∷ i) ∷ is

unfoldable pub items : List ℕ → List (List ℕ)
items [] = [] ∷ []
items (x ∷ xs) = if x == b'&' then [] ∷ items xs else prepend x (items xs)

abbrev pub any : List (List ℕ) → Bool
any [] = false
any (i ∷ is) = asks_wait i || any is

abbrev pub items_after : Option (List ℕ) → List (List ℕ)
items_after none = []
items_after (some rest) = items rest

items_lem : (text : List ℕ) → items text ≡ (cut_at b'&' text).0 ∷ items_after (cut_at b'&' text).1
unfolding items cut_at
items_lem [] = refl
items_lem (x ∷ xs) = elim (Bool-cases (x == b'&')) [
  | inl hit ↦ rw hit
  | inr miss ↦ rw miss (ap (prepend x) (items_lem xs))
]

length-cut_at : (text rest : List ℕ) → (cut_at b'&' text).1 ≡ some rest → length rest < length text
unfolding cut_at
length-cut_at [] rest e = cc
length-cut_at (x ∷ xs) rest e = ground (arith, length-cut_at xs rest)

wait_loop_lem :
    (n : ℕ) (text : List ℕ) → length text < n → wait_loop n text ≡ some (any (items text))
unfolding wait_loop
wait_loop_lem zero text h = absurd (omega arith)
wait_loop_lem (suc n) text h =
    rw (items_lem text) (elim (Bool-cases (asks_wait (cut_at b'&' text).0)) [
      | inl hit ↦ rw (hit, wait_loop)
      | inr miss ↦ elim (Option-cases (cut_at b'&' text).1) [
        | inl e ↦ rw (miss, wait_loop) (rw e)
        | inr (rest, e) ↦
            rw (miss, wait_loop)
              (rw e (wait_loop_lem n rest (omega (arith, length-cut_at text rest e))))
      ]
    ])

-- Some item of the list is `wait=true` or `wait=1`.
abbrev pub SaysWait : List (List ℕ) → Type 0
SaysWait [] = ⊥
SaysWait (i ∷ is) = ((i ≡ codes "wait=true") ⊎ (i ≡ codes "wait=1")) ⊎ SaysWait is

none_says :
    (i : List ℕ) (is : List (List ℕ))
    → same_text (codes "wait=true") i ≡ false
    → same_text (codes "wait=1") i ≡ false
    → ¬ SaysWait is
    → ¬ SaysWait (i ∷ is)
none_says i is no_true no_one never (inl (inl e)) = let h = rw e at no_true in cc
none_says i is no_true no_one never (inl (inr e)) = let h = rw e at no_one in cc
none_says i is no_true no_one never (inr later) = never later

any_cases :
    (is : List (List ℕ)) → ((any is ≡ true) × SaysWait is) ⊎ ((any is ≡ false) × ¬ SaysWait is)
any_cases [] = inr (refl, λ x. x)
any_cases (i ∷ is) = elim (Bool-cases (same_text (codes "wait=true") i)) [
  | inl as_true ↦
      inl (rw as_true refl, inl (inl (sym (same_text_lem (codes "wait=true") i as_true))))
  | inr no_true ↦ elim (Bool-cases (same_text (codes "wait=1") i)) [
    | inl as_one ↦
        inl (rw (no_true, as_one) refl, inl (inr (sym (same_text_lem (codes "wait=1") i as_one))))
    | inr no_one ↦ elim (any_cases is) [
      | inl (found, later) ↦ inl (rw (no_true, no_one) found, inr later)
      | inr (missed, never) ↦ inr (rw (no_true, no_one) missed, none_says i is no_true no_one never)
    ]
  ]
]

-- The loop of `QueryHasWaitTrue` ends, and finds true if some text between the ampersands of the query is
-- `wait=true` or `wait=1`, and else false.
pub query_has_wait_true-SaysWait :
    (query : List ℕ)
    → ((query_has_wait_true query ≡ some true) × SaysWait (items query))
      ⊎ ((query_has_wait_true query ≡ some false) × ¬ SaysWait (items query))
unfolding query_has_wait_true
query_has_wait_true-SaysWait query =
    let ends = wait_loop_lem (suc (length query)) query (omega arith) in
    elim (any_cases (items query)) [
      | inl (found, says) ↦ inl (ends ∙ ap (λ b. some b) found, says)
      | inr (missed, never) ↦ inr (ends ∙ ap (λ b. some b) missed, never)
    ]
