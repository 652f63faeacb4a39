-- ===== src/Http/Waiters/Owners.antt =====
-- The map of the waiters of reg_fsm/src/HttpServer.cpp in the order of its keys, and what holds of each pointer in it.
use fsm_framework.Base.{
  ℕ, ◌≡◌, ◌≢◌, ◌⊎◌, inl, inr, ◌==◌, true, false, List, [], ◌∷◌, arith, All, All-append, All-map,
  Bool-cases,
}
use fsm_framework.Http.Waiters.Registry.{same_key_refl}
use fsm_framework.Http.Waiters.{
  WaitKey, WaitMap, same_key, key_less, push_waiter, remove_waiter, keep_pair, drop_waiter,
}

abbrev Above : WaitKey → WaitMap → Type 0
Above k m = All (λ p. key_less k p.0 ≡ true) m

abbrev pub Sorted : WaitMap → Type 0
Sorted [] = Unit
Sorted ((k, is) ∷ m) = Above k m × Sorted m

key_less_trans : (a b c : WaitKey) → key_less a b ≡ true → key_less b c ≡ true → key_less a c ≡ true
key_less_trans a b c h k = ground arith

key_less_other :
    (a b k : WaitKey) → same_key a k ≡ true → key_less a b ≡ true → same_key b k ≡ false
key_less_other a b k s h = ground arith

key_total : (a k : WaitKey) → same_key a k ≡ false → key_less k a ≡ false → key_less a k ≡ true
key_total a k s h = ground arith

Above-push_waiter :
    (a k : WaitKey) (i : ℕ) (m : WaitMap)
    → key_less a k ≡ true
    → Above a m
    → Above a (push_waiter k i m)
unfolding push_waiter
Above-push_waiter a k i [] h t = (h, tt)
Above-push_waiter a k i ((k', is) ∷ m) h t = elim (Bool-cases (same_key k' k)) [
  | inl same ↦ rw same (t.0, t.1)
  | inr other ↦ elim (Bool-cases (key_less k k')) [
    | inl less ↦ rw (other, less) (h, (t.0, t.1))
    | inr more ↦ rw (other, more) (t.0, Above-push_waiter a k i m h t.1)
  ]
]

pub push_waiter-Sorted : (k : WaitKey) (i : ℕ) (m : WaitMap) → Sorted m → Sorted (push_waiter k i m)
unfolding push_waiter
push_waiter-Sorted k i [] s = (tt, tt)
push_waiter-Sorted k i ((k', is) ∷ m) s = elim (Bool-cases (same_key k' k)) [
  | inl same ↦ rw same (s.0, s.1)
  | inr other ↦ elim (Bool-cases (key_less k k')) [
    | inl less ↦
        rw (other, less) ((less, All-map (λ p h. key_less_trans k k' p.0 less h) m s.0), (s.0, s.1))
    | inr more ↦
        rw (other, more)
          (Above-push_waiter k' k i m (key_total k' k other more) s.0, push_waiter-Sorted k i m s.1)
  ]
]

Above-drop_waiter : (a k : WaitKey) (i : ℕ) (m : WaitMap) → Above a m → Above a (drop_waiter k i m)
unfolding drop_waiter
Above-drop_waiter a k i [] t = tt
Above-drop_waiter a k i ((k', is) ∷ m) t = elim (Bool-cases (same_key k' k)) [
  | inl same ↦ rw same (kept k' (remove_waiter i is) t.0)
  | inr other ↦ rw other (t.0, Above-drop_waiter a k i m t.1)
]
  where
    kept : (k' : WaitKey) (is : List ℕ) → key_less a k' ≡ true → Above a (keep_pair k' is m)
    kept k' [] h = t.1
    kept k' (x ∷ is) h = (h, t.1)

keep_pair-Sorted :
    (k : WaitKey) (is : List ℕ) (m : WaitMap) → Above k m → Sorted m → Sorted (keep_pair k is m)
keep_pair-Sorted k [] m a s = s
keep_pair-Sorted k (x ∷ is) m a s = (a, s)

pub drop_waiter-Sorted : (k : WaitKey) (i : ℕ) (m : WaitMap) → Sorted m → Sorted (drop_waiter k i m)
unfolding drop_waiter
drop_waiter-Sorted k i [] s = tt
drop_waiter-Sorted k i ((k', is) ∷ m) s = elim (Bool-cases (same_key k' k)) [
  | inl same ↦ rw same (keep_pair-Sorted k' (remove_waiter i is) m s.0 s.1)
  | inr other ↦ rw other (Above-drop_waiter k' k i m s.0, drop_waiter-Sorted k i m s.1)
]

-- Each pointer of the map, under its key, has the property.
abbrev pub Owned : (WaitKey → ℕ → Type 0) → WaitMap → Type 0
Owned O m = All (λ p. All (O p.0) p.1) m

pub push_waiter-Owned :
    (O : WaitKey → ℕ → Type 0) (k : WaitKey) (i : ℕ) (m : WaitMap)
    → Owned O m
    → ((k' : WaitKey) → same_key k' k ≡ true → O k' i)
    → Owned O (push_waiter k i m)
unfolding push_waiter
push_waiter-Owned O k i [] a o = ((o k (same_key_refl k), tt), tt)
push_waiter-Owned O k i ((k', is) ∷ m) a o = elim (Bool-cases (same_key k' k)) [
  | inl same ↦ rw same (All-append (O k') is (i ∷ []) a.0 (o k' same, tt), a.1)
  | inr other ↦ elim (Bool-cases (key_less k k')) [
    | inl less ↦ rw (other, less) ((o k (same_key_refl k), tt), (a.0, a.1))
    | inr more ↦ rw (other, more) (a.0, push_waiter-Owned O k i m a.1 o)
  ]
]

pub drop_waiter-Owned :
    (O O' : WaitKey → ℕ → Type 0) (k : WaitKey) (i : ℕ) (m : WaitMap)
    → Sorted m
    → Owned O m
    → ((k' : WaitKey) (x : ℕ) → (same_key k' k ≡ false) ⊎ (x ≢ i) → O k' x → O' k' x)
    → Owned O' (drop_waiter k i m)
unfolding drop_waiter remove_waiter
drop_waiter-Owned O O' k i [] s a f = tt
drop_waiter-Owned O O' k i ((k', is) ∷ m) s a f = elim (Bool-cases (same_key k' k)) [
  | inl same ↦ rw same (kept (remove_waiter i is) (removed is a.0) (above m s.0 a.1 same))
  | inr other ↦
      rw other
        (All-map (λ x o. f k' x (inl other) o) is a.0, drop_waiter-Owned O O' k i m s.1 a.1 f)
]
  where
    removed : (is : List ℕ) → All (O k') is → All (O' k') (remove_waiter i is)
    removed [] b = tt
    removed (x ∷ is) b = elim (Bool-cases (x == i)) [
      | inl hit ↦ rw hit (removed is b.1)
      | inr miss ↦ rw miss (f k' x (inr (λ e. ground arith)) b.0, removed is b.1)
    ]

    above : (m : WaitMap) → Above k' m → Owned O m → same_key k' k ≡ true → Owned O' m
    above [] h b same = tt
    above ((k'', js) ∷ m) h b same = (
      All-map (λ x o. f k'' x (inl (key_less_other k' k'' k same h.0)) o) js b.0,
      above m h.1 b.1 same,
    )

    kept : (js : List ℕ) → All (O' k') js → Owned O' m → Owned O' (keep_pair k' js m)
    kept [] b c = c
    kept (x ∷ js) b c = (b, c)
