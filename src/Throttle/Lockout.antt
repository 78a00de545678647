-- ===== src/Throttle/Lockout.antt =====
-- web/throttle.py: when a client is turned away, for how long, and what a success does.
use dudamel.Prelude.{
  ℕ, ◌+◌, ◌≤◌, ◌<◌, ◌≡◌, refl, min, Bool, true, false, List, [], ◌∷◌, ◌++◌, none, some, inl, inr,
  String, eq_iff, eq_refl, length, length-append, length-keep-le, All, All-keep, keep, Bool-cases,
  ltb, leb, ap, ◌∙◌, lt→ltb, if◌then◌else◌, ◌==◌, arith,
}
use dudamel.Dict.{
  IsDict, lookup, insert, erase, move_to_end, move_to_end-IsDict, insert-IsDict, erase-IsDict,
  lookup-erase, lookup-insert, lookup-append,
}
use dudamel.Throttle.{
  Failures, max_failures, window, or_empty, stamps_of, fresh_stamps, store_fresh, is_fresh,
  is_throttled, last_five, evict, record_failure, clear, retry_after, wait_from,
}
use dudamel.Throttle.Bounds.{IsBounded, AtMostFive, stamps_of-AtMostFive}

-- The entry at the end is never evicted.
lookup-evict :
    (key : String) (stamps : List ℕ) (f : Failures)
    → lookup key f ≡ none
    → lookup key (evict (f ++ ((key, stamps) ∷ []))) ≡ some stamps
unfolding evict
lookup-evict key stamps [] h = ground (arith, eq_refl key)
lookup-evict key stamps ((j, v) ∷ f) h =
    ground (arith, eq_refl key, lookup-evict key stamps f, lookup-append key f ((key, stamps) ∷ []))

store_fresh-IsDict :
    (key : String) (stamps : List ℕ) (f : Failures) → IsDict f → IsDict (store_fresh key stamps f)
store_fresh-IsDict key [] f h = unfold store_fresh in erase-IsDict key f h
store_fresh-IsDict key (t ∷ ts) f h =
    unfold store_fresh in
    move_to_end-IsDict key (insert key (t ∷ ts) f) (insert-IsDict key (t ∷ ts) f h)

-- What is put last is found after an eviction.
lookup-evict-put :
    (key : String) (stamps : List ℕ) (g : Failures)
    → IsDict g
    → lookup key (evict (move_to_end key (insert key stamps g))) ≡ some stamps
lookup-evict-put key stamps g h =
    let here : lookup key (insert key stamps g) ≡ some stamps =
      ground (arith, lookup-insert key key stamps g, eq_refl key) in
    rw here (
      lookup-evict key stamps (erase key (insert key stamps g)) (
        ground (
          arith,
          lookup-erase key key (insert key stamps g) (insert-IsDict key stamps g h),
          eq_refl key,
        )))

-- What a recorded failure leaves for its client.
stamps_of-record_failure :
    (now later : ℕ) (key : String) (f : Failures)
    → IsDict f
    → stamps_of key (record_failure now later key f)
      ≡ last_five (fresh_stamps now key f ++ (later ∷ []))
unfolding record_failure
stamps_of-record_failure now later key f h = ap or_empty (
    lookup-evict-put key (last_five (fresh_stamps now key f ++ (later ∷ [])))
      (store_fresh key (fresh_stamps now key f) f)
      (store_fresh-IsDict key (fresh_stamps now key f) f h))

-- In the order in which they were recorded.
abbrev pub Ascending : List ℕ → Type 0
Ascending [] = Unit
Ascending (t ∷ ts) = All (λ u. t ≤ u) ts × Ascending ts

keep-Ascending : (p : ℕ → Bool) (ts : List ℕ) → Ascending ts → Ascending (keep p ts)
keep-Ascending p [] h = tt
keep-Ascending p (t ∷ ts) h = elim (Bool-cases (p t)) [
  | inl e ↦ rw e (All-keep (λ u. t ≤ u) p ts h.0, keep-Ascending p ts h.1)
  | inr e ↦ rw e (keep-Ascending p ts h.1)
]

-- What is fresh later was fresh before.
keep_fresh_twice :
    (now c : ℕ) (ts : List ℕ)
    → now ≤ c
    → keep (is_fresh c) (keep (is_fresh now) ts) ≡ keep (is_fresh c) ts
keep_fresh_twice now c [] h = refl
keep_fresh_twice now c (t ∷ ts) h = ground (arith, keep_fresh_twice now c ts h)

-- If the oldest is fresh, all are.
keep_fresh_everything :
    (c t : ℕ) (ts : List ℕ) → All (λ u. t ≤ u) ts → is_fresh c t ≡ true → keep (is_fresh c) ts ≡ ts
keep_fresh_everything c t [] h e = refl
keep_fresh_everything c t (u ∷ ts) h e = ground (arith, keep_fresh_everything c t ts h.1)

last_five-short : (xs : List ℕ) → length xs ≤ max_failures → last_five xs ≡ xs
last_five-short xs h = ground arith

last_five-long : (t : ℕ) (xs : List ℕ) → length xs ≡ max_failures → last_five (t ∷ xs) ≡ xs
last_five-long t xs h = rw h

recent-snoc :
    (c later : ℕ) (ts : List ℕ)
    → is_fresh c later ≡ true
    → length (keep (is_fresh c) (ts ++ (later ∷ []))) ≡ length (keep (is_fresh c) ts) + 1
recent-snoc c later [] e = ground arith
recent-snoc c later (t ∷ ts) e = ground (arith, recent-snoc c later ts e)

recent_last_five :
    (c later : ℕ) (ts : List ℕ)
    → AtMostFive ts
    → Ascending ts
    → is_fresh c later ≡ true
    → length (keep (is_fresh c) (last_five (ts ++ (later ∷ []))))
      ≡ min max_failures (length (keep (is_fresh c) ts) + 1)
recent_last_five c later [] five asc e = ground arith
recent_last_five c later (t ∷ ts) five asc e =
    let more = length-append ts (later ∷ []) in
    let snoc = recent-snoc c later ts e in
    let some_kept = length-keep-le (is_fresh c) ts in
    elim (Bool-cases (ltb (length ts) 4)) [
      | inl room ↦
          rw (last_five-short (t ∷ (ts ++ (later ∷ []))) (ground arith))
            (ground (arith, snoc, some_kept))
      | inr full ↦
          rw (last_five-long t (ts ++ (later ∷ [])) (ground arith))
            (elim (Bool-cases (is_fresh c t)) [
              | inl all_fresh ↦ ground (
                arith,
                snoc,
                ap (λ (xs : List ℕ). length xs) (keep_fresh_everything c t ts asc.0 all_fresh),
              )
              | inr stale ↦ ground (arith, snoc, some_kept)
            ])
    ]

-- Failures of `key` that still count at time `c`.
abbrev pub recent : ℕ → String → Failures → ℕ
recent c key f = length (fresh_stamps c key f)

module _ (now later c : ℕ) (key : String) (f : Failures) (bounded : IsBounded f)
    (asc : Ascending (stamps_of key f)) where
  recent-record_failure :
      now ≤ c
      → c < later + window
      → recent c key (record_failure now later key f) ≡ min max_failures (recent c key f + 1)
  recent-record_failure before still =
      rw (stamps_of-record_failure now later key f bounded.distinct) (
        recent_last_five c later (fresh_stamps now key f)
          (omega (
            arith,
            length-keep-le (is_fresh now) (stamps_of key f),
            stamps_of-AtMostFive key f bounded.stamps,
          ))
          (keep-Ascending (is_fresh now) (stamps_of key f) asc) (lt→ltb c (later + window) still)
        ∙ ap (λ (ts : List ℕ). min max_failures (length ts + 1))
            (keep_fresh_twice now c (stamps_of key f) before))

  -- A client is turned away at a later time exactly if the failure just recorded is the fifth, or
  -- a later one, of those that still count.
  pub is_throttled-record_failure :
      now ≤ c
      → c < later + window
      → (is_throttled c key (record_failure now later key f)).0
        ≡ leb max_failures (recent c key f + 1)
  unfolding is_throttled
  is_throttled-record_failure before still = ground (arith, recent-record_failure before still)

-- A cleared client has no failures left, and the others keep theirs.
pub stamps_of-clear :
    (key j : String) (f : Failures)
    → IsDict f
    → stamps_of j (clear key f) ≡ (if j == key then [] else stamps_of j f)
unfolding clear
stamps_of-clear key j f h = ground (arith, lookup-erase key j f h, eq_iff key j, eq_iff j key)

pub clear-is_throttled :
    (c : ℕ) (key : String) (f : Failures) → IsDict f → (is_throttled c key (clear key f)).0 ≡ false
unfolding is_throttled clear
clear-is_throttled c key f h = ground (arith, lookup-erase key key f h, eq_refl key)

wait_from_lem :
    (later : ℕ) (ts : List ℕ)
    → All (λ t. t ≤ later) ts
    → (ltb 0 (wait_from later ts) ≡ leb max_failures (length ts)) × (wait_from later ts ≤ 300)
unfolding wait_from
wait_from_lem later [] past = (refl, omega arith)
wait_from_lem later (t ∷ ts) past = ground arith

-- A wait is asked of exactly the clients that are throttled at the same reading of the clock, and
-- it lasts 300 seconds at most if no failure was recorded in the future.
pub retry_after-is_throttled :
    (now later : ℕ) (key : String) (f : Failures)
    → All (λ t. t ≤ later) (stamps_of key f)
    → (ltb 0 (retry_after now later key f).0 ≡ (is_throttled now key f).0)
      × ((retry_after now later key f).0 ≤ 300)
unfolding is_throttled retry_after
retry_after-is_throttled now later key f past =
    wait_from_lem later (fresh_stamps now key f)
      (All-keep (λ t. t ≤ later) (is_fresh now) (stamps_of key f) past)
