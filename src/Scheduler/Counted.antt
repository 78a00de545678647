-- ===== src/Scheduler/Counted.antt =====
-- src/dudamel/scheduler.py: how many fires `_count_missed` counts.
use dudamel.Prelude.{
  ℕ, zero, suc, ◌+◌, ◌-◌, ◌≤◌, ◌<◌, ◌≡◌, ◌∙◌, ap, refl, min, Bool, true, false, Option, none, some,
  inl, inr, Bool-cases, leb, arith, if◌then◌else◌,
}
use dudamel.Scheduler.{ℤ, cron, missed_count_cap, count_fires, count_missed}

-- How many of the `n` moments from `t` on are fires.
abbrev pub fires_in : (ℕ → Bool) → ℕ → ℕ → ℕ
fires_in is_fire t zero = 0
fires_in is_fire t (suc n) =
    let rest = fires_in is_fire (t + 1) n in if is_fire t then suc rest else rest

-- What APScheduler documents of `get_next_fire_time`: the first fire that is not before the moment.
pub record IsFirstFire (next : ℕ → Option ℕ) (is_fire : ℕ → Bool) : Type 0 where
  pub absent : (t u : ℕ) → next t ≡ none → t ≤ u → is_fire u ≡ false
  pub after : (t f : ℕ) → next t ≡ some f → t ≤ f
  pub fires : (t f : ℕ) → next t ≡ some f → is_fire f ≡ true
  pub first : (t f u : ℕ) → next t ≡ some f → t ≤ u → u < f → is_fire u ≡ false

module _ (is_fire : ℕ → Bool) where
  fires_in-none :
      (t n : ℕ) → ((u : ℕ) → t ≤ u → u < t + n → is_fire u ≡ false) → fires_in is_fire t n ≡ 0
  fires_in-none t zero h = refl
  fires_in-none t (suc n) h =
      rw (h t (omega arith) (omega arith))
        (fires_in-none (t + 1) n (λ u le lt. h u (omega arith) (omega arith)))

  -- The moments before the first fire count for nothing.
  fires_in-skip :
      (k t n total t' : ℕ)
      → total ≡ k + n
      → t + k ≡ t'
      → ((u : ℕ) → t ≤ u → u < t' → is_fire u ≡ false)
      → fires_in is_fire t total ≡ fires_in is_fire t' n
  fires_in-skip zero t n total t' e e' h =
      let here : t ≡ t' = omega arith in
      let same : total ≡ n = omega arith in
      ap (λ m. fires_in is_fire t m) same ∙ ap (λ u. fires_in is_fire u n) here
  fires_in-skip (suc k) t n total t' e e' h =
      let more : total ≡ suc (k + n) = omega arith in
      ap (λ m. fires_in is_fire t m) more
      ∙ rw (h t (omega arith) (omega arith)) (
          fires_in-skip k (t + 1) n (k + n) t' refl (omega arith) (λ u le lt. h u (omega arith) lt))

  fires_in-first :
      (t f now : ℕ)
      → t ≤ f
      → f ≤ now
      → is_fire f ≡ true
      → ((u : ℕ) → t ≤ u → u < f → is_fire u ≡ false)
      → fires_in is_fire t (now + 1 - t) ≡ suc (fires_in is_fire (f + 1) (now + 1 - (f + 1)))
  fires_in-first t f now le le' fire before =
      let rest : now - f ≡ now + 1 - (f + 1) = omega arith in
      fires_in-skip (f - t) t (suc (now - f)) (now + 1 - t) f (omega arith) (omega arith) before
      ∙ rw fire (ap (λ n. suc (fires_in is_fire (f + 1) n)) rest)

module _ (next : ℕ → Option ℕ) (is_fire : ℕ → Bool) (documented : IsFirstFire next is_fire) where
  count_fires-fires_in :
      (left now t : ℕ) (o : Option ℕ)
      → next t ≡ o
      → count_fires left next now o ≡ min left (fires_in is_fire t (now + 1 - t))
  unfolding count_fires
  count_fires-fires_in zero now t o e = omega arith
  count_fires-fires_in (suc left) now t none e =
      rw (fires_in-none is_fire t (now + 1 - t) (λ u le lt. documented.absent t u e le))
        (omega arith)
  count_fires-fires_in (suc left) now t (some f) e = elim (Bool-cases (leb f now)) [
    | inl due ↦
        rw
          (
            due,
            count_fires-fires_in left now (f + 1) (next (f + 1)) refl,
            fires_in-first is_fire t f now (documented.after t f e) (ground arith)
                (documented.fires t f e) (λ u. documented.first t f u e),
          )
          (omega arith)
    | inr over ↦
        rw
          (
            over,
            fires_in-none is_fire t (now + 1 - t)
                (λ u le lt. documented.first t f u e le (ground arith)),
          )
          (omega arith)
  ]

  -- A job with a crontab is counted exactly: the number of its fires after the last run and not
  -- after now, and 1001 where there are more, if the trigger answers with the first fire that is
  -- not before the moment that it is asked about.
  pub count_missed-fires_in :
      (last now : ℕ)
      → last ≤ now
      → count_missed (cron next) last now
        ≡ ℤ.pos (min (missed_count_cap + 1) (fires_in is_fire (last + 1) (now - last)))
  unfolding count_missed
  count_missed-fires_in last now le =
      let span : now + 1 - (last + 1) ≡ now - last = omega arith in
      ap ℤ.pos (
        count_fires-fires_in (missed_count_cap + 1) now (last + 1) (next (last + 1)) refl
        ∙ ap (λ n. min (missed_count_cap + 1) (fires_in is_fire (last + 1) n)) span)
