-- ===== src/Llm/Budget.antt =====
-- src/dudamel/llm/client.py: the daily token budget over a sequence of model calls.
use dudamel.Prelude.{
  ℕ, zero, suc, ◌+◌, ◌*◌, ◌≤◌, ◌≡◌, refl, subst, sym, Option, none, some, String, List, [], ◌∷◌,
  ◌++◌, inl, inr, Bool-cases, leb, length, All, arith,
}
use dudamel.Dict.{lookup}
use dudamel.Llm.Client.{
  Usage, Request, ProviderAnswer, completed, failed, Tier, LlmCall, Settings, Ledger, spent, Flight,
  Begun, stopped, asked, check_budget, record_usage, after_provider, after_check, begin_call_in,
  begin_call, finish_call,
}
use dudamel.Llm.Traffic.{
  Traffic, Event, begins, answers, join, finish_at, serve_event, serve_events, peak, quiet,
}

abbrev pub used_by : ProviderAnswer → ℕ
used_by (completed c) = c.usage.tokens_in + c.usage.tokens_out
used_by (failed e) = 0

-- The clock stays in the day that began at `start`, and no answer takes more than `most` tokens.
pub record IsDay (env : Settings) (start most : ℕ) : Type 0 where
  pub today : (n : ℕ) → env.midnight (env.read_clock n) ≡ start
  pub frugal :
      (name : String) (t : Tier) (n : ℕ) (r : Request)
      → lookup name env.tiers ≡ some t
      → used_by (t.complete n t.model r t.max_tokens) ≤ most

spent-append :
    (start : ℕ) (xs ys : List LlmCall) → spent start (xs ++ ys) ≡ spent start xs + spent start ys
unfolding spent
spent-append start [] ys = omega arith
spent-append start (c ∷ cs) ys = omega (arith, spent-append start cs ys)

spent_one : (start : ℕ) (c : LlmCall) → spent start (c ∷ []) ≤ c.tokens_in + c.tokens_out
unfolding spent
spent_one start c = ground arith

record_usage-spent :
    (env : Settings) (start : ℕ) (t : Tier) (r : Request) (usage : Usage) (w : Ledger)
    → spent start (record_usage env t r usage w).calls
      ≤ spent start w.calls + (usage.tokens_in + usage.tokens_out)
unfolding record_usage
record_usage-spent env start t r usage w = elim (Bool-cases (env.recorded w.writes)) [
  | inl e ↦ rw e (omega (arith, spent-append start w.calls _, spent_one start _))
  | inr e ↦ rw e (omega arith)
]

after_provider-spent :
    (env : Settings) (start : ℕ) (t : Tier) (r : Request) (answer : ProviderAnswer) (w : Ledger)
    → spent start (after_provider env t r answer w).1.calls ≤ spent start w.calls + used_by answer
unfolding after_provider
after_provider-spent env start t r (completed c) w = record_usage-spent env start t r c.usage w
after_provider-spent env start t r (failed e) w = omega arith

finish_call-spent :
    (env : Settings) (start : ℕ) (f : Flight) (w : Ledger)
    → spent start (finish_call env f w).1.calls ≤ spent start w.calls + used_by f.answer
unfolding finish_call
finish_call-spent env start f w = after_provider-spent env start f.tier f.request f.answer w

times_mono : (a b most : ℕ) → a ≤ b → a * most ≤ b * most
times_mono zero b most h = omega arith
times_mono (suc a) zero most h = absurd (omega (arith, h))
times_mono (suc a) (suc b) most h = omega (arith, times_mono a b most (omega (arith, h)))

module _ (env : Settings) (start most limit : ℕ) (day : IsDay env start most)
    (budget : env.daily_tokens ≡ some limit) where
  -- A call in flight is counted as if it took the most.
  abbrev reserved : Traffic → ℕ
  reserved s = spent start s.ledger.calls + length s.flights * most

  abbrev IsFrugal : Flight → Type 0
  IsFrugal f = used_by f.answer ≤ most

  -- The provider is asked only below the limit.
  abbrev MayBegin : List LlmCall → Begun × Ledger → Type 0
  MayBegin calls (stopped outcome, w) = w.calls ≡ calls
  MayBegin calls (asked f, w) = (w.calls ≡ calls) × IsFrugal f × (spent start calls ≤ limit)

  checked-MayBegin :
      (name : String) (t : Tier) (r : Request) (w : Ledger)
      → lookup name env.tiers ≡ some t
      → MayBegin w.calls (after_check t r (check_budget env (some limit) w))
  unfolding check_budget after_check
  checked-MayBegin name t r w known =
      rw (day.today w.clock_reads) (elim (Bool-cases (leb limit (spent start w.calls))) [
        | inl over ↦ rw over refl
        | inr under ↦
            rw under (refl, day.frugal name t w.provider_calls r known, ground (arith, under))
      ])

  begin_call-MayBegin : (r : Request) (w : Ledger) → MayBegin w.calls (begin_call env r w)
  unfolding begin_call begin_call_in
  begin_call-MayBegin r w = for_tier (lookup r.tier env.tiers) refl
    where
      for_tier :
          (o : Option Tier)
          → lookup r.tier env.tiers ≡ o
          → MayBegin w.calls (begin_call_in env r o w)
      for_tier none known = refl
      for_tier (some t) known =
          subst (λ o. MayBegin w.calls (after_check t r (check_budget env o w))) (sym budget)
            (checked-MayBegin r.tier t r w known)

  finish_at-reserved :
      (i : ℕ) (flights : List Flight) (w : Ledger)
      → All IsFrugal flights
      → let (rest, w') = finish_at env i flights w in
        All IsFrugal rest
        × (spent start w'.calls + length rest * most ≤ spent start w.calls + length flights * most)
  unfolding finish_at
  finish_at-reserved i [] w h = (tt, omega arith)
  finish_at-reserved zero (f ∷ flights) w h =
      (h.1, ground (arith, finish_call-spent env start f w, h.0))
  finish_at-reserved (suc i) (f ∷ flights) w h =
      let (frugal, less) = finish_at-reserved i flights w h.1 in
      ((h.0, frugal), ground (arith, less))

  begun-reserved :
      (n : ℕ) (flights : List Flight) (calls : List LlmCall) (b : Begun × Ledger)
      → MayBegin calls b
      → All IsFrugal flights
      → length (join b.0 flights) ≤ n
      → spent start calls + length flights * most ≤ limit + n * most
      → All IsFrugal (join b.0 flights)
        × (spent start b.1.calls + length (join b.0 flights) * most ≤ limit + n * most)
  begun-reserved n flights calls (stopped outcome, w) same h few within =
      (h, subst (λ cs. spent start cs + length flights * most ≤ limit + n * most) (sym same) within)
  begun-reserved n flights calls (asked f, w) (same, frugal, room) h few within = (
    (frugal, h),
    subst (λ cs. spent start cs + length (f ∷ flights) * most ≤ limit + n * most) (sym same)
        (omega (arith, room, times_mono (length (f ∷ flights)) n most few)),
  )

  serve_event-reserved :
      (n : ℕ) (e : Event) (s : Traffic)
      → All IsFrugal s.flights
      → length (serve_event env e s).flights ≤ n
      → reserved s ≤ limit + n * most
      → All IsFrugal (serve_event env e s).flights
        × (reserved (serve_event env e s) ≤ limit + n * most)
  unfolding serve_event
  serve_event-reserved n (begins r) s h few within =
      begun-reserved n s.flights s.ledger.calls (begin_call env r s.ledger)
        (begin_call-MayBegin r s.ledger) h few within
  serve_event-reserved n (answers i) s h few within =
      let (frugal, less) = finish_at-reserved i s.flights s.ledger h in
      (frugal, omega (arith, less, within))

  peak_now : (es : List Event) (s : Traffic) → length s.flights ≤ peak env es s
  unfolding peak
  peak_now [] s = omega arith
  peak_now (e ∷ es) s = omega arith

  serve_events-reserved :
      (n : ℕ) (es : List Event) (s : Traffic)
      → All IsFrugal s.flights
      → peak env es s ≤ n
      → reserved s ≤ limit + n * most
      → reserved (serve_events env es s) ≤ limit + n * most
  unfolding serve_events peak
  serve_events-reserved n [] s h few within = within
  serve_events-reserved n (e ∷ es) s h few within =
      let next_ = serve_event env e s in
      let (frugal, less) =
        serve_event-reserved n e s h (omega (arith, few, peak_now es next_)) within in
      serve_events-reserved n es next_ frugal (omega (arith, few)) less

  -- For calls that begin and are answered in any order, of which at most `n` are in flight at once: in
  -- one day in which no answer takes more than `most` tokens, the recorded usage passes the daily
  -- limit by at most `n` times `most`, from a ledger where it does and no call is in flight.
  pub serve_events-spent :
      (n : ℕ) (es : List Event) (w : Ledger)
      → peak env es (quiet w) ≤ n
      → spent start w.calls ≤ limit + n * most
      → spent start (serve_events env es (quiet w)).ledger.calls ≤ limit + n * most
  serve_events-spent n es w few within =
      omega (arith, serve_events-reserved n es (quiet w) tt few (omega (arith, within)))
