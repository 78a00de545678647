-- ===== src/Llm/Traffic.antt =====
-- src/dudamel/llm/client.py: calls of `complete` that run at the same time. Each gives way to the others
-- where it awaits its provider, between the check of the budget and its usage row.
use dudamel.Prelude.{ℕ, zero, suc, ◌≡◌, refl, max, List, [], ◌∷◌, length}
use dudamel.Llm.Client.{
  Request, Settings, Ledger, Flight, Begun, stopped, asked, begin_call, finish_call, after_begin,
  complete,
}

-- The calls in flight, the newest first.
pub record Traffic : Type 0 where
  pub flights : List Flight
  pub ledger : Ledger

-- A call begins, or a call in flight is answered.
pub data Event : Type 0 where
  begins : Request → Event
  answers : ℕ → Event

abbrev pub join : Begun → List Flight → List Flight
join (stopped outcome) flights = flights
join (asked f) flights = f ∷ flights

unfoldable pub finish_at : Settings → ℕ → List Flight → Ledger → List Flight × Ledger
finish_at env i [] w = ([], w)
finish_at env zero (f ∷ flights) w = (flights, (finish_call env f w).1)
finish_at env (suc i) (f ∷ flights) w = let (rest, w') = finish_at env i flights w in (f ∷ rest, w')

unfoldable pub serve_event : Settings → Event → Traffic → Traffic
serve_event env (begins r) s =
    let (begun, w') = begin_call env r s.ledger in
    record { flights = join begun s.flights; ledger = w' }
serve_event env (answers i) s =
    let (flights, w') = finish_at env i s.flights s.ledger in
    record { flights = flights; ledger = w' }

unfoldable pub serve_events : Settings → List Event → Traffic → Traffic
serve_events env [] s = s
serve_events env (e ∷ es) s = serve_events env es (serve_event env e s)

-- The most calls that are in flight at once.
unfoldable pub peak : Settings → List Event → Traffic → ℕ
peak env [] s = length s.flights
peak env (e ∷ es) s = max (length s.flights) (peak env es (serve_event env e s))

abbrev pub quiet : Ledger → Traffic
quiet w = record { flights = []; ledger = w }

-- A call that nothing interrupts is `complete`.
pub serve_events-complete :
    (env : Settings) (r : Request) (w : Ledger)
    → serve_events env (begins r ∷ answers 0 ∷ []) (quiet w) ≡ quiet (complete env r w).1
unfolding serve_events serve_event finish_at after_begin complete
serve_events-complete env r w = for_begun (begin_call env r w)
  where
    for_begun :
        (b : Begun × Ledger)
        → serve_event env (answers 0) (record { flights = join b.0 []; ledger = b.1 })
          ≡ quiet (after_begin env b).1
    for_begun (stopped outcome, w') = refl
    for_begun (asked f, w') = refl
