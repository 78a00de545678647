-- ===== src/Throttle/Bounds.antt =====
-- src/dudamel/web/throttle.py: the memory that the counter takes.
use dudamel.Prelude.{
  ℕ, ◌-◌, ◌≤◌, ◌≡◌, true, List, [], ◌∷◌, ◌++◌, inl, inr, String, length, length-drop,
  length-keep-le, Bool-cases, Option-cases, ltb, arith,
}
use dudamel.Dict.{
  IsDict, lookup, insert, move_to_end, has_key, AllValues, insert-IsDict, erase-IsDict,
  move_to_end-IsDict, length-insert, length-erase, length-move_to_end, insert-AllValues,
  erase-AllValues, move_to_end-AllValues, lookup-AllValues,
}
use dudamel.Throttle.{
  Failures, max_failures, max_tracked_clients, stamps_of, fresh_stamps, fresh, store_fresh,
  is_fresh, is_throttled, last_five, evict, record_failure, clear, retry_after,
}

-- A request for which the throttle is asked or told something, with the clock as each call reads it.
pub data Request : Type 0 where
  check : ℕ → String → Request
  failure : ℕ → ℕ → String → Request
  success : String → Request
  ask_wait : ℕ → ℕ → String → Request

pub serve_request : Request → Failures → Failures
unfolding is_throttled record_failure clear retry_after
serve_request (check now key) f = (is_throttled now key f).1
serve_request (failure now later key) f = record_failure now later key f
serve_request (success key) f = clear key f
serve_request (ask_wait now later key) f = (retry_after now later key f).1

pub serve_all : List Request → Failures → Failures
unfolding serve_request
serve_all [] f = f
serve_all (r ∷ rs) f = serve_all rs (serve_request r f)

abbrev pub AtMostFive : List ℕ → Type 0
AtMostFive stamps = length stamps ≤ max_failures

-- Every client is listed once, with at most five failures; there are at most 4096 clients.
pub record IsBounded (f : Failures) : Type 0 where
  pub distinct : IsDict f
  pub clients : length f ≤ max_tracked_clients
  pub stamps : AllValues AtMostFive f

pub last_five-AtMostFive : (stamps : List ℕ) → AtMostFive (last_five stamps)
last_five-AtMostFive stamps = ground (arith, length-drop (length stamps - max_failures) stamps)

length-evict : (f : Failures) → length (evict f) ≤ max_tracked_clients
unfolding evict
length-evict [] = omega arith
length-evict (e ∷ f) = ground (arith, length-evict f)

evict-IsDict : (f : Failures) → IsDict f → IsDict (evict f)
unfolding evict
evict-IsDict [] h = tt
evict-IsDict (e ∷ f) h = elim (Bool-cases (ltb max_tracked_clients (length (e ∷ f)))) [
  | inl over ↦ rw over (evict-IsDict f h.1)
  | inr fits ↦ rw fits h
]

evict-AllValues : (f : Failures) → AllValues AtMostFive f → AllValues AtMostFive (evict f)
unfolding evict
evict-AllValues [] h = tt
evict-AllValues (e ∷ f) h = elim (Bool-cases (ltb max_tracked_clients (length (e ∷ f)))) [
  | inl over ↦ rw over (evict-AllValues f h.1)
  | inr fits ↦ rw fits h
]

-- A key with stamps is a key of the dict.
stamps_of-has_key :
    (key : String) (f : Failures) → 1 ≤ length (stamps_of key f) → has_key key f ≡ true
stamps_of-has_key key f h = ground arith

pub stamps_of-AtMostFive :
    (key : String) (f : Failures) → AllValues AtMostFive f → AtMostFive (stamps_of key f)
stamps_of-AtMostFive key f h = elim (Option-cases (lookup key f)) [
  | inl e ↦ ground arith
  | inr (v, e) ↦ ground (arith, lookup-AllValues AtMostFive key f h e)
]

store_fresh-IsBounded :
    (key : String) (stamps : List ℕ) (f : Failures)
    → AtMostFive stamps
    → (1 ≤ length stamps → has_key key f ≡ true)
    → IsBounded f
    → IsBounded (store_fresh key stamps f)
unfolding store_fresh
store_fresh-IsBounded key [] f five known h = record {
  distinct = erase-IsDict key f h.distinct;
  clients = ground (arith, h.clients, length-erase key f);
  stamps = erase-AllValues AtMostFive key f h.stamps;
}
store_fresh-IsBounded key (t ∷ ts) f five known h =
    let f' = insert key (t ∷ ts) f in
    record {
      distinct = move_to_end-IsDict key f' (insert-IsDict key (t ∷ ts) f h.distinct);
      clients = ground (
        arith,
        h.clients,
        length-insert key (t ∷ ts) f,
        length-move_to_end key f',
        known (omega arith),
      );
      stamps =
          move_to_end-AllValues AtMostFive key f'
            (insert-AllValues AtMostFive key (t ∷ ts) f five h.stamps);
    }

fresh-IsBounded :
    (now : ℕ) (key : String) (f : Failures) → IsBounded f → IsBounded (fresh now key f).1
unfolding fresh
fresh-IsBounded now key f h =
    let shorter = length-keep-le (is_fresh now) (stamps_of key f) in
    store_fresh-IsBounded key (fresh_stamps now key f) f
      (omega (arith, shorter, stamps_of-AtMostFive key f h.stamps))
      (λ some_left. stamps_of-has_key key f (omega (arith, shorter))) h

record_failure-IsBounded :
    (now later : ℕ) (key : String) (f : Failures)
    → IsBounded f
    → IsBounded (record_failure now later key f)
unfolding record_failure
record_failure-IsBounded now later key f h =
    let (stamps, f') = fresh now key f in
    let h' : IsBounded f' = fresh-IsBounded now key f h in
    let stored = last_five (stamps ++ (later ∷ [])) in
    let f'' = insert key stored f' in
    record {
      distinct =
          evict-IsDict _ (move_to_end-IsDict key f'' (insert-IsDict key stored f' h'.distinct));
      clients = length-evict (move_to_end key f'');
      stamps = evict-AllValues (move_to_end key f'') (
          move_to_end-AllValues AtMostFive key f'' (
            insert-AllValues AtMostFive key stored f'
              (last_five-AtMostFive (stamps ++ (later ∷ []))) h'.stamps));
    }

serve_request-IsBounded : (r : Request) (f : Failures) → IsBounded f → IsBounded (serve_request r f)
unfolding serve_request
serve_request-IsBounded (check now key) f h = fresh-IsBounded now key f h
serve_request-IsBounded (failure now later key) f h = record_failure-IsBounded now later key f h
serve_request-IsBounded (success key) f h =
    store_fresh-IsBounded key [] f (omega arith) (λ i. absurd (omega arith)) h
serve_request-IsBounded (ask_wait now later key) f h = fresh-IsBounded now key f h

serve_all-IsBounded_from :
    (rs : List Request) (f : Failures) → IsBounded f → IsBounded (serve_all rs f)
unfolding serve_all
serve_all-IsBounded_from [] f h = h
serve_all-IsBounded_from (r ∷ rs) f h =
    serve_all-IsBounded_from rs (serve_request r f) (serve_request-IsBounded r f h)

-- Whatever is asked of a fresh throttle, and whatever the clock shows, it tracks at most 4096
-- clients, each once, with at most five failures each.
pub serve_all-IsBounded : (rs : List Request) → IsBounded (serve_all rs [])
serve_all-IsBounded rs =
    serve_all-IsBounded_from rs [] (record { distinct = tt; clients = omega arith; stamps = tt })
