-- ===== src/Throttle.antt =====
-- src/dudamel/web/throttle.py: the bounded counter of failed authentications.
-- The clock is read in nanoseconds, and each method is given the readings that it takes, in order.
pub mod Bounds
pub mod Lockout
use dudamel.Prelude.{
  ℕ, suc, ◌+◌, ◌-◌, ◌*◌, ◌/◌, ◌^◌, max, Bool, true, false, List, [], ◌∷◌, ◌++◌, Option, none, some,
  String, length, drop, keep, ltb, leb, if◌then◌else◌,
}
use dudamel.Dict.{Dict, lookup, insert, erase, move_to_end}

abbrev pub max_failures : ℕ
max_failures = 5

abbrev pub window : ℕ
window = 300 * 10 ^ 9

abbrev pub max_tracked_clients : ℕ
max_tracked_clients = 4096

-- `_failures`: the clients, the longest untouched first.
abbrev pub Failures : Type 0
Failures = Dict (List ℕ)

abbrev pub or_empty : Option (List ℕ) → List ℕ
or_empty none = []
or_empty (some stamps) = stamps

-- `self._failures.get(key, [])`
abbrev pub stamps_of : String → Failures → List ℕ
stamps_of key f = or_empty (lookup key f)

-- `t > cutoff`
abbrev pub is_fresh : ℕ → ℕ → Bool
is_fresh now t = ltb now (t + window)

abbrev pub fresh_stamps : ℕ → String → Failures → List ℕ
fresh_stamps now key f = keep (is_fresh now) (stamps_of key f)

store_fresh : String → List ℕ → Failures → Failures
store_fresh key [] f = erase key f
store_fresh key (t ∷ ts) f = move_to_end key (insert key (t ∷ ts) f)

-- `_fresh`
pub fresh : ℕ → String → Failures → List ℕ × Failures
unfolding store_fresh
fresh now key f = let stamps = fresh_stamps now key f in (stamps, store_fresh key stamps f)

pub is_throttled : ℕ → String → Failures → Bool × Failures
unfolding fresh
is_throttled now key f =
    let (stamps, f') = fresh now key f in (leb max_failures (length stamps), f')

-- `if len(stamps) > MAX_FAILURES: del stamps[:-MAX_FAILURES]`
abbrev pub last_five : List ℕ → List ℕ
last_five stamps =
    if ltb max_failures (length stamps) then drop (length stamps - max_failures) stamps else stamps

-- `while len(self._failures) > MAX_TRACKED_CLIENTS: popitem(last=False)`
evict : Failures → Failures
evict [] = []
evict (e ∷ f) =
    let rest = evict f in if ltb max_tracked_clients (length (e ∷ f)) then rest else e ∷ f

pub record_failure : ℕ → ℕ → String → Failures → Failures
unfolding fresh evict
record_failure now later key f =
    let (stamps, f') = fresh now key f in
    evict (move_to_end key (insert key (last_five (stamps ++ (later ∷ []))) f'))

pub clear : String → Failures → Failures
clear key f = erase key f

wait_from : ℕ → List ℕ → ℕ
wait_from later [] = 0
wait_from later (oldest ∷ stamps) =
    if ltb (length (oldest ∷ stamps)) max_failures
    then 0
    else max 1 ((oldest + window - later) / 10 ^ 9)

-- Whole seconds; the difference is at least one second or is rounded up to it.
pub retry_after : ℕ → ℕ → String → Failures → ℕ × Failures
unfolding fresh wait_from
retry_after now later key f = let (stamps, f') = fresh now key f in (wait_from later stamps, f')
