-- ===== src/Tests/LlmTests.antt =====
-- src/dudamel/llm/client.py with a limit of ten tokens a day and answers of seven.
use dudamel.Prelude.{
  ◌+◌, ◌*◌, ◌≤◌, ◌≡◌, refl, true, String, none, some, List, [], ◌∷◌, codes, arith,
}
use dudamel.Llm.{Role}
use dudamel.Llm.Client.{
  Request, completed, Tier, Settings, Ledger, spent, record_usage, check_budget, after_check,
  after_provider, begin_call_in, begin_call, finish_call,
}
use dudamel.Llm.Traffic.{Event, begins, answers, finish_at, serve_event, serve_events, peak, quiet}
use dudamel.Llm.Budget.{IsDay, serve_events-spent}
use dudamel.Dict.{lookup}
use dudamel.Tests.Samples.{message_of}

abbrev tier : Tier
tier = record {
  name = "standard";
  provider_name = "local";
  complete = λ n model r most. completed (record {
    message = message_of Role.assistant (codes "yes") [] none;
    usage = record { tokens_in = 4; tokens_out = 3 };
    stop_reason = "end";
  });
  model = "small";
  max_tokens = 100;
}

abbrev settings : Settings
settings = record {
  tiers = ("standard", tier) ∷ [];
  daily_tokens = some 10;
  read_clock = λ n. 100 + n;
  midnight = λ t. 50;
  repr = λ s. [];
  repr_names = λ ns. [];
  recorded = λ n. true;
}

abbrev fresh_ledger : Ledger
fresh_ledger = record { calls = []; provider_calls = 0; clock_reads = 0; writes = 0 }

abbrev request : Request
request = record {
  messages = [];
  tier = "standard";
  tools = none;
  json_schema = none;
  conversation_id = none;
}

-- One after the other, the third call is refused.
abbrev in_turn : List Event
in_turn = begins request ∷ answers 0 ∷ begins request ∷ answers 0 ∷ begins request ∷ answers 0 ∷ []

in_turn_run : (serve_events settings in_turn (quiet fresh_ledger)).ledger.provider_calls ≡ 2
unfolding serve_events serve_event finish_at begin_call begin_call_in finish_call after_check
    check_budget after_provider record_usage spent
in_turn_run = refl

-- Three calls at the same time all pass the check, and more than twice the limit is spent.
abbrev at_once : List Event
at_once = begins request ∷ begins request ∷ begins request ∷ answers 2 ∷ answers 0 ∷ answers 0 ∷ []

at_once_run : spent 50 (serve_events settings at_once (quiet fresh_ledger)).ledger.calls ≡ 21
unfolding serve_events serve_event finish_at begin_call begin_call_in finish_call after_check
    check_budget after_provider record_usage spent
at_once_run = refl

known_tier : (name : String) (t : Tier) → lookup name settings.tiers ≡ some t → t ≡ tier
known_tier name t known = ground (arith, known)

settings-IsDay : IsDay settings 50 7
settings-IsDay = record {
  today = λ n. refl;
  frugal = λ name t n r known. rw (known_tier name t known) (omega arith);
}

three_in_flight : peak settings at_once (quiet fresh_ledger) ≡ 3
unfolding peak serve_event finish_at begin_call begin_call_in finish_call after_check check_budget
    after_provider record_usage spent
three_in_flight = refl

serve_events-spent_example :
    spent 50 (serve_events settings at_once (quiet fresh_ledger)).ledger.calls ≤ 10 + 3 * 7
serve_events-spent_example =
    serve_events-spent settings 50 7 10 settings-IsDay refl 3 at_once fresh_ledger
      (omega (arith, three_in_flight)) (unfold spent in omega arith)
