-- ===== src/Llm/Client.antt =====
-- src/dudamel/llm/client.py: `LLMClient.complete` with its daily token budget and its usage rows.
use dudamel.Prelude.{
  ℕ, ◌+◌, Bool, String, Option, none, some, List, [], ◌∷◌, ◌++◌, Text, codes, decimal, sorted, leb,
  if◌then◌else◌,
}
use dudamel.Dict.{Dict, lookup, keys}
use dudamel.Llm.{Message}
use dudamel.Llm.Json.{Json}

pub record Usage : Type 0 where
  pub tokens_in : ℕ
  pub tokens_out : ℕ

pub record Completion : Type 0 where
  pub message : Message
  pub usage : Usage
  pub stop_reason : String

-- `ToolSpec` of src/dudamel/llm/provider.py
pub record ToolSpec : Type 0 where
  pub name : String
  pub description : Text
  pub json_schema : Json

-- The arguments of `complete`; tools and schemas are passed on as they come.
pub record Request : Type 0 where
  pub messages : List Message
  pub tier : String
  pub tools : Option (List ToolSpec)
  pub json_schema : Option Json
  pub conversation_id : Option ℕ

-- A provider answers with a completion, or raises an `LLMError`.
pub data ProviderAnswer : Type 0 where
  completed : Completion → ProviderAnswer
  failed : Text → ProviderAnswer

pub record Tier : Type 0 where
  pub name : String
  pub provider_name : String
  pub complete : ℕ → String → Request → ℕ → ProviderAnswer
  pub model : String
  pub max_tokens : ℕ

-- A row of `llm_calls`.
pub record LlmCall : Type 0 where
  pub tier : String
  pub provider : String
  pub model : String
  pub tokens_in : ℕ
  pub tokens_out : ℕ
  pub conversation_id : Option ℕ
  pub created_at : ℕ

-- The client's settings, the clock, the start of the local day of a moment in UTC, the printing of
-- names, and which writes of a usage row succeed.
pub record Settings : Type 0 where
  pub tiers : Dict Tier
  pub daily_tokens : Option ℕ
  pub read_clock : ℕ → ℕ
  pub midnight : ℕ → ℕ
  pub repr : String → Text
  pub repr_names : List String → Text
  pub recorded : ℕ → Bool

-- The usage rows, and counts of the provider's calls, readings of the clock, and writes attempted.
pub record Ledger : Type 0 where
  pub calls : List LlmCall
  pub provider_calls : ℕ
  pub clock_reads : ℕ
  pub writes : ℕ

pub data Outcome : Type 0 where
  answered : Completion → Outcome
  unknown_tier : Text → Outcome
  over_budget : Text → Outcome
  provider_error : Text → Outcome

-- The tokens of the rows of a day that has begun at this moment.
unfoldable pub spent : ℕ → List LlmCall → ℕ
spent start [] = 0
spent start (c ∷ cs) =
    (if leb start c.created_at then c.tokens_in + c.tokens_out else 0) + spent start cs

unfoldable pub or_none : Settings → List String → Text
or_none env [] = codes "none"
or_none env (n ∷ ns) = env.repr_names (n ∷ ns)

unfoldable pub unknown_tier_text : Settings → String → Text
unknown_tier_text env tier =
    codes "unknown tier "
    ++ (env.repr tier ++ (codes "; configured tiers: " ++ or_none env (sorted (keys env.tiers))))

unfoldable pub budget_text : ℕ → ℕ → Text
budget_text used limit =
    codes "daily token budget exhausted ("
    ++ (decimal used
        ++ (codes "/"
            ++ (decimal limit
                ++ codes
                    "); raise llm.budget.daily_tokens or wait for the day to roll over in your configured timezone")))

-- `_check_budget`: the text of its error, or none. The clock is read only where there is a limit.
unfoldable pub check_budget : Settings → Option ℕ → Ledger → Option Text × Ledger
check_budget env none w = (none, w)
check_budget env (some limit) w =
    let used = spent (env.midnight (env.read_clock w.clock_reads)) w.calls in
    let w' = record w { clock_reads = w.clock_reads + 1 } in
    if leb limit used then (some (budget_text used limit), w') else (none, w')

-- The usage row; a write that fails is swallowed.
unfoldable pub record_usage : Settings → Tier → Request → Usage → Ledger → Ledger
record_usage env t r usage w =
    let w' = record w { writes = w.writes + 1; clock_reads = w.clock_reads + 1 } in
    if env.recorded w.writes
    then record w' {
      calls =
          w.calls
          ++ (record {
            tier = t.name;
            provider = t.provider_name;
            model = t.model;
            tokens_in = usage.tokens_in;
            tokens_out = usage.tokens_out;
            conversation_id = r.conversation_id;
            created_at = env.read_clock w.clock_reads;
          }
              ∷ []);
    }
    else w'

unfoldable pub after_provider :
    Settings → Tier → Request → ProviderAnswer → Ledger → Outcome × Ledger
after_provider env t r (failed e) w = (provider_error e, w)
after_provider env t r (completed c) w = (answered c, record_usage env t r c.usage w)

-- A call that a provider has been asked for: `complete` awaits its answer, and other calls run.
pub record Flight : Type 0 where
  pub tier : Tier
  pub request : Request
  pub answer : ProviderAnswer

-- A call that has begun: it is over, or its provider is asked.
pub data Begun : Type 0 where
  stopped : Outcome → Begun
  asked : Flight → Begun

unfoldable pub after_check : Tier → Request → Option Text × Ledger → Begun × Ledger
after_check t r (some e, w) = (stopped (over_budget e), w)
after_check t r (none, w) = (
  asked (record {
    tier = t;
    request = r;
    answer = t.complete w.provider_calls t.model r t.max_tokens;
  }),
  record w { provider_calls = w.provider_calls + 1 },
)

unfoldable pub begin_call_in : Settings → Request → Option Tier → Ledger → Begun × Ledger
begin_call_in env r none w = (stopped (unknown_tier (unknown_tier_text env r.tier)), w)
begin_call_in env r (some t) w = after_check t r (check_budget env env.daily_tokens w)

-- `LLMClient.complete` as far as the await of the provider
unfoldable pub begin_call : Settings → Request → Ledger → Begun × Ledger
begin_call env r w = begin_call_in env r (lookup r.tier env.tiers) w

-- `LLMClient.complete` from the await of the provider on
unfoldable pub finish_call : Settings → Flight → Ledger → Outcome × Ledger
finish_call env f w = after_provider env f.tier f.request f.answer w

unfoldable pub after_begin : Settings → Begun × Ledger → Outcome × Ledger
after_begin env (stopped outcome, w) = (outcome, w)
after_begin env (asked f, w) = finish_call env f w

-- `LLMClient.complete` where no other call runs at the await
unfoldable pub complete : Settings → Request → Ledger → Outcome × Ledger
complete env r w = after_begin env (begin_call env r w)
