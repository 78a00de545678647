-- ===== src/Tests/CompactionTests.antt =====
-- src/dudamel/compaction.py on a conversation of two messages.
use dudamel.Prelude.{ℕ, ◌≡◌, ◌⊎◌, refl, true, false, none, List, [], ◌∷◌, codes, arith}
use dudamel.Llm.{Message, Role}
use dudamel.Store.{World, Row}
use dudamel.Compaction.{Settings, SummaryAnswer, newest, maybe_compact, compact_once}
use dudamel.Compaction.Keeps.{compactor_of, compactor_of-KeepsTurn}
use dudamel.Compaction.Once.{maybe_compact-once}
use dudamel.Compaction.Pruned.{IsPruned}
use dudamel.Compaction.Newest.{maybe_compact-IsPruned, compact_once-newest}
use dudamel.Router.Guard.{KeepsTurn}
use dudamel.Tests.Samples.{message_of, empty}

-- The summarizer answers in a code fence.
abbrev settings : Settings
settings = record {
  tier = "fast";
  max_summary_chars = 100;
  summarize = λ n tier prompt. SummaryAnswer.summarized (codes "```\nAnn asked for news.\n```");
  same_message = λ m m'. true;
}

abbrev conversation : List Message
conversation =
    message_of Role.user (codes "news?") [] none
    ∷ message_of Role.assistant (codes "none") [] none
    ∷ []

abbrev row_of : ℕ → Message → Row
row_of i m = record { id = i; conversation_id = 0; message = m; client_msg_id = none }

abbrev talked : World
talked = record empty {
  rows =
      row_of 5 (message_of Role.user (codes "news?") [] none)
      ∷ row_of 7 (message_of Role.assistant (codes "none") [] none)
      ∷ [];
}

maybe_compact-once_example :
    let (result, w') = maybe_compact settings 0 conversation 1 "m1" false talked in
    maybe_compact settings 0 conversation 2 "m1" true w' ≡ (result, w')
maybe_compact-once_example =
    maybe_compact-once settings 0 "m1" conversation conversation 1 2 false true talked refl refl

compact_once-newest_example :
    let (result, w') = compact_once settings 0 conversation 1 false talked in
    (result ≡ none) ⊎ (newest 0 w' ≡ result)
compact_once-newest_example = compact_once-newest settings 0 conversation 1 false talked

compactor_of-KeepsTurn_example : KeepsTurn (compactor_of settings)
compactor_of-KeepsTurn_example = compactor_of-KeepsTurn settings

talked-IsPruned : IsPruned talked
talked-IsPruned = record { rising = ground arith; few = λ conv. omega arith }

maybe_compact-IsPruned_example :
    IsPruned (maybe_compact settings 0 conversation 1 "m1" false talked).1
maybe_compact-IsPruned_example =
    maybe_compact-IsPruned settings 0 conversation 1 "m1" false talked talked-IsPruned
