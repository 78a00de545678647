-- ===== src/Router/Loop.antt =====
-- `Router._loop` of src/dudamel/router.py.
use dudamel.Prelude.{
  ℕ, zero, suc, ◌+◌, ◌-◌, Bool, false, ◌||◌, String, Option, none, some, List, [], if◌then◌else◌,
}
use dudamel.Store.{World, Summary}
use dudamel.Router.Env.{Env, is_off}
use dudamel.Router.Replies.{ChatReply, out_of_steps_reply}
use dudamel.Router.Turn.{Context, Progress, Step, reply, next, iterate}

-- A reply returns; otherwise the loop goes on.
unfoldable pub after_step :
    (Progress → World → ChatReply × World) → Step → World → ChatReply × World
after_step go_on (reply r) w = (r, w)
after_step go_on (next progress) w = go_on progress w

-- The `for` loop, with so many iterations left.
unfoldable pub iterations : Env → Context → ℕ → Progress → World → ChatReply × World
iterations env ctx zero progress w = (out_of_steps_reply progress.executed_any, w)
iterations env ctx (suc left) progress w =
    let (step, w') = iterate env ctx progress w in after_step (iterations env ctx left) step w'

abbrev pub tainted_summary : Option Summary → Bool
tainted_summary none = false
tainted_summary (some summary) = summary.tainted

-- The taint that an earlier turn's summary carries over.
unfoldable pub seed_taint : Env → ℕ → Bool → World → Bool
seed_taint env conv initial w = elim env.compactor [
  | none ↦ initial
  | some compactor ↦
      if is_off env.config.taint_mode
      then initial
      else initial || tainted_summary (compactor.newest conv w)
]

abbrev pub or_nothing : Option (List String) → List String
or_nothing none = []
or_nothing (some names) = names

-- What a call of `_loop` starts from.
pub record Start : Type 0 where
  pub conv_id : ℕ
  pub tier : String
  pub user_id : String
  pub start_iteration : ℕ
  pub executed_any : Bool
  pub initial_taint : Bool
  pub resumed_offered : Option (List String)
  pub resumed_called : Option (List String)

-- `_loop`; the turn key is a fresh id.
unfoldable pub loop : Env → Start → World → ChatReply × World
loop env start w =
    iterations env
      (record {
        conv_id = start.conv_id;
        tier = start.tier;
        user_id = start.user_id;
        turn_key = env.draw_id w.ids_drawn;
      })
      (env.config.iteration_cap - start.start_iteration)
      (record {
        iteration = start.start_iteration;
        resumed_offered = start.resumed_offered;
        executed_any = start.executed_any;
        turn_tainted = seed_taint env start.conv_id start.initial_taint w;
        called = or_nothing start.resumed_called;
      })
      (record w { ids_drawn = w.ids_drawn + 1 })
