-- ===== src/Router/History.antt =====
-- src/dudamel/router.py and convo.py: the histories that a turn leaves. "A dangling tool_calls
-- message must never persist": what a conversation calls is answered in it.
use dudamel.Prelude.{
  ℕ, ◌≡◌, refl, ap, sym, subst, ◌∙◌, Bool, true, false, String, Option, none, some, List, [], ◌∷◌,
  ◌++◌, append-nil, append_assoc, all-imp, All, All-append, All-imp, keep-append, nat_eq,
  Bool-cases, arith, inl, inr, if◌then◌else◌,
}
use mathlib.Core.List.{map-append}
use dudamel.Llm.{Message, is_assistant, is_tool}
use dudamel.Window.{answered_ids, contains}
use dudamel.Window.Pairs.{
  CallsAnswered, IsAnswerTo, contains-append, answered_ids-append, answered_ids-cons,
  answered_ids-nil,
}
use dudamel.Store.{World, LoopState, messages_of, append_many, append, add_row, has_client_msg_id}
use dudamel.Router.Answers.{AllCovered, AllCovered-append}

CallsAnswered-right :
    (m : Message) (xs ys : List Message) → CallsAnswered xs m → CallsAnswered (xs ++ ys) m
CallsAnswered-right m xs ys h role =
    subst (λ ids. AllCovered ids m.tool_calls) (sym (answered_ids-append xs ys))
      (AllCovered-append (answered_ids xs) (answered_ids ys) m.tool_calls (h role))

CallsAnswered-left :
    (m : Message) (xs ys : List Message) → CallsAnswered ys m → CallsAnswered (xs ++ ys) m
CallsAnswered-left m xs ys h role =
    subst (λ ids. AllCovered ids m.tool_calls) (sym (answered_ids-append xs ys))
      (all-imp (λ tc. contains tc.id (answered_ids ys))
        (λ tc. contains tc.id (answered_ids xs ++ answered_ids ys))
        (λ tc e. ground (arith, contains-append tc.id (answered_ids xs) (answered_ids ys)))
        m.tool_calls (h role))

-- What these messages call, they answer.
abbrev pub IsClosed : List Message → Type 0
IsClosed ms = All (CallsAnswered ms) ms

pub IsClosed-append : (xs ys : List Message) → IsClosed xs → IsClosed ys → IsClosed (xs ++ ys)
IsClosed-append xs ys hx hy =
    All-append (CallsAnswered (xs ++ ys)) xs ys (All-imp (λ m. CallsAnswered-right m xs ys) xs hx)
      (All-imp (λ m. CallsAnswered-left m xs ys) ys hy)

-- A suspended turn lacks the answer to its pending call, and nothing else.
pub record IsSuspended (state : LoopState) : Type 0 where
  pub covered :
      is_assistant state.assistant.role ≡ true
      → AllCovered
          (answered_ids state.results ++ (state.pending_call_id ∷ []))
          state.assistant.tool_calls
  pub results : All (λ m. is_tool m.role ≡ true) state.results

pub tool-CallsAnswered :
    (ms : List Message) (m : Message) → is_tool m.role ≡ true → CallsAnswered ms m
tool-CallsAnswered ms m is_result by_assistant = ground arith

-- With that answer the group is closed.
pub IsSuspended-close :
    (state : LoopState) (m : Message)
    → IsSuspended state
    → IsAnswerTo state.pending_call_id m
    → IsClosed (state.assistant ∷ (state.results ++ (m ∷ [])))
IsSuspended-close state m h answer =
    let tail : List Message = state.results ++ (m ∷ []) in
    let ids : answered_ids tail ≡ answered_ids state.results ++ (state.pending_call_id ∷ []) =
      answered_ids-append state.results (m ∷ [])
      ∙ ap (λ (r : List String). answered_ids state.results ++ r)
          (answered_ids-cons state.pending_call_id m [] answer
            ∙ ap (λ (r : List String). state.pending_call_id ∷ r) answered_ids-nil) in
    (
      CallsAnswered-left state.assistant (state.assistant ∷ []) tail
          (λ role. subst (λ r. AllCovered r state.assistant.tool_calls) (sym ids) (h.covered role)),
      All-imp (λ n. tool-CallsAnswered (state.assistant ∷ tail) n) tail
          (All-append (λ n. is_tool n.role ≡ true) state.results (m ∷ []) h.results (answer.0, tt)),
    )

-- An assistant's message with results that answer all its calls is closed.
pub results-IsClosed :
    (m : Message) (results : List Message)
    → AllCovered (answered_ids results) m.tool_calls
    → All (λ n. is_tool n.role ≡ true) results
    → IsClosed (m ∷ results)
results-IsClosed m results covered are_results = (
  CallsAnswered-left m (m ∷ []) results (λ role. covered),
  All-imp (λ n. tool-CallsAnswered (m ∷ results) n) results are_results,
)

-- A message that calls nothing is closed.
pub silent-IsClosed : (m : Message) → m.tool_calls ≡ [] → IsClosed (m ∷ [])
silent-IsClosed m silent = ((λ role. rw silent refl), tt)

-- Every conversation is closed, and every stored confirmation lacks one answer.
pub record IsSound (w : World) : Type 0 where
  pub closed : (conv : ℕ) → IsClosed (messages_of conv w.rows)
  pub suspended : All (λ row. IsSuspended row.loop_state) w.confirmations

-- A step that leaves the messages and the confirmations as they are.
pub record IsSame (w w' : World) : Type 0 where
  pub rows : w'.rows ≡ w.rows
  pub confirmations : w'.confirmations ≡ w.confirmations

pub IsSame-refl : (w : World) → IsSame w w
IsSame-refl w = record { rows = refl; confirmations = refl }

pub IsSame-trans : {w w' w'' : World} → IsSame w w' → IsSame w' w'' → IsSame w w''
IsSame-trans a b = record {
  rows = b.rows ∙ a.rows;
  confirmations = b.confirmations ∙ a.confirmations;
}

pub IsSame-IsSound : {w w' : World} → IsSame w w' → IsSound w → IsSound w'
IsSame-IsSound same h = record {
  closed = λ conv. subst (λ rows. IsClosed (messages_of conv rows)) (sym same.rows) (h.closed conv);
  suspended =
      subst (λ cs. All (λ row. IsSuspended row.loop_state) cs) (sym same.confirmations) h.suspended;
}

messages_of-add_row :
    (conv d : ℕ) (i : Option String) (m : Message) (w : World)
    → messages_of d (add_row conv i m w).rows
      ≡ messages_of d w.rows ++ (if nat_eq conv d then m ∷ [] else [])
messages_of-add_row conv d i m w =
    rw (keep-append (λ r. nat_eq r.conversation_id d) w.rows _, map-append)
      (elim (Bool-cases (nat_eq conv d)) [ inl e ↦ rw e refl | inr e ↦ rw e refl ])

if_append {ℓ} :
    {A : Type ℓ} (b : Bool) (x : A) (xs : List A)
    → (if b then x ∷ [] else []) ++ (if b then xs else []) ≡ (if b then x ∷ xs else [])
if_append true x xs = refl
if_append false x xs = refl

pub messages_of-append_many :
    (conv d : ℕ) (ms : List Message) (w : World)
    → messages_of d (append_many conv ms w).rows
      ≡ messages_of d w.rows ++ (if nat_eq conv d then ms else [])
unfolding append_many
messages_of-append_many conv d [] w = elim (Bool-cases (nat_eq conv d)) [
  | inl e ↦ rw e (sym (append-nil (messages_of d w.rows)))
  | inr e ↦ rw e (sym (append-nil (messages_of d w.rows)))
]
messages_of-append_many conv d (m ∷ ms) w =
    messages_of-append_many conv d ms (add_row conv none m w)
    ∙ ap (λ (r : List Message). r ++ (if nat_eq conv d then ms else []))
        (messages_of-add_row conv d none m w)
    ∙ append_assoc (messages_of d w.rows) _ _
    ∙ ap (λ (r : List Message). messages_of d w.rows ++ r) (if_append (nat_eq conv d) m ms)

pub append_many-confirmations :
    (conv : ℕ) (ms : List Message) (w : World)
    → (append_many conv ms w).confirmations ≡ w.confirmations
unfolding append_many
append_many-confirmations conv [] w = refl
append_many-confirmations conv (m ∷ ms) w =
    append_many-confirmations conv ms (add_row conv none m w)

if-IsClosed : (b : Bool) (ms : List Message) → IsClosed ms → IsClosed (if b then ms else [])
if-IsClosed true ms h = h
if-IsClosed false ms h = tt

pub append_many-IsSound :
    (conv : ℕ) (ms : List Message) (w : World)
    → IsClosed ms
    → IsSound w
    → IsSound (append_many conv ms w)
append_many-IsSound conv ms w closed h = record {
  closed = λ d. subst IsClosed (sym (messages_of-append_many conv d ms w)) (
      IsClosed-append (messages_of d w.rows) (if nat_eq conv d then ms else []) (h.closed d)
        (if-IsClosed (nat_eq conv d) ms closed));
  suspended =
      subst (λ cs. All (λ row. IsSuspended row.loop_state) cs)
        (sym (append_many-confirmations conv ms w)) h.suspended;
}

pub add_row-IsSound :
    (conv : ℕ) (i : Option String) (m : Message) (w : World)
    → IsClosed (m ∷ [])
    → IsSound w
    → IsSound (add_row conv i m w)
add_row-IsSound conv i m w closed h = record {
  closed = λ d. subst IsClosed (sym (messages_of-add_row conv d i m w)) (
      IsClosed-append (messages_of d w.rows) (if nat_eq conv d then m ∷ [] else []) (h.closed d)
        (if-IsClosed (nat_eq conv d) (m ∷ []) closed));
  suspended = h.suspended;
}

pub append-IsSound :
    (conv : ℕ) (m : Message) (i : Option String) (w : World)
    → IsClosed (m ∷ [])
    → IsSound w
    → IsSound (append conv m i w).1
unfolding append
append-IsSound conv m none w closed h = add_row-IsSound conv none m w closed h
append-IsSound conv m (some i) w closed h = elim (Bool-cases (has_client_msg_id conv i w)) [
  | inl e ↦ rw e h
  | inr e ↦ rw e (add_row-IsSound conv (some i) m w closed h)
]
