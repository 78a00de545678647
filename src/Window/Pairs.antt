-- ===== src/Window/Pairs.antt =====
-- `_drop_dangling_tool_calls` of window.py: in what it returns, calls and results are paired.
use dudamel.Prelude.{
  ◌≡◌, refl, ap, sym, ◌∙◌, Bool, true, false, not, ◌||◌, String, ◌==◌, Option, none, some, List, [],
  ◌∷◌, ◌++◌, inl, inr, All, All-keep, All-imp, All-imp₂, keep-All, keep, all, Option-cases,
  List-cases, subst, all-imp, all-imp₂, all-not-any, append_assoc, or_true_right, eq_iff, eq_refl,
  arith,
}
use dudamel.Llm.{Message, ToolCall, is_assistant, is_tool}
use dudamel.Window.{
  drop_dangling_tool_calls, answered_ids, called_ids, ids_of_calls, id_of_answer, contains,
  contains_option, is_dangling, is_stray,
}

-- Every call of an assistant message is answered by a tool result among `ms`.
abbrev pub CallsAnswered : List Message → Message → Type 0
CallsAnswered ms m =
    is_assistant m.role ≡ true → all (λ tc. contains tc.id (answered_ids ms)) m.tool_calls ≡ true

-- A tool result answers a call of a message among `ms`.
abbrev pub ResultCalled : List Message → Message → Type 0
ResultCalled ms m = is_tool m.role ≡ true → contains_option m.tool_call_id (called_ids ms) ≡ true

-- No message is left without its counterpart.
abbrev pub IsPaired : List Message → Type 0
IsPaired ms = All (CallsAnswered ms) ms × All (ResultCalled ms) ms

-- Only the assistant's messages carry calls (llm/types.py: "assistant only").
abbrev pub CallsByAssistant : Message → Type 0
CallsByAssistant m = is_assistant m.role ≡ false → m.tool_calls ≡ []

pub contains-append :
    (x : String) (ys zs : List String) → contains x (ys ++ zs) ≡ (contains x ys || contains x zs)
contains-append x [] zs = refl
contains-append x (y ∷ ys) zs = ground (arith, contains-append x ys zs)

own_answer :
    (x : String) (m : Message)
    → contains x (id_of_answer m) ≡ true
    → (is_tool m.role ≡ true) × (m.tool_call_id ≡ some x)
own_answer x m h = elim (Option-cases m.tool_call_id) [
  | inl e ↦ ground arith
  | inr (y, e) ↦ ground (arith, eq_iff y x)
]

module _ (x : String) (p : Message → Bool) where
  -- An id stays answered if the messages that answer it are kept.
  contains-answered-keep :
      ((m : Message) → is_tool m.role ≡ true → m.tool_call_id ≡ some x → p m ≡ true)
      → (ms : List Message) → contains x (answered_ids ms) ≡ true
      → contains x (answered_ids (keep p ms)) ≡ true
  unfolding answered_ids
  contains-answered-keep kept [] h = h
  contains-answered-keep kept (m ∷ ms) h = ground (
    arith,
    contains-append x (id_of_answer m) (answered_ids ms),
    contains-append x (id_of_answer m) (answered_ids (keep p ms)),
    own_answer x m,
    kept m,
    contains-answered-keep kept ms,
  )

  -- An id stays called if the messages that are not kept call nothing.
  contains-called-keep :
      (ms : List Message)
      → All (λ m. p m ≡ false → m.tool_calls ≡ []) ms
      → contains x (called_ids ms) ≡ true
      → contains x (called_ids (keep p ms)) ≡ true
  unfolding called_ids
  contains-called-keep [] silent h = h
  contains-called-keep (m ∷ ms) silent h = ground (
    arith,
    contains-append x (ids_of_calls m.tool_calls) (called_ids ms),
    contains-append x (ids_of_calls m.tool_calls) (called_ids (keep p ms)),
    contains-called-keep ms silent.1,
  )

own_calls : (calls : List ToolCall) → all (λ tc. contains tc.id (ids_of_calls calls)) calls ≡ true
own_calls [] = refl
own_calls (c ∷ cs) =
    let rest : all (λ tc. contains tc.id (ids_of_calls (c ∷ cs))) cs ≡ true =
      all-imp (λ tc. contains tc.id (ids_of_calls cs))
        (λ tc. contains tc.id (ids_of_calls (c ∷ cs))) (λ tc h. or_true_right (c.id == tc.id) h) cs
        (own_calls cs) in
    ground (arith, eq_refl c.id)

own_calls-within :
    (before after : List String) (calls : List ToolCall)
    → all (λ tc. contains tc.id (before ++ (ids_of_calls calls ++ after))) calls ≡ true
own_calls-within before after calls =
    all-imp _ _
      (λ tc h. ground (
        arith,
        contains-append tc.id before (ids_of_calls calls ++ after),
        contains-append tc.id (ids_of_calls calls) after,
      ))
      calls (own_calls calls)

-- Every message's own calls are among the called ids.
own_calls-called :
    (before : List String) (ms : List Message)
    → All (λ m. all (λ tc. contains tc.id (before ++ called_ids ms)) m.tool_calls ≡ true) ms
unfolding called_ids
own_calls-called before [] = tt
own_calls-called before (m ∷ ms) = (
  own_calls-within before (called_ids ms) m.tool_calls,
  subst (λ ids. All (λ n. all (λ tc. contains tc.id ids) n.tool_calls ≡ true) ms)
      (append_assoc before (ids_of_calls m.tool_calls) (called_ids ms))
      (own_calls-called (before ++ ids_of_calls m.tool_calls) ms),
)

-- The two passes of the sanitiser, for any messages.
module _ (messages : List Message) where
  abbrev first_pass : List Message
  first_pass = keep (λ m. not (is_dangling (answered_ids messages) m)) messages

  abbrev second_test : Message → Bool
  second_test m = not (is_stray (called_ids first_pass) m)

  first_answered :
      (x : String)
      → contains x (answered_ids messages) ≡ true
      → contains x (answered_ids first_pass) ≡ true
  first_answered x h =
      contains-answered-keep x (λ m. not (is_dangling (answered_ids messages) m))
        (λ m is_result _. unfold is_dangling in ground arith) messages h

  still_answered :
      (x : String)
      → contains x (answered_ids messages) ≡ true
      → contains x (called_ids first_pass) ≡ true
      → contains x (answered_ids (drop_dangling_tool_calls messages)) ≡ true
  unfolding drop_dangling_tool_calls
  still_answered x answered called =
      contains-answered-keep x second_test (λ m is_result names. unfold is_stray in ground arith)
        first_pass (first_answered x answered)

  -- What the first pass keeps has all its calls answered.
  first_calls :
      All
        (λ m.
          is_assistant m.role ≡ true
          → all (λ tc. contains tc.id (answered_ids messages)) m.tool_calls ≡ true)
        first_pass
  first_calls =
      All-imp
        (λ m passed by_assistant.
          unfold is_dangling in
          elim (List-cases m.tool_calls) [
            | inl e ↦ rw e
            | inr (c, cs, e) ↦
                ground
                  (arith, all-not-any (λ tc. contains tc.id (answered_ids messages)) m.tool_calls)
          ])
        first_pass (keep-All (λ m. not (is_dangling (answered_ids messages) m)) messages)

  calls_answered :
      All (CallsAnswered (drop_dangling_tool_calls messages)) (drop_dangling_tool_calls messages)
  unfolding drop_dangling_tool_calls
  calls_answered =
      All-keep (CallsAnswered (drop_dangling_tool_calls messages)) second_test first_pass (
        All-imp₂
          (λ m answered called by_assistant.
            all-imp₂ (λ tc. contains tc.id (answered_ids messages))
              (λ tc. contains tc.id (called_ids first_pass))
              (λ tc. contains tc.id (answered_ids (drop_dangling_tool_calls messages)))
              (λ tc h k. still_answered tc.id h k) m.tool_calls (answered by_assistant) called)
          first_pass first_calls (own_calls-called [] first_pass))

  -- The second pass removes tool results only, and these call nothing.
  still_called :
      (x : String)
      → All CallsByAssistant messages
      → contains x (called_ids first_pass) ≡ true
      → contains x (called_ids (drop_dangling_tool_calls messages)) ≡ true
  unfolding drop_dangling_tool_calls
  still_called x by_assistant h =
      contains-called-keep x second_test first_pass
        (All-imp (λ m calls removed. calls (unfold is_stray in ground arith)) first_pass
          (All-keep CallsByAssistant (λ m. not (is_dangling (answered_ids messages) m)) messages
            by_assistant))
        h

  still_called_option :
      (o : Option String)
      → All CallsByAssistant messages
      → contains_option o (called_ids first_pass) ≡ true
      → contains_option o (called_ids (drop_dangling_tool_calls messages)) ≡ true
  still_called_option none by_assistant h = cc
  still_called_option (some x) by_assistant h = still_called x by_assistant h

  results_called :
      All CallsByAssistant messages
      → All (ResultCalled (drop_dangling_tool_calls messages)) (drop_dangling_tool_calls messages)
  unfolding drop_dangling_tool_calls
  results_called by_assistant =
      All-imp {P = λ m. second_test m ≡ true}
        (λ m passed is_result.
          still_called_option m.tool_call_id by_assistant (unfold is_stray in ground arith))
        (drop_dangling_tool_calls messages) (keep-All second_test first_pass)

-- The messages that the sanitiser returns are paired: each call of an assistant message is answered
-- among them, and each tool result answers a call among them, provided that only assistant
-- messages carry calls.
pub drop_dangling-IsPaired :
    (messages : List Message)
    → All CallsByAssistant messages
    → IsPaired (drop_dangling_tool_calls messages)
drop_dangling-IsPaired messages by_assistant =
    (calls_answered messages, results_called messages by_assistant)

pub answered_ids-append :
    (xs ys : List Message) → answered_ids (xs ++ ys) ≡ answered_ids xs ++ answered_ids ys
unfolding answered_ids
answered_ids-append [] ys = refl
answered_ids-append (m ∷ xs) ys =
    ap (λ (r : List String). id_of_answer m ++ r) (answered_ids-append xs ys)
    ∙ sym (append_assoc (id_of_answer m) (answered_ids xs) (answered_ids ys))

-- A tool result for the call of this id.
abbrev pub IsAnswerTo : String → Message → Type 0
IsAnswerTo i m = (is_tool m.role ≡ true) × (m.tool_call_id ≡ some i)

pub answered_ids-cons :
    (i : String) (m : Message) (ms : List Message)
    → IsAnswerTo i m
    → answered_ids (m ∷ ms) ≡ i ∷ answered_ids ms
unfolding answered_ids
answered_ids-cons i m ms h = ground arith

pub answered_ids-nil : answered_ids [] ≡ []
unfolding answered_ids
answered_ids-nil = refl
