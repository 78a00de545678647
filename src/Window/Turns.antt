-- ===== src/Window/Turns.antt =====
-- `_split_turns` of window.py: the turns, in order, are the messages from the first user message on.
use mathlib.Core.List.{flatten}
use dudamel.Prelude.{
  ℕ, ◌+◌, ◌≡◌, refl, ap, ◌∙◌, sym, subst, true, false, inl, inr, List, [], ◌∷◌, ◌++◌, append-nil,
  append_assoc, All, All-append, All-append_split, Bool-cases, arith, if◌then◌else◌,
}
use dudamel.Llm.{Message, is_user}
use dudamel.Window.{Splitting, finish, split_step, split_loop, split_turns, sum_tokens}

-- How many messages open a turn.
pub users : List Message → ℕ
users [] = 0
users (m ∷ ms) = (if is_user m.role then 1 else 0) + users ms

-- A turn is one user message and what follows it up to the next one.
abbrev pub IsTurn : List Message → Type 0
IsTurn [] = ⊥
IsTurn (m ∷ ms) = (is_user m.role ≡ true) × (users ms ≡ 0)

-- Nothing, or a list that opens with a user message.
abbrev pub StartsTurn : List Message → Type 0
StartsTurn [] = Unit
StartsTurn (m ∷ ms) = is_user m.role ≡ true

pub sum_tokens-append :
    (xs ys : List Message) → sum_tokens (xs ++ ys) ≡ sum_tokens xs + sum_tokens ys
unfolding sum_tokens
sum_tokens-append [] ys = omega arith
sum_tokens-append (m ∷ ms) ys = omega (arith, sum_tokens-append ms ys)

pub users-append : (xs ys : List Message) → users (xs ++ ys) ≡ users xs + users ys
unfolding users
users-append [] ys = omega arith
users-append (m ∷ ms) ys = omega (arith, users-append ms ys)

pub flatten-append : (xs ys : List (List Message)) → flatten (xs ++ ys) ≡ flatten xs ++ flatten ys
unfolding flatten
flatten-append [] ys = refl
flatten-append (x ∷ xs) ys = rw (flatten-append xs ys, append_assoc)

pub flatten-StartsTurn : (ts : List (List Message)) → All IsTurn ts → StartsTurn (flatten ts)
unfolding flatten
flatten-StartsTurn [] h = tt
flatten-StartsTurn ([] ∷ ts) h = absurd h.0
flatten-StartsTurn ((m ∷ ms) ∷ ts) h = h.0.0

pub IsTurn-users : (t : List Message) → IsTurn t → users t ≡ 1
unfolding users
IsTurn-users [] h = absurd h
IsTurn-users (m ∷ ms) h = ground arith

pub users-nil : users [] ≡ 0
unfolding users
users-nil = refl

pub flatten-one : (t : List Message) → flatten (t ∷ []) ≡ t
unfolding flatten
flatten-one t = append-nil t

flatten-snoc :
    (ts : List (List Message)) (t : List Message) → flatten (ts ++ (t ∷ [])) ≡ flatten ts ++ t
unfolding flatten
flatten-snoc ts t =
    flatten-append ts (t ∷ []) ∙ ap (λ (r : List Message). flatten ts ++ r) (append-nil t)

-- What `_split_turns` has done with the messages `seen` so far.
record IsSplit (seen : List Message) (st : Splitting) : Type 0 where
  orphans : List Message
  no_user : users orphans ≡ 0
  covers : seen ≡ orphans ++ flatten (finish st)
  turns : All IsTurn (finish st)
  waiting : st.current ≡ [] → st.turns ≡ []

-- A user message opens a turn after the finished ones.
open_turn :
    (seen : List Message) (st : Splitting) (m : Message)
    → IsSplit seen st
    → is_user m.role ≡ true
    → IsSplit (seen ++ (m ∷ [])) (record { turns = finish st; current = m ∷ [] })
unfolding users
open_turn seen st m h u = record {
  orphans = h.orphans;
  no_user = h.no_user;
  covers =
      ap (λ (s : List Message). s ++ (m ∷ [])) h.covers
      ∙ append_assoc h.orphans (flatten (finish st)) (m ∷ [])
      ∙ ap (λ (r : List Message). h.orphans ++ r) (sym (flatten-snoc (finish st) (m ∷ [])));
  turns = All-append IsTurn (finish st) ((m ∷ []) ∷ []) h.turns ((u, refl), tt);
  waiting = λ e. cc;
}

-- Any other message joins the turn that is open.
join_turn :
    (seen : List Message) (ts : List (List Message)) (c : Message) (cs : List Message) (m : Message)
    → IsSplit seen (record { turns = ts; current = c ∷ cs })
    → is_user m.role ≡ false
    → IsSplit (seen ++ (m ∷ [])) (record { turns = ts; current = c ∷ (cs ++ (m ∷ [])) })
unfolding users
join_turn seen ts c cs m h n =
    let turn = All-append_split IsTurn ts ((c ∷ cs) ∷ []) h.turns in
    record {
      orphans = h.orphans;
      no_user = h.no_user;
      covers =
          ap (λ (s : List Message). s ++ (m ∷ [])) h.covers
          ∙ append_assoc h.orphans (flatten (ts ++ ((c ∷ cs) ∷ []))) (m ∷ [])
          ∙ ap (λ (r : List Message). h.orphans ++ (r ++ (m ∷ []))) (flatten-snoc ts (c ∷ cs))
          ∙ ap (λ (r : List Message). h.orphans ++ r) (append_assoc (flatten ts) (c ∷ cs) (m ∷ []))
          ∙ ap (λ (r : List Message). h.orphans ++ r)
              (sym (flatten-snoc ts (c ∷ (cs ++ (m ∷ [])))));
      turns =
          All-append IsTurn ts ((c ∷ (cs ++ (m ∷ []))) ∷ []) turn.0
            ((turn.1.0.0, ground (arith, turn.1.0.1, users-append cs (m ∷ []))), tt);
      waiting = λ e. cc;
    }

-- Before the first user message it is an orphan.
pass_orphan :
    (seen : List Message) (ts : List (List Message)) (m : Message)
    → IsSplit seen (record { turns = ts; current = [] })
    → is_user m.role ≡ false
    → IsSplit (seen ++ (m ∷ [])) (record { turns = ts; current = [] })
unfolding users flatten
pass_orphan seen ts m h n =
    let none_yet : ts ≡ [] = h.waiting refl in
    record {
      orphans = h.orphans ++ (m ∷ []);
      no_user = ground (arith, h.no_user, users-append h.orphans (m ∷ []));
      covers =
          let seen_orphans : seen ≡ h.orphans = h.covers ∙ rw none_yet (append-nil h.orphans) in
          ap (λ (s : List Message). s ++ (m ∷ [])) seen_orphans
          ∙ rw none_yet (sym (append-nil (h.orphans ++ (m ∷ []))));
      turns = h.turns;
      waiting = h.waiting;
    }

split_step-IsSplit :
    (seen : List Message) (ts : List (List Message)) (current : List Message) (m : Message)
    → IsSplit seen (record { turns = ts; current = current })
    → IsSplit (seen ++ (m ∷ [])) (split_step (record { turns = ts; current = current }) m)
unfolding split_step
split_step-IsSplit seen ts [] m h = elim (Bool-cases (is_user m.role)) [
  | inl u ↦ rw u (open_turn seen (record { turns = ts; current = [] }) m h u)
  | inr n ↦ rw n (pass_orphan seen ts m h n)
]
split_step-IsSplit seen ts (c ∷ cs) m h = elim (Bool-cases (is_user m.role)) [
  | inl u ↦ rw u (open_turn seen (record { turns = ts; current = c ∷ cs }) m h u)
  | inr n ↦ rw n (join_turn seen ts c cs m h n)
]

split_loop-IsSplit :
    (seen : List Message) (st : Splitting) (ms : List Message)
    → IsSplit seen st
    → IsSplit (seen ++ ms) (split_loop st ms)
unfolding split_loop
split_loop-IsSplit seen st [] h = rw append-nil h
split_loop-IsSplit seen st (m ∷ ms) h =
    subst (λ s. IsSplit s (split_loop (split_step st m) ms)) (append_assoc seen (m ∷ []) ms)
      (split_loop-IsSplit (seen ++ (m ∷ [])) (split_step st m) ms
        (split_step-IsSplit seen st.turns st.current m h))

-- The turns, in order, are the messages without those before the first user message, and each
-- opens with its only user message.
pub split_turns_lem :
    (messages : List Message)
    → (orphans : List Message) × (users orphans ≡ 0)
      × (messages ≡ orphans ++ flatten (split_turns messages))
      × All IsTurn (split_turns messages)
unfolding split_turns
split_turns_lem messages =
    let h =
      split_loop-IsSplit [] (record { turns = []; current = [] }) messages
        (record {
          orphans = [];
          no_user = unfold users in refl;
          covers = unfold flatten in refl;
          turns = tt;
          waiting = λ e. refl;
        }) in
    (h.orphans, h.no_user, h.covers, h.turns)
