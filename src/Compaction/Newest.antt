-- ===== src/Compaction/Newest.antt =====
-- src/dudamel/compaction.py: what a call of the compactor leaves stored, and what it answers.
use dudamel.Prelude.{
  is_empty, ℕ, zero, suc, ◌+◌, ◌-◌, ◌≤◌, ◌≡◌, ◌⊎◌, refl, ap, sym, subst, ◌∙◌, Bool, true, ◌||◌,
  String, Option, none, some, List, [], ◌∷◌, ◌++◌, map, keep, keep-append, drop, take, any,
  any-append, length, length-append, inl, inr, Bool-cases, or_true_right, leb, nat_eq, Text, arith,
}
use mathlib.Core.List.{map-append}
use dudamel.Llm.{Message}
use dudamel.Store.{World, Summary}
use dudamel.Compaction.{
  Settings, SummaryAnswer, summarized, failed, of_conv, last, newest, is_kept, keep_ids, prune,
  is_taken, write, after_text, after_answer, summarize_span, summary_prompt, covers, at_watermark,
  watermark_id, compact_once, cached, remember, with_cache, maybe_compact, clean_summary_text,
}
use dudamel.Compaction.Pruned.{IsPruned, write-IsPruned, of_conv-prune}

last-snoc : (s : Summary) (ss : List Summary) → last (ss ++ (s ∷ [])) ≡ some s
last-snoc s [] = refl
last-snoc s (t ∷ []) = refl
last-snoc s (t ∷ u ∷ ss) = last-snoc s (u ∷ ss)

last-keep_snoc :
    (r : Summary → Bool) (s : Summary) (ss : List Summary)
    → r s ≡ true
    → last (keep r (ss ++ (s ∷ []))) ≡ some s
last-keep_snoc r s ss e = rw (keep-append r ss (s ∷ []), e) (last-snoc s (keep r ss))

drop-snoc :
    (k : ℕ) (s : Summary) (ss : List Summary)
    → k ≤ length ss
    → drop k (ss ++ (s ∷ [])) ≡ drop k ss ++ (s ∷ [])
drop-snoc zero s ss h = refl
drop-snoc (suc k) s [] h = absurd (omega arith)
drop-snoc (suc k) s (t ∷ ss) h = drop-snoc k s ss (omega arith)

is_kept-last :
    (k : ℕ) (s : Summary) (ss : List Summary)
    → k ≤ length ss
    → is_kept (map (λ t. t.id) (drop k (ss ++ (s ∷ [])))) s.id ≡ true
is_kept-last k s ss h =
    rw (drop-snoc k s ss h, map-append)
      (any-append (λ j. nat_eq j s.id) (map (λ t. t.id) (drop k ss)) (s.id ∷ [])
        ∙ or_true_right (any (λ j. nat_eq j s.id) (map (λ t. t.id) (drop k ss)))
            {b = any (λ j. nat_eq j s.id) (s.id ∷ [])} (ground arith))

of_conv-snoc :
    (conv : ℕ) (s : Summary) (ss : List Summary)
    → s.conversation_id ≡ conv
    → of_conv conv (ss ++ (s ∷ [])) ≡ of_conv conv ss ++ (s ∷ [])
of_conv-snoc conv s ss mine =
    let here : nat_eq s.conversation_id conv ≡ true = ground arith in
    keep-append (λ t. nat_eq t.conversation_id conv) ss (s ∷ []) ∙ rw here refl

last-prune :
    (conv : ℕ) (s : Summary) (ss : List Summary)
    → s.conversation_id ≡ conv
    → last (of_conv conv (prune conv (ss ++ (s ∷ [])))) ≡ some s
last-prune conv s ss mine =
    let all_mine = of_conv conv ss in
    let ids = of_conv-snoc conv s ss mine in
    let long : length (of_conv conv (ss ++ (s ∷ []))) ≡ length all_mine + 1 =
      ap (λ (r : List Summary). length r) ids ∙ length-append all_mine (s ∷ []) in
    let kept : is_kept (keep_ids conv (ss ++ (s ∷ []))) s.id ≡ true = rw ids (
      is_kept-last (length (all_mine ++ (s ∷ [])) - 3) s all_mine
        (omega (arith, length-append all_mine (s ∷ [])))) in
    rw (of_conv-prune conv (ss ++ (s ∷ []))) (
      subst
        (λ (r : List Summary).
          last (keep (λ t. is_kept (keep_ids conv (ss ++ (s ∷ []))) t.id) r) ≡ some s)
        (sym ids) (last-keep_snoc _ s all_mine kept))

-- What is written, or found in its place, is then the newest.
write-newest :
    (conv up_to : ℕ) (text : Text) (tainted : Bool) (w : World)
    → let (result, w') = write conv up_to text tainted w in newest conv w' ≡ result
unfolding write newest
write-newest conv up_to text tainted w = elim (Bool-cases (is_taken conv up_to w.summaries)) [
  | inl e ↦ rw e refl
  | inr e ↦ rw e (last-prune conv _ w.summaries refl)
]

-- What one compaction keeps: the stored rows stay pruned, and a summary that is given is the newest.
record IsFresh (conv : ℕ) (w : World) (r : Option Summary × World) : Type 0 where
  pruned : IsPruned w → IsPruned r.1
  current : (r.0 ≡ none) ⊎ (newest conv r.1 ≡ r.0)

module _ (env : Settings) (conv : ℕ) where
  after_answer-IsFresh :
      (up_to : ℕ) (tainted : Bool) (answer : SummaryAnswer) (w : World)
      → IsFresh conv w (after_answer env conv up_to tainted answer w)
  unfolding after_answer
  after_answer-IsFresh up_to tainted failed w = record { pruned = λ h. h; current = inl refl }
  after_answer-IsFresh up_to tainted (summarized t) w =
      for_text (clean_summary_text t env.max_summary_chars)
    where
      for_text : (t' : Text) → IsFresh conv w (after_text conv up_to tainted t' w)
      for_text [] = unfold after_text in record { pruned = λ h. h; current = inl refl }
      for_text (c ∷ t') =
          unfold after_text in
          record {
            pruned = write-IsPruned conv up_to (c ∷ t') tainted w;
            current = inr (write-newest conv up_to (c ∷ t') tainted w);
          }

  at_watermark-IsFresh :
      (history : List Message) (dropped : ℕ) (tainted : Bool) (o : Option ℕ) (w : World)
      → IsFresh conv w (at_watermark env conv history dropped tainted o w)
  unfolding at_watermark summarize_span
  at_watermark-IsFresh history dropped tainted none w = record {
    pruned = λ h. h;
    current = inl refl;
  }
  at_watermark-IsFresh history dropped tainted (some mark) w =
      let asked : World = record w { summary_calls = w.summary_calls + 1 } in
      let fresh =
        after_answer-IsFresh mark tainted
          (env.summarize w.summary_calls env.tier (summary_prompt (take dropped history))) asked in
      elim (Bool-cases (covers mark (newest conv w))) [
        | inl e ↦ rw e (record { pruned = λ h. h; current = inr refl })
        | inr e ↦ rw e (record {
          pruned = λ h. fresh.pruned (record { rising = h.rising; few = h.few });
          current = fresh.current;
        })
      ]

  with_cache-IsPruned :
      (history : List Message) (dropped : ℕ) (key : String) (tainted : Bool)
      (o : Option (Option Summary)) (w : World)
      → IsPruned w
      → IsPruned (with_cache env conv history dropped key tainted o w).1
  unfolding with_cache remember compact_once
  with_cache-IsPruned history dropped key tainted (some result) w h = h
  with_cache-IsPruned history dropped key tainted none w h =
      let kept =
        (at_watermark-IsFresh history dropped tainted (watermark_id env conv history dropped w)
            w).pruned
          h in
      record { rising = kept.rising; few = kept.few }

-- Whatever is asked of the compactor, at most three summaries of a conversation stay stored, with
-- ids in the order in which they were written.
pub maybe_compact-IsPruned :
    (env : Settings) (conv : ℕ) (history : List Message) (dropped : ℕ) (key : String)
    (tainted : Bool) (w : World)
    → IsPruned w
    → IsPruned (maybe_compact env conv history dropped key tainted w).1
unfolding maybe_compact
maybe_compact-IsPruned env conv history dropped key tainted w h =
    elim (Bool-cases (leb dropped 0 || is_empty history)) [
      | inl e ↦ rw e h
      | inr e ↦ rw e (
          with_cache-IsPruned env conv history dropped key tainted (cached conv key w.turn_cache) w
            h)
    ]

-- The first answer in a turn is nothing, or it is the conversation's newest stored summary, also
-- where the index refuses the row that was to be written.
pub compact_once-newest :
    (env : Settings) (conv : ℕ) (history : List Message) (dropped : ℕ) (tainted : Bool) (w : World)
    → let (result, w') = compact_once env conv history dropped tainted w in
      (result ≡ none) ⊎ (newest conv w' ≡ result)
unfolding compact_once
compact_once-newest env conv history dropped tainted w =
    (at_watermark-IsFresh env conv history dropped tainted (watermark_id env conv history dropped w)
      w).current
