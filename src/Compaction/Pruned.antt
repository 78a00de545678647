-- ===== src/Compaction/Pruned.antt =====
-- src/dudamel/compaction.py: the summaries that are stored.
use dudamel.Prelude.{
  ℕ, zero, suc, ◌+◌, ◌-◌, ◌≤◌, ◌≡◌, refl, subst, ◌∙◌, Bool, true, false, not, ◌||◌, List, [], ◌∷◌,
  ◌++◌, append-nil, map, keep, keep-append, drop, length, length-keep-le, inl, inr, Bool-cases,
  nat_eq, Text, arith,
}
use dudamel.Store.{World, Summary}
use dudamel.Compaction.{keep_per_conversation, of_conv, is_kept, keep_ids, prune, is_taken, write}

-- The ids rise, from `lo` on, and stay below `hi`.
abbrev pub Rising : ℕ → List Summary → ℕ → Type 0
Rising lo [] hi = lo ≤ hi
Rising lo (s ∷ ss) hi = (lo ≤ s.id) × Rising (suc s.id) ss hi

Rising-mono : (lo lo' hi : ℕ) (ss : List Summary) → lo' ≤ lo → Rising lo ss hi → Rising lo' ss hi
Rising-mono lo lo' hi [] le h = omega arith
Rising-mono lo lo' hi (s ∷ ss) le h = (omega arith, h.1)

Rising-keep :
    (p : Summary → Bool) (lo hi : ℕ) (ss : List Summary)
    → Rising lo ss hi
    → Rising lo (keep p ss) hi
Rising-keep p lo hi [] h = h
Rising-keep p lo hi (s ∷ ss) h =
    let rest = Rising-keep p (suc s.id) hi ss h.1 in
    elim (Bool-cases (p s)) [
      | inl e ↦ rw e (h.0, rest)
      | inr e ↦ rw e (Rising-mono (suc s.id) lo hi (keep p ss) (omega (arith, h.0)) rest)
    ]

Rising-drop : (k lo hi : ℕ) (ss : List Summary) → Rising lo ss hi → Rising lo (drop k ss) hi
Rising-drop zero lo hi ss h = h
Rising-drop (suc k) lo hi [] h = h
Rising-drop (suc k) lo hi (s ∷ ss) h =
    Rising-mono (suc s.id) lo hi (drop k ss) (omega (arith, h.0))
      (Rising-drop k (suc s.id) hi ss h.1)

Rising-snoc :
    (lo hi : ℕ) (s : Summary) (ss : List Summary)
    → s.id ≡ hi
    → Rising lo ss hi
    → Rising lo (ss ++ (s ∷ [])) (hi + 1)
Rising-snoc lo hi s [] e h = omega arith
Rising-snoc lo hi s (t ∷ ss) e h = (h.0, Rising-snoc (suc t.id) hi s ss e h.1)

not_kept :
    (i hi : ℕ) (ss : List Summary) → Rising (suc i) ss hi → is_kept (map (λ s. s.id) ss) i ≡ false
not_kept i hi [] h = refl
not_kept i hi (s ∷ ss) h = ground (arith, not_kept i hi ss, Rising-mono (suc s.id) (suc i) hi ss)

-- Of rows with rising ids, those whose ids stand behind the first `k` are no more than these.
length-kept :
    (k lo hi : ℕ) (ss : List Summary)
    → Rising lo ss hi
    → length (keep (λ s. is_kept (map (λ t. t.id) (drop k ss)) s.id) ss) ≤ length ss - k
length-kept zero lo hi ss h =
    omega (arith, length-keep-le (λ s. is_kept (map (λ t. t.id) ss) s.id) ss)
length-kept (suc k) lo hi [] h = omega arith
length-kept (suc k) lo hi (s ∷ ss) h =
    rw (not_kept s.id hi (drop k ss) (Rising-drop k (suc s.id) hi ss h.1))
      (omega (arith, length-kept k (suc s.id) hi ss h.1))

keep-both :
    (q r : Summary → Bool) (ss : List Summary)
    → keep q (keep (λ s. not (q s) || r s) ss) ≡ keep r (keep q ss)
keep-both q r [] = refl
keep-both q r (s ∷ ss) = ground (arith, keep-both q r ss)

keep-other :
    (q q' r : Summary → Bool) (ss : List Summary)
    → ((s : Summary) → q' s ≡ true → q s ≡ false)
    → keep q' (keep (λ s. not (q s) || r s) ss) ≡ keep q' ss
keep-other q q' r [] apart = refl
keep-other q q' r (s ∷ ss) apart = ground (arith, apart s, keep-other q q' r ss apart)

pub of_conv-prune :
    (conv : ℕ) (ss : List Summary)
    → of_conv conv (prune conv ss) ≡ keep (λ s. is_kept (keep_ids conv ss) s.id) (of_conv conv ss)
unfolding prune
of_conv-prune conv ss =
    keep-both (λ s. nat_eq s.conversation_id conv) (λ s. is_kept (keep_ids conv ss) s.id) ss

of_conv-prune_other :
    (conv d : ℕ) (ss : List Summary)
    → nat_eq conv d ≡ false
    → of_conv d (prune conv ss) ≡ of_conv d ss
unfolding prune
of_conv-prune_other conv d ss other =
    keep-other (λ s. nat_eq s.conversation_id conv) (λ s. nat_eq s.conversation_id d)
      (λ s. is_kept (keep_ids conv ss) s.id) ss (λ s e. ground arith)

length-prune :
    (conv lo hi : ℕ) (ss : List Summary)
    → Rising lo ss hi
    → length (of_conv conv (prune conv ss)) ≤ keep_per_conversation
length-prune conv lo hi ss h =
    let mine = of_conv conv ss in
    rw (of_conv-prune conv ss) (
      omega (
        arith,
        length-kept (length mine - keep_per_conversation) lo hi mine
            (Rising-keep (λ s. nat_eq s.conversation_id conv) lo hi ss h),
      ))

-- The stored summaries: ids in order, and at most three for each conversation.
pub record IsPruned (w : World) : Type 0 where
  pub rising : Rising 0 w.summaries w.next_summary
  pub few : (conv : ℕ) → length (of_conv conv w.summaries) ≤ keep_per_conversation

of_conv-other_snoc :
    (d : ℕ) (s : Summary) (ss : List Summary)
    → nat_eq s.conversation_id d ≡ false
    → of_conv d (ss ++ (s ∷ [])) ≡ of_conv d ss
of_conv-other_snoc d s ss other =
    keep-append (λ t. nat_eq t.conversation_id d) ss (s ∷ []) ∙ rw other (append-nil (of_conv d ss))

pub write-IsPruned :
    (conv up_to : ℕ) (text : Text) (tainted : Bool) (w : World)
    → IsPruned w
    → IsPruned (write conv up_to text tainted w).1
unfolding write
write-IsPruned conv up_to text tainted w h =
    let s : Summary = record {
      id = w.next_summary;
      conversation_id = conv;
      up_to_message_id = up_to;
      text = text;
      tainted = tainted;
    } in
    let rising = Rising-snoc 0 w.next_summary s w.summaries refl h.rising in
    elim (Bool-cases (is_taken conv up_to w.summaries)) [
      | inl e ↦ rw e h
      | inr e ↦ rw e (record {
        rising =
            unfold prune in Rising-keep _ 0 (w.next_summary + 1) (w.summaries ++ (s ∷ [])) rising;
        few = λ d. elim (Bool-cases (nat_eq conv d)) [
          | inl same ↦
              let is : conv ≡ d = ground arith in
              subst (λ k. length (of_conv k (prune conv (w.summaries ++ (s ∷ [])))) ≤ 3) is
                (length-prune conv 0 (w.next_summary + 1) (w.summaries ++ (s ∷ [])) rising)
          | inr other ↦
              rw (of_conv-prune_other conv d (w.summaries ++ (s ∷ [])) other)
                (rw (of_conv-other_snoc d s w.summaries other) (h.few d))
        ];
      })
    ]
