-- ===== src/Compaction/Once.antt =====
-- src/dudamel/compaction.py: the answer that is remembered for a turn.
use dudamel.Prelude.{
  is_empty, ℕ, ◌≡◌, refl, Bool, false, not, ◌||◌, String, eq_refl, Option, none, some, List, [],
  ◌∷◌, ◌++◌, keep, leb, nat_eq, arith,
}
use dudamel.Llm.{Message}
use dudamel.Store.{World, Summary, TurnEntry}
use dudamel.Compaction.{Settings, compact_once, cached, remember, with_cache, maybe_compact}

abbrev entry : ℕ → String → Option Summary → TurnEntry
entry conv key result = record { conversation_id = conv; turn_key = key; result = result }

cached-remembered :
    (conv : ℕ) (key : String) (result : Option Summary) (es : List TurnEntry)
    → cached conv key
        (keep (λ e. not (nat_eq e.conversation_id conv)) es ++ (entry conv key result ∷ []))
      ≡ some result
unfolding cached
cached-remembered conv key result [] = ground (arith, eq_refl key)
cached-remembered conv key result (e ∷ es) = ground (arith, cached-remembered conv key result es)

cached-remember :
    (conv : ℕ) (key : String) (r : Option Summary × World)
    → cached conv key (remember conv key r).1.turn_cache ≡ some (remember conv key r).0
unfolding remember
cached-remember conv key (result, w) = cached-remembered conv key result w.turn_cache

module _ (env : Settings) (conv : ℕ) (key : String) where
  with_cache-cached :
      (history : List Message) (dropped : ℕ) (tainted : Bool) (o : Option (Option Summary))
      (w : World)
      → cached conv key w.turn_cache ≡ o
      → let (result, w') = with_cache env conv history dropped key tainted o w in
        cached conv key w'.turn_cache ≡ some result
  unfolding with_cache
  with_cache-cached history dropped tainted none w known =
      cached-remember conv key (compact_once env conv history dropped tainted w)
  with_cache-cached history dropped tainted (some result) w known = known

  cached-maybe_compact :
      (history : List Message) (dropped : ℕ) (tainted : Bool) (w : World)
      → (leb dropped 0 || is_empty history) ≡ false
      → let (result, w') = maybe_compact env conv history dropped key tainted w in
        cached conv key w'.turn_cache ≡ some result
  unfolding maybe_compact
  cached-maybe_compact history dropped tainted w some_dropped =
      rw some_dropped
        (with_cache-cached history dropped tainted (cached conv key w.turn_cache) w refl)

  from_cache :
      (history : List Message) (dropped : ℕ) (tainted : Bool) (result : Option Summary) (w : World)
      → (leb dropped 0 || is_empty history) ≡ false
      → cached conv key w.turn_cache ≡ some result
      → maybe_compact env conv history dropped key tainted w ≡ (result, w)
  unfolding maybe_compact with_cache
  from_cache history dropped tainted result w some_dropped known = rw some_dropped (rw known refl)

  -- Asked again in the same turn, where both times at least one message of a nonempty history is
  -- dropped, whichever they are, the compactor gives the answer that it gave at first, and does
  -- nothing: no summary is asked for and no row is written.
  pub maybe_compact-once :
      (history later : List Message) (dropped more : ℕ) (tainted tainted' : Bool) (w : World)
      → (leb dropped 0 || is_empty history) ≡ false
      → (leb more 0 || is_empty later) ≡ false
      → let (result, w') = maybe_compact env conv history dropped key tainted w in
        maybe_compact env conv later more key tainted' w' ≡ (result, w')
  maybe_compact-once history later dropped more tainted tainted' w first second =
      from_cache later more tainted' _ _ second
        (cached-maybe_compact history dropped tainted w first)
