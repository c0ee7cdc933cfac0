-- ===== src/Graph/History.antt =====
-- The history that a turn leaves: its messages and its turn count.
use mathlib.Core.Bool.{and-false}
use cognitive_rag_system.Prelude.{
  ℕ, ◌+◌, ◌-◌, ◌≤◌, zero, suc, Bool, true, false, ◌||◌, ◌≡◌, ◌∙◌, ap, refl, Bool-cases, inl, inr,
  leb→le, Option, some, List, [], ◌∷◌, ◌++◌, length, get_or, drop, length-append, arith, leb,
  if◌then◌else◌,
}
use cognitive_rag_system.Text.{Text, is_empty}
use cognitive_rag_system.Graph.State.{
  Memory, is_blank, merge_working_memory, merge_keys, merged_keys, replace_list,
}
use cognitive_rag_system.Graph.Turn.{Message, GraphState}
use cognitive_rag_system.Graph.Egress.{
  node_summarize_history, message, ends_with, with_question, turn_messages, pruned_memory,
  node_state_harvester, node_cleanup_ephemeral_state,
}
use cognitive_rag_system.Graph.Runner.{
  Services, grounded, apply_update, attempt, correction_loop, egress, answer_and_close,
}
use cognitive_rag_system.Graph.Validator.{node_validator, node_fallback_refusal, node_synthesizer}
use cognitive_rag_system.Graph.Correction.{correction_loop_total}
use cognitive_rag_system.Graph.Blackboard.{turn_count-merge, merge-pruned}

length-drop : {A : Type 0} (n : ℕ) (xs : List A) → length (drop n xs) ≡ length xs - n
length-drop zero xs = omega arith
length-drop (suc n) [] = omega arith
length-drop (suc n) (x ∷ xs) = omega (arith, length-drop n xs)

asked-le :
    (b : Bool) (ms : List Message) (m : Message)
    → length (if b then ms else ms ++ (m ∷ [])) ≤ length ms + 1
asked-le true ms m = omega arith
asked-le false ms m = omega (arith, length-append ms (m ∷ []))

length-turn_messages :
    (query answer : Text) (ms : List Message)
    → length (turn_messages query answer ms) ≤ length ms + 2
unfolding turn_messages with_question
length-turn_messages query answer ms =
    let first = asked-le (is_empty query || ends_with query ms) ms (message true query) in
    let second = asked-le (is_empty answer) (with_question query ms) (message false answer) in
    omega (arith, first, second)

ne_blank-counted : (m : Memory) (n : ℕ) → is_blank (record m { turn_count = some n }) ≡ false
unfolding is_blank
ne_blank-counted m n = simp and-false

ne_blank-merge :
    (cur new : Memory)
    → is_blank cur ≡ false
    → is_blank new ≡ false
    → (new.pruned || new.replace) ≡ false
    → is_blank (merge_working_memory cur new) ≡ false
unfolding merge_working_memory merge_keys merged_keys
ne_blank-merge cur new h k e = rw (h, k, e) (unfold is_blank in refl)

module _ {Item : Type 0} where
  length-summarized :
      (summarize : GraphState Item → Option Text) (s : GraphState Item)
      → length (apply_update s (node_summarize_history summarize s)).messages ≤ 6
  unfolding apply_update node_summarize_history replace_list
  length-summarized summarize s = elim (Bool-cases (leb (length s.messages) 6)) [
    | inl short ↦ rw short (leb→le (length s.messages) 6 short)
    | inr long ↦ rw long (omega (arith, length-drop (length s.messages - 2) s.messages))
  ]

  messages-egress :
      (s : GraphState Item)
      → (egress s).messages ≡ turn_messages s.raw_query s.synthesized_response s.messages
  unfolding egress apply_update node_state_harvester node_cleanup_ephemeral_state replace_list
  messages-egress s = refl

  -- A turn whose summarizer is followed by the egress leaves at most eight messages, however many
  -- it began with.
  pub history_bounded :
      (summarize : GraphState Item → Option Text) (s : GraphState Item)
      → length (egress (apply_update s (node_summarize_history summarize s))).messages ≤ 8
  history_bounded summarize s =
      let s' = apply_update s (node_summarize_history summarize s) in
      rw (messages-egress s') (
        omega (
          arith,
          length-turn_messages s'.raw_query s'.synthesized_response s'.messages,
          length-summarized summarize s,
        ))

  egress-turn_count :
      (s : GraphState Item)
      → is_blank s.working_memory ≡ false
      → (s.working_memory.pruned || s.working_memory.replace) ≡ false
      → (egress s).working_memory.turn_count ≡ some (get_or 0 s.working_memory.turn_count)
  unfolding egress apply_update node_state_harvester node_cleanup_ephemeral_state pruned_memory
  egress-turn_count s h k =
      let m = s.working_memory in
      let counted : Memory = record m { turn_count = some (get_or 0 m.turn_count + 1) } in
      let kept = merge_working_memory m counted in
      ap (λ (x : Memory). x.turn_count)
        (merge-pruned kept (pruned_memory kept)
          (ne_blank-merge m counted h (ne_blank-counted m _) k) refl)
      ∙ ap (λ (o : Option ℕ). some (get_or 0 o)) (turn_count-merge m counted h k)

  module _ (services : Services Item) where
    attempt-working_memory :
        (s : GraphState Item) → (attempt services s).working_memory ≡ s.working_memory
    unfolding attempt apply_update node_synthesizer node_validator
    attempt-working_memory s = refl

    refused-working_memory :
        (s : GraphState Item)
        → (apply_update s (node_fallback_refusal s)).working_memory ≡ s.working_memory
    unfolding apply_update node_fallback_refusal
    refused-working_memory s = refl

    loop-working_memory :
        (fuel : ℕ) (s end : GraphState Item)
        → correction_loop services fuel s ≡ some end
        → end.working_memory ≡ s.working_memory
    unfolding correction_loop
    loop-working_memory zero s end h = cc
    loop-working_memory (suc fuel) s end h =
        let tried = attempt services s in
        elim (Bool-cases (grounded tried.grounding_report)) [
          | inl good ↦ cc (rw good at h, attempt-working_memory s)
          | inr bad ↦ elim (Bool-cases (leb 3 tried.iteration_count)) [
            | inl over ↦
                let last = rw (bad, over) at h in
                cc (last, refused-working_memory tried, attempt-working_memory s)
            | inr left ↦
                loop-working_memory fuel tried end (rw (bad, left) at h) ∙ attempt-working_memory s
          ]
        ]

    -- The harvester counts the turn in its update, but the reducer drops the count. From a state
    -- with a memory that holds something and is marked neither as pruned nor as replacing, the
    -- synthesis with its corrections, the harvester and the cleanup end, and leave the turn count
    -- that they began with.
    pub turn_count_stays :
        (s : GraphState Item)
        → is_blank s.working_memory ≡ false
        → (s.working_memory.pruned || s.working_memory.replace) ≡ false
        → (s' : GraphState Item) × (answer_and_close services 3 s ≡ some s')
          × (s'.working_memory.turn_count ≡ some (get_or 0 s.working_memory.turn_count))
    unfolding answer_and_close
    turn_count_stays s h k =
        let (end, returns, answered, more, bound) =
          correction_loop_total services 3 s (omega arith) (omega arith) in
        let same = loop-working_memory 3 s end returns in
        (
          egress end,
          rw returns,
          egress-turn_count end (rw same h) (rw same k)
              ∙ ap (λ (m : Memory). some (get_or 0 m.turn_count)) same,
        )
