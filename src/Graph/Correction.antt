-- ===== src/Graph/Correction.antt =====
-- The correction loop ends within three rounds, and a turn ends with a grounded answer or the
-- refusal.
use mathlib.Core.Bool.{and-false}
use cognitive_rag_system.Prelude.{
  ℕ, zero, suc, ◌+◌, ◌≤◌, ◌<◌, Bool, true, false, ◌&&◌, ◌≡◌, refl, Option, none, some, [], ◌⊎◌, inl,
  inr, leb, arith, Bool-cases,
}
use cognitive_rag_system.Graph.State.{
  RoutingDecision, sql, document, identity, conversational, system_meta, replace_list,
}
use cognitive_rag_system.Graph.Turn.{GraphState}
use cognitive_rag_system.Graph.Validator.{
  refusal, node_validator, node_fallback_refusal, node_synthesizer,
}
use cognitive_rag_system.Graph.Egress.{node_state_harvester, node_cleanup_ephemeral_state}
use cognitive_rag_system.Graph.Runner.{
  Services, grounded, apply_update, attempt, correction_loop, ingress, egress, answer_and_close,
  branch, invoke,
}

module _ {Item : Type 0} where
  -- The answer passed the validator, or it is the refusal.
  abbrev pub IsAnswered : GraphState Item → Type 0
  IsAnswered s = (grounded s.grounding_report ≡ true) ⊎ (s.synthesized_response ≡ refusal)

  -- Nothing of the turn's retrieval is left.
  pub record IsCleared (s : GraphState Item) : Type 0 where
    pub chunks : s.retrieved_chunks ≡ []
    pub rows : s.sql_result_rows ≡ []
    pub context : s.retrieved_context ≡ []
    pub query : s.generated_sql ≡ none
    pub correction : s.correction_instruction ≡ none

  response-refused :
      (s : GraphState Item)
      → (apply_update s (node_fallback_refusal s)).synthesized_response ≡ refusal
  unfolding apply_update node_fallback_refusal
  response-refused s = refl

  iteration_count-refused :
      (s : GraphState Item)
      → (apply_update s (node_fallback_refusal s)).iteration_count ≡ s.iteration_count
  unfolding apply_update node_fallback_refusal
  iteration_count-refused s = refl

  egress-IsCleared : (s : GraphState Item) → IsCleared (egress s)
  unfolding egress apply_update node_state_harvester node_cleanup_ephemeral_state replace_list
  egress-IsCleared s = record {
    chunks = refl;
    rows = refl;
    context = refl;
    query = refl;
    correction = refl;
  }

  egress-IsAnswered : (s : GraphState Item) → IsAnswered s → IsAnswered (egress s)
  unfolding egress apply_update node_state_harvester node_cleanup_ephemeral_state
  egress-IsAnswered s h = h

abbrev pub is_sql : Option RoutingDecision → Bool
is_sql (some sql) = true
is_sql _ = false

leb-false : (a b : ℕ) → leb a b ≡ false → b < a
leb-false a b h = ground arith

module _ {Item : Type 0} (services : Services Item) where
  iteration_count-attempt :
      (s : GraphState Item) → (attempt services s).iteration_count ≡ s.iteration_count + 1
  unfolding attempt apply_update node_validator node_synthesizer
  iteration_count-attempt s = refl

  -- From any state, with fuel for the rounds that the counter leaves, the loop returns; its answer
  -- is grounded or the refusal, and each round has raised the counter by one.
  pub correction_loop_total :
      (fuel : ℕ) (s : GraphState Item)
      → 0 < fuel
      → 3 ≤ fuel + s.iteration_count
      → (s' : GraphState Item) × (correction_loop services fuel s ≡ some s')
        × IsAnswered s'
        × (s.iteration_count < s'.iteration_count)
        × (s'.iteration_count ≤ s.iteration_count + fuel)
  unfolding correction_loop
  correction_loop_total zero s h k = absurd (omega arith)
  correction_loop_total (suc fuel) s h k =
      let tried = attempt services s in
      let counted = iteration_count-attempt s in
      elim (Bool-cases (grounded tried.grounding_report)) [
        | inl ok ↦ (tried, rw ok, inl ok, omega (arith, counted), omega (arith, counted))
        | inr bad ↦ elim (Bool-cases (leb 3 tried.iteration_count)) [
          | inl spent ↦ (
            apply_update tried (node_fallback_refusal tried),
            rw (bad, spent),
            inr (response-refused tried),
            omega (arith, counted, iteration_count-refused tried),
            omega (arith, counted, iteration_count-refused tried),
          )
          | inr left ↦
              let below = leb-false (3) tried.iteration_count left in
              let (end, returns, answered, more, bound) =
                correction_loop_total fuel tried (omega (arith, counted, below))
                  (omega (arith, counted)) in
              (
                end,
                rw (bad, left) returns,
                answered,
                omega (arith, counted),
                omega (arith, counted),
              )
        ]
      ]

  -- How a turn ends: with the generated SQL held back for review, or with an answer and no
  -- retrieval left over.
  abbrev pub IsFinished : Bool → GraphState Item → Type 0
  IsFinished true s = s.sql_approval_status ≡ some "interrupted_for_review"
  IsFinished false s = IsAnswered s × IsCleared s

  answer_and_close_total :
      (s : GraphState Item)
      → (s' : GraphState Item) × (answer_and_close services 3 s ≡ some s') × IsFinished false s'
  unfolding answer_and_close
  answer_and_close_total s =
      let (end, returns, answered, more, bound) =
        correction_loop_total 3 s (omega arith) (omega arith) in
      (egress end, rw returns, (egress-IsAnswered end answered, egress-IsCleared end))

  branch_total :
      (enable interrupt : Bool) (s : GraphState Item) (d : Option RoutingDecision)
      → (s' : GraphState Item) × (branch services enable interrupt 3 s d ≡ some s')
        × IsFinished (enable && interrupt && is_sql d) s'
  unfolding branch
  branch_total true true s (some sql) = (_, refl, refl)
  branch_total true false s (some sql) = answer_and_close_total _
  branch_total false interrupt s (some sql) = answer_and_close_total _
  branch_total enable interrupt s (some document) =
      rw (and-false (enable && interrupt)) (answer_and_close_total _)
  branch_total enable interrupt s (some identity) =
      rw (and-false (enable && interrupt)) (answer_and_close_total _)
  branch_total enable interrupt s (some conversational) =
      rw (and-false (enable && interrupt)) (answer_and_close_total _)
  branch_total enable interrupt s (some system_meta) =
      rw (and-false (enable && interrupt)) (answer_and_close_total _)
  branch_total enable interrupt s none =
      rw (and-false (enable && interrupt)) (answer_and_close_total _)

  -- Three rounds are enough for every turn: whatever the services answer, `invoke` returns. If the
  -- review of SQL is enabled and asked for and the route is SQL, the query is held back; otherwise
  -- the answer is grounded or the refusal, and the retrieved context, the SQL and the correction
  -- are cleared.
  pub invoke_total :
      (enable interrupt : Bool) (s : GraphState Item)
      → (s' : GraphState Item) × (invoke services enable interrupt 3 s ≡ some s')
        × IsFinished (enable && interrupt && is_sql (ingress services s).routing_decision) s'
  unfolding invoke
  invoke_total enable interrupt s =
      branch_total enable interrupt (ingress services s) (ingress services s).routing_decision
