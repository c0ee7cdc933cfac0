-- ===== src/Graph/Routing.antt =====
-- The runner's loop against the conditional edge of the compiled graph.
use cognitive_rag_system.Prelude.{
  ℕ, suc, true, false, ◌≡◌, refl, Option, none, some, leb, ltb, arith, Bool-cases, inl, inr,
}
use cognitive_rag_system.Graph.Turn.{GraphState}
use cognitive_rag_system.Graph.Validator.{node_fallback_refusal}
use cognitive_rag_system.Graph.Runner.{
  Node, Services, grounded, route_validation, apply_update, attempt, correction_loop,
}

module _ {Item : Type 0} (services : Services Item) where
  -- What the graph does from the node that its edge names, with the rounds that are left.
  abbrev pub follow : ℕ → GraphState Item → Node → Option (GraphState Item)
  follow fuel s Node.state_harvester = some s
  follow fuel s Node.fallback_refusal = some (apply_update s (node_fallback_refusal s))
  follow fuel s Node.synthesizer = correction_loop services fuel s
  follow fuel s _ = none

  -- A round of the runner's loop goes where the edge `route_validation` of the graph leads from the
  -- state after the validator.
  pub correction_loop-follow :
      (fuel : ℕ) (s : GraphState Item)
      → correction_loop services (suc fuel) s
        ≡ follow fuel (attempt services s) (route_validation (attempt services s))
  unfolding correction_loop route_validation
  correction_loop-follow fuel s =
      let tried = attempt services s in
      elim (Bool-cases (grounded tried.grounding_report)) [
        | inl ok ↦ rw ok refl
        | inr bad ↦ elim (Bool-cases (ltb tried.iteration_count 3)) [
          | inl left ↦ rw (bad, left, lt_not_le tried.iteration_count left) refl
          | inr spent ↦ rw (bad, spent, le_of_not_lt tried.iteration_count spent) refl
        ]
      ]
    where
      lt_not_le : (n : ℕ) → ltb n 3 ≡ true → leb 3 n ≡ false
      lt_not_le n h = ground arith

      le_of_not_lt : (n : ℕ) → ltb n 3 ≡ false → leb 3 n ≡ true
      le_of_not_lt n h = ground arith
