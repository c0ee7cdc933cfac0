-- ===== src/Graph/Validator.antt =====
-- langgraph/nodes.py: the synthesizer's answer, its validation against the context, the refusal.
use Prim.Native.Nat.{max}
use cognitive_rag_system.Prelude.{
  ◌+◌, ◌-◌, Bool, true, false, not, ◌&&◌, Option, none, some, List, [], ◌∷◌, ◌++◌, map, any, length,
  ltb, leb, distinct, if◌then◌else◌,
}
use cognitive_rag_system.Text.{
  Text, codes, lower, strip, text_eq, contains, join, is_digit, is_word,
}
use cognitive_rag_system.Graph.Turn.{Report, GraphState, Update, no_update}

-- The words `\b\d{4,}\b` matches: the maximal runs of word characters that are all digits, of at
-- least four. The accumulator holds the run before the position, backwards.
abbrev all_digits : Text → Bool
all_digits [] = true
all_digits (c ∷ s) = is_digit c && all_digits s

unfoldable pub add_run : Text → List Text → List Text
add_run run runs = if leb 4 (length run) && all_digits run then run ∷ runs else runs

unfoldable pub numbers_from : Text → Text → List Text
numbers_from run [] = add_run run []
numbers_from run (c ∷ s) =
    let inside = numbers_from (run ++ (c ∷ [])) s in
    let outside = add_run run (numbers_from [] s) in if is_word c then inside else outside

-- `re.findall(r"\b\d{4,}\b", answer)`
unfoldable pub numbers : Text → List Text
numbers answer = numbers_from [] answer

abbrev first_nonempty : {Item : Type 0} → List Item → List Item → List Item
first_nonempty [] other = other
first_nonempty (x ∷ xs) other = x ∷ xs

unfoldable pub number_claim : Text → Text
number_claim num = codes "Number '" ++ (num ++ codes "' not present in verified source records.")

-- `if num not in context_str: …`
unfoldable pub check_number : Text → Text → Report → Report
check_number context num r = if contains context num then r else record r {
  is_grounded = false;
  confidence = max 40 (r.confidence - 25);
  unsupported_claims = r.unsupported_claims ++ (number_claim num ∷ []);
}

-- `for num in answer_numbers: …`
unfoldable pub check_numbers : Text → List Text → Report → Report
check_numbers context [] r = r
check_numbers context (num ∷ nums) r = check_numbers context nums (check_number context num r)

-- An answer to an empty context that is long and does not say so.
unfoldable pub is_unsupported : {Item : Type 0} → List Item → Text → Bool
is_unsupported (x ∷ xs) answer = false
is_unsupported [] answer =
    ltb 50 (length answer)
    && not (any (contains (lower answer)) (map codes ("unable" ∷ "cannot" ∷ "no records" ∷ [])))

unfoldable pub first_report : Bool → Report
first_report false = record { is_grounded = true; confidence = 95; unsupported_claims = [] }
first_report true = record {
  is_grounded = false;
  confidence = 20;
  unsupported_claims = codes "Asserted specific data points despite empty retrieval context." ∷ [];
}

unfoldable pub correction_of : Report → Option Text
correction_of r =
    if r.is_grounded
    then none
    else some (
        codes "The previous response contained ungrounded statements: "
        ++ (join (codes "; ") r.unsupported_claims
            ++ codes
                ". Re-generate the response strictly confining all numbers and names to verified context."))

unfoldable pub refusal : Text
refusal =
    codes
      "I was unable to verify the retrieved records with sufficient confidence to formulate a grounded response. Please consult the source database or enterprise documents directly."

module _ {Item : Type 0} where
  -- `retrieved_chunks or sql_result_rows or retrieved_context or []`
  unfoldable pub retrieved : GraphState Item → List Item
  retrieved s =
      first_nonempty s.retrieved_chunks (first_nonempty s.sql_result_rows s.retrieved_context)

  -- `render` is `str` of the retrieved items.
  unfoldable pub grounding_of : (List Item → Text) → GraphState Item → Report
  grounding_of render s =
      check_numbers (render (retrieved s)) (distinct text_eq (numbers s.synthesized_response))
        (first_report (is_unsupported (retrieved s) s.synthesized_response))

  unfoldable pub node_validator : (List Item → Text) → GraphState Item → Update Item
  node_validator render s =
      let report = grounding_of render s in
      record no_update {
        iteration_count = some (s.iteration_count + 1);
        grounding_report = some report;
        correction_instruction = some (correction_of report);
      }

  unfoldable pub node_fallback_refusal : GraphState Item → Update Item
  node_fallback_refusal s = record no_update {
    synthesized_response = some refusal;
    grounding_report = some (record {
      is_grounded = false;
      confidence = 0;
      unsupported_claims = codes "Maximum grounding validation attempts exceeded." ∷ [];
    });
  }

  -- `generate` is the prompt built from the state, answered by the language model.
  unfoldable pub node_synthesizer : (GraphState Item → Text) → GraphState Item → Update Item
  node_synthesizer generate s = record no_update {
    synthesized_response = some (strip (generate s));
  }
