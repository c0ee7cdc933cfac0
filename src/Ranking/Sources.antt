-- ===== src/Ranking/Sources.antt =====
-- grounding_validator.py: `deduplicate_sources` and `validate_grounding`.
use cognitive_rag_system.Prelude.{
  ℕ, suc, Bool, true, false, not, String, Option, none, some, List, [], ◌∷◌, any, truthy, get_or,
  if◌then◌else◌,
}
use cognitive_rag_system.Prelude.Dict.{Dict, lookup, insert}
use cognitive_rag_system.Prelude.Sort.{sort_by}
use cognitive_rag_system.Text.{Text, codes, lower, contains}
use cognitive_rag_system.Ranking.Scores.{Scores}

-- The phrases with which an answer says that it found nothing.
unfoldable pub refusal_phrases : List String
refusal_phrases =
    "the system does not contain records matching"
    ∷ "could not find any records in the knowledge base" ∷ []

module _ (scores : Scores) where
  open scores use {Score, le, zero, half, one}

  -- A raw source; `details` are the fields that are copied as they are.
  pub record Source : Type 0 where
    pub document_id : Option String
    pub filename : String
    pub details : Text
    pub relevance_score : Option Score

  pub record Deduped : Type 0 where
    pub document_id : Option String
    pub filename : String
    pub details : Text
    pub relevance_score : Score
    pub chunk_count : ℕ

  -- `s.get("document_id") or s.get("filename")`
  unfoldable pub source_key : Source → String
  source_key s = if truthy s.document_id then get_or "" s.document_id else s.filename

  unfoldable pub first_seen : Source → Deduped
  first_seen s = record {
    document_id = s.document_id;
    filename = s.filename;
    details = s.details;
    relevance_score = get_or zero s.relevance_score;
    chunk_count = 1;
  }

  -- `a > b`
  unfoldable pub is_higher : Score → Score → Bool
  is_higher a b = not (le a b)

  unfoldable pub seen_again : Source → Deduped → Deduped
  seen_again s d = record d {
    relevance_score =
        if is_higher (get_or zero s.relevance_score) d.relevance_score
        then get_or zero s.relevance_score
        else d.relevance_score;
    chunk_count = suc d.chunk_count;
  }

  unfoldable pub merged : Source → Option Deduped → Deduped
  merged s none = first_seen s
  merged s (some d) = seen_again s d

  -- The loop over the sources.
  unfoldable pub collect : List Source → Dict Deduped → Dict Deduped
  collect [] deduped = deduped
  collect (s ∷ sources) deduped =
      collect sources (insert (source_key s) (merged s (lookup (source_key s) deduped)) deduped)

  abbrev pub values : Dict Deduped → List Deduped
  values [] = []
  values ((k, d) ∷ rest) = d ∷ values rest

  unfoldable pub before_source : Deduped → Deduped → Bool
  before_source a b = le b.relevance_score a.relevance_score

  unfoldable pub deduplicate_sources : List Source → List Deduped
  deduplicate_sources raw_sources = sort_by before_source (values (collect raw_sources []))

  -- `min(max(top_score, 0.5), 1.0)`
  unfoldable pub clamp : Score → Score
  clamp s =
      let raised = if is_higher half s then half else s in
      if is_higher raised one then one else raised

  unfoldable pub validate_grounding : Text → List Deduped → Bool × Score
  validate_grounding answer [] = (false, zero)
  validate_grounding answer (top ∷ sources) =
      if any (λ (phrase : String). contains (lower answer) (codes phrase)) refusal_phrases
      then (false, zero)
      else (true, clamp top.relevance_score)
