-- ===== src/Ranking/Reranker.antt =====
-- reranker.py, `CrossEncoderReranker.rerank`.
use cognitive_rag_system.Prelude.{ℕ, Option, none, some, List, [], ◌∷◌, map, take, get_or, Bool}
use cognitive_rag_system.Prelude.Sort.{sort_by}
use cognitive_rag_system.Text.{Text}
use cognitive_rag_system.Ranking.Scores.{Scores}

module _ (scores : Scores) where
  open scores use {Score, le, zero}

  pub record Chunk : Type 0 where
    pub document_id : Text
    pub content : Text
    pub vector_score : Option Score
    pub rerank_score : Option Score

  -- `x.get("vector_score", 0.0)`
  unfoldable pub vector_score_of : Chunk → Score
  vector_score_of c = get_or zero c.vector_score

  -- Descending order: the higher score first, equal ones as they were.
  unfoldable pub before_by_vector : Chunk → Chunk → Bool
  before_by_vector a b = le (vector_score_of b) (vector_score_of a)

  unfoldable pub before_by_rerank : Chunk → Chunk → Bool
  before_by_rerank a b = le (get_or zero b.rerank_score) (get_or zero a.rerank_score)

  unfoldable pub keep_vector_score : Chunk → Chunk
  keep_vector_score c = record c { rerank_score = some (vector_score_of c) }

  unfoldable pub score_pair : (Text → Text → Score) → Text → Chunk → Chunk
  score_pair predict query c = record c { rerank_score = some (predict query c.content) }

  -- `model` is the cross encoder, where it could be loaded, by its score of a pair.
  unfoldable pub rerank : Option (Text → Text → Score) → Text → List Chunk → ℕ → List Chunk
  rerank model query [] top_n = []
  rerank none query (c ∷ cs) top_n =
      take top_n (map keep_vector_score (sort_by before_by_vector (c ∷ cs)))
  rerank (some predict) query (c ∷ cs) top_n =
      take top_n (sort_by before_by_rerank (map (score_pair predict query) (c ∷ cs)))
