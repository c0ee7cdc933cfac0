-- ===== src/Ranking/Examples.antt =====
-- Sources and chunks whose scores are hundredths.
use cognitive_rag_system.Prelude.{
  ℕ, true, false, not, ◌&&◌, ◌≡◌, refl, String, none, some, List, [], ◌∷◌, map, leb, arith,
}
use cognitive_rag_system.Prelude.Dict.{lookup, insert}
use cognitive_rag_system.Prelude.Sort.{insert_by, sort_by, IsSorted}
use cognitive_rag_system.Text.{codes}
use cognitive_rag_system.Ranking.Scores.{Scores}
use cognitive_rag_system.Ranking.Reranker.{
  Chunk, vector_score_of, before_by_vector, before_by_rerank, keep_vector_score, score_pair, rerank,
}
use cognitive_rag_system.Ranking.Sources.{
  Source, Deduped, source_key, first_seen, is_higher, seen_again, merged, collect, before_source,
  deduplicate_sources, validate_grounding,
}
use cognitive_rag_system.Ranking.Order.{IsTopOf, scored, rerank-IsTopOf}
use cognitive_rag_system.Ranking.Merging.{
  chunk_total, has_sources, refuses, IsConfidence, deduplicate_sources_lem, validate_grounding_lem,
}

program : Unit {0}
unfolding lookup insert insert_by sort_by vector_score_of before_by_vector before_by_rerank
    keep_vector_score score_pair rerank source_key first_seen is_higher seen_again merged collect
    before_source deduplicate_sources
program = tt

leb_total : (x y : ℕ) → leb x y ≡ false → leb y x ≡ true
leb_total x y h = ground arith

leb_trans : (x y z : ℕ) → leb x y ≡ true → leb y z ≡ true → leb x z ≡ true
leb_trans x y z h k = ground arith

abbrev hundredths : Scores
hundredths = record {
  Score = ℕ;
  le = leb;
  zero = 0;
  half = 50;
  one = 100;
  total = leb_total;
  trans = leb_trans;
  half_le = refl;
}

abbrev chunk : String → ℕ → Chunk hundredths
chunk content score = record {
  document_id = codes "d1";
  content = codes content;
  vector_score = some score;
  rerank_score = none;
}

abbrev chunks : List (Chunk hundredths)
chunks = chunk "a" 20 ∷ chunk "b" 90 ∷ chunk "c" 60 ∷ []

best_two :
    map (λ (c : Chunk hundredths). c.content) (rerank hundredths none (codes "q") chunks 2)
    ≡ codes "b" ∷ codes "c" ∷ []
unfolding program
best_two = refl

rerank-IsTopOf_example :
    IsTopOf
      (before_by_rerank hundredths)
      2
      (rerank hundredths none (codes "q") chunks 2)
      (map (scored hundredths none (codes "q")) chunks)
rerank-IsTopOf_example = rerank-IsTopOf hundredths none (codes "q") chunks 2

abbrev source : String → ℕ → Source hundredths
source document_id score = record {
  document_id = some document_id;
  filename = "report.pdf";
  details = [];
  relevance_score = some score;
}

abbrev raw_sources : List (Source hundredths)
raw_sources = source "d1" 40 ∷ source "d2" 70 ∷ source "d1" 80 ∷ []

merged_scores :
    map (λ (d : Deduped hundredths). d.relevance_score) (deduplicate_sources hundredths raw_sources)
    ≡ 80 ∷ 70 ∷ []
unfolding program
merged_scores = refl

deduplicate_sources_lem_example :
    IsSorted (before_source hundredths) (deduplicate_sources hundredths raw_sources)
    × (chunk_total hundredths (deduplicate_sources hundredths raw_sources) ≡ 3)
deduplicate_sources_lem_example = deduplicate_sources_lem hundredths raw_sources

validate_grounding_lem_example :
    ((validate_grounding hundredths
        (codes "It is 4.")
        (deduplicate_sources hundredths raw_sources)).0
      ≡ (has_sources hundredths (deduplicate_sources hundredths raw_sources)
          && not (refuses hundredths (codes "It is 4."))))
    × IsConfidence hundredths
        (validate_grounding hundredths
          (codes "It is 4.")
          (deduplicate_sources hundredths raw_sources)).0
        (validate_grounding hundredths
          (codes "It is 4.")
          (deduplicate_sources hundredths raw_sources)).1
validate_grounding_lem_example =
    validate_grounding_lem hundredths (codes "It is 4.")
      (deduplicate_sources hundredths raw_sources)
