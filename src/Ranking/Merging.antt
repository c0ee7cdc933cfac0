-- ===== src/Ranking/Merging.antt =====
-- What the list of sources accounts for, and the bounds of the confidence.
use cognitive_rag_system.Prelude.{
  ℕ, suc, ◌+◌, Bool, true, false, not, ◌&&◌, ◌==◌, ◌≡◌, refl, String, Option, none, some, List, [],
  ◌∷◌, length, any, arith, Bool-cases, inl, inr,
}
use cognitive_rag_system.Prelude.Dict.{Dict, lookup, insert}
use cognitive_rag_system.Prelude.Sort.{insert_by, sort_by, IsSorted, sort_by-IsSorted}
use cognitive_rag_system.Text.{Text, codes, lower, contains}
use cognitive_rag_system.Ranking.Scores.{Scores}
use cognitive_rag_system.Ranking.Sources.{
  Source, Deduped, source_key, first_seen, is_higher, seen_again, merged, collect, values,
  before_source, deduplicate_sources, clamp, validate_grounding, refusal_phrases,
}

module _ (scores : Scores) where
  open scores use {Score, le, zero, half, one, total, trans, half_le}

  -- The number of raw sources that a list of merged ones accounts for.
  abbrev pub chunk_total : List (Deduped scores) → ℕ
  chunk_total [] = 0
  chunk_total (d ∷ ds) = d.chunk_count + chunk_total ds

  abbrev count_of : Option (Deduped scores) → ℕ
  count_of none = 0
  count_of (some d) = d.chunk_count

  chunk_total-insert :
      (key : String) (new : Deduped scores) (deduped : Dict (Deduped scores))
      → chunk_total (values scores (insert key new deduped)) + count_of (lookup key deduped)
        ≡ new.chunk_count + chunk_total (values scores deduped)
  unfolding lookup insert
  chunk_total-insert key new [] = omega arith
  chunk_total-insert key new ((k, d) ∷ deduped) = elim (Bool-cases (k == key)) [
    | inl same ↦ rw same (omega arith)
    | inr other ↦ rw other (omega (arith, chunk_total-insert key new deduped))
  ]

  merged-count :
      (s : Source scores) (found : Option (Deduped scores))
      → (merged scores s found).chunk_count ≡ suc (count_of found)
  unfolding merged first_seen seen_again
  merged-count s none = refl
  merged-count s (some d) = refl

  chunk_total-collect :
      (sources : List (Source scores)) (deduped : Dict (Deduped scores))
      → chunk_total (values scores (collect scores sources deduped))
        ≡ length sources + chunk_total (values scores deduped)
  unfolding collect
  chunk_total-collect [] deduped = omega arith
  chunk_total-collect (s ∷ sources) deduped = omega (
    arith,
    chunk_total-collect sources (
        insert (source_key scores s) (merged scores s (lookup (source_key scores s) deduped))
          deduped),
    chunk_total-insert (source_key scores s)
        (merged scores s (lookup (source_key scores s) deduped)) deduped,
    merged-count s (lookup (source_key scores s) deduped),
  )

  chunk_total-insert_by :
      (d : Deduped scores) (ds : List (Deduped scores))
      → chunk_total (insert_by (before_source scores) d ds) ≡ d.chunk_count + chunk_total ds
  unfolding insert_by
  chunk_total-insert_by d [] = omega arith
  chunk_total-insert_by d (e ∷ ds) = elim (Bool-cases (before_source scores d e)) [
    | inl before ↦ rw before (omega arith)
    | inr behind ↦ rw behind (omega (arith, chunk_total-insert_by d ds))
  ]

  chunk_total-sort_by :
      (ds : List (Deduped scores))
      → chunk_total (sort_by (before_source scores) ds) ≡ chunk_total ds
  unfolding sort_by
  chunk_total-sort_by [] = refl
  chunk_total-sort_by (d ∷ ds) =
      omega
        (arith, chunk_total-insert_by d (sort_by (before_source scores) ds), chunk_total-sort_by ds)

  -- The merged sources come in descending order of their scores, and their chunk counts add up to
  -- the number of the raw sources: none is lost or counted twice.
  pub deduplicate_sources_lem :
      (raw_sources : List (Source scores))
      → IsSorted (before_source scores) (deduplicate_sources scores raw_sources)
        × (chunk_total (deduplicate_sources scores raw_sources) ≡ length raw_sources)
  unfolding deduplicate_sources before_source
  deduplicate_sources_lem raw_sources = (
    sort_by-IsSorted (before_source scores) (λ a b. total b.relevance_score a.relevance_score)
        (λ a b c h k. trans c.relevance_score b.relevance_score a.relevance_score k h)
        (values scores (collect scores raw_sources [])),
    omega (
      arith,
      chunk_total-sort_by (values scores (collect scores raw_sources [])),
      chunk_total-collect raw_sources [],
    ),
  )

  le_refl : (x : Score) → le x x ≡ true
  le_refl x = elim (Bool-cases (le x x)) [ inl level ↦ level | inr apart ↦ total x x apart ]

  clamp_bounds : (s : Score) → (le half (clamp scores s) ≡ true) × (le (clamp scores s) one ≡ true)
  unfolding clamp is_higher
  clamp_bounds s = (
    ground (arith, le_refl half, le_refl one, half_le),
    ground (arith, le_refl half, le_refl one, half_le),
  )

  -- The text of an answer that says that it found nothing.
  abbrev pub refuses : Text → Bool
  refuses answer = any (λ (phrase : String). contains (lower answer) (codes phrase)) refusal_phrases

  abbrev pub has_sources : List (Deduped scores) → Bool
  has_sources [] = false
  has_sources (top ∷ sources) = true

  -- The confidence of a grounded answer is from one half to one, that of another is zero.
  unfoldable pub IsConfidence : Bool → Score → Type 0
  IsConfidence true c = (le half c ≡ true) × (le c one ≡ true)
  IsConfidence false c = c ≡ zero

  -- An answer is grounded exactly if there are sources and it holds no refusal phrase; the
  -- confidence of a grounded answer is from one half to one, that of any other is zero.
  pub validate_grounding_lem :
      (answer : Text) (sources : List (Deduped scores))
      → ((validate_grounding scores answer sources).0
          ≡ (has_sources sources && not (refuses answer)))
        × IsConfidence
            (validate_grounding scores answer sources).0
            (validate_grounding scores answer sources).1
  unfolding validate_grounding IsConfidence
  validate_grounding_lem answer [] = (refl, refl)
  validate_grounding_lem answer (top ∷ sources) = elim (Bool-cases (refuses answer)) [
    | inl refused ↦ rw refused (refl, refl)
    | inr answered ↦ rw answered (refl, clamp_bounds top.relevance_score)
  ]
