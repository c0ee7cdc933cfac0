-- ===== src/Ranking/Order.antt =====
-- What the reranker and the list of sources promise, for every order of scores.
use mathlib.Core.List.{Perm}
use mathlib.Core.List.Perm
use Prim.Native.Nat.{min}
use cognitive_rag_system.Prelude.{
  ℕ, Bool, ◌≡◌, refl, Option, none, some, List, [], ◌∷◌, map, take, length, length-take-min,
  take-nil, get_or, ap, ◌∙◌, arith, Bool-cases, inl, inr,
}
use cognitive_rag_system.Prelude.Sort.{
  insert_by, sort_by, IsSorted, sort_by-perm, sort_by-IsSorted, length-sort_by,
}
use cognitive_rag_system.Text.{Text}
use cognitive_rag_system.Ranking.Scores.{Scores}
use cognitive_rag_system.Ranking.Reranker.{
  Chunk, before_by_vector, before_by_rerank, keep_vector_score, score_pair, rerank,
}

-- The first `n` of a list in the order of `before`: `n` of its members, or all of them where it has
-- fewer, and with those that are left out they are the whole list in order.
pub record IsTopOf {A : Type 0} (before : A → A → Bool) (n : ℕ) (kept all : List A) : Type 0 where
  pub ranking : List A
  pub permuted : Perm ranking all
  pub ordered : IsSorted before ranking
  pub first : kept ≡ take n ranking
  pub size : length kept ≡ min n (length all)

module _ {A : Type 0} (f : A → A) (le le' : A → A → Bool)
    (same : (x y : A) → le' (f x) (f y) ≡ le x y) where
  map-insert_by : (x : A) (xs : List A) → map f (insert_by le x xs) ≡ insert_by le' (f x) (map f xs)
  unfolding insert_by
  map-insert_by x [] = refl
  map-insert_by x (y ∷ ys) = elim (Bool-cases (le x y)) [
    | inl before ↦ rw (same x y, before) refl
    | inr behind ↦ rw (same x y, behind, map-insert_by x ys) refl
  ]

  map-sort_by : (xs : List A) → map f (sort_by le xs) ≡ sort_by le' (map f xs)
  unfolding sort_by
  map-sort_by [] = refl
  map-sort_by (x ∷ xs) = rw (map-insert_by x (sort_by le xs), map-sort_by xs) refl

module _ (scores : Scores) where
  open scores use {Score, le, zero, half, one, total, trans, half_le}

  -- What a chunk is given as its score.
  abbrev pub scored : Option (Text → Text → Score) → Text → Chunk scores → Chunk scores
  scored none query = keep_vector_score scores
  scored (some predict) query = score_pair scores predict query

  take_sorted :
      (all : List (Chunk scores)) (n : ℕ)
      → IsTopOf (before_by_rerank scores) n (take n (sort_by (before_by_rerank scores) all)) all
  unfolding before_by_rerank
  take_sorted all n = record {
    ranking = sort_by (before_by_rerank scores) all;
    permuted = sort_by-perm (before_by_rerank scores) all;
    ordered =
        sort_by-IsSorted (before_by_rerank scores)
          (λ a b. total (get_or zero b.rerank_score) (get_or zero a.rerank_score))
          (λ a b c h k.
            trans (get_or zero c.rerank_score) (get_or zero b.rerank_score)
              (get_or zero a.rerank_score) k h)
          all;
    first = refl;
    size =
        length-take-min n (sort_by (before_by_rerank scores) all)
        ∙ ap (min n) (length-sort_by (before_by_rerank scores) all);
  }

  empty_top : (n : ℕ) → IsTopOf (before_by_rerank scores) n [] []
  empty_top n = record {
    ranking = [];
    permuted = Perm.refl [];
    ordered = tt;
    first = take-nil n;
    size = omega arith;
  }

  keep-before :
      (a b : Chunk scores)
      → before_by_rerank scores (keep_vector_score scores a) (keep_vector_score scores b)
        ≡ before_by_vector scores a b
  unfolding before_by_rerank before_by_vector keep_vector_score
  keep-before a b = refl

  -- The reranker returns `top_n` of the chunks, or all where there are fewer, each with its score by
  -- the model, or with its vector score where there is no model: they are the first ones of some
  -- arrangement of all the chunks in descending order of those scores.
  pub rerank-IsTopOf :
      (model : Option (Text → Text → Score)) (query : Text) (chunks : List (Chunk scores))
      (top_n : ℕ)
      → IsTopOf
          (before_by_rerank scores)
          top_n
          (rerank scores model query chunks top_n)
          (map (scored model query) chunks)
  unfolding rerank
  rerank-IsTopOf model query [] top_n = empty_top top_n
  rerank-IsTopOf none query (c ∷ cs) top_n =
      rw
        (map-sort_by (keep_vector_score scores) (before_by_vector scores) (before_by_rerank scores)
          keep-before (c ∷ cs))
        (take_sorted (map (keep_vector_score scores) (c ∷ cs)) top_n)
  rerank-IsTopOf (some predict) query (c ∷ cs) top_n =
      take_sorted (map (score_pair scores predict query) (c ∷ cs)) top_n
