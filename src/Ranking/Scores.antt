-- ===== src/Ranking/Scores.antt =====
-- Scores: the floating-point numbers of the program, of which it uses the order and three values.
use cognitive_rag_system.Prelude.{Bool, true, false, ◌≡◌}

pub record Scores : Type 1 where
  pub Score : Type 0
  pub le : Score → Score → Bool
  pub zero : Score
  pub half : Score
  pub one : Score
  pub total : (x y : Score) → le x y ≡ false → le y x ≡ true
  pub trans : (x y z : Score) → le x y ≡ true → le y z ≡ true → le x z ≡ true
  pub half_le : le half one ≡ true
