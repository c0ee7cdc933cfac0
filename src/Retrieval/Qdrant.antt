-- ===== src/Retrieval/Qdrant.antt =====
-- The filters that the code hands to the vector store, and what it relies on of the store.
use cognitive_rag_system.Prelude.{
  Bool, true, false, not, ◌&&◌, ◌||◌, ◌≡◌, refl, String, List, [], ◌∷◌, any, ◌==◌,
}

-- `MatchValue` and `MatchAny`
pub data Match : Type 0 where
  value : String → Match
  any_of : List String → Match

-- `FieldCondition` and `Filter` of qdrant_client.models; a part that is `None` is `nil`.
mutual
  pub data Condition : Type 0 where
    field : (key : String) → Match → Condition
    nested : Filter → Condition

  pub data Filter : Type 0 where
    filter : (must must_not should : Conditions) → Filter

  pub data Conditions : Type 0 where
    nil : Conditions
    cons : Condition → Conditions → Conditions

-- What the documentation of Qdrant says of filtering: a point passes if it meets every `must`
-- condition, no `must_not` condition, and, where `should` is given, at least one of those.
pub record Engine : Type 1 where
  pub Payload : Type 0
  pub has : Payload → String → String → Bool
  pub meets : Condition → Payload → Bool
  pub meets_all : Conditions → Payload → Bool
  pub meets_any : Conditions → Payload → Bool
  pub meets_should : Conditions → Payload → Bool
  pub matches : Filter → Payload → Bool
  pub meets-value : (k v : String) (p : Payload) → meets (field k (value v)) p ≡ has p k v
  pub meets-any_of :
      (k : String) (vs : List String) (p : Payload)
      → meets (field k (any_of vs)) p ≡ any (has p k) vs
  pub meets-nested : (f : Filter) (p : Payload) → meets (nested f) p ≡ matches f p
  pub meets_all-nil : (p : Payload) → meets_all nil p ≡ true
  pub meets_all-cons :
      (c : Condition) (cs : Conditions) (p : Payload)
      → meets_all (cons c cs) p ≡ (meets c p && meets_all cs p)
  pub meets_any-nil : (p : Payload) → meets_any nil p ≡ false
  pub meets_any-cons :
      (c : Condition) (cs : Conditions) (p : Payload)
      → meets_any (cons c cs) p ≡ (meets c p || meets_any cs p)
  pub meets_should-nil : (p : Payload) → meets_should nil p ≡ true
  pub meets_should-cons :
      (c : Condition) (cs : Conditions) (p : Payload)
      → meets_should (cons c cs) p ≡ meets_any (cons c cs) p
  pub matches-filter :
      (m n s : Conditions) (p : Payload)
      → matches (filter m n s) p ≡ (meets_all m p && not (meets_any n p) && meets_should s p)

-- An engine over payloads that are lists of key and value, for the witnesses.
abbrev Fields : Type 0
Fields = List (String × String)

abbrev has_field : Fields → String → String → Bool
has_field [] k v = false
has_field ((j, w) ∷ fs) k v = (j == k) && (w == v) || has_field fs k v

abbrev match_field : Match → Fields → String → Bool
match_field (value v) p k = has_field p k v
match_field (any_of vs) p k = any (has_field p k) vs

abbrev should_of : Conditions → Bool → Bool
should_of nil b = true
should_of (cons c cs) b = b

abbrev mutual
  run : Condition → Fields → Bool
  run (field k m) p = match_field m p k
  run (nested f) p = run_filter f p

  run_filter : Filter → Fields → Bool
  run_filter (filter m n s) p = run_all m p && not (run_any n p) && should_of s (run_any s p)

  run_all : Conditions → Fields → Bool
  run_all nil p = true
  run_all (cons c cs) p = run c p && run_all cs p

  run_any : Conditions → Fields → Bool
  run_any nil p = false
  run_any (cons c cs) p = run c p || run_any cs p

abbrev pub list_engine : Engine
list_engine = record {
  Payload = Fields;
  has = has_field;
  meets = run;
  meets_all = run_all;
  meets_any = run_any;
  meets_should = λ s p. should_of s (run_any s p);
  matches = run_filter;
  meets-value = λ k v p. refl;
  meets-any_of = λ k vs p. refl;
  meets-nested = λ f p. refl;
  meets_all-nil = λ p. refl;
  meets_all-cons = λ c cs p. refl;
  meets_any-nil = λ p. refl;
  meets_any-cons = λ c cs p. refl;
  meets_should-nil = λ p. refl;
  meets_should-cons = λ c cs p. refl;
  matches-filter = λ m n s p. refl;
}
