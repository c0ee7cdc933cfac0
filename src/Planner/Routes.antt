-- ===== src/Planner/Routes.antt =====
-- What a plan promises to the nodes that follow it.
use cognitive_rag_system.Prelude.{
  Bool, true, false, not, ◌&&◌, ◌||◌, ◌≡◌, refl, String, List, [], ◌∷◌, arith, if◌then◌else◌,
}
use cognitive_rag_system.Text.{Text, strip, lower}
use cognitive_rag_system.Planner.Domain.{QueryPlan, IntentCategory}
use cognitive_rag_system.Planner.Plan.{
  Mode, general, sql, database, meta, rag, auto, Signals, signals_of, is_sql_intent, talk, retrieve,
  all_scopes, system_plan, document_plan, auto_plan, mode_plan, plan_for, analyze_and_plan,
}

if-cases {ℓ κ} :
    {A : Type ℓ} (P : A → Type κ) (b : Bool) {x y : A} → P x → P y → P (if b then x else y)
if-cases P true p q = p
if-cases P false p q = q

-- The categories that are answered without retrieval.
unfoldable pub is_talk : IntentCategory → Bool
is_talk IntentCategory.session_identity = true
is_talk IntentCategory.conversational = true
is_talk IntentCategory.general_knowledge = true
is_talk _ = false

unfoldable pub is_structured : IntentCategory → Bool
is_structured IntentCategory.structured_sql = true
is_structured _ = false

abbrev pub is_none : List String → Bool
is_none [] = true
is_none (x ∷ xs) = false

-- A plan in which the flags, the category and the scopes agree.
pub record IsCoherent (query : Text) (plan : QueryPlan) : Type 0 where
  pub structured : plan.is_structured_sql ≡ is_structured plan.intent_category
  pub conversational : plan.is_conversational_only ≡ is_talk plan.intent_category
  pub scopes : is_none plan.target_scopes ≡ plan.is_conversational_only
  pub queries : plan.sub_queries ≡ strip query ∷ []

module _ (query : Text) where
  abbrev q : Text
  q = strip query

  talk-IsCoherent :
      (intent : IntentCategory) → is_talk intent ≡ true → IsCoherent query (talk q intent)
  unfolding is_talk is_structured talk
  talk-IsCoherent IntentCategory.session_identity h = record {
    structured = refl;
    conversational = refl;
    scopes = refl;
    queries = refl;
  }
  talk-IsCoherent IntentCategory.conversational h = record {
    structured = refl;
    conversational = refl;
    scopes = refl;
    queries = refl;
  }
  talk-IsCoherent IntentCategory.general_knowledge h = record {
    structured = refl;
    conversational = refl;
    scopes = refl;
    queries = refl;
  }
  talk-IsCoherent IntentCategory.system_meta h = cc
  talk-IsCoherent IntentCategory.structured_sql h = cc
  talk-IsCoherent IntentCategory.document_rag h = cc

  sql-IsCoherent :
      (scope : String) (more : List String)
      → IsCoherent query (retrieve q (scope ∷ more) IntentCategory.structured_sql true)
  unfolding is_talk is_structured retrieve
  sql-IsCoherent scope more = record {
    structured = refl;
    conversational = refl;
    scopes = refl;
    queries = refl;
  }

  sql_all-IsCoherent : IsCoherent query (retrieve q all_scopes IntentCategory.structured_sql true)
  unfolding all_scopes
  sql_all-IsCoherent = sql-IsCoherent "personal" ("department" ∷ "enterprise" ∷ [])

  document_plan-IsCoherent : IsCoherent query (document_plan q)
  unfolding is_talk is_structured retrieve document_plan all_scopes
  document_plan-IsCoherent = record {
    structured = refl;
    conversational = refl;
    scopes = refl;
    queries = refl;
  }

  system_plan-IsCoherent : IsCoherent query (system_plan q)
  unfolding is_talk is_structured retrieve system_plan
  system_plan-IsCoherent = record {
    structured = refl;
    conversational = refl;
    scopes = refl;
    queries = refl;
  }

  auto_plan-IsCoherent : (s : Signals) (docs : Bool) → IsCoherent query (auto_plan s q docs)
  unfolding auto_plan is_talk
  auto_plan-IsCoherent s docs =
      let document = document_plan-IsCoherent in
      let conversational = talk-IsCoherent IntentCategory.conversational refl in
      let general = talk-IsCoherent IntentCategory.general_knowledge refl in
      if-cases (IsCoherent query)
        (not (is_sql_intent s) && not s.is_doc_intent && s.is_conversational) conversational
        (if-cases (IsCoherent query) (s.is_doc_intent && not s.has_sql_aggregate) document (
          if-cases (IsCoherent query) (is_sql_intent s) sql_all-IsCoherent (
            if-cases (IsCoherent query) s.is_doc_intent document (
              if-cases (IsCoherent query) docs document
                (if-cases (IsCoherent query) s.is_general_knowledge general document)))))

  mode_plan-IsCoherent :
      (s : Signals) (docs : Bool) (mode : Mode) → IsCoherent query (mode_plan s q docs mode)
  unfolding mode_plan is_talk
  mode_plan-IsCoherent s docs general = talk-IsCoherent IntentCategory.conversational refl
  mode_plan-IsCoherent s docs sql = sql-IsCoherent "enterprise" []
  mode_plan-IsCoherent s docs database = sql-IsCoherent "enterprise" []
  mode_plan-IsCoherent s docs meta = system_plan-IsCoherent
  mode_plan-IsCoherent s docs rag =
      if-cases (IsCoherent query) (is_sql_intent s) sql_all-IsCoherent document_plan-IsCoherent
  mode_plan-IsCoherent s docs auto = auto_plan-IsCoherent s docs

  -- In every plan the SQL flag says that the category is that of a structured query, the
  -- conversational flag that the category wants no retrieval, there are no scopes exactly for a
  -- conversational plan, and the question is the stripped one.
  pub analyze_and_plan-IsCoherent :
      (docs : Bool) (mode : Mode) → IsCoherent query (analyze_and_plan query docs mode)
  unfolding analyze_and_plan plan_for is_talk
  analyze_and_plan-IsCoherent docs mode =
      let s = signals_of (lower (strip query)) in
      if-cases (IsCoherent query) s.is_session_identity
        (talk-IsCoherent IntentCategory.session_identity refl)
        (if-cases (IsCoherent query) s.is_system_meta system_plan-IsCoherent
          (mode_plan-IsCoherent s docs mode))

  -- Without an explicit mode a question becomes an SQL query exactly if it asks neither for the
  -- user's identity nor for the system's sources, holds a word of structured data, and either names
  -- no documents or holds an aggregate word as well.
  pub auto_plan-structured :
      (docs : Bool)
      → (analyze_and_plan query docs auto).is_structured_sql ≡ (
          not (signals_of (lower q)).is_session_identity
          && not (signals_of (lower q)).is_system_meta
          && (signals_of (lower q)).has_sql_keyword
          && (not (signals_of (lower q)).is_doc_intent || (signals_of (lower q)).has_sql_aggregate))
  unfolding analyze_and_plan plan_for mode_plan auto_plan is_sql_intent talk retrieve document_plan
      system_plan
  auto_plan-structured docs = ground arith
