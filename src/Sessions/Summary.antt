-- ===== src/Sessions/Summary.antt =====
-- models.py, `get_summary_context`: what the memory tells a prompt, by scope.
use cognitive_rag_system.Prelude.{
  Bool, true, false, String, Option, none, some, List, [], ◌∷◌, ◌++◌, ◌≡◌, refl, ◌==◌, map, arith,
  if◌then◌else◌,
}
use cognitive_rag_system.Prelude.Dict.{Dict}
use cognitive_rag_system.Text.{Text, codes, join}
use cognitive_rag_system.Sessions.Memory.{
  EntityScope, aggregate, system_meta, scope_value, SessionWorkingMemory, or_list, is_global,
  evict_for_topic_shift,
}

-- A line `label: item, item, …`, unless there are no items.
abbrev pub part : String → List Text → List Text
part label [] = []
part label (item ∷ items) = (codes label ++ join (codes ", ") (item ∷ items)) ∷ []

-- `str` of a value
module _ (Value : Type 0) (show : Value → Text) where
  -- `[f"{k}: {v}" for k, v in d.items()]`
  unfoldable pub entries : Dict Value → List Text
  entries d = map (λ e. codes e.0 ++ codes ": " ++ show e.1) d

  abbrev pub effective_scope : Option EntityScope → SessionWorkingMemory Value → String
  effective_scope none m = m.scope
  effective_scope (some target) m = scope_value target

  -- The parts that belong to single entities.
  unfoldable pub entity_parts : (is_aggregate : Bool) → SessionWorkingMemory Value → List Text
  entity_parts true m = []
  entity_parts false m =
      part "Known Entities: " (entries m.active_entities)
      ++ part "Known Names: " m.active_names
      ++ part "Referenced Collection IDs: " (map show m.collection_ids)

  unfoldable pub parts : (is_aggregate : Bool) → SessionWorkingMemory Value → List Text
  parts is_aggregate m =
      part "Referenced External Entities / Partners: "
        (or_list m.active_external_entities m.active_vendors)
      ++ part "Referenced Cloud Sources / Repositories: " m.active_cloud_sources
      ++ entity_parts is_aggregate m
      ++ part "Known Metrics/Values: " (entries m.active_metrics)
      ++ part "Referenced Documents: " m.active_documents

  unfoldable pub get_summary_context : Option EntityScope → SessionWorkingMemory Value → Text
  get_summary_context target_scope m =
      let scope = effective_scope target_scope m in
      if scope == scope_value system_meta
      then []
      else join (codes "\n") (parts (scope == scope_value aggregate) m)

  -- For the scopes AGGREGATE and SYSTEM_META, the summary for the scope is the same whatever
  -- entities, names and collection ids the memory holds, and evicting for a shift to the scope
  -- leaves exactly this summary as the one of the memory; for SYSTEM_META it is empty.
  summary-evict :
      (t : EntityScope) (m : SessionWorkingMemory Value) (entities : Dict Value) (names : List Text)
      (ids : List Value)
      → is_global t ≡ true
      → (get_summary_context
            (some t)
            (record m { active_entities = entities; active_names = names; collection_ids = ids })
          ≡ get_summary_context (some t) m)
        × (get_summary_context none (evict_for_topic_shift Value t m)
            ≡ get_summary_context (some t) m)
        × (get_summary_context (some system_meta) m ≡ [])
  unfolding get_summary_context parts entity_parts evict_for_topic_shift
  summary-evict EntityScope.aggregate m entities names ids h = (refl, refl, refl)
  summary-evict EntityScope.system_meta m entities names ids h = (refl, refl, refl)
  summary-evict EntityScope.individual m entities names ids h = ground (arith, h)
  summary-evict EntityScope.collection m entities names ids h = ground (arith, h)
