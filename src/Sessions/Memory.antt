-- ===== src/Sessions/Memory.antt =====
-- models.py, `SessionWorkingMemory`: the record, its dictionary form and its eviction.
use cognitive_rag_system.Prelude.{
  ℕ, Bool, true, false, ◌&&◌, String, Option, none, some, List, [], ◌∷◌, get_or, if◌then◌else◌,
}
use cognitive_rag_system.Prelude.Dict.{Dict}
use cognitive_rag_system.Text.{Text}

-- `EntityScope`
pub data EntityScope : Type 0 where
  individual collection aggregate system_meta : EntityScope

abbrev pub scope_value : EntityScope → String
scope_value individual = "INDIVIDUAL"
scope_value collection = "COLLECTION"
scope_value aggregate = "AGGREGATE"
scope_value system_meta = "SYSTEM_META"

-- Does the scope drop what belongs to a single entity?
abbrev pub is_global : EntityScope → Bool
is_global aggregate = true
is_global system_meta = true
is_global _ = false

abbrev missing {ℓ} : {A : Type ℓ} → Option A → Bool
missing none = true
missing (some a) = false

-- `xs or ys` on lists
abbrev pub or_list : List Text → List Text → List Text
or_list [] ys = ys
or_list (x ∷ xs) ys = x ∷ xs

-- `Value` are the values that a JSON document holds.
module _ (Value : Type 0) where
  pub record SessionWorkingMemory : Type 0 where
    pub session_id : String
    pub active_entities : Dict Value
    pub active_names : List Text
    pub active_documents : List Text
    pub active_cloud_sources : List Text
    pub active_vendors : List Text
    pub active_external_entities : List Text
    pub active_metrics : Dict Value
    pub active_tables : List Text
    pub last_target_database : Option String
    pub last_strategy : Option String
    pub turn_count : ℕ
    pub scope : String
    pub active_topic : Option String
    pub primary_anchor_id : Option Value
    pub collection_ids : List Value
    pub suggested_actions : List (Dict Value)

  -- The dictionary of a memory, as it is stored: each key may be missing. For a key that may hold
  -- `None` this is the same as a missing one; `session_id`, `turn_count` and `scope` never hold it.
  pub record Stored : Type 0 where
    pub session_id : Option String
    pub active_entities : Option (Dict Value)
    pub active_names : Option (List Text)
    pub active_documents : Option (List Text)
    pub active_cloud_sources : Option (List Text)
    pub active_vendors : Option (List Text)
    pub active_external_entities : Option (List Text)
    pub active_metrics : Option (Dict Value)
    pub active_tables : Option (List Text)
    pub last_target_database : Option String
    pub last_strategy : Option String
    pub turn_count : Option ℕ
    pub scope : Option String
    pub active_topic : Option String
    pub primary_anchor_id : Option Value
    pub collection_ids : Option (List Value)
    pub suggested_actions : Option (List (Dict Value))

  -- Does the dictionary count as false, as one without keys does?
  unfoldable pub is_empty : Stored → Bool
  is_empty d =
      missing d.session_id
      && missing d.active_entities
      && missing d.active_names
      && missing d.active_documents
      && missing d.active_cloud_sources
      && missing d.active_vendors
      && missing d.active_external_entities
      && missing d.active_metrics
      && missing d.active_tables
      && missing d.last_target_database
      && missing d.last_strategy
      && missing d.turn_count
      && missing d.scope
      && missing d.active_topic
      && missing d.primary_anchor_id
      && missing d.collection_ids
      && missing d.suggested_actions

  -- `SessionWorkingMemory(session_id=…)`
  unfoldable pub fresh : String → SessionWorkingMemory
  fresh session_id = record {
    session_id = session_id;
    active_entities = [];
    active_names = [];
    active_documents = [];
    active_cloud_sources = [];
    active_vendors = [];
    active_external_entities = [];
    active_metrics = [];
    active_tables = [];
    last_target_database = none;
    last_strategy = none;
    turn_count = 0;
    scope = scope_value individual;
    active_topic = none;
    primary_anchor_id = none;
    collection_ids = [];
    suggested_actions = [];
  }

  unfoldable pub to_dict : SessionWorkingMemory → Stored
  to_dict m = record {
    session_id = some m.session_id;
    active_entities = some m.active_entities;
    active_names = some m.active_names;
    active_documents = some m.active_documents;
    active_cloud_sources = some m.active_cloud_sources;
    active_vendors = some m.active_vendors;
    active_external_entities = some m.active_external_entities;
    active_metrics = some m.active_metrics;
    active_tables = some m.active_tables;
    last_target_database = m.last_target_database;
    last_strategy = m.last_strategy;
    turn_count = some m.turn_count;
    scope = some m.scope;
    active_topic = m.active_topic;
    primary_anchor_id = m.primary_anchor_id;
    collection_ids = some m.collection_ids;
    suggested_actions = some m.suggested_actions;
  }

  -- `data.get("active_external_entities") or data.get("active_vendors") or []`
  unfoldable pub external_of : Stored → List Text
  external_of d = or_list (get_or [] d.active_external_entities) (get_or [] d.active_vendors)

  unfoldable pub from_dict : Stored → SessionWorkingMemory
  from_dict d = record {
    session_id = get_or "" d.session_id;
    active_entities = get_or [] d.active_entities;
    active_names = get_or [] d.active_names;
    active_documents = get_or [] d.active_documents;
    active_cloud_sources = get_or [] d.active_cloud_sources;
    active_vendors = external_of d;
    active_external_entities = external_of d;
    active_metrics = get_or [] d.active_metrics;
    active_tables = get_or [] d.active_tables;
    last_target_database = d.last_target_database;
    last_strategy = d.last_strategy;
    turn_count = get_or 0 d.turn_count;
    scope = get_or (scope_value individual) d.scope;
    active_topic = d.active_topic;
    primary_anchor_id = d.primary_anchor_id;
    collection_ids = get_or [] d.collection_ids;
    suggested_actions = get_or [] d.suggested_actions;
  }

  unfoldable pub evict_for_topic_shift : EntityScope → SessionWorkingMemory → SessionWorkingMemory
  evict_for_topic_shift new_scope m =
      if is_global new_scope
      then record m {
        scope = scope_value new_scope;
        active_entities = [];
        active_names = [];
        collection_ids = [];
        primary_anchor_id = none;
      }
      else record m { scope = scope_value new_scope }
