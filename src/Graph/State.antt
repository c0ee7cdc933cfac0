-- ===== src/Graph/State.antt =====
-- modules/rag_core/orchestrator/langgraph/state.py: the working memory ("blackboard") of a
-- session and the reducer that merges the updates of the nodes into it.
use cognitive_rag_system.Prelude.{
  ℕ, Bool, true, false, not, ◌&&◌, ◌||◌, String, Option, none, some, List, [], ◌∷◌, ◌++◌, member,
  truthy, get_or, distinct, nat_eq, ◌==◌, if◌then◌else◌,
}
use cognitive_rag_system.Prelude.Dict.{Dict, update}

-- `RoutingDecision`
pub data RoutingDecision : Type 0 where
  sql document identity conversational system_meta : RoutingDecision

-- The keys that the nodes write. `none` is a key that is missing or holds None; the values of
-- entities and metrics are texts.
pub record Memory : Type 0 where
  pub active_entities : Option (Dict String)
  pub active_external_entities : Option (Dict String)
  pub active_metrics : Option (Dict String)
  pub resolution_scope : Option String
  pub scope : Option String
  pub collection_ids : Option (List ℕ)
  pub active_documents : Option (List String)
  pub active_cloud_sources : Option (List String)
  pub active_tables : Option (List String)
  pub primary_anchor_id : Option String
  pub last_strategy : Option String
  pub last_target_database : Option String
  pub turn_count : Option ℕ
  -- `__pruned__` and `__replace__`
  pub pruned : Bool
  pub replace : Bool

abbrev pub no_memory : Memory
no_memory = record {
  active_entities = none;
  active_external_entities = none;
  active_metrics = none;
  resolution_scope = none;
  scope = none;
  collection_ids = none;
  active_documents = none;
  active_cloud_sources = none;
  active_tables = none;
  primary_anchor_id = none;
  last_strategy = none;
  last_target_database = none;
  turn_count = none;
  pruned = false;
  replace = false;
}

abbrev absent {ℓ} : {A : Type ℓ} → Option A → Bool
absent none = true
absent (some a) = false

-- `not memory`: no key is set.
unfoldable pub is_blank : Memory → Bool
is_blank m =
    absent m.active_entities
    && absent m.active_external_entities
    && absent m.active_metrics
    && absent m.resolution_scope
    && absent m.scope
    && absent m.collection_ids
    && absent m.active_documents
    && absent m.active_cloud_sources
    && absent m.active_tables
    && absent m.primary_anchor_id
    && absent m.last_strategy
    && absent m.last_target_database
    && absent m.turn_count
    && not m.pruned
    && not m.replace

-- `for d in new: if d and d not in cur: cur.append(d)`
unfoldable pub append_name : List String → String → List String
append_name cur d = if not (d == "") && not (member d cur) then cur ++ (d ∷ []) else cur

unfoldable pub append_missing : List String → List String → List String
append_missing cur [] = cur
append_missing cur (d ∷ new) = append_missing (append_name cur d) new

abbrev pub merge_dict : Option (Dict String) → Option (Dict String) → Option (Dict String)
merge_dict cur new = some (update (get_or [] cur) (get_or [] new))

abbrev pub merge_names : Option (List String) → Option (List String) → Option (List String)
merge_names cur new = some (append_missing (get_or [] cur) (get_or [] new))

-- `list(dict.fromkeys(existing_cids + incoming_cids))`, where the update has the key
abbrev pub merge_ids : Option (List ℕ) → Option (List ℕ) → Option (List ℕ)
merge_ids cur none = cur
merge_ids cur (some new) = some (distinct nat_eq (get_or [] cur ++ new))

abbrev pub merge_scope : Option String → Option String → Option String → Option String
merge_scope cur resolution scope =
    if truthy resolution then resolution else if truthy scope then scope else cur

-- `if k in update and update[k] is not None: merged[k] = update[k]`
abbrev pub overwrite {ℓ} : {A : Type ℓ} → Option A → Option A → Option A
overwrite cur none = cur
overwrite cur (some a) = some a

-- The additive rules, key by key.
unfoldable pub merged_keys : Memory → Memory → Memory
merged_keys cur new = record cur {
  active_entities = merge_dict cur.active_entities new.active_entities;
  active_external_entities = merge_dict cur.active_external_entities new.active_external_entities;
  active_metrics = merge_dict cur.active_metrics new.active_metrics;
  resolution_scope = merge_scope cur.resolution_scope new.resolution_scope new.scope;
  collection_ids = merge_ids cur.collection_ids new.collection_ids;
  active_documents = merge_names cur.active_documents new.active_documents;
  active_cloud_sources = merge_names cur.active_cloud_sources new.active_cloud_sources;
  active_tables = merge_names cur.active_tables new.active_tables;
  primary_anchor_id = overwrite cur.primary_anchor_id new.primary_anchor_id;
  last_strategy = overwrite cur.last_strategy new.last_strategy;
  last_target_database = overwrite cur.last_target_database new.last_target_database;
}

unfoldable pub merge_keys : Memory → Memory → Memory
merge_keys cur new =
    if new.pruned || new.replace
    then record new { pruned = false; replace = false }
    else merged_keys cur new

unfoldable pub merge_working_memory : Memory → Memory → Memory
merge_working_memory cur new =
    if is_blank cur then new else if is_blank new then cur else merge_keys cur new

-- `merge_context_list` and `manage_messages`: an update takes the place of the list.
unfoldable pub replace_list {ℓ} : {A : Type ℓ} → List A → Option (List A) → List A
replace_list cur none = cur
replace_list cur (some new) = new
