-- ===== src/Sessions/Store.antt =====
-- session_context_manager.py, `SessionContextManager`: Redis first, then the chat_sessions table,
-- then the cache of the process.
use cognitive_rag_system.Prelude.{
  ℕ, ◌-◌, Bool, true, false, ◌&&◌, ◌||◌, String, Option, none, some, List, [], ◌∷◌, ◌==◌, truthy,
  get_or, length, drop, nat_eq, if◌then◌else◌,
}
use cognitive_rag_system.Prelude.Dict.{Dict, lookup, insert, remove}
use cognitive_rag_system.Text.{Text, strip, text_eq}
use cognitive_rag_system.Sessions.Memory.{
  SessionWorkingMemory, Stored, is_empty, fresh, to_dict, from_dict,
}

-- A row of `chat_messages`
pub record ChatMessage : Type 0 where
  pub role : String
  pub content : Text

abbrev pub text_of : Option Text → Option Text
text_of none = none
text_of (some []) = none
text_of (some (c ∷ raw)) = some (c ∷ raw)

-- `json.dumps` and `json.loads` (`none` where it raises) on the dictionary of a memory.
module _ (Value : Type 0) (dumps : Stored Value → Text) (loads : Text → Option (Stored Value)) where
  -- The three places: the keys `session_memory:…` of Redis by session, the column working_memory
  -- of the rows of chat_sessions (`none` for NULL), and the cache of this process.
  pub record Store : Type 0 where
    pub redis : Dict Text
    pub rows : Dict (Option (Stored Value))
    pub cache : Dict (SessionWorkingMemory Value)

  unfoldable pub to_json : SessionWorkingMemory Value → Text
  to_json m = dumps (to_dict Value m)

  unfoldable pub loaded : Option (Stored Value) → SessionWorkingMemory Value
  loaded none = fresh Value ""
  loaded (some d) = from_dict Value d

  -- `from_json`: a text that does not parse gives an empty memory without a session.
  unfoldable pub from_json : Text → SessionWorkingMemory Value
  from_json s = loaded (loads s)

  -- What a reachable server has for a key, where it has a text that is not empty
  unfoldable pub read_redis : (answers : Bool) → String → Store → Option Text
  read_redis false session_id s = none
  read_redis true session_id s = text_of (lookup session_id s.redis)

  -- `session_row.working_memory`, where there is a row and the value counts as true
  abbrev pub memory_of_row : Option (Option (Stored Value)) → Option (Stored Value)
  memory_of_row none = none
  memory_of_row (some none) = none
  memory_of_row (some (some d)) = if is_empty Value d then none else some d

  unfoldable pub read_row : (db : Bool) → String → Store → Option (Stored Value)
  read_row false session_id s = none
  read_row true session_id s = memory_of_row (lookup session_id s.rows)

  unfoldable pub write_redis : (answers : Bool) → SessionWorkingMemory Value → Store → Store
  write_redis false m s = s
  write_redis true m s = record s { redis = insert m.session_id (to_json m) s.redis }

  unfoldable pub keep : String → SessionWorkingMemory Value → Store → Store
  keep session_id m s = record s { cache = insert session_id m s.cache }

  -- Tiers 3 and 4.
  unfoldable pub cached_or_fresh :
      String → Option (SessionWorkingMemory Value) → Store → SessionWorkingMemory Value × Store
  cached_or_fresh session_id none s =
      (fresh Value session_id, keep session_id (fresh Value session_id) s)
  cached_or_fresh session_id (some m) s = (m, s)

  -- Tier 2.
  unfoldable pub from_row :
      (answers : Bool) → String → Option (Stored Value) → Store → SessionWorkingMemory Value × Store
  from_row answers session_id none s = cached_or_fresh session_id (lookup session_id s.cache) s
  from_row answers session_id (some d) s = (
    from_dict Value d,
    keep session_id (from_dict Value d) (write_redis answers (from_dict Value d) s),
  )

  -- Tier 1.
  unfoldable pub from_redis :
      (answers db : Bool) → String → Option Text → Store → SessionWorkingMemory Value × Store
  from_redis answers db session_id none s = from_row answers session_id (read_row db session_id s) s
  from_redis answers db session_id (some raw) s = (from_json raw, keep session_id (from_json raw) s)

  -- `get_memory`: `answers` says whether Redis can be reached, `db` whether a session of the
  -- database is given and answers.
  unfoldable pub get_memory :
      (answers db : Bool) → Option String → Store → SessionWorkingMemory Value × Store
  get_memory answers db session_id s =
      if truthy session_id
      then from_redis answers db (get_or "" session_id)
          (read_redis answers (get_or "" session_id) s) s
      else (fresh Value "transient", s)

  -- `session_row.working_memory = …`, if there is a row
  abbrev pub put_row :
      Option (Option (Stored Value)) → String → Option (Stored Value) → Store → Store
  put_row none session_id d s = s
  put_row (some old) session_id d s = record s { rows = insert session_id d s.rows }

  unfoldable pub write_row : (db : Bool) → String → Option (Stored Value) → Store → Store
  write_row false session_id d s = s
  write_row true session_id d s = put_row (lookup session_id s.rows) session_id d s

  unfoldable pub save_memory : (answers db : Bool) → SessionWorkingMemory Value → Store → Store
  save_memory answers db m s =
      if m.session_id == "" || m.session_id == "transient"
      then s
      else write_row db m.session_id (some (to_dict Value m))
          (write_redis answers m (keep m.session_id m s))

  unfoldable pub delete_redis : (answers : Bool) → String → Store → Store
  delete_redis false session_id s = s
  delete_redis true session_id s = record s { redis = remove session_id s.redis }

  unfoldable pub clear_memory : (answers db : Bool) → String → Store → Store
  clear_memory answers db session_id s =
      write_row db session_id none
        (delete_redis answers session_id (record s { cache = remove session_id s.cache }))

-- Without the current question, where it is the last message.
unfoldable pub without_current : Text → List ChatMessage → List ChatMessage
without_current query [] = []
without_current query (m ∷ []) =
    if m.role == "user" && text_eq (strip m.content) (strip query) then [] else m ∷ []
without_current query (m ∷ n ∷ ms) = m ∷ without_current query (n ∷ ms)

unfoldable pub history_candidates : Option Text → List ChatMessage → List ChatMessage
history_candidates none ms = ms
history_candidates (some []) ms = ms
history_candidates (some (c ∷ query)) ms = without_current (c ∷ query) ms

-- `xs[-n:]`, which is all of `xs` for zero
unfoldable pub last_of : ℕ → List ChatMessage → List ChatMessage
last_of n ms = if nat_eq n 0 then ms else drop (length ms - n) ms

-- `get_recent_history` for a session with these messages
unfoldable pub get_recent_history : Option Text → ℕ → List ChatMessage → List ChatMessage
get_recent_history current_query max_messages ms =
    last_of max_messages (history_candidates current_query ms)
