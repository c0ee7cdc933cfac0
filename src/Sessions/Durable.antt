-- ===== src/Sessions/Durable.antt =====
-- Reading a session after a save, whatever happens to Redis and to the process in between.
use cognitive_rag_system.Prelude.{
  ℕ, Bool, true, false, ◌||◌, String, Option, none, some, List, ◌∷◌, ◌≡◌, refl, ◌∙◌, ◌==◌, eq_refl,
  Bool-cases, truthy, All, arith, inl, inr,
}
use cognitive_rag_system.Prelude.Dict.{lookup, lookup-insert}
use cognitive_rag_system.Text.{Text}
use cognitive_rag_system.Sessions.Memory.{SessionWorkingMemory, Stored, to_dict}
use cognitive_rag_system.Sessions.Store.{
  Store, to_json, from_json, read_redis, write_redis, keep, from_redis, get_memory, put_row,
  write_row, save_memory,
}
use cognitive_rag_system.Sessions.Events.{Event, spares, normalised, after}
use cognitive_rag_system.Sessions.Kept.{
  IsKept, OwnsRows, insert-OwnsRows, IsParsed, from_json-to_json,
}
use cognitive_rag_system.Sessions.Steps.{get-kept, after-IsKept}

module _ (Value : Type 0) where
  module _ (dumps : Stored Value → Text) (loads : Text → Option (Stored Value)) where
    -- A save puts the memory in its row and in Redis.
    saved-IsKept :
        (m : SessionWorkingMemory Value) (old : Option (Stored Value)) (s : Store Value dumps loads)
        → IsParsed Value dumps loads m
        → (m.session_id == "" || m.session_id == "transient") ≡ false
        → OwnsRows Value dumps loads s
        → lookup m.session_id s.rows ≡ some old
        → IsKept Value dumps loads m.session_id m (save_memory Value dumps loads true true m s)
    unfolding save_memory write_redis keep write_row to_dict
    saved-IsKept m old s parses saved own row =
        rw (saved, row)
          (
            lookup-insert m.session_id m.session_id (some (to_dict Value m)) s.rows
                ∙ rw (eq_refl m.session_id),
            rw
                (
                  lookup-insert m.session_id m.session_id (to_json Value dumps loads m) s.redis,
                  eq_refl m.session_id,
                )
                (from_json-to_json Value dumps loads m parses),
            insert-OwnsRows Value dumps loads m.session_id (some (to_dict Value m)) s refl own,
          )

    -- For a session with a row in a store whose rows each hold their own session: after a save with
    -- Redis and the database answering, the memory is read back, with the two lists of external
    -- parties made one, from the database and whatever Redis answers, after any sequence of Redis
    -- keys expiring, restarts, reads of any session, and saves and clears of other sessions.
    pub save-get :
        (m : SessionWorkingMemory Value) (old : Option (Stored Value)) (es : List (Event Value))
        (answers : Bool) (s : Store Value dumps loads)
        → IsParsed Value dumps loads m
        → IsParsed Value dumps loads (normalised Value m)
        → truthy (some m.session_id) ≡ true
        → (m.session_id == "transient") ≡ false
        → OwnsRows Value dumps loads s
        → lookup m.session_id s.rows ≡ some old
        → All (λ e. spares m.session_id e ≡ true) es
        → (get_memory Value dumps loads answers true
            (some m.session_id)
            (after Value dumps loads es (save_memory Value dumps loads true true m s))).0
          ≡ normalised Value m
    save-get m old es answers s parses again named lasting own row spared =
        get-kept Value dumps loads m.session_id m again answers
          (after Value dumps loads es (save_memory Value dumps loads true true m s)) named
          (after-IsKept Value dumps loads m.session_id m again es
            (save_memory Value dumps loads true true m s) spared
            (saved-IsKept m old s parses (ground (arith, named, lasting)) own row))

    put_row-redis :
        (o : Option (Option (Stored Value))) (j : String) (v : Option (Stored Value))
        (s : Store Value dumps loads)
        → (put_row Value dumps loads o j v s).redis ≡ s.redis
    put_row-redis none j v s = refl
    put_row-redis (some old) j v s = refl

    write_row-redis :
        (db : Bool) (j : String) (v : Option (Stored Value)) (s : Store Value dumps loads)
        → (write_row Value dumps loads db j v s).redis ≡ s.redis
    unfolding write_row
    write_row-redis false j v s = refl
    write_row-redis true j v s = put_row-redis (lookup j s.rows) j v s

    unanswered-redis :
        (db : Bool) (m : SessionWorkingMemory Value) (s : Store Value dumps loads)
        → (save_memory Value dumps loads false db m s).redis ≡ s.redis
    unfolding save_memory write_redis keep
    unanswered-redis db m s =
        elim (Bool-cases (m.session_id == "" || m.session_id == "transient")) [
          | inl unsaved ↦ rw unsaved refl
          | inr saved ↦ rw saved (
              write_row-redis db m.session_id (some (to_dict Value m))
                (keep Value dumps loads m.session_id m s))
        ]

    -- A save that Redis does not answer leaves the old entry: once Redis answers again, reading the
    -- session gives what that entry says, whatever memory was saved.
    pub stale-get :
        (db : Bool) (m : SessionWorkingMemory Value) (c : ℕ) (raw : Text)
        (s : Store Value dumps loads)
        → truthy (some m.session_id) ≡ true
        → lookup m.session_id s.redis ≡ some (c ∷ raw)
        → (get_memory Value dumps loads true db
            (some m.session_id)
            (save_memory Value dumps loads false db m s)).0
          ≡ from_json Value dumps loads (c ∷ raw)
    unfolding get_memory from_redis read_redis
    stale-get db m c raw s named entry = rw (named, unanswered-redis db m s, entry) refl
