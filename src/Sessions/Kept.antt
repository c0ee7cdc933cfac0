-- ===== src/Sessions/Kept.antt =====
-- The store keeps a memory for a session: in its row, and in Redis where there is an entry.
use cognitive_rag_system.Prelude.{
  Bool, true, false, String, Option, none, some, List, ◌≡◌, refl, subst, ◌==◌, eq_iff, Bool-cases,
  inl, inr,
}
use cognitive_rag_system.Prelude.Dict.{lookup, insert, remove, lookup-insert, lookup-remove}
use cognitive_rag_system.Text.{Text}
use cognitive_rag_system.Sessions.Memory.{SessionWorkingMemory, Stored, is_empty, to_dict}
use cognitive_rag_system.Sessions.Store.{Store, to_json, loaded, from_json, memory_of_row, read_row}
use cognitive_rag_system.Sessions.Events.{normalised, from_dict-to_dict}

module _ (Value : Type 0) where
  -- The row of a session holds the dictionary of that session.
  abbrev pub IsOwn : String → Option (Option (Stored Value)) → Type 0
  IsOwn id none = Unit {0}
  IsOwn id (some none) = Unit {0}
  IsOwn id (some (some d)) = d.session_id ≡ some id

  module _ (dumps : Stored Value → Text) (loads : Text → Option (Stored Value)) where
    -- What Redis holds for a session, if anything, reads as the memory.
    abbrev pub IsEntry : SessionWorkingMemory Value → Option Text → Type 0
    IsEntry m none = Unit {0}
    IsEntry m (some raw) = from_json Value dumps loads raw ≡ normalised Value m

    -- Every row holds the memory of its own session.
    abbrev pub OwnsRows : Store Value dumps loads → Type 0
    OwnsRows s = (id : String) → IsOwn id (lookup id s.rows)

    -- The store keeps `m` for the session `id`.
    abbrev pub IsKept : String → SessionWorkingMemory Value → Store Value dumps loads → Type 0
    IsKept id m s =
        (lookup id s.rows ≡ some (some (to_dict Value m)))
        × IsEntry m (lookup id s.redis)
        × OwnsRows s

    -- What a row was read as.
    abbrev pub IsRow : String → Option (Stored Value) → Store Value dumps loads → Type 0
    IsRow j none s = Unit {0}
    IsRow j (some d) s = lookup j s.rows ≡ some (some d)

    memory_of_row-IsRow :
        (j : String) (o : Option (Option (Stored Value))) (s : Store Value dumps loads)
        → lookup j s.rows ≡ o
        → IsRow j (memory_of_row Value dumps loads o) s
    memory_of_row-IsRow j none s e = tt
    memory_of_row-IsRow j (some none) s e = tt
    memory_of_row-IsRow j (some (some d)) s e = elim (Bool-cases (is_empty Value d)) [
      | inl empty ↦ rw empty tt
      | inr full ↦ rw full e
    ]

    pub read_row-IsRow :
        (db : Bool) (j : String) (s : Store Value dumps loads)
        → IsRow j (read_row Value dumps loads db j s) s
    unfolding read_row
    read_row-IsRow false j s = tt
    read_row-IsRow true j s = memory_of_row-IsRow j (lookup j s.rows) s refl

    pub insert-IsEntry :
        (id k : String) (m : SessionWorkingMemory Value) (raw : Text) (d : List (String × Text))
        → (k ≡ id → from_json Value dumps loads raw ≡ normalised Value m)
        → IsEntry m (lookup id d)
        → IsEntry m (lookup id (insert k raw d))
    insert-IsEntry id k m raw d new old = elim (Bool-cases (k == id)) [
      | inl same ↦ rw (lookup-insert k id raw d, same) (new ((eq_iff k id).0 same))
      | inr other ↦ rw (lookup-insert k id raw d, other) old
    ]

    pub remove-IsEntry :
        (id k : String) (m : SessionWorkingMemory Value) (d : List (String × Text))
        → IsEntry m (lookup id d)
        → IsEntry m (lookup id (remove k d))
    remove-IsEntry id k m d old = elim (Bool-cases (k == id)) [
      | inl same ↦ rw (lookup-remove k id d, same) tt
      | inr other ↦ rw (lookup-remove k id d, other) old
    ]

    pub insert-OwnsRows :
        (k : String) (v : Option (Stored Value)) (s : Store Value dumps loads)
        → IsOwn k (some v)
        → OwnsRows s
        → OwnsRows (record s { rows = insert k v s.rows })
    insert-OwnsRows k v s new old j = elim (Bool-cases (k == j)) [
      | inl same ↦
          rw (lookup-insert k j v s.rows, same)
            (subst (λ i. IsOwn i (some v)) ((eq_iff k j).0 same) new)
      | inr other ↦ rw (lookup-insert k j v s.rows, other) (old j)
    ]

    -- The dictionary of a memory survives being written as JSON.
    abbrev pub IsParsed : SessionWorkingMemory Value → Type 0
    IsParsed n = loads (dumps (to_dict Value n)) ≡ some (to_dict Value n)

    pub from_json-to_json :
        (n : SessionWorkingMemory Value)
        → IsParsed n
        → from_json Value dumps loads (to_json Value dumps loads n) ≡ normalised Value n
    unfolding from_json to_json loaded
    from_json-to_json n parses = rw parses (from_dict-to_dict Value n)
