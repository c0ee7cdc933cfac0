-- ===== src/Sessions/Steps.antt =====
-- Each event that spares a session keeps its memory.
use cognitive_rag_system.Prelude.{
  Bool, true, false, ◌||◌, String, Option, none, some, List, [], ◌∷◌, ◌≡◌, refl, sym, ap, ◌∙◌,
  subst, ◌==◌, eq_iff, Bool-cases, truthy, get_or, All, arith, inl, inr,
}
use cognitive_rag_system.Prelude.Dict.{lookup, remove, lookup-insert}
use cognitive_rag_system.Text.{Text}
use cognitive_rag_system.Sessions.Memory.{
  SessionWorkingMemory, Stored, is_empty, to_dict, from_dict,
}
use cognitive_rag_system.Sessions.Store.{
  Store, to_json, from_json, read_redis, read_row, write_redis, keep, cached_or_fresh, from_row,
  from_redis, get_memory, put_row, write_row, save_memory, text_of, delete_redis, clear_memory,
}
use cognitive_rag_system.Sessions.Events.{
  Event, expires, restarts, reads, saves, clears, spares, normalised, from_dict-to_dict,
  normalised-normalised, happens, after,
}
use cognitive_rag_system.Sessions.Kept.{
  IsKept, IsEntry, OwnsRows, IsRow, insert-IsEntry, remove-IsEntry, insert-OwnsRows, read_row-IsRow,
  IsParsed, from_json-to_json, IsOwn,
}

module _ (Value : Type 0) where
  module _ (dumps : Stored Value → Text) (loads : Text → Option (Stored Value)) where
    module _ (id : String) (m : SessionWorkingMemory Value)
        (parses : IsParsed Value dumps loads (normalised Value m)) where
      write_redis-IsKept :
          (answers : Bool) (n : SessionWorkingMemory Value) (s : Store Value dumps loads)
          → (n.session_id ≡ id → n ≡ normalised Value m)
          → IsKept Value dumps loads id m s
          → IsKept Value dumps loads id m (write_redis Value dumps loads answers n s)
      unfolding write_redis
      write_redis-IsKept false n s same k = k
      write_redis-IsKept true n s same k = (
        k.0,
        insert-IsEntry Value dumps loads id n.session_id m (to_json Value dumps loads n) s.redis
            (λ here.
              ap (λ o. from_json Value dumps loads (to_json Value dumps loads o)) (same here)
              ∙ from_json-to_json Value dumps loads (normalised Value m) parses
              ∙ normalised-normalised Value m)
            k.1,
        k.2,
      )

      cached-IsKept :
          (j : String) (o : Option (SessionWorkingMemory Value)) (s : Store Value dumps loads)
          → IsKept Value dumps loads id m s
          → IsKept Value dumps loads id m (cached_or_fresh Value dumps loads j o s).1
      unfolding cached_or_fresh keep
      cached-IsKept j none s k = k
      cached-IsKept j (some n) s k = k

      -- What the row of a session gives stands for that session.
      row-session :
          (j : String) (d : Stored Value) (s : Store Value dumps loads)
          → OwnsRows Value dumps loads s
          → lookup j s.rows ≡ some (some d)
          → (from_dict Value d).session_id ≡ j
      unfolding from_dict
      row-session j d s own e = ap (get_or "") (subst (λ o. IsOwn Value j o) e (own j))

      from_row-same :
          (j : String) (d : Stored Value) (s : Store Value dumps loads)
          → IsKept Value dumps loads id m s
          → lookup j s.rows ≡ some (some d)
          → j ≡ id
          → from_dict Value d ≡ normalised Value m
      from_row-same j d s k e here =
          ap (from_dict Value) (cc (e, here, k.0)) ∙ from_dict-to_dict Value m

      from_row-IsKept :
          (answers : Bool) (j : String) (d : Stored Value) (s : Store Value dumps loads)
          → lookup j s.rows ≡ some (some d)
          → IsKept Value dumps loads id m s
          → IsKept Value dumps loads id m (from_row Value dumps loads answers j (some d) s).1
      unfolding from_row keep
      from_row-IsKept answers j d s e k =
          write_redis-IsKept answers (from_dict Value d) s
            (λ here. from_row-same j d s k e (sym (row-session j d s k.2 e) ∙ here)) k

      tier2-IsKept :
          (answers : Bool) (j : String) (o : Option (Stored Value)) (s : Store Value dumps loads)
          → IsRow Value dumps loads j o s
          → IsKept Value dumps loads id m s
          → IsKept Value dumps loads id m (from_row Value dumps loads answers j o s).1
      unfolding from_row
      tier2-IsKept answers j none s e k = cached-IsKept j (lookup j s.cache) s k
      tier2-IsKept answers j (some d) s e k = from_row-IsKept answers j d s e k

      tier1-IsKept :
          (answers db : Bool) (j : String) (o : Option Text) (s : Store Value dumps loads)
          → IsKept Value dumps loads id m s
          → IsKept Value dumps loads id m (from_redis Value dumps loads answers db j o s).1
      unfolding from_redis keep
      tier1-IsKept answers db j none s k =
          tier2-IsKept answers j (read_row Value dumps loads db j s) s
            (read_row-IsRow Value dumps loads db j s) k
      tier1-IsKept answers db j (some raw) s k = k

      get_memory-IsKept :
          (answers db : Bool) (j : Option String) (s : Store Value dumps loads)
          → IsKept Value dumps loads id m s
          → IsKept Value dumps loads id m (get_memory Value dumps loads answers db j s).1
      unfolding get_memory
      get_memory-IsKept answers db j s k = elim (Bool-cases (truthy j)) [
        | inl named ↦ rw named (
            tier1-IsKept answers db (get_or "" j)
              (read_redis Value dumps loads answers (get_or "" j) s) s k)
        | inr unnamed ↦ rw unnamed k
      ]

      -- Writing the row of another session.
      put_row-IsKept :
          (o : Option (Option (Stored Value))) (j : String) (v : Option (Stored Value))
          (s : Store Value dumps loads)
          → (j == id) ≡ false
          → IsOwn Value j (some v)
          → IsKept Value dumps loads id m s
          → IsKept Value dumps loads id m (put_row Value dumps loads o j v s)
      put_row-IsKept none j v s other own k = k
      put_row-IsKept (some old) j v s other own k = (
        lookup-insert j id v s.rows ∙ rw other k.0,
        k.1,
        insert-OwnsRows Value dumps loads j v s own k.2,
      )

      write_row-IsKept :
          (db : Bool) (j : String) (v : Option (Stored Value)) (s : Store Value dumps loads)
          → (j == id) ≡ false
          → IsOwn Value j (some v)
          → IsKept Value dumps loads id m s
          → IsKept Value dumps loads id m (write_row Value dumps loads db j v s)
      unfolding write_row
      write_row-IsKept false j v s other own k = k
      write_row-IsKept true j v s other own k = put_row-IsKept (lookup j s.rows) j v s other own k

      save_memory-IsKept :
          (answers db : Bool) (n : SessionWorkingMemory Value) (s : Store Value dumps loads)
          → (n.session_id == id) ≡ false
          → IsKept Value dumps loads id m s
          → IsKept Value dumps loads id m (save_memory Value dumps loads answers db n s)
      unfolding save_memory keep to_dict
      save_memory-IsKept answers db n s other k =
          elim (Bool-cases (n.session_id == "" || n.session_id == "transient")) [
            | inl unsaved ↦ rw unsaved k
            | inr saved ↦ rw saved (
                write_row-IsKept db n.session_id (some (to_dict Value n))
                  (write_redis Value dumps loads answers n
                    (keep Value dumps loads n.session_id n s))
                  other refl
                  (write_redis-IsKept answers n (keep Value dumps loads n.session_id n s)
                    (λ e. ground (arith, e, eq_iff n.session_id id, other)) k))
          ]

      clear_memory-IsKept :
          (answers db : Bool) (j : String) (s : Store Value dumps loads)
          → (j == id) ≡ false
          → IsKept Value dumps loads id m s
          → IsKept Value dumps loads id m (clear_memory Value dumps loads answers db j s)
      unfolding clear_memory delete_redis
      clear_memory-IsKept false db j s other k =
          write_row-IsKept db j none (record s { cache = remove j s.cache }) other tt k
      clear_memory-IsKept true db j s other k =
          write_row-IsKept db j none
            (record s { cache = remove j s.cache; redis = remove j s.redis }) other tt
            (k.0, remove-IsEntry Value dumps loads id j m s.redis k.1, k.2)

      happens-IsKept :
          (e : Event Value) (s : Store Value dumps loads)
          → spares id e ≡ true
          → IsKept Value dumps loads id m s
          → IsKept Value dumps loads id m ((happens Value dumps loads) e s)
      unfolding happens
      happens-IsKept (expires key) s h k =
          (k.0, remove-IsEntry Value dumps loads id key m s.redis k.1, k.2)
      happens-IsKept restarts s h k = k
      happens-IsKept (reads answers db j) s h k = get_memory-IsKept answers db j s k
      happens-IsKept (saves answers db n) s h k =
          save_memory-IsKept answers db n s (ground (arith, h)) k
      happens-IsKept (clears answers db j) s h k =
          clear_memory-IsKept answers db j s (ground (arith, h)) k

      pub after-IsKept :
          (es : List (Event Value)) (s : Store Value dumps loads)
          → All (λ e. spares id e ≡ true) es
          → IsKept Value dumps loads id m s
          → IsKept Value dumps loads id m ((after Value dumps loads) es s)
      unfolding after
      after-IsKept [] s h k = k
      after-IsKept (e ∷ es) s h k =
          after-IsKept es ((happens Value dumps loads) e s) h.1 (happens-IsKept e s h.0 k)

      text_of-IsEntry :
          (o : Option Text)
          → IsEntry Value dumps loads m o
          → IsEntry Value dumps loads m (text_of o)
      text_of-IsEntry none h = tt
      text_of-IsEntry (some []) h = tt
      text_of-IsEntry (some (c ∷ raw)) h = h

      read_redis-IsEntry :
          (answers : Bool) (s : Store Value dumps loads)
          → IsKept Value dumps loads id m s
          → IsEntry Value dumps loads m (read_redis Value dumps loads answers id s)
      unfolding read_redis
      read_redis-IsEntry false s k = tt
      read_redis-IsEntry true s k = text_of-IsEntry (lookup id s.redis) k.1

      -- Reading a session that is kept.
      from_redis-kept :
          (answers : Bool) (o : Option Text) (s : Store Value dumps loads)
          → IsEntry Value dumps loads m o
          → IsKept Value dumps loads id m s
          → (from_redis Value dumps loads answers true id o s).0 ≡ normalised Value m
      unfolding from_redis read_row from_row is_empty to_dict
      from_redis-kept answers none s h k = rw k.0 (from_dict-to_dict Value m)
      from_redis-kept answers (some raw) s h k = h

      pub get-kept :
          (answers : Bool) (s : Store Value dumps loads)
          → truthy (some id) ≡ true
          → IsKept Value dumps loads id m s
          → (get_memory Value dumps loads answers true (some id) s).0 ≡ normalised Value m
      unfolding get_memory
      get-kept answers s named k = rw named (
          from_redis-kept answers (read_redis Value dumps loads answers id s) s
            (read_redis-IsEntry answers s k) k)
