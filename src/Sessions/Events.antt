-- ===== src/Sessions/Events.antt =====
-- What can happen to the working memories between two calls on a session.
use cognitive_rag_system.Prelude.{Bool, true, not, String, Option, List, [], ◌∷◌, ◌≡◌, refl, ◌==◌}
use cognitive_rag_system.Prelude.Dict.{remove}
use cognitive_rag_system.Text.{Text}
use cognitive_rag_system.Sessions.Memory.{
  SessionWorkingMemory, Stored, or_list, external_of, to_dict, from_dict,
}
use cognitive_rag_system.Sessions.Store.{Store, get_memory, save_memory, clear_memory}

or_list-same : (xs : List Text) → or_list xs xs ≡ xs
or_list-same [] = refl
or_list-same (x ∷ xs) = refl

-- What can happen between two calls on a session: Redis drops a key, the process restarts, or a
-- session is read, saved or cleared.
pub data Event (Value : Type 0) : Type 0 where
  expires : (key : String) → Event Value
  restarts : Event Value
  reads : (answers db : Bool) (session_id : Option String) → Event Value
  saves : (answers db : Bool) (memory : SessionWorkingMemory Value) → Event Value
  clears : (answers db : Bool) (session_id : String) → Event Value

-- The event does not write the session.
abbrev pub spares : {Value : Type 0} → String → Event Value → Bool
spares id (expires key) = true
spares id restarts = true
spares id (reads answers db session_id) = true
spares id (saves answers db m) = not (m.session_id == id)
spares id (clears answers db session_id) = not (session_id == id)

module _ (Value : Type 0) where
  -- A memory as it comes back: both lists of external parties are the one that is not empty.
  unfoldable pub normalised : SessionWorkingMemory Value → SessionWorkingMemory Value
  normalised m = record m {
    active_vendors = or_list m.active_external_entities m.active_vendors;
    active_external_entities = or_list m.active_external_entities m.active_vendors;
  }

  pub from_dict-to_dict :
      (m : SessionWorkingMemory Value) → from_dict Value (to_dict Value m) ≡ normalised m
  unfolding normalised from_dict to_dict external_of
  from_dict-to_dict m = refl

  pub normalised-normalised :
      (m : SessionWorkingMemory Value) → normalised (normalised m) ≡ normalised m
  unfolding normalised
  normalised-normalised m = rw (or_list-same (or_list m.active_external_entities m.active_vendors))

  module _ (dumps : Stored Value → Text) (loads : Text → Option (Stored Value)) where
    -- The store after an event.
    unfoldable pub happens : Event Value → Store Value dumps loads → Store Value dumps loads
    happens (expires key) s = record s { redis = remove key s.redis }
    happens restarts s = record s { cache = [] }
    happens (reads answers db session_id) s =
        (get_memory Value dumps loads answers db session_id s).1
    happens (saves answers db m) s = save_memory Value dumps loads answers db m s
    happens (clears answers db session_id) s =
        clear_memory Value dumps loads answers db session_id s

    unfoldable pub after : List (Event Value) → Store Value dumps loads → Store Value dumps loads
    after [] s = s
    after (e ∷ es) s = after es (happens e s)
