-- ===== src/Graph/Blackboard.antt =====
-- What the reducer keeps, adds and drops.
use mathlib.Core.Bool.{and-false}
use cognitive_rag_system.Prelude.{
  Bool, true, false, not, ◌&&◌, ◌||◌, ◌≡◌, refl, String, List, [], ◌∷◌, ◌++◌, member, get_or, ◌==◌,
  eq_iff, arith, Bool-cases, inl, inr,
}
use cognitive_rag_system.Prelude.Dict.{lookup, last_value, or_else, lookup-update}
use cognitive_rag_system.Graph.State.{
  Memory, is_blank, append_name, append_missing, merged_keys, merge_keys, merge_working_memory,
}

member-append :
    (x : String) (xs ys : List String) → member x (xs ++ ys) ≡ (member x xs || member x ys)
member-append x [] ys = refl
member-append x (y ∷ xs) ys = ground (arith, member-append x xs ys)

abbrev pub named : String → Bool
named x = not (x == "")

member-append_name :
    (x : String) (cur : List String) (d : String)
    → member x (append_name cur d) ≡ (member x cur || (named x && x == d))
unfolding append_name
member-append_name x cur d = ground (arith, member-append x cur (d ∷ []), eq_iff x d)

-- A name is in the result exactly if it was there or is a nonempty name of the update.
member-append_missing :
    (x : String) (cur new : List String)
    → member x (append_missing cur new) ≡ (member x cur || (named x && member x new))
unfolding append_missing
member-append_missing x cur [] = ground arith
member-append_missing x cur (d ∷ new) =
    ground (arith, member-append_missing x (append_name cur d) new, member-append_name x cur d)

abbrev pub IsDistinct : List String → Type 0
IsDistinct [] = Unit
IsDistinct (x ∷ xs) = (member x xs ≡ false) × IsDistinct xs

IsDistinct-snoc :
    (xs : List String) (d : String)
    → IsDistinct xs
    → member d xs ≡ false
    → IsDistinct (xs ++ (d ∷ []))
IsDistinct-snoc [] d h m = (refl, tt)
IsDistinct-snoc (x ∷ xs) d h m = (
  ground (arith, member-append x xs (d ∷ []), eq_iff x d, eq_iff d x),
  IsDistinct-snoc xs d h.1 (ground arith),
)

append_name-IsDistinct :
    (cur : List String) (d : String) → IsDistinct cur → IsDistinct (append_name cur d)
unfolding append_name
append_name-IsDistinct cur d h = elim (Bool-cases (not (d == "") && not (member d cur))) [
  | inl new ↦ rw new (IsDistinct-snoc cur d h (ground arith))
  | inr old ↦ rw old h
]

append_missing-IsDistinct :
    (cur new : List String) → IsDistinct cur → IsDistinct (append_missing cur new)
unfolding append_missing
append_missing-IsDistinct cur [] h = h
append_missing-IsDistinct cur (d ∷ new) h =
    append_missing-IsDistinct (append_name cur d) new (append_name-IsDistinct cur d h)

-- Two memories that are merged key by key: both hold something, and the update is no pruned one.
pub record IsAdditive (cur new : Memory) : Type 0 where
  pub current : is_blank cur ≡ false
  pub updated : is_blank new ≡ false
  pub kept : (new.pruned || new.replace) ≡ false

merge-additive :
    (cur new : Memory) → IsAdditive cur new → merge_working_memory cur new ≡ merged_keys cur new
unfolding merge_working_memory merge_keys
merge-additive cur new a = rw (a.current, a.updated, a.kept)

-- An additive merge drops no entity: a key of the update gets its value there, and every other
-- key keeps the value that it had.
pub merge-entities :
    (cur new : Memory) (key : String)
    → IsAdditive cur new
    → lookup key (get_or [] (merge_working_memory cur new).active_entities)
      ≡ or_else
          (last_value key (get_or [] new.active_entities))
          (lookup key (get_or [] cur.active_entities))
unfolding merged_keys
merge-entities cur new key a =
    rw (merge-additive cur new a)
      (lookup-update key (get_or [] cur.active_entities) (get_or [] new.active_entities))

-- An additive merge lists as documents the ones that were listed and the named ones of the
-- update, and repeats none if none was repeated.
pub merge-documents :
    (cur new : Memory)
    → IsAdditive cur new
    → IsDistinct (get_or [] cur.active_documents)
    → IsDistinct (get_or [] (merge_working_memory cur new).active_documents)
      × ((x : String)
          → member x (get_or [] (merge_working_memory cur new).active_documents) ≡ (
              member x (get_or [] cur.active_documents)
              || (named x && member x (get_or [] new.active_documents))))
unfolding merged_keys
merge-documents cur new a h = rw (merge-additive cur new a) (
  append_missing-IsDistinct _ (get_or [] new.active_documents) h,
  λ x. member-append_missing x _ (get_or [] new.active_documents),
)

-- Where the memory already holds something, the turn count of an update that is no pruned one is
-- dropped: the count stays what it was.
pub turn_count-merge :
    (cur new : Memory)
    → is_blank cur ≡ false
    → (new.pruned || new.replace) ≡ false
    → (merge_working_memory cur new).turn_count ≡ cur.turn_count
unfolding merge_working_memory merge_keys merged_keys
turn_count-merge cur new h k = ground arith

pruned-ne_blank : (m : Memory) → m.pruned ≡ true → is_blank m ≡ false
unfolding is_blank
pruned-ne_blank m k = simp (k, and-false)

-- A pruned update takes the place of a memory that holds something, without its marks.
pub merge-pruned :
    (cur new : Memory)
    → is_blank cur ≡ false
    → new.pruned ≡ true
    → merge_working_memory cur new ≡ record new { pruned = false; replace = false }
unfolding merge_working_memory merge_keys
merge-pruned cur new h k = rw (h, pruned-ne_blank new k, k) refl
