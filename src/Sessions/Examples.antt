-- ===== src/Sessions/Examples.antt =====
-- A conversation about a supplier, its memory, and the places that keep it.
use cognitive_rag_system.Prelude.{
  true, false, Option, none, some, List, [], ◌∷◌, ◌≡◌, refl, if◌then◌else◌, Bool-cases, inl, inr,
  ◌==◌, length,
}
use cognitive_rag_system.Prelude.Dict.{lookup, insert, remove}
use cognitive_rag_system.Text.{Text, codes, text_eq, strip, join}
use cognitive_rag_system.Sessions.Memory.{
  SessionWorkingMemory, Stored, is_empty, fresh, to_dict, external_of, from_dict,
  evict_for_topic_shift,
}
use cognitive_rag_system.Sessions.Store.{
  ChatMessage, Store, to_json, loaded, from_json, read_redis, read_row, write_redis, keep,
  cached_or_fresh, from_row, from_redis, get_memory, write_row, save_memory, delete_redis,
  clear_memory, without_current, history_candidates, last_of, get_recent_history,
}
use cognitive_rag_system.Sessions.Events.{
  expires, restarts, saves, clears, normalised, happens, after,
}
use cognitive_rag_system.Sessions.Kept.{OwnsRows}
use cognitive_rag_system.Sessions.Durable.{save-get, stale-get}
use cognitive_rag_system.Sessions.Summary.{entries, entity_parts, parts, get_summary_context}

program : Unit {0}
unfolding lookup insert remove text_eq strip join is_empty fresh to_dict external_of from_dict
    evict_for_topic_shift to_json loaded from_json read_redis read_row write_redis keep
    cached_or_fresh from_row from_redis get_memory write_row save_memory delete_redis clear_memory
    without_current history_candidates last_of get_recent_history normalised happens after entries
    entity_parts parts get_summary_context
program = tt

abbrev supplier : SessionWorkingMemory Text
supplier = record (fresh Text "s1") {
  active_vendors = codes "Acme" ∷ [];
  active_names = codes "Ada" ∷ [];
  active_entities = ("msisdn", codes "0801") ∷ [];
  turn_count = 2;
}

-- A stand-in for the two functions of `json`, right on the memories of this session.
abbrev dumps : Stored Text → Text
dumps d = 123 ∷ (elim d.active_external_entities [ some (x ∷ xs) ↦ x | _ ↦ [] ])

abbrev loads : Text → Option (Stored Text)
loads raw =
    if text_eq raw (codes "{")
    then some (to_dict Text supplier)
    else if text_eq raw (codes "{Acme")
    then some (to_dict Text (normalised Text supplier))
    else none

-- Redis still holds a text that does not parse for the session.
abbrev before : Store Text dumps loads
before = record {
  redis = ("s1", codes "broken") ∷ [];
  rows = ("s0", none) ∷ ("s1", none) ∷ [];
  cache = [];
}

before-OwnsRows : OwnsRows Text dumps loads before
unfolding program
before-OwnsRows id = elim (Bool-cases ("s0" == id)) [
  | inl first ↦ rw first tt
  | inr other ↦
      rw other
        (elim (Bool-cases ("s1" == id)) [ inl second ↦ rw second tt | inr missing ↦ rw missing tt ])
]

save-get_example :
    (get_memory Text dumps loads true true (some "s1") (
      after Text dumps loads
        (expires "s1" ∷ restarts ∷ saves true true (fresh Text "s0") ∷ clears true true "s0" ∷ [])
        (save_memory Text dumps loads true true supplier before))).0
    ≡ normalised Text supplier
unfolding program
save-get_example =
    save-get Text dumps loads supplier none
      (expires "s1" ∷ restarts ∷ saves true true (fresh Text "s0") ∷ clears true true "s0" ∷ [])
      true before refl refl refl refl before-OwnsRows refl (refl, (refl, (refl, (refl, tt))))

-- The text that does not parse gives a memory without a session, which is then never saved.
stale-get_example :
    (get_memory Text dumps loads true true
      (some "s1")
      (save_memory Text dumps loads false true supplier before)).0
    ≡ from_json Text dumps loads (codes "broken")
unfolding program
stale-get_example = stale-get Text dumps loads true supplier 98 (codes "roken") before refl refl

broken_lost : (from_json Text dumps loads (codes "broken")).session_id ≡ ""
unfolding program
broken_lost = refl

supplier_summary :
    get_summary_context Text (λ v. v) none supplier
    ≡ codes
        "Referenced External Entities / Partners: Acme\nKnown Entities: msisdn: 0801\nKnown Names: Ada"
unfolding program
supplier_summary = refl

abbrev asked : List ChatMessage
asked =
    record { role = "assistant"; content = codes "Hello" }
    ∷ record { role = "user"; content = codes " Who? " }
    ∷ []

question_left_out : length (get_recent_history (some (codes "Who?")) 6 asked) ≡ 1
unfolding program
question_left_out = refl
