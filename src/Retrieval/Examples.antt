-- ===== src/Retrieval/Examples.antt =====
-- The search filter at concrete requests, over an engine on lists of fields.
use cognitive_rag_system.Prelude.{
  true, false, not, ◌&&◌, ◌||◌, ◌≡◌, refl, String, none, some, List, [], ◌∷◌, truthy, get_or,
}
use cognitive_rag_system.Auth.{member, dept_admin}
use cognitive_rag_system.Retrieval.Qdrant.{list_engine}
use cognitive_rag_system.Retrieval.SecurityFilter.{
  scope_is, personal_clauses, dept_acl_allowed, dept_clause, enterprise_clauses,
  build_search_filter,
}
use cognitive_rag_system.Retrieval.Visibility.{
  owned, tenant_isolation, personal_visibility, session_visibility,
}

program : Unit {0}
unfolding scope_is personal_clauses dept_acl_allowed dept_clause enterprise_clauses
    build_search_filter
program = tt

abbrev Point : Type 0
Point = List (String × String)

abbrev finance_report : Point
finance_report =
    ("org_id", "acme")
    ∷ ("department_id", "finance")
    ∷ ("access_level", "CONFIDENTIAL")
    ∷ ("uploader_id", "bob")
    ∷ []

abbrev board_minutes : Point
board_minutes = ("org_id", "acme") ∷ ("access_level", "RESTRICTED") ∷ ("uploader_id", "ann") ∷ []

abbrev session_note : Point
session_note = ("org_id", "acme") ∷ ("session_id", "s1") ∷ ("scope", "session") ∷ []

-- A department administrator finds the confidential report, a member of the department does not.
admin_finds :
    list_engine.matches
      (build_search_filter "acme" (some "finance") (some "eve") (some dept_admin) none none)
      finance_report
    ≡ true
unfolding program
admin_finds = refl

member_misses :
    list_engine.matches
      (build_search_filter "acme" (some "finance") (some "eve") (some member) none none)
      finance_report
    ≡ false
unfolding program
member_misses = refl

-- A guest's personal search finds the confidential report and another session's upload.
guest_finds :
    list_engine.matches
      (build_search_filter "acme" none none (some member) none (some "personal"))
      finance_report
    ≡ true
unfolding program
guest_finds = refl

guest_finds_session :
    list_engine.matches
      (build_search_filter "acme" none none (some member) none (some "personal"))
      session_note
    ≡ true
unfolding program
guest_finds_session = refl

tenant_isolation_example : list_engine.has finance_report "org_id" "acme" ≡ true
tenant_isolation_example =
    tenant_isolation list_engine "acme" (some "finance") (some "eve") (some dept_admin) none none
      finance_report admin_finds

personal_visibility_example :
    list_engine.matches
      (build_search_filter "acme" none none (some member) none (some "personal"))
      session_note
    ≡ (list_engine.has session_note "org_id" "acme"
        && (owned list_engine none none session_note || (not (truthy none) && not (truthy none))))
personal_visibility_example =
    personal_visibility list_engine "acme" none none (some member) none session_note

session_visibility_example :
    list_engine.matches
      (build_search_filter "acme" none none (some member) (some "s1") (some "session"))
      session_note
    ≡ (list_engine.has session_note "org_id" "acme"
        && list_engine.has session_note "session_id" (get_or "" (some "s1"))
        && list_engine.has session_note "scope" "session")
session_visibility_example =
    session_visibility list_engine "acme" none none (some member) (some "s1") session_note refl
