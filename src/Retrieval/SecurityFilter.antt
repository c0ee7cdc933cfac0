-- ===== src/Retrieval/SecurityFilter.antt =====
-- modules/rag_core/retrieval/security_filter.py, `RAGSecurityFilterBuilder.build_search_filter`.
use cognitive_rag_system.Prelude.{
  Bool, false, ◌&&◌, String, Option, none, some, List, [], ◌∷◌, ◌==◌, truthy, get_or, if◌then◌else◌,
}
use cognitive_rag_system.Auth.{UserRole, is_super_admin, is_dept_admin}
use cognitive_rag_system.Retrieval.Qdrant.{
  Condition, field, nested, Filter, filter, Conditions, nil, cons, value, any_of,
}

-- `scope == name` for an optional text
unfoldable pub scope_is : String → Option String → Bool
scope_is name none = false
scope_is name (some s) = s == name

-- `FieldCondition(key=k, match=MatchValue(value=v))`
abbrev pub field_is : String → String → Condition
field_is k v = field k (value v)

-- `if v: or_clauses.append(FieldCondition(key=k, match=MatchValue(value=v)))`, before the rest
abbrev clause_if : String → Option String → Conditions → Conditions
clause_if k v rest = if truthy v then cons (field_is k (get_or "" v)) rest else rest

-- The documents of the requester's own uploads or session.
unfoldable pub personal_clauses : Option String → Option String → Conditions
personal_clauses user_id session_id =
    clause_if "uploader_id" user_id (clause_if "session_id" session_id nil)

unfoldable pub dept_acl_allowed : Option UserRole → List String
dept_acl_allowed role = "DEPARTMENT" ∷ (if is_dept_admin role then "CONFIDENTIAL" ∷ [] else [])

unfoldable pub dept_clause : String → Option UserRole → Condition
unfolding dept_acl_allowed
dept_clause dept role = nested (
    filter
      (cons (field_is "department_id" dept)
        (cons (field "access_level" (any_of (dept_acl_allowed role))) nil))
      nil nil)

-- The `should` part of an enterprise search below SUPER_ADMIN.
unfoldable pub enterprise_clauses : Option String → Option String → Option UserRole → Conditions
enterprise_clauses department_id user_id role = cons (field_is "access_level" "PUBLIC") (
    clause_if "uploader_id" user_id
      (if truthy department_id then cons (dept_clause (get_or "" department_id) role) nil else nil))

unfoldable pub build_search_filter :
    (org_id : String) (department_id user_id : Option String) (role : Option UserRole)
    (session_id scope : Option String)
    → Filter
build_search_filter org_id department_id user_id role session_id scope =
    let tenant = field_is "org_id" org_id in
    if scope_is "session" scope && truthy session_id
    then filter
        (cons tenant (
          cons (field_is "session_id" (get_or "" session_id))
            (cons (field_is "scope" "session") nil)))
        nil nil
    else if scope_is "personal" scope
    then filter (cons tenant nil) nil (personal_clauses user_id session_id)
    else if is_super_admin role
    then filter (cons tenant nil) (cons (field_is "scope" "session") nil) nil
    else filter (cons tenant nil) (cons (field_is "scope" "session") nil)
        (enterprise_clauses department_id user_id role)
