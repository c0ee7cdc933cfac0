-- ===== src/Retrieval/Visibility.antt =====
-- Which points of the vector store a requester's search filter lets through, for every engine
-- that evaluates filters as Qdrant documents.
use cognitive_rag_system.Prelude.{
  Bool, true, false, not, ◌&&◌, ◌||◌, ◌≡◌, refl, String, Option, none, some, truthy, get_or,
  if◌then◌else◌, arith, Bool-cases, inl, inr,
}
use cognitive_rag_system.Auth.{UserRole, is_super_admin, is_dept_admin}
use cognitive_rag_system.Retrieval.Qdrant.{Engine, Condition, Filter, filter, Conditions, nil, cons}
use cognitive_rag_system.Retrieval.SecurityFilter.{
  scope_is, field_is, personal_clauses, dept_clause, enterprise_clauses, build_search_filter,
}

module _ (engine : Engine) where
  open engine use {
    Payload, has, meets, meets_all, meets_any, meets_should, matches, meets-value, meets-any_of,
    meets-nested, meets_all-nil, meets_all-cons, meets_any-nil, meets_any-cons, meets_should-nil,
    meets_should-cons, matches-filter,
  }

  -- What an enterprise search shows of a point of the tenant, by role and identity: below
  -- SUPER_ADMIN the public points, the requester's uploads, and the department's.
  abbrev pub granted : Option String → Option String → Option UserRole → Payload → Bool
  granted department_id user_id role p =
      has p "access_level" "PUBLIC"
      || (truthy user_id && has p "uploader_id" (get_or "" user_id))
      || (truthy department_id
          && has p "department_id" (get_or "" department_id)
          && (has p "access_level" "DEPARTMENT"
              || (is_dept_admin role && has p "access_level" "CONFIDENTIAL")))

  abbrev pub visible : Option String → Option String → Option UserRole → Payload → Bool
  visible department_id user_id role p = is_super_admin role || granted department_id user_id role p

  dept_clause_lem :
      (dept : String) (role : Option UserRole) (p : Payload)
      → meets (dept_clause dept role) p ≡ (
          has p "department_id" dept
          && (has p "access_level" "DEPARTMENT"
              || (is_dept_admin role && has p "access_level" "CONFIDENTIAL")))
  unfolding dept_clause
  dept_clause_lem dept role p =
      simp
        (
          meets-value, meets-any_of, meets-nested, meets_all-nil, meets_all-cons, meets_any-nil,
          meets_should-nil, matches-filter,
        )
        (ground arith)

  clause_if_lem :
      (k : String) (v : Option String) (rest : Conditions) (p : Payload)
      → meets_any (if truthy v then cons (field_is k (get_or "" v)) rest else rest) p
        ≡ ((truthy v && has p k (get_or "" v)) || meets_any rest p)
  clause_if_lem k v rest p = elim (Bool-cases (truthy v)) [
    | inl given ↦ rw given (simp (meets-value, meets_any-cons))
    | inr absent ↦ rw absent refl
  ]

  enterprise_clauses_lem :
      (department_id user_id : Option String) (role : Option UserRole) (p : Payload)
      → meets_should (enterprise_clauses department_id user_id role) p
        ≡ granted department_id user_id role p
  unfolding enterprise_clauses
  enterprise_clauses_lem department_id user_id role p = elim (Bool-cases (truthy department_id)) [
    | inl given ↦ rw given (
        simp
          (
            meets_should-cons, meets_any-cons, meets_any-nil, meets-value, clause_if_lem,
            dept_clause_lem,
          )
          (ground arith))
    | inr absent ↦ rw absent (
        simp (meets_should-cons, meets_any-cons, meets_any-nil, meets-value, clause_if_lem)
          (ground arith))
  ]

  pub enterprise_visibility :
      (org_id : String) (department_id user_id : Option String) (role : Option UserRole)
      (session_id scope : Option String) (p : Payload)
      → scope_is "session" scope ≡ false
      → scope_is "personal" scope ≡ false
      → matches (build_search_filter org_id department_id user_id role session_id scope) p ≡ (
          has p "org_id" org_id
          && not (has p "scope" "session")
          && visible department_id user_id role p)
  unfolding build_search_filter
  enterprise_visibility org_id department_id user_id role session_id scope p h k =
      rw (h, k)
        (elim (Bool-cases (is_super_admin role)) [
          | inl top ↦ rw top (
              simp
                (
                  matches-filter, meets_all-cons, meets_all-nil, meets_any-cons, meets_any-nil,
                  meets_should-nil, meets-value,
                )
                (ground arith))
          | inr below ↦ rw below (
              simp
                (
                  matches-filter, meets_all-cons, meets_all-nil, meets_any-cons, meets_any-nil,
                  enterprise_clauses_lem, meets-value,
                )
                (ground arith))
        ])

  abbrev head_of : Conditions → Option Condition
  head_of nil = none
  head_of (cons c cs) = some c

  abbrev first_must : Filter → Option Condition
  first_must (filter m n s) = head_of m

  first_must-build_search_filter :
      (org_id : String) (department_id user_id : Option String) (role : Option UserRole)
      (session_id scope : Option String)
      → first_must (build_search_filter org_id department_id user_id role session_id scope)
        ≡ some (field_is "org_id" org_id)
  unfolding build_search_filter
  first_must-build_search_filter org_id department_id user_id role session_id scope = ground arith

  meets_first_must :
      (f : Filter) (c : Condition) (p : Payload)
      → first_must f ≡ some c
      → matches f p ≡ true
      → meets c p ≡ true
  meets_first_must (filter nil n s) c p e h = cc
  meets_first_must (filter (cons d m) n s) c p e h =
      ground (arith, simp (matches-filter, meets_all-cons) at h)

  -- Whatever the role, the session and the scope, a point that a search lets through carries the
  -- requester's tenant.
  pub tenant_isolation :
      (org_id : String) (department_id user_id : Option String) (role : Option UserRole)
      (session_id scope : Option String) (p : Payload)
      → matches (build_search_filter org_id department_id user_id role session_id scope) p ≡ true
      → has p "org_id" org_id ≡ true
  tenant_isolation org_id department_id user_id role session_id scope p h = rw meets-value at (
      meets_first_must _ _ p
        (first_must-build_search_filter org_id department_id user_id role session_id scope) h)

  abbrev pub owned : Option String → Option String → Payload → Bool
  owned user_id session_id p =
      (truthy user_id && has p "uploader_id" (get_or "" user_id))
      || (truthy session_id && has p "session_id" (get_or "" session_id))

  personal_clauses_lem :
      (user_id session_id : Option String) (p : Payload)
      → meets_should (personal_clauses user_id session_id) p
        ≡ (owned user_id session_id p || (not (truthy user_id) && not (truthy session_id)))
  unfolding personal_clauses
  personal_clauses_lem user_id session_id p = elim (Bool-cases (truthy user_id)) [
    | inl user ↦ rw user (
        simp (meets_should-cons, meets_any-cons, meets_any-nil, meets-value, clause_if_lem)
          (ground arith))
    | inr no_user ↦ elim (Bool-cases (truthy session_id)) [
      | inl session ↦
          rw (no_user, session)
            (simp (meets_should-cons, meets_any-cons, meets_any-nil, meets-value) (ground arith))
      | inr no_session ↦ rw (no_user, no_session) (meets_should-nil p)
    ]
  ]

  -- A personal search lets through the tenant's points that the user uploaded or that belong to
  -- the session; and where the request has neither a user nor a session, all of the tenant's
  -- points, since no clause is left that narrows it.
  pub personal_visibility :
      (org_id : String) (department_id user_id : Option String) (role : Option UserRole)
      (session_id : Option String) (p : Payload)
      → matches
          (build_search_filter org_id department_id user_id role session_id (some "personal"))
          p
        ≡ (has p "org_id" org_id
            && (owned user_id session_id p || (not (truthy user_id) && not (truthy session_id))))
  unfolding build_search_filter scope_is
  personal_visibility org_id department_id user_id role session_id p =
      simp
        (
          matches-filter, meets_all-cons, meets_all-nil, meets_any-nil, meets-value,
          personal_clauses_lem,
        )
        (ground arith)

  -- A session search with a session lets through exactly the uploads of that session in the
  -- tenant, whoever asks.
  pub session_visibility :
      (org_id : String) (department_id user_id : Option String) (role : Option UserRole)
      (session_id : Option String) (p : Payload)
      → truthy session_id ≡ true
      → matches
          (build_search_filter org_id department_id user_id role session_id (some "session"))
          p
        ≡ (has p "org_id" org_id
            && has p "session_id" (get_or "" session_id)
            && has p "scope" "session")
  unfolding build_search_filter scope_is
  session_visibility org_id department_id user_id role session_id p h = rw h (
      simp
        (
          matches-filter, meets_all-cons, meets_all-nil, meets_any-nil, meets_should-nil,
          meets-value,
        )
        (ground arith))
