-- ===== src/Governance/Access.antt =====
-- The documents that a user is listed and the ones that a search finds: document_repository.py,
-- `list_accessible_documents`, next to rag_core/retrieval/security_filter.py.
use cognitive_rag_system.Prelude.{
  Bool, true, false, ◌&&◌, ◌||◌, ◌≡◌, refl, String, Option, none, some, truthy, get_or, sym, ◌∙◌,
  ◌==◌, eq_iff, arith,
}
use cognitive_rag_system.Auth.{
  role_value, UserRole, super_admin, dept_admin, member, auditor, public, department, confidential,
  restricted, level_value, AccessLevel, is_super_admin, is_dept_admin,
}
use cognitive_rag_system.Retrieval.Qdrant.{Engine}
use cognitive_rag_system.Retrieval.SecurityFilter.{build_search_filter, scope_is}
use cognitive_rag_system.Retrieval.Visibility.{enterprise_visibility}
use cognitive_rag_system.Governance.Documents.{
  EnterpriseDocument, column_is, column_eq, is_level, is_accessible,
}

level-public : (level : AccessLevel) → (level_value level == "PUBLIC") ≡ is_level level public
unfolding is_level
level-public public = refl
level-public department = refl
level-public confidential = refl
level-public restricted = refl

level-department :
    (level : AccessLevel) → (level_value level == "DEPARTMENT") ≡ is_level level department
unfolding is_level
level-department public = refl
level-department department = refl
level-department confidential = refl
level-department restricted = refl

column_eq-some : (o : Option String) (v : String) → column_eq o (some v) ≡ column_is o v
unfolding column_eq column_is
column_eq-some none v = refl
column_eq-some (some s) v = refl

level-confidential :
    (level : AccessLevel) → (level_value level == "CONFIDENTIAL") ≡ is_level level confidential
unfolding is_level
level-confidential public = refl
level-confidential department = refl
level-confidential confidential = refl
level-confidential restricted = refl

-- What `column or ""` compares with a given text.
column_or_empty :
    (o : Option String) (v : String) → truthy (some v) ≡ true → (get_or "" o == v) ≡ column_is o v
unfolding column_is
column_or_empty none v h = ground (arith, eq_iff "" v, eq_iff v "")
column_or_empty (some s) v h = refl

-- What the search shows of a document of the tenant.
abbrev shown : (dept user : String) → UserRole → EnterpriseDocument → Bool
shown dept user role row =
    is_super_admin (some role)
    || is_level row.access_level public
    || column_is row.uploader_id user
    || (column_is row.department_id dept
        && (is_level row.access_level department
            || (is_dept_admin (some role) && is_level row.access_level confidential)))

shown-accessible :
    (org_id dept user : String) (role : UserRole) (row : EnterpriseDocument)
    → (row.org_id == org_id && shown dept user role row) ≡ true
    → is_accessible org_id (some dept) user (role_value role) row ≡ true
unfolding is_accessible
shown-accessible org_id dept user super_admin row h = ground arith
shown-accessible org_id dept user dept_admin row h =
    ground (arith, column_eq-some row.department_id dept)
shown-accessible org_id dept user member row h =
    ground (arith, column_eq-some row.department_id dept)
shown-accessible org_id dept user auditor row h =
    ground (arith, column_eq-some row.department_id dept)

shown-member :
    (org_id dept user : String) (row : EnterpriseDocument)
    → (row.org_id == org_id && shown dept user member row)
      ≡ is_accessible org_id (some dept) user (role_value member) row
unfolding is_accessible
shown-member org_id dept user row = ground (arith, column_eq-some row.department_id dept)

module _ (engine : Engine) where
  open engine use {Payload, has, matches}

  -- The payload that `ingest_document` gives the points of a document of the knowledge base: the
  -- document's own columns, with "" for NULL, and a scope that is not that of a session.
  pub record IsPayloadOf (row : EnterpriseDocument) (p : Payload) : Type 0 where
    pub org_id : (v : String) → has p "org_id" v ≡ (row.org_id == v)
    pub department_id : (v : String) → has p "department_id" v ≡ (get_or "" row.department_id == v)
    pub uploader_id : (v : String) → has p "uploader_id" v ≡ (get_or "" row.uploader_id == v)
    pub access_level : (v : String) → has p "access_level" v ≡ (level_value row.access_level == v)
    pub no_session : has p "scope" "session" ≡ false

  found-shown :
      (org_id dept user : String) (role : UserRole) (row : EnterpriseDocument) (p : Payload)
      → truthy (some dept) ≡ true
      → truthy (some user) ≡ true
      → IsPayloadOf row p
      → matches (build_search_filter org_id (some dept) (some user) (some role) none none) p
        ≡ (row.org_id == org_id && shown dept user role row)
  unfolding scope_is
  found-shown org_id dept user role row p d u h =
      rw
        (
          enterprise_visibility engine org_id (some dept) (some user) (some role) none none p refl
              refl,
          h.org_id org_id,
          h.no_session,
          h.access_level "PUBLIC",
          h.access_level "DEPARTMENT",
          h.access_level "CONFIDENTIAL",
          h.uploader_id user,
          h.department_id dept,
          column_or_empty row.uploader_id user u,
          column_or_empty row.department_id dept d,
          level-public row.access_level,
          level-department row.access_level,
          level-confidential row.access_level,
        )
        (ground arith)

  -- For points that carry their document's columns, an identified member of a department finds by
  -- a search of the knowledge base exactly the documents that the list shows them.
  pub member_finds_listed :
      (org_id dept user : String) (row : EnterpriseDocument) (p : Payload)
      → truthy (some dept) ≡ true
      → truthy (some user) ≡ true
      → IsPayloadOf row p
      → matches (build_search_filter org_id (some dept) (some user) (some member) none none) p
        ≡ is_accessible org_id (some dept) user (role_value member) row
  member_finds_listed org_id dept user row p d u h =
      found-shown org_id dept user member row p d u h ∙ shown-member org_id dept user row

  -- For points that carry their document's columns, and whatever the role of an identified user
  -- with a department, a search of the knowledge base finds no document that the list hides from
  -- them.
  pub search_within_list :
      (org_id dept user : String) (role : UserRole) (row : EnterpriseDocument) (p : Payload)
      → truthy (some dept) ≡ true
      → truthy (some user) ≡ true
      → IsPayloadOf row p
      → matches (build_search_filter org_id (some dept) (some user) (some role) none none) p ≡ true
      → is_accessible org_id (some dept) user (role_value role) row ≡ true
  search_within_list org_id dept user role row p d u h m =
      shown-accessible org_id dept user role row
        (sym (found-shown org_id dept user role row p d u h) ∙ m)
