-- ===== src/Governance/Documents.antt =====
-- modules/governance: domain/models.py (the rows of the documents table) and
-- repositories/document_repository.py (the queries and updates on it). The table is the list of
-- its rows; a query's `first()` is the first row that meets its filter.
use cognitive_rag_system.Prelude.{
  ℕ, Bool, true, false, not, ◌&&◌, ◌||◌, String, Option, none, some, List, [], ◌∷◌, ◌==◌, map,
  select, member, get_or, if◌then◌else◌,
}
use cognitive_rag_system.Prelude.Dict.{or_else}
use cognitive_rag_system.Text.{Text}
use cognitive_rag_system.Auth.{AccessLevel, public, department, confidential, restricted}

pub data DocumentStatus : Type 0 where
  pending processing indexed failed archived : DocumentStatus

pub record EnterpriseDocument : Type 0 where
  pub id : String
  pub org_id : String
  pub department_id : Option String
  pub uploader_id : Option String
  pub filename : Text
  pub file_hash : String
  pub file_size_bytes : ℕ
  pub mime_type : String
  pub access_level : AccessLevel
  pub status : DocumentStatus
  pub error_message : Option String
  pub chunk_count : ℕ
  pub job_id : Option String
  pub external_id : Option String
  pub external_last_modified : Option String

-- A comparison of a nullable column with a text, which NULL never meets.
unfoldable pub column_is : Option String → String → Bool
column_is none value = false
column_is (some s) value = s == value

-- A comparison with an optional value: with `None` it is IS NULL.
unfoldable pub column_eq : Option String → Option String → Bool
column_eq none none = true
column_eq none (some v) = false
column_eq (some s) none = false
column_eq (some s) (some v) = s == v

unfoldable pub first_where :
    (EnterpriseDocument → Bool) → List EnterpriseDocument → Option EnterpriseDocument
first_where p [] = none
first_where p (row ∷ rows) = if p row then some row else first_where p rows

-- The assignments to the attributes of the row that `first()` gave, committed.
unfoldable pub update_first :
    (EnterpriseDocument → Bool)
    → (EnterpriseDocument → EnterpriseDocument)
    → List EnterpriseDocument
    → List EnterpriseDocument
update_first p f [] = []
update_first p f (row ∷ rows) = if p row then f row ∷ rows else row ∷ update_first p f rows

-- The filter of `get_document_by_external_id`.
unfoldable pub has_key : (org_id job_id external_id : String) → EnterpriseDocument → Bool
has_key org_id job_id external_id row =
    row.org_id == org_id && column_is row.job_id job_id && column_is row.external_id external_id

unfoldable pub get_document_by_external_id :
    List EnterpriseDocument → (org_id job_id external_id : String) → Option EnterpriseDocument
get_document_by_external_id rows org_id job_id external_id =
    first_where (has_key org_id job_id external_id) rows

unfoldable pub is_null : Option String → Bool
is_null none = true
is_null (some s) = false

-- The rows that `purge_deleted_external_documents` deletes: those of the job with an external id
-- that is no longer active.
unfoldable pub is_stale : (org_id job_id : String) → List String → EnterpriseDocument → Bool
is_stale org_id job_id active row =
    row.org_id == org_id
    && column_is row.job_id job_id
    && not (is_null row.external_id)
    && not (member (get_or "" row.external_id) active)

-- The rows left, and the ids of the deleted ones, whose vectors are deleted first (an error of
-- the vector store is swallowed).
unfoldable pub purge_deleted_external_documents :
    List EnterpriseDocument
    → (org_id job_id : String) → List String
    → List EnterpriseDocument × List String
purge_deleted_external_documents rows org_id job_id active = (
  select (λ row. not (is_stale org_id job_id active row)) rows,
  map (λ (row : EnterpriseDocument). row.id) (select (is_stale org_id job_id active) rows),
)

unfoldable pub set_status :
    DocumentStatus → Option ℕ → Option String → EnterpriseDocument → EnterpriseDocument
set_status status chunk_count error_message row = record row {
  status = status;
  chunk_count = get_or row.chunk_count chunk_count;
  error_message = or_else error_message row.error_message;
}

unfoldable pub has_id : String → EnterpriseDocument → Bool
has_id doc_id row = row.id == doc_id

unfoldable pub update_document_status :
    List EnterpriseDocument
    → String
    → DocumentStatus
    → Option ℕ
    → Option String
    → List EnterpriseDocument
update_document_status rows doc_id status chunk_count error_message =
    update_first (has_id doc_id) (set_status status chunk_count error_message) rows

unfoldable pub is_level : AccessLevel → AccessLevel → Bool
is_level public public = true
is_level department department = true
is_level confidential confidential = true
is_level restricted restricted = true
is_level _ _ = false

-- The filter of `list_accessible_documents`, by the role's text.
unfoldable pub is_accessible :
    (org_id : String) (department_id : Option String) (user_id user_role : String)
    → EnterpriseDocument
    → Bool
is_accessible org_id department_id user_id user_role row =
    row.org_id == org_id
    && (if user_role == "SUPER_ADMIN"
        then true
        else if user_role == "DEPT_ADMIN"
        then column_eq row.department_id department_id
          || is_level row.access_level public
          || column_is row.uploader_id user_id
        else is_level row.access_level public
          || (column_eq row.department_id department_id && is_level row.access_level department)
          || column_is row.uploader_id user_id)

unfoldable pub list_accessible_documents :
    List EnterpriseDocument
    → (org_id : String) (department_id : Option String) (user_id user_role : String)
    → List EnterpriseDocument
list_accessible_documents rows org_id department_id user_id user_role =
    select (is_accessible org_id department_id user_id user_role) rows
