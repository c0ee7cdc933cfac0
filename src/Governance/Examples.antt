-- ===== src/Governance/Examples.antt =====
-- A job with one unchanged, one changed, one new and one deleted document.
use cognitive_rag_system.Prelude.{
  ℕ, ◌⊎◌, inr, true, false, ◌≡◌, refl, String, none, some, List, [], ◌∷◌, map, length, arith,
  nat_eq, if◌then◌else◌,
}
use cognitive_rag_system.Text.{Text, codes, text_eq}
use cognitive_rag_system.Auth.{role_value, department, restricted, member, dept_admin}
use cognitive_rag_system.Retrieval.Qdrant.{list_engine}
use cognitive_rag_system.Retrieval.SecurityFilter.{
  build_search_filter, scope_is, enterprise_clauses, dept_clause, dept_acl_allowed,
}
use cognitive_rag_system.Text.{starts_with}
use cognitive_rag_system.Governance.Documents.{
  DocumentStatus, EnterpriseDocument, first_where, update_first, has_key,
  get_document_by_external_id, is_stale, purge_deleted_external_documents, column_is, column_eq,
  is_null, is_level, is_accessible, set_status, update_document_status, has_id,
}
use cognitive_rag_system.Governance.Jobs.{
  StagedPath, IngestionJob, Subtask, JobStatus, RawDocument, Fetch, Outcome,
}
use cognitive_rag_system.Governance.Cdc.{
  external_id, execute_ingestion_job, is_safe, staged_path, is_indexed, is_unchanged, modified_at,
  refresh, created, dispatch, scan_found, scan_document, scan_documents, start, complete, finish,
  or_text, nonempty,
}
use cognitive_rag_system.Governance.Runs.{Completes, Fails, run-Completes, run-Fails}
use cognitive_rag_system.Governance.Idle.{is_ready, is_distinct}
use cognitive_rag_system.Governance.SecondRun.{documents_after, IsIdle, IsIndexing}
use cognitive_rag_system.Governance.Converge.{job_after, second_run-IsIdle}
use cognitive_rag_system.Governance.Access.{IsPayloadOf, member_finds_listed, search_within_list}
use cognitive_rag_system.Governance.Uploads
use cognitive_rag_system.Governance.Uploads.{upload_settles}
use cognitive_rag_system.Governance.Workers.{
  Upload, ingest_decoded, ingest_bytes, read_optional, ingest_uploaded_document, Shared, Ingested,
  chunks, same_path, read_staged_file, without, delete_staged_file, is_staged_for,
  purge_staged_files_for_doc, settle, ingest_staged, ingest_connector_document,
}
use cognitive_rag_system.Governance.Indexing.{SettlesFound, outcome_of, worker_settles}

program : Unit {0}
unfolding first_where update_first has_key get_document_by_external_id is_stale
    purge_deleted_external_documents column_is column_eq is_null is_level is_accessible set_status
    update_document_status has_id external_id execute_ingestion_job is_safe staged_path is_indexed
    is_unchanged modified_at refresh created dispatch scan_found scan_document scan_documents start
    complete finish or_text nonempty is_ready is_distinct documents_after job_after same_path
    read_staged_file without delete_staged_file settle ingest_staged ingest_connector_document
program = tt

abbrev uuid4 : ℕ → String
uuid4 n = "new"

abbrev sha256 : Text → String
sha256 [] = "empty"
sha256 (c ∷ s) = if nat_eq c b'a' then "hash-a" else "hash-b"

abbrev raw : String → Text → RawDocument
raw e content = record {
  doc_id = e;
  filename = codes "report.pdf";
  content_bytes = content;
  mime_type = none;
  metadata_external_id = none;
  last_modified = some "2026-01-01";
}

abbrev row : (id job e hash : String) → DocumentStatus → EnterpriseDocument
row id job e hash status = record {
  id = id;
  org_id = "acme";
  department_id = some "finance";
  uploader_id = some "bob";
  filename = codes "report.pdf";
  file_hash = hash;
  file_size_bytes = 1;
  mime_type = "application/pdf";
  access_level = department;
  status = status;
  error_message = none;
  chunk_count = 3;
  job_id = some job;
  external_id = some e;
  external_last_modified = none;
}

abbrev job : IngestionJob
job = record {
  id = "j1";
  org_id = "acme";
  department_id = some "finance";
  created_by_id = none;
  access_level = department;
  status = JobStatus.pending;
  error_message = none;
  documents_processed_count = 4;
  last_run_at = none;
}

abbrev table : List EnterpriseDocument
table =
    row "d1" "j1" "same" "hash-a" DocumentStatus.indexed
    ∷ row "d2" "j1" "changed" "hash-a" DocumentStatus.indexed
    ∷ row "d3" "j1" "deleted" "hash-a" DocumentStatus.indexed
    ∷ row "d4" "j2" "deleted" "hash-a" DocumentStatus.indexed
    ∷ []

abbrev fetched : List RawDocument
fetched = raw "same" (b'a' ∷ []) ∷ raw "changed" (b'b' ∷ []) ∷ raw "added" (b'a' ∷ []) ∷ []

abbrev fetch : Fetch
fetch = record { documents = fetched; error = none }

abbrev cut_off : Fetch
cut_off = record { documents = fetched; error = some "timeout" }

abbrev run : Fetch → Outcome
run source = execute_ingestion_job uuid4 sha256 some "now" source (some job) table 0

-- The keys that a run leaves.
abbrev ids_after : Outcome → List String
ids_after outcome = map (λ (r : EnterpriseDocument). r.id) (documents_after outcome)

run_table : ids_after (run fetch) ≡ ("d1" ∷ "d2" ∷ "d4" ∷ "new" ∷ [])
unfolding program
run_table = refl

run-Completes_example : Completes job fetched table (run fetch)
run-Completes_example = run-Completes uuid4 sha256 some "now" fetch job table 0 refl

run-Fails_example : Fails table "timeout" (run cut_off)
run-Fails_example = run-Fails uuid4 sha256 some "now" cut_off job table 0 "timeout" refl

-- The workers index what waits.
abbrev work : EnterpriseDocument → EnterpriseDocument
work r = record r { status = DocumentStatus.indexed }

work-IsIndexing : IsIndexing work
unfolding program
work-IsIndexing = record {
  org_id = λ r. refl;
  job_id = λ r. refl;
  external_id = λ r. refl;
  file_hash = λ r. refl;
  status = λ r h. refl;
}

fetched_distinct : is_distinct (map external_id fetched) ≡ true
unfolding program
fetched_distinct = refl

second_run-IsIdle_example : IsIdle fetched (map work (documents_after (run fetch))) (
    execute_ingestion_job uuid4 sha256 some "later" fetch
      (some (job_after job (run fetch)))
      (map work (documents_after (run fetch)))
      1)
second_run-IsIdle_example =
    second_run-IsIdle uuid4 sha256 some "now" "later" fetch job table 0 1 work refl fetched_distinct
      work-IsIndexing

abbrev report : EnterpriseDocument
report = row "d1" "j1" "same" "hash-a" DocumentStatus.indexed

abbrev payload : List (String × String)
payload =
    ("org_id", "acme")
    ∷ ("department_id", "finance")
    ∷ ("uploader_id", "bob")
    ∷ ("access_level", "DEPARTMENT")
    ∷ ("scope", "enterprise")
    ∷ []

payload-IsPayloadOf : IsPayloadOf list_engine report payload
payload-IsPayloadOf = record {
  org_id = λ v. ground arith;
  department_id = λ v. ground arith;
  uploader_id = λ v. ground arith;
  access_level = λ v. ground arith;
  no_session = refl;
}

member_finds_listed_example :
    list_engine.matches
      (build_search_filter "acme" (some "finance") (some "eve") (some member) none none)
      payload
    ≡ is_accessible "acme" (some "finance") "eve" (role_value member) report
member_finds_listed_example =
    member_finds_listed list_engine "acme" "finance" "eve" report payload refl refl
      payload-IsPayloadOf

report_found :
    list_engine.matches
      (build_search_filter "acme" (some "finance") (some "eve") (some dept_admin) none none)
      payload
    ≡ true
unfolding program scope_is enterprise_clauses dept_clause dept_acl_allowed build_search_filter
report_found = refl

search_within_list_example :
    is_accessible "acme" (some "finance") "eve" (role_value dept_admin) report ≡ true
search_within_list_example =
    search_within_list list_engine "acme" "finance" "eve" dept_admin report payload refl refl
      payload-IsPayloadOf report_found

-- The list shows an administrator a restricted document of the department, which no search of
-- theirs finds.
restricted_listed :
    is_accessible "acme"
      (some "finance")
      "eve"
      (role_value dept_admin)
      (record report { access_level = restricted })
    ≡ true
unfolding program
restricted_listed = refl

abbrev task : Subtask
task = record {
  document_id = "d1";
  job_id = "j1";
  filename = codes "report.pdf";
  staged_path = staged_path (codes "report.pdf") "d1" "acme";
  org_id = "acme";
  department_id = some "finance";
  uploader_id = "bob";
  access_level = department;
  mime_type = none;
}

abbrev plan_path : StagedPath
plan_path = staged_path (codes "plan.pdf") "d2" "acme"

abbrev shared : Shared
shared = record {
  documents = row "d1" "j1" "same" "hash-a" DocumentStatus.pending ∷ [];
  staged = (staged_path (codes "report.pdf") "d1" "acme", b'a' ∷ []) ∷ (plan_path, b'b' ∷ []) ∷ [];
}

abbrev path_text : StagedPath → String
path_text path = path.org_id

abbrev ingest : Subtask → Text → Ingested
ingest t bytes = chunks (length bytes)

task_row :
    first_where (has_id "d1") shared.documents
    ≡ some (row "d1" "j1" "same" "hash-a" DocumentStatus.pending)
unfolding program
task_row = refl

plan_apart : same_path task.staged_path plan_path ≡ false
unfolding program text_eq
plan_apart = refl

worker_settles_example :
    SettlesFound "d1"
      (outcome_of ingest path_text task shared)
      (first_where
        (has_id "d1")
        (ingest_connector_document ingest path_text true task shared).0.documents)
      (ingest_connector_document ingest path_text true task shared).1
    × (read_staged_file
          (ingest_connector_document ingest path_text true task shared).0.staged
          task.staged_path
        ≡ none)
    × (read_staged_file
          (ingest_connector_document ingest path_text true task shared).0.staged
          plan_path
        ≡ read_staged_file shared.staged plan_path)
    × (first_where
          (has_id "d2")
          (ingest_connector_document ingest path_text true task shared).0.documents
        ≡ first_where (has_id "d2") shared.documents)
worker_settles_example =
    worker_settles ingest path_text true task shared
      (row "d1" "j1" "same" "hash-a" DocumentStatus.pending) "d2" plan_path task_row refl plan_apart

worker_indexes : outcome_of ingest path_text task shared ≡ chunks 1
unfolding program text_eq
worker_indexes = refl

-- A file that cannot be removed stays, and the worker still reports its success.
deletion_fails :
    read_staged_file
      (ingest_connector_document ingest path_text false task shared).0.staged
      task.staged_path
    ≡ some (b'a' ∷ [])
unfolding program text_eq
deletion_fails = refl

abbrev upload : Upload
upload = record {
  document_id = "d1";
  filename = codes "report.pdf";
  org_id = "acme";
  department_id = "finance";
  uploader_id = "bob";
  access_level = "DEPARTMENT";
  staged_path = some (staged_path (codes "report.pdf") "d1" "acme");
  file_bytes_b64 = none;
  session_id = none;
  mime_type = none;
}

abbrev ingest_upload : Upload → Text → Ingested
ingest_upload u bytes = chunks (length bytes)

abbrev b64decode : String → String ⊎ Text
b64decode s = inr (b'a' ∷ [])

upload_indexes : Uploads.outcome_of ingest_upload b64decode upload shared ≡ chunks 1
unfolding program ingest_decoded ingest_bytes read_optional text_eq
upload_indexes = refl

upload_settles_example :
    SettlesFound "d1"
      (Uploads.outcome_of ingest_upload b64decode upload shared)
      (first_where
        (has_id "d1")
        (ingest_uploaded_document ingest_upload b64decode true upload shared).0.documents)
      (ingest_uploaded_document ingest_upload b64decode true upload shared).1
    × (read_optional
          (ingest_uploaded_document ingest_upload b64decode true upload shared).0.staged
          upload.staged_path
        ≡ none)
    × (read_staged_file
          (ingest_uploaded_document ingest_upload b64decode true upload shared).0.staged
          plan_path
        ≡ read_staged_file shared.staged plan_path)
    × (first_where
          (has_id "d2")
          (ingest_uploaded_document ingest_upload b64decode true upload shared).0.documents
        ≡ first_where (has_id "d2") shared.documents)
upload_settles_example =
    upload_settles ingest_upload b64decode true upload shared
      (row "d1" "j1" "same" "hash-a" DocumentStatus.pending) "d2" plan_path task_row refl plan_apart

purges_by_document :
    purge_staged_files_for_doc "d1" (some "acme") (
      (staged_path (codes "report.pdf") "d1" "acme", b'a' ∷ [])
      ∷ (staged_path (codes "plan.pdf") "d2" "acme", b'b' ∷ [])
      ∷ [])
    ≡ (1, (staged_path (codes "plan.pdf") "d2" "acme", b'b' ∷ []) ∷ [])
unfolding program purge_staged_files_for_doc is_staged_for starts_with
purges_by_document = refl
