-- ===== src/Governance/Jobs.antt =====
-- The data of ingestion jobs: governance/domain/models.py, connectors/base.py, and the arguments
-- and answers of the tasks in ingestion_tasks.py.
use cognitive_rag_system.Prelude.{ℕ, String, Option, List}
use cognitive_rag_system.Text.{Text}
use cognitive_rag_system.Auth.{AccessLevel}
use cognitive_rag_system.Governance.Documents.{EnterpriseDocument}

pub data JobStatus : Type 0 where
  pending running completed failed : JobStatus

pub record IngestionJob : Type 0 where
  pub id : String
  pub org_id : String
  pub department_id : Option String
  pub created_by_id : Option String
  pub access_level : AccessLevel
  pub status : JobStatus
  pub error_message : Option String
  pub documents_processed_count : ℕ
  pub last_run_at : Option String

-- connectors/base.py, `RawDocument`, with the two entries of its metadata that the job reads.
pub record RawDocument : Type 0 where
  pub doc_id : String
  pub filename : Text
  pub content_bytes : Text
  pub mime_type : Option String
  pub metadata_external_id : Option String
  pub last_modified : Option String

-- A path below the staging directory.
pub record StagedPath : Type 0 where
  pub org_id : String
  pub file : Text

-- The arguments of `async_ingest_connector_document_task`.
pub record Subtask : Type 0 where
  pub document_id : String
  pub job_id : String
  pub filename : Text
  pub staged_path : StagedPath
  pub org_id : String
  pub department_id : Option String
  pub uploader_id : String
  pub access_level : AccessLevel
  pub mime_type : Option String

-- What the connector yields, and the error that it raises after that, if any. A configuration
-- that cannot be decrypted or a source that cannot be reached yields nothing.
pub record Fetch : Type 0 where
  pub documents : List RawDocument
  pub error : Option String

-- What the task returns, with the job and the tables that it leaves: the dispatched subtasks
-- and the ids of the purged documents stand for their numbers.
pub data Outcome : Type 0 where
  not_found : Outcome
  done :
      (job : IngestionJob) (documents : List EnterpriseDocument) (dispatched : List Subtask)
      (skipped_count : ℕ) (purged : List String)
      → Outcome
  broken : (job : IngestionJob) (documents : List EnterpriseDocument) (error : String) → Outcome
