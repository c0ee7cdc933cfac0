-- ===== src/Governance/Workers.antt =====
-- modules/tasks/workers/ingestion_tasks.py: the workers that index a document, for an upload and
-- for a document of a connector.
use cognitive_rag_system.Prelude.{
  ℕ, Bool, ◌&&◌, String, Option, none, some, List, [], ◌∷◌, ◌==◌, truthy, get_or, if◌then◌else◌,
  not, length, distinct, true, false, concat, is_some, ◌⊎◌, inl, inr, map, select, ◌++◌,
}
use cognitive_rag_system.Text.{Text, codes, starts_with, text_eq}
use cognitive_rag_system.Governance.Documents.{
  EnterpriseDocument, processing, indexed, failed, update_document_status,
}
use cognitive_rag_system.Governance.Jobs.{StagedPath, Subtask}

-- The documents table and the staged files.
pub record Shared : Type 0 where
  pub documents : List EnterpriseDocument
  pub staged : List (StagedPath × Text)

unfoldable pub same_path : StagedPath → StagedPath → Bool
same_path a b = a.org_id == b.org_id && text_eq a.file b.file

-- `StorageManager.read_staged_file`; `none` is the FileNotFoundError
unfoldable pub read_staged_file : List (StagedPath × Text) → StagedPath → Option Text
read_staged_file [] path = none
read_staged_file ((other, bytes) ∷ files) path =
    if same_path other path then some bytes else read_staged_file files path

-- The files but the one at a path.
unfoldable pub without : List (StagedPath × Text) → StagedPath → List (StagedPath × Text)
without [] path = []
without ((other, bytes) ∷ files) path =
    let rest = without files path in if same_path other path then rest else (other, bytes) ∷ rest

-- `StorageManager.delete_staged_file`: its answer, and the files that it leaves. `removes` says
-- whether `os.remove` succeeds: an exception is logged only, and the file stays.
unfoldable pub delete_staged_file :
    (removes : Bool) → List (StagedPath × Text) → StagedPath → Bool × List (StagedPath × Text)
delete_staged_file removes files path =
    if is_some (read_staged_file files path) && removes
    then (true, without files path)
    else (false, files)

unfoldable pub is_staged_for : (doc_id org_id : String) → StagedPath × Text → Bool
is_staged_for doc_id org_id f =
    f.0.org_id == org_id && starts_with f.0.file (codes doc_id ++ b'_' ∷ [])

-- `StorageManager.purge_staged_files_for_doc`: the number of files that it removes, and the rest.
-- The directory of no organization is that of the empty one.
unfoldable pub purge_staged_files_for_doc :
    (doc_id : String) → Option String → List (StagedPath × Text) → ℕ × List (StagedPath × Text)
purge_staged_files_for_doc doc_id org_id files =
    let is_ours = is_staged_for doc_id (get_or "" org_id) in
    (
      length (distinct text_eq (map (λ f. f.0.file) (select is_ours files))),
      select (λ f. not (is_ours f)) files,
    )

-- What the parsing, embedding and indexing of a content comes to.
pub data Ingested : Type 0 where
  chunks : ℕ → Ingested
  raised : String → Ingested

pub data Answer : Type 0 where
  success : (document_id : String) (chunks : ℕ) → Answer
  failure : (document_id : String) (error : String) → Answer

-- The end of a task, on success and in the handler of its exceptions.
unfoldable pub settle : (removes : Bool) → String → StagedPath → Shared → Ingested → Shared × Answer
settle removes doc_id path s (chunks n) = (
  record {
    documents = update_document_status s.documents doc_id indexed (some n) none;
    staged = (delete_staged_file removes s.staged path).1;
  },
  success doc_id n,
)
settle removes doc_id path s (raised e) = (
  record {
    documents = update_document_status s.documents doc_id failed none (some e);
    staged = (delete_staged_file removes s.staged path).1;
  },
  failure doc_id e,
)

-- `ingest` is `UnifiedRAGOrchestrator.ingest_document` on a subtask and the content, `path_text` the
-- text of a path in the staging directory of the settings.
module _ (ingest : Subtask → Text → Ingested) (path_text : StagedPath → String) where
  unfoldable pub ingest_staged : Subtask → Option Text → Ingested
  ingest_staged task none =
      raised (concat "Staged file not found at path: " (path_text task.staged_path))
  ingest_staged task (some bytes) = ingest task bytes

  unfoldable pub ingest_connector_document : (removes : Bool) → Subtask → Shared → Shared × Answer
  ingest_connector_document removes task s =
      let busy = record s {
        documents = update_document_status s.documents task.document_id processing none none;
      } in
      settle removes task.document_id task.staged_path busy
        (ingest_staged task (read_staged_file busy.staged task.staged_path))

-- The arguments of `async_ingest_document_task`.
pub record Upload : Type 0 where
  pub document_id : String
  pub filename : Text
  pub org_id : String
  pub department_id : String
  pub uploader_id : String
  pub access_level : String
  pub staged_path : Option StagedPath
  pub file_bytes_b64 : Option String
  pub session_id : Option String
  pub mime_type : Option String

-- The end of the task of an upload: as `settle`, for a file that may not be staged.
unfoldable pub settle_upload :
    (removes : Bool) → String → Option StagedPath → Shared → Ingested → Shared × Answer
settle_upload removes doc_id (some path) s outcome = settle removes doc_id path s outcome
settle_upload removes doc_id none s (chunks n) = (
  record s { documents = update_document_status s.documents doc_id indexed (some n) none },
  success doc_id n,
)
settle_upload removes doc_id none s (raised e) = (
  record s { documents = update_document_status s.documents doc_id failed none (some e) },
  failure doc_id e,
)

-- The content of a staged path, if there is a path and a file at it.
unfoldable pub read_optional : List (StagedPath × Text) → Option StagedPath → Option Text
read_optional files none = none
read_optional files (some path) = read_staged_file files path

-- `ingest` is `ingest_document` on an upload and its content, `b64decode` the decoder, or the text
-- of the exception that it raises.
module _ (ingest : Upload → Text → Ingested) (b64decode : String → String ⊎ Text) where
  unfoldable pub ingest_decoded : Upload → String ⊎ Text → Ingested
  ingest_decoded upload (inl error) = raised error
  ingest_decoded upload (inr bytes) = ingest upload bytes

  unfoldable pub ingest_bytes : Upload → Option Text → Ingested
  ingest_bytes upload (some bytes) = ingest upload bytes
  ingest_bytes upload none =
      if truthy upload.file_bytes_b64
      then ingest_decoded upload (b64decode (get_or "" upload.file_bytes_b64))
      else raised (concat "No valid file source found for document " upload.document_id)

  unfoldable pub ingest_uploaded_document : (removes : Bool) → Upload → Shared → Shared × Answer
  ingest_uploaded_document removes upload s =
      let busy = record s {
        documents = update_document_status s.documents upload.document_id processing none none;
      } in
      settle_upload removes upload.document_id upload.staged_path busy
        (ingest_bytes upload (read_optional busy.staged upload.staged_path))
