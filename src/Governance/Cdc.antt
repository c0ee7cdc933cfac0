-- ===== src/Governance/Cdc.antt =====
-- modules/tasks/workers/ingestion_tasks.py, `async_execute_ingestion_job_task`: the run of an
-- ingestion job, with its change data capture, and core/storage.py for the staged files.
use cognitive_rag_system.Prelude.{
  ℕ, suc, ◌+◌, Bool, true, false, ◌&&◌, ◌||◌, String, Option, none, some, List, [], ◌∷◌, ◌++◌, ◌==◌,
  select, length, get_or, truthy, leb, nat_eq, if◌then◌else◌,
}
use cognitive_rag_system.Text.{Text, codes}
use cognitive_rag_system.Governance.Jobs.{
  JobStatus, IngestionJob, RawDocument, StagedPath, Subtask, Fetch, Outcome, done, broken,
  not_found,
}
use cognitive_rag_system.Governance.Documents.{
  DocumentStatus, EnterpriseDocument, update_first, has_key, get_document_by_external_id,
  purge_deleted_external_documents,
}

-- `c.isalnum() or c in (".", "_", "-")`, for ASCII
unfoldable pub is_safe : ℕ → Bool
is_safe c =
    leb b'a' c && leb c b'z'
    || leb b'A' c && leb c b'Z'
    || leb b'0' c && leb c b'9'
    || nat_eq c b'.'
    || nat_eq c b'_'
    || nat_eq c b'-'

-- `StorageManager.save_staged_file`: the path that it writes to
unfoldable pub staged_path : (filename : Text) (doc_id org_id : String) → StagedPath
staged_path filename doc_id org_id = record {
  org_id = org_id;
  file = codes doc_id ++ (b'_' ∷ select is_safe filename);
}

-- `raw_doc.metadata.get("external_id") or raw_doc.doc_id`
unfoldable pub external_id : RawDocument → String
external_id raw =
    if truthy raw.metadata_external_id then get_or "" raw.metadata_external_id else raw.doc_id

-- What the loop over the fetched documents has done so far. A set is the list of its members, the
-- last one first; the staged files are the writes, the last one first.
pub record Scan : Type 0 where
  pub documents : List EnterpriseDocument
  pub issued : ℕ
  pub staged : List (StagedPath × Text)
  pub active_external_ids : List String
  pub subtasks : List Subtask
  pub skipped_count : ℕ

unfoldable pub is_indexed : DocumentStatus → Bool
is_indexed DocumentStatus.indexed = true
is_indexed _ = false

unfoldable pub is_unchanged : EnterpriseDocument → String → Bool
is_unchanged existing hash = existing.file_hash == hash && is_indexed existing.status

-- `x or "…"` for an optional text
unfoldable pub or_text : Option String → String → String
or_text o default = if truthy o then get_or "" o else default

-- `x if x else None`
unfoldable pub nonempty : Option String → Option String
nonempty o = if truthy o then o else none

unfoldable pub start : List EnterpriseDocument → ℕ → Scan
start rows issued = record {
  documents = rows;
  issued = issued;
  staged = [];
  active_external_ids = [];
  subtasks = [];
  skipped_count = 0;
}

unfoldable pub complete : (now : String) → IngestionJob → Scan → Outcome
complete now job s =
    let purged =
      purge_deleted_external_documents s.documents job.org_id job.id s.active_external_ids in
    done
      (record job {
        status = JobStatus.completed;
        documents_processed_count = job.documents_processed_count + length s.subtasks;
        last_run_at = some now;
      })
      purged.0 s.subtasks s.skipped_count purged.1

unfoldable pub finish : (now : String) → IngestionJob → Scan → Option String → Outcome
finish now job s none = complete now job s
finish now job s (some error) =
    broken (record job { status = JobStatus.failed; error_message = some error }) s.documents error

-- `uuid4` gives the n-th primary key, `sha256` the digest of a content, `fromisoformat` the time
-- that a text denotes.
module _ (uuid4 : ℕ → String) (sha256 : Text → String)
    (fromisoformat : String → Option String) where
  unfoldable pub modified_at : Option String → Option String
  modified_at none = none
  modified_at (some t) = if t == "" then none else fromisoformat t

  -- The attributes that an updated document gets.
  unfoldable pub refresh : RawDocument → EnterpriseDocument → EnterpriseDocument
  refresh raw row = record row {
    file_hash = sha256 raw.content_bytes;
    file_size_bytes = length raw.content_bytes;
    status = DocumentStatus.pending;
    external_last_modified = modified_at raw.last_modified;
  }

  -- `create_document`, with the arguments that the job passes
  unfoldable pub created : IngestionJob → RawDocument → ℕ → EnterpriseDocument
  created job raw n = record {
    id = uuid4 n;
    org_id = job.org_id;
    department_id = nonempty job.department_id;
    uploader_id = some (or_text job.created_by_id "system_admin");
    filename = raw.filename;
    file_hash = sha256 raw.content_bytes;
    file_size_bytes = length raw.content_bytes;
    mime_type = or_text raw.mime_type "application/octet-stream";
    access_level = job.access_level;
    status = DocumentStatus.pending;
    error_message = none;
    chunk_count = 0;
    job_id = some job.id;
    external_id = some (external_id raw);
    external_last_modified = modified_at raw.last_modified;
  }

  -- Stages the content and queues the subtask of a document.
  unfoldable pub dispatch : IngestionJob → RawDocument → String → Scan → Scan
  dispatch job raw doc_id s =
      let path = staged_path raw.filename doc_id job.org_id in
      record s {
        staged = (path, raw.content_bytes) ∷ s.staged;
        subtasks =
            s.subtasks
            ++ (record {
              document_id = doc_id;
              job_id = job.id;
              filename = raw.filename;
              staged_path = path;
              org_id = job.org_id;
              department_id = job.department_id;
              uploader_id = or_text job.created_by_id "system_admin";
              access_level = job.access_level;
              mime_type = raw.mime_type;
            }
                ∷ []);
      }

  -- The body of the loop, for the existing document that was found.
  unfoldable pub scan_found : IngestionJob → RawDocument → Scan → Option EnterpriseDocument → Scan
  scan_found job raw s none = dispatch job raw (uuid4 s.issued) (record s {
    documents = s.documents ++ (created job raw s.issued ∷ []);
    issued = suc s.issued;
  })
  scan_found job raw s (some existing) =
      if is_unchanged existing (sha256 raw.content_bytes)
      then record s { skipped_count = suc s.skipped_count }
      else dispatch job raw existing.id (record s {
        documents =
            update_first (has_key job.org_id job.id (external_id raw)) (refresh raw) s.documents;
      })

  unfoldable pub scan_document : IngestionJob → RawDocument → Scan → Scan
  scan_document job raw s =
      scan_found job raw
        (record s { active_external_ids = external_id raw ∷ s.active_external_ids })
        (get_document_by_external_id s.documents job.org_id job.id (external_id raw))

  unfoldable pub scan_documents : IngestionJob → List RawDocument → Scan → Scan
  scan_documents job [] s = s
  scan_documents job (raw ∷ raws) s = scan_documents job raws (scan_document job raw s)

  unfoldable pub execute_ingestion_job :
      (now : String) (fetch : Fetch) → Option IngestionJob → List EnterpriseDocument → ℕ → Outcome
  execute_ingestion_job now fetch none rows issued = not_found
  execute_ingestion_job now fetch (some job) rows issued =
      let started = record job { status = JobStatus.running } in
      finish now started (scan_documents started fetch.documents (start rows issued)) fetch.error
