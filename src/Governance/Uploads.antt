-- ===== src/Governance/Uploads.antt =====
-- What the worker of an upload leaves of the document and of a staged file.
use cognitive_rag_system.Prelude.{
  Bool, true, false, if◌then◌else◌, ◌==◌, ◌≡◌, refl, String, Option, none, some, ◌⊎◌,
}
use cognitive_rag_system.Text.{Text}
use cognitive_rag_system.Governance.Documents.{
  DocumentStatus, EnterpriseDocument, first_where, update_first, has_id, set_status,
  update_document_status,
}
use cognitive_rag_system.Governance.Jobs.{StagedPath}
use cognitive_rag_system.Governance.Tables.{first_where-update_first, first_where-update_other}
use cognitive_rag_system.Governance.Workers.{
  Shared, Ingested, chunks, raised, Upload, same_path, read_staged_file, settle_upload,
  read_optional, ingest_bytes, ingest_uploaded_document,
}
use cognitive_rag_system.Governance.Indexing.{
  Settles, SettlesFound, settled_row, settled_row-Settles, settled_row-id, settle-documents,
  settle-staged, read-delete, read-delete_other, has_id-other, set_status-id,
}

upload-documents :
    (removes : Bool) (doc_id : String) (outcome : Ingested) (path : Option StagedPath) (s : Shared)
    → (settle_upload removes doc_id path s outcome).0.documents
      ≡ update_first (has_id doc_id) (settled_row outcome) s.documents
unfolding settle_upload update_document_status
upload-documents removes doc_id outcome (some path) s =
    settle-documents removes doc_id outcome path s
upload-documents removes doc_id (chunks n) none s = refl
upload-documents removes doc_id (raised e) none s = refl

-- Is this the path of the upload?
abbrev pub is_path : Option StagedPath → StagedPath → Bool
is_path none file = false
is_path (some path) file = same_path path file

read-upload :
    (removes : Bool) (doc_id : String) (outcome : Ingested) (path : Option StagedPath) (s : Shared)
    → read_optional (settle_upload removes doc_id path s outcome).0.staged path
      ≡ (if removes then none else read_optional s.staged path)
unfolding settle_upload read_optional
read-upload removes doc_id outcome (some path) s =
    rw (settle-staged removes doc_id outcome path s) (read-delete removes s.staged path)
read-upload true doc_id (chunks n) none s = refl
read-upload false doc_id (chunks n) none s = refl
read-upload true doc_id (raised e) none s = refl
read-upload false doc_id (raised e) none s = refl

read-upload_other :
    (removes : Bool) (doc_id : String) (outcome : Ingested) (path : Option StagedPath) (s : Shared)
    (file : StagedPath)
    → is_path path file ≡ false
    → read_staged_file (settle_upload removes doc_id path s outcome).0.staged file
      ≡ read_staged_file s.staged file
unfolding settle_upload
read-upload_other removes doc_id outcome (some path) s file apart =
    rw (settle-staged removes doc_id outcome path s)
      (read-delete_other removes s.staged path file apart)
read-upload_other removes doc_id (chunks n) none s file apart = refl
read-upload_other removes doc_id (raised e) none s file apart = refl

upload-Settles :
    (removes : Bool) (doc_id : String) (outcome : Ingested) (row : EnterpriseDocument)
    (path : Option StagedPath) (s : Shared)
    → Settles doc_id outcome
        (settled_row outcome row)
        (settle_upload removes doc_id path s outcome).1
unfolding settle_upload Settles set_status
upload-Settles removes doc_id outcome row (some path) s =
    settled_row-Settles removes doc_id outcome row path s
upload-Settles removes doc_id (chunks n) row none s = (refl, refl, refl)
upload-Settles removes doc_id (raised e) row none s = (refl, refl, refl)

module _ (ingest : Upload → Text → Ingested) (b64decode : String → String ⊎ Text) where
  abbrev pub outcome_of : Upload → Shared → Ingested
  outcome_of upload s =
      ingest_bytes ingest b64decode upload (read_optional s.staged upload.staged_path)

  worker-documents :
      (removes : Bool) (upload : Upload) (s : Shared)
      → (ingest_uploaded_document ingest b64decode removes upload s).0.documents
        ≡ update_first (has_id upload.document_id) (settled_row (outcome_of upload s)) (
            update_first
              (has_id upload.document_id)
              (set_status DocumentStatus.processing none none)
              s.documents)
  unfolding ingest_uploaded_document update_document_status
  worker-documents removes upload s =
      upload-documents removes upload.document_id (outcome_of upload s) upload.staged_path _

  worker-answer :
      (removes : Bool) (upload : Upload) (s : Shared) (row : EnterpriseDocument)
      → SettlesFound upload.document_id
          (outcome_of upload s)
          (some (settled_row (outcome_of upload s) row))
          (ingest_uploaded_document ingest b64decode removes upload s).1
  unfolding SettlesFound ingest_uploaded_document
  worker-answer removes upload s row =
      upload-Settles removes upload.document_id (outcome_of upload s) row upload.staged_path _

  -- The staged files of a run, from those after its end.
  worker-read :
      (removes : Bool) (upload : Upload) (s : Shared)
      → read_optional
          (ingest_uploaded_document ingest b64decode removes upload s).0.staged
          upload.staged_path
        ≡ (if removes then none else read_optional s.staged upload.staged_path)
  unfolding ingest_uploaded_document
  worker-read removes upload s =
      read-upload removes upload.document_id (outcome_of upload s) upload.staged_path _

  worker-read_other :
      (removes : Bool) (upload : Upload) (s : Shared) (file : StagedPath)
      → is_path upload.staged_path file ≡ false
      → read_staged_file (ingest_uploaded_document ingest b64decode removes upload s).0.staged file
        ≡ read_staged_file s.staged file
  unfolding ingest_uploaded_document
  worker-read_other removes upload s file apart =
      read-upload_other removes upload.document_id (outcome_of upload s) upload.staged_path _ file
        apart

  -- A worker whose uploaded document is in the table leaves it INDEXED with the number of its
  -- chunks, or FAILED with the error of the indexing or of the missing content, and answers the
  -- same. The staged file of the upload, if there is one, is gone if it could be removed and stays
  -- otherwise; what every other path holds, and every other document, is as it was.
  pub upload_settles :
      (removes : Bool) (upload : Upload) (s : Shared) (row : EnterpriseDocument) (other : String)
      (file : StagedPath)
      → first_where (has_id upload.document_id) s.documents ≡ some row
      → (upload.document_id == other) ≡ false
      → is_path upload.staged_path file ≡ false
      → SettlesFound upload.document_id
          (outcome_of upload s)
          (first_where
            (has_id upload.document_id)
            (ingest_uploaded_document ingest b64decode removes upload s).0.documents)
          (ingest_uploaded_document ingest b64decode removes upload s).1
        × (read_optional
              (ingest_uploaded_document ingest b64decode removes upload s).0.staged
              upload.staged_path
            ≡ (if removes then none else read_optional s.staged upload.staged_path))
        × (read_staged_file
              (ingest_uploaded_document ingest b64decode removes upload s).0.staged
              file
            ≡ read_staged_file s.staged file)
        × (first_where
              (has_id other)
              (ingest_uploaded_document ingest b64decode removes upload s).0.documents
            ≡ first_where (has_id other) s.documents)
  upload_settles removes upload s row other file h d apart =
      let outcome = outcome_of upload s in
      let id = upload.document_id in
      let busy =
        update_first (has_id id) (set_status DocumentStatus.processing none none) s.documents in
      (
        rw
            (
              worker-documents removes upload s,
              first_where-update_first (has_id id) (settled_row outcome) busy
                  (settled_row-id id outcome),
              first_where-update_first (has_id id) (set_status DocumentStatus.processing none none)
                  s.documents (set_status-id id DocumentStatus.processing none none),
              h,
            )
            (worker-answer removes upload s _),
        worker-read removes upload s,
        worker-read_other removes upload s file apart,
        rw
            (
              worker-documents removes upload s,
              first_where-update_other (has_id id) (has_id other) (settled_row outcome) busy
                  (settled_row-id other outcome) (λ r. has_id-other id other r d),
              first_where-update_other (has_id id) (has_id other)
                  (set_status DocumentStatus.processing none none) s.documents
                  (set_status-id other DocumentStatus.processing none none)
                  (λ r. has_id-other id other r d),
            )
            refl,
      )
