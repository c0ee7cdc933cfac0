-- ===== src/Governance/Indexing.antt =====
-- What a worker leaves of a document and of its staged file.
use cognitive_rag_system.Prelude.{
  ℕ, Bool, Bool-cases, and-left, and-right, inl, inr, if◌then◌else◌, true, false, ◌≡◌, refl, String,
  Option, none, some, List, [], ◌∷◌, ◌==◌, eq_iff, arith,
}
use cognitive_rag_system.Text.{Text, text_eq, text_eq_sound}
use cognitive_rag_system.Governance.Documents.{
  DocumentStatus, EnterpriseDocument, first_where, update_first, has_id, set_status,
  update_document_status,
}
use cognitive_rag_system.Governance.Jobs.{StagedPath, Subtask}
use cognitive_rag_system.Governance.Tables.{first_where-update_first, first_where-update_other}
use cognitive_rag_system.Governance.Workers.{
  Shared, Ingested, chunks, raised, Answer, success, failure, same_path, without, read_staged_file,
  delete_staged_file, settle, ingest_staged, ingest_connector_document,
}

-- What a worker owes for the outcome of the indexing: the document is INDEXED with the number of
-- its chunks, or FAILED with the error, and the answer says the same.
unfoldable pub Settles : String → Ingested → EnterpriseDocument → Answer → Type 0
Settles doc_id (chunks n) row answer =
    (row.status ≡ DocumentStatus.indexed) × (row.chunk_count ≡ n) × (answer ≡ success doc_id n)
Settles doc_id (raised e) row answer =
    (row.status ≡ DocumentStatus.failed)
    × (row.error_message ≡ some e)
    × (answer ≡ failure doc_id e)

-- The row of a document after an update of its status.
abbrev pub settled_row : Ingested → EnterpriseDocument → EnterpriseDocument
settled_row (chunks n) row = set_status DocumentStatus.indexed (some n) none row
settled_row (raised e) row = set_status DocumentStatus.failed none (some e) row

pub settled_row-Settles :
    (removes : Bool) (doc_id : String) (outcome : Ingested) (row : EnterpriseDocument)
    (path : StagedPath) (s : Shared)
    → Settles doc_id outcome (settled_row outcome row) (settle removes doc_id path s outcome).1
unfolding Settles set_status settle
settled_row-Settles removes doc_id (chunks n) row path s = (refl, refl, refl)
settled_row-Settles removes doc_id (raised e) row path s = (refl, refl, refl)

pub settle-documents :
    (removes : Bool) (doc_id : String) (outcome : Ingested) (path : StagedPath) (s : Shared)
    → (settle removes doc_id path s outcome).0.documents
      ≡ update_first (has_id doc_id) (settled_row outcome) s.documents
unfolding settle update_document_status
settle-documents removes doc_id (chunks n) path s = refl
settle-documents removes doc_id (raised e) path s = refl

pub settle-staged :
    (removes : Bool) (doc_id : String) (outcome : Ingested) (path : StagedPath) (s : Shared)
    → (settle removes doc_id path s outcome).0.staged ≡ (delete_staged_file removes s.staged path).1
unfolding settle
settle-staged removes doc_id (chunks n) path s = refl
settle-staged removes doc_id (raised e) path s = refl

pub settled_row-id :
    (doc_id : String) (outcome : Ingested) (row : EnterpriseDocument)
    → has_id doc_id (settled_row outcome row) ≡ has_id doc_id row
unfolding has_id set_status
settled_row-id doc_id (chunks n) row = refl
settled_row-id doc_id (raised e) row = refl

same_path_trans :
    (a b c : StagedPath) → same_path a b ≡ true → same_path b c ≡ false → same_path a c ≡ false
unfolding same_path
same_path_trans a b c h k =
    let org : a.org_id ≡ b.org_id =
      (eq_iff a.org_id b.org_id).0 (and-left (a.org_id == b.org_id) (text_eq a.file b.file) h) in
    let file : a.file ≡ b.file =
      text_eq_sound a.file b.file (and-right (a.org_id == b.org_id) (text_eq a.file b.file) h) in
    rw (org, file) k

read-without :
    (files : List (StagedPath × Text)) (path : StagedPath)
    → read_staged_file (without files path) path ≡ none
unfolding read_staged_file without
read-without [] path = refl
read-without ((other, bytes) ∷ files) path = ground (arith, read-without files path)

read-without_other :
    (files : List (StagedPath × Text)) (path file : StagedPath)
    → same_path path file ≡ false
    → read_staged_file (without files path) file ≡ read_staged_file files file
unfolding read_staged_file without
read-without_other [] path file d = refl
read-without_other ((other, bytes) ∷ files) path file d = elim (Bool-cases (same_path other path)) [
  | inl same ↦
      rw (same, same_path_trans other path file same d) (read-without_other files path file d)
  | inr apart ↦ rw (apart, read-without_other files path file d) refl
]

-- After a deletion the file is gone if it could be removed, and every other file is as it was.
pub read-delete :
    (removes : Bool) (files : List (StagedPath × Text)) (path : StagedPath)
    → read_staged_file (delete_staged_file removes files path).1 path
      ≡ (if removes then none else read_staged_file files path)
unfolding delete_staged_file
read-delete false files path = ground arith
read-delete true files path = ground (arith, read-without files path)

pub read-delete_other :
    (removes : Bool) (files : List (StagedPath × Text)) (path file : StagedPath)
    → same_path path file ≡ false
    → read_staged_file (delete_staged_file removes files path).1 file ≡ read_staged_file files file
unfolding delete_staged_file
read-delete_other removes files path file d = ground (arith, read-without_other files path file d)

unfoldable pub SettlesFound : String → Ingested → Option EnterpriseDocument → Answer → Type 0
SettlesFound doc_id outcome none answer = ⊥
SettlesFound doc_id outcome (some row) answer = Settles doc_id outcome row answer

-- The document of an id after an update of the document of an id.
pub has_id-other :
    (id other : String) (row : EnterpriseDocument)
    → (id == other) ≡ false
    → has_id id row ≡ true
    → has_id other row ≡ false
unfolding has_id
has_id-other id other row h k =
    ground (arith, eq_iff row.id id, eq_iff row.id other, eq_iff id other)

pub set_status-id :
    (id : String) (status : DocumentStatus) (n : Option ℕ) (e : Option String)
    (row : EnterpriseDocument)
    → has_id id (set_status status n e row) ≡ has_id id row
unfolding has_id set_status
set_status-id id status n e row = refl

module _ (ingest : Subtask → Text → Ingested) (path_text : StagedPath → String) where
  abbrev pub outcome_of : Subtask → Shared → Ingested
  outcome_of task s =
      ingest_staged ingest path_text task (read_staged_file s.staged task.staged_path)

  worker-documents :
      (removes : Bool) (task : Subtask) (s : Shared)
      → (ingest_connector_document ingest path_text removes task s).0.documents
        ≡ update_first (has_id task.document_id) (settled_row (outcome_of task s)) (
            update_first
              (has_id task.document_id)
              (set_status DocumentStatus.processing none none)
              s.documents)
  unfolding ingest_connector_document update_document_status
  worker-documents removes task s =
      settle-documents removes task.document_id (outcome_of task s) task.staged_path _

  worker-answer :
      (removes : Bool) (task : Subtask) (s : Shared) (row : EnterpriseDocument)
      → SettlesFound task.document_id
          (outcome_of task s)
          (some (settled_row (outcome_of task s) row))
          (ingest_connector_document ingest path_text removes task s).1
  unfolding SettlesFound ingest_connector_document
  worker-answer removes task s row =
      settled_row-Settles removes task.document_id (outcome_of task s) row task.staged_path _

  worker-staged :
      (removes : Bool) (task : Subtask) (s : Shared)
      → (ingest_connector_document ingest path_text removes task s).0.staged
        ≡ (delete_staged_file removes s.staged task.staged_path).1
  unfolding ingest_connector_document
  worker-staged removes task s =
      settle-staged removes task.document_id (outcome_of task s) task.staged_path _

  -- A worker whose document is in the table leaves it INDEXED with the number of its chunks, or
  -- FAILED with the error of the indexing or of the missing file, and answers the same. The staged
  -- file is gone if it could be removed and stays otherwise; what every other path holds, and every
  -- other document, is as it was.
  pub worker_settles :
      (removes : Bool) (task : Subtask) (s : Shared) (row : EnterpriseDocument) (other : String)
      (file : StagedPath)
      → first_where (has_id task.document_id) s.documents ≡ some row
      → (task.document_id == other) ≡ false
      → same_path task.staged_path file ≡ false
      → SettlesFound task.document_id
          (outcome_of task s)
          (first_where
            (has_id task.document_id)
            (ingest_connector_document ingest path_text removes task s).0.documents)
          (ingest_connector_document ingest path_text removes task s).1
        × (read_staged_file
              (ingest_connector_document ingest path_text removes task s).0.staged
              task.staged_path
            ≡ (if removes then none else read_staged_file s.staged task.staged_path))
        × (read_staged_file
              (ingest_connector_document ingest path_text removes task s).0.staged
              file
            ≡ read_staged_file s.staged file)
        × (first_where
              (has_id other)
              (ingest_connector_document ingest path_text removes task s).0.documents
            ≡ first_where (has_id other) s.documents)
  worker_settles removes task s row other file h d apart =
      let outcome = outcome_of task s in
      let id = task.document_id in
      (
        rw
            (
              worker-documents removes task s,
              first_where-update_first (has_id id) (settled_row outcome)
                  (update_first (has_id id) (set_status DocumentStatus.processing none none)
                    s.documents)
                  (settled_row-id id outcome),
              first_where-update_first (has_id id) (set_status DocumentStatus.processing none none)
                  s.documents (set_status-id id DocumentStatus.processing none none),
              h,
            )
            (worker-answer removes task s _),
        rw (worker-staged removes task s) (read-delete removes s.staged task.staged_path),
        rw (worker-staged removes task s)
            (read-delete_other removes s.staged task.staged_path file apart),
        rw
            (
              worker-documents removes task s,
              first_where-update_other (has_id id) (has_id other) (settled_row outcome)
                  (update_first (has_id id) (set_status DocumentStatus.processing none none)
                    s.documents)
                  (settled_row-id other outcome) (λ r. has_id-other id other r d),
              first_where-update_other (has_id id) (has_id other)
                  (set_status DocumentStatus.processing none none) s.documents
                  (set_status-id other DocumentStatus.processing none none)
                  (λ r. has_id-other id other r d),
            )
            refl,
      )
