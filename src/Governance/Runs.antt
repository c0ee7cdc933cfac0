-- ===== src/Governance/Runs.antt =====
-- The two ways in which a run of an ingestion job ends.
use cognitive_rag_system.Prelude.{
  ℕ, ◌+◌, Bool, true, false, not, ◌≡◌, refl, ◌∙◌, String, Option, none, some, List, [], ◌∷◌, ◌++◌,
  map, arith, all, eq_refl, select, member, length, get_or, Bool-cases, inl, inr,
}
use cognitive_rag_system.Text.{Text}
use cognitive_rag_system.Governance.Documents.{
  EnterpriseDocument, has_key, is_stale, get_document_by_external_id, update_first,
  purge_deleted_external_documents,
}
use cognitive_rag_system.Governance.Jobs.{
  IngestionJob, JobStatus, RawDocument, Subtask, Fetch, Outcome, done, broken, not_found,
}
use cognitive_rag_system.Governance.Cdc.{
  Scan, external_id, is_unchanged, refresh, dispatch, scan_found, scan_document, scan_documents,
  start, complete, finish, execute_ingestion_job,
}
use cognitive_rag_system.Governance.Tables.{Rows, select-select}
use cognitive_rag_system.Governance.Sync.{
  is_foreign, ids_of, scan-counts, scan-active, scan-foreign,
}

-- A completed run: every fetched document was dispatched or skipped, the job's counter grew by the
-- dispatched ones, no document of the job is left that the source no longer has, and the documents
-- of other jobs and tenants are the same as before.
pub record IsComplete (before after : IngestionJob) (fetched : List RawDocument) (rows docs : Rows)
    (dispatched : List Subtask) (skipped : ℕ) : Type 0 where
  pub status : after.status ≡ JobStatus.completed
  pub counted : length dispatched + skipped ≡ length fetched
  pub processed :
      after.documents_processed_count ≡ before.documents_processed_count + length dispatched
  pub none_stale : select (is_stale before.org_id before.id (ids_of fetched)) docs ≡ []
  pub others_kept : select (is_foreign before) docs ≡ select (is_foreign before) rows

unfoldable pub Completes : IngestionJob → List RawDocument → Rows → Outcome → Type 0
Completes job fetched rows (done after docs dispatched skipped purged) =
    IsComplete job after fetched rows docs dispatched skipped
Completes job fetched rows not_found = ⊥
Completes job fetched rows (broken after docs e) = ⊥

-- The primary keys of a table.
abbrev pub keys : Rows → List String
keys rows = map (λ (row : EnterpriseDocument). row.id) rows

-- A failed run: the job says so with the error, and no document was deleted.
pub record IsFailed (after : IngestionJob) (rows docs : Rows) (error reported : String)
    : Type 0 where
  pub status : after.status ≡ JobStatus.failed
  pub message : after.error_message ≡ some error
  pub answer : reported ≡ error
  pub kept : all (λ (key : String). member key (keys docs)) (keys rows) ≡ true

unfoldable pub Fails : Rows → String → Outcome → Type 0
Fails rows error (broken after docs reported) = IsFailed after rows docs error reported
Fails rows error not_found = ⊥
Fails rows error (done after docs dispatched skipped purged) = ⊥

pub select-none :
    (p q : EnterpriseDocument → Bool) (rows : Rows)
    → ((row : EnterpriseDocument) → q row ≡ true → p row ≡ false)
    → select p (select q rows) ≡ []
select-none p q [] k = refl
select-none p q (r ∷ rows) k = elim (Bool-cases (q r)) [
  | inl met ↦ rw (met, k r met) (select-none p q rows k)
  | inr not_met ↦ rw not_met (select-none p q rows k)
]

pub stale-same :
    (org_id job_id : String) (xs ys : List String) (row : EnterpriseDocument)
    → ((e : String) → member e xs ≡ member e ys)
    → not (is_stale org_id job_id xs row) ≡ true
    → is_stale org_id job_id ys row ≡ false
unfolding is_stale
stale-same org_id job_id xs ys row k h = ground (arith, k (get_or "" row.external_id))

foreign-not_stale :
    (job : IngestionJob) (active : List String) (row : EnterpriseDocument)
    → is_foreign job row ≡ true
    → not (is_stale job.org_id job.id active row) ≡ true
unfolding is_stale is_foreign
foreign-not_stale job active row h = ground arith

keys-update_first :
    (p : EnterpriseDocument → Bool) (f : EnterpriseDocument → EnterpriseDocument) (rows : Rows)
    → ((row : EnterpriseDocument) → (f row).id ≡ row.id)
    → keys (update_first p f rows) ≡ keys rows
unfolding update_first
keys-update_first p f [] k = refl
keys-update_first p f (r ∷ rows) k = elim (Bool-cases (p r)) [
  | inl met ↦ rw (met, k r) refl
  | inr not_met ↦ rw (not_met, keys-update_first p f rows k) refl
]

all-member :
    (xs ys : List String)
    → ((key : String) → member key xs ≡ true → member key ys ≡ true)
    → all (λ (key : String). member key ys) xs ≡ true
all-member [] ys k = refl
all-member (x ∷ xs) ys k =
    ground (arith, k x, eq_refl x, all-member xs ys (λ key h. k key (ground arith)))

keys-append :
    (rows : Rows) (row : EnterpriseDocument) (key : String)
    → member key (keys rows) ≡ true
    → member key (keys (rows ++ (row ∷ []))) ≡ true
keys-append [] row key h = cc
keys-append (r ∷ rows) row key h = ground (arith, keys-append rows row key)

module _ (uuid4 : ℕ → String) (sha256 : Text → String)
    (fromisoformat : String → Option String) where
  found-keys :
      (job : IngestionJob) (raw : RawDocument) (s : Scan) (found : Option EnterpriseDocument)
      (key : String)
      → member key (keys s.documents) ≡ true
      → member key (keys (scan_found uuid4 sha256 fromisoformat job raw s found).documents) ≡ true
  unfolding scan_found dispatch refresh
  found-keys job raw s none key h = keys-append s.documents _ key h
  found-keys job raw s (some existing) key h =
      elim (Bool-cases (is_unchanged existing (sha256 raw.content_bytes))) [
        | inl same ↦ rw same h
        | inr changed ↦
            rw
              (
                changed,
                keys-update_first (has_key job.org_id job.id (external_id raw))
                    (refresh uuid4 sha256 fromisoformat raw) s.documents (λ row. refl),
              )
              h
      ]

  scan-keys :
      (job : IngestionJob) (raws : List RawDocument) (s : Scan) (key : String)
      → member key (keys s.documents) ≡ true
      → member key (keys (scan_documents uuid4 sha256 fromisoformat job raws s).documents) ≡ true
  unfolding scan_documents scan_document
  scan-keys job [] s key h = h
  scan-keys job (raw ∷ raws) s key h =
      scan-keys job raws (scan_document uuid4 sha256 fromisoformat job raw s) key (
        found-keys job raw
          (record s { active_external_ids = external_id raw ∷ s.active_external_ids })
          (get_document_by_external_id s.documents job.org_id job.id (external_id raw)) key h)

  -- A run whose source yields all its documents completes: every fetched document was dispatched
  -- or skipped, the job's counter grew by the dispatched ones, no document of the job is left
  -- whose external id the source no longer has, and the documents of other jobs and tenants are
  -- the same as before.
  pub run-Completes :
      (now : String) (fetch : Fetch) (job : IngestionJob) (rows : Rows) (issued : ℕ)
      → fetch.error ≡ none
      → Completes job fetch.documents rows
          (execute_ingestion_job uuid4 sha256 fromisoformat now fetch (some job) rows issued)
  unfolding execute_ingestion_job finish complete Completes purge_deleted_external_documents start
      is_foreign
  run-Completes now fetch job rows issued h =
      let started : IngestionJob = record job { status = JobStatus.running } in
      let end =
        scan_documents uuid4 sha256 fromisoformat started fetch.documents (start rows issued) in
      let counts =
        scan-counts uuid4 sha256 fromisoformat started fetch.documents (start rows issued) in
      let others =
        scan-foreign uuid4 sha256 fromisoformat started fetch.documents (start rows issued) in
      rw h (record {
        status = refl;
        counted = omega (arith, counts);
        processed = refl;
        none_stale =
            select-none (is_stale job.org_id job.id (ids_of fetch.documents)) _ end.documents
              (λ row.
                stale-same job.org_id job.id end.active_external_ids (ids_of fetch.documents) row
                  (λ e. ground (
                    arith,
                    scan-active uuid4 sha256 fromisoformat started fetch.documents
                        (start rows issued) e,
                  )));
        others_kept =
            select-select (is_foreign job) _ end.documents
              (foreign-not_stale job end.active_external_ids)
            ∙ others;
      })

  -- A run whose source raises an error, whatever it has yielded before, fails with that error and
  -- deletes no document.
  pub run-Fails :
      (now : String) (fetch : Fetch) (job : IngestionJob) (rows : Rows) (issued : ℕ)
      (error : String)
      → fetch.error ≡ some error
      → Fails rows error
          (execute_ingestion_job uuid4 sha256 fromisoformat now fetch (some job) rows issued)
  unfolding execute_ingestion_job finish Fails start
  run-Fails now fetch job rows issued error h = rw h (record {
    status = refl;
    message = refl;
    answer = refl;
    kept =
        all-member (keys rows) _ (
          scan-keys (record job { status = JobStatus.running }) fetch.documents
            (start rows issued));
  })
