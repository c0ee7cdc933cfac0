-- ===== src/Governance/Converge.antt =====
-- Runs of a job over an unchanged source come to rest.
use cognitive_rag_system.Prelude.{
  ℕ, true, not, ◌≡◌, refl, ◌∙◌, get_or, String, Option, none, some, List, [], map, ap, arith,
  select, All, member, length,
}
use cognitive_rag_system.Text.{Text}
use cognitive_rag_system.Governance.Documents.{
  EnterpriseDocument, is_stale, purge_deleted_external_documents,
}
use cognitive_rag_system.Governance.Jobs.{
  IngestionJob, JobStatus, RawDocument, Fetch, Outcome, done, broken, not_found,
}
use cognitive_rag_system.Governance.Cdc.{
  scan_documents, start, complete, finish, execute_ingestion_job,
}
use cognitive_rag_system.Governance.Tables.{Rows, select-map, select-same, select-rest}
use cognitive_rag_system.Governance.Sync.{ids_of, scan-counts, scan-active}
use cognitive_rag_system.Governance.Runs.{stale-same, select-none}
use cognitive_rag_system.Governance.Idle.{is_distinct, scan-IsReady}
use cognitive_rag_system.Governance.SecondRun.{
  documents_after, IsIndexing, IsIdle, IsSettled, work-stale, scan-idle, All-IsSettled, All-fetched,
}

-- The job that a run leaves.
unfoldable pub job_after : IngestionJob → Outcome → IngestionJob
job_after job not_found = job
job_after job (done after docs dispatched skipped purged) = after
job_after job (broken after docs e) = after

stale-eq :
    (org_id job_id : String) (xs ys : List String) (row : EnterpriseDocument)
    → ((e : String) → member e xs ≡ member e ys)
    → is_stale org_id job_id xs row ≡ is_stale org_id job_id ys row
unfolding is_stale
stale-eq org_id job_id xs ys row k = rw (k (get_or "" row.external_id)) refl

-- The rows that a purge has left are none of them stale, also after the workers.
still_none :
    (job : IngestionJob) (raws : List RawDocument) (active : List String) (docs : Rows)
    (work : EnterpriseDocument → EnterpriseDocument)
    → IsIndexing work
    → ((e : String) → member e active ≡ member e (ids_of raws))
    → select
        (is_stale job.org_id job.id (ids_of raws))
        (map work (select (λ row. not (is_stale job.org_id job.id active row)) docs))
      ≡ []
still_none job raws active docs work k same =
    select-map (is_stale job.org_id job.id (ids_of raws)) work
      (select (λ row. not (is_stale job.org_id job.id active row)) docs)
      (λ row. work-stale work job.org_id job.id (ids_of raws) row k)
    ∙ ap (map work) (
        select-none (is_stale job.org_id job.id (ids_of raws))
          (λ row. not (is_stale job.org_id job.id active row)) docs
          (λ row. stale-same job.org_id job.id active (ids_of raws) row same))

module _ (uuid4 : ℕ → String) (sha256 : Text → String)
    (fromisoformat : String → Option String) where
  abbrev run : (now : String) (fetch : Fetch) → Option IngestionJob → Rows → ℕ → Outcome
  run = execute_ingestion_job uuid4 sha256 fromisoformat

  active-ids :
      (job : IngestionJob) (raws : List RawDocument) (rows : Rows) (issued : ℕ) (e : String)
      → member e
          (scan_documents uuid4 sha256 fromisoformat job raws
            (start rows issued)).active_external_ids
        ≡ member e (ids_of raws)
  unfolding start
  active-ids job raws rows issued e =
      ground (arith, scan-active uuid4 sha256 fromisoformat job raws (start rows issued) e)

  complete-IsIdle :
      (later : String) (job : IngestionJob) (raws : List RawDocument) (rows : Rows) (issued : ℕ)
      → All (IsSettled sha256 job rows) raws
      → select (is_stale job.org_id job.id (ids_of raws)) rows ≡ []
      → IsIdle raws rows (
          complete later job
            (scan_documents uuid4 sha256 fromisoformat job raws (start rows issued)))
  unfolding complete IsIdle purge_deleted_external_documents start
  complete-IsIdle later job raws rows issued settled none_stale =
      let end = scan_documents uuid4 sha256 fromisoformat job raws (start rows issued) in
      let idle =
        scan-idle uuid4 sha256 fromisoformat job raws (start rows issued) rows refl settled in
      let counts = scan-counts uuid4 sha256 fromisoformat job raws (start rows issued) in
      let no_subtasks : length end.subtasks ≡ 0 = ap length idle.1 in
      let stale =
        select-same (is_stale job.org_id job.id end.active_external_ids)
          (is_stale job.org_id job.id (ids_of raws)) rows
          (λ row.
            stale-eq job.org_id job.id end.active_external_ids (ids_of raws) row
              (active-ids job raws rows issued))
        ∙ none_stale in
      (
        idle.1,
        omega (arith, counts, no_subtasks),
        rw (idle.0, stale) refl,
        rw idle.0 (select-rest (is_stale job.org_id job.id end.active_external_ids) rows stale),
      )

  -- After a run over a source that yields all its documents, each under its own external id, once
  -- the workers have indexed what was dispatched, a second run over the same source dispatches
  -- nothing, skips every document, and leaves the table as it is.
  pub second_run-IsIdle :
      (now later : String) (fetch : Fetch) (job : IngestionJob) (rows : Rows) (issued again : ℕ)
      (work : EnterpriseDocument → EnterpriseDocument)
      → fetch.error ≡ none
      → is_distinct (ids_of fetch.documents) ≡ true
      → IsIndexing work
      → IsIdle fetch.documents (map work (documents_after (run now fetch (some job) rows issued))) (
          run later fetch
            (some (job_after job (run now fetch (some job) rows issued)))
            (map work (documents_after (run now fetch (some job) rows issued)))
            again)
  unfolding execute_ingestion_job finish complete documents_after job_after
      purge_deleted_external_documents start
  second_run-IsIdle now later fetch job rows issued again work h distinct k =
      let started : IngestionJob = record job { status = JobStatus.running } in
      let end =
        scan_documents uuid4 sha256 fromisoformat started fetch.documents (start rows issued) in
      let settled =
        All-IsSettled uuid4 sha256 fromisoformat started fetch.documents fetch.documents
          end.active_external_ids end.documents work k
          (active-ids started fetch.documents rows issued)
          (All-fetched uuid4 sha256 fromisoformat fetch.documents fetch.documents (λ e m. m))
          (scan-IsReady uuid4 sha256 fromisoformat started fetch.documents (start rows issued)
            distinct) in
      rw h (
        complete-IsIdle later _ fetch.documents _ again settled (
          still_none job fetch.documents end.active_external_ids end.documents work k
            (active-ids started fetch.documents rows issued)))
