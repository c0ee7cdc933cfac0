-- ===== src/Governance/SecondRun.antt =====
-- The run after the workers have indexed what the first run dispatched.
use mathlib.Core.Option
use cognitive_rag_system.Prelude.{
  ℕ, suc, true, not, ◌≡◌, refl, ◌∙◌, String, Option, none, some, List, [], ◌∷◌, eq_iff, map, arith,
  select, All, member, length, get_or,
}
use cognitive_rag_system.Text.{Text}
use cognitive_rag_system.Governance.Documents.{
  EnterpriseDocument, has_key, is_stale, column_is, get_document_by_external_id,
}
use cognitive_rag_system.Governance.Jobs.{
  IngestionJob, RawDocument, Outcome, done, broken, not_found,
}
use cognitive_rag_system.Governance.Cdc.{
  Scan, external_id, is_indexed, is_unchanged, scan_found, scan_document, scan_documents,
}
use cognitive_rag_system.Governance.Tables.{Rows, first_where-select, first_where-map}
use cognitive_rag_system.Governance.Sync.{ids_of}
use cognitive_rag_system.Governance.Idle.{is_ready, ready_with, unchanged_with, row_of, IsReady}

-- The documents table that a run leaves, and the job.
unfoldable pub documents_after : Outcome → Rows
documents_after not_found = []
documents_after (done after docs dispatched skipped purged) = docs
documents_after (broken after docs e) = docs

-- What the workers do to a row: they keep its keys and its hash, and a document that is waiting or
-- indexed ends as indexed.
pub record IsIndexing (work : EnterpriseDocument → EnterpriseDocument) : Type 0 where
  pub org_id : (row : EnterpriseDocument) → (work row).org_id ≡ row.org_id
  pub job_id : (row : EnterpriseDocument) → (work row).job_id ≡ row.job_id
  pub external_id : (row : EnterpriseDocument) → (work row).external_id ≡ row.external_id
  pub file_hash : (row : EnterpriseDocument) → (work row).file_hash ≡ row.file_hash
  pub status :
      (row : EnterpriseDocument) → is_ready row.status ≡ true → is_indexed (work row).status ≡ true

-- A run that found nothing to do: it dispatched nothing, skipped everything, deleted nothing.
unfoldable pub IsIdle : List RawDocument → Rows → Outcome → Type 0
IsIdle fetched rows not_found = ⊥
IsIdle fetched rows (done after docs dispatched skipped purged) =
    (dispatched ≡ []) × (skipped ≡ length fetched) × (purged ≡ []) × (docs ≡ rows)
IsIdle fetched rows (broken after docs e) = ⊥

work-key :
    (work : EnterpriseDocument → EnterpriseDocument) (org_id job_id e : String)
    (row : EnterpriseDocument)
    → IsIndexing work
    → has_key org_id job_id e (work row) ≡ has_key org_id job_id e row
unfolding has_key
work-key work org_id job_id e row k = rw (k.org_id row, k.job_id row, k.external_id row) refl

pub work-stale :
    (work : EnterpriseDocument → EnterpriseDocument) (org_id job_id : String) (active : List String)
    (row : EnterpriseDocument)
    → IsIndexing work
    → is_stale org_id job_id active (work row) ≡ is_stale org_id job_id active row
unfolding is_stale
work-stale work org_id job_id active row k = rw (k.org_id row, k.job_id row, k.external_id row) refl

work-unchanged :
    (work : EnterpriseDocument → EnterpriseDocument) (hash : String)
    (found : Option EnterpriseDocument)
    → IsIndexing work
    → ready_with hash found ≡ true
    → unchanged_with hash (Option.map work found) ≡ true
unfolding ready_with unchanged_with is_unchanged
work-unchanged work hash none k h = cc
work-unchanged work hash (some row) k h = ground (arith, k.file_hash row, k.status row)

column-active :
    (o : Option String) (e : String) (active : List String)
    → column_is o e ≡ true
    → member e active ≡ true
    → member (get_or "" o) active ≡ true
unfolding column_is
column-active none e active h m = cc
column-active (some s) e active h m = ground (arith, eq_iff s e)

active-not_stale :
    (org_id job_id e : String) (active : List String) (row : EnterpriseDocument)
    → member e active ≡ true
    → has_key org_id job_id e row ≡ true
    → not (is_stale org_id job_id active row) ≡ true
unfolding has_key is_stale
active-not_stale org_id job_id e active row m h =
    ground (arith, column-active row.external_id e active)

abbrev pub IsSettled : (Text → String) → IngestionJob → Rows → RawDocument → Type 0
IsSettled sha256 job rows raw =
    unchanged_with (sha256 raw.content_bytes) (row_of job (external_id raw) rows) ≡ true

module _ (uuid4 : ℕ → String) (sha256 : Text → String)
    (fromisoformat : String → Option String) where
  found-idle :
      (job : IngestionJob) (raw : RawDocument) (s : Scan) (found : Option EnterpriseDocument)
      → unchanged_with (sha256 raw.content_bytes) found ≡ true
      → scan_found uuid4 sha256 fromisoformat job raw s found
        ≡ record s { skipped_count = suc s.skipped_count }
  unfolding unchanged_with scan_found
  found-idle job raw s none h = cc
  found-idle job raw s (some row) h = rw h refl

  step-idle :
      (job : IngestionJob) (raw : RawDocument) (s : Scan)
      → unchanged_with (sha256 raw.content_bytes) (row_of job (external_id raw) s.documents) ≡ true
      → scan_document uuid4 sha256 fromisoformat job raw s ≡ record s {
        active_external_ids = external_id raw ∷ s.active_external_ids;
        skipped_count = suc s.skipped_count;
      }
  unfolding scan_document
  step-idle job raw s h =
      found-idle job raw
        (record s { active_external_ids = external_id raw ∷ s.active_external_ids })
        (row_of job (external_id raw) s.documents) h

  pub scan-idle :
      (job : IngestionJob) (raws : List RawDocument) (s : Scan) (rows : Rows)
      → s.documents ≡ rows
      → All (IsSettled sha256 job rows) raws
      → ((scan_documents uuid4 sha256 fromisoformat job raws s).documents ≡ rows)
        × ((scan_documents uuid4 sha256 fromisoformat job raws s).subtasks ≡ s.subtasks)
  unfolding scan_documents
  scan-idle job [] s rows e h = (e, refl)
  scan-idle job (raw ∷ raws) s rows e h =
      rw (scan_documents, step-idle job raw s (rw e h.0)) (scan-idle job raws _ rows e h.1)

  pub All-IsSettled :
      (job : IngestionJob) (raws fetched : List RawDocument) (active : List String) (docs : Rows)
      (work : EnterpriseDocument → EnterpriseDocument)
      → IsIndexing work
      → ((e : String) → member e active ≡ member e (ids_of fetched))
      → All (λ (raw : RawDocument). member (external_id raw) (ids_of fetched) ≡ true) raws
      → All (IsReady uuid4 sha256 fromisoformat job docs) raws
      → All
          (IsSettled sha256 job
            (map work (select (λ row. not (is_stale job.org_id job.id active row)) docs)))
          raws
  unfolding get_document_by_external_id
  All-IsSettled job [] fetched active docs work k a m h = tt
  All-IsSettled job (raw ∷ raws) fetched active docs work k a m h = (
    rw
        (
          first_where-map (has_key job.org_id job.id (external_id raw)) work
              (select (λ row. not (is_stale job.org_id job.id active row)) docs)
              (λ row. work-key work job.org_id job.id (external_id raw) row k),
          first_where-select (λ row. not (is_stale job.org_id job.id active row))
              (has_key job.org_id job.id (external_id raw)) docs
              (λ row.
                active-not_stale job.org_id job.id (external_id raw) active row
                  (a (external_id raw) ∙ m.0)),
        )
        (work-unchanged work (sha256 raw.content_bytes) (row_of job (external_id raw) docs) k h.0),
    All-IsSettled job raws fetched active docs work k a m.1 h.1,
  )

  pub All-fetched :
      (raws fetched : List RawDocument)
      → ((e : String) → member e (ids_of raws) ≡ true → member e (ids_of fetched) ≡ true)
      → All (λ (raw : RawDocument). member (external_id raw) (ids_of fetched) ≡ true) raws
  All-fetched [] fetched k = tt
  All-fetched (raw ∷ raws) fetched k = (
    k (external_id raw) (ground (arith, eq_iff (external_id raw) (external_id raw))),
    All-fetched raws fetched (λ e h. k e (ground arith)),
  )
