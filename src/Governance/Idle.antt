-- ===== src/Governance/Idle.antt =====
-- A second run over an unchanged source: the documents that the first run synchronised, once the
-- workers have indexed them, are skipped.
use cognitive_rag_system.Prelude.{
  ℕ, Bool, true, false, not, ◌&&◌, ◌≡◌, refl, ◌∙◌, String, Option, none, some, List, [], ◌∷◌, ◌==◌,
  eq_iff, eq_refl, arith, All, member, Bool-cases, inl, inr,
}
use cognitive_rag_system.Prelude.Dict.{or_else}
use cognitive_rag_system.Text.{Text}
use cognitive_rag_system.Governance.Documents.{
  DocumentStatus, EnterpriseDocument, has_key, column_is, get_document_by_external_id,
}
use cognitive_rag_system.Governance.Jobs.{IngestionJob, RawDocument}
use cognitive_rag_system.Governance.Cdc.{
  Scan, external_id, is_indexed, is_unchanged, created, refresh, dispatch, scan_found,
  scan_document, scan_documents,
}
use cognitive_rag_system.Governance.Tables.{
  Rows, first_where-append, first_where-update_first, first_where-update_other, has_key-other,
}
use cognitive_rag_system.Governance.Sync.{ids_of}

-- `PENDING` for a dispatched document, `INDEXED` for a skipped one.
unfoldable pub is_ready : DocumentStatus → Bool
is_ready DocumentStatus.pending = true
is_ready DocumentStatus.indexed = true
is_ready _ = false

unfoldable pub ready_with : String → Option EnterpriseDocument → Bool
ready_with hash none = false
ready_with hash (some row) = row.file_hash == hash && is_ready row.status

unfoldable pub unchanged_with : String → Option EnterpriseDocument → Bool
unchanged_with hash none = false
unchanged_with hash (some row) = is_unchanged row hash

unfoldable pub is_distinct : List String → Bool
is_distinct [] = true
is_distinct (x ∷ xs) = not (member x xs) && is_distinct xs

abbrev pub row_of : IngestionJob → String → Rows → Option EnterpriseDocument
row_of job e rows = get_document_by_external_id rows job.org_id job.id e

indexed-ready : (status : DocumentStatus) → is_indexed status ≡ true → is_ready status ≡ true
unfolding is_ready is_indexed
indexed-ready DocumentStatus.pending h = refl
indexed-ready DocumentStatus.indexed h = refl
indexed-ready DocumentStatus.processing h = cc
indexed-ready DocumentStatus.failed h = cc
indexed-ready DocumentStatus.archived h = cc

unchanged-ready :
    (row : EnterpriseDocument) (hash : String)
    → is_unchanged row hash ≡ true
    → ready_with hash (some row) ≡ true
unfolding is_unchanged ready_with
unchanged-ready row hash h = ground (arith, indexed-ready row.status)

or_else-none : (o : Option EnterpriseDocument) → or_else o none ≡ o
or_else-none none = refl
or_else-none (some row) = refl

module _ (uuid4 : ℕ → String) (sha256 : Text → String)
    (fromisoformat : String → Option String) where
  created-key :
      (job : IngestionJob) (raw : RawDocument) (n : ℕ) (e : String)
      → has_key job.org_id job.id e (created uuid4 sha256 fromisoformat job raw n)
        ≡ (external_id raw == e)
  unfolding has_key created column_is
  created-key job raw n e = ground (arith, eq_iff job.org_id job.org_id, eq_iff job.id job.id)

  created-ready :
      (job : IngestionJob) (raw : RawDocument) (n : ℕ)
      → ready_with (sha256 raw.content_bytes) (some (created uuid4 sha256 fromisoformat job raw n))
        ≡ true
  unfolding ready_with created is_ready
  created-ready job raw n = ground (arith, eq_refl (sha256 raw.content_bytes))

  refresh-ready :
      (raw : RawDocument) (row : EnterpriseDocument)
      → ready_with (sha256 raw.content_bytes) (some (refresh uuid4 sha256 fromisoformat raw row))
        ≡ true
  unfolding ready_with refresh is_ready
  refresh-ready raw row = ground (arith, eq_refl (sha256 raw.content_bytes))

  refresh-key :
      (job : IngestionJob) (raw : RawDocument) (row : EnterpriseDocument) (e : String)
      → has_key job.org_id job.id e (refresh uuid4 sha256 fromisoformat raw row)
        ≡ has_key job.org_id job.id e row
  unfolding has_key refresh
  refresh-key job raw row e = refl

  -- The document of a fetched one after its step.
  found-ready :
      (job : IngestionJob) (raw : RawDocument) (s : Scan) (found : Option EnterpriseDocument)
      → row_of job (external_id raw) s.documents ≡ found
      → ready_with (sha256 raw.content_bytes) (
          row_of job
            (external_id raw)
            (scan_found uuid4 sha256 fromisoformat job raw s found).documents)
        ≡ true
  unfolding scan_found dispatch get_document_by_external_id ready_with
  found-ready job raw s none h =
      rw
        (
          first_where-append (has_key job.org_id job.id (external_id raw)) s.documents
              (created uuid4 sha256 fromisoformat job raw s.issued),
          h,
          created-key job raw s.issued (external_id raw),
          eq_refl (external_id raw),
        )
        (created-ready job raw s.issued)
  found-ready job raw s (some existing) h =
      elim (Bool-cases (is_unchanged existing (sha256 raw.content_bytes))) [
        | inl same ↦ rw (same, h) (unchanged-ready existing (sha256 raw.content_bytes) same)
        | inr changed ↦
            rw
              (
                changed,
                first_where-update_first (has_key job.org_id job.id (external_id raw))
                    (refresh uuid4 sha256 fromisoformat raw) s.documents
                    (λ row. refresh-key job raw row (external_id raw)),
                h,
              )
              (refresh-ready raw existing)
      ]

  found-other :
      (job : IngestionJob) (raw : RawDocument) (s : Scan) (found : Option EnterpriseDocument)
      (e : String)
      → (external_id raw == e) ≡ false
      → row_of job e (scan_found uuid4 sha256 fromisoformat job raw s found).documents
        ≡ row_of job e s.documents
  unfolding scan_found dispatch get_document_by_external_id
  found-other job raw s none e h =
      rw
        (
          first_where-append (has_key job.org_id job.id e) s.documents
              (created uuid4 sha256 fromisoformat job raw s.issued),
          created-key job raw s.issued e,
          h,
        )
        (or_else-none (row_of job e s.documents))
  found-other job raw s (some existing) e h =
      elim (Bool-cases (is_unchanged existing (sha256 raw.content_bytes))) [
        | inl same ↦ rw same refl
        | inr changed ↦ rw changed (
            first_where-update_other (has_key job.org_id job.id (external_id raw))
              (has_key job.org_id job.id e) (refresh uuid4 sha256 fromisoformat raw) s.documents
              (λ row. refresh-key job raw row e)
              (λ row. has_key-other job.org_id job.id (external_id raw) e row h))
      ]

  abbrev scan : IngestionJob → List RawDocument → Scan → Scan
  scan = scan_documents uuid4 sha256 fromisoformat

  abbrev step : IngestionJob → RawDocument → Scan → Scan
  step = scan_document uuid4 sha256 fromisoformat

  step-ready :
      (job : IngestionJob) (raw : RawDocument) (s : Scan)
      → ready_with
          (sha256 raw.content_bytes)
          (row_of job (external_id raw) (step job raw s).documents)
        ≡ true
  unfolding scan_document
  step-ready job raw s =
      found-ready job raw
        (record s { active_external_ids = external_id raw ∷ s.active_external_ids })
        (row_of job (external_id raw) s.documents) refl

  step-other :
      (job : IngestionJob) (raw : RawDocument) (s : Scan) (e : String)
      → (external_id raw == e) ≡ false
      → row_of job e (step job raw s).documents ≡ row_of job e s.documents
  unfolding scan_document
  step-other job raw s e =
      found-other job raw
        (record s { active_external_ids = external_id raw ∷ s.active_external_ids })
        (row_of job (external_id raw) s.documents) e

  scan-other :
      (job : IngestionJob) (raws : List RawDocument) (s : Scan) (e : String)
      → member e (ids_of raws) ≡ false
      → row_of job e (scan job raws s).documents ≡ row_of job e s.documents
  unfolding scan_documents
  scan-other job [] s e h = refl
  scan-other job (raw ∷ raws) s e h =
      scan-other job raws (step job raw s) e (ground arith)
      ∙ step-other job raw s e
          (ground (arith, eq_iff e (external_id raw), eq_iff (external_id raw) e))

  abbrev pub IsReady : IngestionJob → Rows → RawDocument → Type 0
  IsReady job rows raw =
      ready_with (sha256 raw.content_bytes) (row_of job (external_id raw) rows) ≡ true

  -- After the loop every fetched document has its row, with its content's hash.
  pub scan-IsReady :
      (job : IngestionJob) (raws : List RawDocument) (s : Scan)
      → is_distinct (ids_of raws) ≡ true
      → All (IsReady job (scan job raws s).documents) raws
  unfolding scan_documents is_distinct
  scan-IsReady job [] s h = tt
  scan-IsReady job (raw ∷ raws) s h = (
    rw (scan-other job raws (step job raw s) (external_id raw) (ground arith))
        (step-ready job raw s),
    scan-IsReady job raws (step job raw s) (ground arith),
  )
