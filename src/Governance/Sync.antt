-- ===== src/Governance/Sync.antt =====
-- What a run of an ingestion job counts, deletes and leaves alone.
use cognitive_rag_system.Prelude.{
  ℕ, suc, ◌+◌, Bool, true, false, not, ◌&&◌, ◌||◌, ◌≡◌, refl, String, Option, none, some, List, [],
  ◌∷◌, ◌==◌, map, eq_iff, arith, select, member, length, length-append, Bool-cases, inl, inr,
}
use cognitive_rag_system.Text.{Text}
use cognitive_rag_system.Governance.Documents.{
  EnterpriseDocument, has_key, column_is, get_document_by_external_id,
}
use cognitive_rag_system.Governance.Jobs.{IngestionJob, RawDocument}
use cognitive_rag_system.Governance.Cdc.{
  Scan, external_id, is_unchanged, created, refresh, dispatch, scan_found, scan_document,
  scan_documents,
}
use cognitive_rag_system.Governance.Tables.{select-append, select-update_first}

-- The rows that are not of the job.
unfoldable pub is_foreign : IngestionJob → EnterpriseDocument → Bool
is_foreign job row = not (row.org_id == job.org_id && column_is row.job_id job.id)

abbrev pub ids_of : List RawDocument → List String
ids_of raws = map external_id raws

module _ (uuid4 : ℕ → String) (sha256 : Text → String)
    (fromisoformat : String → Option String) where
  abbrev scan : IngestionJob → List RawDocument → Scan → Scan
  scan = scan_documents uuid4 sha256 fromisoformat

  found-counts :
      (job : IngestionJob) (raw : RawDocument) (s : Scan) (found : Option EnterpriseDocument)
      → length (scan_found uuid4 sha256 fromisoformat job raw s found).subtasks
          + (scan_found uuid4 sha256 fromisoformat job raw s found).skipped_count
        ≡ suc (length s.subtasks + s.skipped_count)
  unfolding scan_found dispatch
  found-counts job raw s none = omega (arith, length-append s.subtasks)
  found-counts job raw s (some existing) =
      elim (Bool-cases (is_unchanged existing (sha256 raw.content_bytes))) [
        | inl same ↦ rw same (omega arith)
        | inr changed ↦ rw changed (omega (arith, length-append s.subtasks))
      ]

  pub scan-counts :
      (job : IngestionJob) (raws : List RawDocument) (s : Scan)
      → length (scan job raws s).subtasks + (scan job raws s).skipped_count
        ≡ length raws + (length s.subtasks + s.skipped_count)
  unfolding scan_documents scan_document
  scan-counts job [] s = omega arith
  scan-counts job (raw ∷ raws) s = omega (
    arith,
    scan-counts job raws (scan_document uuid4 sha256 fromisoformat job raw s),
    found-counts job raw
        (record s { active_external_ids = external_id raw ∷ s.active_external_ids })
        (get_document_by_external_id s.documents job.org_id job.id (external_id raw)),
  )

  found-active :
      (job : IngestionJob) (raw : RawDocument) (s : Scan) (found : Option EnterpriseDocument)
      → (scan_found uuid4 sha256 fromisoformat job raw s found).active_external_ids
        ≡ s.active_external_ids
  unfolding scan_found dispatch
  found-active job raw s none = refl
  found-active job raw s (some existing) = ground arith

  pub scan-active :
      (job : IngestionJob) (raws : List RawDocument) (s : Scan) (e : String)
      → member e (scan job raws s).active_external_ids
        ≡ (member e (ids_of raws) || member e s.active_external_ids)
  unfolding scan_documents scan_document
  scan-active job [] s e = refl
  scan-active job (raw ∷ raws) s e =
      rw (scan-active job raws (scan_document uuid4 sha256 fromisoformat job raw s) e) (
        rw
          (found-active job raw
            (record s { active_external_ids = external_id raw ∷ s.active_external_ids })
            (get_document_by_external_id s.documents job.org_id job.id (external_id raw)))
          (ground arith))

  key-not_foreign :
      (job : IngestionJob) (e : String) (row : EnterpriseDocument)
      → has_key job.org_id job.id e row ≡ true
      → is_foreign job row ≡ false
  unfolding has_key is_foreign
  key-not_foreign job e row h = ground arith

  created-not_foreign :
      (job : IngestionJob) (raw : RawDocument) (n : ℕ)
      → is_foreign job (created uuid4 sha256 fromisoformat job raw n) ≡ false
  unfolding is_foreign created column_is
  created-not_foreign job raw n = ground (arith, eq_iff job.org_id job.org_id, eq_iff job.id job.id)

  found-foreign :
      (job : IngestionJob) (raw : RawDocument) (s : Scan) (found : Option EnterpriseDocument)
      → select (is_foreign job) (scan_found uuid4 sha256 fromisoformat job raw s found).documents
        ≡ select (is_foreign job) s.documents
  unfolding scan_found dispatch is_foreign refresh
  found-foreign job raw s none =
      select-append (is_foreign job) s.documents _ (created-not_foreign job raw s.issued)
  found-foreign job raw s (some existing) =
      elim (Bool-cases (is_unchanged existing (sha256 raw.content_bytes))) [
        | inl same ↦ rw same refl
        | inr changed ↦ rw changed (
            select-update_first (is_foreign job) (has_key job.org_id job.id (external_id raw))
              (refresh uuid4 sha256 fromisoformat raw) s.documents
              (key-not_foreign job (external_id raw))
              (λ row h. key-not_foreign job (external_id raw) row h))
      ]

  pub scan-foreign :
      (job : IngestionJob) (raws : List RawDocument) (s : Scan)
      → select (is_foreign job) (scan job raws s).documents ≡ select (is_foreign job) s.documents
  unfolding scan_documents scan_document
  scan-foreign job [] s = refl
  scan-foreign job (raw ∷ raws) s =
      rw (scan-foreign job raws (scan_document uuid4 sha256 fromisoformat job raw s)) (
        found-foreign job raw
          (record s { active_external_ids = external_id raw ∷ s.active_external_ids })
          (get_document_by_external_id s.documents job.org_id job.id (external_id raw)))
