-- ===== src/Governance/Tables.antt =====
-- Queries on the documents table after the updates that the ingestion job makes.
use mathlib.Core.Option
use cognitive_rag_system.Prelude.{
  Bool, true, false, not, ◌≡◌, refl, String, Option, none, some, List, [], ◌∷◌, ◌++◌, ◌==◌, eq_iff,
  arith, select, map, Bool-cases, inl, inr, if◌then◌else◌,
}
use cognitive_rag_system.Prelude.Dict.{or_else}
use cognitive_rag_system.Governance.Documents.{
  EnterpriseDocument, first_where, update_first, has_key, column_is,
}

abbrev pub Rows : Type 0
Rows = List EnterpriseDocument

abbrev pub if_meets : (EnterpriseDocument → Bool) → EnterpriseDocument → Option EnterpriseDocument
if_meets p row = if p row then some row else none

pub first_where-append :
    (p : EnterpriseDocument → Bool) (rows : Rows) (row : EnterpriseDocument)
    → first_where p (rows ++ (row ∷ [])) ≡ or_else (first_where p rows) (if_meets p row)
unfolding first_where
first_where-append p [] row = ground arith
first_where-append p (r ∷ rows) row = ground (arith, first_where-append p rows row)

-- The updated row is found as such, if the update keeps what the filter reads.
pub first_where-update_first :
    (p : EnterpriseDocument → Bool) (f : EnterpriseDocument → EnterpriseDocument) (rows : Rows)
    → ((row : EnterpriseDocument) → p (f row) ≡ p row)
    → first_where p (update_first p f rows) ≡ Option.map f (first_where p rows)
unfolding first_where update_first
first_where-update_first p f [] k = refl
first_where-update_first p f (r ∷ rows) k = elim (Bool-cases (p r)) [
  | inl met ↦ rw (met, k r, met) refl
  | inr not_met ↦ rw (not_met, not_met) (first_where-update_first p f rows k)
]

-- A filter that no updated row meets finds what it found.
pub first_where-update_other :
    (p q : EnterpriseDocument → Bool) (f : EnterpriseDocument → EnterpriseDocument) (rows : Rows)
    → ((row : EnterpriseDocument) → q (f row) ≡ q row)
    → ((row : EnterpriseDocument) → p row ≡ true → q row ≡ false)
    → first_where q (update_first p f rows) ≡ first_where q rows
unfolding first_where update_first
first_where-update_other p q f [] k d = refl
first_where-update_other p q f (r ∷ rows) k d = elim (Bool-cases (p r)) [
  | inl met ↦ rw (met, k r, d r met) refl
  | inr not_met ↦ rw not_met (ground (arith, first_where-update_other p q f rows k d))
]

-- A selection that keeps every row of the filter does not change what the filter finds.
pub first_where-select :
    (p q : EnterpriseDocument → Bool) (rows : Rows)
    → ((row : EnterpriseDocument) → q row ≡ true → p row ≡ true)
    → first_where q (select p rows) ≡ first_where q rows
unfolding first_where
first_where-select p q [] k = refl
first_where-select p q (r ∷ rows) k = elim (Bool-cases (q r)) [
  | inl met ↦ rw (met, k r met, met) refl
  | inr not_met ↦ ground (arith, first_where-select p q rows k)
]

pub first_where-map :
    (q : EnterpriseDocument → Bool) (f : EnterpriseDocument → EnterpriseDocument) (rows : Rows)
    → ((row : EnterpriseDocument) → q (f row) ≡ q row)
    → first_where q (map f rows) ≡ Option.map f (first_where q rows)
unfolding first_where
first_where-map q f [] k = refl
first_where-map q f (r ∷ rows) k = elim (Bool-cases (q r)) [
  | inl met ↦ rw (k r, met) refl
  | inr not_met ↦ rw (k r, not_met) (first_where-map q f rows k)
]

pub select-append :
    (p : EnterpriseDocument → Bool) (rows : Rows) (row : EnterpriseDocument)
    → p row ≡ false
    → select p (rows ++ (row ∷ [])) ≡ select p rows
select-append p [] row h = rw h refl
select-append p (r ∷ rows) row h = ground (arith, select-append p rows row h)

pub select-update_first :
    (p q : EnterpriseDocument → Bool) (f : EnterpriseDocument → EnterpriseDocument) (rows : Rows)
    → ((row : EnterpriseDocument) → q row ≡ true → p row ≡ false)
    → ((row : EnterpriseDocument) → q row ≡ true → p (f row) ≡ false)
    → select p (update_first q f rows) ≡ select p rows
unfolding update_first
select-update_first p q f [] k d = refl
select-update_first p q f (r ∷ rows) k d = elim (Bool-cases (q r)) [
  | inl met ↦ rw (met, k r met, d r met) refl
  | inr not_met ↦ rw not_met (ground (arith, select-update_first p q f rows k d))
]

pub select-select :
    (p q : EnterpriseDocument → Bool) (rows : Rows)
    → ((row : EnterpriseDocument) → p row ≡ true → q row ≡ true)
    → select p (select q rows) ≡ select p rows
select-select p q [] k = refl
select-select p q (r ∷ rows) k = elim (Bool-cases (p r)) [
  | inl met ↦ rw (met, k r met, met) (ground (arith, select-select p q rows k))
  | inr not_met ↦ ground (arith, select-select p q rows k)
]

column_is-other :
    (o : Option String) (e e' : String)
    → (e == e') ≡ false
    → column_is o e ≡ true
    → column_is o e' ≡ false
unfolding column_is
column_is-other none e e' h k = refl
column_is-other (some s) e e' h k = ground (arith, eq_iff s e, eq_iff s e', eq_iff e e')

-- A row of one external id is of no other.
pub has_key-other :
    (org_id job_id e e' : String) (row : EnterpriseDocument)
    → (e == e') ≡ false
    → has_key org_id job_id e row ≡ true
    → has_key org_id job_id e' row ≡ false
unfolding has_key
has_key-other org_id job_id e e' row h k = ground (arith, column_is-other row.external_id e e')

pub select-map :
    (p : EnterpriseDocument → Bool) (f : EnterpriseDocument → EnterpriseDocument) (rows : Rows)
    → ((row : EnterpriseDocument) → p (f row) ≡ p row)
    → select p (map f rows) ≡ map f (select p rows)
select-map p f [] k = refl
select-map p f (r ∷ rows) k = elim (Bool-cases (p r)) [
  | inl met ↦ rw (k r, met, select-map p f rows k) refl
  | inr not_met ↦ rw (k r, not_met) (select-map p f rows k)
]

pub select-same :
    (p q : EnterpriseDocument → Bool) (rows : Rows)
    → ((row : EnterpriseDocument) → p row ≡ q row)
    → select p rows ≡ select q rows
select-same p q [] k = refl
select-same p q (r ∷ rows) k = rw (k r, select-same p q rows k) refl

pub select-rest :
    (p : EnterpriseDocument → Bool) (rows : Rows)
    → select p rows ≡ []
    → select (λ row. not (p row)) rows ≡ rows
select-rest p [] h = refl
select-rest p (r ∷ rows) h = elim (Bool-cases (p r)) [
  | inl met ↦ cc (rw met at h)
  | inr not_met ↦ rw (not_met, select-rest p rows (rw not_met at h)) refl
]
