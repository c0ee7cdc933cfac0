-- ===== src/Registry.antt =====
-- modules/rag_core/registry/knowledge_registry.py: the knowledge sources and who may use them.
use cognitive_rag_system.Prelude.{
  Bool, true, false, not, ◌&&◌, ◌||◌, ◌==◌, eq_iff, eq_refl, ◌∙◌, ◌≡◌, refl, String, Option, none,
  some, List, [], ◌∷◌, member, arith, Bool-cases, inl, inr, if◌then◌else◌,
}
use cognitive_rag_system.Prelude.Dict.{Dict, lookup, insert, lookup-insert}
mod Examples

pub record KnowledgeSourceDescriptor : Type 0 where
  pub source_id : String
  pub name : String
  pub description : String
  pub scope_type : String
  pub required_roles : List String
  pub connector_type : String
  pub is_active : Bool

-- `KnowledgeRegistry._sources`
abbrev pub Registry : Type 0
Registry = Dict KnowledgeSourceDescriptor

unfoldable pub register_source : KnowledgeSourceDescriptor → Registry → Registry
register_source descriptor sources = insert descriptor.source_id descriptor sources

-- `requested_scopes or [...]`
unfoldable pub scopes_of : Option (List String) → List String
scopes_of (some (scope ∷ scopes)) = scope ∷ scopes
scopes_of _ = "personal" ∷ "department" ∷ "enterprise" ∷ []

unfoldable pub is_usable : (role : String) → List String → KnowledgeSourceDescriptor → Bool
is_usable role scopes source =
    source.is_active && member source.scope_type scopes && member role source.required_roles

-- The loop over the registered sources.
unfoldable pub accessible_from :
    (role : String) → List String → Registry → List KnowledgeSourceDescriptor
accessible_from role scopes [] = []
accessible_from role scopes ((key, source) ∷ sources) =
    let rest = accessible_from role scopes sources in
    if is_usable role scopes source then source ∷ rest else rest

unfoldable pub list_accessible_sources :
    (role : String) → Option (List String) → Registry → List KnowledgeSourceDescriptor
list_accessible_sources role requested_scopes sources =
    accessible_from role (scopes_of requested_scopes) sources

unfoldable pub default_source :
    (id name description scope : String) → List String → KnowledgeSourceDescriptor
default_source id name description scope roles = record {
  source_id = id;
  name = name;
  description = description;
  scope_type = scope;
  required_roles = roles;
  connector_type = "vector_qdrant";
  is_active = true;
}

-- `_register_default_sources`
unfoldable pub default_sources : Registry
default_sources =
    register_source
      (default_source "enterprise_policies" "Enterprise Organization Knowledge"
        "Company-wide policies, employee guidelines, standard operating procedures" "enterprise"
        ("MEMBER" ∷ "DEPT_ADMIN" ∷ "SUPER_ADMIN" ∷ "AUDITOR" ∷ []))
      (register_source
        (default_source "department_kb" "Department Knowledge Base"
          "Functional department documentation, wikis, and technical runbooks" "department"
          ("MEMBER" ∷ "DEPT_ADMIN" ∷ "SUPER_ADMIN" ∷ []))
        (register_source
          (default_source "personal_docs" "Personal Workspace Documents"
            "Documents uploaded directly by the user or attached to the current session" "personal"
            ("MEMBER" ∷ "DEPT_ADMIN" ∷ "SUPER_ADMIN" ∷ []))
          []))

-- Is a source of this id among the listed ones?
abbrev pub lists : String → List KnowledgeSourceDescriptor → Bool
lists id [] = false
lists id (source ∷ sources) = source.source_id == id || lists id sources

-- A registry in which every source stands under its own id, once.
abbrev pub IsKeyed : Registry → Type 0
IsKeyed [] = Unit
IsKeyed ((key, source) ∷ sources) =
    ((source.source_id == key) ≡ true) × (lookup key sources ≡ none) × IsKeyed sources

abbrev pub permits : (role : String) → List String → Option KnowledgeSourceDescriptor → Bool
permits role scopes none = false
permits role scopes (some source) = is_usable role scopes source

lists-accessible_from :
    (role id : String) (scopes : List String) (sources : Registry)
    → IsKeyed sources
    → lists id (accessible_from role scopes sources) ≡ permits role scopes (lookup id sources)
unfolding accessible_from lookup
lists-accessible_from role id scopes [] h = refl
lists-accessible_from role id scopes ((key, source) ∷ sources) h = ground (
  arith,
  lists-accessible_from role id scopes sources,
  eq_iff key id,
  eq_iff source.source_id key,
  eq_iff source.source_id id,
)

register_source-IsKeyed :
    (source : KnowledgeSourceDescriptor) (sources : Registry)
    → IsKeyed sources
    → IsKeyed (register_source source sources)
unfolding register_source insert lookup
register_source-IsKeyed new [] h = (eq_refl new.source_id, refl, tt)
register_source-IsKeyed new ((key, source) ∷ sources) h = elim (Bool-cases (key == new.source_id)) [
  | inl same ↦
      rw same (ground (arith, eq_iff key new.source_id, eq_iff new.source_id key), h.1, h.2)
  | inr other ↦ rw other (
    h.0,
    lookup-insert new.source_id key new sources
        ∙ ground (arith, h.1, eq_iff key new.source_id, eq_iff new.source_id key),
    register_source-IsKeyed new sources h.2,
  )
]

registered :
    (source : KnowledgeSourceDescriptor) (id : String) (sources : Registry)
    → lookup id (register_source source sources)
      ≡ (if source.source_id == id then some source else lookup id sources)
unfolding register_source
registered source id sources = lookup-insert source.source_id id source sources

permits_if :
    (role : String) (scopes : List String) (b : Bool) (source : KnowledgeSourceDescriptor)
    (found : Option KnowledgeSourceDescriptor)
    → permits role scopes (if b then some source else found)
      ≡ (if b then is_usable role scopes source else permits role scopes found)
permits_if role scopes true source found = refl
permits_if role scopes false source found = refl

listed :
    (source : KnowledgeSourceDescriptor) (sources : Registry) (role id : String)
    (requested : Option (List String))
    → IsKeyed sources
    → lists id (list_accessible_sources role requested (register_source source sources)) ≡ (
        if source.source_id == id
        then is_usable role (scopes_of requested) source
        else lists id (list_accessible_sources role requested sources))
unfolding list_accessible_sources
listed source sources role id requested h =
    rw
      (
        lists-accessible_from role id (scopes_of requested) (register_source source sources)
            (register_source-IsKeyed source sources h),
        lists-accessible_from role id (scopes_of requested) sources h,
        registered source id sources,
      )
      (permits_if role (scopes_of requested) (source.source_id == id) source (lookup id sources))

-- In a registry in which every source stands under its own id, registering a source keeps that so;
-- the new source is then listed for a role exactly if it is active, of a requested scope and open
-- to the role, and every other source is listed as it was.
pub register_source_lem :
    (source : KnowledgeSourceDescriptor) (sources : Registry) (role id : String)
    (requested : Option (List String))
    → IsKeyed sources
    → IsKeyed (register_source source sources)
      × (lists id (list_accessible_sources role requested (register_source source sources)) ≡ (
          if source.source_id == id
          then (source.is_active
              && member source.scope_type (scopes_of requested)
              && member role source.required_roles)
          else lists id (list_accessible_sources role requested sources)))
unfolding is_usable
register_source_lem source sources role id requested h =
    (register_source-IsKeyed source sources h, listed source sources role id requested h)
