-- ===== src/Registry/Examples.antt =====
-- The default registry, and a connector that joins it.
use cognitive_rag_system.Prelude.{
  true, false, ◌≡◌, refl, none, [], ◌∷◌, ◌==◌, ◌&&◌, member, if◌then◌else◌,
}
use cognitive_rag_system.Prelude.Dict.{lookup, insert}
use cognitive_rag_system.Registry.{
  KnowledgeSourceDescriptor, register_source, scopes_of, is_usable, accessible_from,
  list_accessible_sources, default_source, default_sources, lists, IsKeyed, register_source_lem,
}

program : Unit {0}
unfolding lookup insert register_source scopes_of is_usable accessible_from list_accessible_sources
    default_source default_sources
program = tt

auditor_sees_policies :
    lists "enterprise_policies" (list_accessible_sources "AUDITOR" none default_sources) ≡ true
unfolding program
auditor_sees_policies = refl

auditor_sees_no_department :
    lists "department_kb" (list_accessible_sources "AUDITOR" none default_sources) ≡ false
unfolding program
auditor_sees_no_department = refl

default-IsKeyed : IsKeyed default_sources
unfolding program
default-IsKeyed = (refl, refl, (refl, refl, (refl, refl, tt)))

abbrev wiki : KnowledgeSourceDescriptor
wiki = record {
  source_id = "wiki";
  name = "Wiki";
  description = "Runbooks";
  scope_type = "department";
  required_roles = "MEMBER" ∷ [];
  connector_type = "confluence";
  is_active = true;
}

register_source_lem_example :
    IsKeyed (register_source wiki default_sources)
    × (lists "wiki" (list_accessible_sources "MEMBER" none (register_source wiki default_sources))
        ≡ (if "wiki" == "wiki"
            then (wiki.is_active
                && member wiki.scope_type (scopes_of none)
                && member "MEMBER" wiki.required_roles)
            else lists "wiki" (list_accessible_sources "MEMBER" none default_sources)))
register_source_lem_example =
    register_source_lem wiki default_sources "MEMBER" "wiki" none default-IsKeyed
