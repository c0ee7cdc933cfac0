-- ===== src/Tokens/Accounts.antt =====
-- user_repository.py, and `resolve_effective_user` of app/dependencies.py: the caller of a request
-- without a token.
use cognitive_rag_system.Prelude.{
  Bool, true, ◌&&◌, String, Option, none, some, List, [], ◌∷◌, ◌++◌, ◌==◌, select, if◌then◌else◌,
}
use cognitive_rag_system.Auth.{UserRole}
use cognitive_rag_system.Tokens.Service.{Claim, text}
use cognitive_rag_system.Tokens.Access.{Caller, User}

pub record Organization : Type 0 where
  pub id : String
  pub name : String
  pub slug : String

pub record Department : Type 0 where
  pub id : String
  pub org_id : String
  pub name : String
  pub slug : String
  pub description : Option String

-- The tables, oldest rows first.
pub record Accounts : Type 0 where
  pub organizations : List Organization
  pub departments : List Department
  pub users : List User

-- `query(…).filter(…).first()`
abbrev first_where : {A : Type 0} → (A → Bool) → List A → Option A
first_where p [] = none
first_where p (x ∷ xs) = if p x then some x else first_where p xs

unfoldable pub get_by_id : String → Accounts → Option User
get_by_id user_id s = first_where (λ u. u.id == user_id && u.is_active) s.users

unfoldable pub get_org_by_id : String → Accounts → Option Organization
get_org_by_id org_id s = first_where (λ o. o.id == org_id) s.organizations

unfoldable pub get_org_by_slug : String → Accounts → Option Organization
get_org_by_slug slug s = first_where (λ o. o.slug == slug) s.organizations

-- A creation, with the id that `uuid4` gives; that a unique column is free is up to the caller.
unfoldable pub create_org : (new_id name slug : String) → Accounts → Organization × Accounts
create_org new_id name slug s =
    let org : Organization = record { id = new_id; name = name; slug = slug } in
    (org, record s { organizations = s.organizations ++ org ∷ [] })

unfoldable pub create_department :
    (new_id org_id name slug : String) → Option String → Accounts → Department × Accounts
create_department new_id org_id name slug description s =
    let dept : Department = record {
      id = new_id;
      org_id = org_id;
      name = name;
      slug = slug;
      description = description;
    } in
    (dept, record s { departments = s.departments ++ dept ∷ [] })

unfoldable pub list_org_departments : String → Accounts → List Department
list_org_departments org_id s = select (λ d. d.org_id == org_id) s.departments

unfoldable pub list_org_users : String → Accounts → List User
list_org_users org_id s = select (λ u. u.org_id == org_id && u.is_active) s.users

-- `create_user`, with its hash; the full name is left out.
unfoldable pub create_user :
    (new_id org_id email hashed_password : String)
    → UserRole
    → Option String
    → Accounts
    → User × Accounts
create_user new_id org_id email hashed_password role department_id s =
    let user : User = record {
      id = new_id;
      email = email;
      hashed_password = hashed_password;
      org_id = org_id;
      department_id = department_id;
      role = role;
      is_active = true;
    } in
    (user, record s { users = s.users ++ user ∷ [] })

abbrev guest_of : Organization → Caller
guest_of org = record {
  user_id = Claim.null;
  org_id = text org.id;
  department_id = Claim.null;
  role = text "MEMBER";
  email = text "guest@workspace.local";
}

abbrev org_or_new : (new_id : String) → Option Organization → Accounts → Organization × Accounts
org_or_new new_id (some org) s = (org, s)
org_or_new new_id none s = create_org new_id "Default Workspace" "default-org" s

-- `resolve_effective_user`: without a caller, the guest of the default organization, which is
-- created if it is missing.
unfoldable pub resolve_effective_user :
    (new_id : String) → Option Caller → Accounts → Caller × Accounts
resolve_effective_user new_id (some current_user) s = (current_user, s)
resolve_effective_user new_id none s =
    let found = org_or_new new_id (get_org_by_slug "default-org" s) s in (guest_of found.0, found.1)
