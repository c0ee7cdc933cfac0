-- ===== src/Tokens/Access.antt =====
-- app/dependencies.py, policies.py, user_repository.py and the login of app/routes/auth.py: who a
-- request comes from.
use cognitive_rag_system.Prelude.{
  ℕ, Bool, false, not, ◌&&◌, String, Option, none, some, List, [], ◌∷◌, ◌⊎◌, inl, inr, ◌==◌, nat_eq,
  if◌then◌else◌, member, concat,
}
use cognitive_rag_system.Prelude.Dict.{Dict, lookup}
use cognitive_rag_system.Text.{Text, codes, starts_with, split_on, text_eq}
use cognitive_rag_system.Auth.{UserRole}
use cognitive_rag_system.Tokens.Service.{Claim, text, number, TokenError, decode_access_token}

-- `TokenData`, with the claims as they stand in the payload: their types are not checked.
pub record Caller : Type 0 where
  pub user_id : Claim
  pub org_id : Claim
  pub department_id : Claim
  pub role : Claim
  pub email : Claim

-- The status and the detail of an HTTPException.
pub record HttpError : Type 0 where
  pub status : ℕ
  pub detail : String

-- `payload.get(key, default)`
abbrev pub get_claim : Claim → Option Claim → Claim
get_claim default none = default
get_claim default (some c) = c

abbrev pub is_true : Claim → Bool
is_true Claim.null = false
is_true (text s) = not (s == "")
is_true (number n) = not (nat_eq n 0)

-- `role or "MEMBER"`
abbrev pub or_member : Claim → Claim
or_member c = if is_true c then c else text "MEMBER"

abbrev pub claim_text : Option String → Claim
claim_text none = Claim.null
claim_text (some s) = text s

unfoldable pub caller_of : (email_default : Claim) → Dict Claim → Caller
caller_of email_default payload = record {
  user_id = get_claim Claim.null (lookup "sub" payload);
  org_id = get_claim Claim.null (lookup "org_id" payload);
  department_id = get_claim Claim.null (lookup "dept_id" payload);
  role = or_member (get_claim Claim.null (lookup "role" payload));
  email = get_claim email_default (lookup "email" payload);
}

unfoldable pub is_identified : Caller → Bool
is_identified c = is_true c.user_id && is_true c.org_id

abbrev pub unauthorized : String → HttpError
unauthorized detail = record { status = 401; detail = detail }

-- The callers that are reported to `record_active_session`, whose errors are dropped.
abbrev pub Active : Type 0
Active = List Claim

-- After decoding. The handler of all exceptions also catches the HTTPException for a payload that
-- lacks the user or the organization.
unfoldable pub identify : TokenError ⊎ Dict Claim → Active → (HttpError ⊎ Caller) × Active
identify (inl e) active = (inl (unauthorized "Invalid or expired token"), active)
identify (inr payload) active =
    if is_identified (caller_of Claim.null payload)
    then (inr (caller_of Claim.null payload), (caller_of Claim.null payload).user_id ∷ active)
    else (inl (unauthorized "Invalid or expired token"), active)

unfoldable pub identify_optional : TokenError ⊎ Dict Claim → Active → Option Caller × Active
identify_optional (inl e) active = (none, active)
identify_optional (inr payload) active =
    if is_identified (caller_of (text "") payload)
    then (some (caller_of (text "") payload), (caller_of (text "") payload).user_id ∷ active)
    else (none, active)

abbrev second : List Text → Option Text
second (x ∷ y ∷ xs) = some y
second _ = none

-- `authorization.split(" ")[1]`, after `startswith("Bearer ")`
unfoldable pub bearer_token : Text → Option Text
bearer_token authorization =
    if starts_with authorization (codes "Bearer ")
    then second (split_on b' ' authorization)
    else none

-- A claim in a list of texts
abbrev pub claim_in : Claim → List String → Bool
claim_in (text s) allowed = member s allowed
claim_in _ allowed = false

-- `has_role`, over the values of the allowed roles
unfoldable pub has_role : Caller → List String → Bool
has_role user allowed_roles = claim_in user.role allowed_roles

-- `str` of a list of texts that hold no quote and no backslash, as the names of roles do
unfoldable pub str_items : List String → String
str_items [] = ""
str_items (s ∷ []) = concat "'" (concat s "'")
str_items (s ∷ ss) = concat "'" (concat s (concat "', " (str_items ss)))

abbrev pub forbidden : List String → HttpError
forbidden allowed_roles = record {
  status = 403;
  detail = concat "Action requires one of roles: [" (concat (str_items allowed_roles) "]");
}

-- `role_checker` of `require_role`
unfoldable pub require_role : List String → HttpError ⊎ Caller → HttpError ⊎ Caller
require_role allowed_roles (inl e) = inl e
require_role allowed_roles (inr user) =
    if claim_in user.role allowed_roles then inr user else inl (forbidden allowed_roles)

pub record User : Type 0 where
  pub id : String
  pub email : String
  pub hashed_password : String
  pub org_id : String
  pub department_id : Option String
  pub role : UserRole
  pub is_active : Bool

-- `UserRepository.get_by_email`
unfoldable pub get_by_email : Text → List User → Option User
get_by_email email [] = none
get_by_email email (u ∷ users) =
    if text_eq (codes u.email) email && u.is_active then some u else get_by_email email users

module _ (b64decode : Text → Option Text) (loads : Text → Option (Dict Claim))
    (sign : Text → Text) where
  -- `get_current_user`: `credentials` are the ones of the bearer scheme.
  unfoldable pub get_current_user : (now : ℕ) → Option Text → Active → (HttpError ⊎ Caller) × Active
  get_current_user now none active = (inl (unauthorized "Authentication required"), active)
  get_current_user now (some token) active =
      identify (decode_access_token b64decode loads sign now token) active

  unfoldable pub get_optional_user : (now : ℕ) → Option Text → Active → Option Caller × Active
  get_optional_user now none active = (none, active)
  get_optional_user now (some authorization) active = elim (bearer_token authorization) [
    | none ↦ (none, active)
    | some token ↦ identify_optional (decode_access_token b64decode loads sign now token) active
  ]
