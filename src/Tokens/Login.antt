-- ===== src/Tokens/Login.antt =====
-- app/routes/auth.py, `login_user`, with its audit entry and its active session.
use cognitive_rag_system.Prelude.{
  ℕ, String, Option, none, some, List, [], ◌∷◌, ◌⊎◌, inl, inr, if◌then◌else◌,
}
use cognitive_rag_system.Prelude.Dict.{Dict}
use cognitive_rag_system.Text.{Text, codes, strip}
use cognitive_rag_system.Auth.{role_value}
use cognitive_rag_system.Tokens.Service.{Claim, text, create_access_token}
use cognitive_rag_system.Tokens.Access.{
  HttpError, claim_text, unauthorized, Active, User, get_by_email,
}
use cognitive_rag_system.Tokens.Passwords.{Bcrypt, verify_password}

-- What `AuditLogger.log` stores here.
pub record AuditEntry : Type 0 where
  pub org_id : String
  pub user_id : Option String
  pub action : String
  pub resource_type : String
  pub resource_id : Option String

pub record AuthState : Type 0 where
  pub users : List User
  pub audit : List AuditEntry
  pub active : Active

pub record TokenResponse : Type 0 where
  pub access_token : Text
  pub token_type : String
  pub user_id : String
  pub org_id : String
  pub department_id : Option String
  pub role : String

unfoldable pub token_data : User → Dict Claim
token_data user =
    ("sub", text user.id)
    ∷ ("email", text user.email)
    ∷ ("org_id", text user.org_id)
    ∷ ("dept_id", claim_text user.department_id)
    ∷ ("role", text (role_value user.role))
    ∷ []

abbrev pub login_entry : User → AuditEntry
login_entry user = record {
  org_id = user.org_id;
  user_id = some user.id;
  action = "USER_LOGIN";
  resource_type = "AUTH";
  resource_id = some user.id;
}

module _ (b64encode : Text → Text) (dumps : Dict Claim → Text) (sign : Text → Text)
    (pwd_context : Option Bcrypt) (pbkdf2 : (password salt : Text) → Text) where
  unfoldable pub welcome :
      (now default_minutes : ℕ) → User → AuthState → (HttpError ⊎ TokenResponse) × AuthState
  welcome now default_minutes user s = (
    inr (record {
      access_token =
          create_access_token b64encode dumps sign now default_minutes (token_data user) none;
      token_type = "bearer";
      user_id = user.id;
      org_id = user.org_id;
      department_id = user.department_id;
      role = role_value user.role;
    }),
    record s { audit = login_entry user ∷ s.audit; active = text user.id ∷ s.active },
  )

  unfoldable pub login_as :
      (now default_minutes : ℕ) (password : Text)
      → Option User
      → AuthState
      → (HttpError ⊎ TokenResponse) × AuthState
  login_as now default_minutes password none s = (inl (unauthorized "Invalid email or password"), s)
  login_as now default_minutes password (some user) s =
      if verify_password pwd_context pbkdf2 password (codes user.hashed_password)
      then welcome now default_minutes user s
      else (inl (unauthorized "Invalid email or password"), s)

  unfoldable pub login_user :
      (now default_minutes : ℕ) (email password : Text)
      → AuthState
      → (HttpError ⊎ TokenResponse) × AuthState
  login_user now default_minutes email password s =
      login_as now default_minutes password (get_by_email (strip email) s.users) s
