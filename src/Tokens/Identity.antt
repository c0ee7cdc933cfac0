-- ===== src/Tokens/Identity.antt =====
-- The token of a login identifies its user.
use cognitive_rag_system.Prelude.{
  ℕ, ◌+◌, ◌*◌, ◌≤◌, true, String, Option, none, some, List, ◌∷◌, ◌⊎◌, inl, inr, ◌≡◌, refl, truthy,
  member, if◌then◌else◌,
}
use cognitive_rag_system.Prelude.Dict.{Dict, lookup, insert}
use cognitive_rag_system.Text.{Text, codes, strip}
use cognitive_rag_system.Auth.{role_value, UserRole}
use cognitive_rag_system.Tokens.Service.{Claim, text, number, expiry}
use cognitive_rag_system.Tokens.Access.{
  or_member, Caller, HttpError, claim_text, caller_of, is_identified, Active, identify,
  get_current_user, forbidden, require_role, User, get_by_email,
}
use cognitive_rag_system.Tokens.Passwords.{Bcrypt, verify_password}
use cognitive_rag_system.Tokens.Login.{
  AuthState, TokenResponse, token_data, welcome, login_as, login_user,
}
use cognitive_rag_system.Tokens.RoundTrip.{Base64, decode-create}

abbrev pub caller_for : User → Caller
caller_for user = record {
  user_id = text user.id;
  org_id = text user.org_id;
  department_id = claim_text user.department_id;
  role = text (role_value user.role);
  email = text user.email;
}

abbrev pub response_token : HttpError ⊎ TokenResponse → Option Text
response_token (inl e) = none
response_token (inr r) = some r.access_token

role_or_member : (r : UserRole) → or_member (text (role_value r)) ≡ text (role_value r)
role_or_member UserRole.super_admin = refl
role_or_member UserRole.dept_admin = refl
role_or_member UserRole.member = refl
role_or_member UserRole.auditor = refl

caller_of-token_data :
    (default exp : Claim) (user : User)
    → caller_of default (insert "exp" exp (token_data user)) ≡ caller_for user
unfolding caller_of insert lookup token_data
caller_of-token_data default exp user = rw (role_or_member user.role) refl

identify-token_data :
    (exp : Claim) (user : User) (active : Active)
    → truthy (some user.id) ≡ true
    → truthy (some user.org_id) ≡ true
    → identify (inr (insert "exp" exp (token_data user))) active
      ≡ (inr (caller_for user), text user.id ∷ active)
unfolding identify is_identified
identify-token_data exp user active named placed =
    rw (caller_of-token_data Claim.null exp user, named, placed) refl

admitted :
    (allowed : List String) (user : User)
    → require_role allowed (inr (caller_for user)) ≡ (
        if member (role_value user.role) allowed
        then inr (caller_for user)
        else inl (forbidden allowed))
unfolding require_role
admitted allowed user = refl

module _ (b64encode : Text → Text) (b64decode : Text → Option Text) (dumps : Dict Claim → Text)
    (loads : Text → Option (Dict Claim)) (sign : Text → Text) (pwd_context : Option Bcrypt)
    (pbkdf2 : (password salt : Text) → Text) where
  welcomed :
      (now minutes : ℕ) (email password : Text) (user : User) (s : AuthState)
      → get_by_email (strip email) s.users ≡ some user
      → verify_password pwd_context pbkdf2 password (codes user.hashed_password) ≡ true
      → login_user b64encode dumps sign pwd_context pbkdf2 now minutes email password s
        ≡ welcome b64encode dumps sign pwd_context pbkdf2 now minutes user s
  unfolding login_user login_as
  welcomed now minutes email password user s found right = rw (found, right) refl

  identified :
      (base : Base64 b64encode b64decode) (now later minutes : ℕ) (email password : Text)
      (user : User) (s : AuthState) (active : Active)
      → loads (dumps (insert "exp" (number (expiry now minutes none)) (token_data user)))
        ≡ some (insert "exp" (number (expiry now minutes none)) (token_data user))
      → get_by_email (strip email) s.users ≡ some user
      → verify_password pwd_context pbkdf2 password (codes user.hashed_password) ≡ true
      → truthy (some user.id) ≡ true
      → truthy (some user.org_id) ≡ true
      → later ≤ now + minutes * 60
      → get_current_user b64decode loads sign later
          (response_token
            (login_user b64encode dumps sign pwd_context pbkdf2 now minutes email password s).0)
          active
        ≡ (inr (caller_for user), text user.id ∷ active)
  unfolding welcome get_current_user expiry
  identified base now later minutes email password user s active parses found right named placed
        fresh =
      rw
        (
          welcomed now minutes email password user s found right,
          decode-create b64encode b64decode base dumps loads sign now later minutes none
              (token_data user) parses fresh,
        )
        (identify-token_data (number (expiry now minutes none)) user active named placed)

  -- With the laws of base64 and a `json` that reads the claims back: a user who is found by e-mail
  -- and gives the right password gets a token that, until it expires, makes the caller this user
  -- with its organization, department, role and e-mail, reports the session as active, and passes
  -- a role check exactly if the check allows the user's role, and is told the allowed roles
  -- otherwise.
  pub login-get_current_user :
      (base : Base64 b64encode b64decode) (now later minutes : ℕ) (email password : Text)
      (user : User) (allowed : List String) (s : AuthState) (active : Active)
      → loads (dumps (insert "exp" (number (expiry now minutes none)) (token_data user)))
        ≡ some (insert "exp" (number (expiry now minutes none)) (token_data user))
      → get_by_email (strip email) s.users ≡ some user
      → verify_password pwd_context pbkdf2 password (codes user.hashed_password) ≡ true
      → truthy (some user.id) ≡ true
      → truthy (some user.org_id) ≡ true
      → later ≤ now + minutes * 60
      → (get_current_user b64decode loads sign later
            (response_token
              (login_user b64encode dumps sign pwd_context pbkdf2 now minutes email password s).0)
            active
          ≡ (inr (caller_for user), text user.id ∷ active))
        × (require_role allowed
              (get_current_user b64decode loads sign later
                (response_token
                  (login_user b64encode dumps sign pwd_context pbkdf2 now minutes email password
                    s).0)
                active).0
            ≡ (if member (role_value user.role) allowed
                then inr (caller_for user)
                else inl (forbidden allowed)))
  login-get_current_user base now later minutes email password user allowed s active parses found
        right named placed fresh =
      let e =
        identified base now later minutes email password user s active parses found right named
          placed fresh in
      (e, rw e (admitted allowed user))
