-- ===== src/Tokens/Examples.antt =====
-- Stand-ins for the coding of base64, `json` and the signature, and a login with them.
use cognitive_rag_system.Prelude.{
  ℕ, ◌+◌, ◌-◌, ◌%◌, true, false, Option, none, some, [], ◌∷◌, ◌++◌, inl, inr, ◌≡◌, refl, any, map,
  nat_eq, length, arith, if◌then◌else◌, member, ap,
}
use cognitive_rag_system.Prelude.Dict.{Dict, lookup, insert}
use cognitive_rag_system.Text.{
  Text, codes, text_eq, starts_with, lstrip_by, rstrip_by, strip, is_space, lower, lower_code,
  text_in, join, split_on,
}
use cognitive_rag_system.Text.Regex.{found, search_from, match_at, star_from}
use cognitive_rag_system.Auth.{UserRole}
use cognitive_rag_system.Tokens.Service.{
  Claim, text, number, expired, signature, structure, equals_sign, padding, check_expiry,
  b64url_encode, b64url_decode, header, signing_input, expiry, create_access_token, read_payload,
  decode_payload, check_signature, decode_parts, decode_access_token,
}
use cognitive_rag_system.Tokens.Access.{
  forbidden, str_items, caller_of, is_identified, identify, identify_optional, bearer_token,
  get_current_user, get_optional_user, has_role, require_role, User, get_by_email,
}
use cognitive_rag_system.Tokens.Passwords.{
  Bcrypt, split_dollar, fallback_hash, get_password_hash, verify_bcrypt, verify_pbkdf2,
  verify_password, verify-get_password_hash,
}
use cognitive_rag_system.Tokens.Accounts.{
  Accounts, get_by_id, get_org_by_id, get_org_by_slug, create_org, create_department,
  list_org_departments, list_org_users, create_user, resolve_effective_user,
}
use cognitive_rag_system.Tokens.Login.{AuthState, token_data, welcome, login_as, login_user}
use cognitive_rag_system.Tokens.RoundTrip.{Base64, decode-create}
use cognitive_rag_system.Tokens.Accepted.{IsSigned, decode_access_token-IsSigned}
use cognitive_rag_system.Tokens.Identity.{caller_for, response_token, login-get_current_user}
use cognitive_rag_system.Tokens.Emails.{
  disallowed_consumer_domains, email_regex, after_at, extract_email_domain, parent_domains,
  is_consumer_or_disposable_domain, prohibited, invalid_format, validate_enterprise_email,
}
use cognitive_rag_system.Tokens.Suffixes.{ends_with, is_under, is_consumer_or_disposable_domain_lem}

program : Unit {0}
unfolding get_by_id get_org_by_id get_org_by_slug create_org create_department list_org_departments
    list_org_users create_user resolve_effective_user lookup insert text_eq starts_with lstrip_by
    rstrip_by strip is_space lower lower_code text_in join split_on found search_from match_at
    star_from check_expiry b64url_encode b64url_decode header signing_input expiry
    create_access_token read_payload decode_payload check_signature decode_parts decode_access_token
    caller_of is_identified identify identify_optional bearer_token get_current_user
    get_optional_user has_role require_role get_by_email split_dollar fallback_hash
    get_password_hash verify_bcrypt verify_pbkdf2 verify_password token_data welcome login_as
    login_user disallowed_consumer_domains email_regex after_at extract_email_domain parent_domains
    is_consumer_or_disposable_domain validate_enterprise_email ends_with
program = tt

-- Four characters for each byte, and two that are filled up.
abbrev quads : Text → Text
quads [] = codes "AA"
quads (c ∷ s) = 65 ∷ 65 ∷ 66 ∷ (c + 128) ∷ quads s

abbrev add_byte : ℕ → Option Text → Option Text
add_byte c none = none
add_byte c (some s) = some (c ∷ s)

abbrev b64encode : Text → Text
b64encode s = quads s ++ padding 2

abbrev b64decode : Text → Option Text
b64decode (a ∷ b ∷ c ∷ d ∷ s) =
    let rest = b64decode s in if nat_eq c b'=' then some [] else add_byte (d - 128) rest
b64decode _ = none

quads-unpadded : (d : Text) → any equals_sign (quads d) ≡ false
quads-unpadded [] = refl
quads-unpadded (c ∷ s) = ground (arith, quads-unpadded s)

quads-undotted : (d : Text) → any (λ c. nat_eq c b'.') (quads d) ≡ false
quads-undotted [] = refl
quads-undotted (c ∷ s) = ground (arith, quads-undotted s)

quads-aligned : (d : Text) → (length (quads d) + 2) % 4 ≡ 0
quads-aligned [] = refl
quads-aligned (c ∷ s) = ground (arith, quads-aligned s)

byte_back : (c : ℕ) → c + 128 - 128 ≡ c
byte_back c = omega arith

quads-decode : (d : Text) → b64decode (b64encode d) ≡ some d
quads-decode [] = refl
quads-decode (c ∷ s) = rw (quads-decode s) (ap (λ n. some (n ∷ s)) (byte_back c))

base : Base64 b64encode b64decode
base = record {
  body = quads;
  pads = λ d. 2;
  encodes = λ d. refl;
  unpadded = quads-unpadded;
  undotted = quads-undotted;
  pads_few = λ d. omega arith;
  aligned = quads-aligned;
  decodes = quads-decode;
}

abbrev bcrypt : Bcrypt
bcrypt = record {
  hash = λ p. if text_eq p (codes "long") then none else some (codes "$2b$" ++ p);
  verify = λ p h. some (text_eq (codes "$2b$" ++ p) h);
}

abbrev pbkdf2 : Text → Text → Text
pbkdf2 password salt = salt ++ password

verify-get_password_hash_example :
    (verify_password
        (some bcrypt)
        pbkdf2
        (codes "pw")
        (get_password_hash (some bcrypt) pbkdf2 (codes "a1") (codes "pw"))
      ≡ true)
    × (verify_password
          (some bcrypt)
          pbkdf2
          (codes "guess")
          (fallback_hash (some bcrypt) pbkdf2 (codes "a1") (codes "pw"))
        ≡ text_eq (pbkdf2 (codes "guess") (codes "a1")) (pbkdf2 (codes "pw") (codes "a1")))
unfolding program
verify-get_password_hash_example =
    verify-get_password_hash pbkdf2 (codes "a1") (codes "pw") (codes "guess") (some bcrypt) refl
      (refl, refl)

abbrev ada : User
ada = record {
  id = "u1";
  email = "ada@corp.example";
  hashed_password = "$2b$pw";
  org_id = "o1";
  department_id = none;
  role = UserRole.auditor;
  is_active = true;
}

abbrev ada_claims : Dict Claim
ada_claims = insert "exp" (number 3700) (token_data ada)

abbrev dumps : Dict Claim → Text
dumps claims = map (λ e. length (codes e.0)) claims

abbrev loads : Text → Option (Dict Claim)
loads raw = if text_eq raw (dumps ada_claims) then some ada_claims else none

abbrev sign : Text → Text
sign s = 7 ∷ s

abbrev state : AuthState
state = record { users = ada ∷ []; audit = []; active = [] }

abbrev ada_token : Text
ada_token = create_access_token b64encode dumps sign 100 60 (token_data ada) none

ada_claims_back : loads (dumps ada_claims) ≡ some ada_claims
unfolding program
ada_claims_back = refl

decode-create_example :
    decode_access_token b64decode loads sign 3700
      (create_access_token b64encode dumps sign 100 60 (token_data ada) none)
    ≡ inr (insert "exp" (number (expiry 100 60 none)) (token_data ada))
unfolding program
decode-create_example =
    decode-create b64encode b64decode base dumps loads sign 100 3700 60 none (token_data ada)
      ada_claims_back (omega arith)

expired_later : decode_access_token b64decode loads sign 3701 ada_token ≡ inl expired
unfolding program
expired_later = refl

forged : decode_access_token b64decode loads (λ s. 8 ∷ s) 3000 ada_token ≡ inl signature
unfolding program
forged = refl

two_parts : decode_access_token b64decode loads sign 0 (codes "a.b") ≡ inl structure
unfolding program
two_parts = refl

decode_access_token-IsSigned_example : IsSigned b64decode loads sign 200 ada_token ada_claims
unfolding program
decode_access_token-IsSigned_example =
    decode_access_token-IsSigned b64decode loads sign 200 ada_token ada_claims refl

login-get_current_user_example :
    (get_current_user b64decode loads sign 3000
        (response_token
          (login_user b64encode dumps sign
            (some bcrypt)
            pbkdf2
            100
            60
            (codes " ada@corp.example")
            (codes "pw")
            state).0)
        []
      ≡ (inr (caller_for ada), text "u1" ∷ []))
    × (require_role
          ("SUPER_ADMIN" ∷ "AUDITOR" ∷ [])
          (get_current_user b64decode loads sign 3000
            (response_token
              (login_user b64encode dumps sign
                (some bcrypt)
                pbkdf2
                100
                60
                (codes " ada@corp.example")
                (codes "pw")
                state).0)
            []).0
        ≡ (if member "AUDITOR" ("SUPER_ADMIN" ∷ "AUDITOR" ∷ [])
            then inr (caller_for ada)
            else inl (forbidden ("SUPER_ADMIN" ∷ "AUDITOR" ∷ []))))
unfolding program
login-get_current_user_example =
    login-get_current_user b64encode b64decode dumps loads sign (some bcrypt) pbkdf2 base 100 3000
      60 (codes " ada@corp.example") (codes "pw") ada ("SUPER_ADMIN" ∷ "AUDITOR" ∷ []) state []
      ada_claims_back refl refl refl refl (omega arith)

-- The address of the registration, in other letter case, is not found at the login.
upper_case_email : get_by_email (strip (codes "Ada@corp.example")) (ada ∷ []) ≡ none
unfolding program
upper_case_email = refl

optional_caller :
    (get_optional_user b64decode loads sign 200 (some (codes "Bearer " ++ ada_token)) []).0
    ≡ some (caller_for ada)
unfolding program
optional_caller = refl

is_consumer_or_disposable_domain_lem_example :
    is_consumer_or_disposable_domain (codes "Mail.Gmail.com")
    ≡ any (is_under (strip (lower (codes "Mail.Gmail.com")))) disallowed_consumer_domains
is_consumer_or_disposable_domain_lem_example =
    is_consumer_or_disposable_domain_lem (codes "Mail.Gmail.com")

subdomain_refused :
    validate_enterprise_email true false (codes "ada@mail.gmail.com") ≡ inl prohibited
unfolding program
subdomain_refused = refl

corporate_accepted :
    validate_enterprise_email true false (codes " Ada@Corp.example")
    ≡ inr (codes "ada@corp.example")
unfolding program
corporate_accepted = refl

-- A dot at the end of the domain, which names the same domain, is let through.
final_dot_accepted :
    validate_enterprise_email true false (codes "ada@gmail.com.") ≡ inr (codes "ada@gmail.com.")
unfolding program
final_dot_accepted = refl

no_at_sign : validate_enterprise_email true false (codes "ada") ≡ inl invalid_format
unfolding program
no_at_sign = refl

abbrev no_accounts : Accounts
no_accounts = record { organizations = []; departments = []; users = [] }

-- The guest's organization is created once.
guest_twice :
    resolve_effective_user "o2" none (resolve_effective_user "o1" none no_accounts).1
    ≡ resolve_effective_user "o1" none no_accounts
unfolding program
guest_twice = refl

abbrev staffed : Accounts
staffed =
    (create_user "u2" "o1" "bob@corp.example" "$2b$x" UserRole.member none
      (create_department "d1" "o1" "Finance" "fin" none
        (create_org "o1" "Corp" "corp" no_accounts).1).1).1

finds_bob :
    (length (list_org_users "o1" staffed) ≡ 1)
    × (length (list_org_departments "o1" staffed) ≡ 1)
    × (map (λ o. o.id) (list_org_users "o2" staffed) ≡ [])
    × (get_by_id "u3" staffed ≡ none)
    × (get_org_by_id "o1" staffed ≡ get_org_by_slug "corp" staffed)
unfolding program
finds_bob = (refl, refl, refl, refl, refl)

-- What a caller without the role is told.
forbidden_detail :
    (forbidden ("SUPER_ADMIN" ∷ "AUDITOR" ∷ [])).detail
    ≡ "Action requires one of roles: ['SUPER_ADMIN', 'AUDITOR']"
unfolding str_items
forbidden_detail = refl
