-- ===== src/Tokens/Emails.antt =====
-- modules/auth/validators.py: which e-mail addresses may register.
use cognitive_rag_system.Prelude.{
  ℕ, Bool, not, ◌&&◌, ◌||◌, List, [], ◌∷◌, ◌⊎◌, inl, inr, map, any, leb, nat_eq, if◌then◌else◌,
}
use cognitive_rag_system.Text.{Text, codes, is_empty, lower, strip, text_in, join, split_on}
use cognitive_rag_system.Text.Regex.{Regex, set, cat, at_start, at_end, plus, found}

-- `DISALLOWED_CONSUMER_DOMAINS`
unfoldable pub disallowed_consumer_domains : List Text
disallowed_consumer_domains = map codes (
    "gmail.com" ∷ "googlemail.com" ∷ "yahoo.com" ∷ "yahoo.co.uk" ∷ "yahoo.fr" ∷ "yahoo.es"
    ∷ "yahoo.de" ∷ "yahoo.ca" ∷ "yahoo.com.br" ∷ "yahoo.in" ∷ "ymail.com" ∷ "rocketmail.com"
    ∷ "hotmail.com" ∷ "hotmail.co.uk" ∷ "hotmail.fr" ∷ "hotmail.es" ∷ "hotmail.de" ∷ "outlook.com"
    ∷ "outlook.co.uk" ∷ "live.com" ∷ "live.co.uk" ∷ "msn.com" ∷ "passport.com" ∷ "icloud.com"
    ∷ "me.com" ∷ "mac.com" ∷ "aol.com" ∷ "aim.com" ∷ "protonmail.com" ∷ "proton.me" ∷ "pm.me"
    ∷ "zoho.com" ∷ "mail.com" ∷ "email.com" ∷ "gmx.com" ∷ "gmx.net" ∷ "gmx.de" ∷ "yandex.com"
    ∷ "yandex.ru" ∷ "yandex.net" ∷ "tutanota.com" ∷ "tutamail.com" ∷ "tuta.io" ∷ "fastmail.com"
    ∷ "hushmail.com" ∷ "lycos.com" ∷ "inbox.com" ∷ "rediffmail.com" ∷ "10minutemail.com"
    ∷ "tempmail.com" ∷ "guerrillamail.com" ∷ "mailinator.com" ∷ "throwawaymail.com"
    ∷ "sharklasers.com" ∷ "getairmail.com" ∷ "dispostable.com" ∷ "trashmail.com" ∷ "yopmail.com"
    ∷ "fakemailgenerator.com" ∷ "nada.ltd" ∷ "temp-mail.org" ∷ "burnermail.io" ∷ "mohmal.com" ∷ [])

abbrev is_alphanumeric : ℕ → Bool
is_alphanumeric c = leb b'a' c && leb c b'z' || leb b'A' c && leb c b'Z' || leb b'0' c && leb c b'9'

-- `[a-zA-Z0-9_.+-]`, `[a-zA-Z0-9-]` and `[a-zA-Z0-9-.]`
abbrev is_local : ℕ → Bool
is_local c = is_alphanumeric c || nat_eq c b'_' || nat_eq c b'.' || nat_eq c b'+' || nat_eq c b'-'

abbrev is_label : ℕ → Bool
is_label c = is_alphanumeric c || nat_eq c b'-'

abbrev is_domain : ℕ → Bool
is_domain c = is_alphanumeric c || nat_eq c b'-' || nat_eq c b'.'

-- `EMAIL_REGEX`, which `match` tries at the start
unfoldable pub email_regex : Regex
email_regex = cat at_start (
    cat (plus is_local) (
      cat (set (λ c. nat_eq c b'@'))
        (cat (plus is_label) (cat (set (λ c. nat_eq c b'.')) (cat (plus is_domain) at_end)))))

abbrev last_piece : List Text → Text
last_piece [] = []
last_piece (s ∷ []) = s
last_piece (s ∷ t ∷ ss) = last_piece (t ∷ ss)

-- What follows the last `@`: `rsplit("@", 1)[1]`, of a text that has one.
unfoldable pub after_at : Text → Text
after_at s = last_piece (split_on b'@' s)

unfoldable pub extract_email_domain : Text → Text
extract_email_domain email =
    if any (λ c. nat_eq c b'@') email then strip (lower (after_at (strip email))) else []

-- `".".join(domain_parts[i:])` for each `i` but the last.
unfoldable pub parent_domains : List Text → List Text
parent_domains [] = []
parent_domains (part ∷ []) = []
parent_domains (part ∷ next ∷ parts) =
    join (b'.' ∷ []) (part ∷ next ∷ parts) ∷ parent_domains (next ∷ parts)

unfoldable pub is_consumer_or_disposable_domain : Text → Bool
is_consumer_or_disposable_domain domain =
    let domain_clean = strip (lower domain) in
    text_in domain_clean disallowed_consumer_domains
    || any (λ sub. text_in sub disallowed_consumer_domains)
        (parent_domains (split_on b'.' domain_clean))

-- The three HTTPExceptions with status 400.
pub data EmailError : Type 0 where
  required invalid_format prohibited : EmailError

-- `validate_enterprise_email`: `enforce` is ENFORCE_ENTERPRISE_EMAIL_DOMAINS.
unfoldable pub validate_enterprise_email :
    (enforce allow_public_domains : Bool) → Text → EmailError ⊎ Text
validate_enterprise_email enforce allow_public_domains email =
    let cleaned_email = lower (strip email) in
    if is_empty email
    then inl required
    else if not (found email_regex cleaned_email)
    then inl invalid_format
    else if not enforce || allow_public_domains
    then inr cleaned_email
    else if is_consumer_or_disposable_domain (extract_email_domain cleaned_email)
    then inl prohibited
    else inr cleaned_email
