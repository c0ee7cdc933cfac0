-- ===== src/Tokens/Service.antt =====
-- token_service.py: signed tokens. Bytes and the texts of a token are lists of numbers.
use cognitive_rag_system.Prelude.{
  ℕ, ◌+◌, ◌-◌, ◌*◌, ◌%◌, Bool, not, ◌&&◌, String, Option, none, some, List, [], ◌∷◌, ◌++◌, ◌⊎◌, inl,
  inr, ◌==◌, length, nat_eq, ltb, if◌then◌else◌, zero, suc,
}
use cognitive_rag_system.Prelude.Dict.{Dict, lookup, insert}
use cognitive_rag_system.Text.{Text, text_eq, rstrip_by, split_on}

-- The values of a payload.
pub data Claim : Type 0 where
  null : Claim
  text : String → Claim
  number : ℕ → Claim

-- The exceptions of `decode_access_token`.
pub data TokenError : Type 0 where
  structure encoding signature payload expiry_type expired : TokenError

abbrev pub equals_sign : ℕ → Bool
equals_sign c = nat_eq c b'='

-- `"=" * n`
abbrev pub padding : ℕ → Text
padding zero = []
padding (suc n) = b'=' ∷ padding n

-- `datetime.utcnow().timestamp() > exp`, if `exp` counts as true; a text raises.
unfoldable pub check_expiry : (now : ℕ) → Option Claim → Option TokenError
check_expiry now none = none
check_expiry now (some Claim.null) = none
check_expiry now (some (text s)) = if s == "" then none else some expiry_type
check_expiry now (some (number exp)) =
    if not (nat_eq exp 0) && ltb exp now then some expired else none

abbrev pub unless_expired : Option TokenError → Dict Claim → TokenError ⊎ Dict Claim
unless_expired none claims = inr claims
unless_expired (some e) claims = inl e

-- `urlsafe_b64encode` and `urlsafe_b64decode` (`none` where it raises) are parameters here, as are
-- `json.dumps` and `json.loads` with the coding of texts, and the HMAC under the secret of the
-- settings.

-- `_b64url_encode`
unfoldable pub b64url_encode : (b64encode : Text → Text) → Text → Text
b64url_encode b64encode data_bytes = rstrip_by equals_sign (b64encode data_bytes)

-- `_b64url_decode`
unfoldable pub b64url_decode : (b64decode : Text → Option Text) → Text → Option Text
b64url_decode b64decode s =
    b64decode (s ++ (if nat_eq (length s % 4) 0 then [] else padding (4 - length s % 4)))

-- The header that every token has.
unfoldable pub header : Dict Claim
header = ("alg", text "HS256") ∷ ("typ", text "JWT") ∷ []

unfoldable pub signing_input : Text → Text → Text
signing_input header_b64 payload_b64 = header_b64 ++ b'.' ∷ payload_b64

-- `create_access_token`: the expiry, in whole seconds: `expires_delta` if it is given and not
-- zero, else the minutes of the settings. A negative `expires_delta` is left out.
unfoldable pub expiry : (now default_minutes : ℕ) → Option ℕ → ℕ
expiry now default_minutes none = now + default_minutes * 60
expiry now default_minutes (some delta) =
    if nat_eq delta 0 then now + default_minutes * 60 else now + delta

module _ (b64encode : Text → Text) (dumps : Dict Claim → Text) (sign : Text → Text) where
  unfoldable pub create_access_token : (now default_minutes : ℕ) → Dict Claim → Option ℕ → Text
  create_access_token now default_minutes claims expires_delta =
      let exp = number (expiry now default_minutes expires_delta) in
      let header_b64 = b64url_encode b64encode (dumps header) in
      let payload_b64 = b64url_encode b64encode (dumps (insert "exp" exp claims)) in
      let input = signing_input header_b64 payload_b64 in
      input ++ b'.' ∷ b64url_encode b64encode (sign input)

module _ (b64decode : Text → Option Text) (loads : Text → Option (Dict Claim))
    (sign : Text → Text) where
  -- From the payload on.
  unfoldable pub read_payload : (now : ℕ) → Option (Dict Claim) → TokenError ⊎ Dict Claim
  read_payload now none = inl payload
  read_payload now (some claims) = unless_expired (check_expiry now (lookup "exp" claims)) claims

  unfoldable pub decode_payload : (now : ℕ) → Option Text → TokenError ⊎ Dict Claim
  decode_payload now none = inl encoding
  decode_payload now (some payload_json) = read_payload now (loads payload_json)

  -- From the signature on.
  unfoldable pub check_signature :
      (now : ℕ) (header_b64 payload_b64 : Text) → Option Text → TokenError ⊎ Dict Claim
  check_signature now header_b64 payload_b64 none = inl encoding
  check_signature now header_b64 payload_b64 (some actual_sig) =
      if text_eq (sign (signing_input header_b64 payload_b64)) actual_sig
      then decode_payload now (b64url_decode b64decode payload_b64)
      else inl signature

  unfoldable pub decode_parts : (now : ℕ) → List Text → TokenError ⊎ Dict Claim
  decode_parts now (header_b64 ∷ payload_b64 ∷ signature_b64 ∷ []) =
      check_signature now header_b64 payload_b64 (b64url_decode b64decode signature_b64)
  decode_parts now _ = inl structure

  unfoldable pub decode_access_token : (now : ℕ) → Text → TokenError ⊎ Dict Claim
  decode_access_token now token = decode_parts now (split_on b'.' token)
