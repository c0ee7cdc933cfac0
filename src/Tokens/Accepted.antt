-- ===== src/Tokens/Accepted.antt =====
-- What an accepted token shows.
use cognitive_rag_system.Prelude.{
  ℕ, ◌≤◌, Option, none, some, List, [], ◌∷◌, ◌++◌, ◌⊎◌, inl, inr, ◌≡◌, refl, sym, ap, subst, ◌∙◌,
  eq_iff, Bool-cases, arith,
}
use cognitive_rag_system.Prelude.Dict.{Dict, lookup}
use cognitive_rag_system.Text.{Text, text_eq, text_eq_sound, split_on, join}
use mathlib.Core.List.{append_assoc}
use cognitive_rag_system.Text.Pieces.{join-split}
use cognitive_rag_system.Tokens.Service.{
  Claim, text, number, TokenError, check_expiry, unless_expired, b64url_decode, signing_input,
  read_payload, decode_payload, check_signature, decode_parts, decode_access_token,
}

-- An expiry that has not passed: a missing, empty or zero one never does.
abbrev pub IsCurrent : ℕ → Option Claim → Type 0
IsCurrent now none = Unit {0}
IsCurrent now (some Claim.null) = Unit {0}
IsCurrent now (some (text s)) = s ≡ ""
IsCurrent now (some (number exp)) = (exp ≡ 0) ⊎ (now ≤ exp)

module _ (b64decode : Text → Option Text) (loads : Text → Option (Dict Claim))
    (sign : Text → Text) where
  -- A token in three parts whose signature is that of the secret over the first two.
  pub record IsSigned (now : ℕ) (token : Text) (claims : Dict Claim) : Type 0 where
    pub header_b64 : Text
    pub payload_b64 : Text
    pub signature_b64 : Text
    pub payload_json : Text
    pub whole : token ≡ signing_input header_b64 payload_b64 ++ b'.' ∷ signature_b64
    pub signed :
        b64url_decode b64decode signature_b64 ≡ some (sign (signing_input header_b64 payload_b64))
    pub body : b64url_decode b64decode payload_b64 ≡ some payload_json
    pub parsed : loads payload_json ≡ some claims
    pub current : IsCurrent now (lookup "exp" claims)

  expiry-IsCurrent :
      (now : ℕ) (exp : Option Claim) → check_expiry now exp ≡ none → IsCurrent now exp
  unfolding check_expiry
  expiry-IsCurrent now none h = tt
  expiry-IsCurrent now (some Claim.null) h = tt
  expiry-IsCurrent now (some (text s)) h = ground (arith, h, eq_iff s "")
  expiry-IsCurrent now (some (number exp)) h = ground (arith, h)

  unexpired :
      (o : Option TokenError) (cs claims : Dict Claim)
      → unless_expired o cs ≡ inr claims
      → (o ≡ none) × (cs ≡ claims)
  unexpired none cs claims h = (refl, cc h)
  unexpired (some e) cs claims h = absurd (cc h)

  -- What reading the payload shows.
  read :
      (now : ℕ) (payload_json : Text) (o : Option (Dict Claim)) (claims : Dict Claim)
      → loads payload_json ≡ o
      → read_payload b64decode loads sign now o ≡ inr claims
      → (loads payload_json ≡ some claims) × IsCurrent now (lookup "exp" claims)
  unfolding read_payload
  read now payload_json none claims e h = absurd (cc h)
  read now payload_json (some cs) claims e h =
      let u = unexpired (check_expiry now (lookup "exp" cs)) cs claims h in
      (
        e ∙ ap some u.1,
        subst (λ c. IsCurrent now (lookup "exp" c)) u.1
            (expiry-IsCurrent now (lookup "exp" cs) u.0),
      )

  decoded :
      (now : ℕ) (token h p s : Text) (o : Option Text) (claims : Dict Claim)
      → token ≡ signing_input h p ++ b'.' ∷ s
      → b64url_decode b64decode s ≡ some (sign (signing_input h p))
      → b64url_decode b64decode p ≡ o
      → decode_payload b64decode loads sign now o ≡ inr claims
      → IsSigned now token claims
  unfolding decode_payload
  decoded now token h p s none claims whole signed e k = absurd (cc k)
  decoded now token h p s (some payload_json) claims whole signed e k =
      let r = read now payload_json (loads payload_json) claims refl k in
      record {
        header_b64 = h;
        payload_b64 = p;
        signature_b64 = s;
        payload_json = payload_json;
        whole = whole;
        signed = signed;
        body = e;
        parsed = r.0;
        current = r.1;
      }

  checked :
      (now : ℕ) (token h p s : Text) (o : Option Text) (claims : Dict Claim)
      → token ≡ signing_input h p ++ b'.' ∷ s
      → b64url_decode b64decode s ≡ o
      → check_signature b64decode loads sign now h p o ≡ inr claims
      → IsSigned now token claims
  unfolding check_signature
  checked now token h p s none claims whole e k = absurd (cc k)
  checked now token h p s (some actual) claims whole e k =
      elim (Bool-cases (text_eq (sign (signing_input h p)) actual)) [
        | inl right ↦
            decoded now token h p s (b64url_decode b64decode p) claims whole
              (e ∙ ap some (sym (text_eq_sound (sign (signing_input h p)) actual right))) refl
              (cc (rw right at k))
        | inr wrong ↦ absurd (cc (rw wrong at k))
      ]

  whole_token :
      (token h p s : Text)
      → split_on b'.' token ≡ h ∷ p ∷ s ∷ []
      → token ≡ signing_input h p ++ b'.' ∷ s
  unfolding signing_input join
  whole_token token h p s e =
      sym (join-split b'.' token) ∙ rw e (sym (append_assoc h (b'.' ∷ p) (b'.' ∷ s)))

  in_parts :
      (now : ℕ) (token : Text) (ps : List Text) (claims : Dict Claim)
      → split_on b'.' token ≡ ps
      → decode_parts b64decode loads sign now ps ≡ inr claims
      → IsSigned now token claims
  unfolding decode_parts
  in_parts now token [] claims e k = absurd (cc k)
  in_parts now token (h ∷ []) claims e k = absurd (cc k)
  in_parts now token (h ∷ p ∷ []) claims e k = absurd (cc k)
  in_parts now token (h ∷ p ∷ s ∷ []) claims e k =
      checked now token h p s (b64url_decode b64decode s) claims (whole_token token h p s e) refl k
  in_parts now token (h ∷ p ∷ s ∷ t ∷ ts) claims e k = absurd (cc k)

  -- An accepted token consists of three parts, the last of which decodes to the signature of the
  -- secret over the first two and the second to a JSON text of the claims, and its expiry, if it
  -- has one that is not empty or zero, has not passed.
  pub decode_access_token-IsSigned :
      (now : ℕ) (token : Text) (claims : Dict Claim)
      → decode_access_token b64decode loads sign now token ≡ inr claims
      → IsSigned now token claims
  unfolding decode_access_token
  decode_access_token-IsSigned now token claims h =
      in_parts now token (split_on b'.' token) claims refl h
