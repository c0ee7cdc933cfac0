-- ===== src/Tokens/RoundTrip.antt =====
-- Tokens that are made are read back, and only signed tokens are read.
use cognitive_rag_system.Prelude.{
  ℕ, ◌+◌, ◌-◌, ◌%◌, ◌≤◌, zero, suc, true, false, not, ◌&&◌, Option, some, [], ◌∷◌, ◌++◌, inl, inr,
  ◌≡◌, refl, sym, ap, ◌∙◌, any, length, nat_eq, ltb, Bool-cases, arith, if◌then◌else◌,
}
use cognitive_rag_system.Prelude.Dict.{Dict, insert, lookup-insert}
use cognitive_rag_system.Text.{Text, text_eq_refl, rstrip_by, split_on}
use mathlib.Core.List.{append_assoc, append-nil}
use cognitive_rag_system.Text.Pieces.{rstrip-none, rstrip-last, split-piece, split-last}
use cognitive_rag_system.Tokens.Service.{
  Claim, number, equals_sign, padding, check_expiry, b64url_encode, b64url_decode, header,
  signing_input, expiry, create_access_token, read_payload, decode_payload, check_signature,
  decode_parts, decode_access_token,
}

-- What the coding of base64 promises: a body of letters, digits, `-` and `_`, at most two `=` that
-- fill it up to a multiple of four characters, and decoding as its inverse.
pub record Base64 (b64encode : Text → Text) (b64decode : Text → Option Text) : Type 0 where
  pub body : Text → Text
  pub pads : Text → ℕ
  pub encodes : (d : Text) → b64encode d ≡ body d ++ padding (pads d)
  pub unpadded : (d : Text) → any equals_sign (body d) ≡ false
  pub undotted : (d : Text) → any (λ c. nat_eq c b'.') (body d) ≡ false
  pub pads_few : (d : Text) → pads d ≤ 2
  pub aligned : (d : Text) → (length (body d) + pads d) % 4 ≡ 0
  pub decodes : (d : Text) → b64decode (b64encode d) ≡ some d

padding-snoc : (n : ℕ) → padding (suc n) ≡ padding n ++ b'=' ∷ []
padding-snoc zero = refl
padding-snoc (suc n) = ap (λ s. b'=' ∷ s) (padding-snoc n)

rstrip-padding :
    (s : Text) (n : ℕ) → any equals_sign s ≡ false → rstrip_by equals_sign (s ++ padding n) ≡ s
rstrip-padding s zero h = rw (append-nil s) (rstrip-none equals_sign s h)
rstrip-padding s (suc n) h =
    rw (padding-snoc n, sym (append_assoc s (padding n) (b'=' ∷ [])))
      (rstrip-last equals_sign (s ++ padding n) b'=' refl ∙ rstrip-padding s n h)

empty-pad : (l n : ℕ) → n ≤ 2 → (l + n) % 4 ≡ 0 → nat_eq (l % 4) 0 ≡ true → 0 ≡ n
empty-pad l n few full e = ground arith

full-pad : (l n : ℕ) → n ≤ 2 → (l + n) % 4 ≡ 0 → nat_eq (l % 4) 0 ≡ false → 4 - l % 4 ≡ n
full-pad l n few full e = ground arith

-- The padding that decoding puts back.
pad-again :
    (l n : ℕ)
    → n ≤ 2
    → (l + n) % 4 ≡ 0
    → (if nat_eq (l % 4) 0 then [] else padding (4 - l % 4)) ≡ padding n
pad-again l n few full = elim (Bool-cases (nat_eq (l % 4) 0)) [
  | inl none_lost ↦ rw none_lost (ap padding (empty-pad l n few full none_lost))
  | inr lost ↦ rw lost (ap padding (full-pad l n few full lost))
]

not_late : (now exp : ℕ) → now ≤ exp → (not (nat_eq exp 0) && ltb exp now) ≡ false
not_late now exp h = ground arith

module _ (b64encode : Text → Text) (b64decode : Text → Option Text)
    (base : Base64 b64encode b64decode) where
  b64url-body : (d : Text) → b64url_encode b64encode d ≡ base.body d
  unfolding b64url_encode
  b64url-body d = rw (base.encodes d) (rstrip-padding (base.body d) (base.pads d) (base.unpadded d))

  pub b64url_decode-encode :
      (d : Text) → b64url_decode b64decode (b64url_encode b64encode d) ≡ some d
  unfolding b64url_decode
  b64url_decode-encode d =
      rw
        (
          b64url-body d,
          pad-again (length (base.body d)) (base.pads d) (base.pads_few d) (base.aligned d),
          sym (base.encodes d),
        )
        (base.decodes d)

  undotted : (d : Text) → any (λ c. nat_eq c b'.') (b64url_encode b64encode d) ≡ false
  undotted d = rw (b64url-body d) (base.undotted d)

  module _ (dumps : Dict Claim → Text) (loads : Text → Option (Dict Claim))
      (sign : Text → Text) where
    -- A token that is made has its three parts.
    split-token :
        (h p s : Text)
        → split_on b'.' (
            signing_input (b64url_encode b64encode h) (b64url_encode b64encode p)
            ++ b'.' ∷ b64url_encode b64encode s)
          ≡ b64url_encode b64encode h ∷ b64url_encode b64encode p ∷ b64url_encode b64encode s ∷ []
    unfolding signing_input
    split-token h p s =
        rw
          (append_assoc (b64url_encode b64encode h) (b'.' ∷ b64url_encode b64encode p)
            (b'.' ∷ b64url_encode b64encode s))
          (split-piece b'.' (b64url_encode b64encode h)
              (b64url_encode b64encode p ++ b'.' ∷ b64url_encode b64encode s) (undotted h)
            ∙ ap (λ ps. b64url_encode b64encode h ∷ ps)
                (split-piece b'.' (b64url_encode b64encode p) (b64url_encode b64encode s)
                    (undotted p)
                  ∙ ap (λ ps. b64url_encode b64encode p ∷ ps)
                      (split-last b'.' (b64url_encode b64encode s) (undotted s))))

    read-fresh :
        (now exp : ℕ) (claims : Dict Claim)
        → now ≤ exp
        → read_payload b64decode loads sign now (some (insert "exp" (number exp) claims))
          ≡ inr (insert "exp" (number exp) claims)
    unfolding read_payload check_expiry
    read-fresh now exp claims fresh =
        rw (lookup-insert "exp" "exp" (number exp) claims, not_late now exp fresh) refl

    check-own :
        (now exp : ℕ) (header_b64 : Text) (claims : Dict Claim)
        → loads (dumps (insert "exp" (number exp) claims)) ≡ some (insert "exp" (number exp) claims)
        → now ≤ exp
        → check_signature b64decode loads sign now header_b64
            (b64url_encode b64encode (dumps (insert "exp" (number exp) claims)))
            (some (
              sign (
                signing_input header_b64
                  (b64url_encode b64encode (dumps (insert "exp" (number exp) claims))))))
          ≡ inr (insert "exp" (number exp) claims)
    unfolding check_signature decode_payload
    check-own now exp header_b64 claims parses fresh =
        rw
          (
            text_eq_refl (
                sign (
                  signing_input header_b64
                    (b64url_encode b64encode (dumps (insert "exp" (number exp) claims))))),
            b64url_decode-encode (dumps (insert "exp" (number exp) claims)),
            parses,
          )
          (read-fresh now exp claims fresh)

    -- With the laws of base64, a token is read back as its claims with the expiry until that time,
    -- if `json` reads these claims back.
    pub decode-create :
        (issued now minutes : ℕ) (delta : Option ℕ) (claims : Dict Claim)
        → loads (dumps (insert "exp" (number (expiry issued minutes delta)) claims))
          ≡ some (insert "exp" (number (expiry issued minutes delta)) claims)
        → now ≤ expiry issued minutes delta
        → decode_access_token b64decode loads sign now
            (create_access_token b64encode dumps sign issued minutes claims delta)
          ≡ inr (insert "exp" (number (expiry issued minutes delta)) claims)
    unfolding decode_access_token create_access_token decode_parts
    decode-create issued now minutes delta claims parses fresh =
        let exp = expiry issued minutes delta in
        let body = dumps (insert "exp" (number exp) claims) in
        let head = dumps header in
        let input = signing_input (b64url_encode b64encode head) (b64url_encode b64encode body) in
        rw (split-token head body (sign input), b64url_decode-encode (sign input))
          (check-own now exp (b64url_encode b64encode head) claims parses fresh)
