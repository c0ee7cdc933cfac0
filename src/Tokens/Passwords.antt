-- ===== src/Tokens/Passwords.antt =====
-- token_service.py: password hashes.
use cognitive_rag_system.Prelude.{
  ℕ, Bool, true, false, ◌||◌, Option, none, some, [], ◌∷◌, ◌++◌, nat_eq, if◌then◌else◌, any, ◌≡◌,
  refl, ◌∙◌, Bool-cases, inl, inr, arith,
}
use cognitive_rag_system.Text.{Text, codes, starts_with, text_eq, text_eq_refl}

abbrev prepend : ℕ → Option (Text × Text) → Option (Text × Text)
prepend c none = none
prepend c (some (before, after)) = some (c ∷ before, after)

-- The texts before and after the first `$`, if there is one.
unfoldable pub split_dollar : Text → Option (Text × Text)
split_dollar [] = none
split_dollar (c ∷ s) =
    let rest = split_dollar s in if nat_eq c b'$' then some ([], s) else prepend c rest

-- What follows the first `$`, at its own first `$`.
abbrev pub split_rest : Option (Text × Text) → Option (Text × Text)
split_rest none = none
split_rest (some (before, after)) = split_dollar after

-- passlib's bcrypt context: `hash` with its salt (`none` where it raises) and `verify`.
pub record Bcrypt : Type 0 where
  pub hash : Text → Option Text
  pub verify : (plain hashed : Text) → Option Bool

-- `pwd_context` (`none` where passlib is missing) and the hexadecimal text of `pbkdf2_hmac` for a
-- password and a salt.
module _ (pwd_context : Option Bcrypt) (pbkdf2 : (password salt : Text) → Text) where
  unfoldable pub fallback_hash : (salt password : Text) → Text
  fallback_hash salt password = codes "pbkdf2$" ++ (salt ++ b'$' ∷ pbkdf2 password salt)

  -- `get_password_hash`: `salt` is what `token_hex` gives.
  unfoldable pub get_password_hash : (salt password : Text) → Text
  get_password_hash salt password = elim pwd_context [
    | none ↦ fallback_hash salt password
    | some context ↦ elim (context.hash password) [
      | none ↦ fallback_hash salt password
      | some hashed ↦ hashed
    ]
  ]

  abbrev or_false : Option Bool → Bool
  or_false none = false
  or_false (some b) = b

  -- `pwd_context.verify`, where there is a context and it does not raise
  unfoldable pub verify_bcrypt : (plain_password hashed_password : Text) → Bool
  verify_bcrypt plain_password hashed_password = elim pwd_context [
    | none ↦ false
    | some context ↦ or_false (context.verify plain_password hashed_password)
  ]

  -- The hash of a salt and a key: `none` where unpacking raises.
  unfoldable pub verify_pbkdf2 : (plain_password : Text) → Option (Text × Text) → Bool
  verify_pbkdf2 plain_password none = false
  verify_pbkdf2 plain_password (some (salt, key_hex)) = text_eq (pbkdf2 plain_password salt) key_hex

  -- `verify_password`: a missing result counts as false.
  unfoldable pub verify_password : (plain_password hashed_password : Text) → Bool
  verify_password plain_password hashed_password =
      if starts_with hashed_password (codes "$2b$") || starts_with hashed_password (codes "$2a$")
      then verify_bcrypt plain_password hashed_password
      else if starts_with hashed_password (codes "pbkdf2$")
      then verify_pbkdf2 plain_password (split_rest (split_dollar hashed_password))
      else verify_pbkdf2 plain_password (split_dollar hashed_password)

abbrev pub has_dollar : Text → Bool
has_dollar s = any (λ c. nat_eq c b'$') s

-- A hash that bcrypt gives has one of its prefixes, and bcrypt verifies it.
abbrev pub VerifiesHash : Bcrypt → Text → Option Text → Type 0
VerifiesHash context password none = Unit {0}
VerifiesHash context password (some hashed) =
    ((starts_with hashed (codes "$2b$") || starts_with hashed (codes "$2a$")) ≡ true)
    × (context.verify password hashed ≡ some true)

abbrev pub Verifies : Option Bcrypt → Text → Type 0
Verifies none password = Unit {0}
Verifies (some context) password = VerifiesHash context password (context.hash password)

split-append :
    (salt key : Text)
    → has_dollar salt ≡ false
    → split_dollar (salt ++ b'$' ∷ key) ≡ some (salt, key)
unfolding split_dollar
split-append [] key h = refl
split-append (c ∷ salt) key h = elim (Bool-cases (nat_eq c b'$')) [
  | inl here ↦ absurd (ground (arith, h, here))
  | inr other ↦ rw (other, split-append salt key (ground (arith, h, other))) refl
]

verify-fallback :
    (pbkdf2 : (password salt : Text) → Text) (salt password other : Text)
    (pwd_context : Option Bcrypt)
    → has_dollar salt ≡ false
    → verify_password pwd_context pbkdf2 other (fallback_hash pwd_context pbkdf2 salt password)
      ≡ text_eq (pbkdf2 other salt) (pbkdf2 password salt)
unfolding verify_password fallback_hash starts_with split_dollar verify_pbkdf2
verify-fallback pbkdf2 salt password other pwd_context h =
    rw (split-append salt (pbkdf2 password salt) h) refl

verify-own :
    (pbkdf2 : (password salt : Text) → Text) (salt password : Text) (context : Bcrypt)
    (o : Option Text)
    → has_dollar salt ≡ false
    → context.hash password ≡ o
    → VerifiesHash context password o
    → verify_password
        (some context)
        pbkdf2
        password
        (get_password_hash (some context) pbkdf2 salt password)
      ≡ true
unfolding get_password_hash verify_password verify_bcrypt
verify-own pbkdf2 salt password context none h hashed v = rw hashed (
    verify-fallback pbkdf2 salt password password (some context) h
    ∙ text_eq_refl (pbkdf2 password salt))
verify-own pbkdf2 salt password context (some hash) h hashed v = rw (hashed, v.0, v.1) refl

-- Both ways of hashing are undone by the check. For a salt without `$`, as a hexadecimal text is: a
-- password is accepted against its own hash, if bcrypt, where it is there and does not raise, gives
-- a hash with one of its prefixes that it verifies. The fallback hash, moreover, accepts exactly
-- the passwords that PBKDF2 does not tell from the one that was hashed.
pub verify-get_password_hash :
    (pbkdf2 : (password salt : Text) → Text) (salt password other : Text)
    (pwd_context : Option Bcrypt)
    → has_dollar salt ≡ false
    → Verifies pwd_context password
    → (verify_password pwd_context pbkdf2 password
          (get_password_hash pwd_context pbkdf2 salt password)
        ≡ true)
      × (verify_password pwd_context pbkdf2 other (fallback_hash pwd_context pbkdf2 salt password)
          ≡ text_eq (pbkdf2 other salt) (pbkdf2 password salt))
unfolding get_password_hash
verify-get_password_hash pbkdf2 salt password other none h v = (
  verify-fallback pbkdf2 salt password password none h ∙ text_eq_refl (pbkdf2 password salt),
  verify-fallback pbkdf2 salt password other none h,
)
verify-get_password_hash pbkdf2 salt password other (some context) h v = (
  verify-own pbkdf2 salt password context (context.hash password) h refl v,
  verify-fallback pbkdf2 salt password other (some context) h,
)
