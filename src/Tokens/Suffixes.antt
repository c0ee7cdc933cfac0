-- ===== src/Tokens/Suffixes.antt =====
-- The parent domains that `is_consumer_or_disposable_domain` walks through, as endings of a text.
use cognitive_rag_system.Prelude.{
  ℕ, Bool, true, false, ◌||◌, List, [], ◌∷◌, ◌≡◌, refl, ap, ◌∙◌, any, all, All, nat_eq, Bool-cases,
  inl, inr, arith,
}
use cognitive_rag_system.Text.{
  Text, text_eq, text_eq_sound, text_in, lower, strip, join, prepend, split_on,
}
use cognitive_rag_system.Text.Pieces.{IsFull, split-IsFull, join-split}
use cognitive_rag_system.Tokens.Emails.{
  disallowed_consumer_domains, parent_domains, is_consumer_or_disposable_domain,
}

-- `s.endswith(t)`
unfoldable pub ends_with : Text → Text → Bool
ends_with [] t = text_eq [] t
ends_with (c ∷ s) t = text_eq (c ∷ s) t || ends_with s t

-- The text is the domain, or a subdomain of it.
abbrev pub is_under : Text → Text → Bool
is_under s domain = text_eq s domain || ends_with s (b'.' ∷ domain)

-- The joined endings of a list of parts.
unfoldable endings : List Text → List Text
endings [] = []
endings (p ∷ ps) = join (b'.' ∷ []) (p ∷ ps) ∷ endings ps

-- Those but the first.
abbrev proper : List Text → List Text
proper [] = []
proper (p ∷ ps) = endings ps

abbrev is_dot : ℕ → Bool
is_dot c = nat_eq c b'.'

abbrev some_eq : Text → List Text → Bool
some_eq x ps = any (λ p. text_eq p x) ps

proper-prepend : (c : ℕ) (ps : List Text) → proper (prepend c ps) ≡ proper ps
unfolding endings
proper-prepend c [] = refl
proper-prepend c (p ∷ ps) = refl

endings-proper :
    (x : Text) (ps : List Text) (s : Text)
    → join (b'.' ∷ []) ps ≡ s
    → IsFull ps
    → some_eq x (endings ps) ≡ (text_eq s x || some_eq x (proper ps))
unfolding endings
endings-proper x [] s e h = elim h [ ]
endings-proper x (p ∷ ps) s e h = rw e refl

-- The proper endings equal to `x` are the places where the text ends in a dot and `x`.
proper-ends_with : (x s : Text) → some_eq x (proper (split_on b'.' s)) ≡ ends_with s (b'.' ∷ x)
unfolding split_on ends_with text_eq endings
proper-ends_with x [] = refl
proper-ends_with x (c ∷ s) = elim (Bool-cases (is_dot c)) [
  | inl here ↦ rw (here) (
      endings-proper x (split_on b'.' s) s (join-split b'.' s) (split-IsFull b'.' s)
      ∙ rw (proper-ends_with x s) (ground (arith, here)))
  | inr other ↦ rw (other, proper-prepend c (split_on b'.' s), proper-ends_with x s) refl
]

abbrev AreLabels : List Text → Type 0
AreLabels ps = All (λ p. any is_dot p ≡ false) ps

prepend-AreLabels :
    (c : ℕ) (ps : List Text) → is_dot c ≡ false → AreLabels ps → AreLabels (prepend c ps)
prepend-AreLabels c [] h a = (ground (arith, h), tt)
prepend-AreLabels c (p ∷ ps) h a = (ground (arith, h, a.0), a.1)

split-AreLabels : (s : Text) → AreLabels (split_on b'.' s)
unfolding split_on
split-AreLabels [] = (refl, tt)
split-AreLabels (c ∷ s) = elim (Bool-cases (is_dot c)) [
  | inl here ↦ rw here (refl, split-AreLabels s)
  | inr other ↦ rw other (prepend-AreLabels c (split_on b'.' s) other (split-AreLabels s))
]

-- A label is no domain.
label-neq : (x p : Text) → any is_dot x ≡ true → any is_dot p ≡ false → text_eq p x ≡ false
label-neq x p dotted label = elim (Bool-cases (text_eq p x)) [
  | inl same ↦ absurd (cc (ap (any is_dot) (text_eq_sound p x same), dotted, label))
  | inr other ↦ other
]

-- Leaving the last part alone out loses no domain.
parents-endings :
    (x : Text) (ps : List Text)
    → any is_dot x ≡ true
    → AreLabels ps
    → some_eq x (parent_domains ps) ≡ some_eq x (endings ps)
unfolding parent_domains endings join
parents-endings x [] d a = refl
parents-endings x (p ∷ []) d a = rw (label-neq x p d a.0) refl
parents-endings x (p ∷ q ∷ ps) d a = rw (parents-endings x (q ∷ ps) d a.1) refl

parents-is_under :
    (x s : Text)
    → any is_dot x ≡ true
    → (text_eq s x || some_eq x (parent_domains (split_on b'.' s))) ≡ is_under s x
parents-is_under x s d =
    rw
      (
        parents-endings x (split_on b'.' s) d (split-AreLabels s),
        endings-proper x (split_on b'.' s) s (join-split b'.' s) (split-IsFull b'.' s),
        proper-ends_with x s,
      )
      (ground arith)

any-none : (ps : List Text) → any (λ p. text_in p []) ps ≡ false
unfolding text_in
any-none [] = refl
any-none (p ∷ ps) = any-none ps

any-or :
    (x : Text) (xs ps : List Text)
    → any (λ p. text_in p (x ∷ xs)) ps ≡ (some_eq x ps || any (λ p. text_in p xs) ps)
unfolding text_in
any-or x xs [] = refl
any-or x xs (p ∷ ps) = ground (arith, any-or x xs ps)

-- Either order of the two searches.
any-swap : (xs ps : List Text) → any (λ p. text_in p xs) ps ≡ any (λ x. some_eq x ps) xs
unfolding text_in
any-swap [] ps = any-none ps
any-swap (x ∷ xs) ps = rw (any-or x xs ps, any-swap xs ps) refl

merge :
    (s : Text) (xs ps : List Text)
    → All (λ x. (text_eq s x || some_eq x ps) ≡ is_under s x) xs
    → (text_in s xs || any (λ x. some_eq x ps) xs) ≡ any (is_under s) xs
unfolding text_in
merge s [] ps h = refl
merge s (x ∷ xs) ps h = ground (arith, h.0, merge s xs ps h.1)

dotted-is_under :
    (s : Text) (xs : List Text)
    → All (λ x. any is_dot x ≡ true) xs
    → All (λ x. (text_eq s x || some_eq x (parent_domains (split_on b'.' s))) ≡ is_under s x) xs
dotted-is_under s [] h = tt
dotted-is_under s (x ∷ xs) h = (parents-is_under x s h.0, dotted-is_under s xs h.1)

all-All : (xs : List Text) → all (λ x. any is_dot x) xs ≡ true → All (λ x. any is_dot x ≡ true) xs
all-All [] h = tt
all-All (x ∷ xs) h = (ground (arith, h), all-All xs (ground (arith, h)))

disallowed-dotted : All (λ x. any is_dot x ≡ true) disallowed_consumer_domains
unfolding disallowed_consumer_domains
disallowed-dotted = all-All disallowed_consumer_domains refl

-- A domain is refused exactly if, in lower case and stripped, it is one of the disallowed domains
-- or ends in a dot and one of them.
pub is_consumer_or_disposable_domain_lem :
    (domain : Text)
    → is_consumer_or_disposable_domain domain
      ≡ any (is_under (strip (lower domain))) disallowed_consumer_domains
unfolding is_consumer_or_disposable_domain
is_consumer_or_disposable_domain_lem domain =
    let s = strip (lower domain) in
    rw (any-swap disallowed_consumer_domains (parent_domains (split_on b'.' s))) (
      merge s disallowed_consumer_domains (parent_domains (split_on b'.' s))
        (dotted-is_under s disallowed_consumer_domains disallowed-dotted))
